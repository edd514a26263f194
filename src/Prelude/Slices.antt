-- ===== src/Prelude/Slices.antt =====
-- Reading elements and slices of two lists joined.
use Prim.Native.Nat.{ℕ, zero, suc, ◌+◌, ◌-◌, ◌≤◌, ◌<◌}
use mathlib.Core.Path.{◌≡◌, refl, ap}
use mathlib.Core.List.{List, [], ◌∷◌, ◌++◌}
use mathlib.Core.Option.{some}
use native.Mathlib.Omega.{arith}
use rs_social_simulation_too.Prelude.Lists.{length, get_elem?, take, slice}

module _ {A : Type 0} where
  pub get_elem?-append_left :
      (xs ys : List A) (i : ℕ) → i < length xs → get_elem? (xs ++ ys) i ≡ get_elem? xs i
  get_elem?-append_left [] ys i h = absurd (omega arith)
  get_elem?-append_left (x ∷ xs) ys zero h = refl
  get_elem?-append_left (x ∷ xs) ys (suc i) h = get_elem?-append_left xs ys i (omega arith)

  pub get_elem?-append_last :
      (xs : List A) (y : A) (i : ℕ) → i ≡ length xs → get_elem? (xs ++ (y ∷ [])) i ≡ some y
  get_elem?-append_last [] y zero h = refl
  get_elem?-append_last [] y (suc i) h = absurd (omega arith)
  get_elem?-append_last (x ∷ xs) y zero h = absurd (omega arith)
  get_elem?-append_last (x ∷ xs) y (suc i) h = get_elem?-append_last xs y i (omega arith)

  take_all : (xs : List A) → take (length xs) xs ≡ xs
  take_all [] = refl
  take_all (x ∷ xs) = ap (◌∷◌ x) (take_all xs)

  pub take-append_left : (n : ℕ) (xs ys : List A) → n ≤ length xs → take n (xs ++ ys) ≡ take n xs
  take-append_left zero xs ys h = refl
  take-append_left (suc n) [] ys h = absurd (omega arith)
  take-append_left (suc n) (x ∷ xs) ys h = ap (◌∷◌ x) (take-append_left n xs ys (omega arith))

  pub slice-append_left :
      (s e : ℕ) (xs ys : List A) → e ≤ length xs → slice s e (xs ++ ys) ≡ slice s e xs
  slice-append_left zero e xs ys h = take-append_left (e - 0) xs ys (omega arith)
  slice-append_left (suc s) e [] ys h = let none_left : e - suc s ≡ 0 = omega arith in rw none_left
  slice-append_left (suc s) zero (x ∷ xs) ys h =
      let none_left : 0 - suc s ≡ 0 = omega arith in rw none_left
  slice-append_left (suc s) (suc e) (x ∷ xs) ys h =
      let less : suc e - suc s ≡ e - s = omega arith in
      rw less (slice-append_left s e xs ys (omega arith))

  pub slice-append_right :
      (s e : ℕ) (xs ys : List A)
      → s ≡ length xs
      → e ≡ length xs + length ys
      → slice s e (xs ++ ys) ≡ ys
  slice-append_right zero e [] ys h k =
      let whole : e - 0 ≡ length ys = omega arith in rw whole (take_all ys)
  slice-append_right zero e (x ∷ xs) ys h k = absurd (omega arith)
  slice-append_right (suc s) e [] ys h k = absurd (omega arith)
  slice-append_right (suc s) zero (x ∷ xs) ys h k = absurd (omega arith)
  slice-append_right (suc s) (suc e) (x ∷ xs) ys h k =
      let less : suc e - suc s ≡ e - s = omega arith in
      rw less (slice-append_right s e xs ys (omega arith) (omega arith))
