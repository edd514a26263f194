-- ===== src/Prelude/Reads.antt =====
-- Lists read position by position: two lists that read alike are equal, and how a part of a list reads.
use Prim.Native.Nat.{ℕ, zero, suc, ◌+◌, ◌-◌, ◌*◌, ◌/◌, ◌%◌, ◌≤◌, ◌<◌, min}
use native.Mathlib.Nat.{div-add-mod, mod-add-mod, add-mod_right}
use mathlib.Core.Path.{◌≡◌, refl, sym, ap, ◌∙◌}
use mathlib.Core.Logic.{◌⊎◌, inl, inr}
use mathlib.Core.List.{List, [], ◌∷◌, ◌++◌, map}
use mathlib.Core.Option.{none, some}
use native.Mathlib.Omega.{arith}
use rs_social_simulation_too.Prelude.Lists.{
  length, get_elem?, take, drop, slice, length-map, length-take,
}

module _ {A : Type 0} where
  nothing_there : {a : A} → none ≡ some a → ⊥
  nothing_there e = cc

  pub reads_alike : (xs ys : List A) → ((i : ℕ) → get_elem? xs i ≡ get_elem? ys i) → xs ≡ ys
  reads_alike [] [] h = refl
  reads_alike [] (y ∷ ys) h = absurd (nothing_there (h 0))
  reads_alike (x ∷ xs) [] h = absurd (nothing_there (sym (h 0)))
  reads_alike (x ∷ xs) (y ∷ ys) h =
      let first = h 0 in let rest = reads_alike xs ys (λ i. h (suc i)) in cc

  pub get_elem?_beyond : (xs : List A) (i : ℕ) → length xs ≤ i → get_elem? xs i ≡ none
  get_elem?_beyond [] i h = refl
  get_elem?_beyond (x ∷ xs) zero h = absurd (omega arith)
  get_elem?_beyond (x ∷ xs) (suc i) h = get_elem?_beyond xs i (omega arith)

  pub get_elem?-drop :
      (n : ℕ) (xs : List A) (i j : ℕ) → n + i ≡ j → get_elem? (drop n xs) i ≡ get_elem? xs j
  get_elem?-drop zero xs i j h = ap (get_elem? xs) (omega arith)
  get_elem?-drop (suc n) [] i j h = refl
  get_elem?-drop (suc n) (x ∷ xs) i zero h = absurd (omega arith)
  get_elem?-drop (suc n) (x ∷ xs) i (suc j) h = get_elem?-drop n xs i j (omega arith)

  pub get_elem?-take :
      (n : ℕ) (xs : List A) (i : ℕ) → i < n → get_elem? (take n xs) i ≡ get_elem? xs i
  get_elem?-take zero xs i h = absurd (omega arith)
  get_elem?-take (suc n) [] i h = refl
  get_elem?-take (suc n) (x ∷ xs) zero h = refl
  get_elem?-take (suc n) (x ∷ xs) (suc i) h = get_elem?-take n xs i (omega arith)

  pub get_elem?-append_right :
      (xs ys : List A) (i j : ℕ) → length xs + i ≡ j → get_elem? (xs ++ ys) j ≡ get_elem? ys i
  get_elem?-append_right [] ys i j h = ap (get_elem? ys) (omega arith)
  get_elem?-append_right (x ∷ xs) ys i zero h = absurd (omega arith)
  get_elem?-append_right (x ∷ xs) ys i (suc j) h = get_elem?-append_right xs ys i j (omega arith)

  pub drop_split :
      (n : ℕ) (xs : List A) (a : A) → get_elem? xs n ≡ some a → drop n xs ≡ a ∷ drop (suc n) xs
  drop_split n [] a h = absurd (nothing_there h)
  drop_split zero (x ∷ xs) a h = cc
  drop_split (suc n) (x ∷ xs) a h = drop_split n xs a h

  pub drop_all : (n : ℕ) (xs : List A) → length xs ≤ n → drop n xs ≡ []
  drop_all zero [] h = refl
  drop_all zero (x ∷ xs) h = absurd (omega arith)
  drop_all (suc n) [] h = refl
  drop_all (suc n) (x ∷ xs) h = drop_all n xs (omega arith)

  length-drop : (n : ℕ) (xs : List A) → length (drop n xs) ≡ length xs - n
  length-drop zero xs = omega arith
  length-drop (suc n) [] = omega arith
  length-drop (suc n) (x ∷ xs) = omega (arith, length-drop n xs)

  pub length-slice : (s e : ℕ) (xs : List A) → e ≤ length xs → length (slice s e xs) ≡ e - s
  length-slice s e xs h = omega (arith, length-take (e - s) (drop s xs), length-drop s xs)

  pub get_elem?-slice :
      (s e : ℕ) (xs : List A) (i j : ℕ)
      → j < e
      → s + i ≡ j
      → get_elem? (slice s e xs) i ≡ get_elem? xs j
  get_elem?-slice s e xs i j h k =
      get_elem?-take (e - s) (drop s xs) i (omega arith) ∙ get_elem?-drop s xs i j k

  -- The last `n` of a list, or all of it.
  abbrev pub recent : ℕ → List A → List A
  recent n xs = drop (length xs - n) xs

  pub length-recent : (n : ℕ) (xs : List A) → length (recent n xs) ≡ min (length xs) n
  length-recent n xs = omega (arith, length-drop (length xs - n) xs)

module _ {A : Type 0} {B : Type 0} (f : A → B) where
  map-drop : (n : ℕ) (xs : List A) → map f (drop n xs) ≡ drop n (map f xs)
  map-drop zero xs = refl
  map-drop (suc n) [] = refl
  map-drop (suc n) (x ∷ xs) = map-drop n xs

  pub map-recent : (n : ℕ) (xs : List A) → map f (recent n xs) ≡ recent n (map f xs)
  map-recent n xs =
      map-drop (length xs - n) xs ∙ ap (λ (k : ℕ). drop (k - n) (map f xs)) (sym (length-map f xs))

product_step : (n a b : ℕ) → b < a → n * b + n ≤ n * a
product_step n a b h = grind arith

product_le : (n a b : ℕ) → a ≤ b → n * a ≤ n * b
product_le n a b h = grind arith

-- Going round a ring of `n` slots, fewer than `n` steps do not come back to a slot.
pub slots_differ : (n i j : ℕ) → i < j → j < i + n → i % n ≡ j % n → ⊥
slots_differ n i j h k e =
    let at_i = div-add-mod i n in
    let at_j = div-add-mod j n in
    elim (below (i / n) (j / n)) [
      | inl l ↦ omega (arith, product_step n (j / n) (i / n) l)
      | inr l ↦ omega (arith, product_le n (j / n) (i / n) l)
    ]
  where
    below : (a b : ℕ) → (a < b) ⊎ (b ≤ a)
    below a b = ground arith

-- The place of the oldest of `n` steps kept, and of those after it.
pub place_full : (n len k : ℕ) → n ≤ len → (len % n + k) % n ≡ (len - n + k) % n
place_full n len k h =
    mod-add-mod len n k ∙ ap (λ (j : ℕ). j % n) (omega arith) ∙ add-mod_right (len - n + k) n
