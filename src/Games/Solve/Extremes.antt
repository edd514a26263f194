-- ===== src/Games/Solve/Extremes.antt =====
-- The greatest and the least of several numbers, as the loops of the solvers find them.
use rs_social_simulation_too.Prelude.{
  ℕ, zero, suc, ◌+◌, ◌≤◌, ◌<◌, ◌≡◌, refl, sym, ◌∙◌, ap, subst, arith,
}
use rs_social_simulation_too.Prelude.{List, [], ◌∷◌, ◌++◌, map, range_from, inl, inr, ◌⊎◌, ◌∈◌, All}

-- An element that no other one exceeds, by the comparison given.
abbrev pub IsExtreme : {X : Type 0} → (X → X → Type 0) → List X → X → Type 0
IsExtreme Below xs m = (m ∈ xs) × All (λ y. Below y m) xs

-- The operation applied to all elements in turn.
abbrev pub fold : {X : Type 0} → (X → X → X) → X → List X → X
fold op a [] = a
fold op a (x ∷ xs) = fold op (op a x) xs

-- An operation that gives the one of two numbers that the other does not exceed.
pub record Choice {X : Type 0} (IsNumber : X → Type 0) (Below : X → X → Type 0) (op : X → X → X)
    : Type 0 where
  pub below_refl : (a : X) → IsNumber a → Below a a
  pub below_trans :
      (a b c : X) → IsNumber a → IsNumber b → IsNumber c → Below a b → Below b c → Below a c
  pub cases : (a b : X) → IsNumber a → IsNumber b → (op a b ≡ a) ⊎ (op a b ≡ b)
  pub first : (a b : X) → IsNumber a → IsNumber b → Below a (op a b)
  pub second : (a b : X) → IsNumber a → IsNumber b → Below b (op a b)

module _ {X : Type 0} {IsNumber : X → Type 0} {Below : X → X → Type 0} {op : X → X → X}
    (c : Choice IsNumber Below op) where
  open c use {below_refl, below_trans, cases, first, second}

  op-IsNumber : (a b : X) → IsNumber a → IsNumber b → IsNumber (op a b)
  op-IsNumber a b h k = elim (cases a b h k) [
    | inl e ↦ subst IsNumber (sym e) h
    | inr e ↦ subst IsNumber (sym e) k
  ]

  pub fold-both :
      (a : X) (xs : List X)
      → IsNumber a
      → All IsNumber xs
      → IsNumber (fold op a xs) × IsExtreme Below (a ∷ xs) (fold op a xs)
  fold-both a [] h all = (h, (inl refl, (below_refl a h, tt)))
  fold-both a (x ∷ xs) h (k, all) =
      let number = op-IsNumber a x h k in
      let (is_number, (member, (at_least, rest))) = fold-both (op a x) xs number all in
      let m = fold op (op a x) xs in
      (
        is_number,
        (
          elim member [
            | inl e ↦ elim (cases a x h k) [ inl f ↦ inl (e ∙ f) | inr f ↦ inr (inl (e ∙ f)) ]
            | inr later ↦ inr (inr later)
          ],
          (
            below_trans a (op a x) m h number is_number (first a x h k) at_least,
            (below_trans x (op a x) m k number is_number (second a x h k) at_least, rest),
          ),
        ),
      )

  -- Folding finds the extreme of what it starts with and of the elements.
  pub fold-IsExtreme :
      (a : X) (xs : List X) → IsNumber a → All IsNumber xs → IsExtreme Below (a ∷ xs) (fold op a xs)
  fold-IsExtreme a xs h all = (fold-both a xs h all).1

pub fold-append :
    {X : Type 0} (op : X → X → X) (a : X) (xs ys : List X)
    → fold op a (xs ++ ys) ≡ fold op (fold op a xs) ys
fold-append op a [] ys = refl
fold-append op a (x ∷ xs) ys = fold-append op (op a x) xs ys

pub mem-map : {X Y : Type 0} (g : X → Y) (xs : List X) (x : X) → x ∈ xs → g x ∈ map g xs
mem-map g [] x m = absurd m
mem-map g (y ∷ xs) x (inl e) = inl (ap g e)
mem-map g (y ∷ xs) x (inr m) = inr (mem-map g xs x m)

pub mem-map_cases :
    {X Y : Type 0} (g : X → Y) (xs : List X) (y : Y) → y ∈ map g xs → (x : X) × (x ∈ xs) × (y ≡ g x)
mem-map_cases g [] y m = absurd m
mem-map_cases g (x ∷ xs) y (inl e) = (x, inl refl, e)
mem-map_cases g (x ∷ xs) y (inr m) =
    let (z, member, e) = mem-map_cases g xs y m in (z, inr member, e)

pub mem-range_from : (i n k : ℕ) → i ≤ k → k < i + n → k ∈ range_from i n
mem-range_from i zero k h l = absurd (omega arith)
mem-range_from i (suc n) k h l = elim (nat_cases i k) [
  | inl e ↦ inl e
  | inr ne ↦ inr (mem-range_from (i + 1) n k (omega arith) (omega arith))
]
  where
    nat_cases : (i k : ℕ) → (k ≡ i) ⊎ ((k < i) ⊎ (i < k))
    nat_cases i k = ground arith

pub mem-range_from_bounds : (i n k : ℕ) → k ∈ range_from i n → (i ≤ k) × (k < i + n)
mem-range_from_bounds i zero k m = absurd m
mem-range_from_bounds i (suc n) k (inl e) = (omega arith, omega arith)
mem-range_from_bounds i (suc n) k (inr m) =
    let (h, l) = mem-range_from_bounds (i + 1) n k m in (omega arith, omega arith)
