-- ===== src/Prelude/Sort.antt =====
-- `slice::sort`, `sort_unstable` and `Vec::dedup` of Rust's standard library over a total order,
-- with what their callers rely on: the same elements, in ascending order, without repetition.
pub mod Laws
pub mod Numbers
use mathlib.Core.Path.{◌≡◌}
use mathlib.Core.Bool.{Bool, true, false}
use mathlib.Core.List.{List, [], ◌∷◌}
use rs_social_simulation_too.Prelude.Tests.{if◌then◌else◌}
use rs_social_simulation_too.Prelude.Members.{◌∈◌, All}

-- A type with a total order and a test for equality, as `Ord` and `Eq` give it.
pub record Ord (A : Type 0) : Type 0 where
  pub le : A → A → Bool
  pub eq : A → A → Bool
  pub le_total : (a b : A) → le a b ≡ false → le b a ≡ true
  pub le_trans : (a b c : A) → le a b ≡ true → le b c ≡ true → le a c ≡ true
  pub le_antisym : (a b : A) → le a b ≡ true → le b a ≡ true → a ≡ b
  pub eq_sound : (a b : A) → eq a b ≡ true → a ≡ b
  pub eq_refl : (a : A) → eq a a ≡ true

module _ {A : Type 0} (o : Ord A) where
  unfoldable pub insert : A → List A → List A
  insert x [] = x ∷ []
  insert x (y ∷ ys) = if o.le x y then x ∷ (y ∷ ys) else y ∷ insert x ys

  unfoldable pub sort : List A → List A
  unfolding insert
  sort [] = []
  sort (x ∷ xs) = insert x (sort xs)

  -- Drops an element that is equal to the one kept before it.
  unfoldable pub dedup_after : A → List A → List A
  dedup_after x [] = []
  dedup_after x (y ∷ ys) = if o.eq x y then dedup_after x ys else y ∷ dedup_after y ys

  unfoldable pub dedup : List A → List A
  unfolding dedup_after
  dedup [] = []
  dedup (x ∷ xs) = x ∷ dedup_after x xs

  abbrev pub Below : A → A → Type 0
  Below x y = o.le x y ≡ true

  -- Strictly below: the order without equality.
  abbrev pub Before : A → A → Type 0
  Before x y = (o.le x y ≡ true) × (o.le y x ≡ false)

  abbrev pub IsSorted : List A → Type 0
  IsSorted [] = Unit
  IsSorted (x ∷ xs) = All (Below x) xs × IsSorted xs

  abbrev pub IsStrictlySorted : List A → Type 0
  IsStrictlySorted [] = Unit
  IsStrictlySorted (x ∷ xs) = All (Before x) xs × IsStrictlySorted xs
