-- ===== src/Prelude/Sort/Laws.antt =====
-- Sorting keeps the elements and orders them; `dedup` of a sorted list is strictly sorted.
use mathlib.Core.Path.{◌≡◌, sym, ◌∙◌}
use mathlib.Core.Logic.{◌↔◌, ◌⊎◌, inl, inr}
use mathlib.Core.Bool.{true, false}
use mathlib.Core.List.{List, [], ◌∷◌, Perm}
use mathlib.Core.List.Perm
use rs_social_simulation_too.Prelude.Tests.{Bool-cases}
use rs_social_simulation_too.Prelude.Members.{◌∈◌, All}
use rs_social_simulation_too.Prelude.Sort.{Ord, insert, sort, dedup_after, dedup, Below, Before}
use rs_social_simulation_too.Prelude.Sort.{IsSorted, IsStrictlySorted}

module _ {A : Type 0} (o : Ord A) where
  insert-perm : (x : A) (ys : List A) → Perm (insert o x ys) (x ∷ ys)
  unfolding insert
  insert-perm x [] = Perm.refl (x ∷ [])
  insert-perm x (y ∷ ys) = elim (Bool-cases (o.le x y)) [
    | inl e ↦ rw e (Perm.refl (x ∷ y ∷ ys))
    | inr e ↦ rw e (Perm.trans (Perm.cons y (insert-perm x ys)) (Perm.swap x y ys))
  ]

  pub sort-perm : (xs : List A) → Perm (sort o xs) xs
  unfolding sort
  sort-perm [] = Perm.refl []
  sort-perm (x ∷ xs) = Perm.trans (insert-perm x (sort o xs)) (Perm.cons x (sort-perm xs))

  mem-insert : (a x : A) (ys : List A) → (a ∈ insert o x ys) ↔ ((a ≡ x) ⊎ (a ∈ ys))
  unfolding insert
  mem-insert a x [] = (λ m. m, λ m. m)
  mem-insert a x (y ∷ ys) = elim (Bool-cases (o.le x y)) [
    | inl e ↦ rw e (λ m. m, λ m. m)
    | inr e ↦ rw e (
      λ m. elim m [
        | inl p ↦ inr (inl p)
        | inr p ↦ elim ((mem-insert a x ys).0 p) [ inl q ↦ inl q | inr q ↦ inr (inr q) ]
      ],
      λ m. elim m [
        | inl p ↦ inr ((mem-insert a x ys).1 (inl p))
        | inr (inl p) ↦ inl p
        | inr (inr p) ↦ inr ((mem-insert a x ys).1 (inr p))
      ],
    )
  ]

  pub mem-sort : (a : A) (xs : List A) → (a ∈ sort o xs) ↔ (a ∈ xs)
  unfolding sort
  mem-sort a [] = (λ m. m, λ m. m)
  mem-sort a (x ∷ xs) = (
    λ m. elim ((mem-insert a x (sort o xs)).0 m) [
      | inl p ↦ inl p
      | inr p ↦ inr ((mem-sort a xs).0 p)
    ],
    λ m. elim m [
      | inl p ↦ (mem-insert a x (sort o xs)).1 (inl p)
      | inr p ↦ (mem-insert a x (sort o xs)).1 (inr ((mem-sort a xs).1 p))
    ],
  )

  All-Below-insert :
      (x y : A) (ys : List A)
      → o.le x y ≡ true
      → All (Below o x) ys
      → All (Below o x) (insert o y ys)
  unfolding insert
  All-Below-insert x y [] h k = (h, tt)
  All-Below-insert x y (z ∷ zs) h k = elim (Bool-cases (o.le y z)) [
    | inl e ↦ rw e (h, k)
    | inr e ↦ rw e (k.0, All-Below-insert x y zs h k.1)
  ]

  All-Below-trans :
      (x y : A) (ys : List A) → o.le x y ≡ true → All (Below o y) ys → All (Below o x) ys
  All-Below-trans x y [] h k = tt
  All-Below-trans x y (z ∷ zs) h k = (o.le_trans x y z h k.0, All-Below-trans x y zs h k.1)

  insert-IsSorted : (x : A) (ys : List A) → IsSorted o ys → IsSorted o (insert o x ys)
  unfolding insert
  insert-IsSorted x [] h = (tt, tt)
  insert-IsSorted x (y ∷ ys) h = elim (Bool-cases (o.le x y)) [
    | inl e ↦ rw e ((e, All-Below-trans x y ys e h.0), h)
    | inr e ↦ rw e (All-Below-insert y x ys (o.le_total x y e) h.0, insert-IsSorted x ys h.1)
  ]

  pub sort-IsSorted : (xs : List A) → IsSorted o (sort o xs)
  unfolding sort
  sort-IsSorted [] = tt
  sort-IsSorted (x ∷ xs) = insert-IsSorted x (sort o xs) (sort-IsSorted xs)

  mem-dedup_after :
      (a x : A) (ys : List A) → ((a ≡ x) ⊎ (a ∈ dedup_after o x ys)) ↔ ((a ≡ x) ⊎ (a ∈ ys))
  unfolding dedup_after
  mem-dedup_after a x [] = (λ m. m, λ m. m)
  mem-dedup_after a x (y ∷ ys) = elim (Bool-cases (o.eq x y)) [
    | inl e ↦ rw e (
      λ m. elim ((mem-dedup_after a x ys).0 m) [ inl p ↦ inl p | inr p ↦ inr (inr p) ],
      λ m. (mem-dedup_after a x ys).1 (elim m [
        | inl p ↦ inl p
        | inr (inl p) ↦ inl (p ∙ sym (o.eq_sound x y e))
        | inr (inr p) ↦ inr p
      ]),
    )
    | inr e ↦ rw e (
      λ m. elim m [ inl p ↦ inl p | inr p ↦ inr ((mem-dedup_after a y ys).0 p) ],
      λ m. elim m [ inl p ↦ inl p | inr p ↦ inr ((mem-dedup_after a y ys).1 p) ],
    )
  ]

  pub mem-dedup : (a : A) (xs : List A) → (a ∈ dedup o xs) ↔ (a ∈ xs)
  unfolding dedup
  mem-dedup a [] = (λ m. m, λ m. m)
  mem-dedup a (x ∷ xs) = mem-dedup_after a x xs

  -- Two elements that are ordered and not equal are strictly ordered.
  Before-of : (x y : A) → o.le x y ≡ true → o.eq x y ≡ false → Before o x y
  Before-of x y h e = (
    h,
    elim (Bool-cases (o.le y x)) [
      | inl back ↦ let same : o.eq x y ≡ true = rw (← o.le_antisym x y h back) (o.eq_refl x) in cc
      | inr out ↦ out
    ],
  )

  Before-trans : (x y z : A) → Before o x y → o.le y z ≡ true → Before o x z
  Before-trans x y z h k = (
    o.le_trans x y z h.0 k,
    elim (Bool-cases (o.le z x)) [
      | inl back ↦ let bad : o.le y x ≡ true = o.le_trans y z x k back in cc
      | inr out ↦ out
    ],
  )

  All-Before-trans :
      (x y : A) (ys : List A) → Before o x y → All (Below o y) ys → All (Before o x) ys
  All-Before-trans x y [] h k = tt
  All-Before-trans x y (z ∷ zs) h k = (Before-trans x y z h k.0, All-Before-trans x y zs h k.1)

  All-Before-dedup_after :
      (x y : A) (ys : List A) → All (Before o x) ys → All (Before o x) (dedup_after o y ys)
  unfolding dedup_after
  All-Before-dedup_after x y [] h = tt
  All-Before-dedup_after x y (z ∷ zs) h = elim (Bool-cases (o.eq y z)) [
    | inl e ↦ rw e (All-Before-dedup_after x y zs h.1)
    | inr e ↦ rw e (h.0, All-Before-dedup_after x z zs h.1)
  ]

  dedup_after-IsStrictlySorted :
      (x : A) (ys : List A) → IsSorted o (x ∷ ys) → IsStrictlySorted o (x ∷ dedup_after o x ys)
  unfolding dedup_after
  dedup_after-IsStrictlySorted x [] h = (tt, tt)
  dedup_after-IsStrictlySorted x (y ∷ ys) h = elim (Bool-cases (o.eq x y)) [
    | inl e ↦ rw e (dedup_after-IsStrictlySorted x ys (h.0.1, h.1.1))
    | inr e ↦
        let below = Before-of x y h.0.0 e in
        rw e (
          (below, All-Before-dedup_after x y ys (All-Before-trans x y ys below h.1.0)),
          dedup_after-IsStrictlySorted y ys h.1,
        )
  ]

  pub dedup-IsStrictlySorted : (xs : List A) → IsSorted o xs → IsStrictlySorted o (dedup o xs)
  unfolding dedup
  dedup-IsStrictlySorted [] h = tt
  dedup-IsStrictlySorted (x ∷ xs) h = dedup_after-IsStrictlySorted x xs h
