-- ===== src/Games/Pairs/Keys.antt =====
-- The sorted keys and the rings beside them, as one map: what an insertion and a write change.
use rs_social_simulation_too.Prelude.{ℕ, zero, suc, ◌+◌, ◌<◌, ◌≡◌, refl, sym, ◌∙◌, ap, arith}
use rs_social_simulation_too.Prelude.{true, false, if◌then◌else◌, Bool-cases, inl, inr, ◌⊎◌}
use rs_social_simulation_too.Prelude.{
  Option, none, some, List, [], ◌∷◌, length, get_elem?, set, All,
}
use rs_social_simulation_too.Prelude.{if_true, if_false, get_elem?_total, subst}
use rs_social_simulation_too.Prelude.Sort.{IsStrictlySorted, Before}
use rs_social_simulation_too.Prelude.Sort.Numbers.{
  pair_ord, pair_le, pair_eq, pair_eq_refl, pair_le_total,
}
use rs_social_simulation_too.Games.Pairs.{
  Key, Search, found, missing, further, search_keys, insert_at,
}

-- A key is found: it comes first, or it is found behind a smaller one.
FoundCases : Key → Key → List Key → ℕ → Type 0
FoundCases k x ks i =
    ((pair_eq x k ≡ true) × (i ≡ 0))
    ⊎ ((pair_eq x k ≡ false)
        × (pair_le k x ≡ false)
        × (j : ℕ) × (i ≡ suc j)
        × (search_keys k ks ≡ found j))

found_cases :
    (k x : Key) (ks : List Key) (i : ℕ) → search_keys k (x ∷ ks) ≡ found i → FoundCases k x ks i
unfolding FoundCases search_keys
found_cases k x ks i e = elim (Bool-cases (pair_eq x k)) [
  | inl same ↦ inl (same, same_place i (sym (if_true _ _ same) ∙ e))
  | inr other ↦ elim (Bool-cases (pair_le k x)) [
    | inl l ↦ absurd (not_found i (sym (if_false _ _ other ∙ if_true _ _ l) ∙ e))
    | inr l ↦
        let (j, next, rest) =
          behind (search_keys k ks) i (sym (if_false _ _ other ∙ if_false _ _ l) ∙ e) in
        inr (other, l, j, next, rest)
  ]
]
  where
    same_place : (i : ℕ) → found 0 ≡ found i → i ≡ 0
    same_place i h = cc

    not_found : (i : ℕ) → missing 0 ≡ found i → ⊥
    not_found i h = cc

    behind : (s : Search) (i : ℕ) → further s ≡ found i → (j : ℕ) × (i ≡ suc j) × (s ≡ found j)
    behind (found j) i h = let next : j + 1 ≡ i = cc in (j, omega arith, refl)
    behind (missing j) i h = absurd cc

-- A key is missing: it belongs before the first, or behind it.
MissingCases : Key → Key → List Key → ℕ → Type 0
MissingCases k x ks i =
    ((pair_eq x k ≡ false) × (pair_le k x ≡ true) × (i ≡ 0))
    ⊎ ((pair_eq x k ≡ false)
        × (pair_le k x ≡ false)
        × (j : ℕ) × (i ≡ suc j)
        × (search_keys k ks ≡ missing j))

missing_cases :
    (k x : Key) (ks : List Key) (i : ℕ) → search_keys k (x ∷ ks) ≡ missing i → MissingCases k x ks i
unfolding MissingCases search_keys
missing_cases k x ks i e = elim (Bool-cases (pair_eq x k)) [
  | inl same ↦ absurd (not_missing i (sym (if_true _ _ same) ∙ e))
  | inr other ↦ elim (Bool-cases (pair_le k x)) [
    | inl l ↦ inl (other, l, same_place i (sym (if_false _ _ other ∙ if_true _ _ l) ∙ e))
    | inr l ↦
        let (j, next, rest) =
          behind (search_keys k ks) i (sym (if_false _ _ other ∙ if_false _ _ l) ∙ e) in
        inr (other, l, j, next, rest)
  ]
]
  where
    same_place : (i : ℕ) → missing 0 ≡ missing i → i ≡ 0
    same_place i h = cc

    not_missing : (i : ℕ) → found 0 ≡ missing i → ⊥
    not_missing i h = cc

    behind : (s : Search) (i : ℕ) → further s ≡ missing i → (j : ℕ) × (i ≡ suc j) × (s ≡ missing j)
    behind (missing j) i h = let next : j + 1 ≡ i = cc in (j, omega arith, refl)
    behind (found j) i h = absurd cc

module _ {B : Type 0} where
  abbrev pub at_search : List B → Search → Option B
  at_search bs (found i) = get_elem? bs i
  at_search bs (missing i) = none

  -- The value beside a key.
  abbrev pub value_at : Key → List Key → List B → Option B
  value_at k ks bs = at_search bs (search_keys k ks)

  at_search-further :
      (b : B) (bs : List B) (s : Search) → at_search (b ∷ bs) (further s) ≡ at_search bs s
  at_search-further b bs (found i) =
      let next : i + 1 ≡ suc i = omega arith in ap (get_elem? (b ∷ bs)) next
  at_search-further b bs (missing i) = refl

  -- How the map reads from its first key on.
  value_at_cons :
      (k x : Key) (ks : List Key) (b : B) (bs : List B)
      → value_at k (x ∷ ks) (b ∷ bs)
        ≡ (if pair_eq x k then some b else if pair_le k x then none else value_at k ks bs)
  unfolding search_keys
  value_at_cons k x ks b bs = elim (Bool-cases (pair_eq x k)) [
    | inl e ↦ rw e refl
    | inr e ↦ elim (Bool-cases (pair_le k x)) [
      | inl l ↦ rw (e, l) refl
      | inr l ↦ rw (e, l) (at_search-further b bs (search_keys k ks))
    ]
  ]

  -- A key that is put before greater ones.
  value_at_first :
      (k j x : Key) (ks : List Key) (b c : B) (bs : List B)
      → pair_eq x k ≡ false
      → pair_le k x ≡ true
      → value_at j (k ∷ (x ∷ ks)) (b ∷ (c ∷ bs))
        ≡ (if pair_eq k j then some b else value_at j (x ∷ ks) (c ∷ bs))
  value_at_first k j x ks b c bs e h =
      value_at_cons j k (x ∷ ks) b (c ∷ bs)
      ∙ ap (λ (v : Option B). if pair_eq k j then some b else if pair_le j k then none else v)
          (value_at_cons j x ks c bs)
      ∙ smaller k j x (value_at j ks bs) e h
      ∙ sym (ap (λ (v : Option B). if pair_eq k j then some b else v) (value_at_cons j x ks c bs))
    where
      smaller :
          (k j x : Key) (rest : Option B)
          → pair_eq x k ≡ false
          → pair_le k x ≡ true
          → (if pair_eq k j
              then some b
              else if pair_le j k
              then none
              else if pair_eq x j
              then some c
              else if pair_le j x
              then none
              else rest)
            ≡ (if pair_eq k j
                then some b
                else if pair_eq x j
                then some c
                else if pair_le j x
                then none
                else rest)
      smaller (k, l) (i, j) (x, y) rest e h = ground arith

  -- A key that is put behind a smaller one.
  value_at_behind :
      (k j x : Key) (rest rest' : Option B) (b c : B)
      → pair_eq x k ≡ false
      → pair_le k x ≡ false
      → rest' ≡ (if pair_eq k j then some b else rest)
      → (if pair_eq x j then some c else if pair_le j x then none else rest') ≡ (
          if pair_eq k j
          then some b
          else if pair_eq x j
          then some c
          else if pair_le j x
          then none
          else rest)
  value_at_behind (k, l) (i, j) (x, y) rest rest' b c e h r = ground arith

  -- The key is absent and its place is `i`.
  pub value_at-insert_at :
      (k j : Key) (i : ℕ) (ks : List Key) (bs : List B) (b : B)
      → length bs ≡ length ks
      → search_keys k ks ≡ missing i
      → value_at j (insert_at i k ks) (insert_at i b bs)
        ≡ (if pair_eq k j then some b else value_at j ks bs)
  unfolding search_keys insert_at MissingCases
  value_at-insert_at k j i [] [] b h e =
      let first : i ≡ 0 = cc in
      rw first (
        value_at_cons j k [] b []
        ∙ elim (Bool-cases (pair_le j k)) [ inl l ↦ rw l refl | inr l ↦ rw l refl ])
  value_at-insert_at k j i [] (c ∷ bs) b h e = absurd (omega arith)
  value_at-insert_at k j i (x ∷ ks) [] b h e = absurd (omega arith)
  value_at-insert_at k j i (x ∷ ks) (c ∷ bs) b h e = elim (missing_cases k x ks i e) [
    | inl (other, l, first) ↦ rw first (value_at_first k j x ks b c bs other l)
    | inr (other, l, i', next, rest) ↦ rw next (
        value_at_cons j x (insert_at i' k ks) c (insert_at i' b bs)
        ∙ value_at_behind k j x (value_at j ks bs) _ b c other l
            (value_at-insert_at k j i' ks bs b (omega arith) rest)
        ∙ sym
            (ap (λ (v : Option B). if pair_eq k j then some b else v) (value_at_cons j x ks c bs)))
  ]

  -- The key is found at `i`.
  pub value_at-set :
      (k j : Key) (i : ℕ) (ks : List Key) (bs : List B) (b : B)
      → length bs ≡ length ks
      → search_keys k ks ≡ found i
      → value_at j ks (set bs i b) ≡ (if pair_eq k j then some b else value_at j ks bs)
  unfolding search_keys FoundCases
  value_at-set k j i [] bs b h e = absurd cc
  value_at-set k j i (x ∷ ks) [] b h e = absurd (omega arith)
  value_at-set k j i (x ∷ ks) (c ∷ bs) b h e = elim (found_cases k x ks i e) [
    | inl (same, first) ↦ rw first (
        value_at_cons j x ks b bs
        ∙ replaced k j x (value_at j ks bs) same
        ∙ sym
            (ap (λ (v : Option B). if pair_eq k j then some b else v) (value_at_cons j x ks c bs)))
    | inr (other, l, i', next, rest) ↦ rw next (
        value_at_cons j x ks c (set bs i' b)
        ∙ value_at_behind k j x (value_at j ks bs) _ b c other l
            (value_at-set k j i' ks bs b (omega arith) rest)
        ∙ sym
            (ap (λ (v : Option B). if pair_eq k j then some b else v) (value_at_cons j x ks c bs)))
  ]
    where
      replaced :
          (k j x : Key) (rest : Option B)
          → pair_eq x k ≡ true
          → (if pair_eq x j then some b else if pair_le j x then none else rest) ≡ (
              if pair_eq k j
              then some b
              else if pair_eq x j
              then some c
              else if pair_le j x
              then none
              else rest)
      replaced (k, l) (i, j) (x, y) rest e = ground arith

found_place : (k : Key) (i : ℕ) (ks : List Key) → search_keys k ks ≡ found i → i < length ks
unfolding search_keys FoundCases
found_place k i [] e = absurd cc
found_place k i (x ∷ ks) e = elim (found_cases k x ks i e) [
  | inl (same, first) ↦ omega arith
  | inr (other, l, j, next, rest) ↦ omega (arith, found_place k j ks rest)
]

module _ {B : Type 0} where
  pub length-insert_at : (i : ℕ) (xs : List B) (x : B) → length (insert_at i x xs) ≡ suc (length xs)
  unfolding insert_at
  length-insert_at zero xs x = refl
  length-insert_at (suc i) [] x = refl
  length-insert_at (suc i) (y ∷ xs) x = ap suc (length-insert_at i xs x)

  -- The value at a key that is found.
  pub value_at_found :
      (k : Key) (i : ℕ) (ks : List Key) (bs : List B)
      → length bs ≡ length ks
      → search_keys k ks ≡ found i
      → (b : B) × (get_elem? bs i ≡ some b) × (value_at k ks bs ≡ some b)
  value_at_found k i ks bs h e =
      let (b, at_i) = get_elem?_total bs i (omega (arith, found_place k i ks e)) in
      (b, at_i, ap (at_search bs) e ∙ at_i)

-- A key that was put in is found where it was put.
pub search_keys-insert_at :
    (k : Key) (i : ℕ) (ks : List Key)
    → search_keys k ks ≡ missing i
    → search_keys k (insert_at i k ks) ≡ found i
unfolding search_keys insert_at MissingCases
search_keys-insert_at k i [] e = let first : i ≡ 0 = cc in rw first (if_true _ _ (pair_eq_refl k))
search_keys-insert_at k i (x ∷ ks) e = elim (missing_cases k x ks i e) [
  | inl (other, l, first) ↦ rw first (if_true _ _ (pair_eq_refl k))
  | inr (other, l, j, next, rest) ↦
      let after : j + 1 ≡ suc j = omega arith in
      rw next (
        if_false _ _ other
        ∙ if_false _ _ l
        ∙ ap further (search_keys-insert_at k j ks rest)
        ∙ ap found after)
]

All-insert_at :
    (P : Key → Type 0) (i : ℕ) (x : Key) (ks : List Key) → P x → All P ks → All P (insert_at i x ks)
unfolding insert_at
All-insert_at P zero x ks h hs = (h, hs)
All-insert_at P (suc i) x [] h hs = (h, tt)
All-insert_at P (suc i) x (y ∷ ks) h (hy, hs) = (hy, All-insert_at P i x ks h hs)

All-Before :
    (k x : Key) (ks : List Key)
    → Before pair_ord k x
    → All (Before pair_ord x) ks
    → All (Before pair_ord k) ks
All-Before k x [] h hs = hs
All-Before k x (y ∷ ks) h (hy, hs) = (before k x y h hy, All-Before k x ks h hs)
  where
    before : (k x y : Key) → Before pair_ord k x → Before pair_ord x y → Before pair_ord k y
    before (k, l) (i, j) (x, y) (h, h') (g, g') = (ground arith, ground arith)

apart : (k x : Key) → pair_eq x k ≡ false → pair_le k x ≡ true → Before pair_ord k x
apart (k, l) (x, y) e h = (h, ground arith)

-- The keys stay in strictly ascending order, as the binary search needs them.
pub insert_at-IsStrictlySorted :
    (k : Key) (i : ℕ) (ks : List Key)
    → search_keys k ks ≡ missing i
    → IsStrictlySorted pair_ord ks
    → IsStrictlySorted pair_ord (insert_at i k ks)
unfolding search_keys insert_at MissingCases
insert_at-IsStrictlySorted k i [] e s =
    let first : i ≡ 0 = cc in
    subst (λ (n : ℕ). IsStrictlySorted pair_ord (insert_at n k [])) (sym first) (tt, tt)
insert_at-IsStrictlySorted k i (x ∷ ks) e (s, ss) = elim (missing_cases k x ks i e) [
  | inl (other, l, first) ↦
      let before = apart k x other l in
      subst (λ (n : ℕ). IsStrictlySorted pair_ord (insert_at n k (x ∷ ks))) (sym first)
        ((before, All-Before k x ks before s), (s, ss))
  | inr (other, l, j, next, rest) ↦
      let after = insert_at-IsStrictlySorted k j ks rest ss in
      subst (λ (n : ℕ). IsStrictlySorted pair_ord (insert_at n k (x ∷ ks))) (sym next)
        (All-insert_at (Before pair_ord x) j k ks (pair_le_total k x l, l) s, after)
]
