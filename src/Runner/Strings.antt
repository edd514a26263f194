-- ===== src/Runner/Strings.antt =====
-- Strings taken apart at their dots, and put together again.
use rs_social_simulation_too.Prelude.{ℕ, ◌≡◌, refl, sym, ◌∙◌, ap, arith, Bool, true, false}
use rs_social_simulation_too.Prelude.{
  ◌||◌, ◌==◌, ==→≡, ==_refl, Bool-cases, inl, inr, if_true, if_false,
}
use rs_social_simulation_too.Prelude.{Option, none, some, List, [], ◌∷◌, ◌++◌, All}
use rs_social_simulation_too.Runner.{
  Str, dot, strip_prefix, cons_first, split, prepend, split_first, is_empty,
}
use rs_social_simulation_too.Runner.{has_dot}

abbrev pub IsSegment : Str → Type 0
IsSegment s = (is_empty s ≡ false) × (has_dot s ≡ false)

-- Segments with a dot between each two.
abbrev pub join : List Str → Str
join [] = []
join (s ∷ []) = s
join (s ∷ (t ∷ rest)) = s ++ (dot ∷ join (t ∷ rest))

pub strip_prefix-append : (p s : Str) → strip_prefix p (p ++ s) ≡ some s
unfolding strip_prefix
strip_prefix-append [] s = refl
strip_prefix-append (c ∷ p) s = rw (==_refl c) (strip_prefix-append p s)

pub append_strip_prefix : (p key s : Str) → strip_prefix p key ≡ some s → key ≡ p ++ s
unfolding strip_prefix
append_strip_prefix [] key s h = cc
append_strip_prefix (c ∷ p) [] s h = absurd cc
append_strip_prefix (c ∷ p) (d ∷ key) s h = elim (Bool-cases (c == d)) [
  | inl e ↦
      let same : c ≡ d = ==→≡ c d e in
      let rest = append_strip_prefix p key s (sym (if_true _ _ e) ∙ h) in cc
  | inr e ↦ absurd (impossible (sym (if_false _ _ e) ∙ h))
]
  where
    impossible : none ≡ some s → ⊥
    impossible h = cc

pub split_first-append :
    (m p : Str) → has_dot m ≡ false → split_first (m ++ (dot ∷ p)) ≡ some (m, p)
unfolding split_first
split_first-append [] p h = refl
split_first-append (c ∷ m) p h = elim (Bool-cases (c == dot)) [
  | inl e ↦ absurd (dotted (c == dot) (has_dot m) e h)
  | inr e ↦ if_false _ _ e ∙ ap (prepend c) (split_first-append m p (rest (c == dot) (has_dot m) h))
]
  where
    dotted : (a b : Bool) → a ≡ true → (a || b) ≡ false → ⊥
    dotted a b h k = ground arith

    rest : (a b : Bool) → (a || b) ≡ false → b ≡ false
    rest a b h = ground arith

pub or_false : (a b : Bool) → (a || b) ≡ false → (a ≡ false) × (b ≡ false)
or_false a b h = (ground arith, ground arith)

pub append_split_first :
    (s m p : Str) → split_first s ≡ some (m, p) → (s ≡ m ++ (dot ∷ p)) × (has_dot m ≡ false)
unfolding split_first
append_split_first [] m p h = absurd cc
append_split_first (c ∷ s) m p h = elim (Bool-cases (c == dot)) [
  | inl e ↦ first c m p e (sym (if_true _ _ e) ∙ h)
  | inr e ↦ behind c (split_first s) m p e (append_split_first s) (sym (if_false _ _ e) ∙ h)
]
  where
    first :
        (c : ℕ) (m p : Str)
        → (c == dot) ≡ true
        → ◌≡◌ {A = Option (Str × Str)} (some ([], s)) (some (m, p))
        → (c ∷ s ≡ m ++ (dot ∷ p)) × (has_dot m ≡ false)
    first c m p e h =
        let same : c ≡ dot = ==→≡ c dot e in
        let nothing : [] ≡ m = cc in
        let behind : s ≡ p = cc in rw (sym nothing, sym behind, same) (refl, refl)

    behind :
        (c : ℕ) (found : Option (Str × Str)) (m p : Str)
        → (c == dot) ≡ false
        → ((m p : Str) → found ≡ some (m, p) → (s ≡ m ++ (dot ∷ p)) × (has_dot m ≡ false))
        → prepend c found ≡ some (m, p)
        → (c ∷ s ≡ m ++ (dot ∷ p)) × (has_dot m ≡ false)
    behind c none m p e rest h = absurd cc
    behind c (some (m', p')) m p e rest h =
        let (all, clean) = rest m' p' refl in
        let whole : c ∷ m' ≡ m = cc in
        let same : p' ≡ p = cc in
        rw (sym whole, sym same) (ap (◌∷◌ c) all, ap (λ (b : Bool). b || has_dot m') e ∙ clean)

-- Splitting what was joined, and the other way round.
cons_first-split : (c : ℕ) (s : Str) → (c == dot) ≡ false → split (c ∷ s) ≡ cons_first c (split s)
unfolding split
cons_first-split c s e = if_false _ _ e

split_segment : (s : Str) → has_dot s ≡ false → split s ≡ s ∷ []
unfolding split
split_segment [] h = refl
split_segment (c ∷ s) h =
    let (first, rest) = or_false (c == dot) (has_dot s) h in
    if_false _ _ first ∙ ap (cons_first c) (split_segment s rest)

split-append : (s t : Str) → has_dot s ≡ false → split (s ++ (dot ∷ t)) ≡ s ∷ split t
unfolding split
split-append [] t h = refl
split-append (c ∷ s) t h =
    let (first, rest) = or_false (c == dot) (has_dot s) h in
    if_false _ _ first ∙ ap (cons_first c) (split-append s t rest)

pub split-join :
    (segments : List Str)
    → is_empty segments ≡ false
    → All IsSegment segments
    → split (join segments) ≡ segments
split-join [] h all = absurd cc
split-join (s ∷ []) h ((some_char, clean), all) = split_segment s clean
split-join (s ∷ (t ∷ rest)) h ((some_char, clean), all) =
    split-append s (join (t ∷ rest)) clean ∙ ap (◌∷◌ s) (split-join (t ∷ rest) refl all)

-- What the parts of a string are: at least one, without dots, and joined they are the string.
abbrev pub Parts : Str → List Str → Type 0
Parts s segments =
    (is_empty segments ≡ false)
    × All (λ (t : Str). has_dot t ≡ false) segments
    × (join segments ≡ s)

pub split-Parts : (s : Str) → Parts s (split s)
unfolding split
split-Parts [] = (refl, (refl, tt), refl)
split-Parts (c ∷ s) = elim (Bool-cases (c == dot)) [
  | inl e ↦ rw e (new_part c (split s) e (split-Parts s))
  | inr e ↦ rw e (same_part c (split s) e (split-Parts s))
]
  where
    new_part :
        (c : ℕ) (segments : List Str)
        → (c == dot) ≡ true
        → Parts s segments
        → Parts (c ∷ s) ([] ∷ segments)
    new_part c [] e (one, clean, all) = absurd cc
    new_part c (t ∷ rest) e (one, clean, all) =
        let same : dot ≡ c = sym (==→≡ c dot e) in
        (refl, (refl, clean), ap (◌∷◌ dot) all ∙ ap (λ (x : ℕ). x ∷ s) same)

    same_part :
        (c : ℕ) (segments : List Str)
        → (c == dot) ≡ false
        → Parts s segments
        → Parts (c ∷ s) (cons_first c segments)
    same_part c [] e (one, clean, all) = absurd cc
    same_part c (t ∷ []) e (one, (first, clean), all) =
        (refl, (ap (λ (b : Bool). b || has_dot t) e ∙ first, clean), ap (◌∷◌ c) all)
    same_part c (t ∷ (u ∷ rest)) e (one, (first, clean), all) =
        (refl, (ap (λ (b : Bool). b || has_dot t) e ∙ first, clean), ap (◌∷◌ c) all)
