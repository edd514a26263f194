-- ===== src/Games/Solve/Profiles.antt =====
-- The loop over the profiles meets each of them once, in lexicographic order, and ends.
use rs_social_simulation_too.Prelude.{
  ℕ, zero, suc, ◌+◌, ◌-◌, ◌*◌, ◌≤◌, ◌<◌, ◌≡◌, refl, sym, ◌∙◌, ap, subst, arith,
}
use rs_social_simulation_too.Prelude.{Bool, true, false, ltb, ltb→lt, Bool-cases, inl, inr, ◌⊎◌}
use rs_social_simulation_too.Prelude.{
  some, List, [], ◌∷◌, ◌++◌, map, length, length-append, length-map, All,
}
use rs_social_simulation_too.Games.Solve.{
  advance_first, advance_profile, advanced, after_body, each_profile,
}

-- A first action of the `n` from `a` on before each of the later ones.
abbrev pub blocks : List (List ℕ) → ℕ → ℕ → List (List ℕ)
blocks later a zero = []
blocks later a (suc n) = map (◌∷◌ a) later ++ blocks later (a + 1) n

-- The profiles, in lexicographic order.
abbrev pub profiles : List ℕ → List (List ℕ)
profiles [] = [] ∷ []
profiles (c ∷ counts) = blocks (profiles counts) 0 c

abbrev pub first_profile : List ℕ → List ℕ
first_profile [] = []
first_profile (c ∷ counts) = 0 ∷ first_profile counts

-- A profile of actions that the roles have.
abbrev pub IsProfile : List ℕ → List ℕ → Type 0
IsProfile [] [] = Unit
IsProfile (a ∷ profile) (c ∷ counts) = (a < c) × IsProfile profile counts
IsProfile profile counts = ⊥

-- The profiles behind one.
abbrev behind : List ℕ → List ℕ → List (List ℕ)
behind (a ∷ profile) (c ∷ counts) =
    map (◌∷◌ a) (behind profile counts) ++ blocks (profiles counts) (a + 1) (c - (a + 1))
behind profile counts = []

abbrev pub IsSome : ℕ → Type 0
IsSome c = 0 < c

pub first_profile-IsProfile :
    (counts : List ℕ) → All IsSome counts → IsProfile (first_profile counts) counts
first_profile-IsProfile [] all = tt
first_profile-IsProfile (c ∷ counts) (some_action, all) =
    (some_action, first_profile-IsProfile counts all)

blocks-suc :
    (later : List (List ℕ)) (a n : ℕ)
    → 0 < n
    → blocks later a n ≡ map (◌∷◌ a) later ++ blocks later (a + 1) (n - 1)
blocks-suc later a zero h = absurd (omega arith)
blocks-suc later a (suc n) h =
    let same : suc n - 1 ≡ n = omega arith in
    ap (λ (k : ℕ). map (◌∷◌ a) later ++ blocks later (a + 1) k) (sym same)

-- All profiles are the first one and those behind it.
profiles_first :
    (counts : List ℕ)
    → All IsSome counts
    → profiles counts ≡ first_profile counts ∷ behind (first_profile counts) counts
profiles_first [] all = refl
profiles_first (c ∷ counts) (some_action, all) =
    blocks-suc (profiles counts) 0 c some_action
    ∙ ap (λ (ps : List (List ℕ)). map (◌∷◌ 0) ps ++ blocks (profiles counts) (0 + 1) (c - 1))
        (profiles_first counts all)

-- What advancing gives: the next profile, or the first one again behind the last.
Advances : List ℕ → List ℕ → Bool × List ℕ → Type 0
Advances profile counts (true, next) =
    (behind profile counts ≡ next ∷ behind next counts) × IsProfile next counts
Advances profile counts (false, next) = (behind profile counts ≡ []) × (next ≡ first_profile counts)

advance_first-Advances :
    (a c : ℕ) (profile counts : List ℕ) (next : Bool × List ℕ)
    → a < c
    → All IsSome counts
    → Advances profile counts next
    → Advances (a ∷ profile) (c ∷ counts) (advance_first a c next)
unfolding Advances
advance_first-Advances a c profile counts (true, next) h all (rest, valid) = (
  ap (λ (ps : List (List ℕ)). map (◌∷◌ a) ps ++ blocks (profiles counts) (a + 1) (c - (a + 1)))
      rest,
  (h, valid),
)
advance_first-Advances a c profile counts (false, next) h all (rest, again) =
    elim (Bool-cases (ltb (a + 1) c)) [
      | inl e ↦
          let below : a + 1 < c = ltb→lt _ _ e in
          let one_less : c - (a + 1) - 1 ≡ c - (a + 1 + 1) = omega arith in
          rw e (
            ap
                  (λ (ps : List (List ℕ)).
                    map (◌∷◌ a) ps ++ blocks (profiles counts) (a + 1) (c - (a + 1)))
                  rest
                ∙ blocks-suc (profiles counts) (a + 1) (c - (a + 1)) (omega arith)
                ∙ ap
                    (λ (k : ℕ).
                      map (◌∷◌ (a + 1)) (profiles counts) ++ blocks (profiles counts) (a + 1 + 1) k)
                    one_less
                ∙ ap
                    (λ (ps : List (List ℕ)).
                      map (◌∷◌ (a + 1)) ps
                      ++ blocks (profiles counts) (a + 1 + 1) (c - (a + 1 + 1)))
                    (profiles_first counts all
                      ∙ ap (λ (p : List ℕ). p ∷ behind p counts) (sym again)),
            (
              below,
              subst (λ (p : List ℕ). IsProfile p counts) (sym again)
                  (first_profile-IsProfile counts all),
            ),
          )
      | inr e ↦
          let last : c - (a + 1) ≡ 0 = ground (arith, e) in
          rw e (
            ap
                  (λ (ps : List (List ℕ)).
                    map (◌∷◌ a) ps ++ blocks (profiles counts) (a + 1) (c - (a + 1)))
                  rest
                ∙ ap (blocks (profiles counts) (a + 1)) last,
            ap (◌∷◌ 0) again,
          )
    ]

advance_profile-Advances :
    (profile counts : List ℕ)
    → All IsSome counts
    → IsProfile profile counts
    → Advances profile counts (advance_profile profile counts)
unfolding advance_profile Advances
advance_profile-Advances [] [] all valid = (refl, refl)
advance_profile-Advances [] (c ∷ counts) all valid = absurd valid
advance_profile-Advances (a ∷ profile) [] all valid = absurd valid
advance_profile-Advances (a ∷ profile) (c ∷ counts) (some_action, all) (h, valid) =
    advance_first-Advances a c profile counts (advance_profile profile counts) h all
      (advance_profile-Advances profile counts all valid)

-- As many profiles as the product of the counts.
abbrev pub count_of : List ℕ → ℕ
count_of [] = 1
count_of (c ∷ counts) = c * count_of counts

length-blocks : (later : List (List ℕ)) (a n : ℕ) → length (blocks later a n) ≡ n * length later
length-blocks later a zero = omega arith
length-blocks later a (suc n) =
    let first = length-map (◌∷◌ a) later in
    let rest = length-blocks later (a + 1) n in
    let both = length-append (map (◌∷◌ a) later) (blocks later (a + 1) n) in grind arith

pub length-profiles : (counts : List ℕ) → length (profiles counts) ≡ count_of counts
length-profiles [] = refl
length-profiles (c ∷ counts) =
    length-blocks (profiles counts) 0 c ∙ ap (◌*◌ c) (length-profiles counts)

module _ {S E : Type 0} (body : List ℕ → S → E ⊎ S) where
  abbrev pub then_each : E ⊎ S → (S → E ⊎ S) → E ⊎ S
  then_each (inl e) next = inl e
  then_each (inr s) next = next s

  -- The body for each profile of a list in turn, until it fails.
  abbrev pub for_each : List (List ℕ) → S → E ⊎ S
  for_each [] s = inr s
  for_each (p ∷ ps) s = then_each (body p s) (for_each ps)

  each_profile_from :
      (fuel : ℕ) (counts profile : List ℕ) (s : S)
      → All IsSome counts
      → IsProfile profile counts
      → length (profile ∷ behind profile counts) ≤ fuel
      → each_profile body fuel counts profile s
        ≡ some (for_each (profile ∷ behind profile counts) s)
  unfolding each_profile Advances
  each_profile_from zero counts profile s all valid h = absurd (omega arith)
  each_profile_from (suc fuel) counts profile s all valid h =
      once (body profile s) (advance_profile profile counts)
        (advance_profile-Advances profile counts all valid)
        (λ next s' fits valid. each_profile_from fuel counts next s' all valid fits)
    where
      once :
          (result : E ⊎ S) (next : Bool × List ℕ)
          → Advances profile counts next
          → ((next : List ℕ) (s' : S)
              → length (next ∷ behind next counts) ≤ fuel
              → IsProfile next counts
              → each_profile body fuel counts next s'
                ≡ some (for_each (next ∷ behind next counts) s'))
          → after_body body result
              (λ s'. advanced body s' (λ p. each_profile body fuel counts p s') next)
            ≡ some (then_each result (for_each (behind profile counts)))
      once (inl e) next advances again = refl
      once (inr s') (true, next) (rest, valid) again =
          again next s' (omega (arith, ap length rest)) valid
          ∙ ap (λ (ps : List (List ℕ)). some (for_each ps s')) (sym rest)
      once (inr s') (false, next) (rest, first) again =
          ap (λ (ps : List (List ℕ)). some (for_each ps s')) (sym rest)

  -- Where every role has an action, the loop that starts at the first profile meets every profile once, in
  -- lexicographic order, and stops at the first for which its body fails; fuel for as many rounds as there are
  -- profiles, the product of the counts, is enough.
  pub each_profile-profiles :
      (fuel : ℕ) (counts : List ℕ) (s : S)
      → All (λ c. 0 < c) counts
      → count_of counts ≤ fuel
      → each_profile body fuel counts (first_profile counts) s ≡ some (for_each (profiles counts) s)
  each_profile-profiles fuel counts s all h =
      let whole = profiles_first counts all in
      each_profile_from fuel counts (first_profile counts) s all
        (first_profile-IsProfile counts all)
        (omega (arith, ap length whole, length-profiles counts))
      ∙ ap (λ (ps : List (List ℕ)). some (for_each ps s)) (sym whole)
