-- ===== src/Games/Solve/Scanning.antt =====
-- What counting the profiles of a game and scanning their payoffs finds.
use native.Mathlib.Nat.{mul-le-mul_right, mul_assoc}
use rs_social_simulation_too.Prelude.{
  ℕ, zero, suc, ◌+◌, ◌*◌, ◌^◌, ◌≤◌, ◌<◌, ◌≡◌, refl, sym, ◌∙◌, ap, arith,
}
use rs_social_simulation_too.Prelude.{true, false, ltb, ◌==◌, ◌∈◌, ==→≡, Bool-cases, inl, inr, ◌⊎◌}
use rs_social_simulation_too.Prelude.{List, [], ◌∷◌, replicate, All}
use rs_social_simulation_too.Games.Solve.{Reals, FiniteGame, SolveError, empty_actions}
use rs_social_simulation_too.Games.Solve.{non_finite_payoff}
use rs_social_simulation_too.Games.Solve.{saturating_mul, cons_count, count_profiles, scan_roles}
use rs_social_simulation_too.Games.Solve.Profiles.{
  first_profile, IsSome, count_of, for_each, then_each,
}

module _ (f : Reals) (game : FiniteGame f.Float) where
  open f use {Float, nil, is_finite, le}

  -- The action counts of the `n` roles from `role` on.
  abbrev pub counts_from : ℕ → ℕ → List ℕ
  counts_from role zero = []
  counts_from role (suc n) = game.n_actions role ∷ counts_from (role + 1) n

  -- What counting the profiles finds.
  pub data Counted (role n so_far : ℕ) : SolveError ⊎ (List ℕ × ℕ) → Type 0 where
    empty :
        (r : ℕ)
        → role ≤ r
        → r < role + n
        → game.n_actions r ≡ 0
        → Counted role n so_far (inl (empty_actions r))
    counted :
        (n_profiles : ℕ)
        → All IsSome (counts_from role n)
        → n_profiles ≤ so_far * count_of (counts_from role n)
        → Counted role n so_far (inr (counts_from role n, n_profiles))

  saturating_mul_le : (a b : ℕ) → saturating_mul a b ≤ a * b
  saturating_mul_le a b = elim (Bool-cases (ltb (a * b) (2 ^ 128))) [
    | inl e ↦ rw e (omega arith)
    | inr e ↦ rw e (ground (arith, e))
  ]

  le_of_product : (a b c d m : ℕ) → a ≤ b * c → m ≤ a * d → m ≤ b * (c * d)
  le_of_product a b c d m h k =
      let first = mul-le-mul_right d h in omega (arith, k, first, mul_assoc b c d)

  pub count_profiles-Counted :
      (role n n_profiles : ℕ) → Counted role n n_profiles (count_profiles f game role n n_profiles)
  unfolding count_profiles
  count_profiles-Counted role zero n_profiles = counted n_profiles tt (grind arith)
  count_profiles-Counted role (suc n) n_profiles = elim (Bool-cases (game.n_actions role == 0)) [
    | inl e ↦ rw e (empty role (omega arith) (omega arith) (==→≡ _ _ e))
    | inr e ↦ rw e (
        onward (ground (arith, e))
          (count_profiles f game (role + 1) n (saturating_mul n_profiles (game.n_actions role)))
          (count_profiles-Counted (role + 1) n (saturating_mul n_profiles (game.n_actions role))))
  ]
    where
      onward :
          0 < game.n_actions role
          → (rest : SolveError ⊎ (List ℕ × ℕ))
          → Counted (role + 1) n (saturating_mul n_profiles (game.n_actions role)) rest
          → Counted role (suc n) n_profiles (cons_count (game.n_actions role) rest)
      onward h rest (empty r above below none_there) =
          empty r (omega arith) (omega arith) none_there
      onward h rest (counted m all bound) =
          counted m (h, all)
            (le_of_product (saturating_mul n_profiles (game.n_actions role)) n_profiles
              (game.n_actions role) (count_of (counts_from (role + 1) n)) m
              (saturating_mul_le n_profiles (game.n_actions role)) bound)

  pub first_profile-counts_from : (role n : ℕ) → replicate n 0 ≡ first_profile (counts_from role n)
  first_profile-counts_from role zero = refl
  first_profile-counts_from role (suc n) = ap (◌∷◌ 0) (first_profile-counts_from (role + 1) n)

  -- What scanning the payoffs of profiles finds, for the `n` roles from `role` on.
  pub data Scanned (ps : List (List ℕ)) (role n : ℕ) : SolveError ⊎ (Float × Float) → Type 0 where
    infinite :
        (p : List ℕ) (r : ℕ)
        → p ∈ ps
        → r < role + n
        → is_finite (game.payoff r p) ≡ false
        → Scanned ps role n (inl non_finite_payoff)
    finite :
        (range : Float × Float)
        → ((p : List ℕ) (r : ℕ)
            → p ∈ ps
            → role ≤ r
            → r < role + n
            → is_finite (game.payoff r p) ≡ true)
        → Scanned ps role n (inr range)

  scan_roles-Scanned :
      (p : List ℕ) (role n : ℕ) (range : Float × Float)
      → Scanned (p ∷ []) role n (scan_roles f game p role n range)
  unfolding scan_roles
  scan_roles-Scanned p role zero range = finite range (λ q r m h k. absurd (omega arith))
  scan_roles-Scanned p role (suc n) range = elim (Bool-cases (is_finite (game.payoff role p))) [
    | inl e ↦ rw e (onward e _ (scan_roles-Scanned p (role + 1) n _))
    | inr e ↦ rw e (infinite p role (inl refl) (omega arith) e)
  ]
    where
      later :
          (q : List ℕ) (r : ℕ)
          → is_finite (game.payoff role p) ≡ true
          → ((q : List ℕ) (r : ℕ)
              → q ∈ (p ∷ [])
              → role + 1 ≤ r
              → r < role + 1 + n
              → is_finite (game.payoff r q) ≡ true)
          → q ∈ (p ∷ [])
          → role ≤ r
          → r < role + suc n
          → is_finite (game.payoff r q) ≡ true
      later q r e rest (inr nowhere) h k = absurd nowhere
      later q r e rest (inl same) h k = elim (Bool-cases (role == r)) [
        | inl here ↦
            let this : role ≡ r = ==→≡ role r here in
            ap (λ (i : ℕ). is_finite (game.payoff i q)) (sym this)
            ∙ ap (λ (x : List ℕ). is_finite (game.payoff role x)) same
            ∙ e
        | inr there ↦ rest q r (inl same) (ground (arith, there)) (omega arith)
      ]

      onward :
          is_finite (game.payoff role p) ≡ true
          → (result : SolveError ⊎ (Float × Float)) → Scanned (p ∷ []) (role + 1) n result
          → Scanned (p ∷ []) role (suc n) result
      onward e result (infinite q r m h bad) = infinite q r m (omega arith) bad
      onward e result (finite range rest) = finite range (λ q r m h k. later q r e rest m h k)

  pub for_each-Scanned :
      (n : ℕ) (ps : List (List ℕ)) (range : Float × Float)
      → Scanned ps 0 n (for_each (λ p range. scan_roles f game p 0 n range) ps range)
  for_each-Scanned n [] range = finite range (λ p r m. absurd m)
  for_each-Scanned n (p ∷ ps) range =
      first (scan_roles f game p 0 n range) (scan_roles-Scanned p 0 n range) (for_each-Scanned n ps)
    where
      everywhere :
          ((q : List ℕ) (r : ℕ)
            → q ∈ (p ∷ [])
            → 0 ≤ r
            → r < 0 + n
            → is_finite (game.payoff r q) ≡ true)
          → ((q : List ℕ) (r : ℕ) → q ∈ ps → 0 ≤ r → r < 0 + n → is_finite (game.payoff r q) ≡ true)
          → (q : List ℕ) (r : ℕ) → q ∈ (p ∷ ps)
          → 0 ≤ r
          → r < 0 + n
          → is_finite (game.payoff r q) ≡ true
      everywhere here there q r (inl same) h k = here q r (inl same) h k
      everywhere here there q r (inr m) h k = there q r m h k

      both :
          ((q : List ℕ) (r : ℕ)
            → q ∈ (p ∷ [])
            → 0 ≤ r
            → r < 0 + n
            → is_finite (game.payoff r q) ≡ true)
          → (result : SolveError ⊎ (Float × Float)) → Scanned ps 0 n result
          → Scanned (p ∷ ps) 0 n result
      both here result (infinite q r m h bad) = infinite q r (inr m) h bad
      both here result (finite range there) = finite range (everywhere here there)

      first :
          (result : SolveError ⊎ (Float × Float))
          → Scanned (p ∷ []) 0 n result
          → ((range : Float × Float)
              → Scanned ps 0 n (for_each (λ p range. scan_roles f game p 0 n range) ps range))
          → Scanned (p ∷ ps) 0 n (
              then_each
                (λ p range. scan_roles f game p 0 n range)
                result
                (for_each (λ p range. scan_roles f game p 0 n range) ps))
      first result (infinite q r (inl same) h bad) rest = infinite q r (inl same) h bad
      first result (infinite q r (inr nowhere) h bad) rest = absurd nowhere
      first result (finite range here) rest =
          both here (for_each (λ p range. scan_roles f game p 0 n range) ps range) (rest range)
