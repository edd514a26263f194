-- ===== src/Games/Solve.antt =====
-- Solving finite games by enumeration, from crates/socsim-games/src/solve: `advance_profile` and `inspect_game`
-- of solve/mod.rs and `pure_nash` of solve/pure.rs. `f64` is a parameter. The loops over the profiles run on
-- fuel, and `none` means that it ran out. The profile that `pure_nash` writes a deviation into and puts back is
-- the profile with the deviation in the model.
pub mod Profiles
pub mod Extremes
pub mod Listing
pub mod Regret
pub mod Gains
pub mod Selection
pub mod Scanning
pub mod Nash
mod Tests
use rs_social_simulation_too.Prelude.{
  ℕ, zero, suc, ◌+◌, ◌-◌, ◌*◌, ◌^◌, Bool, true, false, ltb, leb, ◌==◌,
}
use rs_social_simulation_too.Prelude.{
  if◌then◌else◌, Option, none, some, List, [], ◌∷◌, ◌++◌, set, replicate, ◌⊎◌, inl, inr,
}

-- `f64` with the operations of the solvers; `tiny` is 1e-10.
pub record Reals : Type 1 where
  pub Float : Type 0
  pub nil : Float
  pub unit : Float
  pub tiny : Float
  pub infinity : Float
  pub neg_infinity : Float
  pub is_finite : Float → Bool
  pub least : Float → Float → Float
  pub most : Float → Float → Float
  pub sub : Float → Float → Float
  pub mul : Float → Float → Float
  pub le : Float → Float → Bool

pub record FiniteGame (F : Type 0) : Type 0 where
  pub n_roles : ℕ
  pub n_actions : ℕ → ℕ
  pub payoff : ℕ → List ℕ → F

-- The errors that these functions report.
pub data SolveError : Type 0 where
  too_large : ℕ → SolveError
  unsupported_roles : ℕ → SolveError
  empty_actions : ℕ → SolveError
  non_finite_payoff : SolveError

abbrev pub max_profiles : ℕ
max_profiles = 1000000

abbrev pub advance_first : ℕ → ℕ → Bool × List ℕ → Bool × List ℕ
advance_first a c (true, rest) = (true, a ∷ rest)
advance_first a c (false, rest) =
    if ltb (a + 1) c then (true, (a + 1) ∷ rest) else (false, 0 ∷ rest)

-- The last role that has a further action takes it, and the roles behind it start again.
unfoldable pub advance_profile : List ℕ → List ℕ → Bool × List ℕ
advance_profile [] counts = (false, [])
advance_profile (a ∷ profile) [] = (false, a ∷ profile)
advance_profile (a ∷ profile) (c ∷ counts) = advance_first a c (advance_profile profile counts)

module _ {S E : Type 0} (body : List ℕ → S → E ⊎ S) where
  abbrev pub advanced : S → (List ℕ → Option (E ⊎ S)) → Bool × List ℕ → Option (E ⊎ S)
  advanced s again (true, profile) = again profile
  advanced s again (false, profile) = some (inr s)

  abbrev pub after_body : E ⊎ S → (S → Option (E ⊎ S)) → Option (E ⊎ S)
  after_body (inl e) next = some (inl e)
  after_body (inr s) next = next s

  -- The loop over the profiles that the functions share, with its body.
  unfoldable pub each_profile : ℕ → List ℕ → List ℕ → S → Option (E ⊎ S)
  unfolding advance_profile
  each_profile zero counts profile s = none
  each_profile (suc fuel) counts profile s = after_body (body profile s) (λ s'.
      advanced s' (λ profile'. each_profile fuel counts profile' s')
        (advance_profile profile counts))

pub record GameInfo (F : Type 0) : Type 0 where
  pub counts : List ℕ
  pub tolerance : F

pub record PureNash (F : Type 0) : Type 0 where
  pub profile : List ℕ
  pub payoffs : List F
  pub regret : F

-- `checked_mul` of u128 numbers, or the greatest of them.
abbrev pub saturating_mul : ℕ → ℕ → ℕ
saturating_mul a b = if ltb (a * b) (2 ^ 128) then a * b else 2 ^ 128 - 1

abbrev pub cons_count : ℕ → SolveError ⊎ (List ℕ × ℕ) → SolveError ⊎ (List ℕ × ℕ)
cons_count c (inl e) = inl e
cons_count c (inr (counts, n)) = inr (c ∷ counts, n)

module _ (f : Reals) (game : FiniteGame f.Float) where
  open f use {Float, nil, unit, tiny, infinity, neg_infinity, is_finite, least, most, sub, mul, le}

  -- The first loop of `inspect_game`, over the `n` roles from `role` on.
  unfoldable pub count_profiles : ℕ → ℕ → ℕ → SolveError ⊎ (List ℕ × ℕ)
  count_profiles role zero n_profiles = inr ([], n_profiles)
  count_profiles role (suc n) n_profiles =
      let c = game.n_actions role in
      let rest = count_profiles (role + 1) n (saturating_mul n_profiles c) in
      if c == 0 then inl (empty_actions role) else cons_count c rest

  -- The payoffs of one profile, with the least and the greatest so far.
  unfoldable pub scan_roles : List ℕ → ℕ → ℕ → Float × Float → SolveError ⊎ (Float × Float)
  scan_roles profile role zero range = inr range
  scan_roles profile role (suc n) range =
      let x = game.payoff role profile in
      let rest = scan_roles profile (role + 1) n (least range.0 x, most range.1 x) in
      if is_finite x then rest else inl non_finite_payoff

  abbrev pub tolerance_of : Float × Float → Float
  tolerance_of (minimum, maximum) =
      if is_finite (sub maximum minimum)
      then mul tiny (most (sub maximum minimum) unit)
      else most (sub (mul maximum tiny) (mul minimum tiny)) tiny

  abbrev pub info_of :
      List ℕ → Option (SolveError ⊎ (Float × Float)) → Option (SolveError ⊎ GameInfo Float)
  info_of counts none = none
  info_of counts (some (inl e)) = some (inl e)
  info_of counts (some (inr range)) =
      some (inr (record { counts = counts; tolerance = tolerance_of range }))

  abbrev pub inspect_counted : ℕ → SolveError ⊎ (List ℕ × ℕ) → Option (SolveError ⊎ GameInfo Float)
  inspect_counted fuel (inl e) = some (inl e)
  inspect_counted fuel (inr (counts, n_profiles)) =
      if ltb max_profiles n_profiles
      then some (inl (too_large n_profiles))
      else info_of counts (
          each_profile (λ profile range. scan_roles profile 0 game.n_roles range) fuel counts
            (replicate game.n_roles 0) (infinity, neg_infinity))

  unfoldable pub inspect_game : ℕ → Option (SolveError ⊎ GameInfo Float)
  unfolding count_profiles scan_roles each_profile
  inspect_game fuel =
      if game.n_roles == 0
      then some (inl (unsupported_roles game.n_roles))
      else inspect_counted fuel (count_profiles 0 game.n_roles 1)

  -- The best payoff of a role over its `n` actions from `action` on.
  unfoldable pub best_from : List ℕ → ℕ → ℕ → ℕ → Float → Float
  best_from profile role action zero best = best
  best_from profile role action (suc n) best =
      best_from profile role (action + 1) n (most best (game.payoff role (set profile role action)))

  -- The greatest regret over the roles from `role` on, which have the counts given.
  unfoldable pub regret_from : List ℕ → ℕ → List ℕ → Float → Float
  unfolding best_from
  regret_from profile role [] maximum = maximum
  regret_from profile role (c ∷ counts) maximum =
      let own = game.payoff role profile in
      regret_from profile (role + 1) counts
        (most maximum (sub (best_from profile role 0 c own) own))

  abbrev pub payoffs_from : List ℕ → ℕ → ℕ → List Float
  payoffs_from profile role zero = []
  payoffs_from profile role (suc n) = game.payoff role profile ∷ payoffs_from profile (role + 1) n

  -- The body of the loop of `pure_nash`.
  unfoldable pub add_equilibrium :
      GameInfo Float → List ℕ → List (PureNash Float) → SolveError ⊎ List (PureNash Float)
  unfolding regret_from
  add_equilibrium info profile result =
      let regret = regret_from profile 0 info.counts nil in
      if le regret info.tolerance
      then inr (
          result
          ++ (record {
            profile = profile;
            payoffs = payoffs_from profile 0 game.n_roles;
            regret = regret;
          }
              ∷ []))
      else inr result

  abbrev pub solve_inspected :
      ℕ → Option (SolveError ⊎ GameInfo Float) → Option (SolveError ⊎ List (PureNash Float))
  solve_inspected fuel none = none
  solve_inspected fuel (some (inl e)) = some (inl e)
  solve_inspected fuel (some (inr info)) =
      each_profile (add_equilibrium info) fuel info.counts (replicate game.n_roles 0) []

  unfoldable pub pure_nash : ℕ → Option (SolveError ⊎ List (PureNash Float))
  unfolding inspect_game add_equilibrium each_profile
  pure_nash fuel = solve_inspected fuel (inspect_game fuel)
