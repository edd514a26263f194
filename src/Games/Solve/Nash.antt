-- ===== src/Games/Solve/Nash.antt =====
-- What the enumeration of pure equilibria returns.
use rs_social_simulation_too.Prelude.{ℕ, ◌≤◌, ◌<◌, ◌≡◌, refl, ◌∙◌, ap, arith}
use rs_social_simulation_too.Prelude.{
  false, ltb, ◌==◌, ◌∈◌, ==→≡, ltb→lt, Bool-cases, inl, inr, ◌⊎◌, if_true, if_false,
}
use rs_social_simulation_too.Prelude.{some, List, [], All}
use rs_social_simulation_too.Games.Solve.{
  Reals, FiniteGame, SolveError, too_large, unsupported_roles, empty_actions,
}
use rs_social_simulation_too.Games.Solve.{
  non_finite_payoff, max_profiles, each_profile, GameInfo, PureNash,
}
use rs_social_simulation_too.Games.Solve.{count_profiles, tolerance_of, info_of}
use rs_social_simulation_too.Games.Solve.{inspect_counted, inspect_game, add_equilibrium}
use rs_social_simulation_too.Games.Solve.{solve_inspected, pure_nash}
use rs_social_simulation_too.Games.Solve.Profiles.{
  profiles, IsSome, count_of, for_each, each_profile-profiles,
}
use rs_social_simulation_too.Games.Solve.Profiles.{first_profile, first_profile-IsProfile}
use rs_social_simulation_too.Games.Solve.Scanning.{Counted, empty, counted, count_profiles-Counted}
use rs_social_simulation_too.Games.Solve.Scanning.{
  first_profile-counts_from, Scanned, infinite, finite, for_each-Scanned,
}
use rs_social_simulation_too.Games.Solve.Extremes.{fold}
use rs_social_simulation_too.Games.Solve.Listing.{mem-profiles}
use rs_social_simulation_too.Games.Solve.Regret.{
  Ordered, IsTolerance, all_payoffs, scan, for_each-fold,
}
use rs_social_simulation_too.Games.Solve.Regret.{mem-all_payoffs}
use rs_social_simulation_too.Games.Solve.Gains.{fold-greatest, fold-least}
use rs_social_simulation_too.Games.Solve.Selection.{
  Lists, all_counts, AllFinite, for_each-Lists, AllFinite-IsFiniteAt, all_payoffs_finite,
}

module _ (f : Reals) (o : Ordered f) (game : FiniteGame f.Float) where
  open f use {Float, is_finite, least, most}

  -- What solving a game gives.
  pub data Solves (fuel : ℕ) : SolveError ⊎ List (PureNash Float) → Type 0 where
    no_roles : game.n_roles ≡ 0 → Solves fuel (inl (unsupported_roles 0))
    no_actions :
        (role : ℕ)
        → role < game.n_roles
        → game.n_actions role ≡ 0
        → Solves fuel (inl (empty_actions role))
    refused_size :
        (n_profiles : ℕ)
        → max_profiles < count_of (all_counts f o game)
        → Solves fuel (inl (too_large n_profiles))
    not_finite :
        (profile : List ℕ) (role : ℕ)
        → profile ∈ profiles (all_counts f o game)
        → role < game.n_roles
        → is_finite (game.payoff role profile) ≡ false
        → Solves fuel (inl non_finite_payoff)
    solved :
        (tolerance : Float) (found : List (PureNash Float))
        → (AllFinite f o game)
        → IsTolerance f game (profiles (all_counts f o game)) tolerance
        → Lists f o game tolerance (profiles (all_counts f o game)) found
        → Solves fuel (inr found)

  Ends : ℕ → Type 0
  Ends fuel =
      (result : SolveError ⊎ List (PureNash Float)) × (pure_nash f game fuel ≡ some result)
      × Solves fuel result

  -- After the counting and the scan.
  inspect_game-Ends :
      (fuel : ℕ) (result : SolveError ⊎ (Float × Float))
      → 0 < game.n_roles
      → All IsSome (all_counts f o game)
      → count_of (all_counts f o game) ≤ fuel
      → result
        ≡ for_each (scan f game) (profiles (all_counts f o game)) (f.infinity, f.neg_infinity)
      → Scanned f game (profiles (all_counts f o game)) 0 game.n_roles result
      → inspect_game f game fuel ≡ info_of f game (all_counts f o game) (some result)
      → Ends fuel
  unfolding Ends pure_nash
  inspect_game-Ends fuel result some_role all enough scanned (infinite p r m h bad) e = (
    inl non_finite_payoff,
    ap (solve_inspected f game fuel) e,
    not_finite p r m (omega arith) bad,
  )
  inspect_game-Ends fuel result some_role all enough scanned (finite range known) e =
      let good : (AllFinite f o game) = λ p r m h. known p r m (omega arith) (omega arith) in
      let pays = all_payoffs f game (profiles (all_counts f o game)) in
      let lo = fold least f.infinity pays in
      let hi = fold most f.neg_infinity pays in
      let tolerance = tolerance_of f game (lo, hi) in
      let info : GameInfo Float = record {
        counts = (all_counts f o game);
        tolerance = tolerance;
      } in
      let looked : inspect_game f game fuel ≡ some (inr info) =
        e
        ∙ ap (λ (s : SolveError ⊎ (Float × Float)). info_of f game (all_counts f o game) (some s))
            (scanned
              ∙ for_each-fold f game (profiles (all_counts f o game)) f.infinity f.neg_infinity
                  good) in
      let listed = all_payoffs_finite f o game (profiles (all_counts f o game)) good in
      let one =
        mem-all_payoffs f game (profiles (all_counts f o game))
          (first_profile (all_counts f o game)) 0
          (mem-profiles (first_profile (all_counts f o game)) (all_counts f o game)
            (first_profile-IsProfile (all_counts f o game) all))
          some_role in
      let (found, looped, lists) =
        for_each-Lists f o game tolerance (profiles (all_counts f o game)) []
          (AllFinite-IsFiniteAt f o game good) in
      (
        inr found,
        ap (solve_inspected f game fuel) looked
            ∙ ap
                (λ (p : List ℕ).
                  each_profile (add_equilibrium f game info) fuel (all_counts f o game) p [])
                (first_profile-counts_from f game 0 game.n_roles)
            ∙ each_profile-profiles (add_equilibrium f game info) fuel (all_counts f o game) [] all
                enough
            ∙ ap some looped,
        solved tolerance found good
            (
              lo,
              hi,
              fold-least f o game pays listed _ one,
              fold-greatest f o game pays listed _ one,
              refl,
            )
            lists,
      )

  -- After the counting.
  inspect_counted-Ends :
      (fuel : ℕ) (counts : SolveError ⊎ (List ℕ × ℕ))
      → 0 < game.n_roles
      → count_of (all_counts f o game) ≤ fuel
      → Counted f game 0 game.n_roles 1 counts
      → inspect_game f game fuel ≡ inspect_counted f game fuel counts
      → Ends fuel
  unfolding Ends pure_nash
  inspect_counted-Ends fuel counts some_role enough (empty r above below none_there) e = (
    inl (empty_actions r),
    ap (solve_inspected f game fuel) e,
    no_actions r (omega arith) none_there,
  )
  inspect_counted-Ends fuel counts some_role enough (counted n_profiles all bound) e =
      elim (Bool-cases (ltb max_profiles n_profiles)) [
        | inl large ↦ (
          inl (too_large n_profiles),
          ap (solve_inspected f game fuel) (e ∙ if_true _ _ large),
          refused_size n_profiles (omega (arith, ltb→lt _ _ large, bound)),
        )
        | inr small ↦
            inspect_game-Ends fuel
              (for_each (scan f game) (profiles (all_counts f o game)) (f.infinity, f.neg_infinity))
              some_role all enough refl
              (for_each-Scanned f game game.n_roles (profiles (all_counts f o game))
                (f.infinity, f.neg_infinity))
              (e
                ∙ if_false _ _ small
                ∙ ap
                    (λ (p : List ℕ). info_of f game (all_counts f o game) (
                      each_profile (scan f game) fuel (all_counts f o game) p
                        (f.infinity, f.neg_infinity)))
                    (first_profile-counts_from f game 0 game.n_roles)
                ∙ ap (info_of f game (all_counts f o game)) (
                    each_profile-profiles (scan f game) fuel (all_counts f o game)
                      (f.infinity, f.neg_infinity) all enough))
      ]

  -- Fuel for as many rounds as there are profiles is enough: `pure_nash` ends. It reports that the game has no
  -- roles, a role that has no action, that there are more profiles than the limit, or that a payoff is not
  -- finite, only where it is so. Else every payoff of every profile is finite, and of the profiles in
  -- lexicographic order it gives those whose regret is at most the tolerance, each once, with its payoffs and its
  -- regret. The regret is the greatest of zero and of what any role gains by any other of its actions; the
  -- tolerance is `tiny` times the difference of the game's greatest and least payoff, or of one if that is more, or,
  -- where this difference is not finite, the difference of the scaled payoffs or `tiny` itself.
  pub pure_nash-Solves :
      (fuel : ℕ)
      → count_of (all_counts f o game) ≤ fuel
      → (result : SolveError ⊎ List (PureNash Float)) × (pure_nash f game fuel ≡ some result)
        × Solves fuel result
  unfolding pure_nash inspect_game Ends
  pure_nash-Solves fuel enough = elim (Bool-cases (game.n_roles == 0)) [
    | inl e ↦
        let none_there : game.n_roles ≡ 0 = ==→≡ _ _ e in
        (
          inl (unsupported_roles 0),
          ap (solve_inspected f game fuel) (if_true _ _ e)
              ∙ ap (λ (n : ℕ). some (inl (unsupported_roles n))) none_there,
          no_roles none_there,
        )
    | inr e ↦
        inspect_counted-Ends fuel (count_profiles f game 0 game.n_roles 1) (ground (arith, e))
          enough (count_profiles-Counted f game 0 game.n_roles 1) (if_false _ _ e)
  ]
