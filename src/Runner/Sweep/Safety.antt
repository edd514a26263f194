-- ===== src/Runner/Sweep/Safety.antt =====
-- No trial runs before every combination is validated.
use rs_social_simulation_too.Prelude.{ℕ, ◌≡◌, refl, ◌∙◌, ap, ◌⊎◌, inl, inr}
use rs_social_simulation_too.Prelude.{Option, none, some, List, [], ◌∷◌, ◌++◌, map, All}
use rs_social_simulation_too.Runner.{Str, SweepTarget}
use rs_social_simulation_too.Runner.Product.{
  SweepAxis, cartesian_product, choices, cartesian_product-choices,
}
use rs_social_simulation_too.Runner.Patch.{Toml, Scenario}
use rs_social_simulation_too.Runner.Sweep.{TrialFactory, SweepError}
use rs_social_simulation_too.Runner.Sweep.{
  Call, validated, ran, runs, run_validated_trials, CheckedSweepPoint,
}
use rs_social_simulation_too.Runner.Sweep.{check_axes, patch_combo}
use rs_social_simulation_too.Runner.Sweep.{
  plan_checked, plan_patched, plan, point_run, run_points, run_planned,
}
use rs_social_simulation_too.Runner.Sweep.{sweep_checked, run_trial_sweep}

abbrev pub IsRun : {S : Type 0} → Call S → Type 0
IsRun (validated s) = ⊥
IsRun (ran s seed) = Unit

abbrev pub IsValidation : {S : Type 0} → Call S → Type 0
IsValidation (validated s) = Unit
IsValidation (ran s seed) = ⊥

module _ {E T R M : Type 0} (m : Toml) (factory : TrialFactory (Scenario m) E T R)
    (summarize : List R → M) where
  open m use {Float}

  -- A combination whose scenario was patched and found valid.
  abbrev pub IsReady : Scenario m → List SweepTarget → List (Str × Float) × Scenario m → Type 0
  IsReady s targets p =
      (patch_combo {E = E} m s p.0 targets ≡ inr p.1) × (factory.validate p.1 ≡ none)

  -- The calls that validate the points of a plan.
  abbrev pub validations : List (List (Str × Float) × Scenario m) → List (Call (Scenario m))
  validations points = map (λ p. validated p.1) points

  abbrev pub params_of : List (List (Str × Float) × Scenario m) → List (List (Str × Float))
  params_of points = map (λ p. p.0) points

  data Planned (s : Scenario m) (targets : List SweepTarget) (combos : List (List (Str × Float)))
      : (SweepError Float E ⊎ List (List (Str × Float) × Scenario m)) × List (Call (Scenario m))
        → Type 0 where
    stopped :
        (e : SweepError Float E) (calls : List (Call (Scenario m)))
        → All IsValidation calls
        → Planned s targets combos (inl e, calls)
    planned :
        (points : List (List (Str × Float) × Scenario m))
        → params_of points ≡ combos
        → All (IsReady s targets) points
        → Planned s targets combos (inr points, validations points)

  plan-Planned :
      (s : Scenario m) (targets : List SweepTarget) (combos : List (List (Str × Float)))
      → Planned s targets combos (plan m factory summarize s targets combos)
  unfolding plan
  plan-Planned s targets [] = planned [] refl tt
  plan-Planned s targets (combo ∷ combos) =
      patched (patch_combo m s combo targets) refl (plan m factory summarize s targets combos)
        (plan-Planned s targets combos)
    where
      checked :
          (s' : Scenario m)
          → patch_combo {E = E} m s combo targets ≡ inr s'
          → (valid : Option E) → factory.validate s' ≡ valid
          → (rest : (SweepError Float E ⊎ List (List (Str × Float) × Scenario m))
              × List (Call (Scenario m)))
          → Planned s targets combos rest
          → Planned s targets
              (combo ∷ combos)
              (plan_checked m factory summarize combo s' valid rest)
      checked s' e (some error) v rest h = stopped _ _ (tt, tt)
      checked s' e none v rest (stopped error calls all) = stopped error _ (tt, all)
      checked s' e none v rest (planned points params all) =
          planned ((combo, s') ∷ points) (ap (◌∷◌ combo) params) ((e, v), all)

      patched :
          (result : SweepError Float E ⊎ Scenario m)
          → patch_combo {E = E} m s combo targets ≡ result
          → (rest : (SweepError Float E ⊎ List (List (Str × Float) × Scenario m))
              × List (Call (Scenario m)))
          → Planned s targets combos rest
          → Planned s targets (combo ∷ combos) (plan_patched m factory summarize combo result rest)
      patched (inl error) e rest h = stopped error [] tt
      patched (inr s') e rest h = checked s' e (factory.validate s') refl rest h

  -- Every seed runs at every point, in the order of the points.
  abbrev pub all_runs : List ℕ → List (List (Str × Float) × Scenario m) → List (Call (Scenario m))
  all_runs seeds [] = []
  all_runs seeds (p ∷ points) = runs factory p.1 seeds ++ all_runs seeds points

  -- How the trials of a plan end.
  pub data Ran (seeds : List ℕ) (points : List (List (Str × Float) × Scenario m))
      : (SweepError Float E ⊎ List (CheckedSweepPoint Float (Scenario m) M))
          × List (Call (Scenario m))
        → Type 0 where
    failed :
        (e : SweepError Float E) (calls : List (Call (Scenario m)))
        → All IsRun calls
        → Ran seeds points (inl e, calls)
    finished :
        (results : List (CheckedSweepPoint Float (Scenario m) M))
        → map (λ r. r.params) results ≡ params_of points
        → map (λ r. r.effective) results ≡ map (λ p. p.1) points
        → Ran seeds points (inr results, all_runs seeds points)

  runs-IsRun : (s : Scenario m) (seeds : List ℕ) → All IsRun (runs factory s seeds)
  runs-IsRun s [] = tt
  runs-IsRun s (seed ∷ seeds) = (tt, runs-IsRun s seeds)

  All-append :
      (xs ys : List (Call (Scenario m))) → All IsRun xs → All IsRun ys → All IsRun (xs ++ ys)
  All-append [] ys h k = k
  All-append (x ∷ xs) ys (hx, h) k = (hx, All-append xs ys h k)

  run_points-Ran :
      (seeds : List ℕ) (points : List (List (Str × Float) × Scenario m))
      → Ran seeds points (run_points m factory summarize seeds points)
  unfolding run_points
  run_points-Ran seeds [] = finished [] refl refl
  run_points-Ran seeds (p ∷ points) =
      point (run_validated_trials factory p.1 seeds) _ (run_points-Ran seeds points)
    where
      point :
          (outcome : SweepError Float E ⊎ List R)
          (rest : (SweepError Float E ⊎ List (CheckedSweepPoint Float (Scenario m) M))
            × List (Call (Scenario m)))
          → Ran seeds points rest
          → Ran seeds
              (p ∷ points)
              (point_run m factory summarize p (runs factory p.1 seeds) outcome rest)
      point (inl e) rest h = failed e _ (runs-IsRun p.1 seeds)
      point (inr results) rest (failed e calls all) =
          failed e _ (All-append (runs factory p.1 seeds) calls (runs-IsRun p.1 seeds) all)
      point (inr results) rest (finished later params effective) =
          finished _ (ap (◌∷◌ p.0) params) (ap (◌∷◌ p.1) effective)

  -- A sweep and its calls.
  pub data Swept (s : Scenario m) (axes : List (SweepAxis Float)) (seeds : List ℕ)
      : (SweepError Float E ⊎ List (CheckedSweepPoint Float (Scenario m) M))
          × List (Call (Scenario m))
        → Type 0 where
    refused_before :
        (e : SweepError Float E) (calls : List (Call (Scenario m)))
        → All IsValidation calls
        → Swept s axes seeds (inl e, calls)
    executed :
        (targets : List SweepTarget) (points : List (List (Str × Float) × Scenario m))
        → check_axes {E = E} [] axes ≡ inr targets
        → params_of points ≡ choices axes
        → All (IsReady s targets) points
        → (result : SweepError Float E ⊎ List (CheckedSweepPoint Float (Scenario m) M))
          (calls : List (Call (Scenario m)))
        → Ran seeds points (result, calls)
        → Swept s axes seeds (result, validations points ++ calls)

  -- A sweep either fails without running a trial, whatever it validated; or every combination of the values
  -- of the axes was patched and found valid first, in order, and only then trials run. If none fails, each point
  -- has one result, in the order of the combinations, on the scenario that was validated.
  pub run_trial_sweep-Swept :
      (s : Scenario m) (axes : List (SweepAxis Float)) (seeds : List ℕ)
      → Swept s axes seeds (run_trial_sweep m factory summarize s axes seeds)
  unfolding run_trial_sweep
  run_trial_sweep-Swept s axes seeds = checked (check_axes [] axes) refl
    where
      ran_plan :
          (targets : List SweepTarget)
          → check_axes {E = E} [] axes ≡ inr targets
          → (combos : List (List (Str × Float))) → combos ≡ choices axes
          → (p : (SweepError Float E ⊎ List (List (Str × Float) × Scenario m))
              × List (Call (Scenario m)))
          → Planned s targets combos p
          → Swept s axes seeds (run_planned m factory summarize seeds p)
      ran_plan targets e combos all p (stopped error calls valid) = refused_before error calls valid
      ran_plan targets e combos all p (planned points params ready) =
          executed targets points e (params ∙ all) ready _ _ (run_points-Ran seeds points)

      checked :
          (result : SweepError Float E ⊎ List SweepTarget)
          → check_axes {E = E} [] axes ≡ result
          → Swept s axes seeds (sweep_checked m factory summarize s axes seeds result)
      checked (inl error) e = refused_before error [] tt
      checked (inr targets) e =
          ran_plan targets e (cartesian_product axes) (cartesian_product-choices axes) _
            (plan-Planned s targets (cartesian_product axes))
