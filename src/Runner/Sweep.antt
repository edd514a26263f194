-- ===== src/Runner/Sweep.antt =====
-- `run_trial_sweep` of crates/socsim-runner/src/checked_sweep.rs and `run_validated_trials` of
-- crates/socsim-runner/src/trial.rs. A factory's methods and the execution of one trial are
-- parameters. Next to its result each function gives the calls that it makes, in order, so that what runs
-- before what can be stated; a parallel run makes the same calls in an order of its own.
pub mod Safety
pub mod Trials
use rs_social_simulation_too.Prelude.{ℕ, zero, suc, ◌+◌, ◌≡◌, Bool, true, false, ◌&&◌, ◌||◌, ◌==◌}
use rs_social_simulation_too.Prelude.{
  if◌then◌else◌, Option, none, some, List, [], ◌∷◌, ◌++◌, map, leb, ◌⊎◌, inl, inr,
}
use rs_social_simulation_too.Runner.{
  Str, AxisReason, duplicate, no_values, not_finite, not_patched, SweepTarget,
}
use rs_social_simulation_too.Runner.{Parsed, parsed, refused, parse_key, is_empty, str_eq}
use rs_social_simulation_too.Runner.Product.{SweepAxis, cartesian_product}
use rs_social_simulation_too.Runner.Patch.{Toml, Scenario, patch}

-- A trial factory, with errors `E`, trials `T` and results `R`; `execute` is `execute_trial`.
pub record TrialFactory (S E T R : Type 0) : Type 0 where
  pub validate : S → Option E
  pub build_trial : S → ℕ → E ⊎ T
  pub execute : S → T → ℕ → E ⊎ R
  -- `RunResult::seed`.
  pub seed_of : R → ℕ

pub data SweepError (F E : Type 0) : Type 0 where
  invalid_axis : Str → AxisReason → SweepError F E
  invalid_combination : List (Str × F) → E → SweepError F E
  failed_trial : ℕ → E → SweepError F E

-- The calls of a factory: a validation, or a trial with its seed.
pub data Call (S : Type 0) : Type 0 where
  validated : S → Call S
  ran : S → ℕ → Call S

module _ {S E T R : Type 0} (factory : TrialFactory S E T R) where
  abbrev pub execute_built : S → ℕ → E ⊎ T → E ⊎ R
  execute_built s seed (inl e) = inl e
  execute_built s seed (inr trial) = factory.execute s trial seed

  -- The closure `run_one`.
  unfoldable pub run_one : S → ℕ → E ⊎ R
  run_one s seed = execute_built s seed (factory.build_trial s seed)

  abbrev pub cons_result :
      {F : Type 0} → ℕ → E ⊎ R → SweepError F E ⊎ List R → SweepError F E ⊎ List R
  cons_result seed (inl e) rest = inl (failed_trial seed e)
  cons_result seed (inr x) (inl e) = inl e
  cons_result seed (inr x) (inr xs) = inr (x ∷ xs)

  -- Every seed runs, and then the outcomes are looked through in the order of the seeds.
  unfoldable pub collect : {F : Type 0} → S → List ℕ → SweepError F E ⊎ List R
  unfolding run_one
  collect s [] = inr []
  collect s (seed ∷ seeds) = cons_result seed (run_one s seed) (collect s seeds)

  abbrev pub runs : S → List ℕ → List (Call S)
  runs s [] = []
  runs s (seed ∷ seeds) = ran s seed ∷ runs s seeds

  unfoldable pub insert_by_seed : R → List R → List R
  insert_by_seed x [] = x ∷ []
  insert_by_seed x (y ∷ ys) =
      let rest = insert_by_seed x ys in
      if leb (factory.seed_of x) (factory.seed_of y) then x ∷ (y ∷ ys) else y ∷ rest

  -- `sort_by_key(|r| r.seed)`, which is stable.
  unfoldable pub sort_by_seed : List R → List R
  unfolding insert_by_seed
  sort_by_seed [] = []
  sort_by_seed (x ∷ xs) = insert_by_seed x (sort_by_seed xs)

  abbrev pub sorted_results : {F : Type 0} → SweepError F E ⊎ List R → SweepError F E ⊎ List R
  sorted_results (inl e) = inl e
  sorted_results (inr xs) = inr (sort_by_seed xs)

  unfoldable pub run_validated_trials : {F : Type 0} → S → List ℕ → SweepError F E ⊎ List R
  unfolding collect sort_by_seed
  run_validated_trials s seeds = sorted_results (collect s seeds)

pub record CheckedSweepPoint (F S M : Type 0) : Type 0 where
  pub params : List (Str × F)
  pub effective : S
  pub summary : M

abbrev pub contains : Str → List Str → Bool
contains key [] = false
contains key (k ∷ seen) = str_eq k key || contains key seen

module _ {F E : Type 0} where
  abbrev pub cons_target :
      SweepTarget → SweepError F E ⊎ List SweepTarget → SweepError F E ⊎ List SweepTarget
  cons_target t (inl e) = inl e
  cons_target t (inr ts) = inr (t ∷ ts)

  abbrev pub check_axis :
      List Str
      → SweepAxis F
      → Parsed
      → SweepError F E ⊎ List SweepTarget
      → SweepError F E ⊎ List SweepTarget
  check_axis seen axis (refused reason) rest = inl (invalid_axis axis.param_key reason)
  check_axis seen axis (parsed t) rest =
      if contains axis.param_key seen
      then inl (invalid_axis axis.param_key duplicate)
      else if is_empty axis.values
      then inl (invalid_axis axis.param_key no_values)
      else cons_target t rest

  -- The first loop, after the keys in `seen`.
  unfoldable pub check_axes : List Str → List (SweepAxis F) → SweepError F E ⊎ List SweepTarget
  unfolding parse_key
  check_axes seen [] = inr []
  check_axes seen (axis ∷ axes) =
      check_axis seen axis (parse_key axis.param_key) (check_axes (axis.param_key ∷ seen) axes)

module _ {E : Type 0} (m : Toml) where
  abbrev pub patch_error : Str → m.Float → SweepError m.Float E
  patch_error key x = invalid_axis key (if m.is_finite x then not_patched else not_finite)

  -- The loop over the values of one combination, with the targets beside them.
  unfoldable pub patch_combo :
      Scenario m → List (Str × m.Float) → List SweepTarget → SweepError m.Float E ⊎ Scenario m
  unfolding patch
  patch_combo s [] targets = inr s
  patch_combo s (p ∷ combo) [] = inr s
  patch_combo s (p ∷ combo) (t ∷ targets) = elim (patch m s t p.1) [
    | none ↦ inl (patch_error p.0 p.1)
    | some s' ↦ patch_combo s' combo targets
  ]

module _ {E T R M : Type 0} (m : Toml) (factory : TrialFactory (Scenario m) E T R)
    (summarize : List R → M) where
  abbrev pub Point : Type 0
  Point = List (Str × m.Float) × Scenario m

  abbrev pub Traced : Type 0 → Type 0
  Traced A = (SweepError m.Float E ⊎ A) × List (Call (Scenario m))

  abbrev pub cons_point : {A : Type 0} → A → Traced (List A) → Traced (List A)
  cons_point x (inl e, calls) = (inl e, calls)
  cons_point x (inr xs, calls) = (inr (x ∷ xs), calls)

  abbrev pub after_calls : {A : Type 0} → List (Call (Scenario m)) → Traced A → Traced A
  after_calls calls (x, later) = (x, calls ++ later)

  abbrev pub plan_checked :
      List (Str × m.Float) → Scenario m → Option E → Traced (List Point) → Traced (List Point)
  plan_checked combo s (some e) rest = (inl (invalid_combination combo e), validated s ∷ [])
  plan_checked combo s none rest = after_calls (validated s ∷ []) (cons_point (combo, s) rest)

  abbrev pub plan_patched :
      List (Str × m.Float)
      → SweepError m.Float E ⊎ Scenario m
      → Traced (List Point)
      → Traced (List Point)
  plan_patched combo (inl e) rest = (inl e, [])
  plan_patched combo (inr s) rest = plan_checked combo s (factory.validate s) rest

  -- The second loop: every combination is patched and validated.
  unfoldable pub plan :
      Scenario m → List SweepTarget → List (List (Str × m.Float)) → Traced (List Point)
  unfolding patch_combo
  plan s targets [] = (inr [], [])
  plan s targets (combo ∷ combos) =
      plan_patched combo (patch_combo m s combo targets) (plan s targets combos)

  abbrev pub point_run :
      Point
      → List (Call (Scenario m))
      → SweepError m.Float E ⊎ List R
      → Traced (List (CheckedSweepPoint m.Float (Scenario m) M))
      → Traced (List (CheckedSweepPoint m.Float (Scenario m) M))
  point_run p calls (inl e) rest = (inl e, calls)
  point_run p calls (inr results) rest =
      after_calls calls
        (cons_point (record { params = p.0; effective = p.1; summary = summarize results }) rest)

  -- The third loop.
  unfoldable pub run_points :
      List ℕ → List Point → Traced (List (CheckedSweepPoint m.Float (Scenario m) M))
  unfolding run_validated_trials
  run_points seeds [] = (inr [], [])
  run_points seeds (p ∷ points) =
      point_run p (runs factory p.1 seeds) (run_validated_trials factory p.1 seeds)
        (run_points seeds points)

  abbrev pub run_planned :
      List ℕ → Traced (List Point) → Traced (List (CheckedSweepPoint m.Float (Scenario m) M))
  run_planned seeds (inl e, calls) = (inl e, calls)
  run_planned seeds (inr points, calls) = after_calls calls (run_points seeds points)

  abbrev pub sweep_checked :
      Scenario m
      → List (SweepAxis m.Float)
      → List ℕ
      → SweepError m.Float E ⊎ List SweepTarget
      → Traced (List (CheckedSweepPoint m.Float (Scenario m) M))
  sweep_checked s axes seeds (inl e) = (inl e, [])
  sweep_checked s axes seeds (inr targets) =
      run_planned seeds (plan s targets (cartesian_product axes))

  unfoldable pub run_trial_sweep :
      Scenario m
      → List (SweepAxis m.Float)
      → List ℕ
      → Traced (List (CheckedSweepPoint m.Float (Scenario m) M))
  unfolding check_axes cartesian_product plan run_points
  run_trial_sweep s axes seeds = sweep_checked s axes seeds (check_axes [] axes)
