-- ===== src/Runner/Tests.antt =====
-- A sweep over a small scenario, with numbers in place of `f64` and association lists in place of tables.
use rs_social_simulation_too.Prelude.{
  ℕ, ◌+◌, ◌≡◌, ◌≢◌, ◌↔◌, refl, sym, ◌∙◌, ap, Bool, true, false, ◌&&◌, ◌==◌,
}
use rs_social_simulation_too.Prelude.{
  if◌then◌else◌, if_true, if_false, arith, Bool-cases, ==→≡, ==_refl, inl, inr,
}
use rs_social_simulation_too.Prelude.{Option, none, some, List, [], ◌∷◌, length}
use rs_social_simulation_too.Runner.{Str, str_eq, SweepTarget, world_path, parsed, parse_key}
use rs_social_simulation_too.Runner.Keys.{IsTarget, print, parse_key_iff}
use rs_social_simulation_too.Runner.Product.{
  SweepAxis, cartesian_product, choices, cartesian_product-choices,
}
use rs_social_simulation_too.Runner.Patch.{Toml, Kind, integer, float, table, patch_path, Scenario}
use rs_social_simulation_too.Runner.Patch.Reading.{Patched, patch_path-Patched}
use rs_social_simulation_too.Runner.Sweep.{TrialFactory, run_validated_trials, run_trial_sweep}
use rs_social_simulation_too.Runner.Sweep.Safety.{Swept, run_trial_sweep-Swept}
use rs_social_simulation_too.Runner.Sweep.Trials.{Trials, run_validated_trials-Trials}

mutual
  data TestValue : Type 0 where
    whole : ℕ → TestValue
    real : ℕ → TestValue
    inner : TestTable → TestValue

  data TestTable : Type 0 where
    no_entries : TestTable
    entry : Str → TestValue → TestTable → TestTable

abbrev test_kind : TestValue → Kind TestTable
test_kind (whole n) = integer
test_kind (real n) = float
test_kind (inner t) = table t

abbrev test_get : TestTable → Str → Option TestValue
test_get no_entries j = none
test_get (entry k v t) j = if str_eq k j then some v else test_get t j

str_eq_refl : (s : Str) → str_eq s s ≡ true
str_eq_refl [] = refl
str_eq_refl (c ∷ s) = rw (==_refl c, str_eq_refl s) refl

str_eq_sound : (s t : Str) → str_eq s t ≡ true → s ≡ t
str_eq_sound [] [] h = refl
str_eq_sound [] (d ∷ t) h = absurd cc
str_eq_sound (c ∷ s) [] h = absurd cc
str_eq_sound (c ∷ s) (d ∷ t) h = elim (Bool-cases (c == d)) [
  | inl e ↦
      let first = ==→≡ c d e in
      let rest = str_eq_sound s t (sym (ap (λ (b : Bool). b && str_eq s t) e) ∙ h) in cc
  | inr e ↦ absurd (apart (c == d) (str_eq s t) e h)
]
  where
    apart : (a b : Bool) → a ≡ false → (a && b) ≡ true → ⊥
    apart a b h k = ground arith

str_differ : (k j : Str) → j ≢ k → str_eq k j ≡ false
str_differ k j h = elim (Bool-cases (str_eq k j)) [
  | inl e ↦ absurd (h (sym (str_eq_sound k j e)))
  | inr e ↦ e
]

abbrev test_toml : Toml
test_toml = record {
  Float = ℕ;
  Value = TestValue;
  Table = TestTable;
  is_finite = λ x. true;
  is_i64 = λ x. true;
  kind = test_kind;
  of_float = real;
  of_integer = whole;
  of_table = inner;
  get = test_get;
  insert = λ t k v. entry k v t;
  kind_float = λ x. refl;
  kind_integer = λ x. refl;
  kind_table = λ t. refl;
  get_inserted = λ t k v. if_true _ _ (str_eq_refl k);
  get_others = λ t k j v h. if_false _ _ (str_differ k j h);
}

-- The names `a` and `b`.
abbrev a_name : Str
a_name = 97 ∷ []

abbrev b_name : Str
b_name = 98 ∷ []

abbrev a_b_path : SweepTarget
a_b_path = world_path (a_name ∷ b_name ∷ [])

parse_key_iff_example :
    (parse_key (print a_b_path) ≡ parsed a_b_path)
    ↔ (IsTarget a_b_path × (print a_b_path ≡ print a_b_path))
parse_key_iff_example = parse_key_iff (print a_b_path) a_b_path

abbrev base_table : TestTable
base_table = entry a_name (inner (entry b_name (whole 1) no_entries)) no_entries

abbrev patched_table : TestTable
patched_table =
    entry a_name (inner (entry b_name (whole 7) (entry b_name (whole 1) no_entries))) base_table

patched_run : patch_path test_toml base_table a_name (b_name ∷ []) 7 ≡ some patched_table
unfolding patch_path
patched_run = refl

patch_path-Patched_example :
    Patched test_toml base_table a_name
      (b_name ∷ [])
      7
      (patch_path test_toml base_table a_name (b_name ∷ []) 7)
patch_path-Patched_example = patch_path-Patched test_toml base_table a_name (b_name ∷ []) 7

abbrev test_scenario : Scenario test_toml
test_scenario = record { world = base_table; mechanisms = [] }

-- Trials that return their seed, save that the seed 3 fails.
abbrev test_factory : TrialFactory (Scenario test_toml) ℕ ℕ ℕ
test_factory = record {
  validate = λ s. none;
  build_trial = λ s seed. inr (seed + 1);
  execute = λ s trial seed. if seed == 3 then inl trial else inr seed;
  seed_of = λ x. x;
}

run_validated_trials-Trials_example :
    Trials test_factory ℕ test_scenario
      (2 ∷ 3 ∷ 1 ∷ [])
      (run_validated_trials test_factory test_scenario (2 ∷ 3 ∷ 1 ∷ []))
run_validated_trials-Trials_example =
    run_validated_trials-Trials test_factory ℕ test_scenario (2 ∷ 3 ∷ 1 ∷ [])

abbrev test_axes : List (SweepAxis ℕ)
test_axes = record { param_key = print a_b_path; values = 4 ∷ 5 ∷ [] } ∷ []

run_trial_sweep-Swept_example :
    Swept test_toml test_factory length test_scenario test_axes
      (2 ∷ 1 ∷ [])
      (run_trial_sweep test_toml test_factory length test_scenario test_axes (2 ∷ 1 ∷ []))
run_trial_sweep-Swept_example =
    run_trial_sweep-Swept test_toml test_factory length test_scenario test_axes (2 ∷ 1 ∷ [])

abbrev axes_of_two : List (SweepAxis ℕ)
axes_of_two =
    record { param_key = a_name; values = 1 ∷ 2 ∷ [] }
    ∷ record { param_key = b_name; values = 3 ∷ 4 ∷ [] }
    ∷ []

cartesian_product-choices_example : cartesian_product axes_of_two ≡ choices axes_of_two
cartesian_product-choices_example = cartesian_product-choices axes_of_two

two_axes :
    cartesian_product axes_of_two
    ≡ ((a_name, 1) ∷ (b_name, 3) ∷ [])
      ∷ ((a_name, 1) ∷ (b_name, 4) ∷ [])
      ∷ ((a_name, 2) ∷ (b_name, 3) ∷ [])
      ∷ ((a_name, 2) ∷ (b_name, 4) ∷ [])
      ∷ []
unfolding cartesian_product
two_axes = refl
