-- ===== src/Runner/Patch.antt =====
-- Writing a swept value into a scenario: `write_existing`, `patch_world`, `patch_mechanism` and `patch` of
-- crates/socsim-runner/src/checked_sweep.rs. The values and tables of the `toml` crate and `f64` are
-- parameters; a patch that fails leaves nothing, since its caller drops the copy it works on.
pub mod Replacing
pub mod Reading
use rs_social_simulation_too.Prelude.{
  ℕ, zero, suc, ◌+◌, ◌≡◌, ◌≢◌, refl, sym, ◌∙◌, ap, Bool, true, false, ◌&&◌, ◌||◌, ◌==◌,
}
use rs_social_simulation_too.Prelude.{if◌then◌else◌, Option, none, some, List, [], ◌∷◌, ◌++◌, map}
use rs_social_simulation_too.Runner.{Str, SweepTarget, world_path, mechanism_param, str_eq}

-- The kinds of `toml::Value` that a sweep tells apart.
pub data Kind (T : Type 0) : Type 0 where
  integer : Kind T
  float : Kind T
  table : T → Kind T
  other : Kind T

-- `f64`, and the values and tables of the `toml` crate.
pub record Toml : Type 1 where
  pub Float : Type 0
  pub Value : Type 0
  pub Table : Type 0
  pub is_finite : Float → Bool
  -- `value.fract() == 0.0` and the range of `i64`.
  pub is_i64 : Float → Bool
  pub kind : Value → Kind Table
  pub of_float : Float → Value
  -- `value as i64`.
  pub of_integer : Float → Value
  pub of_table : Table → Value
  pub get : Table → Str → Option Value
  pub insert : Table → Str → Value → Table
  pub kind_float : (x : Float) → kind (of_float x) ≡ float
  pub kind_integer : (x : Float) → kind (of_integer x) ≡ integer
  pub kind_table : (t : Table) → kind (of_table t) ≡ table t
  pub get_inserted : (t : Table) (k : Str) (v : Value) → get (insert t k v) k ≡ some v
  pub get_others : (t : Table) (k j : Str) (v : Value) → j ≢ k → get (insert t k v) j ≡ get t j

module _ (m : Toml) where
  open m use {
    Float, Value, Table, is_finite, is_i64, kind, of_float, of_integer, of_table, get, insert,
  }

  pub record MechanismEntry : Type 0 where
    pub name : Str
    pub params : Table

  pub record Scenario : Type 0 where
    pub world : Table
    pub mechanisms : List MechanismEntry

  abbrev pub write_kind : Kind Table → Float → Option Value
  write_kind integer x = if is_i64 x then some (of_integer x) else none
  write_kind float x = some (of_float x)
  write_kind (table t) x = none
  write_kind other x = none

  unfoldable pub write_existing : Value → Float → Option Value
  write_existing slot x = write_kind (kind slot) x

  abbrev pub write_at : Table → Str → Option Value → Option Table
  write_at t k none = none
  write_at t k (some v) = some (insert t k v)

  -- A write into a slot that may be missing.
  abbrev pub write_slot : Table → Str → Option Value → Float → Option Table
  write_slot t k none x = none
  write_slot t k (some slot) x = write_at t k (write_existing slot x)

  abbrev pub table_of : Kind Table → Option Table
  table_of (table t) = some t
  table_of k = none

  abbrev pub as_table : Option Value → Option Table
  as_table none = none
  as_table (some v) = table_of (kind v)

  abbrev pub put_back : Table → Str → Option Table → Option Table
  put_back t k none = none
  put_back t k (some inner) = some (insert t k (of_table inner))

  abbrev pub within : {B : Type 0} → Option Table → (Table → Option B) → Option B
  within none f = none
  within (some t) f = f t

  -- Along the parents of the path to its last segment.
  unfoldable pub patch_path : Table → Str → List Str → Float → Option Table
  unfolding write_existing
  patch_path t leaf [] x = write_slot t leaf (get t leaf) x
  patch_path t k (next ∷ rest) x =
      within (as_table (get t k)) (λ inner. put_back t k (patch_path inner next rest x))

  abbrev pub patch_world : Scenario → List Str → Float → Option Scenario
  patch_world s [] x = none
  patch_world s (k ∷ rest) x = elim (patch_path s.world k rest x) [
    | none ↦ none
    | some t ↦ some (record s { world = t })
  ]

  -- A parameter that is missing is added as a float.
  abbrev pub patch_param : Table → Str → Option Value → Float → Option Table
  patch_param t param none x = some (insert t param (of_float x))
  patch_param t param (some slot) x = write_at t param (write_existing slot x)

  abbrev pub renew : MechanismEntry → Option Table → Option MechanismEntry
  renew e none = none
  renew e (some t) = some (record e { params = t })

  unfoldable pub patch_entry : MechanismEntry → Str → Str → Float → Option MechanismEntry
  unfolding write_existing
  patch_entry e mechanism param x =
      if str_eq e.name mechanism
      then renew e (patch_param e.params param (get e.params param) x)
      else some e

  abbrev pub cons_entry :
      Option MechanismEntry → Option (List MechanismEntry) → Option (List MechanismEntry)
  cons_entry (some e) (some es) = some (e ∷ es)
  cons_entry e es = none

  unfoldable pub patch_entries :
      List MechanismEntry → Str → Str → Float → Option (List MechanismEntry)
  unfolding patch_entry
  patch_entries [] mechanism param x = some []
  patch_entries (e ∷ es) mechanism param x =
      cons_entry (patch_entry e mechanism param x) (patch_entries es mechanism param x)

  -- `matched`, whether it is above zero.
  abbrev pub any_named : List MechanismEntry → Str → Bool
  any_named [] mechanism = false
  any_named (e ∷ es) mechanism = str_eq e.name mechanism || any_named es mechanism

  abbrev pub with_entries : Scenario → Option (List MechanismEntry) → Option Scenario
  with_entries s none = none
  with_entries s (some es) = some (record s { mechanisms = es })

  unfoldable pub patch_mechanism : Scenario → Str → Str → Float → Option Scenario
  unfolding patch_entries
  patch_mechanism s mechanism param x =
      if any_named s.mechanisms mechanism
      then with_entries s (patch_entries s.mechanisms mechanism param x)
      else none

  abbrev pub patch_target : Scenario → SweepTarget → Float → Option Scenario
  patch_target s (world_path path) x = patch_world s path x
  patch_target s (mechanism_param mechanism param) x = patch_mechanism s mechanism param x

  unfoldable pub patch : Scenario → SweepTarget → Float → Option Scenario
  unfolding patch_path patch_mechanism
  patch s target x = if is_finite x then patch_target s target x else none
