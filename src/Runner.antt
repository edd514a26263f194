-- ===== src/Runner.antt =====
-- The checked sweep of crates/socsim-runner/src/checked_sweep.rs over the combinations that
-- `cartesian_product` of crates/socsim-runner/src/lib.rs makes: the keys here, the patches of a scenario and
-- the sweep in the child modules. A string is the list of its characters, as numbers.
pub mod Strings
pub mod Keys
pub mod Patch
pub mod Sweep
mod Tests
pub mod Product
use rs_social_simulation_too.Prelude.{
  ℕ, zero, suc, ◌+◌, ◌≡◌, Bool, true, false, not, ◌||◌, ◌&&◌, ◌==◌,
}
use rs_social_simulation_too.Prelude.{if◌then◌else◌, Option, none, some, List, [], ◌∷◌, ◌++◌, map}

abbrev pub Str : Type 0
Str = List ℕ

abbrev pub dot : ℕ
dot = 46

-- `"world"`.
abbrev pub world : Str
world = 119 ∷ 111 ∷ 114 ∷ 108 ∷ 100 ∷ []

-- `==` of strings.
abbrev pub str_eq : Str → Str → Bool
str_eq [] [] = true
str_eq (c ∷ s) (d ∷ t) = c == d && str_eq s t
str_eq s t = false

-- `str::strip_prefix`.
unfoldable pub strip_prefix : Str → Str → Option Str
strip_prefix [] s = some s
strip_prefix (c ∷ prefix) [] = none
strip_prefix (c ∷ prefix) (d ∷ s) =
    let rest = strip_prefix prefix s in if c == d then rest else none

abbrev pub cons_first : ℕ → List Str → List Str
cons_first c [] = (c ∷ []) ∷ []
cons_first c (s ∷ rest) = (c ∷ s) ∷ rest

-- `split('.')`.
unfoldable pub split : Str → List Str
split [] = [] ∷ []
split (c ∷ s) = let rest = split s in if c == dot then [] ∷ rest else cons_first c rest

abbrev pub prepend : ℕ → Option (Str × Str) → Option (Str × Str)
prepend c none = none
prepend c (some (m, p)) = some (c ∷ m, p)

-- What stands before and behind the dot that `find('.')` finds.
unfoldable pub split_first : Str → Option (Str × Str)
split_first [] = none
split_first (c ∷ s) =
    let rest = prepend c (split_first s) in if c == dot then some ([], s) else rest

abbrev pub is_empty : {A : Type 0} → List A → Bool
is_empty [] = true
is_empty (x ∷ xs) = false

abbrev pub any_empty : List Str → Bool
any_empty [] = false
any_empty (s ∷ rest) = is_empty s || any_empty rest

-- `contains('.')`.
abbrev pub has_dot : Str → Bool
has_dot [] = false
has_dot (c ∷ s) = c == dot || has_dot s

-- Why an axis is refused.
pub data AxisReason : Type 0 where
  empty_segment : AxisReason
  no_dot : AxisReason
  empty_mechanism : AxisReason
  empty_param : AxisReason
  dotted_param : AxisReason
  duplicate : AxisReason
  no_values : AxisReason
  not_finite : AxisReason
  not_patched : AxisReason

pub data SweepTarget : Type 0 where
  world_path : List Str → SweepTarget
  mechanism_param : Str → Str → SweepTarget

pub data Parsed : Type 0 where
  parsed : SweepTarget → Parsed
  refused : AxisReason → Parsed

abbrev pub parse_world : List Str → Parsed
parse_world segments =
    if any_empty segments then refused empty_segment else parsed (world_path segments)

abbrev pub parse_param : Option (Str × Str) → Parsed
parse_param none = refused no_dot
parse_param (some (mechanism, param)) =
    if is_empty mechanism
    then refused empty_mechanism
    else if is_empty param
    then refused empty_param
    else if has_dot param
    then refused dotted_param
    else parsed (mechanism_param mechanism param)

abbrev pub parse_rest : Str → Option Str → Parsed
parse_rest key (some rest) = parse_world (split rest)
parse_rest key none = parse_param (split_first key)

unfoldable pub parse_key : Str → Parsed
unfolding strip_prefix split split_first
parse_key key = parse_rest key (strip_prefix (world ++ (dot ∷ [])) key)
