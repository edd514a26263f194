-- ===== src/Grid/Index.antt =====
-- The occupancy index of crates/socsim-grid/src/lib.rs (`GridIndex`). An operation that mutates
-- returns its reply with the state that it leaves; `none` is a panic, an index out of range.
pub mod Invariant
pub mod Place
pub mod Move
pub mod Exact
pub mod Agreement
pub mod Vacancy
pub mod Nearest
use rs_social_simulation_too.Prelude.{ℕ, zero, suc, ◌+◌, ◌*◌, ◌/◌, ◌%◌, Bool, ◌&&◌, ltb, ◌==◌}
use rs_social_simulation_too.Prelude.{if◌then◌else◌, Option, none, some, List, [], ◌∷◌, replicate}
use rs_social_simulation_too.Prelude.{get_elem?, set}
use rs_social_simulation_too.Prelude.BTree.{lookup, insert, keys}
pub use rs_social_simulation_too.Core.{AgentId}
use rs_social_simulation_too.Grid.{Grid, Cell, Neighborhood, len, neighbors}

pub data GridError : Type 0 where
  out_of_bounds : ℕ → ℕ → ℕ → ℕ → GridError
  cell_occupied : ℕ → ℕ → AgentId → GridError
  unknown_agent : AgentId → GridError

-- `Result<(), GridError>`.
pub data Reply : Type 0 where
  ok : Reply
  err : GridError → Reply

pub record GridIndex : Type 0 where
  pub grid : Grid
  pub cells : List (Option AgentId)
  pub positions : List (AgentId × Cell)

unfoldable pub new : Grid → GridIndex
new g = record { grid = g; cells = replicate (len g) none; positions = [] }

abbrev pub idx : GridIndex → ℕ → ℕ → ℕ
idx x r c = r * x.grid.cols + c

-- The test of `check_bounds`, and the error that it gives.
abbrev pub is_inside : GridIndex → ℕ → ℕ → Bool
is_inside x r c = ltb r x.grid.rows && ltb c x.grid.cols

abbrev pub outside : GridIndex → ℕ → ℕ → GridError
outside x r c = out_of_bounds r c x.grid.rows x.grid.cols

abbrev place_on : GridIndex → AgentId → ℕ → ℕ → Option (Option AgentId) → Option (Reply × GridIndex)
place_on x id r c none = none
place_on x id r c (some (some occupant)) = some (err (cell_occupied r c occupant), x)
place_on x id r c (some none) = some (
  ok,
  record x { cells = set x.cells (idx x r c) (some id); positions = insert id (r, c) x.positions },
)

unfoldable pub place : GridIndex → AgentId → ℕ → ℕ → Option (Reply × GridIndex)
place x id r c =
    if is_inside x r c
    then place_on x id r c (get_elem? x.cells (idx x r c))
    else some (err (outside x r c), x)

unfoldable pub occupant : GridIndex → ℕ → ℕ → Option (Option AgentId)
occupant x r c = if is_inside x r c then get_elem? x.cells (idx x r c) else some none

unfoldable pub position : GridIndex → AgentId → Option Cell
position x id = lookup id x.positions

abbrev relocate :
    GridIndex → AgentId → Cell → ℕ → ℕ → Option (Option AgentId) → Option (Reply × GridIndex)
relocate x id old r c none = none
relocate x id old r c (some (some occupant)) =
    if occupant == id then some (ok, x) else some (err (cell_occupied r c occupant), x)
relocate x id old r c (some none) = elim (get_elem? x.cells (idx x old.0 old.1)) [
  | none ↦ none
  | some _ ↦ some (
    ok,
    record x {
      cells = set (set x.cells (idx x old.0 old.1) none) (idx x r c) (some id);
      positions = insert id (r, c) x.positions;
    },
  )
]

unfoldable pub move_to : GridIndex → AgentId → ℕ → ℕ → Option (Reply × GridIndex)
move_to x id r c = elim (lookup id x.positions) [
  | none ↦ some (err (unknown_agent id), x)
  | some old ↦
      if is_inside x r c
      then relocate x id old r c (get_elem? x.cells (idx x r c))
      else some (err (outside x r c), x)
]

-- The loop over `cells`, from the index `i` on.
unfoldable pub vacant_from : ℕ → ℕ → List (Option AgentId) → List Cell
vacant_from cols i [] = []
vacant_from cols i (none ∷ occs) = (i / cols, i % cols) ∷ vacant_from cols (i + 1) occs
vacant_from cols i (some _ ∷ occs) = vacant_from cols (i + 1) occs

unfoldable pub vacant_cells : GridIndex → List Cell
unfolding vacant_from
vacant_cells x = vacant_from x.grid.cols 0 x.cells

unfoldable pub agent_ids : GridIndex → List AgentId
unfolding keys
agent_ids x = keys x.positions

-- `none` is a panic of `occupant`; a vacant neighbour adds nothing.
abbrev pub add_occupant : Option (Option AgentId) → Option (List AgentId) → Option (List AgentId)
add_occupant (some (some id)) (some ids) = some (id ∷ ids)
add_occupant (some none) (some ids) = some ids
add_occupant _ _ = none

unfoldable pub occupants : GridIndex → List Cell → Option (List AgentId)
unfolding occupant
occupants x [] = some []
occupants x (p ∷ ps) = add_occupant (occupant x p.0 p.1) (occupants x ps)

unfoldable pub occupant_neighbors : GridIndex → ℕ → ℕ → Neighborhood → Option (List AgentId)
unfolding occupants neighbors
occupant_neighbors x r c nbhd = occupants x (neighbors x.grid (r, c) nbhd)
