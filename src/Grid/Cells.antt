-- ===== src/Grid/Cells.antt =====
-- `CellGrid` of crates/socsim-grid/src/lib.rs: a value for every cell of a lattice, in row-major
-- order. A mutable borrow of a cell is the function that is then applied to its value.
pub mod Laws
use rs_social_simulation_too.Prelude.{
  ℕ, zero, suc, ◌+◌, ◌*◌, ◌/◌, ◌%◌, Bool, ◌&&◌, ltb, if◌then◌else◌,
}
use rs_social_simulation_too.Prelude.{Option, none, some, List, [], ◌∷◌, replicate, get_elem?, set}
use rs_social_simulation_too.Prelude.{length}
use rs_social_simulation_too.Grid.{Grid, Cell, Neighborhood, len, neighbors}

pub record CellGrid (T : Type 0) : Type 0 where
  pub grid : Grid
  pub cells : List T

module _ {T : Type 0} where
  unfoldable pub new : Grid → T → CellGrid T
  new g fill = record { grid = g; cells = replicate (len g) fill }

  -- The loop of `from_fn` over the indices from `i` on. The closure may change a state of its own.
  unfoldable pub fill_cells : {S : Type 0} → (S → ℕ → ℕ → T × S) → ℕ → ℕ → ℕ → S → List T × S
  fill_cells f cols i zero s = ([], s)
  fill_cells f cols i (suc n) s =
      let (v, s') = f s (i / cols) (i % cols) in
      let (vs, last) = fill_cells f cols (i + 1) n s' in (v ∷ vs, last)

  unfoldable pub from_fn : {S : Type 0} → Grid → (S → ℕ → ℕ → T × S) → S → CellGrid T × S
  unfolding fill_cells
  from_fn g f s =
      let (cells, last) = fill_cells f g.cols 0 (len g) s in
      (record { grid = g; cells = cells }, last)

  abbrev pub index : CellGrid T → ℕ → ℕ → ℕ
  index x r c = r * x.grid.cols + c

  abbrev pub is_inside : CellGrid T → ℕ → ℕ → Bool
  is_inside x r c = ltb r x.grid.rows && ltb c x.grid.cols

  unfoldable pub get : CellGrid T → ℕ → ℕ → Option T
  get x r c = if is_inside x r c then get_elem? x.cells (index x r c) else none

  abbrev pub get_idx : CellGrid T → ℕ → Option T
  get_idx x i = get_elem? x.cells i

  abbrev pub written : CellGrid T → ℕ → (T → T) → Option T → CellGrid T
  written x i f none = x
  written x i f (some v) = record x { cells = set x.cells i (f v) }

  -- What a caller does through `get_idx_mut` and `get_mut`; where they give `None`, nothing.
  abbrev pub modify_idx : CellGrid T → ℕ → (T → T) → CellGrid T
  modify_idx x i f = written x i f (get_idx x i)

  unfoldable pub modify : CellGrid T → ℕ → ℕ → (T → T) → CellGrid T
  modify x r c f = if is_inside x r c then modify_idx x (index x r c) f else x

  abbrev pub add_value : Option T → List T → List T
  add_value none vs = vs
  add_value (some v) vs = v ∷ vs

  -- The `filter_map` over the neighbours.
  unfoldable pub values_at : CellGrid T → List Cell → List T
  unfolding get
  values_at x [] = []
  values_at x (p ∷ ps) = add_value (get x p.0 p.1) (values_at x ps)

  unfoldable pub neighbor_values : CellGrid T → ℕ → ℕ → Neighborhood → List T
  unfolding values_at neighbors
  neighbor_values x r c nbhd = values_at x (neighbors x.grid (r, c) nbhd)
