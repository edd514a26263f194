-- ===== src/Grid/Adjacency.antt =====
-- The precomputed neighbour table of crates/socsim-grid/src/lib.rs (`Adjacency`), in CSR layout: its
-- construction by `Grid::adjacency_radius` and its lookup. `none` is an index out of range.
pub mod Rows
use rs_social_simulation_too.Prelude.{ℕ, zero, suc, ◌+◌, ◌-◌, ◌*◌, ◌/◌, ◌%◌, Bool, ◌==◌, ltb, leb}
use rs_social_simulation_too.Prelude.{List, [], ◌∷◌, ◌++◌, map, length, get_elem?, slice}
use rs_social_simulation_too.Prelude.{Option, none, some, if◌then◌else◌, ◌&&◌}
use rs_social_simulation_too.Grid.{Grid, Cell, Neighborhood, len, neighbors_radius}

pub record Adjacency : Type 0 where
  pub offsets : List ℕ
  pub flat : List ℕ

-- The row-major position of a cell.
abbrev pub flat_index : Grid → Cell → ℕ
flat_index g p = p.0 * g.cols + p.1

abbrev pub cell_at : Grid → ℕ → Cell
cell_at g i = (i / g.cols, i % g.cols)

module _ (g : Grid) (nbhd : Neighborhood) (radius : ℕ) where
  -- The flat indices that one round of the loop adds for cell `i`.
  abbrev pub row : ℕ → List ℕ
  row i = map (flat_index g) (neighbors_radius g (cell_at g i) nbhd radius)

  -- The loop over the cells, with `left` of them to go from cell `i`.
  pub build : ℕ → ℕ → List ℕ → List ℕ → Adjacency
  build zero i offsets flat = record { offsets = offsets; flat = flat }
  build (suc left) i offsets flat =
      let flat' = flat ++ row i in build left (i + 1) (offsets ++ (length flat' ∷ [])) flat'

  unfoldable pub adjacency_radius : Adjacency
  unfolding build neighbors_radius
  adjacency_radius = build (len g) 0 (0 ∷ []) []

unfoldable pub adjacency : Grid → Neighborhood → Adjacency
unfolding adjacency_radius
adjacency g nbhd = adjacency_radius g nbhd 1

-- `&flat[start..end]`, which panics unless start ≤ end ≤ flat.len().
abbrev slice_at : List ℕ → Option ℕ → Option ℕ → Option (List ℕ)
slice_at flat (some start) (some end) =
    if leb start end && leb end (length flat) then some (slice start end flat) else none
slice_at flat _ _ = none

unfoldable pub neighbors_at : Adjacency → ℕ → Option (List ℕ)
neighbors_at a i = slice_at a.flat (get_elem? a.offsets i) (get_elem? a.offsets (i + 1))

unfoldable pub size : Adjacency → ℕ
size a = length a.offsets - 1
