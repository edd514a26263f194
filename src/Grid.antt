-- ===== src/Grid.antt =====
-- The lattice of crates/socsim-grid/src/lib.rs: its geometry. `usize` and `isize` are unbounded
-- here, so the model is the code's for radii and coordinates below 2 ^ 62, where no sum overflows,
-- on lattices of fewer than 2 ^ 64 cells, where no index does.
mod Axis
pub mod Neighbors
pub mod Distance
pub mod Adjacency
pub mod Index
pub mod Cells
pub mod Iterator
pub mod Measure
mod Tests
use rs_social_simulation_too.Prelude.{ℕ, ◌+◌, ◌*◌, Bool, true, false, ◌&&◌, ◌||◌, not, ltb, leb}
use rs_social_simulation_too.Prelude.{◌==◌, if◌then◌else◌, Option, none, some, List, [], ◌∷◌}
use rs_social_simulation_too.Prelude.{◌++◌, map, range, max, min, ◌-◌, ◌^◌}
use rs_social_simulation_too.Prelude.Int.{ℤ, pos, ◌+ℤ◌, sub_ℕ, unsigned_abs, is_nonneg}
use rs_social_simulation_too.Prelude.Int.{to_usize, rem}
use rs_social_simulation_too.Prelude.Sort.{sort, dedup}
use rs_social_simulation_too.Prelude.Sort.Numbers.{pair_ord, pair_eq}

pub data Neighborhood : Type 0 where
  moore von_neumann : Neighborhood

pub data Boundary : Type 0 where
  fixed toroidal : Boundary

pub data Metric : Type 0 where
  chebyshev manhattan euclidean : Metric

abbrev pub Cell : Type 0
Cell = ℕ × ℕ

pub record Grid : Type 0 where
  pub rows : ℕ
  pub cols : ℕ
  pub boundary : Boundary

abbrev pub len : Grid → ℕ
len g = g.rows * g.cols

abbrev pub is_empty : Grid → Bool
is_empty g = g.rows == 0 || g.cols == 0

abbrev pub in_bounds : Grid → ℤ → ℤ → Bool
in_bounds g r c = is_nonneg r && is_nonneg c && ltb (to_usize r) g.rows && ltb (to_usize c) g.cols

unfoldable pub wrap : ℤ → ℕ → ℕ
wrap v n = to_usize (rem (rem v n +ℤ pos n) n)

unfoldable pub resolve_at : Boundary → Grid → ℤ → ℤ → Option Cell
resolve_at fixed g r c = if in_bounds g r c then some (to_usize r, to_usize c) else none
resolve_at toroidal g r c = some (wrap r g.rows, wrap c g.cols)

unfoldable pub resolve : Grid → ℤ → ℤ → Option Cell
unfolding resolve_at
resolve g r c = if is_empty g then none else resolve_at g.boundary g r c

-- The range `-radius..=radius`.
unfoldable pub offsets : ℕ → List ℤ
offsets radius = map (λ k. sub_ℕ k radius) (range (2 * radius + 1))

abbrev pub is_center : ℤ → ℤ → Bool
is_center dr dc = unsigned_abs dr == 0 && unsigned_abs dc == 0

unfoldable pub in_shape : Neighborhood → ℕ → ℤ → ℤ → Bool
in_shape moore radius dr dc = leb (max (unsigned_abs dr) (unsigned_abs dc)) radius
in_shape von_neumann radius dr dc = leb (unsigned_abs dr + unsigned_abs dc) radius

module _ (g : Grid) (p : Cell) (nbhd : Neighborhood) (radius : ℕ) where
  unfoldable pub push_cell : Option Cell → List Cell → List Cell
  push_cell none out = out
  push_cell (some cell) out = if pair_eq cell p then out else out ++ (cell ∷ [])

  -- One round of the two nested loops: the centre and offsets out of shape are skipped.
  unfoldable pub visit : ℤ → ℤ → List Cell → List Cell
  unfolding push_cell
  visit dr dc out =
      if is_center dr dc
      then out
      else if not (in_shape nbhd radius dr dc)
      then out
      else push_cell (resolve g (pos p.0 +ℤ dr) (pos p.1 +ℤ dc)) out

  unfoldable pub scan_cols : ℤ → List ℤ → List Cell → List Cell
  unfolding visit
  scan_cols dr [] out = out
  scan_cols dr (dc ∷ dcs) out = scan_cols dr dcs (visit dr dc out)

  unfoldable pub scan_rows : List ℤ → List ℤ → List Cell → List Cell
  unfolding scan_cols
  scan_rows [] cs out = out
  scan_rows (dr ∷ drs) cs out = scan_rows drs cs (scan_cols dr cs out)

  -- `neighbors_radius_into` on the cleared buffer, and `neighbors_radius`.
  unfoldable pub neighbors_radius : List Cell
  unfolding scan_rows offsets
  neighbors_radius =
      if radius == 0 || is_empty g
      then []
      else dedup pair_ord (sort pair_ord (scan_rows (offsets radius) (offsets radius) []))

unfoldable pub neighbors : Grid → Cell → Neighborhood → List Cell
unfolding neighbors_radius
neighbors g p nbhd = neighbors_radius g p nbhd 1

abbrev pub abs_diff : ℕ → ℕ → ℕ
abs_diff a b = if leb a b then b - a else a - b

-- `a - b` of `usize` numbers, which wraps where overflow is not checked.
abbrev pub wrapping_sub : ℕ → ℕ → ℕ
wrapping_sub a b = if leb b a then a - b else 2 ^ 64 + a - b

-- The shortest separation on an axis that wraps round.
abbrev pub toroidal_diff : ℕ → ℕ → ℕ → ℕ
toroidal_diff a b n = if n == 0 then 0 else min (abs_diff a b) (wrapping_sub n (abs_diff a b))

-- The separations on the two axes that `Grid::distance` hands to `Metric::combine`.
abbrev pub separation : Boundary → ℕ → ℕ → ℕ → ℕ
separation fixed a b n = abs_diff a b
separation toroidal a b n = toroidal_diff a b n
