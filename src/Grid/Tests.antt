-- ===== src/Grid/Tests.antt =====
-- Runs of the lattice and its index on small inputs, and the theorems about them at such inputs.
use rs_social_simulation_too.Prelude.{ℕ, suc, ◌+◌, ◌≡◌, refl, ◌↔◌, arith}
use rs_social_simulation_too.Prelude.{true, false, ltb, none, some, [], ◌∷◌, ◌∈◌, ◌*◌}
use rs_social_simulation_too.Prelude.Sort.{IsStrictlySorted, sort, dedup}
use rs_social_simulation_too.Prelude.Sort.Numbers.{pair_ord}
use rs_social_simulation_too.Prelude.BTree.{lookup, insert}
use rs_social_simulation_too.Grid.{Grid, fixed, toroidal, moore, von_neumann, manhattan}
use rs_social_simulation_too.Grid.{neighbors_radius, neighbors, wrap, resolve, in_shape}
use rs_social_simulation_too.Grid.Neighbors.{InGrid, neighbors_radius-IsStrictlySorted}
use rs_social_simulation_too.Grid.Distance.{IsNear, mem-neighbors_radius, neighbors_radius_sym}
use rs_social_simulation_too.Prelude.{map}
use rs_social_simulation_too.Grid.Adjacency.{adjacency_radius, neighbors_at, size}
use rs_social_simulation_too.Grid.Adjacency.Rows.{neighbors_at-adjacency_radius}
use rs_social_simulation_too.Grid.Measure.{Floats}
use rs_social_simulation_too.Grid.Index.{GridIndex, ok, new, place, move_to, occupant, position}
use rs_social_simulation_too.Grid.Index.{vacant_cells}
use rs_social_simulation_too.Grid.Index.Invariant.{IsValid}
use rs_social_simulation_too.Grid.Index.Place.{Places, place-Places}
use rs_social_simulation_too.Grid.Index.Move.{Moves, move_to-Moves}
use rs_social_simulation_too.Grid.Index.Exact.{After, place-move_to-IsValid}
use rs_social_simulation_too.Grid.Index.Agreement.{Reach, start, placing, Reach-IsExact}
use rs_social_simulation_too.Grid.Index.Agreement.{position_iff_occupant, place_twice-move_to}
use rs_social_simulation_too.Grid.Index.Vacancy.{mem-vacant_cells}
use rs_social_simulation_too.Grid.Index.Nearest.{Finds, nearest_vacant, nearest_vacant-Finds}
use rs_social_simulation_too.Prelude.{◌&&◌, if◌then◌else◌}
use rs_social_simulation_too.Prelude.Sort.Numbers.{pair_eq}
use rs_social_simulation_too.Grid.Iterator
use rs_social_simulation_too.Grid.Iterator.Equivalence.{Yields, neighbors_iter-neighbors}
use rs_social_simulation_too.Grid.Cells.{CellGrid, from_fn, get, modify}
use rs_social_simulation_too.Grid.Cells.Laws.{IsFull, state_after, applied, get-from_fn, get-modify}

abbrev torus : Grid
torus = record { rows = 4; cols = 3; boundary = toroidal }

abbrev board : Grid
board = record { rows = 2; cols = 2; boundary = fixed }

corner : neighbors torus (0, 0) von_neumann ≡ (0, 1) ∷ (0, 2) ∷ (1, 0) ∷ (3, 0) ∷ []
unfolding neighbors wrap resolve sort dedup in_shape
corner = refl

mem-neighbors_radius_example :
    ((3, 2) ∈ neighbors_radius torus (0, 0) moore 1) ↔ IsNear torus (0, 0) moore 1 (3, 2)
mem-neighbors_radius_example = mem-neighbors_radius torus (0, 0) moore 1 (3, 2) (omega arith)

listed_on_torus : (3, 2) ∈ neighbors_radius torus (0, 0) moore 1
listed_on_torus =
    (mem-neighbors_radius torus (0, 0) moore 1 (3, 2) (omega arith)).1
      (omega arith, (λ e. grind arith), omega arith)

neighbors_radius_sym_example : (0, 0) ∈ neighbors_radius torus (3, 2) moore 1
neighbors_radius_sym_example =
    neighbors_radius_sym torus moore 1 (0, 0) (3, 2) (omega arith) (omega arith) listed_on_torus

neighbors_radius-IsStrictlySorted_example :
    IsStrictlySorted pair_ord (neighbors_radius torus (1, 1) von_neumann 2)
neighbors_radius-IsStrictlySorted_example =
    neighbors_radius-IsStrictlySorted torus (1, 1) von_neumann 2

neighbors_at-adjacency_radius_example :
    (size (adjacency_radius torus moore 1) ≡ 4 * 3)
    × (neighbors_at (adjacency_radius torus moore 1) (1 * 3 + 2)
        ≡ some (map (λ q. q.0 * 3 + q.1) (neighbors_radius torus (1, 2) moore 1)))
neighbors_at-adjacency_radius_example =
    neighbors_at-adjacency_radius torus moore 1 1 2 (omega arith) (omega arith)

-- A board of four cells with agent 7 in the upper right one.
abbrev seated : GridIndex
seated = record {
  grid = board;
  cells = none ∷ some 7 ∷ none ∷ none ∷ [];
  positions = (7, (0, 1)) ∷ [];
}

seated_reached : Reach board seated
unfolding place new position lookup insert
seated_reached = placing 7 0 1 ok start refl refl

seated-IsValid : IsValid seated
seated-IsValid = (Reach-IsExact seated_reached).valid

place-Places_example : Places seated 9 1 1 (place seated 9 1 1)
place-Places_example = place-Places seated 9 1 1 seated-IsValid

move_to-Moves_example : Moves seated 7 1 0 (move_to seated 7 1 0)
move_to-Moves_example = move_to-Moves seated 7 1 0 seated-IsValid

place-move_to-IsValid_example :
    After IsValid (place seated 7 1 1) × After IsValid (move_to seated 7 1 1)
place-move_to-IsValid_example = place-move_to-IsValid seated 7 1 1 seated-IsValid

position_iff_occupant_example :
    (position seated 7 ≡ some (0, 1))
    ↔ (InGrid board (0, 1) × (occupant seated 0 1 ≡ some (some 7)))
position_iff_occupant_example = position_iff_occupant board seated 7 (0, 1) seated_reached

at_corner : position seated 7 ≡ some (0, 1)
unfolding position lookup
at_corner = refl

free_cell : occupant seated 1 0 ≡ some none
unfolding occupant
free_cell = refl

place_twice-move_to_example :
    (x' : GridIndex) × (place seated 7 1 0 ≡ some (ok, x'))
    × (move_to x' 7 0 1 ≡ some (ok, x'))
    × (position x' 7 ≡ some (1, 0))
place_twice-move_to_example =
    place_twice-move_to seated 7 (0, 1) (1, 0) seated-IsValid at_corner (omega arith) free_cell

mem-vacant_cells_example :
    ((1, 1) ∈ vacant_cells seated) ↔ (InGrid board (1, 1) × (occupant seated 1 1 ≡ some none))
mem-vacant_cells_example = mem-vacant_cells seated (1, 1) seated-IsValid

ltb_irrefl : (a : ℕ) → Unit {0} → ltb a a ≡ false
ltb_irrefl a _ = ground arith

ltb_trans :
    (a b c : ℕ) → Unit {0} → Unit {0} → Unit {0} → ltb a b ≡ true → ltb b c ≡ true → ltb a c ≡ true
ltb_trans a b c _ _ _ h k = ground arith

not_ltb_trans :
    (a b c : ℕ)
    → Unit {0}
    → Unit {0}
    → Unit {0}
    → ltb a b ≡ false
    → ltb b c ≡ false
    → ltb a c ≡ false
not_ltb_trans a b c _ _ _ h k = ground arith

-- Numbers in place of `f64`, where the root is of no use to the metric below.
abbrev whole : Floats
whole = record {
  Float = ℕ;
  of_usize = λ n. n;
  sqrt = λ n. n;
  lt = ltb;
  IsNumber = λ n. Unit {0};
  of_usize-IsNumber = λ n. tt;
  sqrt-IsNumber = λ n. tt;
  lt_irrefl = ltb_irrefl;
  lt_trans = ltb_trans;
  not_lt_trans = not_ltb_trans;
}

nearest_vacant-Finds_example :
    Finds whole seated (0, 1) manhattan (nearest_vacant whole seated (0, 1) manhattan)
nearest_vacant-Finds_example =
    nearest_vacant-Finds whole seated (0, 1) manhattan seated-IsValid
      (λ on_torus. (omega arith, omega arith))

neighbors_iter-neighbors_example :
    Yields (Iterator.new torus (0, 0) von_neumann) (neighbors torus (0, 0) von_neumann)
neighbors_iter-neighbors_example = neighbors_iter-neighbors torus (0, 0) von_neumann

-- A lattice of numbers: each cell holds how many cells came before it, ten times its row added.
abbrev numbered : CellGrid ℕ × ℕ
numbered = from_fn board (λ s r c. (s + 10 * r, s + 1)) 0

get-from_fn_example :
    IsFull numbered.0
    × (InGrid board (1, 0)
        → get numbered.0 1 0
          ≡ some (state_after (λ s r c. (s + 10 * r, s + 1)) 2 0 (1 * 2 + 0) 0 + 10 * 1))
    × ((ltb 1 2 && ltb 0 2) ≡ false → get numbered.0 1 0 ≡ none)
get-from_fn_example = get-from_fn board (λ s r c. (s + 10 * r, s + 1)) 0 1 0

abbrev filled : CellGrid ℕ
filled = record { grid = board; cells = 4 ∷ 5 ∷ 6 ∷ 7 ∷ [] }

get-modify_example :
    IsFull (modify filled 1 0 suc)
    × (get (modify filled 1 0 suc) 0 1
        ≡ (if pair_eq (1, 0) (0, 1) then applied suc (get filled 1 0) else get filled 0 1))
get-modify_example =
    get-modify filled (1, 0) (0, 1) suc refl (omega arith, omega arith) (omega arith, omega arith)
