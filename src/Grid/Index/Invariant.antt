-- ===== src/Grid/Index/Invariant.antt =====
-- The agreement of the two tables of the index, and how a write to each of them reads back.
use rs_social_simulation_too.Prelude.{ℕ, ◌+◌, ◌*◌, ◌<◌, ◌≡◌, ◌≢◌, ap, ◌∙◌, arith}
use rs_social_simulation_too.Prelude.{true, ◌==◌, if◌then◌else◌}
use rs_social_simulation_too.Prelude.{Option, none, some, length, get_elem?, set}
use rs_social_simulation_too.Prelude.{get_elem?-set, get_elem?_total}
use rs_social_simulation_too.Prelude.BTree.{insert, lookup-insert}
use rs_social_simulation_too.Prelude.Sort.Numbers.{pair_eq}
use rs_social_simulation_too.Grid.{Grid, Cell, len}
use rs_social_simulation_too.Grid.Neighbors.{InGrid}
use rs_social_simulation_too.Grid.Index.{GridIndex, AgentId}
use rs_social_simulation_too.Grid.Index.{idx, is_inside, occupant}
use rs_social_simulation_too.Grid.Index.{position}

pub idx-lt : (x : GridIndex) (p : Cell) → InGrid x.grid p → idx x p.0 p.1 < len x.grid
idx-lt x p h = grind arith

idx-lt-idx :
    (x : GridIndex) (p q : Cell) → p.1 < x.grid.cols → p.0 < q.0 → idx x p.0 p.1 < idx x q.0 q.1
idx-lt-idx x p q h l = grind arith

-- Distinct cells of the lattice have distinct indices.
pub idx_eq :
    (x : GridIndex) (p q : Cell)
    → InGrid x.grid p
    → InGrid x.grid q
    → (idx x p.0 p.1 == idx x q.0 q.1) ≡ pair_eq q p
idx_eq x p q h k = ground (arith, idx-lt-idx x p q, idx-lt-idx x q p)

pub is_inside_of : (x : GridIndex) (p : Cell) → InGrid x.grid p → is_inside x p.0 p.1 ≡ true
is_inside_of x p h = ground arith

-- Each agent's recorded position is a cell of the lattice that holds the agent.
pub record IsValid (x : GridIndex) : Type 0 where
  pub sized : length x.cells ≡ len x.grid
  pub placed :
      (id : AgentId) (p : Cell)
      → position x id ≡ some p
      → InGrid x.grid p × (occupant x p.0 p.1 ≡ some (some id))

-- And no cell holds an agent whose recorded position is another.
pub record IsExact (x : GridIndex) : Type 0 where
  pub valid : IsValid x
  pub seated :
      (id : AgentId) (p : Cell)
      → InGrid x.grid p
      → occupant x p.0 p.1 ≡ some (some id)
      → position x id ≡ some p

-- `x'` is `x` with the agent at `p`, and nothing else changed.
pub record Placed (x : GridIndex) (id : AgentId) (p : Cell) (x' : GridIndex) : Type 0 where
  pub grid : x'.grid ≡ x.grid
  pub sized : length x'.cells ≡ length x.cells
  pub at_agent : (j : AgentId) → position x' j ≡ (if j == id then some p else position x j)
  pub at_cell :
      (q : Cell)
      → InGrid x.grid q
      → occupant x' q.0 q.1 ≡ (if pair_eq q p then some (some id) else occupant x q.0 q.1)

-- `x'` is `x` with the agent moved from `old` to `p`, and nothing else changed.
pub record Moved (x : GridIndex) (id : AgentId) (old p : Cell) (x' : GridIndex) : Type 0 where
  pub grid : x'.grid ≡ x.grid
  pub sized : length x'.cells ≡ length x.cells
  pub at_agent : (j : AgentId) → position x' j ≡ (if j == id then some p else position x j)
  pub at_cell :
      (q : Cell)
      → InGrid x.grid q
      → occupant x' q.0 q.1 ≡ (
          if pair_eq q p
          then some (some id)
          else if pair_eq q old
          then some none
          else occupant x q.0 q.1)

pub occupant_inside :
    (x : GridIndex) (p : Cell)
    → InGrid x.grid p
    → occupant x p.0 p.1 ≡ get_elem? x.cells (idx x p.0 p.1)
unfolding occupant
occupant_inside x p h = rw (is_inside_of x p h)

pub InGrid-of : (x : GridIndex) (r c : ℕ) → is_inside x r c ≡ true → InGrid x.grid (r, c)
InGrid-of x r c e = ground arith

-- A cell of the lattice has an entry in a table of the right size.
pub occupant_total :
    (x : GridIndex) (p : Cell)
    → length x.cells ≡ len x.grid
    → InGrid x.grid p
    → get_elem? x.cells (idx x p.0 p.1) ≢ none
occupant_total x p sized h e =
    let (o, found) = get_elem?_total x.cells (idx x p.0 p.1) (rw sized (idx-lt x p h)) in cc

-- Writing one cell of the table.
pub occupant-set :
    (x x' : GridIndex) (p : Cell) (o : Option AgentId)
    → x'.grid ≡ x.grid
    → x'.cells ≡ set x.cells (idx x p.0 p.1) o
    → length x.cells ≡ len x.grid
    → InGrid x.grid p
    → (q : Cell) → InGrid x.grid q
    → occupant x' q.0 q.1 ≡ (if pair_eq q p then some o else occupant x q.0 q.1)
occupant-set x x' p o eg ec sized h q k =
    let k' : InGrid x'.grid q = rw eg k in
    let i : idx x' q.0 q.1 ≡ idx x q.0 q.1 = ap (λ (g : Grid). q.0 * g.cols + q.1) eg in
    occupant_inside x' q k'
    ∙ rw (
      ec,
      i,
      get_elem?-set x.cells (idx x p.0 p.1) (idx x q.0 q.1) o (rw sized (idx-lt x p h)),
      idx_eq x p q h k,
      occupant_inside x q k,
    )

pub position-insert :
    (x x' : GridIndex) (id : AgentId) (p : Cell)
    → x'.positions ≡ insert id p x.positions
    → (j : AgentId) → position x' j ≡ (if j == id then some p else position x j)
unfolding position
position-insert x x' id p e j = rw e (lookup-insert id j p x.positions)
