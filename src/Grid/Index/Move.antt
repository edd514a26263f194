-- ===== src/Grid/Index/Move.antt =====
-- What `GridIndex::move_to` does on each branch.
use rs_social_simulation_too.Prelude.{ℕ, ◌≡◌, ◌≢◌, refl, ap, ◌∙◌}
use rs_social_simulation_too.Prelude.{false, ◌==◌, if◌then◌else◌, Bool-cases, ==→≡, ==→≢}
use rs_social_simulation_too.Prelude.{Option, none, some, length, get_elem?, set, inl, inr}
use rs_social_simulation_too.Prelude.{length-set, get_elem?_total}
use rs_social_simulation_too.Prelude.Sort.Numbers.{pair_eq}
use rs_social_simulation_too.Grid.{Cell, len}
use rs_social_simulation_too.Grid.Neighbors.{InGrid}
use rs_social_simulation_too.Grid.Index.{GridIndex, AgentId, Reply, ok, err, cell_occupied}
use rs_social_simulation_too.Grid.Index.{unknown_agent, idx, is_inside, outside, occupant}
use rs_social_simulation_too.Grid.Index.{position, move_to, relocate}
use rs_social_simulation_too.Grid.Index.Invariant.{IsValid, Moved, occupant_inside, InGrid-of}
use rs_social_simulation_too.Grid.Index.Invariant.{occupant_total, occupant-set, position-insert}
use rs_social_simulation_too.Grid.Index.Invariant.{idx-lt}

-- The outcomes of `move_to`.
pub data Moves (x : GridIndex) (id : AgentId) (r c : ℕ) : Option (Reply × GridIndex) → Type 0 where
  unknown : position x id ≡ none → Moves x id r c (some (err (unknown_agent id), x))
  off_grid :
      (old : Cell)
      → position x id ≡ some old
      → is_inside x r c ≡ false
      → Moves x id r c (some (err (outside x r c), x))
  taken :
      (old : Cell) (j : AgentId)
      → position x id ≡ some old
      → InGrid x.grid (r, c)
      → occupant x r c ≡ some (some j)
      → j ≢ id
      → Moves x id r c (some (err (cell_occupied r c j), x))
  stays :
      (old : Cell)
      → position x id ≡ some old
      → InGrid x.grid (r, c)
      → occupant x r c ≡ some (some id)
      → Moves x id r c (some (ok, x))
  done :
      (old : Cell) (x' : GridIndex)
      → position x id ≡ some old
      → InGrid x.grid (r, c)
      → occupant x r c ≡ some none
      → Moved x id old (r, c) x'
      → Moves x id r c (some (ok, x'))

-- Two writes: the old cell is vacated and the new one filled.
occupant-set_twice :
    (x x' : GridIndex) (id : AgentId) (old p : Cell)
    → x'.grid ≡ x.grid
    → x'.cells ≡ set (set x.cells (idx x old.0 old.1) none) (idx x p.0 p.1) (some id)
    → length x.cells ≡ len x.grid
    → InGrid x.grid old
    → InGrid x.grid p
    → (q : Cell) → InGrid x.grid q
    → occupant x' q.0 q.1 ≡ (
        if pair_eq q p
        then some (some id)
        else if pair_eq q old
        then some none
        else occupant x q.0 q.1)
occupant-set_twice x x' id old p eg ec sized ho h q k =
    let mid : GridIndex = record x { cells = set x.cells (idx x old.0 old.1) none } in
    occupant-set mid x' p (some id) eg ec (length-set x.cells (idx x old.0 old.1) none ∙ sized) h q
      k
    ∙ rw (occupant-set x mid old none refl refl sized ho q k)

relocate-Moves :
    (x : GridIndex) (id : AgentId) (old : Cell) (r c : ℕ) (o : Option (Option AgentId))
    → position x id ≡ some old
    → get_elem? x.cells (idx x r c) ≡ o
    → length x.cells ≡ len x.grid
    → InGrid x.grid old
    → InGrid x.grid (r, c)
    → Moves x id r c (relocate x id old r c o)
relocate-Moves x id old r c none at e sized ho h = absurd (occupant_total x (r, c) sized h e)
relocate-Moves x id old r c (some (some j)) at e sized ho h = elim (Bool-cases (j == id)) [
  | inl f ↦
      let same : j ≡ id = ==→≡ j id f in
      rw f (stays old at h (occupant_inside x (r, c) h ∙ e ∙ ap (λ (k : ℕ). some (some k)) same))
  | inr f ↦ rw f (taken old j at h (occupant_inside x (r, c) h ∙ e) (==→≢ j id f))
]
relocate-Moves x id old r c (some none) at e sized ho h =
    let (o, found) = get_elem?_total x.cells (idx x old.0 old.1) (rw sized (idx-lt x old ho)) in
    rw (found, relocate)
      (done old _ at h (occupant_inside x (r, c) h ∙ e) (record {
        grid = refl;
        sized =
            length-set (set x.cells (idx x old.0 old.1) none) (idx x r c) (some id)
            ∙ length-set x.cells (idx x old.0 old.1) none;
        at_agent = position-insert x _ id (r, c) refl;
        at_cell = occupant-set_twice x _ id old (r, c) refl refl sized ho h;
      }))

move_of_position :
    (x : GridIndex) (id : AgentId) (r c : ℕ) (o : Option Cell)
    → position x id ≡ o
    → IsValid x
    → Moves x id r c (move_to x id r c)
unfolding move_to position
move_of_position x id r c none e v = rw (e, move_to) (unknown e)
move_of_position x id r c (some old) e v =
    rw (e, move_to)
      (elim (Bool-cases (is_inside x r c)) [
        | inl f ↦ rw f (
            relocate-Moves x id old r c (get_elem? x.cells (idx x r c)) e refl v.sized
              (v.placed id old e).0 (InGrid-of x r c f))
        | inr f ↦ rw f (off_grid old e f)
      ])

-- On a valid index `move_to` never panics: it refuses an agent that is not placed, then a cell off
-- the lattice, then a cell that holds another agent, and leaves the index as it was; onto a cell
-- that holds the agent itself it succeeds and changes nothing; onto a vacant cell it vacates the
-- recorded position, fills the new cell, records it, and changes nothing else.
pub move_to-Moves :
    (x : GridIndex) (id : AgentId) (r c : ℕ) → IsValid x → Moves x id r c (move_to x id r c)
move_to-Moves x id r c v = move_of_position x id r c (position x id) refl v
