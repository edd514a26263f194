-- ===== src/Grid/Index/Place.antt =====
-- What `GridIndex::place` does on each branch.
use rs_social_simulation_too.Prelude.{ℕ, ◌≡◌, refl, ◌∙◌}
use rs_social_simulation_too.Prelude.{false, Bool-cases}
use rs_social_simulation_too.Prelude.{Option, none, some, length, get_elem?, inl, inr}
use rs_social_simulation_too.Prelude.{length-set}
use rs_social_simulation_too.Grid.{len}
use rs_social_simulation_too.Grid.Neighbors.{InGrid}
use rs_social_simulation_too.Grid.Index.{GridIndex, AgentId, Reply, ok, err, cell_occupied}
use rs_social_simulation_too.Grid.Index.{idx, is_inside, outside, place, occupant}
use rs_social_simulation_too.Grid.Index.{place_on}
use rs_social_simulation_too.Grid.Index.Invariant.{IsValid, Placed, occupant_inside, InGrid-of}
use rs_social_simulation_too.Grid.Index.Invariant.{occupant_total, occupant-set, position-insert}

-- The outcomes of `place`.
pub data Places (x : GridIndex) (id : AgentId) (r c : ℕ) : Option (Reply × GridIndex) → Type 0 where
  off_grid : is_inside x r c ≡ false → Places x id r c (some (err (outside x r c), x))
  taken :
      (j : AgentId)
      → InGrid x.grid (r, c)
      → occupant x r c ≡ some (some j)
      → Places x id r c (some (err (cell_occupied r c j), x))
  done :
      (x' : GridIndex)
      → InGrid x.grid (r, c)
      → occupant x r c ≡ some none
      → Placed x id (r, c) x'
      → Places x id r c (some (ok, x'))

place_on-Places :
    (x : GridIndex) (id : AgentId) (r c : ℕ) (o : Option (Option AgentId))
    → get_elem? x.cells (idx x r c) ≡ o
    → length x.cells ≡ len x.grid
    → InGrid x.grid (r, c)
    → Places x id r c (place_on x id r c o)
place_on-Places x id r c none e sized h = absurd (occupant_total x (r, c) sized h e)
place_on-Places x id r c (some (some j)) e sized h = taken j h (occupant_inside x (r, c) h ∙ e)
place_on-Places x id r c (some none) e sized h = done _ h (occupant_inside x (r, c) h ∙ e) (record {
  grid = refl;
  sized = length-set x.cells (idx x r c) (some id);
  at_agent = position-insert x _ id (r, c) refl;
  at_cell = occupant-set x _ (r, c) (some id) refl refl sized h;
})

-- On a valid index `place` never panics: it refuses a cell off the lattice, then a cell that holds
-- an agent, and leaves the index as it was; else it puts the agent there and changes nothing else.
pub place-Places :
    (x : GridIndex) (id : AgentId) (r c : ℕ) → IsValid x → Places x id r c (place x id r c)
unfolding place
place-Places x id r c v = elim (Bool-cases (is_inside x r c)) [
  | inl e ↦
      rw e
        (place_on-Places x id r c (get_elem? x.cells (idx x r c)) refl v.sized (InGrid-of x r c e))
  | inr e ↦ rw e (off_grid e)
]
