-- ===== src/Grid/Index/Agreement.antt =====
-- Under the documented use of the index, where `place` seats an agent that has no position and
-- `move_to` relocates one that has, its two tables are inverse to each other in every state.
use rs_social_simulation_too.Prelude.{ℕ, ◌≡◌, refl, sym, ◌∙◌, arith, false}
use rs_social_simulation_too.Prelude.{Option, none, some, ◌↔◌}
use rs_social_simulation_too.Prelude.{length-replicate, get_elem?-replicate, ==_refl, subst}
use rs_social_simulation_too.Prelude.BTree.{lookup}
use rs_social_simulation_too.Grid.{Grid, Cell, len}
use rs_social_simulation_too.Grid.Neighbors.{InGrid}
use rs_social_simulation_too.Grid.Index.{GridIndex, AgentId, Reply, ok, new, place, occupant}
use rs_social_simulation_too.Grid.Index.{position, move_to, idx, is_inside}
use rs_social_simulation_too.Grid.Index.Invariant.{IsValid, IsExact, Placed, occupant_inside}
use rs_social_simulation_too.Grid.Index.Invariant.{idx-lt, is_inside_of}
use rs_social_simulation_too.Grid.Index.Place.{Places, place-Places}
use rs_social_simulation_too.Grid.Index.Move.{Moves, move_to-Moves}
use rs_social_simulation_too.Grid.Index.Exact.{After, some_inj, Placed-IsValid, Placed-IsExact}
use rs_social_simulation_too.Grid.Index.Exact.{Moved-IsExact, cells_differ, some-ne-none}

place-IsExact :
    (x : GridIndex) (id : AgentId) (r c : ℕ) (o : Option (Reply × GridIndex))
    → position x id ≡ none
    → IsExact x
    → Places x id r c o
    → After IsExact o
place-IsExact x id r c _ fresh v (Places.off_grid _) = v
place-IsExact x id r c _ fresh v (Places.taken j _ _) = v
place-IsExact x id r c _ fresh v (Places.done x' h vacant m) =
    Placed-IsExact x id (r, c) x' h fresh vacant v m

move_to-IsExact :
    (x : GridIndex) (id : AgentId) (r c : ℕ) (o : Option (Reply × GridIndex))
    → IsExact x
    → Moves x id r c o
    → After IsExact o
move_to-IsExact x id r c _ v (Moves.unknown _) = v
move_to-IsExact x id r c _ v (Moves.off_grid old _ _) = v
move_to-IsExact x id r c _ v (Moves.taken old j _ _ _ _) = v
move_to-IsExact x id r c _ v (Moves.stays old _ _ _) = v
move_to-IsExact x id r c _ v (Moves.done old x' from h vacant m) =
    Moved-IsExact x id (r, c) x' h old from vacant v m

new_vacant : (g : Grid) (p : Cell) → InGrid g p → occupant (new g) p.0 p.1 ≡ some none
unfolding new
new_vacant g p h =
    occupant_inside (new g) p h
    ∙ get_elem?-replicate (len g) (idx (new g) p.0 p.1) none
    ∙ ground (arith, idx-lt (new g) p h)

new-IsExact : (g : Grid) → IsExact (new g)
unfolding new position lookup
new-IsExact g = record {
  valid = record { sized = length-replicate (len g) none; placed = λ id p at. absurd (empty at) };
  seated = λ id p h at. absurd (clash (sym (new_vacant g p h) ∙ at));
}
  where
    empty : {p : Cell} → none ≡ some p → ⊥
    empty e = cc

    clash : {j : AgentId} → some none ≡ some (some j) → ⊥
    clash e = cc

-- The states that the documented use reaches from an empty index: any number of calls, refused
-- ones included.
pub data Reach (g : Grid) : GridIndex → Type 0 where
  start : Reach g (new g)
  placing :
      {x x' : GridIndex}
      → (id : AgentId) (r c : ℕ) (reply : Reply) → Reach g x
      → position x id ≡ none
      → place x id r c ≡ some (reply, x')
      → Reach g x'
  moving :
      {x x' : GridIndex}
      → (id : AgentId) (r c : ℕ) (reply : Reply) → Reach g x
      → move_to x id r c ≡ some (reply, x')
      → Reach g x'

pub Reach-IsExact : {g : Grid} {x : GridIndex} → Reach g x → IsExact x
Reach-IsExact start = new-IsExact _
Reach-IsExact (placing {x} id r c reply s fresh e) =
    let v = Reach-IsExact s in
    subst (After IsExact) e
      (place-IsExact x id r c (place x id r c) fresh v (place-Places x id r c v.valid))
Reach-IsExact (moving {x} id r c reply s e) =
    let v = Reach-IsExact s in
    subst (After IsExact) e
      (move_to-IsExact x id r c (move_to x id r c) v (move_to-Moves x id r c v.valid))

-- In every state that the documented use reaches, the two tables are inverse to each other: an
-- agent's recorded position is a cell exactly if that cell lies on the lattice and holds the agent.
pub position_iff_occupant :
    (g : Grid) (x : GridIndex) (id : AgentId) (p : Cell)
    → Reach g x
    → (position x id ≡ some p) ↔ (InGrid x.grid p × (occupant x p.0 p.1 ≡ some (some id)))
position_iff_occupant g x id p s =
    let v = Reach-IsExact s in (v.valid.placed id p, λ h. v.seated id p h.0 h.1)

module _ (x : GridIndex) (id : AgentId) (r c : ℕ) (h : InGrid x.grid (r, c)) where
  vacant-Placed :
      (o : Option (Reply × GridIndex))
      → occupant x r c ≡ some none
      → Places x id r c o
      → (x' : GridIndex) × (o ≡ some (ok, x')) × Placed x id (r, c) x'
  vacant-Placed _ vacant (Places.off_grid out) = absurd (inside_clash out)
    where
      inside_clash : is_inside x r c ≡ false → ⊥
      inside_clash e = let i = is_inside_of x (r, c) h in cc
  vacant-Placed _ vacant (Places.taken j k e) = absurd (full_clash (sym vacant ∙ e))
    where
      full_clash : some none ≡ some (some j) → ⊥
      full_clash e = cc
  vacant-Placed _ vacant (Places.done x' k e m) = (x', refl, m)

  moved_onto_self :
      (o : Option (Reply × GridIndex)) (old : Cell)
      → position x id ≡ some old
      → occupant x r c ≡ some (some id)
      → Moves x id r c o
      → o ≡ some (ok, x)
  moved_onto_self _ old at own (Moves.unknown e) = absurd (lost_clash (sym e ∙ at))
    where
      lost_clash : none ≡ some old → ⊥
      lost_clash e = cc
  moved_onto_self _ old at own (Moves.off_grid _ _ out) = absurd (inside_clash out)
    where
      inside_clash : is_inside x r c ≡ false → ⊥
      inside_clash e = let i = is_inside_of x (r, c) h in cc
  moved_onto_self _ old at own (Moves.taken _ j _ _ e ne) =
      absurd (ne (some_inj (some_inj (sym e ∙ own))))
  moved_onto_self _ old at own (Moves.stays _ _ _ _) = refl
  moved_onto_self _ old at own (Moves.done _ x' _ _ e m) = absurd (full_clash (sym e ∙ own))
    where
      full_clash : some none ≡ some (some id) → ⊥
      full_clash e = cc

-- Outside the documented use: placing an agent a second time leaves it in its old cell too, and a
-- later `move_to` back to that cell replies `ok`, although the recorded position stays the new one.
pub place_twice-move_to :
    (x : GridIndex) (id : AgentId) (p q : Cell)
    → IsValid x
    → position x id ≡ some p
    → InGrid x.grid q
    → occupant x q.0 q.1 ≡ some none
    → (x' : GridIndex) × (place x id q.0 q.1 ≡ some (ok, x'))
      × (move_to x' id p.0 p.1 ≡ some (ok, x'))
      × (position x' id ≡ some q)
place_twice-move_to x id p q v at h vacant =
    let (x', reply, m) =
      vacant-Placed x id q.0 q.1 h (place x id q.0 q.1) vacant (place-Places x id q.0 q.1 v) in
    let v' = Placed-IsValid x id q x' h vacant v m in
    let home = v.placed id p at in
    let there : position x' id ≡ some q = rw (m.at_agent id, ==_refl id) in
    let ghost : occupant x' p.0 p.1 ≡ some (some id) =
      m.at_cell p home.0
      ∙ rw (cells_differ x q p none (some id) vacant home.1 some-ne-none) home.1 in
    let inside' : InGrid x'.grid p = subst (λ g. InGrid g p) (sym m.grid) home.0 in
    (
      x',
      reply,
      moved_onto_self x' id p.0 p.1 inside' (move_to x' id p.0 p.1) q there ghost
          (move_to-Moves x' id p.0 p.1 v'),
      there,
    )
