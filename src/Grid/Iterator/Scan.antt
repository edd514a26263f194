-- ===== src/Grid/Iterator/Scan.antt =====
-- The loops of `NeighborsIter::new` against those of `neighbors_radius`: at most eight cells are added,
-- and the same ones.
use rs_social_simulation_too.Prelude.{ℕ, ◌+◌, ◌≤◌, ◌<◌, ◌≡◌, refl, arith}
use rs_social_simulation_too.Prelude.{false}
use rs_social_simulation_too.Prelude.{Bool-cases, inl, inr}
use rs_social_simulation_too.Prelude.{Option, none, some, List, [], length}
use rs_social_simulation_too.Prelude.Int.{ℤ, pos, negsuc, unsigned_abs}
use rs_social_simulation_too.Prelude.Sort.Numbers.{pair_eq}
use rs_social_simulation_too.Grid
use rs_social_simulation_too.Grid.{
  Grid, Cell, Neighborhood, moore, von_neumann, is_empty, is_center,
}
use rs_social_simulation_too.Grid.{resolve, offsets, neighbors, neighbors_radius, push_cell}
use rs_social_simulation_too.Grid.Iterator.{Buffer8, empty, then_do, push_resolved, in_shape, visit}
use rs_social_simulation_too.Grid.Iterator.{scan_cols, scan_rows, steps}
use rs_social_simulation_too.Grid.Iterator.Buffer.{
  Holds, empty-Holds, Keeps, push-Keeps, same-Keeps,
}
use rs_social_simulation_too.Grid.Iterator.Buffer.{weaken}

module _ (g : Grid) (p : Cell) (nbhd : Neighborhood) where
  push_resolved-Keeps :
      (c : Option Cell) (b : Buffer8) (out : List Cell) (n : ℕ)
      → Holds b out
      → length out ≤ n
      → n < 8
      → Keeps (push_resolved g p nbhd c b) (push_cell g p nbhd 1 c out) (n + 1)
  unfolding push_cell
  push_resolved-Keeps none b out n h l k = weaken (omega arith) (same-Keeps b out n h l)
  push_resolved-Keeps (some c) b out n h l k = elim (Bool-cases (pair_eq c p)) [
    | inl e ↦ rw e (weaken (omega arith) (same-Keeps b out n h l))
    | inr e ↦ rw e (push-Keeps c b out n h l k)
  ]

  -- An offset other than the centre adds one cell at most.
  visit-Keeps :
      (dr dc : ℤ) (o : Option Buffer8) (out : List Cell) (n : ℕ)
      → is_center dr dc ≡ false
      → in_shape nbhd dr dc ≡ Grid.in_shape nbhd 1 dr dc
      → n < 8
      → Keeps o out n
      → Keeps (then_do o (visit g p nbhd dr dc)) (Grid.visit g p nbhd 1 dr dc out) (n + 1)
  unfolding visit Grid.visit
  visit-Keeps dr dc o out n off same k h = elim (Bool-cases (in_shape nbhd dr dc)) [
    | inl e ↦ rw (h.result, off, ← same, e) (push_resolved-Keeps _ h.buffer out n h.holds h.few k)
    | inr e ↦
        rw (h.result, off, ← same, e)
          (weaken (omega arith) (same-Keeps h.buffer out n h.holds h.few))
  ]

  center-Keeps :
      (o : Option Buffer8) (out : List Cell) (n : ℕ)
      → Keeps o out n
      → Keeps
          (then_do o (visit g p nbhd (pos 0) (pos 0)))
          (Grid.visit g p nbhd 1 (pos 0) (pos 0) out)
          n
  unfolding visit Grid.visit
  center-Keeps o out n h = rw h.result (same-Keeps h.buffer out n h.holds h.few)

  same_shape :
      (n : Neighborhood) (dr dc : ℤ)
      → unsigned_abs dr ≤ 1
      → unsigned_abs dc ≤ 1
      → in_shape n dr dc ≡ Grid.in_shape n 1 dr dc
  unfolding Grid.in_shape
  same_shape moore dr dc h k = ground arith
  same_shape von_neumann dr dc h k = refl

  -- After the loops the array holds what the loops of `neighbors` list, in the order of visiting.
  pub scan-Keeps :
      Keeps
        (scan_rows g p nbhd steps steps (some empty))
        (Grid.scan_rows g p nbhd 1 steps steps [])
        8
  unfolding scan_rows scan_cols Grid.scan_rows Grid.scan_cols
  scan-Keeps =
      let go : (dr dc : ℤ) (o : Option Buffer8) (out : List Cell) (n : ℕ)
          → is_center dr dc ≡ false
          → unsigned_abs dr ≤ 1
          → unsigned_abs dc ≤ 1
          → n < 8
          → Keeps o out n
          → Keeps (then_do o (visit g p nbhd dr dc)) (Grid.visit g p nbhd 1 dr dc out) (n + 1) =
        λ dr dc o out n off a b k h.
          visit-Keeps dr dc o out n off (same_shape nbhd dr dc a b) k h in
      let a1 =
        go (negsuc 0) (negsuc 0) _ _ 0 refl (omega arith) (omega arith) (omega arith)
          (same-Keeps empty [] 0 empty-Holds (omega arith)) in
      let a2 = go (negsuc 0) (pos 0) _ _ 1 refl (omega arith) (omega arith) (omega arith) a1 in
      let a3 = go (negsuc 0) (pos 1) _ _ 2 refl (omega arith) (omega arith) (omega arith) a2 in
      let b1 = go (pos 0) (negsuc 0) _ _ 3 refl (omega arith) (omega arith) (omega arith) a3 in
      let b2 = center-Keeps _ _ 4 b1 in
      let b3 = go (pos 0) (pos 1) _ _ 4 refl (omega arith) (omega arith) (omega arith) b2 in
      let c1 = go (pos 1) (negsuc 0) _ _ 5 refl (omega arith) (omega arith) (omega arith) b3 in
      let c2 = go (pos 1) (pos 0) _ _ 6 refl (omega arith) (omega arith) (omega arith) c1 in
      go (pos 1) (pos 1) _ _ 7 refl (omega arith) (omega arith) (omega arith) c2
