-- ===== src/Grid/Distance.antt =====
-- The neighbourhood of a cell is a ball of the lattice's own distance: the offsets that
-- `neighbors_radius` tries reach exactly the cells that `Grid::distance` finds near enough.
use rs_social_simulation_too.Prelude.{ℕ, zero, suc, ◌≤◌, ◌<◌, ◌≡◌, ◌≢◌, sym}
use rs_social_simulation_too.Prelude.{◌↔◌, inl, inr, true, false, arith}
use rs_social_simulation_too.Prelude.{Bool-cases, some}
use rs_social_simulation_too.Prelude.{◌∈◌}
use rs_social_simulation_too.Prelude.Int.{ℤ, pos, negsuc, ◌+ℤ◌, unsigned_abs}
use rs_social_simulation_too.Prelude.Sort.Numbers.{pair_eq, pair_eq_sound, pair_eq_refl}
use rs_social_simulation_too.Grid.{Grid, Cell, Neighborhood, moore, von_neumann, fixed, toroidal}
use rs_social_simulation_too.Grid.{
  Boundary, is_empty, resolve, resolve_at, in_shape, is_center, offsets,
}
use rs_social_simulation_too.Grid.{neighbors_radius, separation}
use rs_social_simulation_too.Grid.Axis.{Reaches, Reaches-lt, separation-le, separation_reached}
use rs_social_simulation_too.Grid.Neighbors.{InGrid, combined, spread, mem-offsets, Hit}
use rs_social_simulation_too.Grid.Neighbors.{mem-neighbors_radius_iff_Hit}

not-is_empty : (g : Grid) (p : Cell) → InGrid g p → is_empty g ≡ false
not-is_empty g p h = ground arith

abbrev pub Moves : Grid → Cell → ℤ → ℤ → Cell → Type 0
Moves g p dr dc a = Reaches g.boundary p.0 dr a.0 g.rows × Reaches g.boundary p.1 dc a.1 g.cols

resolve_fixed :
    (g : Grid) (x y : ℤ) (a : Cell)
    → (resolve_at fixed g x y ≡ some a)
      ↔ (((x ≡ pos a.0) × (a.0 < g.rows)) × ((y ≡ pos a.1) × (a.1 < g.cols)))
unfolding resolve_at
resolve_fixed g (pos x) (pos y) (a, b) = (ground arith, ground arith)
resolve_fixed g (pos x) (negsuc y) (a, b) = (ground arith, ground arith)
resolve_fixed g (negsuc x) (pos y) (a, b) = (ground arith, ground arith)
resolve_fixed g (negsuc x) (negsuc y) (a, b) = (ground arith, ground arith)

resolve_at_iff :
    (k : Boundary) (g : Grid) (p : Cell) (dr dc : ℤ) (a : Cell)
    → (resolve_at k g (pos p.0 +ℤ dr) (pos p.1 +ℤ dc) ≡ some a)
      ↔ (Reaches k p.0 dr a.0 g.rows × Reaches k p.1 dc a.1 g.cols)
unfolding Reaches resolve_at
resolve_at_iff fixed g p dr dc a = resolve_fixed g (pos p.0 +ℤ dr) (pos p.1 +ℤ dc) a
resolve_at_iff toroidal g p dr dc (a, b) = (ground arith, ground arith)

pub resolve_iff :
    (g : Grid) (p : Cell) (dr dc : ℤ) (a : Cell)
    → InGrid g p
    → (resolve g (pos p.0 +ℤ dr) (pos p.1 +ℤ dc) ≡ some a) ↔ Moves g p dr dc a
unfolding resolve
resolve_iff g p dr dc a h = rw (not-is_empty g p h) (resolve_at_iff g.boundary g p dr dc a)

in_shape_iff :
    (nbhd : Neighborhood) (radius : ℕ) (dr dc : ℤ)
    → (in_shape nbhd radius dr dc ≡ true)
      ↔ (combined nbhd (unsigned_abs dr) (unsigned_abs dc) ≤ radius)
unfolding in_shape
in_shape_iff moore radius dr dc = (ground arith, ground arith)
in_shape_iff von_neumann radius dr dc = (ground arith, ground arith)

combined_mono :
    (nbhd : Neighborhood) (a b c d : ℕ) → a ≤ c → b ≤ d → combined nbhd a b ≤ combined nbhd c d
combined_mono moore a b c d h k = omega arith
combined_mono von_neumann a b c d h k = omega arith

combined_covers :
    (nbhd : Neighborhood) (a b : ℕ) → (a ≤ combined nbhd a b) × (b ≤ combined nbhd a b)
combined_covers moore a b = (omega arith, omega arith)
combined_covers von_neumann a b = (omega arith, omega arith)

separation_zero : (k : Boundary) (a b n : ℕ) → a < n → b < n → separation k a b n ≡ 0 → b ≡ a
separation_zero fixed a b n h l e = ground arith
separation_zero toroidal a b n h l e = ground arith

pub separation_sym : (k : Boundary) (a b n : ℕ) → separation k a b n ≡ separation k b a n
separation_sym fixed a b n = ground arith
separation_sym toroidal a b n = ground arith

-- Within the radius, no further, and other than the cell itself.
abbrev pub IsNear : Grid → Cell → Neighborhood → ℕ → Cell → Type 0
IsNear g p nbhd radius a = InGrid g a × (a ≢ p) × (spread g nbhd p a ≤ radius)

module _ (g : Grid) (p : Cell) (nbhd : Neighborhood) (radius : ℕ) (h : InGrid g p) (a : Cell) where
  offset-IsNear :
      (dr dc : ℤ)
      → in_shape nbhd radius dr dc ≡ true
      → resolve g (pos p.0 +ℤ dr) (pos p.1 +ℤ dc) ≡ some a
      → InGrid g a × (spread g nbhd p a ≤ radius)
  offset-IsNear dr dc s r =
      let m = (resolve_iff g p dr dc a h).0 r in
      let row = separation-le g.boundary p.0 dr a.0 g.rows h.0 m.0 in
      let col = separation-le g.boundary p.1 dc a.1 g.cols h.1 m.1 in
      (
        (
          Reaches-lt g.boundary p.0 dr a.0 g.rows (omega arith) m.0,
          Reaches-lt g.boundary p.1 dc a.1 g.cols (omega arith) m.1,
        ),
        omega (arith, combined_mono nbhd _ _ _ _ row col, (in_shape_iff nbhd radius dr dc).0 s),
      )

  same_of_separations :
      InGrid g a
      → separation g.boundary p.0 a.0 g.rows ≡ 0
      → separation g.boundary p.1 a.1 g.cols ≡ 0
      → a ≡ p
  same_of_separations k e f =
      let row = separation_zero g.boundary p.0 a.0 g.rows h.0 k.0 e in
      let col = separation_zero g.boundary p.1 a.1 g.cols h.1 k.1 f in λ i. (row i, col i)

  near-Hit :
      IsNear g p nbhd radius a
      → (dr dc : ℤ) × (dr ∈ offsets radius) × (dc ∈ offsets radius) × Hit g p nbhd radius dr dc a
  near-Hit (k, ne, s) =
      let row = separation_reached g.boundary p.0 a.0 g.rows h.0 k.0 in
      let col = separation_reached g.boundary p.1 a.1 g.cols h.1 k.1 in
      let near : combined nbhd (unsigned_abs row.0) (unsigned_abs col.0) ≤ radius =
        rw (row.2, col.2) s in
      let covers = combined_covers nbhd (unsigned_abs row.0) (unsigned_abs col.0) in
      let away : is_center row.0 col.0 ≡ false = elim (Bool-cases (is_center row.0 col.0)) [
        | inl e ↦
            absurd (ne (same_of_separations k (ground (arith, row.2)) (ground (arith, col.2))))
        | inr e ↦ e
      ] in
      let other : pair_eq a p ≡ false = elim (Bool-cases (pair_eq a p)) [
        | inl e ↦ absurd (ne (pair_eq_sound a p e))
        | inr e ↦ e
      ] in
      (
        row.0,
        col.0,
        mem-offsets radius row.0 (omega (arith, covers.0)),
        mem-offsets radius col.0 (omega (arith, covers.1)),
        (
          away,
          (in_shape_iff nbhd radius row.0 col.0).1 near,
          (resolve_iff g p row.0 col.0 a h).1 (row.1, col.1),
          other,
        ),
      )

  Hit-IsNear : (dr dc : ℤ) → Hit g p nbhd radius dr dc a → IsNear g p nbhd radius a
  Hit-IsNear dr dc x =
      let near = offset-IsNear dr dc x.1 x.2 in
      (near.0, (λ e. let same : pair_eq a p ≡ true = rw e (pair_eq_refl p) in cc), near.1)

-- For a cell `p` of the lattice and any radius, zero included, `neighbors_radius` lists a cell
-- exactly if it lies on the lattice, is not `p`, and is at most the radius away from `p`: by the
-- larger of the two separations for Moore, and by their sum for Von Neumann, each separation taken
-- the shorter way round on a toroidal lattice.
pub mem-neighbors_radius :
    (g : Grid) (p : Cell) (nbhd : Neighborhood) (radius : ℕ) (a : Cell)
    → InGrid g p
    → (a ∈ neighbors_radius g p nbhd radius) ↔ IsNear g p nbhd radius a
unfolding neighbors_radius
mem-neighbors_radius g p nbhd zero a h = (
  λ m. absurd m,
  λ near.
      let zero_row : separation g.boundary p.0 a.0 g.rows ≡ 0 = omega (
        arith,
        near.2,
        combined_covers nbhd (separation g.boundary p.0 a.0 g.rows)
            (separation g.boundary p.1 a.1 g.cols),
      ) in
      let zero_col : separation g.boundary p.1 a.1 g.cols ≡ 0 = omega (
        arith,
        near.2,
        combined_covers nbhd (separation g.boundary p.0 a.0 g.rows)
            (separation g.boundary p.1 a.1 g.cols),
      ) in
      absurd (near.1 (same_of_separations g p nbhd 0 h a near.0 zero_row zero_col)),
)
mem-neighbors_radius g p nbhd (suc radius) a h =
    let hits =
      mem-neighbors_radius_iff_Hit g p nbhd (suc radius) a (omega arith) (not-is_empty g p h) in
    (
      λ m. let (dr, dc, n, k, x) = hits.0 m in Hit-IsNear g p nbhd (suc radius) h a dr dc x,
      λ near. hits.1 (near-Hit g p nbhd (suc radius) h a near),
    )

-- Being neighbours is symmetric: for two cells of the lattice, each is listed for the other or
-- neither is, with either boundary, either neighbourhood and any radius.
pub neighbors_radius_sym :
    (g : Grid) (nbhd : Neighborhood) (radius : ℕ) (p q : Cell)
    → InGrid g p
    → InGrid g q
    → q ∈ neighbors_radius g p nbhd radius
    → p ∈ neighbors_radius g q nbhd radius
neighbors_radius_sym g nbhd radius p q hp hq m =
    let near = (mem-neighbors_radius g p nbhd radius q hp).0 m in
    (mem-neighbors_radius g q nbhd radius p hq).1 (
      hp,
      (λ e. near.1 (sym e)),
      (rw (separation_sym g.boundary q.0 p.0 g.rows, separation_sym g.boundary q.1 p.1 g.cols)
          near.2),
    )
