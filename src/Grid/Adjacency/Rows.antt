-- ===== src/Grid/Adjacency/Rows.antt =====
-- Looking a cell up in the table gives its neighbours.
use rs_social_simulation_too.Prelude.{ℕ, zero, suc, ◌+◌, ◌<◌, ◌≡◌, refl}
use rs_social_simulation_too.Prelude.{ltb, Bool-cases, inl, inr}
use rs_social_simulation_too.Prelude.{List, [], ◌∷◌, ◌++◌, length, get_elem?}
use rs_social_simulation_too.Prelude.{Option, none, some, arith, length-append, ltb→lt}
use rs_social_simulation_too.Prelude.{get_elem?_bound, get_elem?-append_left, get_elem?-append_last}
use rs_social_simulation_too.Prelude.{slice-append_left, slice-append_right}
use rs_social_simulation_too.Grid.{Grid, Neighborhood, len}
use rs_social_simulation_too.Grid.Adjacency.{Adjacency, row, build, adjacency_radius, neighbors_at}
use rs_social_simulation_too.Grid.Adjacency.{size, slice_at, flat_index, cell_at}
use rs_social_simulation_too.Grid.{Cell, neighbors_radius}
use rs_social_simulation_too.Grid.Index.Vacancy.{row_of_index, col_of_index}
use rs_social_simulation_too.Prelude.{◌*◌, ◌∙◌, ap, map}

-- The table after the rounds before `i`: each entry of `offsets` is where its row starts, and the
-- last one is where the next row will.
record IsBuilt (g : Grid) (nbhd : Neighborhood) (radius i : ℕ) (a : Adjacency) : Type 0 where
  counted : length a.offsets ≡ suc i
  last : get_elem? a.offsets i ≡ some (length a.flat)
  rows : (j : ℕ) → j < i → neighbors_at a j ≡ some (row g nbhd radius j)

-- A slice that is in range has its ends.
slice_at_ends :
    (flat : List ℕ) (s e : Option ℕ) (r : List ℕ)
    → slice_at flat s e ≡ some r
    → (a b : ℕ) × (s ≡ some a) × (e ≡ some b)
slice_at_ends flat none e r h = cc
slice_at_ends flat (some a) none r h = cc
slice_at_ends flat (some a) (some b) r h = (a, b, refl, refl)

slice_at-append :
    (flat new : List ℕ) (s e : Option ℕ) (r : List ℕ)
    → slice_at flat s e ≡ some r
    → slice_at (flat ++ new) s e ≡ some r
slice_at-append flat new none e r h = h
slice_at-append flat new (some a) none r h = h
slice_at-append flat new (some a) (some b) r h =
    ground (arith, length-append flat new, slice-append_left a b flat new)

slice_at_right :
    (flat new : List ℕ)
    → slice_at (flat ++ new) (some (length flat)) (some (length (flat ++ new))) ≡ some new
slice_at_right flat new = ground (
  arith,
  length-append flat new,
  slice-append_right (length flat) (length (flat ++ new)) flat new refl (length-append flat new),
)

module _ (g : Grid) (nbhd : Neighborhood) (radius : ℕ) where
  -- One more row leaves the earlier ones in place.
  neighbors_at-append :
      (offsets flat new : List ℕ) (j x : ℕ) (r : List ℕ)
      → neighbors_at (record { offsets = offsets; flat = flat }) j ≡ some r
      → neighbors_at (record { offsets = offsets ++ (x ∷ []); flat = flat ++ new }) j ≡ some r
  unfolding neighbors_at
  neighbors_at-append offsets flat new j x r h =
      let (a, b, start, end) =
        slice_at_ends flat (get_elem? offsets j) (get_elem? offsets (j + 1)) r h in
      let bound = get_elem?_bound offsets (j + 1) b end in
      rw
        (
          get_elem?-append_left offsets (x ∷ []) j (omega arith),
          get_elem?-append_left offsets (x ∷ []) (j + 1) bound,
        )
        (slice_at-append flat new (get_elem? offsets j) (get_elem? offsets (j + 1)) r h)

  build_step :
      (i : ℕ) (offsets flat : List ℕ)
      → IsBuilt g nbhd radius i (record { offsets = offsets; flat = flat })
      → IsBuilt g nbhd radius (i + 1) (record {
        offsets = offsets ++ (length (flat ++ row g nbhd radius i) ∷ []);
        flat = flat ++ row g nbhd radius i;
      })
  unfolding neighbors_at
  build_step i offsets flat b = record {
    counted =
        omega (arith, b.counted, length-append offsets (length (flat ++ row g nbhd radius i) ∷ []));
    last = get_elem?-append_last offsets _ (i + 1) (omega (arith, b.counted));
    rows = λ j h. elim (Bool-cases (ltb j i)) [
      | inl e ↦ neighbors_at-append offsets flat _ j _ _ (b.rows j (ltb→lt j i e))
      | inr e ↦ let same : i ≡ j = ground arith in rw (← same) newest
    ];
  }
    where
      newest :
          neighbors_at
            (record {
              offsets = offsets ++ (length (flat ++ row g nbhd radius i) ∷ []);
              flat = flat ++ row g nbhd radius i;
            })
            i
          ≡ some (row g nbhd radius i)
      newest =
          rw
            (
              get_elem?-append_left offsets _ i (omega (arith, b.counted)),
              b.last,
              get_elem?-append_last offsets (length (flat ++ row g nbhd radius i)) (i + 1)
                  (omega (arith, b.counted)),
            )
            (slice_at_right flat (row g nbhd radius i))

  build-IsBuilt :
      (left i n : ℕ) (offsets flat : List ℕ)
      → i + left ≡ n
      → IsBuilt g nbhd radius i (record { offsets = offsets; flat = flat })
      → IsBuilt g nbhd radius n (build g nbhd radius left i offsets flat)
  unfolding build
  build-IsBuilt zero i n offsets flat e b = let same : i ≡ n = omega arith in rw (← same) b
  build-IsBuilt (suc left) i n offsets flat e b =
      build-IsBuilt left (i + 1) n _ _ (omega arith) (build_step i offsets flat b)

  adjacency_radius-IsBuilt : IsBuilt g nbhd radius (len g) (adjacency_radius g nbhd radius)
  unfolding adjacency_radius
  adjacency_radius-IsBuilt =
      build-IsBuilt (len g) 0 (len g) (0 ∷ []) [] (omega arith)
        (record { counted = refl; last = refl; rows = λ j h. absurd (omega arith) })

-- The table that `adjacency_radius` builds has one row for each cell of the lattice. For the cell in
-- row `r` and column `c`, looking up the row-major index `r * cols + c` never panics: it gives the
-- row-major indices of the cells that `neighbors_radius` lists for it, in the same order.
pub neighbors_at-adjacency_radius :
    (g : Grid) (nbhd : Neighborhood) (radius r c : ℕ)
    → r < g.rows
    → c < g.cols
    → (size (adjacency_radius g nbhd radius) ≡ g.rows * g.cols)
      × (neighbors_at (adjacency_radius g nbhd radius) (r * g.cols + c)
          ≡ some (map (λ q. q.0 * g.cols + q.1) (neighbors_radius g (r, c) nbhd radius)))
unfolding size
neighbors_at-adjacency_radius g nbhd radius r c h k =
    let b = adjacency_radius-IsBuilt g nbhd radius in
    let listed = λ (p : Cell). some (map (flat_index g) (neighbors_radius g p nbhd radius)) in
    let here : cell_at g (r * g.cols + c) ≡ (r, c) =
      λ i. (row_of_index r c g.cols k i, col_of_index r c g.cols k i) in
    (
      omega (arith, b.counted),
      b.rows (r * g.cols + c) (inside r c g.rows g.cols h k) ∙ ap listed here,
    )
  where
    inside : (r c rows cols : ℕ) → r < rows → c < cols → r * cols + c < rows * cols
    inside r c rows cols h k = grind arith
