-- ===== src/Grid/Cells/Laws.antt =====
-- What the cells of `CellGrid` hold after it is made and after a write, and the values around a cell.
use rs_social_simulation_too.Prelude.{ℕ, zero, suc, ◌+◌, ◌*◌, ◌/◌, ◌%◌, ◌<◌, ◌≡◌, refl, ◌∙◌, ap}
use rs_social_simulation_too.Prelude.{arith, true, false, ◌&&◌, ltb, ◌==◌, if◌then◌else◌}
use rs_social_simulation_too.Prelude.{
  Option, none, some, List, [], ◌∷◌, map, length, get_elem?, set,
}
use rs_social_simulation_too.Prelude.{get_elem?-set, length-set, get_elem?_total}
use rs_social_simulation_too.Prelude.{All, All-intro, if_true}
use rs_social_simulation_too.Prelude.Sort.Numbers.{pair_eq}
use rs_social_simulation_too.Grid.{Grid, Cell, Neighborhood, len, neighbors}
use rs_social_simulation_too.Grid.Neighbors.{InGrid}
use rs_social_simulation_too.Grid.Distance.{mem-neighbors_radius}
use rs_social_simulation_too.Grid.Cells.{CellGrid, fill_cells, from_fn, index, is_inside, get}
use rs_social_simulation_too.Grid.Cells.{written, modify, values_at, neighbor_values}
use rs_social_simulation_too.Grid.Index.Vacancy.{row_of_index, col_of_index}

pub index-lt : (g : Grid) (p : Cell) → InGrid g p → p.0 * g.cols + p.1 < len g
index-lt g p h = grind arith

index-lt-index : (n : ℕ) (p q : Cell) → p.1 < n → p.0 < q.0 → p.0 * n + p.1 < q.0 * n + q.1
index-lt-index n p q h l = grind arith

index_eq :
    (g : Grid) (p q : Cell)
    → InGrid g p
    → InGrid g q
    → (p.0 * g.cols + p.1 == q.0 * g.cols + q.1) ≡ pair_eq p q
index_eq g p q h k = ground (arith, index-lt-index g.cols p q, index-lt-index g.cols q p)

module _ {T : Type 0} where
  module _ {S : Type 0} (f : S → ℕ → ℕ → T × S) (cols : ℕ) where
    -- The closure's state after its first `n` calls from the index `i` on.
    pub state_after : ℕ → ℕ → S → S
    state_after i zero s = s
    state_after i (suc n) s = state_after (i + 1) n (f s (i / cols) (i % cols)).1

    get_elem?-fill_cells :
        (i n k : ℕ) (s : S)
        → k < n
        → get_elem? (fill_cells f cols i n s).0 k
          ≡ some (f (state_after i k s) ((i + k) / cols) ((i + k) % cols)).0
    unfolding fill_cells state_after
    get_elem?-fill_cells i zero k s h = absurd (omega arith)
    get_elem?-fill_cells i (suc n) zero s h =
        ap (λ (j : ℕ). some (f s (j / cols) (j % cols)).0) (omega arith)
    get_elem?-fill_cells i (suc n) (suc k) s h =
        get_elem?-fill_cells (i + 1) n k (f s (i / cols) (i % cols)).1 (omega arith)
        ∙ ap (λ (j : ℕ). some (f (state_after i (suc k) s) (j / cols) (j % cols)).0) (omega arith)

    length-fill_cells : (i n : ℕ) (s : S) → length (fill_cells f cols i n s).0 ≡ n
    unfolding fill_cells
    length-fill_cells i zero s = refl
    length-fill_cells i (suc n) s = ap suc (length-fill_cells (i + 1) n _)

  abbrev pub IsFull : CellGrid T → Type 0
  IsFull x = length x.cells ≡ len x.grid

  inside_of : (x : CellGrid T) (p : Cell) → InGrid x.grid p → is_inside x p.0 p.1 ≡ true
  inside_of x p h = ground arith

  get_inside :
      (x : CellGrid T) (p : Cell)
      → InGrid x.grid p
      → get x p.0 p.1 ≡ get_elem? x.cells (index x p.0 p.1)
  unfolding get
  get_inside x p h = rw (inside_of x p h)

  -- `from_fn` makes a value for every cell and calls the closure once for each, in row-major order:
  -- the value at a cell of the lattice is what the closure returns for it, called in the state that
  -- the calls for all earlier cells left; outside the lattice nothing is read.
  pub get-from_fn :
      {S : Type 0} (g : Grid) (f : S → ℕ → ℕ → T × S) (s : S) (r c : ℕ)
      → IsFull (from_fn g f s).0
        × (InGrid g (r, c)
            → get (from_fn g f s).0 r c
              ≡ some (f (state_after f g.cols 0 (r * g.cols + c) s) r c).0)
        × ((ltb r g.rows && ltb c g.cols) ≡ false → get (from_fn g f s).0 r c ≡ none)
  unfolding from_fn get
  get-from_fn g f s r c = (
    length-fill_cells f g.cols 0 (len g) s,
    (λ h.
        let i : ℕ = r * g.cols + c in
        let row : (0 + i) / g.cols ≡ r =
          ap (λ (j : ℕ). j / g.cols) (omega arith) ∙ row_of_index r c g.cols h.1 in
        let col : (0 + i) % g.cols ≡ c =
          ap (λ (j : ℕ). j % g.cols) (omega arith) ∙ col_of_index r c g.cols h.1 in
        get_inside (from_fn g f s).0 (r, c) h
        ∙ get_elem?-fill_cells f g.cols 0 (len g) i s (index-lt g (r, c) h)
        ∙ λ j. some (f (state_after f g.cols 0 i s) (row j) (col j)).0),
    λ h. rw h,
  )

  abbrev pub applied : (T → T) → Option T → Option T
  applied f none = none
  applied f (some v) = some (f v)

  -- On a full lattice, a write through a mutable borrow of one cell of the lattice changes that cell,
  -- by the function applied, and no other; the lattice stays full.
  pub get-modify :
      (x : CellGrid T) (p q : Cell) (f : T → T)
      → IsFull x
      → InGrid x.grid p
      → InGrid x.grid q
      → IsFull (modify x p.0 p.1 f)
        × (get (modify x p.0 p.1 f) q.0 q.1
            ≡ (if pair_eq p q then applied f (get x p.0 p.1) else get x q.0 q.1))
  unfolding modify
  get-modify x p q f full h k =
      let i : ℕ = index x p.0 p.1 in
      let (a, found) = get_elem?_total x.cells i (omega (arith, full, index-lt x.grid p h)) in
      let changed : modify x p.0 p.1 f ≡ record x { cells = set x.cells i (f a) } =
        if_true _ _ (inside_of x p h) ∙ ap (written x i f) found in
      let read =
        get_inside (record x { cells = set x.cells i (f a) }) q k
        ∙ get_elem?-set x.cells i (index x q.0 q.1) (f a)
            (omega (arith, full, index-lt x.grid p h)) in
      let old = get_inside x p h ∙ found in
      rw (changed, old, read, index_eq x.grid p q h k, get_inside x q k)
        (length-set x.cells i (f a) ∙ full, refl)

  -- The value read at a list of cells, where each of them holds one.
  values_at-get :
      (x : CellGrid T) (ps : List Cell)
      → IsFull x
      → All (InGrid x.grid) ps
      → map some (values_at x ps) ≡ map (λ (q : Cell). get x q.0 q.1) ps
  unfolding values_at
  values_at-get x [] full h = refl
  values_at-get x (q ∷ ps) full h =
      let i : ℕ = index x q.0 q.1 in
      let (a, found) = get_elem?_total x.cells i (omega (arith, full, index-lt x.grid q h.0)) in
      rw (get_inside x q h.0 ∙ found) (ap (◌∷◌ (some a)) (values_at-get x ps full h.1))

  -- On a full lattice, `neighbor_values` of a cell of the lattice holds one value for each neighbour,
  -- in the neighbours' order: the value that `get` reads there, so that no neighbour is skipped.
  pub neighbor_values-get :
      (x : CellGrid T) (r c : ℕ) (nbhd : Neighborhood)
      → IsFull x
      → InGrid x.grid (r, c)
      → map some (neighbor_values x r c nbhd)
        ≡ map (λ (q : Cell). get x q.0 q.1) (neighbors x.grid (r, c) nbhd)
  unfolding neighbor_values neighbors
  neighbor_values-get x r c nbhd full h = values_at-get x (neighbors x.grid (r, c) nbhd) full (
      All-intro (InGrid x.grid) (neighbors x.grid (r, c) nbhd)
        (λ q m. ((mem-neighbors_radius x.grid (r, c) nbhd 1 q h).0 m).0))
