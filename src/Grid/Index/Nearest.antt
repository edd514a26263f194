-- ===== src/Grid/Index/Nearest.antt =====
-- `GridIndex::nearest_vacant`: the scan over the vacant cells, and what it finds.
use mathlib.Core.List.{append_assoc, append-nil}
use rs_social_simulation_too.Prelude.{subst, ◌≡◌, ◌≢◌, refl, sym, true, false}
use rs_social_simulation_too.Prelude.{Bool-cases, inl, inr, Option, none, some, List, [], ◌∷◌, ◌++◌}
use rs_social_simulation_too.Prelude.{if◌then◌else◌, ◌∈◌, All, All-append, All_get, All-intro}
use rs_social_simulation_too.Prelude.{mem-append_right, mem-append_cases}
use rs_social_simulation_too.Grid.{Cell, Metric}
use rs_social_simulation_too.Grid.Measure.{Floats, distance, distance-IsNumber}
use rs_social_simulation_too.Grid.Neighbors.{InGrid}
use rs_social_simulation_too.Grid.Index.{GridIndex, occupant, vacant_cells}
use rs_social_simulation_too.Grid.Index.Invariant.{IsValid}
use rs_social_simulation_too.Grid.Index.Vacancy.{
  place_of, Rises, Rises-behind, mem-vacant_cells, vacant_cells-Rises,
}
use rs_social_simulation_too.Prelude.{ℕ, ◌+◌, ◌*◌, ◌<◌, ap, arith}
use rs_social_simulation_too.Grid.{toroidal}

module _ (f : Floats) where
  open f use {Float, lt, IsNumber, lt_trans, not_lt_trans}

  abbrev Best : Type 0
  Best = Option (Cell × Float)

  -- One round of the loop: only a strictly smaller distance replaces the best cell so far.
  unfoldable pub better : Cell → Float → Best → Best
  better cell d none = some (cell, d)
  better cell d (some (kept, bd)) = if lt d bd then some (cell, d) else some (kept, bd)

  unfoldable pub nearest_loop : (Cell → Float) → Best → List Cell → Best
  unfolding better
  nearest_loop dist best [] = best
  nearest_loop dist best (cell ∷ cells) = nearest_loop dist (better cell (dist cell) best) cells

  abbrev cell_of_best : Best → Option Cell
  cell_of_best none = none
  cell_of_best (some (cell, d)) = some cell

  unfoldable pub nearest_vacant : GridIndex → Cell → Metric → Option Cell
  unfolding nearest_loop distance vacant_cells
  nearest_vacant x from m =
      cell_of_best (nearest_loop (distance f x.grid m from) none (vacant_cells x))

  module _ (dist : Cell → Float) (number : (c : Cell) → IsNumber (dist c)) where
    abbrev Nearer : Cell → Cell → Type 0
    Nearer a b = lt (dist a) (dist b) ≡ true

    -- `cell` is the first of the nearest in a list: those before it are farther, and those after
    -- it are not nearer.
    pub record IsFirstNearest (cells : List Cell) (cell : Cell) : Type 0 where
      before : List Cell
      after : List Cell
      split : cells ≡ before ++ (cell ∷ after)
      farther : All (λ c. lt (dist cell) (dist c) ≡ true) before
      no_nearer : All (λ c. lt (dist c) (dist cell) ≡ false) after

    IsFirstNearest-mem : {cells : List Cell} {p : Cell} → IsFirstNearest cells p → p ∈ cells
    IsFirstNearest-mem {p} i =
        subst (λ l. p ∈ l) (sym i.split) (mem-append_right p i.before (p ∷ i.after) (inl refl))

    -- A cell nearer than the best one is nearer than all that the best one beat.
    replace :
        (c : Cell) (kept : Cell) (seen : List Cell)
        → lt (dist c) (dist kept) ≡ true
        → IsFirstNearest seen kept
        → IsFirstNearest (seen ++ (c ∷ [])) c
    replace c kept seen h i = record {
      before = seen;
      after = [];
      split = refl;
      farther = rw i.split (
          All-append _ i.before (kept ∷ i.after)
            (All-intro _ i.before (λ q m.
              lt_trans (dist c) (dist kept) (dist q) (number c) (number kept) (number q) h
                (All_get _ i.before q i.farther m)))
            (h, All-intro _ i.after (λ q m. beats q (All_get _ i.after q i.no_nearer m))));
      no_nearer = tt;
    }
      where
        beats : (q : Cell) → lt (dist q) (dist kept) ≡ false → lt (dist c) (dist q) ≡ true
        beats q k = elim (Bool-cases (lt (dist c) (dist q))) [
          | inl e ↦ e
          | inr e ↦
              let bad : lt (dist c) (dist kept) ≡ false =
                not_lt_trans (dist c) (dist q) (dist kept) (number c) (number q) (number kept) e
                  k in
              cc
        ]

    keep :
        (c : Cell) (kept : Cell) (seen : List Cell)
        → lt (dist c) (dist kept) ≡ false
        → IsFirstNearest seen kept
        → IsFirstNearest (seen ++ (c ∷ [])) kept
    keep c kept seen h i = record {
      before = i.before;
      after = i.after ++ (c ∷ []);
      split = rw i.split (append_assoc i.before (kept ∷ i.after) (c ∷ []));
      farther = i.farther;
      no_nearer = All-append _ i.after (c ∷ []) i.no_nearer (h, tt);
    }

    nearest_loop-IsFirstNearest :
        (seen cells : List Cell) (kept : Cell)
        → IsFirstNearest seen kept
        → (p : Cell) × (cell_of_best (nearest_loop dist (some (kept, dist kept)) cells) ≡ some p)
          × IsFirstNearest (seen ++ cells) p
    unfolding nearest_loop
    nearest_loop-IsFirstNearest seen [] kept i = (kept, refl, rw (append-nil seen) i)
    nearest_loop-IsFirstNearest seen (c ∷ cells) kept i =
        elim (Bool-cases (lt (dist c) (dist kept))) [
          | inl e ↦
              let rest =
                nearest_loop-IsFirstNearest (seen ++ (c ∷ [])) cells c (replace c kept seen e i) in
              (rest.0, rw e rest.1, rw (append_assoc seen (c ∷ []) cells) at rest.2)
          | inr e ↦
              let rest =
                nearest_loop-IsFirstNearest (seen ++ (c ∷ [])) cells kept (keep c kept seen e i) in
              (rest.0, rw e rest.1, rw (append_assoc seen (c ∷ []) cells) at rest.2)
        ]

    -- In a list in row-major order, those that come before it are farther.
    IsFirstNearest-before :
        (cols : ℕ) (cells : List Cell) (p q : Cell)
        → Rises cols cells
        → IsFirstNearest cells p
        → q ∈ cells
        → place_of cols q < place_of cols p
        → lt (dist p) (dist q) ≡ true
    IsFirstNearest-before cols cells p q rises i m earlier =
        elim (mem-append_cases q i.before (p ∷ i.after) (subst (λ l. q ∈ l) i.split m)) [
          | inl b ↦ All_get _ i.before q i.farther b
          | inr (inl e) ↦
              let same : place_of cols q ≡ place_of cols p = ap (place_of cols) e in
              absurd (omega arith)
          | inr (inr a) ↦
              let later =
                Rises-behind cols i.before i.after p q (subst (Rises cols) i.split rises) a in
              absurd (omega arith)
        ]

    -- No cell of the list is nearer than the one found.
    IsFirstNearest-le :
        (cells : List Cell) (p q : Cell)
        → lt (dist p) (dist p) ≡ false
        → IsFirstNearest cells p
        → q ∈ cells
        → lt (dist q) (dist p) ≡ false
    IsFirstNearest-le cells p q irr i m =
        elim (mem-append_cases q i.before (p ∷ i.after) (subst (λ l. q ∈ l) i.split m)) [
          | inl b ↦
              let far : lt (dist p) (dist q) ≡ true = All_get _ i.before q i.farther b in
              elim (Bool-cases (lt (dist q) (dist p))) [
                | inl e ↦
                    let bad : lt (dist p) (dist p) ≡ true =
                      lt_trans (dist p) (dist q) (dist p) (number p) (number q) (number p) far e in
                    cc
                | inr e ↦ e
              ]
          | inr (inl e) ↦ rw e irr
          | inr (inr a) ↦ All_get _ i.after q i.no_nearer a
        ]

  -- What `nearest_vacant` should return.
  pub data Finds (x : GridIndex) (from : Cell) (m : Metric) : Option Cell → Type 0 where
    full : ((q : Cell) → InGrid x.grid q → occupant x q.0 q.1 ≢ some none) → Finds x from m none
    found :
        (p : Cell)
        → InGrid x.grid p
        → occupant x p.0 p.1 ≡ some none
        → ((q : Cell)
            → InGrid x.grid q
            → occupant x q.0 q.1 ≡ some none
            → lt (distance f x.grid m from q) (distance f x.grid m from p) ≡ false)
        → ((q : Cell)
            → InGrid x.grid q
            → occupant x q.0 q.1 ≡ some none
            → q.0 * x.grid.cols + q.1 < p.0 * x.grid.cols + p.1
            → lt (distance f x.grid m from p) (distance f x.grid m from q) ≡ true)
        → Finds x from m (some p)

  loop-Finds :
      (x : GridIndex) (from : Cell) (m : Metric) (cells : List Cell)
      → IsValid x
      → cells ≡ vacant_cells x
      → Finds x from m (cell_of_best (nearest_loop (distance f x.grid m from) none cells))
  unfolding nearest_loop
  loop-Finds x from m [] v e = full λ q h vacant.
      let listed = (mem-vacant_cells x q v).1 (h, vacant) in
      absurd (subst (λ l. q ∈ l) (sym e) listed)
  loop-Finds x from m (c ∷ cells) v e =
      let dist = distance f x.grid m from in
      let number = distance-IsNumber f x.grid m from in
      let run =
        nearest_loop-IsFirstNearest dist number (c ∷ []) cells c
          (record { before = []; after = []; split = refl; farther = tt; no_nearer = tt }) in
      let first = subst (λ l. IsFirstNearest dist number l run.0) e run.2 in
      let member = (mem-vacant_cells x run.0 v).0 (IsFirstNearest-mem dist number first) in
      rw run.1 (
        found run.0 member.0 member.1
          (λ q h vacant.
            IsFirstNearest-le dist number (vacant_cells x) run.0 q
              (f.lt_irrefl (dist run.0) (number run.0)) first
              ((mem-vacant_cells x q v).1 (h, vacant)))
          (λ q h vacant earlier.
            IsFirstNearest-before dist number x.grid.cols (vacant_cells x) run.0 q
              (vacant_cells-Rises x) first ((mem-vacant_cells x q v).1 (h, vacant)) earlier))

  -- On a valid index, for any metric and any cell, which on a toroidal lattice is a cell of it,
  -- `nearest_vacant` gives nothing exactly when no cell of the lattice is vacant; else a vacant cell
  -- of the lattice such that no vacant cell is nearer, and every vacant cell that comes before it in
  -- row-major order is farther.
  pub nearest_vacant-Finds :
      (x : GridIndex) (from : Cell) (m : Metric)
      → IsValid x
      → (x.grid.boundary ≡ toroidal → InGrid x.grid from)
      → Finds x from m (nearest_vacant x from m)
  unfolding nearest_vacant
  nearest_vacant-Finds x from m v on_torus = loop-Finds x from m (vacant_cells x) v refl
