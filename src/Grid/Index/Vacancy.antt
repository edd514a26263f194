-- ===== src/Grid/Index/Vacancy.antt =====
-- `vacant_cells` lists exactly the cells of the lattice that hold no agent.
use native.Mathlib.Nat.{
  div-add-mod, mod-lt, mod-eq_of_lt, mul_comm, mul-add-div_right, div-eq_of_lt,
}
use native.Mathlib.Nat.{mul-add-mod_self_right, div-lt_iff_lt-mul}
use rs_social_simulation_too.Prelude.{ℕ, zero, suc, ◌+◌, ◌*◌, ◌/◌, ◌%◌, ◌<◌, ◌≡◌, refl, sym, ◌∙◌}
use rs_social_simulation_too.Prelude.{ap, ◌↔◌, inl, inr, arith}
use rs_social_simulation_too.Prelude.{Option, none, some, List, [], ◌∷◌, ◌∈◌, get_elem?}
use rs_social_simulation_too.Prelude.{subst, get_elem?_bound, All, All_get, All-intro, ◌++◌}
use rs_social_simulation_too.Grid.{Cell}
use rs_social_simulation_too.Grid.Neighbors.{InGrid}
use rs_social_simulation_too.Grid.Index.{
  GridIndex, AgentId, idx, occupant, vacant_from, vacant_cells,
}
use rs_social_simulation_too.Grid.Index.Invariant.{IsValid, occupant_inside}

-- The cell that the loop lists for a vacant entry `k` places on.
abbrev cell_of : ℕ → ℕ → Cell
cell_of cols i = (i / cols, i % cols)

vacant_from_listed :
    (cols i k j : ℕ) (occs : List (Option AgentId))
    → get_elem? occs k ≡ some none
    → i + k ≡ j
    → cell_of cols j ∈ vacant_from cols i occs
unfolding vacant_from
vacant_from_listed cols i k j [] e s = cc
vacant_from_listed cols i zero j (none ∷ occs) e s = inl (ap (cell_of cols) (omega arith))
vacant_from_listed cols i (suc k) j (none ∷ occs) e s =
    inr (vacant_from_listed cols (i + 1) k j occs e (omega arith))
vacant_from_listed cols i zero j (some a ∷ occs) e s = cc
vacant_from_listed cols i (suc k) j (some a ∷ occs) e s =
    vacant_from_listed cols (i + 1) k j occs e (omega arith)

vacant_from_found :
    (cols i : ℕ) (occs : List (Option AgentId)) (p : Cell)
    → p ∈ vacant_from cols i occs
    → (k j : ℕ) × (get_elem? occs k ≡ some none) × (i + k ≡ j) × (p ≡ cell_of cols j)
unfolding vacant_from
vacant_from_found cols i [] p m = absurd m
vacant_from_found cols i (none ∷ occs) p (inl e) = (0, i, refl, omega arith, e)
vacant_from_found cols i (none ∷ occs) p (inr m) =
    let (k, j, e, s, t) = vacant_from_found cols (i + 1) occs p m in (suc k, j, e, omega arith, t)
vacant_from_found cols i (some a ∷ occs) p m =
    let (k, j, e, s, t) = vacant_from_found cols (i + 1) occs p m in (suc k, j, e, omega arith, t)

-- Row-major positions and cells correspond.
pub index_of_cell : (cols i : ℕ) → i / cols * cols + i % cols ≡ i
index_of_cell cols i = omega (arith, div-add-mod i cols, mul_comm cols (i / cols))

pub row_of_index : (r c cols : ℕ) → c < cols → (r * cols + c) / cols ≡ r
row_of_index r c cols h = mul-add-div_right (omega arith) r c ∙ omega (arith, div-eq_of_lt h)

pub col_of_index : (r c cols : ℕ) → c < cols → (r * cols + c) % cols ≡ c
col_of_index r c cols h = mul-add-mod_self_right r cols c ∙ mod-eq_of_lt h

pub row-lt : (i rows cols : ℕ) → i < rows * cols → (i / cols < rows) × (i % cols < cols)
row-lt i rows zero h = absurd (omega arith)
row-lt i rows (suc cols) h = ((div-lt_iff_lt-mul (omega arith)).1 h, mod-lt i (omega arith))

-- The place of a cell in row-major order.
abbrev pub place_of : ℕ → Cell → ℕ
place_of cols p = p.0 * cols + p.1

-- Each cell of a list comes before those behind it.
abbrev pub Rises : ℕ → List Cell → Type 0
Rises cols [] = Unit
Rises cols (p ∷ ps) = All (λ q. place_of cols p < place_of cols q) ps × Rises cols ps

vacant_from-Rises :
    (cols i : ℕ) (occs : List (Option AgentId)) → Rises cols (vacant_from cols i occs)
unfolding vacant_from
vacant_from-Rises cols i [] = tt
vacant_from-Rises cols i (none ∷ occs) = (
  All-intro _ (vacant_from cols (i + 1) occs) (λ q m.
      let (k, j, e, s, t) = vacant_from_found cols (i + 1) occs q m in
      let there : place_of cols q ≡ j = ap (place_of cols) t ∙ index_of_cell cols j in
      omega (arith, index_of_cell cols i, there)),
  vacant_from-Rises cols (i + 1) occs,
)
vacant_from-Rises cols i (some a ∷ occs) = vacant_from-Rises cols (i + 1) occs

pub vacant_cells-Rises : (x : GridIndex) → Rises x.grid.cols (vacant_cells x)
unfolding vacant_cells
vacant_cells-Rises x = vacant_from-Rises x.grid.cols 0 x.cells

pub Rises-behind :
    (cols : ℕ) (before after : List Cell) (p q : Cell)
    → Rises cols (before ++ (p ∷ after))
    → q ∈ after
    → place_of cols p < place_of cols q
Rises-behind cols [] after p q (first, rest) m = All_get _ after q first m
Rises-behind cols (c ∷ before) after p q (first, rest) m = Rises-behind cols before after p q rest m

-- On a valid index `vacant_cells` lists a cell exactly if it lies on the lattice and holds no agent.
pub mem-vacant_cells :
    (x : GridIndex) (p : Cell)
    → IsValid x
    → (p ∈ vacant_cells x) ↔ (InGrid x.grid p × (occupant x p.0 p.1 ≡ some none))
unfolding vacant_cells
mem-vacant_cells x p v = (
  λ m.
      let (k, j, e, s, t) = vacant_from_found x.grid.cols 0 x.cells p m in
      let same : k ≡ j = omega arith in
      let found : get_elem? x.cells j ≡ some none = rw same at e in
      let bound = get_elem?_bound x.cells j none found in
      let inside : InGrid x.grid (cell_of x.grid.cols j) =
        row-lt j x.grid.rows x.grid.cols (omega (arith, v.sized)) in
      rw t (
        inside,
        occupant_inside x (cell_of x.grid.cols j) inside
            ∙ ap (get_elem? x.cells) (index_of_cell x.grid.cols j)
            ∙ found,
      ),
  λ (h, vacant).
      let read : get_elem? x.cells (idx x p.0 p.1) ≡ some none =
        sym (occupant_inside x p h) ∙ vacant in
      let cell : cell_of x.grid.cols (idx x p.0 p.1) ≡ p =
        λ i. (row_of_index p.0 p.1 x.grid.cols h.1 i, col_of_index p.0 p.1 x.grid.cols h.1 i) in
      subst (λ q. q ∈ vacant_from x.grid.cols 0 x.cells) cell
        (vacant_from_listed x.grid.cols 0 (idx x p.0 p.1) (idx x p.0 p.1) x.cells read
          (omega arith)),
)
