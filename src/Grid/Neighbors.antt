-- ===== src/Grid/Neighbors.antt =====
-- `neighbors_radius` lists exactly the cells within the radius, in ascending order.
use rs_social_simulation_too.Prelude.{ℕ, zero, suc, ◌+◌, ◌-◌, ◌*◌, ◌≤◌, ◌<◌, ◌≡◌, refl, sym}
use rs_social_simulation_too.Prelude.{ap, ◌↔◌, ◌⊎◌, inl, inr, true, false, arith}
use rs_social_simulation_too.Prelude.{◌==◌, Bool-cases, Option, none, some, ◌||◌}
use rs_social_simulation_too.Prelude.{List, [], ◌∷◌, ◌∈◌, map, range_from, max}
use rs_social_simulation_too.Prelude.{mem-append_left, mem-append_right, mem-append_cases, ==→≡}
use rs_social_simulation_too.Prelude.Int.{ℤ, pos, negsuc, ◌+ℤ◌, unsigned_abs, sub_ℕ}
use rs_social_simulation_too.Prelude.Sort.{sort, IsStrictlySorted}
use rs_social_simulation_too.Prelude.Sort.Laws.{mem-sort, mem-dedup, sort-IsSorted}
use rs_social_simulation_too.Prelude.Sort.Laws.{dedup-IsStrictlySorted}
use rs_social_simulation_too.Prelude.Sort.Numbers.{pair_ord, pair_eq}
use rs_social_simulation_too.Grid.{Grid, Cell, Neighborhood, moore, von_neumann}
use rs_social_simulation_too.Grid.{is_empty, resolve, offsets}
use rs_social_simulation_too.Grid.{is_center, in_shape, push_cell, visit, scan_cols, scan_rows}
use rs_social_simulation_too.Grid.{neighbors_radius, separation}

-- The cell lies on the lattice.
abbrev pub InGrid : Grid → Cell → Type 0
InGrid g p = (p.0 < g.rows) × (p.1 < g.cols)

-- The number that `Metric::combine` takes from the separations on the two axes, for the metric
-- that the documentation pairs with the neighborhood.
abbrev pub combined : Neighborhood → ℕ → ℕ → ℕ
combined moore dr dc = max dr dc
combined von_neumann dr dc = dr + dc

abbrev pub spread : Grid → Neighborhood → Cell → Cell → ℕ
spread g nbhd p q =
    combined nbhd (separation g.boundary p.0 q.0 g.rows) (separation g.boundary p.1 q.1 g.cols)

some_inj : {a b : Cell} → some a ≡ some b → a ≡ b
some_inj h = cc

-- Every offset up to the radius is in the range of the loops.
mem-range_from : (i n k : ℕ) → i ≤ k → k < i + n → k ∈ range_from i n
mem-range_from i zero k h l = absurd (omega arith)
mem-range_from i (suc n) k h l = elim (Bool-cases (k == i)) [
  | inl e ↦ inl (==→≡ k i e)
  | inr e ↦ inr (mem-range_from (i + 1) n k (ground arith) (omega arith))
]

mem-map : (f : ℕ → ℤ) (k : ℕ) (ks : List ℕ) → k ∈ ks → f k ∈ map f ks
mem-map f k [] m = m
mem-map f k (j ∷ ks) (inl e) = inl (ap f e)
mem-map f k (j ∷ ks) (inr m) = inr (mem-map f k ks m)

pub mem-offsets : (radius : ℕ) (d : ℤ) → unsigned_abs d ≤ radius → d ∈ offsets radius
unfolding offsets
mem-offsets radius (pos m) h =
    let e : sub_ℕ (radius + m) radius ≡ pos m = ground arith in
    rw (← e) (
      mem-map (λ k. sub_ℕ k radius) (radius + m) (range_from 0 (2 * radius + 1))
        (mem-range_from 0 (2 * radius + 1) (radius + m) (omega arith) (omega arith)))
mem-offsets radius (negsuc m) h =
    let e : sub_ℕ (radius - suc m) radius ≡ negsuc m = ground arith in
    rw (← e) (
      mem-map (λ k. sub_ℕ k radius) (radius - suc m) (range_from 0 (2 * radius + 1))
        (mem-range_from 0 (2 * radius + 1) (radius - suc m) (omega arith) (omega arith)))

module _ (g : Grid) (p : Cell) (nbhd : Neighborhood) (radius : ℕ) where
  -- The offset (dr, dc) adds the cell `a`.
  abbrev pub Hit : ℤ → ℤ → Cell → Type 0
  Hit dr dc a =
      (is_center dr dc ≡ false)
      × (in_shape nbhd radius dr dc ≡ true)
      × (resolve g (pos p.0 +ℤ dr) (pos p.1 +ℤ dc) ≡ some a)
      × (pair_eq a p ≡ false)

  mem-push_cell :
      (a : Cell) (o : Option Cell) (out : List Cell)
      → (a ∈ push_cell g p nbhd radius o out) ↔ ((a ∈ out) ⊎ (o ≡ some a) × (pair_eq a p ≡ false))
  unfolding push_cell
  mem-push_cell a none out = (λ m. inl m, λ m. elim m [ inl x ↦ x | inr x ↦ cc ])
  mem-push_cell a (some b) out = elim (Bool-cases (pair_eq b p)) [
    | inl e ↦ rw e (
      λ m. inl m,
      λ m. elim m [
        | inl x ↦ x
        | inr x ↦ let same : b ≡ a = some_inj x.0 in absurd (clash a b same e x.1)
      ],
    )
    | inr e ↦ rw e (
      λ m. elim (mem-append_cases a out (b ∷ []) m) [
        | inl x ↦ inl x
        | inr (inl x) ↦ inr (ap some (sym x), rw x e)
        | inr (inr x) ↦ absurd x
      ],
      λ m. elim m [
        | inl x ↦ mem-append_left a out (b ∷ []) x
        | inr x ↦ mem-append_right a out (b ∷ []) (inl (sym (some_inj x.0)))
      ],
    )
  ]
    where
      clash : (a b : Cell) → b ≡ a → pair_eq b p ≡ true → pair_eq a p ≡ false → ⊥
      clash a b same e f = cc

  mem-visit :
      (a : Cell) (dr dc : ℤ) (out : List Cell)
      → (a ∈ visit g p nbhd radius dr dc out) ↔ ((a ∈ out) ⊎ Hit dr dc a)
  unfolding visit
  mem-visit a dr dc out = elim (Bool-cases (is_center dr dc)) [
    | inl e ↦ rw e (λ m. inl m, λ m. elim m [ inl x ↦ x | inr x ↦ cc ])
    | inr e ↦ elim (Bool-cases (in_shape nbhd radius dr dc)) [
      | inl f ↦
          let step = mem-push_cell a (resolve g (pos p.0 +ℤ dr) (pos p.1 +ℤ dc)) out in
          rw (e, f)
            (
              λ m. elim (step.0 m) [ inl x ↦ inl x | inr x ↦ inr (refl, refl, x.0, x.1) ],
              λ m. step.1 (elim m [ inl x ↦ inl x | inr x ↦ inr (x.2, x.3) ]),
            )
      | inr f ↦ rw (e, f) (λ m. inl m, λ m. elim m [ inl x ↦ x | inr x ↦ cc ])
    ]
  ]

  mem-scan_cols :
      (a : Cell) (dr : ℤ) (dcs : List ℤ) (out : List Cell)
      → (a ∈ scan_cols g p nbhd radius dr dcs out)
        ↔ ((a ∈ out) ⊎ ((dc : ℤ) × (dc ∈ dcs) × Hit dr dc a))
  unfolding scan_cols
  mem-scan_cols a dr [] out = (λ m. inl m, λ m. elim m [ inl x ↦ x | inr (dc, n, x) ↦ absurd n ])
  mem-scan_cols a dr (dc ∷ dcs) out =
      let rest = mem-scan_cols a dr dcs (visit g p nbhd radius dr dc out) in
      let first = mem-visit a dr dc out in
      (
        λ m. elim (rest.0 m) [
          | inl x ↦ elim (first.0 x) [ inl y ↦ inl y | inr y ↦ inr (dc, inl refl, y) ]
          | inr (d, n, x) ↦ inr (d, inr n, x)
        ],
        λ m. rest.1 (elim m [
          | inl x ↦ inl (first.1 (inl x))
          | inr (d, inl n, x) ↦ inl (first.1 (inr (rw n at x)))
          | inr (d, inr n, x) ↦ inr (d, n, x)
        ]),
      )

  mem-scan_rows :
      (a : Cell) (drs dcs : List ℤ) (out : List Cell)
      → (a ∈ scan_rows g p nbhd radius drs dcs out)
        ↔ ((a ∈ out) ⊎ ((dr dc : ℤ) × (dr ∈ drs) × (dc ∈ dcs) × Hit dr dc a))
  unfolding scan_rows
  mem-scan_rows a [] dcs out =
      (λ m. inl m, λ m. elim m [ inl x ↦ x | inr (dr, dc, n, k, x) ↦ absurd n ])
  mem-scan_rows a (dr ∷ drs) dcs out =
      let rest = mem-scan_rows a drs dcs (scan_cols g p nbhd radius dr dcs out) in
      let first = mem-scan_cols a dr dcs out in
      (
        λ m. elim (rest.0 m) [
          | inl x ↦ elim (first.0 x) [
            | inl y ↦ inl y
            | inr (dc, k, y) ↦ inr (dr, dc, inl refl, k, y)
          ]
          | inr (d, dc, n, k, x) ↦ inr (d, dc, inr n, k, x)
        ],
        λ m. rest.1 (elim m [
          | inl x ↦ inl (first.1 (inl x))
          | inr (d, dc, inl n, k, x) ↦ inl (first.1 (inr (dc, k, (rw n at x))))
          | inr (d, dc, inr n, k, x) ↦ inr (d, dc, n, k, x)
        ]),
      )

  -- A cell is listed exactly if some offset in the loops' range adds it.
  pub mem-neighbors_radius_iff_Hit :
      (a : Cell)
      → 0 < radius
      → is_empty g ≡ false
      → (a ∈ neighbors_radius g p nbhd radius)
        ↔ ((dr dc : ℤ) × (dr ∈ offsets radius) × (dc ∈ offsets radius) × Hit dr dc a)
  unfolding neighbors_radius
  mem-neighbors_radius_iff_Hit a h e =
      let all = scan_rows g p nbhd radius (offsets radius) (offsets radius) [] in
      let spread_out = mem-scan_rows a (offsets radius) (offsets radius) [] in
      let nonzero : (radius == 0) ≡ false = ground arith in
      rw (nonzero, e)
        (
          λ m.
              elim (spread_out.0
                ((mem-sort pair_ord a all).0 ((mem-dedup pair_ord a (sort pair_ord all)).0 m))) [
                  | inl x ↦ absurd x
                  | inr x ↦ x
                ],
          λ m.
              (mem-dedup pair_ord a (sort pair_ord all)).1
                ((mem-sort pair_ord a all).1 (spread_out.1 (inr m))),
        )

  -- The list is in strictly ascending row-major order, so it holds no cell twice.
  pub neighbors_radius-IsStrictlySorted :
      IsStrictlySorted pair_ord (neighbors_radius g p nbhd radius)
  unfolding neighbors_radius
  neighbors_radius-IsStrictlySorted = elim (Bool-cases (radius == 0 || is_empty g)) [
    | inl e ↦ rw e tt
    | inr e ↦ rw e (dedup-IsStrictlySorted pair_ord _ (sort-IsSorted pair_ord _))
  ]
