-- ===== src/Runner/Product.antt =====
-- `cartesian_product` of crates/socsim-runner/src/lib.rs: the combinations of the values of the axes.
use mathlib.Core.List.{append_assoc, append-nil, map-append}
use rs_social_simulation_too.Prelude.{◌≡◌, refl, sym, ◌∙◌, ap}
use rs_social_simulation_too.Prelude.{List, [], ◌∷◌, ◌++◌, map}
use rs_social_simulation_too.Runner.{Str}

pub record SweepAxis (F : Type 0) : Type 0 where
  pub param_key : Str
  pub values : List F

module _ {F : Type 0} where
  -- The rows that a row becomes.
  unfoldable pub rows_with : List (Str × F) → Str → List F → List (List (Str × F))
  rows_with row key [] = []
  rows_with row key (v ∷ vs) = (row ++ ((key, v) ∷ [])) ∷ rows_with row key vs

  unfoldable pub next_rows : List (List (Str × F)) → SweepAxis F → List (List (Str × F))
  unfolding rows_with
  next_rows [] axis = []
  next_rows (row ∷ rows) axis = rows_with row axis.param_key axis.values ++ next_rows rows axis

  unfoldable pub product_from : List (List (Str × F)) → List (SweepAxis F) → List (List (Str × F))
  unfolding next_rows
  product_from rows [] = rows
  product_from rows (axis ∷ axes) = product_from (next_rows rows axis) axes

  unfoldable pub cartesian_product : List (SweepAxis F) → List (List (Str × F))
  unfolding product_from
  cartesian_product [] = [] ∷ []
  cartesian_product (axis ∷ axes) = product_from ([] ∷ []) (axis ∷ axes)

  -- A value of an axis before each of the combinations of the later axes.
  abbrev pub chosen : Str → List F → List (List (Str × F)) → List (List (Str × F))
  chosen key [] later = []
  chosen key (v ∷ vs) later = map (◌∷◌ (key, v)) later ++ chosen key vs later

  -- The combinations, the first axis outermost.
  abbrev pub choices : List (SweepAxis F) → List (List (Str × F))
  choices [] = [] ∷ []
  choices (axis ∷ axes) = chosen axis.param_key axis.values (choices axes)

  abbrev after_each : List (List (Str × F)) → List (List (Str × F)) → List (List (Str × F))
  after_each [] later = []
  after_each (row ∷ rows) later = map (◌++◌ row) later ++ after_each rows later

  after_each-append :
      (rows rows' later : List (List (Str × F)))
      → after_each (rows ++ rows') later ≡ after_each rows later ++ after_each rows' later
  after_each-append [] rows' later = refl
  after_each-append (row ∷ rows) rows' later =
      ap (◌++◌ (map (◌++◌ row) later)) (after_each-append rows rows' later)
      ∙ sym (append_assoc (map (◌++◌ row) later) (after_each rows later) (after_each rows' later))

  map_row :
      (row : List (Str × F)) (p : Str × F) (later : List (List (Str × F)))
      → map (◌++◌ (row ++ (p ∷ []))) later ≡ map (◌++◌ row) (map (◌∷◌ p) later)
  map_row row p [] = refl
  map_row row p (c ∷ later) =
      let first = append_assoc row (p ∷ []) c in let rest = map_row row p later in cc

  after_each-rows_with :
      (row : List (Str × F)) (key : Str) (vs : List F) (later : List (List (Str × F)))
      → after_each (rows_with row key vs) later ≡ map (◌++◌ row) (chosen key vs later)
  unfolding rows_with
  after_each-rows_with row key [] later = refl
  after_each-rows_with row key (v ∷ vs) later =
      let first = map_row row (key, v) later in
      let rest = after_each-rows_with row key vs later in
      let whole = map-append (◌++◌ row) (map (◌∷◌ (key, v)) later) (chosen key vs later) in cc

  after_each-next_rows :
      (rows : List (List (Str × F))) (axis : SweepAxis F) (later : List (List (Str × F)))
      → after_each (next_rows rows axis) later
        ≡ after_each rows (chosen axis.param_key axis.values later)
  unfolding next_rows
  after_each-next_rows [] axis later = refl
  after_each-next_rows (row ∷ rows) axis later =
      after_each-append (rows_with row axis.param_key axis.values) (next_rows rows axis) later
      ∙ ap (λ (xs : List (List (Str × F))). xs ++ after_each (next_rows rows axis) later)
          (after_each-rows_with row axis.param_key axis.values later)
      ∙ ap (◌++◌ (map (◌++◌ row) (chosen axis.param_key axis.values later)))
          (after_each-next_rows rows axis later)

  after_each_once : (rows : List (List (Str × F))) → after_each rows ([] ∷ []) ≡ rows
  after_each_once [] = refl
  after_each_once (row ∷ rows) = let first = append-nil row in let rest = after_each_once rows in cc

  product_from-choices :
      (rows : List (List (Str × F))) (axes : List (SweepAxis F))
      → product_from rows axes ≡ after_each rows (choices axes)
  unfolding product_from
  product_from-choices rows [] = sym (after_each_once rows)
  product_from-choices rows (axis ∷ axes) =
      product_from-choices (next_rows rows axis) axes
      ∙ after_each-next_rows rows axis (choices axes)

  map_nil : (cs : List (List (Str × F))) → map (◌++◌ []) cs ≡ cs
  map_nil [] = refl
  map_nil (c ∷ cs) = ap (◌∷◌ c) (map_nil cs)

  -- The loop over the axes makes the combinations of the values, one for each choice, with the last axis
  -- varying fastest; without axes it makes the one empty combination.
  pub cartesian_product-choices :
      (axes : List (SweepAxis F)) → cartesian_product axes ≡ choices axes
  unfolding cartesian_product
  cartesian_product-choices [] = refl
  cartesian_product-choices (axis ∷ axes) =
      product_from-choices ([] ∷ []) (axis ∷ axes)
      ∙ append-nil (map (◌++◌ []) (choices (axis ∷ axes)))
      ∙ map_nil (choices (axis ∷ axes))
