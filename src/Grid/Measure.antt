-- ===== src/Grid/Measure.antt =====
-- Distances of crates/socsim-grid/src/lib.rs: `Metric::distance` and the wrap-aware
-- `Grid::distance`. `f64` is a parameter, with what the crate relies on of comparisons. The squares of a Euclidean distance are the code's where
-- their sum is below 2 ^ 64.
use rs_social_simulation_too.Prelude.{ℕ, ◌+◌, ◌*◌, ◌≡◌, Bool, true, false, max}
use rs_social_simulation_too.Grid.{Grid, Cell, Metric, chebyshev, manhattan, euclidean, separation}
use rs_social_simulation_too.Grid.{abs_diff}

-- `f64`. A number is a value that is not NaN; `of_usize` is the cast `as f64`.
pub record Floats : Type 1 where
  pub Float : Type 0
  pub of_usize : ℕ → Float
  pub sqrt : Float → Float
  pub lt : Float → Float → Bool
  pub IsNumber : Float → Type 0
  pub of_usize-IsNumber : (n : ℕ) → IsNumber (of_usize n)
  pub sqrt-IsNumber : (n : ℕ) → IsNumber (sqrt (of_usize n))
  pub lt_irrefl : (a : Float) → IsNumber a → lt a a ≡ false
  pub lt_trans :
      (a b c : Float)
      → IsNumber a
      → IsNumber b
      → IsNumber c
      → lt a b ≡ true
      → lt b c ≡ true
      → lt a c ≡ true
  pub not_lt_trans :
      (a b c : Float)
      → IsNumber a
      → IsNumber b
      → IsNumber c
      → lt a b ≡ false
      → lt b c ≡ false
      → lt a c ≡ false

module _ (f : Floats) where
  open f use {Float, of_usize, sqrt, IsNumber, of_usize-IsNumber, sqrt-IsNumber}

  unfoldable pub combine : Metric → ℕ → ℕ → Float
  combine chebyshev dr dc = of_usize (max dr dc)
  combine manhattan dr dc = of_usize (dr + dc)
  combine euclidean dr dc = sqrt (of_usize (dr * dr + dc * dc))

  -- `Metric::distance`, on the infinite plane.
  unfoldable pub plane_distance : Metric → Cell → Cell → Float
  unfolding combine
  plane_distance m a b = combine m (abs_diff a.0 b.0) (abs_diff a.1 b.1)

  -- `Grid::distance`.
  unfoldable pub distance : Grid → Metric → Cell → Cell → Float
  unfolding combine
  distance g m a b =
      combine m (separation g.boundary a.0 b.0 g.rows) (separation g.boundary a.1 b.1 g.cols)

  pub distance-IsNumber : (g : Grid) (m : Metric) (a b : Cell) → IsNumber (distance g m a b)
  unfolding distance
  distance-IsNumber g chebyshev a b = of_usize-IsNumber _
  distance-IsNumber g manhattan a b = of_usize-IsNumber _
  distance-IsNumber g euclidean a b = sqrt-IsNumber _
