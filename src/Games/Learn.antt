-- ===== src/Games/Learn.antt =====
-- Learning rules of crates/socsim-games/src/learn: the errors and the sampling of learn/mod.rs here, the
-- automata of learn/automaton.rs in the child module. `f64` and the draw of the `rand` crate are
-- parameters, with what the code relies on.
pub mod Automaton
pub mod Sampling
pub mod Observing
pub mod Strategies
mod Tests
use rs_social_simulation_too.Prelude.{
  ℕ, zero, suc, ◌+◌, ◌≡◌, Bool, true, false, not, ◌||◌, ◌&&◌, ◌==◌,
}
use rs_social_simulation_too.Prelude.{
  if◌then◌else◌, Option, none, some, List, [], ◌∷◌, length, get_elem?,
}

-- `f64` with the operations of the learning rules. Adding a weight that is valid and not positive, so a
-- zero, leaves every number above no further draw than it was.
pub record Weights : Type 1 where
  pub Float : Type 0
  pub nil : Float
  pub unit : Float
  pub is_finite : Float → Bool
  pub lt : Float → Float → Bool
  pub le : Float → Float → Bool
  pub eq : Float → Float → Bool
  pub add : Float → Float → Float
  pub sub : Float → Float → Float
  pub add_zero :
      (c v d : Float)
      → is_finite v ≡ true
      → lt v nil ≡ false
      → lt nil v ≡ false
      → lt d (add c v) ≡ true
      → lt d c ≡ true

-- The errors that this code reports.
pub data LearnError (F : Type 0) : Type 0 where
  invalid_cooperation_action : ℕ → LearnError F
  invalid_parameter : F → LearnError F
  invalid_action : ℕ → ℕ → LearnError F
  invalid_probability : ℕ → F → LearnError F
  empty_probability_mass : LearnError F

pub data LearnResult (F A : Type 0) : Type 0 where
  ok : A → LearnResult F A
  err : LearnError F → LearnResult F A

-- `rng.gen::<f64>()`, which lies in [0, 1).
pub record Draw (w : Weights) (R : Type 0) : Type 0 where
  pub draw : R → w.Float × R
  pub draw_not_negative : (r : R) → w.lt (draw r).0 w.nil ≡ false

module _ (w : Weights) where
  open w use {Float, nil, is_finite, lt, add}

  abbrev pub is_invalid : Float → Bool
  is_invalid v = not (is_finite v) || lt v nil

  -- The first loop: the last index of positive weight.
  unfoldable pub check_weights : ℕ → Option ℕ → List Float → LearnResult Float (Option ℕ)
  check_weights i last_positive [] = ok last_positive
  check_weights i last_positive (v ∷ vs) =
      let rest = check_weights (i + 1) (if lt nil v then some i else last_positive) vs in
      if is_invalid v then err (invalid_probability i v) else rest

  -- The second loop.
  unfoldable pub pick : Float → Float → ℕ → ℕ → List Float → ℕ
  pick d cumulative last_positive i [] = last_positive
  pick d cumulative last_positive i (v ∷ vs) =
      let rest = pick d (add cumulative v) last_positive (i + 1) vs in
      if lt d (add cumulative v) then i else rest

  module _ {R : Type 0} (rng : Draw w R) where
    abbrev pub pick_checked :
        List Float → R → LearnResult Float (Option ℕ) → LearnResult Float ℕ × R
    pick_checked probabilities r (err e) = (err e, r)
    pick_checked probabilities r (ok none) = (err empty_probability_mass, r)
    pick_checked probabilities r (ok (some last_positive)) =
        (ok (pick (rng.draw r).0 nil last_positive 0 probabilities), (rng.draw r).1)

    unfoldable pub sample_probabilities : List Float → R → LearnResult Float ℕ × R
    unfolding check_weights pick
    sample_probabilities probabilities r =
        pick_checked probabilities r (check_weights 0 none probabilities)
