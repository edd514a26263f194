-- ===== src/Games/Learn/Tests.antt =====
-- Automata and sampling with numbers in place of `f64`.
use rs_social_simulation_too.Prelude.{
  ℕ, ◌+◌, ◌-◌, ◌≡◌, refl, arith, true, ltb, leb, ◌==◌, some, List, [],
}
use rs_social_simulation_too.Prelude.{◌∷◌, set, replicate}
use rs_social_simulation_too.Games.Learn.{Weights, Draw, ok, sample_probabilities}
use rs_social_simulation_too.Games.Learn.Automaton.{
  AutomatonState, wsls, grim, new, next_action, next_action_probabilities,
}
use rs_social_simulation_too.Games.Learn.Observing.{Round, observe_all, state_after}
use rs_social_simulation_too.Games.Learn.Sampling.{Samples, sample_probabilities-Samples}
use rs_social_simulation_too.Games.Learn.Strategies.{Plays, prescribed, next_action-Plays}
use rs_social_simulation_too.Games.Learn.Strategies.{next_action_probabilities-next_action}

abbrev counts : Weights
counts = record {
  Float = ℕ;
  nil = 0;
  unit = 1;
  is_finite = λ x. true;
  lt = ltb;
  le = leb;
  eq = ◌==◌;
  add = ◌+◌;
  sub = ◌-◌;
  add_zero = λ c v d f n p below. ground (arith, n, p, below);
}

-- A stream that gives its own position.
abbrev positions : Draw counts ℕ
positions = record { draw = λ r. (r, r + 1); draw_not_negative = λ r. ground arith }

sample_probabilities-Samples_example :
    Samples counts positions
      (0 ∷ 4 ∷ 2 ∷ [])
      3
      (sample_probabilities counts positions (0 ∷ 4 ∷ 2 ∷ []) 3)
sample_probabilities-Samples_example =
    sample_probabilities-Samples counts positions (0 ∷ 4 ∷ 2 ∷ []) 3

abbrev rounds : List Round
rounds = (0, 1) ∷ (1, 1) ∷ []

abbrev wsls_start : AutomatonState ℕ
wsls_start = state_after wsls 0 []

cooperates_again : prescribed counts wsls 0 rounds ≡ some 0
cooperates_again = refl

next_action-Plays_example :
    (s : AutomatonState ℕ) × (observe_all wsls_start rounds ≡ some s)
    × Plays counts positions wsls 0 (prescribed counts wsls 0 rounds) s 5
unfolding new
next_action-Plays_example =
    next_action-Plays counts positions wsls 0 wsls_start rounds 5 refl
      ((omega arith, omega arith), ((omega arith, omega arith), tt))

next_action_probabilities-next_action_example :
    next_action_probabilities counts (state_after grim 0 rounds) ≡ ok (set (replicate 2 0) 1 1)
unfolding next_action
next_action_probabilities-next_action_example =
    next_action_probabilities-next_action counts positions (state_after grim 0 rounds) 1 5 refl
      (omega arith) (omega arith) refl
