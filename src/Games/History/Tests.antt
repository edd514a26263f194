-- ===== src/Games/History/Tests.antt =====
-- Two agents over three steps, in a history of two.
use rs_social_simulation_too.Prelude.{
  ℕ, ◌<◌, ◌≤◌, ◌≡◌, refl, arith, none, some, List, [], ◌∷◌, min, length,
}
use rs_social_simulation_too.Prelude.{recent}
use rs_social_simulation_too.Prelude.{Option}
use rs_social_simulation_too.Core.{AgentId}
use rs_social_simulation_too.Games.History.{
  StepRecord, StepHistory, HistoryView, new, view, iter, len, last, last_of,
}
use rs_social_simulation_too.Games.History.Told.{told}
use rs_social_simulation_too.Games.History.View.{record_all, view-record_all}

abbrev paid : ℕ → StepRecord ℕ ℕ
paid payoff = record { action = none; payoff = payoff; n_played = 1 }

abbrev played : ℕ → ℕ → StepRecord ℕ ℕ
played action payoff = record { action = some action; payoff = payoff; n_played = 1 }

abbrev steps : List (List (StepRecord ℕ ℕ) × List (AgentId × Option ℕ))
steps =
    (paid 3 ∷ paid 4 ∷ [], (0, some 0) ∷ (1, some 1) ∷ [])
    ∷ (paid 5 ∷ paid 6 ∷ [], (1, none) ∷ (1, some 1) ∷ (1, some 0) ∷ [])
    ∷ (paid 7 ∷ paid 8 ∷ [], (1, some 0) ∷ (0, some 1) ∷ [])
    ∷ []

last_two : recent 2 (told 1 steps) ≡ played 1 6 ∷ played 0 8 ∷ []
last_two = refl

view-record_all_example :
    (h : StepHistory ℕ ℕ) × (record_all (new 0 2 2) steps ≡ some h)
    × (1 < 2
        → (v : HistoryView (StepRecord ℕ ℕ)) × (view h 1 ≡ some v)
          × (iter v ≡ recent 2 (told 1 steps))
          × (len v ≡ min (length (told 1 steps)) 2)
          × (last v ≡ last_of (told 1 steps)))
    × (2 ≤ 1 → view h 1 ≡ none)
view-record_all_example = view-record_all 0 2 2 steps 1 (omega arith) (
  (refl, (omega arith, (omega arith, tt))),
  (
    (refl, (omega arith, (omega arith, (omega arith, tt)))),
    ((refl, (omega arith, (omega arith, tt))), tt),
  ),
)
