-- ===== src/Games/Pairs/Tests.antt =====
-- Two agents that meet three times, in a history of two.
use rs_social_simulation_too.Prelude.{ℕ, ◌≡◌, refl, arith, some, List, [], ◌∷◌, min, length, recent}
use rs_social_simulation_too.Games.Pairs.{PairHistory, new, view, view_len, iter}
use rs_social_simulation_too.Games.Pairs.Refinement.{
  Encounter, push_each, seen, iter-view-push_each,
}

abbrev meetings : List (Encounter ℕ)
meetings =
    record { t = 1; first = 4; second = 2; first_action = 0; second_action = 1 }
    ∷ record { t = 2; first = 2; second = 4; first_action = 1; second_action = 1 }
    ∷ record { t = 2; first = 3; second = 4; first_action = 0; second_action = 0 }
    ∷ record { t = 3; first = 4; second = 2; first_action = 1; second_action = 0 }
    ∷ []

last_two : recent 2 (seen 2 4 meetings) ≡ (2, 1, 1) ∷ (3, 0, 1) ∷ []
last_two = refl

iter-view-push_each_example :
    (h : PairHistory ℕ) × (push_each (new 2) meetings ≡ some h)
    × (iter (view h 2 4) ≡ some (recent 2 (seen 2 4 meetings)))
    × (view_len (view h 2 4) ≡ min (length (seen 2 4 meetings)) 2)
iter-view-push_each_example = iter-view-push_each 2 meetings 2 4 (omega arith)
