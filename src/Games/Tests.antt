-- ===== src/Games/Tests.antt =====
-- A small arena with two roles.
use rs_social_simulation_too.Prelude.{ℕ, ◌≡◌, refl, none, [], ◌∷◌, arith, ◌<◌}
use rs_social_simulation_too.Games.Arena.{PlayArena, new, push, all, center}
use rs_social_simulation_too.Games.Arena.Laws.{IsValid, Pushes, push-Pushes}
use rs_social_simulation_too.Prelude.{◌+◌, ◌*◌, ◌/◌, ◌++◌, ◌↔◌, All, length, take}
use mathlib.Core.List.Perm
use rs_social_simulation_too.Engine.Scheduling.{Shuffle}
use rs_social_simulation_too.Games.Arena.{n_encounters}
use rs_social_simulation_too.Games.Matching.{
  MatchContext, FixedPlayers, check_fixed, mark_all, agents_of,
}
use rs_social_simulation_too.Games.Matching.{
  ok, invalid, repeated_agent, success, fixed_into, groups_into,
}
use rs_social_simulation_too.Games.Matching.Fixed.{Distinct, check_fixed_iff}
use rs_social_simulation_too.Games.Matching.Groups.{fixed_into-Seated, groups_into-Seated}

abbrev one_pair : PlayArena ℕ ℕ
one_pair = record {
  n_roles = 2;
  seats = 4 ∷ 7 ∷ [];
  credit = all ∷ [];
  actions = none ∷ none ∷ [];
  payoffs = 0 ∷ 0 ∷ [];
}

first_pair : (push 0 (new 2) (4 ∷ 7 ∷ []) all).1 ≡ one_pair
unfolding push
first_pair = refl

one_pair-IsValid : IsValid one_pair
one_pair-IsValid = record { seats = refl; actions = refl; payoffs = refl }

push-Pushes_example : Pushes 0 one_pair (3 ∷ 1 ∷ []) center (push 0 one_pair (3 ∷ 1 ∷ []) center)
push-Pushes_example = push-Pushes 0 one_pair (3 ∷ 1 ∷ []) center one_pair-IsValid

abbrev context : MatchContext
context = record { n_roles = 2; ids = 0 ∷ 1 ∷ 2 ∷ 3 ∷ 4 ∷ [] }

abbrev players : FixedPlayers
players = record { pairs = (3, 0) ∷ (1, 4) ∷ [] }

repeated :
    check_fixed (record { pairs = (3, 0) ∷ (1, 3) ∷ [] }) context ≡ invalid (repeated_agent 3)
unfolding check_fixed mark_all agents_of
repeated = refl

check_fixed_iff_example : (check_fixed players context ≡ ok tt) ↔ (
    All (λ a. a < length context.ids) (agents_of players.pairs)
    × Distinct (agents_of players.pairs))
check_fixed_iff_example = check_fixed_iff players context refl

abbrev empty_arena : PlayArena ℕ ℕ
empty_arena = new 2

fixed_into-Seated_example :
    (b : PlayArena ℕ ℕ) × (fixed_into 0 players empty_arena ≡ (success, b))
    × (b.seats ≡ [] ++ agents_of players.pairs)
    × (n_encounters b ≡ n_encounters empty_arena + 2)
fixed_into-Seated_example = fixed_into-Seated 0 players empty_arena refl (omega arith)

-- A shuffle that leaves the slice as it is.
abbrev unshuffled : Shuffle ℕ
unshuffled = record { shuffle = λ ids r. (ids, r + 1); shuffle-perm = λ ids r. Perm.refl ids }

groups_into-Seated_example :
    (b : PlayArena ℕ ℕ) × (groups_into 0 unshuffled 2 context 7 empty_arena ≡ ((success, b), 8))
    × (n_encounters b ≡ 5 / 2)
    × (b.seats ≡ take (5 / 2 * 2) (0 ∷ 1 ∷ 2 ∷ 3 ∷ 4 ∷ []))
groups_into-Seated_example =
    groups_into-Seated 0 unshuffled 2 context 7 empty_arena (omega arith) refl refl refl
      (omega arith)
