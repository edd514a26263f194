-- ===== src/Games/Arena.antt =====
-- `PlayArena` and `ArenaWriter` of crates/socsim-games/src/world/arena.rs. Each encounter has a seat
-- for each role; the seats, actions and payoffs of all encounters stand in three flat lists. Payoffs
-- are of any type with a zero. `usize` is unbounded here.
pub mod Laws
use rs_social_simulation_too.Prelude.{
  ℕ, ◌+◌, ◌*◌, ◌-◌, ◌^◌, Bool, ◌&&◌, leb, ◌==◌, if◌then◌else◌, not,
}
use rs_social_simulation_too.Prelude.{Option, none, some, List, [], ◌∷◌, ◌++◌, length, get_elem?}
use rs_social_simulation_too.Prelude.{slice, replicate}
use rs_social_simulation_too.Core.{AgentId}

pub data Credit : Type 0 where
  all center : Credit

pub record EncounterRef : Type 0 where
  pub id : ℕ
  pub seats : List AgentId
  pub credit : Credit

pub record PlayArena (A F : Type 0) : Type 0 where
  pub n_roles : ℕ
  pub seats : List AgentId
  pub credit : List Credit
  pub actions : List (Option A)
  pub payoffs : List F

-- What `push` replies: the number of the encounter, or one of its two errors, with their numbers.
pub data PushReply : Type 0 where
  pushed : ℕ → PushReply
  wrong_seats : ℕ → ℕ → PushReply
  too_many : PushReply

abbrev pub u32_max : ℕ
u32_max = 2 ^ 32 - 1

-- `get(start..end)` of a slice.
abbrev pub get_range : {T : Type 0} → List T → ℕ → ℕ → Option (List T)
get_range xs start end =
    if leb start end && leb end (length xs) then some (slice start end xs) else none

abbrev pub seated : ℕ → Option (List AgentId) → Option Credit → Option EncounterRef
seated id (some seats) (some credit) = some (record { id = id; seats = seats; credit = credit })
seated id _ _ = none

module _ {A F : Type 0} where
  abbrev pub new : ℕ → PlayArena A F
  new n = record { n_roles = n; seats = []; credit = []; actions = []; payoffs = [] }

  abbrev pub clear : PlayArena A F → PlayArena A F
  clear a = record a { seats = []; credit = []; actions = []; payoffs = [] }

  abbrev pub n_encounters : PlayArena A F → ℕ
  n_encounters a = length a.credit

  unfoldable pub encounter : PlayArena A F → ℕ → Option EncounterRef
  encounter a id =
      let start = id * a.n_roles in
      seated id (get_range a.seats start (start + a.n_roles)) (get_elem? a.credit id)

  unfoldable pub actions_of : PlayArena A F → ℕ → Option (List (Option A))
  actions_of a id = let start = id * a.n_roles in get_range a.actions start (start + a.n_roles)

  unfoldable pub payoffs_of : PlayArena A F → ℕ → Option (List F)
  payoffs_of a id = let start = id * a.n_roles in get_range a.payoffs start (start + a.n_roles)

  -- `ArenaWriter::push`, where `nothing` is the payoff `0.0`.
  unfoldable pub push : F → PlayArena A F → List AgentId → Credit → PushReply × PlayArena A F
  push nothing a seats credit =
      if not (length seats == a.n_roles)
      then (wrong_seats (length seats) a.n_roles, a)
      else if leb (n_encounters a) u32_max
      then (
        pushed (n_encounters a),
        record a {
          seats = a.seats ++ seats;
          credit = a.credit ++ (credit ∷ []);
          actions = a.actions ++ replicate a.n_roles none;
          payoffs = a.payoffs ++ replicate a.n_roles nothing;
        },
      )
      else (too_many, a)
