-- ===== src/Games/Matching.antt =====
-- The matchings of crates/socsim-games/src/matching that need no topology: `FixedPlayers`,
-- `RandomPairs`, `RandomGroups` and `WholePopulation`. An error's text is replaced by a constructor with the numbers in
-- it. Of the context, a matching reads the game's number of roles and the agents.
pub mod Groups
pub mod Fixed
use rs_social_simulation_too.Prelude.{ℕ, zero, suc, ◌%◌, Bool, true, false, not, ltb, leb, ◌==◌}
use rs_social_simulation_too.Prelude.{
  if◌then◌else◌, Option, none, some, List, [], ◌∷◌, ◌++◌, length,
}
use rs_social_simulation_too.Prelude.{get_elem?, set, take, drop, replicate}
use rs_social_simulation_too.Prelude.Sort.{sort}
use rs_social_simulation_too.Prelude.Sort.Numbers.{nat_ord}
use rs_social_simulation_too.Core.{AgentId}
use rs_social_simulation_too.Engine.Scheduling.{Shuffle}
use rs_social_simulation_too.Games.Arena.{PlayArena, PushReply, pushed, Credit, all, push}

-- `GameError::InvalidMatching`.
pub data Fault : Type 0 where
  two_roles_required : Fault
  unknown_agent repeated_agent : AgentId → Fault
  group_too_small : Fault
  group_mismatch roles_mismatch : ℕ → ℕ → Fault

pub data Check (A : Type 0) : Type 0 where
  ok : A → Check A
  invalid : Fault → Check A

pub record MatchContext : Type 0 where
  pub n_roles : ℕ
  pub ids : List AgentId

pub record EncounterBounds : Type 0 where
  pub min : ℕ
  pub max : ℕ

-- What `encounters_into` replies: success, or the error of the push that failed.
pub data Reply : Type 0 where
  success : Reply
  refused : PushReply → Reply

abbrev pub two_roles : MatchContext → Check Unit
two_roles ctx = if ctx.n_roles == 2 then ok tt else invalid two_roles_required

-- `FixedPlayers`.
pub record FixedPlayers : Type 0 where
  pub pairs : List (AgentId × AgentId)

unfoldable pub agents_of : List (AgentId × AgentId) → List AgentId
agents_of [] = []
agents_of ((left, right) ∷ ps) = left ∷ right ∷ agents_of ps

abbrev pub mark : Option Bool → AgentId → (Check Unit) → Check Unit
mark none agent rest = invalid (unknown_agent agent)
mark (some true) agent rest = invalid (repeated_agent agent)
mark (some false) agent rest = rest

-- The two nested loops visit the agents of all pairs in order, and mark each in `seen`.
unfoldable pub mark_all : List Bool → List AgentId → Check Unit
mark_all seen [] = ok tt
mark_all seen (agent ∷ agents) =
    mark (get_elem? seen agent) agent (mark_all (set seen agent true) agents)

unfoldable pub check_fixed : FixedPlayers → MatchContext → Check Unit
unfolding mark_all agents_of
check_fixed m ctx =
    let marked = mark_all (replicate (length ctx.ids) false) (agents_of m.pairs) in
    if ctx.n_roles == 2 then marked else invalid two_roles_required

unfoldable pub pair_seats : List (AgentId × AgentId) → List (List AgentId)
pair_seats [] = []
pair_seats ((left, right) ∷ ps) = (left ∷ right ∷ []) ∷ pair_seats ps

module _ {A F : Type 0} (nothing : F) where
  abbrev pub after_push :
      PushReply × PlayArena A F → (PlayArena A F → Reply × PlayArena A F) → Reply × PlayArena A F
  after_push (pushed id, b) rest = rest b
  after_push (r, b) rest = (refused r, b)

  -- The loop that pushes one encounter after another, all seats credited; an error ends it.
  unfoldable pub push_all : PlayArena A F → List (List AgentId) → Reply × PlayArena A F
  push_all a [] = (success, a)
  push_all a (g ∷ gs) = after_push (push nothing a g all) (λ b. push_all b gs)

  unfoldable pub fixed_into : FixedPlayers → PlayArena A F → Reply × PlayArena A F
  unfolding push_all pair_seats
  fixed_into m a = push_all a (pair_seats m.pairs)

-- `RandomGroups::new`: the size of the groups.
abbrev pub new_groups : ℕ → Check ℕ
new_groups k = if ltb k 2 then invalid group_too_small else ok k

abbrev pub check_groups : ℕ → MatchContext → Check Unit
check_groups k ctx = if ctx.n_roles == k then ok tt else invalid (group_mismatch k ctx.n_roles)

abbrev pub supports_roles : ℕ → ℕ → Bool
supports_roles k n_roles = n_roles == k

-- An agent sits out only where the groups do not come out even.
abbrev pub group_bounds : ℕ → MatchContext → EncounterBounds
group_bounds k ctx =
    if length ctx.ids % k == 0 then record { min = 1; max = 1 } else record { min = 0; max = 1 }

-- `chunks_exact`: the groups of `k`, without a shorter rest. The list's length is enough fuel.
unfoldable pub chunks_from : ℕ → ℕ → List AgentId → List (List AgentId)
chunks_from zero k xs = []
chunks_from (suc fuel) k xs =
    let rest = chunks_from fuel k (drop k xs) in if leb k (length xs) then take k xs ∷ rest else []

abbrev pub chunks_exact : ℕ → List AgentId → List (List AgentId)
chunks_exact k xs = chunks_from (length xs) k xs

module _ {A F R : Type 0} (nothing : F) (s : Shuffle R) where
  unfoldable pub groups_into : ℕ → MatchContext → R → PlayArena A F → (Reply × PlayArena A F) × R
  unfolding push_all chunks_from
  groups_into k ctx rng a =
      let (ids, rng') = s.shuffle ctx.ids rng in (push_all nothing a (chunks_exact k ids), rng')

  -- `RandomPairs`, whose `as_chunks::<2>().0` are the pairs without a single rest.
  abbrev pub pairs_into : MatchContext → R → PlayArena A F → (Reply × PlayArena A F) × R
  pairs_into = groups_into 2

-- `WholePopulation`.
abbrev pub check_whole : MatchContext → Check Unit
check_whole ctx =
    if ctx.n_roles == length ctx.ids
    then ok tt
    else invalid (roles_mismatch ctx.n_roles (length ctx.ids))

unfoldable pub whole_into :
    {A F : Type 0} → F → MatchContext → PlayArena A F → Reply × PlayArena A F
unfolding push_all sort
whole_into nothing ctx a = push_all nothing a (sort nat_ord ctx.ids ∷ [])
