-- ===== src/Engine/Scheduling.antt =====
-- The two schedulers of crates/socsim-engine/src/lib.rs. `shuffle` is the `rand` crate's, which
-- permutes a slice; the type of random streams is a parameter.
use mathlib.Core.List.{Perm}
use rs_social_simulation_too.Prelude.{List}
use rs_social_simulation_too.Prelude.Sort.{sort}
use rs_social_simulation_too.Prelude.Sort.Numbers.{nat_ord}
use rs_social_simulation_too.Core.{AgentId, WorldState}

-- `SliceRandom::shuffle` for a type of random streams.
pub record Shuffle (R : Type 0) : Type 0 where
  pub shuffle : List AgentId → R → List AgentId × R
  pub shuffle-perm : (ids : List AgentId) (rng : R) → Perm (shuffle ids rng).0 ids

module _ {W R : Type 0} (ws : WorldState W) where
  -- `SequentialScheduler::activation_order`.
  pub sequential_order : W → R → List AgentId × R
  unfolding sort
  sequential_order w rng = (sort nat_ord (ws.agent_ids w), rng)

  -- `RandomActivationScheduler::activation_order`.
  pub random_order : Shuffle R → W → R → List AgentId × R
  random_order s w rng = s.shuffle (ws.agent_ids w) rng
