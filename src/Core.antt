-- ===== src/Core.antt =====
-- The types of crates/socsim-core/src/lib.rs that the engine drives: clock, phases, errors, worlds,
-- the step context, and the step-scoped blackboard. A recorder is any type of the caller's; a world
-- and a mechanism are given by their trait's methods.
pub mod Blackboard
mod Tests
use Prim.Native.String.{String}
use rs_social_simulation_too.Prelude.{ℕ, ◌+◌, ◌%◌, ◌^◌, ◌≡◌, Bool, true, false, ◌||◌, leb, List, []}
use rs_social_simulation_too.Prelude.{◌∷◌, Option, none, some}
use Blackboard.{Blackboard as Board}

abbrev pub AgentId : Type 0
AgentId = ℕ

-- The values of `u64`.
abbrev pub u64_mod : ℕ
u64_mod = 2 ^ 64

pub record SimClock : Type 0 where
  pub t : ℕ
  pub t_max : ℕ

abbrev pub new_clock : ℕ → SimClock
new_clock t_max = record { t = 0; t_max = t_max }

abbrev pub is_done : SimClock → Bool
is_done c = leb c.t_max c.t

-- `self.t += 1`, which wraps round in a build without overflow checks.
abbrev pub tick : SimClock → SimClock
tick c = record c { t = (c.t + 1) % u64_mod }

pub data Phase : Type 0 where
  pre_step environment decision interaction reward post_step : Phase

-- `Phase::ORDER`.
abbrev pub order : List Phase
order = pre_step ∷ environment ∷ decision ∷ interaction ∷ reward ∷ post_step ∷ []

abbrev pub phase_eq : Phase → Phase → Bool
phase_eq pre_step pre_step = true
phase_eq environment environment = true
phase_eq decision decision = true
phase_eq interaction interaction = true
phase_eq reward reward = true
phase_eq post_step post_step = true
phase_eq _ _ = false

-- `slice::contains`.
unfoldable pub contains : List Phase → Phase → Bool
contains [] p = false
contains (q ∷ qs) p = phase_eq q p || contains qs p

pub data SocsimError : Type 0 where
  config : String → SocsimError
  mechanism : String → SocsimError
  unknown_mechanism : String → SocsimError
  snapshot : String → SocsimError

pub data Result (A : Type 0) : Type 0 where
  ok : A → Result A
  err : SocsimError → Result A

-- The trait `WorldState`. A mutable reference to the clock reads and writes what `clock` reads.
pub record WorldState (W : Type 0) : Type 0 where
  pub agent_ids : W → List AgentId
  pub clock : W → SimClock
  pub set_clock : W → SimClock → W
  pub clock-set_clock : (w : W) (c : SimClock) → clock (set_clock w c) ≡ c

-- What a mechanism may read and change. `Any` is the type of the values on the blackboard.
pub record StepContext (W R Rec Any : Type 0) : Type 0 where
  pub world : W
  pub clock : SimClock
  pub rng : R
  pub recorder : Rec
  pub agent_order : List AgentId
  pub scratch : Board Any
  pub stop : Bool

-- `StepContext::request_stop`.
unfoldable pub request_stop :
    {W R Rec Any : Type 0} → StepContext W R Rec Any → StepContext W R Rec Any
request_stop c = record c { stop = true }

-- The trait `Mechanism`, for a type of mechanisms: what a call changes, in the mechanism and in the
-- context, stays changed when the call fails.
pub record Mechanisms (W R Rec Any M : Type 0) : Type 0 where
  pub phases : M → List Phase
  pub apply : M → Phase → StepContext W R Rec Any → Result Unit × M × StepContext W R Rec Any

-- The trait `Scheduler`, for a type of schedulers.
pub record Scheduler (W R S : Type 0) : Type 0 where
  pub activation_order : S → W → R → List AgentId × S × R
