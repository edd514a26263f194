-- ===== src/Engine.antt =====
-- The engine of crates/socsim-engine/src/lib.rs: one step, the three loops over it, snapshots and
-- the builder. A call that fails returns the error beside the state that it leaves.
pub mod Time
pub mod Observed
pub mod Snapshot
pub mod Calls
pub mod Scheduling
pub mod Builder
mod Tests
use rs_social_simulation_too.Prelude.{ℕ, zero, suc, Bool, true, false, ◌||◌, ◌≡◌, if◌then◌else◌}
use rs_social_simulation_too.Prelude.{List, [], ◌∷◌, ◌++◌, Option, none, some}
use rs_social_simulation_too.Core.Blackboard
use rs_social_simulation_too.Core.Blackboard.{Blackboard}
use rs_social_simulation_too.Core.{
  AgentId, SimClock, is_done, tick, Phase, order, contains, Result, SocsimError,
}
use rs_social_simulation_too.Core.{ok, err, WorldState, StepContext, Mechanisms, Scheduler}

-- The types and the traits' methods that one simulation is built from.
pub record Parts (W R Rec Any M S : Type 0) : Type 0 where
  pub world_state : WorldState W
  pub mechanisms : Mechanisms W R Rec Any M
  pub scheduler : Scheduler W R S

pub record Simulation (W R Rec Any M S : Type 0) : Type 0 where
  pub world : W
  pub mechanisms : List M
  pub scheduler : S
  pub rng : R
  pub recorder : Rec
  pub scratch : Blackboard Any
  pub stop_requested : Bool

-- The fields of the simulation that a context lends to mechanisms.
pub record Lent (W R Rec Any : Type 0) : Type 0 where
  pub world : W
  pub rng : R
  pub recorder : Rec
  pub scratch : Blackboard Any
  pub stop : Bool

pub record StepReport (W Any : Type 0) : Type 0 where
  pub t : ℕ
  pub stopped : Bool
  pub world : W
  pub scratch : Blackboard Any

module _ {W R Rec Any M S : Type 0} (parts : Parts W R Rec Any M S) where
  open parts use {world_state as ws, mechanisms as mechs, scheduler as sched}

  abbrev pub Sim : Type 0
  Sim = Simulation W R Rec Any M S

  -- The context of one call, and what is lent once the call returns.
  abbrev pub context : SimClock → List AgentId → Lent W R Rec Any → StepContext W R Rec Any
  context clock agents l = record {
    world = l.world;
    clock = clock;
    rng = l.rng;
    recorder = l.recorder;
    agent_order = agents;
    scratch = l.scratch;
    stop = l.stop;
  }

  abbrev pub returned : StepContext W R Rec Any → Lent W R Rec Any
  returned c = record {
    world = c.world;
    rng = c.rng;
    recorder = c.recorder;
    scratch = c.scratch;
    stop = c.stop;
  }

  -- What a pass over mechanisms leaves: its result, the mechanisms, and what was lent.
  abbrev pub Pass : Type 0
  Pass = Result Unit × List M × Lent W R Rec Any

  module _ (clock : SimClock) (agents : List AgentId) where
    abbrev pub call : M → Phase → Lent W R Rec Any → Result Unit × M × StepContext W R Rec Any
    call m p l = mechs.apply m p (context clock agents l)

    -- The rest of a pass after a call: an error ends it.
    abbrev pub after_call :
        Result Unit × M × StepContext W R Rec Any → List M → (Lent W R Rec Any → Pass) → Pass
    after_call (err e, m, c) ms rest = (err e, m ∷ ms, returned c)
    after_call (ok _, m, c) ms rest = let (r, ms', l) = rest (returned c) in (r, m ∷ ms', l)

    -- A mechanism that did not register the phase stays as it is.
    abbrev pub keep : M → Pass → Pass
    keep m (r, ms, l) = (r, m ∷ ms, l)

    -- The loop over the mechanisms in one phase.
    unfoldable pub run_phase : Phase → List M → Lent W R Rec Any → Pass
    run_phase p [] l = (ok tt, [], l)
    run_phase p (m ∷ ms) l =
        let called = after_call (call m p l) ms (run_phase p ms) in
        let skipped = keep m (run_phase p ms l) in
        if contains (mechs.phases m) p then called else skipped

    abbrev pub after_phase : Pass → (List M → Lent W R Rec Any → Pass) → Pass
    after_phase (err e, ms, l) rest = (err e, ms, l)
    after_phase (ok _, ms, l) rest = rest ms l

    -- The loop over the phases.
    unfoldable pub run_phases : List Phase → List M → Lent W R Rec Any → Pass
    unfolding run_phase
    run_phases [] ms l = (ok tt, ms, l)
    run_phases (p ∷ ps) ms l = after_phase (run_phase p ms l) (run_phases ps)

  abbrev pub give_back : S → Pass → Result Unit × Sim
  give_back s (r, ms, l) = (
    r,
    record {
      world = l.world;
      mechanisms = ms;
      scheduler = s;
      rng = l.rng;
      recorder = l.recorder;
      scratch = l.scratch;
      stop_requested = l.stop;
    },
  )

  -- The clock ticks first; then the scratch is cleared, the scheduler orders the agents, and each
  -- phase runs the mechanisms that registered it.
  unfoldable pub step : Sim → Result Unit × Sim
  unfolding run_phases
  step sim =
      let world = ws.set_clock sim.world (tick (ws.clock sim.world)) in
      let (agents, scheduler, rng) = sched.activation_order sim.scheduler world sim.rng in
      give_back scheduler (
        run_phases (ws.clock world) agents order sim.mechanisms (record {
          world = world;
          rng = rng;
          recorder = sim.recorder;
          scratch = Blackboard.new;
          stop = sim.stop_requested;
        }))

  -- The loops' test, negated.
  abbrev pub ended : Sim → Bool
  ended sim = is_done (ws.clock sim.world) || sim.stop_requested

  -- The `?` after a step: an error ends the loop.
  abbrev pub proceed {ℓ} :
      {A : Type ℓ}
      → Result Unit × Sim
      → (SocsimError → Sim → Option A)
      → (Sim → Option A)
      → Option A
  proceed (err e, s) stop go = stop e s
  proceed (ok _, s) stop go = go s

  abbrev pub failed : SocsimError → Sim → Option (Result Unit × Sim)
  failed e s = some (err e, s)

  -- `none` is a loop that has not ended within the fuel.
  unfoldable pub run : ℕ → Sim → Option (Result Unit × Sim)
  unfolding step
  run zero sim = if ended sim then some (ok tt, sim) else none
  run (suc fuel) sim =
      let next = proceed (step sim) failed (run fuel) in
      if ended sim then some (ok tt, sim) else next

  module _ (predicate : W → Bool) where
    unfoldable pub run_until : ℕ → Sim → Option (Result Unit × Sim)
    unfolding step
    run_until zero sim = if ended sim then some (ok tt, sim) else none
    run_until (suc fuel) sim =
        let next =
          proceed (step sim) failed λ s.
            let rest = run_until fuel s in if predicate s.world then some (ok tt, s) else rest in
        if ended sim then some (ok tt, sim) else next

  abbrev pub report : Sim → StepReport W Any
  report s = record {
    t = (ws.clock s.world).t;
    stopped = s.stop_requested;
    world = s.world;
    scratch = s.scratch;
  }

  abbrev with_report : Result Unit × Sim → Result (StepReport W Any) × Sim
  with_report (err e, s) = (err e, s)
  with_report (ok _, s) = (ok (report s), s)

  -- `step_reported`: the report is given only if the step succeeds.
  unfoldable pub step_reported : Sim → Result (StepReport W Any) × Sim
  unfolding step
  step_reported sim = with_report (step sim)

  -- The observer is a function that updates a state of its own, here `O`.
  module _ {O : Type 0} (observe : O → StepReport W Any → O) where
    unfoldable pub run_observed : ℕ → O → Sim → Option (Result Unit × Sim × O)
    unfolding step
    run_observed zero o sim = if ended sim then some (ok tt, sim, o) else none
    run_observed (suc fuel) o sim =
        let next =
          proceed (step sim) (λ e s. some (err e, s, o))
            λ s.
              let rest = run_observed fuel (observe o (report s)) s in
              if s.stop_requested then some (ok tt, s, observe o (report s)) else rest in
        if ended sim then some (ok tt, sim, o) else next
