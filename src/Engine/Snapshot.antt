-- ===== src/Engine/Snapshot.antt =====
-- Snapshots of crates/socsim-engine/src/lib.rs: capture, restore, and the version test of `load`.
-- Reading and writing the JSON file is outside the model: `load` takes what the parser gave.
use Prim.Native.String.{String}
use rs_social_simulation_too.Prelude.{ℕ, zero, suc, ◌+◌, ◌≡◌, sym, ◌∙◌, ap, Bool}
use rs_social_simulation_too.Prelude.{false, ◌==◌, if◌then◌else◌}
use rs_social_simulation_too.Prelude.{if_false}
use native.Mathlib.Nat.{zero-add}
use Prim.Native.Nat.add
use rs_social_simulation_too.Core.Blackboard
use rs_social_simulation_too.Core.{Result, ok, err, snapshot as snapshot_error}
use rs_social_simulation_too.Engine.{Parts, Sim, step, ended, run, proceed, failed}
use rs_social_simulation_too.Engine.Time.{Rounds, here, round}

abbrev pub snapshot_version : ℕ
snapshot_version = 1

pub record Snapshot (W R : Type 0) : Type 0 where
  pub version : ℕ
  pub world : W
  pub rng : R
  pub stop_requested : Bool

-- The version test on a parsed file. `message` is the text of the error for the version found.
unfoldable pub load_parsed :
    {W R : Type 0} → (ℕ → String) → Result (Snapshot W R) → Result (Snapshot W R)
load_parsed message (err e) = err e
load_parsed message (ok s) =
    if s.version == snapshot_version then ok s else err (snapshot_error (message s.version))

module _ {W R Rec Any M S : Type 0} (parts : Parts W R Rec Any M S) where
  pub snapshot : Sim parts → Snapshot W R
  snapshot sim = record {
    version = snapshot_version;
    world = sim.world;
    rng = sim.rng;
    stop_requested = sim.stop_requested;
  }

  pub restore : Sim parts → Snapshot W R → Sim parts
  restore sim s = record sim {
    world = s.world;
    rng = s.rng;
    stop_requested = s.stop_requested;
    scratch = Blackboard.new;
  }

  -- The same code around both: mechanisms, scheduler and recorder.
  pub record SameCode (a b : Sim parts) : Type 0 where
    pub mechanisms : b.mechanisms ≡ a.mechanisms
    pub scheduler : b.scheduler ≡ a.scheduler
    pub recorder : b.recorder ≡ a.recorder

  -- A resumed simulation differs from the saved one in its scratch at most.
  restored :
      (a b : Sim parts)
      → SameCode a b
      → restore b (snapshot a) ≡ record a { scratch = Blackboard.new }
  unfolding restore snapshot
  restored a b c = λ i. record {
    world = a.world;
    mechanisms = c.mechanisms i;
    scheduler = c.scheduler i;
    rng = a.rng;
    recorder = c.recorder i;
    scratch = Blackboard.new;
    stop_requested = a.stop_requested;
  }

  -- A run that has not ended does not depend on the scratch.
  run_scratch :
      (fuel : ℕ) (a : Sim parts)
      → ended parts a ≡ false
      → run parts fuel (record a { scratch = Blackboard.new }) ≡ run parts fuel a
  unfolding run step
  run_scratch zero a e = if_false _ _ e ∙ sym (if_false _ _ e)
  run_scratch (suc fuel) a e = if_false _ _ e ∙ sym (if_false _ _ e)

  -- From a simulation that is not at its end, `n` successful rounds and a run are one run.
  run-Rounds :
      (fuel : ℕ) {n : ℕ} {a s : Sim parts}
      → Rounds parts n a s
      → run parts (n + fuel) a ≡ run parts fuel s
  unfolding run
  run-Rounds fuel (here s) = ap (λ (k : ℕ). run parts k s) (zero-add fuel)
  run-Rounds fuel (round {n} {sim} {next} {last} e q rs) =
      ap (λ (k : ℕ). run parts k sim) (add.suc n fuel)
      ∙ if_false _ _ e
      ∙ ap (λ (r : Result Unit × Sim parts). proceed parts r (failed parts) (run parts (n + fuel)))
          q
      ∙ run-Rounds fuel rs

  -- One step of a restored simulation is one step of the saved one, whatever the world, the random
  -- stream, the stop flag and the scratch of the simulation that it was restored into were, as long
  -- as that one has the same mechanisms, scheduler and recorder.
  pub step-restore-snapshot :
      (a b : Sim parts) → SameCode a b → step parts (restore b (snapshot a)) ≡ step parts a
  unfolding step
  step-restore-snapshot a b c = ap (step parts) (restored a b c)

  -- Resuming is exact: let `a` make `n` successful rounds to a state `s` that is not at its end. A
  -- snapshot of `s`, restored into a simulation with the mechanisms, scheduler and recorder of `s`,
  -- runs to the result and the state that `a` runs to in one go, with the fuel of the rounds added.
  pub run-restore-snapshot :
      (fuel n : ℕ) (a s b : Sim parts)
      → Rounds parts n a s
      → ended parts s ≡ false
      → SameCode s b
      → run parts fuel (restore b (snapshot s)) ≡ run parts (n + fuel) a
  run-restore-snapshot fuel n a s b rs e c =
      ap (run parts fuel) (restored s b c) ∙ run_scratch fuel s e ∙ sym (run-Rounds fuel rs)
