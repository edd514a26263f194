-- ===== src/Engine/Builder.antt =====
-- `SimulationBuilder` of crates/socsim-engine/src/lib.rs. The default scheduler and recorder and the
-- stream of a seed, which the builder takes from other code, are parameters.
use rs_social_simulation_too.Prelude.{ℕ, ◌≡◌, sym, ◌∙◌, ap, false, Option, none, some, List, []}
use rs_social_simulation_too.Prelude.{◌∷◌, ◌++◌}
use mathlib.Core.List.{append_assoc, append-nil}
use rs_social_simulation_too.Core.Blackboard
use rs_social_simulation_too.Engine.{Simulation}

pub record SimulationBuilder (W Rec M S : Type 0) : Type 0 where
  pub world : W
  pub mechanisms : List M
  pub scheduler : Option S
  pub seed : ℕ
  pub recorder : Option Rec

-- `SequentialScheduler`, `NullRecorder` and `SimRng::from_seed`.
pub record Defaults (R Rec S : Type 0) : Type 0 where
  pub sequential : S
  pub null : Rec
  pub from_seed : ℕ → R

abbrev pub or_else : {A : Type 0} → A → Option A → A
or_else d none = d
or_else d (some a) = a

module _ {W Rec M S : Type 0} where
  unfoldable pub new : W → SimulationBuilder W Rec M S
  new w = record { world = w; mechanisms = []; scheduler = none; seed = 0; recorder = none }

  abbrev pub add_mechanism : SimulationBuilder W Rec M S → M → SimulationBuilder W Rec M S
  add_mechanism b m = record b { mechanisms = b.mechanisms ++ (m ∷ []) }

  abbrev pub with_scheduler : SimulationBuilder W Rec M S → S → SimulationBuilder W Rec M S
  with_scheduler b s = record b { scheduler = some s }

  abbrev pub with_seed : SimulationBuilder W Rec M S → ℕ → SimulationBuilder W Rec M S
  with_seed b seed = record b { seed = seed }

  abbrev pub with_recorder : SimulationBuilder W Rec M S → Rec → SimulationBuilder W Rec M S
  with_recorder b r = record b { recorder = some r }

  unfoldable pub build :
      {R Any : Type 0} → Defaults R Rec S → SimulationBuilder W Rec M S → Simulation W R Rec Any M S
  build d b = record {
    world = b.world;
    mechanisms = b.mechanisms;
    scheduler = or_else d.sequential b.scheduler;
    rng = d.from_seed b.seed;
    recorder = or_else d.null b.recorder;
    scratch = Blackboard.new;
    stop_requested = false;
  }

-- One call on a builder.
pub data Setting (Rec M S : Type 0) : Type 0 where
  mechanism : M → Setting Rec M S
  scheduler : S → Setting Rec M S
  seed : ℕ → Setting Rec M S
  recorder : Rec → Setting Rec M S

module _ {Rec M S : Type 0} where
  -- The mechanisms among the calls, in their order.
  pub added : List (Setting Rec M S) → List M
  added [] = []
  added (mechanism m ∷ cs) = m ∷ added cs
  added (scheduler s ∷ cs) = added cs
  added (seed n ∷ cs) = added cs
  added (recorder r ∷ cs) = added cs

  -- The last value set among the calls, or the one given.
  pub last_scheduler : S → List (Setting Rec M S) → S
  last_scheduler d [] = d
  last_scheduler d (mechanism m ∷ cs) = last_scheduler d cs
  last_scheduler d (scheduler s ∷ cs) = last_scheduler s cs
  last_scheduler d (seed n ∷ cs) = last_scheduler d cs
  last_scheduler d (recorder r ∷ cs) = last_scheduler d cs

  pub last_seed : ℕ → List (Setting Rec M S) → ℕ
  last_seed d [] = d
  last_seed d (mechanism m ∷ cs) = last_seed d cs
  last_seed d (scheduler s ∷ cs) = last_seed d cs
  last_seed d (seed n ∷ cs) = last_seed n cs
  last_seed d (recorder r ∷ cs) = last_seed d cs

  pub last_recorder : Rec → List (Setting Rec M S) → Rec
  last_recorder d [] = d
  last_recorder d (mechanism m ∷ cs) = last_recorder d cs
  last_recorder d (scheduler s ∷ cs) = last_recorder d cs
  last_recorder d (seed n ∷ cs) = last_recorder d cs
  last_recorder d (recorder r ∷ cs) = last_recorder r cs

module _ {W Rec M S : Type 0} where
  pub configure : SimulationBuilder W Rec M S → List (Setting Rec M S) → SimulationBuilder W Rec M S
  configure b [] = b
  configure b (mechanism m ∷ cs) = configure (add_mechanism b m) cs
  configure b (scheduler s ∷ cs) = configure (with_scheduler b s) cs
  configure b (seed n ∷ cs) = configure (with_seed b n) cs
  configure b (recorder r ∷ cs) = configure (with_recorder b r) cs

  module _ {R Any : Type 0} (d : Defaults R Rec S) where
    abbrev pub expected :
        SimulationBuilder W Rec M S → List (Setting Rec M S) → Simulation W R Rec Any M S
    expected b cs = record {
      world = b.world;
      mechanisms = b.mechanisms ++ added cs;
      scheduler = last_scheduler (or_else d.sequential b.scheduler) cs;
      rng = d.from_seed (last_seed b.seed cs);
      recorder = last_recorder (or_else d.null b.recorder) cs;
      scratch = Blackboard.new;
      stop_requested = false;
    }

    abbrev with_mechanisms : Simulation W R Rec Any M S → List M → Simulation W R Rec Any M S
    with_mechanisms sim ms = record sim { mechanisms = ms }

    build-expected :
        (cs : List (Setting Rec M S)) (b : SimulationBuilder W Rec M S)
        → build d (configure b cs) ≡ expected b cs
    unfolding build configure added last_scheduler last_seed last_recorder
    build-expected [] b = ap (with_mechanisms (build d b)) (sym (append-nil b.mechanisms))
    build-expected (mechanism m ∷ cs) b =
        build-expected cs (add_mechanism b m)
        ∙ ap (with_mechanisms (expected b cs)) (append_assoc b.mechanisms (m ∷ []) (added cs))
    build-expected (scheduler s ∷ cs) b = build-expected cs (with_scheduler b s)
    build-expected (seed n ∷ cs) b = build-expected cs (with_seed b n)
    build-expected (recorder r ∷ cs) b = build-expected cs (with_recorder b r)

    -- Whatever calls are made on a new builder, in whatever order, the simulation built has the world
    -- given, the mechanisms in the order in which they were added, the scheduler, the recorder and
    -- the stream of the seed that were set last, or the default of each that was never set, an empty
    -- scratch and no stop request.
    pub build-configure :
        (w : W) (cs : List (Setting Rec M S))
        → build {Any = Any} d (configure (new w) cs) ≡ record {
          world = w;
          mechanisms = added cs;
          scheduler = last_scheduler d.sequential cs;
          rng = d.from_seed (last_seed 0 cs);
          recorder = last_recorder d.null cs;
          scratch = Blackboard.new;
          stop_requested = false;
        }
    unfolding new
    build-configure w cs = build-expected cs (new w)
