-- ===== src/Engine/Tests.antt =====
-- A small simulation: the world is its clock, the random stream a number that each call advances,
-- and a mechanism counts its calls.
use rs_social_simulation_too.Prelude.{ℕ, zero, suc, ◌+◌, ◌≡◌, refl, arith, false}
use rs_social_simulation_too.Prelude.{List, [], ◌∷◌}
use rs_social_simulation_too.Core.Blackboard
use rs_social_simulation_too.Core.Blackboard.{Types, Boxed, insert, get, get-insert}
use rs_social_simulation_too.Core.{SimClock, Phase, pre_step, decision, contains}
use rs_social_simulation_too.Core.{Result, ok, err, mechanism, WorldState, StepContext}
use rs_social_simulation_too.Core.{order}
use rs_social_simulation_too.Engine.{Parts, Sim, Lent, StepReport, run_phase, run_phases, step}
use rs_social_simulation_too.Engine.{run, run_observed}
use rs_social_simulation_too.Engine.Time.{KeepsClock, Rounds, here, round, Ends, run-Ends}
use rs_social_simulation_too.Engine.Observed.{without_observer, run_observed-run, ObservedEnds}
use rs_social_simulation_too.Engine.Observed.{run_observed-Ends}
use rs_social_simulation_too.Engine.Snapshot.{snapshot, restore, SameCode}
use rs_social_simulation_too.Engine.Snapshot.{run-restore-snapshot}
use rs_social_simulation_too.Engine.Calls.{
  KeepsPhases, perform, plan, registrations, run_phases-perform,
}
use rs_social_simulation_too.Prelude.{◌*◌}
use rs_social_simulation_too.Engine.Builder.{
  Defaults, Setting, seed, mechanism as mechanism_added, recorder,
}
use rs_social_simulation_too.Engine.Builder.{
  build, configure, new, added, last_scheduler, last_seed,
}
use rs_social_simulation_too.Engine.Builder.{last_recorder, build-configure}

abbrev Counter : Type 0
Counter = List Phase × ℕ

abbrev Context : Type 0
Context = StepContext SimClock ℕ ℕ ℕ

-- The third call of a mechanism fails.
abbrev count : Counter → Phase → Context → Result Unit × Counter × Context
count (ps, suc (suc zero)) p c = (err (mechanism "worn out"), (ps, 3), c)
count (ps, n) p c = (ok tt, (ps, n + 1), record c { rng = c.rng + 1 })

abbrev clock_world : WorldState SimClock
clock_world = record {
  agent_ids = λ w. 4 ∷ 2 ∷ 7 ∷ [];
  clock = λ w. w;
  set_clock = λ w c. c;
  clock-set_clock = λ w c. refl;
}

abbrev parts : Parts SimClock ℕ ℕ ℕ Counter Unit
parts = record {
  world_state = clock_world;
  mechanisms = record { phases = λ m. m.0; apply = count };
  scheduler = record { activation_order = λ s w r. (4 ∷ 2 ∷ 7 ∷ [], s, r) };
}

abbrev start : Sim parts
start = record {
  world = record { t = 0; t_max = 2 };
  mechanisms = (decision ∷ pre_step ∷ [], 0) ∷ (decision ∷ [], 0) ∷ [];
  scheduler = tt;
  rng = 40;
  recorder = 0;
  scratch = Blackboard.new;
  stop_requested = false;
}

abbrev after_one : Sim parts
after_one = record {
  world = record { t = 1; t_max = 2 };
  mechanisms = (decision ∷ pre_step ∷ [], 2) ∷ (decision ∷ [], 1) ∷ [];
  scheduler = tt;
  rng = 43;
  recorder = 0;
  scratch = Blackboard.new;
  stop_requested = false;
}

first_step : step parts start ≡ (ok tt, after_one)
unfolding step run_phases run_phase contains
first_step = refl

-- The second step fails at its first call and leaves the clock ticked.
second_step : step parts after_one ≡ (
  err (mechanism "worn out"),
  record after_one {
    world = record { t = 2; t_max = 2 };
    mechanisms = (decision ∷ pre_step ∷ [], 3) ∷ (decision ∷ [], 1) ∷ [];
  },
)
unfolding step run_phases run_phase contains
second_step = refl

one_round : Rounds parts 1 start after_one
one_round = round refl first_step (here after_one)

count-clock : (m : Counter) (p : Phase) (c : Context) → (count m p c).2.world ≡ c.world
count-clock (ps, zero) p c = refl
count-clock (ps, suc zero) p c = refl
count-clock (ps, suc (suc zero)) p c = refl
count-clock (ps, suc (suc (suc n))) p c = refl

count-phases : (m : Counter) (p : Phase) (c : Context) → (count m p c).1.0 ≡ m.0
count-phases (ps, zero) p c = refl
count-phases (ps, suc zero) p c = refl
count-phases (ps, suc (suc zero)) p c = refl
count-phases (ps, suc (suc (suc n))) p c = refl

keeps_clock : KeepsClock parts
keeps_clock = record { kept = count-clock }

keeps_phases : KeepsPhases parts
keeps_phases = record { kept = count-phases }

abbrev observer : ℕ → StepReport SimClock ℕ → ℕ
observer o r = o + r.t

run-Ends_example : Ends parts start (run parts 2 start)
run-Ends_example = run-Ends parts keeps_clock 2 start (omega arith) (omega arith)

run_observed-run_example :
    without_observer parts observer (run_observed parts observer 2 0 start) ≡ run parts 2 start
run_observed-run_example = run_observed-run parts observer 2 0 start

run_observed-Ends_example :
    ObservedEnds parts observer 0 start (run_observed parts observer 2 0 start)
run_observed-Ends_example =
    run_observed-Ends parts observer 2 0 start keeps_clock (omega arith) (omega arith)

-- Another simulation around the same code, with a world, a stream and a scratch of its own.
abbrev other : Sim parts
other = record after_one {
  world = record { t = 7; t_max = 9 };
  rng = 0;
  scratch = record { entries = ("left", 5) ∷ [] };
}

same_code : SameCode parts after_one other
same_code = record { mechanisms = refl; scheduler = refl; recorder = refl }

run-restore-snapshot_example :
    run parts 1 (restore parts other (snapshot parts after_one)) ≡ run parts 2 start
run-restore-snapshot_example =
    run-restore-snapshot parts 1 1 start after_one other one_round refl same_code

abbrev stream : ℕ
stream = 3

abbrev lent : Lent SimClock ℕ ℕ ℕ
lent = record {
  world = start.world;
  rng = 40;
  recorder = 0;
  scratch = Blackboard.new;
  stop = false;
}

run_phases-perform_example :
    run_phases parts start.world [] order start.mechanisms lent
    ≡ perform parts start.world []
        (plan order (registrations parts start.mechanisms))
        start.mechanisms
        lent
run_phases-perform_example =
    run_phases-perform parts start.world [] keeps_phases order start.mechanisms lent

abbrev defaults : Defaults ℕ ℕ Unit
defaults = record { sequential = tt; null = 0; from_seed = λ seed. seed * 3 }

-- The settings of a builder, with the seed set twice.
abbrev settings : List (Setting ℕ Counter Unit)
settings =
    seed 4
    ∷ mechanism_added (decision ∷ [], 0)
    ∷ seed 5
    ∷ mechanism_added (pre_step ∷ [], 0)
    ∷ recorder 8
    ∷ []

build-configure_example : build defaults (configure (new start.world) settings) ≡ record {
  world = start.world;
  mechanisms = added settings;
  scheduler = last_scheduler tt settings;
  rng = defaults.from_seed (last_seed 0 settings);
  recorder = last_recorder 0 settings;
  scratch = Blackboard.new {Any = ℕ};
  stop_requested = false;
}
build-configure_example = build-configure defaults start.world settings
