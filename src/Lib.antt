-- ===== src/Lib.antt =====
-- A verification library for socsim, a toolkit for agent-based social simulation in Rust.
--
-- The program and its parts. A simulation owns a world, which holds its clock, a list of mechanisms, a
-- scheduler, a random stream and a recorder. The engine repeats a step: the clock ticks, the
-- scheduler orders the agents, and in each of six phases the mechanisms that registered it are called
-- with a context that lends them the world and the stream. Worlds on a lattice take their geometry
-- and their occupancy from the grid crate, and seeds for replicates come from the random streams.
-- In a game, a matching seats agents in the arena of the step's encounters, learning rules choose
-- their actions, and the play keeps a history of each agent's steps and of each pair's encounters. The
-- runner repeats a scenario over seeds and over the combinations of swept parameters.
--
-- The files.
--   Core, Core/Blackboard: crates/socsim-core/src/lib.rs. `SimClock`, `Phase`, `SocsimError` and
--     `StepContext` are data; the traits `WorldState`, `Mechanism` and `Scheduler` are records of
--     their methods (`WorldState`, `Mechanisms`, `Scheduler`). A call that takes `&mut` returns what
--     it leaves, and an error stands beside the state that it leaves.
--   Engine: crates/socsim-engine/src/lib.rs. `step`, `run`, `run_until`, `step_reported` and
--     `run_observed` are the methods of `Simulation`. Engine/Time, Engine/Calls and Engine/Observed
--     are about them; Engine/Snapshot has `snapshot`, `restore` and the version test of `load`, and
--     Engine/Scheduling the two schedulers, and Engine/Builder the `SimulationBuilder`.
--   Grid: crates/socsim-grid/src/lib.rs. Grid holds the geometry (`Grid`, `neighbors_radius`),
--     Grid/Measure the distances, Grid/Adjacency the CSR table, Grid/Iterator the iterator that
--     does not allocate, Grid/Index the occupancy index `GridIndex`, Grid/Cells the container
--     `CellGrid`. Grid/Axis, Grid/Neighbors and Grid/Distance are about the geometry.
--   Rng: crates/socsim-rng/src/lib.rs. `derive_seed`, `fmix64` and `SimRng::derive`.
--   Games: crates/socsim-games/src. Games/Arena is world/arena.rs (`PlayArena`, `ArenaWriter::push`), and
--     Games/Matching the matchings of matching/ that need no topology. Games/Pairs is
--     world/pair_history.rs (`PairHistory`, `PairRing`, `PairView`), Games/History is world/history.rs
--     (`StepHistory`, `HistoryView`) with the loops of mechanism/play.rs that write it, and
--     Games/Learn is learn/mod.rs (`sample_probabilities`) with learn/automaton.rs in
--     Games/Learn/Automaton. Games/Solve is solve/mod.rs (`inspect_game`, `advance_profile`) with
--     solve/pure.rs (`pure_nash`).
--   Runner: crates/socsim-runner/src. Runner holds the keys of a sweep (`parse_key`), Runner/Product
--     `cartesian_product` of lib.rs, Runner/Patch the patches of a scenario (`patch`), and Runner/Sweep
--     `run_trial_sweep` of checked_sweep.rs with `run_validated_trials` of trial.rs.
--   Prelude: what the modules share. Lists measured by native numbers, membership, Rust's sort and
--     dedup, integers, ordered maps as ascending lists, and exclusive or.
--
-- Numbers. `u64` is a number below 2 ^ 64 where it wraps: in the clock's tick and in the seeds.
-- `usize` and `isize` of the lattice are unbounded, save that the separation on an axis that wraps round
-- wraps as `usize` does without overflow checks, for coordinates off the axis. So the model is the code's
-- for radii and coordinates below 2 ^ 62 on lattices of fewer than 2 ^ 64 cells, and for Euclidean
-- distances where the sum of the squared separations is below 2 ^ 64. `f64` is a parameter with the facts
-- about comparing numbers that are not NaN, in the solver about the greater and the lesser of two and
-- about differences, and in the learning rules about adding zero. In the histories counters and indices are unbounded too.
--
-- Loops. The engine's loops run on fuel, and `none` means that it ran out. The ticks left until the
-- end of the run are enough where no mechanism writes the clock. Draining the iterator takes one
-- more call than it has cells. The loops over a game's profiles take one round for each profile. All other loops are recursions on a list or on the range they count.
-- A panic, an index out of range, is `none` as well, and the theorems exclude it where they say so.
--
-- Parameters. Worlds, mechanisms, schedulers and recorders are any types with the traits' methods.
-- The shuffle of the `rand` crate is any function that permutes, and the ChaCha20 generator any
-- stream whose position is zero when it is new. The values and tables of the `toml` crate are a record of
-- the operations that the sweep uses, with the laws of reading what was inserted. A trial factory and
-- the execution of one trial are any functions, and so are the statistics of a point's results.
--
-- Not modelled: the rest of the games, networks, language models, recorders, metrics, scenario files, the
-- legacy sweep and the command line, and the JSON files behind snapshots.
pub mod Prelude
pub mod Core
pub mod Engine
pub mod Grid
pub mod Rng
pub mod Games
pub mod Runner
