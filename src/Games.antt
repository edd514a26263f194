-- ===== src/Games.antt =====
-- The play of games in crates/socsim-games: the arena of one step's encounters, and the matchings
-- that seat the agents in it.
pub mod Arena
pub mod Matching
pub mod Pairs
pub mod History
pub mod Learn
pub mod Solve
mod Tests
