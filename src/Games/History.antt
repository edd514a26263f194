-- ===== src/Games/History.antt =====
-- `StepHistory` of crates/socsim-games/src/world/history.rs: one flat list with a row of slots for each
-- agent, and one position that is written next in all the rows. `none` is a panic. The records of a
-- step are written by the loops over the agents and the seats in crates/socsim-games/src/mechanism/play.rs. A payoff is of
-- any type `F` with a zero, and `usize` is unbounded.
pub mod Slots
pub mod Refinement
pub mod Told
pub mod View
mod Tests
use rs_social_simulation_too.Prelude.{ℕ, zero, suc, ◌+◌, ◌-◌, ◌*◌, ◌%◌, min, Bool, leb, ltb, ◌==◌}
use rs_social_simulation_too.Prelude.{if◌then◌else◌, Option, none, some, List, [], ◌∷◌, ◌++◌}
use rs_social_simulation_too.Prelude.{length, get_elem?, set, replicate, map, slice}
use rs_social_simulation_too.Core.{AgentId}

pub record StepRecord (A F : Type 0) : Type 0 where
  pub action : Option A
  pub payoff : F
  pub n_played : ℕ

pub record StepHistory (A F : Type 0) : Type 0 where
  pub history_len : ℕ
  pub n_agents : ℕ
  pub head : ℕ
  pub filled : ℕ
  pub data_ : List (StepRecord A F)

pub record HistoryView (R : Type 0) : Type 0 where
  pub front : List R
  pub back : List R

-- `Option::or_else`.
abbrev pub or_else : {R : Type 0} → Option R → Option R → Option R
or_else none o = o
or_else (some x) o = some x

module _ {A F : Type 0} where
  unfoldable pub new : F → ℕ → ℕ → StepHistory A F
  new nil n_agents history_len = record {
    history_len = history_len;
    n_agents = n_agents;
    head = 0;
    filled = 0;
    data_ =
        replicate (n_agents * history_len) (record { action = none; payoff = nil; n_played = 0 });
  }

  -- `*NextSlot::get(agent) = x`.
  unfoldable pub put : StepHistory A F → ℕ → StepRecord A F → Option (StepHistory A F)
  put h agent x =
      let place = agent * h.history_len + h.head in
      if ltb place (length h.data_) then some (record h { data_ = set h.data_ place x }) else none

  -- `NextSlot::commit`.
  unfoldable pub commit : StepHistory A F → Option (StepHistory A F)
  commit h =
      if h.history_len == 0
      then none
      else some (record h {
        head = (h.head + 1) % h.history_len;
        filled = min (h.filled + 1) h.history_len;
      })

  abbrev pub then_rows :
      Option (StepHistory A F)
      → (StepHistory A F → Option (StepHistory A F))
      → Option (StepHistory A F)
  then_rows none f = none
  then_rows (some h) f = f h

  -- The loop over the agents, from the row `row` on.
  unfoldable pub put_rows : StepHistory A F → ℕ → List (StepRecord A F) → Option (StepHistory A F)
  unfolding put
  put_rows h row [] = some h
  put_rows h row (x ∷ xs) = then_rows (put h row x) (λ h'. put_rows h' (row + 1) xs)

  -- An action is filled in where the record has none.
  abbrev pub fill : Option A → StepRecord A F → StepRecord A F
  fill action r = record r { action = or_else r.action action }

  abbrev pub fill_record :
      StepHistory A F → AgentId → Option A → Option (StepRecord A F) → Option (StepHistory A F)
  fill_record h agent action none = none
  fill_record h agent action (some r) = put h agent (fill action r)

  -- The loop over the seats and their actions, which runs where decisions are made per step.
  unfoldable pub fill_seats : StepHistory A F → List (AgentId × Option A) → Option (StepHistory A F)
  unfolding put
  fill_seats h [] = some h
  fill_seats h (seat ∷ seats) =
      then_rows (fill_record h seat.0 seat.1 (get_elem? h.data_ (seat.0 * h.history_len + h.head)))
        (λ h'. fill_seats h' seats)

  unfoldable pub record_step :
      StepHistory A F → List (StepRecord A F) → List (AgentId × Option A) → Option (StepHistory A F)
  unfolding put_rows fill_seats commit
  record_step h xs seats =
      then_rows (then_rows (put_rows h 0 xs) (λ h'. fill_seats h' seats)) commit

  unfoldable pub view : StepHistory A F → AgentId → Option (HistoryView (StepRecord A F))
  view h agent =
      let row = slice (agent * h.history_len) ((agent + 1) * h.history_len) h.data_ in
      if leb h.n_agents agent
      then none
      else if ltb h.filled h.history_len
      then some (record { front = slice 0 h.filled row; back = slice 0 0 row })
      else some (record { front = slice h.head (length row) row; back = slice 0 h.head row })

module _ {R : Type 0} where
  -- `slice::last`.
  abbrev pub last_of : List R → Option R
  last_of [] = none
  last_of (x ∷ []) = some x
  last_of (x ∷ (y ∷ xs)) = last_of (y ∷ xs)

  abbrev pub len : HistoryView R → ℕ
  len v = length v.front + length v.back

  abbrev pub iter : HistoryView R → List R
  iter v = v.front ++ v.back

  abbrev pub last : HistoryView R → Option R
  last v = or_else (last_of v.back) (last_of v.front)

-- `PeerHistory::actions` and `PeerHistory::last`.
abbrev pub actions : {A F : Type 0} → HistoryView (StepRecord A F) → List (Option A)
actions v = map (λ r. r.action) (iter v)

abbrev pub last_action : {A F : Type 0} → HistoryView (StepRecord A F) → Option (Option A)
last_action v = elim (last v) [ none ↦ none | some r ↦ some r.action ]
