-- ===== src/Games/Learn/Automaton.antt =====
-- The automata of crates/socsim-games/src/learn/automaton.rs for repeated games of two actions.
use rs_social_simulation_too.Prelude.{ℕ, ◌-◌, Bool, true, false, ◌&&◌, ◌==◌, leb}
use rs_social_simulation_too.Prelude.{if◌then◌else◌, Option, none, some, List, set, replicate}
use rs_social_simulation_too.Games.Learn.{Weights, Draw, LearnResult, ok, err}
use rs_social_simulation_too.Games.Learn.{
  invalid_cooperation_action, invalid_parameter, invalid_action,
}
use rs_social_simulation_too.Games.Learn.{sample_probabilities}

pub data AutomatonKind (F : Type 0) : Type 0 where
  all_c : AutomatonKind F
  all_d : AutomatonKind F
  grim : AutomatonKind F
  wsls : AutomatonKind F
  tft : AutomatonKind F
  gtft : F → AutomatonKind F

pub record AutomatonState (F : Type 0) : Type 0 where
  pub kind : AutomatonKind F
  pub coop : ℕ
  pub grim_triggered : Bool
  pub own_last : Option ℕ
  pub opponent_last : Option ℕ

module _ {F : Type 0} where
  -- `observe`, which changes nothing when it fails.
  unfoldable pub observe : AutomatonState F → ℕ → ℕ → LearnResult F Unit × AutomatonState F
  observe s own opponent =
      if leb 2 own
      then (err (invalid_action own 2), s)
      else if leb 2 opponent
      then (err (invalid_action opponent 2), s)
      else (
        ok tt,
        record s {
          grim_triggered = if opponent == s.coop then s.grim_triggered else true;
          own_last = some own;
          opponent_last = some opponent;
        },
      )

-- The table of `Wsls`.
abbrev pub wsls_action : ℕ → Option ℕ → Option ℕ → ℕ
wsls_action coop (some own) (some opponent) =
    if opponent == coop then own else if own == coop then 1 - coop else coop
wsls_action coop own_last opponent_last = coop

abbrev pub unwrap_or : ℕ → Option ℕ → ℕ
unwrap_or d none = d
unwrap_or d (some a) = a

module _ (w : Weights) where
  open w use {Float, nil, unit, is_finite, le, eq, sub}

  abbrev pub is_generosity : Float → Bool
  is_generosity g = is_finite g && (le nil g && le g unit)

  abbrev pub checked_kind : AutomatonKind Float → LearnResult Float Unit
  checked_kind (gtft g) = if is_generosity g then ok tt else err (invalid_parameter g)
  checked_kind kind = ok tt

  abbrev pub start_state :
      AutomatonKind Float → ℕ → LearnResult Float Unit → LearnResult Float (AutomatonState Float)
  start_state kind coop (err e) = err e
  start_state kind coop (ok u) = ok (record {
    kind = kind;
    coop = coop;
    grim_triggered = false;
    own_last = none;
    opponent_last = none;
  })

  unfoldable pub new : AutomatonKind Float → ℕ → LearnResult Float (AutomatonState Float)
  new kind coop =
      if leb 2 coop
      then err (invalid_cooperation_action coop)
      else start_state kind coop (checked_kind kind)

  -- The probabilities of generous tit-for-tat after a defection.
  abbrev pub forgiving : ℕ → Float → List Float
  forgiving coop g = set (set (replicate 2 nil) coop g) (1 - coop) (sub unit g)

  -- The closure `pure`.
  unfoldable pub pure : ℕ → LearnResult Float (List Float)
  pure action =
      if leb 2 action then err (invalid_action action 2) else ok (set (replicate 2 nil) action unit)

  abbrev pub gtft_probabilities : ℕ → Float → Option ℕ → LearnResult Float (List Float)
  gtft_probabilities coop g none = pure coop
  gtft_probabilities coop g (some action) =
      if action == coop then pure coop else ok (forgiving coop g)

  abbrev pub kind_probabilities :
      AutomatonState Float → AutomatonKind Float → LearnResult Float (List Float)
  kind_probabilities s all_c = pure s.coop
  kind_probabilities s all_d = pure (1 - s.coop)
  kind_probabilities s grim = pure (if s.grim_triggered then 1 - s.coop else s.coop)
  kind_probabilities s wsls = pure (wsls_action s.coop s.own_last s.opponent_last)
  kind_probabilities s tft = pure (unwrap_or s.coop s.opponent_last)
  kind_probabilities s (gtft g) =
      if is_generosity g
      then gtft_probabilities s.coop g s.opponent_last
      else err (invalid_parameter g)

  unfoldable pub next_action_probabilities : AutomatonState Float → LearnResult Float (List Float)
  unfolding pure
  next_action_probabilities s =
      if leb 2 s.coop then err (invalid_cooperation_action s.coop) else kind_probabilities s s.kind

  module _ {R : Type 0} (rng : Draw w R) where
    abbrev pub gtft_action : ℕ → Float → Option ℕ → R → LearnResult Float ℕ × R
    gtft_action coop g none r = (ok coop, r)
    gtft_action coop g (some action) r =
        if action == coop
        then (ok coop, r)
        else if eq g nil
        then (ok (1 - coop), r)
        else if eq g unit
        then (ok coop, r)
        else sample_probabilities w rng (forgiving coop g) r

    abbrev pub kind_action :
        AutomatonState Float → AutomatonKind Float → R → LearnResult Float ℕ × R
    kind_action s all_c r = (ok s.coop, r)
    kind_action s all_d r = (ok (1 - s.coop), r)
    kind_action s grim r = (ok (if s.grim_triggered then 1 - s.coop else s.coop), r)
    kind_action s wsls r = (ok (wsls_action s.coop s.own_last s.opponent_last), r)
    kind_action s tft r = (ok (unwrap_or s.coop s.opponent_last), r)
    kind_action s (gtft g) r = gtft_action s.coop g s.opponent_last r

    unfoldable pub next_action : AutomatonState Float → R → LearnResult Float ℕ × R
    unfolding sample_probabilities
    next_action s r = kind_action s s.kind r
