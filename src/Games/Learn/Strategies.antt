-- ===== src/Games/Learn/Strategies.antt =====
-- What an automaton plays, as a function of the whole history of the game.
use rs_social_simulation_too.Prelude.{ℕ, ◌-◌, ◌<◌, ◌≡◌, refl, sym, ◌∙◌, ap, arith, Bool, true}
use rs_social_simulation_too.Prelude.{false, ◌==◌, leb, Bool-cases, inl, inr, if◌then◌else◌, All}
use rs_social_simulation_too.Prelude.{
  Option, none, some, List, [], ◌∷◌, ◌++◌, set, replicate, if_true, if_false,
}
use rs_social_simulation_too.Games.Learn.{
  Weights, Draw, LearnError, LearnResult, ok, err, sample_probabilities,
}
use rs_social_simulation_too.Games.Learn.Automaton.{
  AutomatonKind, all_c, all_d, grim, wsls, tft, gtft, AutomatonState,
}
use rs_social_simulation_too.Games.Learn.Automaton.{checked_kind, start_state, new}
use rs_social_simulation_too.Games.Learn.Automaton.{
  forgiving, pure, kind_probabilities, next_action_probabilities,
}
use rs_social_simulation_too.Games.Learn.Automaton.{kind_action, next_action}
use rs_social_simulation_too.Games.Learn.Observing.{
  Round, last_round, has_defected, IsRound, has_defected_within,
}
use rs_social_simulation_too.Games.Learn.Observing.{
  last_round-IsRound, observe_all, state_with, state_after, observe_all-state_after,
}

module _ (w : Weights) where
  open w use {Float, nil, unit, eq}

  new_state :
      (kind : AutomatonKind Float) (coop : ℕ) (s : AutomatonState Float)
      → new w kind coop ≡ ok s
      → (coop < 2) × (s ≡ state_after kind coop [])
  unfolding new
  new_state kind coop s h = elim (Bool-cases (leb 2 coop)) [
    | inl e ↦ absurd (failed _ s (sym (if_true _ _ e) ∙ h))
    | inr e ↦ (ground (arith, e), started (checked_kind w kind) s (sym (if_false _ _ e) ∙ h))
  ]
    where
      failed :
          (e : LearnError Float) (s : AutomatonState Float)
          → ◌≡◌ {A = LearnResult Float (AutomatonState Float)} (err e) (ok s)
          → ⊥
      failed e s h = cc

      started :
          (checked : LearnResult Float Unit) (s : AutomatonState Float)
          → start_state w kind coop checked ≡ ok s
          → s ≡ state_after kind coop []
      started (err e) s h = absurd (failed e s h)
      started (ok u) s h = cc

  abbrev pub wsls_rule : ℕ → Option Round → Option ℕ
  wsls_rule coop none = some coop
  wsls_rule coop (some p) = some (if p.0 == p.1 then coop else 1 - coop)

  abbrev pub tft_rule : ℕ → Option Round → Option ℕ
  tft_rule coop none = some coop
  tft_rule coop (some p) = some p.1

  abbrev pub gtft_rule : ℕ → Float → Option Round → Option ℕ
  gtft_rule coop g none = some coop
  gtft_rule coop g (some p) =
      if p.1 == coop
      then some coop
      else if eq g nil
      then some (1 - coop)
      else if eq g unit
      then some coop
      else none

  -- What each strategy prescribes after a history, `none` where it draws. Win-stay lose-shift cooperates
  -- exactly after the rounds in which both did the same.
  abbrev pub prescribed : AutomatonKind Float → ℕ → List Round → Option ℕ
  prescribed all_c coop rounds = some coop
  prescribed all_d coop rounds = some (1 - coop)
  prescribed grim coop rounds = some (if has_defected coop rounds then 1 - coop else coop)
  prescribed wsls coop rounds = wsls_rule coop (last_round rounds)
  prescribed tft coop rounds = tft_rule coop (last_round rounds)
  prescribed (gtft g) coop rounds = gtft_rule coop g (last_round rounds)

  module _ {R : Type 0} (rng : Draw w R) where
    -- What the automaton does, as the strategy prescribes it.
    pub Plays : AutomatonKind Float → ℕ → Option ℕ → AutomatonState Float → R → Type 0
    Plays kind coop (some a) s r = (next_action w rng s r ≡ (ok a, r)) × (a < 2)
    Plays kind coop none s r =
        (g : Float) × (kind ≡ gtft g)
        × (next_action w rng s r ≡ sample_probabilities w rng (forgiving w coop g) r)

    wsls-Plays :
        (coop : ℕ) (trigger : Bool) (last : Option Round) (r : R)
        → coop < 2
        → ((p : Round) → last ≡ some p → IsRound p)
        → Plays wsls coop (wsls_rule coop last) (state_with wsls coop trigger last) r
    unfolding next_action Plays
    wsls-Plays coop trigger none r h valid = (refl, h)
    wsls-Plays coop trigger (some p) r h valid =
        let (own, opponent) = valid p refl in
        (ap (λ (a : ℕ). (ok a, r)) (stay p.0 p.1 coop own opponent h), ground arith)
      where
        stay :
            (own opponent coop : ℕ)
            → own < 2
            → opponent < 2
            → coop < 2
            → (if opponent == coop then own else if own == coop then 1 - coop else coop)
              ≡ (if own == opponent then coop else 1 - coop)
        stay own opponent coop h k l = ground arith

    tft-Plays :
        (coop : ℕ) (trigger : Bool) (last : Option Round) (r : R)
        → coop < 2
        → ((p : Round) → last ≡ some p → IsRound p)
        → Plays tft coop (tft_rule coop last) (state_with tft coop trigger last) r
    unfolding next_action Plays
    tft-Plays coop trigger none r h valid = (refl, h)
    tft-Plays coop trigger (some p) r h valid = (refl, (valid p refl).1)

    gtft-Plays :
        (g : Float) (coop : ℕ) (trigger : Bool) (last : Option Round) (r : R)
        → coop < 2
        → Plays (gtft g) coop (gtft_rule coop g last) (state_with (gtft g) coop trigger last) r
    unfolding next_action Plays
    gtft-Plays g coop trigger none r h = (refl, h)
    gtft-Plays g coop trigger (some p) r h = elim (Bool-cases (p.1 == coop)) [
      | inl e ↦ rw e (if_true _ _ e, h)
      | inr e ↦ elim (Bool-cases (eq g nil)) [
        | inl z ↦ rw (e, z) (if_false _ _ e ∙ if_true _ _ z, omega arith)
        | inr z ↦ elim (Bool-cases (eq g unit)) [
          | inl u ↦ rw (e, z, u) (if_false _ _ e ∙ if_false _ _ z ∙ if_true _ _ u, h)
          | inr u ↦ rw (e, z, u) (g, refl, if_false _ _ e ∙ if_false _ _ z ∙ if_false _ _ u)
        ]
      ]
    ]

    state_after-Plays :
        (kind : AutomatonKind Float) (coop : ℕ) (rounds : List Round) (r : R)
        → coop < 2
        → All IsRound rounds
        → Plays kind coop (prescribed kind coop rounds) (state_after kind coop rounds) r
    unfolding next_action Plays
    state_after-Plays all_c coop rounds r h all = (refl, h)
    state_after-Plays all_d coop rounds r h all = (refl, omega arith)
    state_after-Plays grim coop rounds r h all = (refl, ground arith)
    state_after-Plays wsls coop rounds r h all =
        wsls-Plays coop _ (last_round rounds) r h (λ p. last_round-IsRound rounds p all)
    state_after-Plays tft coop rounds r h all =
        tft-Plays coop _ (last_round rounds) r h (λ p. last_round-IsRound rounds p all)
    state_after-Plays (gtft g) coop rounds r h all = gtft-Plays g coop _ (last_round rounds) r h

    -- An automaton that `new` accepts takes every history of actions 0 and 1, of any length. What it does next is
    -- what its strategy prescribes for the history: a fixed action, 0 or 1, without drawing, or, for
    -- generous tit-for-tat alone, a draw from its two probabilities.
    pub next_action-Plays :
        (kind : AutomatonKind Float) (coop : ℕ) (s : AutomatonState Float) (rounds : List Round)
        (r : R)
        → new w kind coop ≡ ok s
        → All IsRound rounds
        → (s' : AutomatonState Float) × (observe_all s rounds ≡ some s')
          × Plays kind coop (prescribed kind coop rounds) s' r
    next_action-Plays kind coop s rounds r h all =
        let (below, start) = new_state kind coop s h in
        (
          state_after kind coop rounds,
          ap (λ (x : AutomatonState Float). observe_all x rounds) start
              ∙ observe_all-state_after kind coop [] rounds all,
          state_after-Plays kind coop rounds r below all,
        )

    -- Once the opponent has defected, `Grim` defects, whatever is played after it.
    pub grim_forever :
        (coop : ℕ) (s : AutomatonState Float) (before after : List Round) (own opponent : ℕ) (r : R)
        → new w grim coop ≡ ok s
        → All IsRound (before ++ ((own, opponent) ∷ after))
        → (opponent == coop) ≡ false
        → (s' : AutomatonState Float) × (observe_all s (before ++ ((own, opponent) ∷ after))
            ≡ some s')
          × (next_action w rng s' r ≡ (ok (1 - coop), r))
    unfolding Plays
    grim_forever coop s before after own opponent r h all e =
        let (s', observed, plays) = next_action-Plays grim coop s _ r h all in
        (
          s',
          observed,
          plays.0
              ∙ ap (λ (b : Bool). (ok (if b then 1 - coop else coop), r))
                  (has_defected_within coop before after own opponent e),
        )

  abbrev pub is_deterministic : AutomatonKind Float → Bool
  is_deterministic (gtft g) = false
  is_deterministic kind = true

  pure_action :
      {R : Type 0} (a b : ℕ) (r : R)
      → ◌≡◌ {A = LearnResult Float ℕ × R} (ok a, r) (ok b, r)
      → b < 2
      → pure w a ≡ ok (set (replicate 2 nil) b unit)
  unfolding pure
  pure_action a b r e h =
      let same : a ≡ b = cc in
      let inside : leb 2 b ≡ false = ground arith in ap (pure w) same ∙ if_false _ _ inside

  -- The probabilities that an automaton other than generous tit-for-tat reports are certainty for the action
  -- that it takes next.
  pub next_action_probabilities-next_action :
      {R : Type 0} (rng : Draw w R) (s : AutomatonState Float) (a : ℕ) (r : R)
      → is_deterministic s.kind ≡ true
      → s.coop < 2
      → a < 2
      → next_action w rng s r ≡ (ok a, r)
      → next_action_probabilities w s ≡ ok (set (replicate 2 nil) a unit)
  unfolding next_action_probabilities next_action
  next_action_probabilities-next_action rng s a r d h below e =
      if_false {b = leb 2 s.coop} _ _ (ground (arith, h)) ∙ by_kind s.kind d e
    where
      by_kind :
          (kind : AutomatonKind Float)
          → is_deterministic kind ≡ true
          → kind_action w rng s kind r ≡ (ok a, r)
          → kind_probabilities w s kind ≡ ok (set (replicate 2 nil) a unit)
      by_kind all_c d e = pure_action _ a r e below
      by_kind all_d d e = pure_action _ a r e below
      by_kind grim d e = pure_action _ a r e below
      by_kind wsls d e = pure_action _ a r e below
      by_kind tft d e = pure_action _ a r e below
      by_kind (gtft g) d e = absurd cc
