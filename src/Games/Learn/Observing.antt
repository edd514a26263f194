-- ===== src/Games/Learn/Observing.antt =====
-- The state of an automaton as a function of the history of the game.
use mathlib.Core.List.{append_assoc, append-nil}
use rs_social_simulation_too.Prelude.{ℕ, ◌<◌, ◌≡◌, refl, sym, ◌∙◌, ap, arith, Bool, true}
use rs_social_simulation_too.Prelude.{
  false, not, ◌||◌, ◌==◌, leb, Bool-cases, inl, inr, if◌then◌else◌, All, subst,
}
use rs_social_simulation_too.Prelude.{Option, none, some, List, [], ◌∷◌, ◌++◌, if_true, if_false}
use rs_social_simulation_too.Games.Learn.{LearnResult, ok, err}
use rs_social_simulation_too.Games.Learn.Automaton.{AutomatonKind, AutomatonState}
use rs_social_simulation_too.Games.Learn.Automaton.{observe}

-- The own action and the opponent's.
abbrev pub Round : Type 0
Round = ℕ × ℕ

abbrev pub last_round : List Round → Option Round
last_round [] = none
last_round (p ∷ []) = some p
last_round (p ∷ (q ∷ rounds)) = last_round (q ∷ rounds)

-- The opponent defected in some round.
abbrev pub has_defected : ℕ → List Round → Bool
has_defected coop [] = false
has_defected coop (p ∷ rounds) = not (p.1 == coop) || has_defected coop rounds

abbrev pub IsRound : Round → Type 0
IsRound p = (p.0 < 2) × (p.1 < 2)

last_round_append : (done : List Round) (p : Round) → last_round (done ++ (p ∷ [])) ≡ some p
last_round_append [] p = refl
last_round_append (q ∷ []) p = refl
last_round_append (q ∷ (q' ∷ done)) p = last_round_append (q' ∷ done) p

or_true : (b : Bool) → (b || true) ≡ true
or_true b = ground arith

has_defected_append :
    (coop : ℕ) (done : List Round) (p : Round)
    → has_defected coop (done ++ (p ∷ [])) ≡ (if p.1 == coop then has_defected coop done else true)
has_defected_append coop [] p = elim (Bool-cases (p.1 == coop)) [
  | inl e ↦ rw e refl
  | inr e ↦ rw e refl
]
has_defected_append coop (q ∷ done) p = elim (Bool-cases (p.1 == coop)) [
  | inl e ↦
      ap (λ (b : Bool). not (q.1 == coop) || b) (has_defected_append coop done p ∙ if_true _ _ e)
      ∙ sym (if_true _ _ e)
  | inr e ↦
      ap (λ (b : Bool). not (q.1 == coop) || b) (has_defected_append coop done p ∙ if_false _ _ e)
      ∙ or_true (not (q.1 == coop))
      ∙ sym (if_false _ _ e)
]

abbrev pub own_of : Option Round → Option ℕ
own_of none = none
own_of (some p) = some p.0

abbrev pub opponent_of : Option Round → Option ℕ
opponent_of none = none
opponent_of (some p) = some p.1

pub has_defected_within :
    (coop : ℕ) (before after : List Round) (own opponent : ℕ)
    → (opponent == coop) ≡ false
    → has_defected coop (before ++ ((own, opponent) ∷ after)) ≡ true
has_defected_within coop [] after own opponent e = rw e refl
has_defected_within coop (p ∷ before) after own opponent e =
    ap (λ (b : Bool). not (p.1 == coop) || b) (has_defected_within coop before after own opponent e)
    ∙ or_true (not (p.1 == coop))

pub last_round-IsRound :
    (rounds : List Round) (p : Round) → All IsRound rounds → last_round rounds ≡ some p → IsRound p
last_round-IsRound [] p all h = absurd cc
last_round-IsRound (q ∷ []) p (valid, all) h = let same : q ≡ p = cc in subst IsRound same valid
last_round-IsRound (q ∷ (q' ∷ rounds)) p (valid, all) h = last_round-IsRound (q' ∷ rounds) p all h

module _ {F : Type 0} where
  abbrev then_observe :
      LearnResult F Unit × AutomatonState F
      → (AutomatonState F → Option (AutomatonState F))
      → Option (AutomatonState F)
  then_observe (ok u, s) f = f s
  then_observe (err e, s) f = none

  -- One observation for each round; `none` where one is refused.
  abbrev pub observe_all : AutomatonState F → List Round → Option (AutomatonState F)
  observe_all s [] = some s
  observe_all s (p ∷ rounds) = then_observe (observe s p.0 p.1) (λ s'. observe_all s' rounds)

  abbrev pub state_with : AutomatonKind F → ℕ → Bool → Option Round → AutomatonState F
  state_with kind coop grim_triggered last = record {
    kind = kind;
    coop = coop;
    grim_triggered = grim_triggered;
    own_last = own_of last;
    opponent_last = opponent_of last;
  }

  -- The state after a history.
  abbrev pub state_after : AutomatonKind F → ℕ → List Round → AutomatonState F
  state_after kind coop rounds = state_with kind coop (has_defected coop rounds) (last_round rounds)

  observe-state_after :
      (kind : AutomatonKind F) (coop : ℕ) (done : List Round) (p : Round)
      → IsRound p
      → observe (state_after kind coop done) p.0 p.1
        ≡ (ok tt, state_after kind coop (done ++ (p ∷ [])))
  unfolding observe
  observe-state_after kind coop done p (own, opponent) =
      let first : leb 2 p.0 ≡ false = ground (arith, own) in
      let second : leb 2 p.1 ≡ false = ground (arith, opponent) in
      if_false _ _ first
      ∙ if_false _ _ second
      ∙ rw (last_round_append done p, has_defected_append coop done p) refl

  pub observe_all-state_after :
      (kind : AutomatonKind F) (coop : ℕ) (done rounds : List Round)
      → All IsRound rounds
      → observe_all (state_after kind coop done) rounds
        ≡ some (state_after kind coop (done ++ rounds))
  observe_all-state_after kind coop done [] all =
      ap (λ (rounds : List Round). some (state_after kind coop rounds)) (sym (append-nil done))
  observe_all-state_after kind coop done (p ∷ rounds) (valid, all) =
      rw (observe_all, observe-state_after kind coop done p valid)
        (observe_all-state_after kind coop (done ++ (p ∷ [])) rounds all
          ∙ ap (λ (rounds : List Round). some (state_after kind coop rounds))
              (append_assoc done (p ∷ []) rounds))
