-- ===== src/Engine/Observed.antt =====
-- `run_observed` and `run_until` against `run`: the observer sees each successful step once, and
-- watching a run does not change it.
use rs_social_simulation_too.Prelude.{
  ℕ, zero, suc, ◌+◌, ◌-◌, ◌≤◌, ◌<◌, ◌≡◌, refl, sym, ◌∙◌, ap, arith,
}
use rs_social_simulation_too.Prelude.{Bool, true, false, if◌then◌else◌, Bool-cases, inl, inr}
use rs_social_simulation_too.Prelude.{if_true, if_false, subst}
use rs_social_simulation_too.Prelude.{List, [], ◌∷◌, ◌++◌, map, range_from, Option, none, some}
use mathlib.Core.List.{append-nil, append_assoc, map-append}
use rs_social_simulation_too.Core.{SimClock, u64_mod, Result, SocsimError, ok, err}
use rs_social_simulation_too.Engine.{Parts, Sim, StepReport, step, ended, run, run_until, report}
use rs_social_simulation_too.Engine.{run_observed, proceed, failed}
use rs_social_simulation_too.Engine.Time.{KeepsClock, time, Rounds, here, round}
use rs_social_simulation_too.Engine.Time.{round-time}

module _ {W R Rec Any M S : Type 0} (parts : Parts W R Rec Any M S) where
  -- A loop whose test fails ends at once, whatever the fuel.
  run-ended :
      (fuel : ℕ) (sim : Sim parts) → ended parts sim ≡ true → run parts fuel sim ≡ some (ok tt, sim)
  unfolding run
  run-ended zero sim h = rw h
  run-ended (suc fuel) sim h = rw h

  ended_of_stop : (s : Sim parts) → s.stop_requested ≡ true → ended parts s ≡ true
  ended_of_stop s h = ground arith

  module _ {O : Type 0} (observe : O → StepReport W Any → O) where
    abbrev pub without_observer :
        Option (Result Unit × Sim parts × O) → Option (Result Unit × Sim parts)
    without_observer none = none
    without_observer (some (r, s, o)) = some (r, s)

    -- The branch of the loop after a step.
    abbrev watched : ℕ → O → Result Unit × Sim parts → Option (Result Unit × Sim parts × O)
    watched fuel o r =
        proceed parts r (λ e s. some (err e, s, o))
          λ s.
            let rest = run_observed parts observe fuel (observe o (report parts s)) s in
            if s.stop_requested then some (ok tt, s, observe o (report parts s)) else rest

    watched-run :
        (fuel : ℕ) (o : O) (r : Result Unit × Sim parts)
        → ((s : Sim parts)
            → without_observer (run_observed parts observe fuel (observe o (report parts s)) s)
              ≡ run parts fuel s)
        → without_observer (watched fuel o r) ≡ proceed parts r (failed parts) (run parts fuel)
    watched-run fuel o (err e, s) rest = refl
    watched-run fuel o (ok _, s) rest = elim (Bool-cases s.stop_requested) [
      | inl e ↦ ap without_observer (if_true _ _ e) ∙ sym (run-ended fuel s (ended_of_stop s e))
      | inr e ↦ ap without_observer (if_false _ _ e) ∙ rest s
    ]

    -- Watching changes nothing: for any observer and any fuel, `run_observed` returns what `run`
    -- returns, and leaves the same simulation.
    pub run_observed-run :
        (fuel : ℕ) (o : O) (sim : Sim parts)
        → without_observer (run_observed parts observe fuel o sim) ≡ run parts fuel sim
    unfolding run_observed run
    run_observed-run zero o sim = elim (Bool-cases (ended parts sim)) [
      | inl e ↦ rw e
      | inr e ↦ rw e
    ]
    run_observed-run (suc fuel) o sim = elim (Bool-cases (ended parts sim)) [
      | inl e ↦ rw e
      | inr e ↦ rw e (
          watched-run fuel o (step parts sim)
            (λ s. run_observed-run fuel (observe o (report parts s)) s))
    ]

    -- What an observer holds after a number of rounds: one report for each, in their order.
    pub observe_rounds : {n : ℕ} {sim s : Sim parts} → O → Rounds parts n sim s → O
    observe_rounds o (here s) = o
    observe_rounds o (round {next} e q r) = observe_rounds (observe o (report parts next)) r

    pub data ObservedEnds (o : O) (sim : Sim parts)
        : Option (Result Unit × Sim parts × O) → Type 0 where
      failing :
          (n : ℕ) (e : SocsimError) (s t : Sim parts) (rs : Rounds parts n sim s)
          → ended parts s ≡ false
          → step parts s ≡ (err e, t)
          → ObservedEnds o sim (some (err e, t, observe_rounds o rs))
      finished :
          (n : ℕ) (s : Sim parts) (rs : Rounds parts n sim s)
          → ended parts s ≡ true
          → ObservedEnds o sim (some (ok tt, s, observe_rounds o rs))

    one_more :
        (o : O) (sim next : Sim parts)
        → ended parts sim ≡ false
        → step parts sim ≡ (ok tt, next)
        → (x : Option (Result Unit × Sim parts × O))
        → ObservedEnds (observe o (report parts next)) next x
        → ObservedEnds o sim x
    unfolding observe_rounds
    one_more o sim next m q _ (failing n e s t rs h f) = failing (suc n) e s t (round m q rs) h f
    one_more o sim next m q _ (finished n s rs h) = finished (suc n) s (round m q rs) h

    run_observed-Ends-step :
        (fuel : ℕ) (o : O) (sim : Sim parts) (r : Result Unit × Sim parts)
        → ended parts sim ≡ false
        → step parts sim ≡ r
        → ((next : Sim parts)
            → step parts sim ≡ (ok tt, next)
            → ObservedEnds
                (observe o (report parts next))
                next
                (run_observed parts observe fuel (observe o (report parts next)) next))
        → ObservedEnds o sim (watched fuel o r)
    unfolding observe_rounds
    run_observed-Ends-step fuel o sim (err e, s) m q rest = failing 0 e sim s (here sim) m q
    run_observed-Ends-step fuel o sim (ok _, s) m q rest = elim (Bool-cases s.stop_requested) [
      | inl e ↦
          subst (ObservedEnds o sim) (sym (if_true _ _ e))
            (finished 1 s (round m q (here s)) (ended_of_stop s e))
      | inr e ↦
          subst (ObservedEnds o sim) (sym (if_false _ _ e)) (one_more o sim s m q _ (rest s q))
    ]

    -- Where no mechanism writes the clock and the end of the run is a `u64`, with fuel for the time
    -- left `run_observed` ends, with the error of the first round that fails or past the end; the
    -- observer has seen one report for each successful round, in order, made from the state that
    -- the round left, and none for a round that failed.
    pub run_observed-Ends :
        (fuel : ℕ) (o : O) (sim : Sim parts)
        → KeepsClock parts
        → (time parts sim).t_max < u64_mod
        → (time parts sim).t_max - (time parts sim).t ≤ fuel
        → ObservedEnds o sim (run_observed parts observe fuel o sim)
    unfolding run_observed observe_rounds
    run_observed-Ends zero o sim k h f =
        let over : ended parts sim ≡ true = ground arith in rw over (finished 0 sim (here sim) over)
    run_observed-Ends (suc fuel) o sim k h f = elim (Bool-cases (ended parts sim)) [
      | inl e ↦ rw e (finished 0 sim (here sim) e)
      | inr e ↦ rw e (
          run_observed-Ends-step fuel o sim (step parts sim) e refl λ next q.
            let now = round-time parts k sim next (ok tt) h e q in
            let max_same : (time parts next).t_max ≡ (time parts sim).t_max =
              ap (λ (c : SimClock). c.t_max) now in
            let t_next : (time parts next).t ≡ (time parts sim).t + 1 =
              ap (λ (c : SimClock). c.t) now in
            run_observed-Ends fuel (observe o (report parts next)) next k (omega arith)
              (omega arith))
    ]

  -- The observer that keeps every report.
  abbrev pub collect : List (StepReport W Any) → StepReport W Any → List (StepReport W Any)
  collect rs r = rs ++ (r ∷ [])

  -- The reports of a run carry consecutive times, from the first one after the start.
  pub times_of_Rounds :
      {n : ℕ} {sim s : Sim parts} (seen : List (StepReport W Any))
      → KeepsClock parts
      → (time parts sim).t_max < u64_mod
      → (rs : Rounds parts n sim s)
      → map (λ (r : StepReport W Any). r.t) (observe_rounds collect seen rs)
        ≡ map (λ (r : StepReport W Any). r.t) seen ++ range_from ((time parts sim).t + 1) n
  unfolding observe_rounds
  times_of_Rounds seen k h (here s) = rw append-nil
  times_of_Rounds seen k h (round {n} {sim} {next} e q rs) =
      let now = round-time parts k sim next (ok tt) h e q in
      let max_same : (time parts next).t_max ≡ (time parts sim).t_max =
        ap (λ (c : SimClock). c.t_max) now in
      let t_next : (time parts next).t ≡ (time parts sim).t + 1 = ap (λ (c : SimClock). c.t) now in
      times_of_Rounds (collect seen (report parts next)) k (omega arith) rs
      ∙ rw (map-append, append_assoc, t_next)

  module _ (predicate : W → Bool) where
    -- The branch of the loop after a step.
    abbrev checked : ℕ → Result Unit × Sim parts → Option (Result Unit × Sim parts)
    checked fuel r = proceed parts r (failed parts) λ s.
        let rest = run_until parts predicate fuel s in
        if predicate s.world then some (ok tt, s) else rest

    checked-run :
        (fuel : ℕ) (r : Result Unit × Sim parts)
        → ((w : W) → predicate w ≡ false)
        → ((s : Sim parts) → run_until parts predicate fuel s ≡ run parts fuel s)
        → checked fuel r ≡ proceed parts r (failed parts) (run parts fuel)
    checked-run fuel (err e, s) never rest = refl
    checked-run fuel (ok _, s) never rest = if_false _ _ (never s.world) ∙ rest s

    -- With a predicate that never holds, `run_until` is `run`: the same result and the same state,
    -- for every fuel.
    pub run_until-run :
        (fuel : ℕ) (sim : Sim parts)
        → ((w : W) → predicate w ≡ false)
        → run_until parts predicate fuel sim ≡ run parts fuel sim
    unfolding run_until run
    run_until-run zero sim never = refl
    run_until-run (suc fuel) sim never =
        ap
          (λ (x : Option (Result Unit × Sim parts)).
            if ended parts sim then some (ok tt, sim) else x)
          (checked-run fuel (step parts sim) never (λ s. run_until-run fuel s never))
