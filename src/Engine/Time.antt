-- ===== src/Engine/Time.antt =====
-- The clock under the engine: each step advances it by one, and every run ends.
use rs_social_simulation_too.Prelude.{
  ℕ, zero, suc, ◌+◌, ◌-◌, ◌≤◌, ◌<◌, ◌≡◌, refl, sym, ◌∙◌, ap, arith,
}
use rs_social_simulation_too.Prelude.{true, false, Bool-cases, inl}
use rs_social_simulation_too.Prelude.{inr, List, [], ◌∷◌, Option, some}
use native.Mathlib.Nat.{mod-eq_of_lt}
use rs_social_simulation_too.Core.{
  AgentId, SimClock, is_done, tick, u64_mod, Phase, order, contains,
}
use rs_social_simulation_too.Core.{Result, SocsimError, ok, err, StepContext}
use rs_social_simulation_too.Engine.{Parts, Lent, run_phase, run_phases, call, after_call}
use rs_social_simulation_too.Engine.{step, ended, run, proceed, failed, Sim, Pass, after_phase}

module _ {W R Rec Any M S : Type 0} (parts : Parts W R Rec Any M S) where
  open parts use {world_state as ws, mechanisms as mechs, scheduler as sched}

  -- No mechanism writes the clock: the engine alone ticks it.
  pub record KeepsClock : Type 0 where
    pub kept :
        (m : M) (p : Phase) (c : StepContext W R Rec Any)
        → ws.clock (mechs.apply m p c).2.world ≡ ws.clock c.world

  abbrev pub time : Sim parts → SimClock
  time sim = ws.clock sim.world

  module _ (k : KeepsClock) (clock : SimClock) (agents : List AgentId) where
    abbrev lent_clock : Pass parts → SimClock
    lent_clock r = ws.clock r.2.world

    after_call-clock :
        (c : SimClock) (r : Result Unit × M × StepContext W R Rec Any) (ms : List M)
        (rest : Lent W R Rec Any → Pass parts)
        → ws.clock r.2.world ≡ c
        → ((l : Lent W R Rec Any) → ws.clock l.world ≡ c → lent_clock (rest l) ≡ c)
        → lent_clock (after_call parts clock agents r ms rest) ≡ c
    after_call-clock c (err e, m, x) ms rest h f = h
    after_call-clock c (ok _, m, x) ms rest h f = f _ h

    run_phase-clock :
        (c : SimClock) (p : Phase) (ms : List M) (l : Lent W R Rec Any)
        → ws.clock l.world ≡ c
        → lent_clock (run_phase parts clock agents p ms l) ≡ c
    unfolding run_phase
    run_phase-clock c p [] l h = h
    run_phase-clock c p (m ∷ ms) l h = elim (Bool-cases (contains (mechs.phases m) p)) [
      | inl e ↦ rw e (
          after_call-clock c (call parts clock agents m p l) ms (run_phase parts clock agents p ms)
            (k.kept m p _ ∙ h) (λ l' h'. run_phase-clock c p ms l' h'))
      | inr e ↦ rw e (run_phase-clock c p ms l h)
    ]

    after_phase-clock :
        (c : SimClock) (r : Pass parts) (rest : List M → Lent W R Rec Any → Pass parts)
        → lent_clock r ≡ c
        → ((ms : List M) (l : Lent W R Rec Any) → ws.clock l.world ≡ c → lent_clock (rest ms l) ≡ c)
        → lent_clock (after_phase parts clock agents r rest) ≡ c
    after_phase-clock c (err e, ms, l) rest h f = h
    after_phase-clock c (ok _, ms, l) rest h f = f ms l h

    run_phases-clock :
        (c : SimClock) (ps : List Phase) (ms : List M) (l : Lent W R Rec Any)
        → ws.clock l.world ≡ c
        → lent_clock (run_phases parts clock agents ps ms l) ≡ c
    unfolding run_phases
    run_phases-clock c [] ms l h = h
    run_phases-clock c (p ∷ ps) ms l h =
        after_phase-clock c (run_phase parts clock agents p ms l) (run_phases parts clock agents ps)
          (run_phase-clock c p ms l h) (λ ms' l' h'. run_phases-clock c ps ms' l' h')

  -- Where no mechanism writes the clock, a step ticks it once, whether the step succeeds or fails.
  pub step-time : KeepsClock → (sim : Sim parts) → time (step parts sim).1 ≡ tick (time sim)
  unfolding step
  step-time k sim =
      run_phases-clock k _ _ (tick (time sim)) order sim.mechanisms _
        (ws.clock-set_clock sim.world (tick (time sim)))

  -- A step that starts before the end of the run does not overflow.
  tick_before_end :
      (c : SimClock)
      → c.t_max < u64_mod
      → is_done c ≡ false
      → (tick c ≡ record c { t = c.t + 1 }) × (c.t + 1 ≤ c.t_max)
  tick_before_end c h e = ground (arith, mod-eq_of_lt {n = c.t + 1} {m = u64_mod})

  -- A number of rounds of the loops' body that all succeed, each begun before the end of the run.
  pub data Rounds : ℕ → Sim parts → Sim parts → Type 0 where
    here : (s : Sim parts) → Rounds zero s s
    round :
        {n : ℕ} {sim next last : Sim parts}
        → ended parts sim ≡ false
        → step parts sim ≡ (ok tt, next)
        → Rounds n next last
        → Rounds (suc n) sim last

  -- How `run` may end, from a simulation: with the error of the round that failed, or past the end.
  pub data Ends (sim : Sim parts) : Option (Result Unit × Sim parts) → Type 0 where
    failing :
        (n : ℕ) (e : SocsimError) (s t : Sim parts)
        → Rounds n sim s
        → ended parts s ≡ false
        → step parts s ≡ (err e, t)
        → Ends sim (some (err e, t))
    finished :
        (n : ℕ) (s : Sim parts) → Rounds n sim s → ended parts s ≡ true → Ends sim (some (ok tt, s))

  not_done : (sim : Sim parts) → ended parts sim ≡ false → is_done (time sim) ≡ false
  not_done sim e = ground arith

  pub round-time :
      KeepsClock
      → (sim next : Sim parts) (r : Result Unit) → (time sim).t_max < u64_mod
      → ended parts sim ≡ false
      → step parts sim ≡ (r, next)
      → time next ≡ record (time sim) { t = (time sim).t + 1 }
  round-time k sim next r h e q =
      ap (λ (x : Result Unit × Sim parts). time x.1) (sym q)
      ∙ step-time k sim
      ∙ (tick_before_end (time sim) h (not_done sim e)).0

  -- The clock counts the rounds.
  pub Rounds-time :
      KeepsClock
      → {n : ℕ} {sim s : Sim parts} → (time sim).t_max < u64_mod
      → Rounds n sim s
      → ((time s).t ≡ (time sim).t + n) × ((time s).t_max ≡ (time sim).t_max)
  Rounds-time k h (here s) = (omega arith, refl)
  Rounds-time k h (round {n} {sim} {next} {last} e q r) =
      let now = round-time k sim next (ok tt) h e q in
      let max_same : (time next).t_max ≡ (time sim).t_max = ap (λ (c : SimClock). c.t_max) now in
      let t_next : (time next).t ≡ (time sim).t + 1 = ap (λ (c : SimClock). c.t) now in
      let rest = Rounds-time k (omega arith) r in (omega arith, omega arith)

  module _ (k : KeepsClock) where
    run-Ends-step :
        (fuel : ℕ) (sim : Sim parts) (r : Result Unit × Sim parts)
        → ended parts sim ≡ false
        → step parts sim ≡ r
        → ((next : Sim parts) → step parts sim ≡ (ok tt, next) → Ends next (run parts fuel next))
        → Ends sim (proceed parts r (failed parts) (run parts fuel))
    run-Ends-step fuel sim (err e, s) more q rest = failing 0 e sim s (here sim) more q
    run-Ends-step fuel sim (ok _, s) more q rest = one_more (run parts fuel s) (rest s q)
      where
        one_more : (o : Option (Result Unit × Sim parts)) → Ends s o → Ends sim o
        one_more _ (failing n e u t rs m f) = failing (suc n) e u t (round more q rs) m f
        one_more _ (finished n u rs m) = finished (suc n) u (round more q rs) m

    -- Where no mechanism writes the clock and the end of the run is a `u64`, fuel for the time left
    -- is enough: `run` ends, with the error of the first round that fails, or after the first
    -- number of successful rounds that reaches the end or a stop request.
    pub run-Ends :
        (fuel : ℕ) (sim : Sim parts)
        → (time sim).t_max < u64_mod
        → (time sim).t_max - (time sim).t ≤ fuel
        → Ends sim (run parts fuel sim)
    unfolding run
    run-Ends zero sim h f =
        let over : ended parts sim ≡ true = ground arith in rw over (finished 0 sim (here sim) over)
    run-Ends (suc fuel) sim h f = elim (Bool-cases (ended parts sim)) [
      | inl e ↦ rw e (finished 0 sim (here sim) e)
      | inr e ↦ rw e (
          run-Ends-step fuel sim (step parts sim) e refl λ next q.
            let now = round-time k sim next (ok tt) h e q in
            let max_same : (time next).t_max ≡ (time sim).t_max =
              ap (λ (c : SimClock). c.t_max) now in
            let t_next : (time next).t ≡ (time sim).t + 1 = ap (λ (c : SimClock). c.t) now in
            run-Ends fuel next (omega arith) (omega arith))
    ]
