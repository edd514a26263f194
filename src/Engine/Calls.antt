-- ===== src/Engine/Calls.antt =====
-- The order of the calls in a step, as one flat list that the mechanisms' registrations determine:
-- phase by phase, and in a phase in the order in which the mechanisms were added.
use mathlib.Core.List.{append_assoc}
use rs_social_simulation_too.Prelude.{ℕ, ◌+◌, ◌≡◌, refl, sym, ◌∙◌, ap, arith}
use rs_social_simulation_too.Prelude.{if◌then◌else◌, Bool-cases, inl, inr, List, [], ◌∷◌, ◌++◌}
use rs_social_simulation_too.Prelude.{map, none, some, length, get_elem?, set}
use rs_social_simulation_too.Core.{AgentId, SimClock, Phase, contains, Result, ok, err}
use rs_social_simulation_too.Core.{StepContext}
use rs_social_simulation_too.Engine.{Parts, Lent, Pass, call, returned, after_call, keep}
use rs_social_simulation_too.Engine.{after_phase, run_phase, run_phases}

-- The calls of one phase, for the registrations of the mechanisms from number `i` on.
pub calls_in : Phase → ℕ → List (List Phase) → List (ℕ × Phase)
calls_in p i [] = []
calls_in p i (r ∷ rs) =
    if contains r p then (i, p) ∷ calls_in p (i + 1) rs else calls_in p (i + 1) rs

-- The calls of a step.
pub plan : List Phase → List (List Phase) → List (ℕ × Phase)
unfolding calls_in
plan [] rs = []
plan (p ∷ ps) rs = calls_in p 0 rs ++ plan ps rs

module _ {A : Type 0} where
  get_elem?_middle :
      (xs : List A) (y : A) (ys : List A) → get_elem? (xs ++ (y ∷ ys)) (length xs) ≡ some y
  get_elem?_middle [] y ys = refl
  get_elem?_middle (x ∷ xs) y ys = get_elem?_middle xs y ys

  set_middle :
      (xs : List A) (y z : A) (ys : List A) → set (xs ++ (y ∷ ys)) (length xs) z ≡ xs ++ (z ∷ ys)
  set_middle [] y z ys = refl
  set_middle (x ∷ xs) y z ys = ap (◌∷◌ x) (set_middle xs y z ys)

  cong_cons : {x y : A} {xs ys : List A} → x ≡ y → xs ≡ ys → x ∷ xs ≡ y ∷ ys
  cong_cons h f = cc

  length_snoc : (xs : List A) (y : A) → length (xs ++ (y ∷ [])) ≡ length xs + 1
  length_snoc [] y = refl
  length_snoc (x ∷ xs) y = omega (arith, length_snoc xs y)

module _ {W R Rec Any M S : Type 0} (parts : Parts W R Rec Any M S) where
  open parts use {mechanisms as mechs}

  -- A mechanism's registered phases never change.
  pub record KeepsPhases : Type 0 where
    pub kept :
        (m : M) (p : Phase) (c : StepContext W R Rec Any)
        → mechs.phases (mechs.apply m p c).1 ≡ mechs.phases m

  abbrev pub registrations : List M → List (List Phase)
  registrations = map mechs.phases

  module _ (clock : SimClock) (agents : List AgentId) where
    abbrev called :
        ℕ
        → List M
        → Result Unit × M × StepContext W R Rec Any
        → (List M → Lent W R Rec Any → Pass parts)
        → Pass parts
    called i ms (err e, m, c) rest = (err e, set ms i m, returned parts c)
    called i ms (ok _, m, c) rest = rest (set ms i m) (returned parts c)

    -- Makes the calls of a list, one after another, until one fails.
    pub perform : List (ℕ × Phase) → List M → Lent W R Rec Any → Pass parts
    perform [] ms l = (ok tt, ms, l)
    perform ((i, p) ∷ cs) ms l = elim (get_elem? ms i) [
      | none ↦ (ok tt, ms, l)
      | some m ↦ called i ms (call parts clock agents m p l) (perform cs)
    ]

    abbrev behind : List M → Pass parts → Pass parts
    behind pre (r, ms, l) = (r, pre ++ ms, l)

    behind-keep :
        (pre : List M) (m : M) (x : Pass parts)
        → behind (pre ++ (m ∷ [])) x ≡ behind pre (keep parts clock agents m x)
    behind-keep pre m (r, ms, l) = ap (λ (ys : List M). (r, ys, l)) (append_assoc pre (m ∷ []) ms)

    module _ (cs : List (ℕ × Phase)) where
      abbrev rest_of : List M → Pass parts → Pass parts
      rest_of pre x = after_phase parts clock agents (behind pre x) (perform cs)

      -- The calls left in a phase, from the mechanism after `pre` on.
      record Finishes (p : Phase) (pre ms : List M) (l : Lent W R Rec Any) : Type 0 where
        same :
            perform (calls_in p (length pre) (registrations ms) ++ cs) (pre ++ ms) l
            ≡ rest_of pre (run_phase parts clock agents p ms l)

      next_mechanism :
          (p : Phase) (pre ms : List M) (m : M) (l : Lent W R Rec Any)
          → Finishes p (pre ++ (m ∷ [])) ms l
          → perform (calls_in p (length pre + 1) (registrations ms) ++ cs) (pre ++ (m ∷ ms)) l
            ≡ rest_of pre (keep parts clock agents m (run_phase parts clock agents p ms l))
      next_mechanism p pre ms m l f =
          let moved = f.same in
          let one = rw (length_snoc pre m, append_assoc pre (m ∷ []) ms) at moved in
          one
          ∙ ap (λ (x : Pass parts). after_phase parts clock agents x (perform cs))
              (behind-keep pre m (run_phase parts clock agents p ms l))

      next_call :
          (p : Phase) (pre ms : List M) (m : M) (r : Result Unit × M × StepContext W R Rec Any)
          → ((m' : M) (l : Lent W R Rec Any) → Finishes p (pre ++ (m' ∷ [])) ms l)
          → called
              (length pre)
              (pre ++ (m ∷ ms))
              r
              (perform (calls_in p (length pre + 1) (registrations ms) ++ cs))
            ≡ rest_of pre (after_call parts clock agents r ms (run_phase parts clock agents p ms))
      next_call p pre ms m (err e, m', c) f =
          ap (λ (ys : List M). (err e, ys, returned parts c)) (set_middle pre m m' ms)
      next_call p pre ms m (ok _, m', c) f =
          rw (set_middle pre m m' ms) (next_mechanism p pre ms m' (returned parts c) (f m' _))

      finishes : (p : Phase) (pre ms : List M) (l : Lent W R Rec Any) → Finishes p pre ms l
      unfolding calls_in run_phase perform
      finishes p pre [] l = record { same = refl }
      finishes p pre (m ∷ ms) l = elim (Bool-cases (contains (mechs.phases m) p)) [
        | inl e ↦ record {
          same =
              rw (e, perform, get_elem?_middle pre m ms)
                (next_call p pre ms m (call parts clock agents m p l)
                  (λ m' l'. finishes p (pre ++ (m' ∷ [])) ms l'));
        }
        | inr e ↦ record {
          same = rw e (next_mechanism p pre ms m l (finishes p (pre ++ (m ∷ [])) ms l));
        }
      ]

    module _ (k : KeepsPhases) where
      after_call-registrations :
          (m : M) (ms : List M) (r : Result Unit × M × StepContext W R Rec Any)
          (rest : Lent W R Rec Any → Pass parts)
          → mechs.phases r.1 ≡ mechs.phases m
          → ((l : Lent W R Rec Any) → registrations (rest l).1 ≡ registrations ms)
          → registrations (after_call parts clock agents r ms rest).1 ≡ registrations (m ∷ ms)
      after_call-registrations m ms (err e, m', c) rest h f =
          ap (λ (r : List Phase). r ∷ registrations ms) h
      after_call-registrations m ms (ok _, m', c) rest h f = cong_cons h (f (returned parts c))

      run_phase-registrations :
          (p : Phase) (ms : List M) (l : Lent W R Rec Any)
          → registrations (run_phase parts clock agents p ms l).1 ≡ registrations ms
      unfolding run_phase
      run_phase-registrations p [] l = refl
      run_phase-registrations p (m ∷ ms) l = elim (Bool-cases (contains (mechs.phases m) p)) [
        | inl e ↦ rw e (
            after_call-registrations m ms (call parts clock agents m p l)
              (run_phase parts clock agents p ms) (k.kept m p _) (run_phase-registrations p ms))
        | inr e ↦ rw e (ap (◌∷◌ (mechs.phases m)) (run_phase-registrations p ms l))
      ]

      -- Where no mechanism changes its registered phases, a step's loops make exactly the calls of
      -- the plan, in its order, and stop at the first that fails: phase by phase in the order of
      -- `Phase::ORDER`, and in one phase in the order in which the mechanisms were added.
      pub run_phases-perform :
          (ps : List Phase) (ms : List M) (l : Lent W R Rec Any)
          → run_phases parts clock agents ps ms l ≡ perform (plan ps (registrations ms)) ms l
      unfolding run_phases plan perform
      run_phases-perform [] ms l = refl
      run_phases-perform (p ∷ ps) ms l = sym (
          (finishes (plan ps (registrations ms)) p [] ms l).same
          ∙ sym (
              go (run_phase parts clock agents p ms l) (run_phase-registrations p ms l)
                (λ ms' l'. run_phases-perform ps ms' l')))
        where
          go :
              (x : Pass parts)
              → registrations x.1 ≡ registrations ms
              → ((ms' : List M) (l' : Lent W R Rec Any)
                  → run_phases parts clock agents ps ms' l'
                    ≡ perform (plan ps (registrations ms')) ms' l')
              → after_phase parts clock agents x (run_phases parts clock agents ps)
                ≡ after_phase parts clock agents
                    (behind [] x)
                    (perform (plan ps (registrations ms)))
          go (err e, ms', l') h f = refl
          go (ok _, ms', l') h f = rw (← h) (f ms' l')
