-- ===== src/Games/History/Told.antt =====
-- What the history is told of an agent: its record of each step, with the action that its seats give it.
use rs_social_simulation_too.Prelude.{◌≡◌, refl, sym, ◌∙◌, ap, false, true, ◌==◌, if◌then◌else◌}
use rs_social_simulation_too.Prelude.{Option, none, some, List, [], ◌∷◌, get_elem?, ==→≡}
use rs_social_simulation_too.Prelude.{Bool-cases, Option-cases, inl, inr, if_true, if_false}
use rs_social_simulation_too.Prelude.{get_elem?-set, get_elem?_bound}
use rs_social_simulation_too.Core.{AgentId}
use rs_social_simulation_too.Games.History.{StepRecord, fill, or_else}
use rs_social_simulation_too.Games.History.Slots.{set_filled, filled_records}
use rs_social_simulation_too.Games.History.Refinement.{column, put_first}

module _ {A : Type 0} where
  -- The action of the first seat of the agent that has one.
  abbrev pub first_action : AgentId → List (AgentId × Option A) → Option A
  first_action agent [] = none
  first_action agent ((a, none) ∷ seats) = first_action agent seats
  first_action agent ((a, some action) ∷ seats) =
      if a == agent then some action else first_action agent seats

  -- An action that the record has already stays.
  abbrev pub kept_action : Option A → Option A → Option A
  kept_action none seated = seated
  kept_action (some own) seated = some own

  -- A seat of another agent changes nothing.
  first_action_others :
      (agent a : AgentId) (action : Option A) (seats : List (AgentId × Option A))
      → (a == agent) ≡ false
      → first_action agent ((a, action) ∷ seats) ≡ first_action agent seats
  first_action_others agent a none seats h = refl
  first_action_others agent a (some x) seats h = if_false _ _ h

module _ {A F : Type 0} where
  abbrev pub told_step :
      Option A → Option (StepRecord A F) → List (StepRecord A F) → List (StepRecord A F)
  told_step seated none rest = rest
  told_step seated (some r) rest = record r { action = kept_action r.action seated } ∷ rest

  -- The records of an agent in the steps, each a row of records and the seats with their actions.
  abbrev pub told :
      AgentId → List (List (StepRecord A F) × List (AgentId × Option A)) → List (StepRecord A F)
  told agent [] = []
  told agent ((xs, seats) ∷ steps) =
      told_step (first_action agent seats) (get_elem? xs agent) (told agent steps)

  -- The records of the steps, with the actions filled in by the loop over the seats.
  abbrev pub written_steps :
      List (List (StepRecord A F) × List (AgentId × Option A)) → List (List (StepRecord A F))
  written_steps [] = []
  written_steps (p ∷ steps) = filled_records p.0 p.1 ∷ written_steps steps

  abbrev acted : Option A → Option (StepRecord A F) → Option (StepRecord A F)
  acted seated none = none
  acted seated (some r) = some (record r { action = kept_action r.action seated })

  acted-none : (o : Option (StepRecord A F)) → o ≡ acted none o
  acted-none none = refl
  acted-none (some r) =
      ap (λ (x : Option A). some (record r { action = x })) (sym (kept_none r.action))
    where
      kept_none : (own : Option A) → kept_action own none ≡ own
      kept_none none = refl
      kept_none (some x) = refl

  -- A seat of the agent itself comes before the later ones.
  acted-fill :
      (agent a : AgentId) (action : Option A) (seats : List (AgentId × Option A))
      (r : StepRecord A F)
      → (a == agent) ≡ true
      → acted (first_action agent seats) (some (fill action r))
        ≡ acted (first_action agent ((a, action) ∷ seats)) (some r)
  acted-fill agent a none seats r h =
      ap (λ (x : Option A). some (record r { action = x })) (none_filled r.action)
    where
      none_filled :
          (own : Option A)
          → kept_action (or_else own none) (first_action agent seats)
            ≡ kept_action own (first_action agent seats)
      none_filled none = refl
      none_filled (some x) = refl
  acted-fill agent a (some action) seats r h =
      ap (λ (x : Option A). some (record r { action = x }))
        (some_filled r.action
          ∙ ap (kept_action r.action) (sym (if_true (some action) (first_action agent seats) h)))
    where
      some_filled :
          (own : Option A)
          → kept_action (or_else own (some action)) (first_action agent seats)
            ≡ kept_action own (some action)
      some_filled none = refl
      some_filled (some x) = refl

  one_seat :
      (agent : AgentId) (seat : AgentId × Option A) (seats : List (AgentId × Option A))
      (xs : List (StepRecord A F))
      → acted
          (first_action agent seats)
          (get_elem? (set_filled xs seat.0 seat.1 (get_elem? xs seat.0)) agent)
        ≡ acted (first_action agent (seat ∷ seats)) (get_elem? xs agent)
  one_seat agent (a, action) seats xs = elim (Option-cases (get_elem? xs a)) [
    | inl e ↦
        ap
          (λ (o : Option (StepRecord A F)).
            acted (first_action agent seats) (get_elem? (set_filled xs a action o) agent))
          e
        ∙ elim (Bool-cases (a == agent)) [
          | inl same ↦
              let none_there : get_elem? xs agent ≡ none =
                ap (get_elem? xs) (sym (==→≡ a agent same)) ∙ e in
              ap (acted (first_action agent seats)) none_there
              ∙ sym (ap (acted (first_action agent ((a, action) ∷ seats))) none_there)
          | inr differ ↦
              ap (λ (o : Option A). acted o (get_elem? xs agent))
                (sym (first_action_others agent a action seats differ))
        ]
    | inr (r, e) ↦
        let bound = get_elem?_bound xs a r e in
        ap
          (λ (o : Option (StepRecord A F)).
            acted (first_action agent seats) (get_elem? (set_filled xs a action o) agent))
          e
        ∙ ap (acted (first_action agent seats)) (get_elem?-set xs a agent (fill action r) bound)
        ∙ elim (Bool-cases (a == agent)) [
          | inl same ↦
              let there : get_elem? xs agent ≡ some r =
                ap (get_elem? xs) (sym (==→≡ a agent same)) ∙ e in
              ap (acted (first_action agent seats)) (if_true _ _ same)
              ∙ acted-fill agent a action seats r same
              ∙ sym (ap (acted (first_action agent ((a, action) ∷ seats))) there)
          | inr differ ↦
              ap (acted (first_action agent seats)) (if_false _ _ differ)
              ∙ ap (λ (o : Option A). acted o (get_elem? xs agent))
                  (sym (first_action_others agent a action seats differ))
        ]
  ]

  filled_records-acted :
      (agent : AgentId) (xs : List (StepRecord A F)) (seats : List (AgentId × Option A))
      → get_elem? (filled_records xs seats) agent
        ≡ acted (first_action agent seats) (get_elem? xs agent)
  filled_records-acted agent xs [] = acted-none (get_elem? xs agent)
  filled_records-acted agent xs (seat ∷ seats) =
      filled_records-acted agent (set_filled xs seat.0 seat.1 (get_elem? xs seat.0)) seats
      ∙ one_seat agent seat seats xs

  -- What is written of an agent is what is told of it.
  pub column-told :
      (agent : AgentId) (steps : List (List (StepRecord A F) × List (AgentId × Option A)))
      → column agent (written_steps steps) ≡ told agent steps
  column-told agent [] = refl
  column-told agent ((xs, seats) ∷ steps) =
      ap (λ (o : Option (StepRecord A F)). put_first o (column agent (written_steps steps)))
        (filled_records-acted agent xs seats)
      ∙ first (get_elem? xs agent) (column-told agent steps)
    where
      first :
          (o : Option (StepRecord A F))
          → column agent (written_steps steps) ≡ told agent steps
          → put_first (acted (first_action agent seats) o) (column agent (written_steps steps))
            ≡ told_step (first_action agent seats) o (told agent steps)
      first none e = e
      first (some r) e =
          ap (◌∷◌ (record r { action = kept_action r.action (first_action agent seats) })) e
