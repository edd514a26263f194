-- ===== src/Games/History/Refinement.antt =====
-- The step history against the log of the steps: an agent's row holds the last of its own records.
use native.Mathlib.Nat.{mod-add-mod, mod-eq_of_lt, mod-lt}
use rs_social_simulation_too.Prelude.{ℕ, ◌+◌, ◌*◌, ◌%◌, ◌≤◌, ◌<◌, min, ◌≡◌, refl, sym, ◌∙◌, ap}
use rs_social_simulation_too.Prelude.{arith, true, false, ◌==◌, if◌then◌else◌, Bool-cases, inl, inr}
use rs_social_simulation_too.Prelude.{
  Option, none, some, List, [], ◌∷◌, ◌++◌, length, get_elem?, if_true, if_false,
}
use rs_social_simulation_too.Prelude.{length-append, get_elem?_total, get_elem?-append_left}
use rs_social_simulation_too.Prelude.{
  get_elem?-append_last, slots_differ, ==→≡, ==→≢, length-replicate,
}
use rs_social_simulation_too.Games.History.{StepRecord, StepHistory, new, commit, record_step}
use rs_social_simulation_too.Prelude.{All, subst}
use rs_social_simulation_too.Core.{AgentId}
use rs_social_simulation_too.Games.History.{then_rows}
use rs_social_simulation_too.Games.History.{len}
use rs_social_simulation_too.Games.History.Slots.{slot, filled_records, written-HasRows}

module _ {A F : Type 0} where
  -- An element that is there, before the others.
  abbrev pub put_first : Option (StepRecord A F) → List (StepRecord A F) → List (StepRecord A F)
  put_first none xs = xs
  put_first (some x) xs = x ∷ xs

  -- The records of one agent in a log of steps.
  abbrev pub column : AgentId → List (List (StepRecord A F)) → List (StepRecord A F)
  column agent [] = []
  column agent (xs ∷ log) = put_first (get_elem? xs agent) (column agent log)

  column_last :
      (agent : AgentId) (log : List (List (StepRecord A F))) (xs : List (StepRecord A F))
      (x : StepRecord A F)
      → get_elem? xs agent ≡ some x
      → column agent (log ++ (xs ∷ [])) ≡ column agent log ++ (x ∷ [])
  column_last agent [] xs x h = rw h refl
  column_last agent (ys ∷ log) xs x h =
      rw (column_last agent log xs x h) (front (get_elem? ys agent))
    where
      front :
          (y : Option (StepRecord A F))
          → put_first y (column agent log ++ (x ∷ [])) ≡ put_first y (column agent log) ++ (x ∷ [])
      front none = refl
      front (some y) = refl

  pub record Holds (n len : ℕ) (h : StepHistory A F) (log : List (List (StepRecord A F)))
      : Type 0 where
    pub agents : h.n_agents ≡ n
    pub slots : h.history_len ≡ len
    pub size : length h.data_ ≡ h.n_agents * h.history_len
    pub head : h.head ≡ length log % h.history_len
    pub filled : h.filled ≡ min (length log) h.history_len
    pub rows : (a : AgentId) → a < h.n_agents → length (column a log) ≡ length log
    pub kept :
        (a i : ℕ)
        → a < h.n_agents
        → i < length log
        → length log ≤ i + h.history_len
        → slot h a (i % h.history_len) ≡ get_elem? (column a log) i

  pub new-Holds : (nil : F) (n len : ℕ) → 0 < len → Holds n len (new nil n len) []
  unfolding new
  new-Holds nil n len pos = record {
    agents = refl;
    slots = refl;
    size = length-replicate (n * len) _;
    head = sym (mod-eq_of_lt pos);
    filled = omega arith;
    rows = λ a k. refl;
    kept = λ a i h k. absurd (omega arith);
  }

  -- The slot that is written reads as the new record, each other one as before.
  slot_read :
      (slots steps i head : ℕ) (col : List (StepRecord A F)) (x : StepRecord A F)
      (old got : Option (StepRecord A F))
      → length col ≡ steps
      → head ≡ steps % slots
      → i < steps + 1
      → steps + 1 ≤ i + slots
      → got ≡ some x
      → (i < steps → old ≡ get_elem? col i)
      → (if i % slots == head then got else old) ≡ get_elem? (col ++ (x ∷ [])) i
  slot_read slots steps i head col x old got size at_head below above is_x kept =
      elim (Bool-cases (steps == i)) [
        | inl e ↦
            let newest : steps ≡ i = ==→≡ steps i e in
            let here : (i % slots == head) ≡ true =
              ground (arith, at_head, ap (λ (j : ℕ). j % slots) newest) in
            if_true _ _ here ∙ is_x ∙ sym (get_elem?-append_last col x i (omega arith))
        | inr e ↦
            let before : i < steps = omega (arith, ==→≢ steps i e) in
            let away : (i % slots == head) ≡ false = elim (Bool-cases (i % slots == head)) [
              | inl same ↦
                  absurd (slots_differ slots i steps before (omega arith) (==→≡ _ _ same ∙ at_head))
              | inr other ↦ other
            ] in
            if_false _ _ away
            ∙ kept before
            ∙ sym (get_elem?-append_left col (x ∷ []) i (omega arith))
      ]

  pub record_step-Holds :
      (n len : ℕ) (h : StepHistory A F) (log : List (List (StepRecord A F)))
      (xs : List (StepRecord A F)) (seats : List (AgentId × Option A))
      → 0 < len
      → Holds n len h log
      → length xs ≡ n
      → All (λ (seat : AgentId × Option A). seat.0 < n) seats
      → (h' : StepHistory A F) × (record_step h xs seats ≡ some h')
        × Holds n len h' (log ++ (filled_records xs seats ∷ []))
  unfolding record_step commit
  record_step-Holds n len h log xs seats pos holds all known =
      let slots = h.history_len in
      let ys = filled_records xs seats in
      let at_least : 0 < slots = omega (arith, holds.slots) in
      let inside : h.head < slots = omega (arith, holds.head, mod-lt (length log) at_least) in
      let seated : All (λ (seat : AgentId × Option A). seat.0 < h.n_agents) seats =
        subst (λ (k : ℕ). All (λ (seat : AgentId × Option A). seat.0 < k) seats) (sym holds.agents)
          known in
      let (d, written, size, rows, has) =
        written-HasRows h xs seats inside holds.size (all ∙ sym holds.agents) seated in
      let longer : length (log ++ (ys ∷ [])) ≡ length log + 1 = length-append log (ys ∷ []) in
      let some_slot : (slots == 0) ≡ false = ground arith in
      (
        record h { data_ = d; head = (h.head + 1) % slots; filled = min (h.filled + 1) slots },
        ap (λ (v : Option (StepHistory A F)). then_rows v commit) written ∙ if_false _ _ some_slot,
        record {
          agents = holds.agents;
          slots = holds.slots;
          size = size;
          head =
              ap (λ (k : ℕ). (k + 1) % slots) holds.head
              ∙ mod-add-mod (length log) slots 1
              ∙ ap (λ (k : ℕ). k % slots) (sym longer);
          filled = omega (arith, holds.filled, longer);
          rows = λ a k.
              let (x, at_a) = get_elem?_total ys a (omega (arith, rows)) in
              ap length (column_last a log ys x at_a)
              ∙ length-append (column a log) (x ∷ [])
              ∙ ap (λ (j : ℕ). j + 1) (holds.rows a k)
              ∙ sym longer;
          kept = λ a i k l m.
              let (x, at_a) = get_elem?_total ys a (omega (arith, rows)) in
              has a (i % slots) k (mod-lt i at_least)
              ∙ slot_read slots (length log) i h.head (column a log) x (slot h a (i % slots))
                  (get_elem? ys a) (holds.rows a k) holds.head (omega (arith, longer))
                  (omega (arith, longer)) at_a
                  (λ before. holds.kept a i k before (omega (arith, longer)))
              ∙ ap (λ (c : List (StepRecord A F)). get_elem? c i)
                  (sym (column_last a log ys x at_a));
        },
      )
