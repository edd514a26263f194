-- ===== src/Games/History/View.antt =====
-- What a view of the step history yields, in the order of the steps.
use mathlib.Core.List.{append_assoc, append-nil}
use native.Mathlib.Nat.{mod-eq_of_lt, mod-lt, add-mod_right}
use rs_social_simulation_too.Prelude.{
  ℕ, zero, suc, ◌+◌, ◌-◌, ◌*◌, ◌%◌, ◌≤◌, ◌<◌, min, ◌≡◌, refl, sym, ◌∙◌, ap,
}
use rs_social_simulation_too.Prelude.{arith, false, ltb, leb, ltb→lt, Bool-cases, inl, inr, ◌⊎◌}
use rs_social_simulation_too.Prelude.{
  Option, none, some, List, [], ◌∷◌, ◌++◌, length, get_elem?, if_true, if_false,
}
use rs_social_simulation_too.Prelude.{
  All, subst, recent, length-append, get_elem?_beyond, get_elem?-append_left,
}
use rs_social_simulation_too.Prelude.{
  get_elem?-append_right, get_elem?-slice, length-slice, get_elem?-drop, slice,
}
use rs_social_simulation_too.Prelude.{reads_alike, place_full, drop, length-recent}
use rs_social_simulation_too.Core.{AgentId}
use rs_social_simulation_too.Games.History.{
  StepRecord, StepHistory, HistoryView, new, record_step, then_rows,
}
use rs_social_simulation_too.Games.History.{view, iter, last, len, last_of, or_else}
use rs_social_simulation_too.Games.History.Slots.{filled_records}
use rs_social_simulation_too.Games.History.Told.{told, written_steps, column-told}
use rs_social_simulation_too.Games.History.Refinement.{column, Holds, new-Holds, record_step-Holds}

beside : (a b : ℕ) → (a < b) ⊎ (b ≤ a)
beside a b = ground arith

module _ {R : Type 0} where
  -- A row whose front part holds the newest records, and all of them.
  short_view :
      (row col : List R) (filled : ℕ)
      → length col ≡ filled
      → filled < length row
      → ((j : ℕ) → j < filled → get_elem? row j ≡ get_elem? col j)
      → slice 0 filled row ++ slice 0 0 row ≡ col
  short_view row col filled size below kept =
      append-nil (slice 0 filled row)
      ∙ reads_alike _ _ (λ i. elim (beside i filled) [
        | inl h ↦ get_elem?-slice 0 filled row i i h (omega arith) ∙ kept i h
        | inr h ↦
            let fits : filled ≤ length row = omega arith in
            get_elem?_beyond (slice 0 filled row) i (omega (arith, length-slice 0 filled row fits))
            ∙ sym (get_elem?_beyond col i (omega arith))
      ])

  -- A row that is full: what is behind the position written next is older than what is before it.
  full_view :
      (row col : List R) (head : ℕ)
      → head < length row
      → length row ≤ length col
      → ((j t : ℕ)
          → t < length col
          → length col ≤ t + length row
          → j ≡ t % length row
          → j < length row
          → get_elem? row j ≡ get_elem? col t)
      → head ≡ length col % length row
      → slice head (length row) row ++ slice 0 head row ≡ recent (length row) col
  full_view row col head inside enough kept at_head =
      let slots = length row in
      let front_size : length (slice head slots row) ≡ slots - head =
        length-slice head slots row (omega arith) in
      let back_size : length (slice 0 head row) ≡ head =
        length-slice 0 head row (omega arith) ∙ omega arith in
      reads_alike _ _ (λ i. elim (beside i slots) [
        | inl h ↦ elim (beside i (slots - head)) [
          | inl k ↦
              let place : head + i ≡ (length col - slots + i) % slots =
                sym (mod-eq_of_lt (omega arith))
                ∙ ap (λ (p : ℕ). (p + i) % slots) at_head
                ∙ place_full slots (length col) i enough in
              get_elem?-append_left (slice head slots row) (slice 0 head row) i (omega arith)
              ∙ get_elem?-slice head slots row i (head + i) (omega arith) refl
              ∙ kept (head + i) (length col - slots + i) (omega arith) (omega arith) place
                  (omega arith)
              ∙ sym (get_elem?-drop (length col - slots) col i _ refl)
          | inr k ↦
              let j = i - (slots - head) in
              let round : j + slots ≡ head + i = omega arith in
              let place : j ≡ (length col - slots + i) % slots =
                sym (mod-eq_of_lt (omega arith))
                ∙ sym (add-mod_right j slots)
                ∙ ap (λ (p : ℕ). p % slots) round
                ∙ ap (λ (p : ℕ). (p + i) % slots) at_head
                ∙ place_full slots (length col) i enough in
              get_elem?-append_right (slice head slots row) (slice 0 head row) j i (omega arith)
              ∙ get_elem?-slice 0 head row j j (omega arith) (omega arith)
              ∙ kept j (length col - slots + i) (omega arith) (omega arith) place (omega arith)
              ∙ sym (get_elem?-drop (length col - slots) col i _ refl)
        ]
        | inr h ↦
            get_elem?_beyond (slice head slots row ++ slice 0 head row) i
              (omega (arith, length-append (slice head slots row) (slice 0 head row)))
            ∙ sym (
                get_elem?-drop (length col - slots) col i _ refl
                ∙ get_elem?_beyond col (length col - slots + i) (omega arith))
      ])

  some_last : (y : R) (ys : List R) → (z : R) × (last_of (y ∷ ys) ≡ some z)
  some_last y [] = (y, refl)
  some_last y (x ∷ ys) = some_last x ys

  last_append : (xs ys : List R) → or_else (last_of ys) (last_of xs) ≡ last_of (xs ++ ys)
  last_append [] [] = refl
  last_append [] (y ∷ ys) = let (z, e) = some_last y ys in rw e refl
  last_append (x ∷ []) [] = refl
  last_append (x ∷ []) (y ∷ ys) = let (z, e) = some_last y ys in rw e refl
  last_append (x ∷ (x' ∷ xs)) ys = last_append (x' ∷ xs) ys

  last_drop : (n : ℕ) (xs : List R) → n < length xs → last_of (drop n xs) ≡ last_of xs
  last_drop zero xs h = refl
  last_drop (suc n) [] h = absurd (omega arith)
  last_drop (suc n) (x ∷ []) h = absurd (omega arith)
  last_drop (suc n) (x ∷ (y ∷ xs)) h = last_drop n (y ∷ xs) (omega arith)

  last_recent : (n : ℕ) (xs : List R) → 0 < n → last_of (recent n xs) ≡ last_of xs
  last_recent n [] h = let k : 0 - n ≡ 0 = omega arith in rw k refl
  last_recent n (x ∷ xs) h = last_drop (length (x ∷ xs) - n) (x ∷ xs) (omega arith)

module _ {A F : Type 0} where
  -- One row for each of the `n` agents, and no other agent in a seat.
  abbrev pub IsStep : ℕ → List (StepRecord A F) × List (AgentId × Option A) → Type 0
  IsStep n p = (length p.0 ≡ n) × All (λ (seat : AgentId × Option A). seat.0 < n) p.1

  -- One step after the other.
  abbrev pub record_all :
      StepHistory A F
      → List (List (StepRecord A F) × List (AgentId × Option A))
      → Option (StepHistory A F)
  record_all h [] = some h
  record_all h (p ∷ steps) = then_rows (record_step h p.0 p.1) (λ h'. record_all h' steps)

  record_all-Holds :
      (n slots : ℕ) (h : StepHistory A F) (done : List (List (StepRecord A F)))
      (steps : List (List (StepRecord A F) × List (AgentId × Option A)))
      → 0 < slots
      → Holds n slots h done
      → All (IsStep n) steps
      → (h' : StepHistory A F) × (record_all h steps ≡ some h')
        × Holds n slots h' (done ++ written_steps steps)
  record_all-Holds n slots h done [] pos holds sizes =
      (h, refl, subst (Holds n slots h) (sym (append-nil done)) holds)
  record_all-Holds n slots h done (p ∷ steps) pos holds ((size, known), sizes) =
      let ys = filled_records p.0 p.1 in
      let (h', recorded, holds') = record_step-Holds n slots h done p.0 p.1 pos holds size known in
      let (h'', all_recorded, holds'') =
        record_all-Holds n slots h' (done ++ (ys ∷ [])) steps pos holds' sizes in
      (
        h'',
        rw (record_all, recorded) all_recorded,
        subst (Holds n slots h'') (append_assoc done (ys ∷ []) (written_steps steps)) holds'',
      )

  view-recent :
      (n slots : ℕ) (h : StepHistory A F) (log : List (List (StepRecord A F))) (agent : AgentId)
      → 0 < slots
      → Holds n slots h log
      → agent < n
      → (v : HistoryView (StepRecord A F)) × (view h agent ≡ some v)
        × (iter v ≡ recent slots (column agent log))
  unfolding view
  view-recent n slots h log agent pos holds known =
      let width = h.history_len in
      let row = slice (agent * width) ((agent + 1) * width) h.data_ in
      let col = column agent log in
      let inside : agent < h.n_agents = omega (arith, holds.agents) in
      let size : length col ≡ length log = holds.rows agent inside in
      let next : (agent + 1) * width ≡ agent * width + width = grind arith in
      let fits : (agent + 1) * width ≤ length h.data_ =
        omega (arith, next, holds.size, rows_fit h.n_agents width agent inside) in
      let row_size : length row ≡ width =
        length-slice (agent * width) ((agent + 1) * width) h.data_ fits ∙ omega (arith, next) in
      let in_row : (j : ℕ) → j < width → get_elem? row j ≡ get_elem? h.data_ (agent * width + j) =
        λ j k.
          get_elem?-slice (agent * width) ((agent + 1) * width) h.data_ j _ (omega (arith, next))
            refl in
      let listed : leb h.n_agents agent ≡ false = ground (arith, inside) in
      elim (Bool-cases (ltb h.filled width)) [
        | inl e ↦
            let below : h.filled < width = ltb→lt _ _ e in
            let all_kept : length col - slots ≡ 0 = omega (arith, holds.filled, holds.slots) in
            (
              record { front = slice 0 h.filled row; back = slice 0 0 row },
              if_false _ _ listed ∙ if_true _ _ e,
              short_view row col h.filled (omega (arith, holds.filled)) (omega arith) (λ j k.
                    in_row j (omega arith)
                    ∙ ap (λ (t : ℕ). get_elem? h.data_ (agent * width + t))
                        (sym (mod-eq_of_lt (omega arith)))
                    ∙ holds.kept agent j inside (omega (arith, holds.filled))
                        (omega (arith, holds.filled)))
                  ∙ sym (ap (λ (k : ℕ). drop k col) all_kept),
            )
        | inr e ↦
            let full : width ≤ h.filled = ground (arith, e) in
            let many : width ≤ length log = omega (arith, holds.filled) in
            let some_slot : 0 < width = omega (arith, holds.slots) in
            let below : h.head < width = omega (arith, holds.head, mod-lt (length log) some_slot) in
            (
              record { front = slice h.head (length row) row; back = slice 0 h.head row },
              if_false _ _ listed ∙ if_false _ _ e,
              full_view row col h.head (omega arith) (omega arith)
                    (λ j t k l place m.
                      in_row j (omega arith)
                      ∙ ap (λ (p : ℕ). get_elem? h.data_ (agent * width + p))
                          (place ∙ ap (λ (p : ℕ). t % p) row_size)
                      ∙ holds.kept agent t inside (omega arith) (omega arith))
                    (holds.head
                      ∙ ap (λ (p : ℕ). p % width) (sym size)
                      ∙ ap (λ (p : ℕ). length col % p) (sym row_size))
                  ∙ ap (λ (k : ℕ). recent k col) (row_size ∙ holds.slots),
            )
      ]
    where
      rows_fit : (n width agent : ℕ) → agent < n → agent * width + width ≤ n * width
      rows_fit n width agent h = grind arith

  -- On a new history of a length above zero, steps that record one row for each agent and seat no other agent
  -- do not panic. The view of an agent then yields the last of its records, as many as the length or all of
  -- them if they are fewer, oldest first. A record keeps the action that it has, and else takes the action of the
  -- agent's first seat of that step that has one; the rest of it is as recorded. The view's length is how many
  -- these are, its last is the agent's last record. An agent without a row has no view.
  pub view-record_all :
      (nil : F) (n slots : ℕ) (steps : List (List (StepRecord A F) × List (AgentId × Option A)))
      (agent : AgentId)
      → 0 < slots
      → All (IsStep n) steps
      → (h : StepHistory A F) × (record_all (new nil n slots) steps ≡ some h)
        × (agent < n
            → (v : HistoryView (StepRecord A F)) × (view h agent ≡ some v)
              × (iter v ≡ recent slots (told agent steps))
              × (len v ≡ min (length (told agent steps)) slots)
              × (last v ≡ last_of (told agent steps)))
        × (n ≤ agent → view h agent ≡ none)
  unfolding view
  view-record_all nil n slots steps agent pos sizes =
      let (h, recorded, holds) =
        record_all-Holds n slots (new nil n slots) [] steps pos (new-Holds nil n slots pos) sizes in
      (
        h,
        recorded,
        λ known.
            let same = column-told agent steps in
            let (v, viewed, read) =
              view-recent n slots h (written_steps steps) agent pos holds known in
            (
              v,
              viewed,
              read ∙ ap (recent slots) same,
              sym (length-append v.front v.back)
                  ∙ ap length read
                  ∙ length-recent slots (column agent (written_steps steps))
                  ∙ ap (λ (c : List (StepRecord A F)). min (length c) slots) same,
              last_append v.front v.back
                  ∙ ap last_of read
                  ∙ last_recent slots (column agent (written_steps steps)) pos
                  ∙ ap last_of same,
            ),
        λ unknown.
            if_true {b = leb h.n_agents agent} none _ (ground (arith, unknown, holds.agents)),
      )
