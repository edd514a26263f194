-- ===== src/Games/History/Slots.antt =====
-- Writing the records of one step changes the slot being written in each row, and no other.
use rs_social_simulation_too.Prelude.{
  ℕ, zero, suc, ◌+◌, ◌-◌, ◌*◌, ◌≤◌, ◌<◌, ◌≡◌, refl, sym, ◌∙◌, ap,
}
use rs_social_simulation_too.Prelude.{
  arith, ◌⊎◌, Bool, ==→≢, ltb, leb, ◌==◌, ◌&&◌, if◌then◌else◌, Bool-cases, inl, inr,
}
use rs_social_simulation_too.Prelude.{Option, some, List, [], ◌∷◌, length, get_elem?, set, if_true}
use rs_social_simulation_too.Prelude.{get_elem?-set, length-set, lt→ltb, ==→≡}
use rs_social_simulation_too.Prelude.{All, subst, get_elem?_total, ==_refl, none, true}
use rs_social_simulation_too.Core.{AgentId}
use rs_social_simulation_too.Games.History.{fill, fill_record, fill_seats, then_rows}
use rs_social_simulation_too.Games.History.{StepRecord, StepHistory, put, put_rows}

-- Slots of different rows, and different slots of a row, stand at different places.
pub slot_of : (len a b s t : ℕ) → s < len → t < len → a * len + s ≡ b * len + t → (a ≡ b) × (s ≡ t)
slot_of len a b s t hs ht e = elim (compared a b) [
  | inl same ↦ (same, omega (arith, ap (λ (c : ℕ). c * len) same))
  | inr (inl less) ↦ absurd (omega (arith, rows_below len a b less))
  | inr (inr more) ↦ absurd (omega (arith, rows_below len b a more))
]
  where
    rows_below : (len a b : ℕ) → a < b → a * len + len ≤ b * len
    rows_below len a b h = grind arith

    compared : (a b : ℕ) → (a ≡ b) ⊎ ((a < b) ⊎ (b < a))
    compared a b = ground arith

pub slot_inside : (n len a s : ℕ) → a < n → s < len → a * len + s < n * len
slot_inside n len a s h k = omega (arith, whole n len a h)
  where
    whole : (n len a : ℕ) → a < n → a * len + len ≤ n * len
    whole n len a h = grind arith

module _ {A F : Type 0} where
  abbrev pub slot : StepHistory A F → ℕ → ℕ → Option (StepRecord A F)
  slot h a s = get_elem? h.data_ (a * h.history_len + s)

  -- The rows from `row` on are written, one record each.
  abbrev Wrote : StepHistory A F → ℕ → List (StepRecord A F) → List (StepRecord A F) → Type 0
  Wrote h row xs d =
      (a s : ℕ)
      → s < h.history_len
      → get_elem? d (a * h.history_len + s) ≡ (
          if s == h.head && (leb row a && ltb a (row + length xs))
          then get_elem? xs (a - row)
          else slot h a s)

  put-slot :
      (h : StepHistory A F) (row : ℕ) (x : StepRecord A F)
      → h.head < h.history_len
      → length h.data_ ≡ h.n_agents * h.history_len
      → row < h.n_agents
      → (d : List (StepRecord A F)) × (put h row x ≡ some (record h { data_ = d }))
        × (length d ≡ length h.data_)
        × ((a s : ℕ)
            → s < h.history_len
            → get_elem? d (a * h.history_len + s)
              ≡ (if s == h.head && row == a then some x else slot h a s))
  unfolding put
  put-slot h row x hh hd hr =
      let place = row * h.history_len + h.head in
      let inside : place < length h.data_ =
        omega (arith, slot_inside h.n_agents h.history_len row h.head hr hh) in
      (
        set h.data_ place x,
        if_true _ _ (lt→ltb _ _ inside),
        length-set h.data_ place x,
        λ a s k.
            get_elem?-set h.data_ place (a * h.history_len + s) x inside
            ∙ ap (λ (c : Bool). if c then some x else slot h a s)
                (same_place h.history_len row a h.head s hh k),
      )
    where
      same_place :
          (len a b s t : ℕ) → s < len → t < len → (a * len + s == b * len + t) ≡ (t == s && a == b)
      same_place len a b s t hs ht = elim (Bool-cases (a * len + s == b * len + t)) [
        | inl e ↦
            let (rows, slots) = slot_of len a b s t hs ht (==→≡ _ _ e) in
            e ∙ sym (ground (arith, rows, slots))
        | inr e ↦ elim (Bool-cases (t == s && a == b)) [
          | inl both ↦
              let rows : a ≡ b = ground arith in
              let slots : s ≡ t = ground arith in
              absurd (==→≢ _ _ e (omega (arith, ap (λ (c : ℕ). c * len) rows)))
          | inr other ↦ e ∙ sym other
        ]
      ]

  pub put_rows-Wrote :
      (h : StepHistory A F) (row : ℕ) (xs : List (StepRecord A F))
      → h.head < h.history_len
      → length h.data_ ≡ h.n_agents * h.history_len
      → row + length xs ≤ h.n_agents
      → (d : List (StepRecord A F)) × (put_rows h row xs ≡ some (record h { data_ = d }))
        × (length d ≡ length h.data_)
        × Wrote h row xs d
  unfolding put_rows
  put_rows-Wrote h row [] hh hd hr = (h.data_, refl, refl, λ a s k. ground arith)
  put_rows-Wrote h row (x ∷ xs) hh hd hr =
      let (d, at_row, size, wrote) = put-slot h row x hh hd (omega arith) in
      let (d', at_rest, size', wrote') =
        put_rows-Wrote (record h { data_ = d }) (row + 1) xs hh (size ∙ hd) (omega arith) in
      (
        d',
        rw (put_rows, at_row) at_rest,
        size' ∙ size,
        λ a s k. rw (wrote' a s k, wrote a s k) (one_more xs x (s == h.head) row a (slot h a s)),
      )
    where
      behind :
          (xs : List (StepRecord A F)) (x : StepRecord A F) (c : Bool) (row a : ℕ)
          (old : Option (StepRecord A F)) (i j : ℕ)
          → a - row ≡ i
          → a - (row + 1) ≡ j
          → (if c && (leb (row + 1) a && ltb a (row + 1 + length xs))
              then get_elem? xs j
              else if c && row == a
              then some x
              else old)
            ≡ (if c && (leb row a && ltb a (row + suc (length xs)))
                then get_elem? (x ∷ xs) i
                else old)
      behind xs x c row a old zero j h k = ground arith
      behind xs x c row a old (suc i) j h k =
          let same : j ≡ i = omega arith in rw same (ground arith)

      one_more :
          (xs : List (StepRecord A F)) (x : StepRecord A F) (c : Bool) (row a : ℕ)
          (old : Option (StepRecord A F))
          → (if c && (leb (row + 1) a && ltb a (row + 1 + length xs))
              then get_elem? xs (a - (row + 1))
              else if c && row == a
              then some x
              else old)
            ≡ (if c && (leb row a && ltb a (row + suc (length xs)))
                then get_elem? (x ∷ xs) (a - row)
                else old)
      one_more xs x c row a old = behind xs x c row a old (a - row) (a - (row + 1)) refl refl

  -- The slot being written holds one record for each row.
  abbrev pub HasRows : StepHistory A F → List (StepRecord A F) → List (StepRecord A F) → Type 0
  HasRows h xs d =
      (a s : ℕ)
      → a < h.n_agents
      → s < h.history_len
      → get_elem? d (a * h.history_len + s) ≡ (if s == h.head then get_elem? xs a else slot h a s)

  put_rows-HasRows :
      (h : StepHistory A F) (xs d : List (StepRecord A F))
      → length xs ≡ h.n_agents
      → Wrote h 0 xs d
      → HasRows h xs d
  put_rows-HasRows h xs d size wrote a s below inside =
      let here : (leb 0 a && ltb a (0 + length xs)) ≡ true = ground (arith, size) in
      let whole : a - 0 ≡ a = omega arith in
      wrote a s inside
      ∙ ap (λ (c : Bool). if s == h.head && c then get_elem? xs (a - 0) else slot h a s) here
      ∙ ap (λ (i : ℕ). if s == h.head && true then get_elem? xs i else slot h a s) whole
      ∙ ap (λ (c : Bool). if c then get_elem? xs a else slot h a s) (and_true (s == h.head))
    where
      and_true : (b : Bool) → (b && true) ≡ b
      and_true b = ground arith

  abbrev pub set_filled :
      List (StepRecord A F) → AgentId → Option A → Option (StepRecord A F) → List (StepRecord A F)
  set_filled xs agent action none = xs
  set_filled xs agent action (some r) = set xs agent (fill action r)

  -- The records with the actions of the seats filled in, the first seat of an agent first.
  abbrev pub filled_records :
      List (StepRecord A F) → List (AgentId × Option A) → List (StepRecord A F)
  filled_records xs [] = xs
  filled_records xs (seat ∷ seats) =
      filled_records (set_filled xs seat.0 seat.1 (get_elem? xs seat.0)) seats

  fill_seats-HasRows :
      (h : StepHistory A F) (xs d : List (StepRecord A F)) (seats : List (AgentId × Option A))
      → h.head < h.history_len
      → length d ≡ h.n_agents * h.history_len
      → length xs ≡ h.n_agents
      → HasRows h xs d
      → All (λ (seat : AgentId × Option A). seat.0 < h.n_agents) seats
      → (d' : List (StepRecord A F)) × (fill_seats (record h { data_ = d }) seats
          ≡ some (record h { data_ = d' }))
        × (length d' ≡ h.n_agents * h.history_len)
        × (length (filled_records xs seats) ≡ h.n_agents)
        × HasRows h (filled_records xs seats) d'
  unfolding fill_seats
  fill_seats-HasRows h xs d [] inside size rows has all = (d, refl, size, rows, has)
  fill_seats-HasRows h xs d (seat ∷ seats) inside size rows has (known, all) =
      let agent = seat.0 in
      let (r, at_agent) = get_elem?_total xs agent (omega arith) in
      let x = fill seat.1 r in
      let reads : get_elem? d (agent * h.history_len + h.head) ≡ some r =
        has agent h.head known inside ∙ if_true _ _ (==_refl h.head) ∙ at_agent in
      let (d', put_there, same_size, wrote) =
        put-slot (record h { data_ = d }) agent x inside size known in
      let has' : HasRows h (set xs agent x) d' = λ a s below k.
        wrote a s k
        ∙ ap (λ (v : Option (StepRecord A F)). if s == h.head && agent == a then some x else v)
            (has a s below k)
        ∙ one_row (s == h.head) (agent == a) x (get_elem? xs a) (slot h a s)
        ∙ ap (λ (v : Option (StepRecord A F)). if s == h.head then v else slot h a s)
            (sym (get_elem?-set xs agent a x (omega arith))) in
      let (d'', rest, size'', rows'', has'') =
        fill_seats-HasRows h (set xs agent x) d' seats inside (same_size ∙ size)
          (length-set xs agent x ∙ rows) has' all in
      let shown : filled_records xs (seat ∷ seats) ≡ filled_records (set xs agent x) seats =
        ap (λ (v : Option (StepRecord A F)). filled_records (set_filled xs agent seat.1 v) seats)
          at_agent in
      (
        d'',
        ap
              (λ (v : Option (StepRecord A F)).
                then_rows (fill_record (record h { data_ = d }) agent seat.1 v)
                  (λ h'. fill_seats h' seats))
              reads
            ∙ ap (λ (v : Option (StepHistory A F)). then_rows v (λ h'. fill_seats h' seats))
                put_there
            ∙ rest,
        size'',
        ap length shown ∙ rows'',
        subst (λ (ys : List (StepRecord A F)). HasRows h ys d'') (sym shown) has'',
      )
    where
      one_row :
          (c e : Bool) (x : StepRecord A F) (old other : Option (StepRecord A F))
          → (if c && e then some x else if c then old else other)
            ≡ (if c then if e then some x else old else other)
      one_row c e x old other = ground arith

  -- What the two loops of a step leave.
  pub written-HasRows :
      (h : StepHistory A F) (xs : List (StepRecord A F)) (seats : List (AgentId × Option A))
      → h.head < h.history_len
      → length h.data_ ≡ h.n_agents * h.history_len
      → length xs ≡ h.n_agents
      → All (λ (seat : AgentId × Option A). seat.0 < h.n_agents) seats
      → (d : List (StepRecord A F)) × (then_rows (put_rows h 0 xs) (λ h'. fill_seats h' seats)
          ≡ some (record h { data_ = d }))
        × (length d ≡ h.n_agents * h.history_len)
        × (length (filled_records xs seats) ≡ h.n_agents)
        × HasRows h (filled_records xs seats) d
  written-HasRows h xs seats inside size rows all =
      let (d, put_all, same_size, wrote) = put_rows-Wrote h 0 xs inside size (omega arith) in
      let (d', filled, size', rows', has) =
        fill_seats-HasRows h xs d seats inside (same_size ∙ size) rows
          (put_rows-HasRows h xs d rows wrote) all in
      (
        d',
        ap (λ (v : Option (StepHistory A F)). then_rows v (λ h'. fill_seats h' seats)) put_all
            ∙ filled,
        size',
        rows',
        has,
      )
