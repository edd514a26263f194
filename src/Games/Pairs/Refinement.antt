-- ===== src/Games/Pairs/Refinement.antt =====
-- The history of the pairs against the log of all encounters: each pair's ring holds the last of the
-- pair's own records.
use mathlib.Core.List.{append_assoc, append-nil}
use rs_social_simulation_too.Prelude.{ℕ, suc, ◌-◌, ◌<◌, ◌≡◌, refl, sym, ◌∙◌, ap, arith}
use rs_social_simulation_too.Prelude.{Bool, ◌==◌, ◌&&◌, if◌then◌else◌, Bool-cases, inl, inr}
use rs_social_simulation_too.Prelude.{
  Option, none, some, List, [], ◌∷◌, ◌++◌, length, get_elem?, set, map,
}
use rs_social_simulation_too.Prelude.{subst, length-set, recent, map-recent, length-map, min}
use rs_social_simulation_too.Prelude.Sort.{IsStrictlySorted}
use rs_social_simulation_too.Prelude.Sort.Numbers.{pair_ord, pair_eq, pair_eq_sound}
use rs_social_simulation_too.Core.{AgentId}
use rs_social_simulation_too.Games.Pairs.{
  PairRecord, PairRing, PairHistory, Key, Search, found, missing,
}
use rs_social_simulation_too.Games.Pairs.{new_ring, insert_at, search_keys, key_of}
use rs_social_simulation_too.Games.Pairs.{
  is_swapped, oriented, push, push_found, push_at, new, view, iter,
}
use rs_social_simulation_too.Games.Pairs.{turned, turned_all, found_ring, view_len}
use rs_social_simulation_too.Games.Pairs.Ring.{
  Holds, new_ring-Holds, push_ring-Holds, iter_ring-recent,
}
use rs_social_simulation_too.Games.Pairs.Keys.{
  value_at, value_at-insert_at, value_at-set, value_at_found,
}
use rs_social_simulation_too.Games.Pairs.Keys.{
  length-insert_at, search_keys-insert_at, insert_at-IsStrictlySorted,
}

-- The arguments of a call of `push`.
pub record Encounter (A : Type 0) : Type 0 where
  pub t : ℕ
  pub first : AgentId
  pub second : AgentId
  pub first_action : A
  pub second_action : A

module _ {A : Type 0} where
  -- One push for each encounter.
  abbrev pub push_each : PairHistory A → List (Encounter A) → Option (PairHistory A)
  push_each h [] = some h
  push_each h (m ∷ ms) = elim (push h m.t m.first m.second m.first_action m.second_action) [
    | none ↦ none
    | some h' ↦ push_each h' ms
  ]

  abbrev record_of : Encounter A → PairRecord A
  record_of m = record {
    t = m.t;
    actions = oriented m.first m.second m.first_action m.second_action;
  }

  abbrev kept_if : Bool → PairRecord A → List (PairRecord A) → List (PairRecord A)
  kept_if c x xs = if c then x ∷ xs else xs

  -- The records of a key.
  abbrev met : Key → List (Encounter A) → List (PairRecord A)
  met k [] = []
  met k (m ∷ ms) = kept_if (pair_eq (key_of m.first m.second) k) (record_of m) (met k ms)

  met_last :
      (k : Key) (ms : List (Encounter A)) (m : Encounter A)
      → met k (ms ++ (m ∷ []))
        ≡ (if pair_eq (key_of m.first m.second) k then met k ms ++ (record_of m ∷ []) else met k ms)
  met_last k [] m = elim (Bool-cases (pair_eq (key_of m.first m.second) k)) [
    | inl e ↦ rw e refl
    | inr e ↦ rw e refl
  ]
  met_last k (x ∷ ms) m = elim (Bool-cases (pair_eq (key_of x.first x.second) k)) [
    | inl e ↦ elim (Bool-cases (pair_eq (key_of m.first m.second) k)) [
      | inl e' ↦ rw (e, met_last k ms m, e') refl
      | inr e' ↦ rw (e, met_last k ms m, e') refl
    ]
    | inr e ↦ rw (e, met_last k ms m) refl
  ]

  -- What stands beside a key, against the records of the key.
  Kept : ℕ → Option (PairRing A) → List (PairRecord A) → Type 0
  Kept n none log = log ≡ []
  Kept n (some r) log = Holds n r log

  record Keeps (n : ℕ) (h : PairHistory A) (log : List (Encounter A)) : Type 0 where
    pub len : h.len ≡ n
    pub sizes : length h.rings ≡ length h.keys
    pub sorted : IsStrictlySorted pair_ord h.keys
    pub kept : (k : Key) → Kept n (value_at k h.keys h.rings) (met k log)

  -- A ring is written at a key that is found.
  push_at-Keeps :
      (n : ℕ) (h : PairHistory A) (log : List (Encounter A)) (m : Encounter A) (i : ℕ)
      → 0 < n
      → Keeps n h log
      → search_keys (key_of m.first m.second) h.keys ≡ found i
      → (h' : PairHistory A) × (push_at h (record_of m) i (get_elem? h.rings i) ≡ some h')
        × Keeps n h' (log ++ (m ∷ []))
  unfolding Kept
  push_at-Keeps n h log m i pos keeps e =
      let k = key_of m.first m.second in
      let (r, at_i, at_k) = value_at_found k i h.keys h.rings keeps.sizes e in
      let holds : Holds n r (met k log) =
        subst (λ (v : Option (PairRing A)). Kept n v (met k log)) at_k (keeps.kept k) in
      let (r', pushed, holds') = push_ring-Holds n r (met k log) (record_of m) pos holds in
      (
        record h { rings = set h.rings i r' },
        rw (at_i, pushed) refl,
        record {
          len = keeps.len;
          sizes = length-set h.rings i r' ∙ keeps.sizes;
          sorted = keeps.sorted;
          kept = λ j.
              rw (value_at-set k j i h.keys h.rings r' keeps.sizes e, met_last j log m)
                (elim (Bool-cases (pair_eq k j)) [
                  | inl same ↦ rw same (
                      subst (λ (j : Key). Holds n r' (met j log ++ (record_of m ∷ [])))
                        (pair_eq_sound k j same) holds')
                  | inr other ↦ rw other (keeps.kept j)
                ]);
        },
      )

  -- A key comes in with an empty ring.
  insert_at-Keeps :
      (n : ℕ) (h : PairHistory A) (log : List (Encounter A)) (k : Key) (i : ℕ)
      → 0 < n
      → Keeps n h log
      → search_keys k h.keys ≡ missing i
      → Keeps n
          (record h { keys = insert_at i k h.keys; rings = insert_at i (new_ring h.len) h.rings })
          log
  unfolding Kept
  insert_at-Keeps n h log k i pos keeps e =
      let none_met : met k log ≡ [] =
        subst (λ (v : Option (PairRing A)). Kept n v (met k log)) (ap (found_ring h.rings) e)
          (keeps.kept k) in
      record {
        len = keeps.len;
        sizes =
            length-insert_at i h.rings (new_ring h.len)
            ∙ ap suc keeps.sizes
            ∙ sym (length-insert_at i h.keys k);
        sorted = insert_at-IsStrictlySorted k i h.keys e keeps.sorted;
        kept = λ j.
            rw (value_at-insert_at k j i h.keys h.rings (new_ring h.len) keeps.sizes e)
              (elim (Bool-cases (pair_eq k j)) [
                | inl same ↦
                    rw (same, keeps.len, sym (pair_eq_sound k j same), none_met)
                      (new_ring-Holds n pos)
                | inr other ↦ rw other (keeps.kept j)
              ]);
      }

  push-Keeps :
      (n : ℕ) (h : PairHistory A) (log : List (Encounter A)) (m : Encounter A)
      → 0 < n
      → Keeps n h log
      → (h' : PairHistory A) × (push h m.t m.first m.second m.first_action m.second_action
          ≡ some h')
        × Keeps n h' (log ++ (m ∷ []))
  unfolding push
  push-Keeps n h log m pos keeps = placed (search_keys (key_of m.first m.second) h.keys) refl
    where
      placed :
          (s : Search)
          → search_keys (key_of m.first m.second) h.keys ≡ s
          → (h' : PairHistory A) × (push_found h (key_of m.first m.second) (record_of m) s
              ≡ some h')
            × Keeps n h' (log ++ (m ∷ []))
      placed (found i) e = push_at-Keeps n h log m i pos keeps e
      placed (missing i) e =
          push_at-Keeps n _ log m i pos
            (insert_at-Keeps n h log (key_of m.first m.second) i pos keeps e)
            (search_keys-insert_at (key_of m.first m.second) i h.keys e)

  push_each-Keeps :
      (n : ℕ) (h : PairHistory A) (log ms : List (Encounter A))
      → 0 < n
      → Keeps n h log
      → (h' : PairHistory A) × (push_each h ms ≡ some h') × Keeps n h' (log ++ ms)
  push_each-Keeps n h log [] pos keeps = (h, refl, subst (Keeps n h) (sym (append-nil log)) keeps)
  push_each-Keeps n h log (m ∷ ms) pos keeps =
      let (h', pushed, keeps') = push-Keeps n h log m pos keeps in
      let (h'', all_pushed, keeps'') = push_each-Keeps n h' (log ++ (m ∷ [])) ms pos keeps' in
      (
        h'',
        rw (push_each, pushed) all_pushed,
        subst (Keeps n h'') (append_assoc log (m ∷ []) ms) keeps'',
      )

  new-Keeps : (n : ℕ) → Keeps n (new n) []
  unfolding new Kept search_keys
  new-Keeps n = record { len = refl; sizes = refl; sorted = tt; kept = λ k. refl }

  -- The encounters of two agents, as the first of them saw them: the time, the agent's own action and the
  -- other's.
  abbrev pub seen : AgentId → AgentId → List (Encounter A) → List (ℕ × A × A)
  seen first second [] = []
  seen first second (m ∷ ms) =
      let rest = seen first second ms in
      if m.first == first && m.second == second
      then (m.t, m.first_action, m.second_action) ∷ rest
      else if m.first == second && m.second == first
      then (m.t, m.second_action, m.first_action) ∷ rest
      else rest

  turned_once :
      (t : ℕ) (x y : AgentId) (a b : A) (first second : AgentId) (rest : List (PairRecord A))
      → map (turned (is_swapped first second)) (
          kept_if
            (pair_eq (key_of x y) (key_of first second))
            (record { t = t; actions = oriented x y a b })
            rest)
        ≡ (if x == first && y == second
            then (t, a, b) ∷ map (turned (is_swapped first second)) rest
            else if x == second && y == first
            then (t, b, a) ∷ map (turned (is_swapped first second)) rest
            else map (turned (is_swapped first second)) rest)
  turned_once t x y a b first second rest = ground arith

  map-met :
      (first second : AgentId) (ms : List (Encounter A))
      → map (turned (is_swapped first second)) (met (key_of first second) ms) ≡ seen first second ms
  map-met first second [] = refl
  map-met first second (m ∷ ms) = rw (sym (map-met first second ms)) (
      turned_once m.t m.first m.second m.first_action m.second_action first second
        (met (key_of first second) ms))

  -- On a new history of a length above zero no push panics, whatever the encounters and their order.
  -- The view of two agents then yields the last of their encounters, as many as the length or all of
  -- them if they are fewer, oldest first, each with the first agent's own action before the other's, and
  -- the view's length is how many these are.
  pub iter-view-push_each :
      (n : ℕ) (ms : List (Encounter A)) (first second : AgentId)
      → 0 < n
      → (h : PairHistory A) × (push_each (new n) ms ≡ some h)
        × (iter (view h first second) ≡ some (recent n (seen first second ms)))
        × (view_len (view h first second) ≡ min (length (seen first second ms)) n)
  unfolding iter view Kept
  iter-view-push_each n ms first second pos =
      let (h, pushed, keeps) = push_each-Keeps n (new n) [] ms pos (new-Keeps n) in
      (
        h,
        pushed,
        viewed n (value_at (key_of first second) h.keys h.rings) (is_swapped first second)
              (met (key_of first second) ms) (keeps.kept (key_of first second))
            ∙ ap some (
                map-recent (turned (is_swapped first second)) n (met (key_of first second) ms)
                ∙ ap (recent n) (map-met first second ms)),
        counted n (value_at (key_of first second) h.keys h.rings) (is_swapped first second)
              (met (key_of first second) ms) (keeps.kept (key_of first second))
            ∙ ap (λ (k : ℕ). min k n)
                (sym (length-map (turned (is_swapped first second)) _)
                  ∙ ap length (map-met first second ms)),
      )
    where
      viewed :
          (n : ℕ) (v : Option (PairRing A)) (swapped : Bool) (log : List (PairRecord A))
          → Kept n v log
          → iter (record { ring = v; swapped = swapped })
            ≡ some (map (turned swapped) (recent n log))
      viewed n none swapped log h = let k : 0 - n ≡ 0 = omega arith in rw (h, k) refl
      viewed n (some r) swapped log h = ap (turned_all swapped) (iter_ring-recent n r log h)

      counted :
          (n : ℕ) (v : Option (PairRing A)) (swapped : Bool) (log : List (PairRecord A))
          → Kept n v log
          → view_len (record { ring = v; swapped = swapped }) ≡ min (length log) n
      counted n none swapped log h = omega (arith, ap length h)
      counted n (some r) swapped log h = h.filled
