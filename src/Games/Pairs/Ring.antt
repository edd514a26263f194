-- ===== src/Games/Pairs/Ring.antt =====
-- A ring holds the last of what was pushed into it, oldest first.
use native.Mathlib.Nat.{mod-add-mod, mod-eq_of_lt, mod-lt}
use rs_social_simulation_too.Prelude.{
  ℕ, zero, suc, ◌+◌, ◌-◌, ◌%◌, ◌≤◌, ◌<◌, min, ◌≡◌, refl, sym, ◌∙◌, ap,
}
use rs_social_simulation_too.Prelude.{arith, true, false, ◌==◌, Bool-cases, inl, inr}
use rs_social_simulation_too.Prelude.{none, some, List, [], ◌∷◌, ◌++◌, length, get_elem?, set, drop}
use rs_social_simulation_too.Prelude.{
  length-append, length-set, length-replicate, if_true, if_false,
}
use rs_social_simulation_too.Prelude.{get_elem?-set, get_elem?_total, get_elem?-append_left}
use rs_social_simulation_too.Prelude.{
  get_elem?-append_last, drop_split, drop_all, recent, slots_differ, place_full,
}
use rs_social_simulation_too.Prelude.{==→≡, ==→≢}
use rs_social_simulation_too.Games.Pairs.{
  PairRecord, PairRing, new_ring, push_ring, slots, iter_ring,
}

module _ {A : Type 0} where
  -- The ring after the records of `log` were pushed.
  pub record Holds (n : ℕ) (r : PairRing A) (log : List (PairRecord A)) : Type 0 where
    pub size : length r.data_ ≡ n
    pub head : r.head ≡ length log % n
    pub filled : r.filled ≡ min (length log) n
    pub kept :
        (i : ℕ)
        → i < length log
        → length log ≤ i + n
        → (x : PairRecord A) × (get_elem? log i ≡ some x)
          × (get_elem? r.data_ (i % n) ≡ some (some x))

  pub new_ring-Holds : (n : ℕ) → 0 < n → Holds n (new_ring n) []
  unfolding new_ring
  new_ring-Holds n h = record {
    size = length-replicate n none;
    head = sym (mod-eq_of_lt h);
    filled = omega arith;
    kept = λ i k l. absurd (omega arith);
  }

  -- After a push the ring holds one record more, and no index is out of range.
  pub push_ring-Holds :
      (n : ℕ) (r : PairRing A) (log : List (PairRecord A)) (x : PairRecord A)
      → 0 < n
      → Holds n r log
      → (r' : PairRing A) × (push_ring r x ≡ some r') × Holds n r' (log ++ (x ∷ []))
  unfolding push_ring
  push_ring-Holds n r log x pos h =
      let len = length log in
      let longer : length (log ++ (x ∷ [])) ≡ len + 1 = length-append log (x ∷ []) in
      let inside : r.head < length r.data_ = omega (arith, h.size, h.head, mod-lt len pos) in
      let (old, at_head) = get_elem?_total r.data_ r.head inside in
      let r' : PairRing A = record {
        data_ = set r.data_ r.head (some x);
        head = (r.head + 1) % length r.data_;
        filled = min (r.filled + 1) (length r.data_);
      } in
      (
        r',
        rw (push_ring, at_head) refl,
        record {
          size = length-set r.data_ r.head (some x) ∙ h.size;
          head =
              ap (λ (k : ℕ). (r.head + 1) % k) h.size
              ∙ ap (λ (k : ℕ). (k + 1) % n) h.head
              ∙ mod-add-mod len n 1
              ∙ ap (λ (k : ℕ). k % n) (sym longer);
          filled = omega (arith, h.filled, h.size, longer);
          kept = λ i k l.
              let write = get_elem?-set r.data_ r.head (i % n) (some x) inside in
              elim (Bool-cases (len == i)) [
                | inl e ↦
                    let last : len ≡ i = ==→≡ len i e in
                    let here : (r.head == i % n) ≡ true =
                      ground (arith, h.head, ap (λ (j : ℕ). j % n) last) in
                    (x, get_elem?-append_last log x i (sym last), write ∙ if_true _ _ here)
                | inr e ↦
                    let before : i < len = omega (arith, ==→≢ len i e, longer) in
                    let (y, in_log, in_ring) = h.kept i before (omega (arith, longer)) in
                    let away : (r.head == i % n) ≡ false = elim (Bool-cases (r.head == i % n)) [
                      | inl same ↦ absurd (
                          slots_differ n i len before (omega (arith, longer))
                            (sym (==→≡ r.head (i % n) same) ∙ h.head))
                      | inr other ↦ other
                    ] in
                    (
                      y,
                      get_elem?-append_left log (x ∷ []) i before ∙ in_log,
                      write ∙ if_false _ _ away ∙ in_ring,
                    )
              ];
        },
      )

  slots-drop :
      (n : ℕ) (r : PairRing A) (log : List (PairRecord A)) (start k count : ℕ)
      → Holds n r log
      → ((j : ℕ) → j < r.filled → (start + j) % length r.data_ ≡ (length log - n + j) % n)
      → k + count ≡ r.filled
      → slots r start k count ≡ some (drop (length log - n + k) log)
  unfolding slots
  slots-drop n r log start k zero h places e =
      ap some (sym (drop_all (length log - n + k) log (omega (arith, h.filled))))
  slots-drop n r log start k (suc count) h places e =
      let place = length log - n + k in
      let (x, in_log, in_ring) = h.kept place (omega (arith, h.filled)) (omega (arith, h.filled)) in
      let next : length log - n + (k + 1) ≡ suc place = omega arith in
      rw
        (
          places k (omega arith),
          in_ring,
          slots-drop n r log start (k + 1) count h places (omega arith),
          next,
          drop_split place log x in_log,
        )
        refl

  -- What a ring gives back is the last records of the log, as many as it has slots, or all of them if
  -- they are fewer.
  pub iter_ring-recent :
      (n : ℕ) (r : PairRing A) (log : List (PairRecord A))
      → Holds n r log
      → iter_ring r ≡ some (recent n log)
  unfolding iter_ring
  iter_ring-recent n r log h =
      let whole : length log - n + 0 ≡ length log - n = omega arith in
      elim (Bool-cases (r.filled == length r.data_)) [
        | inl e ↦
            let full : r.filled ≡ length r.data_ = ==→≡ _ _ e in
            let places : (j : ℕ)
                → j < r.filled
                → (r.head + j) % length r.data_ ≡ (length log - n + j) % n =
              λ j k.
                rw (h.head, h.size)
                  (place_full n (length log) j (omega (arith, full, h.size, h.filled))) in
            ap (λ (s : ℕ). slots r s 0 r.filled) (if_true _ _ e)
            ∙ slots-drop n r log r.head 0 r.filled h places (omega arith)
            ∙ ap (λ (k : ℕ). some (drop k log)) whole
        | inr e ↦
            let short : length log < n = omega (arith, ==→≢ _ _ e, h.size, h.filled) in
            let places : (j : ℕ)
                → j < r.filled
                → (0 + j) % length r.data_ ≡ (length log - n + j) % n =
              λ j k. rw h.size (ap (λ (i : ℕ). i % n) (omega arith)) in
            ap (λ (s : ℕ). slots r s 0 r.filled) (if_false _ _ e)
            ∙ slots-drop n r log 0 0 r.filled h places (omega arith)
            ∙ ap (λ (k : ℕ). some (drop k log)) whole
      ]
