-- ===== src/Games/Learn/Sampling.antt =====
-- What sampling from weights returns.
use rs_social_simulation_too.Prelude.{
  ℕ, zero, suc, ◌+◌, ◌<◌, ◌≡◌, refl, sym, ◌∙◌, ap, arith, Bool, true,
}
use rs_social_simulation_too.Prelude.{
  false, not, ◌||◌, Bool-cases, inl, inr, ◌⊎◌, if◌then◌else◌, if_true, if_false,
}
use rs_social_simulation_too.Prelude.{Option, none, some, List, [], ◌∷◌, get_elem?, subst}
use rs_social_simulation_too.Games.Learn.{Weights, Draw, LearnResult, ok, err, invalid_probability}
use rs_social_simulation_too.Games.Learn.{
  empty_probability_mass, is_invalid, check_weights, pick, pick_checked,
}
use rs_social_simulation_too.Games.Learn.{sample_probabilities}

module _ (w : Weights) where
  open w use {Float, nil, is_finite, lt, add, add_zero}

  -- The weight at an index.
  abbrev pub WeightAt : List Float → ℕ → (Float → Type 0) → Type 0
  WeightAt vs i P = (v : Float) × (get_elem? vs i ≡ some v) × P v

  abbrev pub IsValid : List Float → Type 0
  IsValid vs = (i : ℕ) (v : Float) → get_elem? vs i ≡ some v → is_invalid w v ≡ false

  -- The end of the first loop, entered at the index `i`.
  data Checked (i : ℕ) (before : Option ℕ) (vs : List Float)
      : LearnResult Float (Option ℕ) → Type 0 where
    bad :
        (p j : ℕ) (v : Float)
        → i + j ≡ p
        → get_elem? vs j ≡ some v
        → is_invalid w v ≡ true
        → ((k : ℕ) (u : Float) → k < j → get_elem? vs k ≡ some u → is_invalid w u ≡ false)
        → Checked i before vs (err (invalid_probability p v))
    massless :
        IsValid vs
        → ((k : ℕ) (u : Float) → get_elem? vs k ≡ some u → lt nil u ≡ false)
        → Checked i before vs (ok before)
    massive :
        (p j : ℕ)
        → i + j ≡ p
        → IsValid vs
        → WeightAt vs j (λ v. lt nil v ≡ true)
        → Checked i before vs (ok (some p))

  -- What holds of the first element and of each later one.
  every :
      (P : Float → Type 0) (v : Float) (vs : List Float)
      → P v
      → ((k : ℕ) (u : Float) → get_elem? vs k ≡ some u → P u)
      → (k : ℕ) (u : Float) → get_elem? (v ∷ vs) k ≡ some u
      → P u
  every P v vs first rest zero u e = subst P (some_injective v u e) first
    where
      some_injective : (v u : Float) → some v ≡ some u → v ≡ u
      some_injective v u e = cc
  every P v vs first rest (suc k) u e = rest k u e

  extend :
      (i : ℕ) (before : Option ℕ) (v : Float) (vs : List Float)
      (result : LearnResult Float (Option ℕ))
      → is_invalid w v ≡ false
      → Checked (i + 1) (if lt nil v then some i else before) vs result
      → Checked i before (v ∷ vs) result
  extend i before v vs result valid (bad p j u place at_j invalid earlier) =
      bad p (suc j) u (omega arith) at_j invalid (earlier_too earlier)
    where
      earlier_too :
          ((k : ℕ) (u : Float) → k < j → get_elem? vs k ≡ some u → is_invalid w u ≡ false)
          → (k : ℕ) (u : Float) → k < suc j
          → get_elem? (v ∷ vs) k ≡ some u
          → is_invalid w u ≡ false
      earlier_too h zero u k e = let same : v ≡ u = cc in rw (sym same) valid
      earlier_too h (suc l) u k e = h l u (omega arith) e
  extend i before v vs result valid (massive p j place all at_j) =
      massive p (suc j) (omega arith) (every (λ (x : Float). is_invalid w x ≡ false) v vs valid all)
        at_j
  extend i before v vs result valid (massless all none_positive) = elim (Bool-cases (lt nil v)) [
    | inl e ↦ rw e (
        massive i 0 (omega arith) (every (λ (x : Float). is_invalid w x ≡ false) v vs valid all)
          (v, refl, e))
    | inr e ↦ rw e (
        massless (every (λ (x : Float). is_invalid w x ≡ false) v vs valid all)
          (every (λ (x : Float). lt nil x ≡ false) v vs e none_positive))
  ]

  check_weights-Checked :
      (i : ℕ) (before : Option ℕ) (vs : List Float)
      → Checked i before vs (check_weights w i before vs)
  unfolding check_weights
  check_weights-Checked i before [] = massless (λ k v e. absurd cc) (λ k v e. absurd cc)
  check_weights-Checked i before (v ∷ vs) = elim (Bool-cases (is_invalid w v)) [
    | inl e ↦
        subst (Checked i before (v ∷ vs)) (sym (if_true _ _ e))
          (bad i 0 v (omega arith) refl e (λ k u h. absurd (omega arith)))
    | inr e ↦ subst (Checked i before (v ∷ vs)) (sym (if_false _ _ e)) (
        extend i before v vs _ e
          (check_weights-Checked (i + 1) (if lt nil v then some i else before) vs))
  ]

  -- The second loop ends at an index of positive weight, or at the one it was given.
  pick_positive :
      (d c : Float) (last_positive i : ℕ) (vs : List Float)
      → IsValid vs
      → lt d c ≡ false
      → (pick w d c last_positive i vs ≡ last_positive)
        ⊎ ((j : ℕ) × (pick w d c last_positive i vs ≡ i + j) × WeightAt vs j (λ v. lt nil v ≡ true))
  unfolding pick
  pick_positive d c last_positive i [] all above = inl refl
  pick_positive d c last_positive i (v ∷ vs) all above = elim (Bool-cases (lt d (add c v))) [
    | inl e ↦ inr (0, if_true _ _ e ∙ omega arith, (v, refl, positive (Bool-cases (lt nil v)) e))
    | inr e ↦ elim (pick_positive d (add c v) last_positive (i + 1) vs (λ k. all (suc k)) e) [
      | inl end ↦ inl (if_false _ _ e ∙ end)
      | inr (j, place, at_j) ↦ inr (suc j, if_false _ _ e ∙ place ∙ omega arith, at_j)
    ]
  ]
    where
      differ : {b : Bool} → b ≡ true → b ≡ false → ⊥
      differ h k = cc

      finite : (a b : Bool) → (not a || b) ≡ false → a ≡ true
      finite a b h = ground arith

      not_negative : (a b : Bool) → (not a || b) ≡ false → b ≡ false
      not_negative a b h = ground arith

      positive : (lt nil v ≡ true) ⊎ (lt nil v ≡ false) → lt d (add c v) ≡ true → lt nil v ≡ true
      positive (inl h) e = h
      positive (inr h) e =
          let valid : is_invalid w v ≡ false = all 0 v refl in
          absurd (
            differ
              (add_zero c v d (finite (is_finite v) (lt v nil) valid)
                (not_negative (is_finite v) (lt v nil) valid) h e)
              above)

  -- The outcomes of sampling, and the stream that is left.
  pub data Samples {R : Type 0} (rng : Draw w R) (vs : List Float) (r : R)
      : LearnResult Float ℕ × R → Type 0 where
    first_invalid :
        (j : ℕ) (v : Float)
        → get_elem? vs j ≡ some v
        → is_invalid w v ≡ true
        → ((k : ℕ) (u : Float) → k < j → get_elem? vs k ≡ some u → is_invalid w u ≡ false)
        → Samples rng vs r (err (invalid_probability j v), r)
    no_mass :
        IsValid vs
        → ((k : ℕ) (u : Float) → get_elem? vs k ≡ some u → lt nil u ≡ false)
        → Samples rng vs r (err empty_probability_mass, r)
    drawn :
        IsValid vs
        → (j : ℕ) → WeightAt vs j (λ v. lt nil v ≡ true)
        → Samples rng vs r (ok j, (rng.draw r).1)

  -- For any weights, sampling draws once and returns an index whose weight is above zero, so never an
  -- action of weight zero; or it draws nothing and reports the first weight that is negative or not finite,
  -- or else that no weight is above zero.
  pub sample_probabilities-Samples :
      {R : Type 0} (rng : Draw w R) (vs : List Float) (r : R)
      → Samples rng vs r (sample_probabilities w rng vs r)
  unfolding sample_probabilities
  sample_probabilities-Samples rng vs r =
      by_outcome (check_weights w 0 none vs) (check_weights-Checked 0 none vs)
    where
      by_outcome :
          (result : LearnResult Float (Option ℕ))
          → Checked 0 none vs result
          → Samples rng vs r (pick_checked w rng vs r result)
      by_outcome result (bad p j v place at_j invalid earlier) =
          let same : j ≡ p = omega arith in
          first_invalid p v (ap (get_elem? vs) (sym same) ∙ at_j) invalid
            (λ k u h. earlier k u (omega arith))
      by_outcome result (massless all none_positive) = no_mass all none_positive
      by_outcome result (massive p j place all (v, at_j, positive)) =
          elim (pick_positive (rng.draw r).0 nil p 0 vs all (rng.draw_not_negative r)) [
            | inl e ↦
                let same : j ≡ p = omega arith in
                rw e (drawn all p (v, ap (get_elem? vs) (sym same) ∙ at_j, positive))
            | inr (k, e, at_k) ↦
                let same : 0 + k ≡ k = omega arith in rw (e, same) (drawn all k at_k)
          ]
