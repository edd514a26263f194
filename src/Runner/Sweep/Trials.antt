-- ===== src/Runner/Sweep/Trials.antt =====
-- The results of the trials of one scenario, and which failure is reported.
use mathlib.Core.List.{Perm}
use mathlib.Core.List.Perm
use rs_social_simulation_too.Prelude.{ℕ, ◌≤◌, ◌≡◌, refl, ap, ◌⊎◌, inl, inr}
use rs_social_simulation_too.Prelude.{Bool-cases, leb, leb→le, arith}
use rs_social_simulation_too.Prelude.{List, [], ◌∷◌, ◌++◌, All}
use rs_social_simulation_too.Runner.Sweep.{
  TrialFactory, SweepError, failed_trial, run_one, collect, cons_result,
}
use rs_social_simulation_too.Runner.Sweep.{
  insert_by_seed, sort_by_seed, sorted_results, run_validated_trials,
}

module _ {S E T R : Type 0} (factory : TrialFactory S E T R) where
  abbrev pub Succeeds : S → ℕ → Type 0
  Succeeds s seed = (x : R) × (run_one factory s seed ≡ inr x)

  -- The results of the seeds, in their order.
  abbrev pub Results : S → List ℕ → List R → Type 0
  Results s [] [] = Unit
  Results s (seed ∷ seeds) (x ∷ xs) = (run_one factory s seed ≡ inr x) × Results s seeds xs
  Results s seeds xs = ⊥

  abbrev pub SortedBySeed : List R → Type 0
  SortedBySeed [] = Unit
  SortedBySeed (x ∷ xs) = All (λ y. factory.seed_of x ≤ factory.seed_of y) xs × SortedBySeed xs

  -- How the trials end.
  pub data Trials (F : Type 0) (s : S) (seeds : List ℕ) : SweepError F E ⊎ List R → Type 0 where
    first_failure :
        (before after : List ℕ) (seed : ℕ) (e : E)
        → seeds ≡ before ++ (seed ∷ after)
        → All (Succeeds s) before
        → run_one factory s seed ≡ inl e
        → Trials F s seeds (inl (failed_trial seed e))
    all_succeed :
        (outcomes results : List R)
        → Results s seeds outcomes
        → Perm results outcomes
        → SortedBySeed results
        → Trials F s seeds (inr results)

  data Collected (F : Type 0) (s : S) (seeds : List ℕ) : SweepError F E ⊎ List R → Type 0 where
    failure :
        (before after : List ℕ) (seed : ℕ) (e : E)
        → seeds ≡ before ++ (seed ∷ after)
        → All (Succeeds s) before
        → run_one factory s seed ≡ inl e
        → Collected F s seeds (inl (failed_trial seed e))
    success : (outcomes : List R) → Results s seeds outcomes → Collected F s seeds (inr outcomes)

  collect-Collected :
      (F : Type 0) (s : S) (seeds : List ℕ) → Collected F s seeds (collect factory s seeds)
  unfolding collect
  collect-Collected F s [] = success [] tt
  collect-Collected F s (seed ∷ seeds) =
      first (run_one factory s seed) refl (collect factory s seeds) (collect-Collected F s seeds)
    where
      first :
          (outcome : E ⊎ R)
          → run_one factory s seed ≡ outcome
          → (rest : SweepError F E ⊎ List R) → Collected F s seeds rest
          → Collected F s (seed ∷ seeds) (cons_result factory seed outcome rest)
      first (inl e) h rest k = failure [] seeds seed e refl tt h
      first (inr x) h rest (failure before after other e place fine failed) =
          failure (seed ∷ before) after other e (ap (◌∷◌ seed) place) ((x, h), fine) failed
      first (inr x) h rest (success outcomes all) = success (x ∷ outcomes) (h, all)

  insert_by_seed-perm : (x : R) (ys : List R) → Perm (insert_by_seed factory x ys) (x ∷ ys)
  unfolding insert_by_seed
  insert_by_seed-perm x [] = Perm.refl (x ∷ [])
  insert_by_seed-perm x (y ∷ ys) = elim (Bool-cases (leb (factory.seed_of x) (factory.seed_of y))) [
    | inl e ↦ rw e (Perm.refl (x ∷ y ∷ ys))
    | inr e ↦ rw e (Perm.trans (Perm.cons y (insert_by_seed-perm x ys)) (Perm.swap x y ys))
  ]

  sort_by_seed-perm : (xs : List R) → Perm (sort_by_seed factory xs) xs
  unfolding sort_by_seed
  sort_by_seed-perm [] = Perm.refl []
  sort_by_seed-perm (x ∷ xs) =
      Perm.trans (insert_by_seed-perm x (sort_by_seed factory xs))
        (Perm.cons x (sort_by_seed-perm xs))

  All-insert_by_seed :
      (n : ℕ) (x : R) (ys : List R)
      → n ≤ factory.seed_of x
      → All (λ y. n ≤ factory.seed_of y) ys
      → All (λ y. n ≤ factory.seed_of y) (insert_by_seed factory x ys)
  unfolding insert_by_seed
  All-insert_by_seed n x [] h hs = (h, tt)
  All-insert_by_seed n x (y ∷ ys) h (hy, hs) =
      elim (Bool-cases (leb (factory.seed_of x) (factory.seed_of y))) [
        | inl e ↦ rw e (h, (hy, hs))
        | inr e ↦ rw e (hy, All-insert_by_seed n x ys h hs)
      ]

  later_seeds :
      (x y : R) (ys : List R)
      → factory.seed_of x ≤ factory.seed_of y
      → All (λ z. factory.seed_of y ≤ factory.seed_of z) ys
      → All (λ z. factory.seed_of x ≤ factory.seed_of z) ys
  later_seeds x y [] h hs = tt
  later_seeds x y (z ∷ ys) h (hz, hs) = (omega arith, later_seeds x y ys h hs)

  insert_by_seed-Sorted :
      (x : R) (ys : List R) → SortedBySeed ys → SortedBySeed (insert_by_seed factory x ys)
  unfolding insert_by_seed
  insert_by_seed-Sorted x [] h = (tt, tt)
  insert_by_seed-Sorted x (y ∷ ys) (hy, hs) =
      elim (Bool-cases (leb (factory.seed_of x) (factory.seed_of y))) [
        | inl e ↦ let below = leb→le _ _ e in rw e ((below, later_seeds x y ys below hy), (hy, hs))
        | inr e ↦
            let above : factory.seed_of y ≤ factory.seed_of x = ground (arith, e) in
            rw e
              (All-insert_by_seed (factory.seed_of y) x ys above hy, insert_by_seed-Sorted x ys hs)
      ]

  sort_by_seed-Sorted : (xs : List R) → SortedBySeed (sort_by_seed factory xs)
  unfolding sort_by_seed
  sort_by_seed-Sorted [] = tt
  sort_by_seed-Sorted (x ∷ xs) =
      insert_by_seed-Sorted x (sort_by_seed factory xs) (sort_by_seed-Sorted xs)

  -- Of the trials that fail, the first in the order of the seeds as they were given is the one reported; if none
  -- fails, the results are those of all the seeds, one each, in ascending order of their seeds.
  pub run_validated_trials-Trials :
      (F : Type 0) (s : S) (seeds : List ℕ)
      → Trials F s seeds (run_validated_trials factory s seeds)
  unfolding run_validated_trials
  run_validated_trials-Trials F s seeds =
      by_outcome (collect factory s seeds) (collect-Collected F s seeds)
    where
      by_outcome :
          (outcome : SweepError F E ⊎ List R)
          → Collected F s seeds outcome
          → Trials F s seeds (sorted_results factory outcome)
      by_outcome result (failure before after seed e place fine failed) =
          first_failure before after seed e place fine failed
      by_outcome result (success outcomes all) =
          all_succeed outcomes (sort_by_seed factory outcomes) all (sort_by_seed-perm outcomes)
            (sort_by_seed-Sorted outcomes)
