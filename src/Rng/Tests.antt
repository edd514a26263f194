-- ===== src/Rng/Tests.antt =====
-- Seeds at small inputs, and a cipher that only counts what has been read.
use rs_social_simulation_too.Prelude.{ℕ, ◌≡◌, ◌≢◌, refl, arith, [], ◌∷◌, ◌++◌}
use rs_social_simulation_too.Rng.{fmix64, derive_seed, derive, from_seed, ChaCha, fold_high}
use rs_social_simulation_too.Rng.Seeds.{derive_seed_distinct_roots}
use rs_social_simulation_too.Rng.Seeds.{derive_seed_distinct_labels}
use rs_social_simulation_too.Rng.Children.{derive_position}

mixed_one : fmix64 1 ≡ 0xb456bcfc34c2cb2c
unfolding fmix64 fold_high
mixed_one = refl

derive_seed_distinct_roots_example : derive_seed 42 (1 ∷ 2 ∷ []) ≢ derive_seed 43 (1 ∷ 2 ∷ [])
derive_seed_distinct_roots_example =
    derive_seed_distinct_roots 42 43 (1 ∷ 2 ∷ []) (omega arith) (omega arith)
      (omega arith, (omega arith, tt)) (λ e. omega (arith, e))

derive_seed_distinct_labels_example :
    derive_seed 42 ((1 ∷ []) ++ (2 ∷ 3 ∷ [])) ≢ derive_seed 42 ((1 ∷ []) ++ (9 ∷ 3 ∷ []))
derive_seed_distinct_labels_example =
    derive_seed_distinct_labels 42 (1 ∷ []) (3 ∷ []) 2 9 (omega arith, tt) (omega arith)
      (omega arith) (λ e. omega (arith, e))

-- A stream is its seed and its position.
abbrev counter : ChaCha
counter = record {
  Stream = ℕ × ℕ;
  seed_from_u64 = λ seed. (seed, 0);
  get_word_pos = λ s. s.1;
  start = λ seed. refl;
}

derive_position_example :
    (derive counter (record { inner = (5, 3) }) (7 ∷ [])
      ≡ derive counter (record { inner = (6, 3) }) (7 ∷ []))
    × (derive counter (from_seed counter 1) (7 ∷ [])
        ≡ derive counter (from_seed counter 2) (7 ∷ []))
    × (derive counter (from_seed counter 1) (7 ∷ []) ≡ from_seed counter (derive_seed 0 (7 ∷ [])))
derive_position_example =
    derive_position counter (record { inner = (5, 3) }) (record { inner = (6, 3) }) 1 2 (7 ∷ [])
      refl
