-- ===== src/Rng/Children.antt =====
-- What a child that `SimRng::derive` makes depends on.
use rs_social_simulation_too.Prelude.{ℕ, ◌≡◌, sym, ◌∙◌, ap, ◌%◌, List}
use rs_social_simulation_too.Core.{u64_mod}
use rs_social_simulation_too.Rng.{ChaCha, SimRng, from_seed, derive, derive_seed}

module _ (cipher : ChaCha) where
  open cipher use {get_word_pos}

  -- A child depends on its label and on how far the parent's stream has been read, and on nothing
  -- else: two parents at the same position, of whatever seeds, derive the same child for a label. So
  -- do any two parents that are new, and the child is the stream seeded with `derive_seed(0, label)`.
  pub derive_position :
      (a b : SimRng cipher) (s t : ℕ) (label : List ℕ)
      → get_word_pos a.inner ≡ get_word_pos b.inner
      → (derive cipher a label ≡ derive cipher b label)
        × (derive cipher (from_seed cipher s) label ≡ derive cipher (from_seed cipher t) label)
        × (derive cipher (from_seed cipher s) label ≡ from_seed cipher (derive_seed 0 label))
  unfolding derive
  derive_position a b s t label e =
      let at : ℕ → SimRng cipher = λ n. from_seed cipher (derive_seed (n % u64_mod) label) in
      (ap at e, ap at (cipher.start s ∙ sym (cipher.start t)), ap at (cipher.start s))
