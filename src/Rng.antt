-- ===== src/Rng.antt =====
-- Seeds and derived random streams, of crates/socsim-rng/src/lib.rs. A `u64` is a number below
-- 2 ^ 64, and a wrapping product is taken modulo 2 ^ 64. The stream cipher is a parameter.
pub mod Seeds
pub mod Children
mod Tests
use rs_social_simulation_too.Prelude.{ℕ, zero, suc, ◌*◌, ◌/◌, ◌%◌, ◌^◌, ◌≡◌, List, [], ◌∷◌, length}
use rs_social_simulation_too.Prelude.{bit_xor}
use rs_social_simulation_too.Core.{u64_mod}

abbrev pub fnv_offset : ℕ
fnv_offset = 0xcbf29ce484222325

abbrev pub fnv_prime : ℕ
fnv_prime = 0x100000001b3

-- `u64::wrapping_mul`.
abbrev pub wrapping_mul : ℕ → ℕ → ℕ
wrapping_mul a b = a * b % u64_mod

-- `h ^= h >> 33`.
unfoldable pub fold_high : ℕ → ℕ
fold_high h = bit_xor h (h / 2 ^ 33)

unfoldable pub fmix64 : ℕ → ℕ
unfolding fold_high
fmix64 h =
    fold_high
      (wrapping_mul (fold_high (wrapping_mul (fold_high h) 0xff51afd7ed558ccd)) 0xc4ceb9fe1a85ec53)

-- `h ^= p; h = h.wrapping_mul(FNV_PRIME)`.
unfoldable pub absorb : ℕ → ℕ → ℕ
absorb h p = wrapping_mul (bit_xor h p) fnv_prime

unfoldable pub absorb_all : ℕ → List ℕ → ℕ
unfolding absorb
absorb_all h [] = h
absorb_all h (p ∷ ps) = absorb_all (absorb h p) ps

-- The number of labels is a `u64` for any slice of `u64` in memory; it is taken modulo 2 ^ 64.
unfoldable pub derive_seed : ℕ → List ℕ → ℕ
unfolding fmix64 absorb_all
derive_seed root parts =
    let h = absorb_all (bit_xor fnv_offset (wrapping_mul root fnv_prime)) parts in
    fmix64 (absorb h (length parts % u64_mod))

-- The generator of the `rand_chacha` crate: `seed_from_u64` and `get_word_pos`. Its documentation
-- says that a word position is the offset from the start of the stream.
pub record ChaCha : Type 1 where
  pub Stream : Type 0
  pub seed_from_u64 : ℕ → Stream
  pub get_word_pos : Stream → ℕ
  pub start : (seed : ℕ) → get_word_pos (seed_from_u64 seed) ≡ 0

module _ (cipher : ChaCha) where
  open cipher use {Stream, seed_from_u64, get_word_pos}

  pub record SimRng : Type 0 where
    pub inner : Stream

  abbrev pub from_seed : ℕ → SimRng
  from_seed seed = record { inner = seed_from_u64 seed }

  -- The position is a `u128`, cast to `u64`.
  unfoldable pub derive : SimRng → List ℕ → SimRng
  unfolding derive_seed
  derive rng label = from_seed (derive_seed (get_word_pos rng.inner % u64_mod) label)
