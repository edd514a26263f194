-- ===== src/Prelude/Sort/Numbers.antt =====
-- The order of the native numbers, and the lexicographic order of their pairs.
use mathlib.Core.Path.{◌≡◌}
use mathlib.Core.Bool.{Bool, true, false, ◌&&◌, ◌||◌}
use native.Mathlib.Omega.{arith}
use Prim.Native.Nat.{ℕ}
use rs_social_simulation_too.Prelude.Tests.{leb, ltb, ◌==◌, ==→≡, ==_refl}
use rs_social_simulation_too.Prelude.Sort.{Ord}

pub leb_total : (a b : ℕ) → leb a b ≡ false → leb b a ≡ true
leb_total a b h = ground arith

pub leb_trans : (a b c : ℕ) → leb a b ≡ true → leb b c ≡ true → leb a c ≡ true
leb_trans a b c h k = ground arith

pub leb_antisym : (a b : ℕ) → leb a b ≡ true → leb b a ≡ true → a ≡ b
leb_antisym a b h k = ground arith

abbrev pub nat_ord : Ord ℕ
nat_ord = record {
  le = leb;
  eq = ◌==◌;
  le_total = leb_total;
  le_trans = leb_trans;
  le_antisym = leb_antisym;
  eq_sound = ==→≡;
  eq_refl = ==_refl;
}

-- The derived order of `(usize, usize)`.
abbrev pub pair_le : ℕ × ℕ → ℕ × ℕ → Bool
pair_le (a, b) (c, d) = ltb a c || (a == c && leb b d)

abbrev pub pair_eq : ℕ × ℕ → ℕ × ℕ → Bool
pair_eq (a, b) (c, d) = a == c && b == d

pub pair_le_total : (p q : ℕ × ℕ) → pair_le p q ≡ false → pair_le q p ≡ true
pair_le_total (a, b) (c, d) h = ground arith

pub pair_le_trans : (p q r : ℕ × ℕ) → pair_le p q ≡ true → pair_le q r ≡ true → pair_le p r ≡ true
pair_le_trans (a, b) (c, d) (e, f) h k = ground arith

pub pair_le_antisym : (p q : ℕ × ℕ) → pair_le p q ≡ true → pair_le q p ≡ true → p ≡ q
pair_le_antisym (a, b) (c, d) h k = ground arith

pub pair_eq_sound : (p q : ℕ × ℕ) → pair_eq p q ≡ true → p ≡ q
pair_eq_sound (a, b) (c, d) h = ground arith

pub pair_eq_refl : (p : ℕ × ℕ) → pair_eq p p ≡ true
pair_eq_refl (a, b) = ground arith

abbrev pub pair_ord : Ord (ℕ × ℕ)
pair_ord = record {
  le = pair_le;
  eq = pair_eq;
  le_total = pair_le_total;
  le_trans = pair_le_trans;
  le_antisym = pair_le_antisym;
  eq_sound = pair_eq_sound;
  eq_refl = pair_eq_refl;
}
