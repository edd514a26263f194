-- ===== src/Prelude/Bits.antt =====
-- Exclusive or of numbers at variables: its lowest digit, its bounds, and how it is undone.
use Prim.Native.Nat.{ℕ, zero, suc, ◌+◌, ◌*◌, ◌/◌, ◌%◌, ◌^◌, ◌≤◌, ◌<◌, bit_xor, digits, differ}
use Prim.Native.Nat.{bit_xor-bitwise}
use native.Mathlib.Nat.{div-div-eq-div-mul, pow-suc, two-pow-succ}
use mathlib.Core.Path.{◌≡◌, refl, sym, ap, ◌∙◌}
use native.Mathlib.Omega.{arith}

digit : (x y : ℕ) → x < 2 → y < 2 → differ x y ≡ (x + y) % 2
digit zero zero h k = refl
digit zero (suc zero) h k = refl
digit zero (suc (suc y)) h k = absurd (omega arith)
digit (suc zero) zero h k = refl
digit (suc zero) (suc zero) h k = refl
digit (suc zero) (suc (suc y)) h k = absurd (omega arith)
digit (suc (suc x)) y h k = absurd (omega arith)

abbrev xor_digits : ℕ → ℕ → ℕ → ℕ
xor_digits n a b = digits (λ r. r) differ n a b

-- The count of digits does not matter, once it is large enough.
more_digits : (a n m b : ℕ) → a ≤ n → a ≤ m → xor_digits n a b ≡ xor_digits m a b
more_digits zero zero zero b h k = refl
more_digits zero zero (suc m) b h k = refl
more_digits zero (suc n) zero b h k = refl
more_digits zero (suc n) (suc m) b h k = refl
more_digits (suc a) zero m b h k = absurd (omega arith)
more_digits (suc a) (suc n) zero b h k = absurd (omega arith)
more_digits (suc a) (suc n) (suc m) b h k =
    omega (arith, more_digits (suc a / 2) n m (b / 2) (omega arith) (omega arith))

zero_xor : (b : ℕ) → bit_xor 0 b ≡ b
zero_xor b = bit_xor-bitwise 0 b

xor_step : (a b : ℕ) → bit_xor a b ≡ bit_xor (a / 2) (b / 2) * 2 + (a + b) % 2
xor_step zero b = omega (arith, zero_xor b, zero_xor (b / 2))
xor_step (suc a) b =
    let half = suc a / 2 in
    omega (
      arith,
      bit_xor-bitwise (suc a) b,
      bit_xor-bitwise half (b / 2),
      more_digits half a half (b / 2) (omega arith) (omega arith),
      digit (suc a % 2) (b % 2) (omega arith) (omega arith),
    )

xor-half : (a b : ℕ) → bit_xor a b / 2 ≡ bit_xor (a / 2) (b / 2)
xor-half a b = omega (arith, xor_step a b)

xor-digit : (a b : ℕ) → bit_xor a b % 2 ≡ (a + b) % 2
xor-digit a b = omega (arith, xor_step a b)

xor_cancel_within : (n a b : ℕ) → a + b ≤ n → bit_xor (bit_xor a b) b ≡ a
xor_cancel_within n zero zero h = refl
xor_cancel_within zero zero (suc b) h = absurd (omega arith)
xor_cancel_within zero (suc a) b h = absurd (omega arith)
xor_cancel_within (suc n) a b h =
    let lower : bit_xor (bit_xor a b / 2) (b / 2) ≡ a / 2 =
      rw (xor-half a b) (xor_cancel_within n (a / 2) (b / 2) (omega arith)) in
    omega (arith, xor_step (bit_xor a b) b, lower, xor-digit a b)

pub xor_cancel : (a b : ℕ) → bit_xor (bit_xor a b) b ≡ a
xor_cancel a b = xor_cancel_within (a + b) a b (omega arith)

xor_comm_within : (n a b : ℕ) → a + b ≤ n → bit_xor a b ≡ bit_xor b a
xor_comm_within n zero zero h = refl
xor_comm_within zero zero (suc b) h = absurd (omega arith)
xor_comm_within zero (suc a) b h = absurd (omega arith)
xor_comm_within (suc n) a b h =
    omega (arith, xor_step a b, xor_step b a, xor_comm_within n (a / 2) (b / 2) (omega arith))

pub xor_comm : (a b : ℕ) → bit_xor a b ≡ bit_xor b a
xor_comm a b = xor_comm_within (a + b) a b (omega arith)

pub xor_zero : (a : ℕ) → bit_xor a 0 ≡ a
xor_zero a = xor_comm a 0 ∙ zero_xor a

pub xor-lt : (n a b : ℕ) → a < 2 ^ n → b < 2 ^ n → bit_xor a b < 2 ^ n
xor-lt zero a b h k =
    let left : a ≡ 0 = omega arith in
    let right : b ≡ 0 = omega arith in rw (left, right) (omega arith)
xor-lt (suc n) a b h k =
    let double = two-pow-succ n in
    omega (
      arith,
      double,
      xor_step a b,
      xor-lt n (a / 2) (b / 2) (omega (arith, double)) (omega (arith, double)),
    )

halve : (a k : ℕ) → a / 2 ^ suc k ≡ a / 2 ^ k / 2
halve a k = ap (λ (n : ℕ). a / n) (pow-suc 2 k) ∙ sym (div-div-eq-div-mul a (2 ^ k) 2)

pub xor-shift : (k a b : ℕ) → bit_xor a b / 2 ^ k ≡ bit_xor (a / 2 ^ k) (b / 2 ^ k)
xor-shift zero a b =
    let left : a / 1 ≡ a = omega arith in
    let right : b / 1 ≡ b = omega arith in rw (left, right) (omega arith)
xor-shift (suc k) a b =
    rw (halve (bit_xor a b) k, halve a k, halve b k, xor-shift k a b)
      (xor-half (a / 2 ^ k) (b / 2 ^ k))
