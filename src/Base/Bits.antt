-- ===== src/Base/Bits.antt =====
-- Bit operations at variables: the laws that the byte masks and flag tests of the source need.
use Prim.Native.Nat.{
  ℕ, zero, suc, ◌+◌, ◌*◌, ◌/◌, ◌%◌, ◌^◌, ◌≤◌, ◌<◌, min, bit_and, bit_xor, digits, differ,
}
use Prim.Native.Nat.{bit_and-bitwise, bit_xor-bitwise}
use mathlib.Core.Path.{◌≡◌, refl}
use native.Mathlib.Omega.{arith}
use native.Mathlib.Nat.{le_refl, pow-suc}

module _ (z : ℕ → ℕ) (f : ℕ → ℕ → ℕ) where
  -- Any two fuels that reach the last digit give the same number.
  same_digits : (j k x y : ℕ) → x ≤ j → x ≤ k → digits z f j x y ≡ digits z f k x y
  same_digits zero zero x y _ _ = refl
  same_digits (suc j) zero zero y _ _ = refl
  same_digits zero (suc k) zero y _ _ = refl
  same_digits (suc j) (suc k) zero y _ _ = refl
  same_digits (suc j) zero (suc x) y _ q = absurd (omega arith)
  same_digits zero (suc k) (suc x) y p _ = absurd (omega arith)
  same_digits (suc j) (suc k) (suc x) y p q =
      omega (arith, same_digits j k (suc x / 2) (y / 2) (omega arith) (omega arith))

-- One equation for the lowest digit of each operation.
pub bit_and_step : (x y : ℕ) → bit_and x y ≡ bit_and (x / 2) (y / 2) * 2 + min (x % 2) (y % 2)
bit_and_step zero y = omega (arith, bit_and-bitwise 0 y, bit_and-bitwise 0 (y / 2))
bit_and_step (suc x) y = omega (
  arith,
  same_digits (λ _. zero) min x (suc x / 2) (suc x / 2) (y / 2) (omega arith) (le_refl _),
  bit_and-bitwise (suc x) y,
  bit_and-bitwise (suc x / 2) (y / 2),
)

pub bit_xor_step : (a b : ℕ) → bit_xor a b ≡ bit_xor (a / 2) (b / 2) * 2 + differ (a % 2) (b % 2)
bit_xor_step zero b = omega (arith, bit_xor-bitwise 0 b, bit_xor-bitwise 0 (b / 2))
bit_xor_step (suc a) b = omega (
  arith,
  bit_xor-bitwise (suc a) b,
  bit_xor-bitwise (suc a / 2) (b / 2),
  same_digits (λ y. y) differ a (suc a / 2) (suc a / 2) (b / 2) (omega arith) (le_refl _),
)

differ_digit : (d e : ℕ) → d < 2 → e < 2 → (differ d e < 2) × (differ (differ d e) e ≡ d)
differ_digit zero zero p q = omega arith
differ_digit zero (suc zero) p q = omega arith
differ_digit zero (suc (suc e)) p q = absurd (omega arith)
differ_digit (suc zero) zero p q = omega arith
differ_digit (suc zero) (suc zero) p q = omega arith
differ_digit (suc zero) (suc (suc e)) p q = absurd (omega arith)
differ_digit (suc (suc d)) e p q = absurd (omega arith)

-- The halves and the lowest digit of an exclusive or.
bit_xor_parts :
    (a b : ℕ)
    → (bit_xor a b / 2 ≡ bit_xor (a / 2) (b / 2)) × (bit_xor a b % 2 ≡ differ (a % 2) (b % 2))
bit_xor_parts a b =
    let d = differ_digit (a % 2) (b % 2) (omega arith) (omega arith) in
    omega (arith, bit_xor_step a b, d.0)

bit_xor_twice_below : (n a b : ℕ) → a ≤ n → b ≤ n → bit_xor (bit_xor a b) b ≡ a
bit_xor_twice_below zero zero zero p q = refl
bit_xor_twice_below zero (suc a) b p q = absurd (omega arith)
bit_xor_twice_below zero zero (suc b) p q = absurd (omega arith)
bit_xor_twice_below (suc n) a b p q =
    let parts = bit_xor_parts a b in
    let step = bit_xor_step (bit_xor a b) b in
    let rest = bit_xor_twice_below n (a / 2) (b / 2) (omega arith) (omega arith) in
    let digit = differ_digit (a % 2) (b % 2) (omega arith) (omega arith) in
    from_parts step parts.0 parts.1 rest digit.1
  where
    from_parts :
        {h l : ℕ}
        → bit_xor (bit_xor a b) b ≡ bit_xor h (b / 2) * 2 + differ l (b % 2)
        → h ≡ bit_xor (a / 2) (b / 2)
        → l ≡ differ (a % 2) (b % 2)
        → bit_xor (bit_xor (a / 2) (b / 2)) (b / 2) ≡ a / 2
        → differ (differ (a % 2) (b % 2)) (b % 2) ≡ a % 2
        → bit_xor (bit_xor a b) b ≡ a
    from_parts s eh el r d = ground arith

-- An exclusive or with the same mask, done twice, gives the value back.
pub bit_xor_twice : (a b : ℕ) → bit_xor (bit_xor a b) b ≡ a
bit_xor_twice a b = bit_xor_twice_below (a + b) a b (omega arith) (omega arith)

bit_xor_lt_pow : (k a b : ℕ) → a < 2 ^ k → b < 2 ^ k → bit_xor a b < 2 ^ k
bit_xor_lt_pow zero zero zero p q = omega arith
bit_xor_lt_pow zero (suc a) b p q = absurd (omega arith)
bit_xor_lt_pow zero zero (suc b) p q = absurd (omega arith)
bit_xor_lt_pow (suc k) a b p q =
    let double = pow-suc 2 k in
    omega (
      arith,
      double,
      bit_xor_step a b,
      (differ_digit (a % 2) (b % 2) (omega arith) (omega arith)).0,
      bit_xor_lt_pow k (a / 2) (b / 2) (omega (arith, double)) (omega (arith, double)),
    )

-- Bytes stay bytes.
pub bit_xor_byte : (a b : ℕ) → a < 256 → b < 256 → bit_xor a b < 256
bit_xor_byte a b p q = bit_xor_lt_pow 8 a b p q

bit_and-zero : (n a : ℕ) → a ≤ n → bit_and a 0 ≡ 0
bit_and-zero zero zero p = refl
bit_and-zero zero (suc a) p = absurd (omega arith)
bit_and-zero (suc n) a p = omega (arith, bit_and_step a 0, bit_and-zero n (a / 2) (omega arith))

-- One ones-digit of a mask at a time.
bit_and_odd : (a m : ℕ) → bit_and a (m * 2 + 1) ≡ bit_and (a / 2) m * 2 + a % 2
bit_and_odd a m =
    let half : (m * 2 + 1) / 2 ≡ m = omega arith in
    let step = bit_and_step a (m * 2 + 1) in omega (arith, rw half at step)

bit_and_even : (a m : ℕ) → bit_and a (m * 2) ≡ bit_and (a / 2) m * 2
bit_and_even a m =
    let half : m * 2 / 2 ≡ m = omega arith in
    let step = bit_and_step a (m * 2) in omega (arith, rw half at step)

low_two : (a : ℕ) → bit_and a 3 ≡ a % 4
low_two a =
    omega (arith, bit_and_odd a 1, bit_and_odd (a / 2) 0, bit_and-zero _ (a / 2 / 2) (le_refl _))

-- `v & 0x0F`
pub bit_and_low_four : (a : ℕ) → bit_and a 0x0f ≡ a % 16
bit_and_low_four a = omega (arith, bit_and_odd a 7, bit_and_odd (a / 2) 3, low_two (a / 2 / 2))

-- `v & 0x3F`
pub bit_and_low_six : (a : ℕ) → bit_and a 0x3f ≡ a % 64
bit_and_low_six a =
    omega (arith, bit_and_odd a 31, bit_and_odd (a / 2) 15, bit_and_low_four (a / 2 / 2))

-- `v & 0xF0`
pub bit_and_high_four : (a : ℕ) → bit_and a 0xf0 ≡ a / 16 % 16 * 16
bit_and_high_four a = omega (
  arith,
  bit_and_even a 120,
  bit_and_even (a / 2) 60,
  bit_and_even (a / 2 / 2) 30,
  bit_and_even (a / 2 / 2 / 2) 15,
  bit_and_low_four (a / 2 / 2 / 2 / 2),
)

differ_comm : (d e : ℕ) → d < 2 → e < 2 → differ d e ≡ differ e d
differ_comm zero zero p q = refl
differ_comm zero (suc zero) p q = omega arith
differ_comm zero (suc (suc e)) p q = absurd (omega arith)
differ_comm (suc zero) zero p q = omega arith
differ_comm (suc zero) (suc zero) p q = refl
differ_comm (suc zero) (suc (suc e)) p q = absurd (omega arith)
differ_comm (suc (suc d)) e p q = absurd (omega arith)

bit_xor_comm_below : (n a b : ℕ) → a ≤ n → b ≤ n → bit_xor a b ≡ bit_xor b a
bit_xor_comm_below zero zero zero p q = refl
bit_xor_comm_below zero (suc a) b p q = absurd (omega arith)
bit_xor_comm_below zero zero (suc b) p q = absurd (omega arith)
bit_xor_comm_below (suc n) a b p q = omega (
  arith,
  bit_xor_step a b,
  bit_xor_step b a,
  bit_xor_comm_below n (a / 2) (b / 2) (omega arith) (omega arith),
  differ_comm (a % 2) (b % 2) (omega arith) (omega arith),
)

pub bit_xor_comm : (a b : ℕ) → bit_xor a b ≡ bit_xor b a
bit_xor_comm a b = bit_xor_comm_below (a + b) a b (omega arith) (omega arith)
