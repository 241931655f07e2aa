-- ===== src/Shared/Bits.antt =====
-- Exclusive or of native numbers, by its lowest binary digit.
use Prim.Native.Nat.{
  ℕ, zero, suc, ◌+◌, ◌*◌, ◌/◌, ◌%◌, ◌^◌, ◌≤◌, ◌<◌, bit_xor, bit_xor-bitwise, digits, differ,
}
use mathlib.Core.Path.{◌≡◌, refl}
use native.Mathlib.Nat.{pow-suc}
use native.Mathlib.Omega.{arith}

differ-digit : (x y : ℕ) → x < 2 → y < 2 → differ x y ≡ (x + y) % 2
differ-digit zero y p q = omega arith
differ-digit (suc zero) zero p q = refl
differ-digit (suc zero) (suc zero) p q = refl
differ-digit (suc zero) (suc (suc y)) p q = absurd (omega arith)
differ-digit (suc (suc x)) y p q = absurd (omega arith)

xor_digits_fuel :
    (n m a b : ℕ) → a ≤ n → a ≤ m → digits (λ b. b) differ n a b ≡ digits (λ b. b) differ m a b
xor_digits_fuel zero zero a b p q = refl
xor_digits_fuel zero (suc m) zero b p q = refl
xor_digits_fuel zero (suc m) (suc a) b p q = absurd (omega arith)
xor_digits_fuel (suc n) zero zero b p q = refl
xor_digits_fuel (suc n) zero (suc a) b p q = absurd (omega arith)
xor_digits_fuel (suc n) (suc m) zero b p q = refl
xor_digits_fuel (suc n) (suc m) (suc a) b p q =
    omega (arith, xor_digits_fuel n m (suc a / 2) (b / 2) (omega arith) (omega arith))

zero-bit_xor : (b : ℕ) → bit_xor 0 b ≡ b
zero-bit_xor b = bit_xor-bitwise 0 b

pub bit_xor_step : (a b : ℕ) → bit_xor a b ≡ bit_xor (a / 2) (b / 2) * 2 + (a + b) % 2
bit_xor_step zero b = omega (arith, zero-bit_xor b, zero-bit_xor (b / 2))
bit_xor_step (suc a) b = omega (
  arith,
  bit_xor-bitwise (suc a) b,
  bit_xor-bitwise (suc a / 2) (b / 2),
  differ-digit (suc a % 2) (b % 2) (omega arith) (omega arith),
  xor_digits_fuel a (suc a / 2) (suc a / 2) (b / 2) (omega arith) (omega arith),
)

xor_cancel_fuel : (n a b c : ℕ) → b ≤ n → c ≤ n → bit_xor a b ≡ bit_xor a c → b ≡ c
xor_cancel_fuel zero a b c p q h = omega arith
xor_cancel_fuel (suc n) a b c p q h =
    let low = bit_xor_step a b in
    let low' = bit_xor_step a c in
    omega
      (arith, xor_cancel_fuel n (a / 2) (b / 2) (c / 2) (omega arith) (omega arith) (omega arith))

-- Both sides can be cancelled.
pub bit_xor-cancel_left : (a b c : ℕ) → bit_xor a b ≡ bit_xor a c → b ≡ c
bit_xor-cancel_left a b c = xor_cancel_fuel (b + c) a b c (omega arith) (omega arith)

xor_cancel_right_fuel : (n a b c : ℕ) → b ≤ n → c ≤ n → bit_xor b a ≡ bit_xor c a → b ≡ c
xor_cancel_right_fuel zero a b c p q h = omega arith
xor_cancel_right_fuel (suc n) a b c p q h =
    let low = bit_xor_step b a in
    let low' = bit_xor_step c a in
    omega (
      arith,
      xor_cancel_right_fuel n (a / 2) (b / 2) (c / 2) (omega arith) (omega arith) (omega arith),
    )

pub bit_xor-cancel_right : (a b c : ℕ) → bit_xor b a ≡ bit_xor c a → b ≡ c
bit_xor-cancel_right a b c = xor_cancel_right_fuel (b + c) a b c (omega arith) (omega arith)

pub bit_xor-lt : (k a b : ℕ) → a < 2 ^ k → b < 2 ^ k → bit_xor a b < 2 ^ k
bit_xor-lt zero a b p q =
    let a_zero : a ≡ 0 = omega arith in
    let b_zero : b ≡ 0 = omega arith in rw (a_zero, b_zero) (omega (arith, zero-bit_xor 0))
bit_xor-lt (suc k) a b p q =
    let e = pow-suc 2 k in
    omega (arith, bit_xor_step a b, bit_xor-lt k (a / 2) (b / 2) (omega arith) (omega arith))
