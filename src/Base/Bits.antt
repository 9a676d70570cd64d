-- ===== src/Base/Bits.antt =====
-- `x ^ mask` for a mask of ones, at every width: the complement `~x` of a w-bit word.
use Prim.Native.Nat.{
  ℕ, zero, suc, ◌+◌, ◌-◌, ◌*◌, ◌/◌, ◌%◌, ◌^◌, ◌≤◌, ◌<◌, bit_xor, digits, differ, bit_xor-bitwise,
}
use mathlib.Core.Path.{◌≡◌, refl}
use mathlib.Core.Logic.{◌↔◌}
use native.Mathlib.Nat.{pow-suc, one-le-pow}
use native.Mathlib.Omega.{arith}

abbrev xor_digits : ℕ → ℕ → ℕ → ℕ
xor_digits n a b = digits (λ b. b) differ n a b

-- Fuel beyond the first operand changes nothing.
xor_digits_fuel : (n m a b : ℕ) → a ≤ n → a ≤ m → xor_digits n a b ≡ xor_digits m a b
xor_digits_fuel zero zero a b p q = refl
xor_digits_fuel zero (suc m) zero b p q = refl
xor_digits_fuel zero (suc m) (suc a) b p q = absurd (omega arith)
xor_digits_fuel (suc n) zero zero b p q = refl
xor_digits_fuel (suc n) zero (suc a) b p q = absurd (omega arith)
xor_digits_fuel (suc n) (suc m) zero b p q = refl
xor_digits_fuel (suc n) (suc m) (suc a) b p q =
    rw (xor_digits_fuel n m (suc a / 2) (b / 2) (omega arith) (omega arith))

zero-bit_xor : (b : ℕ) → bit_xor 0 b ≡ b
zero-bit_xor b = bit_xor-bitwise 0 b

-- One binary digit of an exclusive or.
bit_xor_step : (a b : ℕ) → bit_xor a b ≡ bit_xor (a / 2) (b / 2) * 2 + differ (a % 2) (b % 2)
bit_xor_step zero b = omega (arith, zero-bit_xor b, zero-bit_xor (b / 2))
bit_xor_step (suc a) b = omega (
  arith,
  bit_xor-bitwise (suc a) b,
  bit_xor-bitwise (suc a / 2) (b / 2),
  xor_digits_fuel a (suc a / 2) (suc a / 2) (b / 2) (omega arith) (omega arith),
)

differ-one : (d : ℕ) → d < 2 → differ d 1 ≡ 1 - d
differ-one zero h = refl
differ-one (suc zero) h = refl
differ-one (suc (suc d)) h = absurd (omega arith)

-- Against a mask of ones it is the complement.
bit_xor_ones : (k a : ℕ) → a < 2 ^ k → bit_xor a (2 ^ k - 1) ≡ 2 ^ k - 1 - a
bit_xor_ones zero zero h = refl
bit_xor_ones zero (suc a) h = absurd (omega arith)
bit_xor_ones (suc k) a h =
    let p : 2 ^ suc k ≡ 2 * 2 ^ k = omega (arith, pow-suc 2 k) in
    let one : 1 ≤ 2 ^ k = one-le-pow k 2 (omega arith) in
    let half : (2 ^ suc k - 1) / 2 ≡ 2 ^ k - 1 = omega arith in
    let rest : (2 ^ suc k - 1) % 2 ≡ 1 = omega arith in
    rw
      (
        bit_xor_step,
        half,
        rest,
        bit_xor_ones k (a / 2) (omega arith),
        differ-one (a % 2) (omega arith),
      )
      (omega arith)

-- `x ^ 0xffff`
pub bit_xor_16 : (a : ℕ) → a < 2 ^ 16 → bit_xor a 0xffff ≡ 0xffff - a
bit_xor_16 a h = bit_xor_ones 16 a h

-- `x ^ 0xffffffff`
pub bit_xor_32 : (a : ℕ) → a < 2 ^ 32 → bit_xor a 0xffff_ffff ≡ 0xffff_ffff - a
bit_xor_32 a h = bit_xor_ones 32 a h

differ-zero : (x y : ℕ) → (differ x y ≡ 0) ↔ (x ≡ y)
differ-zero zero y = omega arith
differ-zero (suc x) zero = omega arith
differ-zero (suc x) (suc y) = ground (arith, differ-zero x y)

bit_xor-zero_fuel : (n a b : ℕ) → a ≤ n → b ≤ n → (bit_xor a b ≡ 0) ↔ (a ≡ b)
bit_xor-zero_fuel zero a b p q =
    let ea : a ≡ 0 = omega arith in let eb : b ≡ 0 = omega arith in rw (ea, eb) (omega arith)
bit_xor-zero_fuel (suc n) a b p q = ground (
  arith,
  bit_xor_step a b,
  differ-zero (a % 2) (b % 2),
  bit_xor-zero_fuel n (a / 2) (b / 2) (omega arith) (omega arith),
)

-- `!(a ^ b)` tests equality.
pub bit_xor-zero : (a b : ℕ) → (bit_xor a b ≡ 0) ↔ (a ≡ b)
bit_xor-zero a b = bit_xor-zero_fuel (a + b) a b (omega arith) (omega arith)
