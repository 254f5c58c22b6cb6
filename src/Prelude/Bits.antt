-- ===== src/Prelude/Bits.antt =====
-- Facts about `bit_or` at variables, and the alignment that the bindings compute by it.
use Prim.Native.Nat.{ℕ, zero, suc, ◌+◌, ◌*◌, ◌/◌, ◌%◌, ◌≤◌, max, bit_or, digits, bit_or-bitwise}
use mathlib.Core.Path.{◌≡◌, refl}
use native.Mathlib.Omega.{arith}

abbrev or_digits : ℕ → ℕ → ℕ → ℕ
or_digits n a b = digits (λ b. b) max n a b

or_digits_fuel : (n m a b : ℕ) → a ≤ n → a ≤ m → or_digits n a b ≡ or_digits m a b
or_digits_fuel zero zero a b p q = refl
or_digits_fuel zero (suc m) zero b p q = refl
or_digits_fuel zero (suc m) (suc a) b p q = absurd (omega arith)
or_digits_fuel (suc n) zero zero b p q = refl
or_digits_fuel (suc n) zero (suc a) b p q = absurd (omega arith)
or_digits_fuel (suc n) (suc m) zero b p q = refl
or_digits_fuel (suc n) (suc m) (suc a) b p q =
    omega (arith, or_digits_fuel n m (suc a / 2) (b / 2) (omega arith) (omega arith))

zero-bit_or : (b : ℕ) → bit_or 0 b ≡ b
zero-bit_or b = bit_or-bitwise 0 b

-- The law for the lowest digit.
pub bit_or_step : (a b : ℕ) → bit_or a b ≡ bit_or (a / 2) (b / 2) * 2 + max (a % 2) (b % 2)
bit_or_step zero b = omega (arith, zero-bit_or b, zero-bit_or (b / 2))
bit_or_step (suc a) b = omega (
  arith,
  bit_or-bitwise (suc a) b,
  bit_or-bitwise (suc a / 2) (b / 2),
  or_digits_fuel a (suc a / 2) (suc a / 2) (b / 2) (omega arith) (omega arith),
)

le-bit_or_fuel : (n a b : ℕ) → a ≤ n → a ≤ bit_or a b
le-bit_or_fuel n zero b h = omega arith
le-bit_or_fuel zero (suc a) b h = absurd (omega arith)
le-bit_or_fuel (suc n) (suc a) b h =
    omega (arith, bit_or_step (suc a) b, le-bit_or_fuel n (suc a / 2) (b / 2) (omega arith))

pub le-bit_or : (a b : ℕ) → a ≤ bit_or a b
le-bit_or a b = le-bit_or_fuel a a b (omega arith)

bit_or-zero_fuel : (n a : ℕ) → a ≤ n → bit_or a 0 ≡ a
bit_or-zero_fuel n zero h = zero-bit_or 0
bit_or-zero_fuel zero (suc a) h = absurd (omega arith)
bit_or-zero_fuel (suc n) (suc a) h =
    omega (arith, bit_or_step (suc a) 0, bit_or-zero_fuel n (suc a / 2) (omega arith))

pub bit_or-zero : (a : ℕ) → bit_or a 0 ≡ a
bit_or-zero a = bit_or-zero_fuel a a (omega arith)

pub bit_or-one : (a : ℕ) → bit_or a 1 ≡ a / 2 * 2 + 1
bit_or-one a = omega (arith, bit_or_step a 1, bit_or-zero (a / 2))

pub bit_or_three : (a : ℕ) → bit_or a 3 ≡ a / 4 * 4 + 3
bit_or_three a = omega (arith, bit_or_step a 3, bit_or-one (a / 2))

pub bit_or_seven : (a : ℕ) → bit_or a 7 ≡ a / 8 * 8 + 7
bit_or_seven a = omega (arith, bit_or_step a 7, bit_or_three (a / 2))

-- Setting bit 3 of a number.
pub bit_or_eight : (a : ℕ) → bit_or a 8 ≡ a % 8 + (a / 16 * 16 + 8)
bit_or_eight a = omega (
  arith,
  bit_or_step a 8,
  bit_or_step (a / 2) 4,
  bit_or_step (a / 2 / 2) 2,
  bit_or-one (a / 2 / 2 / 2),
)
