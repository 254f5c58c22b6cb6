-- ===== src/Prelude/Int.antt =====
-- Signed integers, and the conversions between a w-bit signed and unsigned integer.
use Prim.Native.Nat.{ℕ, ◌+◌, ◌-◌, ◌%◌, ◌<◌}
use fidl.Prelude.Tests.{ltb, if◌then◌else◌}

-- `negsuc n` is -(n + 1).
pub data ℤ : Type 0 where
  pos : ℕ → ℤ
  negsuc : ℕ → ℤ

-- The unsigned integer of the same `m` bit patterns, as `uint8(value)` for m = 256.
abbrev pub to_unsigned : ℕ → ℤ → ℕ
to_unsigned m (pos n) = n % m
to_unsigned m (negsuc n) = m - 1 - n % m

-- The signed integer of the same bit pattern, as `int8(value)` for half = 128.
abbrev pub to_signed : ℕ → ℕ → ℤ
to_signed half n = if ltb n half then pos n else negsuc (half + half - 1 - n)

-- The integers of -half up to half - 1.
abbrev pub InRange : ℕ → ℤ → Type 0
InRange half (pos n) = n < half
InRange half (negsuc n) = n < half
