-- ===== src/Bindings/Util/Laws.antt =====
-- What `align` computes, for the alignments of the format and for the others that the code passes.
use fidl.Prelude.{
  ℕ, suc, ◌+◌, ◌-◌, ◌*◌, ◌/◌, ◌%◌, ◌≤◌, ◌<◌, ◌≡◌, ◌⊎◌, arith, ◌^◌, bit_or, ◌==◌, if◌then◌else◌,
}
use fidl.Prelude.Bits.{le-bit_or, bit_or-zero, bit_or-one, bit_or_three, bit_or_seven, bit_or_eight}
use fidl.Bindings.Util.{align, bytes_for_bits}

-- The sizes of the format's scalars.
abbrev pub IsWidth : ℕ → Type 0
IsWidth n = (n ≡ 1) ⊎ (n ≡ 2) ⊎ (n ≡ 4) ⊎ (n ≡ 8)

pub le-align : (size alignment : ℕ) → size ≤ align size alignment
unfolding align
le-align size alignment = ground (arith, le-bit_or (size - 1) (alignment - 1))

pub align_one : (size : ℕ) → align size 1 ≡ size
unfolding align
align_one size = ground (arith, bit_or-zero (size - 1))

pub align_two : (size : ℕ) → align size 2 ≡ (size + 1) / 2 * 2
unfolding align
align_two size = ground (arith, bit_or-one (size - 1))

pub align_four : (size : ℕ) → align size 4 ≡ (size + 3) / 4 * 4
unfolding align
align_four size = ground (arith, bit_or_three (size - 1))

pub align_eight : (size : ℕ) → align size 8 ≡ (size + 7) / 8 * 8
unfolding align
align_eight size = ground (arith, bit_or_seven (size - 1))

-- With a word that starts inside a byte, the check aligns to 9.
pub align_nine : (size : ℕ) → align (suc size) 9 ≡ size % 8 + (size / 16 * 16 + 8) + 1
unfolding align
align_nine size = ground (arith, bit_or_eight size)

pub ruleset align_laws = (arith, le-align, align_one, align_two, align_four, align_eight)

pub bytes_for_bits_lem : (bits : ℕ) → bits < 2 ^ 64 - 7 → bytes_for_bits bits ≡ (bits + 7) / 8
unfolding bytes_for_bits
bytes_for_bits_lem bits h = omega arith
