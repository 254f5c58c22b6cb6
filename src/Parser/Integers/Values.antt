-- ===== src/Parser/Integers/Values.antt =====
-- The numerals that strconv reads, and what it gives for each size.
use fidl.Prelude.{
  ℕ, zero, suc, ◌+◌, ◌-◌, ◌*◌, ◌^◌, ◌≤◌, ◌<◌, ◌≡◌, refl, ◌≢◌, Bool, true, false, [], ◌∷◌, ltb, leb,
  ◌==◌, if◌then◌else◌, All, arith, Bool-cases, ltb→lt, lt→ltb, inl, inr,
}
use fidl.Prelude.Bytes.{Bytes}
use fidl.Parser.Integers.{
  Parsed, value, failed, err_range, digit_value, scan_digits, parse_uint, parse_signed, parse_int,
}

-- The number that the digits stand for, after those that stand for `n`.
abbrev pub number : ℕ → ℕ → Bytes → ℕ
number base n [] = n
number base n (c ∷ text) = number base (n * base + digit_value c) text

abbrev pub AllDigits : ℕ → Bytes → Type 0
AllDigits base = All (λ c. digit_value c < base)

pub record IsNumeral (base : ℕ) (text : Bytes) : Type 0 where
  pub nonempty : text ≢ []
  pub digits : AllDigits base text

number-ge : (base n : ℕ) (text : Bytes) → 0 < base → n ≤ number base n text
number-ge base n [] h = omega arith
number-ge zero n (c ∷ text) h = elim h [ ]
number-ge (suc b) n (c ∷ text) h =
    let rest = number-ge (suc b) (n * suc b + digit_value c) text h in
    let grows : n ≤ n * suc b + digit_value c = omega arith in omega arith

-- A number against the largest of a size.
abbrev pub in_bound : ℕ → ℕ → Parsed ℕ
in_bound bound n = if ltb bound n then failed err_range else value n

scan_digits-number :
    (base bound n : ℕ) (text : Bytes)
    → 0 < base
    → n ≤ bound
    → AllDigits base text
    → scan_digits base bound n text ≡ in_bound bound (number base n text)
unfolding scan_digits
scan_digits-number base bound n [] pb h d = ground arith
scan_digits-number base bound n (c ∷ text) pb h d =
    let n' = n * base + digit_value c in
    let low : leb base (digit_value c) ≡ false = ground (arith, d.0) in
    elim (Bool-cases (ltb bound n')) [
      | inl over ↦
          let ge = number-ge base n' text pb in
          let big : ltb bound (number base n' text) ≡ true =
            lt→ltb bound _ (omega (arith, ltb→lt bound n' over)) in
          rw (low, over, big) refl
      | inr under ↦
          let fits : n' ≤ bound = ground arith in
          rw (low, under) (scan_digits-number base bound n' text pb fits d.1)
    ]

-- Go's ParseUint on a numeral: its number, or ErrRange where the size is too small for it.
pub parse_uint-number :
    (base bits : ℕ) (text : Bytes)
    → 0 < base
    → IsNumeral base text
    → parse_uint text base bits ≡ in_bound (2 ^ bits - 1) (number base 0 text)
unfolding parse_uint
parse_uint-number base bits [] pb n = absurd (n.nonempty refl)
parse_uint-number base bits (c ∷ text) pb n =
    scan_digits-number base (2 ^ bits - 1) 0 (c ∷ text) pb (omega arith) n.digits

-- The sign in front, as the parser writes it.
abbrev pub with_sign : Bool → Bytes → Bytes
with_sign minus text = if minus then b'-' ∷ text else text

-- A digit is no sign.
not_sign :
    (base c : ℕ) → base ≤ 36 → digit_value c < base → (c == b'-' ≡ false) × (c == b'+' ≡ false)
unfolding digit_value
not_sign base c hb d = (ground arith, ground arith)

pub parse_int-sign :
    (base bits : ℕ) (minus : Bool) (text : Bytes)
    → base ≤ 36
    → IsNumeral base text
    → parse_int (with_sign minus text) base bits ≡ parse_signed minus text base bits
unfolding parse_int
parse_int-sign base bits true text hb n = refl
parse_int-sign base bits false [] hb n = absurd (n.nonempty refl)
parse_int-sign base bits false (c ∷ text) hb n =
    let (p, q) = not_sign base c hb n.digits.0 in rw (p, q) refl
