-- ===== src/Parser/Integers/Sizes.antt =====
-- The size that an integer literal gets.
use fidl.Prelude.{
  ℕ, zero, suc, ◌-◌, ◌^◌, ◌≤◌, ◌<◌, ◌≡◌, refl, ◌∙◌, ap, Bool, true, false, ◌&&◌, List, [], ◌∷◌, ltb,
  leb, if◌then◌else◌, All, arith, Bool-cases, inl, inr,
}
use fidl.Prelude.Bytes.{Bytes}
use fidl.Prelude.Int.{ℤ}
use fidl.Parser.Integers.{
  NumError, Parsed, value, failed, err_range, err_syntax, IntLiteral, parse_uint, parse_signed,
  first_size, sizes, absolute, in_signed_range, signed_value, check_signed, after_signed,
  after_unsigned, try_unsigned,
}
use fidl.Parser.Integers.Values.{number, IsNumeral, parse_uint-number, parse_int-sign, with_sign}

-- The sizes of Go's integers: a signed one of a size holds less than the unsigned one.
abbrev IsGoodSize : ℕ → Type 0
IsGoodSize bits = (2 ^ (bits - 1) ≤ 2 ^ 63) × (2 ^ (bits - 1) ≤ 2 ^ bits - 1)

sizes-IsGoodSize : All IsGoodSize sizes
sizes-IsGoodSize = (
  (omega arith, omega arith),
  ((omega arith, omega arith), ((omega arith, omega arith), ((omega arith, omega arith), tt))),
)

abbrev signed_in_range : Bool → ℕ → ℕ → Parsed ℤ
signed_in_range minus n bits =
    if in_signed_range minus n bits then value (signed_value minus n) else failed err_range

parse_signed-number :
    (base bits : ℕ) (minus : Bool) (text : Bytes)
    → 0 < base
    → IsNumeral base text
    → IsGoodSize bits
    → parse_signed minus text base bits ≡ signed_in_range minus (number base 0 text) bits
unfolding parse_signed check_signed
parse_signed-number base bits minus text pb t good =
    let n = number base 0 text in
    rw (parse_signed, parse_uint-number base bits text pb t)
      (elim (Bool-cases (ltb (2 ^ bits - 1) n)) [
        | inl over ↦
            let out : in_signed_range minus n bits ≡ false = out_of_range minus n over in
            rw (over, out) refl
        | inr under ↦ rw under refl
      ])
  where
    out_of_range :
        (minus : Bool) (n : ℕ) → ltb (2 ^ bits - 1) n ≡ true → in_signed_range minus n bits ≡ false
    out_of_range true n over = unfold in_signed_range in ground (arith, good)
    out_of_range false n over = unfold in_signed_range in ground (arith, good)

absolute-signed_value :
    (bits : ℕ) (minus : Bool) (n : ℕ)
    → 2 ^ (bits - 1) ≤ 2 ^ 63
    → in_signed_range minus n bits ≡ true
    → absolute (signed_value minus n) ≡ n
unfolding in_signed_range
absolute-signed_value bits false n h r = refl
absolute-signed_value bits true zero h r = refl
absolute-signed_value bits true (suc n) h r = ground arith

-- The first of the sizes that holds the number, signed if it can be.
unfoldable pub choose_size : Bool → Bool → ℕ → ℕ → List ℕ → Parsed IntLiteral
choose_size minus allow_unsigned max_num_bits n [] = failed err_range
choose_size minus allow_unsigned max_num_bits n (bits ∷ sizes) =
    let rest = choose_size minus allow_unsigned max_num_bits n sizes in
    if ltb max_num_bits bits
    then failed err_range
    else if in_signed_range minus n bits
    then value (record { absolute_value = n; num_bits = bits; signed = true })
    else if allow_unsigned && leb n (2 ^ bits - 1)
    then value (record { absolute_value = n; num_bits = bits; signed = false })
    else rest

after_signed-number :
    (bits : ℕ) (minus : Bool) (n : ℕ) (next : NumError → Parsed IntLiteral)
    → 2 ^ (bits - 1) ≤ 2 ^ 63
    → after_signed bits (signed_in_range minus n bits) next ≡ (
        if in_signed_range minus n bits
        then value (record { absolute_value = n; num_bits = bits; signed = true })
        else next err_range)
unfolding after_signed
after_signed-number bits minus n next h = elim (Bool-cases (in_signed_range minus n bits)) [
  | inl r ↦ let e = absolute-signed_value bits minus n h r in rw (r, e) refl
  | inr r ↦ rw r refl
]

after_unsigned-number :
    (base bits : ℕ) (allow : Bool) (text : Bytes) (next : NumError → Parsed IntLiteral)
    → 0 < base
    → IsNumeral base text
    → (if allow then after_unsigned bits (parse_uint text base bits) next else next err_range) ≡ (
        if allow && leb (number base 0 text) (2 ^ bits - 1)
        then value (record { absolute_value = number base 0 text; num_bits = bits; signed = false })
        else next err_range)
unfolding after_unsigned
after_unsigned-number base bits false text next pb t = refl
after_unsigned-number base bits true text next pb t =
    rw (parse_uint-number base bits text pb t)
      (ground (arith, parse_uint-number base bits text pb t))

after_try_unsigned :
    (base bits : ℕ) (allow : Bool) (text : Bytes) (next : NumError → Parsed IntLiteral)
    → after_unsigned bits (try_unsigned text base allow bits err_range) next
      ≡ (if allow then after_unsigned bits (parse_uint text base bits) next else next err_range)
unfolding after_unsigned
after_try_unsigned base bits true text next = refl
after_try_unsigned base bits false text next = refl

-- The loop on a numeral is that choice: the digits, the base and the errors of strconv no longer matter.
first_size-choose_size :
    (base : ℕ) (minus allow : Bool) (max_num_bits : ℕ) (text : Bytes) (bs : List ℕ)
    → 0 < base
    → base ≤ 36
    → IsNumeral base text
    → minus && allow ≡ false
    → All IsGoodSize bs
    → first_size (with_sign minus text) base allow max_num_bits bs err_range
      ≡ choose_size minus allow max_num_bits (number base 0 text) bs
unfolding first_size choose_size
first_size-choose_size base minus allow m text [] pb hb t one good = refl
first_size-choose_size base minus allow m text (bits ∷ bs) pb hb t one (g, gs) =
    let n = number base 0 text in
    let next = first_size (with_sign minus text) base allow m bs in
    let ih = first_size-choose_size base minus allow m text bs pb hb t one gs in
    let signed =
      parse_int-sign base bits minus text hb t ∙ parse_signed-number base bits minus text pb t g in
    let retry = unsigned_retry minus allow next one in
    elim (Bool-cases (ltb m bits)) [
      | inl over ↦ rw over refl
      | inr under ↦
          rw (under, signed)
            (after_signed-number bits minus n
                (λ e.
                  after_unsigned bits (try_unsigned (with_sign minus text) base allow bits e) next)
                g.0
              ∙ ap
                  (λ r.
                    if in_signed_range minus n bits
                    then value (record { absolute_value = n; num_bits = bits; signed = true })
                    else r)
                  (retry
                    ∙ ap
                        (λ r.
                          if allow && leb n (2 ^ bits - 1)
                          then value
                              (record { absolute_value = n; num_bits = bits; signed = false })
                          else r)
                        ih))
    ]
  where
    unsigned_retry :
        (minus allow : Bool) (next : NumError → Parsed IntLiteral)
        → minus && allow ≡ false
        → after_unsigned bits (try_unsigned (with_sign minus text) base allow bits err_range) next
          ≡ (if allow && leb (number base 0 text) (2 ^ bits - 1)
              then value
                  (record { absolute_value = number base 0 text; num_bits = bits; signed = false })
              else next err_range)
    unsigned_retry true true next one = absurd (cc)
    unsigned_retry true false next one = after_try_unsigned base bits false (b'-' ∷ text) next
    unsigned_retry false a next one =
        after_try_unsigned base bits a text next ∙ after_unsigned-number base bits a text next pb t

-- The error before the first attempt is never seen.
pub first_size-sizes :
    (text : Bytes) (base : ℕ) (allow : Bool) (m : ℕ) (e f : NumError)
    → ltb m 8 ≡ false
    → first_size text base allow m sizes e ≡ first_size text base allow m sizes f
unfolding first_size
first_size-sizes text base allow m e f h = rw h refl

-- What the sizes of the parser choose for a numeral.
pub first_size-numeral :
    (base : ℕ) (minus allow : Bool) (m : ℕ) (text : Bytes)
    → 0 < base
    → base ≤ 36
    → IsNumeral base text
    → minus && allow ≡ false
    → ltb m 8 ≡ false
    → first_size (with_sign minus text) base allow m sizes err_syntax
      ≡ choose_size minus allow m (number base 0 text) sizes
first_size-numeral base minus allow m text pb hb t one h =
    first_size-sizes (with_sign minus text) base allow m err_syntax err_range h
    ∙ first_size-choose_size base minus allow m text sizes pb hb t one sizes-IsGoodSize
