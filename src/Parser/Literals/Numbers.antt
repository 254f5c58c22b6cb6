-- ===== src/Parser/Literals/Numbers.antt =====
-- The type and the value of a decimal number literal.
use fidl.Prelude.{
  ℕ, zero, suc, ◌+◌, ◌-◌, ◌%◌, ◌^◌, ◌≤◌, ◌<◌, ◌≡◌, refl, ◌∙◌, ap, Bool, true, false, not, Option,
  none, some, List, [], ◌∷◌, ltb, leb, if◌then◌else◌, arith, Bool-cases, inl, inr,
}
use native.Mathlib.Nat.{mod-eq_of_lt}
use fidl.Prelude.Int.{ℤ, pos, negsuc}
use fidl.Prelude.Go.{Outcome, ok, and_then}
use fidl.Lexer.Tokens.{Token}
use fidl.Types.{
  SimpleType, simple_int8, simple_int16, simple_int32, simple_int64, simple_uint8, simple_uint16,
  simple_uint32, simple_uint64,
}
use fidl.Parser.{Parser, OutOfFuel, integer_out_of_range, parse_error_t}
use fidl.Parser.Integers.{in_signed_range, signed_value, finish_integer, sizes}
use fidl.Parser.Integers.Sizes.{choose_size}
use fidl.Parser.Literals.{
  LiteralValue, no_literal, int_value, to_int64, opposite, narrow, int_value_of, int_literal_of,
}

-- The integers of a type.
unfoldable pub in_type : SimpleType → ℤ → Bool
in_type simple_int8 (pos n) = ltb n (2 ^ 7)
in_type simple_int8 (negsuc n) = ltb n (2 ^ 7)
in_type simple_int16 (pos n) = ltb n (2 ^ 15)
in_type simple_int16 (negsuc n) = ltb n (2 ^ 15)
in_type simple_int32 (pos n) = ltb n (2 ^ 31)
in_type simple_int32 (negsuc n) = ltb n (2 ^ 31)
in_type simple_int64 (pos n) = ltb n (2 ^ 63)
in_type simple_int64 (negsuc n) = ltb n (2 ^ 63)
in_type simple_uint8 (pos n) = leb n (2 ^ 8 - 1)
in_type simple_uint16 (pos n) = leb n (2 ^ 16 - 1)
in_type simple_uint32 (pos n) = leb n (2 ^ 32 - 1)
in_type simple_uint64 (pos n) = leb n (2 ^ 64 - 1)
in_type _ _ = false

abbrev pub integer_types : List SimpleType
integer_types =
    simple_int8 ∷ simple_uint8 ∷ simple_int16 ∷ simple_uint16 ∷ simple_int32 ∷ simple_uint32
    ∷ simple_int64 ∷ simple_uint64 ∷ []

-- The first of the types that holds the integer.
unfoldable pub first_type : ℤ → List SimpleType → Option SimpleType
first_type v [] = none
first_type v (type ∷ types) = if in_type type v then some type else first_type v types

-- The smallest integer type of a value, signed where the sizes are equal.
unfoldable pub smallest_type : ℤ → Option SimpleType
smallest_type v = first_type v integer_types

-- The literal of that type, or the error that the number is out of range.
unfoldable pub literal_of :
    Token → ℤ → Option SimpleType → Parser → Outcome OutOfFuel Parser LiteralValue
literal_of d v (some type) p = ok (int_value type v d) p
literal_of d v none p = ok no_literal (parse_error_t integer_out_of_range d p)

small_int64 : (n : ℕ) → n < 2 ^ 63 → to_int64 n ≡ pos n
small_int64 n h = ground arith

opposite_int64 : (n : ℕ) → n ≤ 2 ^ 63 → opposite (to_int64 n) ≡ signed_value true n
opposite_int64 n h = elim (Bool-cases (ltb n (2 ^ 63))) [
  | inl s ↦ rw (small_int64 n (ground arith)) (small n)
  | inr b ↦ let e : n ≡ 2 ^ 63 = ground arith in rw e refl
]
  where
    small : (n : ℕ) → opposite (pos n) ≡ signed_value true n
    small zero = refl
    small (suc n) = refl

small_mod : (n m : ℕ) → n < m → n % m ≡ n
small_mod n m h = mod-eq_of_lt h

narrow-pos : (half n : ℕ) → n < half → narrow half (pos n) ≡ pos n
narrow-pos half n h = ground (arith, small_mod n (half + half) (omega arith))

narrow-negsuc : (half n : ℕ) → n < half → narrow half (negsuc n) ≡ negsuc n
narrow-negsuc half n h = ground (arith, small_mod n (half + half) (omega arith))

narrow-signed :
    (half n : ℕ) → n ≤ half → 0 < half → narrow half (signed_value true n) ≡ signed_value true n
narrow-signed half zero h p = narrow-pos half 0 p
narrow-signed half (suc n) h p = narrow-negsuc half n h

-- What the literal of a size becomes.
abbrev sized : Bool → ℕ → ℕ → Bool → Token → Parser → Outcome OutOfFuel Parser LiteralValue
sized negative n bits signed d p =
    int_value_of negative (record { absolute_value = n; num_bits = bits; signed = signed }) d p

unsigned_value :
    (n : ℕ) (d : Token) (p : Parser)
    → (n < 2 ^ 8 → sized false n 8 false d p ≡ ok (int_value simple_uint8 (pos n) d) p)
      × (n < 2 ^ 16 → sized false n 16 false d p ≡ ok (int_value simple_uint16 (pos n) d) p)
      × (n < 2 ^ 32 → sized false n 32 false d p ≡ ok (int_value simple_uint32 (pos n) d) p)
      × (sized false n 64 false d p ≡ ok (int_value simple_uint64 (pos n) d) p)
unfolding int_value_of
unsigned_value n d p = (
  (λ h. ap (λ k. ok (int_value simple_uint8 (pos k) d) p) (omega arith)),
  (λ h. ap (λ k. ok (int_value simple_uint16 (pos k) d) p) (omega arith)),
  (λ h. ap (λ k. ok (int_value simple_uint32 (pos k) d) p) (omega arith)),
  refl,
)

positive_value :
    (n : ℕ) (d : Token) (p : Parser)
    → (n < 2 ^ 7 → sized false n 8 true d p ≡ ok (int_value simple_int8 (pos n) d) p)
      × (n < 2 ^ 15 → sized false n 16 true d p ≡ ok (int_value simple_int16 (pos n) d) p)
      × (n < 2 ^ 31 → sized false n 32 true d p ≡ ok (int_value simple_int32 (pos n) d) p)
      × (n < 2 ^ 63 → sized false n 64 true d p ≡ ok (int_value simple_int64 (pos n) d) p)
unfolding int_value_of
positive_value n d p = (
  (λ h.
      ap (λ v. ok (int_value simple_int8 v d) p)
        (ap (narrow (2 ^ 7)) (small_int64 n (omega arith)) ∙ narrow-pos (2 ^ 7) n h)),
  (λ h.
      ap (λ v. ok (int_value simple_int16 v d) p)
        (ap (narrow (2 ^ 15)) (small_int64 n (omega arith)) ∙ narrow-pos (2 ^ 15) n h)),
  (λ h.
      ap (λ v. ok (int_value simple_int32 v d) p)
        (ap (narrow (2 ^ 31)) (small_int64 n (omega arith)) ∙ narrow-pos (2 ^ 31) n h)),
  (λ h. ap (λ v. ok (int_value simple_int64 v d) p) (small_int64 n h)),
)

negative_value :
    (n : ℕ) (d : Token) (p : Parser)
    → (n ≤ 2 ^ 7 → sized true n 8 true d p ≡ ok (int_value simple_int8 (signed_value true n) d) p)
      × (n ≤ 2 ^ 15
          → sized true n 16 true d p ≡ ok (int_value simple_int16 (signed_value true n) d) p)
      × (n ≤ 2 ^ 31
          → sized true n 32 true d p ≡ ok (int_value simple_int32 (signed_value true n) d) p)
      × (n ≤ 2 ^ 63
          → sized true n 64 true d p ≡ ok (int_value simple_int64 (signed_value true n) d) p)
unfolding int_value_of
negative_value n d p = (
  (λ h.
      ap (λ v. ok (int_value simple_int8 v d) p)
        (ap (narrow (2 ^ 7)) (opposite_int64 n (omega arith))
          ∙ narrow-signed (2 ^ 7) n h (omega arith))),
  (λ h.
      ap (λ v. ok (int_value simple_int16 v d) p)
        (ap (narrow (2 ^ 15)) (opposite_int64 n (omega arith))
          ∙ narrow-signed (2 ^ 15) n h (omega arith))),
  (λ h.
      ap (λ v. ok (int_value simple_int32 v d) p)
        (ap (narrow (2 ^ 31)) (opposite_int64 n (omega arith))
          ∙ narrow-signed (2 ^ 31) n h (omega arith))),
  (λ h. ap (λ v. ok (int_value simple_int64 v d) p) (opposite_int64 n h)),
)

-- What the size that was chosen for the number gives.
abbrev chosen : Bool → ℕ → Token → Parser → Outcome OutOfFuel Parser LiteralValue
chosen negative n d p =
    and_then (finish_integer d (choose_size negative (not negative) 64 n sizes) p)
      (int_literal_of negative)

pub chosen_positive :
    (n : ℕ) (p : Parser)
    → chosen false n p.last_consumed p
      ≡ literal_of p.last_consumed (pos n) (smallest_type (pos n)) p
unfolding choose_size in_signed_range finish_integer int_literal_of literal_of smallest_type
    first_type in_type
chosen_positive n p =
    let (u8, u16, u32, u64) = unsigned_value n p.last_consumed p in
    let (i8, i16, i32, i64) = positive_value n p.last_consumed p in
    elim (Bool-cases (ltb n (2 ^ 7))) [
      | inl a ↦ rw a (i8 (ground arith))
      | inr a ↦ elim (Bool-cases (leb n (2 ^ 8 - 1))) [
        | inl b ↦ rw (a, b) (u8 (ground arith))
        | inr b ↦ elim (Bool-cases (ltb n (2 ^ 15))) [
          | inl c ↦ rw (a, b, c) (i16 (ground arith))
          | inr c ↦ elim (Bool-cases (leb n (2 ^ 16 - 1))) [
            | inl f ↦ rw (a, b, c, f) (u16 (ground arith))
            | inr f ↦ elim (Bool-cases (ltb n (2 ^ 31))) [
              | inl g ↦ rw (a, b, c, f, g) (i32 (ground arith))
              | inr g ↦ elim (Bool-cases (leb n (2 ^ 32 - 1))) [
                | inl h ↦ rw (a, b, c, f, g, h) (u32 (ground arith))
                | inr h ↦ elim (Bool-cases (ltb n (2 ^ 63))) [
                  | inl i ↦ rw (a, b, c, f, g, h, i) (i64 (ground arith))
                  | inr i ↦ elim (Bool-cases (leb n (2 ^ 64 - 1))) [
                    | inl j ↦ rw (a, b, c, f, g, h, i, j) u64
                    | inr j ↦ rw (a, b, c, f, g, h, i, j) refl
                  ]
                ]
              ]
            ]
          ]
        ]
      ]
    ]

pub chosen_negative :
    (n : ℕ) (p : Parser)
    → chosen true n p.last_consumed p
      ≡ literal_of p.last_consumed (signed_value true n) (smallest_type (signed_value true n)) p
unfolding choose_size in_signed_range finish_integer int_literal_of literal_of smallest_type
    first_type in_type
chosen_negative zero p = (negative_value 0 p.last_consumed p).0 (omega arith)
chosen_negative (suc n) p =
    let (i8, i16, i32, i64) = negative_value (suc n) p.last_consumed p in
    elim (Bool-cases (ltb n (2 ^ 7))) [
      | inl a ↦ let a' : leb (suc n) (2 ^ 7) ≡ true = ground arith in rw (a, a') (i8 (ground arith))
      | inr a ↦
          let a' : leb (suc n) (2 ^ 7) ≡ false = ground arith in
          elim (Bool-cases (ltb n (2 ^ 15))) [
            | inl b ↦
                let b' : leb (suc n) (2 ^ 15) ≡ true = ground arith in
                rw (a, a', b, b') (i16 (ground arith))
            | inr b ↦
                let b' : leb (suc n) (2 ^ 15) ≡ false = ground arith in
                elim (Bool-cases (ltb n (2 ^ 31))) [
                  | inl c ↦
                      let c' : leb (suc n) (2 ^ 31) ≡ true = ground arith in
                      rw (a, a', b, b', c, c') (i32 (ground arith))
                  | inr c ↦
                      let c' : leb (suc n) (2 ^ 31) ≡ false = ground arith in
                      elim (Bool-cases (ltb n (2 ^ 63))) [
                        | inl e ↦
                            let e' : leb (suc n) (2 ^ 63) ≡ true = ground arith in
                            rw (a, a', b, b', c, c', e, e') (i64 (ground arith))
                        | inr e ↦
                            let e' : leb (suc n) (2 ^ 63) ≡ false = ground arith in
                            rw (a, a', b, b', c, c', e, e') refl
                      ]
                ]
          ]
    ]
