-- ===== src/Parser/Integers/Literals.antt =====
-- `parsePositiveIntegerLiteral` at a token.
use fidl.Prelude.{
  ℕ, ◌^◌, ◌≤◌, ◌<◌, ◌≡◌, refl, ap, Bool, true, false, ◌&&◌, Option, none, some, List, [], ◌∷◌, ltb,
  arith, Bool-cases, inl, inr, ◌⊎◌, All,
}
use fidl.Prelude.Int.{pos}
use fidl.Prelude.Go.{ok}
use fidl.Lexer.Tokens.{Token, eof, int_const_dec}
use fidl.Types.{UserTypeRef}
use fidl.Parser.{
  is_kind, is_ok, parse_error_t, unexpected_token, peek_next_token, consume_next_token, Parser,
}
use fidl.Parser.Steps.{
  Context, at, Returns, Returns-map, Reads, failed, read, peek_next_token-at, is_kind_other,
  peek_next_token_end, at_end,
}
use fidl.Parser.Integers.{
  Parsed, value, err_range, IntLiteral, parse_positive_integer_literal, integer_of_token, is_size,
  read_integer, integer_of_text, finish_integer, sizes, to_int32, in_signed_range,
}
use fidl.Parser.Integers.Values.{IsNumeral, number}
use fidl.Parser.Integers.Sizes.{choose_size, first_size-numeral}

-- The lexer's decimal literals are numerals.
abbrev pub IsSpelled : Token → Type 0
IsSpelled t = is_kind int_const_dec t ≡ true → IsNumeral 10 t.text

module _ (c : Context) (refs : List UserTypeRef) (seen last : Token) where
  pub read_integer-at :
      (minus accept_hex allow : Bool) (m : ℕ) (t : Token) (ts : List Token)
      → is_kind eof t ≡ false
      → read_integer minus accept_hex allow m (at c (t ∷ ts) seen last refs)
        ≡ integer_of_token minus accept_hex allow m t t.text (at c ts t t refs)
  unfolding read_integer consume_next_token
  read_integer-at minus accept_hex allow m t ts e =
      rw (peek_next_token-at c seen last refs t ts e) refl

  read_integer-end :
      (t : Token) (ts : List Token)
      → is_kind eof t ≡ true
      → read_integer false false false 32 (at c (t ∷ ts) seen last refs)
        ≡ integer_of_token false false false 32 t t.text
            (record (at_end c ts t seen last refs) { last_consumed = t })
  unfolding read_integer consume_next_token
  read_integer-end t ts e = rw (peek_next_token_end c seen last refs t ts e) refl

  -- The end of the file is no literal.
  parse_integer-end :
      Returns
        (λ a p. (a ≡ none) × (is_ok p ≡ false))
        (parse_positive_integer_literal false false false 32 (at c [] seen last refs))
  unfolding parse_positive_integer_literal read_integer consume_next_token peek_next_token is_size
      integer_of_token
  parse_integer-end = (refl, refl)

pub integer_of_decimal :
    (minus accept_hex allow : Bool) (m : ℕ) (t : Token) (p : Parser)
    → is_kind int_const_dec t ≡ true
    → IsNumeral 10 t.text
    → minus && allow ≡ false
    → ltb m 8 ≡ false
    → integer_of_token minus accept_hex allow m t t.text p
      ≡ finish_integer t (choose_size minus allow m (number 10 0 t.text) sizes) p
unfolding integer_of_token integer_of_text
integer_of_decimal minus accept_hex allow m t p d n one h = rw d (
    ap (λ r. finish_integer t r p)
      (first_size-numeral 10 minus allow m t.text (omega arith) (omega arith) n one h))

integer_of_other :
    (t : Token) (p : Parser)
    → is_kind int_const_dec t ≡ false
    → integer_of_token false false false 32 t t.text p
      ≡ ok none (parse_error_t unexpected_token t p)
unfolding integer_of_token
integer_of_other t p d = ground (arith, d)

-- A fixed length is of 32 bits at most, so it is below 2 ^ 31.
pub length_fits :
    (n : ℕ)
    → ((l : IntLiteral) × ((choose_size false false 32 n sizes ≡ value l)
          × ((l.absolute_value ≡ n) × (n < 2 ^ 31))))
      ⊎ ((choose_size false false 32 n sizes ≡ Parsed.failed err_range) × (2 ^ 31 ≤ n))
unfolding choose_size in_signed_range
length_fits n = elim (Bool-cases (ltb n (2 ^ 7))) [
  | inl a ↦ inl (
    record { absolute_value = n; num_bits = 8; signed = true },
    (rw a refl, (refl, ground arith)),
  )
  | inr a ↦ elim (Bool-cases (ltb n (2 ^ 15))) [
    | inl b ↦ inl (
      record { absolute_value = n; num_bits = 16; signed = true },
      (rw (a, b) refl, (refl, ground arith)),
    )
    | inr b ↦ elim (Bool-cases (ltb n (2 ^ 31))) [
      | inl d ↦ inl (
        record { absolute_value = n; num_bits = 32; signed = true },
        (rw (a, b, d) refl, (refl, ground arith)),
      )
      | inr d ↦ inr (rw (a, b, d) refl, ground arith)
    ]
  ]
]

-- The conversion to int32 keeps what fits.
pub to_int32-pos : (n : ℕ) → n < 2 ^ 31 → to_int32 n ≡ pos n
unfolding to_int32
to_int32-pos n h = ground arith

abbrev pub ReadsInteger :
    List UserTypeRef → List Token → Option IntLiteral → List UserTypeRef → Type 0
ReadsInteger refs xs a refs' =
    (d : Token) × (l : IntLiteral) × ((xs ≡ d ∷ [])
      × ((a ≡ some l) × (is_kind int_const_dec d ≡ true)))
    × ((l.absolute_value ≡ number 10 0 d.text) × (number 10 0 d.text < 2 ^ 31))
    × (IsNumeral 10 d.text × (refs' ≡ refs))

-- The length of an array: a decimal literal below 2 ^ 31, or an error.
pub fixed_length-Reads :
    (c : Context) (refs : List UserTypeRef) (seen last : Token) (ts : List Token)
    → All IsSpelled ts
    → Returns
        (Reads c ts (ReadsInteger refs) (λ a. a ≡ none))
        (parse_positive_integer_literal false false false 32 (at c ts seen last refs))
unfolding parse_positive_integer_literal is_size
fixed_length-Reads c refs seen last [] sp =
    Returns-map _ _ (parse_positive_integer_literal false false false 32 (at c [] seen last refs))
      (λ a p h. failed a p h.0 h.1) (parse_integer-end c refs seen last)
fixed_length-Reads c refs seen last (t ∷ ts) sp = elim (Bool-cases (is_kind eof t)) [
  | inl e ↦
      rw
        (
          read_integer-end c refs seen last t ts e,
          integer_of_other t (record (at_end c ts t seen last refs) { last_consumed = t })
              (is_kind_other eof int_const_dec t refl e),
        )
        (failed _ _ refl refl)
  | inr e ↦
      rw (read_integer-at c refs seen last false false false 32 t ts e)
        (elim (Bool-cases (is_kind int_const_dec t)) [
          | inr d ↦ rw (integer_of_other t (at c ts t t refs) d) (failed _ _ refl refl)
          | inl d ↦
              rw (integer_of_decimal false false false 32 t (at c ts t t refs) d (sp.0 d) refl refl)
                (elim (length_fits (number 10 0 t.text)) [
                  | inl h ↦
                      unfold finish_integer in
                      rw h.1.0 (
                        read _ _ (t ∷ []) ts t t refs refl refl
                          (t, h.0, (refl, (refl, d)), (h.1.1.0, h.1.1.1), (sp.0 d, refl)))
                  | inr h ↦ unfold finish_integer in rw h.0 (failed _ _ refl refl)
                ])
        ])
]
