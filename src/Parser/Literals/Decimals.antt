-- ===== src/Parser/Literals/Decimals.antt =====
-- `parseNumberLiteral` at a decimal integer literal.
use fidl.Prelude.{◌≡◌, refl, Bool, true, false, not, List, ◌∷◌, ◌++◌, Option}
use fidl.Prelude.Bytes.{Bytes}
use fidl.Prelude.Go.{Outcome, and_then}
use fidl.Lexer.Tokens.{Token, eof, minus, plus, int_const_dec}
use fidl.Types.{UserTypeRef}
use fidl.Parser.{Parser, OutOfFuel, is_kind}
use fidl.Parser.Steps.{
  Context, at, try_match_hit, try_match_miss, is_kind_other, peek_next_token-at,
}
use fidl.Parser.Grammar.{IsMark, unmarked, marked}
use fidl.Parser.Integers.{NumError, signed_value, parse_positive_integer_literal, is_size}
use fidl.Parser.Integers.Values.{IsNumeral, number}
use fidl.Parser.Integers.Literals.{read_integer-at, integer_of_decimal}
use fidl.Parser.Literals.{
  LiteralValue, parse_number_literal, after_signs, parse_number, int_literal_of,
}
use fidl.Parser.Literals.Numbers.{literal_of, smallest_type, chosen_positive, chosen_negative}

module _ (float_error : Bytes → Option NumError) (c : Context) (refs : List UserTypeRef) (d : Token)
    (rest : List Token) (k : is_kind int_const_dec d ≡ true) (n : IsNumeral 10 d.text) where
  abbrev Expected : Bool → Outcome OutOfFuel Parser LiteralValue → Type 0
  Expected negative o =
      o
      ≡ literal_of d (signed_value negative (number 10 0 d.text))
          (smallest_type (signed_value negative (number 10 0 d.text))) (at c rest d d refs)

  integer_literal :
      (negative : Bool) (seen last : Token)
      → Expected negative (
          and_then
            (parse_positive_integer_literal negative true
              (not negative)
              64
              (at c (d ∷ rest) seen last refs))
            (int_literal_of negative))
  unfolding parse_positive_integer_literal is_size
  integer_literal false seen last =
      let e = is_kind_other int_const_dec eof d refl k in
      rw
        (
          read_integer-at c refs seen last false true true 64 d rest e,
          integer_of_decimal false true true 64 d (at c rest d d refs) k n refl refl,
        )
        (chosen_positive (number 10 0 d.text) (at c rest d d refs))
  integer_literal true seen last =
      let e = is_kind_other int_const_dec eof d refl k in
      rw
        (
          read_integer-at c refs seen last true true false 64 d rest e,
          integer_of_decimal true true false 64 d (at c rest d d refs) k n refl refl,
        )
        (chosen_negative (number 10 0 d.text) (at c rest d d refs))

  after_signs-Expected :
      (negative : Bool) (seen last : Token)
      → Expected negative (after_signs float_error negative false (at c (d ∷ rest) seen last refs))
  unfolding after_signs parse_number
  after_signs-Expected false seen last =
      let e = is_kind_other int_const_dec eof d refl k in
      rw (peek_next_token-at c seen last refs d rest e, k) (integer_literal false d last)
  after_signs-Expected true seen last =
      let e = is_kind_other int_const_dec eof d refl k in
      rw (peek_next_token-at c seen last refs d rest e, k) (integer_literal true d last)

  -- A decimal integer with a minus sign or none becomes the literal of its value, with the smallest integer
  -- type that holds it and the signed one of two of a size. A value that fits in no type is an error at
  -- the digits, that the integer is out of range.
  pub parse_number_literal-decimal :
      (signs : List Token) (negative : Bool) (seen last : Token)
      → IsMark minus signs negative
      → parse_number_literal float_error (at c (signs ++ (d ∷ rest)) seen last refs)
        ≡ literal_of d
            (signed_value negative (number 10 0 d.text))
            (smallest_type (signed_value negative (number 10 0 d.text)))
            (at c rest d d refs)
  unfolding parse_number_literal
  parse_number_literal-decimal signs negative seen last unmarked =
      let p = is_kind_other int_const_dec plus d refl k in
      let m = is_kind_other int_const_dec minus d refl k in
      rw
        (
          try_match_miss c seen last refs minus (d ∷ rest) m,
          try_match_miss c d last refs plus (d ∷ rest) p,
        )
        (after_signs-Expected false d last)
  parse_number_literal-decimal signs negative seen last (marked t h) =
      let p = is_kind_other int_const_dec plus d refl k in
      rw
        (
          try_match_hit c seen last refs minus t (d ∷ rest) refl h,
          try_match_miss c t t refs plus (d ∷ rest) p,
        )
        (after_signs-Expected true d t)
