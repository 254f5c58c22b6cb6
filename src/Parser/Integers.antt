-- ===== src/Parser/Integers.antt =====
-- The integer literals of compiler/src/fidl/compiler/parser/parsing.go, with what it uses of Go's strconv.

pub mod Values
pub mod Sizes
pub mod Literals
use fidl.Prelude.{
  ℕ, zero, suc, ◌+◌, ◌-◌, ◌*◌, ◌%◌, ◌^◌, Bool, true, false, not, ◌&&◌, ◌||◌, Option, none, some,
  List, [], ◌∷◌, ltb, leb, ◌==◌, if◌then◌else◌, length, drop,
}
use fidl.Prelude.Bytes.{Bytes}
use fidl.Prelude.Int.{ℤ, pos, negsuc, to_signed}
use fidl.Prelude.Go.{ok, panic, ◌>>=◌, ◌>>◌, pure}
use fidl.Lexer.Tokens.{Token, int_const_dec, int_const_hex}
use fidl.Parser.{
  Act, integer_out_of_range, integer_parse_error, unexpected_token, is_kind, parse_error_t,
  unexpected_token_error, peek_next_token, consume_next_token, get_last_consumed,
}

-- The errors of strconv: `ErrRange` and `ErrSyntax`.
pub data NumError : Type 0 where
  err_range err_syntax : NumError

pub data Parsed (A : Type 0) : Type 0 where
  value : A → Parsed A
  failed : NumError → Parsed A

-- The value of a digit, and 255 for another byte, which no base allows.
unfoldable pub digit_value : ℕ → ℕ
digit_value c =
    if leb b'0' c && leb c b'9'
    then c - b'0'
    else if leb b'a' c && leb c b'z'
    then c - b'a' + 10
    else if leb b'A' c && leb c b'Z'
    then c - b'A' + 10
    else 255

-- The first digit that takes the number over the bound ends the scan, whatever follows it.
unfoldable pub scan_digits : ℕ → ℕ → ℕ → Bytes → Parsed ℕ
scan_digits base bound n [] = value n
scan_digits base bound n (c ∷ text) =
    let d = digit_value c in
    let n' = n * base + d in
    let rest = scan_digits base bound n' text in
    if leb base d then failed err_syntax else if ltb bound n' then failed err_range else rest

-- `strconv.ParseUint`
unfoldable pub parse_uint : Bytes → ℕ → ℕ → Parsed ℕ
parse_uint [] base bits = failed err_syntax
parse_uint (c ∷ text) base bits = scan_digits base (2 ^ bits - 1) 0 (c ∷ text)

-- The number n with its sign.
abbrev pub signed_value : Bool → ℕ → ℤ
signed_value true (suc n) = negsuc n
signed_value _ n = pos n

unfoldable pub in_signed_range : Bool → ℕ → ℕ → Bool
in_signed_range negative n bits =
    if negative then leb n (2 ^ (bits - 1)) else ltb n (2 ^ (bits - 1))

unfoldable pub check_signed : Bool → ℕ → Parsed ℕ → Parsed ℤ
check_signed negative bits (value n) =
    if in_signed_range negative n bits then value (signed_value negative n) else failed err_range
check_signed negative bits (failed e) = failed e

-- The sign is cut off before the digits are read.
unfoldable pub parse_signed : Bool → Bytes → ℕ → ℕ → Parsed ℤ
parse_signed negative text base bits = check_signed negative bits (parse_uint text base bits)

-- `strconv.ParseInt`
unfoldable pub parse_int : Bytes → ℕ → ℕ → Parsed ℤ
parse_int [] base bits = failed err_syntax
parse_int (c ∷ text) base bits =
    if c == b'-'
    then parse_signed true text base bits
    else if c == b'+'
    then parse_signed false text base bits
    else parse_signed false (c ∷ text) base bits

-- `uint64(intVal)` after `intVal = -intVal` on a negative one
abbrev pub absolute : ℤ → ℕ
absolute (pos n) = n
absolute (negsuc n) = suc n % 2 ^ 64

-- The results of a literal: `absoluteValue`, `numBits` and `signed`.
pub record IntLiteral : Type 0 where
  pub absolute_value : ℕ
  pub num_bits : ℕ
  pub signed : Bool

abbrev pub try_unsigned : Bytes → ℕ → Bool → ℕ → NumError → Parsed ℕ
try_unsigned text base allow_unsigned bits e =
    if allow_unsigned then parse_uint text base bits else failed e

-- A size's two attempts: each ends the loop with a result or goes on with its error.
unfoldable pub after_signed : ℕ → Parsed ℤ → (NumError → Parsed IntLiteral) → Parsed IntLiteral
after_signed bits (value n) next =
    value (record { absolute_value = absolute n; num_bits = bits; signed = true })
after_signed bits (failed e) next = next e

unfoldable pub after_unsigned : ℕ → Parsed ℕ → (NumError → Parsed IntLiteral) → Parsed IntLiteral
after_unsigned bits (value n) next =
    value (record { absolute_value = n; num_bits = bits; signed = false })
after_unsigned bits (failed e) next = next e

-- The loop over the sizes, from the last error on.
unfoldable pub first_size : Bytes → ℕ → Bool → ℕ → List ℕ → NumError → Parsed IntLiteral
first_size text base allow_unsigned max_num_bits [] last = failed last
first_size text base allow_unsigned max_num_bits (bits ∷ sizes) last =
    let next = first_size text base allow_unsigned max_num_bits sizes in
    if ltb max_num_bits bits
    then failed last
    else after_signed bits (parse_int text base bits)
        (λ e. after_unsigned bits (try_unsigned text base allow_unsigned bits e) next)

abbrev pub sizes : List ℕ
sizes = 8 ∷ 16 ∷ 32 ∷ 64 ∷ []

-- What follows the loop.
unfoldable pub finish_integer : Token → Parsed IntLiteral → Act (Option IntLiteral)
finish_integer t (value literal) p = ok (some literal) p
finish_integer t (failed err_range) p = ok none (parse_error_t integer_out_of_range t p)
finish_integer t (failed err_syntax) p = panic

unfoldable pub integer_of_text : Bool → Bool → ℕ → Token → Bytes → ℕ → Act (Option IntLiteral)
integer_of_text initial_minus allow_unsigned max_num_bits t text base =
    let text' = if initial_minus then b'-' ∷ text else text in
    finish_integer t (first_size text' base allow_unsigned max_num_bits sizes err_syntax)

-- The base and the digits by the kind of the token.
unfoldable pub integer_of_token : Bool → Bool → Bool → ℕ → Token → Bytes → Act (Option IntLiteral)
integer_of_token initial_minus accept_hex allow_unsigned max_num_bits t text p =
    if is_kind int_const_dec t
    then integer_of_text initial_minus allow_unsigned max_num_bits t text 10 p
    else if is_kind int_const_hex t
    then (if not accept_hex
        then ok none (parse_error_t unexpected_token t p)
        else if ltb (length text) 3
        then ok none (parse_error_t integer_parse_error t p)
        else integer_of_text initial_minus allow_unsigned max_num_bits t (drop 2 text) 16 p)
    else ok none (parse_error_t unexpected_token t p)

unfoldable pub is_size : ℕ → Bool
is_size n = n == 8 || n == 16 || n == 32 || n == 64

unfoldable pub read_integer : Bool → Bool → Bool → ℕ → Act (Option IntLiteral)
read_integer initial_minus accept_hex allow_unsigned max_num_bits = do
  t ← peek_next_token
  consume_next_token
  consumed ← get_last_consumed
  integer_of_token initial_minus accept_hex allow_unsigned max_num_bits t consumed.text

-- `parsePositiveIntegerLiteral`; the result is nil where its `ok` is false.
unfoldable pub parse_positive_integer_literal : Bool → Bool → Bool → ℕ → Act (Option IntLiteral)
parse_positive_integer_literal initial_minus accept_hex allow_unsigned max_num_bits =
    if not (is_size max_num_bits) || (initial_minus && allow_unsigned)
    then (λ p. panic)
    else read_integer initial_minus accept_hex allow_unsigned max_num_bits

-- `int32(size)` of a uint64
unfoldable pub to_int32 : ℕ → ℤ
to_int32 n = to_signed (2 ^ 31) (n % 2 ^ 32)
