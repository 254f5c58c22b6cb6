-- ===== src/Lexer/States.antt =====
-- The states of the lexer, each a function of lexer.go, and its main loop.
use fidl.Prelude.{
  ℕ, zero, suc, ◌+◌, ◌*◌, Bool, true, false, not, ◌&&◌, ◌||◌, Option, none, some, List, ◌==◌,
  if◌then◌else◌, length,
}
use fidl.Prelude.Bytes.{Bytes}
use fidl.Lexer.Runes.{
  is_skippable, is_equals_or_response_start, is_digit, is_hex_digit, is_name_start, is_name_rune,
  is_ordinal_start, is_number_start, is_string_start, is_maybe_comment,
}
use fidl.Lexer.Tokens.{
  TokenKind, Token, error_illegal_char, error_unterminated_string_literal,
  error_unterminated_comment, equals, response, name, int_const_dec, int_const_hex, float_const,
  ordinal, string_literal, single_line_comment, multi_line_comment, empty_line, single_char_token,
  keyword_token,
}
use fidl.Lexer.Machine.{
  Lexer, start, cur_text, begin_token, emit_token, is_eos, consume, peek, loop_all,
}

-- A `stateFn`; `nil` is `none` below.
pub data State : Type 0 where
  root skip single_char equals_or_response name_state ordinal_state number dec : State
  number_start_with_zero hex_number fraction_part exponent_part string_state comment : State
  line_comment multi_comment possible_end : State

abbrev pub Next : Type 0
Next = Lexer × Option State

abbrev pub goto : State → Lexer → Next
goto s l = (l, some s)

abbrev pub halt : Lexer → Next
halt l = (l, none)

-- emits a token and returns to the beginning state
abbrev pub emit_root : TokenKind → Lexer → Next
emit_root kind l = goto root (emit_token kind l)

unfoldable pub is_single_char : ℕ → Bool
is_single_char c = elim (single_char_token c) [ some k ↦ true | none ↦ false ]

unfoldable pub lex_root : Lexer → Next
lex_root l =
    if is_eos l
    then halt l
    else if is_single_char (peek l)
    then goto single_char l
    else if is_equals_or_response_start (peek l)
    then goto equals_or_response l
    else if is_name_start (peek l)
    then goto name_state l
    else if is_ordinal_start (peek l)
    then goto ordinal_state l
    else if is_number_start (peek l)
    then goto number l
    else if is_string_start (peek l)
    then goto string_state l
    else if is_skippable (peek l)
    then goto skip l
    else if is_maybe_comment (peek l)
    then goto comment l
    else halt (emit_token error_illegal_char (consume l))

-- the body of the loop of lexSkip
unfoldable pub skip_round : Lexer → Lexer
skip_round l =
    let l' = begin_token l in
    consume (if peek l' == b'\n' && l'.line_pos == 0 then emit_token empty_line l' else l')

unfoldable pub lex_skip : Lexer → Next
lex_skip l = goto root (begin_token (loop_all (λ l. is_skippable (peek l)) skip_round l))

-- The zero value of a token kind is ErrorIllegalChar.
unfoldable pub lex_single_char : Lexer → Next
lex_single_char l =
    emit_root (elim (single_char_token (peek l)) [ some k ↦ k | none ↦ error_illegal_char ])
      (consume l)

unfoldable pub lex_equals_or_response : Lexer → Next
lex_equals_or_response l =
    let l' = consume l in
    if peek l' == b'>' then emit_root response (consume l') else emit_root equals l'

unfoldable pub lex_name : Lexer → Next
lex_name l =
    let l' = loop_all (λ l. is_name_rune (peek l)) consume (consume l) in
    emit_root (elim (keyword_token (cur_text l')) [ some k ↦ k | none ↦ name ]) l'

abbrev pub digits_from : Lexer → Lexer
digits_from = loop_all (λ l. is_digit (peek l)) consume

unfoldable pub lex_ordinal : Lexer → Next
lex_ordinal l = emit_root ordinal (digits_from (consume l))

unfoldable pub lex_number : Lexer → Next
lex_number l = if peek l == b'0' then goto number_start_with_zero l else goto dec l

unfoldable pub lex_dec : Lexer → Next
lex_dec l =
    let l' = digits_from l in
    if peek l' == b'e' || peek l' == b'E'
    then goto exponent_part l'
    else if peek l' == b'.'
    then goto fraction_part l'
    else emit_root int_const_dec l'

unfoldable pub lex_number_start_with_zero : Lexer → Next
lex_number_start_with_zero l =
    let l' = consume l in
    if peek l' == b'x' || peek l' == b'X'
    then goto hex_number l'
    else if peek l' == b'.'
    then goto fraction_part l'
    else if peek l' == b'e' || peek l' == b'E'
    then goto exponent_part l'
    else emit_root int_const_dec l'

unfoldable pub lex_hex_number : Lexer → Next
lex_hex_number l =
    emit_root int_const_hex (loop_all (λ l. is_hex_digit (peek l)) consume (consume l))

unfoldable pub lex_fraction_part : Lexer → Next
lex_fraction_part l =
    let l' = digits_from (consume l) in
    if peek l' == b'e' || peek l' == b'E' then goto exponent_part l' else emit_root float_const l'

unfoldable pub lex_exponent_part : Lexer → Next
lex_exponent_part l =
    let l' = consume l in
    emit_root float_const
      (digits_from (if peek l' == b'+' || peek l' == b'-' then consume l' else l'))

-- the body of the loop of lexString
unfoldable pub string_round : Lexer → Lexer
string_round l = consume (if peek l == b'\\' then consume l else l)

unfoldable pub lex_string : Lexer → Next
lex_string l =
    let l' =
      loop_all (λ l. not (is_eos l) && not (peek l == b'"') && not (peek l == b'\n')) string_round
        (consume l) in
    if is_eos l' || peek l' == b'\n'
    then halt (emit_token error_unterminated_string_literal l')
    else emit_root string_literal (consume l')

unfoldable pub lex_comment : Lexer → Next
lex_comment l =
    let l' = consume l in
    if peek l' == b'/'
    then goto line_comment l'
    else if peek l' == b'*'
    then goto multi_comment l'
    else halt (emit_token error_illegal_char l')

unfoldable pub lex_single_line_comment : Lexer → Next
lex_single_line_comment l =
    emit_root single_line_comment
      (loop_all (λ l. not (is_eos l) && not (peek l == b'\n')) consume (consume l))

-- The loop leaves at the first '*' or at the end.
unfoldable pub lex_multi_line_comment : Lexer → Next
lex_multi_line_comment l =
    let l' = loop_all (λ l. not (is_eos l) && not (peek l == b'*')) consume (consume l) in
    if is_eos l' then halt (emit_token error_unterminated_comment l') else goto possible_end l'

unfoldable pub lex_possible_end_of_comment : Lexer → Next
lex_possible_end_of_comment l =
    let l' = consume l in
    if is_eos l'
    then halt (emit_token error_unterminated_comment l')
    else if peek l' == b'/'
    then emit_root multi_line_comment (consume l')
    else goto multi_comment l'

unfoldable pub step : State → Lexer → Next
step root = lex_root
step skip = lex_skip
step single_char = lex_single_char
step equals_or_response = lex_equals_or_response
step name_state = lex_name
step ordinal_state = lex_ordinal
step number = lex_number
step dec = lex_dec
step number_start_with_zero = lex_number_start_with_zero
step hex_number = lex_hex_number
step fraction_part = lex_fraction_part
step exponent_part = lex_exponent_part
step string_state = lex_string
step comment = lex_comment
step line_comment = lex_single_line_comment
step multi_comment = lex_multi_line_comment
step possible_end = lex_possible_end_of_comment

-- `run` with fuel; `none` means that the fuel ran out.
unfoldable pub run : ℕ → State → Lexer → Option Lexer
run zero s l = none
run (suc fuel) s l = elim (step s l).1 [
  | none ↦ some (step s l).0
  | some s' ↦ run fuel s' (step s l).0
]

-- `tokenizeUnfiltered`: the tokens in the order in which they are sent
unfoldable pub tokenize_unfiltered : Bytes → Option (List Token)
tokenize_unfiltered source = elim (run (5 * length source + 5) root (start source)) [
  | none ↦ none
  | some l ↦ some l.tokens
]
