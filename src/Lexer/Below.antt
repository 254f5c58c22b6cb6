-- ===== src/Lexer/Below.antt =====
-- What the states of lexer.go consume: a next state is ready to run and of a smaller measure.
use fidl.Prelude.{
  ℕ, ◌+◌, ◌*◌, ◌≤◌, ◌<◌, ◌≡◌, refl, arith, Bool, true, false, none, some, ◌==◌, ◌||◌, if◌then◌else◌,
  length,
}
use fidl.Lexer.Runes.{
  is_skippable, is_digit, is_hex_digit, is_name_start, is_name_rune, is_number_start,
  is_ordinal_start, is_string_start, is_maybe_comment, is_equals_or_response_start,
}
use fidl.Lexer.Tokens.{TokenKind}
use fidl.Lexer.Machine.{Lexer, is_eos, emit_token, consume, peek, loop_all}
use fidl.Lexer.States.{
  State, root, skip, number, dec, Next, is_single_char, lex_root, skip_round, lex_skip,
  lex_single_char, lex_equals_or_response, lex_name, lex_ordinal, lex_number, lex_dec,
  lex_number_start_with_zero, lex_hex_number, lex_fraction_part, lex_exponent_part,
}
use fidl.Lexer.Left.{
  left, peek_at_end, left_of_is_eos, left_of_digit, left-consume-lt, left-consume-le,
  left-emit_token, left-begin_token, left-loop-le, left-loop_all-lt, left-skip_round-le,
  left-skip_round-lt,
}

unfoldable pub rank : State → ℕ
rank root = 4
rank number = 3
rank dec = 2
rank _ = 1

-- what a state is entered with
unfoldable pub IsReady : State → Lexer → Type 0
IsReady root l = Unit
IsReady skip l = is_skippable (peek l) ≡ true
IsReady number l = is_digit (peek l) ≡ true
IsReady dec l = is_digit (peek l) ≡ true
IsReady _ l = 0 < left l

-- A next state, when there is one, is ready and has a measure below `m`.
unfoldable pub IsBelow : ℕ → Next → Type 0
IsBelow m (l, none) = Unit
IsBelow m (l, some s) = IsReady s l × 5 * left l + rank s < m

pub if_IsBelow :
    (m : ℕ) (b : Bool) (x y : Next)
    → (b ≡ true → IsBelow m x)
    → (b ≡ false → IsBelow m y)
    → IsBelow m (if b then x else y)
if_IsBelow m true x y p q = p refl
if_IsBelow m false x y p q = q refl

pub left_of_peek : (c : ℕ) (l : Lexer) → c < 0xfffd → (peek l == c) ≡ true → 0 < left l
left_of_peek c l k h = ground (arith, peek_at_end l)

pub IsBelow-root :
    (m : ℕ) (k : TokenKind) (l : Lexer) → 5 * left l + 4 < m → IsBelow m (emit_token k l, some root)
unfolding IsBelow IsReady rank
IsBelow-root m k l h = (tt, omega (arith, h, left-emit_token k l))

-- The digits after a position, and one at least when the first is one.
pub digits_le : (l : Lexer) → left (loop_all (λ l. is_digit (peek l)) consume l) ≤ left l
digits_le l = left-loop-le (λ l. is_digit (peek l)) consume left-consume-le _ l

pub digits_lt :
    (l : Lexer)
    → is_digit (peek l) ≡ true
    → left (loop_all (λ l. is_digit (peek l)) consume l) < left l
digits_lt l h =
    left-loop_all-lt (λ l. is_digit (peek l)) consume left-consume-le l h
      (left-consume-lt l (left_of_digit l h))

pub lex_skip-IsBelow :
    (l : Lexer) → is_skippable (peek l) ≡ true → IsBelow (5 * left l + 1) (lex_skip l)
unfolding lex_skip IsBelow IsReady rank
lex_skip-IsBelow l h =
    let k =
      left-loop_all-lt (λ l. is_skippable (peek l)) skip_round left-skip_round-le l h
        (left-skip_round-lt l h) in
    (tt, omega (arith, k, left-begin_token (loop_all (λ l. is_skippable (peek l)) skip_round l)))

pub lex_root-IsBelow : (l : Lexer) → IsBelow (5 * left l + 4) (lex_root l)
unfolding lex_root IsBelow IsReady rank is_number_start is_digit
lex_root-IsBelow l =
    if_IsBelow _ (is_eos l) _ _ (λ _. tt)
      (λ n.
        let k = left_of_is_eos l n in
        if_IsBelow _ (is_single_char (peek l)) _ _ (λ _. (k, omega arith))
          (λ _.
            if_IsBelow _ (is_equals_or_response_start (peek l)) _ _ (λ _. (k, omega arith))
              (λ _.
                if_IsBelow _ (is_name_start (peek l)) _ _ (λ _. (k, omega arith))
                  (λ _.
                    if_IsBelow _ (is_ordinal_start (peek l)) _ _ (λ _. (k, omega arith))
                      (λ _.
                        if_IsBelow _ (is_number_start (peek l)) _ _ (λ t. (t, omega arith))
                          (λ _.
                            if_IsBelow _ (is_string_start (peek l)) _ _ (λ _. (k, omega arith))
                              (λ _.
                                if_IsBelow _ (is_skippable (peek l)) _ _ (λ t. (t, omega arith))
                                  (λ _.
                                    if_IsBelow _ (is_maybe_comment (peek l)) _ _
                                      (λ _. (k, omega arith)) (λ _. tt)))))))))

pub lex_single_char-IsBelow :
    (l : Lexer) → 0 < left l → IsBelow (5 * left l + 1) (lex_single_char l)
unfolding lex_single_char
lex_single_char-IsBelow l h = IsBelow-root _ _ (consume l) (omega (arith, left-consume-lt l h))

pub lex_equals_or_response-IsBelow :
    (l : Lexer) → 0 < left l → IsBelow (5 * left l + 1) (lex_equals_or_response l)
unfolding lex_equals_or_response
lex_equals_or_response-IsBelow l h =
    let k = left-consume-lt l h in
    let k₂ = left-consume-le (consume l) in
    if_IsBelow _ (peek (consume l) == b'>') _ _ (λ _. IsBelow-root _ _ _ (omega arith))
      (λ _. IsBelow-root _ _ _ (omega arith))

pub lex_name-IsBelow : (l : Lexer) → 0 < left l → IsBelow (5 * left l + 1) (lex_name l)
unfolding lex_name
lex_name-IsBelow l h =
    let k = left-consume-lt l h in
    let k₂ =
      left-loop-le (λ l. is_name_rune (peek l)) consume left-consume-le
        (length (consume l).source + 1) (consume l) in
    IsBelow-root _ _ _ (omega arith)

pub lex_ordinal-IsBelow : (l : Lexer) → 0 < left l → IsBelow (5 * left l + 1) (lex_ordinal l)
unfolding lex_ordinal
lex_ordinal-IsBelow l h =
    let k = left-consume-lt l h in
    let k₂ = digits_le (consume l) in IsBelow-root _ _ _ (omega arith)

pub lex_number-IsBelow :
    (l : Lexer) → is_digit (peek l) ≡ true → IsBelow (5 * left l + 3) (lex_number l)
unfolding lex_number IsBelow IsReady rank
lex_number-IsBelow l h =
    if_IsBelow _ (peek l == b'0') _ _ (λ _. (left_of_digit l h, omega arith))
      (λ _. (h, omega arith))

pub lex_dec-IsBelow : (l : Lexer) → is_digit (peek l) ≡ true → IsBelow (5 * left l + 2) (lex_dec l)
unfolding lex_dec IsBelow IsReady rank
lex_dec-IsBelow l h =
    let d = loop_all (λ l. is_digit (peek l)) consume l in
    let k = digits_lt l h in
    if_IsBelow _ (peek d == b'e' || peek d == b'E') _ _
      (λ t. (ground (arith, peek_at_end d), omega arith))
      (λ _.
        if_IsBelow _ (peek d == b'.') _ _ (λ t. (left_of_peek b'.' d (omega arith) t, omega arith))
          (λ _. IsBelow-root _ _ d (omega arith)))

pub lex_number_start_with_zero-IsBelow :
    (l : Lexer) → 0 < left l → IsBelow (5 * left l + 1) (lex_number_start_with_zero l)
unfolding lex_number_start_with_zero IsBelow IsReady rank
lex_number_start_with_zero-IsBelow l h =
    let d = consume l in
    let k = left-consume-lt l h in
    if_IsBelow _ (peek d == b'x' || peek d == b'X') _ _
      (λ t. (ground (arith, peek_at_end d), omega arith))
      (λ _.
        if_IsBelow _ (peek d == b'.') _ _ (λ t. (left_of_peek b'.' d (omega arith) t, omega arith))
          (λ _.
            if_IsBelow _ (peek d == b'e' || peek d == b'E') _ _
              (λ t. (ground (arith, peek_at_end d), omega arith))
              (λ _. IsBelow-root _ _ d (omega arith))))

pub lex_hex_number-IsBelow : (l : Lexer) → 0 < left l → IsBelow (5 * left l + 1) (lex_hex_number l)
unfolding lex_hex_number
lex_hex_number-IsBelow l h =
    let d = consume l in
    let k = left-consume-lt l h in
    let k₂ =
      left-loop-le (λ l. is_hex_digit (peek l)) consume left-consume-le (length d.source + 1) d in
    IsBelow-root _ _ _ (omega arith)

pub lex_fraction_part-IsBelow :
    (l : Lexer) → 0 < left l → IsBelow (5 * left l + 1) (lex_fraction_part l)
unfolding lex_fraction_part IsBelow IsReady rank
lex_fraction_part-IsBelow l h =
    let d = loop_all (λ l. is_digit (peek l)) consume (consume l) in
    let k = left-consume-lt l h in
    let k₂ = digits_le (consume l) in
    if_IsBelow _ (peek d == b'e' || peek d == b'E') _ _
      (λ t. (ground (arith, peek_at_end d), omega arith)) (λ _. IsBelow-root _ _ d (omega arith))

pub lex_exponent_part-IsBelow :
    (l : Lexer) → 0 < left l → IsBelow (5 * left l + 1) (lex_exponent_part l)
unfolding lex_exponent_part
lex_exponent_part-IsBelow l h =
    let c = consume l in
    let d = if peek c == b'+' || peek c == b'-' then consume c else c in
    let k = left-consume-lt l h in
    let k₂ : left d ≤ left c = ground (arith, left-consume-le c) in
    let k₃ = digits_le d in IsBelow-root _ _ _ (omega arith)
