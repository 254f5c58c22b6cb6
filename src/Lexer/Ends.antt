-- ===== src/Lexer/Ends.antt =====
-- The lexer of lexer.go ends: each of its states consumes or moves to a state of a lower rank.
use fidl.Prelude.{
  ℕ, zero, suc, ◌+◌, ◌*◌, ◌<◌, arith, Bool, Option, none, some, ◌==◌, ◌||◌, ◌&&◌, not, ◌≢◌, length,
}
use fidl.Prelude.Bytes.{Bytes}
use fidl.Lexer.Machine.{Lexer, start, is_eos, consume, peek, loop_all}
use fidl.Lexer.States.{
  State, root, skip, single_char, equals_or_response, name_state, ordinal_state, number, dec,
  number_start_with_zero, hex_number, fraction_part, exponent_part, string_state, comment,
  line_comment, multi_comment, possible_end, Next, step, run, string_round, lex_string, lex_comment,
  lex_single_line_comment, lex_multi_line_comment, lex_possible_end_of_comment,
}
use fidl.Lexer.Left.{
  left, left_of_is_eos, left-consume-lt, left-consume-le, left-loop-le, left-string_round-le,
}
use fidl.Lexer.Below.{
  rank, IsReady, IsBelow, if_IsBelow, left_of_peek, IsBelow-root, lex_skip-IsBelow,
  lex_root-IsBelow, lex_single_char-IsBelow, lex_equals_or_response-IsBelow, lex_name-IsBelow,
  lex_ordinal-IsBelow, lex_number-IsBelow, lex_dec-IsBelow, lex_number_start_with_zero-IsBelow,
  lex_hex_number-IsBelow, lex_fraction_part-IsBelow, lex_exponent_part-IsBelow,
}

lex_string-IsBelow : (l : Lexer) → 0 < left l → IsBelow (5 * left l + 1) (lex_string l)
unfolding lex_string IsBelow
lex_string-IsBelow l h =
    let test : Lexer → Bool =
      λ l. not (is_eos l) && not (peek l == b'"') && not (peek l == b'\n') in
    let d = loop_all test string_round (consume l) in
    let k = left-consume-lt l h in
    let k₂ =
      left-loop-le test string_round left-string_round-le (length (consume l).source + 1)
        (consume l) in
    let k₃ = left-consume-le d in
    if_IsBelow _ (is_eos d || peek d == b'\n') _ _ (λ _. tt)
      (λ _. IsBelow-root _ _ (consume d) (omega arith))

lex_comment-IsBelow : (l : Lexer) → 0 < left l → IsBelow (5 * left l + 1) (lex_comment l)
unfolding lex_comment IsBelow IsReady rank
lex_comment-IsBelow l h =
    let d = consume l in
    let k = left-consume-lt l h in
    if_IsBelow _ (peek d == b'/') _ _ (λ t. (left_of_peek b'/' d (omega arith) t, omega arith))
      (λ _.
        if_IsBelow _ (peek d == b'*') _ _ (λ t. (left_of_peek b'*' d (omega arith) t, omega arith))
          (λ _. tt))

lex_single_line_comment-IsBelow :
    (l : Lexer) → 0 < left l → IsBelow (5 * left l + 1) (lex_single_line_comment l)
unfolding lex_single_line_comment
lex_single_line_comment-IsBelow l h =
    let test : Lexer → Bool = λ l. not (is_eos l) && not (peek l == b'\n') in
    let k = left-consume-lt l h in
    let k₂ =
      left-loop-le test consume left-consume-le (length (consume l).source + 1) (consume l) in
    IsBelow-root _ _ _ (omega arith)

lex_multi_line_comment-IsBelow :
    (l : Lexer) → 0 < left l → IsBelow (5 * left l + 1) (lex_multi_line_comment l)
unfolding lex_multi_line_comment IsBelow IsReady rank
lex_multi_line_comment-IsBelow l h =
    let test : Lexer → Bool = λ l. not (is_eos l) && not (peek l == b'*') in
    let d = loop_all test consume (consume l) in
    let k = left-consume-lt l h in
    let k₂ =
      left-loop-le test consume left-consume-le (length (consume l).source + 1) (consume l) in
    if_IsBelow _ (is_eos d) _ _ (λ _. tt) (λ n. (left_of_is_eos d n, omega arith))

lex_possible_end_of_comment-IsBelow :
    (l : Lexer) → 0 < left l → IsBelow (5 * left l + 1) (lex_possible_end_of_comment l)
unfolding lex_possible_end_of_comment IsBelow IsReady rank
lex_possible_end_of_comment-IsBelow l h =
    let d = consume l in
    let k = left-consume-lt l h in
    let k₂ = left-consume-le d in
    if_IsBelow _ (is_eos d) _ _ (λ _. tt)
      (λ n.
        if_IsBelow _ (peek d == b'/') _ _ (λ _. IsBelow-root _ _ (consume d) (omega arith))
          (λ _. (left_of_is_eos d n, omega arith)))

step-IsBelow : (s : State) (l : Lexer) → IsReady s l → IsBelow (5 * left l + rank s) (step s l)
unfolding step IsReady rank
step-IsBelow root l h = lex_root-IsBelow l
step-IsBelow skip l h = lex_skip-IsBelow l h
step-IsBelow single_char l h = lex_single_char-IsBelow l h
step-IsBelow equals_or_response l h = lex_equals_or_response-IsBelow l h
step-IsBelow name_state l h = lex_name-IsBelow l h
step-IsBelow ordinal_state l h = lex_ordinal-IsBelow l h
step-IsBelow number l h = lex_number-IsBelow l h
step-IsBelow dec l h = lex_dec-IsBelow l h
step-IsBelow number_start_with_zero l h = lex_number_start_with_zero-IsBelow l h
step-IsBelow hex_number l h = lex_hex_number-IsBelow l h
step-IsBelow fraction_part l h = lex_fraction_part-IsBelow l h
step-IsBelow exponent_part l h = lex_exponent_part-IsBelow l h
step-IsBelow string_state l h = lex_string-IsBelow l h
step-IsBelow comment l h = lex_comment-IsBelow l h
step-IsBelow line_comment l h = lex_single_line_comment-IsBelow l h
step-IsBelow multi_comment l h = lex_multi_line_comment-IsBelow l h
step-IsBelow possible_end l h = lex_possible_end_of_comment-IsBelow l h

next_ends :
    (m : ℕ) (r : Next) (go : State → Option Lexer)
    → IsBelow m r
    → ((s : State) → IsReady s r.0 → 5 * left r.0 + rank s < m → go s ≢ none)
    → elim r.1 [ none ↦ some r.0 | some s ↦ go s ] ≢ none
unfolding IsBelow
next_ends m (l, none) go h k e = cc
next_ends m (l, some s) go h k e = k s h.0 h.1 e

run-ne-none :
    (fuel : ℕ) (s : State) (l : Lexer)
    → IsReady s l
    → 5 * left l + rank s < fuel
    → run fuel s l ≢ none
unfolding run
run-ne-none zero s l h k = absurd (omega arith)
run-ne-none (suc fuel) s l h k =
    next_ends (5 * left l + rank s) (step s l) (λ s'. run fuel s' (step s l).0) (step-IsBelow s l h)
      (λ s' h' k'. run-ne-none fuel s' (step s l).0 h' (omega arith))

-- The fuel of `tokenizeUnfiltered` is enough for every source.
pub run-root-ne-none : (source : Bytes) → run (5 * length source + 5) root (start source) ≢ none
unfolding IsReady rank start left
run-root-ne-none source = run-ne-none _ root (start source) tt (omega arith)
