-- ===== src/Lexer/Moves.antt =====
-- What the three methods consume, begin_token and emit_token keep, every state keeps.
use fidl.Prelude.{ℕ, zero, suc, ◌≡◌, Bool, true, false, Option, none, some, if◌then◌else◌}
use fidl.Lexer.Tokens.{TokenKind}
use fidl.Lexer.Machine.{Lexer, begin_token, emit_token, consume, loop}
use fidl.Lexer.States.{
  State, root, skip, single_char, equals_or_response, name_state, ordinal_state, number, dec,
  number_start_with_zero, hex_number, fraction_part, exponent_part, string_state, comment,
  line_comment, multi_comment, possible_end, Next, step, run, lex_root, skip_round, lex_skip,
  lex_single_char, lex_equals_or_response, lex_name, lex_ordinal, lex_number, lex_dec,
  lex_number_start_with_zero, lex_hex_number, lex_fraction_part, lex_exponent_part, string_round,
  lex_string, lex_comment, lex_single_line_comment, lex_multi_line_comment,
  lex_possible_end_of_comment,
}

pub record IsKept (P : Lexer → Type 0) : Type 0 where
  pub by_consume : (l : Lexer) → P l → P (consume l)
  pub by_begin : (l : Lexer) → P l → P (begin_token l)
  pub by_emit : (k : TokenKind) (l : Lexer) → P l → P (emit_token k l)

module _ (P : Lexer → Type 0) (kept : IsKept P) where
  open kept use {by_consume, by_begin, by_emit}

  if_lexer : (b : Bool) (x y : Lexer) → P x → P y → P (if b then x else y)
  if_lexer true x y p q = p
  if_lexer false x y p q = q

  if_next : (b : Bool) (x y : Next) → P x.0 → P y.0 → P (if b then x else y).0
  if_next true x y p q = p
  if_next false x y p q = q

  loop_keeps :
      (test : Lexer → Bool) (body : Lexer → Lexer)
      → ((l : Lexer) → P l → P (body l))
      → (fuel : ℕ) (l : Lexer) → P l
      → P (loop test body fuel l)
  unfolding loop
  loop_keeps test body keep zero l h = h
  loop_keeps test body keep (suc fuel) l h =
      let rest = loop_keeps test body keep fuel (body l) (keep l h) in
      elim (test l) as (λ b. P (elim b [ true ↦ loop test body fuel (body l) | false ↦ l ])) [
        | true ↦ rest
        | false ↦ h
      ]

  skip_round_keeps : (l : Lexer) → P l → P (skip_round l)
  unfolding skip_round
  skip_round_keeps l h = search (if_lexer, by_emit, by_begin, by_consume)

  lex_skip_keeps : (l : Lexer) → P l → P (lex_skip l).0
  unfolding lex_skip
  lex_skip_keeps l h = by_begin _ (loop_keeps _ skip_round skip_round_keeps _ l h)

  string_round_keeps : (l : Lexer) → P l → P (string_round l)
  unfolding string_round
  string_round_keeps l h = search (if_lexer, by_consume)

  lex_string_keeps : (l : Lexer) → P l → P (lex_string l).0
  unfolding lex_string
  lex_string_keeps l h =
      search (if_next, loop_keeps, string_round_keeps, by_emit, by_consume) depth 7

  lex_root_keeps : (l : Lexer) → P l → P (lex_root l).0
  unfolding lex_root
  lex_root_keeps l h = search (if_next, by_emit, by_consume) depth 16

  lex_single_char_keeps : (l : Lexer) → P l → P (lex_single_char l).0
  unfolding lex_single_char
  lex_single_char_keeps l h = search (by_emit, by_consume) depth 5

  lex_equals_or_response_keeps : (l : Lexer) → P l → P (lex_equals_or_response l).0
  unfolding lex_equals_or_response
  lex_equals_or_response_keeps l h = search (if_next, by_emit, by_consume) depth 5

  lex_name_keeps : (l : Lexer) → P l → P (lex_name l).0
  unfolding lex_name
  lex_name_keeps l h = search (loop_keeps, by_emit, by_consume) depth 6

  lex_ordinal_keeps : (l : Lexer) → P l → P (lex_ordinal l).0
  unfolding lex_ordinal
  lex_ordinal_keeps l h = search (loop_keeps, by_emit, by_consume) depth 6

  lex_number_keeps : (l : Lexer) → P l → P (lex_number l).0
  unfolding lex_number
  lex_number_keeps l h = search (if_next) depth 5

  lex_dec_keeps : (l : Lexer) → P l → P (lex_dec l).0
  unfolding lex_dec
  lex_dec_keeps l h = search (if_next, loop_keeps, by_emit, by_consume) depth 6

  lex_number_start_with_zero_keeps : (l : Lexer) → P l → P (lex_number_start_with_zero l).0
  unfolding lex_number_start_with_zero
  lex_number_start_with_zero_keeps l h = search (if_next, by_emit, by_consume) depth 8

  lex_hex_number_keeps : (l : Lexer) → P l → P (lex_hex_number l).0
  unfolding lex_hex_number
  lex_hex_number_keeps l h = search (loop_keeps, by_emit, by_consume) depth 6

  lex_fraction_part_keeps : (l : Lexer) → P l → P (lex_fraction_part l).0
  unfolding lex_fraction_part
  lex_fraction_part_keeps l h = search (if_next, loop_keeps, by_emit, by_consume) depth 6

  lex_exponent_part_keeps : (l : Lexer) → P l → P (lex_exponent_part l).0
  unfolding lex_exponent_part
  lex_exponent_part_keeps l h = search (if_lexer, loop_keeps, by_emit, by_consume) depth 7

  lex_comment_keeps : (l : Lexer) → P l → P (lex_comment l).0
  unfolding lex_comment
  lex_comment_keeps l h = search (if_next, by_emit, by_consume) depth 6

  lex_single_line_comment_keeps : (l : Lexer) → P l → P (lex_single_line_comment l).0
  unfolding lex_single_line_comment
  lex_single_line_comment_keeps l h = search (loop_keeps, by_emit, by_consume) depth 6

  lex_multi_line_comment_keeps : (l : Lexer) → P l → P (lex_multi_line_comment l).0
  unfolding lex_multi_line_comment
  lex_multi_line_comment_keeps l h = search (if_next, loop_keeps, by_emit, by_consume) depth 6

  lex_possible_end_of_comment_keeps : (l : Lexer) → P l → P (lex_possible_end_of_comment l).0
  unfolding lex_possible_end_of_comment
  lex_possible_end_of_comment_keeps l h = search (if_next, by_emit, by_consume) depth 6

  step_keeps : (s : State) (l : Lexer) → P l → P (step s l).0
  unfolding step
  step_keeps root = lex_root_keeps
  step_keeps skip = lex_skip_keeps
  step_keeps single_char = lex_single_char_keeps
  step_keeps equals_or_response = lex_equals_or_response_keeps
  step_keeps name_state = lex_name_keeps
  step_keeps ordinal_state = lex_ordinal_keeps
  step_keeps number = lex_number_keeps
  step_keeps dec = lex_dec_keeps
  step_keeps number_start_with_zero = lex_number_start_with_zero_keeps
  step_keeps hex_number = lex_hex_number_keeps
  step_keeps fraction_part = lex_fraction_part_keeps
  step_keeps exponent_part = lex_exponent_part_keeps
  step_keeps string_state = lex_string_keeps
  step_keeps comment = lex_comment_keeps
  step_keeps line_comment = lex_single_line_comment_keeps
  step_keeps multi_comment = lex_multi_line_comment_keeps
  step_keeps possible_end = lex_possible_end_of_comment_keeps

  next_keeps :
      (o : Option State) (l : Lexer) (go : State → Option Lexer) {l' : Lexer}
      → P l
      → ((s : State) → go s ≡ some l' → P l')
      → elim o [ none ↦ some l | some s ↦ go s ] ≡ some l'
      → P l'
  next_keeps none l go {l'} h k e = let q : l' ≡ l = cc in rw q h
  next_keeps (some s) l go h k e = k s e

  -- What the three methods keep, the run of the lexer keeps from its start to its end.
  pub run_keeps :
      (fuel : ℕ) (s : State) (l : Lexer) {l' : Lexer} → P l → run fuel s l ≡ some l' → P l'
  unfolding run
  run_keeps zero s l h e = cc
  run_keeps (suc fuel) s l h e =
      let h₁ : P (step s l).0 = step_keeps s l h in
      next_keeps (step s l).1 (step s l).0 (λ s'. run fuel s' (step s l).0) h₁
        (λ s' e'. run_keeps fuel s' (step s l).0 h₁ e') e
