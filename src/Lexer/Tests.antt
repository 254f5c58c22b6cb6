-- ===== src/Lexer/Tests.antt =====
-- Concrete sources of compiler/src/fidl/compiler/lexer.
use fidl.Prelude.{◌≡◌, refl, Option, none, some, List, [], ◌∷◌, map, length}
use fidl.Prelude.Bytes.{Bytes}
use fidl.Lexer.Runes.{
  decode_rune, is_skippable, is_equals_or_response_start, is_alpha, is_digit, is_name_start,
  is_name_rune, is_ordinal_start, is_number_start, is_string_start, is_maybe_comment,
}
use fidl.Lexer.Tokens.{
  Token, TokenKind, struct, name, l_brace, ordinal, semi, single_line_comment, r_brace,
  error_unterminated_comment, codes, single_char_token, keyword_token,
}
use fidl.Lexer.Machine.{
  Lexer, start, cur_text, begin_token, emit_token, is_eos, rune_at, consume, peek, loop,
}
use fidl.Lexer.States.{
  lex_skip, lex_name, lex_ordinal, tokenize_unfiltered, run, step, lex_root, skip_round,
  lex_single_char, lex_comment, lex_single_line_comment, lex_multi_line_comment,
  lex_possible_end_of_comment, is_single_char,
}
use fidl.Lexer.Stream.{FilteredTokenStream, eof_token, new_filtered_token_stream, new_token_chan}
use fidl.Lexer.Stream.Filter.{unfiltered, first, drain, drain-new_filtered_token_stream}
use fidl.Lexer.Positions.{Lies, tokenize_unfiltered-Lies}

abbrev source : Bytes
source = codes "struct A {\n  int8 b@1; // c\n};"

tokenize_unfiltered-Lies_example :
    (ts : List Token) × (tokenize_unfiltered source ≡ some ts) × Lies source ts (length source)
tokenize_unfiltered-Lies_example = tokenize_unfiltered-Lies source

abbrev kinds : Option (List Token) → List TokenKind
kinds o = elim o [ none ↦ [] | some ts ↦ map (λ t. t.kind) ts ]

source_kinds :
    kinds (tokenize_unfiltered source)
    ≡ struct ∷ name ∷ l_brace ∷ name ∷ name ∷ ordinal ∷ semi ∷ single_line_comment ∷ r_brace ∷ semi
      ∷ []
unfolding tokenize_unfiltered run step lex_root skip_round lex_skip lex_single_char lex_name
    lex_ordinal lex_comment lex_single_line_comment lex_multi_line_comment
    lex_possible_end_of_comment is_single_char start cur_text begin_token emit_token is_eos rune_at
    consume peek loop decode_rune single_char_token keyword_token is_skippable
    is_equals_or_response_start is_alpha is_digit is_name_start is_name_rune is_ordinal_start
    is_number_start is_string_start is_maybe_comment
source_kinds = refl

-- Two stars in front of the slash do not end a comment.
two_stars : kinds (tokenize_unfiltered (codes "/* a **/ b")) ≡ error_unterminated_comment ∷ []
unfolding tokenize_unfiltered run step lex_root skip_round lex_skip lex_single_char lex_name
    lex_ordinal lex_comment lex_single_line_comment lex_multi_line_comment
    lex_possible_end_of_comment is_single_char start cur_text begin_token emit_token is_eos rune_at
    consume peek loop decode_rune single_char_token keyword_token is_skippable
    is_equals_or_response_start is_alpha is_digit is_name_start is_name_rune is_ordinal_start
    is_number_start is_string_start is_maybe_comment
two_stars = refl

abbrev of_kind : TokenKind → Token
of_kind k = record eof_token { kind = k }

abbrev comments : List TokenKind
comments = single_line_comment ∷ []

abbrev some_tokens : List Token
some_tokens =
    of_kind single_line_comment ∷ of_kind name ∷ of_kind single_line_comment ∷ of_kind semi ∷ []

drain-new_filtered_token_stream_example :
    (s : FilteredTokenStream) × (new_filtered_token_stream (new_token_chan some_tokens) comments
      ≡ some s)
    × (drain 3 s ≡ first 3 (unfiltered comments some_tokens))
drain-new_filtered_token_stream_example =
    drain-new_filtered_token_stream comments some_tokens 3 refl
