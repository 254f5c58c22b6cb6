-- ===== src/Lexer/Machine.antt =====
-- The `lexer` struct of lexer.go and the methods that its states are made of. The channel of tokens is
-- the list of the tokens sent so far. A position is in bytes where its name says so, else in runes.
use fidl.Prelude.{
  ℕ, zero, suc, ◌+◌, ◌-◌, Bool, true, false, List, [], ◌∷◌, ◌++◌, leb, ◌==◌, if◌then◌else◌, length,
  take, drop,
}
use fidl.Prelude.Bytes.{Bytes}
use fidl.Lexer.Runes.{rune_error, decode_rune}
use fidl.Lexer.Tokens.{TokenKind, Token}

pub record Lexer : Type 0 where
  pub source : Bytes
  pub tokens : List Token
  pub source_pos_bytes : ℕ
  pub source_pos : ℕ
  pub line_no : ℕ
  pub line_pos : ℕ
  pub line_pos_bytes : ℕ
  pub cur_token_source_pos_bytes : ℕ
  pub cur_token_source_pos : ℕ
  pub cur_token_line_no : ℕ
  pub cur_token_line_pos : ℕ
  pub cur_token_line_pos_bytes : ℕ

-- `s[from:to]` for positions inside the text
abbrev pub slice : ℕ → ℕ → Bytes → Bytes
slice from to s = take (to - from) (drop from s)

unfoldable pub start : Bytes → Lexer
start source = record {
  source = source;
  tokens = [];
  source_pos_bytes = 0;
  source_pos = 0;
  line_no = 0;
  line_pos = 0;
  line_pos_bytes = 0;
  cur_token_source_pos_bytes = 0;
  cur_token_source_pos = 0;
  cur_token_line_no = 0;
  cur_token_line_pos = 0;
  cur_token_line_pos_bytes = 0;
}

unfoldable pub cur_text : Lexer → Bytes
cur_text l = slice l.cur_token_source_pos_bytes l.source_pos_bytes l.source

unfoldable pub begin_token : Lexer → Lexer
begin_token l = record l {
  cur_token_source_pos_bytes = l.source_pos_bytes;
  cur_token_source_pos = l.source_pos;
  cur_token_line_no = l.line_no;
  cur_token_line_pos = l.line_pos;
  cur_token_line_pos_bytes = l.line_pos_bytes;
}

unfoldable pub emit_token : TokenKind → Lexer → Lexer
unfolding begin_token cur_text
emit_token kind l =
    let token : Token = record {
      kind = kind;
      text = cur_text l;
      source_pos = l.cur_token_source_pos;
      line_pos = l.cur_token_line_pos;
      source_pos_bytes = l.cur_token_source_pos_bytes;
      line_pos_bytes = l.cur_token_line_pos_bytes;
      line_no = l.cur_token_line_no;
    } in
    begin_token (record l { tokens = l.tokens ++ (token ∷ []) })

unfoldable pub is_eos : Lexer → Bool
is_eos l = leb (length l.source) l.source_pos_bytes

-- the rune at the position, and its width
unfoldable pub rune_at : Lexer → ℕ × ℕ
rune_at l = decode_rune (drop l.source_pos_bytes l.source)

unfoldable pub consume : Lexer → Lexer
unfolding is_eos rune_at
consume l =
    if is_eos l
    then l
    else let (c, width) = rune_at l in
      let newline = c == b'\n' in
      record l {
        line_no = if newline then l.line_no + 1 else l.line_no;
        line_pos = if newline then 0 else l.line_pos + 1;
        line_pos_bytes = if newline then 0 else l.line_pos_bytes + width;
        source_pos_bytes = l.source_pos_bytes + width;
        source_pos = l.source_pos + 1;
      }

unfoldable pub peek : Lexer → ℕ
unfolding is_eos rune_at
peek l = if is_eos l then rune_error else (rune_at l).0

-- `for test(l) { body(l) }` with fuel, which each of the loops below is given enough of
unfoldable pub loop : (Lexer → Bool) → (Lexer → Lexer) → ℕ → Lexer → Lexer
loop test body zero l = l
loop test body (suc fuel) l = elim (test l) [ true ↦ loop test body fuel (body l) | false ↦ l ]

-- Every round of a loop consumes a byte.
abbrev pub loop_all : (Lexer → Bool) → (Lexer → Lexer) → Lexer → Lexer
loop_all test body l = loop test body (length l.source + 1) l
