-- ===== src/Lexer/Stream.antt =====
-- compiler/src/fidl/compiler/lexer/token_stream.go: what the parser reads. The channel is the list of
-- the tokens that are still to be received; the lexer closes it after the last.
pub mod Filter
use fidl.Prelude.{
  ℕ, zero, suc, ◌+◌, Bool, true, false, ◌||◌, Option, none, some, List, [], ◌∷◌, ◌++◌, ◌==◌,
  if◌then◌else◌, length,
}
use fidl.Lexer.Tokens.{
  TokenKind, Token, eof, single_line_comment, multi_line_comment, empty_line, kind_number,
}

abbrev pub eof_token : Token
eof_token = record {
  kind = eof;
  text = [];
  source_pos = 0;
  line_pos = 0;
  source_pos_bytes = 0;
  line_pos_bytes = 0;
  line_no = 0;
}

pub record TokenChan : Type 0 where
  pub token_chan : List Token
  pub next_token : Token
  pub read : Bool

unfoldable pub consume_next : TokenChan → TokenChan
consume_next s = elim s.token_chan [
  | [] ↦ record s { next_token = eof_token }
  | t ∷ ts ↦ record s { token_chan = ts; next_token = t }
]

unfoldable pub peek_next : TokenChan → Token × TokenChan
unfolding consume_next
peek_next s =
    let s' = if s.read then s else consume_next (record s { read = true }) in (s'.next_token, s')

-- The map `filter` is the list of its keys.
pub record FilteredTokenStream : Type 0 where
  pub token_stream : TokenChan
  pub filter : List TokenKind
  pub filtered_tokens : List Token

-- whether a kind is a key of the map
abbrev pub is_key : List TokenKind → TokenKind → Bool
is_key [] k = false
is_key (x ∷ xs) k = kind_number x == kind_number k || is_key xs k

-- the loop of `skipFiltered`, with the rounds left
unfoldable pub skip_rounds : ℕ → Token → FilteredTokenStream → FilteredTokenStream
unfolding peek_next consume_next
skip_rounds zero t s = s
skip_rounds (suc n) t s =
    let (t', c) = peek_next (consume_next s.token_stream) in
    let rest =
      skip_rounds n t'
        (record s { token_stream = c; filtered_tokens = s.filtered_tokens ++ (t ∷ []) }) in
    if is_key s.filter t.kind then rest else s

unfoldable pub skip_filtered : FilteredTokenStream → FilteredTokenStream
unfolding skip_rounds peek_next
skip_filtered s =
    let (t, c) = peek_next s.token_stream in
    skip_rounds (length s.token_stream.token_chan + 2) t (record s { token_stream = c })

-- `PeekNext` and `ConsumeNext` of the filtered stream
unfoldable pub peek_filtered : FilteredTokenStream → Token × FilteredTokenStream
unfolding skip_filtered peek_next
peek_filtered s =
    let s' = skip_filtered s in
    let (t, c) = peek_next s'.token_stream in (t, record s' { token_stream = c })

unfoldable pub consume_filtered : FilteredTokenStream → FilteredTokenStream
unfolding skip_filtered consume_next
consume_filtered s =
    let s' = skip_filtered s in
    skip_filtered (record s' { token_stream = consume_next s'.token_stream })

-- `none` is the panic on a filter with EOF.
unfoldable pub new_filtered_token_stream : TokenChan → List TokenKind → Option FilteredTokenStream
new_filtered_token_stream ts filter =
    if is_key filter eof
    then none
    else some (record { token_stream = ts; filter = filter; filtered_tokens = [] })

-- the stream of `tokenizeUnfiltered` before anything is received
unfoldable pub new_token_chan : List Token → TokenChan
new_token_chan ts = record { token_chan = ts; next_token = eof_token; read = false }

-- `Tokenize`, given what the lexer sends
unfoldable pub tokenize : List Token → Option FilteredTokenStream
unfolding new_filtered_token_stream new_token_chan
tokenize ts =
    new_filtered_token_stream (new_token_chan ts)
      (single_line_comment ∷ multi_line_comment ∷ empty_line ∷ [])
