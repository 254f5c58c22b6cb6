-- ===== src/Parser.antt =====
-- The parser's state and what reads its tokens: compiler/src/fidl/compiler/parser/parser.go and the
-- helper functions of parsing.go.
pub mod Integers
pub mod Steps
pub mod Grammar
pub mod Types
pub mod Literals
mod Tests
use fidl.Prelude.{
  ℕ, zero, suc, ◌-◌, Bool, true, false, not, ◌&&◌, ◌||◌, Option, none, some, List, [], ◌∷◌, ◌++◌,
  ltb, ◌==◌, if◌then◌else◌, length, drop, take,
}
use fidl.Prelude.Bytes.{Bytes}
use fidl.Prelude.Go.{Go, ok, err, panic, ◌>>=◌, ◌>>◌, pure}
use fidl.Lexer.Tokens.{TokenKind, Token, eof, name, string_literal, kind_number}
use fidl.Lexer.Stream.{eof_token}
use fidl.Types.{TypeRef, UserTypeRef}

pub data ParseErrorCode : Type 0 where
  bad_attribute_location eof_error expected_simple_name extraneous_token : ParseErrorCode
  integer_out_of_range integer_parse_error missing_semi : ParseErrorCode
  not_assignment_compatible bad_ordinal unexpected_token : ParseErrorCode

-- The file of an error is the parser's; its message is not modelled.
pub record ParseError : Type 0 where
  pub code : ParseErrorCode
  pub token : Token

-- The name and the type of what a value is assigned to.
pub record AssigneeSpec : Type 0 where
  pub assignee_name : Bytes
  pub assignee_type : TypeRef

pub record UserValueRef : Type 0 where
  pub assignee_spec : AssigneeSpec
  pub identifier : Bytes
  pub scope : ℕ
  pub token : Token
  pub used_as_enum_value_initializer : Bool

-- The references are those that the descriptor keeps for the resolution.
pub record Parser : Type 0 where
  pub input : List Token
  pub discard_remaining : Bool
  pub last_seen : Token
  pub last_consumed : Token
  pub error : Option ParseError
  pub current_scope : ℕ
  pub type_references : List UserTypeRef
  pub value_references : List UserValueRef

pub data OutOfFuel : Type 0 where
  out_of_fuel : OutOfFuel

-- A method of the parser. Its errors are in the parser's state.
abbrev pub Act : Type 0 → Type 0
Act A = Go OutOfFuel Parser A

abbrev pub is_nil : {A : Type 0} → Option A → Bool
is_nil none = true
is_nil (some _) = false

abbrev pub is_ok : Parser → Bool
is_ok p = is_nil p.error

-- `if !p.OK() { return r }` at the head of a method
abbrev pub unless_failed : {A : Type 0} → A → Act A → Act A
unless_failed r act p = if is_ok p then act p else ok r p

-- `==` of two kinds of tokens
abbrev pub is_kind : TokenKind → Token → Bool
is_kind kind t = kind_number t.kind == kind_number kind

abbrev pub head_token : List Token → Token
head_token [] = eof_token
head_token (t ∷ _) = t

abbrev pub rest_tokens : List Token → List Token
rest_tokens [] = []
rest_tokens (_ ∷ ts) = ts

-- The token that PeekNext gives, or the one of a discarded rest.
abbrev pub next_token : Parser → Token
next_token p = if p.discard_remaining then eof_token else head_token p.input

abbrev pub parse_error_t : ParseErrorCode → Token → Parser → Parser
parse_error_t code token p = record p { error = some (record { code = code; token = token }) }

-- The error of an end of file is raised before the token is noted.
unfoldable pub peek_next_token : Act Token
peek_next_token p =
    let t = next_token p in
    let failed = if is_kind eof t then parse_error_t eof_error p.last_seen p else p in
    ok t (record failed { last_seen = t })

unfoldable pub check_eof : Act Bool
check_eof p = let t = next_token p in ok (is_kind eof t) (record p { last_seen = t })

unfoldable pub consume_next_token : Act (Unit {0})
consume_next_token p =
    if p.discard_remaining
    then ok tt (record p { last_seen = eof_token; last_consumed = eof_token })
    else ok tt (record p { last_consumed = head_token p.input; input = rest_tokens p.input })

-- Either error is of one code; the kinds differ in the message.
abbrev pub unexpected_token_error : Token → Act (Unit {0})
unexpected_token_error t p = ok tt (parse_error_t unexpected_token t p)

-- `p.OK()`
abbrev pub get_ok : Act Bool
get_ok p = ok (is_ok p) p

abbrev pub get_last_consumed : Act Token
get_last_consumed p = ok p.last_consumed p

abbrev pub get_last_seen : Act Token
get_last_seen p = ok p.last_seen p

unfoldable pub consume_if_kind : TokenKind → Token → Act Bool
consume_if_kind kind t =
    if is_kind kind t
    then (do consume_next_token; pure true)
    else (do unexpected_token_error t; pure false)

-- `match`
unfoldable pub match_kind : TokenKind → Act Bool
match_kind kind =
    unless_failed false do t ← peek_next_token; unless_failed false (consume_if_kind kind t)

unfoldable pub try_consume : TokenKind → Act Bool
try_consume kind = do
  t ← peek_next_token
  if is_kind kind t then (do consume_next_token; pure true) else pure false

unfoldable pub try_match : TokenKind → Act Bool
try_match kind = do
  at_eof ← check_eof
  if at_eof then pure false else unless_failed false (try_consume kind)

unfoldable pub consumed_text : Bool → Act Bytes
consumed_text matched = if matched then (λ p. ok p.last_consumed.text p) else pure []

unfoldable pub read_text : TokenKind → Act Bytes
read_text kind = unless_failed [] do matched ← match_kind kind; consumed_text matched

unfoldable pub read_name : Act Bytes
read_name = unless_failed [] (read_text name)

-- The text between the quotation marks, or the panic on a token that has none.
unfoldable pub string_literal_token_to_text : Token → Act Bytes
string_literal_token_to_text t p =
    let n = length t.text in
    if not (is_kind string_literal t)
      || ltb n 2
      || not (head_or t.text == b'"')
      || not (head_or (drop (n - 1) t.text) == b'"')
    then panic
    else ok (take (n - 2) (drop 1 t.text)) p
  where
    head_or : Bytes → ℕ
    head_or [] = 0
    head_or (x ∷ _) = x

unfoldable pub read_string_literal : Act Bytes
read_string_literal = unless_failed [] do
  matched ← match_kind string_literal
  if matched then (λ p. string_literal_token_to_text p.last_consumed p) else pure []
