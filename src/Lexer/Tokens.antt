-- ===== src/Lexer/Tokens.antt =====
-- Tokens: compiler/src/fidl/compiler/lexer/tokens.go and the two tables of lexer.go.
use Prim.Native.Char.{code}
use Prim.Native.String.{String}
use fidl.Prelude.{
  ℕ, Bool, true, false, ◌&&◌, Option, none, some, List, [], ◌∷◌, ◌==◌, if◌then◌else◌,
}
use fidl.Prelude.Bytes.{Bytes}

pub data TokenKind : Type 0 where
  error_illegal_char error_unterminated_string_literal error_unterminated_comment eof : TokenKind
  l_paren r_paren l_bracket r_bracket l_brace r_brace l_angle r_angle : TokenKind
  semi comma dot minus plus amp qstn equals response : TokenKind
  name : TokenKind
  import module_kw struct union interface enum const true_kw false_kw default : TokenKind
  int_const_dec int_const_hex float_const ordinal string_literal : TokenKind
  single_line_comment multi_line_comment empty_line : TokenKind

pub record Token : Type 0 where
  pub kind : TokenKind
  pub text : Bytes
  pub source_pos : ℕ
  pub line_pos : ℕ
  pub source_pos_bytes : ℕ
  pub line_pos_bytes : ℕ
  pub line_no : ℕ

-- The code points of an ASCII text.
abbrev pub codes : String → Bytes
codes String.[] = []
codes (String.◌∷◌ c s) = code c ∷ codes s

unfoldable pub same_bytes : Bytes → Bytes → Bool
same_bytes [] [] = true
same_bytes (x ∷ xs) (y ∷ ys) = x == y && same_bytes xs ys
same_bytes _ _ = false

-- `singleCharTokens`
unfoldable pub single_char_token : ℕ → Option TokenKind
single_char_token c =
    if c == b'('
    then some l_paren
    else if c == b')'
    then some r_paren
    else if c == b'['
    then some l_bracket
    else if c == b']'
    then some r_bracket
    else if c == b'{'
    then some l_brace
    else if c == b'}'
    then some r_brace
    else if c == b'<'
    then some l_angle
    else if c == b'>'
    then some r_angle
    else if c == b';'
    then some semi
    else if c == b','
    then some comma
    else if c == b'.'
    then some dot
    else if c == b'-'
    then some minus
    else if c == b'+'
    then some plus
    else if c == b'&'
    then some amp
    else if c == b'?'
    then some qstn
    else none

abbrev keyword_list : List (Bytes × TokenKind)
keyword_list =
    (codes "import", import)
    ∷ (codes "module", module_kw)
    ∷ (codes "struct", struct)
    ∷ (codes "union", union)
    ∷ (codes "interface", interface)
    ∷ (codes "enum", enum)
    ∷ (codes "const", const)
    ∷ (codes "true", true_kw)
    ∷ (codes "false", false_kw)
    ∷ (codes "default", default)
    ∷ []

lookup_keyword : Bytes → List (Bytes × TokenKind) → Option TokenKind
lookup_keyword text [] = none
lookup_keyword text ((k, t) ∷ ks) = if same_bytes k text then some t else lookup_keyword text ks

-- `keywordTokens`
unfoldable pub keyword_token : Bytes → Option TokenKind
unfolding lookup_keyword same_bytes
keyword_token text = lookup_keyword text keyword_list

-- The constants of the block that declares the kinds.
abbrev pub kind_number : TokenKind → ℕ
kind_number error_illegal_char = 0
kind_number error_unterminated_string_literal = 1
kind_number error_unterminated_comment = 2
kind_number eof = 3
kind_number l_paren = 4
kind_number r_paren = 5
kind_number l_bracket = 6
kind_number r_bracket = 7
kind_number l_brace = 8
kind_number r_brace = 9
kind_number l_angle = 10
kind_number r_angle = 11
kind_number semi = 12
kind_number comma = 13
kind_number dot = 14
kind_number minus = 15
kind_number plus = 16
kind_number amp = 17
kind_number qstn = 18
kind_number equals = 19
kind_number response = 20
kind_number name = 21
kind_number import = 22
kind_number module_kw = 23
kind_number struct = 24
kind_number union = 25
kind_number interface = 26
kind_number enum = 27
kind_number const = 28
kind_number true_kw = 29
kind_number false_kw = 30
kind_number default = 31
kind_number int_const_dec = 32
kind_number int_const_hex = 33
kind_number float_const = 34
kind_number ordinal = 35
kind_number string_literal = 36
kind_number single_line_comment = 37
kind_number multi_line_comment = 38
kind_number empty_line = 39
