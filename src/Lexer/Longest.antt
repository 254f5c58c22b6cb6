-- ===== src/Lexer/Longest.antt =====
-- The loops of lexer.go take the runes of their class, no others, and all that there are.
use fidl.Prelude.{some, none, ◌==◌, ◌||◌, if◌then◌else◌, ℕ, ◌≡◌, Bool, true, false}
use fidl.Lexer.Tokens.{TokenKind, keyword_token, name}
use fidl.Lexer.Machine.{Lexer, consume, peek, cur_text}
use fidl.Lexer.States.{Next, emit_root}

-- `Runs class body l l'`: rounds of `body` lead from `l` to `l'`, each before a rune of the class, and the next
-- rune of `l'` is not of the class.
pub data Runs (class : ℕ → Bool) (body : Lexer → Lexer) : Lexer → Lexer → Type 0 where
  stopped : (l : Lexer) → class (peek l) ≡ false → Runs class body l l
  round :
      (l l' : Lexer) → class (peek l) ≡ true → Runs class body (body l) l' → Runs class body l l'

-- Runes of a class from `l` on, as many as there are, and then the token of them, of the kind `k l'`, from
-- the beginning of the lexer's token.
abbrev pub Takes : (ℕ → Bool) → (Lexer → TokenKind) → Lexer → Next → Type 0
Takes class k l next = (l' : Lexer) × Runs class consume l l' × (next ≡ emit_root (k l') l')

abbrev pub name_kind : Lexer → TokenKind
name_kind l = elim (keyword_token (cur_text l)) [ some k ↦ k | none ↦ name ]

-- Where the digits of an exponent begin.
abbrev pub after_sign : Lexer → Lexer
after_sign l = if peek l == b'+' || peek l == b'-' then consume l else l
