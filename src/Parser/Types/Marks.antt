-- ===== src/Parser/Types/Marks.antt =====
-- `match` and `tryMatch` as readers of one token.
use fidl.Prelude.{◌≡◌, refl, Bool, true, false, List, [], ◌∷◌, ◌++◌, ◌==◌, Bool-cases, inl, inr}
use fidl.Lexer.Tokens.{TokenKind, Token, eof, kind_number}
use fidl.Prelude.Bytes.{Bytes}
use fidl.Types.{UserTypeRef}
use fidl.Parser.{is_kind, head_token, match_kind, try_match, read_text, consumed_text}
use fidl.Parser.Steps.{
  Context, at, Returns, Returns-map, Reads, failed, read, and_then-Returns, Leaves, try_match_hit,
  try_match_miss, match_kind_hit, match_kind_miss, is_kind_other,
}
use fidl.Parser.Grammar.{IsMark, unmarked, marked, IsToken, token, IsText, text_of}

abbrev pub ReadsMark : TokenKind → List UserTypeRef → List Token → Bool → List UserTypeRef → Type 0
ReadsMark k refs xs b refs' = IsMark k xs b × (refs' ≡ refs)

abbrev pub ReadsToken : TokenKind → List UserTypeRef → List Token → Bool → List UserTypeRef → Type 0
ReadsToken k refs xs b refs' = IsToken k xs b × (refs' ≡ refs)

pub IsToken-true : (k : TokenKind) (xs : List Token) (b : Bool) → IsToken k xs b → b ≡ true
IsToken-true k xs b (token t h) = refl

abbrev pub ReadsText : TokenKind → List UserTypeRef → List Token → Bytes → List UserTypeRef → Type 0
ReadsText k refs xs b refs' = IsText k xs b × (refs' ≡ refs)

module _ (c : Context) (k : TokenKind) (ne : (kind_number k == 3) ≡ false) where
  pub try_match-Reads :
      (ts : List Token) (seen last : Token) (refs : List UserTypeRef)
      → Returns (Reads c ts (ReadsMark k refs) (λ _. ⊥)) (try_match k (at c ts seen last refs))
  try_match-Reads ts seen last refs = elim (Bool-cases (is_kind k (head_token ts))) [
    | inr miss ↦
        rw (try_match_miss c seen last refs k ts miss)
          (read _ _ [] ts (head_token ts) last refs refl refl (unmarked, refl))
    | inl hit ↦ go ts hit
  ]
    where
      go :
          (ts : List Token)
          → is_kind k (head_token ts) ≡ true
          → Returns (Reads c ts (ReadsMark k refs) (λ _. ⊥)) (try_match k (at c ts seen last refs))
      go [] hit = absurd (cc (is_kind_other k eof (head_token []) ne hit))
      go (t ∷ ts) hit =
          rw (try_match_hit c seen last refs k t ts ne hit)
            (read _ _ (t ∷ []) ts t t refs refl refl (marked t hit, refl))

  pub match_kind-Reads :
      (ts : List Token) (seen last : Token) (refs : List UserTypeRef)
      → Returns
          (Reads c ts (ReadsToken k refs) (λ b. b ≡ false))
          (match_kind k (at c ts seen last refs))
  match_kind-Reads ts seen last refs = elim (Bool-cases (is_kind k (head_token ts))) [
    | inr miss ↦
        Returns-map _ _ (match_kind k (at c ts seen last refs)) (λ a p h. failed a p h.0 h.1)
          (match_kind_miss c seen last refs k ts miss)
    | inl hit ↦ go ts hit
  ]
    where
      go :
          (ts : List Token)
          → is_kind k (head_token ts) ≡ true
          → Returns
              (Reads c ts (ReadsToken k refs) (λ b. b ≡ false))
              (match_kind k (at c ts seen last refs))
      go [] hit = absurd (cc (is_kind_other k eof (head_token []) ne hit))
      go (t ∷ ts) hit =
          rw (match_kind_hit c seen last refs k t ts ne hit)
            (read _ _ (t ∷ []) ts t t refs refl refl (token t hit, refl))

  pub read_text-Reads :
      (ts : List Token) (seen last : Token) (refs : List UserTypeRef)
      → Returns
          (Reads c ts (ReadsText k refs) (λ _. Unit {0}))
          (read_text k (at c ts seen last refs))
  unfolding read_text consumed_text
  read_text-Reads ts seen last refs = elim (Bool-cases (is_kind k (head_token ts))) [
    | inr miss ↦
        and_then-Returns _ _ (match_kind k (at c ts seen last refs)) _
          (match_kind_miss c seen last refs k ts miss) (λ a p h. rw h.0 (failed _ p tt h.1))
    | inl hit ↦ go ts hit
  ]
    where
      go :
          (ts : List Token)
          → is_kind k (head_token ts) ≡ true
          → Returns
              (Reads c ts (ReadsText k refs) (λ _. Unit {0}))
              (read_text k (at c ts seen last refs))
      go [] hit = absurd (cc (is_kind_other k eof (head_token []) ne hit))
      go (t ∷ ts) hit =
          rw (match_kind_hit c seen last refs k t ts ne hit)
            (read _ _ (t ∷ []) ts t t refs refl refl (text_of t hit, refl))

  -- A mark that may be there, before tokens that do not begin with it.
  pub try_match-IsMark :
      (xs rest : List Token) (b : Bool) (seen last : Token) (refs : List UserTypeRef)
      → IsMark k xs b
      → is_kind k (head_token rest) ≡ false
      → Leaves c rest refs b (try_match k (at c (xs ++ rest) seen last refs))
  try_match-IsMark xs rest b seen last refs unmarked e =
      (head_token rest, last, try_match_miss c seen last refs k rest e)
  try_match-IsMark xs rest b seen last refs (marked t h) e =
      (t, t, try_match_hit c seen last refs k t rest ne h)

-- A mark is not the beginning of another.
pub IsMark-head :
    (k l : TokenKind) (xs rest : List Token) (b : Bool)
    → (kind_number k == kind_number l) ≡ false
    → IsMark k xs b
    → is_kind l (head_token rest) ≡ false
    → is_kind l (head_token (xs ++ rest)) ≡ false
IsMark-head k l xs rest b ne unmarked e = e
IsMark-head k l xs rest b ne (marked t h) e = is_kind_other k l t ne h
