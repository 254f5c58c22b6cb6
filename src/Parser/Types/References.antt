-- ===== src/Parser/Types/References.antt =====
-- `parseTypeReference`
use fidl.Prelude.{
  ℕ, ◌≡◌, refl, ◌∙◌, sym, Bool, true, false, Option, none, some, List, [], ◌∷◌, ◌++◌, length, arith,
}
use mathlib.Core.List.{append_assoc}
use mathlib.Core.Path.{subst}
use fidl.Prelude.Bytes.{Bytes}
use fidl.Lexer.Tokens.{Token, name, dot, amp, qstn, eof, codes, same_bytes}
use fidl.Types.{TypeRef, UserTypeRef, built_in_type, user_type, new_user_type_ref}
use fidl.Parser.{is_kind, head_token}
use fidl.Parser.Steps.{Context, at, Returns, Reads, failed, read, and_then-Reads, Leaves}
use fidl.Parser.Types.{parse_type_reference}
use fidl.Parser.Types.Identifiers.{
  ReadsIdentifier, IsIdentifier-head, IsIdentifier-name, parse_identifier-Reads,
  parse_identifier-IsIdentifier,
}
use fidl.Parser.Types.Marks.{ReadsMark, try_match-Reads, try_match-IsMark, IsMark-head}
use fidl.Parser.Grammar.{IsType, reference, IsIdentifier, IsMark}

-- No type: nil, with an error.
abbrev pub IsNil : Option TypeRef → Type 0
IsNil a = a ≡ none

-- A type of the grammar.
abbrev pub ReadsType :
    Context → List UserTypeRef → List Token → Option TypeRef → List UserTypeRef → Type 0
ReadsType c refs xs a refs' =
    (type : TypeRef) × ((a ≡ some type) × IsType c.scope refs xs type refs')

-- The three parts of the tokens, one after the other.
pub append_three :
    (ts xs ys zs r₁ r₂ r₃ : List Token)
    → ts ≡ xs ++ r₁
    → r₁ ≡ ys ++ r₂
    → r₂ ≡ zs ++ r₃
    → ts ≡ (xs ++ (ys ++ zs)) ++ r₃
append_three ts xs ys zs r₁ r₂ r₃ p q r = simp (p, q, r, append_assoc)

registered :
    {scope : ℕ} (refs refs' : List UserTypeRef) (xs ys zs : List Token) (text : Bytes)
    (first : Token) (request nullable : Bool)
    → refs' ≡ refs
    → first ≡ head_token xs
    → IsIdentifier xs text
    → built_in_type (head_token xs).text ≡ none
    → same_bytes (codes "array") (head_token xs).text ≡ false
    → same_bytes (codes "map") (head_token xs).text ≡ false
    → IsMark amp ys request
    → IsMark qstn zs nullable
    → (type : TypeRef) × ((some (user_type (length refs')) ≡ some type)
        × IsType scope refs
            (xs ++ (ys ++ zs))
            type
            (refs' ++ new_user_type_ref text nullable request scope first ∷ []))
registered refs refs' xs ys zs text first request nullable same head id b ar mp ys' zs' =
    rw (same, head)
      (
        user_type (length refs),
        (refl, reference refs xs ys zs _ text request nullable refl id b ar mp ys' zs'),
      )

module _ (c : Context) (refs : List UserTypeRef) (seen last : Token) where
  -- A name that is no built-in type, and neither `array` nor `map`, is read as a reference.
  pub parse_type_reference-Reads :
      (t : Token) (ts : List Token)
      → is_kind eof t ≡ false
      → (is_kind name t ≡ true → built_in_type t.text ≡ none)
      → (is_kind name t ≡ true → same_bytes (codes "array") t.text ≡ false)
      → (is_kind name t ≡ true → same_bytes (codes "map") t.text ≡ false)
      → Returns
          (Reads c (t ∷ ts) (ReadsType c refs) IsNil)
          (parse_type_reference (at c (t ∷ ts) seen last refs))
  unfolding parse_type_reference
  parse_type_reference-Reads t ts e b ar mp =
      and_then-Reads c (t ∷ ts) (ReadsIdentifier refs) (λ _. Unit {0}) _ _ _
        (parse_identifier-Reads c refs seen last t ts e) (λ a p _ bad. rw bad (failed _ _ refl bad))
        (λ a xs r₁ s₁ l₁ refs₁ p₁ g₁.
          and_then-Reads c r₁ (ReadsMark amp refs₁) (λ _. ⊥) _ _ _
            (try_match-Reads c amp refl r₁ s₁ l₁ refs₁) (λ _ _ n _. absurd n)
            (λ request ys r₂ s₂ l₂ refs₂ p₂ g₂.
              and_then-Reads c r₂ (ReadsMark qstn refs₂) (λ _. ⊥) _ _ _
                (try_match-Reads c qstn refl r₂ s₂ l₂ refs₂) (λ _ _ n _. absurd n)
                (λ nullable zs r₃ s₃ l₃ refs₃ p₃ g₃.
                  let head = IsIdentifier-head t ts xs r₁ a.0 g₁.0.0 p₁ in
                  let n = IsIdentifier-name xs a.0 g₁.0.0 in
                  let first = subst (λ u. is_kind name u ≡ true) (sym head) n in
                  let in_head = λ (P : Token → Type 0) (u : P t). subst P head u in
                  read _ _ (xs ++ (ys ++ zs)) r₃ s₃ l₃ _ refl
                    (append_three (t ∷ ts) xs ys zs r₁ r₂ r₃ p₁ p₂ p₃)
                    (registered refs refs₃ xs ys zs a.0 a.1 request nullable (g₃.1 ∙ g₂.1 ∙ g₁.1)
                      g₁.0.1 g₁.0.0 (in_head (λ u. built_in_type u.text ≡ none) (b first))
                      (in_head (λ u. same_bytes (codes "array") u.text ≡ false) (ar first))
                      (in_head (λ u. same_bytes (codes "map") u.text ≡ false) (mp first)) g₂.0
                      g₃.0))))

  -- Every reference is read, before a token that would not go on with it.
  pub parse_type_reference-IsIdentifier :
      (ts amps qs rest : List Token) (text : Bytes) (request nullable : Bool)
      → IsIdentifier ts text
      → IsMark amp amps request
      → IsMark qstn qs nullable
      → is_kind dot (head_token rest) ≡ false
      → is_kind amp (head_token rest) ≡ false
      → is_kind qstn (head_token rest) ≡ false
      → Leaves c rest
          (refs ++ new_user_type_ref text nullable request c.scope (head_token ts) ∷ [])
          (some (user_type (length refs)))
          (parse_type_reference (at c (ts ++ (amps ++ (qs ++ rest))) seen last refs))
  unfolding parse_type_reference
  parse_type_reference-IsIdentifier ts amps qs rest text request nullable id as' qs' d a q =
      let no_dot =
        IsMark-head amp dot amps (qs ++ rest) request refl as'
          (IsMark-head qstn dot qs rest nullable refl qs' d) in
      let (s₁, l₁, e₁) =
        parse_identifier-IsIdentifier c refs seen last ts (amps ++ (qs ++ rest)) text id no_dot in
      let (s₂, l₂, e₂) =
        try_match-IsMark c amp refl amps (qs ++ rest) request s₁ l₁ refs as'
          (IsMark-head qstn amp qs rest nullable refl qs' a) in
      let (s₃, l₃, e₃) = try_match-IsMark c qstn refl qs rest nullable s₂ l₂ refs qs' q in
      (s₃, l₃, ground (arith, e₁, e₂, e₃))
