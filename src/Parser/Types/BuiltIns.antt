-- ===== src/Parser/Types/BuiltIns.antt =====
-- `tryParseBuiltInType`
use fidl.Prelude.{
  ◌≡◌, refl, ◌∙◌, sym, ap, Bool, true, false, Option, none, some, List, [], ◌∷◌, ◌++◌, Bool-cases,
  inl, inr, if◌then◌else◌,
}
use mathlib.Core.List.{append_assoc}
use fidl.Prelude.Bytes.{Bytes}
use fidl.Prelude.Go.{pure}
use fidl.Lexer.Tokens.{Token, name, l_angle, r_angle, qstn, codes, same_bytes}
use fidl.Types.{TypeRef, UserTypeRef, built_in_type}
use fidl.Parser.{Parser, is_kind, consume_next_token}
use fidl.Parser.Steps.{Context, at, Returns, Returns-map, Reads, failed, read, and_then-Reads}
use fidl.Parser.Types.{
  parse_built_in_name, parse_handle_suffix, parse_handle_kind, parse_nullable_marker,
  named_or_raise, type_or_raise, NamedType, handle_name,
}
use fidl.Parser.Types.Marks.{
  ReadsMark, ReadsToken, ReadsText, try_match-Reads, match_kind-Reads, read_text-Reads,
  IsToken-true,
}
use fidl.Parser.Types.References.{ReadsType, IsNil}
use fidl.Parser.Grammar.{
  built_in, IsTypeName, plain, with_kind, IsNullable, as_named, nullable_type, IsMark, unmarked,
  marked, IsToken, token, IsText, text_of,
}

abbrev ReadsTypeName :
    Token → List UserTypeRef → List Token → Option NamedType → List UserTypeRef → Type 0
ReadsTypeName t refs xs r refs' =
    (text : Bytes) × (found : TypeRef) × ((r ≡ some (text, found))
      × (IsTypeName t xs text found × (refs' ≡ refs)))

named_or_raise-Reads :
    (c : Context) (refs refs' : List UserTypeRef) (seen last t l : Token) (any : TypeRef)
    (xs ys ts rest : List Token) (kind : Bytes) (closed : Bool) (o : Option TypeRef)
    → same_bytes t.text (codes "handle") ≡ true
    → built_in_type t.text ≡ some any
    → is_kind l_angle l ≡ true
    → IsText name xs kind
    → IsToken r_angle ys closed
    → refs' ≡ refs
    → ts ≡ xs ++ (ys ++ rest)
    → built_in_type (handle_name kind) ≡ o
    → Returns
        (Reads c (l ∷ ts) (ReadsTypeName t refs) (λ r. r ≡ none))
        (named_or_raise t (handle_name kind) o (at c rest seen last refs'))
unfolding named_or_raise
named_or_raise-Reads c refs refs' seen last t l any xs ys ts rest kind closed none h b hl x y same p
      e =
    failed _ _ refl refl
named_or_raise-Reads c refs refs' seen last t l any xs ys ts rest kind closed (some found) h b hl
      (text_of k n) (token r m) same p e =
    read _ _ (l ∷ k ∷ r ∷ []) rest _ _ refs' refl (ap (λ u. l ∷ u) p)
      (handle_name k.text, found, (refl, (with_kind l k r any found h b hl n m e, same)))

type_or_raise-Reads :
    (c : Context) (refs refs' : List UserTypeRef) (seen last t q : Token) (text : Bytes)
    (found : TypeRef) (rest : List Token) (o : Option TypeRef)
    → is_kind qstn q ≡ true
    → refs' ≡ refs
    → built_in_type (text ++ b'?' ∷ []) ≡ o
    → Returns
        (Reads c
          (q ∷ rest)
          (λ xs r refs'.
            (type : TypeRef) × ((r ≡ some type) × (IsNullable text found xs type × (refs' ≡ refs))))
          IsNil)
        (type_or_raise t o (at c rest seen last refs'))
unfolding type_or_raise
type_or_raise-Reads c refs refs' seen last t q text found rest none h same e = failed _ _ refl refl
type_or_raise-Reads c refs refs' seen last t q text found rest (some other) h same e =
    read _ _ (q ∷ []) rest _ _ refs' refl refl (other, (refl, (nullable_type q other h e, same)))

module _ (c : Context) (refs : List UserTypeRef) (seen last t : Token) where
  -- After `handle <`.
  parse_handle_kind-Reads :
      (any : TypeRef) (l : Token) (ts : List Token)
      → same_bytes t.text (codes "handle") ≡ true
      → built_in_type t.text ≡ some any
      → is_kind l_angle l ≡ true
      → Returns
          (Reads c (l ∷ ts) (ReadsTypeName t refs) (λ r. r ≡ none))
          (parse_handle_kind t (t.text, any) (at c ts seen last refs))
  unfolding parse_handle_kind
  parse_handle_kind-Reads any l ts h b hl =
      and_then-Reads c ts (ReadsText name refs) (λ _. Unit {0}) _ _ _
        (read_text-Reads c name refl ts seen last refs) (λ a p _ bad. rw bad (failed _ _ refl refl))
        (λ a xs r₁ s₁ l₁ refs₁ p₁ g₁.
          and_then-Reads c r₁ (ReadsToken r_angle refs₁) (λ b. b ≡ false) _ _ _
            (match_kind-Reads c r_angle refl r₁ s₁ l₁ refs₁)
            (λ b p n bad. rw n (failed _ _ refl bad))
            (λ closed ys r₂ s₂ l₂ refs₂ p₂ g₂. rw (IsToken-true r_angle ys closed g₂.0) (
              named_or_raise-Reads c refs refs₂ s₂ l₂ t l any xs ys ts r₂ a closed
                (built_in_type (handle_name a)) h b hl g₁.0 g₂.0 (g₂.1 ∙ g₁.1)
                (p₁ ∙ ap (λ u. xs ++ u) p₂) refl)))

abbrev ReadsNullable :
    Bytes → TypeRef → List UserTypeRef → List Token → Option TypeRef → List UserTypeRef → Type 0
ReadsNullable text found refs xs r refs' =
    (type : TypeRef) × ((r ≡ some type) × (IsNullable text found xs type × (refs' ≡ refs)))

opened-Reads :
    (c : Context) (refs refs' : List UserTypeRef) (seen last t : Token) (found : TypeRef)
    (opened : Bool) (xs ts rest : List Token)
    → same_bytes t.text (codes "handle") ≡ true
    → built_in_type t.text ≡ some found
    → IsMark l_angle xs opened
    → refs' ≡ refs
    → ts ≡ xs ++ rest
    → Returns (Reads c ts (ReadsTypeName t refs) (λ r. r ≡ none)) (
        (if opened then parse_handle_kind t (t.text, found) else pure (some (t.text, found)))
          (at c rest seen last refs'))
opened-Reads c refs refs' seen last t found opened xs ts rest h b unmarked same p =
    read _ _ [] rest _ _ refs' refl p (t.text, found, (refl, (plain found b, same)))
opened-Reads c refs refs' seen last t found opened xs ts rest h b (marked l hl) same p =
    rw (p, same) (parse_handle_kind-Reads c refs seen last t found l rest h b hl)

parse_handle_suffix-Reads :
    (c : Context) (refs : List UserTypeRef) (seen last t : Token) (found : TypeRef)
    (ts : List Token)
    → built_in_type t.text ≡ some found
    → Returns
        (Reads c ts (ReadsTypeName t refs) (λ r. r ≡ none))
        (parse_handle_suffix t (t.text, found) (at c ts seen last refs))
unfolding parse_handle_suffix
parse_handle_suffix-Reads c refs seen last t found ts b =
    elim (Bool-cases (same_bytes t.text (codes "handle"))) [
      | inr h ↦
          rw h (read _ _ [] ts _ _ refs refl refl (t.text, found, (refl, (plain found b, refl))))
      | inl h ↦ rw h (
          and_then-Reads c ts (ReadsMark l_angle refs) (λ _. ⊥) _ _ _
            (try_match-Reads c l_angle refl ts seen last refs) (λ _ _ n _. absurd n)
            (λ opened xs r₁ s₁ l₁ refs₁ p₁ g₁.
              opened-Reads c refs refs₁ s₁ l₁ t found opened xs ts r₁ h b g₁.0 g₁.1 p₁))
    ]

nullable-Reads :
    (c : Context) (refs refs' : List UserTypeRef) (seen last t : Token) (text : Bytes)
    (found : TypeRef) (nullable : Bool) (xs ts rest : List Token)
    → IsMark qstn xs nullable
    → refs' ≡ refs
    → ts ≡ xs ++ rest
    → Returns (Reads c ts (ReadsNullable text found refs) IsNil) (
        (if nullable
            then type_or_raise t (built_in_type (text ++ b'?' ∷ []))
            else pure (some found))
          (at c rest seen last refs'))
nullable-Reads c refs refs' seen last t text found nullable xs ts rest unmarked same p =
    read _ _ [] rest _ _ refs' refl p (found, (refl, (as_named, same)))
nullable-Reads c refs refs' seen last t text found nullable xs ts rest (marked q h) same p =
    rw (p, same)
      (type_or_raise-Reads c refs refs seen last t q text found rest
        (built_in_type (text ++ b'?' ∷ [])) h refl refl)

parse_nullable_marker-Reads :
    (c : Context) (refs refs' : List UserTypeRef) (seen last t : Token) (named : Option NamedType)
    (text : Bytes) (found : TypeRef) (ts : List Token)
    → named ≡ some (text, found)
    → refs' ≡ refs
    → Returns
        (Reads c ts (ReadsNullable text found refs) IsNil)
        (parse_nullable_marker t named (at c ts seen last refs'))
unfolding parse_nullable_marker
parse_nullable_marker-Reads c refs refs' seen last t named text found ts e same = rw e (
    and_then-Reads c ts (ReadsMark qstn refs') (λ _. ⊥) _ _ _
      (try_match-Reads c qstn refl ts seen last refs') (λ _ _ n _. absurd n)
      (λ nullable xs r₁ s₁ l₁ refs₁ p₁ g₁.
        nullable-Reads c refs refs₁ s₁ l₁ t text found nullable xs ts r₁ g₁.0 (g₁.1 ∙ same) p₁))

-- A name of a built-in type is read as that type, or nothing is.
pub parse_built_in_name-Reads :
    (c : Context) (refs : List UserTypeRef) (seen last t : Token) (found : TypeRef)
    (ts : List Token)
    → is_kind name t ≡ true
    → built_in_type t.text ≡ some found
    → Returns
        (Reads c (t ∷ ts) (ReadsType c refs) IsNil)
        (parse_built_in_name t (some found) (at c (t ∷ ts) seen last refs))
unfolding parse_built_in_name consume_next_token
parse_built_in_name-Reads c refs seen last t found ts n b =
    and_then-Reads c ts (ReadsTypeName t refs) (λ r. r ≡ none) _ _ _
      (parse_handle_suffix-Reads c refs seen t t found ts b)
      (λ a p e bad. unfold parse_nullable_marker in rw e (failed _ _ refl bad))
      (λ a xs r₁ s₁ l₁ refs₁ p₁ g₁.
        Returns-map _ _ (parse_nullable_marker t a (at c r₁ s₁ l₁ refs₁))
          (λ r p h. built_in-Reads a xs r₁ refs₁ p₁ g₁ r p h)
          (parse_nullable_marker-Reads c refs refs₁ s₁ l₁ t a g₁.0 g₁.1 r₁ g₁.2.0 g₁.2.1.1))
  where
    built_in-Reads :
        (a : Option NamedType) (xs r₁ : List Token) (refs₁ : List UserTypeRef)
        → ts ≡ xs ++ r₁
        → (g : ReadsTypeName t refs xs a refs₁) → (r : Option TypeRef) (p : Parser)
        → Reads c r₁ (ReadsNullable g.0 g.1 refs) IsNil r p
        → Reads c (t ∷ ts) (ReadsType c refs) IsNil r p
    built_in-Reads a xs r₁ refs₁ p₁ g r p (failed _ _ e bad) = failed r p e bad
    built_in-Reads a xs r₁ refs₁ p₁ g r p (read _ _ qs rest s l refs₂ q split h) =
        read r p (t ∷ (xs ++ qs)) rest s l refs₂ q
          (ap (λ u. t ∷ u) (p₁ ∙ ap (λ u. xs ++ u) split ∙ sym (append_assoc xs qs rest)))
          (
            h.0,
            (
              h.1.0,
              rw h.1.1.1
                  (built_in refs t xs qs (t ∷ (xs ++ qs)) g.0 g.1 h.0 refl n g.2.1.0 h.1.1.0),
            ),
          )
