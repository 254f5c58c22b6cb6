-- ===== src/Parser/Types/CompleteNames.antt =====
-- `tryParseBuiltInType`: every built-in type of the grammar is read.
use fidl.Prelude.{◌≡◌, refl, ◌∙◌, sym, ap, true, false, some, List, ◌∷◌, ◌++◌, Bool-cases, inl, inr}
use mathlib.Core.Option.{some-injective}
use fidl.Prelude.Bytes.{Bytes}
use fidl.Prelude.Go.{ok}
use fidl.Lexer.Tokens.{Token, name, qstn, l_angle, r_angle, codes, same_bytes}
use fidl.Types.{TypeRef, UserTypeRef, built_in_type}
use fidl.Parser.{is_kind, head_token, consume_next_token, read_text, consumed_text}
use fidl.Parser.Steps.{
  Context, at, Leaves, and_then-Leaves, try_match_hit, try_match_miss, match_kind_hit,
  is_kind_other,
}
use fidl.Parser.Types.{
  parse_built_in_name, parse_handle_suffix, parse_handle_kind, parse_nullable_marker,
  named_or_raise, type_or_raise, NamedType, handle_name,
}
use fidl.Parser.Grammar.{IsTypeName, plain, with_kind, IsNullable, as_named, nullable_type}

read_text_hit :
    (c : Context) (refs : List UserTypeRef) (seen last t : Token) (ts : List Token)
    → is_kind name t ≡ true
    → read_text name (at c (t ∷ ts) seen last refs) ≡ ok t.text (at c ts t t refs)
unfolding read_text consumed_text
read_text_hit c refs seen last t ts h = rw (match_kind_hit c seen last refs name t ts refl h) refl

handle_kind-Leaves :
    (c : Context) (refs : List UserTypeRef) (seen last t k r : Token) (any : NamedType)
    (found : TypeRef) (ts : List Token)
    → is_kind name k ≡ true
    → is_kind r_angle r ≡ true
    → built_in_type (handle_name k.text) ≡ some found
    → Leaves c ts refs
        (some (handle_name k.text, found))
        (parse_handle_kind t any (at c (k ∷ r ∷ ts) seen last refs))
unfolding parse_handle_kind named_or_raise
handle_kind-Leaves c refs seen last t k r any found ts n h b =
    rw
      (
        read_text_hit c refs seen last k (r ∷ ts) n,
        match_kind_hit c k k refs r_angle r ts refl h,
        b,
      )
      (r, r, refl)

name-Leaves :
    (c : Context) (refs : List UserTypeRef) (seen last t : Token) (ts rest : List Token)
    (text : Bytes) (any found : TypeRef)
    → built_in_type t.text ≡ some any
    → IsTypeName t ts text found
    → is_kind l_angle (head_token rest) ≡ false
    → Leaves c rest refs
        (some (text, found))
        (parse_handle_suffix t (t.text, any) (at c (ts ++ rest) seen last refs))
unfolding parse_handle_suffix
name-Leaves c refs seen last t ts rest text any found a (plain _ b) e =
    let same : any ≡ found = some-injective any found (sym a ∙ b) in
    elim (Bool-cases (same_bytes t.text (codes "handle"))) [
      | inl h ↦
          rw (h, try_match_miss c seen last refs l_angle rest e)
            (
              head_token rest,
              last,
              ap (λ u. ok (some (t.text, u)) (at c rest (head_token rest) last refs)) same,
            )
      | inr h ↦ rw h (seen, last, ap (λ u. ok (some (t.text, u)) (at c rest seen last refs)) same)
    ]
name-Leaves c refs seen last t ts rest text any found a (with_kind l k r _ _ h _ hl n hr b) e =
    rw (h, try_match_hit c seen last refs l_angle l (k ∷ r ∷ rest) refl hl)
      (handle_kind-Leaves c refs l l t k r (t.text, any) found rest n hr b)

nullable-Leaves :
    (c : Context) (refs : List UserTypeRef) (seen last t : Token) (qs rest : List Token)
    (text : Bytes) (found type : TypeRef)
    → IsNullable text found qs type
    → is_kind qstn (head_token rest) ≡ false
    → Leaves c rest refs
        (some type)
        (parse_nullable_marker t (some (text, found)) (at c (qs ++ rest) seen last refs))
unfolding parse_nullable_marker type_or_raise
nullable-Leaves c refs seen last t qs rest text found type as_named e =
    rw (try_match_miss c seen last refs qstn rest e) (head_token rest, last, refl)
nullable-Leaves c refs seen last t qs rest text found type (nullable_type q _ h b) e =
    rw (try_match_hit c seen last refs qstn q rest refl h, b) (q, q, refl)

IsNullable-head :
    (text : Bytes) (found type : TypeRef) (qs rest : List Token)
    → IsNullable text found qs type
    → is_kind l_angle (head_token rest) ≡ false
    → is_kind l_angle (head_token (qs ++ rest)) ≡ false
IsNullable-head text found type qs rest as_named e = e
IsNullable-head text found type qs rest (nullable_type q _ h b) e =
    is_kind_other qstn l_angle q refl h

-- A name of a built-in type is one by itself.
pub IsTypeName-any :
    (t : Token) (ts : List Token) (text : Bytes) (found : TypeRef)
    → IsTypeName t ts text found
    → (any : TypeRef) × (built_in_type t.text ≡ some any)
IsTypeName-any t ts text found (plain _ b) = (found, b)
IsTypeName-any t ts text found (with_kind l k r any _ h b _ _ _ _) = (any, b)

pub built_in-Leaves :
    (c : Context) (refs : List UserTypeRef) (seen last t : Token) (ts qs rest : List Token)
    (text : Bytes) (any found type : TypeRef)
    → built_in_type t.text ≡ some any
    → IsTypeName t ts text found
    → IsNullable text found qs type
    → is_kind qstn (head_token rest) ≡ false
    → is_kind l_angle (head_token rest) ≡ false
    → Leaves c rest refs
        (some type)
        (parse_built_in_name t (some any) (at c (t ∷ (ts ++ (qs ++ rest))) seen last refs))
unfolding parse_built_in_name consume_next_token
built_in-Leaves c refs seen last t ts qs rest text any found type a named nullable q l =
    and_then-Leaves c (qs ++ rest) rest refs refs (some (text, found)) (some type) _ _
      (name-Leaves c refs seen t t ts (qs ++ rest) text any found a named
        (IsNullable-head text found type qs rest nullable l))
      (λ s l'. nullable-Leaves c refs s l' t qs rest text found type nullable q)
