-- ===== src/Parser/Grammar.antt =====
-- The grammar of types that compiler/src/fidl/compiler/parser/parsing.go reads, as judgements on the tokens,
-- with the references that each type registers. It is that of the comments there but for three points: a handle
-- (see `IsTypeName`), the keys of maps, which are those that MarkUsedAsMapKey takes, `string?` among them, and
-- references, which are by name only and may have an ampersand and a question mark whatever they resolve to.
use fidl.Prelude.{ℕ, ◌^◌, ◌<◌, ◌≡◌, Bool, true, false, none, some, List, [], ◌∷◌, ◌++◌, length}
use fidl.Prelude.Bytes.{Bytes}
use fidl.Prelude.Int.{ℤ, pos, negsuc}
use fidl.Lexer.Tokens.{
  TokenKind, Token, name, dot, l_angle, r_angle, comma, qstn, amp, int_const_dec, codes, same_bytes,
}
use fidl.Types.{
  TypeRef, UserTypeRef, new_user_type_ref, built_in_type, array, map_type, user_type,
  mark_used_as_map_key,
}
use fidl.Parser.{is_kind, head_token}
use fidl.Parser.Types.{is_word, handle_name}
use fidl.Parser.Integers.Values.{IsNumeral, number}

-- [MARK]
pub data IsMark (kind : TokenKind) : List Token → Bool → Type 0 where
  unmarked : IsMark kind [] false
  marked : (t : Token) → is_kind kind t ≡ true → IsMark kind (t ∷ []) true

-- MARK
pub data IsToken (kind : TokenKind) : List Token → Bool → Type 0 where
  token : (t : Token) → is_kind kind t ≡ true → IsToken kind (t ∷ []) true

-- A token and its text.
pub data IsText (kind : TokenKind) : List Token → Bytes → Type 0 where
  text_of : (t : Token) → is_kind kind t ≡ true → IsText kind (t ∷ []) t.text

-- name {dot name}, its text and its first token
pub data IsIdentifier : List Token → Bytes → Type 0 where
  last_name : (t : Token) → is_kind name t ≡ true → IsIdentifier (t ∷ []) t.text
  dotted :
      (t d : Token) (ts : List Token) (identifier : Bytes)
      → is_kind name t ≡ true
      → is_kind dot d ≡ true
      → IsIdentifier ts identifier
      → IsIdentifier (t ∷ d ∷ ts) (t.text ++ (b'.' ∷ identifier))

-- The name of a built-in type: a name, or handle langle HANDLE_KIND rangle. The comments want the brackets behind
-- every handle, allow nothing between them, and list six kinds; the parser reads `handle` alone, refuses
-- `handle<>`, and takes the kinds that BuiltInType knows, also job, socket and eventpair.
pub data IsTypeName (t : Token) : List Token → Bytes → TypeRef → Type 0 where
  plain : (found : TypeRef) → built_in_type t.text ≡ some found → IsTypeName t [] t.text found
  with_kind :
      (l k r : Token) (any found : TypeRef)
      → same_bytes t.text (codes "handle") ≡ true
      → built_in_type t.text ≡ some any
      → is_kind l_angle l ≡ true
      → is_kind name k ≡ true
      → is_kind r_angle r ≡ true
      → built_in_type (handle_name k.text) ≡ some found
      → IsTypeName t (l ∷ k ∷ r ∷ []) (handle_name k.text) found

-- The type of a name, with a question mark behind it or not.
pub data IsNullable (text : Bytes) (found : TypeRef) : List Token → TypeRef → Type 0 where
  as_named : IsNullable text found [] found
  nullable_type :
      (q : Token) (other : TypeRef)
      → is_kind qstn q ≡ true
      → built_in_type (text ++ b'?' ∷ []) ≡ some other
      → IsNullable text found (q ∷ []) other

-- [comma int_const_dec]; the length -1 stands for none.
pub data IsLength : List Token → ℤ → Type 0 where
  no_length : IsLength [] (negsuc 0)
  fixed_length :
      (t d : Token)
      → is_kind comma t ≡ true
      → is_kind int_const_dec d ≡ true
      → IsNumeral 10 d.text
      → number 10 0 d.text < 2 ^ 31
      → IsLength (t ∷ d ∷ []) (pos (number 10 0 d.text))

-- `IsType scope refs ts type refs'`: the tokens `ts` are a type, and its references take the list of
-- references from `refs` to `refs'`.
pub data IsType (scope : ℕ)
    : List UserTypeRef → List Token → TypeRef → List UserTypeRef → Type 0 where
  built_in :
      (refs : List UserTypeRef) (t : Token) (ts qs whole : List Token) (text : Bytes)
      (found type : TypeRef)
      → whole ≡ t ∷ (ts ++ qs)
      → is_kind name t ≡ true
      → IsTypeName t ts text found
      → IsNullable text found qs type
      → IsType scope refs whole type refs
  array_of :
      (refs refs' : List UserTypeRef) (t l r : Token) (ts ds qs whole : List Token)
      (element : TypeRef) (size : ℤ) (nullable : Bool)
      → whole ≡ t ∷ l ∷ (ts ++ (ds ++ (r ∷ qs)))
      → is_word (codes "array") t ≡ true
      → is_kind l_angle l ≡ true
      → IsType scope refs ts element refs'
      → IsLength ds size
      → is_kind r_angle r ≡ true
      → IsMark qstn qs nullable
      → IsType scope refs whole (array nullable size element) refs'
  map_of :
      (refs refs' refs'' marked : List UserTypeRef) (t l d r : Token) (ks vs qs whole : List Token)
      (key val : TypeRef) (nullable : Bool)
      → whole ≡ t ∷ l ∷ (ks ++ (d ∷ (vs ++ (r ∷ qs))))
      → is_word (codes "map") t ≡ true
      → is_kind l_angle l ≡ true
      → IsType scope refs ks key refs'
      → is_kind comma d ≡ true
      → IsType scope refs' vs val refs''
      → is_kind r_angle r ≡ true
      → IsMark qstn qs nullable
      → mark_used_as_map_key key refs'' ≡ (true, marked)
      → IsType scope refs whole (map_type nullable key val) marked
  reference :
      (refs : List UserTypeRef) (ts amps qs whole : List Token) (identifier : Bytes)
      (interface_request nullable : Bool)
      → whole ≡ ts ++ (amps ++ qs)
      → IsIdentifier ts identifier
      → built_in_type (head_token ts).text ≡ none
      → same_bytes (codes "array") (head_token ts).text ≡ false
      → same_bytes (codes "map") (head_token ts).text ≡ false
      → IsMark amp amps interface_request
      → IsMark qstn qs nullable
      → IsType scope refs whole (user_type (length refs)) (
          refs
          ++ new_user_type_ref identifier nullable interface_request scope (head_token ts) ∷ [])
