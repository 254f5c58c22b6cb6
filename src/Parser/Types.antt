-- ===== src/Parser/Types.antt =====
-- The types of compiler/src/fidl/compiler/parser/parsing.go. A method's fuel bounds the nesting of the
-- calls of `parseType`, and the rounds of the loop over an identifier.
pub mod Identifiers
pub mod References
pub mod BuiltIns
pub mod Arrays
pub mod Maps
pub mod Sound
pub mod Complete
pub mod CompleteMaps
pub mod CompleteNames
pub mod Trees
pub mod Correct
pub mod Marks
use fidl.Prelude.{
  ℕ, zero, suc, ◌+◌, Bool, true, false, not, ◌&&◌, ◌||◌, Option, none, some, List, [], ◌∷◌, ◌++◌,
  if◌then◌else◌, length,
}
use fidl.Prelude.Bytes.{Bytes}
use fidl.Prelude.Int.{ℤ, negsuc}
use fidl.Prelude.Go.{ok, err, panic, ◌>>=◌, ◌>>◌, pure}
use fidl.Lexer.Tokens.{Token, name, dot, l_angle, r_angle, comma, qstn, amp, codes, same_bytes}
use fidl.Lexer.Stream.{eof_token}
use fidl.Types.{
  TypeRef, new_user_type_ref, built_in_type, array, map_type, user_type, mark_used_as_map_key,
}
use fidl.Parser.{
  Parser, Act, out_of_fuel, unexpected_token, unless_failed, is_kind, parse_error_t, is_nil, get_ok,
  get_last_consumed, get_last_seen, peek_next_token, consume_next_token, match_kind, try_match,
  read_text,
}
use fidl.Parser.Integers.{parse_positive_integer_literal, IntLiteral, to_int32}

abbrev pub raise : Token → Act (Unit {0})
raise t p = ok tt (parse_error_t unexpected_token t p)

unfoldable pub identifier_loop : ℕ → Token → Bytes → Act Bytes
identifier_loop zero first identifier p = err out_of_fuel p
identifier_loop (suc f) first identifier p =
    (do
      named ← try_match name
      t ← get_last_consumed
      dotted ← if named then try_match dot else pure false
      if dotted
          then identifier_loop f first (identifier ++ (t.text ++ b'.' ∷ []))
          else if named
          then pure (identifier ++ t.text)
          else (do raise first; pure identifier))
      p

-- `parseIdentifier`: the identifier and its first token
unfoldable pub parse_identifier : Act (Bytes × Token)
parse_identifier =
    unless_failed ([], eof_token)
      do
        first ← peek_next_token
        unless_failed ([], first)
            (if is_kind name first
              then (λ p.
                  (do
                    identifier ← identifier_loop (suc (length p.input)) first []
                    pure (identifier, first))
                    p)
              else (do raise first; pure ([], first)))

-- Fails at the token with the code of an unexpected one, and returns nil.
abbrev raise_nil : {A : Type 0} → Token → Act (Option A)
raise_nil t p = ok none (parse_error_t unexpected_token t p)

abbrev pub handle_name : Bytes → Bytes
handle_name kind = codes "handle" ++ (b'<' ∷ kind ++ b'>' ∷ [])

-- The name and the type after `handle <`; nil after an error that has been raised.
abbrev pub NamedType : Type 0
NamedType = Bytes × TypeRef

-- The error about a name that is no built-in type.
unfoldable pub named_or_raise : Token → Bytes → Option TypeRef → Act (Option NamedType)
named_or_raise t text (some found) = pure (some (text, found))
named_or_raise t text none = raise_nil t

-- The part of `tryParseBuiltInType` after `handle <`, at the name of the type so far.
unfoldable pub parse_handle_kind : Token → NamedType → Act (Option NamedType)
parse_handle_kind t so_far = do
  kind ← read_text name
  read ← get_ok
  if not read then (do seen ← get_last_seen; raise_nil seen) else (do
    closed ← match_kind r_angle
    if closed
        then named_or_raise t (handle_name kind) (built_in_type (handle_name kind))
        else pure none)

unfoldable pub parse_handle_suffix : Token → NamedType → Act (Option NamedType)
parse_handle_suffix t so_far =
    if same_bytes so_far.0 (codes "handle")
    then (do
      opened ← try_match l_angle
      if opened then parse_handle_kind t so_far else pure (some so_far))
    else pure (some so_far)

unfoldable pub type_or_raise : Token → Option TypeRef → Act (Option TypeRef)
type_or_raise t (some found) = pure (some found)
type_or_raise t none = raise_nil t

unfoldable pub parse_nullable_marker : Token → Option NamedType → Act (Option TypeRef)
parse_nullable_marker t none = pure none
parse_nullable_marker t (some (text, found)) = do
  marked ← try_match qstn
  if marked then type_or_raise t (built_in_type (text ++ b'?' ∷ [])) else pure (some found)

unfoldable pub parse_built_in_name : Token → Option TypeRef → Act (Option TypeRef)
parse_built_in_name t none = pure none
parse_built_in_name t (some found) = do
  consume_next_token
  named ← parse_handle_suffix t (t.text, found)
  parse_nullable_marker t named

-- `tryParseBuiltInType`
unfoldable pub try_parse_built_in_type : Act (Option TypeRef)
try_parse_built_in_type = unless_failed none do
  t ← peek_next_token
  if is_kind name t then parse_built_in_name t (built_in_type t.text) else pure none

abbrev pub is_word : Bytes → Token → Bool
is_word text t = is_kind name t && same_bytes text t.text

-- `int32(size)`, where a size has been read
abbrev pub fixed_size_of : Option IntLiteral → Option ℤ
fixed_size_of (some literal) = some (to_int32 literal.absolute_value)
fixed_size_of none = none

-- -1 where the length is not fixed, nil after an error.
unfoldable pub parse_fixed_size : Act (Option ℤ)
parse_fixed_size = do
  is_fixed_size ← try_match comma
  if is_fixed_size
      then (do
        size ← parse_positive_integer_literal false false false 32
        pure (fixed_size_of size))
      else pure (some (negsuc 0))

-- An element type that is nil here would be kept. It stands for a panic: the methods give nil after
-- an error only.
unfoldable pub new_array_type_ref : Bool → ℤ → Option TypeRef → Act (Option TypeRef)
new_array_type_ref nullable fixed_size (some element) =
    pure (some (array nullable fixed_size element))
new_array_type_ref nullable fixed_size none = λ p. panic

unfoldable pub finish_array : Option TypeRef → Option ℤ → Act (Option TypeRef)
finish_array element none = pure none
finish_array element (some fixed_size) = do
  closed ← match_kind r_angle
  if closed
      then (do nullable ← try_match qstn; new_array_type_ref nullable fixed_size element)
      else pure none

unfoldable pub parse_array_suffix : Option TypeRef → Act (Option TypeRef)
parse_array_suffix element =
    unless_failed none do fixed_size ← parse_fixed_size; finish_array element fixed_size

-- After the word `array`, with `parseType` for the elements.
unfoldable pub parse_array : Act (Option TypeRef) → Act (Option TypeRef)
parse_array parse_type = do
  consume_next_token
  opened ← match_kind l_angle
  if opened then (do element ← parse_type; parse_array_suffix element) else pure none

-- `tryParseArrayType`
unfoldable pub try_parse_array_type : Act (Option TypeRef) → Act (Option TypeRef)
try_parse_array_type parse_type =
    unless_failed none do
      t ← peek_next_token
      if is_word (codes "array") t then parse_array parse_type else pure none

abbrev pub mark_key : TypeRef → Act Bool
mark_key key p =
    let r = mark_used_as_map_key key p.type_references in
    ok r.0 (record p { type_references = r.1 })

-- A nil key would be dereferenced, and a nil value kept: a panic, for the same reason.
unfoldable pub finish_map : Token → Bool → Option TypeRef → Option TypeRef → Act (Option TypeRef)
finish_map t nullable (some key) (some val) = do
  allowed ← mark_key key
  if allowed then pure (some (map_type nullable key val)) else raise_nil t
finish_map t nullable _ _ = λ p. panic

unfoldable pub close_map : Token → Option TypeRef → Option TypeRef → Act (Option TypeRef)
close_map key_token key val = do
  closed ← match_kind r_angle
  if closed
      then (do nullable ← try_match qstn; finish_map key_token nullable key val)
      else pure none

-- After the comma.
unfoldable pub parse_map_value :
    Act (Option TypeRef) → Token → Option TypeRef → Act (Option TypeRef)
parse_map_value parse_type key_token key = do val ← parse_type; close_map key_token key val

-- After the key. The methods go on after an error; none of them then does anything.
unfoldable pub parse_after_key :
    Act (Option TypeRef) → Token → Option TypeRef → Act (Option TypeRef)
parse_after_key parse_type key_token key = do
  separated ← match_kind comma
  parse_map_value parse_type key_token key

-- After `map <`, with `parseType` for the key and the value.
unfoldable pub parse_key_and_value : Act (Option TypeRef) → Act (Option TypeRef)
parse_key_and_value parse_type = do
  key_token ← peek_next_token
  key ← parse_type
  parse_after_key parse_type key_token key

unfoldable pub parse_map : Act (Option TypeRef) → Act (Option TypeRef)
parse_map parse_type = do
  consume_next_token
  opened ← match_kind l_angle
  if opened then parse_key_and_value parse_type else pure none

-- `tryParseMapType`
unfoldable pub try_parse_map_type : Act (Option TypeRef) → Act (Option TypeRef)
try_parse_map_type parse_type =
    unless_failed none
      do t ← peek_next_token; if is_word (codes "map") t then parse_map parse_type else pure none

abbrev pub register_type_reference : Bytes → Token → Bool → Bool → Act (Option TypeRef)
register_type_reference identifier t interface_request nullable p =
    let reference = new_user_type_ref identifier nullable interface_request p.current_scope t in
    ok (some (user_type (length p.type_references)))
      (record p { type_references = p.type_references ++ reference ∷ [] })

-- `parseTypeReference`
unfoldable pub parse_type_reference : Act (Option TypeRef)
parse_type_reference = unless_failed none do
  identifier ← parse_identifier
  unless_failed none do
    interface_request ← try_match amp
    nullable ← try_match qstn
    unless_failed none
        (register_type_reference identifier.0 identifier.1 interface_request nullable)

unfoldable pub or_else : Act (Option TypeRef) → Option TypeRef → Act (Option TypeRef)
or_else next (some found) = pure (some found)
or_else next none = next

-- `parseType`: each method in its turn, where those before gave nil.
unfoldable pub or_reference : Option TypeRef → Act (Option TypeRef)
or_reference = or_else parse_type_reference

unfoldable pub or_map : Act (Option TypeRef) → Option TypeRef → Act (Option TypeRef)
or_map parse_type found = do
  found_map ← or_else (try_parse_map_type parse_type) found
  or_reference found_map

unfoldable pub or_array : Act (Option TypeRef) → Option TypeRef → Act (Option TypeRef)
or_array parse_type found = do
  found_array ← or_else (try_parse_array_type parse_type) found
  or_map parse_type found_array

unfoldable pub parse_type : ℕ → Act (Option TypeRef)
parse_type zero p = err out_of_fuel p
parse_type (suc f) p =
    unless_failed none (do built_in ← try_parse_built_in_type; or_array (parse_type f) built_in) p
