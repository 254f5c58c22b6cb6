-- ===== src/Types.antt =====
-- Type references: compiler/src/fidl/compiler/core/types.go.
use fidl.Prelude.{ℕ, Bool, true, false, Option, none, some, List, [], ◌∷◌, ◌++◌, map, if◌then◌else◌}
use fidl.Prelude.Bytes.{Bytes}
use fidl.Prelude.Int.{ℤ}
use fidl.Lexer.Tokens.{Token, codes, same_bytes}

pub data SimpleType : Type 0 where
  simple_bool simple_double simple_float simple_int8 simple_int16 simple_int32 : SimpleType
  simple_int64 simple_uint8 simple_uint16 simple_uint32 simple_uint64 : SimpleType

pub data HandleKind : Type 0 where
  unspecified channel vmo process thread event port job socket event_pair : HandleKind

-- A user type is a pointer: the index of the reference among those the parser has registered.
pub data TypeRef : Type 0 where
  simple : SimpleType → TypeRef
  string_type : Bool → TypeRef
  handle : Bool → HandleKind → TypeRef
  array : Bool → ℤ → TypeRef → TypeRef
  map_type : Bool → TypeRef → TypeRef → TypeRef
  user_type : ℕ → TypeRef

-- The scope is a pointer too.
pub record UserTypeRef : Type 0 where
  pub nullable : Bool
  pub interface_request : Bool
  pub scope : ℕ
  pub identifier : Bytes
  pub token : Token
  pub used_as_map_key : Bool
  pub used_as_constant_type : Bool

abbrev pub new_user_type_ref : Bytes → Bool → Bool → ℕ → Token → UserTypeRef
new_user_type_ref identifier nullable interface_request scope token = record {
  nullable = nullable;
  interface_request = interface_request;
  scope = scope;
  identifier = identifier;
  token = token;
  used_as_map_key = false;
  used_as_constant_type = false;
}

-- `SimpleType.String`
abbrev pub simple_string : SimpleType → Bytes
simple_string simple_bool = codes "bool"
simple_string simple_double = codes "double"
simple_string simple_float = codes "float"
simple_string simple_int8 = codes "int8"
simple_string simple_int16 = codes "int16"
simple_string simple_int32 = codes "int32"
simple_string simple_int64 = codes "int64"
simple_string simple_uint8 = codes "uint8"
simple_string simple_uint16 = codes "uint16"
simple_string simple_uint32 = codes "uint32"
simple_string simple_uint64 = codes "uint64"

abbrev pub nullable_specifier : Bool → Bytes
nullable_specifier nullable = if nullable then codes "?" else []

-- `StringType.String`
abbrev pub string_string : Bool → Bytes
string_string nullable = codes "string" ++ nullable_specifier nullable

abbrev pub handle_suffix : HandleKind → Bytes
handle_suffix unspecified = []
handle_suffix channel = codes "<channel>"
handle_suffix vmo = codes "<vmo>"
handle_suffix process = codes "<process>"
handle_suffix thread = codes "<thread>"
handle_suffix event = codes "<event>"
handle_suffix port = codes "<port>"
handle_suffix job = codes "<job>"
handle_suffix socket = codes "<socket>"
handle_suffix event_pair = codes "<eventpair>"

-- `HandleTypeRef.String`
abbrev pub handle_string : Bool → HandleKind → Bytes
handle_string nullable kind = codes "handle" ++ (handle_suffix kind ++ nullable_specifier nullable)

abbrev pub all_simple_types : List SimpleType
all_simple_types =
    simple_bool ∷ simple_double ∷ simple_float ∷ simple_int8 ∷ simple_int16 ∷ simple_int32
    ∷ simple_int64 ∷ simple_uint8 ∷ simple_uint16 ∷ simple_uint32 ∷ simple_uint64 ∷ []

abbrev pub all_handle_kinds : List HandleKind
all_handle_kinds =
    unspecified ∷ channel ∷ vmo ∷ process ∷ thread ∷ event ∷ port ∷ job ∷ socket ∷ event_pair ∷ []

abbrev handle_types : List HandleKind → List (Bytes × TypeRef)
handle_types [] = []
handle_types (kind ∷ kinds) =
    (handle_string false kind, handle false kind)
    ∷ (handle_string true kind, handle true kind)
    ∷ handle_types kinds

-- `builtInTypeMap`: the built-in types, each under its name.
abbrev pub built_in_type_map : List (Bytes × TypeRef)
built_in_type_map =
    map (λ t. (simple_string t, simple t)) all_simple_types
    ++ ((string_string false, string_type false)
        ∷ (string_string true, string_type true)
        ∷ handle_types all_handle_kinds)

unfoldable pub find_type : Bytes → List (Bytes × TypeRef) → Option TypeRef
find_type text [] = none
find_type text ((n, t) ∷ types) = if same_bytes n text then some t else find_type text types

-- `BuiltInType`, nil on a name that is no key of the map.
unfoldable pub built_in_type : Bytes → Option TypeRef
unfolding find_type
built_in_type text = find_type text built_in_type_map

abbrev pub mark_key : UserTypeRef → UserTypeRef
mark_key r = record r { used_as_map_key = true }

abbrev pub mark_constant_type : UserTypeRef → UserTypeRef
mark_constant_type r = record r { used_as_constant_type = true }

-- A write through the pointer of index `i`.
abbrev pub update : (UserTypeRef → UserTypeRef) → ℕ → List UserTypeRef → List UserTypeRef
update f i [] = []
update f ℕ.zero (r ∷ refs) = f r ∷ refs
update f (ℕ.suc i) (r ∷ refs) = r ∷ update f i refs

-- `MarkUsedAsMapKey`, by the kind of the reference.
unfoldable pub mark_used_as_map_key : TypeRef → List UserTypeRef → Bool × List UserTypeRef
mark_used_as_map_key (simple _) refs = (true, refs)
mark_used_as_map_key (string_type _) refs = (true, refs)
mark_used_as_map_key (user_type i) refs = (true, update mark_key i refs)
mark_used_as_map_key _ refs = (false, refs)

-- `MarkUsedAsConstantType`
unfoldable pub mark_used_as_constant_type : TypeRef → List UserTypeRef → Bool × List UserTypeRef
mark_used_as_constant_type (simple _) refs = (true, refs)
mark_used_as_constant_type (string_type _) refs = (true, refs)
mark_used_as_constant_type (user_type i) refs = (true, update mark_constant_type i refs)
mark_used_as_constant_type _ refs = (false, refs)
