-- ===== src/Versions.antt =====
-- MinVersion attributes, and the versions of structs and interfaces that follow from them:
-- compiler/src/fidl/compiler/core/computed_data.go, with minVersionAttribute of user_defined_types.go and the
-- integer literals of types.go.
pub mod Info
pub mod Loop
pub mod Yield
pub mod Interface
mod Tests
use fidl.Prelude.{
  ℕ, suc, ◌+◌, ◌-◌, ◌%◌, ◌^◌, Bool, true, false, not, ◌&&◌, Option, none, some, List, [], ◌∷◌, ◌++◌,
  ltb, leb, ◌==◌, if◌then◌else◌, length,
}
use fidl.Prelude.Int.{ℤ, pos, negsuc}
use fidl.Structs.{compute_padding}

-- A value of an integer type other than uint64, of uint64, or of another type.
pub data LiteralValue : Type 0 where
  integer_literal : ℤ → LiteralValue
  uint64_literal : ℕ → LiteralValue
  other_literal : LiteralValue

-- `int64(numericValue)` of a uint64
abbrev pub to_int64 : ℕ → ℤ
to_int64 n = if ltb n (2 ^ 63) then pos n else negsuc (2 ^ 64 - 1 - n)

unfoldable pub int64_value : LiteralValue → ℤ × Bool
int64_value (integer_literal n) = (n, true)
int64_value (uint64_literal n) = (to_int64 n, leb n (2 ^ 63 - 1))
int64_value other_literal = (pos 0, false)

-- `uint32(int64Value)`
abbrev pub to_uint32 : ℤ → ℕ
to_uint32 (pos n) = n % 2 ^ 32
to_uint32 (negsuc n) = 2 ^ 32 - 1 - n % 2 ^ 32

abbrev pub in_uint32 : ℤ → Bool
in_uint32 (pos n) = leb n (2 ^ 32 - 1)
in_uint32 (negsuc n) = false

unfoldable pub uint32_value : LiteralValue → ℕ × Bool
unfolding int64_value
uint32_value literal = let r = int64_value literal in (to_uint32 r.0, r.1 && in_uint32 r.0)

-- Of its key, an attribute is asked only whether it is MinVersion.
pub record Attribute : Type 0 where
  pub is_min_version : Bool
  pub value : LiteralValue

-- `value`, `found` and `ok`
pub record MinVersion : Type 0 where
  pub value : ℕ
  pub found : Bool
  pub ok : Bool

unfoldable pub find_min_version : List Attribute → MinVersion
unfolding uint32_value
find_min_version [] = record { value = 0; found = false; ok = false }
find_min_version (attribute ∷ attributes) =
    if attribute.is_min_version
    then (let r = uint32_value attribute.value in record { value = r.0; found = true; ok = r.1 })
    else find_min_version attributes

-- Attributes that are nil are `none`.
unfoldable pub min_version_attribute : Option (List Attribute) → MinVersion
unfolding find_min_version
min_version_attribute none = record { value = 0; found = false; ok = false }
min_version_attribute (some attributes) = find_min_version attributes

pub data MinVersionError : Type 0 where
  ill_formed out_of_order not_nullable : MinVersionError

-- What is checked of the attribute of a field or a method, behind the ones before it.
unfoldable pub check_min_version : MinVersion → ℕ → Option MinVersionError
check_min_version m previous =
    if not m.found
    then if not (previous == 0) then some out_of_order else none
    else if not m.ok
    then some ill_formed
    else if ltb m.value previous
    then some out_of_order
    else none

-- What is read of a StructField; `allowed` is AllowedInNonZeroStructVersion of its type.
pub record VersionedField : Type 0 where
  pub attributes : Option (List Attribute)
  pub allowed : Bool
  pub offset : ℕ
  pub size : ℕ

pub record StructVersion : Type 0 where
  pub version_number : ℕ
  pub num_fields : ℕ
  pub num_bytes : ℕ

unfoldable pub maximum_uint32 : ℕ → ℕ → ℕ
maximum_uint32 a b = if ltb b a then a else b

unfoldable pub compute_payload_size_so_far : VersionedField → ℕ
unfolding compute_padding
compute_payload_size_so_far field =
    let field_end_offset = (field.offset + field.size) % 2 ^ 32 in
    (8 + field_end_offset + compute_padding field_end_offset 8) % 2 ^ 32

-- The variables of the loop, and what it sets: the version info and the minVersion of each field.
pub record VersionLoop : Type 0 where
  pub previous_min_version : ℕ
  pub payload_size_so_far : ℕ
  pub version_info : List StructVersion
  pub min_versions : List ℕ

pub data VersionResult (A : Type 0) : Type 0 where
  versions : A → VersionResult A
  refused : MinVersionError → VersionResult A
  panicked : VersionResult A

-- behind the checks of the field `i`
unfoldable pub take_version : ℕ → ℕ → VersionedField → VersionLoop → VersionLoop
unfolding maximum_uint32 compute_payload_size_so_far
take_version i value field s = record {
  previous_min_version = if ltb s.previous_min_version value then value else s.previous_min_version;
  payload_size_so_far = maximum_uint32 s.payload_size_so_far (compute_payload_size_so_far field);
  version_info =
      if ltb s.previous_min_version value
      then s.version_info
        ++ record {
          version_number = s.previous_min_version;
          num_fields = i % 2 ^ 32;
          num_bytes = s.payload_size_so_far;
        }
          ∷ []
      else s.version_info;
  min_versions = s.min_versions ++ value ∷ [];
}

unfoldable pub version_fields : ℕ → List VersionedField → VersionLoop → VersionResult VersionLoop
unfolding min_version_attribute check_min_version take_version
version_fields i [] s = versions s
version_fields i (field ∷ fields) s =
    let m = min_version_attribute field.attributes in
    let rest = version_fields (suc i) fields (take_version i m.value field s) in
    elim (check_min_version m s.previous_min_version) [
      | some e ↦ refused e
      | none ↦ if not (m.value == 0) && not field.allowed then refused not_nullable else rest
    ]

-- `computeVersionInfo`, of the fields in ordinal order: the version info, and the minVersion of each field
unfoldable pub compute_version_info :
    List VersionedField → VersionResult (List StructVersion × List ℕ)
unfolding version_fields
compute_version_info fields =
    elim (version_fields 0 fields (record {
      previous_min_version = 0;
      payload_size_so_far = 8;
      version_info = [];
      min_versions = [];
    })) [
      | refused e ↦ refused e
      | panicked ↦ panicked
      | versions s ↦ versions (
        s.version_info
            ++ record {
              version_number = s.previous_min_version;
              num_fields = length fields % 2 ^ 32;
              num_bytes = s.payload_size_so_far;
            }
              ∷ [],
        s.min_versions,
      )
    ]

-- What is read of a MojomMethod; its parameter structs are given by their version info.
pub record VersionedMethod : Type 0 where
  pub method_attributes : Option (List Attribute)
  pub parameters : Option (List StructVersion)
  pub response_parameters : Option (List StructVersion)

-- `versions[len(versions)-1].VersionNumber`
unfoldable pub last_version : List StructVersion → Option ℕ
last_version [] = none
last_version (e ∷ []) = some e.version_number
last_version (e ∷ (f ∷ es)) = last_version (f ∷ es)

-- with the greatest version of a parameter struct
unfoldable pub raise_version : Option (List StructVersion) → ℕ → VersionResult ℕ
unfolding last_version
raise_version none version = versions version
raise_version (some info) version = elim (last_version info) [
  | none ↦ panicked
  | some params_max_version ↦
      versions (if ltb version params_max_version then params_max_version else version)
]

infixl 5 ◌>>=◌
abbrev pub ◌>>=◌ : {A B : Type 0} → VersionResult A → (A → VersionResult B) → VersionResult B
◌>>=◌ (versions a) f = f a
◌>>=◌ (refused e) f = refused e
◌>>=◌ panicked f = panicked

-- the loop over the methods in ordinal order, with previousMinVersion and versionNumber
unfoldable pub version_methods : List VersionedMethod → ℕ → ℕ → List ℕ → VersionResult (ℕ × List ℕ)
unfolding min_version_attribute check_min_version raise_version
version_methods [] previous version min_versions = versions (version, min_versions)
version_methods (method ∷ methods) previous version min_versions =
    let m = min_version_attribute method.method_attributes in
    elim (check_min_version m previous) [
      | some e ↦ refused e
      | none ↦
          raise_version method.parameters (if ltb version m.value then m.value else version)
          >>= λ v. raise_version method.response_parameters v >>= λ w.
              version_methods methods m.value w (min_versions ++ m.value ∷ [])
    ]

-- `computeInterfaceVersion`: the version of the interface, and the minVersion of each method
unfoldable pub compute_interface_version : List VersionedMethod → VersionResult (ℕ × List ℕ)
unfolding version_methods
compute_interface_version methods = version_methods methods 0 0 []
