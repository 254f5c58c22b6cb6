-- ===== src/Parser/Literals/Compatible.antt =====
-- `SimpleType.isAssignmentCompatibleWithLiteral` of compiler/src/fidl/compiler/core/types.go. Whether a
-- float64 is in the range of a float32 is a parameter, since a double stands by its text.
use fidl.Prelude.{
  ℕ, suc, ◌^◌, ◌≡◌, ap, Bool, true, false, ◌&&◌, Option, none, some, ltb, leb, arith, Bool-cases,
  inl, inr,
}
use mathlib.Core.Path.{subst}
use mathlib.Core.Option.{some-injective}
use fidl.Prelude.Bytes.{Bytes}
use fidl.Prelude.Int.{ℤ, pos, negsuc}
use fidl.Lexer.Tokens.{Token}
use fidl.Types.{
  SimpleType, simple_bool, simple_double, simple_float, simple_int8, simple_int16, simple_int32,
  simple_int64, simple_uint8, simple_uint16, simple_uint32, simple_uint64,
}
use fidl.Parser.Literals.{
  LiteralValue, no_literal, default_value, string_value, bool_value, int_value, double_value,
  int64_value,
}
use fidl.Parser.Literals.Numbers.{in_type, first_type, smallest_type}

-- `integerTypeCompatibilityRank`
abbrev pub signed_rank : SimpleType → Option ℕ
signed_rank simple_int8 = some 0
signed_rank simple_int16 = some 1
signed_rank simple_int32 = some 2
signed_rank simple_int64 = some 3
signed_rank _ = none

-- `unsignedIntegerTypeCompatibilityRank`
abbrev pub unsigned_rank : SimpleType → Option ℕ
unsigned_rank simple_uint8 = some 0
unsigned_rank simple_uint16 = some 1
unsigned_rank simple_uint32 = some 2
unsigned_rank simple_uint64 = some 3
unsigned_rank _ = none

-- -bound ≤ v ≤ bound
abbrev in_bounds : ℕ → ℤ → Bool
in_bounds bound (pos n) = leb n bound
in_bounds bound (negsuc n) = leb (suc n) bound

abbrev is_bool : SimpleType → Bool
is_bool simple_bool = true
is_bool _ = false

abbrev non_negative : ℤ → Bool
non_negative (pos n) = true
non_negative (negsuc n) = false

-- The variable is of the signed type of rank `r`.
abbrev to_signed_variable : ℕ → Option ℕ → Option ℕ → Bool
to_signed_variable r (some s) u = leb s r
to_signed_variable r none (some u) = ltb u r
to_signed_variable r none none = false

-- The variable is of the unsigned type of rank `r`.
abbrev to_unsigned_variable : ℕ → Option ℕ → Option ℕ → ℤ → Bool
to_unsigned_variable r u' (some u) v = leb u r
to_unsigned_variable r (some s) none v = leb s r && non_negative v
to_unsigned_variable r none none v = false

-- A literal of an integer type or of double, of the `int64Value` v and whether it has one.
abbrev pub number_compatible : SimpleType → SimpleType → ℤ × Bool → Bool
number_compatible simple_bool s r = false
number_compatible simple_float s r = r.1 && in_bounds (2 ^ 24) r.0
number_compatible simple_double s r = r.1 && in_bounds (2 ^ 53) r.0
number_compatible simple_int8 s r = to_signed_variable 0 (signed_rank s) (unsigned_rank s)
number_compatible simple_int16 s r = to_signed_variable 1 (signed_rank s) (unsigned_rank s)
number_compatible simple_int32 s r = to_signed_variable 2 (signed_rank s) (unsigned_rank s)
number_compatible simple_int64 s r = to_signed_variable 3 (signed_rank s) (unsigned_rank s)
number_compatible simple_uint8 s r = to_unsigned_variable 0 (signed_rank s) (unsigned_rank s) r.0
number_compatible simple_uint16 s r = to_unsigned_variable 1 (signed_rank s) (unsigned_rank s) r.0
number_compatible simple_uint32 s r = to_unsigned_variable 2 (signed_rank s) (unsigned_rank s) r.0
number_compatible simple_uint64 s r = to_unsigned_variable 3 (signed_rank s) (unsigned_rank s) r.0

abbrev double_compatible : (Option Bytes → Bool) → SimpleType → Option Bytes → Bool
double_compatible in_float32 simple_float x = in_float32 x
double_compatible in_float32 simple_double x = true
double_compatible in_float32 _ x = false

-- The literal that has no type panics, and is none of those that the parser gives without an error.
unfoldable pub is_assignment_compatible :
    (Option Bytes → Bool) → SimpleType → LiteralValue → Option Bool
is_assignment_compatible in_float32 type no_literal = none
is_assignment_compatible in_float32 type (default_value t) = some false
is_assignment_compatible in_float32 type (string_value text t) = some false
is_assignment_compatible in_float32 type (bool_value b t) = some (is_bool type)
is_assignment_compatible in_float32 type (int_value s v t) =
    some (number_compatible type s (int64_value (int_value s v t)))
is_assignment_compatible in_float32 type (double_value x t) =
    some (double_compatible in_float32 type x)

-- The values of a type that is the first to hold them.
abbrev IsFirst : SimpleType → ℤ → Type 0
IsFirst simple_int8 v = in_type simple_int8 v ≡ true
IsFirst simple_uint8 v = (in_type simple_int8 v ≡ false) × (in_type simple_uint8 v ≡ true)
IsFirst simple_int16 v =
    (in_type simple_uint8 v ≡ false)
    × (in_type simple_int16 v ≡ true)
    × (in_type simple_int8 v ≡ false)
IsFirst simple_uint16 v = (in_type simple_int16 v ≡ false) × (in_type simple_uint16 v ≡ true)
IsFirst simple_int32 v =
    (in_type simple_uint16 v ≡ false)
    × (in_type simple_int32 v ≡ true)
    × (in_type simple_int16 v ≡ false)
IsFirst simple_uint32 v = (in_type simple_int32 v ≡ false) × (in_type simple_uint32 v ≡ true)
IsFirst simple_int64 v =
    (in_type simple_uint32 v ≡ false)
    × (in_type simple_int64 v ≡ true)
    × (in_type simple_int32 v ≡ false)
IsFirst simple_uint64 v = (in_type simple_int64 v ≡ false) × (in_type simple_uint64 v ≡ true)
IsFirst _ v = ⊥

-- The tests of the types before the first that holds the value.
smallest_type-IsFirst : (v : ℤ) (s : SimpleType) → smallest_type v ≡ some s → IsFirst s v
unfolding smallest_type first_type
smallest_type-IsFirst v s h = elim (Bool-cases (in_type simple_int8 v)) [
  | inl a0 ↦ subst (λ u. IsFirst u v) (some-injective simple_int8 s (rw a0 at h)) a0
  | inr a0 ↦ elim (Bool-cases (in_type simple_uint8 v)) [
    | inl a1 ↦ subst (λ u. IsFirst u v) (some-injective simple_uint8 s (rw (a0, a1) at h)) (a0, a1)
    | inr a1 ↦ elim (Bool-cases (in_type simple_int16 v)) [
      | inl a2 ↦
          subst (λ u. IsFirst u v) (some-injective simple_int16 s (rw (a0, a1, a2) at h))
            (a1, a2, a0)
      | inr a2 ↦ elim (Bool-cases (in_type simple_uint16 v)) [
        | inl a3 ↦
            subst (λ u. IsFirst u v) (some-injective simple_uint16 s (rw (a0, a1, a2, a3) at h))
              (a2, a3)
        | inr a3 ↦ elim (Bool-cases (in_type simple_int32 v)) [
          | inl a4 ↦
              subst (λ u. IsFirst u v)
                (some-injective simple_int32 s (rw (a0, a1, a2, a3, a4) at h)) (a3, a4, a2)
          | inr a4 ↦ elim (Bool-cases (in_type simple_uint32 v)) [
            | inl a5 ↦
                subst (λ u. IsFirst u v)
                  (some-injective simple_uint32 s (rw (a0, a1, a2, a3, a4, a5) at h)) (a4, a5)
            | inr a5 ↦ elim (Bool-cases (in_type simple_int64 v)) [
              | inl a6 ↦
                  subst (λ u. IsFirst u v)
                    (some-injective simple_int64 s (rw (a0, a1, a2, a3, a4, a5, a6) at h))
                    (a5, a6, a4)
              | inr a6 ↦ elim (Bool-cases (in_type simple_uint64 v)) [
                | inl a7 ↦
                    subst (λ u. IsFirst u v)
                      (some-injective simple_uint64 s (rw (a0, a1, a2, a3, a4, a5, a6, a7) at h))
                      (a6, a7)
                | inr a7 ↦ absurd (cc (rw (a0, a1, a2, a3, a4, a5, a6, a7) at h))
              ]
            ]
          ]
        ]
      ]
    ]
  ]
]

abbrev pub is_integer : SimpleType → Bool
is_integer simple_bool = false
is_integer simple_double = false
is_integer simple_float = false
is_integer _ = true

-- A literal that has the smallest type of its value is taken by the integer types that hold the value.
agrees :
    (s : SimpleType) (v : ℤ) (type : SimpleType) (t : Token)
    → is_integer type ≡ true
    → IsFirst s v
    → number_compatible type s (int64_value (int_value s v t)) ≡ in_type type v
unfolding int64_value in_type
agrees simple_bool v type t i h = absurd h
agrees simple_float v type t i h = absurd h
agrees simple_double v type t i h = absurd h
agrees s (pos n) simple_bool t i h = absurd (cc)
agrees s (pos n) type t i h = ground (arith, h)
agrees s (negsuc n) simple_bool t i h = absurd (cc)
agrees s (negsuc n) type t i h = ground (arith, h)

-- A literal of the smallest integer type that holds its value may be assigned to a variable of an integer
-- type exactly when that type holds the value.
pub is_assignment_compatible-smallest_type :
    (in_float32 : Option Bytes → Bool) (v : ℤ) (s type : SimpleType) (t : Token)
    → smallest_type v ≡ some s
    → is_integer type ≡ true
    → is_assignment_compatible in_float32 type (int_value s v t) ≡ some (in_type type v)
unfolding is_assignment_compatible
is_assignment_compatible-smallest_type in_float32 v s type t h i =
    ap some (agrees s v type t i (smallest_type-IsFirst v s h))
