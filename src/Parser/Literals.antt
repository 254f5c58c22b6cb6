-- ===== src/Parser/Literals.antt =====
-- The values of compiler/src/fidl/compiler/parser/parsing.go. Go's strconv.ParseFloat is a parameter.
pub mod Numbers
pub mod Decimals
pub mod Compatible
pub mod Initializers
use fidl.Prelude.{
  ℕ, zero, suc, ◌+◌, ◌-◌, ◌%◌, ◌^◌, Bool, true, false, not, ◌&&◌, ◌||◌, Option, none, some, List,
  [], ◌∷◌, ◌++◌, ◌==◌, leb, if◌then◌else◌, length,
}
use fidl.Prelude.Bytes.{Bytes}
use fidl.Prelude.Int.{ℤ, pos, negsuc, to_signed}
use fidl.Prelude.Go.{ok, panic, ◌>>=◌, ◌>>◌, pure}
use fidl.Lexer.Tokens.{
  Token, name, plus, minus, true_kw, false_kw, string_literal, float_const, int_const_dec,
  int_const_hex,
}
use fidl.Lexer.Stream.{eof_token}
use fidl.Types.{
  SimpleType, simple_int8, simple_int16, simple_int32, simple_int64, simple_uint8, simple_uint16,
  simple_uint32, simple_uint64,
}
use fidl.Parser.{
  Act, AssigneeSpec, UserValueRef, integer_out_of_range, unexpected_token, unless_failed, is_kind,
  parse_error_t, unexpected_token_error, peek_next_token, consume_next_token, get_last_consumed,
  get_ok, match_kind, try_match, read_string_literal,
}
use fidl.Parser.Integers.{
  NumError, err_range, err_syntax, IntLiteral, parse_positive_integer_literal,
}
use fidl.Parser.Types.{parse_identifier}

-- `no_literal` is the zero LiteralValue, of no type, and `default_value` the keyword's. A double stands by the text that ParseFloat reads,
-- and by nothing for the 0 after its error.
pub data LiteralValue : Type 0 where
  no_literal : LiteralValue
  default_value : Token → LiteralValue
  string_value : Bytes → Token → LiteralValue
  bool_value : Bool → Token → LiteralValue
  int_value : SimpleType → ℤ → Token → LiteralValue
  double_value : Option Bytes → Token → LiteralValue

-- A value that refers to a name is a pointer: the index of the reference among those registered, or a nil
-- pointer, which is a value other than nil.
pub data ValueRef : Type 0 where
  literal : LiteralValue → ValueRef
  user_value : Option ℕ → ValueRef

-- `int64(absoluteValue)`
abbrev pub to_int64 : ℕ → ℤ
to_int64 n = to_signed (2 ^ 63) (n % 2 ^ 64)

-- `-1 * value` of an int64
abbrev pub opposite : ℤ → ℤ
opposite (pos zero) = pos zero
opposite (pos (suc n)) = negsuc n
opposite (negsuc n) = to_int64 (suc n)

-- `int8(value)` and the like, for 2 ^ 7 = half
abbrev pub narrow : ℕ → ℤ → ℤ
narrow half (pos n) = to_signed half (n % (half + half))
narrow half (negsuc n) = to_signed half (half + half - 1 - n % (half + half))

-- The number in a variable of the literal's size. Another number of bits panics.
unfoldable pub int_value_of : Bool → IntLiteral → Token → Act LiteralValue
int_value_of initial_minus l t p =
    let n = l.absolute_value in
    let v = if initial_minus then opposite (to_int64 n) else to_int64 n in
    if l.num_bits == 8
    then ok
        (if l.signed
          then int_value simple_int8 (narrow (2 ^ 7) v) t
          else int_value simple_uint8 (pos (n % 2 ^ 8)) t)
        p
    else if l.num_bits == 16
    then ok
        (if l.signed
          then int_value simple_int16 (narrow (2 ^ 15) v) t
          else int_value simple_uint16 (pos (n % 2 ^ 16)) t)
        p
    else if l.num_bits == 32
    then ok
        (if l.signed
          then int_value simple_int32 (narrow (2 ^ 31) v) t
          else int_value simple_uint32 (pos (n % 2 ^ 32)) t)
        p
    else if l.num_bits == 64
    then ok (if l.signed then int_value simple_int64 v t else int_value simple_uint64 (pos n) t) p
    else panic

unfoldable pub int_literal_of : Bool → Option IntLiteral → Act LiteralValue
int_literal_of initial_minus none = pure no_literal
int_literal_of initial_minus (some l) = do t ← get_last_consumed; int_value_of initial_minus l t

-- `int64Value` of types.go
unfoldable pub int64_value : LiteralValue → ℤ × Bool
int64_value (int_value simple_uint64 (pos n) t) = (to_int64 n, leb n (2 ^ 63 - 1))
int64_value (int_value type v t) = (v, true)
int64_value _ = (pos 0, false)

abbrev pub in_int32 : ℤ → Bool
in_int32 (pos n) = leb n (2 ^ 31 - 1)
in_int32 (negsuc n) = leb n (2 ^ 31 - 1)

-- The flag of `int32Value`
unfoldable pub is_int32_value : LiteralValue → Bool
is_int32_value value = let r = int64_value value in r.1 && in_int32 r.0

abbrev pub mark_initializer : ℕ → List UserValueRef → List UserValueRef
mark_initializer i [] = []
mark_initializer zero (r ∷ refs) = record r { used_as_enum_value_initializer = true } ∷ refs
mark_initializer (suc i) (r ∷ refs) = r ∷ mark_initializer i refs

-- `MarkUsedAsEnumValueInitializer`, which writes through the pointer to a reference.
unfoldable pub mark_used_as_enum_value_initializer : ValueRef → Act Bool
mark_used_as_enum_value_initializer (literal value) p = ok (is_int32_value value) p
mark_used_as_enum_value_initializer (user_value none) p = panic
mark_used_as_enum_value_initializer (user_value (some i)) p =
    ok true (record p { value_references = mark_initializer i p.value_references })

unfoldable pub check_initializer : Token → Option ValueRef → Act (Option ValueRef)
check_initializer t none = pure none
check_initializer t (some value) = do
  allowed ← mark_used_as_enum_value_initializer value
  if allowed then pure (some value) else (λ p. ok none (parse_error_t unexpected_token t p))

module _ (float_error : Bytes → Option NumError) where
  -- What ParseFloat gives for the text.
  unfoldable pub float_of_text : Token → Bytes → Option NumError → Act (Option Bytes)
  float_of_text t text none p = ok (some text) p
  float_of_text t text (some err_range) p = ok none (parse_error_t integer_out_of_range t p)
  float_of_text t text (some err_syntax) p = panic

  -- `parsePositiveFloatLiteral`
  unfoldable pub parse_positive_float_literal : Bool → Act (Option Bytes)
  parse_positive_float_literal initial_minus = do
    t ← peek_next_token
    matched ← match_kind float_const
    consumed ← get_last_consumed
    let text = if initial_minus then b'-' ∷ consumed.text else consumed.text
    float_of_text t text (float_error text)

  unfoldable pub parse_number : Bool → Token → Act LiteralValue
  parse_number initial_minus t =
      if is_kind int_const_dec t || is_kind int_const_hex t
      then (do
        l ← parse_positive_integer_literal initial_minus true (not initial_minus) 64
        int_literal_of initial_minus l)
      else if is_kind float_const t
      then (do
        double ← parse_positive_float_literal initial_minus
        consumed ← get_last_consumed
        pure (double_value double consumed))
      else (do unexpected_token_error t; pure no_literal)

  unfoldable pub after_signs : Bool → Bool → Act LiteralValue
  after_signs initial_minus initial_plus =
      if initial_minus && initial_plus
      then (do consumed ← get_last_consumed; unexpected_token_error consumed; pure no_literal)
      else (do t ← peek_next_token; parse_number initial_minus t)

  -- `parseNumberLiteral`
  unfoldable pub parse_number_literal : Act LiteralValue
  parse_number_literal = unless_failed no_literal do
    initial_minus ← try_match minus
    initial_plus ← try_match plus
    after_signs initial_minus initial_plus

  consume_bool : Bool → Act LiteralValue
  consume_bool b = do consume_next_token; consumed ← get_last_consumed; pure (bool_value b consumed)

  starts_number : Token → Bool
  starts_number t =
      is_kind plus t
      || is_kind minus t
      || is_kind float_const t
      || is_kind int_const_dec t
      || is_kind int_const_hex t

  -- `parseLiteral`
  unfoldable pub parse_literal : Act LiteralValue
  unfolding consume_bool starts_number
  parse_literal = unless_failed no_literal do
    t ← peek_next_token
    if is_kind string_literal t
        then (do
          text ← read_string_literal
          consumed ← get_last_consumed
          pure (string_value text consumed))
        else if is_kind true_kw t
        then consume_bool true
        else if is_kind false_kw t
        then consume_bool false
        else if starts_number t
        then parse_number_literal
        else (do unexpected_token_error t; pure no_literal)

  register_value : AssigneeSpec → Bytes → Token → Act (Option ℕ)
  register_value spec identifier t p =
      let reference : UserValueRef = record {
        assignee_spec = spec;
        identifier = identifier;
        scope = p.current_scope;
        token = t;
        used_as_enum_value_initializer = false;
      } in
      ok (some (length p.value_references))
        (record p { value_references = p.value_references ++ reference ∷ [] })

  -- `parseUserValueRef`
  unfoldable pub parse_user_value_ref : AssigneeSpec → Act (Option ℕ)
  unfolding register_value
  parse_user_value_ref spec = unless_failed none do
    identifier ← parse_identifier
    unless_failed none (register_value spec identifier.0 identifier.1)

  has_type : LiteralValue → Bool
  has_type no_literal = false
  has_type _ = true

  -- `parseValue`. What `parseUserValueRef` gives is no nil value, even where it is a nil pointer.
  unfoldable pub parse_value : AssigneeSpec → Act (Option ValueRef)
  unfolding has_type
  parse_value spec = unless_failed none do
    t ← peek_next_token
    if is_kind name t
        then (do reference ← parse_user_value_ref spec; pure (some (user_value reference)))
        else (do
          value ← parse_literal
          fine ← get_ok
          pure (if fine && has_type value then some (literal value) else none))

  -- `parseEnumValueInitializer`, for the assignee of the enum's type.
  unfoldable pub parse_enum_value_initializer : AssigneeSpec → Act (Option ValueRef)
  parse_enum_value_initializer spec =
      unless_failed none do t ← peek_next_token; value ← parse_value spec; check_initializer t value
