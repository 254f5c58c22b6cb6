-- ===== src/Bindings/Util.antt =====
-- go/src/fidl/bindings/util.go and the types and constants of message.go. An `int` is a number: it
-- holds sizes and offsets of byte slices, which stay far below 2^63.
pub mod Laws
use fidl.Prelude.{ℕ, ◌+◌, ◌-◌, ◌/◌, ◌%◌, ◌^◌, ◌*◌, bit_or, Bool, ◌==◌, if◌then◌else◌}

-- ((size - 1) | (alignment - 1)) + 1. At size 0 the source has (-1 | x) + 1, which is 0.
unfoldable pub align : ℕ → ℕ → ℕ
align size alignment = if size == 0 then 0 else bit_or (size - 1) (alignment - 1) + 1

unfoldable pub bytes_for_bits : ℕ → ℕ
bytes_for_bits bits = (bits + 7) % 2 ^ 64 / 8

abbrev pub message_no_flag : ℕ
message_no_flag = 0

abbrev pub message_expects_response_flag : ℕ
message_expects_response_flag = 1

abbrev pub message_is_response_flag : ℕ
message_is_response_flag = 2

abbrev pub data_header_size : ℕ
data_header_size = 8

abbrev pub default_alignment : ℕ
default_alignment = 8

pub record DataHeader : Type 0 where
  pub size : ℕ
  pub elements_or_version : ℕ

abbrev pub map_header : DataHeader
map_header = record { size = 24; elements_or_version = 0 }

-- The error codes of a `ValidationError`; its message text is left out.
pub data ErrorCode : Type 0 where
  different_sized_arrays_in_map illegal_handle illegal_memory_range illegal_pointer : ErrorCode
  message_header_invalid_flags message_header_missing_request_id : ErrorCode
  message_header_unknown_method misaligned_object unexpected_array_header : ErrorCode
  unexpected_invalid_handle unexpected_null_pointer unexpected_null_union : ErrorCode
  unexpected_struct_header : ErrorCode

-- An error value of the package: a `ValidationError`, or one made by `fmt.Errorf`, with its numbers.
pub data BindError : Type 0 where
  validation : ErrorCode → BindError
  empty_state_stack : BindError
  too_many_elements : ℕ → BindError
  size_limit_exceeded : BindError
  stack_is_empty : BindError
  unexpected_number_of_elements : ℕ → ℕ → BindError
  non_empty_state_stack : BindError
  invalid_handle : BindError

-- `counterImpl`: the state is `last`, and `Count` returns the new state and the number issued.
unfoldable pub count : ℕ → ℕ × ℕ
count last = let next = (last + 1) % 2 ^ 64 in (next, next)
