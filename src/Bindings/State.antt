-- ===== src/Bindings/State.antt =====
-- `encodingState` of go/src/fidl/bindings/encoder.go, which the encoder and the decoder share.
use fidl.Prelude.{
  ℕ, ◌+◌, ◌-◌, ◌/◌, ◌%◌, ◌^◌, Bool, ◌&&◌, Option, none, some, ltb, leb, if◌then◌else◌,
}
use fidl.Bindings.Util.{
  align, bytes_for_bits, BindError, empty_state_stack, too_many_elements, size_limit_exceeded,
}

pub record EncodingState : Type 0 where
  pub offset : ℕ
  pub bit_offset : ℕ
  pub limit : ℕ
  pub elements : ℕ
  pub elements_processed : ℕ
  pub check_elements : Bool

unfoldable pub align_offset_to_bytes : EncodingState → EncodingState
align_offset_to_bytes s =
    if ltb 0 s.bit_offset then record s { offset = s.offset + 1; bit_offset = 0 } else s

unfoldable pub skip_bits : ℕ → EncodingState → EncodingState
skip_bits n s =
    let bits = (s.bit_offset + n) % 2 ^ 32 in
    record s { offset = s.offset + bits / 8; bit_offset = bits % 8 }

unfoldable pub skip_bytes : ℕ → EncodingState → EncodingState
skip_bytes n s = record s { offset = s.offset + n; bit_offset = 0 }

-- `offset = align(offset, n)`
unfoldable pub align_offset : ℕ → EncodingState → EncodingState
align_offset n s = record s { offset = align s.offset n }

-- `elementsProcessed++` and `elementsProcessed--`, on a uint32
unfoldable pub process : EncodingState → EncodingState
process s = record s { elements_processed = (s.elements_processed + 1) % 2 ^ 32 }

unfoldable pub unprocess : EncodingState → EncodingState
unprocess s = record s { elements_processed = (s.elements_processed + 2 ^ 32 - 1) % 2 ^ 32 }

-- `ensureElementBitSizeAndCapacity`; no error is `none`.
unfoldable pub ensure : Option EncodingState → ℕ → Option BindError
ensure none bit_size = some empty_state_stack
ensure (some s) bit_size =
    if s.check_elements && leb s.elements s.elements_processed
    then some (too_many_elements s.elements)
    else let byte_size = bytes_for_bits ((s.bit_offset + bit_size) % 2 ^ 32) in
      if ltb s.limit (align (s.offset + byte_size) byte_size)
      then some size_limit_exceeded
      else none
