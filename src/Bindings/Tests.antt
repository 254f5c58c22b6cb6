-- ===== src/Bindings/Tests.antt =====
-- Concrete words, and concrete positions inside a byte.
use fidl.Prelude.{◌+◌, ◌≤◌, ◌≡◌, refl, arith, false, [], ◌∷◌, some, none}
use fidl.Prelude.Bytes.{Bytes}
use fidl.Prelude.Go.{ok}
use fidl.Bindings.Util.{align, bytes_for_bits}
use fidl.Bindings.State.{EncodingState, align_offset, align_offset_to_bytes, ensure}
use fidl.Bindings.Encoder.{Encoder, finish_writing_union_value}
use fidl.Bindings.Encoder.Write.{write_uint32}
use fidl.Bindings.Encoder.Valid.{over}
use fidl.Bindings.Decoder.{new_decoder}
use fidl.Bindings.Decoder.Read.{read_uint32}
use fidl.Bindings.Words.{four, place, IsReadBack, read-write}
use fidl.Bindings.AfterBool.{union_end_after_bool}

-- after the header and a bool of a struct of 16 bytes
abbrev in_byte : EncodingState
in_byte = record {
  offset = 8;
  bit_offset = 1;
  limit = 24;
  elements = 0;
  elements_processed = 0;
  check_elements = false;
}

abbrev bytes : Bytes
bytes =
    24 ∷ 0 ∷ 0 ∷ 0 ∷ 0 ∷ 0 ∷ 0 ∷ 0 ∷ 1 ∷ 0 ∷ 0 ∷ 0 ∷ 0 ∷ 0 ∷ 0 ∷ 0 ∷ 0 ∷ 0 ∷ 0 ∷ 0 ∷ 0 ∷ 0 ∷ 0 ∷ 0
    ∷ []

abbrev encoder : Encoder
encoder = record {
  buf = bytes;
  end = 24;
  handles = [];
  state_stack = in_byte ∷ [];
  deterministic = false;
}

has_room : ensure (some in_byte) 32 ≡ none
unfolding ensure align bytes_for_bits
has_room = refl

is_in_buffer : place 4 in_byte + 4 ≤ 24
unfolding align_offset align_offset_to_bytes align
is_in_buffer = omega arith

read-write_example :
    IsReadBack read_uint32
      (new_decoder [] [])
      (in_byte ∷ [])
      70000
      (write_uint32 70000 (over encoder (in_byte ∷ [])))
read-write_example =
    read-write (new_decoder [] []) in_byte [] 70000 encoder four has_room is_in_buffer (omega arith)

union_end_after_bool_example :
    finish_writing_union_value (over encoder (in_byte ∷ []))
    ≡ ok tt (over encoder (record in_byte { offset = 9; bit_offset = 0 } ∷ []))
union_end_after_bool_example = union_end_after_bool encoder in_byte [] refl (omega arith)
