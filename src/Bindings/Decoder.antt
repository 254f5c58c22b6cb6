-- ===== src/Bindings/Decoder.antt =====
-- go/src/fidl/bindings/decoder.go: the decoder and its operations. The state stack is a list with the
-- top in front. A word is read by `get_uint`, which panics where the slice is too short.
pub mod Read
pub mod Sound
mod Tests
use mathlib.Core.List.{head?}
use fidl.Prelude.{
  ℕ, ◌+◌, ◌-◌, ◌*◌, ◌%◌, ◌^◌, Bool, true, false, not, ◌&&◌, Option, none, some, List, [], ◌∷◌, ltb,
  leb, ◌==◌, if◌then◌else◌, length, get_or,
}
use fidl.Prelude.Bytes.{Bytes, get_le}
use fidl.Prelude.Go.{Go, ok, err, panic, ◌>>=◌, ◌>>◌, pure, fail, check}
use fidl.Bindings.Util.{
  bytes_for_bits, data_header_size, DataHeader, map_header, BindError, validation,
  illegal_memory_range, illegal_handle, unexpected_array_header, unexpected_struct_header,
  stack_is_empty, unexpected_number_of_elements,
}
use fidl.Bindings.State.{EncodingState, align_offset_to_bytes, align_offset, process, ensure}

-- A handle is the number that syscall/mx gives it.
pub record Decoder : Type 0 where
  pub buf : Bytes
  pub end : ℕ
  pub handles : List ℕ
  pub next_handle : ℕ
  pub state_stack : List EncodingState

abbrev pub DecoderM : Type 0 → Type 0
DecoderM = Go BindError Decoder

unfoldable pub new_decoder : Bytes → List ℕ → Decoder
new_decoder bytes handles = record {
  buf = bytes;
  end = 0;
  handles = handles;
  next_handle = 0;
  state_stack = [];
}

unfoldable pub claim_data : ℕ → DecoderM (Unit {0})
claim_data size d =
    if ltb (length d.buf) (d.end + size)
    then err (validation illegal_memory_range) d
    else ok tt (record d { end = d.end + size })

unfoldable pub claim_handle : ℕ → DecoderM ℕ
claim_handle index d =
    if leb (length d.handles) index
    then err (validation illegal_handle) d
    else if ltb index d.next_handle
    then err (validation illegal_handle) d
    else ok (get_or d.handles index 0) (record d { next_handle = index + 1 })

pop : List EncodingState → List EncodingState
pop [] = []
pop (s ∷ ss) = ss

unfoldable pub pop_state : Decoder → Decoder
unfolding pop
pop_state d = record d { state_stack = pop d.state_stack }

-- `header.Size - dataHeaderSize` is a uint32.
unfoldable pub push_state : DataHeader → Bool → DecoderM (Unit {0})
unfolding claim_data
push_state header check_elements d =
    let old_end = d.end in
    (claim_data ((header.size + 2 ^ 32 - data_header_size) % 2 ^ 32) >> λ d'.
    let s : EncodingState = record {
      offset = old_end;
      bit_offset = 0;
      limit = d'.end;
      elements = if check_elements then header.elements_or_version else 0;
      elements_processed = 0;
      check_elements = check_elements;
    } in
    ok tt (record d' { state_stack = s ∷ d'.state_stack }))
      d

-- `state()`; `none` is the nil pointer.
abbrev pub state : Decoder → Option EncodingState
state d = head? d.state_stack

-- Reading and updating through `state()`, which panics on the nil pointer.
deref : List EncodingState → DecoderM EncodingState
deref [] d = panic
deref (s ∷ ss) d = ok s d

store : (EncodingState → EncodingState) → List EncodingState → DecoderM (Unit {0})
store f [] d = panic
store f (s ∷ ss) d = ok tt (record d { state_stack = f s ∷ ss })

unfoldable pub get_state : DecoderM EncodingState
unfolding deref
get_state d = deref d.state_stack d

unfoldable pub on_state : (EncodingState → EncodingState) → DecoderM (Unit {0})
unfolding store
on_state f d = store f d.state_stack d

-- `binary.LittleEndian.UintN(d.buf[off:])` for `n` bytes, and `d.buf[off]` for n = 1
unfoldable pub get_uint : ℕ → ℕ → DecoderM ℕ
get_uint n off d = if leb (off + n) (length d.buf) then ok (get_le n off d.buf) d else panic

unfoldable pub check_room : ℕ → DecoderM (Unit {0})
check_room bit_size d = check (ensure (state d) bit_size) d

unfoldable pub read_data_header : DecoderM DataHeader
unfolding claim_data get_uint
read_data_header = do
  claim_data data_header_size
  λ d.
      let old_end = d.end - data_header_size in
      (get_uint 4 old_end >>= λ size. get_uint 4 (old_end + 4) >>= λ elements.
      pure (record { size = size; elements_or_version = elements }))
        d

unfoldable pub start_array : ℕ → DecoderM ℕ
unfolding read_data_header push_state
start_array element_bit_size = do
  header ← read_data_header
  let min_size = bytes_for_bits (header.elements_or_version * element_bit_size % 2 ^ 64)
  (if ltb header.size (data_header_size + min_size)
      then fail (validation unexpected_array_header)
      else (push_state header true >> pure header.elements_or_version))

-- `header != mapHeader`
unfoldable pub is_map_header : DataHeader → Bool
is_map_header h =
    h.size == map_header.size && h.elements_or_version == map_header.elements_or_version

unfoldable pub start_map : DecoderM (Unit {0})
unfolding read_data_header push_state is_map_header
start_map = do
  header ← read_data_header
  (if not (is_map_header header)
      then fail (validation unexpected_struct_header)
      else push_state header false)

unfoldable pub start_struct : DecoderM DataHeader
unfolding read_data_header push_state
start_struct = do
  header ← read_data_header
  (if ltb header.size data_header_size
      then fail (validation unexpected_struct_header)
      else (push_state header false >> pure header))

unfoldable pub start_nested_union : DecoderM (Unit {0})
unfolding push_state
start_nested_union = push_state (record { size = 24; elements_or_version = 0 }) false

unfoldable pub read_union_header : DecoderM (ℕ × ℕ)
unfolding check_room get_state on_state get_uint align_offset_to_bytes align_offset
read_union_header = do
  check_room 64
  on_state align_offset_to_bytes
  on_state (align_offset 8)
  s ← get_state
  size ← get_uint 4 s.offset
  tag ← get_uint 4 (s.offset + 4)
  on_state (λ s. record s { offset = s.offset + 8 })
  check_room 64
  pure (size, tag)

unfoldable pub finish_reading_union_value : DecoderM (Unit {0})
unfolding on_state align_offset_to_bytes align_offset
finish_reading_union_value = on_state (align_offset 8) >> on_state align_offset_to_bytes

unfoldable pub skip_union_value : DecoderM (Unit {0})
unfolding on_state process
skip_union_value = on_state (λ s. record s { offset = s.offset + 8 }) >> on_state process

unfoldable pub finish : DecoderM (Unit {0})
unfolding pop_state
finish d = elim (state d) [
  | none ↦ err stack_is_empty d
  | some s ↦
      if s.check_elements && not (s.elements_processed == s.elements)
      then err (unexpected_number_of_elements s.elements s.elements_processed) d
      else ok tt (pop_state d)
]
