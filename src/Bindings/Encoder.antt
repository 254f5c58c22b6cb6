-- ===== src/Bindings/Encoder.antt =====
-- go/src/fidl/bindings/encoder.go: the encoder and its operations. The state stack is a list with the
-- top in front. A word is written by `put_uint`, which panics where the slice is too short.
pub mod Write
pub mod Valid
mod Tests
use mathlib.Core.List.{head?}
use fidl.Prelude.{
  ℕ, ◌+◌, ◌-◌, ◌*◌, ◌%◌, ◌^◌, Bool, true, false, not, ◌&&◌, Option, none, some, List, [], ◌∷◌, ◌++◌,
  ltb, leb, ◌==◌, if◌then◌else◌, length, take, replicate,
}
use fidl.Prelude.Bytes.{Bytes, put_le}
use fidl.Prelude.Go.{Go, ok, err, panic, ◌>>=◌, ◌>>◌, check, modify}
use fidl.Bindings.Util.{
  align, bytes_for_bits, data_header_size, default_alignment, DataHeader, map_header, BindError,
  stack_is_empty, unexpected_number_of_elements, non_empty_state_stack,
}
use fidl.Bindings.State.{EncodingState, align_offset_to_bytes, align_offset, ensure}

-- A handle is the number that syscall/mx gives it.
pub record Encoder : Type 0 where
  pub buf : Bytes
  pub end : ℕ
  pub handles : List ℕ
  pub state_stack : List EncodingState
  pub deterministic : Bool

abbrev pub EncoderM : Type 0 → Type 0
EncoderM = Go BindError Encoder

unfoldable pub claim_data : ℕ → Encoder → Encoder
claim_data size e =
    let end' = e.end + size in
    if ltb end' (length e.buf)
    then record e { end = end' }
    else let l = 2 * length e.buf in
      let new_len = if ltb end' l then l else end' in
      record e { end = end'; buf = e.buf ++ replicate (new_len - length e.buf) 0 }

pop : List EncodingState → List EncodingState
pop [] = []
pop (s ∷ ss) = ss

unfoldable pub pop_state : Encoder → Encoder
unfolding pop
pop_state e = record e { state_stack = pop e.state_stack }

unfoldable pub push_state : DataHeader → Bool → Encoder → Encoder
unfolding claim_data
push_state header check_elements e =
    let e' = claim_data (align header.size default_alignment) e in
    let s : EncodingState = record {
      offset = e.end;
      bit_offset = 0;
      limit = e'.end;
      elements = if check_elements then header.elements_or_version else 0;
      elements_processed = 0;
      check_elements = check_elements;
    } in
    record e' { state_stack = s ∷ e'.state_stack }

-- `state()`; `none` is the nil pointer.
abbrev pub state : Encoder → Option EncodingState
state e = head? e.state_stack

-- Reading and updating through `state()`, which panics on the nil pointer.
deref : List EncodingState → EncoderM EncodingState
deref [] e = panic
deref (s ∷ ss) e = ok s e

store : (EncodingState → EncodingState) → List EncodingState → EncoderM (Unit {0})
store f [] e = panic
store f (s ∷ ss) e = ok tt (record e { state_stack = f s ∷ ss })

unfoldable pub get_state : EncoderM EncodingState
unfolding deref
get_state e = deref e.state_stack e

unfoldable pub on_state : (EncodingState → EncodingState) → EncoderM (Unit {0})
unfolding store
on_state f e = store f e.state_stack e

-- `binary.LittleEndian.PutUintN(e.buf[off:], v)` for `n` bytes, and `e.buf[off] = v` for n = 1
unfoldable pub put_uint : ℕ → ℕ → ℕ → EncoderM (Unit {0})
put_uint n off v e =
    if leb (off + n) (length e.buf) then ok tt (record e { buf = put_le n off v e.buf }) else panic

unfoldable pub check_room : ℕ → EncoderM (Unit {0})
check_room bit_size e = check (ensure (state e) bit_size) e

unfoldable pub new_encoder : Encoder
new_encoder = record { buf = []; end = 0; handles = []; state_stack = []; deterministic = false }

unfoldable pub set_deterministic : Bool → Encoder → Encoder
set_deterministic d e = record e { deterministic = d }

unfoldable pub write_data_header : DataHeader → EncoderM (Unit {0})
unfolding get_state on_state put_uint
write_data_header header = do
  s ← get_state
  put_uint 4 s.offset header.size
  put_uint 4 (s.offset + 4) header.elements_or_version
  on_state (λ s. record s { offset = s.offset + 8 })

unfoldable pub start_array : ℕ → ℕ → EncoderM (Unit {0})
unfolding push_state write_data_header
start_array len element_bit_size =
    let data_size = data_header_size + bytes_for_bits (len * element_bit_size % 2 ^ 64) in
    let header : DataHeader = record { size = data_size % 2 ^ 32; elements_or_version = len } in
    modify (push_state header true) >> write_data_header header

unfoldable pub start_map : EncoderM (Unit {0})
unfolding push_state write_data_header
start_map = modify (push_state map_header false) >> write_data_header map_header

unfoldable pub start_struct : ℕ → ℕ → EncoderM (Unit {0})
unfolding push_state write_data_header
start_struct size version =
    let header : DataHeader = record {
      size = (data_header_size + size) % 2 ^ 32;
      elements_or_version = version;
    } in
    modify (push_state header false) >> write_data_header header

unfoldable pub start_nested_union : EncoderM (Unit {0})
unfolding push_state
start_nested_union = modify (push_state (record { size = 16; elements_or_version = 0 }) false)

unfoldable pub write_union_header : ℕ → EncoderM (Unit {0})
unfolding check_room get_state on_state put_uint align_offset_to_bytes align_offset
write_union_header tag = do
  check_room 64
  on_state align_offset_to_bytes
  on_state (align_offset 8)
  s ← get_state
  put_uint 4 s.offset 16
  put_uint 4 (s.offset + 4) tag
  on_state (λ s. record s { offset = s.offset + 8 })
  check_room 64

unfoldable pub finish_writing_union_value : EncoderM (Unit {0})
unfolding on_state align_offset_to_bytes align_offset
finish_writing_union_value = on_state (align_offset 8) >> on_state align_offset_to_bytes

unfoldable pub finish : EncoderM (Unit {0})
unfolding pop_state
finish e = elim (state e) [
  | none ↦ err stack_is_empty e
  | some s ↦
      if s.check_elements && not (s.elements_processed == s.elements)
      then err (unexpected_number_of_elements s.elements s.elements_processed) e
      else ok tt (pop_state e)
]

-- `Data`: the encoded bytes and the handles
unfoldable pub data_of : EncoderM (Bytes × List ℕ)
data_of e = elim e.state_stack [
  | [] ↦ if leb e.end (length e.buf) then ok (take e.end e.buf, e.handles) e else panic
  | s ∷ ss ↦ err non_empty_state_stack e
]
