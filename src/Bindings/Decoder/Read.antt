-- ===== src/Bindings/Decoder/Read.antt =====
-- The `Read` methods of go/src/fidl/bindings/decoder.go. A float is read with the function that gives
-- the float of its bits.
use fidl.Prelude.{
  ℕ, zero, suc, ◌+◌, ◌-◌, ◌/◌, ◌%◌, ◌^◌, Bool, not, ◌||◌, [], ◌∷◌, ltb, leb, ◌==◌, if◌then◌else◌,
  length, get_or,
}
use fidl.Prelude.Bytes.{Bytes}
use fidl.Prelude.Int.{ℤ, to_signed}
use fidl.Prelude.Go.{Outcome, ok, err, panic, ◌>>=◌, ◌>>◌, pure}
use fidl.Bindings.Util.{
  BindError, validation, illegal_pointer, illegal_memory_range, misaligned_object,
}
use fidl.Bindings.State.{
  align_offset_to_bytes, skip_bits, skip_bytes, align_offset, process, unprocess,
}
use fidl.Bindings.Decoder.{
  Decoder, DecoderM, claim_data, claim_handle, get_state, on_state, get_uint, check_room,
  start_array, finish,
}

-- `((d.buf[off] >> bit) & 1) == 1`
unfoldable pub test_bit : ℕ → ℕ → DecoderM Bool
test_bit off bit d =
    if ltb off (length d.buf) then ok (get_or d.buf off 0 / 2 ^ bit % 2 == 1) d else panic

unfoldable pub read_bool : DecoderM Bool
unfolding check_room get_state on_state test_bit skip_bits process
read_bool = do
  check_room 1
  s ← get_state
  value ← test_bit s.offset s.bit_offset
  on_state (skip_bits 1)
  on_state process
  pure value

unfoldable pub read_uint8 : DecoderM ℕ
unfolding check_room get_state on_state get_uint align_offset_to_bytes skip_bytes process
read_uint8 = do
  check_room 8
  on_state align_offset_to_bytes
  s ← get_state
  value ← get_uint 1 s.offset
  on_state (skip_bytes 1)
  on_state process
  pure value

unfoldable pub read_int8 : DecoderM ℤ
unfolding read_uint8
read_int8 = do value ← read_uint8; pure (to_signed (2 ^ 7) value)

unfoldable pub read_uint16 : DecoderM ℕ
unfolding check_room get_state on_state get_uint align_offset_to_bytes align_offset skip_bytes
    process
read_uint16 = do
  check_room 16
  on_state align_offset_to_bytes
  on_state (align_offset 2)
  s ← get_state
  value ← get_uint 2 s.offset
  on_state (skip_bytes 2)
  on_state process
  pure value

unfoldable pub read_int16 : DecoderM ℤ
unfolding read_uint16
read_int16 = do value ← read_uint16; pure (to_signed (2 ^ 15) value)

unfoldable pub read_uint32 : DecoderM ℕ
unfolding check_room get_state on_state get_uint align_offset_to_bytes align_offset skip_bytes
    process
read_uint32 = do
  check_room 32
  on_state align_offset_to_bytes
  on_state (align_offset 4)
  s ← get_state
  value ← get_uint 4 s.offset
  on_state (skip_bytes 4)
  on_state process
  pure value

unfoldable pub read_int32 : DecoderM ℤ
unfolding read_uint32
read_int32 = do value ← read_uint32; pure (to_signed (2 ^ 31) value)

unfoldable pub read_uint64 : DecoderM ℕ
unfolding check_room get_state on_state get_uint align_offset_to_bytes align_offset skip_bytes
    process
read_uint64 = do
  check_room 64
  on_state align_offset_to_bytes
  on_state (align_offset 8)
  s ← get_state
  value ← get_uint 8 s.offset
  on_state (skip_bytes 8)
  on_state process
  pure value

unfoldable pub read_int64 : DecoderM ℤ
unfolding read_uint64
read_int64 = do value ← read_uint64; pure (to_signed (2 ^ 63) value)

-- `math.Float32frombits` and `math.Float64frombits` are the arguments.
unfoldable pub read_float32 : {F : Type 0} → (ℕ → F) → DecoderM F
unfolding read_uint32
read_float32 float32_of_bits = do bits ← read_uint32; pure (float32_of_bits bits)

unfoldable pub read_float64 : {F : Type 0} → (ℕ → F) → DecoderM F
unfolding read_uint64
read_float64 float64_of_bits = do bits ← read_uint64; pure (float64_of_bits bits)

-- the loop of `ReadString`, with the rounds left
unfoldable pub read_bytes : ℕ → DecoderM Bytes
unfolding read_uint8
read_bytes zero = pure []
read_bytes (suc n) = read_uint8 >>= λ b. (read_bytes n >>= λ bs. pure (b ∷ bs))

unfoldable pub read_string : DecoderM Bytes
unfolding start_array read_bytes finish
read_string = do len ← start_array 8; bytes ← read_bytes len; finish; pure bytes

-- The error of `claimData` is dropped, as in the source.
unfoldable pub ignore_error :
    Outcome BindError Decoder (Unit {0}) → Outcome BindError Decoder (Unit {0})
ignore_error (ok a d) = ok a d
ignore_error (err e d) = ok tt d
ignore_error panic = panic

-- `uint64(d.state().offset-8) + pointer` wraps at 2^64.
unfoldable pub follow_pointer : ℕ → ℕ → DecoderM ℕ
unfolding claim_data ignore_error
follow_pointer pointer offset d =
    let new_end = (offset - 8 + pointer) % 2 ^ 64 in
    if leb (length d.buf) pointer || leb (length d.buf) new_end
    then err (validation illegal_pointer) d
    else if ltb new_end d.end
    then err (validation illegal_memory_range) d
    else if not (new_end % 8 == 0)
    then err (validation misaligned_object) d
    else ((λ d. ignore_error (claim_data (new_end - d.end) d)) >> pure pointer) d

unfoldable pub read_pointer : DecoderM ℕ
unfolding read_uint64 get_state follow_pointer
read_pointer = do
  pointer ← read_uint64
  (if pointer == 0 then pure pointer else (get_state >>= λ s. follow_pointer pointer s.offset))

unfoldable pub read_untyped_handle : DecoderM ℕ
unfolding read_uint32 claim_handle
read_untyped_handle = do
  handle_index ← read_uint32
  (if handle_index == 2 ^ 32 - 1 then pure 0 else claim_handle handle_index)

unfoldable pub read_handle : DecoderM ℕ
unfolding read_untyped_handle
read_handle = read_untyped_handle

unfoldable pub read_channel_handle : DecoderM ℕ
unfolding read_untyped_handle
read_channel_handle = read_untyped_handle

unfoldable pub read_vmo_handle : DecoderM ℕ
unfolding read_untyped_handle
read_vmo_handle = read_untyped_handle

unfoldable pub read_interface : DecoderM ℕ
unfolding read_channel_handle on_state unprocess read_uint32
read_interface = do
  handle ← read_channel_handle
  on_state unprocess
  version ← read_uint32
  pure handle
