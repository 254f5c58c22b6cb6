-- ===== src/Bindings/Encoder/Write.antt =====
-- The `Write` methods of go/src/fidl/bindings/encoder.go. A float is passed with the function that
-- gives its bits; a handle with the test `IsValid` of syscall/mx.
use fidl.Prelude.{
  ℕ, ◌+◌, ◌-◌, ◌%◌, ◌^◌, Bool, [], ◌∷◌, ◌++◌, ltb, if◌then◌else◌, length, get_or, set, bit_or,
}
use fidl.Prelude.Bytes.{Bytes}
use fidl.Prelude.Int.{ℤ, negsuc, to_unsigned}
use fidl.Prelude.Go.{ok, err, panic, ◌>>=◌, ◌>>◌}
use fidl.Bindings.Util.{invalid_handle}
use fidl.Bindings.State.{
  align_offset_to_bytes, skip_bits, skip_bytes, align_offset, process, unprocess,
}
use fidl.Bindings.Encoder.{EncoderM, get_state, on_state, put_uint, check_room, start_array, finish}

-- `e.buf[off] |= 1 << bit`
unfoldable pub set_bit : ℕ → ℕ → EncoderM (Unit {0})
set_bit off bit e =
    if ltb off (length e.buf)
    then ok tt (record e { buf = set e.buf off (bit_or (get_or e.buf off 0) (2 ^ bit % 256)) })
    else panic

unfoldable pub write_bool : Bool → EncoderM (Unit {0})
unfolding check_room get_state on_state set_bit skip_bits process
write_bool value = do
  check_room 1
  s ← get_state
  (if value then set_bit s.offset s.bit_offset else ok tt)
  on_state (skip_bits 1)
  on_state process

unfoldable pub write_uint8 : ℕ → EncoderM (Unit {0})
unfolding check_room get_state on_state put_uint align_offset_to_bytes skip_bytes process
write_uint8 value = do
  check_room 8
  on_state align_offset_to_bytes
  s ← get_state
  put_uint 1 s.offset value
  on_state (skip_bytes 1)
  on_state process

unfoldable pub write_int8 : ℤ → EncoderM (Unit {0})
unfolding write_uint8
write_int8 value = write_uint8 (to_unsigned (2 ^ 8) value)

unfoldable pub write_uint16 : ℕ → EncoderM (Unit {0})
unfolding check_room get_state on_state put_uint align_offset_to_bytes align_offset skip_bytes
    process
write_uint16 value = do
  check_room 16
  on_state align_offset_to_bytes
  on_state (align_offset 2)
  s ← get_state
  put_uint 2 s.offset value
  on_state (skip_bytes 2)
  on_state process

unfoldable pub write_int16 : ℤ → EncoderM (Unit {0})
unfolding write_uint16
write_int16 value = write_uint16 (to_unsigned (2 ^ 16) value)

unfoldable pub write_uint32 : ℕ → EncoderM (Unit {0})
unfolding check_room get_state on_state put_uint align_offset_to_bytes align_offset skip_bytes
    process
write_uint32 value = do
  check_room 32
  on_state align_offset_to_bytes
  on_state (align_offset 4)
  s ← get_state
  put_uint 4 s.offset value
  on_state (skip_bytes 4)
  on_state process

unfoldable pub write_int32 : ℤ → EncoderM (Unit {0})
unfolding write_uint32
write_int32 value = write_uint32 (to_unsigned (2 ^ 32) value)

unfoldable pub write_uint64 : ℕ → EncoderM (Unit {0})
unfolding check_room get_state on_state put_uint align_offset_to_bytes align_offset skip_bytes
    process
write_uint64 value = do
  check_room 64
  on_state align_offset_to_bytes
  on_state (align_offset 8)
  s ← get_state
  put_uint 8 s.offset value
  on_state (skip_bytes 8)
  on_state process

unfoldable pub write_int64 : ℤ → EncoderM (Unit {0})
unfolding write_uint64
write_int64 value = write_uint64 (to_unsigned (2 ^ 64) value)

-- `math.Float32bits` and `math.Float64bits` are the arguments.
unfoldable pub write_float32 : {F : Type 0} → (F → ℕ) → F → EncoderM (Unit {0})
unfolding write_uint32
write_float32 float32_bits value = write_uint32 (float32_bits value)

unfoldable pub write_float64 : {F : Type 0} → (F → ℕ) → F → EncoderM (Unit {0})
unfolding write_uint64
write_float64 float64_bits value = write_uint64 (float64_bits value)

unfoldable pub write_null_union : EncoderM (Unit {0})
unfolding write_uint64 on_state unprocess
write_null_union = do write_uint64 0; on_state unprocess; write_uint64 0

unfoldable pub write_null_pointer : EncoderM (Unit {0})
unfolding write_uint64
write_null_pointer = write_uint64 0

unfoldable pub write_bytes : Bytes → EncoderM (Unit {0})
unfolding write_uint8
write_bytes [] = ok tt
write_bytes (b ∷ bs) = write_uint8 b >> write_bytes bs

unfoldable pub write_string : Bytes → EncoderM (Unit {0})
unfolding start_array write_bytes finish
write_string value = do start_array (length value % 2 ^ 32) 8; write_bytes value; finish

-- `uint64(e.end - e.state().offset)`
unfoldable pub write_pointer : EncoderM (Unit {0})
unfolding on_state get_state align_offset_to_bytes align_offset write_uint64
write_pointer = do
  on_state align_offset_to_bytes
  on_state (align_offset 8)
  s ← get_state
  λ e. write_uint64 ((e.end + 2 ^ 64 - s.offset) % 2 ^ 64) e

unfoldable pub write_invalid_handle : EncoderM (Unit {0})
unfolding write_int32
write_invalid_handle = write_int32 (negsuc 0)

unfoldable pub write_handle : (ℕ → Bool) → ℕ → EncoderM (Unit {0})
unfolding write_uint32
write_handle is_valid handle e =
    if is_valid handle
    then (let e' = record e { handles = e.handles ++ (handle ∷ []) } in
        write_uint32 ((length e'.handles - 1) % 2 ^ 32) e')
    else err invalid_handle e

unfoldable pub write_invalid_interface : EncoderM (Unit {0})
unfolding write_invalid_handle on_state unprocess write_uint32
write_invalid_interface = do write_invalid_handle; on_state unprocess; write_uint32 0

unfoldable pub write_interface : (ℕ → Bool) → ℕ → EncoderM (Unit {0})
unfolding write_handle on_state unprocess write_uint32
write_interface is_valid handle = do
  write_handle is_valid handle
  on_state unprocess
  write_uint32 0
