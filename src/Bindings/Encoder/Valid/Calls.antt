-- ===== src/Bindings/Encoder/Valid/Calls.antt =====
-- Any sequence of calls of the encoder's methods, each with the arguments that its caller may pass.
use fidl.Prelude.{[], ℕ, ◌+◌, ◌-◌, ◌*◌, ◌/◌, ◌%◌, ◌^◌, ◌<◌, arith, Bool, length}
use fidl.Prelude.Bytes.{Bytes}
use fidl.Prelude.Int.{ℤ, negsuc, to_unsigned}
use fidl.Prelude.Go.{Outcome, ok, err, panic, ◌>>◌, Keeps, and_then}
use fidl.Bindings.Util.{BindError}
use fidl.Bindings.State.{ensure}
use fidl.Bindings.Encoder.{
  Encoder, EncoderM, start_array, start_map, start_struct, start_nested_union, write_union_header,
  finish_writing_union_value, finish,
}
use fidl.Bindings.Encoder.Write.{
  write_bool, write_uint8, write_int8, write_uint16, write_int16, write_uint32, write_int32,
  write_uint64, write_int64, write_null_union, write_null_pointer, write_string, write_pointer,
  write_invalid_handle, write_handle, write_invalid_interface, write_interface, write_bytes,
}
use fidl.Bindings.Encoder.Valid.{
  Watch, IsValid, IsOpen, IsWriting, IsSafe, IsSafe-of_writing, forget_open, over,
}
use fidl.Bindings.Encoder.Valid.Words.{
  write_bool-IsSafe, write_uint8-IsSafe, write_uint16-IsSafe, write_uint32-IsSafe,
  write_uint64-IsSafe, write_null_union-KeepsWriting, write_bytes-KeepsWriting,
  write_handle-KeepsWriting, write_interface-KeepsWriting, write_invalid_interface-KeepsWriting,
  write_pointer-KeepsWriting,
}
use fidl.Bindings.Encoder.Valid.Blocks.{
  start_array-Opens, start_map-Opens, start_struct-Opens, start_nested_union-Opens,
  write_union_header-IsSafe, AtUnionValue, finish_writing_union_value-writes, finish-IsSafe,
}

pub data Call : Type 0 where
  array : ℕ → ℕ → Call
  struct : ℕ → ℕ → Call
  map_block nested_union union_done close : Call
  union_header : ℕ → Call
  bool : Bool → Call
  uint8 uint16 uint32 uint64 : ℕ → Call
  int8 int16 int32 int64 : ℤ → Call
  null_union null_pointer pointer : Call
  string : Bytes → Call
  handle interface : ℕ → Call
  no_handle no_interface : Call

module _ (is_valid : ℕ → Bool) where
  unfoldable pub run_call : Call → EncoderM (Unit {0})
  run_call (array len bits) = start_array len bits
  run_call (struct size version) = start_struct size version
  run_call map_block = start_map
  run_call nested_union = start_nested_union
  run_call union_done = finish_writing_union_value
  run_call close = finish
  run_call (union_header tag) = write_union_header tag
  run_call (bool v) = write_bool v
  run_call (uint8 v) = write_uint8 v
  run_call (uint16 v) = write_uint16 v
  run_call (uint32 v) = write_uint32 v
  run_call (uint64 v) = write_uint64 v
  run_call (int8 v) = write_int8 v
  run_call (int16 v) = write_int16 v
  run_call (int32 v) = write_int32 v
  run_call (int64 v) = write_int64 v
  run_call null_union = write_null_union
  run_call null_pointer = write_null_pointer
  run_call pointer = write_pointer
  run_call (string v) = write_string v
  run_call (handle x) = write_handle is_valid x
  run_call (interface x) = write_interface is_valid x
  run_call no_handle = write_invalid_handle
  run_call no_interface = write_invalid_interface

-- What a caller has to see to: sizes that fit a uint32, a block for a pointer, and a union's value in
-- front of its end.
abbrev pub IsAllowed : Encoder → Call → Type 0
IsAllowed e (array len bits) = (len * bits < 2 ^ 64 - 7) × (8 + (len * bits + 7) / 8 < 2 ^ 32)
IsAllowed e (struct size version) = 8 + size < 2 ^ 32
IsAllowed e (string v) = length v < 2 ^ 32 - 8
IsAllowed e pointer = IsOpen e.state_stack
IsAllowed e union_done = AtUnionValue e.state_stack
IsAllowed e _ = Unit

module _ (w : Watch) where
  -- From a block on: the rest of the calls may leave it.
  bind_writing :
      {A B : Type 0} (o : Outcome BindError Encoder A) (f : A → EncoderM B)
      → Keeps (IsWriting w) o
      → ((a : A) (e : Encoder) → IsWriting w e → Keeps (IsValid w) (f a e))
      → Keeps (IsValid w) (and_then o f)
  bind_writing (ok a e) f h k = k a e h
  bind_writing (err x e) f h k = h.0
  bind_writing panic f h k = h

  write_string-IsSafe : (v : Bytes) → length v < 2 ^ 32 - 8 → IsSafe w (write_string v)
  unfolding write_string
  write_string-IsSafe v h e valid =
      bind_writing (start_array (length v % 2 ^ 32) 8 e) (λ _. write_bytes v >> finish)
        (start_array-Opens w (length v % 2 ^ 32) 8 (omega arith) (omega arith) e valid)
        (λ _ e' o.
          bind_writing (write_bytes v e') (λ _. finish) (write_bytes-KeepsWriting w v e' o)
            (λ _ e'' o'. finish-IsSafe w e'' o'.0))

  write_pointer-IsSafe :
      (e : Encoder) → IsValid w e → IsOpen e.state_stack → Keeps (IsValid w) (write_pointer e)
  write_pointer-IsSafe e v o =
      forget_open w (write_pointer e) (write_pointer-KeepsWriting w e (v, o))

  write_null_union-IsSafe : IsSafe w write_null_union
  write_null_union-IsSafe =
      IsSafe-of_writing w write_null_union (write_null_union-KeepsWriting w)
        (unfold write_null_union ensure in λ e h. h)

  write_invalid_interface-IsSafe : IsSafe w write_invalid_interface
  write_invalid_interface-IsSafe =
      IsSafe-of_writing w write_invalid_interface (write_invalid_interface-KeepsWriting w)
        (unfold write_invalid_interface ensure in λ e h. h)

  module _ (is_valid : ℕ → Bool) where
    write_handle_closed :
        (x : ℕ) (e : Encoder)
        → IsValid w (over e [])
        → Keeps (IsValid w) (write_handle is_valid x (over e []))
    unfolding write_handle ensure
    write_handle_closed x e h = ground arith

    write_handle-IsSafe : (x : ℕ) → IsSafe w (write_handle is_valid x)
    write_handle-IsSafe x =
        IsSafe-of_writing w (write_handle is_valid x) (write_handle-KeepsWriting w is_valid x)
          (write_handle_closed x)

    write_interface_closed :
        (x : ℕ) (e : Encoder)
        → IsValid w (over e [])
        → Keeps (IsValid w) (write_interface is_valid x (over e []))
    unfolding write_interface ensure
    write_interface_closed x e h = ground arith

    write_interface-IsSafe : (x : ℕ) → IsSafe w (write_interface is_valid x)
    write_interface-IsSafe x =
        IsSafe-of_writing w (write_interface is_valid x) (write_interface-KeepsWriting w is_valid x)
          (write_interface_closed x)

    -- An allowed call does not panic, and keeps the invariant whether or not it returns an error.
    pub run_call-IsValid :
        (c : Call) (e : Encoder)
        → IsValid w e
        → IsAllowed e c
        → Keeps (IsValid w) (run_call is_valid c e)
    unfolding run_call write_int8 write_int16 write_int32 write_int64 write_null_pointer
        write_invalid_handle
    run_call-IsValid (array len bits) e v a =
        forget_open w (start_array len bits e) (start_array-Opens w len bits a.0 a.1 e v)
    run_call-IsValid (struct size version) e v a =
        forget_open w (start_struct size version e) (start_struct-Opens w size version a e v)
    run_call-IsValid map_block e v a = forget_open w (start_map e) (start_map-Opens w e v)
    run_call-IsValid nested_union e v a =
        forget_open w (start_nested_union e) (start_nested_union-Opens w e v)
    run_call-IsValid union_done e v a =
        forget_open w (finish_writing_union_value e) (finish_writing_union_value-writes w e v a)
    run_call-IsValid close e v a = finish-IsSafe w e v
    run_call-IsValid (union_header tag) e v a = write_union_header-IsSafe w tag e v
    run_call-IsValid (bool b) e v a = write_bool-IsSafe w b e v
    run_call-IsValid (uint8 n) e v a = write_uint8-IsSafe w n e v
    run_call-IsValid (uint16 n) e v a = write_uint16-IsSafe w n e v
    run_call-IsValid (uint32 n) e v a = write_uint32-IsSafe w n e v
    run_call-IsValid (uint64 n) e v a = write_uint64-IsSafe w n e v
    run_call-IsValid (int8 z) e v a = write_uint8-IsSafe w (to_unsigned (2 ^ 8) z) e v
    run_call-IsValid (int16 z) e v a = write_uint16-IsSafe w (to_unsigned (2 ^ 16) z) e v
    run_call-IsValid (int32 z) e v a = write_uint32-IsSafe w (to_unsigned (2 ^ 32) z) e v
    run_call-IsValid (int64 z) e v a = write_uint64-IsSafe w (to_unsigned (2 ^ 64) z) e v
    run_call-IsValid null_union e v a = write_null_union-IsSafe e v
    run_call-IsValid null_pointer e v a = write_uint64-IsSafe w 0 e v
    run_call-IsValid pointer e v a = write_pointer-IsSafe e v a
    run_call-IsValid (string b) e v a = write_string-IsSafe b a e v
    run_call-IsValid (handle x) e v a = write_handle-IsSafe x e v
    run_call-IsValid (interface x) e v a = write_interface-IsSafe x e v
    run_call-IsValid no_handle e v a = write_uint32-IsSafe w (to_unsigned (2 ^ 32) (negsuc 0)) e v
    run_call-IsValid no_interface e v a = write_invalid_interface-IsSafe e v
