-- ===== src/Bindings/Encoder/Valid/Words.antt =====
-- Each method that writes one value keeps the invariant, on its normal and on its error return, and
-- does not panic.
use fidl.Prelude.{
  ℕ, ◌+◌, ◌%◌, ◌^◌, arith, Bool, List, [], ◌∷◌, ◌++◌, length-set, get_or-set_ne, bit_or, get_or,
  Bool-cases, inl, inr,
}
use fidl.Prelude.Bytes.{Bytes, length-put_le, get_or-put_le}
use fidl.Prelude.Int.{negsuc, to_unsigned}
use fidl.Prelude.Go.{Keeps, ◌>>◌}
use fidl.Bindings.Util.{align}
use fidl.Bindings.Util.Laws.{align_two, align_four, align_eight}
use fidl.Bindings.State.{EncodingState, ensure, unprocess, align_offset_to_bytes, align_offset}
use fidl.Bindings.Encoder.{Encoder, on_state}
use fidl.Bindings.Encoder.Valid.{
  Watch, IsValid, ensure_room, IsWriting, over, KeepsWriting, IsSafe, KeepsWriting-of_cons,
  KeepsWriting-bind, IsSafe-of_writing,
}
use fidl.Bindings.Encoder.Write.{
  write_bool, write_uint8, write_uint16, write_uint32, write_int32, write_uint64, write_null_union,
  write_bytes, write_pointer, write_invalid_handle, write_handle, write_invalid_interface,
  write_interface,
}

module _ (w : Watch) where
  module _ (e : Encoder) (s : EncodingState) (ss : List EncodingState)
      (h : IsValid w (over e (s ∷ ss))) where
    write_uint16_cons : (v : ℕ) → Keeps (IsWriting w) (write_uint16 v (over e (s ∷ ss)))
    unfolding write_uint16
    write_uint16_cons v = ground (
      arith,
      ensure_room s 16 h.states_inside.0.bits_in (omega arith),
      align_two s.offset,
      align_two (s.offset + 1),
      length-put_le 2 (align s.offset 2) v e.buf,
      get_or-put_le 2 (align s.offset 2) v e.buf w.index,
      length-put_le 2 (align (s.offset + 1) 2) v e.buf,
      get_or-put_le 2 (align (s.offset + 1) 2) v e.buf w.index,
    )

    write_uint32_cons : (v : ℕ) → Keeps (IsWriting w) (write_uint32 v (over e (s ∷ ss)))
    unfolding write_uint32
    write_uint32_cons v = ground (
      arith,
      ensure_room s 32 h.states_inside.0.bits_in (omega arith),
      align_four s.offset,
      align_four (s.offset + 1),
      length-put_le 4 (align s.offset 4) v e.buf,
      get_or-put_le 4 (align s.offset 4) v e.buf w.index,
      length-put_le 4 (align (s.offset + 1) 4) v e.buf,
      get_or-put_le 4 (align (s.offset + 1) 4) v e.buf w.index,
    )

    write_uint64_cons : (v : ℕ) → Keeps (IsWriting w) (write_uint64 v (over e (s ∷ ss)))
    unfolding write_uint64
    write_uint64_cons v = ground (
      arith,
      ensure_room s 64 h.states_inside.0.bits_in (omega arith),
      align_eight s.offset,
      align_eight (s.offset + 1),
      length-put_le 8 (align s.offset 8) v e.buf,
      get_or-put_le 8 (align s.offset 8) v e.buf w.index,
      length-put_le 8 (align (s.offset + 1) 8) v e.buf,
      get_or-put_le 8 (align (s.offset + 1) 8) v e.buf w.index,
    )

    write_uint8_cons : (v : ℕ) → Keeps (IsWriting w) (write_uint8 v (over e (s ∷ ss)))
    unfolding write_uint8
    write_uint8_cons v = ground (
      arith,
      ensure_room s 8 h.states_inside.0.bits_in (omega arith),
      length-put_le 1 s.offset v e.buf,
      get_or-put_le 1 s.offset v e.buf w.index,
      length-put_le 1 (s.offset + 1) v e.buf,
      get_or-put_le 1 (s.offset + 1) v e.buf w.index,
    )

    write_bool_cons : (v : Bool) → Keeps (IsWriting w) (write_bool v (over e (s ∷ ss)))
    unfolding write_bool
    write_bool_cons v = ground (
      arith,
      ensure_room s 1 h.states_inside.0.bits_in (omega arith),
      length-set e.buf s.offset (bit_or (get_or e.buf s.offset 0) (2 ^ s.bit_offset % 256)),
      get_or-set_ne e.buf s.offset w.index
          (bit_or (get_or e.buf s.offset 0) (2 ^ s.bit_offset % 256)) 0,
    )

  pub write_bool-KeepsWriting : (v : Bool) → KeepsWriting w (write_bool v)
  write_bool-KeepsWriting v =
      KeepsWriting-of_cons w (write_bool v) (λ e s ss h. write_bool_cons e s ss h v)

  pub write_bool-IsSafe : (v : Bool) → IsSafe w (write_bool v)
  write_bool-IsSafe v =
      IsSafe-of_writing w (write_bool v) (write_bool-KeepsWriting v)
        (unfold write_bool ensure in λ e h. h)

  pub write_uint8-KeepsWriting : (v : ℕ) → KeepsWriting w (write_uint8 v)
  write_uint8-KeepsWriting v =
      KeepsWriting-of_cons w (write_uint8 v) (λ e s ss h. write_uint8_cons e s ss h v)

  pub write_uint8-IsSafe : (v : ℕ) → IsSafe w (write_uint8 v)
  write_uint8-IsSafe v =
      IsSafe-of_writing w (write_uint8 v) (write_uint8-KeepsWriting v)
        (unfold write_uint8 ensure in λ e h. h)

  pub write_uint16-KeepsWriting : (v : ℕ) → KeepsWriting w (write_uint16 v)
  write_uint16-KeepsWriting v =
      KeepsWriting-of_cons w (write_uint16 v) (λ e s ss h. write_uint16_cons e s ss h v)

  pub write_uint16-IsSafe : (v : ℕ) → IsSafe w (write_uint16 v)
  write_uint16-IsSafe v =
      IsSafe-of_writing w (write_uint16 v) (write_uint16-KeepsWriting v)
        (unfold write_uint16 ensure in λ e h. h)

  pub write_uint32-KeepsWriting : (v : ℕ) → KeepsWriting w (write_uint32 v)
  write_uint32-KeepsWriting v =
      KeepsWriting-of_cons w (write_uint32 v) (λ e s ss h. write_uint32_cons e s ss h v)

  pub write_uint32-IsSafe : (v : ℕ) → IsSafe w (write_uint32 v)
  write_uint32-IsSafe v =
      IsSafe-of_writing w (write_uint32 v) (write_uint32-KeepsWriting v)
        (unfold write_uint32 ensure in λ e h. h)

  pub write_uint64-KeepsWriting : (v : ℕ) → KeepsWriting w (write_uint64 v)
  write_uint64-KeepsWriting v =
      KeepsWriting-of_cons w (write_uint64 v) (λ e s ss h. write_uint64_cons e s ss h v)

  pub write_uint64-IsSafe : (v : ℕ) → IsSafe w (write_uint64 v)
  write_uint64-IsSafe v =
      IsSafe-of_writing w (write_uint64 v) (write_uint64-KeepsWriting v)
        (unfold write_uint64 ensure in λ e h. h)

  unprocess-KeepsWriting : KeepsWriting w (on_state unprocess)
  unfolding on_state unprocess
  unprocess-KeepsWriting = KeepsWriting-of_cons w (on_state unprocess) (λ e s ss h. ground arith)

  pub write_null_union-KeepsWriting : KeepsWriting w write_null_union
  write_null_union-KeepsWriting =
      unfold write_null_union in
      KeepsWriting-bind w (write_uint64 0) (λ _. on_state unprocess >> write_uint64 0)
        (write_uint64-KeepsWriting 0)
        (λ _.
          KeepsWriting-bind w (on_state unprocess) (λ _. write_uint64 0) unprocess-KeepsWriting
            (λ _. write_uint64-KeepsWriting 0))

  write_bytes_cons :
      (b : ℕ) (bs : Bytes) → KeepsWriting w (write_bytes bs) → KeepsWriting w (write_bytes (b ∷ bs))
  unfolding write_bytes
  write_bytes_cons b bs rest =
      KeepsWriting-bind w (write_uint8 b) (λ _. write_bytes bs) (write_uint8-KeepsWriting b)
        (λ _. rest)

  pub write_bytes-KeepsWriting : (bs : Bytes) → KeepsWriting w (write_bytes bs)
  write_bytes-KeepsWriting [] = unfold write_bytes in λ e h. h
  write_bytes-KeepsWriting (b ∷ bs) = write_bytes_cons b bs (write_bytes-KeepsWriting bs)

  -- the handle is kept before the word is written
  add_handle :
      (x : ℕ) (e : Encoder)
      → IsWriting w e
      → IsWriting w (record e { handles = e.handles ++ (x ∷ []) })
  add_handle x e (v, o) = (ground arith, o)

  pub write_handle-KeepsWriting :
      (is_valid : ℕ → Bool) (x : ℕ) → KeepsWriting w (write_handle is_valid x)
  write_handle-KeepsWriting is_valid x e h = elim (Bool-cases (is_valid x)) [
    | inl p ↦ unfold write_handle in rw p (write_uint32-KeepsWriting _ _ (add_handle x e h))
    | inr p ↦ unfold write_handle in rw p h
  ]

  pub write_interface-KeepsWriting :
      (is_valid : ℕ → Bool) (x : ℕ) → KeepsWriting w (write_interface is_valid x)
  write_interface-KeepsWriting is_valid x =
      unfold write_interface in
      KeepsWriting-bind w (write_handle is_valid x) (λ _. on_state unprocess >> write_uint32 0)
        (write_handle-KeepsWriting is_valid x)
        (λ _.
          KeepsWriting-bind w (on_state unprocess) (λ _. write_uint32 0) unprocess-KeepsWriting
            (λ _. write_uint32-KeepsWriting 0))

  pub write_invalid_handle-KeepsWriting : KeepsWriting w write_invalid_handle
  unfolding write_invalid_handle write_int32
  write_invalid_handle-KeepsWriting = write_uint32-KeepsWriting (to_unsigned (2 ^ 32) (negsuc 0))

  pub write_invalid_interface-KeepsWriting : KeepsWriting w write_invalid_interface
  write_invalid_interface-KeepsWriting =
      unfold write_invalid_interface in
      KeepsWriting-bind w write_invalid_handle (λ _. on_state unprocess >> write_uint32 0)
        write_invalid_handle-KeepsWriting
        (λ _.
          KeepsWriting-bind w (on_state unprocess) (λ _. write_uint32 0) unprocess-KeepsWriting
            (λ _. write_uint32-KeepsWriting 0))

  align_state-IsValid :
      (e : Encoder) (s : EncodingState) (ss : List EncodingState)
      → IsValid w (over e (s ∷ ss))
      → IsValid w (over e (align_offset 8 (align_offset_to_bytes s) ∷ ss))
  unfolding align_offset_to_bytes align_offset
  align_state-IsValid e s ss h = ground (arith, align_eight s.offset, align_eight (s.offset + 1))

  pub write_pointer-KeepsWriting : KeepsWriting w write_pointer
  unfolding write_pointer
  write_pointer-KeepsWriting =
      KeepsWriting-of_cons w write_pointer
        (λ e s ss h. write_uint64-KeepsWriting _ _ (align_state-IsValid e s ss h, tt))
