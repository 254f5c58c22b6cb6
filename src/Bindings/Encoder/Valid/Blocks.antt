-- ===== src/Bindings/Encoder/Valid/Blocks.antt =====
-- The methods that open and close blocks keep the encoder's invariant.
use fidl.Prelude.{
  ℕ, ◌+◌, ◌-◌, ◌*◌, ◌/◌, ◌%◌, ◌^◌, ◌≤◌, ◌<◌, ◌≡◌, refl, arith, Bool, true, false, List, [], ◌∷◌,
  length, replicate, length-append, length-replicate, get_or, get_or-append_replicate, All, ◌⊎◌,
}
use fidl.Prelude.Bytes.{put_le, length-put_le, get_or-put_le}
use fidl.Prelude.Go.{Keeps}
use fidl.Bindings.Util.{align, DataHeader, map_header}
use fidl.Bindings.Util.Laws.{align_eight, bytes_for_bits_lem}
use fidl.Bindings.State.{EncodingState, ensure}
use fidl.Bindings.Encoder.{
  Encoder, EncoderM, claim_data, push_state, write_data_header, start_array, start_map,
  start_struct, start_nested_union, write_union_header, finish_writing_union_value, finish, data_of,
}
use fidl.Bindings.Encoder.Valid.{
  Watch, IsInside, IsValid, ensure_room, IsWriting, over, KeepsWriting, IsSafe,
  KeepsWriting-of_cons, IsSafe-of_writing, IsInside-mono,
}

-- The top of the stack is at a byte boundary, or holds bits from a multiple of 8 bytes on.
abbrev pub AtUnionValue : List EncodingState → Type 0
AtUnionValue [] = ⊥
AtUnionValue (s ∷ ss) = (s.bit_offset ≡ 0) ⊎ (s.offset % 8 ≡ 0)

module _ (w : Watch) where
  -- A claim moves `end` by the size of the block, and the buffer covers it.
  claim_data_lem :
      (n : ℕ) (e : Encoder)
      → (claim_data n e).end ≡ e.end + n
        × (claim_data n e).end ≤ length (claim_data n e).buf
        × (claim_data n e).state_stack ≡ e.state_stack
        × get_or (claim_data n e).buf w.index 0 ≡ get_or e.buf w.index 0
  unfolding claim_data
  claim_data_lem n e = ground (
    arith,
    length-append e.buf (replicate (e.end + n - length e.buf) 0),
    length-replicate {A = ℕ} (e.end + n - length e.buf) 0,
    get_or-append_replicate e.buf (e.end + n - length e.buf) w.index 0,
    get_or-append_replicate e.buf (2 * length e.buf - length e.buf) w.index 0,
    length-append e.buf (replicate (2 * length e.buf - length e.buf) 0),
    length-replicate {A = ℕ} (2 * length e.buf - length e.buf) 0,
  )

  pub push_state-IsWriting :
      (header : DataHeader) (b : Bool) (e : Encoder)
      → IsValid w e
      → IsWriting w (push_state header b e)
  push_state-IsWriting header b e v =
      let n = align header.size 8 in
      let c = claim_data_lem n e in
      let outer : All (IsInside w (claim_data n e).end) (claim_data n e).state_stack = rw (c.2) (
        IsInside-mono w e.end (claim_data n e).end e.state_stack (omega (arith, c.0))
          v.states_inside) in
      unfold push_state in ground (arith, c, outer, v.end_aligned, align_eight header.size)

  write_data_header_cons :
      (header : DataHeader) (e : Encoder) (s : EncodingState) (ss : List EncodingState)
      → IsValid w (over e (s ∷ ss))
      → s.offset + 8 ≤ s.limit
      → s.bit_offset ≡ 0
      → Keeps (IsWriting w) (write_data_header header (over e (s ∷ ss)))
  unfolding write_data_header
  write_data_header_cons header e s ss h room start = ground (
    arith,
    length-put_le 4 s.offset header.size e.buf,
    get_or-put_le 4 s.offset header.size e.buf w.index,
    length-put_le 4 (s.offset + 4) header.elements_or_version (put_le 4 s.offset header.size e.buf),
    get_or-put_le 4 (s.offset + 4) header.elements_or_version (put_le 4 s.offset header.size e.buf)
        w.index,
  )

  -- A header has room in the block that was claimed for it.
  write_data_header-push_state :
      (header : DataHeader) (b : Bool) (e : Encoder)
      → IsValid w e
      → 0 < header.size
      → Keeps (IsWriting w) (write_data_header header (push_state header b e))
  write_data_header-push_state header b e v h =
      let valid = push_state-IsWriting header b e v in
      let c = claim_data_lem (align header.size 8) e in
      unfold push_state in
      write_data_header_cons header (claim_data (align header.size 8) e) _ _
        (unfold push_state in valid.0) (omega (arith, c.0, align_eight header.size)) refl

  abbrev pub Opens : {A : Type 0} → EncoderM A → Type 0
  Opens m = (e : Encoder) → IsValid w e → Keeps (IsWriting w) (m e)

  pub start_array-Opens :
      (len bits : ℕ)
      → len * bits < 2 ^ 64 - 7
      → 8 + (len * bits + 7) / 8 < 2 ^ 32
      → Opens (start_array len bits)
  start_array-Opens len bits h k e v =
      unfold start_array in
      write_data_header-push_state _ true e v
        (omega (arith, bytes_for_bits_lem (len * bits % 2 ^ 64)))

  pub start_map-Opens : Opens start_map
  unfolding start_map
  start_map-Opens e v = write_data_header-push_state map_header false e v (omega arith)

  pub start_struct-Opens :
      (size version : ℕ) → 8 + size < 2 ^ 32 → Opens (start_struct size version)
  start_struct-Opens size version h e v =
      unfold start_struct in write_data_header-push_state _ false e v (omega arith)

  pub start_nested_union-Opens : Opens start_nested_union
  unfolding start_nested_union
  start_nested_union-Opens e v =
      push_state-IsWriting (record { size = 16; elements_or_version = 0 }) false e v

  write_union_header_cons :
      (tag : ℕ) (e : Encoder) (s : EncodingState) (ss : List EncodingState)
      → IsValid w (over e (s ∷ ss))
      → Keeps (IsWriting w) (write_union_header tag (over e (s ∷ ss)))
  unfolding write_union_header
  write_union_header_cons tag e s ss h =
      let o = align s.offset 8 in
      let p = align (s.offset + 1) 8 in
      ground (
        arith,
        ensure_room s 64 h.states_inside.0.bits_in (omega arith),
        align_eight s.offset,
        align_eight (s.offset + 1),
        length-put_le 4 o 16 e.buf,
        get_or-put_le 4 o 16 e.buf w.index,
        length-put_le 4 p 16 e.buf,
        get_or-put_le 4 p 16 e.buf w.index,
        length-put_le 4 (o + 4) tag (put_le 4 o 16 e.buf),
        get_or-put_le 4 (o + 4) tag (put_le 4 o 16 e.buf) w.index,
        length-put_le 4 (p + 4) tag (put_le 4 p 16 e.buf),
        get_or-put_le 4 (p + 4) tag (put_le 4 p 16 e.buf) w.index,
      )

  pub write_union_header-KeepsWriting : (tag : ℕ) → KeepsWriting w (write_union_header tag)
  write_union_header-KeepsWriting tag =
      KeepsWriting-of_cons w (write_union_header tag) (write_union_header_cons tag)

  pub write_union_header-IsSafe : (tag : ℕ) → IsSafe w (write_union_header tag)
  write_union_header-IsSafe tag =
      IsSafe-of_writing w (write_union_header tag) (write_union_header-KeepsWriting tag)
        (unfold write_union_header ensure in λ e h. h)

  finish_union_on :
      (e : Encoder) (st : List EncodingState)
      → IsValid w (over e st)
      → AtUnionValue st
      → Keeps (IsWriting w) (finish_writing_union_value (over e st))
  unfolding finish_writing_union_value
  finish_union_on e [] h a = absurd a
  finish_union_on e (s ∷ ss) h a = ground (arith, align_eight s.offset)

  pub finish_writing_union_value-writes :
      (e : Encoder)
      → IsValid w e
      → AtUnionValue e.state_stack
      → Keeps (IsWriting w) (finish_writing_union_value e)
  finish_writing_union_value-writes e h a = finish_union_on e e.state_stack h a

  finish_on :
      (e : Encoder) (st : List EncodingState)
      → IsValid w (over e st)
      → Keeps (IsValid w) (finish (over e st))
  unfolding finish
  finish_on e [] h = h
  finish_on e (s ∷ ss) h = ground arith

  pub finish-IsSafe : IsSafe w finish
  finish-IsSafe e h = finish_on e e.state_stack h

  data_of_on :
      (e : Encoder) (st : List EncodingState)
      → IsValid w (over e st)
      → Keeps (IsValid w) (data_of (over e st))
  unfolding data_of
  data_of_on e [] h = ground arith
  data_of_on e (s ∷ ss) h = h

  pub data_of-IsSafe : IsSafe w data_of
  data_of-IsSafe e h = data_of_on e e.state_stack h
