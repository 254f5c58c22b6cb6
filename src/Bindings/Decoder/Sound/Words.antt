-- ===== src/Bindings/Decoder/Sound/Words.antt =====
-- Each method that reads one value, and those that open and close blocks.
use fidl.Prelude.{ℕ, arith, Bool, true, false, List, [], ◌∷◌}
use fidl.Prelude.Go.{Keeps}
use fidl.Bindings.Util.{DataHeader}
use fidl.Bindings.Util.Laws.{align_one}
use fidl.Bindings.State.{EncodingState, ensure}
use fidl.Bindings.Decoder.{
  Decoder, push_state, read_data_header, start_array, start_map, start_struct,
}
use fidl.Bindings.Decoder.Read.{read_bool, read_uint8, read_uint16, read_uint32, read_uint64}
use fidl.Bindings.Decoder.Sound.{
  IsSound, IsReading, over, ensure_one, ensure_two, ensure_four, ensure_eight, ensure_bit,
  KeepsReading, Opens, KeepsReading-of_cons, bind_sound,
}

read_uint8_cons :
    (d : Decoder) (s : EncodingState) (ss : List EncodingState)
    → IsReading (over d (s ∷ ss))
    → Keeps IsReading (read_uint8 (over d (s ∷ ss)))
unfolding read_uint8
read_uint8_cons d s ss h = ground (arith, ensure_one s h.1, align_one s.offset)

pub read_uint8-KeepsReading : KeepsReading read_uint8
read_uint8-KeepsReading = KeepsReading-of_cons read_uint8 read_uint8_cons

read_uint16_cons :
    (d : Decoder) (s : EncodingState) (ss : List EncodingState)
    → IsReading (over d (s ∷ ss))
    → Keeps IsReading (read_uint16 (over d (s ∷ ss)))
unfolding read_uint16
read_uint16_cons d s ss h = ground (arith, ensure_two s h.1)

pub read_uint16-KeepsReading : KeepsReading read_uint16
read_uint16-KeepsReading = KeepsReading-of_cons read_uint16 read_uint16_cons

read_uint32_cons :
    (d : Decoder) (s : EncodingState) (ss : List EncodingState)
    → IsReading (over d (s ∷ ss))
    → Keeps IsReading (read_uint32 (over d (s ∷ ss)))
unfolding read_uint32
read_uint32_cons d s ss h = ground (arith, ensure_four s h.1)

pub read_uint32-KeepsReading : KeepsReading read_uint32
read_uint32-KeepsReading = KeepsReading-of_cons read_uint32 read_uint32_cons

read_uint64_cons :
    (d : Decoder) (s : EncodingState) (ss : List EncodingState)
    → IsReading (over d (s ∷ ss))
    → Keeps IsReading (read_uint64 (over d (s ∷ ss)))
unfolding read_uint64
read_uint64_cons d s ss h = ground (arith, ensure_eight s h.1)

pub read_uint64-KeepsReading : KeepsReading read_uint64
read_uint64-KeepsReading = KeepsReading-of_cons read_uint64 read_uint64_cons

read_bool_cons :
    (d : Decoder) (s : EncodingState) (ss : List EncodingState)
    → IsSound (over d (s ∷ ss))
    → Keeps IsSound (read_bool (over d (s ∷ ss)))
unfolding read_bool
read_bool_cons d s ss h = ground (arith, ensure_bit s h.states_inside.0.bits_in)

read_bool_on :
    (d : Decoder) (st : List EncodingState)
    → IsSound (over d st)
    → Keeps IsSound (read_bool (over d st))
unfolding read_bool ensure
read_bool_on d [] h = h
read_bool_on d (s ∷ ss) h = read_bool_cons d s ss h

pub read_bool-IsSound : (d : Decoder) → IsSound d → Keeps IsSound (read_bool d)
read_bool-IsSound d h = read_bool_on d d.state_stack h

pub push_state-Opens : (header : DataHeader) (b : Bool) → Opens (push_state header b)
unfolding push_state
push_state-Opens header b d h = ground arith

read_data_header-IsSound : (d : Decoder) → IsSound d → Keeps IsSound (read_data_header d)
unfolding read_data_header
read_data_header-IsSound d h = ground arith

pub start_array-Opens : (bits : ℕ) → Opens (start_array bits)
unfolding start_array
start_array-Opens bits d h =
    bind_sound (read_data_header d) _ (read_data_header-IsSound d h)
      (λ header e k. ground (arith, push_state-Opens header true e k))

pub start_map-Opens : Opens start_map
unfolding start_map
start_map-Opens d h =
    bind_sound (read_data_header d) _ (read_data_header-IsSound d h)
      (λ header e k. ground (arith, push_state-Opens header false e k))

pub start_struct-Opens : Opens start_struct
unfolding start_struct
start_struct-Opens d h =
    bind_sound (read_data_header d) _ (read_data_header-IsSound d h)
      (λ header e k. ground (arith, push_state-Opens header false e k))
