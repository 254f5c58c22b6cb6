-- ===== src/Bindings/Decoder/Sound/Values.antt =====
-- Unions, strings, pointers and handles.
use fidl.Prelude.{
  ℕ, zero, suc, arith, false, List, [], ◌∷◌, ◌-◌, ◌^◌, ◌==◌, if◌then◌else◌, Bool-cases, inl, inr,
}
use fidl.Prelude.Go.{◌>>=◌, ◌>>◌, pure, Keeps, and_then-Keeps}
use fidl.Bindings.State.{EncodingState, unprocess}
use fidl.Bindings.Decoder.{
  Decoder, claim_handle, on_state, get_state, start_array, start_nested_union, read_union_header,
  finish_reading_union_value, skip_union_value, finish,
}
use fidl.Bindings.Decoder.Read.{read_uint8, read_uint32, read_bytes, read_string, follow_pointer}
use fidl.Bindings.Decoder.Sound.{
  IsSound, IsOpen, IsReading, over, ensure_eight, KeepsReading, Opens, KeepsReading-of_cons,
  KeepsReading-bind, bind_reading, IsOpened-of_reading,
}
use fidl.Bindings.Decoder.Sound.Words.{
  read_uint8-KeepsReading, read_uint32-KeepsReading, push_state-Opens, start_array-Opens,
}

pub start_nested_union-Opens : Opens start_nested_union
unfolding start_nested_union
start_nested_union-Opens = push_state-Opens (record { size = 24; elements_or_version = 0 }) false

read_union_header_cons :
    (d : Decoder) (s : EncodingState) (ss : List EncodingState)
    → IsReading (over d (s ∷ ss))
    → Keeps IsReading (read_union_header (over d (s ∷ ss)))
unfolding read_union_header
read_union_header_cons d s ss h = ground (arith, ensure_eight s h.1)

pub read_union_header-KeepsReading : KeepsReading read_union_header
read_union_header-KeepsReading = KeepsReading-of_cons read_union_header read_union_header_cons

-- Moving past a union does not check the position: the next check does.
finish_union_on :
    (d : Decoder) (st : List EncodingState)
    → IsSound (over d st)
    → IsOpen st
    → Keeps IsSound (finish_reading_union_value (over d st))
unfolding finish_reading_union_value
finish_union_on d [] h o = absurd o
finish_union_on d (s ∷ ss) h o = ground arith

pub finish_reading_union_value-IsSound :
    (d : Decoder) → IsSound d → IsOpen d.state_stack → Keeps IsSound (finish_reading_union_value d)
finish_reading_union_value-IsSound d h o = finish_union_on d d.state_stack h o

skip_union_on :
    (d : Decoder) (st : List EncodingState)
    → IsSound (over d st)
    → IsOpen st
    → Keeps IsSound (skip_union_value (over d st))
unfolding skip_union_value
skip_union_on d [] h o = absurd o
skip_union_on d (s ∷ ss) h o = ground arith

pub skip_union_value-IsSound :
    (d : Decoder) → IsSound d → IsOpen d.state_stack → Keeps IsSound (skip_union_value d)
skip_union_value-IsSound d h o = skip_union_on d d.state_stack h o

finish_on :
    (d : Decoder) (st : List EncodingState)
    → IsSound (over d st)
    → Keeps IsSound (finish (over d st))
unfolding finish
finish_on d [] h = h
finish_on d (s ∷ ss) h = ground arith

pub finish-IsSound : (d : Decoder) → IsSound d → Keeps IsSound (finish d)
finish-IsSound d h = finish_on d d.state_stack h

read_bytes-suc : (n : ℕ) → KeepsReading (read_bytes n) → KeepsReading (read_bytes (suc n))
unfolding read_bytes
read_bytes-suc n rest =
    KeepsReading-bind read_uint8 (λ b. read_bytes n >>= λ bs. pure (b ∷ bs)) read_uint8-KeepsReading
      (λ b. KeepsReading-bind (read_bytes n) (λ bs. pure (b ∷ bs)) rest (λ bs d h. h))

read_bytes-KeepsReading : (n : ℕ) → KeepsReading (read_bytes n)
read_bytes-KeepsReading zero = unfold read_bytes in λ d h. h
read_bytes-KeepsReading (suc n) = read_bytes-suc n (read_bytes-KeepsReading n)

pub read_string-IsSound : (d : Decoder) → IsSound d → Keeps IsSound (read_string d)
unfolding read_string
read_string-IsSound d h = bind_reading (start_array 8 d) _ (start_array-Opens 8 d h) (λ len e k.
    bind_reading (read_bytes len e) _
      (IsOpened-of_reading (read_bytes len e) (read_bytes-KeepsReading len e k))
      (λ bytes f l.
        and_then-Keeps IsSound (finish f) (λ _. pure bytes) (finish-IsSound f l.0) (λ _ g m. m)))

follow_pointer-KeepsReading : (p o : ℕ) → KeepsReading (follow_pointer p o)
unfolding follow_pointer
follow_pointer-KeepsReading p o d h = ground arith

get_state-KeepsReading : KeepsReading get_state
unfolding get_state
get_state-KeepsReading = KeepsReading-of_cons get_state (λ d s ss h. h)

pub pointer_rest-KeepsReading :
    (p : ℕ)
    → KeepsReading (if p == 0 then pure p else (get_state >>= λ s. follow_pointer p s.offset))
pointer_rest-KeepsReading p d h = elim (Bool-cases (p == 0)) [
  | inl z ↦ rw z h
  | inr nz ↦ rw nz (
      KeepsReading-bind get_state (λ s. follow_pointer p s.offset) get_state-KeepsReading
        (λ s. follow_pointer-KeepsReading p s.offset) d h)
]

claim_handle-KeepsReading : (i : ℕ) → KeepsReading (claim_handle i)
unfolding claim_handle
claim_handle-KeepsReading i d h = ground arith

pub handle_rest-KeepsReading :
    (i : ℕ) → KeepsReading (if i == 2 ^ 32 - 1 then pure 0 else claim_handle i)
handle_rest-KeepsReading i d h = ground (arith, claim_handle-KeepsReading i d h)

unprocess-KeepsReading : KeepsReading (on_state unprocess)
unfolding on_state unprocess
unprocess-KeepsReading = KeepsReading-of_cons (on_state unprocess) (λ d s ss h. ground arith)

pub interface_rest-KeepsReading :
    (x : ℕ) → KeepsReading (on_state unprocess >> (read_uint32 >>= λ v. pure x))
interface_rest-KeepsReading x =
    KeepsReading-bind (on_state unprocess) _ unprocess-KeepsReading
      (λ _. KeepsReading-bind read_uint32 _ read_uint32-KeepsReading (λ v d h. h))
