-- ===== src/Bindings/Decoder/Sound/AfterBool.antt =====
-- Words that are read after a bool, from the middle of a byte.
use fidl.Prelude.{
  ℕ, ◌+◌, ◌*◌, ◌≤◌, ◌<◌, ◌≡◌, arith, List, [], ◌∷◌, some, none, length, ◌==◌, Bool-cases, ==→eq,
  inl, inr,
}
use fidl.Prelude.Bytes.{Bytes}
use fidl.Prelude.Go.{Outcome, ok, err, panic, and_then, Keeps}
use fidl.Bindings.Util.{align, bytes_for_bits, BindError}
use fidl.Bindings.Util.Laws.{align_two}
use fidl.Bindings.State.{EncodingState, ensure}
use fidl.Bindings.Decoder.{Decoder, DecoderM, read_union_header}
use fidl.Bindings.Decoder.Read.{
  read_uint8, read_uint16, read_uint32, read_uint64, read_pointer, read_untyped_handle,
  read_channel_handle, read_interface,
}
use fidl.Bindings.Decoder.Sound.{IsSound, IsReading, over, ensure_limit}
use fidl.Bindings.Decoder.Sound.Words.{
  read_uint8-KeepsReading, read_uint16-KeepsReading, read_uint32-KeepsReading,
  read_uint64-KeepsReading,
}
use fidl.Bindings.Decoder.Sound.Values.{
  read_union_header-KeepsReading, pointer_rest-KeepsReading, handle_rest-KeepsReading,
  interface_rest-KeepsReading,
}

-- A word of `n` bytes that is read in the middle of a byte, that passes the check, and that ends outside the
-- slice.
abbrev pub Overruns : ℕ → Bytes → List EncodingState → Type 0
Overruns n buf [] = ⊥
Overruns n buf (s ∷ ss) =
    (0 < s.bit_offset)
    × (ensure (some s) (8 * n) ≡ none)
    × (length buf < align (s.offset + 1) n + n)

-- A byte boundary on the normal return, soundness on the error return, and `R` if there is a panic.
abbrev pub OpensOr : Type 0 → {A : Type 0} → Outcome BindError Decoder A → Type 0
OpensOr R (ok a d) = IsReading d
OpensOr R (err x d) = IsSound d
OpensOr R panic = R

-- Soundness, and `R` if there is a panic.
abbrev pub KeepsOr : Type 0 → {A : Type 0} → Outcome BindError Decoder A → Type 0
KeepsOr R (ok a d) = IsSound d
KeepsOr R (err x d) = IsSound d
KeepsOr R panic = R

pub OpensOr-of_reading :
    (R : Type 0) {A : Type 0} (o : Outcome BindError Decoder A) → Keeps IsReading o → OpensOr R o
OpensOr-of_reading R (ok a d) h = h
OpensOr-of_reading R (err x d) h = h.0
OpensOr-of_reading R panic h = absurd h

pub KeepsOr-of_OpensOr :
    (R : Type 0) {A : Type 0} (o : Outcome BindError Decoder A) → OpensOr R o → KeepsOr R o
KeepsOr-of_OpensOr R (ok a d) h = h.0
KeepsOr-of_OpensOr R (err x d) h = h
KeepsOr-of_OpensOr R panic h = h

pub KeepsOr-of_Keeps :
    (R : Type 0) {A : Type 0} (o : Outcome BindError Decoder A) → Keeps IsSound o → KeepsOr R o
KeepsOr-of_Keeps R (ok a d) h = h
KeepsOr-of_Keeps R (err x d) h = h
KeepsOr-of_Keeps R panic h = absurd h

-- After a word, methods that keep to byte boundaries.
pub bind-OpensOr :
    (R : Type 0) {A B : Type 0} (o : Outcome BindError Decoder A) (f : A → DecoderM B)
    → OpensOr R o
    → ((a : A) (d : Decoder) → IsReading d → Keeps IsReading (f a d))
    → OpensOr R (and_then o f)
bind-OpensOr R (ok a d) f h k = OpensOr-of_reading R (f a d) (k a d h)
bind-OpensOr R (err x d) f h k = h
bind-OpensOr R panic f h k = h

-- A method that reads a word of `n` bytes first.
abbrev pub ReadsWord : ℕ → {A : Type 0} → DecoderM A → Type 0
ReadsWord n m = (d : Decoder) → IsSound d → OpensOr (Overruns n d.buf d.state_stack) (m d)

at_position :
    {A : Type 0} (R : Type 0) (m : DecoderM A) (d : Decoder) (s : EncodingState)
    (ss : List EncodingState)
    → IsSound (over d (s ∷ ss))
    → (IsReading (over d (s ∷ ss)) → Keeps IsReading (m (over d (s ∷ ss))))
    → (0 < s.bit_offset → OpensOr R (m (over d (s ∷ ss))))
    → OpensOr R (m (over d (s ∷ ss)))
at_position R m d s ss h byte inside = elim (Bool-cases (s.bit_offset == 0)) [
  | inl e ↦ OpensOr-of_reading R (m (over d (s ∷ ss))) (byte (h, ==→eq s.bit_offset 0 e))
  | inr e ↦ inside (ground (arith, e))
]

uint16_on :
    (d : Decoder) (st : List EncodingState)
    → IsSound (over d st)
    → OpensOr (Overruns 2 d.buf st) (read_uint16 (over d st))
unfolding read_uint16
uint16_on d [] h = unfold ensure in h
uint16_on d (s ∷ ss) h =
    at_position (Overruns 2 d.buf (s ∷ ss)) read_uint16 d s ss h
      (read_uint16-KeepsReading (over d (s ∷ ss))) (λ b. ground (arith, b))

pub read_uint16-ReadsWord : ReadsWord 2 read_uint16
read_uint16-ReadsWord d h = uint16_on d d.state_stack h

uint32_on :
    (d : Decoder) (st : List EncodingState)
    → IsSound (over d st)
    → OpensOr (Overruns 4 d.buf st) (read_uint32 (over d st))
unfolding read_uint32
uint32_on d [] h = unfold ensure in h
uint32_on d (s ∷ ss) h =
    at_position (Overruns 4 d.buf (s ∷ ss)) read_uint32 d s ss h
      (read_uint32-KeepsReading (over d (s ∷ ss))) (λ b. ground (arith, b))

pub read_uint32-ReadsWord : ReadsWord 4 read_uint32
read_uint32-ReadsWord d h = uint32_on d d.state_stack h

uint64_on :
    (d : Decoder) (st : List EncodingState)
    → IsSound (over d st)
    → OpensOr (Overruns 8 d.buf st) (read_uint64 (over d st))
unfolding read_uint64
uint64_on d [] h = unfold ensure in h
uint64_on d (s ∷ ss) h =
    at_position (Overruns 8 d.buf (s ∷ ss)) read_uint64 d s ss h
      (read_uint64-KeepsReading (over d (s ∷ ss))) (λ b. ground (arith, b))

pub read_uint64-ReadsWord : ReadsWord 8 read_uint64
read_uint64-ReadsWord d h = uint64_on d d.state_stack h

header_on :
    (d : Decoder) (st : List EncodingState)
    → IsSound (over d st)
    → OpensOr (Overruns 8 d.buf st) (read_union_header (over d st))
unfolding read_union_header
header_on d [] h = unfold ensure in h
header_on d (s ∷ ss) h =
    at_position (Overruns 8 d.buf (s ∷ ss)) read_union_header d s ss h
      (read_union_header-KeepsReading (over d (s ∷ ss))) (λ b. ground (arith, b))

pub read_union_header-ReadsWord : ReadsWord 8 read_union_header
read_union_header-ReadsWord d h = header_on d d.state_stack h

-- The check leaves room for a byte wherever it is.
room_for_byte :
    (s : EncodingState)
    → 0 < s.bit_offset
    → s.bit_offset < 8
    → ensure (some s) 8 ≡ none
    → s.offset + 2 ≤ s.limit
unfolding bytes_for_bits
room_for_byte s b k h = omega (arith, ensure_limit s 8 2 (omega arith) h, align_two (s.offset + 2))

uint8_on :
    (d : Decoder) (st : List EncodingState)
    → IsSound (over d st)
    → OpensOr ⊥ (read_uint8 (over d st))
unfolding read_uint8
uint8_on d [] h = unfold ensure in h
uint8_on d (s ∷ ss) h =
    at_position ⊥ read_uint8 d s ss h (read_uint8-KeepsReading (over d (s ∷ ss)))
      (λ b. ground (arith, b, room_for_byte s b h.states_inside.0.bits_in))

pub read_uint8-OpensOr : (d : Decoder) → IsSound d → OpensOr ⊥ (read_uint8 d)
read_uint8-OpensOr d h = uint8_on d d.state_stack h

pub read_pointer-ReadsWord : ReadsWord 8 read_pointer
unfolding read_pointer
read_pointer-ReadsWord d h =
    bind-OpensOr (Overruns 8 d.buf d.state_stack) (read_uint64 d) _ (read_uint64-ReadsWord d h)
      pointer_rest-KeepsReading

pub read_untyped_handle-ReadsWord : ReadsWord 4 read_untyped_handle
unfolding read_untyped_handle
read_untyped_handle-ReadsWord d h =
    bind-OpensOr (Overruns 4 d.buf d.state_stack) (read_uint32 d) _ (read_uint32-ReadsWord d h)
      handle_rest-KeepsReading

pub read_interface-ReadsWord : ReadsWord 4 read_interface
unfolding read_interface read_channel_handle
read_interface-ReadsWord d h =
    bind-OpensOr (Overruns 4 d.buf d.state_stack) (read_untyped_handle d) _
      (read_untyped_handle-ReadsWord d h) interface_rest-KeepsReading

-- Such a word is a run-time panic.
uint16_panics :
    (d : Decoder) (st : List EncodingState) → Overruns 2 d.buf st → read_uint16 (over d st) ≡ panic
unfolding read_uint16
uint16_panics d [] h = absurd h
uint16_panics d (s ∷ ss) h = ground (arith, h)

pub read_uint16-panics : (d : Decoder) → Overruns 2 d.buf d.state_stack → read_uint16 d ≡ panic
read_uint16-panics d h = uint16_panics d d.state_stack h

uint32_panics :
    (d : Decoder) (st : List EncodingState) → Overruns 4 d.buf st → read_uint32 (over d st) ≡ panic
unfolding read_uint32
uint32_panics d [] h = absurd h
uint32_panics d (s ∷ ss) h = ground (arith, h)

pub read_uint32-panics : (d : Decoder) → Overruns 4 d.buf d.state_stack → read_uint32 d ≡ panic
read_uint32-panics d h = uint32_panics d d.state_stack h

uint64_panics :
    (d : Decoder) (st : List EncodingState) → Overruns 8 d.buf st → read_uint64 (over d st) ≡ panic
unfolding read_uint64
uint64_panics d [] h = absurd h
uint64_panics d (s ∷ ss) h = ground (arith, h)

pub read_uint64-panics : (d : Decoder) → Overruns 8 d.buf d.state_stack → read_uint64 d ≡ panic
read_uint64-panics d h = uint64_panics d d.state_stack h

union_header_panics :
    (d : Decoder) (st : List EncodingState)
    → Overruns 8 d.buf st
    → read_union_header (over d st) ≡ panic
unfolding read_union_header
union_header_panics d [] h = absurd h
union_header_panics d (s ∷ ss) h = ground (arith, h)

pub read_union_header-panics :
    (d : Decoder) → Overruns 8 d.buf d.state_stack → read_union_header d ≡ panic
read_union_header-panics d h = union_header_panics d d.state_stack h
