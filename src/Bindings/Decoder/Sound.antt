-- ===== src/Bindings/Decoder/Sound.antt =====
-- The decoder on any input: what keeps its reads inside the slice.
pub mod Words
pub mod Values
pub mod AfterBool
pub mod Calls
use fidl.Prelude.{
  ℕ, ◌+◌, ◌*◌, ◌/◌, ◌%◌, ◌^◌, ◌≤◌, ◌<◌, ◌≡◌, arith, List, [], ◌∷◌, some, none, length, All,
}
use fidl.Prelude.Go.{Outcome, ok, err, panic, ◌>>=◌, and_then, Keeps, and_then-Keeps}
use fidl.Bindings.Util.{align, bytes_for_bits, BindError}
use fidl.Bindings.Util.Laws.{align_one, align_two, align_four, align_eight}
use fidl.Bindings.State.{EncodingState, ensure}
use fidl.Bindings.Decoder.{Decoder, DecoderM}

-- Every block ends inside the slice, which has `n` bytes.
pub record IsInside (n : ℕ) (s : EncodingState) : Type 0 where
  pub limit_in : s.limit ≤ n
  pub bits_in : s.bit_offset < 8

pub record IsSound (d : Decoder) : Type 0 where
  pub end_in : d.end ≤ length d.buf
  pub states_inside : All (IsInside (length d.buf)) d.state_stack

-- The position is at a byte boundary of some block.
abbrev pub IsByte : List EncodingState → Type 0
IsByte [] = ⊥
IsByte (s ∷ ss) = s.bit_offset ≡ 0

abbrev pub IsOpen : List EncodingState → Type 0
IsOpen [] = ⊥
IsOpen (s ∷ ss) = Unit

abbrev pub IsReading : Decoder → Type 0
IsReading d = IsSound d × IsByte d.state_stack

-- a decoder with the given stack
abbrev pub over : Decoder → List EncodingState → Decoder
over d st = record d { state_stack = st }

pub ensure_limit :
    (s : EncodingState) (bits n : ℕ)
    → bytes_for_bits ((s.bit_offset + bits) % 2 ^ 32) ≡ n
    → ensure (some s) bits ≡ none
    → align (s.offset + n) n ≤ s.limit
unfolding ensure
ensure_limit s bits n e h = rw (← e) (ground arith)

-- At a byte boundary a passed check is exact: the aligned word lies inside the block.
pub ensure_one :
    (s : EncodingState)
    → s.bit_offset ≡ 0
    → ensure (some s) 8 ≡ none
    → align s.offset 1 + 1 ≤ s.limit
unfolding bytes_for_bits
ensure_one s b h =
    omega (arith, ensure_limit s 8 1 (omega arith) h, align_one s.offset, align_one (s.offset + 1))

pub ensure_two :
    (s : EncodingState)
    → s.bit_offset ≡ 0
    → ensure (some s) 16 ≡ none
    → align s.offset 2 + 2 ≤ s.limit
unfolding bytes_for_bits
ensure_two s b h =
    omega (arith, ensure_limit s 16 2 (omega arith) h, align_two s.offset, align_two (s.offset + 2))

pub ensure_four :
    (s : EncodingState)
    → s.bit_offset ≡ 0
    → ensure (some s) 32 ≡ none
    → align s.offset 4 + 4 ≤ s.limit
unfolding bytes_for_bits
ensure_four s b h =
    omega
      (arith, ensure_limit s 32 4 (omega arith) h, align_four s.offset, align_four (s.offset + 4))

pub ensure_eight :
    (s : EncodingState)
    → s.bit_offset ≡ 0
    → ensure (some s) 64 ≡ none
    → align s.offset 8 + 8 ≤ s.limit
unfolding bytes_for_bits
ensure_eight s b h =
    omega
      (arith, ensure_limit s 64 8 (omega arith) h, align_eight s.offset, align_eight (s.offset + 8))

-- A bit has room wherever it is.
pub ensure_bit :
    (s : EncodingState) → s.bit_offset < 8 → ensure (some s) 1 ≡ none → s.offset + 1 ≤ s.limit
unfolding bytes_for_bits
ensure_bit s b h = omega (arith, ensure_limit s 1 1 (omega arith) h, align_one (s.offset + 1))

-- At a byte boundary the method does not panic, and leaves the decoder sound and at a byte boundary.
abbrev pub KeepsReading : {A : Type 0} → DecoderM A → Type 0
KeepsReading m = (d : Decoder) → IsReading d → Keeps IsReading (m d)

-- No panic; a byte boundary of some block on the normal return, and soundness on the error return.
abbrev pub IsOpened : {A : Type 0} → Outcome BindError Decoder A → Type 0
IsOpened (ok a d) = IsReading d
IsOpened (err x d) = IsSound d
IsOpened panic = ⊥

abbrev pub Opens : {A : Type 0} → DecoderM A → Type 0
Opens m = (d : Decoder) → IsSound d → IsOpened (m d)

IsReading-on :
    {A : Type 0} (m : DecoderM A)
    → ((d : Decoder) (s : EncodingState) (ss : List EncodingState)
        → IsReading (over d (s ∷ ss))
        → Keeps IsReading (m (over d (s ∷ ss))))
    → (d : Decoder) (st : List EncodingState) → IsReading (over d st)
    → Keeps IsReading (m (over d st))
IsReading-on m step d [] h = absurd h.1
IsReading-on m step d (s ∷ ss) h = step d s ss h

pub KeepsReading-of_cons :
    {A : Type 0} (m : DecoderM A)
    → ((d : Decoder) (s : EncodingState) (ss : List EncodingState)
        → IsReading (over d (s ∷ ss))
        → Keeps IsReading (m (over d (s ∷ ss))))
    → KeepsReading m
KeepsReading-of_cons m step d h = IsReading-on m step d d.state_stack h

pub KeepsReading-bind :
    {A B : Type 0} (m : DecoderM A) (f : A → DecoderM B)
    → KeepsReading m
    → ((a : A) → KeepsReading (f a))
    → KeepsReading (m >>= f)
KeepsReading-bind m f hm hf d h = and_then-Keeps IsReading (m d) f (hm d h) hf

pub forget_byte :
    {A : Type 0} (o : Outcome BindError Decoder A) → Keeps IsReading o → Keeps IsSound o
forget_byte (ok a d) h = h.0
forget_byte (err x d) h = h.0
forget_byte panic h = h

pub IsOpened-of_reading :
    {A : Type 0} (o : Outcome BindError Decoder A) → Keeps IsReading o → IsOpened o
IsOpened-of_reading (ok a d) h = h
IsOpened-of_reading (err x d) h = h.0
IsOpened-of_reading panic h = h

pub forget_opened : {A : Type 0} (o : Outcome BindError Decoder A) → IsOpened o → Keeps IsSound o
forget_opened (ok a d) h = h.0
forget_opened (err x d) h = h
forget_opened panic h = h

pub bind-IsOpened :
    {A B : Type 0} (o : Outcome BindError Decoder A) (f : A → DecoderM B)
    → IsOpened o
    → ((a : A) (d : Decoder) → IsReading d → IsOpened (f a d))
    → IsOpened (and_then o f)
bind-IsOpened (ok a d) f h k = k a d h
bind-IsOpened (err x d) f h k = h
bind-IsOpened panic f h k = h

pub bind_sound :
    {A B : Type 0} (o : Outcome BindError Decoder A) (f : A → DecoderM B)
    → Keeps IsSound o
    → ((a : A) (d : Decoder) → IsSound d → IsOpened (f a d))
    → IsOpened (and_then o f)
bind_sound (ok a d) f h k = k a d h
bind_sound (err x d) f h k = h
bind_sound panic f h k = h

-- From a byte boundary on: the rest of the calls may leave it.
pub bind_reading :
    {A B : Type 0} (o : Outcome BindError Decoder A) (f : A → DecoderM B)
    → IsOpened o
    → ((a : A) (d : Decoder) → IsReading d → Keeps IsSound (f a d))
    → Keeps IsSound (and_then o f)
bind_reading (ok a d) f h k = k a d h
bind_reading (err x d) f h k = h
bind_reading panic f h k = h
