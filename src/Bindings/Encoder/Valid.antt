-- ===== src/Bindings/Encoder/Valid.antt =====
-- The encoder's invariant: every claimed block lies inside the buffer, its size is a multiple of 8, and
-- the write position never leaves it.
pub mod Words
pub mod Blocks
pub mod Calls
pub mod Reach
use fidl.Prelude.{
  ℕ, ◌+◌, ◌*◌, ◌/◌, ◌%◌, ◌^◌, ◌≤◌, ◌<◌, ◌≡◌, arith, List, [], ◌∷◌, some, none, length, All, get_or,
  ◌⊎◌,
}
use fidl.Prelude.Go.{Outcome, ok, err, panic, ◌>>=◌, Keeps, and_then-Keeps}
use fidl.Bindings.Util.{BindError}
use fidl.Bindings.Util.Laws.{le-align, bytes_for_bits_lem}
use fidl.Bindings.State.{EncodingState, ensure}
use fidl.Bindings.Encoder.{Encoder, EncoderM}

-- One byte of the buffer, and a position that no block starts below: a byte below `base` has `value`.
pub record Watch : Type 0 where
  pub base : ℕ
  pub index : ℕ
  pub value : ℕ

-- What a passed check says of the position: the bytes of the word fit behind it.
pub ensure_room :
    (s : EncodingState) (bits : ℕ)
    → s.bit_offset < 8
    → bits < 2 ^ 31
    → ensure (some s) bits ≡ none
    → s.offset + (s.bit_offset + bits + 7) / 8 ≤ s.limit
unfolding ensure
ensure_room s bits h k e = ground (
  arith,
  bytes_for_bits_lem (s.bit_offset + bits),
  le-align (s.offset + (s.bit_offset + bits + 7) / 8) ((s.bit_offset + bits + 7) / 8),
)

abbrev pub IsOpen : List EncodingState → Type 0
IsOpen [] = ⊥
IsOpen (s ∷ ss) = Unit

-- an encoder with the given stack
abbrev pub over : Encoder → List EncodingState → Encoder
over e st = record e { state_stack = st }

module _ (w : Watch) where
  pub record IsInside (end : ℕ) (s : EncodingState) : Type 0 where
    pub position_in : 8 * s.offset + s.bit_offset ≤ 8 * s.limit
    pub above : w.base ≤ s.offset
    pub bits_in : s.bit_offset < 8
    pub limit_in : s.limit ≤ end
    pub limit_aligned : s.limit % 8 ≡ 0

  pub record IsValid (e : Encoder) : Type 0 where
    pub end_in : e.end ≤ length e.buf
    pub base_in : w.base ≤ e.end
    pub kept : (w.base ≤ w.index) ⊎ (get_or e.buf w.index 0 ≡ w.value)
    pub end_aligned : e.end % 8 ≡ 0
    pub states_inside : All (IsInside e.end) e.state_stack

  -- A larger buffer holds the same blocks.
  pub IsInside-mono :
      (lo hi : ℕ) (ss : List EncodingState) → lo ≤ hi → All (IsInside lo) ss → All (IsInside hi) ss
  IsInside-mono lo hi [] h a = tt
  IsInside-mono lo hi (s ∷ ss) h a = (
    omega (arith, a.0.limit_in, a.0.limit_aligned, a.0.bits_in, a.0.position_in, a.0.above),
    IsInside-mono lo hi ss h a.1,
  )

  -- valid, and inside some block
  abbrev pub IsWriting : Encoder → Type 0
  IsWriting e = IsValid e × IsOpen e.state_stack

  -- Inside a block the method does not panic, and leaves the encoder valid and inside a block, on its
  -- normal and on its error return.
  abbrev pub KeepsWriting : {A : Type 0} → EncoderM A → Type 0
  KeepsWriting m = (e : Encoder) → IsWriting e → Keeps IsWriting (m e)

  -- The same of any valid encoder, which may be outside of all blocks.
  abbrev pub IsSafe : {A : Type 0} → EncoderM A → Type 0
  IsSafe m = (e : Encoder) → IsValid e → Keeps IsValid (m e)

  IsWriting-on :
      {A : Type 0} (m : EncoderM A)
      → ((e : Encoder) (s : EncodingState) (ss : List EncodingState)
          → IsValid (over e (s ∷ ss))
          → Keeps IsWriting (m (over e (s ∷ ss))))
      → (e : Encoder) (st : List EncodingState) → IsWriting (over e st)
      → Keeps IsWriting (m (over e st))
  IsWriting-on m step e [] h = absurd h.1
  IsWriting-on m step e (s ∷ ss) h = step e s ss h.0

  -- To keep the invariant inside a block, look at the top of the stack.
  pub KeepsWriting-of_cons :
      {A : Type 0} (m : EncoderM A)
      → ((e : Encoder) (s : EncodingState) (ss : List EncodingState)
          → IsValid (over e (s ∷ ss))
          → Keeps IsWriting (m (over e (s ∷ ss))))
      → KeepsWriting m
  KeepsWriting-of_cons m step e h = IsWriting-on m step e e.state_stack h

  pub KeepsWriting-bind :
      {A B : Type 0} (m : EncoderM A) (f : A → EncoderM B)
      → KeepsWriting m
      → ((a : A) → KeepsWriting (f a))
      → KeepsWriting (m >>= f)
  KeepsWriting-bind m f hm hf e h = and_then-Keeps IsWriting (m e) f (hm e h) hf

  pub forget_open :
      {A : Type 0} (o : Outcome BindError Encoder A) → Keeps IsWriting o → Keeps IsValid o
  forget_open (ok a e) h = h.0
  forget_open (err x e) h = h.0
  forget_open panic h = h

  safe_on :
      {A : Type 0} (m : EncoderM A)
      → KeepsWriting m
      → ((e : Encoder) → IsValid (over e []) → Keeps IsValid (m (over e [])))
      → (e : Encoder) (st : List EncodingState) → IsValid (over e st)
      → Keeps IsValid (m (over e st))
  safe_on m k closed e [] h = closed e h
  safe_on m k closed e (s ∷ ss) h = forget_open (m (over e (s ∷ ss))) (k (over e (s ∷ ss)) (h, tt))

  -- Outside of all blocks the claim is shown separately.
  pub IsSafe-of_writing :
      {A : Type 0} (m : EncoderM A)
      → KeepsWriting m
      → ((e : Encoder) → IsValid (over e []) → Keeps IsValid (m (over e [])))
      → IsSafe m
  IsSafe-of_writing m k closed e h = safe_on m k closed e e.state_stack h
