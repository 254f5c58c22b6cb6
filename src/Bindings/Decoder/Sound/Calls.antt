-- ===== src/Bindings/Decoder/Sound/Calls.antt =====
-- Any sequence of calls of the decoder's methods, on any bytes and handles.
use fidl.Prelude.{ℕ, ◌≡◌, ◌↔◌, refl, arith, List, [], ◌∷◌}
use fidl.Prelude.Bytes.{Bytes}
use fidl.Prelude.Go.{Outcome, ok, err, panic, and_then, ◌>>=◌, pure, Keeps}
use fidl.Bindings.Util.{BindError}
use fidl.Bindings.State.{EncodingState}
use fidl.Bindings.Decoder.{
  Decoder, DecoderM, new_decoder, start_array, start_map, start_struct, start_nested_union,
  read_union_header, finish_reading_union_value, skip_union_value, finish,
}
use fidl.Bindings.Decoder.Read.{
  read_bool, read_uint8, read_int8, read_uint16, read_int16, read_uint32, read_int32, read_uint64,
  read_int64, read_string, read_pointer, read_untyped_handle, read_channel_handle, read_interface,
}
use fidl.Bindings.Decoder.Sound.{IsSound, IsOpen, over, forget_opened}
use fidl.Bindings.Decoder.Sound.Words.{
  read_bool-IsSound, start_array-Opens, start_map-Opens, start_struct-Opens,
}
use fidl.Bindings.Decoder.Sound.Values.{
  start_nested_union-Opens, finish_reading_union_value-IsSound, skip_union_value-IsSound,
  finish-IsSound, read_string-IsSound,
}
use fidl.Bindings.Decoder.Sound.AfterBool.{
  Overruns, OpensOr, KeepsOr, KeepsOr-of_OpensOr, KeepsOr-of_Keeps, bind-OpensOr,
  read_uint8-OpensOr, read_uint16-ReadsWord, read_uint32-ReadsWord, read_uint64-ReadsWord,
  read_union_header-ReadsWord, read_pointer-ReadsWord, read_untyped_handle-ReadsWord,
  read_interface-ReadsWord, read_uint16-panics, read_uint32-panics, read_uint64-panics,
  read_union_header-panics,
}

-- The calls; a float is the word of its bits, and a handle of any type is read by `ReadUntypedHandle`.
pub data Call : Type 0 where
  array : ℕ → Call
  struct map_block nested_union union_header union_done skip_union close : Call
  bool uint8 uint16 uint32 uint64 int8 int16 int32 int64 : Call
  string pointer handle interface : Call

-- a call whose result is not looked at
abbrev void : {A : Type 0} → DecoderM A → DecoderM (Unit {0})
void m d = and_then (m d) (λ _. ok tt)

unfoldable pub run_call : Call → DecoderM (Unit {0})
run_call (array bits) = void (start_array bits)
run_call struct = void start_struct
run_call map_block = start_map
run_call nested_union = start_nested_union
run_call union_header = void read_union_header
run_call union_done = finish_reading_union_value
run_call skip_union = skip_union_value
run_call close = finish
run_call bool = void read_bool
run_call uint8 = void read_uint8
run_call uint16 = void read_uint16
run_call uint32 = void read_uint32
run_call uint64 = void read_uint64
run_call int8 = void read_int8
run_call int16 = void read_int16
run_call int32 = void read_int32
run_call int64 = void read_int64
run_call string = void read_string
run_call pointer = void read_pointer
run_call handle = void read_untyped_handle
run_call interface = void read_interface

-- Where a call panics: a union is left or skipped outside of all blocks, or a word is read in the middle of a
-- byte, after bools, that passes the check and ends outside the slice.
abbrev pub Crashes : Decoder → Call → Type 0
Crashes d union_done = d.state_stack ≡ []
Crashes d skip_union = d.state_stack ≡ []
Crashes d uint16 = Overruns 2 d.buf d.state_stack
Crashes d int16 = Overruns 2 d.buf d.state_stack
Crashes d uint32 = Overruns 4 d.buf d.state_stack
Crashes d int32 = Overruns 4 d.buf d.state_stack
Crashes d handle = Overruns 4 d.buf d.state_stack
Crashes d interface = Overruns 4 d.buf d.state_stack
Crashes d uint64 = Overruns 8 d.buf d.state_stack
Crashes d int64 = Overruns 8 d.buf d.state_stack
Crashes d pointer = Overruns 8 d.buf d.state_stack
Crashes d union_header = Overruns 8 d.buf d.state_stack
Crashes d _ = ⊥

void-KeepsOr :
    (R : Type 0) {A : Type 0} (o : Outcome BindError Decoder A)
    → KeepsOr R o
    → KeepsOr R (and_then o (λ _ d. ok tt d))
void-KeepsOr R (ok a d) h = h
void-KeepsOr R (err x d) h = h
void-KeepsOr R panic h = h

module _ (R : Type 0) {A : Type 0} (m : DecoderM A) (d : Decoder) where
  void-kept : Keeps IsSound (m d) → KeepsOr R (void m d)
  void-kept h = void-KeepsOr R (m d) (KeepsOr-of_Keeps R (m d) h)

  void-opened : OpensOr R (m d) → KeepsOr R (void m d)
  void-opened h = void-KeepsOr R (m d) (KeepsOr-of_OpensOr R (m d) h)

  -- A call and a conversion of its result.
  void-converted :
      {B : Type 0} (f : A → B) → OpensOr R (m d) → KeepsOr R (void (m >>= λ a. pure (f a)) d)
  void-converted f h = void-KeepsOr R (and_then (m d) (λ a. pure (f a))) (
      KeepsOr-of_OpensOr R (and_then (m d) (λ a. pure (f a)))
        (bind-OpensOr R (m d) (λ a. pure (f a)) h (λ a e k. k)))

-- A call that panics outside of all blocks, and nowhere else.
unless_closed :
    (m : DecoderM (Unit {0}))
    → ((d : Decoder) → m (over d []) ≡ panic)
    → ((d : Decoder) → IsSound d → IsOpen d.state_stack → Keeps IsSound (m d))
    → (d : Decoder) (st : List EncodingState) → IsSound (over d st)
    → KeepsOr (st ≡ []) (m (over d st))
unless_closed m crash keep d [] h = let e = crash d in rw e refl
unless_closed m crash keep d (s ∷ ss) h =
    KeepsOr-of_Keeps _ (m (over d (s ∷ ss))) (keep (over d (s ∷ ss)) h tt)

finish_union_panics : (d : Decoder) → finish_reading_union_value (over d []) ≡ panic
unfolding finish_reading_union_value
finish_union_panics d = refl

skip_union_panics : (d : Decoder) → skip_union_value (over d []) ≡ panic
unfolding skip_union_value
skip_union_panics d = refl

run_call-KeepsOr : (c : Call) (d : Decoder) → IsSound d → KeepsOr (Crashes d c) (run_call c d)
unfolding run_call read_int8 read_int16 read_int32 read_int64
run_call-KeepsOr (array bits) d h =
    void-kept ⊥ (start_array bits) d
      (forget_opened (start_array bits d) (start_array-Opens bits d h))
run_call-KeepsOr struct d h =
    void-kept ⊥ start_struct d (forget_opened (start_struct d) (start_struct-Opens d h))
run_call-KeepsOr map_block d h =
    KeepsOr-of_Keeps ⊥ (start_map d) (forget_opened (start_map d) (start_map-Opens d h))
run_call-KeepsOr nested_union d h =
    KeepsOr-of_Keeps ⊥ (start_nested_union d)
      (forget_opened (start_nested_union d) (start_nested_union-Opens d h))
run_call-KeepsOr union_header d h =
    void-opened _ read_union_header d (read_union_header-ReadsWord d h)
run_call-KeepsOr union_done d h =
    unless_closed finish_reading_union_value finish_union_panics finish_reading_union_value-IsSound
      d d.state_stack h
run_call-KeepsOr skip_union d h =
    unless_closed skip_union_value skip_union_panics skip_union_value-IsSound d d.state_stack h
run_call-KeepsOr close d h = KeepsOr-of_Keeps ⊥ (finish d) (finish-IsSound d h)
run_call-KeepsOr bool d h = void-kept ⊥ read_bool d (read_bool-IsSound d h)
run_call-KeepsOr uint8 d h = void-opened ⊥ read_uint8 d (read_uint8-OpensOr d h)
run_call-KeepsOr uint16 d h = void-opened _ read_uint16 d (read_uint16-ReadsWord d h)
run_call-KeepsOr uint32 d h = void-opened _ read_uint32 d (read_uint32-ReadsWord d h)
run_call-KeepsOr uint64 d h = void-opened _ read_uint64 d (read_uint64-ReadsWord d h)
run_call-KeepsOr int8 d h = void-converted ⊥ read_uint8 d _ (read_uint8-OpensOr d h)
run_call-KeepsOr int16 d h = void-converted _ read_uint16 d _ (read_uint16-ReadsWord d h)
run_call-KeepsOr int32 d h = void-converted _ read_uint32 d _ (read_uint32-ReadsWord d h)
run_call-KeepsOr int64 d h = void-converted _ read_uint64 d _ (read_uint64-ReadsWord d h)
run_call-KeepsOr string d h = void-kept ⊥ read_string d (read_string-IsSound d h)
run_call-KeepsOr pointer d h = void-opened _ read_pointer d (read_pointer-ReadsWord d h)
run_call-KeepsOr handle d h =
    void-opened _ read_untyped_handle d (read_untyped_handle-ReadsWord d h)
run_call-KeepsOr interface d h = void-opened _ read_interface d (read_interface-ReadsWord d h)

closed-panics :
    (m : DecoderM (Unit {0}))
    → ((d : Decoder) → m (over d []) ≡ panic)
    → (d : Decoder) (st : List EncodingState) → st ≡ []
    → m (over d st) ≡ panic
closed-panics m k d st e = rw e (k d)

run_call-panics : (c : Call) (d : Decoder) → Crashes d c → run_call c d ≡ panic
unfolding run_call read_int16 read_int32 read_int64 read_pointer read_untyped_handle read_interface
    read_channel_handle
run_call-panics (array bits) d h = absurd h
run_call-panics struct d h = absurd h
run_call-panics map_block d h = absurd h
run_call-panics nested_union d h = absurd h
run_call-panics close d h = absurd h
run_call-panics bool d h = absurd h
run_call-panics uint8 d h = absurd h
run_call-panics int8 d h = absurd h
run_call-panics string d h = absurd h
run_call-panics union_header d h = rw (read_union_header-panics d h) refl
run_call-panics union_done d h =
    closed-panics finish_reading_union_value finish_union_panics d d.state_stack h
run_call-panics skip_union d h = closed-panics skip_union_value skip_union_panics d d.state_stack h
run_call-panics uint16 d h = rw (read_uint16-panics d h) refl
run_call-panics uint32 d h = rw (read_uint32-panics d h) refl
run_call-panics uint64 d h = rw (read_uint64-panics d h) refl
run_call-panics int16 d h = rw (read_uint16-panics d h) refl
run_call-panics int32 d h = rw (read_uint32-panics d h) refl
run_call-panics int64 d h = rw (read_uint64-panics d h) refl
run_call-panics pointer d h = rw (read_uint64-panics d h) refl
run_call-panics handle d h = rw (read_uint32-panics d h) refl
run_call-panics interface d h = rw (read_uint32-panics d h) refl

-- The decoders that calls make of `start`, each call leaving its receiver behind with or without an
-- error.
pub data Reach (start : Decoder) : Decoder → Type 0 where
  here : Reach start start
  returned : {d d' : Decoder} (c : Call) → Reach start d → run_call c d ≡ ok tt d' → Reach start d'
  failed :
      {d d' : Decoder} (c : Call) (x : BindError)
      → Reach start d
      → run_call c d ≡ err x d'
      → Reach start d'

-- Every sequence of calls that return, with errors or without, keeps the decoder's claimed end and the limits of
-- its open blocks inside its bytes, and bit offsets below 8.
pub Reach-IsSound : {start d : Decoder} → IsSound start → Reach start d → IsSound d
Reach-IsSound h here = h
Reach-IsSound h (returned {d} c r e) = rw e at (run_call-KeepsOr c d (Reach-IsSound h r))
Reach-IsSound h (failed {d} c x r e) = rw e at (run_call-KeepsOr c d (Reach-IsSound h r))

pub new_decoder-IsSound : (bytes : Bytes) (handles : List ℕ) → IsSound (new_decoder bytes handles)
unfolding new_decoder
new_decoder-IsSound bytes handles = omega arith

-- On any bytes and handles, whatever calls have returned before, with errors or without, the next call panics
-- just when it leaves or skips a union outside of all blocks, or when it reads a word of two, four or eight bytes
-- in the middle of a byte, after bools, that passes the check of the room and ends outside the slice.
pub decoder_call-panics :
    (bytes : Bytes) (handles : List ℕ) {d : Decoder} (c : Call)
    → Reach (new_decoder bytes handles) d
    → (run_call c d ≡ panic) ↔ Crashes d c
decoder_call-panics bytes handles {d} c r = (
  (λ e. rw e at (run_call-KeepsOr c d (Reach-IsSound (new_decoder-IsSound bytes handles) r))),
  run_call-panics c d,
)
