-- ===== src/Bindings/Words.antt =====
-- The integers that the encoder of go/src/fidl/bindings/encoder.go writes and the decoder of
-- go/src/fidl/bindings/decoder.go reads.
use fidl.Prelude.{ℕ, ◌+◌, ◌*◌, ◌^◌, ◌≤◌, ◌<◌, ◌≡◌, arith, List, ◌∷◌, length, some, none}
use fidl.Prelude.Bytes.{
  get_le-put_le, length-put_le, low_bytes_one, low_bytes_two, low_bytes_four, low_bytes_eight,
}
use fidl.Prelude.Go.{Outcome, ok, err, panic}
use fidl.Bindings.Util.{BindError}
use fidl.Bindings.Util.Laws.{align_one}
use fidl.Bindings.State.{EncodingState, align_offset_to_bytes, align_offset, ensure}
use fidl.Bindings.Encoder.{Encoder, EncoderM}
use fidl.Bindings.Encoder.Write.{write_uint8, write_uint16, write_uint32, write_uint64}
use fidl.Bindings.Encoder.Valid.{over}
use fidl.Bindings.Decoder.{Decoder, DecoderM}
use fidl.Bindings.Decoder.Read.{read_uint8, read_uint16, read_uint32, read_uint64}

pub data Width : Type 0 where
  one two four eight : Width

abbrev pub bytes : Width → ℕ
bytes one = 1
bytes two = 2
bytes four = 4
bytes eight = 8

abbrev pub write : Width → ℕ → EncoderM (Unit {0})
write one = write_uint8
write two = write_uint16
write four = write_uint32
write eight = write_uint64

abbrev pub read : Width → DecoderM ℕ
read one = read_uint8
read two = read_uint16
read four = read_uint32
read eight = read_uint64

-- where a word of `n` bytes goes
abbrev pub place : ℕ → EncodingState → ℕ
place n s = (align_offset n (align_offset_to_bytes s)).offset

-- a decoder at the blocks `st` of the bytes that an encoder has written
abbrev pub facing : Decoder → Encoder → List EncodingState → Decoder
facing d e st = record d { buf = e.buf; state_stack = st }

-- A write that returned, such that a read at the same place returns the value and moves its state
-- alike.
abbrev pub IsReadBack :
    DecoderM ℕ → Decoder → List EncodingState → ℕ → Outcome BindError Encoder (Unit {0}) → Type 0
IsReadBack read d st v (ok a e) = read (facing d e st) ≡ ok v (facing d e e.state_stack)
IsReadBack read d st v (err x e) = ⊥
IsReadBack read d st v panic = ⊥

module _ (d : Decoder) (s : EncodingState) (ss : List EncodingState) (v : ℕ) (e : Encoder) where
  place_one : place 1 s ≡ (align_offset_to_bytes s).offset
  unfolding align_offset
  place_one = align_one (align_offset_to_bytes s).offset

  read_one :
      ensure (some s) 8 ≡ none
      → place 1 s + 1 ≤ length e.buf
      → v < 2 ^ 8
      → IsReadBack read_uint8 d (s ∷ ss) v (write_uint8 v (over e (s ∷ ss)))
  unfolding write_uint8 read_uint8
  read_one room fits h =
      let off = (align_offset_to_bytes s).offset in
      let in_buf : off + 1 ≤ length e.buf = omega (arith, fits, place_one) in
      ground (arith, get_le-put_le 1 off v e.buf, low_bytes_one v h, length-put_le 1 off v e.buf)

  read_two :
      ensure (some s) 16 ≡ none
      → place 2 s + 2 ≤ length e.buf
      → v < 2 ^ 16
      → IsReadBack read_uint16 d (s ∷ ss) v (write_uint16 v (over e (s ∷ ss)))
  unfolding write_uint16 read_uint16
  read_two room fits h =
      let off = place 2 s in
      ground (arith, get_le-put_le 2 off v e.buf, low_bytes_two v h, length-put_le 2 off v e.buf)

  read_four :
      ensure (some s) 32 ≡ none
      → place 4 s + 4 ≤ length e.buf
      → v < 2 ^ 32
      → IsReadBack read_uint32 d (s ∷ ss) v (write_uint32 v (over e (s ∷ ss)))
  unfolding write_uint32 read_uint32
  read_four room fits h =
      let off = place 4 s in
      ground (arith, get_le-put_le 4 off v e.buf, low_bytes_four v h, length-put_le 4 off v e.buf)

  read_eight :
      ensure (some s) 64 ≡ none
      → place 8 s + 8 ≤ length e.buf
      → v < 2 ^ 64
      → IsReadBack read_uint64 d (s ∷ ss) v (write_uint64 v (over e (s ∷ ss)))
  unfolding write_uint64 read_uint64
  read_eight room fits h =
      let off = place 8 s in
      ground (arith, get_le-put_le 8 off v e.buf, low_bytes_eight v h, length-put_le 8 off v e.buf)

  -- A word of 1, 2, 4 or 8 bytes is read back as it was written: in a block whose check passes and
  -- whose aligned place is inside the buffer, the write of a value that fits the word returns, and the
  -- read of that width, at the same place of the bytes written, returns the value and leaves its stack
  -- of blocks as the write left the encoder's.
  pub read-write :
      (w : Width)
      → ensure (some s) (8 * bytes w) ≡ none
      → place (bytes w) s + bytes w ≤ length e.buf
      → v < 2 ^ (8 * bytes w)
      → IsReadBack (read w) d (s ∷ ss) v (write w v (over e (s ∷ ss)))
  read-write one = read_one
  read-write two = read_two
  read-write four = read_four
  read-write eight = read_eight
