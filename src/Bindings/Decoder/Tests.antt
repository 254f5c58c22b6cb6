-- ===== src/Bindings/Decoder/Tests.antt =====
-- Concrete runs of the decoder of go/src/fidl/bindings/decoder.go.
use fidl.Prelude.{◌≡◌, ◌↔◌, refl, [], ◌∷◌}
use fidl.Prelude.Bytes.{Bytes}
use fidl.Prelude.Go.{Outcome, ok, err, panic}
use fidl.Bindings.Util.{align, bytes_for_bits, BindError, validation, illegal_memory_range}
use fidl.Bindings.State.{ensure}
use fidl.Bindings.Decoder.{Decoder, new_decoder, start_struct}
use fidl.Bindings.Decoder.Read.{read_bool, read_uint32}
use fidl.Bindings.Decoder.Sound.{IsSound}
use fidl.Bindings.Decoder.Sound.Calls.{
  run_call, struct, uint32, bool, Crashes, Reach, here, returned, failed, Reach-IsSound,
  new_decoder-IsSound, decoder_call-panics,
}

-- a struct of 8 bytes
abbrev bytes : Bytes
bytes = 16 ∷ 0 ∷ 0 ∷ 0 ∷ 0 ∷ 0 ∷ 0 ∷ 0 ∷ 7 ∷ 0 ∷ 0 ∷ 0 ∷ 1 ∷ 0 ∷ 0 ∷ 0 ∷ []

-- the decoder that a call leaves behind
abbrev after : Outcome BindError Decoder (Unit {0}) → Decoder
after (ok a d) = d
after (err x d) = d
after panic = new_decoder [] []

abbrev opened : Decoder
opened = after (run_call struct (new_decoder bytes []))

abbrev one_read : Decoder
one_read = after (run_call uint32 opened)

-- No second struct follows.
abbrev refused : Decoder
refused = after (run_call struct one_read)

calls : Reach (new_decoder bytes []) refused
unfolding run_call start_struct read_uint32 new_decoder ensure align bytes_for_bits
calls =
    failed struct (validation illegal_memory_range)
      (returned uint32 (returned struct here refl) refl) refl

Reach-IsSound_example : IsSound refused
Reach-IsSound_example = Reach-IsSound (new_decoder-IsSound bytes []) calls

-- A struct with a bool and a 32-bit value, cut off behind the bool.
abbrev cut_off : Bytes
cut_off = 13 ∷ 0 ∷ 0 ∷ 0 ∷ 0 ∷ 0 ∷ 0 ∷ 0 ∷ 7 ∷ 0 ∷ 0 ∷ 0 ∷ 1 ∷ []

abbrev after_bool : Decoder
after_bool = after (run_call bool (after (run_call struct (new_decoder cut_off []))))

bool_read : Reach (new_decoder cut_off []) after_bool
unfolding run_call start_struct read_bool new_decoder ensure align bytes_for_bits
bool_read = returned bool (returned struct here refl) refl

decoder_call-panics_example : (run_call uint32 after_bool ≡ panic) ↔ Crashes after_bool uint32
decoder_call-panics_example = decoder_call-panics cut_off [] uint32 bool_read

crashes : run_call uint32 after_bool ≡ panic
unfolding run_call start_struct read_bool read_uint32 new_decoder ensure align bytes_for_bits
crashes = refl
