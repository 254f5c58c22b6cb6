-- ===== src/Bindings/Encoder/Tests.antt =====
-- Concrete runs of the encoder of go/src/fidl/bindings/encoder.go.
use fidl.Prelude.{ℕ, ◌≢◌, refl, arith, Bool, true}
use fidl.Prelude.Go.{Outcome, ok, err, panic}
use fidl.Bindings.Util.{align, bytes_for_bits, BindError, size_limit_exceeded}
use fidl.Bindings.State.{ensure}
use fidl.Bindings.Encoder.{Encoder, new_encoder, start_struct}
use fidl.Bindings.Encoder.Write.{write_bool, write_uint64}
use fidl.Bindings.Encoder.Valid.{Watch, IsValid}
use fidl.Bindings.Encoder.Valid.Calls.{run_call, struct, bool, uint64, close}
use fidl.Bindings.Encoder.Valid.Reach.{
  Reach, here, returned, failed, Reach-IsValid, run_call-ne-panic,
}

abbrev any_handle : ℕ → Bool
any_handle h = true

-- the encoder that a call leaves behind
abbrev after : Outcome BindError Encoder (Unit {0}) → Encoder
after (ok a e) = e
after (err x e) = e
after panic = new_encoder

-- a struct of 16 bytes with a bool, and the 64-bit value behind it that is refused
abbrev opened : Encoder
opened = after (run_call any_handle (struct 16 0) new_encoder)

abbrev with_bool : Encoder
with_bool = after (run_call any_handle (bool true) opened)

abbrev refused : Encoder
refused = after (run_call any_handle (uint64 5) with_bool)

calls : Reach any_handle new_encoder refused
unfolding run_call start_struct write_bool write_uint64 new_encoder ensure align bytes_for_bits
calls =
    failed (uint64 5) size_limit_exceeded
      (returned (bool true) (returned (struct 16 0) here (omega arith) refl) tt refl) tt refl

run_call-ne-panic_example : run_call any_handle close refused ≢ panic
run_call-ne-panic_example = run_call-ne-panic any_handle close calls tt

abbrev first_byte : Watch
first_byte = record { base = 0; index = 0; value = 0 }

new_encoder-IsValid : IsValid first_byte new_encoder
unfolding new_encoder
new_encoder-IsValid = omega arith

Reach-IsValid_example : IsValid first_byte refused
Reach-IsValid_example = Reach-IsValid any_handle new_encoder first_byte new_encoder-IsValid calls
