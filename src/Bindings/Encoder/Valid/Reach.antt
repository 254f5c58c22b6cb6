-- ===== src/Bindings/Encoder/Valid/Reach.antt =====
-- Encoders that sequences of calls bring about.
use fidl.Prelude.{ℕ, ◌≡◌, ◌≢◌, arith, Bool}
use fidl.Prelude.Go.{Outcome, ok, err, panic, Keeps}
use fidl.Bindings.Util.{BindError}
use fidl.Bindings.Encoder.{Encoder, new_encoder}
use fidl.Bindings.Encoder.Valid.{Watch, IsValid}
use fidl.Bindings.Encoder.Valid.Calls.{Call, run_call, IsAllowed, run_call-IsValid}

module _ (is_valid : ℕ → Bool) (start : Encoder) where
  -- The encoders that allowed calls make of `start`, each call leaving its receiver behind with or
  -- without an error.
  pub data Reach : Encoder → Type 0 where
    here : Reach start
    returned :
        {e e' : Encoder} (c : Call)
        → Reach e
        → IsAllowed e c
        → run_call is_valid c e ≡ ok tt e'
        → Reach e'
    failed :
        {e e' : Encoder} (c : Call) (x : BindError)
        → Reach e
        → IsAllowed e c
        → run_call is_valid c e ≡ err x e'
        → Reach e'

  -- Every sequence of allowed calls, errors among them, keeps the encoder's invariant: the open blocks
  -- lie inside the claimed bytes, with ends at multiples of 8 and positions inside them, and a watched
  -- byte in front of the base keeps its value.
  pub Reach-IsValid : (w : Watch) {e : Encoder} → IsValid w start → Reach e → IsValid w e
  Reach-IsValid w v here = v
  Reach-IsValid w v (returned {e} c r a h) =
      rw h at (run_call-IsValid w is_valid c e (Reach-IsValid w v r) a)
  Reach-IsValid w v (failed {e} c x r a h) =
      rw h at (run_call-IsValid w is_valid c e (Reach-IsValid w v r) a)

not_panic :
    {A : Type 0} (P : Encoder → Type 0) (o : Outcome BindError Encoder A) → Keeps P o → o ≢ panic
not_panic P (ok a e) h = λ p. cc
not_panic P (err x e) h = λ p. cc
not_panic P panic h = absurd h

abbrev nothing : Watch
nothing = record { base = 0; index = 0; value = 0 }

new_encoder-IsValid : IsValid nothing new_encoder
unfolding new_encoder
new_encoder-IsValid = omega arith

-- Whatever sequence of allowed calls has been made on a new encoder, errors among them, the next
-- allowed call does not panic: it meets no index out of range and no nil pointer.
pub run_call-ne-panic :
    (is_valid : ℕ → Bool) {e : Encoder} (c : Call)
    → Reach is_valid new_encoder e
    → IsAllowed e c
    → run_call is_valid c e ≢ panic
run_call-ne-panic is_valid {e} c r a = not_panic (IsValid nothing) (run_call is_valid c e) (
    run_call-IsValid nothing is_valid c e
      (Reach-IsValid is_valid new_encoder nothing new_encoder-IsValid r) a)
