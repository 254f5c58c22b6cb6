-- ===== src/Bindings/Message/Tests.antt =====
-- Concrete messages of go/src/fidl/bindings/message.go.
use fidl.Prelude.{ℕ, ◌≡◌, ◌≢◌, refl, arith, Bool, true, [], ◌∷◌, some}
use fidl.Prelude.Bytes.{Bytes}
use fidl.Prelude.Go.{Outcome, ok, err, panic, ◌>>◌}
use fidl.Bindings.Util.{align, bytes_for_bits, BindError, validation, message_header_invalid_flags}
use fidl.Bindings.State.{ensure}
use fidl.Bindings.Encoder.{Encoder, EncoderM, new_encoder, start_struct, finish}
use fidl.Bindings.Encoder.Write.{write_uint64}
use fidl.Bindings.Encoder.Valid.Calls.{struct, uint64, close, run_call}
use fidl.Bindings.Encoder.Valid.Reach.{Reach, here, returned}
use fidl.Bindings.Message.{MessageHeader, Message, encode, encode_message, parse_message}
use fidl.Bindings.Message.Header.{
  header_bytes, header_encoder, on_wire, message_of, error_of, parse_unknown_flags,
}
use fidl.Bindings.Message.RoundTrip.{parse_message-encode_message}
use fidl.Bindings.Message.Total.{parse_message-ne-panic}

-- a request that expects a response
abbrev request : MessageHeader
request = record { kind = 7; flags = 1; request_id = 258 }

abbrev request_bytes : Bytes
request_bytes =
    24 ∷ 0 ∷ 0 ∷ 0 ∷ 1 ∷ 0 ∷ 0 ∷ 0 ∷ 7 ∷ 0 ∷ 0 ∷ 0 ∷ 1 ∷ 0 ∷ 0 ∷ 0 ∷ 2 ∷ 1 ∷ 0 ∷ 0 ∷ 0 ∷ 0 ∷ 0 ∷ 0
    ∷ []

abbrev any_handle : ℕ → Bool
any_handle h = true

-- the encoder that a call leaves behind
abbrev after : Outcome BindError Encoder (Unit {0}) → Encoder
after (ok a e) = e
after (err x e) = e
after panic = new_encoder

-- a payload of one struct with one field
abbrev one_word : EncoderM (Unit {0})
one_word = start_struct 8 0 >> (write_uint64 5 >> finish)

abbrev opened : Encoder
opened = after (run_call any_handle (struct 8 0) (header_encoder request))

abbrev written : Encoder
written = after (run_call any_handle (uint64 5) opened)

abbrev closed : Encoder
closed = after (run_call any_handle close written)

calls : Reach any_handle (header_encoder request) closed
unfolding run_call start_struct write_uint64 finish ensure align bytes_for_bits
calls =
    returned close (returned (uint64 5) (returned (struct 8 0) here (omega arith) refl) tt refl) tt
      refl

one_word_run : one_word (header_encoder request) ≡ ok tt closed
unfolding run_call start_struct write_uint64 finish ensure align bytes_for_bits
one_word_run = refl

no_block_open : closed.state_stack ≡ []
unfolding run_call start_struct write_uint64 finish ensure align bytes_for_bits
no_block_open = refl

parse_message-encode_message_example :
    (m : Message) × (message_of (encode_message request one_word) ≡ some m)
    × (m.header ≡ request)
    × (message_of (parse_message m.bytes m.handles) ≡ some (record m { header = on_wire request }))
parse_message-encode_message_example =
    parse_message-encode_message any_handle request one_word (omega arith) (omega arith)
      one_word_run calls no_block_open

parse_message-ne-panic_example : parse_message request_bytes [] ≢ panic
parse_message-ne-panic_example = parse_message-ne-panic request_bytes [] (omega arith)

abbrev odd_flags : MessageHeader
odd_flags = record { kind = 7; flags = 3; request_id = 258 }

parse_unknown_flags_example :
    (encode odd_flags new_encoder ≡ ok tt (header_encoder odd_flags))
    × (error_of (parse_message (header_bytes odd_flags (1 ∷ [])) [])
        ≡ some (validation message_header_invalid_flags))
parse_unknown_flags_example = parse_unknown_flags odd_flags (1 ∷ []) [] (omega arith) (omega arith)
