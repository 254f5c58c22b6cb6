-- ===== src/Bindings/Message/Header.antt =====
-- Message headers on the wire, and what `ParseMessage` makes of them.
use fidl.Prelude.{
  ℕ, ◌/◌, ◌%◌, ◌^◌, ◌<◌, ◌≤◌, ◌≡◌, ◌⊎◌, inl, inr, sym, ap, ◌∙◌, ==→eq, arith, List, [], ◌∷◌, length,
  some, none, Option, ◌==◌, if◌then◌else◌, Bool-cases, false,
}
use fidl.Prelude.Bytes.{Bytes, low_bytes_four, low_bytes_eight}
use fidl.Prelude.Go.{Outcome, ok, err, panic}
use fidl.Bindings.Util.{align, bytes_for_bits, BindError, validation, message_header_invalid_flags}
use fidl.Bindings.State.{ensure}
use fidl.Bindings.Encoder.{Encoder, new_encoder}
use fidl.Bindings.Message.{MessageHeader, Message, encode, parse_message}

abbrev word : ℕ → Bytes → Bytes
word v rest = v % 256 ∷ v / 256 % 256 ∷ v / 256 / 256 % 256 ∷ v / 256 / 256 / 256 % 256 ∷ rest

-- A header with no request id: its size 16, version 0, type and flags.
abbrev pub short_bytes : ℕ → Bytes → Bytes
short_bytes kind rest = 16 ∷ 0 ∷ 0 ∷ 0 ∷ 0 ∷ 0 ∷ 0 ∷ 0 ∷ word kind (word 0 rest)

-- A header with a request id: its size 24, version 1, type, flags and id.
abbrev pub long_bytes : ℕ → ℕ → ℕ → Bytes → Bytes
long_bytes kind flags id rest =
    24
    ∷ 0
    ∷ 0
    ∷ 0
    ∷ 1
    ∷ 0
    ∷ 0
    ∷ 0
    ∷ word kind (word flags (word id (word (id / 256 / 256 / 256 / 256) rest)))

abbrev pub header_bytes : MessageHeader → Bytes → Bytes
header_bytes h rest =
    if h.flags == 0 then short_bytes h.kind rest else long_bytes h.kind h.flags h.request_id rest

-- The fields fit their types.
abbrev pub IsWire : MessageHeader → Type 0
IsWire h = (h.kind < 2 ^ 32) × (h.flags < 2 ^ 32) × (h.request_id < 2 ^ 64)

-- The header as it is read back: with no flag set the request id is not written.
abbrev pub on_wire : MessageHeader → MessageHeader
on_wire h = if h.flags == 0 then record h { request_id = 0 } else h

-- The encoder behind the header.
abbrev pub header_encoder : MessageHeader → Encoder
header_encoder h = record {
  buf = header_bytes h [];
  end = length (header_bytes h []);
  handles = [];
  state_stack = [];
  deterministic = false;
}

pub encode_lem : (h : MessageHeader) → encode h new_encoder ≡ ok tt (header_encoder h)
unfolding encode new_encoder ensure align bytes_for_bits
encode_lem h = ground arith

-- The message of a run that returned one.
abbrev pub message_of : {S : Type 0} → Outcome BindError S Message → Option Message
message_of (ok m s) = some m
message_of (err e s) = none
message_of panic = none

abbrev pub error_of : {S A : Type 0} → Outcome BindError S A → Option BindError
error_of (ok m s) = none
error_of (err e s) = some e
error_of panic = none

parse_short :
    (kind : ℕ) (rest : Bytes) (hs : List ℕ)
    → kind < 2 ^ 32
    → message_of (parse_message (short_bytes kind rest) hs)
      ≡ some (record {
        header = record { kind = kind; flags = 0; request_id = 0 };
        bytes = short_bytes kind rest;
        handles = hs;
        payload = rest;
      })
unfolding parse_message ensure align bytes_for_bits
parse_short kind rest hs h = ground (arith, low_bytes_four kind)

parse_long :
    (kind flags id : ℕ) (rest : Bytes) (hs : List ℕ)
    → kind < 2 ^ 32
    → flags < 2 ^ 32
    → id < 2 ^ 64
    → (flags ≡ 1) ⊎ (flags ≡ 2)
    → message_of (parse_message (long_bytes kind flags id rest) hs)
      ≡ some (record {
        header = record { kind = kind; flags = flags; request_id = id };
        bytes = long_bytes kind flags id rest;
        handles = hs;
        payload = rest;
      })
unfolding parse_message ensure align bytes_for_bits
parse_long kind flags id rest hs h k l f =
    ground (arith, low_bytes_four kind, low_bytes_four flags, low_bytes_eight id)

parse_bad_flags :
    (kind flags id : ℕ) (rest : Bytes) (hs : List ℕ)
    → flags < 2 ^ 32
    → 2 < flags
    → error_of (parse_message (long_bytes kind flags id rest) hs)
      ≡ some (validation message_header_invalid_flags)
unfolding parse_message ensure align bytes_for_bits
parse_bad_flags kind flags id rest hs k f = ground (arith, low_bytes_four flags)

-- Whatever follows a header is the message's payload.
pub parse-header_bytes :
    (h : MessageHeader) (rest : Bytes) (hs : List ℕ)
    → IsWire h
    → h.flags ≤ 2
    → message_of (parse_message (header_bytes h rest) hs)
      ≡ some
          (record { header = on_wire h; bytes = header_bytes h rest; handles = hs; payload = rest })
parse-header_bytes h rest hs wire known = elim (Bool-cases (h.flags == 0)) [
  | inl z ↦ rw z (
      parse_short h.kind rest hs wire.0
      ∙ ap
          (λ f. some (record {
            header = record { kind = h.kind; flags = f; request_id = 0 };
            bytes = short_bytes h.kind rest;
            handles = hs;
            payload = rest;
          }))
          (sym (==→eq h.flags 0 z)))
  | inr nz ↦
      rw nz (parse_long h.kind h.flags h.request_id rest hs wire.0 wire.1 wire.2 (ground arith))
]

-- A header with flags above 2 whose fields fit their types is written by `Encode` without an error, and
-- `ParseMessage` refuses it with the error of invalid flags.
pub parse_unknown_flags :
    (h : MessageHeader) (rest : Bytes) (hs : List ℕ)
    → IsWire h
    → 2 < h.flags
    → (encode h new_encoder ≡ ok tt (header_encoder h))
      × (error_of (parse_message (header_bytes h rest) hs)
          ≡ some (validation message_header_invalid_flags))
parse_unknown_flags h rest hs wire bad =
    let nz : (h.flags == 0) ≡ false = ground arith in
    (encode_lem h, rw nz (parse_bad_flags h.kind h.flags h.request_id rest hs wire.1 bad))
