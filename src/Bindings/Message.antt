-- ===== src/Bindings/Message.antt =====
-- go/src/fidl/bindings/message.go: message headers and messages. A `Payload` is the function that its
-- method `Encode` or `Decode` is.
pub mod Header
pub mod RoundTrip
pub mod Total
mod Tests
use fidl.Prelude.{
  ℕ, ◌+◌, ◌*◌, not, ◌&&◌, Option, none, some, List, [], ltb, leb, ◌==◌, if◌then◌else◌, length, drop,
}
use fidl.Prelude.Bytes.{Bytes}
use fidl.Prelude.Go.{Outcome, ok, panic, ◌>>=◌, ◌>>◌, pure, fail}
use fidl.Bindings.Util.{
  message_no_flag, message_expects_response_flag, message_is_response_flag, data_header_size,
  BindError, validation, unexpected_struct_header, message_header_invalid_flags,
  message_header_missing_request_id,
}
use fidl.Bindings.Encoder
use fidl.Bindings.Encoder.{Encoder, EncoderM, new_encoder, data_of}
use fidl.Bindings.Encoder.Write.{write_uint32, write_uint64}
use fidl.Bindings.Decoder
use fidl.Bindings.Decoder.{Decoder, DecoderM, new_decoder}
use fidl.Bindings.Decoder.Read.{read_uint32, read_uint64}

-- The field `Type` is `kind` here.
pub record MessageHeader : Type 0 where
  pub kind : ℕ
  pub flags : ℕ
  pub request_id : ℕ

unfoldable pub data_size : MessageHeader → ℕ
data_size h = 2 * 4 + (if not (h.flags == message_no_flag) then 8 else 0)

unfoldable pub version : MessageHeader → ℕ
version h = if not (h.flags == message_no_flag) then 1 else 0

unfoldable pub encode : MessageHeader → EncoderM (Unit {0})
unfolding data_size version Encoder.start_struct write_uint32 write_uint64 Encoder.finish
encode h = do
  Encoder.start_struct (data_size h) (version h)
  write_uint32 h.kind
  write_uint32 h.flags
  (if not (h.flags == message_no_flag) then write_uint64 h.request_id else ok tt)
  Encoder.finish

-- the request id, for the version that has one
decode_request_id : ℕ → MessageHeader → DecoderM MessageHeader
unfolding read_uint64
decode_request_id version h =
    if version == 1
    then (if not (h.flags == message_expects_response_flag)
          && not (h.flags == message_is_response_flag)
        then fail (validation message_header_invalid_flags)
        else (read_uint64 >>= λ id. pure (record h { request_id = id })))
    else if not (h.flags == message_no_flag)
    then fail (validation message_header_missing_request_id)
    else pure h

-- the fields behind the struct's header
decode_fields : ℕ → MessageHeader → DecoderM MessageHeader
unfolding read_uint32 decode_request_id Decoder.finish
decode_fields version h = do
  kind ← read_uint32
  flags ← read_uint32
  h' ← decode_request_id version (record h { kind = kind; flags = flags })
  Decoder.finish
  pure h'

-- `Decode` fills in the header `h` that it is called on.
unfoldable pub decode : MessageHeader → DecoderM MessageHeader
unfolding Decoder.start_struct decode_fields
decode h = do
  header ← Decoder.start_struct
  let version = header.elements_or_version
  (if ltb 1 version then fail (validation unexpected_struct_header) else pure tt)
  let expected_size = data_header_size + 2 * 4 + (if version == 1 then 8 else 0)
  (if not (expected_size == header.size)
      then fail (validation unexpected_struct_header)
      else pure tt)
  decode_fields version h

pub record Message : Type 0 where
  pub header : MessageHeader
  pub bytes : Bytes
  pub handles : List ℕ
  pub payload : Bytes

-- `none` is the panic of the slice expression.
unfoldable pub new_message : MessageHeader → Bytes → List ℕ → Option Message
unfolding data_size
new_message header bytes handles =
    let start = data_size header + data_header_size in
    if leb start (length bytes)
    then some
        (record { header = header; bytes = bytes; handles = handles; payload = drop start bytes })
    else none

-- Builds the message that an operation returns with a nil error.
return_message : {S : Type 0} → Option Message → S → Outcome BindError S Message
return_message none s = panic
return_message (some m) s = ok m s

unfoldable pub decode_payload : {A : Type 0} → DecoderM A → Message → Outcome BindError Decoder A
decode_payload payload m = payload (new_decoder m.payload m.handles)

unfoldable pub encode_message :
    MessageHeader → EncoderM (Unit {0}) → Outcome BindError Encoder Message
unfolding encode data_of new_message return_message new_encoder
encode_message header payload =
    (encode header >> (payload >> (data_of >>= λ r. return_message (new_message header r.0 r.1))))
      new_encoder

abbrev pub zero_header : MessageHeader
zero_header = record { kind = 0; flags = 0; request_id = 0 }

unfoldable pub parse_message : Bytes → List ℕ → Outcome BindError Decoder Message
unfolding decode new_message return_message new_decoder
parse_message bytes handles =
    (decode zero_header >>= λ header. return_message (new_message header bytes handles))
      (new_decoder bytes [])
