-- ===== src/Bindings/Message/RoundTrip.antt =====
-- `EncodeMessage` followed by `ParseMessage`.
use fidl.Prelude.{
  ℕ, ◌+◌, ◌<◌, ◌≤◌, ◌≡◌, ◌∙◌, inl, inr, refl, arith, Bool, List, [], ◌++◌, length, drop, take, some,
  true, leb, get_or, length-take, get_or-take, append-drop_of_agree, ◌==◌, Bool-cases,
}
use fidl.Prelude.Bytes.{Bytes}
use fidl.Prelude.Go.{ok}
use fidl.Bindings.Encoder.{Encoder, EncoderM, data_of}
use fidl.Bindings.Encoder.Valid.{Watch, IsValid}
use fidl.Bindings.Encoder.Valid.Reach.{Reach, Reach-IsValid}
use fidl.Bindings.Message.{MessageHeader, Message, data_size, encode_message, parse_message}
use fidl.Bindings.Message.Header.{
  header_bytes, header_encoder, IsWire, on_wire, message_of, encode_lem, parse-header_bytes,
}

header_bytes-append :
    (h : MessageHeader) (rest : Bytes) → header_bytes h [] ++ rest ≡ header_bytes h rest
header_bytes-append h rest = elim (Bool-cases (h.flags == 0)) [ inl e ↦ rw e | inr e ↦ rw e ]

-- The header takes what `newMessage` cuts off.
length-header_bytes : (h : MessageHeader) → length (header_bytes h []) ≡ data_size h + 8
unfolding data_size
length-header_bytes h = elim (Bool-cases (h.flags == 0)) [ inl e ↦ rw e | inr e ↦ rw e ]

abbrev watch : MessageHeader → ℕ → Watch
watch h i = record {
  base = length (header_bytes h []);
  index = i;
  value = get_or (header_bytes h []) i 0;
}

header_encoder-IsValid : (h : MessageHeader) (i : ℕ) → IsValid (watch h i) (header_encoder h)
header_encoder-IsValid h i = elim (Bool-cases (h.flags == 0)) [
  | inl e ↦ rw e (omega arith)
  | inr e ↦ rw e (omega arith)
]

parse_of_eq :
    (h : MessageHeader) (bytes rest : Bytes) (hs : List ℕ)
    → IsWire h
    → h.flags ≤ 2
    → bytes ≡ header_bytes h rest
    → message_of (parse_message bytes hs)
      ≡ some (record { header = on_wire h; bytes = bytes; handles = hs; payload = rest })
parse_of_eq h bytes rest hs wire known e = rw e (parse-header_bytes h rest hs wire known)

module _ (is_valid : ℕ → Bool) (h : MessageHeader) {e : Encoder}
    (reached : Reach is_valid (header_encoder h) e) where
  still-IsValid : (i : ℕ) → IsValid (watch h i) e
  still-IsValid i =
      Reach-IsValid is_valid (header_encoder h) (watch h i) (header_encoder-IsValid h i) reached

  length-encoded : length (take e.end e.buf) ≡ e.end
  length-encoded = length-take e.end e.buf (still-IsValid 0).end_in

  same_byte :
      (i : ℕ)
      → i < length (header_bytes h [])
      → get_or (take e.end e.buf) i 0 ≡ get_or (header_bytes h []) i 0
  same_byte i l =
      let v = still-IsValid i in
      omega (arith, get_or-take e.end e.buf i 0 (omega (arith, v.base_in)), v.kept)

  -- The payload's calls have left the header alone.
  header-encoded :
      take e.end e.buf ≡ header_bytes h (drop (length (header_bytes h [])) (take e.end e.buf))
  header-encoded =
      append-drop_of_agree 0 (header_bytes h []) (take e.end e.buf) same_byte
        (omega (arith, length-encoded, (still-IsValid 0).base_in))
      ∙ header_bytes-append h _

  data_of-encoded : e.state_stack ≡ [] → data_of e ≡ ok (take e.end e.buf, e.handles) e
  unfolding data_of
  data_of-encoded closed = ground (arith, (still-IsValid 0).end_in)

  abbrev sent : Message
  sent =
      let bytes = take e.end e.buf in
      record {
        header = h;
        bytes = bytes;
        handles = e.handles;
        payload = drop (length (header_bytes h [])) bytes;
      }

  encode_message-sent :
      (payload : EncoderM (Unit {0}))
      → payload (header_encoder h) ≡ ok tt e
      → e.state_stack ≡ []
      → message_of (encode_message h payload) ≡ some sent
  unfolding encode_message
  encode_message-sent payload run closed =
      let fits : leb (data_size h + 8) (length (take e.end e.buf)) ≡ true =
        ground (arith, length-encoded, (still-IsValid 0).base_in, length-header_bytes h) in
      rw (encode_lem h, run, data_of-encoded closed, fits, ← length-header_bytes h)

  parse_message-sent :
      IsWire h
      → h.flags ≤ 2
      → message_of (parse_message sent.bytes sent.handles)
        ≡ some (record sent { header = on_wire h })
  parse_message-sent wire known = parse_of_eq h _ _ e.handles wire known header-encoded

-- What `EncodeMessage` returns is parsed back: for a header with flags 0, 1 or 2 whose fields fit their
-- types, and a payload that makes allowed calls of the encoder's methods and closes its blocks,
-- `EncodeMessage` returns a message with that header, and `ParseMessage` on its bytes and handles
-- returns a message with the same bytes, handles and payload, and with the same header, the request id
-- being 0 if no flag is set.
pub parse_message-encode_message :
    (is_valid : ℕ → Bool) (h : MessageHeader) (payload : EncoderM (Unit {0})) {e : Encoder}
    → IsWire h
    → h.flags ≤ 2
    → payload (header_encoder h) ≡ ok tt e
    → Reach is_valid (header_encoder h) e
    → e.state_stack ≡ []
    → (m : Message) × (message_of (encode_message h payload) ≡ some m)
      × (m.header ≡ h)
      × (message_of (parse_message m.bytes m.handles) ≡ some (record m { header = on_wire h }))
parse_message-encode_message is_valid h payload wire known run reached closed = (
  sent is_valid h reached,
  encode_message-sent is_valid h reached payload run closed,
  refl,
  parse_message-sent is_valid h reached wire known,
)
