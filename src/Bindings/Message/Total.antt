-- ===== src/Bindings/Message/Total.antt =====
-- `ParseMessage` on any bytes.
use fidl.Prelude.{ℕ, ◌≡◌, ◌≢◌, ◌≤◌, ◌+◌, ◌==◌, if◌then◌else◌, arith, List, [], length}
use fidl.Prelude.Bytes.{Bytes, IsBytes, get_le_four-lt}
use fidl.Prelude.Go.{panic, Holds, and_then-Holds, Holds-of_Keeps, ne_panic_of_Holds}
use fidl.Bindings.Decoder.{Decoder, new_decoder, start_struct, finish}
use fidl.Bindings.Decoder.Read.{read_uint32}
use fidl.Bindings.Decoder.Sound.{IsSound, IsReading}
use fidl.Bindings.Decoder.Sound.Words.{read_uint32-KeepsReading, read_uint64-KeepsReading}
use fidl.Bindings.Decoder.Sound.Values.{finish-IsSound}
use fidl.Bindings.Message.{
  MessageHeader, data_size, decode, decode_fields, decode_request_id, new_message, parse_message,
  zero_header,
}

-- The block of the first struct lies inside the slice.
start_struct-claims :
    (bytes : Bytes) (hs : List ℕ)
    → IsBytes bytes
    → Holds
        (λ header d. (header.size ≤ length bytes) × IsReading d)
        (start_struct (new_decoder bytes hs))
unfolding start_struct new_decoder
start_struct-claims bytes hs b = ground (arith, get_le_four-lt 0 bytes b)

-- The size that a header of this version has behind its own 8 bytes.
abbrev Sized : ℕ → MessageHeader → Type 0
Sized version h = data_size h ≡ (if version == 1 then 16 else 8)

decode_request_id-Sized :
    (version : ℕ) (h : MessageHeader) (d : Decoder)
    → IsReading d
    → Holds (λ h' d'. Sized version h' × IsReading d') (decode_request_id version h d)
unfolding decode_request_id data_size
decode_request_id-Sized version h d k = ground (arith, read_uint64-KeepsReading d k)

decode_fields-Sized :
    (version : ℕ) (h : MessageHeader) (d : Decoder)
    → IsReading d
    → Holds (λ h' _. Sized version h') (decode_fields version h d)
unfolding decode_fields
decode_fields-Sized version h d k =
    and_then-Holds (λ _. IsReading) _ (read_uint32 d) _ (reads d k)
      (λ kind e l.
        and_then-Holds (λ _. IsReading) _ (read_uint32 e) _ (reads e l)
          (λ flags f m.
            and_then-Holds (λ h' d'. Sized version h' × IsReading d') _
              (decode_request_id version (record h { kind = kind; flags = flags }) f) _
              (decode_request_id-Sized version (record h { kind = kind; flags = flags }) f m)
              (λ h' g n.
                and_then-Holds (λ _. IsSound) _ (finish g) _
                  (Holds-of_Keeps IsSound (finish g) (finish-IsSound g n.1.0)) (λ _ _ _. n.0))))
  where
    reads : (e : Decoder) → IsReading e → Holds (λ _. IsReading) (read_uint32 e)
    reads e l = Holds-of_Keeps IsReading (read_uint32 e) (read_uint32-KeepsReading e l)

abbrev Fits : Bytes → MessageHeader → Decoder → Type 0
Fits bytes h d = data_size h + 8 ≤ length bytes

-- A decoded header lies inside the slice, with the size that its flags ask for.
decode-Fits :
    (h : MessageHeader) (bytes : Bytes) (hs : List ℕ)
    → IsBytes bytes
    → Holds (Fits bytes) (decode h (new_decoder bytes hs))
unfolding decode
decode-Fits h bytes hs b =
    and_then-Holds (λ header d. (header.size ≤ length bytes) × IsReading d) (Fits bytes)
      (start_struct (new_decoder bytes hs)) _ (start_struct-claims bytes hs b)
      (λ header d k. ground (arith, decode_fields-Sized header.elements_or_version h d k.1))

-- `ParseMessage` returns on any bytes and handles, with a message or an error: it does not panic.
pub parse_message-ne-panic :
    (bytes : Bytes) (handles : List ℕ) → IsBytes bytes → parse_message bytes handles ≢ panic
unfolding parse_message
parse_message-ne-panic bytes handles b =
    ne_panic_of_Holds (λ m _. m.bytes ≡ bytes) (parse_message bytes handles)
      (and_then-Holds (Fits bytes) _ (decode zero_header (new_decoder bytes [])) _
        (decode-Fits zero_header bytes [] b) (λ h d f. unfold new_message in ground arith))
