-- ===== src/EventStream/Message/Wire.antt =====
-- An encoder of the message format, and the parser on what it writes.
use cc_relay.Base.{
  append-nil, ap₂, ℕ, ◌+◌, ◌/◌, ◌-◌, ◌%◌, ◌^◌, ◌<◌, ◌≡◌, sym, ap, ◌∙◌, List, [], ◌∷◌, ◌++◌, length,
  take, drop, All, arith, append_assoc, take-append, drop-append, drop-drop, length-append,
}
use cc_relay.EventStream.Parsed.{ok}
use cc_relay.EventStream.Bytes.{Bytes, uint32, checksum}
use cc_relay.EventStream.Headers.{parse_event_stream_headers}
use cc_relay.EventStream.Headers.Wire.{Header, FitsHeader, encode_headers, header_map}
use cc_relay.EventStream.Headers.RoundTrip.{parse_event_stream_headers-header_map}
use cc_relay.EventStream.Message.{EventStreamMessage, parse_event_stream_message}
use cc_relay.EventStream.Message.Frame.{total_of, headers_len_of, IsFrame}
use cc_relay.EventStream.Message.Body.{IsFrame→ok}

abbrev pub put_uint32 : ℕ → Bytes
put_uint32 n = n / 2 ^ 24 ∷ n / 2 ^ 16 % 256 ∷ n / 256 % 256 ∷ n % 256 ∷ []

-- The lengths, their checksum, the headers and the payload: what the message's checksum covers.
unfoldable pub encode_covered : List Header → Bytes → Bytes
encode_covered hs payload =
    let header_bytes = encode_headers hs in
    let total = put_uint32 (16 + length header_bytes + length payload) in
    let headers_len = put_uint32 (length header_bytes) in
    total
    ++ (headers_len ++ (put_uint32 (checksum (total ++ headers_len)) ++ (header_bytes ++ payload)))

unfoldable pub encode_message : List Header → Bytes → Bytes
encode_message hs payload =
    encode_covered hs payload ++ put_uint32 (checksum (encode_covered hs payload))

abbrev pub decoded : List Header → Bytes → EventStreamMessage
decoded hs payload = record { headers = header_map [] hs; payload = payload }

abbrev pub message_length : List Header → Bytes → ℕ
message_length hs payload = 16 + length (encode_headers hs) + length payload

-- The headers fit their length fields, and the message fits its own.
abbrev pub FitsMessage : List Header → Bytes → Type 0
FitsMessage hs payload = All FitsHeader hs × (message_length hs payload < 2 ^ 32)

uint32-put_uint32 : (n : ℕ) (rest : Bytes) → n < 2 ^ 32 → uint32 (put_uint32 n ++ rest) ≡ n
unfolding uint32
uint32-put_uint32 n rest h = omega arith

checksum-lt : (xs : Bytes) → checksum xs < 2 ^ 32
unfolding checksum
checksum-lt xs = omega arith

module _ (hs : List Header) (payload rest : Bytes) (fits : FitsMessage hs payload) where
  abbrev header_bytes : Bytes
  header_bytes = encode_headers hs

  abbrev covered : Bytes
  covered = encode_covered hs payload

  abbrev tail : Bytes
  tail = put_uint32 (checksum covered) ++ rest

  length-covered : length covered ≡ message_length hs payload - 4
  unfolding encode_covered
  length-covered = omega (arith, length-append header_bytes payload)

  total_of-eq : total_of (covered ++ tail) ≡ message_length hs payload
  unfolding encode_covered
  total_of-eq = uint32-put_uint32 (message_length hs payload) _ fits.1

  headers_len_of-eq : headers_len_of (covered ++ tail) ≡ length header_bytes
  unfolding encode_covered
  headers_len_of-eq = uint32-put_uint32 (length header_bytes) _ (omega (arith, fits.1))

  behind_prelude : drop 12 (covered ++ tail) ≡ header_bytes ++ (payload ++ tail)
  unfolding encode_covered
  behind_prelude = append_assoc header_bytes payload tail

  prelude_sum : checksum (take 8 (covered ++ tail)) ≡ uint32 (drop 8 (covered ++ tail))
  unfolding encode_covered
  prelude_sum = sym (
      uint32-put_uint32 (checksum (take 8 (covered ++ tail))) _
        (checksum-lt (take 8 (covered ++ tail))))

  message_sum :
      (k : ℕ)
      → k ≡ length covered
      → checksum (take k (covered ++ tail)) ≡ uint32 (drop k (covered ++ tail))
  message_sum k e =
      ap (λ k. checksum (take k (covered ++ tail))) e
      ∙ ap checksum (take-append covered tail)
      ∙ sym (uint32-put_uint32 (checksum covered) rest (checksum-lt covered))
      ∙ ap uint32 (sym (drop-append covered tail))
      ∙ ap (λ k. uint32 (drop k (covered ++ tail))) (sym e)

  message_part :
      (h n : ℕ)
      → h ≡ length header_bytes
      → n ≡ length payload
      → payload ≡ take n (drop (12 + h) (covered ++ tail))
  message_part h n e f =
      sym (take-append payload tail)
      ∙ ap (take (length payload)) (sym (drop-append header_bytes (payload ++ tail)))
      ∙ ap (λ xs. take (length payload) (drop (length header_bytes) xs)) (sym behind_prelude)
      ∙ ap (take (length payload)) (sym (drop-drop 12 (length header_bytes) (covered ++ tail)))
      ∙ ap₂ (λ h n. take n (drop (12 + h) (covered ++ tail))) (sym e) (sym f)

  encoded-IsFrame : IsFrame (covered ++ tail) (decoded hs payload) (message_length hs payload)
  encoded-IsFrame = (
    (
      omega (arith, length-append covered tail, length-covered),
      omega (arith, total_of-eq),
      omega (arith, total_of-eq, length-append covered tail, length-covered),
    ),
    (
      prelude_sum,
      message_sum (total_of (covered ++ tail) - 4) (omega (arith, total_of-eq, length-covered)),
    ),
    omega (arith, total_of-eq, headers_len_of-eq),
    ap (λ k. parse_event_stream_headers (take k (drop 12 (covered ++ tail)))) headers_len_of-eq
        ∙ ap (λ xs. parse_event_stream_headers (take (length header_bytes) xs)) behind_prelude
        ∙ ap parse_event_stream_headers (take-append header_bytes (payload ++ tail))
        ∙ parse_event_stream_headers-header_map hs fits.0,
    message_part (headers_len_of (covered ++ tail))
        (total_of (covered ++ tail) - 16 - headers_len_of (covered ++ tail)) headers_len_of-eq
        (omega (arith, total_of-eq, headers_len_of-eq)),
    sym total_of-eq,
  )

pub length-encode_message :
    (hs : List Header) (payload : Bytes)
    → length (encode_message hs payload) ≡ message_length hs payload
unfolding encode_message encode_covered
length-encode_message hs payload = omega (
  arith,
  length-append (encode_headers hs) payload,
  length-append (encode_headers hs ++ payload) (put_uint32 (checksum (encode_covered hs payload))),
)

-- When headers of any type of the format fit their length fields and the message's length is
-- below 2^32, `ParseEventStreamMessage` on the encoded message, followed by any bytes, returns
-- the text headers as a map, the payload and the message's length.
pub parse_event_stream_message-encode_message :
    (hs : List Header) (payload rest spare : Bytes)
    → FitsMessage hs payload
    → parse_event_stream_message (encode_message hs payload ++ rest) spare
      ≡ ok (decoded hs payload, length (encode_message hs payload))
unfolding encode_message
parse_event_stream_message-encode_message hs payload rest spare fits =
    ap (λ xs. parse_event_stream_message xs spare)
      (append_assoc (encode_covered hs payload) (put_uint32 (checksum (encode_covered hs payload)))
        rest)
    ∙ IsFrame→ok bytes spare frame.0 (omega (arith, fits.1, total_of-eq hs payload rest fits))
        (omega (arith, fits.1, headers_len_of-eq hs payload rest fits)) (decoded hs payload) _ frame
    ∙ ap (λ n. ok (decoded hs payload, n)) (sym (length-encode_message hs payload))
  where
    bytes : Bytes
    bytes = encode_covered hs payload ++ (put_uint32 (checksum (encode_covered hs payload)) ++ rest)

    frame : IsFrame bytes (decoded hs payload) (message_length hs payload)
    frame = encoded-IsFrame hs payload rest fits

-- A slice that begins with the message announces its length.
pub encode_message-total :
    (hs : List Header) (payload : Bytes)
    → FitsMessage hs payload
    → total_of (encode_message hs payload) ≡ length (encode_message hs payload)
unfolding encode_message
encode_message-total hs payload fits =
    ap total_of (
      ap (λ xs. encode_covered hs payload ++ xs)
        (sym (append-nil (put_uint32 (checksum (encode_covered hs payload))))))
    ∙ total_of-eq hs payload [] fits
    ∙ sym (length-encode_message hs payload)

pub parse_alone :
    (hs : List Header) (payload : Bytes)
    → FitsMessage hs payload
    → parse_event_stream_message (encode_message hs payload) []
      ≡ ok (decoded hs payload, length (encode_message hs payload))
parse_alone hs payload fits =
    ap (λ xs. parse_event_stream_message xs []) (sym (append-nil (encode_message hs payload)))
    ∙ parse_event_stream_message-encode_message hs payload [] [] fits
