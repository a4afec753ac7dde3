-- ===== src/Examples/EventStreams.antt =====
-- Concrete runs of the event stream code: a short stream, a damaged message and a bad header length.
use cc_relay.Base.{
  ℕ, suc, ◌≡◌, refl, ◌↔◌, Bool, true, false, ◌&&◌, List, [], ◌∷◌, ◌++◌, length, take, drop, map,
  All, ltb, ltb→lt, arith, Option, some, Bool-cases, inl, inr,
}
use cc_relay.EventStream.Parsed.{ok, panic, Returns}
use cc_relay.EventStream.Bytes.{Bytes, AreBytes, bytes_eq, uint32, checksum}
use cc_relay.EventStream.Headers.{HeaderMap, lookup_header, parse_event_stream_headers}
use cc_relay.EventStream.Headers.Wire.{
  Header, text, truth, blob, encode_headers, encode_header, encode_value, type_code, FitsValue,
  FitsHeader, last_text, text_of, short, fixed,
}
use cc_relay.EventStream.Headers.RoundTrip.{parse_event_stream_headers-encode_headers}
use cc_relay.EventStream.Headers.Bounds.{parse_event_stream_headers-Returns}
use cc_relay.EventStream.Message.{parse_event_stream_message}
use cc_relay.EventStream.Message.Frame.{IsFrame, IsComplete, HasValidSums}
use cc_relay.EventStream.Message.Exact.{
  parse_event_stream_message-IsFrame, parse_event_stream_message-panic,
}
use cc_relay.EventStream.Message.Wire.{
  put_uint32, encode_message, encode_covered, decoded, FitsMessage,
  parse_event_stream_message-encode_message,
}
use cc_relay.EventStream.Sse.{split_lines, format_sse_event}
use cc_relay.EventStream.Sse.Client.{read_event, read_event-format_sse_event}
use cc_relay.EventStream.Stream.{SseWriter, process_event_stream, finished}
use cc_relay.EventStream.Stream.Events.{
  Piece, message, damaged, FitsPiece, stream_bytes, events_count, events_text, reader_of,
}
use cc_relay.EventStream.Stream.Whole.{process_event_stream-events, process_event_stream-cut}
use cc_relay.EventStream.SseBody.{
  EventStreamToSseBody, BodyErr, eof, new_event_stream_to_sse_body, read_and_buffer,
}
use cc_relay.EventStream.SseBody.Chunks.{Sent, sent_bytes, sent_events}
use cc_relay.EventStream.SseBody.Reads.{read_all, data_chunk, joined, read_all-events}
use cc_relay.EventStream.SseBody.Blocked.{IsDamaged, read_and_buffer-blocked}

are_bytes? : Bytes → Bool
are_bytes? [] = true
are_bytes? (b ∷ bytes) = ltb b 256 && are_bytes? bytes

are_bytes?-sound : (bytes : Bytes) → are_bytes? bytes ≡ true → AreBytes bytes
unfolding are_bytes?
are_bytes?-sound [] e = tt
are_bytes?-sound (b ∷ bytes) e = elim (Bool-cases (ltb b 256)) [
  | inl small ↦ (ltb→lt b 256 small, are_bytes?-sound bytes (rest (are_bytes? bytes) small e))
  | inr big ↦ absurd (contradiction (are_bytes? bytes) big e)
]
  where
    rest : (later : Bool) → ltb b 256 ≡ true → (ltb b 256 && later) ≡ true → later ≡ true
    rest later small e = ground arith

    contradiction : (later : Bool) → ltb b 256 ≡ false → (ltb b 256 && later) ≡ true → ⊥
    contradiction later big e = ground arith

-- Headers of three types, the event's name among them.
abbrev ping_headers : List Header
ping_headers =
    record { name = 58 ∷ 101 ∷ []; value = truth true }
    ∷ record {
      name = 58 ∷ 101 ∷ 118 ∷ 101 ∷ 110 ∷ 116 ∷ 45 ∷ 116 ∷ 121 ∷ 112 ∷ 101 ∷ [];
      value = text (112 ∷ 105 ∷ 110 ∷ 103 ∷ []);
    }
    ∷ record { name = 120 ∷ []; value = blob (7 ∷ 8 ∷ []) }
    ∷ []

abbrev payload : Bytes
payload = 123 ∷ 10 ∷ 125 ∷ []

ping_headers-fit : All FitsHeader ping_headers
unfolding FitsValue
ping_headers-fit =
    ((omega arith, tt), ((omega arith, omega arith), ((omega arith, omega arith), tt)))

ping-fits : FitsMessage ping_headers payload
unfolding encode_headers encode_header encode_value type_code
ping-fits = (ping_headers-fit, omega arith)

-- The name of the first header twice with a text, and a value of a fixed size.
abbrev twice_headers : List Header
twice_headers =
    record { name = 58 ∷ 101 ∷ []; value = text (112 ∷ []) }
    ∷ record { name = 58 ∷ 102 ∷ []; value = fixed 3 (1 ∷ 2 ∷ []) }
    ∷ record { name = 58 ∷ 101 ∷ []; value = text (113 ∷ []) }
    ∷ []

twice_headers-fit : All FitsHeader twice_headers
unfolding FitsValue
twice_headers-fit =
    ((omega arith, omega arith), ((omega arith, short), ((omega arith, omega arith), tt)))

last_of_two : last_text (58 ∷ 101 ∷ []) twice_headers ≡ some (113 ∷ [])
unfolding last_text bytes_eq text_of
last_of_two = refl

parse_event_stream_headers-encode_headers_example :
    (m : HeaderMap) × (parse_event_stream_headers (encode_headers twice_headers) ≡ ok m)
    × (lookup_header m (58 ∷ 101 ∷ []) ≡ last_text (58 ∷ 101 ∷ []) twice_headers)
parse_event_stream_headers-encode_headers_example =
    parse_event_stream_headers-encode_headers twice_headers (58 ∷ 101 ∷ []) twice_headers-fit

parse_event_stream_headers-Returns_example :
    Returns (parse_event_stream_headers (2 ∷ 120 ∷ 121 ∷ 6 ∷ 0 ∷ []))
parse_event_stream_headers-Returns_example =
    parse_event_stream_headers-Returns (2 ∷ 120 ∷ 121 ∷ 6 ∷ 0 ∷ [])

parse_event_stream_message-encode_message_example :
    parse_event_stream_message (encode_message ping_headers payload ++ (0 ∷ 9 ∷ [])) (1 ∷ [])
    ≡ ok (decoded ping_headers payload, length (encode_message ping_headers payload))
parse_event_stream_message-encode_message_example =
    parse_event_stream_message-encode_message ping_headers payload (0 ∷ 9 ∷ []) (1 ∷ []) ping-fits

-- A message without headers and payload, and one whose header length is 100.
abbrev prelude_of : ℕ → Bytes
prelude_of headers_len = put_uint32 16 ++ put_uint32 headers_len

abbrev covered_of : ℕ → Bytes
covered_of headers_len = prelude_of headers_len ++ put_uint32 (checksum (prelude_of headers_len))

abbrev bare_message : ℕ → Bytes
bare_message headers_len = covered_of headers_len ++ put_uint32 (checksum (covered_of headers_len))

bare_message-bytes : AreBytes (bare_message 0)
unfolding are_bytes? checksum
bare_message-bytes = are_bytes?-sound (bare_message 0) refl

parse_event_stream_message-IsFrame_example :
    (parse_event_stream_message (bare_message 0) []
      ≡ ok (record { headers = []; payload = [] }, 16))
    ↔ IsFrame (bare_message 0) (record { headers = []; payload = [] }) 16
parse_event_stream_message-IsFrame_example =
    parse_event_stream_message-IsFrame (bare_message 0) [] (record { headers = []; payload = [] })
      16 bare_message-bytes

long_headers-bytes : AreBytes (bare_message 100)
unfolding are_bytes? checksum
long_headers-bytes = are_bytes?-sound (bare_message 100) refl

long_headers-IsComplete : IsComplete (bare_message 100)
unfolding uint32
long_headers-IsComplete = (omega arith, omega arith, omega arith)

long_headers-HasValidSums : HasValidSums (bare_message 100)
unfolding uint32 checksum
long_headers-HasValidSums = (refl, refl)

parse_event_stream_message-panic_example : parse_event_stream_message (bare_message 100) [] ≡ panic
unfolding uint32
parse_event_stream_message-panic_example =
    parse_event_stream_message-panic (bare_message 100) [] long_headers-bytes
      long_headers-IsComplete long_headers-HasValidSums (omega arith) (omega arith)

read_event-format_sse_event_example :
    read_event (split_lines (format_sse_event (112 ∷ 105 ∷ []) payload)) [] []
    ≡ some (112 ∷ 105 ∷ [], payload)
read_event-format_sse_event_example =
    read_event-format_sse_event (112 ∷ 105 ∷ []) payload (omega arith, (omega arith, tt))

-- The message with the last byte of its checksum wrong.
abbrev damaged_message : Bytes
damaged_message = covered_of 0 ++ (0 ∷ 0 ∷ 0 ∷ 0 ∷ [])

damaged_message-IsDamaged : IsDamaged damaged_message
unfolding are_bytes? checksum uint32
damaged_message-IsDamaged = (
  are_bytes?-sound damaged_message refl,
  omega arith,
  refl,
  (λ sums. absurd (omega (arith, sums.1))),
)

abbrev pieces : List Piece
pieces = message ping_headers payload ∷ damaged damaged_message ∷ message ping_headers [] ∷ []

pieces-fit : All FitsPiece pieces
unfolding FitsPiece encode_headers encode_header encode_value type_code
pieces-fit = (ping-fits, (damaged_message-IsDamaged, ((ping_headers-fit, omega arith), tt)))

abbrev new_writer : SseWriter
new_writer = record { written = []; flushed = []; writes = 0 }

process_event_stream-events_example :
    (after : SseWriter) × (process_event_stream
        (λ n. true)
        (λ xs. xs)
        (reader_of (stream_bytes pieces) false)
        new_writer
      ≡ finished after (events_count (λ xs. xs) pieces))
    × (after.written ≡ [] ++ events_text (λ xs. xs) pieces)
process_event_stream-events_example =
    process_event_stream-events (λ n. true) (λ xs. xs) pieces new_writer (λ n. refl) pieces-fit

process_event_stream-cut_example :
    (after : SseWriter) × (process_event_stream
        (λ n. true)
        (λ xs. xs)
        (reader_of (stream_bytes pieces ++ take 12 (bare_message 0)) false)
        new_writer
      ≡ finished after (events_count (λ xs. xs) pieces))
unfolding uint32
process_event_stream-cut_example =
    process_event_stream-cut (λ n. true) (λ xs. xs) pieces (take 12 (bare_message 0)) new_writer
      (λ n. refl) pieces-fit refl (omega arith)

abbrev sent : List Sent
sent = (ping_headers, payload) ∷ (ping_headers, []) ∷ []

-- The bytes in chunks of 7 and the rest.
abbrev two_chunks : List Bytes
two_chunks = take 7 (sent_bytes sent) ∷ drop 7 (sent_bytes sent) ∷ []

read_all-events_example :
    read_all
      (λ xs. xs)
      (λ n. [])
      (suc (length (sent_events (λ xs. xs) sent)))
      5
      (new_event_stream_to_sse_body (map data_chunk two_chunks))
    ≡ ok (sent_events (λ xs. xs) sent, some eof)
unfolding sent_bytes encode_message encode_covered encode_headers encode_header encode_value
    type_code joined
read_all-events_example =
    read_all-events (λ xs. xs) (λ n. []) sent two_chunks
      (suc (length (sent_events (λ xs. xs) sent))) 4
      (ping-fits, ((ping_headers-fit, omega arith), tt)) (refl, (refl, tt)) refl (omega arith)

abbrev blocked_body : EventStreamToSseBody
blocked_body = record {
  original = data_chunk (bare_message 0) ∷ [];
  reads = 1;
  sse_buffer = [];
  es_buffer = damaged_message ++ [];
  done = false;
}

read_and_buffer-blocked_example :
    (e : Option BodyErr) × (after : EventStreamToSseBody) × (read_and_buffer
        (λ xs. xs)
        (λ n. [])
        blocked_body
      ≡ ok (e, after))
    × (after.sse_buffer ≡ [])
    × (after.es_buffer ≡ damaged_message ++ ([] ++ bare_message 0))
read_and_buffer-blocked_example =
    read_and_buffer-blocked (λ xs. xs) (λ n. []) blocked_body damaged_message []
      damaged_message-IsDamaged tt bare_message-bytes refl
