-- ===== src/EventStream/Stream/Events.antt =====
-- The loop on a response that is a sequence of messages, some of them damaged.
use cc_relay.Base.{
  ℕ, zero, suc, ◌-◌, ◌≤◌, ◌≡◌, refl, sym, ap, ap₂, ◌∙◌, Bool, true, false, not, List, [], ◌∷◌, ◌++◌,
  length, is_empty, take, drop, ltb, leb, if◌then◌else◌, if_true, if_false, le→ltb, arith,
  take-append, drop-append, take-append_drop, length-take, length-drop, length-append, append_assoc,
}
use cc_relay.EventStream.Parsed.{ok}
use cc_relay.EventStream.Bytes.{Bytes, AreBytes, ascii, uint32}
use cc_relay.EventStream.Headers.Wire.{Header}
use cc_relay.EventStream.Message.{EventStreamMessage, parse_event_stream_message}
use cc_relay.EventStream.Message.Frame.{total_of, HasValidSums}
use cc_relay.EventStream.Message.Exact.{parse_event_stream_message-damaged}
use cc_relay.EventStream.Message.Wire.{
  encode_message, decoded, FitsMessage, length-encode_message, encode_message-total, parse_alone,
}
use cc_relay.EventStream.Sse.{
  format_message_as_sse, format_sse_event, format_exception_as_sse, header_text,
}
use cc_relay.EventStream.Stream.{
  Reader, read_full, read_body, parse_rest, skip_errors, read_next_message, SseWriter,
  write_sse_bytes, is_eof, is_skipped, after_read, after_write, write_exception_event,
  write_sse_event, note_failure, next, process_round,
}

-- A part of the response: a message as an encoder of the format writes it, or bytes of the announced
-- length with a wrong checksum.
pub data Piece : Type 0 where
  message : List Header → Bytes → Piece
  damaged : Bytes → Piece

unfoldable pub piece_bytes : Piece → Bytes
piece_bytes (message hs payload) = encode_message hs payload
piece_bytes (damaged bytes) = bytes

unfoldable pub FitsPiece : Piece → Type 0
FitsPiece (message hs payload) = FitsMessage hs payload
FitsPiece (damaged bytes) =
    AreBytes bytes
    × (16 ≤ length bytes)
    × (total_of bytes ≡ length bytes)
    × (HasValidSums bytes → ⊥)

unfoldable pub stream_bytes : List Piece → Bytes
stream_bytes [] = []
stream_bytes (piece ∷ pieces) = piece_bytes piece ++ stream_bytes pieces

-- The event of a part, which is empty for a part that gives none.
unfoldable pub piece_event : (Bytes → Bytes) → Piece → Bytes
piece_event quote (message hs payload) = format_message_as_sse quote (decoded hs payload)
piece_event quote (damaged bytes) = []

unfoldable pub events_text : (Bytes → Bytes) → List Piece → Bytes
events_text quote [] = []
events_text quote (piece ∷ pieces) = piece_event quote piece ++ events_text quote pieces

unfoldable pub events_count : (Bytes → Bytes) → List Piece → ℕ
events_count quote [] = 0
events_count quote (piece ∷ pieces) =
    let later = events_count quote pieces in
    if is_empty (piece_event quote piece) then later else suc later

abbrev pub reader_of : Bytes → Bool → Reader
reader_of bytes breaks_off = record { unread = bytes; breaks_off = breaks_off }

pub read_full-at :
    (xs rest : Bytes) (breaks_off : Bool)
    → read_full (length xs) (reader_of (xs ++ rest) breaks_off) ≡ (ok xs, reader_of rest breaks_off)
unfolding read_full
read_full-at xs rest breaks_off =
    if_true (leb (length xs) (length (xs ++ rest))) _ _
      (le→leb (length xs) (length (xs ++ rest)) (omega (arith, length-append xs rest)))
    ∙ ap₂ (λ a b. (ok a, reader_of b breaks_off)) (take-append xs rest) (drop-append xs rest)
  where
    le→leb : (a b : ℕ) → a ≤ b → leb a b ≡ true
    le→leb a b h = ground arith

uint32-front : (k : ℕ) (xs : Bytes) → 4 ≤ k → 4 ≤ length xs → uint32 (take k xs) ≡ uint32 xs
unfolding uint32
uint32-front (suc (suc (suc (suc k)))) (a ∷ b ∷ c ∷ d ∷ xs) h long = refl
uint32-front k [] h long = absurd (omega arith)
uint32-front k (a ∷ []) h long = absurd (omega arith)
uint32-front k (a ∷ b ∷ []) h long = absurd (omega arith)
uint32-front k (a ∷ b ∷ c ∷ []) h long = absurd (omega arith)
uint32-front zero xs h long = absurd (omega arith)
uint32-front (suc zero) xs h long = absurd (omega arith)
uint32-front (suc (suc zero)) xs h long = absurd (omega arith)
uint32-front (suc (suc (suc zero))) xs h long = absurd (omega arith)

pub read_full-front :
    (k : ℕ) (xs rest : Bytes) (breaks_off : Bool)
    → k ≡ length xs
    → read_full k (reader_of (xs ++ rest) breaks_off) ≡ (ok xs, reader_of rest breaks_off)
read_full-front k xs rest breaks_off e =
    ap (λ k. read_full k (reader_of (xs ++ rest) breaks_off)) e ∙ read_full-at xs rest breaks_off

-- The bytes of one message are read as a whole, whatever they are.
read_next_message-piece :
    (bytes rest : Bytes) (breaks_off : Bool)
    → 16 ≤ length bytes
    → total_of bytes ≡ length bytes
    → read_next_message (reader_of (bytes ++ rest) breaks_off)
      ≡ (skip_errors (parse_event_stream_message bytes []), reader_of rest breaks_off)
unfolding read_next_message read_body parse_rest
read_next_message-piece bytes rest breaks_off long whole =
    let total : uint32 (take 12 bytes) ≡ length bytes =
      uint32-front 12 bytes (omega arith) (omega arith) ∙ whole in
    ap (λ xs. read_body (read_full 12 (reader_of xs breaks_off)))
      (ap (λ xs. xs ++ rest) (sym (take-append_drop 12 bytes))
        ∙ append_assoc (take 12 bytes) (drop 12 bytes) rest)
    ∙ ap read_body (
        read_full-front 12 (take 12 bytes) (drop 12 bytes ++ rest) breaks_off
          (sym (length-take 12 bytes (omega arith))))
    ∙ if_false (ltb (uint32 (take 12 bytes)) 16) _ _
        (le→ltb (uint32 (take 12 bytes)) 16 (omega (arith, total)))
    ∙ ap (parse_rest (take 12 bytes)) (
        read_full-front (uint32 (take 12 bytes) - 12) (drop 12 bytes) rest breaks_off
          (omega (arith, total, length-drop 12 bytes (omega arith))))
    ∙ ap (λ xs. (skip_errors (parse_event_stream_message xs []), reader_of rest breaks_off))
        (take-append_drop 12 bytes)

format_sse_event-some :
    (event_type payload : Bytes) → is_empty (format_sse_event event_type payload) ≡ false
unfolding format_sse_event ascii
format_sse_event-some event_type payload = refl

format_exception_as_sse-some :
    (quote : Bytes → Bytes) (exception_type payload : Bytes)
    → is_empty (format_exception_as_sse quote exception_type payload) ≡ false
unfolding format_exception_as_sse ascii
format_exception_as_sse-some quote exception_type payload = refl

module _ (accepts : ℕ → Bool) (quote : Bytes → Bytes) (all : (n : ℕ) → accepts n ≡ true) where
  -- The writer behind the text of an event, if there is one.
  unfoldable pub written_by : SseWriter → Bytes → SseWriter
  written_by writer text = if is_empty text then writer else record {
    written = writer.written ++ text;
    flushed = writer.written ++ text;
    writes = suc (writer.writes);
  }

  write_sse_bytes-all :
      (writer : SseWriter) (text : Bytes)
      → is_empty text ≡ false
      → write_sse_bytes accepts quote writer text ≡ ok (written_by writer text)
  unfolding write_sse_bytes written_by
  write_sse_bytes-all writer text some_text =
      if_true (accepts (writer.writes)) _ _ (all (writer.writes))
      ∙ ap ok (sym (if_false (is_empty text) _ _ some_text))

  note_failure-all :
      (writer : SseWriter) (text : Bytes)
      → is_empty text ≡ false
      → note_failure accepts quote writer (write_sse_bytes accepts quote writer text)
        ≡ (not (is_empty text), ok (written_by writer text))
  note_failure-all writer text some_text =
      ap (note_failure accepts quote writer) (write_sse_bytes-all writer text some_text)
      ∙ ap (λ b. (not b, ok (written_by writer text))) (sym some_text)

  -- A message is written as `FormatMessageAsSSE` writes it.
  write_sse_event-all :
      (writer : SseWriter) (msg : EventStreamMessage)
      → write_sse_event accepts quote writer msg ≡ (
        not (is_empty (format_message_as_sse quote msg)),
        ok (written_by writer (format_message_as_sse quote msg)),
      )
  unfolding write_sse_event format_message_as_sse write_exception_event written_by
  write_sse_event-all writer msg =
      go (is_empty (header_text (msg.headers) (ascii ":exception-type")))
        (is_empty (header_text (msg.headers) (ascii ":event-type")))
    where
      event : Bytes
      event = format_sse_event (header_text (msg.headers) (ascii ":event-type")) (msg.payload)

      exception : Bytes
      exception =
          format_exception_as_sse quote (header_text (msg.headers) (ascii ":exception-type"))
            (msg.payload)

      go :
          (no_exception no_event : Bool)
          → (if no_exception
              then if no_event
                then (false, ok writer)
                else note_failure accepts quote writer (write_sse_bytes accepts quote writer event)
              else note_failure accepts quote writer
                  (write_sse_bytes accepts quote writer exception))
            ≡ (
              not (is_empty (if no_exception then if no_event then [] else event else exception)),
              ok (
                  written_by writer
                    (if no_exception then if no_event then [] else event else exception)),
            )
      go true true = refl
      go true false = note_failure-all writer event (format_sse_event-some _ (msg.payload))
      go false b =
          note_failure-all writer exception (format_exception_as_sse-some quote _ (msg.payload))

  -- One round reads and writes one message.
  pub process_round-message :
      (hs : List Header) (payload rest : Bytes) (breaks_off : Bool) (writer : SseWriter) (count : ℕ)
      → FitsMessage hs payload
      → process_round accepts quote
          (reader_of (encode_message hs payload ++ rest) breaks_off)
          writer
          count
        ≡ next
            (reader_of rest breaks_off)
            (written_by writer (format_message_as_sse quote (decoded hs payload)))
            (if not (is_empty (format_message_as_sse quote (decoded hs payload)))
              then suc count
              else count)
  unfolding process_round
  process_round-message hs payload rest breaks_off writer count fits =
      ap (after_read accepts quote writer count) (
        read_next_message-piece (encode_message hs payload) rest breaks_off
          (omega (arith, length-encode_message hs payload)) (encode_message-total hs payload fits)
        ∙ ap (λ r. (skip_errors r, reader_of rest breaks_off)) (parse_alone hs payload fits))
      ∙ ap (after_write accepts quote (reader_of rest breaks_off) count)
          (write_sse_event-all writer (decoded hs payload))

  -- A damaged message is passed over.
  pub process_round-damaged :
      (bytes rest : Bytes) (breaks_off : Bool) (writer : SseWriter) (count : ℕ)
      → FitsPiece (damaged bytes)
      → process_round accepts quote (reader_of (bytes ++ rest) breaks_off) writer count
        ≡ next (reader_of rest breaks_off) writer count
  unfolding process_round FitsPiece is_eof is_skipped
  process_round-damaged bytes rest breaks_off writer count fits =
      let refused =
        parse_event_stream_message-damaged bytes [] (fits.0)
          (fits.1, omega (arith, fits.1, fits.2), omega (arith, fits.2)) (fits.3) in
      ap (after_read accepts quote writer count) (
        read_next_message-piece bytes rest breaks_off (fits.1) (fits.2)
        ∙ ap (λ r. (skip_errors r, reader_of rest breaks_off)) refused.1)
