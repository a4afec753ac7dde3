-- ===== src/EventStream/Stream/Whole.antt =====
-- The loop from the first byte of a response to its end.
use cc_relay.Base.{
  ℕ, zero, suc, ◌+◌, ◌-◌, ◌<◌, ◌≤◌, ◌≡◌, refl, sym, ap, ◌∙◌, Bool, true, false, not, List, [], ◌∷◌,
  ◌++◌, leb, length, is_empty, All, ltb, if◌then◌else◌, if_false, le→ltb, arith, append_assoc,
  append-nil, length-append,
}
use cc_relay.EventStream.Parsed.{err}
use cc_relay.EventStream.Bytes.{Bytes, uint32}
use cc_relay.EventStream.Message.Wire.{decoded, length-encode_message}
use cc_relay.EventStream.Sse.{format_message_as_sse}
use cc_relay.EventStream.Stream.{
  eof, is_eof, read_full, read_body, parse_rest, read_next_message, SseWriter, next, finished,
  process_round, process_loop, process_event_stream, after_read,
}
use cc_relay.EventStream.Stream.Events.{
  Piece, message, damaged, piece_bytes, FitsPiece, stream_bytes, piece_event, events_text,
  events_count, reader_of, written_by, process_round-message, process_round-damaged,
  read_full-front,
}

module _ (accepts : ℕ → Bool) (quote : Bytes → Bytes) (all : (n : ℕ) → accepts n ≡ true) where
  unfoldable pub written_all : SseWriter → List Piece → SseWriter
  written_all writer [] = writer
  written_all writer (piece ∷ pieces) =
      written_all (written_by accepts quote all writer (piece_event quote piece)) pieces

  written_by-text :
      (writer : SseWriter) (text : Bytes)
      → (written_by accepts quote all writer text).written ≡ writer.written ++ text
  unfolding written_by
  written_by-text writer [] = sym (append-nil (writer.written))
  written_by-text writer (b ∷ text) = refl

  written_all-text :
      (writer : SseWriter) (pieces : List Piece)
      → (written_all writer pieces).written ≡ writer.written ++ events_text quote pieces
  unfolding written_all events_text
  written_all-text writer [] = sym (append-nil (writer.written))
  written_all-text writer (piece ∷ pieces) =
      written_all-text (written_by accepts quote all writer (piece_event quote piece)) pieces
      ∙ ap (λ xs. xs ++ events_text quote pieces) (written_by-text writer (piece_event quote piece))
      ∙ append_assoc (writer.written) (piece_event quote piece) (events_text quote pieces)

  -- One round takes one part.
  process_round-piece :
      (piece : Piece) (rest : Bytes) (breaks_off : Bool) (writer : SseWriter) (count : ℕ)
      → FitsPiece piece
      → process_round accepts quote (reader_of (piece_bytes piece ++ rest) breaks_off) writer count
        ≡ next
            (reader_of rest breaks_off)
            (written_by accepts quote all writer (piece_event quote piece))
            (if is_empty (piece_event quote piece) then count else suc count)
  unfolding piece_bytes piece_event FitsPiece written_by
  process_round-piece (message hs payload) rest breaks_off writer count fits =
      process_round-message accepts quote all hs payload rest breaks_off writer count fits
      ∙ ap
          (next (reader_of rest breaks_off) (
            written_by accepts quote all writer (format_message_as_sse quote (decoded hs payload))))
          (swap (is_empty (format_message_as_sse quote (decoded hs payload))))
    where
      swap : (b : Bool) → (if not b then suc count else count) ≡ (if b then count else suc count)
      swap true = refl
      swap false = refl
  process_round-piece (damaged bytes) rest breaks_off writer count fits =
      process_round-damaged accepts quote all bytes rest breaks_off writer count fits

  -- The rounds take the parts in their order, up to a rest at which a round finishes.
  process_loop-pieces :
      (pieces : List Piece) (fuel : ℕ) (rest : Bytes) (breaks_off : Bool) (writer : SseWriter)
      (count : ℕ)
      → ((w : SseWriter) (n : ℕ)
          → process_round accepts quote (reader_of rest breaks_off) w n ≡ finished w n)
      → All FitsPiece pieces
      → length pieces < fuel
      → process_loop accepts quote fuel
          (next (reader_of (stream_bytes pieces ++ rest) breaks_off) writer count)
        ≡ finished (written_all writer pieces) (events_count quote pieces + count)
  unfolding process_loop stream_bytes written_all events_count
  process_loop-pieces pieces zero rest breaks_off writer count stop fits enough =
      absurd (omega arith)
  process_loop-pieces [] (suc fuel) rest breaks_off writer count stop fits enough =
      ap (process_loop accepts quote fuel) (stop writer count)
      ∙ loop_finished fuel
      ∙ ap (finished writer) (count-eq count)
    where
      loop_finished :
          (fuel : ℕ)
          → process_loop accepts quote fuel (finished writer count) ≡ finished writer count
      loop_finished zero = refl
      loop_finished (suc fuel) = refl

      count-eq : (n : ℕ) → n ≡ 0 + n
      count-eq n = omega arith
  process_loop-pieces (piece ∷ pieces) (suc fuel) rest breaks_off writer count stop fits enough =
      ap (λ xs. process_loop accepts quote (suc fuel) (next (reader_of xs breaks_off) writer count))
        (append_assoc (piece_bytes piece) (stream_bytes pieces) rest)
      ∙ ap (process_loop accepts quote fuel)
          (process_round-piece piece (stream_bytes pieces ++ rest) breaks_off writer count fits.0)
      ∙ process_loop-pieces pieces fuel rest breaks_off
          (written_by accepts quote all writer (piece_event quote piece))
          (if is_empty (piece_event quote piece) then count else suc count) stop fits.1
          (omega arith)
      ∙ ap (finished (written_all writer (piece ∷ pieces)))
          (counts (is_empty (piece_event quote piece)) (events_count quote pieces))
    where
      counts :
          (b : Bool) (later : ℕ)
          → later + (if b then count else suc count) ≡ (if b then later else suc later) + count
      counts true later = refl
      counts false later = omega arith

length-piece_bytes : (piece : Piece) → FitsPiece piece → 16 ≤ length (piece_bytes piece)
unfolding piece_bytes FitsPiece
length-piece_bytes (message hs payload) fits = omega (arith, length-encode_message hs payload)
length-piece_bytes (damaged bytes) fits = fits.1

length-stream_bytes :
    (pieces : List Piece) → All FitsPiece pieces → length pieces ≤ length (stream_bytes pieces)
unfolding stream_bytes
length-stream_bytes [] fits = omega arith
length-stream_bytes (piece ∷ pieces) fits = omega (
  arith,
  length-append (piece_bytes piece) (stream_bytes pieces),
  length-piece_bytes piece fits.0,
  length-stream_bytes pieces fits.1,
)

zero_more : (n : ℕ) → n + 0 ≡ n
zero_more n = omega arith

module _ (accepts : ℕ → Bool) (quote : Bytes → Bytes) where
  round-end :
      (w : SseWriter) (n : ℕ) → process_round accepts quote (reader_of [] false) w n ≡ finished w n
  unfolding process_round read_next_message read_full read_body is_eof
  round-end w n = refl

  read_full-none :
      (k : ℕ) → 0 < k → read_full k (reader_of [] false) ≡ (err eof, reader_of [] false)
  unfolding read_full
  read_full-none k h = if_false (leb k 0) _ _ (ground arith)

  -- A rest that is a prelude only is taken for the end.
  round-prelude :
      (prelude : Bytes)
      → length prelude ≡ 12
      → 16 ≤ uint32 prelude
      → (w : SseWriter) (n : ℕ)
      → process_round accepts quote (reader_of prelude false) w n ≡ finished w n
  unfolding process_round read_next_message read_body parse_rest is_eof
  round-prelude prelude len big w n =
      ap (λ xs. process_round accepts quote (reader_of xs false) w n) (sym (append-nil prelude))
      ∙ ap (λ r. after_read accepts quote w n (read_body r))
          (read_full-front 12 prelude [] false (sym len))
      ∙ ap (after_read accepts quote w n) (
          if_false (ltb (uint32 prelude) 16) _ _ (le→ltb (uint32 prelude) 16 big)
          ∙ ap (parse_rest prelude) (read_full-none (uint32 prelude - 12) (omega arith)))

  -- When the response is a sequence of parts, each a message that fits the length fields of the
  -- format or bytes of the length that they announce with a wrong checksum, and every write
  -- succeeds, `processEventStream` ends without an error; it has written the events of the
  -- messages in their order and nothing for the rest, and it returns the number of messages that
  -- have an event.
  pub process_event_stream-events :
      (pieces : List Piece) (writer : SseWriter)
      → ((n : ℕ) → accepts n ≡ true)
      → All FitsPiece pieces
      → (after : SseWriter) × (process_event_stream accepts quote
            (reader_of (stream_bytes pieces) false)
            writer
          ≡ finished after (events_count quote pieces))
        × (after.written ≡ writer.written ++ events_text quote pieces)
  unfolding process_event_stream
  process_event_stream-events pieces writer all fits = (
    written_all accepts quote all writer pieces,
    ap
          (λ xs.
            process_loop accepts quote (suc (suc (length (stream_bytes pieces))))
              (next (reader_of xs false) writer 0))
          (sym (append-nil (stream_bytes pieces)))
        ∙ process_loop-pieces accepts quote all pieces (suc (suc (length (stream_bytes pieces)))) []
            false writer 0 round-end fits (omega (arith, length-stream_bytes pieces fits))
        ∙ ap (finished (written_all accepts quote all writer pieces))
            (zero_more (events_count quote pieces)),
    written_all-text accepts quote all writer pieces,
  )

  -- When the response is such a sequence of parts and then breaks off right behind the 12 bytes
  -- of a further message's prelude, which announces 16 bytes or more, and every write succeeds,
  -- `processEventStream` ends as it does at the end of a response, without an error.
  pub process_event_stream-cut :
      (pieces : List Piece) (prelude : Bytes) (writer : SseWriter)
      → ((n : ℕ) → accepts n ≡ true)
      → All FitsPiece pieces
      → length prelude ≡ 12
      → 16 ≤ uint32 prelude
      → (after : SseWriter) × (process_event_stream accepts quote
            (reader_of (stream_bytes pieces ++ prelude) false)
            writer
          ≡ finished after (events_count quote pieces))
  unfolding process_event_stream
  process_event_stream-cut pieces prelude writer all fits len big =
      let fuel = suc (suc (length (stream_bytes pieces ++ prelude))) in
      (
        written_all accepts quote all writer pieces,
        process_loop-pieces accepts quote all pieces fuel prelude false writer 0
              (round-prelude prelude len big) fits
              (omega (
                arith,
                length-stream_bytes pieces fits,
                length-append (stream_bytes pieces) prelude,
              ))
            ∙ ap (finished (written_all accepts quote all writer pieces))
                (zero_more (events_count quote pieces)),
      )
