-- ===== src/EventStream/Stream.antt =====
-- The loop over the messages of a response: `processEventStream` and its helpers in
-- providers/eventstream.go. `quote` stands for the verb %q, and `accepts n` says whether the response
-- writer takes the n-th write.
pub mod Events
pub mod Whole
use cc_relay.Base.{
  ℕ, zero, suc, ◌+◌, ◌-◌, ◌≡◌, refl, Bool, true, false, List, [], ◌∷◌, ◌++◌, length, is_empty, take,
  drop, ltb, leb, if◌then◌else◌,
}
use cc_relay.EventStream.Parsed.{Parsed, ok, err, panic, stuck, ◌>>=◌}
use cc_relay.EventStream.Bytes.{Bytes, ascii, uint32}
use cc_relay.EventStream.Message.{MessageError, EventStreamMessage, parse_event_stream_message}
use cc_relay.EventStream.Sse.{format_sse_event, format_exception_as_sse, header_text}

-- The errors of the loop; `body_failed` and `write_failed` wrap with %w.
pub data StreamError : Type 0 where
  eof unexpected_eof read_failed message_skipped writer_failed : StreamError
  invalid_length : ℕ → StreamError
  body_failed write_failed : StreamError → StreamError

-- `errors.Is(err, io.EOF)` and `errors.Is(err, ErrMessageSkipped)`.
unfoldable pub is_eof : StreamError → Bool
is_eof eof = true
is_eof (body_failed e) = is_eof e
is_eof (write_failed e) = is_eof e
is_eof _ = false

unfoldable pub is_skipped : StreamError → Bool
is_skipped message_skipped = true
is_skipped (body_failed e) = is_skipped e
is_skipped (write_failed e) = is_skipped e
is_skipped _ = false

-- What is left of the response's body: bytes, and then its end or an error.
pub record Reader : Type 0 where
  pub unread : Bytes
  pub breaks_off : Bool

-- `io.ReadFull` for `count` bytes.
unfoldable pub read_full : ℕ → Reader → Parsed StreamError Bytes × Reader
read_full count reader =
    if leb count (length (reader.unread))
    then (
      ok (take count (reader.unread)),
      record { unread = drop count (reader.unread); breaks_off = reader.breaks_off },
    )
    else (
      if reader.breaks_off
          then err read_failed
          else if is_empty (reader.unread)
          then err eof
          else err unexpected_eof,
      record { unread = []; breaks_off = reader.breaks_off },
    )

-- `ErrMessageSkipped` for any error of the parser.
abbrev pub skip_errors :
    Parsed MessageError (EventStreamMessage × ℕ) → Parsed StreamError EventStreamMessage
skip_errors (ok (msg, count)) = ok msg
skip_errors (err e) = err message_skipped
skip_errors panic = panic
skip_errors stuck = stuck

-- The message's bytes fill the slice that is made for them, so nothing is spare.
unfoldable pub parse_rest :
    Bytes → Parsed StreamError Bytes × Reader → Parsed StreamError EventStreamMessage × Reader
parse_rest prelude (ok rest, reader) =
    (skip_errors (parse_event_stream_message (prelude ++ rest) []), reader)
parse_rest prelude (err e, reader) = (err (body_failed e), reader)
parse_rest prelude (panic, reader) = (panic, reader)
parse_rest prelude (stuck, reader) = (stuck, reader)

unfoldable pub read_body :
    Parsed StreamError Bytes × Reader → Parsed StreamError EventStreamMessage × Reader
read_body (ok prelude, reader) =
    let total_len = uint32 prelude in
    if ltb total_len 16
    then (err (invalid_length total_len), reader)
    else parse_rest prelude (read_full (total_len - 12) reader)
read_body (err e, reader) = (err e, reader)
read_body (panic, reader) = (panic, reader)
read_body (stuck, reader) = (stuck, reader)

unfoldable pub read_next_message : Reader → Parsed StreamError EventStreamMessage × Reader
read_next_message reader = read_body (read_full 12 reader)

-- The response writer: what was written, what was flushed, and how many writes there were.
pub record SseWriter : Type 0 where
  pub written : Bytes
  pub flushed : Bytes
  pub writes : ℕ

-- A round that goes on names the reader, the writer and the count of the next one.
pub data Round : Type 0 where
  next : Reader → SseWriter → ℕ → Round
  finished : SseWriter → ℕ → Round
  failed : StreamError → ℕ → Round
  crashed ran_out : Round

module _ (accepts : ℕ → Bool) (quote : Bytes → Bytes) where
  unfoldable pub write_sse_bytes : SseWriter → Bytes → Parsed StreamError SseWriter
  write_sse_bytes writer bytes =
      let written = writer.written ++ bytes in
      if accepts (writer.writes)
      then ok (record { written = written; flushed = written; writes = suc (writer.writes) })
      else err writer_failed

  abbrev pub note_failure :
      SseWriter → Parsed StreamError SseWriter → Bool × Parsed StreamError SseWriter
  note_failure writer (ok writer') = (true, ok writer')
  note_failure writer (err e) = (false, err (write_failed e))
  note_failure writer panic = (false, panic)
  note_failure writer stuck = (false, stuck)

  unfoldable pub write_exception_event :
      SseWriter → Bytes → Bytes → Bool × Parsed StreamError SseWriter
  write_exception_event writer exception_type payload =
      note_failure writer
        (write_sse_bytes writer (format_exception_as_sse quote exception_type payload))

  -- Whether an event was written, and the error or the writer after it.
  unfoldable pub write_sse_event :
      SseWriter → EventStreamMessage → Bool × Parsed StreamError SseWriter
  write_sse_event writer msg =
      let exception_type = header_text (msg.headers) (ascii ":exception-type") in
      let event_type = header_text (msg.headers) (ascii ":event-type") in
      if is_empty exception_type
      then (if is_empty event_type
          then (false, ok writer)
          else note_failure writer
              (write_sse_bytes writer (format_sse_event event_type (msg.payload))))
      else write_exception_event writer exception_type (msg.payload)

  abbrev pub after_write : Reader → ℕ → Bool × Parsed StreamError SseWriter → Round
  after_write reader count (written, ok writer) =
      next reader writer (if written then suc count else count)
  after_write reader count (written, err e) = failed e count
  after_write reader count (written, panic) = crashed
  after_write reader count (written, stuck) = ran_out

  abbrev pub after_read : SseWriter → ℕ → Parsed StreamError EventStreamMessage × Reader → Round
  after_read writer count (ok msg, reader) = after_write reader count (write_sse_event writer msg)
  after_read writer count (err e, reader) =
      if is_eof e
      then finished writer count
      else if is_skipped e
      then next reader writer count
      else failed e count
  after_read writer count (panic, reader) = crashed
  after_read writer count (stuck, reader) = ran_out

  -- One round of the loop.
  unfoldable pub process_round : Reader → SseWriter → ℕ → Round
  process_round reader writer count = after_read writer count (read_next_message reader)

  unfoldable pub process_loop : ℕ → Round → Round
  process_loop zero (next reader writer count) = ran_out
  process_loop (suc fuel) (next reader writer count) =
      process_loop fuel (process_round reader writer count)
  process_loop fuel round = round

  -- A round that goes on takes 16 bytes at least, so the length of the body and two are fuel enough.
  unfoldable pub process_event_stream : Reader → SseWriter → Round
  process_event_stream reader writer =
      process_loop (suc (suc (length (reader.unread)))) (next reader writer 0)
