-- ===== src/EventStream/SseBody.antt =====
-- The response body that turns an event stream into server-sent events while it is read:
-- `eventStreamToSSEBody` in proxy/provider_proxy.go. `quote` stands for the verb %q. `spares n` is what
-- the array of the buffer holds behind it after `n` reads, which append leaves open.
pub mod Chunks
pub mod Reads
pub mod Blocked
use cc_relay.Base.{
  ℕ, zero, suc, ◌+◌, ◌≡◌, refl, Bool, true, false, not, ◌&&◌, ◌||◌, Option, none, some, List, [],
  ◌∷◌, ◌++◌, length, is_empty, take, drop, if◌then◌else◌,
}
use cc_relay.EventStream.Parsed.{Parsed, ok, err, panic, stuck, ◌>>=◌}
use cc_relay.EventStream.Bytes.{Bytes}
use cc_relay.EventStream.Message.{MessageError, EventStreamMessage, parse_event_stream_message}
use cc_relay.EventStream.Sse.{format_message_as_sse}

-- What one Read of the wrapped body gives with its bytes: no error, `io.EOF` itself, an error that
-- wraps it (`errors.Is` takes it for the end, `==` does not), or another error.
pub data ReadErr : Type 0 where
  no_err end_of_body wrapped_eof other_err : ReadErr

pub record Chunk : Type 0 where
  pub bytes : Bytes
  pub read_err : ReadErr

-- The chunks that the wrapped body is going to give, each at most 16 KB, behind which it gives its
-- end, and how many it gave.
pub record EventStreamToSseBody : Type 0 where
  pub original : List Chunk
  pub reads : ℕ
  pub sse_buffer : Bytes
  pub es_buffer : Bytes
  pub done : Bool

unfoldable pub new_event_stream_to_sse_body : List Chunk → EventStreamToSseBody
new_event_stream_to_sse_body original = record {
  original = original;
  reads = 0;
  sse_buffer = [];
  es_buffer = [];
  done = false;
}

-- `e.original.Read(chunk)`
abbrev pub first_chunk : List Chunk → Chunk
first_chunk [] = record { bytes = []; read_err = end_of_body }
first_chunk (chunk ∷ chunks) = chunk

abbrev pub rest_chunks : List Chunk → List Chunk
rest_chunks [] = []
rest_chunks (chunk ∷ chunks) = chunks

-- One Read of the wrapped body, its bytes appended to the buffer.
abbrev pub append_chunk : EventStreamToSseBody → EventStreamToSseBody
append_chunk body = record {
  original = rest_chunks (body.original);
  reads = suc (body.reads);
  sse_buffer = body.sse_buffer;
  es_buffer = body.es_buffer ++ (first_chunk (body.original)).bytes;
  done = body.done;
}

abbrev pub set_done : Bool → EventStreamToSseBody → EventStreamToSseBody
set_done ended body = record {
  original = body.original;
  reads = body.reads;
  sse_buffer = body.sse_buffer;
  es_buffer = body.es_buffer;
  done = ended || body.done;
}

-- The errors of Read; `original_err` passes on what the wrapped body gave.
pub data BodyErr : Type 0 where
  eof stream_closed original_err : BodyErr

abbrev pub body_err : ReadErr → Option BodyErr
body_err no_err = none
body_err end_of_body = some eof
body_err wrapped_eof = some eof
body_err other_err = some original_err

-- `e.done = true` where the error is io.EOF.
abbrev pub ends : ReadErr → Bool
ends no_err = false
ends end_of_body = true
ends wrapped_eof = false
ends other_err = false

module _ (quote : Bytes → Bytes) where
  -- The loop of `parseEventStreamBuffer`, on the two buffers.
  unfoldable pub parse_loop : ℕ → Bytes → Bytes → Bytes → Parsed MessageError (Bytes × Bytes)
  parse_loop zero spare es_buffer sse_buffer = stuck
  parse_loop (suc fuel) spare es_buffer sse_buffer =
      elim (parse_event_stream_message es_buffer spare) [
        | err e ↦ ok (es_buffer, sse_buffer)
        | panic ↦ panic
        | stuck ↦ stuck
        | ok parsed ↦
            parse_loop fuel spare (drop (parsed.1) es_buffer)
              (sse_buffer ++ format_message_as_sse quote (parsed.0))
      ]

module _ (quote : Bytes → Bytes) (spares : ℕ → Bytes) where
  -- A message takes 16 bytes at least, so one more round than the buffer has bytes is enough.
  unfoldable pub parse_event_stream_buffer :
      EventStreamToSseBody → Parsed MessageError EventStreamToSseBody
  parse_event_stream_buffer body = do
    (es_buffer, sse_buffer) ←
        parse_loop quote (suc (length (body.es_buffer))) (spares (body.reads)) (body.es_buffer)
          (body.sse_buffer)
    ok (record {
      original = body.original;
      reads = body.reads;
      sse_buffer = sse_buffer;
      es_buffer = es_buffer;
      done = body.done;
    })

  abbrev pub is_no_err : ReadErr → Bool
  is_no_err no_err = true
  is_no_err end_of_body = false
  is_no_err wrapped_eof = false
  is_no_err other_err = false

  -- The error that is returned, and the body after it.
  unfoldable pub read_and_buffer :
      EventStreamToSseBody → Parsed MessageError (Option BodyErr × EventStreamToSseBody)
  read_and_buffer body =
      let chunk = first_chunk (body.original) in
      let filled = append_chunk body in
      if is_empty (chunk.bytes) && is_no_err (chunk.read_err)
      then ok (some stream_closed, filled)
      else (do
        parsed ← parse_event_stream_buffer filled
        ok (body_err (chunk.read_err), set_done (ends (chunk.read_err)) parsed))

  -- `e.sseBuffer.Read(p)` for a slice of `size` bytes.
  abbrev pub take_buffered : ℕ → EventStreamToSseBody → Bytes × EventStreamToSseBody
  take_buffered size body = (
    take size (body.sse_buffer),
    record {
      original = body.original;
      reads = body.reads;
      sse_buffer = drop size (body.sse_buffer);
      es_buffer = body.es_buffer;
      done = body.done;
    },
  )

  -- The bytes that Read gives, its error, and the body after it.
  unfoldable pub read_loop :
      ℕ
      → ℕ
      → EventStreamToSseBody
      → Parsed MessageError (Bytes × Option BodyErr × EventStreamToSseBody)
  read_loop zero size body = stuck
  read_loop (suc fuel) size body =
      if not (is_empty (body.sse_buffer))
      then ok ((take_buffered size body).0, none, (take_buffered size body).1)
      else if body.done
      then ok ([], some eof, body)
      else (do
        (e, body') ← read_and_buffer body
        elim e [
          | none ↦ read_loop fuel size body'
          | some eof ↦
              if is_empty (body'.sse_buffer)
              then ok ([], some eof, body')
              else read_loop fuel size body'
          | some stream_closed ↦ ok ([], some stream_closed, body')
          | some original_err ↦ ok ([], some original_err, body')
        ])

  -- A round takes a chunk, sets `done` or returns.
  unfoldable pub read :
      ℕ → EventStreamToSseBody → Parsed MessageError (Bytes × Option BodyErr × EventStreamToSseBody)
  read size body = read_loop (suc (suc (suc (length (body.original))))) size body
