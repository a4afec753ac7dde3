-- ===== src/EventStream/SseBody/Reads.antt =====
-- What a client reads from the body, call by call, up to its end.
use cc_relay.Base.{
  ℕ, zero, suc, ◌<◌, ◌≡◌, refl, sym, ap, ◌∙◌, subst, ◌⊎◌, Bool, true, false, ◌&&◌, inl, inr, List,
  [], ◌∷◌, ◌++◌, length, is_empty, take, drop, map, All, arith, append_assoc, append-nil,
  length-append, take-append_drop, Option, none, some, if◌then◌else◌, if_false, length-map,
}
use cc_relay.EventStream.Parsed.{Parsed, ok, stuck, ◌>>=◌, bind-ok}
use cc_relay.EventStream.Bytes.{Bytes}
use cc_relay.EventStream.Message.{MessageError}
use cc_relay.EventStream.SseBody.{
  Chunk, no_err, EventStreamToSseBody, new_event_stream_to_sse_body, BodyErr, eof, stream_closed,
  original_err, parse_loop, parse_event_stream_buffer, read_and_buffer, read_loop, read,
}
use cc_relay.EventStream.SseBody.Chunks.{Sent, sent_bytes, sent_events, FitsSent, parse_loop-Leaves}

-- A client that reads `size` bytes at a time up to an error, and keeps what it got.
unfoldable pub read_all :
    (Bytes → Bytes)
    → (ℕ → Bytes)
    → ℕ
    → ℕ
    → EventStreamToSseBody
    → Parsed MessageError (Bytes × Option BodyErr)
read_all quote spares zero size body = stuck
read_all quote spares (suc fuel) size body = do
  (out, e, body') ← read quote spares size body
  elim e [
    | some e ↦ ok (out, some e)
    | none ↦ read_all quote spares fuel size body' >>= (λ later. ok (out ++ later.0, later.1))
  ]

-- The wrapped body gives some bytes, and no error.
abbrev pub data_chunk : Bytes → Chunk
data_chunk bytes = record { bytes = bytes; read_err = no_err }

unfoldable pub joined : List Bytes → Bytes
joined [] = []
joined (part ∷ parts) = part ++ joined parts

abbrev pub IsSome : Bytes → Type 0
IsSome part = is_empty part ≡ false

abbrev body_of : List Bytes → ℕ → Bytes → Bytes → Bool → EventStreamToSseBody
body_of parts reads sse_buffer es_buffer done = record {
  original = map data_chunk parts;
  reads = reads;
  sse_buffer = sse_buffer;
  es_buffer = es_buffer;
  done = done;
}

module _ (quote : Bytes → Bytes) (spares : ℕ → Bytes) where
  -- The buffer and the chunks to come are the bytes of some messages.
  abbrev Pending : List Bytes → Bytes → Bool → List Sent → Type 0
  Pending parts es_buffer done ms =
      (es_buffer ++ joined parts ≡ sent_bytes ms)
      × All FitsSent ms
      × All IsSome parts
      × ((done ≡ false) ⊎ (ms ≡ []))

  parse_event_stream_buffer-eq :
      (parts : List Bytes) (reads : ℕ) (sse_buffer es_buffer kept text : Bytes)
      → parse_loop quote (suc (length es_buffer)) (spares reads) es_buffer sse_buffer
        ≡ ok (kept, sse_buffer ++ text)
      → parse_event_stream_buffer quote spares (body_of parts reads sse_buffer es_buffer false)
        ≡ ok (body_of parts reads (sse_buffer ++ text) kept false)
  unfolding parse_event_stream_buffer
  parse_event_stream_buffer-eq parts reads sse_buffer es_buffer kept text e =
      bind-ok (parse_loop quote (suc (length es_buffer)) (spares reads) es_buffer sse_buffer) _ e

  -- A read of a chunk.
  read_and_buffer-chunk :
      (part : Bytes) (parts : List Bytes) (reads : ℕ) (sse_buffer es_buffer : Bytes)
      (ms : List Sent)
      → Pending (part ∷ parts) es_buffer false ms
      → (sse_buffer' es_buffer' : Bytes) × (ms' : List Sent) × (read_and_buffer quote spares
            (body_of (part ∷ parts) reads sse_buffer es_buffer false)
          ≡ ok (none, body_of parts (suc reads) sse_buffer' es_buffer' false))
        × Pending parts es_buffer' false ms'
        × (sse_buffer' ++ sent_events quote ms' ≡ sse_buffer ++ sent_events quote ms)
  unfolding read_and_buffer joined
  read_and_buffer-chunk part parts reads sse_buffer es_buffer ms pending =
      let left =
        parse_loop-Leaves quote (spares (suc reads)) ms (suc (length (es_buffer ++ part)))
          (es_buffer ++ part) sse_buffer (joined parts) (pending.1)
          (append_assoc es_buffer part (joined parts) ∙ pending.0) (omega arith) in
      (
        sse_buffer ++ left.1,
        left.0,
        left.2,
        if_false (is_empty part && true) _ _ (ap (λ b. b && true) (pending.2.0))
            ∙ bind-ok
                (parse_event_stream_buffer quote spares
                  (body_of parts (suc reads) sse_buffer (es_buffer ++ part) false))
                _
                (parse_event_stream_buffer-eq parts (suc reads) sse_buffer (es_buffer ++ part)
                  left.0 left.1 left.3),
        (left.4, left.6, pending.2.1, inl refl),
        append_assoc sse_buffer left.1 (sent_events quote left.2)
            ∙ ap (λ xs. sse_buffer ++ xs) left.5,
      )

  -- The read of the end.
  read_and_buffer-end :
      (reads : ℕ) (sse_buffer es_buffer : Bytes) (ms : List Sent)
      → Pending [] es_buffer false ms
      → (sse_buffer' es_buffer' : Bytes) × (read_and_buffer quote spares
            (body_of [] reads sse_buffer es_buffer false)
          ≡ ok (some eof, body_of [] (suc reads) sse_buffer' es_buffer' true))
        × Pending [] es_buffer' true []
        × (sse_buffer' ++ sent_events quote [] ≡ sse_buffer ++ sent_events quote ms)
  unfolding read_and_buffer joined
  read_and_buffer-end reads sse_buffer es_buffer ms pending =
      let left =
        parse_loop-Leaves quote (spares (suc reads)) ms (suc (length (es_buffer ++ [])))
          (es_buffer ++ []) sse_buffer [] (pending.1) (append-nil (es_buffer ++ []) ∙ pending.0)
          (omega arith) in
      let none_left = left.7 refl in
      (
        sse_buffer ++ left.1,
        left.0,
        bind-ok
            (parse_event_stream_buffer quote spares
              (body_of [] (suc reads) sse_buffer (es_buffer ++ []) false))
            _
            (parse_event_stream_buffer-eq [] (suc reads) sse_buffer (es_buffer ++ []) left.0 left.1
              left.3),
        (left.4 ∙ ap sent_bytes none_left, tt, tt, inr refl),
        ap (λ ms. (sse_buffer ++ left.1) ++ sent_events quote ms) (sym none_left)
            ∙ append_assoc sse_buffer left.1 (sent_events quote left.2)
            ∙ ap (λ xs. sse_buffer ++ xs) left.5,
      )

  -- A call of Read gives some of the text that is to come, or ends when none is.
  abbrev Gives :
      Bytes → Parsed MessageError (Bytes × Option BodyErr × EventStreamToSseBody) → Type 0
  Gives expected r =
      ((out : Bytes) × (parts : List Bytes) × (reads : ℕ) × (sse_buffer es_buffer : Bytes)
        × (done : Bool) × (ms : List Sent) × (r
            ≡ ok (out, none, body_of parts reads sse_buffer es_buffer done))
        × Pending parts es_buffer done ms
        × (0 < length out)
        × (out ++ (sse_buffer ++ sent_events quote ms) ≡ expected))
      ⊎ ((body : EventStreamToSseBody) × (r ≡ ok ([], some eof, body)) × (expected ≡ []))

  abbrev rounds : List Bytes → Bool → ℕ
  rounds parts true = 0
  rounds parts false = suc (length parts)

  after_end :
      (sse_buffer : Bytes) (body : EventStreamToSseBody)
      (again : Parsed MessageError (Bytes × Option BodyErr × EventStreamToSseBody))
      (expected : Bytes)
      → sse_buffer ++ [] ≡ expected
      → Gives expected again
      → Gives expected (if is_empty sse_buffer then ok ([], some eof, body) else again)
  after_end [] body again expected e later = inr (body, refl, sym e)
  after_end (b ∷ sse_buffer) body again expected e later = later

  -- What follows the read of a chunk or of the end, by the error it returned.
  after_chunk :
      ℕ
      → ℕ
      → Option BodyErr × EventStreamToSseBody
      → Parsed MessageError (Bytes × Option BodyErr × EventStreamToSseBody)
  after_chunk fuel size (e, body') = elim e [
    | none ↦ read_loop quote spares fuel size body'
    | some eof ↦
        if is_empty (body'.sse_buffer)
        then ok ([], some eof, body')
        else read_loop quote spares fuel size body'
    | some stream_closed ↦ ok ([], some stream_closed, body')
    | some original_err ↦ ok ([], some original_err, body')
  ]

  read_loop-Gives :
      (fuel size : ℕ) (parts : List Bytes) (reads : ℕ) (sse_buffer es_buffer : Bytes) (done : Bool)
      (ms : List Sent)
      → Pending parts es_buffer done ms
      → rounds parts done < fuel
      → Gives
          (sse_buffer ++ sent_events quote ms)
          (read_loop quote spares fuel (suc size) (body_of parts reads sse_buffer es_buffer done))
  unfolding read_loop sent_events after_chunk
  read_loop-Gives zero size parts reads sse_buffer es_buffer done ms pending enough =
      absurd (omega arith)
  read_loop-Gives (suc fuel) size parts reads (b ∷ sse_buffer) es_buffer done ms pending enough =
      inl (
        b ∷ take size sse_buffer,
        parts,
        reads,
        drop size sse_buffer,
        es_buffer,
        done,
        ms,
        refl,
        pending,
        omega arith,
        ap (λ xs. b ∷ xs)
            (sym (append_assoc (take size sse_buffer) (drop size sse_buffer) (sent_events quote ms))
              ∙ ap (λ xs. xs ++ sent_events quote ms) (take-append_drop size sse_buffer)),
      )
  read_loop-Gives (suc fuel) size parts reads [] es_buffer true ms pending enough = elim pending.3 [
    | inl going ↦ absurd (cc)
    | inr none_left ↦
        inr (body_of parts reads [] es_buffer true, refl, ap (sent_events quote) none_left)
  ]
  read_loop-Gives (suc fuel) size [] reads [] es_buffer false ms pending enough =
      let last = read_and_buffer-end reads [] es_buffer ms pending in
      let body' = body_of [] (suc reads) last.0 last.1 true in
      let again =
        read_loop-Gives fuel size [] (suc reads) last.0 last.1 true [] last.3 (omega arith) in
      subst (Gives (sent_events quote ms))
        (sym (
          bind-ok (read_and_buffer quote spares (body_of [] reads [] es_buffer false))
            (after_chunk fuel (suc size)) last.2))
        (after_end last.0 body' (read_loop quote spares fuel (suc size) body')
          (sent_events quote ms) last.4
          (subst (λ xs. Gives xs (read_loop quote spares fuel (suc size) body')) last.4 again))
  read_loop-Gives (suc fuel) size (part ∷ parts) reads [] es_buffer false ms pending enough =
      let more = read_and_buffer-chunk part parts reads [] es_buffer ms pending in
      let again =
        read_loop-Gives fuel size parts (suc reads) more.0 more.1 false more.2 more.4
          (omega arith) in
      subst (Gives (sent_events quote ms))
        (sym (
          bind-ok (read_and_buffer quote spares (body_of (part ∷ parts) reads [] es_buffer false))
            (after_chunk fuel (suc size)) more.3))
        (subst
          (λ xs. Gives xs (
            read_loop quote spares fuel (suc size) (body_of parts (suc reads) more.0 more.1 false)))
          more.5 again)

  read_all-gives :
      (fuel size : ℕ) (parts : List Bytes) (reads : ℕ) (sse_buffer es_buffer : Bytes) (done : Bool)
      (ms : List Sent)
      → Pending parts es_buffer done ms
      → length (sse_buffer ++ sent_events quote ms) < fuel
      → read_all quote spares fuel (suc size) (body_of parts reads sse_buffer es_buffer done)
        ≡ ok (sse_buffer ++ sent_events quote ms, some eof)
  unfolding read_all read sent_events
  read_all-gives zero size parts reads sse_buffer es_buffer done ms pending enough =
      absurd (omega arith)
  read_all-gives (suc fuel) size parts reads sse_buffer es_buffer done ms pending enough =
      elim (read_loop-Gives (suc (suc (suc (length (map data_chunk parts))))) size parts reads
        sse_buffer es_buffer done ms pending (rounds-enough done)) [
          | inr over ↦
              bind-ok (read quote spares (suc size) (body_of parts reads sse_buffer es_buffer done))
                _ over.1
              ∙ ap (λ xs. ok (xs, some eof)) (sym over.2)
          | inl some_text ↦
              bind-ok (read quote spares (suc size) (body_of parts reads sse_buffer es_buffer done))
                _ some_text.7
              ∙ bind-ok
                  (read_all quote spares fuel (suc size)
                    (body_of some_text.1 some_text.2 some_text.3 some_text.4 some_text.5))
                  _
                  (read_all-gives fuel size some_text.1 some_text.2 some_text.3 some_text.4
                    some_text.5 some_text.6 some_text.8
                    (omega (
                      arith,
                      enough,
                      ap length some_text.10,
                      some_text.9,
                      length-append some_text.0 (some_text.3 ++ sent_events quote some_text.6),
                    )))
              ∙ ap (λ xs. ok (xs, some eof)) some_text.10
        ]
    where
      rounds-enough :
          (done : Bool) → rounds parts done < suc (suc (suc (length (map data_chunk parts))))
      rounds-enough true = omega arith
      rounds-enough false = omega (arith, length-map parts data_chunk)

  -- When the body behind `eventStreamToSSEBody` gives the bytes of a sequence of messages, which
  -- fit the length fields of the format, in chunks that are not empty and come without an error,
  -- and then its end, a client that reads a fixed number of bytes at a time, one at least, gets
  -- exactly the events of the messages in their order and then io.EOF, however the bytes fall
  -- into chunks and whatever the buffer's array holds behind the buffer; it needs at most one
  -- call of Read more than the text has bytes.
  pub read_all-events :
      (ms : List Sent) (parts : List Bytes) (fuel size : ℕ)
      → All FitsSent ms
      → All IsSome parts
      → joined parts ≡ sent_bytes ms
      → length (sent_events quote ms) < fuel
      → read_all quote spares fuel (suc size) (new_event_stream_to_sse_body (map data_chunk parts))
        ≡ ok (sent_events quote ms, some eof)
  unfolding new_event_stream_to_sse_body
  read_all-events ms parts fuel size fits some_bytes same enough =
      read_all-gives fuel size parts 0 [] [] false ms (same, fits, some_bytes, inl refl) enough
