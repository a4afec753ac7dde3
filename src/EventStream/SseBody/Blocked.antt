-- ===== src/EventStream/SseBody/Blocked.antt =====
-- A damaged message stays at the front of the buffer, and nothing behind it is converted.
use cc_relay.Base.{
  ℕ, suc, ◌+◌, ◌-◌, ◌<◌, ◌≤◌, ◌≡◌, refl, sym, ap, ◌∙◌, Bool-cases, inl, inr, ◌&&◌, ◌++◌, length,
  is_empty, take, drop, All-append, arith, append_assoc, length-append, take-append_left,
  drop-append_left, length-drop, Option, some, if_true, if_false,
}
use cc_relay.EventStream.Parsed.{ok, bind-ok}
use cc_relay.EventStream.Bytes.{Bytes, AreBytes, uint32, checksum}
use cc_relay.EventStream.Message.Frame.{total_of, HasValidSums}
use cc_relay.EventStream.Message.Exact.{parse_event_stream_message-damaged}
use cc_relay.EventStream.SseBody.{
  EventStreamToSseBody, BodyErr, stream_closed, body_err, ends, first_chunk, append_chunk, set_done,
  is_no_err, parse_loop, parse_event_stream_buffer, read_and_buffer,
}
use cc_relay.EventStream.SseBody.Chunks.{uint32-append, step}

-- The bytes are as many as they announce, and a checksum of theirs is wrong.
abbrev pub IsDamaged : Bytes → Type 0
IsDamaged bytes =
    AreBytes bytes
    × (16 ≤ length bytes)
    × (total_of bytes ≡ length bytes)
    × (HasValidSums bytes → ⊥)

-- The checksums of a message do not depend on what follows it.
sums-front :
    (bytes more : Bytes)
    → 16 ≤ length bytes
    → total_of bytes ≡ length bytes
    → HasValidSums (bytes ++ more)
    → HasValidSums bytes
sums-front bytes more long whole sums =
    let total = uint32-append bytes more (omega arith) in
    (
      ap checksum (sym (take-append_left 8 bytes more (omega arith)))
          ∙ sums.0
          ∙ uint32-part 8 (omega arith),
      ap checksum (sym (take-append_left (total_of bytes - 4) bytes more (omega (arith, whole))))
          ∙ ap (λ n. checksum (take (n - 4) (bytes ++ more))) (sym total)
          ∙ sums.1
          ∙ ap (λ n. uint32 (drop (n - 4) (bytes ++ more))) total
          ∙ uint32-part (total_of bytes - 4) (omega (arith, whole)),
    )
  where
    uint32-part :
        (k : ℕ) → k + 4 ≤ length bytes → uint32 (drop k (bytes ++ more)) ≡ uint32 (drop k bytes)
    uint32-part k h =
        ap uint32 (drop-append_left k bytes more (omega arith))
        ∙ uint32-append (drop k bytes) more (omega (arith, length-drop k bytes (omega arith)))

module _ (quote : Bytes → Bytes) (spares : ℕ → Bytes) where
  parse_loop-blocked :
      (fuel : ℕ) (spare bytes more sse_buffer : Bytes)
      → IsDamaged bytes
      → AreBytes more
      → parse_loop quote (suc fuel) spare (bytes ++ more) sse_buffer
        ≡ ok (bytes ++ more, sse_buffer)
  unfolding parse_loop
  parse_loop-blocked fuel spare bytes more sse_buffer damaged are_bytes =
      let total = uint32-append bytes more (omega (arith, damaged.1)) in
      ap (step quote spare fuel (bytes ++ more) sse_buffer)
        (parse_event_stream_message-damaged (bytes ++ more) spare
          (All-append (λ b. b < 256) bytes more damaged.0 are_bytes)
          (
            omega (arith, damaged.1, length-append bytes more),
            omega (arith, damaged.1, damaged.2, total),
            omega (arith, damaged.2, total, length-append bytes more),
          )
          (λ sums. damaged.3 (sums-front bytes more damaged.1 damaged.2 sums))).1

  -- When the buffer of an `eventStreamToSSEBody` begins with a message that is whole and has a
  -- wrong checksum, a read of the wrapped body, whatever bytes it gives, adds no event to the
  -- SSE buffer and leaves the damaged message at the front of the buffer, with the new bytes
  -- behind it.
  pub read_and_buffer-blocked :
      (body : EventStreamToSseBody) (bytes more : Bytes)
      → IsDamaged bytes
      → AreBytes more
      → AreBytes ((first_chunk (body.original)).bytes)
      → body.es_buffer ≡ bytes ++ more
      → (e : Option BodyErr) × (after : EventStreamToSseBody) × (read_and_buffer quote spares body
          ≡ ok (e, after))
        × (after.sse_buffer ≡ body.sse_buffer)
        × (after.es_buffer ≡ bytes ++ (more ++ (first_chunk (body.original)).bytes))
  unfolding read_and_buffer parse_event_stream_buffer
  read_and_buffer-blocked body bytes more damaged are_bytes chunk_bytes same =
      let chunk = first_chunk (body.original) in
      let filled = append_chunk body in
      let kept : filled.es_buffer ≡ bytes ++ (more ++ chunk.bytes) =
        ap (λ xs. xs ++ chunk.bytes) same ∙ append_assoc bytes more (chunk.bytes) in
      elim (Bool-cases (is_empty (chunk.bytes) && is_no_err quote spares (chunk.read_err))) [
        | inl nothing ↦ (
          some stream_closed,
          filled,
          if_true (is_empty (chunk.bytes) && is_no_err quote spares (chunk.read_err)) _ _ nothing,
          refl,
          kept,
        )
        | inr something ↦ (
          body_err (chunk.read_err),
          set_done (ends (chunk.read_err)) filled,
          if_false (is_empty (chunk.bytes) && is_no_err quote spares (chunk.read_err)) _ _ something
              ∙ bind-ok (parse_event_stream_buffer quote spares filled) _ (
                  bind-ok
                    (parse_loop quote (suc (length (filled.es_buffer))) (spares (filled.reads))
                      (filled.es_buffer) (filled.sse_buffer))
                    _
                    (ap
                        (λ xs.
                          parse_loop quote (suc (length (filled.es_buffer))) (spares (filled.reads))
                            xs (filled.sse_buffer))
                        kept
                      ∙ parse_loop-blocked (length (filled.es_buffer)) (spares (filled.reads)) bytes
                          (more ++ chunk.bytes) (filled.sse_buffer) damaged
                          (All-append (λ b. b < 256) more (chunk.bytes) are_bytes chunk_bytes)
                      ∙ ap (λ xs. ok (xs, filled.sse_buffer)) (sym kept))),
          refl,
          kept,
        )
      ]
