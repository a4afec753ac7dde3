-- ===== src/EventStream/Message/Body.antt =====
-- What the parser does with a whole message: its checksums, its headers and its payload.
use cc_relay.Base.{
  ℕ, ◌+◌, ◌-◌, ◌^◌, ◌<◌, ◌≤◌, ◌≡◌, sym, ap, ◌∙◌, true, false, Bool-cases, ap₂, ltb, ◌==◌, ==_iff,
  ◌++◌, length, take, drop, inl, inr, if◌then◌else◌, if_true, if_false, le→ltb, arith,
}
use cc_relay.EventStream.Parsed.{
  Parsed, ok, err, panic, ◌>>=◌, with_error, bind-ok, bind-err, err≢ok, with_error-ok, bind-inv,
  with_error-inv, ok-inj, slice, slice-within, slice-bounds, slice-outside,
}
use cc_relay.EventStream.Bytes.{Bytes, uint32, checksum, add_u32, sub_u32}
use cc_relay.EventStream.Headers.{HeaderMap, parse_event_stream_headers}
use cc_relay.EventStream.Message.{
  prelude_crc_mismatch, message_crc_mismatch, MessageError, bad_headers, EventStreamMessage,
  read_uint32, parse_and_validate_prelude, verify_message_crc, parse_event_stream_message,
}
use cc_relay.EventStream.Message.Frame.{
  total_of, headers_len_of, header_bytes_of, IsComplete, HasValidSums, IsFrame, read_uint32-within,
  after_sum, parse_and_validate_prelude-long, parse-prelude_err,
}

part_len : (n : ℕ) → 12 + n - 12 ≡ n
part_len n = omega arith

payload_len : (n h : ℕ) → n - 4 - (12 + h) ≡ n - 16 - h
payload_len n h = omega arith

zero_less : (k : ℕ) → k - 0 ≡ k
zero_less k = omega arith

module _ (bytes spare : Bytes) (whole : IsComplete bytes) (total_of-lt : total_of bytes < 2 ^ 32)
    (headers_len_of-lt : headers_len_of bytes < 2 ^ 32) where
  -- With a whole message there, the prelude's checksum decides.
  parse_and_validate_prelude-eq : parse_and_validate_prelude bytes spare ≡ after_sum bytes
  parse_and_validate_prelude-eq =
      parse_and_validate_prelude-long bytes spare whole.0
      ∙ if_false (ltb (total_of bytes) 16) _ _ (le→ltb (total_of bytes) 16 whole.1)
      ∙ if_false (ltb (length bytes) (total_of bytes)) _ _
          (le→ltb (length bytes) (total_of bytes) whole.2)

  offset-eq : sub_u32 (total_of bytes) 4 ≡ total_of bytes - 4
  offset-eq = omega (arith, total_of-lt, whole.1)

  slice-front :
      (k : ℕ)
      → k ≤ length bytes
      → Path (Parsed MessageError Bytes) (slice (bytes ++ spare) 0 k) (ok (take k bytes))
  slice-front k fits =
      slice-within bytes spare 0 k (omega arith) fits ∙ ap (λ n. ok (take n bytes)) (zero_less k)

  verify_message_crc-eq : verify_message_crc bytes spare (total_of bytes) ≡ (
      if checksum (take (total_of bytes - 4) bytes) == uint32 (drop (total_of bytes - 4) bytes)
      then ok tt
      else err (
          message_crc_mismatch
            (checksum (take (total_of bytes - 4) bytes))
            (uint32 (drop (total_of bytes - 4) bytes))))
  unfolding verify_message_crc
  verify_message_crc-eq =
      ap (λ k. read_uint32 (bytes ++ spare) k (total_of bytes) >>= check k) offset-eq
      ∙ bind-ok (read_uint32 (bytes ++ spare) (total_of bytes - 4) (total_of bytes)) _ (
          read_uint32-within bytes spare (total_of bytes - 4) (total_of bytes)
            (omega (arith, whole.1)) whole.2)
      ∙ bind-ok (slice (bytes ++ spare) 0 (total_of bytes - 4)) _
          (slice-front (total_of bytes - 4) (omega (arith, whole.2)))
    where
      check : ℕ → ℕ → Parsed MessageError (Unit {0})
      check k expected = slice (bytes ++ spare) 0 k >>= (λ covered.
          if checksum covered == expected
          then ok tt
          else err (message_crc_mismatch (checksum covered) expected))

  -- Behind the checksums: the headers up to `start`, and the payload up to `stop`.
  pub body : ℕ → ℕ → Parsed MessageError (EventStreamMessage × ℕ)
  body start stop = do
    header_bytes ← slice (bytes ++ spare) 12 start
    headers ← with_error bad_headers (parse_event_stream_headers header_bytes)
    payload ← slice (bytes ++ spare) start stop
    ok (record { headers = headers; payload = payload }, total_of bytes)

  abbrev pub start_u32 : ℕ
  start_u32 = add_u32 12 (headers_len_of bytes)

  abbrev pub stop_u32 : ℕ
  stop_u32 =
      add_u32 start_u32 (sub_u32 (sub_u32 (sub_u32 (total_of bytes) 12) (headers_len_of bytes)) 4)

  pub sums→body :
      HasValidSums bytes → parse_event_stream_message bytes spare ≡ body start_u32 stop_u32
  unfolding parse_event_stream_message body after_sum
  sums→body sums =
      if_false (ltb (length bytes) 16) _ _ (le→ltb (length bytes) 16 whole.0)
      ∙ bind-ok (parse_and_validate_prelude bytes spare) _ (
          parse_and_validate_prelude-eq
          ∙ if_true (checksum (take 8 bytes) == uint32 (drop 8 bytes)) _ _
              ((==_iff _ _).1 (sums.0)))
      ∙ bind-ok (verify_message_crc bytes spare (total_of bytes)) _ (
          verify_message_crc-eq
          ∙ if_true
              (checksum (take (total_of bytes - 4) bytes)
                == uint32 (drop (total_of bytes - 4) bytes))
              _ _ ((==_iff _ _).1 (sums.1)))

  -- In a message whose parts fit, the sums do not wrap.
  start-eq : 16 + headers_len_of bytes ≤ total_of bytes → start_u32 ≡ 12 + headers_len_of bytes
  start-eq fits = omega (arith, total_of-lt)

  stop-eq : 16 + headers_len_of bytes ≤ total_of bytes → stop_u32 ≡ total_of bytes - 4
  stop-eq fits = omega (arith, total_of-lt, fits)

  payload_of : Bytes
  payload_of =
      take (total_of bytes - 16 - headers_len_of bytes) (drop (12 + headers_len_of bytes) bytes)

  with_headers : HeaderMap → Parsed MessageError (EventStreamMessage × ℕ)
  with_headers headers = ok (record { headers = headers; payload = payload_of }, total_of bytes)

  body-eq :
      16 + headers_len_of bytes ≤ total_of bytes
      → body (12 + headers_len_of bytes) (total_of bytes - 4) ≡ (
          with_error bad_headers (parse_event_stream_headers (header_bytes_of bytes))
          >>= with_headers)
  unfolding body with_headers payload_of
  body-eq fits =
      bind-ok (slice (bytes ++ spare) 12 (12 + headers_len_of bytes)) _ (
        slice-within bytes spare 12 (12 + headers_len_of bytes) (omega arith)
          (omega (arith, whole.2))
        ∙ ap (λ n. ok (take n (drop 12 bytes))) (part_len (headers_len_of bytes)))
      ∙ ap
          (λ r.
            with_error bad_headers (parse_event_stream_headers (header_bytes_of bytes))
            >>= (λ headers. r >>= (λ payload.
                ok (record { headers = headers; payload = payload }, total_of bytes))))
          (slice-within bytes spare (12 + headers_len_of bytes) (total_of bytes - 4) (omega arith)
              (omega (arith, whole.2))
            ∙ ap (λ n. ok (take n (drop (12 + headers_len_of bytes) bytes)))
                (payload_len (total_of bytes) (headers_len_of bytes)))

  -- Where the code returns, they fit.
  body-inv :
      (m : EventStreamMessage) (count : ℕ)
      → body start_u32 stop_u32 ≡ ok (m, count)
      → 16 + headers_len_of bytes ≤ total_of bytes
  unfolding body
  body-inv m count e =
      let first = bind-inv (slice (bytes ++ spare) 12 start_u32) _ e in
      let second =
        bind-inv (with_error bad_headers (parse_event_stream_headers first.0)) _ (first.2) in
      let third = bind-inv (slice (bytes ++ spare) start_u32 stop_u32) _ (second.2) in
      omega (
        arith,
        whole.1,
        total_of-lt,
        headers_len_of-lt,
        (slice-bounds (bytes ++ spare) 12 start_u32 (first.1)).0,
        (slice-bounds (bytes ++ spare) start_u32 stop_u32 (third.1)).0,
      )

  body-parts :
      (m : EventStreamMessage) (count : ℕ)
      → (with_error bad_headers (parse_event_stream_headers (header_bytes_of bytes))
          >>= with_headers)
        ≡ ok (m, count)
      → (parse_event_stream_headers (header_bytes_of bytes) ≡ ok (m.headers))
        × (m.payload ≡ payload_of)
        × (count ≡ total_of bytes)
  unfolding with_headers
  body-parts m count e =
      let step =
        bind-inv (with_error bad_headers (parse_event_stream_headers (header_bytes_of bytes)))
          with_headers e in
      let same = ok-inj (step.2) in
      (
        with_error-inv bad_headers (parse_event_stream_headers (header_bytes_of bytes)) (step.1)
            ∙ ap (λ p. ok (p.0.headers)) same,
        ap (λ p. p.0.payload) (sym same),
        ap (λ p. p.1) (sym same),
      )

  pub prelude-wrong :
      (checksum (take 8 bytes) == uint32 (drop 8 bytes)) ≡ false
      → parse_event_stream_message bytes spare
        ≡ err (prelude_crc_mismatch (checksum (take 8 bytes)) (uint32 (drop 8 bytes)))
  unfolding after_sum
  prelude-wrong differ = parse-prelude_err bytes spare _ whole.0 (
      parse_and_validate_prelude-eq
      ∙ if_false (checksum (take 8 bytes) == uint32 (drop 8 bytes)) _ _ differ)

  pub message-wrong :
      (checksum (take 8 bytes) == uint32 (drop 8 bytes)) ≡ true
      → (checksum (take (total_of bytes - 4) bytes) == uint32 (drop (total_of bytes - 4) bytes))
        ≡ false
      → parse_event_stream_message bytes spare
        ≡ err (
            message_crc_mismatch
              (checksum (take (total_of bytes - 4) bytes))
              (uint32 (drop (total_of bytes - 4) bytes)))
  unfolding parse_event_stream_message after_sum
  message-wrong same differ =
      if_false (ltb (length bytes) 16) _ _ (le→ltb (length bytes) 16 whole.0)
      ∙ bind-ok (parse_and_validate_prelude bytes spare) _ (
          parse_and_validate_prelude-eq
          ∙ if_true (checksum (take 8 bytes) == uint32 (drop 8 bytes)) _ _ same)
      ∙ bind-err (verify_message_crc bytes spare (total_of bytes)) _ (
          verify_message_crc-eq
          ∙ if_false
              (checksum (take (total_of bytes - 4) bytes)
                == uint32 (drop (total_of bytes - 4) bytes))
              _ _ differ)

  -- Where the code returns, the checksums were right.
  ok→HasValidSums :
      {m : EventStreamMessage} {count : ℕ}
      → parse_event_stream_message bytes spare ≡ ok (m, count)
      → HasValidSums bytes
  ok→HasValidSums e = elim (Bool-cases (checksum (take 8 bytes) == uint32 (drop 8 bytes))) [
    | inr differ ↦ absurd (err≢ok (sym (prelude-wrong differ) ∙ e))
    | inl same ↦
        elim (Bool-cases (
          checksum (take (total_of bytes - 4) bytes) == uint32 (drop (total_of bytes - 4) bytes))) [
            | inr differ ↦ absurd (err≢ok (sym (message-wrong same differ) ∙ e))
            | inl same' ↦ ((==_iff _ _).0 same, (==_iff _ _).0 same')
          ]
  ]

  pub IsFrame→ok :
      (m : EventStreamMessage) (count : ℕ)
      → IsFrame bytes m count
      → parse_event_stream_message bytes spare ≡ ok (m, count)
  unfolding with_headers payload_of
  IsFrame→ok m count frame =
      sums→body frame.1
      ∙ ap₂ body (start-eq frame.2) (stop-eq frame.2)
      ∙ body-eq frame.2
      ∙ bind-ok (with_error bad_headers (parse_event_stream_headers (header_bytes_of bytes))) _
          (with_error-ok bad_headers (parse_event_stream_headers (header_bytes_of bytes)) (frame.3))
      ∙ ap₂ (λ p n. ok (record { headers = m.headers; payload = p }, n)) (sym (frame.4))
          (sym (frame.5))

  pub ok→IsFrame :
      (m : EventStreamMessage) (count : ℕ)
      → parse_event_stream_message bytes spare ≡ ok (m, count)
      → IsFrame bytes m count
  unfolding payload_of
  ok→IsFrame m count e =
      let sums = ok→HasValidSums e in
      let fits = body-inv m count (sym (sums→body sums) ∙ e) in
      let parts = body-parts m count (
        sym (body-eq fits)
        ∙ sym (ap₂ body (start-eq fits) (stop-eq fits))
        ∙ sym (sums→body sums)
        ∙ e) in
      (whole, sums, fits, parts.0, parts.1, parts.2)

  -- A header section past the end of the array panics.
  pub body-panics : length (bytes ++ spare) < start_u32 → body start_u32 stop_u32 ≡ panic
  unfolding body
  body-panics over =
      ap
        (λ r. r >>= (λ header_bytes.
          with_error bad_headers (parse_event_stream_headers header_bytes) >>= (λ headers.
            slice (bytes ++ spare) start_u32 stop_u32
            >>= (λ payload. ok (record { headers = headers; payload = payload }, total_of bytes)))))
        (slice-outside (bytes ++ spare) 12 start_u32 over)
