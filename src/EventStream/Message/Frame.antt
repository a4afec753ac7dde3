-- ===== src/EventStream/Message/Frame.antt =====
-- A message that a slice begins with, by the format in the comment of `ParseEventStreamMessage`, and
-- what each step of the parser reads of it.
use cc_relay.Base.{
  ℕ, ◌+◌, ◌-◌, ◌^◌, ◌<◌, ◌≤◌, ◌≡◌, refl, sym, ap, ◌∙◌, lt-cases, ltb, ◌==◌, [], ◌∷◌, ◌++◌, length,
  take, drop, inl, inr, if◌then◌else◌, if_true, if_false, le→ltb, lt→ltb, arith,
}
use cc_relay.EventStream.Parsed.{
  Parsed, ok, err, ◌>>=◌, bind-ok, bind-err, err≢ok, slice, slice-within,
}
use cc_relay.EventStream.Bytes.{Bytes, AreBytes, uint32, checksum}
use cc_relay.EventStream.Headers.{parse_event_stream_headers}
use cc_relay.EventStream.Message.{
  prelude_crc_mismatch, invalid_total, incomplete, too_short, MessageError, EventStreamMessage,
  read_uint32, parse_and_validate_prelude, parse_event_stream_message,
}

abbrev pub total_of : Bytes → ℕ
total_of bytes = uint32 bytes

abbrev pub headers_len_of : Bytes → ℕ
headers_len_of bytes = uint32 (drop 4 bytes)

abbrev pub header_bytes_of : Bytes → Bytes
header_bytes_of bytes = take (headers_len_of bytes) (drop 12 bytes)

-- The slice holds the whole message that its first four bytes announce.
abbrev pub IsComplete : Bytes → Type 0
IsComplete bytes = (16 ≤ length bytes) × (16 ≤ total_of bytes) × (total_of bytes ≤ length bytes)

-- Both checksums of the message are those of its bytes.
abbrev pub HasValidSums : Bytes → Type 0
HasValidSums bytes =
    (checksum (take 8 bytes) ≡ uint32 (drop 8 bytes))
    × (checksum (take (total_of bytes - 4) bytes) ≡ uint32 (drop (total_of bytes - 4) bytes))

-- The slice begins with a message of `count` bytes, whose headers and payload are those of `m`.
abbrev pub IsFrame : Bytes → EventStreamMessage → ℕ → Type 0
IsFrame bytes m count =
    IsComplete bytes
    × HasValidSums bytes
    × (16 + headers_len_of bytes ≤ total_of bytes)
    × (parse_event_stream_headers (header_bytes_of bytes) ≡ ok (m.headers))
    × (m.payload
        ≡ take (total_of bytes - 16 - headers_len_of bytes)
            (drop (12 + headers_len_of bytes) bytes))
    × (count ≡ total_of bytes)

uint32-take : (xs : Bytes) → uint32 (take 4 xs) ≡ uint32 xs
unfolding uint32
uint32-take [] = refl
uint32-take (a ∷ []) = refl
uint32-take (a ∷ b ∷ []) = refl
uint32-take (a ∷ b ∷ c ∷ []) = refl
uint32-take (a ∷ b ∷ c ∷ d ∷ rest) = refl

pub uint32-lt : (xs : Bytes) → AreBytes xs → uint32 xs < 2 ^ 32
unfolding uint32
uint32-lt [] h = omega arith
uint32-lt (a ∷ []) h = omega arith
uint32-lt (a ∷ b ∷ []) h = omega arith
uint32-lt (a ∷ b ∷ c ∷ []) h = omega arith
uint32-lt (a ∷ b ∷ c ∷ d ∷ rest) h = omega (arith, h.0, h.1.0, h.1.1.0, h.1.1.1.0)

pub read_uint32-within :
    (bytes spare : Bytes) (lo hi : ℕ)
    → hi ≡ lo + 4
    → hi ≤ length bytes
    → read_uint32 (bytes ++ spare) lo hi ≡ ok (uint32 (drop lo bytes))
unfolding read_uint32
read_uint32-within bytes spare lo hi e fits =
    bind-ok (slice (bytes ++ spare) lo hi) _
      (slice-within bytes spare lo hi (omega (arith, e)) fits)
    ∙ ap (λ n. ok (uint32 (take n (drop lo bytes)))) four
    ∙ ap ok (uint32-take (drop lo bytes))
  where
    four : hi - lo ≡ 4
    four = omega (arith, e)

unfoldable pub after_sum : Bytes → Parsed MessageError (ℕ × ℕ)
after_sum bytes =
    if checksum (take 8 bytes) == uint32 (drop 8 bytes)
    then ok (total_of bytes, headers_len_of bytes)
    else err (prelude_crc_mismatch (checksum (take 8 bytes)) (uint32 (drop 8 bytes)))

pub parse_and_validate_prelude-long :
    (bytes spare : Bytes)
    → 16 ≤ length bytes
    → parse_and_validate_prelude bytes spare ≡ (
        if ltb (total_of bytes) 16
        then err (invalid_total (total_of bytes))
        else if ltb (length bytes) (total_of bytes)
        then err (incomplete (length bytes) (total_of bytes))
        else after_sum bytes)
unfolding parse_and_validate_prelude after_sum
parse_and_validate_prelude-long bytes spare long =
    bind-ok (read_uint32 (bytes ++ spare) 0 4) _
      (read_uint32-within bytes spare 0 4 refl (omega arith))
    ∙ bind-ok (read_uint32 (bytes ++ spare) 4 8) _
        (read_uint32-within bytes spare 4 8 refl (omega arith))
    ∙ bind-ok (read_uint32 (bytes ++ spare) 8 12) _
        (read_uint32-within bytes spare 8 12 refl (omega arith))
    ∙ ap
        (λ r.
          if ltb (total_of bytes) 16
          then err (invalid_total (total_of bytes))
          else if ltb (length bytes) (total_of bytes)
          then err (incomplete (length bytes) (total_of bytes))
          else (r >>= (λ prelude.
              if checksum prelude == uint32 (drop 8 bytes)
              then ok (total_of bytes, headers_len_of bytes)
              else err (prelude_crc_mismatch (checksum prelude) (uint32 (drop 8 bytes))))))
        (slice-within bytes spare 0 8 (omega arith) (omega arith))

-- A slice without a whole message is refused.
module _ (bytes spare : Bytes) where
  pub parse_event_stream_message-short :
      length bytes < 16 → parse_event_stream_message bytes spare ≡ err (too_short (length bytes))
  unfolding parse_event_stream_message
  parse_event_stream_message-short short =
      if_true (ltb (length bytes) 16) _ _ (lt→ltb (length bytes) 16 short)

  pub parse-prelude_err :
      (e : MessageError)
      → 16 ≤ length bytes
      → parse_and_validate_prelude bytes spare ≡ err e
      → parse_event_stream_message bytes spare ≡ err e
  unfolding parse_event_stream_message
  parse-prelude_err e long fails =
      if_false (ltb (length bytes) 16) _ _ (le→ltb (length bytes) 16 long)
      ∙ bind-err (parse_and_validate_prelude bytes spare) _ fails

  parse_event_stream_message-invalid :
      16 ≤ length bytes
      → total_of bytes < 16
      → parse_event_stream_message bytes spare ≡ err (invalid_total (total_of bytes))
  parse_event_stream_message-invalid long small = parse-prelude_err _ long (
      parse_and_validate_prelude-long bytes spare long
      ∙ if_true (ltb (total_of bytes) 16) _ _ (lt→ltb (total_of bytes) 16 small))

  pub parse_event_stream_message-incomplete :
      16 ≤ length bytes
      → 16 ≤ total_of bytes
      → length bytes < total_of bytes
      → parse_event_stream_message bytes spare ≡ err (incomplete (length bytes) (total_of bytes))
  parse_event_stream_message-incomplete long big missing = parse-prelude_err _ long (
      parse_and_validate_prelude-long bytes spare long
      ∙ if_false (ltb (total_of bytes) 16) _ _ (le→ltb (total_of bytes) 16 big)
      ∙ if_true (ltb (length bytes) (total_of bytes)) _ _
          (lt→ltb (length bytes) (total_of bytes) missing))

  pub ok→IsComplete :
      {m : EventStreamMessage} {count : ℕ}
      → parse_event_stream_message bytes spare ≡ ok (m, count)
      → IsComplete bytes
  ok→IsComplete e = elim (lt-cases (length bytes) 16) [
    | inl short ↦ absurd (err≢ok (sym (parse_event_stream_message-short short) ∙ e))
    | inr long ↦ elim (lt-cases (total_of bytes) 16) [
      | inl small ↦ absurd (err≢ok (sym (parse_event_stream_message-invalid long small) ∙ e))
      | inr big ↦ elim (lt-cases (length bytes) (total_of bytes)) [
        | inl missing ↦
            absurd (err≢ok (sym (parse_event_stream_message-incomplete long big missing) ∙ e))
        | inr there ↦ (long, big, there)
      ]
    ]
  ]
