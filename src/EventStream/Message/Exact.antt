-- ===== src/EventStream/Message/Exact.antt =====
-- When the parser returns a message, refuses one and panics.
use cc_relay.Base.{
  ℕ, ◌+◌, ◌-◌, ◌^◌, ◌<◌, ◌≡◌, ◌∙◌, Bool-cases, ◌↔◌, ◌==◌, ==_iff, ◌++◌, length, take, drop,
  All-drop, inl, inr, arith,
}
use cc_relay.EventStream.Parsed.{ok, err, panic}
use cc_relay.EventStream.Bytes.{Bytes, AreBytes, uint32, checksum}
use cc_relay.EventStream.Message.{MessageError, EventStreamMessage, parse_event_stream_message}
use cc_relay.EventStream.Message.Frame.{
  total_of, headers_len_of, IsComplete, HasValidSums, IsFrame, uint32-lt, ok→IsComplete,
}
use cc_relay.EventStream.Message.Body.{
  IsFrame→ok, ok→IsFrame, prelude-wrong, message-wrong, sums→body, body-panics,
}

lengths-lt :
    (bytes : Bytes) → AreBytes bytes → (total_of bytes < 2 ^ 32) × (headers_len_of bytes < 2 ^ 32)
lengths-lt bytes h =
    (uint32-lt bytes h, uint32-lt (drop 4 bytes) (All-drop (λ b. b < 256) 4 bytes h))

-- For a slice of bytes below 256, `ParseEventStreamMessage` returns a message and a number
-- exactly when the slice holds as many bytes as its first four announce, at least 16, both
-- checksums are right, the header section and the 16 fixed bytes fit into the message, the
-- headers are those that the header parser returns for that section, the payload is the part
-- behind it, and the number is the message's length; what the array holds behind the slice does
-- not matter.
pub parse_event_stream_message-IsFrame :
    (bytes spare : Bytes) (m : EventStreamMessage) (count : ℕ)
    → AreBytes bytes
    → (parse_event_stream_message bytes spare ≡ ok (m, count)) ↔ IsFrame bytes m count
parse_event_stream_message-IsFrame bytes spare m count are_bytes =
    let lt = lengths-lt bytes are_bytes in
    (
      λ e. ok→IsFrame bytes spare (ok→IsComplete bytes spare e) lt.0 lt.1 m count e,
      λ frame. IsFrame→ok bytes spare frame.0 lt.0 lt.1 m count frame,
    )

-- A whole message with a wrong checksum is refused.
pub parse_event_stream_message-damaged :
    (bytes spare : Bytes)
    → AreBytes bytes
    → IsComplete bytes
    → (HasValidSums bytes → ⊥)
    → (e : MessageError) × (parse_event_stream_message bytes spare ≡ err e)
parse_event_stream_message-damaged bytes spare are_bytes whole wrong =
    let lt = lengths-lt bytes are_bytes in
    elim (Bool-cases (checksum (take 8 bytes) == uint32 (drop 8 bytes))) [
      | inr differ ↦ (_, prelude-wrong bytes spare whole lt.0 lt.1 differ)
      | inl same ↦
          elim (Bool-cases (
            checksum (take (total_of bytes - 4) bytes)
            == uint32 (drop (total_of bytes - 4) bytes))) [
              | inr differ ↦ (_, message-wrong bytes spare whole lt.0 lt.1 same differ)
              | inl same' ↦ absurd (wrong ((==_iff _ _).0 same, (==_iff _ _).0 same'))
            ]
    ]

-- `ParseEventStreamMessage` panics on a whole message with right checksums whose header length,
-- with 12 added, passes the end of the slice's array and is below 2^32.
pub parse_event_stream_message-panic :
    (bytes spare : Bytes)
    → AreBytes bytes
    → IsComplete bytes
    → HasValidSums bytes
    → length (bytes ++ spare) < 12 + headers_len_of bytes
    → 12 + headers_len_of bytes < 2 ^ 32
    → parse_event_stream_message bytes spare ≡ panic
parse_event_stream_message-panic bytes spare are_bytes whole sums over small =
    let lt = lengths-lt bytes are_bytes in
    sums→body bytes spare whole lt.0 lt.1 sums
    ∙ body-panics bytes spare whole lt.0 lt.1 (omega (arith, over, small))
