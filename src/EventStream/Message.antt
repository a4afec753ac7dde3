-- ===== src/EventStream/Message.antt =====
-- One message: `ParseEventStreamMessage` and its helpers in providers/eventstream.go. A Go slice is
-- its bytes up to its length and `spare`, what its array holds between its length and its capacity,
-- because slicing stops at the capacity only.
pub mod Frame
pub mod Body
pub mod Exact
pub mod Wire
use cc_relay.Base.{
  ℕ, ◌+◌, ◌-◌, ◌%◌, ◌^◌, ◌≡◌, Bool, true, false, not, List, [], ◌∷◌, ◌++◌, length, ltb, ◌==◌,
  if◌then◌else◌,
}
use cc_relay.EventStream.Parsed.{Parsed, ok, err, panic, stuck, ◌>>=◌, with_error, slice}
use cc_relay.EventStream.Bytes.{Bytes, uint32, checksum, add_u32, sub_u32}
use cc_relay.EventStream.Headers.{HeaderError, HeaderMap, parse_event_stream_headers}

-- The messages of the errors, with the numbers that they quote.
pub data MessageError : Type 0 where
  too_short invalid_total : ℕ → MessageError
  incomplete prelude_crc_mismatch message_crc_mismatch : ℕ → ℕ → MessageError
  bad_headers : HeaderError → MessageError

pub record EventStreamMessage : Type 0 where
  pub headers : HeaderMap
  pub payload : Bytes

-- `binary.BigEndian.Uint32(data[lo:hi])`
unfoldable pub read_uint32 : Bytes → ℕ → ℕ → Parsed MessageError ℕ
read_uint32 array lo hi = do part ← slice array lo hi; ok (uint32 part)

unfoldable pub parse_and_validate_prelude : Bytes → Bytes → Parsed MessageError (ℕ × ℕ)
parse_and_validate_prelude bytes spare = do
  total_len ← read_uint32 (bytes ++ spare) 0 4
  headers_len ← read_uint32 (bytes ++ spare) 4 8
  prelude_crc ← read_uint32 (bytes ++ spare) 8 12
  if ltb total_len 16
      then err (invalid_total total_len)
      else if ltb (length bytes) total_len
      then err (incomplete (length bytes) total_len)
      else (do
        prelude ← slice (bytes ++ spare) 0 8
        if checksum prelude == prelude_crc
            then ok (total_len, headers_len)
            else err (prelude_crc_mismatch (checksum prelude) prelude_crc))

unfoldable pub verify_message_crc : Bytes → Bytes → ℕ → Parsed MessageError (Unit {0})
verify_message_crc bytes spare total_len = do
  expected ← read_uint32 (bytes ++ spare) (sub_u32 total_len 4) total_len
  covered ← slice (bytes ++ spare) 0 (sub_u32 total_len 4)
  if checksum covered == expected
      then ok tt
      else err (message_crc_mismatch (checksum covered) expected)

unfoldable pub parse_event_stream_message :
    Bytes → Bytes → Parsed MessageError (EventStreamMessage × ℕ)
parse_event_stream_message bytes spare =
    if ltb (length bytes) 16 then err (too_short (length bytes)) else (do
      (total_len, headers_len) ← parse_and_validate_prelude bytes spare
      let payload_len = sub_u32 (sub_u32 (sub_u32 total_len 12) headers_len) 4
      verified ← verify_message_crc bytes spare total_len
      header_bytes ← slice (bytes ++ spare) 12 (add_u32 12 headers_len)
      headers ← with_error bad_headers (parse_event_stream_headers header_bytes)
      let payload_start = add_u32 12 headers_len
      payload ← slice (bytes ++ spare) payload_start (add_u32 payload_start payload_len)
      ok (record { headers = headers; payload = payload }, total_len))
