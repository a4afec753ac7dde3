-- ===== src/EventStream/Headers.antt =====
-- The headers of an event stream message: the functions of providers/eventstream.go from
-- `parseEventStreamHeaders` to `advanceOffset`. An offset is a Go `int` that is never negative and
-- at most 65,535 past the length of a slice, so it is a number, and its sums do not wrap. The array of
-- the slice is taken to end where the slice does: an expression past the length panics here, where Go
-- goes on up to the capacity.
pub mod Wire
pub mod Bounds
pub mod Lookup
pub mod RoundTrip
use cc_relay.Base.{
  ℕ, zero, suc, ◌+◌, ◌<◌, ◌≡◌, refl, Bool, true, false, ◌||◌, List, [], ◌∷◌, ◌++◌, length, ltb, leb,
  ◌==◌, if◌then◌else◌, Option, none, some, get_elem?,
}
use cc_relay.EventStream.Parsed.{Parsed, ok, err, panic, stuck, ◌>>=◌, with_error, slice}
use cc_relay.EventStream.Bytes.{Bytes, uint16, bytes_eq}

-- The messages of the errors.
pub data HeaderError : Type 0 where
  offset_out_of_bounds slice_out_of_bounds name_truncated : HeaderError
  type_missing length_truncated value_truncated bytes_length_truncated : Bytes → HeaderError
  unknown_type : ℕ → Bytes → HeaderError

-- The Go map from header names to values, as an association list.
abbrev pub HeaderMap : Type 0
HeaderMap = List (Bytes × Bytes)

unfoldable pub lookup_header : HeaderMap → Bytes → Option Bytes
lookup_header [] name = none
lookup_header (entry ∷ entries) name =
    let later = lookup_header entries name in if bytes_eq entry.0 name then some entry.1 else later

-- `headers[name] = value`.
unfoldable pub insert_header : HeaderMap → Bytes → Bytes → HeaderMap
insert_header [] name value = (name, value) ∷ []
insert_header (entry ∷ entries) name value =
    let later = insert_header entries name value in
    if bytes_eq entry.0 name then (name, value) ∷ entries else entry ∷ later

-- `fixedSizeHeaderTypes`, a Go map.
abbrev pub fixed_size_header_types : List (ℕ × ℕ)
fixed_size_header_types = (2, 1) ∷ (3, 2) ∷ (4, 4) ∷ (5, 8) ∷ (8, 8) ∷ (9, 16) ∷ []

unfoldable pub lookup_size : List (ℕ × ℕ) → ℕ → Option ℕ
lookup_size [] header_type = none
lookup_size (entry ∷ entries) header_type =
    let later = lookup_size entries header_type in
    if entry.0 == header_type then some entry.1 else later

-- `data[offset]`.
unfoldable pub index : Bytes → ℕ → Parsed HeaderError ℕ
index bytes offset = elim (get_elem? bytes offset) [ none ↦ panic | some b ↦ ok b ]

unfoldable pub read_byte : Bytes → ℕ → Parsed HeaderError (ℕ × ℕ)
read_byte bytes offset =
    if leb (length bytes) offset
    then err offset_out_of_bounds
    else (do b ← index bytes offset; ok (b, offset + 1))

unfoldable pub read_slice : Bytes → ℕ → ℕ → Parsed HeaderError (Bytes × ℕ)
read_slice bytes offset count =
    if ltb (length bytes) (offset + count)
    then err slice_out_of_bounds
    else (do part ← slice bytes offset (offset + count); ok (part, offset + count))

unfoldable pub advance_offset : Bytes → ℕ → ℕ → Bytes → Parsed HeaderError (Option Bytes × ℕ)
advance_offset bytes offset count name =
    if ltb (length bytes) (offset + count)
    then err (value_truncated name)
    else ok (none, offset + count)

unfoldable pub parse_header_name : Bytes → ℕ → Parsed HeaderError (Bytes × ℕ)
parse_header_name bytes offset = do
  (name_len, next) ← read_byte bytes offset
  with_error (λ _. name_truncated) (read_slice bytes next name_len)

unfoldable pub parse_string_header_value : Bytes → ℕ → Bytes → Parsed HeaderError (Option Bytes × ℕ)
parse_string_header_value bytes offset name =
    if ltb (length bytes) (offset + 2) then err (length_truncated name) else (do
      (len_bytes, next) ← with_error (λ _. length_truncated name) (read_slice bytes offset 2)
      if ltb (length bytes) (next + uint16 len_bytes) then err (value_truncated name) else (do
        (value, end) ←
            with_error (λ _. value_truncated name) (read_slice bytes next (uint16 len_bytes))
        ok (some value, end)))

unfoldable pub skip_bytes_header : Bytes → ℕ → Bytes → Parsed HeaderError (Option Bytes × ℕ)
skip_bytes_header bytes offset name = do
  (len_bytes, next) ← with_error (λ _. bytes_length_truncated name) (read_slice bytes offset 2)
  advance_offset bytes next (uint16 len_bytes) name

unfoldable pub skip_non_string_header :
    Bytes → ℕ → ℕ → Bytes → Parsed HeaderError (Option Bytes × ℕ)
skip_non_string_header bytes offset header_type name =
    if (header_type == 0) || (header_type == 1)
    then ok (none, offset)
    else elim (lookup_size fixed_size_header_types header_type) [
      | some size ↦ advance_offset bytes offset size name
      | none ↦
          if header_type == 6
          then skip_bytes_header bytes offset name
          else err (unknown_type header_type name)
    ]

unfoldable pub parse_header_value : Bytes → ℕ → ℕ → Bytes → Parsed HeaderError (Option Bytes × ℕ)
parse_header_value bytes offset header_type name =
    if header_type == 7
    then parse_string_header_value bytes offset name
    else skip_non_string_header bytes offset header_type name

abbrev pub put_header : HeaderMap → Bytes → Option Bytes → HeaderMap
put_header headers name none = headers
put_header headers name (some value) = insert_header headers name value

-- One round of the loop, from the name of a header to the offset behind its value.
unfoldable pub parse_header : Bytes → ℕ → HeaderMap → Parsed HeaderError (HeaderMap × ℕ)
parse_header bytes offset headers = do
  (name, type_offset) ← parse_header_name bytes offset
  (header_type, value_offset) ← with_error (λ _. type_missing name) (read_byte bytes type_offset)
  (value, next) ← parse_header_value bytes value_offset header_type name
  ok (put_header headers name value, next)

unfoldable pub parse_headers_loop : ℕ → Bytes → ℕ → HeaderMap → Parsed HeaderError HeaderMap
parse_headers_loop zero bytes offset headers =
    if ltb offset (length bytes) then stuck else ok headers
parse_headers_loop (suc fuel) bytes offset headers =
    if ltb offset (length bytes)
    then (do
      (headers', next) ← parse_header bytes offset headers
      parse_headers_loop fuel bytes next headers')
    else ok headers

-- A round takes two bytes at least, so the length of the slice is fuel enough.
unfoldable pub parse_event_stream_headers : Bytes → Parsed HeaderError HeaderMap
parse_event_stream_headers bytes = parse_headers_loop (length bytes) bytes 0 []
