-- ===== src/EventStream/Headers/RoundTrip.antt =====
-- The parser gives back the headers that an encoder of the format wrote.
use cc_relay.Base.{
  append_assoc, if◌then◌else◌, ℕ, zero, suc, ◌+◌, ◌<◌, ◌≤◌, ◌≡◌, refl, ap, ◌∙◌, subst, true, false,
  length, List, [], ◌∷◌, ◌++◌, Option, none, some, ltb, ◌==◌, ◌||◌, arith, All, if_true, if_false,
  lt→ltb, le→ltb, length-append,
}
use cc_relay.EventStream.Parsed.{
  Parsed, ok, err, ◌>>=◌, with_error, bind-ok, with_error-ok, ok_cong,
}
use cc_relay.EventStream.Bytes.{Bytes, uint16}
use cc_relay.EventStream.Headers.{
  lookup_header, value_truncated, unknown_type, HeaderError, HeaderMap, lookup_size,
  fixed_size_header_types, put_header, read_byte, read_slice, advance_offset, parse_header_name,
  parse_string_header_value, skip_bytes_header, skip_non_string_header, parse_header_value,
  parse_header, parse_headers_loop, parse_event_stream_headers,
}
use cc_relay.EventStream.Headers.Lookup.{lookup-header_map}
use cc_relay.EventStream.Headers.Wire.{
  Header, HeaderValue, text, truth, fixed, blob, put_uint16, type_code, encode_value, encode_header,
  encode_headers, IsSizeOf, byte, short, int, long, timestamp, uuid, last_text, FitsValue,
  FitsHeader, text_of, header_map, StandsAt, StandsAt-step, read_slice-at, read_byte-at,
}

uint16-put_uint16 : (n : ℕ) → n < 65536 → uint16 (put_uint16 n) ≡ n
unfolding uint16
uint16-put_uint16 n h = omega arith

-- The types of a fixed size are none of the others.
fixed_type-apart :
    (header_type size : ℕ)
    → lookup_size fixed_size_header_types header_type ≡ some size
    → ((header_type == 7) ≡ false) × (((header_type == 0) || (header_type == 1)) ≡ false)
unfolding lookup_size
fixed_type-apart header_type size e = ground arith

lookup_size-IsSizeOf :
    {header_type size : ℕ}
    → IsSizeOf header_type size
    → lookup_size fixed_size_header_types header_type ≡ some size
unfolding lookup_size
lookup_size-IsSizeOf byte = refl
lookup_size-IsSizeOf short = refl
lookup_size-IsSizeOf int = refl
lookup_size-IsSizeOf long = refl
lookup_size-IsSizeOf timestamp = refl
lookup_size-IsSizeOf uuid = refl

length-encode_header : (h : Header) → 0 < length (encode_header h)
unfolding encode_header
length-encode_header h = omega arith

module _ (bytes : Bytes) where
  parse_header_name-at :
      (offset : ℕ) (name rest : Bytes)
      → StandsAt bytes offset (length name ∷ name ++ rest)
      → parse_header_name bytes offset ≡ ok (name, offset + 1 + length name)
  unfolding parse_header_name
  parse_header_name-at offset name rest h =
      bind-ok (read_byte bytes offset) _ (read_byte-at bytes offset (length name) (name ++ rest) h)
      ∙ with_error-ok _ (read_slice bytes (offset + 1) (length name)) (
          read_slice-at bytes (offset + 1) name rest
            (StandsAt-step bytes offset (length name ∷ []) (name ++ rest) h))

  -- A length of two bytes is read.
  length-at :
      (offset n : ℕ) (rest : Bytes)
      → StandsAt bytes offset (put_uint16 n ++ rest)
      → read_slice bytes offset 2 ≡ ok (put_uint16 n, offset + 2)
  length-at offset n rest h = read_slice-at bytes offset (put_uint16 n) rest h

  advance_offset-at :
      (offset : ℕ) (name s rest : Bytes)
      → StandsAt bytes offset (s ++ rest)
      → advance_offset bytes offset (length s) name ≡ ok (none, offset + length s)
  unfolding advance_offset
  advance_offset-at offset name s rest h =
      if_false (ltb (length bytes) (offset + length s)) _ _
        (le→ltb (length bytes) (offset + length s) (omega (arith, h.1, length-append s rest)))

  parse_string_header_value-at :
      (offset : ℕ) (name s rest : Bytes)
      → length s < 65536
      → StandsAt bytes offset (put_uint16 (length s) ++ (s ++ rest))
      → parse_string_header_value bytes offset name ≡ ok (some s, offset + 2 + length s)
  unfolding parse_string_header_value
  parse_string_header_value-at offset name s rest small h =
      let value_at : StandsAt bytes (offset + 2) (s ++ rest) =
        StandsAt-step bytes offset (put_uint16 (length s)) (s ++ rest) h in
      if_false (ltb (length bytes) (offset + 2)) _ _
        (le→ltb (length bytes) (offset + 2) (omega (arith, h.1)))
      ∙ bind-ok (with_error _ (read_slice bytes offset 2)) _
          (with_error-ok _ (read_slice bytes offset 2) (length-at offset (length s) (s ++ rest) h))
      ∙ ap
          (λ n.
            if ltb (length bytes) (offset + 2 + n)
            then err (value_truncated name)
            else (with_error (λ _. value_truncated name) (read_slice bytes (offset + 2) n)
                >>= (λ p. ok (some (p.0), p.1))))
          (uint16-put_uint16 (length s) small)
      ∙ if_false (ltb (length bytes) (offset + 2 + length s)) _ _ (
          le→ltb (length bytes) (offset + 2 + length s)
            (omega (arith, value_at.1, length-append s rest)))
      ∙ bind-ok (with_error _ (read_slice bytes (offset + 2) (length s))) _ (
          with_error-ok _ (read_slice bytes (offset + 2) (length s))
            (read_slice-at bytes (offset + 2) s rest value_at))

  skip_bytes_header-at :
      (offset : ℕ) (name s rest : Bytes)
      → length s < 65536
      → StandsAt bytes offset (put_uint16 (length s) ++ (s ++ rest))
      → skip_bytes_header bytes offset name ≡ ok (none, offset + 2 + length s)
  unfolding skip_bytes_header
  skip_bytes_header-at offset name s rest small h =
      let value_at : StandsAt bytes (offset + 2) (s ++ rest) =
        StandsAt-step bytes offset (put_uint16 (length s)) (s ++ rest) h in
      bind-ok (with_error _ (read_slice bytes offset 2)) _
        (with_error-ok _ (read_slice bytes offset 2) (length-at offset (length s) (s ++ rest) h))
      ∙ ap (λ n. advance_offset bytes (offset + 2) n name) (uint16-put_uint16 (length s) small)
      ∙ advance_offset-at (offset + 2) name s rest value_at

  fixed-at :
      (offset header_type : ℕ) (name s rest : Bytes)
      → lookup_size fixed_size_header_types header_type ≡ some (length s)
      → StandsAt bytes offset (s ++ rest)
      → parse_header_value bytes offset header_type name ≡ ok (none, offset + length s)
  unfolding parse_header_value skip_non_string_header
  fixed-at offset header_type name s rest e h =
      let apart : ((header_type == 7) ≡ false)
          × (((header_type == 0) || (header_type == 1)) ≡ false) =
        fixed_type-apart header_type (length s) e in
      if_false (header_type == 7) _ _ (apart.0)
      ∙ if_false ((header_type == 0) || (header_type == 1)) _ _ (apart.1)
      ∙ ap
          (λ o. elim o as (λ x. Parsed HeaderError (Option Bytes × ℕ)) [
            | some size ↦ advance_offset bytes offset size name
            | none ↦
                if header_type == 6
                then skip_bytes_header bytes offset name
                else err (unknown_type header_type name)
          ])
          e
      ∙ advance_offset-at offset name s rest h

  -- A value of any kind, behind its type.
  parse_header_value-at :
      (offset : ℕ) (name rest : Bytes) (v : HeaderValue)
      → FitsValue v
      → StandsAt bytes offset (encode_value v ++ rest)
      → parse_header_value bytes offset (type_code v) name
        ≡ ok (text_of v, offset + length (encode_value v))
  unfolding parse_header_value skip_non_string_header text_of encode_value type_code FitsValue
      lookup_size
  parse_header_value-at offset name rest (text s) fits h =
      parse_string_header_value-at offset name s rest fits h
      ∙ ok_cong _ (offset + 2 + length s) (offset + suc (suc (length s))) (omega arith)
  parse_header_value-at offset name rest (truth true) fits h =
      ok_cong _ offset (offset + 0) (omega arith)
  parse_header_value-at offset name rest (truth false) fits h =
      ok_cong _ offset (offset + 0) (omega arith)
  parse_header_value-at offset name rest (fixed t s) fits h =
      fixed-at offset t name s rest (lookup_size-IsSizeOf fits) h
  parse_header_value-at offset name rest (blob s) fits h =
      skip_bytes_header-at offset name s rest fits h
      ∙ ok_cong _ (offset + 2 + length s) (offset + suc (suc (length s))) (omega arith)

  parse_header-at :
      (offset : ℕ) (headers : HeaderMap) (h : Header) (rest : Bytes)
      → FitsHeader h
      → StandsAt bytes offset (encode_header h ++ rest)
      → parse_header bytes offset headers
        ≡ ok (put_header headers (h.name) (text_of (h.value)), offset + length (encode_header h))
  unfolding parse_header encode_header
  parse_header-at offset headers h rest fits at =
      let name_at : StandsAt bytes offset
          (length (h.name) ∷ h.name ++ (type_code (h.value) ∷ encode_value (h.value) ++ rest)) =
        subst (StandsAt bytes offset)
          (ap (λ l. length (h.name) ∷ l)
            (append_assoc (h.name) (type_code (h.value) ∷ encode_value (h.value)) rest))
          at in
      let type_at : StandsAt bytes (offset + 1 + length (h.name))
          (type_code (h.value) ∷ encode_value (h.value) ++ rest) =
        StandsAt-step bytes (offset + 1) (h.name) _
          (StandsAt-step bytes offset (length (h.name) ∷ []) _ name_at) in
      let value_at : StandsAt bytes (offset + 1 + length (h.name) + 1)
          (encode_value (h.value) ++ rest) =
        StandsAt-step bytes (offset + 1 + length (h.name)) (type_code (h.value) ∷ []) _ type_at in
      bind-ok (parse_header_name bytes offset) _ (parse_header_name-at offset (h.name) _ name_at)
      ∙ bind-ok (with_error _ (read_byte bytes (offset + 1 + length (h.name)))) _ (
          with_error-ok _ (read_byte bytes (offset + 1 + length (h.name)))
            (read_byte-at bytes (offset + 1 + length (h.name)) (type_code (h.value)) _ type_at))
      ∙ bind-ok
          (parse_header_value bytes (offset + 1 + length (h.name) + 1) (type_code (h.value))
            (h.name))
          _
          (parse_header_value-at (offset + 1 + length (h.name) + 1) (h.name) rest (h.value) (fits.1)
            value_at)
      ∙ ok_cong _ (offset + 1 + length (h.name) + 1 + length (encode_value (h.value)))
          (offset + suc (length (h.name ++ (type_code (h.value) ∷ encode_value (h.value)))))
          (omega (arith, length-append (h.name) (type_code (h.value) ∷ encode_value (h.value))))

  parse_headers_loop-at :
      (fuel offset : ℕ) (headers : HeaderMap) (hs : List Header)
      → All FitsHeader hs
      → length hs ≤ fuel
      → StandsAt bytes offset (encode_headers hs)
      → parse_headers_loop fuel bytes offset headers ≡ ok (header_map headers hs)
  unfolding parse_headers_loop encode_headers header_map
  parse_headers_loop-at zero offset headers [] fits enough at =
      if_false (ltb offset (length bytes)) _ _ (le→ltb offset (length bytes) (omega (arith, at.1)))
  parse_headers_loop-at (suc fuel) offset headers [] fits enough at =
      if_false (ltb offset (length bytes)) _ _ (le→ltb offset (length bytes) (omega (arith, at.1)))
  parse_headers_loop-at zero offset headers (h ∷ hs) fits enough at = absurd (omega arith)
  parse_headers_loop-at (suc fuel) offset headers (h ∷ hs) fits enough at =
      if_true (ltb offset (length bytes)) _ _ (
        lt→ltb offset (length bytes) (
          omega (
            arith,
            at.1,
            length-append (encode_header h) (encode_headers hs),
            length-encode_header h,
          )))
      ∙ bind-ok (parse_header bytes offset headers) _
          (parse_header-at offset headers h (encode_headers hs) (fits.0) at)
      ∙ parse_headers_loop-at fuel (offset + length (encode_header h))
          (put_header headers (h.name) (text_of (h.value))) hs (fits.1) (omega arith)
          (StandsAt-step bytes offset (encode_header h) (encode_headers hs) at)

length-encode_headers : (hs : List Header) → length hs ≤ length (encode_headers hs)
unfolding encode_headers
length-encode_headers [] = omega arith
length-encode_headers (h ∷ hs) = omega (
  arith,
  length-append (encode_header h) (encode_headers hs),
  length-encode_header h,
  length-encode_headers hs,
)

-- The map that the loop builds.
pub parse_event_stream_headers-header_map :
    (hs : List Header)
    → All FitsHeader hs
    → parse_event_stream_headers (encode_headers hs) ≡ ok (header_map [] hs)
unfolding parse_event_stream_headers
parse_event_stream_headers-header_map hs fits =
    parse_headers_loop-at (encode_headers hs) (length (encode_headers hs)) 0 [] hs fits
      (length-encode_headers hs) (refl, omega arith)

-- When the names of headers are shorter than 256 bytes, their text and byte values shorter than
-- 65,536, and the other values of the size that the format gives their type,
-- `parseEventStreamHeaders` on the encoded headers returns a map in which a lookup of any name
-- finds the text of the last text header of that name, and nothing when there is none.
pub parse_event_stream_headers-encode_headers :
    (hs : List Header) (name : Bytes)
    → All FitsHeader hs
    → (m : HeaderMap) × (parse_event_stream_headers (encode_headers hs) ≡ ok m)
      × (lookup_header m name ≡ last_text name hs)
parse_event_stream_headers-encode_headers hs name fits =
    (header_map [] hs, parse_event_stream_headers-header_map hs fits, lookup-header_map name hs)
