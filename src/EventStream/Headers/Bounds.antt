-- ===== src/EventStream/Headers/Bounds.antt =====
-- The header parser ends on every slice, without a panic, and no offset passes the end.
use cc_relay.Base.{
  ◌||◌, if◌then◌else◌, ℕ, zero, suc, ◌+◌, ◌≤◌, ◌<◌, ◌≡◌, refl, Bool, true, false, inl, inr, length,
  ltb, leb, ltb→ge, ◌∷◌, Bool-cases, Option-cases, arith, ◌==◌, [],
}
use cc_relay.EventStream.Parsed.{
  Parsed, ok, err, panic, stuck, ◌>>=◌, with_error, slice-inside, Returns,
}
use cc_relay.EventStream.Bytes.{Bytes, uint16}
use cc_relay.EventStream.Headers.{
  HeaderError, HeaderMap, lookup_size, fixed_size_header_types, index, read_byte, read_slice,
  advance_offset, parse_header_name, parse_string_header_value, skip_bytes_header,
  skip_non_string_header, parse_header_value, parse_header, parse_headers_loop,
  parse_event_stream_headers,
}

-- The code returned, and an offset it returned lies `least` bytes on or more, not past the end.
abbrev pub Advances {ℓ} : {A : Type ℓ} → Bytes → ℕ → Parsed HeaderError (A × ℕ) → Type 0
Advances bytes least (ok (a, next)) = (least ≤ next) × (next ≤ length bytes)
Advances bytes least (err e) = Unit
Advances bytes least panic = ⊥
Advances bytes least stuck = ⊥

index-within :
    (bytes : Bytes) (offset : ℕ) → offset < length bytes → (b : ℕ) × (index bytes offset ≡ ok b)
unfolding index
index-within [] offset h = absurd (omega arith)
index-within (b ∷ bytes) zero h = (b, refl)
index-within (b ∷ bytes) (suc offset) h = index-within bytes offset (omega arith)

read_byte-Advances :
    (bytes : Bytes) (offset : ℕ) → Advances bytes (offset + 1) (read_byte bytes offset)
unfolding read_byte
read_byte-Advances bytes offset = elim (Bool-cases (leb (length bytes) offset)) [
  | inl over ↦ rw over tt
  | inr inside ↦
      let lt : offset < length bytes = ground (arith, inside) in
      let (b, found) = index-within bytes offset lt in rw (inside, found) (omega arith, omega arith)
]

read_slice-Advances :
    (bytes : Bytes) (offset count : ℕ)
    → Advances bytes (offset + count) (read_slice bytes offset count)
unfolding read_slice
read_slice-Advances bytes offset count = elim (Bool-cases (ltb (length bytes) (offset + count))) [
  | inl over ↦ rw over tt
  | inr fits ↦
      let le : offset + count ≤ length bytes = ltb→ge _ _ fits in
      rw (fits, slice-inside bytes offset (offset + count) (omega arith) le) (omega arith, le)
]

advance_offset-Advances :
    (bytes : Bytes) (offset count : ℕ) (name : Bytes)
    → Advances bytes (offset + count) (advance_offset bytes offset count name)
unfolding advance_offset
advance_offset-Advances bytes offset count name = ground arith

-- A later step that starts where an earlier one ended.
bind-Advances {ℓ κ} :
    {A : Type ℓ} {B : Type κ} (bytes : Bytes) (least least' : ℕ) (r : Parsed HeaderError (A × ℕ))
    (f : A × ℕ → Parsed HeaderError (B × ℕ))
    → Advances bytes least r
    → ((a : A) (next : ℕ)
        → least ≤ next
        → next ≤ length bytes
        → Advances bytes least' (f (a, next)))
    → Advances bytes least' (r >>= f)
bind-Advances bytes least least' (ok (a, next)) f h k = k a next h.0 h.1
bind-Advances bytes least least' (err e) f h k = tt
bind-Advances bytes least least' panic f h k = h
bind-Advances bytes least least' stuck f h k = h

if-Advances {ℓ} :
    {A : Type ℓ} (bytes : Bytes) (least : ℕ) (b : Bool) (r s : Parsed HeaderError (A × ℕ))
    → Advances bytes least r
    → Advances bytes least s
    → Advances bytes least (if b then r else s)
if-Advances bytes least true r s h k = h
if-Advances bytes least false r s h k = k

with_error-Advances {ℓ} :
    {A : Type ℓ} (bytes : Bytes) (least : ℕ) (other : HeaderError → HeaderError)
    (r : Parsed HeaderError (A × ℕ))
    → Advances bytes least r
    → Advances bytes least (with_error other r)
with_error-Advances bytes least other (ok (a, next)) h = h
with_error-Advances bytes least other (err e) h = tt
with_error-Advances bytes least other panic h = h
with_error-Advances bytes least other stuck h = h

Advances-weaken {ℓ} :
    {A : Type ℓ} (bytes : Bytes) (least least' : ℕ) (r : Parsed HeaderError (A × ℕ))
    → least' ≤ least
    → Advances bytes least r
    → Advances bytes least' r
Advances-weaken bytes least least' (ok (a, next)) le h = (omega (arith, h.0), h.1)
Advances-weaken bytes least least' (err e) le h = tt
Advances-weaken bytes least least' panic le h = h
Advances-weaken bytes least least' stuck le h = h

parse_header_name-Advances :
    (bytes : Bytes) (offset : ℕ) → Advances bytes (offset + 1) (parse_header_name bytes offset)
unfolding parse_header_name
parse_header_name-Advances bytes offset =
    bind-Advances bytes (offset + 1) (offset + 1) (read_byte bytes offset) _
      (read_byte-Advances bytes offset)
      (λ count next le _. with_error-Advances bytes (offset + 1) _ (read_slice bytes next count) (
        Advances-weaken bytes (next + count) (offset + 1) (read_slice bytes next count)
          (omega arith) (read_slice-Advances bytes next count)))

skip_bytes_header-Advances :
    (bytes : Bytes) (offset : ℕ) (name : Bytes)
    → Advances bytes offset (skip_bytes_header bytes offset name)
unfolding skip_bytes_header
skip_bytes_header-Advances bytes offset name =
    bind-Advances bytes (offset + 2) offset (with_error _ (read_slice bytes offset 2)) _
      (with_error-Advances bytes (offset + 2) _ (read_slice bytes offset 2)
        (read_slice-Advances bytes offset 2))
      (λ len_bytes next le _.
        Advances-weaken bytes (next + uint16 len_bytes) offset
          (advance_offset bytes next (uint16 len_bytes) name) (omega arith)
          (advance_offset-Advances bytes next (uint16 len_bytes) name))

skip_non_string_header-Advances :
    (bytes : Bytes) (offset header_type : ℕ) (name : Bytes)
    → offset ≤ length bytes
    → Advances bytes offset (skip_non_string_header bytes offset header_type name)
unfolding skip_non_string_header
skip_non_string_header-Advances bytes offset header_type name le =
    if-Advances bytes offset ((header_type == 0) || (header_type == 1)) _ _ (le_refl, le)
      (elim (Option-cases (lookup_size fixed_size_header_types header_type)) [
        | inl unknown ↦ rw unknown (
            if-Advances bytes offset (header_type == 6) (skip_bytes_header bytes offset name) _
              (skip_bytes_header-Advances bytes offset name) tt)
        | inr found ↦ rw (found.1) (
            Advances-weaken bytes (offset + found.0) offset
              (advance_offset bytes offset found.0 name) (omega arith)
              (advance_offset-Advances bytes offset found.0 name))
      ])
  where
    le_refl : offset ≤ offset
    le_refl = omega arith

parse_string_header_value-Advances :
    (bytes : Bytes) (offset : ℕ) (name : Bytes)
    → Advances bytes offset (parse_string_header_value bytes offset name)
unfolding parse_string_header_value
parse_string_header_value-Advances bytes offset name =
    if-Advances bytes offset (ltb (length bytes) (offset + 2)) _ _ tt (
      bind-Advances bytes (offset + 2) offset (with_error _ (read_slice bytes offset 2)) _
        (with_error-Advances bytes (offset + 2) _ (read_slice bytes offset 2)
          (read_slice-Advances bytes offset 2))
        (λ len_bytes next le _.
          if-Advances bytes offset (ltb (length bytes) (next + uint16 len_bytes)) _ _ tt (
            bind-Advances bytes (next + uint16 len_bytes) offset
              (with_error _ (read_slice bytes next (uint16 len_bytes))) _
              (with_error-Advances bytes (next + uint16 len_bytes) _
                (read_slice bytes next (uint16 len_bytes))
                (read_slice-Advances bytes next (uint16 len_bytes)))
              (λ value end le' fits. (omega arith, fits)))))

parse_header_value-Advances :
    (bytes : Bytes) (offset header_type : ℕ) (name : Bytes)
    → offset ≤ length bytes
    → Advances bytes offset (parse_header_value bytes offset header_type name)
unfolding parse_header_value
parse_header_value-Advances bytes offset header_type name le =
    if-Advances bytes offset (header_type == 7) (parse_string_header_value bytes offset name) _
      (parse_string_header_value-Advances bytes offset name)
      (skip_non_string_header-Advances bytes offset header_type name le)

parse_header-Advances :
    (bytes : Bytes) (offset : ℕ) (headers : HeaderMap)
    → Advances bytes (offset + 2) (parse_header bytes offset headers)
unfolding parse_header
parse_header-Advances bytes offset headers =
    bind-Advances bytes (offset + 1) (offset + 2) (parse_header_name bytes offset) _
      (parse_header_name-Advances bytes offset)
      (λ name type_offset le _.
        bind-Advances bytes (type_offset + 1) (offset + 2)
          (with_error _ (read_byte bytes type_offset)) _
          (with_error-Advances bytes (type_offset + 1) _ (read_byte bytes type_offset)
            (read_byte-Advances bytes type_offset))
          (λ header_type value_offset le' fits.
            bind-Advances bytes value_offset (offset + 2)
              (parse_header_value bytes value_offset header_type name) _
              (parse_header_value-Advances bytes value_offset header_type name fits)
              (λ value next le'' fits'. (omega arith, fits'))))

-- Fuel for what is left of the slice is enough.
parse_headers_loop-Returns :
    (fuel : ℕ) (bytes : Bytes) (offset : ℕ) (headers : HeaderMap)
    → length bytes ≤ offset + fuel
    → Returns (parse_headers_loop fuel bytes offset headers)
unfolding parse_headers_loop
parse_headers_loop-Returns zero bytes offset headers h = ground arith
parse_headers_loop-Returns (suc fuel) bytes offset headers h =
    elim (Bool-cases (ltb offset (length bytes))) [
      | inl inside ↦ rw inside (
          next_round (parse_header bytes offset headers)
            (parse_header-Advances bytes offset headers)
            (λ headers' next. parse_headers_loop-Returns fuel bytes next headers'))
      | inr over ↦ rw over tt
    ]
  where
    next_round :
        (r : Parsed HeaderError (HeaderMap × ℕ))
        → Advances bytes (offset + 2) r
        → ((headers' : HeaderMap) (next : ℕ)
            → length bytes ≤ next + fuel
            → Returns (parse_headers_loop fuel bytes next headers'))
        → Returns (r >>= (λ step. parse_headers_loop fuel bytes step.1 step.0))
    next_round (ok (headers', next)) a k = k headers' next (omega (arith, a.0))
    next_round (err e) a k = tt
    next_round panic a k = a
    next_round stuck a k = a

-- `parseEventStreamHeaders` returns a map or an error on every slice: its loop ends within as
-- many rounds as the slice has bytes, and no index and no slice expression passes the length of
-- the slice, which would panic.
pub parse_event_stream_headers-Returns :
    (bytes : Bytes) → Returns (parse_event_stream_headers bytes)
unfolding parse_event_stream_headers
parse_event_stream_headers-Returns bytes =
    parse_headers_loop-Returns (length bytes) bytes 0 [] (omega arith)
