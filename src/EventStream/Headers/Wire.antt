-- ===== src/EventStream/Headers/Wire.antt =====
-- The header format that the comments of eventstream.go describe, as an encoder, and what a slice
-- holds at an offset.
use cc_relay.Base.{
  take-append, drop-append, drop-drop, get_elem?-drop, if_false, le→ltb, ℕ, ◌+◌, ◌/◌, ◌%◌, ◌<◌, ◌≡◌,
  ap, ◌∙◌, Bool, true, false, length, List, [], ◌∷◌, ◌++◌, Option, none, some, foldl, take, drop,
  ltb, leb, suc, ◌-◌, ap₂, arith, length-append,
}
use cc_relay.EventStream.Parsed.{Parsed, ok, panic, bind-ok, slice, slice-inside}
use cc_relay.EventStream.Bytes.{Bytes, bytes_eq}
use cc_relay.EventStream.Headers.{HeaderError, index, HeaderMap, put_header, read_byte, read_slice}

-- A header's value by its type: text (7), a truth value (0 and 1), a value of a fixed size with its
-- type, and bytes (6).
pub data HeaderValue : Type 0 where
  text : Bytes → HeaderValue
  truth : Bool → HeaderValue
  fixed : ℕ → Bytes → HeaderValue
  blob : Bytes → HeaderValue

pub record Header : Type 0 where
  pub name : Bytes
  pub value : HeaderValue

abbrev pub put_uint16 : ℕ → Bytes
put_uint16 n = n / 256 ∷ n % 256 ∷ []

unfoldable pub type_code : HeaderValue → ℕ
type_code (text s) = 7
type_code (truth true) = 0
type_code (truth false) = 1
type_code (fixed header_type s) = header_type
type_code (blob s) = 6

unfoldable pub encode_value : HeaderValue → Bytes
encode_value (text s) = put_uint16 (length s) ++ s
encode_value (truth b) = []
encode_value (fixed header_type s) = s
encode_value (blob s) = put_uint16 (length s) ++ s

unfoldable pub encode_header : Header → Bytes
encode_header h = length (h.name) ∷ h.name ++ (type_code (h.value) ∷ encode_value (h.value))

unfoldable pub encode_headers : List Header → Bytes
encode_headers [] = []
encode_headers (h ∷ hs) = encode_header h ++ encode_headers hs

-- The types of a fixed size with their sizes, as the comments of eventstream.go name them.
pub data IsSizeOf : ℕ → ℕ → Type 0 where
  byte : IsSizeOf 2 1
  short : IsSizeOf 3 2
  int : IsSizeOf 4 4
  long : IsSizeOf 5 8
  timestamp : IsSizeOf 8 8
  uuid : IsSizeOf 9 16

-- The lengths fit their fields, and a value of a fixed size has the size of its type.
unfoldable pub FitsValue : HeaderValue → Type 0
FitsValue (text s) = length s < 65536
FitsValue (truth b) = Unit
FitsValue (fixed header_type s) = IsSizeOf header_type (length s)
FitsValue (blob s) = length s < 65536

abbrev pub FitsHeader : Header → Type 0
FitsHeader h = (length (h.name) < 256) × FitsValue (h.value)

-- The text of a value that is one.
unfoldable pub text_of : HeaderValue → Option Bytes
text_of (text s) = some s
text_of (truth b) = none
text_of (fixed header_type s) = none
text_of (blob s) = none

abbrev pub text_if : Bool → HeaderValue → Option Bytes
text_if true value = text_of value
text_if false value = none

-- The first that is there.
abbrev pub or_else : Option Bytes → Option Bytes → Option Bytes
or_else (some s) other = some s
or_else none other = other

-- The map that the text headers give, the last of a name winning.
unfoldable pub header_map : HeaderMap → List Header → HeaderMap
header_map = foldl (λ m h. put_header m (h.name) (text_of (h.value)))

-- The text of the last header that has the name and a text.
unfoldable pub last_text : Bytes → List Header → Option Bytes
last_text name [] = none
last_text name (h ∷ hs) = or_else (last_text name hs) (text_if (bytes_eq h.name name) h.value)

-- `rest` is what a slice holds from `offset` on.
abbrev pub StandsAt : Bytes → ℕ → Bytes → Type 0
StandsAt bytes offset rest = (drop offset bytes ≡ rest) × (offset + length rest ≡ length bytes)

module _ (bytes : Bytes) (offset : ℕ) where
  pub StandsAt-step :
      (xs rest : Bytes)
      → StandsAt bytes offset (xs ++ rest)
      → StandsAt bytes (offset + length xs) rest
  StandsAt-step xs rest h = (
    drop-drop offset (length xs) bytes ∙ ap (drop (length xs)) (h.0) ∙ drop-append xs rest,
    omega (arith, h.1, length-append xs rest),
  )

  pub read_slice-at :
      (xs rest : Bytes)
      → StandsAt bytes offset (xs ++ rest)
      → read_slice bytes offset (length xs) ≡ ok (xs, offset + length xs)
  unfolding read_slice
  read_slice-at xs rest h =
      if_false (ltb (length bytes) (offset + length xs)) _ _
        (le→ltb (length bytes) (offset + length xs) (omega (arith, h.1, length-append xs rest)))
      ∙ bind-ok (slice bytes offset (offset + length xs)) _ (
          slice-inside bytes offset (offset + length xs) (omega arith)
            (omega (arith, h.1, length-append xs rest)))
      ∙ ap (λ s. ok (s, offset + length xs))
          (ap₂ take (cut (length xs)) (h.0) ∙ take-append xs rest)
    where
      cut : (n : ℕ) → offset + n - offset ≡ n
      cut n = omega arith

  pub read_byte-at :
      (b : ℕ) (rest : Bytes)
      → StandsAt bytes offset (b ∷ rest)
      → read_byte bytes offset ≡ ok (b, offset + 1)
  unfolding read_byte index
  read_byte-at b rest h =
      if_false (leb (length bytes) offset) _ _ (inside (length bytes) (length rest) h.1)
      ∙ bind-ok (index bytes offset) _ (
          ap (λ o. elim o as (λ x. Parsed HeaderError ℕ) [ none ↦ panic | some b ↦ ok b ])
            (get_elem?-drop offset b bytes rest h.0))
    where
      inside : (n k : ℕ) → offset + suc k ≡ n → leb n offset ≡ false
      inside n k e = ground arith
