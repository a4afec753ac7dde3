-- ===== src/EventStream/Headers/Lookup.antt =====
-- What is found in the map of the headers.
use cc_relay.Base.{
  ◌≡◌, refl, ap, ap₂, subst, ◌∙◌, ◌↔◌, Bool, true, false, List, [], ◌∷◌, Option, none, some,
  if◌then◌else◌, arith,
}
use cc_relay.EventStream.Bytes.{Bytes, bytes_eq}
use cc_relay.EventStream.Headers.{HeaderMap, lookup_header, insert_header, put_header}
use cc_relay.EventStream.Headers.Wire.{
  Header, HeaderValue, text, truth, fixed, blob, text_of, text_if, or_else, last_text, header_map,
}

bytes_eq_refl : (xs : Bytes) → bytes_eq xs xs ≡ true
unfolding bytes_eq
bytes_eq_refl [] = refl
bytes_eq_refl (x ∷ xs) = ground (arith, bytes_eq_refl xs)

bytes_eq-eq : (xs ys : Bytes) → bytes_eq xs ys ≡ true → xs ≡ ys
unfolding bytes_eq
bytes_eq-eq [] [] e = refl
bytes_eq-eq [] (y ∷ ys) e = absurd (cc)
bytes_eq-eq (x ∷ xs) [] e = absurd (cc)
bytes_eq-eq (x ∷ xs) (y ∷ ys) e =
    let both : (x ≡ y) × (bytes_eq xs ys ≡ true) = ground (arith, e) in
    let tails : xs ≡ ys = bytes_eq-eq xs ys both.1 in ap₂ ◌∷◌ both.0 tails

bytes_eq_iff : (xs ys : Bytes) → (bytes_eq xs ys ≡ true) ↔ (xs ≡ ys)
bytes_eq_iff xs ys =
    (bytes_eq-eq xs ys, λ e. subst (λ zs. bytes_eq xs zs ≡ true) e (bytes_eq_refl xs))

lookup-insert_header :
    (m : HeaderMap) (key value name : Bytes)
    → lookup_header (insert_header m key value) name
      ≡ (if bytes_eq key name then some value else lookup_header m name)
unfolding lookup_header insert_header
lookup-insert_header [] key value name = refl
lookup-insert_header ((k, v) ∷ m) key value name = ground (
  arith,
  bytes_eq_iff key name,
  bytes_eq_iff k key,
  bytes_eq_iff k name,
  lookup-insert_header m key value name,
)

no_text :
    (m : HeaderMap) (name : Bytes) (value : HeaderValue) (b : Bool)
    → text_of value ≡ none
    → lookup_header m name ≡ or_else (text_if b value) (lookup_header m name)
no_text m name value true e = rw e refl
no_text m name value false e = refl

lookup-put_header :
    (m : HeaderMap) (key name : Bytes) (value : HeaderValue)
    → lookup_header (put_header m key (text_of value)) name
      ≡ or_else (text_if (bytes_eq key name) value) (lookup_header m name)
unfolding text_of
lookup-put_header m key name (text s) = lookup-insert_header m key s name ∙ go (bytes_eq key name)
  where
    go :
        (b : Bool)
        → (if b then some s else lookup_header m name)
          ≡ or_else (text_if b (text s)) (lookup_header m name)
    go true = refl
    go false = refl
lookup-put_header m key name (truth b) = no_text m name (truth b) (bytes_eq key name) refl
lookup-put_header m key name (fixed t s) = no_text m name (fixed t s) (bytes_eq key name) refl
lookup-put_header m key name (blob s) = no_text m name (blob s) (bytes_eq key name) refl

or_else_assoc : (a b c : Option Bytes) → or_else a (or_else b c) ≡ or_else (or_else a b) c
or_else_assoc none b c = refl
or_else_assoc (some s) b c = refl

lookup-header_map_from :
    (m : HeaderMap) (name : Bytes) (hs : List Header)
    → lookup_header (header_map m hs) name ≡ or_else (last_text name hs) (lookup_header m name)
unfolding header_map last_text
lookup-header_map_from m name [] = refl
lookup-header_map_from m name (h ∷ hs) =
    lookup-header_map_from (put_header m h.name (text_of h.value)) name hs
    ∙ ap (or_else (last_text name hs)) (lookup-put_header m h.name name h.value)
    ∙ or_else_assoc (last_text name hs) (text_if (bytes_eq h.name name) h.value)
        (lookup_header m name)

-- The map of the headers has the last text of each name.
pub lookup-header_map :
    (name : Bytes) (hs : List Header) → lookup_header (header_map [] hs) name ≡ last_text name hs
unfolding lookup_header
lookup-header_map name hs = lookup-header_map_from [] name hs ∙ or_else_none (last_text name hs)
  where
    or_else_none : (a : Option Bytes) → or_else a none ≡ a
    or_else_none none = refl
    or_else_none (some s) = refl
