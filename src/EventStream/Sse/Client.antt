-- ===== src/EventStream/Sse/Client.antt =====
-- A reader of server-sent events, and what it makes of the events that the code writes.
use cc_relay.Base.{
  if_same, ap₂, ℕ, ◌≡◌, ◌≢◌, refl, sym, ap, ◌∙◌, subst, Bool, true, false, List, [], ◌∷◌, ◌++◌, All,
  All-append, ◌==◌, ==_iff, if◌then◌else◌, if_false, Option, none, some, map, append_assoc, arith,
  append-nil,
}
use cc_relay.EventStream.Bytes.{Bytes, ascii}
use cc_relay.EventStream.Sse.{
  among, known_types, onto_first, split_lines, map_bedrock_event_type, write_data_lines,
  format_sse_event,
}

-- The text behind a prefix.
unfoldable pub behind : Bytes → Bytes → Option Bytes
behind [] text = some text
behind (p ∷ ps) [] = none
behind (p ∷ ps) (b ∷ bs) = let later = behind ps bs in if p == b then later else none

-- The lines of an event's data are joined by newlines.
unfoldable pub join_lines : List Bytes → Bytes
join_lines [] = []
join_lines (line ∷ []) = line
join_lines (line ∷ next ∷ lines) = line ++ (10 ∷ join_lines (next ∷ lines))

-- The reader works line by line: it collects the event's name and its data, and an empty line ends
-- the event.
unfoldable pub read_event : List Bytes → Bytes → List Bytes → Option (Bytes × Bytes)
read_event [] event lines = none
read_event ([] ∷ later) event lines = some (event, join_lines lines)
read_event ((b ∷ line) ∷ later) event lines = elim (behind (ascii "event: ") (b ∷ line)) [
  | some name ↦ read_event later name lines
  | none ↦ elim (behind (ascii "data: ") (b ∷ line)) [
    | some text ↦ read_event later event (lines ++ (text ∷ []))
    | none ↦ read_event later event lines
  ]
]

abbrev pub IsLine : Bytes → Type 0
IsLine = All (λ b. b ≢ 10)

split_lines-line :
    (line rest : Bytes) → IsLine line → split_lines (line ++ (10 ∷ rest)) ≡ line ∷ split_lines rest
unfolding split_lines
split_lines-line [] rest h = refl
split_lines-line (b ∷ line) rest h =
    if_false (b == 10) _ _ (apart b h.0) ∙ ap (onto_first b) (split_lines-line line rest h.1)
  where
    apart : (b : ℕ) → b ≢ 10 → (b == 10) ≡ false
    apart b h = ground arith

split_lines-IsLine : (bytes : Bytes) → All IsLine (split_lines bytes)
unfolding split_lines
split_lines-IsLine [] = (tt, tt)
split_lines-IsLine (b ∷ bytes) = go (b == 10) refl (split_lines bytes) (split_lines-IsLine bytes)
  where
    apart : (b == 10) ≡ false → b ≢ 10
    apart e = ground arith

    go :
        (t : Bool)
        → (b == 10) ≡ t
        → (later : List Bytes) → All IsLine later
        → All IsLine (if t then [] ∷ later else onto_first b later)
    go true e later h = (tt, h)
    go false e [] h = ((apart e, tt), tt)
    go false e (line ∷ later) h = ((apart e, h.0), h.1)

split_lines-cons :
    (bytes : Bytes) → (line : Bytes) × (lines : List Bytes) × (split_lines bytes ≡ line ∷ lines)
unfolding split_lines
split_lines-cons [] = ([], [], refl)
split_lines-cons (b ∷ bytes) = go (b == 10) (split_lines bytes)
  where
    go :
        (t : Bool) (later : List Bytes)
        → (line : Bytes) × (lines : List Bytes) × ((if t then [] ∷ later else onto_first b later)
            ≡ line ∷ lines)
    go true later = ([], later, refl)
    go false [] = (b ∷ [], [], refl)
    go false (line ∷ later) = (b ∷ line, later, refl)

-- Joining the lines of a text gives the text.
join_lines-split_lines : (bytes : Bytes) → join_lines (split_lines bytes) ≡ bytes
unfolding join_lines split_lines
join_lines-split_lines [] = refl
join_lines-split_lines (b ∷ bytes) =
    let parts = split_lines-cons bytes in
    subst (λ later. join_lines (if b == 10 then [] ∷ later else onto_first b later) ≡ b ∷ bytes)
      (sym parts.2)
      (go (b == 10) refl (parts.0) (parts.1)
        (ap join_lines (sym parts.2) ∙ join_lines-split_lines bytes))
  where
    go :
        (t : Bool)
        → (b == 10) ≡ t
        → (line : Bytes) (lines : List Bytes) → join_lines (line ∷ lines) ≡ bytes
        → join_lines (if t then [] ∷ (line ∷ lines) else onto_first b (line ∷ lines)) ≡ b ∷ bytes
    go true e line lines ih = ap₂ (λ x xs. x ∷ xs) (sym ((==_iff b 10).0 e)) ih
    go false e line [] ih = ap (λ xs. b ∷ xs) ih
    go false e line (next ∷ lines) ih = ap (λ xs. b ∷ xs) ih

data_line : Bytes → Bytes
data_line line = ascii "data: " ++ line

data_line-IsLine : (line : Bytes) → IsLine line → IsLine (data_line line)
unfolding data_line ascii
data_line-IsLine line h =
    All-append (λ b. b ≢ 10) (ascii "data: ") line
      (omega arith, (omega arith, (omega arith, (omega arith, (omega arith, (omega arith, tt)))))) h

split_lines-write_data_lines :
    (line : Bytes) (lines : List Bytes)
    → IsLine line
    → All IsLine lines
    → split_lines (write_data_lines (line ∷ lines) ++ (10 ∷ 10 ∷ []))
      ≡ map data_line (line ∷ lines) ++ ([] ∷ [] ∷ [])
unfolding write_data_lines data_line split_lines
split_lines-write_data_lines line [] h all =
    split_lines-line (data_line line) (10 ∷ []) (data_line-IsLine line h)
split_lines-write_data_lines line (next ∷ lines) h all =
    ap split_lines (
      ap (λ xs. xs ++ (10 ∷ 10 ∷ []))
        (sym (append_assoc (ascii "data: ") line (10 ∷ write_data_lines (next ∷ lines))))
      ∙ append_assoc (data_line line) (10 ∷ write_data_lines (next ∷ lines)) (10 ∷ 10 ∷ []))
    ∙ split_lines-line (data_line line) (write_data_lines (next ∷ lines) ++ (10 ∷ 10 ∷ []))
        (data_line-IsLine line h)
    ∙ ap (λ xs. data_line line ∷ xs) (split_lines-write_data_lines next lines all.0 all.1)

read_event-data :
    (lines : List Bytes) (event : Bytes) (before : List Bytes)
    → read_event (map data_line lines ++ ([] ∷ [] ∷ [])) event before
      ≡ some (event, join_lines (before ++ lines))
unfolding read_event data_line ascii behind
read_event-data [] event before = ap (λ ls. some (event, join_lines ls)) (sym (append-nil before))
read_event-data (line ∷ lines) event before =
    read_event-data lines event (before ++ (line ∷ []))
    ∙ ap (λ ls. some (event, join_lines ls)) (append_assoc before (line ∷ []) lines)

map_bedrock_event_type-same : (event_type : Bytes) → map_bedrock_event_type event_type ≡ event_type
unfolding map_bedrock_event_type
map_bedrock_event_type-same event_type = if_same (among known_types event_type) event_type

event_line : Bytes → Bytes
event_line event_type = ascii "event: " ++ event_type

event_line-IsLine : (event_type : Bytes) → IsLine event_type → IsLine (event_line event_type)
unfolding event_line ascii
event_line-IsLine event_type h =
    All-append (λ b. b ≢ 10) (ascii "event: ") event_type
      (
        omega arith,
        (
          omega arith,
          (omega arith, (omega arith, (omega arith, (omega arith, (omega arith, tt))))),
        ),
      )
      h

read_event-event_line :
    (event_type : Bytes) (later : List Bytes)
    → read_event (event_line event_type ∷ later) [] [] ≡ read_event later event_type []
unfolding read_event event_line ascii behind
read_event-event_line event_type later = refl

-- For an event type without a newline, a reader that splits the text of `formatSSEEvent` into
-- lines and joins the data lines of an event by newlines gets the event type and the payload.
pub read_event-format_sse_event :
    (event_type payload : Bytes)
    → IsLine event_type
    → read_event (split_lines (format_sse_event event_type payload)) [] []
      ≡ some (event_type, payload)
unfolding format_sse_event event_line
read_event-format_sse_event event_type payload h =
    let parts = split_lines-cons payload in
    let rest = write_data_lines (split_lines payload) ++ (10 ∷ 10 ∷ []) in
    let are_lines = subst (All IsLine) (parts.2) (split_lines-IsLine payload) in
    ap (λ t. read_event (split_lines (ascii "event: " ++ (t ++ (10 ∷ rest)))) [] [])
      (map_bedrock_event_type-same event_type)
    ∙ ap (λ xs. read_event (split_lines xs) [] [])
        (sym (append_assoc (ascii "event: ") event_type (10 ∷ rest)))
    ∙ ap (λ ls. read_event ls [] [])
        (split_lines-line (event_line event_type) rest (event_line-IsLine event_type h))
    ∙ read_event-event_line event_type (split_lines rest)
    ∙ ap (λ ls. read_event (split_lines (write_data_lines ls ++ (10 ∷ 10 ∷ []))) event_type [])
        (parts.2)
    ∙ ap (λ ls. read_event ls event_type [])
        (split_lines-write_data_lines (parts.0) (parts.1) (are_lines.0) (are_lines.1))
    ∙ read_event-data (parts.0 ∷ parts.1) event_type []
    ∙ ap (λ ls. some (event_type, join_lines ls)) (sym (parts.2))
    ∙ ap (λ xs. some (event_type, xs)) (join_lines-split_lines payload)
