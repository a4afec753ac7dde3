-- ===== src/EventStream/SseBody/Chunks.antt =====
-- The events of a body do not depend on how its bytes fall into chunks.
use cc_relay.Base.{
  ℕ, zero, suc, ◌<◌, ◌≤◌, ◌≡◌, refl, sym, ap, ◌∙◌, inl, inr, List, [], ◌∷◌, ◌++◌, take-append,
  length, take, drop, All, arith, lt-cases, append_assoc, append-nil, length-append,
  take-append_drop, drop-append, take-append_left, drop-append_left,
}
use cc_relay.EventStream.Parsed.{Parsed, ok, err, panic, stuck}
use cc_relay.EventStream.Bytes.{Bytes, uint32}
use cc_relay.EventStream.Headers.Wire.{Header}
use cc_relay.EventStream.Message.{MessageError, EventStreamMessage, parse_event_stream_message}
use cc_relay.EventStream.Message.Frame.{
  total_of, parse_event_stream_message-short, parse_event_stream_message-incomplete,
}
use cc_relay.EventStream.Message.Wire.{
  encode_message, decoded, FitsMessage, length-encode_message, encode_message-total,
  parse_event_stream_message-encode_message,
}
use cc_relay.EventStream.Sse.{format_message_as_sse}
use cc_relay.EventStream.SseBody.{parse_loop}

-- The bytes of a sequence of messages, each its headers and its payload.
abbrev pub Sent : Type 0
Sent = List Header × Bytes

unfoldable pub sent_bytes : List Sent → Bytes
sent_bytes [] = []
sent_bytes (m ∷ ms) = encode_message m.0 m.1 ++ sent_bytes ms

abbrev pub FitsSent : Sent → Type 0
FitsSent m = FitsMessage m.0 m.1

unfoldable pub sent_events : (Bytes → Bytes) → List Sent → Bytes
sent_events quote [] = []
sent_events quote (m ∷ ms) = format_message_as_sse quote (decoded m.0 m.1) ++ sent_events quote ms

-- Two ways to cut a list: the longer first part begins with the shorter one.
cut-longer :
    (xs ys zs ws : Bytes)
    → xs ++ ys ≡ zs ++ ws
    → length zs ≤ length xs
    → (more : Bytes) × (xs ≡ zs ++ more) × (more ++ ys ≡ ws)
cut-longer xs ys zs ws e le =
    let n = length zs in
    (
      drop n xs,
      sym (take-append_drop n xs)
          ∙ ap (λ l. l ++ drop n xs)
              (sym (take-append_left n xs ys le) ∙ ap (take n) e ∙ take-append zs ws),
      sym (drop-append_left n xs ys le) ∙ ap (drop n) e ∙ drop-append zs ws,
    )

pub uint32-append : (xs ys : Bytes) → 4 ≤ length xs → uint32 (xs ++ ys) ≡ uint32 xs
unfolding uint32
uint32-append [] ys h = absurd (omega arith)
uint32-append (a ∷ []) ys h = absurd (omega arith)
uint32-append (a ∷ b ∷ []) ys h = absurd (omega arith)
uint32-append (a ∷ b ∷ c ∷ []) ys h = absurd (omega arith)
uint32-append (a ∷ b ∷ c ∷ d ∷ xs) ys h = refl

length_nil : (xs : Bytes) → xs ≡ [] → length xs ≡ 0
length_nil xs e = ap length e

too_short : (xs ys zs ws : Bytes) → xs ++ ys ≡ zs ++ ws → ys ≡ [] → length xs < length zs → ⊥
too_short xs ys zs ws e none_left short =
    absurd
      (omega (arith, ap length e, ap length none_left, length-append xs ys, length-append zs ws))

-- A first part of a message is refused, and kept.
parse-part :
    (part rest : Bytes) (m : Sent) (spare : Bytes)
    → FitsSent m
    → part ++ rest ≡ encode_message m.0 m.1
    → length part < length (encode_message m.0 m.1)
    → (e : MessageError) × (parse_event_stream_message part spare ≡ err e)
parse-part part rest m spare fits e short = elim (lt-cases (length part) 16) [
  | inl small ↦ (_, parse_event_stream_message-short part spare small)
  | inr big ↦ (
    _,
    parse_event_stream_message-incomplete part spare big
        (omega (arith, total big, length-encode_message m.0 m.1))
        (omega (arith, total big, length-encode_message m.0 m.1)),
  )
]
  where
    total : 16 ≤ length part → total_of part ≡ length (encode_message m.0 m.1)
    total big =
        sym (uint32-append part rest (omega arith))
        ∙ ap total_of e
        ∙ encode_message-total m.0 m.1 fits

module _ (quote : Bytes → Bytes) (spare : Bytes) where
  abbrev pub step :
      ℕ
      → Bytes
      → Bytes
      → Parsed MessageError (EventStreamMessage × ℕ)
      → Parsed MessageError (Bytes × Bytes)
  step fuel es_buffer sse_buffer r = elim r [
    | err e ↦ ok (es_buffer, sse_buffer)
    | panic ↦ panic
    | stuck ↦ stuck
    | ok parsed ↦
        parse_loop quote fuel spare (drop (parsed.1) es_buffer)
          (sse_buffer ++ format_message_as_sse quote (parsed.0))
  ]

  -- What the loop leaves of a first part of some messages: a first part of the messages whose events
  -- it did not write.
  abbrev pub Leaves : ℕ → Bytes → Bytes → Bytes → List Sent → Type 0
  Leaves fuel es_buffer sse_buffer coming ms =
      (kept text : Bytes) × (later : List Sent) × (parse_loop quote fuel spare es_buffer sse_buffer
        ≡ ok (kept, sse_buffer ++ text))
      × (kept ++ coming ≡ sent_bytes later)
      × (text ++ sent_events quote later ≡ sent_events quote ms)
      × All FitsSent later
      × (coming ≡ [] → later ≡ [])

  refused :
      (fuel : ℕ) (es_buffer sse_buffer coming : Bytes) (ms : List Sent)
      → (e : MessageError) × (parse_event_stream_message es_buffer spare ≡ err e)
      → es_buffer ++ coming ≡ sent_bytes ms
      → All FitsSent ms
      → (coming ≡ [] → ms ≡ [])
      → Leaves (suc fuel) es_buffer sse_buffer coming ms
  unfolding parse_loop
  refused fuel es_buffer sse_buffer coming ms why same fits last = (
    es_buffer,
    [],
    ms,
    ap (step fuel es_buffer sse_buffer) why.1
        ∙ ap (λ xs. ok (es_buffer, xs)) (sym (append-nil sse_buffer)),
    same,
    refl,
    fits,
    last,
  )

  pub parse_loop-Leaves :
      (ms : List Sent) (fuel : ℕ) (es_buffer sse_buffer coming : Bytes)
      → All FitsSent ms
      → es_buffer ++ coming ≡ sent_bytes ms
      → length es_buffer < fuel
      → Leaves fuel es_buffer sse_buffer coming ms
  unfolding sent_bytes sent_events parse_loop
  parse_loop-Leaves ms zero es_buffer sse_buffer coming fits same enough = absurd (omega arith)
  parse_loop-Leaves [] (suc fuel) es_buffer sse_buffer coming fits same enough =
      refused fuel es_buffer sse_buffer coming []
        (
          _,
          parse_event_stream_message-short es_buffer spare (
              omega (arith, length-append es_buffer coming, length_nil (es_buffer ++ coming) same)),
        )
        same tt (λ e. refl)
  parse_loop-Leaves (m ∷ ms) (suc fuel) es_buffer sse_buffer coming fits same enough =
      elim (lt-cases (length es_buffer) (length (encode_message m.0 m.1))) [
        | inl short ↦
            let cut =
              cut-longer (encode_message m.0 m.1) (sent_bytes ms) es_buffer coming (sym same)
                (omega arith) in
            refused fuel es_buffer sse_buffer coming (m ∷ ms)
              (parse-part es_buffer cut.0 m spare fits.0 (sym cut.1) short) same fits
              (λ e.
                absurd (
                  too_short es_buffer coming (encode_message m.0 m.1) (sent_bytes ms) same e short))
        | inr long ↦
            let cut =
              cut-longer es_buffer coming (encode_message m.0 m.1) (sent_bytes ms) same long in
            let event = format_message_as_sse quote (decoded m.0 m.1) in
            let later = parse_loop-Leaves ms fuel cut.0 (sse_buffer ++ event) coming fits.1 cut.2 (
              omega (
                arith,
                length-encode_message m.0 m.1,
                length-append (encode_message m.0 m.1) cut.0,
                ap length cut.1,
              )) in
            (
              later.0,
              event ++ later.1,
              later.2,
              ap (λ xs. parse_loop quote (suc fuel) spare xs sse_buffer) cut.1
                  ∙ ap (step fuel (encode_message m.0 m.1 ++ cut.0) sse_buffer)
                      (parse_event_stream_message-encode_message m.0 m.1 cut.0 spare fits.0)
                  ∙ ap (λ xs. parse_loop quote fuel spare xs (sse_buffer ++ event))
                      (drop-append (encode_message m.0 m.1) cut.0)
                  ∙ later.3
                  ∙ ap (λ xs. ok (later.0, xs)) (append_assoc sse_buffer event later.1),
              later.4,
              append_assoc event later.1 (sent_events quote later.2)
                  ∙ ap (λ xs. event ++ xs) later.5,
              later.6,
              later.7,
            )
      ]
