-- ===== src/EventStream/Sse.antt =====
-- The text of a server-sent event: `FormatMessageAsSSE` and its helpers in providers/eventstream.go.
-- `quote` stands for the verb %q of the package fmt.
pub mod Client
use cc_relay.Base.{
  ℕ, ◌≡◌, refl, Bool, true, false, ◌||◌, List, [], ◌∷◌, ◌++◌, is_empty, ◌==◌, if◌then◌else◌, Option,
  none, some,
}
use cc_relay.EventStream.Bytes.{Bytes, ascii, bytes_eq}
use cc_relay.EventStream.Headers.{HeaderMap, lookup_header}
use cc_relay.EventStream.Message.{EventStreamMessage}

-- `bytes.Split(payload, []byte("\n"))`
abbrev pub onto_first : ℕ → List Bytes → List Bytes
onto_first b [] = (b ∷ []) ∷ []
onto_first b (line ∷ lines) = (b ∷ line) ∷ lines

unfoldable pub split_lines : Bytes → List Bytes
split_lines [] = [] ∷ []
split_lines (b ∷ bytes) =
    let later = split_lines bytes in if b == 10 then [] ∷ later else onto_first b later

abbrev pub among : List Bytes → Bytes → Bool
among [] text = false
among (known ∷ others) text = bytes_eq known text || among others text

abbrev pub known_types : List Bytes
known_types =
    ascii "message_start"
    ∷ ascii "content_block_start"
    ∷ ascii "content_block_delta"
    ∷ ascii "content_block_stop"
    ∷ ascii "message_delta"
    ∷ ascii "message_stop"
    ∷ ascii "ping"
    ∷ []

-- Both branches of the switch return the type.
unfoldable pub map_bedrock_event_type : Bytes → Bytes
map_bedrock_event_type bedrock_type =
    if among known_types bedrock_type then bedrock_type else bedrock_type

-- The loop over the lines, which ends all but the last with a newline.
unfoldable pub write_data_lines : List Bytes → Bytes
write_data_lines [] = []
write_data_lines (line ∷ []) = ascii "data: " ++ line
write_data_lines (line ∷ next ∷ lines) =
    ascii "data: " ++ (line ++ (10 ∷ write_data_lines (next ∷ lines)))

unfoldable pub format_sse_event : Bytes → Bytes → Bytes
format_sse_event event_type payload =
    ascii "event: "
    ++ (map_bedrock_event_type event_type
        ++ (10 ∷ (write_data_lines (split_lines payload) ++ (10 ∷ 10 ∷ []))))

-- `headers[name]`, which is empty for a name that is not there.
unfoldable pub header_text : HeaderMap → Bytes → Bytes
header_text headers name = elim (lookup_header headers name) [ none ↦ [] | some value ↦ value ]

module _ (quote : Bytes → Bytes) where
  unfoldable pub format_exception_as_sse : Bytes → Bytes → Bytes
  format_exception_as_sse exception_type payload =
      ascii "event: error\ndata: {\"error\":{\"type\":"
      ++ (quote exception_type ++ (ascii ",\"message\":" ++ (quote payload ++ ascii "}}\n\n")))

  unfoldable pub format_message_as_sse : EventStreamMessage → Bytes
  format_message_as_sse msg =
      let exception_type = header_text (msg.headers) (ascii ":exception-type") in
      let event_type = header_text (msg.headers) (ascii ":event-type") in
      if is_empty exception_type
      then if is_empty event_type then [] else format_sse_event event_type (msg.payload)
      else format_exception_as_sse exception_type (msg.payload)
