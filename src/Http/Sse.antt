-- ===== src/Http/Sse.antt =====
-- src/transport/http/http_codec.cpp: `format_sse_event` and `SseParser`.
pub mod Chunks
pub mod RoundTrip
pub mod LostNewline
use mcp_cpp.Common.{
  ℕ, ◌+◌, Bool, true, false, not, ◌&&◌, Option, none, some, List, [], ◌∷◌, ◌++◌, Text, codes, ◌==◌,
  if◌then◌else◌, text_eq, split_byte, all, is_digit, atoi, int_to_text, ℤ,
}

pub record SseEvent : Type 0 where
  pub id : Option Text
  pub event : Option Text
  pub payload : Text
  pub retry_ms : Option ℤ

-- `SseEvent{}`
abbrev pub blank_event : SseEvent
blank_event = record { id = none; event = none; payload = []; retry_ms = none }

-- The `data: ` lines: the payload, with a new field at every newline in it.
unfoldable pub data_lines : Text → Text
data_lines [] = b'\n' ∷ []
data_lines (c ∷ cs) =
    let rest = data_lines cs in c ∷ (if c == b'\n' then codes "data: " ++ rest else rest)

-- One header field of an event, if it is present.
abbrev pub field_line : Text → Option Text → Text
field_line name none = []
field_line name (some v) = name ++ (v ++ b'\n' ∷ [])

abbrev pub retry_line : Option ℤ → Text
retry_line none = []
retry_line (some ms) = codes "retry: " ++ (int_to_text ms ++ b'\n' ∷ [])

unfoldable pub format_sse_event : SseEvent → Text
format_sse_event e =
    retry_line e.retry_ms
    ++ (field_line (codes "event: ") e.event
        ++ (field_line (codes "id: ") e.id
            ++ (codes "data: " ++ (data_lines e.payload ++ b'\n' ∷ []))))

-- The parser; `out` is the vector that `feed` appends events to.
pub record SseParser : Type 0 where
  pub buffer : Text
  pub current : SseEvent
  pub any_field : Bool
  pub out : List SseEvent

-- `if (!line.empty() && line.back() == '\r') line.pop_back()`
unfoldable pub strip_cr : Text → Text
strip_cr [] = []
strip_cr (c ∷ []) = if c == b'\r' then [] else c ∷ []
strip_cr (c ∷ d ∷ cs) = c ∷ strip_cr (d ∷ cs)

abbrev pub strip_space : Text → Text
strip_space [] = []
strip_space (c ∷ cs) = if c == b' ' then cs else c ∷ cs

-- A line's field name and value.
abbrev pub field_of : Text → Option (Text × Text) → Text × Text
field_of line none = (line, [])
field_of line (some (name, v)) = (name, strip_space v)

abbrev is_empty : Text → Bool
is_empty [] = true
is_empty (_ ∷ _) = false

module _ (beyond : Text → ℤ) where
  unfoldable pub take_field : SseParser → Text × Text → SseParser
  take_field p (field, v) =
      if text_eq field (codes "data")
      then record p {
        current = record p.current {
          payload =
              p.current.payload
              ++ (if p.any_field && not (is_empty p.current.payload) then b'\n' ∷ v else v);
        };
        any_field = true;
      }
      else if text_eq field (codes "id")
      then record p { current = record p.current { id = some v }; any_field = true }
      else if text_eq field (codes "event")
      then record p { current = record p.current { event = some v }; any_field = true }
      else if text_eq field (codes "retry") && (not (is_empty v) && all is_digit v)
      then record p {
        current = record p.current { retry_ms = some (atoi beyond v) };
        any_field = true;
      }
      else p

  unfoldable pub take_line : SseParser → Text → SseParser
  unfolding take_field
  take_line p [] = record p {
    out = if p.any_field then p.out ++ p.current ∷ [] else p.out;
    current = blank_event;
    any_field = false;
  }
  take_line p (c ∷ cs) =
      if c == b':' then p else take_field p (field_of (c ∷ cs) (split_byte b':' (c ∷ cs)))

  -- The loop of `feed`, over the bytes of the buffer, with the start of a line that holds no
  -- newline in `line`; what is left of it at the end stays in the buffer.
  unfoldable pub drain : SseParser → Text → Text → SseParser
  drain p line [] = record p { buffer = line }
  drain p line (c ∷ cs) =
      let ended = drain (take_line p (strip_cr line)) [] cs in
      let going = drain p (line ++ c ∷ []) cs in if c == b'\n' then ended else going

  unfoldable pub feed : SseParser → Text → SseParser
  unfolding drain
  feed p chunk = drain p [] (p.buffer ++ chunk)
