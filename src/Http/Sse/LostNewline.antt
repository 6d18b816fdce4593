-- ===== src/Http/Sse/LostNewline.antt =====
-- A payload that starts with a newline does not survive the framing.
use mcp_cpp.Common.{[], ◌∷◌, ◌++◌, Text, codes, has_byte, ℤ, ◌≡◌, refl, ap, ◌∙◌, inr}
use mcp_cpp.Http.Sse.{SseEvent, SseParser, data_lines, format_sse_event, drain, feed}
use mcp_cpp.Http.Sse.Chunks.{drain-line}
use mcp_cpp.Http.Sse.RoundTrip.{
  IsFramed, IsFresh, with_payload, with_retry, with_event, with_id, drain-retry, drain-event,
  drain-id, drain-data, first_data, no_payload, delivered,
}

module _ (beyond : Text → ℤ) where
  -- `data: ` with an empty line first leaves no trace.
  drain-empty_line :
      (p : SseParser) (d rest : Text)
      → p.current.payload ≡ []
      → drain beyond p (codes "data: ") (data_lines (b'\n' ∷ d) ++ rest)
        ≡ drain beyond (with_payload p []) (codes "data: ") (data_lines d ++ rest)
  unfolding data_lines drain has_byte
  drain-empty_line p d rest e =
      rw (first_data beyond p [] e refl)
        (drain-line beyond (with_payload p []) [] (codes "data: ") (data_lines d ++ rest) refl)

  -- Between two events, the text of an event whose payload is a newline and a text `d` is read as
  -- the event whose payload is `d`, where that event would survive the framing: the first newline
  -- of the payload is lost.
  pub feed-leading_newline :
      (p : SseParser) (e : SseEvent)
      → IsFresh p
      → IsFramed e
      → feed beyond p (format_sse_event (record e { payload = b'\n' ∷ e.payload }))
        ≡ record p { out = p.out ++ e ∷ [] }
  unfolding feed format_sse_event
  feed-leading_newline p e fresh framed =
      let q1 = with_retry p e.retry_ms in
      let q2 = with_event q1 e.event in
      let q3 = with_id q2 e.id in
      let lines = data_lines (b'\n' ∷ e.payload) ++ b'\n' ∷ [] in
      ap
        (λ (t : Text).
          drain beyond p [] (t ++ format_sse_event (record e { payload = b'\n' ∷ e.payload })))
        fresh.no_line
      ∙ drain-retry beyond p e.retry_ms _ framed.retry_hint
      ∙ drain-event beyond q1 e.event _ framed.event_line
      ∙ drain-id beyond q2 e.id (codes "data: " ++ lines) framed.id_line
      ∙ drain-line beyond q3 [] (codes "data: ") lines (unfold has_byte in refl)
      ∙ drain-empty_line q3 e.payload (b'\n' ∷ []) (no_payload beyond p e fresh)
      ∙ drain-data beyond (with_payload q3 []) [] e.payload (b'\n' ∷ []) refl
          (unfold has_byte in refl) framed.no_return (inr framed.first_line)
      ∙ delivered beyond p e fresh
