-- ===== src/Http/Sse/Chunks.antt =====
-- How the bytes of a stream are cut into chunks does not matter to the parser.
use mcp_cpp.Common.{
  false, [], ◌∷◌, ◌++◌, Text, ◌==◌, has_byte, has_byte-append, ℤ, ◌≡◌, refl, sym, ◌∙◌, arith,
  append-nil, append_assoc, Bool-cases, inl, inr,
}
use mcp_cpp.Http.Sse.{SseParser, strip_cr, take_line, drain, feed}

module _ (beyond : Text → ℤ) where
  take_line-buffer :
      (p : SseParser) (line x : Text)
      → take_line beyond (record p { buffer = x }) line
        ≡ record (take_line beyond p line) { buffer = x }
  unfolding take_line
  take_line-buffer p [] x = refl
  take_line-buffer p (c ∷ cs) x = ground arith

  drain-buffer :
      (p : SseParser) (line t x : Text)
      → drain beyond (record p { buffer = x }) line t ≡ drain beyond p line t
  unfolding drain
  drain-buffer p line [] x = refl
  drain-buffer p line (c ∷ cs) x = elim (Bool-cases (c == b'\n')) [
    | inl e ↦
        rw (e, take_line-buffer p (strip_cr line) x)
          (drain-buffer (take_line beyond p (strip_cr line)) [] cs x)
    | inr n ↦ rw n (drain-buffer p (line ++ c ∷ []) cs x)
  ]

  drain-append :
      (p : SseParser) (line a b : Text)
      → drain beyond p line (a ++ b)
        ≡ drain beyond (drain beyond p line a) (drain beyond p line a).buffer b
  unfolding drain
  drain-append p line [] b = sym (drain-buffer p line b line)
  drain-append p line (c ∷ cs) b = elim (Bool-cases (c == b'\n')) [
    | inl e ↦ rw e (drain-append (take_line beyond p (strip_cr line)) [] cs b)
    | inr n ↦ rw n (drain-append p (line ++ c ∷ []) cs b)
  ]

  -- Bytes without a newline only lengthen the line.
  pub drain-line :
      (p : SseParser) (line w b : Text)
      → has_byte b'\n' w ≡ false
      → drain beyond p line (w ++ b) ≡ drain beyond p (line ++ w) b
  unfolding drain has_byte
  drain-line p line [] b h = rw append-nil
  drain-line p line (c ∷ cs) b h =
      ground
        (arith, drain-line p (line ++ c ∷ []) cs b (ground arith), append_assoc line (c ∷ []) cs)

  buffer-drain :
      (p : SseParser) (line t : Text)
      → has_byte b'\n' line ≡ false
      → has_byte b'\n' (drain beyond p line t).buffer ≡ false
  unfolding drain has_byte
  buffer-drain p line [] h = h
  buffer-drain p line (c ∷ cs) h = elim (Bool-cases (c == b'\n')) [
    | inl e ↦ rw e (buffer-drain (take_line beyond p (strip_cr line)) [] cs refl)
    | inr n ↦
        rw n (
          buffer-drain p (line ++ c ∷ []) cs (has_byte-append b'\n' line (c ∷ []) h (ground arith)))
  ]

  -- Two chunks, one after the other, leave the parser in the state of their concatenation: the
  -- same events, the same unfinished event and the same unfinished line.
  pub feed-feed :
      (p : SseParser) (a b : Text) → feed beyond (feed beyond p a) b ≡ feed beyond p (a ++ b)
  unfolding feed
  feed-feed p a b =
      let q = drain beyond p [] (p.buffer ++ a) in
      drain-line q [] q.buffer b (buffer-drain p [] (p.buffer ++ a) (unfold has_byte in refl))
      ∙ sym (drain-append p [] (p.buffer ++ a) b)
      ∙ rw append_assoc
