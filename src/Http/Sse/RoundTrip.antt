-- ===== src/Http/Sse/RoundTrip.antt =====
-- The parser reads back what `format_sse_event` writes.
use mcp_cpp.Common.{
  ℕ, ◌<◌, true, false, Option, none, some, [], ◌∷◌, ◌++◌, Text, codes, ◌==◌, has_byte,
  has_byte-append, split_byte, text_eq, all, is_digit, to_text, to_text-ne-nil,
  all-is_digit-to_text, int_to_text, atoi-to_text, int_bound, ℤ, pos, negsuc, ◌≡◌, ◌≢◌, refl, ap,
  ◌∙◌, arith, append-nil, append_assoc, append_snoc, Bool-cases, inl, inr, ◌⊎◌, ==_iff,
}
use mcp_cpp.Http.Sse.{
  SseEvent, blank_event, SseParser, data_lines, field_line, retry_line, format_sse_event, strip_cr,
  take_line, drain, feed,
}
use mcp_cpp.Http.Sse.Chunks.{drain-line}

strip_cr-clean : (line : Text) → has_byte b'\r' line ≡ false → strip_cr line ≡ line
unfolding strip_cr has_byte
strip_cr-clean [] h = refl
strip_cr-clean (c ∷ []) h = ground arith
strip_cr-clean (c ∷ d ∷ cs) h = ap (◌∷◌ c) (strip_cr-clean (d ∷ cs) (ground arith))

abbrev IsLine : Text → Type 0
IsLine t = (has_byte b'\n' t ≡ false) × (has_byte b'\r' t ≡ false)

abbrev pub with_payload : SseParser → Text → SseParser
with_payload p x = record p { current = record p.current { payload = x }; any_field = true }

append-ne : (x y : Text) → x ≢ [] → x ++ y ≢ []
append-ne [] y ne = absurd (ne refl)
append-ne (c ∷ cs) y ne = λ f. cc

digits_clean :
    (c : ℕ) (t : Text) → is_digit c ≡ false → all is_digit t ≡ true → has_byte c t ≡ false
unfolding has_byte all
digits_clean c [] n h = refl
digits_clean c (d ∷ ds) n h = ground (arith, digits_clean c ds n)

-- The values that a line can carry.
abbrev pub IsField : Option Text → Type 0
IsField none = Unit {0}
IsField (some v) = (has_byte b'\n' v ≡ false) × (has_byte b'\r' v ≡ false)

abbrev pub IsRetry : Option ℤ → Type 0
IsRetry none = Unit {0}
IsRetry (some (pos n)) = n < int_bound
IsRetry (some (negsuc n)) = ⊥

-- An event that survives the framing: no line break in its id or type, a retry hint that is not
-- negative, no carriage return in its payload and no newline at the payload's start.
pub record IsFramed (e : SseEvent) : Type 0 where
  pub id_line : IsField e.id
  pub event_line : IsField e.event
  pub retry_hint : IsRetry e.retry_ms
  pub no_return : has_byte b'\r' e.payload ≡ false
  pub first_line : (t : Text) → e.payload ≢ b'\n' ∷ t

-- The parser between two events.
pub record IsFresh (p : SseParser) : Type 0 where
  pub no_line : p.buffer ≡ []
  pub no_event : p.current ≡ blank_event
  pub no_field : p.any_field ≡ false

abbrev pub with_retry : SseParser → Option ℤ → SseParser
with_retry p none = p
with_retry p (some ms) = record p {
  current = record p.current { retry_ms = some ms };
  any_field = true;
}

abbrev pub with_event : SseParser → Option Text → SseParser
with_event p none = p
with_event p (some v) = record p { current = record p.current { event = some v }; any_field = true }

abbrev pub with_id : SseParser → Option Text → SseParser
with_id p none = p
with_id p (some v) = record p { current = record p.current { id = some v }; any_field = true }

to_text-IsLine : (n : ℕ) → IsLine (to_text n)
to_text-IsLine n = (
  digits_clean b'\n' (to_text n) refl (all-is_digit-to_text n),
  digits_clean b'\r' (to_text n) refl (all-is_digit-to_text n),
)

module _ (beyond : Text → ℤ) where
  drain-take_line :
      (p : SseParser) (line rest : Text)
      → IsLine line
      → drain beyond p [] (line ++ b'\n' ∷ rest) ≡ drain beyond (take_line beyond p line) [] rest
  drain-take_line p line rest (clean) =
      drain-line beyond p [] line (b'\n' ∷ rest) clean.0
      ∙ unfold drain in rw (strip_cr-clean line clean.1)

  take_line-id :
      (p : SseParser) (v : Text)
      → take_line beyond p (codes "id: " ++ v)
        ≡ record p { current = record p.current { id = some v }; any_field = true }
  unfolding take_line split_byte text_eq
  take_line-id p v = refl

  take_line-event :
      (p : SseParser) (v : Text)
      → take_line beyond p (codes "event: " ++ v)
        ≡ record p { current = record p.current { event = some v }; any_field = true }
  unfolding take_line split_byte text_eq
  take_line-event p v = refl

  take_line-retry :
      (p : SseParser) (n : ℕ)
      → n < int_bound
      → take_line beyond p (codes "retry: " ++ to_text n)
        ≡ record p { current = record p.current { retry_ms = some (pos n) }; any_field = true }
  unfolding take_line split_byte text_eq
  take_line-retry p n h =
      ground (arith, to_text-ne-nil n, all-is_digit-to_text n, atoi-to_text beyond n h)

  -- The first `data` field, and each further one.
  take_line-first_data :
      (p : SseParser) (w : Text)
      → p.current.payload ≡ []
      → take_line beyond p (codes "data: " ++ w) ≡ with_payload p w
  unfolding take_line split_byte text_eq
  take_line-first_data p w e = ground arith

  take_line-more_data :
      (p : SseParser) (x w : Text)
      → x ≢ []
      → take_line beyond (with_payload p x) (codes "data: " ++ w) ≡ with_payload p (x ++ b'\n' ∷ w)
  unfolding take_line split_byte text_eq
  take_line-more_data p [] w ne = absurd (ne refl)
  take_line-more_data p (c ∷ cs) w ne = refl

  more_data :
      (p : SseParser) (x w : Text)
      → x ≢ []
      → has_byte b'\r' w ≡ false
      → take_line beyond (with_payload p x) (strip_cr (codes "data: " ++ w))
        ≡ with_payload p (x ++ b'\n' ∷ w)
  unfolding has_byte
  more_data p x w ne clean =
      rw (strip_cr-clean (codes "data: " ++ w) (clean)) (take_line-more_data p x w ne)

  -- Further lines of the payload go behind what was read, each after a newline.
  drain-more_data :
      (p : SseParser) (x w d rest : Text)
      → x ≢ []
      → has_byte b'\r' w ≡ false
      → has_byte b'\r' d ≡ false
      → drain beyond (with_payload p x) (codes "data: " ++ w) (data_lines d ++ rest)
        ≡ drain beyond (with_payload p (x ++ b'\n' ∷ (w ++ d))) [] rest
  unfolding data_lines drain has_byte
  drain-more_data p x w [] rest ne hw hd = rw (more_data p x w ne hw, append-nil)
  drain-more_data p x w (c ∷ cs) rest ne hw hd = elim (Bool-cases (c == b'\n')) [
    | inl e ↦
        rw (e, more_data p x w ne hw)
          (drain-more_data p (x ++ b'\n' ∷ w) [] cs rest (append-ne x _ ne) refl (ground arith)
            ∙ rw ((==_iff c b'\n').0 e, append_assoc))
    | inr n ↦ rw n (
        drain-more_data p x (w ++ c ∷ []) cs rest ne
          (has_byte-append b'\r' w (c ∷ []) hw (ground arith)) (ground arith)
        ∙ rw append_assoc)
  ]

  pub first_data :
      (p : SseParser) (w : Text)
      → p.current.payload ≡ []
      → has_byte b'\r' w ≡ false
      → take_line beyond p (strip_cr (codes "data: " ++ w)) ≡ with_payload p w
  unfolding has_byte
  first_data p w e clean =
      rw (strip_cr-clean (codes "data: " ++ w) (clean)) (take_line-first_data p w e)

  -- The whole payload, unless its first line is empty and not its only one.
  pub drain-data :
      (p : SseParser) (w d rest : Text)
      → p.current.payload ≡ []
      → has_byte b'\r' w ≡ false
      → has_byte b'\r' d ≡ false
      → (w ≢ []) ⊎ ((t : Text) → d ≢ b'\n' ∷ t)
      → drain beyond p (codes "data: " ++ w) (data_lines d ++ rest)
        ≡ drain beyond (with_payload p (w ++ d)) [] rest
  unfolding data_lines drain has_byte
  drain-data p w [] rest e hw hd start = rw (first_data p w e hw, append-nil)
  drain-data p [] (c ∷ cs) rest e hw hd start = elim (Bool-cases (c == b'\n')) [
    | inl nl ↦ absurd (not_first start nl)
    | inr n ↦ rw n (drain-data p (c ∷ []) cs rest e (ground arith) (ground arith) (inl (λ f. cc)))
  ]
    where
      not_first :
          ((◌≢◌ {A = Text} [] []) ⊎ ((t : Text) → (c ∷ cs) ≢ b'\n' ∷ t)) → (c == b'\n') ≡ true → ⊥
      not_first (inl no_nil) nl = no_nil refl
      not_first (inr other) nl = other cs (ap (λ (d : ℕ). d ∷ cs) ((==_iff c b'\n').0 nl))
  drain-data p (v ∷ w) (c ∷ cs) rest e hw hd start = elim (Bool-cases (c == b'\n')) [
    | inl nl ↦
        rw (nl, first_data p (v ∷ w) e hw)
          (drain-more_data p (v ∷ w) [] cs rest (λ f. cc) refl (ground arith)
            ∙ rw ((==_iff c b'\n').0 nl))
    | inr n ↦ rw n (
        drain-data p (v ∷ (w ++ c ∷ [])) cs rest e
          (has_byte-append b'\r' (v ∷ w) (c ∷ []) hw (ground arith)) (ground arith) (inl (λ f. cc))
        ∙ rw append_assoc)
  ]

  pub drain-retry :
      (p : SseParser) (r : Option ℤ) (rest : Text)
      → IsRetry r
      → drain beyond p [] (retry_line r ++ rest) ≡ drain beyond (with_retry p r) [] rest
  unfolding has_byte int_to_text
  drain-retry p none rest h = refl
  drain-retry p (some (pos n)) rest h = rw (append_snoc (to_text n) b'\n' rest) (
      drain-take_line p (codes "retry: " ++ to_text n) rest (to_text-IsLine n)
      ∙ ap (λ (q : SseParser). drain beyond q [] rest) (take_line-retry p n h))
  drain-retry p (some (negsuc n)) rest h = absurd h

  pub drain-event :
      (p : SseParser) (v : Option Text) (rest : Text)
      → IsField v
      → drain beyond p [] (field_line (codes "event: ") v ++ rest)
        ≡ drain beyond (with_event p v) [] rest
  unfolding has_byte
  drain-event p none rest h = refl
  drain-event p (some v) rest h = rw (append_snoc v b'\n' rest) (
      drain-take_line p (codes "event: " ++ v) rest h
      ∙ ap (λ (q : SseParser). drain beyond q [] rest) (take_line-event p v))

  pub drain-id :
      (p : SseParser) (v : Option Text) (rest : Text)
      → IsField v
      → drain beyond p [] (field_line (codes "id: ") v ++ rest) ≡ drain beyond (with_id p v) [] rest
  unfolding has_byte
  drain-id p none rest h = refl
  drain-id p (some v) rest h = rw (append_snoc v b'\n' rest) (
      drain-take_line p (codes "id: " ++ v) rest h
      ∙ ap (λ (q : SseParser). drain beyond q [] rest) (take_line-id p v))

  abbrev pub with_fields : SseParser → SseEvent → SseParser
  with_fields p e = with_id (with_event (with_retry p e.retry_ms) e.event) e.id

  pub no_payload :
      (p : SseParser) (e : SseEvent) → IsFresh p → (with_fields p e).current.payload ≡ []
  no_payload p e fresh = ground (arith, fresh.no_event)

  -- The empty line delivers the fields read so far.
  pub delivered :
      (p : SseParser) (e : SseEvent)
      → IsFresh p
      → drain beyond (with_payload (with_fields p e) e.payload) [] (b'\n' ∷ [])
        ≡ record p { out = p.out ++ e ∷ [] }
  unfolding drain strip_cr take_line
  delivered p e fresh = ground (arith, fresh.no_event, fresh.no_line, fresh.no_field)

  -- Between two events, the text of an event that survives the framing makes the parser deliver
  -- that event, field by field the same, and leaves it between two events again.
  pub feed-format_sse_event :
      (p : SseParser) (e : SseEvent)
      → IsFresh p
      → IsFramed e
      → feed beyond p (format_sse_event e) ≡ record p { out = p.out ++ e ∷ [] }
  unfolding feed format_sse_event
  feed-format_sse_event p e fresh framed =
      let q1 = with_retry p e.retry_ms in
      let q2 = with_event q1 e.event in
      let q3 = with_id q2 e.id in
      let text = codes "data: " ++ (data_lines e.payload ++ b'\n' ∷ []) in
      ap (λ (t : Text). drain beyond p [] (t ++ format_sse_event e)) fresh.no_line
      ∙ drain-retry p e.retry_ms _ framed.retry_hint
      ∙ drain-event q1 e.event _ framed.event_line
      ∙ drain-id q2 e.id text framed.id_line
      ∙ drain-line beyond q3 [] (codes "data: ") (data_lines e.payload ++ b'\n' ∷ [])
          (unfold has_byte in refl)
      ∙ drain-data q3 [] e.payload (b'\n' ∷ []) (no_payload p e fresh) (unfold has_byte in refl)
          framed.no_return (inr framed.first_line)
      ∙ delivered p e fresh
