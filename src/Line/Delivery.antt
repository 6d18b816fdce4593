-- ===== src/Line/Delivery.antt =====
-- src/transport/line_transport.cpp, src/transport/stdio_transport.cpp: what one side writes, read by
-- the other.
use mcp_cpp.Common.{
  Bool, true, false, Option, none, some, List, [], ◌∷◌, ◌++◌, map, Text, has_byte, drop_cr, ◌≡◌,
  ◌≢◌, refl, ap, sym, ◌∙◌, arith, append_assoc, append-nil, append_snoc,
}
use mcp_cpp.Errors.{Error}
use mcp_cpp.Json.{JsonLib, JsonLaws}
use mcp_cpp.Messages.{
  Message, request, notification, response, serialize_message, message_to_json, outcome_to_json,
  request_to_json, notification_to_json, response_to_json,
}
use mcp_cpp.Messages.Members.{is_object-object, is_object-set_optional}
use mcp_cpp.Messages.RoundTrip.{IsWire, parse_message-message_to_json}
use mcp_cpp.Messages.Frames.{parse_frame}
use mcp_cpp.Line.{
  LineTransport, Effect, handles, writes, Read, got, end_of_file, process_line, process_lines,
  process_frame, emit_errors, then_effects, read_loop, send, send_line, write_line, emit_close,
}
use mcp_cpp.Line.Splitting.{
  split_lines, after_lines, split_lines-append, drain-split_lines, split_lines-remainder,
  split_lines-line,
}

abbrev pub concat : List Text → Text
concat [] = []
concat (c ∷ cs) = c ++ concat cs

-- Chunks, and then the end of the file.
abbrev pub chunks_to_end : List Text → List Read
chunks_to_end [] = end_of_file ∷ []
chunks_to_end (c ∷ cs) = got c ∷ chunks_to_end cs

module _ (L : JsonLib) (t : LineTransport) where
  open L use {Json}

  then_effects_assoc :
      (a b c : Bool × List (Effect Json))
      → then_effects L (then_effects L a b) c ≡ then_effects L a (then_effects L b c)
  then_effects_assoc (false, x) b c = refl
  then_effects_assoc (true, x) (false, y) c = refl
  then_effects_assoc (true, x) (true, y) c =
      ap (λ (e : List (Effect Json)). (c.0, e)) (append_assoc x y c.1)

  process_lines-append :
      (xs ys : List Text)
      → process_lines L t (xs ++ ys) ≡ then_effects L (process_lines L t xs) (process_lines L t ys)
  unfolding process_lines
  process_lines-append [] ys = refl
  process_lines-append (x ∷ xs) ys =
      ap (then_effects L (process_line L t x)) (process_lines-append xs ys)
      ∙ sym (then_effects_assoc (process_line L t x) (process_lines L t xs) (process_lines L t ys))

  -- What a whole text makes the loop do, and then the end of the file.
  abbrev pub of_text : Text → Bool × List (Effect Json)
  of_text text =
      then_effects L (process_lines L t (map drop_cr (split_lines text).0)) (true, emit_close L t)

  map-append : (xs ys : List Text) → map drop_cr (xs ++ ys) ≡ map drop_cr xs ++ map drop_cr ys
  map-append [] ys = refl
  map-append (x ∷ xs) ys = ap (◌∷◌ (drop_cr x)) (map-append xs ys)

  read_loop-of_text :
      (buffer : Text) (cs : List Text)
      → split_lines buffer ≡ ([], buffer)
      → read_loop L t buffer (chunks_to_end cs) ≡ of_text (buffer ++ concat cs)
  unfolding read_loop process_lines
  read_loop-of_text buffer [] h = rw (append-nil buffer, h) refl
  read_loop-of_text buffer (c ∷ cs) h =
      let d = split_lines (buffer ++ c) in
      let tail = split_lines (d.1 ++ concat cs) in
      let closing : Bool × List (Effect Json) = (true, emit_close L t) in
      let rest = read_loop-of_text d.1 cs (split_lines-remainder (buffer ++ c)) in
      let whole : split_lines (buffer ++ (c ++ concat cs)) ≡ after_lines d.0 tail =
        ap split_lines (sym (append_assoc buffer c (concat cs)))
        ∙ split_lines-append (buffer ++ c) (concat cs) in
      rw
        (
          drain-split_lines (buffer ++ c),
          rest,
          whole,
          map-append d.0 tail.0,
          process_lines-append (map drop_cr d.0) (map drop_cr tail.0),
        )
        (sym (
          then_effects_assoc (process_lines L t (map drop_cr d.0))
            (process_lines L t (map drop_cr tail.0)) closing))

  -- Whatever the reads cut the bytes into: what the transport does is what the whole text makes it
  -- do, read in one piece.
  read_loop-chunks :
      (cs : List Text)
      → read_loop L t [] (chunks_to_end cs) ≡ read_loop L t [] (chunks_to_end (concat cs ∷ []))
  unfolding split_lines
  read_loop-chunks cs =
      read_loop-of_text [] cs refl
      ∙ ap of_text (sym (append-nil (concat cs)))
      ∙ sym (read_loop-of_text [] (concat cs ∷ []) refl)

-- What the lines rely on: a printed value is read back; it is not empty, and control characters
-- are escaped in it.
pub record PrintLaws (L : JsonLib) : Type 0 where
  pub parse-dump : (j : L.Json) → L.parse (L.dump j) ≡ some j
  pub dump-ne-nil : (j : L.Json) → L.dump j ≢ []
  pub dump-newline : (j : L.Json) → has_byte b'\n' (L.dump j) ≡ false
  pub dump-return : (j : L.Json) → has_byte b'\r' (L.dump j) ≡ false
  -- An object is no array.
  pub is_array-is_object : (j : L.Json) → L.is_object j ≡ true → L.is_array j ≡ false

drop_cr_inner : (l : Text) → has_byte b'\r' l ≡ false → drop_cr l ≡ l
unfolding drop_cr has_byte
drop_cr_inner [] h = refl
drop_cr_inner (c ∷ []) h = ground arith
drop_cr_inner (c ∷ d ∷ l) h = ap (◌∷◌ c) (drop_cr_inner (d ∷ l) (ground arith))

-- The bytes that the effects of sending write.
abbrev pub written : {J : Type 0} → List (Effect J) → Text
written [] = []
written (writes text ∷ effects) = text ++ written effects
written (_ ∷ effects) = written effects

-- What the sender writes for the messages, one after the other.
abbrev pub sent_text : (L : JsonLib) → LineTransport → List (Message L.Json) → Text
sent_text L s [] = []
sent_text L s (m ∷ ms) = written (send L s m) ++ sent_text L s ms

module _ (L : JsonLib) (laws : JsonLaws L) (prints : PrintLaws L) (t : LineTransport) where
  open L use {Json}

  abbrev pub AllWire : List (Message Json) → Type 0
  AllWire [] = Unit
  AllWire (m ∷ ms) = IsWire L laws m × AllWire ms

  is_object-outcome :
      (e : Option (Error Json)) (v : Option Json) (o : Json)
      → L.is_object o ≡ true
      → L.is_object (outcome_to_json L e v o) ≡ true
  is_object-outcome none v o h = laws.is_object-set_key _ _ o h
  is_object-outcome (some e) v o h = laws.is_object-set_key _ _ o h

  is_object-message : (m : Message Json) → L.is_object (message_to_json L m) ≡ true
  unfolding message_to_json request_to_json notification_to_json response_to_json
  is_object-message (request r) = is_object-set_optional L laws _ _ r.params
  is_object-message (notification n) = is_object-set_optional L laws _ _ n.params
  is_object-message (response r) =
      is_object-outcome r.error r.result _
        (laws.is_object-set_key _ _ _ (is_object-object L laws _))

  written-send :
      (s : LineTransport) (m : Message Json)
      → written (send L s m) ≡ serialize_message L m ++ b'\n' ∷ []
  unfolding send send_line write_line serialize_message
  written-send s m = rw (prints.dump-newline (message_to_json L m)) (append-nil _)

  process_line-cons :
      (line : Text) → line ≢ [] → process_line L t line ≡ process_frame L t (parse_frame L line)
  unfolding process_line
  process_line-cons [] h = absurd (h refl)
  process_line-cons (c ∷ cs) h = refl

  process_line-message :
      (m : Message Json)
      → t.message_handler ≡ true
      → IsWire L laws m
      → process_line L t (drop_cr (serialize_message L m)) ≡ (true, handles m ∷ [])
  unfolding serialize_message parse_frame emit_errors
  process_line-message m h w =
      let j = message_to_json L m in
      let plain : drop_cr (L.dump j) ≡ L.dump j = drop_cr_inner (L.dump j) (prints.dump-return j) in
      rw plain (
        process_line-cons (L.dump j) (prints.dump-ne-nil j)
        ∙ rw
            (
              prints.parse-dump j,
              prints.is_array-is_object j (is_object-message m),
              parse_message-message_to_json L laws m w,
              h,
            )
            refl)

  split_lines-sent :
      (s : LineTransport) (ms : List (Message Json))
      → split_lines (sent_text L s ms) ≡ (map (serialize_message L) ms, [])
  unfolding split_lines serialize_message
  split_lines-sent s [] = refl
  split_lines-sent s (m ∷ ms) =
      rw (written-send s m, append_snoc (serialize_message L m) b'\n' (sent_text L s ms))
        (split_lines-line (serialize_message L m) (sent_text L s ms)
            (prints.dump-newline (message_to_json L m))
          ∙ rw (split_lines-sent s ms) refl)

  process_lines-sent :
      (ms : List (Message Json))
      → t.message_handler ≡ true
      → AllWire ms
      → process_lines L t (map drop_cr (map (serialize_message L) ms)) ≡ (true, map handles ms)
  unfolding process_lines
  process_lines-sent [] h w = refl
  process_lines-sent (m ∷ ms) h w =
      rw (process_line-message m h w.0, process_lines-sent ms h w.1) refl

  -- The lines that one side sends for messages are read by the other side, whatever the reads cut
  -- them into, as exactly these messages, in this order, each handed to its message handler; then
  -- its end is reported. The messages are such that parsing gives them back, a message handler is
  -- set, and the JSON library is to read back what it prints, with control characters escaped.
  pub read_loop-sent :
      (s : LineTransport) (ms : List (Message Json)) (cs : List Text)
      → t.message_handler ≡ true
      → AllWire ms
      → concat cs ≡ sent_text L s ms
      → read_loop L t [] (chunks_to_end cs) ≡ (true, map handles ms ++ emit_close L t)
  unfolding split_lines
  read_loop-sent s ms cs h w e =
      read_loop-of_text L t [] cs refl
      ∙ rw (e, split_lines-sent s ms, process_lines-sent ms h w) refl
