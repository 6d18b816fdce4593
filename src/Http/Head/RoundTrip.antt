-- ===== src/Http/Head/RoundTrip.antt =====
-- src/transport/http/http_codec.cpp: a request, printed and parsed.
use mcp_cpp.Common.{
  ℕ, ℤ, Bool, true, false, some, List, [], ◌∷◌, ◌++◌, Text, codes, length, strip_prefix, split_byte,
  split_byte-append, has_byte, all, ◌≡◌, ◌≢◌, refl, ap, sym, ◌∙◌, arith, append_assoc, take-append,
  to_text, drop, drop-append, is_digit, all-is_digit-to_text,
}
use mcp_cpp.Http.Head.{
  HttpHead, HeaderList, parsed, blank_head, started, crlf, add_header, adds_length,
  serialize_request, start_line, request_line, parse_headers, parse_lines, trim, trim_front,
  parse_head, head_end, lines_of,
}
use mcp_cpp.Common.Dict.{lookup, text_key}
use mcp_cpp.Http.Head.Fields.{AreNeat, field_value, sent_headers-fields}
use mcp_cpp.Http.Head.Lines.{
  is_inner, IsLine, AreLines, print_lines, head_end-print_lines, lines_of-print_lines,
}
use mcp_cpp.Http.Head.Printing.{
  IsHeader, AreHeaders, header_line, header_texts, with_length, sent_headers, add_headers,
  request_text, serialize_request-print,
}

parse_headers-line :
    (head : HttpHead) (n : ℕ) (h : Text × Text) (lines : List Text)
    → has_byte b':' h.0 ≡ false
    → parse_headers head n (header_line h ∷ lines) ≡ parse_headers (add_header head h) n lines
unfolding parse_headers split_byte trim trim_front
parse_headers-line head n ([], v) lines h = refl
parse_headers-line head n (c ∷ cs, v) lines h =
    rw (split_byte-append b':' (c ∷ cs) (b' ' ∷ v) h, parse_headers) refl

parse_headers-texts :
    (head : HttpHead) (n : ℕ) (hs : HeaderList)
    → AreHeaders hs
    → parse_headers head n (header_texts hs ++ [] ∷ []) ≡ parsed (add_headers head hs) n
unfolding parse_headers
parse_headers-texts head n [] h = refl
parse_headers-texts head n (p ∷ hs) h =
    parse_headers-line head n p (header_texts hs ++ [] ∷ []) h.0.0
    ∙ parse_headers-texts (add_header head p) n hs h.1

all_inner-append :
    (xs ys : Text)
    → all is_inner xs ≡ true
    → all is_inner ys ≡ true
    → all is_inner (xs ++ ys) ≡ true
unfolding all
all_inner-append [] ys h k = k
all_inner-append (x ∷ xs) ys h k = ground (arith, all_inner-append xs ys)

is_line : (t : Text) → t ≢ [] → all is_inner t ≡ true → IsLine t
is_line [] n h = n refl
is_line (c ∷ cs) n h = h

append_ne_nil : (xs : Text) (c : ℕ) (ys : Text) → xs ++ c ∷ ys ≢ []
append_ne_nil [] c ys h = cc
append_ne_nil (x ∷ xs) c ys h = cc

header_texts-AreLines : (hs : HeaderList) → AreHeaders hs → AreLines (header_texts hs)
unfolding all
header_texts-AreLines [] h = h
header_texts-AreLines (p ∷ hs) h = (
  is_line (header_line p) (append_ne_nil p.0 b':' (b' ' ∷ p.1))
      (all_inner-append p.0 (codes ": " ++ p.1) h.0.1 h.0.2),
  header_texts-AreLines hs h.1,
)

request_line-text :
    (method target : Text)
    → has_byte b' ' method ≡ false
    → has_byte b' ' target ≡ false
    → request_line (split_byte b' ' (request_text method target))
      ≡ started (record blank_head { method = method; target = target })
unfolding request_line strip_prefix
request_line-text method target h k =
    rw
      (
        split_byte-append b' ' method (target ++ codes " HTTP/1.1") h,
        split_byte-append b' ' target (codes "HTTP/1.1") k,
      )
      refl

parse_lines-cons :
    (beyond : Text → ℤ) (n : ℕ) (t : Text) (lines : List Text) (head : HttpHead)
    → t ≢ []
    → start_line beyond true t ≡ started head
    → parse_lines beyond true n (t ∷ lines) ≡ parse_headers head n lines
unfolding parse_lines
parse_lines-cons beyond n [] lines head h e = absurd (h refl)
parse_lines-cons beyond n (c ∷ cs) lines head h e = rw e refl

all_inner-digits : (t : Text) → all is_digit t ≡ true → all is_inner t ≡ true
unfolding all
all_inner-digits [] h = refl
all_inner-digits (c ∷ cs) h = ground (arith, all_inner-digits cs)

length_line-IsHeader : (n : ℕ) → IsHeader (codes "Content-Length", to_text n)
unfolding has_byte all
length_line-IsHeader n = (refl, refl, all_inner-digits (to_text n) (all-is_digit-to_text n))

AreHeaders-snoc :
    (hs : HeaderList) (h : Text × Text) → AreHeaders hs → IsHeader h → AreHeaders (hs ++ h ∷ [])
AreHeaders-snoc [] h k i = (i, k)
AreHeaders-snoc (p ∷ hs) h k i = (k.0, AreHeaders-snoc hs h k.1 i)

with_length-AreHeaders :
    (b : Bool) (headers : HeaderList) (body : Text)
    → AreHeaders headers
    → AreHeaders (with_length b headers body)
with_length-AreHeaders false headers body h = h
with_length-AreHeaders true headers body h =
    AreHeaders-snoc headers (codes "Content-Length", to_text (length body)) h
      (length_line-IsHeader (length body))

-- A request that is printed from a method and a target without spaces and line ends, and from
-- headers whose names have no colon and whose names and values have no line end and no blank at
-- their ends, is parsed as a whole. The head has this method and target. Its field of any name in
-- small letters is the value of the last header that has the name, whatever its capitals; the field
-- content-length that is not given is the length of the body, if there is a body or the method is
-- POST; and there are no other fields. What is not consumed is the body.
pub parse_head-serialize_request :
    (beyond : Text → ℤ) (method target : Text) (headers : HeaderList) (body : Text)
    → has_byte b' ' method ≡ false
    → has_byte b' ' target ≡ false
    → all is_inner method ≡ true
    → all is_inner target ≡ true
    → AreHeaders headers
    → AreNeat headers
    → (n : ℕ) × (head : HttpHead) × (parse_head beyond
          (serialize_request method target headers body)
          true
        ≡ parsed head n)
      × (head.method ≡ method)
      × (head.target ≡ target)
      × ((k : Text) → lookup k head.headers ≡ field_value k method headers body)
      × (drop n (serialize_request method target headers body) ≡ body)
unfolding parse_head all start_line request_line
parse_head-serialize_request beyond method target headers body ms ts mi ti hs neat =
    let sent = sent_headers method headers body in
    let sent_ok = with_length-AreHeaders (adds_length method headers body) headers body hs in
    let start = request_text method target in
    let start_ok : IsLine start =
      is_line start (append_ne_nil method b' ' (target ++ codes " HTTP/1.1")) (
        all_inner-append method (codes " " ++ (target ++ codes " HTTP/1.1")) mi
          (all_inner-append target (codes " HTTP/1.1") ti refl)) in
    let lines_ok = header_texts-AreLines sent sent_ok in
    let whole = print_lines (start ∷ header_texts sent) ++ crlf in
    let n = length whole in
    let head = record blank_head { method = method; target = target } in
    let printed : serialize_request method target headers body ≡ whole ++ body =
      serialize_request-print method target headers body
      ∙ sym (append_assoc (print_lines (start ∷ header_texts sent)) crlf body) in
    let ended : head_end (whole ++ body) ≡ some n =
      ap head_end (append_assoc (print_lines (start ∷ header_texts sent)) crlf body)
      ∙ head_end-print_lines start (header_texts sent) body start_ok lines_ok in
    let lines : lines_of whole ≡ start ∷ (header_texts sent ++ [] ∷ []) =
      lines_of-print_lines (start ∷ header_texts sent) (start_ok, lines_ok) in
    let read : parse_lines beyond true n (start ∷ (header_texts sent ++ [] ∷ []))
        ≡ parsed (add_headers head sent) n =
      parse_lines-cons beyond n start _ head
        (append_ne_nil method b' ' (target ++ codes " HTTP/1.1"))
        (request_line-text method target ms ts)
      ∙ parse_headers-texts head n sent sent_ok in
    let fields = sent_headers-fields method target headers body neat in
    (
      n,
      add_headers head sent,
      rw (printed, ended, take-append whole body, lines) read,
      fields.0,
      fields.1,
      fields.2,
      rw printed (drop-append whole body),
    )
