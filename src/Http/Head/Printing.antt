-- ===== src/Http/Head/Printing.antt =====
-- src/transport/http/http_codec.cpp: the lines that a request is printed as.
use mcp_cpp.Common.{
  Bool, true, false, List, [], ◌∷◌, ◌++◌, Text, codes, length, has_byte, all, ◌≡◌, refl, ap, sym,
  ◌∙◌, append_assoc, to_text,
}
use mcp_cpp.Http.Head.{
  HttpHead, HeaderList, crlf, add_header, header_lines, length_line, adds_length, serialize_request,
}
use mcp_cpp.Http.Head.Lines.{is_inner, print_lines}

-- A header that a line can hold.
abbrev pub IsHeader : Text × Text → Type 0
IsHeader h = (has_byte b':' h.0 ≡ false) × (all is_inner h.0 ≡ true) × (all is_inner h.1 ≡ true)

abbrev pub AreHeaders : HeaderList → Type 0
AreHeaders [] = Unit
AreHeaders (h ∷ hs) = IsHeader h × AreHeaders hs

abbrev pub header_line : Text × Text → Text
header_line h = h.0 ++ (codes ": " ++ h.1)

abbrev pub header_texts : HeaderList → List Text
header_texts [] = []
header_texts (h ∷ hs) = header_line h ∷ header_texts hs

-- The headers that `serialize_request` writes.
abbrev pub with_length : Bool → HeaderList → Text → HeaderList
with_length true headers body = headers ++ (codes "Content-Length", to_text (length body)) ∷ []
with_length false headers body = headers

abbrev pub sent_headers : Text → HeaderList → Text → HeaderList
sent_headers method headers body = with_length (adds_length method headers body) headers body

abbrev pub add_headers : HttpHead → HeaderList → HttpHead
add_headers head [] = head
add_headers head (h ∷ hs) = add_headers (add_header head h) hs

pub header_lines-print :
    (hs : HeaderList) (rest : Text)
    → header_lines hs ++ rest ≡ print_lines (header_texts hs) ++ rest
unfolding header_lines
header_lines-print [] rest = refl
header_lines-print ((n, v) ∷ hs) rest =
    append_assoc n (codes ": " ++ (v ++ (crlf ++ header_lines hs))) rest
    ∙ ap (λ (t : Text). n ++ (codes ": " ++ t))
        (append_assoc v (crlf ++ header_lines hs) rest
          ∙ ap (λ (t : Text). v ++ (crlf ++ t)) (header_lines-print hs rest)
          ∙ sym (append_assoc v (crlf ++ print_lines (header_texts hs)) rest))
    ∙ sym (append_assoc n (codes ": " ++ (v ++ (crlf ++ print_lines (header_texts hs)))) rest)
    ∙ ap (λ (t : Text). t ++ rest)
        (sym (append_assoc n (codes ": " ++ v) (crlf ++ print_lines (header_texts hs))))

abbrev pub request_text : Text → Text → Text
request_text method target = method ++ (codes " " ++ (target ++ codes " HTTP/1.1"))

header_lines-append :
    (hs more : HeaderList) → header_lines (hs ++ more) ≡ header_lines hs ++ header_lines more
unfolding header_lines
header_lines-append [] more = refl
header_lines-append ((n, v) ∷ hs) more =
    ap (λ (t : Text). n ++ (codes ": " ++ (v ++ (crlf ++ t)))) (header_lines-append hs more)
    ∙ sym (
        append_assoc n (codes ": " ++ (v ++ (crlf ++ header_lines hs))) (header_lines more)
        ∙ ap (λ (t : Text). n ++ (codes ": " ++ t))
            (append_assoc v (crlf ++ header_lines hs) (header_lines more)))

length_line-print :
    (b : Bool) (headers : HeaderList) (body rest : Text)
    → header_lines headers ++ (length_line b body ++ rest)
      ≡ print_lines (header_texts (with_length b headers body)) ++ rest
unfolding header_lines
length_line-print false headers body rest = header_lines-print headers rest
length_line-print true headers body rest =
    sym (append_assoc (header_lines headers) (length_line true body) rest)
    ∙ ap (λ (t : Text). t ++ rest)
        (sym (header_lines-append headers ((codes "Content-Length", to_text (length body)) ∷ [])))
    ∙ header_lines-print (with_length true headers body) rest

pub serialize_request-print :
    (method target : Text) (headers : HeaderList) (body : Text)
    → serialize_request method target headers body
      ≡ print_lines (request_text method target ∷ header_texts (sent_headers method headers body))
        ++ (crlf ++ body)
unfolding serialize_request
serialize_request-print method target headers body =
    let b = adds_length method headers body in
    let lines = print_lines (header_texts (sent_headers method headers body)) in
    ap (λ (t : Text). method ++ (codes " " ++ (target ++ (codes " HTTP/1.1" ++ (crlf ++ t)))))
      (length_line-print b headers body (crlf ++ body))
    ∙ sym (
        append_assoc (request_text method target) (crlf ++ lines) (crlf ++ body)
        ∙ append_assoc method (codes " " ++ (target ++ codes " HTTP/1.1"))
            (crlf ++ (lines ++ (crlf ++ body)))
        ∙ ap (λ (t : Text). method ++ (codes " " ++ t))
            (append_assoc target (codes " HTTP/1.1") (crlf ++ (lines ++ (crlf ++ body)))))
