-- ===== src/Tests/Plain.antt =====
-- The theorems on texts, pages, templates and streams, at concrete inputs.
use mcp_cpp.Common.{
  place_of, true, ℕ, ℤ, pos, false, none, some, List, [], ◌∷◌, Text, codes, has_byte, all,
  value_from, ◌≡◌, ◌↔◌, refl, arith,
}
use mcp_cpp.Pagination.{bad_range, paginate}
use mcp_cpp.Pagination.Listing.{follow, follow_all}
use mcp_cpp.Pagination.Overflow.{paginate-bad_range}
use mcp_cpp.UriTemplate.{Segment, literal, variable, tokenize, match_uri_template}
use mcp_cpp.UriTemplate.Tokens.{render, tokenize-render, render-tokenize}
use mcp_cpp.UriTemplate.Matching.{Entered, match_uri_template_iff}
use mcp_cpp.Http.Sse.{SseEvent, blank_event, SseParser, format_sse_event}
use mcp_cpp.Http.Sse.Chunks.{feed-feed}
use mcp_cpp.Http.Sse.RoundTrip.{IsFramed, IsFresh, feed-format_sse_event}
use mcp_cpp.Http.Sse.LostNewline.{feed-leading_newline}
use mcp_cpp.Http.Chunked.{ChunkedDecoder, Fed, chunk_size}
use mcp_cpp.Http.Chunked.Termination.{feed_total}
use mcp_cpp.Http.Chunked.Decoding.{
  encode, contents, digit_value, hex_value, chunk_size-mod, feed-encode,
}
use mcp_cpp.Http.Origin.{origin_allowed, LetThrough, origin_allowed-LetThrough}
use mcp_cpp.Http.Channel.{Stream, new_channel}
use mcp_cpp.Http.Channel.Batches.{deliver, joined, deliver-joined}
use mcp_cpp.Http.Sse
use mcp_cpp.Http.Chunked

abbrev no_overflow : Text → ℤ
no_overflow t = pos 0

abbrev three : List ℕ
three = 5 ∷ 6 ∷ 7 ∷ []

follow_all_example : follow Text three 2 4 none ≡ some three
follow_all_example = follow_all Text three 2 (omega arith) (omega arith) (omega arith)

paginate-bad_range_example :
    paginate {J = Text} three (some (codes "2")) 18446744073709551615 ≡ bad_range
unfolding all value_from
paginate-bad_range_example =
    paginate-bad_range three (codes "2") 18446744073709551615 (omega arith)
      (ground arith, refl, omega arith) (omega arith) (omega arith)

abbrev one_variable : List Segment
one_variable = literal (codes "f:") ∷ variable (codes "x") ∷ []

tokenize-render_example : tokenize (render one_variable) ≡ some one_variable
unfolding has_byte
tokenize-render_example =
    tokenize-render one_variable (refl, ground arith, refl, (ground arith, refl, tt))

match_uri_template_iff_example :
    (match_uri_template (codes "f:{x}") (codes "f:ab") ≡ some ((codes "x", codes "ab") ∷ []))
    ↔ Entered one_variable (codes "f:ab") [] ((codes "x", codes "ab") ∷ [])
unfolding tokenize
match_uri_template_iff_example =
    match_uri_template_iff (codes "f:{x}") (codes "f:ab") one_variable
      ((codes "x", codes "ab") ∷ []) refl

abbrev fresh : SseParser
fresh = record { buffer = []; current = blank_event; any_field = false; out = [] }

fresh-IsFresh : IsFresh fresh
fresh-IsFresh = record { no_line = refl; no_event = refl; no_field = refl }

abbrev hint : SseEvent
hint = record { id = some (codes "7"); event = none; payload = codes "hi"; retry_ms = some (pos 5) }

hint-IsFramed : IsFramed hint
unfolding has_byte
hint-IsFramed = record {
  id_line = (refl, refl);
  event_line = tt;
  retry_hint = omega arith;
  no_return = refl;
  first_line = λ t e. ground arith;
}

feed-feed_example :
    Sse.feed no_overflow (Sse.feed no_overflow fresh (codes "data: a")) (codes "b\n\n")
    ≡ Sse.feed no_overflow fresh (codes "data: ab\n\n")
feed-feed_example = feed-feed no_overflow fresh (codes "data: a") (codes "b\n\n")

feed-format_sse_event_example :
    Sse.feed no_overflow fresh (format_sse_event hint) ≡ record fresh { out = hint ∷ [] }
feed-format_sse_event_example =
    feed-format_sse_event no_overflow fresh hint fresh-IsFresh hint-IsFramed

feed-leading_newline_example :
    Sse.feed no_overflow fresh (format_sse_event (record hint { payload = codes "\nhi" }))
    ≡ record fresh { out = hint ∷ [] }
feed-leading_newline_example =
    feed-leading_newline no_overflow fresh hint fresh-IsFresh hint-IsFramed

feed_total_example :
    (r : Fed) × (Chunked.feed (record { state = Chunked.size; remaining = 0 }) (codes "2\r\nab") []
      ≡ some r)
feed_total_example =
    feed_total (record { state = Chunked.size; remaining = 0 }) (codes "2\r\nab") []

feed-encode_example :
    (d : ChunkedDecoder) × (Chunked.feed
        (record { state = Chunked.size; remaining = 0 })
        (encode ((codes "2", codes "ab") ∷ []) (codes "x"))
        []
      ≡ some (record {
        status = Chunked.done;
        decoder = d;
        buffer = codes "x";
        out = contents ((codes "2", codes "ab") ∷ []);
      }))
unfolding has_byte chunk_size Chunked.hex_digit
feed-encode_example =
    feed-encode ((codes "2", codes "ab") ∷ []) (codes "x") [] 0 (refl, refl, ground arith, tt)

abbrev idle : Stream
idle = record { generation = 0; cursor = 1 }

abbrev two_batches : List (List Text)
two_batches = (codes "a" ∷ codes "b" ∷ []) ∷ [] ∷ (codes "c" ∷ []) ∷ []

deliver-joined_example :
    deliver two_batches idle (new_channel 2 (pos 0)) ≡ codes "a" ∷ codes "b" ∷ codes "c" ∷ []
unfolding new_channel joined
deliver-joined_example =
    deliver-joined two_batches idle (new_channel 2 (pos 0))
      ((refl, omega arith, (1, refl)), refl, refl) (omega arith, (omega arith, (omega arith, tt)))
      (omega arith)

origin_allowed-LetThrough_example :
    (origin_allowed [] (codes "http://localhost.example.com") ≡ true)
    ↔ LetThrough [] (codes "http://localhost.example.com")
origin_allowed-LetThrough_example =
    origin_allowed-LetThrough [] (codes "http://localhost.example.com")

chunk_size-mod_example : chunk_size 0 false (codes "1F") ≡ some 31
unfolding hex_value Chunked.hex_digit digit_value place_of
chunk_size-mod_example = chunk_size-mod (codes "1F") 31 (ground arith) refl

render-tokenize_example : render one_variable ≡ codes "f:{x}"
unfolding tokenize
render-tokenize_example = render-tokenize (codes "f:{x}") refl
