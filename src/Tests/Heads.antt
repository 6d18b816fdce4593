-- ===== src/Tests/Heads.antt =====
-- The heads of HTTP messages at concrete inputs.
use mcp_cpp.Common.{ℕ, pos, true, [], ◌∷◌, codes, Text, drop, has_byte, all, ◌≡◌, refl}
use mcp_cpp.Http.Head.{HttpHead, HeaderList, parsed, serialize_request, parse_head}
use mcp_cpp.Common.Dict.{lookup, text_key}
use mcp_cpp.Http.Head.Fields.{end_ok, field_value}
use mcp_cpp.Http.Head.RoundTrip.{parse_head-serialize_request}

abbrev accept_header : HeaderList
accept_header = (codes "Accept", codes "text/event-stream") ∷ []

parse_head-serialize_request_example :
    (n : ℕ) × (head : HttpHead) × (parse_head
        (λ t. pos 0)
        (serialize_request (codes "POST") (codes "/mcp") accept_header (codes "{}"))
        true
      ≡ parsed head n)
    × (head.method ≡ codes "POST")
    × (head.target ≡ codes "/mcp")
    × ((k : Text) → lookup k head.headers ≡ field_value k (codes "POST") accept_header (codes "{}"))
    × (drop n (serialize_request (codes "POST") (codes "/mcp") accept_header (codes "{}"))
        ≡ codes "{}")
unfolding has_byte all end_ok
parse_head-serialize_request_example =
    parse_head-serialize_request (λ t. pos 0) (codes "POST") (codes "/mcp") accept_header
      (codes "{}") refl refl refl refl ((refl, refl, refl), tt)
      (((refl, refl, refl), (refl, refl, refl)), tt)
