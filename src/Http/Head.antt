-- ===== src/Http/Head.antt =====
-- src/transport/http/http_codec.cpp: the heads of HTTP messages, parsed and printed.
pub mod Lines
pub mod Printing
pub mod Fields
pub mod RoundTrip
use mcp_cpp.Common.{
  ℕ, suc, ◌+◌, ◌-◌, ℤ, pos, negsuc, Bool, true, false, not, ◌&&◌, ◌||◌, Option, none, some, List,
  [], ◌∷◌, ◌++◌, Text, codes, length, take, drop, ◌==◌, ltb, leb, if◌then◌else◌, text_eq, drop_cr,
  starts_with, find_text, split_byte, atoi, to_text, int_to_text,
}
use mcp_cpp.Common.Dict.{Dict, lookup, insert, text_key}

pub record HttpHead : Type 0 where
  pub method : Text
  pub target : Text
  pub status : ℤ
  pub reason : Text
  pub headers : Dict Text Text

abbrev pub HeaderList : Type 0
HeaderList = List (Text × Text)

-- `std::tolower` of the default locale.
abbrev pub lower_byte : ℕ → ℕ
lower_byte c = if leb b'A' c && leb c b'Z' then c + 32 else c

unfoldable pub to_lower : Text → Text
to_lower [] = []
to_lower (c ∷ cs) = lower_byte c ∷ to_lower cs

-- The two loops of `trim`: from the front, and from the back.
unfoldable pub trim_front : Text → Text
trim_front [] = []
trim_front (c ∷ cs) = let rest = trim_front cs in if c == b' ' || c == b'\t' then rest else c ∷ cs

abbrev pub is_trailing : ℕ → Bool
is_trailing c = c == b' ' || c == b'\t' || c == b'\r'

abbrev pub keep_byte : ℕ → Text → Text
keep_byte c [] = if is_trailing c then [] else c ∷ []
keep_byte c (d ∷ ds) = c ∷ d ∷ ds

unfoldable pub trim_back : Text → Text
trim_back [] = []
trim_back (c ∷ cs) = keep_byte c (trim_back cs)

unfoldable pub trim : Text → Text
trim s = trim_back (trim_front s)

abbrev pub or_empty : Option Text → Text
or_empty none = []
or_empty (some v) = v

unfoldable pub header : HttpHead → Text → Text
header head lowercase_name = or_empty (lookup lowercase_name head.headers)

unfoldable pub header_contains : HttpHead → Text → Text → Bool
header_contains head lowercase_name token =
    elim (find_text (to_lower token) (to_lower (header head lowercase_name))) [
      | none ↦ false
      | some _ ↦ true
    ]

abbrev pub front_length : ℕ → Option (Text × Text) → Option ℕ
front_length n none = none
front_length n (some found) = some (length found.0 + n)

abbrev pub or_else : Option ℕ → Option ℕ → Option ℕ
or_else none other = other
or_else (some n) other = some n

abbrev pub crlfs : Text
crlfs = b'\r' ∷ b'\n' ∷ b'\r' ∷ b'\n' ∷ []

abbrev pub lfs : Text
lfs = b'\n' ∷ b'\n' ∷ []

-- Where the head ends, `none` while it is incomplete.
unfoldable pub head_end : Text → Option ℕ
head_end buffer =
    or_else (front_length 4 (find_text crlfs buffer)) (front_length 2 (find_text lfs buffer))

abbrev pub onto_first : ℕ → List Text → List Text
onto_first c [] = []
onto_first c (l ∷ ls) = (c ∷ l) ∷ ls

-- The lines up to the last `\n`; what stands behind it is no line.
unfoldable pub raw_lines : Text → List Text
raw_lines [] = []
raw_lines (c ∷ cs) = let rest = raw_lines cs in if c == b'\n' then [] ∷ rest else onto_first c rest

unfoldable pub drop_crs : List Text → List Text
drop_crs [] = []
drop_crs (l ∷ ls) = drop_cr l ∷ drop_crs ls

unfoldable pub lines_of : Text → List Text
lines_of text = drop_crs (raw_lines text)

-- What `parse_head` returns: false without an error, false with one, or true.
pub data HeadResult : Type 0 where
  incomplete : HeadResult
  malformed : Text → HeadResult
  parsed : HttpHead → ℕ → HeadResult

-- `HttpHead{}`
abbrev pub blank_head : HttpHead
blank_head = record { method = []; target = []; status = pos 0; reason = []; headers = [] }

-- The start line gives a head, or the error.
pub data Started : Type 0 where
  started : HttpHead → Started
  refused : Text → Started

abbrev pub request_target : Text → Option (Text × Text) → Started
request_target method none = refused (codes "malformed request line")
request_target method (some parts) =
    if starts_with (codes "HTTP/1.") parts.1
    then started (record blank_head { method = method; target = parts.0 })
    else refused (codes "malformed request line")

unfoldable pub request_line : Option (Text × Text) → Started
request_line none = refused (codes "malformed request line")
request_line (some parts) = request_target parts.0 (split_byte b' ' parts.1)

abbrev pub reason_of : Option (Text × Text) → Text
reason_of none = []
reason_of (some parts) = parts.1

abbrev pub is_status : ℤ → Bool
is_status (pos n) = leb 100 n && leb n 599
is_status (negsuc n) = false

module _ (beyond : Text → ℤ) where
  -- `parts` is the line around its first space.
  abbrev pub status_after : Text → Option (Text × Text) → Started
  status_after line none = refused (codes "malformed status line")
  status_after line (some parts) =
      if ltb (length line) (length parts.0 + 4)
      then refused (codes "malformed status line")
      else if not (is_status (atoi beyond parts.1))
      then refused (codes "invalid status code")
      else started (record blank_head {
        status = atoi beyond parts.1;
        reason = reason_of (split_byte b' ' parts.1);
      })

  unfoldable pub status_line : Text → Started
  status_line line =
      if not (starts_with (codes "HTTP/1.") line)
      then refused (codes "malformed status line")
      else status_after line (split_byte b' ' line)

  unfoldable pub start_line : Bool → Text → Started
  start_line true line = request_line (split_byte b' ' line)
  start_line false line = status_line line

abbrev pub add_header : HttpHead → Text × Text → HttpHead
add_header head parts = record head {
  headers = insert (to_lower (trim parts.0)) (trim parts.1) head.headers;
}

-- The loop over the header lines.
unfoldable pub parse_headers : HttpHead → ℕ → List Text → HeadResult
parse_headers head consumed [] = parsed head consumed
parse_headers head consumed ([] ∷ lines) = parsed head consumed
parse_headers head consumed ((c ∷ cs) ∷ lines) = elim (split_byte b':' (c ∷ cs)) [
  | none ↦ malformed (codes "malformed header line")
  | some parts ↦ parse_headers (add_header head parts) consumed lines
]

abbrev pub parse_started : Started → ℕ → List Text → HeadResult
parse_started (refused error) consumed lines = malformed error
parse_started (started head) consumed lines = parse_headers head consumed lines

module _ (beyond : Text → ℤ) where
  unfoldable pub parse_lines : Bool → ℕ → List Text → HeadResult
  parse_lines request_mode consumed [] = malformed (codes "empty start line")
  parse_lines request_mode consumed ([] ∷ lines) = malformed (codes "empty start line")
  parse_lines request_mode consumed ((c ∷ cs) ∷ lines) =
      parse_started (start_line beyond request_mode (c ∷ cs)) consumed lines

  abbrev pub parse_ended : Text → Bool → Option ℕ → HeadResult
  parse_ended buffer request_mode none = incomplete
  parse_ended buffer request_mode (some n) = parse_lines request_mode n (lines_of (take n buffer))

  unfoldable pub parse_head : Text → Bool → HeadResult
  parse_head buffer request_mode = parse_ended buffer request_mode (head_end buffer)

abbrev pub crlf : Text
crlf = b'\r' ∷ b'\n' ∷ []

unfoldable pub header_lines : HeaderList → Text
header_lines [] = []
header_lines ((name, value) ∷ headers) =
    name ++ (codes ": " ++ (value ++ (crlf ++ header_lines headers)))

unfoldable pub has_length : HeaderList → Bool
has_length [] = false
has_length ((name, value) ∷ headers) =
    let rest = has_length headers in
    if text_eq (to_lower name) (codes "content-length") then true else rest

abbrev pub length_line : Bool → Text → Text
length_line false body = []
length_line true body = codes "Content-Length: " ++ (to_text (length body) ++ crlf)

abbrev pub is_nil : Text → Bool
is_nil [] = true
is_nil (c ∷ cs) = false

abbrev pub adds_length : Text → HeaderList → Text → Bool
adds_length method headers body =
    not (has_length headers) && (not (is_nil body) || text_eq method (codes "POST"))

unfoldable pub serialize_request : Text → Text → HeaderList → Text → Text
serialize_request method target headers body =
    method
    ++ (codes " "
        ++ (target
            ++ (codes " HTTP/1.1"
                ++ (crlf
                    ++ (header_lines headers
                        ++ (length_line (adds_length method headers body) body
                            ++ (crlf ++ body)))))))

unfoldable pub serialize_response : ℤ → Text → HeaderList → Text → Bool → Text
serialize_response status reason headers body streaming =
    codes "HTTP/1.1 "
    ++ (int_to_text status
        ++ (codes " "
            ++ (reason
                ++ (crlf
                    ++ (header_lines headers
                        ++ (length_line (not streaming) body ++ (crlf ++ body)))))))
