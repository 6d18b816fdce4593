-- ===== src/UriTemplate.antt =====
-- src/server/uri_template.cpp: RFC 6570 level-1 templates.
-- A position in a text is modelled by the text from that position on.
pub mod Matching
pub mod Tokens
use mcp_cpp.Common.{
  ℕ, zero, suc, ◌+◌, Bool, true, false, Option, none, some, List, [], ◌∷◌, ◌++◌, Text, length, ◌==◌,
  if◌then◌else◌, strip_prefix, find_text, split_byte,
}
use mcp_cpp.Common.Dict.{Dict, insert, text_key}
use mathlib.Core.Option

pub data Segment : Type 0 where
  literal : Text → Segment
  variable : Text → Segment

-- `if (!current.empty()) segments.push_back({current, false})`
abbrev pub flush : Text → List Segment → List Segment
flush [] rest = rest
flush (c ∷ cs) rest = literal (c ∷ cs) ∷ rest

-- `{` was read: the expression that `split_byte` found up to `}`, and how to go on behind it.
-- An unterminated or empty expression is refused.
abbrev pub close_variable :
    Text → Option (Text × Text) → (Text → Option (List Segment)) → Option (List Segment)
close_variable current none go_on = none
close_variable current (some ([], rest)) go_on = none
close_variable current (some (n ∷ ns, rest)) go_on =
    Option.map (λ segs. flush current (variable (n ∷ ns) ∷ segs)) (go_on rest)

-- The loop of `tokenize` over the text that is left, with the literal read so far. Each round
-- consumes at least one byte, so the template's length is fuel enough.
unfoldable pub tokenize_from : ℕ → Text → Text → Option (List Segment)
tokenize_from fuel current [] = some (flush current [])
tokenize_from zero current (c ∷ cs) = none
tokenize_from (suc fuel) current (c ∷ cs) =
    let plain = tokenize_from fuel (current ++ c ∷ []) cs in
    let braced = close_variable current (split_byte b'}' cs) (λ rest. tokenize_from fuel [] rest) in
    if c == b'{' then braced else plain

unfoldable pub tokenize : Text → Option (List Segment)
unfolding tokenize_from split_byte
tokenize t = tokenize_from (length t) [] t

-- `variables[segment.text] = …`; an empty value does not match.
abbrev pub bind_value : Text → Text → Option (Dict Text Text) → Option (Dict Text Text)
bind_value name [] m = none
bind_value name (v ∷ vs) m = m

-- The loop of `match_uri_template` over the segments, at the text of the URI that is left.
unfoldable pub match_from : List Segment → Text → Dict Text Text → Option (Dict Text Text)
match_from [] [] vars = some vars
match_from [] (c ∷ cs) vars = none
match_from (literal text ∷ rest) uri vars = elim (strip_prefix text uri) [
  | none ↦ none
  | some uri' ↦ match_from rest uri' vars
]
match_from (variable name ∷ []) uri vars =
    bind_value name uri (match_from [] [] (insert name uri vars))
match_from (variable name ∷ variable _ ∷ rest) uri vars = none
match_from (variable name ∷ literal text ∷ rest) uri vars = elim (find_text text uri) [
  | none ↦ none
  | some (value, uri') ↦
      bind_value name value (match_from (literal text ∷ rest) uri' (insert name value vars))
]

unfoldable pub match_segments : Option (List Segment) → Text → Option (Dict Text Text)
match_segments none uri = none
match_segments (some segments) uri = match_from segments uri []

unfoldable pub match_uri_template : Text → Text → Option (Dict Text Text)
unfolding match_segments
match_uri_template template uri = match_segments (tokenize template) uri
