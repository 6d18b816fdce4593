-- ===== src/Http/Chunked.antt =====
-- src/transport/http/http_codec.cpp: `ChunkedDecoder::feed`. `size_t` has 64 bits.
pub mod Termination
pub mod Decoding
use mcp_cpp.Common.{
  ℕ, zero, suc, ◌+◌, ◌-◌, ◌*◌, ◌%◌, ◌^◌, min, Bool, true, false, ◌&&◌, Option, none, some, List, [],
  ◌∷◌, ◌++◌, Text, codes, length, take, drop, ◌==◌, ltb, leb, if◌then◌else◌, starts_with,
  strip_prefix, cut_at,
}

abbrev pub size_mod : ℕ
size_mod = 2 ^ 64

pub data DecoderState : Type 0 where
  size data_bytes data_crlf trailers : DecoderState

pub data Status : Type 0 where
  need_more done error : Status

pub record ChunkedDecoder : Type 0 where
  pub state : DecoderState
  pub remaining : ℕ

unfoldable pub hex_digit : ℕ → Option ℕ
hex_digit c =
    if leb b'0' c && leb c b'9'
    then some (c - b'0')
    else if leb b'a' c && leb c b'f'
    then some (c - b'a' + 10)
    else if leb b'A' c && leb c b'F'
    then some (c - b'A' + 10)
    else none

-- The loop over the line of a chunk's size: `none` is an error. `any` says that a digit was read.
unfoldable pub chunk_size : ℕ → Bool → Text → Option ℕ
chunk_size n any [] = if any then some n else none
chunk_size n any (c ∷ cs) =
    let more : Option ℕ = elim (hex_digit c) [
      | none ↦ none
      | some digit ↦ chunk_size ((n * 16 + digit) % size_mod) true cs
    ] in
    if c == b';' then if any then some n else none else more

-- What one round of the loop does: it returns, or goes on with the buffer and the output so far.
pub data Round : Type 0 where
  stop : Status → ChunkedDecoder → Text → Text → Round
  go_on : ChunkedDecoder → Text → Text → Round

abbrev pub crlf : Text
crlf = b'\r' ∷ b'\n' ∷ []

abbrev pub round_sized : ChunkedDecoder → Option ℕ → Text → Text → Round
round_sized d none buffer out = stop error d buffer out
round_sized d (some n) buffer out =
    if n == 0
    then go_on (record d { state = trailers }) buffer out
    else go_on (record { state = data_bytes; remaining = n }) buffer out

unfoldable pub round_size : ChunkedDecoder → Option (Text × Text) → Text → Text → Round
round_size d none buffer out = stop need_more d buffer out
round_size d (some (line, rest)) buffer out = round_sized d (chunk_size 0 false line) rest out

unfoldable pub round_data : ChunkedDecoder → Text → Text → Round
round_data d buffer out =
    let taken = min d.remaining (length buffer) in
    let left = d.remaining - taken in
    if ltb 0 left
    then stop need_more (record d { remaining = left }) (drop taken buffer)
        (out ++ take taken buffer)
    else go_on (record { state = data_crlf; remaining = left }) (drop taken buffer)
        (out ++ take taken buffer)

unfoldable pub round_data_crlf : ChunkedDecoder → Text → Text → Round
round_data_crlf d buffer out =
    if ltb (length buffer) 2
    then stop need_more d buffer out
    else if starts_with crlf buffer
    then go_on (record d { state = size }) (drop 2 buffer) out
    else stop error d buffer out

unfoldable pub round_trailers : ChunkedDecoder → Option (Text × Text) → Text → Text → Round
round_trailers d none buffer out = stop need_more d buffer out
round_trailers d (some ([], rest)) buffer out = stop done d rest out
round_trailers d (some (_ ∷ _, rest)) buffer out = go_on d rest out

round_in : DecoderState → ChunkedDecoder → Text → Text → Round
unfolding round_size round_data round_data_crlf round_trailers
round_in size d buffer out = round_size d (cut_at crlf buffer) buffer out
round_in data_bytes d buffer out = round_data d buffer out
round_in data_crlf d buffer out = round_data_crlf d buffer out
round_in trailers d buffer out = round_trailers d (cut_at crlf buffer) buffer out

unfoldable pub round : ChunkedDecoder → Text → Text → Round
unfolding round_in
round d buffer out = round_in d.state d buffer out

pub record Fed : Type 0 where
  pub status : Status
  pub decoder : ChunkedDecoder
  pub buffer : Text
  pub out : Text

-- `for (;;)`; `none` means that the fuel ran out.
unfoldable pub rounds : ℕ → ChunkedDecoder → Text → Text → Option Fed
rounds zero d buffer out = none
rounds (suc fuel) d buffer out = elim (round d buffer out) [
  | stop s d' buffer' out' ↦
      some (record { status = s; decoder = d'; buffer = buffer'; out = out' })
  | go_on d' buffer' out' ↦ rounds fuel d' buffer' out'
]

-- Every round but one in `data_bytes` consumes bytes: fuel for all of them.
unfoldable pub feed : ChunkedDecoder → Text → Text → Option Fed
unfolding rounds
feed d buffer out = rounds (length buffer + length buffer + 2) d buffer out
