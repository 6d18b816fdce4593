-- ===== src/Http/Chunked/Decoding.antt =====
-- What the decoder reads: sizes, and whole bodies.
use native.Mathlib.Nat.{min-eq_left}
use mcp_cpp.Common.{
  place_of, codes, ℕ, suc, ◌+◌, ◌-◌, ◌*◌, ◌%◌, ◌≤◌, true, false, Option, none, some, List, [], ◌∷◌,
  ◌++◌, Text, length, take-append, drop-append, length-append, has_byte, cut_at_complete,
  FirstAt-absent, Option-cases, strip_prefix, ◌==◌, ◌≡◌, ◌≢◌, refl, ap, ◌∙◌, arith, inl, inr,
  append_assoc, append-nil,
}
use mcp_cpp.Http.Chunked.{
  size_mod, size, data_bytes, data_crlf, trailers, Status, done, ChunkedDecoder, stop, go_on, crlf,
  hex_digit, chunk_size, round, rounds, feed,
}

-- The digits in the order of their values, small and capital.
abbrev pub small_digits : Text
small_digits = codes "0123456789abcdef"

abbrev pub capital_digits : Text
capital_digits = codes "0123456789ABCDEF"

abbrev pub either_place : Option ℕ → Option ℕ → Option ℕ
either_place none other = other
either_place (some n) other = some n

unfoldable pub digit_value : ℕ → Option ℕ
digit_value c = either_place (place_of c small_digits) (place_of c capital_digits)

hex_digit-digit_value : (c : ℕ) → hex_digit c ≡ digit_value c
unfolding hex_digit digit_value place_of
hex_digit-digit_value c = ground arith

-- The number that a row of hexadecimal digits denotes, read on from `n`; `none` at any other byte.
unfoldable pub hex_value : ℕ → Text → Option ℕ
hex_value n [] = some n
hex_value n (c ∷ cs) = elim (digit_value c) [
  | none ↦ none
  | some digit ↦ hex_value (n * 16 + digit) cs
]

hex_digit-ne-semicolon : (c d : ℕ) → hex_digit c ≡ some d → (c == b';') ≡ false
unfolding hex_digit
hex_digit-ne-semicolon c d h = ground arith

chunk_size-hex_value :
    (m n v : ℕ) (line : Text)
    → n ≡ m % size_mod
    → hex_value m line ≡ some v
    → chunk_size n true line ≡ some (v % size_mod)
unfolding chunk_size hex_value
chunk_size-hex_value m n v [] e h = ground arith
chunk_size-hex_value m n v (c ∷ cs) e h = elim (Option-cases (hex_digit c)) [
  | inl bad ↦ absurd (ground (arith, hex_digit-digit_value c))
  | inr (d, good) ↦
      let next : (n * 16 + d) % size_mod ≡ (m * 16 + d) % size_mod = omega arith in
      ground (
        arith,
        hex_digit-digit_value c,
        hex_digit-ne-semicolon c d good,
        chunk_size-hex_value (m * 16 + d) ((n * 16 + d) % size_mod) v cs next,
      )
]

-- A line of hexadecimal digits, one at least, is read as its number modulo 2^64.
pub chunk_size-mod :
    (line : Text) (v : ℕ)
    → line ≢ []
    → hex_value 0 line ≡ some v
    → chunk_size 0 false line ≡ some (v % size_mod)
unfolding chunk_size hex_value
chunk_size-mod [] v ne h = absurd (ne refl)
chunk_size-mod (c ∷ cs) v ne h = elim (Option-cases (hex_digit c)) [
  | inl bad ↦ absurd (ground (arith, hex_digit-digit_value c))
  | inr (d, good) ↦ ground (
    arith,
    hex_digit-digit_value c,
    hex_digit-ne-semicolon c d good,
    chunk_size-hex_value (0 * 16 + d) ((0 * 16 + d) % size_mod) v cs refl,
  )
]

-- A body as it is sent: each chunk's size line and bytes, and the last chunk, without trailers.
-- The bytes `rest` stand behind it.
pub encode : List (Text × Text) → Text → Text
encode [] rest = b'0' ∷ (crlf ++ (crlf ++ rest))
encode ((line, bytes) ∷ chunks) rest = line ++ (crlf ++ (bytes ++ (crlf ++ encode chunks rest)))

pub contents : List (Text × Text) → Text
contents [] = []
contents ((line, bytes) ∷ chunks) = bytes ++ contents chunks

-- Each size line holds no carriage return and is read as the length of the chunk's bytes, which
-- are not empty.
abbrev pub IsBody : List (Text × Text) → Type 0
IsBody [] = Unit {0}
IsBody ((line, bytes) ∷ chunks) =
    (has_byte b'\r' line ≡ false)
    × (chunk_size 0 false line ≡ some (length bytes))
    × (bytes ≢ [])
    × IsBody chunks

module _ (line rest out : Text) (r : ℕ) (clean : has_byte b'\r' line ≡ false) where
  round-size :
      (n : ℕ)
      → chunk_size 0 false line ≡ some n
      → (n == 0) ≡ false
      → round (record { state = size; remaining = r }) (line ++ (crlf ++ rest)) out
        ≡ go_on (record { state = data_bytes; remaining = n }) rest out
  unfolding round
  round-size n e pos =
      ground
        (arith, cut_at_complete crlf line rest (FirstAt-absent b'\r' (b'\n' ∷ []) line rest clean))

round-data :
    (bytes rest out : Text)
    → round (record { state = data_bytes; remaining = length bytes }) (bytes ++ rest) out
      ≡ go_on
          (record { state = data_crlf; remaining = length bytes - length bytes })
          rest
          (out ++ bytes)
unfolding round
round-data bytes rest out = ground (
  arith,
  min-eq_left {n = length bytes} {m = length (bytes ++ rest)}
      (omega (arith, length-append bytes rest)),
  take-append bytes rest,
  drop-append bytes rest,
)

round-data_crlf :
    (rest out : Text) (r : ℕ)
    → round (record { state = data_crlf; remaining = r }) (crlf ++ rest) out
      ≡ go_on (record { state = size; remaining = r }) rest out
unfolding round strip_prefix
round-data_crlf rest out r = ground arith

rounds-go_on :
    (d : ChunkedDecoder) (buffer out : Text) {d' : ChunkedDecoder} {buffer' out' : Text} (fuel : ℕ)
    → round d buffer out ≡ go_on d' buffer' out'
    → rounds (suc fuel) d buffer out ≡ rounds fuel d' buffer' out'
unfolding rounds
rounds-go_on d buffer out fuel e = rw (e, rounds)

rounds-stop :
    (d : ChunkedDecoder) (buffer out : Text) {d' : ChunkedDecoder} {buffer' out' : Text}
    {s : Status} (fuel : ℕ)
    → round d buffer out ≡ stop s d' buffer' out'
    → rounds (suc fuel) d buffer out
      ≡ some (record { status = s; decoder = d'; buffer = buffer'; out = out' })
unfolding rounds
rounds-stop d buffer out fuel e = rw (e, rounds)

-- Three rounds for each chunk and two for the end, and more.
abbrev triple : List (Text × Text) → ℕ → ℕ
triple [] fuel = suc (suc fuel)
triple (_ ∷ chunks) fuel = suc (suc (suc (triple chunks fuel)))

length-ne : (t : Text) → t ≢ [] → (length t == 0) ≡ false
length-ne [] ne = absurd (ne refl)
length-ne (c ∷ cs) ne = ground arith

last_round :
    (rest out : Text) (r : ℕ)
    → round (record { state = trailers; remaining = r }) (crlf ++ rest) out
      ≡ stop done (record { state = trailers; remaining = r }) rest out
unfolding round
last_round rest out r = ground (
  arith,
  cut_at_complete crlf [] rest
      (FirstAt-absent b'\r' (b'\n' ∷ []) [] rest (unfold has_byte in refl)),
)

zero_round :
    (rest out : Text) (r : ℕ)
    → round (record { state = size; remaining = r }) (b'0' ∷ (crlf ++ rest)) out
      ≡ go_on (record { state = trailers; remaining = r }) rest out
unfolding round chunk_size hex_digit
zero_round rest out r = ground (
  arith,
  cut_at_complete crlf (b'0' ∷ []) rest
      (FirstAt-absent b'\r' (b'\n' ∷ []) (b'0' ∷ []) rest (unfold has_byte in refl)),
)

rounds-encode :
    (fuel : ℕ) (chunks : List (Text × Text)) (rest out : Text) (r : ℕ)
    → IsBody chunks
    → (d : ChunkedDecoder) × (rounds
          (triple chunks fuel)
          (record { state = size; remaining = r })
          (encode chunks rest)
          out
        ≡ some (record { status = done; decoder = d; buffer = rest; out = out ++ contents chunks }))
unfolding encode contents
rounds-encode fuel [] rest out r v = (
  record { state = trailers; remaining = r },
  rounds-go_on _ _ _ (suc fuel) (zero_round (crlf ++ rest) out r)
      ∙ rounds-stop _ _ _ fuel (last_round rest out r)
      ∙ rw append-nil,
)
rounds-encode fuel ((line, bytes) ∷ chunks) rest out r v =
    let (d, e) = rounds-encode fuel chunks rest (out ++ bytes) (length bytes - length bytes) v.3 in
    let tail = crlf ++ encode chunks rest in
    (
      d,
      rounds-go_on _ _ _ (suc (suc (triple chunks fuel)))
            (round-size line (bytes ++ tail) out r v.0 (length bytes) v.1 (length-ne bytes v.2))
          ∙ rounds-go_on _ _ _ (suc (triple chunks fuel)) (round-data bytes tail out)
          ∙ rounds-go_on _ _ _ (triple chunks fuel)
              (round-data_crlf (encode chunks rest) (out ++ bytes) (length bytes - length bytes))
          ∙ e
          ∙ rw append_assoc,
    )

triple-add : (chunks : List (Text × Text)) (k : ℕ) → triple chunks k ≡ triple chunks 0 + k
triple-add [] k = omega arith
triple-add (_ ∷ chunks) k = omega (arith, triple-add chunks k)

triple-le :
    (chunks : List (Text × Text)) (rest : Text)
    → triple chunks 0 ≤ length (encode chunks rest) + length (encode chunks rest) + 2
unfolding encode
triple-le [] rest = omega arith
triple-le ((line, bytes) ∷ chunks) rest = omega (
  arith,
  triple-le chunks rest,
  length-append line (crlf ++ (bytes ++ (crlf ++ encode chunks rest))),
  length-append bytes (crlf ++ encode chunks rest),
)

-- A whole body that stands in the buffer is decoded to the bytes of its chunks, in order and behind
-- what was decoded before; the decoder is done, and the bytes behind the body stay in the buffer.
pub feed-encode :
    (chunks : List (Text × Text)) (rest out : Text) (r : ℕ)
    → IsBody chunks
    → (d : ChunkedDecoder) × (feed (record { state = size; remaining = r }) (encode chunks rest) out
        ≡ some (record { status = done; decoder = d; buffer = rest; out = out ++ contents chunks }))
unfolding feed
feed-encode chunks rest out r v =
    let buffer = encode chunks rest in
    let bound = length buffer + length buffer + 2 in
    let spare = bound - triple chunks 0 in
    let enough : bound ≡ triple chunks spare =
      omega (arith, triple-add chunks spare, triple-le chunks rest) in
    let (d, e) = rounds-encode spare chunks rest out r v in
    (d, ap (λ (n : ℕ). rounds n (record { state = size; remaining = r }) buffer out) enough ∙ e)
