-- ===== src/Http/Chunked/Termination.antt =====
-- The loop of `feed` ends.
use mcp_cpp.Common.{
  ℕ, zero, suc, ◌+◌, ◌≤◌, ◌<◌, min, some, [], ◌∷◌, ◌++◌, Text, length, length-append, length-drop,
  cut_at, cut_at_sound, Option-cases, ◌≡◌, refl, ap, arith, inl, inr,
}
use mcp_cpp.Http.Chunked.{
  DecoderState, size, data_bytes, data_crlf, trailers, ChunkedDecoder, Round, stop, go_on, crlf,
  round_size, round_trailers, round, rounds, Fed, feed,
}

abbrev weight : DecoderState → ℕ
weight data_bytes = 1
weight _ = 0

abbrev measure : ChunkedDecoder → Text → ℕ
measure d buffer = length buffer + length buffer + weight d.state

-- A round that goes on has less before it.
abbrev Shrinks : ℕ → Round → Type 0
Shrinks m (stop _ _ _ _) = Unit {0}
Shrinks m (go_on d buffer out) = measure d buffer < m

length-cut_at :
    (t : Text) {before rest : Text}
    → cut_at crlf t ≡ some (before, rest)
    → length rest + 2 ≤ length t
length-cut_at t {before} {rest} h =
    let split = cut_at_sound crlf t h in
    omega (arith, ap length split, length-append before (crlf ++ rest))

round_size-Shrinks :
    (d : ChunkedDecoder) (buffer out : Text)
    → Shrinks (length buffer + length buffer) (round_size d (cut_at crlf buffer) buffer out)
unfolding round_size
round_size-Shrinks d buffer out = elim (Option-cases (cut_at crlf buffer)) [
  | inl e ↦ rw (e, round_size) tt
  | inr ((line, rest), e) ↦
      let shorter = length-cut_at buffer e in rw (e, round_size) (ground arith)
]

round_trailers-Shrinks :
    (d : ChunkedDecoder) (buffer out : Text)
    → d.state ≡ trailers
    → Shrinks (length buffer + length buffer) (round_trailers d (cut_at crlf buffer) buffer out)
unfolding round_trailers
round_trailers-Shrinks d buffer out at = elim (Option-cases (cut_at crlf buffer)) [
  | inl e ↦ rw (e, round_trailers) tt
  | inr (([], rest), e) ↦ rw (e, round_trailers) tt
  | inr ((c ∷ cs, rest), e) ↦
      let shorter = length-cut_at buffer e in rw (e, round_trailers) (ground arith)
]

round-Shrinks :
    (s : DecoderState) (d : ChunkedDecoder) (buffer out : Text)
    → d.state ≡ s
    → Shrinks (measure d buffer) (round d buffer out)
unfolding round
round-Shrinks size d buffer out at = ground (arith, round_size-Shrinks d buffer out)
round-Shrinks data_bytes d buffer out at =
    ground (arith, length-drop (min d.remaining (length buffer)) buffer)
round-Shrinks data_crlf d buffer out at = ground (arith, length-drop 2 buffer)
round-Shrinks trailers d buffer out at = ground (arith, round_trailers-Shrinks d buffer out at)

rounds_total :
    (fuel : ℕ) (d : ChunkedDecoder) (buffer out : Text)
    → measure d buffer < fuel
    → (r : Fed) × (rounds fuel d buffer out ≡ some r)
unfolding rounds
rounds_total zero d buffer out h = elim h [ ]
rounds_total (suc fuel) d buffer out h =
    (elim (round d buffer out)
        as (λ r. (round d buffer out ≡ r) → (f : Fed) × (rounds (suc fuel) d buffer out ≡ some f)) [
          | stop s d' buffer' out' ↦ λ e.
              (record { status = s; decoder = d'; buffer = buffer'; out = out' }, rw (e, rounds))
          | go_on d' buffer' out' ↦ λ e.
              let less : measure d' buffer' < measure d buffer =
                rw e at (round-Shrinks d.state d buffer out refl) in
              rw (e, rounds) (rounds_total fuel d' buffer' out' (omega arith))
        ])
      refl

-- `feed` returns from every state and on every buffer: its fuel never runs out.
pub feed_total : (d : ChunkedDecoder) (buffer out : Text) → (r : Fed) × (feed d buffer out ≡ some r)
unfolding feed
feed_total d buffer out =
    rounds_total (length buffer + length buffer + 2) d buffer out (weight_bound d.state)
  where
    weight_bound :
        (s : DecoderState)
        → length buffer + length buffer + weight s < length buffer + length buffer + 2
    weight_bound data_bytes = omega arith
    weight_bound _ = omega arith
