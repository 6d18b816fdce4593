-- ===== src/Http/Channel/Batches.antt =====
-- src/transport/http/sse_channel.cpp: what a stream is sent over many rounds.
use mcp_cpp.Common.{
  ℕ, suc, ◌+◌, ◌%◌, ◌≤◌, ◌<◌, true, ◌==◌, List, [], ◌∷◌, ◌++◌, Text, length, length-append,
  if◌then◌else◌, retain, leb, ◌≡◌, refl, sym, ap, ◌∙◌, arith, Bool-cases, inl, inr,
}
use mcp_cpp.Http.Channel.{
  id_mod, Item, SseChannel, Stream, enqueue, has_next, pending_items, cursor_after, Round, waits,
  leaves, sends, send_pending, round,
}
use mcp_cpp.Http.Channel.Ring.{Numbered, pending_items-all, pending_items-none}
use mcp_cpp.Http.Channel.Delivery.{
  enqueue_all, IsChannel, sent_by, payloads, enqueue-IsChannel, enqueue-fields, enqueue_all-pending,
  sent_by-round,
}

-- The stream and the channel behind a round.
abbrev pub after_round : Stream → SseChannel → Round → Stream × SseChannel
after_round st c waits = (st, c)
after_round st c leaves = (st, c)
after_round st c (sends items st' c') = (st', c')

-- Batches of messages are queued, with a round of the stream behind each of them: all that the
-- rounds send.
unfoldable pub deliver : List (List Text) → Stream → SseChannel → List Text
deliver [] st c = []
deliver (ps ∷ rest) st c =
    let queued = enqueue_all ps c in
    let r = round st queued in
    let (st', c') = after_round st queued r in payloads (sent_by r) ++ deliver rest st' c'

unfoldable pub joined : List (List Text) → List Text
joined [] = []
joined (ps ∷ rest) = ps ++ joined rest

-- Each batch fits into the replay buffer.
abbrev pub Fit : ℕ → List (List Text) → Type 0
Fit size [] = Unit {0}
Fit size (ps ∷ rest) = (length ps ≤ size) × Fit size rest

-- The newest stream of a running channel, which was sent everything that is queued.
abbrev pub IsCurrent : Stream → SseChannel → Type 0
IsCurrent st c = IsChannel c × (c.stream_generation ≡ st.generation) × (st.cursor ≡ c.next_event_id)

pending_items-current :
    (cursor first : ℕ) (xs : List Item) (next : ℕ)
    → Numbered first xs next
    → next ≤ cursor
    → (first ≤ next) × (pending_items cursor xs ≡ [])
unfolding pending_items retain
pending_items-current cursor first [] next h l = (omega arith, refl)
pending_items-current cursor first (x ∷ xs) next h l =
    let rest = pending_items-current cursor (suc first) xs next h.1 l in
    (omega (arith, rest.0), ground (arith, rest.1, rest.0, h.0))

Numbered-le : (first : ℕ) (xs : List Item) (next : ℕ) → Numbered first xs next → first ≤ next
Numbered-le first [] next h = omega arith
Numbered-le first (x ∷ xs) next h = omega (arith, Numbered-le (suc first) xs next h.1)

-- What is pending ends at the next id, so the cursor behind it is that id.
cursor_after-Numbered :
    (first : ℕ) (xs : List Item) (next : ℕ)
    → Numbered first xs next
    → next < id_mod
    → cursor_after first xs ≡ next
unfolding cursor_after
cursor_after-Numbered first [] next h b = h
cursor_after-Numbered first (x ∷ xs) next h b =
    let le = Numbered-le (suc first) xs next h.1 in
    let step : (x.id + 1) % id_mod ≡ suc first = omega (arith, h.0, le) in
    ap (λ n. cursor_after n xs) step ∙ cursor_after-Numbered (suc first) xs next h.1 b

pending_items-Numbered :
    (cursor first : ℕ) (xs : List Item) (next : ℕ)
    → Numbered first xs next
    → (first' : ℕ) × Numbered first' (pending_items cursor xs) next
unfolding pending_items retain
pending_items-Numbered cursor first [] next h = (first, h)
pending_items-Numbered cursor first (x ∷ xs) next h = elim (Bool-cases (leb cursor x.id)) [
  | inr e ↦ rw e (pending_items-Numbered cursor (suc first) xs next h.1)
  | inl e ↦ rw e (
    first,
    (h.0, rw (pending_items-all cursor (suc first) xs next h.1 (ground (arith, h.0))) h.1),
  )
]

enqueue_all-fields :
    (ps : List Text) (c : SseChannel)
    → IsChannel c
    → c.next_event_id + length ps < id_mod
    → ((enqueue_all ps c).next_event_id ≡ c.next_event_id + length ps)
      × ((enqueue_all ps c).replay_buffer_size ≡ c.replay_buffer_size)
unfolding enqueue_all
enqueue_all-fields [] c h b = (omega arith, refl)
enqueue_all-fields (p ∷ ps) c h b =
    let kept = enqueue-IsChannel p c h (omega (arith, b)) in
    let rest = enqueue_all-fields ps (enqueue p c) kept.0 (omega (arith, kept.1, b)) in
    (omega (arith, rest.0, kept.1), rest.1 ∙ (enqueue-fields p c).0)

-- What a round leaves: the stream is current, and the channel has its next id and its size.
abbrev LeavesCurrent : SseChannel → Stream × SseChannel → Type 0
LeavesCurrent c (st', c') =
    IsCurrent st' c'
    × (c'.next_event_id ≡ c.next_event_id)
    × (c'.replay_buffer_size ≡ c.replay_buffer_size)

send_pending-LeavesCurrent :
    (items : List Item) (first : ℕ) (st : Stream) (c : SseChannel)
    → IsChannel c
    → c.stream_generation ≡ st.generation
    → c.next_event_id < id_mod
    → Numbered first items c.next_event_id
    → (items ≡ [] → st.cursor ≡ c.next_event_id)
    → LeavesCurrent c (after_round st c (send_pending items st c))
unfolding cursor_after
send_pending-LeavesCurrent [] first st c h g b n e = ((h, g, e refl), refl, refl)
send_pending-LeavesCurrent (x ∷ xs) first st c h g b n e =
    ((h, g, cursor_after-Numbered first (x ∷ xs) c.next_event_id n b), refl, refl)

round-open :
    (st : Stream) (c : SseChannel)
    → c.running ≡ true
    → c.stream_generation ≡ st.generation
    → round st c ≡ (
        if has_next st.cursor c.ring
        then send_pending (pending_items st.cursor c.ring) st c
        else waits)
unfolding round
round-open st c r g =
    let same : (c.stream_generation == st.generation) ≡ true = ground arith in
    rw (r, round, same) refl

round-LeavesCurrent :
    (st : Stream) (c : SseChannel)
    → IsChannel c
    → c.stream_generation ≡ st.generation
    → c.next_event_id < id_mod
    → (pending_items st.cursor c.ring ≡ [] → st.cursor ≡ c.next_event_id)
    → LeavesCurrent c (after_round st c (round st c))
round-LeavesCurrent st c h g b e =
    let (r, l, (first, n)) = h in
    rw (round-open st c r g) (elim (Bool-cases (has_next st.cursor c.ring)) [
      | inl f ↦
          let numbered = pending_items-Numbered st.cursor first c.ring c.next_event_id n in
          rw f (
            send_pending-LeavesCurrent (pending_items st.cursor c.ring) numbered.0 st c h g b
              numbered.1 e)
      | inr f ↦
          rw f
            ((h, g, e (pending_items-none st.cursor first c.ring c.next_event_id n f)), refl, refl)
    ])

no_payloads :
    (ps : List Text) (items : List Item) → payloads items ≡ ps → items ≡ [] → length ps ≡ 0
no_payloads ps items e n = sym (ap length e) ∙ rw n refl

-- From a stream that was sent everything so far: whatever batches of messages are queued, with a
-- round of the stream behind each batch, the rounds together send every message exactly once and
-- in the order of the calls. Each batch is to fit into the replay buffer, and the ids into 64 bits.
pub deliver-joined :
    (batches : List (List Text)) (st : Stream) (c : SseChannel)
    → IsCurrent st c
    → Fit c.replay_buffer_size batches
    → c.next_event_id + length (joined batches) < id_mod
    → deliver batches st c ≡ joined batches
unfolding deliver joined
deliver-joined [] st c h f b = refl
deliver-joined (ps ∷ rest) st c ((r, l, (first, n)), g, k) f b =
    let here : IsChannel c = (r, l, (first, n)) in
    let total = length-append ps (joined rest) in
    let empty : pending_items st.cursor c.ring ≡ [] =
      (pending_items-current st.cursor first c.ring c.next_event_id n (omega (arith, k))).1 in
    let room : length (pending_items st.cursor c.ring) + length ps ≤ c.replay_buffer_size =
      rw empty (omega (arith, f.0)) in
    let some_left : c.next_event_id + length ps < id_mod = omega (arith, total, b) in
    let (h', g', e) = enqueue_all-pending ps c st.cursor here (omega (arith, k)) room some_left in
    let fields = enqueue_all-fields ps c here some_left in
    let queued = enqueue_all ps c in
    let pending : payloads (pending_items st.cursor queued.ring) ≡ ps =
      e ∙ ap (λ (items : List Item). payloads items ++ ps) empty in
    let sent : payloads (sent_by (round st queued)) ≡ ps =
      ap payloads (sent_by-round st queued h' (g' ∙ g)) ∙ pending in
    let behind =
      round-LeavesCurrent st queued h' (g' ∙ g) (omega (arith, fields.0, some_left)) (λ nothing.
        omega (
          arith,
          k,
          fields.0,
          no_payloads ps (pending_items st.cursor queued.ring) pending nothing,
        )) in
    let next = after_round st queued (round st queued) in
    let later =
      deliver-joined rest next.0 next.1 behind.0 (rw (behind.2, fields.1) f.1)
        (omega (arith, behind.1, fields.0, total, b)) in
    rw (sent, later) refl
