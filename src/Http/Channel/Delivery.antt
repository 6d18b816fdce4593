-- ===== src/Http/Channel/Delivery.antt =====
-- src/transport/http/sse_channel.cpp: what a stream is sent of the messages that are queued.
use mcp_cpp.Common.{
  ℕ, suc, ◌+◌, ◌%◌, ◌≤◌, ◌<◌, true, ◌==◌, List, [], ◌∷◌, ◌++◌, append_assoc, append-nil, map, Text,
  length, length-append, ◌≡◌, refl, sym, ap, ◌∙◌, arith, Bool-cases, inl, inr,
}
use mcp_cpp.Http.Channel.{
  id_mod, Item, SseChannel, Stream, enqueue, has_next, pending_items, Round, waits, leaves, sends,
  send_pending, round,
}
use mcp_cpp.Http.Channel.Ring.{
  Numbered, Numbered-append, Numbered-trim, length-trim-le, pending_items-trim,
  pending_items-append, pending_items-none,
}

unfoldable pub enqueue_all : List Text → SseChannel → SseChannel
enqueue_all [] c = c
enqueue_all (p ∷ ps) c = enqueue_all ps (enqueue p c)

-- The ring of a running channel: no longer than the replay buffer, numbered up to the next id.
abbrev pub IsChannel : SseChannel → Type 0
IsChannel c =
    (c.running ≡ true)
    × (length c.ring ≤ c.replay_buffer_size)
    × ((first : ℕ) × Numbered first c.ring c.next_event_id)

-- The items that a round hands to the writes.
abbrev pub sent_by : Round → List Item
sent_by (sends items st c) = items
sent_by waits = []
sent_by leaves = []

abbrev pub payloads : List Item → List Text
payloads = map (λ (item : Item). item.payload)

payloads-append :
    (xs : List Item) (x : Item) → payloads (xs ++ x ∷ []) ≡ payloads xs ++ x.payload ∷ []
payloads-append [] x = refl
payloads-append (y ∷ xs) x = ap (◌∷◌ y.payload) (payloads-append xs x)

pub length-payloads : (xs : List Item) → length (payloads xs) ≡ length xs
length-payloads [] = refl
length-payloads (x ∷ xs) = ap suc (length-payloads xs)

pub enqueue-IsChannel :
    (p : Text) (c : SseChannel)
    → IsChannel c
    → c.next_event_id + 1 < id_mod
    → IsChannel (enqueue p c) × ((enqueue p c).next_event_id ≡ c.next_event_id + 1)
unfolding enqueue
enqueue-IsChannel p c (r, l, (first, n)) b =
    let item : Item = record { id = c.next_event_id; payload = p } in
    let next : (c.next_event_id + 1) % id_mod ≡ c.next_event_id + 1 = omega arith in
    rw (r, enqueue, next)
      (
        (
          refl,
          length-trim-le c.replay_buffer_size (c.ring ++ item ∷ []),
          Numbered-trim c.replay_buffer_size first (c.ring ++ item ∷ []) (c.next_event_id + 1)
              (Numbered-append first c.ring c.next_event_id item n refl),
        ),
        refl,
      )

enqueue-pending :
    (p : Text) (c : SseChannel) (cursor : ℕ)
    → IsChannel c
    → cursor ≤ c.next_event_id
    → length (pending_items cursor c.ring) + 1 ≤ c.replay_buffer_size
    → pending_items cursor (enqueue p c).ring
      ≡ pending_items cursor c.ring ++ record { id = c.next_event_id; payload = p } ∷ []
unfolding enqueue
enqueue-pending p c cursor (r, l, (first, n)) k room =
    let item : Item = record { id = c.next_event_id; payload = p } in
    let added = pending_items-append cursor c.ring item k in
    let short : length (pending_items cursor (c.ring ++ item ∷ [])) ≤ c.replay_buffer_size =
      rw (added) (omega (arith, length-append (pending_items cursor c.ring) (item ∷ []), room)) in
    rw (r, enqueue)
      (pending_items-trim c.replay_buffer_size cursor first (c.ring ++ item ∷ [])
          (c.next_event_id + 1) (Numbered-append first c.ring c.next_event_id item n refl) short
        ∙ added)

pub enqueue-fields :
    (p : Text) (c : SseChannel)
    → ((enqueue p c).replay_buffer_size ≡ c.replay_buffer_size)
      × ((enqueue p c).stream_generation ≡ c.stream_generation)
unfolding enqueue
enqueue-fields p c = elim (Bool-cases c.running) [
  | inl e ↦ rw (e, enqueue) (refl, refl)
  | inr e ↦ rw (e, enqueue) (refl, refl)
]

pub enqueue_all-pending :
    (ps : List Text) (c : SseChannel) (cursor : ℕ)
    → IsChannel c
    → cursor ≤ c.next_event_id
    → length (pending_items cursor c.ring) + length ps ≤ c.replay_buffer_size
    → c.next_event_id + length ps < id_mod
    → IsChannel (enqueue_all ps c)
      × ((enqueue_all ps c).stream_generation ≡ c.stream_generation)
      × (payloads (pending_items cursor (enqueue_all ps c).ring)
          ≡ payloads (pending_items cursor c.ring) ++ ps)
unfolding enqueue_all
enqueue_all-pending [] c cursor h k room b = (h, refl, sym (append-nil _))
enqueue_all-pending (p ∷ ps) c cursor h k room b =
    let kept = enqueue-IsChannel p c h (omega (arith, b)) in
    let fields = enqueue-fields p c in
    let item : Item = record { id = c.next_event_id; payload = p } in
    let more = enqueue-pending p c cursor h k (omega (arith, room)) in
    let longer : length (pending_items cursor (enqueue p c).ring)
        ≡ length (pending_items cursor c.ring) + 1 =
      rw (more) (length-append (pending_items cursor c.ring) (item ∷ [])) in
    let rest =
      enqueue_all-pending ps (enqueue p c) cursor kept.0 (omega (arith, kept.1, k))
        (omega (arith, longer, fields.0, room)) (omega (arith, kept.1, b)) in
    (
      rest.0,
      rest.1 ∙ fields.1,
      rest.2
          ∙ ap (λ (xs : List Text). xs ++ ps) (ap payloads more ∙ payloads-append _ item)
          ∙ append_assoc (payloads (pending_items cursor c.ring)) (p ∷ []) ps,
    )

sent_by-send_pending :
    (items : List Item) (st : Stream) (c : SseChannel) → sent_by (send_pending items st c) ≡ items
sent_by-send_pending [] st c = refl
sent_by-send_pending (x ∷ xs) st c = refl

pub sent_by-round :
    (st : Stream) (c : SseChannel)
    → IsChannel c
    → c.stream_generation ≡ st.generation
    → sent_by (round st c) ≡ pending_items st.cursor c.ring
unfolding round
sent_by-round st c (r, l, (first, n)) g =
    let same : (c.stream_generation == st.generation) ≡ true = ground arith in
    elim (Bool-cases (has_next st.cursor c.ring)) [
      | inl e ↦ rw (r, round, same, e) (sent_by-send_pending (pending_items st.cursor c.ring) _ _)
      | inr e ↦
          rw (r, round, same, e)
            (sym (pending_items-none st.cursor first c.ring c.next_event_id n e))
    ]

-- The newest stream is sent, in its next round, what is queued from its cursor on.
round-enqueue_all :
    (ps : List Text) (st : Stream) (c : SseChannel)
    → IsChannel c
    → c.stream_generation ≡ st.generation
    → st.cursor ≤ c.next_event_id
    → length (pending_items st.cursor c.ring) + length ps ≤ c.replay_buffer_size
    → c.next_event_id + length ps < id_mod
    → payloads (sent_by (round st (enqueue_all ps c)))
      ≡ payloads (pending_items st.cursor c.ring) ++ ps
round-enqueue_all ps st c h g k room b =
    let (h', g', e) = enqueue_all-pending ps c st.cursor h k room b in
    ap payloads (sent_by-round st (enqueue_all ps c) h' (g' ∙ g)) ∙ e
