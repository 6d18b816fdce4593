-- ===== src/Http/Channel.antt =====
-- src/transport/http/sse_channel.cpp: the replay ring of an SSE channel and the streams that are
-- attached to it. Each section under the lock is one step. `strtoull` is the C library's; its
-- result and every event id have 64 bits.
pub mod Ring
pub mod Delivery
pub mod Batches
use mcp_cpp.Common.{
  ℕ, ℤ, suc, ◌+◌, ◌-◌, ◌%◌, ◌^◌, Bool, true, false, not, ◌&&◌, ◌||◌, Option, none, some, List, [],
  ◌∷◌, ◌++◌, map, Text, to_text, length, ltb, leb, ◌==◌, retain, if◌then◌else◌,
}
use mcp_cpp.Http.Sse.{SseEvent, blank_event}

abbrev pub id_mod : ℕ
id_mod = 2 ^ 64

pub record Item : Type 0 where
  pub id : ℕ
  pub payload : Text

pub record SseChannel : Type 0 where
  pub replay_buffer_size : ℕ
  pub retry_ms : ℤ
  pub running : Bool
  pub ring : List Item
  pub next_event_id : ℕ
  pub next_undelivered : ℕ
  pub stream_generation : ℕ

-- What the thread of an attached stream keeps.
pub record Stream : Type 0 where
  pub generation : ℕ
  pub cursor : ℕ

unfoldable pub new_channel : ℕ → ℤ → SseChannel
new_channel size retry = record {
  replay_buffer_size = size;
  retry_ms = retry;
  running = true;
  ring = [];
  next_event_id = 1;
  next_undelivered = 1;
  stream_generation = 0;
}

-- `while (ring_.size() > replay_buffer_size_) ring_.pop_front()`
unfoldable pub trim : ℕ → List Item → List Item
trim size [] = []
trim size (x ∷ xs) = let rest = trim size xs in if ltb size (length (x ∷ xs)) then rest else x ∷ xs

unfoldable pub enqueue : Text → SseChannel → SseChannel
enqueue payload c = if not c.running then c else record c {
  ring =
      trim c.replay_buffer_size (c.ring ++ record { id = c.next_event_id; payload = payload } ∷ []);
  next_event_id = (c.next_event_id + 1) % id_mod;
}

abbrev pub start_cursor : (Text → ℕ) → Text → SseChannel → ℕ
start_cursor strtoull [] c = c.next_undelivered
start_cursor strtoull (d ∷ ds) c = (strtoull (d ∷ ds) + 1) % id_mod

-- The beginning of `attach_stream`: the stream and its initial event, `none` after a shutdown.
unfoldable pub attach_stream :
    (Text → ℕ) → Text → SseChannel → Option (Stream × SseEvent × SseChannel)
attach_stream strtoull last_event_id c =
    if not c.running
    then none
    else some (
      record {
        generation = (c.stream_generation + 1) % id_mod;
        cursor = start_cursor strtoull last_event_id c;
      },
      record blank_event { id = some (to_text (c.next_event_id - 1)); retry_ms = some c.retry_ms },
      record c { stream_generation = (c.stream_generation + 1) % id_mod },
    )

-- `!ring_.empty() && ring_.back().id >= cursor`
unfoldable pub has_next : ℕ → List Item → Bool
has_next cursor [] = false
has_next cursor (x ∷ []) = leb cursor x.id
has_next cursor (x ∷ y ∷ xs) = has_next cursor (y ∷ xs)

unfoldable pub pending_items : ℕ → List Item → List Item
pending_items cursor = retain (λ (item : Item). leb cursor item.id)

-- The cursor behind the last of the items.
unfoldable pub cursor_after : ℕ → List Item → ℕ
cursor_after cursor [] = cursor
cursor_after cursor (x ∷ xs) = cursor_after ((x.id + 1) % id_mod) xs

pub data Round : Type 0 where
  waits : Round
  leaves : Round
  sends : List Item → Stream → SseChannel → Round

abbrev pub delivered : ℕ → SseChannel → SseChannel
delivered cursor c = record c {
  next_undelivered = if ltb c.next_undelivered cursor then cursor else c.next_undelivered;
}

abbrev pub send_pending : List Item → Stream → SseChannel → Round
send_pending [] st c = sends [] st c
send_pending (x ∷ xs) st c =
    let cursor = cursor_after st.cursor (x ∷ xs) in
    sends (x ∷ xs) (record st { cursor = cursor }) (delivered cursor c)

-- One round of the loop of `attach_stream`, up to the writes.
unfoldable pub round : Stream → SseChannel → Round
round st c =
    if not c.running || not (c.stream_generation == st.generation)
    then leaves
    else if has_next st.cursor c.ring
    then send_pending (pending_items st.cursor c.ring) st c
    else waits

-- What is written for an item.
unfoldable pub item_event : Item → SseEvent
item_event item = record blank_event { id = some (to_text item.id); payload = item.payload }

unfoldable pub shutdown : SseChannel → SseChannel
shutdown c = record c { running = false }
