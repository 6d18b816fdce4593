-- ===== src/Messages/Frames/Batches.antt =====
-- Batches: what is sent is read, and nothing of a batch is dropped.
use mcp_cpp.Common.{
  ℕ, suc, ◌+◌, true, some, List, [], ◌∷◌, ◌++◌, map, Text, length, length-append, ◌≡◌, refl, ap,
  ◌∙◌, arith, append-nil, append_assoc,
}
use mcp_cpp.Errors.{Result, ok, err}
use mcp_cpp.Json.{JsonLib, JsonLaws}
use mcp_cpp.Messages.{Message, returns, throws, message_to_json, parse_message, serialize_batch}
use mcp_cpp.Messages.RoundTrip.{IsWire, parse_message-message_to_json}
use mcp_cpp.Messages.Frames.{
  ParsedFrame, add_item, parse_items, framed, empty_frame, parse_batch, parse_frame,
}

-- What the frames rely on: an array has its elements.
pub record FrameLaws (L : JsonLib) : Type 0 where
  pub is_array-array : (js : List L.Json) → L.is_array (L.array js) ≡ true
  pub elements-array : (js : List L.Json) → L.elements (L.array js) ≡ js

module _ (L : JsonLib) where
  open L use {Json}

  abbrev size : ParsedFrame Json → ℕ
  size frame = length frame.messages + length frame.item_errors

  size-add_item :
      (parsed : Result Json (Message Json)) (frame : ParsedFrame Json) (n total : ℕ)
      → total ≡ size (add_item L frame parsed) + n
      → total ≡ size frame + suc n
  size-add_item (ok m) frame n total h = omega (arith, length-append frame.messages (m ∷ []))
  size-add_item (err e) frame n total h = omega (arith, length-append frame.item_errors (e ∷ []))

  parse_items-size :
      (items : List Json) (frame result : ParsedFrame Json)
      → parse_items L frame items ≡ returns result
      → size result ≡ size frame + length items
  unfolding parse_items
  parse_items-size [] frame result h = ground arith
  parse_items-size (item ∷ items) frame result h =
      (elim (parse_message L item)
          as (λ r. (parse_message L item ≡ r) → size result ≡ size frame + suc (length items)) [
            | throws ↦ λ e. absurd (ground arith)
            | returns parsed ↦ λ e.
                let more = parse_items-size items (add_item L frame parsed) result (ground arith) in
                size-add_item parsed frame (length items) (size result) more
          ])
        refl

  batch_size :
      (items : List Json) (result : ParsedFrame Json)
      → parse_batch L items ≡ returns (ok result)
      → size result ≡ length items
  batch_size [] result h = absurd (ground arith)
  batch_size (item ∷ items) result h =
      (elim (parse_items L (empty_frame L true) (item ∷ items))
          as (λ r.
            (parse_items L (empty_frame L true) (item ∷ items) ≡ r)
            → size result ≡ suc (length items)) [
              | throws ↦ λ e. absurd (ground arith)
              | returns frame ↦ λ e.
                  let count = parse_items-size (item ∷ items) (empty_frame L true) frame e in
                  ground arith
            ])
        refl

  -- A batch is answered item by item: if parsing it ends without an exception, there are as many
  -- messages and errors together as the batch has items.
  parse_frame_size :
      (text : Text) (j : Json) (result : ParsedFrame Json)
      → L.parse text ≡ some j
      → L.is_array j ≡ true
      → parse_frame L text ≡ returns (ok result)
      → length result.messages + length result.item_errors ≡ length (L.elements j)
  unfolding parse_frame
  parse_frame_size text j result p a h = batch_size (L.elements j) result (ground arith)

module _ (L : JsonLib) (laws : JsonLaws L) (frames : FrameLaws L) where
  open L use {Json}

  -- Every message of a list meets the condition of the round trip.
  abbrev pub AllWire : List (Message Json) → Type 0
  AllWire [] = Unit {0}
  AllWire (m ∷ ms) = IsWire L laws m × AllWire ms

  parse_items-map :
      (ms : List (Message Json)) (frame : ParsedFrame Json)
      → AllWire ms
      → parse_items L frame (map (message_to_json L) ms)
        ≡ returns (record frame { messages = frame.messages ++ ms })
  unfolding parse_items
  parse_items-map [] frame v = rw append-nil
  parse_items-map (m ∷ ms) frame v =
      rw (parse_message-message_to_json L laws m v.0, parse_items)
        (parse_items-map ms (record frame { messages = frame.messages ++ m ∷ [] }) v.1
          ∙ rw append_assoc)

  -- A batch of messages, one at least, is read back as a batch of the same messages in the same
  -- order, and without errors, under the condition of the round trip on each of them, if the JSON
  -- library parses what it printed for the batch.
  pub parse_frame-serialize_batch :
      (m : Message Json) (ms : List (Message Json))
      → AllWire (m ∷ ms)
      → (let batch = L.array (map (message_to_json L) (m ∷ ms)) in
          L.parse (L.dump batch) ≡ some batch)
      → parse_frame L (serialize_batch L (m ∷ ms))
        ≡ returns (ok (record { messages = m ∷ ms; item_errors = []; was_batch = true }))
  unfolding parse_frame serialize_batch
  parse_frame-serialize_batch m ms v d =
      let js = map (message_to_json L) (m ∷ ms) in
      rw (d, frames.is_array-array js, frames.elements-array js)
        (ap (framed L) (parse_items-map (m ∷ ms) (empty_frame L true) v))
