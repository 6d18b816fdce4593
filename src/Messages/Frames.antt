-- ===== src/Messages/Frames.antt =====
-- src/jsonrpc/message.cpp: `parse_frame`, one line of the wire.
pub mod Batches
use mcp_cpp.Common.{
  Bool, true, false, Option, none, some, List, [], ◌∷◌, ◌++◌, Text, codes, if◌then◌else◌,
}
use mcp_cpp.Errors.{Error, fail_with, parse_error, invalid_request, Result, ok, err}
use mcp_cpp.Json.{JsonLib}
use mcp_cpp.Messages.{Message, Attempt, returns, throws, parse_message}

pub record ParsedFrame (J : Type 0) : Type 0 where
  pub messages : List (Message J)
  pub item_errors : List (Error J)
  pub was_batch : Bool

module _ (L : JsonLib) where
  open L use {Json, is_array, elements, parse}

  abbrev pub add_item : ParsedFrame Json → Result Json (Message Json) → ParsedFrame Json
  add_item frame (ok m) = record frame { messages = frame.messages ++ m ∷ [] }
  add_item frame (err e) = record frame { item_errors = frame.item_errors ++ e ∷ [] }

  -- The loop over the items of a batch. An exception ends it.
  unfoldable pub parse_items : ParsedFrame Json → List Json → Attempt (ParsedFrame Json)
  parse_items frame [] = returns frame
  parse_items frame (item ∷ items) = elim (parse_message L item) [
    | throws ↦ throws
    | returns parsed ↦ parse_items (add_item frame parsed) items
  ]

  abbrev pub framed : Attempt (ParsedFrame Json) → Attempt (Result Json (ParsedFrame Json))
  framed throws = throws
  framed (returns frame) = returns (ok frame)

  abbrev pub empty_frame : Bool → ParsedFrame Json
  empty_frame batch = record { messages = []; item_errors = []; was_batch = batch }

  abbrev pub parse_batch : List Json → Attempt (Result Json (ParsedFrame Json))
  parse_batch [] = returns (err (fail_with invalid_request (codes "batch must not be empty")))
  parse_batch (item ∷ items) = framed (parse_items (empty_frame true) (item ∷ items))

  abbrev pub single :
      Attempt (Result Json (Message Json)) → Attempt (Result Json (ParsedFrame Json))
  single throws = throws
  single (returns (err e)) = returns (err e)
  single (returns (ok m)) = returns (ok (record (empty_frame false) { messages = m ∷ [] }))

  abbrev pub parse_value : Option Json → Attempt (Result Json (ParsedFrame Json))
  parse_value none = returns (err (fail_with parse_error (codes "invalid JSON")))
  parse_value (some j) = if is_array j then parse_batch (elements j) else single (parse_message L j)

  unfoldable pub parse_frame : Text → Attempt (Result Json (ParsedFrame Json))
  parse_frame text = parse_value (parse text)
