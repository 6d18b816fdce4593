-- ===== src/Tests/Wire.antt =====
-- The theorems on messages and frames, at concrete values.
use mcp_cpp.Common.{pos, true, none, some, [], ◌∷◌, map, codes, ◌≡◌, refl}
use mcp_cpp.Errors.{Error, fail_with, invalid_request, ok}
use mcp_cpp.Json.{object}
use mcp_cpp.Messages.{
  request_to_json, notification_to_json, request_id_to_json, int_id, Message, request, notification,
  returns, message_to_json, parse_message, serialize_batch,
}
use mcp_cpp.Messages.RoundTrip.{parse_message-message_to_json}
use mcp_cpp.Messages.Frames.{ParsedFrame, parse_items, parse_frame}
use mcp_cpp.Messages.Frames.Batches.{parse_frame-serialize_batch}
use mcp_cpp.Tests.Values.{
  Value, null_value, array_value, object_value, no_value, one_more, no_member, from_list, value_lib,
  value-JsonLaws, value-FrameLaws,
}

abbrev call : Message Value
call =
    request
      (record { id = int_id (pos 3); method = codes "m"; params = some (object_value no_member) })

parse_message-message_to_json_example :
    parse_message (value_lib null_value) (message_to_json (value_lib null_value) call)
    ≡ returns (ok call)
parse_message-message_to_json_example =
    parse_message-message_to_json (value_lib null_value) (value-JsonLaws null_value) call
      (refl, refl)

abbrev note : Message Value
note = notification (record { method = codes "n"; params = none })

-- The batch of the two as a value.
abbrev batch_wire : Value
batch_wire =
    array_value (from_list (map (message_to_json (value_lib null_value)) (call ∷ note ∷ [])))

parse_frame-serialize_batch_example :
    parse_frame (value_lib batch_wire) (serialize_batch (value_lib batch_wire) (call ∷ note ∷ []))
    ≡ returns (ok (record { messages = call ∷ note ∷ []; item_errors = []; was_batch = true }))
unfolding message_to_json request_to_json notification_to_json request_id_to_json object
parse_frame-serialize_batch_example =
    parse_frame-serialize_batch (value_lib batch_wire) (value-JsonLaws batch_wire)
      (value-FrameLaws batch_wire) call (note ∷ []) ((refl, refl), (tt, tt)) refl

-- Two values that are no messages.
abbrev nulls : Value
nulls = array_value (one_more null_value (one_more null_value no_value))

abbrev no_message : Error Value
no_message = fail_with invalid_request (codes "message is not a JSON object")

abbrev both_refused : ParsedFrame Value
both_refused = record {
  messages = [];
  item_errors = no_message ∷ no_message ∷ [];
  was_batch = true;
}

nulls-both_refused : parse_frame (value_lib nulls) [] ≡ returns (ok both_refused)
unfolding parse_frame parse_items parse_message
nulls-both_refused = refl
