-- ===== src/Http/Post.antt =====
-- src/transport/http/sse_channel.cpp: `PostCapture`, the responses that the thread of a POST
-- collects, and src/transport/http/http_endpoint.cpp: `write_simple`. The entry of the thread in
-- the table of captures is passed along; `none` is a thread without a capture.
use mcp_cpp.Common.{ℤ, Bool, true, false, Option, none, some, List, [], ◌∷◌, ◌++◌, Text, codes}
use mcp_cpp.Errors.{Error}
use mcp_cpp.Json.{JsonLib}
use mcp_cpp.Messages.{Message, request, notification, response, message_to_json}
use mcp_cpp.Http.Head.{HeaderList, serialize_response}

abbrev pub Capture : Type 0 → Type 0
Capture J = Option (List J)

-- `JsonRpcResponse` with an error and nothing else.
abbrev pub error_response : {J : Type 0} → Error J → Message J
error_response e = response (record { id = none; result = none; error = some e })

-- `kProtocolVersion`
abbrev pub protocol_version : Text
protocol_version = codes "2025-11-25"

-- What `write_simple` writes.
unfoldable pub simple_response : ℤ → Text → Text → Text → HeaderList → Text
simple_response status reason body content_type extra_headers =
    serialize_response status reason
      ((codes "Content-Type", content_type)
        ∷ (codes "MCP-Protocol-Version", protocol_version)
        ∷ (codes "Connection", codes "close")
        ∷ extra_headers)
      body false

module _ (L : JsonLib) where
  open L use {Json, array, dump}

  unfoldable pub new_capture : Capture Json
  new_capture = some []

  abbrev pub push_back : Json → Capture Json → Capture Json
  push_back j none = none
  push_back j (some responses) = some (responses ++ j ∷ [])

  abbrev pub is_active : Capture Json → Bool
  is_active none = false
  is_active (some responses) = true

  abbrev pub capture_message : Message Json → Capture Json → Bool × Capture Json
  capture_message (request r) c = (false, c)
  capture_message (notification n) c = (false, c)
  capture_message (response r) c = (is_active c, push_back (message_to_json L (response r)) c)

  -- True if the message is captured.
  unfoldable pub try_capture : Message Json → Capture Json → Bool × Capture Json
  try_capture m c = capture_message m c

  unfoldable pub add_error_response : Error Json → Capture Json → Capture Json
  add_error_response e c = push_back (message_to_json L (error_response e)) c

  unfoldable pub capture_empty : Capture Json → Bool
  capture_empty none = true
  capture_empty (some []) = true
  capture_empty (some (j ∷ js)) = false

  -- `front()` of an empty vector, and `at` without a capture, are never reached.
  unfoldable pub capture_body : Bool → Capture Json → Option Text
  capture_body as_batch none = none
  capture_body true (some responses) = some (dump (array responses))
  capture_body false (some []) = none
  capture_body false (some (j ∷ js)) = some (dump j)
