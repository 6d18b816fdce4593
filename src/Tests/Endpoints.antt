-- ===== src/Tests/Endpoints.antt =====
-- The sessions of an HTTP server at concrete inputs.
use mcp_cpp.Common.{
  ℕ, ◌+◌, pos, true, Option, none, some, List, [], ◌∷◌, ◌++◌, Text, codes, text_eq, ◌≡◌, refl,
}
use mcp_cpp.Common.Dict.{Dict, lookup, insert, text_key}
use mcp_cpp.Messages.{notification, parse_message, request_id_from_json}
use mcp_cpp.Messages.Frames.{parse_frame}
use mcp_cpp.Http.Head.{blank_head, header}
use mcp_cpp.Http.SessionServer.{
  Sessions, SessionsLaws, HttpSessionServerOptions, Effect, Arrival, remove_idle, close_all,
  handle_request, handle_swept, handle_post, post_new, create, post_to, deliver_all, has_initialize,
}
use mcp_cpp.Http.SessionServer.Ledger.{reported, made}
use mcp_cpp.Http.SessionServer.Lifetimes.{lifetime, lifetime-reported}
use mcp_cpp.Http.SessionServer.Refusals.{IsRefusal, handle_request-unknown}
use mcp_cpp.Tests.Values.{Value, text_value, int_value, object_value, no_member, member, value_lib}

abbrev initialize_wire : Value
initialize_wire = object_value (
    member (codes "jsonrpc") (text_value (codes "2.0")) (
      member (codes "id") (int_value (pos 1))
        (member (codes "method") (text_value (codes "initialize")) no_member)))

-- A session is its address and how many messages it has handled; it answers with a notification.
abbrev counting : Sessions Value
counting = record {
  Session = ℕ × ℕ;
  address = λ s. s.0;
  on_message =
      λ m s. ((s.0, s.1 + 1), notification (record { method = codes "note"; params = none }) ∷ []);
  on_close = λ s. s;
  connect = λ s. s;
}

abbrev counting_laws : SessionsLaws counting
counting_laws = record {
  address-on_message = λ m s. refl;
  address-on_close = λ s. refl;
  address-connect = λ s. refl;
}

abbrev no_timeout : HttpSessionServerOptions
no_timeout = record {
  replay_buffer_size = 4;
  sse_retry_ms = pos 1000;
  session_idle_timeout = pos 0;
  allow_client_termination = true;
}

abbrev arrival : Text → Dict Text Text → Option (ℕ × ℕ) → Text → Arrival (ℕ × ℕ)
arrival method headers factory id = record {
  head = record blank_head { method = method; headers = headers };
  body = [];
  now = 5;
  made = factory;
  session_id = id;
}

-- Two sessions are opened; the first is deleted by its client.
abbrev three_requests : List (Arrival (ℕ × ℕ))
three_requests =
    arrival (codes "POST") [] (some (7, 0)) (codes "a")
    ∷ arrival (codes "POST") [] (some (8, 0)) (codes "b")
    ∷ arrival (codes "DELETE") ((codes "mcp-session-id", codes "a") ∷ []) none (codes "c")
    ∷ []

lifetime-reported_example :
    reported
      (value_lib initialize_wire)
      counting
      counting_laws
      7
      (lifetime (value_lib initialize_wire) counting (λ t. 0) no_timeout three_requests)
    ≡ made
        (value_lib initialize_wire)
        counting
        counting_laws
        7
        (lifetime (value_lib initialize_wire) counting (λ t. 0) no_timeout three_requests)
unfolding header lookup text_eq remove_idle handle_request handle_swept handle_post post_new create
    post_to deliver_all parse_frame parse_message request_id_from_json has_initialize insert
lifetime-reported_example =
    lifetime-reported (value_lib initialize_wire) counting (λ t. 0) no_timeout counting_laws 7
      three_requests (refl, (refl, (refl, tt)))

handle_request-unknown_example :
    (refusal : List (Effect (ℕ × ℕ))) × (handle_request
        (value_lib initialize_wire)
        counting
        (λ t. 0)
        no_timeout
        (arrival (codes "DELETE") ((codes "mcp-session-id", codes "z") ∷ []) none (codes "c"))
        []
      ≡ (
        (remove_idle 5 (pos 0) []).1,
        close_all (value_lib initialize_wire) counting (remove_idle 5 (pos 0) []).0 ++ refusal,
      ))
    × IsRefusal refusal
unfolding header lookup text_eq remove_idle
handle_request-unknown_example =
    handle_request-unknown (value_lib initialize_wire) counting (λ t. 0) no_timeout
      (arrival (codes "DELETE") ((codes "mcp-session-id", codes "z") ∷ []) none (codes "c")) b'z' []
      [] refl refl
