-- ===== src/Tests/Sessions.antt =====
-- The theorems on sessions, at concrete runs.
use mcp_cpp.Common.{
  retain, not, leb, ℕ, ◌+◌, pos, true, false, none, some, List, [], ◌∷◌, Text, codes, text_eq,
  text_eq_iff, ◌≢◌, ◌⊎◌, ◌≡◌, refl, arith,
}
use mcp_cpp.Errors.{Result, fail_with, connection_not_initialized, capability_not_supported, ok}
use mcp_cpp.Messages.{RequestId, int_id, JsonRpcRequest, request, response}
use mcp_cpp.Router.{returned}
use mcp_cpp.Session.{
  Deadline, Setup, Sess, RequestOptions, operating, new_session, Sending, run_reacting,
  close_running,
}
use mcp_cpp.Session.Handling.{
  timer_round, Derived, Operation, requests, receives, times_out, run, handle_message,
}
use mcp_cpp.Session.Ledger.{entries, issued, count_calls}
use mcp_cpp.Session.Once.{KeepsBooks}
use mcp_cpp.Session.Answered.{run-called_or_pending}
use mcp_cpp.Session.Closing.{close-called_once}
use mcp_cpp.Session.Timeouts.{timer_round_due}
use mcp_cpp.Server.{ServerTypes, ServerData, server_setup, server_session, new_server_session}
use mcp_cpp.Server.Gate.{
  no_resources, refused_with, handle_message-uninitialized, handle_message-undeclared,
}
use mcp_cpp.Tests.Values.{
  Value, null_value, text_value, int_value, object_value, member, no_member, value_lib,
}

abbrev plain_setup : Setup
plain_setup = record { lib = value_lib null_value; U = ℕ; V = ℕ; K = ℕ; P = ℕ; X = ℕ }

abbrev plain_session : Derived plain_setup
plain_session = record {
  check_incoming_request = λ s r. none;
  run_request = λ u params s. (s, returned (ok (int_value (pos u))));
  run_notification = λ v params s. s;
}

plain_session-KeepsBooks : KeepsBooks plain_setup plain_session
plain_session-KeepsBooks = record {
  request_keeps = λ u params s b. b;
  notification_keeps = λ v params s b. b;
}

abbrev in_ten : RequestOptions ℕ
in_ten = record { timeout = some 10; progress_token = none; on_progress = none }

-- Two requests; the first is answered, the second times out.
abbrev exchange : List (ℕ × Operation plain_setup plain_session)
exchange =
    (0, requests (codes "a") none 70 in_ten)
    ∷ (1, requests (codes "b") none 71 in_ten)
    ∷ (
      2,
      receives (
          response (record { id = some (int_id (pos 1)); result = some null_value; error = none })),
    )
    ∷ (20, times_out)
    ∷ []

run-called_or_pending_example :
    (let s = run plain_setup plain_session exchange (new_session plain_setup 0) in
      count_calls (int_id (pos 2)) s.trace + entries (int_id (pos 2)) s.router.pending
      ≡ issued (int_id (pos 2)) s.next_request_id)
run-called_or_pending_example =
    run-called_or_pending plain_setup plain_session plain_session-KeepsBooks 0 exchange
      (int_id (pos 2))

-- Each callback sends another request.
abbrev again : ℕ → Result Value Value → List (Sending plain_setup)
again k result =
    record { method = codes "c"; params = none; callback = 72; options = in_ten; now = 30 } ∷ []

-- The second request is still pending at the close.
abbrev half_answered : List (ℕ × Operation plain_setup plain_session)
half_answered =
    (0, requests (codes "a") none 70 in_ten) ∷ (1, requests (codes "b") none 71 in_ten) ∷ []

close-called_once_example :
    (let before = run plain_setup plain_session half_answered (new_session plain_setup 0) in
      let after = close_running plain_setup (run_reacting plain_setup again) before in
      (count_calls (int_id (pos 2)) after.trace ≡ issued (int_id (pos 2)) before.next_request_id)
      × ((issued (int_id (pos 2)) before.next_request_id ≡ 0)
          ⊎ (entries (int_id (pos 2)) after.router.pending ≡ 0)))
close-called_once_example =
    close-called_once plain_setup plain_session plain_session-KeepsBooks 0 half_answered
      (int_id (pos 2)) again

-- The first request was `initialize`, and a cancellation names it.
abbrev protecting : Sess plain_setup
protecting = record (new_session plain_setup 0) { protected_request_id = some (int_id (pos 1)) }

abbrev cancel_first : Value
cancel_first = object_value (member (codes "requestId") (int_value (pos 1)) no_member)

abbrev first_deadline : Deadline
first_deadline = record { at = 10; timeout = 10; progress_token = none }

abbrev timed : Sess plain_setup
timed = record (new_session plain_setup 0) { deadlines = (int_id (pos 1), first_deadline) ∷ [] }

timer_round_due_example :
    ((timer_round plain_setup plain_session 12 timed).deadlines
      ≡ retain (λ (e : RequestId × Deadline). not (leb e.1.at 12)) timed.deadlines)
    × (entries (int_id (pos 1)) (timer_round plain_setup plain_session 12 timed).router.pending ≡ 0)
timer_round_due_example =
    timer_round_due plain_setup plain_session 12 timed [] [] (int_id (pos 1)) first_deadline refl
      (omega arith)

abbrev pub server_types : ServerTypes
server_types = record {
  lib = value_lib null_value;
  I = Text;
  Q = ℕ;
  K = ℕ;
  P = ℕ;
  read_params =
      λ j. ok (record { protocol_version = codes "1"; capabilities = 0; client_info = codes "c" });
  initialize_result = λ v. text_value v;
}

abbrev pub server_data : ServerData Text ℕ
server_data = record {
  supported_versions = (codes "2", codes "1" ∷ []);
  capabilities = record {
    tools = true;
    resources = false;
    prompts = false;
    logging = false;
    completions = false;
    tasks = false;
  };
  allow_reinitialize = false;
  client_info = none;
  client_capabilities = none;
}

abbrev early : Sess (server_setup server_types)
early = new_server_session server_types server_data

abbrev listing : JsonRpcRequest Value
listing = record { id = int_id (pos 3); method = codes "resources/list"; params = none }

differ : (t u : Text) → text_eq t u ≡ false → t ≢ u
differ t u h e = let same = (text_eq_iff t u).1 e in cc

handle_message-uninitialized_example :
    handle_message
      (server_setup server_types)
      (server_session server_types)
      0
      (request listing)
      early
    ≡ refused_with server_types 0 listing early
        (fail_with connection_not_initialized (codes "session is not initialized"))
unfolding text_eq new_server_session new_session
handle_message-uninitialized_example =
    handle_message-uninitialized server_types 0 listing early (differ _ _ refl) (differ _ _ refl)
      (λ e. absurd (cc))

abbrev opened : Sess (server_setup server_types)
opened = record early { state = operating }

handle_message-undeclared_example :
    handle_message
      (server_setup server_types)
      (server_session server_types)
      0
      (request listing)
      opened
    ≡ refused_with server_types 0 listing opened
        (fail_with capability_not_supported (codes "capability not supported: resources/list"))
unfolding text_eq new_server_session new_session
handle_message-undeclared_example =
    handle_message-undeclared server_types 0 listing opened (codes "resources/") (codes "list")
      (no_resources refl) refl (differ _ _ refl) (differ _ _ refl) refl
