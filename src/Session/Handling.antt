-- ===== src/Session/Handling.antt =====
-- src/core/session.cpp: `handle_message`, the rounds of `timer_loop`, and the operations of a
-- session in any order.
use mcp_cpp.Common.{
  ℕ, Bool, Option, none, some, List, [], ◌∷◌, Text, codes, text_eq, leb, if◌then◌else◌,
}
use mcp_cpp.Common.Dict.{Dict}
use mcp_cpp.Errors.{Error, fail_with, internal_error, ok}
use mcp_cpp.Messages.{
  RequestId, JsonRpcRequest, JsonRpcResponse, Message, request, notification, response,
}
use mcp_cpp.Messages.Ids.{id_key}
use mcp_cpp.Router.{
  HandlerOutcome, returned, threw_error, threw_other, threw_uncaught, dispatch, fail_pending,
}
use mcp_cpp.Session.{
  Setup, RequestHandler, ping, derived_request, NotificationHandler, progress_handler,
  cancelled_handler, derived_notification, Deadline, RequestOptions, escaped, emit,
  ProgressNotification, Sess, send_message, send_notification, send_request, forget_token,
  clear_tracking, router_of, set_router, run_callback, send_cancelled, cancel_request,
  send_progress, handle_progress, handle_cancelled, handle_close,
}

-- The virtual methods of a derived class, and its handlers.
pub record Derived (T : Setup) : Type 0 where
  pub check_incoming_request : Sess T → JsonRpcRequest T.lib.Json → Option (Error T.lib.Json)
  pub run_request : T.U → Option T.lib.Json → Sess T → Sess T × HandlerOutcome T.lib.Json
  pub run_notification : T.V → Option T.lib.Json → Sess T → Sess T

module _ (T : Setup) (derived : Derived T) where
  open T use {lib, U, V, K, P, X}
  open T.lib use {Json, null, empty_object}

  -- What `dispatch` does not catch leaves the session.
  abbrev pub noted : Sess T × HandlerOutcome Json → Sess T × HandlerOutcome Json
  noted (s, threw_uncaught) = (emit T escaped s, threw_uncaught)
  noted (s, returned r) = (s, returned r)
  noted (s, threw_error e) = (s, threw_error e)
  noted (s, threw_other what) = (s, threw_other what)

  -- The handlers that the session's router holds.
  abbrev pub run_request : RequestHandler U → Option Json → Sess T → Sess T × HandlerOutcome Json
  run_request ping params s = (s, returned (ok empty_object))
  run_request (derived_request u) params s = noted (derived.run_request u params s)

  abbrev pub run_notification : ℕ → NotificationHandler V → Option Json → Sess T → Sess T
  run_notification now progress_handler params s = handle_progress T params now s
  run_notification now cancelled_handler params s = handle_cancelled T params s
  run_notification now (derived_notification v) params s = derived.run_notification v params s

  abbrev pub dispatch_in : ℕ → Message Json → Sess T → Sess T × Option (JsonRpcResponse Json)
  dispatch_in now =
      dispatch null (router_of T) (set_router T) run_request (run_notification now) (run_callback T)

  abbrev pub protect : JsonRpcRequest Json → Sess T → Sess T
  protect r s =
      if text_eq r.method (codes "initialize")
      then record s { protected_request_id = some r.id }
      else s

  abbrev pub answer : Sess T × Option (JsonRpcResponse Json) → Sess T
  answer (s, none) = s
  answer (s, some r) = send_message T (response r) s

  abbrev pub refuse_or_dispatch : ℕ → JsonRpcRequest Json → Option (Error Json) → Sess T → Sess T
  refuse_or_dispatch now r (some e) s =
      send_message T (response (record { id = some r.id; result = none; error = some e })) s
  refuse_or_dispatch now r none s = answer (dispatch_in now (request r) s)

  abbrev pub clear_answered : Option RequestId → Sess T → Sess T
  clear_answered none s = s
  clear_answered (some id) s = clear_tracking T id s

  unfoldable pub handle_message : ℕ → Message Json → Sess T → Sess T
  handle_message now (request r) s =
      let s' = protect r s in refuse_or_dispatch now r (derived.check_incoming_request s' r) s'
  handle_message now (notification n) s = (dispatch_in now (notification n) s).0
  handle_message now (response r) s = (dispatch_in now (response r) (clear_answered r.id s)).0

  abbrev pub is_due : ℕ → Deadline → Bool
  is_due now d = leb d.at now

  -- The loop over the deadlines: which requests have expired, and what is left.
  unfoldable pub expired_ids : ℕ → Dict RequestId Deadline → List RequestId
  expired_ids now [] = []
  expired_ids now ((id, d) ∷ rest) =
      if is_due now d then id ∷ expired_ids now rest else expired_ids now rest

  unfoldable pub drop_expired : ℕ → Dict RequestId Deadline → Sess T → Sess T
  drop_expired now [] s = record s { deadlines = [] }
  drop_expired now ((id, d) ∷ rest) s =
      let kept = drop_expired now rest s in
      if is_due now d
      then record kept {
        progress_callbacks = forget_token d.progress_token kept.progress_callbacks;
      }
      else record kept { deadlines = (id, d) ∷ kept.deadlines }

  unfoldable pub fail_expired : List RequestId → Sess T → Sess T
  fail_expired [] s = s
  fail_expired (id ∷ ids) s =
      fail_expired ids
        (fail_pending (router_of T) (set_router T) (run_callback T) id
          (fail_with internal_error (codes "request timed out"))
          (send_cancelled T id (some (codes "request timed out")) s)).0

  -- One round of `timer_loop` in which the wait ends at the time `now`.
  unfoldable pub timer_round : ℕ → Sess T → Sess T
  timer_round now s = fail_expired (expired_ids now s.deadlines) (drop_expired now s.deadlines s)

  -- What the program, the transport and the timer do with a session.
  pub data Operation : Type 0 where
    requests : Text → Option Json → K → RequestOptions P → Operation
    notifies : Text → Option Json → Operation
    cancels : RequestId → Option Text → Operation
    reports : ProgressNotification Json → Operation
    receives : Message Json → Operation
    times_out : Operation
    closes : Operation

  unfoldable pub step : ℕ × Operation → Sess T → Sess T
  step (now, requests method params callback options) s =
      (send_request T method params callback options now s).0
  step (now, notifies method params) s = send_notification T method params s
  step (now, cancels id reason) s = cancel_request T id reason s
  step (now, reports note) s = send_progress T note s
  step (now, receives m) s = handle_message now m s
  step (now, times_out) s = timer_round now s
  step (now, closes) s = handle_close T s

  unfoldable pub run : List (ℕ × Operation) → Sess T → Sess T
  run [] s = s
  run (o ∷ os) s = run os (step o s)
