-- ===== src/Session/Once.antt =====
-- src/core/session.cpp: a session, run by any operations in any order, calls back what it issued
-- once. The handlers of the derived class may themselves use the session; that they keep its
-- account is a hypothesis.
use mcp_cpp.Common.{
  ℕ, pos, negsuc, Option, none, some, List, [], ◌∷◌, refl, arith, Bool-cases, inl, inr, codes,
  text_eq,
}
use mcp_cpp.Common.Dict.{Dict}
use mcp_cpp.Errors.{Error}
use mcp_cpp.Messages.{
  RequestId, int_id, text_id, JsonRpcRequest, JsonRpcNotification, JsonRpcResponse, Message,
  request, notification, response,
}
use mcp_cpp.Router.{
  HandlerOutcome, returned, threw_error, threw_other, threw_uncaught, set_request_handler,
  set_notification_handler, wildcard_prefix, dispatch, dispatch_request, dispatch_notification,
  dispatch_response, find_request_handler, find_notification_handler, fail_pending,
}
use mcp_cpp.Session.{
  send_progress, RequestHandler, ping, derived_request, NotificationHandler, progress_handler,
  cancelled_handler, derived_notification, Deadline, Setup, Sess, new_session, send_cancelled,
  router_of, set_router, run_callback,
}
use mcp_cpp.Session.Handling.{
  Derived, noted, run_request, run_notification, dispatch_in, protect, answer, refuse_or_dispatch,
  clear_answered, handle_message, is_due, expired_ids, drop_expired, fail_expired, timer_round,
  Operation, requests, notifies, cancels, reports, receives, times_out, closes, step, run,
}
use mcp_cpp.Session.Ledger.{Ledger, entries, issued, count_calls, calls_in}
use mcp_cpp.Session.Exchanges.{
  emit-Ledger, call_back-Ledger, clear_tracking-Ledger, cancel_request-Ledger, send_request-Ledger,
  handle_progress-Ledger, handle_cancelled-Ledger, handle_close-Ledger,
}

abbrev pub Books : (T : Setup) → Sess T → Type 0
Books T s = (id : RequestId) → Ledger T id s

pub record KeepsBooks (T : Setup) (derived : Derived T) : Type 0 where
  pub request_keeps :
      (u : T.U) (params : Option T.lib.Json) (s : Sess T)
      → Books T s
      → Books T (derived.run_request u params s).0
  pub notification_keeps :
      (v : T.V) (params : Option T.lib.Json) (s : Sess T)
      → Books T s
      → Books T (derived.run_notification v params s)

module _ (T : Setup) (derived : Derived T) (keeps : KeepsBooks T derived) where
  open T use {lib, U, V, K, P, X}
  open T.lib use {Json, null}

  noted-Books : (p : Sess T × HandlerOutcome Json) → Books T p.0 → Books T (noted T derived p).0
  unfolding calls_in
  noted-Books (s, threw_uncaught) b = λ id. emit-Ledger T id _ s refl (b id)
  noted-Books (s, returned r) b = b
  noted-Books (s, threw_error e) b = b
  noted-Books (s, threw_other what) b = b

  run_request-Books :
      (h : RequestHandler U) (params : Option Json) (s : Sess T)
      → Books T s
      → Books T (run_request T derived h params s).0
  run_request-Books ping params s b = b
  run_request-Books (derived_request u) params s b =
      noted-Books (derived.run_request u params s) (keeps.request_keeps u params s b)

  dispatch_request-Books :
      (now : ℕ) (r : JsonRpcRequest Json) (h : Option (RequestHandler U)) (s : Sess T)
      → Books T s
      → Books T
          (dispatch_request null
            (router_of T)
            (set_router T)
            (run_request T derived)
            (run_notification T derived now)
            (run_callback T)
            r
            h
            s).0
  dispatch_request-Books now r none s b = b
  dispatch_request-Books now r (some h) s b = run_request-Books h r.params s b

  dispatch_notification-Books :
      (now : ℕ) (n : JsonRpcNotification Json) (h : Option (NotificationHandler V)) (s : Sess T)
      → Books T s
      → Books T (
          dispatch_notification null
            (router_of T)
            (set_router T)
            (run_request T derived)
            (run_notification T derived now)
            (run_callback T)
            n
            h
            s)
  dispatch_notification-Books now n none s b = b
  dispatch_notification-Books now n (some progress_handler) s b =
      λ id. handle_progress-Ledger T id n.params now s (b id)
  dispatch_notification-Books now n (some cancelled_handler) s b =
      λ id. handle_cancelled-Ledger T id n.params s (b id)
  dispatch_notification-Books now n (some (derived_notification v)) s b =
      keeps.notification_keeps v n.params s b

  dispatch_response-Books :
      (now : ℕ) (r : JsonRpcResponse Json) (id : Option RequestId) (s : Sess T)
      → Books T s
      → Books T (
          dispatch_response null
            (router_of T)
            (set_router T)
            (run_request T derived)
            (run_notification T derived now)
            (run_callback T)
            r
            id
            s)
  dispatch_response-Books now r none s b = b
  dispatch_response-Books now r (some k) s b = λ id. call_back-Ledger T id k _ s (b id)

  answer-Books :
      (a : Sess T × Option (JsonRpcResponse Json)) → Books T a.0 → Books T (answer T derived a)
  unfolding calls_in
  answer-Books (s, none) b = b
  answer-Books (s, some r) b = λ id. emit-Ledger T id _ s refl (b id)

  protect-Books :
      (r : JsonRpcRequest Json) (s : Sess T) → Books T s → Books T (protect T derived r s)
  protect-Books r s b = elim (Bool-cases (text_eq r.method (codes "initialize"))) [
    | inl e ↦ rw (e, protect) b
    | inr e ↦ rw (e, protect) b
  ]

  refuse_or_dispatch-Books :
      (now : ℕ) (r : JsonRpcRequest Json) (e : Option (Error Json)) (s : Sess T)
      → Books T s
      → Books T (refuse_or_dispatch T derived now r e s)
  unfolding dispatch calls_in
  refuse_or_dispatch-Books now r (some e) s b = λ id. emit-Ledger T id _ s refl (b id)
  refuse_or_dispatch-Books now r none s b =
      answer-Books (dispatch_in T derived now (request r) s)
        (dispatch_request-Books now r (find_request_handler s.router r.method) s b)

  clear_answered-Books :
      (id : Option RequestId) (s : Sess T) → Books T s → Books T (clear_answered T derived id s)
  clear_answered-Books none s b = b
  clear_answered-Books (some k) s b = λ id. clear_tracking-Ledger T id k s (b id)

  pub handle_message-Books :
      (now : ℕ) (m : Message Json) (s : Sess T)
      → Books T s
      → Books T (handle_message T derived now m s)
  unfolding handle_message dispatch
  handle_message-Books now (request r) s b =
      refuse_or_dispatch-Books now r _ (protect T derived r s) (protect-Books r s b)
  handle_message-Books now (notification n) s b =
      dispatch_notification-Books now n (find_notification_handler s.router n.method) s b
  handle_message-Books now (response r) s b =
      dispatch_response-Books now r r.id (clear_answered T derived r.id s)
        (clear_answered-Books r.id s b)

  drop_expired-Ledger :
      (now : ℕ) (d : Dict RequestId Deadline) (s : Sess T) (id : RequestId)
      → Ledger T id s
      → Ledger T id (drop_expired T derived now d s)
  unfolding drop_expired
  drop_expired-Ledger now [] s id h = h
  drop_expired-Ledger now ((k, d) ∷ rest) s id h = elim (Bool-cases (is_due T derived now d)) [
    | inl e ↦ rw (e, drop_expired) (drop_expired-Ledger now rest s id h)
    | inr e ↦ rw (e, drop_expired) (drop_expired-Ledger now rest s id h)
  ]

  fail_expired-Ledger :
      (ids : List RequestId) (s : Sess T) (id : RequestId)
      → Ledger T id s
      → Ledger T id (fail_expired T derived ids s)
  unfolding fail_expired fail_pending calls_in
  fail_expired-Ledger [] s id h = h
  fail_expired-Ledger (k ∷ ids) s id h =
      let told = send_cancelled T k (some (codes "request timed out")) s in
      fail_expired-Ledger ids _ id (call_back-Ledger T id k _ told (emit-Ledger T id _ s refl h))

  pub step-Books :
      (o : ℕ × Operation T derived) (s : Sess T) → Books T s → Books T (step T derived o s)
  unfolding step timer_round send_progress calls_in
  step-Books (now, requests method params callback options) s b =
      λ id. send_request-Ledger T id method params callback options now s b
  step-Books (now, notifies method params) s b = λ id. emit-Ledger T id _ s refl (b id)
  step-Books (now, cancels k reason) s b = λ id. cancel_request-Ledger T id k reason s (b id)
  step-Books (now, reports note) s b = λ id. emit-Ledger T id _ s refl (b id)
  step-Books (now, receives m) s b = handle_message-Books now m s b
  step-Books (now, times_out) s b = λ id.
      fail_expired-Ledger (expired_ids T derived now s.deadlines)
        (drop_expired T derived now s.deadlines s) id
        (drop_expired-Ledger now s.deadlines s id (b id))
  step-Books (now, closes) s b = λ id. handle_close-Ledger T id s (b id)

  pub run-Books :
      (os : List (ℕ × Operation T derived)) (s : Sess T) → Books T s → Books T (run T derived os s)
  unfolding run
  run-Books [] s b = b
  run-Books (o ∷ os) s b = run-Books os (step T derived o s) (step-Books o s b)

  -- At the start nothing is issued, pending or called.
  pub new_session-Books : (x : X) → Books T (new_session T x)
  unfolding new_session set_request_handler set_notification_handler wildcard_prefix entries
      count_calls issued
  new_session-Books x (int_id (pos n)) = ground arith
  new_session-Books x (int_id (negsuc n)) = ground arith
  new_session-Books x (text_id t) = ground arith
