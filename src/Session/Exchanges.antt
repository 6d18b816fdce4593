-- ===== src/Session/Exchanges.antt =====
-- src/core/session.cpp: every request that a session issues is called back exactly once, or is
-- pending: what the operations of `Session` do to the account of an id.
use mcp_cpp.Common.{
  ℕ, ◌+◌, ◌≤◌, pos, Option, none, some, [], ◌∷◌, ◌++◌, ltb, ◌≡◌, refl, arith, Option-cases,
  Bool-cases, inl, inr, Text, codes,
}
use mcp_cpp.Common.Dict.{Dict, lookup, erase}
use mcp_cpp.Errors.{Error, fail_with, internal_error, Result, ok, err}
use mcp_cpp.Messages.{RequestId, int_id, Attempt, returns, throws}
use mcp_cpp.Messages.Ids.{id_eq_iff, id_key}
use mcp_cpp.Router.{
  take_pending, register_pending, call_back, fail_each, fail_all_pending, MessageRouter,
}
use mcp_cpp.Session.{
  shut_down, Event, called, closed, Setup, Sess, ProgressNotification, CancelledNotification,
  RequestOptions, emit, track_deadline, track_progress, send_request, clear_tracking, router_of,
  set_router, run_callback, cancel_taken, cancel_request, call_progress, progress_read,
  handle_progress, cancelled_read, handle_cancelled, handle_close, is_protected, progress_from_json,
  cancelled_from_json,
}
use mcp_cpp.Session.Ledger.{
  entries, entries-insert, entries-erase, entries-lookup, issued, issued-le, issued-next,
  issued_self, calls_in, count_calls, count_calls-emit, Ledger,
}

module _ {H N C : Type 0} (r : MessageRouter H N C) (k : RequestId) where
  pub take_pending-none : lookup k r.pending ≡ none → take_pending r k ≡ (r, none)
  unfolding take_pending
  take_pending-none e = rw (e, take_pending) refl

  pub take_pending-some :
      (c : C)
      → lookup k r.pending ≡ some c
      → take_pending r k ≡ (record r { pending = erase k r.pending }, some c)
  unfolding take_pending
  take_pending-some c e = rw (e, take_pending) refl

module _ (T : Setup) (id : RequestId) where
  open T use {lib, U, V, K, P, X}
  open T.lib use {Json}

  -- An event that is no call leaves the account as it is.
  pub emit-Ledger :
      (e : Event Json K P) (s : Sess T)
      → calls_in id e ≡ 0
      → Ledger T id s
      → Ledger T id (emit T e s)
  emit-Ledger e s h (p, l) = (p, omega (arith, count_calls-emit id s.trace e))

  -- A call whose entry is taken out goes from pending to called.
  taken-Ledger :
      (k : RequestId) (c : K) (result : Result Json Json) (s : Sess T)
      → lookup k s.router.pending ≡ some c
      → Ledger T id s
      → count_calls id (s.trace ++ called k c result ∷ []) + entries id (erase k s.router.pending)
        ≡ issued id s.next_request_id
  unfolding calls_in
  taken-Ledger k c result s h (p, l) = ground (
    arith,
    count_calls-emit id s.trace (called k c result),
    entries-erase id k s.router.pending,
    entries-lookup k c s.router.pending h,
    issued-le id s.next_request_id,
    id_eq_iff k id,
  )

  pub call_back-Ledger :
      (k : RequestId) (result : Result Json Json) (s : Sess T)
      → Ledger T id s
      → Ledger T id (
          call_back
            (router_of T)
            (set_router T)
            (run_callback T)
            k
            result
            (take_pending s.router k)
            s)
  call_back-Ledger k result s h = elim (Option-cases (lookup k s.router.pending)) [
    | inl e ↦ rw (take_pending-none s.router k e) h
    | inr (c, e) ↦ rw (take_pending-some s.router k c e) (h.0, taken-Ledger k c result s e h)
  ]

  pub clear_tracking-Ledger :
      (k : RequestId) (s : Sess T) → Ledger T id s → Ledger T id (clear_tracking T k s)
  unfolding clear_tracking
  clear_tracking-Ledger k s h = elim (Option-cases (lookup k s.deadlines)) [
    | inl e ↦ rw (e, clear_tracking) h
    | inr (d, e) ↦ rw (e, clear_tracking) h
  ]

  cancel_taken-Ledger :
      (k : RequestId) (reason : Option Text) (s : Sess T)
      → Ledger T id s
      → Ledger T id (cancel_taken T k reason (take_pending s.router k) s)
  unfolding calls_in
  cancel_taken-Ledger k reason s h = elim (Option-cases (lookup k s.router.pending)) [
    | inl e ↦ rw (take_pending-none s.router k e) h
    | inr (c, e) ↦
        rw (take_pending-some s.router k c e)
          (h.0, taken-Ledger k c _ (emit T _ s) e (emit-Ledger _ s refl h))
  ]

  pub cancel_request-Ledger :
      (k : RequestId) (reason : Option Text) (s : Sess T)
      → Ledger T id s
      → Ledger T id (cancel_request T k reason s)
  unfolding cancel_request
  cancel_request-Ledger k reason s h =
      cancel_taken-Ledger k reason (clear_tracking T k s) (clear_tracking-Ledger k s h)

  call_progress-Ledger :
      (callback : Option P) (note : ProgressNotification Json) (s : Sess T)
      → Ledger T id s
      → Ledger T id (call_progress T callback note s)
  unfolding calls_in
  call_progress-Ledger none note s h = h
  call_progress-Ledger (some callback) note s h = emit-Ledger _ s refl h

  progress_read-Ledger :
      (r : Attempt (Result Json (ProgressNotification Json))) (now : ℕ) (s : Sess T)
      → Ledger T id s
      → Ledger T id (progress_read T r now s)
  unfolding calls_in
  progress_read-Ledger throws now s h = emit-Ledger _ s refl h
  progress_read-Ledger (returns (err e)) now s h = h
  progress_read-Ledger (returns (ok note)) now s h = call_progress-Ledger _ note _ h

  cancelled_read-Ledger :
      (r : Attempt (Result Json CancelledNotification)) (s : Sess T)
      → Ledger T id s
      → Ledger T id (cancelled_read T r s)
  unfolding calls_in
  cancelled_read-Ledger throws s h = emit-Ledger _ s refl h
  cancelled_read-Ledger (returns (err e)) s h = h
  cancelled_read-Ledger (returns (ok note)) s h =
      elim (Bool-cases (is_protected s.protected_request_id note.request_id)) [
        | inl e ↦ rw (e, cancelled_read) h
        | inr e ↦ rw (e, cancelled_read) h
      ]

  pub handle_progress-Ledger :
      (params : Option Json) (now : ℕ) (s : Sess T)
      → Ledger T id s
      → Ledger T id (handle_progress T params now s)
  unfolding handle_progress calls_in
  handle_progress-Ledger none now s h = h
  handle_progress-Ledger (some params) now s h =
      progress_read-Ledger (progress_from_json lib params) now s h

  pub handle_cancelled-Ledger :
      (params : Option Json) (s : Sess T)
      → Ledger T id s
      → Ledger T id (handle_cancelled T params s)
  unfolding handle_cancelled calls_in
  handle_cancelled-Ledger none s h = h
  handle_cancelled-Ledger (some params) s h =
      cancelled_read-Ledger (cancelled_from_json lib params) s h

  track_progress-Ledger :
      (token : Option RequestId) (callback : Option P) (s : Sess T)
      → Ledger T id s
      → Ledger T id (track_progress T token callback s)
  track_progress-Ledger (some token) (some callback) s h = h
  track_progress-Ledger (some token) none s h = h
  track_progress-Ledger none callback s h = h

  track_deadline-Ledger :
      (k : RequestId) (options : RequestOptions P) (now : ℕ) (s : Sess T)
      → Ledger T id s
      → Ledger T id (track_deadline T k options now s)
  track_deadline-Ledger k options now s h = elim (Option-cases options.timeout) [
    | inl e ↦ rw (e, track_deadline) h
    | inr (t, e) ↦ elim (Bool-cases (ltb 0 t)) [
      | inl b ↦ rw (e, track_deadline, b) h
      | inr b ↦ rw (e, track_deadline, b) h
    ]
  ]

  pub send_request-Ledger :
      (method : Text) (params : Option Json) (callback : K) (options : RequestOptions P) (now : ℕ)
      (s : Sess T)
      → ((j : RequestId) → Ledger T j s)
      → Ledger T id (send_request T method params callback options now s).0
  unfolding send_request register_pending calls_in
  send_request-Ledger method params callback options now s h =
      let k = int_id (pos s.next_request_id) in
      let none_yet : entries k s.router.pending ≡ 0 =
        ground (arith, (h k).1, issued_self s.next_request_id) in
      let registered : Sess T = record s {
        next_request_id = s.next_request_id + 1;
        router = register_pending s.router k callback;
      } in
      let timed = track_deadline T k options now registered in
      emit-Ledger _ (track_progress T options.progress_token options.on_progress timed) refl (
        track_progress-Ledger options.progress_token options.on_progress timed (
          track_deadline-Ledger k options now registered (
            omega (arith, (h id).0),
            omega (
              arith,
              (h id).1,
              entries-insert id k callback s.router.pending none_yet,
              issued-next id s.next_request_id (h id).0,
            ),
          )))

  fail_each-Ledger :
      (e : Error Json) (d : Dict RequestId K) (s : Sess T)
      → 1 ≤ s.next_request_id
      → count_calls id s.trace + entries id d + entries id s.router.pending
        ≡ issued id s.next_request_id
      → Ledger T id (fail_each (router_of T) (set_router T) (run_callback T) e d s)
  unfolding fail_each entries calls_in
  fail_each-Ledger e [] s p h = (p, omega arith)
  fail_each-Ledger e ((k, c) ∷ rest) s p h =
      fail_each-Ledger e rest _ p
        (omega (arith, h, count_calls-emit id s.trace (called k c (err e))))

  pub handle_close-Ledger : (s : Sess T) → Ledger T id s → Ledger T id (handle_close T s)
  unfolding handle_close fail_all_pending calls_in entries
  handle_close-Ledger s (p, l) =
      let e = fail_with internal_error (codes "connection closed") in
      let emptied : Sess T = record s {
        state = shut_down;
        deadlines = [];
        progress_callbacks = [];
        router = record s.router { pending = [] };
      } in
      emit-Ledger closed
        (fail_each (router_of T) (set_router T) (run_callback T) e s.router.pending emptied) refl
        (fail_each-Ledger e s.router.pending emptied p (omega (arith, l)))
