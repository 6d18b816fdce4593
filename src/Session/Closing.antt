-- ===== src/Session/Closing.antt =====
-- src/core/session.cpp: the close of a session whose callbacks send requests while they run.
use mcp_cpp.Common.{
  ℕ, ◌+◌, ◌≤◌, pos, Option, none, some, List, [], ◌∷◌, codes, ltb, ◌≡◌, ◌⊎◌, inl, inr, refl, false,
  arith, Bool-cases, if◌then◌else◌, ◌∙◌,
}
use mcp_cpp.Common.Dict.{Dict, insert}
use mcp_cpp.Errors.{Error, fail_with, internal_error, Result, err}
use mcp_cpp.Messages.{RequestId, int_id}
use mcp_cpp.Messages.Ids.{id_eq, id_eq_iff, id_key}
use mcp_cpp.Router.{register_pending, fail_each, fail_all_pending}
use mcp_cpp.Session.{
  shut_down, called, closed, Setup, Sess, new_session, RequestOptions, track_deadline,
  track_progress, send_request, router_of, set_router, Sending, send_all, run_reacting,
  close_running,
}
use mcp_cpp.Session.Handling.{Derived, Operation, run}
use mcp_cpp.Session.Ledger.{
  entries, issued, issued-le, issued-next, calls_in, count_calls, count_calls-emit,
}
use mcp_cpp.Session.Once.{KeepsBooks, run-Books, new_session-Books}

entries-insert_other :
    {C : Type 0} (id k : RequestId) (c : C) (m : Dict RequestId C)
    → id_eq k id ≡ false
    → entries id (insert k c m) ≡ entries id m
unfolding entries insert
entries-insert_other id k c [] h = ground arith
entries-insert_other id k c ((j, d) ∷ m) h =
    ground (arith, id_eq_iff j k, id_eq_iff k id, entries-insert_other id k c m)

module _ (T : Setup) where
  open T use {lib, K, P}
  open T.lib use {Json}

  -- What the bookkeeping of deadlines and progress leaves alone.
  Same : Sess T → Sess T → Type 0
  Same s s' =
      (s'.trace ≡ s.trace) × (s'.router ≡ s.router) × (s'.next_request_id ≡ s.next_request_id)

  track_deadline-Same :
      (id : RequestId) (options : RequestOptions P) (now : ℕ) (s : Sess T)
      → Same s (track_deadline T id options now s)
  unfolding Same
  track_deadline-Same id options now s =
      (elim options.timeout
        as (λ t. Same s (track_deadline T id (record options { timeout = t }) now s)) [
          | none ↦ (refl, refl, refl)
          | some t ↦ elim (Bool-cases (ltb 0 t)) [
            | inl e ↦ rw e (refl, refl, refl)
            | inr e ↦ rw e (refl, refl, refl)
          ]
        ])

  track_progress-Same :
      (token : Option RequestId) (callback : Option P) (s : Sess T)
      → Same s (track_progress T token callback s)
  unfolding Same
  track_progress-Same (some token) (some callback) s = (refl, refl, refl)
  track_progress-Same (some token) none s = (refl, refl, refl)
  track_progress-Same none callback s = (refl, refl, refl)

  module _ (id : RequestId) where
    -- The id was given out before, and its call is not pending.
    Settled : Sess T → Type 0
    Settled s =
        (1 ≤ s.next_request_id)
        × (issued id s.next_request_id ≡ 1)
        × (entries id s.router.pending ≡ 0)

    send_request-kept :
        (x : Sending T) (s : Sess T)
        → let s' = (send_request T x.method x.params x.callback x.options x.now s).0 in
          (count_calls id s'.trace ≡ count_calls id s.trace)
          × (s'.router ≡ register_pending s.router (int_id (pos s.next_request_id)) x.callback)
          × (s'.next_request_id ≡ s.next_request_id + 1)
    unfolding send_request Same calls_in
    send_request-kept x s =
        let k = int_id (pos s.next_request_id) in
        let registered : Sess T = record s {
          next_request_id = s.next_request_id + 1;
          router = register_pending s.router k x.callback;
        } in
        let timed = track_deadline T k x.options x.now registered in
        let a = track_deadline-Same k x.options x.now registered in
        let b = track_progress-Same x.options.progress_token x.options.on_progress timed in
        (count_calls-emit id _ _ ∙ rw (b.0, a.0) (omega arith), b.1 ∙ a.1, b.2 ∙ a.2)

    send_request-Settled :
        (x : Sending T) (s : Sess T)
        → Settled s
        → Settled (send_request T x.method x.params x.callback x.options x.now s).0
    unfolding Settled register_pending
    send_request-Settled x s (p, i, n) =
        let k = int_id (pos s.next_request_id) in
        let kept = send_request-kept x s in
        let next = issued-next id s.next_request_id p in
        let other : id_eq k id ≡ false = ground (arith, issued-le id (s.next_request_id + 1)) in
        rw (kept.2, kept.1)
          (
            omega arith,
            ground (arith, issued-le id (s.next_request_id + 1)),
            entries-insert_other id k x.callback s.router.pending other ∙ n,
          )

    send_all-count :
        (xs : List (Sending T)) (s : Sess T)
        → count_calls id (send_all T xs s).trace ≡ count_calls id s.trace
    unfolding send_all
    send_all-count [] s = refl
    send_all-count (x ∷ xs) s = send_all-count xs _ ∙ (send_request-kept x s).0

    send_all-Settled : (xs : List (Sending T)) (s : Sess T) → Settled s → Settled (send_all T xs s)
    unfolding send_all
    send_all-Settled [] s h = h
    send_all-Settled (x ∷ xs) s h = send_all-Settled xs _ (send_request-Settled x s h)

    module _ (reacts : K → Result Json Json → List (Sending T)) (e : Error Json) where
      fail_each-count :
          (d : Dict RequestId K) (s : Sess T)
          → count_calls id
              (fail_each (router_of T) (set_router T) (run_reacting T reacts) e d s).trace
            ≡ count_calls id s.trace + entries id d
      unfolding fail_each entries calls_in
      fail_each-count [] s = omega arith
      fail_each-count ((k, c) ∷ rest) s =
          let ran = run_reacting T reacts k c (err e) s in
          let counted : count_calls id ran.trace
              ≡ (if id_eq k id then 1 else 0) + count_calls id s.trace =
            send_all-count (reacts c (err e)) _
            ∙ count_calls-emit id s.trace (called k c (err e)) in
          omega (arith, fail_each-count rest ran, counted)

      fail_each-Settled :
          (d : Dict RequestId K) (s : Sess T)
          → Settled s
          → Settled (fail_each (router_of T) (set_router T) (run_reacting T reacts) e d s)
      unfolding fail_each Settled
      fail_each-Settled [] s h = h
      fail_each-Settled ((k, c) ∷ rest) s h =
          fail_each-Settled rest _ (send_all-Settled (reacts c (err e)) _ h)

module _ (T : Setup) (derived : Derived T) (keeps : KeepsBooks T derived) (x : T.X)
    (os : List (ℕ × Operation T derived)) (id : RequestId)
    (reacts : T.K → Result T.lib.Json T.lib.Json → List (Sending T)) where
  -- When the connection is closed after any operations on a new session, the callback of every
  -- request that was sent before has been called exactly once, and such a request is not pending
  -- afterwards, whatever requests the callbacks send while the close runs them. What a callback does
  -- with the session before the close is an operation of its own. The handlers of the derived class
  -- are to keep the account of calls.
  pub close-called_once :
      let before = run T derived os (new_session T x) in
      let after = close_running T (run_reacting T reacts) before in
      (count_calls id after.trace ≡ issued id before.next_request_id)
      × ((issued id before.next_request_id ≡ 0) ⊎ (entries id after.router.pending ≡ 0))
  unfolding fail_all_pending calls_in Settled entries
  close-called_once =
      let before = run T derived os (new_session T x) in
      let e = fail_with internal_error (codes "connection closed") in
      let emptied : Sess T = record before {
        state = shut_down;
        deadlines = [];
        progress_callbacks = [];
        router = record before.router { pending = [] };
      } in
      let books = run-Books T derived keeps os _ (new_session-Books T derived keeps x) id in
      let counted = fail_each-count T id reacts e before.router.pending emptied in
      (
        count_calls-emit id _ closed ∙ omega (arith, counted, books.1),
        elim (Bool-cases (ltb 0 (issued id before.next_request_id))) [
          | inr z ↦ inl (ground arith)
          | inl z ↦
              inr
                (fail_each-Settled T id reacts e before.router.pending emptied
                  (books.0, ground (arith, issued-le id before.next_request_id), refl)).2
        ],
      )
