-- ===== src/Session/Timeouts.antt =====
-- src/core/session.cpp: what a round of the timer does to deadlines and pending calls.
use mcp_cpp.Common.{
  ℕ, ◌≤◌, true, not, some, List, [], ◌∷◌, ◌++◌, retain, leb, if◌then◌else◌, codes, ◌≡◌, ◌⊎◌, inl,
  inr, refl, ap, ◌∙◌, arith, Bool-cases, Option-cases,
}
use mcp_cpp.Common.Dict.{Dict, lookup}
use mcp_cpp.Errors.{fail_with, internal_error, Result, err}
use mcp_cpp.Messages.{RequestId}
use mcp_cpp.Messages.Ids.{id_eq, id_eq_iff, id_key}
use mcp_cpp.Router.{take_pending, call_back, fail_pending}
use mcp_cpp.Session.{
  Setup, Sess, Deadline, has_id, router_of, set_router, run_callback, send_cancelled,
}
use mcp_cpp.Session.Handling.{Derived, is_due, expired_ids, drop_expired, fail_expired, timer_round}
use mcp_cpp.Session.Ledger.{entries, entries-erase, entries-absent}
use mcp_cpp.Session.Exchanges.{take_pending-none, take_pending-some}

module _ (T : Setup) (k : RequestId) (result : Result T.lib.Json T.lib.Json) (s : Sess T) where
  abbrev after_call : Sess T
  after_call =
      call_back (router_of T) (set_router T) (run_callback T) k result (take_pending s.router k) s

  call_back-deadlines : after_call.deadlines ≡ s.deadlines
  call_back-deadlines = elim (Option-cases (lookup k s.router.pending)) [
    | inl e ↦ rw (take_pending-none s.router k e) refl
    | inr (c, e) ↦ rw (take_pending-some s.router k c e) refl
  ]

  call_back-entries :
      (id : RequestId)
      → entries id after_call.router.pending
        ≡ (if id_eq k id then 0 else entries id s.router.pending)
  call_back-entries id = elim (Option-cases (lookup k s.router.pending)) [
    | inl e ↦
        rw (take_pending-none s.router k e)
          (ground (arith, entries-absent k s.router.pending e, id_eq_iff k id))
    | inr (c, e) ↦ rw (take_pending-some s.router k c e) (entries-erase id k s.router.pending)
  ]

still_covered :
    (k id : RequestId) (ids : List RequestId) (m n : ℕ)
    → (has_id id (k ∷ ids) ≡ true) ⊎ (m ≡ 0)
    → n ≡ (if id_eq k id then 0 else m)
    → (has_id id ids ≡ true) ⊎ (n ≡ 0)
unfolding has_id
still_covered k id ids m n h e = ground arith

module _ (T : Setup) (derived : Derived T) where
  fail_expired-deadlines :
      (ids : List RequestId) (s : Sess T) → (fail_expired T derived ids s).deadlines ≡ s.deadlines
  unfolding fail_expired fail_pending
  fail_expired-deadlines [] s = refl
  fail_expired-deadlines (k ∷ ids) s =
      fail_expired-deadlines ids _
      ∙ call_back-deadlines T k _ (send_cancelled T k (some (codes "request timed out")) s)

  fail_expired-entries :
      (ids : List RequestId) (s : Sess T) (id : RequestId)
      → (has_id id ids ≡ true) ⊎ (entries id s.router.pending ≡ 0)
      → entries id (fail_expired T derived ids s).router.pending ≡ 0
  unfolding fail_expired fail_pending has_id
  fail_expired-entries [] s id h = ground arith
  fail_expired-entries (k ∷ ids) s id h =
      let told = send_cancelled T k (some (codes "request timed out")) s in
      let e = fail_with internal_error (codes "request timed out") in
      let next : Sess T = (fail_pending (router_of T) (set_router T) (run_callback T) k e told).0 in
      let gone : entries id next.router.pending
          ≡ (if id_eq k id then 0 else entries id s.router.pending) =
        call_back-entries T k (err e) told id in
      fail_expired-entries ids next id (still_covered k id ids _ _ h gone)

  drop_expired-deadlines :
      (now : ℕ) (d : Dict RequestId Deadline) (s : Sess T)
      → (drop_expired T derived now d s).deadlines
        ≡ retain (λ (e : RequestId × Deadline). not (is_due T derived now e.1)) d
  unfolding drop_expired retain
  drop_expired-deadlines now [] s = refl
  drop_expired-deadlines now ((k, d) ∷ rest) s = elim (Bool-cases (is_due T derived now d)) [
    | inl e ↦ rw (e, drop_expired, retain) (drop_expired-deadlines now rest s)
    | inr e ↦ rw (e, drop_expired, retain) (ap (◌∷◌ (k, d)) (drop_expired-deadlines now rest s))
  ]

  has_id-expired_ids :
      (now : ℕ) (before after : Dict RequestId Deadline) (id : RequestId) (d : Deadline)
      → d.at ≤ now
      → has_id id (expired_ids T derived now (before ++ (id, d) ∷ after)) ≡ true
  unfolding has_id expired_ids
  has_id-expired_ids now [] after id d h = ground (arith, id_eq_iff id id)
  has_id-expired_ids now ((k, e) ∷ before) after id d h =
      ground (arith, has_id-expired_ids now before after id d h)

  -- After a round of the timer, exactly the deadlines that had not passed are left, and a request
  -- whose deadline had passed is not pending any more.
  pub timer_round_due :
      (now : ℕ) (s : Sess T) (before after : Dict RequestId Deadline) (id : RequestId)
      (d : Deadline)
      → s.deadlines ≡ before ++ (id, d) ∷ after
      → d.at ≤ now
      → ((timer_round T derived now s).deadlines
          ≡ retain (λ (e : RequestId × Deadline). not (leb e.1.at now)) s.deadlines)
        × (entries id (timer_round T derived now s).router.pending ≡ 0)
  unfolding timer_round
  timer_round_due now s before after id d e h =
      let ids = expired_ids T derived now s.deadlines in
      let dropped = drop_expired T derived now s.deadlines s in
      (
        fail_expired-deadlines ids dropped ∙ drop_expired-deadlines now s.deadlines s,
        fail_expired-entries ids dropped id
            (inl (rw e (has_id-expired_ids now before after id d h))),
      )
