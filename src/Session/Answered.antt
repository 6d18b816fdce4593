-- ===== src/Session/Answered.antt =====
-- src/core/session.cpp: what becomes of every request that a session sends.
use mcp_cpp.Common.{ℕ, ◌+◌, List, ◌≡◌}
use mcp_cpp.Messages.{RequestId}
use mcp_cpp.Session.{Setup, new_session}
use mcp_cpp.Session.Handling.{Derived, Operation, run}
use mcp_cpp.Session.Ledger.{entries, issued, count_calls}
use mcp_cpp.Session.Once.{KeepsBooks, run-Books, new_session-Books}

module _ (T : Setup) (derived : Derived T) (keeps : KeepsBooks T derived) (x : T.X)
    (os : List (ℕ × Operation T derived)) (id : RequestId) where
  -- After any operations on a new session, at any times, the callback of a request that was sent
  -- has been called exactly once or the request is pending exactly once, and not both; for an id
  -- that was not given out there is neither. The handlers of the derived class are to keep this
  -- account.
  pub run-called_or_pending :
      let s = run T derived os (new_session T x) in
      count_calls id s.trace + entries id s.router.pending ≡ issued id s.next_request_id
  run-called_or_pending =
      (run-Books T derived keeps os _ (new_session-Books T derived keeps x) id).1
