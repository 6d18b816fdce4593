-- ===== src/Session/Cancellation.antt =====
-- src/core/session.cpp: what an incoming `notifications/cancelled` may change.
use mcp_cpp.Common.{◌≤◌, false, some, List, [], if◌then◌else◌, leb, length, ◌≡◌}
use mcp_cpp.Messages.{RequestId}
use mcp_cpp.Session.{Setup, Sess, has_id, max_tracked_cancellations}

-- The bound on the tracked ids, and that the `initialize` request is not among them.
abbrev pub IsGuarded : (T : Setup) → Sess T → Type 0
IsGuarded T s =
    (length s.cancelled_incoming ≤ max_tracked_cancellations)
    × ((id : RequestId) → s.protected_request_id ≡ some id → has_id id s.cancelled_incoming ≡ false)

-- The list that the id goes into: emptied when it is full.
abbrev room : List RequestId → List RequestId
room ids = if leb max_tracked_cancellations (length ids) then [] else ids
