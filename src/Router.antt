-- ===== src/Router.antt =====
-- src/core/router.cpp: the handlers and the pending calls of a session, and the dispatch of
-- messages to them. Each method holds the router's lock for its accesses, so a method is one step.
-- `H`, `N` and `C` are the types of request handlers, notification handlers and response callbacks;
-- an empty `std::function` is not among them.
pub mod Wildcards
use mcp_cpp.Common.{
  ℕ, Bool, true, false, ◌&&◌, Option, none, some, List, [], ◌∷◌, ◌++◌, Text, codes, text_eq, length,
  ltb, ◌==◌, if◌then◌else◌, starts_with, strip_prefix,
}
use mcp_cpp.Common.Dict.{Dict, Eq, lookup, insert, erase, text_key}
use mcp_cpp.Errors.{Error, fail_with, method_not_found, internal_error, Result, ok, err}
use mcp_cpp.Messages.{
  RequestId, JsonRpcRequest, JsonRpcNotification, JsonRpcResponse, Message, request, notification,
  response,
}
use mcp_cpp.Messages.Ids.{id_key}

pub record MessageRouter (H N C : Type 0) : Type 0 where
  pub request_handlers : Dict Text H
  pub notification_handlers : Dict Text N
  pub wildcard_request_handlers : List (Text × H)
  pub wildcard_notification_handlers : List (Text × N)
  pub pending : Dict RequestId C

-- What remains in front of a final `*`: `is_wildcard` and the `substr` behind it.
unfoldable pub wildcard_prefix : Text → Option Text
wildcard_prefix [] = none
wildcard_prefix (c ∷ []) = if c == b'*' then some [] else none
wildcard_prefix (c ∷ d ∷ cs) = elim (wildcard_prefix (d ∷ cs)) [
  | none ↦ none
  | some pre ↦ some (c ∷ pre)
]

module _ {H : Type 0} where
  abbrev pub is_better : Option (Text × H) → Text × H → Bool
  is_better none entry = true
  is_better (some best) entry = ltb (length best.0) (length entry.0)

  -- The loop of `match_wildcard`, with the best entry so far.
  unfoldable pub best_match : Option (Text × H) → List (Text × H) → Text → Option (Text × H)
  best_match best [] method = best
  best_match best (entry ∷ entries) method =
      best_match (if starts_with entry.0 method && is_better best entry then some entry else best)
        entries method

  abbrev pub handler_of : Option (Text × H) → Option H
  handler_of none = none
  handler_of (some best) = some best.1

  unfoldable pub match_wildcard : List (Text × H) → Text → Option H
  match_wildcard patterns method = handler_of (best_match none patterns method)

  abbrev pub or_wildcard : Option H → Option H → Option H
  or_wildcard none wild = wild
  or_wildcard (some h) wild = some h

module _ {H N C : Type 0} where
  abbrev pub set_request_at : MessageRouter H N C → Text → H → Option Text → MessageRouter H N C
  set_request_at r method h none = record r {
    request_handlers = insert method h r.request_handlers;
  }
  set_request_at r method h (some pre) = record r {
    wildcard_request_handlers = r.wildcard_request_handlers ++ (pre, h) ∷ [];
  }

  unfoldable pub set_request_handler : MessageRouter H N C → Text → H → MessageRouter H N C
  set_request_handler r method h = set_request_at r method h (wildcard_prefix method)

  abbrev pub set_notification_at :
      MessageRouter H N C → Text → N → Option Text → MessageRouter H N C
  set_notification_at r method h none = record r {
    notification_handlers = insert method h r.notification_handlers;
  }
  set_notification_at r method h (some pre) = record r {
    wildcard_notification_handlers = r.wildcard_notification_handlers ++ (pre, h) ∷ [];
  }

  unfoldable pub set_notification_handler : MessageRouter H N C → Text → N → MessageRouter H N C
  set_notification_handler r method h = set_notification_at r method h (wildcard_prefix method)

  unfoldable pub find_request_handler : MessageRouter H N C → Text → Option H
  find_request_handler r method =
      or_wildcard (lookup method r.request_handlers)
        (match_wildcard r.wildcard_request_handlers method)

  unfoldable pub find_notification_handler : MessageRouter H N C → Text → Option N
  find_notification_handler r method =
      or_wildcard (lookup method r.notification_handlers)
        (match_wildcard r.wildcard_notification_handlers method)

  unfoldable pub register_pending : MessageRouter H N C → RequestId → C → MessageRouter H N C
  register_pending r id callback = record r { pending = insert id callback r.pending }

  unfoldable pub take_pending : MessageRouter H N C → RequestId → MessageRouter H N C × Option C
  take_pending r id = elim (lookup id r.pending) [
    | none ↦ (r, none)
    | some callback ↦ (record r { pending = erase id r.pending }, some callback)
  ]

-- How the call of a request handler ends: a result, an `McpError`, another `std::exception`, or
-- something else thrown, which `dispatch` does not catch.
pub data HandlerOutcome (J : Type 0) : Type 0 where
  returned : Result J J → HandlerOutcome J
  threw_error : Error J → HandlerOutcome J
  threw_other : Text → HandlerOutcome J
  threw_uncaught : HandlerOutcome J

-- The router inside of a state `S`, and what calling a callback does to that state. The id of the
-- answered request goes with its callback.
module _ {J H N C S : Type 0} (router : S → MessageRouter H N C)
    (set_router : S → MessageRouter H N C → S)
    (run_callback : RequestId → C → Result J J → S → S) where
  abbrev pub call_back : RequestId → Result J J → MessageRouter H N C × Option C → S → S
  call_back id result (r, none) s = s
  call_back id result (r, some callback) s = run_callback id callback result (set_router s r)

  abbrev pub found : MessageRouter H N C × Option C → Bool
  found (r, none) = false
  found (r, some _) = true

  unfoldable pub fail_pending : RequestId → Error J → S → S × Bool
  fail_pending id e s =
      let taken = take_pending (router s) id in (call_back id (err e) taken s, found taken)

  -- The loop over the calls that were swapped out.
  unfoldable pub fail_each : Error J → Dict RequestId C → S → S
  fail_each e [] s = s
  fail_each e ((id, callback) ∷ rest) s = fail_each e rest (run_callback id callback (err e) s)

  unfoldable pub fail_all_pending : Error J → S → S
  fail_all_pending e s =
      fail_each e (router s).pending (set_router s (record (router s) { pending = [] }))

-- With the handlers too, and the null of the JSON library.
module _ {J H N C S : Type 0} (null : J) (router : S → MessageRouter H N C)
    (set_router : S → MessageRouter H N C → S)
    (run_request : H → Option J → S → S × HandlerOutcome J)
    (run_notification : N → Option J → S → S)
    (run_callback : RequestId → C → Result J J → S → S) where
  -- `none` where the exception leaves `dispatch`.
  abbrev pub response_to : RequestId → HandlerOutcome J → Option (JsonRpcResponse J)
  response_to id (returned (ok j)) = some (record { id = some id; result = some j; error = none })
  response_to id (returned (err e)) = some (record { id = some id; result = none; error = some e })
  response_to id (threw_error e) = some (record { id = some id; result = none; error = some e })
  response_to id (threw_other what) =
      some (record { id = some id; result = none; error = some (fail_with internal_error what) })
  response_to id threw_uncaught = none

  abbrev pub dispatch_request : JsonRpcRequest J → Option H → S → S × Option (JsonRpcResponse J)
  dispatch_request r none s = (
    s,
    some (record {
      id = some r.id;
      result = none;
      error = some (fail_with method_not_found (codes "Method not found: " ++ r.method));
    }),
  )
  dispatch_request r (some h) s =
      let (s', outcome) = run_request h r.params s in (s', response_to r.id outcome)

  abbrev pub dispatch_notification : JsonRpcNotification J → Option N → S → S
  dispatch_notification n none s = s
  dispatch_notification n (some h) s = run_notification h n.params s

  abbrev pub result_of : JsonRpcResponse J → Result J J
  result_of r = elim r.error [
    | some e ↦ err e
    | none ↦ elim r.result [ none ↦ ok null | some j ↦ ok j ]
  ]

  abbrev pub dispatch_response : JsonRpcResponse J → Option RequestId → S → S
  dispatch_response r none s = s
  dispatch_response r (some id) s =
      call_back router set_router run_callback id (result_of r) (take_pending (router s) id) s

  unfoldable pub dispatch : Message J → S → S × Option (JsonRpcResponse J)
  dispatch (request r) s = dispatch_request r (find_request_handler (router s) r.method) s
  dispatch (notification n) s =
      (dispatch_notification n (find_notification_handler (router s) n.method) s, none)
  dispatch (response r) s = (dispatch_response r r.id s, none)
