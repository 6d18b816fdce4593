-- ===== src/Session.antt =====
-- src/core/session.cpp: `Session`, the part that both ends share. An operation of a session is one
-- step, and the time of an operation is an argument. `U`, `V` and `X` are the handlers and the
-- fields that a derived class adds; `K` and `P` are the response and progress callbacks of the
-- program that uses the session. What the session does to its surroundings is its `trace`.
mod Notes
pub mod Handling
pub mod Ledger
pub mod Exchanges
pub mod Once
pub mod Answered
pub mod Closing
pub mod Cancellation
pub mod Timeouts
pub use Notes.{ProgressNotification, CancelledNotification}
unfoldable pub use Notes.{
  progress_to_json, progress_from_json, cancelled_to_json, cancelled_from_json,
}
use mcp_cpp.Common.{
  ℕ, suc, ◌+◌, ℤ, pos, Bool, true, false, not, ◌&&◌, ◌||◌, Option, none, some, List, [], ◌∷◌, ◌++◌,
  Text, codes, text_eq, length, ltb, leb, retain, if◌then◌else◌,
}
use mcp_cpp.Common.Dict.{Dict, lookup, insert, erase, text_key}
use mcp_cpp.Errors.{Error, fail_with, internal_error, Result, ok, err}
use mcp_cpp.Json.{JsonLib, object}
use mcp_cpp.Messages.{
  RequestId, int_id, JsonRpcRequest, JsonRpcNotification, JsonRpcResponse, Message, request,
  notification, response, Attempt, returns, throws, request_id_to_json,
}
use mcp_cpp.Messages.Ids.{id_eq, id_key}
use mcp_cpp.Router.{
  MessageRouter, HandlerOutcome, returned, set_request_handler, set_notification_handler,
  register_pending, take_pending, dispatch, fail_pending, fail_all_pending,
}

pub data SessionState : Type 0 where
  uninitialized initializing operating shut_down : SessionState

pub data RequestHandler (U : Type 0) : Type 0 where
  ping : RequestHandler U
  derived_request : U → RequestHandler U

pub data NotificationHandler (V : Type 0) : Type 0 where
  progress_handler : NotificationHandler V
  cancelled_handler : NotificationHandler V
  derived_notification : V → NotificationHandler V

pub record Deadline : Type 0 where
  pub at : ℕ
  pub timeout : ℕ
  pub progress_token : Option RequestId

-- `disconnected`: the transport is told to disconnect; `escaped`: an exception left the operation.
pub data Event (J K P : Type 0) : Type 0 where
  sent : Message J → Event J K P
  called : RequestId → K → Result J J → Event J K P
  progressed : P → ProgressNotification J → Event J K P
  closed : Event J K P
  failed : Error J → Event J K P
  disconnected : Event J K P
  escaped : Event J K P

pub record Session (J U V K P X : Type 0) : Type 0 where
  pub state : SessionState
  pub next_request_id : ℕ
  pub router : MessageRouter (RequestHandler U) (NotificationHandler V) K
  pub deadlines : Dict RequestId Deadline
  pub progress_callbacks : Dict RequestId P
  pub cancelled_incoming : List RequestId
  pub protected_request_id : Option RequestId
  pub extra : X
  pub trace : List (Event J K P)

pub record RequestOptions (P : Type 0) : Type 0 where
  pub timeout : Option ℕ
  pub progress_token : Option RequestId
  pub on_progress : Option P

abbrev pub max_tracked_cancellations : ℕ
max_tracked_cancellations = 1024

unfoldable pub has_id : RequestId → List RequestId → Bool
has_id id [] = false
has_id id (x ∷ xs) = if id_eq x id then true else has_id id xs

-- The types that a session is built over.
pub record Setup : Type 1 where
  pub lib : JsonLib
  pub U : Type 0
  pub V : Type 0
  pub K : Type 0
  pub P : Type 0
  pub X : Type 0

abbrev pub has_token : RequestId → Option RequestId → Bool
has_token token none = false
has_token token (some t) = id_eq t token

-- Progress resets the clock of every request with the token.
unfoldable pub reset_deadlines : RequestId → ℕ → Dict RequestId Deadline → Dict RequestId Deadline
reset_deadlines token now [] = []
reset_deadlines token now ((id, d) ∷ rest) =
    (id, if has_token token d.progress_token then record d { at = now + d.timeout } else d)
    ∷ reset_deadlines token now rest

abbrev pub is_protected : Option RequestId → RequestId → Bool
is_protected none id = false
is_protected (some p) id = id_eq id p

abbrev pub insert_id : RequestId → List RequestId → List RequestId
insert_id id ids = if has_id id ids then ids else id ∷ ids

abbrev pub forget_token : {P : Type 0} → Option RequestId → Dict RequestId P → Dict RequestId P
forget_token none callbacks = callbacks
forget_token (some token) callbacks = erase token callbacks

module _ (T : Setup) where
  open T use {lib, U, V, K, P, X}
  open T.lib use {Json, empty_object, find, set_key}

  abbrev pub Sess : Type 0
  Sess = Session Json U V K P X

  abbrev pub emit : Event Json K P → Sess → Sess
  emit e s = record s { trace = s.trace ++ e ∷ [] }

  abbrev pub send_message : Message Json → Sess → Sess
  send_message m = emit (sent m)

  abbrev pub send_notification : Text → Option Json → Sess → Sess
  send_notification method params =
      send_message (notification (record { method = method; params = params }))

  unfoldable pub disconnect : Sess → Sess
  disconnect s = emit disconnected (record s { state = shut_down })

  -- `failed` is the call of the error callback, which does nothing where none is set.
  unfoldable pub on_transport_error : Error Json → Sess → Sess
  on_transport_error e = emit (failed e)

  -- The constructor, and the fields that the derived class starts with.
  unfoldable pub new_session : X → Sess
  new_session x =
      let empty : MessageRouter (RequestHandler U) (NotificationHandler V) K = record {
        request_handlers = [];
        notification_handlers = [];
        wildcard_request_handlers = [];
        wildcard_notification_handlers = [];
        pending = [];
      } in
      let pinged = set_request_handler empty (codes "ping") ping in
      let progressing =
        set_notification_handler pinged (codes "notifications/progress") progress_handler in
      record {
        state = uninitialized;
        next_request_id = 1;
        router =
            set_notification_handler progressing (codes "notifications/cancelled")
              cancelled_handler;
        deadlines = [];
        progress_callbacks = [];
        cancelled_incoming = [];
        protected_request_id = none;
        extra = x;
        trace = [];
      }

  abbrev pub object_or_empty : Option Json → Json
  object_or_empty none = empty_object
  object_or_empty (some j) = j

  -- `p["_meta"]["progressToken"] = token`
  abbrev pub with_token : Option RequestId → Option Json → Option Json
  with_token none params = params
  with_token (some token) params =
      let p = object_or_empty params in
      let meta = object_or_empty (find (codes "_meta") p) in
      some (
        set_key (codes "_meta")
          (set_key (codes "progressToken") (request_id_to_json lib token) meta) p)

  -- `options.timeout && options.timeout->count() > 0`
  abbrev pub track_deadline : RequestId → RequestOptions P → ℕ → Sess → Sess
  track_deadline id options now s = elim options.timeout [
    | none ↦ s
    | some t ↦
        if ltb 0 t
        then record s {
          deadlines =
              insert id
                (record { at = now + t; timeout = t; progress_token = options.progress_token })
                s.deadlines;
        }
        else s
  ]

  abbrev pub track_progress : Option RequestId → Option P → Sess → Sess
  track_progress (some token) (some callback) s = record s {
    progress_callbacks = insert token callback s.progress_callbacks;
  }
  track_progress _ _ s = s

  unfoldable pub send_request :
      Text → Option Json → K → RequestOptions P → ℕ → Sess → Sess × RequestId
  send_request method params callback options now s =
      let id = int_id (pos s.next_request_id) in
      let registered : Sess = record s {
        next_request_id = s.next_request_id + 1;
        router = register_pending s.router id callback;
      } in
      let tracked =
        track_progress options.progress_token options.on_progress
          (track_deadline id options now registered) in
      (
        send_message
            (request (record {
              id = id;
              method = method;
              params = with_token options.progress_token params;
            }))
            tracked,
        id,
      )

  unfoldable pub clear_tracking : RequestId → Sess → Sess
  clear_tracking id s = elim (lookup id s.deadlines) [
    | none ↦ s
    | some d ↦ record s {
      progress_callbacks = forget_token d.progress_token s.progress_callbacks;
      deadlines = erase id s.deadlines;
    }
  ]

  abbrev pub router_of : Sess → MessageRouter (RequestHandler U) (NotificationHandler V) K
  router_of s = s.router

  abbrev pub set_router : Sess → MessageRouter (RequestHandler U) (NotificationHandler V) K → Sess
  set_router s r = record s { router = r }

  abbrev pub run_callback : RequestId → K → Result Json Json → Sess → Sess
  run_callback id callback result = emit (called id callback result)

  abbrev pub send_cancelled : RequestId → Option Text → Sess → Sess
  send_cancelled id reason =
      send_notification (codes "notifications/cancelled")
        (some (cancelled_to_json lib (record { request_id = id; reason = reason })))

  abbrev pub cancel_taken :
      RequestId
      → Option Text
      → MessageRouter (RequestHandler U) (NotificationHandler V) K × Option K
      → Sess
      → Sess
  cancel_taken id reason (r, none) s = s
  cancel_taken id reason (r, some callback) s =
      run_callback id callback (err (fail_with internal_error (codes "request was cancelled")))
        (send_cancelled id reason (set_router s r))

  unfoldable pub cancel_request : RequestId → Option Text → Sess → Sess
  cancel_request id reason s =
      let cleared = clear_tracking id s in
      cancel_taken id reason (take_pending cleared.router id) cleared

  unfoldable pub send_progress : ProgressNotification Json → Sess → Sess
  send_progress note =
      send_notification (codes "notifications/progress") (some (progress_to_json lib note))

  unfoldable pub is_cancelled : RequestId → Sess → Bool
  is_cancelled id s = has_id id s.cancelled_incoming

  abbrev pub call_progress : Option P → ProgressNotification Json → Sess → Sess
  call_progress none note s = s
  call_progress (some callback) note s = emit (progressed callback note) s

  abbrev pub progress_read : Attempt (Result Json (ProgressNotification Json)) → ℕ → Sess → Sess
  progress_read throws now s = emit escaped s
  progress_read (returns (err e)) now s = s
  progress_read (returns (ok note)) now s =
      call_progress (lookup note.progress_token s.progress_callbacks) note
        (record s { deadlines = reset_deadlines note.progress_token now s.deadlines })

  unfoldable pub handle_progress : Option Json → ℕ → Sess → Sess
  handle_progress none now s = s
  handle_progress (some params) now s = progress_read (progress_from_json lib params) now s

  abbrev pub cancelled_read : Attempt (Result Json CancelledNotification) → Sess → Sess
  cancelled_read throws s = emit escaped s
  cancelled_read (returns (err e)) s = s
  cancelled_read (returns (ok note)) s =
      if is_protected s.protected_request_id note.request_id then s else record s {
        cancelled_incoming = insert_id note.request_id (
            if leb max_tracked_cancellations (length s.cancelled_incoming)
            then []
            else s.cancelled_incoming);
      }

  unfoldable pub handle_cancelled : Option Json → Sess → Sess
  handle_cancelled none s = s
  handle_cancelled (some params) s = cancelled_read (cancelled_from_json lib params) s

  -- A request that a callback sends while it runs, and the time of that.
  pub record Sending : Type 0 where
    pub method : Text
    pub params : Option Json
    pub callback : K
    pub options : RequestOptions P
    pub now : ℕ

  unfoldable pub send_all : List Sending → Sess → Sess
  send_all [] s = s
  send_all (x ∷ xs) s = send_all xs (send_request x.method x.params x.callback x.options x.now s).0

  -- A callback that sends requests, as `reacts` says.
  abbrev pub run_reacting :
      (K → Result Json Json → List Sending) → RequestId → K → Result Json Json → Sess → Sess
  run_reacting reacts id callback result s =
      send_all (reacts callback result) (run_callback id callback result s)

  -- `handle_close`, with what running a callback does.
  abbrev pub close_running : (RequestId → K → Result Json Json → Sess → Sess) → Sess → Sess
  close_running run s =
      let cleared : Sess = record s {
        state = shut_down;
        deadlines = [];
        progress_callbacks = [];
      } in
      emit closed (
        fail_all_pending router_of set_router run
          (fail_with internal_error (codes "connection closed")) cleared)

  unfoldable pub handle_close : Sess → Sess
  handle_close s = close_running run_callback s
