-- ===== src/Http/SessionServer.antt =====
-- src/transport/http_session_server.cpp: the sessions of an HTTP server. `Sessions` is what it uses
-- of a `ServerSession`: an object with an identity, whose message handler and close handler the
-- transport calls once `connect` has set them. Requests are handled one after the other; what a
-- request reads from outside (the clock, the random session id, what the session factory returns)
-- is its `Arrival`, and what it does outside are its effects. The callback for closed sessions is
-- set. The table lists its sessions in the order in which they came, where `std::map` goes by the id.
pub mod Ledger
pub mod Lifetimes
pub mod Refusals
use mcp_cpp.Common.{
  ℕ, ◌+◌, ℤ, pos, negsuc, Bool, true, false, not, ◌&&◌, Option, none, some, List, [], ◌∷◌, ◌++◌,
  Text, codes, length, ltb, if◌then◌else◌, text_eq, ◌≡◌,
}
use mcp_cpp.Common.Dict.{Dict, lookup, insert, erase, text_key}
use mcp_cpp.Errors.{Error, fail_with, invalid_request, Result, ok, err}
use mcp_cpp.Json.{JsonLib}
use mcp_cpp.Messages.{
  Message, request, notification, response, Attempt, returns, throws, serialize_message,
}
use mcp_cpp.Messages.Frames.{ParsedFrame, parse_frame}
use mcp_cpp.Http.Channel.{SseChannel, Stream, new_channel, enqueue, attach_stream, shutdown}
use mcp_cpp.Http.Sse.{SseEvent}
use mcp_cpp.Http.Head.{HttpHead, HeaderList, header, header_contains, or_empty}
use mcp_cpp.Http.Post.{
  Capture, error_response, new_capture, try_capture, add_error_response, capture_empty,
  capture_body,
}

pub record Sessions (J : Type 0) : Type 1 where
  pub Session : Type 0
  -- The object, by its address.
  pub address : Session → ℕ
  -- The message handler: the session after it, and what it sends through the transport.
  pub on_message : Message J → Session → Session × List (Message J)
  pub on_close : Session → Session
  pub connect : Session → Session

-- Handling a message does not make another object of the session.
pub record SessionsLaws {J : Type 0} (S : Sessions J) : Type 0 where
  pub address-on_message :
      (m : Message J) (s : S.Session) → S.address (S.on_message m s).0 ≡ S.address s
  pub address-on_close : (s : S.Session) → S.address (S.on_close s) ≡ S.address s
  pub address-connect : (s : S.Session) → S.address (S.connect s) ≡ S.address s

pub record SessionTransport : Type 0 where
  pub channel : SseChannel
  pub closed : Bool

pub record Entry (S : Type 0) : Type 0 where
  pub transport : SessionTransport
  pub session : S
  pub last_activity : ℕ

pub record HttpSessionServerOptions : Type 0 where
  pub replay_buffer_size : ℕ
  pub sse_retry_ms : ℤ
  pub session_idle_timeout : ℤ
  pub allow_client_termination : Bool

pub data Effect (S : Type 0) : Type 0 where
  -- `write_simple`: status, reason, body, content type and extra headers.
  writes : ℕ → Text → Text → Text → HeaderList → Effect S
  -- `attach_stream`: the stream and its initial event.
  streams : Option (Stream × SseEvent) → Effect S
  -- `on_session_closed_`
  reports_closed : S → Effect S
  -- The call of `factory_` and what it returns.
  asks_factory : Option S → Effect S
  -- An exception of the JSON library leaves `handle_request`.
  escapes : Effect S

pub record Arrival (S : Type 0) : Type 0 where
  pub head : HttpHead
  pub body : Text
  pub now : ℕ
  -- What the factory returns and what `generate_session_id` returns, where they are called.
  pub made : Option S
  pub session_id : Text

abbrev pub session_header : Text
session_header = codes "mcp-session-id"

-- `write_simple(fd, status, reason, body)`
abbrev pub plain : {S : Type 0} → ℕ → Text → Text → Effect S
plain status reason body = writes status reason body (codes "text/plain") []

-- `SessionRegistry`: the clock is `now`.
module _ {S : Type 0} where
  unfoldable pub create : Text → Entry S → Dict Text (Entry S) → Dict Text (Entry S)
  create id entry entries = insert id entry entries

  abbrev pub touch : ℕ → Entry S → Entry S
  touch now entry = record entry { last_activity = now }

  abbrev pub found_entry :
      ℕ → Text → Dict Text (Entry S) → Option (Entry S) → Option (Entry S) × Dict Text (Entry S)
  found_entry now id entries none = (none, entries)
  found_entry now id entries (some entry) =
      (some (touch now entry), insert id (touch now entry) entries)

  unfoldable pub find : ℕ → Text → Dict Text (Entry S) → Option (Entry S) × Dict Text (Entry S)
  find now id entries = found_entry now id entries (lookup id entries)

  unfoldable pub remove : Text → Dict Text (Entry S) → Option (Entry S) × Dict Text (Entry S)
  remove id entries = (lookup id entries, erase id entries)

  -- The loop of `remove_idle` for a positive timeout: the evicted and those that stay.
  unfoldable pub sweep : ℕ → ℕ → Dict Text (Entry S) → List (Entry S) × Dict Text (Entry S)
  sweep now timeout [] = ([], [])
  sweep now timeout ((id, entry) ∷ entries) =
      let rest = sweep now timeout entries in
      if ltb (entry.last_activity + timeout) now
      then (entry ∷ rest.0, rest.1)
      else (rest.0, (id, entry) ∷ rest.1)

  unfoldable pub remove_idle : ℕ → ℤ → Dict Text (Entry S) → List (Entry S) × Dict Text (Entry S)
  remove_idle now (negsuc n) entries = ([], entries)
  remove_idle now (pos timeout) entries =
      if ltb 0 timeout then sweep now timeout entries else ([], entries)

  unfoldable pub remove_all : Dict Text (Entry S) → List (Entry S) × Dict Text (Entry S)
  remove_all [] = ([], [])
  remove_all ((id, entry) ∷ entries) = (entry ∷ (remove_all entries).0, [])

  unfoldable pub session_count : Dict Text (Entry S) → ℕ
  session_count entries = length entries

unfoldable pub has_initialize : {J : Type 0} → List (Message J) → Bool
has_initialize [] = false
has_initialize (request r ∷ messages) =
    if text_eq r.method (codes "initialize") then true else has_initialize messages
has_initialize (notification n ∷ messages) = has_initialize messages
has_initialize (response r ∷ messages) = has_initialize messages

abbrev pub frame_contains_initialize : {J : Type 0} → ParsedFrame J → Bool
frame_contains_initialize frame = has_initialize frame.messages

module _ (L : JsonLib) (S : Sessions L.Json) where
  open L use {Json}
  open S use {Session, on_message, on_close, connect}

  -- `SessionTransport::send`, on a thread with or without a capture.
  abbrev pub send_on :
      Message Json → SessionTransport → Bool × Capture Json → SessionTransport × Capture Json
  send_on m t (true, c) = (t, c)
  send_on m t (false, c) = (record t { channel = enqueue (serialize_message L m) t.channel }, c)

  unfoldable pub send :
      Message Json → SessionTransport × Capture Json → SessionTransport × Capture Json
  send m tc = send_on m tc.0 (try_capture L m tc.1)

  unfoldable pub send_batch :
      List (Message Json) → SessionTransport × Capture Json → SessionTransport × Capture Json
  send_batch [] tc = tc
  send_batch (m ∷ ms) tc = send_batch ms (send m tc)

  -- `SessionTransport::deliver`, with what the session sends.
  unfoldable pub deliver :
      Message Json → Entry Session × Capture Json → Entry Session × Capture Json
  deliver m (entry, c) =
      let handled = on_message m entry.session in
      let sent = send_batch handled.1 (entry.transport, c) in
      (record entry { transport = sent.0; session = handled.0 }, sent.1)

  unfoldable pub deliver_all :
      List (Message Json) → Entry Session × Capture Json → Entry Session × Capture Json
  deliver_all [] ec = ec
  deliver_all (m ∷ ms) ec = deliver_all ms (deliver m ec)

  -- `SessionTransport::disconnect`: the entry after it.
  abbrev pub disconnect_open : Bool → Entry Session → Entry Session
  disconnect_open true entry = entry
  disconnect_open false entry = record entry {
    transport = record { channel = shutdown entry.transport.channel; closed = true };
    session = on_close entry.session;
  }

  unfoldable pub disconnect : Entry Session → Entry Session
  disconnect entry = disconnect_open entry.transport.closed entry

  abbrev pub closing : Entry Session → Effect Session
  closing entry = reports_closed (disconnect entry).session

  unfoldable pub close_all : List (Entry Session) → List (Effect Session)
  close_all [] = []
  close_all (entry ∷ entries) = closing entry ∷ close_all entries

  abbrev pub Entries : Type 0
  Entries = Dict Text (Entry Session)

  -- `HttpSessionServer::stop`, while the endpoint runs.
  unfoldable pub stop : Entries → Entries × List (Effect Session)
  stop entries = let removed = remove_all entries in (removed.1, close_all removed.0)

  abbrev pub write_jsonrpc_error : ℕ → Text → Error Json → Effect Session
  write_jsonrpc_error status reason e =
      writes status reason (serialize_message L (error_response e)) (codes "application/json") []

  abbrev pub delete_removed : Option (Entry Session) × Entries → Entries × List (Effect Session)
  delete_removed (none, entries) =
      (entries, plain 404 (codes "Not Found") (codes "unknown session") ∷ [])
  delete_removed (some entry, entries) = (entries, closing entry ∷ plain 200 (codes "OK") [] ∷ [])

  unfoldable pub handle_delete :
      HttpSessionServerOptions → Text → Entries → Entries × List (Effect Session)
  handle_delete options [] entries =
      (entries, plain 400 (codes "Bad Request") (codes "Mcp-Session-Id required") ∷ [])
  handle_delete options (c ∷ id) entries =
      if not options.allow_client_termination
      then (
        entries,
        plain 405 (codes "Method Not Allowed") (codes "session termination disabled") ∷ [],
      )
      else delete_removed (remove (c ∷ id) entries)

  abbrev pub get_attached :
      Text
      → Entry Session
      → Entries
      → Option (Stream × SseEvent × SseChannel)
      → Entries × List (Effect Session)
  get_attached id entry entries none = (entries, streams none ∷ [])
  get_attached id entry entries (some (stream, event, channel)) = (
    insert id (record entry { transport = record entry.transport { channel = channel } }) entries,
    streams (some (stream, event)) ∷ [],
  )

  abbrev pub get_found :
      (Text → ℕ) → Text → Text → Option (Entry Session) × Entries → Entries × List (Effect Session)
  get_found strtoull id last_event_id (none, entries) =
      (entries, plain 404 (codes "Not Found") (codes "unknown session") ∷ [])
  get_found strtoull id last_event_id (some entry, entries) =
      get_attached id entry entries (attach_stream strtoull last_event_id entry.transport.channel)

  abbrev pub get_with : (Text → ℕ) → ℕ → HttpHead → Text → Entries → Entries × List (Effect Session)
  get_with strtoull now head [] entries =
      (entries, plain 400 (codes "Bad Request") (codes "Mcp-Session-Id required") ∷ [])
  get_with strtoull now head (c ∷ id) entries =
      get_found strtoull (c ∷ id) (header head (codes "last-event-id")) (find now (c ∷ id) entries)

  unfoldable pub handle_get :
      (Text → ℕ) → ℕ → HttpHead → Text → Entries → Entries × List (Effect Session)
  handle_get strtoull now head id entries =
      if not (header_contains head (codes "accept") (codes "text/event-stream"))
      then (entries, plain 406 (codes "Not Acceptable") (codes "expected text/event-stream") ∷ [])
      else get_with strtoull now head id entries

  unfoldable pub add_errors : List (Error Json) → Capture Json → Capture Json
  add_errors [] c = c
  add_errors (e ∷ es) c = add_errors es (add_error_response L e c)

  unfoldable pub answer : Bool → HeaderList → Capture Json → Effect Session
  answer batch extra c =
      if capture_empty L c
      then writes 202 (codes "Accepted") [] (codes "text/plain") extra
      else writes 200 (codes "OK") (or_empty (capture_body L batch c)) (codes "application/json")
          extra

  -- The frame goes to the session of the entry, and the captured responses are written.
  unfoldable pub post_to :
      ParsedFrame Json
      → HeaderList
      → Text
      → Entry Session
      → Entries
      → Entries × List (Effect Session)
  post_to frame extra id entry entries =
      let done = deliver_all frame.messages (entry, add_errors frame.item_errors (new_capture L)) in
      (insert id done.0 entries, answer frame.was_batch extra done.1 ∷ [])

  abbrev pub new_entry : HttpSessionServerOptions → ℕ → Session → Entry Session
  new_entry options now s = record {
    transport = record {
      channel = new_channel options.replay_buffer_size options.sse_retry_ms;
      closed = false;
    };
    session = connect s;
    last_activity = now;
  }

  abbrev pub after_effects :
      List (Effect Session) → Entries × List (Effect Session) → Entries × List (Effect Session)
  after_effects effects handled = (handled.0, effects ++ handled.1)

  -- A POST without a session id.
  abbrev pub post_made :
      HttpSessionServerOptions
      → Arrival Session
      → ParsedFrame Json
      → Option Session
      → Entries
      → Entries × List (Effect Session)
  post_made options a frame none entries = (
    entries,
    asks_factory none
        ∷ plain 500 (codes "Internal Server Error") (codes "session factory failed")
        ∷ [],
  )
  post_made options a frame (some s) entries =
      let entry = new_entry options a.now s in
      after_effects (asks_factory (some s) ∷ []) (
        post_to frame ((codes "Mcp-Session-Id", a.session_id) ∷ []) a.session_id entry
          (create a.session_id entry entries))

  unfoldable pub post_new :
      HttpSessionServerOptions
      → Arrival Session
      → ParsedFrame Json
      → Entries
      → Entries × List (Effect Session)
  post_new options a frame entries =
      if not (frame_contains_initialize frame)
      then (
        entries,
        write_jsonrpc_error 400 (codes "Bad Request") (
              fail_with invalid_request (codes "Mcp-Session-Id header required (initialize first)"))
            ∷ [],
      )
      else post_made options a frame a.made entries

  abbrev pub post_found :
      ParsedFrame Json → Text → Option (Entry Session) × Entries → Entries × List (Effect Session)
  post_found frame id (none, entries) =
      (entries, plain 404 (codes "Not Found") (codes "unknown or expired session") ∷ [])
  post_found frame id (some entry, entries) = post_to frame [] id entry entries

  abbrev pub post_frame :
      HttpSessionServerOptions
      → Arrival Session
      → Text
      → Entries
      → Attempt (Result Json (ParsedFrame Json))
      → Entries × List (Effect Session)
  post_frame options a id entries throws = (entries, escapes ∷ [])
  post_frame options a id entries (returns (err e)) =
      (entries, write_jsonrpc_error 400 (codes "Bad Request") e ∷ [])
  post_frame options a [] entries (returns (ok frame)) = post_new options a frame entries
  post_frame options a (c ∷ id) entries (returns (ok frame)) =
      post_found frame (c ∷ id) (find a.now (c ∷ id) entries)

  unfoldable pub handle_post :
      HttpSessionServerOptions → Arrival Session → Text → Entries → Entries × List (Effect Session)
  handle_post options a id entries = post_frame options a id entries (parse_frame L a.body)

  -- What follows the sweep.
  unfoldable pub handle_swept :
      (Text → ℕ)
      → HttpSessionServerOptions
      → Arrival Session
      → Entries
      → Entries × List (Effect Session)
  handle_swept strtoull options a entries =
      let id = header a.head session_header in
      if text_eq a.head.method (codes "DELETE")
      then handle_delete options id entries
      else if text_eq a.head.method (codes "GET")
      then handle_get strtoull a.now a.head id entries
      else if not (text_eq a.head.method (codes "POST"))
      then (entries, plain 405 (codes "Method Not Allowed") (codes "use POST, GET, or DELETE") ∷ [])
      else handle_post options a id entries

  unfoldable pub handle_request :
      (Text → ℕ)
      → HttpSessionServerOptions
      → Arrival Session
      → Entries
      → Entries × List (Effect Session)
  handle_request strtoull options a entries =
      let swept = remove_idle a.now options.session_idle_timeout entries in
      after_effects (close_all swept.0) (handle_swept strtoull options a swept.1)
