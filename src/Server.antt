-- ===== src/Server.antt =====
-- src/core/session.cpp: `ServerSession`, what it adds to `Session`: the handlers of `initialize`
-- and `notifications/initialized`, and the check of incoming requests.
pub mod Handshake
pub mod Gate
use mcp_cpp.Common.{
  ℕ, Bool, true, false, not, ◌&&◌, ◌||◌, Option, none, some, List, [], ◌∷◌, ◌++◌, Text, codes,
  text_eq, starts_with, int_eq, if◌then◌else◌,
}
use mcp_cpp.Errors.{
  Error, code_value, fail_with, parse_error, invalid_request, invalid_params,
  connection_not_initialized, capability_not_supported, Result, ok, err,
}
use mcp_cpp.Json.{JsonLib}
use mcp_cpp.Messages.{JsonRpcRequest, response}
use mcp_cpp.Router.{HandlerOutcome, returned, set_request_handler, set_notification_handler}
use mcp_cpp.Session.{
  SessionState, uninitialized, initializing, operating, shut_down, derived_request,
  derived_notification, Setup, Sess, send_message, new_session, on_transport_error as report_error,
}
use mcp_cpp.Session.Handling.{Derived}

-- Which capabilities the server declares.
pub record ServerCapabilities : Type 0 where
  pub tools : Bool
  pub resources : Bool
  pub prompts : Bool
  pub logging : Bool
  pub completions : Bool
  pub tasks : Bool

-- `I` is `Implementation` and `Q` is `ClientCapabilities`.
pub record InitializeParams (I Q : Type 0) : Type 0 where
  pub protocol_version : Text
  pub capabilities : Q
  pub client_info : I

-- The options and the fields of a server session. `supported_versions` is a first version and the
-- others: `front()` of an empty vector has no meaning.
pub record ServerData (I Q : Type 0) : Type 0 where
  pub supported_versions : Text × List Text
  pub capabilities : ServerCapabilities
  pub allow_reinitialize : Bool
  pub client_info : Option I
  pub client_capabilities : Option Q

pub data ServerRequest : Type 0 where
  initialize : ServerRequest

pub data ServerNotification : Type 0 where
  initialized : ServerNotification

-- What a server session is built over, and the conversions of the `initialize` exchange: reading
-- its params, `err` with the text of a `json::exception`, and the result for a negotiated version.
pub record ServerTypes : Type 1 where
  pub lib : JsonLib
  pub I : Type 0
  pub Q : Type 0
  pub K : Type 0
  pub P : Type 0
  pub read_params : lib.Json → Result lib.Json (InitializeParams I Q)
  pub initialize_result : Text → lib.Json

abbrev pub server_setup : ServerTypes → Setup
server_setup S = record {
  lib = S.lib;
  U = ServerRequest;
  V = ServerNotification;
  K = S.K;
  P = S.P;
  X = ServerData S.I S.Q;
}

abbrev pub is_operating : SessionState → Bool
is_operating operating = true
is_operating _ = false

abbrev pub is_uninitialized : SessionState → Bool
is_uninitialized uninitialized = true
is_uninitialized _ = false

-- The loop over the supported versions.
unfoldable pub find_version : Text → Text → List Text → Text
find_version negotiated requested [] = negotiated
find_version negotiated requested (v ∷ vs) =
    if text_eq v requested then v else find_version negotiated requested vs

unfoldable pub negotiate : Text → Text × List Text → Text
negotiate requested (preferred, others) = find_version preferred requested (preferred ∷ others)

unfoldable pub first_undeclared : Text → List (Text × Bool) → Bool
first_undeclared method [] = false
first_undeclared method ((pre, declared) ∷ gates) =
    if starts_with pre method && not declared then true else first_undeclared method gates

abbrev pub gates : ServerCapabilities → List (Text × Bool)
gates c =
    (codes "tools/", c.tools)
    ∷ (codes "resources/", c.resources)
    ∷ (codes "prompts/", c.prompts)
    ∷ (codes "logging/", c.logging)
    ∷ (codes "completion/", c.completions)
    ∷ (codes "tasks/", c.tasks)
    ∷ []

module _ (S : ServerTypes) where
  open S use {lib, I, Q, read_params, initialize_result}
  open S.lib use {Json}

  unfoldable pub check_incoming_request :
      Sess (server_setup S) → JsonRpcRequest Json → Option (Error Json)
  check_incoming_request s r =
      if text_eq r.method (codes "initialize") || text_eq r.method (codes "ping")
      then none
      else if not (is_operating s.state)
      then some (fail_with connection_not_initialized (codes "session is not initialized"))
      else if first_undeclared r.method (gates s.extra.capabilities)
      then some
          (fail_with capability_not_supported (codes "capability not supported: " ++ r.method))
      else none

  abbrev pub set_peer : Option I → Option Q → Sess (server_setup S) → Sess (server_setup S)
  set_peer info capabilities s = record s {
    extra = record s.extra { client_info = info; client_capabilities = capabilities };
  }

  abbrev pub accept_params :
      Result Json (InitializeParams I Q)
      → Sess (server_setup S)
      → Sess (server_setup S) × HandlerOutcome Json
  accept_params (err e) s = (
    s,
    returned (err (fail_with invalid_params (codes "invalid initialize params: " ++ e.message))),
  )
  accept_params (ok parsed) s = (
    record (set_peer (some parsed.client_info) (some parsed.capabilities) s) {
      state = initializing;
    },
    returned
        (ok (initialize_result (negotiate parsed.protocol_version s.extra.supported_versions))),
  )

  abbrev pub initialize_with :
      Option Json → Sess (server_setup S) → Sess (server_setup S) × HandlerOutcome Json
  initialize_with none s =
      (s, returned (err (fail_with invalid_params (codes "initialize requires params"))))
  initialize_with (some params) s = accept_params (read_params params) s

  -- Under `allow_reinitialize`, a second `initialize` starts a new logical session.
  abbrev pub initialize_again :
      Bool → Option Json → Sess (server_setup S) → Sess (server_setup S) × HandlerOutcome Json
  initialize_again true params s = initialize_with params (set_peer none none s)
  initialize_again false params s =
      (s, returned (err (fail_with invalid_request (codes "initialize already received"))))

  unfoldable pub handle_initialize :
      Option Json → Sess (server_setup S) → Sess (server_setup S) × HandlerOutcome Json
  handle_initialize params s =
      if is_uninitialized s.state
      then initialize_with params s
      else initialize_again s.extra.allow_reinitialize params s

  abbrev pub open_from : SessionState → Sess (server_setup S) → Sess (server_setup S)
  open_from initializing s = record s { state = operating }
  open_from _ s = s

  unfoldable pub handle_initialized : Sess (server_setup S) → Sess (server_setup S)
  handle_initialized s = open_from s.state s

  abbrev pub run_server_request :
      ServerRequest
      → Option Json
      → Sess (server_setup S)
      → Sess (server_setup S) × HandlerOutcome Json
  run_server_request initialize = handle_initialize

  abbrev pub run_server_notification :
      ServerNotification → Option Json → Sess (server_setup S) → Sess (server_setup S)
  run_server_notification initialized params s = handle_initialized s

  abbrev pub server_session : Derived (server_setup S)
  server_session = record {
    check_incoming_request = check_incoming_request;
    run_request = run_server_request;
    run_notification = run_server_notification;
  }

  -- Frames that are not read are answered with an error response without an id.
  unfoldable pub on_transport_error : Error Json → Sess (server_setup S) → Sess (server_setup S)
  on_transport_error e s =
      let answered =
        if int_eq e.code (code_value parse_error) || int_eq e.code (code_value invalid_request)
        then send_message (server_setup S)
            (response (record { id = none; result = none; error = some e })) s
        else s in
      report_error (server_setup S) e answered

  -- The constructor.
  unfoldable pub new_server_session : ServerData I Q → Sess (server_setup S)
  new_server_session x =
      let s = new_session (server_setup S) x in
      record s {
        router =
            set_notification_handler
              (set_request_handler s.router (codes "initialize") (derived_request initialize))
              (codes "notifications/initialized") (derived_notification initialized);
      }
