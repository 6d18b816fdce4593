-- ===== src/Client.antt =====
-- src/core/session.cpp: `ClientSession`. `initialize` waits for the response, so it is two steps:
-- what it does until it waits, and what it does with the response once the callback `slot` has it.
pub mod Opening
use mcp_cpp.Common.{
  ℕ, Bool, true, false, not, ◌||◌, Option, none, some, List, [], ◌∷◌, ◌++◌, Text, codes, text_eq,
  ltb, if◌then◌else◌,
}
use mcp_cpp.Errors.{
  Error, fail_with, invalid_request, internal_error, connection_not_initialized,
  capability_not_supported, Result, ok, err,
}
use mcp_cpp.Json.{JsonLib}
use mcp_cpp.Messages.{JsonRpcRequest}
use mcp_cpp.Router.{HandlerOutcome}
use mcp_cpp.Session.{
  uninitialized, initializing, operating, Setup, Sess, new_session, send_request, send_notification,
  disconnect,
}
use mcp_cpp.Session.Handling.{Derived}
use mcp_cpp.Server.{is_operating, is_uninitialized, first_undeclared}

-- Which capabilities the client declares.
pub record ClientCapabilities : Type 0 where
  pub sampling : Bool
  pub roots : Bool
  pub elicitation : Bool
  pub tasks : Bool

-- `I` is `Implementation` and `Q` is `ServerCapabilities`.
pub record InitializeResult (I Q : Type 0) : Type 0 where
  pub protocol_version : Text
  pub capabilities : Q
  pub server_info : I
  pub instructions : Option Text

-- The options and the fields of a client session. `supported_versions` is a first version and the
-- others: `front()` of an empty vector has no meaning.
pub record ClientData (I Q : Type 0) : Type 0 where
  pub supported_versions : Text × List Text
  pub capabilities : ClientCapabilities
  pub initialize_timeout : ℕ
  pub server_info : Option I
  pub server_capabilities : Option Q

-- A client session adds no handlers.
pub data NoHandler : Type 0 where

-- What a client session is built over, and the conversions of the `initialize` exchange: its params
-- with a version, and reading its result, `err` with the text of a `json::exception`.
pub record ClientTypes : Type 1 where
  pub lib : JsonLib
  pub I : Type 0
  pub Q : Type 0
  pub K : Type 0
  pub P : Type 0
  pub initialize_params : Text → lib.Json
  pub read_result : lib.Json → Result lib.Json (InitializeResult I Q)

abbrev pub client_setup : ClientTypes → Setup
client_setup S = record {
  lib = S.lib;
  U = NoHandler;
  V = NoHandler;
  K = S.K;
  P = S.P;
  X = ClientData S.I S.Q;
}

-- `std::find` over the supported versions.
unfoldable pub has_version : Text → List Text → Bool
has_version version [] = false
has_version version (v ∷ vs) = text_eq v version || has_version version vs

abbrev pub versions : Text × List Text → List Text
versions (preferred, others) = preferred ∷ others

abbrev pub gates : ClientCapabilities → List (Text × Bool)
gates c =
    (codes "sampling/", c.sampling)
    ∷ (codes "roots/", c.roots)
    ∷ (codes "elicitation/", c.elicitation)
    ∷ (codes "tasks/", c.tasks)
    ∷ []

module _ (S : ClientTypes) where
  open S use {lib, I, Q, K, initialize_params, read_result}
  open S.lib use {Json}

  abbrev Client : Type 0
  Client = Sess (client_setup S)

  -- `initialize` until it waits; an error is what it returns at once.
  unfoldable pub begin_initialize : K → ℕ → Client → Client × Option (Error Json)
  begin_initialize slot now s =
      let timeout = s.extra.initialize_timeout in
      let asked =
        (send_request (client_setup S) (codes "initialize")
          (some (initialize_params s.extra.supported_versions.0)) slot
          (record {
            timeout = if ltb 0 timeout then some timeout else none;
            progress_token = none;
            on_progress = none;
          })
          now (record s { state = initializing })).0 in
      if not (is_uninitialized s.state)
      then (s, some (fail_with invalid_request (codes "session already initialized")))
      else (asked, none)

  unfoldable pub open_with : InitializeResult I Q → Client → Client
  open_with result s =
      record (send_notification (client_setup S) (codes "notifications/initialized") none
        (record s {
          extra = record s.extra {
            server_info = some result.server_info;
            server_capabilities = some result.capabilities;
          };
        })) { state = operating }

  abbrev pub accept_result :
      Result Json (InitializeResult I Q) → Client → Client × Result Json (InitializeResult I Q)
  accept_result (err e) s = (
    record s { state = uninitialized },
    err (fail_with internal_error (codes "invalid initialize result: " ++ e.message)),
  )
  accept_result (ok result) s =
      if not (has_version result.protocol_version (versions s.extra.supported_versions))
      then (
        disconnect (client_setup S) s,
        err (
            fail_with invalid_request
              (codes "unsupported protocol version: " ++ result.protocol_version)),
      )
      else (open_with result s, ok result)

  -- `initialize` with the response that it waited for.
  unfoldable pub finish_initialize :
      Result Json Json → Client → Client × Result Json (InitializeResult I Q)
  finish_initialize (err e) s = (record s { state = uninitialized }, err e)
  finish_initialize (ok j) s = accept_result (read_result j) s

  unfoldable pub check_incoming_request : Client → JsonRpcRequest Json → Option (Error Json)
  check_incoming_request s r =
      if text_eq r.method (codes "ping")
      then none
      else if not (is_operating s.state)
      then some (fail_with connection_not_initialized (codes "session is not initialized"))
      else if first_undeclared r.method (gates s.extra.capabilities)
      then some
          (fail_with capability_not_supported (codes "capability not supported: " ++ r.method))
      else none

  abbrev run_no_request : NoHandler → Option Json → Client → Client × HandlerOutcome Json
  run_no_request n = elim n [ ]

  abbrev run_no_notification : NoHandler → Option Json → Client → Client
  run_no_notification n = elim n [ ]

  abbrev pub client_session : Derived (client_setup S)
  client_session = record {
    check_incoming_request = check_incoming_request;
    run_request = run_no_request;
    run_notification = run_no_notification;
  }

  -- The constructor.
  unfoldable pub new_client_session : ClientData I Q → Client
  new_client_session x = new_session (client_setup S) x
