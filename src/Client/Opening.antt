-- ===== src/Client/Opening.antt =====
-- src/core/session.cpp: what `ClientSession::initialize` comes to, alone and with a server session.
use mcp_cpp.Common.{
  ℕ, pos, ltb, true, false, Option, none, some, [], ◌∷◌, ◌++◌, Text, codes, text_eq_refl, ◌≡◌, ◌⊎◌,
  inl, inr, refl, Bool-cases, ◌∙◌, if◌then◌else◌,
}
use mcp_cpp.Errors.{Result, ok, err}
use mcp_cpp.Messages.{int_id, request, notification}
use mcp_cpp.Router.{returned}
use mcp_cpp.Session.{
  initializing, Setup, RequestOptions, track_deadline, operating, Sess, sent, disconnected,
  send_request,
}
use mcp_cpp.Server.{
  ServerTypes, InitializeParams, server_setup, is_operating, is_uninitialized, negotiate,
  handle_initialize, handle_initialized,
}
use mcp_cpp.Server.Handshake.{offers, negotiate-offers}
use mcp_cpp.Client.{
  InitializeResult, ClientTypes, client_setup, begin_initialize, has_version, versions, open_with,
  finish_initialize,
}

-- A request without progress keeps the fields of the derived class and is sent.
send_request-kept :
    (T : Setup) (method : Text) (params : Option T.lib.Json) (callback : T.K) (t : Option ℕ)
    (now : ℕ) (s : Sess T)
    → let options : RequestOptions T.P = record {
      timeout = t;
      progress_token = none;
      on_progress = none;
    } in
      ((send_request T method params callback options now s).0.extra ≡ s.extra)
      × ((send_request T method params callback options now s).0.trace
          ≡ s.trace
            ++ sent (
                request (record {
                  id = int_id (pos s.next_request_id);
                  method = method;
                  params = params;
                }))
              ∷ [])
unfolding send_request
send_request-kept T method params callback none now s = (refl, refl)
send_request-kept T method params callback (some n) now s = elim (Bool-cases (ltb 0 n)) [
  | inl e ↦ rw (track_deadline, e) (refl, refl)
  | inr e ↦ rw (track_deadline, e) (refl, refl)
]

module _ (S : ClientTypes) where
  open S use {I, Q, read_result}
  open S.lib use {Json}

  -- What `initialize` may come to: the session is open, or it is not and nothing was sent.
  abbrev pub IsSettled :
      Sess (client_setup S) → Sess (client_setup S) × Result Json (InitializeResult I Q) → Type 0
  IsSettled s (s', ok result) =
      (s'.state ≡ operating)
      × (has_version result.protocol_version (versions s.extra.supported_versions) ≡ true)
      × (s'.extra.server_info ≡ some result.server_info)
      × (s'.extra.server_capabilities ≡ some result.capabilities)
      × (s'.trace
          ≡ s.trace
            ++ sent (
                notification (record { method = codes "notifications/initialized"; params = none }))
              ∷ [])
  IsSettled s (s', err e) =
      (is_operating s'.state ≡ false)
      × (s'.extra ≡ s.extra)
      × ((s'.trace ≡ s.trace) ⊎ (s'.trace ≡ s.trace ++ disconnected ∷ []))

module _ (S : ServerTypes) (I Q K P : Type 0) (initialize_params : Text → S.lib.Json)
    (read_result : S.lib.Json → Result S.lib.Json (InitializeResult I Q)) where
  -- The client session over the JSON library of the server session.
  abbrev pub peer : ClientTypes
  peer = record {
    lib = S.lib;
    I = I;
    Q = Q;
    K = K;
    P = P;
    initialize_params = initialize_params;
    read_result = read_result;
  }

  begin_initialize-kept :
      (slot : K) (now : ℕ) (client : Sess (client_setup peer))
      → is_uninitialized client.state ≡ true
      → ((begin_initialize peer slot now client).0.extra ≡ client.extra)
        × ((begin_initialize peer slot now client).0.trace
            ≡ client.trace
              ++ sent (
                  request (record {
                    id = int_id (pos client.next_request_id);
                    method = codes "initialize";
                    params = some (initialize_params client.extra.supported_versions.0);
                  }))
                ∷ [])
  unfolding begin_initialize
  begin_initialize-kept slot now client u =
      let timeout = client.extra.initialize_timeout in
      rw u (
        send_request-kept (client_setup peer) (codes "initialize")
          (some (initialize_params client.extra.supported_versions.0)) slot
          (if ltb 0 timeout then some timeout else none) now
          (record client { state = initializing }))

  -- A new client session sends the `initialize` request with its first version. A new server
  -- session that supports this version answers the params of that request with a result for it, the
  -- client's `initialize` with that response leaves the client session operating, and
  -- the initialized notification leaves the server session operating. Both sides are to read the
  -- version of the params and of the result as it was written.
  handshake_opens :
      (slot : K) (now : ℕ) (server : Sess (server_setup S)) (client : Sess (client_setup peer))
      (params : InitializeParams S.I S.Q) (result : InitializeResult I Q)
      → S.read_params (initialize_params client.extra.supported_versions.0) ≡ ok params
      → params.protocol_version ≡ client.extra.supported_versions.0
      → read_result (S.initialize_result client.extra.supported_versions.0) ≡ ok result
      → result.protocol_version ≡ client.extra.supported_versions.0
      → is_uninitialized client.state ≡ true
      → is_uninitialized server.state ≡ true
      → offers client.extra.supported_versions.0 (versions server.extra.supported_versions) ≡ true
      → let version = client.extra.supported_versions.0 in
        let asking = (begin_initialize peer slot now client).0 in
        let answered = handle_initialize S (some (initialize_params version)) server in
        (asking.trace
          ≡ client.trace
            ++ sent (
                request (record {
                  id = int_id (pos client.next_request_id);
                  method = codes "initialize";
                  params = some (initialize_params version);
                }))
              ∷ [])
        × (answered.1 ≡ returned (ok (S.initialize_result version)))
        × ((finish_initialize peer (ok (S.initialize_result version)) asking).0.state ≡ operating)
        × ((handle_initialized S answered.0).state ≡ operating)
  unfolding handle_initialize handle_initialized finish_initialize open_with has_version
  handshake_opens slot now server client params result rp pv rr rv uc u o =
      let version = client.extra.supported_versions.0 in
      let chosen : negotiate version server.extra.supported_versions ≡ version =
        negotiate-offers version server.extra.supported_versions ∙ rw o refl in
      (
        (begin_initialize-kept slot now client uc).1,
        rw (u, rp, pv, chosen) refl,
        rw (rr, (begin_initialize-kept slot now client uc).0, rv, text_eq_refl version) refl,
        rw (u, rp) refl,
      )
