-- ===== src/Server/Handshake.antt =====
-- src/core/session.cpp: the handlers of a server session, and the account of its calls.
use mcp_cpp.Common.{
  Bool, true, false, ◌||◌, Option, none, some, List, [], ◌∷◌, Text, text_eq, text_eq_iff,
  if◌then◌else◌, ◌≡◌, inl, inr, refl, Bool-cases,
}
use mcp_cpp.Errors.{ok, err}
use mcp_cpp.Messages.{RequestId}
use mcp_cpp.Session.{SessionState, uninitialized, initializing, operating, shut_down, Sess}
use mcp_cpp.Session.Ledger.{Ledger}
use mcp_cpp.Session.Once.{Books, KeepsBooks}
use mcp_cpp.Server.{
  ServerTypes, ServerRequest, initialize, ServerNotification, initialized, server_setup,
  is_uninitialized, find_version, negotiate, set_peer, accept_params, initialize_with,
  initialize_again, handle_initialize, open_from, handle_initialized, run_server_request,
  run_server_notification, server_session,
}

unfoldable pub offers : Text → List Text → Bool
offers requested [] = false
offers requested (v ∷ vs) = text_eq v requested || offers requested vs

find_version-offers :
    (negotiated requested : Text) (vs : List Text)
    → find_version negotiated requested vs ≡ (if offers requested vs then requested else negotiated)
unfolding find_version offers
find_version-offers negotiated requested [] = refl
find_version-offers negotiated requested (v ∷ vs) = elim (Bool-cases (text_eq v requested)) [
  | inl e ↦ rw (e, find_version, offers) ((text_eq_iff v requested).0 e)
  | inr e ↦ rw (e, find_version, offers) (find_version-offers negotiated requested vs)
]

-- The negotiated version is the requested one if the server supports it, and else the server's
-- first.
pub negotiate-offers :
    (requested : Text) (versions : Text × List Text)
    → negotiate requested versions
      ≡ (if offers requested (versions.0 ∷ versions.1) then requested else versions.0)
unfolding negotiate
negotiate-offers requested (preferred, others) =
    find_version-offers preferred requested (preferred ∷ others)

module _ (S : ServerTypes) where
  open S.lib use {Json}

  initialize_with-Ledger :
      (params : Option Json) (s : Sess (server_setup S)) (id : RequestId)
      → Ledger (server_setup S) id s
      → Ledger (server_setup S) id (initialize_with S params s).0
  initialize_with-Ledger none s id h = h
  initialize_with-Ledger (some params) s id h =
      (elim (S.read_params params) as (λ r. Ledger (server_setup S) id (accept_params S r s).0) [
        | ok parsed ↦ h
        | err e ↦ h
      ])

  initialize_again-Ledger :
      (allowed : Bool) (params : Option Json) (s : Sess (server_setup S)) (id : RequestId)
      → Ledger (server_setup S) id s
      → Ledger (server_setup S) id (initialize_again S allowed params s).0
  initialize_again-Ledger true params s id h =
      initialize_with-Ledger params (set_peer S none none s) id h
  initialize_again-Ledger false params s id h = h

  handle_initialize-Ledger :
      (params : Option Json) (s : Sess (server_setup S)) (id : RequestId)
      → Ledger (server_setup S) id s
      → Ledger (server_setup S) id (handle_initialize S params s).0
  unfolding handle_initialize
  handle_initialize-Ledger params s id h = elim (Bool-cases (is_uninitialized s.state)) [
    | inl e ↦ rw (e, handle_initialize) (initialize_with-Ledger params s id h)
    | inr e ↦
        rw (e, handle_initialize) (initialize_again-Ledger s.extra.allow_reinitialize params s id h)
  ]

  open_from-Ledger :
      (state : SessionState) (s : Sess (server_setup S)) (id : RequestId)
      → Ledger (server_setup S) id s
      → Ledger (server_setup S) id (open_from S state s)
  open_from-Ledger initializing s id h = h
  open_from-Ledger uninitialized s id h = h
  open_from-Ledger operating s id h = h
  open_from-Ledger shut_down s id h = h

  run_server_request-Books :
      (u : ServerRequest) (params : Option Json) (s : Sess (server_setup S))
      → Books (server_setup S) s
      → Books (server_setup S) (run_server_request S u params s).0
  run_server_request-Books initialize params s b = λ id. handle_initialize-Ledger params s id (b id)

  run_server_notification-Books :
      (v : ServerNotification) (params : Option Json) (s : Sess (server_setup S))
      → Books (server_setup S) s
      → Books (server_setup S) (run_server_notification S v params s)
  unfolding handle_initialized
  run_server_notification-Books initialized params s b = λ id. open_from-Ledger s.state s id (b id)

  -- The handlers of a server session keep the account of its calls.
  server_session-KeepsBooks : KeepsBooks (server_setup S) (server_session S)
  server_session-KeepsBooks = record {
    request_keeps = run_server_request-Books;
    notification_keeps = run_server_notification-Books;
  }
