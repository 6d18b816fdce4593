-- ===== src/Http/SessionServer/Refusals.antt =====
-- src/transport/http_session_server.cpp: requests for sessions that are not there.
use mcp_cpp.Common.{
  ℕ, ◌≤◌, none, List, [], ◌∷◌, ◌++◌, Text, codes, text_eq, ◌≡◌, refl, ap, arith, Bool-cases, inl,
  inr,
}
use mcp_cpp.Common.Dict.{Dict, lookup, erase_absent, text_key}
use mcp_cpp.Errors.{Result, ok, err}
use mcp_cpp.Json.{JsonLib}
use mcp_cpp.Messages.{Attempt, returns, throws}
use mcp_cpp.Messages.Frames.{ParsedFrame, parse_frame}
use mcp_cpp.Http.Head.{HttpHead, header, header_contains}
use mcp_cpp.Http.SessionServer.{
  Sessions, Entry, HttpSessionServerOptions, Effect, writes, escapes, Arrival, find, remove,
  handle_delete, handle_get, post_frame, handle_post, handle_swept, handle_request, remove_idle,
  close_all, session_header,
}

-- One response with an error status, or an exception of the JSON library.
abbrev pub IsRefusal : {S : Type 0} → List (Effect S) → Type 0
IsRefusal (writes status reason body type extra ∷ []) = 400 ≤ status
IsRefusal (escapes ∷ []) = Unit
IsRefusal _ = ⊥

module _ (L : JsonLib) (S : Sessions L.Json) (strtoull : Text → ℕ)
    (options : HttpSessionServerOptions) where
  open S use {Session}

  abbrev pub Refuses :
      Dict Text (Entry Session) → Dict Text (Entry Session) × List (Effect Session) → Type 0
  Refuses entries after = (after.0 ≡ entries) × IsRefusal after.1

  handle_delete-unknown :
      (c : ℕ) (id : Text) (entries : Dict Text (Entry Session))
      → lookup (c ∷ id) entries ≡ none
      → Refuses entries (handle_delete L S options (c ∷ id) entries)
  unfolding handle_delete remove
  handle_delete-unknown c id entries h = elim (Bool-cases options.allow_client_termination) [
    | inl k ↦ rw (k, h) (erase_absent (c ∷ id) entries h, omega arith)
    | inr k ↦ rw k (refl, omega arith)
  ]

  handle_get-unknown :
      (now : ℕ) (head : HttpHead) (c : ℕ) (id : Text) (entries : Dict Text (Entry Session))
      → lookup (c ∷ id) entries ≡ none
      → Refuses entries (handle_get L S strtoull now head (c ∷ id) entries)
  unfolding handle_get find
  handle_get-unknown now head c id entries h =
      elim (Bool-cases (header_contains head (codes "accept") (codes "text/event-stream"))) [
        | inl k ↦ rw (k, h) (refl, omega arith)
        | inr k ↦ rw k (refl, omega arith)
      ]

  post_frame-unknown :
      (a : Arrival Session) (c : ℕ) (id : Text) (entries : Dict Text (Entry Session))
      (parsed : Attempt (Result L.Json (ParsedFrame L.Json)))
      → lookup (c ∷ id) entries ≡ none
      → Refuses entries (post_frame L S options a (c ∷ id) entries parsed)
  unfolding find
  post_frame-unknown a c id entries throws h = (refl, tt)
  post_frame-unknown a c id entries (returns (err e)) h = (refl, omega arith)
  post_frame-unknown a c id entries (returns (ok frame)) h = rw h (refl, omega arith)

  handle_swept-unknown :
      (a : Arrival Session) (c : ℕ) (id : Text) (entries : Dict Text (Entry Session))
      → header a.head session_header ≡ c ∷ id
      → lookup (c ∷ id) entries ≡ none
      → Refuses entries (handle_swept L S strtoull options a entries)
  unfolding handle_swept handle_post
  handle_swept-unknown a c id entries e h =
      elim (Bool-cases (text_eq a.head.method (codes "DELETE"))) [
        | inl d ↦ rw (d, e) (handle_delete-unknown c id entries h)
        | inr d ↦ elim (Bool-cases (text_eq a.head.method (codes "GET"))) [
          | inl g ↦ rw (d, g, e) (handle_get-unknown a.now a.head c id entries h)
          | inr g ↦ elim (Bool-cases (text_eq a.head.method (codes "POST"))) [
            | inl p ↦ rw (d, g, p, e) (post_frame-unknown a c id entries (parse_frame L a.body) h)
            | inr p ↦ rw (d, g, p) (refl, omega arith)
          ]
        ]
      ]

  -- A request, of any method, whose session id is not that of a session once the idle sessions are
  -- gone: it does nothing but sweep, and is answered with one response of an error status, or an
  -- exception of the JSON library leaves it.
  pub handle_request-unknown :
      (a : Arrival Session) (c : ℕ) (id : Text) (entries : Dict Text (Entry Session))
      → header a.head session_header ≡ c ∷ id
      → lookup (c ∷ id) (remove_idle a.now options.session_idle_timeout entries).1 ≡ none
      → (refusal : List (Effect Session)) × (handle_request L S strtoull options a entries ≡ (
        (remove_idle a.now options.session_idle_timeout entries).1,
        close_all L S (remove_idle a.now options.session_idle_timeout entries).0 ++ refusal,
      ))
        × IsRefusal refusal
  unfolding handle_request
  handle_request-unknown a c id entries e h =
      let swept = remove_idle a.now options.session_idle_timeout entries in
      let handled = handle_swept L S strtoull options a swept.1 in
      let refuses : Refuses swept.1 handled = handle_swept-unknown a c id swept.1 e h in
      (
        handled.1,
        ap (λ (m : Dict Text (Entry Session)). (m, close_all L S swept.0 ++ handled.1)) refuses.0,
        refuses.1,
      )
