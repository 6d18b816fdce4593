-- ===== src/Http/SessionServer/Lifetimes.antt =====
-- src/transport/http_session_server.cpp: from the start of the server to its stop.
use mcp_cpp.Common.{
  ℕ, ℤ, pos, negsuc, none, List, [], ◌∷◌, ◌++◌, Text, ltb, ◌≡◌, refl, arith, Bool-cases, inl, inr,
}
use mcp_cpp.Common.Dict.{Dict, lookup, IsTable, total, text_key}
use mcp_cpp.Json.{JsonLib}
use mcp_cpp.Http.SessionServer.{
  Sessions, SessionsLaws, Entry, HttpSessionServerOptions, Effect, Arrival, remove_idle, close_all,
  stop, handle_swept, handle_request,
}
use mcp_cpp.Http.SessionServer.Ledger.{
  Kept, reported, made, reported-append, made-append, made-close_all, remove_idle-held,
  stop-reported, handle_swept-Kept, lookup-sweep_absent, sweep-IsTable,
}

module _ {S : Type 0} where
  remove_idle-IsTable :
      (now : ℕ) (timeout : ℤ) (m : Dict Text (Entry S))
      → IsTable m
      → IsTable (remove_idle now timeout m).1
  unfolding remove_idle
  remove_idle-IsTable now (negsuc n) m h = h
  remove_idle-IsTable now (pos n) m h = elim (Bool-cases (ltb 0 n)) [
    | inl k ↦ rw k (sweep-IsTable now n m h)
    | inr k ↦ rw k h
  ]

  lookup-remove_idle_absent :
      (now : ℕ) (timeout : ℤ) (id : Text) (m : Dict Text (Entry S))
      → lookup id m ≡ none
      → lookup id (remove_idle now timeout m).1 ≡ none
  unfolding remove_idle
  lookup-remove_idle_absent now (negsuc n) id m h = h
  lookup-remove_idle_absent now (pos n) id m h = elim (Bool-cases (ltb 0 n)) [
    | inl k ↦ rw k (lookup-sweep_absent now n id m h)
    | inr k ↦ rw k h
  ]

module _ (L : JsonLib) (S : Sessions L.Json) (strtoull : Text → ℕ)
    (options : HttpSessionServerOptions) where
  open S use {Session}

  -- The requests one after the other: the table at last, and all effects.
  unfoldable pub serve :
      List (Arrival Session)
      → Dict Text (Entry Session)
      → Dict Text (Entry Session) × List (Effect Session)
  serve [] entries = (entries, [])
  serve (a ∷ arrivals) entries =
      let handled = handle_request L S strtoull options a entries in
      let rest = serve arrivals handled.0 in (rest.0, handled.1 ++ rest.1)

  -- No random id is one that the table holds.
  abbrev pub AreFresh : List (Arrival Session) → Dict Text (Entry Session) → Type 0
  AreFresh [] entries = Unit
  AreFresh (a ∷ arrivals) entries =
      (lookup a.session_id entries ≡ none)
      × AreFresh arrivals (handle_request L S strtoull options a entries).0

  -- All effects of a server that starts without sessions, handles requests and is stopped.
  unfoldable pub lifetime : List (Arrival Session) → List (Effect Session)
  lifetime arrivals = let served = serve arrivals [] in served.1 ++ (stop L S served.0).1

  module _ (laws : SessionsLaws S) (address : ℕ) where
    handle_request-Kept :
        (a : Arrival Session) (entries : Dict Text (Entry Session))
        → IsTable entries
        → lookup a.session_id entries ≡ none
        → Kept L S laws address entries (handle_request L S strtoull options a entries)
    unfolding handle_request
    handle_request-Kept a entries h fresh =
        let swept = remove_idle a.now options.session_idle_timeout entries in
        let closed = close_all L S swept.0 in
        let handled = handle_swept L S strtoull options a swept.1 in
        let kept =
          handle_swept-Kept L S laws address strtoull options a swept.1
            (remove_idle-IsTable a.now options.session_idle_timeout entries h)
            (lookup-remove_idle_absent a.now options.session_idle_timeout a.session_id entries
              fresh) in
        (
          kept.0,
          omega (
            arith,
            kept.1,
            reported-append L S laws address closed handled.1,
            made-append L S laws address closed handled.1,
            made-close_all L S laws address swept.0,
            remove_idle-held L S laws address a.now options.session_idle_timeout entries,
          ),
        )

    serve-Kept :
        (arrivals : List (Arrival Session)) (entries : Dict Text (Entry Session))
        → IsTable entries
        → AreFresh arrivals entries
        → Kept L S laws address entries (serve arrivals entries)
    unfolding serve reported made
    serve-Kept [] entries h fresh = (h, refl)
    serve-Kept (a ∷ arrivals) entries h fresh =
        let handled = handle_request L S strtoull options a entries in
        let first = handle_request-Kept a entries h fresh.0 in
        let rest = serve-Kept arrivals handled.0 first.0 fresh.1 in
        (
          rest.0,
          omega (
            arith,
            first.1,
            rest.1,
            reported-append L S laws address handled.1 (serve arrivals handled.0).1,
            made-append L S laws address handled.1 (serve arrivals handled.0).1,
          ),
        )

    -- A server that starts without sessions, handles any requests and is then stopped has reported
    -- every session as closed exactly as often as the factory returned it, whether the session was
    -- idle, was terminated by its client or lived until the stop. No random session id is to be one
    -- that is in use, and handling a message, connecting and closing are to leave the session the
    -- same object.
    pub lifetime-reported :
        (arrivals : List (Arrival Session))
        → AreFresh arrivals []
        → reported L S laws address (lifetime arrivals) ≡ made L S laws address (lifetime arrivals)
    unfolding lifetime total
    lifetime-reported arrivals fresh =
        let served = serve arrivals [] in
        let kept = serve-Kept arrivals [] tt fresh in
        let stopped = stop-reported L S laws address served.0 in
        omega (
          arith,
          kept.1,
          stopped.0,
          stopped.2,
          reported-append L S laws address served.1 (stop L S served.0).1,
          made-append L S laws address served.1 (stop L S served.0).1,
        )
