-- ===== src/Http/SessionServer/Ledger.antt =====
-- src/transport/http_session_server.cpp: the sessions that the table holds and those that were
-- reported as closed.
use mcp_cpp.Common.{
  ℕ, ◌+◌, ℤ, pos, negsuc, Bool, Option, none, some, List, [], ◌∷◌, ◌++◌, Text, codes, ◌==◌, ltb,
  text_eq, text_eq_refl, if◌then◌else◌, ◌≡◌, refl, ◌∙◌, arith, Bool-cases, Option-cases, inl, inr,
}
use mcp_cpp.Common.Dict.{
  Dict, lookup, insert, lookup-insert, text_key, IsTable, insert-IsTable, erase-IsTable, total,
  total-insert_new, total-insert, total-erase, total-erase_absent,
}
use mcp_cpp.Errors.{Result, ok, err}
use mcp_cpp.Json.{JsonLib}
use mcp_cpp.Messages.{Message, Attempt, returns, throws}
use mcp_cpp.Messages.Frames.{ParsedFrame, parse_frame}
use mcp_cpp.Http.Channel.{SseChannel, Stream, attach_stream}
use mcp_cpp.Http.Sse.{SseEvent}
use mcp_cpp.Http.Head.{HttpHead, HeaderList, header, header_contains}
use mcp_cpp.Http.Post.{Capture, new_capture, capture_empty}
use mcp_cpp.Http.SessionServer.{
  Sessions, SessionsLaws, Entry, HttpSessionServerOptions, Effect, writes, streams, reports_closed,
  asks_factory, escapes, Arrival, sweep, remove_idle, remove_all, create, find, remove, deliver,
  deliver_all, disconnect, close_all, stop, handle_delete, get_attached, get_with, handle_get,
  touch, post_to, answer, new_entry, post_made, post_new, post_found, post_frame, handle_post,
  handle_swept, has_initialize, session_header, add_errors,
}

module _ {S : Type 0} where
  pub lookup-sweep_absent :
      (now timeout : ℕ) (id : Text) (m : Dict Text (Entry S))
      → lookup id m ≡ none
      → lookup id (sweep now timeout m).1 ≡ none
  unfolding lookup sweep
  lookup-sweep_absent now timeout id [] h = refl
  lookup-sweep_absent now timeout id ((j, e) ∷ m) h =
      ground (arith, lookup-sweep_absent now timeout id m)

  pub sweep-IsTable :
      (now timeout : ℕ) (m : Dict Text (Entry S)) → IsTable m → IsTable (sweep now timeout m).1
  unfolding sweep
  sweep-IsTable now timeout [] h = tt
  sweep-IsTable now timeout ((id, e) ∷ m) h =
      elim (Bool-cases (ltb (e.last_activity + timeout) now)) [
        | inl k ↦ rw k (sweep-IsTable now timeout m h.1)
        | inr k ↦ rw k (lookup-sweep_absent now timeout id m h.0, sweep-IsTable now timeout m h.1)
      ]

module _ (L : JsonLib) (S : Sessions L.Json) (laws : SessionsLaws S) (address : ℕ) where
  open L use {Json}
  open S use {Session}

  -- 1 for the session of this address.
  abbrev pub here : Session → ℕ
  here s = if S.address s == address then 1 else 0

  abbrev pub weight : Entry Session → ℕ
  weight e = here e.session

  -- How often the table holds the session, how often it was reported as closed, and how often the
  -- factory returned it.
  abbrev pub held : Dict Text (Entry Session) → ℕ
  held entries = total weight entries

  unfoldable pub reported : List (Effect Session) → ℕ
  reported [] = 0
  reported (reports_closed s ∷ effects) = here s + reported effects
  reported (writes status reason body type extra ∷ effects) = reported effects
  reported (streams st ∷ effects) = reported effects
  reported (asks_factory made ∷ effects) = reported effects
  reported (escapes ∷ effects) = reported effects

  abbrev pub here_made : Option Session → ℕ
  here_made none = 0
  here_made (some s) = here s

  unfoldable pub made : List (Effect Session) → ℕ
  made [] = 0
  made (reports_closed s ∷ effects) = made effects
  made (writes status reason body type extra ∷ effects) = made effects
  made (streams st ∷ effects) = made effects
  made (asks_factory s ∷ effects) = here_made s + made effects
  made (escapes ∷ effects) = made effects

  abbrev pub Kept :
      Dict Text (Entry Session) → Dict Text (Entry Session) × List (Effect Session) → Type 0
  Kept entries after =
      IsTable after.0 × (held after.0 + reported after.1 ≡ held entries + made after.1)

  pub reported-append :
      (xs ys : List (Effect Session)) → reported (xs ++ ys) ≡ reported xs + reported ys
  unfolding reported
  reported-append [] ys = omega arith
  reported-append (reports_closed s ∷ xs) ys = omega (arith, reported-append xs ys)
  reported-append (writes status reason body type extra ∷ xs) ys = reported-append xs ys
  reported-append (streams st ∷ xs) ys = reported-append xs ys
  reported-append (asks_factory m ∷ xs) ys = reported-append xs ys
  reported-append (escapes ∷ xs) ys = reported-append xs ys

  pub made-append : (xs ys : List (Effect Session)) → made (xs ++ ys) ≡ made xs + made ys
  unfolding made
  made-append [] ys = omega arith
  made-append (reports_closed s ∷ xs) ys = made-append xs ys
  made-append (writes status reason body type extra ∷ xs) ys = made-append xs ys
  made-append (streams st ∷ xs) ys = made-append xs ys
  made-append (asks_factory m ∷ xs) ys = omega (arith, made-append xs ys)
  made-append (escapes ∷ xs) ys = made-append xs ys

  disconnect_same : (e : Entry Session) → here (disconnect L S e).session ≡ weight e
  unfolding disconnect
  disconnect_same e = elim (Bool-cases e.transport.closed) [
    | inl c ↦ rw c refl
    | inr c ↦ rw (c, laws.address-on_close e.session) refl
  ]

  sweep-held :
      (now timeout : ℕ) (m : Dict Text (Entry Session))
      → held (sweep now timeout m).1 + reported (close_all L S (sweep now timeout m).0) ≡ held m
  unfolding sweep reported close_all total
  sweep-held now timeout [] = refl
  sweep-held now timeout ((id, e) ∷ m) = elim (Bool-cases (ltb (e.last_activity + timeout) now)) [
    | inl k ↦ rw k (omega (arith, sweep-held now timeout m, disconnect_same e))
    | inr k ↦ rw k (omega (arith, sweep-held now timeout m))
  ]

  pub made-close_all : (es : List (Entry Session)) → made (close_all L S es) ≡ 0
  unfolding made close_all
  made-close_all [] = refl
  made-close_all (e ∷ es) = made-close_all es

  pub remove_idle-held :
      (now : ℕ) (timeout : ℤ) (m : Dict Text (Entry Session))
      → held (remove_idle now timeout m).1 + reported (close_all L S (remove_idle now timeout m).0)
        ≡ held m
  unfolding remove_idle reported close_all
  remove_idle-held now (negsuc n) m = omega arith
  remove_idle-held now (pos n) m = elim (Bool-cases (ltb 0 n)) [
    | inl k ↦ rw k (sweep-held now n m)
    | inr k ↦ rw k (omega arith)
  ]

  pub stop-reported :
      (m : Dict Text (Entry Session))
      → (reported (stop L S m).1 ≡ held m) × (held (stop L S m).0 ≡ 0) × (made (stop L S m).1 ≡ 0)
  unfolding stop remove_all reported close_all total made
  stop-reported [] = (refl, refl, refl)
  stop-reported ((id, e) ∷ m) =
      (omega (arith, (stop-reported m).0, disconnect_same e), refl, made-close_all (remove_all m).0)

  deliver_all-weight :
      (ms : List (Message Json)) (ec : Entry Session × Capture Json)
      → weight (deliver_all L S ms ec).0 ≡ weight ec.0
  unfolding deliver_all deliver
  deliver_all-weight [] ec = refl
  deliver_all-weight (m ∷ ms) (e, c) =
      deliver_all-weight ms (deliver L S m (e, c)) ∙ rw (laws.address-on_message m e.session) refl

  pub answer-neutral :
      (batch : Bool) (extra : HeaderList) (c : Capture Json)
      → (reported (answer L S batch extra c ∷ []) ≡ 0) × (made (answer L S batch extra c ∷ []) ≡ 0)
  unfolding answer reported made
  answer-neutral batch extra c = elim (Bool-cases (capture_empty L c)) [
    | inl k ↦ rw k (refl, refl)
    | inr k ↦ rw k (refl, refl)
  ]

  -- An entry is replaced by another of the same session.
  replaced :
      (id : Text) (e w : Entry Session) (m : Dict Text (Entry Session))
      → lookup id m ≡ some w
      → weight e ≡ weight w
      → held (insert id e m) ≡ held m
  replaced id e w m k same = omega (arith, total-insert weight id e w m k, same)

  post_to-Kept :
      (frame : ParsedFrame Json) (extra : HeaderList) (id : Text) (e w : Entry Session)
      (entries : Dict Text (Entry Session))
      → IsTable entries
      → lookup id entries ≡ some w
      → weight e ≡ weight w
      → Kept entries (post_to L S frame extra id e entries)
  unfolding post_to
  post_to-Kept frame extra id e w entries h k same =
      let done =
        deliver_all L S frame.messages (e, add_errors L S frame.item_errors (new_capture L)) in
      let neutral = answer-neutral frame.was_batch extra done.1 in
      (
        insert-IsTable id done.0 entries h,
        omega (
          arith,
          replaced id done.0 w entries k (deliver_all-weight frame.messages _ ∙ same),
          neutral.0,
          neutral.1,
        ),
      )

  post_made-Kept :
      (options : HttpSessionServerOptions) (a : Arrival Session) (frame : ParsedFrame Json)
      (entries : Dict Text (Entry Session)) (factory : Option Session)
      → IsTable entries
      → lookup a.session_id entries ≡ none
      → Kept entries (post_made L S options a frame factory entries)
  unfolding reported made create
  post_made-Kept options a frame entries none h fresh = (h, refl)
  post_made-Kept options a frame entries (some s) h fresh =
      let e = new_entry L S options a.now s in
      let after : Dict Text (Entry Session) = insert a.session_id e entries in
      let found : lookup a.session_id after ≡ some e =
        lookup-insert a.session_id a.session_id e entries ∙ rw (text_eq_refl a.session_id) refl in
      let kept =
        post_to-Kept frame ((codes "Mcp-Session-Id", a.session_id) ∷ []) a.session_id e e after
          (insert-IsTable a.session_id e entries h) found refl in
      let same : weight e ≡ here s = rw (laws.address-connect s) refl in
      (kept.0, omega (arith, kept.1, total-insert_new weight a.session_id e entries fresh, same))

  Kept-from :
      (before middle : Dict Text (Entry Session))
      (after : Dict Text (Entry Session) × List (Effect Session))
      → held middle ≡ held before
      → Kept middle after
      → Kept before after
  Kept-from before middle after e k = (k.0, omega (arith, k.1, e))

  -- The entry that a lookup finds and touches.
  touched_lookup :
      (now : ℕ) (id : Text) (e : Entry Session) (m : Dict Text (Entry Session))
      → lookup id (insert id (touch now e) m) ≡ some (touch now e)
  touched_lookup now id e m = lookup-insert id id (touch now e) m ∙ rw (text_eq_refl id) refl

  post_found-Kept :
      (frame : ParsedFrame Json) (now : ℕ) (id : Text) (entries : Dict Text (Entry Session))
      → IsTable entries
      → Kept entries (post_found L S frame id (find now id entries))
  unfolding find reported made
  post_found-Kept frame now id entries h = elim (Option-cases (lookup id entries)) [
    | inl k ↦ rw k (h, refl)
    | inr (e, k) ↦
        let t = touch now e in
        let m : Dict Text (Entry Session) = insert id t entries in
        rw k (
          Kept-from entries m (post_to L S frame [] id t m) (replaced id t e entries k refl) (
            post_to-Kept frame [] id t t m (insert-IsTable id t entries h)
              (touched_lookup now id e entries) refl))
  ]

  get_attached-Kept :
      (id : Text) (e : Entry Session) (m : Dict Text (Entry Session))
      (attached : Option (Stream × SseEvent × SseChannel))
      → IsTable m
      → lookup id m ≡ some e
      → Kept m (get_attached L S id e m attached)
  unfolding reported made
  get_attached-Kept id e m none h k = (h, refl)
  get_attached-Kept id e m (some (stream, event, channel)) h k =
      (insert-IsTable id _ m h, omega (arith, replaced id _ e m k refl))

  get_with-Kept :
      (strtoull : Text → ℕ) (now : ℕ) (head : HttpHead) (id : Text)
      (entries : Dict Text (Entry Session))
      → IsTable entries
      → Kept entries (get_with L S strtoull now head id entries)
  unfolding find reported made
  get_with-Kept strtoull now head [] entries h = (h, refl)
  get_with-Kept strtoull now head (c ∷ id) entries h =
      elim (Option-cases (lookup (c ∷ id) entries)) [
        | inl k ↦ rw k (h, refl)
        | inr (e, k) ↦
            let t = touch now e in
            let m : Dict Text (Entry Session) = insert (c ∷ id) t entries in
            let attached =
              attach_stream strtoull (header head (codes "last-event-id")) t.transport.channel in
            rw k (
              Kept-from entries m (get_attached L S (c ∷ id) t m attached)
                (replaced (c ∷ id) t e entries k refl)
                (get_attached-Kept (c ∷ id) t m attached (insert-IsTable (c ∷ id) t entries h)
                  (touched_lookup now (c ∷ id) e entries)))
      ]

  handle_get-Kept :
      (strtoull : Text → ℕ) (now : ℕ) (head : HttpHead) (id : Text)
      (entries : Dict Text (Entry Session))
      → IsTable entries
      → Kept entries (handle_get L S strtoull now head id entries)
  unfolding handle_get reported made
  handle_get-Kept strtoull now head id entries h =
      elim (Bool-cases (header_contains head (codes "accept") (codes "text/event-stream"))) [
        | inl k ↦ rw k (get_with-Kept strtoull now head id entries h)
        | inr k ↦ rw k (h, refl)
      ]

  handle_delete-Kept :
      (options : HttpSessionServerOptions) (id : Text) (entries : Dict Text (Entry Session))
      → IsTable entries
      → Kept entries (handle_delete L S options id entries)
  unfolding handle_delete remove reported made
  handle_delete-Kept options [] entries h = (h, refl)
  handle_delete-Kept options (c ∷ id) entries h =
      elim (Bool-cases options.allow_client_termination) [
        | inr k ↦ rw k (h, refl)
        | inl k ↦ elim (Option-cases (lookup (c ∷ id) entries)) [
          | inl f ↦
              rw (k, f)
                (
                  erase-IsTable (c ∷ id) entries h,
                  omega (arith, total-erase_absent weight (c ∷ id) entries f),
                )
          | inr (e, f) ↦
              rw (k, f)
                (
                  erase-IsTable (c ∷ id) entries h,
                  omega (arith, total-erase weight (c ∷ id) e entries h f, disconnect_same e),
                )
        ]
      ]

  post_frame-Kept :
      (options : HttpSessionServerOptions) (a : Arrival Session) (id : Text)
      (entries : Dict Text (Entry Session)) (parsed : Attempt (Result Json (ParsedFrame Json)))
      → IsTable entries
      → lookup a.session_id entries ≡ none
      → Kept entries (post_frame L S options a id entries parsed)
  unfolding post_new reported made
  post_frame-Kept options a id entries throws h fresh = (h, refl)
  post_frame-Kept options a id entries (returns (err e)) h fresh = (h, refl)
  post_frame-Kept options a (c ∷ id) entries (returns (ok frame)) h fresh =
      post_found-Kept frame a.now (c ∷ id) entries h
  post_frame-Kept options a [] entries (returns (ok frame)) h fresh =
      elim (Bool-cases (has_initialize frame.messages)) [
        | inl k ↦ rw k (post_made-Kept options a frame entries a.made h fresh)
        | inr k ↦ rw k (h, refl)
      ]

  pub handle_swept-Kept :
      (strtoull : Text → ℕ) (options : HttpSessionServerOptions) (a : Arrival Session)
      (entries : Dict Text (Entry Session))
      → IsTable entries
      → lookup a.session_id entries ≡ none
      → Kept entries (handle_swept L S strtoull options a entries)
  unfolding handle_swept handle_post reported made
  handle_swept-Kept strtoull options a entries h fresh =
      let id = header a.head session_header in
      elim (Bool-cases (text_eq a.head.method (codes "DELETE"))) [
        | inl d ↦ rw d (handle_delete-Kept options id entries h)
        | inr d ↦ elim (Bool-cases (text_eq a.head.method (codes "GET"))) [
          | inl g ↦ rw (d, g) (handle_get-Kept strtoull a.now a.head id entries h)
          | inr g ↦ elim (Bool-cases (text_eq a.head.method (codes "POST"))) [
            | inl p ↦
                rw (d, g, p) (post_frame-Kept options a id entries (parse_frame L a.body) h fresh)
            | inr p ↦ rw (d, g, p) (h, refl)
          ]
        ]
      ]
