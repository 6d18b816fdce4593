-- ===== src/Server/Gate.antt =====
-- src/core/session.cpp: which requests a server session refuses before any handler runs.
use mcp_cpp.Common.{
  ℕ, Bool, true, false, none, some, List, [], ◌∷◌, ◌++◌, Text, codes, text_eq, starts_with,
  strip_prefix-append, ◌≡◌, ◌≢◌, refl, arith, text_eq_iff, Bool-cases, inl, inr,
}
use mcp_cpp.Errors.{Error, fail_with, connection_not_initialized, capability_not_supported}
use mcp_cpp.Messages.{JsonRpcRequest, request, response}
use mcp_cpp.Session.{
  SessionState, uninitialized, initializing, operating, shut_down, Sess, sent, emit,
}
use mcp_cpp.Session.Handling.{protect, handle_message}
use mcp_cpp.Server.{
  ServerTypes, ServerCapabilities, server_setup, is_operating, first_undeclared, gates,
  check_incoming_request, server_session,
}

first_undeclared-append :
    (before after : List (Text × Bool)) (pre rest : Text)
    → first_undeclared (pre ++ rest) (before ++ (pre, false) ∷ after) ≡ true
unfolding first_undeclared
first_undeclared-append [] after pre rest =
    rw (strip_prefix-append pre rest, first_undeclared, starts_with) refl
first_undeclared-append ((p, declared) ∷ before) after pre rest =
    ground (arith, first_undeclared-append before after pre rest)

-- A prefix of requests whose capability is not declared.
pub data Undeclared (c : ServerCapabilities) : Text → Type 0 where
  no_tools : c.tools ≡ false → Undeclared c (codes "tools/")
  no_resources : c.resources ≡ false → Undeclared c (codes "resources/")
  no_prompts : c.prompts ≡ false → Undeclared c (codes "prompts/")
  no_logging : c.logging ≡ false → Undeclared c (codes "logging/")
  no_completions : c.completions ≡ false → Undeclared c (codes "completion/")
  no_tasks : c.tasks ≡ false → Undeclared c (codes "tasks/")

first_undeclared-Undeclared :
    (c : ServerCapabilities) (pre rest : Text)
    → Undeclared c pre
    → first_undeclared (pre ++ rest) (gates c) ≡ true
first_undeclared-Undeclared c _ rest (no_tools h) = rw h (
    first_undeclared-append ([])
      ((codes "resources/", c.resources)
        ∷ (codes "prompts/", c.prompts)
        ∷ (codes "logging/", c.logging)
        ∷ (codes "completion/", c.completions)
        ∷ (codes "tasks/", c.tasks)
        ∷ [])
      _ rest)
first_undeclared-Undeclared c _ rest (no_resources h) = rw h (
    first_undeclared-append ((codes "tools/", c.tools) ∷ [])
      ((codes "prompts/", c.prompts)
        ∷ (codes "logging/", c.logging)
        ∷ (codes "completion/", c.completions)
        ∷ (codes "tasks/", c.tasks)
        ∷ [])
      _ rest)
first_undeclared-Undeclared c _ rest (no_prompts h) = rw h (
    first_undeclared-append ((codes "tools/", c.tools) ∷ (codes "resources/", c.resources) ∷ [])
      ((codes "logging/", c.logging)
        ∷ (codes "completion/", c.completions)
        ∷ (codes "tasks/", c.tasks)
        ∷ [])
      _ rest)
first_undeclared-Undeclared c _ rest (no_logging h) = rw h (
    first_undeclared-append
      ((codes "tools/", c.tools)
        ∷ (codes "resources/", c.resources)
        ∷ (codes "prompts/", c.prompts)
        ∷ [])
      ((codes "completion/", c.completions) ∷ (codes "tasks/", c.tasks) ∷ []) _ rest)
first_undeclared-Undeclared c _ rest (no_completions h) = rw h (
    first_undeclared-append
      ((codes "tools/", c.tools)
        ∷ (codes "resources/", c.resources)
        ∷ (codes "prompts/", c.prompts)
        ∷ (codes "logging/", c.logging)
        ∷ [])
      ((codes "tasks/", c.tasks) ∷ []) _ rest)
first_undeclared-Undeclared c _ rest (no_tasks h) = rw h (
    first_undeclared-append
      ((codes "tools/", c.tools)
        ∷ (codes "resources/", c.resources)
        ∷ (codes "prompts/", c.prompts)
        ∷ (codes "logging/", c.logging)
        ∷ (codes "completion/", c.completions)
        ∷ [])
      ([]) _ rest)

not_operating : (state : SessionState) → state ≢ operating → is_operating state ≡ false
not_operating operating n = absurd (n refl)
not_operating uninitialized n = refl
not_operating initializing n = refl
not_operating shut_down n = refl

not_equal : (t u : Text) → t ≢ u → text_eq t u ≡ false
not_equal t u n = elim (Bool-cases (text_eq t u)) [
  | inl e ↦ absurd (n ((text_eq_iff t u).0 e))
  | inr e ↦ e
]

module _ (S : ServerTypes) (now : ℕ) (r : JsonRpcRequest S.lib.Json)
    (s : Sess (server_setup S)) where
  -- The session that has answered the request with an error, and done nothing else.
  abbrev pub refused_with : Error S.lib.Json → Sess (server_setup S)
  refused_with e =
      emit (server_setup S)
        (sent (response (record { id = some r.id; result = none; error = some e }))) s

  handle_message-refused :
      (e : Error S.lib.Json)
      → text_eq r.method (codes "initialize") ≡ false
      → check_incoming_request S s r ≡ some e
      → handle_message (server_setup S) (server_session S) now (request r) s ≡ refused_with e
  unfolding handle_message
  handle_message-refused e i c = rw (i, handle_message, protect, c) refl

  -- Until a server session operates, every request other than `initialize` and `ping` is answered
  -- with the error for a connection that is not initialized, and nothing else happens: no handler
  -- runs and no state changes.
  pub handle_message-uninitialized :
      r.method ≢ codes "initialize"
      → r.method ≢ codes "ping"
      → s.state ≢ operating
      → handle_message (server_setup S) (server_session S) now (request r) s
        ≡ refused_with (fail_with connection_not_initialized (codes "session is not initialized"))
  unfolding check_incoming_request
  handle_message-uninitialized ni np closed =
      let i = not_equal _ _ ni in
      let p = not_equal _ _ np in
      let o = not_operating s.state closed in
      handle_message-refused _ i (rw (i, check_incoming_request, p, o) refl)

  -- A request under the prefix of a capability that the server does not declare (tools/, resources/,
  -- prompts/, logging/, completion/ or tasks/) is answered with the error for an unsupported
  -- capability, and nothing else happens, while the session operates.
  pub handle_message-undeclared :
      (pre rest : Text)
      → Undeclared s.extra.capabilities pre
      → r.method ≡ pre ++ rest
      → r.method ≢ codes "initialize"
      → r.method ≢ codes "ping"
      → s.state ≡ operating
      → handle_message (server_setup S) (server_session S) now (request r) s
        ≡ refused_with
            (fail_with capability_not_supported (codes "capability not supported: " ++ r.method))
  unfolding check_incoming_request
  handle_message-undeclared pre rest un m ni np o =
      let i = not_equal _ _ ni in
      let p = not_equal _ _ np in
      let u : first_undeclared r.method (gates s.extra.capabilities) ≡ true =
        rw m (first_undeclared-Undeclared s.extra.capabilities pre rest un) in
      handle_message-refused _ i (rw (i, check_incoming_request, p, o, u) refl)
