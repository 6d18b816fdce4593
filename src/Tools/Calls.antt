-- ===== src/Tools/Calls.antt =====
-- src/server/tool_registry.cpp: which tool a call runs.
use mcp_cpp.Common.{
  ◌++◌, ◌∷◌, [], none, some, Text, codes, if◌then◌else◌, text_eq, text_eq_iff, true, ◌≡◌, refl, sym,
  Bool-cases, Option-cases, inl, inr,
}
use mcp_cpp.Common.Entries.{
  find_named, find_named-append, find_named-append_other, find_named-erase_named,
  find_named-erase_other,
}
use mcp_cpp.Errors.{Result, ok, err, Done, done, fail_with, invalid_params}
use mcp_cpp.Tools.{
  Tool, ToolRegistry, ToolOutcome, CallToolResult, returned, threw_error, threw_other,
  is_valid_tool_name, tool_name, register_tool, remove_tool, tool_result, call_valid, call_tool,
}
use mcp_cpp.Tools.Registry.{IsRegistry}

registered :
    {J I A H C : Type 0} (r : ToolRegistry J I A H C) (tool : Tool J I A) (f : H)
    → (register_tool r tool (some f)).2 ≡ ok done
    → (find_named tool_name tool.name r.tools ≡ none)
      × ((register_tool r tool (some f)).0 ≡ record r { tools = r.tools ++ (tool, f) ∷ [] })
unfolding register_tool
registered r tool f = elim (Bool-cases (is_valid_tool_name tool.name)) [
  | inr v ↦ rw (v, register_tool) (λ h. absurd (cc))
  | inl v ↦ elim (Option-cases (find_named tool_name tool.name r.tools)) [
    | inr (_, e) ↦ rw (v, register_tool, e) (λ h. absurd (cc))
    | inl e ↦ rw (v, register_tool, e) (λ h. (refl, refl))
  ]
]

find-register_tool :
    {J I A H C : Type 0} (r : ToolRegistry J I A H C) (tool : Tool J I A) (f : H) (name : Text)
    → (register_tool r tool (some f)).2 ≡ ok done
    → find_named tool_name name (register_tool r tool (some f)).0.tools
      ≡ (if text_eq tool.name name then some (tool, f) else find_named tool_name name r.tools)
find-register_tool r tool f name h =
    let (absent, added) = registered r tool f h in
    rw (added) (elim (Bool-cases (text_eq tool.name name)) [
      | inl e ↦
          let same : tool.name ≡ name = (text_eq_iff tool.name name).0 e in
          rw (find_named-append tool_name name r.tools (tool, f) (rw (sym same) absent), e) refl
      | inr e ↦ rw (find_named-append_other tool_name name r.tools (tool, f) e, e) refl
    ])

find-remove_tool :
    {J I A H C : Type 0} (r : ToolRegistry J I A H C) (removed name : Text)
    → IsRegistry r
    → find_named tool_name name (remove_tool r removed).0.tools
      ≡ (if text_eq removed name then none else find_named tool_name name r.tools)
unfolding remove_tool
find-remove_tool r removed name h = elim (Bool-cases (text_eq removed name)) [
  | inl e ↦
      let same : removed ≡ name = (text_eq_iff removed name).0 e in
      elim (Option-cases (find_named tool_name removed r.tools)) [
        | inl a ↦ rw (a, remove_tool, e) (rw (sym same) a)
        | inr (_, a) ↦
            rw (a, remove_tool, e)
              (rw (sym same) (find_named-erase_named tool_name removed r.tools (h.1 removed)))
      ]
  | inr e ↦ elim (Option-cases (find_named tool_name removed r.tools)) [
    | inl a ↦ rw (a, remove_tool, e) refl
    | inr (_, a) ↦ rw (a, remove_tool, e) (find_named-erase_other tool_name name removed r.tools e)
  ]
]

module _ {J N H I A C : Type 0} (validate : J → J → Result J Done) (text_content : Text → N)
    (run : H → J → ToolOutcome J N) (r : ToolRegistry J I A H C) where
  -- What a call of a registered tool is to give: of the schema's verdict on the arguments, and of
  -- what the handler does with them.
  abbrev pub called_with : Text → Result J Done → ToolOutcome J N → Result J (CallToolResult N)
  called_with name (ok done) (returned found) = ok found
  called_with name (ok done) (threw_error e) =
      ok (record { content = text_content e.message ∷ []; is_error = true })
  called_with name (ok done) (threw_other what) =
      ok (record { content = text_content what ∷ []; is_error = true })
  called_with name (err e) outcome = err (
      fail_with invalid_params
        (codes "invalid arguments for tool '" ++ name ++ codes "': " ++ e.message))

  call_valid-called_with :
      (name : Text) (arguments : J) (f : H) (verdict : Result J Done)
      → call_valid validate text_content run name arguments f verdict
        ≡ called_with name verdict (run f arguments)
  call_valid-called_with name arguments f (err e) = refl
  call_valid-called_with name arguments f (ok done) =
      (elim (run f arguments)
        as (λ o. ok (tool_result validate text_content run o) ≡ called_with name (ok done) o) [
          | returned found ↦ refl
          | threw_error e ↦ refl
          | threw_other what ↦ refl
        ])

  -- Once a tool is registered, a call of its name with arguments that its schema accepts gives what
  -- its handler returns on them, or an error result with the text of what it throws; arguments that
  -- the schema refuses are refused with the reason, whatever the handler does. A call of another
  -- name does what it did before.
  pub call_tool-register_tool :
      (tool : Tool J I A) (f : H) (name : Text) (arguments : J)
      → (register_tool r tool (some f)).2 ≡ ok done
      → call_tool validate text_content run (register_tool r tool (some f)).0 name arguments ≡ (
          if text_eq tool.name name
          then called_with name (validate arguments tool.input_schema) (run f arguments)
          else call_tool validate text_content run r name arguments)
  unfolding call_tool
  call_tool-register_tool tool f name arguments h =
      rw (find-register_tool r tool f name h) (elim (Bool-cases (text_eq tool.name name)) [
        | inl e ↦ rw e (call_valid-called_with name arguments f _)
        | inr e ↦ rw e refl
      ])

  -- Once a tool is removed, a call of its name is refused, and a call of another name does what it
  -- did before. The registry is to have no name twice.
  pub call_tool-remove_tool :
      (removed name : Text) (arguments : J)
      → IsRegistry r
      → call_tool validate text_content run (remove_tool r removed).0 name arguments ≡ (
          if text_eq removed name
          then err (fail_with invalid_params (codes "unknown tool: " ++ name))
          else call_tool validate text_content run r name arguments)
  unfolding call_tool
  call_tool-remove_tool removed name arguments h =
      rw (find-remove_tool r removed name h)
        (elim (Bool-cases (text_eq removed name)) [ inl e ↦ rw (e) refl | inr e ↦ rw (e) refl ])
