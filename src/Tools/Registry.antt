-- ===== src/Tools/Registry.antt =====
-- src/server/tool_registry.cpp: what every change of the registry keeps.
use mcp_cpp.Common.{
  ℕ, ◌≤◌, true, Option, none, some, List, [], ◌∷◌, ◌++◌, Text, all, ◌≡◌, refl, arith, Bool-cases,
  Option-cases, inl, inr,
}
use mcp_cpp.Common.Entries.{
  find_named, erase_named, count_named, count_named-erase_named, unique-append,
}
use mcp_cpp.Tools.{
  Tool, ToolRegistry, is_valid_tool_name, tool_name, register_tool, remove_tool, set_page_size,
  set_changed_callback,
}

module _ {J I A H : Type 0} where
  all_valid-append :
      (entries : List (Tool J I A × H)) (entry : Tool J I A × H)
      → all (λ (e : Tool J I A × H). is_valid_tool_name e.0.name) entries ≡ true
      → is_valid_tool_name entry.0.name ≡ true
      → all (λ (e : Tool J I A × H). is_valid_tool_name e.0.name) (entries ++ entry ∷ []) ≡ true
  unfolding all
  all_valid-append [] entry h v = ground arith
  all_valid-append (e ∷ entries) entry h v = ground (arith, all_valid-append entries entry)

  all_valid-erase_named :
      (name : Text) (entries : List (Tool J I A × H))
      → all (λ (e : Tool J I A × H). is_valid_tool_name e.0.name) entries ≡ true
      → all
          (λ (e : Tool J I A × H). is_valid_tool_name e.0.name)
          (erase_named tool_name name entries)
        ≡ true
  unfolding all erase_named
  all_valid-erase_named name [] h = refl
  all_valid-erase_named name (e ∷ entries) h = ground (arith, all_valid-erase_named name entries)

module _ {J I A H C : Type 0} where
  -- The tools have valid names, no name twice, and a page is not empty.
  abbrev pub IsRegistry : ToolRegistry J I A H C → Type 0
  IsRegistry r =
      (all (λ (entry : Tool J I A × H). is_valid_tool_name entry.0.name) r.tools ≡ true)
      × ((name : Text) → count_named tool_name name r.tools ≤ 1)
      × (1 ≤ r.page_size)

  register_tool-IsRegistry :
      (r : ToolRegistry J I A H C) (tool : Tool J I A) (handler : Option H)
      → IsRegistry r
      → IsRegistry (register_tool r tool handler).0
  unfolding register_tool
  register_tool-IsRegistry r tool none h = elim (Bool-cases (is_valid_tool_name tool.name)) [
    | inl v ↦ rw (v, register_tool) h
    | inr v ↦ rw (v, register_tool) h
  ]
  register_tool-IsRegistry r tool (some f) h = elim (Bool-cases (is_valid_tool_name tool.name)) [
    | inr v ↦ rw (v, register_tool) h
    | inl v ↦ elim (Option-cases (find_named tool_name tool.name r.tools)) [
      | inr (_, e) ↦ rw (v, register_tool, e) h
      | inl e ↦
          rw (v, register_tool, e)
            (
              all_valid-append r.tools (tool, f) h.0 v,
              unique-append tool_name r.tools (tool, f) h.1 e,
              h.2,
            )
    ]
  ]

  remove_tool-IsRegistry :
      (r : ToolRegistry J I A H C) (name : Text) → IsRegistry r → IsRegistry (remove_tool r name).0
  unfolding remove_tool
  remove_tool-IsRegistry r name h = elim (Option-cases (find_named tool_name name r.tools)) [
    | inl e ↦ rw (e, remove_tool) h
    | inr (_, e) ↦
        rw (e, remove_tool)
          (
            all_valid-erase_named name r.tools h.0,
            λ n. omega (arith, count_named-erase_named tool_name n name r.tools, h.1 n),
            h.2,
          )
  ]

  set_page_size-IsRegistry :
      (r : ToolRegistry J I A H C) (n : ℕ) → IsRegistry r → IsRegistry (set_page_size r n)
  unfolding set_page_size
  set_page_size-IsRegistry r n h = (h.0, h.1, ground arith)

-- The changes of a registry, in any order.
pub data Change (J I A H C : Type 0) : Type 0 where
  registers : Tool J I A → Option H → Change J I A H C
  removes : Text → Change J I A H C
  sizes : ℕ → Change J I A H C
  watches : Option C → Change J I A H C

module _ {J I A H C : Type 0} where
  unfoldable pub change : Change J I A H C → ToolRegistry J I A H C → ToolRegistry J I A H C
  change (registers tool handler) r = (register_tool r tool handler).0
  change (removes name) r = (remove_tool r name).0
  change (sizes n) r = set_page_size r n
  change (watches callback) r = set_changed_callback r callback

  unfoldable pub change_all :
      List (Change J I A H C) → ToolRegistry J I A H C → ToolRegistry J I A H C
  change_all [] r = r
  change_all (c ∷ cs) r = change_all cs (change c r)

  change-IsRegistry :
      (c : Change J I A H C) (r : ToolRegistry J I A H C) → IsRegistry r → IsRegistry (change c r)
  unfolding change set_changed_callback
  change-IsRegistry (registers tool handler) r h = register_tool-IsRegistry r tool handler h
  change-IsRegistry (removes name) r h = remove_tool-IsRegistry r name h
  change-IsRegistry (sizes n) r h = set_page_size-IsRegistry r n h
  change-IsRegistry (watches callback) r h = h

  -- Whatever is registered, removed or set, in any order: every tool of the registry has a valid
  -- name, no two have the same, and the page size is not 0.
  pub change_all-IsRegistry :
      (cs : List (Change J I A H C)) (r : ToolRegistry J I A H C)
      → IsRegistry r
      → IsRegistry (change_all cs r)
  unfolding change_all
  change_all-IsRegistry [] r h = h
  change_all-IsRegistry (c ∷ cs) r h =
      change_all-IsRegistry cs (change c r) (change-IsRegistry c r h)
