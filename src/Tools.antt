-- ===== src/Tools.antt =====
-- src/server/tool_registry.cpp: the tools of a server. Each method holds the registry's lock for
-- its accesses. A change returns the changed callback that it calls. `I` and `A` are icons and
-- annotations, `N` is content, `H` the handlers and `C` the changed callbacks of the program.
pub mod Registry
pub mod Calls
use mcp_cpp.Common.{
  ℕ, Bool, true, false, not, ◌&&◌, ◌||◌, Option, none, some, List, [], ◌∷◌, ◌++◌, map, Text, codes,
  length, all, ltb, leb, ◌==◌, if◌then◌else◌,
}
use mcp_cpp.Common.Entries.{find_named, erase_named}
use mcp_cpp.Errors.{Error, fail_with, invalid_params, Result, ok, err, Done, done}
use mcp_cpp.Pagination.{Outcome, paginate}

pub record Tool (J I A : Type 0) : Type 0 where
  pub name : Text
  pub title : Option Text
  pub description : Option Text
  pub icons : Option (List I)
  pub input_schema : J
  pub output_schema : Option J
  pub annotations : Option A
  pub execution : Option J

pub record CallToolResult (N : Type 0) : Type 0 where
  pub content : List N
  pub is_error : Bool

-- How a handler ends.
pub data ToolOutcome (J N : Type 0) : Type 0 where
  returned : CallToolResult N → ToolOutcome J N
  threw_error : Error J → ToolOutcome J N
  threw_other : Text → ToolOutcome J N

abbrev pub is_name_char : ℕ → Bool
is_name_char c =
    (leb b'A' c && leb c b'Z')
    || (leb b'a' c && leb c b'z')
    || (leb b'0' c && leb c b'9')
    || (c == b'.')
    || (c == b'_')
    || (c == b'-')

abbrev pub is_empty : Text → Bool
is_empty [] = true
is_empty (c ∷ cs) = false

unfoldable pub is_valid_tool_name : Text → Bool
is_valid_tool_name name =
    if is_empty name || ltb 128 (length name) then false else all is_name_char name

pub record ToolRegistry (J I A H C : Type 0) : Type 0 where
  pub tools : List (Tool J I A × H)
  pub page_size : ℕ
  pub changed_callback : Option C

abbrev pub tool_name : {J I A H : Type 0} → Tool J I A × H → Text
tool_name entry = entry.0.name

module _ {J I A H C : Type 0} where
  abbrev pub refuse :
      ToolRegistry J I A H C → Text → ToolRegistry J I A H C × Option C × Result J Done
  refuse r message = (r, none, err (fail_with invalid_params message))

  abbrev pub add_new :
      ToolRegistry J I A H C
      → Tool J I A
      → H
      → Option (Tool J I A × H)
      → ToolRegistry J I A H C × Option C × Result J Done
  add_new r tool h (some _) = refuse r (codes "tool already registered: " ++ tool.name)
  add_new r tool h none =
      (record r { tools = r.tools ++ (tool, h) ∷ [] }, r.changed_callback, ok done)

  abbrev pub add_handled :
      ToolRegistry J I A H C
      → Tool J I A
      → Option H
      → ToolRegistry J I A H C × Option C × Result J Done
  add_handled r tool none = refuse r (codes "tool '" ++ tool.name ++ codes "' requires a handler")
  add_handled r tool (some h) = add_new r tool h (find_named tool_name tool.name r.tools)

  -- `none` is an empty `std::function`.
  unfoldable pub register_tool :
      ToolRegistry J I A H C
      → Tool J I A
      → Option H
      → ToolRegistry J I A H C × Option C × Result J Done
  register_tool r tool handler =
      if not (is_valid_tool_name tool.name)
      then refuse r
          (codes "invalid tool name: '" ++ tool.name ++ codes "' (1-128 chars from [A-Za-z0-9._-])")
      else add_handled r tool handler

  unfoldable pub remove_tool :
      ToolRegistry J I A H C → Text → ToolRegistry J I A H C × Option C × Bool
  remove_tool r name = elim (find_named tool_name name r.tools) [
    | none ↦ (r, none, false)
    | some _ ↦ (record r { tools = erase_named tool_name name r.tools }, r.changed_callback, true)
  ]

  unfoldable pub size : ToolRegistry J I A H C → ℕ
  size r = length r.tools

  unfoldable pub list_tools : ToolRegistry J I A H C → Option Text → Outcome J (Tool J I A)
  list_tools r cursor =
      paginate (map (λ (entry : Tool J I A × H). entry.0) r.tools) cursor r.page_size

  unfoldable pub set_page_size : ToolRegistry J I A H C → ℕ → ToolRegistry J I A H C
  set_page_size r n = record r { page_size = if n == 0 then 1 else n }

  unfoldable pub set_changed_callback : ToolRegistry J I A H C → Option C → ToolRegistry J I A H C
  set_changed_callback r callback = record r { changed_callback = callback }

-- `validate` is `validate_schema`, `text_content` makes content of a text, and `run` is the call
-- of a handler.
module _ {J N H : Type 0} (validate : J → J → Result J Done) (text_content : Text → N)
    (run : H → J → ToolOutcome J N) where
  abbrev pub tool_result : ToolOutcome J N → CallToolResult N
  tool_result (returned r) = r
  tool_result (threw_error e) = record { content = text_content e.message ∷ []; is_error = true }
  tool_result (threw_other what) = record { content = text_content what ∷ []; is_error = true }

  abbrev pub call_valid : Text → J → H → Result J Done → Result J (CallToolResult N)
  call_valid name arguments h (ok done) = ok (tool_result (run h arguments))
  call_valid name arguments h (err e) = err (
      fail_with invalid_params
        (codes "invalid arguments for tool '" ++ name ++ codes "': " ++ e.message))

  abbrev pub call_found :
      {I A : Type 0} → Text → J → Option (Tool J I A × H) → Result J (CallToolResult N)
  call_found name arguments none = err (fail_with invalid_params (codes "unknown tool: " ++ name))
  call_found name arguments (some entry) =
      call_valid name arguments entry.1 (validate arguments entry.0.input_schema)

  unfoldable pub call_tool :
      {I A C : Type 0} → ToolRegistry J I A H C → Text → J → Result J (CallToolResult N)
  call_tool r name arguments = call_found name arguments (find_named tool_name name r.tools)
