-- ===== src/Tests/Stores.antt =====
-- The theorems on routers, tools and resources, at concrete inputs.
use mcp_cpp.Common.{
  ℕ, true, false, none, some, List, [], ◌∷◌, Text, codes, length, text_eq, starts_with, all,
  if◌then◌else◌, ◌≡◌, ◌⊎◌, refl, arith,
}
use mcp_cpp.Common.Entries.{count_named, find_named}
use mcp_cpp.Errors.{fail_with, invalid_params, Result, ok, err, Done, done}
use mcp_cpp.Router.{match_wildcard}
use mcp_cpp.Router.Wildcards.{NoneFits, IsEntry, NoLonger, match_wildcard_cases}
use mcp_cpp.Tools.{
  Tool, ToolRegistry, CallToolResult, ToolOutcome, register_tool, remove_tool, call_valid,
  call_tool, is_valid_tool_name, tool_name,
}
use mcp_cpp.Tools.Registry.{
  IsRegistry, Change, registers, removes, change_all, change_all-IsRegistry,
}
use mcp_cpp.Tools.Calls.{called_with, call_tool-register_tool, call_tool-remove_tool}
use mcp_cpp.Resources.{Resource, ResourceProvider, has_text}
use mcp_cpp.Resources.Subscriptions.{IsProvider, change_all-IsProvider}
use mcp_cpp.Tools
use mcp_cpp.Resources.Subscriptions

abbrev two_patterns : List (Text × ℕ)
two_patterns = (codes "a/", 1) ∷ (codes "a/b", 2) ∷ []

match_wildcard_cases_example :
    (NoneFits (codes "a/bc") two_patterns × (match_wildcard two_patterns (codes "a/bc") ≡ none))
    ⊎ ((e : Text × ℕ) × IsEntry e two_patterns
        × (starts_with e.0 (codes "a/bc") ≡ true)
        × NoLonger (codes "a/bc") (length e.0) two_patterns
        × (match_wildcard two_patterns (codes "a/bc") ≡ some e.1))
match_wildcard_cases_example = match_wildcard_cases two_patterns (codes "a/bc")

abbrev echo_tool : Tool ℕ ℕ ℕ
echo_tool = record {
  name = codes "echo";
  title = none;
  description = none;
  icons = none;
  input_schema = 0;
  output_schema = none;
  annotations = none;
  execution = none;
}

abbrev no_tools : ToolRegistry ℕ ℕ ℕ ℕ ℕ
no_tools = record { tools = []; page_size = 100; changed_callback = none }

no_tools-IsRegistry : IsRegistry no_tools
unfolding all count_named
no_tools-IsRegistry = (refl, λ name. omega arith, omega arith)

abbrev tool_changes : List (Tools.Registry.Change ℕ ℕ ℕ ℕ ℕ)
tool_changes = registers echo_tool (some 7) ∷ removes (codes "other") ∷ []

change_all-IsRegistry_example : IsRegistry (Tools.Registry.change_all tool_changes no_tools)
change_all-IsRegistry_example = change_all-IsRegistry tool_changes no_tools no_tools-IsRegistry

abbrev accept : ℕ → ℕ → Result ℕ Done
accept arguments schema = ok done

abbrev first_code : Text → ℕ
first_code t = length t

abbrev run_tool : ℕ → ℕ → ToolOutcome ℕ ℕ
run_tool h arguments = Tools.returned (record { content = h ∷ arguments ∷ []; is_error = false })

call_tool-register_tool_example :
    call_tool accept first_code run_tool
      (register_tool no_tools echo_tool (some 7)).0
      (codes "echo")
      1
    ≡ (if text_eq (codes "echo") (codes "echo")
        then called_with accept first_code run_tool no_tools
            (codes "echo")
            (accept 1 0)
            (run_tool 7 1)
        else call_tool accept first_code run_tool no_tools (codes "echo") 1)
unfolding register_tool is_valid_tool_name all find_named
call_tool-register_tool_example =
    call_tool-register_tool accept first_code run_tool no_tools echo_tool 7 (codes "echo") 1 refl

abbrev one_tool : ToolRegistry ℕ ℕ ℕ ℕ ℕ
one_tool = record { tools = (echo_tool, 7) ∷ []; page_size = 100; changed_callback = none }

one_tool-IsRegistry : IsRegistry one_tool
unfolding all count_named is_valid_tool_name
one_tool-IsRegistry = (refl, λ name. ground arith, omega arith)

call_tool-remove_tool_example :
    call_tool accept first_code run_tool (remove_tool one_tool (codes "echo")).0 (codes "echo") 1
    ≡ (if text_eq (codes "echo") (codes "echo")
        then err (fail_with invalid_params (codes "unknown tool: echo"))
        else call_tool accept first_code run_tool one_tool (codes "echo") 1)
call_tool-remove_tool_example =
    call_tool-remove_tool accept first_code run_tool one_tool (codes "echo") (codes "echo") 1
      one_tool-IsRegistry

abbrev no_resources : ResourceProvider ℕ ℕ ℕ ℕ ℕ
no_resources = record {
  resources = [];
  templates = [];
  fallback_read = none;
  subscriptions = [];
  completions = [];
  page_size = 100;
  changed_callback = none;
}

no_resources-IsProvider : IsProvider no_resources
unfolding count_named has_text
no_resources-IsProvider = (λ uri. omega arith, λ uri s. absurd (ground arith))

abbrev readme : Resource ℕ ℕ
readme = record {
  uri = codes "f:r";
  name = codes "r";
  title = none;
  description = none;
  mime_type = none;
  icons = none;
  annotations = none;
}

abbrev resource_changes : List (Subscriptions.Change ℕ ℕ ℕ ℕ ℕ)
resource_changes =
    Subscriptions.adds readme none
    ∷ Subscriptions.subscribes (codes "f:r")
    ∷ Subscriptions.removes (codes "f:r")
    ∷ []

change_all-IsProvider_example :
    IsProvider (Subscriptions.change_all ℕ resource_changes no_resources)
change_all-IsProvider_example =
    change_all-IsProvider ℕ resource_changes no_resources no_resources-IsProvider
