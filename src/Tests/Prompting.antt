-- ===== src/Tests/Prompting.antt =====
-- The theorems on prompts and log levels, at concrete inputs.
use mcp_cpp.Common.{true, none, some, [], ◌∷◌, codes, text_eq, refl, ℕ}
use mcp_cpp.Common.Entries.{find_named}
use mcp_cpp.Errors.{ok}
use mcp_cpp.Prompts.{PromptArgument, Prompt, PromptProvider, PromptOutcome, returned, get_prompt}
use mcp_cpp.Prompts.Arguments.{Answered, get_prompt-Answered}
use mcp_cpp.Tests.Values.{Value, null_value, object_value, member, no_member, value_lib}

abbrev city : PromptArgument
city = record { name = codes "city"; title = none; description = none; required = some true }

abbrev weather : Prompt ℕ
weather = record {
  name = codes "w";
  title = none;
  description = none;
  icons = none;
  arguments = some (city ∷ []);
}

abbrev one_prompt : PromptProvider ℕ ℕ ℕ ℕ
one_prompt = record {
  prompts = (weather, 3) ∷ [];
  completions = [];
  page_size = 100;
  changed_callback = none;
}

abbrev run_prompt : ℕ → Value → PromptOutcome Value ℕ
run_prompt h arguments = returned (ok h)

abbrev passed : Value
passed = object_value (member (codes "city") null_value no_member)

get_prompt-Answered_example :
    Answered
      (value_lib null_value)
      run_prompt
      (weather, 3)
      passed
      (get_prompt (value_lib null_value) run_prompt one_prompt (codes "w") passed)
unfolding find_named text_eq
get_prompt-Answered_example =
    get_prompt-Answered (value_lib null_value) run_prompt one_prompt (codes "w") (weather, 3) passed
      refl
