-- ===== src/Prompts.antt =====
-- src/server/prompt_provider.cpp: the prompts and completions of a server. Each method holds the
-- provider's lock for its accesses. A change returns the changed callback that it calls. `I` is
-- icons, `H` the prompt handlers, `F` the completion callbacks and `C` the changed callbacks.
pub mod Arguments
use mcp_cpp.Common.{
  ℕ, Bool, true, false, not, ◌&&◌, Option, none, some, List, [], ◌∷◌, ◌++◌, map, Text, codes,
  length, ◌==◌, if◌then◌else◌,
}
use mcp_cpp.Common.Dict.{Dict, lookup, insert}
use mcp_cpp.Common.Entries.{find_named, erase_named}
use mcp_cpp.Errors.{Error, fail_with, invalid_params, internal_error, Result, ok, err, Done, done}
use mcp_cpp.Json.{JsonLib, contains}
use mcp_cpp.Pagination.{Outcome, paginate}
use mcp_cpp.Resources.{pair_key}

pub record PromptArgument : Type 0 where
  pub name : Text
  pub title : Option Text
  pub description : Option Text
  pub required : Option Bool

pub record Prompt (I : Type 0) : Type 0 where
  pub name : Text
  pub title : Option Text
  pub description : Option Text
  pub icons : Option (List I)
  pub arguments : Option (List PromptArgument)

-- How a prompt handler ends, with a result `R`.
pub data PromptOutcome (J R : Type 0) : Type 0 where
  returned : Result J R → PromptOutcome J R
  threw_error : Error J → PromptOutcome J R
  threw_other : Text → PromptOutcome J R

pub record PromptProvider (I H F C : Type 0) : Type 0 where
  pub prompts : List (Prompt I × H)
  pub completions : Dict (Text × Text) F
  pub page_size : ℕ
  pub changed_callback : Option C

abbrev pub prompt_name : {I H : Type 0} → Prompt I × H → Text
prompt_name entry = entry.0.name

abbrev pub is_empty_name : Text → Bool
is_empty_name [] = true
is_empty_name (c ∷ cs) = false

-- `argument.required.value_or(false)`
abbrev pub is_required : Option Bool → Bool
is_required none = false
is_required (some b) = b

module _ {J I H F C : Type 0} where
  abbrev pub refuse_prompt :
      PromptProvider I H F C → Text → PromptProvider I H F C × Option C × Result J Done
  refuse_prompt p message = (p, none, err (fail_with invalid_params message))

  abbrev pub add_new_prompt :
      PromptProvider I H F C
      → Prompt I
      → H
      → Option (Prompt I × H)
      → PromptProvider I H F C × Option C × Result J Done
  add_new_prompt p prompt h (some _) =
      refuse_prompt p (codes "prompt already registered: " ++ prompt.name)
  add_new_prompt p prompt h none =
      (record p { prompts = p.prompts ++ (prompt, h) ∷ [] }, p.changed_callback, ok done)

  abbrev pub add_handled_prompt :
      PromptProvider I H F C
      → Prompt I
      → Option H
      → PromptProvider I H F C × Option C × Result J Done
  add_handled_prompt p prompt none =
      refuse_prompt p (codes "prompt '" ++ prompt.name ++ codes "' requires a handler")
  add_handled_prompt p prompt (some h) =
      add_new_prompt p prompt h (find_named prompt_name prompt.name p.prompts)

  unfoldable pub add_prompt :
      PromptProvider I H F C
      → Prompt I
      → Option H
      → PromptProvider I H F C × Option C × Result J Done
  add_prompt p prompt handler =
      if is_empty_name prompt.name
      then refuse_prompt p (codes "prompt name must not be empty")
      else add_handled_prompt p prompt handler

  unfoldable pub list_prompts : PromptProvider I H F C → Option Text → Outcome J (Prompt I)
  list_prompts p cursor =
      paginate (map (λ (entry : Prompt I × H). entry.0) p.prompts) cursor p.page_size

module _ {I H F C : Type 0} where
  unfoldable pub remove_prompt :
      PromptProvider I H F C → Text → PromptProvider I H F C × Option C × Bool
  remove_prompt p name = elim (find_named prompt_name name p.prompts) [
    | none ↦ (p, none, false)
    | some _ ↦
        (record p { prompts = erase_named prompt_name name p.prompts }, p.changed_callback, true)
  ]

  unfoldable pub size : PromptProvider I H F C → ℕ
  size p = length p.prompts

  unfoldable pub set_completion : PromptProvider I H F C → Text → Text → F → PromptProvider I H F C
  set_completion p name argument callback = record p {
    completions = insert (name, argument) callback p.completions;
  }

  -- The call of the callback is `run`.
  unfoldable pub complete :
      {R : Type 0} → (F → Text → R) → PromptProvider I H F C → Text → Text → Text → Option R
  complete run p name argument value = elim (lookup (name, argument) p.completions) [
    | none ↦ none
    | some callback ↦ some (run callback value)
  ]

  unfoldable pub set_page_size : PromptProvider I H F C → ℕ → PromptProvider I H F C
  set_page_size p n = record p { page_size = if n == 0 then 1 else n }

  unfoldable pub set_changed_callback : PromptProvider I H F C → Option C → PromptProvider I H F C
  set_changed_callback p callback = record p { changed_callback = callback }

-- `run` is the call of a prompt handler.
module _ (L : JsonLib) {H R : Type 0} (run : H → L.Json → PromptOutcome L.Json R) where
  open L use {Json}

  abbrev pub prompt_result : PromptOutcome Json R → Result Json R
  prompt_result (returned r) = r
  prompt_result (threw_error e) = err e
  prompt_result (threw_other what) = err (fail_with internal_error what)

  -- The loop over the arguments: the first required one that is missing.
  unfoldable pub first_missing : Json → List PromptArgument → Option Text
  first_missing arguments [] = none
  first_missing arguments (a ∷ rest) =
      if is_required a.required && not (contains L a.name arguments)
      then some a.name
      else first_missing arguments rest

  abbrev pub missing_of : Json → Option (List PromptArgument) → Option Text
  missing_of arguments none = none
  missing_of arguments (some list) = first_missing arguments list

  abbrev pub get_checked : Text → Json → H → Option Text → Result Json R
  get_checked name arguments h none = prompt_result (run h arguments)
  get_checked name arguments h (some missing) = err (
      fail_with invalid_params (
        codes "prompt '"
        ++ name
        ++ codes "' is missing required argument '"
        ++ missing
        ++ codes "'"))

  abbrev pub get_found : {I : Type 0} → Text → Json → Option (Prompt I × H) → Result Json R
  get_found name arguments none = err (fail_with invalid_params (codes "unknown prompt: " ++ name))
  get_found name arguments (some entry) =
      get_checked name arguments entry.1 (missing_of arguments entry.0.arguments)

  unfoldable pub get_prompt :
      {I F C : Type 0} → PromptProvider I H F C → Text → Json → Result Json R
  get_prompt p name arguments = get_found name arguments (find_named prompt_name name p.prompts)
