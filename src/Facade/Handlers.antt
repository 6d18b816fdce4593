-- ===== src/Facade/Handlers.antt =====
-- src/server/server.cpp: the request handlers that `attach` sets, and include/mcp/server/completion.hpp.
-- The JSON forms of tools, resources, prompts and results, the runs of the program's handlers and
-- the schema check are `Conversions`.
use mcp_cpp.Common.{
  ℤ, Bool, not, ◌&&◌, ◌||◌, Option, none, some, List, [], ◌∷◌, ◌++◌, map, Text, codes, take,
  if◌then◌else◌, text_eq,
}
use mcp_cpp.Errors.{fail_with, invalid_params, pagination_error, Result, ok, err, Done, done}
use mcp_cpp.Json.{JsonLib, contains, object, set_optional}
use mcp_cpp.Schema.{string_of}
use mcp_cpp.Pagination.{Page, Outcome}
use mcp_cpp.Tools.{Tool, ToolOutcome, CallToolResult, list_tools, call_tool}
use mcp_cpp.Resources.{
  Resource, ResourceTemplate, ResourceProvider, list_resources, list_resource_templates, subscribe,
  unsubscribe, is_subscribed, ReadOutcome, read_resource,
}
use mcp_cpp.Resources
use mcp_cpp.Prompts.{Prompt, PromptProvider, list_prompts}
use mcp_cpp.Prompts
use mcp_cpp.Logging.{Logger, LoggingLevel, logging_level_from_string}
use mcp_cpp.Logging
use mcp_cpp.Facade.{FacadeTypes, Server, Changed}

pub record CompleteResult : Type 0 where
  pub values : List Text
  pub total : Option ℤ
  pub has_more : Option Bool

-- How a request handler of the server ends: with a result, with a `json::exception`, or with a page
-- from a range that ends before it begins.
pub data Reply (J : Type 0) : Type 0 where
  replies : Result J J → Reply J
  throws : Reply J
  bad_range : Reply J

-- The conversions, the runs of the handlers, and the schema check.
pub record Conversions (J : Type 0) (T : FacadeTypes) : Type 1 where
  pub ReadResult : Type 0
  pub PromptResult : Type 0
  pub tool_to_json : Tool J T.Icon T.Annotation → J
  pub resource_to_json : Resource T.Icon T.Annotation → J
  pub template_to_json : ResourceTemplate T.Icon T.Annotation → J
  pub prompt_to_json : Prompt T.Icon → J
  pub call_result_to_json : CallToolResult T.Content → J
  pub read_result_to_json : ReadResult → J
  pub prompt_result_to_json : PromptResult → J
  pub validate : J → J → Result J Done
  pub text_content : Text → T.Content
  pub run_tool : T.ToolHandler → J → ToolOutcome J T.Content
  pub run_read : T.ReadHandler → Text → ReadOutcome J ReadResult
  pub run_prompt : T.PromptHandler → J → Prompts.PromptOutcome J PromptResult
  pub run_completion : T.Completion → Text → CompleteResult

module _ (L : JsonLib) where
  open L use {Json, find, is_object, array, from_text, from_int, from_bool, get_text, empty_object}

  abbrev pub cursor_of : Option Text → Result Json (Option Text)
  cursor_of none = err (fail_with pagination_error (codes "cursor must be a string"))
  cursor_of (some cursor) = ok (some cursor)

  abbrev pub cursor_in : Option Json → Result Json (Option Text)
  cursor_in none = ok none
  cursor_in (some cursor) = cursor_of (string_of L cursor)

  unfoldable pub parse_cursor : Option Json → Result Json (Option Text)
  parse_cursor none = ok none
  parse_cursor (some params) = cursor_in (find (codes "cursor") params)

  abbrev pub text_in : Option Json → Option Text
  text_in none = none
  text_in (some j) = string_of L j

  abbrev pub required_text : Text → Option Text → Result Json Text
  required_text key none =
      err (fail_with invalid_params (codes "missing required string param '" ++ key ++ codes "'"))
  required_text key (some text) = ok text

  unfoldable pub require_string : Option Json → Text → Result Json Text
  require_string none key = required_text key none
  require_string (some params) key = required_text key (text_in (find key params))

  abbrev pub text_json : Option Text → Option Json
  text_json none = none
  text_json (some t) = some (from_text t)

  unfoldable pub page_to_json : {A : Type 0} → (A → Json) → Page A → Text → Json
  page_to_json to_json page items_key =
      set_optional L (object L ((items_key, array (map to_json page.items)) ∷ []))
        (codes "nextCursor") (text_json page.next_cursor)

  abbrev pub int_json : Option ℤ → Option Json
  int_json none = none
  int_json (some n) = some (from_int n)

  abbrev pub bool_json : Option Bool → Option Json
  bool_json none = none
  bool_json (some b) = some (from_bool b)

  -- `CompleteResult::to_json`
  unfoldable pub complete_result_to_json : CompleteResult → Json
  complete_result_to_json r =
      let vals = array (map from_text (take 100 r.values)) in
      let completion =
        set_optional L
          (set_optional L (object L ((codes "values", vals) ∷ [])) (codes "total")
            (int_json r.total))
          (codes "hasMore") (bool_json r.has_more) in
      object L ((codes "completion", completion) ∷ [])

  abbrev pub page_reply : {A : Type 0} → (A → Json) → Text → Outcome Json A → Reply Json
  page_reply to_json key (Outcome.page p) = replies (ok (page_to_json to_json p key))
  page_reply to_json key (Outcome.refused e) = replies (err e)
  page_reply to_json key Outcome.bad_range = bad_range

  -- The handlers of the lists: `list` is the list of the registry.
  unfoldable pub handle_list :
      {A : Type 0} → (A → Json) → Text → (Option Text → Outcome Json A) → Option Json → Reply Json
  handle_list to_json key list params = elim (parse_cursor params) [
    | err e ↦ replies (err e)
    | ok cursor ↦ page_reply to_json key (list cursor)
  ]

  abbrev pub arguments_of : Option Json → Json
  arguments_of none = empty_object
  arguments_of (some arguments) = arguments

  abbrev pub argument_json : Option Json → Json
  argument_json none = empty_object
  argument_json (some params) = arguments_of (find (codes "arguments") params)

  abbrev pub converted : {R : Type 0} → (R → Json) → Result Json R → Reply Json
  converted to_json (err e) = replies (err e)
  converted to_json (ok r) = replies (ok (to_json r))

  -- The handlers that take a name and arguments.
  unfoldable pub handle_named :
      {R : Type 0} → (R → Json) → Text → (Text → Json → Result Json R) → Option Json → Reply Json
  handle_named to_json key run params = elim (require_string params key) [
    | err e ↦ replies (err e)
    | ok name ↦ converted to_json (run name (argument_json params))
  ]

  abbrev pub malformed_reference : Reply Json
  malformed_reference =
      replies (err (fail_with invalid_params (codes "malformed completion reference or argument")))

  abbrev pub complete_reply : Option CompleteResult → Reply Json
  complete_reply none =
      replies (ok (complete_result_to_json (record { values = []; total = none; has_more = none })))
  complete_reply (some r) = replies (ok (complete_result_to_json r))

  -- `get<std::string>()`, which throws on another type.
  abbrev pub complete_at : (Text → Option CompleteResult) → Option Text → Reply Json
  complete_at run none = throws
  complete_at run (some name) = complete_reply (run name)

  abbrev pub text_got : Option Json → Option Text
  text_got none = none
  text_got (some j) = get_text j

  -- `by_prompt` and `by_resource` are the completions of the providers.
  module _ (by_prompt by_resource : Text → Text → Text → Option CompleteResult) where
    abbrev pub complete_typed : Json → Option Text → Option Text → Option Text → Reply Json
    complete_typed ref (some type) (some name) (some value) =
        if text_eq type (codes "ref/prompt") && contains L (codes "name") ref
        then complete_at (λ key. by_prompt key name value) (text_got (find (codes "name") ref))
        else if text_eq type (codes "ref/resource") && contains L (codes "uri") ref
        then complete_at (λ key. by_resource key name value) (text_got (find (codes "uri") ref))
        else replies
            (err (fail_with invalid_params (codes "unknown completion reference type: " ++ type)))
    complete_typed ref _ _ _ = throws

    abbrev pub complete_parts : Json → Json → Option Json → Option Json → Option Json → Reply Json
    complete_parts ref argument (some type) (some name) (some value) =
        complete_typed ref (get_text type) (get_text name) (get_text value)
    complete_parts ref argument _ _ _ = malformed_reference

    abbrev pub complete_ref : Option Json → Option Json → Reply Json
    complete_ref (some ref) (some argument) =
        if not (is_object ref) || not (is_object argument)
        then malformed_reference
        else complete_parts ref argument (find (codes "type") ref) (find (codes "name") argument)
            (find (codes "value") argument)
    complete_ref _ _ =
        replies
          (err (fail_with invalid_params (codes "completion/complete requires ref and argument")))

    unfoldable pub handle_complete : Option Json → Reply Json
    handle_complete none = complete_ref none none
    handle_complete (some params) =
        complete_ref (find (codes "ref") params) (find (codes "argument") params)

-- The requests that `attach` sets a handler for.
pub data Request : Type 0 where
  tools_list tools_call resources_list templates_list resources_read : Request
  resources_subscribe resources_unsubscribe prompts_list prompts_get : Request
  logging_set_level completion_complete : Request

unfoldable pub method_name : Request → Text
method_name tools_list = codes "tools/list"
method_name tools_call = codes "tools/call"
method_name resources_list = codes "resources/list"
method_name templates_list = codes "resources/templates/list"
method_name resources_read = codes "resources/read"
method_name resources_subscribe = codes "resources/subscribe"
method_name resources_unsubscribe = codes "resources/unsubscribe"
method_name prompts_list = codes "prompts/list"
method_name prompts_get = codes "prompts/get"
method_name logging_set_level = codes "logging/setLevel"
method_name completion_complete = codes "completion/complete"

module _ (L : JsonLib) (T : FacadeTypes) (K : Conversions L.Json T) where
  open L use {Json, empty_object}

  abbrev pub Handled : Type 0
  Handled = Server Json T × Reply Json

  abbrev pub subscribed :
      Server Json T
      → ResourceProvider T.Icon T.Annotation T.ReadHandler T.Completion Changed × Result Json Done
      → Handled
  subscribed s (resources, err e) = (s, replies (err e))
  subscribed s (resources, ok done) =
      (record s { resources = resources }, replies (ok empty_object))

  abbrev pub subscribe_uri : Server Json T → Result Json Text → Handled
  subscribe_uri s (err e) = (s, replies (err e))
  subscribe_uri s (ok uri) = subscribed s (subscribe s.resources uri)

  abbrev pub unsubscribe_uri : Server Json T → Result Json Text → Handled
  unsubscribe_uri s (err e) = (s, replies (err e))
  unsubscribe_uri s (ok uri) =
      (record s { resources = (unsubscribe s.resources uri).0 }, replies (ok empty_object))

  abbrev pub set_known_level : Server Json T → Text → Option LoggingLevel → Handled
  set_known_level s name none =
      (s, replies (err (fail_with invalid_params (codes "unknown logging level: " ++ name))))
  set_known_level s name (some level) =
      (record s { logger = Logging.set_level s.logger level }, replies (ok empty_object))

  abbrev pub set_named_level : Server Json T → Result Json Text → Handled
  set_named_level s (err e) = (s, replies (err e))
  set_named_level s (ok name) = set_known_level s name (logging_level_from_string name)

  unfoldable pub handle : Request → Option Json → Server Json T → Handled
  handle tools_list params s =
      (s, handle_list L K.tool_to_json (codes "tools") (list_tools s.tools) params)
  handle tools_call params s = (
    s,
    handle_named L K.call_result_to_json (codes "name")
        (call_tool K.validate K.text_content K.run_tool s.tools) params,
  )
  handle resources_list params s =
      (s, handle_list L K.resource_to_json (codes "resources") (list_resources s.resources) params)
  handle templates_list params s = (
    s,
    handle_list L K.template_to_json (codes "resourceTemplates")
        (list_resource_templates s.resources) params,
  )
  handle resources_read params s = (
    s,
    handle_named L K.read_result_to_json (codes "uri")
        (λ uri arguments. read_resource K.run_read s.resources uri) params,
  )
  handle resources_subscribe params s = subscribe_uri s (require_string L params (codes "uri"))
  handle resources_unsubscribe params s = unsubscribe_uri s (require_string L params (codes "uri"))
  handle prompts_list params s =
      (s, handle_list L K.prompt_to_json (codes "prompts") (list_prompts s.prompts) params)
  handle prompts_get params s = (
    s,
    handle_named L K.prompt_result_to_json (codes "name")
        (Prompts.get_prompt L K.run_prompt s.prompts) params,
  )
  handle logging_set_level params s = set_named_level s (require_string L params (codes "level"))
  handle completion_complete params s = (
    s,
    handle_complete L (Prompts.complete K.run_completion s.prompts)
        (λ uri key value. Resources.complete K.run_completion s.resources uri key value) params,
  )
