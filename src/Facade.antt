-- ===== src/Facade.antt =====
-- src/server/server.cpp: the `Server`, which owns the registries and serves them to its sessions.
-- A session is known by its address, and the sessions themselves stand in a store. Its request
-- handlers are in Facade/Handlers.antt.
pub mod Handlers
pub mod Broadcast
pub mod Completing
use mcp_cpp.Common.{
  ℕ, ℤ, Bool, true, false, not, ◌&&◌, ◌||◌, Option, none, some, List, [], ◌∷◌, ◌++◌, map, Text,
  codes, length, take, retain, ltb, ◌==◌, if◌then◌else◌, text_eq,
}
use mcp_cpp.Errors.{Error, fail_with, invalid_params, pagination_error, Result, ok, err, Done, done}
use mcp_cpp.Json.{JsonLib, contains, is_some, object, set_optional}
use mcp_cpp.Schema.{string_of}
use mcp_cpp.Pagination
use mcp_cpp.Pagination.{Page, Outcome}
use mcp_cpp.Tools.{Tool, ToolRegistry, ToolOutcome, CallToolResult, list_tools, call_tool}
use mcp_cpp.Tools
use mcp_cpp.Resources.{
  Resource, ResourceTemplate, ResourceProvider, list_resources, list_resource_templates, subscribe,
  unsubscribe, is_subscribed,
}
use mcp_cpp.Resources
use mcp_cpp.Prompts.{Prompt, PromptProvider, list_prompts}
use mcp_cpp.Prompts
use mcp_cpp.Logging.{Logger, logging_level_from_string}
use mcp_cpp.Logging
use mcp_cpp.Session.{Setup, Sess, send_notification}
use mcp_cpp.Server.{ServerCapabilities, is_operating}

-- The lambdas that `attach` sets.
pub data Changed : Type 0 where
  tools_changed resources_changed prompts_changed : Changed

pub data Emitter : Type 0 where
  to_sessions : Emitter

-- Icons, annotations, content and the handlers of the program.
pub record FacadeTypes : Type 1 where
  pub Icon : Type 0
  pub Annotation : Type 0
  pub Content : Type 0
  pub ToolHandler : Type 0
  pub ReadHandler : Type 0
  pub PromptHandler : Type 0
  pub Completion : Type 0

pub record Server (J : Type 0) (T : FacadeTypes) : Type 0 where
  pub name : Text
  pub version : Text
  pub instructions : Option Text
  pub allow_reinitialize : Bool
  pub tools : ToolRegistry J T.Icon T.Annotation T.ToolHandler Changed
  pub resources : ResourceProvider T.Icon T.Annotation T.ReadHandler T.Completion Changed
  pub prompts : PromptProvider T.Icon T.PromptHandler T.Completion Changed
  pub logger : Logger Emitter
  pub sessions : List ℕ

pub record ToolSpec (J : Type 0) (H : Type 0) : Type 0 where
  pub title : Option Text
  pub description : Option Text
  pub input_schema : J
  pub output_schema : Option J
  pub handler : Option H

unfoldable pub has_session : ℕ → List ℕ → Bool
has_session address [] = false
has_session address (a ∷ sessions) = if a == address then true else has_session address sessions

abbrev pub with_session : ℕ → List ℕ → List ℕ
with_session address sessions =
    if has_session address sessions then sessions else sessions ++ address ∷ []

abbrev pub without_session : ℕ → List ℕ → List ℕ
without_session address = retain (λ (a : ℕ). not (a == address))

-- The session, when exactly one is attached.
abbrev pub only : List ℕ → Option ℕ
only (a ∷ []) = some a
only _ = none

abbrev pub is_empty : {A : Type 0} → List A → Bool
is_empty [] = true
is_empty (x ∷ xs) = false

module _ {J : Type 0} {T : FacadeTypes} where
  -- A notification of a change goes to the callback that it returns.
  unfoldable pub register_tool :
      Server J T → Text → ToolSpec J T.ToolHandler → Server J T × Option Changed × Result J Done
  register_tool s name spec =
      let tool : Tool J T.Icon T.Annotation = record {
        name = name;
        title = spec.title;
        description = spec.description;
        icons = none;
        input_schema = spec.input_schema;
        output_schema = spec.output_schema;
        annotations = none;
        execution = none;
      } in
      let registered = Tools.register_tool s.tools tool spec.handler in
      (record s { tools = registered.0 }, registered.1, registered.2)

  unfoldable pub set_instructions : Server J T → Text → Server J T
  set_instructions s instructions = record s { instructions = some instructions }

  unfoldable pub capabilities : Server J T → ServerCapabilities
  capabilities s = record {
    tools = ltb 0 (Tools.size s.tools);
    resources = not (is_empty s.resources.resources) || not (is_empty s.resources.templates);
    prompts = ltb 0 (Prompts.size s.prompts);
    logging = true;
    completions = not (is_empty s.prompts.completions) || not (is_empty s.resources.completions);
    tasks = false;
  }

  -- `attach`, but for the request handlers that it sets in the session's router.
  unfoldable pub attach : ℕ → Server J T → Server J T
  attach address s = record s {
    sessions = with_session address s.sessions;
    tools = Tools.set_changed_callback s.tools (some tools_changed);
    resources = Resources.set_changed_callback s.resources (some resources_changed);
    prompts = Prompts.set_changed_callback s.prompts (some prompts_changed);
    logger = Logging.set_emitter s.logger (some to_sessions);
  }

  unfoldable pub detach : ℕ → Server J T → Server J T
  detach address s = record s { sessions = without_session address s.sessions }

  unfoldable pub session : Server J T → Option ℕ
  session s = only s.sessions

-- Notifications to the sessions: `store` holds them by their address.
module _ (U : Setup) where
  abbrev pub Store : Type 0
  Store = ℕ → Sess U

  abbrev pub notify_one : Text → Option U.lib.Json → ℕ → Store → Store
  notify_one method params address store =
      if is_operating (store address).state
      then (λ j.
          if j == address then send_notification U method params (store address) else store j)
      else store

  unfoldable pub send_notification_if_operating : Text → Option U.lib.Json → List ℕ → Store → Store
  send_notification_if_operating method params [] store = store
  send_notification_if_operating method params (a ∷ sessions) store =
      send_notification_if_operating method params sessions (notify_one method params a store)

  unfoldable pub notify_resource_updated :
      {T : FacadeTypes} → Server U.lib.Json T → Text → Store → Store
  notify_resource_updated s uri store =
      if is_subscribed s.resources uri
      then send_notification_if_operating (codes "notifications/resources/updated")
          (some (object U.lib ((codes "uri", U.lib.from_text uri) ∷ []))) s.sessions store
      else store

  -- The lambdas for changes.
  unfoldable pub run_changed : {T : FacadeTypes} → Server U.lib.Json T → Changed → Store → Store
  run_changed s tools_changed =
      send_notification_if_operating (codes "notifications/tools/list_changed") none s.sessions
  run_changed s resources_changed =
      send_notification_if_operating (codes "notifications/resources/list_changed") none s.sessions
  run_changed s prompts_changed =
      send_notification_if_operating (codes "notifications/prompts/list_changed") none s.sessions
