-- ===== src/Tests/Facades.antt =====
-- The server over its sessions and completions, at concrete inputs.
use mcp_cpp.Common.{
  ℕ, ◌&&◌, pos, false, Option, none, some, List, [], ◌∷◌, Text, codes, if◌then◌else◌, ◌==◌, ◌≡◌,
  refl,
}
use mcp_cpp.Session.{Setup, operating, new_session, send_notification}
use mcp_cpp.Server.{is_operating}
use mcp_cpp.Logging.{info}
use mcp_cpp.Facade.{FacadeTypes, Server, send_notification_if_operating, Store}
use mcp_cpp.Facade.Handlers.{CompleteResult, handle_complete}
use mcp_cpp.Facade.Broadcast.{
  Attachment, attaches, detaches, last_attached, run_attachments,
  send_notification_if_operating-attached,
}
use mcp_cpp.Facade.Completing.{IsLimited, handle_complete-IsLimited}
use mcp_cpp.Tests.Values.{
  Value, null_value, text_value, object_value, member, no_member, value_lib, value-JsonLaws,
  value-FrameLaws,
}

abbrev number_types : FacadeTypes
number_types = record {
  Icon = ℕ;
  Annotation = ℕ;
  Content = ℕ;
  ToolHandler = ℕ;
  ReadHandler = ℕ;
  PromptHandler = ℕ;
  Completion = ℕ;
}

abbrev fresh_server : Server Value number_types
fresh_server = record {
  name = codes "s";
  version = codes "1";
  instructions = none;
  allow_reinitialize = false;
  tools = record { tools = []; page_size = 100; changed_callback = none };
  resources = record {
    resources = [];
    templates = [];
    fallback_read = none;
    subscriptions = [];
    completions = [];
    page_size = 100;
    changed_callback = none;
  };
  prompts = record { prompts = []; completions = []; page_size = 100; changed_callback = none };
  logger = record { level = info; emitter = none };
  sessions = [];
}

abbrev session_setup : Setup
session_setup = record { lib = value_lib null_value; U = ℕ; V = ℕ; K = ℕ; P = ℕ; X = ℕ }

-- Session 3 operates, and no other.
abbrev three_operates : Store session_setup
unfolding new_session
three_operates j =
    if j == 3
    then record (new_session session_setup 0) { state = operating }
    else new_session session_setup 0

abbrev comings : List Attachment
comings = attaches 3 ∷ attaches 4 ∷ attaches 3 ∷ detaches 4 ∷ []

send_notification_if_operating-attached_example :
    send_notification_if_operating session_setup
      (codes "note")
      none
      (run_attachments comings fresh_server).sessions
      three_operates
      3
    ≡ (if last_attached 3 false comings && is_operating (three_operates 3).state
        then send_notification session_setup (codes "note") none (three_operates 3)
        else three_operates 3)
send_notification_if_operating-attached_example =
    send_notification_if_operating-attached session_setup (codes "note") none comings fresh_server
      three_operates 3 refl

abbrev completes : Text → Text → Text → Option CompleteResult
completes key name value =
    some (record { values = value ∷ []; total = some (pos 1); has_more = some false })

abbrev complete_params : Value
complete_params = object_value (
    member (codes "ref")
      (object_value (
        member (codes "type") (text_value (codes "ref/prompt"))
          (member (codes "name") (text_value (codes "p")) no_member)))
      (member (codes "argument")
        (object_value (
          member (codes "name") (text_value (codes "city"))
            (member (codes "value") (text_value (codes "Par")) no_member)))
        no_member))

handle_complete-IsLimited_example :
    IsLimited
      (value_lib null_value)
      (value-JsonLaws null_value)
      (value-FrameLaws null_value)
      (handle_complete (value_lib null_value) completes completes (some complete_params))
handle_complete-IsLimited_example =
    handle_complete-IsLimited (value_lib null_value) (value-JsonLaws null_value)
      (value-FrameLaws null_value) completes completes (some complete_params)
