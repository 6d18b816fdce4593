-- ===== src/Logging.antt =====
-- src/server/logging.cpp: the levels and the threshold of the messages to the client. `E` is the
-- emitter.
pub mod Levels
use mcp_cpp.Common.{
  ℕ, Bool, true, false, Option, none, some, List, [], ◌∷◌, Text, codes, text_eq, ltb, if◌then◌else◌,
}
use mcp_cpp.Json.{JsonLib, object, set_optional}

pub data LoggingLevel : Type 0 where
  debug info notice warning error critical alert emergency : LoggingLevel

-- The enumerators' values.
abbrev pub level_value : LoggingLevel → ℕ
level_value debug = 0
level_value info = 1
level_value notice = 2
level_value warning = 3
level_value error = 4
level_value critical = 5
level_value alert = 6
level_value emergency = 7

unfoldable pub logging_level_to_string : LoggingLevel → Text
logging_level_to_string debug = codes "debug"
logging_level_to_string info = codes "info"
logging_level_to_string notice = codes "notice"
logging_level_to_string warning = codes "warning"
logging_level_to_string error = codes "error"
logging_level_to_string critical = codes "critical"
logging_level_to_string alert = codes "alert"
logging_level_to_string emergency = codes "emergency"

unfoldable pub logging_level_from_string : Text → Option LoggingLevel
logging_level_from_string name =
    if text_eq name (codes "debug")
    then some debug
    else if text_eq name (codes "info")
    then some info
    else if text_eq name (codes "notice")
    then some notice
    else if text_eq name (codes "warning")
    then some warning
    else if text_eq name (codes "error")
    then some error
    else if text_eq name (codes "critical")
    then some critical
    else if text_eq name (codes "alert")
    then some alert
    else if text_eq name (codes "emergency")
    then some emergency
    else none

pub record Logger (E : Type 0) : Type 0 where
  pub level : LoggingLevel
  pub emitter : Option E

unfoldable pub set_emitter : {E : Type 0} → Logger E → Option E → Logger E
set_emitter l emitter = record l { emitter = emitter }

unfoldable pub set_level : {E : Type 0} → Logger E → LoggingLevel → Logger E
set_level l level = record l { level = level }

module _ (L : JsonLib) where
  open L use {Json, from_text}

  abbrev pub name_json : Option Text → Option Json
  name_json none = none
  name_json (some name) = some (from_text name)

  abbrev pub log_params : LoggingLevel → Json → Option Text → Json
  log_params level payload name =
      set_optional L
        (object L (
          (codes "level", from_text (logging_level_to_string level))
          ∷ (codes "data", payload)
          ∷ []))
        (codes "logger") (name_json name)

  abbrev pub emit_to : {E : Type 0} → Option E → Json → Option (E × Json)
  emit_to none params = none
  emit_to (some emitter) params = some (emitter, params)

  -- The emitter that is called and its argument.
  unfoldable pub log :
      {E : Type 0} → Logger E → LoggingLevel → Json → Option Text → Option (E × Json)
  log l level payload name =
      if ltb (level_value level) (level_value l.level)
      then none
      else emit_to l.emitter (log_params level payload name)
