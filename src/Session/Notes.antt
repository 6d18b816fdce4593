-- ===== src/Session/Notes.antt =====
-- include/mcp/core/progress.hpp and include/mcp/core/cancellation.hpp: the payloads of the progress
-- and cancellation notifications. A `double` is kept as the JSON number that it is read from.
use Prim.Native.String.{String}
use mcp_cpp.Common.{not, Option, none, some, [], ◌∷◌, Text, codes, if◌then◌else◌}
use mcp_cpp.Errors.{fail_with, invalid_params, Result, ok, err}
use mcp_cpp.Json.{JsonLib, object, set_optional, non_null}
use mcp_cpp.Messages.{RequestId, Attempt, returns, throws, request_id_to_json, request_id_from_json}

pub record ProgressNotification (J : Type 0) : Type 0 where
  pub progress_token : RequestId
  pub progress : J
  pub total : Option J
  pub message : Option Text

pub record CancelledNotification : Type 0 where
  pub request_id : RequestId
  pub reason : Option Text

module _ (L : JsonLib) where
  open L use {Json, is_object, is_number, find, from_text, get_text}

  abbrev pub text_to_json : Option Text → Option Json
  text_to_json none = none
  text_to_json (some t) = some (from_text t)

  -- `get_optional` of a string and of a number: null is absent, another type throws.
  abbrev pub optional_text : Option Json → Attempt (Option Text)
  optional_text none = returns none
  optional_text (some j) = elim (get_text j) [ none ↦ throws | some t ↦ returns (some t) ]

  abbrev pub optional_number : Option Json → Attempt (Option Json)
  optional_number none = returns none
  optional_number (some j) = if is_number j then returns (some j) else throws

  unfoldable pub progress_to_json : ProgressNotification Json → Json
  progress_to_json n =
      set_optional L
        (set_optional L
          (object L (
            (codes "progressToken", request_id_to_json L n.progress_token)
            ∷ (codes "progress", n.progress)
            ∷ []))
          (codes "total") n.total)
        (codes "message") (text_to_json n.message)

  abbrev pub malformed {ℓ} : {A : Type ℓ} → String → Attempt (Result Json A)
  malformed what = returns (err (fail_with invalid_params (codes what)))

  abbrev progress_of :
      RequestId
      → Json
      → Attempt (Option Json)
      → Attempt (Option Text)
      → Attempt (Result Json (ProgressNotification Json))
  progress_of token progress (returns total) (returns message) = returns (
      ok (record { progress_token = token; progress = progress; total = total; message = message }))
  progress_of token progress _ _ = throws

  abbrev progress_members :
      Json → Option Json → Option Json → Attempt (Result Json (ProgressNotification Json))
  progress_members j (some token) (some progress) =
      if not (is_number progress)
      then malformed "malformed progress notification"
      else elim (request_id_from_json L token) [
        | none ↦ malformed "progressToken must be a string or integer"
        | some t ↦
            progress_of t progress (optional_number (non_null L (find (codes "total") j)))
              (optional_text (non_null L (find (codes "message") j)))
      ]
  progress_members j _ _ = malformed "malformed progress notification"

  unfoldable pub progress_from_json : Json → Attempt (Result Json (ProgressNotification Json))
  progress_from_json j =
      if not (is_object j)
      then malformed "malformed progress notification"
      else progress_members j (find (codes "progressToken") j) (find (codes "progress") j)

  unfoldable pub cancelled_to_json : CancelledNotification → Json
  cancelled_to_json n =
      set_optional L (object L ((codes "requestId", request_id_to_json L n.request_id) ∷ []))
        (codes "reason") (text_to_json n.reason)

  abbrev cancelled_of :
      RequestId → Attempt (Option Text) → Attempt (Result Json CancelledNotification)
  cancelled_of id throws = throws
  cancelled_of id (returns reason) = returns (ok (record { request_id = id; reason = reason }))

  abbrev cancelled_members : Json → Option Json → Attempt (Result Json CancelledNotification)
  cancelled_members j none = malformed "malformed cancelled notification"
  cancelled_members j (some id_json) = elim (request_id_from_json L id_json) [
    | none ↦ malformed "requestId must be a string or integer"
    | some id ↦ cancelled_of id (optional_text (non_null L (find (codes "reason") j)))
  ]

  unfoldable pub cancelled_from_json : Json → Attempt (Result Json CancelledNotification)
  cancelled_from_json j =
      if not (is_object j)
      then malformed "malformed cancelled notification"
      else cancelled_members j (find (codes "requestId") j)
