-- ===== src/Messages.antt =====
-- src/jsonrpc/message.cpp, include/mcp/jsonrpc/message.hpp, the request ids of
-- include/mcp/types.hpp, and `Error::to_json` and `Error::from_json` of include/mcp/error.hpp.
pub mod Ids
pub mod Members
pub mod ErrorObjects
pub mod RoundTrip
pub mod Frames
use mcp_cpp.Common.{
  ℕ, ℤ, Bool, true, false, not, ◌&&◌, ◌||◌, Option, none, some, List, [], ◌∷◌, ◌++◌, Text, codes,
  text_eq, if◌then◌else◌, map,
}
use Prim.Native.String.{String}
use mcp_cpp.Errors.{Error, fail_with, parse_error, invalid_request, Result, ok, err}
use mcp_cpp.Json.{JsonLib, is_some, contains, object, set_optional, non_null}

-- `RequestId` and `ProgressToken`.
pub data RequestId : Type 0 where
  int_id : ℤ → RequestId
  text_id : Text → RequestId

pub record JsonRpcRequest (J : Type 0) : Type 0 where
  pub id : RequestId
  pub method : Text
  pub params : Option J

pub record JsonRpcNotification (J : Type 0) : Type 0 where
  pub method : Text
  pub params : Option J

pub record JsonRpcResponse (J : Type 0) : Type 0 where
  pub id : Option RequestId
  pub result : Option J
  pub error : Option (Error J)

pub data Message (J : Type 0) : Type 0 where
  request : JsonRpcRequest J → Message J
  notification : JsonRpcNotification J → Message J
  response : JsonRpcResponse J → Message J

-- A call that may also leave by an exception of the JSON library, which the code here does not catch.
pub data Attempt {ℓ} (A : Type ℓ) : Type ℓ where
  returns : A → Attempt A
  throws : Attempt A

module _ (L : JsonLib) where
  open L use {
    Json, null, is_null, is_object, is_array, is_string, is_number_integer, find, set_key, elements,
    array, from_text, get_text, from_int, get_int, get_code, parse, dump,
  }

  unfoldable pub request_id_to_json : RequestId → Json
  request_id_to_json (int_id n) = from_int n
  request_id_to_json (text_id t) = from_text t

  abbrev pub int_id_of : Option ℤ → Option RequestId
  int_id_of none = none
  int_id_of (some n) = some (int_id n)

  abbrev pub text_id_of : Option Text → Option RequestId
  text_id_of none = none
  text_id_of (some t) = some (text_id t)

  -- The getters do not throw here, since the kind of the value was tested.
  unfoldable pub request_id_from_json : Json → Option RequestId
  request_id_from_json j =
      if is_number_integer j
      then int_id_of (get_int j)
      else if is_string j
      then text_id_of (get_text j)
      else none

  unfoldable pub error_to_json : Error Json → Json
  error_to_json e =
      set_optional L
        (object L ((codes "code", from_int e.code) ∷ (codes "message", from_text e.message) ∷ []))
        (codes "data") e.payload

  -- `Error::from_json`: `at` and `get` throw on a missing key and on a value of another type.
  abbrev pub error_of : Option Json → Option Json → Option Json → Attempt (Error Json)
  error_of (some c) (some m) payload = elim (get_code c) [
    | none ↦ throws
    | some code ↦ elim (get_text m) [
      | none ↦ throws
      | some message ↦
          returns (record { code = code; message = message; payload = non_null L payload })
    ]
  ]
  error_of _ _ payload = throws

  unfoldable pub error_from_json : Json → Attempt (Error Json)
  error_from_json j =
      error_of (find (codes "code") j) (find (codes "message") j) (find (codes "data") j)

  unfoldable pub request_to_json : JsonRpcRequest Json → Json
  request_to_json r =
      set_optional L
        (object L (
          (codes "jsonrpc", from_text (codes "2.0"))
          ∷ (codes "id", request_id_to_json r.id)
          ∷ (codes "method", from_text r.method)
          ∷ []))
        (codes "params") r.params

  unfoldable pub notification_to_json : JsonRpcNotification Json → Json
  notification_to_json n =
      set_optional L
        (object L
          ((codes "jsonrpc", from_text (codes "2.0")) ∷ (codes "method", from_text n.method) ∷ []))
        (codes "params") n.params

  abbrev pub id_to_json : Option RequestId → Json
  id_to_json none = null
  id_to_json (some id) = request_id_to_json id

  abbrev pub value_or_null : Option Json → Json
  value_or_null none = null
  value_or_null (some j) = j

  abbrev pub outcome_to_json : Option (Error Json) → Option Json → Json → Json
  outcome_to_json (some e) result j = set_key (codes "error") (error_to_json e) j
  outcome_to_json none result j = set_key (codes "result") (value_or_null result) j

  unfoldable pub response_to_json : JsonRpcResponse Json → Json
  response_to_json r = outcome_to_json r.error r.result (
      set_key (codes "id") (id_to_json r.id)
        (object L ((codes "jsonrpc", from_text (codes "2.0")) ∷ [])))

  unfoldable pub message_to_json : Message Json → Json
  message_to_json (request r) = request_to_json r
  message_to_json (notification n) = notification_to_json n
  message_to_json (response r) = response_to_json r

  unfoldable pub serialize_message : Message Json → Text
  serialize_message m = dump (message_to_json m)

  unfoldable pub serialize_batch : List (Message Json) → Text
  serialize_batch ms = dump (array (map message_to_json ms))

  abbrev pub Parsed : Type 0
  Parsed = Attempt (Result Json (Message Json))

  abbrev pub invalid : String → Parsed
  invalid what = returns (err (fail_with invalid_request (codes what)))

  -- `jsonrpc` is there, a string, and "2.0".
  abbrev pub is_version : Option Json → Bool
  is_version none = false
  is_version (some v) =
      is_string v && elim (get_text v) [ none ↦ false | some t ↦ text_eq t (codes "2.0") ]

  abbrev pub valid_params : Json → Bool
  valid_params j = is_object j || is_array j

  -- A message with a method: a notification without an id, else a request.
  abbrev pub call_of : Text → Option Json → Option Json → Parsed
  call_of method params none =
      returns (ok (notification (record { method = method; params = params })))
  call_of method params (some id_json) = elim (request_id_from_json id_json) [
    | none ↦ invalid "request id must be a string or integer"
    | some id ↦ returns (ok (request (record { id = id; method = method; params = params })))
  ]

  abbrev pub with_params : Text → Option Json → Option Json → Parsed
  with_params method none id_json = call_of method none id_json
  with_params method (some p) id_json =
      if valid_params p
      then call_of method (some p) id_json
      else invalid "params must be an object or array"

  unfoldable pub parse_call : Json → Json → Parsed
  parse_call j method_json =
      if is_string method_json
      then elim (get_text method_json) [
        | none ↦ throws
        | some method ↦
            with_params method (non_null L (find (codes "params") j)) (find (codes "id") j)
      ]
      else invalid "method must be a string"

  abbrev pub failed_response : Option RequestId → Attempt (Error Json) → Parsed
  failed_response id throws = throws
  failed_response id (returns e) =
      returns (ok (response (record { id = id; result = none; error = some e })))

  abbrev pub response_of : Option RequestId → Option Json → Option Json → Parsed
  response_of id (some e) result =
      if is_object e && contains L (codes "code") e && contains L (codes "message") e
      then failed_response id (error_from_json e)
      else invalid "malformed error object"
  response_of id none result =
      returns (ok (response (record { id = id; result = result; error = none })))

  abbrev pub response_id : Json → Option (Option RequestId)
  response_id id_json =
      if is_null id_json
      then some none
      else elim (request_id_from_json id_json) [ none ↦ none | some id ↦ some (some id) ]

  abbrev pub with_id : Option Json → Option Json → Option Json → Parsed
  with_id none error_json result = invalid "response is missing id"
  with_id (some id_json) error_json result = elim (response_id id_json) [
    | none ↦ invalid "response id must be a string, integer, or null"
    | some id ↦ response_of id error_json result
  ]

  abbrev pub same : Bool → Bool → Bool
  same true b = b
  same false b = not b

  unfoldable pub parse_response : Json → Parsed
  parse_response j =
      if same (contains L (codes "result") j) (contains L (codes "error") j)
      then invalid "response must contain exactly one of result/error"
      else with_id (find (codes "id") j) (find (codes "error") j) (find (codes "result") j)

  abbrev pub by_method : Json → Option Json → Parsed
  unfolding parse_call parse_response
  by_method j none = parse_response j
  by_method j (some method_json) = parse_call j method_json

  unfoldable pub parse_message : Json → Parsed
  unfolding parse_call parse_response
  parse_message j =
      if not (is_object j)
      then invalid "message is not a JSON object"
      else if not (is_version (find (codes "jsonrpc") j))
      then invalid "missing or invalid jsonrpc version"
      else by_method j (find (codes "method") j)
