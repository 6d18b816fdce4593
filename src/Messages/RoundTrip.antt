-- ===== src/Messages/RoundTrip.antt =====
-- A message that is sent is the message that is read.
use mcp_cpp.Common.{
  true, false, ◌||◌, Option, none, some, List, [], ◌∷◌, Text, codes, text_eq, if◌then◌else◌, ◌≡◌,
  refl, ap, ◌∙◌,
}
use mcp_cpp.Common.Dict.{lookup, text_key}
use mcp_cpp.Errors.{Error, ok}
use mcp_cpp.Json.{JsonLib, JsonLaws, object, non_null, is_some}
use mcp_cpp.Messages.{
  RequestId, int_id, text_id, JsonRpcRequest, JsonRpcNotification, JsonRpcResponse, response_id,
  response_of, id_to_json, same, with_id, invalid, outcome_to_json, Message, request, notification,
  response, returns, request_id_to_json, error_to_json, request_to_json, notification_to_json,
  response_to_json, message_to_json, by_method, call_of, with_params, parse_call, parse_response,
  parse_message,
}
use mcp_cpp.Messages.Members.{
  member_or-other, member_or-own, is_object-object, find-object, find-set_optional,
  is_object-set_optional, request_id_from_json-to_json,
}
use mcp_cpp.Messages.ErrorObjects.{error_members, error_from_json-to_json, IsPayload}

module _ (L : JsonLib) (laws : JsonLaws L) where
  open L use {Json, is_object, is_array, is_null, find, set_key}

  -- Parameters that the wire carries: an object or an array, and neither of them is null.
  abbrev pub IsParams : Option Json → Type 0
  IsParams none = Unit {0}
  IsParams (some p) = ((is_object p || is_array p) ≡ true) × (is_null p ≡ false)

  -- A result or an error, and not both; the data of an error is not null.
  abbrev pub IsOutcome : Option (Error Json) → Option Json → Type 0
  IsOutcome none none = ⊥
  IsOutcome none (some v) = Unit {0}
  IsOutcome (some e) none = IsPayload L laws e.payload
  IsOutcome (some e) (some v) = ⊥

  -- The messages that the wire carries.
  abbrev pub IsWire : Message Json → Type 0
  IsWire (request r) = IsParams r.params
  IsWire (notification n) = IsParams n.params
  IsWire (response r) = IsOutcome r.error r.result

  version_text : text_eq (codes "2.0") (codes "2.0") ≡ true
  unfolding text_eq
  version_text = refl

  abbrev IsVersioned : Json → Type 0
  IsVersioned j =
      (is_object j ≡ true) × (find (codes "jsonrpc") j ≡ some (L.from_text (codes "2.0")))

  parse-by_method :
      (j : Json) → IsVersioned j → parse_message L j ≡ by_method L j (find (codes "method") j)
  unfolding parse_message
  parse-by_method j v = rw (
    v.0,
    v.1,
    laws.is_string-from_text (codes "2.0"),
    laws.get_text-from_text (codes "2.0"),
    version_text,
  )

  params-non_null : (ps : Option Json) → IsParams ps → non_null L ps ≡ ps
  params-non_null none v = refl
  params-non_null (some p) v = rw v.1

  parse_call-text :
      (j : Json) (m : Text) (ps : Option Json)
      → find (codes "params") j ≡ ps
      → IsParams ps
      → parse_call L j (L.from_text m) ≡ with_params L m ps (find (codes "id") j)
  unfolding parse_call
  parse_call-text j m ps e v =
      rw (laws.is_string-from_text m, laws.get_text-from_text m, e, params-non_null ps v)

  with_params-call :
      (m : Text) (ps : Option Json) (id_json : Option Json)
      → IsParams ps
      → with_params L m ps id_json ≡ call_of L m ps id_json
  with_params-call m none id_json v = refl
  with_params-call m (some p) id_json v = rw v.0

  module _ (m : Text) (ps : Option Json) (v : IsParams ps) where
    -- What a message with a method is read as, from its members.
    parse-method :
        (j : Json)
        → IsVersioned j
        → find (codes "method") j ≡ some (L.from_text m)
        → find (codes "params") j ≡ ps
        → parse_message L j ≡ call_of L m ps (find (codes "id") j)
    unfolding by_method parse_call
    parse-method j versioned method params =
        parse-by_method j versioned
        ∙ ap (by_method L j) method
        ∙ parse_call-text j m ps params v
        ∙ with_params-call m ps (find (codes "id") j) v

  call_of-request :
      (id : RequestId) (m : Text) (ps : Option Json)
      → call_of L m ps (some (request_id_to_json L id))
        ≡ returns (ok (request (record { id = id; method = m; params = ps })))
  call_of-request id m ps = rw (request_id_from_json-to_json L laws id, call_of)

  parse-request :
      (r : JsonRpcRequest Json)
      → IsParams r.params
      → parse_message L (request_to_json L r) ≡ returns (ok (request r))
  unfolding request_to_json lookup text_eq
  parse-request r v =
      let fields =
        (codes "jsonrpc", L.from_text (codes "2.0"))
        ∷ (codes "id", request_id_to_json L r.id)
        ∷ (codes "method", L.from_text r.method)
        ∷ [] in
      let at = λ (k : Text). find-set_optional L laws k (codes "params") fields r.params in
      let other = λ (x : Option Json). member_or-other r.params x in
      parse-method r.method r.params v (request_to_json L r)
        (
          is_object-set_optional L laws (codes "params") fields r.params,
          at (codes "jsonrpc") ∙ other _,
        )
        (at (codes "method") ∙ other _) (at (codes "params") ∙ member_or-own r.params)
      ∙ ap (call_of L r.method r.params) (at (codes "id") ∙ other _)
      ∙ call_of-request r.id r.method r.params

  parse-notification :
      (n : JsonRpcNotification Json)
      → IsParams n.params
      → parse_message L (notification_to_json L n) ≡ returns (ok (notification n))
  unfolding notification_to_json lookup text_eq
  parse-notification n v =
      let fields =
        (codes "jsonrpc", L.from_text (codes "2.0"))
        ∷ (codes "method", L.from_text n.method)
        ∷ [] in
      let at = λ (k : Text). find-set_optional L laws k (codes "params") fields n.params in
      let other = λ (x : Option Json). member_or-other n.params x in
      parse-method n.method n.params v (notification_to_json L n)
        (
          is_object-set_optional L laws (codes "params") fields n.params,
          at (codes "jsonrpc") ∙ other _,
        )
        (at (codes "method") ∙ other _) (at (codes "params") ∙ member_or-own n.params)
      ∙ ap (call_of L n.method n.params) (at (codes "id") ∙ other _)

  response_id-to_json : (id : Option RequestId) → response_id L (id_to_json L id) ≡ some id
  unfolding request_id_to_json
  response_id-to_json none = rw laws.is_null-null
  response_id-to_json (some (int_id n)) =
      rw (laws.is_null-from_int n) (rw (request_id_from_json-to_json L laws (int_id n)))
  response_id-to_json (some (text_id t)) =
      rw (laws.is_null-from_text t) (rw (request_id_from_json-to_json L laws (text_id t)))

  response_of-error :
      (id : Option RequestId) (e : Error Json) (result : Option Json)
      → IsPayload L laws e.payload
      → response_of L id (some (error_to_json L e)) result
        ≡ returns (ok (response (record { id = id; result = none; error = some e })))
  response_of-error id e result v =
      let (o, c, m, d) = error_members L laws e in rw (o, c, m, error_from_json-to_json L laws e v)

  -- What an object without a method is read as, from its members.
  parse-members :
      (fields : List (Text × Json))
      → lookup (codes "jsonrpc") fields ≡ some (L.from_text (codes "2.0"))
      → lookup (codes "method") fields ≡ none
      → parse_message L (object L fields) ≡ (
          if same L
            (is_some (lookup (codes "result") fields))
            (is_some (lookup (codes "error") fields))
          then invalid L "response must contain exactly one of result/error"
          else with_id L
              (lookup (codes "id") fields)
              (lookup (codes "error") fields)
              (lookup (codes "result") fields))
  unfolding by_method parse_response
  parse-members fields version method =
      parse-by_method (object L fields)
        (is_object-object L laws fields, find-object L laws (codes "jsonrpc") fields ∙ version)
      ∙ ap (by_method L (object L fields)) (find-object L laws (codes "method") fields ∙ method)
      ∙ rw (
        find-object L laws (codes "result") fields,
        find-object L laws (codes "error") fields,
        find-object L laws (codes "id") fields,
      )

  with_id-to_json :
      (id : Option RequestId) (error_json result : Option Json)
      → with_id L (some (id_to_json L id)) error_json result ≡ response_of L id error_json result
  with_id-to_json id error_json result = rw (response_id-to_json id, with_id)

  abbrev headed : Option RequestId → List (Text × Json)
  headed id = (codes "id", id_to_json L id) ∷ (codes "jsonrpc", L.from_text (codes "2.0")) ∷ []

  parse-outcome :
      (id : Option RequestId) (e : Option (Error Json)) (v : Option Json)
      → IsOutcome e v
      → parse_message L (outcome_to_json L e v (object L (headed id)))
        ≡ returns (ok (response (record { id = id; result = v; error = e })))
  unfolding object lookup text_eq
  parse-outcome id none none o = absurd o
  parse-outcome id none (some v) o =
      parse-members ((codes "result", v) ∷ headed id) refl refl ∙ with_id-to_json id none (some v)
  parse-outcome id (some e) none o =
      parse-members ((codes "error", error_to_json L e) ∷ headed id) refl refl
      ∙ with_id-to_json id (some (error_to_json L e)) none
      ∙ response_of-error id e none o
  parse-outcome id (some e) (some v) o = absurd o

  parse-response :
      (r : JsonRpcResponse Json)
      → IsOutcome r.error r.result
      → parse_message L (response_to_json L r) ≡ returns (ok (response r))
  unfolding response_to_json object
  parse-response r v = parse-outcome r.id r.error r.result v

  -- Parsing what `message_to_json` writes gives back the message, of every kind: a request or
  -- notification without parameters or whose parameters are an object or an array and not null,
  -- and a response with a result and no error, or with an error whose data is not null and no
  -- result; the JSON library's builders and accessors are assumed to agree with each other.
  pub parse_message-message_to_json :
      (m : Message Json) → IsWire m → parse_message L (message_to_json L m) ≡ returns (ok m)
  unfolding message_to_json
  parse_message-message_to_json (request r) v = parse-request r v
  parse_message-message_to_json (notification n) v = parse-notification n v
  parse_message-message_to_json (response r) v = parse-response r v
