-- ===== src/Messages/Members.antt =====
-- The members of the JSON objects that messages are written as, and ids read back.
use mcp_cpp.Common.{
  Bool, true, false, Option, none, some, List, [], ◌∷◌, Text, text_eq, if◌then◌else◌, ◌≡◌, refl,
}
use mcp_cpp.Common.Dict.{lookup, text_key}
use mcp_cpp.Json.{JsonLib, JsonLaws, object, set_optional}
use mcp_cpp.Messages.{RequestId, int_id, text_id, request_id_to_json, request_id_from_json}

abbrev pub member_or : {J : Type 0} → Option J → Bool → Option J → Option J
member_or none here there = there
member_or (some v) here there = if here then some v else there

pub member_or-other : {J : Type 0} (v there : Option J) → member_or v false there ≡ there
member_or-other none there = refl
member_or-other (some v) there = refl

pub member_or-own : {J : Type 0} (v : Option J) → member_or v true none ≡ v
member_or-own none = refl
member_or-own (some v) = refl

module _ (L : JsonLib) (laws : JsonLaws L) where
  open L use {Json, is_object, is_array, is_null, find, set_key}

  pub is_object-object : (fields : List (Text × Json)) → is_object (object L fields) ≡ true
  unfolding object
  is_object-object [] = laws.is_object-empty_object
  is_object-object ((k, v) ∷ fields) = laws.is_object-set_key k v _ (is_object-object fields)

  pub find-object :
      (k : Text) (fields : List (Text × Json)) → find k (object L fields) ≡ lookup k fields
  unfolding object lookup
  find-object k [] = laws.find-empty_object k
  find-object k ((j, v) ∷ fields) =
      rw (laws.find-set_key k j v (object L fields) (is_object-object fields), find-object k fields)

  pub find-set_optional :
      (k key : Text) (fields : List (Text × Json)) (v : Option Json)
      → find k (set_optional L (object L fields) key v)
        ≡ member_or v (text_eq key k) (lookup k fields)
  find-set_optional k key fields none = find-object k fields
  find-set_optional k key fields (some v) =
      rw (
        laws.find-set_key k key v (object L fields) (is_object-object fields),
        find-object k fields,
      )

  pub is_object-set_optional :
      (key : Text) (fields : List (Text × Json)) (v : Option Json)
      → is_object (set_optional L (object L fields) key v) ≡ true
  is_object-set_optional key fields none = is_object-object fields
  is_object-set_optional key fields (some v) =
      laws.is_object-set_key key v _ (is_object-object fields)

  pub request_id_from_json-to_json :
      (id : RequestId) → request_id_from_json L (request_id_to_json L id) ≡ some id
  unfolding request_id_from_json request_id_to_json
  request_id_from_json-to_json (int_id n) =
      rw (laws.is_number_integer-from_int n, laws.get_int-from_int n)
  request_id_from_json-to_json (text_id t) =
      rw (laws.is_number_integer-from_text t, laws.is_string-from_text t, laws.get_text-from_text t)
