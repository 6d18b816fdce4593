-- ===== src/Schema.antt =====
-- src/core/schema.cpp: the check of a value by a JSON schema. `validate_at` calls itself on members
-- and elements of the value, here on fuel; `none` is out of fuel.
-- `string_of` reads a string where the code has tested
-- `is_string`.
pub mod Rules
pub mod Nested
pub mod Validity
pub mod Refusals
use mcp_cpp.Common.{
  ℕ, zero, suc, Bool, true, false, not, ◌&&◌, ◌||◌, Option, none, some, List, [], ◌∷◌, ◌++◌, Text,
  codes, text_eq, to_text, if◌then◌else◌,
}
use mcp_cpp.Json.{JsonLib, contains}
use mcp_cpp.Errors.{Error, fail_with, invalid_params, Result, ok, err, Done, done}

-- The early return of an error; `none` is out of fuel.
infixr 5 ◌then_check◌
abbrev pub ◌then_check◌ :
    {J : Type 0} → Option (Result J Done) → Option (Result J Done) → Option (Result J Done)
none then_check next = none
(some (ok done)) then_check next = next
(some (err e)) then_check next = some (err e)

module _ (L : JsonLib) where
  open L use {
    Json, is_object, is_array, is_string, is_number, is_number_integer, is_boolean, is_null, find,
    elements, members, get_text, get_bool, equal, dump,
  }

  unfoldable pub matches_type : Json → Text → Bool
  matches_type value type =
      if text_eq type (codes "object")
      then is_object value
      else if text_eq type (codes "array")
      then is_array value
      else if text_eq type (codes "string")
      then is_string value
      else if text_eq type (codes "number")
      then is_number value
      else if text_eq type (codes "integer")
      then is_number_integer value
      else if text_eq type (codes "boolean")
      then is_boolean value
      else if text_eq type (codes "null")
      then is_null value
      else true

  abbrev pub place : Text → Text
  place [] = codes "value"
  place (c ∷ path) = c ∷ path

  unfoldable pub invalid : Text → Text → Result Json Done
  invalid path what = err (fail_with invalid_params (place path ++ codes " " ++ what))

  unfoldable pub string_of : Json → Option Text
  string_of j = if is_string j then get_text j else none

  abbrev pub named_type : Json → Option Text → Bool
  named_type value none = false
  named_type value (some type) = matches_type value type

  -- The loop over the names of a list of types.
  unfoldable pub any_type : Json → List Json → Bool
  any_type value [] = false
  any_type value (t ∷ ts) = if named_type value (string_of t) then true else any_type value ts

  unfoldable pub type_ok : Json → Json → Bool
  type_ok value t =
      if is_string t
      then named_type value (string_of t)
      else if is_array t
      then any_type value (elements t)
      else true

  unfoldable pub check_type : Json → Option Json → Text → Result Json Done
  check_type value none path = ok done
  check_type value (some t) path =
      if type_ok value t
      then ok done
      else invalid path (codes "has wrong type (expected " ++ dump t ++ codes ")")

  unfoldable pub is_candidate : Json → List Json → Bool
  is_candidate value [] = false
  is_candidate value (c ∷ cs) = if equal c value then true else is_candidate value cs

  unfoldable pub check_enum : Json → Option Json → Text → Result Json Done
  check_enum value none path = ok done
  check_enum value (some candidates) path =
      if is_array candidates && not (is_candidate value (elements candidates))
      then invalid path (codes "is not one of the allowed values")
      else ok done

  abbrev pub absent_name : Json → Option Text → Bool
  absent_name value none = false
  absent_name value (some name) = not (contains L name value)

  abbrev pub missing_property : Option Text → Text → Result Json Done
  missing_property none path = ok done
  missing_property (some name) path =
      invalid path (codes "is missing required property '" ++ name ++ codes "'")

  unfoldable pub check_names : Json → List Json → Text → Result Json Done
  check_names value [] path = ok done
  check_names value (name ∷ names) path =
      if absent_name value (string_of name)
      then missing_property (string_of name) path
      else check_names value names path

  unfoldable pub check_required : Json → Option Json → Text → Result Json Done
  check_required value none path = ok done
  check_required value (some required) path =
      if is_array required then check_names value (elements required) path else ok done

  -- The member "properties", where `has_props` holds.
  abbrev pub properties_of : Option Json → Option Json
  properties_of none = none
  properties_of (some props) = if is_object props then some props else none

  abbrev pub is_property : Text → Option Json → Bool
  is_property name none = false
  is_property name (some props) = contains L name props

  unfoldable pub check_unexpected : List (Text × Json) → Option Json → Text → Result Json Done
  check_unexpected [] props path = ok done
  check_unexpected (m ∷ ms) props path =
      if is_property m.0 props
      then check_unexpected ms props path
      else invalid path (codes "has unexpected property '" ++ m.0 ++ codes "'")

  abbrev pub is_false : Option Bool → Bool
  is_false (some false) = true
  is_false _ = false

  unfoldable pub closes : Option Json → Bool
  closes none = false
  closes (some ap) = is_boolean ap && is_false (get_bool ap)

  unfoldable pub check_additional : Json → Json → Option Json → Text → Result Json Done
  check_additional value schema props path =
      if closes (find (codes "additionalProperties") schema)
      then check_unexpected (members value) props path
      else ok done

  -- `nested` is `validate_at` on less fuel.
  module _ (nested : Json → Json → Text → Option (Result Json Done)) where
    abbrev pub check_member : Option Json → Json → Text → Option (Result Json Done)
    check_member none schema path = some (ok done)
    check_member (some member) schema path = nested member schema path

    unfoldable pub check_properties : Json → List (Text × Json) → Text → Option (Result Json Done)
    check_properties value [] path = some (ok done)
    check_properties value (p ∷ ps) path =
        check_member (find p.0 value) p.1 (path ++ codes "/" ++ p.0)
        then_check check_properties value ps path

    abbrev pub check_nested : Json → Option Json → Text → Option (Result Json Done)
    check_nested value none path = some (ok done)
    check_nested value (some props) path = check_properties value (members props) path

    unfoldable pub check_object : Json → Json → Text → Option (Result Json Done)
    check_object value schema path =
        let props = properties_of (find (codes "properties") schema) in
        some (check_required value (find (codes "required") schema) path)
        then_check check_nested value props path
        then_check some (check_additional value schema props path)

    unfoldable pub check_elements : List Json → Json → ℕ → Text → Option (Result Json Done)
    check_elements [] items index path = some (ok done)
    check_elements (element ∷ rest) items index path =
        nested element items (path ++ codes "/" ++ to_text index)
        then_check check_elements rest items (suc index) path

    unfoldable pub check_array : Json → Option Json → Text → Option (Result Json Done)
    check_array value none path = some (ok done)
    check_array value (some items) path =
        if is_object items then check_elements (elements value) items 0 path else some (ok done)

    unfoldable pub validate_with : Json → Json → Text → Option (Result Json Done)
    validate_with value schema path =
        if not (is_object schema)
        then some (ok done)
        else some (check_type value (find (codes "type") schema) path)
          then_check some (check_enum value (find (codes "enum") schema) path)
          then_check (if is_object value then check_object value schema path else some (ok done))
          then_check (if is_array value
              then check_array value (find (codes "items") schema) path
              else some (ok done))

  unfoldable pub validate_at : ℕ → Json → Json → Text → Option (Result Json Done)
  validate_at zero value schema path = none
  validate_at (suc fuel) value schema path = validate_with (validate_at fuel) value schema path

  -- `depth` bounds the nesting of values.
  unfoldable pub validate_schema : (Json → ℕ) → Json → Json → Option (Result Json Done)
  validate_schema depth value schema = validate_at (suc (depth value)) value schema []
