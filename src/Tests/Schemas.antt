-- ===== src/Tests/Schemas.antt =====
-- The schema validator at concrete inputs.
use mcp_cpp.Common.{
  ℕ, suc, ◌+◌, ◌≤◌, ◌<◌, pos, false, some, [], Text, codes, text_eq, Element, first, later, ◌≡◌,
  ◌↔◌, ◌⊎◌, refl, arith, Bool-cases, inl, inr,
}
use mcp_cpp.Errors.{ok, err, done, fail_with, invalid_params}
use mcp_cpp.Schema.{
  validate_schema, validate_at, validate_with, check_type, type_ok, string_of, matches_type,
  check_enum, check_object, check_required, check_names, check_properties, check_additional, closes,
  check_unexpected, check_array,
}
use mcp_cpp.Schema.Validity.{Valid, DepthLaws, validate_schema-Valid}
use mcp_cpp.Schema.Refusals.{validate_schema-Settled}
use mcp_cpp.Tests.Values.{
  Value, Values, Members, null_value, text_value, int_value, bool_value, array_value, object_value,
  no_value, one_more, no_member, member, value_lib, find, member_of, to_list, elements,
}

abbrev mutual
  pub depth : Value → ℕ
  depth (array_value vs) = suc (depth_of_values vs)
  depth (object_value ms) = suc (depth_of_members ms)
  depth _ = 0

  -- A bound of the depths, their sum.
  pub depth_of_values : Values → ℕ
  depth_of_values no_value = 0
  depth_of_values (one_more v vs) = depth v + depth_of_values vs

  pub depth_of_members : Members → ℕ
  depth_of_members no_member = 0
  depth_of_members (member k v ms) = depth v + depth_of_members ms

depth-member_of :
    (k : Text) (ms : Members) (w : Value) → member_of k ms ≡ some w → depth w ≤ depth_of_members ms
depth-member_of k no_member w h = absurd (cc)
depth-member_of k (member j v ms) w h = elim (Bool-cases (text_eq j k)) [
  | inl e ↦ let same : v ≡ w = ground (arith) in rw (same) (omega arith)
  | inr e ↦
      let found : member_of k ms ≡ some w = ground (arith) in
      omega (arith, depth-member_of k ms w found)
]

depth-find : (k : Text) (v w : Value) → find k v ≡ some w → depth w < depth v
depth-find k (object_value ms) w h = omega (arith, depth-member_of k ms w h)
depth-find k null_value w h = absurd (cc)
depth-find k (text_value t) w h = absurd (cc)
depth-find k (int_value n) w h = absurd (cc)
depth-find k (bool_value b) w h = absurd (cc)
depth-find k (array_value vs) w h = absurd (cc)

depth-to_list : (vs : Values) (w : Value) → Element w (to_list vs) → depth w ≤ depth_of_values vs
depth-to_list no_value w i = elim i [ ]
depth-to_list (one_more v vs) _ first = omega arith
depth-to_list (one_more v vs) w (later i) = omega (arith, depth-to_list vs w i)

depth-elements : (v w : Value) → Element w (elements v) → depth w < depth v
depth-elements (array_value vs) w i = omega (arith, depth-to_list vs w i)
depth-elements null_value w i = elim i [ ]
depth-elements (text_value t) w i = elim i [ ]
depth-elements (int_value n) w i = elim i [ ]
depth-elements (bool_value b) w i = elim i [ ]
depth-elements (object_value ms) w i = elim i [ ]

pub depth_laws : DepthLaws (value_lib null_value) depth
depth_laws = record { depth-find = depth-find; depth-elements = depth-elements }

-- {"type": "object", "properties": {"n": {"type": "integer"}}, "required": ["n"],
--  "additionalProperties": false}
abbrev pub count_schema : Value
count_schema = object_value (
    member (codes "type") (text_value (codes "object")) (
      member (codes "properties")
        (object_value (
          member (codes "n")
            (object_value (member (codes "type") (text_value (codes "integer")) no_member))
            no_member))
        (member (codes "required") (array_value (one_more (text_value (codes "n")) no_value))
          (member (codes "additionalProperties") (bool_value false) no_member))))

abbrev pub three : Value
three = object_value (member (codes "n") (int_value (pos 3)) no_member)

accepted : validate_schema (value_lib null_value) depth three count_schema ≡ some (ok done)
unfolding validate_schema validate_at validate_with check_type type_ok string_of matches_type
    check_enum check_object check_required check_names check_properties check_additional closes
    check_unexpected check_array text_eq
accepted = refl

validate_schema-Valid_example :
    (validate_schema (value_lib null_value) depth three count_schema ≡ some (ok done))
    ↔ Valid (value_lib null_value) three count_schema
validate_schema-Valid_example =
    validate_schema-Valid (value_lib null_value) depth depth_laws three count_schema

validate_schema-Settled_example :
    (validate_schema (value_lib null_value) depth (text_value []) count_schema ≡ some (ok done))
    ⊎ ((message : Text) × (validate_schema (value_lib null_value) depth (text_value []) count_schema
          ≡ some (err (fail_with invalid_params message))))
validate_schema-Settled_example =
    validate_schema-Settled (value_lib null_value) depth depth_laws (text_value []) count_schema
