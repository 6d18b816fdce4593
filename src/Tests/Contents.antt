-- ===== src/Tests/Contents.antt =====
-- Content at a concrete input.
use mcp_cpp.Common.{ℕ, pos, true, false, Option, none, some, [], ◌∷◌, codes, ◌≡◌, refl, arith}
use mcp_cpp.Errors.{ok}
use mcp_cpp.Content.{
  Content, text_content, tool_result, no_content, more_content, Doubles, content_to_json,
  content_from_json,
}
use mcp_cpp.Content.Parts.{ContentLaws}
use mcp_cpp.Content.RoundTrip.{content_from_json-content_to_json}
use mcp_cpp.Tests.Values.{
  Value, null_value, text_value, int_value, bool_value, array_value, object_value, value_lib,
  value-JsonLaws, value-FrameLaws, is_object, is_null,
}

abbrev whole_number : Value → Option ℕ
whole_number (int_value (pos n)) = some n
whole_number _ = none

-- The numbers that are natural.
abbrev value_doubles : Doubles (value_lib null_value)
value_doubles = record {
  Double = ℕ;
  from_double = λ n. int_value (pos n);
  get_double = whole_number;
}

object_not_null : (v : Value) → is_object v ≡ true → is_null v ≡ false
object_not_null (object_value ms) h = refl
object_not_null (text_value t) h = refl
object_not_null (int_value n) h = refl
object_not_null (bool_value b) h = refl
object_not_null (array_value vs) h = refl
object_not_null null_value h = absurd (cc)

value-ContentLaws : ContentLaws (value_lib null_value) value_doubles
value-ContentLaws = record {
  is_null-is_object = object_not_null;
  is_null-array = λ js. refl;
  is_null-from_double = λ d. refl;
  get_double-from_double = λ d. refl;
  get_bool-from_bool = λ b. refl;
}

abbrev nested_result : Content Value ℕ
nested_result =
    tool_result (codes "t1")
      (more_content
        (text_content (codes "hi") (
          some (record {
            audience = some (codes "user" ∷ []);
            priority = some 1;
            last_modified = none;
          })))
        no_content)
      true

content_from_json-content_to_json_example :
    content_from_json
      (value_lib null_value)
      value_doubles
      (λ j. [])
      2
      (content_to_json (value_lib null_value) value_doubles nested_result)
    ≡ some (ok nested_result)
content_from_json-content_to_json_example =
    content_from_json-content_to_json (value_lib null_value) value_doubles
      (value-JsonLaws null_value) (value-FrameLaws null_value) value-ContentLaws (λ j. [])
      nested_result 2 (omega arith)
