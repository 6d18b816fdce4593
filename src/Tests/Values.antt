-- ===== src/Tests/Values.antt =====
-- A small JSON library: values as a data type, one text that is parsed, and its laws.
use mcp_cpp.Common.{
  ℤ, pos, Bool, true, false, Option, none, some, List, [], ◌∷◌, Text, text_eq, if◌then◌else◌, ◌≡◌,
  refl, ap,
}
use mcp_cpp.Json.{JsonLib, JsonLaws}
use mcp_cpp.Messages.Frames.Batches.{FrameLaws}

mutual
  pub data Value : Type 0 where
    null_value : Value
    text_value : Text → Value
    int_value : ℤ → Value
    bool_value : Bool → Value
    array_value : Values → Value
    object_value : Members → Value

  pub data Values : Type 0 where
    no_value : Values
    one_more : Value → Values → Values

  pub data Members : Type 0 where
    no_member : Members
    member : Text → Value → Members → Members

abbrev pub member_of : Text → Members → Option Value
member_of k no_member = none
member_of k (member j v ms) = if text_eq j k then some v else member_of k ms

abbrev pub find : Text → Value → Option Value
find k (object_value ms) = member_of k ms
find k _ = none

abbrev pub set_key : Text → Value → Value → Value
set_key k v (object_value ms) = object_value (member k v ms)
set_key k v other = other

abbrev pub to_list : Values → List Value
to_list no_value = []
to_list (one_more v vs) = v ∷ to_list vs

abbrev pub from_list : List Value → Values
from_list [] = no_value
from_list (v ∷ vs) = one_more v (from_list vs)

abbrev pub members_list : Members → List (Text × Value)
members_list no_member = []
members_list (member k v ms) = (k, v) ∷ members_list ms

abbrev pub elements : Value → List Value
elements (array_value vs) = to_list vs
elements _ = []

abbrev pub members : Value → List (Text × Value)
members (object_value ms) = members_list ms
members _ = []

abbrev pub is_null : Value → Bool
is_null null_value = true
is_null _ = false

abbrev pub is_object : Value → Bool
is_object (object_value ms) = true
is_object _ = false

abbrev pub is_array : Value → Bool
is_array (array_value vs) = true
is_array _ = false

abbrev pub is_string : Value → Bool
is_string (text_value t) = true
is_string _ = false

abbrev pub is_integer : Value → Bool
is_integer (int_value n) = true
is_integer _ = false

abbrev pub is_boolean : Value → Bool
is_boolean (bool_value b) = true
is_boolean _ = false

abbrev pub get_text : Value → Option Text
get_text (text_value t) = some t
get_text _ = none

abbrev pub get_int : Value → Option ℤ
get_int (int_value n) = some n
get_int _ = none

abbrev get_code : Value → Option ℤ
get_code (int_value n) = some n
get_code (bool_value true) = some (pos 1)
get_code (bool_value false) = some (pos 0)
get_code _ = none

abbrev pub get_bool : Value → Option Bool
get_bool (bool_value b) = some b
get_bool _ = none

-- The library whose only text is that of `wire`.
abbrev pub value_lib : Value → JsonLib
value_lib wire = record {
  Json = Value;
  null = null_value;
  is_null = is_null;
  is_object = is_object;
  is_array = is_array;
  is_string = is_string;
  is_number = is_integer;
  is_number_integer = is_integer;
  is_boolean = is_boolean;
  find = find;
  set_key = set_key;
  empty_object = object_value no_member;
  elements = elements;
  members = members;
  array = λ vs. array_value (from_list vs);
  from_text = text_value;
  get_text = get_text;
  from_int = int_value;
  get_int = get_int;
  get_code = get_code;
  get_bool = get_bool;
  from_bool = bool_value;
  equal = λ a b. false;
  parse = λ text. some wire;
  dump = λ v. [];
}

find-set_key :
    (k j : Text) (v o : Value)
    → is_object o ≡ true
    → find k (set_key j v o) ≡ (if text_eq j k then some v else find k o)
find-set_key k j v (object_value ms) h = refl
find-set_key k j v null_value h = absurd (cc)
find-set_key k j v (text_value t) h = absurd (cc)
find-set_key k j v (int_value n) h = absurd (cc)
find-set_key k j v (bool_value b) h = absurd (cc)
find-set_key k j v (array_value vs) h = absurd (cc)

is_object-set_key : (k : Text) (v o : Value) → is_object o ≡ true → is_object (set_key k v o) ≡ true
is_object-set_key k v (object_value ms) h = refl
is_object-set_key k v null_value h = h
is_object-set_key k v (text_value t) h = h
is_object-set_key k v (int_value n) h = h
is_object-set_key k v (bool_value b) h = h
is_object-set_key k v (array_value vs) h = h

elements-array : (vs : List Value) → to_list (from_list vs) ≡ vs
elements-array [] = refl
elements-array (v ∷ vs) = ap (◌∷◌ v) (elements-array vs)

pub value-JsonLaws : (wire : Value) → JsonLaws (value_lib wire)
value-JsonLaws wire = record {
  find-empty_object = λ k. refl;
  find-set_key = find-set_key;
  is_object-empty_object = refl;
  is_object-set_key = is_object-set_key;
  is_null-null = refl;
  is_null-from_text = λ t. refl;
  is_null-from_int = λ n. refl;
  is_string-from_text = λ t. refl;
  get_text-from_text = λ t. refl;
  is_number_integer-from_int = λ n. refl;
  is_number_integer-from_text = λ t. refl;
  get_int-from_int = λ n. refl;
  get_code-from_int = λ n. refl;
}

pub value-FrameLaws : (wire : Value) → FrameLaws (value_lib wire)
value-FrameLaws wire = record { is_array-array = λ vs. refl; elements-array = elements-array }
