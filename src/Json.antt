-- ===== src/Json.antt =====
-- What the code uses of the third-party JSON library (`third_party/nlohmann/json.hpp`): the type of
-- values, its tests, accessors and builders, as an interface. A getter is `none` where the library
-- throws `json::type_error`; `find` is `none` where the library's `find` is `end()`, also on a
-- value that is no object.
use mcp_cpp.Common.{
  ℤ, Bool, true, false, Option, none, some, List, [], ◌∷◌, Text, text_eq, if◌then◌else◌, ◌≡◌,
}
use mcp_cpp.Common.Dict.{text_key}

pub record JsonLib : Type 1 where
  pub Json : Type 0
  pub null : Json
  pub is_null : Json → Bool
  pub is_object : Json → Bool
  pub is_array : Json → Bool
  pub is_string : Json → Bool
  pub is_number : Json → Bool
  pub is_number_integer : Json → Bool
  pub is_boolean : Json → Bool
  pub find : Text → Json → Option Json
  -- `j[key] = value` on an object.
  pub set_key : Text → Json → Json → Json
  -- `json::object()`
  pub empty_object : Json
  -- The elements of an array, and the members of an object in iteration order.
  pub elements : Json → List Json
  pub members : Json → List (Text × Json)
  pub array : List Json → Json
  pub from_text : Text → Json
  pub get_text : Json → Option Text
  pub from_int : ℤ → Json
  -- `get<std::int64_t>()`, and `get<int>()`, which converts other numbers and booleans too.
  pub get_int : Json → Option ℤ
  pub get_code : Json → Option ℤ
  pub get_bool : Json → Option Bool
  pub from_bool : Bool → Json
  -- Deep equality.
  pub equal : Json → Json → Bool
  -- `json::parse(text, nullptr, false)`, `none` for a discarded value.
  pub parse : Text → Option Json
  pub dump : Json → Text

abbrev pub is_some {ℓ} : {A : Type ℓ} → Option A → Bool
is_some none = false
is_some (some _) = true

module _ (L : JsonLib) where
  open L use {Json, find, set_key, empty_object, is_null}

  -- `contains(key)`
  abbrev pub contains : Text → Json → Bool
  contains k j = is_some (find k j)

  -- `json{{k, v}, …}`
  unfoldable pub object : List (Text × Json) → Json
  object [] = empty_object
  object ((k, v) ∷ fields) = set_key k v (object fields)

  -- `detail::set_optional`, the value converted already.
  abbrev pub set_optional : Json → Text → Option Json → Json
  set_optional j key none = j
  set_optional j key (some v) = set_key key v j

  -- `find(key)`, with a member that is null taken as absent, as `detail::get_optional` does.
  abbrev pub non_null : Option Json → Option Json
  non_null none = none
  non_null (some j) = if is_null j then none else some j

-- What the messages rely on: objects are maps, and each builder makes its own kind of value.
pub record JsonLaws (L : JsonLib) : Type 0 where
  pub find-empty_object : (k : Text) → L.find k L.empty_object ≡ none
  pub find-set_key :
      (k j : Text) (v o : L.Json)
      → L.is_object o ≡ true
      → L.find k (L.set_key j v o) ≡ (if text_eq j k then some v else L.find k o)
  pub is_object-empty_object : L.is_object L.empty_object ≡ true
  pub is_object-set_key :
      (k : Text) (v o : L.Json) → L.is_object o ≡ true → L.is_object (L.set_key k v o) ≡ true
  pub is_null-null : L.is_null L.null ≡ true
  pub is_null-from_text : (t : Text) → L.is_null (L.from_text t) ≡ false
  pub is_null-from_int : (n : ℤ) → L.is_null (L.from_int n) ≡ false
  pub is_string-from_text : (t : Text) → L.is_string (L.from_text t) ≡ true
  pub get_text-from_text : (t : Text) → L.get_text (L.from_text t) ≡ some t
  pub is_number_integer-from_int : (n : ℤ) → L.is_number_integer (L.from_int n) ≡ true
  pub is_number_integer-from_text : (t : Text) → L.is_number_integer (L.from_text t) ≡ false
  pub get_int-from_int : (n : ℤ) → L.get_int (L.from_int n) ≡ some n
  pub get_code-from_int : (n : ℤ) → L.get_code (L.from_int n) ≡ some n
