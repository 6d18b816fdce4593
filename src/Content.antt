-- ===== src/Content.antt =====
-- src/core/content.cpp: content and its JSON forms. Reading content calls itself on the content of a
-- tool result, here on fuel; `none` is out of fuel. The priority of annotations is a `double`:
-- `Doubles` is what the code uses of it.
pub mod Icons
pub mod Parts
pub mod RoundTrip
use mcp_cpp.Common.{
  ℕ, zero, suc, Bool, true, false, not, ◌||◌, Option, none, some, List, [], ◌∷◌, ◌++◌, map, Text,
  codes, text_eq, if◌then◌else◌,
}
use mcp_cpp.Errors.{Error, fail_with, invalid_params, Result, ok, err}
use mcp_cpp.Json.{JsonLib, object, set_optional, non_null}
use mcp_cpp.Schema.{string_of}

pub record Annotations (D : Type 0) : Type 0 where
  pub audience : Option (List Text)
  pub priority : Option D
  pub last_modified : Option Text

pub record ResourceContents : Type 0 where
  pub uri : Text
  pub mime_type : Option Text
  pub text : Option Text
  pub blob : Option Text

mutual
  pub data Content (J D : Type 0) : Type 0 where
    text_content : Text → Option (Annotations D) → Content J D
    image_content : Text → Text → Option (Annotations D) → Content J D
    audio_content : Text → Text → Option (Annotations D) → Content J D
    embedded_resource : ResourceContents → Option (Annotations D) → Content J D
    tool_use : Text → Text → J → Content J D
    tool_result : Text → Contents J D → Bool → Content J D

  pub data Contents (J D : Type 0) : Type 0 where
    no_content : Contents J D
    more_content : Content J D → Contents J D → Contents J D

pub record Doubles (L : JsonLib) : Type 1 where
  pub Double : Type 0
  pub from_double : Double → L.Json
  pub get_double : L.Json → Option Double

-- A chain of getters: `none` is an exception of the JSON library.
infixl 5 ◌then_get◌
abbrev pub ◌then_get◌ : {A B : Type 0} → Option A → (A → Option B) → Option B
none then_get f = none
(some a) then_get f = f a

module _ (L : JsonLib) (F : Doubles L) where
  open L use {
    Json, find, is_object, is_array, is_string, is_boolean, array, elements, empty_object,
    from_text, get_text, from_bool, get_bool,
  }
  open F use {Double, from_double, get_double}

  abbrev pub to_optional : {A : Type 0} → (A → Json) → Option A → Option Json
  to_optional to none = none
  to_optional to (some a) = some (to a)

  abbrev pub texts_to_json : List Text → Json
  texts_to_json ts = array (map from_text ts)

  -- `detail::get_optional`
  abbrev pub got_optional : {A : Type 0} → (Json → Option A) → Option Json → Option (Option A)
  got_optional get none = some none
  got_optional get (some j) = get j then_get λ a. some (some a)

  unfoldable pub get_optional : {A : Type 0} → (Json → Option A) → Json → Text → Option (Option A)
  get_optional get j key = got_optional get (non_null L (find key j))

  abbrev pub get_all : List Json → Option (List Text)
  get_all [] = some []
  get_all (j ∷ js) = get_text j then_get λ t. get_all js then_get λ ts. some (t ∷ ts)

  -- `get<std::vector<std::string>>()`
  unfoldable pub get_texts : Json → Option (List Text)
  get_texts j = if is_array j then get_all (elements j) else none

  unfoldable pub annotations_to_json : Annotations Double → Json
  annotations_to_json a =
      set_optional L
        (set_optional L
          (set_optional L empty_object (codes "audience") (to_optional texts_to_json a.audience))
          (codes "priority") (to_optional from_double a.priority))
        (codes "lastModified") (to_optional from_text a.last_modified)

  unfoldable pub annotations_from_json : Json → Option (Annotations Double)
  annotations_from_json j = get_optional get_texts j (codes "audience") then_get λ audience.
      get_optional get_double j (codes "priority") then_get λ priority.
      get_optional get_text j (codes "lastModified") then_get λ last_modified.
      some (record { audience = audience; priority = priority; last_modified = last_modified })

  unfoldable pub resource_to_json : ResourceContents → Json
  resource_to_json rc =
      set_optional L
        (set_optional L
          (set_optional L (object L ((codes "uri", from_text rc.uri) ∷ [])) (codes "mimeType")
            (to_optional from_text rc.mime_type))
          (codes "text") (to_optional from_text rc.text))
        (codes "blob") (to_optional from_text rc.blob)

  -- `j.at(key).get<std::string>()`
  unfoldable pub text_at : Json → Text → Option Text
  text_at j key = find key j then_get get_text

  unfoldable pub resource_from_json : Json → Option ResourceContents
  resource_from_json j = text_at j (codes "uri") then_get λ uri.
      get_optional get_text j (codes "mimeType") then_get λ mime_type.
      get_optional get_text j (codes "text") then_get λ text.
      get_optional get_text j (codes "blob") then_get λ blob.
      some (record { uri = uri; mime_type = mime_type; text = text; blob = blob })

  unfoldable pub set_annotations : Json → Option (Annotations Double) → Json
  set_annotations j annotations =
      set_optional L j (codes "annotations") (to_optional annotations_to_json annotations)

  unfoldable pub get_annotations : Json → Option (Option (Annotations Double))
  get_annotations j = get_optional annotations_from_json j (codes "annotations")

  abbrev pub typed : Text → List (Text × Json) → Json
  typed type fields = object L ((codes "type", from_text type) ∷ fields)

  unfoldable mutual
    pub content_to_json : Content Json Double → Json
    content_to_json (text_content text annotations) =
        set_annotations (typed (codes "text") ((codes "text", from_text text) ∷ [])) annotations
    content_to_json (image_content payload mime_type annotations) =
        set_annotations
          (typed (codes "image")
            ((codes "data", from_text payload) ∷ (codes "mimeType", from_text mime_type) ∷ []))
          annotations
    content_to_json (audio_content payload mime_type annotations) =
        set_annotations
          (typed (codes "audio")
            ((codes "data", from_text payload) ∷ (codes "mimeType", from_text mime_type) ∷ []))
          annotations
    content_to_json (embedded_resource resource annotations) =
        set_annotations
          (typed (codes "resource") ((codes "resource", resource_to_json resource) ∷ []))
          annotations
    content_to_json (tool_use id name input) =
        typed (codes "tool_use") (
          (codes "id", from_text id) ∷ (codes "name", from_text name) ∷ (codes "input", input) ∷ [])
    content_to_json (tool_result tool_use_id contents is_error) = typed (codes "tool_result") (
        (codes "toolUseId", from_text tool_use_id)
        ∷ (codes "content", array (contents_to_json contents))
        ∷ (codes "isError", from_bool is_error)
        ∷ [])

    -- What the loop of `content_list_to_json` pushes.
    pub contents_to_json : Contents Json Double → List Json
    contents_to_json no_content = []
    contents_to_json (more_content c cs) = content_to_json c ∷ contents_to_json cs

  unfoldable pub content_list_to_json : Contents Json Double → Json
  content_list_to_json cs = array (contents_to_json cs)

  -- `j.value(key, fallback)`
  abbrev pub value_or : Json → Option Json → Json
  value_or fallback none = fallback
  value_or fallback (some j) = j

  abbrev pub bool_or : Bool → Option Json → Option Bool
  bool_or fallback none = some fallback
  bool_or fallback (some j) = get_bool j

  abbrev pub type_of : Option Json → Option Text
  type_of none = none
  type_of (some t) = string_of L t

  -- `what` is the text of the exception that reading the value throws.
  module _ (what : Json → Text) where
    abbrev pub caught : Json → Option (Content Json Double) → Result Json (Content Json Double)
    caught j none = err (fail_with invalid_params (codes "malformed content: " ++ what j))
    caught j (some c) = ok c

    abbrev pub read_text : Json → Option (Content Json Double)
    read_text j = text_at j (codes "text") then_get λ text.
        get_annotations j then_get λ annotations. some (text_content text annotations)

    abbrev pub read_media :
        (Text → Text → Option (Annotations Double) → Content Json Double)
        → Json
        → Option (Content Json Double)
    read_media make j = text_at j (codes "data") then_get λ payload.
        text_at j (codes "mimeType") then_get λ mime_type.
        get_annotations j then_get λ annotations. some (make payload mime_type annotations)

    abbrev pub read_resource : Json → Option (Content Json Double)
    read_resource j = (find (codes "resource") j then_get resource_from_json) then_get λ resource.
        get_annotations j then_get λ annotations. some (embedded_resource resource annotations)

    abbrev pub read_tool_use : Json → Option (Content Json Double)
    read_tool_use j = text_at j (codes "id") then_get λ id.
        text_at j (codes "name") then_get λ name.
        some (tool_use id name (value_or empty_object (find (codes "input") j)))

    abbrev pub read_tool_result : Json → Contents Json Double → Option (Content Json Double)
    read_tool_result j contents = text_at j (codes "toolUseId") then_get λ id.
        bool_or false (find (codes "isError") j) then_get λ is_error.
        some (tool_result id contents is_error)

    -- `nested` is `content_from_json` on less fuel.
    module _ (nested : Json → Option (Result Json (Content Json Double))) where
      abbrev pub put :
          Option (Result Json (Content Json Double))
          → Option (Result Json (Contents Json Double))
          → Option (Result Json (Contents Json Double))
      put none rest = none
      put (some (err e)) rest = some (err e)
      put (some (ok c)) none = none
      put (some (ok c)) (some (err e)) = some (err e)
      put (some (ok c)) (some (ok cs)) = some (ok (more_content c cs))

      -- The loop of `content_list_from_json`.
      unfoldable pub read_items : List Json → Option (Result Json (Contents Json Double))
      read_items [] = some (ok no_content)
      read_items (j ∷ js) = put (nested j) (read_items js)

      unfoldable pub content_list_from_json : Json → Option (Result Json (Contents Json Double))
      content_list_from_json j =
          if not (is_array j)
          then some (err (fail_with invalid_params (codes "content must be an array")))
          else read_items (elements j)

      abbrev pub tool_result_of :
          Json
          → Option (Result Json (Contents Json Double))
          → Option (Result Json (Content Json Double))
      tool_result_of j none = none
      tool_result_of j (some (err e)) = some (err e)
      tool_result_of j (some (ok contents)) = some (caught j (read_tool_result j contents))

      unfoldable pub read_typed : Text → Json → Option (Result Json (Content Json Double))
      read_typed type j =
          if text_eq type (codes "text")
          then some (caught j (read_text j))
          else if text_eq type (codes "image")
          then some (caught j (read_media image_content j))
          else if text_eq type (codes "audio")
          then some (caught j (read_media audio_content j))
          else if text_eq type (codes "resource")
          then some (caught j (read_resource j))
          else if text_eq type (codes "tool_use")
          then some (caught j (read_tool_use j))
          else if text_eq type (codes "tool_result")
          then tool_result_of j
              (content_list_from_json (value_or (array []) (find (codes "content") j)))
          else some (err (fail_with invalid_params (codes "unknown content type: " ++ type)))

      abbrev pub read_with_type : Json → Option Text → Option (Result Json (Content Json Double))
      read_with_type j none =
          some (err (fail_with invalid_params (codes "content is missing a type")))
      read_with_type j (some type) = read_typed type j

    unfoldable pub content_from_json : ℕ → Json → Option (Result Json (Content Json Double))
    content_from_json zero j = none
    content_from_json (suc fuel) j =
        if not (is_object j)
        then some (err (fail_with invalid_params (codes "content is missing a type")))
        else read_with_type (content_from_json fuel) j (type_of (find (codes "type") j))
