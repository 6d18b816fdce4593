-- ===== src/Content/RoundTrip.antt =====
-- src/core/content.cpp: content, written and read.
use mcp_cpp.Common.{
  ℕ, zero, suc, ◌+◌, ◌<◌, Bool, true, Option, some, List, [], ◌∷◌, Text, codes, text_eq, ◌≡◌, refl,
  ◌∙◌, arith,
}
use mcp_cpp.Common.Dict.{lookup, text_key}
use mcp_cpp.Errors.{ok}
use mcp_cpp.Json.{JsonLib, JsonLaws, object}
use mcp_cpp.Messages.Members.{is_object-object, find-object}
use mcp_cpp.Messages.Frames.Batches.{FrameLaws}
use mcp_cpp.Schema.{string_of}
use mcp_cpp.Content.{
  Annotations, ResourceContents, Content, text_content, image_content, audio_content,
  embedded_resource, tool_use, tool_result, Contents, no_content, more_content, Doubles,
  resource_to_json, set_annotations, typed, content_to_json, contents_to_json, read_media,
  read_items, content_list_from_json, read_typed, content_from_json,
}
use mcp_cpp.Content.Parts.{
  ContentLaws, is_object-set_annotations, find_field, text_at_back, annotations_read, resource_back,
}

abbrev mutual
  -- How deep tool results are nested.
  pub nesting : {J D : Type 0} → Content J D → ℕ
  nesting (text_content text annotations) = 0
  nesting (image_content payload mime_type annotations) = 0
  nesting (audio_content payload mime_type annotations) = 0
  nesting (embedded_resource resource annotations) = 0
  nesting (tool_use id name input) = 0
  nesting (tool_result id contents is_error) = suc (nesting_all contents)

  pub nesting_all : {J D : Type 0} → Contents J D → ℕ
  nesting_all no_content = 0
  nesting_all (more_content c cs) = nesting c + nesting_all cs

module _ (L : JsonLib) (F : Doubles L) (laws : JsonLaws L) (frames : FrameLaws L)
    (kinds : ContentLaws L F) where
  open L use {Json, is_object, is_null, find, empty_object, from_text, get_text}
  open F use {Double, from_double, get_double}

  module _ (what : Json → Text) where
    -- An object with a type is read by its type.
    from_typed :
        (fuel : ℕ) (j : Json) (type : Text)
        → is_object j ≡ true
        → find (codes "type") j ≡ some (from_text type)
        → content_from_json L F what (suc fuel) j
          ≡ read_typed L F what (content_from_json L F what fuel) type j
    unfolding content_from_json string_of
    from_typed fuel j type h e =
        rw (h, e, laws.is_string-from_text type, laws.get_text-from_text type) refl

    Back : Content Json Double → Type 0
    Back c =
        (fuel : ℕ)
        → nesting c < fuel
        → content_from_json L F what fuel (content_to_json L F c) ≡ some (ok c)

    text-Back :
        (text : Text) (annotations : Option (Annotations Double))
        → Back (text_content text annotations)
    unfolding Back content_to_json read_typed text_eq lookup
    text-Back text annotations zero h = absurd (omega arith)
    text-Back text annotations (suc fuel) h =
        let fields : List (Text × Json) =
          (codes "type", from_text (codes "text")) ∷ (codes "text", from_text text) ∷ [] in
        let j = set_annotations L F (object L fields) annotations in
        from_typed fuel j (codes "text")
          (is_object-set_annotations L F laws frames kinds fields annotations)
          (find_field L F laws frames kinds (codes "type") fields annotations refl)
        ∙ rw
            (
              text_at_back L F laws frames kinds j (codes "text") text
                  (find_field L F laws frames kinds (codes "text") fields annotations refl),
              annotations_read L F laws frames kinds fields annotations refl,
            )
            refl

    media_read :
        (make : Text → Text → Option (Annotations Double) → Content Json Double)
        (type payload mime_type : Text) (annotations : Option (Annotations Double))
        → read_media L F what make (
            set_annotations L F
              (typed L F type
                ((codes "data", from_text payload) ∷ (codes "mimeType", from_text mime_type) ∷ []))
              annotations)
          ≡ some (make payload mime_type annotations)
    unfolding text_eq lookup
    media_read make type payload mime_type annotations =
        let fields : List (Text × Json) =
          (codes "type", from_text type)
          ∷ (codes "data", from_text payload)
          ∷ (codes "mimeType", from_text mime_type)
          ∷ [] in
        let j = set_annotations L F (object L fields) annotations in
        rw
          (
            text_at_back L F laws frames kinds j (codes "data") payload
                (find_field L F laws frames kinds (codes "data") fields annotations refl),
            text_at_back L F laws frames kinds j (codes "mimeType") mime_type
                (find_field L F laws frames kinds (codes "mimeType") fields annotations refl),
            annotations_read L F laws frames kinds fields annotations refl,
          )
          refl

    image-Back :
        (payload mime_type : Text) (annotations : Option (Annotations Double))
        → Back (image_content payload mime_type annotations)
    unfolding Back content_to_json read_typed text_eq lookup
    image-Back payload mime_type annotations zero h = absurd (omega arith)
    image-Back payload mime_type annotations (suc fuel) h =
        let fields : List (Text × Json) =
          (codes "type", from_text (codes "image"))
          ∷ (codes "data", from_text payload)
          ∷ (codes "mimeType", from_text mime_type)
          ∷ [] in
        from_typed fuel (set_annotations L F (object L fields) annotations) (codes "image")
          (is_object-set_annotations L F laws frames kinds fields annotations)
          (find_field L F laws frames kinds (codes "type") fields annotations refl)
        ∙ rw (media_read image_content (codes "image") payload mime_type annotations) refl

    audio-Back :
        (payload mime_type : Text) (annotations : Option (Annotations Double))
        → Back (audio_content payload mime_type annotations)
    unfolding Back content_to_json read_typed text_eq lookup
    audio-Back payload mime_type annotations zero h = absurd (omega arith)
    audio-Back payload mime_type annotations (suc fuel) h =
        let fields : List (Text × Json) =
          (codes "type", from_text (codes "audio"))
          ∷ (codes "data", from_text payload)
          ∷ (codes "mimeType", from_text mime_type)
          ∷ [] in
        from_typed fuel (set_annotations L F (object L fields) annotations) (codes "audio")
          (is_object-set_annotations L F laws frames kinds fields annotations)
          (find_field L F laws frames kinds (codes "type") fields annotations refl)
        ∙ rw (media_read audio_content (codes "audio") payload mime_type annotations) refl

    embedded-Back :
        (resource : ResourceContents) (annotations : Option (Annotations Double))
        → Back (embedded_resource resource annotations)
    unfolding Back content_to_json read_typed text_eq lookup
    embedded-Back resource annotations zero h = absurd (omega arith)
    embedded-Back resource annotations (suc fuel) h =
        let fields : List (Text × Json) =
          (codes "type", from_text (codes "resource"))
          ∷ (codes "resource", resource_to_json L F resource)
          ∷ [] in
        from_typed fuel (set_annotations L F (object L fields) annotations) (codes "resource")
          (is_object-set_annotations L F laws frames kinds fields annotations)
          (find_field L F laws frames kinds (codes "type") fields annotations refl)
        ∙ rw
            (
              find_field L F laws frames kinds (codes "resource") fields annotations refl,
              resource_back L F laws frames kinds resource,
              annotations_read L F laws frames kinds fields annotations refl,
            )
            refl

    tool_use-Back : (id name : Text) (input : Json) → Back (tool_use id name input)
    unfolding Back content_to_json read_typed text_eq lookup
    tool_use-Back id name input zero h = absurd (omega arith)
    tool_use-Back id name input (suc fuel) h =
        let fields : List (Text × Json) =
          (codes "type", from_text (codes "tool_use"))
          ∷ (codes "id", from_text id)
          ∷ (codes "name", from_text name)
          ∷ (codes "input", input)
          ∷ [] in
        let j = object L fields in
        from_typed fuel j (codes "tool_use") (is_object-object L laws fields)
          (find-object L laws (codes "type") fields)
        ∙ rw
            (
              text_at_back L F laws frames kinds j (codes "id") id
                  (find-object L laws (codes "id") fields),
              text_at_back L F laws frames kinds j (codes "name") name
                  (find-object L laws (codes "name") fields),
              find-object L laws (codes "input") fields,
            )
            refl

    tool_result_back :
        (id : Text) (contents : Contents Json Double) (is_error : Bool) (fuel : ℕ)
        → read_items L F what (content_from_json L F what fuel) (contents_to_json L F contents)
          ≡ some (ok contents)
        → content_from_json L F what
            (suc fuel)
            (content_to_json L F (tool_result id contents is_error))
          ≡ some (ok (tool_result id contents is_error))
    unfolding content_to_json read_typed content_list_from_json text_eq lookup
    tool_result_back id contents is_error fuel e =
        let items = contents_to_json L F contents in
        let fields : List (Text × Json) =
          (codes "type", from_text (codes "tool_result"))
          ∷ (codes "toolUseId", from_text id)
          ∷ (codes "content", L.array items)
          ∷ (codes "isError", L.from_bool is_error)
          ∷ [] in
        let j = object L fields in
        from_typed fuel j (codes "tool_result") (is_object-object L laws fields)
          (find-object L laws (codes "type") fields)
        ∙ rw
            (
              find-object L laws (codes "content") fields,
              frames.is_array-array items,
              frames.elements-array items,
              e,
              text_at_back L F laws frames kinds j (codes "toolUseId") id
                  (find-object L laws (codes "toolUseId") fields),
              find-object L laws (codes "isError") fields,
              kinds.get_bool-from_bool is_error,
            )
            refl

    mutual
      unfolding Back read_items content_to_json

      content_back :
          (c : Content Json Double) (fuel : ℕ)
          → nesting c < fuel
          → content_from_json L F what fuel (content_to_json L F c) ≡ some (ok c)
      content_back (text_content text annotations) fuel h = text-Back text annotations fuel h
      content_back (image_content payload mime_type annotations) fuel h =
          image-Back payload mime_type annotations fuel h
      content_back (audio_content payload mime_type annotations) fuel h =
          audio-Back payload mime_type annotations fuel h
      content_back (embedded_resource resource annotations) fuel h =
          embedded-Back resource annotations fuel h
      content_back (tool_use id name input) fuel h = tool_use-Back id name input fuel h
      content_back (tool_result id contents is_error) zero h = absurd (omega (arith, h))
      content_back (tool_result id contents is_error) (suc fuel) h =
          tool_result_back id contents is_error fuel
            (contents_back contents fuel (omega (arith, h)))

      contents_back :
          (cs : Contents Json Double) (fuel : ℕ)
          → nesting_all cs < fuel
          → read_items L F what (content_from_json L F what fuel) (contents_to_json L F cs)
            ≡ some (ok cs)
      contents_back no_content fuel h = refl
      contents_back (more_content c cs) fuel h =
          rw (content_back c fuel (omega (arith, h)), contents_back cs fuel (omega (arith, h))) refl

    -- Content of every kind, tool results with content inside them included, is read back from its
    -- JSON form as the same content, with more fuel than tool results are nested. The JSON library's
    -- builders and accessors are assumed to agree with each other.
    pub content_from_json-content_to_json :
        (c : Content Json Double) (fuel : ℕ)
        → nesting c < fuel
        → content_from_json L F what fuel (content_to_json L F c) ≡ some (ok c)
    content_from_json-content_to_json c fuel h = content_back c fuel h
