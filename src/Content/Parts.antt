-- ===== src/Content/Parts.antt =====
-- src/core/content.cpp: the parts of content, written and read.
use mcp_cpp.Common.{
  Bool, true, false, Option, none, some, List, [], ◌∷◌, map, Text, codes, text_eq, text_eq_refl,
  ◌≡◌, refl, ◌∙◌,
}
use mcp_cpp.Common.Dict.{lookup, text_key}
use mcp_cpp.Json.{JsonLib, JsonLaws, object, set_optional}
use mcp_cpp.Messages.Members.{is_object-object, find-object}
use mcp_cpp.Messages.Frames.Batches.{FrameLaws}
use mcp_cpp.Content.{
  Annotations, ResourceContents, Doubles, to_optional, texts_to_json, get_optional, get_all,
  get_texts, annotations_to_json, annotations_from_json, resource_to_json, text_at,
  resource_from_json, set_annotations, get_annotations,
}

-- What the conversions rely on beside the laws of messages: each builder makes its own kind of value.
pub record ContentLaws (L : JsonLib) (F : Doubles L) : Type 0 where
  pub is_null-is_object : (j : L.Json) → L.is_object j ≡ true → L.is_null j ≡ false
  pub is_null-array : (js : List L.Json) → L.is_null (L.array js) ≡ false
  pub is_null-from_double : (d : F.Double) → L.is_null (F.from_double d) ≡ false
  pub get_double-from_double : (d : F.Double) → F.get_double (F.from_double d) ≡ some d
  pub get_bool-from_bool : (b : Bool) → L.get_bool (L.from_bool b) ≡ some b

module _ (L : JsonLib) (F : Doubles L) (laws : JsonLaws L) (frames : FrameLaws L)
    (kinds : ContentLaws L F) where
  open L use {Json, is_object, is_null, find, empty_object, from_text, get_text}
  open F use {Double, from_double, get_double}

  pub set_is_object :
      (o : Json) (key : Text) (v : Option Json)
      → is_object o ≡ true
      → is_object (set_optional L o key v) ≡ true
  set_is_object o key none h = h
  set_is_object o key (some v) h = laws.is_object-set_key key v o h

  pub find_past :
      (k key : Text) (o : Json) (v : Option Json)
      → is_object o ≡ true
      → text_eq key k ≡ false
      → find k (set_optional L o key v) ≡ find k o
  find_past k key o none h e = refl
  find_past k key o (some v) h e = laws.find-set_key k key v o h ∙ rw e refl

  pub find_own :
      (key : Text) (o : Json) (v : Option Json)
      → is_object o ≡ true
      → find key o ≡ none
      → find key (set_optional L o key v) ≡ v
  find_own key o none h e = e
  find_own key o (some v) h e = laws.find-set_key key key v o h ∙ rw (text_eq_refl key) refl

  -- An optional member is read back.
  got_optional_back :
      {A : Type 0} (get : Json → Option A) (to : A → Json) (j : Json) (key : Text) (v : Option A)
      → ((a : A) → get (to a) ≡ some a)
      → ((a : A) → is_null (to a) ≡ false)
      → find key j ≡ to_optional L F to v
      → get_optional L F get j key ≡ some v
  unfolding get_optional
  got_optional_back get to j key none g n e = rw e refl
  got_optional_back get to j key (some a) g n e = rw (e, n a, g a) refl

  get_all_back : (ts : List Text) → get_all L F (map from_text ts) ≡ some ts
  get_all_back [] = refl
  get_all_back (t ∷ ts) = rw (laws.get_text-from_text t, get_all_back ts) refl

  get_texts_back : (ts : List Text) → get_texts L F (texts_to_json L F ts) ≡ some ts
  unfolding get_texts
  get_texts_back ts =
      rw (frames.is_array-array (map from_text ts), frames.elements-array (map from_text ts))
        (get_all_back ts)

  annotations_back :
      (a : Annotations Double) → annotations_from_json L F (annotations_to_json L F a) ≡ some a
  unfolding annotations_from_json annotations_to_json text_eq
  annotations_back a =
      let v1 = to_optional L F (texts_to_json L F) a.audience in
      let v2 = to_optional L F from_double a.priority in
      let v3 = to_optional L F from_text a.last_modified in
      let o1 = set_optional L empty_object (codes "audience") v1 in
      let o2 = set_optional L o1 (codes "priority") v2 in
      let o3 = set_optional L o2 (codes "lastModified") v3 in
      let h0 = laws.is_object-empty_object in
      let h1 = set_is_object empty_object (codes "audience") v1 h0 in
      let h2 = set_is_object o1 (codes "priority") v2 h1 in
      let audience =
        find_past (codes "audience") (codes "lastModified") o2 v3 h2 refl
        ∙ find_past (codes "audience") (codes "priority") o1 v2 h1 refl
        ∙ find_own (codes "audience") empty_object v1 h0
            (laws.find-empty_object (codes "audience")) in
      let priority =
        find_past (codes "priority") (codes "lastModified") o2 v3 h2 refl
        ∙ find_own (codes "priority") o1 v2 h1 (
            find_past (codes "priority") (codes "audience") empty_object v1 h0 refl
            ∙ laws.find-empty_object (codes "priority")) in
      let last_modified = find_own (codes "lastModified") o2 v3 h2 (
        find_past (codes "lastModified") (codes "priority") o1 v2 h1 refl
        ∙ find_past (codes "lastModified") (codes "audience") empty_object v1 h0 refl
        ∙ laws.find-empty_object (codes "lastModified")) in
      rw
        (
          got_optional_back (get_texts L F) (texts_to_json L F) o3 (codes "audience") a.audience
              get_texts_back (λ ts. kinds.is_null-array (map from_text ts)) audience,
          got_optional_back get_double from_double o3 (codes "priority") a.priority
              kinds.get_double-from_double kinds.is_null-from_double priority,
          got_optional_back get_text from_text o3 (codes "lastModified") a.last_modified
              laws.get_text-from_text laws.is_null-from_text last_modified,
        )
        refl

  pub text_at_back :
      (j : Json) (key t : Text) → find key j ≡ some (from_text t) → text_at L F j key ≡ some t
  unfolding text_at
  text_at_back j key t e = rw e (laws.get_text-from_text t)

  pub optional_text_back :
      (j : Json) (key : Text) (v : Option Text)
      → find key j ≡ to_optional L F from_text v
      → get_optional L F get_text j key ≡ some v
  optional_text_back j key v e =
      got_optional_back get_text from_text j key v laws.get_text-from_text laws.is_null-from_text e

  pub resource_back :
      (rc : ResourceContents) → resource_from_json L F (resource_to_json L F rc) ≡ some rc
  unfolding resource_from_json resource_to_json text_eq lookup
  resource_back rc =
      let fields : List (Text × Json) = (codes "uri", from_text rc.uri) ∷ [] in
      let v1 = to_optional L F from_text rc.mime_type in
      let v2 = to_optional L F from_text rc.text in
      let v3 = to_optional L F from_text rc.blob in
      let o0 = object L fields in
      let o1 = set_optional L o0 (codes "mimeType") v1 in
      let o2 = set_optional L o1 (codes "text") v2 in
      let o3 = set_optional L o2 (codes "blob") v3 in
      let h0 = is_object-object L laws fields in
      let h1 = set_is_object o0 (codes "mimeType") v1 h0 in
      let h2 = set_is_object o1 (codes "text") v2 h1 in
      let uri =
        find_past (codes "uri") (codes "blob") o2 v3 h2 refl
        ∙ find_past (codes "uri") (codes "text") o1 v2 h1 refl
        ∙ find_past (codes "uri") (codes "mimeType") o0 v1 h0 refl
        ∙ find-object L laws (codes "uri") fields in
      let mime_type =
        find_past (codes "mimeType") (codes "blob") o2 v3 h2 refl
        ∙ find_past (codes "mimeType") (codes "text") o1 v2 h1 refl
        ∙ find_own (codes "mimeType") o0 v1 h0 (find-object L laws (codes "mimeType") fields) in
      let text =
        find_past (codes "text") (codes "blob") o2 v3 h2 refl
        ∙ find_own (codes "text") o1 v2 h1 (
            find_past (codes "text") (codes "mimeType") o0 v1 h0 refl
            ∙ find-object L laws (codes "text") fields) in
      let blob = find_own (codes "blob") o2 v3 h2 (
        find_past (codes "blob") (codes "text") o1 v2 h1 refl
        ∙ find_past (codes "blob") (codes "mimeType") o0 v1 h0 refl
        ∙ find-object L laws (codes "blob") fields) in
      rw
        (
          text_at_back o3 (codes "uri") rc.uri uri,
          optional_text_back o3 (codes "mimeType") rc.mime_type mime_type,
          optional_text_back o3 (codes "text") rc.text text,
          optional_text_back o3 (codes "blob") rc.blob blob,
        )
        refl

  is_object-annotations : (a : Annotations Double) → is_object (annotations_to_json L F a) ≡ true
  unfolding annotations_to_json
  is_object-annotations a =
      let v1 = to_optional L F (texts_to_json L F) a.audience in
      let v2 = to_optional L F from_double a.priority in
      let o1 = set_optional L empty_object (codes "audience") v1 in
      let o2 = set_optional L o1 (codes "priority") v2 in
      set_is_object o2 (codes "lastModified") (to_optional L F from_text a.last_modified) (
        set_is_object o1 (codes "priority") v2
          (set_is_object empty_object (codes "audience") v1 laws.is_object-empty_object))

  -- The members of content with annotations, whose own members are `fields`.
  pub find_field :
      (k : Text) (fields : List (Text × Json)) (annotations : Option (Annotations Double))
      → text_eq (codes "annotations") k ≡ false
      → find k (set_annotations L F (object L fields) annotations) ≡ lookup k fields
  unfolding set_annotations
  find_field k fields annotations e =
      find_past k (codes "annotations") (object L fields) _ (is_object-object L laws fields) e
      ∙ find-object L laws k fields

  pub annotations_read :
      (fields : List (Text × Json)) (annotations : Option (Annotations Double))
      → lookup (codes "annotations") fields ≡ none
      → get_annotations L F (set_annotations L F (object L fields) annotations) ≡ some annotations
  unfolding get_annotations set_annotations
  annotations_read fields annotations e =
      got_optional_back (annotations_from_json L F) (annotations_to_json L F) _
        (codes "annotations") annotations annotations_back
        (λ a. kinds.is_null-is_object (annotations_to_json L F a) (is_object-annotations a))
        (find_own (codes "annotations") (object L fields) _ (is_object-object L laws fields)
          (find-object L laws (codes "annotations") fields ∙ e))

  pub is_object-set_annotations :
      (fields : List (Text × Json)) (annotations : Option (Annotations Double))
      → is_object (set_annotations L F (object L fields) annotations) ≡ true
  unfolding set_annotations
  is_object-set_annotations fields annotations =
      set_is_object (object L fields) _ _ (is_object-object L laws fields)
