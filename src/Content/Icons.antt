-- ===== src/Content/Icons.antt =====
-- src/core/content.cpp: icons and roles.
use mcp_cpp.Common.{
  Option, none, some, List, [], ◌∷◌, Text, codes, text_eq, if◌then◌else◌, ◌≡◌, refl, ◌∙◌,
}
use mcp_cpp.Common.Dict.{lookup}
use mcp_cpp.Json.{JsonLib, JsonLaws, object, set_optional}
use mcp_cpp.Messages.Members.{is_object-object, find-object}
use mcp_cpp.Messages.Frames.Batches.{FrameLaws}
use mcp_cpp.Content.{Doubles, to_optional, ◌then_get◌, get_optional, text_at}
use mcp_cpp.Content.Parts.{
  ContentLaws, set_is_object, find_past, find_own, text_at_back, optional_text_back,
}

record Icon : Type 0 where
  src : Text
  mime_type : Option Text
  sizes : Option Text

module _ (L : JsonLib) (F : Doubles L) where
  open L use {Json, from_text, get_text}

  unfoldable icon_to_json : Icon → Json
  icon_to_json icon =
      set_optional L
        (set_optional L (object L ((codes "src", from_text icon.src) ∷ [])) (codes "mimeType")
          (to_optional L F from_text icon.mime_type))
        (codes "sizes") (to_optional L F from_text icon.sizes)

  unfoldable icon_from_json : Json → Option Icon
  icon_from_json j = text_at L F j (codes "src") then_get λ src.
      get_optional L F get_text j (codes "mimeType") then_get λ mime_type.
      get_optional L F get_text j (codes "sizes") then_get λ sizes.
      some (record { src = src; mime_type = mime_type; sizes = sizes })

data Role : Type 0 where
  user : Role
  assistant : Role

unfoldable role_to_string : Role → Text
role_to_string assistant = codes "assistant"
role_to_string user = codes "user"

unfoldable role_from_string : Text → Option Role
role_from_string name =
    if text_eq name (codes "user")
    then some user
    else if text_eq name (codes "assistant")
    then some assistant
    else none

role_from_string-role_to_string : (r : Role) → role_from_string (role_to_string r) ≡ some r
unfolding role_from_string role_to_string text_eq
role_from_string-role_to_string user = refl
role_from_string-role_to_string assistant = refl

module _ (L : JsonLib) (F : Doubles L) (laws : JsonLaws L) (frames : FrameLaws L)
    (kinds : ContentLaws L F) where
  open L use {Json, find, from_text}

  -- An icon is read back from its JSON form.
  icon_from_json-icon_to_json : (i : Icon) → icon_from_json L F (icon_to_json L F i) ≡ some i
  unfolding icon_from_json icon_to_json text_eq lookup
  icon_from_json-icon_to_json i =
      let fields : List (Text × Json) = (codes "src", from_text i.src) ∷ [] in
      let v1 = to_optional L F from_text i.mime_type in
      let v2 = to_optional L F from_text i.sizes in
      let o0 = object L fields in
      let o1 = set_optional L o0 (codes "mimeType") v1 in
      let o2 = set_optional L o1 (codes "sizes") v2 in
      let h0 = is_object-object L laws fields in
      let h1 = set_is_object L F laws frames kinds o0 (codes "mimeType") v1 h0 in
      let src =
        find_past L F laws frames kinds (codes "src") (codes "sizes") o1 v2 h1 refl
        ∙ find_past L F laws frames kinds (codes "src") (codes "mimeType") o0 v1 h0 refl
        ∙ find-object L laws (codes "src") fields in
      let mime_type =
        find_past L F laws frames kinds (codes "mimeType") (codes "sizes") o1 v2 h1 refl
        ∙ find_own L F laws frames kinds (codes "mimeType") o0 v1 h0
            (find-object L laws (codes "mimeType") fields) in
      let sizes = find_own L F laws frames kinds (codes "sizes") o1 v2 h1 (
        find_past L F laws frames kinds (codes "sizes") (codes "mimeType") o0 v1 h0 refl
        ∙ find-object L laws (codes "sizes") fields) in
      rw
        (
          text_at_back L F laws frames kinds o2 (codes "src") i.src src,
          optional_text_back L F laws frames kinds o2 (codes "mimeType") i.mime_type mime_type,
          optional_text_back L F laws frames kinds o2 (codes "sizes") i.sizes sizes,
        )
        refl
