-- ===== src/Facade/Completing.antt =====
-- src/server/server.cpp: what a reply to `completion/complete` holds.
use mcp_cpp.Common.{
  ◌≤◌, true, false, not, ◌&&◌, ◌||◌, Option, none, some, List, [], ◌∷◌, map, Text, codes, length,
  take, length-take, text_eq, ◌≡◌, refl, ◌∙◌, arith, Bool-cases, inl, inr,
}
use mcp_cpp.Errors.{ok, err}
use mcp_cpp.Json.{JsonLib, JsonLaws, contains, object, set_optional}
use mcp_cpp.Messages.Members.{is_object-object, find-object}
use mcp_cpp.Messages.Frames.Batches.{FrameLaws}
use mcp_cpp.Common.Dict.{lookup}
use mcp_cpp.Facade.Handlers.{
  CompleteResult, Reply, replies, throws, bad_range, int_json, bool_json, complete_result_to_json,
  complete_reply, complete_at, text_got, complete_typed, complete_parts, complete_ref,
  handle_complete,
}

module _ (L : JsonLib) (laws : JsonLaws L) (frames : FrameLaws L) where
  open L use {Json, is_object, find, elements, from_text, get_text}

  is_object-kept :
      (o : Json) (key : Text) (v : Option Json)
      → is_object o ≡ true
      → is_object (set_optional L o key v) ≡ true
  is_object-kept o key none h = h
  is_object-kept o key (some v) h = laws.is_object-set_key key v o h

  -- Another key leaves a member as it is.
  find-kept :
      (k key : Text) (o : Json) (v : Option Json)
      → is_object o ≡ true
      → text_eq key k ≡ false
      → find k (set_optional L o key v) ≡ find k o
  find-kept k key o none h e = refl
  find-kept k key o (some v) h e = laws.find-set_key k key v o h ∙ rw e refl

  -- The values of a reply.
  abbrev pub HasValues : Json → List Text → Type 0
  HasValues j values =
      (completion listed : Json) × (find (codes "completion") j ≡ some completion)
      × (find (codes "values") completion ≡ some listed)
      × (elements listed ≡ map from_text values)

  complete_result_to_json-HasValues :
      (r : CompleteResult) → HasValues (complete_result_to_json L r) (take 100 r.values)
  unfolding complete_result_to_json lookup text_eq
  complete_result_to_json-HasValues r =
      let listed = L.array (map from_text (take 100 r.values)) in
      let base = object L ((codes "values", listed) ∷ []) in
      let is_base : is_object base ≡ true =
        is_object-object L laws ((codes "values", listed) ∷ []) in
      let counted = set_optional L base (codes "total") (int_json L r.total) in
      let completion = set_optional L counted (codes "hasMore") (bool_json L r.has_more) in
      (
        completion,
        listed,
        find-object L laws (codes "completion") ((codes "completion", completion) ∷ []),
        find-kept (codes "values") (codes "hasMore") counted _
              (is_object-kept base (codes "total") _ is_base) refl
            ∙ find-kept (codes "values") (codes "total") base _ is_base refl
            ∙ find-object L laws (codes "values") ((codes "values", listed) ∷ []),
        frames.elements-array (map from_text (take 100 r.values)),
      )

  abbrev pub IsLimited : Reply Json → Type 0
  IsLimited (replies (ok j)) = (values : List Text) × HasValues j values × (length values ≤ 100)
  IsLimited (replies (err e)) = Unit
  IsLimited throws = Unit
  IsLimited bad_range = Unit

  complete_reply-IsLimited : (o : Option CompleteResult) → IsLimited (complete_reply L o)
  complete_reply-IsLimited none = ([], complete_result_to_json-HasValues _, omega arith)
  complete_reply-IsLimited (some r) = (
    take 100 r.values,
    complete_result_to_json-HasValues r,
    omega (arith, length-take 100 r.values),
  )

  complete_at-IsLimited :
      (run : Text → Option CompleteResult) (name : Option Text) → IsLimited (complete_at L run name)
  complete_at-IsLimited run none = tt
  complete_at-IsLimited run (some name) = complete_reply-IsLimited (run name)

  module _ (by_prompt by_resource : Text → Text → Text → Option CompleteResult) where
    complete_typed-IsLimited :
        (ref : Json) (type name value : Option Text)
        → IsLimited (complete_typed L by_prompt by_resource ref type name value)
    complete_typed-IsLimited ref (some type) (some name) (some value) =
        elim (Bool-cases (text_eq type (codes "ref/prompt") && contains L (codes "name") ref)) [
          | inl p ↦ rw p (complete_at-IsLimited _ (text_got L (find (codes "name") ref)))
          | inr p ↦
              elim (Bool-cases
                (text_eq type (codes "ref/resource") && contains L (codes "uri") ref)) [
                  | inl q ↦
                      rw (p, q) (complete_at-IsLimited _ (text_got L (find (codes "uri") ref)))
                  | inr q ↦ rw (p, q) tt
                ]
        ]
    complete_typed-IsLimited ref (some type) (some name) none = tt
    complete_typed-IsLimited ref (some type) none value = tt
    complete_typed-IsLimited ref none name value = tt

    complete_parts-IsLimited :
        (ref argument : Json) (type name value : Option Json)
        → IsLimited (complete_parts L by_prompt by_resource ref argument type name value)
    complete_parts-IsLimited ref argument (some type) (some name) (some value) =
        complete_typed-IsLimited ref (get_text type) (get_text name) (get_text value)
    complete_parts-IsLimited ref argument (some type) (some name) none = tt
    complete_parts-IsLimited ref argument (some type) none value = tt
    complete_parts-IsLimited ref argument none name value = tt

    complete_ref-IsLimited :
        (ref argument : Option Json) → IsLimited (complete_ref L by_prompt by_resource ref argument)
    complete_ref-IsLimited (some ref) (some argument) =
        elim (Bool-cases (not (is_object ref) || not (is_object argument))) [
          | inl e ↦ rw e tt
          | inr e ↦ rw e (complete_parts-IsLimited ref argument _ _ _)
        ]
    complete_ref-IsLimited (some ref) none = tt
    complete_ref-IsLimited none argument = tt

    -- Whatever the params are and whatever the completions return: a reply with a result holds the
    -- array of at most 100 texts as the values of its completion. The JSON library's builders and
    -- accessors are assumed to agree with each other.
    pub handle_complete-IsLimited :
        (params : Option Json) → IsLimited (handle_complete L by_prompt by_resource params)
    unfolding handle_complete
    handle_complete-IsLimited none = tt
    handle_complete-IsLimited (some params) =
        complete_ref-IsLimited (find (codes "ref") params) (find (codes "argument") params)
