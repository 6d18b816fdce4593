-- ===== src/Messages/ErrorObjects.antt =====
-- src/jsonrpc/message.cpp and include/mcp/error.hpp: an error object that is sent is read back.
use mcp_cpp.Common.{
  ℤ, true, false, Option, none, some, [], ◌∷◌, Text, codes, text_eq, ◌≡◌, refl, ap, ◌∙◌,
}
use mcp_cpp.Common.Dict.{lookup, text_key}
use mcp_cpp.Errors.{Error}
use mcp_cpp.Json.{JsonLib, JsonLaws, non_null}
use mcp_cpp.Messages.{Attempt, returns, error_to_json, error_from_json, error_of}
use mcp_cpp.Messages.Members.{
  member_or-other, member_or-own, find-set_optional, is_object-set_optional,
}

module _ (L : JsonLib) (laws : JsonLaws L) where
  open L use {Json, is_object, is_array, is_null, find, set_key}

  abbrev pub IsPayload : Option Json → Type 0
  IsPayload none = Unit {0}
  IsPayload (some d) = is_null d ≡ false

  pub payload-non_null : (d : Option Json) → IsPayload d → non_null L d ≡ d
  payload-non_null none v = refl
  payload-non_null (some d) v = rw v

  -- The members of an error object.
  pub error_members :
      (e : Error Json)
      → (is_object (error_to_json L e) ≡ true)
        × (find (codes "code") (error_to_json L e) ≡ some (L.from_int e.code))
        × (find (codes "message") (error_to_json L e) ≡ some (L.from_text e.message))
        × (find (codes "data") (error_to_json L e) ≡ e.payload)
  unfolding error_to_json lookup text_eq
  error_members e =
      let fields =
        (codes "code", L.from_int e.code) ∷ (codes "message", L.from_text e.message) ∷ [] in
      let at = λ (k : Text). find-set_optional L laws k (codes "data") fields e.payload in
      let other = λ (x : Option Json). member_or-other e.payload x in
      (
        is_object-set_optional L laws (codes "data") fields e.payload,
        at (codes "code") ∙ other _,
        at (codes "message") ∙ other _,
        at (codes "data") ∙ member_or-own e.payload,
      )

  pub error_of-builders :
      (code : ℤ) (m : Text) (d : Option Json)
      → error_of L (some (L.from_int code)) (some (L.from_text m)) d
        ≡ returns (record { code = code; message = m; payload = non_null L d })
  error_of-builders code m d =
      rw (laws.get_code-from_int code, error_of) (rw (laws.get_text-from_text m))

  abbrev returned : Error Json → Attempt (Error Json)
  returned e = returns e

  -- An error object is read back, unless its data is null.
  pub error_from_json-to_json :
      (e : Error Json) → IsPayload e.payload → error_from_json L (error_to_json L e) ≡ returns e
  unfolding error_from_json
  error_from_json-to_json e v =
      let (o, c, m, d) = error_members e in
      rw (c, m, d)
        (error_of-builders e.code e.message e.payload
          ∙ ap (λ (p : Option Json). returned (record e { payload = p }))
              (payload-non_null e.payload v))
