-- ===== src/Schema/Validity.antt =====
-- src/core/schema.cpp: which values a schema accepts, described without the order of the checks.
use mcp_cpp.Common.{
  ℕ, zero, suc, ◌<◌, true, false, Option, some, [], Text, codes, if◌then◌else◌, Element, ◌≡◌, ◌↔◌,
  refl, ap, arith, Bool-cases, inl, inr,
}
use mcp_cpp.Json.{JsonLib}
use mcp_cpp.Errors.{Result, ok, Done, done}
use mcp_cpp.Schema.{
  check_type, check_enum, check_required, properties_of, check_additional, ◌then_check◌,
  check_nested, check_object, check_array, validate_with, validate_at, validate_schema,
}
use mcp_cpp.Schema.Nested.{
  passes_then, some_passes, guard_passes, optional_passes, check_properties_sound,
  check_properties_complete, check_elements_sound, check_elements_complete,
}
use mcp_cpp.Schema.Rules.{
  Fits, Allowed, Complete, Closed, check_type-Fits, check_enum-Allowed, check_required-Complete,
  check_additional-Closed, properties_of_iff,
}

module _ (L : JsonLib) where
  open L use {Json, is_object, is_array, is_string, find, elements, members, equal}

  -- What a schema accepts: by its rules, on the members and elements of the value too.
  pub data Valid : Json → Json → Type 0 where
    anything : {value schema : Json} → is_object schema ≡ false → Valid value schema
    conforms :
        {value schema : Json}
        → ((t : Json) → find (codes "type") schema ≡ some t → Fits L value t)
        → ((c : Json) → find (codes "enum") schema ≡ some c → Allowed L value c)
        → (is_object value ≡ true
            → (r : Json) → find (codes "required") schema ≡ some r
            → Complete L value r)
        → (is_object value ≡ true
            → (props : Json) → find (codes "properties") schema ≡ some props
            → is_object props ≡ true
            → (p : Text × Json) (w : Json) → Element p (members props)
            → find p.0 value ≡ some w
            → Valid w p.1)
        → (is_object value ≡ true → Closed L value schema)
        → (is_array value ≡ true
            → (items : Json) → find (codes "items") schema ≡ some items
            → is_object items ≡ true
            → (w : Json) → Element w (elements value)
            → Valid w items)
        → Valid value schema

-- What the checks of members and elements rely on: a value is deeper than its parts.
pub record DepthLaws (L : JsonLib) (depth : L.Json → ℕ) : Type 0 where
  pub depth-find : (k : Text) (v w : L.Json) → L.find k v ≡ some w → depth w < depth v
  pub depth-elements : (v w : L.Json) → Element w (L.elements v) → depth w < depth v

module _ (L : JsonLib) (depth : L.Json → ℕ) (laws : DepthLaws L depth) where
  open L use {Json, is_object, is_array, find, elements, members}

  Agrees : ℕ → (Json → Json → Text → Option (Result Json Done)) → Type 0
  Agrees bound nested =
      (w schema : Json) (path : Text)
      → depth w < bound
      → (nested w schema path ≡ some (ok done)) ↔ Valid L w schema

  type_passes :
      (value : Json) (o : Option Json) (path : Text)
      → (check_type L value o path ≡ ok done) ↔ ((t : Json) → o ≡ some t → Fits L value t)
  unfolding check_type
  type_passes value o path =
      optional_passes (Fits L value) (λ t. check_type L value t path) (ok done) refl
        (λ t. check_type-Fits L value t path) o

  enum_passes :
      (value : Json) (o : Option Json) (path : Text)
      → (check_enum L value o path ≡ ok done) ↔ ((c : Json) → o ≡ some c → Allowed L value c)
  unfolding check_enum
  enum_passes value o path =
      optional_passes (Allowed L value) (λ c. check_enum L value c path) (ok done) refl
        (λ c. check_enum-Allowed L value c path) o

  required_passes :
      (value : Json) (o : Option Json) (path : Text)
      → (check_required L value o path ≡ ok done) ↔ ((r : Json) → o ≡ some r → Complete L value r)
  unfolding check_required
  required_passes value o path =
      optional_passes (Complete L value) (λ r. check_required L value r path) (ok done) refl
        (λ r. check_required-Complete L value r path) o

  module _ (nested : Json → Json → Text → Option (Result Json Done)) where
    check_nested-Valid :
        (value : Json) (props : Option Json) (path : Text)
        → Agrees (depth value) nested
        → (check_nested L nested value props path ≡ some (ok done)) ↔ (
            (ps : Json)
            → props ≡ some ps
            → (p : Text × Json) (w : Json) → Element p (members ps)
            → find p.0 value ≡ some w
            → Valid L w p.1)
    unfolding Agrees
    check_nested-Valid value props path agree =
        optional_passes
          (λ ps.
            (p : Text × Json) (w : Json)
            → Element p (members ps)
            → find p.0 value ≡ some w
            → Valid L w p.1)
          (λ o. check_nested L nested value o path) (some (ok done)) refl
          (λ ps. (
            λ h p w i e.
                (agree w p.1 _ (laws.depth-find p.0 value w e)).0
                  (check_properties_sound L nested value p (members ps) path w h i e),
            λ f.
                check_properties_complete L nested value (members ps) path
                  (λ p w at i e. (agree w p.1 at (laws.depth-find p.0 value w e)).1 (f p w i e)),
          ))
          props

    check_array-Valid :
        (value : Json) (o : Option Json) (path : Text)
        → Agrees (depth value) nested
        → (check_array L nested value o path ≡ some (ok done)) ↔ (
            (items : Json)
            → o ≡ some items
            → is_object items ≡ true
            → (w : Json) → Element w (elements value)
            → Valid L w items)
    unfolding Agrees check_array
    check_array-Valid value o path agree =
        optional_passes
          (λ items.
            is_object items ≡ true → (w : Json) → Element w (elements value) → Valid L w items)
          (λ o. check_array L nested value o path) (some (ok done)) refl
          (λ items. (
            λ h k w i.
                let found =
                  check_elements_sound L nested (elements value) items w 0 path
                    ((guard_passes (is_object items) _).0 h k) i in
                (agree w items found.0 (laws.depth-elements value w i)).0 found.1,
            λ f. (guard_passes (is_object items) _).1 (λ k.
                check_elements_complete L nested (elements value) items 0 path
                  (λ w at i. (agree w items at (laws.depth-elements value w i)).1 (f k w i))),
          ))
          o

    check_object-Valid :
        (value schema : Json) (path : Text)
        → Agrees (depth value) nested
        → (check_object L nested value schema path ≡ some (ok done)) ↔ (
            ((r : Json) → find (codes "required") schema ≡ some r → Complete L value r)
            × ((ps : Json)
                → properties_of L (find (codes "properties") schema) ≡ some ps
                → (p : Text × Json) (w : Json) → Element p (members ps)
                → find p.0 value ≡ some w
                → Valid L w p.1)
            × Closed L value schema)
    unfolding check_object
    check_object-Valid value schema path agree =
        let props = properties_of L (find (codes "properties") schema) in
        let required = required_passes value (find (codes "required") schema) path in
        let outer =
          passes_then (some (check_required L value (find (codes "required") schema) path)) (
            check_nested L nested value props path
            then_check some (check_additional L value schema props path)) in
        let inner =
          passes_then (check_nested L nested value props path)
            (some (check_additional L value schema props path)) in
        (
          λ h. (
            required.0 ((some_passes _).0 (outer.0 h).0),
            (check_nested-Valid value props path agree).0 (inner.0 (outer.0 h).1).0,
            (check_additional-Closed L value schema path).0
                ((some_passes _).0 (inner.0 (outer.0 h).1).1),
          ),
          λ f. outer.1 (
            ap some (required.1 f.0),
            inner.1 (
              (check_nested-Valid value props path agree).1 f.1,
              ap some ((check_additional-Closed L value schema path).1 f.2),
            ),
          ),
        )

    validate_with-Valid :
        (value schema : Json) (path : Text)
        → Agrees (depth value) nested
        → (validate_with L nested value schema path ≡ some (ok done)) ↔ Valid L value schema
    unfolding validate_with
    validate_with-Valid value schema path agree = elim (Bool-cases (is_object schema)) [
      | inr s ↦ (λ h. anything s, λ v. rw s refl)
      | inl s ↦
          let p1 = check_type L value (find (codes "type") schema) path in
          let p2 = check_enum L value (find (codes "enum") schema) path in
          let p3 =
            if is_object value then check_object L nested value schema path else some (ok done) in
          let p4 =
            if is_array value
            then check_array L nested value (find (codes "items") schema) path
            else some (ok done) in
          let typed = type_passes value (find (codes "type") schema) path in
          let allowed = enum_passes value (find (codes "enum") schema) path in
          let object = check_object-Valid value schema path agree in
          let array = check_array-Valid value (find (codes "items") schema) path agree in
          let c1 = passes_then (some p1) (some p2 then_check p3 then_check p4) in
          let c2 = passes_then (some p2) (p3 then_check p4) in
          let c3 = passes_then p3 p4 in
          let g3 = guard_passes (is_object value) (check_object L nested value schema path) in
          let g4 =
            guard_passes (is_array value)
              (check_array L nested value (find (codes "items") schema) path) in
          (
            rw s (λ h.
                let h2 = (c1.0 h).1 in
                let h3 = (c2.0 h2).1 in
                let seen = g3.0 (c3.0 h3).0 in
                let listed = g4.0 (c3.0 h3).1 in
                conforms (typed.0 ((some_passes p1).0 (c1.0 h).0))
                  (allowed.0 ((some_passes p2).0 (c2.0 h2).0)) (λ o. (object.0 (seen o)).0)
                  (λ o props e k.
                    (object.0 (seen o)).1 props
                      ((properties_of_iff L (find (codes "properties") schema) props).1 (e, k)))
                  (λ o. (object.0 (seen o)).2) (λ a. array.0 (listed a))),
            λ v. elim v [
              | anything s' ↦ absurd (cc)
              | conforms t e r n c i ↦ rw s (
                  c1.1 (
                    ap some (typed.1 t),
                    c2.1 (
                      ap some (allowed.1 e),
                      c3.1 (
                        g3.1 (λ o. object.1 (
                          r o,
                          λ props e.
                              let both =
                                (properties_of_iff L (find (codes "properties") schema) props).0
                                  e in
                              n o props both.0 both.1,
                          c o,
                        )),
                        g4.1 (λ a. array.1 (i a)),
                      ),
                    ),
                  ))
            ],
          )
    ]

  -- A value that is less deep than the fuel passes the check exactly when the schema accepts it.
  validate_at-Valid :
      (fuel : ℕ) (value schema : Json) (path : Text)
      → depth value < fuel
      → (validate_at L fuel value schema path ≡ some (ok done)) ↔ Valid L value schema
  unfolding validate_at Agrees
  validate_at-Valid zero value schema path h = absurd (omega arith)
  validate_at-Valid (suc fuel) value schema path h =
      validate_with-Valid (validate_at L fuel) value schema path
        (λ w sub at k. validate_at-Valid fuel w sub at (omega arith))

  -- The validator passes a value exactly when the schema accepts it, rule by rule, on the value and
  -- on the members and elements inside it.
  pub validate_schema-Valid :
      (value schema : Json)
      → (validate_schema L depth value schema ≡ some (ok done)) ↔ Valid L value schema
  unfolding validate_schema
  validate_schema-Valid value schema =
      validate_at-Valid (suc (depth value)) value schema [] (omega arith)
