-- ===== src/Schema/Refusals.antt =====
-- src/core/schema.cpp: how the checks end.
use mcp_cpp.Common.{
  ℕ, zero, suc, ◌<◌, Bool, true, false, Option, none, some, List, [], ◌∷◌, ◌++◌, Text, codes,
  if◌then◌else◌, ◌≡◌, ◌⊎◌, refl, arith, Bool-cases, Option-cases, inl, inr,
}
use mcp_cpp.Json.{JsonLib}
use mcp_cpp.Errors.{Result, ok, err, Done, done, fail_with, invalid_params}
use mcp_cpp.Schema.{
  invalid, check_type, check_enum, check_names, check_required, check_unexpected, check_additional,
  ◌then_check◌, check_properties, check_nested, check_object, check_elements, check_array,
  validate_with, validate_at, validate_schema, properties_of, type_ok, is_candidate, string_of,
  closes, is_property, place,
}
use mcp_cpp.Schema.Validity.{DepthLaws}
use mcp_cpp.Common.{Element, first, later}

abbrev pub Settled : {J : Type 0} → Option (Result J Done) → Type 0
Settled o =
    (o ≡ some (ok done)) ⊎ ((message : Text) × (o ≡ some (err (fail_with invalid_params message))))

Settled-then :
    {J : Type 0} (a b : Option (Result J Done)) → Settled a → Settled b → Settled (a then_check b)
Settled-then a b (inl e) h = rw e h
Settled-then a b (inr (m, e)) h = inr (m, rw e refl)

guard-Settled :
    {J : Type 0} (b : Bool) (a : Option (Result J Done))
    → Settled a
    → Settled (if b then a else some (ok done))
guard-Settled true a h = h
guard-Settled false a h = inl refl

module _ (L : JsonLib) where
  open L use {Json, is_object, is_array, find, elements, members}

  invalid-Settled : (path what : Text) → Settled (some (invalid L path what))
  unfolding invalid
  invalid-Settled path what = inr (place L path ++ codes " " ++ what, refl)

  check_type-Settled :
      (value : Json) (o : Option Json) (path : Text) → Settled (some (check_type L value o path))
  unfolding check_type
  check_type-Settled value none path = inl refl
  check_type-Settled value (some t) path = elim (Bool-cases (type_ok L value t)) [
    | inl e ↦ inl (rw e refl)
    | inr e ↦ rw e (invalid-Settled path _)
  ]

  check_enum-Settled :
      (value : Json) (o : Option Json) (path : Text) → Settled (some (check_enum L value o path))
  unfolding check_enum
  check_enum-Settled value none path = inl refl
  check_enum-Settled value (some cs) path = elim (Bool-cases (is_array cs)) [
    | inr a ↦ inl (rw a refl)
    | inl a ↦ elim (Bool-cases (is_candidate L value (elements cs))) [
      | inl e ↦ inl (rw (a, e) refl)
      | inr e ↦ rw (a, e) (invalid-Settled path _)
    ]
  ]

  check_names-Settled :
      (value : Json) (rs : List Json) (path : Text) → Settled (some (check_names L value rs path))
  unfolding check_names
  check_names-Settled value [] path = inl refl
  check_names-Settled value (r ∷ rs) path = elim (Option-cases (string_of L r)) [
    | inl e ↦ rw e (check_names-Settled value rs path)
    | inr (name, e) ↦ elim (Option-cases (find name value)) [
      | inl f ↦ rw (e, f) (invalid-Settled path _)
      | inr (w, f) ↦ rw (e, f) (check_names-Settled value rs path)
    ]
  ]

  check_required-Settled :
      (value : Json) (o : Option Json) (path : Text)
      → Settled (some (check_required L value o path))
  unfolding check_required
  check_required-Settled value none path = inl refl
  check_required-Settled value (some rs) path = elim (Bool-cases (is_array rs)) [
    | inl a ↦ rw a (check_names-Settled value (elements rs) path)
    | inr a ↦ inl (rw a refl)
  ]

  check_unexpected-Settled :
      (ms : List (Text × Json)) (props : Option Json) (path : Text)
      → Settled (some (check_unexpected L ms props path))
  unfolding check_unexpected
  check_unexpected-Settled [] props path = inl refl
  check_unexpected-Settled (m ∷ ms) props path = elim (Bool-cases (is_property L m.0 props)) [
    | inl e ↦ rw e (check_unexpected-Settled ms props path)
    | inr e ↦ rw e (invalid-Settled path _)
  ]

  check_additional-Settled :
      (value schema : Json) (props : Option Json) (path : Text)
      → Settled (some (check_additional L value schema props path))
  unfolding check_additional
  check_additional-Settled value schema props path =
      elim (Bool-cases (closes L (find (codes "additionalProperties") schema))) [
        | inl e ↦ rw e (check_unexpected-Settled (members value) props path)
        | inr e ↦ inl (rw e refl)
      ]

  module _ (nested : Json → Json → Text → Option (Result Json Done)) where
    check_properties-Settled :
        (value : Json) (ps : List (Text × Json)) (path : Text)
        → ((k : Text) (w sub : Json) (at : Text)
            → find k value ≡ some w
            → Settled (nested w sub at))
        → Settled (check_properties L nested value ps path)
    unfolding check_properties
    check_properties-Settled value [] path h = inl refl
    check_properties-Settled value (p ∷ ps) path h =
        let tails = check_properties-Settled value ps path h in
        elim (Option-cases (find p.0 value)) [
          | inl e ↦ rw e tails
          | inr (w, e) ↦ rw e (Settled-then _ _ (h p.0 w p.1 _ e) tails)
        ]

    check_elements-Settled :
        (ws : List Json) (items : Json) (index : ℕ) (path : Text)
        → ((w : Json) (at : Text) → Element w ws → Settled (nested w items at))
        → Settled (check_elements L nested ws items index path)
    unfolding check_elements
    check_elements-Settled [] items index path h = inl refl
    check_elements-Settled (w ∷ ws) items index path h =
        Settled-then _ _ (h w _ first)
          (check_elements-Settled ws items (suc index) path (λ v at i. h v at (later i)))

    check_nested-Settled :
        (value : Json) (props : Option Json) (path : Text)
        → ((k : Text) (w sub : Json) (at : Text)
            → find k value ≡ some w
            → Settled (nested w sub at))
        → Settled (check_nested L nested value props path)
    check_nested-Settled value none path h = inl refl
    check_nested-Settled value (some ps) path h = check_properties-Settled value (members ps) path h

    check_object-Settled :
        (value schema : Json) (path : Text)
        → ((k : Text) (w sub : Json) (at : Text)
            → find k value ≡ some w
            → Settled (nested w sub at))
        → Settled (check_object L nested value schema path)
    unfolding check_object
    check_object-Settled value schema path h =
        let props = properties_of L (find (codes "properties") schema) in
        Settled-then _ _ (check_required-Settled value (find (codes "required") schema) path) (
          Settled-then _ _ (check_nested-Settled value props path h)
            (check_additional-Settled value schema props path))

    check_array-Settled :
        (value : Json) (o : Option Json) (path : Text)
        → ((w sub : Json) (at : Text) → Element w (elements value) → Settled (nested w sub at))
        → Settled (check_array L nested value o path)
    unfolding check_array
    check_array-Settled value none path h = inl refl
    check_array-Settled value (some items) path h = elim (Bool-cases (is_object items)) [
      | inl e ↦
          rw e (check_elements-Settled (elements value) items 0 path (λ w at i. h w items at i))
      | inr e ↦ inl (rw e refl)
    ]

    validate_with-Settled :
        (value schema : Json) (path : Text)
        → ((k : Text) (w sub : Json) (at : Text)
            → find k value ≡ some w
            → Settled (nested w sub at))
        → ((w sub : Json) (at : Text) → Element w (elements value) → Settled (nested w sub at))
        → Settled (validate_with L nested value schema path)
    unfolding validate_with
    validate_with-Settled value schema path h k = elim (Bool-cases (is_object schema)) [
      | inr s ↦ inl (rw s refl)
      | inl s ↦ rw s (
          Settled-then _ _ (check_type-Settled value (find (codes "type") schema) path) (
            Settled-then _ _ (check_enum-Settled value (find (codes "enum") schema) path) (
              Settled-then _ _
                (guard-Settled (is_object value) _ (check_object-Settled value schema path h))
                (guard-Settled (is_array value) _
                  (check_array-Settled value (find (codes "items") schema) path k)))))
    ]

module _ (L : JsonLib) (depth : L.Json → ℕ) (laws : DepthLaws L depth) where
  validate_at-Settled :
      (fuel : ℕ) (value schema : L.Json) (path : Text)
      → depth value < fuel
      → Settled (validate_at L fuel value schema path)
  unfolding validate_at
  validate_at-Settled zero value schema path h = absurd (omega arith)
  validate_at-Settled (suc fuel) value schema path h =
      validate_with-Settled L (validate_at L fuel) value schema path
        (λ k w sub at e.
          validate_at-Settled fuel w sub at (omega (arith, laws.depth-find k value w e)))
        (λ w sub at i.
          validate_at-Settled fuel w sub at (omega (arith, laws.depth-elements value w i)))

  -- The validator always returns: with success, or with an error whose code is that of invalid
  -- params.
  pub validate_schema-Settled :
      (value schema : L.Json)
      → (validate_schema L depth value schema ≡ some (ok done))
        ⊎ ((message : Text) × (validate_schema L depth value schema
              ≡ some (err (fail_with invalid_params message))))
  unfolding validate_schema
  validate_schema-Settled value schema =
      validate_at-Settled (suc (depth value)) value schema [] (omega arith)
