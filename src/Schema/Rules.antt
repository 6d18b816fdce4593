-- ===== src/Schema/Rules.antt =====
-- src/core/schema.cpp: which values a schema accepts, rule by rule: what each
-- check tests.
use mcp_cpp.Common.{
  Bool, none, if◌then◌else◌, text_eq, text_eq_iff, true, false, Option, some, List, [], ◌∷◌, Text,
  codes, Element, first, later, ◌≡◌, ◌↔◌, refl, arith, Bool-cases, Option-cases, inl, inr,
}
use mcp_cpp.Json.{JsonLib, contains}
use mcp_cpp.Errors.{ok, done}
use mcp_cpp.Schema.{
  matches_type, string_of, named_type, any_type, type_ok, check_type, invalid, is_candidate,
  check_enum, check_names, check_required, properties_of, is_property, check_unexpected, closes,
  check_additional, is_false,
}

module _ (L : JsonLib) where
  open L use {
    Json, is_object, is_array, is_string, is_number, is_number_integer, is_boolean, is_null, find,
    elements, members, get_bool, equal,
  }

  -- The value has the type of this name; other names than these seven are not enforced.
  abbrev pub HasType : Json → Text → Type 0
  HasType value type =
      (type ≡ codes "object" → is_object value ≡ true)
      × (type ≡ codes "array" → is_array value ≡ true)
      × (type ≡ codes "string" → is_string value ≡ true)
      × (type ≡ codes "number" → is_number value ≡ true)
      × (type ≡ codes "integer" → is_number_integer value ≡ true)
      × (type ≡ codes "boolean" → is_boolean value ≡ true)
      × (type ≡ codes "null" → is_null value ≡ true)

  matches_type_sound :
      (value : Json) (type : Text) → matches_type L value type ≡ true → HasType value type
  unfolding matches_type text_eq
  matches_type_sound value type h = (
    λ e. rw e at h,
    λ e. rw e at h,
    λ e. rw e at h,
    λ e. rw e at h,
    λ e. rw e at h,
    λ e. rw e at h,
    λ e. rw e at h,
  )

  typed_as :
      (type name : Text) (test next : Bool)
      → (type ≡ name → test ≡ true)
      → next ≡ true
      → (if text_eq type name then test else next) ≡ true
  typed_as type name test next h k = elim (Bool-cases (text_eq type name)) [
    | inl e ↦ rw e (h ((text_eq_iff type name).0 e))
    | inr e ↦ rw e k
  ]

  matches_type_complete :
      (value : Json) (type : Text) → HasType value type → matches_type L value type ≡ true
  unfolding matches_type
  matches_type_complete value type (o, a, s, n, i, b, z) = typed_as type (codes "object") _ _ o (
      typed_as type (codes "array") _ _ a (
        typed_as type (codes "string") _ _ s (
          typed_as type (codes "number") _ _ n (
            typed_as type (codes "integer") _ _ i
              (typed_as type (codes "boolean") _ _ b (typed_as type (codes "null") _ _ z refl))))))

  -- A name of a type that the value has.
  pub data Named (value : Json) (t : Json) : Type 0 where
    named : (type : Text) → string_of L t ≡ some type → HasType value type → Named value t

  -- The member "type": one name, a list of names, or something that is not enforced.
  pub data Fits (value : Json) (t : Json) : Type 0 where
    one_name : is_string t ≡ true → Named value t → Fits value t
    one_of :
        (u : Json)
        → is_string t ≡ false
        → is_array t ≡ true
        → Element u (elements t)
        → Named value u
        → Fits value t
    unenforced : is_string t ≡ false → is_array t ≡ false → Fits value t

  abbrev pub Allowed : Json → Json → Type 0
  Allowed value candidates =
      is_array candidates ≡ true
      → (c : Json) × Element c (elements candidates) × (equal c value ≡ true)

  abbrev pub Complete : Json → Json → Type 0
  Complete value required =
      is_array required ≡ true
      → (r : Json) (name : Text) → Element r (elements required)
      → string_of L r ≡ some name
      → contains L name value ≡ true

  -- The property `name` is among the members of `props`, where this is an object.
  abbrev pub IsProperty : Text → Option Json → Type 0
  IsProperty name o =
      (props : Json) × (o ≡ some props) × (is_object props ≡ true) × (contains L name props ≡ true)

  -- Where "additionalProperties" is the Boolean false, the value has no others than "properties".
  abbrev pub Closed : Json → Json → Type 0
  Closed value schema =
      (ap : Json)
      → find (codes "additionalProperties") schema ≡ some ap
      → is_boolean ap ≡ true
      → get_bool ap ≡ some false
      → (m : Text × Json) → Element m (members value)
      → IsProperty m.0 (find (codes "properties") schema)

  pub properties_of_iff :
      (o : Option Json) (props : Json)
      → (properties_of L o ≡ some props) ↔ ((o ≡ some props) × (is_object props ≡ true))
  properties_of_iff none props = (λ h. absurd (cc), λ h. absurd (cc))
  properties_of_iff (some j) props = elim (Bool-cases (is_object j)) [
    | inl e ↦ (rw e (λ h. let same : j ≡ props = cc in (h, cc)), λ h. rw e h.0)
    | inr e ↦ (rw e (λ h. absurd (cc)), λ h. let same : j ≡ props = cc in absurd (cc))
  ]

  is_property-IsProperty :
      (name : Text) (o : Option Json)
      → (is_property L name (properties_of L o) ≡ true) ↔ IsProperty name o
  is_property-IsProperty name none = (λ h. absurd (cc), λ h. absurd (let no = h.1 in cc))
  is_property-IsProperty name (some j) = elim (Bool-cases (is_object j)) [
    | inl e ↦ (
      rw e (λ h. (j, refl, e, h)),
      λ h. let same : j ≡ h.0 = let s = h.1 in cc in rw e (let c = h.3 in cc),
    )
    | inr e ↦ (
      rw e (λ h. absurd (cc)),
      λ h. let same : j ≡ h.0 = let s = h.1 in cc in absurd (let k = h.2 in cc),
    )
  ]

  closes_sound :
      (ap : Json) → is_boolean ap ≡ true → get_bool ap ≡ some false → closes L (some ap) ≡ true
  unfolding closes
  closes_sound ap b f = rw (b, f) refl

  false_of : (o : Option Bool) → is_false L o ≡ true → o ≡ some false
  false_of none h = absurd (cc)
  false_of (some true) h = absurd (cc)
  false_of (some false) h = refl

  closes_complete :
      (o : Option Json)
      → closes L o ≡ true
      → (ap : Json) × (o ≡ some ap) × (is_boolean ap ≡ true) × (get_bool ap ≡ some false)
  unfolding closes
  closes_complete none h = absurd (cc)
  closes_complete (some ap) h = elim (Bool-cases (is_boolean ap)) [
    | inl e ↦ (ap, refl, e, false_of (get_bool ap) (rw e at h))
    | inr e ↦ absurd (let no = rw e at h in cc)
  ]

  pub named_type_iff :
      (value t : Json) → (named_type L value (string_of L t) ≡ true) ↔ Named value t
  named_type_iff value t = elim (Option-cases (string_of L t)) [
    | inl e ↦ (rw e (λ h. absurd (cc)), λ n. elim n [ named type e' m ↦ absurd (cc) ])
    | inr (type, e) ↦ (
      rw e (λ h. named type e (matches_type_sound value type h)),
      λ n. elim n [ named other e' m ↦ rw e' (matches_type_complete value other m) ],
    )
  ]

  any_type_sound :
      (value : Json) (ts : List Json)
      → any_type L value ts ≡ true
      → (u : Json) × Element u ts × Named value u
  unfolding any_type
  any_type_sound value [] h = absurd (cc)
  any_type_sound value (t ∷ ts) h = elim (Bool-cases (named_type L value (string_of L t))) [
    | inl e ↦ (t, first, (named_type_iff value t).0 e)
    | inr e ↦
        let found = any_type_sound value ts (ground arith) in (found.0, later found.1, found.2)
  ]

  any_type_complete :
      (value u : Json) (ts : List Json) → Element u ts → Named value u → any_type L value ts ≡ true
  unfolding any_type
  any_type_complete value u [] i n = elim i [ ]
  any_type_complete value u (_ ∷ ts) first n = rw ((named_type_iff value u).1 n) refl
  any_type_complete value u (t ∷ ts) (later m) n = ground (arith, any_type_complete value u ts m n)

  type_ok-Fits : (value t : Json) → (type_ok L value t ≡ true) ↔ Fits value t
  unfolding type_ok
  type_ok-Fits value t = elim (Bool-cases (is_string t)) [
    | inl s ↦ (
      rw s (λ h. one_name s ((named_type_iff value t).0 h)),
      λ f. elim f [
        | one_name s' n ↦ rw s ((named_type_iff value t).1 n)
        | one_of u s' a m n ↦ absurd (cc)
        | unenforced s' a ↦ absurd (cc)
      ],
    )
    | inr s ↦ elim (Bool-cases (is_array t)) [
      | inl a ↦ (
        rw (s, a)
            (λ h.
              let found = any_type_sound value (elements t) h in
              one_of found.0 s a found.1 found.2),
        λ f. elim f [
          | one_name s' n ↦ absurd (cc)
          | one_of u s' a' m n ↦ rw (s, a) (any_type_complete value u (elements t) m n)
          | unenforced s' a' ↦ absurd (cc)
        ],
      )
      | inr a ↦ (λ h. unenforced s a, λ f. rw (s, a) refl)
    ]
  ]

  pub check_type-Fits :
      (value t : Json) (path : Text) → (check_type L value (some t) path ≡ ok done) ↔ Fits value t
  unfolding check_type invalid
  check_type-Fits value t path = elim (Bool-cases (type_ok L value t)) [
    | inl e ↦ (λ h. (type_ok-Fits value t).0 e, λ f. rw e refl)
    | inr e ↦ (rw e (λ h. absurd (cc)), λ f. absurd (ground (arith, (type_ok-Fits value t).1 f)))
  ]

  is_candidate_sound :
      (value : Json) (cs : List Json)
      → is_candidate L value cs ≡ true
      → (c : Json) × Element c cs × (equal c value ≡ true)
  unfolding is_candidate
  is_candidate_sound value [] h = absurd (cc)
  is_candidate_sound value (c ∷ cs) h = elim (Bool-cases (equal c value)) [
    | inl e ↦ (c, first, e)
    | inr e ↦
        let found = is_candidate_sound value cs (ground arith) in (found.0, later found.1, found.2)
  ]

  is_candidate_complete :
      (value c : Json) (cs : List Json)
      → Element c cs
      → equal c value ≡ true
      → is_candidate L value cs ≡ true
  unfolding is_candidate
  is_candidate_complete value c [] i e = elim i [ ]
  is_candidate_complete value c (_ ∷ cs) first e = rw e refl
  is_candidate_complete value c (d ∷ cs) (later m) e =
      ground (arith, is_candidate_complete value c cs m e)

  pub check_enum-Allowed :
      (value cs : Json) (path : Text)
      → (check_enum L value (some cs) path ≡ ok done) ↔ Allowed value cs
  unfolding check_enum invalid
  check_enum-Allowed value cs path = elim (Bool-cases (is_array cs)) [
    | inr a ↦ (λ h k. absurd (cc), λ f. rw a refl)
    | inl a ↦ elim (Bool-cases (is_candidate L value (elements cs))) [
      | inl e ↦ (λ h k. is_candidate_sound value (elements cs) e, λ f. rw (a, e) refl)
      | inr e ↦ (
        rw (a, e) (λ h. absurd (cc)),
        λ f.
            let c = f a in
            absurd (ground (arith, is_candidate_complete value c.0 (elements cs) c.1 c.2)),
      )
    ]
  ]

  check_names_sound :
      (value r : Json) (rs : List Json) (path name : Text)
      → check_names L value rs path ≡ ok done
      → Element r rs
      → string_of L r ≡ some name
      → contains L name value ≡ true
  unfolding check_names invalid
  check_names_sound value r [] path name h i e = elim i [ ]
  check_names_sound value r (_ ∷ rs) path name h first e =
      elim (Bool-cases (contains L name value)) [ inl k ↦ k | inr k ↦ ground arith ]
  check_names_sound value r (s ∷ rs) path name h (later m) e = elim (Option-cases (string_of L s)) [
    | inl n ↦ check_names_sound value r rs path name (ground arith) m e
    | inr (t, n) ↦ elim (Bool-cases (contains L t value)) [
      | inl k ↦ check_names_sound value r rs path name (ground arith) m e
      | inr k ↦ absurd (ground arith)
    ]
  ]

  check_names_complete :
      (value : Json) (rs : List Json) (path : Text)
      → ((r : Json) (name : Text)
          → Element r rs
          → string_of L r ≡ some name
          → contains L name value ≡ true)
      → check_names L value rs path ≡ ok done
  unfolding check_names
  check_names_complete value [] path h = refl
  check_names_complete value (s ∷ rs) path h =
      let tails = check_names_complete value rs path (λ r name m e. h r name (later m) e) in
      elim (Option-cases (string_of L s)) [
        | inl n ↦ rw n tails
        | inr (t, n) ↦ rw (n, h s t first n) tails
      ]

  pub check_required-Complete :
      (value rs : Json) (path : Text)
      → (check_required L value (some rs) path ≡ ok done) ↔ Complete value rs
  unfolding check_required
  check_required-Complete value rs path = elim (Bool-cases (is_array rs)) [
    | inr a ↦ (λ h k. absurd (cc), λ f. rw a refl)
    | inl a ↦ (
      rw a (λ h k r name m e. check_names_sound value r (elements rs) path name h m e),
      λ f. rw a (check_names_complete value (elements rs) path (f a)),
    )
  ]

  check_unexpected_sound :
      (ms : List (Text × Json)) (props : Option Json) (path : Text) (m : Text × Json)
      → check_unexpected L ms props path ≡ ok done
      → Element m ms
      → is_property L m.0 props ≡ true
  unfolding check_unexpected invalid
  check_unexpected_sound [] props path m h i = elim i [ ]
  check_unexpected_sound (_ ∷ ms) props path m h first = ground arith
  check_unexpected_sound (n ∷ ms) props path m h (later i) =
      check_unexpected_sound ms props path m (ground arith) i

  check_unexpected_complete :
      (ms : List (Text × Json)) (props : Option Json) (path : Text)
      → ((m : Text × Json) → Element m ms → is_property L m.0 props ≡ true)
      → check_unexpected L ms props path ≡ ok done
  unfolding check_unexpected
  check_unexpected_complete [] props path h = refl
  check_unexpected_complete (m ∷ ms) props path h =
      rw (h m first) (check_unexpected_complete ms props path (λ n i. h n (later i)))

  pub check_additional-Closed :
      (value schema : Json) (path : Text)
      → (check_additional L value schema (properties_of L (find (codes "properties") schema)) path
          ≡ ok done)
        ↔ Closed value schema
  unfolding check_additional
  check_additional-Closed value schema path =
      let o = find (codes "properties") schema in
      elim (Bool-cases (closes L (find (codes "additionalProperties") schema))) [
        | inr c ↦ (λ h ap e b f. absurd (let yes = closes_sound ap b f in cc), λ f. rw c refl)
        | inl c ↦ (
          rw c (λ h ap e b f m i.
              (is_property-IsProperty m.0 o).0
                (check_unexpected_sound (members value) _ path m h i)),
          λ f.
              let (ap, e, b, n) = closes_complete _ c in
              rw c (
                check_unexpected_complete (members value) _ path
                  (λ m i. (is_property-IsProperty m.0 o).1 (f ap e b n m i))),
        )
      ]
