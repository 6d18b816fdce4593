-- ===== src/Schema/Nested.antt =====
-- src/core/schema.cpp: when a chain of checks passes, and the loops over members and elements.
use mathlib.Core.Path.{subst}
use mcp_cpp.Common.{
  ℕ, suc, Bool, true, false, Option, none, some, List, [], ◌∷◌, ◌++◌, Text, codes, if◌then◌else◌,
  Element, first, later, to_text, ◌≡◌, ◌↔◌, refl, ap, arith, Option-cases, inl, inr,
}
use mcp_cpp.Json.{JsonLib}
use mcp_cpp.Errors.{Result, ok, err, Done, done}
use mcp_cpp.Schema.{◌then_check◌, check_member, check_properties, check_elements}

pub passes_then :
    {J : Type 0} (a b : Option (Result J Done))
    → ((a then_check b) ≡ some (ok done)) ↔ ((a ≡ some (ok done)) × (b ≡ some (ok done)))
passes_then none b = ground arith
passes_then (some (ok done)) b = ground arith
passes_then (some (err e)) b = ground arith

pub some_passes : {J : Type 0} (r : Result J Done) → (some r ≡ some (ok done)) ↔ (r ≡ ok done)
some_passes r = (λ h. cc, λ h. ap some h)

pub guard_passes :
    {J : Type 0} (b : Bool) (a : Option (Result J Done))
    → ((if b then a else some (ok done)) ≡ some (ok done)) ↔ (b ≡ true → a ≡ some (ok done))
guard_passes true a = (λ h k. h, λ f. f refl)
guard_passes false a = (λ h k. absurd (cc), λ f. refl)

pub optional_passes :
    {J X : Type 0} (P : J → Type 0) (check : Option J → X) (good : X)
    → check none ≡ good
    → ((j : J) → (check (some j) ≡ good) ↔ P j)
    → (o : Option J) → (check o ≡ good) ↔ ((j : J) → o ≡ some j → P j)
optional_passes P check good h f none = (λ _ j e. absurd (cc), λ _. h)
optional_passes P check good h f (some i) =
    (λ g j e. let same : i ≡ j = cc in subst P same ((f i).0 g), λ g. (f i).1 (g i refl))

module _ (L : JsonLib) where
  open L use {Json, is_object, is_array, is_string, find, elements, members, equal}

  -- The nested checks, for a check `nested` of members and elements.
  module _ (nested : Json → Json → Text → Option (Result Json Done)) where
    pub check_properties_sound :
        (value : Json) (p : Text × Json) (ps : List (Text × Json)) (path : Text) (w : Json)
        → check_properties L nested value ps path ≡ some (ok done)
        → Element p ps
        → find p.0 value ≡ some w
        → nested w p.1 (path ++ codes "/" ++ p.0) ≡ some (ok done)
    unfolding check_properties
    check_properties_sound value p [] path w h i e = elim i [ ]
    check_properties_sound value p (_ ∷ ps) path w h first e =
        let at = path ++ codes "/" ++ p.0 in
        let passed =
          ((passes_then (check_member L nested (find p.0 value) p.1 at)
              (check_properties L nested value ps path)).0
            h).0 in
        ground (arith, passed)
    check_properties_sound value p (q ∷ ps) path w h (later i) e =
        check_properties_sound value p ps path w ((passes_then _ _).0 h).1 i e

    pub check_properties_complete :
        (value : Json) (ps : List (Text × Json)) (path : Text)
        → ((p : Text × Json) (w : Json) (at : Text)
            → Element p ps
            → find p.0 value ≡ some w
            → nested w p.1 at ≡ some (ok done))
        → check_properties L nested value ps path ≡ some (ok done)
    unfolding check_properties
    check_properties_complete value [] path h = refl
    check_properties_complete value (p ∷ ps) path h =
        let tails = check_properties_complete value ps path (λ q w at i. h q w at (later i)) in
        elim (Option-cases (find p.0 value)) [
          | inl e ↦ rw e tails
          | inr (w, e) ↦ rw (e, h p w (path ++ codes "/" ++ p.0) first e) tails
        ]

    pub check_elements_sound :
        (ws : List Json) (items w : Json) (index : ℕ) (path : Text)
        → check_elements L nested ws items index path ≡ some (ok done)
        → Element w ws
        → (at : Text) × (nested w items at ≡ some (ok done))
    unfolding check_elements
    check_elements_sound [] items w index path h i = elim i [ ]
    check_elements_sound (_ ∷ ws) items w index path h first =
        (path ++ codes "/" ++ to_text index, ((passes_then _ _).0 h).0)
    check_elements_sound (v ∷ ws) items w index path h (later i) =
        check_elements_sound ws items w (suc index) path ((passes_then _ _).0 h).1 i

    pub check_elements_complete :
        (ws : List Json) (items : Json) (index : ℕ) (path : Text)
        → ((w : Json) (at : Text) → Element w ws → nested w items at ≡ some (ok done))
        → check_elements L nested ws items index path ≡ some (ok done)
    unfolding check_elements
    check_elements_complete [] items index path h = refl
    check_elements_complete (w ∷ ws) items index path h =
        rw (h w (path ++ codes "/" ++ to_text index) first)
          (check_elements_complete ws items (suc index) path (λ v at i. h v at (later i)))
