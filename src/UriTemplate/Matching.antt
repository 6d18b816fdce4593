-- ===== src/UriTemplate/Matching.antt =====
-- What `match_uri_template` captures, described without the scanning.
use mcp_cpp.Common.{
  Option, some, List, [], ◌∷◌, ◌++◌, Text, strip_prefix, strip_prefix-append, strip_prefix_sound,
  find_text, find_text_sound, find_text_complete, FirstAt, Option-cases, ◌≡◌, ◌≢◌, ◌↔◌, refl, arith,
  inl, inr,
}
use mcp_cpp.Common.Dict.{Dict, insert, text_key}
use mcp_cpp.UriTemplate.{
  Segment, literal, variable, bind_value, match_from, tokenize, match_uri_template,
}

-- How the segments split a URI: literals stand as they are, a variable stands for a non-empty
-- text, which ends at the first occurrence of the literal behind it, or with the URI.
pub data Captures : List Segment → Text → List (Text × Text) → Type 0 where
  done : {uri : Text} → uri ≡ [] → Captures [] uri []
  text :
      {segs : List Segment} {uri rest t : Text} {vals : List (Text × Text)}
      → uri ≡ t ++ rest
      → Captures segs rest vals
      → Captures (literal t ∷ segs) uri vals
  last_value : {uri name : Text} → uri ≢ [] → Captures (variable name ∷ []) uri ((name, uri) ∷ [])
  value :
      {segs : List Segment} {uri name t v rest : Text} {vals : List (Text × Text)}
      → uri ≡ v ++ rest
      → v ≢ []
      → FirstAt t v rest
      → Captures (literal t ∷ segs) rest vals
      → Captures (variable name ∷ literal t ∷ segs) uri ((name, v) ∷ vals)

-- The captured values entered one after the other, as `variables[name] = value` does.
abbrev pub enter : List (Text × Text) → Dict Text Text → Dict Text Text
enter [] vars = vars
enter ((name, v) ∷ vals) vars = enter vals (insert name v vars)

bind_value-ne : (name v : Text) (m : Option (Dict Text Text)) → v ≢ [] → bind_value name v m ≡ m
bind_value-ne name [] m h = absurd (h refl)
bind_value-ne name (c ∷ cs) m h = refl

match_from_complete :
    {segs : List Segment} {uri : Text} {vals : List (Text × Text)} (vars : Dict Text Text)
    → Captures segs uri vals
    → match_from segs uri vars ≡ some (enter vals vars)
unfolding match_from
match_from_complete vars (done e) = rw (e, match_from)
match_from_complete vars (text {rest} {t} e c) =
    rw (e, match_from, strip_prefix-append t rest) (match_from_complete vars c)
match_from_complete vars (last_value {uri} {name} ne) = bind_value-ne name uri _ ne
match_from_complete vars (value {name} {t} {v} {rest} e ne f c) =
    rw (e, match_from, find_text_complete t v rest f, bind_value-ne name v _ ne)
      (match_from_complete (insert name v vars) c)

bind_value-eq-some :
    (name v : Text) (m : Option (Dict Text Text)) {out : Dict Text Text}
    → bind_value name v m ≡ some out
    → (v ≢ []) × (m ≡ some out)
bind_value-eq-some name [] m h = absurd (cc)
bind_value-eq-some name (c ∷ cs) m h = ((λ e. cc), h)

abbrev pub Entered : List Segment → Text → Dict Text Text → Dict Text Text → Type 0
Entered segs uri vars out =
    (vals : List (Text × Text)) × Captures segs uri vals × (out ≡ enter vals vars)

match_from_sound :
    (segs : List Segment) (uri : Text) (vars : Dict Text Text) {out : Dict Text Text}
    → match_from segs uri vars ≡ some out
    → Entered segs uri vars out
unfolding match_from
match_from_sound [] [] vars h = ([], done refl, ground arith)
match_from_sound [] (c ∷ cs) vars h = absurd (cc)
match_from_sound (literal t ∷ segs) uri vars {out} h = elim (Option-cases (strip_prefix t uri)) [
  | inl e ↦ absurd (ground arith)
  | inr (rest, e) ↦
      let (vals, c, o) = match_from_sound segs rest vars {out = out} (ground arith) in
      (vals, text (strip_prefix_sound t uri rest e) c, o)
]
match_from_sound (variable name ∷ []) uri vars h =
    let (ne, e) = bind_value-eq-some name uri _ h in ((name, uri) ∷ [], last_value ne, ground arith)
match_from_sound (variable name ∷ variable _ ∷ segs) uri vars h = absurd (cc)
match_from_sound (variable name ∷ literal t ∷ segs) uri vars {out} h =
    elim (Option-cases (find_text t uri)) [
      | inl e ↦ absurd (ground arith)
      | inr ((v, rest), e) ↦
          let (ne, more) = bind_value-eq-some name v _ {out = out} (ground arith) in
          let (vals, c, o) =
            match_from_sound (literal t ∷ segs) rest (insert name v vars) {out = out} more in
          let (split, first) = find_text_sound t uri {before = v} {behind = rest} e in
          ((name, v) ∷ vals, value split ne first c, o)
    ]

-- A URI matches a template that splits into `segs` exactly when the segments capture values from
-- it, and then the result holds these values, entered in the template's order.
pub match_uri_template_iff :
    (template uri : Text) (segs : List Segment) (out : Dict Text Text)
    → tokenize template ≡ some segs
    → (match_uri_template template uri ≡ some out) ↔ Entered segs uri [] out
unfolding match_uri_template
match_uri_template_iff template uri segs out e =
    rw (e, match_uri_template)
      (
        (λ h. match_from_sound segs uri [] h),
        (λ found. let (vals, c, o) = found in rw o (match_from_complete [] c)),
      )
