-- ===== src/Http/Origin.antt =====
-- src/transport/http/http_endpoint.cpp: which `Origin` headers are let through.
use mathlib.Core.Path.{subst}
use mcp_cpp.Common.{
  Element, first, later, Bool-cases, Option-cases, inl, inr, ◌↔◌, arith, text_eq_iff, text_eq_refl,
  strip_prefix_sound, Bool, true, false, ◌||◌, List, [], ◌∷◌, ◌++◌, Text, codes, text_eq,
  starts_with, strip_prefix, if◌then◌else◌, ◌≡◌, refl,
}

unfoldable pub is_localhost_origin : Text → Bool
is_localhost_origin origin =
    starts_with (codes "http://localhost") origin
    || starts_with (codes "http://127.0.0.1") origin
    || starts_with (codes "https://localhost") origin
    || starts_with (codes "https://127.0.0.1") origin

-- The loop over the allowed origins.
unfoldable pub is_listed : Text → List Text → Bool
is_listed origin [] = false
is_listed origin (allowed ∷ rest) = if text_eq origin allowed then true else is_listed origin rest

-- `origin` is the header, empty if there is none.
unfoldable pub origin_allowed : List Text → Text → Bool
origin_allowed allowed [] = true
origin_allowed allowed (c ∷ cs) =
    if is_localhost_origin (c ∷ cs) then true else is_listed (c ∷ cs) allowed

abbrev localhosts : List Text
localhosts =
    codes "http://localhost"
    ∷ codes "http://127.0.0.1"
    ∷ codes "https://localhost"
    ∷ codes "https://127.0.0.1"
    ∷ []

-- Which origins are let through: none, one that begins like a localhost one, or a listed one.
pub data LetThrough (allowed : List Text) (origin : Text) : Type 0 where
  no_origin : origin ≡ [] → LetThrough allowed origin
  localhost :
      (pre rest : Text) → Element pre localhosts → origin ≡ pre ++ rest → LetThrough allowed origin
  listed : Element origin allowed → LetThrough allowed origin

is_listed_sound :
    (origin : Text) (allowed : List Text) → is_listed origin allowed ≡ true → Element origin allowed
unfolding is_listed
is_listed_sound origin [] h = absurd (cc)
is_listed_sound origin (a ∷ rest) h = elim (Bool-cases (text_eq origin a)) [
  | inl e ↦ subst (λ b. Element origin (b ∷ rest)) ((text_eq_iff origin a).0 e) first
  | inr e ↦ later (is_listed_sound origin rest (ground arith))
]

is_listed_complete :
    (origin : Text) (allowed : List Text) → Element origin allowed → is_listed origin allowed ≡ true
unfolding is_listed
is_listed_complete origin [] i = elim i [ ]
is_listed_complete origin (_ ∷ rest) first = rw (text_eq_refl origin) refl
is_listed_complete origin (a ∷ rest) (later i) = ground (arith, is_listed_complete origin rest i)

starts_with-LetThrough :
    (allowed : List Text) (pre origin : Text)
    → Element pre localhosts
    → starts_with pre origin ≡ true
    → LetThrough allowed origin
starts_with-LetThrough allowed pre origin i h = elim (Option-cases (strip_prefix pre origin)) [
  | inl e ↦ absurd (let shut = rw (e, starts_with) at h in cc)
  | inr (rest, e) ↦ localhost pre rest i (strip_prefix_sound pre origin rest e)
]

localhost_sound :
    (allowed : List Text) (origin : Text)
    → is_localhost_origin origin ≡ true
    → LetThrough allowed origin
unfolding is_localhost_origin
localhost_sound allowed origin h =
    elim (Bool-cases (starts_with (codes "http://localhost") origin)) [
      | inl e ↦ starts_with-LetThrough allowed _ origin first e
      | inr e ↦ elim (Bool-cases (starts_with (codes "http://127.0.0.1") origin)) [
        | inl f ↦ starts_with-LetThrough allowed _ origin (later first) f
        | inr f ↦ elim (Bool-cases (starts_with (codes "https://localhost") origin)) [
          | inl g ↦ starts_with-LetThrough allowed _ origin (later (later first)) g
          | inr g ↦
              starts_with-LetThrough allowed _ origin (later (later (later first)))
                (rw (e, f, g) at h)
        ]
      ]
    ]

localhost_complete :
    (pre rest : Text) → Element pre localhosts → is_localhost_origin (pre ++ rest) ≡ true
unfolding is_localhost_origin strip_prefix
localhost_complete _ rest first = refl
localhost_complete _ rest (later first) = refl
localhost_complete _ rest (later (later first)) = refl
localhost_complete _ rest (later (later (later first))) = refl
localhost_complete _ rest (later (later (later (later i)))) = elim i [ ]

-- An origin passes exactly when it is empty, begins with one of the four localhost prefixes,
-- whatever follows it there, or is in the list of allowed origins.
pub origin_allowed-LetThrough :
    (allowed : List Text) (origin : Text)
    → (origin_allowed allowed origin ≡ true) ↔ LetThrough allowed origin
unfolding origin_allowed
origin_allowed-LetThrough allowed [] = (λ h. no_origin refl, λ l. refl)
origin_allowed-LetThrough allowed (c ∷ cs) = elim (Bool-cases (is_localhost_origin (c ∷ cs))) [
  | inl e ↦ (λ h. localhost_sound allowed (c ∷ cs) e, λ l. rw e refl)
  | inr e ↦ (
    rw e (λ h. listed (is_listed_sound (c ∷ cs) allowed h)),
    λ l. elim l [
      | no_origin n ↦ absurd (cc)
      | localhost pre rest i same ↦ let local = localhost_complete pre rest i in absurd (cc)
      | listed i ↦ rw e (is_listed_complete (c ∷ cs) allowed i)
    ],
  )
]
