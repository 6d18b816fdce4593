-- ===== src/Resources.antt =====
-- src/server/resource_provider.cpp: the resources, templates, subscriptions and completions of a
-- server. Each method holds the provider's lock for its accesses. A change returns the changed
-- callback that it calls. `I` and `A` are icons and annotations, `H` the read handlers, `F` the
-- completion callbacks and `C` the changed callbacks of the program.
pub mod Subscriptions
use mcp_cpp.Common.{
  ℕ, Bool, true, false, not, ◌&&◌, ◌||◌, Option, none, some, List, [], ◌∷◌, ◌++◌, map, Text, codes,
  text_eq, text_eq_iff, length, all, leb, ◌==◌, split_byte, retain, if◌then◌else◌, ◌≡◌, ◌↔◌, arith,
}
use mcp_cpp.Common.Dict.{Dict, Eq, lookup, insert}
use mcp_cpp.Common.Entries.{find_named, erase_named}
use mcp_cpp.Errors.{
  Error, fail_with, invalid_params, invalid_uri, resource_not_found, internal_error, Result, ok,
  err, Done, done,
}
use mcp_cpp.Json.{is_some}
use mcp_cpp.Pagination.{Outcome, paginate}
use mcp_cpp.UriTemplate.{match_uri_template}

pub record Resource (I A : Type 0) : Type 0 where
  pub uri : Text
  pub name : Text
  pub title : Option Text
  pub description : Option Text
  pub mime_type : Option Text
  pub icons : Option (List I)
  pub annotations : Option A

pub record ResourceTemplate (I A : Type 0) : Type 0 where
  pub uri_template : Text
  pub name : Text
  pub title : Option Text
  pub description : Option Text
  pub mime_type : Option Text
  pub icons : Option (List I)
  pub annotations : Option A

-- How a read handler ends, with contents `R`.
pub data ReadOutcome (J R : Type 0) : Type 0 where
  returned : Result J R → ReadOutcome J R
  threw_error : Error J → ReadOutcome J R
  threw_other : Text → ReadOutcome J R

-- The keys of the completions.
abbrev pub pair_eq : Text × Text → Text × Text → Bool
pair_eq (a, b) (c, d) = text_eq a c && text_eq b d

pub pair_eq_iff : (p q : Text × Text) → (pair_eq p q ≡ true) ↔ (p ≡ q)
pair_eq_iff (a, b) (c, d) = ground (arith, text_eq_iff a c, text_eq_iff b d)

instance abbrev pub pair_key : Eq (Text × Text)
pair_key = record { beq = pair_eq; beq_iff = pair_eq_iff }

pub record ResourceProvider (I A H F C : Type 0) : Type 0 where
  pub resources : List (Resource I A × Option H)
  pub templates : List (ResourceTemplate I A)
  pub fallback_read : Option H
  pub subscriptions : List Text
  pub completions : Dict (Text × Text) F
  pub page_size : ℕ
  pub changed_callback : Option C

abbrev pub is_alpha : ℕ → Bool
is_alpha c = (leb b'A' c && leb c b'Z') || (leb b'a' c && leb c b'z')

abbrev pub is_scheme_char : ℕ → Bool
is_scheme_char c =
    is_alpha c || (leb b'0' c && leb c b'9') || (c == b'+') || (c == b'-') || (c == b'.')

-- What stands in front of the first colon.
abbrev pub is_scheme : Option (Text × Text) → Bool
is_scheme none = false
is_scheme (some ([], _)) = false
is_scheme (some (c ∷ cs, _)) = is_alpha c && all is_scheme_char cs

unfoldable pub looks_like_uri : Text → Bool
looks_like_uri uri = is_scheme (split_byte b':' uri)

unfoldable pub has_text : Text → List Text → Bool
has_text t [] = false
has_text t (x ∷ xs) = text_eq x t || has_text t xs

abbrev pub resource_uri : {I A H : Type 0} → Resource I A × Option H → Text
resource_uri entry = entry.0.uri

abbrev pub template_text : {I A : Type 0} → ResourceTemplate I A → Text
template_text t = t.uri_template

-- The loop over the templates.
unfoldable pub matches_any : {I A : Type 0} → List (ResourceTemplate I A) → Text → Bool
matches_any [] uri = false
matches_any (t ∷ ts) uri = is_some (match_uri_template t.uri_template uri) || matches_any ts uri

module _ {I A H F C : Type 0} where
  unfoldable pub uri_known_locked : ResourceProvider I A H F C → Text → Bool
  uri_known_locked p uri =
      is_some (find_named resource_uri uri p.resources) || matches_any p.templates uri

  unfoldable pub remove_resource :
      ResourceProvider I A H F C → Text → ResourceProvider I A H F C × Option C × Bool
  remove_resource p uri = elim (find_named resource_uri uri p.resources) [
    | none ↦ (p, none, false)
    | some _ ↦ (
      record p {
        resources = erase_named resource_uri uri p.resources;
        subscriptions = retain (λ (t : Text). not (text_eq t uri)) p.subscriptions;
      },
      p.changed_callback,
      true,
    )
  ]

  unfoldable pub set_read_handler :
      ResourceProvider I A H F C → Option H → ResourceProvider I A H F C
  set_read_handler p handler = record p { fallback_read = handler }

  unfoldable pub unsubscribe : ResourceProvider I A H F C → Text → ResourceProvider I A H F C × Bool
  unsubscribe p uri = (
    record p { subscriptions = retain (λ (t : Text). not (text_eq t uri)) p.subscriptions },
    has_text uri p.subscriptions,
  )

  unfoldable pub is_subscribed : ResourceProvider I A H F C → Text → Bool
  is_subscribed p uri = has_text uri p.subscriptions

  unfoldable pub set_completion :
      ResourceProvider I A H F C → Text → Text → F → ResourceProvider I A H F C
  set_completion p uri_template argument callback = record p {
    completions = insert (uri_template, argument) callback p.completions;
  }

  -- The call of the callback is `run`.
  unfoldable pub complete :
      {R : Type 0} → (F → Text → R) → ResourceProvider I A H F C → Text → Text → Text → Option R
  complete run p uri_template argument value =
      elim (lookup (uri_template, argument) p.completions) [
        | none ↦ none
        | some callback ↦ some (run callback value)
      ]

  unfoldable pub set_page_size : ResourceProvider I A H F C → ℕ → ResourceProvider I A H F C
  set_page_size p n = record p { page_size = if n == 0 then 1 else n }

  unfoldable pub set_changed_callback :
      ResourceProvider I A H F C → Option C → ResourceProvider I A H F C
  set_changed_callback p callback = record p { changed_callback = callback }

module _ {J I A H F C : Type 0} where
  abbrev pub add_new_resource :
      ResourceProvider I A H F C
      → Resource I A
      → Option H
      → Option (Resource I A × Option H)
      → ResourceProvider I A H F C × Option C × Result J Done
  add_new_resource p resource handler (some _) = (
    p,
    none,
    err (fail_with invalid_params (codes "resource already registered: " ++ resource.uri)),
  )
  add_new_resource p resource handler none = (
    record p { resources = p.resources ++ (resource, handler) ∷ [] },
    p.changed_callback,
    ok done,
  )

  unfoldable pub add_resource :
      ResourceProvider I A H F C
      → Resource I A
      → Option H
      → ResourceProvider I A H F C × Option C × Result J Done
  add_resource p resource handler =
      if not (looks_like_uri resource.uri)
      then (p, none, err (fail_with invalid_uri (codes "invalid URI: " ++ resource.uri)))
      else add_new_resource p resource handler (find_named resource_uri resource.uri p.resources)

  unfoldable pub add_resource_template :
      ResourceProvider I A H F C
      → ResourceTemplate I A
      → ResourceProvider I A H F C × Option C × Result J Done
  add_resource_template p t = elim (find_named template_text t.uri_template p.templates) [
    | some _ ↦ (
      p,
      none,
      err (fail_with invalid_params (codes "template already registered: " ++ t.uri_template)),
    )
    | none ↦ (record p { templates = p.templates ++ t ∷ [] }, p.changed_callback, ok done)
  ]

  unfoldable pub list_resources :
      ResourceProvider I A H F C → Option Text → Outcome J (Resource I A)
  list_resources p cursor =
      paginate (map (λ (entry : Resource I A × Option H). entry.0) p.resources) cursor p.page_size

  unfoldable pub list_resource_templates :
      ResourceProvider I A H F C → Option Text → Outcome J (ResourceTemplate I A)
  list_resource_templates p cursor = paginate p.templates cursor p.page_size

  unfoldable pub subscribe :
      ResourceProvider I A H F C → Text → ResourceProvider I A H F C × Result J Done
  subscribe p uri =
      if not (uri_known_locked p uri)
      then (p, err (fail_with resource_not_found (codes "resource not found: " ++ uri)))
      else (
        record p {
          subscriptions =
              if has_text uri p.subscriptions then p.subscriptions else uri ∷ p.subscriptions;
        },
        ok done,
      )

abbrev pub or_fallback : {H : Type 0} → Option H → Option H → Option H
or_fallback (some h) fallback = some h
or_fallback none fallback = fallback

-- `run` is the call of a read handler.
module _ {J H R : Type 0} (run : H → Text → ReadOutcome J R) where
  abbrev pub read_result : ReadOutcome J R → Result J R
  read_result (returned r) = r
  read_result (threw_error e) = err e
  read_result (threw_other what) = err (fail_with internal_error what)

  abbrev pub read_with : Text → Option H → Result J R
  read_with uri none =
      err (fail_with internal_error (codes "no read handler for resource: " ++ uri))
  read_with uri (some h) = read_result (run h uri)

  abbrev pub read_found :
      {I A F C : Type 0}
      → ResourceProvider I A H F C
      → Text
      → Option (Resource I A × Option H)
      → Result J R
  read_found p uri (some entry) = read_with uri (or_fallback entry.1 p.fallback_read)
  read_found p uri none =
      if matches_any p.templates uri
      then read_with uri p.fallback_read
      else err (fail_with resource_not_found (codes "resource not found: " ++ uri))

  unfoldable pub read_resource : {I A F C : Type 0} → ResourceProvider I A H F C → Text → Result J R
  read_resource p uri =
      if not (looks_like_uri uri)
      then err (fail_with invalid_uri (codes "invalid URI: " ++ uri))
      else read_found p uri (find_named resource_uri uri p.resources)
