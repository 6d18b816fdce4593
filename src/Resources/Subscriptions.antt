-- ===== src/Resources/Subscriptions.antt =====
-- src/server/resource_provider.cpp: which URIs can be subscribed.
use mcp_cpp.Common.{
  ℕ, ◌≤◌, true, false, not, Option, List, [], ◌∷◌, ◌++◌, Text, text_eq, text_eq_iff, retain,
  if◌then◌else◌, ◌≡◌, sym, arith, Bool-cases, Option-cases, inl, inr,
}
use mcp_cpp.Common.Entries.{
  find_named, count_named, find_named-erase_other, count_named-erase_named, unique-append,
}
use mcp_cpp.Json.{is_some}
use mcp_cpp.Resources.{
  Resource, ResourceTemplate, ResourceProvider, looks_like_uri, has_text, resource_uri,
  template_text, matches_any, uri_known_locked, add_resource, add_resource_template,
  remove_resource, subscribe, unsubscribe, set_page_size, set_read_handler, set_changed_callback,
  set_completion,
}

has_text-retain :
    (t uri : Text) (ts : List Text)
    → has_text t (retain (λ (x : Text). not (text_eq x uri)) ts)
      ≡ (if text_eq uri t then false else has_text t ts)
unfolding has_text retain
has_text-retain t uri [] = ground arith
has_text-retain t uri (x ∷ ts) =
    ground (arith, has_text-retain t uri ts, text_eq_iff uri t, text_eq_iff x t, text_eq_iff x uri)

matches_any-append :
    {I A : Type 0} (ts : List (ResourceTemplate I A)) (t : ResourceTemplate I A) (uri : Text)
    → matches_any ts uri ≡ true
    → matches_any (ts ++ t ∷ []) uri ≡ true
unfolding matches_any
matches_any-append [] t uri h = ground arith
matches_any-append (s ∷ ts) t uri h = ground (arith, matches_any-append ts t uri)

module _ {I A H : Type 0} where
  is_some-append :
      (rs : List (Resource I A × Option H)) (r : Resource I A × Option H) (uri : Text)
      → is_some (find_named resource_uri uri rs) ≡ true
      → is_some (find_named resource_uri uri (rs ++ r ∷ [])) ≡ true
  unfolding find_named
  is_some-append [] r uri h = ground arith
  is_some-append (s ∷ rs) r uri h = ground (arith, is_some-append rs r uri)

module _ {I A H F C : Type 0} where
  -- No URI is registered twice, and every subscribed URI is a registered one or matches a template.
  abbrev pub IsProvider : ResourceProvider I A H F C → Type 0
  IsProvider p =
      ((uri : Text) → count_named resource_uri uri p.resources ≤ 1)
      × ((uri : Text) → has_text uri p.subscriptions ≡ true → uri_known_locked p uri ≡ true)

  add_resource-IsProvider :
      (J : Type 0) (p : ResourceProvider I A H F C) (r : Resource I A) (h : Option H)
      → IsProvider p
      → IsProvider (add_resource {J = J} p r h).0
  unfolding add_resource uri_known_locked
  add_resource-IsProvider J p r h (u, k) = elim (Bool-cases (looks_like_uri r.uri)) [
    | inr v ↦ rw (v, add_resource) (u, k)
    | inl v ↦ elim (Option-cases (find_named resource_uri r.uri p.resources)) [
      | inr (_, e) ↦ rw (v, add_resource, e) (u, k)
      | inl e ↦
          rw (v, add_resource, e)
            (
              unique-append resource_uri p.resources (r, h) u e,
              λ uri s. ground (arith, k uri s, is_some-append p.resources (r, h) uri),
            )
    ]
  ]

  add_resource_template-IsProvider :
      (J : Type 0) (p : ResourceProvider I A H F C) (t : ResourceTemplate I A)
      → IsProvider p
      → IsProvider (add_resource_template {J = J} p t).0
  unfolding add_resource_template uri_known_locked
  add_resource_template-IsProvider J p t (u, k) =
      elim (Option-cases (find_named template_text t.uri_template p.templates)) [
        | inr (_, e) ↦ rw (e, add_resource_template) (u, k)
        | inl e ↦
            rw (e, add_resource_template)
              (u, λ uri s. ground (arith, k uri s, matches_any-append p.templates t uri))
      ]

  remove_resource-IsProvider :
      (p : ResourceProvider I A H F C) (uri : Text)
      → IsProvider p
      → IsProvider (remove_resource p uri).0
  unfolding remove_resource uri_known_locked
  remove_resource-IsProvider p uri (u, k) =
      elim (Option-cases (find_named resource_uri uri p.resources)) [
        | inl e ↦ rw (e, remove_resource) (u, k)
        | inr (_, e) ↦
            rw (e, remove_resource)
              (
                λ t. omega (arith, count_named-erase_named resource_uri t uri p.resources, u t),
                λ t s. elim (Bool-cases (text_eq uri t)) [
                  | inl same ↦ absurd (ground (arith, has_text-retain t uri p.subscriptions))
                  | inr other ↦
                      rw (find_named-erase_other resource_uri t uri p.resources other)
                        (k t (ground (arith, has_text-retain t uri p.subscriptions)))
                ],
              )
      ]

  subscribe-IsProvider :
      (J : Type 0) (p : ResourceProvider I A H F C) (uri : Text)
      → IsProvider p
      → IsProvider (subscribe {J = J} p uri).0
  unfolding subscribe has_text uri_known_locked
  subscribe-IsProvider J p uri (u, k) = elim (Bool-cases (uri_known_locked p uri)) [
    | inr e ↦ rw (e, subscribe) (u, k)
    | inl e ↦
        rw (e, subscribe)
          (
            u,
            λ t s. elim (Bool-cases (text_eq uri t)) [
              | inl same ↦ rw (sym ((text_eq_iff uri t).0 same)) e
              | inr other ↦ k t (ground (arith, s, other))
            ],
          )
  ]

  unsubscribe-IsProvider :
      (p : ResourceProvider I A H F C) (uri : Text)
      → IsProvider p
      → IsProvider (unsubscribe p uri).0
  unfolding unsubscribe uri_known_locked
  unsubscribe-IsProvider p uri (u, k) =
      (u, λ t s. ground (arith, k t, has_text-retain t uri p.subscriptions))

-- The changes of a provider, in any order.
pub data Change (I A H F C : Type 0) : Type 0 where
  adds : Resource I A → Option H → Change I A H F C
  adds_template : ResourceTemplate I A → Change I A H F C
  removes : Text → Change I A H F C
  subscribes : Text → Change I A H F C
  unsubscribes : Text → Change I A H F C
  reads_with : Option H → Change I A H F C
  completes_with : Text → Text → F → Change I A H F C
  sizes : ℕ → Change I A H F C
  watches : Option C → Change I A H F C

module _ (J : Type 0) {I A H F C : Type 0} where
  unfoldable pub change : Change I A H F C → ResourceProvider I A H F C → ResourceProvider I A H F C
  change (adds r h) p = (add_resource {J = J} p r h).0
  change (adds_template t) p = (add_resource_template {J = J} p t).0
  change (removes uri) p = (remove_resource p uri).0
  change (subscribes uri) p = (subscribe {J = J} p uri).0
  change (unsubscribes uri) p = (unsubscribe p uri).0
  change (reads_with h) p = set_read_handler p h
  change (completes_with t a f) p = set_completion p t a f
  change (sizes n) p = set_page_size p n
  change (watches c) p = set_changed_callback p c

  unfoldable pub change_all :
      List (Change I A H F C) → ResourceProvider I A H F C → ResourceProvider I A H F C
  change_all [] p = p
  change_all (c ∷ cs) p = change_all cs (change c p)

  change-IsProvider :
      (c : Change I A H F C) (p : ResourceProvider I A H F C)
      → IsProvider p
      → IsProvider (change c p)
  unfolding change set_read_handler set_completion set_page_size set_changed_callback
      uri_known_locked
  change-IsProvider (adds r h) p i = add_resource-IsProvider J p r h i
  change-IsProvider (adds_template t) p i = add_resource_template-IsProvider J p t i
  change-IsProvider (removes uri) p i = remove_resource-IsProvider p uri i
  change-IsProvider (subscribes uri) p i = subscribe-IsProvider J p uri i
  change-IsProvider (unsubscribes uri) p i = unsubscribe-IsProvider p uri i
  change-IsProvider (reads_with h) p i = i
  change-IsProvider (completes_with t a f) p i = i
  change-IsProvider (sizes n) p i = i
  change-IsProvider (watches c) p i = i

  -- Whatever is added, removed, subscribed, unsubscribed or set, in any order: no URI is registered
  -- twice, and every subscribed URI is a registered one or matches a registered template.
  pub change_all-IsProvider :
      (cs : List (Change I A H F C)) (p : ResourceProvider I A H F C)
      → IsProvider p
      → IsProvider (change_all cs p)
  unfolding change_all
  change_all-IsProvider [] p i = i
  change_all-IsProvider (c ∷ cs) p i =
      change_all-IsProvider cs (change c p) (change-IsProvider c p i)
