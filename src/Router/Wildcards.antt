-- ===== src/Router/Wildcards.antt =====
-- Which handler a method is routed to.
use mcp_cpp.Common.{
  ℕ, ◌≤◌, true, false, ◌&&◌, Option, none, some, List, [], ◌∷◌, Text, length, if◌then◌else◌,
  starts_with, ◌≡◌, ◌⊎◌, inl, inr, refl, arith, Bool-cases, text_eq,
}
use mcp_cpp.Common.Dict.{lookup-insert, text_key}
use mcp_cpp.Router.{
  MessageRouter, best_match, is_better, match_wildcard, wildcard_prefix, set_request_handler,
  find_request_handler, handler_of,
}

module _ {H : Type 0} where
  -- The entry is one of the list's.
  abbrev pub IsEntry : Text × H → List (Text × H) → Type 0
  IsEntry e [] = ⊥
  IsEntry e (x ∷ xs) = (e ≡ x) ⊎ IsEntry e xs

  -- No pattern of the list that fits the method is longer than `n`.
  abbrev pub NoLonger : Text → ℕ → List (Text × H) → Type 0
  NoLonger method n [] = Unit {0}
  NoLonger method n (x ∷ xs) =
      (starts_with x.0 method ≡ true → length x.0 ≤ n) × NoLonger method n xs

  abbrev pub NoneFits : Text → List (Text × H) → Type 0
  NoneFits method [] = Unit {0}
  NoneFits method (x ∷ xs) = (starts_with x.0 method ≡ false) × NoneFits method xs

  abbrev IsBest : Text → Option (Text × H) → List (Text × H) → Option (Text × H) → Type 0
  IsBest method start xs none = (start ≡ none) × NoneFits method xs
  IsBest method start xs (some e) =
      ((start ≡ some e) ⊎ (IsEntry e xs × (starts_with e.0 method ≡ true)))
      × NoLonger method (length e.0) xs
      × ((b : Text × H) → start ≡ some b → length b.0 ≤ length e.0)

  abbrev next_best : Text → Option (Text × H) → Text × H → Option (Text × H)
  next_best method start x = if starts_with x.0 method && is_better start x then some x else start

  -- An entry that the search passes by is no longer than what it keeps.
  NoLonger-mono :
      (method : Text) (m n : ℕ) (xs : List (Text × H))
      → m ≤ n
      → NoLonger method m xs
      → NoLonger method n xs
  NoLonger-mono method m n [] h v = tt
  NoLonger-mono method m n (x ∷ xs) h v =
      ((λ f. omega (arith, v.0 f)), NoLonger-mono method m n xs h v.1)

  IsBest-cons :
      (method : Text) (start : Option (Text × H)) (x : Text × H) (xs : List (Text × H))
      (r : Option (Text × H))
      → IsBest method (next_best method start x) xs r
      → IsBest method start (x ∷ xs) r
  IsBest-cons method none x xs none v = elim (Bool-cases (starts_with x.0 method)) [
    | inl fits ↦ absurd (ground (arith, v.0))
    | inr misses ↦ (refl, (misses, v.1))
  ]
  IsBest-cons method (some b) x xs none v = absurd (ground (arith, v.0))
  IsBest-cons method none x xs (some e) v = elim (Bool-cases (starts_with x.0 method)) [
    | inl fits ↦ (ground (arith, v.0), ((λ f. v.2 x (ground arith)), v.1), (λ c f. absurd (cc)))
    | inr misses ↦ (ground (arith, v.0), ((λ f. absurd (cc)), v.1), (λ c f. absurd (cc)))
  ]
  IsBest-cons method (some b) x xs (some e) v =
      elim (Bool-cases (starts_with x.0 method && is_better (some b) x)) [
        | inl better ↦
            let longer : length x.0 ≤ length e.0 = v.2 x (rw better) in
            (ground (arith, v.0), ((λ f. longer), v.1), (λ c f. ground (arith, longer)))
        | inr worse ↦
            let shorter : length b.0 ≤ length e.0 = v.2 b (rw worse) in
            (
              ground (arith, v.0),
              ((λ f. ground (arith, shorter)), v.1),
              (λ c f. ground (arith, shorter)),
            )
      ]

  best_match-IsBest :
      (method : Text) (start : Option (Text × H)) (xs : List (Text × H))
      → IsBest method start xs (best_match start xs method)
  unfolding best_match
  best_match-IsBest method none [] = (refl, tt)
  best_match-IsBest method (some b) [] = (inl refl, tt, (λ c e. ground arith))
  best_match-IsBest method start (x ∷ xs) =
      IsBest-cons method start x xs (best_match (next_best method start x) xs method)
        (best_match-IsBest method (next_best method start x) xs)

  -- Either no registered prefix fits the method, and no wildcard handler is found, or the handler
  -- of a registered prefix is found that fits the method and than which none that fits is longer.
  pub match_wildcard_cases :
      (patterns : List (Text × H)) (method : Text)
      → (NoneFits method patterns × (match_wildcard patterns method ≡ none))
        ⊎ ((e : Text × H) × IsEntry e patterns
            × (starts_with e.0 method ≡ true)
            × NoLonger method (length e.0) patterns
            × (match_wildcard patterns method ≡ some e.1))
  unfolding match_wildcard
  match_wildcard_cases patterns method =
      cases (best_match none patterns method) (best_match-IsBest method none patterns)
    where
      cases :
          (r : Option (Text × H))
          → IsBest method none patterns r
          → (NoneFits method patterns × (handler_of r ≡ none))
            ⊎ ((e : Text × H) × IsEntry e patterns
                × (starts_with e.0 method ≡ true)
                × NoLonger method (length e.0) patterns
                × (handler_of r ≡ some e.1))
      cases none v = inl (v.1, refl)
      cases (some e) v = elim (v.0) [
        | inl start ↦ absurd (cc)
        | inr (entry, fits) ↦ inr (e, entry, fits, v.1, refl)
      ]

-- After a request handler is set for a method that does not end in `*`, that method finds this
-- handler, whatever wildcards there are, and every other method finds what it found before.
find-set_request_handler :
    {H N C : Type 0} (r : MessageRouter H N C) (method other : Text) (h : H)
    → wildcard_prefix method ≡ none
    → find_request_handler (set_request_handler r method h) other
      ≡ (if text_eq method other then some h else find_request_handler r other)
unfolding find_request_handler set_request_handler
find-set_request_handler r method other h plain =
    ground (arith, lookup-insert method other h r.request_handlers)
