-- ===== src/Prompts/Arguments.antt =====
-- src/server/prompt_provider.cpp: when a prompt handler runs.
use mcp_cpp.Common.{
  Bool, Option, Element, first, later, true, false, not, ◌&&◌, none, some, List, [], ◌∷◌, ◌++◌,
  Text, codes, ◌≡◌, inl, inr, refl, sym, ◌⊎◌, Bool-cases,
}
use mcp_cpp.Common.Entries.{find_named}
use mcp_cpp.Errors.{fail_with, invalid_params, internal_error, Result, err}
use mcp_cpp.Json.{JsonLib, contains}
use mcp_cpp.Prompts.{
  PromptArgument, Prompt, PromptProvider, PromptOutcome, prompt_name, is_required, returned,
  threw_error, threw_other, prompt_result, missing_of, first_missing, get_prompt,
}

module _ (L : JsonLib) {H R : Type 0} (run : H → L.Json → PromptOutcome L.Json R) where
  open L use {Json}

  -- The call of the handler, a thrown exception included, gives the result.
  abbrev pub Follows : PromptOutcome Json R → Result Json R → Type 0
  Follows (returned r) result = result ≡ r
  Follows (threw_error e) result = result ≡ err e
  Follows (threw_other what) result = result ≡ err (fail_with internal_error what)

  -- Every argument of the prompt that is marked as required is among those that are passed.
  abbrev pub AllPassed : Json → Option (List PromptArgument) → Type 0
  AllPassed arguments declared =
      (list : List PromptArgument) (a : PromptArgument)
      → declared ≡ some list
      → Element a list
      → a.required ≡ some true
      → contains L a.name arguments ≡ true

  required_some : (o : Option Bool) → is_required o ≡ true → o ≡ some true
  required_some none h = absurd (cc)
  required_some (some true) h = refl
  required_some (some false) h = absurd (cc)

  first_missing-none :
      (arguments : Json) (list : List PromptArgument)
      → ((a : PromptArgument)
          → Element a list
          → a.required ≡ some true
          → contains L a.name arguments ≡ true)
      → first_missing L run arguments list ≡ none
  unfolding first_missing
  first_missing-none arguments [] h = refl
  first_missing-none arguments (a ∷ rest) h =
      let tails = first_missing-none arguments rest (λ b i r. h b (later i) r) in
      elim (Bool-cases (is_required a.required)) [
        | inl e ↦ rw (e, first_missing, h a first (required_some a.required e)) tails
        | inr e ↦ rw (e, first_missing) tails
      ]

  missing_of-AllPassed :
      (arguments : Json) (declared : Option (List PromptArgument))
      → AllPassed arguments declared
      → missing_of L run arguments declared ≡ none
  missing_of-AllPassed arguments none h = refl
  missing_of-AllPassed arguments (some list) h =
      first_missing-none arguments list (λ a i r. h list a refl i r)

  first_missing-some :
      (arguments : Json) (list : List PromptArgument) (a : PromptArgument)
      → Element a list
      → a.required ≡ some true
      → contains L a.name arguments ≡ false
      → (missing : Text) × (first_missing L run arguments list ≡ some missing)
  unfolding first_missing
  first_missing-some arguments [] a i r c = elim i [ ]
  first_missing-some arguments (_ ∷ rest) a first r c = (a.name, rw (r, first_missing, c) refl)
  first_missing-some arguments (b ∷ rest) a (later i) r c =
      elim (Bool-cases (is_required b.required && not (contains L b.name arguments))) [
        | inl e ↦ (b.name, rw (e, first_missing) refl)
        | inr e ↦ rw (e, first_missing) (first_missing-some arguments rest a i r c)
      ]

  in_list :
      (arguments : Json) (b : PromptArgument) (rest : List PromptArgument)
      → (b.required ≡ some true → contains L b.name arguments ≡ true)
      → ((a : PromptArgument)
          → Element a rest
          → a.required ≡ some true
          → contains L a.name arguments ≡ true)
      → (a : PromptArgument) → Element a (b ∷ rest)
      → a.required ≡ some true
      → contains L a.name arguments ≡ true
  in_list arguments b rest own h _ first r = own r
  in_list arguments b rest own h a (later i) r = h a i r

  -- Either all that is required is passed, or something is missing.
  list_cases :
      (arguments : Json) (list : List PromptArgument)
      → ((a : PromptArgument)
          → Element a list
          → a.required ≡ some true
          → contains L a.name arguments ≡ true)
        ⊎ ((a : PromptArgument) × Element a list
            × (a.required ≡ some true)
            × (contains L a.name arguments ≡ false))
  list_cases arguments [] = inl (λ a i. elim i [ ])
  list_cases arguments (b ∷ rest) = elim (list_cases arguments rest) [
    | inr (a, i, r, c) ↦ inr (a, later i, r, c)
    | inl h ↦ elim (Bool-cases (is_required b.required)) [
      | inr q ↦ inl (in_list arguments b rest (λ r. absurd (let t = rw r at q in cc)) h)
      | inl q ↦ elim (Bool-cases (contains L b.name arguments)) [
        | inl c ↦ inl (in_list arguments b rest (λ r. c) h)
        | inr c ↦ inr (b, first, required_some b.required q, c)
      ]
    ]
  ]

  declared_cases :
      (arguments : Json) (declared : Option (List PromptArgument))
      → AllPassed arguments declared
        ⊎ ((list : List PromptArgument) × (a : PromptArgument) × (declared ≡ some list)
            × Element a list
            × (a.required ≡ some true)
            × (contains L a.name arguments ≡ false))
  declared_cases arguments none = inl (λ list a e. absurd (cc))
  declared_cases arguments (some list) = elim (list_cases arguments list) [
    | inl h ↦ inl (λ other a e i. let same : list ≡ other = cc in h a (rw (sym same) at i))
    | inr (a, i, r, c) ↦ inr (list, a, refl, i, r, c)
  ]

  prompt_result-Follows : (o : PromptOutcome Json R) → Follows o (prompt_result L run o)
  prompt_result-Follows (returned r) = refl
  prompt_result-Follows (threw_error e) = refl
  prompt_result-Follows (threw_other what) = refl

  -- How a registered prompt is answered: its handler runs, or a required argument is missing.
  pub data Answered {I : Type 0} (entry : Prompt I × H) (arguments : Json) (result : Result Json R)
      : Type 0 where
    ran :
        AllPassed arguments entry.0.arguments
        → Follows (run entry.1 arguments) result
        → Answered entry arguments result
    lacks :
        (list : List PromptArgument) (a : PromptArgument) (m : Text)
        → entry.0.arguments ≡ some list
        → Element a list
        → a.required ≡ some true
        → contains L a.name arguments ≡ false
        → result ≡ err (fail_with invalid_params m)
        → Answered entry arguments result

  -- A registered prompt answers in one of two ways: every required argument is passed, the handler
  -- runs on the arguments, and what it returns or throws is the result; or a required argument is
  -- missing, and the prompt is refused as invalid, whatever its handler.
  pub get_prompt-Answered :
      {I F C : Type 0} (p : PromptProvider I H F C) (name : Text) (entry : Prompt I × H)
      (arguments : Json)
      → find_named prompt_name name p.prompts ≡ some entry
      → Answered entry arguments (get_prompt L run p name arguments)
  unfolding get_prompt
  get_prompt-Answered p name entry arguments found =
      elim (declared_cases arguments entry.0.arguments) [
        | inl h ↦ ran h (
            rw (found, get_prompt, missing_of-AllPassed arguments entry.0.arguments h)
              (prompt_result-Follows (run entry.1 arguments)))
        | inr (list, a, l, i, r, c) ↦
            let (missing, e) = first_missing-some arguments list a i r c in
            lacks list a
              (codes "prompt '"
                ++ name
                ++ codes "' is missing required argument '"
                ++ missing
                ++ codes "'")
              l i r c (rw (found, get_prompt, l, e) refl)
      ]
