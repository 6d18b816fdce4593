-- ===== src/Common/Entries.antt =====
-- `std::find_if` and `erase` on a vector of entries that are told apart by a name.
use Prim.Native.Nat.{ℕ, ◌+◌, ◌≤◌}
use mathlib.Core.Path.{◌≡◌, refl, sym}
use mathlib.Core.Logic.{inl, inr}
use mathlib.Core.Bool.{false}
use mathlib.Core.List.{List, [], ◌∷◌, ◌++◌}
use mathlib.Core.Option.{Option, none, some}
use native.Mathlib.Omega.{arith}
use mcp_cpp.Common.Tests.{Bool-cases, if◌then◌else◌}
use mcp_cpp.Common.Texts.{Text, text_eq, text_eq_iff}

module _ {ℓ} {A : Type ℓ} (name : A → Text) where
  unfoldable pub find_named : Text → List A → Option A
  find_named n [] = none
  find_named n (x ∷ xs) = if text_eq (name x) n then some x else find_named n xs

  unfoldable pub erase_named : Text → List A → List A
  erase_named n [] = []
  erase_named n (x ∷ xs) = if text_eq (name x) n then xs else x ∷ erase_named n xs

  unfoldable pub count_named : Text → List A → ℕ
  count_named n [] = 0
  count_named n (x ∷ xs) = (if text_eq (name x) n then 1 else 0) + count_named n xs

  pub find_named-absent : (n : Text) (xs : List A) → count_named n xs ≡ 0 → find_named n xs ≡ none
  unfolding find_named count_named
  find_named-absent n [] h = refl
  find_named-absent n (x ∷ xs) h = ground (arith, find_named-absent n xs)

  pub count_named-absent : (n : Text) (xs : List A) → find_named n xs ≡ none → count_named n xs ≡ 0
  unfolding find_named count_named
  count_named-absent n [] h = omega arith
  count_named-absent n (x ∷ xs) h = ground (arith, count_named-absent n xs)

  pub find_named-append :
      (n : Text) (xs : List A) (x : A)
      → find_named n xs ≡ none
      → find_named n (xs ++ x ∷ []) ≡ (if text_eq (name x) n then some x else none)
  unfolding find_named
  find_named-append n [] x h = ground arith
  find_named-append n (y ∷ xs) x h = ground (arith, find_named-append n xs x)

  pub find_named-append_other :
      (n : Text) (xs : List A) (x : A)
      → text_eq (name x) n ≡ false
      → find_named n (xs ++ x ∷ []) ≡ find_named n xs
  unfolding find_named
  find_named-append_other n [] x h = ground arith
  find_named-append_other n (y ∷ xs) x h = ground (arith, find_named-append_other n xs x)

  pub count_named-append :
      (n : Text) (xs : List A) (x : A)
      → count_named n (xs ++ x ∷ []) ≡ (if text_eq (name x) n then 1 else 0) + count_named n xs
  unfolding count_named
  count_named-append n [] x = ground arith
  count_named-append n (y ∷ xs) x = ground (arith, count_named-append n xs x)

  -- An entry with a new name keeps the names apart.
  pub unique-append :
      (xs : List A) (x : A)
      → ((n : Text) → count_named n xs ≤ 1)
      → find_named (name x) xs ≡ none
      → (n : Text) → count_named n (xs ++ x ∷ []) ≤ 1
  unique-append xs x u h n = elim (Bool-cases (text_eq (name x) n)) [
    | inl e ↦
        let same : name x ≡ n = (text_eq_iff (name x) n).0 e in
        let fresh : count_named n xs ≡ 0 = count_named-absent n xs (rw (sym same) h) in
        ground (arith, count_named-append n xs x)
    | inr e ↦ ground (arith, count_named-append n xs x, u n)
  ]

  pub count_named-erase_named :
      (n m : Text) (xs : List A) → count_named n (erase_named m xs) ≤ count_named n xs
  unfolding count_named erase_named
  count_named-erase_named n m [] = omega arith
  count_named-erase_named n m (x ∷ xs) = ground (arith, count_named-erase_named n m xs)

  -- With one entry to a name at most, an erased name is gone.
  pub find_named-erase_named :
      (n : Text) (xs : List A) → count_named n xs ≤ 1 → find_named n (erase_named n xs) ≡ none
  unfolding find_named count_named erase_named
  find_named-erase_named n [] h = refl
  find_named-erase_named n (x ∷ xs) h =
      ground (arith, find_named-erase_named n xs, find_named-absent n xs)

  -- Other names keep their entry.
  pub find_named-erase_other :
      (n m : Text) (xs : List A)
      → text_eq m n ≡ false
      → find_named n (erase_named m xs) ≡ find_named n xs
  unfolding find_named erase_named
  find_named-erase_other n m [] h = refl
  find_named-erase_other n m (x ∷ xs) h = ground (
    arith,
    find_named-erase_other n m xs h,
    text_eq_iff (name x) n,
    text_eq_iff (name x) m,
    text_eq_iff m n,
  )
