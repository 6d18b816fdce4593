-- ===== src/Common/Dict.antt =====
-- `std::map` and `std::unordered_map` as association lists with at most one entry to a key.
use mathlib.Core.Path.{◌≡◌, refl, sym}
use mathlib.Core.Logic.{◌↔◌, inl, inr}
use mathlib.Core.Bool.{Bool, true}
use mathlib.Core.List.{List, [], ◌∷◌}
use mathlib.Core.Option.{Option, none, some}
use native.Mathlib.Omega.{arith}
use Prim.Native.Nat.{ℕ, ◌+◌}
use mcp_cpp.Common.Tests.{Bool-cases, if◌then◌else◌}
use mcp_cpp.Common.Texts.{Text, text_eq, text_eq_iff}

-- Keys are compared by a test that decides equality.
pub record Eq {ℓ} (K : Type ℓ) : Type ℓ where
  pub beq : K → K → Bool
  pub beq_iff : (a b : K) → (beq a b ≡ true) ↔ (a ≡ b)

abbrev pub Dict {ℓ κ} : Type ℓ → Type κ → Type (ℓ ⊔ κ)
Dict K V = List (K × V)

module _ {ℓ κ} {K : Type ℓ} ⦃e : Eq K⦄ {V : Type κ} where
  unfoldable pub lookup : K → Dict K V → Option V
  lookup k [] = none
  lookup k ((j, v) ∷ m) = if e.beq j k then some v else lookup k m

  -- `m[k] = v`
  unfoldable pub insert : K → V → Dict K V → Dict K V
  insert k v [] = (k, v) ∷ []
  insert k v ((j, w) ∷ m) = if e.beq j k then (k, v) ∷ m else (j, w) ∷ insert k v m

  unfoldable pub erase : K → Dict K V → Dict K V
  erase k [] = []
  erase k ((j, w) ∷ m) = let rest = erase k m in if e.beq j k then rest else (j, w) ∷ rest

  pub lookup-insert :
      (k j : K) (v : V) (m : Dict K V)
      → lookup j (insert k v m) ≡ (if e.beq k j then some v else lookup j m)
  unfolding lookup insert
  lookup-insert k j v [] = refl
  lookup-insert k j v ((i, w) ∷ m) =
      ground (arith, e.beq_iff k j, e.beq_iff i k, e.beq_iff i j, lookup-insert k j v m)

  pub lookup-erase :
      (k j : K) (m : Dict K V) → lookup j (erase k m) ≡ (if e.beq k j then none else lookup j m)
  unfolding lookup erase
  lookup-erase k j [] = ground arith
  lookup-erase k j ((i, w) ∷ m) =
      ground (arith, e.beq_iff k j, e.beq_iff i k, e.beq_iff i j, lookup-erase k j m)

-- `std::string` keys.
instance abbrev pub text_key : Eq Text
text_key = record { beq = text_eq; beq_iff = text_eq_iff }

module _ {ℓ} {K : Type ℓ} ⦃e : Eq K⦄ {V : Type 0} where
  -- Every key has one entry at most.
  abbrev pub IsTable : Dict K V → Type 0
  IsTable [] = Unit
  IsTable ((k, v) ∷ m) = (lookup k m ≡ none) × IsTable m

  pub insert-IsTable : (k : K) (v : V) (m : Dict K V) → IsTable m → IsTable (insert k v m)
  unfolding insert lookup
  insert-IsTable k v [] h = (refl, tt)
  insert-IsTable k v ((j, w) ∷ m) h = elim (Bool-cases (e.beq j k)) [
    | inl b ↦ let same : j ≡ k = (e.beq_iff j k).0 b in rw b (rw (sym same) h.0, h.1)
    | inr b ↦ rw b (
      ground (arith, lookup-insert k j v m, e.beq_iff j k, e.beq_iff k j, h.0),
      insert-IsTable k v m h.1,
    )
  ]

  pub erase-IsTable : (k : K) (m : Dict K V) → IsTable m → IsTable (erase k m)
  unfolding erase
  erase-IsTable k [] h = tt
  erase-IsTable k ((j, w) ∷ m) h = elim (Bool-cases (e.beq j k)) [
    | inl b ↦ rw b (erase-IsTable k m h.1)
    | inr b ↦ rw b (ground (arith, lookup-erase k j m, h.0), erase-IsTable k m h.1)
  ]

  -- The sum of a number over all values.
  unfoldable pub total : (V → ℕ) → Dict K V → ℕ
  total f [] = 0
  total f ((k, v) ∷ m) = f v + total f m

  pub total-insert_new :
      (f : V → ℕ) (k : K) (v : V) (m : Dict K V)
      → lookup k m ≡ none
      → total f (insert k v m) ≡ f v + total f m
  unfolding total insert lookup
  total-insert_new f k v [] h = refl
  total-insert_new f k v ((j, w) ∷ m) h = ground (arith, total-insert_new f k v m)

  pub total-insert :
      (f : V → ℕ) (k : K) (v w : V) (m : Dict K V)
      → lookup k m ≡ some w
      → total f (insert k v m) + f w ≡ f v + total f m
  unfolding total insert lookup
  total-insert f k v w [] h = absurd (cc)
  total-insert f k v w ((j, u) ∷ m) h = elim (Bool-cases (e.beq j k)) [
    | inl b ↦ let same : u ≡ w = ground arith in rw (b, same) (omega arith)
    | inr b ↦
        let later : lookup k m ≡ some w = ground arith in
        rw b (omega (arith, total-insert f k v w m later))
  ]

  pub total-erase_absent :
      (f : V → ℕ) (k : K) (m : Dict K V) → lookup k m ≡ none → total f (erase k m) ≡ total f m
  unfolding total erase lookup
  total-erase_absent f k [] h = refl
  total-erase_absent f k ((j, w) ∷ m) h = ground (arith, total-erase_absent f k m)

  pub total-erase :
      (f : V → ℕ) (k : K) (w : V) (m : Dict K V)
      → IsTable m
      → lookup k m ≡ some w
      → f w + total f (erase k m) ≡ total f m
  unfolding total erase lookup
  total-erase f k w [] h g = absurd (cc)
  total-erase f k w ((j, u) ∷ m) h g = elim (Bool-cases (e.beq j k)) [
    | inl b ↦
        let same : u ≡ w = ground arith in
        let key : j ≡ k = (e.beq_iff j k).0 b in
        let absent : lookup k m ≡ none = rw (sym key) h.0 in
        rw (b, same) (omega (arith, total-erase_absent f k m absent))
    | inr b ↦
        let later : lookup k m ≡ some w = ground arith in
        rw b (omega (arith, total-erase f k w m h.1 later))
  ]

  pub erase_absent : (k : K) (m : Dict K V) → lookup k m ≡ none → erase k m ≡ m
  unfolding lookup erase
  erase_absent k [] h = refl
  erase_absent k ((j, w) ∷ m) h = ground (arith, erase_absent k m)
