-- ===== src/Http/Channel/Ring.antt =====
-- src/transport/http/sse_channel.cpp: the ids of the events in the ring.
use mcp_cpp.Common.{
  ℕ, suc, ◌+◌, ◌≤◌, false, List, [], ◌∷◌, ◌++◌, length, ltb, retain, ◌≡◌, refl, arith, Bool-cases,
  inl, inr,
}
use mcp_cpp.Http.Channel.{Item, trim, has_next, pending_items}

-- The ids are consecutive, from the first one up to `next`.
abbrev pub Numbered : ℕ → List Item → ℕ → Type 0
Numbered first [] next = first ≡ next
Numbered first (x ∷ xs) next = (x.id ≡ first) × Numbered (suc first) xs next

pub Numbered-append :
    (first : ℕ) (xs : List Item) (next : ℕ) (x : Item)
    → Numbered first xs next
    → x.id ≡ next
    → Numbered first (xs ++ x ∷ []) (next + 1)
Numbered-append first [] next x h e = (omega arith, omega arith)
Numbered-append first (y ∷ xs) next x h e = (h.0, Numbered-append (suc first) xs next x h.1 e)

-- What is left in the ring is numbered too, from some id on.
pub Numbered-trim :
    (size first : ℕ) (xs : List Item) (next : ℕ)
    → Numbered first xs next
    → (first' : ℕ) × Numbered first' (trim size xs) next
unfolding trim
Numbered-trim size first [] next h = (first, h)
Numbered-trim size first (x ∷ xs) next h = elim (Bool-cases (ltb size (length (x ∷ xs)))) [
  | inl e ↦ rw (e, trim) (Numbered-trim size (suc first) xs next h.1)
  | inr e ↦ rw (e, trim) (first, h)
]

pub length-trim-le : (size : ℕ) (xs : List Item) → length (trim size xs) ≤ size
unfolding trim
length-trim-le size [] = omega arith
length-trim-le size (x ∷ xs) = ground (arith, length-trim-le size xs)

-- From a cursor that no id is below, everything is pending.
pub pending_items-all :
    (cursor first : ℕ) (xs : List Item) (next : ℕ)
    → Numbered first xs next
    → cursor ≤ first
    → pending_items cursor xs ≡ xs
unfolding pending_items retain
pending_items-all cursor first [] next h l = refl
pending_items-all cursor first (x ∷ xs) next h l =
    let rest = pending_items-all cursor (suc first) xs next h.1 (omega arith) in
    ground (arith, rest, h.0)

-- Trimming drops nothing that is pending, if what is pending fits into the ring.
pub pending_items-trim :
    (size cursor first : ℕ) (xs : List Item) (next : ℕ)
    → Numbered first xs next
    → length (pending_items cursor xs) ≤ size
    → pending_items cursor (trim size xs) ≡ pending_items cursor xs
unfolding trim pending_items retain
pending_items-trim size cursor first [] next h l = refl
pending_items-trim size cursor first (x ∷ xs) next h l = ground (
  arith,
  pending_items-trim size cursor (suc first) xs next h.1,
  pending_items-all cursor (suc first) xs next h.1,
  h.0,
)

pub pending_items-append :
    (cursor : ℕ) (xs : List Item) (x : Item)
    → cursor ≤ x.id
    → pending_items cursor (xs ++ x ∷ []) ≡ pending_items cursor xs ++ x ∷ []
unfolding pending_items retain
pending_items-append cursor [] x l = ground arith
pending_items-append cursor (y ∷ xs) x l = ground (arith, pending_items-append cursor xs x l)

-- With nothing from the cursor on, nothing is pending.
pub pending_items-none :
    (cursor first : ℕ) (xs : List Item) (next : ℕ)
    → Numbered first xs next
    → has_next cursor xs ≡ false
    → pending_items cursor xs ≡ []
unfolding pending_items retain has_next
pending_items-none cursor first [] next h n = refl
pending_items-none cursor first (x ∷ []) next h n = ground arith
pending_items-none cursor first (x ∷ y ∷ xs) next h n =
    ground (arith, pending_items-none cursor (suc first) (y ∷ xs) next h.1 n, h.0, h.1.0)
