-- ===== src/Common/Texts.antt =====
-- `std::string` as the list of its bytes: literals, comparison, prefixes, search.
use Prim.Native.Char.{code}
use Prim.Native.String.{String}
use Prim.Native.Nat.{ℕ, suc}
use mathlib.Core.Path.{◌≡◌, refl}
use mathlib.Core.Logic.{◌↔◌, inl, inr}
use mathlib.Core.Bool.{Bool, true, false, ◌&&◌}
use mathlib.Core.List.{List, [], ◌∷◌, ◌++◌, append_assoc}
use mathlib.Core.Option
use mathlib.Core.Option.{Option, none, some}
use native.Mathlib.Omega.{arith}
use mcp_cpp.Common.Tests.{◌==◌, if◌then◌else◌, Bool-cases, Option-cases}

abbrev pub Text : Type 0
Text = List ℕ

-- The code points of a literal: its bytes, since every literal is ASCII.
abbrev pub codes : String → Text
codes String.[] = []
codes (String.◌∷◌ c s) = code c ∷ codes s

unfoldable pub text_eq : Text → Text → Bool
text_eq [] [] = true
text_eq (x ∷ xs) (y ∷ ys) = x == y && text_eq xs ys
text_eq _ _ = false

pub text_eq_iff : (a b : Text) → (text_eq a b ≡ true) ↔ (a ≡ b)
unfolding text_eq
text_eq_iff (x ∷ a) (y ∷ b) = ground (arith, text_eq_iff a b)
text_eq_iff _ _ = ground arith

pub text_eq_refl : (a : Text) → text_eq a a ≡ true
text_eq_refl a = (text_eq_iff a a).1 refl

-- `text.compare(0, prefix.size(), prefix) == 0`: what is left behind the prefix.
unfoldable pub strip_prefix : Text → Text → Option Text
strip_prefix [] ys = some ys
strip_prefix (x ∷ xs) [] = none
strip_prefix (x ∷ xs) (y ∷ ys) = if x == y then strip_prefix xs ys else none

abbrev pub starts_with : Text → Text → Bool
starts_with pre ys = elim (strip_prefix pre ys) [ none ↦ false | some _ ↦ true ]

pub strip_prefix-append : (xs ys : Text) → strip_prefix xs (xs ++ ys) ≡ some ys
unfolding strip_prefix
strip_prefix-append [] ys = refl
strip_prefix-append (x ∷ xs) ys = ground (arith, strip_prefix-append xs ys)

pub strip_prefix_sound : (xs ys zs : Text) → strip_prefix xs ys ≡ some zs → ys ≡ xs ++ zs
unfolding strip_prefix
strip_prefix_sound [] ys zs h = ground arith
strip_prefix_sound (x ∷ xs) [] zs h = cc
strip_prefix_sound (x ∷ xs) (y ∷ ys) zs h = ground (arith, strip_prefix_sound xs ys zs)

abbrev pub cons_fst : ℕ → Text × Text → Text × Text
cons_fst x p = (x ∷ p.0, p.1)

-- `text.find(needle)`, as the text in front of the first occurrence and the text from there on.
unfoldable pub find_text : Text → Text → Option (Text × Text)
unfolding strip_prefix
find_text needle [] = if starts_with needle [] then some ([], []) else none
find_text needle (y ∷ ys) =
    let later = Option.map (cons_fst y) (find_text needle ys) in
    if starts_with needle (y ∷ ys) then some ([], y ∷ ys) else later

-- `text.find(c)` for one byte: the text in front of it and the text behind it.
unfoldable pub split_byte : ℕ → Text → Option (Text × Text)
split_byte c [] = none
split_byte c (y ∷ ys) =
    let later = Option.map (cons_fst y) (split_byte c ys) in if y == c then some ([], ys) else later

unfoldable pub has_byte : ℕ → Text → Bool
has_byte c [] = false
has_byte c (y ∷ ys) = if y == c then true else has_byte c ys

pub split_byte-append :
    (c : ℕ) (xs ys : Text) → has_byte c xs ≡ false → split_byte c (xs ++ c ∷ ys) ≡ some (xs, ys)
unfolding split_byte has_byte
split_byte-append c [] ys h = ground arith
split_byte-append c (x ∷ xs) ys h = ground (arith, split_byte-append c xs ys)

pub split_byte_absent : (c : ℕ) (xs : Text) → has_byte c xs ≡ false → split_byte c xs ≡ none
unfolding split_byte has_byte
split_byte_absent c [] h = refl
split_byte_absent c (x ∷ xs) h = ground (arith, split_byte_absent c xs)

pub split_byte_sound :
    (c : ℕ) (xs : Text) {ys zs : Text} → split_byte c xs ≡ some (ys, zs) → xs ≡ ys ++ c ∷ zs
unfolding split_byte
split_byte_sound c [] h = cc
split_byte_sound c (x ∷ xs) {ys} {zs} h = elim (Bool-cases (x == c)) [
  | inl e ↦ ground arith
  | inr n ↦ elim (Option-cases (split_byte c xs)) [
    | inl e ↦ ground arith
    | inr ((vs, ws), e) ↦ ground (arith, split_byte_sound c xs {ys = vs} {zs = ws} e)
  ]
]

-- The first occurrence of a text in `before ++ behind` is at `behind`.
abbrev pub FirstAt : Text → Text → Text → Type 0
FirstAt needle [] behind = starts_with needle behind ≡ true
FirstAt needle (x ∷ xs) behind =
    (starts_with needle (x ∷ (xs ++ behind)) ≡ false) × FirstAt needle xs behind

pub find_text_complete :
    (needle before behind : Text)
    → FirstAt needle before behind
    → find_text needle (before ++ behind) ≡ some (before, behind)
unfolding find_text
find_text_complete needle [] [] h = ground arith
find_text_complete needle [] (y ∷ ys) h = ground arith
find_text_complete needle (x ∷ xs) behind h =
    ground (arith, find_text_complete needle xs behind h.1)

pub find_text_sound :
    (needle xs : Text) {before behind : Text}
    → find_text needle xs ≡ some (before, behind)
    → (xs ≡ before ++ behind) × FirstAt needle before behind
unfolding find_text
find_text_sound needle [] {before = []} {behind} h = ground arith
find_text_sound needle [] {before = b ∷ bs} {behind} h = ground arith
find_text_sound needle (x ∷ xs) {before = []} {behind} h =
    elim (Option-cases (find_text needle xs)) [ inl e ↦ ground arith | inr (r, e) ↦ ground arith ]
find_text_sound needle (x ∷ xs) {before = b ∷ bs} {behind} h =
    elim (Option-cases (find_text needle xs)) [
      | inl e ↦ ground arith
      | inr ((vs, ws), e) ↦ ground (arith, find_text_sound needle xs {before = vs} {behind = ws} e)
    ]

pub has_byte-append :
    (c : ℕ) (xs ys : Text)
    → has_byte c xs ≡ false
    → has_byte c ys ≡ false
    → has_byte c (xs ++ ys) ≡ false
unfolding has_byte
has_byte-append c [] ys h k = k
has_byte-append c (x ∷ xs) ys h k = ground (arith, has_byte-append c xs ys)

pub has_byte-append_left :
    (c : ℕ) (xs ys : Text) → has_byte c (xs ++ ys) ≡ false → has_byte c xs ≡ false
unfolding has_byte
has_byte-append_left c [] ys h = refl
has_byte-append_left c (x ∷ xs) ys h = ground (arith, has_byte-append_left c xs ys)

pub has_byte-append_right :
    (c : ℕ) (xs ys : Text) → has_byte c (xs ++ ys) ≡ false → has_byte c ys ≡ false
unfolding has_byte
has_byte-append_right c [] ys h = h
has_byte-append_right c (x ∷ xs) ys h = ground (arith, has_byte-append_right c xs ys)

pub append_snoc : (xs : Text) (c : ℕ) (ys : Text) → (xs ++ c ∷ []) ++ ys ≡ xs ++ c ∷ ys
append_snoc xs c ys = append_assoc xs (c ∷ []) ys

-- A line without the `\r` at its end.
unfoldable pub drop_cr : Text → Text
drop_cr [] = []
drop_cr (c ∷ []) = if c == b'\r' then [] else c ∷ []
drop_cr (c ∷ d ∷ ds) = c ∷ drop_cr (d ∷ ds)

-- Where a byte stands in a row of bytes.
unfoldable pub place_of : ℕ → Text → Option ℕ
place_of c [] = none
place_of c (d ∷ ds) =
    if c == d then some 0 else elim (place_of c ds) [ none ↦ none | some n ↦ some (suc n) ]
