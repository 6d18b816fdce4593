-- ===== src/Common/Decimal.antt =====
-- `std::to_string` of an unsigned number, and the value of a row of decimal digits.
use Prim.Native.Nat.{ℕ, zero, suc, ◌+◌, ◌-◌, ◌*◌, ◌/◌, ◌%◌, ◌^◌, ◌≤◌, ◌<◌}
use mathlib.Core.Path.{◌≡◌, refl, ap, ◌∙◌}
use mathlib.Core.Logic.{◌≢◌, inl, inr}
use mathlib.Core.Bool.{Bool, true, false, ◌&&◌, ◌||◌}
use mathlib.Core.List.{[], ◌∷◌}
use native.Mathlib.Omega.{arith}
use mcp_cpp.Common.Tests.{◌==◌, ltb, leb, if◌then◌else◌, Bool-cases}
use mcp_cpp.Common.Int.{ℤ, pos, negsuc}
use mcp_cpp.Common.Lists.{all}
use mcp_cpp.Common.Texts.{Text}

abbrev pub is_digit : ℕ → Bool
is_digit c = leb b'0' c && leb c b'9'

-- The digits of `n` in front of `acc`.
digits_onto : ℕ → ℕ → Text → Text
digits_onto zero n acc = acc
digits_onto (suc f) n acc =
    let rest = digits_onto f (n / 10) ((b'0' + n % 10) ∷ acc) in
    if ltb n 10 then (b'0' + n) ∷ acc else rest

-- `n + 1` rounds are enough, since each divides by ten.
unfoldable pub to_text : ℕ → Text
unfolding digits_onto
to_text n = digits_onto (suc n) n []

-- The number that the digits denote, read on from `v`.
unfoldable pub value_from : ℕ → Text → ℕ
value_from v [] = v
value_from v (c ∷ cs) = value_from (v * 10 + (c - b'0')) cs

value-digits_onto :
    (f n : ℕ) (acc : Text) → n < f → value_from 0 (digits_onto f n acc) ≡ value_from n acc
unfolding digits_onto value_from
value-digits_onto zero n acc h = absurd (omega arith)
value-digits_onto (suc f) n acc h = elim (Bool-cases (ltb n 10)) [
  | inl small ↦ rw small (value_arg (0 * 10 + (b'0' + n - b'0')) n acc (omega arith))
  | inr big ↦ rw big (
      value-digits_onto f (n / 10) ((b'0' + n % 10) ∷ acc) (ground arith)
      ∙ value_arg (n / 10 * 10 + (b'0' + n % 10 - b'0')) n acc (omega arith))
]
  where
    value_arg : (v w : ℕ) (cs : Text) → v ≡ w → value_from v cs ≡ value_from w cs
    value_arg v w cs e = rw e

-- The digits of `n` denote `n`.
pub value-to_text : (n : ℕ) → value_from 0 (to_text n) ≡ n
unfolding to_text value_from
value-to_text n = value-digits_onto (suc n) n [] (omega arith)

all-digits_onto :
    (f n : ℕ) (acc : Text)
    → n < f
    → all is_digit acc ≡ true
    → all is_digit (digits_onto f n acc) ≡ true
unfolding digits_onto all
all-digits_onto zero n acc h a = a
all-digits_onto (suc f) n acc h a = elim (Bool-cases (ltb n 10)) [
  | inl small ↦ ground arith
  | inr big ↦
      rw big (all-digits_onto f (n / 10) ((b'0' + n % 10) ∷ acc) (ground arith) (ground arith))
]

pub all-is_digit-to_text : (n : ℕ) → all is_digit (to_text n) ≡ true
unfolding to_text all
all-is_digit-to_text n = all-digits_onto (suc n) n [] (omega arith) refl

digits_onto-ne : (f n c : ℕ) (cs : Text) → digits_onto f n (c ∷ cs) ≢ []
unfolding digits_onto
digits_onto-ne zero n c cs h = cc
digits_onto-ne (suc f) n c cs h = ground (arith, digits_onto-ne f (n / 10) (b'0' + n % 10) (c ∷ cs))

pub to_text-ne-nil : (n : ℕ) → to_text n ≢ []
unfolding to_text digits_onto
to_text-ne-nil n h = ground (arith, digits_onto-ne n (n / 10) (b'0' + n % 10) [])

-- Reading on never makes the number smaller.
pub value_from-ge : (v : ℕ) (cs : Text) → v ≤ value_from v cs
unfolding value_from
value_from-ge v [] = omega arith
value_from-ge v (c ∷ cs) = omega (arith, value_from-ge (v * 10 + (c - b'0')) cs)

-- `std::to_string` of an `int`.
unfoldable pub int_to_text : ℤ → Text
int_to_text (pos n) = to_text n
int_to_text (negsuc n) = b'-' ∷ to_text (suc n)

leading_digits : Text → Text
leading_digits [] = []
leading_digits (c ∷ cs) = if is_digit c then c ∷ leading_digits cs else []

leading_digits-all : (t : Text) → all is_digit t ≡ true → leading_digits t ≡ t
unfolding leading_digits all
leading_digits-all [] h = refl
leading_digits-all (c ∷ cs) h = ground (arith, leading_digits-all cs)

abbrev pub int_bound : ℕ
int_bound = 2 ^ 31

is_space : ℕ → Bool
is_space c = c == b' ' || leb 9 c && leb c 13

-- `std::atoi`. Where the number does not fit into an `int` the C standard leaves the result open:
-- it is `beyond` of the text.
module _ (beyond : Text → ℤ) where
  signed_value : Bool → Text → ℤ
  signed_value false ds = let v = value_from 0 ds in if ltb v int_bound then pos v else beyond ds
  signed_value true ds =
      let v = value_from 0 ds in
      if v == 0 then pos 0 else if leb v int_bound then negsuc (v - 1) else beyond (b'-' ∷ ds)

  unfoldable pub atoi : Text → ℤ
  unfolding signed_value leading_digits value_from is_space
  atoi [] = pos 0
  atoi (c ∷ cs) =
      let rest = atoi cs in
      if is_space c
      then rest
      else if c == b'-'
      then signed_value true (leading_digits cs)
      else if c == b'+'
      then signed_value false (leading_digits cs)
      else signed_value false (leading_digits (c ∷ cs))

  atoi-digits :
      (t : Text)
      → t ≢ []
      → all is_digit t ≡ true
      → value_from 0 t < int_bound
      → atoi t ≡ pos (value_from 0 t)
  unfolding atoi all
  atoi-digits [] ne h k = absurd (ne refl)
  atoi-digits (c ∷ cs) ne h k = ground (arith, leading_digits-all (c ∷ cs) h)

  -- A number that an `int` holds is read back from its digits.
  pub atoi-to_text : (n : ℕ) → n < int_bound → atoi (to_text n) ≡ pos n
  atoi-to_text n h =
      atoi-digits (to_text n) (to_text-ne-nil n) (all-is_digit-to_text n)
        (omega (arith, value-to_text n))
      ∙ ap pos (value-to_text n)
