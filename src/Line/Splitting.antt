-- ===== src/Line/Splitting.antt =====
-- src/transport/stdio_transport.cpp: the lines in a buffer, independently of the reads.
use mcp_cpp.Common.{
  ℕ, zero, suc, ◌≤◌, false, Option, none, some, List, [], ◌∷◌, ◌++◌, Text, length, ◌==◌,
  if◌then◌else◌, split_byte, has_byte, drop_cr, ◌≡◌, refl, ap, ◌∙◌, arith, Bool-cases, Option-cases,
  inl, inr, split_byte_sound, split_byte-append, map, length-append, cons_fst,
}
use mcp_cpp.Line.{take_lines, drain}
use mathlib.Core.Option

-- A byte in front of lines and a remainder.
abbrev pub onto : ℕ → List Text × Text → List Text × Text
onto c ([], rest) = ([], c ∷ rest)
onto c (l ∷ ls, rest) = ((c ∷ l) ∷ ls, rest)

-- The lines of a text that are ended by a newline, and what follows the last.
unfoldable pub split_lines : Text → List Text × Text
split_lines [] = ([], [])
split_lines (c ∷ cs) =
    let rest = split_lines cs in if c == b'\n' then ([] ∷ rest.0, rest.1) else onto c rest

abbrev pub after_lines : List Text → List Text × Text → List Text × Text
after_lines ls s = (ls ++ s.0, s.1)

onto-after :
    (c : ℕ) (ys : Text) (d : List Text × Text)
    → (c == b'\n') ≡ false
    → onto c (after_lines d.0 (split_lines (d.1 ++ ys)))
      ≡ after_lines (onto c d).0 (split_lines ((onto c d).1 ++ ys))
unfolding split_lines
onto-after c ys ([], rest) e = rw e refl
onto-after c ys (l ∷ ls, rest) e = refl

-- More bytes only add to the lines.
pub split_lines-append :
    (xs ys : Text)
    → split_lines (xs ++ ys)
      ≡ after_lines (split_lines xs).0 (split_lines ((split_lines xs).1 ++ ys))
unfolding split_lines
split_lines-append [] ys = refl
split_lines-append (c ∷ xs) ys = elim (Bool-cases (c == b'\n')) [
  | inl e ↦ rw (e, split_lines-append xs ys) refl
  | inr e ↦ rw (e, split_lines-append xs ys) (onto-after c ys (split_lines xs) e)
]

abbrev from_byte : Option (Text × Text) → Text → List Text × Text
from_byte none b = ([], b)
from_byte (some p) b = (p.0 ∷ (split_lines p.1).0, (split_lines p.1).1)

onto-from_byte :
    (c : ℕ) (o : Option (Text × Text)) (cs : Text)
    → onto c (from_byte o cs) ≡ from_byte (Option.map (cons_fst c) o) (c ∷ cs)
onto-from_byte c none cs = refl
onto-from_byte c (some p) cs = refl

split_lines-split_byte : (b : Text) → split_lines b ≡ from_byte (split_byte b'\n' b) b
unfolding split_lines split_byte
split_lines-split_byte [] = refl
split_lines-split_byte (c ∷ cs) = elim (Bool-cases (c == b'\n')) [
  | inl e ↦ rw e refl
  | inr e ↦ rw (e, split_lines-split_byte cs) (onto-from_byte c (split_byte b'\n' cs) cs)
]

-- As many rounds as there are bytes are enough.
take_lines-split_lines :
    (fuel : ℕ) (b : Text)
    → length b ≤ fuel
    → take_lines fuel b ≡ (map drop_cr (split_lines b).0, (split_lines b).1)
unfolding take_lines split_lines
take_lines-split_lines zero [] h = refl
take_lines-split_lines zero (c ∷ b) h = absurd (omega arith)
take_lines-split_lines (suc fuel) b h = elim (Option-cases (split_byte b'\n' b)) [
  | inl e ↦ rw (split_lines-split_byte b, e, take_lines) refl
  | inr ((l, rest), e) ↦
      let shape = split_byte_sound b'\n' b {ys = l} {zs = rest} e in
      let shorter : length rest ≤ fuel =
        omega (arith, ap length shape, length-append l (b'\n' ∷ rest)) in
      rw (split_lines-split_byte b, e, take_lines, take_lines-split_lines fuel rest shorter) refl
]

pub drain-split_lines : (b : Text) → drain b ≡ (map drop_cr (split_lines b).0, (split_lines b).1)
unfolding drain
drain-split_lines b = take_lines-split_lines (length b) b (omega arith)

-- The remainder has no line.
pub split_lines-remainder : (b : Text) → split_lines (split_lines b).1 ≡ ([], (split_lines b).1)
unfolding split_lines
split_lines-remainder [] = refl
split_lines-remainder (c ∷ cs) = elim (Bool-cases (c == b'\n')) [
  | inl e ↦ rw e (split_lines-remainder cs)
  | inr e ↦ rw e (onto-remainder (split_lines cs) (split_lines-remainder cs) e)
]
  where
    onto-remainder :
        (d : List Text × Text)
        → split_lines d.1 ≡ ([], d.1)
        → (c == b'\n') ≡ false
        → split_lines (onto c d).1 ≡ ([], (onto c d).1)
    onto-remainder ([], rest) h e = rw (e, h) refl
    onto-remainder (l ∷ ls, rest) h e = h

-- A line without line ends is the first of the lines.
pub split_lines-line :
    (l rest : Text)
    → has_byte b'\n' l ≡ false
    → split_lines (l ++ b'\n' ∷ rest) ≡ (l ∷ (split_lines rest).0, (split_lines rest).1)
split_lines-line l rest h =
    split_lines-split_byte (l ++ b'\n' ∷ rest) ∙ rw (split_byte-append b'\n' l rest h) refl
