-- ===== src/Common/Search.antt =====
-- The text in front of the first occurrence of a text, and the text behind it.
use mathlib.Core.Path.{◌≡◌}
use mathlib.Core.Logic.{inl, inr}
use mathlib.Core.Bool.{true, false}
use mathlib.Core.Option.{Option, none, some}
use mathlib.Core.List.{[], ◌∷◌, ◌++◌}
use Prim.Native.Nat.{ℕ}
use native.Mathlib.Omega.{arith}
use mcp_cpp.Common.Tests.{Option-cases}
use mcp_cpp.Common.Lists.{length, drop, drop-append}
use mcp_cpp.Common.Texts.{
  Text, strip_prefix, starts_with, strip_prefix-append, strip_prefix_sound, find_text, FirstAt,
  find_text_sound, find_text_complete, has_byte,
}

abbrev behind : Text → Option (Text × Text) → Option (Text × Text)
behind needle none = none
behind needle (some (before, from)) = some (before, drop (length needle) from)

-- `find(needle)`, then `substr(0, pos)` and `erase(0, pos + needle.size())`.
unfoldable pub cut_at : Text → Text → Option (Text × Text)
unfolding find_text
cut_at needle t = behind needle (find_text needle t)

FirstAt-starts :
    (needle before from : Text) → FirstAt needle before from → starts_with needle from ≡ true
FirstAt-starts needle [] from f = f
FirstAt-starts needle (x ∷ xs) from f = FirstAt-starts needle xs from f.1

starts_drop :
    (needle from : Text)
    → starts_with needle from ≡ true
    → from ≡ needle ++ drop (length needle) from
starts_drop needle from h = elim (Option-cases (strip_prefix needle from)) [
  | inl e ↦ absurd (ground arith)
  | inr (rest, e) ↦
      let split = strip_prefix_sound needle from rest e in
      ground (arith, split, drop-append needle rest)
]

pub cut_at_sound :
    (needle t : Text) {before rest : Text}
    → cut_at needle t ≡ some (before, rest)
    → t ≡ before ++ (needle ++ rest)
unfolding cut_at
cut_at_sound needle t {before} {rest} h = elim (Option-cases (find_text needle t)) [
  | inl e ↦ absurd (ground arith)
  | inr ((b, from), e) ↦
      let (split, first) = find_text_sound needle t {before = b} {behind = from} e in
      ground (arith, starts_drop needle from (FirstAt-starts needle b from first))
]

pub cut_at_complete :
    (needle before rest : Text)
    → FirstAt needle before (needle ++ rest)
    → cut_at needle (before ++ (needle ++ rest)) ≡ some (before, rest)
unfolding cut_at
cut_at_complete needle before rest f =
    ground (arith, find_text_complete needle before (needle ++ rest) f, drop-append needle rest)

-- A text that lacks the first byte of the needle does not overlap with it.
pub FirstAt-absent :
    (c : ℕ) (cs before rest : Text)
    → has_byte c before ≡ false
    → FirstAt (c ∷ cs) before ((c ∷ cs) ++ rest)
unfolding strip_prefix has_byte
FirstAt-absent c cs [] rest h = ground (arith, strip_prefix-append cs rest)
FirstAt-absent c cs (x ∷ xs) rest h = (ground arith, FirstAt-absent c cs xs rest (ground arith))
