-- ===== src/UriTemplate/Tokens.antt =====
-- `tokenize` and the text of the template.
use Prim.Native.Nat.add
use mathlib.Core.Option.{some-injective}
use mcp_cpp.Common.{
  ℕ, zero, suc, ◌+◌, ◌≤◌, Bool, true, false, Option, none, some, List, [], ◌∷◌, ◌++◌, Text, length,
  ◌==◌, split_byte, split_byte_sound, split_byte-append, has_byte, Bool-cases, Option-cases, ==_iff,
  ◌≢◌, ◌≡◌, refl, sym, ap, ◌-◌, ◌∙◌, arith, inl, inr, append_assoc, append-nil, length-append,
}
use mcp_cpp.UriTemplate.{Segment, literal, variable, flush, close_variable, tokenize_from, tokenize}

-- The template that the segments spell.
unfoldable pub render : List Segment → Text
render [] = []
render (literal t ∷ rest) = t ++ render rest
render (variable name ∷ rest) = b'{' ∷ (name ++ b'}' ∷ render rest)

render-flush :
    (current : Text) (rest : List Segment) → render (flush current rest) ≡ current ++ render rest
unfolding render
render-flush [] rest = refl
render-flush (c ∷ cs) rest = refl

-- What a closed expression leaves: its name, the text behind it, and the segments of that text.
close_variable-eq-some :
    (current : Text) (found : Option (Text × Text)) (go_on : Text → Option (List Segment))
    {segs : List Segment}
    → close_variable current found go_on ≡ some segs
    → (n : ℕ) × (ns : Text) × (rest : Text) × (tail : List Segment) × (found ≡ some (n ∷ ns, rest))
      × (go_on rest ≡ some tail)
      × (segs ≡ flush current (variable (n ∷ ns) ∷ tail))
close_variable-eq-some current none go_on h = cc
close_variable-eq-some current (some ([], rest)) go_on h = cc
close_variable-eq-some current (some (n ∷ ns, rest)) go_on h = elim (Option-cases (go_on rest)) [
  | inl e ↦ ground arith
  | inr (tail, e) ↦ (n, ns, rest, tail, refl, e, ground arith)
]

render-closed :
    (current ns rest cs : Text) (n c : ℕ) (tail : List Segment)
    → (c == b'{') ≡ true
    → cs ≡ (n ∷ ns) ++ b'}' ∷ rest
    → render tail ≡ rest
    → render (flush current (variable (n ∷ ns) ∷ tail)) ≡ current ++ c ∷ cs
unfolding render
render-closed current ns rest cs n c tail brace e back =
    rw (render-flush, e, (==_iff c b'{').0 brace, render, back)

render-tokenize_from :
    (fuel : ℕ) (current t : Text) {segs : List Segment}
    → tokenize_from fuel current t ≡ some segs
    → render segs ≡ current ++ t
unfolding tokenize_from
render-tokenize_from fuel current [] {segs} h =
    ap render (some-injective _ _ (sym h)) ∙ render-flush current [] ∙ unfold render in refl
render-tokenize_from zero current (c ∷ cs) h = cc
render-tokenize_from (suc fuel) current (c ∷ cs) {segs} h = elim (Bool-cases (c == b'{')) [
  | inl brace ↦
      let (n, ns, rest, tail, found, later, e) =
        close_variable-eq-some current (split_byte b'}' cs) (λ r. tokenize_from fuel [] r)
          {segs = segs} (ground arith) in
      ap render e
      ∙ render-closed current ns rest cs n c tail brace (split_byte_sound b'}' cs found)
          (render-tokenize_from fuel [] rest later)
  | inr plain ↦
      render-tokenize_from fuel (current ++ c ∷ []) cs (ground arith)
      ∙ append_assoc current (c ∷ []) cs
]

-- The segments of an accepted template spell the template: nothing is lost, reordered or made up.
pub render-tokenize : (t : Text) {segs : List Segment} → tokenize t ≡ some segs → render segs ≡ t
unfolding tokenize
render-tokenize t h = render-tokenize_from (length t) [] t h

-- The segment lists that templates spell: no empty literal or name, no `{` in a literal and no
-- `}` in a name, and no two literals in a row.
abbrev pub IsSegments : Bool → List Segment → Type 0
IsSegments after_literal [] = Unit {0}
IsSegments after_literal (literal t ∷ rest) =
    (after_literal ≡ false) × (t ≢ []) × (has_byte b'{' t ≡ false) × IsSegments true rest
IsSegments after_literal (variable name ∷ rest) =
    (name ≢ []) × (has_byte b'}' name ≡ false) × IsSegments false rest

-- A literal is read up to the next `{` or the end.
tokenize-literal :
    (fuel : ℕ) (current t rest : Text)
    → has_byte b'{' t ≡ false
    → tokenize_from (length t + fuel) current (t ++ rest) ≡ tokenize_from fuel (current ++ t) rest
unfolding tokenize_from has_byte
tokenize-literal fuel current [] rest h = rw (append-nil, add.zero)
tokenize-literal fuel current (c ∷ cs) rest h =
    rw (add.suc, tokenize_from)
      (ground (
        arith,
        tokenize-literal fuel (current ++ c ∷ []) cs rest (ground arith),
        append_assoc current (c ∷ []) cs,
      ))

flush-ne : (t : Text) (segs : List Segment) → t ≢ [] → flush t segs ≡ literal t ∷ segs
flush-ne [] segs h = absurd (h refl)
flush-ne (c ∷ cs) segs h = refl

tokenize_from-variable :
    (fuel : ℕ) (current name : Text) (segs : List Segment)
    → name ≢ []
    → has_byte b'}' name ≡ false
    → tokenize_from fuel [] (render segs) ≡ some segs
    → tokenize_from (suc fuel) current (render (variable name ∷ segs))
      ≡ some (flush current (variable name ∷ segs))
unfolding tokenize_from render
tokenize_from-variable fuel current [] segs ne h e = absurd (ne refl)
tokenize_from-variable fuel current (n ∷ ns) segs ne h e =
    ground (arith, split_byte-append b'}' (n ∷ ns) (render segs) h)

tokenize_from-render :
    (fuel : ℕ) (after_literal : Bool) (current : Text) (segs : List Segment)
    → (after_literal ≡ false → current ≡ [])
    → IsSegments after_literal segs
    → length (render segs) ≤ fuel
    → tokenize_from fuel current (render segs) ≡ some (flush current segs)
unfolding render
tokenize_from-render fuel b current [] start v h = unfold tokenize_from in refl
tokenize_from-render fuel b current (literal t ∷ rest) start v h =
    let fits = length-append t (render rest) in
    let e : fuel ≡ length t + (fuel - length t) = omega (arith, fits) in
    let later =
      tokenize_from-render (fuel - length t) true t rest (λ f. cc) v.3 (omega (arith, fits)) in
    rw (start v.0, e, tokenize-literal (fuel - length t) [] t (render rest) v.2)
      (later ∙ ap some (flush-ne t rest v.1))
tokenize_from-render zero b current (variable name ∷ rest) start v h = elim h [ ]
tokenize_from-render (suc fuel) b current (variable name ∷ rest) start v h =
    let short = length-append name (b'}' ∷ render rest) in
    tokenize_from-variable fuel current name rest v.0 v.1
      (tokenize_from-render fuel false [] rest (λ _. refl) v.2 (omega (arith, short)))

-- Every list of segments that a template can spell is read back from its spelling; in particular
-- the fuel is enough.
pub tokenize-render :
    (segs : List Segment) → IsSegments false segs → tokenize (render segs) ≡ some segs
unfolding tokenize
tokenize-render segs v =
    tokenize_from-render (length (render segs)) false [] segs (λ _. refl) v (omega arith)
