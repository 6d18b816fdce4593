-- ===== src/Http/Head/Lines.antt =====
-- src/transport/http/http_codec.cpp: the lines of a head and where it ends.
use mcp_cpp.Common.{
  ℕ, ◌+◌, Bool, true, not, ◌&&◌, some, List, [], ◌∷◌, ◌++◌, Text, length, ◌==◌, find_text, drop_cr,
  strip_prefix, all, ◌≡◌, refl, ap, sym, ◌∙◌, arith, append_assoc, append-nil, length-append,
}
use mcp_cpp.Http.Head.{crlf, crlfs, head_end, raw_lines, drop_crs, lines_of}

-- A byte that ends no line.
abbrev pub is_inner : ℕ → Bool
is_inner c = not (c == b'\r') && not (c == b'\n')

-- A line that is neither empty nor broken.
abbrev pub IsLine : Text → Type 0
IsLine [] = ⊥
IsLine (c ∷ cs) = all is_inner (c ∷ cs) ≡ true

abbrev pub AreLines : List Text → Type 0
AreLines [] = Unit
AreLines (l ∷ ls) = IsLine l × AreLines ls

-- The lines, each with its `\r\n`.
abbrev pub print_lines : List Text → Text
print_lines [] = []
print_lines (l ∷ ls) = l ++ (crlf ++ print_lines ls)

-- Text without an end of line is passed over.
find-crlfs-inner :
    (l rest before behind : Text)
    → all is_inner l ≡ true
    → find_text crlfs rest ≡ some (before, behind)
    → find_text crlfs (l ++ rest) ≡ some (l ++ before, behind)
unfolding all find_text strip_prefix
find-crlfs-inner [] rest before behind h e = e
find-crlfs-inner (c ∷ l) rest before behind h e =
    ground (arith, find-crlfs-inner l rest before behind)

-- The lines in front of the empty line, without the last `\r\n`.
abbrev pub front : Text → List Text → Text
front l [] = l
front l (m ∷ ls) = l ++ (crlf ++ front m ls)

front_onto : (c : ℕ) (l : Text) (ls : List Text) → front (c ∷ l) ls ≡ c ∷ front l ls
front_onto c l [] = refl
front_onto c l (m ∷ ls) = refl

find-crlfs-crlf :
    (c : ℕ) (rest before behind : Text)
    → is_inner c ≡ true
    → find_text crlfs (c ∷ rest) ≡ some (before, behind)
    → find_text crlfs (crlf ++ c ∷ rest) ≡ some (crlf ++ before, behind)
unfolding find_text strip_prefix
find-crlfs-crlf c rest before behind h e = ground arith

find-crlfs-end : (body : Text) → find_text crlfs (crlfs ++ body) ≡ some ([], crlfs ++ body)
unfolding find_text strip_prefix
find-crlfs-end body = refl

head_inner : (c : ℕ) (cs : Text) → IsLine (c ∷ cs) → is_inner c ≡ true
unfolding all
head_inner c cs h = ground arith

find-crlfs-front :
    (l : Text) (ls : List Text) (body : Text)
    → IsLine l
    → AreLines ls
    → find_text crlfs (front l ls ++ (crlfs ++ body)) ≡ some (front l ls, crlfs ++ body)
find-crlfs-front [] ls body h k = absurd h
find-crlfs-front (c ∷ cs) [] body h k =
    find-crlfs-inner (c ∷ cs) (crlfs ++ body) [] (crlfs ++ body) h (find-crlfs-end body)
    ∙ ap (λ (t : Text). some (t, crlfs ++ body)) (append-nil (c ∷ cs))
find-crlfs-front (c ∷ cs) ([] ∷ ls) body h k = absurd k.0
find-crlfs-front (c ∷ cs) ((d ∷ ds) ∷ ls) body h k =
    let inner : is_inner d ≡ true = head_inner d ds k.0 in
    let found = find-crlfs-front (d ∷ ds) ls body k.0 k.1 in
    let tail : find_text crlfs (crlf ++ (front (d ∷ ds) ls ++ (crlfs ++ body)))
        ≡ some (crlf ++ front (d ∷ ds) ls, crlfs ++ body) =
      rw (front_onto d ds ls) (
        find-crlfs-crlf d (front ds ls ++ (crlfs ++ body)) (d ∷ front ds ls) (crlfs ++ body) inner
          (rw (front_onto d ds ls) at found)) in
    ap (find_text crlfs) (append_assoc (c ∷ cs) (crlf ++ front (d ∷ ds) ls) (crlfs ++ body))
    ∙ find-crlfs-inner (c ∷ cs) (crlf ++ (front (d ∷ ds) ls ++ (crlfs ++ body)))
        (crlf ++ front (d ∷ ds) ls) (crlfs ++ body) h tail

front-print_lines :
    (l : Text) (ls : List Text) (body : Text)
    → front l ls ++ (crlfs ++ body) ≡ print_lines (l ∷ ls) ++ (crlf ++ body)
front-print_lines l [] body = sym (append_assoc l crlf (crlf ++ body))
front-print_lines l (m ∷ ls) body =
    append_assoc l (crlf ++ front m ls) (crlfs ++ body)
    ∙ ap (λ (t : Text). l ++ (crlf ++ t)) (front-print_lines m ls body)
    ∙ sym (append_assoc l (crlf ++ print_lines (m ∷ ls)) (crlf ++ body))

-- The head ends behind the empty line.
pub head_end-print_lines :
    (l : Text) (ls : List Text) (body : Text)
    → IsLine l
    → AreLines ls
    → head_end (print_lines (l ∷ ls) ++ (crlf ++ body))
      ≡ some (length (print_lines (l ∷ ls) ++ crlf))
unfolding head_end
head_end-print_lines l ls body h k =
    let same : length (front l ls) + 4 ≡ length (print_lines (l ∷ ls) ++ crlf) =
      sym (length-append (front l ls) (crlfs ++ [])) ∙ ap length (front-print_lines l ls []) in
    rw (sym (front-print_lines l ls body), find-crlfs-front l ls body h k) (ap some same)

raw_lines-inner :
    (l rest : Text) (line : Text) (lines : List Text)
    → all is_inner l ≡ true
    → raw_lines rest ≡ line ∷ lines
    → raw_lines (l ++ rest) ≡ (l ++ line) ∷ lines
unfolding all raw_lines
raw_lines-inner [] rest line lines h e = e
raw_lines-inner (c ∷ l) rest line lines h e = ground (arith, raw_lines-inner l rest line lines)

drop_cr-snoc : (l : Text) → all is_inner l ≡ true → drop_cr (l ++ b'\r' ∷ []) ≡ l
unfolding all drop_cr
drop_cr-snoc [] h = refl
drop_cr-snoc (c ∷ []) h = refl
drop_cr-snoc (c ∷ d ∷ l) h = ap (◌∷◌ c) (drop_cr-snoc (d ∷ l) (ground arith))

inner_of : (l : Text) → IsLine l → all is_inner l ≡ true
inner_of [] h = absurd h
inner_of (c ∷ cs) h = h

-- The lines are read back, and the empty line behind them.
pub lines_of-print_lines :
    (ls : List Text) → AreLines ls → lines_of (print_lines ls ++ crlf) ≡ ls ++ [] ∷ []
unfolding lines_of raw_lines drop_crs drop_cr
lines_of-print_lines [] h = refl
lines_of-print_lines (l ∷ ls) h =
    let inner = inner_of l h.0 in
    let tails = lines_of-print_lines ls h.1 in
    let raw : raw_lines (l ++ (crlf ++ (print_lines ls ++ crlf)))
        ≡ (l ++ b'\r' ∷ []) ∷ raw_lines (print_lines ls ++ crlf) =
      raw_lines-inner l (crlf ++ (print_lines ls ++ crlf)) (b'\r' ∷ [])
        (raw_lines (print_lines ls ++ crlf)) inner refl in
    rw (append_assoc l (crlf ++ print_lines ls) crlf, raw, drop_cr-snoc l inner) (ap (◌∷◌ l) tails)
