-- ===== src/Http/Head/Fields.antt =====
-- src/transport/http/http_codec.cpp: the fields of a head, described without the parser.
use mcp_cpp.Common.{
  ℕ, ◌+◌, Bool, true, false, not, ◌||◌, Option, none, some, [], ◌∷◌, ◌++◌, Text, codes, length,
  ◌==◌, if◌then◌else◌, place_of, text_eq, text_eq_iff, to_text, all, ◌≡◌, refl, ap, ◌∙◌, sym, arith,
  Bool-cases, inl, inr, is_digit, all-is_digit-to_text,
}
use mcp_cpp.Common.Dict.{lookup, lookup-insert, text_key}
use mcp_cpp.Http.Head.{
  HttpHead, HeaderList, blank_head, lower_byte, to_lower, trim, trim_front, trim_back, add_header,
  has_length, is_nil, adds_length,
}
use mcp_cpp.Http.Head.Lines.{is_inner}
use mcp_cpp.Http.Head.Printing.{with_length, sent_headers, add_headers}

abbrev pub capitals : Text
capitals = codes "ABCDEFGHIJKLMNOPQRSTUVWXYZ"

unfoldable pub lowered_byte : ℕ → ℕ
lowered_byte c = elim (place_of c capitals) [ none ↦ c | some n ↦ b'a' + n ]

-- A name with its capitals as small letters.
unfoldable pub lowered : Text → Text
lowered [] = []
lowered (c ∷ cs) = lowered_byte c ∷ lowered cs

lower_byte-lowered_byte : (c : ℕ) → lower_byte c ≡ lowered_byte c
unfolding lowered_byte place_of
lower_byte-lowered_byte c = ground arith

to_lower-lowered : (t : Text) → to_lower t ≡ lowered t
unfolding to_lower lowered
to_lower-lowered [] = refl
to_lower-lowered (c ∷ cs) =
    ap (λ d. d ∷ to_lower cs) (lower_byte-lowered_byte c)
    ∙ ap (◌∷◌ (lowered_byte c)) (to_lower-lowered cs)

abbrev pub is_blank : ℕ → Bool
is_blank c = c == b' ' || c == b'\t'

-- No blank at the front, and none at the end.
abbrev pub front_ok : Text → Bool
front_ok [] = true
front_ok (c ∷ cs) = not (is_blank c)

unfoldable pub end_ok : Text → Bool
end_ok [] = true
end_ok (c ∷ []) = not (is_blank c)
end_ok (c ∷ d ∷ ds) = end_ok (d ∷ ds)

abbrev pub IsNeat : Text → Type 0
IsNeat t = (front_ok t ≡ true) × (end_ok t ≡ true) × (all is_inner t ≡ true)

abbrev pub AreNeat : HeaderList → Type 0
AreNeat [] = Unit
AreNeat (h ∷ hs) = (IsNeat h.0 × IsNeat h.1) × AreNeat hs

trim_back-neat : (t : Text) → end_ok t ≡ true → all is_inner t ≡ true → trim_back t ≡ t
unfolding trim_back end_ok all
trim_back-neat [] e i = refl
trim_back-neat (c ∷ []) e i = ground arith
trim_back-neat (c ∷ d ∷ ds) e i = rw (trim_back-neat (d ∷ ds) e (ground arith)) refl

trim_front-neat : (t : Text) → front_ok t ≡ true → trim_front t ≡ t
unfolding trim_front
trim_front-neat [] f = refl
trim_front-neat (c ∷ cs) f = ground arith

trim-neat : (t : Text) → IsNeat t → trim t ≡ t
unfolding trim
trim-neat t (f, e, i) = ap trim_back (trim_front-neat t f) ∙ trim_back-neat t e i

abbrev pub first_of : Option Text → Option Text → Option Text
first_of none other = other
first_of (some v) other = some v

first_of-none : (o : Option Text) → first_of o none ≡ o
first_of-none none = refl
first_of-none (some v) = refl

first_of_assoc : (a b c : Option Text) → first_of (first_of a b) c ≡ first_of a (first_of b c)
first_of_assoc none b c = refl
first_of_assoc (some v) b c = refl

-- The value of the last header with the name, which is written in small letters.
unfoldable pub last_value : Text → HeaderList → Option Text
last_value k [] = none
last_value k ((name, value) ∷ hs) =
    first_of (last_value k hs) (if text_eq (lowered name) k then some value else none)

add_header-lookup :
    (k : Text) (head : HttpHead) (h : Text × Text)
    → IsNeat h.0
    → IsNeat h.1
    → lookup k (add_header head h).headers
      ≡ first_of (if text_eq (lowered h.0) k then some h.1 else none) (lookup k head.headers)
add_header-lookup k head h n v =
    lookup-insert (to_lower (trim h.0)) k (trim h.1) head.headers
    ∙ rw (trim-neat h.0 n, trim-neat h.1 v, to_lower-lowered h.0)
        (elim (Bool-cases (text_eq (lowered h.0) k)) [ inl e ↦ rw e refl | inr e ↦ rw e refl ])

add_headers-lookup :
    (k : Text) (head : HttpHead) (hs : HeaderList)
    → AreNeat hs
    → lookup k (add_headers head hs).headers ≡ first_of (last_value k hs) (lookup k head.headers)
unfolding last_value
add_headers-lookup k head [] n = refl
add_headers-lookup k head (h ∷ hs) n =
    add_headers-lookup k (add_header head h) hs n.1
    ∙ ap (first_of (last_value k hs)) (add_header-lookup k head h n.0.0 n.0.1)
    ∙ sym (first_of_assoc (last_value k hs) _ (lookup k head.headers))

abbrev pub length_name : Text
length_name = codes "content-length"

abbrev pub is_present : Option Text → Bool
is_present none = false
is_present (some v) = true

present_first :
    (o : Option Text) (b : Bool) (v : Text)
    → (if b then true else is_present o) ≡ is_present (first_of o (if b then some v else none))
present_first none true v = refl
present_first none false v = refl
present_first (some w) true v = refl
present_first (some w) false v = refl

has_length-last_value : (hs : HeaderList) → has_length hs ≡ is_present (last_value length_name hs)
unfolding has_length last_value
has_length-last_value [] = refl
has_length-last_value ((name, value) ∷ hs) =
    rw (to_lower-lowered name, has_length-last_value hs)
      (present_first (last_value length_name hs) (text_eq (lowered name) length_name) value)

-- The length of the body, where it is to be sent.
abbrev pub length_value : Text → Text → Option Text
length_value method body =
    if not (is_nil body) || text_eq method (codes "POST")
    then some (to_text (length body))
    else none

-- The value that the field `k` is to have: of the last such header, or else of the length.
unfoldable pub field_value : Text → Text → HeaderList → Text → Option Text
field_value k method headers body =
    first_of (last_value k headers)
      (if text_eq length_name k then length_value method body else none)

last_value-append :
    (k : Text) (hs : HeaderList) (h : Text × Text)
    → last_value k (hs ++ h ∷ [])
      ≡ first_of (if text_eq (lowered h.0) k then some h.1 else none) (last_value k hs)
unfolding last_value
last_value-append k [] h = sym (first_of-none _)
last_value-append k ((n, v) ∷ hs) h =
    ap (λ o. first_of o (if text_eq (lowered n) k then some v else none)) (last_value-append k hs h)
    ∙ first_of_assoc _ (last_value k hs) _

present_some : (o : Option Text) (other : Option Text) → is_present o ≡ true → first_of o other ≡ o
present_some none other h = absurd (cc)
present_some (some v) other h = refl

present_none : (o : Option Text) → is_present o ≡ false → o ≡ none
present_none none h = refl
present_none (some v) h = absurd (cc)

sent_headers-field_value :
    (k method : Text) (headers : HeaderList) (body : Text)
    → last_value k (sent_headers method headers body) ≡ field_value k method headers body
unfolding field_value lowered lowered_byte place_of
sent_headers-field_value k method headers body =
    let given = has_length-last_value headers in
    elim (Bool-cases (has_length headers)) [
      | inl e ↦ rw e (elim (Bool-cases (text_eq length_name k)) [
        | inl same ↦
            let name : length_name ≡ k = (text_eq_iff length_name k).0 same in
            rw same (sym (present_some (last_value k headers) _ (rw (sym name) (sym given ∙ e))))
        | inr differ ↦ rw differ (sym (first_of-none (last_value k headers)))
      ])
      | inr e ↦ rw e (elim (Bool-cases (not (is_nil body) || text_eq method (codes "POST"))) [
        | inr no_length ↦ rw no_length (elim (Bool-cases (text_eq length_name k)) [
          | inl same ↦ rw same (sym (first_of-none (last_value k headers)))
          | inr differ ↦ rw differ (sym (first_of-none (last_value k headers)))
        ])
        | inl sends ↦ rw sends (
            last_value-append k headers (codes "Content-Length", to_text (length body))
            ∙ elim (Bool-cases (text_eq length_name k)) [
              | inl same ↦
                  let name : length_name ≡ k = (text_eq_iff length_name k).0 same in
                  let absent : last_value k headers ≡ none =
                    present_none (last_value k headers) (rw (sym name) (sym given ∙ e)) in
                  rw (same, absent) refl
              | inr differ ↦ rw differ (sym (first_of-none (last_value k headers)))
            ])
      ])
    ]

add_headers-start :
    (head : HttpHead) (hs : HeaderList)
    → ((add_headers head hs).method ≡ head.method) × ((add_headers head hs).target ≡ head.target)
add_headers-start head [] = (refl, refl)
add_headers-start head (h ∷ hs) = add_headers-start (add_header head h) hs

AreNeat-snoc :
    (hs : HeaderList) (h : Text × Text)
    → AreNeat hs
    → IsNeat h.0
    → IsNeat h.1
    → AreNeat (hs ++ h ∷ [])
AreNeat-snoc [] h n a b = ((a, b), n)
AreNeat-snoc (p ∷ hs) h n a b = (n.0, AreNeat-snoc hs h n.1 a b)

digits-IsNeat : (t : Text) → all is_digit t ≡ true → IsNeat t
unfolding end_ok all
digits-IsNeat [] h = (refl, refl, refl)
digits-IsNeat (c ∷ []) h = (ground arith, ground arith, ground arith)
digits-IsNeat (c ∷ d ∷ ds) h =
    let rest = digits-IsNeat (d ∷ ds) (ground arith) in
    (ground arith, rest.1, ground (arith, rest.2))

with_length-AreNeat :
    (b : Bool) (headers : HeaderList) (body : Text)
    → AreNeat headers
    → AreNeat (with_length b headers body)
unfolding end_ok all
with_length-AreNeat false headers body n = n
with_length-AreNeat true headers body n =
    AreNeat-snoc headers (codes "Content-Length", to_text (length body)) n (refl, refl, refl)
      (digits-IsNeat (to_text (length body)) (all-is_digit-to_text (length body)))

-- The head that the parser builds of the headers that are sent.
pub sent_headers-fields :
    (method target : Text) (headers : HeaderList) (body : Text)
    → AreNeat headers
    → let head =
        add_headers
          (record blank_head { method = method; target = target })
          (sent_headers method headers body) in
      (head.method ≡ method)
      × (head.target ≡ target)
      × ((k : Text) → lookup k head.headers ≡ field_value k method headers body)
unfolding lookup
sent_headers-fields method target headers body n =
    let start = record blank_head { method = method; target = target } in
    let sent = sent_headers method headers body in
    let kept = add_headers-start start sent in
    let neat = with_length-AreNeat (adds_length method headers body) headers body n in
    (
      kept.0,
      kept.1,
      λ k.
          add_headers-lookup k start sent neat
          ∙ first_of-none (last_value k sent)
          ∙ sent_headers-field_value k method headers body,
    )
