-- ===== src/Tests/Printed.antt =====
-- A small JSON library that reads back what it prints, and the line transport on it. A value is a
-- row of numbers: a tag and what the tag wants.
use mcp_cpp.Common.{
  ℕ, zero, suc, ◌+◌, ◌-◌, ◌≤◌, ℤ, pos, negsuc, Bool, true, false, ◌||◌, Option, none, some, List,
  [], ◌∷◌, ◌++◌, map, Text, codes, length, take, drop, ◌==◌, if◌then◌else◌, text_eq, has_byte, ◌≡◌,
  refl, ap, sym, ◌∙◌, arith, take-append, drop-append, drop-drop, length-append, length-drop,
  append-nil, take-append-drop,
}
use mcp_cpp.Json.{JsonLib, JsonLaws}
use mcp_cpp.Messages.{Message, notification}
use mcp_cpp.Line.{LineTransport, handles, read_loop, emit_close}
use mcp_cpp.Line.Delivery.{PrintLaws, chunks_to_end, sent_text, read_loop-sent}

abbrev shift : Text → Text
shift [] = []
shift (c ∷ cs) = (c + 20) ∷ shift cs

abbrev unshift : Text → Text
unshift [] = []
unshift (c ∷ cs) = (c - 20) ∷ unshift cs

unshift-shift : (t : Text) → unshift (shift t) ≡ t
unshift-shift [] = refl
unshift-shift (c ∷ cs) =
    let back : c + 20 - 20 ≡ c = omega arith in rw (back, unshift-shift cs) refl

shift_newline : (t : Text) → has_byte b'\n' (shift t) ≡ false
unfolding has_byte
shift_newline [] = refl
shift_newline (c ∷ cs) = ground (arith, shift_newline cs)

shift_return : (t : Text) → has_byte b'\r' (shift t) ≡ false
unfolding has_byte
shift_return [] = refl
shift_return (c ∷ cs) = ground (arith, shift_return cs)

abbrev has_tag : ℕ → Text → Bool
has_tag tag [] = false
has_tag tag (c ∷ cs) = c == tag

-- A member is tagged 5, with the lengths of its key and of its value.
abbrev find_in : ℕ → Text → Text → Option Text
find_in zero k o = none
find_in (suc n) k (c ∷ key ∷ value ∷ rest) =
    let later = find_in n k (drop (key + value) rest) in
    if c == 5
    then if text_eq (take key rest) k then some (take value (drop key rest)) else later
    else none
find_in (suc n) k _ = none

find_in_fuel : (n m : ℕ) (k o : Text) → length o ≤ n → length o ≤ m → find_in n k o ≡ find_in m k o
find_in_fuel zero zero k o h g = refl
find_in_fuel zero (suc m) k [] h g = refl
find_in_fuel (suc n) zero k [] h g = refl
find_in_fuel (suc n) (suc m) k [] h g = refl
find_in_fuel zero (suc m) k (c ∷ o) h g = absurd (omega arith)
find_in_fuel (suc n) zero k (c ∷ o) h g = absurd (omega arith)
find_in_fuel (suc n) (suc m) k (c ∷ []) h g = refl
find_in_fuel (suc n) (suc m) k (c ∷ d ∷ []) h g = refl
find_in_fuel (suc n) (suc m) k (c ∷ key ∷ value ∷ rest) h g =
    let size = length-drop (key + value) rest in
    rw (find_in_fuel n m k (drop (key + value) rest) (omega (arith, size)) (omega (arith, size)))
      refl

abbrev printed_text : Text → Option Text
printed_text [] = none
printed_text (c ∷ cs) = if c == 0 then some cs else none

abbrev printed_int : Text → Option ℤ
printed_int (c ∷ n ∷ []) = if c == 1 then some (pos n) else if c == 2 then some (negsuc n) else none
printed_int _ = none

abbrev of_int : ℤ → Text
of_int (pos n) = 1 ∷ n ∷ []
of_int (negsuc n) = 2 ∷ n ∷ []

abbrev with_key : Text → Text → Text → Text
with_key k v o = 5 ∷ length k ∷ length v ∷ (k ++ (v ++ o))

abbrev printed_lib : JsonLib
printed_lib = record {
  Json = Text;
  null = 3 ∷ [];
  is_null = has_tag 3;
  is_object = λ j. has_tag 4 j || has_tag 5 j;
  is_array = has_tag 6;
  is_string = has_tag 0;
  is_number = λ j. has_tag 1 j || has_tag 2 j;
  is_number_integer = λ j. has_tag 1 j || has_tag 2 j;
  is_boolean = has_tag 7;
  find = λ k o. find_in (length o) k o;
  set_key = with_key;
  empty_object = 4 ∷ [];
  elements = λ j. [];
  members = λ j. [];
  array = λ js. 6 ∷ [];
  from_text = λ t. 0 ∷ t;
  get_text = printed_text;
  from_int = of_int;
  get_int = printed_int;
  get_code = printed_int;
  get_bool = λ j. none;
  from_bool = λ b. if b then 8 ∷ [] else 9 ∷ [];
  equal = text_eq;
  parse = λ text. some (unshift (drop 1 text));
  dump = λ j. 20 ∷ shift j;
}

find-with_key :
    (k j v o : Text)
    → find_in (length (with_key j v o)) k (with_key j v o)
      ≡ (if text_eq j k then some v else find_in (length o) k o)
find-with_key k j v o =
    let rest = j ++ (v ++ o) in
    let behind : drop (length j + length v) rest ≡ o =
      sym (drop-drop (length j) (length v) rest)
      ∙ ap (drop (length v)) (drop-append j (v ++ o))
      ∙ drop-append v o in
    let enough : length o ≤ suc (suc (length rest)) =
      omega (arith, length-append j (v ++ o), length-append v o) in
    rw
      (
        behind,
        take-append j (v ++ o),
        drop-append j (v ++ o),
        take-append v o,
        find_in_fuel (suc (suc (length rest))) (length o) k o enough (omega arith),
      )
      refl

get_int-of_int : (n : ℤ) → printed_int (of_int n) ≡ some n
get_int-of_int (pos n) = refl
get_int-of_int (negsuc n) = refl

is_number-of_int : (n : ℤ) → (has_tag 1 (of_int n) || has_tag 2 (of_int n)) ≡ true
is_number-of_int (pos n) = refl
is_number-of_int (negsuc n) = refl

not_null-of_int : (n : ℤ) → has_tag 3 (of_int n) ≡ false
not_null-of_int (pos n) = refl
not_null-of_int (negsuc n) = refl

printed-JsonLaws : JsonLaws printed_lib
printed-JsonLaws = record {
  find-empty_object = λ k. refl;
  find-set_key = λ k j v o h. find-with_key k j v o;
  is_object-empty_object = refl;
  is_object-set_key = λ k v o h. refl;
  is_null-null = refl;
  is_null-from_text = λ t. refl;
  is_null-from_int = not_null-of_int;
  is_string-from_text = λ t. refl;
  get_text-from_text = λ t. refl;
  is_number_integer-from_int = is_number-of_int;
  is_number_integer-from_text = λ t. refl;
  get_int-from_int = get_int-of_int;
  get_code-from_int = get_int-of_int;
}

tags_apart : (j : Text) → (has_tag 4 j || has_tag 5 j) ≡ true → has_tag 6 j ≡ false
tags_apart [] h = refl
tags_apart (c ∷ cs) h = ground arith

printed-PrintLaws : PrintLaws printed_lib
unfolding has_byte
printed-PrintLaws = record {
  parse-dump = λ j. ap some (unshift-shift j);
  dump-ne-nil = λ j h. cc;
  dump-newline = shift_newline;
  dump-return = shift_return;
  is_array-is_object = tags_apart;
}

abbrev two_notes : List (Message Text)
two_notes =
    notification (record { method = codes "a"; params = none })
    ∷ notification (record { method = codes "b"; params = none })
    ∷ []

abbrev listening : LineTransport
listening = record { message_handler = true; error_handler = false; close_handler = true }

read_loop-sent_example :
    read_loop printed_lib listening [] (
      chunks_to_end (
        take 9 (sent_text printed_lib listening two_notes)
        ∷ drop 9 (sent_text printed_lib listening two_notes)
        ∷ []))
    ≡ (true, map handles two_notes ++ emit_close printed_lib listening)
read_loop-sent_example =
    read_loop-sent printed_lib printed-JsonLaws printed-PrintLaws listening listening two_notes
      (take 9 (sent_text printed_lib listening two_notes)
        ∷ drop 9 (sent_text printed_lib listening two_notes)
        ∷ [])
      refl (tt, (tt, tt))
      (ap (λ (end : Text). take 9 (sent_text printed_lib listening two_notes) ++ end) (append-nil _)
        ∙ take-append-drop 9 (sent_text printed_lib listening two_notes))
