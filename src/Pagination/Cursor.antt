-- ===== src/Pagination/Cursor.antt =====
-- Which cursors `paginate` accepts, and what it returns for them.
use mcp_cpp.Common.{
  ℕ, ◌+◌, ◌-◌, ◌*◌, ◌%◌, ◌≤◌, ◌<◌, true, none, some, List, [], ◌∷◌, length, length-drop, take,
  take-all, drop, ap, all, ltb, is_digit, to_text, value_from, value_from-ge, if◌then◌else◌,
  Bool-cases, Text, codes, ◌≡◌, ◌≢◌, refl, arith, ◌⊎◌, inl, inr,
}
use native.Mathlib.Nat.{mod-eq_of_lt, min-eq_left, min-eq_right}
use mcp_cpp.Errors.{fail_with, pagination_error}
use mcp_cpp.Pagination.{
  size_mod, Page, page, refused, read_index, page_from, page_at_cursor, paginate,
}

no_wrap :
    (size start c : ℕ)
    → size * 10 + 10 ≤ size_mod
    → start ≤ size
    → is_digit c ≡ true
    → (start * 10 + (c - b'0')) % size_mod ≡ start * 10 + (c - b'0')
no_wrap size start c fits le digit = let low : c ≤ b'9' = ground arith in mod-eq_of_lt (omega arith)

-- The loop computes the number, with no wrap-around, exactly when the number fits.
pub read_index-value :
    (size start : ℕ) (cs : Text)
    → size * 10 + 10 ≤ size_mod
    → start ≤ size
    → all is_digit cs ≡ true
    → read_index size start cs
      ≡ (if ltb size (value_from start cs) then none else some (value_from start cs))
unfolding read_index value_from all
read_index-value size start [] fits le digits = ground arith
read_index-value size start (c ∷ cs) fits le digits =
    rw (no_wrap size start c fits le (ground arith)) (
      ground (
        arith,
        value_from-ge (start * 10 + (c - b'0')) cs,
        read_index-value size (start * 10 + (c - b'0')) cs fits,
      ))

module _ {A : Type 0} where
  -- The page that starts at an index of the listing: at most `page_size` items, and the index
  -- behind them as the next cursor while items are left.
  abbrev pub page_of : List A → ℕ → ℕ → Page A
  page_of xs page_size start = record {
    items = take page_size (drop start xs);
    next_cursor =
        if ltb (start + page_size) (length xs) then some (to_text (start + page_size)) else none;
  }

  -- A cursor denotes a place in the listing.
  abbrev pub IsCursor : List A → Text → Type 0
  IsCursor xs cs = (cs ≢ []) × (all is_digit cs ≡ true) × (value_from 0 cs ≤ length xs)

add-sub : (n m : ℕ) → n + m - n ≡ m
add-sub n m = omega arith

module _ {J : Type 0} {A : Type 0} where
  pub page_from-page_of :
      (xs : List A) (page_size start : ℕ)
      → length xs + page_size < size_mod
      → start ≤ length xs
      → page_from {J = J} xs page_size start ≡ page (page_of xs page_size start)
  unfolding page_from
  page_from-page_of xs page_size start fits le =
      let sum : (start + page_size) % size_mod ≡ start + page_size = mod-eq_of_lt (omega arith) in
      rw sum (elim (Bool-cases (ltb (start + page_size) (length xs))) [
        | inl more ↦ ground (
          arith,
          min-eq_left {n = start + page_size} {m = length xs} (ground arith),
          ap (λ (n : ℕ). take n (drop start xs)) (add-sub start page_size),
        )
        | inr last ↦ ground (
          arith,
          min-eq_right {n = length xs} {m = start + page_size} (ground arith),
          take-all page_size (drop start xs) (rw length-drop (ground arith)),
          take-all (length xs - start) (drop start xs) (rw length-drop (omega arith)),
        )
      ])

  pub paginate-IsCursor :
      (xs : List A) (cs : Text) (page_size : ℕ)
      → length xs * 10 + 10 ≤ size_mod
      → length xs + page_size < size_mod
      → ((IsCursor xs cs)
          × (paginate {J = J} xs (some cs) page_size
              ≡ page (page_of xs page_size (value_from 0 cs))))
        ⊎ ((¬ (IsCursor xs cs))
            × ((m : Text) × (paginate {J = J} xs (some cs) page_size
                  ≡ refused (fail_with pagination_error m))))
  unfolding paginate page_at_cursor
  paginate-IsCursor xs [] page_size h k = inr ((λ c. c.0 refl), (codes "invalid cursor", refl))
  paginate-IsCursor xs (c ∷ cs) page_size h k = elim (Bool-cases (all is_digit (c ∷ cs))) [
    | inr bad ↦ inr ((λ v. ground arith), (codes "invalid cursor", ground arith))
    | inl digits ↦
        let index = read_index-value (length xs) 0 (c ∷ cs) h (omega arith) digits in
        elim (Bool-cases (ltb (length xs) (value_from 0 (c ∷ cs)))) [
          | inl over ↦ inr ((λ v. ground arith), (codes "cursor out of range", ground arith))
          | inr inside ↦
              let le : value_from 0 (c ∷ cs) ≤ length xs = ground arith in
              inl (
                ((λ e. cc), digits, le),
                ground (arith, page_from-page_of xs page_size (value_from 0 (c ∷ cs)) k le),
              )
        ]
  ]
