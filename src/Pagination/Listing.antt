-- ===== src/Pagination/Listing.antt =====
-- A client that follows the cursors from the first page on sees the whole listing.
use mathlib.Core.Option
use mcp_cpp.Common.{
  ℕ, zero, suc, ◌+◌, ◌*◌, ◌≤◌, ◌<◌, Option, none, some, List, ◌++◌, length, drop, take-append-drop,
  drop-drop, length-drop, take-all, ltb, to_text, value-to_text, all-is_digit-to_text,
  to_text-ne-nil, Bool-cases, Text, ◌≡◌, ap, arith, inl, inr,
}
use mcp_cpp.Pagination.{size_mod, page, paginate}
use mcp_cpp.Pagination.Cursor.{page_of, page_from-page_of, paginate-IsCursor}

module _ (J : Type 0) {A : Type 0} (xs : List A) (page_size : ℕ) where
  -- Ask for a page, and go on at its cursor; `none` if a request is refused or the rounds run out.
  pub follow : ℕ → Option Text → Option (List A)
  follow zero cursor = none
  follow (suc rounds) cursor = elim (paginate {J = J} xs cursor page_size) [
    | page p ↦ elim p.next_cursor [
      | none ↦ some p.items
      | some next ↦ Option.map (◌++◌ p.items) (follow rounds (some next))
    ]
    | _ ↦ none
  ]

  module _ (fits : length xs * 10 + 10 ≤ size_mod) (room : length xs + page_size < size_mod)
      (positive : 0 < page_size) where
    paginate-to_text :
        (start : ℕ)
        → start ≤ length xs
        → paginate {J = J} xs (some (to_text start)) page_size ≡ page (page_of xs page_size start)
    paginate-to_text start le =
        elim (paginate-IsCursor {J = J} xs (to_text start) page_size fits room) [
          | inl (_, e) ↦ rw (value-to_text start) at e
          | inr (bad, _) ↦
              absurd (
                bad (to_text-ne-nil start, all-is_digit-to_text start, rw (value-to_text start) le))
        ]

    follow_from :
        (rounds start : ℕ) (cursor : Option Text)
        → paginate {J = J} xs cursor page_size ≡ page (page_of xs page_size start)
        → start ≤ length xs
        → length xs < start + rounds
        → follow rounds cursor ≡ some (drop start xs)
    unfolding follow
    follow_from zero start cursor asked le h = absurd (omega arith)
    follow_from (suc rounds) start cursor asked le h =
        rw (asked, follow)
          (elim (Bool-cases (ltb (start + page_size) (length xs))) [
            | inl more ↦
                let next = start + page_size in
                let inside : next ≤ length xs = ground arith in
                rw
                  (
                    more,
                    follow_from rounds next _ (paginate-to_text next inside) inside (omega arith),
                    ← drop-drop start page_size xs,
                  )
                  (ap some (take-append-drop page_size (drop start xs)))
            | inr last ↦
                rw last
                  (ap some (take-all page_size (drop start xs) (rw length-drop (ground arith))))
          ])

    -- Following the cursors from the first request on yields every item once and in order, within
    -- one request more than there are items, whatever the page size, provided that it is positive
    -- and that no index overflows.
    pub follow_all : follow (suc (length xs)) none ≡ some xs
    unfolding paginate
    follow_all =
        follow_from (suc (length xs)) 0 none (page_from-page_of xs page_size 0 room (omega arith))
          (omega arith) (omega arith)
