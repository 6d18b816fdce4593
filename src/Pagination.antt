-- ===== src/Pagination.antt =====
-- include/mcp/detail/pagination.hpp. `size_t` has 64 bits, and its arithmetic wraps.
pub mod Cursor
pub mod Listing
pub mod Overflow
use mcp_cpp.Common.{
  ℕ, suc, ◌+◌, ◌-◌, ◌*◌, ◌%◌, ◌^◌, min, Bool, not, Option, none, some, List, [], ◌∷◌, length, take,
  drop, all, ltb, is_digit, to_text, if◌then◌else◌, Text, codes,
}
use mcp_cpp.Errors.{Error, fail_with, pagination_error}

abbrev pub size_mod : ℕ
size_mod = 2 ^ 64

pub record Page (A : Type 0) : Type 0 where
  pub items : List A
  pub next_cursor : Option Text

-- `bad_range`: the vector is assigned from a range that ends before it begins.
pub data Outcome (J A : Type 0) : Type 0 where
  page : Page A → Outcome J A
  refused : Error J → Outcome J A
  bad_range : Outcome J A

-- The second loop over the cursor; `none` is "cursor out of range".
unfoldable pub read_index : ℕ → ℕ → Text → Option ℕ
read_index size start [] = some start
read_index size start (c ∷ cs) =
    let start' = (start * 10 + (c - b'0')) % size_mod in
    let rest = read_index size start' cs in if ltb size start' then none else rest

module _ {J : Type 0} {A : Type 0} where
  -- What follows the decoding of the cursor.
  unfoldable pub page_from : List A → ℕ → ℕ → Outcome J A
  page_from xs page_size start =
      let end_index = min ((start + page_size) % size_mod) (length xs) in
      if ltb end_index start
      then bad_range
      else page (record {
        items = take (end_index - start) (drop start xs);
        next_cursor = if ltb end_index (length xs) then some (to_text end_index) else none;
      })

  page_at : List A → ℕ → Option ℕ → Outcome J A
  page_at xs page_size none = refused (fail_with pagination_error (codes "cursor out of range"))
  page_at xs page_size (some start) = page_from xs page_size start

  -- The text of a cursor: digits only, and at least one.
  unfoldable pub page_at_cursor : List A → ℕ → Text → Outcome J A
  unfolding page_at
  page_at_cursor xs page_size [] = refused (fail_with pagination_error (codes "invalid cursor"))
  page_at_cursor xs page_size (c ∷ cs) =
      if not (all is_digit (c ∷ cs))
      then refused (fail_with pagination_error (codes "invalid cursor"))
      else page_at xs page_size (read_index (length xs) 0 (c ∷ cs))

  unfoldable pub paginate : List A → Option Text → ℕ → Outcome J A
  unfolding page_at_cursor
  paginate xs none page_size = page_from xs page_size 0
  paginate xs (some cursor) page_size = page_at_cursor xs page_size cursor
