-- ===== src/Pagination/Overflow.antt =====
-- A page size near the largest `size_t`, where `start + page_size` wraps.
use native.Mathlib.Nat.{min-eq_left}
use mcp_cpp.Common.{
  ℕ, ◌+◌, ◌*◌, ◌%◌, ◌≤◌, ◌<◌, some, List, [], ◌∷◌, length, value_from, Text, ◌≡◌, arith,
}
use mcp_cpp.Pagination.{size_mod, bad_range, page_from, paginate}
use mcp_cpp.Pagination.Cursor.{IsCursor, read_index-value}

module _ {J : Type 0} {A : Type 0} where
  paginate-page_from :
      (xs : List A) (cs : Text) (page_size : ℕ)
      → length xs * 10 + 10 ≤ size_mod
      → IsCursor xs cs
      → paginate {J = J} xs (some cs) page_size ≡ page_from xs page_size (value_from 0 cs)
  unfolding paginate
  paginate-page_from xs [] page_size h v = absurd (ground arith)
  paginate-page_from xs (c ∷ cs) page_size h v =
      ground (arith, read_index-value (length xs) 0 (c ∷ cs) h (omega arith) v.1)

  -- With a page size that is below 2^64 but that, added to the cursor's index, reaches 2^64, an
  -- accepted cursor makes `paginate` build the page from a range that ends before it begins.
  pub paginate-bad_range :
      (xs : List A) (cs : Text) (page_size : ℕ)
      → length xs * 10 + 10 ≤ size_mod
      → IsCursor xs cs
      → page_size < size_mod
      → size_mod ≤ value_from 0 cs + page_size
      → paginate {J = J} xs (some cs) page_size ≡ bad_range
  unfolding page_from
  paginate-bad_range xs cs page_size h v below over =
      let wrapped : (value_from 0 cs + page_size) % size_mod < value_from 0 cs = omega arith in
      rw (paginate-page_from xs cs page_size h v) (
        ground (
          arith,
          min-eq_left {n = (value_from 0 cs + page_size) % size_mod} {m = length xs} (omega arith),
        ))
