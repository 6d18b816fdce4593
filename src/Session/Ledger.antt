-- ===== src/Session/Ledger.antt =====
-- src/core/session.cpp: the account of a request id. What is counted of it: the calls of its
-- callback in the trace, its entries among the pending calls, and whether the session has issued it.
use mcp_cpp.Common.{
  ℕ, ◌+◌, ◌≤◌, pos, negsuc, ◌&&◌, none, some, List, [], ◌∷◌, ◌++◌, ltb, leb, if◌then◌else◌, ◌≡◌,
  refl, arith, int_eq,
}
use mcp_cpp.Common.Dict.{Dict, lookup, insert, erase}
use mcp_cpp.Messages.{RequestId, int_id, text_id}
use mcp_cpp.Messages.Ids.{id_eq, id_eq_iff, id_key}
use mcp_cpp.Session.{Event, called, Setup, Sess}

unfoldable pub entries : {C : Type 0} → RequestId → Dict RequestId C → ℕ
entries id [] = 0
entries id ((k, c) ∷ m) = (if id_eq k id then 1 else 0) + entries id m

pub entries-insert :
    {C : Type 0} (id k : RequestId) (c : C) (m : Dict RequestId C)
    → entries k m ≡ 0
    → entries id (insert k c m) ≡ (if id_eq k id then 1 else 0) + entries id m
unfolding entries insert
entries-insert id k c [] h = ground arith
entries-insert id k c ((j, d) ∷ m) h =
    ground (arith, id_eq_iff j k, id_eq_iff k id, entries-insert id k c m)

pub entries-erase :
    {C : Type 0} (id k : RequestId) (m : Dict RequestId C)
    → entries id (erase k m) ≡ (if id_eq k id then 0 else entries id m)
unfolding entries erase
entries-erase id k [] = ground arith
entries-erase id k ((j, d) ∷ m) =
    ground (arith, id_eq_iff j k, id_eq_iff j id, id_eq_iff k id, entries-erase id k m)

pub entries-lookup :
    {C : Type 0} (k : RequestId) (c : C) (m : Dict RequestId C)
    → lookup k m ≡ some c
    → 1 ≤ entries k m
unfolding entries lookup
entries-lookup k c [] h = ground arith
entries-lookup k c ((j, d) ∷ m) h = ground (arith, entries-lookup k c m)

pub entries-absent :
    {C : Type 0} (k : RequestId) (m : Dict RequestId C) → lookup k m ≡ none → entries k m ≡ 0
unfolding entries lookup
entries-absent k [] h = refl
entries-absent k ((j, d) ∷ m) h = ground (arith, entries-absent k m)

-- The ids that a session gives out are 1, 2, … up to its counter.
unfoldable pub issued : RequestId → ℕ → ℕ
issued (int_id (pos n)) next = if leb 1 n && ltb n next then 1 else 0
issued (int_id (negsuc n)) next = 0
issued (text_id t) next = 0

pub issued-le : (id : RequestId) (next : ℕ) → issued id next ≤ 1
unfolding issued
issued-le (int_id (pos n)) next = ground arith
issued-le (int_id (negsuc n)) next = omega arith
issued-le (text_id t) next = omega arith

pub issued_self : (next : ℕ) → issued (int_id (pos next)) next ≡ 0
unfolding issued
issued_self next = ground arith

pub issued-next :
    (id : RequestId) (next : ℕ)
    → 1 ≤ next
    → issued id (next + 1) ≡ (if id_eq (int_id (pos next)) id then 1 else 0) + issued id next
unfolding issued id_eq int_eq
issued-next (int_id (pos n)) next h = ground arith
issued-next (int_id (negsuc n)) next h = ground arith
issued-next (text_id t) next h = ground arith

module _ {J K P : Type 0} where
  unfoldable pub calls_in : RequestId → Event J K P → ℕ
  calls_in id (called k callback result) = if id_eq k id then 1 else 0
  calls_in id _ = 0

  unfoldable pub count_calls : RequestId → List (Event J K P) → ℕ
  count_calls id [] = 0
  count_calls id (e ∷ es) = calls_in id e + count_calls id es

  pub count_calls-emit :
      (id : RequestId) (es : List (Event J K P)) (e : Event J K P)
      → count_calls id (es ++ e ∷ []) ≡ calls_in id e + count_calls id es
  unfolding count_calls
  count_calls-emit id [] e = omega arith
  count_calls-emit id (d ∷ es) e = omega (arith, count_calls-emit id es e)

-- A request that was issued was called back or is pending, and not both; no other id is either.
abbrev pub Ledger : (T : Setup) → RequestId → Sess T → Type 0
Ledger T id s =
    (1 ≤ s.next_request_id)
    × (count_calls id s.trace + entries id s.router.pending ≡ issued id s.next_request_id)
