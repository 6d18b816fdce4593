-- ===== src/Messages/Ids.antt =====
-- Equality of request ids and progress tokens.
use mcp_cpp.Common.{Bool, true, false, int_eq, int_eq_iff, text_eq, text_eq_iff, ◌≡◌, ◌↔◌, arith}
use mcp_cpp.Common.Dict.{Eq}
use mcp_cpp.Messages.{RequestId, int_id, text_id}

unfoldable pub id_eq : RequestId → RequestId → Bool
id_eq (int_id a) (int_id b) = int_eq a b
id_eq (text_id a) (text_id b) = text_eq a b
id_eq _ _ = false

pub id_eq_iff : (a b : RequestId) → (id_eq a b ≡ true) ↔ (a ≡ b)
unfolding id_eq
id_eq_iff (int_id a) (int_id b) = ground (arith, int_eq_iff a b)
id_eq_iff (text_id a) (text_id b) = ground (arith, text_eq_iff a b)
id_eq_iff _ _ = ground arith

instance abbrev pub id_key : Eq RequestId
id_key = record { beq = id_eq; beq_iff = id_eq_iff }
