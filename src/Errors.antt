-- ===== src/Errors.antt =====
-- include/mcp/error.hpp and include/mcp/result.hpp: error codes, error objects, results.
-- `J` is the type of JSON values of the third-party JSON library.
use mcp_cpp.Common.{Text, ℤ, negsuc, Option, none}

pub data ErrorCode : Type 0 where
  parse_error invalid_request method_not_found invalid_params internal_error : ErrorCode
  connection_not_initialized request_already_in_progress capability_not_supported : ErrorCode
  resource_not_found tool_execution_failed invalid_uri pagination_error : ErrorCode

-- The enumerators' values; `negsuc n` is -(n + 1).
unfoldable pub code_value : ErrorCode → ℤ
code_value parse_error = negsuc 32699
code_value invalid_request = negsuc 32599
code_value method_not_found = negsuc 32600
code_value invalid_params = negsuc 32601
code_value internal_error = negsuc 32602
code_value connection_not_initialized = negsuc 31999
code_value request_already_in_progress = negsuc 32000
code_value capability_not_supported = negsuc 32001
code_value resource_not_found = negsuc 32002
code_value tool_execution_failed = negsuc 32003
code_value invalid_uri = negsuc 32004
code_value pagination_error = negsuc 32005

pub record Error (J : Type 0) : Type 0 where
  pub code : ℤ
  pub message : Text
  pub payload : Option J

module _ {J : Type 0} where
  -- `Error(ErrorCode, message)`
  abbrev pub fail_with : ErrorCode → Text → Error J
  unfolding code_value
  fail_with c m = record { code = code_value c; message = m; payload = none }

pub data Result {κ} (J : Type 0) (A : Type κ) : Type κ where
  ok : A → Result J A
  err : Error J → Result J A

infixl 5 ◌>>=◌
abbrev pub ◌>>=◌ {κ ι} :
    {J : Type 0} {A : Type κ} {B : Type ι} → Result J A → (A → Result J B) → Result J B
ok a >>= f = f a
err e >>= f = err e

-- The value of `Result<void>`.
pub data Done : Type 0 where
  done : Done
