-- ===== src/Tests/Clients.antt =====
-- A client session at a concrete handshake.
use mcp_cpp.Common.{ℕ, true, false, none, [], Text, codes}
use mcp_cpp.Errors.{fail_with, internal_error, Result, ok, err}
use mcp_cpp.Session.{Sess}
use mcp_cpp.Client.{InitializeResult, ClientTypes, ClientData, client_setup, new_client_session}
use mcp_cpp.Client.Opening.{peer}
use mcp_cpp.Tests.Values.{Value, text_value}
use mcp_cpp.Tests.Sessions.{server_types}

abbrev result_for : Text → InitializeResult Text ℕ
result_for v = record {
  protocol_version = v;
  capabilities = 0;
  server_info = codes "s";
  instructions = none;
}

abbrev read_version : Value → Result Value (InitializeResult Text ℕ)
read_version (text_value v) = ok (result_for v)
read_version _ = err (fail_with internal_error (codes "no version"))

abbrev client_types : ClientTypes
client_types = peer server_types Text ℕ ℕ ℕ (λ v. text_value v) read_version

abbrev client_data : ClientData Text ℕ
client_data = record {
  supported_versions = (codes "1", []);
  capabilities = record { sampling = true; roots = false; elicitation = false; tasks = false };
  initialize_timeout = 10000;
  server_info = none;
  server_capabilities = none;
}

abbrev new_client : Sess (client_setup client_types)
new_client = new_client_session client_types client_data
