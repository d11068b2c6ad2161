-- ===== src/Shared/Examples.antt =====
-- Instances for the validation of messages. A float64 is a number here.
use mcp_go_sdk.Prelude.{ℕ, none, string_Key}
use mcp_go_sdk.Value.{null, int64}
use mcp_go_sdk.Shared.Message.{JsonrpcMessage, Request, Response}

abbrev ping : Request ℕ
ping = record { jsonrpc = "2.0"; id = int64 1; method = "ping"; params = null }

-- Neither a result nor an error.
abbrev bare : Response ℕ
bare = record { jsonrpc = "2.0"; id = int64 1; result = null; error = none }

abbrev incoming : JsonrpcMessage ℕ
incoming = record {
  jsonrpc = "2.0";
  id = int64 1;
  method = "ping";
  params = null;
  result = null;
  error = none;
}
