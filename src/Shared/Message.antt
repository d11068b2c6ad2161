-- ===== src/Shared/Message.antt =====
-- shared/types.go: the JSON-RPC messages and how the SDK tells their kinds apart. Parsing the text
-- is encoding/json's and enters with the component that reads texts.
use mcp_go_sdk.Prelude.{
  Bool, ◌&&◌, not, Option, none, some, String, ◌==◌, if◌then◌else◌, string_Key,
}
use mcp_go_sdk.Prelude.Int.{ℤ, negsuc}
use mcp_go_sdk.Value.{Value, null, is_null}

module _ (F : Type 0) where
  pub record RpcError : Type 0 where
    pub code : ℤ
    pub message : String
    pub details : Value F

  pub record JsonrpcMessage : Type 0 where
    pub jsonrpc : String
    pub id : Value F
    pub method : String
    pub params : Value F
    pub result : Value F
    pub error : Option RpcError

  pub record Request : Type 0 where
    pub jsonrpc : String
    pub id : Value F
    pub method : String
    pub params : Value F

  pub record Notification : Type 0 where
    pub jsonrpc : String
    pub method : String
    pub params : Value F

  pub record Response : Type 0 where
    pub jsonrpc : String
    pub id : Value F
    pub result : Value F
    pub error : Option RpcError

-- The codes that the SDK sends.
abbrev pub method_not_found : ℤ
method_not_found = negsuc 32600

abbrev pub invalid_params : ℤ
invalid_params = negsuc 32601

abbrev pub internal_error : ℤ
internal_error = negsuc 32602

abbrev pub server_overloaded : ℤ
server_overloaded = negsuc 31999

module _ {F : Type 0} where
  abbrev pub rpc_error : ℤ → String → RpcError F
  rpc_error c m = record { code = c; message = m; details = null }

  unfoldable pub is_request : JsonrpcMessage F → Bool
  is_request msg = not (msg.method == "") && not (is_null msg.id)

  unfoldable pub is_notification : JsonrpcMessage F → Bool
  is_notification msg = not (msg.method == "") && is_null msg.id

  unfoldable pub is_response : JsonrpcMessage F → Bool
  is_response msg = (msg.method == "") && not (is_null msg.id)

  unfoldable pub to_request : JsonrpcMessage F → Option (Request F)
  to_request msg =
      if not (is_request msg)
      then none
      else some
          (record { jsonrpc = msg.jsonrpc; id = msg.id; method = msg.method; params = msg.params })

  unfoldable pub to_notification : JsonrpcMessage F → Option (Notification F)
  to_notification msg =
      if not (is_notification msg)
      then none
      else some (record { jsonrpc = msg.jsonrpc; method = msg.method; params = msg.params })

  unfoldable pub to_response : JsonrpcMessage F → Option (Response F)
  to_response msg =
      if not (is_response msg)
      then none
      else some
          (record { jsonrpc = msg.jsonrpc; id = msg.id; result = msg.result; error = msg.error })
