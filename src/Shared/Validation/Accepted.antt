-- ===== src/Shared/Validation/Accepted.antt =====
-- shared/validation.go: which messages are valid, and that routed messages are.
use mcp_go_sdk.Prelude.{true, false, not, ◌&&◌, ◌≡◌, ◌≢◌, ◌↔◌, some, [], string_Key, arith, is_some}
use mcp_go_sdk.Value.{is_null}
use mcp_go_sdk.Shared.Message.{JsonrpcMessage, Request, Response, is_request, to_request}
use mcp_go_sdk.Shared.Validation.{
  error_if, check_jsonrpc, check_method, check_id, validate_request, validate_response,
}

module _ {F : Type 0} where
  -- A request has no errors exactly if its version is "2.0", its method is not empty and its id is
  -- not null.
  pub validate_request_iff :
      (r : Request F)
      → (validate_request r ≡ []) ↔ ((r.jsonrpc ≡ "2.0") × (r.method ≢ "") × (is_null r.id ≡ false))
  unfolding validate_request check_jsonrpc check_method check_id error_if
  validate_request_iff r = (
    λ e. ground (arith, e, string_Key.same_iff r.jsonrpc "2.0", string_Key.same_iff r.method ""),
    λ v. ground (arith, v, string_Key.same_iff r.jsonrpc "2.0", string_Key.same_iff r.method ""),
  )

  -- A response has no errors exactly if its version is "2.0", its id is not null and it does not
  -- have both a result and an error; that it has one of the two is not asked for.
  pub validate_response_iff :
      (r : Response F)
      → (validate_response r ≡ []) ↔ (
          (r.jsonrpc ≡ "2.0")
          × (is_null r.id ≡ false)
          × ((not (is_null r.result) && is_some r.error) ≡ false))
  unfolding validate_response check_jsonrpc check_id error_if
  validate_response_iff r = (
    λ e. ground (arith, e, string_Key.same_iff r.jsonrpc "2.0"),
    λ v. ground (arith, v, string_Key.same_iff r.jsonrpc "2.0"),
  )

  -- A message of version "2.0" that is routed as a request becomes a valid request.
  pub routed-valid :
      (msg : JsonrpcMessage F)
      → msg.jsonrpc ≡ "2.0"
      → is_request msg ≡ true
      → (r : Request F) × (to_request msg ≡ some r) × (validate_request r ≡ [])
  unfolding is_request to_request validate_request check_jsonrpc check_method check_id error_if
  routed-valid msg version routed = (
    record { jsonrpc = msg.jsonrpc; id = msg.id; method = msg.method; params = msg.params },
    ground arith,
    ground (arith, string_Key.same_iff msg.jsonrpc "2.0"),
  )
