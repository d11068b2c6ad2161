-- ===== src/Shared/Validation.antt =====
-- shared/validation.go: Validate of requests, notifications and responses. No errors are the empty
-- list, Go's nil.
pub mod Accepted
use mcp_go_sdk.Prelude.{
  Bool, true, false, not, ◌&&◌, Option, none, some, List, [], ◌∷◌, ◌++◌, String, string_Key, ◌==◌,
  if◌then◌else◌, is_some,
}
use mcp_go_sdk.Value.{Value, null, str, is_null}
use mcp_go_sdk.Shared.Message.{Request, Notification, Response}

pub record ValidationError (F : Type 0) : Type 0 where
  pub field : String
  pub message : String
  pub found : Value F

module _ {F : Type 0} where
  -- `if test { errors = append(errors, …) }`
  unfoldable pub error_if : Bool → ValidationError F → List (ValidationError F)
  error_if test e = if test then e ∷ [] else []

  unfoldable pub check_jsonrpc : String → List (ValidationError F)
  unfolding error_if
  check_jsonrpc version =
      error_if (not (version == "2.0"))
        (record { field = "jsonrpc"; message = "must be '2.0'"; found = str version })

  unfoldable pub check_method : String → List (ValidationError F)
  unfolding error_if
  check_method method =
      error_if (method == "")
        (record { field = "method"; message = "method is required"; found = str method })

  unfoldable pub check_id : String → Value F → List (ValidationError F)
  unfolding error_if
  check_id message id =
      error_if (is_null id) (record { field = "id"; message = message; found = id })

  unfoldable pub validate_request : Request F → List (ValidationError F)
  unfolding check_jsonrpc check_method check_id
  validate_request r =
      check_jsonrpc r.jsonrpc
      ++ check_method r.method
      ++ check_id "id is required for requests" r.id

  unfoldable pub validate_notification : Notification F → List (ValidationError F)
  unfolding check_jsonrpc check_method
  validate_notification n = check_jsonrpc n.jsonrpc ++ check_method n.method

  unfoldable pub validate_response : Response F → List (ValidationError F)
  unfolding check_jsonrpc check_id error_if
  validate_response r =
      check_jsonrpc r.jsonrpc
      ++ check_id "id is required for responses" r.id
      ++ error_if (not (is_null r.result) && is_some r.error) (record {
        field = "result/error";
        message = "response cannot have both result and error";
        found = null;
      })
