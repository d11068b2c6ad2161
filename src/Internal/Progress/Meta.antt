-- ===== src/Internal/Progress/Meta.antt =====
-- internal/progress_handler.go: what addProgressToken makes of the params of a request, as the
-- server that receives them reads it.
use mcp_go_sdk.Prelude.{ℕ, ◌≡◌, refl, ◌≢◌, String, Option, none, some, false, string_Key, arith}
use mcp_go_sdk.Prelude.Dict.{lookup}
use mcp_go_sdk.Value.{
  Value, Fields, null, boolean, int, int64, float64, str, arr, obj, get, put, is_null,
}
use mcp_go_sdk.Value.Entries.{get-put_self, get-put_ne}
use mcp_go_sdk.Value.Reparsing.{reparse, reparse_fields, get-reparse_fields}
use mcp_go_sdk.Server.{Server, ToolHandler, content}
use mcp_go_sdk.Server.Handlers.{
  Params, progress_token, reply_of, unmarshal_params, handle_tools_call,
}
use mcp_go_sdk.Internal.Progress.{add_progress_token, meta_with, token_meta}

module _ {F : Type 0} where
  -- `params[key]`, where the params are a map
  abbrev pub entry : String → Value F → Option (Value F)
  entry key (obj m) = get key m
  entry key _ = none

  abbrev pub fields_of : Option (Value F) → Option (Fields F)
  fields_of (some (obj m)) = some m
  fields_of _ = none

  abbrev pub entry_of : String → Option (Value F) → Option (Value F)
  entry_of key none = none
  entry_of key (some v) = entry key v

  module _ (of_int : ℕ → F) where
    progress_token_float :
        (x : F) (meta : Fields F)
        → get "progressToken" meta ≡ some (float64 x)
        → progress_token (some meta) ≡ some (float64 x)
    progress_token_float x meta found = rw (progress_token, found) refl

    abbrev token_read : ℕ → Option (Value F)
    token_read token = some (float64 (of_int token))

    meta_with-progress_token :
        (token : ℕ) (old : Option (Value F))
        → progress_token (fields_of (some (reparse of_int (meta_with token old))))
          ≡ token_read token
    unfolding meta_with token_meta get reparse
    meta_with-progress_token token none = refl
    meta_with-progress_token token (some (obj m)) =
        let meta = put "progressToken" (int64 token) m in
        progress_token_float (of_int token) (reparse_fields of_int meta) (
          get-reparse_fields of_int "progressToken" (int64 token) meta
            (get-put_self "progressToken" (int64 token) m))
    meta_with-progress_token token (some null) = refl
    meta_with-progress_token token (some (boolean b)) = refl
    meta_with-progress_token token (some (int n)) = refl
    meta_with-progress_token token (some (int64 n)) = refl
    meta_with-progress_token token (some (float64 x)) = refl
    meta_with-progress_token token (some (str s)) = refl
    meta_with-progress_token token (some (arr xs)) = refl

    -- The params that the server decodes are a map whose `_meta` has the token as a float64.
    add_progress_token-progress_token :
        (params : Value F) (token : ℕ)
        → let sent = reparse of_int (add_progress_token params token) in
          (progress_token (fields_of (entry "_meta" sent)) ≡ token_read token)
          × (is_null sent ≡ false)
    unfolding add_progress_token token_meta get reparse
    add_progress_token-progress_token null token = (refl, refl)
    add_progress_token-progress_token (obj m) token =
        let old = get "_meta" m in
        (
          rw
              (get-reparse_fields of_int "_meta" (meta_with token old)
                (put "_meta" (meta_with token old) m)
                (get-put_self "_meta" (meta_with token old) m))
              (meta_with-progress_token token old),
          refl,
        )
    add_progress_token-progress_token (boolean b) token = (refl, refl)
    add_progress_token-progress_token (int n) token = (refl, refl)
    add_progress_token-progress_token (int64 n) token = (refl, refl)
    add_progress_token-progress_token (float64 x) token = (refl, refl)
    add_progress_token-progress_token (str s) token = (refl, refl)
    add_progress_token-progress_token (arr xs) token = (refl, refl)

    -- Whatever the params of a tools/call are to which the client adds a progress token, the server
    -- runs the tool with that token as a float64, the form in which encoding/json gives a number
    -- back. For params that, as they are sent, decode to a name that the server has, to arguments
    -- and to the entry `_meta`.
    pub handle_tools_call-add_progress_token :
        (codec : Params F) (params : Value F) (token : ℕ) (name : String) (arguments : Fields F)
        (handler : ToolHandler F) (s : Server F)
        → let sent = reparse of_int (add_progress_token params token) in
          codec.call_params sent
            ≡ some (record {
              name = name;
              arguments = arguments;
              meta = fields_of (entry "_meta" sent);
            })
          → lookup name s.tool_table.handlers ≡ some handler
          → handle_tools_call codec sent s
            ≡ reply_of content
                (handler (record { progress_token = some (float64 (of_int token)) }) name arguments)
    unfolding handle_tools_call unmarshal_params
    handle_tools_call-add_progress_token codec params token name arguments handler s decoded found =
        let (read, present) = add_progress_token-progress_token params token in
        rw (handle_tools_call, present, decoded, found, read) refl

  token_meta-none :
      (token : ℕ) (other : String) → "progressToken" ≢ other → entry other (token_meta token) ≡ none
  unfolding token_meta get
  token_meta-none token other ne = ground (arith, string_Key.same_iff "progressToken" other)

  meta_with-kept :
      (token : ℕ) (other : String) (old : Option (Value F))
      → "progressToken" ≢ other
      → entry other (meta_with token old) ≡ entry_of other old
  unfolding meta_with
  meta_with-kept token other none ne = token_meta-none token other ne
  meta_with-kept token other (some (obj m)) ne = get-put_ne "progressToken" other (int64 token) m ne
  meta_with-kept token other (some null) ne = token_meta-none token other ne
  meta_with-kept token other (some (boolean b)) ne = token_meta-none token other ne
  meta_with-kept token other (some (int n)) ne = token_meta-none token other ne
  meta_with-kept token other (some (int64 n)) ne = token_meta-none token other ne
  meta_with-kept token other (some (float64 x)) ne = token_meta-none token other ne
  meta_with-kept token other (some (str s)) ne = token_meta-none token other ne
  meta_with-kept token other (some (arr xs)) ne = token_meta-none token other ne

  -- Where the params are a map, every entry but `_meta` stays, and so does every entry of `_meta`
  -- but the token.
  pub add_progress_token-kept :
      (m : Fields F) (token : ℕ) (key other : String)
      → "_meta" ≢ key
      → "progressToken" ≢ other
      → (entry key (add_progress_token (obj m) token) ≡ get key m)
        × (entry_of other (entry "_meta" (add_progress_token (obj m) token))
            ≡ entry_of other (get "_meta" m))
  unfolding add_progress_token
  add_progress_token-kept m token key other k o = (
    get-put_ne "_meta" key (meta_with token (get "_meta" m)) m k,
    rw (get-put_self "_meta" (meta_with token (get "_meta" m)) m)
        (meta_with-kept token other (get "_meta" m) o),
  )
