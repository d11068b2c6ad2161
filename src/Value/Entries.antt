-- ===== src/Value/Entries.antt =====
-- The entries of a `map[string]interface{}` after an assignment.
use mcp_go_sdk.Prelude.{◌≡◌, ◌≢◌, String, some, string_Key, arith}
use mcp_go_sdk.Value.{Value, Fields, end, field, get, put}

module _ {F : Type 0} where
  pub get-put_self : (k : String) (v : Value F) (m : Fields F) → get k (put k v m) ≡ some v
  unfolding get put
  get-put_self k v end = ground (arith, string_Key.same_iff k k)
  get-put_self k v (field j w m) = ground (arith, string_Key.same_iff k k, get-put_self k v m)

  pub get-put_ne : (k j : String) (v : Value F) (m : Fields F) → k ≢ j → get j (put k v m) ≡ get j m
  unfolding get put
  get-put_ne k j v end ne = ground (arith, string_Key.same_iff k j)
  get-put_ne k j v (field i w m) ne = ground (
    arith,
    string_Key.same_iff k j,
    string_Key.same_iff i k,
    string_Key.same_iff i j,
    get-put_ne k j v m ne,
  )
