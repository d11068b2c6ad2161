-- ===== src/Value/Reparsing.antt =====
-- What encoding/json makes of a value that it writes and reads back into an `interface{}`: every
-- number is a float64 then. `of_int` is the float64 of an int64, given by its bit pattern. Texts are
-- valid UTF-8, which encoding/json keeps.
use mcp_go_sdk.Prelude.{ℕ, ◌≡◌, some, String, string_Key, arith}
use mcp_go_sdk.Value.{
  Value, null, boolean, int, int64, float64, str, arr, obj, Items, nil, cons, Fields, end, field,
  get,
}

module _ {F : Type 0} (of_int : ℕ → F) where
  unfoldable mutual
    pub reparse : Value F → Value F
    reparse null = null
    reparse (boolean b) = boolean b
    reparse (int n) = float64 (of_int n)
    reparse (int64 n) = float64 (of_int n)
    reparse (float64 x) = float64 x
    reparse (str s) = str s
    reparse (arr items) = arr (reparse_items items)
    reparse (obj m) = obj (reparse_fields m)

    pub reparse_items : Items F → Items F
    reparse_items nil = nil
    reparse_items (cons v rest) = cons (reparse v) (reparse_items rest)

    pub reparse_fields : Fields F → Fields F
    reparse_fields end = end
    reparse_fields (field k v m) = field k (reparse v) (reparse_fields m)

  pub get-reparse_fields :
      (k : String) (v : Value F) (m : Fields F)
      → get k m ≡ some v
      → get k (reparse_fields m) ≡ some (reparse v)
  unfolding get reparse_fields
  get-reparse_fields k v end found = ground arith
  get-reparse_fields k v (field j w m) found =
      ground (arith, get-reparse_fields k v m, string_Key.same_iff j k)
