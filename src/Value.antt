-- ===== src/Value.antt =====
-- The dynamic values that Go code passes as `interface{}`: what encoding/json decodes a text to,
-- and the numbers that Go code makes itself. `F` stands for float64, which the model takes as a
-- parameter. An int or int64 is its bit pattern, a number below 2 ^ 64.
pub mod Entries
pub mod MapKey
pub mod Reparsing
use mcp_go_sdk.Prelude.{ℕ, ◌^◌, Bool, true, false, String, Option, none, some}
use mcp_go_sdk.Prelude.{if◌then◌else◌, ◌==◌, string_Key}

abbrev pub int64_mod : ℕ
int64_mod = 2 ^ 64

mutual
  pub data Value (F : Type 0) : Type 0 where
    null : Value F
    boolean : Bool → Value F
    int : ℕ → Value F
    int64 : ℕ → Value F
    float64 : F → Value F
    str : String → Value F
    arr : Items F → Value F
    obj : Fields F → Value F

  pub data Items (F : Type 0) : Type 0 where
    nil : Items F
    cons : Value F → Items F → Items F

  pub data Fields (F : Type 0) : Type 0 where
    end : Fields F
    field : String → Value F → Fields F → Fields F

module _ {F : Type 0} where
  -- `v == nil`
  abbrev pub is_null : Value F → Bool
  is_null null = true
  is_null _ = false

  -- A slice or a map as the key of a map is a run-time panic in Go.
  abbrev pub is_hashable : Value F → Bool
  is_hashable (arr xs) = false
  is_hashable (obj m) = false
  is_hashable _ = true

  -- The assertion `v.(string)`
  abbrev pub as_string : Value F → Option String
  as_string (str s) = some s
  as_string _ = none

  -- `m[k]` on a `map[string]interface{}`
  unfoldable pub get : String → Fields F → Option (Value F)
  get k end = none
  get k (field j v m) = if j == k then some v else get k m

  -- `m[k] = v` on a copy of the map
  unfoldable pub put : String → Value F → Fields F → Fields F
  put k v end = field k v end
  put k v (field j w m) = if j == k then field k v m else field j w (put k v m)
