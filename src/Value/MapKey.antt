-- ===== src/Value/MapKey.antt =====
-- The values that can be the key of a `map[interface{}]…`, and Go's `==` on them.
use mcp_go_sdk.Prelude.{
  ℕ, Bool, true, false, Option, none, some, String, ◌≡◌, ◌↔◌, Key, nat_Key, string_Key, ◌==◌, arith,
}
use mcp_go_sdk.Value.{Value, null, boolean, int, int64, float64, str, arr, obj}

pub data MapKey (F : Type 0) : Type 0 where
  nil_id : MapKey F
  bool_id : Bool → MapKey F
  int_id : ℕ → MapKey F
  int64_id : ℕ → MapKey F
  float64_id : F → MapKey F
  text_id : String → MapKey F

-- A slice or a map cannot be a key.
unfoldable pub id_of : {F : Type 0} → Value F → Option (MapKey F)
id_of null = some nil_id
id_of (boolean b) = some (bool_id b)
id_of (int n) = some (int_id n)
id_of (int64 n) = some (int64_id n)
id_of (float64 x) = some (float64_id x)
id_of (str s) = some (text_id s)
id_of (arr xs) = none
id_of (obj m) = none

abbrev pub same_bool : Bool → Bool → Bool
same_bool true true = true
same_bool false false = true
same_bool _ _ = false

module _ {F : Type 0} ⦃key : Key F⦄ where
  abbrev pub same_key : MapKey F → MapKey F → Bool
  same_key nil_id nil_id = true
  same_key (bool_id a) (bool_id b) = same_bool a b
  same_key (int_id a) (int_id b) = a == b
  same_key (int64_id a) (int64_id b) = a == b
  same_key (float64_id a) (float64_id b) = key.same a b
  same_key (text_id a) (text_id b) = a == b
  same_key _ _ = false

  pub same_key_iff : (a b : MapKey F) → (same_key a b ≡ true) ↔ (a ≡ b)
  same_key_iff nil_id b = elim b as (λ k. (same_key nil_id k ≡ true) ↔ (nil_id ≡ k)) [
    | nil_id ↦ ground arith
    | _ ↦ ground arith
  ]
  same_key_iff (bool_id true) b =
      elim b as (λ k. (same_key (bool_id true) k ≡ true) ↔ (bool_id true ≡ k)) [
        | bool_id true ↦ ground arith
        | bool_id false ↦ ground arith
        | _ ↦ ground arith
      ]
  same_key_iff (bool_id false) b =
      elim b as (λ k. (same_key (bool_id false) k ≡ true) ↔ (bool_id false ≡ k)) [
        | bool_id true ↦ ground arith
        | bool_id false ↦ ground arith
        | _ ↦ ground arith
      ]
  same_key_iff (int_id a) b = elim b as (λ k. (same_key (int_id a) k ≡ true) ↔ ((int_id a) ≡ k)) [
    | int_id c ↦ let both = nat_Key.same_iff a c in ground arith
    | _ ↦ ground arith
  ]
  same_key_iff (int64_id a) b =
      elim b as (λ k. (same_key (int64_id a) k ≡ true) ↔ ((int64_id a) ≡ k)) [
        | int64_id c ↦ let both = nat_Key.same_iff a c in ground arith
        | _ ↦ ground arith
      ]
  same_key_iff (float64_id a) b =
      elim b as (λ k. (same_key (float64_id a) k ≡ true) ↔ ((float64_id a) ≡ k)) [
        | float64_id c ↦ let both = key.same_iff a c in ground arith
        | _ ↦ ground arith
      ]
  same_key_iff (text_id a) b =
      elim b as (λ k. (same_key (text_id a) k ≡ true) ↔ ((text_id a) ≡ k)) [
        | text_id c ↦ let both = string_Key.same_iff a c in ground arith
        | _ ↦ ground arith
      ]

instance abbrev pub MapKey_Key : {F : Type 0} ⦃key : Key F⦄ → Key (MapKey F)
MapKey_Key = record { same = same_key; same_iff = same_key_iff }
