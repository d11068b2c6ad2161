-- ===== src/Prelude/Equality.antt =====
-- What can be the key of a Go map: a type whose `==` decides equality.
use Prim.Native.Nat.{ℕ}
use Prim.Native.String.{String}
use mathlib.Core.Path.{◌≡◌, refl}
use mathlib.Core.Bool.{Bool, true}
use mathlib.Core.Logic.{◌↔◌}
use native.Mathlib.Omega.{arith}
use text.Mathlib.Text.{◌==◌ as str_eq}
use text.Mathlib.TextEquality.{eq_iff}
use mcp_go_sdk.Prelude.Tests.{nat_eq}

pub record Key {ℓ} (K : Type ℓ) : Type ℓ where
  pub same : K → K → Bool
  pub same_iff : (j k : K) → (same j k ≡ true) ↔ (j ≡ k)

pub nat_eq_iff : (m n : ℕ) → (nat_eq m n ≡ true) ↔ (m ≡ n)
nat_eq_iff m n = (λ h. ground arith, λ h. ground arith)

instance abbrev pub string_Key : Key String
string_Key = record { same = str_eq; same_iff = eq_iff }

instance abbrev pub nat_Key : Key ℕ
nat_Key = record { same = nat_eq; same_iff = nat_eq_iff }

module _ {ℓ} {K : Type ℓ} ⦃key : Key K⦄ where
  infix 50 ◌==◌
  abbrev pub ◌==◌ : K → K → Bool
  j == k = key.same j k

  pub ==_self : (k : K) → (k == k) ≡ true
  ==_self k = (key.same_iff k k).1 refl

  pub eq_of_== : (j k : K) → (j == k) ≡ true → j ≡ k
  eq_of_== j k h = (key.same_iff j k).0 h
