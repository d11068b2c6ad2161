-- ===== src/Prelude/Dict.antt =====
-- Go's `map[K]V` as an association list. Its order stands for the order of a `range` loop, which
-- Go leaves open: nothing below depends on where `insert` puts a new entry.
use mcp_go_sdk.Prelude.Tests.{if◌then◌else◌, Bool-cases}
use mcp_go_sdk.Prelude.Equality.{Key, ◌==◌}
use mcp_go_sdk.Prelude.Lists.{In, here, there}
use mathlib.Core.Path.{◌≡◌, refl}
use mathlib.Core.Logic.{◌≢◌, ◌⊎◌, inl, inr}
use mathlib.Core.Option.{Option, none, some}
use mathlib.Core.List.{List, [], ◌∷◌, map}
use native.Mathlib.Omega.{arith}

abbrev pub Dict {ℓ κ} : Type ℓ → Type κ → Type (ℓ ⊔ κ)
Dict K V = List (K × V)

module _ {ℓ κ} {K : Type ℓ} {V : Type κ} ⦃key : Key K⦄ where
  unfoldable pub erase : K → Dict K V → Dict K V
  erase k [] = []
  erase k ((j, old) ∷ rest) = if j == k then erase k rest else (j, old) ∷ erase k rest

  unfoldable pub insert : K → V → Dict K V → Dict K V
  insert k new [] = (k, new) ∷ []
  insert k new ((j, old) ∷ rest) = if j == k then (k, new) ∷ rest else (j, old) ∷ insert k new rest

  unfoldable pub lookup : K → Dict K V → Option V
  lookup k [] = none
  lookup k ((j, found) ∷ rest) = if j == k then some found else lookup k rest

  abbrev pub values : Dict K V → List V
  values = map (λ p. p.1)

  pub lookup-insert :
      (k j : K) (new : V) (m : Dict K V)
      → lookup j (insert k new m) ≡ (if k == j then some new else lookup j m)
  unfolding lookup insert
  lookup-insert k j new [] = refl
  lookup-insert k j new ((i, old) ∷ rest) =
      ground
        (arith, lookup-insert k j new rest, key.same_iff i j, key.same_iff i k, key.same_iff k j)

  pub lookup-erase :
      (k j : K) (m : Dict K V) → lookup j (erase k m) ≡ (if k == j then none else lookup j m)
  unfolding lookup erase
  lookup-erase k j [] = ground arith
  lookup-erase k j ((i, w) ∷ m) =
      ground (arith, key.same_iff k j, key.same_iff i k, key.same_iff i j, lookup-erase k j m)

  -- No key stands twice.
  abbrev pub Distinct : Dict K V → Type κ
  Distinct [] = Unit
  Distinct ((k, v) ∷ m) = (lookup k m ≡ none) × Distinct m

  pub insert-Distinct : (k : K) (v : V) (m : Dict K V) → Distinct m → Distinct (insert k v m)
  unfolding lookup insert
  insert-Distinct k v [] d = (refl, tt)
  insert-Distinct k v ((j, w) ∷ m) (fresh, d) =
      ground
        (arith, key.same_iff j k, key.same_iff k j, lookup-insert k j v m, insert-Distinct k v m d)

  pub erase-Distinct : (k : K) (m : Dict K V) → Distinct m → Distinct (erase k m)
  unfolding lookup erase
  erase-Distinct k [] d = tt
  erase-Distinct k ((j, w) ∷ m) (fresh, d) =
      ground (arith, lookup-erase k j m, erase-Distinct k m d)

  pub lookup-In : (k : K) (v : V) (m : Dict K V) → lookup k m ≡ some v → In v (values m)
  unfolding lookup
  lookup-In k v [] h = cc
  lookup-In k v ((j, w) ∷ m) h = elim (Bool-cases (j == k)) [
    | inl hit ↦ here (ground arith)
    | inr miss ↦ there (lookup-In k v m (ground arith))
  ]

  pub lookup-insert_self : (k : K) (v : V) (m : Dict K V) → lookup k (insert k v m) ≡ some v
  lookup-insert_self k v m = ground (arith, lookup-insert k k v m, key.same_iff k k)

  pub lookup-insert_ne :
      (k j : K) (v : V) (m : Dict K V) → k ≢ j → lookup j (insert k v m) ≡ lookup j m
  lookup-insert_ne k j v m ne = ground (arith, lookup-insert k j v m, key.same_iff k j)

  pub lookup-insert-some :
      (k j : K) (v w : V) (m : Dict K V)
      → lookup j (insert k v m) ≡ some w
      → ((k ≡ j) × (v ≡ w)) ⊎ ((k ≢ j) × (lookup j m ≡ some w))
  lookup-insert-some k j v w m h = ground (arith, lookup-insert k j v m, key.same_iff k j)

  pub lookup-erase_self : (k : K) (m : Dict K V) → lookup k (erase k m) ≡ none
  lookup-erase_self k m = ground (arith, lookup-erase k k m, key.same_iff k k)

  pub lookup-erase_ne : (k j : K) (m : Dict K V) → k ≢ j → lookup j (erase k m) ≡ lookup j m
  lookup-erase_ne k j m ne = ground (arith, lookup-erase k j m, key.same_iff k j)

  pub lookup-erase-some :
      (k j : K) (w : V) (m : Dict K V)
      → lookup j (erase k m) ≡ some w
      → (k ≢ j) × (lookup j m ≡ some w)
  lookup-erase-some k j w m h = (
    λ same. ground (arith, lookup-erase k j m, key.same_iff k j),
    ground (arith, lookup-erase k j m),
  )

  pub erase_fresh : (k : K) (m : Dict K V) → lookup k m ≡ none → erase k m ≡ m
  unfolding lookup erase
  erase_fresh k [] h = refl
  erase_fresh k ((j, w) ∷ m) h = ground (arith, erase_fresh k m)

  pub lookup_first : (k : K) (v : V) (m : Dict K V) → lookup k ((k, v) ∷ m) ≡ some v
  unfolding lookup
  lookup_first k v m = ground (arith, key.same_iff k k)

  pub erase_first : (k : K) (v : V) (m : Dict K V) → lookup k m ≡ none → erase k ((k, v) ∷ m) ≡ m
  unfolding erase
  erase_first k v m fresh = ground (arith, key.same_iff k k, erase_fresh k m fresh)

  -- Without double keys every value can be looked up.
  pub In-lookup :
      (v : V) (m : Dict K V) → Distinct m → In v (values m) → (k : K) × (lookup k m ≡ some v)
  unfolding lookup
  In-lookup v [] d h = elim h [ ]
  In-lookup v ((k, w) ∷ m) (fresh, d) (here e) = (k, ground (arith, key.same_iff k k))
  In-lookup v ((k, w) ∷ m) (fresh, d) (there h) =
      let (j, found) = In-lookup v m d h in (j, ground (arith, key.same_iff k j))
