-- ===== src/Prelude/Choice.antt =====
-- Which of several running goroutines goes on.
use mcp_go_sdk.Prelude.Tests.{Option-cases}
use mcp_go_sdk.Prelude.Lists.{length}
use Prim.Native.Nat.{ℕ, zero, suc, ◌+◌}
use mathlib.Core.Path.{◌≡◌}
use mathlib.Core.Logic.{inl, inr}
use mathlib.Core.Option.{Option, none, some}
use mathlib.Core.List.{List, [], ◌∷◌}
use native.Mathlib.Omega.{arith}

module _ {ℓ} {A : Type ℓ} where
  -- An entry and the list without it.
  unfoldable pub pick : ℕ → List A → Option (A × List A)
  pick i [] = none
  pick zero (x ∷ xs) = some (x, xs)
  pick (suc i) (x ∷ xs) = elim (pick i xs) [ none ↦ none | some (y, ys) ↦ some (y, x ∷ ys) ]

  pub length-pick :
      (i : ℕ) (xs : List A) (q : A × List A) → pick i xs ≡ some q → length xs ≡ length q.1 + 1
  unfolding pick
  length-pick i [] q e = cc
  length-pick zero (x ∷ xs) q e = ground arith
  length-pick (suc i) (x ∷ xs) q e = elim (Option-cases (pick i xs)) [
    | inl missing ↦ ground arith
    | inr (r, found) ↦ ground (arith, length-pick i xs r found)
  ]
