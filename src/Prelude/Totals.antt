-- ===== src/Prelude/Totals.antt =====
-- Sums over the values of a dictionary.
use Prim.Native.Nat.{ℕ, ◌+◌}
use Prim.Native.String.{String}
use mathlib.Core.Path.{◌≡◌}
use mathlib.Core.Logic.{inl, inr}
use mathlib.Core.Option.{none, some}
use mathlib.Core.List.{[], ◌∷◌, map}
use native.Mathlib.Omega.{arith}
use openai_model_router.Prelude.Tests.{◌==◌, string_eq, Bool-cases, some-injective}
use openai_model_router.Prelude.Lists.{sum}
use openai_model_router.Prelude.Dicts.{Dict, lookup, insert, values}

module _ {V : Type 0} (f : V → ℕ) where
  pub sum-insert_new :
      (key : String) (v : V) (d : Dict V)
      → lookup key d ≡ none
      → sum (map f (values (insert key v d))) ≡ sum (map f (values d)) + f v
  unfolding lookup insert sum
  sum-insert_new key v [] h = omega arith
  sum-insert_new key v ((k, w) ∷ d) h = elim (Bool-cases (k == key)) [
    | inl q ↦ absurd (ground arith)
    | inr q ↦ rw q (omega (arith, sum-insert_new key v d (rw q at h)))
  ]

  pub sum-insert_old :
      (key : String) (v old : V) (d : Dict V)
      → lookup key d ≡ some old
      → sum (map f (values (insert key v d))) + f old ≡ sum (map f (values d)) + f v
  unfolding lookup insert sum
  sum-insert_old key v old [] h = absurd (ground arith)
  sum-insert_old key v old ((k, w) ∷ d) h = elim (Bool-cases (k == key)) [
    | inl q ↦
        let kept : some w ≡ some old = rw q at h in
        let same : w ≡ old = some-injective kept in
        let weights : f w ≡ f old = cc in rw q (omega (arith, weights))
    | inr q ↦ rw q (omega (arith, sum-insert_old key v old d (rw q at h)))
  ]
