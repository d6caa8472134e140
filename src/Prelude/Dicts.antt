-- ===== src/Prelude/Dicts.antt =====
-- Python's `dict` with string keys, as an association list in insertion order.
use Prim.Native.String.{String}
use mathlib.Core.Path.{◌≡◌, refl}
use mathlib.Core.Option.{Option, none, some}
use mathlib.Core.List.{List, [], ◌∷◌, map}
use native.Mathlib.Omega.{arith}
use text.Mathlib.TextEquality.{eq_iff}
use openai_model_router.Prelude.Tests.{◌==◌, if◌then◌else◌, string_eq}

abbrev pub Dict {ℓ} : Type ℓ → Type ℓ
Dict V = List (String × V)

module _ {ℓ} {V : Type ℓ} where
  -- `d.get(key)`
  unfoldable pub lookup : String → Dict V → Option V
  lookup key [] = none
  lookup key ((k, v) ∷ d) = if k == key then some v else lookup key d

  -- `d[key] = value`: a present key keeps its position.
  unfoldable pub insert : String → V → Dict V → Dict V
  insert key value [] = (key, value) ∷ []
  insert key value ((k, v) ∷ d) = if k == key then (key, value) ∷ d else (k, v) ∷ insert key value d

  abbrev pub keys : Dict V → List String
  keys d = map (λ p. p.0) d

  abbrev pub values : Dict V → List V
  values d = map (λ p. p.1) d

  pub lookup-insert :
      (key j : String) (v : V) (d : Dict V)
      → lookup j (insert key v d) ≡ (if key == j then some v else lookup j d)
  unfolding lookup insert
  lookup-insert key j v [] = refl
  lookup-insert key j v ((k, w) ∷ d) =
      ground (arith, eq_iff key j, eq_iff k key, eq_iff k j, lookup-insert key j v d)
