-- ===== src/Prelude/Tables.antt =====
-- Python's `dict` with keys of any type that `==` compares, in insertion order.
use mathlib.Core.Path.{◌≡◌, refl}
use mathlib.Core.Option.{Option, none, some}
use mathlib.Core.List.{List, [], ◌∷◌}
use native.Mathlib.Omega.{arith}
use openai_model_router.Prelude.Tests.{Eq, ◌==◌, if◌then◌else◌}

abbrev pub Table {κ ℓ} : Type κ → Type ℓ → Type (κ ⊔ ℓ)
Table K V = List (K × V)

module _ {κ ℓ} {K : Type κ} {V : Type ℓ} ⦃e : Eq K⦄ where
  -- `d.get(key)`
  unfoldable pub find : K → Table K V → Option V
  find key [] = none
  find key ((k, v) ∷ d) = if k == key then some v else find key d

  -- `d[key] = value`
  unfoldable pub put : K → V → Table K V → Table K V
  put key value [] = (key, value) ∷ []
  put key value ((k, v) ∷ d) = if k == key then (key, value) ∷ d else (k, v) ∷ put key value d

  pub find-put :
      (key j : K) (v : V) (d : Table K V)
      → find j (put key v d) ≡ (if key == j then some v else find j d)
  unfolding find put
  find-put key j v [] = refl
  find-put key j v ((k, w) ∷ d) =
      ground (arith, e.same_iff key j, e.same_iff k key, e.same_iff k j, find-put key j v d)
