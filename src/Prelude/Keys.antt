-- ===== src/Prelude/Keys.antt =====
-- Dictionaries without a repeated key, as Python's are.
use Prim.Native.String.{String}
use mathlib.Core.Path.{◌≡◌, refl, sym, ap, subst, ◌∙◌}
use mathlib.Core.Logic.{inl, inr}
use mathlib.Core.Bool.{true}
use mathlib.Core.Option.{none, some}
use mathlib.Core.List.{[], ◌∷◌}
use openai_model_router.Prelude.Tests.{◌==◌, string_eq, Bool-cases, beq→eq, beq_self, beq_comm}
use openai_model_router.Prelude.Lists.{In, here, there}
use openai_model_router.Prelude.Dicts.{Dict, lookup, insert, lookup-insert}

module _ {V : Type 0} where
  -- No key stands twice.
  pub data HasDistinctKeys : Dict V → Type 0 where
    no_keys : HasDistinctKeys []
    new_key :
        {k : String} {v : V} {d : Dict V}
        → lookup k d ≡ none
        → HasDistinctKeys d
        → HasDistinctKeys ((k, v) ∷ d)

  pub HasDistinctKeys-insert :
      (key : String) (v : V) (d : Dict V) → HasDistinctKeys d → HasDistinctKeys (insert key v d)
  unfolding insert lookup
  HasDistinctKeys-insert key v _ no_keys = new_key refl no_keys
  HasDistinctKeys-insert key v ((k, w) ∷ d) (new_key f h) = elim (Bool-cases (k == key)) [
    | inl q ↦ rw q (new_key (subst (λ x. lookup x d ≡ none) (beq→eq k key q) f) h)
    | inr q ↦ rw q (
        new_key (lookup-insert key k v d ∙ rw (beq_comm key k ∙ q) f)
          (HasDistinctKeys-insert key v d h))
  ]

  In-some : (key : String) (v : V) (d : Dict V) → In (key, v) d → lookup key d ≡ none → ⊥
  unfolding lookup
  In-some key v [] m h = elim m [ ]
  In-some key v ((k, w) ∷ d) (here p) h =
      let same : (k == key) ≡ true = ap (λ x. x == key) (sym (ap (λ x. x.0) p)) ∙ beq_self key in
      let found : some w ≡ none = rw same at h in cc
  In-some key v ((k, w) ∷ d) (there m) h = elim (Bool-cases (k == key)) [
    | inl q ↦ let found : some w ≡ none = rw q at h in cc
    | inr q ↦ In-some key v d m (rw q at h)
  ]

  -- An entry is what its key finds.
  pub In-lookup :
      (key : String) (v : V) (d : Dict V)
      → HasDistinctKeys d
      → In (key, v) d
      → lookup key d ≡ some v
  unfolding lookup
  In-lookup key v _ no_keys m = elim m [ ]
  In-lookup key v ((k, w) ∷ d) (new_key f h) (here p) =
      let same : (k == key) ≡ true = ap (λ x. x == key) (sym (ap (λ x. x.0) p)) ∙ beq_self key in
      rw same (ap some (sym (ap (λ x. x.1) p)))
  In-lookup key v ((k, w) ∷ d) (new_key f h) (there m) = elim (Bool-cases (k == key)) [
    | inl q ↦ absurd (In-some key v d m (subst (λ x. lookup x d ≡ none) (beq→eq k key q) f))
    | inr q ↦ rw q (In-lookup key v d h m)
  ]
