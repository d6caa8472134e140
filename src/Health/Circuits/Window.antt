-- ===== src/Health/Circuits/Window.antt =====
-- The failures that a circuit keeps are those of the window.
use openai_model_router.Prelude.{
  ℕ, ◌+◌, ◌≤◌, ◌≡◌, refl, ap, some, List, [], ◌∷◌, true, false, not, length, select, ltb,
  Bool-cases, inl, inr, arith, All,
}
use openai_model_router.Health.{HealthConfig}
use openai_model_router.Health.Circuits.{Circuit, is_old, drop_old, prune, failure_count}

-- Each stamp is at most the later ones, as a clock that never goes back leaves them.
pub data IsOrdered : List ℕ → Type 0 where
  nothing : IsOrdered []
  before : {x : ℕ} {xs : List ℕ} → All (λ y. x ≤ y) xs → IsOrdered xs → IsOrdered (x ∷ xs)

select-recent :
    (window now x : ℕ) (xs : List ℕ)
    → is_old window now x ≡ false
    → All (λ y. x ≤ y) xs
    → select (λ stamp. not (is_old window now stamp)) xs ≡ xs
unfolding select is_old
select-recent window now x [] h all = refl
select-recent window now x (y ∷ ys) h all =
    let recent : not (ltb (y + window) now) ≡ true = ground (arith, all.0) in
    rw recent (ap (λ zs. y ∷ zs) (select-recent window now x ys h all.1))

select-drop_old :
    (window now : ℕ) (xs : List ℕ)
    → IsOrdered xs
    → select (λ stamp. not (is_old window now stamp)) xs ≡ drop_old window now xs
unfolding select drop_old
select-drop_old window now _ nothing = refl
select-drop_old window now (x ∷ xs) (before all o) = elim (Bool-cases (is_old window now x)) [
  | inl q ↦ rw q (select-drop_old window now xs o)
  | inr q ↦ rw q (ap (λ zs. x ∷ zs) (select-recent window now x xs q all))
]

select-later :
    (window now later : ℕ) (xs : List ℕ)
    → now ≤ later
    → select (λ stamp. not (is_old window later stamp)) (drop_old window now xs)
      ≡ select (λ stamp. not (is_old window later stamp)) xs
unfolding select drop_old is_old
select-later window now later [] h = refl
select-later window now later (x ∷ xs) h = elim (Bool-cases (is_old window now x)) [
  | inl q ↦
      let old : not (ltb (x + window) later) ≡ false = ground arith in
      rw (q, old) (select-later window now later xs h)
  | inr q ↦ rw q refl
]

-- Where the failures were recorded in order, the count of those in the window is the number that
-- stay when `prune` removes old ones from the front. What it removes, no later count counts.
pub failure_count-prune :
    (config : HealthConfig) (now : ℕ) (c : Circuit)
    → IsOrdered c.failures
    → (failure_count config (some c) now ≡ length (prune config now c).failures)
      × ((later : ℕ)
          → now ≤ later
          → failure_count config (some (prune config now c)) later
            ≡ failure_count config (some c) later)
unfolding failure_count prune
failure_count-prune config now c o = (
  ap length (select-drop_old config.failure_window_ms now c.failures o),
  λ later h. ap length (select-later config.failure_window_ms now later c.failures h),
)
