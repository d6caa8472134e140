-- ===== src/Health/Readiness/Ready.antt =====
-- When the three checks of readiness answer that the service is ready.
use openai_model_router.Prelude.{
  ℕ, ◌<◌, ◌≤◌, ◌≡◌, ◌↔◌, refl, sym, subst, String, Option, none, some, List, [], ◌∷◌, ◌++◌, Bool,
  true, false, string_eq, is_some, In, here, there, lookup, Bool-cases, inl, inr, arith, sort_by-In,
  In-unique,
}
use openai_model_router.Contracts.{health_eq, access_eq, EnvironmentSnapshot}
use openai_model_router.Health.{HealthConfig, HealthObservation, HealthSnapshot}
use openai_model_router.Health.Service.{is_available}
use openai_model_router.Health.Readiness.Latest.{IsLatest, by_component-IsLatest}
use openai_model_router.Health.Readiness.{
  conclude_ready, by_component, component_blockers, dependency_blockers, assess_dependencies,
  block_if, is_stale_evidence, sorted_set, text_le,
}

pub conclude_ready-ready :
    (blockers : List String) (degraded : Bool)
    → ((conclude_ready blockers degraded).ready ≡ true) ↔ (blockers ≡ [])
unfolding conclude_ready
conclude_ready-ready [] degraded = (λ h. refl, λ h. refl)
conclude_ready-ready (b ∷ bs) degraded = (λ h. absurd (ground arith), λ h. cc)

conclude_ready-blockers :
    (blockers : List String) (degraded : Bool)
    → ((conclude_ready blockers degraded).blockers ≡ []) ↔ (blockers ≡ [])
unfolding conclude_ready sorted_set
conclude_ready-blockers [] degraded = (λ h. refl, λ h. refl)
conclude_ready-blockers (b ∷ bs) degraded = (
  λ h. absurd (
      nowhere
        (subst (λ xs. In b xs) h (sort_by-In text_le b _ (In-unique b (b ∷ bs) (here refl))))),
  λ h. cc,
)
  where
    nowhere : In b [] → ⊥
    nowhere m = elim m [ ]

pub append-empty : (xs ys : List String) → (xs ++ ys ≡ []) ↔ ((xs ≡ []) × (ys ≡ []))
append-empty [] ys = (λ h. (refl, h), λ h. h.1)
append-empty (x ∷ xs) ys = (λ h. cc, λ h. cc)

pub block_if-empty : (b : Bool) (code : String) → (block_if b code ≡ []) ↔ (b ≡ false)
unfolding block_if
block_if-empty true code = (λ h. cc, λ h. cc)
block_if-empty false code = (λ h. refl, λ h. refl)

-- The last observation of the component, without a model or a capability, is available.
pub record IsCovered (health : HealthSnapshot) (component : String) : Type 0 where
  pub item : HealthObservation
  pub latest : IsLatest component health.observations item
  pub available : is_available item ≡ true

component_blockers-empty :
    (component : String) (o : Option HealthObservation)
    → (component_blockers component o ≡ [])
      ↔ ((item : HealthObservation) × (o ≡ some item) × (is_available item ≡ true))
unfolding component_blockers
component_blockers-empty component none = (λ h. cc, λ h. cc)
component_blockers-empty component (some o) = elim (Bool-cases (is_available o)) [
  | inl q ↦ rw q (λ h. (o, refl, q), λ h. refl)
  | inr q ↦ rw q (λ h. cc, λ h. cc)
]

dependency_blockers-empty :
    (health : HealthSnapshot) (components : List String)
    → (dependency_blockers (by_component [] health.observations) components ≡ [])
      ↔ ((component : String) → In component components → IsCovered health component)
unfolding dependency_blockers
dependency_blockers-empty health [] = (λ h c m. elim m [ ], λ h. refl)
dependency_blockers-empty health (x ∷ xs) =
    let items = by_component [] health.observations in
    let (split, join) =
      append-empty (component_blockers x (lookup x items)) (dependency_blockers items xs) in
    (
      λ h c m. forward (dependency_blockers-empty health xs).0 (split h) c m,
      λ h. join (
        (component_blockers-empty x _).1 (
            let f = h x (here refl) in
            (f.item, (by_component-IsLatest x health.observations f.item).1 f.latest, f.available)),
        (dependency_blockers-empty health xs).1 (λ c m. h c (there m)),
      ),
    )
  where
    forward :
        ((dependency_blockers (by_component [] health.observations) xs ≡ [])
          → (c : String) → In c xs
          → IsCovered health c)
        → ((component_blockers x (lookup x (by_component [] health.observations)) ≡ [])
            × (dependency_blockers (by_component [] health.observations) xs ≡ []))
        → (c : String) → In c (x ∷ xs)
        → IsCovered health c
    forward rec h c (here p) =
        let found = (component_blockers-empty x _).0 h.0 in
        subst (λ y. IsCovered health y) (sym p)
          (record {
            item = found.0;
            latest = (by_component-IsLatest x health.observations found.0).0 found.1;
            available = found.2;
          })
    forward rec h c (there m) = rec h.1 c m

-- Every required component is covered.
abbrev pub AllCovered : HealthConfig → HealthSnapshot → Type 0
AllCovered config health =
    (component : String) → In component config.required_components → IsCovered health component

pub assess-AllCovered :
    (config : HealthConfig) (health : HealthSnapshot)
    → ((assess_dependencies config health).blockers ≡ []) ↔ AllCovered config health
unfolding assess_dependencies
assess-AllCovered config health =
    let first =
      conclude_ready-blockers
        (dependency_blockers (by_component [] health.observations) config.required_components) _ in
    let second = dependency_blockers-empty health config.required_components in
    (λ h. second.0 (first.0 h), λ h. first.1 (second.1 h))

-- The health evidence of the environment is complete, not from the future and not expired.
pub record IsFreshEvidence (now : ℕ) (environment : EnvironmentSnapshot) : Type 0 where
  pub identified : is_some environment.health_snapshot_id ≡ true
  pub observed : (stamp : ℕ) × (environment.health_observed_at ≡ some stamp) × (stamp ≤ now)
  pub valid : (stamp : ℕ) × (environment.health_valid_until ≡ some stamp) × (now < stamp)

pub is_stale_evidence-false :
    (now : ℕ) (environment : EnvironmentSnapshot)
    → (is_stale_evidence now environment ≡ false) ↔ IsFreshEvidence now environment
unfolding is_stale_evidence
is_stale_evidence-false now environment = (
  λ h. record { identified = ground arith; observed = ground arith; valid = ground arith },
  λ f. ground (arith, f.identified, f.observed, f.valid),
)
