-- ===== src/Health/Service/Raises.antt =====
-- When `observe` raises.
use openai_model_router.Prelude.{
  ℕ, ◌≡◌, ◌↔◌, ◌⊎◌, refl, ap, ◌∙◌, String, Option, none, some, Bool, true, false, Bool-cases, inl,
  inr, arith, Raise, ok, raise,
}
use openai_model_router.Contracts.{HealthState}
use openai_model_router.Health.{CircuitState, circuit_eq, Scope, scope_eq, HealthConfig}
use openai_model_router.Health.Circuits.{
  Circuit, Evidence, observe_circuit, take_evidence, prune, is_failure, is_probe_result,
  open_circuit,
}
use openai_model_router.Health.Service.{
  HealthService, circuit_of, observe, observe_checked, observe_health, publish, check_call,
  is_task_outcome, derived_state, reported_state,
}

-- The evidence says nothing: no failure, no success, no state, of a required component.
pub record SaysNothing (e : Evidence) : Type 0 where
  pub failure : e.failure ≡ none
  pub success : e.success ≡ false
  pub state : e.state ≡ none
  pub required : e.required ≡ true

reported_state-none :
    (component : String) (e : Evidence) → reported_state component e ≡ none → SaysNothing e
unfolding reported_state
reported_state-none component e h = record {
  failure = ground arith;
  success = ground arith;
  state = ground arith;
  required = ground arith;
}

derived_state-none :
    (k : CircuitState) (component : String) (e : Evidence)
    → derived_state k component e ≡ none
    → (k ≡ CircuitState.closed) × SaysNothing e
unfolding derived_state
derived_state-none CircuitState.closed component e h = (refl, reported_state-none component e h)
derived_state-none CircuitState.opened component e h = cc
derived_state-none CircuitState.half_open component e h = cc

SaysNothing-reported :
    (component : String) (e : Evidence) → SaysNothing e → reported_state component e ≡ none
unfolding reported_state
SaysNothing-reported component e n = ground (arith, n.failure, n.success, n.state, n.required)

-- Evidence that says nothing keeps a circuit closed that is, and closes no other.
SaysNothing-closed :
    (config : HealthConfig) (component : String) (now : ℕ) (e : Evidence) (c : Circuit)
    → SaysNothing e
    → ((observe_circuit config component now e c).state ≡ CircuitState.closed)
      ↔ (c.state ≡ CircuitState.closed)
unfolding observe_circuit take_evidence prune is_probe_result is_failure open_circuit
SaysNothing-closed config component now e c n = ground (arith, n.failure, n.success, n.state)

-- Whether a call of `observe` raised.
abbrev pub raised {ℓ} : {A : Type ℓ} → Raise A → Bool
raised (raise x) = true
raised (ok a) = false

module _ (now : ℕ) (scope : Scope) (e : Evidence) (s : HealthService) where
  -- The circuit that `observe` leaves.
  after : Circuit
  after = observe_circuit s.config scope.component now e (circuit_of s scope)

  IsSilent : Type 0
  IsSilent = SaysNothing e × ((circuit_of s scope).state ≡ CircuitState.closed)

  publish-raises :
      (o : Option HealthState) (c : Circuit) (t : HealthService)
      → (raised (publish now scope e c o t).0 ≡ true) ↔ (o ≡ none)
  unfolding publish
  publish-raises none c t = (λ h. refl, λ h. refl)
  publish-raises (some state) c t = ground arith

  observe_health-raises : (raised (observe_health now scope e s).0 ≡ true) ↔ IsSilent
  unfolding observe_health after IsSilent derived_state
  observe_health-raises = (
    λ h.
        let (closed, silent) =
          derived_state-none after.state scope.component e ((publish-raises _ _ _).0 h) in
        (silent, (SaysNothing-closed s.config scope.component now e _ silent).0 closed),
    λ h.
        let closed = (SaysNothing-closed s.config scope.component now e _ h.0).1 h.1 in
        (publish-raises _ _ _).1 (
          ap (λ k. derived_state k scope.component e) closed
          ∙ SaysNothing-reported scope.component e h.0),
  )

  -- `observe` raises exactly when its arguments are refused, or when the evidence says nothing of
  -- a required component whose circuit is closed.
  pub observe-raises : (raised (observe now scope e s).0 ≡ true) ↔ (
      (raised (check_call scope e) ≡ true)
      ⊎ (SaysNothing e × ((circuit_of s scope).state ≡ CircuitState.closed)))
  unfolding observe observe_checked IsSilent is_task_outcome
  observe-raises = go (check_call scope e)
    where
      silent : (raised (observe_checked (ok tt) now scope e s).0 ≡ true) ↔ IsSilent
      silent = elim (Bool-cases (is_task_outcome e.failure)) [
        | inl q ↦ rw q (λ p. absurd (ground arith), λ n. absurd (ground (arith, n.0.failure)))
        | inr q ↦ rw q observe_health-raises
      ]

      go :
          (r : Raise (Unit {0}))
          → (raised (observe_checked r now scope e s).0 ≡ true) ↔ ((raised r ≡ true) ⊎ IsSilent)
      go (raise x) = (λ h. inl refl, λ h. refl)
      go (ok u) = (
        λ h. inr (silent.0 h),
        λ h. elim h [ inl q ↦ absurd (ground arith) | inr n ↦ silent.1 n ],
      )
