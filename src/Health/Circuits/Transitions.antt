-- ===== src/Health/Circuits/Transitions.antt =====
-- When a circuit opens, closes and admits a probe.
use openai_model_router.Prelude.{
  ℕ, suc, ◌+◌, ◌<◌, ◌≤◌, ◌≡◌, ◌↔◌, ◌⊎◌, refl, String, Option, none, some, ◌∷◌, [], ◌++◌, true,
  false, length, is_some, arith,
}
use openai_model_router.Contracts.{FailureType}
use openai_model_router.Health.{CircuitState, circuit_eq, HealthConfig}
use openai_model_router.Health.Circuits.{
  Circuit, Evidence, drop_old, prune, open_circuit, record_failure, is_probe_result, take_pending,
  close_circuit, count_success, trips, note_failure, is_failure, take_evidence, observe_circuit,
  poisons_circuit, is_cooled, half_opened, admit_next, admit_in, admit_pruned, admit_circuit,
}

poisons_circuit-is_some :
    (component : String) (failure : Option FailureType)
    → poisons_circuit component failure ≡ true
    → is_some failure ≡ true
unfolding poisons_circuit
poisons_circuit-is_some component none h = h
poisons_circuit-is_some component (some failure) h = refl

-- With the failure counted, at least `failure_threshold` failures lie in the window.
abbrev pub ReachesThreshold : HealthConfig → ℕ → Circuit → Type 0
ReachesThreshold config now c =
    config.failure_threshold ≤ length (drop_old config.failure_window_ms now c.failures ++ now ∷ [])

-- When an observation leaves a circuit open, and when it leaves it closed. It is open after it
-- exactly when it was, or it was closed and an infrastructure failure reaches the threshold, or it
-- was half-open and a pending probe did not succeed. It is closed after it exactly when it was and
-- no infrastructure failure reaches the threshold, or it was half-open and a pending probe's success
-- is the last of `recovery_success_threshold`.
pub observe_circuit-moves :
    (config : HealthConfig) (component : String) (now : ℕ) (e : Evidence) (c : Circuit)
    → (((observe_circuit config component now e c).state ≡ CircuitState.opened) ↔ (
        (c.state ≡ CircuitState.opened)
        ⊎ (((c.state ≡ CircuitState.closed)
              × (poisons_circuit component e.failure ≡ true)
              × ReachesThreshold config now c)
            ⊎ ((c.state ≡ CircuitState.half_open) × (0 < c.pending_probes) × (e.success ≡ false)))))
      × (((observe_circuit config component now e c).state ≡ CircuitState.closed) ↔ (
          ((c.state ≡ CircuitState.closed)
            × ¬ ((poisons_circuit component e.failure ≡ true) × ReachesThreshold config now c))
          ⊎ ((c.state ≡ CircuitState.half_open)
              × (0 < c.pending_probes)
              × (e.success ≡ true)
              × (config.recovery_success_threshold ≤ suc c.recovery_successes))))
unfolding observe_circuit take_evidence prune is_probe_result count_success take_pending
    close_circuit open_circuit record_failure note_failure trips is_failure
observe_circuit-moves config component now e c = (
  ground (arith, poisons_circuit-is_some component e.failure),
  ground (arith, poisons_circuit-is_some component e.failure),
)

-- A probe is admitted exactly when the circuit is closed, or is open and cooled down, or is
-- half-open with fewer probes admitted than the bound. The bound is positive.
pub admit_circuit-admits :
    (config : HealthConfig) (now : ℕ) (c : Circuit)
    → 0 < config.half_open_max_probes
    → ((admit_circuit config now c).0 ≡ true) ↔ (
        (c.state ≡ CircuitState.closed)
        ⊎ (((c.state ≡ CircuitState.opened)
              × (stamp : ℕ) × (c.opened_at ≡ some stamp)
              × (stamp + config.cooldown_ms ≤ now))
            ⊎ ((c.state ≡ CircuitState.half_open)
                × (c.admitted_probes < config.half_open_max_probes))))
unfolding admit_circuit admit_pruned admit_in prune is_cooled half_opened admit_next
admit_circuit-admits config now c h = ground arith
