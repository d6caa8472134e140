-- ===== src/Examples/Monitoring.antt =====
-- The theorems about the health service at a small configuration.
use openai_model_router.Prelude.{
  ℕ, ◌<◌, ◌≤◌, ◌≡◌, ◌↔◌, ◌⊎◌, ◌+◌, refl, some, none, [], ◌∷◌, true, false, arith, ok, length,
}
use openai_model_router.Contracts.{FailureType}
use openai_model_router.Health.{HealthConfig, ConfigIsValid, Scope, CircuitState, HealthObservation}
use openai_model_router.Health.Circuits.{
  Circuit, new_circuit, Evidence, poisons_circuit, prune, failure_count, observe_circuit, is_cooled,
  admit_circuit,
}
use openai_model_router.Health.Circuits.Transitions.{
  ReachesThreshold, observe_circuit-moves, admit_circuit-admits,
}
use openai_model_router.Health.Circuits.Recovers.{probe_rounds, probe_rounds-closes}
use openai_model_router.Health.Circuits.Window.{nothing, before, failure_count-prune}
use openai_model_router.Health.Service.{
  HealthService, global_scope, new_service, observe, admit_probe, available, check_names,
  check_call, circuit_of,
}
use openai_model_router.Health.Service.Machine.{AllSound, begun, observed, probed, Serves-IsSound}
use openai_model_router.Health.Service.Raises.{SaysNothing, raised, observe-raises}
use openai_model_router.Health.Service.Usable.{IsUsable, available-IsUsable}

abbrev pub health_config : HealthConfig
health_config = record {
  version = "h1";
  freshness_ms = 100;
  failure_window_ms = 50;
  failure_threshold = 2;
  cooldown_ms = 20;
  half_open_max_probes = 2;
  recovery_success_threshold = 2;
  max_probes_per_run = 3;
  probe_timeout_ms = 5;
  live_probes_enabled = false;
  required_components = "repository" ∷ [];
}

valid_config : ConfigIsValid health_config
valid_config = record {
  fresh = ground arith;
  threshold = ground arith;
  recovery = ground arith;
  bounded = ground arith;
}

abbrev pub success : Evidence
success = record {
  failure = none;
  success = true;
  state = none;
  required = true;
  latency_ms = none;
}

abbrev timeout : Evidence
timeout = record success { failure = some FailureType.timeout; success = false }

abbrev provider : Scope
provider = global_scope "provider"

abbrev cooling : Circuit
cooling = record new_circuit {
  failures = 10 ∷ 12 ∷ [];
  state = CircuitState.opened;
  opened_at = some 12;
}

-- Two timeouts open the circuit, and after the cooldown a probe is admitted and succeeds.
abbrev recovering : HealthService
recovering =
    (observe 33 provider success
      (admit_probe 32 provider
        (observe 12 provider timeout
          (observe 10 provider timeout (new_service 1 health_config)).1).1).1).1

Serves-IsSound_example : AllSound health_config recovering
Serves-IsSound_example = Serves-IsSound health_config 1 recovering valid_config (
    observed 33 provider success
      (probed 32 provider (observed 12 provider timeout (observed 10 provider timeout begun))))

observe_circuit-moves_example :
    (((observe_circuit health_config "provider" 12 timeout
          (record new_circuit { failures = 10 ∷ [] })).state
        ≡ CircuitState.opened)
      ↔ ((CircuitState.closed ≡ CircuitState.opened)
          ⊎ (((CircuitState.closed ≡ CircuitState.closed)
                × (poisons_circuit "provider" (some FailureType.timeout) ≡ true)
                × ReachesThreshold health_config 12 (record new_circuit { failures = 10 ∷ [] }))
              ⊎ ((CircuitState.closed ≡ CircuitState.half_open) × (0 < 0) × (false ≡ false)))))
    × (((observe_circuit health_config "provider" 12 timeout
            (record new_circuit { failures = 10 ∷ [] })).state
          ≡ CircuitState.closed)
        ↔ (((CircuitState.closed ≡ CircuitState.closed)
              × ¬ (
                  (poisons_circuit "provider" (some FailureType.timeout) ≡ true)
                  × ReachesThreshold health_config 12 (record new_circuit { failures = 10 ∷ [] })))
            ⊎ ((CircuitState.closed ≡ CircuitState.half_open)
                × (0 < 0)
                × (false ≡ true)
                × (2 ≤ 1))))
observe_circuit-moves_example =
    observe_circuit-moves health_config "provider" 12 timeout
      (record new_circuit { failures = 10 ∷ [] })

admit_circuit-admits_example : ((admit_circuit health_config 32 cooling).0 ≡ true) ↔ (
    (CircuitState.opened ≡ CircuitState.closed)
    ⊎ (((CircuitState.opened ≡ CircuitState.opened)
          × (stamp : ℕ) × (some 12 ≡ some stamp)
          × (stamp + 20 ≤ 32))
        ⊎ ((CircuitState.opened ≡ CircuitState.half_open) × (0 < 2))))
admit_circuit-admits_example = admit_circuit-admits health_config 32 cooling (ground arith)

is_cooled_32 : is_cooled health_config 32 cooling ≡ true
unfolding is_cooled
is_cooled_32 = refl

probe_rounds-closes_example :
    (probe_rounds health_config "provider" success (λ n. n + 32) 2 cooling).state
    ≡ CircuitState.closed
probe_rounds-closes_example =
    probe_rounds-closes health_config "provider" success (λ n. n + 32) cooling valid_config refl
      refl is_cooled_32

failure_count-prune_example :
    (failure_count health_config (some cooling) 61
      ≡ length (prune health_config 61 cooling).failures)
    × ((later : ℕ)
        → 61 ≤ later
        → failure_count health_config (some (prune health_config 61 cooling)) later
          ≡ failure_count health_config (some cooling) later)
failure_count-prune_example =
    failure_count-prune health_config 61 cooling
      (before {x = 10} {xs = 12 ∷ []} (ground arith, tt) (before {x = 12} {xs = []} tt nothing))

observe-raises_example :
    (raised
        (observe 10 provider (record success { success = false }) (new_service 1 health_config)).0
      ≡ true)
    ↔ ((raised (check_call provider (record success { success = false })) ≡ true)
        ⊎ (SaysNothing (record success { success = false })
            × ((circuit_of (new_service 1 health_config) provider).state ≡ CircuitState.closed)))
observe-raises_example =
    observe-raises 10 provider (record success { success = false }) (new_service 1 health_config)

available-IsUsable_example :
    (available 34 provider recovering ≡ ok true)
    ↔ ((check_names provider ≡ ok tt) × (o : HealthObservation) × IsUsable recovering 34 provider o)
available-IsUsable_example = available-IsUsable 34 provider recovering
