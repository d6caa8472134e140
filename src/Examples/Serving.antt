-- ===== src/Examples/Serving.antt =====
-- The theorems about readiness and the projection of health evidence.
use openai_model_router.Prelude.{
  ◌<◌, ◌≤◌, ◌≡◌, ◌↔◌, ◌⊎◌, ◌∙◌, ap, refl, some, none, [], ◌∷◌, true, ok, contains, any, select,
  unique, unique_from, insert_by, sort_by, lookup, insert, concat_map, In, here, find,
}
use openai_model_router.Contracts.{HealthState, provenance}
use openai_model_router.Health.{Scope, CircuitState, CheckStatus, HealthObservation, HealthSnapshot}
use openai_model_router.Health.Service.{
  HealthService, global_scope, new_service, or_now, missing, is_available, largest, smallest,
  max_or, min_or, validate_snapshot,
}
use openai_model_router.Health.Readiness.{
  HealthReadiness, circuit_reason, unavailable_reason, text_le, sorted_set, conclude_ready,
  by_component, component_blockers, is_degraded, dependency_blockers, assess_dependencies, block_if,
  is_stale_evidence, is_ready_model, is_impaired_model, OperationFacts, operation_blockers,
  operation_readiness, is_provider_item, provider_candidates, readiness,
}
use openai_model_router.Health.Readiness.Ready.{AllCovered}
use openai_model_router.Health.Readiness.Providers.{Counts}
use openai_model_router.Health.Readiness.Exact.{
  IsPrepared, operation_readiness-exact, readiness-exact,
}
use openai_model_router.Health.Projection.{
  is_provider_for, or_missing, capability_evidence, model_evidence, is_unavailable, projected_state,
  projected_model, usable_evidence, is_prerequisite, routing_evidence, project_models, project,
  apply,
}
use openai_model_router.Health.Projection.Narrow.{IsBacked, project-IsBacked}
use openai_model_router.Health.Projection.Routed.{route-Backed}
use openai_model_router.Samples.{
  request, classification, environment, refreshed, bundle, config, decision, healthy,
}
use openai_model_router.Router.{route}
use openai_model_router.Examples.Routing.{routed}
use openai_model_router.Examples.Monitoring.{health_config}

abbrev seen : Scope → HealthObservation
seen scope = record {
  scope = scope;
  state = HealthState.healthy;
  observed_at = 8;
  valid_until = 18;
  last_success_at = some 8;
  required = true;
  check_status = CheckStatus.observed;
  failure = none;
  failure_count = 0;
  circuit_state = CircuitState.closed;
  latency_ms = none;
}

abbrev model_scope : Scope
model_scope = record { component = "provider"; model = some "small"; capability = none }

abbrev snapshot : HealthSnapshot
snapshot = record {
  snapshot_id = "health-2";
  config_version = "h1";
  observed_at = 8;
  valid_until = 18;
  synthetic = true;
  observations =
      seen (global_scope "repository")
      ∷ seen model_scope
      ∷ seen (record model_scope { model = some "large" })
      ∷ [];
}

abbrev service : HealthService
service = new_service 1 health_config

abbrev facts : OperationFacts
facts = record { execution_authorized = true; finite_limits = true; synthetic_provider = true }

answered :
    ((r : HealthReadiness) × (readiness health_config snapshot ≡ ok r))
    × ((r : HealthReadiness) × (operation_readiness health_config 10 environment facts snapshot
          ≡ ok r))
unfolding contains any select unique unique_from insert_by sort_by lookup insert is_available
    validate_snapshot circuit_reason unavailable_reason text_le sorted_set conclude_ready
    by_component component_blockers is_degraded dependency_blockers assess_dependencies block_if
    is_stale_evidence is_ready_model is_impaired_model operation_blockers operation_readiness
    is_provider_item provider_candidates readiness
answered = ((_, refl), (_, refl))

readiness-exact_example : (answered.0.0.ready ≡ true) ↔ (
    AllCovered health_config snapshot
    × (((o : HealthObservation) → ¬ (Counts snapshot o))
        ⊎ ((o : HealthObservation) × Counts snapshot o × (is_available o ≡ true))))
readiness-exact_example = readiness-exact health_config snapshot answered.0.0 answered.0.1

operation_readiness-exact_example :
    (answered.1.0.ready ≡ true)
    ↔ (AllCovered health_config snapshot × IsPrepared 10 environment facts)
operation_readiness-exact_example =
    operation_readiness-exact health_config 10 environment facts snapshot answered.1.0 answered.1.1

projected :
    (project service environment [] snapshot ≡ refreshed)
    × (lookup "small" (project service environment [] snapshot).models ≡ some healthy)
    × In (seen model_scope) (model_evidence service snapshot [] "small")
    × (lookup "small" environment.models ≡ some healthy)
unfolding contains any select lookup insert concat_map new_service or_now missing find is_available
    largest smallest max_or min_or is_provider_for or_missing capability_evidence model_evidence
    is_unavailable projected_state projected_model usable_evidence is_prerequisite routing_evidence
    project_models project
projected = (refl, refl, here refl, refl)

-- The projection passes the validation that `apply` ends with.
applied : apply service environment [] snapshot ≡ ok (project service environment [] snapshot)
unfolding apply validate_snapshot provenance sorted_set text_le unique unique_from sort_by insert_by
    contains any new_service project
applied = refl

project-IsBacked_example :
    IsBacked service environment
      (project service environment [] snapshot)
      []
      snapshot
      "small"
      healthy
project-IsBacked_example =
    project-IsBacked service environment [] snapshot "small" healthy projected.1 refl

route-Backed_example :
    (is_available (seen model_scope) ≡ true) × (true ≡ true → (8 ≤ 10) × (10 < 18))
route-Backed_example =
    route-Backed 10 request classification environment bundle config none service [] snapshot
      decision healthy (seen model_scope)
      (ap (λ e. route 10 request classification e bundle config none) projected.0 ∙ routed.1)
      projected.3 projected.2
