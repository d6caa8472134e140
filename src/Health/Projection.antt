-- ===== src/Health/Projection.antt =====
-- `apply` of src/model_router/health/service.py.
pub mod Narrow
pub mod Routed
use openai_model_router.Prelude.{
  ℕ, String, Option, none, some, List, [], ◌∷◌, ◌++◌, map, Bool, true, false, ◌&&◌, ◌||◌, not, ◌==◌,
  string_eq, option_eq, any, contains, select, concat_map, is_empty, Dict, if◌then◌else◌, Raise, ok,
  raise_if, ◌>>◌, value_error,
}
use openai_model_router.Contracts.{
  HealthState, health_eq, ModelHealth, EnvironmentSnapshot, provenance,
}
use openai_model_router.Health.{Scope, HealthConfig, HealthObservation, HealthSnapshot}
use openai_model_router.Health.Service.{
  HealthService, missing, is_available, validate_snapshot, max_or, min_or,
}
use openai_model_router.Health.Readiness.{sorted_set}

-- An observation of the provider for every model or for `alias`, of the capability.
unfoldable pub is_provider_for : String → Option String → HealthObservation → Bool
is_provider_for alias capability o =
    o.scope.component == "provider"
    && (contains o.scope.model (none ∷ some alias ∷ []) && o.scope.capability == capability)

abbrev pub provider_scope : String → Option String → Scope
provider_scope alias capability = record {
  component = "provider";
  model = some alias;
  capability = capability;
}

-- `items or [self._missing(...)]`
unfoldable pub or_missing :
    HealthService → ℕ → String → Option String → List HealthObservation → List HealthObservation
or_missing s at alias capability [] = missing s (provider_scope alias capability) at true ∷ []
or_missing s at alias capability (o ∷ os) = o ∷ os

unfoldable pub capability_evidence :
    HealthService → HealthSnapshot → String → String → List HealthObservation
capability_evidence s health alias capability =
    or_missing s health.observed_at alias (some capability)
      (select (is_provider_for alias (some capability)) health.observations)

-- `relevant`: what the snapshot says of a model
unfoldable pub model_evidence :
    HealthService → HealthSnapshot → List String → String → List HealthObservation
model_evidence s health capabilities alias = or_missing s health.observed_at alias none (
    select (is_provider_for alias none) health.observations
    ++ concat_map (capability_evidence s health alias) capabilities)

unfoldable pub is_unavailable : ModelHealth → List HealthObservation → Bool
is_unavailable existing evidence =
    not existing.usable
    || (existing.state == HealthState.unhealthy || any (λ o. not (is_available o)) evidence)

unfoldable pub projected_state : Bool → Bool → HealthState
projected_state true degraded = HealthState.unhealthy
projected_state false true = HealthState.degraded
projected_state false false = HealthState.healthy

unfoldable pub projected_model : ModelHealth → List HealthObservation → ModelHealth
projected_model existing evidence =
    let unavailable = is_unavailable existing evidence in
    record {
      state = projected_state unavailable (
          existing.state == HealthState.degraded
          || any (λ o. o.state == HealthState.degraded) evidence);
      account_access = existing.account_access;
      usable = not unavailable;
    }

-- What `routing_evidence` gains for a model.
unfoldable pub usable_evidence : ModelHealth → List HealthObservation → List HealthObservation
usable_evidence existing evidence = if is_unavailable existing evidence then [] else evidence

unfoldable pub is_prerequisite : HealthConfig → HealthObservation → Bool
is_prerequisite config o =
    contains o.scope.component config.required_components
    && (o.scope.model == none && o.scope.capability == none)

unfoldable pub routing_evidence :
    HealthService → HealthSnapshot → List String → Dict ModelHealth → List HealthObservation
routing_evidence s health capabilities models =
    select (is_prerequisite s.config) health.observations
    ++ concat_map (λ p. usable_evidence p.1 (model_evidence s health capabilities p.0)) models

unfoldable pub project_models :
    HealthService → HealthSnapshot → List String → Dict ModelHealth → Dict ModelHealth
project_models s health capabilities models =
    map (λ p. (p.0, projected_model p.1 (model_evidence s health capabilities p.0))) models

unfoldable pub project :
    HealthService → EnvironmentSnapshot → List String → HealthSnapshot → EnvironmentSnapshot
project s environment capabilities health =
    let evidence = routing_evidence s health capabilities environment.models in
    record environment {
      models = project_models s health capabilities environment.models;
      health_snapshot_id = some health.snapshot_id;
      health_observed_at = some (max_or health.observed_at (map (λ o. o.observed_at) evidence));
      health_valid_until = some (min_or health.valid_until (map (λ o. o.valid_until) evidence));
    }

-- `apply`
unfoldable pub apply :
    HealthService → EnvironmentSnapshot → List String → HealthSnapshot → Raise EnvironmentSnapshot
apply s environment required_capabilities health = do
  raise_if (contains "" required_capabilities) (value_error "capability must be a nonempty string")
  validate_snapshot s.config health
  let projected = project s environment (sorted_set required_capabilities) health in
      (provenance projected >> ok projected)
