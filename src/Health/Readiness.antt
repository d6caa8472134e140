-- ===== src/Health/Readiness.antt =====
-- `dependency_readiness`, `operation_readiness` and `readiness` of
-- src/model_router/health/service.py.
pub mod Ready
pub mod Providers
pub mod Latest
pub mod Exact
use Prim.Native.String.{compare, ◌++◌ as append_text}
use Prim.Native.Nat.{Ordering}
use openai_model_router.Prelude.{
  ℕ, String, Option, none, some, List, [], ◌∷◌, ◌++◌, Bool, true, false, ◌&&◌, ◌||◌, not, ◌==◌,
  string_eq, leb, ltb, is_some, is_empty, contains, select, any, or_else, unique, sort_by, values,
  Dict, lookup, insert, if◌then◌else◌, Raise, ok, ◌>>◌,
}
use openai_model_router.Contracts.{
  HealthState, health_eq, AccountAccess, access_eq, ModelHealth, EnvironmentSnapshot,
}
use openai_model_router.Health.{
  CircuitState, CheckStatus, HealthConfig, HealthObservation, HealthSnapshot,
}
use openai_model_router.Health.Service.{is_available, validate_snapshot}

pub record HealthReadiness : Type 0 where
  pub ready : Bool
  pub state : HealthState
  pub blockers : List String

-- `_unavailable_reason`
unfoldable pub circuit_reason : CircuitState → String
circuit_reason CircuitState.closed = "unhealthy"
circuit_reason CircuitState.opened = "open"
circuit_reason CircuitState.half_open = "half_open"

unfoldable pub unavailable_reason : HealthObservation → String
unavailable_reason o = elim o.check_status [
  | CheckStatus.missing ↦ "missing"
  | CheckStatus.stale ↦ "stale"
  | CheckStatus.disabled ↦ "disabled"
  | CheckStatus.observed ↦ circuit_reason o.circuit_state
]

unfoldable pub text_le : String → String → Bool
text_le a b = elim (compare a b) [ Ordering.gt ↦ false | _ ↦ true ]

-- `tuple(sorted(set(blockers)))`
unfoldable pub sorted_set : List String → List String
sorted_set texts = sort_by text_le (unique texts)

-- The result that each of the three checks ends with.
unfoldable pub conclude_ready : List String → Bool → HealthReadiness
conclude_ready [] degraded = record {
  ready = true;
  state = if degraded then HealthState.degraded else HealthState.healthy;
  blockers = [];
}
conclude_ready (blocker ∷ blockers) degraded = record {
  ready = false;
  state = HealthState.unhealthy;
  blockers = sorted_set (blocker ∷ blockers);
}

-- `by_component`: the last observation of each component without a model or a capability
unfoldable pub by_component :
    Dict HealthObservation → List HealthObservation → Dict HealthObservation
by_component items [] = items
by_component items (o ∷ os) =
    let skipped = by_component items os in
    let taken = by_component (insert o.scope.component o items) os in
    if is_some o.scope.model || is_some o.scope.capability then skipped else taken

unfoldable pub component_blockers : String → Option HealthObservation → List String
component_blockers component none = append_text component ":missing" ∷ []
component_blockers component (some o) =
    if is_available o
    then []
    else append_text component (append_text ":" (unavailable_reason o)) ∷ []

unfoldable pub is_degraded : Option HealthObservation → Bool
is_degraded none = false
is_degraded (some o) = is_available o && o.state == HealthState.degraded

unfoldable pub dependency_blockers : Dict HealthObservation → List String → List String
dependency_blockers items [] = []
dependency_blockers items (component ∷ components) =
    component_blockers component (lookup component items) ++ dependency_blockers items components

unfoldable pub assess_dependencies : HealthConfig → HealthSnapshot → HealthReadiness
assess_dependencies config health =
    let items = by_component [] health.observations in
    conclude_ready (dependency_blockers items config.required_components)
      (any (λ component. is_degraded (lookup component items)) config.required_components)

-- `dependency_readiness`
unfoldable pub dependency_readiness : HealthConfig → HealthSnapshot → Raise HealthReadiness
dependency_readiness config health = do
  validate_snapshot config health
  ok (assess_dependencies config health)

-- `condition` blocks with `code`.
unfoldable pub block_if : Bool → String → List String
block_if true code = code ∷ []
block_if false code = []

unfoldable pub is_stale_evidence : ℕ → EnvironmentSnapshot → Bool
is_stale_evidence now environment =
    not (is_some environment.health_snapshot_id)
    || (elim environment.health_observed_at [ none ↦ true | some stamp ↦ ltb now stamp ])
    || (elim environment.health_valid_until [ none ↦ true | some stamp ↦ leb stamp now ])

-- `available_models`
unfoldable pub is_ready_model : ModelHealth → Bool
is_ready_model model =
    model.usable
    && (contains model.state (HealthState.healthy ∷ HealthState.degraded ∷ [])
        && model.account_access == AccountAccess.verified)

unfoldable pub is_impaired_model : ModelHealth → Bool
is_impaired_model model =
    not model.usable
    || (not (model.state == HealthState.healthy)
        || not (model.account_access == AccountAccess.verified))

-- The facts that the adapters supply to `operation_readiness`.
pub record OperationFacts : Type 0 where
  pub execution_authorized : Bool
  pub finite_limits : Bool
  pub synthetic_provider : Bool

unfoldable pub operation_blockers : ℕ → EnvironmentSnapshot → OperationFacts → List String
operation_blockers now environment facts =
    block_if (not facts.execution_authorized) "approval_required"
    ++ (block_if (not facts.finite_limits) "finite_execution_limits_required"
        ++ (block_if (not environment.synthetic) "production_execution_disabled"
            ++ (block_if (not facts.synthetic_provider) "mock_provider_required"
                ++ (block_if (not environment.durable_retention) "durable_retention_unavailable"
                    ++ (block_if (not environment.recovery_bounded) "recovery_unconfigured"
                        ++ (block_if (is_stale_evidence now environment) "stale_snapshot"
                            ++ block_if (not (any is_ready_model (values environment.models)))
                                "no_permitted_model_ready"))))))

-- `operation_readiness`
unfoldable pub operation_readiness :
    HealthConfig → ℕ → EnvironmentSnapshot → OperationFacts → HealthSnapshot → Raise HealthReadiness
operation_readiness config now environment facts health = do
  validate_snapshot config health
  let dependency = assess_dependencies config health in
      ok (
        conclude_ready (dependency.blockers ++ operation_blockers now environment facts) (
          dependency.state == HealthState.degraded
          || (any is_ready_model (values environment.models)
              && any is_impaired_model (values environment.models))))

-- `provider` and `candidates`
unfoldable pub is_provider_item : HealthObservation → Bool
is_provider_item o = o.scope.component == "provider" && (is_some o.scope.model && o.required)

unfoldable pub provider_candidates : HealthSnapshot → List HealthObservation
provider_candidates health =
    let provider = select is_provider_item health.observations in
    or_else (select (λ o. not (is_some o.scope.capability)) provider) provider

-- `readiness`
unfoldable pub readiness : HealthConfig → HealthSnapshot → Raise HealthReadiness
readiness config health = do
  validate_snapshot config health
  let dependency = assess_dependencies config health in
      let candidates = provider_candidates health in
      ok (
        conclude_ready
          (dependency.blockers
            ++ block_if (not (is_empty candidates) && not (any is_available candidates))
                "provider:no_model_ready")
          (dependency.state == HealthState.degraded
            || (any is_available candidates
                && any (λ o. not (is_available o) || o.state == HealthState.degraded) candidates)))
