-- ===== src/Escalation/Recovery.antt =====
-- src/model_router/escalation/recovery.py: `choose_recovery` and its programs. Choices holds what
-- they choose from.
mod Choices
unfoldable pub use Choices.*
use openai_model_router.Prelude.{
  ℕ, ◌+◌, ◌*◌, ◌/◌, ◌^◌, zero, suc, max, min, String, Option, none, some, List, [], ◌∷◌, Bool,
  false, Dict, lookup, ltb, leb, ◌==◌, ◌&&◌, ◌||◌, not, contains, select, sort_by, is_some,
  if◌then◌else◌, string_eq, nat_eq, value_error, Raise, ok, ◌>>=◌, or_raise,
}
use openai_model_router.Contracts.{
  EnvironmentSnapshot, ModelHealth, HealthState, ModelEntry, PolicyBundle, CandidateSpec,
  FloorEvidence, Strength, FailureType, Effort, effort_eq, failure_eq, health_eq,
}
use openai_model_router.Policy.Rules.{find_band}
use openai_model_router.Router.{RouteDecision}
use openai_model_router.Execution.{Failure, ExecutionLimits, Counters, RouteTarget, ToolCall}

unfoldable pub quality_exhausted : RecoveryContext → Bool
quality_exhausted c =
    leb c.limits.max_total_generation_attempts c.counters.generation_attempts
    || leb c.limits.max_quality_escalations c.counters.quality_escalations

unfoldable pub infrastructure_exhausted : RecoveryContext → Bool
infrastructure_exhausted c =
    leb c.limits.max_total_generation_attempts c.counters.generation_attempts
    || leb c.limits.max_infrastructure_retries c.counters.infrastructure_retries

-- The end of `_quality_recovery`.
unfoldable pub quality_tier : RecoveryContext → Option RouteTarget → RecoveryAction
unfolding original_or
quality_tier c (some target) =
    record (action_of c ActionKind.increase_tier "configured_tier_step") {
      route = some target;
      rationale_codes = "QUALITY_ESCALATION" ∷ [];
    }
quality_tier c none = record (action_of c ActionKind.stop "no_higher_configured_tier") {
  failure = FailureType.capability_failure;
  original_failure = original_or c FailureType.quality_failure;
}

unfoldable pub quality_effort :
    RecoveryContext → PolicyBundle → Option Effort → Raise RecoveryAction
quality_effort c bundle (some effort) =
    ok (record (action_of c ActionKind.increase_effort "configured_effort_step") {
      route = some (record { model = c.decision.selected_model_alias; effort = effort });
      rationale_codes = "QUALITY_ESCALATION" ∷ [];
    })
quality_effort c bundle none = do
  target ← next_tier_target c.decision.selected_model_alias bundle
  ok (quality_tier c target)

-- `_quality_recovery`
unfoldable pub quality_recovery : RecoveryContext → PolicyBundle → Raise RecoveryAction
quality_recovery c bundle = if quality_exhausted c then ok (attempts_exhausted c) else do
  model ← model_of bundle c.decision.selected_model_alias
  quality_effort c bundle (next_prior_effort c bundle model)

infrastructure_codes : List String
infrastructure_codes = "INFRASTRUCTURE_RECOVERY" ∷ []

unfoldable pub exceeds_bound : Option ℕ → ℕ → Bool
exceeds_bound none bound = false
exceeds_bound (some after) bound = ltb bound after

-- `_infrastructure_recovery` from the retryable check on.
unfoldable pub retry_same : RecoveryContext → RecoveryAction
unfolding infrastructure_codes original_or
retry_same c =
    if not c.failure.retryable
    then record (action_of c ActionKind.recoverable_failure "infrastructure_not_retryable") {
      rationale_codes = infrastructure_codes;
    }
    else if exceeds_bound c.failure.retry_after_ms c.limits.max_backoff_ms
    then record (action_of c ActionKind.recoverable_failure "retry_after_exceeds_backoff_bound") {
      rationale_codes = infrastructure_codes;
    }
    else if leb c.limits.max_elapsed_ms (c.elapsed_ms + backoff_ms c)
    then record (action_of c ActionKind.stop_deadline "backoff_exceeds_deadline") {
      failure = FailureType.budget_failure;
      original_failure = original_or c c.failure.failure_type;
    }
    else record (action_of c ActionKind.retry_backoff "bounded_infrastructure_retry") {
      route = some (current_route c);
      backoff_ms = backoff_ms c;
      rationale_codes = infrastructure_codes;
    }

-- `not health.usable or health.state in {"DEGRADED", "UNHEALTHY"}`
unfoldable pub is_impaired : Option ModelHealth → Bool
is_impaired none = false
is_impaired (some health) =
    not health.usable
    || health.state == HealthState.degraded
    || health.state == HealthState.unhealthy

-- `not health.usable or health.state == "UNHEALTHY"`
unfoldable pub is_lost : Option ModelHealth → Bool
is_lost none = false
is_lost (some health) = not health.usable || health.state == HealthState.unhealthy

-- What follows the search for a fallback.
unfoldable pub fall_back : RecoveryContext → Bool → Option RouteTarget → RecoveryAction
unfolding infrastructure_codes
fall_back c lost none =
    if lost
    then record (action_of c ActionKind.recoverable_failure "no_safe_infrastructure_fallback") {
      rationale_codes = infrastructure_codes;
    }
    else retry_same c
fall_back c lost (some target) =
    record (action_of c ActionKind.health_aware_fallback "current_route_not_healthy") {
      route = some target;
      rationale_codes = "INFRASTRUCTURE_RECOVERY" ∷ "MODEL_DEGRADED" ∷ [];
    }

-- `_infrastructure_recovery`
unfoldable pub infrastructure_recovery : RecoveryContext → PolicyBundle → Raise RecoveryAction
infrastructure_recovery c bundle =
    let health = lookup c.decision.selected_model_alias c.environment.models in
    if infrastructure_exhausted c
    then ok (attempts_exhausted c)
    else if is_impaired health
    then (healthy_fallback c bundle >>= λ fallback. ok (fall_back c (is_lost health) fallback))
    else ok (retry_same c)

-- The key counts where it is a nonempty string.
has_key : Option String → Bool
has_key none = false
has_key (some key) = not (key == "")

unfoldable pub is_unsafe : Option ToolCall → Bool
unfolding has_key
is_unsafe none = false
is_unsafe (some call) =
    call.side_effecting && not (has_key call.idempotency_key || call.reconciliation_evidence)

unfoldable pub has_alternate : Option ToolCall → Bool
has_alternate none = false
has_alternate (some call) = is_some call.alternate_tool

tool_codes : List String
tool_codes = "TOOL_RECOVERY" ∷ []

-- `_tool_recovery`
unfoldable pub tool_recovery : RecoveryContext → RecoveryAction
unfolding tool_codes original_or
tool_recovery c =
    if leb c.limits.max_tool_recoveries c.counters.tool_recoveries
    then attempts_exhausted c
    else if is_unsafe c.tool_call
    then record (action_of c ActionKind.stop_reconcile "unsafe_side_effect_replay") {
      rationale_codes = tool_codes;
    }
    else if c.tool_retryable && is_some c.tool_call
    then record (action_of c ActionKind.retry_tool "safe_tool_retry") {
      route = some (current_route c);
      original_failure = original_or c FailureType.tool_failure;
      rationale_codes = tool_codes;
    }
    else if c.alternate_authorized && has_alternate c.tool_call
    then record (action_of c ActionKind.alternate_tool "authorized_alternate_tool") {
      route = some (current_route c);
      rationale_codes = tool_codes;
    }
    else record (action_of c ActionKind.recoverable_failure "tool_recovery_unavailable") {
      rationale_codes = tool_codes;
    }

-- The programs of the failure types, after the terminal failures and the bounds.
unfoldable pub recover : RecoveryContext → PolicyBundle → Raise RecoveryAction
unfolding original_or
recover c bundle =
    let failure = c.failure.failure_type in
    let escalation = bundle.policy.escalation in
    if contains failure escalation.quality
    then quality_recovery c bundle
    else if contains failure escalation.infrastructure
    then infrastructure_recovery c bundle
    else if contains failure escalation.tool
    then ok (tool_recovery c)
    else if contains failure escalation.diagnostic
    then ok (record (action_of c ActionKind.diagnose "diagnosis_required") {
      route = some (current_route c);
    })
    else ok (record (action_of c ActionKind.stop "unsupported_failure_program") {
      failure = FailureType.unknown_failure;
      original_failure = original_or c failure;
    })

unfoldable pub stopped : RecoveryContext → ActionKind → String → RecoveryAction
unfolding original_or
stopped c kind reason = record (action_of c kind reason) {
  failure = FailureType.budget_failure;
  original_failure = original_or c c.failure.failure_type;
}

-- `_bounded_stop`
unfoldable pub bounded_stop : RecoveryContext → Option RecoveryAction
bounded_stop c =
    if c.remaining_usd == 0
    then some (stopped c ActionKind.stop_budget "remaining_budget_exhausted")
    else if leb c.limits.max_elapsed_ms c.elapsed_ms
    then some (stopped c ActionKind.stop_deadline "recovery_deadline_exhausted")
    else none

unfoldable pub choose_recovery : RecoveryContext → PolicyBundle → Raise RecoveryAction
choose_recovery c bundle =
    if contains c.failure.failure_type bundle.policy.escalation.terminal
    then ok (action_of c ActionKind.stop "terminal_failure")
    else elim (bounded_stop c) [ some action ↦ ok action | none ↦ recover c bundle ]
