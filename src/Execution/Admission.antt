-- ===== src/Execution/Admission.antt =====
-- `check_admission` of src/model_router/execution/admission.py.
pub mod Bounds
pub mod Exact
use openai_model_router.Prelude.{
  ℕ, String, Option, none, some, List, [], ◌∷◌, Bool, true, false, ltb, leb, ◌==◌, ◌&&◌, ◌||◌, not,
  contains, any, is_empty, is_some, if◌then◌else◌, string_eq, nat_eq,
}
use openai_model_router.Contracts.{FailureType}
use openai_model_router.Execution.{
  Failure, ExecutionLimits, Counters, ToolCall, ExecutionControls, Price, amount,
}

-- `_failure`
unfoldable pub failure : FailureType → String → Failure
failure failure_type cause_code = record {
  failure_type = failure_type;
  source = "admission";
  stage = "admission";
  cause_code = cause_code;
  retryable = false;
  retry_after_ms = none;
}

-- `if blocked: return failure`
unfoldable pub block_if : Bool → Failure → Option Failure → Option Failure
block_if true f rest = some f
block_if false f rest = rest

abbrev pub generation_actions : List String
generation_actions =
    "generation" ∷ "quality_escalation" ∷ "infrastructure_retry" ∷ "increase_effort"
    ∷ "increase_tier" ∷ "retry_backoff" ∷ "health_aware_fallback" ∷ []

abbrev pub quality_actions : List String
quality_actions = "quality_escalation" ∷ "increase_effort" ∷ "increase_tier" ∷ []

abbrev pub infrastructure_actions : List String
infrastructure_actions = "infrastructure_retry" ∷ "retry_backoff" ∷ "health_aware_fallback" ∷ []

abbrev pub recovery_actions : List String
recovery_actions = "tool_recovery" ∷ "retry_tool" ∷ "alternate_tool" ∷ []

abbrev pub tool_actions : List String
tool_actions = "tool" ∷ "tool_recovery" ∷ "retry_tool" ∷ "alternate_tool" ∷ []

abbrev pub known_actions : List String
known_actions =
    "classification" ∷ "generation" ∷ "quality_escalation" ∷ "infrastructure_retry" ∷ "validation"
    ∷ "tool" ∷ "tool_recovery" ∷ "increase_effort" ∷ "increase_tier" ∷ "retry_backoff"
    ∷ "health_aware_fallback" ∷ "retry_tool" ∷ "alternate_tool" ∷ []

-- An action of the list has used up its attempts.
unfoldable pub exhausted : String → List String → ℕ → ℕ → Bool
exhausted action actions used allowed = contains action actions && leb allowed used

-- `_attempt_blocker`
unfoldable pub attempt_blocker :
    String → Counters → ExecutionLimits → Option Failure → Option Failure
attempt_blocker action counters limits rest =
    block_if (not (contains action known_actions))
      (failure FailureType.capability_failure "unknown_action")
      (block_if
        (exhausted action generation_actions counters.generation_attempts
          limits.max_total_generation_attempts)
        (failure FailureType.unknown_failure "generation_attempts_exhausted")
        (block_if
          (exhausted action quality_actions counters.quality_escalations
            limits.max_quality_escalations)
          (failure FailureType.quality_failure "quality_escalations_exhausted")
          (block_if
            (exhausted action infrastructure_actions counters.infrastructure_retries
              limits.max_infrastructure_retries)
            (failure FailureType.provider_failure "infrastructure_retries_exhausted")
            (block_if
              (exhausted action recovery_actions counters.tool_recoveries
                limits.max_tool_recoveries)
              (failure FailureType.tool_failure "tool_recoveries_exhausted") rest))))

unfoldable pub option_equal : {A : Type 0} → (A → A → Bool) → Option A → Option A → Bool
option_equal equal none none = true
option_equal equal (some a) (some b) = equal a b
option_equal equal _ _ = false

bool_equal : Bool → Bool → Bool
bool_equal true b = b
bool_equal false b = not b

-- `==` of two calls
unfoldable pub same_call : ToolCall → ToolCall → Bool
unfolding bool_equal
same_call a b =
    a.tool == b.tool
    && a.operation == b.operation
    && bool_equal a.side_effecting b.side_effecting
    && option_equal ◌==◌ a.idempotency_key b.idempotency_key
    && bool_equal a.reconciliation_evidence b.reconciliation_evidence
    && option_equal ◌==◌ a.cost_upper_bound_usd b.cost_upper_bound_usd
    && a.arguments == b.arguments
    && option_equal ◌==◌ a.alternate_tool b.alternate_tool

-- The call is a declared call with its tool replaced by the declared alternate.
unfoldable pub is_alternate : ExecutionControls → ToolCall → Bool
is_alternate controls call =
    any
      (λ declared.
        option_equal ◌==◌ declared.alternate_tool (some call.tool)
        && same_call call (record declared { tool = call.tool; alternate_tool = none }))
      controls.tool_calls

-- `controls.tool_calls and call not in controls.tool_calls and not alternate`
unfoldable pub undeclared : ExecutionControls → ToolCall → Bool
undeclared controls call =
    not (is_empty controls.tool_calls)
    && not (any (same_call call) controls.tool_calls)
    && not (is_alternate controls call)

unfoldable pub unsafe_replay : ExecutionControls → ToolCall → Bool → Bool
unsafe_replay controls call replay =
    replay
    && call.side_effecting
    && not call.reconciliation_evidence
    && (is_alternate controls call || not (is_some call.idempotency_key))

-- `_check_tool`
unfoldable pub check_tool : ExecutionControls → Option ToolCall → Bool → Option Failure
check_tool controls none replay = some (failure FailureType.tool_failure "tool_call_required")
check_tool controls (some call) replay =
    block_if (not (contains call.tool controls.authorized_tools))
      (failure FailureType.tool_failure "tool_not_authorized")
      (block_if (undeclared controls call)
        (failure FailureType.tool_failure "tool_call_not_authorized")
        (block_if (call.side_effecting && not controls.side_effects_authorized)
          (failure FailureType.tool_failure "side_effect_not_authorized")
          (block_if (unsafe_replay controls call replay)
            (failure FailureType.tool_failure "unsafe_tool_replay") none)))

-- The action calls a tool.
unfoldable pub needs_tool : String → Option ToolCall → Bool
needs_tool action call = contains action tool_actions || is_some call

-- The checks of the amounts, before `rest`.
unfoldable pub cost_blocker :
    ExecutionLimits → Option ℕ → Option ℕ → Option Failure → Option Failure
cost_blocker limits none cost rest =
    some (failure FailureType.budget_failure "remaining_budget_required")
cost_blocker limits (some remaining) none rest =
    some (failure FailureType.budget_failure "action_cost_required")
cost_blocker limits (some remaining) (some cost) rest =
    block_if (ltb limits.task_cost_ceiling_usd cost)
      (failure FailureType.budget_failure "task_cost_ceiling_exceeded")
      (block_if (ltb remaining cost)
        (failure FailureType.budget_failure "remaining_budget_exceeded") rest)

-- The deadline check; no elapsed time stands for a value that is no nonnegative integer.
unfoldable pub time_blocker : ExecutionLimits → Option ℕ → Option Failure → Option Failure
time_blocker limits none rest = some (failure FailureType.timeout "elapsed_time_invalid")
time_blocker limits (some elapsed) rest =
    block_if (leb limits.max_elapsed_ms elapsed) (failure FailureType.timeout "deadline_exhausted")
      rest

-- `check_admission`: the first blocker of the next action, or none.
unfoldable pub check_admission :
    ExecutionControls
    → Option ExecutionLimits
    → Counters
    → Option ℕ
    → Price
    → Price
    → String
    → Bool
    → Option ToolCall
    → Option Failure
check_admission controls none counters elapsed remaining cost action replay call =
    some (failure FailureType.capability_failure "execution_limits_required")
check_admission controls (some limits) counters elapsed remaining cost action replay call =
    block_if (not controls.authorized)
      (failure FailureType.capability_failure "execution_not_authorized")
      (time_blocker limits elapsed (
        attempt_blocker action counters limits (
          cost_blocker limits (amount remaining) (amount cost)
            (if needs_tool action call then check_tool controls call replay else none))))
