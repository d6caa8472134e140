-- ===== src/Contracts/Requests.antt =====
-- What a caller and the deployment supply: requests, classifications, limits and snapshots.
use openai_model_router.Prelude.{
  ℕ, ◌+◌, ◌≤◌, String, Option, List, Bool, ◌&&◌, ◌||◌, not, is_some, is_empty, Dict, Raise,
  raise_if, ◌>>◌, value_error,
}
use openai_model_router.Contracts.Enums.{
  ValidationLevel, Consequence, HealthState, AccountAccess, Period,
}

pub record ComplexityComponents : Type 0 where
  pub reasoning_depth : ℕ
  pub step_dependency : ℕ
  pub context_synthesis : ℕ
  pub technical_precision : ℕ
  pub ambiguity : ℕ
  pub tool_orchestration : ℕ
  pub reliability_requirement : ℕ

-- `ComplexityComponents.total`
unfoldable pub total : ComplexityComponents → ℕ
total c =
    c.reasoning_depth + c.step_dependency + c.context_synthesis + c.technical_precision
    + c.ambiguity + c.tool_orchestration + c.reliability_requirement

-- `certain` is `confidence >= 1`, the only fact about the confidence that routing reads.
pub record Classification : Type 0 where
  pub task_family : String
  pub task_subclass : Option String
  pub components : ComplexityComponents
  pub certain : Bool
  pub flags : Dict Bool
  pub supplied_total : Option ℕ

pub record Context : Type 0 where
  pub input_tokens : ℕ
  pub expected_output_tokens : ℕ
  pub cached_input_tokens : ℕ
  pub cache_write_tokens : ℕ
  pub cache_evidence : Bool

-- The validator `buckets` of `Context`.
pub record ContextIsValid (c : Context) : Type 0 where
  pub buckets : c.cached_input_tokens + c.cache_write_tokens ≤ c.input_tokens

pub record Limits : Type 0 where
  pub model_tier_floor : Option ℕ
  pub model_tier_ceiling : Option ℕ
  pub task_cost_ceiling_usd : Option ℕ
  pub task_deadline_ms : Option ℕ
  pub period_spend_ceiling_usd : Option ℕ
  pub period : Option Period
  pub live_execution_enabled : Option Bool

pub record Request : Type 0 where
  pub application_id : Option String
  pub requirements : List String
  pub consequence : Consequence
  pub context : Context
  pub constraints : Limits
  pub requested_validation : Option ValidationLevel
  pub approval_evidence : Bool
  pub domain_clearance_evidence : Bool
  pub side_effecting_tool : Bool
  pub policy_version : Option String

pub record ModelHealth : Type 0 where
  pub state : HealthState
  pub account_access : AccountAccess
  pub usable : Bool

-- Times are milliseconds from a fixed origin.
pub record EnvironmentSnapshot : Type 0 where
  pub synthetic : Bool
  pub clock : ℕ
  pub health_snapshot_id : Option String
  pub health_observed_at : Option ℕ
  pub health_valid_until : Option ℕ
  pub models : Dict ModelHealth
  pub budget : Limits
  pub remaining_usd : Option ℕ
  pub trusted_application_id : Option String
  pub application_overlay : Option Limits
  pub application_overlay_version : Option String
  pub validation : List (ValidationLevel × Bool)
  pub required_evaluator_cost_usd : Option ℕ
  pub required_domain_validator_cost_usd : Option ℕ
  pub required_tool_charge : Bool
  pub required_tool_charge_usd : Option ℕ
  pub requested_validation : Option ValidationLevel
  pub minimum_next_action_ms : Option ℕ
  pub recovery_bounded : Bool
  pub durable_retention : Bool

-- `EnvironmentSnapshot.provenance`; a time of the model has its timezone.
unfoldable pub provenance : EnvironmentSnapshot → Raise (Unit {0})
provenance environment = do
  raise_if
      (is_some environment.application_overlay
          && not (is_some environment.application_overlay_version)
        || not (is_some environment.application_overlay)
          && is_some environment.application_overlay_version)
      (value_error "application overlay and version must accompany each other")
  raise_if
      (not environment.synthetic
        && (not (is_empty environment.validation) || environment.recovery_bounded))
      (value_error "mock validation/recovery evidence requires synthetic snapshot")
