-- ===== src/Execution/Ports.antt =====
-- The records of core/execution_contracts.py that admission and recovery read.
use openai_model_router.Prelude.{ℕ, String, Option, none, some, List, Bool}
use openai_model_router.Contracts.{FailureType, Effort}

pub record Failure : Type 0 where
  pub failure_type : FailureType
  pub source : String
  pub stage : String
  pub cause_code : String
  pub retryable : Bool
  pub retry_after_ms : Option ℕ

pub record ExecutionLimits : Type 0 where
  pub max_total_generation_attempts : ℕ
  pub max_quality_escalations : ℕ
  pub max_infrastructure_retries : ℕ
  pub max_tool_recoveries : ℕ
  pub max_elapsed_ms : ℕ
  pub initial_backoff_ms : ℕ
  pub max_backoff_ms : ℕ
  pub task_cost_ceiling_usd : ℕ

pub record Counters : Type 0 where
  pub generation_attempts : ℕ
  pub quality_escalations : ℕ
  pub infrastructure_retries : ℕ
  pub tool_recoveries : ℕ

pub record RouteTarget : Type 0 where
  pub model : String
  pub effort : Effort

-- `arguments` is the canonical text of the call's JSON arguments.
pub record ToolCall : Type 0 where
  pub tool : String
  pub operation : String
  pub side_effecting : Bool
  pub idempotency_key : Option String
  pub reconciliation_evidence : Bool
  pub cost_upper_bound_usd : Option ℕ
  pub arguments : String
  pub alternate_tool : Option String

pub record ExecutionControls : Type 0 where
  pub authorized : Bool
  pub authorized_tools : List String
  pub side_effects_authorized : Bool
  pub tool_calls : List ToolCall

-- What a caller passes as an amount: nothing, something that is no amount, or an exact amount
-- in units of the smallest decimal place in use.
pub data Price : Type 0 where
  absent malformed : Price
  exact : ℕ → Price

-- `_amount`
unfoldable pub amount : Price → Option ℕ
amount absent = none
amount malformed = none
amount (exact n) = some n
