-- ===== src/Contracts/Bundle.antt =====
-- The validated configuration of src/model_router/core/configuration.py, as far as the router,
-- the candidate plan, the quotes and the recovery policy read it.
use openai_model_router.Prelude.{ℕ, String, Option, List, Bool, Dict}
use openai_model_router.Contracts.Enums.{Effort, HealthState, Strength, FailureType, Period}

pub record LongContextPricing : Type 0 where
  pub input_tokens_gt : ℕ
  pub input_multiplier : Option ℕ
  pub output_multiplier : Option ℕ
  pub cached_input_multiplier : Option ℕ
  pub cache_write_multiplier : Option ℕ

pub record Pricing : Type 0 where
  pub unit_tokens : ℕ
  pub input_usd : Option ℕ
  pub cached_input_usd : Option ℕ
  pub output_usd : Option ℕ
  pub cache_write_input_multiplier : Option ℕ
  pub long_context : Option LongContextPricing

pub record ModelEntry : Type 0 where
  pub tier : String
  pub tier_rank : ℕ
  pub provider_model_id : String
  pub reasoning_efforts : List Effort
  pub capabilities : Dict (Option Bool)
  pub context_window_tokens : ℕ
  pub max_output_tokens : ℕ
  pub configured_enabled : Bool
  pub pricing : Pricing

pub record ComponentRange : Type 0 where
  pub min : ℕ
  pub max : ℕ

pub record Complexity : Type 0 where
  pub total_min : ℕ
  pub total_max : ℕ
  pub components : Dict ComponentRange

pub record CandidateSpec : Type 0 where
  pub model : String
  pub efforts : List Effort

pub record ComplexityBand : Type 0 where
  pub min : ℕ
  pub max : ℕ
  pub candidates : List CandidateSpec

pub record RuleMatch : Type 0 where
  pub families : List String
  pub flags_all : List String
  pub complexity_min : Option ℕ
  pub component_min : Dict ℕ

pub record FloorRule : Type 0 where
  pub id : String
  pub matches : RuleMatch
  pub strength : Strength
  pub min_tier : String
  pub rationale_codes : List String

pub record Modifier : Type 0 where
  pub id : String
  pub matches : RuleMatch
  pub add_candidates : List CandidateSpec
  pub preferred_min_tier : Option String
  pub rationale_codes : List String

-- The failure types of each recovery program.
pub record EscalationPolicy : Type 0 where
  pub quality : List FailureType
  pub infrastructure : List FailureType
  pub tool : List FailureType
  pub diagnostic : List FailureType
  pub terminal : List FailureType

pub record PolicyDocument : Type 0 where
  pub version : String
  pub task_families : List String
  pub complexity : Complexity
  pub complexity_bands : List ComplexityBand
  pub task_family_floors : List FloorRule
  pub modifiers : List Modifier
  pub calibration_version : Option String
  pub floor_candidate_effort_preference : List Effort
  pub exclude_states : List HealthState
  pub escalation : EscalationPolicy
  pub rationale_codes : List String

-- An application's limits name tiers, not ranks.
pub record BudgetLimits : Type 0 where
  pub model_tier_floor : Option String
  pub model_tier_ceiling : Option String
  pub task_cost_ceiling_usd : Option ℕ
  pub task_deadline_ms : Option ℕ
  pub period_spend_ceiling_usd : Option ℕ
  pub period : Option Period
  pub live_execution_enabled : Option Bool

pub record BudgetsDocument : Type 0 where
  pub defaults : BudgetLimits
  pub applications : Dict BudgetLimits

pub record PolicyBundle : Type 0 where
  pub policy : PolicyDocument
  pub models : Dict ModelEntry
  pub budgets : BudgetsDocument
