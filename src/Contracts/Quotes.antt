-- ===== src/Contracts/Quotes.antt =====
-- What the policy components return: candidates, plans, quotes, feasibility and requirements.
use openai_model_router.Prelude.{ℕ, String, Option, List, Bool, Dict}
use openai_model_router.Contracts.Enums.{Effort, ValidationLevel, Source, Strength, CostStatus}

pub record Candidate : Type 0 where
  pub model : String
  pub effort : Effort
  pub source : Source

pub record FloorEvidence : Type 0 where
  pub rule_id : String
  pub strength : Strength
  pub min_tier : ℕ

pub record CandidatePlan : Type 0 where
  pub candidates : List Candidate
  pub floors : List FloorEvidence
  pub rationale_codes : List String
  pub matched_rules : List String
  pub hard_floor : ℕ
  pub preferred_floor : ℕ

-- The labels of a quote's pricing version are provenance and are left out.
pub record CostEstimate : Type 0 where
  pub status : CostStatus
  pub amount : Option ℕ
  pub known_subtotal : ℕ
  pub generation_subtotal : ℕ
  pub breakdown : Dict (Option ℕ)
  pub unknown_charges : List String
  pub cache_read_tokens : ℕ
  pub long_context : Bool

pub record Feasibility : Type 0 where
  pub violations : List String
  pub blockers : List String
  pub rationale_codes : List String

pub record ValidationRequirements : Type 0 where
  pub level : ValidationLevel
  pub profiles : List ValidationLevel
  pub checks : List String
  pub evaluator_refs : List String
  pub validator_refs : List String
  pub blockers : List String
  pub evaluator_required : Bool
  pub approval_required : Bool
  pub evidence : String
  pub execution_restrictions : List String
