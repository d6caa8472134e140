-- ===== src/Samples.antt =====
-- The routing task of the examples: two models, one complexity band, a funded live task.
use openai_model_router.Prelude.{none, some, [], ◌∷◌, true, false, Dict}
use openai_model_router.Contracts.{
  Effort, ValidationLevel, Consequence, HealthState, AccountAccess, FailureType, Classification,
  Limits, Request, ModelHealth, EnvironmentSnapshot, Pricing, ModelEntry, ComponentRange,
  ComplexityBand, CostStatus, PolicyDocument, PolicyBundle,
}
use openai_model_router.Router.{RouteDecision}
use openai_model_router.Policy.Validation.{ValidationProfile, ValidationDocument}

abbrev pub open_limits : Limits
open_limits = record {
  model_tier_floor = none;
  model_tier_ceiling = none;
  task_cost_ceiling_usd = none;
  task_deadline_ms = none;
  period_spend_ceiling_usd = none;
  period = none;
  live_execution_enabled = none;
}

abbrev pub capped_limits : Limits
capped_limits = record open_limits { model_tier_ceiling = some 2; task_cost_ceiling_usd = some 900 }

abbrev pub request : Request
request = record {
  application_id = none;
  requirements = "text" ∷ [];
  consequence = Consequence.low;
  context = record {
    input_tokens = 20;
    expected_output_tokens = 10;
    cached_input_tokens = 0;
    cache_write_tokens = 0;
    cache_evidence = false;
  };
  constraints = capped_limits;
  requested_validation = none;
  approval_evidence = false;
  domain_clearance_evidence = false;
  side_effecting_tool = false;
  policy_version = none;
}

abbrev pub classification : Classification
classification = record {
  task_family = "code";
  task_subclass = none;
  components = record {
    reasoning_depth = 1;
    step_dependency = 1;
    context_synthesis = 0;
    technical_precision = 0;
    ambiguity = 0;
    tool_orchestration = 0;
    reliability_requirement = 0;
  };
  certain = true;
  flags = [];
  supplied_total = none;
}

abbrev pub pricing : Pricing
pricing = record {
  unit_tokens = 10;
  input_usd = some 2;
  cached_input_usd = some 1;
  output_usd = some 3;
  cache_write_input_multiplier = some 1;
  long_context = none;
}

abbrev pub small : ModelEntry
small = record {
  tier = "standard";
  tier_rank = 1;
  provider_model_id = "small-1";
  reasoning_efforts = Effort.low ∷ Effort.medium ∷ [];
  capabilities = ("text", some true) ∷ [];
  context_window_tokens = 100;
  max_output_tokens = 50;
  configured_enabled = true;
  pricing = pricing;
}

abbrev pub large : ModelEntry
large = record small { tier = "advanced"; tier_rank = 2; provider_model_id = "large-1" }

abbrev pub models : Dict ModelEntry
models = ("small", small) ∷ ("large", large) ∷ []

abbrev pub band : ComplexityBand
band = record {
  min = 0;
  max = 35;
  candidates =
      record { model = "small"; efforts = Effort.low ∷ Effort.medium ∷ [] }
      ∷ record { model = "large"; efforts = Effort.low ∷ [] }
      ∷ [];
}

abbrev pub component : ComponentRange
component = record { min = 0; max = 5 }

abbrev pub policy : PolicyDocument
policy = record {
  version = "p1";
  task_families = "code" ∷ [];
  complexity = record {
    total_min = 0;
    total_max = 35;
    components =
        ("reasoning_depth", component)
        ∷ ("step_dependency", component)
        ∷ ("context_synthesis", component)
        ∷ ("technical_precision", component)
        ∷ ("ambiguity", component)
        ∷ ("tool_orchestration", component)
        ∷ ("reliability_requirement", component)
        ∷ [];
  };
  complexity_bands = band ∷ [];
  task_family_floors = [];
  modifiers = [];
  calibration_version = none;
  floor_candidate_effort_preference = Effort.low ∷ Effort.medium ∷ [];
  exclude_states = HealthState.unhealthy ∷ [];
  escalation = record {
    quality = FailureType.quality_failure ∷ FailureType.validation_failure ∷ [];
    infrastructure = FailureType.timeout ∷ FailureType.provider_failure ∷ [];
    tool = FailureType.tool_failure ∷ [];
    diagnostic = FailureType.malformed_output ∷ [];
    terminal = FailureType.budget_failure ∷ [];
  };
  rationale_codes = "BASELINE_PRIOR" ∷ [];
}

abbrev pub bundle : PolicyBundle
bundle = record {
  policy = policy;
  models = models;
  budgets = record {
    defaults = record {
      model_tier_floor = none;
      model_tier_ceiling = some "advanced";
      task_cost_ceiling_usd = some 1000;
      task_deadline_ms = some 5000;
      period_spend_ceiling_usd = none;
      period = none;
      live_execution_enabled = some true;
    };
    applications = [];
  };
}

abbrev pub healthy : ModelHealth
healthy = record {
  state = HealthState.healthy;
  account_access = AccountAccess.verified;
  usable = true;
}

abbrev pub environment : EnvironmentSnapshot
environment = record {
  synthetic = true;
  clock = 10;
  health_snapshot_id = some "health-1";
  health_observed_at = some 9;
  health_valid_until = some 20;
  models = ("small", healthy) ∷ ("large", healthy) ∷ [];
  budget = open_limits;
  remaining_usd = some 500;
  trusted_application_id = none;
  application_overlay = none;
  application_overlay_version = none;
  validation = [];
  required_evaluator_cost_usd = none;
  required_domain_validator_cost_usd = none;
  required_tool_charge = false;
  required_tool_charge_usd = none;
  requested_validation = none;
  minimum_next_action_ms = none;
  recovery_bounded = true;
  durable_retention = true;
}

-- The environment with the health evidence of another snapshot.
abbrev pub refreshed : EnvironmentSnapshot
refreshed = record environment {
  health_snapshot_id = some "health-2";
  health_observed_at = some 8;
  health_valid_until = some 18;
}

abbrev pub profile_of : ValidationLevel → ValidationProfile
profile_of level = record {
  application_domain = false;
  base_profile = none;
  required_semantic_profile = none;
  checks_when_applicable = [];
  evaluator_ref = none;
  validator_ref = none;
}

abbrev pub config : ValidationDocument
config = record {
  default_profile = ValidationLevel.v0;
  profiles = profile_of;
  evaluator_enabled = λ ref. true;
  consequence_defaults = λ consequence. record {
    profile = ValidationLevel.v0;
    evidence = "none";
    approval_gate = false;
    execution_restrictions = [];
  };
}

-- What `route` decides for the task.
abbrev pub decision : RouteDecision
decision = record {
  selected_model_alias = "small";
  provider_model_id = "small-1";
  model_tier = 1;
  reasoning_effort = Effort.low;
  validation_requirements = record {
    level = ValidationLevel.v0;
    profiles = ValidationLevel.v0 ∷ [];
    checks = [];
    evaluator_refs = [];
    validator_refs = [];
    blockers = [];
    evaluator_required = false;
    approval_required = false;
    evidence = "none";
    execution_restrictions = [];
  };
  estimated_cost = record {
    status = CostStatus.known;
    amount = some 7;
    known_subtotal = 7;
    generation_subtotal = 7;
    breakdown =
        ("uncached_input", some 4)
        ∷ ("cache_read_input", some 0)
        ∷ ("cache_write_input", some 0)
        ∷ ("output", some 3)
        ∷ [];
    unknown_charges = [];
    cache_read_tokens = 0;
    long_context = false;
  };
  effective_limits = record {
    model_tier_floor = none;
    model_tier_ceiling = some 2;
    task_cost_ceiling_usd = some 900;
    task_deadline_ms = some 5000;
    period_spend_ceiling_usd = none;
    period = none;
    live_execution_enabled = some true;
  };
  complexity_score = 2;
  rationale_codes = "BASELINE_PRIOR" ∷ [];
  readiness_blockers = [];
  executable = true;
}
