-- ===== src/Examples/Budgeting.antt =====
-- The theorems about the policy components at the task of `Samples`.
use openai_model_router.Prelude.{
  false, ◌≡◌, refl, none, some, true, ok, [], ◌∷◌, ◌↔◌, ◌≤◌, ◌<◌, ◌≢◌, arith, select, any, all,
  concat_map, insert_by, sort_by, sum, contains, append_once, unique_from, unique, lookup, insert,
}
use openai_model_router.Contracts.{
  Effort, CostStatus, Limits, Source, CandidatePlan, ValidationRequirements, EnvironmentSnapshot,
  total,
}
use openai_model_router.Policy.Capabilities.{check_capabilities}
use openai_model_router.Policy.Costs.{
  ceil_div, token_charge, multiply, is_long, multiplier, cache_read, subtotal, generation_charges,
  generation_unknown, domain_charge, required_charges, unpriced, quote, estimate_cost,
}
use openai_model_router.Policy.Budgets.{
  tier_ranks, tier_rank, normalize_tier, normalize_limits, present_or, replace_present, join,
  period_differs, tightened, tighten, validate_period, tighten_optional, configured_overlay,
  tighten_configured, deployment_limits, resolve_limits, charge, extra_charges, unfunded_from,
  first_unfunded_charge, tiers_conflict, compared_amount, ceiling_violations, is_known,
  cost_blockers, remaining_violations, budget_name, remaining_blockers, readiness_blockers,
  check_budget,
}
use openai_model_router.Policy.Rules.{
  component_values, check_bounds, validated_classification, find_band, complexity_band,
  rule_matches, find_rank, policy_rank, bands_partition,
}
use openai_model_router.Policy.Modifiers.{
  same_pair, has_pair, add_efforts, add_candidates, extend_unique, add_floor, match_floors,
  add_modifier, add_preferred, apply_modifier, match_modifiers, supported_in_order, within_limits,
  enabled_models, minimum, nearer, ranks_of, floor_entries, fallback_entries, applicable_floor,
  floor_applies, configured_candidates, add_if, collect, start, build_candidates,
}
use openai_model_router.Policy.Validation.{
  mock, profile_blockers, add_profile, visit_optional, visit, visit_all, strongest,
  requested_levels, determine_validation,
}
use openai_model_router.Policy.Capabilities.Exact.{Serves, check_capabilities-Serves}
use openai_model_router.Policy.Costs.Coherent.{IsPriced, estimate_cost-known}
use openai_model_router.Policy.Budgets.Tighten.{Narrows, tighten-Narrows}
use openai_model_router.Policy.Budgets.Resolve.{resolve_limits-Narrows_deployment}
use openai_model_router.Policy.Budgets.Funding.{
  FitsBudget, first_unfunded_charge-ne-none, check_budget-FitsBudget,
}
use openai_model_router.Policy.Modifiers.Distinct.{IsDistinct}
use openai_model_router.Policy.Modifiers.Plan.{StartsWithBand, build_candidates-IsDistinct}
use openai_model_router.Samples.{
  request, classification, environment, bundle, config, capped_limits, open_limits, small,
}

abbrev requirements : ValidationRequirements
requirements = determine_validation request environment config

check_capabilities-Serves_example :
    ((check_capabilities request small).violations ≡ []) ↔ Serves request small
check_capabilities-Serves_example = check_capabilities-Serves request small

estimate_cost-known_example :
    ((estimate_cost 10 request small environment requirements).status ≡ CostStatus.known) ↔ (
      IsPriced (estimate_cost 10 request small environment requirements).breakdown
      × ((estimate_cost 10 request small environment requirements).amount
          ≡ some (subtotal (estimate_cost 10 request small environment requirements).breakdown)))
estimate_cost-known_example = estimate_cost-known 10 request small environment requirements

check_budget-FitsBudget_example :
    ((check_budget
        (estimate_cost 10 request small environment requirements)
        capped_limits
        environment).violations
      ≡ [])
    ↔ FitsBudget (estimate_cost 10 request small environment requirements) capped_limits environment
check_budget-FitsBudget_example =
    check_budget-FitsBudget 10 request small environment requirements capped_limits

abbrev tightened_limits : Limits
tightened_limits = record capped_limits { task_deadline_ms = some 100 }

tightens :
    tighten capped_limits (record open_limits { task_deadline_ms = some 100 }) ≡ ok tightened_limits
unfolding select any all concat_map insert_by sort_by sum contains append_once unique_from unique
    lookup insert total check_capabilities ceil_div token_charge multiply is_long multiplier
    cache_read subtotal generation_charges generation_unknown domain_charge required_charges
    unpriced quote estimate_cost tier_ranks tier_rank normalize_tier normalize_limits present_or
    replace_present join period_differs tightened tighten validate_period tighten_optional
    configured_overlay tighten_configured deployment_limits resolve_limits charge extra_charges
    unfunded_from first_unfunded_charge tiers_conflict compared_amount ceiling_violations is_known
    cost_blockers remaining_violations budget_name remaining_blockers readiness_blockers
    check_budget component_values check_bounds validated_classification find_band complexity_band
    rule_matches find_rank policy_rank bands_partition same_pair has_pair add_efforts add_candidates
    extend_unique add_floor match_floors add_modifier add_preferred apply_modifier match_modifiers
    supported_in_order within_limits enabled_models minimum nearer ranks_of floor_entries
    fallback_entries applicable_floor floor_applies configured_candidates add_if collect start
    build_candidates mock profile_blockers add_profile visit_optional visit visit_all strongest
    requested_levels determine_validation
tightens = refl

tighten-Narrows_example :
    Narrows capped_limits tightened_limits
    × Narrows (record open_limits { task_deadline_ms = some 100 }) tightened_limits
tighten-Narrows_example =
    tighten-Narrows capped_limits (record open_limits { task_deadline_ms = some 100 }) tightens

abbrev pub effective : Limits
effective = record {
  model_tier_floor = none;
  model_tier_ceiling = some 2;
  task_cost_ceiling_usd = some 900;
  task_deadline_ms = some 5000;
  period_spend_ceiling_usd = none;
  period = none;
  live_execution_enabled = some true;
}

abbrev defaults : Limits
defaults = record effective { task_cost_ceiling_usd = some 1000 }

normalized : normalize_limits bundle.budgets.defaults bundle.models ≡ ok defaults
unfolding select any all concat_map insert_by sort_by sum contains append_once unique_from unique
    lookup insert total check_capabilities ceil_div token_charge multiply is_long multiplier
    cache_read subtotal generation_charges generation_unknown domain_charge required_charges
    unpriced quote estimate_cost tier_ranks tier_rank normalize_tier normalize_limits present_or
    replace_present join period_differs tightened tighten validate_period tighten_optional
    configured_overlay tighten_configured deployment_limits resolve_limits charge extra_charges
    unfunded_from first_unfunded_charge tiers_conflict compared_amount ceiling_violations is_known
    cost_blockers remaining_violations budget_name remaining_blockers readiness_blockers
    check_budget component_values check_bounds validated_classification find_band complexity_band
    rule_matches find_rank policy_rank bands_partition same_pair has_pair add_efforts add_candidates
    extend_unique add_floor match_floors add_modifier add_preferred apply_modifier match_modifiers
    supported_in_order within_limits enabled_models minimum nearer ranks_of floor_entries
    fallback_entries applicable_floor floor_applies configured_candidates add_if collect start
    build_candidates mock profile_blockers add_profile visit_optional visit visit_all strongest
    requested_levels determine_validation
normalized = refl

-- A snapshot that is not synthetic, with its own ceiling.
abbrev deployed : EnvironmentSnapshot
deployed = record environment {
  synthetic = false;
  recovery_bounded = false;
  budget = record open_limits { task_cost_ceiling_usd = some 800 };
}

abbrev deployed_limits : Limits
deployed_limits = record effective { task_cost_ceiling_usd = some 800 }

deployed_resolved : resolve_limits request deployed bundle ≡ ok deployed_limits
unfolding select any all concat_map insert_by sort_by sum contains append_once unique_from unique
    lookup insert total check_capabilities ceil_div token_charge multiply is_long multiplier
    cache_read subtotal generation_charges generation_unknown domain_charge required_charges
    unpriced quote estimate_cost tier_ranks tier_rank normalize_tier normalize_limits present_or
    replace_present join period_differs tightened tighten validate_period tighten_optional
    configured_overlay tighten_configured deployment_limits resolve_limits charge extra_charges
    unfunded_from first_unfunded_charge tiers_conflict compared_amount ceiling_violations is_known
    cost_blockers remaining_violations budget_name remaining_blockers readiness_blockers
    check_budget component_values check_bounds validated_classification find_band complexity_band
    rule_matches find_rank policy_rank bands_partition same_pair has_pair add_efforts add_candidates
    extend_unique add_floor match_floors add_modifier add_preferred apply_modifier match_modifiers
    supported_in_order within_limits enabled_models minimum nearer ranks_of floor_entries
    fallback_entries applicable_floor floor_applies configured_candidates add_if collect start
    build_candidates mock profile_blockers add_profile visit_optional visit visit_all strongest
    requested_levels determine_validation
deployed_resolved = refl

resolve_limits-Narrows_deployment_example :
    Narrows defaults deployed_limits × Narrows deployed.budget deployed_limits
resolve_limits-Narrows_deployment_example =
    resolve_limits-Narrows_deployment request deployed bundle defaults deployed_limits refl
      normalized deployed_resolved

abbrev pub plan : CandidatePlan
plan = record {
  candidates =
      record { model = "small"; effort = Effort.low; source = Source.prior }
      ∷ record { model = "small"; effort = Effort.medium; source = Source.prior }
      ∷ record { model = "large"; effort = Effort.low; source = Source.prior }
      ∷ [];
  floors = [];
  rationale_codes = "BASELINE_PRIOR" ∷ [];
  matched_rules = [];
  hard_floor = 1;
  preferred_floor = 1;
}

pub built : build_candidates classification bundle effective ≡ ok plan
unfolding select any all concat_map insert_by sort_by sum contains append_once unique_from unique
    lookup insert total check_capabilities ceil_div token_charge multiply is_long multiplier
    cache_read subtotal generation_charges generation_unknown domain_charge required_charges
    unpriced quote estimate_cost tier_ranks tier_rank normalize_tier normalize_limits present_or
    replace_present join period_differs tightened tighten validate_period tighten_optional
    configured_overlay tighten_configured deployment_limits resolve_limits charge extra_charges
    unfunded_from first_unfunded_charge tiers_conflict compared_amount ceiling_violations is_known
    cost_blockers remaining_violations budget_name remaining_blockers readiness_blockers
    check_budget component_values check_bounds validated_classification find_band complexity_band
    rule_matches find_rank policy_rank bands_partition same_pair has_pair add_efforts add_candidates
    extend_unique add_floor match_floors add_modifier add_preferred apply_modifier match_modifiers
    supported_in_order within_limits enabled_models minimum nearer ranks_of floor_entries
    fallback_entries applicable_floor floor_applies configured_candidates add_if collect start
    build_candidates mock profile_blockers add_profile visit_optional visit visit_all strongest
    requested_levels determine_validation
built = refl

build_candidates-IsDistinct_example :
    IsDistinct plan.candidates × StartsWithBand classification bundle effective plan.candidates
build_candidates-IsDistinct_example =
    build_candidates-IsDistinct classification bundle effective plan built

-- A required tool charge of 5 follows the generation charges of 7, with 9 left.
abbrev charged : EnvironmentSnapshot
charged = record environment { required_tool_charge = true; required_tool_charge_usd = some 5 }

generation_fits : (estimate_cost 10 request small charged requirements).generation_subtotal ≤ 9
unfolding select any all concat_map insert_by sort_by sum contains append_once unique_from unique
    lookup insert total check_capabilities ceil_div token_charge multiply is_long multiplier
    cache_read subtotal generation_charges generation_unknown domain_charge required_charges
    unpriced quote estimate_cost tier_ranks tier_rank normalize_tier normalize_limits present_or
    replace_present join period_differs tightened tighten validate_period tighten_optional
    configured_overlay tighten_configured deployment_limits resolve_limits charge extra_charges
    unfunded_from first_unfunded_charge tiers_conflict compared_amount ceiling_violations is_known
    cost_blockers remaining_violations budget_name remaining_blockers readiness_blockers
    check_budget component_values check_bounds validated_classification find_band complexity_band
    rule_matches find_rank policy_rank bands_partition same_pair has_pair add_efforts add_candidates
    extend_unique add_floor match_floors add_modifier add_preferred apply_modifier match_modifiers
    supported_in_order within_limits enabled_models minimum nearer ranks_of floor_entries
    fallback_entries applicable_floor floor_applies configured_candidates add_if collect start
    build_candidates mock profile_blockers add_profile visit_optional visit visit_all strongest
    requested_levels determine_validation
generation_fits = omega arith

subtotal_crosses : 9 < (estimate_cost 10 request small charged requirements).known_subtotal
unfolding select any all concat_map insert_by sort_by sum contains append_once unique_from unique
    lookup insert total check_capabilities ceil_div token_charge multiply is_long multiplier
    cache_read subtotal generation_charges generation_unknown domain_charge required_charges
    unpriced quote estimate_cost tier_ranks tier_rank normalize_tier normalize_limits present_or
    replace_present join period_differs tightened tighten validate_period tighten_optional
    configured_overlay tighten_configured deployment_limits resolve_limits charge extra_charges
    unfunded_from first_unfunded_charge tiers_conflict compared_amount ceiling_violations is_known
    cost_blockers remaining_violations budget_name remaining_blockers readiness_blockers
    check_budget component_values check_bounds validated_classification find_band complexity_band
    rule_matches find_rank policy_rank bands_partition same_pair has_pair add_efforts add_candidates
    extend_unique add_floor match_floors add_modifier add_preferred apply_modifier match_modifiers
    supported_in_order within_limits enabled_models minimum nearer ranks_of floor_entries
    fallback_entries applicable_floor floor_applies configured_candidates add_if collect start
    build_candidates mock profile_blockers add_profile visit_optional visit visit_all strongest
    requested_levels determine_validation
subtotal_crosses = omega arith

first_unfunded_charge-ne-none_example :
    first_unfunded_charge (estimate_cost 10 request small charged requirements) 9 ≢ none
first_unfunded_charge-ne-none_example =
    first_unfunded_charge-ne-none 10 request small charged requirements 9 generation_fits
      subtotal_crosses
