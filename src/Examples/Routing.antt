-- ===== src/Examples/Routing.antt =====
-- The theorems about `route` at the task of `Samples`.
use openai_model_router.Prelude.{
  ◌≡◌, refl, none, ok, select, any, all, concat_map, insert_by, sort_by, sum, contains, append_once,
  unique_from, unique, lookup, insert,
}
use openai_model_router.Contracts.{total}
use openai_model_router.Policy.Capabilities.{check_capabilities}
use openai_model_router.Policy.Costs.{
  ceil_div, token_charge, multiply, is_long, multiplier, cache_read, subtotal, generation_charges,
  generation_unknown, domain_charge, required_charges, unpriced, quote, estimate_cost,
}
use openai_model_router.Policy.Budgets.{
  tier_ranks, tier_rank, normalize_tier, normalize_limits, present_or, replace_present, join,
  period_differs, tightened, tighten, validate_period, tighten_optional, configured_overlay,
  tighten_configured, deployment_limits, resolve_limits, charge, extra_charges, unfunded_from,
  first_unfunded_charge, tiers_conflict, compared_amount, ceiling_violations, is_known,
  cost_blockers, remaining_violations, budget_name, remaining_blockers, readiness_blockers,
  check_budget,
}
use openai_model_router.Policy.Rules.{
  component_values, check_bounds, validated_classification, find_band, complexity_band,
  rule_matches, find_rank, policy_rank, bands_partition,
}
use openai_model_router.Policy.Modifiers.{
  same_pair, has_pair, add_efforts, add_candidates, extend_unique, add_floor, match_floors,
  add_modifier, add_preferred, apply_modifier, match_modifiers, supported_in_order, within_limits,
  enabled_models, minimum, nearer, ranks_of, floor_entries, fallback_entries, applicable_floor,
  floor_applies, configured_candidates, add_if, collect, start, build_candidates,
}
use openai_model_router.Policy.Validation.{
  mock, profile_blockers, add_profile, visit_optional, visit, visit_all, strongest,
  requested_levels, determine_validation,
}
use openai_model_router.Router.{
  valid, unavailable, impaired, required_rank, without_cache, with_miss, candidate_cost, miss_cost,
  candidate_budget, exclusions, candidate_violations, assess_one, assess, account_unknown,
  candidate_blockers, is_certified, prefer_certified, uncertified_rows, max_default,
  attainable_floor, at_floor, waived_floors, pair_of, recovery_order, is_healthy, selection_pool,
  select_item, reject, stale_snapshot, environment_blockers, selection_codes, decision_of, decide,
  reject_infeasible, reject_recovery, conclude, order_and_conclude, waiver_constraints, choose,
  preflight, supported_candidate, extend_plan, initial_codes, some_capable, capped_codes,
  after_loop, run_loop, route_setting, route,
}
use openai_model_router.Router.Laws.Admission.{Admits, route-Admits}
use openai_model_router.Router.Laws.Readiness.{IsReady, route-IsReady}
use openai_model_router.Samples.{
  request, classification, environment, refreshed, bundle, config, decision,
}

pub routed :
    (route 10 request classification environment bundle config none ≡ ok (valid decision))
    × (route 10 request classification refreshed bundle config none ≡ ok (valid decision))
unfolding select any all concat_map insert_by sort_by sum contains append_once unique_from unique
    lookup insert total check_capabilities ceil_div token_charge multiply is_long multiplier
    cache_read subtotal generation_charges generation_unknown domain_charge required_charges
    unpriced quote estimate_cost tier_ranks tier_rank normalize_tier normalize_limits present_or
    replace_present join period_differs tightened tighten validate_period tighten_optional
    configured_overlay tighten_configured deployment_limits resolve_limits charge extra_charges
    unfunded_from first_unfunded_charge tiers_conflict compared_amount ceiling_violations is_known
    cost_blockers remaining_violations budget_name remaining_blockers readiness_blockers
    check_budget component_values check_bounds validated_classification find_band complexity_band
    rule_matches find_rank policy_rank bands_partition same_pair has_pair add_efforts add_candidates
    extend_unique add_floor match_floors add_modifier add_preferred apply_modifier match_modifiers
    supported_in_order within_limits enabled_models minimum nearer ranks_of floor_entries
    fallback_entries applicable_floor floor_applies configured_candidates add_if collect start
    build_candidates mock profile_blockers add_profile visit_optional visit visit_all strongest
    requested_levels determine_validation unavailable impaired required_rank without_cache with_miss
    candidate_cost miss_cost candidate_budget exclusions candidate_violations assess_one assess
    account_unknown candidate_blockers is_certified prefer_certified uncertified_rows max_default
    attainable_floor at_floor waived_floors pair_of recovery_order is_healthy selection_pool
    select_item reject stale_snapshot environment_blockers selection_codes decision_of decide
    reject_infeasible reject_recovery conclude order_and_conclude waiver_constraints choose
    preflight supported_candidate extend_plan initial_codes some_capable capped_codes after_loop
    run_loop route_setting route
routed = (refl, refl)

route-Admits_example : Admits 10 request classification environment bundle config none decision
route-Admits_example =
    route-Admits 10 request classification environment bundle config none decision routed.0

route-IsReady_example : IsReady 10 request environment bundle.models decision
route-IsReady_example =
    route-IsReady 10 request classification environment bundle config none decision routed.0 refl
