-- ===== src/Examples/Funding.antt =====
-- The theorems about execution and recovery at concrete inputs.
use openai_model_router.Prelude.{
  max, min, ◌*◌, ◌^◌, ◌≡◌, refl, none, some, true, false, ok, [], ◌∷◌, ◌↔◌, arith, select, any, all,
  concat_map, insert_by, sort_by, sum, contains, append_once, unique_from, unique, lookup, insert,
}
use openai_model_router.Execution.{
  exact, ExecutionLimits, Counters, ToolCall, ExecutionControls, amount,
}
use openai_model_router.Execution.Admission.{
  failure, block_if, exhausted, attempt_blocker, option_equal, same_call, is_alternate, undeclared,
  unsafe_replay, check_tool, needs_tool, cost_blocker, time_blocker, check_admission,
}
use openai_model_router.Execution.Funds.{
  Authority, debit, rows_of, debited, set_balance, installed, task_balance, remaining, with_rows,
  put_row, new_row, reserve_amount, reserve, settle_row, settle,
}
use openai_model_router.Escalation.Recovery.{
  RecoveryContext, RecoveryAction, ActionKind, action_of, current_route, attempts_exhausted,
  bits_from, bit_length, saturated, backoff_ms, model_of, listed_efforts, later_than, first_of,
  configured_efforts, next_prior_effort, preferred_effort, by_rank, by_falling_rank,
  first_preferred, is_higher, next_tier_target, raise_floor, minimum_permitted_rank, is_fallback,
  permits, fallback_effort, first_healthy, healthy_fallback, quality_exhausted,
  infrastructure_exhausted, quality_tier, quality_effort, quality_recovery, exceeds_bound,
  retry_same, is_impaired, is_lost, fall_back, infrastructure_recovery, is_unsafe, has_alternate,
  tool_recovery, recover, stopped, bounded_stop, choose_recovery,
}
use openai_model_router.Policy.Rules.{
  component_values, check_bounds, validated_classification, find_band, complexity_band,
  rule_matches, find_rank, policy_rank, bands_partition,
}
use openai_model_router.Router.{
  unavailable, impaired, required_rank, without_cache, with_miss, candidate_cost, miss_cost,
  candidate_budget, exclusions, candidate_violations, assess_one, assess, account_unknown,
  candidate_blockers, is_certified, prefer_certified, uncertified_rows, max_default,
  attainable_floor, at_floor, waived_floors, pair_of, recovery_order, is_healthy, selection_pool,
  select_item, reject, stale_snapshot, environment_blockers, selection_codes, decision_of, decide,
  reject_infeasible, reject_recovery, conclude, order_and_conclude, waiver_constraints, choose,
  preflight, supported_candidate, extend_plan, initial_codes, some_capable, capped_codes,
  after_loop, run_loop, route_setting, route,
}
use openai_model_router.Execution.Admission.Exact.{IsAdmitted, check_admission-IsAdmitted}
use openai_model_router.Execution.Funds.Solvency.{IsSolvent}
use openai_model_router.Execution.Funds.Traces.{start, next, reserved, settled, Reaches-IsSolvent}
use openai_model_router.Execution.Funds.Repeats.{Takes, Repeats, reserve-Takes, reserve-Repeats}
use openai_model_router.Escalation.Backoff.{retry_after_or_zero, backoff_ms-eq}
use openai_model_router.Escalation.Permitted.{Bounded, Permitted}
use openai_model_router.Escalation.Programs.{choose_recovery-Permitted}
use openai_model_router.Contracts.{FailureType, Effort}
use openai_model_router.Samples.{environment, bundle, decision}

abbrev limits : ExecutionLimits
limits = record {
  max_total_generation_attempts = 3;
  max_quality_escalations = 1;
  max_infrastructure_retries = 2;
  max_tool_recoveries = 1;
  max_elapsed_ms = 1000;
  initial_backoff_ms = 10;
  max_backoff_ms = 100;
  task_cost_ceiling_usd = 50;
}

abbrev counters : Counters
counters = record {
  generation_attempts = 1;
  quality_escalations = 0;
  infrastructure_retries = 1;
  tool_recoveries = 0;
}

abbrev call : ToolCall
call = record {
  tool = "search";
  operation = "query";
  side_effecting = false;
  idempotency_key = none;
  reconciliation_evidence = false;
  cost_upper_bound_usd = some 3;
  arguments = "{}";
  alternate_tool = none;
}

abbrev controls : ExecutionControls
controls = record {
  authorized = true;
  authorized_tools = "search" ∷ [];
  side_effects_authorized = false;
  tool_calls = call ∷ [];
}

check_admission-IsAdmitted_example :
    (check_admission controls
        (some limits)
        counters
        (some 5)
        (exact 20)
        (exact 3)
        "tool"
        false
        (some call)
      ≡ none)
    ↔ IsAdmitted controls
        (some limits)
        counters
        (some 5)
        (exact 20)
        (exact 3)
        "tool"
        false
        (some call)
check_admission-IsAdmitted_example =
    check_admission-IsAdmitted controls (some limits) counters (some 5) (exact 20) (exact 3) "tool"
      false (some call)

tool_admitted :
    check_admission controls
      (some limits)
      counters
      (some 5)
      (exact 20)
      (exact 3)
      "tool"
      false
      (some call)
    ≡ none
unfolding select any all concat_map insert_by sort_by sum contains append_once unique_from unique
    lookup insert amount failure block_if exhausted attempt_blocker option_equal same_call
    is_alternate undeclared unsafe_replay check_tool needs_tool cost_blocker time_blocker
    check_admission debit rows_of debited set_balance installed task_balance remaining with_rows
    put_row new_row reserve_amount reserve settle_row settle action_of current_route
    attempts_exhausted bits_from bit_length saturated backoff_ms model_of listed_efforts later_than
    first_of configured_efforts next_prior_effort preferred_effort by_rank by_falling_rank
    first_preferred is_higher next_tier_target raise_floor minimum_permitted_rank is_fallback
    permits fallback_effort first_healthy healthy_fallback quality_exhausted
    infrastructure_exhausted quality_tier quality_effort quality_recovery exceeds_bound retry_same
    is_impaired is_lost fall_back infrastructure_recovery is_unsafe has_alternate tool_recovery
    recover stopped bounded_stop choose_recovery component_values check_bounds
    validated_classification find_band complexity_band rule_matches find_rank policy_rank
    bands_partition unavailable impaired required_rank without_cache with_miss candidate_cost
    miss_cost candidate_budget exclusions candidate_violations assess_one assess account_unknown
    candidate_blockers is_certified prefer_certified uncertified_rows max_default attainable_floor
    at_floor waived_floors pair_of recovery_order is_healthy selection_pool select_item reject
    stale_snapshot environment_blockers selection_codes decision_of decide reject_infeasible
    reject_recovery conclude order_and_conclude waiver_constraints choose preflight
    supported_candidate extend_plan initial_codes some_capable capped_codes after_loop run_loop
    route_setting route
tool_admitted = refl

abbrev empty : Authority
empty = record { default_ceiling = some 10; balances = []; reservations = [] }

abbrev paid : Authority
paid = record {
  default_ceiling = some 10;
  balances = ("t", 10) ∷ [];
  reservations = ("t", ("a", record { reserved = 4; actual = some 3; settled = true }) ∷ []) ∷ [];
}

empty-IsSolvent : IsSolvent empty
unfolding select any all concat_map insert_by sort_by sum contains append_once unique_from unique
    lookup insert amount failure block_if exhausted attempt_blocker option_equal same_call
    is_alternate undeclared unsafe_replay check_tool needs_tool cost_blocker time_blocker
    check_admission debit rows_of debited set_balance installed task_balance remaining with_rows
    put_row new_row reserve_amount reserve settle_row settle action_of current_route
    attempts_exhausted bits_from bit_length saturated backoff_ms model_of listed_efforts later_than
    first_of configured_efforts next_prior_effort preferred_effort by_rank by_falling_rank
    first_preferred is_higher next_tier_target raise_floor minimum_permitted_rank is_fallback
    permits fallback_effort first_healthy healthy_fallback quality_exhausted
    infrastructure_exhausted quality_tier quality_effort quality_recovery exceeds_bound retry_same
    is_impaired is_lost fall_back infrastructure_recovery is_unsafe has_alternate tool_recovery
    recover stopped bounded_stop choose_recovery component_values check_bounds
    validated_classification find_band complexity_band rule_matches find_rank policy_rank
    bands_partition unavailable impaired required_rank without_cache with_miss candidate_cost
    miss_cost candidate_budget exclusions candidate_violations assess_one assess account_unknown
    candidate_blockers is_certified prefer_certified uncertified_rows max_default attainable_floor
    at_floor waived_floors pair_of recovery_order is_healthy selection_pool select_item reject
    stale_snapshot environment_blockers selection_codes decision_of decide reject_infeasible
    reject_recovery conclude order_and_conclude waiver_constraints choose preflight
    supported_candidate extend_plan initial_codes some_capable capped_codes after_loop run_loop
    route_setting route
empty-IsSolvent task = omega arith

abbrev after_reserve : Authority
after_reserve = (reserve "t" "a" (exact 4) empty).1

reserved_row :
    lookup "a" (rows_of after_reserve "t")
    ≡ some (record { reserved = 4; actual = none; settled = false })
unfolding select any all concat_map insert_by sort_by sum contains append_once unique_from unique
    lookup insert amount failure block_if exhausted attempt_blocker option_equal same_call
    is_alternate undeclared unsafe_replay check_tool needs_tool cost_blocker time_blocker
    check_admission debit rows_of debited set_balance installed task_balance remaining with_rows
    put_row new_row reserve_amount reserve settle_row settle action_of current_route
    attempts_exhausted bits_from bit_length saturated backoff_ms model_of listed_efforts later_than
    first_of configured_efforts next_prior_effort preferred_effort by_rank by_falling_rank
    first_preferred is_higher next_tier_target raise_floor minimum_permitted_rank is_fallback
    permits fallback_effort first_healthy healthy_fallback quality_exhausted
    infrastructure_exhausted quality_tier quality_effort quality_recovery exceeds_bound retry_same
    is_impaired is_lost fall_back infrastructure_recovery is_unsafe has_alternate tool_recovery
    recover stopped bounded_stop choose_recovery component_values check_bounds
    validated_classification find_band complexity_band rule_matches find_rank policy_rank
    bands_partition unavailable impaired required_rank without_cache with_miss candidate_cost
    miss_cost candidate_budget exclusions candidate_violations assess_one assess account_unknown
    candidate_blockers is_certified prefer_certified uncertified_rows max_default attainable_floor
    at_floor waived_floors pair_of recovery_order is_healthy selection_pool select_item reject
    stale_snapshot environment_blockers selection_codes decision_of decide reject_infeasible
    reject_recovery conclude order_and_conclude waiver_constraints choose preflight
    supported_candidate extend_plan initial_codes some_capable capped_codes after_loop run_loop
    route_setting route
reserved_row = refl

settles : settle "t" "a" (exact 3) after_reserve ≡ ok paid
unfolding select any all concat_map insert_by sort_by sum contains append_once unique_from unique
    lookup insert amount failure block_if exhausted attempt_blocker option_equal same_call
    is_alternate undeclared unsafe_replay check_tool needs_tool cost_blocker time_blocker
    check_admission debit rows_of debited set_balance installed task_balance remaining with_rows
    put_row new_row reserve_amount reserve settle_row settle action_of current_route
    attempts_exhausted bits_from bit_length saturated backoff_ms model_of listed_efforts later_than
    first_of configured_efforts next_prior_effort preferred_effort by_rank by_falling_rank
    first_preferred is_higher next_tier_target raise_floor minimum_permitted_rank is_fallback
    permits fallback_effort first_healthy healthy_fallback quality_exhausted
    infrastructure_exhausted quality_tier quality_effort quality_recovery exceeds_bound retry_same
    is_impaired is_lost fall_back infrastructure_recovery is_unsafe has_alternate tool_recovery
    recover stopped bounded_stop choose_recovery component_values check_bounds
    validated_classification find_band complexity_band rule_matches find_rank policy_rank
    bands_partition unavailable impaired required_rank without_cache with_miss candidate_cost
    miss_cost candidate_budget exclusions candidate_violations assess_one assess account_unknown
    candidate_blockers is_certified prefer_certified uncertified_rows max_default attainable_floor
    at_floor waived_floors pair_of recovery_order is_healthy selection_pool select_item reject
    stale_snapshot environment_blockers selection_codes decision_of decide reject_infeasible
    reject_recovery conclude order_and_conclude waiver_constraints choose preflight
    supported_candidate extend_plan initial_codes some_capable capped_codes after_loop run_loop
    route_setting route
settles = refl

Reaches-IsSolvent_example : IsSolvent paid
Reaches-IsSolvent_example =
    Reaches-IsSolvent empty paid
      (next (next start (reserved "t" "a" (exact 4))) (
        settled "t" "a" (exact 3) (record { reserved = 4; actual = none; settled = false })
          reserved_row (omega arith) settles))
      empty-IsSolvent

no_row : lookup "a" (rows_of empty "t") ≡ none
unfolding select any all concat_map insert_by sort_by sum contains append_once unique_from unique
    lookup insert amount failure block_if exhausted attempt_blocker option_equal same_call
    is_alternate undeclared unsafe_replay check_tool needs_tool cost_blocker time_blocker
    check_admission debit rows_of debited set_balance installed task_balance remaining with_rows
    put_row new_row reserve_amount reserve settle_row settle action_of current_route
    attempts_exhausted bits_from bit_length saturated backoff_ms model_of listed_efforts later_than
    first_of configured_efforts next_prior_effort preferred_effort by_rank by_falling_rank
    first_preferred is_higher next_tier_target raise_floor minimum_permitted_rank is_fallback
    permits fallback_effort first_healthy healthy_fallback quality_exhausted
    infrastructure_exhausted quality_tier quality_effort quality_recovery exceeds_bound retry_same
    is_impaired is_lost fall_back infrastructure_recovery is_unsafe has_alternate tool_recovery
    recover stopped bounded_stop choose_recovery component_values check_bounds
    validated_classification find_band complexity_band rule_matches find_rank policy_rank
    bands_partition unavailable impaired required_rank without_cache with_miss candidate_cost
    miss_cost candidate_budget exclusions candidate_violations assess_one assess account_unknown
    candidate_blockers is_certified prefer_certified uncertified_rows max_default attainable_floor
    at_floor waived_floors pair_of recovery_order is_healthy selection_pool select_item reject
    stale_snapshot environment_blockers selection_codes decision_of decide reject_infeasible
    reject_recovery conclude order_and_conclude waiver_constraints choose preflight
    supported_candidate extend_plan initial_codes some_capable capped_codes after_loop run_loop
    route_setting route
no_row = refl

four : amount (exact 4) ≡ some 4
unfolding select any all concat_map insert_by sort_by sum contains append_once unique_from unique
    lookup insert amount failure block_if exhausted attempt_blocker option_equal same_call
    is_alternate undeclared unsafe_replay check_tool needs_tool cost_blocker time_blocker
    check_admission debit rows_of debited set_balance installed task_balance remaining with_rows
    put_row new_row reserve_amount reserve settle_row settle action_of current_route
    attempts_exhausted bits_from bit_length saturated backoff_ms model_of listed_efforts later_than
    first_of configured_efforts next_prior_effort preferred_effort by_rank by_falling_rank
    first_preferred is_higher next_tier_target raise_floor minimum_permitted_rank is_fallback
    permits fallback_effort first_healthy healthy_fallback quality_exhausted
    infrastructure_exhausted quality_tier quality_effort quality_recovery exceeds_bound retry_same
    is_impaired is_lost fall_back infrastructure_recovery is_unsafe has_alternate tool_recovery
    recover stopped bounded_stop choose_recovery component_values check_bounds
    validated_classification find_band complexity_band rule_matches find_rank policy_rank
    bands_partition unavailable impaired required_rank without_cache with_miss candidate_cost
    miss_cost candidate_budget exclusions candidate_violations assess_one assess account_unknown
    candidate_blockers is_certified prefer_certified uncertified_rows max_default attainable_floor
    at_floor waived_floors pair_of recovery_order is_healthy selection_pool select_item reject
    stale_snapshot environment_blockers selection_codes decision_of decide reject_infeasible
    reject_recovery conclude order_and_conclude waiver_constraints choose preflight
    supported_candidate extend_plan initial_codes some_capable capped_codes after_loop run_loop
    route_setting route
four = refl

reserve-Takes_example : Takes "t" 4 empty (reserve "t" "a" (exact 4) empty)
reserve-Takes_example = reserve-Takes "t" "a" (exact 4) empty 4 no_row four

reserve-Repeats_example : Repeats "t" "a" (exact 4) (reserve "t" "a" (exact 4) empty)
reserve-Repeats_example = reserve-Repeats "t" "a" (exact 4) empty

abbrev failing : RecoveryContext
failing = record {
  decision = decision;
  floors = [];
  failure = record {
    failure_type = FailureType.timeout;
    source = "provider";
    stage = "generation";
    cause_code = "timeout";
    retryable = true;
    retry_after_ms = none;
  };
  counters = counters;
  limits = limits;
  environment = environment;
  remaining_usd = 20;
  elapsed_ms = 5;
  validated = false;
  original_failure = none;
  tool_call = none;
  tool_retryable = false;
  alternate_authorized = false;
}

backoff_ms-eq_example : backoff_ms failing ≡ max (min (10 * 2 ^ 1) 100) (retry_after_or_zero none)
backoff_ms-eq_example = backoff_ms-eq failing

abbrev retry : RecoveryAction
retry = record {
  action = ActionKind.retry_backoff;
  failure = FailureType.timeout;
  original_failure = none;
  route = some (record { model = "small"; effort = Effort.low });
  validated = false;
  backoff_ms = 20;
  rationale_codes = "INFRASTRUCTURE_RECOVERY" ∷ [];
  reason = "bounded_infrastructure_retry";
}

retries : choose_recovery failing bundle ≡ ok retry
unfolding select any all concat_map insert_by sort_by sum contains append_once unique_from unique
    lookup insert amount failure block_if exhausted attempt_blocker option_equal same_call
    is_alternate undeclared unsafe_replay check_tool needs_tool cost_blocker time_blocker
    check_admission debit rows_of debited set_balance installed task_balance remaining with_rows
    put_row new_row reserve_amount reserve settle_row settle action_of current_route
    attempts_exhausted bits_from bit_length saturated backoff_ms model_of listed_efforts later_than
    first_of configured_efforts next_prior_effort preferred_effort by_rank by_falling_rank
    first_preferred is_higher next_tier_target raise_floor minimum_permitted_rank is_fallback
    permits fallback_effort first_healthy healthy_fallback quality_exhausted
    infrastructure_exhausted quality_tier quality_effort quality_recovery exceeds_bound retry_same
    is_impaired is_lost fall_back infrastructure_recovery is_unsafe has_alternate tool_recovery
    recover stopped bounded_stop choose_recovery component_values check_bounds
    validated_classification find_band complexity_band rule_matches find_rank policy_rank
    bands_partition unavailable impaired required_rank without_cache with_miss candidate_cost
    miss_cost candidate_budget exclusions candidate_violations assess_one assess account_unknown
    candidate_blockers is_certified prefer_certified uncertified_rows max_default attainable_floor
    at_floor waived_floors pair_of recovery_order is_healthy selection_pool select_item reject
    stale_snapshot environment_blockers selection_codes decision_of decide reject_infeasible
    reject_recovery conclude order_and_conclude waiver_constraints choose preflight
    supported_candidate extend_plan initial_codes some_capable capped_codes after_loop run_loop
    route_setting route
retries = refl

choose_recovery-Permitted_example : Bounded failing retry × Permitted failing bundle retry
choose_recovery-Permitted_example = choose_recovery-Permitted failing bundle retry retries
