-- ===== src/Examples/Planned.antt =====
-- The theorems about limits, plans and required validation at documents with their own rules.
use openai_model_router.Prelude.{
  ◌≡◌, refl, none, some, ok, [], ◌∷◌, ◌≤◌, arith, In, here, there, select, any, all, concat_map,
  insert_by, sort_by, sum, contains, append_once, unique_from, unique, lookup, insert,
}
use openai_model_router.Contracts.{
  PolicyBundle, Candidate, preferred, Request, Effort, ValidationLevel, Limits, Source,
  CandidatePlan, EnvironmentSnapshot, total,
}
use openai_model_router.Policy.Capabilities.{check_capabilities}
use openai_model_router.Policy.Costs.{
  ceil_div, token_charge, multiply, is_long, multiplier, cache_read, subtotal, generation_charges,
  generation_unknown, domain_charge, required_charges, unpriced, quote, estimate_cost,
}
use openai_model_router.Policy.Budgets.{
  tier_ranks, tier_rank, normalize_tier, normalize_limits, present_or, replace_present, join,
  period_differs, tightened, tighten, validate_period, tighten_optional, configured_overlay,
  tighten_configured, deployment_limits, resolve_limits, charge, extra_charges, unfunded_from,
  first_unfunded_charge, tiers_conflict, compared_amount, ceiling_violations, is_known,
  cost_blockers, remaining_violations, budget_name, remaining_blockers, readiness_blockers,
  check_budget,
}
use openai_model_router.Policy.Rules.{
  component_values, check_bounds, validated_classification, find_band, complexity_band,
  rule_matches, find_rank, policy_rank, bands_partition,
}
use openai_model_router.Policy.Modifiers.{
  same_pair, has_pair, add_efforts, add_candidates, extend_unique, add_floor, match_floors,
  add_modifier, add_preferred, apply_modifier, match_modifiers, supported_in_order, within_limits,
  enabled_models, minimum, nearer, ranks_of, floor_entries, fallback_entries, applicable_floor,
  floor_applies, configured_candidates, add_if, collect, start, build_candidates,
}
use openai_model_router.Policy.Validation.{
  mock, profile_blockers, add_profile, visit_optional, visit, visit_all, strongest,
  requested_levels, determine_validation,
}
use openai_model_router.Policy.Budgets.Tighten.{Narrows}
use openai_model_router.Policy.Budgets.Resolve.{IsPaired, NarrowsOptional, resolve_limits-Narrows}
use openai_model_router.Policy.Modifiers.Origins.{Origin}
use openai_model_router.Policy.Modifiers.Floors.{IsBounded}
use openai_model_router.Policy.Modifiers.Plan.{
  lowest_rank, build_candidates-Origin, build_candidates-IsBounded,
}
use openai_model_router.Policy.Validation.Closed.{
  IsLayered, IsClosed, determine_validation-IsClosed,
}
use openai_model_router.Samples.{
  request, classification, environment, bundle, config, open_limits, policy,
}
use openai_model_router.Contracts.{
  BudgetLimits, FloorRule, Modifier, RuleMatch, ValidationLevel, v0, v1, v2, v3, hard,
}
use openai_model_router.Policy.Budgets.Resolve.{IsConfigured}
use openai_model_router.Policy.Modifiers.Plan.{IsPrior, IsAdded, HoldsRules}
use openai_model_router.Policy.Validation.{ValidationDocument, ValidationProfile}
use openai_model_router.Policy.Validation.Closed.{GoesDown, by_caller}
use openai_model_router.Samples.{profile_of}
use openai_model_router.Examples.Budgeting.{effective}

-- An application with an overlay and with configured limits.
abbrev tenant : EnvironmentSnapshot
tenant = record environment {
  trusted_application_id = some "app";
  application_overlay = some (record open_limits { task_deadline_ms = some 4000 });
  application_overlay_version = some "o1";
}

abbrev configured_limits : BudgetLimits
configured_limits = record bundle.budgets.defaults { task_cost_ceiling_usd = some 700 }

abbrev tenant_bundle : PolicyBundle
tenant_bundle = record bundle {
  budgets = record bundle.budgets { applications = ("app", configured_limits) ∷ [] };
}

abbrev tenant_limits : Limits
tenant_limits = record effective { task_cost_ceiling_usd = some 700; task_deadline_ms = some 4000 }

tenant_resolved : resolve_limits request tenant tenant_bundle ≡ ok tenant_limits
unfolding select any all concat_map insert_by sort_by sum contains append_once unique_from unique
    lookup insert total check_capabilities ceil_div token_charge multiply is_long multiplier
    cache_read subtotal generation_charges generation_unknown domain_charge required_charges
    unpriced quote estimate_cost tier_ranks tier_rank normalize_tier normalize_limits present_or
    replace_present join period_differs tightened tighten validate_period tighten_optional
    configured_overlay tighten_configured deployment_limits resolve_limits charge extra_charges
    unfunded_from first_unfunded_charge tiers_conflict compared_amount ceiling_violations is_known
    cost_blockers remaining_violations budget_name remaining_blockers readiness_blockers
    check_budget component_values check_bounds validated_classification find_band complexity_band
    rule_matches find_rank policy_rank bands_partition same_pair has_pair add_efforts add_candidates
    extend_unique add_floor match_floors add_modifier add_preferred apply_modifier match_modifiers
    supported_in_order within_limits enabled_models minimum nearer ranks_of floor_entries
    fallback_entries applicable_floor floor_applies configured_candidates add_if collect start
    build_candidates mock profile_blockers add_profile visit_optional visit visit_all strongest
    requested_levels determine_validation
tenant_resolved = refl

resolve_limits-Narrows_example :
    Narrows request.constraints tenant_limits
    × NarrowsOptional tenant.application_overlay tenant_limits
    × ((values : BudgetLimits)
        → IsConfigured tenant tenant_bundle values
        → (overlay : Limits) × (normalize_limits values tenant_bundle.models ≡ ok overlay)
          × Narrows overlay tenant_limits)
    × IsPaired tenant_limits
resolve_limits-Narrows_example =
    resolve_limits-Narrows request tenant tenant_bundle tenant_limits tenant_resolved

-- A hard floor, a modifier that adds a candidate and one that prefers a tier, for all code.
abbrev for_code : RuleMatch
for_code = record {
  families = "code" ∷ [];
  flags_all = [];
  complexity_min = none;
  component_min = [];
}

abbrev floor_rule : FloorRule
floor_rule = record {
  id = "f1";
  matches = for_code;
  strength = hard;
  min_tier = "advanced";
  rationale_codes = "BASELINE_PRIOR" ∷ [];
}

abbrev adding : Modifier
adding = record {
  id = "m1";
  matches = for_code;
  add_candidates = record { model = "large"; efforts = Effort.medium ∷ [] } ∷ [];
  preferred_min_tier = none;
  rationale_codes = "BASELINE_PRIOR" ∷ [];
}

abbrev preferring : Modifier
preferring = record adding { id = "m2"; add_candidates = []; preferred_min_tier = some "advanced" }

abbrev ruled : PolicyBundle
ruled = record bundle {
  policy = record policy {
    task_family_floors = floor_rule ∷ [];
    modifiers = adding ∷ preferring ∷ [];
  };
}

abbrev added : Candidate
added = record { model = "large"; effort = Effort.medium; source = Source.modifier }

abbrev ruled_plan : CandidatePlan
ruled_plan = record {
  candidates =
      record { model = "small"; effort = Effort.low; source = Source.prior }
      ∷ record { model = "small"; effort = Effort.medium; source = Source.prior }
      ∷ record { model = "large"; effort = Effort.low; source = Source.prior }
      ∷ added
      ∷ [];
  floors =
      record { rule_id = "f1"; strength = hard; min_tier = 2 }
      ∷ record { rule_id = "m2"; strength = preferred; min_tier = 2 }
      ∷ [];
  rationale_codes = "BASELINE_PRIOR" ∷ [];
  matched_rules = "f1" ∷ "m1" ∷ "m2" ∷ [];
  hard_floor = 2;
  preferred_floor = 2;
}

planned : build_candidates classification ruled effective ≡ ok ruled_plan
unfolding select any all concat_map insert_by sort_by sum contains append_once unique_from unique
    lookup insert total check_capabilities ceil_div token_charge multiply is_long multiplier
    cache_read subtotal generation_charges generation_unknown domain_charge required_charges
    unpriced quote estimate_cost tier_ranks tier_rank normalize_tier normalize_limits present_or
    replace_present join period_differs tightened tighten validate_period tighten_optional
    configured_overlay tighten_configured deployment_limits resolve_limits charge extra_charges
    unfunded_from first_unfunded_charge tiers_conflict compared_amount ceiling_violations is_known
    cost_blockers remaining_violations budget_name remaining_blockers readiness_blockers
    check_budget component_values check_bounds validated_classification find_band complexity_band
    rule_matches find_rank policy_rank bands_partition same_pair has_pair add_efforts add_candidates
    extend_unique add_floor match_floors add_modifier add_preferred apply_modifier match_modifiers
    supported_in_order within_limits enabled_models minimum nearer ranks_of floor_entries
    fallback_entries applicable_floor floor_applies configured_candidates add_if collect start
    build_candidates mock profile_blockers add_profile visit_optional visit visit_all strongest
    requested_levels determine_validation
planned = refl

build_candidates-Origin_example :
    Origin
      (IsPrior classification ruled effective)
      (IsAdded classification ruled effective)
      ruled.models
      effective
      2
      2
      added
build_candidates-Origin_example =
    build_candidates-Origin classification ruled effective ruled_plan added planned
      (there (there (there (here refl))))

build_candidates-IsBounded_example :
    HoldsRules classification ruled effective 2 2
    × IsBounded 2 2 ruled_plan.floors
    × (lowest_rank ruled.models ≤ 2)
    × (lowest_rank ruled.models ≤ 2)
build_candidates-IsBounded_example =
    build_candidates-IsBounded classification ruled effective ruled_plan planned

-- Profiles that build on lower ones, and a caller who asks for the highest.
abbrev stacked : ValidationLevel → ValidationProfile
stacked v0 = profile_of v0
stacked v1 = record (profile_of v1) { base_profile = some v0 }
stacked v2 = record (profile_of v2) { base_profile = some v1 }
stacked v3 = record (profile_of v3) { base_profile = some v0; required_semantic_profile = some v2 }

abbrev stacked_config : ValidationDocument
stacked_config = record config { profiles = stacked }

stacked_base : (l : ValidationLevel) → GoesDown l (stacked l).base_profile
stacked_base v0 = tt
stacked_base v1 = omega arith
stacked_base v2 = omega arith
stacked_base v3 = omega arith

stacked_semantic : (l : ValidationLevel) → GoesDown l (stacked l).required_semantic_profile
stacked_semantic v0 = tt
stacked_semantic v1 = tt
stacked_semantic v2 = tt
stacked_semantic v3 = omega arith

layered : IsLayered stacked_config
layered = record { base = stacked_base; semantic = stacked_semantic }

abbrev demanding : Request
demanding = record request { requested_validation = some v3 }

determine_validation-IsClosed_example :
    IsClosed stacked_config environment
      (determine_validation demanding environment stacked_config).profiles
    × In v3 (determine_validation demanding environment stacked_config).profiles
determine_validation-IsClosed_example =
    determine_validation-IsClosed demanding environment stacked_config v3 layered (by_caller refl)
