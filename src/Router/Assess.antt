-- ===== src/Router/Assess.antt =====
-- The loop over the plan's candidates: what excludes a candidate, and its quote.
use openai_model_router.Prelude.{
  ℕ, String, Option, none, some, List, [], ◌∷◌, ◌++◌, Bool, false, Dict, lookup, ltb, ◌==◌, ◌&&◌,
  ◌||◌, not, contains, is_empty, exceeds, max, unique, if◌then◌else◌, string_eq, nat_eq, key_error,
  configuration_error, Raise, ok, ◌>>=◌, ◌>>◌, raise_if, or_raise,
}
use openai_model_router.Contracts.{
  Request, EnvironmentSnapshot, ModelHealth, HealthState, AccountAccess, ModelEntry, Limits,
  Candidate, CostEstimate, Feasibility, ValidationRequirements, Source, health_eq, access_eq,
  source_eq, effort_eq,
}
use openai_model_router.Policy.Capabilities.{check_capabilities}
use openai_model_router.Policy.Costs.{estimate_cost}
use openai_model_router.Policy.Budgets.{check_budget, is_known}

-- A candidate that was assessed, with the facts that the source keeps beside it.
pub record Item : Type 0 where
  pub candidate : Candidate
  pub model : ModelEntry
  pub cost : CostEstimate
  pub budget : Feasibility
  pub health : Option ModelHealth

-- A row of `removed`.
pub record Removed : Type 0 where
  pub candidate : Candidate
  pub model : ModelEntry
  pub constraints : List String

-- What the loop accumulates: `feasible`, `removed` and the rationale codes.
pub record Assessed : Type 0 where
  pub feasible : List Item
  pub removed : List Removed
  pub codes : List String

-- The model may not be used: disabled, in an excluded state, unusable or without access.
unfoldable pub unavailable : List HealthState → ModelEntry → Option ModelHealth → Bool
unavailable excluded model none = not model.configured_enabled
unavailable excluded model (some health) =
    not model.configured_enabled
    || contains health.state excluded
    || not health.usable
    || health.account_access == AccountAccess.unavailable

-- `health and (health.state != "HEALTHY" or not health.usable)`
unfoldable pub impaired : Option ModelHealth → Bool
impaired none = false
impaired (some health) = not (health.state == HealthState.healthy) || not health.usable

floor_or_zero : Option ℕ → ℕ
floor_or_zero none = 0
floor_or_zero (some floor) = floor

-- The rank below which a model is excluded.
unfoldable pub required_rank : ℕ → Limits → ℕ
unfolding floor_or_zero
required_rank hard_floor limits = max hard_floor (floor_or_zero limits.model_tier_floor)

-- The same request without its claim to cached input.
unfoldable pub without_cache : Request → Request
without_cache request = record request {
  context = record request.context { cache_evidence = false };
}

module _ (scale : ℕ) (request : Request) (environment : EnvironmentSnapshot)
    (validation : ValidationRequirements) (limits : Limits) where
  -- Both outcomes of a claimed cache read must fit the budget.
  unfoldable pub with_miss : Feasibility → CostEstimate → Feasibility
  with_miss budget miss =
      let miss_budget = check_budget miss limits environment in
      record {
        violations = unique (budget.violations ++ miss_budget.violations);
        blockers = unique (
            budget.blockers
            ++ miss_budget.blockers
            ++ (if is_known miss then [] else "cache_miss_estimate_unavailable" ∷ []));
        rationale_codes = unique (budget.rationale_codes ++ miss_budget.rationale_codes);
      }

  unfoldable pub candidate_cost : ModelEntry → CostEstimate
  candidate_cost model = estimate_cost scale request model environment validation

  unfoldable pub miss_cost : ModelEntry → CostEstimate
  miss_cost model = estimate_cost scale (without_cache request) model environment validation

  unfoldable pub candidate_budget : ModelEntry → Feasibility
  unfolding with_miss candidate_cost miss_cost
  candidate_budget model =
      let budget = check_budget (candidate_cost model) limits environment in
      if (candidate_cost model).cache_read_tokens == 0
      then budget
      else with_miss budget (miss_cost model)

  module _ (excluded : List HealthState) (hard_floor : ℕ) where
    -- The violations before those of the budget.
    unfoldable pub exclusions : ModelEntry → Option ModelHealth → List String
    exclusions model health =
        (check_capabilities request model).violations
        ++ (if ltb model.tier_rank (required_rank hard_floor limits)
            then "model_tier_floor" ∷ []
            else [])
        ++ (if exceeds model.tier_rank limits.model_tier_ceiling
            then "model_tier_ceiling" ∷ []
            else [])
        ++ (if unavailable excluded model health then "no_healthy_permitted_path" ∷ [] else [])

    unfoldable pub candidate_violations : ModelEntry → Option ModelHealth → List String
    unfolding exclusions candidate_budget
    candidate_violations model health =
        exclusions model health ++ (candidate_budget model).violations

    degraded_codes : Candidate → Option ModelHealth → List String
    unfolding impaired
    degraded_codes candidate health =
        if impaired health && not (candidate.source == Source.fallback)
        then "MODEL_DEGRADED" ∷ []
        else []

    -- The body of the loop for one candidate, after its model is found.
    unfoldable pub assess_one : Candidate → ModelEntry → Assessed → Assessed
    unfolding candidate_violations degraded_codes
    assess_one candidate model a =
        let health = lookup candidate.model environment.models in
        let violations = candidate_violations model health in
        let codes = a.codes ++ degraded_codes candidate health in
        let item : Item = record {
          candidate = candidate;
          model = model;
          cost = candidate_cost model;
          budget = candidate_budget model;
          health = health;
        } in
        if is_empty violations
        then record a { feasible = a.feasible ++ item ∷ []; codes = codes }
        else record a {
          removed =
              a.removed
              ++ record { candidate = candidate; model = model; constraints = unique violations }
                ∷ [];
          codes = codes;
        }

    unfoldable pub assess : Dict ModelEntry → List Candidate → Assessed → Raise Assessed
    unfolding assess_one
    assess models [] a = ok a
    assess models (candidate ∷ candidates) a = do
      model ← or_raise (key_error "model") (lookup candidate.model models)
      raise_if (not (contains candidate.effort model.reasoning_efforts))
          (configuration_error "candidate uses unsupported model/effort pair")
      assess models candidates (assess_one candidate model a)
