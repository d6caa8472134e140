-- ===== src/Router/Route.antt =====
-- `route`: preflight, the plan, the hard exclusions, and the loop over the candidates.
use openai_model_router.Prelude.{
  ℕ, String, Option, none, some, List, [], ◌∷◌, ◌++◌, Bool, false, Dict, lookup, keys, values, ◌==◌,
  ◌||◌, not, contains, any, all, select, is_empty, is_some, concat_map, exceeds, map, if◌then◌else◌,
  string_eq, input_error, configuration_error, Raise, ok, ◌>>=◌, ◌>>◌, raise_if,
}
use openai_model_router.Contracts.{
  Request, Classification, EnvironmentSnapshot, ModelEntry, PolicyBundle, Candidate, CandidatePlan,
  ValidationRequirements, FailureType, level_eq, effort_eq,
}
use openai_model_router.Policy.Capabilities.{check_capabilities}
use openai_model_router.Policy.Budgets.{resolve_limits, tiers_conflict}
use openai_model_router.Policy.Modifiers.{build_candidates, has_pair}
use openai_model_router.Policy.Validation.{ValidationDocument, determine_validation}
use openai_model_router.Router.Assess.{Assessed, assess}
use openai_model_router.Router.Decide.{Outcome, Setting, reject, reject_infeasible, choose}

version_differs : Option String → String → Bool
version_differs none version = false
version_differs (some wanted) version = not (wanted == version)

-- The checks before any policy component runs.
unfoldable pub preflight : Request → EnvironmentSnapshot → PolicyBundle → Raise (Unit {0})
unfolding version_differs
preflight request environment bundle = do
  raise_if (version_differs request.policy_version bundle.policy.version)
      (input_error "requested policy version differs from pinned bundle")
  raise_if (is_some bundle.policy.calibration_version)
      (configuration_error "calibrated selection is not implemented in Phase 1")
  raise_if (not (all (λ k. contains k (keys bundle.models)) (keys environment.models)))
      (input_error "health snapshot refers to unknown model aliases")

-- The candidate's model is configured and supports its effort.
unfoldable pub supported_candidate : Dict ModelEntry → Candidate → Bool
supported_candidate models c = elim (lookup c.model models) [
  | none ↦ false
  | some model ↦ contains c.effort model.reasoning_efforts
]

-- The plan with the recovery candidates that it lacks.
unfoldable pub extend_plan :
    Dict ModelEntry → Option (List Candidate) → CandidatePlan → Raise CandidatePlan
unfolding supported_candidate
extend_plan models none plan = ok plan
extend_plan models (some wanted) plan = do
  raise_if (is_empty wanted) (input_error "recovery candidates cannot be empty")
  raise_if (any (λ c. not (supported_candidate models c)) wanted)
      (input_error "unsupported recovery candidate")
  ok (record plan {
    candidates =
        plan.candidates ++ select (λ c. not (has_pair plan.candidates c.model c.effort)) wanted;
  })

-- The codes before the capability checks.
unfoldable pub initial_codes :
    Classification → CandidatePlan → ValidationDocument → ValidationRequirements → List String
initial_codes classification plan config validation =
    plan.rationale_codes
    ++ (if classification.certain then [] else "LOW_CLASSIFIER_CONFIDENCE" ∷ [])
    ++ (if not (validation.level == config.default_profile) || validation.evaluator_required
        then "VALIDATION_REQUIRED" ∷ []
        else [])

-- `any(not result.violations for result in capability_results.values())`
unfoldable pub some_capable : Request → Dict ModelEntry → Bool
some_capable request models =
    any (λ m. is_empty (check_capabilities request m).violations) (values models)

row_limits : String → Bool
row_limits v =
    v == "model_tier_ceiling"
    || v == "model_tier_floor"
    || v == "task_cost_ceiling_usd"
    || v == "remaining_budget"

-- What the loop's rows add to the codes.
unfoldable pub capped_codes : Assessed → List String
unfolding row_limits
capped_codes a =
    a.codes
    ++ (if any (λ r. any row_limits r.constraints) a.removed
        then "APPLICATION_BUDGET_CAP" ∷ []
        else [])

-- `route` after the loop.
unfoldable pub after_loop : Setting → Assessed → Raise Outcome
unfolding capped_codes
after_loop s a =
    if is_empty a.feasible
    then reject_infeasible s (capped_codes a) a.removed
    else choose s (capped_codes a) a.removed a.feasible

-- `route` after the capability and tier checks.
unfoldable pub run_loop : ℕ → Setting → List String → Raise Outcome
run_loop scale s codes = do
  a ←
      assess scale s.request s.environment s.validation s.limits s.policy.exclude_states
        s.plan.hard_floor s.models s.plan.candidates
        (record { feasible = []; removed = []; codes = codes })
  after_loop s a

-- `route` from the capability checks on.
unfoldable pub route_setting : ℕ → Setting → List String → Raise Outcome
unfolding some_capable
route_setting scale s codes =
    let results = map (λ m. check_capabilities s.request m) (values s.models) in
    let codes' = codes ++ concat_map (λ r. r.rationale_codes) results in
    if not (some_capable s.request s.models)
    then reject s codes' FailureType.capability_failure (concat_map (λ r. r.violations) results)
        false
    else if tiers_conflict s.limits
    then reject s codes' FailureType.budget_failure ("floor_vs_ceiling" ∷ []) false
    else if exceeds s.plan.hard_floor s.limits.model_tier_ceiling
    then reject s codes' FailureType.budget_failure ("hard_floor_vs_ceiling" ∷ []) false
    else run_loop scale s codes'

unfoldable pub route :
    ℕ
    → Request
    → Classification
    → EnvironmentSnapshot
    → PolicyBundle
    → ValidationDocument
    → Option (List Candidate)
    → Raise Outcome
route scale request classification environment bundle config recovery = do
  preflight request environment bundle
  limits ← resolve_limits request environment bundle
  built ← build_candidates classification bundle limits
  plan ← extend_plan bundle.models recovery built
  let validation = determine_validation request environment config
  route_setting scale
      (record {
        request = request;
        classification = classification;
        environment = environment;
        policy = bundle.policy;
        models = bundle.models;
        limits = limits;
        plan = plan;
        validation = validation;
        recovery = recovery;
      })
      (initial_codes classification plan config validation)
