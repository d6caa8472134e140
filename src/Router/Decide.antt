-- ===== src/Router/Decide.antt =====
-- The frame of `route`: preflight, rejections, and the decision with its readiness blockers.
use openai_model_router.Prelude.{
  ℕ, String, Option, none, some, List, [], ◌∷◌, ◌++◌, Bool, true, false, Dict, ltb, leb, ◌==◌, ◌&&◌,
  ◌||◌, not, contains, any, all, select, is_empty, is_some, or_else, concat_map, unique, exceeds,
  if◌then◌else◌, string_eq, configuration_error, key_error, Raise, ok, ◌>>=◌, ◌>>◌, raise_if,
  or_raise,
}
use openai_model_router.Contracts.{
  Request, Classification, EnvironmentSnapshot, ModelHealth, HealthState, ModelEntry,
  PolicyDocument, Limits, Candidate, CandidatePlan, CostEstimate, ValidationRequirements,
  FailureType, Effort, Source, total, level_eq, health_eq, source_eq, failure_eq, effort_eq,
}
use openai_model_router.Policy.Budgets.{is_known}
use openai_model_router.Policy.Modifiers.{has_pair}
use openai_model_router.Router.Assess.{Item, Removed}
use openai_model_router.Router.Choose.{
  funding_blockers, account_unknown, prefer_certified, uncertified_rows, is_certified,
  attainable_floor, at_floor, waived_floors, recovery_order, select_item,
}

pub record RouteDecision : Type 0 where
  pub selected_model_alias : String
  pub provider_model_id : String
  pub model_tier : ℕ
  pub reasoning_effort : Effort
  pub validation_requirements : ValidationRequirements
  pub estimated_cost : CostEstimate
  pub effective_limits : Limits
  pub complexity_score : ℕ
  pub rationale_codes : List String
  pub readiness_blockers : List String
  pub executable : Bool

pub record RouteRejection : Type 0 where
  pub failure_type : FailureType
  pub violated_constraints : List String
  pub retryable : Bool
  pub effective_limits : Limits
  pub rationale_codes : List String

pub data Outcome : Type 0 where
  valid : RouteDecision → Outcome
  rejected : RouteRejection → Outcome

-- The policy and snapshot that the whole decision reads, with what was derived from them.
pub record Setting : Type 0 where
  pub request : Request
  pub classification : Classification
  pub environment : EnvironmentSnapshot
  pub policy : PolicyDocument
  pub models : Dict ModelEntry
  pub limits : Limits
  pub plan : CandidatePlan
  pub validation : ValidationRequirements
  pub recovery : Option (List Candidate)

-- `set(codes) - set(policy["rationale_codes"])`, the check of `common`
check_codes : PolicyDocument → List String → Raise (Unit {0})
check_codes policy codes =
    raise_if (any (λ c. not (contains c policy.rationale_codes)) codes)
      (configuration_error "emitted rationale code is absent from the pinned registry")

without_prior : List String → List String
without_prior codes = select (λ c. not (c == "BASELINE_PRIOR")) codes

failure_codes : FailureType → List String
failure_codes FailureType.budget_failure = "APPLICATION_BUDGET_CAP" ∷ []
failure_codes FailureType.provider_failure = "MODEL_DEGRADED" ∷ []
failure_codes _ = []

-- `reject`
unfoldable pub reject : Setting → List String → FailureType → List String → Bool → Raise Outcome
unfolding check_codes without_prior failure_codes
reject s codes failure violations retryable =
    let codes' = without_prior codes ++ failure_codes failure in
    do
      check_codes s.policy codes'
      ok (
          rejected (record {
            failure_type = failure;
            violated_constraints = unique violations;
            retryable = retryable;
            effective_limits = s.limits;
            rationale_codes = unique codes';
          }))

-- The snapshot's health evidence is missing, from the future, or no longer valid.
unfoldable pub stale_snapshot : EnvironmentSnapshot → Bool
stale_snapshot environment = elim environment.health_valid_until [
  | none ↦ true
  | some until ↦ elim environment.health_observed_at [
    | none ↦ true
    | some at ↦ ltb environment.clock at || leb until environment.clock
  ]
]

-- The blockers after those of the validation and the budget.
unfoldable pub environment_blockers : Setting → Item → List String
unfolding stale_snapshot
environment_blockers s item =
    let environment = s.environment in
    (if account_unknown item.health then "account_unknown" ∷ [] else [])
    ++ (if stale_snapshot environment then "stale_snapshot" ∷ [] else [])
    ++ (if environment.recovery_bounded then [] else "recovery_unconfigured" ∷ [])
    ++ (if environment.durable_retention then [] else "durable_retention_unavailable" ∷ [])
    ++ (if is_some environment.health_snapshot_id then [] else "health_snapshot_unversioned" ∷ [])
    ++ (if s.request.side_effecting_tool then "side_effect_execution_unconfigured" ∷ [] else [])
    ++ (if is_some s.limits.period_spend_ceiling_usd then "period_budget_unverified" ∷ [] else [])

is_degraded : Option ModelHealth → Bool
is_degraded none = false
is_degraded (some health) = health.state == HealthState.degraded

-- The rationale codes of the selected item.
unfoldable pub selection_codes : Item → List String → List String
unfolding is_degraded without_prior
selection_codes item codes =
    let marked = codes ++ (if is_degraded item.health then "MODEL_DEGRADED" ∷ [] else []) in
    (if item.candidate.source == Source.prior
      then marked
      else without_prior marked ++ "CONSTRAINED_FALLBACK" ∷ [])
    ++ (if item.cost.long_context then "LONG_CONTEXT" ∷ [] else [])
    ++ (if is_known item.cost then [] else "ESTIMATE_UNAVAILABLE" ∷ [])
    ++ item.budget.rationale_codes

-- The decision for the selected item, with the codes that were emitted before.
unfoldable pub decision_of : Setting → List String → Item → RouteDecision
unfolding environment_blockers selection_codes
decision_of s codes item =
    let blockers = s.validation.blockers ++ item.budget.blockers ++ environment_blockers s item in
    record {
      selected_model_alias = item.candidate.model;
      provider_model_id = item.model.provider_model_id;
      model_tier = item.model.tier_rank;
      reasoning_effort = item.candidate.effort;
      validation_requirements = s.validation;
      estimated_cost = item.cost;
      effective_limits = s.limits;
      complexity_score = total s.classification.components;
      rationale_codes = unique (selection_codes item codes);
      readiness_blockers = unique blockers;
      executable = is_empty blockers;
    }

-- The end of `route`.
unfoldable pub decide : Setting → List String → Item → Raise Outcome
unfolding check_codes
decide s codes item = do
  check_codes s.policy (selection_codes item codes)
  ok (valid (decision_of s codes item))

intersects : List String → List String → Bool
intersects xs ys = any (λ x. contains x ys) xs

abbrev pub budget_keys : List String
budget_keys =
    "task_cost_ceiling_usd" ∷ "remaining_budget" ∷ "model_tier_floor" ∷ "model_tier_ceiling" ∷ []

-- `set(row["constraints"]) == {"no_healthy_permitted_path"}`
only_health : Removed → Bool
only_health row =
    not (is_empty row.constraints) && all (λ c. c == "no_healthy_permitted_path") row.constraints

-- No candidate is feasible.
unfoldable pub reject_infeasible : Setting → List String → List Removed → Raise Outcome
unfolding only_health intersects
reject_infeasible s codes removed =
    let violations = unique (concat_map (λ r. r.constraints) removed) in
    if any only_health removed
    then reject s codes FailureType.provider_failure violations true
    else if intersects violations budget_keys
    then reject s codes FailureType.budget_failure violations false
    else reject s codes FailureType.capability_failure
        (or_else violations ("no_permitted_candidate" ∷ [])) false

-- No recovery candidate is among the feasible items.
unfoldable pub reject_recovery :
    Setting → List String → List Candidate → List Removed → Raise Outcome
unfolding intersects
reject_recovery s codes wanted removed =
    let rows = select (λ r. has_pair wanted r.candidate.model r.candidate.effort) removed in
    let violations = concat_map (λ r. r.constraints) rows in
    if intersects violations
      ("remaining_budget" ∷ "task_cost_ceiling_usd" ∷ "model_tier_ceiling" ∷ [])
    then reject s codes FailureType.budget_failure violations false
    else reject s codes
        (if contains "no_healthy_permitted_path" violations
          then FailureType.provider_failure
          else FailureType.capability_failure)
        (or_else violations ("recovery_candidate_not_permitted" ∷ [])) true

-- `(healthy or pool)[0]`, and the decision.
unfoldable pub conclude : Setting → List String → Bool → List Item → Raise Outcome
conclude s codes recovering feasible = do
  item ← or_raise (key_error "list index out of range") (select_item recovering feasible)
  decide s codes item

-- The recovery candidates, where they are given, replace the order.
unfoldable pub order_and_conclude :
    Setting → List String → List Removed → Option (List Candidate) → List Item → Raise Outcome
order_and_conclude s codes removed none feasible = conclude s codes false feasible
order_and_conclude s codes removed (some wanted) feasible =
    let ordered = recovery_order wanted feasible in
    if is_empty ordered
    then reject_recovery s codes wanted removed
    else conclude s codes true ordered

-- The evidence for waiving a preferred floor.
unfoldable pub waiver_constraints : Setting → ℕ → List Removed → List String
waiver_constraints s floor removed =
    concat_map (λ r. r.constraints) (select (λ r. ltb floor r.model.tier_rank) removed)
    ++ (if exceeds s.plan.preferred_floor s.limits.model_tier_ceiling
        then "model_tier_ceiling" ∷ []
        else [])

-- `route` from the certification on, with a feasible candidate.
unfoldable pub choose : Setting → List String → List Removed → List Item → Raise Outcome
unfolding waiver_constraints intersects
choose s codes removed feasible =
    let certified = prefer_certified feasible in
    let removed' = removed ++ uncertified_rows feasible in
    let codes' =
      codes
      ++ (if not (is_empty (select is_certified feasible))
            && any (λ i. intersects funding_blockers i.budget.blockers) feasible
          then "APPLICATION_BUDGET_CAP" ∷ []
          else []) in
    let floor = attainable_floor s.plan.hard_floor s.plan.floors certified in
    let kept = at_floor floor certified in
    let waived = not (is_empty (waived_floors floor s.plan.floors)) in
    do
      raise_if (waived && is_empty (waiver_constraints s floor removed'))
          (configuration_error "preferred floor cannot be waived without blocking evidence")
      order_and_conclude s (codes' ++ (if waived then "FLOOR_RELAXED" ∷ [] else [])) removed'
          s.recovery kept
