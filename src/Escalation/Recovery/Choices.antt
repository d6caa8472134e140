-- ===== src/Escalation/Recovery/Choices.antt =====
-- The records of src/model_router/escalation/recovery.py and the helpers of its `choose_recovery`:
-- the backoff, and the searches for an effort, a tier and a healthy fallback.
use openai_model_router.Prelude.{
  ℕ, ◌*◌, ◌/◌, ◌^◌, zero, suc, max, min, String, Option, none, some, List, [], ◌∷◌, Bool, false,
  Dict, lookup, ltb, leb, ◌==◌, ◌&&◌, ◌||◌, not, contains, select, sort_by, if◌then◌else◌,
  string_eq, nat_eq, value_error, Raise, ok, ◌>>=◌, or_raise,
}
use openai_model_router.Contracts.{
  EnvironmentSnapshot, ModelHealth, HealthState, ModelEntry, PolicyBundle, CandidateSpec,
  FloorEvidence, Strength, FailureType, Effort, effort_eq, failure_eq, health_eq,
}
use openai_model_router.Policy.Rules.{find_band}
use openai_model_router.Router.{RouteDecision}
use openai_model_router.Execution.{Failure, ExecutionLimits, Counters, RouteTarget, ToolCall}

pub data ActionKind : Type 0 where
  increase_effort increase_tier retry_backoff health_aware_fallback : ActionKind
  retry_tool alternate_tool recoverable_failure stop_reconcile diagnose : ActionKind
  stop stop_budget stop_deadline stop_attempts : ActionKind

pub record RecoveryAction : Type 0 where
  pub action : ActionKind
  pub failure : FailureType
  pub original_failure : Option FailureType
  pub route : Option RouteTarget
  pub validated : Bool
  pub backoff_ms : ℕ
  pub rationale_codes : List String
  pub reason : String

-- `floors` is the decision's `rationale_details["floors"]`.
pub record RecoveryContext : Type 0 where
  pub decision : RouteDecision
  pub floors : List FloorEvidence
  pub failure : Failure
  pub counters : Counters
  pub limits : ExecutionLimits
  pub environment : EnvironmentSnapshot
  pub remaining_usd : ℕ
  pub elapsed_ms : ℕ
  pub validated : Bool
  pub original_failure : Option FailureType
  pub tool_call : Option ToolCall
  pub tool_retryable : Bool
  pub alternate_authorized : Bool

-- `_action` with its defaults
unfoldable pub action_of : RecoveryContext → ActionKind → String → RecoveryAction
action_of c kind reason = record {
  action = kind;
  failure = c.failure.failure_type;
  original_failure = c.original_failure;
  route = none;
  validated = c.validated;
  backoff_ms = 0;
  rationale_codes = [];
  reason = reason;
}

-- `context.original_failure or failure`
unfoldable pub original_or : RecoveryContext → FailureType → Option FailureType
original_or c failure = elim c.original_failure [ none ↦ some failure | some f ↦ some f ]

unfoldable pub current_route : RecoveryContext → RouteTarget
current_route c = record {
  model = c.decision.selected_model_alias;
  effort = c.decision.reasoning_effort;
}

-- `_attempts_exhausted`
unfoldable pub attempts_exhausted : RecoveryContext → RecoveryAction
unfolding original_or
attempts_exhausted c = record (action_of c ActionKind.stop_attempts "recovery_attempts_exhausted") {
  failure = FailureType.budget_failure;
  original_failure = original_or c c.failure.failure_type;
}

-- `int.bit_length`, with the number itself as fuel
unfoldable pub bits_from : ℕ → ℕ → ℕ
bits_from zero n = 0
bits_from (suc fuel) n = elim n [ zero ↦ 0 | suc m ↦ suc (bits_from fuel (suc m / 2)) ]

unfoldable pub bit_length : ℕ → ℕ
unfolding bits_from
bit_length n = bits_from n n

unfoldable pub saturated : ℕ → ℕ → ℕ → ℕ
saturated exponent initial maximum =
    if leb (bit_length (maximum / initial)) exponent
    then maximum
    else min (initial * 2 ^ exponent) maximum

-- `_backoff_ms`
unfoldable pub backoff_ms : RecoveryContext → ℕ
unfolding saturated
backoff_ms c =
    let computed =
      if c.limits.initial_backoff_ms == 0 || c.limits.max_backoff_ms == 0
      then 0
      else saturated c.counters.infrastructure_retries c.limits.initial_backoff_ms
          c.limits.max_backoff_ms in
    elim c.failure.retry_after_ms [ none ↦ computed | some after ↦ max computed after ]

-- `_model`
unfoldable pub model_of : PolicyBundle → String → Raise ModelEntry
model_of bundle alias =
    or_raise (value_error "route refers to unknown model alias") (lookup alias bundle.models)

-- The efforts that the first entry for the model lists.
unfoldable pub listed_efforts : String → List CandidateSpec → List Effort
listed_efforts alias [] = []
listed_efforts alias (entry ∷ entries) =
    if entry.model == alias then entry.efforts else listed_efforts alias entries

-- The entries after the current one, where the current one is listed.
unfoldable pub later_than : Effort → List Effort → List Effort
later_than current [] = []
later_than current (e ∷ es) = if e == current then es else later_than current es

unfoldable pub first_of : {A : Type 0} → List A → Option A
first_of [] = none
first_of (x ∷ _) = some x

unfoldable pub configured_efforts : RecoveryContext → PolicyBundle → List Effort
configured_efforts c bundle =
    elim (find_band bundle.policy.complexity_bands c.decision.complexity_score) [
      | none ↦ []
      | some band ↦ listed_efforts c.decision.selected_model_alias band.candidates
    ]

-- `_next_prior_effort`
unfoldable pub next_prior_effort : RecoveryContext → PolicyBundle → ModelEntry → Option Effort
next_prior_effort c bundle model = first_of (
    select (λ e. contains e (configured_efforts c bundle))
      (later_than c.decision.reasoning_effort model.reasoning_efforts))

-- `_preferred_effort`
unfoldable pub preferred_effort : ModelEntry → PolicyBundle → Option Effort
preferred_effort model bundle = first_of (
    select (λ e. contains e model.reasoning_efforts)
      bundle.policy.floor_candidate_effort_preference)

-- The order by rank of `sorted`, and by falling rank of `sorted(reverse=True)`.
unfoldable pub by_rank : String × ModelEntry → String × ModelEntry → Bool
by_rank (_, m) (_, n) = leb m.tier_rank n.tier_rank

unfoldable pub by_falling_rank : String × ModelEntry → String × ModelEntry → Bool
by_falling_rank (_, m) (_, n) = leb n.tier_rank m.tier_rank

-- The first model of the list with a preferred effort.
unfoldable pub first_preferred : PolicyBundle → Dict ModelEntry → Option RouteTarget
first_preferred bundle [] = none
first_preferred bundle ((alias, model) ∷ models) =
    let rest = first_preferred bundle models in
    elim (preferred_effort model bundle) [
      | none ↦ rest
      | some effort ↦ some (record { model = alias; effort = effort })
    ]

unfoldable pub is_higher : ℕ → String × ModelEntry → Bool
is_higher rank (_, model) = ltb rank model.tier_rank && model.configured_enabled

-- `_next_tier_target`
unfoldable pub next_tier_target : String → PolicyBundle → Raise (Option RouteTarget)
next_tier_target current bundle = do
  model ← model_of bundle current
  ok (first_preferred bundle (sort_by by_rank (select (is_higher model.tier_rank) bundle.models)))

hard_rank : FloorEvidence → ℕ → ℕ
hard_rank evidence floor = elim evidence.strength [
  | Strength.hard ↦ max floor evidence.min_tier
  | Strength.preferred ↦ floor
]

unfoldable pub raise_floor : List FloorEvidence → ℕ → ℕ
unfolding hard_rank
raise_floor [] floor = floor
raise_floor (evidence ∷ floors) floor = raise_floor floors (hard_rank evidence floor)

-- `_minimum_permitted_rank`
unfoldable pub minimum_permitted_rank : RecoveryContext → ℕ
minimum_permitted_rank c =
    raise_floor c.floors
      (elim c.decision.effective_limits.model_tier_floor [ none ↦ 0 | some floor ↦ floor ])

unfoldable pub is_fallback : String → ℕ → ℕ → String × ModelEntry → Bool
is_fallback current low high (alias, model) =
    not (alias == current)
    && leb low model.tier_rank
    && leb model.tier_rank high
    && model.configured_enabled

-- `health is None or not health.usable or health.state in excluded_states`, negated
unfoldable pub permits : List HealthState → Option ModelHealth → Bool
permits excluded none = false
permits excluded (some health) = health.usable && not (contains health.state excluded)

unfoldable pub fallback_effort : RecoveryContext → PolicyBundle → ModelEntry → Option Effort
fallback_effort c bundle model =
    if contains c.decision.reasoning_effort model.reasoning_efforts
    then some c.decision.reasoning_effort
    else preferred_effort model bundle

-- The loop of `_healthy_fallback`.
unfoldable pub first_healthy : RecoveryContext → PolicyBundle → Dict ModelEntry → Option RouteTarget
first_healthy c bundle [] = none
first_healthy c bundle ((alias, model) ∷ models) =
    let rest = first_healthy c bundle models in
    if permits bundle.policy.exclude_states (lookup alias c.environment.models)
    then elim (fallback_effort c bundle model) [
      | none ↦ rest
      | some effort ↦ some (record { model = alias; effort = effort })
    ]
    else rest

-- `_healthy_fallback`
unfoldable pub healthy_fallback : RecoveryContext → PolicyBundle → Raise (Option RouteTarget)
healthy_fallback c bundle = do
  let current = c.decision.selected_model_alias
  model ← model_of bundle current
  ok (
      first_healthy c bundle (
        sort_by by_falling_rank
          (select (is_fallback current (minimum_permitted_rank c) model.tier_rank) bundle.models)))
