-- ===== src/Policy/Budgets.antt =====
-- src/model_router/policy/budgets.py: the effective limits of a task and its budget feasibility.
pub mod Tighten
pub mod Resolve
pub mod Funding
pub mod Readiness
use openai_model_router.Prelude.{
  ℕ, ◌+◌, String, Option, none, some, List, [], ◌∷◌, ◌++◌, Bool, true, false, Dict, lookup, insert,
  ltb, ◌==◌, ◌&&◌, ◌||◌, not, contains, append_once, or_else, exceeds, is_some, max, min,
  if◌then◌else◌, string_eq, Error, input_error, Raise, ok, raise, ◌>>=◌, ◌>>◌, raise_if, or_raise,
}
use openai_model_router.Contracts.{
  Limits, Period, Request, EnvironmentSnapshot, ModelEntry, BudgetLimits, PolicyBundle,
  CostEstimate, CostStatus, Feasibility, period_eq,
}

-- `{model["tier"]: model["tier_rank"] for model in models}`: a later model replaces an earlier.
unfoldable pub tier_ranks : Dict ℕ → Dict ModelEntry → Dict ℕ
tier_ranks ranks [] = ranks
tier_ranks ranks ((_, model) ∷ models) = tier_ranks (insert model.tier model.tier_rank ranks) models

-- `_tier_rank`
unfoldable pub tier_rank : String → Dict ModelEntry → Raise ℕ
unfolding tier_ranks
tier_rank tier models =
    or_raise (input_error "unknown model tier") (lookup tier (tier_ranks [] models))

-- A tier's name, where one is given, becomes its rank.
unfoldable pub normalize_tier : Option String → Dict ModelEntry → Raise (Option ℕ)
normalize_tier none models = ok none
normalize_tier (some tier) models = do rank ← tier_rank tier models; ok (some rank)

-- `_normalize_limits`
unfoldable pub normalize_limits : BudgetLimits → Dict ModelEntry → Raise Limits
unfolding normalize_tier tier_rank
normalize_limits values models = do
  floor ← normalize_tier values.model_tier_floor models
  ceiling ← normalize_tier values.model_tier_ceiling models
  ok (record {
    model_tier_floor = floor;
    model_tier_ceiling = ceiling;
    task_cost_ceiling_usd = values.task_cost_ceiling_usd;
    task_deadline_ms = values.task_deadline_ms;
    period_spend_ceiling_usd = values.period_spend_ceiling_usd;
    period = values.period;
    live_execution_enabled = values.live_execution_enabled;
  })

-- `value if value is not None else base`
unfoldable pub present_or {ℓ} : {A : Type ℓ} → Option A → Option A → Option A
present_or (some value) base = some value
present_or none base = base

-- `_replace_present`
unfoldable pub replace_present : Limits → Limits → Limits
unfolding present_or
replace_present base overlay = record {
  model_tier_floor = present_or overlay.model_tier_floor base.model_tier_floor;
  model_tier_ceiling = present_or overlay.model_tier_ceiling base.model_tier_ceiling;
  task_cost_ceiling_usd = present_or overlay.task_cost_ceiling_usd base.task_cost_ceiling_usd;
  task_deadline_ms = present_or overlay.task_deadline_ms base.task_deadline_ms;
  period_spend_ceiling_usd =
      present_or overlay.period_spend_ceiling_usd base.period_spend_ceiling_usd;
  period = present_or overlay.period base.period;
  live_execution_enabled = present_or overlay.live_execution_enabled base.live_execution_enabled;
}

-- The incoming bound joined with the current one by `max`, `min` or `and`.
unfoldable pub join {ℓ} : {A : Type ℓ} → (A → A → A) → Option A → Option A → Option A
join f current none = current
join f none (some incoming) = some incoming
join f (some current) (some incoming) = some (f current incoming)

-- `base.period is not None and base.period != overlay.period`, for an overlay with a period
unfoldable pub period_differs : Option Period → Option Period → Bool
period_differs base none = false
period_differs none (some incoming) = false
period_differs (some current) (some incoming) = not (current == incoming)

-- The limits that `_tighten` returns.
unfoldable pub tightened : Limits → Limits → Limits
unfolding join present_or
tightened base overlay = record {
  model_tier_floor = join max base.model_tier_floor overlay.model_tier_floor;
  model_tier_ceiling = join min base.model_tier_ceiling overlay.model_tier_ceiling;
  task_cost_ceiling_usd = join min base.task_cost_ceiling_usd overlay.task_cost_ceiling_usd;
  task_deadline_ms = join min base.task_deadline_ms overlay.task_deadline_ms;
  period_spend_ceiling_usd =
      join min base.period_spend_ceiling_usd overlay.period_spend_ceiling_usd;
  period = present_or overlay.period base.period;
  live_execution_enabled = join ◌&&◌ base.live_execution_enabled overlay.live_execution_enabled;
}

-- `_tighten`
unfoldable pub tighten : Limits → Limits → Raise Limits
unfolding tightened period_differs
tighten base overlay = do
  raise_if (period_differs base.period overlay.period)
      (input_error "period changes require a versioned policy, not a tightening overlay")
  ok (tightened base overlay)

-- `_validate_period`
unfoldable pub validate_period : Limits → Raise (Unit {0})
validate_period limits =
    raise_if
      (not (
        is_some limits.period_spend_ceiling_usd && is_some limits.period
        || not (is_some limits.period_spend_ceiling_usd) && not (is_some limits.period)))
      (input_error "period spend ceiling and period must accompany each other")

-- `_tighten` by an overlay that may be absent.
unfoldable pub tighten_optional : Limits → Option Limits → Raise Limits
tighten_optional base none = ok base
tighten_optional base (some overlay) = tighten base overlay

-- The configured limits of the trusted application, if it has any.
unfoldable pub configured_overlay : EnvironmentSnapshot → PolicyBundle → Option BudgetLimits
configured_overlay environment bundle = elim environment.trusted_application_id [
  | none ↦ none
  | some application ↦ lookup application bundle.budgets.applications
]

unfoldable pub tighten_configured : Limits → Option BudgetLimits → Dict ModelEntry → Raise Limits
tighten_configured base none models = ok base
tighten_configured base (some values) models = do
  overlay ← normalize_limits values models
  tighten base overlay

-- The defaults with the deployment's budget: synthetic snapshots replace, others tighten.
unfoldable pub deployment_limits : EnvironmentSnapshot → Limits → Raise Limits
deployment_limits environment defaults =
    if environment.synthetic
    then ok (replace_present defaults environment.budget)
    else tighten defaults environment.budget

unfoldable pub resolve_limits : Request → EnvironmentSnapshot → PolicyBundle → Raise Limits
resolve_limits request environment bundle = do
  defaults ← normalize_limits bundle.budgets.defaults bundle.models
  deployed ← deployment_limits environment defaults
  configured ← tighten_configured deployed (configured_overlay environment bundle) bundle.models
  overlaid ← tighten_optional configured environment.application_overlay
  effective ← tighten overlaid request.constraints
  validate_period effective
  ok effective

-- `breakdown.get(name)`
unfoldable pub charge : Dict (Option ℕ) → String → Option ℕ
charge breakdown name = elim (lookup name breakdown) [ some value ↦ value | none ↦ none ]

-- The extra charges, in the order in which they are funded.
unfoldable pub extra_charges : Dict (Option ℕ) → Dict (Option ℕ)
unfolding charge
extra_charges breakdown =
    ("required_evaluator", charge breakdown "required_evaluator")
    ∷ ("required_domain_validator", charge breakdown "required_domain_validator")
    ∷ ("required_tool", charge breakdown "required_tool")
    ∷ []

-- The loop of `_first_unfunded_charge` over the charges that are still to be added.
unfoldable pub unfunded_from : ℕ → ℕ → Dict (Option ℕ) → Option String
unfunded_from remaining subtotal [] = none
unfunded_from remaining subtotal ((name, none) ∷ charges) = unfunded_from remaining subtotal charges
unfunded_from remaining subtotal ((name, some value) ∷ charges) =
    let rest = unfunded_from remaining (subtotal + value) charges in
    if ltb remaining (subtotal + value) then some name else rest

unfoldable pub first_unfunded_charge : CostEstimate → ℕ → Option String
unfolding unfunded_from extra_charges
first_unfunded_charge cost remaining =
    unfunded_from remaining cost.generation_subtotal (extra_charges cost.breakdown)

-- The floor is above the ceiling.
unfoldable pub tiers_conflict : Limits → Bool
tiers_conflict limits = elim limits.model_tier_floor [
  | none ↦ false
  | some floor ↦ exceeds floor limits.model_tier_ceiling
]

-- The amount held against the ceiling: the total where it is known, else the known part.
unfoldable pub compared_amount : CostEstimate → ℕ
compared_amount cost = elim cost.amount [ some amount ↦ amount | none ↦ cost.known_subtotal ]

-- The violations of the checks up to the cost ceiling.
unfoldable pub ceiling_violations : CostEstimate → Limits → List String
unfolding tiers_conflict compared_amount
ceiling_violations cost limits =
    (if tiers_conflict limits then "floor_vs_ceiling" ∷ [] else [])
    ++ (if exceeds (compared_amount cost) limits.task_cost_ceiling_usd
        then "task_cost_ceiling_usd" ∷ []
        else [])

unfoldable pub is_known : CostEstimate → Bool
is_known cost = elim cost.status [ CostStatus.known ↦ true | _ ↦ false ]

unfoldable pub cost_blockers : CostEstimate → List String
unfolding is_known
cost_blockers cost =
    if is_known cost then [] else or_else cost.unknown_charges ("unknown_cost" ∷ [])

-- The checks against the remaining funds.
unfoldable pub remaining_violations : CostEstimate → Option ℕ → List String → List String
unfolding first_unfunded_charge
remaining_violations cost none violations = violations
remaining_violations cost (some remaining) violations =
    if ltb remaining cost.generation_subtotal
    then append_once violations "remaining_budget"
    else if ltb remaining cost.known_subtotal
    then elim (first_unfunded_charge cost remaining) [
      | some _ ↦ violations
      | none ↦ append_once violations "remaining_budget"
    ]
    else violations

-- `unfunded + "_budget"`
unfoldable pub budget_name : String → String
budget_name name =
    if name == "required_evaluator"
    then "required_evaluator_budget"
    else if name == "required_domain_validator"
    then "required_domain_validator_budget"
    else "required_tool_budget"

unfoldable pub remaining_blockers : CostEstimate → Option ℕ → List String → List String
unfolding first_unfunded_charge budget_name
remaining_blockers cost none blockers = blockers
remaining_blockers cost (some remaining) blockers =
    if ltb remaining cost.generation_subtotal
    then blockers
    else if ltb remaining cost.known_subtotal
    then elim (first_unfunded_charge cost remaining) [
      | some name ↦ append_once blockers (budget_name name)
      | none ↦ blockers
    ]
    else blockers

append_if : Bool → String → List String → List String
append_if b name values = if b then append_once values name else values

is_true : Option Bool → Bool
is_true (some true) = true
is_true _ = false

-- The blockers of a missing approval, ceiling or deadline.
unfoldable pub readiness_blockers : Limits → EnvironmentSnapshot → List String → List String
unfolding append_if is_true
readiness_blockers limits environment blockers =
    let blockers' =
      append_if (not (is_true limits.live_execution_enabled)) "live_execution_disabled" blockers in
    let blockers'' =
      append_if (not (is_some limits.task_cost_ceiling_usd)) "finite_task_cost_ceiling_required"
        blockers' in
    elim limits.task_deadline_ms [
      | none ↦ append_once blockers'' "task_deadline_required"
      | some deadline ↦ elim environment.minimum_next_action_ms [
        | none ↦ blockers''
        | some action ↦ append_if (ltb deadline action) "deadline" blockers''
      ]
    ]

unfoldable pub check_budget : CostEstimate → Limits → EnvironmentSnapshot → Feasibility
unfolding ceiling_violations remaining_violations cost_blockers remaining_blockers
    readiness_blockers
check_budget cost limits environment = record {
  violations = remaining_violations cost environment.remaining_usd (ceiling_violations cost limits);
  blockers =
      readiness_blockers limits environment
        (remaining_blockers cost environment.remaining_usd (cost_blockers cost));
  rationale_codes = if is_known cost then [] else "ESTIMATE_UNAVAILABLE" ∷ [];
}
