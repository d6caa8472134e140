-- ===== src/Configuration.antt =====
-- The validators of src/model_router/core/configuration.py on the records that Contracts/Bundle
-- models, and the checks of `_validate_cross_document` that tie candidates and tiers to models. Each
-- definition is the checks of its lines whose fields those records carry.
pub mod Bands
pub mod Candidates
use openai_model_router.Prelude.{
  ℕ, ◌+◌, max, min, String, Option, none, some, List, [], ◌∷◌, ◌++◌, map, Bool, true, false, ◌&&◌,
  ◌||◌, not, ◌==◌, arith, eq_iff, ◌≡◌, ◌↔◌, Eq, string_eq, nat_eq, option_eq, ltb, leb, contains,
  unique, length, all, any, is_empty, is_some, sum, concat_map, Dict, lookup, keys, values,
  if◌then◌else◌, Raise, ok, raise_if, ◌>>=◌, ◌>>◌, or_raise, value_error,
}
use openai_model_router.Contracts.{
  FailureType, failure_eq, Effort, effort_eq, effort_iff, Source, ComponentRange, Complexity,
  CandidateSpec, ComplexityBand, RuleMatch, FloorRule, Modifier, EscalationPolicy, PolicyDocument,
  BudgetLimits, BudgetsDocument, ModelEntry,
}

-- `_unique`
unfoldable pub is_unique {ℓ} : {A : Type ℓ} ⦃e : Eq A⦄ → List A → Bool
is_unique xs = length xs == length (unique xs)

-- A check of every item of a list, in order.
unfoldable pub check_all {ℓ} : {A : Type ℓ} → (A → Raise (Unit {0})) → List A → Raise (Unit {0})
check_all check [] = ok tt
check_all check (x ∷ xs) = check x >> check_all check xs

-- `ComponentRange.ordered`
unfoldable pub check_component : ComponentRange → Raise (Unit {0})
check_component c = raise_if (ltb c.max c.min) (value_error "component min cannot exceed max")

abbrev pub component_names : List String
component_names =
    "reasoning_depth" ∷ "step_dependency" ∷ "context_synthesis" ∷ "technical_precision"
    ∷ "ambiguity" ∷ "tool_orchestration" ∷ "reliability_requirement" ∷ []

-- `Complexity.totals_match_components`
unfoldable pub check_complexity : Complexity → Raise (Unit {0})
check_complexity c = do
  raise_if (is_empty c.components) (value_error "complexity components must not be empty")
  raise_if
      (not (
        all (λ k. contains k component_names) (keys c.components)
        && all (λ k. contains k (keys c.components)) component_names))
      (value_error "complexity components must be exactly")
  raise_if (ltb c.total_max c.total_min)
      (value_error "complexity total_min cannot exceed total_max")
  raise_if (not (sum (map (λ r. r.min) (values c.components)) == c.total_min))
      (value_error "component minima do not sum to total_min")
  raise_if (not (sum (map (λ r. r.max) (values c.components)) == c.total_max))
      (value_error "component maxima do not sum to total_max")

-- `CandidateSpec.efforts_are_ordered_set`
unfoldable pub check_spec : CandidateSpec → Raise (Unit {0})
check_spec c = do
  raise_if (is_empty c.efforts) (value_error "candidate efforts must not be empty")
  raise_if (not (is_unique c.efforts)) (value_error "candidate efforts must not contain duplicates")

abbrev pub pair_same : String × Effort → String × Effort → Bool
pair_same p q = p.0 == q.0 && p.1 == q.1

pub pair_iff : (p q : String × Effort) → (pair_same p q ≡ true) ↔ (p ≡ q)
pair_iff p q = ground (arith, eq_iff p.0 q.0, effort_iff p.1 q.1)

instance abbrev pub pair_eq : Eq (String × Effort)
pair_eq = record { same = pair_same; same_iff = pair_iff }

-- The pairs of a band.
unfoldable pub pairs_of : List CandidateSpec → List (String × Effort)
pairs_of specs = concat_map (λ c. map (λ e. (c.model, e)) c.efforts) specs

-- `ComplexityBand.band_invariants`
unfoldable pub check_band : ComplexityBand → Raise (Unit {0})
check_band b = do
  raise_if (ltb b.max b.min) (value_error "complexity band min cannot exceed max")
  raise_if (is_empty b.candidates) (value_error "complexity band candidates must not be empty")
  raise_if (not (is_unique (pairs_of b.candidates)))
      (value_error "complexity band model/effort pairs must not contain duplicates")

-- `RuleMatch.match_invariants`
unfoldable pub check_match : RuleMatch → Raise (Unit {0})
check_match m = do
  raise_if
      (is_empty m.families
        && (is_empty m.flags_all && (not (is_some m.complexity_min) && is_empty m.component_min)))
      (value_error "rule match must contain at least one predicate")
  raise_if (not (is_unique m.families)) (value_error "match families must not contain duplicates")
  raise_if (not (is_unique m.flags_all)) (value_error "match flags_all must not contain duplicates")

-- `rationale_nonempty` of floors and modifiers
unfoldable pub check_codes : List String → Raise (Unit {0})
check_codes codes = do
  raise_if (is_empty codes) (value_error "rationale_codes must not be empty")
  raise_if (not (is_unique codes)) (value_error "rationale_codes must not contain duplicates")

abbrev pub failure_types : List FailureType
failure_types =
    FailureType.quality_failure ∷ FailureType.validation_failure ∷ FailureType.tool_failure
    ∷ FailureType.timeout ∷ FailureType.rate_limit ∷ FailureType.provider_failure
    ∷ FailureType.malformed_output ∷ FailureType.budget_failure ∷ FailureType.capability_failure
    ∷ FailureType.unknown_failure ∷ []

-- `EscalationPolicy.failure_partition_and_unique_lists`, without `stop_when`
unfoldable pub check_escalation : EscalationPolicy → Raise (Unit {0})
check_escalation e =
    let flattened = e.quality ++ e.infrastructure ++ e.tool ++ e.diagnostic ++ e.terminal in
    do
      raise_if (not (is_unique flattened))
          (value_error "escalation failure types must not contain duplicates")
      raise_if (not (all (λ f. contains f flattened) failure_types))
          (value_error "escalation failure types must partition the failure vocabulary")

-- The loop over the bands, from the total that the next one starts with.
unfoldable pub check_partition : ℕ → List ComplexityBand → Raise ℕ
check_partition cursor [] = ok cursor
check_partition cursor (band ∷ bands) = do
  raise_if (not (band.min == cursor))
      (value_error "complexity bands must partition the total range without gaps or overlaps")
  check_partition (band.max + 1) bands

unfoldable pub check_threshold : Dict ComponentRange → String × ℕ → Raise (Unit {0})
check_threshold components (name, threshold) = do
  bounds ←
      or_raise (value_error "rule references unknown complexity component") (lookup name components)
  raise_if (ltb threshold bounds.min || ltb bounds.max threshold)
      (value_error "rule component threshold is outside configured bounds")

unfoldable pub is_outside : Complexity → Option ℕ → Bool
is_outside c none = false
is_outside c (some points) = ltb points c.total_min || ltb c.total_max points

-- The checks of a floor or a modifier against its document.
unfoldable pub check_rule : PolicyDocument → RuleMatch × List String → Raise (Unit {0})
check_rule policy (m, codes) = do
  raise_if (not (all (λ f. contains f policy.task_families) m.families))
      (value_error "rule references unknown task families")
  check_all (check_threshold policy.complexity.components) m.component_min
  raise_if (is_outside policy.complexity m.complexity_min)
      (value_error "rule complexity threshold is outside configured bounds")
  raise_if (not (all (λ c. contains c policy.rationale_codes) codes))
      (value_error "rule references unknown rationale codes")

unfoldable pub rules_of : PolicyDocument → List (RuleMatch × List String)
rules_of policy =
    map (λ r. (r.matches, r.rationale_codes)) policy.task_family_floors
    ++ map (λ r. (r.matches, r.rationale_codes)) policy.modifiers

unfoldable pub rule_ids : PolicyDocument → List String
rule_ids policy = map (λ r. r.id) policy.task_family_floors ++ map (λ r. r.id) policy.modifiers

-- `PolicyDocument.local_policy_invariants`
unfoldable pub check_policy : PolicyDocument → Raise (Unit {0})
check_policy policy = do
  raise_if (is_empty policy.task_families) (value_error "task_families must not be empty")
  raise_if (not (is_unique policy.task_families))
      (value_error "task_families must not contain duplicates")
  raise_if (is_empty policy.complexity_bands) (value_error "complexity_bands must not be empty")
  cursor ← check_partition policy.complexity.total_min policy.complexity_bands
  raise_if (not (cursor == policy.complexity.total_max + 1))
      (value_error "complexity bands must cover the complete total range")
  raise_if (not (is_unique (rule_ids policy)))
      (value_error "policy rule IDs must not contain duplicates")
  raise_if (is_empty policy.rationale_codes) (value_error "rationale_codes must not be empty")
  check_all (check_rule policy) (rules_of policy)

-- `BudgetDefaults.aggregate_budget_pair_and_costs`, the pair
unfoldable pub is_paired : Bool → Bool → Bool
is_paired true b = b
is_paired false b = not b

unfoldable pub check_defaults : BudgetLimits → Raise (Unit {0})
check_defaults d =
    raise_if (not (is_paired (is_some d.period_spend_ceiling_usd) (is_some d.period)))
      (value_error "default period spend ceiling and period must accompany each other")

-- The pair of an application with the defaults that it inherits.
unfoldable pub check_application : BudgetLimits → BudgetLimits → Raise (Unit {0})
check_application d a =
    raise_if
      (not (
        is_paired (is_some a.period_spend_ceiling_usd || is_some d.period_spend_ceiling_usd)
          (is_some a.period || is_some d.period)))
      (value_error "application has an incomplete aggregate period limit")

unfoldable pub check_budgets : BudgetsDocument → Raise (Unit {0})
check_budgets b = do
  check_defaults b.defaults
  check_all (λ p. check_application b.defaults p.1) b.applications

-- `validate_candidate`
unfoldable pub check_supported : Dict ModelEntry → CandidateSpec → Raise (Unit {0})
check_supported models c = do
  model ← or_raise (value_error "references unknown model") (lookup c.model models)
  raise_if (not (all (λ e. contains e model.reasoning_efforts) c.efforts))
      (value_error "uses unsupported efforts")

unfoldable pub is_tier : Dict ModelEntry → String → Bool
is_tier models tier = any (λ m. m.tier == tier) (values models)

unfoldable pub is_optional_tier : Dict ModelEntry → Option String → Bool
is_optional_tier models none = true
is_optional_tier models (some tier) = is_tier models tier

unfoldable pub check_modifier : Dict ModelEntry → Modifier → Raise (Unit {0})
check_modifier models m = do
  check_all (check_supported models) m.add_candidates
  raise_if (not (is_optional_tier models m.preferred_min_tier))
      (value_error "modifier references unknown tier")

unfoldable pub lacks_effort : PolicyDocument → ModelEntry → Bool
lacks_effort policy m =
    m.configured_enabled
    && not (any (λ e. contains e m.reasoning_efforts) policy.floor_candidate_effort_preference)

-- `_validate_cross_document`, from the efforts of the enabled models to the tiers of the floors
unfoldable pub check_candidates : PolicyDocument → Dict ModelEntry → Raise (Unit {0})
check_candidates policy models = do
  raise_if (any (lacks_effort policy) (values models))
      (value_error "floor candidate effort preference has no supported effort for enabled model")
  check_all (λ b. check_all (check_supported models) b.candidates) policy.complexity_bands
  check_all (check_modifier models) policy.modifiers
  raise_if (not (all (λ f. is_tier models f.min_tier) policy.task_family_floors))
      (value_error "floor references unknown tier")
