-- ===== src/Policy/Rules.antt =====
-- src/model_router/policy/modifiers.py, first half: the validated classification, the complexity
-- band, and the predicates of the floor rules and modifiers.
pub mod Bands
use openai_model_router.Prelude.{
  ℕ, suc, ◌+◌, ◌-◌, ◌≤◌, String, Option, none, some, List, [], ◌∷◌, ◌++◌, Bool, true, false, Dict,
  lookup, keys, values, ltb, leb, ◌==◌, ◌&&◌, ◌||◌, not, contains, is_empty, is_some, any, all, sum,
  concat_map, map, if◌then◌else◌, string_eq, nat_eq, Error, input_error, key_error, Raise, ok,
  raise, ◌>>=◌, ◌>>◌, raise_if, or_raise,
}
use openai_model_router.Contracts.{
  Classification, ComplexityComponents, PolicyDocument, Complexity, ComponentRange, ComplexityBand,
  RuleMatch, FloorRule, Modifier, ModelEntry, total,
}

-- The components by name, in the order of the record's fields.
unfoldable pub component_values : ComplexityComponents → Dict ℕ
component_values c =
    ("reasoning_depth", c.reasoning_depth)
    ∷ ("step_dependency", c.step_dependency)
    ∷ ("context_synthesis", c.context_synthesis)
    ∷ ("technical_precision", c.technical_precision)
    ∷ ("ambiguity", c.ambiguity)
    ∷ ("tool_orchestration", c.tool_orchestration)
    ∷ ("reliability_requirement", c.reliability_requirement)
    ∷ []

-- `set(xs) == set(ys)`
unfoldable pub same_set : List String → List String → Bool
same_set xs ys = all (λ x. contains x ys) xs && all (λ y. contains y xs) ys

-- The loop over the supplied components.
unfoldable pub check_bounds : Dict ComponentRange → Dict ℕ → Raise (Unit {0})
check_bounds configured [] = ok tt
check_bounds configured ((name, value) ∷ rest) = do
  bounds ← or_raise (key_error "component") (lookup name configured)
  raise_if (ltb value bounds.min || ltb bounds.max value)
      (input_error "complexity component outside configured range")
  check_bounds configured rest

known_flags : PolicyDocument → List String
known_flags policy =
    concat_map (λ r. r.matches.flags_all) policy.task_family_floors
    ++ concat_map (λ r. r.matches.flags_all) policy.modifiers

-- `supplied_total is not None and supplied_total != total`
total_differs : Option ℕ → ℕ → Bool
total_differs none n = false
total_differs (some supplied) n = not (supplied == n)

-- `_validated_classification`
unfoldable pub validated_classification : Classification → PolicyDocument → Raise (Dict ℕ)
unfolding component_values same_set check_bounds known_flags total_differs
validated_classification classification policy =
    let values = component_values classification.components in
    let points = total classification.components in
    let complexity = policy.complexity in
    do
      raise_if (not (contains classification.task_family policy.task_families))
          (input_error "unsupported task family")
      raise_if (is_some classification.task_subclass) (input_error "task_subclass is unsupported")
      raise_if (not (same_set (keys values) (keys complexity.components)))
          (input_error "complexity component vocabulary mismatch")
      check_bounds complexity.components values
      raise_if (ltb points complexity.total_min || ltb complexity.total_max points)
          (input_error "complexity total outside configured range")
      raise_if (total_differs classification.supplied_total points)
          (input_error "supplied complexity total does not equal calculated total")
      raise_if (not (all (λ f. contains f (known_flags policy)) (keys classification.flags)))
          (input_error "unsupported classification flags")
      ok values

-- `_complexity_band`: the first band that holds the total.
unfoldable pub find_band : List ComplexityBand → ℕ → Option ComplexityBand
find_band [] points = none
find_band (band ∷ bands) points =
    let rest = find_band bands points in
    if leb band.min points && leb points band.max then some band else rest

unfoldable pub complexity_band : PolicyDocument → ℕ → Raise ComplexityBand
unfolding find_band
complexity_band policy points =
    or_raise (input_error "complexity total does not match a configured band")
      (find_band policy.complexity_bands points)

-- `classification.flags.get(flag) is True`
flag_set : Dict Bool → String → Bool
flag_set flags flag = elim (lookup flag flags) [ some true ↦ true | _ ↦ false ]

-- `components.get(name, -1) >= minimum`
reaches : Dict ℕ → String × ℕ → Bool
reaches components (name, minimum) = elim (lookup name components) [
  | some value ↦ leb minimum value
  | none ↦ false
]

total_reaches : Option ℕ → ℕ → Bool
total_reaches none points = true
total_reaches (some minimum) points = leb minimum points

-- `_matches`
unfoldable pub rule_matches : RuleMatch → Classification → Dict ℕ → Bool
unfolding flag_set reaches total_reaches
rule_matches predicates classification components =
    (is_empty predicates.families || contains classification.task_family predicates.families)
    && all (flag_set classification.flags) predicates.flags_all
    && total_reaches predicates.complexity_min (sum (values components))
    && all (reaches components) predicates.component_min

-- `_tier_rank` of modifiers.py: the first model of the tier.
unfoldable pub find_rank : String → Dict ModelEntry → Option ℕ
find_rank tier [] = none
find_rank tier ((_, model) ∷ models) =
    if model.tier == tier then some model.tier_rank else find_rank tier models

unfoldable pub policy_rank : String → Dict ModelEntry → Raise ℕ
unfolding find_rank
policy_rank tier models =
    or_raise (input_error "policy references an unknown model tier") (find_rank tier models)

-- The bands follow one another from `cursor` and end at `last`.
unfoldable pub bands_partition : ℕ → ℕ → List ComplexityBand → Bool
bands_partition cursor last [] = cursor == last + 1
bands_partition cursor last (band ∷ bands) =
    band.min == cursor && leb band.min band.max && bands_partition (band.max + 1) last bands
