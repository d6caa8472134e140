-- ===== src/Examples/Configured.antt =====
-- The theorems about the checks of the configuration at the documents of `Samples`.
use openai_model_router.Prelude.{
  ◌≡◌, refl, some, List, [], ◌∷◌, ◌++◌, ok, HasDistinctKeys, no_keys, new_key, lookup, contains,
  unique, length, all, any, sum, concat_map, append_once, unique_from, select, keys, values,
}
use openai_model_router.Contracts.{
  total, Candidate, CandidatePlan, ComplexityBand, Effort, Source, HealthState,
}
use openai_model_router.Policy.Rules.{
  component_values, same_set, check_bounds, validated_classification, complexity_band,
}
use openai_model_router.Policy.Rules.Bands.{Holds}
use openai_model_router.Policy.Modifiers.{has_pair, same_pair}
use openai_model_router.Router.{Assessed, assess, extend_plan, supported_candidate}
use openai_model_router.Policy.Validation.{determine_validation}
use openai_model_router.Examples.Budgeting.{effective, plan, built}
use openai_model_router.Configuration.{
  is_unique, check_all, check_band, pairs_of, check_partition, check_rule, rules_of, rule_ids,
  check_policy, check_supported, is_tier, is_optional_tier, check_modifier, lacks_effort,
  check_candidates,
}
use openai_model_router.Configuration.Bands.{check_policy-complexity_band}
use openai_model_router.Configuration.Candidates.{check_candidates-assess}
use openai_model_router.Samples.{
  request, classification, environment, bundle, policy, models, config,
}

bands_pass : check_all check_band policy.complexity_bands ≡ ok tt
unfolding check_all check_band pairs_of is_unique unique unique_from append_once contains length
    concat_map
bands_pass = refl

policy_passes : check_policy policy ≡ ok tt
unfolding check_policy check_partition check_all check_rule rules_of rule_ids is_unique unique
    unique_from append_once contains length
policy_passes = refl

check_policy-complexity_band_example :
    (band : ComplexityBand) × (complexity_band policy (total classification.components) ≡ ok band)
    × Holds policy.complexity_bands (total classification.components) band
unfolding validated_classification component_values same_set check_bounds contains lookup total sum
    all keys
check_policy-complexity_band_example =
    check_policy-complexity_band policy classification _ bands_pass policy_passes refl

candidates_pass : check_candidates policy models ≡ ok tt
unfolding check_candidates check_all check_modifier check_supported is_tier is_optional_tier
    lacks_effort contains lookup any all values
candidates_pass = refl

-- A recovery to the larger model at an effort that the band does not list.
abbrev wanted : List Candidate
wanted = record { model = "large"; effort = Effort.medium; source = Source.fallback } ∷ []

abbrev extended : CandidatePlan
extended = record plan { candidates = plan.candidates ++ wanted }

extends : extend_plan models (some wanted) plan ≡ ok extended
unfolding extend_plan supported_candidate any select has_pair same_pair contains lookup
extends = refl

distinct_models : HasDistinctKeys models
unfolding lookup
distinct_models = new_key refl (new_key refl no_keys)

abbrev unassessed : Assessed
unassessed = record { feasible = []; removed = []; codes = "BASELINE_PRIOR" ∷ [] }

check_candidates-assess_example :
    (b : Assessed) × (assess 10 request environment
        (determine_validation request environment config)
        effective
        (HealthState.unhealthy ∷ [])
        1
        models
        extended.candidates
        unassessed
      ≡ ok b)
check_candidates-assess_example =
    check_candidates-assess 10 request environment (determine_validation request environment config)
      effective (HealthState.unhealthy ∷ []) 1 classification bundle (some wanted) plan extended
      unassessed distinct_models candidates_pass built extends
