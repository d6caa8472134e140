-- ===== src/Policy/Modifiers.antt =====
-- src/model_router/policy/modifiers.py, second half: `build_candidates` and its helpers.
pub mod Distinct
pub mod Origins
pub mod Floors
pub mod Held
pub mod Plan
pub mod Entries
use openai_model_router.Prelude.{
  ℕ, ◌+◌, ◌-◌, String, Option, none, some, List, [], ◌∷◌, ◌++◌, Bool, true, false, Dict, lookup,
  keys, ltb, leb, ◌==◌, ◌&&◌, ◌||◌, not, contains, is_empty, any, sum, unique, append_once,
  concat_map, sort_by, values, max, min, map, if◌then◌else◌, string_eq, nat_eq, key_error, Raise,
  ok, raise, ◌>>=◌, ◌>>◌, or_raise, select, exceeds,
}
use openai_model_router.Contracts.{
  Classification, PolicyDocument, ComplexityBand, CandidateSpec, FloorRule, Modifier, ModelEntry,
  PolicyBundle, Limits, Effort, Source, Strength, Candidate, FloorEvidence, CandidatePlan,
  effort_eq, total,
}
use openai_model_router.Policy.Rules.{
  validated_classification, complexity_band, rule_matches, policy_rank,
}

unfoldable pub same_pair : String → Effort → Candidate → Bool
same_pair model effort c = c.model == model && c.effort == effort

-- `key in seen_pairs`; the pairs seen are those of the candidates so far.
unfoldable pub has_pair : List Candidate → String → Effort → Bool
has_pair candidates model effort = any (same_pair model effort) candidates

-- The inner loop of `add_candidates`.
unfoldable pub add_efforts : Source → String → List Effort → List Candidate → List Candidate
unfolding has_pair
add_efforts source model [] candidates = candidates
add_efforts source model (effort ∷ efforts) candidates = add_efforts source model efforts (
    if has_pair candidates model effort
    then candidates
    else candidates ++ record { model = model; effort = effort; source = source } ∷ [])

-- `add_candidates`
unfoldable pub add_candidates : Source → List CandidateSpec → List Candidate → List Candidate
unfolding add_efforts
add_candidates source [] candidates = candidates
add_candidates source (entry ∷ entries) candidates =
    add_candidates source entries (add_efforts source entry.model entry.efforts candidates)

-- What the loops over the rules accumulate.
pub record Matched : Type 0 where
  pub floors : List FloorEvidence
  pub matched_rules : List String
  pub rationales : List String
  pub entries : List CandidateSpec
  pub hard_floor : ℕ
  pub preferred_floor : ℕ

-- `_extend_unique`
unfoldable pub extend_unique : List String → List String → List String
extend_unique target [] = target
extend_unique target (value ∷ values) = extend_unique (append_once target value) values

is_hard : Strength → Bool
is_hard Strength.hard = true
is_hard Strength.preferred = false

-- The body of the loop over `task_family_floors`, for a rule that matches.
unfoldable pub add_floor : FloorRule → ℕ → Matched → Matched
unfolding is_hard extend_unique
add_floor rule rank m = record m {
  floors = m.floors ++ record { rule_id = rule.id; strength = rule.strength; min_tier = rank } ∷ [];
  matched_rules = m.matched_rules ++ rule.id ∷ [];
  rationales = extend_unique m.rationales rule.rationale_codes;
  hard_floor = if is_hard rule.strength then max m.hard_floor rank else m.hard_floor;
  preferred_floor = if is_hard rule.strength then m.preferred_floor else max m.preferred_floor rank;
}

module _ (classification : Classification) (components : Dict ℕ) (models : Dict ModelEntry) where
  unfoldable pub match_floors : List FloorRule → Matched → Raise Matched
  unfolding add_floor
  match_floors [] m = ok m
  match_floors (rule ∷ rules) m =
      if rule_matches rule.matches classification components
      then (do rank ← policy_rank rule.min_tier models; match_floors rules (add_floor rule rank m))
      else match_floors rules m

  -- A matching modifier without its preferred tier.
  unfoldable pub add_modifier : Modifier → Matched → Matched
  unfolding extend_unique
  add_modifier rule m = record m {
    matched_rules = m.matched_rules ++ rule.id ∷ [];
    rationales = extend_unique m.rationales rule.rationale_codes;
    entries = m.entries ++ rule.add_candidates;
  }

  unfoldable pub add_preferred : Modifier → ℕ → Matched → Matched
  add_preferred rule rank m = record m {
    floors =
        m.floors
        ++ record { rule_id = rule.id; strength = Strength.preferred; min_tier = rank } ∷ [];
    preferred_floor = max m.preferred_floor rank;
  }

  unfoldable pub apply_modifier : Modifier → Option String → Matched → Raise Matched
  unfolding add_modifier add_preferred
  apply_modifier rule none m = ok (add_modifier rule m)
  apply_modifier rule (some tier) m = do
    rank ← policy_rank tier models
    ok (add_preferred rule rank (add_modifier rule m))

  unfoldable pub match_modifiers : List Modifier → Matched → Raise Matched
  unfolding apply_modifier
  match_modifiers [] m = ok m
  match_modifiers (rule ∷ rules) m =
      if rule_matches rule.matches classification components
      then (do m' ← apply_modifier rule rule.preferred_min_tier m; match_modifiers rules m')
      else match_modifiers rules m

-- `_supported_in_order`
unfoldable pub supported_in_order : ModelEntry → List Effort → List Effort
supported_in_order model efforts = select (λ e. contains e model.reasoning_efforts) efforts

-- `_within_limits`
unfoldable pub within_limits : ℕ → Limits → Bool
within_limits rank limits =
    (elim limits.model_tier_floor [ none ↦ true | some floor ↦ leb floor rank ])
    && not (exceeds rank limits.model_tier_ceiling)

-- The configured models that are enabled, with their names.
unfoldable pub enabled_models : Dict ModelEntry → Dict ModelEntry
enabled_models models = select (λ p. p.1.configured_enabled) models

-- `min` of a list that is not empty
unfoldable pub minimum : List ℕ → ℕ
minimum [] = 0
minimum (x ∷ []) = x
minimum (x ∷ y ∷ ys) = min x (minimum (y ∷ ys))

distance : ℕ → ℕ → ℕ
distance a b = (a - b) + (b - a)

-- The order of the fallback models: the nearest to a prior tier first, then the lower tier.
unfoldable pub nearer : List ℕ → String × ModelEntry → String × ModelEntry → Bool
unfolding minimum distance
nearer prior_ranks (_, m) (_, n) =
    let a = minimum (map (λ r. distance m.tier_rank r) prior_ranks) in
    let b = minimum (map (λ r. distance n.tier_rank r) prior_ranks) in
    ltb a b || a == b && leb m.tier_rank n.tier_rank

-- `tier_ranks[entry["model"]]` for each entry
unfoldable pub ranks_of : Dict ModelEntry → List CandidateSpec → Raise (List ℕ)
ranks_of models [] = ok []
ranks_of models (entry ∷ entries) = do
  model ← or_raise (key_error "model") (lookup entry.model models)
  ranks ← ranks_of models entries
  ok (model.tier_rank ∷ ranks)

-- The entries of the source `floor`.
unfoldable pub floor_entries :
    Dict ModelEntry → List Effort → ℕ → List Candidate → List CandidateSpec
unfolding enabled_models supported_in_order
floor_entries models preference applicable candidates =
    map (λ p. record { model = p.0; efforts = supported_in_order p.1 preference })
      (select
        (λ p. leb applicable p.1.tier_rank && not (contains p.0 (map (λ c. c.model) candidates)))
        (sort_by (λ p q. leb p.1.tier_rank q.1.tier_rank) (enabled_models models)))

fallback_efforts : ModelEntry → List Effort → List Effort → List Effort
unfolding supported_in_order
fallback_efforts model prior_efforts preference =
    let near = supported_in_order model prior_efforts in
    if is_empty near then supported_in_order model preference else near

-- The entries of the source `fallback`.
unfoldable pub fallback_entries :
    Dict ModelEntry → List ℕ → List String → List Effort → List Effort → Limits → List CandidateSpec
unfolding enabled_models fallback_efforts within_limits nearer
fallback_entries models prior_ranks prior_models prior_efforts preference limits =
    map (λ p. record { model = p.0; efforts = fallback_efforts p.1 prior_efforts preference })
      (select (λ p. not (contains p.0 prior_models) && within_limits p.1.tier_rank limits)
        (sort_by (nearer prior_ranks) (enabled_models models)))

-- `max(hard_floor, preferred_floor, …)` and the test `floor_applies`
unfoldable pub applicable_floor : Matched → Limits → ℕ → ℕ
applicable_floor m limits minimum_rank =
    max (max m.hard_floor m.preferred_floor)
      (elim limits.model_tier_floor [ none ↦ minimum_rank | some floor ↦ floor ])

unfoldable pub floor_applies : Matched → Limits → ℕ → Bool
floor_applies m limits minimum_rank =
    not (is_empty m.floors)
    || (elim limits.model_tier_floor [ none ↦ false | some floor ↦ ltb minimum_rank floor ])

-- The candidates after the band's entries and those of the modifiers.
unfoldable pub configured_candidates : List CandidateSpec → Matched → List Candidate
configured_candidates prior m =
    add_candidates Source.modifier m.entries (add_candidates Source.prior prior [])

-- `if floor_applies: add_candidates(floor_entries, "floor")`
unfoldable pub add_if : Bool → List CandidateSpec → List Candidate → List Candidate
add_if applies entries candidates =
    if applies then add_candidates Source.floor entries candidates else candidates

-- The candidates of the four sources, one after the other.
unfoldable pub collect :
    PolicyDocument
    → Dict ModelEntry
    → Limits
    → List CandidateSpec
    → List ℕ
    → Matched
    → ℕ
    → List Candidate
collect policy models limits prior prior_ranks m minimum_rank =
    let preference = policy.floor_candidate_effort_preference in
    let configured = configured_candidates prior m in
    let with_floors =
      add_if (floor_applies m limits minimum_rank)
        (floor_entries models preference (applicable_floor m limits minimum_rank) configured)
        configured in
    add_candidates Source.fallback
      (fallback_entries models prior_ranks (map (λ e. e.model) prior)
        (unique (concat_map (λ e. e.efforts) prior)) preference limits)
      with_floors

unfoldable pub start : ℕ → Matched
start minimum_rank = record {
  floors = [];
  matched_rules = [];
  rationales = "BASELINE_PRIOR" ∷ [];
  entries = [];
  hard_floor = minimum_rank;
  preferred_floor = minimum_rank;
}

unfoldable pub build_candidates : Classification → PolicyBundle → Limits → Raise CandidatePlan
unfolding collect start minimum match_floors match_modifiers ranks_of add_candidates floor_entries
    fallback_entries applicable_floor floor_applies configured_candidates add_if
build_candidates classification bundle limits =
    let policy = bundle.policy in
    let models = bundle.models in
    let minimum_rank = minimum (map (λ p. p.1.tier_rank) models) in
    do
      components ← validated_classification classification policy
      band ← complexity_band policy (sum (values components))
      prior_ranks ← ranks_of models band.candidates
      m ←
          match_floors classification components models policy.task_family_floors
            (start minimum_rank)
      m' ← match_modifiers classification components models policy.modifiers m
      ok (record {
        candidates = collect policy models limits band.candidates prior_ranks m' minimum_rank;
        floors = m'.floors;
        rationale_codes = m'.rationales;
        matched_rules = m'.matched_rules;
        hard_floor = m'.hard_floor;
        preferred_floor = m'.preferred_floor;
      })
