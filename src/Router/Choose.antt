-- ===== src/Router/Choose.antt =====
-- From the feasible items to the selected one: certification, preferred floors, recovery order.
use openai_model_router.Prelude.{
  ℕ, String, Option, none, some, List, [], ◌∷◌, ◌++◌, Bool, true, false, ltb, leb, ◌==◌, ◌&&◌, ◌||◌,
  not, contains, any, select, is_empty, or_else, concat_map, unique, max, map, if◌then◌else◌,
  string_eq,
}
use openai_model_router.Contracts.{
  Candidate, ModelHealth, HealthState, AccountAccess, FloorEvidence, Strength, Source, health_eq,
  access_eq, source_eq, effort_eq,
}
use openai_model_router.Policy.Budgets.{is_known}
use openai_model_router.Policy.Modifiers.{same_pair}
use openai_model_router.Router.Assess.{Item, Removed}

pub funding_blockers : List String
funding_blockers =
    "required_evaluator_budget" ∷ "required_domain_validator_budget" ∷ "required_tool_budget" ∷ []

-- `health is None or health.account_access != "verified"`
unfoldable pub account_unknown : Option ModelHealth → Bool
account_unknown none = true
account_unknown (some health) = not (health.account_access == AccountAccess.verified)

-- `candidate_blockers`
unfoldable pub candidate_blockers : Item → List String
unfolding funding_blockers account_unknown
candidate_blockers item = unique (
    select (λ b. contains b funding_blockers) item.budget.blockers
    ++ (if contains "cache_miss_estimate_unavailable" item.budget.blockers
        then "cache_miss_estimate_unavailable" ∷ []
        else [])
    ++ (if is_known item.cost then [] else or_else item.cost.unknown_charges ("unknown_cost" ∷ []))
    ++ (if account_unknown item.health then "account_unknown" ∷ [] else []))

unfoldable pub is_certified : Item → Bool
unfolding candidate_blockers
is_certified item = is_empty (candidate_blockers item)

-- The certified items, or all if there is none.
unfoldable pub prefer_certified : List Item → List Item
unfolding is_certified
prefer_certified feasible =
    let certified = select is_certified feasible in
    if is_empty certified then feasible else certified

-- The rows that certification adds to `removed`.
unfoldable pub uncertified_rows : List Item → List Removed
unfolding is_certified
uncertified_rows feasible =
    if is_empty (select is_certified feasible)
    then []
    else map
        (λ i. record {
          candidate = i.candidate;
          model = i.model;
          constraints = candidate_blockers i;
        })
        (select (λ i. not (is_certified i)) feasible)

-- Some feasible item has a preferred floor's rank.
reached : List Item → FloorEvidence → Bool
reached feasible f = any (λ i. leb f.min_tier i.model.tier_rank) feasible

is_preferred : FloorEvidence → Bool
is_preferred f = elim f.strength [ Strength.preferred ↦ true | Strength.hard ↦ false ]

-- `max(values, default=default)`
unfoldable pub max_default : ℕ → List ℕ → ℕ
max_default default [] = default
max_default default (x ∷ []) = x
max_default default (x ∷ y ∷ ys) = max x (max_default default (y ∷ ys))

-- The highest preferred floor that a feasible item reaches; the hard floor if there is none.
unfoldable pub attainable_floor : ℕ → List FloorEvidence → List Item → ℕ
unfolding reached is_preferred max_default
attainable_floor hard_floor floors feasible =
    max_default hard_floor
      (map (λ f. f.min_tier) (select (λ f. is_preferred f && reached feasible f) floors))

unfoldable pub at_floor : ℕ → List Item → List Item
at_floor floor feasible = select (λ i. leb floor i.model.tier_rank) feasible

-- The preferred floors that are given up.
unfoldable pub waived_floors : ℕ → List FloorEvidence → List FloorEvidence
unfolding is_preferred
waived_floors floor floors = select (λ f. is_preferred f && ltb floor f.min_tier) floors

unfoldable pub pair_of : Candidate → Item → Bool
unfolding same_pair
pair_of wanted item = same_pair wanted.model wanted.effort item.candidate

-- The items of the recovery candidates, in their order.
unfoldable pub recovery_order : List Candidate → List Item → List Item
unfolding pair_of
recovery_order wanted feasible = concat_map (λ w. select (pair_of w) feasible) wanted

unfoldable pub is_healthy : Item → Bool
is_healthy item = elim item.health [
  | none ↦ false
  | some health ↦ health.state == HealthState.healthy
]

-- `primary or feasible`
unfoldable pub selection_pool : Bool → List Item → List Item
selection_pool recovering feasible =
    let primary = select (λ i. not (i.candidate.source == Source.fallback)) feasible in
    if recovering || is_empty primary then feasible else primary

-- `(healthy or pool)[0]`
unfoldable pub select_item : Bool → List Item → Option Item
unfolding selection_pool is_healthy
select_item recovering feasible =
    let pool = selection_pool recovering feasible in
    let healthy = select is_healthy pool in
    elim (or_else healthy pool) [ [] ↦ none | item ∷ _ ↦ some item ]
