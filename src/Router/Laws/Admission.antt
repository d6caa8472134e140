-- ===== src/Router/Laws/Admission.antt =====
-- `route` selects admissible candidates only.
use openai_model_router.Prelude.{
  ℕ, ◌≤◌, ◌≡◌, refl, sym, ap, subst, String, Option, none, some, List, [], false, Dict, lookup, In,
  is_empty, any, not, AtMost, ok, >>=-eq-ok, raise_if-eq-ok, ok-injective,
}
use openai_model_router.Contracts.{
  Request, Classification, EnvironmentSnapshot, ModelEntry, PolicyBundle, Limits, Candidate,
  CandidatePlan,
}
use openai_model_router.Policy.Capabilities.Exact.{Serves}
use openai_model_router.Policy.Costs.{estimate_cost}
use openai_model_router.Policy.Budgets.{resolve_limits}
use openai_model_router.Policy.Budgets.Funding.{FitsBudget}
use openai_model_router.Policy.Modifiers.{build_candidates}
use openai_model_router.Policy.Validation.{ValidationDocument, determine_validation}
use openai_model_router.Router.Assess.{
  Item, Assessed, assess, candidate_cost, required_rank, unavailable,
}
use openai_model_router.Router.Decide.{RouteDecision, valid, Setting, decision_of}
use openai_model_router.Router.Route.{
  preflight, extend_plan, after_loop, run_loop, route_setting, route, supported_candidate,
}
use openai_model_router.Router.Laws.Loop.{IsAdmissible, AllAdmissible, assess-AllAdmissible}
use openai_model_router.Router.Laws.Selection.{
  OnValid, OnValid-choose, OnValid-reject, OnValid-reject_infeasible, OnValid-if,
}

-- The decision was made for an admissible item.
pub record Decided (scale : ℕ) (s : Setting) (d : RouteDecision) : Type 0 where
  pub item : Item
  pub codes : List String
  pub admissible :
      IsAdmissible scale s.request s.environment s.validation s.limits s.policy.exclude_states
        s.plan.hard_floor s.models item
  pub decided : d ≡ decision_of s codes item

module _ (scale : ℕ) (s : Setting) where
  after_loop-Decided :
      (a : Assessed)
      → AllAdmissible scale s.request s.environment s.validation s.limits s.policy.exclude_states
          s.plan.hard_floor s.models a.feasible
      → OnValid (Decided scale s) (after_loop s a)
  unfolding after_loop
  after_loop-Decided a all =
      OnValid-if (Decided scale s) s (is_empty a.feasible) _ _
        (OnValid-reject_infeasible (Decided scale s) s _ a.removed)
        (OnValid-choose (Decided scale s) s a.feasible
          (λ codes i m. record { item = i; codes = codes; admissible = all i m; decided = refl }) _
          a.removed)

  run_loop-Decided : (codes : List String) → OnValid (Decided scale s) (run_loop scale s codes)
  unfolding run_loop
  run_loop-Decided codes = record {
    holds = λ d h.
        let (a, e, q) =
          >>=-eq-ok
            (assess scale s.request s.environment s.validation s.limits s.policy.exclude_states
              s.plan.hard_floor s.models s.plan.candidates
              (record { feasible = []; removed = []; codes = codes }))
            (after_loop s) h in
        (after_loop-Decided a (
            assess-AllAdmissible scale s.request s.environment s.validation s.limits
              s.policy.exclude_states s.plan.hard_floor s.models s.plan.candidates _ a e
              (λ i m. elim m [ ]))).holds
          d q;
  }

  pub route_setting-Decided :
      (codes : List String) → OnValid (Decided scale s) (route_setting scale s codes)
  unfolding route_setting
  route_setting-Decided codes = search (OnValid-if, OnValid-reject, run_loop-Decided)

extend_plan-hard_floor :
    (models : Dict ModelEntry) (recovery : Option (List Candidate)) (built plan : CandidatePlan)
    → extend_plan models recovery built ≡ ok plan
    → plan.hard_floor ≡ built.hard_floor
unfolding extend_plan
extend_plan-hard_floor models none built plan h =
    ap (λ (p : CandidatePlan). p.hard_floor) (sym (ok-injective h))
extend_plan-hard_floor models (some wanted) built plan h =
    let (_, h1) = raise_if-eq-ok (is_empty wanted) _ _ h in
    let (_, h2) = raise_if-eq-ok (any (λ c. not (supported_candidate models c)) wanted) _ _ h1 in
    ap (λ (p : CandidatePlan). p.hard_floor) (sym (ok-injective h2))

module _ (scale : ℕ) (request : Request) (classification : Classification)
    (environment : EnvironmentSnapshot) (bundle : PolicyBundle) (config : ValidationDocument)
    (recovery : Option (List Candidate)) where
  -- What a decision of `route` promises to the execution that follows it.
  pub record Admits (d : RouteDecision) : Type 0 where
    pub plan : CandidatePlan
    pub item : Item
    pub limits_eq : resolve_limits request environment bundle ≡ ok d.effective_limits
    pub plan_eq : build_candidates classification bundle d.effective_limits ≡ ok plan
    pub configured : lookup d.selected_model_alias bundle.models ≡ some item.model
    pub provider : d.provider_model_id ≡ item.model.provider_model_id
    pub tier : d.model_tier ≡ item.model.tier_rank
    pub effort : In d.reasoning_effort item.model.reasoning_efforts
    pub serves : Serves request item.model
    pub hard : required_rank plan.hard_floor d.effective_limits ≤ d.model_tier
    pub ceiling : AtMost d.model_tier d.effective_limits.model_tier_ceiling
    pub usable :
        unavailable bundle.policy.exclude_states item.model
          (lookup d.selected_model_alias environment.models)
        ≡ false
    pub validation : d.validation_requirements ≡ determine_validation request environment config
    pub quoted :
        d.estimated_cost
        ≡ estimate_cost scale request item.model environment d.validation_requirements
    pub budget : FitsBudget d.estimated_cost d.effective_limits environment

  admits :
      (limits : Limits) (built plan : CandidatePlan) (d : RouteDecision)
      → resolve_limits request environment bundle ≡ ok limits
      → build_candidates classification bundle limits ≡ ok built
      → plan.hard_floor ≡ built.hard_floor
      → Decided scale
          (record {
            request = request;
            classification = classification;
            environment = environment;
            policy = bundle.policy;
            models = bundle.models;
            limits = limits;
            plan = plan;
            validation = determine_validation request environment config;
            recovery = recovery;
          })
          d
      → Admits d
  unfolding decision_of candidate_cost
  admits limits built plan d l b f decided = subst Admits (sym decided.decided) (record {
    plan = built;
    item = decided.item;
    limits_eq = l;
    plan_eq = b;
    configured = decided.admissible.configured;
    provider = refl;
    tier = refl;
    effort = decided.admissible.effort;
    serves = decided.admissible.serves;
    hard =
        subst (λ n. required_rank n limits ≤ decided.item.model.tier_rank) f
          decided.admissible.hard;
    ceiling = decided.admissible.ceiling;
    usable = decided.admissible.usable;
    validation = refl;
    quoted = decided.admissible.cost;
    budget = decided.admissible.budget;
  })

  -- The setting and the items from which `route` took its decision.
  pub record Routed (d : RouteDecision) : Type 0 where
    pub limits : Limits
    pub built : CandidatePlan
    pub plan : CandidatePlan
    pub limits_eq : resolve_limits request environment bundle ≡ ok limits
    pub built_eq : build_candidates classification bundle limits ≡ ok built
    pub floor_eq : plan.hard_floor ≡ built.hard_floor
    pub decided :
        Decided scale
          (record {
            request = request;
            classification = classification;
            environment = environment;
            policy = bundle.policy;
            models = bundle.models;
            limits = limits;
            plan = plan;
            validation = determine_validation request environment config;
            recovery = recovery;
          })
          d

  pub route-Routed :
      (d : RouteDecision)
      → route scale request classification environment bundle config recovery ≡ ok (valid d)
      → Routed d
  unfolding route
  route-Routed d h =
      let (_, _, h1) = >>=-eq-ok (preflight request environment bundle) _ h in
      let (limits, l, h2) = >>=-eq-ok (resolve_limits request environment bundle) _ h1 in
      let (built, b, h3) = >>=-eq-ok (build_candidates classification bundle limits) _ h2 in
      let (plan, p, h4) = >>=-eq-ok (extend_plan bundle.models recovery built) _ h3 in
      record {
        limits = limits;
        built = built;
        plan = plan;
        limits_eq = l;
        built_eq = b;
        floor_eq = extend_plan-hard_floor bundle.models recovery built plan p;
        decided = (route_setting-Decided scale _ _).holds d h4;
      }

  -- When `route` returns a decision, the decision's limits are those that `resolve_limits` gives,
  -- its model is configured in the bundle and supports its effort, the model serves the request,
  -- its tier is at least the required rank of a plan that `build_candidates` gives and at most the
  -- tier ceiling, the model is not unavailable, the validation requirements are those of
  -- `determine_validation`, and the estimated cost is that of `estimate_cost` and fits the budget.
  pub route-Admits :
      (d : RouteDecision)
      → route scale request classification environment bundle config recovery ≡ ok (valid d)
      → Admits d
  route-Admits d h =
      let r = route-Routed d h in
      admits r.limits r.built r.plan d r.limits_eq r.built_eq r.floor_eq r.decided
