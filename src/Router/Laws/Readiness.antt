-- ===== src/Router/Laws/Readiness.antt =====
-- `route` calls a decision executable only where nothing blocks its dispatch.
use openai_model_router.Prelude.{
  ℕ, ◌<◌, ◌≤◌, ◌≡◌, ◌≢◌, ◌∙◌, none, some, Dict, some-injective, beq→eq, refl, sym, subst, String,
  Option, List, [], ◌∷◌, ◌++◌, Bool, true, false, lookup, is_some, Bool-cases, inl, inr, arith,
  if◌then◌else◌, ok, ◌==◌, nat_eq,
}
use openai_model_router.Contracts.{
  Request, Classification, EnvironmentSnapshot, ModelEntry, PolicyBundle, Limits, Candidate,
  ValidationRequirements, Feasibility, CostEstimate, ModelHealth, AccountAccess, access_eq,
}
use openai_model_router.Policy.Costs.{estimate_cost}
use openai_model_router.Policy.Budgets.Readiness.{IsFunded, check_budget-IsFunded}
use openai_model_router.Policy.Validation.{ValidationDocument}
use openai_model_router.Router.Assess.{candidate_budget, candidate_cost, without_cache}
use openai_model_router.Router.Choose.{account_unknown}
use openai_model_router.Router.Decide.{
  RouteDecision, valid, Setting, stale_snapshot, environment_blockers, decision_of,
}
use openai_model_router.Router.Route.{route}
use openai_model_router.Router.Laws.Loop.{append-eq-nil, unique-eq-nil, is_empty→nil, flagged}
use openai_model_router.Router.Laws.Admission.{Decided, route-Routed}

-- The environment's health evidence was made by its clock and is still valid at it.
pub record IsFresh (environment : EnvironmentSnapshot) : Type 0 where
  pub observed : (at : ℕ) × (environment.health_observed_at ≡ some at) × (at ≤ environment.clock)
  pub valid_for :
      (until : ℕ) × (environment.health_valid_until ≡ some until) × (environment.clock < until)
  pub version : (id : String) × (environment.health_snapshot_id ≡ some id)

stale_snapshot-IsFresh :
    (environment : EnvironmentSnapshot)
    → stale_snapshot environment ≡ false
    → is_some environment.health_snapshot_id ≡ true
    → IsFresh environment
unfolding stale_snapshot
stale_snapshot-IsFresh environment h v = record {
  observed = ground arith;
  valid_for = ground arith;
  version = named _ v;
}
  where
    named : (o : Option String) → is_some o ≡ true → (id : String) × (o ≡ some id)
    named none q = cc
    named (some id) q = (id, refl)

-- The access to the model's account is verified.
abbrev pub IsVerified : EnvironmentSnapshot → String → Type 0
IsVerified environment alias =
    (m : ModelHealth) × (lookup alias environment.models ≡ some m)
    × (m.account_access ≡ AccountAccess.verified)

-- Nothing blocks the dispatch of the decision.
pub record IsReady (scale : ℕ) (request : Request) (environment : EnvironmentSnapshot)
    (models : Dict ModelEntry) (d : RouteDecision) : Type 0 where
  pub funded : IsFunded d.estimated_cost d.effective_limits environment
  pub uncached :
      (model : ModelEntry)
      → lookup d.selected_model_alias models ≡ some model
      → d.estimated_cost.cache_read_tokens ≢ 0
      → IsFunded
          (estimate_cost scale (without_cache request) model environment d.validation_requirements)
          d.effective_limits
          environment
  pub validation : d.validation_requirements.blockers ≡ []
  pub account : IsVerified environment d.selected_model_alias
  pub fresh : IsFresh environment
  pub recovery : environment.recovery_bounded ≡ true
  pub retention : environment.durable_retention ≡ true
  pub inert : request.side_effecting_tool ≡ false
  pub period : d.effective_limits.period_spend_ceiling_usd ≡ none

unflagged : (b : Bool) (x : String) → (if b then [] else x ∷ []) ≡ [] → b ≡ true
unflagged true x h = refl
unflagged false x h = absurd (ground arith)

is_some-none : {A : Type 0} (o : Option A) → is_some o ≡ false → o ≡ none
is_some-none none h = refl
is_some-none (some a) h = cc

account_unknown-verified :
    (o : Option ModelHealth)
    → account_unknown o ≡ false
    → (m : ModelHealth) × (o ≡ some m) × (m.account_access ≡ AccountAccess.verified)
unfolding account_unknown
account_unknown-verified none h = cc
account_unknown-verified (some m) h =
    (m, refl, beq→eq m.account_access AccountAccess.verified (ground arith))

module _ (scale : ℕ) (request : Request) (environment : EnvironmentSnapshot)
    (validation : ValidationRequirements) (limits : Limits) (model : ModelEntry) where
  -- Both quotes are funded, where a claimed cache read makes two.
  candidate_budget-IsFunded :
      (candidate_budget scale request environment validation limits model).violations ≡ []
      → (candidate_budget scale request environment validation limits model).blockers ≡ []
      → IsFunded
          (candidate_cost scale request environment validation limits model)
          limits
          environment
        × ((candidate_cost scale request environment validation limits model).cache_read_tokens ≢ 0
            → IsFunded
                (estimate_cost scale (without_cache request) model environment validation)
                limits
                environment)
  unfolding candidate_budget candidate_cost
  candidate_budget-IsFunded v h =
      let funded = check_budget-IsFunded scale request model environment validation limits in
      let uncached =
        check_budget-IsFunded scale (without_cache request) model environment validation limits in
      elim (Bool-cases (
        (candidate_cost scale request environment validation limits model).cache_read_tokens
        == 0)) [
          | inl e ↦ (funded (rw e at v) (rw e at h), λ n. absurd (n (beq→eq _ 0 e)))
          | inr e ↦
              let (v1, v2) = append-eq-nil _ _ (unique-eq-nil _ (rw e at v)) in
              let (h1, _) = append-eq-nil _ _ (unique-eq-nil _ (rw e at h)) in
              let (b1, b2) = append-eq-nil _ _ h1 in (funded v1 b1, λ n. uncached v2 b2)
        ]

module _ (scale : ℕ) (s : Setting) where
  Decided-IsReady :
      (d : RouteDecision)
      → Decided scale s d
      → d.executable ≡ true
      → IsReady scale s.request s.environment s.models d
  unfolding decision_of environment_blockers
  Decided-IsReady d decided x =
      let item = decided.item in
      let all =
        is_empty→nil _ (subst (λ (e : RouteDecision). e.executable ≡ true) decided.decided x) in
      let (front, env) = append-eq-nil (s.validation.blockers ++ item.budget.blockers) _ all in
      let (v, b) = append-eq-nil s.validation.blockers _ front in
      let (e6, period) = append-eq-nil _ _ env in
      let (e5, inert) = append-eq-nil _ _ e6 in
      let (e4, version) = append-eq-nil _ _ e5 in
      let (e3, retention) = append-eq-nil _ _ e4 in
      let (e2, recovery) = append-eq-nil _ _ e3 in
      let (account, fresh) = append-eq-nil _ _ e2 in
      let (funded, uncached) =
        candidate_budget-IsFunded scale s.request s.environment s.validation s.limits item.model
          decided.admissible.unviolated
          (subst (λ (f : Feasibility). f.blockers ≡ []) decided.admissible.feasibility b) in
      subst (IsReady scale s.request s.environment s.models) (sym decided.decided) (record {
        funded =
            subst (λ c. IsFunded c s.limits s.environment) (sym decided.admissible.cost) funded;
        uncached = λ model found n.
            let same : item.model ≡ model =
              some-injective (sym decided.admissible.configured ∙ found) in
            subst
              (λ m.
                IsFunded
                  (estimate_cost scale (without_cache s.request) m s.environment s.validation)
                  s.limits s.environment)
              same
              (uncached
                (subst (λ (c : CostEstimate). c.cache_read_tokens ≢ 0) decided.admissible.cost n));
        validation = v;
        account = account_unknown-verified _ (
            subst (λ h. account_unknown h ≡ false) decided.admissible.health
              (flagged (account_unknown item.health) _ account));
        fresh =
            stale_snapshot-IsFresh s.environment (flagged (stale_snapshot s.environment) _ fresh)
              (unflagged (is_some s.environment.health_snapshot_id) _ version);
        recovery = unflagged s.environment.recovery_bounded _ recovery;
        retention = unflagged s.environment.durable_retention _ retention;
        inert = flagged s.request.side_effecting_tool _ inert;
        period =
            is_some-none s.limits.period_spend_ceiling_usd
              (flagged (is_some s.limits.period_spend_ceiling_usd) _ period);
      })

module _ (scale : ℕ) (request : Request) (classification : Classification)
    (environment : EnvironmentSnapshot) (bundle : PolicyBundle) (config : ValidationDocument)
    (recovery : Option (List Candidate)) where
  -- When `route` returns a decision that it calls executable, live execution is enabled under a cost
  -- ceiling and a deadline that the next action fits, the estimate is complete and within the
  -- remaining funds, and so is the estimate without cache reads where it claims some, the validation
  -- requirements have no blocker, the account of the selected model is verified, the health evidence
  -- has a version, was made by the environment's clock and is not expired, recovery is bounded,
  -- retention is durable, the request has no side-effecting tool, and no period ceiling applies.
  pub route-IsReady :
      (d : RouteDecision)
      → route scale request classification environment bundle config recovery ≡ ok (valid d)
      → d.executable ≡ true
      → IsReady scale request environment bundle.models d
  route-IsReady d h x =
      Decided-IsReady scale _ d
        (route-Routed scale request classification environment bundle config recovery d h).decided x
