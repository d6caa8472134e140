-- ===== src/Health/Projection/Routed.antt =====
-- `route` over the environment that `apply` projects.
use openai_model_router.Prelude.{
  ℕ, ◌<◌, ◌≤◌, ◌≡◌, subst, String, Option, some, List, true, false, In, lookup, arith, ok,
}
use openai_model_router.Contracts.{
  HealthState, health_eq, access_eq, ModelHealth, EnvironmentSnapshot, Request, Classification,
  PolicyBundle, Candidate, ModelEntry,
}
use openai_model_router.Policy.Validation.{ValidationDocument}
use openai_model_router.Router.{RouteDecision, valid, route, unavailable}
use openai_model_router.Router.Laws.Admission.{route-Admits}
use openai_model_router.Router.Laws.Readiness.{route-IsReady}
use openai_model_router.Health.{HealthObservation, HealthSnapshot}
use openai_model_router.Health.Service.{HealthService, is_available}
use openai_model_router.Health.Projection.{model_evidence, project}
use openai_model_router.Health.Projection.Narrow.{project-IsBacked, lookup-projected}

unavailable-usable :
    (excluded : List HealthState) (entry : ModelEntry) (m : ModelHealth)
    → unavailable excluded entry (some m) ≡ false
    → m.usable ≡ true
unfolding unavailable
unavailable-usable excluded entry m h = ground arith

module _ (scale : ℕ) (request : Request) (classification : Classification)
    (environment : EnvironmentSnapshot) (bundle : PolicyBundle) (config : ValidationDocument)
    (recovery : Option (List Candidate)) (s : HealthService) (capabilities : List String)
    (health : HealthSnapshot) where
  -- When `route`, in the environment that the health service projects, selects a model that the
  -- environment knows, each health observation that counts for the model or for a required
  -- capability is available; and if the decision is executable, each was made by the environment's
  -- clock and is still valid at it.
  pub route-Backed :
      (d : RouteDecision) (m : ModelHealth) (o : HealthObservation)
      → route scale request classification
          (project s environment capabilities health)
          bundle
          config
          recovery
        ≡ ok (valid d)
      → lookup d.selected_model_alias environment.models ≡ some m
      → In o (model_evidence s health capabilities d.selected_model_alias)
      → (is_available o ≡ true)
        × (d.executable ≡ true
            → (o.observed_at ≤ environment.clock) × (environment.clock < o.valid_until))
  unfolding project
  route-Backed d m o h known n =
      let projected = project s environment capabilities health in
      let admitted =
        route-Admits scale request classification projected bundle config recovery d h in
      let found =
        lookup-projected s health capabilities d.selected_model_alias environment.models m known in
      let usable = unavailable-usable _ _ _ (
        subst (λ x. unavailable bundle.policy.exclude_states admitted.item.model x ≡ false) found
          admitted.usable) in
      let backed =
        (project-IsBacked s environment capabilities health _ _ found usable).evidence o n in
      (
        backed.available,
        λ x.
            let ready =
              route-IsReady scale request classification projected bundle config recovery d h x in
            let (at, observed, past) = ready.fresh.observed in
            let (until, expires, fresh) = ready.fresh.valid_for in
            (
              omega (arith, backed.since at observed, past),
              omega (arith, backed.until until expires, fresh),
            ),
      )
