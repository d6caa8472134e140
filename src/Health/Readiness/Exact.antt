-- ===== src/Health/Readiness/Exact.antt =====
-- What `readiness` and `operation_readiness` require, exactly.
use openai_model_router.Prelude.{
  ℕ, ◌≡◌, ◌↔◌, ◌⊎◌, sym, ap, ◌∙◌, [], ◌++◌, true, ◌&&◌, not, ◌==◌, is_empty, any, values, arith, ok,
  ok-injective, raise_if-eq-ok, string_eq,
}
use openai_model_router.Contracts.{health_eq, EnvironmentSnapshot}
use openai_model_router.Health.{HealthConfig, HealthObservation, HealthSnapshot}
use openai_model_router.Health.Service.{is_available, validate_snapshot}
use openai_model_router.Health.Readiness.{
  HealthReadiness, assess_dependencies, block_if, is_ready_model, OperationFacts,
  operation_blockers, operation_readiness, provider_candidates, readiness,
}
use openai_model_router.Health.Readiness.Providers.{Counts, provider-free}
use openai_model_router.Health.Readiness.Ready.{
  conclude_ready-ready, append-empty, block_if-empty, AllCovered, assess-AllCovered,
  IsFreshEvidence, is_stale_evidence-false,
}

-- What the environment and the adapters must bring.
pub record IsPrepared (now : ℕ) (environment : EnvironmentSnapshot) (facts : OperationFacts)
    : Type 0 where
  pub authorized : facts.execution_authorized ≡ true
  pub finite : facts.finite_limits ≡ true
  pub synthetic : environment.synthetic ≡ true
  pub mock_provider : facts.synthetic_provider ≡ true
  pub durable : environment.durable_retention ≡ true
  pub bounded : environment.recovery_bounded ≡ true
  pub fresh : IsFreshEvidence now environment
  pub model : any is_ready_model (values environment.models) ≡ true

operation_blockers-empty :
    (now : ℕ) (environment : EnvironmentSnapshot) (facts : OperationFacts)
    → (operation_blockers now environment facts ≡ []) ↔ IsPrepared now environment facts
unfolding operation_blockers block_if
operation_blockers-empty now environment facts =
    let (fresh, stale) = is_stale_evidence-false now environment in
    (
      λ h. record {
        authorized = ground arith;
        finite = ground arith;
        synthetic = ground arith;
        mock_provider = ground arith;
        durable = ground arith;
        bounded = ground arith;
        fresh = fresh (ground arith);
        model = ground arith;
      },
      λ p. ground (
        arith,
        p.authorized,
        p.finite,
        p.synthetic,
        p.mock_provider,
        p.durable,
        p.bounded,
        stale p.fresh,
        p.model,
      ),
    )

-- Where `operation_readiness` returns, it answers ready exactly when every required component is
-- covered by an available observation of the snapshot, and the operation is prepared: execution is
-- authorized, its limits are finite, environment and provider are synthetic, retention is durable,
-- recovery is bounded, the environment's health evidence is fresh, and some model is ready.
pub operation_readiness-exact :
    (config : HealthConfig) (now : ℕ) (environment : EnvironmentSnapshot) (facts : OperationFacts)
    (health : HealthSnapshot) (r : HealthReadiness)
    → operation_readiness config now environment facts health ≡ ok r
    → (r.ready ≡ true) ↔ (AllCovered config health × IsPrepared now environment facts)
unfolding operation_readiness validate_snapshot
operation_readiness-exact config now environment facts health r h =
    let (_, same) = raise_if-eq-ok (not (health.config_version == config.version)) _ _ h in
    let (ready, empty) =
      conclude_ready-ready
        ((assess_dependencies config health).blockers ++ operation_blockers now environment facts)
        _ in
    let (split, join) = append-empty (assess_dependencies config health).blockers _ in
    let (covered, uncovered) = assess-AllCovered config health in
    let (prepared, unprepared) = operation_blockers-empty now environment facts in
    (
      λ q.
          let (a, b) = split (ready (ap (λ x. x.ready) (ok-injective same) ∙ q)) in
          (covered a, prepared b),
      λ p.
          ap (λ x. x.ready) (sym (ok-injective same))
          ∙ empty (join (uncovered p.0, unprepared p.1)),
    )

-- Where `readiness` returns, it answers ready exactly when every required component is covered by an
-- available observation of the snapshot and, if any observation of the provider counts, one that
-- counts is available. The required observations of a model count: those of the model as a whole, or
-- those of its capabilities where there is none of a model as a whole.
pub readiness-exact :
    (config : HealthConfig) (health : HealthSnapshot) (r : HealthReadiness)
    → readiness config health ≡ ok r
    → (r.ready ≡ true) ↔ (
        AllCovered config health
        × (((o : HealthObservation) → ¬ (Counts health o))
            ⊎ ((o : HealthObservation) × Counts health o × (is_available o ≡ true))))
unfolding readiness validate_snapshot
readiness-exact config health r h =
    let (_, same) = raise_if-eq-ok (not (health.config_version == config.version)) _ _ h in
    let (ready, empty) = conclude_ready-ready _ _ in
    let (split, join) = append-empty (assess_dependencies config health).blockers _ in
    let (covered, uncovered) = assess-AllCovered config health in
    let (counted, uncounted) = provider-free health is_available in
    let (free, blocked) =
      block_if-empty
        (not (is_empty (provider_candidates health))
          && not (any is_available (provider_candidates health)))
        _ in
    (
      λ q.
          let (a, b) = split (ready (ap (λ x. x.ready) (ok-injective same) ∙ q)) in
          let unblocked = free b in (covered a, counted (ground arith)),
      λ p.
          ap (λ x. x.ready) (sym (ok-injective same))
          ∙ empty (join (uncovered p.0, blocked (ground (arith, uncounted p.1)))),
    )
