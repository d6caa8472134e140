-- ===== src/Health/Probes.antt =====
-- `run_probes` and `SyntheticHealthSource.seed` of src/model_router/health/service.py.
use openai_model_router.Prelude.{
  ℕ, zero, suc, ◌+◌, String, Option, none, some, List, [], ◌∷◌, map, Bool, true, false, ◌&&◌, ◌||◌,
  not, ◌==◌, string_eq, ltb, is_some, find, if◌then◌else◌, Raise, ok, raise, raise_if, ◌>>=◌, ◌>>◌,
  value_error, take, ◌++◌, concat_map,
}
use openai_model_router.Contracts.{FailureType, HealthState}
use openai_model_router.Health.{
  CircuitState, circuit_eq, Scope, scope_eq, HealthConfig, HealthObservation,
}
use openai_model_router.Health.Circuits.{Evidence}
use openai_model_router.Health.Service.{HealthService, global_scope, observe, admit_probe}

-- `HealthProbeResult`
pub record HealthProbeResult : Type 0 where
  pub success : Bool
  pub state : Option HealthState
  pub failure : Option FailureType
  pub latency_ms : Option ℕ

-- `__post_init__` of `HealthProbeResult`
unfoldable pub check_result : HealthProbeResult → Raise (Unit {0})
check_result r = do
  raise_if (r.success && is_some r.failure)
      (value_error "a successful probe cannot contain a failure")
  raise_if (not r.success && (not (is_some r.failure) && not (is_some r.state)))
      (value_error "a failed probe requires failure or state evidence")

-- An amount as `_probe_money` meets it: not text, no number, not finite or negative, or a number
-- of the smallest unit.
pub data Money : Type 0 where
  untyped invalid unusable : Money
  amount : ℕ → Money

-- `_probe_money`
unfoldable pub probe_money : Bool → Money → Raise ℕ
probe_money positive untyped = raise (value_error "must be an explicit decimal string or Decimal")
probe_money positive invalid = raise (value_error "is invalid")
probe_money true unusable = raise (value_error "must be positive and finite")
probe_money false unusable = raise (value_error "must be nonnegative and finite")
probe_money true (amount zero) = raise (value_error "must be positive and finite")
probe_money true (amount (suc n)) = ok (suc n)
probe_money false (amount n) = ok n

-- `HealthProbe`
pub record HealthProbe : Type 0 where
  pub scope : Scope
  pub required : Bool
  pub cost_upper_bound_usd : Money

-- What an adapter's `run` returns, with the clock's readings around it; none where it raises or
-- returns no result.
pub record ProbeRun : Type 0 where
  pub admitted_at : ℕ
  pub observed_at : ℕ
  pub result : Option HealthProbeResult

-- The result of a probe that raises.
abbrev pub failed_probe : HealthProbeResult
failed_probe = record {
  success = false;
  state = some HealthState.unhealthy;
  failure = some FailureType.provider_failure;
  latency_ms = none;
}

unfoldable pub result_of : Option HealthProbeResult → HealthProbeResult
result_of none = failed_probe
result_of (some r) = r

unfoldable pub evidence_of : HealthProbe → HealthProbeResult → Evidence
evidence_of probe r = record {
  failure = r.failure;
  success = r.success;
  state = r.state;
  required = probe.required;
  latency_ms = r.latency_ms;
}

-- `sum(costs)` of the batch
unfoldable pub batch_cost : List HealthProbe → Raise ℕ
batch_cost [] = ok 0
batch_cost (probe ∷ probes) = do
  cost ← probe_money false probe.cost_upper_bound_usd
  rest ← batch_cost probes
  ok (cost + rest)

unfoldable pub must_admit : HealthService → Scope → Bool
must_admit s scope = elim (find scope s.circuits) [
  | none ↦ false
  | some c ↦ not (c.state == CircuitState.closed)
]

unfoldable pub admit_if_needed : Bool → ℕ → Scope → HealthService → Raise Bool × HealthService
admit_if_needed true now scope s = admit_probe now scope s
admit_if_needed false now scope s = (ok true, s)

module _ (run : ℕ → HealthProbe → ProbeRun) where
  -- The dispatch of one probe that may run.
  unfoldable pub dispatch :
      HealthProbe
      → ProbeRun
      → Raise Bool × HealthService
      → Raise (Option HealthObservation) × HealthService
  dispatch probe r (raise x, s) = (raise x, s)
  dispatch probe r (ok false, s) = (ok none, s)
  dispatch probe r (ok true, s) =
      let (observed, s') =
        observe r.observed_at probe.scope (evidence_of probe (result_of r.result)) s in
      (observed >>= (λ o. ok (some o)), s')

  unfoldable pub run_probe :
      HealthProbe → HealthService → Raise (Option HealthObservation) × HealthService
  run_probe probe s =
      let r = run s.config.probe_timeout_ms probe in
      dispatch probe r (admit_if_needed (must_admit s probe.scope) r.admitted_at probe.scope s)

  -- What the loop adds for a probe that did not raise.
  unfoldable pub joined :
      Option HealthObservation
      → Raise (List HealthObservation) × HealthService
      → Raise (List HealthObservation) × HealthService
  joined none rest = rest
  joined (some o) (r, s) = (r >>= (λ os. ok (o ∷ os)), s)

  -- The loop over the batch, in order; an error ends it.
  unfoldable pub run_batch :
      List HealthProbe → HealthService → Raise (List HealthObservation) × HealthService
  run_batch [] s = (ok [], s)
  run_batch (probe ∷ probes) s =
      let (r, s') = run_probe probe s in
      elim r [ raise x ↦ (raise x, s') | ok o ↦ joined o (run_batch probes s') ]

  unfoldable pub run_within :
      Raise (Unit {0})
      → List HealthProbe
      → HealthService
      → Raise (List HealthObservation) × HealthService
  run_within (raise x) batch s = (raise x, s)
  run_within (ok _) batch s = run_batch batch s

  -- The checks before the dispatch.
  unfoldable pub check_batch : Money → List HealthProbe → Raise (Unit {0})
  check_batch cap batch = do
    limit ← probe_money true cap
    cost ← batch_cost batch
    raise_if (ltb limit cost) (value_error "probe batch exceeds its explicit budget cap")

  -- `run_probes`
  unfoldable pub run_probes :
      List HealthProbe
      → Bool
      → Money
      → HealthService
      → Raise (List HealthObservation) × HealthService
  run_probes probes authorized cap s =
      let batch = take s.config.max_probes_per_run probes in
      if not s.config.live_probes_enabled || not authorized
      then (ok [], s)
      else run_within (check_batch cap batch) batch s

abbrev pub success_evidence : Evidence
success_evidence = record {
  failure = none;
  success = true;
  state = none;
  required = true;
  latency_ms = none;
}

abbrev pub optional_evidence : Evidence
optional_evidence = record success_evidence { success = false; required = false }

-- The observations of `seed`, in order.
unfoldable pub seed_model : List String → String → List (Scope × Evidence)
seed_model capabilities model =
    (record { component = "provider"; model = some model; capability = none }, success_evidence)
    ∷ map
        (λ capability. (
          record { component = "provider"; model = some model; capability = some capability },
          success_evidence,
        ))
        capabilities

unfoldable pub seed_calls :
    HealthConfig → List String → List String → List String → List (Scope × Evidence)
seed_calls config models capabilities disabled =
    map (λ component. (global_scope component, success_evidence)) config.required_components
    ++ (concat_map (seed_model capabilities) models
        ++ map (λ component. (global_scope component, optional_evidence)) disabled)

-- Calls of `observe`; the clock reads `clock n` at the n-th.
unfoldable pub observe_all :
    (ℕ → ℕ) → ℕ → List (Scope × Evidence) → HealthService → Raise (Unit {0}) × HealthService
observe_all clock n [] s = (ok tt, s)
observe_all clock n ((scope, e) ∷ calls) s =
    let (r, s') = observe (clock n) scope e s in
    elim r [ raise x ↦ (raise x, s') | ok o ↦ observe_all clock (suc n) calls s' ]

-- `seed`, up to the snapshot that it returns
unfoldable pub seed :
    (ℕ → ℕ)
    → List String
    → List String
    → List String
    → HealthService
    → Raise (Unit {0}) × HealthService
seed clock models capabilities disabled s =
    observe_all clock 0 (seed_calls s.config models capabilities disabled) s
