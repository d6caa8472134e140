-- ===== src/Health/Service/Machine.antt =====
-- Sequences of calls of `observe` and `admit_probe`.
use openai_model_router.Prelude.{
  ℕ, ◌≡◌, refl, sym, subst, ◌∙◌, Option, none, some, ◌==◌, find, find-put, Bool-cases, inl, inr,
  if◌then◌else◌, Raise, ok, raise,
}
use openai_model_router.Contracts.{HealthState}
use openai_model_router.Health.{circuit_eq, Scope, scope_eq, HealthConfig, ConfigIsValid}
use openai_model_router.Health.Circuits.{Circuit, new_circuit, Evidence}
use openai_model_router.Health.Circuits.Sound.{
  IsSound, new_circuit-IsSound, observe_circuit-IsSound, admit_circuit-IsSound,
}
use openai_model_router.Health.Service.{
  HealthService, new_service, circuit_of, put_circuit, observe, observe_checked, observe_health,
  publish, check_call, check_names, is_task_outcome, admit_probe, admit_checked,
}

-- Every circuit of the service is sound, for the configuration `config`.
pub record AllSound (config : HealthConfig) (s : HealthService) : Type 0 where
  pub configured : s.config ≡ config
  pub circuits : (scope : Scope) (c : Circuit) → find scope s.circuits ≡ some c → IsSound config c

-- What a sequence of calls makes of a new service, the raising calls included.
pub data Serves (config : HealthConfig) (start : ℕ) : HealthService → Type 0 where
  begun : Serves config start (new_service start config)
  observed :
      {s : HealthService} (now : ℕ) (scope : Scope) (e : Evidence)
      → Serves config start s
      → Serves config start (observe now scope e s).1
  probed :
      {s : HealthService} (now : ℕ) (scope : Scope)
      → Serves config start s
      → Serves config start (admit_probe now scope s).1

module _ (config : HealthConfig) where
  new_service-AllSound : (start : ℕ) → AllSound config (new_service start config)
  unfolding new_service find
  new_service-AllSound start = record { configured = refl; circuits = λ scope c h. absurd (cc) }

  circuit_of-IsSound :
      (s : HealthService) (scope : Scope) → AllSound config s → IsSound config (circuit_of s scope)
  unfolding circuit_of
  circuit_of-IsSound s scope all = go (find scope s.circuits) refl
    where
      go :
          (o : Option Circuit)
          → find scope s.circuits ≡ o
          → IsSound config (elim o [ none ↦ new_circuit | some c ↦ c ])
      go none h = new_circuit-IsSound config
      go (some c) h = all.circuits scope c h

  put_circuit-AllSound :
      (s : HealthService) (scope : Scope) (c : Circuit)
      → AllSound config s
      → IsSound config c
      → AllSound config (put_circuit scope c s)
  unfolding put_circuit
  put_circuit-AllSound s scope c all sound = record {
    configured = all.configured;
    circuits = λ other d h. go other d (sym (find-put scope other c s.circuits) ∙ h);
  }
    where
      go :
          (other : Scope) (d : Circuit)
          → (if scope == other then some c else find other s.circuits) ≡ some d
          → IsSound config d
      go other d h = elim (Bool-cases (scope == other)) [
        | inl q ↦
            let kept : some c ≡ some d = rw q at h in
            let same : c ≡ d = cc in subst (λ x. IsSound config x) same sound
        | inr q ↦ all.circuits other d (rw q at h)
      ]

  publish-AllSound :
      (now : ℕ) (scope : Scope) (e : Evidence) (c : Circuit) (o : Option HealthState)
      (s : HealthService)
      → AllSound config s
      → AllSound config (publish now scope e c o s).1
  unfolding publish
  publish-AllSound now scope e c none s all = all
  publish-AllSound now scope e c (some state) s all = record {
    configured = all.configured;
    circuits = all.circuits;
  }

  observe_health-AllSound :
      (now : ℕ) (scope : Scope) (e : Evidence) (s : HealthService)
      → AllSound config s
      → AllSound config (observe_health now scope e s).1
  unfolding observe_health circuit_of
  observe_health-AllSound now scope e s all = publish-AllSound now scope e _ _ _ (
      put_circuit-AllSound s scope _ all (
        rw all.configured (
          observe_circuit-IsSound config scope.component now e _ (circuit_of-IsSound s scope all))))

  observe-AllSound :
      (now : ℕ) (scope : Scope) (e : Evidence) (s : HealthService)
      → AllSound config s
      → AllSound config (observe now scope e s).1
  unfolding observe observe_checked
  observe-AllSound now scope e s all = go (check_call scope e)
    where
      go : (r : Raise (Unit {0})) → AllSound config (observe_checked r now scope e s).1
      go (raise x) = all
      go (ok _) = elim (Bool-cases (is_task_outcome e.failure)) [
        | inl q ↦ rw q all
        | inr q ↦ rw q (observe_health-AllSound now scope e s all)
      ]

  admit_probe-AllSound :
      ConfigIsValid config
      → (now : ℕ) (scope : Scope) (s : HealthService) → AllSound config s
      → AllSound config (admit_probe now scope s).1
  unfolding admit_probe admit_checked put_circuit circuit_of
  admit_probe-AllSound valid now scope s all = go (check_names scope)
    where
      go : (r : Raise (Unit {0})) → AllSound config (admit_checked r now scope s).1
      go (raise x) = all
      go (ok _) = put_circuit-AllSound s scope _ all (
          rw all.configured
            (admit_circuit-IsSound config valid now _ (circuit_of-IsSound s scope all)))

-- With a valid configuration, after any calls of `observe` and `admit_probe` on a new service,
-- raising ones included, each circuit is sound: where it is closed or open no probe is counted, and
-- where it is half-open each admitted probe is pending or has succeeded, at most
-- `half_open_max_probes` are admitted, and fewer have succeeded than close the circuit.
pub Serves-IsSound :
    (config : HealthConfig) (start : ℕ) (s : HealthService)
    → ConfigIsValid config
    → Serves config start s
    → AllSound config s
Serves-IsSound config start _ valid begun = new_service-AllSound config start
Serves-IsSound config start _ valid (observed now scope e r) =
    observe-AllSound config now scope e _ (Serves-IsSound config start _ valid r)
Serves-IsSound config start _ valid (probed now scope r) =
    admit_probe-AllSound config valid now scope _ (Serves-IsSound config start _ valid r)
