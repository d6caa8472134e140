-- ===== src/Health/Circuits/Recovers.antt =====
-- An open circuit closes again.
use openai_model_router.Prelude.{ℕ, zero, suc, ◌+◌, ◌<◌, ◌≡◌, refl, ap, ◌∙◌, String, true, arith}
use openai_model_router.Health.{CircuitState, circuit_eq, HealthConfig, ConfigIsValid}
use openai_model_router.Health.Circuits.{
  Circuit, Evidence, prune, is_probe_result, take_pending, close_circuit, count_success,
  take_evidence, observe_circuit, is_cooled, half_opened, admit_next, admit_in, admit_pruned,
  admit_circuit,
}

module _ (config : HealthConfig) (component : String) (e : Evidence) where
  -- A probe that is admitted and then observed.
  pub probe_round : ℕ → Circuit → Circuit
  probe_round now c = observe_circuit config component now e (admit_circuit config now c).1

  -- Rounds at the readings of a clock.
  unfoldable pub probe_rounds : (ℕ → ℕ) → ℕ → Circuit → Circuit
  unfolding probe_round
  probe_rounds clock zero c = c
  probe_rounds clock (suc n) c = probe_rounds (λ k. clock (suc k)) n (probe_round (clock 0) c)

  -- Half-open, with `n` probes that all succeeded.
  record Recovering (n : ℕ) (c : Circuit) : Type 0 where
    half : c.state ≡ CircuitState.half_open
    admitted : c.admitted_probes ≡ n
    pending : c.pending_probes ≡ 0
    successes : c.recovery_successes ≡ n

  module _ (success : e.success ≡ true) (valid : ConfigIsValid config) where
    advance :
        (n now : ℕ) (c : Circuit)
        → suc n < config.recovery_success_threshold
        → Recovering n c
        → Recovering (suc n) (probe_round now c)
    unfolding probe_round observe_circuit take_evidence prune is_probe_result count_success
        take_pending close_circuit admit_circuit admit_pruned admit_in admit_next
    advance n now c h r =
        let bounded = valid.bounded in
        record {
          half = ground arith;
          admitted = ground arith;
          pending = ground arith;
          successes = ground arith;
        }

    finish :
        (n now : ℕ) (c : Circuit)
        → suc n ≡ config.recovery_success_threshold
        → Recovering n c
        → (probe_round now c).state ≡ CircuitState.closed
    unfolding probe_round observe_circuit take_evidence prune is_probe_result count_success
        take_pending close_circuit admit_circuit admit_pruned admit_in admit_next
    finish n now c h r = let bounded = valid.bounded in ground arith

    continue :
        (m n : ℕ) (clock : ℕ → ℕ) (c : Circuit)
        → n + suc m ≡ config.recovery_success_threshold
        → Recovering n c
        → (probe_rounds clock (suc m) c).state ≡ CircuitState.closed
    unfolding probe_rounds
    continue zero n clock c h r = finish n (clock 0) c (omega arith) r
    continue (suc m) n clock c h r =
        continue m (suc n) (λ k. clock (suc k)) (probe_round (clock 0) c) (omega arith)
          (advance n (clock 0) c (omega arith) r)

    start :
        (now : ℕ) (c : Circuit)
        → c.state ≡ CircuitState.opened
        → is_cooled config now c ≡ true
        → probe_round now c ≡ probe_round now (half_opened c)
    unfolding probe_round admit_circuit admit_pruned admit_in is_cooled prune half_opened
    start now c h q = ap (observe_circuit config component now e) (ground arith)

    close_after :
        (t : ℕ) (clock : ℕ → ℕ) (c : Circuit)
        → t ≡ config.recovery_success_threshold
        → c.state ≡ CircuitState.opened
        → is_cooled config (clock 0) c ≡ true
        → (probe_rounds clock t c).state ≡ CircuitState.closed
    unfolding probe_rounds half_opened
    close_after zero clock c p h q = absurd (let recovery = valid.recovery in ground arith)
    close_after (suc m) clock c p h q =
        ap (λ d. (probe_rounds (λ k. clock (suc k)) m d).state) (start (clock 0) c h q)
        ∙ (continue m 0 clock (half_opened c) (omega arith)
            (record { half = refl; admitted = refl; pending = refl; successes = refl }))

-- Once an open circuit has cooled down, as many rounds of a probe that is admitted and then observed
-- as a success as `recovery_success_threshold` says close it, at whatever times they run.
pub probe_rounds-closes :
    (config : HealthConfig) (component : String) (e : Evidence) (clock : ℕ → ℕ) (c : Circuit)
    → ConfigIsValid config
    → e.success ≡ true
    → c.state ≡ CircuitState.opened
    → is_cooled config (clock 0) c ≡ true
    → (probe_rounds config component e clock config.recovery_success_threshold c).state
      ≡ CircuitState.closed
probe_rounds-closes config component e clock c valid success h q =
    close_after config component e success valid _ clock c refl h q
