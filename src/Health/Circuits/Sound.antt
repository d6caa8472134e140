-- ===== src/Health/Circuits/Sound.antt =====
-- The states of a circuit that observations and probes keep.
use openai_model_router.Prelude.{
  ℕ, suc, ◌+◌, ◌<◌, ◌≤◌, ◌≡◌, refl, String, none, Bool, true, false, leb, is_some, Bool-cases, inl,
  inr, arith, if◌then◌else◌,
}
use openai_model_router.Health.{CircuitState, circuit_eq, HealthConfig, ConfigIsValid}
use openai_model_router.Health.Circuits.{
  Circuit, Evidence, new_circuit, prune, open_circuit, record_failure, is_probe_result,
  take_pending, close_circuit, count_success, trips, note_failure, is_failure, take_evidence,
  observe_circuit, is_cooled, half_opened, admit_next, admit_in, admit_pruned, admit_circuit,
}

-- No probe is counted.
pub record IsIdle (c : Circuit) : Type 0 where
  pub admitted : c.admitted_probes ≡ 0
  pub pending : c.pending_probes ≡ 0
  pub successes : c.recovery_successes ≡ 0

-- A closed or open circuit counts no probe, and an open one knows since when. In a half-open one
-- each admitted probe is pending or has succeeded, their number is bounded, and too few succeeded.
pub data IsSound (config : HealthConfig) (c : Circuit) : Type 0 where
  resting : c.state ≡ CircuitState.closed → IsIdle c → c.opened_at ≡ none → IsSound config c
  cooling : c.state ≡ CircuitState.opened → IsIdle c → is_some c.opened_at ≡ true → IsSound config c
  probing :
      c.state ≡ CircuitState.half_open
      → c.recovery_successes + c.pending_probes ≡ c.admitted_probes
      → c.admitted_probes ≤ config.half_open_max_probes
      → c.recovery_successes < config.recovery_success_threshold
      → is_some c.opened_at ≡ true
      → IsSound config c

pub new_circuit-IsSound : (config : HealthConfig) → IsSound config new_circuit
new_circuit-IsSound config =
    resting refl (record { admitted = refl; pending = refl; successes = refl }) refl

module _ (config : HealthConfig) where
  pub prune-IsSound :
      (now : ℕ) (c : Circuit) → IsSound config c → IsSound config (prune config now c)
  unfolding prune
  prune-IsSound now c (resting s i o) =
      resting s (record { admitted = i.admitted; pending = i.pending; successes = i.successes }) o
  prune-IsSound now c (cooling s i o) =
      cooling s (record { admitted = i.admitted; pending = i.pending; successes = i.successes }) o
  prune-IsSound now c (probing s e b l o) = probing s e b l o

  pub open_circuit-IsSound : (now : ℕ) (c : Circuit) → IsSound config (open_circuit now c)
  unfolding open_circuit
  open_circuit-IsSound now c =
      cooling refl (record { admitted = refl; pending = refl; successes = refl }) refl

  record_failure-IsSound :
      (poisons : Bool) (now : ℕ) (c : Circuit)
      → IsSound config c
      → IsSound config (record_failure poisons now c)
  unfolding record_failure
  record_failure-IsSound true now c (resting s i o) =
      resting s (record { admitted = i.admitted; pending = i.pending; successes = i.successes }) o
  record_failure-IsSound true now c (cooling s i o) =
      cooling s (record { admitted = i.admitted; pending = i.pending; successes = i.successes }) o
  record_failure-IsSound true now c (probing s e b l o) = probing s e b l o
  record_failure-IsSound false now c s = s

  close_circuit-IsSound : (c : Circuit) → IsSound config (close_circuit c)
  unfolding close_circuit
  close_circuit-IsSound c =
      resting refl (record { admitted = refl; pending = refl; successes = refl }) refl

  IsSound-if :
      (b : Bool) (x y : Circuit)
      → (b ≡ true → IsSound config x)
      → (b ≡ false → IsSound config y)
      → IsSound config (if b then x else y)
  IsSound-if true x y f g = f refl
  IsSound-if false x y f g = g refl

  -- A probe's success uses up a pending one.
  count_success-IsSound :
      (c : Circuit)
      → IsSound config c
      → is_probe_result c ≡ true
      → IsSound config (count_success config (take_pending c))
  unfolding count_success take_pending is_probe_result
  count_success-IsSound c (resting s i o) p = absurd (ground arith)
  count_success-IsSound c (cooling s i o) p = absurd (ground arith)
  count_success-IsSound c (probing s e b l o) p =
      IsSound-if (leb config.recovery_success_threshold (suc c.recovery_successes)) _ _
        (λ q. close_circuit-IsSound _) (λ q. probing s (ground arith) b (ground arith) o)

  note_failure-IsSound :
      (poisons : Bool) (now : ℕ) (c : Circuit)
      → IsSound config c
      → IsSound config (note_failure config poisons now c)
  unfolding note_failure
  note_failure-IsSound poisons now c s =
      IsSound-if (trips config poisons (record_failure poisons now c)) _ _
        (λ q. open_circuit-IsSound now _) (λ q. record_failure-IsSound poisons now c s)

  take_evidence-IsSound :
      (poisons : Bool) (now : ℕ) (e : Evidence) (c : Circuit)
      → IsSound config c
      → IsSound config (take_evidence config poisons now e c)
  unfolding take_evidence
  take_evidence-IsSound poisons now e c s =
      IsSound-if (is_probe_result c) _ _
        (λ p.
          IsSound-if e.success _ _ (λ q. count_success-IsSound c s p)
            (λ q. open_circuit-IsSound now _))
        (λ p. IsSound-if (is_failure e) _ _ (λ q. note_failure-IsSound poisons now c s) (λ q. s))

  pub observe_circuit-IsSound :
      (component : String) (now : ℕ) (e : Evidence) (c : Circuit)
      → IsSound config c
      → IsSound config (observe_circuit config component now e c)
  unfolding observe_circuit
  observe_circuit-IsSound component now e c s =
      take_evidence-IsSound _ now e _ (prune-IsSound now c s)

  admit_next-IsSound :
      (c : Circuit)
      → IsSound config c
      → c.state ≡ CircuitState.half_open
      → IsSound config (admit_next config c).1
  unfolding admit_next
  admit_next-IsSound c (resting s i o) h = absurd (ground arith)
  admit_next-IsSound c (cooling s i o) h = absurd (ground arith)
  admit_next-IsSound c (probing s e b l o) h =
      elim (Bool-cases (leb config.half_open_max_probes c.admitted_probes)) [
        | inl q ↦ rw q (probing s e b l o)
        | inr q ↦ rw q (probing s (ground arith) (ground arith) l o)
      ]

  half_opened-IsSound :
      ConfigIsValid config
      → (c : Circuit) → IsSound config c
      → c.state ≡ CircuitState.opened
      → IsSound config (half_opened c)
  unfolding half_opened
  half_opened-IsSound valid c (resting s i o) h = absurd (ground arith)
  half_opened-IsSound valid c (cooling s i o) h = probing refl refl (ground arith) valid.recovery o
  half_opened-IsSound valid c (probing s e b l o) h = absurd (ground arith)

  admit_in-IsSound :
      ConfigIsValid config
      → (k : CircuitState) (now : ℕ) (c : Circuit) → c.state ≡ k
      → IsSound config c
      → IsSound config (admit_in k config now c).1
  unfolding admit_in half_opened
  admit_in-IsSound valid CircuitState.closed now c h s = s
  admit_in-IsSound valid CircuitState.opened now c h s =
      elim (Bool-cases (is_cooled config now c)) [
        | inl q ↦ rw q (admit_next-IsSound (half_opened c) (half_opened-IsSound valid c s h) refl)
        | inr q ↦ rw q s
      ]
  admit_in-IsSound valid CircuitState.half_open now c h s = admit_next-IsSound c s h

  pub admit_circuit-IsSound :
      ConfigIsValid config
      → (now : ℕ) (c : Circuit) → IsSound config c
      → IsSound config (admit_circuit config now c).1
  unfolding admit_circuit admit_pruned
  admit_circuit-IsSound valid now c s = admit_in-IsSound valid _ now _ refl (prune-IsSound now c s)
