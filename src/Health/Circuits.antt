-- ===== src/Health/Circuits.antt =====
-- `_Circuit` of src/model_router/health/service.py and what one observation or one
-- admitted probe does to it.
pub mod Sound
pub mod Transitions
pub mod Recovers
pub mod Window
use openai_model_router.Prelude.{
  ℕ, suc, ◌+◌, ◌-◌, String, Option, none, some, List, [], ◌∷◌, ◌++◌, Bool, true, false, ◌&&◌, ◌||◌,
  ◌==◌, string_eq, option_eq, ltb, leb, length, select, is_some, contains, if◌then◌else◌, not,
}
use openai_model_router.Contracts.{FailureType, failure_eq, HealthState, health_eq}
use openai_model_router.Health.{CircuitState, circuit_eq, HealthConfig}

pub record Circuit : Type 0 where
  pub failures : List ℕ
  pub state : CircuitState
  pub opened_at : Option ℕ
  pub admitted_probes : ℕ
  pub pending_probes : ℕ
  pub recovery_successes : ℕ

-- `_Circuit(deque())`
abbrev pub new_circuit : Circuit
new_circuit = record {
  failures = [];
  state = CircuitState.closed;
  opened_at = none;
  admitted_probes = 0;
  pending_probes = 0;
  recovery_successes = 0;
}

-- The keyword arguments of `observe`.
pub record Evidence : Type 0 where
  pub failure : Option FailureType
  pub success : Bool
  pub state : Option HealthState
  pub required : Bool
  pub latency_ms : Option ℕ

abbrev pub infrastructure_failures : List FailureType
infrastructure_failures =
    FailureType.timeout ∷ FailureType.rate_limit ∷ FailureType.provider_failure ∷ []

-- `_poisons_circuit`
unfoldable pub poisons_circuit : String → Option FailureType → Bool
poisons_circuit component none = false
poisons_circuit component (some failure) =
    if component == "tool"
    then contains failure (infrastructure_failures ++ FailureType.tool_failure ∷ [])
    else contains failure infrastructure_failures

-- A stamp before `now - window`.
unfoldable pub is_old : ℕ → ℕ → ℕ → Bool
is_old window now stamp = ltb (stamp + window) now

-- The loop of `_prune`.
unfoldable pub drop_old : ℕ → ℕ → List ℕ → List ℕ
drop_old window now [] = []
drop_old window now (stamp ∷ stamps) =
    let rest = drop_old window now stamps in
    if is_old window now stamp then rest else stamp ∷ stamps

-- `_prune`
unfoldable pub prune : HealthConfig → ℕ → Circuit → Circuit
prune config now c = record c { failures = drop_old config.failure_window_ms now c.failures }

-- `_failure_count`
unfoldable pub failure_count : HealthConfig → Option Circuit → ℕ → ℕ
failure_count config none now = 0
failure_count config (some c) now =
    length (select (λ stamp. not (is_old config.failure_window_ms now stamp)) c.failures)

-- `_open`
unfoldable pub open_circuit : ℕ → Circuit → Circuit
open_circuit now c = record c {
  state = CircuitState.opened;
  opened_at = some now;
  admitted_probes = 0;
  pending_probes = 0;
  recovery_successes = 0;
}

-- `circuit.failures.append(now)` where the failure poisons the circuit
unfoldable pub record_failure : Bool → ℕ → Circuit → Circuit
record_failure poisons now c = if poisons then record c { failures = c.failures ++ now ∷ [] } else c

-- `probe_result`
unfoldable pub is_probe_result : Circuit → Bool
is_probe_result c = c.state == CircuitState.half_open && ltb 0 c.pending_probes

unfoldable pub take_pending : Circuit → Circuit
take_pending c = record c { pending_probes = c.pending_probes - 1 }

unfoldable pub close_circuit : Circuit → Circuit
close_circuit c = record c {
  failures = [];
  state = CircuitState.closed;
  opened_at = none;
  admitted_probes = 0;
  pending_probes = 0;
  recovery_successes = 0;
}

-- A probe that succeeds closes the circuit once enough have.
unfoldable pub count_success : HealthConfig → Circuit → Circuit
count_success config c =
    let counted = record c { recovery_successes = suc c.recovery_successes } in
    if leb config.recovery_success_threshold counted.recovery_successes
    then close_circuit counted
    else counted

unfoldable pub trips : HealthConfig → Bool → Circuit → Bool
trips config poisons c =
    c.state == CircuitState.closed && (poisons && leb config.failure_threshold (length c.failures))

unfoldable pub note_failure : HealthConfig → Bool → ℕ → Circuit → Circuit
note_failure config poisons now c =
    let noted = record_failure poisons now c in
    if trips config poisons noted then open_circuit now noted else noted

unfoldable pub is_failure : Evidence → Bool
is_failure e = is_some e.failure || e.state == some HealthState.unhealthy

-- What `observe` does to a pruned circuit.
unfoldable pub take_evidence : HealthConfig → Bool → ℕ → Evidence → Circuit → Circuit
take_evidence config poisons now e c =
    if is_probe_result c
    then (if e.success
        then count_success config (take_pending c)
        else open_circuit now (record_failure poisons now (take_pending c)))
    else (if is_failure e then note_failure config poisons now c else c)

unfoldable pub observe_circuit : HealthConfig → String → ℕ → Evidence → Circuit → Circuit
observe_circuit config component now e c =
    take_evidence config (poisons_circuit component e.failure) now e (prune config now c)

-- `now >= circuit.opened_at + cooldown`
unfoldable pub is_cooled : HealthConfig → ℕ → Circuit → Bool
is_cooled config now c = elim c.opened_at [
  | none ↦ false
  | some stamp ↦ leb (stamp + config.cooldown_ms) now
]

unfoldable pub half_opened : Circuit → Circuit
half_opened c = record c {
  state = CircuitState.half_open;
  admitted_probes = 0;
  pending_probes = 0;
  recovery_successes = 0;
}

-- One more probe, up to `half_open_max_probes`.
unfoldable pub admit_next : HealthConfig → Circuit → Bool × Circuit
admit_next config c = if leb config.half_open_max_probes c.admitted_probes then (false, c) else (
  true,
  record c { admitted_probes = suc c.admitted_probes; pending_probes = suc c.pending_probes },
)

unfoldable pub admit_in : CircuitState → HealthConfig → ℕ → Circuit → Bool × Circuit
admit_in CircuitState.closed config now c = (true, c)
admit_in CircuitState.opened config now c =
    if is_cooled config now c then admit_next config (half_opened c) else (false, c)
admit_in CircuitState.half_open config now c = admit_next config c

unfoldable pub admit_pruned : HealthConfig → ℕ → Circuit → Bool × Circuit
admit_pruned config now c = admit_in c.state config now c

-- `admit_probe` for the circuit of the scope
unfoldable pub admit_circuit : HealthConfig → ℕ → Circuit → Bool × Circuit
admit_circuit config now c = admit_pruned config now (prune config now c)
