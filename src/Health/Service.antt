-- ===== src/Health/Service.antt =====
-- `HealthService` of src/model_router/health/service.py: `observe`, `admit_probe`, `snapshot`
-- and `available`. The clock's reading is the argument `now`.
pub mod Machine
pub mod Raises
pub mod Usable
use Prim.Native.String.{compare, then as first_difference}
use Prim.Native.Nat.{Ordering}
use openai_model_router.Prelude.{
  ℕ, ◌+◌, max, min, String, Option, none, some, List, [], ◌∷◌, ◌++◌, map, Bool, true, false, ◌&&◌,
  ◌||◌, not, ◌==◌, string_eq, option_eq, ltb, leb, is_some, contains, select, length, unique,
  sort_by, Table, find, put, if◌then◌else◌, Raise, ok, raise, raise_if, ◌>>◌, value_error,
}
use openai_model_router.Contracts.{FailureType, failure_eq, HealthState, health_eq}
use openai_model_router.Health.{
  CircuitState, circuit_eq, CheckStatus, check_eq, Scope, scope_eq, HealthConfig, HealthObservation,
  HealthSnapshot,
}
use openai_model_router.Health.Circuits.{
  Circuit, new_circuit, Evidence, failure_count, observe_circuit, admit_circuit,
}

pub record HealthService : Type 0 where
  pub config : HealthConfig
  pub observations : Table Scope HealthObservation
  pub circuits : Table Scope Circuit
  pub missing_observed_at : Table Scope ℕ

abbrev pub global_scope : String → Scope
global_scope component = record { component = component; model = none; capability = none }

-- `__init__`
unfoldable pub new_service : ℕ → HealthConfig → HealthService
new_service now config = record {
  config = config;
  observations = [];
  circuits = [];
  missing_observed_at = map (λ component. (global_scope component, now)) config.required_components;
}

unfoldable pub or_now : ℕ → Option ℕ → ℕ
or_now now none = now
or_now now (some stamp) = stamp

-- `_missing`
unfoldable pub missing : HealthService → Scope → ℕ → Bool → HealthObservation
missing s scope now required =
    let observed_at = or_now now (find scope s.missing_observed_at) in
    record {
      scope = scope;
      state = HealthState.unhealthy;
      observed_at = observed_at;
      valid_until = observed_at + s.config.freshness_ms;
      last_success_at = none;
      required = required;
      check_status = CheckStatus.missing;
      failure = none;
      failure_count = 0;
      circuit_state = CircuitState.closed;
      latency_ms = none;
    }

unfoldable pub circuit_state_of : Option Circuit → HealthObservation → CircuitState
circuit_state_of none o = o.circuit_state
circuit_state_of (some c) o = c.state

-- A success after the observation that carries it.
unfoldable pub is_late : ℕ → Option ℕ → Bool
is_late observed_at none = false
is_late observed_at (some stamp) = ltb observed_at stamp

unfoldable pub is_stale : ℕ → HealthObservation → Bool
is_stale now o =
    ltb now o.observed_at || (leb o.valid_until now || is_late o.observed_at o.last_success_at)

unfoldable pub viewed_state : Bool → CircuitState → HealthState → HealthState
viewed_state true circuit state = HealthState.unhealthy
viewed_state false CircuitState.opened state = HealthState.unhealthy
viewed_state false CircuitState.half_open state = HealthState.degraded
viewed_state false CircuitState.closed state = state

-- `_view` of an observation that exists
unfoldable pub view_observed : HealthService → HealthObservation → Scope → ℕ → HealthObservation
view_observed s o scope now =
    let circuit = find scope s.circuits in
    let circuit_state = circuit_state_of circuit o in
    let counted = record o {
      circuit_state = circuit_state;
      failure_count = failure_count s.config circuit now;
    } in
    if o.check_status == CheckStatus.disabled then counted else record counted {
      state = viewed_state (is_stale now o) circuit_state o.state;
      check_status = if is_stale now o then CheckStatus.stale else o.check_status;
    }

-- `_view`
unfoldable pub view :
    HealthService → Option HealthObservation → Scope → ℕ → Bool → HealthObservation
view s none scope now required = missing s scope now required
view s (some o) scope now required = view_observed s o scope now

-- The checks of the arguments of `observe` and `admit_probe`.
unfoldable pub check_names : Scope → Raise (Unit {0})
check_names scope = do
  raise_if (scope.component == "") (value_error "component must be a nonempty string")
  raise_if (scope.model == some "") (value_error "model must be a nonempty string")
  raise_if (scope.capability == some "") (value_error "capability must be a nonempty string")

-- The checks of `observe` on its arguments; their types leave the checks of types and vocabularies
-- nothing to refuse.
unfoldable pub check_call : Scope → Evidence → Raise (Unit {0})
check_call scope e = do
  check_names scope
  raise_if (e.success && is_some e.failure)
      (value_error "success and failure are mutually exclusive")

-- A failure in `_NON_HEALTH_FAILURES`.
unfoldable pub is_task_outcome : Option FailureType → Bool
is_task_outcome none = false
is_task_outcome (some failure) =
    contains failure (FailureType.quality_failure ∷ FailureType.budget_failure ∷ [])

-- `self._circuits.setdefault(key, _Circuit(deque()))`
unfoldable pub circuit_of : HealthService → Scope → Circuit
circuit_of s scope = elim (find scope s.circuits) [ none ↦ new_circuit | some c ↦ c ]

unfoldable pub put_circuit : Scope → Circuit → HealthService → HealthService
put_circuit scope c s = record s { circuits = put scope c s.circuits }

unfoldable pub is_shared_component : String → Bool
is_shared_component component = contains component ("provider" ∷ "evaluator" ∷ "tool" ∷ [])

-- The state that the evidence itself reports.
unfoldable pub reported_state : String → Evidence → Option HealthState
reported_state component e = elim e.state [
  | some state ↦ some state
  | none ↦
      if e.success
      then some HealthState.healthy
      else (if is_some e.failure
          then some (
              if is_shared_component component then HealthState.degraded else HealthState.unhealthy)
          else (if not e.required then some HealthState.degraded else none))
]

-- `derived_state`, or none where `observe` raises
unfoldable pub derived_state : CircuitState → String → Evidence → Option HealthState
derived_state CircuitState.opened component e = some HealthState.unhealthy
derived_state CircuitState.half_open component e = some HealthState.degraded
derived_state CircuitState.closed component e = reported_state component e

unfoldable pub last_success : ℕ → Evidence → Option HealthObservation → Option ℕ
last_success now e previous =
    if e.success then some now else (elim previous [ none ↦ none | some o ↦ o.last_success_at ])

unfoldable pub new_observation :
    HealthService → ℕ → Scope → Evidence → Circuit → HealthState → HealthObservation
new_observation s now scope e c state = record {
  scope = scope;
  state = state;
  observed_at = now;
  valid_until = now + s.config.freshness_ms;
  last_success_at = last_success now e (find scope s.observations);
  required = e.required;
  check_status =
      if not e.required && (not e.success && not (is_some e.state))
      then CheckStatus.disabled
      else CheckStatus.observed;
  failure = e.failure;
  failure_count = length c.failures;
  circuit_state = c.state;
  latency_ms = e.latency_ms;
}

-- The end of `observe`, once the circuit has changed.
unfoldable pub publish :
    ℕ
    → Scope
    → Evidence
    → Circuit
    → Option HealthState
    → HealthService
    → Raise HealthObservation × HealthService
publish now scope e c none s =
    (raise (value_error "an observation requires success, failure, or state"), s)
publish now scope e c (some state) s =
    let o = new_observation s now scope e c state in
    (ok o, record s { observations = put scope o s.observations })

unfoldable pub observe_health :
    ℕ → Scope → Evidence → HealthService → Raise HealthObservation × HealthService
observe_health now scope e s =
    let c = observe_circuit s.config scope.component now e (circuit_of s scope) in
    publish now scope e c (derived_state c.state scope.component e) (put_circuit scope c s)

unfoldable pub observe_checked :
    Raise (Unit {0})
    → ℕ
    → Scope
    → Evidence
    → HealthService
    → Raise HealthObservation × HealthService
observe_checked (raise x) now scope e s = (raise x, s)
observe_checked (ok _) now scope e s =
    if is_task_outcome e.failure
    then (ok (view s (find scope s.observations) scope now e.required), s)
    else observe_health now scope e s

-- `observe`
unfoldable pub observe :
    ℕ → Scope → Evidence → HealthService → Raise HealthObservation × HealthService
observe now scope e s = observe_checked (check_call scope e) now scope e s

unfoldable pub admit_checked :
    Raise (Unit {0}) → ℕ → Scope → HealthService → Raise Bool × HealthService
admit_checked (raise x) now scope s = (raise x, s)
admit_checked (ok _) now scope s =
    let (admitted, c) = admit_circuit s.config now (circuit_of s scope) in
    (ok admitted, put_circuit scope c s)

-- `admit_probe`
unfoldable pub admit_probe : ℕ → Scope → HealthService → Raise Bool × HealthService
admit_probe now scope s = admit_checked (check_names scope) now scope s

-- `_available`
unfoldable pub is_available : HealthObservation → Bool
is_available o =
    o.check_status == CheckStatus.observed
    && (o.circuit_state == CircuitState.closed
        && contains o.state (HealthState.healthy ∷ HealthState.degraded ∷ []))

-- `available`
unfoldable pub available : ℕ → Scope → HealthService → Raise Bool
available now scope s = do
  check_names scope
  ok (elim (find scope s.observations) [
    | none ↦ false
    | some o ↦ is_available (view_observed s o scope now)
  ])

-- Sort keys: component, model and capability, the missing ones as empty texts.
abbrev pub or_empty : Option String → String
or_empty none = ""
or_empty (some name) = name

unfoldable pub scope_le : Scope → Scope → Bool
scope_le a b =
    elim (first_difference (compare a.component b.component) (
      first_difference (compare (or_empty a.model) (or_empty b.model))
        (compare (or_empty a.capability) (or_empty b.capability)))) [
          | Ordering.gt ↦ false
          | _ ↦ true
        ]

unfoldable pub current_scopes : HealthService → List Scope
current_scopes s =
    sort_by scope_le
      (unique (map (λ p. p.0) s.observations ++ map global_scope s.config.required_components))

-- `_current_observations`
unfoldable pub current_observations : ℕ → HealthService → List HealthObservation
current_observations now s =
    map
      (λ scope.
        view s (find scope s.observations) scope now
          (contains scope.component s.config.required_components))
      (current_scopes s)

unfoldable pub largest : ℕ → List ℕ → ℕ
largest first [] = first
largest first (x ∷ xs) = max first (largest x xs)

unfoldable pub smallest : ℕ → List ℕ → ℕ
smallest first [] = first
smallest first (x ∷ xs) = min first (smallest x xs)

-- `max(...)` and `min(...)` with a default for no items
unfoldable pub max_or : ℕ → List ℕ → ℕ
max_or default [] = default
max_or default (x ∷ xs) = largest x xs

unfoldable pub min_or : ℕ → List ℕ → ℕ
min_or default [] = default
min_or default (x ∷ xs) = smallest x xs

unfoldable pub relevant : List HealthObservation → List HealthObservation
relevant observations = select (λ o. not (o.check_status == CheckStatus.disabled)) observations

-- `snapshot`. `identify` is the identifier that the source hashes from the rest of the snapshot.
unfoldable pub snapshot :
    (String → ℕ → ℕ → List HealthObservation → String) → ℕ → HealthService → HealthSnapshot
snapshot identify now s =
    let observations = current_observations now s in
    let observed_at = max_or now (map (λ o. o.observed_at) (relevant observations)) in
    let valid_until = min_or now (map (λ o. o.valid_until) (relevant observations)) in
    record {
      snapshot_id = identify s.config.version observed_at valid_until observations;
      config_version = s.config.version;
      observed_at = observed_at;
      valid_until = valid_until;
      synthetic = not s.config.live_probes_enabled;
      observations = observations;
    }

-- `_validate_snapshot`
unfoldable pub validate_snapshot : HealthConfig → HealthSnapshot → Raise (Unit {0})
validate_snapshot config snapshot =
    raise_if (not (snapshot.config_version == config.version))
      (value_error "health snapshot config version mismatch")
