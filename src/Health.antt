-- ===== src/Health.antt =====
-- src/model_router/health/service.py and the health records of
-- src/model_router/core/phase4_contracts.py. Times are milliseconds from a fixed origin.
pub mod Circuits
pub mod Service
pub mod Readiness
pub mod Projection
pub mod Probes
use Prim.Native.String.{compare, then}
use Prim.Native.Nat.{Ordering}
use openai_model_router.Prelude.{
  ℕ, ◌<◌, ◌≤◌, ◌≡◌, ◌↔◌, arith, String, Option, none, some, List, Bool, true, false, ◌&&◌, ◌==◌, Eq,
  nat_beq, string_eq, option_eq, option_same_iff, eq_iff,
}
use openai_model_router.Contracts.{FailureType, HealthState}

pub data CircuitState : Type 0 where
  closed opened half_open : CircuitState

pub data CheckStatus : Type 0 where
  observed missing stale disabled : CheckStatus

abbrev pub circuit_index : CircuitState → ℕ
circuit_index closed = 0
circuit_index opened = 1
circuit_index half_open = 2

abbrev pub check_index : CheckStatus → ℕ
check_index observed = 0
check_index missing = 1
check_index stale = 2
check_index disabled = 3

pub circuit_iff :
    (a b : CircuitState) → (nat_beq (circuit_index a) (circuit_index b) ≡ true) ↔ (a ≡ b)
circuit_iff a b = ground arith

pub check_iff : (a b : CheckStatus) → (nat_beq (check_index a) (check_index b) ≡ true) ↔ (a ≡ b)
check_iff a b = ground arith

instance abbrev pub circuit_eq : Eq CircuitState
circuit_eq = record {
  same = λ a b. nat_beq (circuit_index a) (circuit_index b);
  same_iff = circuit_iff;
}

instance abbrev pub check_eq : Eq CheckStatus
check_eq = record { same = λ a b. nat_beq (check_index a) (check_index b); same_iff = check_iff }

-- The key of the service's tables: a component, a model of it and a capability.
pub record Scope : Type 0 where
  pub component : String
  pub model : Option String
  pub capability : Option String

abbrev pub scope_same : Scope → Scope → Bool
scope_same a b = a.component == b.component && (a.model == b.model && a.capability == b.capability)

pub scope_iff : (a b : Scope) → (scope_same a b ≡ true) ↔ (a ≡ b)
scope_iff a b = ground (
  arith,
  eq_iff a.component b.component,
  option_same_iff a.model b.model,
  option_same_iff a.capability b.capability,
)

instance abbrev pub scope_eq : Eq Scope
scope_eq = record { same = scope_same; same_iff = scope_iff }

pub record HealthConfig : Type 0 where
  pub version : String
  pub freshness_ms : ℕ
  pub failure_window_ms : ℕ
  pub failure_threshold : ℕ
  pub cooldown_ms : ℕ
  pub half_open_max_probes : ℕ
  pub recovery_success_threshold : ℕ
  pub max_probes_per_run : ℕ
  pub probe_timeout_ms : ℕ
  pub live_probes_enabled : Bool
  pub required_components : List String

-- The fields' `Duration` type and `bounded_recovery`.
pub record ConfigIsValid (c : HealthConfig) : Type 0 where
  pub fresh : 0 < c.freshness_ms
  pub threshold : 0 < c.failure_threshold
  pub recovery : 0 < c.recovery_success_threshold
  pub bounded : c.recovery_success_threshold ≤ c.half_open_max_probes

pub record HealthObservation : Type 0 where
  pub scope : Scope
  pub state : HealthState
  pub observed_at : ℕ
  pub valid_until : ℕ
  pub last_success_at : Option ℕ
  pub required : Bool
  pub check_status : CheckStatus
  pub failure : Option FailureType
  pub failure_count : ℕ
  pub circuit_state : CircuitState
  pub latency_ms : Option ℕ

pub record HealthSnapshot : Type 0 where
  pub snapshot_id : String
  pub config_version : String
  pub observed_at : ℕ
  pub valid_until : ℕ
  pub synthetic : Bool
  pub observations : List HealthObservation
