-- ===== src/Contracts/Enums.antt =====
-- The vocabularies of src/model_router/core/contracts.py.
use openai_model_router.Prelude.{ℕ, Eq, ◌≡◌, ◌↔◌, arith, Bool, nat_beq}

pub data FailureType : Type 0 where
  quality_failure validation_failure tool_failure timeout rate_limit provider_failure : FailureType
  malformed_output budget_failure capability_failure unknown_failure : FailureType

pub data Effort : Type 0 where
  none low medium high xhigh max : Effort

pub data ValidationLevel : Type 0 where
  v0 v1 v2 v3 : ValidationLevel

pub data Consequence : Type 0 where
  low moderate high critical : Consequence

pub data HealthState : Type 0 where
  healthy degraded unhealthy : HealthState

pub data AccountAccess : Type 0 where
  verified unknown unavailable : AccountAccess

pub data Period : Type 0 where
  day calendar_month : Period

-- Where a candidate comes from.
pub data Source : Type 0 where
  prior modifier floor fallback : Source

pub data Strength : Type 0 where
  hard preferred : Strength

pub data CostStatus : Type 0 where
  known partial unavailable : CostStatus

-- Positions in the declarations above; `==` compares them.
abbrev pub failure_index : FailureType → ℕ
failure_index quality_failure = 0
failure_index validation_failure = 1
failure_index tool_failure = 2
failure_index timeout = 3
failure_index rate_limit = 4
failure_index provider_failure = 5
failure_index malformed_output = 6
failure_index budget_failure = 7
failure_index capability_failure = 8
failure_index unknown_failure = 9

abbrev pub effort_index : Effort → ℕ
effort_index Effort.none = 0
effort_index Effort.low = 1
effort_index Effort.medium = 2
effort_index Effort.high = 3
effort_index Effort.xhigh = 4
effort_index Effort.max = 5

abbrev pub level_index : ValidationLevel → ℕ
level_index v0 = 0
level_index v1 = 1
level_index v2 = 2
level_index v3 = 3

abbrev pub health_index : HealthState → ℕ
health_index healthy = 0
health_index degraded = 1
health_index unhealthy = 2

abbrev pub access_index : AccountAccess → ℕ
access_index AccountAccess.verified = 0
access_index AccountAccess.unknown = 1
access_index AccountAccess.unavailable = 2

abbrev pub period_index : Period → ℕ
period_index day = 0
period_index calendar_month = 1

abbrev pub source_index : Source → ℕ
source_index prior = 0
source_index modifier = 1
source_index floor = 2
source_index fallback = 3

pub failure_iff :
    (a b : FailureType) → (nat_beq (failure_index a) (failure_index b) ≡ Bool.true) ↔ (a ≡ b)
failure_iff a b = ground arith

pub effort_iff : (a b : Effort) → (nat_beq (effort_index a) (effort_index b) ≡ Bool.true) ↔ (a ≡ b)
effort_iff a b = ground arith

pub level_iff :
    (a b : ValidationLevel) → (nat_beq (level_index a) (level_index b) ≡ Bool.true) ↔ (a ≡ b)
level_iff a b = ground arith

pub health_iff :
    (a b : HealthState) → (nat_beq (health_index a) (health_index b) ≡ Bool.true) ↔ (a ≡ b)
health_iff a b = ground arith

pub access_iff :
    (a b : AccountAccess) → (nat_beq (access_index a) (access_index b) ≡ Bool.true) ↔ (a ≡ b)
access_iff a b = ground arith

pub period_iff : (a b : Period) → (nat_beq (period_index a) (period_index b) ≡ Bool.true) ↔ (a ≡ b)
period_iff a b = ground arith

pub source_iff : (a b : Source) → (nat_beq (source_index a) (source_index b) ≡ Bool.true) ↔ (a ≡ b)
source_iff a b = ground arith

instance abbrev pub failure_eq : Eq FailureType
failure_eq = record {
  same = λ a b. nat_beq (failure_index a) (failure_index b);
  same_iff = failure_iff;
}

instance abbrev pub effort_eq : Eq Effort
effort_eq = record {
  same = λ a b. nat_beq (effort_index a) (effort_index b);
  same_iff = effort_iff;
}

instance abbrev pub level_eq : Eq ValidationLevel
level_eq = record { same = λ a b. nat_beq (level_index a) (level_index b); same_iff = level_iff }

instance abbrev pub health_eq : Eq HealthState
health_eq = record {
  same = λ a b. nat_beq (health_index a) (health_index b);
  same_iff = health_iff;
}

instance abbrev pub access_eq : Eq AccountAccess
access_eq = record {
  same = λ a b. nat_beq (access_index a) (access_index b);
  same_iff = access_iff;
}

instance abbrev pub period_eq : Eq Period
period_eq = record {
  same = λ a b. nat_beq (period_index a) (period_index b);
  same_iff = period_iff;
}

instance abbrev pub source_eq : Eq Source
source_eq = record {
  same = λ a b. nat_beq (source_index a) (source_index b);
  same_iff = source_iff;
}
