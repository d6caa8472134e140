-- ===== src/Execution/Admission/Bounds.antt =====
-- What an admitted action satisfies.
use openai_model_router.Prelude.{
  ℕ, ◌≤◌, ◌<◌, ◌≡◌, ◌↔◌, ◌⊎◌, inl, inr, refl, String, Option, none, some, List, Bool, true, false,
  not, contains, contains→In, In→contains, In, Bool-cases, string_eq, arith,
}
use openai_model_router.Execution.{Failure, ExecutionLimits, Counters}
use openai_model_router.Execution.Admission.{
  block_if, generation_actions, quality_actions, infrastructure_actions, recovery_actions,
  known_actions, exhausted, attempt_blocker, cost_blocker, time_blocker,
}

pub block_if-eq-none :
    (b : Bool) (f : Failure) (rest : Option Failure)
    → (block_if b f rest ≡ none) ↔ ((b ≡ false) × (rest ≡ none))
unfolding block_if
block_if-eq-none true f rest = ground arith
block_if-eq-none false f rest = ground arith

-- The action is not one of the actions, or has attempts left.
abbrev pub Allows : String → List String → ℕ → ℕ → Type 0
Allows action actions used allowed = (contains action actions ≡ false) ⊎ (used < allowed)

exhausted-Allows :
    (action : String) (actions : List String) (used allowed : ℕ)
    → (exhausted action actions used allowed ≡ false) ↔ Allows action actions used allowed
unfolding exhausted
exhausted-Allows action actions used allowed = elim (Bool-cases (contains action actions)) [
  | inl e ↦ ground arith
  | inr e ↦ ground arith
]

pub record AttemptsLeft (action : String) (counters : Counters) (limits : ExecutionLimits)
    : Type 0 where
  pub known : In action known_actions
  pub generation :
      Allows action generation_actions counters.generation_attempts
        limits.max_total_generation_attempts
  pub quality :
      Allows action quality_actions counters.quality_escalations limits.max_quality_escalations
  pub infrastructure :
      Allows action infrastructure_actions counters.infrastructure_retries
        limits.max_infrastructure_retries
  pub recovery : Allows action recovery_actions counters.tool_recoveries limits.max_tool_recoveries

pub not-false : (b : Bool) → (not b ≡ false) ↔ (b ≡ true)
not-false true = ground arith
not-false false = ground arith

pub attempt_blocker-none :
    (action : String) (counters : Counters) (limits : ExecutionLimits) (rest : Option Failure)
    → (attempt_blocker action counters limits rest ≡ none)
      ↔ (AttemptsLeft action counters limits × (rest ≡ none))
unfolding attempt_blocker
attempt_blocker-none action counters limits rest = (forward, backward)
  where
    forward :
        attempt_blocker action counters limits rest ≡ none
        → AttemptsLeft action counters limits × (rest ≡ none)
    forward h =
        let (k, h1) = (block_if-eq-none _ _ _).0 h in
        let (g, h2) = (block_if-eq-none _ _ _).0 h1 in
        let (q, h3) = (block_if-eq-none _ _ _).0 h2 in
        let (i, h4) = (block_if-eq-none _ _ _).0 h3 in
        let (r, h5) = (block_if-eq-none _ _ _).0 h4 in
        (
          record {
            known = contains→In action known_actions ((not-false _).0 k);
            generation = (exhausted-Allows _ _ _ _).0 g;
            quality = (exhausted-Allows _ _ _ _).0 q;
            infrastructure = (exhausted-Allows _ _ _ _).0 i;
            recovery = (exhausted-Allows _ _ _ _).0 r;
          },
          h5,
        )

    backward :
        AttemptsLeft action counters limits × (rest ≡ none)
        → attempt_blocker action counters limits rest ≡ none
    backward (a, h) = (block_if-eq-none _ _ _).1 (
      (not-false _).1 (In→contains action known_actions a.known),
      (block_if-eq-none _ _ _).1 (
        (exhausted-Allows _ _ _ _).1 a.generation,
        (block_if-eq-none _ _ _).1 (
          (exhausted-Allows _ _ _ _).1 a.quality,
          (block_if-eq-none _ _ _).1 (
            (exhausted-Allows _ _ _ _).1 a.infrastructure,
            (block_if-eq-none _ _ _).1 ((exhausted-Allows _ _ _ _).1 a.recovery, h),
          ),
        ),
      ),
    )

-- The deadline has not passed and both amounts are known and sufficient.
pub record WithinBounds (limits : ExecutionLimits) (elapsed remaining cost : Option ℕ)
    : Type 0 where
  pub at : ℕ
  pub left : ℕ
  pub price : ℕ
  pub elapsed_eq : elapsed ≡ some at
  pub remaining_eq : remaining ≡ some left
  pub cost_eq : cost ≡ some price
  pub deadline : at < limits.max_elapsed_ms
  pub ceiling : price ≤ limits.task_cost_ceiling_usd
  pub funds : price ≤ left

pub time_blocker-none :
    (limits : ExecutionLimits) (elapsed : Option ℕ) (rest : Option Failure)
    → time_blocker limits elapsed rest ≡ none
    → (at : ℕ) × (elapsed ≡ some at) × (at < limits.max_elapsed_ms) × (rest ≡ none)
unfolding time_blocker block_if
time_blocker-none limits none rest h = absurd (ground arith)
time_blocker-none limits (some at) rest h = (at, refl, ground arith, ground arith)

pub cost_blocker-none :
    (limits : ExecutionLimits) (remaining cost : Option ℕ) (rest : Option Failure)
    → cost_blocker limits remaining cost rest ≡ none
    → (left : ℕ) × (price : ℕ) × (remaining ≡ some left)
      × (cost ≡ some price)
      × (price ≤ limits.task_cost_ceiling_usd)
      × (price ≤ left)
      × (rest ≡ none)
unfolding cost_blocker block_if
cost_blocker-none limits none cost rest h = absurd (ground arith)
cost_blocker-none limits (some left) none rest h = absurd (ground arith)
cost_blocker-none limits (some left) (some price) rest h =
    (left, price, refl, refl, ground arith, ground arith, ground arith)

pub within-none :
    (limits : ExecutionLimits) (elapsed remaining cost : Option ℕ)
    → WithinBounds limits elapsed remaining cost
    → ((rest : Option Failure) → rest ≡ none → time_blocker limits elapsed rest ≡ none)
      × ((rest : Option Failure) → rest ≡ none → cost_blocker limits remaining cost rest ≡ none)
unfolding time_blocker cost_blocker block_if
within-none limits elapsed remaining cost w = (
  λ rest h. rw w.elapsed_eq (ground arith),
  λ rest h. rw w.remaining_eq (rw w.cost_eq (ground arith)),
)
