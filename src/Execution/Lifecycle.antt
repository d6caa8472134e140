-- ===== src/Execution/Lifecycle.antt =====
-- `transition` of src/model_router/execution/lifecycle.py.
pub mod Histories
pub mod Attempts
use openai_model_router.Prelude.{
  ℕ, Bool, true, false, List, [], ◌∷◌, ◌++◌, ◌==◌, not, contains, Eq, nat_beq, ◌≡◌, ◌↔◌, arith,
  value_error, Raise, ok, raise, ◌>>=◌, ◌>>◌, raise_if,
}

pub data TaskStatus : Type 0 where
  created classified routed admitted running validating : TaskStatus
  recovering succeeded failed blocked cancelled : TaskStatus

abbrev pub status_index : TaskStatus → ℕ
status_index TaskStatus.created = 0
status_index TaskStatus.classified = 1
status_index TaskStatus.routed = 2
status_index TaskStatus.admitted = 3
status_index TaskStatus.running = 4
status_index TaskStatus.validating = 5
status_index TaskStatus.recovering = 6
status_index TaskStatus.succeeded = 7
status_index TaskStatus.failed = 8
status_index TaskStatus.blocked = 9
status_index TaskStatus.cancelled = 10

pub status_iff : (a b : TaskStatus) → (nat_beq (status_index a) (status_index b) ≡ true) ↔ (a ≡ b)
status_iff a b = ground arith

instance abbrev pub status_eq : Eq TaskStatus
status_eq = record {
  same = λ a b. nat_beq (status_index a) (status_index b);
  same_iff = status_iff;
}

-- `_TERMINAL`
unfoldable pub is_terminal : TaskStatus → Bool
is_terminal status = elim status [
  | TaskStatus.succeeded ↦ true
  | TaskStatus.failed ↦ true
  | TaskStatus.blocked ↦ true
  | TaskStatus.cancelled ↦ true
  | _ ↦ false
]

-- `_NEXT`
unfoldable pub next_of : TaskStatus → List TaskStatus
next_of status = elim status [
  | TaskStatus.created ↦ TaskStatus.classified ∷ []
  | TaskStatus.classified ↦ TaskStatus.routed ∷ []
  | TaskStatus.routed ↦ TaskStatus.admitted ∷ []
  | TaskStatus.admitted ↦ TaskStatus.running ∷ []
  | TaskStatus.running ↦ TaskStatus.validating ∷ TaskStatus.recovering ∷ []
  | TaskStatus.validating ↦ TaskStatus.succeeded ∷ TaskStatus.recovering ∷ []
  | TaskStatus.recovering ↦ TaskStatus.routed ∷ TaskStatus.validating ∷ []
  | _ ↦ []
]

-- `_NEXT.get(status, set()) | (_TERMINAL - {SUCCEEDED})`
unfoldable pub permitted_next : TaskStatus → List TaskStatus
permitted_next status =
    next_of status ++ (TaskStatus.failed ∷ TaskStatus.blocked ∷ TaskStatus.cancelled ∷ [])

-- A task's status and time, with its other fields as one value.
pub record Task (A : Type 0) : Type 0 where
  pub status : TaskStatus
  pub updated_at : ℕ
  pub fields : A

-- `transition`; `changes` updates the other fields.
unfoldable pub transition : {A : Type 0} → Task A → TaskStatus → ℕ → (A → A) → Raise (Task A)
transition task status now changes = do
  raise_if (is_terminal task.status) (value_error "terminal task cannot transition")
  raise_if (not (contains status (permitted_next task.status)))
      (value_error "invalid task transition")
  ok (record { status = status; updated_at = now; fields = changes task.fields })
