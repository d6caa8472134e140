-- ===== src/Examples/Passing.antt =====
-- The theorems about task statuses at concrete histories.
use openai_model_router.Prelude.{
  ok, ℕ, ◌≡◌, ◌≢◌, ◌↔◌, some, none, here, nat_eq, refl, List, [], ◌∷◌, any, contains,
}
use openai_model_router.Execution.Lifecycle.{
  TaskStatus, Task, transition, is_terminal, permitted_next, next_of, status_eq,
}
use openai_model_router.Execution.Lifecycle.Attempts.{
  AttemptStatus, Attempt, finish_attempt, Finishes, finish_attempt-Finishes,
}
use openai_model_router.Execution.Lifecycle.Histories.{
  History, begun, moved, Passed, History-Passed, History-final,
}

abbrev task_at : TaskStatus → ℕ → Task ℕ
task_at status now = record { status = status; updated_at = now; fields = 7 }

abbrev passed : List TaskStatus
passed =
    TaskStatus.succeeded ∷ TaskStatus.validating ∷ TaskStatus.running ∷ TaskStatus.admitted
    ∷ TaskStatus.routed ∷ TaskStatus.classified ∷ TaskStatus.created ∷ []

history : History (task_at TaskStatus.created 1) passed (task_at TaskStatus.succeeded 7)
unfolding transition is_terminal permitted_next next_of contains any
history =
    moved {t = task_at TaskStatus.validating 6} TaskStatus.succeeded 7 (λ x. x)
      (moved {t = task_at TaskStatus.running 5} TaskStatus.validating 6 (λ x. x)
        (moved {t = task_at TaskStatus.admitted 4} TaskStatus.running 5 (λ x. x)
          (moved {t = task_at TaskStatus.routed 3} TaskStatus.admitted 4 (λ x. x)
            (moved {t = task_at TaskStatus.classified 2} TaskStatus.routed 3 (λ x. x)
              (moved {t = task_at TaskStatus.created 1} TaskStatus.classified 2 (λ x. x) begun refl)
              refl)
            refl)
          refl)
        refl)
      refl

History-Passed_example : Passed passed TaskStatus.succeeded
History-Passed_example =
    History-Passed (task_at TaskStatus.created 1) passed (task_at TaskStatus.succeeded 7) refl
      history

-- The last task has succeeded, and stays so.
History-final_example :
    (TaskStatus.succeeded ≡ TaskStatus.succeeded)
    × ((u : Task ℕ) (status : TaskStatus) (now : ℕ) (changes : ℕ → ℕ)
        → transition (task_at TaskStatus.succeeded 7) status now changes ≢ ok u)
History-final_example =
    History-final (task_at TaskStatus.created 1) (task_at TaskStatus.succeeded 7) passed
      TaskStatus.succeeded history (here refl) (here refl)

abbrev attempt : Attempt ℕ ℕ
attempt = record {
  status = AttemptStatus.started;
  admission = 3;
  started_at = 4;
  completed_at = none;
  outcome = 0;
}

abbrev completed : Attempt ℕ ℕ
completed = record attempt { status = AttemptStatus.failed; completed_at = some 6; outcome = 1 }

finish_attempt-Finishes_example :
    (finish_attempt attempt completed ≡ ok completed)
    ↔ ((completed ≡ completed) × Finishes attempt completed)
finish_attempt-Finishes_example = finish_attempt-Finishes attempt completed completed
