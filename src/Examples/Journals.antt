-- ===== src/Examples/Journals.antt =====
-- The theorems about the calibration journal at a run that is reserved and settled.
use openai_model_router.Prelude.{
  ◌+◌, Raise, ◌≤◌, ◌≡◌, refl, some, List, [], ◌∷◌, true, ok, sum, select, lookup, insert, any, all,
}
use openai_model_router.Calibration.Journal.{
  RunStatus, State, CalibrationAllocation, is_changed, changed, is_mismatched, check_entry,
  check_changed, validate_transition, check_history, last_state, is_own, first_state, open_ledger,
  new_run, final_run, with_run, charge, charged, remaining, is_uncertain, has_uncertain,
  check_reserve, reserve, open_run, settle,
}
use openai_model_router.Calibration.Journal.Replays.{blank, reserved, settled, Written-opens}
use openai_model_router.Calibration.Journal.Bounded.{due, overrun, Written-charged}

abbrev allocation : CalibrationAllocation
allocation = record { allocation_id = "pilot"; ceiling = 100; is_safe = λ id. true }

abbrev after_reserve : List State
after_reserve = first_state allocation ∷ with_run "r1" (new_run 60) (first_state allocation) ∷ []

abbrev after_settle : List State
after_settle =
    first_state allocation
    ∷ with_run "r1" (new_run 60) (first_state allocation)
    ∷ with_run "r1" (record { reserved = 60; actual = some 45; status = RunStatus.settled })
        (with_run "r1" (new_run 60) (first_state allocation))
    ∷ []

written :
    (reserve allocation "r1" 60 [] ≡ ok after_reserve)
    × (settle allocation "r1" (some 45) after_reserve ≡ ok (after_settle, ok tt))
unfolding sum select lookup insert any all is_changed changed is_mismatched check_entry
    check_changed validate_transition check_history last_state is_own open_ledger charge charged
    remaining is_uncertain has_uncertain check_reserve reserve open_run settle
written = (refl, refl)

Written-opens_example :
    (ledger : State × List State) × (open_ledger allocation after_settle ≡ ok ledger)
Written-opens_example =
    Written-opens allocation after_settle
      (settled "r1" (some 45) {raised = ok tt} (reserved "r1" 60 blank written.0) written.1)

-- A run that costs more than its reservation of the whole ceiling.
abbrev held : List State
held = first_state allocation ∷ with_run "r1" (new_run 100) (first_state allocation) ∷ []

abbrev overrunning : List State
overrunning =
    first_state allocation
    ∷ with_run "r1" (new_run 100) (first_state allocation)
    ∷ with_run "r1" (final_run (new_run 100) (some 130))
        (with_run "r1" (new_run 100) (first_state allocation))
    ∷ []

overrun_written :
    (reserve allocation "r1" 100 [] ≡ ok held)
    × ((raised : Raise (Unit {0})) × (settle allocation "r1" (some 130) held
          ≡ ok (overrunning, raised)))
unfolding sum select lookup insert any all is_changed changed is_mismatched check_entry
    check_changed validate_transition check_history last_state is_own open_ledger charge charged
    remaining is_uncertain has_uncertain check_reserve reserve open_run settle
overrun_written = (refl, (_, refl))

opens : (ledger : State × List State) × (open_ledger allocation overrunning ≡ ok ledger)
unfolding sum select lookup insert any all is_changed changed is_mismatched check_entry
    check_changed validate_transition check_history last_state is_own open_ledger
opens = (_, refl)

Written-charged_example :
    (charged opens.0.0 ≡ due opens.0.0) × (due opens.0.0 ≤ 100 + overrun opens.0.0)
Written-charged_example =
    Written-charged allocation overrunning opens.0
      (settled "r1" (some 130) {raised = overrun_written.1.0}
        (reserved "r1" 100 blank overrun_written.0) overrun_written.1.1)
      opens.1
