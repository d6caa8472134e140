-- ===== src/Examples/Ledgers.antt =====
-- The theorems about the durable budget authority and the calibration journal.
use openai_model_router.Prelude.{◌≡◌, refl, some, [], ◌∷◌, true, ok, find, put, select, sum, lookup}
use openai_model_router.Execution.{exact, amount}
use openai_model_router.Execution.Funds.{new_row, Authority, rows_of, debited}
use openai_model_router.Execution.Funds.Balances.{fresh_balance}
use openai_model_router.Storage.Budget.{
  Account, Allocation, Database, SqlAuthority, ensure_found, ensure_allocation, open_authority,
  locked_allocation, is_foreign, verify_task_owner, in_account, in_task, total_debit, pin_task,
  reserve_new, reserve_found, reserve_amount, reserve,
}
use openai_model_router.Storage.Budget.Solvent.{AllSolvent}
use openai_model_router.Storage.Budget.Traces.{
  empty_database, Stored, created, committed, opened, reserved, Stored-AllSolvent,
}
use openai_model_router.Storage.Budget.Agrees.{Agrees}
use openai_model_router.Storage.Budget.Refines.{Moves, begun, moved, Refines, Runs-Refines}

abbrev account : Account
account = record { application_id = "app"; allocation_id = "main" }

abbrev self : SqlAuthority
self = record { account = account; application_ceiling = 100; task_ceiling = 40 }

abbrev allocation : Allocation
allocation = record { application_ceiling = 100; task_ceiling = 40 }

abbrev opened_db : Database
opened_db = record (empty_database []) { allocations = (account, allocation) ∷ [] }

abbrev reserved_db : Database
reserved_db = record opened_db {
  tasks = (record { account = account; task_id = "t" }, 40) ∷ [];
  reservations =
      (record { task = record { account = account; task_id = "t" }; action_id = "a" }, new_row 30)
      ∷ [];
}

transactions :
    (open_authority "app" "main" (exact 100) (exact 40) (empty_database []) ≡ ok (self, opened_db))
    × (reserve self "t" "a" (exact 30) opened_db ≡ ok (true, reserved_db))
unfolding find put select sum lookup new_row amount ensure_found ensure_allocation open_authority
    locked_allocation is_foreign verify_task_owner in_account in_task total_debit pin_task
    reserve_new reserve_found reserve_amount reserve
transactions = (refl, refl)

stored : Stored [] reserved_db
stored =
    committed
      (committed created (opened "app" "main" (exact 100) (exact 40) {self = self} transactions.0))
      (reserved self "t" "a" (exact 30) {granted = true} transactions.1)

Stored-AllSolvent_example : AllSolvent reserved_db
Stored-AllSolvent_example = Stored-AllSolvent [] reserved_db stored

abbrev memory : Authority
memory = record { default_ceiling = some 40; balances = []; reservations = [] }

agrees : Agrees self allocation opened_db memory
unfolding find lookup rows_of debited sum total_debit select
agrees = record {
  found = refl;
  rows = λ task action. refl;
  funds = λ task. fresh_balance 40 task;
  debits = λ task. refl;
}

Runs-Refines_example : Refines self allocation memory reserved_db
Runs-Refines_example =
    Runs-Refines self allocation memory opened_db reserved_db agrees
      (moved begun (Moves.reserved "t" "a" (exact 30) {granted = true} transactions.1))
