-- ===== src/Storage/Budget.antt =====
-- `SQLBudgetAuthority` of src/model_router/storage/budget.py over the three budget tables of
-- src/model_router/storage/models.py. An operation is one transaction: where it raises, the tables
-- stay. Amounts are numbers of the smallest decimal place; the tables keep them as normalized text.
pub mod Sums
pub mod Solvent
pub mod Traces
pub mod Agrees
pub mod Refines
use openai_model_router.Prelude.{
  ℕ, ◌+◌, ◌-◌, min, String, Option, none, some, List, [], ◌∷◌, Bool, true, false, ◌&&◌, ◌||◌, not,
  ◌==◌, Eq, string_eq, nat_eq, ltb, map, sum, select, Dict, lookup, Table, find, put, if◌then◌else◌,
  arith, ◌≡◌, ◌↔◌, eq_iff, Raise, ok, raise, ◌>>=◌, ◌>>◌, raise_if, or_raise, value_error,
  key_error, conflict_error, unavailable_error,
}
use openai_model_router.Execution.{Price, absent, malformed, exact, amount}
use openai_model_router.Execution.Funds.{Reservation, debit, new_row}

-- The keys of the tables.
pub record Account : Type 0 where
  pub application_id : String
  pub allocation_id : String

pub record TaskKey : Type 0 where
  pub account : Account
  pub task_id : String

pub record ActionKey : Type 0 where
  pub task : TaskKey
  pub action_id : String

abbrev pub account_same : Account → Account → Bool
account_same a b = a.application_id == b.application_id && a.allocation_id == b.allocation_id

abbrev pub task_same : TaskKey → TaskKey → Bool
task_same a b = account_same a.account b.account && a.task_id == b.task_id

abbrev pub action_same : ActionKey → ActionKey → Bool
action_same a b = task_same a.task b.task && a.action_id == b.action_id

pub account_iff : (a b : Account) → (account_same a b ≡ true) ↔ (a ≡ b)
account_iff a b =
    ground (arith, eq_iff a.application_id b.application_id, eq_iff a.allocation_id b.allocation_id)

pub task_iff : (a b : TaskKey) → (task_same a b ≡ true) ↔ (a ≡ b)
task_iff a b = ground (arith, account_iff a.account b.account, eq_iff a.task_id b.task_id)

pub action_iff : (a b : ActionKey) → (action_same a b ≡ true) ↔ (a ≡ b)
action_iff a b = ground (arith, task_iff a.task b.task, eq_iff a.action_id b.action_id)

instance abbrev pub account_eq : Eq Account
account_eq = record { same = account_same; same_iff = account_iff }

instance abbrev pub task_eq : Eq TaskKey
task_eq = record { same = task_same; same_iff = task_iff }

instance abbrev pub action_eq : Eq ActionKey
action_eq = record { same = action_same; same_iff = action_iff }

-- `BudgetAllocationRow`
pub record Allocation : Type 0 where
  pub application_ceiling : ℕ
  pub task_ceiling : ℕ

-- The budget tables, and the application of each stored task. A row of `budget_tasks` is the
-- ceiling that it pins.
pub record Database : Type 0 where
  pub allocations : Table Account Allocation
  pub tasks : Table TaskKey ℕ
  pub reservations : Table ActionKey Reservation
  pub owners : Dict String

-- The attributes of an authority.
pub record SqlAuthority : Type 0 where
  pub account : Account
  pub application_ceiling : ℕ
  pub task_ceiling : ℕ

-- `_ensure_allocation`
unfoldable pub ensure_found : SqlAuthority → Option Allocation → Database → Raise Database
ensure_found self none db = ok (record db {
  allocations =
      put self.account
        (record {
          application_ceiling = self.application_ceiling;
          task_ceiling = self.task_ceiling;
        })
        db.allocations;
})
ensure_found self (some row) db =
    raise_if
      (not (
        row.application_ceiling == self.application_ceiling
        && row.task_ceiling == self.task_ceiling))
      (value_error "budget allocation is immutable")
    >> ok db

unfoldable pub ensure_allocation : SqlAuthority → Database → Raise Database
ensure_allocation self db = ensure_found self (find self.account db.allocations) db

-- `__init__`
unfoldable pub open_authority :
    String → String → Price → Price → Database → Raise (SqlAuthority × Database)
open_authority application allocation application_price task_price db = do
  raise_if (application == "" || allocation == "")
      (value_error "application_id and allocation_id are required")
  application_ceiling ←
      or_raise (value_error "budget ceilings must be finite nonnegative decimal values")
        (amount application_price)
  task_ceiling ←
      or_raise (value_error "budget ceilings must be finite nonnegative decimal values")
        (amount task_price)
  raise_if (ltb application_ceiling task_ceiling)
      (value_error "task ceiling cannot exceed application ceiling")
  let self : SqlAuthority = record {
    account = record { application_id = application; allocation_id = allocation };
    application_ceiling = application_ceiling;
    task_ceiling = task_ceiling;
  } in
      ensure_allocation self db >>= (λ db'. ok (self, db'))

-- `_locked_allocation`
unfoldable pub locked_allocation : SqlAuthority → Database → Raise Allocation
locked_allocation self db =
    or_raise (unavailable_error "budget allocation unavailable") (find self.account db.allocations)

-- `_verify_task_owner`
unfoldable pub is_foreign : SqlAuthority → Option String → Bool
is_foreign self none = false
is_foreign self (some scope) = not (scope == self.account.application_id)

unfoldable pub verify_task_owner : SqlAuthority → String → Database → Raise (Unit {0})
verify_task_owner self task db =
    raise_if (is_foreign self (lookup task db.owners))
      (conflict_error "task belongs to another application scope")

-- The debits of the rows of an allocation, and of one of its tasks.
unfoldable pub in_account : Account → ActionKey → Bool
in_account account key = key.task.account == account

unfoldable pub in_task : TaskKey → ActionKey → Bool
in_task task key = key.task == task

unfoldable pub total_debit : (ActionKey → Bool) → Table ActionKey Reservation → ℕ
total_debit p rows = sum (map (λ row. debit row.1) (select (λ row. p row.0) rows))

abbrev pub task_key : SqlAuthority → String → TaskKey
task_key self task = record { account = self.account; task_id = task }

abbrev pub action_key : SqlAuthority → String → String → ActionKey
action_key self task action = record { task = task_key self task; action_id = action }

-- `remaining`
unfoldable pub remaining : SqlAuthority → String → Database → Raise ℕ
remaining self task db = if task == "" then ok 0 else (do
  allocation ← locked_allocation self db
  verify_task_owner self task db
  ok (
      min (allocation.application_ceiling - total_debit (in_account self.account) db.reservations)
        (allocation.task_ceiling - total_debit (in_task (task_key self task)) db.reservations)))

-- The row of `budget_tasks`, which a task's first reservation sets up.
unfoldable pub pin_task :
    SqlAuthority → String → Allocation → Option ℕ → Database → Raise (ℕ × Database)
pin_task self task allocation none db = ok (
  allocation.task_ceiling,
  record db { tasks = put (task_key self task) allocation.task_ceiling db.tasks },
)
pin_task self task allocation (some ceiling) db =
    raise_if (not (ceiling == allocation.task_ceiling)) (value_error "task budget is immutable")
    >> ok (ceiling, db)

-- The two ceilings, and the new row where the amount fits both.
unfoldable pub reserve_new :
    SqlAuthority → String → String → ℕ → Allocation → ℕ × Database → Bool × Database
reserve_new self task action n allocation (ceiling, db) =
    if ltb allocation.application_ceiling
        (total_debit (in_account self.account) db.reservations + n)
      || ltb ceiling (total_debit (in_task (task_key self task)) db.reservations + n)
    then (false, db)
    else (
      true,
      record db { reservations = put (action_key self task action) (new_row n) db.reservations },
    )

unfoldable pub reserve_found :
    SqlAuthority
    → String
    → String
    → ℕ
    → Allocation
    → Option Reservation
    → Database
    → Raise (Bool × Database)
reserve_found self task action n allocation (some row) db = ok (row.reserved == n, db)
reserve_found self task action n allocation none db =
    pin_task self task allocation (find (task_key self task) db.tasks) db
    >>= (λ pinned. ok (reserve_new self task action n allocation pinned))

unfoldable pub reserve_amount :
    SqlAuthority → String → String → ℕ → Database → Raise (Bool × Database)
reserve_amount self task action n db = do
  allocation ← locked_allocation self db
  verify_task_owner self task db
  reserve_found self task action n allocation (find (action_key self task action) db.reservations)
      db

-- `reserve`
unfoldable pub reserve : SqlAuthority → String → String → Price → Database → Raise (Bool × Database)
reserve self task action price db = elim (amount price) [
  | none ↦ ok (false, db)
  | some n ↦
      if task == "" || action == "" then ok (false, db) else reserve_amount self task action n db
]

-- `settle` for the row that it finds
unfoldable pub settle_found : ActionKey → ℕ → Reservation → Database → Raise Database
settle_found key n row db =
    if row.settled
    then raise_if (not (elim row.actual [ none ↦ false | some paid ↦ paid == n ]))
        (value_error "action is already settled with a different amount")
      >> ok db
    else ok (record db {
      reservations = put key (record row { actual = some n; settled = true }) db.reservations;
    })

unfoldable pub settle_amount : SqlAuthority → String → String → ℕ → Database → Raise Database
settle_amount self task action n db = do
  _ ← locked_allocation self db
  verify_task_owner self task db
  row ←
      or_raise (key_error "cannot settle an action without a reservation")
        (find (action_key self task action) db.reservations)
  settle_found (action_key self task action) n row db

-- `settle`
unfoldable pub settle : SqlAuthority → String → String → Price → Database → Raise Database
settle self task action absent db = ok db
settle self task action malformed db =
    raise (value_error "actual cost must be finite and nonnegative")
settle self task action (exact n) db = settle_amount self task action n db
