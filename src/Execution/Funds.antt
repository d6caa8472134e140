-- ===== src/Execution/Funds.antt =====
-- `MemoryBudgetAuthority` of src/model_router/execution/admission.py.
pub mod Balances
pub mod Solvency
pub mod Traces
pub mod Repeats
use openai_model_router.Prelude.{
  ℕ, ◌-◌, String, Option, none, some, List, [], ◌∷◌, Bool, true, false, Dict, lookup, insert,
  values, map, sum, ltb, ◌==◌, not, ◌||◌, if◌then◌else◌, string_eq, nat_eq, value_error, key_error,
  Raise, ok, raise, ◌>>=◌, ◌>>◌, raise_if, or_raise, is_empty,
}
use openai_model_router.Execution.{Price, absent, malformed, exact, amount}

-- `_Reservation`
pub record Reservation : Type 0 where
  pub reserved : ℕ
  pub actual : Option ℕ
  pub settled : Bool

-- `debit`
unfoldable pub debit : Reservation → ℕ
debit row =
    if row.settled then (elim row.actual [ none ↦ row.reserved | some a ↦ a ]) else row.reserved

pub record Authority : Type 0 where
  pub default_ceiling : Option ℕ
  pub balances : Dict ℕ
  pub reservations : Dict (Dict Reservation)

-- `self._reservations.get(task_id, {})`
unfoldable pub rows_of : Authority → String → Dict Reservation
rows_of a task = elim (lookup task a.reservations) [ none ↦ [] | some rows ↦ rows ]

unfoldable pub debited : Dict Reservation → ℕ
debited rows = sum (map debit (values rows))

-- `set_balance`
unfoldable pub set_balance : String → Price → Authority → Raise Authority
set_balance task price a = do
  raise_if (task == "") (value_error "task balance requires a task id and finite amount")
  balance ←
      or_raise (value_error "task balance requires a task id and finite amount") (amount price)
  raise_if (not (is_empty (rows_of a task)))
      (value_error "cannot replace a balance after reservation")
  ok (record a { balances = insert task balance a.balances })

unfoldable pub installed : String → Authority → Option ℕ → Option ℕ → ℕ × Authority
installed task a (some balance) default = (balance, a)
installed task a none (some ceiling) =
    (ceiling, record a { balances = insert task ceiling a.balances })
installed task a none none = (0, a)

-- `_task_balance`, which installs the default ceiling of a new task
unfoldable pub task_balance : String → Authority → ℕ × Authority
task_balance task a = installed task a (lookup task a.balances) a.default_ceiling

-- `remaining`: the balance without the debits, at least zero
unfoldable pub remaining : String → Authority → ℕ × Authority
remaining task a =
    let (balance, a') = task_balance task a in (balance - debited (rows_of a' task), a')

-- The task's rows, which are set up where there are none.
unfoldable pub with_rows : String → Authority → Authority
with_rows task a = record a { reservations = insert task (rows_of a task) a.reservations }

unfoldable pub put_row : String → String → Reservation → Authority → Authority
put_row task action row a = record a {
  reservations = insert task (insert action row (rows_of a task)) a.reservations;
}

unfoldable pub new_row : ℕ → Reservation
new_row reserved = record { reserved = reserved; actual = none; settled = false }

-- `reserve` for a normalized amount
unfoldable pub reserve_amount : String → String → ℕ → Authority → Bool × Authority
reserve_amount task action n a =
    let a' = with_rows task a in
    elim (lookup action (rows_of a' task)) [
      | some row ↦ (row.reserved == n, a')
      | none ↦
          let (left, funded) = remaining task a' in
          if ltb left n then (false, funded) else (true, put_row task action (new_row n) funded)
    ]

unfoldable pub reserve : String → String → Price → Authority → Bool × Authority
reserve task action price a = elim (amount price) [
  | none ↦ (false, a)
  | some n ↦ if task == "" || action == "" then (false, a) else reserve_amount task action n a
]

-- `settle` for a row of the task
unfoldable pub settle_row : String → String → Reservation → Price → Authority → Raise Authority
settle_row task action row absent a = ok a
settle_row task action row malformed a =
    raise (value_error "actual cost must be finite and nonnegative")
settle_row task action row (exact n) a =
    if row.settled
    then raise_if (not (elim row.actual [ none ↦ false | some paid ↦ paid == n ]))
        (value_error "action is already settled with a different amount")
      >> ok a
    else ok (put_row task action (record row { actual = some n; settled = true }) a)

-- `settle`
unfoldable pub settle : String → String → Price → Authority → Raise Authority
settle task action price a = do
  row ←
      or_raise (key_error "cannot settle an action without a reservation")
        (lookup action (rows_of a task))
  settle_row task action row price a
