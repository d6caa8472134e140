-- ===== src/Execution/Funds/Traces.antt =====
-- Sequences of operations on one authority.
use openai_model_router.Prelude.{◌≡◌, String, some, lookup, ok, string_eq}
use openai_model_router.Execution.{Price}
use openai_model_router.Execution.Funds.{
  Reservation, Authority, rows_of, set_balance, reserve, settle,
}
use openai_model_router.Execution.Funds.Solvency.{
  IsSolvent, WithinRow, reserve-IsSolvent, settle-IsSolvent, set_balance-IsSolvent,
}

-- One operation that returns. A settlement is for no more than its reservation.
pub data Step (a : Authority) : Authority → Type 0 where
  balance_set :
      (task : String) (price : Price) {b : Authority} → set_balance task price a ≡ ok b → Step a b
  reserved : (task action : String) (price : Price) → Step a (reserve task action price a).1
  settled :
      (task action : String) (price : Price) (row : Reservation) {b : Authority}
      → lookup action (rows_of a task) ≡ some row
      → WithinRow price row
      → settle task action price a ≡ ok b
      → Step a b

pub data Reaches (a : Authority) : Authority → Type 0 where
  start : Reaches a a
  next : {b c : Authority} → Reaches a b → Step b c → Reaches a c

Step-IsSolvent : {a b : Authority} → Step a b → IsSolvent a → IsSolvent b
Step-IsSolvent (balance_set task price h) s = set_balance-IsSolvent task price _ _ h s
Step-IsSolvent (reserved task action price) s = reserve-IsSolvent task action price _ s
Step-IsSolvent (settled task action price row m k h) s =
    settle-IsSolvent task action price row _ _ m k h s

-- Where the debits of each task stay within its balance, they still do after any sequence of
-- `set_balance`, `reserve` and `settle` in which no settlement costs more than its reservation.
pub Reaches-IsSolvent : (a b : Authority) → Reaches a b → IsSolvent a → IsSolvent b
Reaches-IsSolvent a _ start s = s
Reaches-IsSolvent a _ (next r step) s = Step-IsSolvent step (Reaches-IsSolvent a _ r s)
