-- ===== src/Storage/Budget/Traces.antt =====
-- Sequences of operations of any authorities on one database.
use openai_model_router.Prelude.{
  ℕ, ◌≤◌, ◌≡◌, refl, subst, String, some, [], Bool, true, false, Bool-cases, inl, inr, find, put,
  arith, ok, >>=-eq-ok, raise_if-eq-ok, ok-injective, string_eq, nat_eq, or_raise, sum, select,
  Dict,
}
use openai_model_router.Execution.{Price, absent, malformed, exact, amount}
use openai_model_router.Execution.Funds.{Reservation, debit}
use openai_model_router.Storage.Budget.{
  ActionKey, account_eq, task_eq, action_eq, Database, SqlAuthority, ensure_allocation,
  open_authority, locked_allocation, verify_task_owner, in_account, in_task, total_debit,
  action_key, reserve, settle_found, settle_amount, settle,
}
use openai_model_router.Storage.Budget.Sums.{weight, weight-other, total-put_old}
use openai_model_router.Storage.Budget.Solvent.{
  AllSolvent, replaced-AllSolvent, or_raise-eq-ok, ensure_found-AllSolvent, reserve-AllSolvent,
}

paid : ℕ → Reservation → Reservation
paid n row = record row { actual = some n; settled = true }

settled_total :
    (p : ActionKey → Bool) (key : ActionKey) (n : ℕ) (row : Reservation) (db : Database)
    → find key db.reservations ≡ some row
    → row.settled ≡ false
    → n ≤ row.reserved
    → total_debit p (put key (paid n row) db.reservations) ≤ total_debit p db.reservations
unfolding paid weight debit
settled_total p key n row db f open_row h = elim (Bool-cases (p key)) [
  | inl q ↦ omega (arith, total-put_old p key (paid n row) row db.reservations f, less q)
  | inr q ↦ omega (
    arith,
    total-put_old p key (paid n row) row db.reservations f,
    weight-other p key (paid n row) q,
    weight-other p key row q,
  )
]
  where
    less : p key ≡ true → weight p key (paid n row) ≤ weight p key row
    less q = rw q (ground arith)

-- Settling a row for no more than it reserved raises no total.
settle_found-AllSolvent :
    (key : ActionKey) (n : ℕ) (row : Reservation) (db db' : Database)
    → find key db.reservations ≡ some row
    → n ≤ row.reserved
    → settle_found key n row db ≡ ok db'
    → AllSolvent db
    → AllSolvent db'
unfolding settle_found paid
settle_found-AllSolvent key n row db db' f within h s = elim (Bool-cases row.settled) [
  | inl q ↦ subst AllSolvent (ok-injective (raise_if-eq-ok _ _ _ (rw q at h)).1) s
  | inr q ↦ subst AllSolvent (ok-injective (rw q at h)) (
      replaced-AllSolvent key (paid n row) db (λ p _. settled_total p key n row db f q within)
        (λ own.
          least (settled_total (in_account key.task.account) key n row db f q within)
            (s.applications key.task.account))
        (λ own.
          least (settled_total (in_task key.task) key n row db f q within)
            (s.tasks key.task.account key.task.task_id))
        s)
]
  where
    least : {x y z : ℕ} → x ≤ y → y ≤ z → x ≤ z
    least a b = omega arith

-- The price is for no more than the action reserved.
pub CostsWithin : SqlAuthority → String → String → Price → Database → Type 0
CostsWithin self task action price db =
    (row : Reservation) (n : ℕ)
    → find (action_key self task action) db.reservations ≡ some row
    → price ≡ exact n
    → n ≤ row.reserved

settle-AllSolvent :
    (self : SqlAuthority) (task action : String) (price : Price) (db db' : Database)
    → CostsWithin self task action price db
    → settle self task action price db ≡ ok db'
    → AllSolvent db
    → AllSolvent db'
unfolding settle settle_amount CostsWithin verify_task_owner
settle-AllSolvent self task action absent db db' w h s = subst AllSolvent (ok-injective h) s
settle-AllSolvent self task action malformed db db' w h s = cc
settle-AllSolvent self task action (exact n) db db' w h s =
    let (allocation, found, h2) = >>=-eq-ok (locked_allocation self db) _ h in
    let (_, h3) = raise_if-eq-ok _ _ _ h2 in
    let (row, e, h4) =
      >>=-eq-ok (or_raise _ (find (action_key self task action) db.reservations)) _ h3 in
    let place = or_raise-eq-ok _ _ _ e in
    settle_found-AllSolvent (action_key self task action) n row db db' place (w row n place refl) h4
      s

open_authority-AllSolvent :
    (application allocation : String) (application_price task_price : Price) (db : Database)
    (out : SqlAuthority × Database)
    → open_authority application allocation application_price task_price db ≡ ok out
    → AllSolvent db
    → AllSolvent out.1
unfolding open_authority ensure_allocation
open_authority-AllSolvent application allocation application_price task_price db out h s =
    let (_, h2) = raise_if-eq-ok _ _ _ h in
    let (a, ea, h3) = >>=-eq-ok (or_raise _ (amount application_price)) _ h2 in
    let (t, et, h4) = >>=-eq-ok (or_raise _ (amount task_price)) _ h3 in
    let (_, h5) = raise_if-eq-ok _ _ _ h4 in
    let self : SqlAuthority = record {
      account = record { application_id = application; allocation_id = allocation };
      application_ceiling = a;
      task_ceiling = t;
    } in
    let (db', e, h6) = >>=-eq-ok (ensure_allocation self db) _ h5 in
    subst (λ r. AllSolvent r.1) (ok-injective h6)
      (ensure_found-AllSolvent self (find self.account db.allocations) db db' refl e s)

-- One transaction that commits. A settlement costs no more than the action reserved.
pub data Commits (db : Database) : Database → Type 0 where
  opened :
      (application allocation : String) (application_price task_price : Price) {self : SqlAuthority}
      {db' : Database}
      → open_authority application allocation application_price task_price db ≡ ok (self, db')
      → Commits db db'
  reserved :
      (self : SqlAuthority) (task action : String) (price : Price) {granted : Bool} {db' : Database}
      → reserve self task action price db ≡ ok (granted, db')
      → Commits db db'
  settled :
      (self : SqlAuthority) (task action : String) (price : Price) {db' : Database}
      → CostsWithin self task action price db
      → settle self task action price db ≡ ok db'
      → Commits db db'

abbrev pub empty_database : Dict String → Database
empty_database owners = record { allocations = []; tasks = []; reservations = []; owners = owners }

-- The databases that transactions reach from empty budget tables.
pub data Stored (owners : Dict String) : Database → Type 0 where
  created : Stored owners (empty_database owners)
  committed : {db db' : Database} → Stored owners db → Commits db db' → Stored owners db'

-- In every database that transactions of any authorities reach from empty budget tables, where no
-- settlement costs more than its reservation, the debits of each allocation are within its
-- application ceiling and those of each task in it within its task ceiling.
pub Stored-AllSolvent : (owners : Dict String) (db : Database) → Stored owners db → AllSolvent db
unfolding total_debit sum select
Stored-AllSolvent owners _ created = record {
  applications = λ a. omega arith;
  tasks = λ a t. omega arith;
}
Stored-AllSolvent owners _ (committed r (opened a b p q h)) =
    open_authority-AllSolvent a b p q _ _ h (Stored-AllSolvent owners _ r)
Stored-AllSolvent owners _ (committed r (reserved self task action price h)) =
    reserve-AllSolvent self task action price _ _ h (Stored-AllSolvent owners _ r)
Stored-AllSolvent owners _ (committed r (settled self task action price w h)) =
    settle-AllSolvent self task action price _ _ w h (Stored-AllSolvent owners _ r)
