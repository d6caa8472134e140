-- ===== src/Storage/Budget/Solvent.antt =====
-- The debits of every allocation and of every task in it stay within their ceilings.
use openai_model_router.Prelude.{
  ℕ, ◌+◌, ◌≤◌, ◌≡◌, refl, sym, ap, subst, ◌∙◌, String, Option, none, some, Bool, true, false, ◌||◌,
  not, ◌==◌, beq→eq, beq_self, Bool-cases, inl, inr, Table, find, put, find-put, ltb, if◌then◌else◌,
  arith, ok, >>=-eq-ok, raise_if-eq-ok, ok-injective, string_eq, nat_eq, or_raise, Error,
}
use openai_model_router.Execution.{Price, amount}
use openai_model_router.Execution.Funds.{Reservation, debit, new_row}
use openai_model_router.Storage.Budget.{
  Account, TaskKey, ActionKey, account_eq, task_eq, action_eq, Allocation, Database, SqlAuthority,
  ensure_found, locked_allocation, verify_task_owner, in_account, in_task, total_debit, task_key,
  action_key, pin_task, reserve_new, reserve_found, reserve_amount, reserve,
}
use openai_model_router.Storage.Budget.Sums.{weight-other, weight-own, total-put_new}

-- The ceilings of an account, none without an allocation.
unfoldable pub application_limit : Option Allocation → ℕ
application_limit none = 0
application_limit (some a) = a.application_ceiling

unfoldable pub task_limit : Option Allocation → ℕ
task_limit none = 0
task_limit (some a) = a.task_ceiling

abbrev pub task_of : Account → String → TaskKey
task_of account task = record { account = account; task_id = task }

pub record AllSolvent (db : Database) : Type 0 where
  pub applications :
      (account : Account)
      → total_debit (in_account account) db.reservations
        ≤ application_limit (find account db.allocations)
  pub tasks :
      (account : Account) (task : String)
      → total_debit (in_task (task_of account task)) db.reservations
        ≤ task_limit (find account db.allocations)

-- A new allocation of an account that had none raises its limits from nothing.
pub ensure_found-AllSolvent :
    (self : SqlAuthority) (o : Option Allocation) (db db' : Database)
    → find self.account db.allocations ≡ o
    → ensure_found self o db ≡ ok db'
    → AllSolvent db
    → AllSolvent db'
unfolding ensure_found application_limit task_limit
ensure_found-AllSolvent self none db db' f h s = subst AllSolvent (ok-injective h) (record {
  applications = λ account.
      rw (find-put self.account account _ db.allocations)
        (elim (Bool-cases (self.account == account)) [
          | inl q ↦ rw q (bounded (at account q application_limit _ (s.applications account)))
          | inr q ↦ rw q (s.applications account)
        ]);
  tasks = λ account task.
      rw (find-put self.account account _ db.allocations)
        (elim (Bool-cases (self.account == account)) [
          | inl q ↦ rw q (bounded (at account q task_limit _ (s.tasks account task)))
          | inr q ↦ rw q (s.tasks account task)
        ]);
})
  where
    bounded : {x y : ℕ} → x ≤ 0 → x ≤ y
    bounded h = omega arith

    at :
        (account : Account)
        → (self.account == account) ≡ true
        → (limit : Option Allocation → ℕ) → (x : ℕ) → x ≤ limit (find account db.allocations)
        → x ≤ limit none
    at account q limit x h =
        subst (λ o. x ≤ limit o)
          (ap (λ a. find a db.allocations) (sym (beq→eq self.account account q)) ∙ f) h
ensure_found-AllSolvent self (some row) db db' f h s =
    subst AllSolvent (ok-injective (raise_if-eq-ok _ _ _ h).1) s

-- What a changed row leaves of the totals: those that do not select it stay, and the others are
-- bounded by what is given.
pub replaced-AllSolvent :
    (key : ActionKey) (row : Reservation) (db : Database)
    → ((p : ActionKey → Bool)
        → p key ≡ false
        → total_debit p (put key row db.reservations) ≤ total_debit p db.reservations)
    → (in_account key.task.account key ≡ true
        → total_debit (in_account key.task.account) (put key row db.reservations)
          ≤ application_limit (find key.task.account db.allocations))
    → (in_task key.task key ≡ true
        → total_debit (in_task key.task) (put key row db.reservations)
          ≤ task_limit (find key.task.account db.allocations))
    → AllSolvent db
    → AllSolvent (record db { reservations = put key row db.reservations })
unfolding in_account in_task
replaced-AllSolvent key row db other app task s = record {
  applications = λ account. elim (Bool-cases (key.task.account == account)) [
    | inl q ↦
        subst
          (λ a.
            total_debit (in_account a) (put key row db.reservations)
            ≤ application_limit (find a db.allocations))
          (beq→eq key.task.account account q) (app (beq_self key.task.account))
    | inr q ↦ omega (arith, other (in_account account) q, s.applications account)
  ];
  tasks = λ account t. elim (Bool-cases (key.task == task_of account t)) [
    | inl q ↦
        subst
          (λ k.
            total_debit (in_task k) (put key row db.reservations)
            ≤ task_limit (find k.account db.allocations))
          (beq→eq key.task (task_of account t) q) (task (beq_self key.task))
    | inr q ↦ omega (arith, other (in_task (task_of account t)) q, s.tasks account t)
  ];
}

new_total :
    (p : ActionKey → Bool) (key : ActionKey) (n limit : ℕ) (db : Database)
    → find key db.reservations ≡ none
    → p key ≡ true
    → total_debit p db.reservations + n ≤ limit
    → total_debit p (put key (new_row n) db.reservations) ≤ limit
unfolding debit new_row
new_total p key n limit db g own h =
    omega
      (arith, total-put_new p key (new_row n) db.reservations g, weight-own p key (new_row n) own)

reserve_new-AllSolvent :
    (self : SqlAuthority) (task action : String) (n : ℕ) (allocation : Allocation) (db : Database)
    → find self.account db.allocations ≡ some allocation
    → find (action_key self task action) db.reservations ≡ none
    → AllSolvent db
    → AllSolvent (reserve_new self task action n allocation (allocation.task_ceiling, db)).1
unfolding reserve_new application_limit task_limit
reserve_new-AllSolvent self task action n allocation db f g s =
    let key = action_key self task action in
    elim (Bool-cases (
      ltb allocation.application_ceiling (total_debit (in_account self.account) db.reservations + n)
      || ltb allocation.task_ceiling
          (total_debit (in_task (task_key self task)) db.reservations + n))) [
            | inl q ↦ rw q s
            | inr q ↦ rw q (
                replaced-AllSolvent key (new_row n) db
                  (λ p h. omega (
                    arith,
                    total-put_new p key (new_row n) db.reservations g,
                    weight-other p key (new_row n) h,
                  ))
                  (λ own.
                    rw f (new_total (in_account self.account) key n _ db g own (ground arith)))
                  (λ own.
                    rw f (new_total (in_task (task_key self task)) key n _ db g own (ground arith)))
                  s)
          ]

pub pin_task-ceiling :
    (self : SqlAuthority) (task : String) (allocation : Allocation) (o : Option ℕ) (db : Database)
    (pinned : ℕ × Database)
    → pin_task self task allocation o db ≡ ok pinned
    → (tasks : Table TaskKey ℕ) × (pinned ≡ (allocation.task_ceiling, record db { tasks = tasks }))
unfolding pin_task
pin_task-ceiling self task allocation none db pinned h = (_, sym (ok-injective h))
pin_task-ceiling self task allocation (some ceiling) db pinned h =
    let (same, rest) = raise_if-eq-ok (not (ceiling == allocation.task_ceiling)) _ _ h in
    let pins : ceiling ≡ allocation.task_ceiling = ground arith in
    (db.tasks, sym (ok-injective rest) ∙ ap (λ c. (c, db)) pins)

reserve_found-AllSolvent :
    (self : SqlAuthority) (task action : String) (n : ℕ) (allocation : Allocation)
    (o : Option Reservation) (db : Database) (out : Bool × Database)
    → find self.account db.allocations ≡ some allocation
    → find (action_key self task action) db.reservations ≡ o
    → reserve_found self task action n allocation o db ≡ ok out
    → AllSolvent db
    → AllSolvent out.1
unfolding reserve_found
reserve_found-AllSolvent self task action n allocation (some row) db out f g h s =
    subst (λ r. AllSolvent r.1) (ok-injective h) s
reserve_found-AllSolvent self task action n allocation none db out f g h s =
    let (pinned, e, rest) = >>=-eq-ok (pin_task self task allocation _ db) _ h in
    let (tasks, pins) = pin_task-ceiling self task allocation _ db pinned e in
    let kept : AllSolvent (record db { tasks = tasks }) = record {
      applications = s.applications;
      tasks = s.tasks;
    } in
    subst (λ r. AllSolvent r.1)
      (ap (λ r. reserve_new self task action n allocation r) (sym pins) ∙ ok-injective rest)
      (reserve_new-AllSolvent self task action n allocation (record db { tasks = tasks }) f g kept)

pub or_raise-eq-ok :
    {A : Type 0} (x : Error) (o : Option A) (a : A) → or_raise x o ≡ ok a → o ≡ some a
or_raise-eq-ok x none a h = cc
or_raise-eq-ok x (some b) a h = ap some (ok-injective h)

pub reserve-AllSolvent :
    (self : SqlAuthority) (task action : String) (price : Price) (db : Database)
    (out : Bool × Database)
    → reserve self task action price db ≡ ok out
    → AllSolvent db
    → AllSolvent out.1
unfolding reserve reserve_amount locked_allocation verify_task_owner
reserve-AllSolvent self task action price db out h s = go (amount price) refl h
  where
    go :
        (o : Option ℕ)
        → amount price ≡ o
        → (elim o [
          | none ↦ ok (false, db)
          | some n ↦
              if task == "" || action == ""
              then ok (false, db)
              else reserve_amount self task action n db
        ])
          ≡ ok out
        → AllSolvent out.1
    go none p h = subst (λ r. AllSolvent r.1) (ok-injective h) s
    go (some n) p h = elim (Bool-cases (task == "" || action == "")) [
      | inl q ↦
          let same : (false, db) ≡ out = ok-injective (rw q at h) in
          subst (λ r. AllSolvent r.1) same s
      | inr q ↦
          let (allocation, found, h2) = >>=-eq-ok (locked_allocation self db) _ (rw q at h) in
          let (_, h3) = raise_if-eq-ok _ _ _ h2 in
          reserve_found-AllSolvent self task action n allocation _ db out
            (or_raise-eq-ok _ _ _ found) refl h3 s
    ]
