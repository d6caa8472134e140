-- ===== src/Execution/Funds/Balances.antt =====
-- What the reservations of a task leave of its balance.
use openai_model_router.Prelude.{
  ℕ, ◌+◌, ◌-◌, ◌≡◌, refl, subst, String, Option, none, some, [], Dict, lookup, insert,
  lookup-insert, ◌==◌, beq→eq, if◌then◌else◌, string_eq, nat_eq, Bool-cases, inl, inr, arith,
  eq_iff, sum-insert_new, sum-insert_old,
}
use openai_model_router.Execution.Funds.{
  Reservation, debit, Authority, rows_of, debited, installed, task_balance, remaining, with_rows,
  put_row,
}

pub debited-insert_new :
    (action : String) (row : Reservation) (rows : Dict Reservation)
    → lookup action rows ≡ none
    → debited (insert action row rows) ≡ debited rows + debit row
unfolding debited
debited-insert_new action row rows h = sum-insert_new debit action row rows h

pub debited-insert_old :
    (action : String) (row old : Reservation) (rows : Dict Reservation)
    → lookup action rows ≡ some old
    → debited (insert action row rows) + debit old ≡ debited rows + debit row
unfolding debited
debited-insert_old action row old rows h = sum-insert_old debit action row old rows h

pub rows_of-put_row :
    (task action other : String) (row : Reservation) (a : Authority)
    → rows_of (put_row task action row a) other
      ≡ (if task == other then insert action row (rows_of a task) else rows_of a other)
unfolding rows_of put_row
rows_of-put_row task action other row a =
    ground (arith, lookup-insert task other (insert action row (rows_of a task)) a.reservations)

pub rows_of-with_rows :
    (task other : String) (a : Authority) → rows_of (with_rows task a) other ≡ rows_of a other
unfolding rows_of with_rows
rows_of-with_rows task other a =
    ground (arith, eq_iff task other, lookup-insert task other (rows_of a task) a.reservations)

chosen : Option ℕ → Option ℕ → ℕ
chosen (some n) default = n
chosen none (some ceiling) = ceiling
chosen none none = 0

-- The balance of a task, without installing it.
pub balance : Authority → String → ℕ
unfolding chosen
balance a task = chosen (lookup task a.balances) a.default_ceiling

pub task_balance-eq : (task : String) (a : Authority) → (task_balance task a).0 ≡ balance a task
unfolding task_balance balance installed chosen
task_balance-eq task a = go (lookup task a.balances) a.default_ceiling
  where
    go : (o d : Option ℕ) → (installed task a o d).0 ≡ chosen o d
    go none none = refl
    go none (some d) = refl
    go (some n) d = refl

-- Installing the default ceiling of a task changes no balance.
pub balance-task_balance :
    (task other : String) (a : Authority) → balance (task_balance task a).1 other ≡ balance a other
unfolding task_balance balance installed chosen
balance-task_balance task other a = go (lookup task a.balances) a.default_ceiling refl refl
  where
    replaced :
        (c : ℕ)
        → lookup task a.balances ≡ none
        → a.default_ceiling ≡ some c
        → chosen (lookup other (insert task c a.balances)) a.default_ceiling
          ≡ chosen (lookup other a.balances) a.default_ceiling
    replaced c p q = rw (lookup-insert task other c a.balances) (elim (Bool-cases (task == other)) [
      | inl e ↦
          rw e (rw q (rw (subst (λ t. lookup t a.balances ≡ none) (beq→eq task other e) p) refl))
      | inr e ↦ rw e refl
    ])

    go :
        (o d : Option ℕ)
        → lookup task a.balances ≡ o
        → a.default_ceiling ≡ d
        → chosen
            (lookup other (installed task a o d).1.balances)
            (installed task a o d).1.default_ceiling
          ≡ chosen (lookup other a.balances) a.default_ceiling
    go none none p q = refl
    go none (some c) p q = replaced c p q
    go (some n) d p q = refl

pub rows_of-task_balance :
    (task other : String) (a : Authority) → rows_of (task_balance task a).1 other ≡ rows_of a other
unfolding task_balance rows_of installed
rows_of-task_balance task other a = go (lookup task a.balances) a.default_ceiling
  where
    go : (o d : Option ℕ) → rows_of (installed task a o d).1 other ≡ rows_of a other
    go none none = refl
    go none (some d) = refl
    go (some n) d = refl

-- What a task has left, as one number: `remaining` without the balance that it installs.
pub remaining-eq :
    (task : String) (a : Authority)
    → (remaining task a).0 ≡ balance a task - debited (rows_of a task)
unfolding remaining
remaining-eq task a = rw (task_balance-eq task a) (rw (rows_of-task_balance task task a) refl)

pub balance-with_rows :
    (task other : String) (a : Authority) → balance (with_rows task a) other ≡ balance a other
unfolding balance with_rows
balance-with_rows task other a = refl

pub balance-put_row :
    (task action other : String) (row : Reservation) (a : Authority)
    → balance (put_row task action row a) other ≡ balance a other
unfolding balance put_row
balance-put_row task action other row a = refl

pub balance-set :
    (task other : String) (n : ℕ) (a : Authority)
    → balance (record a { balances = insert task n a.balances }) other
      ≡ (if task == other then n else balance a other)
unfolding balance chosen
balance-set task other n a =
    rw (lookup-insert task other n a.balances)
      (elim (Bool-cases (task == other)) [ inl e ↦ rw e refl | inr e ↦ rw e refl ])

-- A new task has the default ceiling.
pub fresh_balance :
    (ceiling : ℕ) (task : String)
    → balance (record { default_ceiling = some ceiling; balances = []; reservations = [] }) task
      ≡ ceiling
unfolding balance chosen lookup
fresh_balance ceiling task = refl
