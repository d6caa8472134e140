-- ===== src/Execution/Funds/Solvency.antt =====
-- No sequence of operations reserves more than a task has.
use openai_model_router.Prelude.{
  ℕ, ◌+◌, ◌-◌, ◌≤◌, ◌<◌, ltb→lt, ◌≡◌, refl, sym, ap, subst, ◌∙◌, String, Option, none, some, [],
  ◌∷◌, Bool, true, false, Dict, lookup, insert, sum, ltb, ltb→ge, ◌==◌, beq→eq, not, ◌||◌, is_empty,
  if◌then◌else◌, string_eq, nat_eq, Bool-cases, inl, inr, arith, ok, ◌>>◌, >>=-eq-ok, raise_if,
  raise_if-eq-ok, ok-injective, or_raise, value_error,
}
use openai_model_router.Execution.{Price, absent, malformed, exact, amount}
use openai_model_router.Execution.Funds.{
  Reservation, debit, Authority, rows_of, debited, remaining, with_rows, put_row, new_row,
  reserve_amount, reserve, set_balance, settle_row, settle,
}
use openai_model_router.Execution.Funds.Balances.{
  debited-insert_new, debited-insert_old, rows_of-put_row, rows_of-with_rows, balance,
  balance-task_balance, rows_of-task_balance, remaining-eq, balance-with_rows, balance-put_row,
  balance-set,
}

-- The debits of each task stay within its balance.
abbrev pub IsSolvent : Authority → Type 0
IsSolvent a = (task : String) → debited (rows_of a task) ≤ balance a task

-- `b` has the rows and the balances of `a`.
pub record Same (a b : Authority) : Type 0 where
  pub rows : (task : String) → rows_of b task ≡ rows_of a task
  pub funds : (task : String) → balance b task ≡ balance a task

pub Same-IsSolvent : (a b : Authority) → Same a b → IsSolvent a → IsSolvent b
Same-IsSolvent a b s h task = rw (s.rows task) (rw (s.funds task) (h task))

pub Same-with_rows : (task : String) (a : Authority) → Same a (with_rows task a)
Same-with_rows task a = record {
  rows = λ t. rows_of-with_rows task t a;
  funds = λ t. balance-with_rows task t a;
}

Same-remaining : (task : String) (a : Authority) → Same a (remaining task a).1
unfolding remaining
Same-remaining task a = record {
  rows = λ t. rows_of-task_balance task t a;
  funds = λ t. balance-task_balance task t a;
}

pub Same-trans : (a b c : Authority) → Same a b → Same b c → Same a c
Same-trans a b c s t = record {
  rows = λ x. t.rows x ∙ s.rows x;
  funds = λ x. t.funds x ∙ s.funds x;
}

put_row-IsSolvent :
    (task action : String) (row : Reservation) (a : Authority)
    → debited (insert action row (rows_of a task)) ≤ balance a task
    → IsSolvent a
    → IsSolvent (put_row task action row a)
put_row-IsSolvent task action row a k h t = rw (rows_of-put_row task action t row a) (
    rw (balance-put_row task action t row a) (elim (Bool-cases (task == t)) [
      | inl e ↦ rw e (
          subst (λ x. debited (insert action row (rows_of a task)) ≤ balance a x) (beq→eq task t e)
            k)
      | inr e ↦ rw e (h t)
    ]))

module _ (task action : String) (n : ℕ) (a : Authority) where
  abbrev left : ℕ
  left = balance a task - debited (rows_of a task)

  -- Every way in which a reservation can end.
  pub reserve_amount-by :
      (P : Bool × Authority → Type 0)
      → ((row : Reservation)
          → lookup action (rows_of a task) ≡ some row
          → P (row.reserved == n, with_rows task a))
      → ((b : Authority)
          → lookup action (rows_of a task) ≡ none
          → Same a b
          → left < n
          → P (false, b))
      → ((b : Authority)
          → lookup action (rows_of a task) ≡ none
          → Same a b
          → n ≤ left
          → P (true, put_row task action (new_row n) b))
      → P (reserve_amount task action n a)
  unfolding reserve_amount
  reserve_amount-by P old refused fresh =
      go (lookup action (rows_of (with_rows task a) task))
        (ap (lookup action) (sym (rows_of-with_rows task task a)))
    where
      funded : Authority
      funded = (remaining task (with_rows task a)).1

      same : Same a funded
      same =
          Same-trans a (with_rows task a) funded (Same-with_rows task a)
            (Same-remaining task (with_rows task a))

      left-eq : (remaining task (with_rows task a)).0 ≡ left
      left-eq =
          remaining-eq task (with_rows task a)
          ∙ rw (rows_of-with_rows task task a) (rw (balance-with_rows task task a) refl)

      tested :
          (b : Bool)
          → ltb (remaining task (with_rows task a)).0 n ≡ b
          → lookup action (rows_of a task) ≡ none
          → P (if b then (false, funded) else (true, put_row task action (new_row n) funded))
      tested true e m = refused funded m same (ltb→lt left n (rw left-eq at e))
      tested false e m = fresh funded m same (ltb→ge left n (rw left-eq at e))

      go :
          (o : Option Reservation)
          → lookup action (rows_of a task) ≡ o
          → P (elim o [
            | some row ↦ (row.reserved == n, with_rows task a)
            | none ↦
                if ltb (remaining task (with_rows task a)).0 n
                then (false, funded)
                else (true, put_row task action (new_row n) funded)
          ])
      go none e = tested (ltb (remaining task (with_rows task a)).0 n) refl e
      go (some row) e = old row e

-- `reserve` changes the state as `reserve_amount` does, or not at all.
pub reserve-by :
    (task action : String) (price : Price) (a : Authority) (P : Bool × Authority → Type 0)
    → P (false, a)
    → ((n : ℕ)
        → amount price ≡ some n
        → (task == "" || action == "") ≡ false
        → P (reserve_amount task action n a))
    → P (reserve task action price a)
unfolding reserve
reserve-by task action price a P nothing some_amount = go (amount price) refl
  where
    tested : (b : Bool) (r : Bool × Authority) → (b ≡ false → P r) → P (if b then (false, a) else r)
    tested true r p = nothing
    tested false r p = p refl

    go :
        (o : Option ℕ)
        → amount price ≡ o
        → P (elim o [
          | none ↦ (false, a)
          | some n ↦
              if task == "" || action == "" then (false, a) else reserve_amount task action n a
        ])
    go none e = nothing
    go (some n) e = tested (task == "" || action == "") _ (λ f. some_amount n e f)

debit-new_row : (n : ℕ) → debit (new_row n) ≡ n
unfolding debit new_row
debit-new_row n = refl

pub debited-put_new :
    (task action : String) (n : ℕ) (a : Authority)
    → lookup action (rows_of a task) ≡ none
    → debited (insert action (new_row n) (rows_of a task)) ≡ debited (rows_of a task) + n
debited-put_new task action n a m =
    debited-insert_new action (new_row n) (rows_of a task) m
    ∙ ap (λ k. debited (rows_of a task) + k) (debit-new_row n)

pub reserve-IsSolvent :
    (task action : String) (price : Price) (a : Authority)
    → IsSolvent a
    → IsSolvent (reserve task action price a).1
reserve-IsSolvent task action price a h =
    reserve-by task action price a (λ r. IsSolvent r.1) h
      (λ n _ _.
        reserve_amount-by task action n a (λ r. IsSolvent r.1)
          (λ row _. Same-IsSolvent a (with_rows task a) (Same-with_rows task a) h)
          (λ b _ s _. Same-IsSolvent a b s h)
          (λ b m s k.
            put_row-IsSolvent task action (new_row n) b
              (rw (s.rows task) (
                rw (s.funds task) (
                  rw (debited-put_new task action n a m)
                    (fits (balance a task) (debited (rows_of a task)) k (h task)))))
              (Same-IsSolvent a b s h)))
  where
    fits : {n : ℕ} (x y : ℕ) → n ≤ x - y → y ≤ x → y + n ≤ x
    fits x y k e = omega arith

debit-unsettled : (row : Reservation) → row.settled ≡ false → debit row ≡ row.reserved
unfolding debit
debit-unsettled row e = rw e refl

debit-paid :
    (row : Reservation) (n : ℕ) → debit (record row { actual = some n; settled = true }) ≡ n
unfolding debit
debit-paid row n = refl

settle_row-IsSolvent :
    (task action : String) (n : ℕ) (row : Reservation) (a b : Authority)
    → lookup action (rows_of a task) ≡ some row
    → n ≤ row.reserved
    → settle_row task action row (exact n) a ≡ ok b
    → IsSolvent a
    → IsSolvent b
unfolding settle_row
settle_row-IsSolvent task action n row a b m k h s = go row.settled refl h
  where
    paid : Reservation
    paid = record row { actual = some n; settled = true }

    spent : {x y z w v : ℕ} → x + y ≡ z + v → v ≡ n → y ≡ row.reserved → z ≤ w → x ≤ w
    spent p u q r = omega arith

    go :
        (c : Bool)
        → row.settled ≡ c
        → (if c
            then raise_if
                (not (elim row.actual [ none ↦ false | some p ↦ p == n ]))
                (value_error "action is already settled with a different amount")
              >> ok a
            else ok (put_row task action paid a))
          ≡ ok b
        → IsSolvent b
    go true e q =
        subst IsSolvent
          (ok-injective
            (raise_if-eq-ok (not (elim row.actual [ none ↦ false | some p ↦ p == n ])) _ _ q).1)
          s
    go false e q = subst IsSolvent (ok-injective q) (
        put_row-IsSolvent task action paid a
          (spent (debited-insert_old action paid row (rows_of a task) m) (debit-paid row n)
            (debit-unsettled row e) (s task))
          s)

-- A known outcome costs no more than was reserved for it.
abbrev pub WithinRow : Price → Reservation → Type 0
WithinRow (exact n) row = n ≤ row.reserved
WithinRow _ row = Unit

pub settle-IsSolvent :
    (task action : String) (price : Price) (row : Reservation) (a b : Authority)
    → lookup action (rows_of a task) ≡ some row
    → WithinRow price row
    → settle task action price a ≡ ok b
    → IsSolvent a
    → IsSolvent b
unfolding settle settle_row
settle-IsSolvent task action price row a b m k h s = go price k (rw m at h)
  where
    go : (p : Price) → WithinRow p row → settle_row task action row p a ≡ ok b → IsSolvent b
    go absent k q = subst IsSolvent (ok-injective q) s
    go malformed k q = absurd (ground arith)
    go (exact n) k q = settle_row-IsSolvent task action n row a b m k q s

balance-insert :
    (task other : String) (n : ℕ) (a : Authority)
    → debited (rows_of a task) ≤ n
    → debited (rows_of a other) ≤ balance a other
    → debited (rows_of (record a { balances = insert task n a.balances }) other)
      ≤ balance (record a { balances = insert task n a.balances }) other
unfolding rows_of
balance-insert task other n a k h =
    rw (balance-set task other n a) (elim (Bool-cases (task == other)) [
      | inl e ↦ rw e (subst (λ t. debited (rows_of a t) ≤ n) (beq→eq task other e) k)
      | inr e ↦ rw e h
    ])

no_debit : (rows : Dict Reservation) (n : ℕ) → rows ≡ [] → debited rows ≤ n
unfolding debited sum
no_debit rows n h = rw h (omega arith)

pub set_balance-IsSolvent :
    (task : String) (price : Price) (a b : Authority)
    → set_balance task price a ≡ ok b
    → IsSolvent a
    → IsSolvent b
unfolding set_balance
set_balance-IsSolvent task price a b h s =
    let (_, h1) = raise_if-eq-ok (task == "") _ _ h in
    let (n, _, h2) =
      >>=-eq-ok
        (or_raise (value_error "task balance requires a task id and finite amount") (amount price))
        _ h1 in
    let (e, h3) = raise_if-eq-ok (not (is_empty (rows_of a task))) _ _ h2 in
    subst IsSolvent (ok-injective h3) (λ t.
      balance-insert task t n a (no_debit (rows_of a task) n (empty (rows_of a task) e)) (s t))
  where
    empty : (rows : Dict Reservation) → not (is_empty rows) ≡ false → rows ≡ []
    empty [] q = refl
    empty (r ∷ rows) q = absurd (ground arith)
