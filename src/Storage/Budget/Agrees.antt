-- ===== src/Storage/Budget/Agrees.antt =====
-- A durable authority and an in-memory one that keep the same rows.
use openai_model_router.Prelude.{
  ◌≡◌, refl, sym, ap, subst, ◌∙◌, String, none, some, Bool, true, false, ◌==◌, beq→eq, beq_self,
  Bool-cases, inl, inr, find, put, find-put, lookup, insert, lookup-insert, arith, string_eq,
  nat_eq, eq_iff,
}
use openai_model_router.Execution.Funds.{Reservation, Authority, rows_of, debited, put_row}
use openai_model_router.Execution.Funds.Balances.{
  balance, rows_of-put_row, balance-put_row, debited-insert_old, debited-insert_new,
}
use openai_model_router.Execution.Funds.Solvency.{Same}
use openai_model_router.Storage.Budget.{
  ActionKey, account_eq, task_eq, action_eq, Allocation, Database, SqlAuthority, in_task,
  total_debit, task_key, action_key,
}
use openai_model_router.Storage.Budget.Sums.{weight-other, weight-own, total-put_new, total-put_old}

-- The in-memory authority `m` has, for each task, the rows of the allocation and its task ceiling.
pub record Agrees (self : SqlAuthority) (allocation : Allocation) (db : Database) (m : Authority)
    : Type 0 where
  pub found : find self.account db.allocations ≡ some allocation
  pub rows :
      (task action : String)
      → lookup action (rows_of m task) ≡ find (action_key self task action) db.reservations
  pub funds : (task : String) → balance m task ≡ allocation.task_ceiling
  pub debits :
      (task : String)
      → debited (rows_of m task) ≡ total_debit (in_task (task_key self task)) db.reservations

module _ (self : SqlAuthority) (allocation : Allocation) where
  pub Agrees-Same :
      (db : Database) (m n : Authority)
      → Same m n
      → Agrees self allocation db m
      → Agrees self allocation db n
  Agrees-Same db m n s a = record {
    found = a.found;
    rows = λ task action. ap (lookup action) (s.rows task) ∙ a.rows task action;
    funds = λ task. s.funds task ∙ a.funds task;
    debits = λ task. ap debited (s.rows task) ∙ a.debits task;
  }

  same_key :
      (task action a : String)
      → (action_key self task action == action_key self task a) ≡ (action == a)
  same_key task action a = ground (
    arith,
    eq_iff self.account.application_id self.account.application_id,
    eq_iff self.account.allocation_id self.account.allocation_id,
    eq_iff task task,
  )

  other_key :
      (task action t a : String)
      → (task == t) ≡ false
      → (action_key self task action == action_key self t a) ≡ false
  other_key task action t a h = ground arith

  own_task :
      (task action : String) → in_task (task_key self task) (action_key self task action) ≡ true
  unfolding in_task
  own_task task action = beq_self (task_key self task)

  other_task :
      (task action t : String)
      → (task == t) ≡ false
      → in_task (task_key self t) (action_key self task action) ≡ false
  unfolding in_task
  other_task task action t h = ground arith

  module _ (task action : String) (row : Reservation) (db : Database) (m : Authority)
      (agrees : Agrees self allocation db m) where
    own_rows :
        (a : String)
        → lookup a (rows_of (put_row task action row m) task)
          ≡ find (action_key self task a) (put (action_key self task action) row db.reservations)
    own_rows a = rw (rows_of-put_row task action task row m) (
        rw (beq_self task) (
          rw (lookup-insert action a row (rows_of m task)) (
            rw (find-put (action_key self task action) (action_key self task a) row db.reservations)
              (rw (same_key task action a) (rw (agrees.rows task a) refl)))))

    lookup-rows :
        (t a : String)
        → lookup a (rows_of (put_row task action row m) t)
          ≡ find (action_key self t a) (put (action_key self task action) row db.reservations)
    lookup-rows t a = elim (Bool-cases (task == t)) [
      | inl p ↦
          subst
            (λ t.
              lookup a (rows_of (put_row task action row m) t)
              ≡ find (action_key self t a) (put (action_key self task action) row db.reservations))
            (beq→eq task t p) (own_rows a)
      | inr p ↦ rw (rows_of-put_row task action t row m) (
          rw p (
            rw (find-put (action_key self task action) (action_key self t a) row db.reservations)
              (rw (other_key task action t a p) (agrees.rows t a))))
    ]

    -- Writing the row of one action in both keeps their agreement.
    put-Agrees :
        debited (insert action row (rows_of m task))
          ≡ total_debit
              (in_task (task_key self task))
              (put (action_key self task action) row db.reservations)
        → ((p : ActionKey → Bool)
            → p (action_key self task action) ≡ false
            → total_debit p (put (action_key self task action) row db.reservations)
              ≡ total_debit p db.reservations)
        → Agrees self allocation
            (record db { reservations = put (action_key self task action) row db.reservations })
            (put_row task action row m)
    put-Agrees own other = record {
      found = agrees.found;
      rows = lookup-rows;
      funds = λ t. balance-put_row task action t row m ∙ agrees.funds t;
      debits = λ t. rw (rows_of-put_row task action t row m) (elim (Bool-cases (task == t)) [
        | inl p ↦ rw p (
            subst
              (λ t.
                debited (insert action row (rows_of m task))
                ≡ total_debit (in_task (task_key self t))
                    (put (action_key self task action) row db.reservations))
              (beq→eq task t p) own)
        | inr p ↦ rw p (agrees.debits t ∙ sym (other _ (other_task task action t p)))
      ]);
    }

    pub put_new-Agrees :
        find (action_key self task action) db.reservations ≡ none
        → Agrees self allocation
            (record db { reservations = put (action_key self task action) row db.reservations })
            (put_row task action row m)
    put_new-Agrees g =
        let key = action_key self task action in
        put-Agrees
          (omega (
            arith,
            debited-insert_new action row (rows_of m task) (agrees.rows task action ∙ g),
            agrees.debits task,
            total-put_new (in_task (task_key self task)) key row db.reservations g,
            weight-own (in_task (task_key self task)) key row (own_task task action),
          ))
          (λ p h.
            omega (arith, total-put_new p key row db.reservations g, weight-other p key row h))

    pub put_old-Agrees :
        (old : Reservation)
        → find (action_key self task action) db.reservations ≡ some old
        → Agrees self allocation
            (record db { reservations = put (action_key self task action) row db.reservations })
            (put_row task action row m)
    put_old-Agrees old g =
        let key = action_key self task action in
        let own = in_task (task_key self task) in
        put-Agrees
          (omega (
            arith,
            debited-insert_old action row old (rows_of m task) (agrees.rows task action ∙ g),
            agrees.debits task,
            total-put_old own key row old db.reservations g,
            weight-own own key row (own_task task action),
            weight-own own key old (own_task task action),
          ))
          (λ p h. omega (
            arith,
            total-put_old p key row old db.reservations g,
            weight-other p key row h,
            weight-other p key old h,
          ))
