-- ===== src/Execution/Funds/Repeats.antt =====
-- What one reservation changes, and that repeating it changes nothing more.
use openai_model_router.Prelude.{
  ℕ, ◌+◌, ◌-◌, ◌≤◌, ◌≡◌, refl, sym, subst, ◌∙◌, String, none, some, Bool, true, false, lookup,
  insert, lookup-insert, ◌==◌, beq_self, ◌||◌, string_eq, nat_eq, arith,
}
use openai_model_router.Execution.{Price, amount}
use openai_model_router.Execution.Funds.{
  Reservation, Authority, rows_of, debited, remaining, put_row, with_rows, new_row, reserve_amount,
  reserve,
}
use openai_model_router.Execution.Funds.Balances.{
  rows_of-put_row, rows_of-with_rows, balance, remaining-eq, balance-put_row,
}
use openai_model_router.Execution.Funds.Solvency.{
  Same, Same-with_rows, reserve_amount-by, reserve-by, debited-put_new,
}

rows-put_row :
    (task action : String) (row : Reservation) (a : Authority)
    → rows_of (put_row task action row a) task ≡ insert action row (rows_of a task)
rows-put_row task action row a =
    rw (rows_of-put_row task action task row a) (rw (beq_self task) refl)

-- `r` is a refusal, or took `n` from what the task had left in `a`.
pub Takes : String → ℕ → Authority → Bool × Authority → Type 0
Takes task n a r = elim r.0 [
  | true ↦ (remaining task r.1).0 + n ≡ (remaining task a).0
  | false ↦ Same a r.1
]

-- A reservation of a valid amount under an action id without a row either takes exactly the
-- amount from what the task has left, or is refused and changes the rows and balances of no
-- task.
pub reserve-Takes :
    (task action : String) (price : Price) (a : Authority) (n : ℕ)
    → lookup action (rows_of a task) ≡ none
    → amount price ≡ some n
    → Takes task n a (reserve task action price a)
unfolding Takes
reserve-Takes task action price a n m p =
    reserve-by task action price a (Takes task n a) (record { rows = λ t. refl; funds = λ t. refl })
      (λ k e _.
        subst (λ i. Takes task n a (reserve_amount task action i a)) (same_amount (sym p ∙ e))
          (reserve_amount-by task action n a (Takes task n a)
            (λ row f. absurd (unequal (sym m ∙ f))) (λ b _ s _. s) (λ b _ s h. taken b s h)))
  where
    same_amount : {i j : ℕ} → some i ≡ some j → i ≡ j
    same_amount q = cc

    unequal : {r : Reservation} → none ≡ some r → ⊥
    unequal q = cc

    minus : (x y : ℕ) → n ≤ x - y → x - (y + n) + n ≡ x - y
    minus x y h = omega arith

    taken :
        (b : Authority)
        → Same a b
        → n ≤ balance a task - debited (rows_of a task)
        → (remaining task (put_row task action (new_row n) b)).0 + n ≡ (remaining task a).0
    taken b s h = rw (remaining-eq task (put_row task action (new_row n) b)) (
        rw (remaining-eq task a) (
          rw (rows-put_row task action (new_row n) b) (
            rw (balance-put_row task action task (new_row n) b) (
              rw (s.rows task) (
                rw (s.funds task) (
                  rw (debited-put_new task action n a m)
                    (minus (balance a task) (debited (rows_of a task)) h)))))))

-- `reserve` answers yes for the row of the action, and changes nothing.
reserve-known :
    (task action : String) (price : Price) (a : Authority) (n : ℕ) (row : Reservation)
    → lookup action (rows_of a task) ≡ some row
    → amount price ≡ some n
    → (task == "" || action == "") ≡ false
    → reserve task action price a ≡ (row.reserved == n, with_rows task a)
unfolding reserve reserve_amount
reserve-known task action price a n row m p named =
    rw (reserve, p) (rw named (rw (reserve_amount, rows_of-with_rows task task a) (rw m refl)))

-- `r` is a refusal, or its repetition succeeds too and changes nothing.
pub Repeats : String → String → Price → Bool × Authority → Type 0
Repeats task action price r = elim r.0 [
  | true ↦ ((reserve task action price r.1).0 ≡ true) × Same r.1 (reserve task action price r.1).1
  | false ↦ Unit
]

-- Whenever `reserve` succeeds, reserving the same amount under the same ids again succeeds too,
-- and changes the rows and balances of no task.
pub reserve-Repeats :
    (task action : String) (price : Price) (a : Authority)
    → Repeats task action price (reserve task action price a)
unfolding Repeats new_row
reserve-Repeats task action price a =
    reserve-by task action price a (Repeats task action price) tt (λ n p named.
      reserve_amount-by task action n a (Repeats task action price)
        (λ row m.
          repeated (row.reserved == n) n p named (with_rows task a) row
            (rw (rows_of-with_rows task task a) m) refl)
        (λ b _ _ _. tt)
        (λ b m s _.
          repeated true n p named (put_row task action (new_row n) b) (new_row n)
            (rw (rows-put_row task action (new_row n) b) (
              rw (lookup-insert action action (new_row n) (rows_of b task))
                (rw (beq_self action) refl)))
            (beq_self n)))
  where
    repeated :
        (answer : Bool) (n : ℕ)
        → amount price ≡ some n
        → (task == "" || action == "") ≡ false
        → (b : Authority) (row : Reservation) → lookup action (rows_of b task) ≡ some row
        → (row.reserved == n) ≡ answer
        → Repeats task action price (answer, b)
    repeated false n p named b row m e = tt
    repeated true n p named b row m e =
        rw (reserve-known task action price b n row m p named) (e, Same-with_rows task b)
