-- ===== src/Storage/Budget/Sums.antt =====
-- What a new or a changed row adds to the debits.
use openai_model_router.Prelude.{
  ℕ, ◌+◌, ◌≡◌, refl, ◌∙◌, none, some, [], ◌∷◌, Bool, true, false, ◌==◌, beq→eq, Bool-cases, inl,
  inr, Table, find, put, select, sum, if◌then◌else◌, arith,
}
use openai_model_router.Execution.Funds.{Reservation, debit}
use openai_model_router.Storage.Budget.{ActionKey, action_eq, total_debit}

-- What a row adds to the debits of the keys that `p` selects.
unfoldable pub weight : (ActionKey → Bool) → ActionKey → Reservation → ℕ
weight p key row = if p key then debit row else 0

module _ (p : ActionKey → Bool) where
  pub weight-other : (key : ActionKey) (row : Reservation) → p key ≡ false → weight p key row ≡ 0
  unfolding weight
  weight-other key row h = rw h refl

  pub weight-own :
      (key : ActionKey) (row : Reservation) → p key ≡ true → weight p key row ≡ debit row
  unfolding weight
  weight-own key row h = rw h refl

  total-cons :
      (k : ActionKey) (r : Reservation) (rows : Table ActionKey Reservation)
      → total_debit p ((k, r) ∷ rows) ≡ weight p k r + total_debit p rows
  unfolding total_debit select sum weight
  total-cons k r rows = elim (Bool-cases (p k)) [ inl q ↦ rw q refl | inr q ↦ rw q (omega arith) ]

  pub total-put_new :
      (key : ActionKey) (row : Reservation) (rows : Table ActionKey Reservation)
      → find key rows ≡ none
      → total_debit p (put key row rows) ≡ total_debit p rows + weight p key row
  unfolding find put
  total-put_new key row [] h = total-cons key row [] ∙ nil
    where
      nil : weight p key row + total_debit p [] ≡ total_debit p [] + weight p key row
      nil = omega arith
  total-put_new key row ((k, r) ∷ rows) h = elim (Bool-cases (k == key)) [
    | inl q ↦ absurd (ground arith)
    | inr q ↦
        let rest = total-put_new key row rows (rw q at h) in
        rw q (omega (arith, total-cons k r (put key row rows), total-cons k r rows, rest))
  ]

  pub total-put_old :
      (key : ActionKey) (row old : Reservation) (rows : Table ActionKey Reservation)
      → find key rows ≡ some old
      → total_debit p (put key row rows) + weight p key old ≡ total_debit p rows + weight p key row
  unfolding find put
  total-put_old key row old [] h = absurd (ground arith)
  total-put_old key row old ((k, r) ∷ rows) h = elim (Bool-cases (k == key)) [
    | inl q ↦
        let kept : some r ≡ some old = rw q at h in
        let same : r ≡ old = cc in
        let place : k ≡ key = beq→eq k key q in
        let weights : weight p k r ≡ weight p key old = cc in
        rw q (omega (arith, total-cons key row rows, total-cons k r rows, weights))
    | inr q ↦
        let rest = total-put_old key row old rows (rw q at h) in
        rw q (omega (arith, total-cons k r (put key row rows), total-cons k r rows, rest))
  ]
