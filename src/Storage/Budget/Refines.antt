-- ===== src/Storage/Budget/Refines.antt =====
-- The durable authority refines the in-memory one.
use openai_model_router.Prelude.{
  ℕ, ◌+◌, ◌≡◌, refl, sym, ap, subst, ◌∙◌, String, Option, none, some, Bool, true, false, ◌||◌, not,
  ◌==◌, Bool-cases, inl, inr, find, put, lookup, ltb, if◌then◌else◌, arith, ok, >>=-eq-ok,
  raise_if-eq-ok, ok-injective, string_eq, nat_eq, or_raise, some-injective,
}
use openai_model_router.Execution.{Price, absent, malformed, exact, amount}
use openai_model_router.Execution.Funds.{
  Reservation, new_row, Authority, rows_of, put_row, with_rows, settle_row,
  reserve as reserve_memory, reserve_amount as reserve_amount_memory, settle as settle_memory,
}
use openai_model_router.Execution.Funds.Solvency.{Same-with_rows, reserve_amount-by}
use openai_model_router.Storage.Budget.{
  account_eq, task_eq, action_eq, Allocation, Database, SqlAuthority, locked_allocation,
  verify_task_owner, in_account, in_task, total_debit, task_key, action_key, pin_task, reserve_new,
  reserve_found, reserve_amount, reserve, settle_found, settle_amount, settle,
}
use openai_model_router.Storage.Budget.Solvent.{pin_task-ceiling, or_raise-eq-ok}
use openai_model_router.Storage.Budget.Agrees.{Agrees, Agrees-Same, put_new-Agrees, put_old-Agrees}

module _ (self : SqlAuthority) (allocation : Allocation) where
  -- What a durable reservation's answer says of the same reservation in the in-memory authority: a
  -- grant is granted there too and leaves the two in agreement, a refusal keeps the agreement that was.
  pub Related : Authority → Bool × Authority → Bool × Database → Type 0
  Related m r out = elim out.0 [
    | true ↦ (r.0 ≡ true) × Agrees self allocation out.1 r.1
    | false ↦ Agrees self allocation out.1 m
  ]

  known-Matches :
      (task action : String) (n : ℕ) (row : Reservation) (db : Database) (m : Authority)
      → Agrees self allocation db m
      → find (action_key self task action) db.reservations ≡ some row
      → Related m (reserve_amount_memory task action n m) (row.reserved == n, db)
  unfolding Related
  known-Matches task action n row db m agrees g = go (row.reserved == n) refl
    where
      go :
          (b : Bool)
          → (row.reserved == n) ≡ b
          → Related m (reserve_amount_memory task action n m) (b, db)
      go false h = agrees
      go true h =
          reserve_amount-by task action n m (λ r. (r.0 ≡ true) × Agrees self allocation db r.1)
            (λ old k.
              let kept : some old ≡ some row = sym k ∙ (agrees.rows task action ∙ g) in
              let same : old ≡ row = cc in
              (
                ap (λ r. r.reserved == n) same ∙ h,
                Agrees-Same self allocation db m (with_rows task m) (Same-with_rows task m) agrees,
              ))
            (λ b k s l.
              let clash : none ≡ some row = sym k ∙ (agrees.rows task action ∙ g) in absurd (cc))
            (λ b k s l.
              let clash : none ≡ some row = sym k ∙ (agrees.rows task action ∙ g) in absurd (cc))

  new-Matches :
      (task action : String) (n : ℕ) (db : Database) (m : Authority)
      → Agrees self allocation db m
      → find (action_key self task action) db.reservations ≡ none
      → Related m
          (reserve_amount_memory task action n m)
          (reserve_new self task action n allocation (allocation.task_ceiling, db))
  unfolding Related reserve_new
  new-Matches task action n db m agrees g =
      elim (Bool-cases (
        ltb allocation.application_ceiling
          (total_debit (in_account self.account) db.reservations + n)
        || ltb allocation.task_ceiling
            (total_debit (in_task (task_key self task)) db.reservations + n))) [
              | inl q ↦ rw q agrees
              | inr q ↦ rw q (
                  reserve_amount-by task action n m
                    (λ r.
                      (r.0 ≡ true)
                      × Agrees self allocation
                          (record db {
                            reservations =
                                put (action_key self task action) (new_row n) db.reservations;
                          })
                          r.1)
                    (λ old k.
                      let clash : none ≡ some old = sym g ∙ (sym (agrees.rows task action) ∙ k) in
                      absurd (cc))
                    (λ b k s l. absurd (ground (arith, agrees.funds task, agrees.debits task)))
                    (λ b k s l. (
                      refl,
                      put_new-Agrees self allocation task action (new_row n) db b
                          (Agrees-Same self allocation db m b s agrees) g,
                    )))
            ]

  found-Matches :
      (task action : String) (n : ℕ) (o : Option Reservation) (db : Database) (m : Authority)
      (out : Bool × Database)
      → Agrees self allocation db m
      → find (action_key self task action) db.reservations ≡ o
      → reserve_found self task action n allocation o db ≡ ok out
      → Related m (reserve_amount_memory task action n m) out
  unfolding reserve_found
  found-Matches task action n (some row) db m out agrees g h =
      subst (Related m (reserve_amount_memory task action n m)) (ok-injective h)
        (known-Matches task action n row db m agrees g)
  found-Matches task action n none db m out agrees g h =
      let (pinned, e, rest) = >>=-eq-ok (pin_task self task allocation _ db) _ h in
      let (tasks, pins) = pin_task-ceiling self task allocation _ db pinned e in
      let kept : Agrees self allocation (record db { tasks = tasks }) m = record {
        found = agrees.found;
        rows = agrees.rows;
        funds = agrees.funds;
        debits = agrees.debits;
      } in
      subst (Related m (reserve_amount_memory task action n m))
        (ap (λ r. reserve_new self task action n allocation r) (sym pins) ∙ ok-injective rest)
        (new-Matches task action n (record db { tasks = tasks }) m kept g)

  amount-Matches :
      (task action : String) (n : ℕ) (db : Database) (m : Authority) (out : Bool × Database)
      → Agrees self allocation db m
      → reserve_amount self task action n db ≡ ok out
      → Related m (reserve_amount_memory task action n m) out
  unfolding reserve_amount locked_allocation verify_task_owner
  amount-Matches task action n db m out agrees h =
      let (other, found, h2) = >>=-eq-ok (locked_allocation self db) _ h in
      let located : some allocation ≡ some other = sym agrees.found ∙ or_raise-eq-ok _ _ _ found in
      let same : other ≡ allocation = sym (some-injective located) in
      let (_, h3) = raise_if-eq-ok _ _ _ h2 in
      found-Matches task action n _ db m out agrees refl (
        subst
          (λ a.
            reserve_found self task action n a (find (action_key self task action) db.reservations)
              db
            ≡ ok out)
          same h3)

  reserve-Matches :
      (task action : String) (price : Price) (db : Database) (m : Authority) (out : Bool × Database)
      → Agrees self allocation db m
      → reserve self task action price db ≡ ok out
      → Related m (reserve_memory task action price m) out
  unfolding reserve reserve_memory Related
  reserve-Matches task action price db m out agrees h = go (amount price) h
    where
      refused : (r : Bool × Authority) → (false, db) ≡ out → Related m r out
      refused r e = subst (Related m r) e agrees

      go :
          (o : Option ℕ)
          → (elim o [
            | none ↦ ok (false, db)
            | some n ↦
                if task == "" || action == ""
                then ok (false, db)
                else reserve_amount self task action n db
          ])
            ≡ ok out
          → Related m
              (elim o [
                | none ↦ (false, m)
                | some n ↦
                    if task == "" || action == ""
                    then (false, m)
                    else reserve_amount_memory task action n m
              ])
              out
      go none h = refused (false, m) (ok-injective h)
      go (some n) h = elim (Bool-cases (task == "" || action == "")) [
        | inl q ↦ rw q (refused (false, m) (ok-injective (rw q at h)))
        | inr q ↦ rw q (amount-Matches task action n db m out agrees (rw q at h))
      ]

  -- A settlement that commits is one of the in-memory authority too, unless it has no amount and
  -- changes nothing.
  settle-Matches :
      (task action : String) (n : ℕ) (db db' : Database) (m : Authority)
      → Agrees self allocation db m
      → settle self task action (exact n) db ≡ ok db'
      → (m' : Authority) × (settle_memory task action (exact n) m ≡ ok m')
        × Agrees self allocation db' m'
  unfolding settle settle_amount settle_found locked_allocation verify_task_owner settle_memory
      settle_row
  settle-Matches task action n db db' m agrees h =
      let (_, _, h2) = >>=-eq-ok (locked_allocation self db) _ h in
      let (_, h3) = raise_if-eq-ok _ _ _ h2 in
      let (row, e, h4) =
        >>=-eq-ok (or_raise _ (find (action_key self task action) db.reservations)) _ h3 in
      let place = or_raise-eq-ok _ _ _ e in
      let known : lookup action (rows_of m task) ≡ some row = agrees.rows task action ∙ place in
      rw known (settled_row row place h4)
    where
      settled_row :
          (row : Reservation)
          → find (action_key self task action) db.reservations ≡ some row
          → settle_found (action_key self task action) n row db ≡ ok db'
          → (m' : Authority) × (settle_row task action row (exact n) m ≡ ok m')
            × Agrees self allocation db' m'
      settled_row row place h = elim (Bool-cases row.settled) [
        | inl q ↦
            let (same, rest) =
              raise_if-eq-ok (not (elim row.actual [ none ↦ false | some paid ↦ paid == n ])) _ _
                (rw q at h) in
            rw (q, same)
              (m, refl, subst (λ d. Agrees self allocation d m) (ok-injective rest) agrees)
        | inr q ↦
            let paid : Reservation = record row { actual = some n; settled = true } in
            let kept = put_old-Agrees self allocation task action paid db m agrees row place in
            rw q (
              put_row task action paid m,
              refl,
              subst (λ d. Agrees self allocation d (put_row task action paid m))
                  (ok-injective (rw q at h)) kept,
            )
      ]

-- One transaction of the durable authority that commits.
pub data Moves (self : SqlAuthority) (db : Database) : Database → Type 0 where
  reserved :
      (task action : String) (price : Price) {granted : Bool} {db' : Database}
      → reserve self task action price db ≡ ok (granted, db')
      → Moves self db db'
  settled :
      (task action : String) (price : Price) {db' : Database}
      → settle self task action price db ≡ ok db'
      → Moves self db db'

pub data Runs (self : SqlAuthority) (db : Database) : Database → Type 0 where
  begun : Runs self db db
  moved : {db1 db2 : Database} → Runs self db db1 → Moves self db1 db2 → Runs self db db2

-- Reservations and settlements of an in-memory authority.
pub data RunsInMemory (m : Authority) : Authority → Type 0 where
  begun_memory : RunsInMemory m m
  reserved_memory :
      (task action : String) (price : Price) {n : Authority}
      → RunsInMemory m n
      → RunsInMemory m (reserve_memory task action price n).1
  settled_memory :
      (task action : String) (price : Price) {n k : Authority}
      → RunsInMemory m n
      → settle_memory task action price n ≡ ok k
      → RunsInMemory m k

module _ (self : SqlAuthority) (allocation : Allocation) where
  -- A run of the in-memory authority `m` that the durable one's database agrees with.
  pub Refines : Authority → Database → Type 0
  Refines m db = (m' : Authority) × RunsInMemory m m' × Agrees self allocation db m'

  move-Refines :
      (m : Authority) (db db' : Database) → Refines m db → Moves self db db' → Refines m db'
  unfolding Refines Related settle
  move-Refines m db db' (m', r, agrees) (reserved task action price {granted} h) =
      go granted (reserve-Matches self allocation task action price db m' (granted, db') agrees h)
    where
      go :
          (b : Bool)
          → Related self allocation m' (reserve_memory task action price m') (b, db')
          → (n : Authority) × RunsInMemory m n × Agrees self allocation db' n
      go true x = (_, reserved_memory task action price r, x.1)
      go false x = (m', r, x)
  move-Refines m db db' (m', r, agrees) (settled task action (exact n) h) =
      let (k, paid, kept) = settle-Matches self allocation task action n db db' m' agrees h in
      (k, settled_memory task action (exact n) r paid, kept)
  move-Refines m db db' (m', r, agrees) (settled task action absent h) =
      (m', r, subst (λ d. Agrees self allocation d m') (ok-injective h) agrees)
  move-Refines m db db' (m', r, agrees) (settled task action malformed h) = cc

  -- Where a database agrees with an in-memory authority, whatever reservations and settlements the
  -- durable authority commits, there is a run of reservations and settlements of the in-memory one
  -- after which the two agree again: on the rows and the debits of each task, and on its ceiling.
  pub Runs-Refines :
      (m : Authority) (db db' : Database)
      → Agrees self allocation db m
      → Runs self db db'
      → Refines m db'
  unfolding Refines
  Runs-Refines m db _ agrees begun = (m, begun_memory, agrees)
  Runs-Refines m db _ agrees (moved r step) = move-Refines m _ _ (Runs-Refines m db _ agrees r) step
