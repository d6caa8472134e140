-- ===== src/Calibration/Journal/Bounded.antt =====
-- What the runs of a journal are charged stays within the allocation's ceiling and the overruns.
use openai_model_router.Prelude.{
  if◌then◌else◌, ◌==◌, ℕ, ◌+◌, ◌-◌, ◌≤◌, ◌≡◌, refl, subst, String, Raise, Option, none, some, List,
  [], ◌∷◌, not, arith, lookup, keys, all, sum, is_some, ok, >>=-eq-ok, raise_if-eq-ok, ok-injective,
  map, values, sum-insert_new, sum-insert_old,
}
use openai_model_router.Calibration.Journal.{
  RunStatus, status_eq, Run, State, CalibrationAllocation, last_state, is_own, check_history,
  open_ledger, new_run, with_run, append, charge, charged, remaining, has_uncertain, check_reserve,
  reserve, final_run, open_run, settle,
}
use openai_model_router.Calibration.Journal.Replays.{
  Written, blank, opened, reserved, settled, last-append, open_run-eq-ok, is_some-false,
}

-- What a run costs the allocation: its actual cost once it is settled, its reservation before that
-- and where the cost stays unknown.
abbrev cost_in : RunStatus → Option ℕ → ℕ → ℕ
cost_in RunStatus.reserved actual n = n
cost_in RunStatus.uncertain actual n = n
cost_in RunStatus.settled none n = 0
cost_in RunStatus.settled (some a) n = a

abbrev pub cost : Run → ℕ
cost run = cost_in run.status run.actual run.reserved

-- What all runs cost, and what they cost beyond their reservations.
abbrev pub due : State → ℕ
due state = sum (map cost (values state.runs))

abbrev pub overrun : State → ℕ
overrun state = sum (map (λ run. cost run - run.reserved) (values state.runs))

charge-cost : (run : Run) → charge run ≡ cost run
unfolding charge
charge-cost run = by_status run.status run.actual
  where
    by_status :
        (s : RunStatus) (a : Option ℕ)
        → (if s == RunStatus.settled then (elim a [ none ↦ 0 | some n ↦ n ]) else run.reserved)
          ≡ cost_in s a run.reserved
    by_status RunStatus.reserved a = refl
    by_status RunStatus.uncertain a = refl
    by_status RunStatus.settled none = refl
    by_status RunStatus.settled (some n) = refl

-- What a run is charged beyond its reservation.
abbrev excess : Run → ℕ
excess run = charge run - run.reserved

abbrev charged_over : State → ℕ
charged_over state = sum (map excess (values state.runs))

sum-charge : (runs : List Run) → sum (map charge runs) ≡ sum (map cost runs)
unfolding sum
sum-charge [] = refl
sum-charge (r ∷ rs) = omega (arith, charge-cost r, sum-charge rs)

sum-excess :
    (runs : List Run) → sum (map excess runs) ≡ sum (map (λ run. cost run - run.reserved) runs)
unfolding sum
sum-excess [] = refl
sum-excess (r ∷ rs) = omega (arith, charge-cost r, sum-excess rs)

module _ (self : CalibrationAllocation) where
  abbrev IsCharged : State → Type 0
  IsCharged st = charged st ≤ self.ceiling + charged_over st

  -- The last state of the journal, where there is one, is charged no more than the ceiling and the
  -- overruns.
  Affordable : List State → Type 0
  Affordable journal = elim journal [ [] ↦ Unit | s ∷ ss ↦ IsCharged (last_state s ss) ]

  Affordable-append :
      (journal : List State) (t : State) → IsCharged t → Affordable (append journal t)
  unfolding Affordable last_state
  Affordable-append [] t h = h
  Affordable-append (s ∷ ss) t h = rw (last-append self s t ss) h

  opened-IsCharged :
      (journal : List State) (ledger : State × List State)
      → open_ledger self journal ≡ ok ledger
      → Affordable journal
      → IsCharged ledger.0 × Affordable ledger.1
  unfolding open_ledger Affordable charged sum last_state
  opened-IsCharged [] ledger h a =
      subst (λ l. IsCharged l.0 × Affordable l.1) (ok-injective h) (omega arith, omega arith)
  opened-IsCharged (s ∷ ss) ledger h a =
      let (_, h1) = raise_if-eq-ok (not (all (is_own self) (s ∷ ss))) _ _ h in
      let (_, _, h2) = >>=-eq-ok (check_history s ss) _ h1 in
      let (_, h3) = raise_if-eq-ok (not (all self.is_safe (keys (last_state s ss).runs))) _ _ h2 in
      subst (λ l. IsCharged l.0 × Affordable l.1) (ok-injective h3) (a, a)

  new-IsCharged :
      (id : String) (n : ℕ) (st : State)
      → lookup id st.runs ≡ none
      → n ≤ self.ceiling - charged st
      → IsCharged st
      → IsCharged (with_run id (new_run n) st)
  unfolding charged charge
  new-IsCharged id n st h fits bound = omega (
    arith,
    sum-insert_new charge id (new_run n) st.runs h,
    sum-insert_new excess id (new_run n) st.runs h,
    fits,
    bound,
  )

  reserve-Affordable :
      (id : String) (n : ℕ) (journal written : List State)
      → Affordable journal
      → reserve self id n journal ≡ ok written
      → Affordable written
  unfolding reserve check_reserve remaining
  reserve-Affordable id n journal written a h =
      let (_, h1) = raise_if-eq-ok (not (self.is_safe id)) _ _ h in
      let (ledger, opens, h2) = >>=-eq-ok (open_ledger self journal) _ h1 in
      let (_, checked, h3) = >>=-eq-ok (check_reserve self id n ledger.0) _ h2 in
      let (fresh, c1) = raise_if-eq-ok (is_some (lookup id ledger.0.runs)) _ _ checked in
      let (_, c2) = raise_if-eq-ok (has_uncertain ledger.0) _ _ c1 in
      let fits : n ≤ self.ceiling - charged ledger.0 = ground (arith, c2) in
      subst Affordable (ok-injective h3) (
        Affordable-append ledger.1 _ (
          new-IsCharged id n ledger.0 (is_some-false self (lookup id ledger.0.runs) fresh) fits
            (opened-IsCharged journal ledger opens a).0))

  final-IsCharged :
      (id : String) (run : Run) (actual : Option ℕ) (st : State)
      → lookup id st.runs ≡ some run
      → run.status ≡ RunStatus.reserved
      → IsCharged st
      → IsCharged (with_run id (final_run run actual) st)
  unfolding charged charge
  final-IsCharged id run actual st h r bound = omega (
    arith,
    sum-insert_old charge id (final_run run actual) run st.runs h,
    sum-insert_old excess id (final_run run actual) run st.runs h,
    held,
    added actual,
    bound,
  )
    where
      held : charge run ≡ run.reserved
      held = rw r refl

      added :
          (actual : Option ℕ)
          → charge (final_run run actual) ≤ run.reserved + excess (final_run run actual)
      added none = omega arith
      added (some n) = omega arith

  settle-Affordable :
      (id : String) (actual : Option ℕ) (journal : List State) (out : List State × Raise (Unit {0}))
      → Affordable journal
      → settle self id actual journal ≡ ok out
      → Affordable out.0
  unfolding settle
  settle-Affordable id actual journal out a h =
      let (ledger, opens, h2) = >>=-eq-ok (open_ledger self journal) _ h in
      let (run, e, h3) = >>=-eq-ok (open_run (lookup id ledger.0.runs)) _ h2 in
      let (found, status) = open_run-eq-ok self _ run e in
      subst (λ r. Affordable r.0) (ok-injective h3)
        (Affordable-append ledger.1 _ (
          final-IsCharged id run actual ledger.0 found status
            (opened-IsCharged journal ledger opens a).0))

Written-Affordable :
    (self : CalibrationAllocation) (journal : List State)
    → Written self journal
    → Affordable self journal
unfolding Affordable
Written-Affordable self _ blank = tt
Written-Affordable self _ (opened {journal = journal} {ledger = ledger} r h) =
    (opened-IsCharged self journal ledger h (Written-Affordable self _ r)).1
Written-Affordable self _ (reserved id n r h) =
    reserve-Affordable self id n _ _ (Written-Affordable self _ r) h
Written-Affordable self _ (settled id actual r h) =
    settle-Affordable self id actual _ _ (Written-Affordable self _ r) h

-- Where a journal that reservations and settlements write opens, its runs are charged what they cost:
-- the actual cost of a settled run, the whole reservation of any other. That is at most the
-- allocation's ceiling and what the runs cost beyond their reservations.
pub Written-charged :
    (self : CalibrationAllocation) (journal : List State) (ledger : State × List State)
    → Written self journal
    → open_ledger self journal ≡ ok ledger
    → (charged ledger.0 ≡ due ledger.0) × (due ledger.0 ≤ self.ceiling + overrun ledger.0)
unfolding charged
Written-charged self journal ledger written opens =
    let runs = values ledger.0.runs in
    let bound : IsCharged self ledger.0 =
      (opened-IsCharged self journal ledger opens (Written-Affordable self journal written)).0 in
    (sum-charge runs, omega (arith, sum-charge runs, sum-excess runs, bound))
