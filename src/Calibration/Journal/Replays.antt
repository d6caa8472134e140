-- ===== src/Calibration/Journal/Replays.antt =====
-- The journal that `reserve` and `settle` write opens again.
use openai_model_router.Prelude.{
  ℕ, ◌≡◌, ◌≢◌, refl, sym, ap, subst, ◌∙◌, String, Option, none, some, List, [], ◌∷◌, ◌++◌, true,
  false, not, ◌==◌, beq→eq, beq_self, eq_iff, string_eq, nat_eq, Bool-cases, inl, inr, arith, Dict,
  lookup, insert, lookup-insert, keys, all, is_some, Raise, ok, >>=-eq-ok, raise_if-eq-ok,
  ok-injective, HasDistinctKeys, no_keys, HasDistinctKeys-insert,
}
use openai_model_router.Calibration.Journal.{
  RunStatus, status_eq, Run, State, CalibrationAllocation, is_mismatched, check_entry,
  check_changed, changed, validate_transition, check_history, last_state, is_own, first_state,
  open_ledger, new_run, with_run, append, check_reserve, reserve, final_run, open_run, settle,
}
use openai_model_router.Calibration.Journal.Dicts.{changed-new, changed-old, keys-kept}

module _ (self : CalibrationAllocation) where
  -- A journal that opens, whose last state has no repeated run.
  pub record IsValid (s : State) (ss : List State) : Type 0 where
    pub own : all (is_own self) (s ∷ ss) ≡ true
    pub history : check_history s ss ≡ ok tt
    pub safe : all self.is_safe (keys (last_state s ss).runs) ≡ true
    pub distinct : HasDistinctKeys (last_state s ss).runs

  pub ValidJournal : List State → Type 0
  ValidJournal journal = elim journal [ [] ↦ Unit | s ∷ ss ↦ IsValid s ss ]

  pub last-append : (s t : State) (ss : List State) → last_state s (ss ++ t ∷ []) ≡ t
  unfolding last_state
  last-append s t [] = refl
  last-append s t (u ∷ us) = last-append u t us

  history-append :
      (s t : State) (ss : List State)
      → check_history s ss ≡ ok tt
      → validate_transition (last_state s ss) t ≡ ok tt
      → check_history s (ss ++ t ∷ []) ≡ ok tt
  unfolding last_state check_history
  history-append s t [] h v = rw v refl
  history-append s t (u ∷ us) h v =
      let (_, first, rest) = >>=-eq-ok (validate_transition s u) _ h in
      rw first (history-append u t us rest v)

  own-append :
      (t : State) (ss : List State)
      → all (is_own self) ss ≡ true
      → is_own self t ≡ true
      → all (is_own self) (ss ++ t ∷ []) ≡ true
  unfolding all
  own-append t [] h o = ground arith
  own-append t (u ∷ us) h o = ground (arith, own-append t us)

  append-IsValid :
      (s t : State) (ss : List State)
      → IsValid s ss
      → validate_transition (last_state s ss) t ≡ ok tt
      → is_own self t ≡ true
      → all self.is_safe (keys t.runs) ≡ true
      → HasDistinctKeys t.runs
      → IsValid s (ss ++ t ∷ [])
  append-IsValid s t ss valid v own safe distinct = record {
    own = own-append t (s ∷ ss) valid.own own;
    history = history-append s t ss valid.history v;
    safe = rw (last-append s t ss) safe;
    distinct = rw (last-append s t ss) distinct;
  }

  -- Opening a valid journal gives one that is not empty, with its last state.
  pub record Opened (journal : List State) (ledger : State × List State) : Type 0 where
    pub head : State
    pub tail : List State
    pub lines : ledger.1 ≡ head ∷ tail
    pub last : ledger.0 ≡ last_state head tail
    pub valid : IsValid head tail

  first-IsValid : IsValid (first_state self) []
  unfolding all is_own check_history last_state
  first-IsValid = record {
    own = ground (arith, eq_iff self.allocation_id self.allocation_id);
    history = refl;
    safe = refl;
    distinct = no_keys;
  }

  pub open_ledger-Opened :
      (journal : List State)
      → ValidJournal journal
      → (ledger : State × List State) × (open_ledger self journal ≡ ok ledger)
        × Opened journal ledger
  unfolding open_ledger ValidJournal last_state
  open_ledger-Opened [] valid = (
    _,
    refl,
    record { head = first_state self; tail = []; lines = refl; last = refl; valid = first-IsValid },
  )
  open_ledger-Opened (s ∷ ss) valid = (
    (last_state s ss, s ∷ ss),
    rw valid.own (rw valid.history (rw valid.safe refl)),
    record { head = s; tail = ss; lines = refl; last = refl; valid = valid },
  )

  own-last :
      (s : State) (ss : List State)
      → all (is_own self) (s ∷ ss) ≡ true
      → is_own self (last_state s ss) ≡ true
  unfolding all last_state
  own-last s [] h = ground arith
  own-last s (u ∷ us) h = own-last u us (ground arith)

  transition-with_run :
      (st : State) (id : String) (v : Run)
      → changed st.runs (insert id v st.runs) ≡ id ∷ []
      → check_entry (lookup id st.runs) (some v) ≡ ok tt
      → validate_transition st (with_run id v st) ≡ ok tt
  unfolding validate_transition check_changed
  transition-with_run st id v c e = rw (beq_self st.allocation_id) (
      rw (beq_self st.ceiling) (
        rw (keys-kept id v st.runs)
          (rw c (rw (lookup-insert id id v st.runs) (rw (beq_self id) e)))))

  safe-insert :
      (id : String) (v : Run) (d : Dict Run)
      → self.is_safe id ≡ true
      → all self.is_safe (keys d) ≡ true
      → all self.is_safe (keys (insert id v d)) ≡ true
  unfolding all insert
  safe-insert id v [] h k = ground arith
  safe-insert id v ((j, w) ∷ d) h k = elim (Bool-cases (j == id)) [
    | inl q ↦ rw q (ground arith)
    | inr q ↦ rw q (ground (arith, safe-insert id v d h))
  ]

  safe-lookup :
      (id : String) (old : Run) (d : Dict Run)
      → lookup id d ≡ some old
      → all self.is_safe (keys d) ≡ true
      → self.is_safe id ≡ true
  unfolding all lookup
  safe-lookup id old [] h k = absurd (ground arith)
  safe-lookup id old ((j, w) ∷ d) h k = elim (Bool-cases (j == id)) [
    | inl q ↦ subst (λ x. self.is_safe x ≡ true) (beq→eq j id q) (ground arith)
    | inr q ↦ safe-lookup id old d (rw q at h) (ground arith)
  ]

  -- Writing a changed entry into the last state keeps the journal valid.
  write-Valid :
      (journal : List State) (ledger : State × List State) (id : String) (v : Run)
      → Opened journal ledger
      → changed ledger.0.runs (insert id v ledger.0.runs) ≡ id ∷ []
      → check_entry (lookup id ledger.0.runs) (some v) ≡ ok tt
      → self.is_safe id ≡ true
      → ValidJournal (append ledger.1 (with_run id v ledger.0))
  unfolding ValidJournal is_own
  write-Valid journal ledger id v o c e safe =
      let valid = o.valid in
      let last = o.last in
      let written : State = with_run id v (last_state o.head o.tail) in
      subst (λ l. ValidJournal (append l (with_run id v ledger.0))) (sym o.lines)
        (subst (λ st. IsValid o.head (o.tail ++ with_run id v st ∷ [])) (sym last)
          (append-IsValid o.head written o.tail valid
            (transition-with_run (last_state o.head o.tail) id v
              (subst (λ st. changed st.runs (insert id v st.runs) ≡ id ∷ []) last c)
              (subst (λ st. check_entry (lookup id st.runs) (some v) ≡ ok tt) last e))
            (own-last o.head o.tail valid.own)
            (safe-insert id v (last_state o.head o.tail).runs safe valid.safe)
            (HasDistinctKeys-insert id v (last_state o.head o.tail).runs valid.distinct)))

  pub is_some-false : {A : Type 0} (o : Option A) → is_some o ≡ false → o ≡ none
  is_some-false none h = refl
  is_some-false (some a) h = absurd (ground arith)

  -- What opening leaves is valid.
  opened-Valid :
      (journal : List State) (ledger : State × List State)
      → ValidJournal journal
      → open_ledger self journal ≡ ok ledger
      → ValidJournal ledger.1
  unfolding ValidJournal
  opened-Valid journal ledger valid h =
      let (other, same, o) = open_ledger-Opened journal valid in
      let ledgers : other ≡ ledger = ok-injective (sym same ∙ h) in
      let opened = subst (Opened journal) ledgers o in
      subst ValidJournal (sym opened.lines) opened.valid

  -- A reservation that succeeds writes an entry for a run that had none.
  reserve-Valid :
      (id : String) (n : ℕ) (journal written : List State)
      → ValidJournal journal
      → reserve self id n journal ≡ ok written
      → ValidJournal written
  unfolding reserve check_reserve check_entry
  reserve-Valid id n journal written valid h =
      let (safe, h1) = raise_if-eq-ok (not (self.is_safe id)) _ _ h in
      let (ledger, opens, h2) = >>=-eq-ok (open_ledger self journal) _ h1 in
      let (other, same, o) = open_ledger-Opened journal valid in
      let ledgers : other ≡ ledger = ok-injective (sym same ∙ opens) in
      let (_, checked, h3) = >>=-eq-ok (check_reserve self id n ledger.0) _ h2 in
      let (fresh, _) = raise_if-eq-ok (is_some (lookup id ledger.0.runs)) _ _ checked in
      let absent = is_some-false (lookup id ledger.0.runs) fresh in
      subst ValidJournal (ok-injective h3) (
        write-Valid journal ledger id (new_run n) (subst (Opened journal) ledgers o)
          (changed-new id (new_run n) ledger.0.runs absent) (rw absent refl) (ground arith))

  final_run-differs :
      (run : Run) (actual : Option ℕ) → run.status ≡ RunStatus.reserved → run ≢ final_run run actual
  final_run-differs run none h e = let moved = ap (λ r. r.status) e in ground arith
  final_run-differs run (some n) h e = let moved = ap (λ r. r.status) e in ground arith

  final_run-checked :
      (run : Run) (actual : Option ℕ)
      → run.status ≡ RunStatus.reserved
      → check_entry (some run) (some (final_run run actual)) ≡ ok tt
  unfolding check_entry is_mismatched
  final_run-checked run none h = rw (h, beq_self run.reserved) refl
  final_run-checked run (some n) h = rw (h, beq_self run.reserved) refl

  pub open_run-eq-ok :
      (o : Option Run) (run : Run)
      → open_run o ≡ ok run
      → (o ≡ some run) × (run.status ≡ RunStatus.reserved)
  unfolding open_run
  open_run-eq-ok none run h = cc
  open_run-eq-ok (some r) run h =
      let (status, same) = raise_if-eq-ok (not (r.status == RunStatus.reserved)) _ _ h in
      let is_reserved : r.status ≡ RunStatus.reserved = ground arith in
      (
        ap some (ok-injective same),
        subst (λ x. x.status ≡ RunStatus.reserved) (ok-injective same) is_reserved,
      )

  settle-Valid :
      (id : String) (actual : Option ℕ) (journal : List State) (out : List State × Raise (Unit {0}))
      → ValidJournal journal
      → settle self id actual journal ≡ ok out
      → ValidJournal out.0
  unfolding settle
  settle-Valid id actual journal out valid h =
      let (ledger, opens, h2) = >>=-eq-ok (open_ledger self journal) _ h in
      let (other, same, o) = open_ledger-Opened journal valid in
      let ledgers : other ≡ ledger = ok-injective (sym same ∙ opens) in
      let opened = subst (Opened journal) ledgers o in
      let (run, e, h3) = >>=-eq-ok (open_run (lookup id ledger.0.runs)) _ h2 in
      let (found, status) = open_run-eq-ok _ run e in
      let distinct =
        subst (λ st. HasDistinctKeys st.runs) (sym opened.last) opened.valid.distinct in
      let safe =
        subst (λ st. all self.is_safe (keys st.runs) ≡ true) (sym opened.last) opened.valid.safe in
      subst (λ r. ValidJournal r.0) (ok-injective h3)
        (write-Valid journal ledger id (final_run run actual) opened
          (changed-old id (final_run run actual) run ledger.0.runs distinct found
            (final_run-differs run actual status))
          (rw found (final_run-checked run actual status))
          (safe-lookup id run ledger.0.runs found safe))

-- The journals that reservations and settlements write, the settlements included that raise after
-- they have written, and those that opening the file leaves, as every other call does, raising
-- reservations and settlements included.
pub data Written (self : CalibrationAllocation) : List State → Type 0 where
  blank : Written self []
  opened :
      {journal : List State} {ledger : State × List State}
      → Written self journal
      → open_ledger self journal ≡ ok ledger
      → Written self ledger.1
  reserved :
      (id : String) (n : ℕ) {journal written : List State}
      → Written self journal
      → reserve self id n journal ≡ ok written
      → Written self written
  settled :
      (id : String) (actual : Option ℕ) {journal written : List State} {raised : Raise (Unit {0})}
      → Written self journal
      → settle self id actual journal ≡ ok (written, raised)
      → Written self written

pub Written-Valid :
    (self : CalibrationAllocation) (journal : List State)
    → Written self journal
    → ValidJournal self journal
unfolding ValidJournal
Written-Valid self _ blank = tt
Written-Valid self _ (opened {ledger = ledger} r h) =
    opened-Valid self _ ledger (Written-Valid self _ r) h
Written-Valid self _ (reserved id n r h) = reserve-Valid self id n _ _ (Written-Valid self _ r) h
Written-Valid self _ (settled id actual r h) =
    settle-Valid self id actual _ _ (Written-Valid self _ r) h

-- Every journal that reservations and settlements write opens again: each line has the allocation's
-- identity and ceiling, each pair of lines is a transition that `_validate_transition` accepts, and
-- every run's identifier is safe.
pub Written-opens :
    (self : CalibrationAllocation) (journal : List State)
    → Written self journal
    → (ledger : State × List State) × (open_ledger self journal ≡ ok ledger)
Written-opens self journal w =
    let (ledger, opens, _) = open_ledger-Opened self journal (Written-Valid self journal w) in
    (ledger, opens)
