-- ===== src/Calibration/Journal.antt =====
-- `CalibrationAllocation` of src/model_router/calibration/budget.py. A journal is the list of the
-- states that its lines hold, oldest first; locking the file makes each operation one step. The file
-- itself, its paths and its text are left out.
pub mod Dicts
pub mod Replays
pub mod Bounded
use openai_model_router.Prelude.{
  ℕ, ◌+◌, ◌-◌, String, Option, none, some, List, [], ◌∷◌, ◌++◌, Bool, true, false, ◌&&◌, ◌||◌, not,
  ◌==◌, Eq, ◌≡◌, ◌↔◌, arith, string_eq, nat_eq, option_eq, option_same_iff, nat_beq, nat_equal_iff,
  ltb, map, sum, select, any, all, is_some, Dict, lookup, insert, keys, values, length,
  if◌then◌else◌, Raise, ok, raise, raise_if, ◌>>=◌, ◌>>◌, value_error,
}

pub data RunStatus : Type 0 where
  reserved settled uncertain : RunStatus

abbrev pub status_index : RunStatus → ℕ
status_index reserved = 0
status_index settled = 1
status_index uncertain = 2

pub status_iff : (a b : RunStatus) → (nat_beq (status_index a) (status_index b) ≡ true) ↔ (a ≡ b)
status_iff a b = ground arith

instance abbrev pub status_eq : Eq RunStatus
status_eq = record {
  same = λ a b. nat_beq (status_index a) (status_index b);
  same_iff = status_iff;
}

-- The entry of a run.
pub record Run : Type 0 where
  pub reserved : ℕ
  pub actual : Option ℕ
  pub status : RunStatus

abbrev pub run_same : Run → Run → Bool
run_same a b = a.reserved == b.reserved && (a.actual == b.actual && a.status == b.status)

pub run_iff : (a b : Run) → (run_same a b ≡ true) ↔ (a ≡ b)
run_iff a b = ground (
  arith,
  nat_equal_iff a.reserved b.reserved,
  option_same_iff a.actual b.actual,
  status_iff a.status b.status,
)

instance abbrev pub run_eq : Eq Run
run_eq = record { same = run_same; same_iff = run_iff }

-- One line of the journal.
pub record State : Type 0 where
  pub allocation_id : String
  pub ceiling : ℕ
  pub runs : Dict Run

-- `CalibrationAllocation`. `is_safe` is the check of an identifier.
pub record CalibrationAllocation : Type 0 where
  pub allocation_id : String
  pub ceiling : ℕ
  pub is_safe : String → Bool

-- `key not in before or before[key] != after[key]`, for a key of `after`
unfoldable pub is_changed : Dict Run → Dict Run → String → Bool
is_changed before after key = not (lookup key before == lookup key after)

unfoldable pub changed : Dict Run → Dict Run → List String
changed before after = select (is_changed before after) (keys after)

-- `(new['status'] == 'uncertain') != (new['actual'] is None)`
unfoldable pub is_mismatched : Run → Bool
is_mismatched new = if new.status == uncertain then is_some new.actual else not (is_some new.actual)

-- The checks of the entry that changed.
unfoldable pub check_entry : Option Run → Option Run → Raise (Unit {0})
check_entry old none = raise (value_error "allocation journal must record one transition")
check_entry none (some new) =
    raise_if (not (new.status == reserved) || is_some new.actual)
      (value_error "allocation must reserve before settlement")
check_entry (some old) (some new) =
    raise_if
      (not (old.status == reserved)
        || (not (new.reserved == old.reserved) || (new.status == reserved || is_mismatched new)))
      (value_error "allocation history is immutable after settlement")

unfoldable pub check_changed : Dict Run → Dict Run → List String → Raise (Unit {0})
check_changed before after [] = raise (value_error "allocation journal must record one transition")
check_changed before after (key ∷ []) = check_entry (lookup key before) (lookup key after)
check_changed before after (key ∷ other ∷ more) =
    raise (value_error "allocation journal must record one transition")

-- `_validate_transition`
unfoldable pub validate_transition : State → State → Raise (Unit {0})
validate_transition previous current = do
  raise_if
      (not (previous.allocation_id == current.allocation_id)
        || (not (previous.ceiling == current.ceiling)
            || not (all (λ key. is_some (lookup key current.runs)) (keys previous.runs))))
      (value_error "allocation history cannot reset or remove runs")
  check_changed previous.runs current.runs (changed previous.runs current.runs)

-- The pairs of `zip(states, states[1:])`, after the state before them.
unfoldable pub check_history : State → List State → Raise (Unit {0})
check_history state [] = ok tt
check_history state (next ∷ states) = validate_transition state next >> check_history next states

unfoldable pub last_state : State → List State → State
last_state state [] = state
last_state state (next ∷ states) = last_state next states

unfoldable pub is_own : CalibrationAllocation → State → Bool
is_own self state = state.allocation_id == self.allocation_id && state.ceiling == self.ceiling

abbrev pub first_state : CalibrationAllocation → State
first_state self = record { allocation_id = self.allocation_id; ceiling = self.ceiling; runs = [] }

-- `__init__`
unfoldable pub new_allocation : (String → Bool) → String → ℕ → Raise CalibrationAllocation
new_allocation is_safe allocation ceiling = do
  raise_if (not (is_safe allocation)) (value_error "identifier must be a portable identifier")
  raise_if (ceiling == 0) (value_error "allocation ceiling must be positive")
  ok (record { allocation_id = allocation; ceiling = ceiling; is_safe = is_safe })

-- `_ledger`: the last state, and the journal, which an empty one begins
unfoldable pub open_ledger : CalibrationAllocation → List State → Raise (State × List State)
open_ledger self [] = ok (first_state self, first_state self ∷ [])
open_ledger self (state ∷ states) = do
  raise_if (not (all (is_own self) (state ∷ states)))
      (value_error "allocation identity or ceiling changed")
  check_history state states
  raise_if (not (all self.is_safe (keys (last_state state states).runs)))
      (value_error "identifier must be a portable identifier")
  ok (last_state state states, state ∷ states)

-- What a run is charged, and `_remaining`.
unfoldable pub charge : Run → ℕ
charge run =
    if run.status == settled then (elim run.actual [ none ↦ 0 | some n ↦ n ]) else run.reserved

unfoldable pub charged : State → ℕ
charged state = sum (map charge (values state.runs))

unfoldable pub remaining : CalibrationAllocation → State → ℕ
remaining self state = self.ceiling - charged state

unfoldable pub is_uncertain : Run → Bool
is_uncertain run = run.status == uncertain

unfoldable pub has_uncertain : State → Bool
has_uncertain state = any is_uncertain (values state.runs)

abbrev pub new_run : ℕ → Run
new_run n = record { reserved = n; actual = none; status = reserved }

abbrev pub with_run : String → Run → State → State
with_run id run state = record state { runs = insert id run state.runs }

-- `_append`
abbrev pub append : List State → State → List State
append journal state = journal ++ state ∷ []

unfoldable pub check_reserve : CalibrationAllocation → String → ℕ → State → Raise (Unit {0})
check_reserve self id n state = do
  raise_if (is_some (lookup id state.runs)) (value_error "run allocation cannot be replayed")
  raise_if (has_uncertain state) (value_error "allocation has unresolved cost")
  raise_if (ltb (remaining self state) n) (value_error "run bound exceeds remaining allocation")

-- `reserve` for a valid amount: the new journal. Where it raises, the file is as `open_ledger` leaves
-- it if it was opened, and as it was if not.
unfoldable pub reserve : CalibrationAllocation → String → ℕ → List State → Raise (List State)
reserve self id n journal = do
  raise_if (not (self.is_safe id)) (value_error "identifier must be a portable identifier")
  open_ledger self journal >>= (λ ledger.
      check_reserve self id n ledger.0 >> ok (append ledger.1 (with_run id (new_run n) ledger.0)))

-- `assert_ready`
unfoldable pub is_ready : String → State → Bool
is_ready id state =
    (elim (lookup id state.runs) [ none ↦ false | some run ↦ run.status == reserved ])
    && not (has_uncertain state)

unfoldable pub assert_ready : CalibrationAllocation → String → List State → Raise (Unit {0})
assert_ready self id journal = open_ledger self journal >>= (λ ledger.
    raise_if (not (is_ready id ledger.0))
      (value_error "allocation is not available for paid execution"))

-- The entry of a run that `settle` finalizes.
abbrev pub final_run : Run → Option ℕ → Run
final_run run none = record run { actual = none; status = uncertain }
final_run run (some n) = record run { actual = some n; status = settled }

unfoldable pub open_run : Option Run → Raise Run
open_run none = raise (value_error "run allocation is already final or missing")
open_run (some run) =
    raise_if (not (run.status == reserved))
      (value_error "run allocation is already final or missing")
    >> ok run

-- `settle`, for an amount or none: the journal that it leaves. Where it raises before it writes, the
-- file is as `open_ledger` leaves it. The second part is what it raises
-- after the journal is written, where the amount exceeds the reservation.
unfoldable pub settle :
    CalibrationAllocation → String → Option ℕ → List State → Raise (List State × Raise (Unit {0}))
settle self id actual journal = open_ledger self journal >>= (λ ledger.
    open_run (lookup id ledger.0.runs) >>= (λ run. ok (
      append ledger.1 (with_run id (final_run run actual) ledger.0),
      raise_if (elim actual [ none ↦ false | some n ↦ ltb run.reserved n ])
          (value_error "actual cost exceeded allocated bound"),
    )))
