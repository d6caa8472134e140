-- ===== src/Execution/Lifecycle/Attempts.antt =====
-- `finish_attempt` of src/model_router/execution/lifecycle.py.
use openai_model_router.Prelude.{
  ℕ, ◌≤◌, ◌≡◌, ◌↔◌, refl, sym, ap, ◌∙◌, Option, none, some, Bool, true, false, not, ◌||◌, ◌==◌, Eq,
  nat_beq, nat_eq, ltb, arith, value_error, Raise, ok, raise_if, ◌>>◌, raise_if-eq-ok, ok-injective,
  beq→eq, beq_self,
}

pub data AttemptStatus : Type 0 where
  started succeeded failed unknown cancelled : AttemptStatus

abbrev pub attempt_index : AttemptStatus → ℕ
attempt_index AttemptStatus.started = 0
attempt_index AttemptStatus.succeeded = 1
attempt_index AttemptStatus.failed = 2
attempt_index AttemptStatus.unknown = 3
attempt_index AttemptStatus.cancelled = 4

pub attempt_iff :
    (a b : AttemptStatus) → (nat_beq (attempt_index a) (attempt_index b) ≡ true) ↔ (a ≡ b)
attempt_iff a b = ground arith

instance abbrev pub attempt_eq : Eq AttemptStatus
attempt_eq = record {
  same = λ a b. nat_beq (attempt_index a) (attempt_index b);
  same_iff = attempt_iff;
}

-- An attempt: the fields beside `started_at` that stay as they are as one value of type `A`, those
-- that a completion sets as one of type `B`.
pub record Attempt (A B : Type 0) : Type 0 where
  pub status : AttemptStatus
  pub admission : A
  pub started_at : ℕ
  pub completed_at : Option ℕ
  pub outcome : B

-- `completed_at is None or completed_at < started_at`
unfoldable pub is_before : Option ℕ → ℕ → Bool
is_before none start = true
is_before (some end) start = ltb end start

unfoldable pub finish_attempt :
    {A B : Type 0} ⦃e : Eq A⦄ → Attempt A B → Attempt A B → Raise (Attempt A B)
finish_attempt start end = do
  raise_if (not (start.status == AttemptStatus.started) || end.status == AttemptStatus.started)
      (value_error "attempt finalization requires started to terminal")
  raise_if (not (start.admission == end.admission) || not (start.started_at == end.started_at))
      (value_error "attempt identity and admission evidence are immutable")
  raise_if (is_before end.completed_at start.started_at)
      (value_error "attempt completion time is invalid")
  ok end

not_before : (o : Option ℕ) (n : ℕ) → is_before o n ≡ false → (t : ℕ) × (o ≡ some t) × (n ≤ t)
unfolding is_before
not_before none n h = cc
not_before (some t) n h = (t, refl, ground arith)

later-is_before : (o : Option ℕ) (t n : ℕ) → o ≡ some t → n ≤ t → is_before o n ≡ false
unfolding is_before
later-is_before o t n h l = rw h (ground arith)

module _ {A B : Type 0} ⦃e : Eq A⦄ where
  -- What a completion of an attempt keeps and sets.
  pub record Finishes (start end : Attempt A B) : Type 0 where
    pub was_started : start.status ≡ AttemptStatus.started
    pub is_final : (end.status == AttemptStatus.started) ≡ false
    pub same_admission : start.admission ≡ end.admission
    pub same_start : start.started_at ≡ end.started_at
    pub at : ℕ
    pub at_eq : end.completed_at ≡ some at
    pub later : start.started_at ≤ at

  -- Whatever `finish_attempt` accepts it returns as it is, and it accepts exactly the attempts that
  -- finish a started one: final, with the same admission, and completed no earlier than it started.
  pub finish_attempt-Finishes :
      (start end done : Attempt A B)
      → (finish_attempt start end ≡ ok done) ↔ ((done ≡ end) × Finishes start end)
  unfolding finish_attempt
  finish_attempt-Finishes start end done = (
    λ h.
        let (first, h1) =
          raise_if-eq-ok
            (not (start.status == AttemptStatus.started) || end.status == AttemptStatus.started) _ _
            h in
        let (same, h2) =
          raise_if-eq-ok
            (not (start.admission == end.admission) || not (start.started_at == end.started_at)) _ _
            h1 in
        let (timely, h3) = raise_if-eq-ok (is_before end.completed_at start.started_at) _ _ h2 in
        let (t, at_eq, later) = not_before end.completed_at start.started_at timely in
        (
          sym (ok-injective h3),
          record {
            was_started = beq→eq start.status AttemptStatus.started (ground arith);
            is_final = ground arith;
            same_admission = beq→eq start.admission end.admission (ground arith);
            same_start = beq→eq start.started_at end.started_at (ground arith);
            at = t;
            at_eq = at_eq;
            later = later;
          },
        ),
    λ (d, f).
        let was : (start.status == AttemptStatus.started) ≡ true =
          ap (λ x. x == AttemptStatus.started) f.was_started in
        let admission : (start.admission == end.admission) ≡ true =
          ap (λ x. x == end.admission) f.same_admission ∙ beq_self end.admission in
        let begun : (start.started_at == end.started_at) ≡ true =
          ap (λ x. x == end.started_at) f.same_start ∙ beq_self end.started_at in
        let timely = later-is_before end.completed_at f.at start.started_at f.at_eq f.later in
        rw (was, f.is_final, admission, begun, timely) (ap ok (sym d)),
  )
