-- ===== src/Execution/Lifecycle/Histories.antt =====
-- The statuses that a task passes through.
use openai_model_router.Prelude.{
  ℕ, ◌≡◌, ◌≢◌, ◌∙◌, refl, subst, sym, ap, Bool, true, false, List, [], ◌∷◌, In, here, there,
  In-singleton, contains, contains→In, not, arith, ok, raise_if-eq-ok, ok-injective,
}
use openai_model_router.Execution.Lifecycle.{
  TaskStatus, status_eq, is_terminal, next_of, permitted_next, Task, transition,
}

-- The tasks that transitions make of a task, with the statuses that were passed, latest first.
pub data History {A : Type 0} (start : Task A) : List TaskStatus → Task A → Type 0 where
  begun : History start (start.status ∷ []) start
  moved :
      {statuses : List TaskStatus} {t u : Task A} (status : TaskStatus) (now : ℕ) (changes : A → A)
      → History start statuses t
      → transition t status now changes ≡ ok u
      → History start (status ∷ statuses) u

-- What the passed statuses contain, by the current one.
pub Passed : List TaskStatus → TaskStatus → Type 0
Passed statuses status = elim status [
  | TaskStatus.admitted ↦ In TaskStatus.admitted statuses
  | TaskStatus.running ↦ In TaskStatus.admitted statuses × In TaskStatus.running statuses
  | TaskStatus.validating ↦
      In TaskStatus.admitted statuses
      × In TaskStatus.running statuses
      × In TaskStatus.validating statuses
  | TaskStatus.recovering ↦ In TaskStatus.admitted statuses × In TaskStatus.running statuses
  | TaskStatus.succeeded ↦
      In TaskStatus.admitted statuses
      × In TaskStatus.running statuses
      × In TaskStatus.validating statuses
  | _ ↦ Unit
]

-- A property of every member of a list, from its members one by one.
In-cons :
    {A : Type 0} (P : A → Type 0) (x : A) (xs : List A)
    → P x
    → ((a : A) → In a xs → P a)
    → (a : A) → In a (x ∷ xs)
    → P a
In-cons P x xs p rest a (here q) = subst P (sym q) p
In-cons P x xs p rest a (there m) = rest a m

In-nil : {A : Type 0} (P : A → Type 0) (a : A) → In a [] → P a
In-nil P a m = elim m [ ]

abbrev ended : List TaskStatus
ended = TaskStatus.failed ∷ TaskStatus.blocked ∷ TaskStatus.cancelled ∷ []

module _ (statuses : List TaskStatus) where
  abbrev After : TaskStatus → Type 0
  After new = Passed (new ∷ statuses) new

  After-ended : (new : TaskStatus) → In new ended → After new
  unfolding Passed
  After-ended = In-cons After TaskStatus.failed _ tt (
      In-cons After TaskStatus.blocked _ tt
        (In-cons After TaskStatus.cancelled [] tt (In-nil After)))

  Passed-next :
      (old new : TaskStatus)
      → In new (permitted_next old)
      → is_terminal old ≡ false
      → Passed statuses old
      → After new
  unfolding Passed permitted_next next_of is_terminal
  Passed-next TaskStatus.created new m live p =
      In-cons After TaskStatus.classified ended tt After-ended new m
  Passed-next TaskStatus.classified new m live p =
      In-cons After TaskStatus.routed ended tt After-ended new m
  Passed-next TaskStatus.routed new m live p =
      In-cons After TaskStatus.admitted ended (here refl) After-ended new m
  Passed-next TaskStatus.admitted new m live p =
      In-cons After TaskStatus.running ended (there p, here refl) After-ended new m
  Passed-next TaskStatus.running new m live (a, r) =
      In-cons After TaskStatus.validating _ (there a, there r, here refl)
        (In-cons After TaskStatus.recovering ended (there a, there r) After-ended) new m
  Passed-next TaskStatus.validating new m live (a, r, v) =
      In-cons After TaskStatus.succeeded _ (there a, there r, there v)
        (In-cons After TaskStatus.recovering ended (there a, there r) After-ended) new m
  Passed-next TaskStatus.recovering new m live (a, r) =
      In-cons After TaskStatus.routed _ tt
        (In-cons After TaskStatus.validating ended (there a, there r, here refl) After-ended) new m
  Passed-next TaskStatus.succeeded new m live p = absurd (ground arith)
  Passed-next TaskStatus.failed new m live p = absurd (ground arith)
  Passed-next TaskStatus.blocked new m live p = absurd (ground arith)
  Passed-next TaskStatus.cancelled new m live p = absurd (ground arith)

-- A transition that is accepted leaves a status that is not terminal for a permitted one.
record Moves {A : Type 0} (t u : Task A) (status : TaskStatus) : Type 0 where
  live : is_terminal t.status ≡ false
  permitted : In status (permitted_next t.status)
  reached : u.status ≡ status

transition-Moves :
    {A : Type 0} (t u : Task A) (status : TaskStatus) (now : ℕ) (changes : A → A)
    → transition t status now changes ≡ ok u
    → Moves t u status
unfolding transition
transition-Moves t u status now changes h =
    let (live, h1) = raise_if-eq-ok (is_terminal t.status) _ _ h in
    let (listed, h2) = raise_if-eq-ok (not (contains status (permitted_next t.status))) _ _ h1 in
    record {
      live = live;
      permitted = contains→In status _ (not-false _ listed);
      reached = ap (λ (v : Task _). v.status) (sym (ok-injective h2));
    }
  where
    not-false : (b : Bool) → not b ≡ false → b ≡ true
    not-false true q = refl
    not-false false q = absurd (ground arith)

-- For a task that starts as created, the statuses passed by accepted transitions contain admitted
-- where the current one is admitted, also running where it is running or recovering, and also
-- validating where it is validating or succeeded.
pub History-Passed :
    {A : Type 0} (start : Task A) (statuses : List TaskStatus) (t : Task A)
    → start.status ≡ TaskStatus.created
    → History start statuses t
    → Passed statuses t.status
unfolding Passed
History-Passed start _ _ e begun = rw e tt
History-Passed start _ u e (moved {statuses = ss} {t = t} status now changes h step) =
    let m = transition-Moves t u status now changes step in
    subst (Passed (status ∷ ss)) (sym m.reached)
      (Passed-next ss t.status status m.permitted m.live (History-Passed start ss t e h))

-- The statuses that end a task.
abbrev pub final : List TaskStatus
final = TaskStatus.succeeded ∷ TaskStatus.failed ∷ TaskStatus.blocked ∷ TaskStatus.cancelled ∷ []

final-is_terminal : (s : TaskStatus) → In s final → is_terminal s ≡ true
unfolding is_terminal
final-is_terminal = In-cons _ TaskStatus.succeeded _ refl (
    In-cons _ TaskStatus.failed _ refl
      (In-cons _ TaskStatus.blocked _ refl (In-cons _ TaskStatus.cancelled [] refl (In-nil _))))

final-stuck :
    {A : Type 0} (t u : Task A) (status : TaskStatus) (now : ℕ) (changes : A → A)
    → In t.status final
    → transition t status now changes ≢ ok u
final-stuck t u status now changes n step =
    let live = (transition-Moves t u status now changes step).live in
    let ended = final-is_terminal t.status n in clash (sym live ∙ ended)
  where
    clash : false ≢ true
    clash q = cc

-- A task that has passed succeeded, failed, blocked or cancelled is still in that status, and no
-- transition of it is accepted.
pub History-final :
    {A : Type 0} (start t : Task A) (statuses : List TaskStatus) (s : TaskStatus)
    → History start statuses t
    → In s statuses
    → In s final
    → (t.status ≡ s)
      × ((u : Task A) (status : TaskStatus) (now : ℕ) (changes : A → A)
          → transition t status now changes ≢ ok u)
History-final start _ _ s begun n f =
    let same = sym (In-singleton s start.status n) in
    (
      same,
      λ u status now changes.
          final-stuck start u status now changes (subst (λ x. In x final) (sym same) f),
    )
History-final start t _ s (moved {statuses = ss} {t = before} status now changes h step) n f =
    elim n [
      | here p ↦
          let m = transition-Moves before t status now changes step in
          let same : t.status ≡ s = m.reached ∙ sym p in
          (
            same,
            λ u status now changes.
                final-stuck t u status now changes (subst (λ x. In x final) (sym same) f),
          )
      | there k ↦ absurd ((History-final start before ss s h k f).1 t status now changes step)
    ]
