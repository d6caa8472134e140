-- ===== src/Policy/Budgets/Readiness.antt =====
-- Budget feasibility without blockers, from `check_budget` in policy/budgets.py.
use openai_model_router.Prelude.{
  ℕ, ◌≤◌, ◌<◌, AtMost, ltb→ge, ltb→lt, ◌≡◌, ◌≢◌, refl, String, Option, none, some, List, [], ◌∷◌,
  Bool, true, false, ltb, append_once, is_some, or_else, Bool-cases, inl, inr, arith, string_eq,
  not,
}
use openai_model_router.Contracts.{
  Request, ModelEntry, EnvironmentSnapshot, Limits, CostEstimate, CostStatus,
  ValidationRequirements,
}
use openai_model_router.Policy.Budgets.{
  is_known, cost_blockers, budget_name, remaining_blockers, append_if, is_true, readiness_blockers,
  check_budget, first_unfunded_charge,
}
use openai_model_router.Policy.Budgets.Funding.{
  append_once-ne-nil, first_unfunded_charge-ne-none, check_budget-FitsBudget,
}
use openai_model_router.Policy.Costs.{estimate_cost}

append_if-nil :
    (b : Bool) (name : String) (xs : List String)
    → append_if b name xs ≡ []
    → (b ≡ false) × (xs ≡ [])
unfolding append_if
append_if-nil true name xs h = absurd (append_once-ne-nil xs name h)
append_if-nil false name xs h = (refl, h)

-- The next action fits the deadline, where both are given.
abbrev pub TimeFits : Option ℕ → Option ℕ → Type 0
TimeFits none action = Unit
TimeFits (some deadline) none = Unit
TimeFits (some deadline) (some action) = action ≤ deadline

-- Dispatch was approved, with a ceiling and a deadline that the next action fits, and the quote is
-- complete and within the remaining funds.
pub record IsFunded (cost : CostEstimate) (limits : Limits) (environment : EnvironmentSnapshot)
    : Type 0 where
  pub live : limits.live_execution_enabled ≡ some true
  pub ceiling : is_some limits.task_cost_ceiling_usd ≡ true
  pub deadline : is_some limits.task_deadline_ms ≡ true
  pub time : TimeFits limits.task_deadline_ms environment.minimum_next_action_ms
  pub known : cost.status ≡ CostStatus.known
  pub affordable : AtMost cost.known_subtotal environment.remaining_usd

is_known-eq : (cost : CostEstimate) → is_known cost ≡ true → cost.status ≡ CostStatus.known
unfolding is_known
is_known-eq cost h = by_status cost.status refl
  where
    by_status : (k : CostStatus) → cost.status ≡ k → k ≡ CostStatus.known
    by_status CostStatus.known e = refl
    by_status CostStatus.partial e = absurd (ground arith)
    by_status CostStatus.unavailable e = absurd (ground arith)

is_true-eq : (o : Option Bool) → not (is_true o) ≡ false → o ≡ some true
unfolding is_true
is_true-eq none h = absurd (ground arith)
is_true-eq (some true) h = refl
is_true-eq (some false) h = absurd (ground arith)

not-eq : (b : Bool) → not b ≡ false → b ≡ true
not-eq true h = refl
not-eq false h = ground arith

readiness_blockers-nil :
    (limits : Limits) (environment : EnvironmentSnapshot) (blockers : List String)
    → readiness_blockers limits environment blockers ≡ []
    → (limits.live_execution_enabled ≡ some true)
      × (is_some limits.task_cost_ceiling_usd ≡ true)
      × (is_some limits.task_deadline_ms ≡ true)
      × TimeFits limits.task_deadline_ms environment.minimum_next_action_ms
      × (blockers ≡ [])
unfolding readiness_blockers
readiness_blockers-nil limits environment blockers h =
    let (d, t, h2) = at_deadline limits.task_deadline_ms environment.minimum_next_action_ms h in
    let (c, h1) = append_if-nil _ _ _ h2 in
    let (l, h0) = append_if-nil _ _ _ h1 in
    (is_true-eq limits.live_execution_enabled l, not-eq _ c, d, t, h0)
  where
    at_deadline :
        {xs : List String} (deadline action : Option ℕ)
        → (elim deadline [
          | none ↦ append_once xs "task_deadline_required"
          | some d ↦ elim action [ none ↦ xs | some a ↦ append_if (ltb d a) "deadline" xs ]
        ])
          ≡ []
        → (is_some deadline ≡ true) × TimeFits deadline action × (xs ≡ [])
    at_deadline none action q = absurd (append_once-ne-nil _ _ q)
    at_deadline (some d) none q = (refl, tt, q)
    at_deadline (some d) (some a) q =
        let (within, rest) = append_if-nil _ _ _ q in (refl, ltb→ge d a within, rest)

remaining_blockers-nil :
    (cost : CostEstimate) (remaining : Option ℕ) (blockers : List String)
    → remaining_blockers cost remaining blockers ≡ []
    → blockers ≡ []
unfolding remaining_blockers
remaining_blockers-nil cost none blockers h = h
remaining_blockers-nil cost (some r) blockers h =
    elim (Bool-cases (ltb r cost.generation_subtotal)) [
      | inl e ↦ rw e at h
      | inr e ↦ elim (Bool-cases (ltb r cost.known_subtotal)) [
        | inl k ↦ appended (first_unfunded_charge cost r) (rw k at (rw e at h))
        | inr k ↦ rw k at (rw e at h)
      ]
    ]
  where
    appended :
        (unfunded : Option String)
        → (elim unfunded [ some name ↦ append_once blockers (budget_name name) | none ↦ blockers ])
          ≡ []
        → blockers ≡ []
    appended none q = q
    appended (some name) q = absurd (append_once-ne-nil _ _ q)

cost_blockers-nil : (cost : CostEstimate) → cost_blockers cost ≡ [] → is_known cost ≡ true
unfolding cost_blockers
cost_blockers-nil cost h = elim (Bool-cases (is_known cost)) [
  | inl e ↦ e
  | inr e ↦ absurd (named cost.unknown_charges (rw e at h))
]
  where
    named : (xs : List String) → or_else xs ("unknown_cost" ∷ []) ≢ []
    named [] q = ground arith
    named (x ∷ xs) q = ground arith

module _ (scale : ℕ) (request : Request) (model : ModelEntry) (environment : EnvironmentSnapshot)
    (validation : ValidationRequirements) (limits : Limits) where
  abbrev quoted : CostEstimate
  quoted = estimate_cost scale request model environment validation

  -- Without a blocker the remaining funds cover the required charges too.
  remaining_blockers-AtMost :
      (o : Option ℕ) (blockers : List String)
      → AtMost quoted.generation_subtotal o
      → remaining_blockers quoted o blockers ≡ []
      → AtMost quoted.known_subtotal o
  unfolding remaining_blockers
  remaining_blockers-AtMost none blockers g h = tt
  remaining_blockers-AtMost (some r) blockers g h =
      elim (Bool-cases (ltb r quoted.known_subtotal)) [
        | inl k ↦
            let covered : ltb r quoted.generation_subtotal ≡ false = ground arith in
            absurd (
              crossed (first_unfunded_charge quoted r) refl (ltb→lt _ _ k)
                (rw k at (rw covered at h)))
        | inr k ↦ ltb→ge r quoted.known_subtotal k
      ]
    where
      crossed :
          (unfunded : Option String)
          → first_unfunded_charge quoted r ≡ unfunded
          → r < quoted.known_subtotal
          → (elim unfunded [
            | some name ↦ append_once blockers (budget_name name)
            | none ↦ blockers
          ])
            ≢ []
      crossed none e k q =
          first_unfunded_charge-ne-none scale request model environment validation r g k e
      crossed (some name) e k q = append_once-ne-nil _ _ q

  -- Without violations and blockers, dispatch was approved under a finite ceiling and a deadline that
  -- the next action fits, no charge of the quote is unknown, and the remaining funds cover all.
  pub check_budget-IsFunded :
      (check_budget quoted limits environment).violations ≡ []
      → (check_budget quoted limits environment).blockers ≡ []
      → IsFunded quoted limits environment
  unfolding check_budget
  check_budget-IsFunded v h =
      let fits = (check_budget-FitsBudget scale request model environment validation limits).0 v in
      let (l, c, d, t, h1) = readiness_blockers-nil limits environment _ h in
      record {
        live = l;
        ceiling = c;
        deadline = d;
        time = t;
        known = is_known-eq quoted (
            cost_blockers-nil quoted
              (remaining_blockers-nil quoted environment.remaining_usd _ h1));
        affordable = remaining_blockers-AtMost environment.remaining_usd _ fits.funds h1;
      }
