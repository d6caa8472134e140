-- ===== src/Router/Laws/Loop.antt =====
-- Every item that the loop calls feasible is admissible.
use openai_model_router.Prelude.{
  ℕ, ◌≤◌, ◌≡◌, refl, sym, ap, subst, String, Option, none, some, List, [], ◌∷◌, ◌++◌, Bool, true,
  false, Dict, lookup, In, here, In-append, In-singleton, contains, contains→In, is_empty, exceeds,
  exceeds-false→AtMost, AtMost, ltb, ltb→ge, ◌==◌, nat_eq, unique, In-unique, Bool-cases, inl, inr,
  ◌⊎◌, arith, if◌then◌else◌, not, ok, >>=-eq-ok, raise_if-eq-ok, ok-injective, or_raise, key_error,
  string_eq,
}
use openai_model_router.Contracts.{
  Request, EnvironmentSnapshot, ModelHealth, HealthState, ModelEntry, Limits, Candidate,
  ValidationRequirements, effort_eq,
}
use openai_model_router.Policy.Capabilities.{check_capabilities}
use openai_model_router.Policy.Capabilities.Exact.{Serves, check_capabilities-Serves}
use openai_model_router.Policy.Budgets.Funding.{FitsBudget, check_budget-FitsBudget}
use openai_model_router.Router.Assess.{
  Item, Assessed, unavailable, required_rank, candidate_cost, candidate_budget, exclusions,
  candidate_violations, assess_one, assess,
}

pub append-eq-nil : {A : Type 0} (xs ys : List A) → xs ++ ys ≡ [] → (xs ≡ []) × (ys ≡ [])
append-eq-nil [] ys h = (refl, h)
append-eq-nil (x ∷ xs) ys h = absurd (ground arith)

pub unique-eq-nil : (xs : List String) → unique xs ≡ [] → xs ≡ []
unique-eq-nil [] h = refl
unique-eq-nil (x ∷ xs) h = absurd (none_in (unique (x ∷ xs)) (In-unique x (x ∷ xs) (here refl)) h)
  where
    none_in : (ys : List String) → In x ys → ys ≡ [] → ⊥
    none_in [] m e = elim m [ ]
    none_in (y ∷ ys) m e = ground arith

pub is_empty→nil : {A : Type 0} (xs : List A) → is_empty xs ≡ true → xs ≡ []
is_empty→nil [] h = refl
is_empty→nil (x ∷ xs) h = absurd (ground arith)

pub flagged : (b : Bool) (x : String) → (if b then x ∷ [] else []) ≡ [] → b ≡ false
flagged true x h = absurd (ground arith)
flagged false x h = refl

module _ (scale : ℕ) (request : Request) (environment : EnvironmentSnapshot)
    (validation : ValidationRequirements) (limits : Limits) (excluded : List HealthState)
    (hard_floor : ℕ) (models : Dict ModelEntry) where
  -- What admits a candidate, stated without the checks of the loop: its model is configured and
  -- supports the effort, serves the request, lies within the tier bounds, may be used, and its
  -- quote fits the budget.
  pub record IsAdmissible (i : Item) : Type 0 where
    pub configured : lookup i.candidate.model models ≡ some i.model
    pub effort : In i.candidate.effort i.model.reasoning_efforts
    pub serves : Serves request i.model
    pub hard : required_rank hard_floor limits ≤ i.model.tier_rank
    pub ceiling : AtMost i.model.tier_rank limits.model_tier_ceiling
    pub usable : unavailable excluded i.model (lookup i.candidate.model environment.models) ≡ false
    pub health : i.health ≡ lookup i.candidate.model environment.models
    pub cost : i.cost ≡ candidate_cost scale request environment validation limits i.model
    pub budget : FitsBudget i.cost limits environment
    pub feasibility :
        i.budget ≡ candidate_budget scale request environment validation limits i.model
    pub unviolated :
        (candidate_budget scale request environment validation limits i.model).violations ≡ []

  exclusions-nil :
      (model : ModelEntry) (health : Option ModelHealth)
      → exclusions scale request environment validation limits excluded hard_floor model health ≡ []
      → Serves request model
        × (required_rank hard_floor limits ≤ model.tier_rank)
        × AtMost model.tier_rank limits.model_tier_ceiling
        × (unavailable excluded model health ≡ false)
  unfolding exclusions
  exclusions-nil model health h =
      let (h1, u) = append-eq-nil _ _ h in
      let (h2, t) = append-eq-nil _ _ h1 in
      let (c, f) = append-eq-nil (check_capabilities request model).violations _ h2 in
      (
        (check_capabilities-Serves request model).0 c,
        ltb→ge _ _
            (flagged (ltb model.tier_rank (required_rank hard_floor limits)) "model_tier_floor" f),
        exceeds-false→AtMost _ _
            (flagged (exceeds model.tier_rank limits.model_tier_ceiling) "model_tier_ceiling" t),
        flagged (unavailable excluded model health) "no_healthy_permitted_path" u,
      )

  -- Whether or not a miss is quoted too, the expected quote itself fits.
  candidate_budget-nil :
      (model : ModelEntry)
      → (candidate_budget scale request environment validation limits model).violations ≡ []
      → FitsBudget
          (candidate_cost scale request environment validation limits model)
          limits
          environment
  unfolding candidate_budget
  candidate_budget-nil model h =
      let fits = (check_budget-FitsBudget scale request model environment validation limits).0 in
      elim (Bool-cases (
        (candidate_cost scale request environment validation limits model).cache_read_tokens
        == 0)) [
          | inl e ↦ fits (rw e at h)
          | inr e ↦ fits (append-eq-nil _ _ (unique-eq-nil _ (rw e at h))).0
        ]

  candidate_violations-nil :
      (candidate : Candidate) (model : ModelEntry)
      → lookup candidate.model models ≡ some model
      → In candidate.effort model.reasoning_efforts
      → candidate_violations scale request environment validation limits excluded hard_floor model
          (lookup candidate.model environment.models)
        ≡ []
      → IsAdmissible (record {
        candidate = candidate;
        model = model;
        cost = candidate_cost scale request environment validation limits model;
        budget = candidate_budget scale request environment validation limits model;
        health = lookup candidate.model environment.models;
      })
  unfolding candidate_violations
  candidate_violations-nil candidate model found supports h =
      let health = lookup candidate.model environment.models in
      let (e, b) =
        append-eq-nil
          (exclusions scale request environment validation limits excluded hard_floor model health)
          _ h in
      let (serves, hard, ceiling, usable) = exclusions-nil model health e in
      record {
        configured = found;
        effort = supports;
        serves = serves;
        hard = hard;
        ceiling = ceiling;
        usable = usable;
        health = refl;
        cost = refl;
        budget = candidate_budget-nil model b;
        feasibility = refl;
        unviolated = b;
      }

  abbrev pub AllAdmissible : List Item → Type 0
  AllAdmissible items = (i : Item) → In i items → IsAdmissible i

  assess_one-AllAdmissible :
      (candidate : Candidate) (model : ModelEntry) (a : Assessed)
      → lookup candidate.model models ≡ some model
      → In candidate.effort model.reasoning_efforts
      → AllAdmissible a.feasible
      → AllAdmissible
          (assess_one scale request environment validation limits excluded hard_floor candidate
            model a).feasible
  unfolding assess_one
  assess_one-AllAdmissible candidate model a found supports all i m =
      elim (Bool-cases (is_empty (violations))) [
        | inl e ↦ split (is_empty→nil violations e) (In-append i a.feasible _ (rw e at m))
        | inr e ↦ all i (rw e at m)
      ]
    where
      violations : List String
      violations =
          candidate_violations scale request environment validation limits excluded hard_floor model
            (lookup candidate.model environment.models)

      split :
          violations ≡ []
          → In i a.feasible
            ⊎ In i (
                record {
                  candidate = candidate;
                  model = model;
                  cost = candidate_cost scale request environment validation limits model;
                  budget = candidate_budget scale request environment validation limits model;
                  health = lookup candidate.model environment.models;
                }
                ∷ [])
          → IsAdmissible i
      split e (inl n) = all i n
      split e (inr n) =
          subst IsAdmissible (sym (In-singleton i _ n))
            (candidate_violations-nil candidate model found supports e)

  -- The loop calls nothing feasible that is not admissible.
  pub assess-AllAdmissible :
      (candidates : List Candidate) (a result : Assessed)
      → assess scale request environment validation limits excluded hard_floor models candidates a
        ≡ ok result
      → AllAdmissible a.feasible
      → AllAdmissible result.feasible
  unfolding assess
  assess-AllAdmissible [] a result h all =
      subst (λ (r : Assessed). AllAdmissible r.feasible) (ok-injective h) all
  assess-AllAdmissible (c ∷ cs) a result h all =
      let (model, found, h1) =
        >>=-eq-ok (or_raise (key_error "model") (lookup c.model models)) _ h in
      let (supports, h2) =
        raise_if-eq-ok (not (contains c.effort model.reasoning_efforts)) _ _ h1 in
      assess-AllAdmissible cs _ result h2 (
        assess_one-AllAdmissible c model a (looked_up (lookup c.model models) found)
          (contains→In c.effort model.reasoning_efforts (ground arith)) all)
    where
      looked_up :
          {m : ModelEntry} (o : Option ModelEntry)
          → or_raise (key_error "model") o ≡ ok m
          → o ≡ some m
      looked_up none q = cc
      looked_up (some x) q = ap some (ok-injective q)
