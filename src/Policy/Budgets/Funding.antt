-- ===== src/Policy/Budgets/Funding.antt =====
-- Which quotes fit the limits and the remaining funds.
use openai_model_router.Prelude.{
  ℕ, ◌+◌, ◌≤◌, ◌<◌, ◌≡◌, ◌≢◌, ◌↔◌, refl, sym, subst, String, Option, none, some, List, [], ◌∷◌,
  ◌++◌, Bool, true, false, Dict, lookup, contains, append_once, exceeds, AtMost,
  exceeds-false→AtMost, AtMost→exceeds-false, Bool-cases, inl, inr, arith, if◌then◌else◌, string_eq,
}
use openai_model_router.Contracts.{
  Request, EnvironmentSnapshot, ModelEntry, Limits, CostEstimate, ValidationRequirements,
}
use openai_model_router.Policy.Costs.{subtotal, required_charges, estimate_cost}
use openai_model_router.Policy.Costs.Coherent.{known_subtotal-eq}
use openai_model_router.Policy.Budgets.{
  extra_charges, unfunded_from, first_unfunded_charge, tiers_conflict, compared_amount,
  ceiling_violations, remaining_violations, check_budget,
}

-- The walk finds a crossing whenever the charges together cross the remaining funds.
unfunded_from-crossing :
    (remaining start : ℕ) (charges : Dict (Option ℕ))
    → start ≤ remaining
    → remaining < start + subtotal charges
    → unfunded_from remaining start charges ≢ none
unfolding unfunded_from subtotal
unfunded_from-crossing remaining start [] h k = absurd (omega arith)
unfunded_from-crossing remaining start ((name, none) ∷ charges) h k =
    unfunded_from-crossing remaining start charges h k
unfunded_from-crossing remaining start ((name, some v) ∷ charges) h k =
    ground (arith, unfunded_from-crossing remaining (start + v) charges)

-- The list that `required_charges` builds, from its three tests.
abbrev entries : Bool → Bool → Bool → Option ℕ → Option ℕ → Option ℕ → Dict (Option ℕ)
entries b c d x y z =
    (if b then ("required_evaluator", x) ∷ [] else [])
    ++ (if c then ("required_domain_validator", y) ∷ [] else [])
    ++ (if d then ("required_tool", z) ∷ [] else [])

module _ (u r w o x y z : Option ℕ) where
  abbrev whole : Dict (Option ℕ) → Dict (Option ℕ)
  whole rest =
      ("uncached_input", u)
      ∷ ("cache_read_input", r)
      ∷ ("cache_write_input", w)
      ∷ ("output", o)
      ∷ rest

  read_back :
      (b c d : Bool)
      → subtotal (extra_charges (whole (entries b c d x y z))) ≡ subtotal (entries b c d x y z)
  unfolding extra_charges subtotal lookup
  read_back true true true = ground arith
  read_back true true false = ground arith
  read_back true false true = ground arith
  read_back true false false = ground arith
  read_back false true true = ground arith
  read_back false true false = ground arith
  read_back false false true = ground arith
  read_back false false false = ground arith

module _ (scale : ℕ) (request : Request) (model : ModelEntry) (environment : EnvironmentSnapshot)
    (validation : ValidationRequirements) where
  abbrev estimate : CostEstimate
  estimate = estimate_cost scale request model environment validation

  -- The extra charges that the walk reads back are the required charges of the quote.
  extra_charges-eq :
      subtotal (extra_charges estimate.breakdown)
      ≡ subtotal (required_charges request environment validation)
  unfolding estimate_cost
  extra_charges-eq = read_back _ _ _ _ _ _ _ _ _ _

  generation-le-known : estimate.generation_subtotal ≤ estimate.known_subtotal
  generation-le-known = omega (arith, known_subtotal-eq scale request model environment validation)

  -- For the quote of `estimate_cost`, when the generation charges are at most the remaining
  -- funds and the known charges exceed them, `first_unfunded_charge` names a charge.
  pub first_unfunded_charge-ne-none :
      (remaining : ℕ)
      → estimate.generation_subtotal ≤ remaining
      → remaining < estimate.known_subtotal
      → first_unfunded_charge estimate remaining ≢ none
  unfolding first_unfunded_charge
  first_unfunded_charge-ne-none remaining h k =
      unfunded_from-crossing remaining estimate.generation_subtotal
        (extra_charges estimate.breakdown) h
        (omega
          (arith, extra_charges-eq, known_subtotal-eq scale request model environment validation))

  compared-eq : compared_amount estimate ≡ estimate.known_subtotal
  unfolding compared_amount estimate_cost
  compared-eq = ground arith

pub append_once-ne-nil : (xs : List String) (x : String) → append_once xs x ≢ []
unfolding append_once contains
append_once-ne-nil [] x h = ground arith
append_once-ne-nil (y ∷ ys) x h = elim (Bool-cases (contains x (y ∷ ys))) [
  | inl e ↦ ground arith
  | inr e ↦ ground arith
]

-- The tier bounds leave a tier between them.
abbrev pub HasTier : Limits → Type 0
HasTier limits = tiers_conflict limits ≡ false

-- What a quote must satisfy to be admitted, written without the checks.
pub record FitsBudget (cost : CostEstimate) (limits : Limits) (environment : EnvironmentSnapshot)
    : Type 0 where
  pub tiers : HasTier limits
  pub ceiling : AtMost cost.known_subtotal limits.task_cost_ceiling_usd
  pub funds : AtMost cost.generation_subtotal environment.remaining_usd

module _ (cost : CostEstimate) (limits : Limits) where
  ceiling_violations-nil :
      ceiling_violations cost limits ≡ []
      → (tiers_conflict limits ≡ false)
        × (exceeds (compared_amount cost) limits.task_cost_ceiling_usd ≡ false)
  unfolding ceiling_violations
  ceiling_violations-nil h = ground arith

  nil-ceiling_violations :
      tiers_conflict limits ≡ false
      → exceeds (compared_amount cost) limits.task_cost_ceiling_usd ≡ false
      → ceiling_violations cost limits ≡ []
  unfolding ceiling_violations
  nil-ceiling_violations h k = rw (h, k) refl

  remaining_violations-nil :
      (o : Option ℕ) (v : List String)
      → remaining_violations cost o v ≡ []
      → (v ≡ []) × AtMost cost.generation_subtotal o
  unfolding remaining_violations
  remaining_violations-nil none v h = (h, tt)
  remaining_violations-nil (some remaining) v h =
      ground (arith, append_once-ne-nil v "remaining_budget")

module _ (scale : ℕ) (request : Request) (model : ModelEntry) (environment : EnvironmentSnapshot)
    (validation : ValidationRequirements) (limits : Limits) where
  abbrev quoted : CostEstimate
  quoted = estimate_cost scale request model environment validation

  nil-remaining_violations :
      (o : Option ℕ) → AtMost quoted.generation_subtotal o → remaining_violations quoted o [] ≡ []
  unfolding remaining_violations
  nil-remaining_violations none h = refl
  nil-remaining_violations (some remaining) h =
      ground
        (arith, first_unfunded_charge-ne-none scale request model environment validation remaining)

  -- For the quote of `estimate_cost`, `check_budget` finds no violation exactly when the
  -- tier floor does not exceed the tier ceiling, the priced charges together are at most the
  -- task's cost ceiling, and the generation charges are at most the remaining funds, each
  -- where the bound is given.
  pub check_budget-FitsBudget :
      ((check_budget quoted limits environment).violations ≡ [])
      ↔ FitsBudget quoted limits environment
  unfolding check_budget
  check_budget-FitsBudget = (fits, admits)
    where
      fits :
          (check_budget quoted limits environment).violations ≡ []
          → FitsBudget quoted limits environment
      fits h =
          let (v, funds) =
            remaining_violations-nil quoted limits environment.remaining_usd
              (ceiling_violations quoted limits) h in
          let (tiers, ceiling) = ceiling_violations-nil quoted limits v in
          record {
            tiers = tiers;
            ceiling =
                subst (λ n. AtMost n limits.task_cost_ceiling_usd)
                  (compared-eq scale request model environment validation)
                  (exceeds-false→AtMost _ _ ceiling);
            funds = funds;
          }

      admits :
          FitsBudget quoted limits environment
          → (check_budget quoted limits environment).violations ≡ []
      admits f =
          rw
            (nil-ceiling_violations quoted limits f.tiers (
              AtMost→exceeds-false _ _ (
                subst (λ n. AtMost n limits.task_cost_ceiling_usd)
                  (sym (compared-eq scale request model environment validation)) f.ceiling)))
            (nil-remaining_violations environment.remaining_usd f.funds)
