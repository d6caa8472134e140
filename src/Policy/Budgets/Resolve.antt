-- ===== src/Policy/Budgets/Resolve.antt =====
-- `resolve_limits` keeps every bound that a trusted layer or the caller states.
use openai_model_router.Prelude.{
  ℕ, ◌≡◌, refl, subst, sym, ◌∙◌, Option, none, some, Bool, true, false, Dict, String, lookup,
  is_some, arith, ok, >>=-eq-ok, ok-injective,
}
use openai_model_router.Contracts.{
  Limits, Period, Request, EnvironmentSnapshot, ModelEntry, BudgetLimits, PolicyBundle,
}
use openai_model_router.Policy.Budgets.{
  tighten, tighten_optional, tighten_configured, configured_overlay, normalize_limits,
  deployment_limits, validate_period, resolve_limits,
}
use openai_model_router.Policy.Budgets.Tighten.{
  Raised, Lowered, Withheld, Pinned, Narrows, Narrows-trans, tighten-Narrows,
}

Raised-refl : (o : Option ℕ) → Raised o o
Raised-refl none = tt
Raised-refl (some a) = omega arith

Lowered-refl : (o : Option ℕ) → Lowered o o
Lowered-refl none = tt
Lowered-refl (some a) = omega arith

Withheld-refl : (o : Option Bool) → Withheld o o
Withheld-refl none = tt
Withheld-refl (some true) = tt
Withheld-refl (some false) = refl

Pinned-refl : (o : Option Period) → Pinned o o
Pinned-refl none = tt
Pinned-refl (some p) = refl

Narrows-refl : (l : Limits) → Narrows l l
Narrows-refl l = record {
  floor = Raised-refl l.model_tier_floor;
  ceiling = Lowered-refl l.model_tier_ceiling;
  cost = Lowered-refl l.task_cost_ceiling_usd;
  deadline = Lowered-refl l.task_deadline_ms;
  spend = Lowered-refl l.period_spend_ceiling_usd;
  period = Pinned-refl l.period;
  live = Withheld-refl l.live_execution_enabled;
}

-- The layer, where there is one, is respected.
abbrev pub NarrowsOptional : Option Limits → Limits → Type 0
NarrowsOptional none new = Unit
NarrowsOptional (some old) new = Narrows old new

-- A spend ceiling and its period stand together or not at all.
abbrev pub IsPaired : Limits → Type 0
IsPaired l = is_some l.period_spend_ceiling_usd ≡ is_some l.period

optional-Narrows :
    (base : Limits) (o : Option Limits) {result : Limits}
    → tighten_optional base o ≡ ok result
    → Narrows base result × NarrowsOptional o result
unfolding tighten_optional
optional-Narrows base none h = (subst (Narrows base) (ok-injective h) (Narrows-refl base), tt)
optional-Narrows base (some overlay) h = tighten-Narrows base overlay h

configured-Narrows :
    (base : Limits) (o : Option BudgetLimits) (models : Dict ModelEntry) {result : Limits}
    → tighten_configured base o models ≡ ok result
    → Narrows base result
unfolding tighten_configured
configured-Narrows base none models h = subst (Narrows base) (ok-injective h) (Narrows-refl base)
configured-Narrows base (some values) models h =
    let (overlay, _, e) = >>=-eq-ok (normalize_limits values models) _ h in
    (tighten-Narrows base overlay e).0

configured-respects :
    (base : Limits) (values : BudgetLimits) (models : Dict ModelEntry) {result : Limits}
    → tighten_configured base (some values) models ≡ ok result
    → (overlay : Limits) × (normalize_limits values models ≡ ok overlay) × Narrows overlay result
unfolding tighten_configured
configured-respects base values models h =
    let (overlay, q, e) = >>=-eq-ok (normalize_limits values models) _ h in
    (overlay, q, (tighten-Narrows base overlay e).1)

-- The environment's trusted application has these limits in the budgets document.
pub record IsConfigured (environment : EnvironmentSnapshot) (bundle : PolicyBundle)
    (values : BudgetLimits) : Type 0 where
  pub application : String
  pub trusted : environment.trusted_application_id ≡ some application
  pub listed : lookup application bundle.budgets.applications ≡ some values

configured_overlay-some :
    (environment : EnvironmentSnapshot) (bundle : PolicyBundle) (values : BudgetLimits)
    → IsConfigured environment bundle values
    → configured_overlay environment bundle ≡ some values
unfolding configured_overlay
configured_overlay-some environment bundle values c = rw (c.trusted) c.listed

validate_period-IsPaired : (l : Limits) → validate_period l ≡ ok tt → IsPaired l
unfolding validate_period
validate_period-IsPaired l h = ground arith

-- The layers of a successful resolution, and what each passes on to the result.
record Resolved (request : Request) (environment : EnvironmentSnapshot) (bundle : PolicyBundle)
    (result : Limits) : Type 0 where
  defaults : Limits
  deployed : Limits
  configured : Limits
  defaults_eq : normalize_limits bundle.budgets.defaults bundle.models ≡ ok defaults
  deployed_eq : deployment_limits environment defaults ≡ ok deployed
  configured_eq :
      tighten_configured deployed (configured_overlay environment bundle) bundle.models
      ≡ ok configured
  configured_kept : Narrows deployed configured
  overlaid_kept : NarrowsOptional environment.application_overlay result × Narrows configured result
  constraints_kept : Narrows request.constraints result
  paired : IsPaired result

NarrowsOptional-trans :
    (o : Option Limits) {a b : Limits} → NarrowsOptional o a → Narrows a b → NarrowsOptional o b
NarrowsOptional-trans none h k = tt
NarrowsOptional-trans (some old) h k = Narrows-trans h k

deployment-Narrows :
    (environment : EnvironmentSnapshot) (d : Limits) {l : Limits}
    → environment.synthetic ≡ false
    → deployment_limits environment d ≡ ok l
    → Narrows d l × Narrows environment.budget l
unfolding deployment_limits
deployment-Narrows environment d live h = tighten-Narrows d environment.budget (rw live at h)

module _ (request : Request) (environment : EnvironmentSnapshot) (bundle : PolicyBundle) where
  Resolved-of_ok :
      {result : Limits}
      → resolve_limits request environment bundle ≡ ok result
      → Resolved request environment bundle result
  unfolding resolve_limits
  Resolved-of_ok {result} h =
      let (defaults, e1, h1) = >>=-eq-ok (normalize_limits _ _) _ h in
      let (deployed, e2, h2) = >>=-eq-ok (deployment_limits environment defaults) _ h1 in
      let (configured, e3, h3) = >>=-eq-ok (tighten_configured deployed _ _) _ h2 in
      let (overlaid, e4, h4) = >>=-eq-ok (tighten_optional configured _) _ h3 in
      let (effective, e5, h5) = >>=-eq-ok (tighten overlaid request.constraints) _ h4 in
      let (u, e6, h6) = >>=-eq-ok (validate_period effective) _ h5 in
      let overlay = optional-Narrows configured environment.application_overlay e4 in
      let last = tighten-Narrows overlaid request.constraints e5 in
      let same = ok-injective h6 in
      record {
        defaults = defaults;
        deployed = deployed;
        configured = configured;
        defaults_eq = e1;
        deployed_eq = e2;
        configured_eq = e3;
        configured_kept = configured-Narrows deployed _ _ e3;
        overlaid_kept =
            subst (λ r. NarrowsOptional environment.application_overlay r × Narrows configured r)
              same
              (
                NarrowsOptional-trans environment.application_overlay overlay.1 last.0,
                Narrows-trans overlay.0 last.0,
              );
        constraints_kept = subst (Narrows request.constraints) same last.1;
        paired = subst IsPaired same (validate_period-IsPaired effective e6);
      }

  -- When `resolve_limits` returns limits, they are at least as narrow in every field as the caller's
  -- constraints, as the application overlay where one is given, and as the normalized limits that the
  -- budgets document configures for the environment's trusted application where it does, and they
  -- have a period spend ceiling exactly when they have a period.
  pub resolve_limits-Narrows :
      (result : Limits)
      → resolve_limits request environment bundle ≡ ok result
      → Narrows request.constraints result
        × NarrowsOptional environment.application_overlay result
        × ((values : BudgetLimits)
            → IsConfigured environment bundle values
            → (overlay : Limits) × (normalize_limits values bundle.models ≡ ok overlay)
              × Narrows overlay result)
        × IsPaired result
  resolve_limits-Narrows result h =
      let r = Resolved-of_ok h in
      (
        r.constraints_kept,
        r.overlaid_kept.0,
        λ values c.
            let (overlay, q, kept) = configured-respects r.deployed values bundle.models (
              subst (λ o. tighten_configured r.deployed o bundle.models ≡ ok r.configured)
                (configured_overlay-some environment bundle values c) r.configured_eq) in
            (overlay, q, Narrows-trans kept r.overlaid_kept.1),
        r.paired,
      )

  -- When the snapshot is not synthetic and `resolve_limits` returns limits, they are at
  -- least as narrow in every field as the normalized configured defaults and as the
  -- snapshot's budget.
  pub resolve_limits-Narrows_deployment :
      (defaults result : Limits)
      → environment.synthetic ≡ false
      → normalize_limits bundle.budgets.defaults bundle.models ≡ ok defaults
      → resolve_limits request environment bundle ≡ ok result
      → Narrows defaults result × Narrows environment.budget result
  resolve_limits-Narrows_deployment defaults result live e h =
      let r = Resolved-of_ok h in
      let kept = Narrows-trans r.configured_kept r.overlaid_kept.1 in
      let same : r.defaults ≡ defaults = ok-injective (sym r.defaults_eq ∙ e) in
      let (a, b) =
        deployment-Narrows environment defaults live
          (subst (λ d. deployment_limits environment d ≡ ok r.deployed) same r.deployed_eq) in
      (Narrows-trans a kept, Narrows-trans b kept)
