-- ===== src/Escalation/Permitted.antt =====
-- What each recovery proposal stays within.
use openai_model_router.Prelude.{
  ℕ, ◌+◌, ◌<◌, ◌≡◌, ◌⊎◌, refl, subst, Option, none, some, Bool, true, false, lookup, leb, nat_eq,
  string_eq, ◌||◌, if◌then◌else◌, arith, Raise, ok, >>=-eq-ok, or_raise, ok-injective, value_error,
}
use openai_model_router.Contracts.{ModelEntry, PolicyBundle, Effort, effort_eq, failure_eq}
use openai_model_router.Execution.{RouteTarget}
use openai_model_router.Escalation.Recovery.{
  ActionKind, RecoveryAction, RecoveryContext, action_of, current_route, attempts_exhausted,
  backoff_ms, model_of, next_prior_effort, next_tier_target, quality_exhausted,
  infrastructure_exhausted, quality_tier, quality_effort, quality_recovery, is_unsafe,
}
use openai_model_router.Escalation.Targets.{
  RaisesEffort, RaisesTier, FallsBack, or_raise-ok, next_prior_effort-RaisesEffort,
  next_tier_target-RaisesTier,
}

pub QualityLeft : RecoveryContext → Type 0
QualityLeft c =
    (c.counters.generation_attempts < c.limits.max_total_generation_attempts)
    × (c.counters.quality_escalations < c.limits.max_quality_escalations)

pub InfrastructureLeft : RecoveryContext → Type 0
InfrastructureLeft c =
    (c.counters.generation_attempts < c.limits.max_total_generation_attempts)
    × (c.counters.infrastructure_retries < c.limits.max_infrastructure_retries)

-- The route of a proposal satisfies `P`.
pub record RouteIs (P : RouteTarget → Type 0) (a : RecoveryAction) : Type 0 where
  pub target : RouteTarget
  pub route : a.route ≡ some target
  pub holds : P target

-- What a proposal needs, by its kind.
unfoldable pub Needs : RecoveryContext → PolicyBundle → RecoveryAction → ActionKind → Type 0
Needs c bundle a kind = elim kind [
  | ActionKind.increase_effort ↦ QualityLeft c × RouteIs (RaisesEffort c bundle) a
  | ActionKind.increase_tier ↦ QualityLeft c × RouteIs (RaisesTier c bundle) a
  | ActionKind.retry_backoff ↦
      InfrastructureLeft c
      × (c.failure.retryable ≡ true)
      × (a.backoff_ms ≡ backoff_ms c)
      × (c.elapsed_ms + a.backoff_ms < c.limits.max_elapsed_ms)
      × (a.route ≡ some (current_route c))
  | ActionKind.health_aware_fallback ↦ InfrastructureLeft c × RouteIs (FallsBack c bundle) a
  | ActionKind.retry_tool ↦
      (c.counters.tool_recoveries < c.limits.max_tool_recoveries)
      × (is_unsafe c.tool_call ≡ false)
      × (c.tool_retryable ≡ true)
  | ActionKind.alternate_tool ↦
      (c.counters.tool_recoveries < c.limits.max_tool_recoveries)
      × (is_unsafe c.tool_call ≡ false)
      × (c.alternate_authorized ≡ true)
  | _ ↦ Unit
]

unfoldable pub Permitted : RecoveryContext → PolicyBundle → RecoveryAction → Type 0
unfolding Needs
Permitted c bundle a = Needs c bundle a a.action

-- The action ends the recovery at a terminal failure, an empty budget or a passed deadline.
unfoldable pub ends : ActionKind → Bool
ends kind = elim kind [
  | ActionKind.stop ↦ true
  | ActionKind.stop_budget ↦ true
  | ActionKind.stop_deadline ↦ true
  | _ ↦ false
]

-- Unless it ends the recovery, the action is proposed with funds and time left.
unfoldable pub Bounded : RecoveryContext → RecoveryAction → Type 0
Bounded c a =
    (ends a.action ≡ true) ⊎ ((0 < c.remaining_usd) × (c.elapsed_ms < c.limits.max_elapsed_ms))

abbrev pub Proper : RecoveryContext → PolicyBundle → Raise RecoveryAction → Type 0
Proper c bundle r = (a : RecoveryAction) → r ≡ ok a → Permitted c bundle a

pub Proper-ok :
    (c : RecoveryContext) (bundle : PolicyBundle) (a : RecoveryAction)
    → Permitted c bundle a
    → Proper c bundle (ok a)
Proper-ok c bundle a p b h = subst (Permitted c bundle) (ok-injective h) p

pub Permitted-attempts_exhausted :
    (c : RecoveryContext) (bundle : PolicyBundle) → Permitted c bundle (attempts_exhausted c)
unfolding Permitted Needs attempts_exhausted action_of
Permitted-attempts_exhausted c bundle = tt

or-false : (a b : Bool) → (a || b) ≡ false → (a ≡ false) × (b ≡ false)
or-false true b h = absurd (ground arith)
or-false false b h = (refl, h)

pub leb→gt : (a b : ℕ) → leb a b ≡ false → b < a
leb→gt a b h = ground arith

quality-left : (c : RecoveryContext) → quality_exhausted c ≡ false → QualityLeft c
unfolding quality_exhausted QualityLeft
quality-left c h = let (g, q) = or-false _ _ h in (leb→gt _ _ g, leb→gt _ _ q)

pub infrastructure-left :
    (c : RecoveryContext) → infrastructure_exhausted c ≡ false → InfrastructureLeft c
unfolding infrastructure_exhausted InfrastructureLeft
infrastructure-left c h = let (g, q) = or-false _ _ h in (leb→gt _ _ g, leb→gt _ _ q)

Permitted-quality_tier :
    (c : RecoveryContext) (bundle : PolicyBundle) (o : Option RouteTarget)
    → QualityLeft c
    → ((t : RouteTarget) → o ≡ some t → RaisesTier c bundle t)
    → Permitted c bundle (quality_tier c o)
unfolding Permitted Needs quality_tier action_of
Permitted-quality_tier c bundle none left all = tt
Permitted-quality_tier c bundle (some t) left all =
    (left, record { target = t; route = refl; holds = all t refl })

Proper-quality_effort :
    (c : RecoveryContext) (bundle : PolicyBundle) (model : ModelEntry) (o : Option Effort)
    → lookup c.decision.selected_model_alias bundle.models ≡ some model
    → next_prior_effort c bundle model ≡ o
    → QualityLeft c
    → Proper c bundle (quality_effort c bundle o)
unfolding quality_effort Permitted Needs action_of
Proper-quality_effort c bundle model none found e left = λ a h.
    let (o, q, k) = >>=-eq-ok (next_tier_target c.decision.selected_model_alias bundle) _ h in
    subst (Permitted c bundle) (ok-injective k)
      (Permitted-quality_tier c bundle o left (next_tier_target-RaisesTier c bundle o q))
Proper-quality_effort c bundle model (some effort) found e left = Proper-ok c bundle _ (
  left,
  record {
    target = record { model = c.decision.selected_model_alias; effort = effort };
    route = refl;
    holds = next_prior_effort-RaisesEffort c bundle model effort found e;
  },
)

pub Proper-if :
    (c : RecoveryContext) (bundle : PolicyBundle) (b : Bool) (x y : Raise RecoveryAction)
    → (b ≡ true → Proper c bundle x)
    → (b ≡ false → Proper c bundle y)
    → Proper c bundle (if b then x else y)
Proper-if c bundle true x y f g = f refl
Proper-if c bundle false x y f g = g refl

pub Permitted-if :
    (c : RecoveryContext) (bundle : PolicyBundle) (b : Bool) (x y : RecoveryAction)
    → (b ≡ true → Permitted c bundle x)
    → (b ≡ false → Permitted c bundle y)
    → Permitted c bundle (if b then x else y)
Permitted-if c bundle true x y f g = f refl
Permitted-if c bundle false x y f g = g refl

pub Proper-quality_recovery :
    (c : RecoveryContext) (bundle : PolicyBundle) → Proper c bundle (quality_recovery c bundle)
unfolding quality_recovery model_of
Proper-quality_recovery c bundle =
    Proper-if c bundle (quality_exhausted c) _ _
      (λ _. Proper-ok c bundle _ (Permitted-attempts_exhausted c bundle))
      (λ left a h.
        let (model, found, k) =
          >>=-eq-ok
            (or_raise (value_error "route refers to unknown model alias")
              (lookup c.decision.selected_model_alias bundle.models))
            _ h in
        Proper-quality_effort c bundle model _ (or_raise-ok _ _ found) refl (quality-left c left) a
          k)
