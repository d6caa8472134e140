-- ===== src/Escalation/Programs.antt =====
-- The proposals of the recovery programs, and of `choose_recovery`.
use openai_model_router.Prelude.{
  ◌+◌, ◌<◌, ◌≡◌, inl, inr, refl, subst, Option, none, some, Bool, true, false, lookup, leb, ◌==◌,
  nat_eq, string_eq, ◌&&◌, not, contains, is_some, Bool-cases, arith, ok, >>=-eq-ok, ok-injective,
}
use openai_model_router.Contracts.{PolicyBundle, effort_eq, failure_eq}
use openai_model_router.Execution.{RouteTarget}
use openai_model_router.Escalation.Recovery.{
  ActionKind, RecoveryAction, RecoveryContext, action_of, current_route, backoff_ms,
  healthy_fallback, infrastructure_exhausted, retry_same, is_impaired, fall_back,
  infrastructure_recovery, is_unsafe, has_alternate, tool_recovery, recover, bounded_stop,
  choose_recovery, stopped, exceeds_bound,
}
use openai_model_router.Escalation.Targets.{FallsBack, healthy_fallback-FallsBack}
use openai_model_router.Escalation.Permitted.{
  Needs, Permitted, InfrastructureLeft, Proper, Proper-ok, Proper-if, Permitted-if,
  Permitted-attempts_exhausted, Proper-quality_recovery, leb→gt, infrastructure-left, Bounded, ends,
}

-- Stops and recoverable failures propose nothing.
inert : ActionKind → Bool
inert kind = elim kind [
  | ActionKind.recoverable_failure ↦ true
  | ActionKind.stop_reconcile ↦ true
  | ActionKind.diagnose ↦ true
  | ActionKind.stop ↦ true
  | ActionKind.stop_budget ↦ true
  | ActionKind.stop_deadline ↦ true
  | ActionKind.stop_attempts ↦ true
  | _ ↦ false
]

Needs-inert :
    (c : RecoveryContext) (bundle : PolicyBundle) (a : RecoveryAction) (kind : ActionKind)
    → inert kind ≡ true
    → Needs c bundle a kind
unfolding Needs inert
Needs-inert c bundle a ActionKind.recoverable_failure h = tt
Needs-inert c bundle a ActionKind.stop_reconcile h = tt
Needs-inert c bundle a ActionKind.diagnose h = tt
Needs-inert c bundle a ActionKind.stop h = tt
Needs-inert c bundle a ActionKind.stop_budget h = tt
Needs-inert c bundle a ActionKind.stop_deadline h = tt
Needs-inert c bundle a ActionKind.stop_attempts h = tt
Needs-inert c bundle a ActionKind.increase_effort h = absurd (ground arith)
Needs-inert c bundle a ActionKind.increase_tier h = absurd (ground arith)
Needs-inert c bundle a ActionKind.retry_backoff h = absurd (ground arith)
Needs-inert c bundle a ActionKind.health_aware_fallback h = absurd (ground arith)
Needs-inert c bundle a ActionKind.retry_tool h = absurd (ground arith)
Needs-inert c bundle a ActionKind.alternate_tool h = absurd (ground arith)

Permitted-inert :
    (c : RecoveryContext) (bundle : PolicyBundle) (a : RecoveryAction)
    → inert a.action ≡ true
    → Permitted c bundle a
unfolding Permitted
Permitted-inert c bundle a h = Needs-inert c bundle a a.action h

not-false : (b : Bool) → not b ≡ false → b ≡ true
not-false true h = refl
not-false false h = absurd (ground arith)

and-true : (a b : Bool) → (a && b) ≡ true → a ≡ true
and-true true b h = refl
and-true false b h = absurd (ground arith)

Permitted-retry :
    (c : RecoveryContext) (bundle : PolicyBundle) (a : RecoveryAction)
    → a.action ≡ ActionKind.retry_backoff
    → InfrastructureLeft c
    → c.failure.retryable ≡ true
    → a.backoff_ms ≡ backoff_ms c
    → c.elapsed_ms + a.backoff_ms < c.limits.max_elapsed_ms
    → a.route ≡ some (current_route c)
    → Permitted c bundle a
unfolding Permitted Needs
Permitted-retry c bundle a e left r b d t = rw e (left, r, b, d, t)

Permitted-retry_tool :
    (c : RecoveryContext) (bundle : PolicyBundle) (a : RecoveryAction)
    → a.action ≡ ActionKind.retry_tool
    → c.counters.tool_recoveries < c.limits.max_tool_recoveries
    → is_unsafe c.tool_call ≡ false
    → c.tool_retryable ≡ true
    → Permitted c bundle a
unfolding Permitted Needs
Permitted-retry_tool c bundle a e left safe r = rw e (left, safe, r)

Permitted-alternate_tool :
    (c : RecoveryContext) (bundle : PolicyBundle) (a : RecoveryAction)
    → a.action ≡ ActionKind.alternate_tool
    → c.counters.tool_recoveries < c.limits.max_tool_recoveries
    → is_unsafe c.tool_call ≡ false
    → c.alternate_authorized ≡ true
    → Permitted c bundle a
unfolding Permitted Needs
Permitted-alternate_tool c bundle a e left safe r = rw e (left, safe, r)

Permitted-retry_same :
    (c : RecoveryContext) (bundle : PolicyBundle)
    → InfrastructureLeft c
    → Permitted c bundle (retry_same c)
unfolding retry_same action_of inert
Permitted-retry_same c bundle left =
    Permitted-if c bundle (not c.failure.retryable) _ _ (λ _. Permitted-inert c bundle _ refl)
      (λ r.
        Permitted-if c bundle (exceeds_bound c.failure.retry_after_ms c.limits.max_backoff_ms) _ _
          (λ _. Permitted-inert c bundle _ refl)
          (λ _.
            Permitted-if c bundle (leb c.limits.max_elapsed_ms (c.elapsed_ms + backoff_ms c)) _ _
              (λ _. Permitted-inert c bundle _ refl)
              (λ d. Permitted-retry c bundle _ refl left (not-false _ r) refl (leb→gt _ _ d) refl)))

Permitted-fall_back :
    (c : RecoveryContext) (bundle : PolicyBundle) (lost : Bool) (o : Option RouteTarget)
    → InfrastructureLeft c
    → ((t : RouteTarget) → o ≡ some t → FallsBack c bundle t)
    → Permitted c bundle (fall_back c lost o)
unfolding fall_back action_of Permitted Needs
Permitted-fall_back c bundle lost (some t) left all =
    (left, record { target = t; route = refl; holds = all t refl })
Permitted-fall_back c bundle true none left all = tt
Permitted-fall_back c bundle false none left all = Permitted-retry_same c bundle left

Proper-infrastructure_recovery :
    (c : RecoveryContext) (bundle : PolicyBundle)
    → Proper c bundle (infrastructure_recovery c bundle)
unfolding infrastructure_recovery
Proper-infrastructure_recovery c bundle =
    Proper-if c bundle (infrastructure_exhausted c) _ _
      (λ _. Proper-ok c bundle _ (Permitted-attempts_exhausted c bundle))
      (λ left.
        Proper-if c bundle
          (is_impaired (lookup c.decision.selected_model_alias c.environment.models)) _ _
          (λ _ a h.
            let (o, q, k) = >>=-eq-ok (healthy_fallback c bundle) _ h in
            subst (Permitted c bundle) (ok-injective k) (
              Permitted-fall_back c bundle _ o (infrastructure-left c left)
                (healthy_fallback-FallsBack c bundle o q)))
          (λ _. Proper-ok c bundle _ (Permitted-retry_same c bundle (infrastructure-left c left))))

Permitted-tool_recovery :
    (c : RecoveryContext) (bundle : PolicyBundle) → Permitted c bundle (tool_recovery c)
unfolding tool_recovery action_of inert
Permitted-tool_recovery c bundle =
    Permitted-if c bundle (leb c.limits.max_tool_recoveries c.counters.tool_recoveries) _ _
      (λ _. Permitted-attempts_exhausted c bundle)
      (λ left.
        Permitted-if c bundle (is_unsafe c.tool_call) _ _ (λ _. Permitted-inert c bundle _ refl)
          (λ safe.
            Permitted-if c bundle (c.tool_retryable && is_some c.tool_call) _ _
              (λ retry.
                Permitted-retry_tool c bundle _ refl (leb→gt _ _ left) safe (and-true _ _ retry))
              (λ _.
                Permitted-if c bundle (c.alternate_authorized && has_alternate c.tool_call) _ _
                  (λ alternate.
                    Permitted-alternate_tool c bundle _ refl (leb→gt _ _ left) safe
                      (and-true _ _ alternate))
                  (λ _. Permitted-inert c bundle _ refl))))

Proper-recover : (c : RecoveryContext) (bundle : PolicyBundle) → Proper c bundle (recover c bundle)
unfolding recover action_of inert
Proper-recover c bundle =
    Proper-if c bundle (contains c.failure.failure_type bundle.policy.escalation.quality) _ _
      (λ _. Proper-quality_recovery c bundle)
      (λ _.
        Proper-if c bundle (contains c.failure.failure_type bundle.policy.escalation.infrastructure)
          _ _ (λ _. Proper-infrastructure_recovery c bundle)
          (λ _.
            Proper-if c bundle (contains c.failure.failure_type bundle.policy.escalation.tool) _ _
              (λ _. Proper-ok c bundle _ (Permitted-tool_recovery c bundle))
              (λ _.
                Proper-if c bundle
                  (contains c.failure.failure_type bundle.policy.escalation.diagnostic) _ _
                  (λ _. Proper-ok c bundle _ (Permitted-inert c bundle _ refl))
                  (λ _. Proper-ok c bundle _ (Permitted-inert c bundle _ refl)))))

running :
    (c : RecoveryContext)
    → (c.remaining_usd == 0) ≡ false
    → leb c.limits.max_elapsed_ms c.elapsed_ms ≡ false
    → (0 < c.remaining_usd) × (c.elapsed_ms < c.limits.max_elapsed_ms)
running c b d = (ground arith, leb→gt _ _ d)

-- A stop is bounded and proposes nothing.
stops :
    (c : RecoveryContext) (bundle : PolicyBundle) (x a : RecoveryAction)
    → ends x.action ≡ true
    → inert x.action ≡ true
    → x ≡ a
    → Bounded c a × Permitted c bundle a
unfolding Bounded
stops c bundle x a e i q =
    subst (λ a. Bounded c a × Permitted c bundle a) q (inl e, Permitted-inert c bundle x i)

-- When `choose_recovery` returns an action, either the action is a final stop or funds and time
-- are left. An effort step is to a later effort of the same model that the band lists, a tier
-- step to an enabled model of a higher rank, each with generation attempts and quality
-- escalations left. A backoff repeats the current route after a retryable failure, with its delay
-- before the deadline, and a fallback is to another enabled and permitted model between the hard
-- floors and the current rank, each with generation attempts and infrastructure retries left. A
-- tool action is not for an unsafe side effect and has tool recoveries left, a retry is for a
-- retryable failure and an alternate tool was authorized.
pub choose_recovery-Permitted :
    (c : RecoveryContext) (bundle : PolicyBundle) (a : RecoveryAction)
    → choose_recovery c bundle ≡ ok a
    → Bounded c a × Permitted c bundle a
unfolding choose_recovery bounded_stop action_of stopped ends inert Bounded
choose_recovery-Permitted c bundle a h =
    elim (Bool-cases (contains c.failure.failure_type bundle.policy.escalation.terminal)) [
      | inl t ↦
          stops c bundle (action_of c ActionKind.stop "terminal_failure") a refl refl
            (ok-injective (rw t at h))
      | inr t ↦ elim (Bool-cases (c.remaining_usd == 0)) [
        | inl b ↦
            stops c bundle (stopped c ActionKind.stop_budget "remaining_budget_exhausted") a refl
              refl (ok-injective (rw b at (rw t at h)))
        | inr b ↦ elim (Bool-cases (leb c.limits.max_elapsed_ms c.elapsed_ms)) [
          | inl d ↦
              stops c bundle (stopped c ActionKind.stop_deadline "recovery_deadline_exhausted") a
                refl refl (ok-injective (rw d at (rw b at (rw t at h))))
          | inr d ↦
              (within (running c b d), Proper-recover c bundle a (rw d at (rw b at (rw t at h))))
        ]
      ]
    ]
  where
    within : (0 < c.remaining_usd) × (c.elapsed_ms < c.limits.max_elapsed_ms) → Bounded c a
    within r = inr r
