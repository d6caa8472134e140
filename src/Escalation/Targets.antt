-- ===== src/Escalation/Targets.antt =====
-- The targets that recovery proposes.
use openai_model_router.Prelude.{
  ℕ, ◌≤◌, ◌<◌, ◌≡◌, ◌≢◌, inl, inr, refl, sym, ap, subst, ◌∙◌, Option, none, some, List, [], ◌∷◌,
  Bool, true, false, Dict, lookup, ltb→lt, leb, beq-false→ne, nat_eq, string_eq, ◌&&◌, not,
  contains, contains→In, In, here, there, In-select, In-sort_by, Bool-cases, arith, ok, >>=-eq-ok,
  or_raise, ok-injective, Error, value_error,
}
use openai_model_router.Contracts.{ModelEntry, PolicyBundle, Effort, effort_eq, failure_eq}
use openai_model_router.Execution.{RouteTarget}
use openai_model_router.Escalation.Recovery.{
  RecoveryContext, model_of, later_than, first_of, configured_efforts, next_prior_effort,
  preferred_effort, by_rank, by_falling_rank, first_preferred, is_higher, next_tier_target,
  minimum_permitted_rank, is_fallback, permits, fallback_effort, first_healthy, healthy_fallback,
}

-- The target's effort comes later in the model's catalogue order than the current one, and the
-- band of the decision's complexity lists it for the current model.
pub record RaisesEffort (c : RecoveryContext) (bundle : PolicyBundle) (t : RouteTarget)
    : Type 0 where
  pub model : ModelEntry
  pub same : t.model ≡ c.decision.selected_model_alias
  pub configured : lookup c.decision.selected_model_alias bundle.models ≡ some model
  pub later : In t.effort (later_than c.decision.reasoning_effort model.reasoning_efforts)
  pub listed : In t.effort (configured_efforts c bundle)

-- The target is an enabled model of the bundle with a higher rank, at an effort that it supports.
pub record RaisesTier (c : RecoveryContext) (bundle : PolicyBundle) (t : RouteTarget) : Type 0 where
  pub current : ModelEntry
  pub model : ModelEntry
  pub configured : lookup c.decision.selected_model_alias bundle.models ≡ some current
  pub entry : In (t.model, model) bundle.models
  pub higher : current.tier_rank < model.tier_rank
  pub enabled : model.configured_enabled ≡ true
  pub supported : In t.effort model.reasoning_efforts

-- The target is another enabled and permitted model of the bundle, not above the current rank and
-- not below the hard floors, at an effort that it supports.
pub record FallsBack (c : RecoveryContext) (bundle : PolicyBundle) (t : RouteTarget) : Type 0 where
  pub current : ModelEntry
  pub model : ModelEntry
  pub configured : lookup c.decision.selected_model_alias bundle.models ≡ some current
  pub entry : In (t.model, model) bundle.models
  pub other : t.model ≢ c.decision.selected_model_alias
  pub floor : minimum_permitted_rank c ≤ model.tier_rank
  pub ceiling : model.tier_rank ≤ current.tier_rank
  pub enabled : model.configured_enabled ≡ true
  pub healthy : permits bundle.policy.exclude_states (lookup t.model c.environment.models) ≡ true
  pub supported : In t.effort model.reasoning_efforts

&&-true : (a b : Bool) → (a && b) ≡ true → (a ≡ true) × (b ≡ true)
&&-true true b h = (refl, h)
&&-true false b h = absurd (ground arith)

not-true : (b : Bool) → not b ≡ true → b ≡ false
not-true true h = sym h
not-true false h = refl

leb→le : (a b : ℕ) → leb a b ≡ true → a ≤ b
leb→le a b h = ground arith

pub or_raise-ok : {A : Type 0} {a : A} (o : Option A) (x : Error) → or_raise x o ≡ ok a → o ≡ some a
or_raise-ok none x h = cc
or_raise-ok (some b) x h = ap some (ok-injective h)

first_of-In : {A : Type 0} (xs : List A) (a : A) → first_of xs ≡ some a → In a xs
unfolding first_of
first_of-In [] a h = cc
first_of-In (x ∷ xs) a h = here cc

pub next_prior_effort-RaisesEffort :
    (c : RecoveryContext) (bundle : PolicyBundle) (model : ModelEntry) (e : Effort)
    → lookup c.decision.selected_model_alias bundle.models ≡ some model
    → next_prior_effort c bundle model ≡ some e
    → RaisesEffort c bundle (record { model = c.decision.selected_model_alias; effort = e })
unfolding next_prior_effort
next_prior_effort-RaisesEffort c bundle model e found h =
    let (later, listed) = In-select _ e _ (first_of-In _ e h) in
    record {
      model = model;
      same = refl;
      configured = found;
      later = later;
      listed = contains→In e (configured_efforts c bundle) listed;
    }

preferred_effort-In :
    (model : ModelEntry) (bundle : PolicyBundle) (e : Effort)
    → preferred_effort model bundle ≡ some e
    → In e model.reasoning_efforts
unfolding preferred_effort
preferred_effort-In model bundle e h =
    contains→In e model.reasoning_efforts (In-select _ e _ (first_of-In _ e h)).1

-- The entry that the search of a tier takes.
record Preferred (models : Dict ModelEntry) (t : RouteTarget) : Type 0 where
  model : ModelEntry
  entry : In (t.model, model) models
  supported : In t.effort model.reasoning_efforts

first_preferred-Preferred :
    (bundle : PolicyBundle) (models : Dict ModelEntry) (t : RouteTarget)
    → first_preferred bundle models ≡ some t
    → Preferred models t
unfolding first_preferred
first_preferred-Preferred bundle [] t h = cc
first_preferred-Preferred bundle ((alias, model) ∷ models) t h =
    go (preferred_effort model bundle) refl (first_preferred-Preferred bundle models t) h
  where
    later : Preferred models t → Preferred ((alias, model) ∷ models) t
    later p = record { model = p.model; entry = there p.entry; supported = p.supported }

    target :
        {e : Effort}
        → some (record { model = alias; effort = e }) ≡ some t
        → record { model = alias; effort = e } ≡ t
    target q = cc

    go :
        (o : Option Effort)
        → preferred_effort model bundle ≡ o
        → (first_preferred bundle models ≡ some t → Preferred models t)
        → (elim o [
          | none ↦ first_preferred bundle models
          | some e ↦ some (record { model = alias; effort = e })
        ])
          ≡ some t
        → Preferred ((alias, model) ∷ models) t
    go none p rec q = later (rec q)
    go (some e) p rec q = subst (Preferred ((alias, model) ∷ models)) (target q) (record {
      model = model;
      entry = here refl;
      supported = preferred_effort-In model bundle e p;
    })

pub next_tier_target-RaisesTier :
    (c : RecoveryContext) (bundle : PolicyBundle) (o : Option RouteTarget)
    → next_tier_target c.decision.selected_model_alias bundle ≡ ok o
    → (t : RouteTarget) → o ≡ some t
    → RaisesTier c bundle t
unfolding next_tier_target model_of is_higher
next_tier_target-RaisesTier c bundle o h t e =
    let (current, found, q) =
      >>=-eq-ok
        (or_raise (value_error "route refers to unknown model alias")
          (lookup c.decision.selected_model_alias bundle.models))
        _ h in
    let p = first_preferred-Preferred bundle _ t (ok-injective q ∙ e) in
    let (entry, test) =
      In-select (is_higher current.tier_rank) (t.model, p.model) bundle.models
        (In-sort_by by_rank (t.model, p.model) _ p.entry) in
    let (higher, enabled) = &&-true _ _ test in
    record {
      current = current;
      model = p.model;
      configured = or_raise-ok _ _ found;
      entry = entry;
      higher = ltb→lt _ _ higher;
      enabled = enabled;
      supported = p.supported;
    }

record Healthy (c : RecoveryContext) (bundle : PolicyBundle) (models : Dict ModelEntry)
    (t : RouteTarget) : Type 0 where
  model : ModelEntry
  entry : In (t.model, model) models
  healthy : permits bundle.policy.exclude_states (lookup t.model c.environment.models) ≡ true
  supported : In t.effort model.reasoning_efforts

fallback_effort-In :
    (c : RecoveryContext) (bundle : PolicyBundle) (model : ModelEntry) (e : Effort)
    → fallback_effort c bundle model ≡ some e
    → In e model.reasoning_efforts
unfolding fallback_effort
fallback_effort-In c bundle model e h =
    elim (Bool-cases (contains c.decision.reasoning_effort model.reasoning_efforts)) [
      | inl k ↦ subst (λ x. In x model.reasoning_efforts) (same (rw k at h)) (contains→In _ _ k)
      | inr k ↦ preferred_effort-In model bundle e (rw k at h)
    ]
  where
    same : {x : Effort} → some x ≡ some e → x ≡ e
    same q = cc

first_healthy-Healthy :
    (c : RecoveryContext) (bundle : PolicyBundle) (models : Dict ModelEntry) (t : RouteTarget)
    → first_healthy c bundle models ≡ some t
    → Healthy c bundle models t
unfolding first_healthy
first_healthy-Healthy c bundle [] t h = cc
first_healthy-Healthy c bundle ((alias, model) ∷ models) t h =
    elim (Bool-cases (permits bundle.policy.exclude_states (lookup alias c.environment.models))) [
      | inl k ↦
          go k (fallback_effort c bundle model) refl (first_healthy-Healthy c bundle models t)
            (rw k at h)
      | inr k ↦ later (first_healthy-Healthy c bundle models t (rw k at h))
    ]
  where
    later : Healthy c bundle models t → Healthy c bundle ((alias, model) ∷ models) t
    later p = record {
      model = p.model;
      entry = there p.entry;
      healthy = p.healthy;
      supported = p.supported;
    }

    target :
        {e : Effort}
        → some (record { model = alias; effort = e }) ≡ some t
        → record { model = alias; effort = e } ≡ t
    target q = cc

    go :
        permits bundle.policy.exclude_states (lookup alias c.environment.models) ≡ true
        → (o : Option Effort) → fallback_effort c bundle model ≡ o
        → (first_healthy c bundle models ≡ some t → Healthy c bundle models t)
        → (elim o [
          | none ↦ first_healthy c bundle models
          | some e ↦ some (record { model = alias; effort = e })
        ])
          ≡ some t
        → Healthy c bundle ((alias, model) ∷ models) t
    go k none p rec q = later (rec q)
    go k (some e) p rec q = subst (Healthy c bundle ((alias, model) ∷ models)) (target q) (record {
      model = model;
      entry = here refl;
      healthy = k;
      supported = fallback_effort-In c bundle model e p;
    })

pub healthy_fallback-FallsBack :
    (c : RecoveryContext) (bundle : PolicyBundle) (o : Option RouteTarget)
    → healthy_fallback c bundle ≡ ok o
    → (t : RouteTarget) → o ≡ some t
    → FallsBack c bundle t
unfolding healthy_fallback model_of is_fallback
healthy_fallback-FallsBack c bundle o h t e =
    let (current, found, q) =
      >>=-eq-ok
        (or_raise (value_error "route refers to unknown model alias")
          (lookup c.decision.selected_model_alias bundle.models))
        _ h in
    let p = first_healthy-Healthy c bundle _ t (ok-injective q ∙ e) in
    let (entry, test) =
      In-select
        (is_fallback c.decision.selected_model_alias (minimum_permitted_rank c) current.tier_rank)
        (t.model, p.model) bundle.models
        (In-sort_by by_falling_rank (t.model, p.model) _ p.entry) in
    let (test3, enabled) = &&-true _ _ test in
    let (test2, high) = &&-true _ _ test3 in
    let (other, low) = &&-true _ _ test2 in
    record {
      current = current;
      model = p.model;
      configured = or_raise-ok _ _ found;
      entry = entry;
      other = beq-false→ne t.model c.decision.selected_model_alias (not-true _ other);
      floor = leb→le _ _ low;
      ceiling = leb→le _ _ high;
      enabled = enabled;
      healthy = p.healthy;
      supported = p.supported;
    }
