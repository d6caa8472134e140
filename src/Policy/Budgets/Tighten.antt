-- ===== src/Policy/Budgets/Tighten.antt =====
-- Overlays can only narrow the limits below them.
use openai_model_router.Prelude.{
  ℕ, ◌≤◌, ◌≡◌, refl, subst, Option, none, some, Bool, true, false, max, min, ◌&&◌, arith, ok,
  raise_if-eq-ok, ok-injective,
}
use openai_model_router.Contracts.{Limits, Period, period_eq, day, calendar_month}
use openai_model_router.Policy.Budgets.{present_or, join, period_differs, tightened, tighten}

-- A lower bound that is given stays, or rises.
abbrev pub Raised : Option ℕ → Option ℕ → Type 0
Raised none new = Unit
Raised (some floor) none = ⊥
Raised (some floor) (some floor') = floor ≤ floor'

-- An upper bound that is given stays, or falls.
abbrev pub Lowered : Option ℕ → Option ℕ → Type 0
Lowered none new = Unit
Lowered (some bound) none = ⊥
Lowered (some bound) (some bound') = bound' ≤ bound

-- A permission that is withheld stays withheld, and one that is stated stays stated.
abbrev pub Withheld : Option Bool → Option Bool → Type 0
Withheld none new = Unit
Withheld (some old) none = ⊥
Withheld (some false) (some new) = new ≡ false
Withheld (some true) (some new) = Unit

abbrev pub Pinned : Option Period → Option Period → Type 0
Pinned none new = Unit
Pinned (some p) new = new ≡ some p

-- `new` is at least as strict as `old` in every field.
pub record Narrows (old new : Limits) : Type 0 where
  pub floor : Raised old.model_tier_floor new.model_tier_floor
  pub ceiling : Lowered old.model_tier_ceiling new.model_tier_ceiling
  pub cost : Lowered old.task_cost_ceiling_usd new.task_cost_ceiling_usd
  pub deadline : Lowered old.task_deadline_ms new.task_deadline_ms
  pub spend : Lowered old.period_spend_ceiling_usd new.period_spend_ceiling_usd
  pub period : Pinned old.period new.period
  pub live : Withheld old.live_execution_enabled new.live_execution_enabled

join-max : (a b : Option ℕ) → Raised a (join max a b) × Raised b (join max a b)
unfolding join
join-max none none = (tt, tt)
join-max none (some b) = (tt, omega arith)
join-max (some a) none = (omega arith, tt)
join-max (some a) (some b) = (omega arith, omega arith)

join-min : (a b : Option ℕ) → Lowered a (join min a b) × Lowered b (join min a b)
unfolding join
join-min none none = (tt, tt)
join-min none (some b) = (tt, omega arith)
join-min (some a) none = (omega arith, tt)
join-min (some a) (some b) = (omega arith, omega arith)

Withheld-refl : (b : Bool) → Withheld (some b) (some b)
Withheld-refl true = tt
Withheld-refl false = refl

join-and : (a b : Option Bool) → Withheld a (join ◌&&◌ a b) × Withheld b (join ◌&&◌ a b)
unfolding join
join-and none none = (tt, tt)
join-and none (some b) = (tt, Withheld-refl b)
join-and (some a) none = (Withheld-refl a, tt)
join-and (some true) (some true) = (tt, tt)
join-and (some true) (some false) = (tt, refl)
join-and (some false) (some true) = (refl, tt)
join-and (some false) (some false) = (refl, refl)

period-Pinned :
    (a b : Option Period)
    → period_differs a b ≡ false
    → Pinned a (present_or b a) × Pinned b (present_or b a)
unfolding period_differs present_or
period-Pinned none none h = (tt, tt)
period-Pinned none (some b) h = (tt, refl)
period-Pinned (some a) none h = (refl, tt)
period-Pinned (some day) (some day) h = (refl, refl)
period-Pinned (some calendar_month) (some calendar_month) h = (refl, refl)
period-Pinned (some day) (some calendar_month) h = absurd (ground arith)
period-Pinned (some calendar_month) (some day) h = absurd (ground arith)

tightened-Narrows :
    (base overlay : Limits)
    → period_differs base.period overlay.period ≡ false
    → Narrows base (tightened base overlay) × Narrows overlay (tightened base overlay)
unfolding tightened
tightened-Narrows base overlay same = (
  record {
    floor = (join-max base.model_tier_floor overlay.model_tier_floor).0;
    ceiling = (join-min base.model_tier_ceiling overlay.model_tier_ceiling).0;
    cost = (join-min base.task_cost_ceiling_usd overlay.task_cost_ceiling_usd).0;
    deadline = (join-min base.task_deadline_ms overlay.task_deadline_ms).0;
    spend = (join-min base.period_spend_ceiling_usd overlay.period_spend_ceiling_usd).0;
    period = (period-Pinned base.period overlay.period same).0;
    live = (join-and base.live_execution_enabled overlay.live_execution_enabled).0;
  },
  record {
    floor = (join-max base.model_tier_floor overlay.model_tier_floor).1;
    ceiling = (join-min base.model_tier_ceiling overlay.model_tier_ceiling).1;
    cost = (join-min base.task_cost_ceiling_usd overlay.task_cost_ceiling_usd).1;
    deadline = (join-min base.task_deadline_ms overlay.task_deadline_ms).1;
    spend = (join-min base.period_spend_ceiling_usd overlay.period_spend_ceiling_usd).1;
    period = (period-Pinned base.period overlay.period same).1;
    live = (join-and base.live_execution_enabled overlay.live_execution_enabled).1;
  },
)

-- When `tighten` accepts an overlay, the result is at least as narrow as the base and as the
-- overlay in every field.
pub tighten-Narrows :
    (base overlay : Limits) {result : Limits}
    → tighten base overlay ≡ ok result
    → Narrows base result × Narrows overlay result
unfolding tighten
tighten-Narrows base overlay {result} h =
    let (same, e) = raise_if-eq-ok _ _ _ h in
    subst (λ r. Narrows base r × Narrows overlay r) (ok-injective e)
      (tightened-Narrows base overlay same)

Raised-trans : (a b c : Option ℕ) → Raised a b → Raised b c → Raised a c
Raised-trans none b c h k = tt
Raised-trans (some a) none c h k = absurd h
Raised-trans (some a) (some b) none h k = absurd k
Raised-trans (some a) (some b) (some c) h k = omega arith

Lowered-trans : (a b c : Option ℕ) → Lowered a b → Lowered b c → Lowered a c
Lowered-trans none b c h k = tt
Lowered-trans (some a) none c h k = absurd h
Lowered-trans (some a) (some b) none h k = absurd k
Lowered-trans (some a) (some b) (some c) h k = omega arith

Withheld-trans : (a b c : Option Bool) → Withheld a b → Withheld b c → Withheld a c
Withheld-trans none b c h k = tt
Withheld-trans (some a) none c h k = ground arith
Withheld-trans (some a) (some b) none h k = ground arith
Withheld-trans (some true) (some b) (some c) h k = tt
Withheld-trans (some false) (some b) (some c) h k = ground arith

Pinned-trans : (a b c : Option Period) → Pinned a b → Pinned b c → Pinned a c
Pinned-trans none b c h k = tt
Pinned-trans (some p) b c h k = ground arith

pub Narrows-trans : {a b c : Limits} → Narrows a b → Narrows b c → Narrows a c
Narrows-trans {a} {b} {c} h k = record {
  floor = Raised-trans _ b.model_tier_floor _ h.floor k.floor;
  ceiling = Lowered-trans _ b.model_tier_ceiling _ h.ceiling k.ceiling;
  cost = Lowered-trans _ b.task_cost_ceiling_usd _ h.cost k.cost;
  deadline = Lowered-trans _ b.task_deadline_ms _ h.deadline k.deadline;
  spend = Lowered-trans _ b.period_spend_ceiling_usd _ h.spend k.spend;
  period = Pinned-trans _ b.period _ h.period k.period;
  live = Withheld-trans _ b.live_execution_enabled _ h.live k.live;
}
