-- ===== src/Execution/Admission/Exact.antt =====
-- `check_admission` finds no blocker exactly where every condition holds.
use openai_model_router.Prelude.{
  ℕ, ◌≡◌, ◌≢◌, ◌↔◌, ◌⊎◌, inl, inr, refl, subst, String, Option, none, some, Bool, true, false, ◌&&◌,
  ◌||◌, not, any, contains→In, In→contains, In, is_some, is_empty, if◌then◌else◌, string_eq, arith,
}
use openai_model_router.Execution.{
  Failure, ExecutionLimits, Counters, ToolCall, ExecutionControls, Price, amount,
}
use openai_model_router.Execution.Admission.{
  is_alternate, same_call, undeclared, unsafe_replay, check_tool, needs_tool, check_admission,
}
use openai_model_router.Execution.Admission.Bounds.{
  block_if-eq-none, not-false, AttemptsLeft, attempt_blocker-none, WithinBounds, time_blocker-none,
  cost_blocker-none, within-none,
}

-- No calls are declared, or the call is a declared one or the alternate of a declared one.
abbrev pub Declared : ExecutionControls → ToolCall → Type 0
Declared controls call =
    (is_empty controls.tool_calls ≡ true)
    ⊎ (any (same_call call) controls.tool_calls ≡ true)
    ⊎ (is_alternate controls call ≡ true)

-- The call is no replay, has no side effect, was reconciled, or is a declared call under a key.
abbrev pub Replayable : ExecutionControls → ToolCall → Bool → Type 0
Replayable controls call replay =
    (replay ≡ false)
    ⊎ (call.side_effecting ≡ false)
    ⊎ (call.reconciliation_evidence ≡ true)
    ⊎ ((is_alternate controls call ≡ false) × (is_some call.idempotency_key ≡ true))

pub record ToolPermitted (controls : ExecutionControls) (call : Option ToolCall) (replay : Bool)
    : Type 0 where
  pub the_call : ToolCall
  pub call_eq : call ≡ some the_call
  pub tool : In the_call.tool controls.authorized_tools
  pub declared : Declared controls the_call
  pub effects : (the_call.side_effecting ≡ false) ⊎ (controls.side_effects_authorized ≡ true)
  pub replay_safe : Replayable controls the_call replay

undeclared-Declared :
    (controls : ExecutionControls) (call : ToolCall)
    → (undeclared controls call ≡ false) ↔ Declared controls call
unfolding undeclared
undeclared-Declared controls call =
    go (is_empty controls.tool_calls) (any (same_call call) controls.tool_calls)
      (is_alternate controls call)
  where
    go :
        (a b c : Bool)
        → ((not a && not b && not c) ≡ false) ↔ ((a ≡ true) ⊎ (b ≡ true) ⊎ (c ≡ true))
    go true b c = ground arith
    go false true c = ground arith
    go false false true = ground arith
    go false false false = ground arith

unsafe_replay-Replayable :
    (controls : ExecutionControls) (call : ToolCall) (replay : Bool)
    → (unsafe_replay controls call replay ≡ false) ↔ Replayable controls call replay
unfolding unsafe_replay
unsafe_replay-Replayable controls call replay =
    go replay call.side_effecting call.reconciliation_evidence (is_alternate controls call)
      (is_some call.idempotency_key)
  where
    go :
        (r s e a k : Bool)
        → ((r && s && not e && (a || not k)) ≡ false)
          ↔ ((r ≡ false) ⊎ (s ≡ false) ⊎ (e ≡ true) ⊎ ((a ≡ false) × (k ≡ true)))
    go false s e a k = ground arith
    go true false e a k = ground arith
    go true true true a k = ground arith
    go true true false true k = ground arith
    go true true false false true = ground arith
    go true true false false false = ground arith

effects-false : (s a : Bool) → ((s && not a) ≡ false) ↔ ((s ≡ false) ⊎ (a ≡ true))
effects-false false a = ground arith
effects-false true true = ground arith
effects-false true false = ground arith

check_tool-ToolPermitted :
    (controls : ExecutionControls) (call : Option ToolCall) (replay : Bool)
    → (check_tool controls call replay ≡ none) ↔ ToolPermitted controls call replay
unfolding check_tool
check_tool-ToolPermitted controls none replay =
    (λ h. absurd (no_failure h), λ p. absurd (no_call p.call_eq))
  where
    no_failure : {f : Failure} → some f ≢ none
    no_failure h = cc

    no_call : {c : ToolCall} → none ≢ some c
    no_call h = cc
check_tool-ToolPermitted controls (some call) replay = (forward, backward)
  where
    forward :
        check_tool controls (some call) replay ≡ none → ToolPermitted controls (some call) replay
    forward h =
        let (t, h1) = (block_if-eq-none _ _ _).0 h in
        let (d, h2) = (block_if-eq-none _ _ _).0 h1 in
        let (e, h3) = (block_if-eq-none _ _ _).0 h2 in
        let (r, _) = (block_if-eq-none _ _ _).0 h3 in
        record {
          the_call = call;
          call_eq = refl;
          tool = contains→In call.tool controls.authorized_tools ((not-false _).0 t);
          declared = (undeclared-Declared controls call).0 d;
          effects = (effects-false _ _).0 e;
          replay_safe = (unsafe_replay-Replayable controls call replay).0 r;
        }

    same : {c : ToolCall} → some call ≡ some c → c ≡ call
    same h = cc

    permitted :
        In call.tool controls.authorized_tools
        → Declared controls call
        → (call.side_effecting ≡ false) ⊎ (controls.side_effects_authorized ≡ true)
        → Replayable controls call replay
        → check_tool controls (some call) replay ≡ none
    permitted t d e r = (block_if-eq-none _ _ _).1 (
      (not-false _).1 (In→contains call.tool controls.authorized_tools t),
      (block_if-eq-none _ _ _).1 (
        (undeclared-Declared controls call).1 d,
        (block_if-eq-none _ _ _).1 (
          (effects-false _ _).1 e,
          (block_if-eq-none _ _ _).1 ((unsafe_replay-Replayable controls call replay).1 r, refl),
        ),
      ),
    )

    backward :
        ToolPermitted controls (some call) replay → check_tool controls (some call) replay ≡ none
    backward p =
        permitted (subst (λ c. In c.tool controls.authorized_tools) (same p.call_eq) p.tool)
          (subst (Declared controls) (same p.call_eq) p.declared)
          (subst
            (λ (c : ToolCall).
              (c.side_effecting ≡ false) ⊎ (controls.side_effects_authorized ≡ true))
            (same p.call_eq) p.effects)
          (subst (λ c. Replayable controls c replay) (same p.call_eq) p.replay_safe)

-- Every condition of an admitted action.
pub record IsAdmitted (controls : ExecutionControls) (limits : Option ExecutionLimits)
    (counters : Counters) (elapsed : Option ℕ) (remaining cost : Price) (action : String)
    (replay : Bool) (call : Option ToolCall) : Type 0 where
  pub the_limits : ExecutionLimits
  pub limits_eq : limits ≡ some the_limits
  pub authorized : controls.authorized ≡ true
  pub bounds : WithinBounds the_limits elapsed (amount remaining) (amount cost)
  pub attempts : AttemptsLeft action counters the_limits
  pub tool : (needs_tool action call ≡ false) ⊎ ToolPermitted controls call replay

tool-none :
    (controls : ExecutionControls) (action : String) (replay : Bool) (call : Option ToolCall)
    → ((if needs_tool action call then check_tool controls call replay else none) ≡ none)
      ↔ ((needs_tool action call ≡ false) ⊎ ToolPermitted controls call replay)
tool-none controls action replay call = go (needs_tool action call)
  where
    go :
        (b : Bool)
        → ((if b then check_tool controls call replay else none) ≡ none)
          ↔ ((b ≡ false) ⊎ ToolPermitted controls call replay)
    go true = (
      λ h. inr ((check_tool-ToolPermitted controls call replay).0 h),
      λ p. elim p [
        | inl e ↦ absurd (ground arith)
        | inr q ↦ (check_tool-ToolPermitted controls call replay).1 q
      ],
    )
    go false = (λ h. inl refl, λ p. refl)

-- `check_admission` finds no blocker exactly where execution limits are given, execution is
-- authorized, the elapsed time is valid and below the limit, both amounts are valid, the cost is
-- at most the task ceiling and the remaining funds, the action is known and has attempts left in
-- each class that it belongs to, and, where it needs a tool, the call is given, its tool is
-- authorized, the call is declared where calls are declared, its side effects are authorized, and
-- a replay of it is safe.
pub check_admission-IsAdmitted :
    (controls : ExecutionControls) (limits : Option ExecutionLimits) (counters : Counters)
    (elapsed : Option ℕ) (remaining cost : Price) (action : String) (replay : Bool)
    (call : Option ToolCall)
    → (check_admission controls limits counters elapsed remaining cost action replay call ≡ none)
      ↔ IsAdmitted controls limits counters elapsed remaining cost action replay call
unfolding check_admission
check_admission-IsAdmitted controls none counters elapsed remaining cost action replay call =
    (λ h. absurd (no_failure h), λ p. absurd (no_limits p.limits_eq))
  where
    no_failure : {f : Failure} → some f ≢ none
    no_failure h = cc

    no_limits : {l : ExecutionLimits} → none ≢ some l
    no_limits h = cc
check_admission-IsAdmitted controls (some limits) counters elapsed remaining cost action replay
      call =
    (forward, backward)
  where
    tool_step : Option Failure
    tool_step = if needs_tool action call then check_tool controls call replay else none

    forward :
        check_admission controls (some limits) counters elapsed remaining cost action replay call
          ≡ none
        → IsAdmitted controls (some limits) counters elapsed remaining cost action replay call
    forward h =
        let (a, h1) = (block_if-eq-none _ _ _).0 h in
        let (at, te, td, h2) = time_blocker-none limits elapsed _ h1 in
        let (left, h3) = (attempt_blocker-none action counters limits _).0 h2 in
        let (r, c, re, ce, k, f, h4) =
          cost_blocker-none limits (amount remaining) (amount cost) _ h3 in
        record {
          the_limits = limits;
          limits_eq = refl;
          authorized = (not-false _).0 a;
          bounds = record {
            at = at;
            left = r;
            price = c;
            elapsed_eq = te;
            remaining_eq = re;
            cost_eq = ce;
            deadline = td;
            ceiling = k;
            funds = f;
          };
          attempts = left;
          tool = (tool-none controls action replay call).0 h4;
        }

    same : {l : ExecutionLimits} → some limits ≡ some l → l ≡ limits
    same h = cc

    admitted :
        controls.authorized ≡ true
        → WithinBounds limits elapsed (amount remaining) (amount cost)
        → AttemptsLeft action counters limits
        → (needs_tool action call ≡ false) ⊎ ToolPermitted controls call replay
        → check_admission controls (some limits) counters elapsed remaining cost action replay call
          ≡ none
    admitted a w left t =
        let (time, funds) = within-none limits elapsed (amount remaining) (amount cost) w in
        (block_if-eq-none _ _ _).1 (
          (not-false _).1 a,
          time _ (
              (attempt_blocker-none action counters limits _).1
                (left, funds tool_step ((tool-none controls action replay call).1 t))),
        )

    backward :
        IsAdmitted controls (some limits) counters elapsed remaining cost action replay call
        → check_admission controls (some limits) counters elapsed remaining cost action replay call
          ≡ none
    backward p =
        admitted p.authorized
          (subst (λ l. WithinBounds l elapsed (amount remaining) (amount cost)) (same p.limits_eq)
            p.bounds)
          (subst (AttemptsLeft action counters) (same p.limits_eq) p.attempts) p.tool
