-- ===== src/Router/Laws/Selection.antt =====
-- A valid outcome decides for one of the feasible items.
use openai_model_router.Prelude.{
  ℕ, ◌≡◌, refl, subst, String, Option, none, some, List, [], ◌∷◌, Bool, true, false, In, here,
  In-append, In-select, select, concat_map, is_empty, or_else, Bool-cases, inl, inr, ◌⊎◌, arith,
  if◌then◌else◌, ◌||◌, not, Raise, ok, raise, ◌>>=◌, ◌>>◌, raise_if, ok-injective, or_raise,
  key_error, Error, ◌==◌,
}
use openai_model_router.Contracts.{Candidate, FailureType, Source, source_eq}
use openai_model_router.Router.Assess.{Item, Removed}
use openai_model_router.Router.Choose.{
  prefer_certified, is_certified, at_floor, recovery_order, pair_of, selection_pool, is_healthy,
  select_item,
}
use openai_model_router.Router.Decide.{
  RouteDecision, RouteRejection, Outcome, valid, rejected, Setting, reject, reject_infeasible,
  reject_recovery, decision_of, decide, conclude, order_and_conclude, choose,
}

-- `P` holds of the decision, if the outcome is one.
pub record OnValid (P : RouteDecision → Type 0) (r : Raise Outcome) : Type 0 where
  pub holds : (d : RouteDecision) → r ≡ ok (valid d) → P d

In-prefer_certified : (i : Item) (items : List Item) → In i (prefer_certified items) → In i items
unfolding prefer_certified
In-prefer_certified i items m = elim (Bool-cases (is_empty (select is_certified items))) [
  | inl e ↦ rw e at m
  | inr e ↦ (In-select is_certified i items (rw e at m)).0
]

In-at_floor : (floor : ℕ) (i : Item) (items : List Item) → In i (at_floor floor items) → In i items
unfolding at_floor
In-at_floor floor i items m = (In-select _ i items m).0

In-recovery_order :
    (wanted : List Candidate) (i : Item) (items : List Item)
    → In i (recovery_order wanted items)
    → In i items
unfolding recovery_order concat_map
In-recovery_order [] i items m = elim m [ ]
In-recovery_order (w ∷ ws) i items m =
    elim (In-append i (select (pair_of w) items) (recovery_order ws items) m) [
      | inl n ↦ (In-select (pair_of w) i items n).0
      | inr n ↦ In-recovery_order ws i items n
    ]

In-selection_pool :
    (recovering : Bool) (i : Item) (items : List Item)
    → In i (selection_pool recovering items)
    → In i items
unfolding selection_pool
In-selection_pool recovering i items m =
    elim (Bool-cases
      (recovering || is_empty (select (λ j. not (j.candidate.source == Source.fallback)) items))) [
        | inl e ↦ rw e at m
        | inr e ↦ (In-select _ i items (rw e at m)).0
      ]

In-or_else : (i : Item) (xs ys : List Item) → In i (or_else xs ys) → In i xs ⊎ In i ys
In-or_else i [] ys m = inr m
In-or_else i (x ∷ xs) ys m = inl m

-- The selected item is one of the items.
pub select_item-In :
    (recovering : Bool) (items : List Item) (i : Item)
    → select_item recovering items ≡ some i
    → In i items
unfolding select_item
select_item-In recovering items i h = In-selection_pool recovering i items (
    from_either
      (In-or_else i (select is_healthy pool) pool (head (or_else (select is_healthy pool) pool) h)))
  where
    pool : List Item
    pool = selection_pool recovering items

    head : (xs : List Item) → (elim xs [ [] ↦ none | x ∷ _ ↦ some x ]) ≡ some i → In i xs
    head [] q = absurd (ground arith)
    head (x ∷ xs) q = here (cc q)

    from_either : In i (select is_healthy pool) ⊎ In i pool → In i pool
    from_either (inl m) = (In-select is_healthy i pool m).0
    from_either (inr m) = m

-- The decisions of a setting about admissible items.
module _ (P : RouteDecision → Type 0) (s : Setting) where
  OnValid-raise : (e : Error) → OnValid P (raise e)
  OnValid-raise e = record { holds = λ d h. cc }

  OnValid-rejected : (m : Raise (Unit {0})) (x : RouteRejection) → OnValid P (m >> ok (rejected x))
  OnValid-rejected (ok u) x = record { holds = λ d h. cc (ok-injective h) }
  OnValid-rejected (raise e) x = OnValid-raise e

  OnValid-valid : (m : Raise (Unit {0})) (d : RouteDecision) → P d → OnValid P (m >> ok (valid d))
  OnValid-valid (ok u) d p = record { holds = λ d' h. subst P (cc (ok-injective h)) p }
  OnValid-valid (raise e) d p = OnValid-raise e

  OnValid-guard :
      (b : Bool) (e : Error) (k : Raise Outcome) → OnValid P k → OnValid P (raise_if b e >> k)
  OnValid-guard true e k h = OnValid-raise e
  OnValid-guard false e k h = h

  pub OnValid-if :
      (b : Bool) (x y : Raise Outcome) → OnValid P x → OnValid P y → OnValid P (if b then x else y)
  OnValid-if true x y h k = h
  OnValid-if false x y h k = k

  pub OnValid-reject :
      (codes : List String) (f : FailureType) (v : List String) (r : Bool)
      → OnValid P (reject s codes f v r)
  unfolding reject
  OnValid-reject codes f v r = OnValid-rejected _ _

  pub OnValid-reject_infeasible :
      (codes : List String) (removed : List Removed) → OnValid P (reject_infeasible s codes removed)
  unfolding reject_infeasible
  OnValid-reject_infeasible codes removed = search (OnValid-if, OnValid-reject)

  OnValid-reject_recovery :
      (codes : List String) (wanted : List Candidate) (removed : List Removed)
      → OnValid P (reject_recovery s codes wanted removed)
  unfolding reject_recovery
  OnValid-reject_recovery codes wanted removed = search (OnValid-if, OnValid-reject)

  module _ (items : List Item)
      (sound : (codes : List String) (i : Item) → In i items → P (decision_of s codes i)) where
    OnValid-conclude :
        (codes : List String) (recovering : Bool) (kept : List Item)
        → ((i : Item) → In i kept → In i items)
        → OnValid P (conclude s codes recovering kept)
    unfolding conclude decide
    OnValid-conclude codes recovering kept sub = chosen (select_item recovering kept) refl
      where
        chosen :
            (o : Option Item)
            → select_item recovering kept ≡ o
            → OnValid P (or_raise (key_error "list index out of range") o >>= decide s codes)
        chosen none e = OnValid-raise _
        chosen (some i) e =
            OnValid-valid _ _ (sound codes i (sub i (select_item-In recovering kept i e)))

    OnValid-order_and_conclude :
        (codes : List String) (removed : List Removed) (o : Option (List Candidate))
        (kept : List Item)
        → ((i : Item) → In i kept → In i items)
        → OnValid P (order_and_conclude s codes removed o kept)
    unfolding order_and_conclude
    OnValid-order_and_conclude codes removed none kept sub = OnValid-conclude codes false kept sub
    OnValid-order_and_conclude codes removed (some wanted) kept sub =
        OnValid-if _ _ _ (OnValid-reject_recovery codes wanted removed)
          (OnValid-conclude codes true _ (λ i m. sub i (In-recovery_order wanted i kept m)))

    pub OnValid-choose :
        (codes : List String) (removed : List Removed) → OnValid P (choose s codes removed items)
    unfolding choose
    OnValid-choose codes removed = OnValid-guard _ _ _ (
        OnValid-order_and_conclude _ _ s.recovery _
          (λ i m. In-prefer_certified i items (In-at_floor _ i _ m)))
