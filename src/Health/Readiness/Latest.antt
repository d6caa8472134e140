-- ===== src/Health/Readiness/Latest.antt =====
-- Which observation of a component the checks of readiness read.
use openai_model_router.Prelude.{
  ◌≡◌, ◌↔◌, ◌⊎◌, refl, sym, ap, subst, ◌∙◌, String, Option, none, some, List, [], ◌∷◌, true, false,
  ◌||◌, ◌==◌, string_eq, is_some, In, here, there, Dict, lookup, insert, lookup-insert, beq→eq,
  beq_self, some-injective, Bool-cases, inl, inr, arith,
}
use openai_model_router.Health.{HealthObservation}
use openai_model_router.Health.Readiness.{by_component}

-- The observation is of the component itself: of no model and of no capability.
pub record IsGlobal (component : String) (o : HealthObservation) : Type 0 where
  pub named : o.scope.component ≡ component
  pub of_no_model : o.scope.model ≡ none
  pub of_no_capability : o.scope.capability ≡ none

-- The last observation of the component itself.
pub data IsLatest (component : String) : List HealthObservation → HealthObservation → Type 0 where
  last :
      {o : HealthObservation} {os : List HealthObservation}
      → IsGlobal component o
      → ((p : HealthObservation) → In p os → ¬ (IsGlobal component p))
      → IsLatest component (o ∷ os) o
  before :
      {x o : HealthObservation} {os : List HealthObservation}
      → IsLatest component os o
      → IsLatest component (x ∷ os) o

-- The last observation, or the entry where there is none.
abbrev Found : String → List HealthObservation → Dict HealthObservation → HealthObservation → Type 0
Found component os items o =
    IsLatest component os o
    ⊎ ((p : HealthObservation) → In p os → ¬ (IsGlobal component p))
      × (lookup component items ≡ some o)

none-eq : {A : Type 0} (o : Option A) → is_some o ≡ false → o ≡ none
none-eq none h = refl
none-eq (some a) h = cc

scoped-not-IsGlobal :
    (component : String) (o : HealthObservation)
    → (is_some o.scope.model || is_some o.scope.capability) ≡ true
    → ¬ (IsGlobal component o)
scoped-not-IsGlobal component o h g =
    let model : is_some o.scope.model ≡ false = ap (λ x. is_some x) g.of_no_model in
    let capability : is_some o.scope.capability ≡ false = ap (λ x. is_some x) g.of_no_capability in
    ground arith

module _ (component : String) where
  -- An observation of something else changes nothing.
  skip-Found :
      (x : HealthObservation) (os : List HealthObservation) (items : Dict HealthObservation)
      (o : HealthObservation)
      → ¬ (IsGlobal component x)
      → Found component os items o
      → Found component (x ∷ os) items o
  skip-Found x os items o n (inl l) = inl (before l)
  skip-Found x os items o n (inr (f, q)) = inr (none_of, q)
    where
      none_of : (p : HealthObservation) → In p (x ∷ os) → ¬ (IsGlobal component p)
      none_of p (here e) g = n (subst (IsGlobal component) e g)
      none_of p (there m) g = f p m g

  drop-Found :
      (x : HealthObservation) (os : List HealthObservation) (items : Dict HealthObservation)
      (o : HealthObservation)
      → ¬ (IsGlobal component x)
      → Found component (x ∷ os) items o
      → Found component os items o
  drop-Found x os items _ n (inl (last g f)) = absurd (n g)
  drop-Found x os items o n (inl (before l)) = inl l
  drop-Found x os items o n (inr (f, q)) = inr (λ p m. f p (there m), q)

  -- An observation of the component takes the place of the entry.
  take-Found :
      (x : HealthObservation) (os : List HealthObservation) (items taken : Dict HealthObservation)
      (o : HealthObservation)
      → IsGlobal component x
      → lookup component taken ≡ some x
      → Found component os taken o
      → Found component (x ∷ os) items o
  take-Found x os items taken o g e (inl l) = inl (before l)
  take-Found x os items taken o g e (inr (f, q)) =
      let same : x ≡ o = some-injective (sym e ∙ q) in
      inl (subst (IsLatest component (x ∷ os)) same (last g f))

  untake-Found :
      (x : HealthObservation) (os : List HealthObservation) (items taken : Dict HealthObservation)
      (o : HealthObservation)
      → IsGlobal component x
      → lookup component taken ≡ some x
      → Found component (x ∷ os) items o
      → Found component os taken o
  untake-Found x os items taken _ g e (inl (last _ f)) = inr (f, e)
  untake-Found x os items taken o g e (inl (before l)) = inl l
  untake-Found x os items taken o g e (inr (f, q)) = absurd (f x (here refl) g)

  -- What the insertion of an observation of another component finds.
  insert-Found :
      (key : String) (x : HealthObservation) (os : List HealthObservation)
      (items : Dict HealthObservation) (o : HealthObservation)
      → (key == component) ≡ false
      → Found component os (insert key x items) o ↔ Found component os items o
  insert-Found key x os items o e =
      let same : lookup component (insert key x items) ≡ lookup component items =
        lookup-insert key component x items ∙ rw e refl in
      rw same (λ f. f, λ f. f)

  Found-by_component :
      (os : List HealthObservation) (items : Dict HealthObservation) (o : HealthObservation)
      → (lookup component (by_component items os) ≡ some o) ↔ Found component os items o
  unfolding by_component
  Found-by_component [] items o =
      (λ h. inr (λ p m g. elim m [ ], h), λ f. elim f [ inl l ↦ elim l [ ] | inr q ↦ q.1 ])
  Found-by_component (x ∷ os) items o =
      let key = x.scope.component in
      elim (Bool-cases (is_some x.scope.model || is_some x.scope.capability)) [
        | inl e ↦
            let n = scoped-not-IsGlobal component x e in
            let (to, from) = Found-by_component os items o in
            rw e (λ h. skip-Found x os items o n (to h), λ f. from (drop-Found x os items o n f))
        | inr e ↦
            let (to, from) = Found-by_component os (insert key x items) o in
            elim (Bool-cases (key == component)) [
              | inl k ↦
                  let g : IsGlobal component x = record {
                    named = beq→eq key component k;
                    of_no_model = none-eq x.scope.model (ground arith);
                    of_no_capability = none-eq x.scope.capability (ground arith);
                  } in
                  let entry : lookup component (insert key x items) ≡ some x =
                    lookup-insert key component x items ∙ rw k refl in
                  rw e (
                    λ h. take-Found x os items (insert key x items) o g entry (to h),
                    λ f. from (untake-Found x os items (insert key x items) o g entry f),
                  )
              | inr k ↦
                  let n : ¬ (IsGlobal component x) = other_component key k refl in
                  let (out, into) = insert-Found key x os items o k in
                  rw e (
                    λ h. skip-Found x os items o n (out (to h)),
                    λ f. from (into (drop-Found x os items o n f)),
                  )
            ]
      ]
    where
      other_component :
          (key : String)
          → (key == component) ≡ false
          → key ≡ x.scope.component
          → ¬ (IsGlobal component x)
      other_component key k same g =
          let equal : (key == component) ≡ true =
            ap (λ y. y == component) (same ∙ g.named) ∙ beq_self component in
          ground arith

  -- The table finds the last observation of the component itself.
  pub by_component-IsLatest :
      (os : List HealthObservation) (o : HealthObservation)
      → (lookup component (by_component [] os) ≡ some o) ↔ IsLatest component os o
  unfolding lookup
  by_component-IsLatest os o =
      let (to, from) = Found-by_component os [] o in
      (λ h. elim (to h) [ inl l ↦ l | inr q ↦ let missing = q.1 in absurd (cc) ], λ l. from (inl l))
