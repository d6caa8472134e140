-- ===== src/Health/Readiness/Providers.antt =====
-- Which observations of the provider `readiness` counts.
use openai_model_router.Prelude.{
  ◌≡◌, ◌≢◌, ◌↔◌, ◌⊎◌, refl, sym, ap, subst, String, Option, none, some, List, [], ◌∷◌, Bool, true,
  not, ◌==◌, string_eq, is_some, is_empty, select, any, or_else, In, here, In-select, select-In,
  In-any, any-In, beq→eq, inl, inr, arith,
}
use openai_model_router.Health.{HealthObservation, HealthSnapshot}
use openai_model_router.Health.Readiness.{is_provider_item, provider_candidates}

-- A required observation of a model of the provider.
pub record IsModelItem (o : HealthObservation) : Type 0 where
  pub component : o.scope.component ≡ "provider"
  pub name : String
  pub model : o.scope.model ≡ some name
  pub required : o.required ≡ true

-- The observation counts: it is a required one of a model, and is of the model as a whole unless no
-- such observation is.
pub record Counts (health : HealthSnapshot) (o : HealthObservation) : Type 0 where
  pub listed : In o health.observations
  pub item : IsModelItem o
  pub whole :
      (o.scope.capability ≡ none)
      ⊎ ((p : HealthObservation)
          → In p health.observations
          → IsModelItem p
          → p.scope.capability ≢ none)

is_some-eq : {A : Type 0} (o : Option A) → is_some o ≡ true → (a : A) × (o ≡ some a)
is_some-eq none h = cc
is_some-eq (some a) h = (a, refl)

not_some-eq : {A : Type 0} (o : Option A) → (not (is_some o) ≡ true) ↔ (o ≡ none)
not_some-eq none = (λ h. refl, λ h. refl)
not_some-eq (some a) = (λ h. absurd (ground arith), λ h. cc)

is_provider_item-IsModelItem : (o : HealthObservation) → (is_provider_item o ≡ true) ↔ IsModelItem o
unfolding is_provider_item
is_provider_item-IsModelItem o = (
  λ h.
      let (name, model) = is_some-eq o.scope.model (ground arith) in
      record {
        component = beq→eq o.scope.component "provider" (ground arith);
        name = name;
        model = model;
        required = ground arith;
      },
  λ i.
      let named : (o.scope.component == "provider") ≡ true =
        ap (λ x. x == "provider") i.component in
      rw (named, i.model, i.required) refl,
)

is_whole : HealthObservation → Bool
is_whole o = not (is_some o.scope.capability)

module _ (health : HealthSnapshot) where
  abbrev items : List HealthObservation
  items = select is_provider_item health.observations

  In-items : (o : HealthObservation) → In o items → In o health.observations × IsModelItem o
  In-items o n =
      let (listed, test) = In-select is_provider_item o health.observations n in
      (listed, (is_provider_item-IsModelItem o).0 test)

  items-In : (o : HealthObservation) → In o health.observations → IsModelItem o → In o items
  items-In o n i =
      select-In is_provider_item o health.observations n ((is_provider_item-IsModelItem o).1 i)

  -- The members of `model_level or provider`.
  chosen-Counts :
      (whole : List HealthObservation) (o : HealthObservation)
      → whole ≡ select is_whole items
      → In o (or_else whole items) ↔ Counts health o
  unfolding is_whole
  chosen-Counts [] o e = (
    λ n.
        let (listed, item) = In-items o n in
        record {
          listed = listed;
          item = item;
          whole = inr (λ p m i q. nowhere p (
              subst (In p) (sym e) (
                select-In is_whole p items (items-In p m i)
                  ((not_some-eq p.scope.capability).1 q))));
        },
    λ c. items-In o c.listed c.item,
  )
    where
      nowhere : (p : HealthObservation) → In p [] → ⊥
      nowhere p m = elim m [ ]
  chosen-Counts (x ∷ xs) o e = (
    λ n.
        let (m, test) = In-select is_whole o items (subst (In o) e n) in
        let (listed, item) = In-items o m in
        record {
          listed = listed;
          item = item;
          whole = inl ((not_some-eq o.scope.capability).0 test);
        },
    λ c. subst (In o) (sym e) (
        select-In is_whole o items (items-In o c.listed c.item)
          ((not_some-eq o.scope.capability).1 (unscoped c.whole))),
  )
    where
      unscoped :
          (o.scope.capability ≡ none)
            ⊎ ((p : HealthObservation)
                → In p health.observations
                → IsModelItem p
                → p.scope.capability ≢ none)
          → o.scope.capability ≡ none
      unscoped (inl q) = q
      unscoped (inr f) =
          let (m, test) = In-select is_whole x items (subst (In x) e (here refl)) in
          let (listed, item) = In-items x m in
          absurd (f x listed item ((not_some-eq x.scope.capability).0 test))

  pub provider_candidates-Counts :
      (o : HealthObservation) → In o (provider_candidates health) ↔ Counts health o
  unfolding provider_candidates is_whole
  provider_candidates-Counts o = chosen-Counts (select is_whole items) o refl

  empty-none :
      (xs : List HealthObservation) → (is_empty xs ≡ true) ↔ ((o : HealthObservation) → In o xs → ⊥)
  empty-none [] = (λ h o n. elim n [ ], λ f. refl)
  empty-none (x ∷ xs) = (λ h. absurd (ground arith), λ f. absurd (f x (here refl)))

  -- Nothing counts, or something that counts passes the test.
  pub provider-free :
      (test : HealthObservation → Bool)
      → ((is_empty (provider_candidates health) ≡ true)
          ⊎ (any test (provider_candidates health) ≡ true))
        ↔ (((o : HealthObservation) → ¬ (Counts health o))
            ⊎ ((o : HealthObservation) × Counts health o × (test o ≡ true)))
  provider-free test = (there_is, code_says)
    where
      there_is :
          (is_empty (provider_candidates health) ≡ true)
            ⊎ (any test (provider_candidates health) ≡ true)
          → ((o : HealthObservation) → ¬ (Counts health o))
            ⊎ ((o : HealthObservation) × Counts health o × (test o ≡ true))
      there_is (inl h) = inl (λ o c. (empty-none _).0 h o ((provider_candidates-Counts o).1 c))
      there_is (inr h) =
          let (o, n, t) = any-In test (provider_candidates health) h in
          inr (o, (provider_candidates-Counts o).0 n, t)

      code_says :
          ((o : HealthObservation) → ¬ (Counts health o))
            ⊎ ((o : HealthObservation) × Counts health o × (test o ≡ true))
          → (is_empty (provider_candidates health) ≡ true)
            ⊎ (any test (provider_candidates health) ≡ true)
      code_says (inl f) = inl ((empty-none _).1 (λ o n. f o ((provider_candidates-Counts o).0 n)))
      code_says (inr (o, c, t)) =
          inr (In-any test o (provider_candidates health) ((provider_candidates-Counts o).1 c) t)
