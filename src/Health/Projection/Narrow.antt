-- ===== src/Health/Projection/Narrow.antt =====
-- What `apply` says of a model stands on evidence of the snapshot.
use openai_model_router.Prelude.{
  ℕ, ◌≤◌, ◌≡◌, ◌≢◌, refl, sym, ap, subst, ◌∙◌, String, some, List, [], ◌∷◌, map, true, false, not,
  ◌==◌, string_eq, In-any, concat_map, In, here, there, In-append_left, In-append_right, Dict,
  lookup, Bool-cases, inl, inr, arith, beq→eq,
}
use openai_model_router.Contracts.{HealthState, health_eq, ModelHealth, EnvironmentSnapshot}
use openai_model_router.Health.{HealthObservation, HealthSnapshot}
use openai_model_router.Health.Service.{HealthService, is_available}
use openai_model_router.Health.Service.Usable.{min_or-le, max_or-ge}
use openai_model_router.Health.Projection.{
  model_evidence, is_unavailable, projected_model, projected_state, usable_evidence,
  routing_evidence, project_models, project,
}

-- An observation that is available and whose validity contains that of the environment.
pub record Backs (environment : EnvironmentSnapshot) (o : HealthObservation) : Type 0 where
  pub available : is_available o ≡ true
  pub since : (at : ℕ) → environment.health_observed_at ≡ some at → o.observed_at ≤ at
  pub until : (at : ℕ) → environment.health_valid_until ≡ some at → at ≤ o.valid_until

-- A usable model of the projection was usable before, and its evidence backs the projection.
pub record IsBacked (s : HealthService) (before after : EnvironmentSnapshot)
    (capabilities : List String) (health : HealthSnapshot) (alias : String) (m : ModelHealth)
    : Type 0 where
  pub existing : ModelHealth
  pub found : lookup alias before.models ≡ some existing
  pub usable : existing.usable ≡ true
  pub state : existing.state ≢ HealthState.unhealthy
  pub access : m.account_access ≡ existing.account_access
  pub healthy : m.state ≡ HealthState.healthy → existing.state ≡ HealthState.healthy
  pub evidence :
      (o : HealthObservation) → In o (model_evidence s health capabilities alias) → Backs after o

module _ {V W : Type 0} (f : String → V → W) where
  abbrev mapped : Dict V → Dict W
  mapped d = map (λ p. (p.0, f p.0 p.1)) d

  lookup-map :
      (key : String) (d : Dict V) (w : W)
      → lookup key (mapped d) ≡ some w
      → (v : V) × (lookup key d ≡ some v) × (f key v ≡ w) × In (key, v) d
  unfolding lookup
  lookup-map key [] w h = cc
  lookup-map key ((k, v) ∷ d) w h = elim (Bool-cases (k == key)) [
    | inl q ↦
        let same : k ≡ key = beq→eq k key q in
        let kept : some (f k v) ≡ some w = rw q at h in
        let value : f k v ≡ w = cc in
        rw q (v, refl, subst (λ x. f x v ≡ w) same value, here (ap (λ x. (x, v)) (sym same)))
    | inr q ↦
        let (u, found, value, place) = lookup-map key d w (rw q at h) in
        rw q (u, found, value, there place)
  ]

some-injective : {A : Type 0} {a b : A} → some a ≡ some b → a ≡ b
some-injective h = cc

In-map : {A B : Type 0} (f : A → B) (a : A) (xs : List A) → In a xs → In (f a) (map f xs)
In-map f a [] m = elim m [ ]
In-map f a (x ∷ xs) (here p) = here (ap f p)
In-map f a (x ∷ xs) (there m) = there (In-map f a xs m)

pub lookup-projected :
    (s : HealthService) (health : HealthSnapshot) (capabilities : List String) (key : String)
    (d : Dict ModelHealth) (v : ModelHealth)
    → lookup key d ≡ some v
    → lookup key (project_models s health capabilities d)
      ≡ some (projected_model v (model_evidence s health capabilities key))
unfolding lookup project_models
lookup-projected s health capabilities key [] v h = cc
lookup-projected s health capabilities key ((k, w) ∷ d) v h = elim (Bool-cases (k == key)) [
  | inl q ↦
      let same : k ≡ key = beq→eq k key q in
      let kept : some w ≡ some v = rw q at h in
      rw q (
        ap some (
          subst
            (λ x.
              projected_model w (model_evidence s health capabilities k)
              ≡ projected_model w (model_evidence s health capabilities x))
            same refl
          ∙ ap (λ x. projected_model x (model_evidence s health capabilities key))
              (some-injective kept)))
  | inr q ↦ rw q (lookup-projected s health capabilities key d v (rw q at h))
]

In-concat_map :
    {A B : Type 0} (f : A → List B) (a : A) (b : B) (xs : List A)
    → In a xs
    → In b (f a)
    → In b (concat_map f xs)
unfolding concat_map
In-concat_map f a b [] m n = elim m [ ]
In-concat_map f a b (x ∷ xs) (here p) n = In-append_left b (f x) _ (subst (λ y. In b (f y)) p n)
In-concat_map f a b (x ∷ xs) (there m) n = In-append_right b (f x) _ (In-concat_map f a b xs m n)

module _ (s : HealthService) (environment : EnvironmentSnapshot) (capabilities : List String)
    (health : HealthSnapshot) where
  -- The evidence of a usable model is part of what the projection's times range over.
  usable-In :
      (alias : String) (existing : ModelHealth) (o : HealthObservation)
      → In (alias, existing) environment.models
      → is_unavailable existing (model_evidence s health capabilities alias) ≡ false
      → In o (model_evidence s health capabilities alias)
      → In o (routing_evidence s health capabilities environment.models)
  unfolding routing_evidence usable_evidence
  usable-In alias existing o place u m = In-append_right o _ _ (
      In-concat_map (λ p. usable_evidence p.1 (model_evidence s health capabilities p.0))
        (alias, existing) o environment.models place (rw u m))

  projected-available :
      (existing : ModelHealth) (evidence : List HealthObservation)
      → is_unavailable existing evidence ≡ false
      → (o : HealthObservation) → In o evidence
      → is_available o ≡ true
  unfolding is_unavailable
  projected-available existing evidence u o m = elim (Bool-cases (is_available o)) [
    | inl q ↦ q
    | inr q ↦
        let bad = In-any (λ o. not (is_available o)) o evidence m (ap not q) in
        absurd (ground arith)
  ]

  projected-usable :
      (existing m : ModelHealth) (evidence : List HealthObservation)
      → projected_model existing evidence ≡ m
      → m.usable ≡ true
      → is_unavailable existing evidence ≡ false
  unfolding projected_model
  projected-usable existing m evidence value q = ground (arith, ap (λ x. x.usable) value)

  projected-healthy :
      (existing m : ModelHealth) (evidence : List HealthObservation)
      → projected_model existing evidence ≡ m
      → m.state ≡ HealthState.healthy
      → existing.state ≡ HealthState.healthy
  unfolding projected_model projected_state is_unavailable
  projected-healthy existing m evidence value q =
      let state = ap (λ x. x.state) value ∙ q in ground arith

  evidence-Backs :
      (alias : String) (existing : ModelHealth) (o : HealthObservation)
      → In (alias, existing) environment.models
      → is_unavailable existing (model_evidence s health capabilities alias) ≡ false
      → In o (model_evidence s health capabilities alias)
      → Backs (project s environment capabilities health) o
  unfolding project
  evidence-Backs alias existing o place u n =
      let m = usable-In alias existing o place u n in
      record {
        available = projected-available existing _ u o n;
        since = λ at h.
            subst (λ x. o.observed_at ≤ x) (some-injective h)
              (max_or-ge _ _ _ (In-map (λ o. o.observed_at) o _ m));
        until = λ at h.
            subst (λ x. x ≤ o.valid_until) (some-injective h)
              (min_or-le _ _ _ (In-map (λ o. o.valid_until) o _ m));
      }

  unavailable-false :
      (existing : ModelHealth) (evidence : List HealthObservation)
      → is_unavailable existing evidence ≡ false
      → (existing.usable ≡ true) × (existing.state ≢ HealthState.unhealthy)
  unfolding is_unavailable
  unavailable-false existing evidence u = (ground arith, ground arith)

  -- A model that the projection of the snapshot calls usable was configured usable, is not unhealthy,
  -- keeps its account access and is called healthy only if it was. Each observation that counts for
  -- it or for a required capability is available, was made by the time that the projection carries
  -- and stays valid until the end that it carries.
  pub project-IsBacked :
      (alias : String) (m : ModelHealth)
      → lookup alias (project s environment capabilities health).models ≡ some m
      → m.usable ≡ true
      → IsBacked s environment
          (project s environment capabilities health)
          capabilities
          health
          alias
          m
  unfolding project project_models projected_model
  project-IsBacked alias m h q =
      let (existing, found, value, place) =
        lookup-map (λ a x. projected_model x (model_evidence s health capabilities a)) alias
          environment.models m h in
      let u = projected-usable existing m _ value q in
      record {
        existing = existing;
        found = found;
        usable = (unavailable-false existing _ u).0;
        state = (unavailable-false existing _ u).1;
        access = ap (λ x. x.account_access) (sym value);
        healthy = projected-healthy existing m _ value;
        evidence = λ o n. evidence-Backs alias existing o place u n;
      }
