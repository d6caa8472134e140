-- ===== src/Policy/Validation/Closed.antt =====
-- The visited profiles, with enough fuel, are closed under what they build on.
use openai_model_router.Prelude.{
  ℕ, zero, suc, ◌≡◌, some-injective, ◌<◌, refl, sym, subst, Option, none, some, List, [], ◌∷◌, ◌++◌,
  In, here, there, contains, contains→In, In-append_left, In-append_right, In-append, In-singleton,
  Bool-cases, inl, inr, ◌⊎◌, arith, In-unique,
}
use openai_model_router.Contracts.{
  Request, EnvironmentSnapshot, ValidationLevel, level_index, level_eq, v0, v1, v2, v3,
}
use openai_model_router.Policy.Validation.{
  ValidationDocument, Visited, nothing_visited, add_profile, optional, visit_optional, visit,
  visit_all, requested_levels, determine_validation,
}

-- `validation profile cannot inherit a stronger level`, and no cycle: a reference goes down.
abbrev pub GoesDown : ValidationLevel → Option ValidationLevel → Type 0
GoesDown name none = Unit
GoesDown name (some ref) = level_index ref < level_index name

-- What the validated document guarantees of one profile.
pub record IsLayered (config : ValidationDocument) : Type 0 where
  pub base : (l : ValidationLevel) → GoesDown l (config.profiles l).base_profile
  pub semantic : (l : ValidationLevel) → GoesDown l (config.profiles l).required_semantic_profile

abbrev pub Includes : List ValidationLevel → Option ValidationLevel → Type 0
Includes profiles none = Unit
Includes profiles (some ref) = In ref profiles

Includes-append :
    (xs ys : List ValidationLevel) (o : Option ValidationLevel)
    → Includes xs o
    → Includes (xs ++ ys) o
Includes-append xs ys none h = tt
Includes-append xs ys (some ref) h = In-append_left ref xs ys h

module _ (config : ValidationDocument) (environment : EnvironmentSnapshot) where
  -- Each profile of the list comes with the profiles that it builds on.
  pub record IsClosed (profiles : List ValidationLevel) : Type 0 where
    pub base :
        (l : ValidationLevel) → In l profiles → Includes profiles (config.profiles l).base_profile
    pub semantic :
        (l : ValidationLevel)
        → In l profiles
        → Includes profiles (config.profiles l).required_semantic_profile

  -- `v'` comes from `v` by visiting: nothing is dropped, and the list stays closed.
  record Grows (v v' : Visited) : Type 0 where
    keeps : (l : ValidationLevel) → In l v.profiles → In l v'.profiles
    closed : IsClosed v.profiles → IsClosed v'.profiles

  Grows-refl : (v : Visited) → Grows v v
  Grows-refl v = record { keeps = λ l m. m; closed = λ c. c }

  Grows-trans : {u v w : Visited} → Grows u v → Grows v w → Grows u w
  Grows-trans f g = record {
    keeps = λ l m. g.keeps l (f.keeps l m);
    closed = λ c. g.closed (f.closed c);
  }

  Includes-Grows :
      {v w : Visited} (o : Option ValidationLevel)
      → Grows v w
      → Includes v.profiles o
      → Includes w.profiles o
  Includes-Grows none g h = tt
  Includes-Grows (some ref) g h = g.keeps ref h

  add_profile-Grows :
      (name : ValidationLevel) (v : Visited)
      → Includes v.profiles (config.profiles name).base_profile
      → Includes v.profiles (config.profiles name).required_semantic_profile
      → Grows v (add_profile config environment name v)
  unfolding add_profile
  add_profile-Grows name v hb hs = record {
    keeps = λ l m. In-append_left l v.profiles (name ∷ []) m;
    closed = λ c. record {
      base = λ l m.
          Includes-append v.profiles (name ∷ []) _
            (at_base c l (In-append l v.profiles (name ∷ []) m));
      semantic = λ l m.
          Includes-append v.profiles (name ∷ []) _
            (at_semantic c l (In-append l v.profiles (name ∷ []) m));
    };
  }
    where
      at_base :
          IsClosed v.profiles
          → (l : ValidationLevel) → In l v.profiles ⊎ In l (name ∷ [])
          → Includes v.profiles (config.profiles l).base_profile
      at_base c l (inl m) = c.base l m
      at_base c l (inr m) =
          subst (λ k. Includes v.profiles (config.profiles k).base_profile)
            (sym (In-singleton l name m)) hb

      at_semantic :
          IsClosed v.profiles
          → (l : ValidationLevel) → In l v.profiles ⊎ In l (name ∷ [])
          → Includes v.profiles (config.profiles l).required_semantic_profile
      at_semantic c l (inl m) = c.semantic l m
      at_semantic c l (inr m) =
          subst (λ k. Includes v.profiles (config.profiles k).required_semantic_profile)
            (sym (In-singleton l name m)) hs

  visit_optional-Grows :
      (fuel : ℕ) (name : ValidationLevel) (o : Option ValidationLevel) (v : Visited)
      → level_index name < suc fuel
      → GoesDown name o
      → ((l : ValidationLevel) (u : Visited)
          → level_index l < fuel
          → Grows u (visit config environment fuel l u)
            × In l (visit config environment fuel l u).profiles)
      → Grows v (visit_optional config environment (visit config environment fuel) o v)
        × Includes
            (visit_optional config environment (visit config environment fuel) o v).profiles
            o
  unfolding visit_optional
  visit_optional-Grows fuel name none v h d rec = (Grows-refl v, tt)
  visit_optional-Grows fuel name (some ref) v h d rec = rec ref v (omega arith)

  module _ (layered : IsLayered config) where
    -- Fuel above the level is enough: the level is visited, and the list grows.
    visit-Grows :
        (fuel : ℕ) (name : ValidationLevel) (v : Visited)
        → level_index name < fuel
        → Grows v (visit config environment fuel name v)
          × In name (visit config environment fuel name v).profiles
    unfolding visit
    visit-Grows zero name v h = absurd (omega arith)
    visit-Grows (suc fuel) name v h = elim (Bool-cases (contains name v.profiles)) [
      | inl q ↦ rw q (Grows-refl v, contains→In name v.profiles q)
      | inr q ↦
          let first =
            visit_optional-Grows fuel name (config.profiles name).base_profile v h
              (layered.base name) (visit-Grows fuel) in
          let second =
            visit_optional-Grows fuel name (config.profiles name).required_semantic_profile _ h
              (layered.semantic name) (visit-Grows fuel) in
          rw q (
            Grows-trans first.0 (
                Grows-trans second.0 (
                  add_profile-Grows name _
                    (Includes-Grows (config.profiles name).base_profile second.0 first.1)
                    second.1)),
            unfold add_profile in In-append_right name _ (name ∷ []) (here refl),
          )
    ]

    visit_all-Grows :
        (names : List ValidationLevel) (v : Visited)
        → Grows v (visit_all config environment names v)
          × ((l : ValidationLevel)
              → In l names
              → In l (visit_all config environment names v).profiles)
    unfolding visit_all
    visit_all-Grows [] v = (Grows-refl v, λ l m. elim m [ ])
    visit_all-Grows (name ∷ names) v =
        let (g, here_name) = visit-Grows 4 name v (level_bound name) in
        let (g', rest) = visit_all-Grows names (visit config environment 4 name v) in
        (Grows-trans g g', λ l m. place g' here_name (rest l) m)
      where
        level_bound : (l : ValidationLevel) → level_index l < 4
        level_bound v0 = omega arith
        level_bound v1 = omega arith
        level_bound v2 = omega arith
        level_bound v3 = omega arith

        place :
            {l : ValidationLevel} {u w : Visited}
            → Grows u w
            → In name u.profiles
            → (In l names → In l w.profiles)
            → In l (name ∷ names)
            → In l w.profiles
        place {l} {w = w} g' m rest (here p) =
            subst (λ k. In k w.profiles) (sym p) (g'.keeps name m)
        place g' m rest (there q) = rest q

-- The level is the default, or one that the consequence, the caller or the snapshot asks for.
pub data IsAsked (request : Request) (environment : EnvironmentSnapshot)
    (config : ValidationDocument) : ValidationLevel → Type 0 where
  by_default : IsAsked request environment config config.default_profile
  by_consequence :
      IsAsked request environment config (config.consequence_defaults request.consequence).profile
  by_caller :
      {level : ValidationLevel}
      → request.requested_validation ≡ some level
      → IsAsked request environment config level
  by_snapshot :
      {level : ValidationLevel}
      → environment.requested_validation ≡ some level
      → IsAsked request environment config level

optional-In : (o : Option ValidationLevel) (l : ValidationLevel) → o ≡ some l → In l (optional o)
unfolding optional
optional-In none l h = cc
optional-In (some k) l h = here (sym (some-injective h))

IsAsked-In :
    (request : Request) (environment : EnvironmentSnapshot) (config : ValidationDocument)
    (level : ValidationLevel)
    → IsAsked request environment config level
    → In level (config.default_profile ∷ requested_levels request environment config)
unfolding requested_levels
IsAsked-In request environment config _ by_default = here refl
IsAsked-In request environment config _ by_consequence = there (here refl)
IsAsked-In request environment config level (by_caller h) =
    there (
      there
        (In-append_left level (optional request.requested_validation) _ (optional-In _ level h)))
IsAsked-In request environment config level (by_snapshot h) = there (
    there (In-append_right level (optional request.requested_validation) _ (optional-In _ level h)))

-- Under a document in which each profile builds on lower levels only, each level that the
-- default, the consequence, the caller or the snapshot asks for is among the profiles of
-- `determine_validation`, and with each profile are those that it builds on.
pub determine_validation-IsClosed :
    (request : Request) (environment : EnvironmentSnapshot) (config : ValidationDocument)
    (level : ValidationLevel)
    → IsLayered config
    → IsAsked request environment config level
    → IsClosed config environment (determine_validation request environment config).profiles
      × In level (determine_validation request environment config).profiles
unfolding determine_validation
determine_validation-IsClosed request environment config level layered asked =
    let (grows, all_in) = visit_all-Grows config environment layered _ nothing_visited in
    (
      grows.closed (record {
        base = λ l m. unfold nothing_visited in elim m [ ];
        semantic = λ l m. unfold nothing_visited in elim m [ ];
      }),
      all_in level (In-unique level _ (IsAsked-In request environment config level asked)),
    )
