-- ===== src/Configuration/Candidates.antt =====
-- With a bundle that passes its checks, the loop of `route` over the candidates raises nothing.
use openai_model_router.Prelude.{
  ℕ, ◌≡◌, refl, sym, ap, subst, ◌∙◌, Option, none, some, List, [], ◌∷◌, Bool, true, false, not,
  Dict, lookup, In, here, there, all, all-In, any, values, contains, In→contains, contains→In,
  Bool-cases, inl, inr, ◌⊎◌, arith, Raise, ok, >>=-eq-ok, raise_if-eq-ok, ok-injective, or_raise,
  HasDistinctKeys, In-lookup, In-append, In-select, In-any, is_empty, Error,
}
use openai_model_router.Contracts.{
  Request, Classification, EnvironmentSnapshot, Candidate, CandidateSpec, Source, Effort, effort_eq,
  ModelEntry, PolicyDocument, PolicyBundle, Limits, CandidatePlan, ValidationRequirements,
  HealthState, ComplexityBand, Modifier,
}
use openai_model_router.Policy.Modifiers.{
  Matched, collect, configured_candidates, add_if, add_candidates, build_candidates, floor_entries,
}
use openai_model_router.Policy.Modifiers.Origins.{
  Listed, Runs, In-add_candidates, Listed-floor, Listed-fallback,
}
use openai_model_router.Policy.Modifiers.Plan.{Built-entries, Built-of_ok, complexity_band-In}
use openai_model_router.Router.{Assessed, assess_one, assess, supported_candidate, extend_plan}
use openai_model_router.Configuration.{
  check_all, check_supported, check_modifier, lacks_effort, check_candidates,
}

-- The model is configured and supports the effort.
pub record IsSupported (models : Dict ModelEntry) (c : Candidate) : Type 0 where
  pub entry : ModelEntry
  pub found : lookup c.model models ≡ some entry
  pub effort : In c.effort entry.reasoning_efforts

check_all-In :
    {A : Type 0} (check : A → Raise (Unit {0})) (a : A) (xs : List A)
    → check_all check xs ≡ ok tt
    → In a xs
    → check a ≡ ok tt
unfolding check_all
check_all-In check a [] h m = elim m [ ]
check_all-In check a (x ∷ xs) h (here p) =
    let (_, first, _) = >>=-eq-ok (check x) _ h in ap check p ∙ first
check_all-In check a (x ∷ xs) h (there m) =
    let (_, _, rest) = >>=-eq-ok (check x) _ h in check_all-In check a xs rest m

module _ (models : Dict ModelEntry) where
  or_raise-found :
      {A : Type 0} (x : Error) (o : Option A) (a : A) → or_raise x o ≡ ok a → o ≡ some a
  or_raise-found x none a h = cc
  or_raise-found x (some b) a h = ap some (ok-injective h)

  check_supported-IsSupported :
      (source : Source) (specs : List CandidateSpec) (c : Candidate)
      → check_all (check_supported models) specs ≡ ok tt
      → Listed source specs c
      → IsSupported models c
  unfolding check_supported
  check_supported-IsSupported source specs c h l =
      let spec = l.entry in
      let checked = check_all-In (check_supported models) spec specs h l.listed in
      let (entry, found, rest) = >>=-eq-ok (or_raise _ (lookup spec.model models)) _ checked in
      let supports : all (λ e. contains e entry.reasoning_efforts) spec.efforts ≡ true =
        ground arith in
      record {
        entry = entry;
        found = ap (λ n. lookup n models) l.model ∙ or_raise-found _ _ _ found;
        effort = contains→In c.effort entry.reasoning_efforts (
            all-In (λ e. contains e entry.reasoning_efforts) c.effort spec.efforts supports
              l.effort);
      }

  Runs-IsSupported :
      (c : Candidate) (m : ModelEntry)
      → HasDistinctKeys models
      → Runs models c m
      → IsSupported models c
  Runs-IsSupported c m distinct r = record {
    entry = m;
    found = In-lookup c.model m models distinct r.configured;
    effort = r.supported;
  }

  module _ (prior : List CandidateSpec) (m : Matched) (distinct : HasDistinctKeys models)
      (prior_checked : check_all (check_supported models) prior ≡ ok tt)
      (entry_checked : (spec : CandidateSpec)
        → In spec m.entries
        → check_supported models spec ≡ ok tt) where
    all_checked :
        (specs : List CandidateSpec)
        → ((spec : CandidateSpec) → In spec specs → check_supported models spec ≡ ok tt)
        → check_all (check_supported models) specs ≡ ok tt
    unfolding check_all
    all_checked [] h = refl
    all_checked (x ∷ xs) h = rw (h x (here refl)) (all_checked xs (λ s n. h s (there n)))

    configured-IsSupported :
        (c : Candidate) → In c (configured_candidates prior m) → IsSupported models c
    unfolding configured_candidates
    configured-IsSupported c n = second (In-add_candidates Source.modifier m.entries _ c n)
      where
        first : In c [] ⊎ Listed Source.prior prior c → IsSupported models c
        first (inl e) = elim e [ ]
        first (inr l) = check_supported-IsSupported Source.prior prior c prior_checked l

        second :
            In c (add_candidates Source.prior prior []) ⊎ Listed Source.modifier m.entries c
            → IsSupported models c
        second (inl e) = first (In-add_candidates Source.prior prior [] c e)
        second (inr l) =
            check_supported-IsSupported Source.modifier m.entries c
              (all_checked m.entries entry_checked) l

    floor-IsSupported :
        (b : Bool) (preference : List Effort) (applicable : ℕ) (c : Candidate)
        → In c (
            add_if b
              (floor_entries models preference applicable (configured_candidates prior m))
              (configured_candidates prior m))
        → IsSupported models c
    unfolding add_if
    floor-IsSupported false preference applicable c n = configured-IsSupported c n
    floor-IsSupported true preference applicable c n =
        split (In-add_candidates Source.floor _ _ c n)
      where
        split :
            In c (configured_candidates prior m)
              ⊎ Listed Source.floor
                  (floor_entries models preference applicable (configured_candidates prior m))
                  c
            → IsSupported models c
        split (inl e) = configured-IsSupported c e
        split (inr l) =
            let (entry, runs, _) = Listed-floor models c preference applicable _ l in
            Runs-IsSupported c entry distinct runs

    collect-IsSupported :
        (policy : PolicyDocument) (limits : Limits) (ranks : List ℕ) (rank : ℕ) (c : Candidate)
        → In c (collect policy models limits prior ranks m rank)
        → IsSupported models c
    unfolding collect
    collect-IsSupported policy limits ranks rank c n =
        elim (In-add_candidates Source.fallback _ _ c n) [
          | inl e ↦ floor-IsSupported _ _ _ c e
          | inr l ↦
              let (entry, runs, _) = Listed-fallback models c _ _ _ _ limits l in
              Runs-IsSupported c entry distinct runs
        ]

-- What `check_candidates` checked.
record Checked (policy : PolicyDocument) (models : Dict ModelEntry) : Type 0 where
  bands :
      (band : ComplexityBand)
      → In band policy.complexity_bands
      → check_all (check_supported models) band.candidates ≡ ok tt
  modifiers :
      (rule : Modifier) (spec : CandidateSpec)
      → In rule policy.modifiers
      → In spec rule.add_candidates
      → check_supported models spec ≡ ok tt

check_candidates-Checked :
    (policy : PolicyDocument) (models : Dict ModelEntry)
    → check_candidates policy models ≡ ok tt
    → Checked policy models
unfolding check_candidates check_modifier
check_candidates-Checked policy models h =
    let (_, h1) = raise_if-eq-ok (any (lacks_effort policy) (values models)) _ _ h in
    let (_, bands, h2) =
      >>=-eq-ok
        (check_all (λ b. check_all (check_supported models) b.candidates) policy.complexity_bands) _
        h1 in
    let (_, modifiers, _) = >>=-eq-ok (check_all (check_modifier models) policy.modifiers) _ h2 in
    record {
      bands = λ band n. check_all-In _ band policy.complexity_bands bands n;
      modifiers = λ rule spec n m.
          let checked = check_all-In (check_modifier models) rule policy.modifiers modifiers n in
          let (_, specs, _) =
            >>=-eq-ok (check_all (check_supported models) rule.add_candidates) _ checked in
          check_all-In (check_supported models) spec rule.add_candidates specs m;
    }

build_candidates-IsSupported :
    (classification : Classification) (bundle : PolicyBundle) (limits : Limits)
    (plan : CandidatePlan)
    → HasDistinctKeys bundle.models
    → check_candidates bundle.policy bundle.models ≡ ok tt
    → build_candidates classification bundle limits ≡ ok plan
    → (c : Candidate) → In c plan.candidates
    → IsSupported bundle.models c
build_candidates-IsSupported classification bundle limits plan distinct h built c n =
    let checked = check_candidates-Checked bundle.policy bundle.models h in
    let b = Built-of_ok classification bundle limits plan built in
    collect-IsSupported bundle.models b.band.candidates b.matched distinct
      (checked.bands b.band (complexity_band-In bundle.policy _ b.band b.band_eq))
      (λ spec m.
        let (rule, place, own, _) = Built-entries classification bundle limits plan b spec m in
        checked.modifiers rule spec place own)
      bundle.policy limits b.prior_ranks _ c (subst (In c) b.candidates_eq n)

supported_candidate-IsSupported :
    (models : Dict ModelEntry) (c : Candidate)
    → supported_candidate models c ≡ true
    → IsSupported models c
unfolding supported_candidate
supported_candidate-IsSupported models c = looked_up (lookup c.model models) refl
  where
    looked_up :
        (o : Option ModelEntry)
        → lookup c.model models ≡ o
        → (elim o [ none ↦ false | some m ↦ contains c.effort m.reasoning_efforts ]) ≡ true
        → IsSupported models c
    looked_up none q h = cc
    looked_up (some m) q h = record {
      entry = m;
      found = q;
      effort = contains→In c.effort m.reasoning_efforts h;
    }

wanted-IsSupported :
    (models : Dict ModelEntry) (wanted : List Candidate) (c : Candidate)
    → any (λ d. not (supported_candidate models d)) wanted ≡ false
    → In c wanted
    → IsSupported models c
wanted-IsSupported models wanted c h m = elim (Bool-cases (supported_candidate models c)) [
  | inl e ↦ supported_candidate-IsSupported models c e
  | inr e ↦ let found = In-any (λ d. not (supported_candidate models d)) c wanted m (ap not e) in cc
]

extend_plan-IsSupported :
    (models : Dict ModelEntry) (recovery : Option (List Candidate)) (built plan : CandidatePlan)
    → extend_plan models recovery built ≡ ok plan
    → ((c : Candidate) → In c built.candidates → IsSupported models c)
    → (c : Candidate) → In c plan.candidates
    → IsSupported models c
unfolding extend_plan
extend_plan-IsSupported models none built plan h s c n =
    s c (subst (λ p. In c p.candidates) (sym (ok-injective h)) n)
extend_plan-IsSupported models (some wanted) built plan h s c n =
    let (_, h1) = raise_if-eq-ok (is_empty wanted) _ _ h in
    let (supported, h2) =
      raise_if-eq-ok (any (λ c. not (supported_candidate models c)) wanted) _ _ h1 in
    elim (In-append c built.candidates _
      (subst (λ p. In c p.candidates) (sym (ok-injective h2)) n)) [
        | inl m ↦ s c m
        | inr m ↦ wanted-IsSupported models wanted c supported (In-select _ c wanted m).0
      ]

module _ (scale : ℕ) (request : Request) (environment : EnvironmentSnapshot)
    (validation : ValidationRequirements) (limits : Limits) (excluded : List HealthState)
    (hard_floor : ℕ) where
  assess-returns :
      (models : Dict ModelEntry) (candidates : List Candidate) (a : Assessed)
      → ((c : Candidate) → In c candidates → IsSupported models c)
      → (b : Assessed) × (assess scale request environment validation limits excluded hard_floor
            models candidates a
          ≡ ok b)
  unfolding assess
  assess-returns models [] a h = (a, refl)
  assess-returns models (c ∷ cs) a h =
      let s = h c (here refl) in
      let (b, q) =
        assess-returns models cs
          (assess_one scale request environment validation limits excluded hard_floor c s.entry a)
          (λ d n. h d (there n)) in
      (b, rw s.found (rw (In→contains c.effort s.entry.reasoning_efforts s.effort) q))

  -- When the models are configured once each, `_validate_cross_document` accepts the candidates of
  -- the policy, and the recovery candidates pass their check, the loop of `route` over the plan that
  -- results raises nothing: no candidate is of an unknown model or has an unsupported effort.
  pub check_candidates-assess :
      (classification : Classification) (bundle : PolicyBundle) (recovery : Option (List Candidate))
      (built plan : CandidatePlan) (a : Assessed)
      → HasDistinctKeys bundle.models
      → check_candidates bundle.policy bundle.models ≡ ok tt
      → build_candidates classification bundle limits ≡ ok built
      → extend_plan bundle.models recovery built ≡ ok plan
      → (b : Assessed) × (assess scale request environment validation limits excluded hard_floor
            bundle.models plan.candidates a
          ≡ ok b)
  check_candidates-assess classification bundle recovery built plan a distinct checked h e =
      assess-returns bundle.models plan.candidates a (
        extend_plan-IsSupported bundle.models recovery built plan e
          (build_candidates-IsSupported classification bundle limits built distinct checked h))
