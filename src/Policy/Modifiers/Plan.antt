-- ===== src/Policy/Modifiers/Plan.antt =====
-- What every plan of `build_candidates` satisfies.
use openai_model_router.Prelude.{
  ℕ, ◌≤◌, ◌≡◌, ◌∙◌, String, true, sym, ap, subst, Option, none, some, Bool-cases, inl, inr, leb,
  ◌&&◌, here, there, or_raise, input_error, List, [], ◌∷◌, Dict, In, ok, >>=-eq-ok, ok-injective,
  arith, sum, values, map,
}
use openai_model_router.Contracts.{
  Modifier, RuleMatch, FloorRule, preferred, CandidateSpec, Classification, PolicyBundle, Limits,
  Candidate, CandidatePlan, ComplexityBand, Source, ModelEntry, PolicyDocument,
}
use openai_model_router.Policy.Rules.{
  rule_matches, find_band, validated_classification, complexity_band,
}
use openai_model_router.Policy.Modifiers.Entries.{matched-entries}
use openai_model_router.Policy.Modifiers.{
  Matched, match_floors, match_modifiers, ranks_of, collect, start, minimum, build_candidates,
  add_candidates,
}
use openai_model_router.Policy.Modifiers.Distinct.{IsDistinct, Extends, collect-IsDistinct}
use openai_model_router.Policy.Modifiers.Origins.{Origin, collect-Origin}
use openai_model_router.Policy.Modifiers.Held.{IsHeld, floors-IsHeld, match_modifiers-IsHeld}
use openai_model_router.Policy.Modifiers.Floors.{
  IsSound, IsBounded, match_floors-IsSound, match_modifiers-IsSound,
}

abbrev pub lowest_rank : Dict ModelEntry → ℕ
lowest_rank models = minimum (map (λ p. p.1.tier_rank) models)

start-IsSound : {n : ℕ} → IsSound n (start n)
unfolding start
start-IsSound = record { bounded = tt; hard_start = omega arith; preferred_start = omega arith }

find_band-In :
    (bands : List ComplexityBand) (points : ℕ) (band : ComplexityBand)
    → find_band bands points ≡ some band
    → In band bands
unfolding find_band
find_band-In [] points band h = absurd (ground arith)
find_band-In (b ∷ bands) points band h = elim (Bool-cases (leb b.min points && leb points b.max)) [
  | inl e ↦ let q : some b ≡ some band = rw e at h in here (cc (q))
  | inr e ↦ there (find_band-In bands points band (rw e at h))
]

pub complexity_band-In :
    (policy : PolicyDocument) (points : ℕ) (band : ComplexityBand)
    → complexity_band policy points ≡ ok band
    → In band policy.complexity_bands
unfolding complexity_band
complexity_band-In policy points band h =
    find_band-In policy.complexity_bands points band
      (found (find_band policy.complexity_bands points) h)
  where
    found :
        (o : Option ComplexityBand)
        → or_raise (input_error "complexity total does not match a configured band") o ≡ ok band
        → o ≡ some band
    found none q = cc
    found (some b) q = ap some (ok-injective q)

module _ (classification : Classification) (bundle : PolicyBundle) (limits : Limits) where
  -- A rule matches the components of the classification.
  abbrev pub Matches : RuleMatch → Type 0
  Matches rule =
      (components : Dict ℕ) × (validated_classification classification bundle.policy
        ≡ ok components)
      × (rule_matches rule classification components ≡ true)

  -- The entry stands in a complexity band of the policy.
  abbrev pub IsPrior : CandidateSpec → Type 0
  IsPrior spec =
      (band : ComplexityBand) × In band bundle.policy.complexity_bands × In spec band.candidates

  -- The entry is one that a matching modifier of the policy adds.
  abbrev pub IsAdded : CandidateSpec → Type 0
  IsAdded spec =
      (rule : Modifier) × In rule bundle.policy.modifiers
      × In spec rule.add_candidates
      × Matches rule.matches

  -- The pieces from which a plan was made.
  pub record Built (plan : CandidatePlan) : Type 0 where
    pub components : Dict ℕ
    pub components_eq : validated_classification classification bundle.policy ≡ ok components
    pub band : ComplexityBand
    pub prior_ranks : List ℕ
    pub matched : Matched
    pub band_eq : complexity_band bundle.policy (sum (values components)) ≡ ok band
    pub candidates_eq :
        plan.candidates
        ≡ collect bundle.policy bundle.models limits band.candidates prior_ranks matched
            (lowest_rank bundle.models)
    pub floors_eq : plan.floors ≡ matched.floors
    pub hard_eq : plan.hard_floor ≡ matched.hard_floor
    pub preferred_eq : plan.preferred_floor ≡ matched.preferred_floor
    pub sound : IsSound (lowest_rank bundle.models) matched
    pub floored : Matched
    pub floored_eq :
        match_floors classification components bundle.models bundle.policy.task_family_floors
          (start (lowest_rank bundle.models))
        ≡ ok floored
    pub matched_eq :
        match_modifiers classification components bundle.models bundle.policy.modifiers floored
        ≡ ok matched

  pub Built-of_ok :
      (plan : CandidatePlan) → build_candidates classification bundle limits ≡ ok plan → Built plan
  unfolding build_candidates
  Built-of_ok plan h =
      let (components, e1, h1) =
        >>=-eq-ok (validated_classification classification bundle.policy) _ h in
      let (band, e2, h2) =
        >>=-eq-ok (complexity_band bundle.policy (sum (values components))) _ h1 in
      let (ranks, _, h3) = >>=-eq-ok (ranks_of bundle.models band.candidates) _ h2 in
      let (m, e4, h4) =
        >>=-eq-ok
          (match_floors classification components bundle.models bundle.policy.task_family_floors
            (start (lowest_rank bundle.models)))
          _ h3 in
      let (m', e5, h5) =
        >>=-eq-ok
          (match_modifiers classification components bundle.models bundle.policy.modifiers m) _
          h4 in
      let same = sym (ok-injective h5) in
      record {
        components = components;
        components_eq = e1;
        band = band;
        prior_ranks = ranks;
        matched = m';
        band_eq = e2;
        candidates_eq = ap (λ (p : CandidatePlan). p.candidates) same;
        floors_eq = ap (λ (p : CandidatePlan). p.floors) same;
        hard_eq = ap (λ (p : CandidatePlan). p.hard_floor) same;
        preferred_eq = ap (λ (p : CandidatePlan). p.preferred_floor) same;
        sound =
            match_modifiers-IsSound (lowest_rank bundle.models) classification components
              bundle.models bundle.policy.modifiers m e5
              (match_floors-IsSound (lowest_rank bundle.models) classification components
                bundle.models bundle.policy.task_family_floors _ e4 start-IsSound);
        floored = m;
        floored_eq = e4;
        matched_eq = e5;
      }

  pub Built-entries :
      (plan : CandidatePlan) (b : Built plan) (spec : CandidateSpec)
      → In spec b.matched.entries
      → IsAdded spec
  Built-entries plan b spec n =
      let (rule, place, own, q) =
        matched-entries classification b.components bundle.models bundle.policy.task_family_floors
          bundle.policy.modifiers (lowest_rank bundle.models) b.floored b.matched b.floored_eq
          b.matched_eq spec n in
      (rule, place, own, (b.components, b.components_eq, q))

  pub Built-priors :
      (plan : CandidatePlan) (b : Built plan) (spec : CandidateSpec)
      → In spec b.band.candidates
      → IsPrior spec
  Built-priors plan b spec n = (b.band, complexity_band-In bundle.policy _ b.band b.band_eq, n)

  Built-Matches :
      (plan : CandidatePlan) (b : Built plan) (rule : RuleMatch)
      → Matches rule
      → rule_matches rule classification b.components ≡ true
  Built-Matches plan b rule (components, e, q) =
      let same : components ≡ b.components = ok-injective (sym e ∙ b.components_eq) in
      subst (λ cs. rule_matches rule classification cs ≡ true) same q

  -- The candidates of `band`, each once, are the beginning of the list.
  abbrev pub StartsWithBand : List Candidate → Type 0
  StartsWithBand candidates =
      (band : ComplexityBand) × In band bundle.policy.complexity_bands
      × Extends (add_candidates Source.prior band.candidates []) candidates

  -- When `build_candidates` returns a plan, it holds no model and effort pair twice, and it
  -- starts with the candidates of a configured complexity band, in the band's order.
  pub build_candidates-IsDistinct :
      (plan : CandidatePlan)
      → build_candidates classification bundle limits ≡ ok plan
      → IsDistinct plan.candidates × StartsWithBand plan.candidates
  build_candidates-IsDistinct plan h =
      let b = Built-of_ok plan h in
      let (distinct, front) =
        collect-IsDistinct bundle.policy bundle.models limits b.band.candidates b.prior_ranks
          b.matched (lowest_rank bundle.models) in
      rw (b.candidates_eq)
        (distinct, (b.band, complexity_band-In bundle.policy _ b.band b.band_eq, front))

  -- When `build_candidates` returns a plan, each of its candidates is named by an entry of a
  -- complexity band, or by an entry that a matching modifier adds, or it runs an enabled model at an
  -- effort that it supports: at or above both floors of the plan as a floor candidate, or within the
  -- tier bounds as a fallback.
  pub build_candidates-Origin :
      (plan : CandidatePlan) (c : Candidate)
      → build_candidates classification bundle limits ≡ ok plan
      → In c plan.candidates
      → Origin IsPrior IsAdded bundle.models limits plan.hard_floor plan.preferred_floor c
  build_candidates-Origin plan c h listed =
      let b = Built-of_ok plan h in
      rw (b.hard_eq, b.preferred_eq)
        (collect-Origin IsPrior IsAdded bundle.models limits b.matched (lowest_rank bundle.models)
          b.band.candidates c (Built-priors plan b) (Built-entries plan b) bundle.policy
          b.prior_ranks (subst (In c) b.candidates_eq listed))

  -- The floors hold every floor rule that matches, each by its strength, and the preferred floor
  -- holds the preferred tier of every modifier that matches.
  pub record HoldsRules (h p : ℕ) : Type 0 where
    pub floors :
        (rule : FloorRule)
        → In rule bundle.policy.task_family_floors
        → Matches rule.matches
        → IsHeld bundle.models h p rule.min_tier rule.strength
    pub modifiers :
        (rule : Modifier) (tier : String)
        → In rule bundle.policy.modifiers
        → Matches rule.matches
        → rule.preferred_min_tier ≡ some tier
        → IsHeld bundle.models h p tier preferred

  -- When `build_candidates` returns a plan, its hard floor is at least the rank of each hard floor
  -- rule of the policy that matches, its preferred floor at least that of each preferred floor rule
  -- and of the preferred tier of each modifier that match, both are at least the lowest rank of the
  -- models, and they bound the evidence that the plan lists.
  pub build_candidates-IsBounded :
      (plan : CandidatePlan)
      → build_candidates classification bundle limits ≡ ok plan
      → HoldsRules plan.hard_floor plan.preferred_floor
        × IsBounded plan.hard_floor plan.preferred_floor plan.floors
        × (lowest_rank bundle.models ≤ plan.hard_floor)
        × (lowest_rank bundle.models ≤ plan.preferred_floor)
  build_candidates-IsBounded plan h =
      let b = Built-of_ok plan h in
      let held : HoldsRules b.matched.hard_floor b.matched.preferred_floor = record {
        floors = λ rule n q.
            floors-IsHeld classification b.components bundle.models bundle.policy.task_family_floors
              bundle.policy.modifiers _ b.floored b.matched rule b.floored_eq b.matched_eq n
              (Built-Matches plan b rule.matches q);
        modifiers = λ rule tier n q t.
            match_modifiers-IsHeld classification b.components bundle.models bundle.policy.modifiers
              b.floored b.matched rule tier b.matched_eq n (Built-Matches plan b rule.matches q) t;
      } in
      rw (b.hard_eq, b.preferred_eq, b.floors_eq)
        (held, b.sound.bounded, b.sound.hard_start, b.sound.preferred_start)
