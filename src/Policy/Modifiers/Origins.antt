-- ===== src/Policy/Modifiers/Origins.antt =====
-- Where each candidate of a plan comes from, and what that guarantees.
use openai_model_router.Prelude.{
  ℕ, ◌≤◌, ◌≡◌, refl, sym, ap, subst, ◌∙◌, String, List, [], ◌∷◌, ◌++◌, Bool, true, false, Dict, In,
  here, there, In-append, In-singleton, In-select, In-sort_by, contains→In, is_empty, map, sort_by,
  unique, concat_map, Bool-cases, inl, inr, ◌⊎◌, arith,
}
use openai_model_router.Contracts.{
  Candidate, CandidateSpec, Effort, Source, ModelEntry, PolicyDocument, Limits, effort_eq,
}
use openai_model_router.Policy.Modifiers.{
  Matched, has_pair, add_efforts, add_candidates, enabled_models, supported_in_order, within_limits,
  floor_entries, fallback_efforts, fallback_entries, applicable_floor, floor_applies, collect,
  configured_candidates, add_if,
}

-- The candidate is one that the entries name.
pub record Listed (source : Source) (entries : List CandidateSpec) (c : Candidate) : Type 0 where
  pub from : c.source ≡ source
  pub entry : CandidateSpec
  pub listed : In entry entries
  pub model : c.model ≡ entry.model
  pub effort : In c.effort entry.efforts

-- The candidate runs an enabled model at an effort that it supports.
pub record Runs (models : Dict ModelEntry) (c : Candidate) (m : ModelEntry) : Type 0 where
  pub configured : In (c.model, m) models
  pub enabled : m.configured_enabled ≡ true
  pub supported : In c.effort m.reasoning_efforts

module _ (source : Source) where
  abbrev added : String → Effort → Candidate
  added model effort = record { model = model; effort = effort; source = source }

  abbrev NewOr : List Candidate → String → List Effort → Candidate → Type 0
  NewOr cs model efforts c = In c cs ⊎ (c.source ≡ source) × (c.model ≡ model) × In c.effort efforts

  In-add_efforts :
      (model : String) (efforts : List Effort) (cs : List Candidate) (c : Candidate)
      → In c (add_efforts source model efforts cs)
      → NewOr cs model efforts c
  unfolding add_efforts
  In-add_efforts model [] cs c h = inl h
  In-add_efforts model (e ∷ es) cs c h = elim (Bool-cases (has_pair cs model e)) [
    | inl q ↦ skip (In-add_efforts model es cs c (rw q at h))
    | inr q ↦ keep (In-add_efforts model es _ c (rw q at h))
  ]
    where
      skip : NewOr cs model es c → NewOr cs model (e ∷ es) c
      skip (inl m) = inl m
      skip (inr (s, n, m)) = inr (s, n, there m)

      last : In c cs ⊎ In c (added model e ∷ []) → NewOr cs model (e ∷ es) c
      last (inl m) = inl m
      last (inr m) =
          let p = In-singleton c (added model e) m in
          inr (ap (λ x. x.source) p, ap (λ x. x.model) p, here (ap (λ x. x.effort) p))

      keep : NewOr (cs ++ added model e ∷ []) model es c → NewOr cs model (e ∷ es) c
      keep (inl m) = last (In-append c cs (added model e ∷ []) m)
      keep (inr (s, n, m)) = inr (s, n, there m)

  pub In-add_candidates :
      (entries : List CandidateSpec) (cs : List Candidate) (c : Candidate)
      → In c (add_candidates source entries cs)
      → In c cs ⊎ Listed source entries c
  unfolding add_candidates
  In-add_candidates [] cs c h = inl h
  In-add_candidates (entry ∷ entries) cs c h = later (In-add_candidates entries _ c h)
    where
      now : NewOr cs entry.model entry.efforts c → In c cs ⊎ Listed source (entry ∷ entries) c
      now (inl m) = inl m
      now (inr (s, n, m)) =
          inr (record { from = s; entry = entry; listed = here refl; model = n; effort = m })

      later :
          In c (add_efforts source entry.model entry.efforts cs) ⊎ Listed source entries c
          → In c cs ⊎ Listed source (entry ∷ entries) c
      later (inl m) = now (In-add_efforts entry.model entry.efforts cs c m)
      later (inr l) = inr (record {
        from = l.from;
        entry = l.entry;
        listed = there l.listed;
        model = l.model;
        effort = l.effort;
      })

module _ (models : Dict ModelEntry) where
  In-enabled :
      (le : String × ModelEntry → String × ModelEntry → Bool) (p : String × ModelEntry)
      → In p (sort_by le (enabled_models models))
      → In p models × (p.1.configured_enabled ≡ true)
  unfolding enabled_models
  In-enabled le p m = In-select _ p models (In-sort_by le p _ m)

In-map {ℓ κ} :
    {A : Type ℓ} {B : Type κ} (f : A → B) (b : B) (xs : List A)
    → In b (map f xs)
    → (a : A) × In a xs × (b ≡ f a)
In-map f b [] m = elim m [ ]
In-map f b (x ∷ xs) (here e) = (x, here refl, e)
In-map f b (x ∷ xs) (there m) = let (a, n, e) = In-map f b xs m in (a, there n, e)

In-supported :
    (m : ModelEntry) (es : List Effort) (e : Effort)
    → In e (supported_in_order m es)
    → In e m.reasoning_efforts
unfolding supported_in_order
In-supported m es e h = contains→In e m.reasoning_efforts (In-select _ e es h).1

In-fallback :
    (m : ModelEntry) (near preference : List Effort) (e : Effort)
    → In e (fallback_efforts m near preference)
    → In e m.reasoning_efforts
unfolding fallback_efforts
In-fallback m near preference e h = elim (Bool-cases (is_empty (supported_in_order m near))) [
  | inl q ↦ In-supported m preference e (rw q at h)
  | inr q ↦ In-supported m near e (rw q at h)
]

-- A candidate of source `floor` or `fallback` runs an enabled model at a supported effort.
module _ (models : Dict ModelEntry) (c : Candidate) where
  pub Listed-floor :
      (preference : List Effort) (applicable : ℕ) (cs : List Candidate)
      → Listed Source.floor (floor_entries models preference applicable cs) c
      → (m : ModelEntry) × Runs models c m × (applicable ≤ m.tier_rank)
  unfolding floor_entries
  Listed-floor preference applicable cs l =
      let (p, kept, e) = In-map _ l.entry _ l.listed in
      let (sorted, test) = In-select _ p _ kept in
      let (configured, enabled) = In-enabled models _ p sorted in
      let named = l.model ∙ ap (λ (s : CandidateSpec). s.model) e in
      (
        p.1,
        record {
          configured = subst (λ n. In (n, p.1) models) (sym named) configured;
          enabled = enabled;
          supported =
              In-supported p.1 preference c.effort
                (subst (λ (s : CandidateSpec). In c.effort s.efforts) e l.effort);
        },
        ground arith,
      )

  pub Listed-fallback :
      (prior_ranks : List ℕ) (prior_models : List String) (near preference : List Effort)
      (limits : Limits)
      → Listed Source.fallback
          (fallback_entries models prior_ranks prior_models near preference limits)
          c
      → (m : ModelEntry) × Runs models c m × (within_limits m.tier_rank limits ≡ true)
  unfolding fallback_entries
  Listed-fallback prior_ranks prior_models near preference limits l =
      let (p, kept, e) = In-map _ l.entry _ l.listed in
      let (sorted, test) = In-select _ p _ kept in
      let (configured, enabled) = In-enabled models _ p sorted in
      let named = l.model ∙ ap (λ (s : CandidateSpec). s.model) e in
      (
        p.1,
        record {
          configured = subst (λ n. In (n, p.1) models) (sym named) configured;
          enabled = enabled;
          supported =
              In-fallback p.1 near preference c.effort
                (subst (λ (s : CandidateSpec). In c.effort s.efforts) e l.effort);
        },
        ground arith,
      )

-- The candidate is one that an entry of the kind names.
pub record Named (Kind : CandidateSpec → Type 0) (c : Candidate) : Type 0 where
  pub entry : CandidateSpec
  pub kind : Kind entry
  pub model : c.model ≡ entry.model
  pub effort : In c.effort entry.efforts

Listed-Named :
    (Kind : CandidateSpec → Type 0) (source : Source) (entries : List CandidateSpec) (c : Candidate)
    → ((spec : CandidateSpec) → In spec entries → Kind spec)
    → Listed source entries c
    → Named Kind c
Listed-Named Kind source entries c h l = record {
  entry = l.entry;
  kind = h l.entry l.listed;
  model = l.model;
  effort = l.effort;
}

-- The four ways into a plan with the given floors, where `Prior` and `Added` say which entries the
-- policy configures.
pub data Origin (Prior Added : CandidateSpec → Type 0) (models : Dict ModelEntry) (limits : Limits)
    (hard preferred : ℕ) (c : Candidate) : Type 0 where
  from_prior :
      c.source ≡ Source.prior → Named Prior c → Origin Prior Added models limits hard preferred c
  from_modifier :
      c.source ≡ Source.modifier → Named Added c → Origin Prior Added models limits hard preferred c
  from_floor :
      (m : ModelEntry)
      → c.source ≡ Source.floor
      → Runs models c m
      → hard ≤ m.tier_rank
      → preferred ≤ m.tier_rank
      → Origin Prior Added models limits hard preferred c
  from_fallback :
      (m : ModelEntry)
      → c.source ≡ Source.fallback
      → Runs models c m
      → within_limits m.tier_rank limits ≡ true
      → Origin Prior Added models limits hard preferred c

applicable-ge :
    (m : Matched) (limits : Limits) (minimum_rank : ℕ)
    → (m.hard_floor ≤ applicable_floor m limits minimum_rank)
      × (m.preferred_floor ≤ applicable_floor m limits minimum_rank)
unfolding applicable_floor
applicable-ge m limits minimum_rank = (ground arith, ground arith)

module _ (Prior Added : CandidateSpec → Type 0) (models : Dict ModelEntry) (limits : Limits)
    (m : Matched) (minimum_rank : ℕ) (prior : List CandidateSpec) (c : Candidate)
    (priors : (spec : CandidateSpec) → In spec prior → Prior spec)
    (additions : (spec : CandidateSpec) → In spec m.entries → Added spec) where
  abbrev FromPlan : Type 0
  FromPlan = Origin Prior Added models limits m.hard_floor m.preferred_floor c

  configured-Origin : In c (configured_candidates prior m) → FromPlan
  unfolding configured_candidates
  configured-Origin h = second (In-add_candidates Source.modifier m.entries _ c h)
    where
      first : In c [] ⊎ Listed Source.prior prior c → FromPlan
      first (inl n) = elim n [ ]
      first (inr l) = from_prior l.from (Listed-Named Prior _ prior c priors l)

      second :
          In c (add_candidates Source.prior prior []) ⊎ Listed Source.modifier m.entries c
          → FromPlan
      second (inl n) = first (In-add_candidates Source.prior prior [] c n)
      second (inr l) = from_modifier l.from (Listed-Named Added _ m.entries c additions l)

  floor-Origin :
      (b : Bool) (preference : List Effort)
      → In c (
          add_if b
            (floor_entries models preference
              (applicable_floor m limits minimum_rank)
              (configured_candidates prior m))
            (configured_candidates prior m))
      → FromPlan
  unfolding add_if
  floor-Origin false preference h = configured-Origin h
  floor-Origin true preference h = split (In-add_candidates Source.floor _ _ c h)
    where
      split :
          In c (configured_candidates prior m)
            ⊎ Listed Source.floor
                (floor_entries models preference
                  (applicable_floor m limits minimum_rank)
                  (configured_candidates prior m))
                c
          → FromPlan
      split (inl n) = configured-Origin n
      split (inr l) =
          let (model, runs, high) = Listed-floor models c preference _ _ l in
          from_floor model l.from runs (omega (arith, applicable-ge m limits minimum_rank))
            (omega (arith, applicable-ge m limits minimum_rank))

  -- Every candidate is configured by the policy, or runs an enabled model at an effort that it
  -- supports: at or above both floors, or within the tier bounds.
  pub collect-Origin :
      (policy : PolicyDocument) (prior_ranks : List ℕ)
      → In c (collect policy models limits prior prior_ranks m minimum_rank)
      → FromPlan
  unfolding collect
  collect-Origin policy prior_ranks h = split (In-add_candidates Source.fallback _ _ c h)
    where
      split :
          In c (
              add_if
                (floor_applies m limits minimum_rank)
                (floor_entries models policy.floor_candidate_effort_preference
                  (applicable_floor m limits minimum_rank)
                  (configured_candidates prior m))
                (configured_candidates prior m))
            ⊎ Listed Source.fallback
                (fallback_entries models prior_ranks
                  (map (λ e. e.model) prior)
                  (unique (concat_map (λ e. e.efforts) prior))
                  policy.floor_candidate_effort_preference
                  limits)
                c
          → FromPlan
      split (inl n) = floor-Origin _ _ n
      split (inr l) =
          let (model, runs, within) = Listed-fallback models c _ _ _ _ limits l in
          from_fallback model l.from runs within
