-- ===== src/Configuration/Bands.antt =====
-- A policy that passes its checks has a band for every classification that passes its own.
use openai_model_router.Prelude.{
  ℕ, ◌+◌, ◌≤◌, ◌≡◌, List, [], ◌∷◌, true, not, ◌||◌, ◌==◌, nat_eq, string_eq, ltb, is_empty, is_some,
  contains, keys, arith, Dict, ok, >>=-eq-ok, raise_if-eq-ok, ok-injective,
}
use openai_model_router.Contracts.{Classification, ComplexityBand, PolicyDocument, total}
use openai_model_router.Policy.Rules.{
  component_values, same_set, check_bounds, validated_classification, complexity_band,
  bands_partition,
}
use openai_model_router.Policy.Rules.Bands.{Holds, complexity_band-total}
use openai_model_router.Configuration.{
  is_unique, check_partition, check_all, check_band, check_policy,
}

check_partition-bands :
    (start last cursor : ℕ) (bands : List ComplexityBand)
    → check_all check_band bands ≡ ok tt
    → check_partition start bands ≡ ok cursor
    → cursor ≡ last + 1
    → bands_partition start last bands ≡ true
unfolding check_partition bands_partition check_all check_band
check_partition-bands start last cursor [] b h e =
    let same : start ≡ cursor = ok-injective h in ground arith
check_partition-bands start last cursor (band ∷ bands) b h e =
    let (first, rest) = raise_if-eq-ok (not (band.min == start)) _ _ h in
    let (_, checked, others) = >>=-eq-ok (check_band band) _ b in
    let (ordered, _) = raise_if-eq-ok (ltb band.max band.min) _ _ checked in
    let later = check_partition-bands (band.max + 1) last cursor bands others rest e in ground arith

check_policy-bands :
    (policy : PolicyDocument)
    → check_all check_band policy.complexity_bands ≡ ok tt
    → check_policy policy ≡ ok tt
    → bands_partition policy.complexity.total_min policy.complexity.total_max
        policy.complexity_bands
      ≡ true
unfolding check_policy
check_policy-bands policy b h =
    let (_, h1) = raise_if-eq-ok (is_empty policy.task_families) _ _ h in
    let (_, h2) = raise_if-eq-ok (not (is_unique policy.task_families)) _ _ h1 in
    let (_, h3) = raise_if-eq-ok (is_empty policy.complexity_bands) _ _ h2 in
    let (cursor, partition, h4) =
      >>=-eq-ok (check_partition policy.complexity.total_min policy.complexity_bands) _ h3 in
    let (covers, _) = raise_if-eq-ok (not (cursor == policy.complexity.total_max + 1)) _ _ h4 in
    let reached : cursor ≡ policy.complexity.total_max + 1 = ground arith in
    check_partition-bands policy.complexity.total_min policy.complexity.total_max cursor
      policy.complexity_bands b partition reached

validated-range :
    (classification : Classification) (policy : PolicyDocument) (components : Dict ℕ)
    → validated_classification classification policy ≡ ok components
    → (policy.complexity.total_min ≤ total classification.components)
      × (total classification.components ≤ policy.complexity.total_max)
unfolding validated_classification
validated-range classification policy components h =
    let points = total classification.components in
    let complexity = policy.complexity in
    let names = component_values classification.components in
    let (_, h1) =
      raise_if-eq-ok (not (contains classification.task_family policy.task_families)) _ _ h in
    let (_, h2) = raise_if-eq-ok (is_some classification.task_subclass) _ _ h1 in
    let (_, h3) =
      raise_if-eq-ok (not (same_set (keys names) (keys complexity.components))) _ _ h2 in
    let (_, _, h4) = >>=-eq-ok (check_bounds complexity.components names) _ h3 in
    let (within, _) =
      raise_if-eq-ok (ltb points complexity.total_min || ltb complexity.total_max points) _ _ h4 in
    (ground arith, ground arith)

-- Under a policy document that passes its own checks and those of its bands, every classification
-- that `_validated_classification` accepts has a complexity band: `complexity_band` returns a
-- configured band that holds its total.
pub check_policy-complexity_band :
    (policy : PolicyDocument) (classification : Classification) (components : Dict ℕ)
    → check_all check_band policy.complexity_bands ≡ ok tt
    → check_policy policy ≡ ok tt
    → validated_classification classification policy ≡ ok components
    → (band : ComplexityBand) × (complexity_band policy (total classification.components) ≡ ok band)
      × Holds policy.complexity_bands (total classification.components) band
check_policy-complexity_band policy classification components b h v =
    let (low, high) = validated-range classification policy components v in
    complexity_band-total policy (total classification.components) (check_policy-bands policy b h)
      low high
