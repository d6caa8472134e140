-- ===== src/Policy/Rules/Bands.antt =====
-- Bands that partition the range of totals give each total its band.
use openai_model_router.Prelude.{
  ℕ, ◌+◌, ◌≤◌, ◌≡◌, refl, some, List, [], ◌∷◌, true, In, here, there, leb, ◌&&◌, Bool-cases, inl,
  inr, arith, nat_eq, ok,
}
use openai_model_router.Contracts.{ComplexityBand, PolicyDocument}
use openai_model_router.Policy.Rules.{find_band, complexity_band, bands_partition}

-- The band stands in the list and its range holds the total.
pub record Holds (bands : List ComplexityBand) (points : ℕ) (band : ComplexityBand) : Type 0 where
  pub listed : In band bands
  pub low : band.min ≤ points
  pub high : points ≤ band.max

find_band-Holds :
    (cursor last points : ℕ) (bands : List ComplexityBand)
    → bands_partition cursor last bands ≡ true
    → cursor ≤ points
    → points ≤ last
    → (band : ComplexityBand) × (find_band bands points ≡ some band) × Holds bands points band
unfolding bands_partition find_band
find_band-Holds cursor last points [] h low high = absurd (ground arith)
find_band-Holds cursor last points (band ∷ bands) h low high =
    elim (Bool-cases (leb band.min points && leb points band.max)) [
      | inl e ↦ (band, rw e, record { listed = here refl; low = ground arith; high = ground arith })
      | inr e ↦
          let (b, q, holds) =
            find_band-Holds (band.max + 1) last points bands (ground arith) (ground arith) high in
          (b, rw e q, record { listed = there holds.listed; low = holds.low; high = holds.high })
    ]

-- Under a policy whose bands partition its range of totals, `complexity_band` returns for each
-- total of the range a configured band that holds it.
pub complexity_band-total :
    (policy : PolicyDocument) (points : ℕ)
    → bands_partition policy.complexity.total_min policy.complexity.total_max
        policy.complexity_bands
      ≡ true
    → policy.complexity.total_min ≤ points
    → points ≤ policy.complexity.total_max
    → (band : ComplexityBand) × (complexity_band policy points ≡ ok band)
      × Holds policy.complexity_bands points band
unfolding complexity_band
complexity_band-total policy points h low high =
    let (band, e, holds) = find_band-Holds _ _ points policy.complexity_bands h low high in
    (band, rw e refl, holds)
