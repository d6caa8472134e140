-- ===== src/Policy/Modifiers/Floors.antt =====
-- The floors of a plan bound the evidence that they were collected from.
use openai_model_router.Prelude.{
  ℕ, ◌≤◌, ◌≡◌, refl, subst, String, Option, none, some, List, [], ◌∷◌, ◌++◌, Dict, All, ok,
  >>=-eq-ok, ok-injective, Bool-cases, inl, inr, arith,
}
use openai_model_router.Contracts.{
  Classification, FloorRule, Modifier, ModelEntry, FloorEvidence, Strength, hard, preferred,
}
use openai_model_router.Policy.Rules.{rule_matches, policy_rank}
use openai_model_router.Policy.Modifiers.{
  Matched, add_floor, match_floors, apply_modifier, match_modifiers,
}

-- The floor that evidence of a strength is held against.
abbrev pub floor_for : ℕ → ℕ → Strength → ℕ
floor_for h p hard = h
floor_for h p preferred = p

-- Each piece of evidence lies at or below the floor of its strength.
abbrev pub IsBounded : ℕ → ℕ → List FloorEvidence → Type 0
IsBounded h p floors = All (λ f. f.min_tier ≤ floor_for h p f.strength) floors

-- The floors start at the lowest tier, and bound the evidence.
pub record IsSound (minimum_rank : ℕ) (m : Matched) : Type 0 where
  pub bounded : IsBounded m.hard_floor m.preferred_floor m.floors
  pub hard_start : minimum_rank ≤ m.hard_floor
  pub preferred_start : minimum_rank ≤ m.preferred_floor

IsBounded-mono :
    (h p h' p' : ℕ) (floors : List FloorEvidence)
    → h ≤ h'
    → p ≤ p'
    → IsBounded h p floors
    → IsBounded h' p' floors
IsBounded-mono h p h' p' [] u v b = tt
IsBounded-mono h p h' p' (f ∷ floors) u v b =
    (step f.strength b.0, IsBounded-mono h p h' p' floors u v b.1)
  where
    step : (s : Strength) → f.min_tier ≤ floor_for h p s → f.min_tier ≤ floor_for h' p' s
    step hard k = omega arith
    step preferred k = omega arith

IsBounded-snoc :
    (h p : ℕ) (floors : List FloorEvidence) (f : FloorEvidence)
    → IsBounded h p floors
    → f.min_tier ≤ floor_for h p f.strength
    → IsBounded h p (floors ++ f ∷ [])
IsBounded-snoc h p [] f b k = (k, tt)
IsBounded-snoc h p (g ∷ floors) f b k = (b.0, IsBounded-snoc h p floors f b.1 k)

add_floor-IsSound :
    (minimum_rank : ℕ) (rule : FloorRule) (rank : ℕ) (m : Matched)
    → IsSound minimum_rank m
    → IsSound minimum_rank (add_floor rule rank m)
unfolding add_floor
add_floor-IsSound minimum_rank rule rank m s = by_strength rule.strength refl
  where
    by_strength : (k : Strength) → rule.strength ≡ k → IsSound minimum_rank (add_floor rule rank m)
    by_strength hard e = record {
      bounded =
          IsBounded-snoc _ _ m.floors _
            (IsBounded-mono m.hard_floor m.preferred_floor _ _ m.floors (ground arith)
              (ground arith) s.bounded)
            (ground arith);
      hard_start = ground arith;
      preferred_start = ground arith;
    }
    by_strength preferred e = record {
      bounded =
          IsBounded-snoc _ _ m.floors _
            (IsBounded-mono m.hard_floor m.preferred_floor _ _ m.floors (ground arith)
              (ground arith) s.bounded)
            (ground arith);
      hard_start = ground arith;
      preferred_start = ground arith;
    }

module _ (minimum_rank : ℕ) (classification : Classification) (components : Dict ℕ)
    (models : Dict ModelEntry) where
  pub match_floors-IsSound :
      (rules : List FloorRule) (m : Matched) {result : Matched}
      → match_floors classification components models rules m ≡ ok result
      → IsSound minimum_rank m
      → IsSound minimum_rank result
  unfolding match_floors
  match_floors-IsSound [] m h s = subst (IsSound minimum_rank) (ok-injective h) s
  match_floors-IsSound (rule ∷ rules) m h s =
      elim (Bool-cases (rule_matches rule.matches classification components)) [
        | inl e ↦
            let (rank, _, h') = >>=-eq-ok (policy_rank rule.min_tier models) _ (rw e at h) in
            match_floors-IsSound rules (add_floor rule rank m) h'
              (add_floor-IsSound minimum_rank rule rank m s)
        | inr e ↦ match_floors-IsSound rules m (rw e at h) s
      ]

  apply_modifier-IsSound :
      (rule : Modifier) (o : Option String) (m : Matched) {result : Matched}
      → apply_modifier classification components models rule o m ≡ ok result
      → IsSound minimum_rank m
      → IsSound minimum_rank result
  unfolding apply_modifier
  apply_modifier-IsSound rule none m h s = subst (IsSound minimum_rank) (ok-injective h) (record {
    bounded = s.bounded;
    hard_start = s.hard_start;
    preferred_start = s.preferred_start;
  })
  apply_modifier-IsSound rule (some tier) m h s =
      let (rank, _, h') = >>=-eq-ok (policy_rank tier models) _ h in
      subst (IsSound minimum_rank) (ok-injective h') (record {
        bounded =
            IsBounded-snoc _ _ m.floors _
              (IsBounded-mono m.hard_floor m.preferred_floor _ _ m.floors (omega arith)
                (omega arith) s.bounded)
              (omega arith);
        hard_start = s.hard_start;
        preferred_start = omega arith;
      })

  pub match_modifiers-IsSound :
      (rules : List Modifier) (m : Matched) {result : Matched}
      → match_modifiers classification components models rules m ≡ ok result
      → IsSound minimum_rank m
      → IsSound minimum_rank result
  unfolding match_modifiers
  match_modifiers-IsSound [] m h s = subst (IsSound minimum_rank) (ok-injective h) s
  match_modifiers-IsSound (rule ∷ rules) m h s =
      elim (Bool-cases (rule_matches rule.matches classification components)) [
        | inl e ↦
            let (m', h1, h2) =
              >>=-eq-ok
                (apply_modifier classification components models rule rule.preferred_min_tier m) _
                (rw e at h) in
            match_modifiers-IsSound rules m' h2
              (apply_modifier-IsSound rule rule.preferred_min_tier m h1 s)
        | inr e ↦ match_modifiers-IsSound rules m (rw e at h) s
      ]
