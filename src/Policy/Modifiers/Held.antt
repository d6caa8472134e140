-- ===== src/Policy/Modifiers/Held.antt =====
-- The floors of a plan hold every rule that matched.
use openai_model_router.Prelude.{
  ℕ, ◌≤◌, ◌≡◌, refl, sym, subst, String, Option, none, some, List, [], ◌∷◌, true, Dict, In, here,
  there, ok, >>=-eq-ok, ok-injective, Bool-cases, inl, inr, arith,
}
use openai_model_router.Contracts.{
  Classification, FloorRule, Modifier, ModelEntry, Strength, hard, preferred,
}
use openai_model_router.Policy.Rules.{rule_matches, policy_rank}
use openai_model_router.Policy.Modifiers.{
  Matched, add_floor, match_floors, add_modifier, add_preferred, apply_modifier, match_modifiers,
}
use openai_model_router.Policy.Modifiers.Floors.{floor_for}

-- The tier has a rank, which is at most the floor of the strength.
pub record IsHeld (models : Dict ModelEntry) (h p : ℕ) (tier : String) (strength : Strength)
    : Type 0 where
  pub rank : ℕ
  pub ranked : policy_rank tier models ≡ ok rank
  pub below : rank ≤ floor_for h p strength

-- Neither floor sinks.
record Rises (m r : Matched) : Type 0 where
  hard_rises : m.hard_floor ≤ r.hard_floor
  preferred_rises : m.preferred_floor ≤ r.preferred_floor

Rises-refl : (m : Matched) → Rises m m
Rises-refl m = record { hard_rises = omega arith; preferred_rises = omega arith }

Rises-trans : {l m r : Matched} → Rises l m → Rises m r → Rises l r
Rises-trans f g = record {
  hard_rises = omega (arith, f.hard_rises, g.hard_rises);
  preferred_rises = omega (arith, f.preferred_rises, g.preferred_rises);
}

IsHeld-Rises :
    (models : Dict ModelEntry) {m r : Matched} (tier : String) (strength : Strength)
    → Rises m r
    → IsHeld models m.hard_floor m.preferred_floor tier strength
    → IsHeld models r.hard_floor r.preferred_floor tier strength
IsHeld-Rises models tier hard g k = record {
  rank = k.rank;
  ranked = k.ranked;
  below = omega (arith, k.below, g.hard_rises);
}
IsHeld-Rises models tier preferred g k = record {
  rank = k.rank;
  ranked = k.ranked;
  below = omega (arith, k.below, g.preferred_rises);
}

add_floor-Rises : (rule : FloorRule) (rank : ℕ) (m : Matched) → Rises m (add_floor rule rank m)
unfolding add_floor
add_floor-Rises rule rank m = record { hard_rises = ground arith; preferred_rises = ground arith }

add_floor-below :
    (rule : FloorRule) (rank : ℕ) (m : Matched)
    → rank
      ≤ floor_for
          (add_floor rule rank m).hard_floor
          (add_floor rule rank m).preferred_floor
          rule.strength
unfolding add_floor
add_floor-below rule rank m = by_strength rule.strength refl
  where
    by_strength :
        (k : Strength)
        → rule.strength ≡ k
        → rank
          ≤ floor_for
              (add_floor rule rank m).hard_floor
              (add_floor rule rank m).preferred_floor
              rule.strength
    by_strength hard e = ground arith
    by_strength preferred e = ground arith

module _ (classification : Classification) (components : Dict ℕ) (models : Dict ModelEntry) where
  match_floors-Rises :
      (rules : List FloorRule) (m r : Matched)
      → match_floors classification components models rules m ≡ ok r
      → Rises m r
  unfolding match_floors
  match_floors-Rises [] m r h = subst (Rises m) (ok-injective h) (Rises-refl m)
  match_floors-Rises (rule ∷ rules) m r h =
      elim (Bool-cases (rule_matches rule.matches classification components)) [
        | inl e ↦
            let (rank, _, rest) = >>=-eq-ok (policy_rank rule.min_tier models) _ (rw e at h) in
            Rises-trans (add_floor-Rises rule rank m)
              (match_floors-Rises rules (add_floor rule rank m) r rest)
        | inr e ↦ match_floors-Rises rules m r (rw e at h)
      ]

  pub match_floors-IsHeld :
      (rules : List FloorRule) (m r : Matched) (rule : FloorRule)
      → match_floors classification components models rules m ≡ ok r
      → In rule rules
      → rule_matches rule.matches classification components ≡ true
      → IsHeld models r.hard_floor r.preferred_floor rule.min_tier rule.strength
  unfolding match_floors
  match_floors-IsHeld [] m r rule h n q = elim n [ ]
  match_floors-IsHeld (x ∷ xs) m r rule h (here p) q =
      let q' : rule_matches x.matches classification components ≡ true =
        subst (λ y. rule_matches y.matches classification components ≡ true) p q in
      let (rank, ranked, rest) = >>=-eq-ok (policy_rank x.min_tier models) _ (rw q' at h) in
      subst (λ y. IsHeld models r.hard_floor r.preferred_floor y.min_tier y.strength) (sym p)
        (IsHeld-Rises models x.min_tier x.strength
          (match_floors-Rises xs (add_floor x rank m) r rest)
          (record { rank = rank; ranked = ranked; below = add_floor-below x rank m }))
  match_floors-IsHeld (x ∷ xs) m r rule h (there n) q =
      elim (Bool-cases (rule_matches x.matches classification components)) [
        | inl e ↦
            let (rank, _, rest) = >>=-eq-ok (policy_rank x.min_tier models) _ (rw e at h) in
            match_floors-IsHeld xs (add_floor x rank m) r rule rest n q
        | inr e ↦ match_floors-IsHeld xs m r rule (rw e at h) n q
      ]

  apply_modifier-Rises :
      (rule : Modifier) (o : Option String) (m r : Matched)
      → apply_modifier classification components models rule o m ≡ ok r
      → Rises m r
  unfolding apply_modifier add_modifier add_preferred
  apply_modifier-Rises rule none m r h =
      subst (Rises m) (ok-injective h)
        (record { hard_rises = omega arith; preferred_rises = omega arith })
  apply_modifier-Rises rule (some tier) m r h =
      let (rank, _, rest) = >>=-eq-ok (policy_rank tier models) _ h in
      subst (Rises m) (ok-injective rest)
        (record { hard_rises = omega arith; preferred_rises = omega arith })

  match_modifiers-Rises :
      (rules : List Modifier) (m r : Matched)
      → match_modifiers classification components models rules m ≡ ok r
      → Rises m r
  unfolding match_modifiers
  match_modifiers-Rises [] m r h = subst (Rises m) (ok-injective h) (Rises-refl m)
  match_modifiers-Rises (rule ∷ rules) m r h =
      elim (Bool-cases (rule_matches rule.matches classification components)) [
        | inl e ↦
            let (m', first, rest) =
              >>=-eq-ok
                (apply_modifier classification components models rule rule.preferred_min_tier m) _
                (rw e at h) in
            Rises-trans (apply_modifier-Rises rule rule.preferred_min_tier m m' first)
              (match_modifiers-Rises rules m' r rest)
        | inr e ↦ match_modifiers-Rises rules m r (rw e at h)
      ]

  apply_modifier-IsHeld :
      (rule : Modifier) (tier : String) (m r : Matched)
      → apply_modifier classification components models rule (some tier) m ≡ ok r
      → IsHeld models r.hard_floor r.preferred_floor tier preferred
  unfolding apply_modifier add_preferred
  apply_modifier-IsHeld rule tier m r h =
      let (rank, ranked, rest) = >>=-eq-ok (policy_rank tier models) _ h in
      subst (λ x. IsHeld models x.hard_floor x.preferred_floor tier preferred) (ok-injective rest)
        (record { rank = rank; ranked = ranked; below = omega arith })

  pub match_modifiers-IsHeld :
      (rules : List Modifier) (m r : Matched) (rule : Modifier) (tier : String)
      → match_modifiers classification components models rules m ≡ ok r
      → In rule rules
      → rule_matches rule.matches classification components ≡ true
      → rule.preferred_min_tier ≡ some tier
      → IsHeld models r.hard_floor r.preferred_floor tier preferred
  unfolding match_modifiers
  match_modifiers-IsHeld [] m r rule tier h n q t = elim n [ ]
  match_modifiers-IsHeld (x ∷ xs) m r rule tier h (here p) q t =
      let q' : rule_matches x.matches classification components ≡ true =
        subst (λ y. rule_matches y.matches classification components ≡ true) p q in
      let t' : x.preferred_min_tier ≡ some tier =
        subst (λ (y : Modifier). y.preferred_min_tier ≡ some tier) p t in
      let (m', first, rest) =
        >>=-eq-ok (apply_modifier classification components models x x.preferred_min_tier m) _
          (rw q' at h) in
      IsHeld-Rises models tier preferred (match_modifiers-Rises xs m' r rest)
        (apply_modifier-IsHeld x tier m m' (rw t' at first))
  match_modifiers-IsHeld (x ∷ xs) m r rule tier h (there n) q t =
      elim (Bool-cases (rule_matches x.matches classification components)) [
        | inl e ↦
            let (m', _, rest) =
              >>=-eq-ok (apply_modifier classification components models x x.preferred_min_tier m) _
                (rw e at h) in
            match_modifiers-IsHeld xs m' r rule tier rest n q t
        | inr e ↦ match_modifiers-IsHeld xs m r rule tier (rw e at h) n q t
      ]

  -- What the floors hold, the modifiers after them still hold.
  pub floors-IsHeld :
      (rules : List FloorRule) (modifiers : List Modifier) (start m r : Matched) (rule : FloorRule)
      → match_floors classification components models rules start ≡ ok m
      → match_modifiers classification components models modifiers m ≡ ok r
      → In rule rules
      → rule_matches rule.matches classification components ≡ true
      → IsHeld models r.hard_floor r.preferred_floor rule.min_tier rule.strength
  floors-IsHeld rules modifiers start m r rule f g n q =
      IsHeld-Rises models rule.min_tier rule.strength (match_modifiers-Rises modifiers m r g)
        (match_floors-IsHeld rules start m rule f n q)
