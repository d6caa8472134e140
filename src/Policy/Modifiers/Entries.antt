-- ===== src/Policy/Modifiers/Entries.antt =====
-- The modifiers that the entries of a plan come from.
use openai_model_router.Prelude.{
  ℕ, ◌≡◌, refl, sym, ap, subst, String, Option, none, some, List, [], ◌∷◌, true, Dict, In, here,
  there, In-append, Bool-cases, inl, inr, ◌⊎◌, ok, >>=-eq-ok, ok-injective,
}
use openai_model_router.Contracts.{Classification, CandidateSpec, FloorRule, Modifier, ModelEntry}
use openai_model_router.Policy.Rules.{rule_matches, policy_rank}
use openai_model_router.Policy.Modifiers.{
  Matched, add_floor, match_floors, add_modifier, add_preferred, apply_modifier, match_modifiers,
  start,
}

module _ (classification : Classification) (components : Dict ℕ) (models : Dict ModelEntry) where
  -- Floors add no entries.
  match_floors-entries :
      (rules : List FloorRule) (m result : Matched)
      → match_floors classification components models rules m ≡ ok result
      → result.entries ≡ m.entries
  unfolding match_floors add_floor
  match_floors-entries [] m result h = ap (λ x. x.entries) (sym (ok-injective h))
  match_floors-entries (rule ∷ rules) m result h =
      elim (Bool-cases (rule_matches rule.matches classification components)) [
        | inl q ↦
            let (rank, _, rest) = >>=-eq-ok (policy_rank rule.min_tier models) _ (rw q at h) in
            match_floors-entries rules (add_floor rule rank m) result rest
        | inr q ↦ match_floors-entries rules m result (rw q at h)
      ]

  apply_modifier-entries :
      (rule : Modifier) (tier : Option String) (m result : Matched)
      → apply_modifier classification components models rule tier m ≡ ok result
      → result.entries ≡ (add_modifier classification components models rule m).entries
  unfolding apply_modifier add_preferred
  apply_modifier-entries rule none m result h = ap (λ x. x.entries) (sym (ok-injective h))
  apply_modifier-entries rule (some tier) m result h =
      let (rank, _, rest) = >>=-eq-ok (policy_rank tier models) _ h in
      ap (λ x. x.entries) (sym (ok-injective rest))

  abbrev From : List Modifier → Matched → CandidateSpec → Type 0
  From rules m spec =
      In spec m.entries
      ⊎ ((rule : Modifier) × In rule rules
          × In spec rule.add_candidates
          × (rule_matches rule.matches classification components ≡ true))

  match_modifiers-entries :
      (rules : List Modifier) (m result : Matched)
      → match_modifiers classification components models rules m ≡ ok result
      → (spec : CandidateSpec) → In spec result.entries
      → From rules m spec
  unfolding match_modifiers add_modifier
  match_modifiers-entries [] m result h spec n =
      inl (subst (λ x. In spec x.entries) (sym (ok-injective h)) n)
  match_modifiers-entries (rule ∷ rules) m result h spec n =
      elim (Bool-cases (rule_matches rule.matches classification components)) [
        | inl q ↦
            let (next, first, rest) =
              >>=-eq-ok
                (apply_modifier classification components models rule rule.preferred_min_tier m) _
                (rw q at h) in
            added q next (apply_modifier-entries rule rule.preferred_min_tier m next first)
              (match_modifiers-entries rules next result rest spec n)
        | inr q ↦ kept (match_modifiers-entries rules m result (rw q at h) spec n)
      ]
    where
      kept : From rules m spec → From (rule ∷ rules) m spec
      kept (inl x) = inl x
      kept (inr (r, place, s, q)) = inr (r, there place, s, q)

      own :
          (rule_matches rule.matches classification components ≡ true)
          → In spec m.entries ⊎ In spec rule.add_candidates
          → From (rule ∷ rules) m spec
      own q (inl x) = inl x
      own q (inr x) = inr (rule, here refl, x, q)

      added :
          (rule_matches rule.matches classification components ≡ true)
          → (next : Matched)
          → next.entries ≡ (add_modifier classification components models rule m).entries
          → From rules next spec
          → From (rule ∷ rules) m spec
      added q next e (inl x) =
          own q (In-append spec m.entries rule.add_candidates (subst (In spec) e x))
      added q next e (inr (r, place, s, k)) = inr (r, there place, s, k)

  -- From no entries, those of the result are what the modifiers add.
  pub matched-entries :
      (floors : List FloorRule) (rules : List Modifier) (rank : ℕ) (m result : Matched)
      → match_floors classification components models floors (start rank) ≡ ok m
      → match_modifiers classification components models rules m ≡ ok result
      → (spec : CandidateSpec) → In spec result.entries
      → (rule : Modifier) × In rule rules
        × In spec rule.add_candidates
        × (rule_matches rule.matches classification components ≡ true)
  unfolding start
  matched-entries floors rules rank m result f h spec n =
      settle (match_modifiers-entries rules m result h spec n)
    where
      settle :
          From rules m spec
          → (rule : Modifier) × In rule rules
            × In spec rule.add_candidates
            × (rule_matches rule.matches classification components ≡ true)
      settle (inl x) =
          let empty : In spec [] =
            subst (In spec) (match_floors-entries floors (start rank) m f) x in
          elim empty [ ]
      settle (inr x) = x
