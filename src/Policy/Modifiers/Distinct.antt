-- ===== src/Policy/Modifiers/Distinct.antt =====
-- A plan holds no model and effort pair twice, and keeps the prior's candidates in front.
use openai_model_router.Prelude.{
  ℕ, ◌≡◌, refl, sym, ap, ◌∙◌, String, List, [], ◌∷◌, ◌++◌, Bool, true, false, any, append_assoc,
  Dict, beq_comm, string_eq, Bool-cases, inl, inr, arith, append-nil,
}
use openai_model_router.Contracts.{
  Candidate, CandidateSpec, Effort, Source, effort_eq, PolicyDocument, ModelEntry, Limits,
}
use openai_model_router.Policy.Modifiers.{
  same_pair, has_pair, add_efforts, add_candidates, add_if, configured_candidates, collect, Matched,
  floor_applies,
}

-- No pair of model and effort stands twice.
unfoldable pub IsDistinct : List Candidate → Type 0
IsDistinct [] = Unit
IsDistinct (c ∷ cs) = (has_pair cs c.model c.effort ≡ false) × IsDistinct cs

same_pair_comm : (x c : Candidate) → same_pair c.model c.effort x ≡ same_pair x.model x.effort c
unfolding same_pair
same_pair_comm x c = rw (beq_comm x.model c.model, beq_comm x.effort c.effort) refl

has_pair_snoc :
    (xs : List Candidate) (x c : Candidate)
    → has_pair xs x.model x.effort ≡ false
    → same_pair x.model x.effort c ≡ false
    → has_pair (xs ++ c ∷ []) x.model x.effort ≡ false
unfolding has_pair any
has_pair_snoc [] x c h k = rw k refl
has_pair_snoc (y ∷ ys) x c h k = ground (arith, has_pair_snoc ys x c)

IsDistinct-snoc :
    (xs : List Candidate) (c : Candidate)
    → IsDistinct xs
    → has_pair xs c.model c.effort ≡ false
    → IsDistinct (xs ++ c ∷ [])
unfolding has_pair any IsDistinct
IsDistinct-snoc [] c d h = (refl, tt)
IsDistinct-snoc (x ∷ xs) c d h = (
  has_pair_snoc xs x c d.0 (sym (same_pair_comm x c) ∙ ground arith),
  IsDistinct-snoc xs c d.1 (ground arith),
)

-- What was there stays in front.
abbrev pub Extends : List Candidate → List Candidate → Type 0
Extends cs ds = (more : List Candidate) × (ds ≡ cs ++ more)

Extends-refl : (cs : List Candidate) → Extends cs cs
Extends-refl cs = ([], sym (append-nil cs))

pub Extends-trans : (bs cs ds : List Candidate) → Extends bs cs → Extends cs ds → Extends bs ds
Extends-trans bs cs ds (more, p) (rest, q) =
    (more ++ rest, q ∙ ap (λ xs. xs ++ rest) p ∙ append_assoc bs more rest)

module _ (source : Source) where
  add_efforts-IsDistinct :
      (model : String) (efforts : List Effort) (cs : List Candidate)
      → IsDistinct cs
      → IsDistinct (add_efforts source model efforts cs)
  unfolding add_efforts
  add_efforts-IsDistinct model [] cs d = d
  add_efforts-IsDistinct model (e ∷ es) cs d = elim (Bool-cases (has_pair cs model e)) [
    | inl q ↦ rw q (add_efforts-IsDistinct model es cs d)
    | inr q ↦ rw q (add_efforts-IsDistinct model es _ (IsDistinct-snoc cs _ d q))
  ]

  pub add_candidates-IsDistinct :
      (entries : List CandidateSpec) (cs : List Candidate)
      → IsDistinct cs
      → IsDistinct (add_candidates source entries cs)
  unfolding add_candidates
  add_candidates-IsDistinct [] cs d = d
  add_candidates-IsDistinct (entry ∷ entries) cs d =
      add_candidates-IsDistinct entries _ (add_efforts-IsDistinct entry.model entry.efforts cs d)

  add_efforts-Extends :
      (model : String) (efforts : List Effort) (cs : List Candidate)
      → Extends cs (add_efforts source model efforts cs)
  unfolding add_efforts
  add_efforts-Extends model [] cs = Extends-refl cs
  add_efforts-Extends model (e ∷ es) cs = elim (Bool-cases (has_pair cs model e)) [
    | inl q ↦ rw q (add_efforts-Extends model es cs)
    | inr q ↦ rw q (Extends-trans cs _ _ (_, refl) (add_efforts-Extends model es _))
  ]

  pub add_candidates-Extends :
      (entries : List CandidateSpec) (cs : List Candidate)
      → Extends cs (add_candidates source entries cs)
  unfolding add_candidates
  add_candidates-Extends [] cs = Extends-refl cs
  add_candidates-Extends (entry ∷ entries) cs =
      Extends-trans cs _ _ (add_efforts-Extends entry.model entry.efforts cs)
        (add_candidates-Extends entries _)

add_if-keeps :
    (b : Bool) (entries : List CandidateSpec) (bs cs : List Candidate)
    → IsDistinct cs × Extends bs cs
    → IsDistinct (add_if b entries cs) × Extends bs (add_if b entries cs)
unfolding add_if
add_if-keeps true entries bs cs (d, x) = (
  add_candidates-IsDistinct Source.floor entries cs d,
  Extends-trans bs cs _ x (add_candidates-Extends Source.floor entries cs),
)
add_if-keeps false entries bs cs h = h

configured_candidates-keeps :
    (prior : List CandidateSpec) (m : Matched)
    → IsDistinct (configured_candidates prior m)
      × Extends (add_candidates Source.prior prior []) (configured_candidates prior m)
unfolding configured_candidates
configured_candidates-keeps prior m = (
  add_candidates-IsDistinct Source.modifier m.entries _
      (add_candidates-IsDistinct Source.prior prior [] (unfold IsDistinct in tt)),
  add_candidates-Extends Source.modifier m.entries _,
)

-- Whatever rules match, no pair stands twice among the candidates, and the candidates of the
-- complexity band come first, in the band's order.
pub collect-IsDistinct :
    (policy : PolicyDocument) (models : Dict ModelEntry) (limits : Limits)
    (prior : List CandidateSpec) (prior_ranks : List ℕ) (m : Matched) (minimum_rank : ℕ)
    → IsDistinct (collect policy models limits prior prior_ranks m minimum_rank)
      × Extends
          (add_candidates Source.prior prior [])
          (collect policy models limits prior prior_ranks m minimum_rank)
unfolding collect
collect-IsDistinct policy models limits prior prior_ranks m minimum_rank =
    let front = add_candidates Source.prior prior [] in
    let kept =
      add_if-keeps (floor_applies m limits minimum_rank) _ front _
        (configured_candidates-keeps prior m) in
    (
      add_candidates-IsDistinct Source.fallback _ _ kept.0,
      Extends-trans front _ _ kept.1 (add_candidates-Extends Source.fallback _ _),
    )
