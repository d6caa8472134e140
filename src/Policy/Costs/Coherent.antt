-- ===== src/Policy/Costs/Coherent.antt =====
-- What a quote says about the charges that it is made of.
use openai_model_router.Prelude.{
  ℕ, ◌+◌, ◌≡◌, ◌↔◌, refl, sym, ap, ◌∙◌, some-injective, String, Option, none, some, List, [], ◌∷◌,
  ◌++◌, Bool, true, Dict, All, is_some, arith, ◌==◌, nat_eq,
}
use openai_model_router.Contracts.{
  Request, Context, EnvironmentSnapshot, ModelEntry, Pricing, CostEstimate, CostStatus,
  ValidationRequirements,
}
use openai_model_router.Policy.Costs.{
  token_charge, cache_read, subtotal, generation_charges, generation_unknown, required_charges,
  unpriced, quote, estimate_cost,
}

subtotal-append : (xs ys : Dict (Option ℕ)) → subtotal (xs ++ ys) ≡ subtotal xs + subtotal ys
unfolding subtotal
subtotal-append [] ys = omega arith
subtotal-append ((name, none) ∷ xs) ys = subtotal-append xs ys
subtotal-append ((name, some a) ∷ xs) ys = omega (arith, subtotal-append xs ys)

abbrev pub IsPriced : Dict (Option ℕ) → Type 0
IsPriced entries = All (λ p. is_some p.1 ≡ true) entries

IsPriced-append : (xs ys : Dict (Option ℕ)) → IsPriced xs → IsPriced ys → IsPriced (xs ++ ys)
IsPriced-append [] ys h k = k
IsPriced-append (x ∷ xs) ys h k = (h.0, IsPriced-append xs ys h.1 k)

IsPriced-parts : (xs ys : Dict (Option ℕ)) → IsPriced (xs ++ ys) → IsPriced xs × IsPriced ys
IsPriced-parts [] ys h = (tt, h)
IsPriced-parts (x ∷ xs) ys h = let (a, b) = IsPriced-parts xs ys h.1 in ((h.0, a), b)

unpriced-nil : (xs : Dict (Option ℕ)) → IsPriced xs → unpriced xs ≡ []
unfolding unpriced
unpriced-nil [] h = refl
unpriced-nil ((name, none) ∷ xs) h = absurd (ground arith)
unpriced-nil ((name, some a) ∷ xs) h = unpriced-nil xs h.1

unpriced-IsPriced : (xs : Dict (Option ℕ)) → unpriced xs ≡ [] → IsPriced xs
unfolding unpriced
unpriced-IsPriced [] h = tt
unpriced-IsPriced ((name, none) ∷ xs) h = absurd (ground arith)
unpriced-IsPriced ((name, some a) ∷ xs) h = (refl, unpriced-IsPriced xs h)

append-eq-nil : (xs ys : List String) → xs ++ ys ≡ [] → (xs ≡ []) × (ys ≡ [])
append-eq-nil [] ys h = (refl, h)
append-eq-nil (x ∷ xs) ys h = absurd (ground arith)

-- A charge for no tokens is known.
token_charge-some :
    (d tokens : ℕ) (r m : Option ℕ)
    → (tokens == 0) ≡ true
    → is_some (token_charge d tokens r m) ≡ true
unfolding token_charge
token_charge-some d tokens none m h = ground arith
token_charge-some d tokens (some r) none h = ground arith
token_charge-some d tokens (some r) (some m) h = ground arith

module _ (context : Context) (long : Bool) (u r w o : Option ℕ) where
  abbrev charges : Dict (Option ℕ)
  charges =
      ("uncached_input", u)
      ∷ ("cache_read_input", r)
      ∷ ("cache_write_input", w)
      ∷ ("output", o)
      ∷ []

  priced→nil : IsPriced charges → generation_unknown charges long context ≡ []
  unfolding generation_unknown
  priced→nil h = ground arith

  nil→priced :
      ((cache_read context == 0) ≡ true → is_some r ≡ true)
      → ((context.cache_write_tokens == 0) ≡ true → is_some w ≡ true)
      → generation_unknown charges long context ≡ []
      → IsPriced charges
  unfolding generation_unknown
  nil→priced hr hw h = ground arith

-- The names of the unknown generation charges are missing exactly when each charge is known.
generation_unknown-nil :
    (scale : ℕ) (pricing : Pricing) (context : Context) (long : Bool)
    → (generation_unknown (generation_charges scale pricing context) long context ≡ [])
      ↔ IsPriced (generation_charges scale pricing context)
unfolding generation_charges
generation_unknown-nil scale pricing context long = (
  nil→priced context long _ _ _ _ (token_charge-some _ _ _ _) (token_charge-some _ _ _ _),
  priced→nil context long _ _ _ _,
)

module _ (g q : Dict (Option ℕ)) (read : ℕ) (long : Bool) where
  quote-known :
      (unknown : List String)
      → (quote g q unknown read long).status ≡ CostStatus.known
      → unknown ≡ []
  unfolding quote
  quote-known [] h = refl
  quote-known (x ∷ xs) h = ground arith

  quote-nil :
      (unknown : List String)
      → unknown ≡ []
      → ((quote g q unknown read long).status ≡ CostStatus.known)
        × ((quote g q unknown read long).amount ≡ some (subtotal (g ++ q)))
  unfolding quote
  quote-nil [] h = (refl, refl)
  quote-nil (x ∷ xs) h = absurd (ground arith)

  quote-amount :
      (unknown : List String) (n : ℕ) → (quote g q unknown read long).amount ≡ some n → unknown ≡ []
  unfolding quote
  quote-amount [] n h = refl
  quote-amount (x ∷ xs) n h = cc

module _ (scale : ℕ) (request : Request) (model : ModelEntry) (environment : EnvironmentSnapshot)
    (validation : ValidationRequirements) where
  abbrev generation : Dict (Option ℕ)
  generation = generation_charges scale model.pricing request.context

  abbrev required : Dict (Option ℕ)
  required = required_charges request environment validation

  abbrev estimate : CostEstimate
  estimate = estimate_cost scale request model environment validation

  unknown-nil : (estimate.unknown_charges ≡ []) ↔ IsPriced estimate.breakdown
  unfolding estimate_cost
  unknown-nil = (
    λ h.
        let (g, q) = append-eq-nil _ _ h in
        IsPriced-append generation required
          ((generation_unknown-nil scale model.pricing request.context _).0 g)
          (unpriced-IsPriced required q),
    λ p.
        let (g, q) = IsPriced-parts generation required p in
        rw
          (
            (generation_unknown-nil scale model.pricing request.context _).1 g,
            unpriced-nil required q,
          )
          refl,
  )

  -- A quote has an amount exactly when each charge is priced.
  pub estimate_cost-amount :
      (n : ℕ)
      → (estimate.amount ≡ some n)
        ↔ (IsPriced estimate.breakdown × (n ≡ subtotal estimate.breakdown))
  unfolding estimate_cost
  estimate_cost-amount n = (
    λ h.
        let e =
          quote-amount generation required estimate.cache_read_tokens estimate.long_context _ n h in
        let (_, a) =
          quote-nil generation required estimate.cache_read_tokens estimate.long_context _ e in
        (unknown-nil.0 e, some-injective (sym h ∙ a)),
    λ (p, e).
        let (_, a) =
          quote-nil generation required estimate.cache_read_tokens estimate.long_context _
            (unknown-nil.1 p) in
        a ∙ ap some (sym e),
  )

  -- A quote is known exactly when each charge of its breakdown is priced and its amount is
  -- the sum of the breakdown.
  pub estimate_cost-known :
      (estimate.status ≡ CostStatus.known)
      ↔ (IsPriced estimate.breakdown × (estimate.amount ≡ some (subtotal estimate.breakdown)))
  unfolding estimate_cost
  estimate_cost-known = (
    λ h.
        let e =
          quote-known generation required estimate.cache_read_tokens estimate.long_context _ h in
        (
          unknown-nil.0 e,
          (quote-nil generation required estimate.cache_read_tokens estimate.long_context _ e).1,
        ),
    λ (p, _).
        (quote-nil generation required estimate.cache_read_tokens estimate.long_context _
          (unknown-nil.1 p)).0,
  )

  -- The known subtotal is the generation subtotal with the required charges that are priced.
  pub known_subtotal-eq : estimate.known_subtotal ≡ estimate.generation_subtotal + subtotal required
  unfolding estimate_cost
  known_subtotal-eq = subtotal-append generation required
