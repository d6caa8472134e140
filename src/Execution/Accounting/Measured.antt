-- ===== src/Execution/Accounting/Measured.antt =====
-- What a provider's reported usage costs.
use openai_model_router.Prelude.{
  ℕ, ◌+◌, ◌≡◌, ◌↔◌, refl, sym, subst, ◌∙◌, Option, none, some, false, lookup, ok, ltb, contains,
  raise_if-eq-ok, some-injective,
}
use openai_model_router.Contracts.{Request, Context, EnvironmentSnapshot, ModelEntry, PolicyBundle}
use openai_model_router.Policy.Costs.{estimate_cost, required_charges, generation_charges, subtotal}
use openai_model_router.Policy.Costs.Coherent.{IsPriced, estimate_cost-amount}
use openai_model_router.Execution.Accounting.{
  ProviderUsage, ProviderOutcome, reconcile, is_above, or_zero, measure, measured_context,
  measured_request, without_tools, usage_validation, price_usage, provider_cost,
}

-- The usage is reported in full, the model is configured, each of the four token charges is priced,
-- and `n` is their sum.
pub record Measured (scale : ℕ) (outcome : ProviderOutcome) (bundle : PolicyBundle) (n : ℕ)
    : Type 0 where
  input : ℕ
  cached : ℕ
  write : ℕ
  output : ℕ
  input_eq : outcome.usage.input_tokens ≡ some input
  cached_eq : outcome.usage.cached_input_tokens ≡ some cached
  write_eq : outcome.usage.cache_write_input_tokens ≡ some write
  output_eq : outcome.usage.output_tokens ≡ some output
  model : ModelEntry
  found : lookup outcome.model_alias bundle.models ≡ some model
  priced :
      IsPriced (generation_charges scale model.pricing (measured_context input cached write output))
  amount :
      n
      ≡ subtotal
          (generation_charges scale model.pricing (measured_context input cached write output))

breakdown-measured :
    (scale : ℕ) (request : Request) (model : ModelEntry) (environment : EnvironmentSnapshot)
    (context : Context)
    → (estimate_cost scale
        (measured_request request context)
        model
        (without_tools environment)
        usage_validation).breakdown
      ≡ generation_charges scale model.pricing context
unfolding estimate_cost required_charges generation_charges contains
breakdown-measured scale request model environment context = refl

module _ (scale : ℕ) (request : Request) (environment : EnvironmentSnapshot) (model : ModelEntry)
    (context : Context) where
  abbrev bill : Option ℕ
  bill =
      (estimate_cost scale (measured_request request context) model (without_tools environment)
        usage_validation).amount

  bill-eq :
      (n : ℕ)
      → (bill ≡ some n) ↔ (
          IsPriced (generation_charges scale model.pricing context)
          × (n ≡ subtotal (generation_charges scale model.pricing context)))
  bill-eq n =
      subst (λ b. (bill ≡ some n) ↔ (IsPriced b × (n ≡ subtotal b)))
        (breakdown-measured scale request model environment context)
        (estimate_cost-amount scale (measured_request request context) model
          (without_tools environment) usage_validation n)

buckets :
    (usage : ProviderUsage) (input cached write : ℕ)
    → reconcile usage ≡ ok tt
    → usage.input_tokens ≡ some input
    → usage.cached_input_tokens ≡ some cached
    → usage.cache_write_input_tokens ≡ some write
    → ltb input (cached + write) ≡ false
unfolding reconcile is_above or_zero
buckets usage input cached write h i c w =
    let (p, _) =
      raise_if-eq-ok
        (is_above (or_zero usage.cached_input_tokens + or_zero usage.cache_write_input_tokens)
          usage.input_tokens)
        _ _ h in
    let q : is_above (or_zero (some cached) + or_zero (some write)) (some input) ≡ false =
      rw (i, c, w) at p in
    q

module _ (scale : ℕ) (request : Request) (outcome : ProviderOutcome) (bundle : PolicyBundle)
    (environment : EnvironmentSnapshot) where
  unmeasured :
      {A : Type 0} (o : Option A)
      → o ≡ none
      → ((n : ℕ) → Measured scale outcome bundle n → (a : A) × (o ≡ some a))
      → (n : ℕ) → (none ≡ some n) ↔ Measured scale outcome bundle n
  unmeasured o h f n = (λ q. absurd (cc), λ k. let (a, q) = f n k in absurd (cc))

  price_usage-Measured :
      (i c w o : Option ℕ) (m : Option ModelEntry)
      → reconcile outcome.usage ≡ ok tt
      → outcome.usage.input_tokens ≡ i
      → outcome.usage.cached_input_tokens ≡ c
      → outcome.usage.cache_write_input_tokens ≡ w
      → outcome.usage.output_tokens ≡ o
      → lookup outcome.model_alias bundle.models ≡ m
      → (r : Option ℕ) × (price_usage scale request environment (measure i c w o) m ≡ ok r)
        × ((n : ℕ) → (r ≡ some n) ↔ Measured scale outcome bundle n)
  unfolding price_usage measure
  price_usage-Measured none c w o m h ie ce we oe me =
      (none, refl, unmeasured _ ie (λ n k. (k.input, k.input_eq)))
  price_usage-Measured (some i) none w o m h ie ce we oe me =
      (none, refl, unmeasured _ ce (λ n k. (k.cached, k.cached_eq)))
  price_usage-Measured (some i) (some c) none o m h ie ce we oe me =
      (none, refl, unmeasured _ we (λ n k. (k.write, k.write_eq)))
  price_usage-Measured (some i) (some c) (some w) none m h ie ce we oe me =
      (none, refl, unmeasured _ oe (λ n k. (k.output, k.output_eq)))
  price_usage-Measured (some i) (some c) (some w) (some o) none h ie ce we oe me =
      (none, refl, unmeasured _ me (λ n k. (k.model, k.found)))
  price_usage-Measured (some i) (some c) (some w) (some o) (some m) h ie ce we oe me =
      let context = measured_context i c w o in
      (
        bill scale request environment m context,
        rw (buckets outcome.usage i c w h ie ce we) refl,
        λ n. (
          λ q.
              let (p, a) = (bill-eq scale request environment m context n).0 q in
              record {
                input = i;
                cached = c;
                write = w;
                output = o;
                input_eq = ie;
                cached_eq = ce;
                write_eq = we;
                output_eq = oe;
                model = m;
                found = me;
                priced = p;
                amount = a;
              },
          λ k. (bill-eq scale request environment m context n).1 (
              let e1 : k.input ≡ i = some-injective (sym k.input_eq ∙ ie) in
              let e2 : k.cached ≡ c = some-injective (sym k.cached_eq ∙ ce) in
              let e3 : k.write ≡ w = some-injective (sym k.write_eq ∙ we) in
              let e4 : k.output ≡ o = some-injective (sym k.output_eq ∙ oe) in
              let e5 : k.model ≡ m = some-injective (sym k.found ∙ me) in
              (rw (e1, e2, e3, e4, e5) at k.priced, rw (e1, e2, e3, e4, e5) at k.amount)),
        ),
      )

  -- For usage that passes the checks of `ProviderUsage`, `provider_cost` returns: an amount exactly
  -- when the provider reports all four token counts, the model is configured and each of the four
  -- token charges is priced, and then it is the sum of these charges, with nothing for tools or
  -- validation.
  pub provider_cost-Measured :
      reconcile outcome.usage ≡ ok tt
      → (r : Option ℕ) × (provider_cost scale request outcome bundle environment ≡ ok r)
        × ((n : ℕ) → (r ≡ some n) ↔ Measured scale outcome bundle n)
  unfolding provider_cost
  provider_cost-Measured h = price_usage-Measured _ _ _ _ _ h refl refl refl refl refl
