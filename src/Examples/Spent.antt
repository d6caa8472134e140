-- ===== src/Examples/Spent.antt =====
-- The theorem about `provider_cost` at the usage of one answer.
use openai_model_router.Prelude.{◌≡◌, ◌↔◌, refl, ℕ, Option, some, ok}
use openai_model_router.Execution.Accounting.{
  ProviderOutcome, reconcile, is_above, or_zero, reasoning_exceeds, total_differs, provider_cost,
}
use openai_model_router.Execution.Accounting.Measured.{Measured, provider_cost-Measured}
use openai_model_router.Samples.{request, environment, bundle}

abbrev outcome : ProviderOutcome
outcome = record {
  model_alias = "small";
  usage = record {
    input_tokens = some 20;
    cached_input_tokens = some 5;
    cache_write_input_tokens = some 0;
    output_tokens = some 10;
    reasoning_tokens = some 4;
    total_tokens = some 30;
  };
}

reconciled : reconcile outcome.usage ≡ ok tt
unfolding reconcile is_above or_zero reasoning_exceeds total_differs
reconciled = refl

provider_cost-Measured_example :
    (r : Option ℕ) × (provider_cost 10 request outcome bundle environment ≡ ok r)
    × ((n : ℕ) → (r ≡ some n) ↔ Measured 10 outcome bundle n)
provider_cost-Measured_example =
    provider_cost-Measured 10 request outcome bundle environment reconciled
