-- ===== src/Execution/Accounting.antt =====
-- `provider_cost` of src/model_router/execution/accounting.py, with the usage that
-- src/model_router/core/provider_contracts.py reports. The currency labels a quote and is left out.
pub mod Measured
use openai_model_router.Prelude.{
  ℕ, ◌+◌, String, Option, none, some, List, [], ◌∷◌, Bool, true, false, not, ◌&&◌, ◌==◌, nat_eq,
  ltb, is_some, lookup, Raise, ok, raise_if, ◌>>◌, ◌>>=◌, value_error,
}
use openai_model_router.Contracts.{
  Request, Context, EnvironmentSnapshot, ModelEntry, PolicyBundle, ValidationRequirements,
  ValidationLevel,
}
use openai_model_router.Policy.Costs.{estimate_cost}

pub record ProviderUsage : Type 0 where
  pub input_tokens : Option ℕ
  pub cached_input_tokens : Option ℕ
  pub cache_write_input_tokens : Option ℕ
  pub output_tokens : Option ℕ
  pub reasoning_tokens : Option ℕ
  pub total_tokens : Option ℕ

-- The fields of `ProviderResult` and `ProviderFailure` that are priced.
pub record ProviderOutcome : Type 0 where
  pub model_alias : String
  pub usage : ProviderUsage

unfoldable pub or_zero : Option ℕ → ℕ
or_zero none = 0
or_zero (some n) = n

-- `left > right` where both are reported.
unfoldable pub is_above : ℕ → Option ℕ → Bool
is_above n none = false
is_above n (some bound) = ltb bound n

unfoldable pub reasoning_exceeds : Option ℕ → Option ℕ → Bool
unfolding is_above
reasoning_exceeds output none = false
reasoning_exceeds output (some reasoning) = is_above reasoning output

unfoldable pub total_differs : Option ℕ → Option ℕ → Option ℕ → Bool
total_differs none output total = false
total_differs (some input) none total = false
total_differs (some input) (some output) none = false
total_differs (some input) (some output) (some total) = not (input + output == total)

-- `ProviderUsage.reconcile`
unfoldable pub reconcile : ProviderUsage → Raise (Unit {0})
unfolding or_zero is_above reasoning_exceeds total_differs
reconcile usage = do
  raise_if
      (is_above (or_zero usage.cached_input_tokens + or_zero usage.cache_write_input_tokens)
        usage.input_tokens)
      (value_error "cache buckets exceed input usage")
  raise_if (reasoning_exceeds usage.output_tokens usage.reasoning_tokens)
      (value_error "reasoning usage exceeds output usage")
  raise_if (total_differs usage.input_tokens usage.output_tokens usage.total_tokens)
      (value_error "total usage does not equal input plus output")

abbrev pub measured_context : ℕ → ℕ → ℕ → ℕ → Context
measured_context input cached write output = record {
  input_tokens = input;
  expected_output_tokens = output;
  cached_input_tokens = cached;
  cache_write_tokens = write;
  cache_evidence = true;
}

-- The context of the usage, where all of it is reported.
unfoldable pub measure : Option ℕ → Option ℕ → Option ℕ → Option ℕ → Option Context
measure none cached write output = none
measure (some input) none write output = none
measure (some input) (some cached) none output = none
measure (some input) (some cached) (some write) none = none
measure (some input) (some cached) (some write) (some output) =
    some (measured_context input cached write output)

abbrev pub usage_validation : ValidationRequirements
usage_validation = record {
  level = ValidationLevel.v0;
  profiles = ValidationLevel.v0 ∷ [];
  checks = [];
  evaluator_refs = [];
  validator_refs = [];
  blockers = [];
  evaluator_required = false;
  approval_required = false;
  evidence = "usage";
  execution_restrictions = [];
}

abbrev pub measured_request : Request → Context → Request
measured_request request context = record request { side_effecting_tool = false; context = context }

abbrev pub without_tools : EnvironmentSnapshot → EnvironmentSnapshot
without_tools environment = record environment { required_tool_charge = false }

-- The price of a context, whose constructor checks the cache buckets.
unfoldable pub price_usage :
    ℕ → Request → EnvironmentSnapshot → Option Context → Option ModelEntry → Raise (Option ℕ)
price_usage scale request environment none model = ok none
price_usage scale request environment (some context) none = ok none
price_usage scale request environment (some context) (some model) = do
  raise_if (ltb context.input_tokens (context.cached_input_tokens + context.cache_write_tokens))
      (value_error "cache buckets exceed input tokens")
  ok
      (estimate_cost scale (measured_request request context) model (without_tools environment)
        usage_validation).amount

unfoldable pub provider_cost :
    ℕ → Request → ProviderOutcome → PolicyBundle → EnvironmentSnapshot → Raise (Option ℕ)
unfolding measure price_usage
provider_cost scale request outcome bundle environment =
    let usage = outcome.usage in
    price_usage scale request environment
      (measure usage.input_tokens usage.cached_input_tokens usage.cache_write_input_tokens
        usage.output_tokens)
      (lookup outcome.model_alias bundle.models)
