-- ===== src/Policy/Costs.antt =====
-- src/model_router/policy/costs.py: the quote for one candidate.
--
-- A Decimal is the number of units of 1 / `scale` that it counts; `scale` is a parameter, large
-- enough for the configured prices and for their quotients by the token unit to be whole. Decimal
-- sums and products are exact there, as the precision chosen by `_required_precision` makes them,
-- and a quotient that is not whole is rounded up (`ROUND_CEILING`).
pub mod Coherent
use openai_model_router.Prelude.{
  ℕ, zero, suc, ◌+◌, ◌-◌, ◌*◌, ◌/◌, ◌≤◌, String, Option, none, some, List, [], ◌∷◌, ◌++◌, Bool,
  true, false, Dict, ltb, ◌==◌, ◌||◌, ◌&&◌, contains, is_empty, is_some, sum, not, if◌then◌else◌,
  nat_eq, string_eq, map,
}
use openai_model_router.Contracts.{
  Request, Context, EnvironmentSnapshot, ModelEntry, Pricing, LongContextPricing, CostEstimate,
  CostStatus, ValidationRequirements, ValidationLevel, level_eq,
}

unfoldable pub ceil_div : ℕ → ℕ → ℕ
ceil_div a b = (a + (b - 1)) / b

-- `_token_charge`; `denominator` is the token unit times the scales of the rate and multiplier.
unfoldable pub token_charge : ℕ → ℕ → Option ℕ → Option ℕ → Option ℕ
unfolding ceil_div
token_charge denominator tokens none multiplier = if tokens == 0 then some 0 else none
token_charge denominator tokens (some rate) none = if tokens == 0 then some 0 else none
token_charge denominator tokens (some rate) (some multiplier) =
    if tokens == 0 then some 0 else some (ceil_div (tokens * rate * multiplier) denominator)

-- `_multiply`
unfoldable pub multiply : Option ℕ → Option ℕ → Option ℕ
multiply none right = none
multiply (some left) none = none
multiply (some left) (some right) = some (left * right)

-- `long_config.get("input_tokens_gt")` and the test against it
unfoldable pub is_long : Option LongContextPricing → ℕ → Bool
is_long none tokens = false
is_long (some long) tokens = ltb long.input_tokens_gt tokens

-- `_money(long_config.get(field)) if long_context else Decimal("1")`
unfoldable pub multiplier :
    ℕ → Option LongContextPricing → ℕ → (LongContextPricing → Option ℕ) → Option ℕ
multiplier scale none tokens field = some scale
multiplier scale (some long) tokens field =
    if ltb long.input_tokens_gt tokens then field long else some scale

unfoldable pub cache_read : Context → ℕ
cache_read context = if context.cache_evidence then context.cached_input_tokens else 0

-- The sum of the entries that have an amount.
unfoldable pub subtotal : Dict (Option ℕ) → ℕ
subtotal [] = 0
subtotal ((name, none) ∷ entries) = subtotal entries
subtotal ((name, some amount) ∷ entries) = amount + subtotal entries

-- A rate counts only where the token unit is positive, as `unit` is none otherwise.
abbrev pub per_unit : ℕ → Option ℕ → Option ℕ
per_unit zero rate = none
per_unit (suc unit) rate = rate

-- The four generation charges, in the order of the source.
unfoldable pub generation_charges : ℕ → Pricing → Context → Dict (Option ℕ)
generation_charges scale pricing context =
    let long = pricing.long_context in
    let tokens = context.input_tokens in
    let denominator = scale * pricing.unit_tokens in
    let rate = per_unit pricing.unit_tokens in
    (
      "uncached_input",
      token_charge denominator (tokens - cache_read context - context.cache_write_tokens)
          (rate pricing.input_usd) (multiplier scale long tokens (λ l. l.input_multiplier)),
    )
    ∷ (
      "cache_read_input",
      token_charge denominator (cache_read context) (rate pricing.cached_input_usd)
          (multiplier scale long tokens (λ l. l.cached_input_multiplier)),
    )
    ∷ (
      "cache_write_input",
      token_charge (scale * denominator) context.cache_write_tokens
          (rate (multiply pricing.input_usd pricing.cache_write_input_multiplier))
          (multiplier scale long tokens (λ l. l.cache_write_multiplier)),
    )
    ∷ (
      "output",
      token_charge denominator context.expected_output_tokens (rate pricing.output_usd)
          (multiplier scale long tokens (λ l. l.output_multiplier)),
    )
    ∷ []

-- `unknown` after the generation charges.
unfoldable pub generation_unknown : Dict (Option ℕ) → Bool → Context → List String
generation_unknown ((_, uncached) ∷ (_, read) ∷ (_, write) ∷ (_, output) ∷ rest) long context =
    (if is_some uncached then [] else "uncached_input" ∷ [])
    ++ (if not (is_some read) && not (cache_read context == 0)
        then (if long then "long_context_cache_read" else "cache_read_input") ∷ []
        else [])
    ++ (if not (is_some write) && not (context.cache_write_tokens == 0)
        then (if long then "long_context_cache_write" else "cache_write_input") ∷ []
        else [])
    ++ (if is_some output then [] else "output" ∷ [])
generation_unknown entries long context = []

-- `"V3" in validation.profiles` and the charge of the domain validator
unfoldable pub domain_charge : EnvironmentSnapshot → ValidationRequirements → Option ℕ
domain_charge environment validation =
    if contains "domain_validator_unconfigured" validation.blockers
    then none
    else environment.required_domain_validator_cost_usd

-- The charges for required validation and tools.
unfoldable pub required_charges :
    Request → EnvironmentSnapshot → ValidationRequirements → Dict (Option ℕ)
unfolding domain_charge
required_charges request environment validation =
    (if validation.evaluator_required
      then ("required_evaluator", environment.required_evaluator_cost_usd) ∷ []
      else [])
    ++ (if contains ValidationLevel.v3 validation.profiles
        then ("required_domain_validator", domain_charge environment validation) ∷ []
        else [])
    ++ (if environment.required_tool_charge || request.side_effecting_tool
        then ("required_tool", environment.required_tool_charge_usd) ∷ []
        else [])

-- The names of the entries with no amount.
unfoldable pub unpriced : Dict (Option ℕ) → List String
unpriced [] = []
unpriced ((name, none) ∷ entries) = name ∷ unpriced entries
unpriced ((name, some amount) ∷ entries) = unpriced entries

-- The end of `_estimate_cost`: status and amount from what is known.
unfoldable pub quote : Dict (Option ℕ) → Dict (Option ℕ) → List String → ℕ → Bool → CostEstimate
quote generation required unknown read long =
    let breakdown = generation ++ required in
    let known_subtotal = subtotal breakdown in
    record {
      status =
          if is_empty unknown
          then CostStatus.known
          else if ltb 0 known_subtotal
          then CostStatus.partial
          else CostStatus.unavailable;
      amount = if is_empty unknown then some known_subtotal else none;
      known_subtotal = known_subtotal;
      generation_subtotal = subtotal generation;
      breakdown = breakdown;
      unknown_charges = unknown;
      cache_read_tokens = read;
      long_context = long;
    }

unfoldable pub estimate_cost :
    ℕ → Request → ModelEntry → EnvironmentSnapshot → ValidationRequirements → CostEstimate
unfolding quote unpriced required_charges generation_unknown generation_charges subtotal is_long
estimate_cost scale request model environment validation =
    let context = request.context in
    let long = is_long model.pricing.long_context context.input_tokens in
    let generation = generation_charges scale model.pricing context in
    let required = required_charges request environment validation in
    quote generation required (generation_unknown generation long context ++ unpriced required)
      (cache_read context) long
