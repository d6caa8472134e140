-- ===== src/Policy/Capabilities.antt =====
-- src/model_router/policy/capabilities.py: capability and context exclusions of one catalog model.
pub mod Exact
use openai_model_router.Prelude.{
  ℕ, ◌+◌, String, Option, none, some, List, [], ◌∷◌, ◌++◌, Bool, true, false, Dict, lookup, ltb,
  append_once, is_empty, ◌||◌, not, if◌then◌else◌, string_eq,
}
use openai_model_router.Contracts.{Request, ModelEntry, Feasibility}

-- `capabilities.get(requirement) is True`
is_true : Option (Option Bool) → Bool
is_true (some (some true)) = true
is_true _ = false

pub supported : Dict (Option Bool) → String → Bool
unfolding is_true
supported capabilities requirement = is_true (lookup requirement capabilities)

-- The loop over `request.requirements`.
missing : Dict (Option Bool) → List String → List String → List String
missing capabilities violations [] = violations
missing capabilities violations (r ∷ rs) =
    missing capabilities (if supported capabilities r then violations else append_once violations r)
      rs

-- `violations` after the guard `excluded` of a context check.
add_if : Bool → String → List String → List String
add_if excluded name violations = if excluded then append_once violations name else violations

unfoldable pub check_capabilities : Request → ModelEntry → Feasibility
unfolding missing supported add_if
check_capabilities request model =
    let context = request.context in
    let unsupported = missing model.capabilities [] request.requirements in
    let too_long = ltb model.max_output_tokens context.expected_output_tokens in
    let too_wide =
      ltb model.context_window_tokens (context.input_tokens + context.expected_output_tokens) in
    record {
      violations =
          add_if too_wide "combined_context" (add_if too_long "output_allowance" unsupported);
      blockers = [];
      rationale_codes =
          (if is_empty unsupported then [] else "CAPABILITY_FILTER" ∷ [])
          ++ (if too_long || too_wide then "CONTEXT_CONSTRAINT" ∷ [] else []);
    }
