-- ===== src/Policy/Validation.antt =====
-- src/model_router/policy/validation.py: the validation profiles that a request requires.
pub mod Closed
use openai_model_router.Prelude.{
  ℕ, zero, suc, ◌+◌, ◌<◌, ◌≡◌, String, Option, none, some, List, [], ◌∷◌, ◌++◌, Bool, true, false,
  ltb, ◌&&◌, not, ◌==◌, any, contains, is_empty, unique, if◌then◌else◌, string_eq, All,
}
use openai_model_router.Contracts.{
  Request, EnvironmentSnapshot, ValidationLevel, ValidationRequirements, Consequence, level_index,
  level_eq,
}

-- The validated document defines exactly the four profiles and the four consequence classes, and
-- each evaluator reference has a binding, so these are functions.
pub record ValidationProfile : Type 0 where
  pub application_domain : Bool
  pub base_profile : Option ValidationLevel
  pub required_semantic_profile : Option ValidationLevel
  pub checks_when_applicable : List String
  pub evaluator_ref : Option String
  pub validator_ref : Option String

pub record ConsequenceDefault : Type 0 where
  pub profile : ValidationLevel
  pub evidence : String
  pub approval_gate : Bool
  pub execution_restrictions : List String

pub record ValidationDocument : Type 0 where
  pub default_profile : ValidationLevel
  pub profiles : ValidationLevel → ValidationProfile
  pub evaluator_enabled : String → Bool
  pub consequence_defaults : Consequence → ConsequenceDefault

-- The lists that `visit` extends.
pub record Visited : Type 0 where
  pub profiles : List ValidationLevel
  pub checks : List String
  pub evaluators : List String
  pub validators : List String
  pub blockers : List String

pub nothing_visited : Visited
nothing_visited = record {
  profiles = [];
  checks = [];
  evaluators = [];
  validators = [];
  blockers = [];
}

-- `[x] if x is not None else []`
listed : Option String → List String
listed none = []
listed (some x) = x ∷ []

module _ (config : ValidationDocument) (environment : EnvironmentSnapshot) where
  unfoldable pub mock : ValidationLevel → Bool
  mock name = environment.synthetic && any (λ p. p.0 == name && p.1) environment.validation

  -- What the profile's evaluator and validator block.
  unfoldable pub profile_blockers : ValidationLevel → ValidationProfile → List String
  unfolding mock
  profile_blockers name profile =
      (elim profile.evaluator_ref [
        | some ref ↦
            if not (mock name) && not (config.evaluator_enabled ref)
            then "evaluator_unconfigured" ∷ []
            else []
        | none ↦ []
      ])
      ++ (elim profile.validator_ref [
        | some _ ↦ []
        | none ↦
            if profile.application_domain && not (mock name)
            then "domain_validator_unconfigured" ∷ []
            else []
      ])

  -- The body of `visit` after the profiles that this one builds on.
  unfoldable pub add_profile : ValidationLevel → Visited → Visited
  unfolding profile_blockers listed
  add_profile name v =
      let profile = config.profiles name in
      record {
        profiles = v.profiles ++ name ∷ [];
        checks = v.checks ++ profile.checks_when_applicable;
        evaluators = v.evaluators ++ listed profile.evaluator_ref;
        validators =
            v.validators
            ++ (if profile.application_domain then listed profile.validator_ref else []);
        blockers = v.blockers ++ profile_blockers name profile;
      }

  unfoldable pub visit_optional :
      (ValidationLevel → Visited → Visited) → Option ValidationLevel → Visited → Visited
  visit_optional go none v = v
  visit_optional go (some name) v = go name v

  -- `visit`, with fuel for the depth of the profiles.
  unfoldable pub visit : ℕ → ValidationLevel → Visited → Visited
  unfolding add_profile visit_optional
  visit zero name v = v
  visit (suc fuel) name v =
      let profile = config.profiles name in
      let built =
        visit_optional (visit fuel) profile.required_semantic_profile
          (visit_optional (visit fuel) profile.base_profile v) in
      let after = add_profile name built in if contains name v.profiles then v else after

  -- `for name in dict.fromkeys(requested): visit(name)`; four levels are the greatest depth.
  unfoldable pub visit_all : List ValidationLevel → Visited → Visited
  unfolding visit
  visit_all [] v = v
  visit_all (name ∷ names) v = visit_all names (visit 4 name v)

stronger : ValidationLevel → ValidationLevel → ValidationLevel
stronger a b = if ltb (level_index a) (level_index b) then b else a

-- `max(requested, key=levels.index)`, for a list that starts with `level`
unfoldable pub strongest : ValidationLevel → List ValidationLevel → ValidationLevel
unfolding stronger
strongest level [] = level
strongest level (l ∷ ls) = strongest (stronger level l) ls

optional : Option ValidationLevel → List ValidationLevel
optional none = []
optional (some l) = l ∷ []

-- The levels asked for after the default.
unfoldable pub requested_levels :
    Request → EnvironmentSnapshot → ValidationDocument → List ValidationLevel
unfolding optional
requested_levels request environment config =
    (config.consequence_defaults request.consequence).profile
      ∷ optional request.requested_validation
    ++ optional environment.requested_validation

unfoldable pub determine_validation :
    Request → EnvironmentSnapshot → ValidationDocument → ValidationRequirements
unfolding strongest requested_levels visit_all nothing_visited
determine_validation request environment config =
    let consequence = config.consequence_defaults request.consequence in
    let requested = requested_levels request environment config in
    let v =
      visit_all config environment (unique (config.default_profile ∷ requested)) nothing_visited in
    record {
      level = strongest config.default_profile requested;
      profiles = v.profiles;
      checks = unique v.checks;
      evaluator_refs = unique v.evaluators;
      validator_refs = unique v.validators;
      blockers = unique (
          v.blockers
          ++ (if consequence.approval_gate && not request.approval_evidence
              then "approval_missing" ∷ []
              else [])
          ++ (if contains "domain_clearance_required" consequence.execution_restrictions
                && not request.domain_clearance_evidence
              then "domain_clearance_missing" ∷ []
              else []));
      evaluator_required = not (is_empty v.evaluators);
      approval_required = consequence.approval_gate;
      evidence = consequence.evidence;
      execution_restrictions = consequence.execution_restrictions;
    }
