-- ===== src/Policy/Capabilities/Exact.antt =====
-- When a model is not excluded.
use openai_model_router.Prelude.{
  ◌+◌, ◌≤◌, ◌≡◌, ◌≢◌, ◌↔◌, refl, String, List, [], ◌∷◌, Bool, true, false, Option, Dict, All,
  ltb→ge, ge→ltb, append_once, append_once-In, In, Bool-cases, inl, inr, arith, string_eq,
}
use openai_model_router.Contracts.{Request, ModelEntry}
use openai_model_router.Policy.Capabilities.{supported, missing, add_if, check_capabilities}

-- What a model must offer to serve a request.
pub record Serves (request : Request) (model : ModelEntry) : Type 0 where
  pub capabilities : All (λ r. supported model.capabilities r ≡ true) request.requirements
  pub output : request.context.expected_output_tokens ≤ model.max_output_tokens
  pub window :
      request.context.input_tokens + request.context.expected_output_tokens
      ≤ model.context_window_tokens

append_once-ne-nil : (xs : List String) (x : String) → append_once xs x ≢ []
append_once-ne-nil xs x e = nonempty (append_once xs x) (append_once-In x xs) e
  where
    nonempty : (ys : List String) → In x ys → ys ≢ []
    nonempty [] m = elim m [ ]
    nonempty (y ∷ ys) m = λ q. absurd (ground arith)

module _ (capabilities : Dict (Option Bool)) where
  missing-keeps : (rs v : List String) → v ≢ [] → missing capabilities v rs ≢ []
  unfolding missing
  missing-keeps [] v h = h
  missing-keeps (r ∷ rs) v h = elim (Bool-cases (supported capabilities r)) [
    | inl e ↦ rw e (missing-keeps rs v h)
    | inr e ↦ rw e (missing-keeps rs (append_once v r) (append_once-ne-nil v r))
  ]

  missing-eq-nil :
      (rs : List String)
      → missing capabilities [] rs ≡ []
      → All (λ r. supported capabilities r ≡ true) rs
  unfolding missing
  missing-eq-nil [] h = tt
  missing-eq-nil (r ∷ rs) h = elim (Bool-cases (supported capabilities r)) [
    | inl e ↦ (e, missing-eq-nil rs (rw e at h))
    | inr e ↦ absurd (missing-keeps rs (append_once [] r) (append_once-ne-nil [] r) (rw e at h))
  ]

  nil-missing :
      (rs : List String)
      → All (λ r. supported capabilities r ≡ true) rs
      → missing capabilities [] rs ≡ []
  unfolding missing
  nil-missing [] h = refl
  nil-missing (r ∷ rs) h = rw (h.0) (nil-missing rs h.1)

add_if-eq-nil :
    (b : Bool) (x : String) (v : List String) → add_if b x v ≡ [] → (b ≡ false) × (v ≡ [])
unfolding add_if
add_if-eq-nil true x v h = absurd (append_once-ne-nil v x h)
add_if-eq-nil false x v h = (refl, h)

-- `check_capabilities` finds no violation exactly when each required capability is verified,
-- the expected output fits the output allowance, and input and output together fit the context
-- window.
pub check_capabilities-Serves :
    (request : Request) (model : ModelEntry)
    → ((check_capabilities request model).violations ≡ []) ↔ Serves request model
unfolding check_capabilities
check_capabilities-Serves request model = (accepted, admits)
  where
    accepted : (check_capabilities request model).violations ≡ [] → Serves request model
    accepted h =
        let (narrow, h') = add_if-eq-nil _ _ _ h in
        let (short, h'') = add_if-eq-nil _ _ _ h' in
        record {
          capabilities = missing-eq-nil model.capabilities request.requirements h'';
          output = ltb→ge _ _ short;
          window = ltb→ge _ _ narrow;
        }

    admits : Serves request model → (check_capabilities request model).violations ≡ []
    admits s =
        rw
          (
            ge→ltb _ _ s.window,
            ge→ltb _ _ s.output,
            nil-missing model.capabilities request.requirements s.capabilities,
          )
          refl
