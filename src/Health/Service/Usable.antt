-- ===== src/Health/Service/Usable.antt =====
-- When a scope counts as available, and what a snapshot's times say.
use openai_model_router.Prelude.{
  ℕ, ◌<◌, ◌≤◌, ◌≡◌, ◌≢◌, ◌↔◌, refl, ap, subst, Option, none, some, List, [], ◌∷◌, true, false, find,
  contains, In, here, there, arith, Raise, ok, raise, ok-injective, ◌>>◌,
}
use openai_model_router.Contracts.{HealthState, health_eq}
use openai_model_router.Health.{
  CircuitState, circuit_eq, CheckStatus, check_eq, Scope, scope_eq, HealthObservation,
}
use openai_model_router.Health.Service.{
  HealthService, circuit_state_of, is_late, is_stale, viewed_state, view_observed, is_available,
  available, check_names, largest, smallest, max_or, min_or,
}

-- What makes an observation usable at a time.
pub record IsUsable (s : HealthService) (now : ℕ) (scope : Scope) (o : HealthObservation)
    : Type 0 where
  pub recorded : find scope s.observations ≡ some o
  pub observed : o.check_status ≡ CheckStatus.observed
  pub past : o.observed_at ≤ now
  pub fresh : now < o.valid_until
  pub success : (stamp : ℕ) → o.last_success_at ≡ some stamp → stamp ≤ o.observed_at
  pub closed : circuit_state_of (find scope s.circuits) o ≡ CircuitState.closed
  pub healthy : o.state ≢ HealthState.unhealthy

is_late-false :
    (at : ℕ) (o : Option ℕ) → (is_late at o ≡ false) ↔ ((stamp : ℕ) → o ≡ some stamp → stamp ≤ at)
unfolding is_late
is_late-false at none = (λ h stamp q. cc, λ h. refl)
is_late-false at (some stamp) = (λ h other q. ground arith, λ h. ground (arith, h stamp refl))

view-available :
    (s : HealthService) (now : ℕ) (scope : Scope) (o : HealthObservation)
    → find scope s.observations ≡ some o
    → (is_available (view_observed s o scope now) ≡ true) ↔ IsUsable s now scope o
unfolding is_available view_observed is_stale viewed_state contains
view-available s now scope o h = (
  λ q. record {
    recorded = h;
    observed = ground arith;
    past = ground arith;
    fresh = ground arith;
    success = (is_late-false _ _).0 (ground arith);
    closed = ground arith;
    healthy = ground arith;
  },
  λ u.
      ground
        (arith, u.observed, u.past, u.fresh, (is_late-false _ _).1 u.success, u.closed, u.healthy),
)

-- A scope is available exactly when its names are well formed and the service has an observation of
-- it that was observed and not disabled, is not from the future, has not expired, carries no success
-- later than itself, is not unhealthy, and whose circuit is closed.
pub available-IsUsable :
    (now : ℕ) (scope : Scope) (s : HealthService)
    → (available now scope s ≡ ok true)
      ↔ ((check_names scope ≡ ok tt) × (o : HealthObservation) × IsUsable s now scope o)
unfolding available
available-IsUsable now scope s = go (check_names scope) (find scope s.observations) refl
  where
    go :
        (r : Raise (Unit {0})) (f : Option HealthObservation)
        → find scope s.observations ≡ f
        → ((r >> ok (elim f [ none ↦ false | some o ↦ is_available (view_observed s o scope now) ]))
            ≡ ok true)
          ↔ ((r ≡ ok tt) × (o : HealthObservation) × IsUsable s now scope o)
    go (raise x) f h = (λ q. cc, λ u. cc)
    go (ok tt) none h = (λ q. cc, λ u. absurd (let recorded = u.2.recorded in cc))
    go (ok tt) (some o) h = (
      λ q. (refl, o, (view-available s now scope o h).0 (ok-injective q)),
      λ u.
          let recorded = u.2.recorded in
          let same : u.1 ≡ o = cc in
          ap ok ((view-available s now scope o h).1 (subst (λ x. IsUsable s now scope x) same u.2)),
    )

smallest-le : (x n : ℕ) (xs : List ℕ) → In n (x ∷ xs) → smallest x xs ≤ n
unfolding smallest
smallest-le x n [] (here p) = omega arith
smallest-le x n [] (there m) = elim m [ ]
smallest-le x n (y ∷ ys) (here p) = omega arith
smallest-le x n (y ∷ ys) (there m) = omega (arith, smallest-le y n ys m)

largest-ge : (x n : ℕ) (xs : List ℕ) → In n (x ∷ xs) → n ≤ largest x xs
unfolding largest
largest-ge x n [] (here p) = omega arith
largest-ge x n [] (there m) = elim m [ ]
largest-ge x n (y ∷ ys) (here p) = omega arith
largest-ge x n (y ∷ ys) (there m) = omega (arith, largest-ge y n ys m)

pub min_or-le : (default n : ℕ) (xs : List ℕ) → In n xs → min_or default xs ≤ n
unfolding min_or
min_or-le default n [] m = elim m [ ]
min_or-le default n (x ∷ xs) m = smallest-le x n xs m

pub max_or-ge : (default n : ℕ) (xs : List ℕ) → In n xs → n ≤ max_or default xs
unfolding max_or
max_or-ge default n [] m = elim m [ ]
max_or-ge default n (x ∷ xs) m = largest-ge x n xs m
