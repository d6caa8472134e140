-- ===== src/Escalation/Backoff.antt =====
-- The backoff of an infrastructure retry.
use openai_model_router.Prelude.{
  ℕ, zero, suc, ◌+◌, ◌*◌, ◌/◌, ◌^◌, ◌%◌, ◌≤◌, ◌<◌, ◌≡◌, refl, max, min, Option, none, some, false,
  leb, ◌==◌, ◌||◌, nat_eq, Bool-cases, inl, inr, if◌then◌else◌, arith,
}
use native.Mathlib.Nat.{pow-succ', pow-le-pow_right, div-add-mod, mul-le-mul_left}
use openai_model_router.Escalation.Recovery.{
  RecoveryContext, bits_from, bit_length, saturated, backoff_ms,
}

bits_from-bound : (fuel n : ℕ) → n ≤ fuel → n < 2 ^ bits_from fuel n
unfolding bits_from
bits_from-bound zero n h = omega arith
bits_from-bound (suc fuel) zero h = omega arith
bits_from-bound (suc fuel) (suc m) h =
    rw (pow-succ' 2 (bits_from fuel (suc m / 2)))
      (halved (bits_from-bound fuel (suc m / 2) (omega arith)))
  where
    halved : {p : ℕ} → suc m / 2 < p → suc m < 2 * p
    halved k = omega arith

bit_length-bound : (n : ℕ) → n < 2 ^ bit_length n
unfolding bit_length
bit_length-bound n = bits_from-bound n n (omega arith)

-- The exponent from which on the doubled delay exceeds the maximum.
doubled :
    (e initial maximum : ℕ)
    → 0 < initial
    → bit_length (maximum / initial) ≤ e
    → maximum ≤ initial * 2 ^ e
doubled e initial maximum i h =
    combined (maximum / initial) (maximum % initial) (div-add-mod maximum initial) (omega arith) (
      mul-le-mul_left initial
        (below (bit_length-bound (maximum / initial)) (pow-le-pow_right {n = 2} (omega arith) h)))
  where
    below : {q p r : ℕ} → q < p → p ≤ r → q + 1 ≤ r
    below a b = omega arith

    combined :
        (q r : ℕ)
        → initial * q + r ≡ maximum
        → r < initial
        → initial * (q + 1) ≤ initial * 2 ^ e
        → maximum ≤ initial * 2 ^ e
    combined q r a b c = omega arith

saturated-eq :
    (exponent initial maximum : ℕ)
    → 0 < initial
    → saturated exponent initial maximum ≡ min (initial * 2 ^ exponent) maximum
unfolding saturated
saturated-eq exponent initial maximum i =
    elim (Bool-cases (leb (bit_length (maximum / initial)) exponent)) [
      | inl e ↦ rw e (capped (doubled exponent initial maximum i (ground arith)))
      | inr e ↦ rw e refl
    ]
  where
    capped : {x : ℕ} → maximum ≤ x → maximum ≡ min x maximum
    capped h = omega arith

computed-eq :
    (exponent initial maximum : ℕ)
    → (if initial == 0 || maximum == 0 then 0 else saturated exponent initial maximum)
      ≡ min (initial * 2 ^ exponent) maximum
computed-eq exponent zero maximum = ground arith
computed-eq exponent (suc i) zero = ground arith
computed-eq exponent (suc i) (suc m) =
    rw positive (saturated-eq exponent (suc i) (suc m) (omega arith))
  where
    positive : (suc i == 0 || suc m == 0) ≡ false
    positive = ground arith

-- The delay that the retry must wait at least.
pub retry_after_or_zero : Option ℕ → ℕ
retry_after_or_zero o = elim o [ none ↦ 0 | some after ↦ after ]

-- The backoff is the initial delay, doubled once for each earlier retry and capped at the maximum
-- delay, or the provider's requested delay where that is longer.
pub backoff_ms-eq :
    (c : RecoveryContext)
    → backoff_ms c
      ≡ max
          (min
            (c.limits.initial_backoff_ms * 2 ^ c.counters.infrastructure_retries)
            c.limits.max_backoff_ms)
          (retry_after_or_zero c.failure.retry_after_ms)
unfolding backoff_ms retry_after_or_zero
backoff_ms-eq c = go c.failure.retry_after_ms (
    computed-eq c.counters.infrastructure_retries c.limits.initial_backoff_ms
      c.limits.max_backoff_ms)
  where
    go :
        {x y : ℕ} (after : Option ℕ)
        → x ≡ y
        → (elim after [ none ↦ x | some a ↦ max x a ])
          ≡ max y (elim after [ none ↦ 0 | some a ↦ a ])
    go none e = rw e (omega arith)
    go (some a) e = rw e refl
