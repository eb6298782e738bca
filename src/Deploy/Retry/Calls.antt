-- ===== src/Deploy/Retry/Calls.antt =====
-- How often `retryOnTransientError` of hardhat/tasks/deploy/batch-helpers.ts makes its call.
use rayls_sovereign_contract.Base.{
  ℕ, zero, suc, ◌≤◌, ◌≡◌, ◌⊎◌, inl, inr, refl, ap, true, false, arith, Bool-cases,
}
use rayls_sovereign_contract.Base.Outcome.{JsError, Outcome, ok, err, Exec, Raises}
use rayls_sovereign_contract.Deploy.Retry.{is_transient, caught, retry_on_transient_error}

module _ {W A : Type 0} (fn : Exec W A) where
  -- `Retried n w r`: the `n`-th call, made after `n - 1` calls that failed transiently, each on the
  -- world that the one before left, came to `r`.
  pub data Retried : ℕ → W → Outcome A × W → Type 0 where
    last : (w : W) (r : Outcome A × W) → fn w ≡ r → Retried 1 w r
    more :
        {n : ℕ} {w : W} {r : Outcome A × W} (e : JsError) (w' : W)
        → fn w ≡ (err e, w')
        → is_transient e ≡ true
        → Retried n w' r
        → Retried (suc n) w r

  abbrev pub WhenTried : ℕ → W → Outcome A × W → Type 0
  WhenTried left w r =
      (n : ℕ) × (n ≤ suc left)
      × Retried n w r
      × Raises (λ e. (is_transient e ≡ false) ⊎ (n ≡ suc left)) r.0

  -- The reason to stop at the `n`-th call with an error.
  abbrev Stops : ℕ → ℕ → Outcome A → Type 0
  Stops left n = Raises (λ e. (is_transient e ≡ false) ⊎ (n ≡ suc left))

  Stops-suc : (left n : ℕ) (o : Outcome A) → Stops left n o → Stops (suc left) (suc n) o
  Stops-suc left n (ok a) h = tt
  Stops-suc left n (err e) (inl h) = inl h
  Stops-suc left n (err e) (inr h) = inr (ap suc h)

  Stops-zero : (o : Outcome A) → Stops 0 1 o
  Stops-zero (ok a) = tt
  Stops-zero (err e) = inr refl

  caught-WhenTried :
      (left : ℕ) (w : W) (r : Outcome A × W)
      → fn w ≡ r
      → ((w' : W) → WhenTried left w' (retry_on_transient_error fn left w'))
      → WhenTried (suc left) w (caught r (retry_on_transient_error fn left))
  caught-WhenTried left w (ok a, w') e ih = (1, omega arith, last w (ok a, w') e, tt)
  caught-WhenTried left w (err x, w') e ih = elim (Bool-cases (is_transient x)) [
    | inl c ↦
        let (n, le, tried, stops) = ih w' in
        rw c (
          suc n,
          omega arith,
          more x w' e c tried,
          Stops-suc left n (retry_on_transient_error fn left w').0 stops,
        )
    | inr c ↦ rw c (1, omega arith, last w (err x, w') e, inl c)
  ]

  -- `retryOnTransientError` makes at most `maxRetries + 1` calls, each but the last after a
  -- transient error, and comes to what its last call came to; it throws only an error that is not
  -- transient, or the one of the call numbered `maxRetries + 1`.
  pub retry_on_transient_error-Retried :
      (left : ℕ) (w : W) → WhenTried left w (retry_on_transient_error fn left w)
  unfolding retry_on_transient_error
  retry_on_transient_error-Retried zero w =
      (1, omega arith, last w (fn w) refl, Stops-zero (fn w).0)
  retry_on_transient_error-Retried (suc left) w =
      caught-WhenTried left w (fn w) refl (λ w'. retry_on_transient_error-Retried left w')
