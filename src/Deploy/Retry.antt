-- ===== src/Deploy/Retry.antt =====
-- `retryOnTransientError` of hardhat/tasks/deploy/batch-helpers.ts. The delays between the attempts
-- are not modelled: the action is called again, on the world that the failed call left.
pub mod Calls
use rayls_sovereign_contract.Base.{ℕ, zero, suc, ◌≡◌, Bool, ◌||◌, [], ◌∷◌, if◌then◌else◌}
use rayls_sovereign_contract.Base.Text.{codes, includes}
use rayls_sovereign_contract.Base.Outcome.{JsError, Outcome, ok, err, Exec}

unfoldable pub is_transient : JsError → Bool
unfolding includes
is_transient e =
    includes e.message (codes "other side closed")
    || includes e.message (codes "ECONNRESET")
    || includes e.message (codes "ECONNREFUSED")
    || includes e.message (codes "ETIMEDOUT")
    || includes e.message (codes "socket hang up")
    || includes e.message (codes "network timeout")
    || includes e.message (codes "getaddrinfo")

-- The `catch` of an attempt: `retry` is what is left to do if the error is transient.
module _ {W A : Type 0} where
  abbrev pub caught : Outcome A × W → Exec W A → Outcome A × W
  caught (ok a, w) retry = (ok a, w)
  caught (err e, w) retry = let again = retry w in if is_transient e then again else (err e, w)

  -- `maxRetries` is counted down: the call that is made with none left is the last.
  unfoldable pub retry_on_transient_error : Exec W A → ℕ → Exec W A
  retry_on_transient_error fn zero w = fn w
  retry_on_transient_error fn (suc left) w = caught (fn w) (retry_on_transient_error fn left)
