-- ===== src/Audit/Fetch.antt =====
-- `fetchInBatches` of hardhat/tasks/audit/utils.ts: reads in batches of bounded size.
pub mod Order
use rayls_sovereign_contract.Base.{ℕ, ◌++◌, ltb, List, if◌then◌else◌}
use rayls_sovereign_contract.Base.Text.{codes, decimal}
use rayls_sovereign_contract.Base.Outcome.{error, Exec, throw, promise_all}
use rayls_sovereign_contract.Base.Chunks.{chunks, append_each}

-- The default of `batchSize`.
abbrev pub default_fetch_batch_size : ℕ
default_fetch_batch_size = 4

module _ {W T R : Type 0} where
  unfoldable pub fetch_in_batches : List T → (T → Exec W R) → ℕ → Exec W (List R)
  fetch_in_batches items fetcher batch_size =
      if ltb batch_size 1
      then throw
          (error (codes "fetchInBatches: batchSize must be >= 1, got " ++ decimal batch_size))
      else append_each (promise_all fetcher) (chunks batch_size items)
