-- ===== src/Deploy/Batch.antt =====
-- `deployBatch` and `deployBatchWithRetry` of hardhat/tasks/deploy/batch-helpers.ts. The delays between the
-- attempts are not modelled.
pub mod Places
pub mod Results
use rayls_sovereign_contract.Base.{
  ℕ, zero, suc, ◌+◌, ◌≡◌, Bool, true, false, not, Option, none, some, List, [], ◌∷◌, ◌++◌, map,
  keep_if, if◌then◌else◌, nat_eq,
}
use rayls_sovereign_contract.Base.Text.{Text, codes, decimal}
use rayls_sovereign_contract.Base.Outcome.{
  JsError, error, Outcome, ok, err, Exec, pure, throw, continue, each, ◌>>=◌, ◌>>◌, promise_all,
}
use rayls_sovereign_contract.Base.Dict.{Dict, get, put}
use rayls_sovereign_contract.Base.Chunks.{chunks, append_each}
use rayls_sovereign_contract.Deploy.Nonces.{NonceManager, allocate_all, sync}
use rayls_sovereign_contract.Deploy.Retry.{retry_on_transient_error}
use rayls_sovereign_contract.Deploy.Artifacts.{Artifact, ForgeJson}
use rayls_sovereign_contract.Deploy.Deployment.{
  DeploymentTask, DeploymentResult, Deployer, deploy_with_nonce,
}
use rayls_sovereign_contract.Deploy.Proxies.{ProxyCalls, deploy_proxy_without_nonce}
use rayls_sovereign_contract.Deploy.Phases.{Placed, on_world, Final, deploy_proxies_in_parallel}

-- `tasks.map((task, index) => ({ task, index }))`
abbrev pub with_index : {Value : Type 0} → ℕ → List (DeploymentTask Value) → List (Placed Value)
with_index i [] = []
with_index i (task ∷ tasks) = (task, i) ∷ with_index (suc i) tasks

abbrev pub proxy_tasks : {Value : Type 0} → List (DeploymentTask Value) → List (Placed Value)
proxy_tasks tasks = keep_if (λ p. p.0.is_proxy) (with_index 0 tasks)

abbrev pub regular_tasks : {Value : Type 0} → List (DeploymentTask Value) → List (Placed Value)
regular_tasks tasks = keep_if (λ p. not p.0.is_proxy) (with_index 0 tasks)

-- A result, and the place of its task.
abbrev pub PlacedResult : Type 0
PlacedResult = DeploymentResult × ℕ

-- `forEach(({ result, index }) => resultsMap.set(index, result))`
unfoldable pub set_results : List PlacedResult → Dict ℕ DeploymentResult → Dict ℕ DeploymentResult
unfolding put
set_results [] results_map = results_map
set_results ((result, index) ∷ rs) results_map = set_results rs (put results_map index result)

-- `tasks.map((_, index) => resultsMap.get(index))`
unfoldable pub in_order :
    {Value : Type 0}
    → ℕ
    → List (DeploymentTask Value)
    → Dict ℕ DeploymentResult
    → List (Option DeploymentResult)
unfolding get
in_order i [] results_map = []
in_order i (task ∷ tasks) results_map = get results_map i ∷ in_order (suc i) tasks results_map

abbrev pub deploy_chunk_size : ℕ
deploy_chunk_size = 10

module _ {W Value Abi Links : Type 0} (no_links : Links) (is_no_links : Links → Bool)
    (read_artifact : Text → Exec W (Artifact Abi Links))
    (read_json : Text → Exec W (ForgeJson Abi Links)) (deployer : Deployer W Value Abi Links)
    (calls : ProxyCalls deployer) (transaction_count : Exec W ℕ) where
  -- One after the other, under nonces that the signer takes; then the manager follows the chain.
  abbrev pub sequential_result : Placed Value → Exec W PlacedResult
  sequential_result (task, index) =
      deploy_proxy_without_nonce no_links is_no_links read_artifact read_json deployer calls task
      >>= λ result. pure (result, index)

  abbrev pub deploy_sequentially : List (Placed Value) → Exec (NonceManager × W) (List PlacedResult)
  deploy_sequentially proxies =
      on_world (each sequential_result proxies) >>= λ rs. sync transaction_count >> pure rs

  abbrev pub deploy_parallel : List (Placed Value) → Exec (NonceManager × W) (List PlacedResult)
  deploy_parallel proxies =
      deploy_proxies_in_parallel no_links is_no_links read_artifact read_json deployer calls proxies
      >>= λ finals. pure (map (λ f. (f.result, f.index)) finals)

  -- The proxies, if there are any.
  abbrev pub deploy_proxies :
      Bool → List (Placed Value) → Exec (NonceManager × W) (List PlacedResult)
  deploy_proxies use_parallel_proxies [] = pure []
  deploy_proxies true (p ∷ ps) = deploy_parallel (p ∷ ps)
  deploy_proxies false (p ∷ ps) = deploy_sequentially (p ∷ ps)

  abbrev pub regular_result : Placed Value × ℕ → Exec W PlacedResult
  regular_result ((task, index), nonce) =
      deploy_with_nonce no_links is_no_links read_artifact read_json deployer task nonce
      >>= λ result. pure (result, index)

  unfoldable pub deploy_chunk : List (Placed Value × ℕ) → Exec W (List PlacedResult)
  unfolding deploy_with_nonce
  deploy_chunk chunk = retry_on_transient_error (promise_all regular_result chunk) 3

  -- The nonces are allocated before the first chunk is sent.
  unfoldable pub deploy_regulars : List (Placed Value) → Exec (NonceManager × W) (List PlacedResult)
  unfolding deploy_chunk allocate_all chunks append_each
  deploy_regulars regulars (m, w) =
      let (with_nonces, m') = allocate_all regulars m in
      on_world (append_each deploy_chunk (chunks deploy_chunk_size with_nonces)) (m', w)

  unfoldable pub deploy_batch :
      Bool → List (DeploymentTask Value) → Exec (NonceManager × W) (List (Option DeploymentResult))
  unfolding deploy_proxies_in_parallel deploy_proxy_without_nonce deploy_regulars set_results
      in_order sync
  deploy_batch use_parallel_proxies tasks = do
    proxies ← deploy_proxies use_parallel_proxies (proxy_tasks tasks)
    regulars ← deploy_regulars (regular_tasks tasks)
    pure (in_order 0 tasks (set_results regulars (set_results proxies [])))

  abbrev pub gave_up : ℕ → JsError
  gave_up max_retries =
      error (codes "Batch deployment failed after " ++ (decimal max_retries ++ codes " attempts"))

  -- The `catch` of an attempt: `again` is the next one, if there is one.
  abbrev pub after_attempt :
      {A : Type 0}
      → JsError
      → Option (Exec (NonceManager × W) A)
      → Outcome A × (NonceManager × W)
      → Outcome A × (NonceManager × W)
  after_attempt last again (ok r, s) = (ok r, s)
  after_attempt last none (err e, s) = (sync transaction_count >> throw last) s
  after_attempt last (some again) (err e, s) = (sync transaction_count >> again) s

  -- `attempt` counts up to `maxRetries`: `left` more come after this one.
  unfoldable pub attempts :
      ℕ → ℕ → List (DeploymentTask Value) → Exec (NonceManager × W) (List (Option DeploymentResult))
  unfolding deploy_batch
  attempts max_retries zero tasks s =
      after_attempt (gave_up max_retries) none (deploy_batch true tasks s)
  attempts max_retries (suc left) tasks s =
      after_attempt (gave_up max_retries) (some (attempts max_retries left tasks))
        (deploy_batch true tasks s)

  unfoldable pub deploy_batch_with_retry :
      ℕ → List (DeploymentTask Value) → Exec (NonceManager × W) (List (Option DeploymentResult))
  unfolding attempts
  deploy_batch_with_retry zero tasks =
      throw (error (codes "Unexpected error in deployBatchWithRetry"))
  deploy_batch_with_retry (suc left) tasks = attempts (suc left) left tasks
