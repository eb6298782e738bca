-- ===== src/Deploy/Config.antt =====
-- Configuration transactions of hardhat/tasks/deploy/batch-helpers.ts. The ethers objects are
-- parameters: a contract (by name, or from an artifact) at an address, the call of one of its
-- methods under a nonce, which answers with a transaction, and its `wait`, which answers with the
-- receipt's status. The gas limit is that of the call.
pub mod Results
use rayls_sovereign_contract.Base.{
  ℕ, ◌-◌, ◌≡◌, Bool, true, false, not, Option, none, some, List, [], ◌∷◌, ◌++◌, length, keep_if,
  map, nat_beq, if◌then◌else◌,
}
use rayls_sovereign_contract.Base.Text.{Text, codes, join, decimal, text_beq}
use rayls_sovereign_contract.Base.Outcome.{
  JsError, error, Outcome, ok, err, Exec, pure, throw, continue, ◌>>=◌, ◌>>◌, promise_all,
  try_catch,
}
use rayls_sovereign_contract.Base.Chunks.{chunks, append_each}
use rayls_sovereign_contract.Deploy.Nonces.{NonceManager, allocate_all, sync}
use rayls_sovereign_contract.Deploy.Retry.{retry_on_transient_error}
use rayls_sovereign_contract.Deploy.Artifacts.{
  ExplicitArtifactRef, Artifact, ForgeJson, get_explicit_artifact,
}

pub record ConfigTask (Value : Type 0) : Type 0 where
  pub name : Text
  pub artifact : ExplicitArtifactRef
  pub address : Text
  pub method : Text
  pub args : List Value

pub record ConfigResult : Type 0 where
  pub name : Text
  pub success : Bool
  pub tx_hash : Option Text

-- `error?.code === 'NONCE_EXPIRED'`
abbrev pub has_code : Option Text → Text → Bool
has_code none c = false
has_code (some d) c = text_beq d c

abbrev pub nonce_expired : JsError → Bool
nonce_expired e = has_code e.code (codes "NONCE_EXPIRED")

module _ {W Value Abi Links Contract : Type 0} (no_links : Links)
    (read_artifact : Text → Exec W (Artifact Abi Links))
    (read_json : Text → Exec W (ForgeJson Abi Links))
    -- `ethers.getContractAt(name, address, signer)`
    (get_contract_at : Text → Text → Exec W Contract)
    -- `ethers.getContractAtFromArtifact(artifact, address, signer)`
    (get_contract_at_from_artifact : Artifact Abi Links → Text → Exec W Contract) where
  abbrev contract_at : ConfigTask Value → Option (Artifact Abi Links) → Exec W Contract
  contract_at task none = get_contract_at task.artifact.contract_name task.address
  contract_at task (some a) = get_contract_at_from_artifact a task.address

  unfoldable pub get_contract_for_config_task : ConfigTask Value → Exec W Contract
  unfolding get_explicit_artifact
  get_contract_for_config_task task =
      get_explicit_artifact no_links read_artifact read_json task.artifact task.name
      >>= contract_at task

-- What the batch calls.
pub record Calls (W Value : Type 0) : Type 1 where
  pub Tx : Type 0
  pub hash : Tx → Text
  pub Contract : Type 0
  -- `provider.getSigner()`
  pub get_signer : Exec W (Unit {0})
  -- `getContractForConfigTask`, for that signer: `get_contract_for_config_task` of a reading of artifacts
  pub get_contract : ConfigTask Value → Exec W Contract
  -- `contract[method](...args, { nonce, gasLimit })`
  pub send : Contract → ConfigTask Value → ℕ → Exec W Tx
  -- `(await tx.wait()).status`
  pub wait : Tx → Exec W ℕ

module _ {W Value : Type 0} (calls : Calls W Value) where
  open calls use {Tx, Contract, hash, get_signer, get_contract, send, wait}

  abbrev pub reverted : ConfigTask Value → ℕ → Tx → JsError
  reverted task nonce tx = error (
      codes "Transaction reverted on-chain: "
      ++ (task.name
          ++ (codes " (nonce="
              ++ (decimal nonce
                  ++ (codes ", tx="
                      ++ (hash tx
                          ++ codes
                              "). The deployment cannot continue with failed configuration transactions."))))))

  abbrev pub receipt_result : ConfigTask Value → ℕ → Tx → ℕ → Exec W ConfigResult
  receipt_result task nonce tx status =
      if nat_beq status 1
      then pure (record { name = task.name; success = true; tx_hash = some (hash tx) })
      else throw (reverted task nonce tx)

  -- A nonce that has expired on a retry means that the transaction was mined before.
  abbrev pub config_error : ConfigTask Value → JsError → Exec W ConfigResult
  config_error task e =
      if nonce_expired e
      then pure (record { name = task.name; success = true; tx_hash = none })
      else throw e

  unfoldable pub execute_config_with_nonce : ConfigTask Value × ℕ → Exec W ConfigResult
  execute_config_with_nonce (task, nonce) =
      try_catch
        (get_signer >>= λ _. get_contract task >>= λ contract. send contract task nonce >>= λ tx.
          wait tx >>= λ status. receipt_result task nonce tx status)
        (config_error task)

  -- The world's part of a session.
  unfoldable pub send_chunk : List (ConfigTask Value × ℕ) → Exec W (List ConfigResult)
  unfolding execute_config_with_nonce
  send_chunk chunk = retry_on_transient_error (promise_all execute_config_with_nonce chunk) 3

  abbrev pub chunk_size : ℕ
  chunk_size = 20

  abbrev pub names : List ConfigResult → Text
  names rs = join (codes ", ") (map (λ r. r.name) rs)

  abbrev pub failed : List ConfigResult → List ConfigResult
  failed = keep_if (λ r. not r.success)

  abbrev batch_failed : List ConfigResult → JsError
  batch_failed rs = error (
      codes "Batch config failed: "
      ++ (decimal (length (failed rs))
          ++ (codes "/"
              ++ (decimal (length rs) ++ (codes " transactions reverted: " ++ names (failed rs))))))

  unfoldable pub check_results : List ConfigResult → Outcome (Unit {0})
  check_results rs = elim (failed rs) [ [] ↦ ok tt | f ∷ fs ↦ err (batch_failed rs) ]

  -- The nonces are allocated before the first chunk is sent; the manager follows the chain at the end.
  unfoldable pub execute_batch_config :
      Exec W ℕ → List (ConfigTask Value) → Exec (NonceManager × W) (List ConfigResult)
  unfolding send_chunk check_results
  execute_batch_config transaction_count tasks (m, w) =
      let (task_nonces, m') = allocate_all tasks m in
      let (r, w') = append_each send_chunk (chunks chunk_size task_nonces) w in
      continue r
        (λ results s.
          continue (check_results results) (λ _. sync transaction_count >>= λ _. pure results) s)
        (m', w')
