-- ===== src/Deploy/Config/Results.antt =====
-- What `executeBatchConfig` of hardhat/tasks/deploy/batch-helpers.ts answers with.
use rayls_sovereign_contract.Base.{
  ℕ, zero, suc, ◌≡◌, inl, inr, refl, ap, ap₂, ◌∙◌, true, List, [], ◌∷◌, map, All, arith, Bool-cases,
  nat_beq,
}
use rayls_sovereign_contract.Base.Outcome.{
  JsError, Outcome, ok, err, Exec, handle, promise_all, Ensures, Ensures-ok, Ensures-continue,
}
use rayls_sovereign_contract.Base.Chunks.{
  chunks, concat-chunks, append_each, Pairwise, promise_all-Pairwise, append_each-Pairwise,
}
use rayls_sovereign_contract.Deploy.Nonces.{NonceManager, allocate_all, sync}
use rayls_sovereign_contract.Deploy.Retry.{caught, is_transient, retry_on_transient_error}
use rayls_sovereign_contract.Deploy.Config.{
  ConfigTask, ConfigResult, Calls, nonce_expired, execute_config_with_nonce, send_chunk, chunk_size,
  check_results, failed, receipt_result, config_error, execute_batch_config,
}

-- What every call ensures of its answer, a retried call ensures.
module _ {W A : Type 0} (P : A → Type 0) (fn : Exec W A)
    (ensures : (w : W) → Ensures P (fn w).0) where
  caught-Ensures :
      (r : Outcome A × W) (retry : Exec W A)
      → Ensures P r.0
      → ((w : W) → Ensures P (retry w).0)
      → Ensures P (caught r retry).0
  caught-Ensures (ok a, w) retry h k = h
  caught-Ensures (err e, w) retry h k = elim (Bool-cases (is_transient e)) [
    | inl c ↦ rw c (k w)
    | inr c ↦ rw c tt
  ]

  pub retry-Ensures : (left : ℕ) (w : W) → Ensures P (retry_on_transient_error fn left w).0
  unfolding retry_on_transient_error
  retry-Ensures zero w = ensures w
  retry-Ensures (suc left) w =
      caught-Ensures (fn w) (retry_on_transient_error fn left) (ensures w) (retry-Ensures left)

module _ {W Value : Type 0} (calls : Calls W Value) where
  -- The result of a task bears its name and is a success.
  abbrev pub Configured : ConfigTask Value × ℕ → ConfigResult → Type 0
  Configured p r = (r.name ≡ p.0.name) × (r.success ≡ true)

  receipt-Configured :
      (task : ConfigTask Value) (n : ℕ) (tx : calls.Tx) (status : ℕ) (w : W)
      → Ensures (Configured (task, n)) (receipt_result calls task n tx status w).0
  receipt-Configured task n tx status w = elim (Bool-cases (nat_beq status 1)) [
    | inl c ↦ rw c (refl, refl)
    | inr c ↦ rw c tt
  ]

  config_error-Configured :
      (task : ConfigTask Value) (n : ℕ) (e : JsError) (w : W)
      → Ensures (Configured (task, n)) (config_error calls task e w).0
  config_error-Configured task n e w = elim (Bool-cases (nonce_expired e)) [
    | inl c ↦ rw c (refl, refl)
    | inr c ↦ rw c tt
  ]

  handle-Configured :
      (task : ConfigTask Value) (n : ℕ) (r : Outcome ConfigResult × W)
      → Ensures (Configured (task, n)) r.0
      → Ensures (Configured (task, n)) (handle (config_error calls task) r).0
  handle-Configured task n (ok a, w) h = h
  handle-Configured task n (err e, w) h = config_error-Configured task n e w

  config-Configured :
      (p : ConfigTask Value × ℕ) (w : W)
      → Ensures (Configured p) (execute_config_with_nonce calls p w).0
  unfolding execute_config_with_nonce
  config-Configured (task, n) w = handle-Configured task n _ (
      Ensures-continue (Configured (task, n)) (calls.get_signer w).0 _ (calls.get_signer w).1 λ _ _.
        let found = calls.get_contract task (calls.get_signer w).1 in
        Ensures-continue (Configured (task, n)) found.0 _ found.1 λ contract _.
          let sent = calls.send contract task n found.1 in
          Ensures-continue (Configured (task, n)) sent.0 _ sent.1 λ tx _.
            let mined = calls.wait tx sent.1 in
            Ensures-continue (Configured (task, n)) mined.0 _ mined.1
              λ status _. receipt-Configured task n tx status mined.1)

  send_chunk-Configured :
      (c : List (ConfigTask Value × ℕ)) (w : W)
      → Ensures (Pairwise Configured c) (send_chunk calls c w).0
  unfolding send_chunk
  send_chunk-Configured c w =
      retry-Ensures (Pairwise Configured c) (promise_all (execute_config_with_nonce calls) c)
        (promise_all-Pairwise Configured (execute_config_with_nonce calls) config-Configured c) 3 w

  batch-Configured :
      (pairs : List (ConfigTask Value × ℕ)) (w : W)
      → Ensures
          (Pairwise Configured pairs)
          (append_each (send_chunk calls) (chunks (chunk_size calls) pairs) w).0
  batch-Configured pairs w = rw (concat-chunks (chunk_size calls) pairs (omega arith)) at (
      append_each-Pairwise Configured (send_chunk calls) send_chunk-Configured
        (chunks (chunk_size calls) pairs) w)

  abbrev pub IsSuccess : ConfigResult → Type 0
  IsSuccess r = r.success ≡ true

  Configured-names :
      (pairs : List (ConfigTask Value × ℕ)) (rs : List ConfigResult)
      → Pairwise Configured pairs rs
      → (map (λ r. r.name) rs ≡ map (λ p. p.0.name) pairs) × All IsSuccess rs
  Configured-names [] [] h = (refl, tt)
  Configured-names [] (r ∷ rs) h = absurd h
  Configured-names (p ∷ ps) [] h = absurd h
  Configured-names (p ∷ ps) (r ∷ rs) h =
      let (names, success) = Configured-names ps rs h.1 in (ap₂ ◌∷◌ h.0.0 names, (h.0.1, success))

  none_failed : (rs : List ConfigResult) → All IsSuccess rs → failed calls rs ≡ []
  none_failed [] h = refl
  none_failed (r ∷ rs) h = rw (h.0, none_failed rs h.1)

  check_results-ok : (rs : List ConfigResult) → All IsSuccess rs → check_results calls rs ≡ ok tt
  unfolding check_results
  check_results-ok rs h = rw (none_failed rs h, check_results)

  allocated_names :
      (tasks : List (ConfigTask Value)) (m : NonceManager)
      → map (λ (p : ConfigTask Value × ℕ). p.0.name) (allocate_all tasks m).0
        ≡ map (λ t. t.name) tasks
  unfolding allocate_all
  allocated_names [] m = refl
  allocated_names (t ∷ tasks) m =
      ap (◌∷◌ t.name) (allocated_names tasks (record { next_nonce = suc m.next_nonce }))

  chunks-Configured :
      (tasks : List (ConfigTask Value)) (m : NonceManager) (w : W) (rs : List ConfigResult)
      → (append_each (send_chunk calls) (chunks (chunk_size calls) (allocate_all tasks m).0) w).0
        ≡ ok rs
      → (map (λ r. r.name) rs ≡ map (λ t. t.name) tasks) × All IsSuccess rs
  chunks-Configured tasks m w rs e =
      let pairs = (allocate_all tasks m).0 in
      let (names, success) =
        Configured-names pairs rs
          (Ensures-ok (Pairwise Configured pairs) _ rs e (batch-Configured pairs w)) in
      (names ∙ allocated_names tasks m, success)

  module _ (transaction_count : Exec W ℕ) (tasks : List (ConfigTask Value)) (m : NonceManager)
      (w : W) (results : List ConfigResult) where
    -- When `executeBatchConfig` answers, it has one result for each task, in the order of the tasks
    -- and under their names, and each is a success.
    pub execute_batch_config-Configured :
        (execute_batch_config calls transaction_count tasks (m, w)).0 ≡ ok results
        → (map (λ r. r.name) results ≡ map (λ t. t.name) tasks) × All IsSuccess results
    unfolding execute_batch_config
    execute_batch_config-Configured e = Ensures-ok Answer _ results e (
        Ensures-continue Answer run.0 _ (allocated.1, run.1)
          λ rs er. Ensures-continue Answer (check_results calls rs) _ _ λ _ _.
            Ensures-continue Answer (sync transaction_count (allocated.1, run.1)).0 _ _
              λ _ _. chunks-Configured tasks m w rs er)
      where
        allocated : List (ConfigTask Value × ℕ) × NonceManager
        allocated = allocate_all tasks m

        run : Outcome (List ConfigResult) × W
        run = append_each (send_chunk calls) (chunks (chunk_size calls) allocated.0) w

        Answer : List ConfigResult → Type 0
        Answer rs = (map (λ r. r.name) rs ≡ map (λ t. t.name) tasks) × All IsSuccess rs

    -- When every chunk comes to results, the final check of `executeBatchConfig` for failed ones
    -- passes.
    pub check_results-chunks :
        (append_each (send_chunk calls) (chunks (chunk_size calls) (allocate_all tasks m).0) w).0
          ≡ ok results
        → check_results calls results ≡ ok tt
    check_results-chunks e = check_results-ok results (chunks-Configured tasks m w results e).1
