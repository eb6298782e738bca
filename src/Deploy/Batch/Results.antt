-- ===== src/Deploy/Batch/Results.antt =====
-- What `deployBatch` of hardhat/tasks/deploy/batch-helpers.ts answers with.
use rayls_sovereign_contract.Base.{
  ℕ, suc, ◌≡◌, ◌∙◌, refl, sym, ap, subst, Bool, true, false, not, Option, none, some, List, [], ◌∷◌,
  map, All, arith, get_elem?, nat_eq, zero,
}
use rayls_sovereign_contract.Base.Text.{Text}
use rayls_sovereign_contract.Base.Outcome.{
  JsError, Outcome, ok, err, Exec, pure, throw, ◌>>=◌, ◌>>◌, each, promise_all, Ensures, Always,
  Always-bind, Always-then,
}
use rayls_sovereign_contract.Base.Dict.{Dict, get, has}
use rayls_sovereign_contract.Base.Chunks.{
  chunks, concat-chunks, append_each, Pairwise, Keeps, map-Pairwise, each-keys,
  promise_all-Pairwise, append_each-Pairwise,
}
use rayls_sovereign_contract.Deploy.Nonces.{NonceManager, allocate_all, sync}
use rayls_sovereign_contract.Deploy.Config.Results.{retry-Ensures}
use rayls_sovereign_contract.Deploy.Artifacts.{Artifact, ForgeJson}
use rayls_sovereign_contract.Deploy.Deployment.{
  DeploymentTask, DeploymentResult, Deployer, deploy_with_nonce,
}
use rayls_sovereign_contract.Deploy.Deployment.Answers.{IsDeployed, deploy_with_nonce-IsDeployed}
use rayls_sovereign_contract.Deploy.Proxies.{ProxyCalls, deploy_proxy_without_nonce}
use rayls_sovereign_contract.Deploy.Proxies.Names.{deploy_proxy_without_nonce-Named}
use rayls_sovereign_contract.Deploy.Phases.{Placed, on_world, Final, deploy_proxies_in_parallel}
use rayls_sovereign_contract.Deploy.Phases.Keys.{
  Key, placed_key, final_key, deploy_proxies_in_parallel-keys,
}
use rayls_sovereign_contract.Deploy.Batch.{
  with_index, proxy_tasks, regular_tasks, PlacedResult, set_results, in_order, deploy_chunk_size,
  sequential_result, deploy_sequentially, deploy_parallel, deploy_proxies, regular_result,
  deploy_chunk, deploy_regulars, deploy_batch, gave_up, after_attempt, attempts,
  deploy_batch_with_retry,
}
use rayls_sovereign_contract.Deploy.Batch.Places.{
  result_key, Answers, IsValid, set_results-IsNamed, in_order-Answers, has-set_results,
  set_results-has, All-keep_if, keep_if-All, tasks-IsValid,
}

module _ {W Value Abi Links : Type 0} (no_links : Links) (is_no_links : Links → Bool)
    (read_artifact : Text → Exec W (Artifact Abi Links))
    (read_json : Text → Exec W (ForgeJson Abi Links)) (deployer : Deployer W Value Abi Links)
    (calls : ProxyCalls deployer) (transaction_count : Exec W ℕ) where
  -- The results have the places and the names of the tasks, in their order.
  abbrev SameKeys : List (Placed Value) → List PlacedResult → Type 0
  SameKeys ps rs = map result_key rs ≡ map placed_key ps

  sequential_result-key :
      (p : Placed Value)
      → Always
          (λ r. result_key r ≡ placed_key p)
          (sequential_result no_links is_no_links read_artifact read_json deployer calls
            transaction_count p)
  sequential_result-key (task, index) =
      Always-bind (λ r. r.name ≡ task.name) (λ r. result_key r ≡ (index, task.name))
        (deploy_proxy_without_nonce no_links is_no_links read_artifact read_json deployer calls
          task)
        (λ result. pure (result, index))
        (deploy_proxy_without_nonce-Named no_links is_no_links read_artifact read_json deployer
          calls task)
        (λ result named w. ap (λ n. (index, n)) named)

  sequential-keys :
      (ps : List (Placed Value))
      → Always (SameKeys ps) (
          deploy_sequentially no_links is_no_links read_artifact read_json deployer calls
            transaction_count ps)
  sequential-keys ps =
      Always-bind (SameKeys ps) (SameKeys ps)
        (on_world (
          each
            (sequential_result no_links is_no_links read_artifact read_json deployer calls
              transaction_count)
            ps))
        (λ rs. sync transaction_count >> pure rs)
        (λ s.
          each-keys placed_key result_key
            (sequential_result no_links is_no_links read_artifact read_json deployer calls
              transaction_count)
            sequential_result-key ps s.1)
        (λ rs keys. Always-then (SameKeys ps) (sync transaction_count) (λ u. pure rs) (λ u s. keys))

  finals-keys :
      (fs : List Final) → map result_key (map (λ f. (f.result, f.index)) fs) ≡ map final_key fs
  finals-keys [] = refl
  finals-keys (f ∷ fs) = ap (◌∷◌ (final_key f)) (finals-keys fs)

  parallel-keys :
      (ps : List (Placed Value))
      → Always (SameKeys ps) (
          deploy_parallel no_links is_no_links read_artifact read_json deployer calls
            transaction_count ps)
  parallel-keys ps =
      Always-bind (λ fs. map final_key fs ≡ map placed_key ps) (SameKeys ps)
        (deploy_proxies_in_parallel no_links is_no_links read_artifact read_json deployer calls ps)
        (λ fs. pure (map (λ f. (f.result, f.index)) fs))
        (deploy_proxies_in_parallel-keys no_links is_no_links read_artifact read_json deployer calls
          ps)
        (λ fs keys s. finals-keys fs ∙ keys)

  proxies-keys :
      (use_parallel_proxies : Bool) (ps : List (Placed Value))
      → Always (SameKeys ps) (
          deploy_proxies no_links is_no_links read_artifact read_json deployer calls
            transaction_count use_parallel_proxies ps)
  proxies-keys use_parallel_proxies [] = λ s. refl
  proxies-keys true (p ∷ ps) = parallel-keys (p ∷ ps)
  proxies-keys false (p ∷ ps) = sequential-keys (p ∷ ps)

  abbrev numbered_key : Placed Value × ℕ → Key
  numbered_key p = placed_key p.0

  regular_result-key :
      (p : Placed Value × ℕ)
      → Always (Keeps numbered_key result_key p) (
          regular_result no_links is_no_links read_artifact read_json deployer calls
            transaction_count p)
  regular_result-key ((task, index), nonce) =
      Always-bind (IsDeployed no_links is_no_links read_artifact read_json deployer task)
        (Keeps numbered_key result_key ((task, index), nonce))
        (deploy_with_nonce no_links is_no_links read_artifact read_json deployer task nonce)
        (λ result. pure (result, index))
        (deploy_with_nonce-IsDeployed no_links is_no_links read_artifact read_json deployer task
          nonce)
        (λ result deployed w. ap (λ n. (index, n)) deployed.0)

  deploy_chunk-keys :
      (c : List (Placed Value × ℕ))
      → Always (Pairwise (Keeps numbered_key result_key) c) (
          deploy_chunk no_links is_no_links read_artifact read_json deployer calls transaction_count
            c)
  unfolding deploy_chunk
  deploy_chunk-keys c =
      retry-Ensures (Pairwise (Keeps numbered_key result_key) c)
        (promise_all
          (regular_result no_links is_no_links read_artifact read_json deployer calls
            transaction_count)
          c)
        (promise_all-Pairwise (Keeps numbered_key result_key)
          (regular_result no_links is_no_links read_artifact read_json deployer calls
            transaction_count)
          regular_result-key c)
        3

  allocated-keys :
      (ps : List (Placed Value)) (m : NonceManager)
      → map numbered_key (allocate_all ps m).0 ≡ map placed_key ps
  unfolding allocate_all
  allocated-keys [] m = refl
  allocated-keys (p ∷ ps) m =
      ap (◌∷◌ (placed_key p)) (allocated-keys ps (record { next_nonce = suc m.next_nonce }))

  regulars-keys :
      (ps : List (Placed Value))
      → Always (SameKeys ps) (
          deploy_regulars no_links is_no_links read_artifact read_json deployer calls
            transaction_count ps)
  unfolding deploy_regulars
  regulars-keys ps (m, w) = from_chunks _ chunked
    where
      pairs : List (Placed Value × ℕ)
      pairs = (allocate_all ps m).0

      chunked :
          Ensures
            (Pairwise (Keeps numbered_key result_key) pairs)
            (append_each
              (deploy_chunk no_links is_no_links read_artifact read_json deployer calls
                transaction_count)
              (chunks deploy_chunk_size pairs)
              w).0
      chunked = rw (concat-chunks deploy_chunk_size pairs (omega arith)) at (
          append_each-Pairwise (Keeps numbered_key result_key)
            (deploy_chunk no_links is_no_links read_artifact read_json deployer calls
              transaction_count)
            deploy_chunk-keys (chunks deploy_chunk_size pairs) w)

      from_chunks :
          (o : Outcome (List PlacedResult))
          → Ensures (Pairwise (Keeps numbered_key result_key) pairs) o
          → Ensures (SameKeys ps) o
      from_chunks (ok rs) h = map-Pairwise numbered_key result_key pairs rs h ∙ allocated-keys ps m
      from_chunks (err e) h = tt

  -- The places that have a result keep one.
  later :
      (rs : List PlacedResult) (d : Dict ℕ DeploymentResult) (ks : List Key)
      → All (λ k. has d k.0 ≡ true) ks
      → All (λ k. has (set_results rs d) k.0 ≡ true) ks
  later rs d [] h = tt
  later rs d (k ∷ ks) h = (has-set_results rs d k.0 h.0, later rs d ks h.1)

  -- The results of both kinds of tasks fill the places of all.
  collected :
      (tasks : List (DeploymentTask Value)) (proxies regulars : List PlacedResult)
      → SameKeys (proxy_tasks tasks) proxies
      → SameKeys (regular_tasks tasks) regulars
      → Pairwise Answers tasks (in_order 0 tasks (set_results regulars (set_results proxies [])))
  unfolding get
  collected tasks proxies regulars e e' =
      in_order-Answers names 0 tasks (set_results regulars first)
        (keep_if-All there (λ p. p.0.is_proxy) (with_index 0 tasks)
          (subst (All there) e
            (later regulars first (map result_key proxies) (set_results-has proxies [])))
          (subst (All there) e' (set_results-has regulars first)))
        (tasks-IsValid tasks)
        (set_results-IsNamed names regulars first
          (subst (All (IsValid names)) (sym e') (
            All-keep_if (IsValid names) (λ p. not p.0.is_proxy) (with_index 0 tasks)
              (tasks-IsValid tasks)))
          (set_results-IsNamed names proxies []
            (subst (All (IsValid names)) (sym e) (
              All-keep_if (IsValid names) (λ p. p.0.is_proxy) (with_index 0 tasks)
                (tasks-IsValid tasks)))
            (λ i r h. cc)))
    where
      names : ℕ → Option Text
      names = get_elem? (map (λ t. t.name) tasks)

      first : Dict ℕ DeploymentResult
      first = set_results proxies []

      there : Key → Type 0
      there k = has (set_results regulars first) k.0 ≡ true

  -- Whether proxies are deployed in parallel or not: when `deployBatch` answers, it has one result for each
  -- task, in the order of the tasks, and under the task's name, however proxies and regular contracts are
  -- mixed.
  pub deploy_batch-Answers :
      (use_parallel_proxies : Bool) (tasks : List (DeploymentTask Value))
      → Always (Pairwise Answers tasks) (
          deploy_batch no_links is_no_links read_artifact read_json deployer calls transaction_count
            use_parallel_proxies tasks)
  unfolding deploy_batch
  deploy_batch-Answers use_parallel_proxies tasks =
      let P = Pairwise Answers tasks in
      Always-bind (SameKeys (proxy_tasks tasks)) P
        (deploy_proxies no_links is_no_links read_artifact read_json deployer calls
          transaction_count use_parallel_proxies (proxy_tasks tasks))
        (λ proxies.
          deploy_regulars no_links is_no_links read_artifact read_json deployer calls
            transaction_count (regular_tasks tasks)
          >>= λ regulars. pure (in_order 0 tasks (set_results regulars (set_results proxies []))))
        (proxies-keys use_parallel_proxies (proxy_tasks tasks))
        (λ proxies e.
          Always-bind (SameKeys (regular_tasks tasks)) P
            (deploy_regulars no_links is_no_links read_artifact read_json deployer calls
              transaction_count (regular_tasks tasks))
            (λ regulars. pure (in_order 0 tasks (set_results regulars (set_results proxies []))))
            (regulars-keys (regular_tasks tasks))
            (λ regulars e' s. collected tasks proxies regulars e e'))

  -- An attempt that answers is the last; after one that throws, the next one's answer counts.
  after_attempt-Always :
      {A : Type 0} (P : A → Type 0) (last : JsError) (again : Exec (NonceManager × W) A)
      (r : Outcome A × (NonceManager × W))
      → Always P again
      → Ensures P r.0
      → Ensures P
          (after_attempt no_links is_no_links read_artifact read_json deployer calls
            transaction_count last
            (some again)
            r).0
  after_attempt-Always P last again (ok a, s) h k = k
  after_attempt-Always P last again (err e, s) h k =
      Always-then P (sync transaction_count) (λ u. again) (λ u. h) s

  last_attempt-Always :
      {A : Type 0} (P : A → Type 0) (last : JsError) (r : Outcome A × (NonceManager × W))
      → Ensures P r.0
      → Ensures P
          (after_attempt no_links is_no_links read_artifact read_json deployer calls
            transaction_count last none r).0
  last_attempt-Always P last (ok a, s) k = k
  last_attempt-Always P last (err e, s) k =
      Always-then P (sync transaction_count) (λ u. throw last) (λ u s'. tt) s

  attempts-Answers :
      (max_retries left : ℕ) (tasks : List (DeploymentTask Value))
      → Always (Pairwise Answers tasks) (
          attempts no_links is_no_links read_artifact read_json deployer calls transaction_count
            max_retries left tasks)
  unfolding attempts
  attempts-Answers max_retries zero tasks s =
      last_attempt-Always (Pairwise Answers tasks)
        (gave_up no_links is_no_links read_artifact read_json deployer calls transaction_count
          max_retries)
        (deploy_batch no_links is_no_links read_artifact read_json deployer calls transaction_count
          true tasks s)
        (deploy_batch-Answers true tasks s)
  attempts-Answers max_retries (suc left) tasks s =
      after_attempt-Always (Pairwise Answers tasks)
        (gave_up no_links is_no_links read_artifact read_json deployer calls transaction_count
          max_retries)
        (attempts no_links is_no_links read_artifact read_json deployer calls transaction_count
          max_retries left tasks)
        (deploy_batch no_links is_no_links read_artifact read_json deployer calls transaction_count
          true tasks s)
        (attempts-Answers max_retries left tasks) (deploy_batch-Answers true tasks s)

  -- However many attempts it takes: when `deployBatchWithRetry` answers, it has one result for each task, in
  -- the order of the tasks, and under the task's name, however proxies and regular contracts are mixed.
  pub deploy_batch_with_retry-Answers :
      (max_retries : ℕ) (tasks : List (DeploymentTask Value))
      → Always (Pairwise Answers tasks) (
          deploy_batch_with_retry no_links is_no_links read_artifact read_json deployer calls
            transaction_count max_retries tasks)
  unfolding deploy_batch_with_retry
  deploy_batch_with_retry-Answers zero tasks s = tt
  deploy_batch_with_retry-Answers (suc left) tasks s = attempts-Answers (suc left) left tasks s
