-- ===== src/Deploy/Phases.antt =====
-- The proxies of a batch, deployed in parallel by `deployBatch` of hardhat/tasks/deploy/batch-helpers.ts:
-- all implementations, then all proxies, under consecutive nonces. What is awaited together is run here in
-- its order; a timer that fires leaves what its promise did.
pub mod Keys
use rayls_sovereign_contract.Base.{
  ℕ, suc, ◌≡◌, Bool, true, false, Option, none, some, List, [], ◌∷◌, ◌++◌, map, keep_if, get_or,
  find, if◌then◌else◌, ◌===◌,
}
use rayls_sovereign_contract.Base.Text.{Text, codes, decimal, text_eq}
use rayls_sovereign_contract.Base.Outcome.{
  JsError, error, Outcome, ok, err, Exec, pure, throw, continue, each, ◌>>=◌, ◌>>◌, promise_all,
  try_catch,
}
use rayls_sovereign_contract.Deploy.Nonces.{NonceManager, allocate_nonce}
use rayls_sovereign_contract.Deploy.Retry.{retry_on_transient_error}
use rayls_sovereign_contract.Deploy.Artifacts.{Artifact, ForgeJson}
use rayls_sovereign_contract.Deploy.Deployment.{
  DeploymentTask, DeploymentResult, by_name, Deployer, get_factory_for_task,
}
use rayls_sovereign_contract.Deploy.Proxies.{
  ProxyCalls, wants_validation, initializer_of, proxy_contract, of_outcome, factory_for, validate,
}

-- A task, and where it stands in the batch.
abbrev pub Placed : Type 0 → Type 0
Placed Value = DeploymentTask Value × ℕ

-- An action on the world, in a session.
abbrev pub on_world : {W A : Type 0} → Exec W A → Exec (NonceManager × W) A
on_world m (manager, w) = let (r, w') = m w in (r, (manager, w'))

abbrev pub timeout_error : Text → ℕ → JsError
timeout_error label ms =
    error (codes "TIMEOUT: " ++ (label ++ (codes " exceeded " ++ (decimal ms ++ codes "ms"))))

pub record Plan (Value Factory : Type 0) : Type 0 where
  pub placed : Placed Value
  pub factory : Factory

pub record ImplDeployment (Value Factory Contract : Type 0) : Type 0 where
  pub plan : Plan Value Factory
  pub promise : Outcome Contract

pub record Impl (Value Factory : Type 0) : Type 0 where
  pub plan : Plan Value Factory
  pub address : Text
  pub hash : Option Text

pub record ProxyDeployment (Value Factory Contract : Type 0) : Type 0 where
  pub impl : Impl Value Factory
  pub promise : Outcome Contract

pub record Final : Type 0 where
  pub result : DeploymentResult
  pub index : ℕ
  pub impl_address : Text
  pub contract_name : Text

module _ {W Value Abi Links : Type 0} (no_links : Links) (is_no_links : Links → Bool)
    (read_artifact : Text → Exec W (Artifact Abi Links))
    (read_json : Text → Exec W (ForgeJson Abi Links)) (deployer : Deployer W Value Abi Links)
    (calls : ProxyCalls deployer) where
  open deployer use {
    Factory, Contract, make_factory, deploy, deployment_hash, wait_for_deployment, get_address,
  }
  open calls use {encode_initializer, address_value, record_proxy, record_implementation, exceeded}

  abbrev raced : {A : Type 0} → Text → ℕ → Outcome A → Bool × W → Outcome A × W
  raced label ms r (late, w) = ((if late then err (timeout_error label ms) else r), w)

  -- `Promise.race` of the promise and a timer
  abbrev pub with_timeout : {A : Type 0} → Text → ℕ → Exec W A → Exec W A
  with_timeout label ms m w = let (r, w') = m w in raced label ms r (exceeded label ms w')

  -- Phase 1
  abbrev pub plan_for : Placed Value → Exec W (Plan Value Factory)
  plan_for (task, index) =
      with_timeout (codes "getContractFactory(" ++ (task.artifact.contract_name ++ codes ")")) 60000
        (factory_for no_links is_no_links read_artifact read_json deployer calls task)
      >>= λ factory. pure (record { placed = (task, index); factory = factory })

  -- Phase 2: the promise of an implementation under a nonce
  abbrev pub impl_promise : (Plan Value Factory) → ℕ → Exec W Contract
  impl_promise p nonce =
      let label = codes "deploy impl " ++ p.placed.0.name in
      with_timeout label 30000 (retry_on_transient_error (deploy p.factory [] nonce) 3)

  unfoldable pub submit_impls :
      List (Plan Value Factory)
      → NonceManager × W
      → List (ImplDeployment Value Factory Contract) × (NonceManager × W)
  unfolding allocate_nonce retry_on_transient_error
  submit_impls [] s = ([], s)
  submit_impls (p ∷ ps) (m, w) =
      let (nonce, m') = allocate_nonce m in
      let (r, w') = impl_promise p nonce w in
      let (rest, s') = submit_impls ps (m', w') in (record { plan = p; promise = r } ∷ rest, s')

  -- Phase 2b
  abbrev pub await_impl : (ImplDeployment Value Factory Contract) → Exec W (Impl Value Factory)
  await_impl d = do
    contract ← of_outcome d.promise
    _ ← wait_for_deployment contract
    address ← get_address contract
    pure (record { plan = d.plan; address = address; hash = deployment_hash contract })

  -- Phase 3: the promise of a proxy under a nonce
  abbrev pub proxy_promise : Factory → (Impl Value Factory) → Value → ℕ → Exec W Contract
  proxy_promise proxy_factory d init_data nonce =
      let label = codes "deploy proxy " ++ d.plan.placed.0.name in
      with_timeout label 30000 (
        retry_on_transient_error
          (deploy proxy_factory (address_value d.address ∷ init_data ∷ []) nonce) 3)

  abbrev pub init_data_of : (Impl Value Factory) → Outcome Value
  init_data_of d =
      let task = d.plan.placed.0 in
      encode_initializer d.plan.factory (initializer_of task) (get_or task.init_args [])

  -- The nonce is allocated before the initializer is encoded, which may throw.
  unfoldable pub submit_proxies :
      Factory
      → List (Impl Value Factory)
      → Exec (NonceManager × W) (List (ProxyDeployment Value Factory Contract))
  unfolding allocate_nonce retry_on_transient_error
  submit_proxies proxy_factory [] s = (ok [], s)
  submit_proxies proxy_factory (d ∷ ds) (m, w) =
      let (nonce, m') = allocate_nonce m in
      continue (init_data_of d)
        (λ init_data s.
          let (r, s') = on_world (proxy_promise proxy_factory d init_data nonce) s in
          (submit_proxies proxy_factory ds >>= λ rest.
          pure (record { impl = d; promise = r } ∷ rest))
            s')
        (m', w)

  -- Phase 3b
  abbrev pub await_proxy : (ProxyDeployment Value Factory Contract) → Exec W (Final × Option Text)
  await_proxy d = do
    contract ← of_outcome d.promise
    _ ← wait_for_deployment contract
    address ← get_address contract
    pure (
      record {
        result = record {
          name = d.impl.plan.placed.0.name;
          address = address;
          tx_hash = deployment_hash contract;
        };
        index = d.impl.plan.placed.1;
        impl_address = d.impl.address;
        contract_name = d.impl.plan.placed.0.artifact.contract_name;
      },
      deployment_hash contract,
    )

  -- `implsWithAddresses.find(d => d.implAddress === implAddress)`
  abbrev impl_hash : Option (Impl Value Factory) → Option Text
  impl_hash none = none
  impl_hash (some d) = d.hash

  abbrev record_impl : Final → Option Text → Exec W (Unit {0})
  record_impl f none = pure tt
  record_impl f (some hash) = record_implementation f.impl_address hash f.contract_name

  abbrev record_final : List (Impl Value Factory) → Final × Option Text → Exec W (Unit {0})
  record_final impls (f, none) = pure tt
  record_final impls (f, some hash) =
      record_proxy f.result.address hash
      >> record_impl f (impl_hash (find (λ d. d.address === f.impl_address) impls))

  abbrev submit :
      List (Plan Value Factory)
      → Exec (NonceManager × W) (List (ImplDeployment Value Factory Contract))
  submit plans s = let (ds, s') = submit_impls plans s in (ok ds, s')

  abbrev pub record_all :
      List (Impl Value Factory) → List (Final × Option Text) → Exec W (List Final)
  record_all impls finals =
      each (record_final impls) finals >>= λ recorded. pure (map (λ f. f.0) finals)

  -- From Phase 3b on
  abbrev pub finish :
      List (Impl Value Factory)
      → List (ProxyDeployment Value Factory Contract)
      → Exec W (List Final)
  finish impls proxy_deployments =
      with_timeout (codes "wait for all proxies") 60000 (promise_all await_proxy proxy_deployments)
      >>= record_all impls

  -- From Phase 3 on
  abbrev pub deploy_for_impls :
      Factory → List (Impl Value Factory) → Exec (NonceManager × W) (List Final)
  deploy_for_impls proxy_factory impls =
      submit_proxies proxy_factory impls >>= λ ds. on_world (finish impls ds)

  -- From Phase 2b on
  abbrev pub await_impls :
      Factory → List (ImplDeployment Value Factory Contract) → Exec (NonceManager × W) (List Final)
  await_impls proxy_factory impl_deployments =
      on_world
        (with_timeout (codes "wait for all impls") 60000 (promise_all await_impl impl_deployments))
      >>= deploy_for_impls proxy_factory

  -- From the factory of the proxies on
  abbrev pub deploy_plans : List (Plan Value Factory) → Exec (NonceManager × W) (List Final)
  deploy_plans plans =
      on_world (
        with_timeout (codes "getContractFactory(RaylsERC1967Proxy)") 60000
          (make_factory (by_name proxy_contract) none))
      >>= λ proxy_factory. submit plans >>= await_impls proxy_factory

  abbrev pub phases : List (Placed Value) → Exec (NonceManager × W) (List Final)
  phases proxies =
      on_world (
        promise_all (λ p. validate no_links is_no_links read_artifact read_json deployer calls p.0)
          (keep_if (λ p. wants_validation p.0) proxies))
      >>= λ validated. on_world (each plan_for proxies) >>= deploy_plans

  abbrev parallel_failed : JsError → Exec (NonceManager × W) (List Final)
  parallel_failed e = throw (error (codes "Parallel proxy deployment failed: " ++ e.message))

  unfoldable pub deploy_proxies_in_parallel :
      List (Placed Value) → Exec (NonceManager × W) (List Final)
  unfolding submit_impls submit_proxies promise_all each get_factory_for_task
  deploy_proxies_in_parallel proxies = try_catch (phases proxies) parallel_failed
