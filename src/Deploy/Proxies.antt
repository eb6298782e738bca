-- ===== src/Deploy/Proxies.antt =====
-- The deployment of one UUPS proxy in hardhat/tasks/deploy/batch-helpers.ts: the implementation, and a proxy
-- that points to it. Beside ethers, the check of an implementation and the manifest's two records are
-- parameters; times are left out.
pub mod Names
use rayls_sovereign_contract.Base.{
  ℕ, suc, ◌≡◌, Bool, true, false, not, Option, none, some, List, [], ◌∷◌, ◌++◌, get_or,
  if◌then◌else◌,
}
use rayls_sovereign_contract.Base.Text.{Text, codes, decimal, truthy}
use rayls_sovereign_contract.Base.Outcome.{
  JsError, error, Outcome, ok, err, Exec, pure, throw, ◌>>=◌, ◌>>◌, try_catch,
}
use rayls_sovereign_contract.Deploy.Artifacts.{Artifact, ForgeJson}
use rayls_sovereign_contract.Deploy.Config.{nonce_expired}
use rayls_sovereign_contract.Deploy.Deployment.{
  ValidationOptions, DeploymentTask, DeploymentResult, by_name, Deployer, get_factory_for_task,
}

-- What the deployment of a proxy calls beside the deployer.
pub record ProxyCalls {W Value Abi Links : Type 0} (deployer : Deployer W Value Abi Links)
    : Type 0 where
  -- `factory.deploy(...args, { gasLimit })`, under the nonce that the signer takes
  pub deploy_next : deployer.Factory → List Value → Exec W deployer.Contract
  -- `factory.interface.encodeFunctionData(initializer, args)`
  pub encode_initializer : deployer.Factory → Text → List Value → Outcome Value
  pub address_value : Text → Value
  -- `validateImplementation`
  pub validate_implementation :
      deployer.Factory → Option ValidationOptions → Text → Exec W (Unit {0})
  -- `manifest.recordProxy`, `manifest.recordImplementation`
  pub record_proxy : Text → Text → Exec W (Unit {0})
  pub record_implementation : Text → Text → Text → Exec W (Unit {0})
  -- Whether a timer of so many milliseconds fires before the labelled promise is settled.
  pub exceeded : Text → ℕ → W → Bool × W

-- `task.validationOpts && !task.validationOpts.skipValidation`
abbrev wants : Option ValidationOptions → Bool
wants none = false
wants (some o) = not o.skip_validation

module _ {Value : Type 0} where
  abbrev pub wants_validation : DeploymentTask Value → Bool
  wants_validation task = wants task.validation_opts

  -- `task.initializer || 'initialize'`
  abbrev pub initializer_of : DeploymentTask Value → Text
  initializer_of task =
      if truthy task.initializer then get_or task.initializer [] else codes "initialize"

abbrev pub of_outcome : {W A : Type 0} → Outcome A → Exec W A
of_outcome r w = (r, w)

abbrev pub proxy_contract : Text
proxy_contract = codes "RaylsERC1967Proxy"

module _ {W Value Abi Links : Type 0} (no_links : Links) (is_no_links : Links → Bool)
    (read_artifact : Text → Exec W (Artifact Abi Links))
    (read_json : Text → Exec W (ForgeJson Abi Links)) (deployer : Deployer W Value Abi Links)
    (calls : ProxyCalls deployer) where
  open deployer use {
    Factory, Contract, make_factory, deploy, deployment_hash, wait_for_deployment, get_address,
    get_signer, signer_address, create_address,
  }
  open calls use {
    deploy_next, encode_initializer, address_value, validate_implementation, record_proxy,
    record_implementation,
  }

  abbrev pub factory_for : DeploymentTask Value → Exec W Factory
  factory_for = get_factory_for_task no_links is_no_links read_artifact read_json deployer

  -- `new ManifestManager(…)`, and the two records, if both transactions are known
  abbrev pub recorded : Text → Text → Text → Option Text → Option Text → Exec W (Unit {0})
  recorded contract_name proxy_address impl_address (some proxy_hash) (some impl_hash) =
      record_proxy proxy_address proxy_hash
      >> record_implementation impl_address impl_hash contract_name
  recorded contract_name proxy_address impl_address (some proxy_hash) none = pure tt
  recorded contract_name proxy_address impl_address none impl_hash = pure tt

  abbrev pub validate : DeploymentTask Value → Exec W (Unit {0})
  validate task = factory_for task >>= λ factory.
      validate_implementation factory task.validation_opts task.artifact.contract_name

  abbrev pub note_down :
      DeploymentTask Value → Text → Contract → Contract → Text → Exec W DeploymentResult
  note_down task impl_address impl proxy proxy_address =
      recorded task.artifact.contract_name proxy_address impl_address (deployment_hash proxy)
        (deployment_hash impl)
      >>= λ u.
          pure
            (record { name = task.name; address = proxy_address; tx_hash = deployment_hash proxy })

  -- From the proxy's transaction on.
  abbrev pub settle : DeploymentTask Value → Text → Contract → Contract → Exec W DeploymentResult
  settle task impl_address impl proxy = wait_for_deployment proxy >>= λ u.
      get_address proxy >>= note_down task impl_address impl proxy

  -- From the implementation's address on; `submit` deploys the proxy with its arguments.
  abbrev pub point_to :
      DeploymentTask Value
      → Factory
      → (List Value → Exec W Contract)
      → Contract
      → Text
      → Exec W DeploymentResult
  point_to task impl_factory submit impl impl_address =
      of_outcome (encode_initializer impl_factory (initializer_of task) (get_or task.init_args []))
      >>= λ init_data.
          submit (address_value impl_address ∷ init_data ∷ []) >>= settle task impl_address impl

  abbrev pub take_proxy_factory :
      DeploymentTask Value → Factory → Contract → Text → Exec W DeploymentResult
  take_proxy_factory task impl_factory impl impl_address =
      make_factory (by_name proxy_contract) none >>= λ proxy_factory.
      point_to task impl_factory (deploy_next proxy_factory) impl impl_address

  -- The implementation, under the signer's next nonce, and what follows it.
  abbrev pub deploy_impl : DeploymentTask Value → Factory → Exec W DeploymentResult
  deploy_impl task impl_factory = do
    impl ← deploy_next impl_factory []
    u ← wait_for_deployment impl
    impl_address ← get_address impl
    take_proxy_factory task impl_factory impl impl_address

  unfoldable pub deploy_proxy_without_nonce : DeploymentTask Value → Exec W DeploymentResult
  unfolding get_factory_for_task
  deploy_proxy_without_nonce task =
      (if wants_validation task then validate task else pure tt) >>= λ u.
      factory_for task >>= deploy_impl task

  -- A nonce that has expired means that the two were deployed before.
  abbrev proxied_before : DeploymentTask Value → ℕ → JsError → Exec W DeploymentResult
  proxied_before task nonce e =
      if nonce_expired e
      then (do
        _ ← get_signer
        from ← signer_address
        pure (record {
          name = task.name;
          address = create_address from (suc nonce);
          tx_hash = none;
        }))
      else throw e

  abbrev two_nonces : DeploymentTask Value → ℕ → Exec W DeploymentResult
  two_nonces task nonce = do
    _ ← get_signer
    impl_factory ← factory_for task
    proxy_factory ← make_factory (by_name proxy_contract) none
    impl ← deploy impl_factory [] nonce
    u ← wait_for_deployment impl
    impl_address ← get_address impl
    point_to task impl_factory (λ args. deploy proxy_factory args (suc nonce)) impl impl_address

  unfoldable pub deploy_manual_proxy : DeploymentTask Value → ℕ → Exec W DeploymentResult
  unfolding get_factory_for_task
  deploy_manual_proxy task nonce = try_catch (two_nonces task nonce) (proxied_before task nonce)
