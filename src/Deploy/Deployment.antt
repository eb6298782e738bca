-- ===== src/Deploy/Deployment.antt =====
-- The deployment of one regular contract in hardhat/tasks/deploy/batch-helpers.ts. The factories of
-- ethers, what they deploy, and the address that a nonce creates are parameters; times are left out.
pub mod Answers
use rayls_sovereign_contract.Base.{
  ℕ, ◌≡◌, Bool, ◌&&◌, Option, none, some, List, [], ◌∷◌, ◌++◌, get_or, if◌then◌else◌,
}
use rayls_sovereign_contract.Base.Text.{Text, codes, truthy, text_beq}
use rayls_sovereign_contract.Base.Outcome.{
  JsError, error, Outcome, ok, err, Exec, pure, throw, ◌>>=◌, try_catch,
}
use rayls_sovereign_contract.Base.Dict.{Dict, is_some}
use rayls_sovereign_contract.Deploy.Artifacts.{
  ExplicitArtifactRef, Artifact, ForgeJson, get_explicit_artifact,
}
use rayls_sovereign_contract.Deploy.Config.{nonce_expired}

pub record ValidationOptions : Type 0 where
  pub skip_validation : Bool
  pub unsafe_skip_storage_check : Bool
  pub unsafe_skip_proxy_admin_check : Bool
  pub unsafe_allow : Option (List Text)

pub record DeploymentTask (Value : Type 0) : Type 0 where
  pub name : Text
  pub artifact : ExplicitArtifactRef
  pub is_proxy : Bool
  pub init_args : Option (List Value)
  pub initializer : Option Text
  pub constructor_args : Option (List Value)
  pub libraries : Option (Dict Text Text)
  pub validation_opts : Option ValidationOptions

pub record DeploymentResult : Type 0 where
  pub name : Text
  pub address : Text
  pub tx_hash : Option Text

-- Where a factory comes from: Hardhat's lookup by the contract's name, or an artifact.
pub data FactorySource (Abi Links : Type 0) : Type 0 where
  by_name : Text → FactorySource Abi Links
  from_artifact : Artifact Abi Links → FactorySource Abi Links

-- What the deployment calls.
pub record Deployer (W Value Abi Links : Type 0) : Type 1 where
  pub Factory : Type 0
  pub Contract : Type 0
  -- `getContractFactory`, `getContractFactoryFromArtifact`
  pub make_factory : FactorySource Abi Links → Option (Dict Text Text) → Exec W Factory
  -- `factory.deploy(...args, { nonce, gasLimit })`
  pub deploy : Factory → List Value → ℕ → Exec W Contract
  -- `contract.deploymentTransaction()?.hash`
  pub deployment_hash : Contract → Option Text
  pub wait_for_deployment : Contract → Exec W (Unit {0})
  pub get_address : Contract → Exec W Text
  -- `provider.getSigner()`, and of that the address; `getCreateAddress`
  pub get_signer : Exec W (Unit {0})
  pub signer_address : Exec W Text
  pub create_address : Text → ℕ → Text

module _ {W Value Abi Links : Type 0} (no_links : Links) (is_no_links : Links → Bool)
    (read_artifact : Text → Exec W (Artifact Abi Links))
    (read_json : Text → Exec W (ForgeJson Abi Links)) (deployer : Deployer W Value Abi Links) where
  open deployer use {
    Factory, Contract, make_factory, deploy, deployment_hash, wait_for_deployment, get_address,
    get_signer, signer_address, create_address,
  }

  abbrev libraries_without_links : DeploymentTask Value → JsError
  libraries_without_links task = error (
      codes "artifactPath deployment for "
      ++ (task.name ++ codes " declares libraries but its artifact has no linkReferences"))

  -- A path that is not there is written `undefined`.
  abbrev missing_bytecode : DeploymentTask Value → JsError
  missing_bytecode task = error (
      codes "Missing bytecode in artifact for "
      ++ (task.name ++ (codes ": " ++ get_or task.artifact.artifact_path (codes "undefined"))))

  abbrev pub check_artifact :
      DeploymentTask Value → Option (Artifact Abi Links) → Outcome (FactorySource Abi Links)
  check_artifact task none = ok (by_name task.artifact.contract_name)
  check_artifact task (some a) =
      if truthy task.artifact.artifact_path
        && (is_some task.libraries && is_no_links a.link_references)
      then err (libraries_without_links task)
      else if text_beq a.bytecode (codes "0x")
      then err (missing_bytecode task)
      else ok (from_artifact a)

  unfoldable pub factory_source : DeploymentTask Value → Exec W (FactorySource Abi Links)
  unfolding get_explicit_artifact
  factory_source task =
      get_explicit_artifact no_links read_artifact read_json task.artifact task.name >>= λ a w.
      (check_artifact task a, w)

  unfoldable pub get_factory_for_task : DeploymentTask Value → Exec W Factory
  unfolding factory_source
  get_factory_for_task task = factory_source task >>= λ source. make_factory source task.libraries

  abbrev proxy_error : DeploymentTask Value → JsError
  proxy_error task = error (
      codes "UUPS proxies cannot use explicit nonce. Use deployProxyWithoutNonce for " ++ task.name)

  abbrev pub deploy_regular : DeploymentTask Value → ℕ → Factory → Exec W DeploymentResult
  deploy_regular task nonce factory = do
    contract ← deploy factory (get_or task.constructor_args []) nonce
    _ ← wait_for_deployment contract
    address ← get_address contract
    pure (record { name = task.name; address = address; tx_hash = deployment_hash contract })

  abbrev pub deploy_factory : DeploymentTask Value → ℕ → Factory → Exec W DeploymentResult
  deploy_factory task nonce factory =
      if task.is_proxy then throw (proxy_error task) else deploy_regular task nonce factory

  -- A nonce that has expired means that the contract was deployed before, under that nonce.
  abbrev pub deployed_before : DeploymentTask Value → ℕ → JsError → Exec W DeploymentResult
  deployed_before task nonce e =
      if nonce_expired e
      then (do
        _ ← get_signer
        from ← signer_address
        pure (record { name = task.name; address = create_address from nonce; tx_hash = none }))
      else throw e

  unfoldable pub deploy_with_nonce : DeploymentTask Value → ℕ → Exec W DeploymentResult
  unfolding get_factory_for_task
  deploy_with_nonce task nonce =
      try_catch (get_signer >>= λ _. get_factory_for_task task >>= deploy_factory task nonce)
        (deployed_before task nonce)
