-- ===== src/Deploy/Deployment/Answers.antt =====
-- What the deployment of a regular contract answers with, in hardhat/tasks/deploy/batch-helpers.ts.
use rayls_sovereign_contract.Base.{
  ℕ, ◌≡◌, ◌⊎◌, inl, inr, refl, Bool, true, false, ◌&&◌, Option, none, some, [], Bool-cases, get_or,
  if◌then◌else◌,
}
use rayls_sovereign_contract.Base.Text.{Text, codes, truthy, text_beq}
use rayls_sovereign_contract.Base.Outcome.{
  JsError, Outcome, ok, err, Exec, throw, continue, handle, Ensures, Ensures-continue,
}
use rayls_sovereign_contract.Base.Dict.{is_some}
use rayls_sovereign_contract.Deploy.Artifacts.{Artifact, ForgeJson, get_explicit_artifact}
use rayls_sovereign_contract.Deploy.Config.{nonce_expired}
use rayls_sovereign_contract.Deploy.Deployment.{
  DeploymentTask, DeploymentResult, FactorySource, by_name, from_artifact, Deployer, check_artifact,
  factory_source, get_factory_for_task, deploy_regular, deploy_factory, deployed_before,
  deploy_with_nonce,
}

module _ {W Value Abi Links : Type 0} (no_links : Links) (is_no_links : Links → Bool)
    (read_artifact : Text → Exec W (Artifact Abi Links))
    (read_json : Text → Exec W (ForgeJson Abi Links)) (deployer : Deployer W Value Abi Links)
    (task : DeploymentTask Value) where
  -- An artifact has bytecode, and link references where libraries go with its path.
  abbrev pub IsUsable : FactorySource Abi Links → Type 0
  IsUsable (by_name name) = name ≡ task.artifact.contract_name
  IsUsable (from_artifact a) =
      (text_beq a.bytecode (codes "0x") ≡ false)
      × ((truthy task.artifact.artifact_path
            && (is_some task.libraries && is_no_links a.link_references))
          ≡ false)

  check_artifact-IsUsable :
      (o : Option (Artifact Abi Links))
      → Ensures IsUsable
          (check_artifact no_links is_no_links read_artifact read_json deployer task o)
  check_artifact-IsUsable none = refl
  check_artifact-IsUsable (some a) =
      elim (Bool-cases (
        truthy task.artifact.artifact_path
        && (is_some task.libraries && is_no_links a.link_references))) [
          | inl c ↦ rw c tt
          | inr c ↦ elim (Bool-cases (text_beq a.bytecode (codes "0x"))) [
            | inl d ↦ rw (c, d) tt
            | inr d ↦ rw (c, d) (d, c)
          ]
        ]

  -- `getFactoryForTask` takes its factory from the contract's name, or from an artifact that has
  -- bytecode and, where the task gives both a path and libraries, link references.
  pub factory_source-IsUsable :
      (w : W)
      → Ensures IsUsable
          (factory_source no_links is_no_links read_artifact read_json deployer task w).0
  unfolding factory_source
  factory_source-IsUsable w =
      let found =
        get_explicit_artifact no_links read_artifact read_json task.artifact task.name w in
      Ensures-continue IsUsable found.0 _ found.1 λ o _. check_artifact-IsUsable o

  -- The result bears the task's name; it has a transaction's hash only if the task is no proxy.
  abbrev pub IsDeployed : DeploymentResult → Type 0
  IsDeployed r = (r.name ≡ task.name) × ((task.is_proxy ≡ false) ⊎ (r.tx_hash ≡ none))

  deploy_regular-IsDeployed :
      (nonce : ℕ) (factory : deployer.Factory) (w : W)
      → task.is_proxy ≡ false
      → Ensures IsDeployed
          (deploy_regular no_links is_no_links read_artifact read_json deployer task nonce factory
            w).0
  deploy_regular-IsDeployed nonce factory w regular =
      let sent = deployer.deploy factory (get_or task.constructor_args []) nonce w in
      Ensures-continue IsDeployed sent.0 _ sent.1 λ contract _.
        let mined = deployer.wait_for_deployment contract sent.1 in
        Ensures-continue IsDeployed mined.0 _ mined.1 λ _ _.
          let located = deployer.get_address contract mined.1 in
          Ensures-continue IsDeployed located.0 _ located.1 λ address _. (refl, inl regular)

  unless_proxy :
      (b : Bool) (e : JsError) (m : Exec W DeploymentResult) (w : W)
      → (b ≡ false → Ensures IsDeployed (m w).0)
      → Ensures IsDeployed ((if b then throw e else m) w).0
  unless_proxy true e m w h = tt
  unless_proxy false e m w h = h refl

  deploy_factory-IsDeployed :
      (nonce : ℕ) (factory : deployer.Factory) (w : W)
      → Ensures IsDeployed
          (deploy_factory no_links is_no_links read_artifact read_json deployer task nonce factory
            w).0
  deploy_factory-IsDeployed nonce factory w =
      unless_proxy task.is_proxy _
        (deploy_regular no_links is_no_links read_artifact read_json deployer task nonce factory) w
        (deploy_regular-IsDeployed nonce factory w)

  deployed_before-IsDeployed :
      (nonce : ℕ) (e : JsError) (w : W)
      → Ensures IsDeployed
          (deployed_before no_links is_no_links read_artifact read_json deployer task nonce e w).0
  deployed_before-IsDeployed nonce e w = elim (Bool-cases (nonce_expired e)) [
    | inl c ↦ rw c (
        let signed = deployer.get_signer w in
        Ensures-continue IsDeployed signed.0 _ signed.1 λ _ _.
          let at = deployer.signer_address signed.1 in
          Ensures-continue IsDeployed at.0 _ at.1 λ from _. (refl, inr refl))
    | inr c ↦ rw c tt
  ]

  made-IsDeployed :
      (nonce : ℕ) (w : W)
      → Ensures IsDeployed
          (continue
            (get_factory_for_task no_links is_no_links read_artifact read_json deployer task w).0
            (deploy_factory no_links is_no_links read_artifact read_json deployer task nonce)
            (get_factory_for_task no_links is_no_links read_artifact read_json deployer task w).1).0
  made-IsDeployed nonce w =
      let made =
        get_factory_for_task no_links is_no_links read_artifact read_json deployer task w in
      Ensures-continue IsDeployed made.0 _ made.1
        λ factory _. deploy_factory-IsDeployed nonce factory made.1

  -- Where `deployWithNonce` answers, the result bears the task's name; and either the task is no proxy,
  -- or the result has no transaction's hash.
  pub deploy_with_nonce-IsDeployed :
      (nonce : ℕ) (w : W)
      → Ensures IsDeployed
          (deploy_with_nonce no_links is_no_links read_artifact read_json deployer task nonce w).0
  unfolding deploy_with_nonce
  deploy_with_nonce-IsDeployed nonce w = handled _ _ (
      Ensures-continue IsDeployed (deployer.get_signer w).0 _ (deployer.get_signer w).1
        λ _ _. made-IsDeployed nonce (deployer.get_signer w).1)
    where
      handled :
          (o : Outcome DeploymentResult) (w : W)
          → Ensures IsDeployed o
          → Ensures IsDeployed
              (handle
                (deployed_before no_links is_no_links read_artifact read_json deployer task nonce)
                (o, w)).0
      handled (ok r) w h = h
      handled (err e) w h = deployed_before-IsDeployed nonce e w
