-- ===== src/Deploy/Proxies/Names.antt =====
-- Under which name a proxy is deployed in hardhat/tasks/deploy/batch-helpers.ts.
use rayls_sovereign_contract.Base.{◌≡◌, refl, Bool, none, List, [], ◌∷◌, get_or, if◌then◌else◌}
use rayls_sovereign_contract.Base.Text.{Text}
use rayls_sovereign_contract.Base.Outcome.{Exec, pure, ◌>>=◌, Always, Always-then}
use rayls_sovereign_contract.Deploy.Artifacts.{Artifact, ForgeJson}
use rayls_sovereign_contract.Deploy.Deployment.{DeploymentTask, DeploymentResult, by_name, Deployer}
use rayls_sovereign_contract.Deploy.Proxies.{
  ProxyCalls, wants_validation, initializer_of, of_outcome, proxy_contract, factory_for, validate,
  recorded, note_down, settle, point_to, take_proxy_factory, deploy_impl,
  deploy_proxy_without_nonce,
}

module _ {W Value Abi Links : Type 0} (no_links : Links) (is_no_links : Links → Bool)
    (read_artifact : Text → Exec W (Artifact Abi Links))
    (read_json : Text → Exec W (ForgeJson Abi Links)) (deployer : Deployer W Value Abi Links)
    (calls : ProxyCalls deployer) (task : DeploymentTask Value) where
  open deployer use {Factory, Contract, make_factory, wait_for_deployment, get_address}
  open calls use {deploy_next, encode_initializer, address_value}

  abbrev Named : DeploymentResult → Type 0
  Named r = r.name ≡ task.name

  settle-Named :
      (impl_address : Text) (impl proxy : Contract)
      → Always Named (
          settle no_links is_no_links read_artifact read_json deployer calls task impl_address impl
            proxy)
  settle-Named impl_address impl proxy =
      Always-then Named (wait_for_deployment proxy)
        (λ u.
          get_address proxy
          >>= note_down no_links is_no_links read_artifact read_json deployer calls task
              impl_address impl proxy)
        (λ u.
          Always-then Named (get_address proxy)
            (note_down no_links is_no_links read_artifact read_json deployer calls task impl_address
              impl proxy)
            (λ proxy_address.
              Always-then Named
                (recorded no_links is_no_links read_artifact read_json deployer calls
                  task.artifact.contract_name proxy_address impl_address
                  (deployer.deployment_hash proxy) (deployer.deployment_hash impl))
                (λ u'. pure (record {
                  name = task.name;
                  address = proxy_address;
                  tx_hash = deployer.deployment_hash proxy;
                }))
                (λ u' w. refl)))

  point_to-Named :
      (impl_factory : Factory) (submit : List Value → Exec W Contract) (impl : Contract)
      (impl_address : Text)
      → Always Named (
          point_to no_links is_no_links read_artifact read_json deployer calls task impl_factory
            submit impl impl_address)
  point_to-Named impl_factory submit impl impl_address =
      Always-then Named
        (of_outcome
          (encode_initializer impl_factory (initializer_of task) (get_or task.init_args [])))
        (λ init_data.
          submit (address_value impl_address ∷ init_data ∷ [])
          >>= settle no_links is_no_links read_artifact read_json deployer calls task impl_address
              impl)
        (λ init_data.
          Always-then Named (submit (address_value impl_address ∷ init_data ∷ []))
            (settle no_links is_no_links read_artifact read_json deployer calls task impl_address
              impl)
            (settle-Named impl_address impl))

  take_proxy_factory-Named :
      (impl_factory : Factory) (impl : Contract) (impl_address : Text)
      → Always Named (
          take_proxy_factory no_links is_no_links read_artifact read_json deployer calls task
            impl_factory impl impl_address)
  take_proxy_factory-Named impl_factory impl impl_address =
      Always-then Named (make_factory (by_name proxy_contract) none)
        (λ proxy_factory.
          point_to no_links is_no_links read_artifact read_json deployer calls task impl_factory
            (deploy_next proxy_factory) impl impl_address)
        (λ proxy_factory. point_to-Named impl_factory (deploy_next proxy_factory) impl impl_address)

  deploy_impl-Named :
      (impl_factory : Factory)
      → Always Named (
          deploy_impl no_links is_no_links read_artifact read_json deployer calls task impl_factory)
  deploy_impl-Named impl_factory =
      let take =
        take_proxy_factory no_links is_no_links read_artifact read_json deployer calls task
          impl_factory in
      Always-then Named (deploy_next impl_factory [])
        (λ impl. wait_for_deployment impl >>= λ u. get_address impl >>= take impl)
        (λ impl.
          Always-then Named (wait_for_deployment impl) (λ u. get_address impl >>= take impl)
            (λ u.
              Always-then Named (get_address impl) (take impl)
                (take_proxy_factory-Named impl_factory impl)))

  -- A proxy that is deployed on its own bears the task's name.
  pub deploy_proxy_without_nonce-Named :
      Always Named (
        deploy_proxy_without_nonce no_links is_no_links read_artifact read_json deployer calls task)
  unfolding deploy_proxy_without_nonce
  deploy_proxy_without_nonce-Named =
      Always-then Named
        (if wants_validation task
          then validate no_links is_no_links read_artifact read_json deployer calls task
          else pure tt)
        (λ u.
          factory_for no_links is_no_links read_artifact read_json deployer calls task
          >>= deploy_impl no_links is_no_links read_artifact read_json deployer calls task)
        (λ u.
          Always-then Named
            (factory_for no_links is_no_links read_artifact read_json deployer calls task)
            (deploy_impl no_links is_no_links read_artifact read_json deployer calls task)
            deploy_impl-Named)
