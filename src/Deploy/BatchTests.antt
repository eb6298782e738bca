-- ===== src/Deploy/BatchTests.antt =====
-- hardhat/tasks/deploy/batch-helpers.ts: a batch with proxies and regular contracts, and the theorem at it.
use rayls_sovereign_contract.Base.{
  ℕ, suc, ◌≡◌, refl, Bool, true, false, Option, none, some, List, [], ◌∷◌,
}
use rayls_sovereign_contract.Base.Text.{Text, codes, decimal}
use rayls_sovereign_contract.Base.Outcome.{
  error, ok, Exec, pure, throw, each, all_settled, fulfilled, promise_all, Ensures,
}
use rayls_sovereign_contract.Base.Dict.{get, put}
use rayls_sovereign_contract.Base.Chunks.{Pairwise, slices, chunks, append_each}
use rayls_sovereign_contract.Deploy.Nonces.{NonceManager, allocate_nonce, allocate_all}
use rayls_sovereign_contract.Deploy.Retry.{retry_on_transient_error}
use rayls_sovereign_contract.Deploy.Artifacts.{
  Artifact, ForgeJson, ExplicitArtifactRef, validate_artifact_override, get_explicit_artifact,
}
use rayls_sovereign_contract.Deploy.Deployment.{
  DeploymentTask, DeploymentResult, Deployer, factory_source, get_factory_for_task,
  deploy_with_nonce,
}
use rayls_sovereign_contract.Deploy.Proxies.{ProxyCalls}
use rayls_sovereign_contract.Deploy.Phases.{
  submit_impls, submit_proxies, deploy_proxies_in_parallel,
}
use rayls_sovereign_contract.Deploy.Batch.{
  set_results, in_order, deploy_chunk, deploy_regulars, deploy_batch, attempts,
  deploy_batch_with_retry,
}
use rayls_sovereign_contract.Deploy.Batch.Places.{Answers}
use rayls_sovereign_contract.Deploy.Batch.Results.{deploy_batch_with_retry-Answers}

abbrev no_artifact : Text → Exec ℕ (Artifact Unit Unit)
no_artifact name = throw (error (codes "no artifact"))

abbrev no_json : Text → Exec ℕ (ForgeJson Unit Unit)
no_json path = throw (error (codes "no file"))

-- The address of what a nonce creates is the nonce.
abbrev deployer : Deployer ℕ Unit Unit Unit
deployer = record {
  Factory = Unit;
  Contract = ℕ;
  make_factory = (λ source libraries. pure tt);
  deploy = (λ factory args nonce. pure nonce);
  deployment_hash = (λ contract. some (codes "0xf"));
  wait_for_deployment = (λ contract w. (ok tt, suc w));
  get_address = (λ contract. pure (decimal contract));
  get_signer = pure tt;
  signer_address = pure (codes "0xd");
  create_address = (λ from nonce. codes "0xe");
}

abbrev calls : ProxyCalls deployer
calls = record {
  deploy_next = (λ factory args. pure 0);
  encode_initializer = (λ factory name args. ok tt);
  address_value = (λ address. tt);
  validate_implementation = (λ factory options name. pure tt);
  record_proxy = (λ address hash. pure tt);
  record_implementation = (λ address hash name. pure tt);
  exceeded = (λ label ms w. (false, w));
}

abbrev by_name_only : Text → ExplicitArtifactRef
by_name_only name = record {
  contract_name = name;
  artifact_name = none;
  artifact_path = none;
  artifact_source_name = none;
}

abbrev task : Text → Bool → DeploymentTask Unit
task name is_proxy = record {
  name = name;
  artifact = by_name_only name;
  is_proxy = is_proxy;
  init_args = none;
  initializer = none;
  constructor_args = none;
  libraries = none;
  validation_opts = none;
}

abbrev mixed : List (DeploymentTask Unit)
mixed =
    task (codes "Registry") false
    ∷ task (codes "Endpoint") true
    ∷ task (codes "Token") false
    ∷ task (codes "Teleport") true
    ∷ []

abbrev manager : NonceManager
manager = record { next_nonce = 7 }

abbrev batch : Exec (NonceManager × ℕ) (List (Option DeploymentResult))
batch =
    deploy_batch_with_retry tt (λ links. true) no_artifact no_json deployer calls (pure 13) 3 mixed

-- The implementations take the nonces 7 and 8, the proxies 9 and 10, and the regular contracts 11 and 12.
batch_test :
    (batch (manager, 0)).0
    ≡ ok (
        some
          (record { name = codes "Registry"; address = codes "11"; tx_hash = some (codes "0xf") })
        ∷ some
            (record { name = codes "Endpoint"; address = codes "9"; tx_hash = some (codes "0xf") })
        ∷ some (record { name = codes "Token"; address = codes "12"; tx_hash = some (codes "0xf") })
        ∷ some
            (record { name = codes "Teleport"; address = codes "10"; tx_hash = some (codes "0xf") })
        ∷ [])
unfolding deploy_batch_with_retry attempts deploy_batch deploy_regulars deploy_chunk set_results
    in_order deploy_proxies_in_parallel submit_impls submit_proxies get_factory_for_task
    factory_source get_explicit_artifact validate_artifact_override deploy_with_nonce
    retry_on_transient_error allocate_nonce allocate_all chunks slices append_each each all_settled
    fulfilled promise_all get put decimal
batch_test = refl

deploy_batch_with_retry-Answers_example : Ensures (Pairwise Answers mixed) (batch (manager, 0)).0
deploy_batch_with_retry-Answers_example =
    deploy_batch_with_retry-Answers tt (λ links. true) no_artifact no_json deployer calls (pure 13)
      3 mixed (manager, 0)
