-- ===== src/Deploy/Tests.antt =====
-- hardhat/tasks/deploy: runs on small worlds, and the theorems at them.
use rayls_sovereign_contract.Base.{
  false, ℕ, zero, suc, ◌≡◌, refl, true, none, some, List, [], ◌∷◌, map, All, range_from, arith,
}
use rayls_sovereign_contract.Base.Text.{Text, codes, text_eq}
use rayls_sovereign_contract.Base.Outcome.{
  Ensures, error, ok, err, Exec, pure, all_settled, promise_all, fulfilled,
}
use rayls_sovereign_contract.Base.Chunks.{chunks, slices, append_each}
use rayls_sovereign_contract.Deploy.Nonces.{NonceManager, allocate_all, sync}
use rayls_sovereign_contract.Deploy.Nonces.Laws.{nonces-allocate_all, next_nonce-sync}
use rayls_sovereign_contract.Deploy.Retry.{retry_on_transient_error}
use rayls_sovereign_contract.Deploy.Retry.Calls.{WhenTried, retry_on_transient_error-Retried}
use rayls_sovereign_contract.Deploy.Artifacts.{
  ExplicitArtifactRef, text, undefined, ForgeJson, Artifact, get_explicit_artifact,
  validate_artifact_override, load_forge_artifact,
}
use rayls_sovereign_contract.Deploy.Config.{
  ConfigTask, ConfigResult, Calls, get_contract_for_config_task, execute_config_with_nonce,
  send_chunk, check_results, execute_batch_config,
}
use rayls_sovereign_contract.Deploy.Config.Results.{IsSuccess, execute_batch_config-Configured}
use rayls_sovereign_contract.Deploy.Deployment.{
  DeploymentTask, Deployer, factory_source, deploy_with_nonce,
}
use rayls_sovereign_contract.Deploy.Deployment.Answers.{
  IsUsable, IsDeployed, factory_source-IsUsable, deploy_with_nonce-IsDeployed,
}

abbrev manager : NonceManager
manager = record { next_nonce = 7 }

nonces-allocate_all_example : map (λ p. p.1) (allocate_all (codes "ab") manager).0 ≡ range_from 7 2
nonces-allocate_all_example = nonces-allocate_all (codes "ab") manager

abbrev count_eight : Exec Unit ℕ
count_eight w = (ok 8, w)

next_nonce-sync_example :
    (sync count_eight ((allocate_all (codes "ab") manager).1, tt)).1.0.next_nonce ≡ 9
next_nonce-sync_example = next_nonce-sync count_eight (codes "ab") manager tt 8 refl (omega arith)

-- It fails twice, then answers.
abbrev flaky : Exec ℕ ℕ
flaky zero = (ok 5, 0)
flaky (suc n) = (err (error (codes "read ECONNRESET")), n)

retry_on_transient_error-Retried_example : WhenTried flaky 3 2 (retry_on_transient_error flaky 3 2)
retry_on_transient_error-Retried_example = retry_on_transient_error-Retried flaky 3 2

abbrev by_path : ExplicitArtifactRef
by_path = record {
  contract_name = codes "Token";
  artifact_name = none;
  artifact_path = some (codes "out/Token.json");
  artifact_source_name = none;
}

abbrev compiled : Artifact Unit Unit
compiled = record {
  format = codes "hh-sol-artifact-1";
  contract_name = codes "Token";
  source_name = codes "Token.sol";
  abi = tt;
  bytecode = codes "0x60";
  deployed_bytecode = codes "0x60";
  link_references = tt;
  deployed_link_references = tt;
}

abbrev forged : ForgeJson Unit Unit
forged = record {
  format = none;
  contract_name = none;
  source_name = none;
  abi = tt;
  bytecode = text (codes "60");
  deployed_bytecode = undefined;
  link_references = none;
  deployed_link_references = none;
}

abbrev calls : Calls ℕ Unit
calls = record {
  Tx = ℕ;
  hash = (λ tx. tx ∷ []);
  Contract = Unit;
  get_signer = pure tt;
  get_contract =
      get_contract_for_config_task tt (λ name. pure compiled) (λ path. pure forged)
        (λ name address. pure tt) (λ artifact address. pure tt);
  send = (λ contract task nonce. pure nonce);
  wait = (λ tx w. (ok 1, suc w));
}

abbrev task : Text → ConfigTask Unit
task name = record {
  name = name;
  artifact = by_path;
  address = codes "0xa";
  method = codes "grantRole";
  args = [];
}

abbrev tasks : List (ConfigTask Unit)
tasks = task (codes "a") ∷ task (codes "b") ∷ []

abbrev results : List ConfigResult
results =
    record { name = codes "a"; success = true; tx_hash = some (7 ∷ []) }
    ∷ record { name = codes "b"; success = true; tx_hash = some (8 ∷ []) }
    ∷ []

abbrev count_world : Exec ℕ ℕ
count_world w = (ok w, w)

configured : (execute_batch_config calls count_world tasks (manager, 0)).0 ≡ ok results
unfolding execute_batch_config send_chunk check_results execute_config_with_nonce allocate_all sync
    retry_on_transient_error chunks slices append_each promise_all fulfilled all_settled
    get_contract_for_config_task get_explicit_artifact validate_artifact_override
    load_forge_artifact
configured = refl

execute_batch_config-Configured_example :
    (map (λ r. r.name) results ≡ map (λ t. t.name) tasks) × All (IsSuccess calls) results
execute_batch_config-Configured_example =
    execute_batch_config-Configured calls count_world tasks manager 0 results configured

abbrev deployer : Deployer ℕ Unit Unit Unit
deployer = record {
  Factory = Unit;
  Contract = ℕ;
  make_factory = (λ source libraries. pure tt);
  deploy = (λ factory args nonce. pure nonce);
  deployment_hash = (λ contract. some (contract ∷ []));
  wait_for_deployment = (λ contract w. (ok tt, suc w));
  get_address = (λ contract. pure (codes "0xc"));
  get_signer = pure tt;
  signer_address = pure (codes "0xd");
  create_address = (λ from nonce. codes "0xe");
}

abbrev token_task : DeploymentTask Unit
token_task = record {
  name = codes "token";
  artifact = by_path;
  is_proxy = false;
  init_args = none;
  initializer = none;
  constructor_args = none;
  libraries = none;
  validation_opts = none;
}

factory_source-IsUsable_example :
    Ensures
      (IsUsable tt
        (λ links. true)
        (λ name. pure compiled)
        (λ path. pure forged)
        deployer
        token_task)
      (factory_source tt
        (λ links. true)
        (λ name. pure compiled)
        (λ path. pure forged)
        deployer
        token_task
        0).0
factory_source-IsUsable_example =
    factory_source-IsUsable tt (λ links. true) (λ name. pure compiled) (λ path. pure forged)
      deployer token_task 0

deploy_with_nonce-IsDeployed_example :
    Ensures
      (IsDeployed tt
        (λ links. true)
        (λ name. pure compiled)
        (λ path. pure forged)
        deployer
        token_task)
      (deploy_with_nonce tt
        (λ links. true)
        (λ name. pure compiled)
        (λ path. pure forged)
        deployer
        token_task
        7
        0).0
deploy_with_nonce-IsDeployed_example =
    deploy_with_nonce-IsDeployed tt (λ links. true) (λ name. pure compiled) (λ path. pure forged)
      deployer token_task 7 0
