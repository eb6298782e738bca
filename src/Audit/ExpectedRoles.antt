-- ===== src/Audit/ExpectedRoles.antt =====
-- hardhat/tasks/audit/expected-roles: the role grants that a deployment is expected to have on each chain.
-- The notes of the entries are not modelled.
use rayls_sovereign_contract.Base.{Bool, true, false, List, [], ◌∷◌}
use rayls_sovereign_contract.Base.Text.{Text, codes}
use rayls_sovereign_contract.Audit.Env.{ChainType, pn, pnh, pc}

pub record ExpectedRoleEntry : Type 0 where
  pub role_name : Text
  pub expected_grantees : List Text
  -- false where it is left out
  pub allow_unexpected : Bool

abbrev pub expected_pnh_roles : List ExpectedRoleEntry
expected_pnh_roles =
    record {
      role_name = codes "ENYGMA_CREATOR";
      expected_grantees = codes "EnygmaTokenManager" ∷ [];
      allow_unexpected = false;
    }
    ∷ record {
      role_name = codes "DVP_FACTORY_CALLER";
      expected_grantees = codes "TokenCore" ∷ [];
      allow_unexpected = false;
    }
    ∷ record {
      role_name = codes "REGISTRY_CALLER";
      expected_grantees = codes "EnygmaFactory" ∷ [];
      allow_unexpected = false;
    }
    ∷ record {
      role_name = codes "ENDPOINT_SENDER";
      expected_grantees =
          codes "TokenCore" ∷ codes "TokenFreezeManager" ∷ codes "ParticipantCore" ∷ [];
      allow_unexpected = true;
    }
    ∷ record {
      role_name = codes "FACTORY_ADMIN";
      expected_grantees =
          codes "EnygmaFactory"
          ∷ codes "Dvp"
          ∷ codes "DvpErc721Factory"
          ∷ codes "DvpErc1155Factory"
          ∷ [];
      allow_unexpected = false;
    }
    ∷ record {
      role_name = codes "DVP_CONTRACT";
      expected_grantees = codes "Dvp" ∷ [];
      allow_unexpected = false;
    }
    ∷ record {
      role_name = codes "RESOURCE_REGISTRAR";
      expected_grantees = codes "Endpoint" ∷ codes "EnygmaTokenManager" ∷ codes "TokenCore" ∷ [];
      allow_unexpected = false;
    }
    ∷ record {
      role_name = codes "MESSAGE_RECEIVER";
      expected_grantees = codes "MessageReceiver" ∷ [];
      allow_unexpected = false;
    }
    ∷ []

abbrev pub expected_pn_roles : List ExpectedRoleEntry
expected_pn_roles =
    record {
      role_name = codes "FACTORY_ADMIN";
      expected_grantees = codes "ContractFactory" ∷ codes "TokenRegistryReplica" ∷ [];
      allow_unexpected = false;
    }
    ∷ record {
      role_name = codes "FACTORY_DEPLOYER";
      expected_grantees = codes "RNEndpoint" ∷ codes "ResourceManager" ∷ [];
      allow_unexpected = false;
    }
    ∷ record {
      role_name = codes "ENDPOINT_SENDER";
      expected_grantees = codes "ParticipantStorage" ∷ codes "TokenRegistryReplica" ∷ [];
      allow_unexpected = true;
    }
    ∷ record {
      role_name = codes "TOKEN_CREATOR";
      expected_grantees = codes "TokenRegistryReplica" ∷ [];
      allow_unexpected = false;
    }
    ∷ record {
      role_name = codes "MESSAGE_EXECUTOR";
      expected_grantees = codes "MessageExecutor" ∷ codes "RNMessageExecutor" ∷ [];
      allow_unexpected = false;
    }
    ∷ record {
      role_name = codes "MESSAGE_RECEIVER";
      expected_grantees = codes "MessageReceiver" ∷ [];
      allow_unexpected = false;
    }
    ∷ record {
      role_name = codes "RESOURCE_REGISTRAR";
      expected_grantees = codes "Endpoint" ∷ codes "TokenRegistryReplica" ∷ [];
      allow_unexpected = false;
    }
    ∷ []

abbrev pub expected_pc_roles : List ExpectedRoleEntry
expected_pc_roles =
    record {
      role_name = codes "MESSAGE_EXECUTOR";
      expected_grantees = codes "RNMessageExecutor" ∷ [];
      allow_unexpected = false;
    }
    ∷ record {
      role_name = codes "AUTHORIZED_SENDER";
      expected_grantees = [];
      allow_unexpected = true;
    }
    ∷ []

-- `EXPECTED_OWN_ROLES[chain]`
abbrev pub expected_own_roles : ChainType → List ExpectedRoleEntry
expected_own_roles pnh = expected_pnh_roles
expected_own_roles pn = expected_pn_roles
expected_own_roles pc = expected_pc_roles
