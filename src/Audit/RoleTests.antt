-- ===== src/Audit/RoleTests.antt =====
-- hardhat/tasks/audit/check-roles.ts: runs of the own-roles audit and of the tasks, and the theorems at them.
use rayls_sovereign_contract.Base.{
  ℕ, ◌≡◌, ◌↔◌, refl, Bool, true, false, Option, none, some, [], ◌∷◌, map, All,
}
use rayls_sovereign_contract.Base.Text.{Text, codes, text_eq}
use rayls_sovereign_contract.Base.Outcome.{ok, Exec, pure}
use rayls_sovereign_contract.Base.Dict.{Dict, get, put}
use rayls_sovereign_contract.Audit.Env.{pnh, Scope}
use rayls_sovereign_contract.Audit.ExpectedRoles.{expected_pc_roles}
use rayls_sovereign_contract.Audit.Cts.{Service, CtsAddressesResponse}
use rayls_sovereign_contract.Audit.Expected.{expected_relayer_addresses}
use rayls_sovereign_contract.Audit.Expected.Sources.{
  answer, first_label, all_sources, expected_relayer_addresses-first_label,
}
use rayls_sovereign_contract.Audit.OwnRoles.{
  OwnRolesChain, OnChainRole, is_ok, unexpected, own_findings, unregistered_findings,
  unresolved_findings, expected_addrs, grantee_findings, unexpected_members, blockers,
}
use rayls_sovereign_contract.Audit.OwnRoles.Verdict.{IsGranted, blockers-own_findings}
use rayls_sovereign_contract.Audit.Relayers.{Chain}
use rayls_sovereign_contract.Audit.RolesTasks.{RolesArgs, audit_roles}
use rayls_sovereign_contract.Audit.RolesTasks.ExitCode.{KeepsCode, audit_roles-KeepsCode}

abbrev registry : Dict Text Text
registry = (codes "RNMessageExecutor", codes "0xa") ∷ []

-- The role of the executor has a member too many; the other one is open.
abbrev roles : Dict Text OnChainRole
roles =
    (codes "MESSAGE_EXECUTOR", record { id = 3; members = codes "0xa" ∷ codes "0xb" ∷ [] })
    ∷ (codes "AUTHORIZED_SENDER", record { id = 2; members = codes "0xc" ∷ [] })
    ∷ []

own_findings_test :
    (map (λ f. f.account) (own_findings registry roles expected_pc_roles)
      ≡ codes "0xa" ∷ codes "0xb" ∷ [])
    × (map (λ f. f.status) (own_findings registry roles expected_pc_roles)
        ≡ is_ok ∷ unexpected ∷ [])
unfolding own_findings unregistered_findings unresolved_findings expected_addrs grantee_findings
    unexpected_members get put
own_findings_test = (refl, refl)

blockers-own_findings_example :
    (blockers (own_findings registry roles expected_pc_roles) ≡ [])
    ↔ All (λ e. IsGranted registry e (get roles e.role_name)) expected_pc_roles
blockers-own_findings_example = blockers-own_findings registry roles expected_pc_roles

abbrev respond : Text → Service → CtsAddressesResponse
respond node service = record {
  private_chain_addresses = some (codes "0xB" ∷ []);
  private_hub_addresses = some (codes "0xA" ∷ codes "0xb" ∷ []);
  private_hub_dvp_operator_addresses = some (codes "0xa" ∷ []);
  public_chain_addresses = none;
  error_message = none;
}

abbrev start : ℕ
start = 0

abbrev any_address : Text → Bool
any_address a = true

expected_relayer_addresses-first_label_example :
    (out : Dict Text Text) × (expected_relayer_addresses any_address
        (answer any_address respond true)
        true
        (codes "A" ∷ codes "B" ∷ [])
        pnh
        start
      ≡ (ok out, start))
    × ((a : Text)
        → get out a
          ≡ first_label any_address
              (all_sources any_address respond true pnh (codes "A" ∷ codes "B" ∷ []))
              a)
expected_relayer_addresses-first_label_example =
    expected_relayer_addresses-first_label any_address respond true pnh (codes "A" ∷ codes "B" ∷ [])
      start

-- A manager with no role at all, on an empty chain.
abbrev own_chain : Text → Text → OwnRolesChain ℕ
own_chain rpc_url registry_address = record {
  get_contract = (λ name. pure (codes "0xd"));
  get_all_contracts = pure ([], []);
  get_all_roles = (λ manager. pure []);
  get_role_members = (λ manager role_id. pure []);
}

abbrev relayer_chain : Text → Text → Chain ℕ
relayer_chain rpc_url registry_address = record {
  Log = Unit;
  position = (λ log. record { block_number = 0; index = 0 });
  parse_log = (λ log. ok none);
  get_contract = (λ name. pure (codes "0xd"));
  get_role_id_by_name = (λ manager name. pure 1);
  get_block_number = pure 0;
  get_code = (λ address block. pure (codes "0x"));
  get_logs = (λ manager kind role_id from to. pure []);
}

abbrev hub : Scope
hub = record { chain = pnh; node = none; task_name = codes "audit:pnh:roles" }

abbrev args : RolesArgs
args = record {
  nodes = codes "A";
  registry = codes "0xe";
  rpc = codes "http://localhost";
  role_name = codes "RELAYER";
  from_block = codes "0";
  with_public_relayer = codes "true";
  report_only = false;
  include_own_roles = true;
  skip_relayers = false;
}

abbrev variables : Text → Option Text
variables name = none

abbrev fetch : Text → Service → Exec ℕ CtsAddressesResponse
fetch = answer any_address respond true

audit_roles-KeepsCode_example :
    KeepsCode false none
      (audit_roles own_chain relayer_chain fetch any_address variables hub args true
        (ok (codes "A" ∷ []))
        (0, none)).1.1
audit_roles-KeepsCode_example =
    audit_roles-KeepsCode own_chain relayer_chain fetch any_address variables hub args true
      (ok (codes "A" ∷ [])) (0, none)
