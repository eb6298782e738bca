-- ===== src/Audit/OwnRoles.antt =====
-- `runOwnRolesAudit` of hardhat/tasks/audit/check-roles.ts: the members of each role on chain against
-- the grants that the deployment is expected to have. What it prints is not modelled.
pub mod Verdict
use rayls_sovereign_contract.Base.{
  ℕ, Bool, true, false, ◌||◌, Option, none, some, List, [], ◌∷◌, ◌++◌, map, keep_if, contains,
  get_or, if◌then◌else◌,
}
use rayls_sovereign_contract.Base.Text.{Text, codes, text_eq, to_lower, truthy}
use rayls_sovereign_contract.Base.BigInt.{ℤ, pos, negsuc}
use rayls_sovereign_contract.Base.Outcome.{error, Outcome, ok, err, Exec, pure, throw, ◌>>=◌}
use rayls_sovereign_contract.Base.Dict.{Dict, get, put, has, unique}
use rayls_sovereign_contract.Audit.Env.{ChainType}
use rayls_sovereign_contract.Audit.ExpectedRoles.{ExpectedRoleEntry, expected_own_roles}
use rayls_sovereign_contract.Audit.Fetch.{fetch_in_batches, default_fetch_batch_size}
use rayls_sovereign_contract.Audit.Relayers.{no_manager, access_manager_contract_name}
use rayls_sovereign_contract.Audit.SelectorsTask.{no_address}

pub data OwnStatus : Type 0 where
  is_ok missing unexpected info : OwnStatus

pub record OwnRoleFinding : Type 0 where
  pub role_name : Text
  pub role_id : ℤ
  pub account : Text
  pub status : OwnStatus
  pub source : Option Text

-- `UNREGISTERED_ROLE_SENTINEL`
abbrev pub unregistered_role_sentinel : ℤ
unregistered_role_sentinel = negsuc 0

-- What the audit reads of a role.
pub record RoleInfo : Type 0 where
  pub role_id : ℕ
  pub label : Text

pub record OnChainRole : Type 0 where
  pub id : ℕ
  pub members : List Text

-- `nameToAddr.set(regNames[i]!, regAddrs[i]!.toLowerCase())`
unfoldable pub names_to_addresses :
    List Text → List Text → Dict Text Text → Outcome (Dict Text Text)
unfolding put
names_to_addresses [] addresses d = ok d
names_to_addresses (name ∷ names) [] d = err no_address
names_to_addresses (name ∷ names) (address ∷ addresses) d =
    names_to_addresses names addresses (put d name (to_lower address))

-- `onChainRoleByName.set(r.label, …)`. The members come one list per role.
unfoldable pub roles_by_name :
    List RoleInfo → List (List Text) → Dict Text OnChainRole → Dict Text OnChainRole
unfolding put unique
roles_by_name [] members d = d
roles_by_name (r ∷ rs) [] d = d
roles_by_name (r ∷ rs) (members ∷ rest) d =
    roles_by_name rs rest
      (put d r.label (record { id = r.role_id; members = unique (map to_lower members) }))

-- `<${grantee}: not in registry>`
abbrev pub not_in_registry : Text → Text
not_in_registry grantee = codes "<" ++ (grantee ++ codes ": not in registry>")

-- The grantees of a role that is not registered.
unfoldable pub unregistered_findings : Dict Text Text → Text → List Text → List OwnRoleFinding
unregistered_findings name_to_addr role_name [] = []
unregistered_findings name_to_addr role_name (grantee ∷ grantees) =
    record {
      role_name = role_name;
      role_id = unregistered_role_sentinel;
      account = get_or (get name_to_addr grantee) (not_in_registry grantee);
      status = missing;
      source =
          some
            (codes "expected role '" ++ (role_name ++ codes "' not registered on AccessManager"));
    }
    ∷ unregistered_findings name_to_addr role_name grantees

-- The grantees without an entry in the registry.
unfoldable pub unresolved_findings : Dict Text Text → Text → ℕ → List Text → List OwnRoleFinding
unresolved_findings name_to_addr role_name id [] = []
unresolved_findings name_to_addr role_name id (grantee ∷ grantees) =
    let rest = unresolved_findings name_to_addr role_name id grantees in
    if truthy (get name_to_addr grantee)
    then rest
    else record {
      role_name = role_name;
      role_id = pos id;
      account = not_in_registry grantee;
      status = missing;
      source = some (codes "registry has no entry for this expected grantee");
    }
      ∷ rest

-- `expectedAddrs`: the addresses of the others, with their names.
unfoldable pub expected_addrs : Dict Text Text → List Text → Dict Text Text → Dict Text Text
unfolding put
expected_addrs name_to_addr [] d = d
expected_addrs name_to_addr (grantee ∷ grantees) d = expected_addrs name_to_addr grantees (
    if truthy (get name_to_addr grantee)
    then put d (get_or (get name_to_addr grantee) []) grantee
    else d)

-- `for (const [addr, label] of expectedAddrs)`
unfoldable pub grantee_findings : Text → OnChainRole → Dict Text Text → List OwnRoleFinding
grantee_findings role_name role [] = []
grantee_findings role_name role ((address, label) ∷ expected) =
    record {
      role_name = role_name;
      role_id = pos role.id;
      account = address;
      status = if contains role.members address then is_ok else missing;
      source = some label;
    }
    ∷ grantee_findings role_name role expected

-- `for (const member of onChain.members) if (!expectedAddrs.has(member))`
unfoldable pub unexpected_members : Text → ℕ → Dict Text Text → List Text → List OwnRoleFinding
unexpected_members role_name id expected [] = []
unexpected_members role_name id expected (member ∷ members) =
    let rest = unexpected_members role_name id expected members in
    if has expected member
    then rest
    else record {
      role_name = role_name;
      role_id = pos id;
      account = member;
      status = unexpected;
      source = none;
    }
      ∷ rest

module _ (name_to_addr : Dict Text Text) where
  abbrev pub role_findings : ExpectedRoleEntry → Option OnChainRole → List OwnRoleFinding
  role_findings entry none =
      unregistered_findings name_to_addr entry.role_name entry.expected_grantees
  role_findings entry (some role) =
      let expected = expected_addrs name_to_addr entry.expected_grantees [] in
      unresolved_findings name_to_addr entry.role_name role.id entry.expected_grantees
      ++ grantee_findings entry.role_name role expected
      ++ (if entry.allow_unexpected
          then []
          else unexpected_members entry.role_name role.id expected role.members)

  -- `for (const entry of expected)`
  unfoldable pub own_findings : Dict Text OnChainRole → List ExpectedRoleEntry → List OwnRoleFinding
  unfolding unregistered_findings unresolved_findings expected_addrs grantee_findings
      unexpected_members
  own_findings roles [] = []
  own_findings roles (entry ∷ entries) =
      role_findings entry (get roles entry.role_name) ++ own_findings roles entries

pub record UnauditedRole : Type 0 where
  pub role_id : ℕ
  pub role_name : Text
  pub members : List Text

-- The roles on chain that no entry names.
unfoldable pub unaudited_roles : List Text → Dict Text OnChainRole → List UnauditedRole
unaudited_roles expected_role_names [] = []
unaudited_roles expected_role_names ((name, role) ∷ roles) =
    let rest = unaudited_roles expected_role_names roles in
    if contains expected_role_names name
    then rest
    else record { role_id = role.id; role_name = name; members = role.members } ∷ rest

abbrev pub is_blocker : OwnStatus → Bool
is_blocker is_ok = false
is_blocker missing = true
is_blocker unexpected = true
is_blocker info = false

abbrev pub blockers : List OwnRoleFinding → List OwnRoleFinding
blockers = keep_if (λ f. is_blocker f.status)

-- `process.exitCode` after the verdict.
abbrev pub own_exit_code : List OwnRoleFinding → Bool → Option ℕ → Option ℕ
own_exit_code [] report_only code = code
own_exit_code (f ∷ fs) true code = code
own_exit_code (f ∷ fs) false code = some 1

pub record OwnRolesAuditResult : Type 0 where
  pub findings : List OwnRoleFinding
  pub manager_address : Text
  pub unaudited : List UnauditedRole

-- The registry and the manager that the audit reads.
pub record OwnRolesChain (W : Type 0) : Type 0 where
  -- `registry.getContract(name)`
  pub get_contract : Text → Exec W Text
  -- `registry.getAllContracts()`
  pub get_all_contracts : Exec W (List Text × List Text)
  -- `manager.getAllRoles()`
  pub get_all_roles : Text → Exec W (List RoleInfo)
  -- `manager.getRoleMembers(roleId)`
  pub get_role_members : Text → ℕ → Exec W (List Text)

module _ {W : Type 0} (chain : OwnRolesChain W) (task_name : Text) (side : ChainType) where
  abbrev of_outcome : {A : Type 0} → Outcome A → Exec W A
  of_outcome r w = (r, w)

  abbrev pub compare : Text → Dict Text Text → Dict Text OnChainRole → OwnRolesAuditResult
  compare manager name_to_addr roles = record {
    findings = own_findings name_to_addr roles (expected_own_roles side);
    manager_address = manager;
    unaudited = unaudited_roles (map (λ e. e.role_name) (expected_own_roles side)) roles;
  }

  abbrev pub audit_manager : Text → Exec W OwnRolesAuditResult
  audit_manager manager = do
    contracts ← chain.get_all_contracts
    name_to_addr ← of_outcome (names_to_addresses contracts.0 contracts.1 [])
    all_roles ← chain.get_all_roles manager
    members ←
        fetch_in_batches all_roles (λ r. chain.get_role_members manager r.role_id)
          default_fetch_batch_size
    pure (compare manager name_to_addr (roles_by_name all_roles members []))

  unfoldable pub run_own_roles_audit : Exec W OwnRolesAuditResult
  unfolding names_to_addresses roles_by_name own_findings unaudited_roles fetch_in_batches
  run_own_roles_audit = do
    manager ← chain.get_contract access_manager_contract_name
    (if no_manager manager
        then throw (
            error (
              task_name
              ++ (codes ": registry has no " ++ (access_manager_contract_name ++ codes " entry"))))
        else audit_manager manager)
