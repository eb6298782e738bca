-- ===== src/Audit/SelectorsTask.antt =====
-- `runOnchainSelectorsAudit` of hardhat/tasks/audit/check-onchain-selectors.ts as a whole, and the three
-- tasks that call it. The chain, the artifacts and the object literals of the deploy tasks are
-- parameters; what it prints is not modelled.
pub mod Verdict
use rayls_sovereign_contract.Base.{
  ℕ, ◌≡◌, Bool, true, false, not, Option, none, some, List, [], ◌∷◌, ◌++◌, map, keep_if, contains,
  ltb, if◌then◌else◌, get_or,
}
use rayls_sovereign_contract.Base.Text.{
  Text, codes, decimal, text_eq, to_lower, split, trim, truthy,
}
use rayls_sovereign_contract.Base.Outcome.{
  error, JsError, Outcome, ok, err, Exec, pure, throw, ◌>>=◌,
}
use rayls_sovereign_contract.Base.Dict.{Dict, put, unique}
use rayls_sovereign_contract.Audit.Env.{
  ChainType, pn, pnh, pc, Scope, resolve_rpc_url_by_chain, resolve_registry_address,
}
use rayls_sovereign_contract.Audit.Logs.{fetch_logs_chunked}
use rayls_sovereign_contract.Audit.StartBlock.{StartingBlockResolution, resolve_starting_block}
use rayls_sovereign_contract.Audit.Relayers.{
  no_manager, access_manager_contract_name, event_log_chunk,
}
use rayls_sovereign_contract.Audit.Replay.{Position}
use rayls_sovereign_contract.Audit.AbiFiles.{JsonFile, load_abi}
use rayls_sovereign_contract.Audit.RegistryNames.{Property, build_registry_name_to_artifact_name}
use rayls_sovereign_contract.Audit.SelectorIndex.{build_selector_index}
use rayls_sovereign_contract.Audit.Selectors.{
  Change, added, removed, MappingArgs, Mapping, live_mappings, role_names,
}
use rayls_sovereign_contract.Audit.Selectors.Resolve.{
  entries, selectors_by_target, resolved_by_address,
}
use rayls_sovereign_contract.Audit.Selectors.Findings.{
  SelectorFinding, findings_of, stale_findings, exit_code,
}

-- The names of `--contracts`, or `null` if there are none
abbrev filter_of : List Text → Option (List Text)
filter_of [] = none
filter_of (n ∷ ns) = some (unique (n ∷ ns))

abbrev is_filled : Text → Bool
is_filled [] = false
is_filled (c ∷ t) = true

unfoldable pub contract_filter : Text → Option (List Text)
unfolding split trim unique
contract_filter contracts = filter_of (keep_if is_filled (map trim (split b',' contracts)))

abbrev pub no_address : JsError
no_address = error (codes "Cannot read properties of undefined (reading 'toLowerCase')")

abbrev pub selected : Option (List Text) → Text → Bool
selected none name = true
selected (some names) name = contains names name

-- `for (let i = 0; i < names.length; i++)`, over the entries of the registry
unfoldable pub addresses_of :
    Option (List Text) → List Text → List Text → Dict Text Text → Outcome (Dict Text Text)
unfolding put
addresses_of filter_set [] addresses d = ok d
addresses_of filter_set (name ∷ names) [] d =
    let rest = addresses_of filter_set names [] d in
    if selected filter_set name then err no_address else rest
addresses_of filter_set (name ∷ names) (address ∷ addresses) d =
    let skipped = addresses_of filter_set names addresses d in
    let rest = addresses_of filter_set names addresses (put d (to_lower address) name) in
    if selected filter_set name then rest else skipped

-- With a filter, some entry must be left.
abbrev check_matches : Option (List Text) → Dict Text Text → Outcome (Dict Text Text)
check_matches none d = ok d
check_matches (some names) (entry ∷ d) = ok (entry ∷ d)
check_matches (some names) [] =
    err (error (codes "--contracts filter matched zero registry entries; nothing to audit"))

abbrev after_matches : Option (List Text) → Outcome (Dict Text Text) → Outcome (Dict Text Text)
after_matches filter_set (ok d) = check_matches filter_set d
after_matches filter_set (err e) = err e

unfoldable pub addr_to_name : Option (List Text) → List Text × List Text → Outcome (Dict Text Text)
unfolding addresses_of
addr_to_name filter_set (names, addresses) =
    after_matches filter_set (addresses_of filter_set names addresses [])

-- `filterSet ? new Set(addrToName.keys()) : null`
abbrev pub filter_target_addrs : Option (List Text) → Dict Text Text → Option (List Text)
filter_target_addrs none d = none
filter_target_addrs (some names) d = some (map (λ entry. entry.0) d)

pub record SelectorsAuditResult : Type 0 where
  pub findings : List SelectorFinding
  pub manager_address : Text
  pub registry_address : Text

-- The chain at an RPC URL and a registry, and ethers' decoding of its logs.
pub record SelectorsChain (W : Type 0) : Type 1 where
  pub Log : Type 0
  pub RoleLog : Type 0
  pub position : Log → Position
  pub parse_log : Log → Outcome (Option MappingArgs)
  pub parse_role_log : RoleLog → Outcome (Option (ℕ × Text))
  -- `registry.getAllContracts()`
  pub get_all_contracts : Exec W (List Text × List Text)
  -- `registry.getContract(name)`
  pub get_contract : Text → Exec W Text
  pub get_block_number : Exec W ℕ
  pub get_code : Text → ℕ → Exec W Text
  -- `getLogs` of the manager, for the topic of a change
  pub get_logs : Text → Change → ℕ → ℕ → Exec W (List Log)
  -- `getLogs` of the manager, for the topic of `RoleRegistered`
  pub get_role_logs : Text → ℕ → ℕ → Exec W (List RoleLog)

-- The files of the repository that the audit reads, and how ethers reads an ABI.
pub record Repository (Abi : Type 0) : Type 0 where
  pub files : List (JsonFile Abi)
  pub literals : List (List Property)
  pub selectors : Abi → List Text
  pub function_count : Abi → ℕ
  pub signature_of : Abi → Text → Option Text
  pub locale_le : Text → Text → Bool

abbrev of_outcome : {W A : Type 0} → Outcome A → Exec W A
of_outcome r w = (r, w)

module _ {Abi : Type 0} (repository : Repository Abi) where
  open repository use {files, literals, selectors, function_count, signature_of, locale_le}

  -- Steps 6 and 7: from the live mappings to the findings.
  unfoldable pub report : Dict Text Text → Dict ℕ Text → List Mapping → List SelectorFinding
  unfolding findings_of resolved_by_address selectors_by_target load_abi build_selector_index
  report names roles live =
      findings_of signature_of (load_abi files) names roles
        (resolved_by_address function_count locale_le signature_of (load_abi files)
          (build_registry_name_to_artifact_name literals) (build_selector_index selectors files)
          names (selectors_by_target live []))
        live

  module _ {W : Type 0} (chain : SelectorsChain W) (variables : Text → Option Text) (scope : Scope)
      (registry_address from_block_arg contracts_arg : Text) where
    open chain use {
      Log, RoleLog, position, parse_log, parse_role_log, get_all_contracts, get_contract,
      get_block_number, get_code, get_logs, get_role_logs,
    }

    -- Steps 3 to 7. The three scans are awaited together; here one ends before the next starts.
    abbrev pub scan_and_report : Dict Text Text → Text → ℕ → ℕ → Exec W SelectorsAuditResult
    scan_and_report names manager from_block latest = do
      added_logs ← fetch_logs_chunked (get_logs manager added) from_block latest event_log_chunk
      removed_logs ← fetch_logs_chunked (get_logs manager removed) from_block latest event_log_chunk
      role_logs ← fetch_logs_chunked (get_role_logs manager) from_block latest event_log_chunk
      pure (record {
        findings = report names (role_names parse_role_log role_logs ([], 0)).0 (
            entries
              (live_mappings position parse_log names
                (filter_target_addrs (contract_filter contracts_arg) names) added_logs
                removed_logs).live);
        manager_address = manager;
        registry_address = registry_address;
      })

    abbrev pub audit_manager : Dict Text Text → Text → Exec W SelectorsAuditResult
    audit_manager names manager = do
      latest ← get_block_number
      start ←
          resolve_starting_block variables (some from_block_arg) scope (some manager)
            (some (record { get_code = get_code; get_block_number = get_block_number }))
      (if ltb latest start.from_block
          then throw (
              error (
                codes "--from-block "
                ++ (decimal start.from_block
                    ++ (codes " is past the chain head (" ++ (decimal latest ++ codes ")")))))
          else scan_and_report names manager start.from_block latest)

    unfoldable pub run_onchain_selectors_audit : Exec W SelectorsAuditResult
    unfolding addr_to_name contract_filter
    run_onchain_selectors_audit = do
      contracts ← get_all_contracts
      names ← of_outcome (addr_to_name (contract_filter contracts_arg) contracts)
      manager ← get_contract access_manager_contract_name
      (if no_manager manager
          then throw
              (error (codes "registry has no " ++ (access_manager_contract_name ++ codes " entry")))
          else audit_manager names manager)

-- The exit code that the audit leaves. It is the caller's, where the audit throws.
unfoldable pub exit_code_after : Outcome SelectorsAuditResult → Option ℕ → Option ℕ
exit_code_after (ok r) code = exit_code (stale_findings r.findings) code
exit_code_after (err e) code = code

pub record SelectorsArgs : Type 0 where
  pub node : Text
  pub rpc : Text
  pub registry : Text
  pub from_block : Text
  pub contracts : Text

module _ {Abi : Type 0} (repository : Repository Abi) {W : Type 0}
    -- The chain behind an RPC URL, read through a registry.
    (connect : Text → Text → SelectorsChain W) (variables : Text → Option Text) where
  abbrev audit_scope : Scope → SelectorsArgs → Exec W SelectorsAuditResult
  audit_scope scope a = do
    rpc_url ← of_outcome (resolve_rpc_url_by_chain variables scope (some a.rpc))
    registry ← of_outcome (resolve_registry_address variables (some a.registry) scope)
    run_onchain_selectors_audit repository (connect rpc_url registry) variables scope registry
        a.from_block a.contracts

  unfoldable pub pnh_onchain_selectors : SelectorsArgs → Exec W SelectorsAuditResult
  unfolding run_onchain_selectors_audit
  pnh_onchain_selectors a =
      audit_scope
        (record { chain = pnh; node = none; task_name = codes "audit:pnh:onchain-selectors" }) a

  abbrev with_node : ChainType → Text → SelectorsArgs → Exec W SelectorsAuditResult
  with_node chain task_name a =
      if truthy (some a.node)
      then audit_scope (record { chain = chain; node = some a.node; task_name = task_name }) a
      else throw (error (task_name ++ codes ": --pn is required"))

  unfoldable pub pn_onchain_selectors : SelectorsArgs → Exec W SelectorsAuditResult
  unfolding run_onchain_selectors_audit
  pn_onchain_selectors = with_node pn (codes "audit:pn:onchain-selectors")

  unfoldable pub pc_onchain_selectors : SelectorsArgs → Exec W SelectorsAuditResult
  unfolding run_onchain_selectors_audit
  pc_onchain_selectors = with_node pc (codes "audit:pc:onchain-selectors")
