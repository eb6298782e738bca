-- ===== src/Audit/RolesTasks.antt =====
-- The tasks `audit:pn:roles`, `audit:pc:roles` and `audit:pnh:roles` of
-- hardhat/tasks/audit/check-roles.ts. A task leaves an exit code beside what it answers or throws; the
-- chains behind an RPC URL, CTS and ethers' `isAddress` are parameters.
pub mod ExitCode
use rayls_sovereign_contract.Base.{
  ℕ, ◌≡◌, Bool, true, false, not, ◌&&◌, Option, none, some, List, [], ◌∷◌, ◌++◌, get_or,
  if◌then◌else◌, ◌===◌,
}
use rayls_sovereign_contract.Base.Text.{Text, codes, text_eq, to_lower, truthy}
use rayls_sovereign_contract.Base.Outcome.{
  error, JsError, Outcome, ok, err, Exec, pure, throw, ◌>>=◌,
}
use rayls_sovereign_contract.Base.Dict.{Dict}
use rayls_sovereign_contract.Audit.Env.{
  ChainType, pn, pnh, pc, Scope, resolve_rpc_url_by_chain, resolve_registry_address,
}
use rayls_sovereign_contract.Audit.Cts.{Service, CtsAddressesResponse}
use rayls_sovereign_contract.Audit.Expected.{expected_relayer_addresses}
use rayls_sovereign_contract.Audit.Nodes.{parse_privacy_nodes}
use rayls_sovereign_contract.Audit.OwnRoles.{
  OwnRolesChain, OwnRolesAuditResult, own_exit_code, blockers, run_own_roles_audit,
}
use rayls_sovereign_contract.Audit.Relayers.{
  Chain, RelayerRolesAuditResult, run_relayer_roles_audit, exit_code_after,
}

-- The world, and `process.exitCode`.
abbrev pub State : Type 0 → Type 0
State W = W × Option ℕ

-- An audit, and the exit code that it leaves.
abbrev pub with_exit_code :
    {W A : Type 0} → Exec W A → (Outcome A → Option ℕ → Option ℕ) → Exec (State W) A
with_exit_code audit exit_code_of (w, code) =
    let (r, w') = audit w in (r, (w', exit_code_of r code))

abbrev pub own_exit_code_after : Bool → Outcome OwnRolesAuditResult → Option ℕ → Option ℕ
own_exit_code_after report_only (ok r) code = own_exit_code (blockers r.findings) report_only code
own_exit_code_after report_only (err e) code = code

abbrev pub of_outcome : {W A : Type 0} → Outcome A → Exec W A
of_outcome r w = (r, w)

pub record RolesArgs : Type 0 where
  -- `--pn`, or `--privacy-nodes` of the hub's task
  pub nodes : Text
  pub registry : Text
  pub rpc : Text
  pub role_name : Text
  pub from_block : Text
  -- read by `audit:pn:roles` only
  pub with_public_relayer : Text
  pub report_only : Bool
  pub include_own_roles : Bool
  pub skip_relayers : Bool

abbrev pub nothing_to_audit : Text → JsError
nothing_to_audit task_name = error (
    task_name
    ++ (codes ": --skip-relayers with --include-own-roles omitted leaves nothing to audit. "
        ++ (codes
              "Add --include-own-roles to run the own-roles audit only, or drop --skip-relayers "
            ++ codes "to run the RELAYER audit.")))

abbrev pub nodes_omitted : Text → JsError
nodes_omitted task_name = error (
    task_name
    ++ (codes ": --privacy-nodes omitted and PARTICIPANT_LIST env var is unset. "
        ++ (codes "Pass --privacy-nodes A[,B,C] or export PARTICIPANT_LIST. "
            ++ codes "(Use --skip-relayers with --include-own-roles to audit own-roles only.)")))

module _ {W : Type 0} (own_chain : Text → Text → OwnRolesChain W)
    (relayer_chain : Text → Text → Chain W)
    (fetch_cts_addresses : Text → Service → Exec W CtsAddressesResponse) (is_address : Text → Bool)
    (variables : Text → Option Text) where
  -- `await runOwnRolesAudit(…)`, if it is asked for
  abbrev pub own_roles : Scope → RolesArgs → Text → Text → Exec (State W) (Unit {0})
  own_roles scope a rpc_url registry =
      if a.include_own_roles
      then (with_exit_code
            (run_own_roles_audit (own_chain rpc_url registry) scope.task_name scope.chain)
            (own_exit_code_after a.report_only)
          >>= λ r. pure tt)
      else pure tt

  -- `await expectedRelayerAddresses(…)`, which leaves the exit code as it is
  abbrev pub expected_of : Bool → List Text → ChainType → Exec (State W) (Dict Text Text)
  expected_of include_public_relayer nodes chain =
      with_exit_code
        (expected_relayer_addresses is_address fetch_cts_addresses include_public_relayer nodes
          chain)
        (λ r code. code)

  abbrev pub relayer_roles :
      Scope → RolesArgs → Text → Text → Dict Text Text → Exec (State W) RelayerRolesAuditResult
  relayer_roles scope a rpc_url registry expected =
      let chain = relayer_chain rpc_url registry in
      with_exit_code
        (run_relayer_roles_audit chain variables scope a.from_block a.role_name expected
          a.report_only)
        (exit_code_after chain variables scope a.from_block a.role_name expected a.report_only)

  -- The relayer audit of the nodes, if they are known.
  abbrev pub audit_relayers :
      Scope
      → RolesArgs
      → Bool
      → Text
      → Text
      → Outcome (List Text)
      → Exec (State W) (Option RelayerRolesAuditResult)
  audit_relayers scope a include_public_relayer rpc_url registry nodes = do
    ns ← of_outcome nodes
    expected ← expected_of include_public_relayer ns scope.chain
    r ← relayer_roles scope a rpc_url registry expected
    pure (some r)

  -- What the three tasks have in common.
  unfoldable pub audit_roles :
      Scope
      → RolesArgs
      → Bool
      → Outcome (List Text)
      → Exec (State W) (Option RelayerRolesAuditResult)
  unfolding run_own_roles_audit run_relayer_roles_audit expected_relayer_addresses exit_code_after
  audit_roles scope a include_public_relayer nodes =
      if a.skip_relayers && not a.include_own_roles
      then throw (nothing_to_audit scope.task_name)
      else (do
        rpc_url ← of_outcome (resolve_rpc_url_by_chain variables scope (some a.rpc))
        registry ← of_outcome (resolve_registry_address variables (some a.registry) scope)
        done ← own_roles scope a rpc_url registry
        (if a.skip_relayers
            then pure none
            else audit_relayers scope a include_public_relayer rpc_url registry nodes))

  abbrev needs_pn : Text → Exec (State W) (Option RelayerRolesAuditResult)
  needs_pn task_name = throw (error (task_name ++ codes ": --pn is required"))

  unfoldable pub pn_roles : RolesArgs → Exec (State W) (Option RelayerRolesAuditResult)
  unfolding audit_roles
  pn_roles a =
      let task_name = codes "audit:pn:roles" in
      if truthy (some a.nodes)
      then audit_roles (record { chain = pn; node = some a.nodes; task_name = task_name }) a
          (not (to_lower a.with_public_relayer === codes "false")) (ok (a.nodes ∷ []))
      else needs_pn task_name

  unfoldable pub pc_roles : RolesArgs → Exec (State W) (Option RelayerRolesAuditResult)
  unfolding audit_roles
  pc_roles a =
      let task_name = codes "audit:pc:roles" in
      if truthy (some a.nodes)
      then audit_roles (record { chain = pc; node = some a.nodes; task_name = task_name }) a true
          (ok (a.nodes ∷ []))
      else needs_pn task_name

  -- `args.privacyNodes || process.env.PARTICIPANT_LIST || ''`
  abbrev participants : Text → Text
  participants privacy_nodes =
      if truthy (some privacy_nodes)
      then privacy_nodes
      else get_or (variables (codes "PARTICIPANT_LIST")) []

  abbrev hub_nodes : Text → Text → Outcome (List Text)
  hub_nodes task_name csv =
      if truthy (some csv) then parse_privacy_nodes csv task_name else err (nodes_omitted task_name)

  unfoldable pub pnh_roles : RolesArgs → Exec (State W) (Option RelayerRolesAuditResult)
  unfolding audit_roles parse_privacy_nodes
  pnh_roles a =
      let task_name = codes "audit:pnh:roles" in
      audit_roles (record { chain = pnh; node = none; task_name = task_name }) a true
        (hub_nodes task_name (participants a.nodes))
