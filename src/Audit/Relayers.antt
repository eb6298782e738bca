-- ===== src/Audit/Relayers.antt =====
-- `runRelayerRolesAudit` of hardhat/tasks/audit/check-roles.ts: the holders of a role, replayed from
-- the manager's events, against the addresses that CTS expects. What it prints is not modelled.
pub mod Holders
pub mod Verdict
use rayls_sovereign_contract.Base.{
  ℕ, ◌≡◌, Bool, true, false, not, Option, none, some, List, [], ◌∷◌, ◌++◌, keep_if, contains, ltb,
  nat_beq, if◌then◌else◌,
}
use rayls_sovereign_contract.Base.Text.{Text, codes, decimal, text_eq, text_beq, to_lower}
use rayls_sovereign_contract.Base.Outcome.{error, Outcome, ok, err, Exec, pure, throw, ◌>>=◌}
use rayls_sovereign_contract.Base.Dict.{Dict, has, add, delete}
use rayls_sovereign_contract.Audit.Env.{Scope}
use rayls_sovereign_contract.Audit.Logs.{fetch_logs_chunked}
use rayls_sovereign_contract.Audit.StartBlock.{
  StartingBlockResolution, StartingBlockProvider, resolve_starting_block,
}
use rayls_sovereign_contract.Audit.Replay.{Position, Event, sort, decode}

pub data Kind : Type 0 where
  grant revoke : Kind

pub record RoleChange : Type 0 where
  pub kind : Kind
  pub account : Text

-- `if (ev.kind === 'grant') liveHolders.add(ev.account); else liveHolders.delete(ev.account)`
abbrev pub apply_kind : Kind → List Text → Text → List Text
apply_kind grant live account = add live account
apply_kind revoke live account = delete live account

unfoldable pub replay : List Text → List (Event RoleChange) → List Text
replay live [] = live
replay live (e ∷ es) = replay (apply_kind e.body.kind live e.body.account) es

-- `parsed.args.account.toLowerCase()`
abbrev change : Kind → Outcome (Option Text) → Outcome (Option RoleChange)
change k (ok (some account)) = ok (some (record { kind = k; account = to_lower account }))
change k (ok none) = ok none
change k (err e) = err e

module _ {Log : Type 0} (position : Log → Position) (parse_log : Log → Outcome (Option Text)) where
  -- The events of the two kinds, before they are sorted.
  unfoldable pub role_changes : List Log → List Log → List (Event RoleChange)
  role_changes granted revoked =
      (decode position (λ log. change grant (parse_log log)) granted).0
      ++ (decode position (λ log. change revoke (parse_log log)) revoked).0

  unfoldable pub live_holders : List Log → List Log → List Text
  live_holders granted revoked = replay [] (sort (role_changes granted revoked))

pub data Status : Type 0 where
  is_ok missing unexpected : Status

pub record RelayerRoleFinding : Type 0 where
  pub account : Text
  pub status : Status
  pub source : Option Text

-- `for (const [addr, source] of expected)`
unfoldable pub expected_findings : List Text → Dict Text Text → List RelayerRoleFinding
expected_findings live [] = []
expected_findings live ((account, source) ∷ expected) =
    record {
      account = account;
      status = if contains live account then is_ok else missing;
      source = some source;
    }
    ∷ expected_findings live expected

-- `for (const addr of liveHolders) if (!expected.has(addr))`
unfoldable pub unexpected_findings : Dict Text Text → List Text → List RelayerRoleFinding
unexpected_findings expected [] = []
unexpected_findings expected (account ∷ live) =
    let rest = unexpected_findings expected live in
    if has expected account
    then rest
    else record { account = account; status = unexpected; source = none } ∷ rest

unfoldable pub classify : Dict Text Text → List Text → List RelayerRoleFinding
unfolding expected_findings unexpected_findings
classify expected live = expected_findings live expected ++ unexpected_findings expected live

abbrev pub is_blocker : Status → Bool
is_blocker is_ok = false
is_blocker missing = true
is_blocker unexpected = true

abbrev pub blockers : List RelayerRoleFinding → List RelayerRoleFinding
blockers = keep_if (λ f. is_blocker f.status)

-- `process.exitCode` after the verdict.
abbrev pub exit_code : List RelayerRoleFinding → Bool → Option ℕ → Option ℕ
exit_code [] report_only code = code
exit_code (f ∷ fs) true code = code
exit_code (f ∷ fs) false code = some 1

-- The chain that the audit reads, and ethers' decoding of its logs.
pub record Chain (W : Type 0) : Type 1 where
  pub Log : Type 0
  pub position : Log → Position
  pub parse_log : Log → Outcome (Option Text)
  -- `registry.getContract(name)`
  pub get_contract : Text → Exec W Text
  -- `manager.getRoleIdByName(name)`
  pub get_role_id_by_name : Text → Text → Exec W ℕ
  pub get_block_number : Exec W ℕ
  pub get_code : Text → ℕ → Exec W Text
  -- `getLogs` of the manager, for the topic of a kind and of a role
  pub get_logs : Text → Kind → ℕ → ℕ → ℕ → Exec W (List Log)

abbrev pub zero_address : Text
zero_address = codes "0x0000000000000000000000000000000000000000"

abbrev pub no_manager : Text → Bool
no_manager [] = true
no_manager (c ∷ t) = text_beq (c ∷ t) zero_address

abbrev pub access_manager_contract_name : Text
access_manager_contract_name = codes "RaylsAccessManager"

abbrev pub event_log_chunk : ℕ
event_log_chunk = 5000

pub record RelayerRolesAuditResult : Type 0 where
  pub findings : List RelayerRoleFinding
  pub manager_address : Text
  pub role_id : ℕ

module _ {W : Type 0} (chain : Chain W) (variables : Text → Option Text) (scope : Scope)
    (from_block_arg : Text) (role_name : Text) (expected : Dict Text Text)
    (report_only : Bool) where
  open chain use {
    Log, position, parse_log, get_contract, get_role_id_by_name, get_block_number, get_code,
    get_logs,
  }

  abbrev pub provider : StartingBlockProvider W
  provider = record { get_code = get_code; get_block_number = get_block_number }

  -- The events of the role from the start block to the head, and the holders they leave. The two
  -- scans are awaited together; here one ends before the other starts.
  abbrev pub scan : Text → ℕ → ℕ → ℕ → Exec W (List Text)
  scan manager role_id from_block latest = do
    granted ← fetch_logs_chunked (get_logs manager grant role_id) from_block latest event_log_chunk
    revoked ← fetch_logs_chunked (get_logs manager revoke role_id) from_block latest event_log_chunk
    pure (live_holders position parse_log granted revoked)

  -- From a manager and a role on.
  abbrev pub audit_role : Text → StartingBlockResolution → ℕ → Exec W RelayerRolesAuditResult
  audit_role manager start role_id = do
    latest ← get_block_number
    (if ltb latest start.from_block
        then throw (
            error (
              scope.task_name
              ++ (codes ": --from-block "
                  ++ (decimal start.from_block
                      ++ (codes " is past the chain head (" ++ (decimal latest ++ codes ")"))))))
        else (do
          live ← scan manager role_id start.from_block latest
          pure (record {
            findings = classify expected live;
            manager_address = manager;
            role_id = role_id;
          })))

  abbrev pub audit_manager : Text → Exec W RelayerRolesAuditResult
  audit_manager manager = do
    start ←
        resolve_starting_block variables (some from_block_arg) scope (some manager) (some provider)
    role_id ← get_role_id_by_name manager role_name
    (if nat_beq role_id 0
        then throw (
            error (
              scope.task_name
              ++ (codes ": role '"
                  ++ (role_name
                      ++ (codes "' not found on AccessManager — "
                          ++ (codes
                                "getRoleIdByName returned 0 (ADMIN id). Pass --role-name <NAME> "
                              ++ codes
                                  "with a role that's actually registered on this AccessManager."))))))
        else audit_role manager start role_id)

  unfoldable pub run_relayer_roles_audit : Exec W RelayerRolesAuditResult
  run_relayer_roles_audit = do
    manager ← get_contract access_manager_contract_name
    (if no_manager manager
        then throw (
            error (
              scope.task_name
              ++ (codes ": registry has no " ++ (access_manager_contract_name ++ codes " entry"))))
        else audit_manager manager)

  -- The exit code that the audit leaves. It is the caller's, where the audit throws.
  unfoldable pub exit_code_after : Outcome RelayerRolesAuditResult → Option ℕ → Option ℕ
  exit_code_after (ok r) code = exit_code (blockers r.findings) report_only code
  exit_code_after (err e) code = code
