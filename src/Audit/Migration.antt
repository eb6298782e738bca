-- ===== src/Audit/Migration.antt =====
-- `runGenerateMigration` and its three tasks in hardhat/tasks/audit/generate-migration.ts. The state
-- is the exit code, the files, and the world outside; the two audits (`hre.run`) and the two calls of `fs`
-- act on all of it, may throw, and are parameters, as are the time and the project's root, which does not
-- end in a slash.
pub mod Removals
pub mod Calls
use rayls_sovereign_contract.Base.{
  ℕ, ◌≡◌, ◌||◌, Option, none, some, List, [], ◌∷◌, ◌++◌, if◌then◌else◌, nat_eq, ◌===◌,
}
use rayls_sovereign_contract.Base.Text.{Text, codes, truthy, join, text_eq}
use rayls_sovereign_contract.Base.Outcome.{error, ok, Exec, throw, ◌>>=◌, ◌>>◌}
use rayls_sovereign_contract.Base.Dict.{Dict, put, add}
use rayls_sovereign_contract.Audit.MigrationFile.{
  DeployFinding, OnchainFinding, OnchainAuditResult, missing_of, stale_of, output_dir_rel,
  file_name, migration_lines,
}

pub record State (W : Type 0) : Type 0 where
  pub exit_code : Option ℕ
  pub files : Dict Text Text
  pub world : W

-- What the on-chain audit is given.
pub record SubtaskArgs : Type 0 where
  pub rpc : Text
  pub registry : Text
  pub from_block : Text
  pub contracts : Text
  pub node : Option Text

pub data OnchainTask : Type 0 where
  pnh_selectors pn_selectors pc_selectors : OnchainTask

module _ {W : Type 0} (run_lint : Exec (State W) (List DeployFinding))
    (run_onchain : OnchainTask → SubtaskArgs → Exec (State W) OnchainAuditResult)
    -- `fs.mkdirSync(path, { recursive: true })`
    (mkdir_sync : Text → Exec (State W) (Unit {0}))
    -- `fs.writeFileSync(path, content)`
    (write_file_sync : Text → Text → Exec (State W) (Unit {0})) (root : Text) (iso : Text) where
  abbrev pub out_dir : Text
  out_dir = root ++ (codes "/" ++ output_dir_rel)

  abbrev pub out_path : Text
  out_path = out_dir ++ (codes "/" ++ file_name iso)

  abbrev pub set_exit_code : ℕ → State W → State W
  set_exit_code n s = record { exit_code = some n; files = s.files; world = s.world }

  -- `if (opts.pn) subtaskArgs.pn = opts.pn`
  abbrev pub subtask_args : SubtaskArgs → SubtaskArgs
  subtask_args a = record {
    rpc = a.rpc;
    registry = a.registry;
    from_block = a.from_block;
    contracts = a.contracts;
    node = if truthy a.node then a.node else none;
  }

  -- From the stale findings on.
  abbrev pub emit : Text → OnchainAuditResult → List OnchainFinding → Exec (State W) (Option Text)
  emit task_name r [] s = (ok none, set_exit_code 0 s)
  emit task_name r (f ∷ fs) s =
      (write_file_sync out_path (join (codes "\n") (migration_lines task_name iso r)) >>= λ _ s'.
      (ok (some out_path), set_exit_code 0 s'))
        s

  -- From the missing findings of the lint on.
  abbrev pub audit_and_emit :
      Text → OnchainTask → SubtaskArgs → List DeployFinding → Exec (State W) (Option Text)
  audit_and_emit task_name onchain a [] =
      run_onchain onchain (subtask_args a) >>= λ r. emit task_name r (stale_of r.findings)
  audit_and_emit task_name onchain a (f ∷ fs) = λ s. (ok none, set_exit_code 1 s)

  unfoldable pub run_generate_migration :
      Text → OnchainTask → SubtaskArgs → Exec (State W) (Option Text)
  unfolding migration_lines
  run_generate_migration task_name onchain a =
      mkdir_sync out_dir
      >> (run_lint >>= λ findings. audit_and_emit task_name onchain a (missing_of findings))

  unfoldable pub generate_pnh : SubtaskArgs → Exec (State W) (Option Text)
  unfolding run_generate_migration
  generate_pnh a =
      run_generate_migration (codes "audit:pnh:generate-migration") pnh_selectors (record {
        rpc = a.rpc;
        registry = a.registry;
        from_block = a.from_block;
        contracts = a.contracts;
        node = none;
      })

  -- `audit:pn:generate-migration` and `audit:pc:generate-migration`
  abbrev with_node : Text → OnchainTask → SubtaskArgs → Exec (State W) (Option Text)
  with_node task_name onchain a =
      if truthy a.node
      then run_generate_migration task_name onchain a
      else throw (error (task_name ++ codes ": --pn is required"))

  unfoldable pub generate_pn : SubtaskArgs → Exec (State W) (Option Text)
  unfolding run_generate_migration
  generate_pn = with_node (codes "audit:pn:generate-migration") pn_selectors

  unfoldable pub generate_pc : SubtaskArgs → Exec (State W) (Option Text)
  unfolding run_generate_migration
  generate_pc = with_node (codes "audit:pc:generate-migration") pc_selectors
