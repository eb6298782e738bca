-- ===== src/Audit/Migration/Removals.antt =====
-- When hardhat/tasks/audit/generate-migration.ts writes its file, and why it stops otherwise.
use rayls_sovereign_contract.Base.{
  ◌≡◌, ◌≢◌, ◌↔◌, ◌⊎◌, inl, inr, refl, ap, Option, none, some, List, [], ◌∷◌, All, nat_eq,
}
use rayls_sovereign_contract.Base.Text.{Text, codes, join, text_eq}
use rayls_sovereign_contract.Base.Outcome.{Outcome, ok, err, Exec, continue, ◌>>=◌}
use rayls_sovereign_contract.Base.Dict.{get}
use rayls_sovereign_contract.Audit.Migration.{
  State, SubtaskArgs, OnchainTask, out_path, out_dir, set_exit_code, subtask_args, emit,
  audit_and_emit, run_generate_migration,
}
use rayls_sovereign_contract.Audit.MigrationFile.{
  DeployStatus, resolved, missing, unchecked, OnchainStatus, current, stale, DeployFinding,
  OnchainFinding, OnchainAuditResult, missing_of, stale_of, migration_lines,
}

abbrev pub NoneStale : List OnchainFinding → Type 0
NoneStale = All (λ f. f.status ≢ stale)

abbrev pub NoneMissing : List DeployFinding → Type 0
NoneMissing = All (λ f. f.status ≢ missing)

pub OnchainStatus-cases : (s : OnchainStatus) → (s ≡ current) ⊎ (s ≡ stale)
OnchainStatus-cases current = inl refl
OnchainStatus-cases stale = inr refl

DeployStatus-cases : (s : DeployStatus) → (s ≡ missing) ⊎ ((s ≡ resolved) ⊎ (s ≡ unchecked))
DeployStatus-cases missing = inl refl
DeployStatus-cases resolved = inr (inl refl)
DeployStatus-cases unchecked = inr (inr refl)

stale_of-NoneStale : (fs : List OnchainFinding) → (stale_of fs ≡ []) ↔ NoneStale fs
stale_of-NoneStale [] = (λ h. tt, λ h. refl)
stale_of-NoneStale (f ∷ fs) =
    let rest = stale_of-NoneStale fs in
    elim (OnchainStatus-cases f.status) [
      | inl e ↦ rw e (λ h. ((λ k. cc), rest.0 h), λ h. rest.1 h.1)
      | inr e ↦ rw e (λ h. cc, λ h. absurd (h.0 refl))
    ]

missing_of-NoneMissing : (fs : List DeployFinding) → (missing_of fs ≡ []) ↔ NoneMissing fs
missing_of-NoneMissing [] = (λ h. tt, λ h. refl)
missing_of-NoneMissing (f ∷ fs) =
    let rest = missing_of-NoneMissing fs in
    elim (DeployStatus-cases f.status) [
      | inl e ↦ rw e (λ h. cc, λ h. absurd (h.0 refl))
      | inr (inl e) ↦ rw e (λ h. ((λ k. cc), rest.0 h), λ h. rest.1 h.1)
      | inr (inr e) ↦ rw e (λ h. ((λ k. cc), rest.0 h), λ h. rest.1 h.1)
    ]

module _ {W : Type 0} (run_lint : Exec (State W) (List DeployFinding))
    (run_onchain : OnchainTask → SubtaskArgs → Exec (State W) OnchainAuditResult)
    (mkdir_sync : Text → Exec (State W) (Unit {0}))
    (write_file_sync : Text → Text → Exec (State W) (Unit {0})) (root iso task_name : Text)
    (onchain : OnchainTask) (a : SubtaskArgs) (s : State W) where
  abbrev path : Text
  path = out_path run_lint run_onchain mkdir_sync write_file_sync root iso

  abbrev made : Outcome (Unit {0}) × State W
  made = mkdir_sync (out_dir run_lint run_onchain mkdir_sync write_file_sync root iso) s

  abbrev linted : Outcome (List DeployFinding) × State W
  linted = run_lint made.1

  abbrev audited : Outcome OnchainAuditResult × State W
  audited =
      run_onchain onchain (subtask_args run_lint run_onchain mkdir_sync write_file_sync root iso a)
        linted.1

  abbrev pub generated : Outcome (Option Text) × State W
  generated =
      run_generate_migration run_lint run_onchain mkdir_sync write_file_sync root iso task_name
        onchain a s

  abbrev migration : OnchainAuditResult → Text
  migration r = join (codes "\n") (migration_lines task_name iso r)

  abbrev written : OnchainAuditResult → Outcome (Unit {0}) × State W
  written r = write_file_sync path (migration r) audited.1

  -- The folder is made, and the lint answers with no missing function.
  abbrev IsLintClean : Type 0
  IsLintClean =
      (made.0 ≡ ok tt)
      × (findings : List DeployFinding) × (linted.0 ≡ ok findings)
      × NoneMissing findings

  -- Why the generator stops where it does.
  abbrev pub Explains : Outcome (Option Text) → State W → Type 0
  Explains (err e) s' =
      (made ≡ (err e, s'))
      ⊎ (((made.0 ≡ ok tt) × (linted ≡ (err e, s')))
          ⊎ (IsLintClean
              × ((audited ≡ (err e, s'))
                  ⊎ ((r : OnchainAuditResult) × (audited.0 ≡ ok r)
                      × ¬ NoneStale r.findings
                      × (written r ≡ (err e, s'))))))
  Explains (ok none) s' =
      ((made.0 ≡ ok tt)
        × (findings : List DeployFinding) × (linted.0 ≡ ok findings)
        × ¬ NoneMissing findings
        × (s'.exit_code ≡ some 1)
        × (s'.files ≡ linted.1.files))
      ⊎ (IsLintClean
          × ((r : OnchainAuditResult) × (audited.0 ≡ ok r)
              × NoneStale r.findings
              × (s'.exit_code ≡ some 0)
              × (s'.files ≡ audited.1.files)))
  Explains (ok (some p)) s' =
      IsLintClean
      × ((r : OnchainAuditResult) × (audited.0 ≡ ok r)
          × ¬ NoneStale r.findings
          × (s'.exit_code ≡ some 0)
          × (get s'.files p ≡ some (migration r)))

  module _
      -- A write that does not throw leaves the content at the path.
      (writes : (file content : Text) (s' : State W)
        → (write_file_sync file content s').0 ≡ ok tt
        → get (write_file_sync file content s').1.files file ≡ some content) where
    written-Explains :
        (r : OnchainAuditResult)
        → IsLintClean
        → audited.0 ≡ ok r
        → ¬ NoneStale r.findings
        → (o : Outcome (Unit {0})) → (written r).0 ≡ o
        → let run =
            continue o
              (λ _ s'. (
                ok (some path),
                set_exit_code run_lint run_onchain mkdir_sync write_file_sync root iso 0 s',
              ))
              (written r).1 in
          Explains run.0 run.1
    written-Explains r clean e k (ok tt) h =
        (clean, (r, e, k, refl, writes path (migration r) audited.1 h))
    written-Explains r clean e k (err x) h =
        inr (inr (clean, inr (r, e, k, ap (λ o. (o, (written r).1)) h)))

    emit-Explains :
        (r : OnchainAuditResult) (stale : List OnchainFinding)
        → IsLintClean
        → audited.0 ≡ ok r
        → stale_of r.findings ≡ stale
        → let o =
            emit run_lint run_onchain mkdir_sync write_file_sync root iso task_name r stale
              audited.1 in
          Explains o.0 o.1
    emit-Explains r [] clean e k =
        inr (clean, (r, e, (stale_of-NoneStale r.findings).0 k, refl, refl))
    emit-Explains r (f ∷ fs) clean e k =
        written-Explains r clean e
          (λ none_left. let t = (stale_of-NoneStale r.findings).1 none_left in cc) (written r).0
          refl

    audited-Explains :
        (o : Outcome OnchainAuditResult)
        → IsLintClean
        → audited.0 ≡ o
        → let run =
            continue o
              (λ r.
                emit run_lint run_onchain mkdir_sync write_file_sync root iso task_name r
                  (stale_of r.findings))
              audited.1 in
          Explains run.0 run.1
    audited-Explains (ok r) clean e = emit-Explains r (stale_of r.findings) clean e refl
    audited-Explains (err x) clean e = inr (inr (clean, inl (ap (λ o. (o, audited.1)) e)))

    missing-Explains :
        (findings missing : List DeployFinding)
        → made.0 ≡ ok tt
        → linted.0 ≡ ok findings
        → missing_of findings ≡ missing
        → let run =
            audit_and_emit run_lint run_onchain mkdir_sync write_file_sync root iso task_name
              onchain a missing linted.1 in
          Explains run.0 run.1
    missing-Explains findings [] d e k =
        audited-Explains audited.0 (d, findings, e, (missing_of-NoneMissing findings).0 k) refl
    missing-Explains findings (f ∷ fs) d e k = inl (
      d,
      findings,
      e,
      (λ none_left. let t = (missing_of-NoneMissing findings).1 none_left in cc),
      refl,
      refl,
    )

    linted-Explains :
        (o : Outcome (List DeployFinding))
        → made.0 ≡ ok tt
        → linted.0 ≡ o
        → let run =
            continue o
              (λ findings.
                audit_and_emit run_lint run_onchain mkdir_sync write_file_sync root iso task_name
                  onchain a
                  (missing_of findings))
              linted.1 in
          Explains run.0 run.1
    linted-Explains (ok findings) d e = missing-Explains findings (missing_of findings) d e refl
    linted-Explains (err x) d e = inr (inl (d, ap (λ o. (o, linted.1)) e))

    made-Explains :
        (o : Outcome (Unit {0}))
        → made.0 ≡ o
        → let run =
            continue o
              (λ _. run_lint >>= λ findings.
                audit_and_emit run_lint run_onchain mkdir_sync write_file_sync root iso task_name
                  onchain a
                  (missing_of findings))
              made.1 in
          Explains run.0 run.1
    made-Explains (ok tt) d = linted-Explains linted.0 d refl
    made-Explains (err x) d = inl (ap (λ o. (o, made.1)) d)

    -- Where a write that does not throw leaves its content at its path: `runGenerateMigration` throws only
    -- what making the folder throws, or then the lint, or after a clean lint the on-chain audit, or after a
    -- stale finding the write of the file. It answers with no path in two cases: the lint reports a missing
    -- function, and then the exit code is 1 and the files are those that the lint left; or the lint is clean
    -- and the on-chain audit has no stale finding, and then the exit code is 0 and the files are those that
    -- the audit left. Otherwise the lint is clean and the audit has a stale finding, the exit code is 0, and
    -- the file at the path that it answers with holds the migration of the audit's result.
    pub run_generate_migration-Explains : Explains generated.0 generated.1
    unfolding run_generate_migration
    run_generate_migration-Explains = made-Explains made.0 refl
