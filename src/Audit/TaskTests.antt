-- ===== src/Audit/TaskTests.antt =====
-- hardhat/tasks/audit/parents.ts and generate-migration.ts: runs, and the theorems at them.
use rayls_sovereign_contract.Base.{◌≡◌, ◌∙◌, refl, Option, none, some, List, [], ◌∷◌}
use rayls_sovereign_contract.Base.Text.{Text, codes, text_eq, text_beq_iff}
use rayls_sovereign_contract.Base.Outcome.{Outcome, ok, Exec, pure}
use rayls_sovereign_contract.Base.Dict.{get, put, get-put, add}
use rayls_sovereign_contract.Audit.Nodes.{parse_nodes}
use rayls_sovereign_contract.Audit.Nodes.RoundTrip.{parse_nodes-listed}
use rayls_sovereign_contract.Audit.Parents.{listed}
use rayls_sovereign_contract.Audit.Migration.{State, SubtaskArgs, OnchainTask, pnh_selectors}
use rayls_sovereign_contract.Audit.MigrationFile.{
  resolved, stale, DeployFinding, OnchainAuditResult,
}
use rayls_sovereign_contract.Audit.Migration.Removals.{
  generated, Explains, run_generate_migration-Explains,
}

ab_parsed :
    parse_nodes (codes "--pn") (codes " A,B ,A") (codes "audit:all")
    ≡ ok (codes "A" ∷ codes "B" ∷ [])
unfolding parse_nodes add
ab_parsed = refl

parse_nodes-listed_example :
    parse_nodes (codes "--pn") (listed (codes "A" ∷ codes "B" ∷ [])) (codes "audit:pn")
    ≡ ok (codes "A" ∷ codes "B" ∷ [])
parse_nodes-listed_example =
    parse_nodes-listed (codes "--pn") (codes " A,B ,A") (codes "audit:all")
      (codes "A" ∷ codes "B" ∷ []) ab_parsed (codes "--pn") (codes "audit:pn")

abbrev audit_result : OnchainAuditResult
audit_result = record {
  findings =
      record {
        target = codes "Token";
        target_address = codes "0xc";
        selector = codes "0x12345678";
        role_id = 5;
        role_name = none;
        status = stale;
      }
      ∷ [];
  manager_address = codes "0xd";
  registry_address = codes "0xe";
}

abbrev lint : Exec (State Unit) (List DeployFinding)
lint = pure (record { status = resolved } ∷ [])

abbrev onchain : OnchainTask → SubtaskArgs → Exec (State Unit) OnchainAuditResult
onchain t a = pure audit_result

abbrev mkdir_sync : Text → Exec (State Unit) (Unit {0})
mkdir_sync path = pure tt

abbrev write_file_sync : Text → Text → Exec (State Unit) (Unit {0})
write_file_sync path content s = (ok tt, record s { files = put s.files path content })

write_file_sync-get :
    (path content : Text) (s : State Unit)
    → (write_file_sync path content s).0 ≡ ok tt
    → get (write_file_sync path content s).1.files path ≡ some content
write_file_sync-get path content s h =
    get-put s.files path path content ∙ rw ((text_beq_iff path path).1 refl) refl

abbrev no_overrides : SubtaskArgs
no_overrides = record { rpc = []; registry = []; from_block = []; contracts = []; node = none }

abbrev before : State Unit
before = record { exit_code = none; files = []; world = tt }

abbrev run : Outcome (Option Text) × State Unit
run =
    generated lint onchain mkdir_sync write_file_sync (codes "/repo") (codes "2024") (codes "audit")
      pnh_selectors no_overrides before

run_generate_migration-Explains_example :
    Explains lint onchain mkdir_sync write_file_sync
      (codes "/repo")
      (codes "2024")
      (codes "audit")
      pnh_selectors
      no_overrides
      before
      run.0
      run.1
run_generate_migration-Explains_example =
    run_generate_migration-Explains lint onchain mkdir_sync write_file_sync (codes "/repo")
      (codes "2024") (codes "audit") pnh_selectors no_overrides before write_file_sync-get
