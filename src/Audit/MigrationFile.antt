-- ===== src/Audit/MigrationFile.antt =====
-- The migration file that hardhat/tasks/audit/generate-migration.ts writes, from the findings of the
-- two audits.
use rayls_sovereign_contract.Base.{
  ℕ, Bool, true, false, ◌||◌, Option, List, [], ◌∷◌, ◌++◌, map, keep_if, length, nat_beq,
  if◌then◌else◌, get_or, nat_eq,
}
use rayls_sovereign_contract.Base.Text.{Text, codes, truthy, decimal, text_eq}

pub data DeployStatus : Type 0 where
  resolved missing unchecked : DeployStatus

-- The lint's finding, as far as the generator reads it.
pub record DeployFinding : Type 0 where
  pub status : DeployStatus

pub data OnchainStatus : Type 0 where
  current stale : OnchainStatus

pub record OnchainFinding : Type 0 where
  pub target : Text
  pub target_address : Text
  pub selector : Text
  pub role_id : ℕ
  pub role_name : Option Text
  pub status : OnchainStatus

pub record OnchainAuditResult : Type 0 where
  pub findings : List OnchainFinding
  pub manager_address : Text
  pub registry_address : Text

abbrev is_missing : DeployStatus → Bool
is_missing resolved = false
is_missing missing = true
is_missing unchecked = false

abbrev is_stale : OnchainStatus → Bool
is_stale current = false
is_stale stale = true

abbrev pub missing_of : List DeployFinding → List DeployFinding
missing_of = keep_if (λ f. is_missing f.status)

abbrev pub stale_of : List OnchainFinding → List OnchainFinding
stale_of = keep_if (λ f. is_stale f.status)

abbrev pub output_dir_rel : Text
output_dir_rel = codes "audit/migrations"

-- `iso.replace(/[:.]/g, '-')`
abbrev pub stamp : Text → Text
stamp iso = map (λ c. if nat_beq c b':' || nat_beq c b'.' then b'-' else c) iso

abbrev pub file_name : Text → Text
file_name iso = stamp iso ++ codes "-access-manager-drift.ts"

abbrev pub role_tag : OnchainFinding → Text
role_tag f =
    if truthy f.role_name
    then get_or f.role_name [] ++ (codes "(#" ++ (decimal f.role_id ++ codes ")"))
    else codes "#" ++ decimal f.role_id

abbrev pub comment_line : OnchainFinding → Text
comment_line f =
    codes "  // "
    ++ (f.target
        ++ (codes " @ "
            ++ (f.target_address
                ++ (codes "  selector=" ++ (f.selector ++ (codes "  role=" ++ role_tag f))))))

abbrev pub call_prefix : Text
call_prefix = codes "  await (await manager.removeFunctionAllowedRoles("

abbrev pub removal_line : OnchainFinding → Text
removal_line f =
    call_prefix
    ++ (codes "'"
        ++ (f.target_address
            ++ (codes "', ['"
                ++ (f.selector ++ (codes "'], [" ++ (decimal f.role_id ++ codes "n])).wait();"))))))

unfoldable pub removal_lines : List OnchainFinding → List Text
removal_lines [] = []
removal_lines (f ∷ fs) = comment_line f ∷ removal_line f ∷ removal_lines fs

abbrev plural : ℕ → Text
plural n = if nat_beq n 1 then [] else codes "s"

abbrev header : Text → Text → OnchainAuditResult → ℕ → List Text
header task_name iso r n =
    (codes "// AUTO-GENERATED by `npx hardhat " ++ (task_name ++ codes "`"))
    ∷ (codes "// Generated at: " ++ iso)
    ∷ (codes "// Registry:     " ++ r.registry_address)
    ∷ (codes "// AccessManager: " ++ r.manager_address)
    ∷ (codes "// Findings: " ++ (decimal n ++ (codes " STALE removal" ++ plural n)))
    ∷ codes "//"
    ∷ codes "// REVIEW THIS FILE BEFORE RUNNING. To apply:"
    ∷ (codes "//   npx hardhat run "
        ++ (output_dir_rel ++ (codes "/" ++ (file_name iso ++ codes " --network <name>"))))
    ∷ codes "//"
    ∷ codes "// The `--network` you pass must point at the same chain the audit ran against;"
    ∷ codes "// hardhat networks config is the source of truth for keys/signer at run time."
    ∷ codes ""
    ∷ codes "import { ethers } from 'hardhat';"
    ∷ codes ""
    ∷ codes "async function main() {"
    ∷ (codes "  const manager = await ethers.getContractAt('RaylsAccessManagerV1', '"
        ++ (r.manager_address ++ codes "');"))
    ∷ codes ""
    ∷ codes "  // ─── STALE removals ─────────────────────────────────────────────"
    ∷ codes "  // On-chain mappings whose selector no longer matches any current"
    ∷ codes "  // function on the target contract — call `removeFunctionAllowedRoles`"
    ∷ codes "  // to clear them."
    ∷ []

abbrev footer : List Text
footer =
    codes ""
    ∷ codes "  console.log(\"AccessManager migration applied.\");"
    ∷ codes "}"
    ∷ codes ""
    ∷ codes "main().catch((e) => { console.error(e); process.exit(1); });"
    ∷ codes ""
    ∷ []

unfoldable pub migration_lines : Text → Text → OnchainAuditResult → List Text
unfolding removal_lines
migration_lines task_name iso r =
    header task_name iso r (length (stale_of r.findings))
    ++ (removal_lines (stale_of r.findings) ++ footer)
