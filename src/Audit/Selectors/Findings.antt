-- ===== src/Audit/Selectors/Findings.antt =====
-- The findings of `runOnchainSelectorsAudit` in hardhat/tasks/audit/check-onchain-selectors.ts: the
-- status of each live mapping, the hygiene of the registry, and the exit code.
use rayls_sovereign_contract.Base.{
  ℕ, Bool, true, false, Option, none, some, List, [], ◌∷◌, ◌++◌, map, keep_if, contains, get_or,
  or_else, if◌then◌else◌, nat_eq,
}
use rayls_sovereign_contract.Base.Text.{Text, text_eq}
use rayls_sovereign_contract.Base.Dict.{Dict, get}
use rayls_sovereign_contract.Audit.Selectors.{Mapping, unknown_target}
use rayls_sovereign_contract.Audit.Selectors.Resolve.{Resolution}
use rayls_sovereign_contract.Audit.MigrationFile.{OnchainStatus, current, stale}

pub record SelectorFinding : Type 0 where
  pub target : Text
  pub target_address : Text
  pub selector : Text
  pub signature : Option Text
  pub role_id : ℕ
  pub role_name : Option Text
  pub status : OnchainStatus
  pub unregistered : Bool
  pub artifact_name : Option Text

-- `resolution?.artifactName ?? null`, and so on
abbrev pub artifact_of : Option Resolution → Option Text
artifact_of none = none
artifact_of (some r) = r.artifact_name

abbrev unregistered_of : Option Resolution → Bool
unregistered_of none = false
unregistered_of (some r) = r.unregistered

abbrev shown_artifact : Option Resolution → Option Text
shown_artifact none = none
shown_artifact (some r) = if r.divergent then r.artifact_name else none

-- The registry's name, the artifact's, or the start of the address.
abbrev pub target_name : Option Text → Option Text → Text → Text
target_name name artifact address = get_or (or_else name artifact) (unknown_target address)

abbrev pub status_of : Option Text → OnchainStatus
status_of none = stale
status_of (some signature) = current

module _ {Abi : Type 0} (signature_of : Abi → Text → Option Text) (load_abi : Text → Option Abi)
    (addr_to_name : Dict Text Text) (roles : Dict ℕ Text) (resolutions : Dict Text Resolution) where
  abbrev signature_in : Option Abi → Text → Option Text
  signature_in none selector = none
  signature_in (some abi) selector = signature_of abi selector

  -- The signature of the selector in the artifact's ABI.
  abbrev pub signature_by : Option Text → Text → Option Text
  signature_by none selector = none
  signature_by (some name) selector = signature_in (load_abi name) selector

  abbrev pub finding_of : Mapping → SelectorFinding
  finding_of entry =
      let resolution = get resolutions entry.target_address in
      let signature = signature_by (artifact_of resolution) entry.selector in
      record {
        target =
            target_name (get addr_to_name entry.target_address) (artifact_of resolution)
              entry.target_address;
        target_address = entry.target_address;
        selector = entry.selector;
        signature = signature;
        role_id = entry.role_id;
        role_name = get roles entry.role_id;
        status = status_of signature;
        unregistered = unregistered_of resolution;
        artifact_name = shown_artifact resolution;
      }

  unfoldable pub findings_of : List Mapping → List SelectorFinding
  unfolding get
  findings_of = map finding_of

pub data Hygiene : Type 0 where
  unregistered_address : Text → Option Text → List Text → Hygiene
  name_diverges : Text → Text → Text → Hygiene

module _ (addr_to_name : Dict Text Text) (selectors : Dict Text (List Text)) where
  abbrev divergence : Text → Bool → Option Text → List Hygiene
  divergence address true (some artifact) =
      name_diverges address (get_or (get addr_to_name address) []) artifact ∷ []
  divergence address true none = []
  divergence address false artifact = []

  abbrev pub hygiene_at : Text → Option Resolution → List Hygiene
  hygiene_at address none = []
  hygiene_at address (some r) =
      if r.unregistered
      then unregistered_address address r.artifact_name (get_or (get selectors address) []) ∷ []
      else divergence address r.divergent r.artifact_name

  -- `for (const entry of liveByKey.values())`, each address once
  unfoldable pub hygiene : Dict Text Resolution → List Text → List Mapping → List Hygiene
  unfolding get
  hygiene resolutions seen [] = []
  hygiene resolutions seen (entry ∷ live) =
      let later = hygiene resolutions (entry.target_address ∷ seen) live in
      let rest = hygiene resolutions seen live in
      if contains seen entry.target_address
      then rest
      else hygiene_at entry.target_address (get resolutions entry.target_address) ++ later

abbrev pub is_stale : OnchainStatus → Bool
is_stale current = false
is_stale stale = true

abbrev pub stale_findings : List SelectorFinding → List SelectorFinding
stale_findings = keep_if (λ f. is_stale f.status)

-- `process.exitCode` after the verdict
abbrev pub exit_code : List SelectorFinding → Option ℕ → Option ℕ
exit_code [] code = code
exit_code (f ∷ fs) code = some 1
