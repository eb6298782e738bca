-- ===== src/Deploy/Artifacts.antt =====
-- The artifact of a task in hardhat/tasks/deploy/batch-helpers.ts: Hardhat's own lookup by the
-- contract's name, or an explicit override by a qualified name or by the path of a Forge artifact.
-- `readArtifact` (Hardhat) and the read of a JSON file are actions on the world, taken as parameters.
pub mod Overrides
use rayls_sovereign_contract.Base.{
  ℕ, ◌≡◌, ◌&&◌, Option, none, some, [], ◌∷◌, ◌++◌, if◌then◌else◌, get_or, or_else,
}
use rayls_sovereign_contract.Base.Text.{Text, codes, starts_with, truthy}
use rayls_sovereign_contract.Base.Outcome.{error, Outcome, ok, err, Exec, pure, throw, ◌>>=◌, ◌>>◌}

pub record ExplicitArtifactRef : Type 0 where
  pub contract_name : Text
  pub artifact_name : Option Text
  pub artifact_path : Option Text
  pub artifact_source_name : Option Text

-- A `bytecode` field of an artifact file: Hardhat writes a text, Forge an object.
pub data RawBytecode (Links : Type 0) : Type 0 where
  undefined : RawBytecode Links
  text : Text → RawBytecode Links
  object : Option Text → Option Links → RawBytecode Links

-- The file's fields, as far as they are there.
pub record ForgeJson (Abi Links : Type 0) : Type 0 where
  pub format : Option Text
  pub contract_name : Option Text
  pub source_name : Option Text
  pub abi : Abi
  pub bytecode : RawBytecode Links
  pub deployed_bytecode : RawBytecode Links
  pub link_references : Option Links
  pub deployed_link_references : Option Links

pub record Artifact (Abi Links : Type 0) : Type 0 where
  pub format : Text
  pub contract_name : Text
  pub source_name : Text
  pub abi : Abi
  pub bytecode : Text
  pub deployed_bytecode : Text
  pub link_references : Links
  pub deployed_link_references : Links

abbrev with_prefix : Text → Text
with_prefix b = if starts_with b (codes "0x") then b else codes "0x" ++ b

module _ {Links : Type 0} where
  abbrev raw_text : RawBytecode Links → Option Text
  raw_text undefined = none
  raw_text (text t) = some t
  raw_text (object t links) = t

  abbrev raw_links : RawBytecode Links → Option Links
  raw_links undefined = none
  raw_links (text t) = none
  raw_links (object t links) = links

  unfoldable pub normalize_bytecode : RawBytecode Links → Text
  unfolding starts_with
  normalize_bytecode raw =
      if truthy (raw_text raw) then with_prefix (get_or (raw_text raw) []) else codes "0x"

unfoldable pub validate_artifact_override : ExplicitArtifactRef → Text → Outcome (Unit {0})
validate_artifact_override ref label =
    if truthy ref.artifact_name && truthy ref.artifact_path
    then err (error (label ++ codes " must use either artifactName or artifactPath, not both"))
    else ok tt

module _ {W Abi Links : Type 0} (no_links : Links)
    (read_artifact : Text → Exec W (Artifact Abi Links))
    (read_json : Text → Exec W (ForgeJson Abi Links)) where
  abbrev from_forge : ExplicitArtifactRef → Text → ForgeJson Abi Links → Artifact Abi Links
  from_forge ref path json = record {
    format = get_or json.format (codes "hh-sol-artifact-1");
    contract_name = get_or json.contract_name ref.contract_name;
    source_name = get_or (or_else json.source_name ref.artifact_source_name) path;
    abi = json.abi;
    bytecode = normalize_bytecode json.bytecode;
    deployed_bytecode = normalize_bytecode json.deployed_bytecode;
    link_references = get_or (or_else json.link_references (raw_links json.bytecode)) no_links;
    deployed_link_references =
        get_or (or_else json.deployed_link_references (raw_links json.deployed_bytecode)) no_links;
  }

  unfoldable pub load_forge_artifact : ExplicitArtifactRef → Exec W (Artifact Abi Links)
  load_forge_artifact ref =
      if truthy ref.artifact_path
      then (do
        json ← read_json (get_or ref.artifact_path [])
        pure (from_forge ref (get_or ref.artifact_path []) json))
      else throw (error (codes "Missing artifactPath for " ++ ref.contract_name))

  unfoldable pub get_explicit_artifact :
      ExplicitArtifactRef → Text → Exec W (Option (Artifact Abi Links))
  get_explicit_artifact ref label =
      (λ w. (validate_artifact_override ref label, w))
      >> (if truthy ref.artifact_name
          then (do a ← read_artifact (get_or ref.artifact_name []); pure (some a))
          else if truthy ref.artifact_path
          then (do a ← load_forge_artifact ref; pure (some a))
          else pure none)
