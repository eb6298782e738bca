-- ===== src/Audit/Selectors/Resolve.antt =====
-- The artifact of each address in `runOnchainSelectorsAudit` of
-- hardhat/tasks/audit/check-onchain-selectors.ts. ethers' reading of an ABI, `loadAbi` and
-- `buildRegistryNameToArtifactName` are parameters.
use rayls_sovereign_contract.Base.{
  ℕ, Bool, false, not, ◌&&◌, ◌||◌, Option, none, some, List, [], ◌∷◌, map, all, get_or, or_else,
  if◌then◌else◌,
}
use rayls_sovereign_contract.Base.Text.{Text, text_eq, text_beq, truthy}
use rayls_sovereign_contract.Base.Dict.{Dict, get, put, add, is_some}
use rayls_sovereign_contract.Audit.SelectorIndex.{SelectorIndex, fingerprint_by_all_selectors}
use rayls_sovereign_contract.Audit.Selectors.{Mapping}

-- `liveByKey.values()`
abbrev pub entries : Dict Text Mapping → List Mapping
entries = map (λ entry. entry.1)

-- `liveSelectorsByTarget`
unfoldable pub selectors_by_target : List Mapping → Dict Text (List Text) → Dict Text (List Text)
unfolding get put add
selectors_by_target [] d = d
selectors_by_target (m ∷ ms) d =
    selectors_by_target ms
      (put d m.target_address (add (get_or (get d m.target_address) []) m.selector))

pub record Resolution : Type 0 where
  pub artifact_name : Option Text
  pub unregistered : Bool
  pub divergent : Bool

module _ {Abi : Type 0} (function_count : Abi → ℕ) (locale_le : Text → Text → Bool)
    -- `new ethers.Interface(abi).getFunction(selector)`, in its minimal format, where it does not throw
    (signature_of : Abi → Text → Option Text)
    -- `loadAbi(root, name)`, which the cache keeps
    (load_abi : Text → Option Abi) (name_to_artifact : Dict Text Text) (index : SelectorIndex Abi)
    (addr_to_name : Dict Text Text) where
  abbrev pub decodes : Option Abi → Text → Bool
  decodes none s = false
  decodes (some abi) s = is_some (signature_of abi s)

  abbrev pub covers_all : Option Abi → List Text → Bool
  covers_all none sels = false
  covers_all (some abi) sels = all (λ s. is_some (signature_of abi s)) sels

  unfoldable pub abi_covers_all : Text → List Text → Bool
  abi_covers_all name sels = covers_all (load_abi name) sels

  -- Steps 1 and 2: the artifact that the deploy tasks give to the registry's name, or the name itself.
  abbrev pub mapped_artifact : Option Text → Option Text
  mapped_artifact none = none
  mapped_artifact (some mapped) =
      if truthy (some mapped) && is_some (load_abi mapped) then some mapped else none

  abbrev pub named_artifact : Text → Option Text
  named_artifact name = if is_some (load_abi name) then some name else none

  abbrev pub direct_artifact : Option Text → Option Text
  direct_artifact none = none
  direct_artifact (some []) = none
  direct_artifact (some (c ∷ name)) =
      or_else (mapped_artifact (get name_to_artifact (c ∷ name))) (named_artifact (c ∷ name))

  -- Whether step 1 found it.
  abbrev pub direct_divergent : Option Text → Bool
  direct_divergent none = false
  direct_divergent (some []) = false
  direct_divergent (some (c ∷ name)) = is_some (mapped_artifact (get name_to_artifact (c ∷ name)))

  -- Step 3: an artifact that does not decode the selectors is dropped for the fingerprint.
  abbrev pub confirmed : List Text → Option Text → Option Text
  confirmed sels none = none
  confirmed sels (some name) = if abi_covers_all name sels then some name else none

  abbrev pub differs : Option Text → Text → Bool
  differs none fp = false
  differs (some []) fp = false
  differs (some (c ∷ name)) fp = not (text_beq fp (c ∷ name))

  abbrev pub not_found : Option Text → Bool → Resolution
  not_found registry_name d = record {
    artifact_name = none;
    unregistered = not (truthy registry_name);
    divergent = d;
  }

  abbrev pub fingerprinted : Option Text → Bool → Option Text → Resolution
  fingerprinted registry_name d none = not_found registry_name d
  fingerprinted registry_name d (some []) = not_found registry_name d
  fingerprinted registry_name d (some (c ∷ fp)) = record {
    artifact_name = some (c ∷ fp);
    unregistered = not (truthy registry_name);
    divergent = differs registry_name (c ∷ fp) || d;
  }

  abbrev pub resolved_or : Option Text → Bool → Option Text → Option Text → Resolution
  resolved_or registry_name d (some name) fp = record {
    artifact_name = some name;
    unregistered = not (truthy registry_name);
    divergent = d;
  }
  resolved_or registry_name d none fp = fingerprinted registry_name d fp

  unfoldable pub resolve_address : Text → List Text → Resolution
  unfolding abi_covers_all
  resolve_address address sels =
      let name = get addr_to_name address in
      resolved_or name (direct_divergent name) (confirmed sels (direct_artifact name))
        (fingerprint_by_all_selectors function_count locale_le sels index)

  -- `resolvedByAddress`
  unfoldable pub resolved_by_address : Dict Text (List Text) → Dict Text Resolution
  unfolding resolve_address
  resolved_by_address [] = []
  resolved_by_address ((address, sels) ∷ d) =
      (address, resolve_address address sels) ∷ resolved_by_address d
