-- ===== src/Audit/SelectorIndex.antt =====
-- `buildSelectorIndex` and `fingerprintByAllSelectors` of
-- hardhat/tasks/audit/check-onchain-selectors.ts. The walk of the artifacts folder is a parameter: the
-- list of the files that it reads, in its order. So are ethers' reading of an ABI and the order of
-- `localeCompare`.
pub mod Consistency
pub mod Best
pub mod Loading
use rayls_sovereign_contract.Base.{
  ℕ, ◌≡◌, ◌<◌, Bool, true, false, not, ◌&&◌, Option, none, some, List, [], ◌∷◌, ◌++◌, all, keep_if,
  contains, length, ltb, nat_beq, get_or, if◌then◌else◌,
}
use rayls_sovereign_contract.Base.Text.{Text, text_eq, includes}
use rayls_sovereign_contract.Base.Dict.{Dict, get, put, has, add}
use rayls_sovereign_contract.Audit.AbiFiles.{JsonFile, json_extension, debug_infix, without_suffix}
use rayls_sovereign_contract.Base.Sorting.{sort_by}

-- A file that the index takes.
pub record ArtifactFile (Abi : Type 0) : Type 0 where
  pub name : Text
  pub abi : Abi
  pub bytecode : Text

module _ {Abi : Type 0} where
  abbrev taken : JsonFile Abi → Option Text → Option Abi → List (ArtifactFile Abi)
  taken f (some name) (some abi) =
      if includes f.entry_name debug_infix
      then []
      else record { name = name; abi = abi; bytecode = f.bytecode } ∷ []
  taken f (some name) none = []
  taken f none abi = []

  -- The files that end in `.json`, are no debug copy, and have an ABI.
  unfoldable pub artifact_files : List (JsonFile Abi) → List (ArtifactFile Abi)
  unfolding includes without_suffix
  artifact_files [] = []
  artifact_files (f ∷ fs) =
      taken f (without_suffix json_extension f.entry_name) f.abi ++ artifact_files fs

pub record SelectorIndex (Abi : Type 0) : Type 0 where
  pub artifact_by_name : Dict Text Abi
  pub by_selector : Dict Text (List Text)
  pub has_bytecode : Dict Text Bool

module _ {Abi : Type 0} where
  abbrev pub empty_index : SelectorIndex Abi
  empty_index = record { artifact_by_name = []; by_selector = []; has_bytecode = [] }

-- `bySelector.get(selector)`, with a new set where there is none
abbrev pub names_of : Dict Text (List Text) → Text → List Text
names_of by_selector s = get_or (get by_selector s) []

-- `iface.forEachFunction((fn) => set.add(name))`
unfoldable pub add_selectors : Text → List Text → Dict Text (List Text) → Dict Text (List Text)
unfolding get put add
add_selectors name [] by_selector = by_selector
add_selectors name (s ∷ ss) by_selector =
    add_selectors name ss (put by_selector s (add (names_of by_selector s) name))

module _ {Abi : Type 0} (selectors : Abi → List Text) where
  abbrev pub indexed : ArtifactFile Abi → SelectorIndex Abi → SelectorIndex Abi
  indexed f i = record {
    artifact_by_name = put i.artifact_by_name f.name f.abi;
    by_selector = add_selectors f.name (selectors f.abi) i.by_selector;
    has_bytecode = put i.has_bytecode f.name (ltb 4 (length f.bytecode));
  }

  -- Of the artifacts with one name the first is taken.
  unfoldable pub add_artifact : ArtifactFile Abi → SelectorIndex Abi → SelectorIndex Abi
  unfolding add_selectors
  add_artifact f i = if has i.artifact_by_name f.name then i else indexed f i

  unfoldable pub index_files : List (ArtifactFile Abi) → SelectorIndex Abi → SelectorIndex Abi
  unfolding add_artifact
  index_files [] i = i
  index_files (f ∷ fs) i = index_files fs (add_artifact f i)

  unfoldable pub build_selector_index : List (JsonFile Abi) → SelectorIndex Abi
  unfolding index_files artifact_files
  build_selector_index files = index_files (artifact_files files) empty_index

-- `candidates[0]`
abbrev pub first : List Text → Option Text
first [] = none
first (name ∷ names) = some name

module _ {Abi : Type 0}
    -- how many entries of the ABI are functions
    (function_count : Abi → ℕ)
    -- `a.localeCompare(b) <= 0`
    (locale_le : Text → Text → Bool) where
  -- 0 for an artifact with bytecode, and 1 for an interface or an abstract contract
  abbrev pub rank : SelectorIndex Abi → Text → ℕ
  rank index name = if get_or (get index.has_bytecode name) false then 0 else 1

  abbrev count_of : Option Abi → ℕ
  count_of none = 0
  count_of (some abi) = function_count abi

  abbrev pub functions : SelectorIndex Abi → Text → ℕ
  functions index name = count_of (get index.artifact_by_name name)

  -- The comparison of two candidates is not positive.
  unfoldable pub candidate_le : SelectorIndex Abi → Text → Text → Bool
  candidate_le index a b =
      if nat_beq (rank index a) (rank index b)
      then (if nat_beq (functions index a) (functions index b)
          then locale_le a b
          else ltb (functions index a) (functions index b))
      else ltb (rank index a) (rank index b)

  -- `selectors.every((s) => index.bySelector.get(s)?.has(name))`
  abbrev pub covers : SelectorIndex Abi → List Text → Text → Bool
  covers index sels name = all (λ s. contains (names_of index.by_selector s) name) sels

  unfoldable pub candidates : SelectorIndex Abi → List Text → List Text
  candidates index [] = []
  candidates index (s ∷ ss) = keep_if (covers index (s ∷ ss)) (names_of index.by_selector s)

  unfoldable pub fingerprint_by_all_selectors : List Text → SelectorIndex Abi → Option Text
  unfolding candidates candidate_le sort_by
  fingerprint_by_all_selectors sels index =
      first (sort_by (candidate_le index) (candidates index sels))
