-- ===== src/Audit/AbiFiles.antt =====
-- `findArtifactJson` and `loadAbi` of hardhat/tasks/audit/utils.ts. The files below `artifacts` are a
-- parameter: the list of them in the order of the walk.
pub mod Lookup
use rayls_sovereign_contract.Base.{
  ℕ, ◌≡◌, Bool, true, false, not, ◌&&◌, Option, none, some, List, [], ◌∷◌, ◌++◌, keep_if, drop,
  length, or_else, if◌then◌else◌, ◌===◌,
}
use rayls_sovereign_contract.Base.Text.{Text, codes, text_eq, starts_with, includes}
use rayls_sovereign_contract.Base.Dict.{unique}

pub record JsonFile (Abi : Type 0) : Type 0 where
  pub entry_name : Text
  pub full : Text
  -- `raw.abi`, if the file parses and that is an array with elements
  pub abi : Option Abi
  -- `raw.bytecode`, or `raw.bytecode.object`, or the empty text
  pub bytecode : Text

abbrev pub json_extension : Text
json_extension = codes ".json"

abbrev pub debug_infix : Text
debug_infix = codes ".dbg."

-- `s.replace(pattern, by)` of the first occurrence
unfoldable pub replace : Text → Text → Text → Text
unfolding starts_with
replace pattern by [] = if starts_with [] pattern then by else []
replace pattern by (c ∷ s) =
    let rest = replace pattern by s in
    if starts_with (c ∷ s) pattern then by ++ drop (length pattern) (c ∷ s) else c ∷ rest

unfoldable pub aliases : Text → List Text
unfolding replace unique
aliases name = unique (
    name
    ∷ (name ++ codes "V1")
    ∷ (name ++ codes "V2")
    ∷ replace (codes "Replica") (codes "V1") name
    ∷ replace (codes "RN") (codes "RaylsNode") name
    ∷ [])

abbrev pub cons_some : ℕ → Option Text → Option Text
cons_some c none = none
cons_some c (some p) = some (c ∷ p)

-- `name.endsWith('.json')`, and what `replace(/\.json$/, '')` leaves of it
unfoldable pub without_suffix : Text → Text → Option Text
without_suffix suffix [] = if [] === suffix then some [] else none
without_suffix suffix (c ∷ s) =
    let rest = without_suffix suffix s in if (c ∷ s) === suffix then some [] else cons_some c rest

module _ {Abi : Type 0} where
  unfoldable pub find_artifact_json : List (JsonFile Abi) → Text → List (JsonFile Abi)
  unfolding includes
  find_artifact_json files name =
      keep_if (λ f. (f.entry_name === name ++ json_extension) && not (includes f.full debug_infix))
        files

  -- The first that has an ABI.
  unfoldable pub first_abi : List (JsonFile Abi) → Option Abi
  first_abi [] = none
  first_abi (f ∷ fs) = or_else f.abi (first_abi fs)

  unfoldable pub load_first : List (JsonFile Abi) → List Text → Option Abi
  unfolding first_abi find_artifact_json
  load_first files [] = none
  load_first files (c ∷ cs) = or_else (first_abi (find_artifact_json files c)) (load_first files cs)

  unfoldable pub load_abi : List (JsonFile Abi) → Text → Option Abi
  unfolding load_first aliases
  load_abi files name = load_first files (aliases name)
