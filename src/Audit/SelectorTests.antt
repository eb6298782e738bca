-- ===== src/Audit/SelectorTests.antt =====
-- hardhat/tasks/audit/check-onchain-selectors.ts: runs on a small repository, and the theorems at it.
use rayls_sovereign_contract.Base.{
  ℕ, suc, ◌≡◌, ◌↔◌, refl, inl, inr, Bool, true, false, Option, none, some, List, [], ◌∷◌, map, All,
  Bool-cases, contains, if◌then◌else◌,
}
use rayls_sovereign_contract.Base.Text.{
  Text, codes, text_eq, starts_with, includes, to_lower_unit, decimal,
}
use rayls_sovereign_contract.Base.Outcome.{Outcome, ok}
use rayls_sovereign_contract.Base.Dict.{Dict, get, put, remove, add, unique, is_some}
use rayls_sovereign_contract.Base.Sorting.{insert_by, sort_by}
use mathlib.Core.List.{Memᴰ}
use rayls_sovereign_contract.Audit.Replay.{Position, Event, insert, sort, not_after}
use rayls_sovereign_contract.Audit.Replay.Last.{IsLast}
use rayls_sovereign_contract.Audit.AbiFiles.{
  JsonFile, without_suffix, find_artifact_json, first_abi, load_first, load_abi, aliases, replace,
}
use rayls_sovereign_contract.Audit.RegistryNames.{
  names_in, walk_object_literal, visit, build_registry_name_to_artifact_name,
}
use rayls_sovereign_contract.Audit.SelectorIndex.{
  artifact_files, add_selectors, add_artifact, index_files, build_selector_index, candidate_le,
  candidates, fingerprint_by_all_selectors,
}
use rayls_sovereign_contract.Audit.SelectorIndex.Consistency.{
  IsConsistent, build_selector_index-IsConsistent,
}
use rayls_sovereign_contract.Audit.SelectorIndex.Best.{
  IsChosen, fingerprint_by_all_selectors-IsChosen,
}
use rayls_sovereign_contract.Audit.SelectorIndex.Loading.{IsPlain}
use rayls_sovereign_contract.Audit.MigrationFile.{current, stale}
use rayls_sovereign_contract.Audit.Selectors.{
  Change, MappingArgs, Mapping, all_events, replay_events, live_mappings,
}
use rayls_sovereign_contract.Audit.Selectors.Live.{concerns, left_by, get-live_mappings}
use rayls_sovereign_contract.Audit.Selectors.Resolve.{
  selectors_by_target, abi_covers_all, resolve_address, resolved_by_address,
}
use rayls_sovereign_contract.Audit.Selectors.Findings.{findings_of, stale_findings}
use rayls_sovereign_contract.Audit.SelectorsTask.{Repository, report}
use rayls_sovereign_contract.Audit.SelectorsTask.Verdict.{IsExplained, stale_findings-report}

-- An ABI is the list of its selectors.
abbrev files : List (JsonFile (List Text))
files =
    record {
      entry_name = codes "IBar.json";
      full = codes "/a/IBar.json";
      abi = some (codes "0x1" ∷ []);
      bytecode = codes "0x";
    }
    ∷ record {
      entry_name = codes "Bar.json";
      full = codes "/a/Bar.json";
      abi = some (codes "0x1" ∷ []);
      bytecode = codes "0x6080";
    }
    ∷ record {
      entry_name = codes "Foo.json";
      full = codes "/a/Foo.json";
      abi = some (codes "0x1" ∷ codes "0x2" ∷ []);
      bytecode = codes "0x6080";
    }
    ∷ []

abbrev own : List Text → List Text
own abi = abi

abbrev two : List Text → ℕ
two [] = 0
two (s ∷ ss) = suc (two ss)

abbrev signature : List Text → Text → Option Text
signature abi s = if contains abi s then some s else none

abbrev any_order : Text → Text → Bool
any_order a b = true

signature_reads : (abi : List Text) (s : Text) → is_some (signature abi s) ≡ contains abi s
signature_reads abi s = elim (Bool-cases (contains abi s)) [ inl c ↦ rw c refl | inr c ↦ rw c refl ]

any_total : (a b : Text) → any_order a b ≡ false → any_order b a ≡ true
any_total a b h = refl

any_trans : (a b c : Text) → any_order a b ≡ true → any_order b c ≡ true → any_order a c ≡ true
any_trans a b c h k = refl

files_plain : All IsPlain files
unfolding includes starts_with
files_plain = (refl, (refl, (refl, tt)))

nameless : get (build_selector_index own files).artifact_by_name [] ≡ none
unfolding build_selector_index artifact_files index_files add_artifact add_selectors without_suffix
    includes starts_with get put add
nameless = refl

-- Of the artifacts that have the selector, the one with bytecode and the fewest functions.
fingerprint_test :
    fingerprint_by_all_selectors two any_order (codes "0x1" ∷ []) (build_selector_index own files)
    ≡ some (codes "Bar")
unfolding fingerprint_by_all_selectors candidates candidate_le sort_by insert_by
    build_selector_index artifact_files index_files add_artifact add_selectors without_suffix
    includes starts_with get put add
fingerprint_test = refl

build_selector_index-IsConsistent_example : IsConsistent own (build_selector_index own files)
build_selector_index-IsConsistent_example = build_selector_index-IsConsistent own files

fingerprint_by_all_selectors-IsChosen_example :
    IsChosen two any_order
      (build_selector_index own files)
      any_total
      any_trans
      (codes "0x1" ∷ codes "0x2" ∷ [])
      (fingerprint_by_all_selectors two any_order
        (codes "0x1" ∷ codes "0x2" ∷ [])
        (build_selector_index own files))
fingerprint_by_all_selectors-IsChosen_example =
    fingerprint_by_all_selectors-IsChosen two any_order (build_selector_index own files) any_total
      any_trans (codes "0x1") (codes "0x2" ∷ [])

abbrev repository : Repository (List Text)
repository = record {
  files = files;
  literals =
      (record { identifier = some (codes "name"); literal = some (codes "Baz") }
        ∷ record { identifier = some (codes "contractName"); literal = some (codes "Foo") }
        ∷ [])
      ∷ [];
  selectors = own;
  function_count = two;
  signature_of = signature;
  locale_le = any_order;
}

abbrev names : Dict Text Text
names = (codes "0xa", codes "Baz") ∷ []

abbrev live : List Mapping
live =
    record {
      target = codes "Baz";
      target_address = codes "0xa";
      selector = codes "0x2";
      role_id = 5;
    }
    ∷ record {
      target = codes "Unknown(0xb…)";
      target_address = codes "0xb";
      selector = codes "0x3";
      role_id = 5;
    }
    ∷ []

-- The first mapping is that of an artifact of another name than the registry's; the second is dead.
report_test :
    (map (λ f. f.artifact_name) (report repository names [] live) ≡ some (codes "Foo") ∷ none ∷ [])
    × (map (λ f. f.status) (report repository names [] live) ≡ current ∷ stale ∷ [])
unfolding report findings_of resolved_by_address resolve_address abi_covers_all selectors_by_target
    build_registry_name_to_artifact_name visit walk_object_literal names_in load_abi load_first
    aliases replace unique find_artifact_json first_abi fingerprint_by_all_selectors candidates
    candidate_le sort_by insert_by build_selector_index artifact_files index_files add_artifact
    add_selectors without_suffix includes starts_with get put add
report_test = (refl, refl)

stale_findings-report_example : (stale_findings (report repository names [] live) ≡ []) ↔ (
    (m : Mapping)
    → Memᴰ m live
    → IsExplained repository any_total any_trans signature_reads files_plain nameless names live
        m.target_address)
stale_findings-report_example =
    stale_findings-report repository any_total any_trans signature_reads files_plain nameless names
      [] live

-- A log is its place on the chain; each is of the same contract, selector and role.
abbrev place : ℕ → Position
place n = record { block_number = n; index = 0 }

abbrev parse : ℕ → Outcome (Option MappingArgs)
parse n = ok (some (record { managed_contract = codes "0xA"; selector = codes "0x2"; role_id = 5 }))

-- Removed in block 2, and added again in block 3.
live_test :
    get (live_mappings place parse names none (1 ∷ 3 ∷ []) (2 ∷ [])).live (codes "0xa|0x2|5")
    ≡ some (record {
      target = codes "Baz";
      target_address = codes "0xa";
      selector = codes "0x2";
      role_id = 5;
    })
unfolding live_mappings replay_events all_events sort insert not_after get put remove decimal
    to_lower_unit
live_test = refl

get-live_mappings_example :
    (o : Option (Event (Change × ℕ))) × IsLast
      (concerns place parse names none (codes "0xa|0x2|5"))
      (all_events place parse names none (1 ∷ 3 ∷ []) (2 ∷ []))
      o
    × (get (live_mappings place parse names none (1 ∷ 3 ∷ []) (2 ∷ [])).live (codes "0xa|0x2|5")
        ≡ left_by place parse names none (codes "0xa|0x2|5") none o)
get-live_mappings_example =
    get-live_mappings place parse names none (1 ∷ 3 ∷ []) (2 ∷ []) (codes "0xa|0x2|5")
