-- ===== src/Audit/SelectorsTask/Verdict.antt =====
-- When the audit of hardhat/tasks/audit/check-onchain-selectors.ts passes.
use rayls_sovereign_contract.Base.{
  ℕ, ◌≡◌, ◌↔◌, inl, inr, refl, sym, subst, true, false, none, List, [], ◌∷◌, map, Bool-cases, All,
  contains,
}
use rayls_sovereign_contract.Base.Text.{Text, text_eq}
use rayls_sovereign_contract.Base.Dict.{Dict, get, is_some}
use mathlib.Core.List.{Memᴰ}
use rayls_sovereign_contract.Audit.SelectorIndex.{build_selector_index}
use rayls_sovereign_contract.Audit.SelectorIndex.Loading.{IsPlain}
use rayls_sovereign_contract.Audit.MigrationFile.{OnchainStatus, current, stale}
use rayls_sovereign_contract.Audit.RegistryNames.{build_registry_name_to_artifact_name}
use rayls_sovereign_contract.Audit.Selectors.{Mapping}
use rayls_sovereign_contract.Audit.Selectors.Findings.{
  SelectorFinding, is_stale, stale_findings, findings_of,
}
use rayls_sovereign_contract.Audit.Selectors.Status.{DecodesAll, finding_of-status}
use rayls_sovereign_contract.Audit.SelectorsTask.{Repository, report}

is_stale-current : (s : OnchainStatus) → (is_stale s ≡ false) ↔ (s ≡ current)
is_stale-current current = (λ h. refl, λ h. refl)
is_stale-current stale = (λ h. cc, λ h. cc)

at_each :
    (f : Mapping → SelectorFinding) (m : Mapping) (ms : List Mapping)
    → (stale_findings (map f ms) ≡ [] → (n : Mapping) → Memᴰ n ms → (f n).status ≡ current)
    → (f m).status ≡ current
    → stale_findings (map f ms) ≡ []
    → (n : Mapping) → Memᴰ n (m ∷ ms)
    → (f n).status ≡ current
at_each f m ms rest c h n (Memᴰ.head e) = subst (λ x. (f x).status ≡ current) (sym e) c
at_each f m ms rest c h n (Memᴰ.tail k) = rest h n k

-- No finding is stale exactly if each has the status of a current one.
stale_findings-map :
    (f : Mapping → SelectorFinding) (ms : List Mapping)
    → (stale_findings (map f ms) ≡ []) ↔ ((m : Mapping) → Memᴰ m ms → (f m).status ≡ current)
stale_findings-map f [] = (λ h m k. elim k [ ], λ h. refl)
stale_findings-map f (m ∷ ms) = elim (Bool-cases (is_stale (f m).status)) [
  | inl c ↦ rw c (
    (λ h. cc),
    λ h.
        let no : is_stale (f m).status ≡ false =
          (is_stale-current (f m).status).1 (h m (Memᴰ.head refl)) in
        cc,
  )
  | inr c ↦ rw c (
    (λ h n k.
        at_each f m ms (stale_findings-map f ms).0 ((is_stale-current (f m).status).0 c) h n k),
    λ h. (stale_findings-map f ms).1 (λ n k. h n (Memᴰ.tail k)),
  )
]

module _ {Abi : Type 0} (repository : Repository Abi)
    (total : (a b : Text) → repository.locale_le a b ≡ false → repository.locale_le b a ≡ true)
    (trans : (a b c : Text)
      → repository.locale_le a b ≡ true
      → repository.locale_le b c ≡ true
      → repository.locale_le a c ≡ true)
    (reads : (abi : Abi) (s : Text)
      → is_some (repository.signature_of abi s) ≡ contains (repository.selectors abi) s)
    (plain : All IsPlain repository.files)
    (nameless : get (build_selector_index repository.selectors repository.files).artifact_by_name []
      ≡ none)
    (names : Dict Text Text) where
  -- An artifact of the registry's name or of the index has every live selector of the address.
  abbrev pub IsExplained : List Mapping → Text → Type 0
  IsExplained live address =
      (name : Text) × DecodesAll repository.function_count repository.locale_le total trans
        repository.signature_of repository.selectors reads repository.files plain nameless
        (build_registry_name_to_artifact_name repository.literals) names live address name

  -- Where `localeCompare` orders names totally and transitively, `getFunction` finds the selectors that
  -- `forEachFunction` lists, no folder of the artifacts is named like a debug copy and no file is named
  -- `.json`: the report has no STALE finding exactly if the address of each live mapping has an artifact,
  -- one that is indexed or the one that its registry name leads to, with every live selector of the
  -- address.
  pub stale_findings-report :
      (roles : Dict ℕ Text) (live : List Mapping)
      → (stale_findings (report repository names roles live) ≡ [])
        ↔ ((m : Mapping) → Memᴰ m live → IsExplained live m.target_address)
  unfolding report findings_of
  stale_findings-report roles live =
      let of_status =
        finding_of-status repository.function_count repository.locale_le total trans
          repository.signature_of repository.selectors reads repository.files plain nameless
          (build_registry_name_to_artifact_name repository.literals) names live roles in
      (
        λ h m k. (of_status m k).0 ((stale_findings-map _ live).0 h m k),
        λ h. (stale_findings-map _ live).1 (λ m k. (of_status m k).1 (h m k)),
      )
