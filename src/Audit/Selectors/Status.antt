-- ===== src/Audit/Selectors/Status.antt =====
-- When a live mapping is reported as OK or STALE in hardhat/tasks/audit/check-onchain-selectors.ts.
use rayls_sovereign_contract.Base.{
  ℕ, ◌≡◌, ◌↔◌, ◌∙◌, ◌⊎◌, inl, inr, refl, sym, subst, Bool, true, false, Option, none, some, List,
  [], ◌∷◌, Bool-cases, Option-cases, All, contains, ◌===◌,
}
use rayls_sovereign_contract.Base.Text.{Text, text_eq, text_beq_iff}
use rayls_sovereign_contract.Base.Dict.{Dict, get, is_some}
use mathlib.Core.List.{Memᴰ}
use rayls_sovereign_contract.Audit.AbiFiles.{JsonFile, load_abi}
use rayls_sovereign_contract.Audit.SelectorIndex.{
  SelectorIndex, names_of, covers, build_selector_index, fingerprint_by_all_selectors,
}
use rayls_sovereign_contract.Audit.SelectorIndex.Consistency.{
  declares, build_selector_index-IsConsistent,
}
use rayls_sovereign_contract.Audit.SelectorIndex.Best.{IsBest, fingerprint_by_all_selectors-IsBest}
use rayls_sovereign_contract.Audit.SelectorIndex.Loading.{IsPlain, load_abi-build_selector_index}
use rayls_sovereign_contract.Audit.MigrationFile.{current, stale}
use rayls_sovereign_contract.Audit.Selectors.{Mapping}
use rayls_sovereign_contract.Audit.Selectors.Resolve.{
  Resolution, selectors_by_target, direct_divergent, covers_all, abi_covers_all, direct_artifact,
  confirmed, resolved_or, resolve_address, resolved_by_address,
}
use rayls_sovereign_contract.Audit.Selectors.Findings.{finding_of, signature_by, status_of}
use rayls_sovereign_contract.Audit.Selectors.Grouping.{
  all-contains, contains-all, live_selectors, Mem-contains, contains-Mem, get-some,
}

module _ {Abi : Type 0} (function_count : Abi → ℕ) (locale_le : Text → Text → Bool)
    (total : (a b : Text) → locale_le a b ≡ false → locale_le b a ≡ true)
    (trans : (a b c : Text) → locale_le a b ≡ true → locale_le b c ≡ true → locale_le a c ≡ true)
    (signature_of : Abi → Text → Option Text) (selectors : Abi → List Text)
    -- `getFunction` finds a selector exactly if `forEachFunction` comes to it
    (reads : (abi : Abi) (s : Text) → is_some (signature_of abi s) ≡ contains (selectors abi) s)
    (files : List (JsonFile Abi)) (plain : All IsPlain files)
    -- there is no file named `.json`
    (nameless : get (build_selector_index selectors files).artifact_by_name [] ≡ none)
    (name_to_artifact : Dict Text Text) (addr_to_name : Dict Text Text) where
  abbrev index : SelectorIndex Abi
  index = build_selector_index selectors files

  abbrev abi_covers : Text → List Text → Bool
  abi_covers =
      abi_covers_all function_count locale_le signature_of (load_abi files) name_to_artifact index
        addr_to_name

  abbrev direct : Option Text → Option Text
  direct =
      direct_artifact function_count locale_le signature_of (load_abi files) name_to_artifact index
        addr_to_name

  abbrev resolve : Text → List Text → Resolution
  resolve =
      resolve_address function_count locale_le signature_of (load_abi files) name_to_artifact index
        addr_to_name

  -- The ABI that `loadAbi` loads for the name has the selector.
  abbrev pub knows : Text → Text → Bool
  knows name s =
      is_some (signature_by signature_of (load_abi files) addr_to_name [] [] (some name) s)

  abi_covers-knows :
      (name : Text) (sels : List Text)
      → abi_covers name sels ≡ true
      → (s : Text) → contains sels s ≡ true
      → knows name s ≡ true
  unfolding abi_covers_all
  abi_covers-knows name sels h s k = by_abi (load_abi files name) refl h
    where
      by_abi :
          (o : Option Abi)
          → load_abi files name ≡ o
          → covers_all function_count locale_le signature_of
              (load_abi files)
              name_to_artifact
              index
              addr_to_name
              o
              sels
            ≡ true
          → knows name s ≡ true
      by_abi none e h = cc
      by_abi (some abi) e h = rw e (all-contains (λ t. is_some (signature_of abi t)) sels s h k)

  knows-abi_covers :
      (name : Text) (sels : List Text) (s : Text)
      → contains sels s ≡ true
      → ((t : Text) → contains sels t ≡ true → knows name t ≡ true)
      → abi_covers name sels ≡ true
  unfolding abi_covers_all
  knows-abi_covers name sels s k h = by_abi (load_abi files name) refl
    where
      by_abi :
          (o : Option Abi)
          → load_abi files name ≡ o
          → covers_all function_count locale_le signature_of
              (load_abi files)
              name_to_artifact
              index
              addr_to_name
              o
              sels
            ≡ true
      by_abi none e = let no : false ≡ true = rw e at (h s k) in cc
      by_abi (some abi) e =
          contains-all (λ t. is_some (signature_of abi t)) sels (λ t c. rw e at (h t c))

  loaded-knows :
      (name : Text) (abi : Abi) (s : Text)
      → get index.artifact_by_name name ≡ some abi
      → knows name s ≡ contains (selectors abi) s
  loaded-knows name abi s e =
      rw (load_abi-build_selector_index selectors files name abi plain e) (reads abi s)

  declared-knows :
      (name s : Text)
      → declares selectors (get index.artifact_by_name name) s ≡ true
      → knows name s ≡ true
  declared-knows name s h = elim (Option-cases (get index.artifact_by_name name)) [
    | inl e ↦ let no : false ≡ true = rw e at h in cc
    | inr (abi, e) ↦
        let d : contains (selectors abi) s ≡ true = rw e at h in loaded-knows name abi s e ∙ d
  ]

  covers-knows :
      (name : Text) (sels : List Text) (s : Text)
      → covers function_count locale_le index sels name ≡ true
      → contains sels s ≡ true
      → knows name s ≡ true
  covers-knows name sels s h k = declared-knows name s (
      sym (build_selector_index-IsConsistent selectors files s name)
      ∙ all-contains (λ t. contains (names_of index.by_selector t) name) sels s h k)

  knows-covers :
      (name : Text) (abi : Abi) (sels : List Text)
      → get index.artifact_by_name name ≡ some abi
      → ((t : Text) → contains sels t ≡ true → knows name t ≡ true)
      → covers function_count locale_le index sels name ≡ true
  knows-covers name abi sels e h =
      contains-all (λ t. contains (names_of index.by_selector t) name) sels
        (λ t c.
          build_selector_index-IsConsistent selectors files t name
          ∙ rw e (sym (loaded-knows name abi t e) ∙ h t c))

  get-resolved_by_address :
      (d : Dict Text (List Text)) (address : Text) (sels : List Text)
      → get d address ≡ some sels
      → get
          (resolved_by_address function_count locale_le signature_of
            (load_abi files)
            name_to_artifact
            index
            addr_to_name
            d)
          address
        ≡ some (resolve address sels)
  unfolding resolved_by_address get
  get-resolved_by_address [] address sels h = cc
  get-resolved_by_address ((a, ss) ∷ d) address sels h = elim (Bool-cases (a === address)) [
    | inl c ↦
        let e : some ss ≡ some sels = rw c at h in
        let same : a ≡ address = (text_beq_iff a address).0 c in
        let same' : ss ≡ sels = cc in rw (c, same, same') refl
    | inr c ↦ rw c (get-resolved_by_address d address sels (rw c at h))
  ]

  abbrev fingerprint : List Text → Option Text
  fingerprint sels = fingerprint_by_all_selectors function_count locale_le sels index

  -- The registry's name leads to the artifact, or it is one of the index.
  abbrev pub IsCandidate : Text → Text → Type 0
  IsCandidate address name =
      (direct (get addr_to_name address) ≡ some name)
      ⊎ ((abi : Abi) × (get index.artifact_by_name name ≡ some abi))

  -- An artifact that is found for the address, and knows all of its selectors.
  abbrev pub Explained : Text → List Text → Text → Type 0
  Explained address sels name =
      IsCandidate address name × ((s : Text) → contains sels s ≡ true → knows name s ≡ true)

  best :
      (sels : List Text) (s : Text)
      → contains sels s ≡ true
      → IsBest function_count locale_le index total trans sels (fingerprint sels)
  best [] s k = cc
  best (t ∷ ts) s k =
      fingerprint_by_all_selectors-IsBest function_count locale_le index total trans t ts

  covers-Explained :
      (address : Text) (sels : List Text) (s name : Text)
      → contains sels s ≡ true
      → covers function_count locale_le index sels name ≡ true
      → Explained address sels name
  covers-Explained address sels s name k c = (
    inr (indexed (get index.artifact_by_name name) refl declared),
    λ t d. covers-knows name sels t c d,
  )
    where
      declared : declares selectors (get index.artifact_by_name name) s ≡ true
      declared =
          sym (build_selector_index-IsConsistent selectors files s name)
          ∙ all-contains (λ t. contains (names_of index.by_selector t) name) sels s c k

      indexed :
          (o : Option Abi)
          → get index.artifact_by_name name ≡ o
          → declares selectors o s ≡ true
          → (abi : Abi) × (get index.artifact_by_name name ≡ some abi)
      indexed none e d = cc
      indexed (some abi) e d = (abi, e)

  confirmed-inv :
      (sels : List Text) (o : Option Text) (name : Text)
      → confirmed function_count locale_le signature_of
          (load_abi files)
          name_to_artifact
          index
          addr_to_name
          sels
          o
        ≡ some name
      → (o ≡ some name) × (abi_covers name sels ≡ true)
  confirmed-inv sels none name h = cc
  confirmed-inv sels (some m) name h = elim (Bool-cases (abi_covers m sels)) [
    | inl c ↦
        let e : some m ≡ some name = rw c at h in
        let same : m ≡ name = cc in (e, subst (λ n. abi_covers n sels ≡ true) same c)
    | inr c ↦ let e : none ≡ some name = rw c at h in cc
  ]

  -- The artifact that an address is resolved to explains it.
  resolve-Explained :
      (address : Text) (sels : List Text) (s name : Text)
      → contains sels s ≡ true
      → (resolve address sels).artifact_name ≡ some name
      → Explained address sels name
  unfolding resolve_address
  resolve-Explained address sels s name k h =
      by_confirmed
        (confirmed function_count locale_le signature_of (load_abi files) name_to_artifact index
          addr_to_name sels (direct registry_name))
        refl h
    where
      registry_name : Option Text
      registry_name = get addr_to_name address

      outcome : Option Text → Option Text → Resolution
      outcome =
          resolved_or function_count locale_le signature_of (load_abi files) name_to_artifact index
            addr_to_name registry_name
            (direct_divergent function_count locale_le signature_of (load_abi files)
              name_to_artifact index addr_to_name registry_name)

      by_fingerprint :
          (fp : Option Text)
          → fingerprint sels ≡ fp
          → (outcome none fp).artifact_name ≡ some name
          → Explained address sels name
      by_fingerprint none e h = cc
      by_fingerprint (some []) e h = cc
      by_fingerprint (some (c ∷ fp)) e h =
          let found : IsBest function_count locale_le index total trans sels (some (c ∷ fp)) =
            rw e at (best sels s k) in
          let same : c ∷ fp ≡ name = cc in
          covers-Explained address sels s name k (rw same at found.0)

      by_confirmed :
          (o : Option Text)
          → confirmed function_count locale_le signature_of
              (load_abi files)
              name_to_artifact
              index
              addr_to_name
              sels
              (direct registry_name)
            ≡ o
          → (outcome o (fingerprint sels)).artifact_name ≡ some name
          → Explained address sels name
      by_confirmed (some n) e h =
          let (d, c) = confirmed-inv sels (direct registry_name) n e in
          let same : n ≡ name = cc in
          subst (Explained address sels) same (inl d, λ t m. abi_covers-knows n sels c t m)
      by_confirmed none e h = by_fingerprint (fingerprint sels) refl h

  -- An address that some artifact explains is resolved to one.
  Explained-resolve :
      (address : Text) (sels : List Text) (s name : Text)
      → contains sels s ≡ true
      → Explained address sels name
      → (n : Text) × ((resolve address sels).artifact_name ≡ some n)
  unfolding resolve_address
  Explained-resolve address sels s name k h =
      by_confirmed
        (confirmed function_count locale_le signature_of (load_abi files) name_to_artifact index
          addr_to_name sels (direct registry_name))
        refl
    where
      registry_name : Option Text
      registry_name = get addr_to_name address

      outcome : Option Text → Option Text → Resolution
      outcome =
          resolved_or function_count locale_le signature_of (load_abi files) name_to_artifact index
            addr_to_name registry_name
            (direct_divergent function_count locale_le signature_of (load_abi files)
              name_to_artifact index addr_to_name registry_name)

      by_fingerprint :
          (abi : Abi)
          → get index.artifact_by_name name ≡ some abi
          → (fp : Option Text) → fingerprint sels ≡ fp
          → (n : Text) × ((outcome none fp).artifact_name ≡ some n)
      by_fingerprint abi a (some (c ∷ fp)) e = (c ∷ fp, refl)
      by_fingerprint abi a none e =
          let found : IsBest function_count locale_le index total trans sels none =
            rw e at (best sels s k) in
          let yes : covers function_count locale_le index sels name ≡ true =
            knows-covers name abi sels a h.1 in
          let no : covers function_count locale_le index sels name ≡ false = found name in cc
      by_fingerprint abi a (some []) e =
          let found : IsBest function_count locale_le index total trans sels (some []) =
            rw e at (best sels s k) in
          let d : declares selectors (get index.artifact_by_name []) s ≡ true =
            sym (build_selector_index-IsConsistent selectors files s [])
            ∙ all-contains (λ t. contains (names_of index.by_selector t) []) sels s found.0 k in
          let no : false ≡ true = rw nameless at d in cc

      by_candidate :
          IsCandidate address name
          → confirmed function_count locale_le signature_of
              (load_abi files)
              name_to_artifact
              index
              addr_to_name
              sels
              (direct registry_name)
            ≡ none
          → (n : Text) × ((outcome none (fingerprint sels)).artifact_name ≡ some n)
      by_candidate (inr (abi, a)) e = by_fingerprint abi a (fingerprint sels) refl
      by_candidate (inl d) e =
          let c : abi_covers name sels ≡ true = knows-abi_covers name sels s k h.1 in
          let no : some name ≡ none = rw (d, c) at e in cc

      by_confirmed :
          (o : Option Text)
          → confirmed function_count locale_le signature_of
              (load_abi files)
              name_to_artifact
              index
              addr_to_name
              sels
              (direct registry_name)
            ≡ o
          → (n : Text) × ((outcome o (fingerprint sels)).artifact_name ≡ some n)
      by_confirmed (some n) e = (n, refl)
      by_confirmed none e = by_candidate h.0 e

  -- An artifact of the registry's name or of the index has every live selector of the address.
  abbrev pub DecodesAll : List Mapping → Text → Text → Type 0
  DecodesAll live address name =
      IsCandidate address name
      × ((n : Mapping) → Memᴰ n live → n.target_address ≡ address → knows name n.selector ≡ true)

  current-status : (o : Option Text) → (status_of o ≡ current) ↔ (is_some o ≡ true)
  current-status none = (λ h. cc, λ h. cc)
  current-status (some signature) = (λ h. refl, λ h. refl)

  module _ (live : List Mapping) (roles : Dict ℕ Text) (m : Mapping) (there : Memᴰ m live) where
    abbrev pub resolutions : Dict Text Resolution
    resolutions =
        resolved_by_address function_count locale_le signature_of (load_abi files) name_to_artifact
          index addr_to_name (selectors_by_target live [])

    -- Where `localeCompare` orders names totally and transitively, `getFunction` finds the selectors
    -- that `forEachFunction` lists, no folder of the artifacts is named like a debug copy and no file
    -- is named `.json`: a live mapping is reported as OK exactly if some artifact, of those indexed or
    -- the one that the registry's name of its address leads to, has every live selector of the
    -- address; otherwise it is STALE.
    pub finding_of-status :
        ((finding_of signature_of (load_abi files) addr_to_name roles resolutions m).status
          ≡ current)
        ↔ ((name : Text) × DecodesAll live m.target_address name)
    finding_of-status =
        rw
          (get-resolved_by_address (selectors_by_target live []) address sels
            (get-some (selectors_by_target live []) address m.selector own))
          (reported, explained)
      where
        address : Text
        address = m.target_address

        sels : List Text
        sels = live_selectors live address

        own : contains sels m.selector ≡ true
        own = Mem-contains live address m there refl

        spread : (name : Text) → Explained address sels name → DecodesAll live address name
        spread name (c, h) = (c, λ n k e. h n.selector (Mem-contains live address n k e))

        gathered : (name : Text) → DecodesAll live address name → Explained address sels name
        gathered name (c, h) = (
          c,
          λ s k.
              let (n, l, e, q) = contains-Mem live address s k in
              subst (λ t. knows name t ≡ true) q (h n l e),
        )

        signature : Option Text → Option Text
        signature o =
            signature_by signature_of (load_abi files) addr_to_name roles resolutions o m.selector

        reported :
            status_of (signature (resolve address sels).artifact_name) ≡ current
            → (name : Text) × DecodesAll live address name
        reported h = elim (Option-cases (resolve address sels).artifact_name) [
          | inl e ↦ let no : stale ≡ current = rw e at h in cc
          | inr (name, e) ↦
              (name, spread name (resolve-Explained address sels m.selector name own e))
        ]

        explained :
            ((name : Text) × DecodesAll live address name)
            → status_of (signature (resolve address sels).artifact_name) ≡ current
        explained (name, d) =
            let (n, e) = Explained-resolve address sels m.selector name own (gathered name d) in
            let known : Explained address sels n =
              resolve-Explained address sels m.selector n own e in
            rw e ((current-status (signature (some n))).1 (known.1 m.selector own))
