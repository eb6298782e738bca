-- ===== src/Audit/SelectorIndex/Loading.antt =====
-- What the selector index of hardhat/tasks/audit/check-onchain-selectors.ts has under a name is what
-- `loadAbi` of hardhat/tasks/audit/utils.ts loads for it.
use rayls_sovereign_contract.Base.{
  ◌≡◌, ◌∙◌, inl, inr, refl, ap, sym, Bool, true, false, not, ◌&&◌, Option, none, some, List, [],
  ◌∷◌, ◌++◌, All, Bool-cases, Option-cases, or_else, if◌then◌else◌, ◌===◌,
}
use rayls_sovereign_contract.Base.Text.{Text, text_eq, text_beq_iff, includes}
use rayls_sovereign_contract.Base.Dict.{get, has, is_some, get-put}
use rayls_sovereign_contract.Audit.AbiFiles.{
  JsonFile, json_extension, debug_infix, without_suffix, find_artifact_json, first_abi, load_abi,
}
use rayls_sovereign_contract.Audit.AbiFiles.Lookup.{
  without_suffix-append, append-without_suffix, load_abi-first,
}
use rayls_sovereign_contract.Audit.SelectorIndex.{
  ArtifactFile, artifact_files, SelectorIndex, empty_index, indexed, add_artifact, index_files,
  build_selector_index, taken,
}

module _ {Abi : Type 0} where
  -- The ABI of the first artifact with the name.
  abbrev named : List (ArtifactFile Abi) → Text → Option Abi
  named [] name = none
  named (f ∷ fs) name = if f.name === name then some f.abi else named fs name

  -- The path of a file is that of a debug copy exactly if its name is.
  abbrev pub IsPlain : JsonFile Abi → Type 0
  IsPlain f = includes f.full debug_infix ≡ includes f.entry_name debug_infix

  module _ (selectors : Abi → List Text) where
    get-add_artifact :
        (f : ArtifactFile Abi) (i : SelectorIndex Abi) (name : Text)
        → get (add_artifact selectors f i).artifact_by_name name
          ≡ or_else (get i.artifact_by_name name) (if f.name === name then some f.abi else none)
    unfolding add_artifact
    get-add_artifact f i name = elim (Bool-cases (f.name === name)) [
      | inl d ↦
          let same : f.name ≡ name = (text_beq_iff f.name name).0 d in
          rw (d, same) (known (get i.artifact_by_name name) refl)
      | inr d ↦ elim (Bool-cases (has i.artifact_by_name f.name)) [
        | inl c ↦ rw (c, d) (kept (get i.artifact_by_name name))
        | inr c ↦
            rw (c, get-put i.artifact_by_name f.name name f.abi, d)
              (kept (get i.artifact_by_name name))
      ]
    ]
      where
        kept : (o : Option Abi) → o ≡ or_else o none
        kept none = refl
        kept (some abi) = refl

        known :
            (o : Option Abi)
            → get i.artifact_by_name name ≡ o
            → get
                (if is_some o
                  then i
                  else indexed selectors (record f { name = name }) i).artifact_by_name
                name
              ≡ or_else o (some f.abi)
        known none e =
            rw (get-put i.artifact_by_name name name f.abi, (text_beq_iff name name).1 refl) refl
        known (some abi) e = e

    get-index_files :
        (fs : List (ArtifactFile Abi)) (i : SelectorIndex Abi) (name : Text)
        → get (index_files selectors fs i).artifact_by_name name
          ≡ or_else (get i.artifact_by_name name) (named fs name)
    unfolding index_files
    get-index_files [] i name = kept (get i.artifact_by_name name)
      where
        kept : (o : Option Abi) → o ≡ or_else o none
        kept none = refl
        kept (some abi) = refl
    get-index_files (f ∷ fs) i name =
        get-index_files fs (add_artifact selectors f i) name
        ∙ rw (get-add_artifact f i name) (joined (get i.artifact_by_name name) (f.name === name))
      where
        joined :
            (o : Option Abi) (b : Bool)
            → or_else (or_else o (if b then some f.abi else none)) (named fs name)
              ≡ or_else o (if b then some f.abi else named fs name)
        joined none true = refl
        joined none false = refl
        joined (some abi) b = refl

  named-append :
      (fs gs : List (ArtifactFile Abi)) (name : Text)
      → named (fs ++ gs) name ≡ or_else (named fs name) (named gs name)
  named-append [] gs name = refl
  named-append (f ∷ fs) gs name = elim (Bool-cases (f.name === name)) [
    | inl c ↦ rw c refl
    | inr c ↦ rw c (named-append fs gs name)
  ]

  named-taken_own :
      (f : JsonFile Abi) (name : Text) (o : Option Abi)
      → IsPlain f
      → named (taken f (some name) o) name ≡ (if not (includes f.full debug_infix) then o else none)
  named-taken_own f name none plain = elim (Bool-cases (includes f.full debug_infix)) [
    | inl c ↦ rw c refl
    | inr c ↦ rw c refl
  ]
  named-taken_own f name (some abi) plain = elim (Bool-cases (includes f.full debug_infix)) [
    | inl c ↦ let e : includes f.entry_name debug_infix ≡ true = sym plain ∙ c in rw (c, e) refl
    | inr c ↦
        let e : includes f.entry_name debug_infix ≡ false = sym plain ∙ c in
        rw (c, e, (text_beq_iff name name).1 refl) refl
  ]

  named-taken_other :
      (f : JsonFile Abi) (m name : Text) (o : Option Abi)
      → (m === name) ≡ false
      → named (taken f (some m) o) name ≡ none
  named-taken_other f m name none h = refl
  named-taken_other f m name (some abi) h = elim (Bool-cases (includes f.entry_name debug_infix)) [
    | inl c ↦ rw c refl
    | inr c ↦ rw (c, h) refl
  ]

  -- Whether a file is the artifact of the name, for the index and for `loadAbi`.
  named-taken :
      (f : JsonFile Abi) (name : Text)
      → IsPlain f
      → named (taken f (without_suffix json_extension f.entry_name) f.abi) name ≡ (
          if (f.entry_name === name ++ json_extension) && not (includes f.full debug_infix)
          then f.abi
          else none)
  named-taken f name plain = elim (Bool-cases (f.entry_name === name ++ json_extension)) [
    | inl d ↦
        let e : without_suffix json_extension f.entry_name ≡ some name =
          ap (without_suffix json_extension)
            ((text_beq_iff f.entry_name (name ++ json_extension)).0 d)
          ∙ without_suffix-append json_extension name in
        rw (d, e) (named-taken_own f name f.abi plain)
    | inr d ↦ rw d (elim (Option-cases (without_suffix json_extension f.entry_name)) [
      | inl e ↦ rw e refl
      | inr (m, e) ↦ rw e (
          named-taken_other f m name f.abi
            (other m (append-without_suffix json_extension f.entry_name m e) d))
    ])
  ]
    where
      other :
          (m : Text)
          → m ++ json_extension ≡ f.entry_name
          → (f.entry_name === name ++ json_extension) ≡ false
          → (m === name) ≡ false
      other m e d = elim (Bool-cases (m === name)) [
        | inl c ↦
            let same : m ≡ name = (text_beq_iff m name).0 c in
            let k : f.entry_name ≡ name ++ json_extension =
              sym e ∙ ap (λ p. p ++ json_extension) same in
            let t : (f.entry_name === name ++ json_extension) ≡ true =
              (text_beq_iff f.entry_name (name ++ json_extension)).1 k in
            cc
        | inr c ↦ c
      ]

  named-artifact_files :
      (files : List (JsonFile Abi)) (name : Text)
      → All IsPlain files
      → named (artifact_files files) name ≡ first_abi (find_artifact_json files name)
  unfolding artifact_files find_artifact_json first_abi
  named-artifact_files [] name h = refl
  named-artifact_files (f ∷ fs) name h =
      named-append (taken f (without_suffix json_extension f.entry_name) f.abi) (artifact_files fs)
        name
      ∙ rw (named-taken f name h.0, named-artifact_files fs name h.1)
          (joined ((f.entry_name === name ++ json_extension) && not (includes f.full debug_infix)))
    where
      joined :
          (b : Bool)
          → or_else (if b then f.abi else none) (first_abi (find_artifact_json fs name))
            ≡ first_abi (if b then f ∷ find_artifact_json fs name else find_artifact_json fs name)
      joined true = refl
      joined false = refl

  -- Where no folder of the artifacts is named like a debug copy: an ABI that the selector index has under
  -- a name is the one that `loadAbi` loads for the name.
  pub load_abi-build_selector_index :
      (selectors : Abi → List Text) (files : List (JsonFile Abi)) (name : Text) (abi : Abi)
      → All IsPlain files
      → get (build_selector_index selectors files).artifact_by_name name ≡ some abi
      → load_abi files name ≡ some abi
  unfolding build_selector_index get
  load_abi-build_selector_index selectors files name abi plain h = load_abi-first files name abi (
      sym (named-artifact_files files name plain)
      ∙ sym (get-index_files selectors (artifact_files files) empty_index name)
      ∙ h)
