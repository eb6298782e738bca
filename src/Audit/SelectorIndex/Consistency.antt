-- ===== src/Audit/SelectorIndex/Consistency.antt =====
-- The two maps of the selector index in hardhat/tasks/audit/check-onchain-selectors.ts agree.
use rayls_sovereign_contract.Base.{
  ◌≡◌, ◌∙◌, ◌⊎◌, inl, inr, refl, ap, Bool, true, false, Option, none, some, List, [], ◌∷◌, contains,
  get_or, Bool-cases, arith, if◌then◌else◌, ◌===◌,
}
use rayls_sovereign_contract.Base.Text.{Text, text_eq, text_beq_iff}
use rayls_sovereign_contract.Base.Dict.{Dict, get, put, has, is_some, add, get-put, contains-add}
use rayls_sovereign_contract.Audit.AbiFiles.{JsonFile}
use rayls_sovereign_contract.Audit.SelectorIndex.{
  ArtifactFile, artifact_files, SelectorIndex, empty_index, names_of, add_selectors, add_artifact,
  index_files, build_selector_index,
}

names_of-put :
    (d : Dict Text (List Text)) (t name s other : Text)
    → contains (names_of (put d t (add (names_of d t) name)) s) other ≡ (
        if t === s
        then (if name === other then true else contains (names_of d s) other)
        else contains (names_of d s) other)
names_of-put d t name s other =
    ap (λ o. contains (get_or o []) other) (get-put d t s (add (names_of d t) name))
    ∙ by_key (Bool-cases (t === s))
  where
    by_key :
        ((t === s) ≡ true) ⊎ ((t === s) ≡ false)
        → contains (get_or (if t === s then some (add (names_of d t) name) else get d s) []) other
          ≡ (if t === s
              then (if name === other then true else contains (names_of d s) other)
              else contains (names_of d s) other)
    by_key (inl c) =
        let same : t ≡ s = (text_beq_iff t s).0 c in
        rw c (rw same (contains-add (names_of d s) name other))
    by_key (inr c) = rw c refl

-- A name is added to the sets of its selectors, and to no other.
names_of-add_selectors :
    (name : Text) (ss : List Text) (d : Dict Text (List Text)) (s other : Text)
    → contains (names_of (add_selectors name ss d) s) other ≡ (
        if name === other
        then (if contains ss s then true else contains (names_of d s) other)
        else contains (names_of d s) other)
unfolding add_selectors
names_of-add_selectors name [] d s other = ground arith
names_of-add_selectors name (t ∷ ts) d s other =
    names_of-add_selectors name ts (put d t (add (names_of d t) name)) s other
    ∙ ground (arith, names_of-put d t name s other)

module _ {Abi : Type 0} (selectors : Abi → List Text) where
  abbrev pub declares : Option Abi → Text → Bool
  declares none s = false
  declares (some abi) s = contains (selectors abi) s

  -- A name stands in the set of a selector exactly if its ABI declares the selector.
  abbrev pub IsConsistent : SelectorIndex Abi → Type 0
  IsConsistent i =
      (s name : Text)
      → contains (names_of i.by_selector s) name ≡ declares (get i.artifact_by_name name) s

  add_artifact-IsConsistent :
      (f : ArtifactFile Abi) (i : SelectorIndex Abi)
      → IsConsistent i
      → IsConsistent (add_artifact selectors f i)
  unfolding add_artifact
  add_artifact-IsConsistent f i h s name = elim (Bool-cases (has i.artifact_by_name f.name)) [
    | inl c ↦ rw c (h s name)
    | inr c ↦ rw c (
        names_of-add_selectors f.name (selectors f.abi) i.by_selector s name
        ∙ by_name (Bool-cases (f.name === name)) c)
  ]
    where
      unknown : (o : Option Abi) → is_some o ≡ false → declares o s ≡ false
      unknown none e = refl
      unknown (some abi) e = cc

      by_name :
          ((f.name === name) ≡ true) ⊎ ((f.name === name) ≡ false)
          → has i.artifact_by_name f.name ≡ false
          → (if f.name === name
              then (if contains (selectors f.abi) s
                  then true
                  else contains (names_of i.by_selector s) name)
              else contains (names_of i.by_selector s) name)
            ≡ declares (get (put i.artifact_by_name f.name f.abi) name) s
      by_name (inl d) c =
          let same : f.name ≡ name = (text_beq_iff f.name name).0 d in
          let absent : declares (get i.artifact_by_name f.name) s ≡ false =
            unknown (get i.artifact_by_name f.name) c in
          rw (get-put i.artifact_by_name f.name name f.abi, d)
            (ground (arith, h s name, absent, same))
      by_name (inr d) c = rw (get-put i.artifact_by_name f.name name f.abi, d) (h s name)

  index_files-IsConsistent :
      (fs : List (ArtifactFile Abi)) (i : SelectorIndex Abi)
      → IsConsistent i
      → IsConsistent (index_files selectors fs i)
  unfolding index_files
  index_files-IsConsistent [] i h = h
  index_files-IsConsistent (f ∷ fs) i h =
      index_files-IsConsistent fs (add_artifact selectors f i) (add_artifact-IsConsistent f i h)

  -- In the index of any files, duplicates of a name included, a name stands in the set of a selector
  -- exactly if the ABI that the index has under the name declares the selector.
  pub build_selector_index-IsConsistent :
      (files : List (JsonFile Abi)) → IsConsistent (build_selector_index selectors files)
  unfolding build_selector_index get
  build_selector_index-IsConsistent files =
      index_files-IsConsistent (artifact_files files) empty_index (λ s name. refl)
