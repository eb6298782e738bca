-- ===== src/Audit/SelectorIndex/Best.antt =====
-- Which artifact the fingerprint picks in hardhat/tasks/audit/check-onchain-selectors.ts.
use rayls_sovereign_contract.Base.{
  ℕ, ◌≡◌, ◌↔◌, ◌⊎◌, ◌<◌, get_or, nat_beq, ltb, if◌then◌else◌, inl, inr, refl, sym, subst, Bool,
  true, false, Option, none, some, List, [], ◌∷◌, keep_if, contains, All, Bool-cases, Option-cases,
  arith, ◌===◌,
}
use rayls_sovereign_contract.Base.Text.{Text, text_eq, text_beq_iff}
use rayls_sovereign_contract.Base.Dict.{get}
use rayls_sovereign_contract.Base.Sorting.{
  sort_by, All-sort_by, sort_by-All, IsFirstLeast, sort_by-IsFirstLeast,
}
use rayls_sovereign_contract.Audit.SelectorIndex.{
  SelectorIndex, names_of, candidate_le, covers, functions, fingerprint_by_all_selectors, first,
}

module _ {Abi : Type 0} (function_count : Abi → ℕ) (locale_le : Text → Text → Bool)
    (index : SelectorIndex Abi) where
  abbrev le : Text → Text → Bool
  le = candidate_le function_count locale_le index

  module _ (total : (a b : Text) → locale_le a b ≡ false → locale_le b a ≡ true)
      (trans : (a b c : Text)
        → locale_le a b ≡ true
        → locale_le b c ≡ true
        → locale_le a c ≡ true) where
    le_total : (a b : Text) → le a b ≡ false → le b a ≡ true
    unfolding candidate_le
    le_total a b h = ground (arith, total a b)

    le_trans : (a b c : Text) → le a b ≡ true → le b c ≡ true → le a c ≡ true
    unfolding candidate_le
    le_trans a b c h k = ground (arith, trans a b c)

    -- No name covers the selectors; or `name` does, and comes before every other that does.
    abbrev pub IsBest : List Text → Option Text → Type 0
    IsBest sels none = (name : Text) → covers function_count locale_le index sels name ≡ false
    IsBest sels (some name) =
        (covers function_count locale_le index sels name ≡ true)
        × ((other : Text)
            → covers function_count locale_le index sels other ≡ true
            → le name other ≡ true)

    All-keep_if :
        (test : Text → Bool) (names : List Text) → All (λ n. test n ≡ true) (keep_if test names)
    All-keep_if test [] = tt
    All-keep_if test (n ∷ ns) = elim (Bool-cases (test n)) [
      | inl c ↦ rw c (c, All-keep_if test ns)
      | inr c ↦ rw c (All-keep_if test ns)
    ]

    -- What passes the test and is in the list is kept.
    contains-keep_if :
        (test : Text → Bool) (names : List Text) (n : Text)
        → contains names n ≡ true
        → test n ≡ true
        → contains (keep_if test names) n ≡ true
    contains-keep_if test [] n h t = h
    contains-keep_if test (m ∷ ms) n h t = elim (Bool-cases (m === n)) [
      | inl c ↦
          let same : m ≡ n = (text_beq_iff m n).0 c in
          let kept : test m ≡ true = rw same t in rw (kept, c) refl
      | inr c ↦
          let h' : contains ms n ≡ true = rw c at h in
          let rest : contains (keep_if test ms) n ≡ true = contains-keep_if test ms n h' t in
          elim (Bool-cases (test m)) [ inl d ↦ rw (d, c) rest | inr d ↦ rw d rest ]
    ]

    All-contains :
        (P : Text → Type 0) (names : List Text) (n : Text)
        → All P names
        → contains names n ≡ true
        → P n
    All-contains P [] n h k = cc
    All-contains P (m ∷ ms) n h k = elim (Bool-cases (m === n)) [
      | inl c ↦ let same : m ≡ n = (text_beq_iff m n).0 c in rw same at h.0
      | inr c ↦ All-contains P ms n h.1 (rw c at k)
    ]

    covers-contains :
        (s : Text) (ss : List Text) (name : Text)
        → covers function_count locale_le index (s ∷ ss) name ≡ true
        → contains (names_of index.by_selector s) name ≡ true
    covers-contains s ss name h = ground arith

    first-IsBest :
        (sels : List Text) (names : List Text)
        → All (λ n. covers function_count locale_le index sels n ≡ true) names
        → ((n : Text)
            → covers function_count locale_le index sels n ≡ true
            → contains names n ≡ true)
        → (sorted : List Text) → sort_by le names ≡ sorted
        → IsBest sels (first sorted)
    first-IsBest sels names sound complete [] e = λ name.
        elim (Bool-cases (covers function_count locale_le index sels name)) [
          | inl c ↦ absurd (All-contains (λ n. ⊥) names name none_left (complete name c))
          | inr c ↦ c
        ]
      where
        none_left : All (λ n. ⊥) names
        none_left = sort_by-All le (λ n. ⊥) names (subst (All (λ n. ⊥)) (sym e) tt)
    first-IsBest sels names sound complete (n ∷ ns) e = (
      covered.0,
      λ other c. All-contains (λ m. le n m ≡ true) names other not_before (complete other c),
    )
      where
        covered : All (λ m. covers function_count locale_le index sels m ≡ true) (n ∷ ns)
        covered =
            subst (All (λ m. covers function_count locale_le index sels m ≡ true)) e (
              All-sort_by le (λ m. covers function_count locale_le index sels m ≡ true) names sound)

        itself : le n n ≡ true
        itself = elim (Bool-cases (le n n)) [ inl c ↦ c | inr c ↦ le_total n n c ]

        least : IsFirstLeast le le_total le_trans (n ∷ ns)
        least =
            subst (IsFirstLeast le le_total le_trans) e
              (sort_by-IsFirstLeast le le_total le_trans names)

        not_before : All (λ m. le n m ≡ true) names
        not_before =
            sort_by-All le (λ m. le n m ≡ true) names
              (subst (All (λ m. le n m ≡ true)) (sym e) (itself, least))

    -- The fingerprint is the first of the candidates in the order of the code.
    pub fingerprint_by_all_selectors-IsBest :
        (s : Text) (ss : List Text)
        → IsBest (s ∷ ss) (fingerprint_by_all_selectors function_count locale_le (s ∷ ss) index)
    unfolding fingerprint_by_all_selectors
    fingerprint_by_all_selectors-IsBest s ss =
        let sels = s ∷ ss in
        let names = names_of index.by_selector s in
        first-IsBest sels (keep_if (covers function_count locale_le index sels) names)
          (All-keep_if (covers function_count locale_le index sels) names)
          (λ n c.
            contains-keep_if (covers function_count locale_le index sels) names n
              (covers-contains s ss n c) c)
          _ refl

    -- The artifact is indexed under every one of the selectors.
    pub Covers : List Text → Text → Type 0
    Covers sels name = All (λ s. contains (get_or (get index.by_selector s) []) name ≡ true) sels

    -- Whether the artifact has bytecode, and how many functions its ABI has.
    pub deployable : Text → Bool
    deployable name = get_or (get index.has_bytecode name) false

    pub abi_size : Option Abi → ℕ
    abi_size none = 0
    abi_size (some abi) = function_count abi

    pub size_of : Text → ℕ
    size_of name = abi_size (get index.artifact_by_name name)

    -- With bytecode before without; then fewer functions before more; then by name.
    pub Precedes : Text → Text → Type 0
    Precedes a b =
        ((deployable a ≡ true) × (deployable b ≡ false))
        ⊎ ((deployable a ≡ deployable b)
            × ((size_of a < size_of b) ⊎ ((size_of a ≡ size_of b) × (locale_le a b ≡ true))))

    abbrev pub IsChosen : List Text → Option Text → Type 0
    IsChosen sels none = (name : Text) → ¬ Covers sels name
    IsChosen sels (some name) =
        Covers sels name × ((other : Text) → Covers sels other → Precedes name other)

    covers-Covers :
        (sels : List Text) (name : Text)
        → (covers function_count locale_le index sels name ≡ true) ↔ Covers sels name
    unfolding Covers
    covers-Covers [] name = (λ h. tt, λ h. refl)
    covers-Covers (s ∷ ss) name =
        let rest = covers-Covers ss name in
        elim (Bool-cases (contains (names_of index.by_selector s) name)) [
          | inl c ↦ rw c (λ h. (refl, rest.0 h), λ h. rest.1 h.1)
          | inr c ↦ rw c (λ h. cc, λ h. cc (h.0))
        ]

    functions-size_of : (name : Text) → functions function_count locale_le index name ≡ size_of name
    unfolding size_of abi_size
    functions-size_of name = elim (Option-cases (get index.artifact_by_name name)) [
      | inl c ↦ rw c refl
      | inr (abi, c) ↦ rw c refl
    ]

    -- The code's comparison, of what it compares.
    before :
        (da db : Bool) (sa sb : ℕ) (by_name : Bool)
        → (if nat_beq (if da then 0 else 1) (if db then 0 else 1)
            then (if nat_beq sa sb then by_name else ltb sa sb)
            else ltb (if da then 0 else 1) (if db then 0 else 1))
          ≡ true
        → ((da ≡ true) × (db ≡ false)) ⊎ ((da ≡ db) × ((sa < sb) ⊎ ((sa ≡ sb) × (by_name ≡ true))))
    before true false sa sb by_name h = inl (refl, refl)
    before false true sa sb by_name h = cc
    before true true sa sb by_name h = inr (refl, ground arith)
    before false false sa sb by_name h = inr (refl, ground arith)

    le-Precedes : (a b : Text) → le a b ≡ true → Precedes a b
    unfolding candidate_le Precedes deployable
    le-Precedes a b h =
        let h' = rw (functions-size_of a, functions-size_of b) at h in
        before (get_or (get index.has_bytecode a) false) (get_or (get index.has_bytecode b) false)
          (size_of a) (size_of b) (locale_le a b) h'

    chosen : (sels : List Text) (o : Option Text) → IsBest sels o → IsChosen sels o
    chosen sels none h = λ name c. let t = (covers-Covers sels name).1 c in cc (h name)
    chosen sels (some name) h = (
      (covers-Covers sels name).0 h.0,
      λ other c. le-Precedes name other (h.1 other ((covers-Covers sels other).1 c)),
    )

    -- For any selectors there are, in whatever order the index has the names, and for an order of names
    -- that is total and transitive: if some artifact is indexed under all of them, the fingerprint is one
    -- that is, and every other that is comes after it: one with bytecode before one without, then the one
    -- with fewer functions, then by name; and if the fingerprint is none, no artifact is indexed under all.
    pub fingerprint_by_all_selectors-IsChosen :
        (s : Text) (ss : List Text)
        → IsChosen (s ∷ ss) (fingerprint_by_all_selectors function_count locale_le (s ∷ ss) index)
    fingerprint_by_all_selectors-IsChosen s ss =
        chosen (s ∷ ss) _ (fingerprint_by_all_selectors-IsBest s ss)
