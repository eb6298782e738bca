-- ===== src/Audit/Selectors/Grouping.antt =====
-- The live selectors of an address, in hardhat/tasks/audit/check-onchain-selectors.ts.
use rayls_sovereign_contract.Base.{
  ◌≡◌, ◌∙◌, ◌⊎◌, inl, inr, refl, ap, sym, Bool, true, false, ◌&&◌, some, List, [], ◌∷◌, Bool-cases,
  Option-cases, arith, contains, any, all, get_or, if◌then◌else◌, ◌===◌,
}
use rayls_sovereign_contract.Base.Text.{Text, text_eq, text_beq_iff}
use rayls_sovereign_contract.Base.Dict.{Dict, get, put, add, get-put, contains-add}
use mathlib.Core.List.{Memᴰ}
use rayls_sovereign_contract.Audit.Selectors.{Mapping}
use rayls_sovereign_contract.Audit.Selectors.Resolve.{selectors_by_target}

pub all-contains :
    (test : Text → Bool) (ss : List Text) (s : Text)
    → all test ss ≡ true
    → contains ss s ≡ true
    → test s ≡ true
all-contains test [] s h k = cc
all-contains test (t ∷ ts) s h k =
    ground (arith, all-contains test ts s, ap test ((text_beq_iff t s).0 _))

pub contains-all :
    (test : Text → Bool) (ss : List Text)
    → ((s : Text) → contains ss s ≡ true → test s ≡ true)
    → all test ss ≡ true
contains-all test [] h = refl
contains-all test (t ∷ ts) h =
    let first : test t ≡ true = h t (rw ((text_beq_iff t t).1 refl) refl) in
    rw first (contains-all test ts (λ s k. h s (ground arith)))

abbrev pub selectors_at : Dict Text (List Text) → Text → List Text
selectors_at d address = get_or (get d address) []

abbrev is_at : Text → Text → Mapping → Bool
is_at address s m = (m.target_address === address) && (m.selector === s)

contains-put :
    (d : Dict Text (List Text)) (a s address t : Text)
    → contains (selectors_at (put d a (add (selectors_at d a) s)) address) t
      ≡ (if (a === address) && (s === t) then true else contains (selectors_at d address) t)
contains-put d a s address t =
    ap (λ o. contains (get_or o []) t) (get-put d a address (add (selectors_at d a) s))
    ∙ by_key (Bool-cases (a === address))
  where
    by_key :
        ((a === address) ≡ true) ⊎ ((a === address) ≡ false)
        → contains
            (get_or (if a === address then some (add (selectors_at d a) s) else get d address) [])
            t
          ≡ (if (a === address) && (s === t) then true else contains (selectors_at d address) t)
    by_key (inl c) =
        let same : a ≡ address = (text_beq_iff a address).0 c in
        rw c (rw same (contains-add (selectors_at d address) s t))
    by_key (inr c) = rw c refl

contains-selectors_by_target :
    (ms : List Mapping) (d : Dict Text (List Text)) (address s : Text)
    → contains (selectors_at (selectors_by_target ms d) address) s
      ≡ (if any (is_at address s) ms then true else contains (selectors_at d address) s)
unfolding selectors_by_target
contains-selectors_by_target [] d address s = refl
contains-selectors_by_target (m ∷ ms) d address s =
    contains-selectors_by_target ms
      (put d m.target_address (add (selectors_at d m.target_address) m.selector)) address s
    ∙ ground (arith, contains-put d m.target_address m.selector address s)

any-Mem :
    (address s : Text) (ms : List Mapping)
    → any (is_at address s) ms ≡ true
    → (m : Mapping) × Memᴰ m ms × (m.target_address ≡ address) × (m.selector ≡ s)
any-Mem address s [] h = cc
any-Mem address s (m ∷ ms) h = elim (Bool-cases (is_at address s m)) [
  | inl c ↦
      let first : (m.target_address ≡ address) × (m.selector ≡ s) =
        ground (arith, text_beq_iff m.target_address address, text_beq_iff m.selector s) in
      (m, Memᴰ.head refl, first.0, first.1)
  | inr c ↦ let (n, k, p, q) = any-Mem address s ms (rw c at h) in (n, Memᴰ.tail k, p, q)
]

Mem-any :
    (address s : Text) (ms : List Mapping) (m : Mapping)
    → Memᴰ m ms
    → m.target_address ≡ address
    → m.selector ≡ s
    → any (is_at address s) ms ≡ true
Mem-any address s [] m k p q = elim k [ ]
Mem-any address s (n ∷ ms) m (Memᴰ.head e) p q =
    let mine : is_at address s m ≡ true =
      ground (arith, text_beq_iff m.target_address address, text_beq_iff m.selector s) in
    let at : is_at address s n ≡ true = sym (ap (is_at address s) e) ∙ mine in rw at refl
Mem-any address s (n ∷ ms) m (Memᴰ.tail k) p q = ground (arith, Mem-any address s ms m k p q)

-- The selectors that the grouping has for an address are those of the live mappings at it.
module _ (live : List Mapping) (address : Text) where
  abbrev pub live_selectors : List Text
  live_selectors = selectors_at (selectors_by_target live []) address

  pub Mem-contains :
      (m : Mapping)
      → Memᴰ m live
      → m.target_address ≡ address
      → contains live_selectors m.selector ≡ true
  unfolding get
  Mem-contains m k e =
      contains-selectors_by_target live [] address m.selector
      ∙ rw (Mem-any address m.selector live m k e refl) refl

  pub contains-Mem :
      (s : Text)
      → contains live_selectors s ≡ true
      → (m : Mapping) × Memᴰ m live × (m.target_address ≡ address) × (m.selector ≡ s)
  unfolding get
  contains-Mem s h =
      any-Mem address s live (
        only (any (is_at address s) live)
          (sym (contains-selectors_by_target live [] address s) ∙ h))
    where
      only : (b : Bool) → (if b then true else false) ≡ true → b ≡ true
      only b h = ground arith

pub get-some :
    (d : Dict Text (List Text)) (address s : Text)
    → contains (selectors_at d address) s ≡ true
    → get d address ≡ some (selectors_at d address)
get-some d address s h = elim (Option-cases (get d address)) [
  | inl e ↦ let no : false ≡ true = rw e at h in cc
  | inr (sels, e) ↦ rw e refl
]
