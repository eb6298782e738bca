-- ===== src/Audit/AbiFiles/Lookup.antt =====
-- The ABI that `loadAbi` of hardhat/tasks/audit/utils.ts reads for a name.
use rayls_sovereign_contract.Base.{
  ℕ, ◌≡◌, inl, inr, refl, ap, sym, false, Option, none, some, List, [], ◌∷◌, ◌++◌, Bool-cases,
  arith, length, length-append, ◌===◌,
}
use rayls_sovereign_contract.Base.Text.{Text, text_eq, text_beq_iff}
use rayls_sovereign_contract.Base.Dict.{unique}
use rayls_sovereign_contract.Audit.AbiFiles.{
  JsonFile, cons_some, without_suffix, aliases, find_artifact_json, first_abi, load_first, load_abi,
}

longer : (c : ℕ) (p x : Text) → ((c ∷ p ++ x) === x) ≡ false
longer c p x = elim (Bool-cases ((c ∷ p ++ x) === x)) [
  | inl h ↦
      let e : c ∷ p ++ x ≡ x = (text_beq_iff (c ∷ p ++ x) x).0 h in
      absurd (omega (arith, ap length e, length-append p x))
  | inr h ↦ h
]

-- A text that ends in the suffix loses it.
pub without_suffix-append : (x p : Text) → without_suffix x (p ++ x) ≡ some p
unfolding without_suffix
without_suffix-append [] [] = refl
without_suffix-append (c ∷ x) [] = rw ((text_beq_iff (c ∷ x) (c ∷ x)).1 refl) refl
without_suffix-append x (c ∷ p) = rw (longer c p x, without_suffix-append x p) refl

cons_some-inv :
    (c : ℕ) (o : Option Text) (p : Text)
    → cons_some c o ≡ some p
    → (q : Text) × (o ≡ some q) × (p ≡ c ∷ q)
cons_some-inv c none p h = cc
cons_some-inv c (some q) p h = (q, refl, cc)

pub append-without_suffix : (x s p : Text) → without_suffix x s ≡ some p → p ++ x ≡ s
unfolding without_suffix
append-without_suffix x [] p h = elim (Bool-cases ([] === x)) [
  | inl c ↦
      let e : [] ≡ x = (text_beq_iff [] x).0 c in
      let q : some [] ≡ some p = rw c at h in let r : [] ≡ p = cc in rw (sym r) (sym e)
  | inr c ↦ let q : none ≡ some p = rw c at h in cc
]
append-without_suffix x (c ∷ s) p h = elim (Bool-cases ((c ∷ s) === x)) [
  | inl d ↦
      let e : c ∷ s ≡ x = (text_beq_iff (c ∷ s) x).0 d in
      let q : some [] ≡ some p = rw d at h in let r : [] ≡ p = cc in rw (sym r) (sym e)
  | inr d ↦
      let h' : cons_some c (without_suffix x s) ≡ some p = rw d at h in
      let (q, e, r) = cons_some-inv c (without_suffix x s) p h' in
      rw r (ap (◌∷◌ c) (append-without_suffix x s q e))
]

module _ {Abi : Type 0} where
  -- The name itself is the first of its aliases.
  pub load_abi-first :
      (files : List (JsonFile Abi)) (name : Text) (abi : Abi)
      → first_abi (find_artifact_json files name) ≡ some abi
      → load_abi files name ≡ some abi
  unfolding load_abi load_first aliases unique
  load_abi-first files name abi h = rw h refl
