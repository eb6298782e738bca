-- ===== src/Deploy/Validation/Layouts.antt =====
-- What the comparison of storage layouts in hardhat/tasks/deploy/validation-helpers.ts accepts.
use rayls_sovereign_contract.Base.{
  ◌≡◌, ◌↔◌, ◌⊎◌, inl, inr, refl, ap, subst, nat_beq_iff, arith, true, List, [], ◌∷◌, ◌++◌,
  Bool-cases,
}
use rayls_sovereign_contract.Base.Text.{text_beq_iff}
use rayls_sovereign_contract.Base.Chunks.{Pairwise}
use rayls_sovereign_contract.Deploy.Validation.{
  StorageLayoutEntry, same_entry, preserves, compare_storage,
}

-- The same place in storage and the same type.
pub Stays : StorageLayoutEntry → StorageLayoutEntry → Type 0
Stays old new = (old.slot ≡ new.slot) × (old.type_name ≡ new.type_name) × (old.offset ≡ new.offset)

-- The new layout has every old entry at its place, and then others.
pub Extends : List StorageLayoutEntry → List StorageLayoutEntry → Type 0
Extends old new =
    (kept : List StorageLayoutEntry) × (added : List StorageLayoutEntry) × (new ≡ kept ++ added)
    × Pairwise Stays old kept

same_entry-Stays : (old new : StorageLayoutEntry) → (same_entry old new ≡ true) ↔ Stays old new
unfolding Stays
same_entry-Stays old new = ground (
  arith,
  text_beq_iff old.slot new.slot,
  text_beq_iff old.type_name new.type_name,
  nat_beq_iff old.offset new.offset,
)

Extends-empty : (new : List StorageLayoutEntry) → Extends [] new
unfolding Extends
Extends-empty new = ([], new, refl, tt)

Extends-cons :
    (o n : StorageLayoutEntry) (old new : List StorageLayoutEntry)
    → Extends (o ∷ old) (n ∷ new) ↔ (Stays o n × Extends old new)
unfolding Extends
Extends-cons o n old new = (
  λ (kept, added, e, p). split kept added e p,
  λ (s, (kept, added, e, p)). (n ∷ kept, added, ap (λ l. n ∷ l) e, (s, p)),
)
  where
    split :
        (kept added : List StorageLayoutEntry)
        → n ∷ new ≡ kept ++ added
        → Pairwise Stays (o ∷ old) kept
        → Stays o n
          × ((k : List StorageLayoutEntry) × (a : List StorageLayoutEntry) × (new ≡ k ++ a)
              × Pairwise Stays old k)
    split [] added e p = absurd p
    split (k ∷ ks) added e p =
        let head : k ≡ n = cc in (subst (λ m. Stays o m) head p.0, (ks, added, cc, p.1))

Extends-nil : (o : StorageLayoutEntry) (old : List StorageLayoutEntry) → ¬ Extends (o ∷ old) []
unfolding Extends
Extends-nil o old (kept, added, e, p) = none_kept kept added e p
  where
    none_kept :
        (kept added : List StorageLayoutEntry)
        → ◌≡◌ {A = List StorageLayoutEntry} [] (kept ++ added)
        → Pairwise Stays (o ∷ old) kept
        → ⊥
    none_kept [] added e p = absurd p
    none_kept (k ∷ ks) added e p = cc

preserves-Extends :
    (old new : List StorageLayoutEntry) → (preserves old new ≡ true) ↔ Extends old new
unfolding preserves
preserves-Extends [] new = (λ h. Extends-empty new, λ h. refl)
preserves-Extends (o ∷ old) [] = (λ h. cc, λ h. absurd (Extends-nil o old h))
preserves-Extends (o ∷ old) (n ∷ new) =
    let one = same_entry-Stays o n in
    let both = Extends-cons o n old new in
    let rest = preserves-Extends old new in
    elim (Bool-cases (same_entry o n)) [
      | inl c ↦ rw c (λ h. both.1 (one.0 c, rest.0 h), λ h. rest.1 (both.0 h).1)
      | inr c ↦ rw c (λ h. cc, λ h. let t = one.1 (both.0 h).0 in cc)
    ]

-- The comparison accepts a new layout exactly if one of the two layouts is empty, or the new one has every
-- old entry at its place with its slot, type and offset, whatever it adds after them.
pub compare_storage-Extends :
    (old new : List StorageLayoutEntry)
    → (compare_storage old new ≡ true) ↔ ((old ≡ []) ⊎ ((new ≡ []) ⊎ Extends old new))
unfolding compare_storage
compare_storage-Extends [] new = (λ h. inl refl, λ h. refl)
compare_storage-Extends (o ∷ old) [] = (λ h. inr (inl refl), λ h. refl)
compare_storage-Extends (o ∷ old) (n ∷ new) =
    let same = preserves-Extends (o ∷ old) (n ∷ new) in
    (
      λ h. inr (inr (same.0 h)),
      λ h. elim h [ inl e ↦ cc | inr r ↦ elim r [ inl e ↦ cc | inr x ↦ same.1 x ] ],
    )
