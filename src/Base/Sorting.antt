-- ===== src/Base/Sorting.antt =====
-- JavaScript's stable `sort` by a comparison, and what stands first after it.
use mathlib.Core.Path.{◌≡◌}
use mathlib.Core.Logic.{inl, inr}
use mathlib.Core.Bool.{Bool, true, false}
use mathlib.Core.List.{List, [], ◌∷◌}
use rayls_sovereign_contract.Base.Tests.{if◌then◌else◌, Bool-cases}
use rayls_sovereign_contract.Base.Lists.{All}

module _ {A : Type 0} (le : A → A → Bool) where
  unfoldable pub insert_by : A → List A → List A
  insert_by a [] = a ∷ []
  insert_by a (x ∷ xs) = let rest = insert_by a xs in if le a x then a ∷ x ∷ xs else x ∷ rest

  unfoldable pub sort_by : List A → List A
  unfolding insert_by
  sort_by [] = []
  sort_by (x ∷ xs) = insert_by x (sort_by xs)

  All-insert_by : (P : A → Type 0) (a : A) (xs : List A) → P a → All P xs → All P (insert_by a xs)
  unfolding insert_by
  All-insert_by P a [] p h = (p, tt)
  All-insert_by P a (x ∷ xs) p h = elim (Bool-cases (le a x)) [
    | inl c ↦ rw c (p, h)
    | inr c ↦ rw c (h.0, All-insert_by P a xs p h.1)
  ]

  -- Sorting makes no element up, and loses none.
  pub All-sort_by : (P : A → Type 0) (xs : List A) → All P xs → All P (sort_by xs)
  unfolding sort_by
  All-sort_by P [] h = tt
  All-sort_by P (x ∷ xs) h = All-insert_by P x (sort_by xs) h.0 (All-sort_by P xs h.1)

  insert_by-All : (P : A → Type 0) (a : A) (xs : List A) → All P (insert_by a xs) → P a × All P xs
  unfolding insert_by
  insert_by-All P a [] h = h
  insert_by-All P a (x ∷ xs) h = elim (Bool-cases (le a x)) [
    | inl c ↦ rw c at h
    | inr c ↦
        let h' : P x × All P (insert_by a xs) = rw c at h in
        let (p, rest) = insert_by-All P a xs h'.1 in (p, (h'.0, rest))
  ]

  pub sort_by-All : (P : A → Type 0) (xs : List A) → All P (sort_by xs) → All P xs
  unfolding sort_by
  sort_by-All P [] h = tt
  sort_by-All P (x ∷ xs) h =
      let (p, rest) = insert_by-All P x (sort_by xs) h in (p, sort_by-All P xs rest)

  module _ (total : (a b : A) → le a b ≡ false → le b a ≡ true)
      (trans : (a b c : A) → le a b ≡ true → le b c ≡ true → le a c ≡ true) where
    -- The first element is not after any.
    abbrev pub IsFirstLeast : List A → Type 0
    IsFirstLeast [] = Unit
    IsFirstLeast (x ∷ xs) = All (λ y. le x y ≡ true) xs

    All-le :
        (a x : A) (xs : List A)
        → le a x ≡ true
        → All (λ y. le x y ≡ true) xs
        → All (λ y. le a y ≡ true) xs
    All-le a x [] h k = tt
    All-le a x (y ∷ ys) h k = (trans a x y h k.0, All-le a x ys h k.1)

    insert_by-IsFirstLeast : (a : A) (xs : List A) → IsFirstLeast xs → IsFirstLeast (insert_by a xs)
    unfolding insert_by
    insert_by-IsFirstLeast a [] h = tt
    insert_by-IsFirstLeast a (x ∷ xs) h = elim (Bool-cases (le a x)) [
      | inl c ↦ rw c (c, All-le a x xs c h)
      | inr c ↦ rw c (All-insert_by (λ y. le x y ≡ true) a xs (total a x c) h)
    ]

    pub sort_by-IsFirstLeast : (xs : List A) → IsFirstLeast (sort_by xs)
    unfolding sort_by
    sort_by-IsFirstLeast [] = tt
    sort_by-IsFirstLeast (x ∷ xs) = insert_by-IsFirstLeast x (sort_by xs) (sort_by-IsFirstLeast xs)
