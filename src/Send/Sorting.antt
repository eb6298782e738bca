-- ===== src/Send/Sorting.antt =====
-- What a round of sendWithAllocatedNonces.ts sorts out, and the receipts that it writes.
use rayls_sovereign_contract.Base.{
  ℕ, suc, ◌<◌, ◌≡◌, ◌⊎◌, inl, inr, refl, ap, ◌∙◌, true, false, Option, some, List, [], ◌∷◌, length,
  set, contains, get_elem?, All, arith, length-set, get_elem?-set_self, get_elem?-set_ne,
  nat_beq_iff, nat_eq, nat_beq, Bool-cases,
}
use rayls_sovereign_contract.Base.Outcome.{Outcome, Ensures, ok, err, Exec, all_settled}
use rayls_sovereign_contract.Send.{
  Sorted, sort_results, assign, fill, indices, is_nonce_collision, accept, collide,
}

-- A property of an index and of the value that its action came to.
module _ {A : Type 0} (P : ℕ → A → Type 0) where
  abbrev pub EachOk : List ℕ → List (Outcome A) → Type 0
  EachOk (i ∷ is) (ok a ∷ rs) = P i a × EachOk is rs
  EachOk (i ∷ is) (err e ∷ rs) = EachOk is rs
  EachOk _ _ = Unit

  abbrev pub Owned : List (ℕ × A) → Type 0
  Owned = All (λ p. P p.0 p.1)

  accept-Owned :
      (i : ℕ) (a : A) (o : Outcome (Sorted A))
      → P i a
      → Ensures (λ s. Owned s.accepted) o
      → Ensures (λ s. Owned s.accepted) (accept i a o)
  accept-Owned i a (ok s) p h = (p, h)
  accept-Owned i a (err e) p h = tt

  collide-Owned :
      (i : ℕ) (o : Outcome (Sorted A))
      → Ensures (λ s. Owned s.accepted) o
      → Ensures (λ s. Owned s.accepted) (collide i o)
  collide-Owned i (ok s) h = h
  collide-Owned i (err e) h = tt

  pub sort_results-Owned :
      (is : List ℕ) (rs : List (Outcome A))
      → EachOk is rs
      → Ensures (λ s. Owned s.accepted) (sort_results is rs)
  unfolding sort_results
  sort_results-Owned [] rs h = tt
  sort_results-Owned (i ∷ is) [] h = tt
  sort_results-Owned (i ∷ is) (ok a ∷ rs) h =
      accept-Owned i a (sort_results is rs) h.0 (sort_results-Owned is rs h.1)
  sort_results-Owned (i ∷ is) (err x ∷ rs) h = elim (Bool-cases (is_nonce_collision x)) [
    | inl c ↦ rw c (collide-Owned i (sort_results is rs) (sort_results-Owned is rs h))
    | inr c ↦ rw c tt
  ]

-- Each index of a round is among the accepted or among the collided.
module _ {A : Type 0} (j : ℕ) where
  abbrev pub Sorts : List ℕ → Sorted A → Type 0
  Sorts is s =
      contains is j ≡ true
      → (contains (indices s.accepted) j ≡ true) ⊎ (contains s.collided j ≡ true)

  accept-Sorts :
      (i : ℕ) (is : List ℕ) (a : A) (o : Outcome (Sorted A))
      → Ensures (Sorts is) o
      → Ensures (Sorts (i ∷ is)) (accept i a o)
  accept-Sorts i is a (ok s) h = λ m. ground arith
  accept-Sorts i is a (err e) h = tt

  collide-Sorts :
      (i : ℕ) (is : List ℕ) (o : Outcome (Sorted A))
      → Ensures (Sorts is) o
      → Ensures (Sorts (i ∷ is)) (collide i o)
  collide-Sorts i is (ok s) h = λ m. ground arith
  collide-Sorts i is (err e) h = tt

  pub sort_results-Sorts :
      (is : List ℕ) (rs : List (Outcome A))
      → length rs ≡ length is
      → Ensures (Sorts is) (sort_results is rs)
  unfolding sort_results
  sort_results-Sorts [] rs h = λ m. cc
  sort_results-Sorts (i ∷ is) [] h = absurd (omega arith)
  sort_results-Sorts (i ∷ is) (ok a ∷ rs) h =
      accept-Sorts i is a (sort_results is rs) (sort_results-Sorts is rs (omega arith))
  sort_results-Sorts (i ∷ is) (err x ∷ rs) h = elim (Bool-cases (is_nonce_collision x)) [
    | inl c ↦
        rw c (collide-Sorts i is (sort_results is rs) (sort_results-Sorts is rs (omega arith)))
    | inr c ↦ rw c tt
  ]

module _ {A : Type 0} where
  pub length-fill :
      (receipts : List (Option A)) (ps : List (ℕ × A)) → length (fill receipts ps) ≡ length receipts
  unfolding fill
  length-fill receipts [] = refl
  length-fill receipts ((i, r) ∷ ps) =
      length-fill (set receipts i (some r)) ps ∙ length-set receipts i (some r)

-- Writing the accepted receipts in.
module _ {A : Type 0} (P : ℕ → A → Type 0) where
  abbrev pub Holds : List (Option A) → ℕ → Type 0
  Holds receipts i = (r : A) × (get_elem? receipts i ≡ some (some r)) × P i r

  set-Holds_ne :
      (receipts : List (Option A)) (i j : ℕ) (r : A)
      → nat_beq i j ≡ false
      → Holds receipts j
      → Holds (set receipts i (some r)) j
  set-Holds_ne receipts i j r other (q, e, p) =
      (q, get_elem?-set_ne receipts i j (some r) (λ x. cc (other, (nat_beq_iff i j).1 x)) ∙ e, p)

  set-Holds_self :
      (receipts : List (Option A)) (i j : ℕ) (r : A)
      → nat_beq i j ≡ true
      → j < length receipts
      → P i r
      → Holds (set receipts i (some r)) j
  set-Holds_self receipts i j r same fits p =
      let e : i ≡ j = (nat_beq_iff i j).0 same in
      rw e (r, get_elem?-set_self receipts j (some r) fits, rw e at p)

  pub fill-Holds :
      (receipts : List (Option A)) (ps : List (ℕ × A)) (j : ℕ)
      → j < length receipts
      → Owned P ps
      → Holds receipts j ⊎ (contains (indices ps) j ≡ true)
      → Holds (fill receipts ps) j
  unfolding fill
  fill-Holds receipts [] j fits own (inl h) = h
  fill-Holds receipts [] j fits own (inr c) = cc
  fill-Holds receipts ((i, r) ∷ ps) j fits own h =
      fill-Holds (set receipts i (some r)) ps j (omega (arith, length-set receipts i (some r)))
        own.1
        (elim (Bool-cases (nat_beq i j)) [
          | inl same ↦ inl (set-Holds_self receipts i j r same fits own.0)
          | inr other ↦ elim h [
            | inl old ↦ inl (set-Holds_ne receipts i j r other old)
            | inr c ↦ inr (rw other at c)
          ]
        ])

-- The sent and the mined of one round.
module _ {W A B : Type 0} (P : ℕ → B → Type 0) (f : A → Exec W B) where
  -- Whatever the world, the action of each index answers with a value of that index.
  abbrev pub Answers : List ℕ → List A → Type 0
  Answers (i ∷ is) (a ∷ as') = ((w : W) (b : B) → (f a w).0 ≡ ok b → P i b) × Answers is as'
  Answers _ _ = Unit

  settled-cons :
      (i : ℕ) (is : List ℕ) (r : Outcome B) (rs : List (Outcome B))
      → ((b : B) → r ≡ ok b → P i b)
      → EachOk P is rs
      → EachOk P (i ∷ is) (r ∷ rs)
  settled-cons i is (ok b) rs p h = (p b refl, h)
  settled-cons i is (err e) rs p h = h

  pub all_settled-EachOk :
      (is : List ℕ) (as' : List A) (w : W) → Answers is as' → EachOk P is (all_settled f as' w).0
  unfolding all_settled
  all_settled-EachOk [] [] w h = tt
  all_settled-EachOk [] (a ∷ as') w h = tt
  all_settled-EachOk (i ∷ is) [] w h = tt
  all_settled-EachOk (i ∷ is) (a ∷ as') w h =
      settled-cons i is (f a w).0 (all_settled f as' (f a w).1).0 (h.0 w)
        (all_settled-EachOk is as' (f a w).1 h.1)

pub length-assign : (n : ℕ) (is : List ℕ) → length (assign n is) ≡ length is
unfolding assign
length-assign n [] = refl
length-assign n (i ∷ is) = ap suc (length-assign (suc n) is)
