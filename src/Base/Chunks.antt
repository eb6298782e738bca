-- ===== src/Base/Chunks.antt =====
-- Loops that take a list in slices, `for (let i = 0; i < xs.length; i += size) xs.slice(i, i + size)`,
-- and pairwise relations between what goes in and what comes out.
use Prim.Native.Nat.{ℕ, zero, suc, ◌≤◌, ◌<◌}
use mathlib.Core.Path.{◌≡◌, refl, ap, ap₂, ◌∙◌}
use mathlib.Core.List.{List, [], ◌∷◌, ◌++◌, map}
use native.Mathlib.Omega.{arith}
use rayls_sovereign_contract.Base.Lists.{length, take, drop, All, take-append-drop, length-drop}
use rayls_sovereign_contract.Base.Outcome.{
  Outcome, ok, err, Exec, pure, continue, each, ◌>>=◌, all_settled, fulfilled, cons_ok, promise_all,
  Ensures, Ensures-continue, Ensures-ok,
}

module _ {ℓ} {A : Type ℓ} where
  abbrev pub concat : List (List A) → List A
  concat [] = []
  concat (c ∷ cs) = c ++ concat cs

  -- Each slice takes at least one element if `size` is not 0, so the length is fuel enough.
  unfoldable pub slices : ℕ → ℕ → List A → List (List A)
  slices zero size xs = []
  slices (suc fuel) size [] = []
  slices (suc fuel) size (x ∷ xs) = take size (x ∷ xs) ∷ slices fuel size (drop size (x ∷ xs))

  unfoldable pub chunks : ℕ → List A → List (List A)
  unfolding slices
  chunks size xs = slices (length xs) size xs

  pub concat-slices :
      (fuel size : ℕ) (xs : List A)
      → 0 < size
      → length xs ≤ fuel
      → concat (slices fuel size xs) ≡ xs
  unfolding slices
  concat-slices zero size [] pos h = refl
  concat-slices zero size (x ∷ xs) pos h = absurd (omega arith)
  concat-slices (suc fuel) size [] pos h = refl
  concat-slices (suc fuel) size (x ∷ xs) pos h =
      ap (◌++◌ (take size (x ∷ xs))) (
        concat-slices fuel size (drop size (x ∷ xs)) pos (omega (arith, length-drop size (x ∷ xs))))
      ∙ take-append-drop size (x ∷ xs)

  pub concat-chunks : (size : ℕ) (xs : List A) → 0 < size → concat (chunks size xs) ≡ xs
  unfolding chunks
  concat-chunks size xs pos = concat-slices (length xs) size xs pos (omega arith)

  length-take-le : (n : ℕ) (xs : List A) → length (take n xs) ≤ n
  length-take-le zero xs = omega arith
  length-take-le (suc n) [] = omega arith
  length-take-le (suc n) (x ∷ xs) = omega (arith, length-take-le n xs)

  pub slices-le : (fuel size : ℕ) (xs : List A) → All (λ c. length c ≤ size) (slices fuel size xs)
  unfolding slices
  slices-le zero size xs = tt
  slices-le (suc fuel) size [] = tt
  slices-le (suc fuel) size (x ∷ xs) =
      (length-take-le size (x ∷ xs), slices-le fuel size (drop size (x ∷ xs)))

-- `out.push(...await f(chunk))` for each chunk
unfoldable pub append_each : {W A B : Type 0} → (A → Exec W (List B)) → List A → Exec W (List B)
append_each f [] w = (ok [], w)
append_each f (c ∷ cs) w =
    continue (f c w).0 (λ bs. append_each f cs >>= λ rest. pure (bs ++ rest)) (f c w).1

-- The lists are as long as each other, and related element by element.
module _ {A B : Type 0} (R : A → B → Type 0) where
  abbrev pub Pairwise : List A → List B → Type 0
  Pairwise [] [] = Unit
  Pairwise [] (b ∷ bs) = ⊥
  Pairwise (a ∷ as') [] = ⊥
  Pairwise (a ∷ as') (b ∷ bs) = R a b × Pairwise as' bs

  pub Pairwise-append :
      (as' as'' : List A) (bs bs' : List B)
      → Pairwise as' bs
      → Pairwise as'' bs'
      → Pairwise (as' ++ as'') (bs ++ bs')
  Pairwise-append [] as'' [] bs' h k = k
  Pairwise-append [] as'' (b ∷ bs) bs' h k = absurd h
  Pairwise-append (a ∷ as') as'' [] bs' h k = absurd h
  Pairwise-append (a ∷ as') as'' (b ∷ bs) bs' h k = (h.0, Pairwise-append as' as'' bs bs' h.1 k)

  cons_ok-Pairwise :
      (a : A) (as' : List A) (b : B) (o : Outcome (List B))
      → R a b
      → Ensures (Pairwise as') o
      → Ensures (Pairwise (a ∷ as')) (cons_ok b o)
  cons_ok-Pairwise a as' b (ok bs) r h = (r, h)
  cons_ok-Pairwise a as' b (err e) r h = tt

  fulfilled-Pairwise :
      (a : A) (as' : List A) (r : Outcome B) (rs : List (Outcome B))
      → Ensures (R a) r
      → Ensures (Pairwise as') (fulfilled rs)
      → Ensures (Pairwise (a ∷ as')) (fulfilled (r ∷ rs))
  unfolding fulfilled
  fulfilled-Pairwise a as' (ok b) rs h k = cons_ok-Pairwise a as' b (fulfilled rs) h k
  fulfilled-Pairwise a as' (err e) rs h k = tt

  module _ {W : Type 0} (f : A → Exec W B) (keeps : (a : A) (w : W) → Ensures (R a) (f a w).0) where
    all_settled-Pairwise :
        (as' : List A) (w : W) → Ensures (Pairwise as') (fulfilled (all_settled f as' w).0)
    unfolding all_settled fulfilled
    all_settled-Pairwise [] w = tt
    all_settled-Pairwise (a ∷ as') w =
        fulfilled-Pairwise a as' (f a w).0 (all_settled f as' (f a w).1).0 (keeps a w)
          (all_settled-Pairwise as' (f a w).1)

    -- What `Promise.all` answers with is related, in order, to what it was given.
    pub promise_all-Pairwise :
        (as' : List A) (w : W) → Ensures (Pairwise as') (promise_all f as' w).0
    unfolding promise_all
    promise_all-Pairwise as' w = all_settled-Pairwise as' w

  pub append_each-Pairwise :
      {W : Type 0} (f : List A → Exec W (List B))
      → ((c : List A) (w : W) → Ensures (Pairwise c) (f c w).0)
      → (cs : List (List A)) (w : W) → Ensures (Pairwise (concat cs)) (append_each f cs w).0
  unfolding append_each
  append_each-Pairwise f keeps [] w = tt
  append_each-Pairwise f keeps (c ∷ cs) w =
      Ensures-continue (Pairwise (c ++ concat cs)) (f c w).0 _ (f c w).1 λ bs e.
        let later = append_each f cs (f c w).1 in
        Ensures-continue (Pairwise (c ++ concat cs)) later.0 _ later.1 λ rest e'.
          Pairwise-append c (concat cs) bs rest (Ensures-ok (Pairwise c) (f c w).0 bs e (keeps c w))
            (Ensures-ok (Pairwise (concat cs)) later.0 rest e'
              (append_each-Pairwise f keeps cs (f c w).1))

-- Keys that each step of a loop keeps.
module _ {A B : Type 0} {K : Type 0} (f : A → K) (g : B → K) where
  abbrev pub Keeps : A → B → Type 0
  Keeps a b = g b ≡ f a

  pub map-Pairwise : (as' : List A) (bs : List B) → Pairwise Keeps as' bs → map g bs ≡ map f as'
  map-Pairwise [] [] h = refl
  map-Pairwise [] (b ∷ bs) h = absurd h
  map-Pairwise (a ∷ as') [] h = absurd h
  map-Pairwise (a ∷ as') (b ∷ bs) h = ap₂ ◌∷◌ h.0 (map-Pairwise as' bs h.1)

  module _ {W : Type 0} (step : A → Exec W B)
      (keeps : (a : A) (w : W) → Ensures (Keeps a) (step a w).0) where
    pub each-keys :
        (as' : List A) (w : W) → Ensures (λ bs. map g bs ≡ map f as') (each step as' w).0
    unfolding each
    each-keys [] w = refl
    each-keys (a ∷ as') w =
        Ensures-continue (λ bs. map g bs ≡ map f (a ∷ as')) (step a w).0 _ (step a w).1
          λ b e.
            let later = each step as' (step a w).1 in
            Ensures-continue (λ bs. map g bs ≡ map f (a ∷ as')) later.0 _ later.1
              λ bs e'.
                ap₂ ◌∷◌ (Ensures-ok (Keeps a) (step a w).0 b e (keeps a w)) (
                  Ensures-ok (λ bs. map g bs ≡ map f as') later.0 bs e'
                    (each-keys as' (step a w).1))

    pub promise_all-keys :
        (as' : List A) (w : W) → Ensures (λ bs. map g bs ≡ map f as') (promise_all step as' w).0
    promise_all-keys as' w =
        Ensures-map (promise_all step as' w).0 (promise_all-Pairwise Keeps step keeps as' w)
      where
        Ensures-map :
            (o : Outcome (List B))
            → Ensures (Pairwise Keeps as') o
            → Ensures (λ bs. map g bs ≡ map f as') o
        Ensures-map (ok bs) h = map-Pairwise as' bs h
        Ensures-map (err e) h = tt
