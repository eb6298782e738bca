-- ===== src/Audit/Fetch/Order.antt =====
-- What `fetchInBatches` of hardhat/tasks/audit/utils.ts answers with, and what it has fetched by then.
use rayls_sovereign_contract.Base.{
  ◌⊎◌, inl, inr, refl, ap, ap₂, append_assoc, sym, ◌∙◌, Bool-cases, ℕ, ◌≤◌, ◌<◌, ◌≡◌, List, [], ◌∷◌,
  ◌++◌, All, length, ltb, arith,
}
use rayls_sovereign_contract.Base.Text.{codes, decimal}
use rayls_sovereign_contract.Base.Outcome.{
  Outcome, ok, err, error, Exec, continue, pure, ◌>>=◌, all_settled, fulfilled, cons_ok,
  promise_all, ok-injective,
}
use rayls_sovereign_contract.Base.Chunks.{chunks, concat, slices-le, concat-chunks, append_each}
use rayls_sovereign_contract.Audit.Fetch.{fetch_in_batches}

module _ {W T R : Type 0} (fetcher : T → Exec W R) where
  pair : (p : Outcome (List R) × W) (o : Outcome (List R)) (w : W) → p.0 ≡ o → p.1 ≡ w → p ≡ (o, w)
  pair p o w e k = ap₂ (λ a b. (a, b)) e k

  abbrev prefix_ok : List R → Outcome (List R) → Outcome (List R)
  prefix_ok as' (ok bs) = ok (as' ++ bs)
  prefix_ok as' (err e) = err e

  cons-prefix_ok :
      (a : R) (as' : List R) (o : Outcome (List R))
      → cons_ok a (prefix_ok as' o) ≡ prefix_ok (a ∷ as') o
  cons-prefix_ok a as' (ok bs) = refl
  cons-prefix_ok a as' (err e) = refl

  fulfilled-append :
      (r : Outcome R) (rs rs' : List (Outcome R)) (rest : Outcome (List R)) (as' : List R)
      → fulfilled (r ∷ rs) ≡ ok as'
      → ((bs : List R) → fulfilled rs ≡ ok bs → fulfilled rs' ≡ prefix_ok bs rest)
      → fulfilled (r ∷ rs') ≡ prefix_ok as' rest
  unfolding fulfilled
  fulfilled-append (err e) rs rs' rest as' h k = cc
  fulfilled-append (ok a) rs rs' rest as' h k = by_tail (fulfilled rs) refl
    where
      by_tail :
          (o : Outcome (List R)) → fulfilled rs ≡ o → fulfilled (ok a ∷ rs') ≡ prefix_ok as' rest
      by_tail (err e) c = cc
      by_tail (ok bs) c =
          let whole : a ∷ bs ≡ as' = ok-injective (sym (ap (cons_ok a) c) ∙ h) in
          ap (cons_ok a) (k bs c) ∙ (cons-prefix_ok a bs rest ∙ ap (λ l. prefix_ok l rest) whole)

  -- Where all of the first items answer, the others are fetched after them.
  promise_all-append :
      (xs ys : List T) (w : W) (as' : List R)
      → (promise_all fetcher xs w).0 ≡ ok as'
      → (promise_all fetcher (xs ++ ys) w).0
        ≡ prefix_ok as' (promise_all fetcher ys (promise_all fetcher xs w).1).0
  unfolding promise_all all_settled fulfilled
  promise_all-append [] ys w as' h = by_rest (fulfilled (all_settled fetcher ys w).0)
    where
      by_rest : (o : Outcome (List R)) → o ≡ prefix_ok as' o
      by_rest (err e) = refl
      by_rest (ok bs) = let none_yet : [] ≡ as' = ok-injective h in ap (λ l. ok (l ++ bs)) none_yet
  promise_all-append (x ∷ xs) ys w as' h =
      fulfilled-append (fetcher x w).0 (all_settled fetcher xs (fetcher x w).1).0
        (all_settled fetcher (xs ++ ys) (fetcher x w).1).0 _ as' h
        (promise_all-append xs ys (fetcher x w).1)

  world-append :
      (xs ys : List T) (w : W)
      → (promise_all fetcher (xs ++ ys) w).1
        ≡ (promise_all fetcher ys (promise_all fetcher xs w).1).1
  unfolding promise_all all_settled
  world-append [] ys w = refl
  world-append (x ∷ xs) ys w = world-append xs ys (fetcher x w).1

  promise_all-nil : (w : W) → promise_all fetcher [] w ≡ (ok [], w)
  unfolding promise_all all_settled fulfilled
  promise_all-nil w = refl

  -- An answer is that of all the items, awaited together. An error is that of a batch of bounded size: what
  -- stands before the batch has answered, and what stands after it is not fetched.
  pub FetchedBy : ℕ → List T → W → Outcome (List R) → W → Type 0
  FetchedBy size items w (ok rs) w' = promise_all fetcher items w ≡ (ok rs, w')
  FetchedBy size items w (err e) w' =
      (earlier : List T) × (batch : List T) × (later : List T) × (items
        ≡ earlier ++ (batch ++ later))
      × (length batch ≤ size)
      × (as' : List R) × ((promise_all fetcher earlier w).0 ≡ ok as')
      × (promise_all fetcher batch (promise_all fetcher earlier w).1 ≡ (err e, w'))

  append_each-FetchedBy :
      (size : ℕ) (batches : List (List T)) (w : W)
      → All (λ batch. length batch ≤ size) batches
      → let o = append_each (promise_all fetcher) batches w in
        FetchedBy size (concat batches) w o.0 o.1
  unfolding append_each FetchedBy
  append_each-FetchedBy size [] w h = promise_all-nil w
  append_each-FetchedBy size (c ∷ cs) w h =
      by_batch (promise_all fetcher c w).0 refl
        (append_each-FetchedBy size cs (promise_all fetcher c w).1 h.1)
    where
      w1 : W
      w1 = (promise_all fetcher c w).1

      by_rest :
          (bs : List R)
          → (promise_all fetcher c w).0 ≡ ok bs
          → (o : Outcome (List R)) (w' : W) → FetchedBy size (concat cs) w1 o w'
          → FetchedBy size
              (c ++ concat cs)
              w
              (continue o (λ rest. pure (bs ++ rest)) w').0
              (continue o (λ rest. pure (bs ++ rest)) w').1
      by_rest bs e (ok rest) w' k =
          pair _ (ok (bs ++ rest)) w'
            (promise_all-append c (concat cs) w bs e ∙ ap (λ p. prefix_ok bs p.0) k)
            (world-append c (concat cs) w ∙ ap (λ p. p.1) k)
      by_rest bs e (err x) w' (earlier, batch, later, split, bound, as', answered, failed) = (
        c ++ earlier,
        batch,
        later,
        ap (λ l. c ++ l) split ∙ sym (append_assoc c earlier (batch ++ later)),
        bound,
        bs ++ as',
        promise_all-append c earlier w bs e ∙ ap (prefix_ok bs) answered,
        ap (promise_all fetcher batch) (world-append c earlier w) ∙ failed,
      )

      by_batch :
          (r : Outcome (List R))
          → (promise_all fetcher c w).0 ≡ r
          → (let o = append_each (promise_all fetcher) cs w1 in
              FetchedBy size (concat cs) w1 o.0 o.1)
          → let o =
              continue r
                (λ bs. append_each (promise_all fetcher) cs >>= λ rest. pure (bs ++ rest))
                w1 in
            FetchedBy size (c ++ concat cs) w o.0 o.1
      by_batch (ok bs) e k =
          by_rest bs e (append_each (promise_all fetcher) cs w1).0
            (append_each (promise_all fetcher) cs w1).1 k
      by_batch (err x) e k = (
        [],
        c,
        concat cs,
        refl,
        h.0,
        [],
        ap (λ p. p.0) (promise_all-nil w),
        ap (λ p. promise_all fetcher c p.1) (promise_all-nil w) ∙ pair _ (err x) w1 e refl,
      )

  -- What fetching comes to, by the batch size.
  abbrev pub Fetched : List T → ℕ → W → Type 0
  Fetched items batch_size w =
      ((batch_size ≡ 0)
        × (fetch_in_batches items fetcher batch_size w
            ≡ (err (error (codes "fetchInBatches: batchSize must be >= 1, got " ++ decimal 0)), w)))
      ⊎ ((0 < batch_size)
          × FetchedBy batch_size items w (fetch_in_batches items fetcher batch_size w).0
              (fetch_in_batches items fetcher batch_size w).1)

  -- A batch size of 0 is an error, and nothing is fetched. Otherwise what `fetchInBatches` answers with, and
  -- the world that it leaves, are those of one `Promise.all` of all the items; and where it throws, it is what
  -- a batch of at most `batchSize` items throws: the items before that batch have all answered, and those
  -- after it are never fetched.
  pub fetch_in_batches-Fetched :
      (items : List T) (batch_size : ℕ) (w : W) → Fetched items batch_size w
  unfolding fetch_in_batches chunks
  fetch_in_batches-Fetched items batch_size w = elim (Bool-cases (ltb batch_size 1)) [
    | inl c ↦ let e : batch_size ≡ 0 = ground arith in inl (e, rw e refl)
    | inr c ↦
        let pos : 0 < batch_size = ground arith in
        let done =
          append_each-FetchedBy batch_size (chunks batch_size items) w
            (slices-le (length items) batch_size items) in
        inr (pos, rw c (rw (concat-chunks batch_size items pos) at done))
  ]
