-- ===== src/Send/Receipts.antt =====
-- Every receipt that sendWithAllocatedNonces.ts answers with is there, and belongs to its index.
use rayls_sovereign_contract.Base.{
  ℕ, zero, suc, ◌<◌, ◌≡◌, ◌⊎◌, inl, inr, true, Option, none, List, [], ◌∷◌, ◌++◌, length, replicate,
  range_from, contains, contains-append, contains-range_from, arith, length-map, length-replicate,
  nat_eq,
}
use rayls_sovereign_contract.Base.Text.{Text}
use rayls_sovereign_contract.Base.Outcome.{
  Ensures, Ensures-ok, Ensures-continue, ok, Exec, all_settled, length-all_settled,
}
use rayls_sovereign_contract.Send.{
  Sorted, sort_results, assign, fill, indices, values, attempt, attempts, resend,
  send_with_allocated_nonces,
}
use rayls_sovereign_contract.Send.Sorting.{
  Owned, Sorts, sort_results-Owned, sort_results-Sorts, Holds, length-fill, fill-Holds, Answers,
  all_settled-EachOk, length-assign,
}

module _ {W Tx Receipt : Type 0} (read_nonce : Exec W ℕ) (send : ℕ → ℕ → Exec W Tx)
    (wait : Tx → Exec W Receipt) (describe : ℕ → Text) (max_attempts : ℕ) (Sent : ℕ → Tx → Type 0)
    (Own : ℕ → Receipt → Type 0)
    (sends : (n i : ℕ) (w : W) (tx : Tx) → (send n i w).0 ≡ ok tx → Sent i tx)
    (waits : (i : ℕ) (tx : Tx) (w : W) (r : Receipt)
      → Sent i tx
      → (wait tx w).0 ≡ ok r
      → Own i r) where
  assign-Answers :
      (n : ℕ) (is : List ℕ) → Answers Sent (λ (p : ℕ × ℕ). send p.0 p.1) is (assign n is)
  unfolding assign
  assign-Answers n [] = tt
  assign-Answers n (i ∷ is) = (λ w tx. sends n i w tx, assign-Answers (suc n) is)

  values-Answers : (ps : List (ℕ × Tx)) → Owned Sent ps → Answers Own wait (indices ps) (values ps)
  values-Answers [] h = tt
  values-Answers ((i, tx) ∷ ps) h = (λ w r. waits i tx w r h.0, values-Answers ps h.1)

  -- Each slot is filled, or its index is outstanding.
  abbrev Covered : List (Option Receipt) × List ℕ → Type 0
  Covered (receipts, outstanding) =
      (j : ℕ) → j < length receipts → Holds Own receipts j ⊎ (contains outstanding j ≡ true)

  mined_round :
      (receipts : List (Option Receipt)) (outstanding : List ℕ) (sent : Sorted Tx)
      (mined : Sorted Receipt)
      → Owned Own mined.accepted
      → ((j : ℕ) → Sorts j outstanding sent)
      → ((j : ℕ) → Sorts j (indices sent.accepted) mined)
      → Covered (receipts, outstanding)
      → Covered (fill receipts mined.accepted, sent.collided ++ mined.collided)
  mined_round receipts outstanding sent mined own s m h j fits =
      let fits' : j < length receipts = omega (arith, length-fill receipts mined.accepted) in
      let filled = fill-Holds Own receipts mined.accepted j fits' own in
      ground (
        arith,
        h j fits',
        s j,
        m j,
        λ (x : Holds Own receipts j). filled (inl x),
        λ (x : contains (indices mined.accepted) j ≡ true). filled (inr x),
        contains-append sent.collided mined.collided j,
      )

  attempt-Covered :
      (receipts : List (Option Receipt)) (outstanding : List ℕ) (w : W)
      → Covered (receipts, outstanding)
      → Ensures
          (λ r. (length r.0 ≡ length receipts) × Covered r)
          (attempt read_nonce send wait receipts outstanding w).0
  unfolding attempt
  attempt-Covered receipts outstanding w h =
      Ensures-continue Good (read_nonce w).0 _ (read_nonce w).1 λ nonce _.
        let sent_run = all_settled (λ (p : ℕ × ℕ). send p.0 p.1) (assign nonce outstanding) in
        Ensures-continue Good (sort_results outstanding (sent_run (read_nonce w).1).0) _ _
          λ sent es.
            let w' = (sent_run (read_nonce w).1).1 in
            let rs = all_settled wait (values sent.accepted) w' in
            Ensures-continue Good (sort_results (indices sent.accepted) rs.0) _ _ λ mined em.
              let sent_own =
                Ensures-ok (λ (x : Sorted Tx). Owned Sent x.accepted) _ sent es
                  (sort_results-Owned Sent outstanding _ (
                    all_settled-EachOk Sent (λ (p : ℕ × ℕ). send p.0 p.1) outstanding
                      (assign nonce outstanding) _ (assign-Answers nonce outstanding))) in
              (
                length-fill receipts mined.accepted,
                mined_round receipts outstanding sent mined
                    (Ensures-ok (λ (x : Sorted Receipt). Owned Own x.accepted) _ mined em
                      (sort_results-Owned Own (indices sent.accepted) _ (
                        all_settled-EachOk Own wait (indices sent.accepted) (values sent.accepted)
                          w' (values-Answers sent.accepted sent_own))))
                    (λ j. Ensures-ok (Sorts j outstanding) _ sent es (
                      sort_results-Sorts j outstanding _ (
                        omega (
                          arith,
                          length-all_settled {0} (λ (p : ℕ × ℕ). send p.0 p.1)
                              (assign nonce outstanding) (read_nonce w).1,
                          length-assign nonce outstanding,
                        ))))
                    (λ j. Ensures-ok (Sorts j (indices sent.accepted)) _ mined em (
                      sort_results-Sorts j (indices sent.accepted) _ (
                        omega (
                          arith,
                          length-all_settled {0} wait (values sent.accepted) w',
                          length-map {0, 0} (λ (p : ℕ × Tx). p.1) sent.accepted,
                          length-map {0, 0} (λ (p : ℕ × Tx). p.0) sent.accepted,
                        ))))
                    h,
              )
    where
      Good : List (Option Receipt) × List ℕ → Type 0
      Good r = (length r.0 ≡ length receipts) × Covered r

  -- Every slot of the answer is filled.
  abbrev Filled : ℕ → List (Option Receipt) → Type 0
  Filled n receipts = (length receipts ≡ n) × ((j : ℕ) → j < n → Holds Own receipts j)

  resend-Filled :
      (next : List (Option Receipt) → List ℕ → Exec W (List (Option Receipt))) (n : ℕ)
      (r : List (Option Receipt) × List ℕ) (w : W)
      → ((rs : List (Option Receipt)) (out : List ℕ)
          → Covered (rs, out)
          → Ensures (Filled (length rs)) (next rs out w).0)
      → (length r.0 ≡ n) × Covered r
      → Ensures (Filled n) (resend next r w).0
  resend-Filled next n (rs, []) w ih (e, c) =
      (e, λ j fits. elim (c j (omega arith)) [ inl x ↦ x | inr y ↦ cc ])
  resend-Filled next n (rs, i ∷ out) w ih (e, c) = rw (← e) (ih rs (i ∷ out) c)

  attempts-Filled :
      (left : ℕ) (receipts : List (Option Receipt)) (outstanding : List ℕ) (w : W)
      → Covered (receipts, outstanding)
      → Ensures
          (Filled (length receipts))
          (attempts read_nonce send wait describe max_attempts left receipts outstanding w).0
  unfolding attempts
  attempts-Filled zero receipts outstanding w h = tt
  attempts-Filled (suc left) receipts outstanding w h =
      let round = attempt read_nonce send wait receipts outstanding w in
      Ensures-continue (Filled (length receipts)) round.0
        (resend (attempts read_nonce send wait describe max_attempts left)) round.1
        λ r e.
          resend-Filled (attempts read_nonce send wait describe max_attempts left) (length receipts)
            r round.1 (λ rs out. attempts-Filled left rs out round.1)
            (Ensures-ok _ round.0 r e (attempt-Covered receipts outstanding w h))

  -- When `sendWithAllocatedNonces` answers, it has a receipt for each of the `count` transactions,
  -- and the receipt at index `j` belongs to index `j`: it is what `wait` gave for a transaction
  -- that `send` gave for `j`. (`Sent` and `Own` are any properties that `send` and `wait` ensure.)
  pub send_with_allocated_nonces-Holds :
      (count : ℕ) (w : W) (receipts : List (Option Receipt))
      → (send_with_allocated_nonces read_nonce send wait describe max_attempts count w).0
        ≡ ok receipts
      → (length receipts ≡ count) × ((j : ℕ) → j < count → Holds Own receipts j)
  unfolding send_with_allocated_nonces
  send_with_allocated_nonces-Holds count w receipts e = Ensures-ok (Filled count) _ receipts e (
      rw (length-replicate {A = Option Receipt} count none) at (
        attempts-Filled max_attempts (replicate count none) (range_from 0 count) w (λ j fits. inr (
          contains-range_from 0 count j (omega arith)
            (omega (arith, length-replicate {0} {A = Option Receipt} count none))))))
