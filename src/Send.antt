-- ===== src/Send.antt =====
-- hardhat/tasks/utils/sendWithAllocatedNonces.ts: a batch of transactions under allocated nonces,
-- with the ones that collide sent again. The caller's `readNonce` and `send`, and the `wait` of the
-- transaction that `send` answers with, are actions on the world `W`, taken as parameters.
-- `allSettled` starts its actions in order; here each ends before the next starts.
mod Sorting
pub mod Receipts
pub mod Errors
pub mod Tests
use rayls_sovereign_contract.Base.{
  ℕ, zero, suc, ◌≡◌, Bool, ◌||◌, Option, none, some, List, [], ◌∷◌, ◌++◌, map, replicate, set,
  range_from, if◌then◌else◌,
}
use rayls_sovereign_contract.Base.Text.{
  Text, codes, includes, to_lower, to_lower_unit, join, decimal,
}
use rayls_sovereign_contract.Base.Outcome.{
  JsError, error, Outcome, ok, err, Exec, pure, throw, ◌>>=◌, continue, all_settled,
}

-- `[undefined].join` writes nothing.
abbrev or_empty : Option Text → Text
or_empty none = []
or_empty (some t) = t

haystack : JsError → Text
haystack e = to_lower (
    join (codes " ") (
      or_empty e.code
      ∷ e.message
      ∷ or_empty e.short_message
      ∷ or_empty e.info_message
      ∷ e.info
      ∷ []))

unfoldable pub is_nonce_collision : JsError → Bool
unfolding haystack includes join to_lower_unit
is_nonce_collision e =
    includes (haystack e) (codes "nonce_expired")
    || includes (haystack e) (codes "nonce too low")
    || includes (haystack e) (codes "nonce has already been used")
    || includes (haystack e) (codes "replacement transaction underpriced")

-- `outstanding.map(i => send(nonce++, i))`: the nonce that each index is sent under.
pub assign : ℕ → List ℕ → List (ℕ × ℕ)
assign nonce [] = []
assign nonce (index ∷ rest) = (nonce, index) ∷ assign (suc nonce) rest

-- What a round of `forEach` has sorted out: the indices that went through, and those to send again.
pub record Sorted {ℓ} (A : Type ℓ) : Type ℓ where
  pub accepted : List (ℕ × A)
  pub collided : List ℕ

module _ {A : Type 0} where
  abbrev pub accept : ℕ → A → Outcome (Sorted A) → Outcome (Sorted A)
  accept index a (ok s) = ok (record s { accepted = (index, a) ∷ s.accepted })
  accept index a (err e) = err e

  abbrev pub collide : ℕ → Outcome (Sorted A) → Outcome (Sorted A)
  collide index (ok s) = ok (record s { collided = index ∷ s.collided })
  collide index (err e) = err e

  -- The first result that is neither a value nor a collision is thrown.
  pub sort_results : List ℕ → List (Outcome A) → Outcome (Sorted A)
  sort_results (index ∷ rest) (ok a ∷ results) = accept index a (sort_results rest results)
  sort_results (index ∷ rest) (err e ∷ results) =
      let others = sort_results rest results in
      if is_nonce_collision e then collide index others else err e
  sort_results _ _ = ok (record { accepted = []; collided = [] })

-- `receipts[index] = result.value`
pub fill : {A : Type 0} → List (Option A) → List (ℕ × A) → List (Option A)
fill receipts [] = receipts
fill receipts ((index, r) ∷ rest) = fill (set receipts index (some r)) rest

abbrev pub indices {ℓ} : {A : Type ℓ} → List (ℕ × A) → List ℕ
indices = map (λ p. p.0)

abbrev pub values {ℓ} : {A : Type ℓ} → List (ℕ × A) → List A
values = map (λ p. p.1)

unfoldable pub persisted : (ℕ → Text) → ℕ → List ℕ → JsError
persisted describe max_attempts outstanding = error (
    codes "nonce collision persisted after "
    ++ (decimal max_attempts
        ++ (codes " attempts for: " ++ join (codes ", ") (map describe outstanding))))

module _ {W Tx Receipt : Type 0} (read_nonce : Exec W ℕ) (send : ℕ → ℕ → Exec W Tx)
    (wait : Tx → Exec W Receipt) where
  -- One round: what was sent, what was mined, and the indices that collided at either.
  abbrev pub after_mining :
      List (Option Receipt) → List ℕ → Sorted Receipt → List (Option Receipt) × List ℕ
  after_mining receipts collided s = (fill receipts s.accepted, collided ++ s.collided)

  pub attempt : List (Option Receipt) → List ℕ → Exec W (List (Option Receipt) × List ℕ)
  attempt receipts outstanding = do
    nonce ← read_nonce
    sent ← λ w.
        let (r, w') = all_settled (λ p. send p.0 p.1) (assign nonce outstanding) w in
        (sort_results outstanding r, w')
    mined ← λ w.
        let (r, w') = all_settled wait (values sent.accepted) w in
        (sort_results (indices sent.accepted) r, w')
    pure (after_mining receipts sent.collided mined)

-- `if (collided.length === 0) return receipts; outstanding = collided`
module _ {W Receipt : Type 0} where
  abbrev pub resend :
      (List (Option Receipt) → List ℕ → Exec W (List (Option Receipt)))
      → List (Option Receipt) × List ℕ
      → Exec W (List (Option Receipt))
  resend next (receipts, []) = pure receipts
  resend next (receipts, i ∷ rest) = next receipts (i ∷ rest)

module _ {W Tx Receipt : Type 0} (read_nonce : Exec W ℕ) (send : ℕ → ℕ → Exec W Tx)
    (wait : Tx → Exec W Receipt) (describe : ℕ → Text) (max_attempts : ℕ) where
  -- `for (attempt = 1; attempt <= maxAttempts; attempt++)`, on the attempts left
  pub attempts : ℕ → List (Option Receipt) → List ℕ → Exec W (List (Option Receipt))
  attempts zero receipts outstanding w = throw (persisted describe max_attempts outstanding) w
  attempts (suc left) receipts outstanding w =
      continue (attempt read_nonce send wait receipts outstanding w).0 (resend (attempts left))
        (attempt read_nonce send wait receipts outstanding w).1

  pub send_with_allocated_nonces : ℕ → Exec W (List (Option Receipt))
  send_with_allocated_nonces count =
      attempts max_attempts (replicate count none) (range_from 0 count)
