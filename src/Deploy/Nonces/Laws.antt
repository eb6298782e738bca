-- ===== src/Deploy/Nonces/Laws.antt =====
-- The nonces that the manager hands out.
use rayls_sovereign_contract.Base.{
  ℕ, suc, ◌+◌, ◌≤◌, ◌≡◌, refl, ap, List, [], ◌∷◌, map, length, range_from, arith,
}
use rayls_sovereign_contract.Base.Outcome.{ok, Exec}
use rayls_sovereign_contract.Deploy.Nonces.{NonceManager, allocate_all, sync}

module _ {ℓ} {A : Type ℓ} where
  pub items-allocate_all :
      (xs : List A) (m : NonceManager) → map (λ p. p.0) (allocate_all xs m).0 ≡ xs
  unfolding allocate_all
  items-allocate_all [] m = refl
  items-allocate_all (x ∷ xs) m =
      ap (◌∷◌ x) (items-allocate_all xs (record { next_nonce = suc m.next_nonce }))

  -- The nonces of a batch are consecutive from the manager's, one for each item.
  pub nonces-allocate_all :
      (xs : List A) (m : NonceManager)
      → map (λ p. p.1) (allocate_all xs m).0 ≡ range_from m.next_nonce (length xs)
  unfolding allocate_all
  nonces-allocate_all [] m = refl
  nonces-allocate_all (x ∷ xs) m =
      ap (◌∷◌ m.next_nonce) (nonces-allocate_all xs (record { next_nonce = suc m.next_nonce }))

  pub next_nonce-allocate_all :
      (xs : List A) (m : NonceManager) → (allocate_all xs m).1.next_nonce ≡ m.next_nonce + length xs
  unfolding allocate_all
  next_nonce-allocate_all [] m = omega arith
  next_nonce-allocate_all (x ∷ xs) m =
      omega (arith, next_nonce-allocate_all xs (record { next_nonce = suc m.next_nonce }))

module _ {W : Type 0} (transaction_count : Exec W ℕ) where
  -- After a batch has taken its nonces, if the chain's nonce is at most the first that was not
  -- handed out, `sync` leaves the manager at that one, however many of the nonces before it were
  -- not used.
  pub next_nonce-sync {ℓ} :
      {A : Type ℓ} (xs : List A) (m : NonceManager) (w : W) (n : ℕ)
      → (transaction_count w).0 ≡ ok n
      → n ≤ m.next_nonce + length xs
      → (sync transaction_count ((allocate_all xs m).1, w)).1.0.next_nonce
        ≡ m.next_nonce + length xs
  unfolding sync
  next_nonce-sync xs m w n h le = ground (arith, next_nonce-allocate_all xs m)
