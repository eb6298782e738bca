-- ===== src/Deploy/Nonces.antt =====
-- `NonceManager` of hardhat/tasks/deploy/batch-helpers.ts. Its provider and address are the
-- parameter `transaction_count`, an action on the world: `getTransactionCount(address, 'pending')`.
-- A batch acts on the manager and on the world together, and what it did to either before it threw
-- stays done.
pub mod Laws
use rayls_sovereign_contract.Base.{ℕ, suc, ◌≡◌, List, [], ◌∷◌, ltb, if◌then◌else◌}
use rayls_sovereign_contract.Base.Outcome.{ok, err, Exec}

pub record NonceManager : Type 0 where
  pub next_nonce : ℕ

abbrev pub new : NonceManager
new = record { next_nonce = 0 }

-- `const nonce = this.nextNonce++`
unfoldable pub allocate_nonce : NonceManager → ℕ × NonceManager
allocate_nonce m = (m.next_nonce, record { next_nonce = suc m.next_nonce })

-- `items.map(item => ({ item, nonce: nonceManager.allocateNonce() }))`
unfoldable pub allocate_all {ℓ} : {A : Type ℓ} → List A → NonceManager → List (A × ℕ) × NonceManager
unfolding allocate_nonce
allocate_all [] m = ([], m)
allocate_all (a ∷ rest) m =
    let (n, m') = allocate_nonce m in
    let (pairs, m'') = allocate_all rest m' in ((a, n) ∷ pairs, m'')

module _ {W : Type 0} (transaction_count : Exec W ℕ) where
  abbrev pub Session : Type 0
  Session = NonceManager × W

  unfoldable pub initialize : Exec Session Unit
  initialize (m, w) =
      let (r, w') = transaction_count w in
      elim r [ ok n ↦ (ok tt, (record { next_nonce = n }, w')) | err e ↦ (err e, (m, w')) ]

  -- The manager after it has seen the chain's nonce.
  unfoldable pub raise_to : ℕ → NonceManager → NonceManager
  raise_to chain_nonce m =
      if ltb m.next_nonce chain_nonce then record { next_nonce = chain_nonce } else m

  unfoldable pub sync : Exec Session Unit
  unfolding raise_to
  sync (m, w) =
      let (r, w') = transaction_count w in
      elim r [ ok n ↦ (ok tt, (raise_to n m, w')) | err e ↦ (err e, (m, w')) ]
