-- ===== src/Send/Tests.antt =====
-- sendWithAllocatedNonces.ts against small chains: runs, and the theorems at them.
use rayls_sovereign_contract.Base.{
  ℕ, suc, ◌<◌, ◌≡◌, refl, Option, some, List, [], ◌∷◌, length, arith, nat_beq, if◌then◌else◌,
}
use rayls_sovereign_contract.Base.Text.{codes, decimal}
use rayls_sovereign_contract.Base.Outcome.{
  JsError, error, Outcome, ok, err, Exec, Succeeds, all_settled, ok-injective,
}
use rayls_sovereign_contract.Send.{
  is_nonce_collision, attempts, attempt, sort_results, assign, fill, persisted,
  send_with_allocated_nonces,
}
use rayls_sovereign_contract.Send.Sorting.{Holds}
use rayls_sovereign_contract.Send.Receipts.{send_with_allocated_nonces-Holds}
use rayls_sovereign_contract.Send.Errors.{
  Final, send_with_allocated_nonces-Raises, send_with_allocated_nonces-Succeeds,
}

-- The nonce that the node shows, and the one that it takes next.
abbrev Node : Type 0
Node = ℕ × ℕ

abbrev too_low : JsError
too_low = error (codes "Nonce too low")

-- What the node shows lags behind what it takes, until it is read.
abbrev read : Exec Node ℕ
read w = (ok w.0, (w.1, w.1))

abbrev send : ℕ → ℕ → Exec Node ℕ
send nonce index w = if nat_beq nonce w.1 then (ok index, (w.0, suc w.1)) else (err too_low, w)

abbrev wait : ℕ → Exec Node ℕ
wait tx w = (ok tx, w)

abbrev run_stale : Outcome (List (Option ℕ)) × Node
run_stale = send_with_allocated_nonces read send wait decimal 3 3 (4, 5)

-- The first of three collides with one in flight, and is sent again.
resent : run_stale.0 ≡ ok (some 0 ∷ some 1 ∷ some 2 ∷ [])
unfolding send_with_allocated_nonces attempts attempt sort_results all_settled assign
    is_nonce_collision fill
resent = refl

send-value : (n i : ℕ) (w : Node) (tx : ℕ) → (send n i w).0 ≡ ok tx → tx ≡ i
send-value n i w tx h = ground arith

wait-value : (i tx : ℕ) (w : Node) (r : ℕ) → tx ≡ i → (wait tx w).0 ≡ ok r → r ≡ i
wait-value i tx w r e h = cc (ok-injective h)

send_with_allocated_nonces-Holds_example :
    (length {A = Option ℕ} (some 0 ∷ some 1 ∷ some 2 ∷ []) ≡ 3)
    × ((j : ℕ) → j < 3 → Holds (λ i r. r ≡ i) (some 0 ∷ some 1 ∷ some 2 ∷ []) j)
send_with_allocated_nonces-Holds_example =
    send_with_allocated_nonces-Holds read send wait decimal 3 (λ i tx. tx ≡ i) (λ i r. r ≡ i)
      send-value wait-value 3 (4, 5) (some 0 ∷ some 1 ∷ some 2 ∷ []) resent

-- A node that refuses every nonce.
abbrev refuse : ℕ → ℕ → Exec Node ℕ
refuse nonce index w = (err too_low, w)

refused :
    (send_with_allocated_nonces read refuse wait decimal 2 2 (4, 4)).0
    ≡ err (persisted decimal 2 (0 ∷ 1 ∷ []))
unfolding send_with_allocated_nonces attempts attempt sort_results all_settled assign
    is_nonce_collision fill
refused = refl

send_with_allocated_nonces-Raises_example :
    Final read refuse wait decimal 2 (λ w. tt) (persisted decimal 2 (0 ∷ 1 ∷ []))
send_with_allocated_nonces-Raises_example =
    send_with_allocated_nonces-Raises read refuse wait decimal 2 (λ w. tt) 2 (4, 4)
      (persisted decimal 2 (0 ∷ 1 ∷ [])) refused

-- A node that takes every nonce.
abbrev take_any : ℕ → ℕ → Exec Node ℕ
take_any nonce index w = (ok index, w)

send_with_allocated_nonces-Succeeds_example :
    Succeeds (send_with_allocated_nonces read take_any wait decimal 1 5 (4, 4)).0
send_with_allocated_nonces-Succeeds_example =
    send_with_allocated_nonces-Succeeds read take_any wait decimal 1 (λ w. tt) (λ n i w. tt)
      (λ tx w. tt) 5 (4, 4) (omega arith)
