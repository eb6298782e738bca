-- ===== src/Send/Errors.antt =====
-- What sendWithAllocatedNonces.ts throws, and when it cannot but answer.
use rayls_sovereign_contract.Base.{
  ℕ, zero, suc, ◌<◌, ◌≡◌, ◌⊎◌, inl, inr, refl, false, Option, none, List, [], ◌∷◌, replicate,
  range_from, Bool-cases,
}
use rayls_sovereign_contract.Base.Text.{Text}
use rayls_sovereign_contract.Base.Outcome.{
  JsError, Outcome, ok, err, Exec, all_settled, Raises, Raises-err, Raises-continue, Succeeds,
  Returns, Returns-continue, Succeeds-Returns, Returns-ok,
}
use rayls_sovereign_contract.Send.{
  Sorted, sort_results, assign, indices, values, attempt, attempts, resend, persisted, accept,
  collide, send_with_allocated_nonces, is_nonce_collision,
}

abbrev IsReal : JsError → Type 0
IsReal e = is_nonce_collision e ≡ false

module _ {A : Type 0} where
  accept-Raises :
      (i : ℕ) (a : A) (o : Outcome (Sorted A)) → Raises IsReal o → Raises IsReal (accept i a o)
  accept-Raises i a (ok s) h = tt
  accept-Raises i a (err e) h = h

  collide-Raises : (i : ℕ) (o : Outcome (Sorted A)) → Raises IsReal o → Raises IsReal (collide i o)
  collide-Raises i (ok s) h = tt
  collide-Raises i (err e) h = h

  sort_results-Raises : (is : List ℕ) (rs : List (Outcome A)) → Raises IsReal (sort_results is rs)
  unfolding sort_results
  sort_results-Raises [] rs = tt
  sort_results-Raises (i ∷ is) [] = tt
  sort_results-Raises (i ∷ is) (ok a ∷ rs) =
      accept-Raises i a (sort_results is rs) (sort_results-Raises is rs)
  sort_results-Raises (i ∷ is) (err x ∷ rs) = elim (Bool-cases (is_nonce_collision x)) [
    | inl c ↦ rw c (collide-Raises i (sort_results is rs) (sort_results-Raises is rs))
    | inr c ↦ rw c c
  ]

  -- All the promises are fulfilled.
  abbrev AllOk : List (Outcome A) → Type 0
  AllOk [] = Unit
  AllOk (r ∷ rs) = Succeeds r × AllOk rs

  abbrev Clean : Outcome (Sorted A) → Type 0
  Clean = Returns (λ s. s.collided ≡ [])

  accept-Clean : (i : ℕ) (a : A) (o : Outcome (Sorted A)) → Clean o → Clean (accept i a o)
  accept-Clean i a (ok s) h = h
  accept-Clean i a (err e) h = h

  sort_results-Clean : (is : List ℕ) (rs : List (Outcome A)) → AllOk rs → Clean (sort_results is rs)
  unfolding sort_results
  sort_results-Clean [] rs h = refl
  sort_results-Clean (i ∷ is) [] h = refl
  sort_results-Clean (i ∷ is) (ok a ∷ rs) h =
      accept-Clean i a (sort_results is rs) (sort_results-Clean is rs h.1)
  sort_results-Clean (i ∷ is) (err x ∷ rs) h = absurd h.0

module _ {W A B : Type 0} (f : A → Exec W B) (works : (a : A) (w : W) → Succeeds (f a w).0) where
  all_settled-AllOk : (xs : List A) (w : W) → AllOk (all_settled f xs w).0
  unfolding all_settled
  all_settled-AllOk [] w = tt
  all_settled-AllOk (x ∷ xs) w = (works x w, all_settled-AllOk xs (f x w).1)

module _ {W Tx Receipt : Type 0} (read_nonce : Exec W ℕ) (send : ℕ → ℕ → Exec W Tx)
    (wait : Tx → Exec W Receipt) (describe : ℕ → Text) (max_attempts : ℕ)
    (reads : (w : W) → Succeeds (read_nonce w).0) where
  read-Raises : (P : JsError → Type 0) (w : W) → Raises P (read_nonce w).0
  read-Raises P w = none_raised (read_nonce w).0 (reads w)
    where
      none_raised : (o : Outcome ℕ) → Succeeds o → Raises P o
      none_raised (ok n) h = tt
      none_raised (err e) h = absurd h

  -- A thrown error is no collision, unless it is the one that says that collisions persisted.
  abbrev pub Final : JsError → Type 0
  Final e = IsReal e ⊎ ((outstanding : List ℕ) × (e ≡ persisted describe max_attempts outstanding))

  Raises-mono : {A : Type 0} (o : Outcome A) → Raises IsReal o → Raises Final o
  Raises-mono (ok a) h = tt
  Raises-mono (err e) h = inl h

  attempt-Raises :
      (receipts : List (Option Receipt)) (outstanding : List ℕ) (w : W)
      → Raises Final (attempt read_nonce send wait receipts outstanding w).0
  unfolding attempt
  attempt-Raises receipts outstanding w =
      Raises-continue Final (read_nonce w).0 _ _ (read-Raises Final w) λ nonce _.
        let sent_run =
          all_settled (λ (p : ℕ × ℕ). send p.0 p.1) (assign nonce outstanding) (read_nonce w).1 in
        Raises-continue Final (sort_results outstanding sent_run.0) _ sent_run.1
          (Raises-mono _ (sort_results-Raises outstanding sent_run.0))
          λ sent _.
            let mined_run = all_settled wait (values sent.accepted) sent_run.1 in
            Raises-continue Final (sort_results (indices sent.accepted) mined_run.0) _ mined_run.1
              (Raises-mono _ (sort_results-Raises (indices sent.accepted) mined_run.0))
              λ mined _. tt

  resend-Raises :
      (next : List (Option Receipt) → List ℕ → Exec W (List (Option Receipt)))
      (r : List (Option Receipt) × List ℕ) (w : W)
      → ((rs : List (Option Receipt)) (out : List ℕ) → Raises Final (next rs out w).0)
      → Raises Final (resend next r w).0
  resend-Raises next (rs, []) w ih = tt
  resend-Raises next (rs, i ∷ out) w ih = ih rs (i ∷ out)

  attempts-Raises :
      (left : ℕ) (receipts : List (Option Receipt)) (outstanding : List ℕ) (w : W)
      → Raises Final
          (attempts read_nonce send wait describe max_attempts left receipts outstanding w).0
  unfolding attempts
  attempts-Raises zero receipts outstanding w = inr (outstanding, refl)
  attempts-Raises (suc left) receipts outstanding w =
      let round = attempt read_nonce send wait receipts outstanding w in
      Raises-continue Final round.0 _ round.1 (attempt-Raises receipts outstanding w) λ r _.
        resend-Raises (attempts read_nonce send wait describe max_attempts left) r round.1
          (λ rs out. attempts-Raises left rs out round.1)

  -- If the nonce can be read, then what `sendWithAllocatedNonces` throws is an error that is no
  -- nonce collision, or its own message that collisions persisted: a collision as such never
  -- leaves it.
  pub send_with_allocated_nonces-Raises :
      (count : ℕ) (w : W) (e : JsError)
      → (send_with_allocated_nonces read_nonce send wait describe max_attempts count w).0 ≡ err e
      → Final e
  unfolding send_with_allocated_nonces
  send_with_allocated_nonces-Raises count w e h =
      Raises-err Final _ e h
        (attempts-Raises max_attempts (replicate count none) (range_from 0 count) w)

  module _ (sends : (n i : ℕ) (w : W) → Succeeds (send n i w).0)
      (waits : (tx : Tx) (w : W) → Succeeds (wait tx w).0) where
    attempt-Succeeds :
        (receipts : List (Option Receipt)) (outstanding : List ℕ) (w : W)
        → Returns (λ r. r.1 ≡ []) (attempt read_nonce send wait receipts outstanding w).0
    unfolding attempt
    attempt-Succeeds receipts outstanding w =
        Returns-continue (λ n. Unit) Done (read_nonce w).0 _ (read_nonce w).1
          (Succeeds-Returns (read_nonce w).0 (reads w))
          λ nonce _.
            let sent_run =
              all_settled (λ (p : ℕ × ℕ). send p.0 p.1) (assign nonce outstanding)
                (read_nonce w).1 in
            Returns-continue (λ s. s.collided ≡ []) Done (sort_results outstanding sent_run.0) _
              sent_run.1
              (sort_results-Clean outstanding sent_run.0 (
                all_settled-AllOk (λ (p : ℕ × ℕ). send p.0 p.1) (λ p. sends p.0 p.1)
                  (assign nonce outstanding) _))
              λ sent none_sent.
                let mined_run = all_settled wait (values sent.accepted) sent_run.1 in
                Returns-continue (λ s. s.collided ≡ []) Done
                  (sort_results (indices sent.accepted) mined_run.0) _ mined_run.1
                  (sort_results-Clean (indices sent.accepted) mined_run.0
                    (all_settled-AllOk wait waits (values sent.accepted) _))
                  λ mined none_mined. rw (none_sent, none_mined)
      where
        Done : List (Option Receipt) × List ℕ → Type 0
        Done r = r.1 ≡ []

    attempts-Succeeds :
        (left : ℕ) (receipts : List (Option Receipt)) (outstanding : List ℕ) (w : W)
        → 0 < left
        → Succeeds
            (attempts read_nonce send wait describe max_attempts left receipts outstanding w).0
    unfolding attempts
    attempts-Succeeds zero receipts outstanding w h = elim h [ ]
    attempts-Succeeds (suc left) receipts outstanding w h =
        let (r, answered, none_left) =
          Returns-ok (λ (r : List (Option Receipt) × List ℕ). r.1 ≡ []) _
            (attempt-Succeeds receipts outstanding w) in
        rw answered (resend_none r.0 r.1 none_left)
      where
        resend_none :
            (rs : List (Option Receipt)) (out : List ℕ)
            → out ≡ []
            → Succeeds
                (resend
                  (attempts read_nonce send wait describe max_attempts left)
                  (rs, out)
                  (attempt read_nonce send wait receipts outstanding w).1).0
        resend_none rs [] e = tt
        resend_none rs (i ∷ out) e = cc

    -- If there is an attempt to make, the nonce can be read, and every `send` and `wait` is
    -- fulfilled, then `sendWithAllocatedNonces` answers.
    pub send_with_allocated_nonces-Succeeds :
        (count : ℕ) (w : W)
        → 0 < max_attempts
        → Succeeds (send_with_allocated_nonces read_nonce send wait describe max_attempts count w).0
    unfolding send_with_allocated_nonces
    send_with_allocated_nonces-Succeeds count w h =
        attempts-Succeeds max_attempts (replicate count none) (range_from 0 count) w h
