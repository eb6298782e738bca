-- ===== src/Audit/Logs/Coverage.antt =====
-- `fetchLogsChunked` of hardhat/tasks/audit/utils.ts leaves no block out and reads none twice.
use rayls_sovereign_contract.Base.{
  ℕ, zero, suc, ◌+◌, ◌-◌, ◌≤◌, ◌<◌, ◌≡◌, inl, inr, ap, ◌∙◌, List, [], ◌++◌, arith, ltb, leb, leb→le,
  Bool-cases, append_assoc, append-nil,
}
use rayls_sovereign_contract.Base.Outcome.{ok, Exec}
use rayls_sovereign_contract.Audit.Logs.{fetch_windows, window_end, fetch_logs_chunked}

-- The logs of `n` blocks from block `a` on, by what each block holds.
abbrev pub in_blocks {ℓ} : {Log : Type ℓ} → (ℕ → List Log) → ℕ → ℕ → List Log
in_blocks blocks a zero = []
in_blocks blocks a (suc n) = blocks a ++ in_blocks blocks (suc a) n

in_blocks-add {ℓ} :
    {Log : Type ℓ} (blocks : ℕ → List Log) (a m n : ℕ)
    → in_blocks blocks a m ++ in_blocks blocks (a + m) n ≡ in_blocks blocks a (m + n)
in_blocks-add blocks a zero n =
    let e : a + 0 ≡ a = omega arith in let e' : 0 + n ≡ n = omega arith in rw (e, e')
in_blocks-add blocks a (suc m) n =
    let e : a + suc m ≡ suc a + m = omega arith in
    let e' : suc m + n ≡ suc (m + n) = omega arith in
    rw (e, e')
      (append_assoc (blocks a) (in_blocks blocks (suc a) m) (in_blocks blocks (suc a + m) n)
        ∙ ap (◌++◌ (blocks a)) (in_blocks-add blocks (suc a) m n))

module _ {W Log : Type 0} (get_logs : ℕ → ℕ → Exec W (List Log)) (blocks : ℕ → List Log)
    (answers : (a b : ℕ) (w : W) → get_logs a b w ≡ (ok (in_blocks blocks a (suc b - a)), w)) where
  -- The blocks of a window and those of the windows after it are the blocks that are left.
  window_split :
      (from to_block chunk : ℕ)
      → 0 < chunk
      → from ≤ to_block
      → in_blocks blocks from (suc (window_end get_logs from to_block chunk) - from)
          ++ in_blocks blocks (from + chunk) (suc to_block - (from + chunk))
        ≡ in_blocks blocks from (suc to_block - from)
  window_split from to_block chunk pos h = elim (Bool-cases (ltb to_block (from + chunk - 1))) [
    | inl c ↦
        let n : suc to_block - (from + chunk) ≡ 0 = ground arith in
        rw (c, n) (append-nil (in_blocks blocks from (suc to_block - from)))
    | inr c ↦
        let n : suc (from + chunk - 1) - from ≡ chunk = omega arith in
        let m : suc to_block - from ≡ chunk + (suc to_block - (from + chunk)) = ground arith in
        rw (c, n, m) (in_blocks-add blocks from chunk (suc to_block - (from + chunk)))
  ]

  fetch_windows-in_blocks :
      (fuel from to_block chunk : ℕ) (w : W)
      → 0 < chunk
      → suc to_block - from ≤ fuel
      → fetch_windows get_logs fuel from to_block chunk w
        ≡ (ok (in_blocks blocks from (suc to_block - from)), w)
  unfolding fetch_windows
  fetch_windows-in_blocks zero from to_block chunk w pos h =
      let none_left : suc to_block - from ≡ 0 = omega arith in rw none_left
  fetch_windows-in_blocks (suc fuel) from to_block chunk w pos h =
      elim (Bool-cases (leb from to_block)) [
        | inl c ↦
            let le : from ≤ to_block = leb→le from to_block c in
            rw
              (
                c,
                answers from (window_end get_logs from to_block chunk) w,
                fetch_windows-in_blocks fuel (from + chunk) to_block chunk w pos (omega arith),
              )
              (rw (window_split from to_block chunk pos le))
        | inr c ↦ let none_left : suc to_block - from ≡ 0 = ground arith in rw (c, none_left)
      ]

  -- Whatever the size of the windows, if it is not 0, and where the provider answers with the logs
  -- of the blocks it is asked for, `fetchLogsChunked` comes to the logs of all the blocks from
  -- `fromBlock` to `toBlock`, each block's once and in the order of the blocks.
  pub fetch_logs_chunked-in_blocks :
      (from_block to_block chunk : ℕ) (w : W)
      → 0 < chunk
      → fetch_logs_chunked get_logs from_block to_block chunk w
        ≡ (ok (in_blocks blocks from_block (suc to_block - from_block)), w)
  unfolding fetch_logs_chunked
  fetch_logs_chunked-in_blocks from_block to_block chunk w pos =
      fetch_windows-in_blocks (suc to_block - from_block) from_block to_block chunk w pos
        (omega arith)
