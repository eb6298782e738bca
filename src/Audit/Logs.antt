-- ===== src/Audit/Logs.antt =====
-- `fetchLogsChunked` of hardhat/tasks/audit/utils.ts. The provider's `getLogs` is a parameter; the
-- `address` and the `topics` of the filter are its business. Block numbers are not negative.
pub mod Coverage
use rayls_sovereign_contract.Base.{
  ℕ, zero, suc, ◌+◌, ◌-◌, ◌≡◌, List, [], ◌∷◌, ◌++◌, ltb, leb, if◌then◌else◌,
}
use rayls_sovereign_contract.Base.Outcome.{ok, Exec, pure, continue, ◌>>=◌}

module _ {W Log : Type 0} (get_logs : ℕ → ℕ → Exec W (List Log)) where
  -- `from + chunk - 1n > toBlock ? toBlock : from + chunk - 1n`
  abbrev pub window_end : ℕ → ℕ → ℕ → ℕ
  window_end from to_block chunk =
      if ltb to_block (from + chunk - 1) then to_block else from + chunk - 1

  -- `for (let from = fromBlock; from <= toBlock; from += chunk)`, with fuel
  unfoldable pub fetch_windows : ℕ → ℕ → ℕ → ℕ → Exec W (List Log)
  fetch_windows zero from to_block chunk w = (ok [], w)
  fetch_windows (suc fuel) from to_block chunk w =
      let windows =
        continue (get_logs from (window_end from to_block chunk) w).0
          (λ logs. fetch_windows fuel (from + chunk) to_block chunk >>= λ rest. pure (logs ++ rest))
          (get_logs from (window_end from to_block chunk) w).1 in
      if leb from to_block then windows else (ok [], w)

  -- With `chunk` at least 1 there are no more windows than blocks.
  unfoldable pub fetch_logs_chunked : ℕ → ℕ → ℕ → Exec W (List Log)
  fetch_logs_chunked from_block to_block chunk =
      fetch_windows (suc to_block - from_block) from_block to_block chunk
