-- ===== src/Audit/DeployBlock.antt =====
-- `binarySearchDeployBlock` of hardhat/tasks/audit/utils.ts. The provider's `getCode` and
-- `getBlockNumber` are parameters; a block number is not negative, so the test `head < 0` always fails
-- and is left out.
pub mod First
use rayls_sovereign_contract.Base.{
  ℕ, zero, suc, ◌+◌, ◌-◌, ◌/◌, Bool, not, ◌||◌, Option, none, some, length, ltb, leb, nat_beq,
  if◌then◌else◌,
}
use rayls_sovereign_contract.Base.Text.{Text, codes, text_beq}
use rayls_sovereign_contract.Base.Outcome.{Exec, pure, continue, ◌>>=◌}

-- `code === '0x' || code.length <= 2`
unfoldable pub is_empty : Text → Bool
is_empty code = text_beq code (codes "0x") || leb (length code) 2

module _ {W : Type 0} (get_code : Text → ℕ → Exec W Text) (get_block_number : Exec W ℕ) where
  -- `while (lo + 1 < hi)`; the range is fuel enough.
  unfoldable pub search_loop : ℕ → Text → ℕ → ℕ → Exec W ℕ
  search_loop zero address lo hi w = pure hi w
  search_loop (suc fuel) address lo hi w =
      let round =
        continue (get_code address ((lo + hi) / 2) w).0
          (λ code w'.
            let right = search_loop fuel address ((lo + hi) / 2) hi w' in
            let left = search_loop fuel address lo ((lo + hi) / 2) w' in
            if is_empty code then right else left)
          (get_code address ((lo + hi) / 2) w).1 in
      if ltb (lo + 1) hi then round else pure hi w

  abbrev pub search_from_genesis : Text → ℕ → Exec W (Option ℕ)
  search_from_genesis address head = do
    code_at_zero ← get_code address 0
    (if not (is_empty code_at_zero)
        then pure (some 0)
        else (do block ← search_loop head address 0 head; pure (some block)))

  unfoldable pub binary_search_deploy_block : Text → Exec W (Option ℕ)
  unfolding search_loop
  binary_search_deploy_block address = do
    head ← get_block_number
    code_at_head ← get_code address head
    (if is_empty code_at_head
        then pure none
        else if nat_beq head 0
        then pure (some 0)
        else search_from_genesis address head)
