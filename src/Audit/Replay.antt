-- ===== src/Audit/Replay.antt =====
-- The replay of AccessManager events in hardhat/tasks/audit/check-roles.ts and
-- hardhat/tasks/audit/check-onchain-selectors.ts: logs are decoded, put in the order of (block, log
-- index), and folded into the live set. `parseLog` of ethers is a parameter: it throws, answers with
-- `null`, or gives the log's arguments.
pub mod Order
pub mod Last
use rayls_sovereign_contract.Base.{
  ℕ, suc, ◌+◌, ◌≡◌, Bool, ◌&&◌, ◌||◌, Option, none, some, List, [], ◌∷◌, ◌++◌, ltb, leb, nat_beq,
  if◌then◌else◌,
}
use rayls_sovereign_contract.Base.Outcome.{Outcome, ok, err}

-- Where a log stands on the chain.
pub record Position : Type 0 where
  pub block_number : ℕ
  pub index : ℕ

pub record Event (A : Type 0) : Type 0 where
  pub position : Position
  pub body : A

-- `a.blockNumber - b.blockNumber || a.index - b.index` is not positive.
unfoldable pub not_after : Position → Position → Bool
not_after a b =
    ltb a.block_number b.block_number
    || (nat_beq a.block_number b.block_number && leb a.index b.index)

module _ {A : Type 0} where
  -- `sort` by that comparison: it is stable, so equal positions keep their order.
  unfoldable pub insert : Event A → List (Event A) → List (Event A)
  insert e [] = e ∷ []
  insert e (f ∷ fs) =
      let rest = insert e fs in if not_after e.position f.position then e ∷ f ∷ fs else f ∷ rest

  unfoldable pub sort : List (Event A) → List (Event A)
  unfolding insert not_after
  sort [] = []
  sort (e ∷ es) = insert e (sort es)

module _ {Log A : Type 0} (position : Log → Position) (parse_log : Log → Outcome (Option A)) where
  -- The events of the logs that decode, and how many do not.
  abbrev decoded : Position → Outcome (Option A) → List (Event A) × ℕ → List (Event A) × ℕ
  decoded p (ok (some a)) (events, skipped) = (record { position = p; body = a } ∷ events, skipped)
  decoded p (ok none) (events, skipped) = (events, suc skipped)
  decoded p (err e) (events, skipped) = (events, suc skipped)

  unfoldable pub decode : List Log → List (Event A) × ℕ
  decode [] = ([], 0)
  decode (log ∷ logs) = decoded (position log) (parse_log log) (decode logs)
