-- ===== src/Audit/StartBlock.antt =====
-- `resolveStartingBlock` of hardhat/tasks/audit/utils.ts: the ladder of sources for the block at which
-- an event scan starts. The warnings that it prints are not modelled.
pub mod Ladder
use rayls_sovereign_contract.Base.{
  ℕ, ◌≡◌, Option, none, some, List, [], ◌∷◌, ◌++◌, get_or, if◌then◌else◌,
}
use rayls_sovereign_contract.Base.Text.{Text, codes, truthy, decimal}
use rayls_sovereign_contract.Base.BigInt.{ℤ, pos, negsuc, big_int}
use rayls_sovereign_contract.Base.Outcome.{
  error, Outcome, ok, err, Exec, pure, throw, ◌>>=◌, try_catch,
}
use rayls_sovereign_contract.Audit.Env.{Scope, pn, pnh, pc, per_node}
use rayls_sovereign_contract.Audit.DeployBlock.{binary_search_deploy_block}

pub data Source : Type 0 where
  flag env auto_detect default_zero : Source

pub record StartingBlockResolution : Type 0 where
  pub from_block : ℕ
  pub source : Source
  pub detail : Option Text

pub record StartingBlockProvider (W : Type 0) : Type 0 where
  pub get_code : Text → ℕ → Exec W Text
  pub get_block_number : Exec W ℕ

-- `[envName, altEnvName]`, without what is `null`
unfoldable pub starting_env_names : Scope → List Text
starting_env_names s = elim s.chain [
  | pnh ↦ codes "PNH_STARTING_BLOCK" ∷ codes "PNH_CHAIN_STARTING_BLOCK" ∷ []
  | pn ↦ if truthy s.node then per_node s.node (codes "_STARTING_BLOCK") ∷ [] else []
  | pc ↦ if truthy s.node then per_node s.node (codes "_PUBLIC_CHAIN_STARTING_BLOCK") ∷ [] else []
]

-- Pass 1: the value of `--from-block`.
abbrev pub flag_block : Text → Text → ℤ → Outcome StartingBlockResolution
flag_block task_name explicit (pos n) = ok (record { from_block = n; source = flag; detail = none })
flag_block task_name explicit (negsuc n) =
    err (error (task_name ++ (codes ": --from-block must be >= 0, got " ++ explicit)))

abbrev pub from_flag : Text → Text → Outcome ℤ → Outcome StartingBlockResolution
from_flag task_name explicit (ok n) = flag_block task_name explicit n
from_flag task_name explicit (err e) = err e

-- Pass 2: the first variable that is there, is not empty, and is not negative.
abbrev pub from_value :
    Text
    → Outcome ℤ
    → Outcome (Option StartingBlockResolution)
    → Outcome (Option StartingBlockResolution)
from_value name (ok (pos n)) rest =
    ok (some (record { from_block = n; source = env; detail = some name }))
from_value name (ok (negsuc n)) rest = rest
from_value name (err e) rest = err e

unfoldable pub from_names :
    (Text → Option Text) → List Text → Outcome (Option StartingBlockResolution)
from_names variables [] = ok none
from_names variables (name ∷ names) =
    let rest = from_names variables names in
    if truthy (variables name)
    then from_value name (big_int (get_or (variables name) [])) rest
    else rest

abbrev pub default_block : StartingBlockResolution
default_block = record { from_block = 0; source = default_zero; detail = none }

-- Pass 3 came to a block, or to none; pass 4 is 0.
abbrev pub detected : Option ℕ → StartingBlockResolution
detected none = default_block
detected (some b) = record {
  from_block = b;
  source = auto_detect;
  detail = some (codes "block " ++ decimal b);
}

module _ {W : Type 0} where
  unfoldable pub auto_detect_block :
      Option Text → Option (StartingBlockProvider W) → Exec W StartingBlockResolution
  auto_detect_block manager none = pure default_block
  auto_detect_block manager (some provider) =
      if truthy manager
      then try_catch
          (do
            block ←
                binary_search_deploy_block provider.get_code provider.get_block_number
                  (get_or manager [])
            pure (detected block))
          (λ e. pure default_block)
      else pure default_block

  abbrev pub or_auto_detect :
      Exec W StartingBlockResolution
      → Outcome (Option StartingBlockResolution)
      → Exec W StartingBlockResolution
  or_auto_detect rest (ok none) = rest
  or_auto_detect rest (ok (some r)) = pure r
  or_auto_detect rest (err e) = throw e

  unfoldable pub resolve_starting_block :
      (Text → Option Text)
      → Option Text
      → Scope
      → Option Text
      → Option (StartingBlockProvider W)
      → Exec W StartingBlockResolution
  unfolding auto_detect_block from_names
  resolve_starting_block variables explicit s manager provider w =
      if truthy explicit
      then (from_flag s.task_name (get_or explicit []) (big_int (get_or explicit [])), w)
      else or_auto_detect (auto_detect_block manager provider)
          (from_names variables (starting_env_names s)) w
