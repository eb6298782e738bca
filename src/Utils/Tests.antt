-- ===== src/Utils/Tests.antt =====
-- hardhat/utils: runs, and the theorems at them.
use rayls_sovereign_contract.Base.{some, ℕ, ◌≡◌, refl, ◌===◌, if◌then◌else◌}
use rayls_sovereign_contract.Base.Text.{Text, codes, text_eq, is_space, trim}
use rayls_sovereign_contract.Base.Outcome.{error, Exec, pure, throw, Returns}
use rayls_sovereign_contract.Utils.EnvFile.{get_env_variable_from_file, upsert_env_variable}
use rayls_sovereign_contract.Utils.EnvFile.RoundTrip.{
  IsKey, IsValue, get_env_variable_from_file-upsert_env_variable,
}
use rayls_sovereign_contract.Utils.TokenStandards.{detect_token_standard_name}
use rayls_sovereign_contract.Utils.TokenStandards.Parsing.{
  Parses, detect_token_standard_name-Parses,
}

-- A token that only has the second getter.
abbrev second_getter : Text → Exec Unit ℕ
second_getter method =
    if method === codes "getErcStandard"
    then pure 3
    else throw (error (codes "call revert exception"))

detect_token_standard_name-Parses_example :
    Returns Parses (detect_token_standard_name second_getter tt).0
detect_token_standard_name-Parses_example = detect_token_standard_name-Parses second_getter tt

token-IsKey : IsKey (codes "PNH_RPC_URL")
unfolding is_space
token-IsKey = (refl, refl, refl)

token-IsValue : IsValue (codes "http://localhost")
unfolding trim
token-IsValue = ((λ e. cc), refl, refl)

get_env_variable_from_file-upsert_env_variable_example :
    get_env_variable_from_file
      (some (
        upsert_env_variable
          (some (codes "# local\r\n  PNH_RPC_URL=old\r\nOTHER=1"))
          (codes "PNH_RPC_URL")
          (codes "http://localhost")))
      (codes "PNH_RPC_URL")
    ≡ some (codes "http://localhost")
get_env_variable_from_file-upsert_env_variable_example =
    get_env_variable_from_file-upsert_env_variable (codes "PNH_RPC_URL") (codes "http://localhost")
      token-IsKey token-IsValue (some (codes "# local\r\n  PNH_RPC_URL=old\r\nOTHER=1"))

written :
    upsert_env_variable (some (codes "# local\r\n  A=old\r\nB=1")) (codes "A") (codes "2")
    ≡ codes "# local\nA=2\nB=1\n"
unfolding upsert_env_variable
written = refl
