-- ===== src/Audit/Tests.antt =====
-- hardhat/tasks/audit: runs on small chains, and the theorems at them.
use rayls_sovereign_contract.Base.{
  ℕ, suc, ◌≡◌, ◌↔◌, ◌<◌, ◌≤◌, ◌-◌, refl, true, false, Option, none, some, List, [], ◌∷◌, ltb,
  contains, arith, if◌then◌else◌, ◌===◌,
}
use rayls_sovereign_contract.Base.Text.{Text, codes, text_eq, decimal}
use rayls_sovereign_contract.Base.Outcome.{Outcome, ok, Exec, pure}
use rayls_sovereign_contract.Base.{◌↔◌, nat_beq}
use rayls_sovereign_contract.Base.Outcome.{err, error}
use rayls_sovereign_contract.Base.Dict.{has}
use rayls_sovereign_contract.Audit.Env.{
  pnh, Scope, resolve_rpc_url_by_chain, resolve_registry_address,
}
use rayls_sovereign_contract.Audit.Env.Resolution.{
  ComesFrom, RpcVariable, RegistryVariable, resolve_by_chain_iff,
}
use rayls_sovereign_contract.Audit.Logs.{fetch_logs_chunked}
use rayls_sovereign_contract.Audit.Logs.Coverage.{in_blocks, fetch_logs_chunked-in_blocks}
use rayls_sovereign_contract.Audit.Fetch.Order.{Fetched, fetch_in_batches-Fetched}
use rayls_sovereign_contract.Audit.DeployBlock.{is_empty, search_loop, binary_search_deploy_block}
use rayls_sovereign_contract.Audit.DeployBlock.First.{
  Searched, binary_search_deploy_block-AppearsAt, binary_search_deploy_block-exact,
}
use rayls_sovereign_contract.Audit.StartBlock.{
  auto_detect, StartingBlockResolution, StartingBlockProvider, starting_env_names, from_names,
  auto_detect_block, resolve_starting_block,
}
use rayls_sovereign_contract.Audit.StartBlock.Ladder.{Reaches, resolve_starting_block-Reaches}
use rayls_sovereign_contract.Audit.Nodes.Distinct.{Parsed, parse_nodes_cases}
use rayls_sovereign_contract.Audit.Replay.{Position, Event}
use rayls_sovereign_contract.Audit.Replay.Last.{IsLast}
use rayls_sovereign_contract.Audit.Relayers.{
  RoleChange, role_changes, live_holders, classify, blockers,
}
use rayls_sovereign_contract.Audit.Relayers.Holders.{concerns, standing, contains-live_holders}
use rayls_sovereign_contract.Audit.Relayers.Verdict.{blockers-classify}

-- The hub, with one variable set.
abbrev hub : Scope
hub = record { chain = pnh; node = none; task_name = codes "audit" }

abbrev variables : Text → Option Text
variables name =
    if name === codes "PNH_RPC_URL"
    then some (codes "http://localhost")
    else if name === codes "PNH_DEPLOYMENT_PROXY_REGISTRY"
    then some (codes "0xa")
    else none

resolve_by_chain_iff_example :
    ((resolve_rpc_url_by_chain variables hub none ≡ ok (codes "http://localhost"))
      ↔ ComesFrom variables none (RpcVariable none pnh) (codes "http://localhost"))
    × ((resolve_registry_address variables none hub ≡ ok (codes "http://localhost"))
        ↔ ComesFrom variables none (RegistryVariable none pnh) (codes "http://localhost"))
resolve_by_chain_iff_example = resolve_by_chain_iff variables hub none (codes "http://localhost")

-- Each block has a log, which is its number.
abbrev blocks : ℕ → List ℕ
blocks b = b ∷ []

abbrev get_logs : ℕ → ℕ → Exec Unit (List ℕ)
get_logs a b w = (ok (in_blocks blocks a (suc b - a)), w)

fetch_logs_chunked-in_blocks_example :
    fetch_logs_chunked get_logs 3 9 4 tt ≡ (ok (in_blocks blocks 3 7), tt)
fetch_logs_chunked-in_blocks_example =
    fetch_logs_chunked-in_blocks get_logs blocks (λ a b w. refl) 3 9 4 tt (omega arith)

-- The fetch of 2 fails; the world is what was fetched.
abbrev fetch_but_two : ℕ → Exec (List ℕ) ℕ
fetch_but_two t fetched =
    (if nat_beq t 2 then err (error (codes "read ECONNRESET")) else ok t, t ∷ fetched)

fetch_in_batches-Fetched_example : Fetched fetch_but_two (1 ∷ 2 ∷ 3 ∷ 4 ∷ 5 ∷ []) 2 []
fetch_in_batches-Fetched_example =
    fetch_in_batches-Fetched fetch_but_two (1 ∷ 2 ∷ 3 ∷ 4 ∷ 5 ∷ []) 2 []

-- A chain of which block 5 is the head, and an address that has code from block 3 on.
abbrev code : ℕ → Text
code b = if ltb b 3 then codes "0x" else codes "0x6080"

abbrev provider : StartingBlockProvider Unit
provider = record { get_code = (λ a b. pure (code b)); get_block_number = pure 5 }

binary_search_deploy_block-AppearsAt_example :
    Searched provider.get_code provider.get_block_number
      (codes "0xa")
      5
      code
      (λ w. refl)
      (λ b w. refl)
      tt
binary_search_deploy_block-AppearsAt_example =
    binary_search_deploy_block-AppearsAt provider.get_code provider.get_block_number (codes "0xa") 5
      code (λ w. refl) (λ b w. refl) tt

code-before : (i : ℕ) → i < 3 → is_empty (code i) ≡ true
unfolding is_empty
code-before i h = let c : ltb i 3 ≡ true = ground arith in rw c refl

code-after : (i : ℕ) → 3 ≤ i → is_empty (code i) ≡ false
unfolding is_empty
code-after i h = let c : ltb i 3 ≡ false = ground arith in rw c refl

binary_search_deploy_block-exact_example :
    binary_search_deploy_block provider.get_code provider.get_block_number (codes "0xa") tt
    ≡ (ok (some 3), tt)
binary_search_deploy_block-exact_example =
    binary_search_deploy_block-exact provider.get_code provider.get_block_number (codes "0xa") 5
      code (λ w. refl) (λ b w. refl) 3 tt (omega arith) code-before code-after

abbrev found : StartingBlockResolution
found = record { from_block = 3; source = auto_detect; detail = some (codes "block 3") }

start_resolved :
    (resolve_starting_block variables none hub (some (codes "0xa")) (some provider) tt).0 ≡ ok found
unfolding resolve_starting_block auto_detect_block from_names starting_env_names
    binary_search_deploy_block search_loop is_empty decimal
start_resolved = refl

resolve_starting_block-Reaches_example :
    Reaches variables none hub
      (codes "0xa")
      provider
      5
      code
      (λ w. refl)
      (λ b w. refl)
      auto_detect
      3
      3
resolve_starting_block-Reaches_example =
    resolve_starting_block-Reaches variables none hub (codes "0xa") provider 5 code (λ w. refl)
      (λ b w. refl) 3 tt found (omega arith) code-before code-after start_resolved

parse_nodes_cases_example : Parsed (codes "--pn") (codes "A, B,A") (codes "audit:pn")
parse_nodes_cases_example = parse_nodes_cases (codes "--pn") (codes "A, B,A") (codes "audit:pn")

-- A log is its position, with the account that it names.
abbrev Log : Type 0
Log = Position × Text

abbrev log : ℕ → ℕ → Text → Log
log block index account = (record { block_number = block; index = index }, account)

abbrev granted : List Log
granted = log 2 0 (codes "0xA") ∷ log 9 1 (codes "0xb") ∷ []

abbrev revoked : List Log
revoked = log 7 4 (codes "0xa") ∷ []

abbrev account_of : Log → Outcome (Option Text)
account_of l = ok (some l.1)

contains-live_holders_example :
    (o : Option (Event RoleChange)) × IsLast
      (concerns (codes "0xa"))
      (role_changes (λ l. l.0) account_of granted revoked)
      o
    × (contains (live_holders (λ l. l.0) account_of granted revoked) (codes "0xa")
        ≡ standing false o)
contains-live_holders_example =
    contains-live_holders (λ l. l.0) account_of granted revoked (codes "0xa")

blockers-classify_example :
    (blockers (classify ((codes "0xb", codes "cts") ∷ []) (codes "0xb" ∷ [])) ≡ [])
    ↔ ((a : Text) → has ((codes "0xb", codes "cts") ∷ []) a ≡ contains (codes "0xb" ∷ []) a)
blockers-classify_example = blockers-classify ((codes "0xb", codes "cts") ∷ []) (codes "0xb" ∷ [])
