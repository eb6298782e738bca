-- ===== src/Audit/Env.antt =====
-- Chain-keyed environment variables of hardhat/tasks/audit/utils.ts. `env` is `process.env`.
pub mod Resolution
use rayls_sovereign_contract.Base.{◌≡◌, Option, [], ◌∷◌, ◌++◌, if◌then◌else◌, get_or}
use rayls_sovereign_contract.Base.Text.{Text, codes, truthy}
use rayls_sovereign_contract.Base.Outcome.{error, Outcome, ok, err}

pub data ChainType : Type 0 where
  pn pnh pc : ChainType

-- The chain that a task audits; `node` is its `--pn`.
pub record Scope : Type 0 where
  pub chain : ChainType
  pub node : Option Text
  pub task_name : Text

abbrev pub per_node : Option Text → Text → Text
per_node node suffix = codes "PRIVACY_NODE_" ++ (get_or node [] ++ suffix)

abbrev pub rpc_needs_node : Scope → Text
rpc_needs_node s = s.task_name ++ codes ": chain='pn' requires --pn to derive the RPC env-var name."

unfoldable pub rpc_env_name : Scope → Outcome Text
rpc_env_name s = elim s.chain [
  | pnh ↦ ok (codes "PNH_RPC_URL")
  | pc ↦ ok (codes "PUBLIC_CHAIN_RPC_URL")
  | pn ↦
      if truthy s.node
      then ok (per_node s.node (codes "_RPC_URL"))
      else err (error (rpc_needs_node s))
]

abbrev pub registry_needs_node : Scope → Text → Text
registry_needs_node s side =
    s.task_name
    ++ (codes ": --registry omitted and chain='"
        ++ (side ++ codes "' needs --pn to derive the env-var name."))

unfoldable pub registry_env_name : Scope → Outcome Text
registry_env_name s = elim s.chain [
  | pnh ↦ ok (codes "PNH_DEPLOYMENT_PROXY_REGISTRY")
  | pn ↦
      if truthy s.node
      then ok (per_node s.node (codes "_DEPLOYMENT_PROXY_REGISTRY"))
      else err (error (registry_needs_node s (codes "pn")))
  | pc ↦
      if truthy s.node
      then ok (per_node s.node (codes "_PUBLIC_CHAIN_DEPLOYMENT_PROXY_REGISTRY"))
      else err (error (registry_needs_node s (codes "pc")))
]

module _ (env : Text → Option Text) where
  -- The variable's value, if it is there and not empty.
  abbrev pub from_env : Outcome Text → (Text → Text) → Outcome Text
  from_env (err e) message = err e
  from_env (ok name) message =
      if truthy (env name) then ok (get_or (env name) []) else err (error (message name))

  unfoldable pub resolve_rpc_url_by_chain : Scope → Option Text → Outcome Text
  unfolding rpc_env_name
  resolve_rpc_url_by_chain s explicit_rpc =
      if truthy explicit_rpc
      then ok (get_or explicit_rpc [])
      else from_env (rpc_env_name s) λ name.
        s.task_name
        ++ (codes ": no RPC URL resolved. Pass --rpc <url> or set " ++ (name ++ codes " in .env."))

  unfoldable pub resolve_registry_address : Option Text → Scope → Outcome Text
  unfolding registry_env_name
  resolve_registry_address explicit s =
      if truthy explicit
      then ok (get_or explicit [])
      else from_env (registry_env_name s) λ name.
        s.task_name
        ++ (codes ": could not resolve a DeploymentProxyRegistry address. "
            ++ (codes "Pass --registry <addr> or set " ++ (name ++ codes " in .env.")))
