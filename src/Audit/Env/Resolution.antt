-- ===== src/Audit/Env/Resolution.antt =====
-- Where the RPC URL and the registry address of hardhat/tasks/audit/utils.ts come from.
use rayls_sovereign_contract.Base.{
  ◌≡◌, ◌≢◌, ◌↔◌, ◌∙◌, ◌⊎◌, inl, inr, refl, sym, ap, true, Option, none, some, [], ◌∷◌, ◌++◌,
  Bool-cases, get_or, if◌then◌else◌,
}
use rayls_sovereign_contract.Base.Text.{Text, codes, truthy}
use rayls_sovereign_contract.Base.Outcome.{Outcome, ok, err, error, ok-injective}
use rayls_sovereign_contract.Audit.Env.{
  ChainType, pn, pnh, pc, Scope, from_env, rpc_env_name, registry_env_name,
  resolve_rpc_url_by_chain, resolve_registry_address,
}

-- A privacy node is named, and the variable is `PRIVACY_NODE_`, its name and the suffix.
pub NodeVariable : Option Text → Text → Text → Type 0
NodeVariable node suffix name =
    (n : Text) × (node ≡ some n) × (n ≢ []) × (name ≡ codes "PRIVACY_NODE_" ++ (n ++ suffix))

-- The variable that holds the RPC URL of a chain.
pub RpcVariable : Option Text → ChainType → Text → Type 0
RpcVariable of_node pnh name = name ≡ codes "PNH_RPC_URL"
RpcVariable of_node pc name = name ≡ codes "PUBLIC_CHAIN_RPC_URL"
RpcVariable of_node pn name = NodeVariable of_node (codes "_RPC_URL") name

-- The variable that holds the address of a chain's registry.
pub RegistryVariable : Option Text → ChainType → Text → Type 0
RegistryVariable of_node pnh name = name ≡ codes "PNH_DEPLOYMENT_PROXY_REGISTRY"
RegistryVariable of_node pn name = NodeVariable of_node (codes "_DEPLOYMENT_PROXY_REGISTRY") name
RegistryVariable of_node pc name =
    NodeVariable of_node (codes "_PUBLIC_CHAIN_DEPLOYMENT_PROXY_REGISTRY") name

-- A value from the flag, or else from the variable.
abbrev pub ComesFrom : (Text → Option Text) → Option Text → (Text → Type 0) → Text → Type 0
ComesFrom env flag IsVariable value =
    (value ≢ [])
    × ((flag ≡ some value)
        ⊎ (((flag ≡ none) ⊎ (flag ≡ some []))
            × ((name : Text) × IsVariable name × (env name ≡ some value))))

truthy-some : (o : Option Text) → truthy o ≡ true → (t : Text) × (o ≡ some t) × (t ≢ [])
truthy-some none h = cc
truthy-some (some []) h = cc
truthy-some (some (c ∷ t)) h = (c ∷ t, refl, λ e. cc)

some-truthy : (o : Option Text) (t : Text) → o ≡ some t → t ≢ [] → truthy o ≡ true
some-truthy none t e n = cc
some-truthy (some []) t e n = absurd (n cc)
some-truthy (some (c ∷ u)) t e n = refl

node_name :
    (node : Option Text) (suffix message : Text) (name : Text)
    → ((if truthy node
          then ok (codes "PRIVACY_NODE_" ++ (get_or node [] ++ suffix))
          else err (error message))
        ≡ ok name)
      ↔ NodeVariable node suffix name
unfolding NodeVariable
node_name none suffix message name = (λ h. cc, λ (n, e, m, k). cc)
node_name (some []) suffix message name = (λ h. cc, λ (n, e, m, k). absurd (m cc))
node_name (some (c ∷ t)) suffix message name = (
  λ h. (c ∷ t, refl, (λ e. cc), sym (ok-injective h)),
  λ (n, e, m, k).
      let same : n ≡ c ∷ t = cc in
      ap ok (sym (k ∙ ap (λ u. codes "PRIVACY_NODE_" ++ (u ++ suffix)) same)),
)

ChainType-cases : (c : ChainType) → (c ≡ pn) ⊎ ((c ≡ pnh) ⊎ (c ≡ pc))
ChainType-cases pn = inl refl
ChainType-cases pnh = inr (inl refl)
ChainType-cases pc = inr (inr refl)

ok-name : (t name : Text) → (◌≡◌ {A = Outcome Text} (ok t) (ok name)) ↔ (name ≡ t)
ok-name t name = (λ h. sym (ok-injective h), λ h. ap ok (sym h))

rpc_env_name-RpcVariable :
    (s : Scope) (name : Text) → (rpc_env_name s ≡ ok name) ↔ RpcVariable s.node s.chain name
unfolding rpc_env_name RpcVariable
rpc_env_name-RpcVariable s name = elim (ChainType-cases s.chain) [
  | inl e ↦ rw e (node_name s.node (codes "_RPC_URL") _ name)
  | inr (inl e) ↦ rw e (ok-name (codes "PNH_RPC_URL") name)
  | inr (inr e) ↦ rw e (ok-name (codes "PUBLIC_CHAIN_RPC_URL") name)
]

registry_env_name-RegistryVariable :
    (s : Scope) (name : Text)
    → (registry_env_name s ≡ ok name) ↔ RegistryVariable s.node s.chain name
unfolding registry_env_name RegistryVariable
registry_env_name-RegistryVariable s name = elim (ChainType-cases s.chain) [
  | inl e ↦ rw e (node_name s.node (codes "_DEPLOYMENT_PROXY_REGISTRY") _ name)
  | inr (inl e) ↦ rw e (ok-name (codes "PNH_DEPLOYMENT_PROXY_REGISTRY") name)
  | inr (inr e) ↦ rw e (node_name s.node (codes "_PUBLIC_CHAIN_DEPLOYMENT_PROXY_REGISTRY") _ name)
]

module _ (env : Text → Option Text) where
  -- A value that the environment gives is not empty, and that of the variable.
  from_env_iff :
      (variable : Outcome Text) (message : Text → Text) (value : Text)
      → (from_env env variable message ≡ ok value)
        ↔ ((value ≢ []) × ((name : Text) × (variable ≡ ok name) × (env name ≡ some value)))
  from_env_iff (err x) message value = (λ h. cc, λ (n, (name, e, f)). cc)
  from_env_iff (ok name) message value = elim (Bool-cases (truthy (env name))) [
    | inl c ↦
        let (t, found, nonempty) = truthy-some (env name) c in
        rw (c, found)
          (
            λ h.
                let same : t ≡ value = ok-injective h in
                rw (← same) (nonempty, (name, refl, found)),
            λ (n, (other, e, f)).
                let same : name ≡ other = ok-injective e in
                let held : some t ≡ some value = sym found ∙ ap env same ∙ f in cc,
          )
    | inr c ↦ rw c (
      λ h. cc,
      λ (n, (other, e, f)).
          let same : name ≡ other = ok-injective e in
          let t = some-truthy (env name) value (ap env same ∙ f) n in cc,
    )
  ]

  given_iff :
      (flag : Option Text) (variable : Outcome Text) (IsVariable : Text → Type 0)
      (message : Text → Text)
      → ((name : Text) → (variable ≡ ok name) ↔ IsVariable name)
      → (value : Text)
      → ((if truthy flag then ok (get_or flag []) else from_env env variable message) ≡ ok value)
        ↔ ComesFrom env flag IsVariable value
  given_iff none variable IsVariable message names value =
      let read = from_env_iff variable message value in
      (
        λ h. let (n, (name, e, f)) = read.0 h in (n, inr (inl refl, (name, (names name).0 e, f))),
        λ (n, way). elim way [
          | inl e ↦ cc
          | inr (d, (name, v, f)) ↦ read.1 (n, (name, (names name).1 v, f))
        ],
      )
  given_iff (some []) variable IsVariable message names value =
      let read = from_env_iff variable message value in
      (
        λ h. let (n, (name, e, f)) = read.0 h in (n, inr (inr refl, (name, (names name).0 e, f))),
        λ (n, way). elim way [
          | inl e ↦ absurd (n cc)
          | inr (d, (name, v, f)) ↦ read.1 (n, (name, (names name).1 v, f))
        ],
      )
  given_iff (some (c ∷ t)) variable IsVariable message names value = (
    λ h. let same : c ∷ t ≡ value = ok-injective h in ((λ e. cc), inl (ap some same)),
    λ (n, way). elim way [ inl e ↦ cc | inr (d, v) ↦ elim d [ inl e ↦ cc | inr e ↦ cc ] ],
  )

  -- The RPC URL and the registry address of a chain: `resolveRpcUrlByChain` and `resolveRegistryAddress`
  -- answer with a value exactly if it is not empty and either is the flag's (`--rpc`, `--registry`) or,
  -- where the flag is missing or empty, is the value of the chain's own variable: for the RPC URL
  -- PNH_RPC_URL, PUBLIC_CHAIN_RPC_URL or, for a node X, PRIVACY_NODE_X_RPC_URL; for the registry
  -- PNH_DEPLOYMENT_PROXY_REGISTRY, or PRIVACY_NODE_X_DEPLOYMENT_PROXY_REGISTRY and
  -- PRIVACY_NODE_X_PUBLIC_CHAIN_DEPLOYMENT_PROXY_REGISTRY for a node X and its public chain. A node is
  -- needed where its name is a part of the variable's.
  pub resolve_by_chain_iff :
      (s : Scope) (flag : Option Text) (value : Text)
      → ((resolve_rpc_url_by_chain env s flag ≡ ok value)
          ↔ ComesFrom env flag (RpcVariable s.node s.chain) value)
        × ((resolve_registry_address env flag s ≡ ok value)
            ↔ ComesFrom env flag (RegistryVariable s.node s.chain) value)
  unfolding resolve_rpc_url_by_chain resolve_registry_address
  resolve_by_chain_iff s flag value = (
    given_iff flag (rpc_env_name s) (RpcVariable s.node s.chain) _ (rpc_env_name-RpcVariable s)
        value,
    given_iff flag (registry_env_name s) (RegistryVariable s.node s.chain) _
        (registry_env_name-RegistryVariable s) value,
  )
