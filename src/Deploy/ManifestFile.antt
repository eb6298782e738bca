-- ===== src/Deploy/ManifestFile.antt =====
-- The manifest of a network in hardhat/tasks/deploy/manifest-manager.ts: its records, and what is looked
-- up and replaced in them.
use rayls_sovereign_contract.Base.{
  ℕ, Option, none, some, List, [], ◌∷◌, any, get_or, if◌then◌else◌, nat_eq,
}
use rayls_sovereign_contract.Base.Text.{Text, codes, truthy, to_lower, includes, text_eq, text_beq}
use rayls_sovereign_contract.Base.Dict.{Dict}

pub data ProxyKind : Type 0 where
  uups transparent beacon : ProxyKind

pub record ProxyDeployment : Type 0 where
  pub address : Text
  pub tx_hash : Text
  pub kind : ProxyKind

pub record StorageItem : Type 0 where
  pub label : Text
  pub offset : ℕ
  pub slot : Text
  pub type_id : Text
  pub contract : Text
  pub src : Text

pub record TypeDescription : Type 0 where
  pub label : Text
  pub number_of_bytes : Text
  pub members : Option (List StorageItem)

pub record StorageLayout : Type 0 where
  pub solc_version : Text
  pub storage : List StorageItem
  pub types : Dict Text TypeDescription
  pub namespaces : Option (Dict Text (List StorageItem))

pub record ImplementationDeployment : Type 0 where
  pub address : Text
  pub tx_hash : Text
  pub layout : StorageLayout

pub record Admin : Type 0 where
  pub address : Text
  pub tx_hash : Text

pub record NetworkManifest : Type 0 where
  pub manifest_version : Text
  pub admin : Option Admin
  pub proxies : List ProxyDeployment
  pub impls : Dict Text ImplementationDeployment

-- `storageLayout` of a Forge artifact, as far as its fields are there.
pub record RawLayout : Type 0 where
  pub solc_version : Option Text
  pub storage : Option (List StorageItem)
  pub types : Option (Dict Text TypeDescription)
  pub namespaces : Option (Dict Text (List StorageItem))

abbrev pub known_networks : Dict ℕ Text
known_networks =
    (1, codes "mainnet")
    ∷ (5, codes "goerli")
    ∷ (11155111, codes "sepolia")
    ∷ (137, codes "polygon")
    ∷ (80001, codes "mumbai")
    ∷ (42161, codes "arbitrum")
    ∷ (10, codes "optimism")
    ∷ []

abbrev pub empty_manifest : NetworkManifest
empty_manifest = record { manifest_version = codes "3.2"; admin = none; proxies = []; impls = [] }

-- `layout.solcVersion || '0.8.24'`
abbrev non_empty_or : Option Text → Text → Text
non_empty_or t other = if truthy t then get_or t [] else other

abbrev pub converted : RawLayout → StorageLayout
converted raw = record {
  solc_version = non_empty_or raw.solc_version (codes "0.8.24");
  storage = get_or raw.storage [];
  types = get_or raw.types [];
  namespaces = some (get_or raw.namespaces []);
}

-- The record takes the place of the first one at its address, or the last place.
unfoldable pub upsert_proxy : ProxyDeployment → List ProxyDeployment → List ProxyDeployment
upsert_proxy p [] = p ∷ []
upsert_proxy p (q ∷ qs) =
    let rest = upsert_proxy p qs in if text_beq q.address p.address then p ∷ qs else q ∷ rest

unfoldable pub proxy_at : Text → List ProxyDeployment → Option ProxyDeployment
proxy_at address [] = none
proxy_at address (q ∷ qs) = if text_beq q.address address then some q else proxy_at address qs

-- `for (const [hash, impl] of Object.entries(manifest.impls))`
unfoldable pub impl_at : Text → Dict Text ImplementationDeployment → Option ImplementationDeployment
impl_at address [] = none
impl_at address ((hash, impl) ∷ impls) =
    if text_beq (to_lower impl.address) (to_lower address) then some impl else impl_at address impls

abbrev pub with_proxies : List ProxyDeployment → NetworkManifest → NetworkManifest
with_proxies ps m = record {
  manifest_version = m.manifest_version;
  admin = m.admin;
  proxies = ps;
  impls = m.impls;
}

abbrev pub with_impls : Dict Text ImplementationDeployment → NetworkManifest → NetworkManifest
with_impls impls m = record {
  manifest_version = m.manifest_version;
  admin = m.admin;
  proxies = m.proxies;
  impls = impls;
}

-- An implementation some storage item of which is of the contract.
unfoldable pub impl_of : Text → Dict Text ImplementationDeployment → Option ImplementationDeployment
impl_of contract_name [] = none
impl_of contract_name ((hash, impl) ∷ impls) =
    let rest = impl_of contract_name impls in
    if any (λ item. includes item.contract contract_name) impl.layout.storage
    then some impl
    else rest
