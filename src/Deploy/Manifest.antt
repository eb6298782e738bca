-- ===== src/Deploy/Manifest.antt =====
-- `ManifestManager` of hardhat/tasks/deploy/manifest-manager.ts. The disk is a map from paths to
-- contents. JSON's two directions, between manifests and contents, the provider's chain id, the hash
-- of a storage layout, and the read of Forge's artifacts are parameters. The manifest directory has no
-- trailing slash; what is printed is not modelled.
pub mod Records
use rayls_sovereign_contract.Base.{
  ℕ, ◌≡◌, Bool, false, Option, none, some, List, [], ◌∷◌, ◌++◌, map, get_or, get_elem?, length, ltb,
  if◌then◌else◌, nat_eq,
}
use rayls_sovereign_contract.Base.Text.{Text, codes, truthy, decimal, text_eq}
use rayls_sovereign_contract.Base.Outcome.{Outcome, ok, err, Exec, pure, ◌>>=◌, ◌>>◌, try_catch}
use rayls_sovereign_contract.Base.Dict.{Dict, get, put, has}
use rayls_sovereign_contract.Deploy.ManifestFile.{
  ProxyKind, ProxyDeployment, StorageItem, StorageLayout, ImplementationDeployment, NetworkManifest,
  RawLayout, known_networks, empty_manifest, converted, upsert_proxy, proxy_at, impl_at,
  with_proxies, with_impls, impl_of,
}

module _ {Content : Type 0} (parse : Content → Outcome NetworkManifest)
    (stringify : NetworkManifest → Content) (layout_hash : List StorageItem → Text)
    (read_artifact : Text → Outcome (Option RawLayout)) (manifest_dir : Text)
    (participant_suffix : Option Text) (chain_id : Outcome ℕ) where
  abbrev Disk : Type 0
  Disk = Dict Text Content

  unfoldable pub get_manifest_path : ℕ → Text
  unfolding get
  get_manifest_path id =
      let base = get_or (get known_networks id) (codes "unknown-" ++ decimal id) in
      let filename =
        if truthy participant_suffix
        then base ++ (codes "-" ++ get_or participant_suffix [])
        else base in
      manifest_dir ++ (codes "/" ++ (filename ++ codes ".json"))

  -- A manifest that is not there is a new one.
  abbrev pub loaded : Option Content → Outcome NetworkManifest
  loaded none = ok empty_manifest
  loaded (some content) = parse content

  unfoldable pub load_manifest : ℕ → Disk → Outcome NetworkManifest
  unfolding get_manifest_path
  load_manifest id disk = loaded (get disk (get_manifest_path id))

  unfoldable pub save_manifest : ℕ → NetworkManifest → Disk → Disk
  unfolding get_manifest_path
  save_manifest id m disk = put disk (get_manifest_path id) (stringify m)

  -- An error is as no layout.
  unfoldable pub read_storage_layout : Text → Option StorageLayout
  read_storage_layout contract_name = elim (read_artifact contract_name) [
    | err e ↦ none
    | ok none ↦ none
    | ok (some raw) ↦ some (converted raw)
  ]

  -- The chain's manifest.
  abbrev pub current : Exec Disk (ℕ × NetworkManifest)
  current = (λ disk. (chain_id, disk)) >>= λ id.
      (λ disk. (load_manifest id disk, disk)) >>= λ m. pure (id, m)

  abbrev pub store : ℕ → NetworkManifest → Exec Disk (Unit {0})
  store id m disk = (ok tt, save_manifest id m disk)

  unfoldable pub record_proxy : Text → Text → ProxyKind → Exec Disk (Unit {0})
  unfolding load_manifest save_manifest upsert_proxy
  record_proxy address tx_hash kind = current >>= λ (id, m). store id (
      with_proxies
        (upsert_proxy (record { address = address; tx_hash = tx_hash; kind = kind }) m.proxies) m)

  -- The manifest with an implementation of this layout.
  abbrev pub add_impl :
      Text → Text → ℕ → NetworkManifest → Option StorageLayout → Exec Disk (Unit {0})
  add_impl address tx_hash id m none = pure tt
  add_impl address tx_hash id m (some layout) =
      if has m.impls (layout_hash layout.storage)
      then pure tt
      else store id (
          with_impls
            (put m.impls (layout_hash layout.storage)
              (record { address = address; tx_hash = tx_hash; layout = layout }))
            m)

  unfoldable pub record_implementation : Text → Text → Text → Exec Disk (Unit {0})
  unfolding load_manifest save_manifest read_storage_layout
  record_implementation address tx_hash contract_name =
      current >>= λ (id, m). add_impl address tx_hash id m (read_storage_layout contract_name)

  unfoldable pub get_proxy : Text → Exec Disk (Option ProxyDeployment)
  unfolding load_manifest proxy_at
  get_proxy address = current >>= λ (id, m). pure (proxy_at address m.proxies)

  unfoldable pub get_implementation : Text → Exec Disk (Option ImplementationDeployment)
  unfolding load_manifest impl_at
  get_implementation address = current >>= λ (id, m). pure (impl_at address m.impls)

  -- The layout of an implementation that is there.
  abbrev layout_of : Option ImplementationDeployment → Option StorageLayout
  layout_of none = none
  layout_of (some impl) = some impl.layout

  unfoldable pub get_storage_layout : Text → Exec Disk (Option StorageLayout)
  unfolding get_implementation
  get_storage_layout address = get_implementation address >>= λ impl. pure (layout_of impl)

  unfoldable pub list_proxies : Exec Disk (List ProxyDeployment)
  unfolding load_manifest
  list_proxies = current >>= λ (id, m). pure m.proxies

  unfoldable pub list_implementations : Exec Disk (List ImplementationDeployment)
  unfolding load_manifest
  list_implementations = current >>= λ (id, m). pure (map (λ entry. entry.1) m.impls)

  -- The first proxy, beside an implementation of the contract.
  abbrev pub existing :
      List ProxyDeployment
      → Option ImplementationDeployment
      → Option (ProxyDeployment × ImplementationDeployment)
  existing [] impl = none
  existing (p ∷ ps) none = none
  existing (p ∷ ps) (some impl) = some (p, impl)

  unfoldable pub find_existing_deployment :
      Text → Exec Disk (Option (ProxyDeployment × ImplementationDeployment))
  unfolding load_manifest impl_of
  find_existing_deployment contract_name =
      try_catch (current >>= λ (id, m). pure (existing m.proxies (impl_of contract_name m.impls)))
        (λ e. pure none)

  unfoldable pub has_existing_deployments : Exec Disk Bool
  unfolding load_manifest
  has_existing_deployments =
      try_catch (current >>= λ (id, m). pure (ltb 0 (length m.proxies))) (λ e. pure false)
