-- ===== src/Deploy/Manifest/Records.antt =====
-- What `ManifestManager` of hardhat/tasks/deploy/manifest-manager.ts finds after it has recorded.
use rayls_sovereign_contract.Base.{
  ℕ, ◌≡◌, ◌∙◌, inl, inr, refl, ap, true, false, Option, none, some, List, [], ◌∷◌, or_else, arith,
  Bool-cases, if◌then◌else◌,
}
use rayls_sovereign_contract.Base.Text.{Text, text_eq, text_beq, text_beq_iff, to_lower}
use rayls_sovereign_contract.Base.Outcome.{Outcome, ok}
use rayls_sovereign_contract.Base.Dict.{Dict, get, put, has, get-put}
use rayls_sovereign_contract.Deploy.Manifest.{
  loaded, get_manifest_path, load_manifest, save_manifest, read_storage_layout, record_proxy,
  record_implementation, get_proxy, get_implementation,
}
use rayls_sovereign_contract.Deploy.ManifestFile.{
  ProxyKind, ProxyDeployment, StorageItem, StorageLayout, ImplementationDeployment, NetworkManifest,
  RawLayout, upsert_proxy, proxy_at, impl_at, with_proxies, with_impls,
}

proxy_at-upsert_proxy :
    (p : ProxyDeployment) (b : Text) (ps : List ProxyDeployment)
    → proxy_at b (upsert_proxy p ps) ≡ (if text_beq p.address b then some p else proxy_at b ps)
unfolding proxy_at upsert_proxy
proxy_at-upsert_proxy p b [] = refl
proxy_at-upsert_proxy p b (q ∷ qs) = ground (
  arith,
  proxy_at-upsert_proxy p b qs,
  text_beq_iff q.address p.address,
  text_beq_iff q.address b,
  text_beq_iff p.address b,
)

impl_at-put :
    (b hash : Text) (new : ImplementationDeployment) (impls : Dict Text ImplementationDeployment)
    → has impls hash ≡ false
    → impl_at b (put impls hash new)
      ≡ or_else
          (impl_at b impls)
          (if text_beq (to_lower new.address) (to_lower b) then some new else none)
unfolding impl_at put get
impl_at-put b hash new [] h = refl
impl_at-put b hash new ((k, impl) ∷ impls) h = elim (Bool-cases (text_beq k hash)) [
  | inl c ↦ let bad : true ≡ false = rw c at h in cc
  | inr c ↦
      let h' : has impls hash ≡ false = rw c at h in
      elim (Bool-cases (text_beq (to_lower impl.address) (to_lower b))) [
        | inl d ↦ rw (c, d) refl
        | inr d ↦ rw (c, d) (impl_at-put b hash new impls h')
      ]
]

module _ {Content : Type 0} (parse : Content → Outcome NetworkManifest)
    (stringify : NetworkManifest → Content) (layout_hash : List StorageItem → Text)
    (read_artifact : Text → Outcome (Option RawLayout)) (manifest_dir : Text)
    (participant_suffix : Option Text) (id : ℕ)
    (round_trip : (m : NetworkManifest) → parse (stringify m) ≡ ok m) (disk : Dict Text Content)
    (m : NetworkManifest)
    (loads : load_manifest parse stringify layout_hash read_artifact manifest_dir participant_suffix
        (ok id)
        id
        disk
      ≡ ok m) where
  load-save :
      (n : NetworkManifest)
      → load_manifest parse stringify layout_hash read_artifact manifest_dir participant_suffix
          (ok id)
          id
          (save_manifest parse stringify layout_hash read_artifact manifest_dir participant_suffix
            (ok id)
            id
            n
            disk)
        ≡ ok n
  unfolding load_manifest save_manifest
  load-save n =
      let path =
        get_manifest_path parse stringify layout_hash read_artifact manifest_dir participant_suffix
          (ok id) id in
      let found : get (put disk path (stringify n)) path ≡ some (stringify n) =
        get-put disk path path (stringify n) ∙ rw ((text_beq_iff path path).1 refl) refl in
      ap (loaded parse stringify layout_hash read_artifact manifest_dir participant_suffix (ok id))
        found
      ∙ round_trip n

  abbrev pub recorded_proxy : Text → Text → ProxyKind → Outcome (Unit {0}) × Dict Text Content
  recorded_proxy address tx_hash kind =
      record_proxy parse stringify layout_hash read_artifact manifest_dir participant_suffix (ok id)
        address tx_hash kind disk

  -- After `recordProxy`, where the manifest `m` was read before and JSON's two directions agree,
  -- `getProxy` answers with the new record at its address, and at every other address with what
  -- `m` has there.
  pub get_proxy-record_proxy :
      (address tx_hash : Text) (kind : ProxyKind) (b : Text)
      → (get_proxy parse stringify layout_hash read_artifact manifest_dir participant_suffix
          (ok id)
          b
          (recorded_proxy address tx_hash kind).1).0
        ≡ ok (
            if text_beq address b
            then some (record { address = address; tx_hash = tx_hash; kind = kind })
            else proxy_at b m.proxies)
  unfolding get_proxy record_proxy
  get_proxy-record_proxy address tx_hash kind b =
      let p : ProxyDeployment = record { address = address; tx_hash = tx_hash; kind = kind } in
      rw
        (
          loads,
          load-save (with_proxies (upsert_proxy p m.proxies) m),
          proxy_at-upsert_proxy p b m.proxies,
        )
        refl

  -- After `recordImplementation` of a contract whose layout could be read, where the manifest `m`
  -- was read before and JSON's two directions agree: if `m` has an implementation of that layout,
  -- `getImplementation` finds at each address what `m` has there, so that the new address is not
  -- recorded; and if it has none, it finds what `m` has there, or else the new implementation
  -- where the address is its own, in whatever case.
  pub get_implementation-record_implementation :
      (address tx_hash contract_name : Text) (layout : StorageLayout) (b : Text)
      → read_storage_layout parse stringify layout_hash read_artifact manifest_dir
          participant_suffix
          (ok id)
          contract_name
        ≡ some layout
      → (get_implementation parse stringify layout_hash read_artifact manifest_dir
          participant_suffix
          (ok id)
          b
          (record_implementation parse stringify layout_hash read_artifact manifest_dir
            participant_suffix
            (ok id)
            address
            tx_hash
            contract_name
            disk).1).0
        ≡ ok (
            if has m.impls (layout_hash layout.storage)
            then impl_at b m.impls
            else or_else (impl_at b m.impls) (
                if text_beq (to_lower address) (to_lower b)
                then some (record { address = address; tx_hash = tx_hash; layout = layout })
                else none))
  unfolding get_implementation record_implementation
  get_implementation-record_implementation address tx_hash contract_name layout b reads =
      elim (Bool-cases (has m.impls (layout_hash layout.storage))) [
        | inl c ↦ rw (loads, reads, c, loads) refl
        | inr c ↦
            let new : ImplementationDeployment = record {
              address = address;
              tx_hash = tx_hash;
              layout = layout;
            } in
            let impls = put m.impls (layout_hash layout.storage) new in
            rw
              (
                loads,
                reads,
                c,
                load-save (with_impls impls m),
                impl_at-put b (layout_hash layout.storage) new m.impls c,
              )
              refl
      ]
