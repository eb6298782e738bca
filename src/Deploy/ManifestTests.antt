-- ===== src/Deploy/ManifestTests.antt =====
-- hardhat/tasks/deploy/manifest-manager.ts: runs, and the theorems at them.
use rayls_sovereign_contract.Base.{◌≡◌, refl, Option, none, some, [], or_else, if◌then◌else◌}
use rayls_sovereign_contract.Base.Text.{Text, codes, text_beq, text_eq, to_lower}
use rayls_sovereign_contract.Base.Outcome.{Outcome, ok}
use rayls_sovereign_contract.Base.Dict.{get, has}
use rayls_sovereign_contract.Deploy.Manifest.{
  load_manifest, read_storage_layout, get_proxy, get_implementation, record_implementation,
}
use rayls_sovereign_contract.Deploy.ManifestFile.{
  uups, NetworkManifest, RawLayout, converted, empty_manifest, proxy_at, impl_at,
}
use rayls_sovereign_contract.Deploy.Manifest.Records.{
  recorded_proxy, get_proxy-record_proxy, get_implementation-record_implementation,
}

-- Contents are manifests themselves.
abbrev layout : RawLayout
layout = record { solc_version = none; storage = none; types = none; namespaces = none }

abbrev read_layout : Text → Outcome (Option RawLayout)
read_layout name = ok (some layout)

loads :
    load_manifest ok
      (λ m. m)
      (λ storage. codes "hash")
      read_layout
      (codes ".openzeppelin")
      none
      (ok 7331)
      7331
      []
    ≡ ok empty_manifest
unfolding load_manifest get
loads = refl

layout_read :
    read_storage_layout {Content = NetworkManifest} ok
      (λ m. m)
      (λ storage. codes "hash")
      read_layout
      (codes ".openzeppelin")
      none
      (ok 7331)
      (codes "Token")
    ≡ some (converted layout)
unfolding read_storage_layout
layout_read = refl

get_proxy-record_proxy_example :
    (get_proxy ok
      (λ m. m)
      (λ storage. codes "hash")
      read_layout
      (codes ".openzeppelin")
      none
      (ok 7331)
      (codes "0xa")
      (recorded_proxy ok
        (λ m. m)
        (λ storage. codes "hash")
        read_layout
        (codes ".openzeppelin")
        none
        7331
        (λ m. refl)
        []
        empty_manifest
        loads
        (codes "0xa")
        (codes "0x1")
        uups).1).0
    ≡ ok (
        if text_beq (codes "0xa") (codes "0xa")
        then some (record { address = codes "0xa"; tx_hash = codes "0x1"; kind = uups })
        else proxy_at (codes "0xa") [])
get_proxy-record_proxy_example =
    get_proxy-record_proxy ok (λ m. m) (λ storage. codes "hash") read_layout (codes ".openzeppelin")
      none 7331 (λ m. refl) [] empty_manifest loads (codes "0xa") (codes "0x1") uups (codes "0xa")

get_implementation-record_implementation_example :
    (get_implementation ok
      (λ m. m)
      (λ storage. codes "hash")
      read_layout
      (codes ".openzeppelin")
      none
      (ok 7331)
      (codes "0xB")
      (record_implementation ok
        (λ m. m)
        (λ storage. codes "hash")
        read_layout
        (codes ".openzeppelin")
        none
        (ok 7331)
        (codes "0xb")
        (codes "0x2")
        (codes "Token")
        []).1).0
    ≡ ok (
        if has empty_manifest.impls (codes "hash")
        then impl_at (codes "0xB") []
        else or_else (impl_at (codes "0xB") []) (
            if text_beq (to_lower (codes "0xb")) (to_lower (codes "0xB"))
            then some
                (record { address = codes "0xb"; tx_hash = codes "0x2"; layout = converted layout })
            else none))
get_implementation-record_implementation_example =
    get_implementation-record_implementation ok (λ m. m) (λ storage. codes "hash") read_layout
      (codes ".openzeppelin") none 7331 (λ m. refl) [] empty_manifest loads (codes "0xb")
      (codes "0x2") (codes "Token") (converted layout) (codes "0xB") layout_read
