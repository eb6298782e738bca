-- ===== src/Deploy/Validation.antt =====
-- The safety checks of hardhat/tasks/deploy/validation-helpers.ts, up to `validateUpgrade`. The files of the
-- Forge build are a parameter; the lines that are printed are not modelled.
pub mod Layouts
use rayls_sovereign_contract.Base.{
  ℕ, zero, suc, ◌≡◌, Bool, true, false, not, ◌&&◌, ◌||◌, Option, none, some, List, [], ◌∷◌, ◌++◌,
  map, any, contains, drop, length, replicate, ◌-◌, get_or, if◌then◌else◌, ◌===◌, nat_eq, nat_beq,
}
use rayls_sovereign_contract.Base.Text.{Text, codes, text_eq, text_beq, includes}
use rayls_sovereign_contract.Base.Outcome.{
  JsError, error, Outcome, ok, err, Exec, pure, throw, ◌>>=◌, ◌>>◌, try_catch,
}
use rayls_sovereign_contract.Deploy.Deployment.{ValidationOptions}

-- What the checks read of a contract factory.
pub record FactoryView : Type 0 where
  pub contract_name : Option Text
  pub interface_name : Option Text
  pub target_name : Option Text
  -- the names of the ABI's fragments; none, if reading them throws
  pub fragments : Option (List Text)

abbrev by_target : Option Text → Text
by_target none = codes "Unknown"
by_target (some []) = codes "Unknown"
by_target (some (c ∷ name)) =
    if text_beq (c ∷ name) (codes "Object") || text_beq (c ∷ name) (codes "Contract")
    then codes "Unknown"
    else c ∷ name

-- `a || b`, for a text that may be missing or empty
abbrev or_text : Option Text → Text → Text
or_text none b = b
or_text (some []) b = b
or_text (some (c ∷ a)) b = c ∷ a

unfoldable pub get_contract_name : FactoryView → Text
get_contract_name f = or_text f.contract_name (or_text f.interface_name (by_target f.target_name))

pub record StorageLayoutEntry : Type 0 where
  pub label : Text
  pub offset : ℕ
  pub slot : Text
  pub type_name : Text

-- `item.type` and `item.name`
pub record AbiItem : Type 0 where
  pub kind : Text
  pub name : Text

-- `storageLayout` with its `storage`, and `abi`, as far as they are there.
pub record ForgeArtifact : Type 0 where
  pub abi : Option (List AbiItem)
  pub storage_layout : Option (Option (List StorageLayoutEntry))

unfoldable pub is_uups_contract : FactoryView → Bool
is_uups_contract f =
    let names = get_or f.fragments [] in
    any (λ n. text_beq n (codes "upgradeTo")) names
    || any (λ n. text_beq n (codes "upgradeToAndCall")) names

-- `opts.unsafeAllow?.includes(what)`
abbrev pub allows : ValidationOptions → Text → Bool
allows opts what = contains (get_or opts.unsafe_allow []) what

-- The comparison of an entry with the one at its place.
abbrev pub same_entry : StorageLayoutEntry → StorageLayoutEntry → Bool
same_entry old new =
    text_beq old.slot new.slot
    && (text_beq old.type_name new.type_name && nat_beq old.offset new.offset)

-- `for (let i = 0; i < oldLayout.length; i++)`
unfoldable pub preserves : List StorageLayoutEntry → List StorageLayoutEntry → Bool
preserves [] new = true
preserves (o ∷ old) [] = false
preserves (o ∷ old) (n ∷ new) =
    let rest = preserves old new in if same_entry o n then rest else false

-- Without data on both sides there is nothing to compare.
unfoldable pub compare_storage : List StorageLayoutEntry → List StorageLayoutEntry → Bool
unfolding preserves
compare_storage [] new = true
compare_storage (o ∷ old) [] = true
compare_storage (o ∷ old) (n ∷ new) = preserves (o ∷ old) (n ∷ new)

abbrev pub storage_entries : Option (Option (List StorageLayoutEntry)) → List StorageLayoutEntry
storage_entries none = []
storage_entries (some storage) = get_or storage []

-- The two layouts are there: `validateUpgrade` calls it only then.
unfoldable pub compare_storage_layout_objects :
    Option (List StorageLayoutEntry) → Option (List StorageLayoutEntry) → Bool
unfolding compare_storage
compare_storage_layout_objects old new = compare_storage (get_or old []) (get_or new [])

-- The files below the working directory.
pub record ForgeFiles (W : Type 0) : Type 0 where
  -- what `find out -name "${contractName}.json" -type f | head -1` prints, trimmed
  pub find_artifact : Text → Exec W Text
  pub exists_sync : Text → Exec W Bool
  -- `JSON.parse(fs.readFileSync(path))`
  pub read_artifact : Text → Exec W ForgeArtifact
  -- `path.join(outDir, …)`
  pub in_out : List Text → Text

module _ {W : Type 0} (files : ForgeFiles W) where
  open files use {find_artifact, exists_sync, read_artifact, in_out}

  abbrev compare_artifacts : Text → Text → Exec W Bool
  compare_artifacts [] new = pure true
  compare_artifacts (o ∷ old) [] = pure true
  compare_artifacts (o ∷ old) (n ∷ new) = do
    a ← read_artifact (o ∷ old)
    b ← read_artifact (n ∷ new)
    pure (compare_storage (storage_entries a.storage_layout) (storage_entries b.storage_layout))

  unfoldable pub compare_storage_layouts : Text → Text → Exec W Bool
  unfolding compare_storage
  compare_storage_layouts old_contract_name new_contract_name =
      try_catch
        (find_artifact old_contract_name >>= λ old.
          find_artifact new_contract_name >>= λ new. compare_artifacts old new)
        (λ e. pure true)

  abbrev layout_at : Text → Exec W (Option (Option (List StorageLayoutEntry)))
  layout_at [] = pure none
  layout_at (c ∷ p) = read_artifact (c ∷ p) >>= λ a. pure a.storage_layout

  unfoldable pub read_storage_layout_from_forge :
      Text → Exec W (Option (Option (List StorageLayoutEntry)))
  read_storage_layout_from_forge name =
      try_catch (find_artifact name >>= λ found. layout_at found) (λ e. pure none)

  abbrev pub sol_file : Text → Text
  sol_file name = name ++ codes ".sol"

  abbrev pub json_file : Text → Text
  json_file name = name ++ codes ".json"

  abbrev pub possible_paths : Text → List Text
  possible_paths name =
      in_out (sol_file name ∷ json_file name ∷ [])
      ∷ map (λ dir. in_out (dir ∷ sol_file name ∷ json_file name ∷ []))
          (codes "src" ∷ codes "privateHub" ∷ codes "rayls-protocol" ∷ codes "rayls-node" ∷ [])

  unfoldable pub first_existing : List Text → Exec W (Option (List AbiItem))
  first_existing [] = pure none
  first_existing (p ∷ ps) =
      let rest = first_existing ps in
      exists_sync p >>= λ found. if found then (read_artifact p >>= λ a. pure a.abi) else rest

  abbrev abi_at : Text → Exec W (Option (List AbiItem))
  abi_at [] = pure none
  abi_at (c ∷ p) = read_artifact (c ∷ p) >>= λ a. pure a.abi

  -- The recursive search, if there is no ABI yet.
  abbrev or_search : Text → Option (List AbiItem) → Exec W (Option (List AbiItem))
  or_search name (some abi) = pure (some abi)
  or_search name none = find_artifact name >>= λ found. abi_at found

  abbrev pub has_proxiable_uuid : List AbiItem → Bool
  has_proxiable_uuid =
      any (λ item.
        text_beq item.kind (codes "function") && text_beq item.name (codes "proxiableUUID"))

  abbrev check_uups : Text → ValidationOptions → Option (List AbiItem) → Exec W (Unit {0})
  check_uups name opts none = pure tt
  check_uups name opts (some abi) =
      if has_proxiable_uuid abi || allows opts (codes "missing-uups-functions")
      then pure tt
      else throw (
          error (
            name
            ++ codes
                ": UUPS contract must implement UUPSUpgradeable (missing proxiableUUID function)"))

  -- `catch (error) { if (error.message.includes(mark)) throw error; }`
  abbrev unless_marked : Text → JsError → Exec W (Unit {0})
  unless_marked mark e = if includes e.message mark then throw e else pure tt

  unfoldable pub validate_uups_contract : Text → ValidationOptions → Exec W (Unit {0})
  unfolding first_existing includes
  validate_uups_contract name opts =
      try_catch
        (first_existing (possible_paths name) >>= λ first.
          or_search name first >>= λ abi. check_uups name opts abi)
        (unless_marked (codes "UUPS contract must implement"))

  abbrev pub has_immutable : List StorageLayoutEntry → Bool
  has_immutable = any (λ entry. includes entry.label (codes "immutable"))

  abbrev check_layout :
      Text → ValidationOptions → Option (Option (List StorageLayoutEntry)) → Exec W (Unit {0})
  check_layout name opts layout =
      if has_immutable (storage_entries layout)
        && not (allows opts (codes "state-variable-immutable"))
      then throw
          (error (name ++ codes ": Immutable variables are not supported in upgradeable contracts"))
      else pure tt

  unfoldable pub validate_basic_safety : Text → ValidationOptions → Exec W (Unit {0})
  unfolding includes
  validate_basic_safety name opts =
      try_catch
        (find_artifact name >>= λ found.
          layout_at found >>= λ layout. check_layout name opts layout)
        (unless_marked (codes "Immutable"))

  abbrev allowed_code : ValidationOptions → Option Text → Bool
  allowed_code opts none = false
  allowed_code opts (some code) = allows opts code

  abbrev check_factory : FactoryView → Text → ValidationOptions → Exec W (Unit {0})
  check_factory factory name opts =
      (if is_uups_contract factory then validate_uups_contract name opts else pure tt)
      >> validate_basic_safety name opts

  unfoldable pub validate_implementation :
      FactoryView → ValidationOptions → Option Text → Exec W (Unit {0})
  unfolding get_contract_name is_uups_contract validate_uups_contract validate_basic_safety
  validate_implementation factory opts contract_name =
      if opts.skip_validation
      then pure tt
      else try_catch
          (check_factory factory (or_text contract_name (get_contract_name factory)) opts)
          (λ e. if allowed_code opts e.code then pure tt else throw e)

  abbrev incompatible : JsError
  incompatible =
      error (codes "Storage layout incompatibility detected. Upgrade would break existing state.")

  abbrev accept : Bool → Exec W (Unit {0})
  accept true = pure tt
  accept false = throw incompatible

  -- The layout that the manifest has, against that of the new contract.
  abbrev with_new_layout :
      Text
      → Option (List StorageLayoutEntry)
      → Option (Option (List StorageLayoutEntry))
      → Exec W (Unit {0})
  with_new_layout new_contract old none =
      throw (error (codes "Could not read storage layout for " ++ new_contract))
  with_new_layout new_contract old (some new) = accept (compare_storage_layout_objects old new)

  abbrev compare_with : Text → Text → Option (Option (List StorageLayoutEntry)) → Exec W (Unit {0})
  compare_with old_contract new_contract (some old) =
      read_storage_layout_from_forge new_contract >>= λ new. with_new_layout new_contract old new
  compare_with old_contract new_contract none =
      compare_storage_layouts old_contract new_contract >>= λ compatible. accept compatible

  module _
      -- `provider.getStorage(proxyAddress, implSlot)`
      (get_storage : Text → Exec W Text)
      -- `manifest.getStorageLayout(hre, address)`
      (stored_layout : Text → Exec W (Option (Option (List StorageLayoutEntry)))) where
    abbrev pub zero_address : Text
    zero_address = codes "0x" ++ replicate 40 b'0'

    -- `'0x' + implAddressRaw.slice(-40)`
    abbrev pub impl_address : Text → Text
    impl_address raw = codes "0x" ++ drop (length raw - 40) raw

    abbrev compare_named :
        Option Text → Text → Option (Option (List StorageLayoutEntry)) → Exec W (Unit {0})
    compare_named none new_contract stored = pure tt
    compare_named (some []) new_contract stored = pure tt
    compare_named (some (c ∷ old)) new_contract stored =
        if text_beq new_contract (codes "Unknown")
        then pure tt
        else compare_with (c ∷ old) new_contract stored

    -- `none` if the slot could not be read.
    abbrev read_slot : Text → Exec W (Option Text)
    read_slot proxy_address =
        try_catch (get_storage proxy_address >>= λ raw. pure (some raw)) (λ e. pure none)

    abbrev compare_current : Option Text → Text → Option Text → Exec W (Unit {0})
    compare_current old_contract new_contract none = pure tt
    compare_current old_contract new_contract (some raw) =
        if text_beq (impl_address raw) zero_address
        then pure tt
        else (stored_layout (impl_address raw) >>= λ stored.
            compare_named old_contract new_contract stored)

    abbrev check_storage : Text → Option Text → Text → Exec W (Unit {0})
    check_storage proxy_address old_contract new_contract =
        try_catch (read_slot proxy_address >>= λ raw. compare_current old_contract new_contract raw)
          (unless_marked (codes "Storage layout incompatibility"))

    unfoldable pub validate_upgrade :
        Text → FactoryView → ValidationOptions → Option Text → Option Text → Exec W (Unit {0})
    unfolding validate_implementation compare_storage_layout_objects read_storage_layout_from_forge
        compare_storage_layouts get_contract_name includes
    validate_upgrade proxy_address factory opts new_name old_name =
        if opts.skip_validation
        then pure tt
        else (validate_implementation factory opts new_name
            >> (if opts.unsafe_skip_storage_check
                then pure tt
                else check_storage proxy_address old_name
                    (or_text new_name (get_contract_name factory))))
