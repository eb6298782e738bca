-- ===== src/Audit/Expected.antt =====
-- `expectedRelayerAddresses` of hardhat/tasks/audit/check-roles.ts: the addresses that should hold the
-- relayer role, each with the CTS list that it comes from. `fetchCtsAddresses` and ethers' `isAddress`
-- are parameters.
pub mod Sources
use rayls_sovereign_contract.Base.{
  Bool, true, false, Option, none, some, List, [], ◌∷◌, ◌++◌, if◌then◌else◌,
}
use rayls_sovereign_contract.Base.Text.{Text, codes, text_eq, to_lower}
use rayls_sovereign_contract.Base.Outcome.{Exec, pure, ◌>>=◌}
use rayls_sovereign_contract.Base.Dict.{Dict, get, put, has}
use rayls_sovereign_contract.Audit.Env.{ChainType, pn, pnh, pc}
use rayls_sovereign_contract.Audit.Cts.{
  Service, private_relayer, public_relayer, CtsAddressesResponse,
}

abbrev pub label_of : Text → Text → Text
label_of node list = codes "PN " ++ (node ++ (codes " " ++ list))

module _ (is_address : Text → Bool) where
  -- The first source of an address wins.
  abbrev pub add_address : Text → Text → Dict Text Text → Dict Text Text
  add_address label address out =
      if is_address address
      then (if has out (to_lower address) then out else put out (to_lower address) label)
      else out

  unfoldable pub add_addresses : List Text → Text → Dict Text Text → Dict Text Text
  unfolding get put
  add_addresses [] label out = out
  add_addresses (a ∷ as') label out = add_addresses as' label (add_address label a out)

  -- `add(addrs, label)`
  unfoldable pub add_list : Option (List Text) → Text → Dict Text Text → Dict Text Text
  unfolding add_addresses
  add_list none label out = out
  add_list (some addresses) label out = add_addresses addresses label out

  module _ {W : Type 0} (fetch_cts_addresses : Text → Service → Exec W CtsAddressesResponse)
      (include_public_relayer : Bool) where
    -- The lists of one node, by the side of the chain.
    abbrev pub add_node : ChainType → Text → Dict Text Text → Exec W (Dict Text Text)
    add_node pn node out = fetch_cts_addresses node private_relayer >>= λ priv.
        let out' =
          add_list priv.private_chain_addresses
            (label_of node (codes "private_relayer.private_chain_addresses")) out in
        if include_public_relayer
        then (fetch_cts_addresses node public_relayer >>= λ publ. pure (
            add_list publ.private_chain_addresses
              (label_of node (codes "public_relayer.private_chain_addresses")) out'))
        else pure out'
    add_node pnh node out = fetch_cts_addresses node private_relayer >>= λ priv. pure (
        add_list priv.private_hub_dvp_operator_addresses
          (label_of node (codes "private_relayer.private_hub_dvp_operator_addresses"))
          (add_list priv.private_hub_addresses
            (label_of node (codes "private_relayer.private_hub_addresses")) out))
    add_node pc node out = fetch_cts_addresses node public_relayer >>= λ publ. pure (
        add_list publ.public_chain_addresses
          (label_of node (codes "public_relayer.public_chain_addresses")) out)

    -- `for (const pn of pns)`
    unfoldable pub add_nodes : ChainType → List Text → Dict Text Text → Exec W (Dict Text Text)
    unfolding add_list
    add_nodes chain [] out = pure out
    add_nodes chain (node ∷ nodes) out = add_node chain node out >>= add_nodes chain nodes

    unfoldable pub expected_relayer_addresses : List Text → ChainType → Exec W (Dict Text Text)
    unfolding add_nodes
    expected_relayer_addresses nodes chain = add_nodes chain nodes []
