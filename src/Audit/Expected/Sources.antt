-- ===== src/Audit/Expected/Sources.antt =====
-- Which addresses `expectedRelayerAddresses` of hardhat/tasks/audit/check-roles.ts expects, and under which
-- label.
use rayls_sovereign_contract.Base.{
  ◌≡◌, ◌∙◌, inl, inr, refl, Bool, true, false, ◌&&◌, Option, none, some, List, [], ◌∷◌, ◌++◌,
  Bool-cases, any, or_else, if◌then◌else◌, ◌===◌,
}
use rayls_sovereign_contract.Base.Text.{Text, codes, text_eq, text_beq_iff, to_lower}
use rayls_sovereign_contract.Base.Outcome.{ok, Exec}
use rayls_sovereign_contract.Base.Dict.{Dict, get, put, has, is_some, get-put}
use rayls_sovereign_contract.Audit.Env.{ChainType, pn, pnh, pc}
use rayls_sovereign_contract.Audit.Cts.{
  Service, private_relayer, public_relayer, CtsAddressesResponse,
}
use rayls_sovereign_contract.Audit.Expected.{
  label_of, add_address, add_addresses, add_list, add_node, add_nodes, expected_relayer_addresses,
}

-- A list of CTS, with its label.
abbrev pub Source : Type 0
Source = Text × Option (List Text)

module _ (is_address : Text → Bool) where
  -- The address is one of the valid ones, in lower case.
  abbrev pub lists : Option (List Text) → Text → Bool
  lists none a = false
  lists (some addresses) a = any (λ x. is_address x && (to_lower x === a)) addresses

  -- The label of the first list that has the address.
  abbrev pub first_label : List Source → Text → Option Text
  first_label [] a = none
  first_label ((label, addresses) ∷ sources) a =
      if lists addresses a then some label else first_label sources a

  abbrev labelled : Bool → Text → Option Text
  labelled b label = if b then some label else none

  kept : (o : Option Text) → o ≡ or_else o none
  kept none = refl
  kept (some l) = refl

  or_else-labelled :
      (o : Option Text) (b c : Bool) (label : Text)
      → or_else (or_else o (labelled b label)) (labelled c label)
        ≡ or_else o (labelled (if b then true else c) label)
  or_else-labelled none true c label = refl
  or_else-labelled none false c label = refl
  or_else-labelled (some l) b c label = refl

  get-add_new :
      (label x : Text) (out : Dict Text Text) (a : Text)
      → get (if has out x then out else put out x label) a
        ≡ or_else (get out a) (labelled (x === a) label)
  get-add_new label x out a = elim (Bool-cases (x === a)) [
    | inl c ↦ let same : x ≡ a = (text_beq_iff x a).0 c in rw (c, same) (own (get out a) refl)
    | inr c ↦ elim (Bool-cases (has out x)) [
      | inl k ↦ rw (k, c) (kept (get out a))
      | inr k ↦ rw (k, get-put out x a label, c) (kept (get out a))
    ]
  ]
    where
      own :
          (o : Option Text)
          → get out a ≡ o
          → get (if is_some o then out else put out a label) a ≡ or_else o (some label)
      own (some l) e = e
      own none e = get-put out a a label ∙ rw ((text_beq_iff a a).1 refl) refl

  get-add_address :
      (label x : Text) (out : Dict Text Text) (a : Text)
      → get (add_address is_address label x out) a
        ≡ or_else (get out a) (labelled (is_address x && (to_lower x === a)) label)
  get-add_address label x out a = elim (Bool-cases (is_address x)) [
    | inl c ↦ rw c (get-add_new label (to_lower x) out a)
    | inr c ↦ rw c (kept (get out a))
  ]

  get-add_addresses :
      (addresses : List Text) (label : Text) (out : Dict Text Text) (a : Text)
      → get (add_addresses is_address addresses label out) a
        ≡ or_else (get out a) (labelled (lists (some addresses) a) label)
  unfolding add_addresses
  get-add_addresses [] label out a = kept (get out a)
  get-add_addresses (x ∷ xs) label out a =
      get-add_addresses xs label (add_address is_address label x out) a
      ∙ rw (get-add_address label x out a) (
          or_else-labelled (get out a) (is_address x && (to_lower x === a)) (lists (some xs) a)
            label)

  get-add_list :
      (addresses : Option (List Text)) (label : Text) (out : Dict Text Text) (a : Text)
      → get (add_list is_address addresses label out) a
        ≡ or_else (get out a) (labelled (lists addresses a) label)
  unfolding add_list
  get-add_list none label out a = kept (get out a)
  get-add_list (some addresses) label out a = get-add_addresses addresses label out a

  abbrev add_sources : List Source → Dict Text Text → Dict Text Text
  add_sources [] out = out
  add_sources ((label, addresses) ∷ sources) out =
      add_sources sources (add_list is_address addresses label out)

  add_sources-append :
      (ss ts : List Source) (out : Dict Text Text)
      → add_sources (ss ++ ts) out ≡ add_sources ts (add_sources ss out)
  add_sources-append [] ts out = refl
  add_sources-append ((label, addresses) ∷ ss) ts out =
      add_sources-append ss ts (add_list is_address addresses label out)

  get-add_sources :
      (ss : List Source) (out : Dict Text Text) (a : Text)
      → get (add_sources ss out) a ≡ or_else (get out a) (first_label ss a)
  get-add_sources [] out a = kept (get out a)
  get-add_sources ((label, addresses) ∷ ss) out a =
      get-add_sources ss (add_list is_address addresses label out) a
      ∙ rw (get-add_list addresses label out a) (joined (get out a) (lists addresses a))
    where
      joined :
          (o : Option Text) (b : Bool)
          → or_else (or_else o (labelled b label)) (first_label ss a)
            ≡ or_else o (if b then some label else first_label ss a)
      joined none true = refl
      joined none false = refl
      joined (some l) b = refl

  module _ (respond : Text → Service → CtsAddressesResponse) (include_public_relayer : Bool) where
    -- The lists that concern a side of the chain, in the order in which a node's are read.
    abbrev pub node_sources : ChainType → Text → List Source
    node_sources pn node =
        (
          label_of node (codes "private_relayer.private_chain_addresses"),
          (respond node private_relayer).private_chain_addresses,
        )
        ∷ (if include_public_relayer
            then (
              label_of node (codes "public_relayer.private_chain_addresses"),
              (respond node public_relayer).private_chain_addresses,
            )
              ∷ []
            else [])
    node_sources pnh node =
        (
          label_of node (codes "private_relayer.private_hub_addresses"),
          (respond node private_relayer).private_hub_addresses,
        )
        ∷ (
          label_of node (codes "private_relayer.private_hub_dvp_operator_addresses"),
          (respond node private_relayer).private_hub_dvp_operator_addresses,
        )
        ∷ []
    node_sources pc node =
        (
          label_of node (codes "public_relayer.public_chain_addresses"),
          (respond node public_relayer).public_chain_addresses,
        )
        ∷ []

    abbrev pub all_sources : ChainType → List Text → List Source
    all_sources chain [] = []
    all_sources chain (node ∷ nodes) = node_sources chain node ++ all_sources chain nodes

    -- CTS that answers each request.
    abbrev pub answer : {W : Type 0} → Text → Service → Exec W CtsAddressesResponse
    answer node service w = (ok (respond node service), w)

    add_node-add_sources :
        {W : Type 0} (chain : ChainType) (node : Text) (out : Dict Text Text) (w : W)
        → add_node is_address answer include_public_relayer chain node out w
          ≡ (ok (add_sources (node_sources chain node) out), w)
    add_node-add_sources pn node out w = elim (Bool-cases include_public_relayer) [
      | inl c ↦ rw c refl
      | inr c ↦ rw c refl
    ]
    add_node-add_sources pnh node out w = refl
    add_node-add_sources pc node out w = refl

    add_nodes-add_sources :
        {W : Type 0} (chain : ChainType) (nodes : List Text) (out : Dict Text Text) (w : W)
        → add_nodes is_address answer include_public_relayer chain nodes out w
          ≡ (ok (add_sources (all_sources chain nodes) out), w)
    unfolding add_nodes
    add_nodes-add_sources chain [] out w = refl
    add_nodes-add_sources chain (node ∷ nodes) out w =
        rw
          (
            add_node-add_sources chain node out w,
            add_sources-append (node_sources chain node) (all_sources chain nodes) out,
          )
          (add_nodes-add_sources chain nodes (add_sources (node_sources chain node) out) w)

    -- Where CTS answers each request: the expected addresses are read, and an address is among them exactly
    -- if one of the lists that concern the side of the chain, of one of the nodes, has it in whatever case
    -- and as a valid address; its label is that of the first such list.
    pub expected_relayer_addresses-first_label :
        {W : Type 0} (chain : ChainType) (nodes : List Text) (w : W)
        → (out : Dict Text Text) × (expected_relayer_addresses is_address answer
              include_public_relayer nodes chain w
            ≡ (ok out, w))
          × ((a : Text) → get out a ≡ first_label (all_sources chain nodes) a)
    unfolding expected_relayer_addresses get
    expected_relayer_addresses-first_label chain nodes w = (
      add_sources (all_sources chain nodes) [],
      add_nodes-add_sources chain nodes [] w,
      λ a. get-add_sources (all_sources chain nodes) [] a,
    )
