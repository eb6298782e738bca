-- ===== src/Audit/Parents.antt =====
-- The parent tasks of hardhat/tasks/audit/parents.ts. `run` is `hre.run`, an action on the world, of
-- which the exit code is a part; what the tasks print is not modelled.
use rayls_sovereign_contract.Base.{
  Bool, true, false, Option, some, List, [], ◌∷◌, ◌++◌, if◌then◌else◌, get_or,
}
use rayls_sovereign_contract.Base.Text.{Text, codes, truthy, join}
use rayls_sovereign_contract.Base.Outcome.{
  error, Outcome, ok, err, Exec, pure, throw, each, ◌>>=◌, ◌>>◌,
}
use rayls_sovereign_contract.Audit.Nodes.{parse_pn_list}

-- An argument of a task.
pub data Arg : Type 0 where
  text : Text → Arg
  flag : Bool → Arg

abbrev pub Args : Type 0
Args = List (Text × Arg)

-- What a parent is given beside the nodes.
pub record ParentArgs : Type 0 where
  pub rpc : Text
  pub registry : Text
  pub from_block : Text
  pub report_only : Bool
  pub include_own_roles : Bool
  pub skip_relayers : Bool

abbrev pub chain_args : ParentArgs → Args
chain_args a =
    (codes "rpc", text a.rpc)
    ∷ (codes "registry", text a.registry)
    ∷ (codes "fromBlock", text a.from_block)
    ∷ []

abbrev pub roles_flags : ParentArgs → Args
roles_flags a =
    (codes "reportOnly", flag a.report_only)
    ∷ (codes "includeOwnRoles", flag a.include_own_roles)
    ∷ (codes "skipRelayers", flag a.skip_relayers)
    ∷ []

abbrev pub selectors_args : Args → ParentArgs → Args
selectors_args nodes a = nodes ++ (chain_args a ++ ((codes "contracts", text []) ∷ []))

abbrev pub roles_args : Args → ParentArgs → Args
roles_args nodes a =
    nodes ++ (chain_args a ++ ((codes "roleName", text (codes "RELAYER")) ∷ roles_flags a))

-- What `audit:all` gives its three parents.
abbrev pub full_coverage : Bool → ParentArgs
full_coverage report_only = record {
  rpc = [];
  registry = [];
  from_block = [];
  report_only = report_only;
  include_own_roles = true;
  skip_relayers = false;
}

abbrev pub parent_args : Args → ParentArgs → Args
parent_args nodes a = nodes ++ (chain_args a ++ roles_flags a)

abbrev pub no_participants : Text → Text
no_participants task_name =
    task_name
    ++ (codes ": --pn omitted and PARTICIPANT_LIST env var is unset. "
        ++ codes "Pass --pn A[,B,C] or export PARTICIPANT_LIST.")

-- `pns.join(',')`
abbrev pub listed : List Text → Text
listed = join (codes ",")

module _ {W : Type 0} (run : Text → Args → Exec W (Unit {0})) where
  -- It only passes on what `hre.run` throws.
  abbrev pub run_child : Text → Args → Exec W (Unit {0})
  run_child name args = run name args

  unfoldable pub audit_pnh : Text → ParentArgs → Exec W (Unit {0})
  audit_pnh privacy_nodes a =
      run_child (codes "audit:pnh:onchain-selectors") (selectors_args [] a)
      >> run_child (codes "audit:pnh:roles")
          (roles_args ((codes "privacyNodes", text privacy_nodes) ∷ []) a)

  -- The round of one node.
  abbrev pub audit_pn_node : ParentArgs → Text → Exec W (Unit {0})
  audit_pn_node a node =
      run_child (codes "audit:pn:onchain-selectors")
        (selectors_args ((codes "pn", text node) ∷ []) a)
      >> run_child (codes "audit:pn:roles") (roles_args ((codes "pn", text node) ∷ []) a)

  abbrev pub audit_pc_node : ParentArgs → Text → Exec W (Unit {0})
  audit_pc_node a node =
      run_child (codes "audit:pc:onchain-selectors")
        (selectors_args ((codes "pn", text node) ∷ []) a)
      >> run_child (codes "audit:pc:roles") (roles_args ((codes "pn", text node) ∷ []) a)

  -- `for (const pn of pns)`, once they are parsed.
  abbrev pub for_nodes : (Text → Exec W (Unit {0})) → Outcome (List Text) → Exec W (Unit {0})
  for_nodes round (ok nodes) = each round nodes >>= λ _. pure tt
  for_nodes round (err e) = throw e

  unfoldable pub audit_pn : Text → ParentArgs → Exec W (Unit {0})
  audit_pn pn a = for_nodes (audit_pn_node a) (parse_pn_list pn (codes "audit:pn"))

  unfoldable pub audit_pc : Text → ParentArgs → Exec W (Unit {0})
  audit_pc pn a = for_nodes (audit_pc_node a) (parse_pn_list pn (codes "audit:pc"))

  abbrev pub audit_parents : Bool → Outcome (List Text) → Exec W (Unit {0})
  audit_parents report_only (err e) = throw e
  audit_parents report_only (ok nodes) =
      run_child (codes "audit:deploy-selectors") ((codes "strictUnchecked", flag true) ∷ [])
      >> run_child (codes "audit:pnh") (
          parent_args ((codes "privacyNodes", text (listed nodes)) ∷ [])
            (full_coverage report_only))
      >> run_child (codes "audit:pn")
          (parent_args ((codes "pn", text (listed nodes)) ∷ []) (full_coverage report_only))
      >> run_child (codes "audit:pc")
          (parent_args ((codes "pn", text (listed nodes)) ∷ []) (full_coverage report_only))

  -- `args.pn || process.env.PARTICIPANT_LIST || ''`
  abbrev pub pns_arg : Text → Option Text → Text
  pns_arg pn participant_list = if truthy (some pn) then pn else get_or participant_list []

  unfoldable pub audit_all : Option Text → Text → Bool → Exec W (Unit {0})
  audit_all participant_list pn report_only =
      if truthy (some (pns_arg pn participant_list))
      then audit_parents report_only
          (parse_pn_list (pns_arg pn participant_list) (codes "audit:all"))
      else throw (error (no_participants (codes "audit:all")))
