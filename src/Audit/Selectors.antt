-- ===== src/Audit/Selectors.antt =====
-- The replay in `runOnchainSelectorsAudit` of hardhat/tasks/audit/check-onchain-selectors.ts: the
-- mappings that are live after the logs, and the names of the roles. ethers' `parseLog` is a parameter.
pub mod Resolve
pub mod Findings
pub mod Grouping
pub mod Live
pub mod Status
use rayls_sovereign_contract.Base.{
  ℕ, suc, ◌≡◌, Bool, true, false, not, ◌&&◌, ◌||◌, Option, none, some, List, [], ◌∷◌, ◌++◌, map,
  all, keep_if, contains, take, get_or, or_else, if◌then◌else◌, ◌===◌, nat_eq,
}
use rayls_sovereign_contract.Base.Text.{Text, codes, decimal, text_eq, to_lower}
use rayls_sovereign_contract.Base.Outcome.{Outcome, ok, err}
use rayls_sovereign_contract.Base.Dict.{Dict, get, put, remove, has, add, is_some}
use rayls_sovereign_contract.Audit.Replay.{Position, Event, sort}
use rayls_sovereign_contract.Audit.SelectorIndex.{SelectorIndex, fingerprint_by_all_selectors}
use rayls_sovereign_contract.Audit.MigrationFile.{OnchainStatus, current, stale}

-- What happened to a mapping.
pub data Change : Type 0 where
  added removed : Change

-- The arguments of a log.
pub record MappingArgs : Type 0 where
  pub managed_contract : Text
  pub selector : Text
  pub role_id : ℕ

pub record Mapping : Type 0 where
  pub target : Text
  pub target_address : Text
  pub selector : Text
  pub role_id : ℕ

-- `Unknown(${address.slice(0, 10)}…)`
abbrev pub unknown_target : Text → Text
unknown_target address = codes "Unknown(" ++ (take 10 address ++ codes "…)")

-- `${targetAddr}|${selector}|${roleId.toString()}`
abbrev pub key_of : Text → MappingArgs → Text
key_of address a = address ++ (codes "|" ++ (a.selector ++ (codes "|" ++ decimal a.role_id)))

-- The live mappings by key, and how many logs did not decode.
pub record Replayed : Type 0 where
  pub live : Dict Text Mapping
  pub skipped : ℕ

-- The target set of `--contracts`, if there is one.
abbrev pub in_scope : Option (List Text) → Text → Bool
in_scope none address = true
in_scope (some addresses) address = contains addresses address

abbrev pub mapping_of : Dict Text Text → Text → MappingArgs → Mapping
mapping_of addr_to_name address a = record {
  target = get_or (get addr_to_name address) (unknown_target address);
  target_address = address;
  selector = a.selector;
  role_id = a.role_id;
}

abbrev pub apply_change :
    Dict Text Text → Change → Text → MappingArgs → Dict Text Mapping → Dict Text Mapping
apply_change addr_to_name added address a live =
    put live (key_of address a) (mapping_of addr_to_name address a)
apply_change addr_to_name removed address a live = remove live (key_of address a)

module _ {Log : Type 0} (position : Log → Position) (parse_log : Log → Outcome (Option MappingArgs))
    (addr_to_name : Dict Text Text) (filter_target_addrs : Option (List Text)) where
  -- The logs of the two kinds, before they are sorted.
  unfoldable pub all_events : List Log → List Log → List (Event (Change × Log))
  all_events added_logs removed_logs =
      map (λ l. record { position = position l; body = (added, l) }) added_logs
      ++ map (λ l. record { position = position l; body = (removed, l) }) removed_logs

  abbrev pub apply_args : Change → MappingArgs → Replayed → Replayed
  apply_args c a r =
      if in_scope filter_target_addrs (to_lower a.managed_contract)
      then record r { live = apply_change addr_to_name c (to_lower a.managed_contract) a r.live }
      else r

  abbrev pub apply_parsed : Change → Outcome (Option MappingArgs) → Replayed → Replayed
  apply_parsed c (err e) r = record r { skipped = suc r.skipped }
  apply_parsed c (ok none) r = record r { skipped = suc r.skipped }
  apply_parsed c (ok (some a)) r = apply_args c a r

  unfoldable pub replay_events : List (Event (Change × Log)) → Replayed → Replayed
  replay_events [] r = r
  replay_events (e ∷ es) r = replay_events es (apply_parsed e.body.0 (parse_log e.body.1) r)

  unfoldable pub live_mappings : List Log → List Log → Replayed
  unfolding all_events replay_events
  live_mappings added_logs removed_logs =
      replay_events (sort (all_events added_logs removed_logs)) (record { live = []; skipped = 0 })

-- `roleNames.set(roleId, name)`, and how many logs did not decode.
abbrev named_role : Outcome (Option (ℕ × Text)) → Dict ℕ Text × ℕ → Dict ℕ Text × ℕ
named_role (ok (some (role_id, name))) (d, skipped) = (put d role_id name, skipped)
named_role (ok none) (d, skipped) = (d, suc skipped)
named_role (err e) (d, skipped) = (d, suc skipped)

unfoldable pub role_names :
    {RoleLog : Type 0}
    → (RoleLog → Outcome (Option (ℕ × Text)))
    → List RoleLog
    → Dict ℕ Text × ℕ
    → Dict ℕ Text × ℕ
unfolding put
role_names parse_log [] names = names
role_names parse_log (log ∷ logs) names =
    role_names parse_log logs (named_role (parse_log log) names)
