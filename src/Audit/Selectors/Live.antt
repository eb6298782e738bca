-- ===== src/Audit/Selectors/Live.antt =====
-- Which mappings are live after the replay in hardhat/tasks/audit/check-onchain-selectors.ts.
use rayls_sovereign_contract.Base.{
  ◌≡◌, ◌∙◌, inl, inr, refl, Bool, false, Option, none, some, List, [], ◌∷◌, Bool-cases,
  if◌then◌else◌, ◌===◌, ◌&&◌,
}
use rayls_sovereign_contract.Base.Text.{Text, text_eq, to_lower}
use rayls_sovereign_contract.Base.Dict.{Dict, get, get-put, get-remove}
use rayls_sovereign_contract.Base.Outcome.{Outcome, ok, err}
use rayls_sovereign_contract.Audit.Replay.{Position, Event, sort}
use rayls_sovereign_contract.Audit.Replay.Last.{last_of, later_or, IsLast, last_of-sort}
use rayls_sovereign_contract.Audit.Selectors.{
  Change, added, removed, MappingArgs, Mapping, key_of, mapping_of, in_scope, apply_change,
  apply_parsed, Replayed, all_events, replay_events, live_mappings,
}

module _ {Log : Type 0} (position : Log → Position) (parse_log : Log → Outcome (Option MappingArgs))
    (addr_to_name : Dict Text Text) (filter_target_addrs : Option (List Text)) (key : Text) where
  abbrev args_concern : MappingArgs → Bool
  args_concern a =
      in_scope filter_target_addrs (to_lower a.managed_contract)
      && (key_of (to_lower a.managed_contract) a === key)

  abbrev parsed_concern : Outcome (Option MappingArgs) → Bool
  parsed_concern (err e) = false
  parsed_concern (ok none) = false
  parsed_concern (ok (some a)) = args_concern a

  -- The log decodes, its contract is in scope, and its key is this one.
  abbrev pub concerns : Change × Log → Bool
  concerns (c, log) = parsed_concern (parse_log log)

  -- The mapping that a log leaves under its key.
  abbrev left_parsed : Change → Outcome (Option MappingArgs) → Option Mapping
  left_parsed removed p = none
  left_parsed added (err e) = none
  left_parsed added (ok none) = none
  left_parsed added (ok (some a)) = some (mapping_of addr_to_name (to_lower a.managed_contract) a)

  -- What the last event of the key leaves, `before` being what was there.
  abbrev pub left_by : Option Mapping → Option (Event (Change × Log)) → Option Mapping
  left_by before none = before
  left_by before (some e) = left_parsed e.body.0 (parse_log e.body.1)

  get-apply_change :
      (c : Change) (a : MappingArgs) (live : Dict Text Mapping)
      → get (apply_change addr_to_name c (to_lower a.managed_contract) a live) key ≡ (
          if key_of (to_lower a.managed_contract) a === key
          then left_parsed c (ok (some a))
          else get live key)
  get-apply_change added a live =
      get-put live (key_of (to_lower a.managed_contract) a) key
        (mapping_of addr_to_name (to_lower a.managed_contract) a)
  get-apply_change removed a live = get-remove live (key_of (to_lower a.managed_contract) a) key

  get-apply_parsed :
      (c : Change) (p : Outcome (Option MappingArgs)) (r : Replayed)
      → get (apply_parsed position parse_log addr_to_name filter_target_addrs c p r).live key
        ≡ (if parsed_concern p then left_parsed c p else get r.live key)
  get-apply_parsed c (err e) r = refl
  get-apply_parsed c (ok none) r = refl
  get-apply_parsed c (ok (some a)) r =
      elim (Bool-cases (in_scope filter_target_addrs (to_lower a.managed_contract))) [
        | inl q ↦ rw q (get-apply_change c a r.live)
        | inr q ↦ rw q refl
      ]

  left_by-later_or :
      (before : Option Mapping) (o : Option (Event (Change × Log))) (e : Event (Change × Log))
      → left_by (if concerns e.body then left_parsed e.body.0 (parse_log e.body.1) else before) o
        ≡ left_by before (later_or concerns o e)
  left_by-later_or before none e = elim (Bool-cases (concerns e.body)) [
    | inl c ↦ rw c refl
    | inr c ↦ rw c refl
  ]
  left_by-later_or before (some f) e = refl

  get-replay_events :
      (es : List (Event (Change × Log))) (r : Replayed)
      → get (replay_events position parse_log addr_to_name filter_target_addrs es r).live key
        ≡ left_by (get r.live key) (last_of concerns es)
  unfolding replay_events
  get-replay_events [] r = refl
  get-replay_events (e ∷ es) r =
      get-replay_events es (
        apply_parsed position parse_log addr_to_name filter_target_addrs e.body.0
          (parse_log e.body.1) r)
      ∙ rw (get-apply_parsed e.body.0 (parse_log e.body.1) r)
          (left_by-later_or (get r.live key) (last_of concerns es) e)

-- After the replay, for each key there is a log of those scanned that decodes, that is in the scope of
-- the audit and has the key, and that no other such log follows in the order of (block, log index); and
-- what the live mappings hold under the key is the mapping of that log if it is an addition, and
-- nothing if it is a removal. Or no log scanned is such a log, and they hold nothing under the key.
pub get-live_mappings :
    {Log : Type 0} (position : Log → Position) (parse_log : Log → Outcome (Option MappingArgs))
    (addr_to_name : Dict Text Text) (filter_target_addrs : Option (List Text))
    (added_logs removed_logs : List Log) (key : Text)
    → (o : Option (Event (Change × Log))) × IsLast
        (concerns position parse_log addr_to_name filter_target_addrs key)
        (all_events position parse_log addr_to_name filter_target_addrs added_logs removed_logs)
        o
      × (get
            (live_mappings position parse_log addr_to_name filter_target_addrs added_logs
              removed_logs).live
            key
          ≡ left_by position parse_log addr_to_name filter_target_addrs key none o)
unfolding live_mappings get
get-live_mappings position parse_log d scope added_logs removed_logs key =
    let es = all_events position parse_log d scope added_logs removed_logs in
    let mine = concerns position parse_log d scope key in
    (
      last_of mine (sort es),
      last_of-sort mine es,
      get-replay_events position parse_log d scope key (sort es)
          (record { live = []; skipped = 0 }),
    )
