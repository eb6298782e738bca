-- ===== src/Audit/Relayers/Holders.antt =====
-- Who holds the role after the replay in hardhat/tasks/audit/check-roles.ts.
use rayls_sovereign_contract.Base.{
  ◌≡◌, ◌∙◌, inl, inr, refl, Bool, true, false, Option, none, some, List, [], ◌∷◌, Bool-cases,
  contains, contains, if◌then◌else◌, ◌===◌,
}
use rayls_sovereign_contract.Base.Text.{Text, text_eq}
use rayls_sovereign_contract.Base.Dict.{contains-add, contains-delete}
use rayls_sovereign_contract.Base.Outcome.{Outcome}
use rayls_sovereign_contract.Audit.Replay.{Position, Event, sort}
use rayls_sovereign_contract.Audit.Replay.Last.{last_of, later_or, IsLast, last_of-sort}
use rayls_sovereign_contract.Audit.Relayers.{
  Kind, grant, revoke, RoleChange, apply_kind, replay, role_changes, live_holders,
}

abbrev pub is_grant : Kind → Bool
is_grant grant = true
is_grant revoke = false

abbrev pub concerns : Text → RoleChange → Bool
concerns account change = change.account === account

-- What the last event of an account leaves it with, `before` being what it had.
abbrev pub standing : Bool → Option (Event RoleChange) → Bool
standing before none = before
standing before (some e) = is_grant e.body.kind

contains-apply_kind :
    (k : Kind) (live : List Text) (a b : Text)
    → contains (apply_kind k live a) b ≡ (if a === b then is_grant k else contains live b)
contains-apply_kind grant live a b = contains-add live a b
contains-apply_kind revoke live a b = contains-delete live a b

standing-later_or :
    (a : Text) (before : Bool) (o : Option (Event RoleChange)) (e : Event RoleChange)
    → standing (if e.body.account === a then is_grant e.body.kind else before) o
      ≡ standing before (later_or (concerns a) o e)
standing-later_or a before none e = elim (Bool-cases (e.body.account === a)) [
  | inl c ↦ rw c refl
  | inr c ↦ rw c refl
]
standing-later_or a before (some f) e = refl

contains-replay :
    (a : Text) (es : List (Event RoleChange)) (live : List Text)
    → contains (replay live es) a ≡ standing (contains live a) (last_of (concerns a) es)
unfolding replay
contains-replay a [] live = refl
contains-replay a (e ∷ es) live =
    contains-replay a es (apply_kind e.body.kind live e.body.account)
    ∙ rw (contains-apply_kind e.body.kind live e.body.account a)
        (standing-later_or a (contains live a) (last_of (concerns a) es) e)

-- After the replay, for each account there is an event of those decoded that concerns it and that
-- no other event concerning it follows in the order of (block, log index), and the account is among
-- the live holders if that event is a grant and not if it is a revocation; or no decoded event
-- concerns the account, and it is not among them.
pub contains-live_holders :
    {Log : Type 0} (position : Log → Position) (parse_log : Log → Outcome (Option Text))
    (granted revoked : List Log) (a : Text)
    → (o : Option (Event RoleChange)) × IsLast
        (concerns a)
        (role_changes position parse_log granted revoked)
        o
      × (contains (live_holders position parse_log granted revoked) a ≡ standing false o)
unfolding live_holders
contains-live_holders position parse_log granted revoked a =
    let es = role_changes position parse_log granted revoked in
    (last_of (concerns a) (sort es), last_of-sort (concerns a) es, contains-replay a (sort es) [])
