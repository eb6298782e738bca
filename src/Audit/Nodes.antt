-- ===== src/Audit/Nodes.antt =====
-- Lists of privacy nodes: `parsePnList` of hardhat/tasks/audit/parents.ts and `parsePrivacyNodes` of
-- hardhat/tasks/audit/check-roles.ts, which differ in their messages.
pub mod Distinct
pub mod RoundTrip
use rayls_sovereign_contract.Base.{
  ℕ, ◌≡◌, Bool, true, false, List, [], ◌∷◌, ◌++◌, map, any, if◌then◌else◌,
}
use rayls_sovereign_contract.Base.Text.{Text, codes, split, trim, text_eq}
use rayls_sovereign_contract.Base.Outcome.{error, Outcome, ok, err}
use rayls_sovereign_contract.Base.Dict.{add}

abbrev pub tokens : Text → List Text
tokens csv = map trim (split b',' csv)

abbrev pub is_blank : Text → Bool
is_blank [] = true
is_blank (c ∷ t) = false

-- `for (const t of tokens) if (!out.includes(t)) out.push(t)`
unfoldable pub distinct : List Text → List Text → List Text
distinct out [] = out
distinct out (t ∷ ts) = distinct (add out t) ts

-- What is left to check once the tokens are distinct.
abbrev pub nonempty : Text → Text → List Text → Outcome (List Text)
nonempty option task_name [] =
    err (error (task_name ++ (codes ": " ++ (option ++ codes " must list at least one PN"))))
nonempty option task_name (t ∷ ts) = ok (t ∷ ts)

unfoldable pub parse_nodes : Text → Text → Text → Outcome (List Text)
unfolding split trim distinct
parse_nodes option csv task_name =
    if any is_blank (tokens csv)
    then err (
        error (
          task_name
          ++ (codes ": "
              ++ (option ++ (codes " contains an empty entry: '" ++ (csv ++ codes "'"))))))
    else nonempty option task_name (distinct [] (tokens csv))

unfoldable pub parse_pn_list : Text → Text → Outcome (List Text)
unfolding parse_nodes
parse_pn_list = parse_nodes (codes "--pn")

unfoldable pub parse_privacy_nodes : Text → Text → Outcome (List Text)
unfolding parse_nodes
parse_privacy_nodes = parse_nodes (codes "--privacy-nodes")
