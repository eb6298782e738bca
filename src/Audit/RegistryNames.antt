-- ===== src/Audit/RegistryNames.antt =====
-- `buildRegistryNameToArtifactName` of hardhat/tasks/audit/check-onchain-selectors.ts. The walk of the
-- deploy tasks and the parser of TypeScript are parameters: the list of the object literals of those
-- files, in the order of the visit.
use rayls_sovereign_contract.Base.{
  not, ◌&&◌, Option, none, some, List, [], ◌∷◌, get_or, if◌then◌else◌, ◌===◌,
}
use rayls_sovereign_contract.Base.Text.{Text, codes, text_eq, truthy}
use rayls_sovereign_contract.Base.Dict.{Dict, put}

-- A property of an object literal: the identifier that it assigns to, if it is such an assignment, and
-- the text of its initializer, if that is a string literal.
pub record Property : Type 0 where
  pub identifier : Option Text
  pub literal : Option Text

pub record Names : Type 0 where
  pub name : Option Text
  pub contract_name : Option Text

abbrev assigned : Text → Text → Names → Names
assigned key text names =
    if key === codes "name"
    then record names { name = some text }
    else if key === codes "contractName"
    then record names { contract_name = some text }
    else names

abbrev read_property : Option Text → Option Text → Names → Names
read_property none literal names = names
read_property (some key) none names = names
read_property (some key) (some text) names = assigned key text names

unfoldable pub names_in : List Property → Names → Names
names_in [] names = names
names_in (p ∷ ps) names = names_in ps (read_property p.identifier p.literal names)

abbrev record_names : Names → Dict Text Text → Dict Text Text
record_names names out =
    if truthy names.name
      && (truthy names.contract_name
          && not (get_or names.name [] === get_or names.contract_name []))
    then put out (get_or names.name []) (get_or names.contract_name [])
    else out

unfoldable pub walk_object_literal : List Property → Dict Text Text → Dict Text Text
unfolding names_in put
walk_object_literal properties out =
    record_names (names_in properties (record { name = none; contract_name = none })) out

unfoldable pub visit : List (List Property) → Dict Text Text → Dict Text Text
unfolding walk_object_literal
visit [] out = out
visit (literal ∷ literals) out = visit literals (walk_object_literal literal out)

unfoldable pub build_registry_name_to_artifact_name : List (List Property) → Dict Text Text
unfolding visit
build_registry_name_to_artifact_name literals = visit literals []
