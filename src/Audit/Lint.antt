-- ===== src/Audit/Lint.antt =====
-- `collectGetFunctionCalls` and the task `audit:deploy-selectors` of
-- hardhat/tasks/audit/check-deploy-selectors.ts. The parsed files below the deploy folder, in their
-- order, `loadAbi` and ethers' `getFunction` are parameters; what is printed is not modelled.
pub mod Verdict
use rayls_sovereign_contract.Base.{
  ℕ, ◌≡◌, Bool, true, false, ◌&&◌, Option, none, some, List, [], ◌∷◌, ◌++◌, map, keep_if, get_or,
  if◌then◌else◌,
}
use rayls_sovereign_contract.Base.Text.{Text, codes, text_eq, text_beq}
use rayls_sovereign_contract.Base.Dict.{Dict, get, has}
use rayls_sovereign_contract.Audit.Syntax.{
  Node, node, Syntax, identifier, string_literal, property_access, call_expression, syntax, list_of,
}
use rayls_sovereign_contract.Audit.Scopes.{
  Frame, Literals, resolve_map_arrow_param, resolve_const_binding,
}
use rayls_sovereign_contract.Audit.Bindings.{Visit, visit, Bindings, collect_bindings}

-- A call of `getFunction`: `arg` is what it names, or the text of an argument that is no literal.
pub record Reference : Type 0 where
  pub line : ℕ
  pub factory_var : Text
  pub contract_name : Text
  pub arg : Text

pub record Calls : Type 0 where
  pub literal : List Reference
  pub non_literal : List Reference

abbrev factory_named : Bindings → Text → Option Text
factory_named b name = if has b.factories name then some name else none

abbrev aliased_factory : Bindings → Option Text → Option Text
aliased_factory b none = none
aliased_factory b (some []) = none
aliased_factory b (some (c ∷ name)) = factory_named b (c ∷ name)

unfoldable pub resolve_receiver : Bindings → Syntax → Option Text
unfolding get
resolve_receiver b (property_access (node line text (identifier name)) prop) =
    if text_beq prop (codes "interface") then factory_named b name else none
resolve_receiver b (identifier name) = aliased_factory b (get b.aliases name)
resolve_receiver b _ = none

abbrev no_calls : Calls
no_calls = record { literal = []; non_literal = [] }

module _ (line : ℕ) (factory_var contract_name : Text) where
  abbrev reference : ℕ → Text → Reference
  reference at arg = record {
    line = at;
    factory_var = factory_var;
    contract_name = contract_name;
    arg = arg;
  }

  abbrev one_literal : Text → Calls
  one_literal arg = record { literal = reference line arg ∷ []; non_literal = [] }

  abbrev one_unchecked : Text → Calls
  one_unchecked text = record { literal = []; non_literal = reference line text ∷ [] }

  abbrev by_const : Text → Option Text → Calls
  by_const text none = one_unchecked text
  by_const text (some value) = one_literal value

  abbrev by_map : Text → Option Text → Option Literals → Calls
  by_map text constant none = by_const text constant
  by_map text constant (some values) = record {
    literal = map (λ v. reference v.1 v.0) values;
    non_literal = [];
  }

  -- The frames are those above the argument.
  unfoldable pub calls_of_argument : List Node → List Frame → Calls
  unfolding resolve_map_arrow_param resolve_const_binding
  calls_of_argument [] fs = no_calls
  calls_of_argument (node l text (string_literal value) ∷ args) fs = one_literal value
  calls_of_argument (node l text (identifier name) ∷ args) fs =
      by_map text (resolve_const_binding name fs) (resolve_map_arrow_param name fs)
  calls_of_argument (node l text _ ∷ args) fs = one_unchecked text

abbrev calls_of_factory : Bindings → ℕ → List Node → List Frame → Option Text → Calls
calls_of_factory b line args fs none = no_calls
calls_of_factory b line args fs (some []) = no_calls
calls_of_factory b line args fs (some (c ∷ var)) =
    calls_of_argument line (c ∷ var) (get_or (get b.factories (c ∷ var)) []) args fs

unfoldable pub calls_at : Bindings → Visit → Calls
unfolding resolve_receiver calls_of_argument
calls_at b (node line text (call_expression (node l t (property_access recv name)) args), fs) =
    if text_beq name (codes "getFunction")
    then calls_of_factory b line (list_of args)
        (record {
          parent = node line text (call_expression (node l t (property_access recv name)) args);
          child = 1;
        }
          ∷ fs)
        (resolve_receiver b (syntax recv))
    else no_calls
calls_at b _ = no_calls

unfoldable pub calls_of_visits : Bindings → List Visit → Calls
unfolding calls_at
calls_of_visits b [] = no_calls
calls_of_visits b (v ∷ vs) =
    let calls = calls_at b v in
    let rest = calls_of_visits b vs in
    record {
      literal = calls.literal ++ rest.literal;
      non_literal = calls.non_literal ++ rest.non_literal;
    }

unfoldable pub collect_get_function_calls : Node → Bindings → Calls
unfolding calls_of_visits visit
collect_get_function_calls file b = calls_of_visits b (visit file [])

pub data LintStatus : Type 0 where
  is_ok missing unchecked : LintStatus

pub record DeployFinding : Type 0 where
  pub file : Text
  pub reference : Reference
  pub status : LintStatus
  pub reason : Option Text

abbrev pub non_literal_reason : Text → Text
non_literal_reason arg =
    codes "non-literal first argument (got: "
    ++ (arg
        ++ codes
            ") — static lint cannot resolve. Refactor to a string literal, or accept the audit blind spot.")

abbrev pub no_artifact_reason : Text → Text
no_artifact_reason name =
    codes "no artifact found for '" ++ (name ++ codes "' — did you run 'hardhat compile'?")

abbrev pub not_found_reason : Text → Text
not_found_reason name = codes "not found on " ++ (name ++ codes "'s current ABI")

abbrev pub unchecked_finding : Text → Reference → DeployFinding
unchecked_finding file call = record {
  file = file;
  reference = call;
  status = unchecked;
  reason = some (non_literal_reason call.arg);
}

-- The references of a file.
unfoldable pub calls_of_file : Node → Calls
unfolding collect_get_function_calls collect_bindings
calls_of_file tree = collect_get_function_calls tree (collect_bindings tree)

module _ {Abi : Type 0}
    -- `loadAbi(root, name)`
    (load_abi : Text → Option Abi)
    -- whether `new ethers.Interface(abi).getFunction(arg)` answers a function, and does not throw
    (has_function : Abi → Text → Bool) where
  abbrev pub checked_finding : Text → Reference → Bool → DeployFinding
  checked_finding file call true = record {
    file = file;
    reference = call;
    status = is_ok;
    reason = none;
  }
  checked_finding file call false = record {
    file = file;
    reference = call;
    status = missing;
    reason = some (not_found_reason call.contract_name);
  }

  abbrev pub by_abi : Text → Reference → Option Abi → DeployFinding
  by_abi file call none = record {
    file = file;
    reference = call;
    status = missing;
    reason = some (no_artifact_reason call.contract_name);
  }
  by_abi file call (some abi) = checked_finding file call (has_function abi call.arg)

  -- `for (const u of uncheckedCalls)`, then `for (const call of calls)`
  unfoldable pub findings_of_calls : Text → Calls → List DeployFinding
  findings_of_calls file calls =
      map (unchecked_finding file) calls.non_literal
      ++ map (λ c. by_abi file c (load_abi c.contract_name)) calls.literal

  -- `for (const abs of deployFiles)`
  unfoldable pub deploy_findings : List (Text × Node) → List DeployFinding
  unfolding findings_of_calls calls_of_file
  deploy_findings [] = []
  deploy_findings ((file, tree) ∷ files) =
      findings_of_calls file (calls_of_file tree) ++ deploy_findings files

-- The two filters of the verdict.
abbrev pub is_missing : LintStatus → Bool
is_missing missing = true
is_missing _ = false

abbrev pub is_unchecked : LintStatus → Bool
is_unchecked unchecked = true
is_unchecked _ = false

-- `process.exitCode` after the verdict, by what is missing and what is unchecked.
abbrev pub code_after : Bool → List DeployFinding → List DeployFinding → Option ℕ → Option ℕ
code_after strict_unchecked (f ∷ fs) us code = some 1
code_after true [] (u ∷ us) code = some 1
code_after _ [] _ code = code

unfoldable pub lint_exit_code : Bool → List DeployFinding → Option ℕ → Option ℕ
lint_exit_code strict_unchecked findings code =
    code_after strict_unchecked (keep_if (λ f. is_missing f.status) findings)
      (keep_if (λ f. is_unchecked f.status) findings) code
