-- ===== src/Audit/LintTests.antt =====
-- Runs of hardhat/tasks/audit/check-deploy-selectors.ts on a small file, and its theorems on them.
use rayls_sovereign_contract.Base.{
  ℕ, ◌≡◌, ◌↔◌, refl, Bool, true, false, Option, none, some, List, [], ◌∷◌, All, if◌then◌else◌,
  ◌===◌,
}
use rayls_sovereign_contract.Base.Text.{Text, codes, text_eq}
use rayls_sovereign_contract.Audit.Syntax.{
  named, Node, node, Syntax, identifier, string_literal, property_access, call_expression,
  await_expression, array_literal, arrow_function, source_file, variable_statement, declaration,
  other, end, next, initial,
}
use rayls_sovereign_contract.Audit.Scopes.{Frame, resolve_const_binding}
use rayls_sovereign_contract.Audit.Scopes.Binding.{IsBound, resolve_const_binding-IsBound}
use rayls_sovereign_contract.Audit.Lint.{Reference, calls_of_file, deploy_findings, lint_exit_code}
use rayls_sovereign_contract.Audit.Lint.Verdict.{
  IsCurrent, IsReadable, lint_exit_code-deploy_findings,
}

abbrev at : ℕ → Syntax → Node
at line s = node line [] s

abbrev constant : ℕ → Text → Node → Node
constant line name init =
    at line
      (variable_statement true (next (at line (declaration (named name) end (initial init))) end))

abbrev literal_at : ℕ → Text → Node
literal_at line value = at line (string_literal value)

-- const token = await ethers.getContractFactory('Token');
abbrev token_factory : Node
token_factory = constant 1 (codes "token") (
    at 1 (
      await_expression (
        at 1 (
          call_expression
            (at 1
              (property_access (at 1 (identifier (codes "ethers"))) (codes "getContractFactory")))
            (next (literal_at 1 (codes "Token")) end)))))

-- token.interface.getFunction(fn)
abbrev get_function : ℕ → Node
get_function line = at line (
    call_expression
      (at line (
        property_access
          (at line (property_access (at line (identifier (codes "token"))) (codes "interface")))
          (codes "getFunction")))
      (next (node line (codes "fn") (identifier (codes "fn"))) end))

-- ['mint', 'burn'].map(fn => token.interface.getFunction(fn))
abbrev mapped : Node
mapped = at 3 (
    call_expression
      (at 3 (
        property_access
          (at 3 (
            array_literal
              (next (literal_at 3 (codes "mint")) (next (literal_at 4 (codes "burn")) end))))
          (codes "map")))
      (next (at 5 (arrow_function (some (codes "fn") ∷ []) (next (get_function 5) end))) end))

-- The name is declared by `const` before its use, and once more after it.
abbrev tree : Node
tree = at 1 (
    source_file (
      next token_factory (
        next (constant 2 (codes "fn") (literal_at 2 (codes "pause"))) (
          next mapped (
            next (at 6 (other (next (get_function 6) end)))
              (next (constant 7 (codes "fn") (literal_at 7 (codes "stop"))) end))))))

arguments : List Reference → List Text
arguments [] = []
arguments (c ∷ cs) = c.arg ∷ arguments cs

arguments_test :
    arguments (calls_of_file tree).literal ≡ codes "mint" ∷ codes "burn" ∷ codes "pause" ∷ []
unfolding arguments calls_of_file
arguments_test = refl

abbrev load_abi : Text → Option (List Text)
load_abi name = some (codes "mint" ∷ codes "burn" ∷ codes "pause" ∷ [])

abbrev has_function : List Text → Text → Bool
has_function [] arg = false
has_function (f ∷ fs) arg = let rest = has_function fs arg in if f === arg then true else rest

abbrev in_file : List Frame
in_file = record { parent = tree; child = 3 } ∷ []

resolve_const_binding-IsBound_example :
    (resolve_const_binding (codes "fn") in_file ≡ some (codes "pause")) ↔ (
      (line : ℕ) × (text : Text) × IsBound
        (codes "fn")
        in_file
        (initial (node line text (string_literal (codes "pause")))))
resolve_const_binding-IsBound_example =
    resolve_const_binding-IsBound (codes "fn") in_file (codes "pause")

lint_exit_code-deploy_findings_example :
    (lint_exit_code true (deploy_findings load_abi has_function ((codes "a.ts", tree) ∷ [])) none
      ≡ none)
    ↔ (All (IsCurrent load_abi has_function) ((codes "a.ts", tree) ∷ [])
        × (true ≡ true → All (IsReadable load_abi has_function) ((codes "a.ts", tree) ∷ [])))
lint_exit_code-deploy_findings_example =
    lint_exit_code-deploy_findings load_abi has_function true ((codes "a.ts", tree) ∷ [])
