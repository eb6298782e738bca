-- ===== src/Audit/Lint/Verdict.antt =====
-- When the task `audit:deploy-selectors` of hardhat/tasks/audit/check-deploy-selectors.ts fails.
use rayls_sovereign_contract.Base.{
  ◌≡◌, ◌↔◌, refl, inl, inr, Bool, true, false, Option, none, some, List, [], ◌∷◌, ◌++◌, map,
  keep_if, keep_if-nil, All, All-append, Bool-cases, Option-cases,
}
use rayls_sovereign_contract.Base.Text.{Text}
use rayls_sovereign_contract.Audit.Syntax.{Node}
use rayls_sovereign_contract.Audit.Lint.{
  Reference, DeployFinding, is_missing, is_unchecked, code_after, lint_exit_code, by_abi,
  unchecked_finding, findings_of_calls, calls_of_file, deploy_findings,
}

code_after-none :
    (strict : Bool) (ms us : List DeployFinding)
    → (code_after strict ms us none ≡ none) ↔ ((ms ≡ []) × (strict ≡ true → us ≡ []))
code_after-none strict (m ∷ ms) us = (λ h. cc, λ h. cc)
code_after-none true [] (u ∷ us) = (λ h. cc, λ h. let e = h.1 refl in cc)
code_after-none true [] [] = (λ h. (refl, λ t. refl), λ h. refl)
code_after-none false [] us = (λ h. (refl, λ t. cc), λ h. refl)

module _ {Abi : Type 0} (load_abi : Text → Option Abi) (has_function : Abi → Text → Bool) where
  -- The contract has an artifact, whose ABI has what the reference names.
  pub Resolves : Reference → Type 0
  Resolves call =
      (abi : Abi) × (load_abi call.contract_name ≡ some abi) × (has_function abi call.arg ≡ true)

  -- Every reference of the file that the lint can read resolves.
  pub IsCurrent : Text × Node → Type 0
  IsCurrent (file, tree) = All Resolves (calls_of_file tree).literal

  pub IsReadable : Text × Node → Type 0
  IsReadable (file, tree) = (calls_of_file tree).non_literal ≡ []

  abbrev NotMissing : DeployFinding → Type 0
  NotMissing f = is_missing f.status ≡ false

  abbrev NotUnchecked : DeployFinding → Type 0
  NotUnchecked f = is_unchecked f.status ≡ false

  NotMissing-by_abi :
      (file : Text) (call : Reference)
      → NotMissing (by_abi load_abi has_function file call (load_abi call.contract_name))
        ↔ Resolves call
  unfolding Resolves
  NotMissing-by_abi file call = elim (Option-cases (load_abi call.contract_name)) [
    | inl c ↦ rw c (λ h. cc, λ (abi, e, h). cc)
    | inr (found, c) ↦ rw c elim (Bool-cases (has_function found call.arg)) [
      | inl d ↦ rw d (λ h. (found, refl, d), λ h. refl)
      | inr d ↦ rw d (λ h. cc, λ (abi, e, h). cc)
    ]
  ]

  NotUnchecked-by_abi :
      (file : Text) (call : Reference)
      → NotUnchecked (by_abi load_abi has_function file call (load_abi call.contract_name))
  NotUnchecked-by_abi file call = elim (Option-cases (load_abi call.contract_name)) [
    | inl c ↦ rw c refl
    | inr (found, c) ↦
        rw c
          elim (Bool-cases (has_function found call.arg)) [ inl d ↦ rw d refl | inr d ↦ rw d refl ]
  ]

  abbrev literal_findings : Text → List Reference → List DeployFinding
  literal_findings file = map (λ c. by_abi load_abi has_function file c (load_abi c.contract_name))

  missing_literals :
      (file : Text) (calls : List Reference)
      → All NotMissing (literal_findings file calls) ↔ All Resolves calls
  missing_literals file [] = (λ h. tt, λ h. tt)
  missing_literals file (c ∷ cs) =
      let one = NotMissing-by_abi file c in
      let rest = missing_literals file cs in
      (λ h. (one.0 h.0, rest.0 h.1), λ h. (one.1 h.0, rest.1 h.1))

  unchecked_literals :
      (file : Text) (calls : List Reference) → All NotUnchecked (literal_findings file calls)
  unchecked_literals file [] = tt
  unchecked_literals file (c ∷ cs) = (NotUnchecked-by_abi file c, unchecked_literals file cs)

  missing_others :
      (file : Text) (calls : List Reference) → All NotMissing (map (unchecked_finding file) calls)
  missing_others file [] = tt
  missing_others file (c ∷ cs) = (refl, missing_others file cs)

  unchecked_others :
      (file : Text) (calls : List Reference)
      → All NotUnchecked (map (unchecked_finding file) calls) ↔ (calls ≡ [])
  unchecked_others file [] = (λ h. refl, λ h. tt)
  unchecked_others file (c ∷ cs) = (λ h. let e = h.0 in cc, λ h. cc)

  NotMissing-deploy_findings :
      (files : List (Text × Node))
      → All NotMissing (deploy_findings load_abi has_function files) ↔ All IsCurrent files
  unfolding deploy_findings findings_of_calls IsCurrent
  NotMissing-deploy_findings [] = (λ h. tt, λ h. tt)
  NotMissing-deploy_findings ((file, tree) ∷ files) =
      let calls = calls_of_file tree in
      let others = map (unchecked_finding file) calls.non_literal in
      let literals = literal_findings file calls.literal in
      let here = All-append NotMissing others literals in
      let split =
        All-append NotMissing (others ++ literals) (deploy_findings load_abi has_function files) in
      let read = missing_literals file calls.literal in
      let rest = NotMissing-deploy_findings files in
      (
        λ h. (read.0 (here.0 (split.0 h).0).1, rest.0 (split.0 h).1),
        λ h. split.1 (here.1 (missing_others file calls.non_literal, read.1 h.0), rest.1 h.1),
      )

  NotUnchecked-deploy_findings :
      (files : List (Text × Node))
      → All NotUnchecked (deploy_findings load_abi has_function files) ↔ All IsReadable files
  unfolding deploy_findings findings_of_calls IsReadable
  NotUnchecked-deploy_findings [] = (λ h. tt, λ h. tt)
  NotUnchecked-deploy_findings ((file, tree) ∷ files) =
      let calls = calls_of_file tree in
      let others = map (unchecked_finding file) calls.non_literal in
      let literals = literal_findings file calls.literal in
      let here = All-append NotUnchecked others literals in
      let split =
        All-append NotUnchecked (others ++ literals)
          (deploy_findings load_abi has_function files) in
      let none_left = unchecked_others file calls.non_literal in
      let rest = NotUnchecked-deploy_findings files in
      (
        λ h. (none_left.0 (here.0 (split.0 h).0).0, rest.0 (split.0 h).1),
        λ h. split.1 (here.1 (none_left.1 h.0, unchecked_literals file calls.literal), rest.1 h.1),
      )

  -- The lint leaves the exit code unset exactly if, in every file, each reference that it can read names a
  -- function of the contract's ABI and, under --strict-unchecked, there is no reference that it cannot read.
  pub lint_exit_code-deploy_findings :
      (strict_unchecked : Bool) (files : List (Text × Node))
      → (lint_exit_code strict_unchecked (deploy_findings load_abi has_function files) none ≡ none)
        ↔ (All IsCurrent files × (strict_unchecked ≡ true → All IsReadable files))
  unfolding lint_exit_code
  lint_exit_code-deploy_findings strict_unchecked files =
      let fs = deploy_findings load_abi has_function files in
      let verdict =
        code_after-none strict_unchecked (keep_if (λ f. is_missing f.status) fs)
          (keep_if (λ f. is_unchecked f.status) fs) in
      let ms = keep_if-nil (λ f. is_missing f.status) fs in
      let us = keep_if-nil (λ f. is_unchecked f.status) fs in
      let current = NotMissing-deploy_findings files in
      let readable = NotUnchecked-deploy_findings files in
      (
        λ h. (current.0 (ms.0 (verdict.0 h).0), λ s. readable.0 (us.0 ((verdict.0 h).1 s))),
        λ h. verdict.1 (ms.1 (current.1 h.0), λ s. us.1 (readable.1 (h.1 s))),
      )
