-- ===== src/Audit/RolesTasks/ExitCode.antt =====
-- The exit code that the tasks of hardhat/tasks/audit/check-roles.ts leave.
use rayls_sovereign_contract.Base.{
  ℕ, ◌≡◌, ◌∙◌, ◌⊎◌, inl, inr, refl, Bool, true, false, not, ◌&&◌, Option, some, List, [], ◌∷◌,
  if◌then◌else◌,
}
use rayls_sovereign_contract.Base.Text.{Text}
use rayls_sovereign_contract.Base.Outcome.{Outcome, ok, err, Exec, continue, ◌>>=◌}
use rayls_sovereign_contract.Audit.Env.{Scope, resolve_rpc_url_by_chain, resolve_registry_address}
use rayls_sovereign_contract.Audit.Relayers
use rayls_sovereign_contract.Audit.Expected.{expected_relayer_addresses}
use rayls_sovereign_contract.Base.Dict.{Dict}
use rayls_sovereign_contract.Audit.Cts.{Service, CtsAddressesResponse}
use rayls_sovereign_contract.Audit.OwnRoles.{
  OwnRolesChain, OwnRoleFinding, OwnRolesAuditResult, own_exit_code, blockers, run_own_roles_audit,
}
use rayls_sovereign_contract.Audit.Relayers.{
  Chain, RelayerRoleFinding, RelayerRolesAuditResult, exit_code, exit_code_after,
  run_relayer_roles_audit,
}
use rayls_sovereign_contract.Audit.RolesTasks.{
  State, RolesArgs, with_exit_code, own_exit_code_after, of_outcome, own_roles, expected_of,
  relayer_roles, audit_relayers, audit_roles,
}

-- The exit code is as it was, or it is 1, which only an audit that is not report-only sets.
abbrev pub KeepsCode : Bool → Option ℕ → Option ℕ → Type 0
KeepsCode report_only before after = (after ≡ before) ⊎ ((after ≡ some 1) × (report_only ≡ false))

KeepsCode-trans :
    (ro : Bool) (a b c : Option ℕ) → KeepsCode ro a b → KeepsCode ro b c → KeepsCode ro a c
KeepsCode-trans ro a b c (inl p) (inl q) = inl (q ∙ p)
KeepsCode-trans ro a b c (inr (p, r)) (inl q) = inr (q ∙ p, r)
KeepsCode-trans ro a b c h (inr q) = inr q

module _ {W : Type 0} (ro : Bool) where
  -- An action after which the exit code is as above, whatever it was.
  abbrev Exits : {A : Type 0} → Exec (State W) A → Type 0
  Exits m = (s : State W) → KeepsCode ro s.1 (m s).1.1

  Exits-continue :
      {A B : Type 0} (r : Outcome A) (f : A → Exec (State W) B) (s : State W) (before : Option ℕ)
      → KeepsCode ro before s.1
      → ((a : A) → Exits (f a))
      → KeepsCode ro before (continue r f s).1.1
  Exits-continue (ok a) f s before h k = KeepsCode-trans ro before s.1 (f a s).1.1 h (k a s)
  Exits-continue (err e) f s before h k = h

  Exits-bind :
      {A B : Type 0} (m : Exec (State W) A) (f : A → Exec (State W) B)
      → Exits m
      → ((a : A) → Exits (f a))
      → Exits (m >>= f)
  Exits-bind m f h k s = Exits-continue (m s).0 f (m s).1 s.1 (h s) k

  Exits-with_exit_code :
      {A : Type 0} (m : Exec W A) (f : Outcome A → Option ℕ → Option ℕ)
      → ((r : Outcome A) (code : Option ℕ) → KeepsCode ro code (f r code))
      → Exits (with_exit_code m f)
  Exits-with_exit_code m f h (w, code) = h (m w).0 code

  Exits-if :
      {A : Type 0} (b : Bool) (m n : Exec (State W) A)
      → Exits m
      → Exits n
      → Exits (if b then m else n)
  Exits-if true m n h k = h
  Exits-if false m n h k = k

own_exit_code-KeepsCode :
    (ro : Bool) (r : Outcome OwnRolesAuditResult) (code : Option ℕ)
    → KeepsCode ro code (own_exit_code_after ro r code)
own_exit_code-KeepsCode ro (err e) code = inl refl
own_exit_code-KeepsCode ro (ok r) code = by_blockers ro (blockers r.findings)
  where
    by_blockers : (b : Bool) (fs : List OwnRoleFinding) → KeepsCode b code (own_exit_code fs b code)
    by_blockers b [] = inl refl
    by_blockers true (f ∷ fs) = inl refl
    by_blockers false (f ∷ fs) = inr (refl, refl)

exit_code-KeepsCode :
    (ro : Bool) (fs : List RelayerRoleFinding) (code : Option ℕ)
    → KeepsCode ro code (exit_code fs ro code)
exit_code-KeepsCode ro [] code = inl refl
exit_code-KeepsCode true (f ∷ fs) code = inl refl
exit_code-KeepsCode false (f ∷ fs) code = inr (refl, refl)

module _ {W : Type 0} (own_chain : Text → Text → OwnRolesChain W)
    (relayer_chain : Text → Text → Chain W)
    (fetch_cts_addresses : Text → Service → Exec W CtsAddressesResponse) (is_address : Text → Bool)
    (variables : Text → Option Text) where
  relayer_roles-Exits :
      (scope : Scope) (a : RolesArgs) (rpc_url registry : Text) (expected : Dict Text Text)
      → Exits a.report_only (
          relayer_roles own_chain relayer_chain fetch_cts_addresses is_address variables scope a
            rpc_url registry expected)
  unfolding exit_code_after
  relayer_roles-Exits scope a rpc_url registry expected =
      Exits-with_exit_code a.report_only
        (run_relayer_roles_audit (relayer_chain rpc_url registry) variables scope a.from_block
          a.role_name expected a.report_only)
        (exit_code_after (relayer_chain rpc_url registry) variables scope a.from_block a.role_name
          expected a.report_only)
        by_outcome
    where
      by_outcome :
          (r : Outcome RelayerRolesAuditResult) (code : Option ℕ)
          → KeepsCode a.report_only code (
              exit_code_after
                (relayer_chain rpc_url registry)
                variables
                scope
                a.from_block
                a.role_name
                expected
                a.report_only
                r
                code)
      by_outcome (ok r) code = exit_code-KeepsCode a.report_only (Relayers.blockers r.findings) code
      by_outcome (err e) code = inl refl

  audit_relayers-Exits :
      (scope : Scope) (a : RolesArgs) (include_public_relayer : Bool) (rpc_url registry : Text)
      (nodes : Outcome (List Text))
      → Exits a.report_only (
          audit_relayers own_chain relayer_chain fetch_cts_addresses is_address variables scope a
            include_public_relayer rpc_url registry nodes)
  audit_relayers-Exits scope a include_public_relayer rpc_url registry nodes =
      let ro = a.report_only in
      Exits-bind ro (of_outcome nodes) _ (λ s. inl refl)
        (λ ns.
          Exits-bind ro
            (expected_of own_chain relayer_chain fetch_cts_addresses is_address variables
              include_public_relayer ns scope.chain)
            _
            (Exits-with_exit_code ro
              (expected_relayer_addresses is_address fetch_cts_addresses include_public_relayer ns
                scope.chain)
              (λ r code. code) (λ r code. inl refl))
            (λ expected.
              Exits-bind ro
                (relayer_roles own_chain relayer_chain fetch_cts_addresses is_address variables
                  scope a rpc_url registry expected)
                _ (relayer_roles-Exits scope a rpc_url registry expected) (λ r s. inl refl)))

  own_roles-Exits :
      (scope : Scope) (a : RolesArgs) (rpc_url registry : Text)
      → Exits a.report_only (
          own_roles own_chain relayer_chain fetch_cts_addresses is_address variables scope a rpc_url
            registry)
  own_roles-Exits scope a rpc_url registry =
      let ro = a.report_only in
      Exits-if ro a.include_own_roles _ _
        (Exits-bind ro
          (with_exit_code
            (run_own_roles_audit (own_chain rpc_url registry) scope.task_name scope.chain)
            (own_exit_code_after ro))
          _
          (Exits-with_exit_code ro
            (run_own_roles_audit (own_chain rpc_url registry) scope.task_name scope.chain)
            (own_exit_code_after ro) (own_exit_code-KeepsCode ro))
          (λ r s. inl refl))
        (λ s. inl refl)

  -- Whatever the chains and CTS do and whether the task answers or throws: the exit code after a task of the
  -- role audits is the one before it, or it is 1, and it is set to 1 only without `--report-only`.
  pub audit_roles-KeepsCode :
      (scope : Scope) (a : RolesArgs) (include_public_relayer : Bool) (nodes : Outcome (List Text))
      (s : State W)
      → KeepsCode a.report_only s.1
          (audit_roles own_chain relayer_chain fetch_cts_addresses is_address variables scope a
            include_public_relayer nodes s).1.1
  unfolding audit_roles
  audit_roles-KeepsCode scope a include_public_relayer nodes =
      let ro = a.report_only in
      Exits-if ro (a.skip_relayers && not a.include_own_roles) _ _ (λ s. inl refl)
        (Exits-bind ro (of_outcome (resolve_rpc_url_by_chain variables scope (some a.rpc))) _
          (λ s. inl refl)
          (λ rpc_url.
            Exits-bind ro (of_outcome (resolve_registry_address variables (some a.registry) scope))
              _ (λ s. inl refl)
              (λ registry.
                Exits-bind ro
                  (own_roles own_chain relayer_chain fetch_cts_addresses is_address variables scope
                    a rpc_url registry)
                  _ (own_roles-Exits scope a rpc_url registry)
                  (λ done.
                    Exits-if ro a.skip_relayers _ _ (λ s. inl refl)
                      (audit_relayers-Exits scope a include_public_relayer rpc_url registry
                        nodes)))))
