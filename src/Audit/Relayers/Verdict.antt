-- ===== src/Audit/Relayers/Verdict.antt =====
-- The verdict of the relayer audit in hardhat/tasks/audit/check-roles.ts.
use rayls_sovereign_contract.Base.{
  ◌≡◌, ◌↔◌, ◌∙◌, inl, inr, refl, sym, Bool, true, false, none, List, [], ◌∷◌, ◌++◌, All, arith,
  Bool-cases, contains, ◌===◌, nat_eq,
}
use rayls_sovereign_contract.Base.Text.{Text, text_eq, text_beq_iff}
use rayls_sovereign_contract.Base.Dict.{Dict, has, get}
use rayls_sovereign_contract.Audit.Relayers.{
  unexpected, RelayerRoleFinding, expected_findings, unexpected_findings, classify, blockers,
  is_blocker,
}

-- No finding blocks.
abbrev pub IsClean : List RelayerRoleFinding → Type 0
IsClean = All (λ f. is_blocker f.status ≡ false)

IsClean-append :
    (fs gs : List RelayerRoleFinding) → (blockers (fs ++ gs) ≡ []) ↔ (IsClean fs × IsClean gs)
IsClean-append [] [] = (λ h. (tt, tt), λ h. refl)
IsClean-append [] (g ∷ gs) = elim (Bool-cases (is_blocker g.status)) [
  | inl c ↦ rw c ((λ h. cc), (λ h. cc))
  | inr c ↦
      rw c
        (let r = IsClean-append [] gs in ((λ h. (tt, (refl, (r.0 h).1))), (λ h. r.1 (tt, h.1.1))))
]
IsClean-append (f ∷ fs) gs = elim (Bool-cases (is_blocker f.status)) [
  | inl c ↦ rw c ((λ h. cc), (λ h. cc))
  | inr c ↦ rw c (
      let r = IsClean-append fs gs in
      ((λ h. ((refl, (r.0 h).0), (r.0 h).1)), (λ h. r.1 (h.0.1, h.1))))
]

-- The missing ones.
expected-clean :
    (live : List Text) (d : Dict Text Text)
    → IsClean (expected_findings live d)
    → (a : Text) → has d a ≡ true
    → contains live a ≡ true
unfolding expected_findings get
expected-clean live [] h a k = cc
expected-clean live ((b, s) ∷ d) h a k = elim (Bool-cases (contains live b)) [
  | inl c ↦ ground (arith, expected-clean live d h.1 a, text_beq_iff b a)
  | inr c ↦ let bad : true ≡ false = rw c at h.0 in cc
]

IsClean-expected :
    (live : List Text) (d : Dict Text Text)
    → ((a : Text) → has d a ≡ true → contains live a ≡ true)
    → IsClean (expected_findings live d)
unfolding expected_findings get
IsClean-expected live [] h = tt
IsClean-expected live ((b, s) ∷ d) h =
    let first : contains live b ≡ true = h b (ground (arith, text_beq_iff b b)) in
    (rw first refl, IsClean-expected live d (λ a k. h a (ground (arith, text_beq_iff b a))))

-- The unexpected ones.
unexpected-clean :
    (d : Dict Text Text) (live : List Text)
    → IsClean (unexpected_findings d live)
    → (a : Text) → contains live a ≡ true
    → has d a ≡ true
unfolding unexpected_findings
unexpected-clean d [] h a k = cc
unexpected-clean d (b ∷ live) h a k = elim (Bool-cases (has d b)) [
  | inl c ↦
      let h' : IsClean (unexpected_findings d live) = rw c at h in
      elim (Bool-cases (b === a)) [
        | inl q ↦ let e : b ≡ a = (text_beq_iff b a).0 q in rw (sym e) c
        | inr q ↦ unexpected-clean d live h' a (rw q at k)
      ]
  | inr c ↦
      let bad : IsClean (
          record { account = b; status = unexpected; source = none } ∷ unexpected_findings d live) =
        rw c at h in
      let no : true ≡ false = bad.0 in cc
]

IsClean-unexpected :
    (d : Dict Text Text) (live : List Text)
    → ((a : Text) → contains live a ≡ true → has d a ≡ true)
    → IsClean (unexpected_findings d live)
unfolding unexpected_findings
IsClean-unexpected d [] h = tt
IsClean-unexpected d (b ∷ live) h =
    let first : has d b ≡ true = h b (ground (arith, text_beq_iff b b)) in
    rw first (IsClean-unexpected d live (λ a k. h a (ground arith)))

agree : (b c : Bool) → (b ≡ true → c ≡ true) → (c ≡ true → b ≡ true) → b ≡ c
agree b c h k = ground arith

-- The classification has no blocker exactly if every account that is expected is live and every
-- account that is live is expected.
pub blockers-classify :
    (expected : Dict Text Text) (live : List Text)
    → (blockers (classify expected live) ≡ []) ↔ ((a : Text) → has expected a ≡ contains live a)
unfolding classify
blockers-classify d live =
    let both = IsClean-append (expected_findings live d) (unexpected_findings d live) in
    (
      (λ h a.
          let (e, u) = both.0 h in
          agree (has d a) (contains live a) (expected-clean live d e a)
            (unexpected-clean d live u a)),
      (λ h. both.1 (
        IsClean-expected live d (λ a k. sym (h a) ∙ k),
        IsClean-unexpected d live (λ a k. h a ∙ k),
      )),
    )
