-- ===== src/Audit/OwnRoles/Verdict.antt =====
-- When the own-roles audit of hardhat/tasks/audit/check-roles.ts passes.
use rayls_sovereign_contract.Base.{
  ℕ, ◌≡◌, ◌↔◌, ◌⊎◌, ◌∙◌, inl, inr, refl, sym, ap, subst, Bool, true, false, ◌&&◌, Option, none,
  some, List, [], ◌∷◌, ◌++◌, All, All-append, keep_if-nil, Bool-cases, arith, any, contains, get_or,
  if◌then◌else◌, ◌===◌,
}
use rayls_sovereign_contract.Base.Text.{Text, text_eq, text_beq_iff, truthy}
use rayls_sovereign_contract.Base.Dict.{Dict, get, put, has, is_some, get-put}
use rayls_sovereign_contract.Audit.ExpectedRoles.{ExpectedRoleEntry}
use rayls_sovereign_contract.Audit.OwnRoles.{
  OwnRoleFinding, OnChainRole, unregistered_findings, unresolved_findings, expected_addrs,
  grantee_findings, unexpected_members, role_findings, own_findings, blockers, is_blocker,
}

-- No finding blocks.
abbrev IsClean : List OwnRoleFinding → Type 0
IsClean = All (λ f. is_blocker f.status ≡ false)

IsClean-append : (fs gs : List OwnRoleFinding) → IsClean (fs ++ gs) ↔ (IsClean fs × IsClean gs)
IsClean-append fs gs = All-append (λ f. is_blocker f.status ≡ false) fs gs

pub any-contains :
    (test : Text → Bool) (gs : List Text)
    → any test gs ≡ true
    → (g : Text) × (contains gs g ≡ true) × (test g ≡ true)
any-contains test [] h = cc
any-contains test (g ∷ gs) h = elim (Bool-cases (test g)) [
  | inl c ↦ (g, rw ((text_beq_iff g g).1 refl) refl, c)
  | inr c ↦ let (n, k, t) = any-contains test gs (rw c at h) in (n, ground arith, t)
]

pub contains-any :
    (test : Text → Bool) (gs : List Text) (g : Text)
    → contains gs g ≡ true
    → test g ≡ true
    → any test gs ≡ true
contains-any test [] g h t = cc
contains-any test (n ∷ gs) g h t =
    ground (arith, contains-any test gs g, ap test ((text_beq_iff n g).0 _))

-- What holds of each of the names holds of the first and of each of the others.
contains-each :
    (P : Text → Type 0) (g : Text) (gs : List Text)
    → ((n : Text) → contains (g ∷ gs) n ≡ true → P n)
      ↔ (P g × ((n : Text) → contains gs n ≡ true → P n))
contains-each P g gs = (
  (λ h. (h g (rw ((text_beq_iff g g).1 refl) refl), λ n k. h n (ground arith))),
  λ h n k. elim (Bool-cases (g === n)) [
    | inl c ↦ subst P ((text_beq_iff g n).0 c) h.0
    | inr c ↦ h.1 n (rw c at k)
  ],
)

has-each :
    (P : Text → Type 0) (a label : Text) (d : Dict Text Text)
    → ((n : Text) → has ((a, label) ∷ d) n ≡ true → P n)
      ↔ (P a × ((n : Text) → has d n ≡ true → P n))
unfolding get
has-each P a label d = (
  (λ h. (h a (rw ((text_beq_iff a a).1 refl) refl), λ n k. h n (kept n k (Bool-cases (a === n))))),
  λ h n k. elim (Bool-cases (a === n)) [
    | inl c ↦ subst P ((text_beq_iff a n).0 c) h.0
    | inr c ↦ h.1 n (rw c at k)
  ],
)
  where
    kept :
        (n : Text)
        → has d n ≡ true
        → ((a === n) ≡ true) ⊎ ((a === n) ≡ false)
        → has ((a, label) ∷ d) n ≡ true
    kept n k (inl c) = rw c refl
    kept n k (inr c) = rw c k

module _ (names : Dict Text Text) where
  -- The registry has the address for the grantee.
  abbrev pub stands_for : Text → Text → Bool
  stands_for address grantee =
      truthy (get names grantee) && (get_or (get names grantee) [] === address)

  has-expected_addrs :
      (gs : List Text) (d : Dict Text Text) (address : Text)
      → has (expected_addrs names gs d) address
        ≡ (if any (stands_for address) gs then true else has d address)
  unfolding expected_addrs
  has-expected_addrs [] d address = refl
  has-expected_addrs (g ∷ gs) d address = elim (Bool-cases (truthy (get names g))) [
    | inl c ↦ rw c (
        has-expected_addrs gs (put d (get_or (get names g) []) g) address
        ∙ rw (get-put d (get_or (get names g) []) address g)
            (joined (get_or (get names g) [] === address)))
    | inr c ↦ rw c (has-expected_addrs gs d address)
  ]
    where
      joined :
          (b : Bool)
          → (if any (stands_for address) gs
              then true
              else is_some (if b then some g else get d address))
            ≡ (if (if b then true else any (stands_for address) gs) then true else has d address)
      joined true = ground arith
      joined false = refl

  unregistered-IsClean :
      (role : Text) (gs : List Text) → IsClean (unregistered_findings names role gs) ↔ (gs ≡ [])
  unfolding unregistered_findings
  unregistered-IsClean role [] = (λ h. refl, λ h. tt)
  unregistered-IsClean role (g ∷ gs) = (λ h. let no : true ≡ false = h.0 in cc, λ h. cc)

  unresolved-IsClean :
      (role : Text) (id : ℕ) (gs : List Text)
      → IsClean (unresolved_findings names role id gs)
        ↔ ((g : Text) → contains gs g ≡ true → truthy (get names g) ≡ true)
  unfolding unresolved_findings
  unresolved-IsClean role id [] = (λ h g k. cc, λ h. tt)
  unresolved-IsClean role id (g ∷ gs) = elim (Bool-cases (truthy (get names g))) [
    | inl c ↦ rw c (
      (λ h.
          (contains-each (λ n. truthy (get names n) ≡ true) g gs).1
            (c, (unresolved-IsClean role id gs).0 h)),
      λ h.
          (unresolved-IsClean role id gs).1
            ((contains-each (λ n. truthy (get names n) ≡ true) g gs).0 h).1,
    )
    | inr c ↦ rw c (
      (λ h. let no : true ≡ false = h.0 in cc),
      λ h.
          let yes : truthy (get names g) ≡ true =
            ((contains-each (λ n. truthy (get names n) ≡ true) g gs).0 h).0 in
          cc,
    )
  ]

grantees-IsClean :
    (role : Text) (r : OnChainRole) (d : Dict Text Text)
    → IsClean (grantee_findings role r d)
      ↔ ((a : Text) → has d a ≡ true → contains r.members a ≡ true)
unfolding grantee_findings get
grantees-IsClean role r [] = (λ h a k. cc, λ h. tt)
grantees-IsClean role r ((a, label) ∷ d) = elim (Bool-cases (contains r.members a)) [
  | inl c ↦ rw c (
    (λ h.
        (has-each (λ n. contains r.members n ≡ true) a label d).1
          (c, (grantees-IsClean role r d).0 h.1)),
    λ h. (
      refl,
      (grantees-IsClean role r d).1 ((has-each (λ n. contains r.members n ≡ true) a label d).0 h).1,
    ),
  )
  | inr c ↦ rw c (
    (λ h. let no : true ≡ false = h.0 in cc),
    λ h.
        let yes : contains r.members a ≡ true =
          ((has-each (λ n. contains r.members n ≡ true) a label d).0 h).0 in
        cc,
  )
]

members-IsClean :
    (role : Text) (id : ℕ) (d : Dict Text Text) (ms : List Text)
    → IsClean (unexpected_members role id d ms)
      ↔ ((m : Text) → contains ms m ≡ true → has d m ≡ true)
unfolding unexpected_members
members-IsClean role id d [] = (λ h m k. cc, λ h. tt)
members-IsClean role id d (m ∷ ms) = elim (Bool-cases (has d m)) [
  | inl c ↦ rw c (
    (λ h. (contains-each (λ n. has d n ≡ true) m ms).1 (c, (members-IsClean role id d ms).0 h)),
    λ h. (members-IsClean role id d ms).1 ((contains-each (λ n. has d n ≡ true) m ms).0 h).1,
  )
  | inr c ↦ rw c (
    (λ h. let no : true ≡ false = h.0 in cc),
    λ h. let yes : has d m ≡ true = ((contains-each (λ n. has d n ≡ true) m ms).0 h).0 in cc,
  )
]

module _ (names : Dict Text Text) where
  -- A role that is not registered has no grantee. The grantees of one that is are in the registry and are
  -- its members, and unless others are allowed, each of its members is the address of a grantee.
  abbrev pub IsGranted : ExpectedRoleEntry → Option OnChainRole → Type 0
  IsGranted entry none = entry.expected_grantees ≡ []
  IsGranted entry (some role) =
      ((g : Text)
        → contains entry.expected_grantees g ≡ true
        → (truthy (get names g) ≡ true) × (contains role.members (get_or (get names g) []) ≡ true))
      × ((entry.allow_unexpected ≡ true)
          ⊎ ((m : Text)
              → contains role.members m ≡ true
              → (g : Text) × (contains entry.expected_grantees g ≡ true)
                × (stands_for names m g ≡ true)))

  expected_iff :
      (gs : List Text) (a : Text)
      → (has (expected_addrs names gs []) a ≡ true)
        ↔ ((g : Text) × (contains gs g ≡ true) × (stands_for names a g ≡ true))
  unfolding get
  expected_iff gs a = (
    λ h.
        any-contains (stands_for names a) gs
          (only (any (stands_for names a) gs) (sym (has-expected_addrs names gs [] a) ∙ h)),
    λ (g, k, t).
        has-expected_addrs names gs [] a ∙ rw (contains-any (stands_for names a) gs g k t) refl,
  )
    where
      only : (b : Bool) → (if b then true else false) ≡ true → b ≡ true
      only b h = ground arith

  stands_for-own :
      (g : Text) → truthy (get names g) ≡ true → stands_for names (get_or (get names g) []) g ≡ true
  stands_for-own g h =
      rw h ((text_beq_iff (get_or (get names g) []) (get_or (get names g) [])).1 refl)

  -- The allowed grants, and the others.
  grants-IsClean :
      (entry : ExpectedRoleEntry) (role : OnChainRole)
      → (IsClean (unresolved_findings names entry.role_name role.id entry.expected_grantees)
          × IsClean (
              grantee_findings entry.role_name role
                (expected_addrs names entry.expected_grantees [])))
        ↔ ((g : Text)
            → contains entry.expected_grantees g ≡ true
            → (truthy (get names g) ≡ true)
              × (contains role.members (get_or (get names g) []) ≡ true))
  grants-IsClean entry role =
      let gs = entry.expected_grantees in
      let resolved = unresolved-IsClean names entry.role_name role.id gs in
      let held = grantees-IsClean entry.role_name role (expected_addrs names gs []) in
      (
        (λ h g k.
            let t : truthy (get names g) ≡ true = resolved.0 h.0 g k in
            (
              t,
              held.0 h.1 (get_or (get names g) [])
                  ((expected_iff gs _).1 (g, k, stands_for-own g t)),
            )),
        λ h. (
          resolved.1 (λ g k. (h g k).0),
          held.1 (λ a e.
              let (g, k, t) = (expected_iff gs a).0 e in
              let same : get_or (get names g) [] ≡ a =
                ground (arith, text_beq_iff (get_or (get names g) []) a) in
              subst (λ n. contains role.members n ≡ true) same (h g k).1),
        ),
      )

  others-IsClean :
      (entry : ExpectedRoleEntry) (role : OnChainRole)
      → IsClean (
          if entry.allow_unexpected
          then []
          else unexpected_members entry.role_name role.id
              (expected_addrs names entry.expected_grantees [])
              role.members)
        ↔ ((entry.allow_unexpected ≡ true)
            ⊎ ((m : Text)
                → contains role.members m ≡ true
                → (g : Text) × (contains entry.expected_grantees g ≡ true)
                  × (stands_for names m g ≡ true)))
  others-IsClean entry role =
      let gs = entry.expected_grantees in
      let each =
        members-IsClean entry.role_name role.id (expected_addrs names gs []) role.members in
      elim (Bool-cases entry.allow_unexpected) [
        | inl c ↦ rw c ((λ h. inl refl), λ h. tt)
        | inr c ↦ rw c (
          (λ h. inr (λ m k. (expected_iff gs m).0 (each.0 h m k))),
          λ h. elim h [ inl p ↦ cc | inr f ↦ each.1 (λ m k. (expected_iff gs m).1 (f m k)) ],
        )
      ]

  role_findings-IsClean :
      (entry : ExpectedRoleEntry) (o : Option OnChainRole)
      → IsClean (role_findings names entry o) ↔ IsGranted entry o
  role_findings-IsClean entry none =
      unregistered-IsClean names entry.role_name entry.expected_grantees
  role_findings-IsClean entry (some role) =
      let parts = IsClean-append _ _ in
      let grants = IsClean-append _ _ in
      (
        (λ h.
            let (ab, c) = parts.0 h in
            let (a, b) = grants.0 ab in
            ((grants-IsClean entry role).0 (a, b), (others-IsClean entry role).0 c)),
        λ h.
            let (a, b) = (grants-IsClean entry role).1 h.0 in
            parts.1 (grants.1 (a, b), (others-IsClean entry role).1 h.1),
      )

  own_findings-IsClean :
      (roles : Dict Text OnChainRole) (entries : List ExpectedRoleEntry)
      → IsClean (own_findings names roles entries)
        ↔ All (λ e. IsGranted e (get roles e.role_name)) entries
  unfolding own_findings
  own_findings-IsClean roles [] = (λ h. tt, λ h. tt)
  own_findings-IsClean roles (e ∷ es) =
      let parts =
        IsClean-append (role_findings names e (get roles e.role_name))
          (own_findings names roles es) in
      let here = role_findings-IsClean e (get roles e.role_name) in
      let rest = own_findings-IsClean roles es in
      ((λ h. let (a, b) = parts.0 h in (here.0 a, rest.0 b)), λ h. parts.1 (here.1 h.0, rest.1 h.1))

  -- The audit has no blocker exactly if every expected role is as it should be on chain: if it is not
  -- registered, it has no expected grantee; if it is, the registry has an address for each of its grantees,
  -- which is a member of the role, and unless the entry allows others, each member of the role is the address
  -- of a grantee.
  pub blockers-own_findings :
      (roles : Dict Text OnChainRole) (entries : List ExpectedRoleEntry)
      → (blockers (own_findings names roles entries) ≡ [])
        ↔ All (λ e. IsGranted e (get roles e.role_name)) entries
  blockers-own_findings roles entries =
      let none_kept = keep_if-nil (λ f. is_blocker f.status) (own_findings names roles entries) in
      let clean = own_findings-IsClean roles entries in
      ((λ h. clean.0 (none_kept.0 h)), λ h. none_kept.1 (clean.1 h))
