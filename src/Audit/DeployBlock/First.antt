-- ===== src/Audit/DeployBlock/First.antt =====
-- The block that `binarySearchDeployBlock` of hardhat/tasks/audit/utils.ts finds.
use rayls_sovereign_contract.Base.{
  ℕ, zero, suc, ◌+◌, ◌-◌, ◌/◌, ◌≤◌, ◌<◌, ◌≡◌, ◌⊎◌, inl, inr, refl, true, false, Option, none, some,
  arith, ltb, nat_beq, nat_beq_iff, Bool-cases,
}
use rayls_sovereign_contract.Base.Text.{Text}
use rayls_sovereign_contract.Base.Outcome.{Outcome, ok, Exec}
use rayls_sovereign_contract.Audit.DeployBlock.{
  is_empty, search_loop, search_from_genesis, binary_search_deploy_block,
}

module _ {W : Type 0} (get_code : Text → ℕ → Exec W Text) (get_block_number : Exec W ℕ)
    (address : Text) (head : ℕ) (code : ℕ → Text)
    (heads : (w : W) → get_block_number w ≡ (ok head, w))
    (codes_at : (b : ℕ) (w : W) → get_code address b w ≡ (ok (code b), w)) where
  -- The code appears at block `b`: it is there, and it is not there one block before.
  abbrev pub AppearsAt : ℕ → Type 0
  AppearsAt b =
      (b ≤ head) × (is_empty (code b) ≡ false) × ((b ≡ 0) ⊎ (is_empty (code (b - 1)) ≡ true))

  abbrev Finds : Outcome ℕ × W → W → Type 0
  Finds r w = (b : ℕ) × (r ≡ (ok b, w)) × AppearsAt b

  search_loop-Finds :
      (fuel lo hi : ℕ) (w : W)
      → lo < hi
      → hi ≤ head
      → hi ≤ suc (lo + fuel)
      → is_empty (code lo) ≡ true
      → is_empty (code hi) ≡ false
      → Finds (search_loop get_code get_block_number fuel address lo hi w) w
  unfolding search_loop
  search_loop-Finds zero lo hi w lt le enough empty full =
      let e : hi - 1 ≡ lo = omega arith in (hi, refl, (le, full, inr (rw e empty)))
  search_loop-Finds (suc fuel) lo hi w lt le enough empty full =
      elim (Bool-cases (ltb (lo + 1) hi)) [
        | inl wide ↦
            rw (wide, codes_at ((lo + hi) / 2) w)
              (elim (Bool-cases (is_empty (code ((lo + hi) / 2)))) [
                | inl c ↦ rw c (
                    search_loop-Finds fuel ((lo + hi) / 2) hi w (ground arith) le (ground arith) c
                      full)
                | inr c ↦ rw c (
                    search_loop-Finds fuel lo ((lo + hi) / 2) w (ground arith) (ground arith)
                      (ground arith) empty c)
              ])
        | inr narrow ↦
            let e : hi - 1 ≡ lo = ground arith in rw narrow (hi, refl, (le, full, inr (rw e empty)))
      ]

  Found : Outcome (Option ℕ) × W → W → Type 0
  Found r w = (b : ℕ) × (r ≡ (ok (some b), w)) × AppearsAt b

  search_from_genesis-Found :
      (w : W)
      → 0 < head
      → is_empty (code head) ≡ false
      → Found (search_from_genesis get_code get_block_number address head w) w
  unfolding Found
  search_from_genesis-Found w pos full = elim (Bool-cases (is_empty (code 0))) [
    | inl c ↦
        let (b, e, h) = search_loop-Finds head 0 head w pos (omega arith) (omega arith) c full in
        rw (codes_at 0 w, c, e) (b, refl, h)
    | inr c ↦ rw (codes_at 0 w, c) (0, refl, (omega arith, c, inl refl))
  ]

  -- What the search comes to, by whether there is code at the head.
  abbrev pub Searched : W → Type 0
  Searched w =
      ((is_empty (code head) ≡ true)
        × (binary_search_deploy_block get_code get_block_number address w ≡ (ok none, w)))
      ⊎ ((is_empty (code head) ≡ false)
          × ((b : ℕ) × (binary_search_deploy_block get_code get_block_number address w
                ≡ (ok (some b), w))
              × AppearsAt b))

  -- On a chain that does not change meanwhile, `binarySearchDeployBlock` comes to `null` where the
  -- address has no code at the head, and otherwise to a block at which the code appears.
  pub binary_search_deploy_block-AppearsAt : (w : W) → Searched w
  unfolding binary_search_deploy_block Found
  binary_search_deploy_block-AppearsAt w = elim (Bool-cases (is_empty (code head))) [
    | inl empty ↦ inl (empty, rw (heads w, codes_at head w, empty))
    | inr full ↦ inr (
      full,
      elim (Bool-cases (nat_beq head 0)) [
        | inl z ↦
            let e : head ≡ 0 = (nat_beq_iff head 0).0 z in
            rw (heads w, codes_at head w, full, z) (0, refl, (omega arith, rw e at full, inl refl))
        | inr nz ↦
            rw (heads w, codes_at head w, full, nz)
              (search_from_genesis-Found w (ground arith) full)
      ],
    )
  ]

  -- On a chain that does not change meanwhile, and where the code is there from block `d` on and
  -- not before, and `d` is not after the head, `binarySearchDeployBlock` comes to `d`.
  pub binary_search_deploy_block-exact :
      (d : ℕ) (w : W)
      → d ≤ head
      → ((i : ℕ) → i < d → is_empty (code i) ≡ true)
      → ((i : ℕ) → d ≤ i → is_empty (code i) ≡ false)
      → binary_search_deploy_block get_code get_block_number address w ≡ (ok (some d), w)
  binary_search_deploy_block-exact d w le before after =
      elim (binary_search_deploy_block-AppearsAt w) [
        | inl (empty, e) ↦ cc (empty, after head le)
        | inr (there, (b, e, (in_chain, full, first))) ↦
            let same : b ≡ d =
              ground (arith, before b, before (b - 1), after (b - 1), first, full) in
            rw (e, same)
      ]
