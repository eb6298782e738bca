-- ===== src/Audit/StartBlock/Ladder.antt =====
-- What the block of `resolveStartingBlock` of hardhat/tasks/audit/utils.ts rests on.
use rayls_sovereign_contract.Base.{
  ℕ, ◌≤◌, ◌<◌, ◌-◌, ◌≡◌, inl, inr, refl, true, false, Option, none, some, List, [], ◌∷◌, contains,
  arith, get_or, Bool-cases,
}
use rayls_sovereign_contract.Base.Text.{Text, truthy, text_eq, text_beq_iff}
use rayls_sovereign_contract.Base.BigInt.{ℤ, pos, negsuc, big_int}
use rayls_sovereign_contract.Base.Outcome.{Outcome, ok, err, Ensures, Ensures-ok}
use rayls_sovereign_contract.Audit.Env.{Scope}
use rayls_sovereign_contract.Audit.DeployBlock.{is_empty}
use rayls_sovereign_contract.Audit.DeployBlock.First.{
  AppearsAt, binary_search_deploy_block-AppearsAt,
}
use rayls_sovereign_contract.Audit.StartBlock.{
  Source, flag, env, auto_detect, default_zero, StartingBlockResolution, StartingBlockProvider,
  starting_env_names, from_flag, from_value, from_names, auto_detect_block, or_auto_detect,
  resolve_starting_block,
}

module _ {W : Type 0} (variables : Text → Option Text) (explicit : Option Text) (s : Scope)
    (address : Text) (provider : StartingBlockProvider W) (head : ℕ) (code : ℕ → Text)
    (heads : (w : W) → provider.get_block_number w ≡ (ok head, w))
    (codes_at : (b : ℕ) (w : W) → provider.get_code address b w ≡ (ok (code b), w)) where
  -- What a source says of the block, and of the detail beside it.
  abbrev pub Justifies : Source → ℕ → Option Text → Type 0
  Justifies flag n detail = (truthy explicit ≡ true) × (big_int (get_or explicit []) ≡ ok (pos n))
  Justifies env n detail =
      (truthy explicit ≡ false)
      × (name : Text) × (contains (starting_env_names s) name ≡ true)
      × (detail ≡ some name)
      × (big_int (get_or (variables name) []) ≡ ok (pos n))
  Justifies auto_detect n detail =
      (truthy explicit ≡ false)
      × AppearsAt provider.get_code provider.get_block_number address head code heads codes_at n
  Justifies default_zero n detail = (truthy explicit ≡ false) × (n ≡ 0)

  abbrev pub Justified : StartingBlockResolution → Type 0
  Justified r = Justifies r.source r.from_block r.detail

  from_flag-Justified :
      (o : Outcome ℤ)
      → truthy explicit ≡ true
      → big_int (get_or explicit []) ≡ o
      → Ensures Justified (from_flag s.task_name (get_or explicit []) o)
  from_flag-Justified (ok (pos n)) c e = (c, e)
  from_flag-Justified (ok (negsuc n)) c e = tt
  from_flag-Justified (err x) c e = tt

  -- The block is that of one of the names.
  abbrev FromNames : List Text → Option StartingBlockResolution → Type 0
  FromNames names none = Unit
  FromNames names (some r) =
      (r.source ≡ env)
      × (name : Text) × (contains names name ≡ true)
      × (r.detail ≡ some name)
      × (big_int (get_or (variables name) []) ≡ ok (pos r.from_block))

  from_names-FromNames :
      (names : List Text) → Ensures (FromNames names) (from_names variables names)
  unfolding from_names
  from_names-FromNames [] = tt
  from_names-FromNames (name ∷ names) = elim (Bool-cases (truthy (variables name))) [
    | inl c ↦ rw c (
        first (big_int (get_or (variables name) [])) refl (from_names variables names)
          (from_names-FromNames names))
    | inr c ↦ rw c (later (from_names variables names) (from_names-FromNames names))
  ]
    where
      here : contains (name ∷ names) name ≡ true
      here = ground (arith, text_beq_iff name name)

      later :
          (o : Outcome (Option StartingBlockResolution))
          → Ensures (FromNames names) o
          → Ensures (FromNames (name ∷ names)) o
      later (ok none) h = tt
      later (ok (some r)) (e, n, m, d, v) = (e, n, ground arith, d, v)
      later (err x) h = tt

      first :
          (v : Outcome ℤ)
          → big_int (get_or (variables name) []) ≡ v
          → (o : Outcome (Option StartingBlockResolution)) → Ensures (FromNames names) o
          → Ensures (FromNames (name ∷ names)) (from_value name v o)
      first (ok (pos n)) e o h = (refl, name, here, refl, e)
      first (ok (negsuc n)) e o h = later o h
      first (err x) e o h = tt

  auto_detect-Justified :
      (w : W)
      → truthy explicit ≡ false
      → Ensures Justified (auto_detect_block (some address) (some provider) w).0
  unfolding auto_detect_block
  auto_detect-Justified w c = elim (Bool-cases (truthy (some address))) [
    | inr empty ↦ rw empty (c, refl)
    | inl given ↦
        elim (binary_search_deploy_block-AppearsAt provider.get_code provider.get_block_number
          address head code heads codes_at w) [
            | inl (empty, e) ↦ rw (given, e) (c, refl)
            | inr (full, (b, e, appears)) ↦ rw (given, e) (c, appears)
          ]
  ]

  or_auto_detect-Justified :
      (w : W) (o : Outcome (Option StartingBlockResolution))
      → truthy explicit ≡ false
      → Ensures (FromNames (starting_env_names s)) o
      → Ensures Justified (or_auto_detect (auto_detect_block (some address) (some provider)) o w).0
  or_auto_detect-Justified w (ok none) c h = auto_detect-Justified w c
  or_auto_detect-Justified w (ok (some r)) c (e, n, m, d, v) = rw e (c, n, m, d, v)
  or_auto_detect-Justified w (err x) c h = tt

  resolve-Justified :
      (w : W)
      → Ensures Justified
          (resolve_starting_block variables explicit s (some address) (some provider) w).0
  unfolding resolve_starting_block
  resolve-Justified w = elim (Bool-cases (truthy explicit)) [
    | inl c ↦ rw c (from_flag-Justified (big_int (get_or explicit [])) c refl)
    | inr c ↦ rw c (
        or_auto_detect-Justified w (from_names variables (starting_env_names s)) c
          (from_names-FromNames (starting_env_names s)))
  ]

  pub resolve_starting_block-Justified :
      (w : W) (r : StartingBlockResolution)
      → (resolve_starting_block variables explicit s (some address) (some provider) w).0 ≡ ok r
      → Justified r
  resolve_starting_block-Justified w r e = Ensures-ok Justified _ r e (resolve-Justified w)

  -- What the source of the block says of it, where the manager was deployed at block `d`.
  abbrev pub Reaches : Source → ℕ → ℕ → Type 0
  Reaches flag d n = Unit
  Reaches env d n = Unit
  Reaches auto_detect d n = n ≡ d
  Reaches default_zero d n = n ≤ d

  -- On a chain that does not change meanwhile and of which the manager's code is there from block
  -- `d` on and not before: if `resolveStartingBlock` answers with a block that it detected, it is
  -- `d`, and if it answers with the default, it is not after `d`. So neither makes the scan miss
  -- an event of the manager.
  pub resolve_starting_block-Reaches :
      (d : ℕ) (w : W) (r : StartingBlockResolution)
      → d ≤ head
      → ((i : ℕ) → i < d → is_empty (code i) ≡ true)
      → ((i : ℕ) → d ≤ i → is_empty (code i) ≡ false)
      → (resolve_starting_block variables explicit s (some address) (some provider) w).0 ≡ ok r
      → Reaches r.source d r.from_block
  resolve_starting_block-Reaches d w r le before after e =
      by_source r.source (resolve_starting_block-Justified w r e)
    where
      by_source :
          (source : Source) → Justifies source r.from_block r.detail → Reaches source d r.from_block
      by_source flag j = tt
      by_source env j = tt
      by_source auto_detect (unflagged, (in_chain, full, first)) =
          let b = r.from_block in
          ground (arith, before b, before (b - 1), after (b - 1), first, full)
      by_source default_zero (unflagged, zero_block) = omega arith
