-- ===== src/Audit/Replay/Order.antt =====
-- The order in which the events are replayed.
use rayls_sovereign_contract.Base.{
  ◌≤◌, ◌<◌, ◌≡◌, ◌⊎◌, inl, inr, true, false, List, [], ◌∷◌, All, arith, Bool-cases,
}
use rayls_sovereign_contract.Audit.Replay.{Position, Event, not_after, insert, sort}

-- Earlier on the chain, or at the same place.
abbrev pub ◌≼◌ : Position → Position → Type 0
◌≼◌ a b =
    (a.block_number < b.block_number) ⊎ ((a.block_number ≡ b.block_number) × (a.index ≤ b.index))

pub not_after→≼ : (a b : Position) → not_after a b ≡ true → ◌≼◌ a b
unfolding not_after
not_after→≼ a b h = ground arith

pub after→≼ : (a b : Position) → not_after a b ≡ false → ◌≼◌ b a
unfolding not_after
after→≼ a b h = ground arith

pub ≼_trans : (a b c : Position) → ◌≼◌ a b → ◌≼◌ b c → ◌≼◌ a c
≼_trans a b c h k = ground arith

pub ≼_refl : (a : Position) → ◌≼◌ a a
≼_refl a = ground arith

module _ {A : Type 0} where
  module _ (P : Event A → Type 0) where
    All-insert : (e : Event A) (fs : List (Event A)) → P e → All P fs → All P (insert e fs)
    unfolding insert
    All-insert e [] p h = (p, tt)
    All-insert e (f ∷ fs) p h = elim (Bool-cases (not_after e.position f.position)) [
      | inl c ↦ rw c (p, h)
      | inr c ↦ rw c (h.0, All-insert e fs p h.1)
    ]

    insert-All : (e : Event A) (fs : List (Event A)) → All P (insert e fs) → P e × All P fs
    unfolding insert
    insert-All e [] h = h
    insert-All e (f ∷ fs) h = elim (Bool-cases (not_after e.position f.position)) [
      | inl c ↦ rw c at h
      | inr c ↦
          let (first, rest) : P f × All P (insert e fs) = rw c at h in
          let (p, others) = insert-All e fs rest in (p, (first, others))
    ]

    -- Sorting loses no event and makes none up.
    pub All-sort : (es : List (Event A)) → All P es → All P (sort es)
    unfolding sort
    All-sort [] h = tt
    All-sort (e ∷ es) h = All-insert e (sort es) h.0 (All-sort es h.1)

    pub sort-All : (es : List (Event A)) → All P (sort es) → All P es
    unfolding sort
    sort-All [] h = tt
    sort-All (e ∷ es) h = let (p, rest) = insert-All e (sort es) h in (p, sort-All es rest)

  -- Each event is not after those that follow it.
  abbrev pub IsOrdered : List (Event A) → Type 0
  IsOrdered [] = Unit
  IsOrdered (e ∷ es) = All (λ f. ◌≼◌ e.position f.position) es × IsOrdered es

  All-mono :
      (P Q : Event A → Type 0) (es : List (Event A))
      → ((e : Event A) → P e → Q e)
      → All P es
      → All Q es
  All-mono P Q [] f h = tt
  All-mono P Q (e ∷ es) f h = (f e h.0, All-mono P Q es f h.1)

  insert-IsOrdered : (e : Event A) (fs : List (Event A)) → IsOrdered fs → IsOrdered (insert e fs)
  unfolding insert
  insert-IsOrdered e [] h = (tt, tt)
  insert-IsOrdered e (f ∷ fs) h = elim (Bool-cases (not_after e.position f.position)) [
    | inl c ↦
        let le = not_after→≼ e.position f.position c in
        rw c (
          (
            le,
            All-mono (λ g. ◌≼◌ f.position g.position) (λ g. ◌≼◌ e.position g.position) fs
                (λ g k. ≼_trans e.position f.position g.position le k) h.0,
          ),
          h,
        )
    | inr c ↦ rw c (
      All-insert (λ g. ◌≼◌ f.position g.position) e fs (after→≼ e.position f.position c) h.0,
      insert-IsOrdered e fs h.1,
    )
  ]

  pub sort-IsOrdered : (es : List (Event A)) → IsOrdered (sort es)
  unfolding sort
  sort-IsOrdered [] = tt
  sort-IsOrdered (e ∷ es) = insert-IsOrdered e (sort es) (sort-IsOrdered es)
