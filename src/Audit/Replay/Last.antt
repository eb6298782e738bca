-- ===== src/Audit/Replay/Last.antt =====
-- The last event of those that concern one key, and a replay that lets the last one win.
use rayls_sovereign_contract.Base.{
  ◌≡◌, ◌⊎◌, inl, inr, refl, Bool, true, false, Option, none, some, List, [], ◌∷◌, All, Bool-cases,
  if◌then◌else◌,
}
use rayls_sovereign_contract.Audit.Replay.{Event, not_after, insert, sort}
use rayls_sovereign_contract.Audit.Replay.Order.{◌≼◌, ≼_refl, IsOrdered, sort-IsOrdered, sort-All}

module _ {A : Type 0} where
  -- `e` is one of the events.
  abbrev pub Among : List (Event A) → Event A → Type 0
  Among [] e = ⊥
  Among (f ∷ fs) e = (f ≡ e) ⊎ Among fs e

  Among-insert :
      (f : Event A) (fs : List (Event A)) (e : Event A)
      → Among (insert f fs) e
      → (f ≡ e) ⊎ Among fs e
  unfolding insert
  Among-insert f [] e h = h
  Among-insert f (g ∷ gs) e h = elim (Bool-cases (not_after f.position g.position)) [
    | inl c ↦ rw c at h
    | inr c ↦
        let h' : (g ≡ e) ⊎ Among (insert f gs) e = rw c at h in
        elim h' [ inl p ↦ inr (inl p) | inr k ↦ behind (Among-insert f gs e k) ]
  ]
    where
      behind : (f ≡ e) ⊎ Among gs e → (f ≡ e) ⊎ ((g ≡ e) ⊎ Among gs e)
      behind (inl p) = inl p
      behind (inr k) = inr (inr k)

  Among-sort : (fs : List (Event A)) (e : Event A) → Among (sort fs) e → Among fs e
  unfolding sort
  Among-sort [] e h = h
  Among-sort (f ∷ fs) e h = elim (Among-insert f (sort fs) e h) [
    | inl p ↦ inl p
    | inr k ↦ inr (Among-sort fs e k)
  ]

  module _ (concerns : A → Bool) where
    abbrev pub later_or : Option (Event A) → Event A → Option (Event A)
    later_or (some f) e = some f
    later_or none e = if concerns e.body then some e else none

    abbrev pub last_of : List (Event A) → Option (Event A)
    last_of [] = none
    last_of (e ∷ es) = later_or (last_of es) e

    -- No event concerns the key; or `e` is one that does, and none that does is later.
    abbrev pub IsLast : List (Event A) → Option (Event A) → Type 0
    IsLast es none = All (λ f. concerns f.body ≡ false) es
    IsLast es (some e) =
        (concerns e.body ≡ true)
        × Among es e
        × All (λ f. concerns f.body ≡ true → ◌≼◌ f.position e.position) es

    All-Among :
        (P : Event A → Type 0) (es : List (Event A)) (e : Event A) → All P es → Among es e → P e
    All-Among P [] e h k = absurd k
    All-Among P (f ∷ fs) e h (inl p) = rw p at h.0
    All-Among P (f ∷ fs) e h (inr k) = All-Among P fs e h.1 k

    vacuous :
        (es : List (Event A)) (e : Event A)
        → All (λ f. concerns f.body ≡ false) es
        → All (λ f. concerns f.body ≡ true → ◌≼◌ f.position e.position) es
    vacuous [] e h = tt
    vacuous (f ∷ fs) e h = (λ c. cc (h.0, c), vacuous fs e h.1)

    later_or-IsLast :
        (e : Event A) (es : List (Event A)) (o : Option (Event A))
        → All (λ f. ◌≼◌ e.position f.position) es
        → IsLast es o
        → IsLast (e ∷ es) (later_or o e)
    later_or-IsLast e es (some f) first (c, m, l) =
        (c, inr m, (λ _. All-Among (λ g. ◌≼◌ e.position g.position) es f first m, l))
    later_or-IsLast e es none first h = elim (Bool-cases (concerns e.body)) [
      | inl c ↦ rw c (c, inl refl, (λ _. ≼_refl e.position, vacuous es e h))
      | inr c ↦ rw c (c, h)
    ]

    last_of-IsLast : (es : List (Event A)) → IsOrdered es → IsLast es (last_of es)
    last_of-IsLast [] h = tt
    last_of-IsLast (e ∷ es) h = later_or-IsLast e es (last_of es) h.0 (last_of-IsLast es h.1)

    IsLast-sort : (es : List (Event A)) (o : Option (Event A)) → IsLast (sort es) o → IsLast es o
    IsLast-sort es none h = sort-All (λ f. concerns f.body ≡ false) es h
    IsLast-sort es (some e) (c, m, l) = (
      c,
      Among-sort es e m,
      sort-All (λ f. concerns f.body ≡ true → ◌≼◌ f.position e.position) es l,
    )

    -- Of the sorted events, the last that concerns a key is one of the events that were sorted,
    -- and no event that concerns the key is later by block and log index; and if no sorted event
    -- concerns the key, none did.
    pub last_of-sort : (es : List (Event A)) → IsLast es (last_of (sort es))
    last_of-sort es =
        IsLast-sort es (last_of (sort es)) (last_of-IsLast (sort es) (sort-IsOrdered es))
