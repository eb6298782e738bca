-- ===== src/Audit/Nodes/RoundTrip.antt =====
-- A list of nodes that hardhat/tasks/audit/parents.ts writes out for its children is read as the same nodes.
use rayls_sovereign_contract.Base.{
  ℕ, ◌≡◌, ◌∙◌, inl, inr, refl, ap, ap₂, sym, subst, true, false, List, [], ◌∷◌, ◌++◌, map, any, All,
  contains, Bool-cases, nat_beq, append_assoc, append-nil, ◌===◌,
}
use rayls_sovereign_contract.Base.Text.{
  Text, codes, split, cons_first, join, trim, trim_start, trim_end, cons_trimmed, is_space, text_eq,
  text_beq_iff,
}
use rayls_sovereign_contract.Base.Outcome.{ok, ok-injective}
use rayls_sovereign_contract.Base.Dict.{add}
use rayls_sovereign_contract.Audit.Nodes.{tokens, is_blank, distinct, nonempty, parse_nodes}
use rayls_sovereign_contract.Audit.Nodes.Distinct.{
  IsDistinct, distinct-IsDistinct, contains-distinct, blank-contains,
}
use rayls_sovereign_contract.Utils.EnvFile.Trimming.{trim_end_idem}
use rayls_sovereign_contract.Audit.Parents.{listed}

abbrev IsFree : Text → Type 0
IsFree = All (λ c. nat_beq c b',' ≡ false)

-- What an entry of a list is once it is trimmed.
abbrev IsToken : Text → Type 0
IsToken t = (trim t ≡ t) × IsFree t

trim_start-cons_trimmed :
    (c : ℕ) (r : Text) → is_space c ≡ false → trim_start (cons_trimmed c r) ≡ cons_trimmed c r
unfolding trim_start
trim_start-cons_trimmed c [] h = rw (h, h) refl
trim_start-cons_trimmed c (d ∷ r) h = rw h refl

trim_start-trim : (s : Text) → trim_start (trim_end (trim_start s)) ≡ trim_end (trim_start s)
unfolding trim_start trim_end
trim_start-trim [] = refl
trim_start-trim (c ∷ s) = elim (Bool-cases (is_space c)) [
  | inl e ↦ rw e (trim_start-trim s)
  | inr e ↦ rw e (trim_start-cons_trimmed c (trim_end s) e)
]

trim_idem : (s : Text) → trim (trim s) ≡ trim s
unfolding trim
trim_idem s = ap trim_end (trim_start-trim s) ∙ trim_end_idem (trim_start s)

trim_start-IsFree : (s : Text) → IsFree s → IsFree (trim_start s)
unfolding trim_start
trim_start-IsFree [] h = tt
trim_start-IsFree (c ∷ s) h = elim (Bool-cases (is_space c)) [
  | inl e ↦ rw e (trim_start-IsFree s h.1)
  | inr e ↦ rw e h
]

cons_trimmed-IsFree :
    (c : ℕ) (r : Text) → nat_beq c b',' ≡ false → IsFree r → IsFree (cons_trimmed c r)
cons_trimmed-IsFree c [] e h = elim (Bool-cases (is_space c)) [
  | inl sp ↦ rw sp tt
  | inr sp ↦ rw sp (e, tt)
]
cons_trimmed-IsFree c (d ∷ r) e h = (e, h)

trim_end-IsFree : (s : Text) → IsFree s → IsFree (trim_end s)
unfolding trim_end
trim_end-IsFree [] h = tt
trim_end-IsFree (c ∷ s) h = cons_trimmed-IsFree c (trim_end s) h.0 (trim_end-IsFree s h.1)

trim-IsToken : (s : Text) → IsFree s → IsToken (trim s)
unfolding trim
trim-IsToken s h = (trim_idem s, trim_end-IsFree (trim_start s) (trim_start-IsFree s h))

cons_first-All :
    (c : ℕ) (pieces : List Text)
    → nat_beq c b',' ≡ false
    → All IsFree pieces
    → All IsFree (cons_first c pieces)
cons_first-All c [] e h = ((e, tt), tt)
cons_first-All c (p ∷ ps) e h = ((e, h.0), h.1)

split-All : (s : Text) → All IsFree (split b',' s)
unfolding split
split-All [] = (tt, tt)
split-All (c ∷ s) = elim (Bool-cases (nat_beq c b',')) [
  | inl e ↦ rw e (tt, split-All s)
  | inr e ↦ rw e (cons_first-All c (split b',' s) e (split-All s))
]

trimmed_all : (pieces : List Text) → All IsFree pieces → All IsToken (map trim pieces)
trimmed_all [] h = tt
trimmed_all (p ∷ ps) h = (trim-IsToken p h.0, trimmed_all ps h.1)

add-All : (P : Text → Type 0) (out : List Text) (t : Text) → All P out → P t → All P (add out t)
unfolding add
add-All P [] t h p = (p, tt)
add-All P (u ∷ out) t h p = elim (Bool-cases (u === t)) [
  | inl c ↦ rw c h
  | inr c ↦ rw c (h.0, add-All P out t h.1 p)
]

distinct-All :
    (P : Text → Type 0) (out ts : List Text) → All P out → All P ts → All P (distinct out ts)
unfolding distinct
distinct-All P out [] h k = h
distinct-All P out (t ∷ ts) h k = distinct-All P (add out t) ts (add-All P out t h k.0) k.1

-- What is new is added at the end.
add-new : (out : List Text) (t : Text) → contains out t ≡ false → add out t ≡ out ++ (t ∷ [])
unfolding add
add-new [] t h = refl
add-new (u ∷ out) t h = elim (Bool-cases (u === t)) [
  | inl c ↦ let bad : true ≡ false = rw c at h in cc
  | inr c ↦ let h' : contains out t ≡ false = rw c at h in rw c (ap (◌∷◌ u) (add-new out t h'))
]

-- None of the texts is among the others.
abbrev IsNew : List Text → List Text → Type 0
IsNew out = All (λ t. contains out t ≡ false)

contains-last :
    (out : List Text) (t u : Text)
    → contains out u ≡ false
    → (u === t) ≡ false
    → contains (out ++ (t ∷ [])) u ≡ false
contains-last [] t u h e = elim (Bool-cases (t === u)) [
  | inl c ↦
      let same : t ≡ u = (text_beq_iff t u).0 c in
      let again : (u === t) ≡ true = (text_beq_iff u t).1 (sym same) in cc
  | inr c ↦ rw c refl
]
contains-last (x ∷ out) t u h e = elim (Bool-cases (x === u)) [
  | inl c ↦ let bad : true ≡ false = rw c at h in cc
  | inr c ↦ let h' : contains out u ≡ false = rw c at h in rw c (contains-last out t u h' e)
]

IsNew-append :
    (out : List Text) (t : Text) (ts : List Text)
    → contains ts t ≡ false
    → IsNew out ts
    → IsNew (out ++ (t ∷ [])) ts
IsNew-append out t [] h n = tt
IsNew-append out t (u ∷ ts) h n = elim (Bool-cases (u === t)) [
  | inl c ↦ let bad : true ≡ false = rw c at h in cc
  | inr c ↦
      let h' : contains ts t ≡ false = rw c at h in
      (contains-last out t u n.0 c, IsNew-append out t ts h' n.1)
]

distinct-new : (out ts : List Text) → IsDistinct ts → IsNew out ts → distinct out ts ≡ out ++ ts
unfolding distinct
distinct-new out [] d n = sym (append-nil out)
distinct-new out (t ∷ ts) d n =
    ap (λ l. distinct l ts) (add-new out t n.0)
    ∙ distinct-new (out ++ (t ∷ [])) ts d.1 (IsNew-append out t ts d.0 n.1)
    ∙ append_assoc out (t ∷ []) ts

split-free : (s : Text) → IsFree s → split b',' s ≡ s ∷ []
unfolding split
split-free [] h = refl
split-free (c ∷ s) h = rw (h.0, split-free s h.1) refl

split-piece : (s rest : Text) → IsFree s → split b',' (s ++ (b',' ∷ rest)) ≡ s ∷ split b',' rest
unfolding split
split-piece [] rest h = refl
split-piece (c ∷ s) rest h = rw (h.0, split-piece s rest h.1) refl

split-listed :
    (t : Text) (ts : List Text) → All IsFree (t ∷ ts) → split b',' (listed (t ∷ ts)) ≡ t ∷ ts
unfolding join
split-listed t [] h = split-free t h.0
split-listed t (u ∷ ts) h =
    ap (split b',') (append_assoc t (codes ",") (listed (u ∷ ts)))
    ∙ split-piece t (listed (u ∷ ts)) h.0
    ∙ ap (◌∷◌ t) (split-listed u ts h.1)

tokens-listed :
    (t : Text) (ts : List Text) → All IsToken (t ∷ ts) → tokens (listed (t ∷ ts)) ≡ t ∷ ts
tokens-listed t ts h = ap (map trim) (split-listed t ts (free_of (t ∷ ts) h)) ∙ trimmed (t ∷ ts) h
  where
    free_of : (us : List Text) → All IsToken us → All IsFree us
    free_of [] k = tt
    free_of (u ∷ us) k = (k.0.1, free_of us k.1)

    trimmed : (us : List Text) → All IsToken us → map trim us ≡ us
    trimmed [] k = refl
    trimmed (u ∷ us) k = ap₂ ◌∷◌ k.0.0 (trimmed us k.1)

no_blank : (ts : List Text) → contains ts [] ≡ false → any is_blank ts ≡ false
no_blank [] h = refl
no_blank ([] ∷ ts) h = cc
no_blank ((c ∷ t) ∷ ts) h = no_blank ts h

nonempty-ok_inv :
    (option task_name : Text) (ts nodes : List Text)
    → nonempty option task_name ts ≡ ok nodes
    → (t : Text) × (rest : List Text) × ((ts ≡ t ∷ rest) × (nodes ≡ t ∷ rest))
nonempty-ok_inv option task_name [] nodes h = cc
nonempty-ok_inv option task_name (t ∷ rest) nodes h = (t, rest, (refl, sym (ok-injective h)))

nothing_seen : (ts : List Text) → IsNew [] ts
nothing_seen [] = tt
nothing_seen (t ∷ ts) = (refl, nothing_seen ts)

read_again :
    (option task_name t : Text) (ts : List Text)
    → All IsToken (t ∷ ts)
    → IsDistinct (t ∷ ts)
    → contains (t ∷ ts) [] ≡ false
    → parse_nodes option (listed (t ∷ ts)) task_name ≡ ok (t ∷ ts)
unfolding parse_nodes
read_again option task_name t ts h d n =
    rw
      (
        tokens-listed t ts h,
        no_blank (t ∷ ts) n,
        distinct-new [] (t ∷ ts) d (nothing_seen (t ∷ ts)),
      )
      refl

-- The nodes that `parsePnList` or `parsePrivacyNodes` reads from any list, written out by `audit:all` for
-- its children (`pns.join(',')`), are read by both as the same nodes in the same order, under whatever
-- option and task.
pub parse_nodes-listed :
    (option csv task_name : Text) (nodes : List Text)
    → parse_nodes option csv task_name ≡ ok nodes
    → (child_option child_task : Text)
    → parse_nodes child_option (listed nodes) child_task ≡ ok nodes
unfolding parse_nodes
parse_nodes-listed option csv task_name nodes h child_option child_task =
    elim (Bool-cases (any is_blank (tokens csv))) [
      | inl blank ↦ cc (rw blank at h)
      | inr clear ↦
          let ts = tokens csv in
          let (t, rest, e) =
            nonempty-ok_inv option task_name (distinct [] ts) nodes (rw clear at h) in
          let there : contains (distinct [] ts) [] ≡ false =
            contains-distinct [] ts [] ∙ blank-contains ts clear in
          let fresh =
            distinct-All IsToken [] ts tt (trimmed_all (split b',' csv) (split-All csv)) in
          let once = distinct-IsDistinct [] ts tt in
          subst (λ ns. parse_nodes child_option (listed ns) child_task ≡ ok ns) (sym e.1)
            (read_again child_option child_task t rest (subst (All IsToken) e.0 fresh)
              (subst IsDistinct e.0 once) (subst (λ l. contains l [] ≡ false) e.0 there))
    ]
