-- ===== src/Audit/Nodes/Distinct.antt =====
-- The nodes that a list names, each once.
use rayls_sovereign_contract.Base.{
  ◌⊎◌, inl, inr, Bool-cases, ℕ, ◌≡◌, ◌⊎◌, inl, inr, refl, ◌∙◌, sym, true, false, List, [], ◌∷◌,
  ◌++◌, any, contains, arith, Bool-cases, ◌===◌, nat_beq, if◌then◌else◌,
}
use rayls_sovereign_contract.Base.Text.{Text, codes, split, cons_first, trim, text_eq, text_beq_iff}
use rayls_sovereign_contract.Base.Outcome.{error, ok, err}
use rayls_sovereign_contract.Base.Dict.{add, contains-add}
use rayls_sovereign_contract.Audit.Nodes.{tokens, is_blank, distinct, nonempty, parse_nodes}

-- No text stands in the list twice.
abbrev pub IsDistinct : List Text → Type 0
IsDistinct [] = Unit
IsDistinct (t ∷ ts) = (contains ts t ≡ false) × IsDistinct ts

add-IsDistinct : (out : List Text) (t : Text) → IsDistinct out → IsDistinct (add out t)
unfolding add
add-IsDistinct [] t h = (refl, tt)
add-IsDistinct (u ∷ out) t h = elim (Bool-cases (u === t)) [
  | inl c ↦ rw c h
  | inr c ↦ rw c (not_added c (Bool-cases (t === u)), add-IsDistinct out t h.1)
]
  where
    not_added :
        (u === t) ≡ false
        → ((t === u) ≡ true) ⊎ ((t === u) ≡ false)
        → contains (add out t) u ≡ false
    not_added c (inl d) = cc (c, (text_beq_iff u t).1 (sym ((text_beq_iff t u).0 d)))
    not_added c (inr d) = rw (contains-add out t u, d) h.0

pub distinct-IsDistinct : (out ts : List Text) → IsDistinct out → IsDistinct (distinct out ts)
unfolding distinct
distinct-IsDistinct out [] h = h
distinct-IsDistinct out (t ∷ ts) h = distinct-IsDistinct (add out t) ts (add-IsDistinct out t h)

-- What is in the list, or among the tokens still to come.
pub contains-distinct :
    (out ts : List Text) (t : Text)
    → contains (distinct out ts) t ≡ (if contains out t then true else contains ts t)
unfolding distinct
contains-distinct out [] t = ground arith
contains-distinct out (u ∷ ts) t =
    contains-distinct (add out u) ts t ∙ rw (contains-add out u t) (ground arith)

-- Every node that is contained in the list is one of its texts, so what holds of them holds of it.
pub blank-contains : (ts : List Text) → any is_blank ts ≡ false → contains ts [] ≡ false
blank-contains [] h = refl
blank-contains ([] ∷ ts) h = cc
blank-contains ((c ∷ t) ∷ ts) h = blank-contains ts h

split-ne-nil : (d : ℕ) (s : Text) → (t : Text) × (ts : List Text) × (split d s ≡ t ∷ ts)
unfolding split
split-ne-nil d [] = ([], [], refl)
split-ne-nil d (c ∷ s) = elim (Bool-cases (nat_beq c d)) [
  | inl e ↦ ([], split d s, rw e)
  | inr e ↦ rw e (first (split d s))
]
  where
    first : (pieces : List Text) → (t : Text) × (ts : List Text) × (cons_first c pieces ≡ t ∷ ts)
    first [] = (c ∷ [], [], refl)
    first (p ∷ ps) = (c ∷ p, ps, refl)

nonempty-ok :
    (option task_name : Text) (ts : List Text) (t : Text)
    → contains ts t ≡ true
    → nonempty option task_name ts ≡ ok ts
nonempty-ok option task_name [] t h = cc
nonempty-ok option task_name (u ∷ ts) t h = refl

-- The list has a first token.
first_token : (csv : Text) → (t : Text) × (contains (tokens csv) t ≡ true)
first_token csv =
    let (t, ts, e) = split-ne-nil b',' csv in
    (trim t, rw e (ground (arith, text_beq_iff (trim t) (trim t))))

-- What parsing comes to, by whether there is a blank entry.
abbrev pub Parsed : Text → Text → Text → Type 0
Parsed option csv task_name =
    ((any is_blank (tokens csv) ≡ true)
      × (parse_nodes option csv task_name
          ≡ err (
              error (
                task_name
                ++ (codes ": "
                    ++ (option ++ (codes " contains an empty entry: '" ++ (csv ++ codes "'"))))))))
    ⊎ ((any is_blank (tokens csv) ≡ false)
        × (nodes : List Text) × (parse_nodes option csv task_name ≡ ok nodes)
        × IsDistinct nodes
        × (contains nodes [] ≡ false)
        × ((t : Text) → contains nodes t ≡ contains (tokens csv) t))

-- `parsePnList` and `parsePrivacyNodes` fail exactly where the list has a blank entry. Otherwise they
-- answer with the entries, trimmed, each once, and none of them blank: so the check for an empty
-- result never fails.
pub parse_nodes_cases : (option csv task_name : Text) → Parsed option csv task_name
unfolding parse_nodes
parse_nodes_cases option csv task_name = elim (Bool-cases (any is_blank (tokens csv))) [
  | inl blank ↦ inl (blank, rw blank refl)
  | inr clear ↦
      let ts = tokens csv in
      let nodes = distinct [] ts in
      let same = contains-distinct [] ts in
      let (t, there) = first_token csv in
      inr (
        clear,
        nodes,
        rw clear (nonempty-ok option task_name nodes t (same t ∙ there)),
        distinct-IsDistinct [] ts tt,
        same [] ∙ blank-contains ts clear,
        same,
      )
]
