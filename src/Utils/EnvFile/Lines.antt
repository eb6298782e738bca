-- ===== src/Utils/EnvFile/Lines.antt =====
-- The lines of a file that hardhat/utils/envFile.ts writes and reads again.
use rayls_sovereign_contract.Base.{
  ℕ, ◌≡◌, ◌∙◌, inl, inr, refl, ap, true, false, List, [], ◌∷◌, ◌++◌, map, All, contains,
  append_assoc, Bool-cases, arith, nat_beq, nat_eq,
}
use rayls_sovereign_contract.Base.Text.{Text, codes, split, cons_first, join}
use rayls_sovereign_contract.Utils.EnvFile.{
  without_return, pieces_without_return, pop_empty, lines_of, render,
}

-- The line has no line end in it.
abbrev pub IsLine : Text → Type 0
IsLine l = contains l 10 ≡ false

split-line : (l rest : Text) → IsLine l → split 10 (l ++ (10 ∷ rest)) ≡ l ∷ split 10 rest
unfolding split
split-line [] rest h = refl
split-line (c ∷ l) rest h = elim (Bool-cases (nat_beq c 10)) [
  | inl e ↦ let bad : true ≡ false = rw e at h in cc
  | inr e ↦ let h' : IsLine l = rw e at h in rw (e, split-line l rest h') refl
]

split-render :
    (l : Text) (ls : List Text)
    → All IsLine (l ∷ ls)
    → split 10 (render (l ∷ ls)) ≡ (l ∷ ls) ++ ([] ∷ [])
unfolding join split
split-render l [] h = split-line l [] h.0
split-render l (m ∷ ls) h =
    ap (split 10) (
      append_assoc (l ++ codes "\n") (join (codes "\n") (m ∷ ls)) (codes "\n")
      ∙ append_assoc l (codes "\n") (render (m ∷ ls)))
    ∙ split-line l (render (m ∷ ls)) h.0
    ∙ ap (◌∷◌ l) (split-render m ls h.1)

pop_empty-cons :
    (l m : Text) (ls : List Text)
    → pop_empty (l ∷ pieces_without_return (m ∷ ls))
      ≡ l ∷ pop_empty (pieces_without_return (m ∷ ls))
unfolding pop_empty pieces_without_return
pop_empty-cons [] m [] = refl
pop_empty-cons [] m (n ∷ ls) = refl
pop_empty-cons (c ∷ l) m [] = refl
pop_empty-cons (c ∷ l) m (n ∷ ls) = refl

-- A written list of lines reads as the same list, but for a `\r` at a line's end.
pieces-rendered :
    (ls : List Text) → pop_empty (pieces_without_return (ls ++ ([] ∷ []))) ≡ map without_return ls
unfolding pop_empty pieces_without_return
pieces-rendered [] = refl
pieces-rendered (l ∷ []) = pop_empty-cons (without_return l) [] []
pieces-rendered (l ∷ m ∷ ls) =
    pop_empty-cons (without_return l) m (ls ++ ([] ∷ []))
    ∙ ap (◌∷◌ (without_return l)) (pieces-rendered (m ∷ ls))

pub lines_of-render :
    (l : Text) (ls : List Text)
    → All IsLine (l ∷ ls)
    → lines_of (render (l ∷ ls)) ≡ map without_return (l ∷ ls)
unfolding lines_of
lines_of-render l ls h =
    ap (λ pieces. pop_empty (pieces_without_return pieces)) (split-render l ls h)
    ∙ pieces-rendered (l ∷ ls)

-- The lines that are read have no line end.
cons_first-IsLine :
    (c : ℕ) (pieces : List Text)
    → nat_beq c 10 ≡ false
    → All IsLine pieces
    → All IsLine (cons_first c pieces)
cons_first-IsLine c [] e h = (rw e refl, tt)
cons_first-IsLine c (p ∷ ps) e h = (rw e h.0, h.1)

split-IsLine : (s : Text) → All IsLine (split 10 s)
unfolding split
split-IsLine [] = (refl, tt)
split-IsLine (c ∷ s) = elim (Bool-cases (nat_beq c 10)) [
  | inl e ↦ rw e (refl, split-IsLine s)
  | inr e ↦ rw e (cons_first-IsLine c (split 10 s) e (split-IsLine s))
]

without_return-IsLine : (l : Text) → IsLine l → IsLine (without_return l)
unfolding without_return
without_return-IsLine [] h = refl
without_return-IsLine (c ∷ []) h = ground (arith, h)
without_return-IsLine (c ∷ d ∷ s) h = elim (Bool-cases (nat_beq c 10)) [
  | inl e ↦ let bad : true ≡ false = rw e at h in cc
  | inr e ↦ let h' : IsLine (d ∷ s) = rw e at h in rw e (without_return-IsLine (d ∷ s) h')
]

pieces-IsLine : (ls : List Text) → All IsLine ls → All IsLine (pieces_without_return ls)
unfolding pieces_without_return
pieces-IsLine [] h = tt
pieces-IsLine (l ∷ []) h = h
pieces-IsLine (l ∷ m ∷ ls) h = (without_return-IsLine l h.0, pieces-IsLine (m ∷ ls) h.1)

pop_empty-IsLine : (ls : List Text) → All IsLine ls → All IsLine (pop_empty ls)
unfolding pop_empty
pop_empty-IsLine [] h = tt
pop_empty-IsLine ([] ∷ []) h = tt
pop_empty-IsLine ((c ∷ s) ∷ []) h = h
pop_empty-IsLine ([] ∷ m ∷ ls) h = (h.0, pop_empty-IsLine (m ∷ ls) h.1)
pop_empty-IsLine ((c ∷ s) ∷ m ∷ ls) h = (h.0, pop_empty-IsLine (m ∷ ls) h.1)

pub lines_of-IsLine : (content : Text) → All IsLine (lines_of content)
unfolding lines_of
lines_of-IsLine content =
    pop_empty-IsLine (pieces_without_return (split 10 content))
      (pieces-IsLine (split 10 content) (split-IsLine content))
