-- ===== src/Audit/Scopes/Binding.antt =====
-- Which declaration `resolveConstBinding` of hardhat/tasks/audit/check-deploy-selectors.ts finds.
use rayls_sovereign_contract.Base.{
  ℕ, ◌≡◌, ◌≢◌, ◌↔◌, ◌∙◌, ◌⊎◌, inl, inr, refl, sym, ap, Option, none, some, List, [], ◌∷◌, ◌++◌,
  Bool-cases, All, take, or_else,
}
use rayls_sovereign_contract.Base.Text.{Text, text_eq, text_beq, text_beq_iff}
use rayls_sovereign_contract.Audit.Syntax.{Node, node, string_literal, Initializer, initial, syntax}
use rayls_sovereign_contract.Audit.Scopes.{
  Frame, Declared, statements, constants, declared_as, in_statements, const_initializer, string_of,
  resolve_const_binding,
}

-- The constants that a use can see in a node above it: those of the statements before its own.
abbrev pub visible_in : List Node → List Declared
visible_in [] = []
visible_in (stmt ∷ stmts) = constants (syntax stmt) ++ visible_in stmts

abbrev pub visible : Frame → List Declared
visible f = visible_in (take f.child (statements (syntax f.parent)))

-- The first declaration of the name has the initializer.
abbrev pub First : Text → List Declared → Initializer → Type 0
First name [] init = ⊥
First name (d ∷ ds) init =
    ((d.name ≡ name) × (d.initializer ≡ init)) ⊎ ((d.name ≢ name) × First name ds init)

abbrev pub IsFree : Text → List Declared → Type 0
IsFree name = All (λ d. d.name ≢ name)

-- The innermost scope that declares the name before the use does so by the initializer.
abbrev pub IsBound : Text → List Frame → Initializer → Type 0
IsBound name [] init = ⊥
IsBound name (f ∷ fs) init =
    First name (visible f) init ⊎ (IsFree name (visible f) × IsBound name fs init)

declared_as-First :
    (name : Text) (ds : List Declared) (init : Initializer)
    → (declared_as name ds ≡ some init) ↔ First name ds init
declared_as-First name [] init = (λ h. cc, λ h. absurd h)
declared_as-First name (d ∷ ds) init = elim (Bool-cases (text_beq d.name name)) [
  | inl c ↦
      let same = (text_beq_iff d.name name).0 c in
      rw c
        (λ h. inl (same, cc), λ h. elim h [ inl (p, q) ↦ ap some q | inr (n, r) ↦ absurd (n same) ])
  | inr c ↦
      let differ : d.name ≢ name = λ e. let t = (text_beq_iff d.name name).1 e in cc in
      let rest = declared_as-First name ds init in
      rw c (
        λ h. inr (differ, rest.0 h),
        λ h. elim h [ inl (p, q) ↦ absurd (differ p) | inr (n, r) ↦ rest.1 r ],
      )
]

declared_as-IsFree :
    (name : Text) (ds : List Declared) → (declared_as name ds ≡ none) ↔ IsFree name ds
declared_as-IsFree name [] = (λ h. tt, λ h. refl)
declared_as-IsFree name (d ∷ ds) = elim (Bool-cases (text_beq d.name name)) [
  | inl c ↦ rw c (λ h. cc, λ h. absurd (h.0 ((text_beq_iff d.name name).0 c)))
  | inr c ↦
      let differ : d.name ≢ name = λ e. let t = (text_beq_iff d.name name).1 e in cc in
      let rest = declared_as-IsFree name ds in rw c (λ h. (differ, rest.0 h), λ h. rest.1 h.1)
]

declared_as-append :
    (name : Text) (ds es : List Declared)
    → declared_as name (ds ++ es) ≡ or_else (declared_as name ds) (declared_as name es)
declared_as-append name [] es = refl
declared_as-append name (d ∷ ds) es = elim (Bool-cases (text_beq d.name name)) [
  | inl c ↦ rw c refl
  | inr c ↦ rw c (declared_as-append name ds es)
]

in_statements-visible_in :
    (name : Text) (ns : List Node) → in_statements name ns ≡ declared_as name (visible_in ns)
unfolding in_statements
in_statements-visible_in name [] = refl
in_statements-visible_in name (n ∷ ns) =
    rw (in_statements-visible_in name ns)
      (sym (declared_as-append name (constants (syntax n)) (visible_in ns)))

const_initializer-IsBound :
    (name : Text) (fs : List Frame) (init : Initializer)
    → (const_initializer name fs ≡ some init) ↔ IsBound name fs init
unfolding const_initializer
const_initializer-IsBound name [] init = (λ h. cc, λ h. absurd h)
const_initializer-IsBound name (f ∷ fs) init =
    rw (in_statements-visible_in name (take f.child (statements (syntax f.parent))))
      (by_scope (const_initializer-IsBound name fs init) (declared_as name (visible f)) refl)
  where
    by_scope :
        ((const_initializer name fs ≡ some init) ↔ IsBound name fs init)
        → (o : Option Initializer) → declared_as name (visible f) ≡ o
        → (or_else o (const_initializer name fs) ≡ some init) ↔ IsBound name (f ∷ fs) init
    by_scope rest none e = (
      λ h. inr ((declared_as-IsFree name (visible f)).0 e, rest.0 h),
      λ h. elim h [
        | inl b ↦ let t = (declared_as-First name (visible f) init).1 b in cc
        | inr (free, b) ↦ rest.1 b
      ],
    )
    by_scope rest (some i) e = (
      λ h. inl ((declared_as-First name (visible f) init).0 (e ∙ h)),
      λ h. elim h [
        | inl b ↦ sym e ∙ (declared_as-First name (visible f) init).1 b
        | inr (free, b) ↦ let t = (declared_as-IsFree name (visible f)).1 free in cc
      ],
    )

string_of-literal :
    (o : Option Initializer) (value : Text)
    → (string_of o ≡ some value)
      ↔ ((line : ℕ) × (text : Text) × (o ≡ some (initial (node line text (string_literal value)))))
string_of-literal (some (initial (node line text (string_literal v)))) value = (
  λ h. (line, text, ap (λ t. some (initial (node line text (string_literal t)))) cc),
  λ (l, t, e). cc,
)
string_of-literal _ value = (λ h. cc, λ (l, t, e). cc)

-- An identifier resolves to a text exactly if the first `const` of its name that stands before the use, in
-- the innermost scope that has one, is initialized by that string literal.
pub resolve_const_binding-IsBound :
    (name : Text) (fs : List Frame) (value : Text)
    → (resolve_const_binding name fs ≡ some value) ↔ (
        (line : ℕ) × (text : Text) × IsBound name fs
          (initial (node line text (string_literal value))))
unfolding resolve_const_binding
resolve_const_binding-IsBound name fs value =
    let read = string_of-literal (const_initializer name fs) value in
    (
      λ h.
          let (line, text, e) = read.0 h in (line, text, (const_initializer-IsBound name fs _).0 e),
      λ (line, text, b). read.1 (line, text, (const_initializer-IsBound name fs _).1 b),
    )
