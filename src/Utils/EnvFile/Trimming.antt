-- ===== src/Utils/EnvFile/Trimming.antt =====
-- What trimming leaves of a line, for hardhat/utils/envFile.ts.
use rayls_sovereign_contract.Base.{
  ℕ, ◌≡◌, ◌≢◌, ◌∙◌, inl, inr, refl, ap, sym, true, false, [], ◌∷◌, ◌++◌, length, drop, Bool-cases,
  arith, nat_beq, nat_beq_iff, if◌then◌else◌,
}
use rayls_sovereign_contract.Base.Text.{
  Text, is_space, trim, trim_start, trim_end, cons_trimmed, starts_with,
}
use rayls_sovereign_contract.Utils.EnvFile.{without_return}

trim_end-without_return : (s : Text) → trim_end (without_return s) ≡ trim_end s
unfolding without_return trim_end is_space
trim_end-without_return [] = refl
trim_end-without_return (c ∷ []) = elim (Bool-cases (nat_beq c 13)) [
  | inl e ↦ let is : c ≡ 13 = (nat_beq_iff c 13).0 e in rw (e, is) refl
  | inr e ↦ rw e refl
]
trim_end-without_return (c ∷ d ∷ s) = ap (cons_trimmed c) (trim_end-without_return (d ∷ s))

pub trim-without_return : (s : Text) → trim (without_return s) ≡ trim s
unfolding without_return trim trim_start
trim-without_return [] = refl
trim-without_return (c ∷ []) = elim (Bool-cases (nat_beq c 13)) [
  | inl e ↦ let is : c ≡ 13 = (nat_beq_iff c 13).0 e in rw (e, is) refl
  | inr e ↦ rw e refl
]
trim-without_return (c ∷ d ∷ s) = elim (Bool-cases (is_space c)) [
  | inl e ↦ rw e (trim-without_return (d ∷ s))
  | inr e ↦ rw e (trim_end-without_return (c ∷ d ∷ s))
]

pub append_ne_nil : (s t : Text) → t ≢ [] → s ++ t ≢ []
append_ne_nil [] t h = h
append_ne_nil (c ∷ s) t h = λ e. cc

-- What the trimmed text starts with, the text starts with.
pub starts_with-trim_end : (s t : Text) → starts_with (trim_end s) t ≡ true → starts_with s t ≡ true
unfolding trim_end starts_with
starts_with-trim_end s [] h = refl
starts_with-trim_end [] (d ∷ t) h = h
starts_with-trim_end (c ∷ s) (d ∷ t) h = by_rest (trim_end s) (starts_with-trim_end s t) h
  where
    by_rest :
        (r : Text)
        → (starts_with r t ≡ true → starts_with s t ≡ true)
        → starts_with (cons_trimmed c r) (d ∷ t) ≡ true
        → (if nat_beq c d then starts_with s t else false) ≡ true
    by_rest [] ih k = elim (Bool-cases (is_space c)) [
      | inl sp ↦ let bad : false ≡ true = rw sp at k in cc
      | inr sp ↦
          let k' : (if nat_beq c d then starts_with [] t else false) ≡ true = rw sp at k in
          ground (arith, ih, k')
    ]
    by_rest (x ∷ xs) ih k = ground (arith, ih, k)

-- A text that ends in one without white space at its end has none there itself.
pub trim_end-append : (s t : Text) → t ≢ [] → trim_end t ≡ t → trim_end (s ++ t) ≡ s ++ t
unfolding trim_end
trim_end-append [] t h e = e
trim_end-append (c ∷ s) t h e =
    ap (cons_trimmed c) (trim_end-append s t h e) ∙ kept (s ++ t) (append_ne_nil s t h)
  where
    kept : (r : Text) → r ≢ [] → cons_trimmed c r ≡ c ∷ r
    kept [] n = absurd (n refl)
    kept (d ∷ r) n = refl

pub starts_with-append : (s t : Text) → starts_with (s ++ t) s ≡ true
unfolding starts_with
starts_with-append [] t = refl
starts_with-append (c ∷ s) t =
    let e : nat_beq c c ≡ true = (nat_beq_iff c c).1 refl in rw e (starts_with-append s t)

pub drop-append : (s t : Text) → drop (length s) (s ++ t) ≡ t
drop-append [] t = refl
drop-append (c ∷ s) t = drop-append s t

trim_end-cons_trimmed :
    (c : ℕ) (r : Text) → trim_end r ≡ r → trim_end (cons_trimmed c r) ≡ cons_trimmed c r
unfolding trim_end
trim_end-cons_trimmed c [] h = elim (Bool-cases (is_space c)) [
  | inl sp ↦ rw sp refl
  | inr sp ↦ rw (sp, sp) refl
]
trim_end-cons_trimmed c (d ∷ r) h = ap (cons_trimmed c) h

pub trim_end_idem : (s : Text) → trim_end (trim_end s) ≡ trim_end s
unfolding trim_end
trim_end_idem [] = refl
trim_end_idem (c ∷ s) = trim_end-cons_trimmed c (trim_end s) (trim_end_idem s)

pub trim_end-trimmed : (s : Text) → trim s ≡ s → trim_end s ≡ s
unfolding trim
trim_end-trimmed s h = ap trim_end (sym h) ∙ trim_end_idem (trim_start s) ∙ h
