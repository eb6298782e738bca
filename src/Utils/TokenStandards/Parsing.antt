-- ===== src/Utils/TokenStandards/Parsing.antt =====
-- The two directions of hardhat/utils/tokenStandards.ts.
use rayls_sovereign_contract.Base.{
  ℕ, ◌≡◌, inl, inr, refl, Option, none, some, List, [], ◌∷◌, All, Bool-cases, nat_eq, nat_beq,
  nat_beq_iff,
}
use rayls_sovereign_contract.Base.Text.{Text, to_lower_unit, text_eq}
use rayls_sovereign_contract.Base.Outcome.{
  Outcome, ok, err, Exec, pure, continue, Returns, Returns-continue, handle,
}
use rayls_sovereign_contract.Base.Dict.{Dict, get}
use rayls_sovereign_contract.Utils.TokenStandards.{
  number, property, parse_token_standard_name, erc_standard_name_by_value, token_standard_getters,
  try_getter, try_getters, detect_token_standard_name, or_next, detected,
}

-- A name and its value are an answer of the parser, to the name.
abbrev pub Parses : Option (Text × ℕ) → Type 0
Parses none = Unit
Parses (some (name, value)) =
    parse_token_standard_name name
    ≡ ok (record { standard_name = name; standard_value = number value })

get-Parses :
    (d : Dict ℕ Text)
    → All (λ entry. Parses (some (entry.1, entry.0))) d
    → (value : ℕ) → Parses (detected value (get d value))
unfolding get
get-Parses [] h value = tt
get-Parses ((v, name) ∷ d) h value = elim (Bool-cases (nat_beq v value)) [
  | inl c ↦ let e : v ≡ value = (nat_beq_iff v value).0 c in rw c (rw e at h.0)
  | inr c ↦ rw c (get-Parses d h.1 value)
]

by_name-Parses : All (λ entry. Parses (some (entry.1, entry.0))) erc_standard_name_by_value
unfolding parse_token_standard_name property get to_lower_unit
by_name-Parses = (refl, (refl, (refl, (refl, (refl, (refl, tt))))))

detected-Parses : (value : ℕ) → Parses (detected value (get erc_standard_name_by_value value))
detected-Parses = get-Parses erc_standard_name_by_value by_name-Parses

module _ {W : Type 0} (call_getter : Text → Exec W ℕ) where
  try_getter-Parses : (method : Text) (w : W) → Returns Parses (try_getter call_getter method w).0
  try_getter-Parses method w = by_answer (call_getter method w)
    where
      by_answer :
          (r : Outcome ℕ × W)
          → Returns Parses
              (handle
                (λ e. pure none)
                (continue r.0
                  (λ value. pure (detected value (get erc_standard_name_by_value value)))
                  r.1)).0
      by_answer (ok value, w') = detected-Parses value
      by_answer (err e, w') = tt

  try_getters-Parses :
      (methods : List Text) (w : W) → Returns Parses (try_getters call_getter methods w).0
  unfolding try_getters
  try_getters-Parses [] w = tt
  try_getters-Parses (method ∷ methods) w =
      Returns-continue Parses Parses (try_getter call_getter method w).0
        (or_next call_getter (try_getters call_getter methods)) (try_getter call_getter method w).1
        (try_getter-Parses method w)
        (by_next (try_getters-Parses methods (try_getter call_getter method w).1))
    where
      by_next :
          Returns Parses (try_getters call_getter methods (try_getter call_getter method w).1).0
          → (r : Option (Text × ℕ)) → Parses r
          → Returns Parses
              (or_next call_getter
                (try_getters call_getter methods)
                r
                (try_getter call_getter method w).1).0
      by_next rest none h = rest
      by_next rest (some r) h = h

  -- Whatever the getters do, throwing included, `detectTokenStandardName` answers, and a name and
  -- value that it answers with are what `parseTokenStandardName` makes of the name.
  pub detect_token_standard_name-Parses :
      (w : W) → Returns Parses (detect_token_standard_name call_getter w).0
  unfolding detect_token_standard_name
  detect_token_standard_name-Parses w = try_getters-Parses token_standard_getters w
