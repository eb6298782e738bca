-- ===== src/Utils/TokenStandards.antt =====
-- hardhat/utils/tokenStandards.ts: the names of token standards and their numbers. The call of a
-- getter on the token's contract is a parameter, and so is ethers' test of an address.
pub mod Parsing
use rayls_sovereign_contract.Base.{
  ℕ, ◌≡◌, Bool, not, ◌||◌, Option, none, some, List, [], ◌∷◌, ◌++◌, map, if◌then◌else◌, nat_eq,
  or_else,
}
use rayls_sovereign_contract.Base.Text.{
  Text, codes, join, to_lower, to_lower_unit, text_eq, text_beq,
}
use rayls_sovereign_contract.Base.Outcome.{
  JsError, error, Outcome, ok, err, Exec, pure, ◌>>=◌, try_catch,
}
use rayls_sovereign_contract.Base.Dict.{Dict, get}

abbrev pub erc_standard_by_name : Dict Text ℕ
erc_standard_by_name =
    (codes "erc20", 1)
    ∷ (codes "erc721", 2)
    ∷ (codes "erc1155", 3)
    ∷ (codes "enygma", 4)
    ∷ (codes "erc721-dvp", 5)
    ∷ (codes "erc1155-dvp", 6)
    ∷ []

abbrev pub supported_token_standards : List Text
supported_token_standards = map (λ entry. entry.0) erc_standard_by_name

abbrev pub erc_standard_name_by_value : Dict ℕ Text
erc_standard_name_by_value = map (λ entry. (entry.1, entry.0)) erc_standard_by_name

-- What an object's property holds: a number of its own, or a value that all objects inherit.
pub data PropertyValue : Type 0 where
  number : ℕ → PropertyValue
  inherited : Text → PropertyValue

abbrev as_number : Option ℕ → Option PropertyValue
as_number none = none
as_number (some n) = some (number n)

-- Of the names that `Object.prototype` has, those without capitals.
abbrev inherited_property : Text → Option PropertyValue
inherited_property name =
    if text_beq name (codes "constructor") || text_beq name (codes "__proto__")
    then some (inherited name)
    else none

-- `ERC_STANDARD_BY_NAME[name]`
unfoldable pub property : Text → Option PropertyValue
unfolding get
property name = or_else (as_number (get erc_standard_by_name name)) (inherited_property name)

pub record TokenStandard : Type 0 where
  pub standard_name : Text
  pub standard_value : PropertyValue

abbrev unsupported : Text → JsError
unsupported input = error (
    codes "Unsupported standard \""
    ++ (input ++ (codes "\". Use one of: " ++ join (codes ", ") supported_token_standards)))

abbrev pub with_value : Text → Text → Option PropertyValue → Outcome TokenStandard
with_value input name none = err (unsupported input)
with_value input name (some v) = ok (record { standard_name = name; standard_value = v })

unfoldable pub parse_token_standard_name : Text → Outcome TokenStandard
unfolding property to_lower_unit join
parse_token_standard_name input = with_value input (to_lower input) (property (to_lower input))

abbrev pub token_standard_getters : List Text
token_standard_getters = codes "GetERCStandard" ∷ codes "getErcStandard" ∷ []

-- `if (standardName) return { standardName, standardValue }`
abbrev pub detected : ℕ → Option Text → Option (Text × ℕ)
detected value none = none
detected value (some name) = some (name, value)

module _ {W : Type 0} (call_getter : Text → Exec W ℕ) where
  -- One getter: an error is as no answer.
  abbrev pub try_getter : Text → Exec W (Option (Text × ℕ))
  try_getter method =
      try_catch
        (call_getter method >>= λ value.
          pure (detected value (get erc_standard_name_by_value value)))
        (λ e. pure none)

  abbrev pub or_next : Exec W (Option (Text × ℕ)) → Option (Text × ℕ) → Exec W (Option (Text × ℕ))
  or_next next none = next
  or_next next (some r) = pure (some r)

  unfoldable pub try_getters : List Text → Exec W (Option (Text × ℕ))
  try_getters [] = pure none
  try_getters (method ∷ methods) = try_getter method >>= or_next (try_getters methods)

  unfoldable pub detect_token_standard_name : Exec W (Option (Text × ℕ))
  unfolding try_getters get
  detect_token_standard_name = try_getters token_standard_getters

abbrev zero_address : Text
zero_address = codes "0x0000000000000000000000000000000000000000"

unfoldable pub assert_valid_address : (Text → Bool) → Text → Text → Outcome Text
assert_valid_address is_address value label =
    if not (is_address value) || text_beq value zero_address
    then err (error (codes "Invalid " ++ (label ++ (codes ": " ++ value))))
    else ok value
