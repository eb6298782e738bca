-- ===== src/Base/BigInt.antt =====
-- JavaScript's `BigInt(text)`: white space around is dropped, the empty text is 0, decimal digits may
-- have a sign, and `0x`, `0o` and `0b` go before digits of their base. All else is a `SyntaxError`.
use Prim.Native.Nat.{ℕ, zero, suc, ◌+◌, ◌-◌, ◌*◌}
use mathlib.Core.Path.{◌≡◌, refl}
use mathlib.Core.Bool.{◌&&◌}
use mathlib.Core.List.{[], ◌∷◌, ◌++◌}
use mathlib.Core.Option.{Option, none, some}
use rayls_sovereign_contract.Base.Tests.{ltb, leb, if◌then◌else◌}
use rayls_sovereign_contract.Base.Lists.{drop}
use rayls_sovereign_contract.Base.Text.{Text, codes, starts_with, to_lower, to_lower_unit, trim}
use rayls_sovereign_contract.Base.Outcome.{Outcome, ok, err, error}

-- `negsuc n` is -(n + 1).
pub data ℤ : Type 0 where
  pos : ℕ → ℤ
  negsuc : ℕ → ℤ

abbrev negate : ℕ → ℤ
negate zero = pos 0
negate (suc n) = negsuc n

-- The value of a digit, whatever its base.
abbrev digit : ℕ → Option ℕ
digit c =
    if leb b'0' c && leb c b'9'
    then some (c - b'0')
    else if leb b'a' (to_lower_unit c) && leb (to_lower_unit c) b'z'
    then some (to_lower_unit c - b'a' + 10)
    else none

digits_from : ℕ → ℕ → Text → Option ℕ
digits_from base acc [] = some acc
digits_from base acc (c ∷ s) = elim (digit c) [
  | none ↦ none
  | some d ↦ let rest = digits_from base (acc * base + d) s in if ltb d base then rest else none
]

digits : ℕ → Text → Option ℕ
unfolding digits_from to_lower_unit
digits base [] = none
digits base (c ∷ s) = digits_from base 0 (c ∷ s)

abbrev map_option {ℓ} : {A B : Type ℓ} → (A → B) → Option A → Option B
map_option f none = none
map_option f (some a) = some (f a)

integer : Text → Option ℤ
unfolding digits starts_with
integer [] = some (pos 0)
integer (c ∷ s) =
    let t = c ∷ s in
    if starts_with (to_lower t) (codes "0x")
    then map_option pos (digits 16 (drop 2 t))
    else if starts_with (to_lower t) (codes "0o")
    then map_option pos (digits 8 (drop 2 t))
    else if starts_with (to_lower t) (codes "0b")
    then map_option pos (digits 2 (drop 2 t))
    else if starts_with t (codes "-")
    then map_option negate (digits 10 s)
    else if starts_with t (codes "+")
    then map_option pos (digits 10 s)
    else map_option pos (digits 10 t)

abbrev or_syntax_error : Text → Option ℤ → Outcome ℤ
or_syntax_error t none = err (error (codes "Cannot convert " ++ (t ++ codes " to a BigInt")))
or_syntax_error t (some n) = ok n

unfoldable pub big_int : Text → Outcome ℤ
unfolding integer trim
big_int t = or_syntax_error t (integer (trim t))

big_int_decimal : big_int (codes " 1024 ") ≡ ok (pos 1024)
unfolding big_int
big_int_decimal = refl

big_int_hexadecimal : big_int (codes "0xFf") ≡ ok (pos 255)
unfolding big_int
big_int_hexadecimal = refl

big_int_negative : big_int (codes "-3") ≡ ok (negsuc 2)
unfolding big_int
big_int_negative = refl

big_int_empty : big_int [] ≡ ok (pos 0)
unfolding big_int
big_int_empty = refl
