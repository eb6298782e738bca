-- ===== src/Base/Text.antt =====
-- JavaScript strings: lists of code units. The literals of the program are ASCII, so their code
-- units are their code points.
use Prim.Native.Nat.{ℕ, zero, suc, ◌+◌, ◌/◌, ◌%◌, ◌≤◌}
use Prim.Native.Char.{code}
use Prim.Native.String.{String}
use mathlib.Core.Path.{◌≡◌, refl}
use mathlib.Core.Logic.{◌↔◌, inl, inr}
use mathlib.Core.Bool.{Bool, true, false, ◌&&◌, ◌||◌}
use mathlib.Core.List.{List, [], ◌∷◌, ◌++◌, map}
use mathlib.Core.Option.{Option, none, some}
use native.Mathlib.Omega.{arith}
use rayls_sovereign_contract.Base.Tests.{
  leb, nat_beq, nat_beq_iff, if◌then◌else◌, StrictEq, Bool-cases,
}
use rayls_sovereign_contract.Base.Lists.{All}

abbrev pub Text : Type 0
Text = List ℕ

abbrev pub codes : String → Text
codes String.[] = []
codes (String.◌∷◌ c s) = code c ∷ codes s

abbrev pub text_beq : Text → Text → Bool
text_beq [] [] = true
text_beq [] (d ∷ t) = false
text_beq (c ∷ s) [] = false
text_beq (c ∷ s) (d ∷ t) = if nat_beq c d then text_beq s t else false

pub text_beq_iff : (s t : Text) → (text_beq s t ≡ true) ↔ (s ≡ t)
text_beq_iff [] [] = ground arith
text_beq_iff [] (d ∷ t) = ground arith
text_beq_iff (c ∷ s) [] = ground arith
text_beq_iff (c ∷ s) (d ∷ t) = ground (arith, text_beq_iff s t, nat_beq_iff c d)

instance abbrev pub text_eq : StrictEq Text
text_eq = record { same = text_beq; same_iff = text_beq_iff }

-- An optional text that is there and not empty: what JavaScript takes for true.
abbrev pub truthy : Option Text → Bool
truthy none = false
truthy (some []) = false
truthy (some (c ∷ t)) = true

-- `s.startsWith(t)`
unfoldable pub starts_with : Text → Text → Bool
starts_with s [] = true
starts_with [] (d ∷ t) = false
starts_with (c ∷ s) (d ∷ t) = if nat_beq c d then starts_with s t else false

-- `s.includes(t)`
unfoldable pub includes : Text → Text → Bool
unfolding starts_with
includes [] t = starts_with [] t
includes (c ∷ s) t = if starts_with (c ∷ s) t then true else includes s t

-- `toLowerCase` on ASCII.
unfoldable pub to_lower_unit : ℕ → ℕ
to_lower_unit c = if leb b'A' c && leb c b'Z' then c + 32 else c

abbrev pub to_lower : Text → Text
to_lower = map to_lower_unit

-- White space and line ends, among ASCII.
unfoldable pub is_space : ℕ → Bool
is_space c = nat_beq c 32 || (leb 9 c && leb c 13)

-- `s.trimStart()`
unfoldable pub trim_start : Text → Text
unfolding is_space
trim_start [] = []
trim_start (c ∷ s) = if is_space c then trim_start s else c ∷ s

-- A unit before a text that has lost the white space at its end.
abbrev pub cons_trimmed : ℕ → Text → Text
cons_trimmed c [] = if is_space c then [] else c ∷ []
cons_trimmed c (d ∷ s) = c ∷ d ∷ s

unfoldable pub trim_end : Text → Text
unfolding is_space
trim_end [] = []
trim_end (c ∷ s) = cons_trimmed c (trim_end s)

-- `s.trim()`
unfoldable pub trim : Text → Text
unfolding trim_start trim_end
trim s = trim_end (trim_start s)

-- Put a unit before the first piece of a split text.
abbrev pub cons_first : ℕ → List Text → List Text
cons_first c [] = (c ∷ []) ∷ []
cons_first c (s ∷ pieces) = (c ∷ s) ∷ pieces

-- `s.split(separator)` for a separator of one unit
unfoldable pub split : ℕ → Text → List Text
split d [] = [] ∷ []
split d (c ∷ s) = let pieces = split d s in if nat_beq c d then [] ∷ pieces else cons_first c pieces

-- `pieces.join(separator)`
unfoldable pub join : Text → List Text → Text
join sep [] = []
join sep (s ∷ []) = s
join sep (s ∷ t ∷ pieces) = s ++ sep ++ join sep (t ∷ pieces)

decimal_digits : ℕ → ℕ → Text → Text
decimal_digits zero n out = out
decimal_digits (suc fuel) n out =
    let rest = decimal_digits fuel (n / 10) ((b'0' + n % 10) ∷ out) in
    if leb n 9 then (b'0' + n) ∷ out else rest

-- A number in a template: its decimal digits, of which it has fewer than its successor.
unfoldable pub decimal : ℕ → Text
unfolding decimal_digits
decimal n = decimal_digits (suc n) n []

decimal_digits-All :
    (fuel n : ℕ) (out : Text)
    → All (λ c. c ≤ b'9') out
    → All (λ c. c ≤ b'9') (decimal_digits fuel n out)
unfolding decimal_digits
decimal_digits-All zero n out h = h
decimal_digits-All (suc fuel) n out h = elim (Bool-cases (leb n 9)) [
  | inl c ↦ rw c (ground arith, h)
  | inr c ↦ rw c (decimal_digits-All fuel (n / 10) ((b'0' + n % 10) ∷ out) (omega arith, h))
]

-- Nothing in it comes after the digits.
pub decimal-All : (n : ℕ) → All (λ c. c ≤ b'9') (decimal n)
unfolding decimal
decimal-All n = decimal_digits-All (suc n) n [] tt

decimal_test : decimal 1204 ≡ codes "1204"
unfolding decimal
decimal_test = refl

trim_test : trim (codes "  a b ") ≡ codes "a b"
unfolding trim
trim_test = refl

split_test : split b',' (codes "a,,b") ≡ codes "a" ∷ [] ∷ codes "b" ∷ []
unfolding split
split_test = refl

includes_test : includes (to_lower (codes "Nonce TOO low!")) (codes "nonce too low") ≡ true
unfolding includes to_lower_unit
includes_test = refl
