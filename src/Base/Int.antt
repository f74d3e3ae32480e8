-- ===== src/Base/Int.antt =====
-- `i64`: its values as ℤ, `parse`, `to_string` and `abs_diff`.
pub mod Decimal
use mathlib.Core.Option
use peerline.Base.{
  ℕ, zero, suc, ◌+◌, ◌-◌, ◌/◌, ◌%◌, true, false, [], ◌∷◌, ◌++◌, Option, none, some, ltb, leb, ◌==◌,
  if◌then◌else◌,
}
use peerline.Base.Text.{Text, digits_value}

-- `negsuc n` is -(n + 1).
pub data ℤ : Type 0 where
  pos : ℕ → ℤ
  negsuc : ℕ → ℤ

-- The decimal digits of a number: `n + 1` rounds are enough, since each divides by ten.
decimal_from : ℕ → ℕ → Text
decimal_from zero n = []
decimal_from (suc fuel) n = elim (ltb n 10) [
  | true ↦ (b'0' + n) ∷ []
  | false ↦ decimal_from fuel (n / 10) ++ (b'0' + n % 10) ∷ []
]

unfoldable pub decimal : ℕ → Text
unfolding decimal_from
decimal n = decimal_from (suc n) n

unfoldable pub int_text : ℤ → Text
unfolding decimal
int_text (pos n) = decimal n
int_text (negsuc n) = b'-' ∷ decimal (suc n)

abbrev pub i64_max : ℕ
i64_max = 9223372036854775807

abbrev natural : Text → Option ℕ
natural [] = none
natural (c ∷ s) = digits_value 0 (c ∷ s)

negated : ℕ → Option ℤ
negated zero = some (pos 0)
negated (suc n) = if leb n i64_max then some (negsuc n) else none

in_range : ℕ → Option ℤ
in_range n = if leb n i64_max then some (pos n) else none

-- `str::parse::<i64>`: an optional sign, then at least one digit, within the range.
unfoldable pub parse_i64 : Text → Option ℤ
unfolding digits_value negated in_range
parse_i64 [] = none
parse_i64 (c ∷ s) =
    if c == b'-'
    then Option.bind (natural s) negated
    else if c == b'+'
    then Option.bind (natural s) in_range
    else Option.bind (natural (c ∷ s)) in_range

-- `i64::abs_diff` from a time, which is not negative.
unfoldable pub abs_diff : ℕ → ℤ → ℕ
abs_diff now (pos n) = if leb n now then now - n else n - now
abs_diff now (negsuc n) = now + suc n
