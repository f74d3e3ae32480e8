-- ===== src/Base/Int/Decimal.antt =====
-- Reading back what `decimal` prints.
use Prim.Native.Nat.{ℕ, zero, suc, ◌+◌, ◌-◌, ◌*◌, ◌/◌, ◌%◌, ◌<◌}
use mathlib.Core.Path.{◌≡◌, ap, sym, ◌∙◌}
use mathlib.Core.List.{[], ◌∷◌, ◌++◌}
use mathlib.Core.Logic.{inl, inr}
use mathlib.Core.Option.{some}
use native.Mathlib.Omega.{arith}
use peerline.Base.Tests.{ltb, Bool-cases}
use peerline.Base.Text.{Text, digits_value, is_digit}
use peerline.Base.Int.{decimal, decimal_from}

digits_value-append :
    (xs ys : Text) (acc : ℕ) {v : ℕ}
    → digits_value acc xs ≡ some v
    → digits_value acc (xs ++ ys) ≡ digits_value v ys
unfolding digits_value
digits_value-append [] ys acc h = cc
digits_value-append (c ∷ xs) ys acc {v = v} h =
    ground (arith, digits_value-append xs ys (acc * 10 + (c - b'0')) {v = v})

one_digit : (acc d : ℕ) → d < 10 → digits_value acc ((b'0' + d) ∷ []) ≡ some (acc * 10 + d)
unfolding digits_value is_digit
one_digit acc d h = ground arith

digits_value-decimal_from : (fuel n : ℕ) → n < fuel → digits_value 0 (decimal_from fuel n) ≡ some n
unfolding decimal_from
digits_value-decimal_from zero n h = absurd (omega arith)
digits_value-decimal_from (suc fuel) n h = elim (Bool-cases (ltb n 10)) [
  | inl e ↦ rw (e, decimal_from) (one_digit 0 n (ground (arith, e)) ∙ ap some (omega arith))
  | inr e ↦
      rw (e, decimal_from)
        (digits_value-append (decimal_from fuel (n / 10)) ((b'0' + n % 10) ∷ []) 0
            (digits_value-decimal_from fuel (n / 10) (ground (arith, h, e)))
          ∙ (one_digit (n / 10) (n % 10) (omega arith) ∙ ap some (omega arith)))
]

pub decimal_injective : (m n : ℕ) → decimal m ≡ decimal n → m ≡ n
unfolding decimal
decimal_injective m n h = some_same (
    sym (digits_value-decimal_from (suc m) m (omega arith))
    ∙ (ap (digits_value 0) h ∙ digits_value-decimal_from (suc n) n (omega arith)))
  where
    some_same : {a b : ℕ} → some a ≡ some b → a ≡ b
    some_same e = cc
