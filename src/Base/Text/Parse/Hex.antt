-- ===== src/Base/Text/Parse/Hex.antt =====
-- Two upper-case hexadecimal digits read back.
use Prim.Native.Nat.{ℕ, ◌+◌, ◌-◌, ◌*◌, ◌/◌, ◌%◌, ◌^◌, ◌<◌}
use mathlib.Core.Path.{◌≡◌, ap}
use mathlib.Core.Bool.{false}
use mathlib.Core.Option.{none, some}
use mathlib.Core.List.{[], ◌∷◌}
use native.Mathlib.Omega.{arith}
use rtlamr.Base.Tests.{ltb, leb}
use rtlamr.Base.Text.{upper_digit}
use rtlamr.Base.Text.Parse.{digit_value, parse_digits, parse_uint}

digit_value-upper_digit : (d : ℕ) → d < 16 → digit_value (upper_digit d) ≡ some d
unfolding digit_value upper_digit
digit_value-upper_digit d h = ground arith

pub parse_uint-upper_digit :
    (v : ℕ)
    → v < 256
    → parse_uint (upper_digit (v / 16) ∷ upper_digit (v % 16) ∷ []) 16 8 ≡ (v, none)
unfolding parse_uint parse_digits
parse_uint-upper_digit v h =
    rw
      (
        parse_digits,
        digit_value-upper_digit (v / 16) (omega arith),
        digit_value-upper_digit (v % 16) (omega arith),
        high,
        low,
        small,
        fits,
      )
      (ap (λ (n : ℕ). (n, none)) (omega arith))
  where
    high : leb 16 (v / 16) ≡ false
    high = ground arith

    low : leb 16 (v % 16) ≡ false
    low = ground arith

    small : ltb (2 ^ 8 - 1) (0 * 16 + v / 16) ≡ false
    small = ground arith

    fits : ltb (2 ^ 8 - 1) ((0 * 16 + v / 16) * 16 + v % 16) ≡ false
    fits = ground arith
