-- ===== src/R900Bcd/Laws.antt =====
-- A consumption that was encoded as a binary-coded decimal is read back.
pub mod Tests
use native.Mathlib.Nat.{mod-eq_of_lt}
use rtlamr.Base.{ℕ, ◌%◌, ◌^◌, ◌<◌, ◌≡◌, refl, ap, ◌∙◌, arith}
use rtlamr.Base.Text.Parse.Decimal.{to_bcd, parse_uint-format_uint-bcd}
use rtlamr.R900.{R900}
use rtlamr.R900Bcd.{bcd_consumption, convert}

bcd_consumption-to_bcd : (n : ℕ) → n < 2 ^ 32 → bcd_consumption (to_bcd n) ≡ n
unfolding bcd_consumption
bcd_consumption-to_bcd n h =
    ap (λ (t : ℕ). t % 2 ^ 32) (parse_uint-format_uint-bcd 32 n h) ∙ mod-eq_of_lt h

-- If a message's consumption is the binary-coded decimal of a number of 32 bits, that is, the number
-- whose hexadecimal digits are its decimal digits, then the conversion puts that number in its
-- place and changes nothing else.
pub convert-to_bcd :
    {F : Type 0} (r : R900 F) (n : ℕ)
    → n < 2 ^ 32
    → r.consumption ≡ to_bcd n
    → convert r ≡ record r { consumption = n }
unfolding convert
convert-to_bcd r n h e =
    λ i. record r { consumption = (ap bcd_consumption e ∙ bcd_consumption-to_bcd n h) i }
