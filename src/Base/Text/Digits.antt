-- ===== src/Base/Text/Digits.antt =====
-- Printed numbers hold no separator.
use Prim.Native.Nat.{ℕ, zero, suc, ◌/◌, ◌%◌, ◌<◌, ◌≤◌}
use mathlib.Core.Path.{◌≡◌, refl}
use mathlib.Core.Logic.{inl, inr}
use mathlib.Core.Bool.{false}
use mathlib.Core.List.{[], ◌∷◌}
use native.Mathlib.Omega.{arith}
use rtlamr.Base.Tests.{◌==◌, Bool-cases}
use rtlamr.Base.Text.{Bytes, digit_char, format_loop, format_uint}
use rtlamr.Base.Text.Trim.{Lacks}

digit_char-ne : (d : ℕ) → d < 10 → (digit_char d == b',') ≡ false
unfolding digit_char
digit_char-ne d h = ground arith

format_loop-Lacks :
    (fuel n : ℕ) (out : Bytes) → Lacks b',' out → Lacks b',' (format_loop digit_char 10 fuel n out)
unfolding format_loop
format_loop-Lacks zero n out h = h
format_loop-Lacks (suc fuel) n out h = elim (Bool-cases (n / 10 == 0)) [
  | inl e ↦ rw e (digit_char-ne (n % 10) (omega arith), h)
  | inr e ↦ rw e (format_loop-Lacks fuel (n / 10) _ (digit_char-ne (n % 10) (omega arith), h))
]

pub format_uint-Lacks : (n : ℕ) → Lacks b',' (format_uint n 10)
unfolding format_uint
format_uint-Lacks n = format_loop-Lacks (suc n) n _ tt

digit_char-bounds : (d : ℕ) → d < 10 → (b'0' ≤ digit_char d) × (digit_char d ≤ b'9')
unfolding digit_char
digit_char-bounds d h = ground arith

format_loop-cons :
    (fuel n : ℕ) (out : Bytes)
    → n < fuel
    → (c : ℕ) × (s : Bytes) × (format_loop digit_char 10 fuel n out ≡ c ∷ s)
      × (b'0' ≤ c)
      × (c ≤ b'9')
unfolding format_loop
format_loop-cons zero n out h = absurd (omega arith)
format_loop-cons (suc fuel) n out h = elim (Bool-cases (n / 10 == 0)) [
  | inl e ↦ let (lo, hi) = digit_char-bounds (n % 10) (omega arith) in (_, out, rw e refl, lo, hi)
  | inr e ↦
      let more : 0 < n / 10 = ground arith in
      let (c, s, eq, lo, hi) =
        format_loop-cons fuel (n / 10) (digit_char (n % 10) ∷ out) (omega (arith, more)) in
      (c, s, rw e eq, lo, hi)
]

-- A decimal text begins with a digit.
pub format_uint-cons :
    (n : ℕ) → (c : ℕ) × (s : Bytes) × (format_uint n 10 ≡ c ∷ s) × (b'0' ≤ c) × (c ≤ b'9')
unfolding format_uint
format_uint-cons n = format_loop-cons (suc n) n [] (omega arith)
