-- ===== src/Base/Text/Parse/Decimal.antt =====
-- Decimal text read back, and binary-coded decimals.
use Prim.Native.Nat.{ℕ, zero, suc, ◌+◌, ◌-◌, ◌*◌, ◌/◌, ◌%◌, ◌^◌, ◌≤◌, ◌<◌}
use mathlib.Core.Path.{◌≡◌, refl, sym, ap, ◌∙◌}
use mathlib.Core.Logic.{inl, inr}
use mathlib.Core.Bool.{false}
use mathlib.Core.Option.{none, some}
use mathlib.Core.List.{[], ◌∷◌}
use native.Mathlib.Omega.{arith}
use rtlamr.Base.Tests.{ltb, leb, ◌==◌, Bool-cases}
use rtlamr.Base.Text.{Bytes, digit_char, format_loop, format_uint}
use rtlamr.Base.Text.Digits.{format_uint-cons}
use rtlamr.Base.Text.Parse.{Parsed, digit_value, parse_digits, parse_uint, parse_uint-cons}

digit_value-digit_char : (d : ℕ) → d < 10 → digit_value (digit_char d) ≡ some d
unfolding digit_value digit_char
digit_value-digit_char d h = ground arith

-- One decimal digit read.
parse_step :
    (limit n d : ℕ) (s : Bytes)
    → d < 10
    → n * 10 + d ≤ limit
    → parse_digits 10 limit n (digit_char d ∷ s) ≡ parse_digits 10 limit (n * 10 + d) s
unfolding parse_digits
parse_step limit n d s h le = rw (parse_digits, digit_value-digit_char d h, small, fits) refl
  where
    small : leb 10 d ≡ false
    small = ground arith

    fits : ltb limit (n * 10 + d) ≡ false
    fits = ground arith

parse-format_loop :
    (limit fuel n : ℕ) (out : Bytes)
    → n ≤ limit
    → n < fuel
    → parse_digits 10 limit 0 (format_loop digit_char 10 fuel n out) ≡ parse_digits 10 limit n out
unfolding format_loop
parse-format_loop limit zero n out le h = absurd (omega arith)
parse-format_loop limit (suc fuel) n out le h = elim (Bool-cases (n / 10 == 0)) [
  | inl e ↦
      let last : n / 10 ≡ 0 = ground arith in
      rw e (
        parse_step limit 0 (n % 10) out (omega arith) (omega arith)
        ∙ ap (λ m. parse_digits 10 limit m out) (omega (arith, last)))
  | inr e ↦
      let more : 0 < n / 10 = ground arith in
      rw e (
        parse-format_loop limit fuel (n / 10) (digit_char (n % 10) ∷ out) (omega arith)
          (omega (arith, more))
        ∙ parse_step limit (n / 10) (n % 10) out (omega arith) (omega arith)
        ∙ ap (λ m. parse_digits 10 limit m out) (omega arith))
]

-- The number whose hexadecimal digits are the decimal digits of `n`.
abbrev pub bcd_loop : ℕ → ℕ → ℕ
bcd_loop zero n = 0
bcd_loop (suc fuel) n = bcd_loop fuel (n / 10) * 16 + n % 10

abbrev pub to_bcd : ℕ → ℕ
to_bcd n = bcd_loop n n

bcd_zero : (fuel : ℕ) → bcd_loop fuel 0 ≡ 0
bcd_zero zero = refl
bcd_zero (suc fuel) = omega (arith, bcd_zero fuel)

bcd_pos : (fuel n : ℕ) → n ≤ fuel → 0 < n → 0 < bcd_loop fuel n
bcd_pos zero n h pos = absurd (omega arith)
bcd_pos (suc fuel) n h pos = elim (Bool-cases (n / 10 == 0)) [
  | inl e ↦ let last : n / 10 ≡ 0 = ground arith in omega (arith, last)
  | inr e ↦
      let more : 0 < n / 10 = ground arith in
      omega (arith, bcd_pos fuel (n / 10) (omega arith) more)
]

-- The hexadecimal text of a binary-coded decimal is the decimal text.
format-bcd_loop :
    (f g h n : ℕ) (out : Bytes)
    → n ≤ f
    → bcd_loop f n < g
    → n < h
    → format_loop digit_char 16 g (bcd_loop f n) out ≡ format_loop digit_char 10 h n out
unfolding format_loop
format-bcd_loop f g zero n out hf hg hh = absurd (omega arith)
format-bcd_loop f zero (suc h) n out hf hg hh = absurd (omega arith)
format-bcd_loop zero (suc g) (suc h) zero out hf hg hh = refl
format-bcd_loop zero (suc g) (suc h) (suc n) out hf hg hh = absurd (omega arith)
format-bcd_loop (suc f) (suc g) (suc h) n out hf hg hh =
    rw (high, low)
      (elim (Bool-cases (n / 10 == 0)) [
        | inl e ↦ let last : n / 10 ≡ 0 = ground arith in rw (last, bcd_zero f) refl
        | inr e ↦
            let more : 0 < n / 10 = ground arith in
            let pos = bcd_pos f (n / 10) (omega arith) more in
            let some_left : (bcd_loop f (n / 10) == 0) ≡ false = ground (arith, pos) in
            rw (e, some_left)
              (format-bcd_loop f g h (n / 10) (digit_char (n % 10) ∷ out) (omega arith)
                (omega (arith, pos, hg)) (omega (arith, more)))
      ])
  where
    high : (bcd_loop f (n / 10) * 16 + n % 10) / 16 ≡ bcd_loop f (n / 10)
    high = omega arith

    low : (bcd_loop f (n / 10) * 16 + n % 10) % 16 ≡ n % 10
    low = omega arith

parse_uint-value :
    (s : Bytes) (base bits : ℕ)
    → (parse_uint s base bits).0 ≡ (parse_digits base (2 ^ bits - 1) 0 s).0
unfolding parse_uint parse_digits
parse_uint-value [] base bits = refl
parse_uint-value (c ∷ s) base bits = refl

-- The decimal reading of the hexadecimal text of a binary-coded decimal is the decimal.
pub parse_uint-format_uint-bcd :
    (bits n : ℕ) → n < 2 ^ bits → (parse_uint (format_uint (to_bcd n) 16) 10 bits).0 ≡ n
unfolding format_uint
parse_uint-format_uint-bcd bits n h =
    parse_uint-value _ 10 bits
    ∙ ap (λ s. (parse_digits 10 (2 ^ bits - 1) 0 s).0)
        (format-bcd_loop n (suc (to_bcd n)) (suc n) n [] (omega arith) (omega arith) (omega arith))
    ∙ ap (λ (r : Parsed). r.0)
        (parse-format_loop (2 ^ bits - 1) (suc n) n [] (omega arith) (omega arith))
    ∙ unfold parse_digits in refl

parse_digits-format_uint :
    (limit n : ℕ) → n ≤ limit → parse_digits 10 limit 0 (format_uint n 10) ≡ (n, none)
unfolding format_uint parse_digits
parse_digits-format_uint limit n h = parse-format_loop limit (suc n) n [] h (omega arith)

-- A decimal text is read back.
pub parse_uint-format_uint :
    (bits n : ℕ) → n < 2 ^ bits → parse_uint (format_uint n 10) 10 bits ≡ (n, none)
parse_uint-format_uint bits n h =
    let (c, s, e, _, _) = format_uint-cons n in
    ap (λ t. parse_uint t 10 bits) e
    ∙ parse_uint-cons c s 10 bits
    ∙ ap (parse_digits 10 (2 ^ bits - 1) 0) (sym e)
    ∙ parse_digits-format_uint (2 ^ bits - 1) n (omega arith)
