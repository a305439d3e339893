-- ===== src/Base/Int.antt =====
-- Signed integers, and `strconv.Atoi` and `strconv.Itoa` on a machine of 64 bits.
use Prim.Native.Nat.{ℕ, zero, suc, ◌-◌, ◌^◌, ◌≤◌, ◌<◌}
use mathlib.Core.Path.{◌≡◌, refl, sym, ap, ◌∙◌}
use mathlib.Core.Bool.{Bool, true, false}
use mathlib.Core.Option.{Option, none, some}
use mathlib.Core.List.{[], ◌∷◌}
use native.Mathlib.Omega.{arith}
use rtlamr.Base.Tests.{ltb, leb, ◌==◌, if◌then◌else◌}
use rtlamr.Base.Text.{Bytes, format_uint}
use rtlamr.Base.Text.Digits.{format_uint-cons}
use rtlamr.Base.Text.Parse.Decimal.{parse_uint-format_uint}
use rtlamr.Base.Text.Parse.{ParseError, syntax, range, Parsed, parse_uint}

pub data ℤ : Type 0 where
  pos : ℕ → ℤ
  negsuc : ℕ → ℤ

-- `a < b`.
unfoldable pub ltz : ℤ → ℤ → Bool
ltz (pos a) (pos b) = ltb a b
ltz (pos a) (negsuc b) = false
ltz (negsuc a) (pos b) = true
ltz (negsuc a) (negsuc b) = ltb b a

unfoldable pub is_zero : ℤ → Bool
is_zero (pos zero) = true
is_zero (pos (suc n)) = false
is_zero (negsuc n) = false

negate : ℕ → ℤ
negate zero = pos 0
negate (suc n) = negsuc n

-- The end of `ParseInt`, for the sign and what `ParseUint` gives: an error of syntax is passed on,
-- and a number out of range becomes the nearest one with an error.
signed : Bool → Parsed → ℤ × Option ParseError
signed neg (n, some syntax) = (pos 0, some syntax)
signed true (n, err) =
    if ltb (2 ^ 63) n then (negsuc (2 ^ 63 - 1), some range) else (negate n, none)
signed false (n, err) = if leb (2 ^ 63) n then (pos (2 ^ 63 - 1), some range) else (pos n, none)

-- `strconv.Atoi`, with both of its results.
unfoldable pub atoi : Bytes → ℤ × Option ParseError
unfolding signed negate
atoi [] = (pos 0, some syntax)
atoi (c ∷ s) =
    if c == b'+'
    then signed false (parse_uint s 10 64)
    else if c == b'-'
    then signed true (parse_uint s 10 64)
    else signed false (parse_uint (c ∷ s) 10 64)

-- `strconv.Itoa`.
unfoldable pub itoa : ℤ → Bytes
itoa (pos n) = format_uint n 10
itoa (negsuc n) = b'-' ∷ format_uint (suc n) 10

-- `a == b`.
unfoldable pub eqz : ℤ → ℤ → Bool
eqz (pos a) (pos b) = a == b
eqz (pos a) (negsuc b) = false
eqz (negsuc a) (pos b) = false
eqz (negsuc a) (negsuc b) = a == b

pub eqz→eq : (a b : ℤ) → eqz a b ≡ true → a ≡ b
unfolding eqz
eqz→eq a b h = ground arith

pub eqz_refl : (a : ℤ) → eqz a a ≡ true
unfolding eqz
eqz_refl a = ground arith

pub ltz_asym : (a b : ℤ) → ltz a b ≡ true → ltz b a ≡ false
unfolding ltz
ltz_asym a b h = ground arith

pub ltz_trans : (a b c : ℤ) → ltz a b ≡ true → ltz b c ≡ true → ltz a c ≡ true
unfolding ltz
ltz_trans a b c h k = ground arith

pub ltz_total : (a b : ℤ) → eqz a b ≡ false → ltz a b ≡ false → ltz b a ≡ true
unfolding ltz eqz
ltz_total a b h k = ground arith

signed-plain :
    (c : ℕ) (s : Bytes) → b'0' ≤ c → atoi (c ∷ s) ≡ signed false (parse_uint (c ∷ s) 10 64)
unfolding atoi
signed-plain c s lo = rw (no_plus, no_minus) refl
  where
    no_plus : (c == b'+') ≡ false
    no_plus = ground arith

    no_minus : (c == b'-') ≡ false
    no_minus = ground arith

signed-fits : (n : ℕ) → n < 2 ^ 63 → signed false (n, none) ≡ (pos n, none)
unfolding signed
signed-fits n h = let e : leb (2 ^ 63) n ≡ false = ground arith in rw e refl

-- A number that an int holds is read back.
pub atoi-format_uint : (n : ℕ) → n < 2 ^ 63 → atoi (format_uint n 10) ≡ (pos n, none)
atoi-format_uint n h =
    let (c, s, e, lo, hi) = format_uint-cons n in
    ap atoi e
    ∙ signed-plain c s lo
    ∙ ap (λ t. signed false (parse_uint t 10 64)) (sym e)
    ∙ ap (signed false) (parse_uint-format_uint 64 n (omega arith))
    ∙ signed-fits n h
