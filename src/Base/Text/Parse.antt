-- ===== src/Base/Text/Parse.antt =====
-- `strconv.ParseUint`, with both of its results: the value, and the error if there is one.
pub mod Decimal
pub mod Hex
use Prim.Native.Nat.{ℕ, zero, suc, ◌+◌, ◌-◌, ◌*◌, ◌/◌, ◌%◌, ◌^◌, ◌≤◌, ◌<◌}
use mathlib.Core.Path.{◌≡◌, refl, ◌∙◌, ap}
use mathlib.Core.Bool.{◌&&◌}
use mathlib.Core.Option.{Option, none, some}
use mathlib.Core.List.{[], ◌∷◌}
use native.Mathlib.Nat.{
  le_trans, le-mul_of_pos_right, two-pow-succ, one-le-pow, mod-lt, mod-eq_of_lt, div-add-mod',
  mul-add-mod_self_right,
}
use native.Mathlib.Omega.{arith}
use rtlamr.Base.Tests.{ltb, leb, if◌then◌else◌}
use rtlamr.Base.Text.{Bytes, bin, codes}

pub data ParseError : Type 0 where
  syntax range : ParseError

abbrev pub Parsed : Type 0
Parsed = ℕ × Option ParseError

digit_value : ℕ → Option ℕ
digit_value c =
    if leb b'0' c && leb c b'9'
    then some (c - b'0')
    else if leb b'a' c && leb c b'z'
    then some (c - b'a' + 10)
    else if leb b'A' c && leb c b'Z'
    then some (c - b'A' + 10)
    else none

-- The loop of `ParseUint` with the value so far. Its test against `cutoff` and its tests after
-- the addition come to one: the exact next value exceeds `limit`, the largest of the bit size.
pub parse_digits : ℕ → ℕ → ℕ → Bytes → Parsed
parse_digits base limit n [] = (n, none)
parse_digits base limit n (c ∷ s) = elim (digit_value c) [
  | none ↦ (0, some syntax)
  | some d ↦
      let n' = n * base + d in
      let rest = parse_digits base limit n' s in
      if leb base d then (0, some syntax) else if ltb limit n' then (limit, some range) else rest
]

-- `strconv.ParseUint(s, base, bits)` for a base from 2 to 36 and a bit size from 1 to 64.
unfoldable pub parse_uint : Bytes → ℕ → ℕ → Parsed
unfolding parse_digits digit_value
parse_uint [] base bits = (0, some syntax)
parse_uint (c ∷ s) base bits = parse_digits base (2 ^ bits - 1) 0 (c ∷ s)

digit_value_bit : (v : ℕ) → digit_value (b'0' + v % 2) ≡ some (v % 2)
unfolding digit_value
digit_value_bit v = ground arith

-- The next binary digit and the digits below it.
pub mod-two-pow-suc : (k v : ℕ) → v % 2 ^ suc k ≡ v / 2 ^ k % 2 * 2 ^ k + v % 2 ^ k
mod-two-pow-suc k v =
    ap (λ (t : ℕ). t % 2 ^ suc k) digits
    ∙ mul-add-mod_self_right (v / 2 ^ k / 2) (2 ^ suc k) (v / 2 ^ k % 2 * 2 ^ k + v % 2 ^ k)
    ∙ mod-eq_of_lt bounded
  where
    low : v % 2 ^ k < 2 ^ k
    low = mod-lt v (one-le-pow k 2 (omega arith))

    bounded : v / 2 ^ k % 2 * 2 ^ k + v % 2 ^ k < 2 ^ suc k
    bounded = grind (arith, low, two-pow-succ k)

    digits : v ≡ v / 2 ^ k / 2 * 2 ^ suc k + (v / 2 ^ k % 2 * 2 ^ k + v % 2 ^ k)
    digits = omega (
      arith,
      div-add-mod' v (2 ^ k),
      ap (λ (t : ℕ). v / 2 ^ k / 2 * t) (two-pow-succ k),
      ap (λ (t : ℕ). t * 2 ^ k) (div-add-mod' (v / 2 ^ k) 2),
    )

parse_digits_bit :
    (limit n v : ℕ) (s : Bytes)
    → n * 2 + v % 2 ≤ limit
    → parse_digits 2 limit n ((b'0' + v % 2) ∷ s) ≡ parse_digits 2 limit (n * 2 + v % 2) s
unfolding parse_digits
parse_digits_bit limit n v s h = rw (digit_value_bit v, parse_digits) (ground arith)

parse_digits-bin :
    (k limit n v : ℕ)
    → n * 2 ^ k + v % 2 ^ k ≤ limit
    → parse_digits 2 limit n (bin k v) ≡ (n * 2 ^ k + v % 2 ^ k, none)
parse_digits-bin zero limit n v h = unfold parse_digits in ap (λ (t : ℕ). (t, none)) (omega arith)
parse_digits-bin (suc k) limit n v h =
    parse_digits_bit limit n (v / 2 ^ k) (bin k v) (
      le_trans
        (le-mul_of_pos_right {m = 2 ^ k} (n * 2 + v / 2 ^ k % 2) (one-le-pow k 2 (omega arith)))
        below)
    ∙ parse_digits-bin k limit (n * 2 + v / 2 ^ k % 2) v fits
    ∙ ap (λ (t : ℕ). (t, none)) same
  where
    same : (n * 2 + v / 2 ^ k % 2) * 2 ^ k + v % 2 ^ k ≡ n * 2 ^ suc k + v % 2 ^ suc k
    same = omega (arith, mod-two-pow-suc k v, ap (λ (t : ℕ). n * t) (two-pow-succ k))

    fits : (n * 2 + v / 2 ^ k % 2) * 2 ^ k + v % 2 ^ k ≤ limit
    fits = omega (arith, same)

    below : (n * 2 + v / 2 ^ k % 2) * 2 ^ k ≤ limit
    below = omega (arith, fits)

parse_uint-cons :
    (c : ℕ) (s : Bytes) (base bits : ℕ)
    → parse_uint (c ∷ s) base bits ≡ parse_digits base (2 ^ bits - 1) 0 (c ∷ s)
unfolding parse_uint
parse_uint-cons c s base bits = refl

-- Reading the w binary digits of a number gives its last w bits back.
pub parse_uint-bin : (w v : ℕ) → 0 < w → parse_uint (bin w v) 2 w ≡ (v % 2 ^ w, none)
parse_uint-bin zero v h = absurd (omega arith)
parse_uint-bin (suc k) v h =
    parse_uint-cons _ _ 2 (suc k)
    ∙ parse_digits-bin (suc k) (2 ^ suc k - 1) 0 v
        (omega (arith, mod-lt v (one-le-pow (suc k) 2 (omega arith))))
    ∙ ap (λ (t : ℕ). (t, none)) (omega arith)

seven_bits : parse_uint (codes "1000001") 2 7 ≡ (65, none)
unfolding parse_uint
seven_bits = refl

refusals :
    (parse_uint (codes "") 10 32 ≡ (0, some syntax))
    × (parse_uint (codes "12a") 10 32 ≡ (0, some syntax))
    × (parse_uint (codes "4294967296") 10 32 ≡ (4294967295, some range))
    × (parse_uint (codes "fF") 16 8 ≡ (255, none))
unfolding parse_uint
refusals = (refl, refl, refl, refl)
