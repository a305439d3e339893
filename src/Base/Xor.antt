-- ===== src/Base/Xor.antt =====
-- Laws of `bit_xor` and of single-bit tests at every width, from the digit recursion that the
-- native operations stand for.
use Prim.Native.Nat.{
  ℕ, zero, suc, ◌+◌, ◌*◌, ◌/◌, ◌%◌, ◌^◌, ◌≤◌, ◌<◌, min, max, differ, digits, bitwise, bit_and,
  bit_or, bit_xor, bit_and-bitwise, bit_or-bitwise, bit_xor-bitwise,
}
use mathlib.Core.Path.{◌≡◌, refl, sym, ap, ap₂, ◌∙◌}
use native.Mathlib.Nat.{
  le_refl, add-zero, two-pow-succ, mod-lt, mod-eq_of_lt, div-eq_of_lt, div-add-mod',
  mul-add-mod_self_right, mul-add-div_right, div-div-eq-div-mul,
}
use native.Mathlib.Omega.{arith}
use mathlib.Core.Logic.{inl, inr}
use rtlamr.Base.Order.{lt-two-pow}
use rtlamr.Base.Tests.{◌==◌, ==_iff, Bool-cases}

-- The digit recursion needs no more fuel than its first argument.
module _ (z : ℕ → ℕ) (f : ℕ → ℕ → ℕ) where
  one_more : (fuel x y : ℕ) → x ≤ fuel → digits z f (suc fuel) x y ≡ digits z f fuel x y
  one_more zero zero y h = refl
  one_more zero (suc x) y h = absurd (omega arith)
  one_more (suc fuel) zero y h = refl
  one_more (suc fuel) (suc x) y h =
      ap (λ t. t * 2 + f (suc x % 2) (y % 2)) (one_more fuel (suc x / 2) (y / 2) (omega arith))

  enough : (fuel x y : ℕ) → x ≤ fuel → digits z f fuel x y ≡ bitwise z f x y
  enough zero zero y h = refl
  enough zero (suc x) y h = absurd (omega arith)
  enough (suc fuel) x y h = elim (Bool-cases (x == suc fuel)) [
    | inl all ↦ ap (λ n. digits z f n x y) (sym ((==_iff x (suc fuel)).0 all))
    | inr less ↦ let le : x ≤ fuel = ground arith in one_more fuel x y le ∙ enough fuel x y le
  ]

  digit :
      (x y : ℕ)
      → bitwise z f (suc x) y ≡ bitwise z f (suc x / 2) (y / 2) * 2 + f (suc x % 2) (y % 2)
  digit x y = ap (λ t. t * 2 + f (suc x % 2) (y % 2)) (enough x (suc x / 2) (y / 2) (omega arith))

and_digit : (x y : ℕ) → bit_and x y ≡ bit_and (x / 2) (y / 2) * 2 + min (x % 2) (y % 2)
and_digit zero y = simp bit_and-bitwise (omega arith)
and_digit (suc x) y = simp bit_and-bitwise (digit (λ v. 0) min x y)

bit_xor_digit : (a b : ℕ) → bit_xor a b ≡ bit_xor (a / 2) (b / 2) * 2 + differ (a % 2) (b % 2)
bit_xor_digit zero b = simp bit_xor-bitwise (omega arith)
bit_xor_digit (suc a) b = simp bit_xor-bitwise (digit (λ y. y) differ a b)

differ_digit : (a b : ℕ) → differ (a % 2) (b % 2) ≡ (a + b) % 2
differ_digit a b = go (a % 2) (b % 2) (omega arith) (omega arith) ∙ omega arith
  where
    go : (x y : ℕ) → x < 2 → y < 2 → differ x y ≡ (x + y) % 2
    go zero y p q = omega arith
    go (suc zero) zero p q = refl
    go (suc zero) (suc zero) p q = refl
    go (suc zero) (suc (suc y)) p q = absurd (omega arith)
    go (suc (suc x)) y p q = absurd (omega arith)

-- The lowest digit of an exclusive or is the parity of the sum.
pub bit_xor_step : (a b : ℕ) → bit_xor a b ≡ bit_xor (a / 2) (b / 2) * 2 + (a + b) % 2
bit_xor_step a b =
    bit_xor_digit a b ∙ ap (λ (d : ℕ). bit_xor (a / 2) (b / 2) * 2 + d) (differ_digit a b)

pub zero-bit_xor : (b : ℕ) → bit_xor 0 b ≡ b
zero-bit_xor b = bit_xor-bitwise 0 b

pub bit_xor-lt : (k a b : ℕ) → a < 2 ^ k → b < 2 ^ k → bit_xor a b < 2 ^ k
bit_xor-lt zero zero zero p q = omega arith
bit_xor-lt zero zero (suc b) p q = absurd (omega arith)
bit_xor-lt zero (suc a) b p q = absurd (omega arith)
bit_xor-lt (suc k) a b p q = omega (
  arith,
  two-pow-succ k,
  bit_xor_step a b,
  bit_xor-lt k (a / 2) (b / 2) (omega (arith, two-pow-succ k)) (omega (arith, two-pow-succ k)),
)

comm_below : (k a b : ℕ) → a < 2 ^ k → b < 2 ^ k → bit_xor a b ≡ bit_xor b a
comm_below zero zero zero p q = refl
comm_below zero zero (suc b) p q = absurd (omega arith)
comm_below zero (suc a) b p q = absurd (omega arith)
comm_below (suc k) a b p q = omega (
  arith,
  bit_xor_step a b,
  bit_xor_step b a,
  comm_below k (a / 2) (b / 2) (omega (arith, two-pow-succ k)) (omega (arith, two-pow-succ k)),
)

half_xor : (x y : ℕ) → bit_xor x y / 2 ≡ bit_xor (x / 2) (y / 2)
half_xor x y = omega (arith, bit_xor_step x y)

step-left :
    (a b c : ℕ)
    → bit_xor (bit_xor a b) c
      ≡ bit_xor (bit_xor (a / 2) (b / 2)) (c / 2) * 2 + (bit_xor a b + c) % 2
step-left a b c =
    bit_xor_step (bit_xor a b) c
    ∙ ap (λ (t : ℕ). bit_xor t (c / 2) * 2 + (bit_xor a b + c) % 2) (half_xor a b)

step-right :
    (a b c : ℕ)
    → bit_xor a (bit_xor b c)
      ≡ bit_xor (a / 2) (bit_xor (b / 2) (c / 2)) * 2 + (a + bit_xor b c) % 2
step-right a b c =
    bit_xor_step a (bit_xor b c)
    ∙ ap (λ (t : ℕ). bit_xor (a / 2) t * 2 + (a + bit_xor b c) % 2) (half_xor b c)

-- A number shifted by one place more is the double of the number shifted.
shift_once : (m width : ℕ) → m * 2 ^ suc width ≡ m * 2 ^ width * 2
shift_once m width = ap (◌*◌ m) (two-pow-succ width) ∙ omega arith

assoc_below :
    (k a b c : ℕ)
    → a < 2 ^ k
    → b < 2 ^ k
    → c < 2 ^ k
    → bit_xor (bit_xor a b) c ≡ bit_xor a (bit_xor b c)
assoc_below zero zero zero zero p q r = refl
assoc_below zero zero zero (suc c) p q r = absurd (omega arith)
assoc_below zero zero (suc b) c p q r = absurd (omega arith)
assoc_below zero (suc a) b c p q r = absurd (omega arith)
assoc_below (suc k) a b c p q r = omega (
  arith,
  bit_xor_step a b,
  bit_xor_step b c,
  step-left a b c,
  step-right a b c,
  assoc_below k (a / 2) (b / 2) (c / 2) (omega (arith, two-pow-succ k))
      (omega (arith, two-pow-succ k)) (omega (arith, two-pow-succ k)),
)

pub bit_xor_comm : (a b : ℕ) → bit_xor a b ≡ bit_xor b a
bit_xor_comm a b =
    comm_below (a + b) a b (omega (arith, lt-two-pow (a + b))) (omega (arith, lt-two-pow (a + b)))

pub bit_xor_assoc : (a b c : ℕ) → bit_xor (bit_xor a b) c ≡ bit_xor a (bit_xor b c)
bit_xor_assoc a b c =
    assoc_below (a + b + c) a b c (omega (arith, lt-two-pow (a + b + c)))
      (omega (arith, lt-two-pow (a + b + c))) (omega (arith, lt-two-pow (a + b + c)))

pub bit_xor_left_comm : (a b c : ℕ) → bit_xor a (bit_xor b c) ≡ bit_xor b (bit_xor a c)
bit_xor_left_comm a b c =
    sym (bit_xor_assoc a b c) ∙ ap (λ (t : ℕ). bit_xor t c) (bit_xor_comm a b) ∙ bit_xor_assoc b a c

self_below : (k a : ℕ) → a < 2 ^ k → bit_xor a a ≡ 0
self_below zero zero p = refl
self_below zero (suc a) p = absurd (omega arith)
self_below (suc k) a p =
    omega (arith, bit_xor_step a a, self_below k (a / 2) (omega (arith, two-pow-succ k)))

pub bit_xor_self : (a : ℕ) → bit_xor a a ≡ 0
bit_xor_self a = self_below a a (lt-two-pow a)

pub bit_xor-zero : (a : ℕ) → bit_xor a 0 ≡ a
bit_xor-zero a = bit_xor_comm a 0 ∙ zero-bit_xor a

pub bit_xor_cancel : (a b : ℕ) → bit_xor a (bit_xor a b) ≡ b
bit_xor_cancel a b =
    sym (bit_xor_assoc a a b) ∙ ap (λ (t : ℕ). bit_xor t b) (bit_xor_self a) ∙ zero-bit_xor b

-- Equal sums have equal summands.
pub eq_of_bit_xor-eq-zero : (a b : ℕ) → bit_xor a b ≡ 0 → a ≡ b
eq_of_bit_xor-eq-zero a b h = sym (bit_xor-zero a) ∙ ap (bit_xor a) (sym h) ∙ bit_xor_cancel a b

-- The digits above and below position `k` do not meet.
pub bit_xor-fields :
    (k p q r s : ℕ)
    → r < 2 ^ k
    → s < 2 ^ k
    → bit_xor (p * 2 ^ k + r) (q * 2 ^ k + s) ≡ bit_xor p q * 2 ^ k + bit_xor r s
bit_xor-fields zero p q zero zero hr hs = ground (arith)
bit_xor-fields zero p q zero (suc s) hr hs = absurd (omega arith)
bit_xor-fields zero p q (suc r) s hr hs = absurd (omega arith)
bit_xor-fields (suc k) p q r s hr hs = ground (
  arith,
  bit_xor_step (p * 2 ^ suc k + r) (q * 2 ^ suc k + s),
  bit_xor_step r s,
  shift_once p k,
  shift_once q k,
  shift_once (bit_xor p q) k,
  two-pow-succ k,
  bit_xor-fields k p q (r / 2) (s / 2),
)

two_pow_pos : (k : ℕ) → 0 < 2 ^ k
two_pow_pos k = omega (arith, lt-two-pow k)

module _ (k : ℕ) where
  split : (a : ℕ) → a / 2 ^ k * 2 ^ k + a % 2 ^ k ≡ a
  split a = div-add-mod' a (2 ^ k)

  bit_xor_split :
      (a b : ℕ)
      → bit_xor a b ≡ bit_xor (a / 2 ^ k) (b / 2 ^ k) * 2 ^ k + bit_xor (a % 2 ^ k) (b % 2 ^ k)
  bit_xor_split a b =
      ap₂ bit_xor (sym (split a)) (sym (split b))
      ∙ bit_xor-fields k (a / 2 ^ k) (b / 2 ^ k) (a % 2 ^ k) (b % 2 ^ k) (mod-lt a (two_pow_pos k))
          (mod-lt b (two_pow_pos k))

  mod_xor-lt : (a b : ℕ) → bit_xor (a % 2 ^ k) (b % 2 ^ k) < 2 ^ k
  mod_xor-lt a b =
      bit_xor-lt k (a % 2 ^ k) (b % 2 ^ k) (mod-lt a (two_pow_pos k)) (mod-lt b (two_pow_pos k))

  pub bit_xor-mod : (a b : ℕ) → bit_xor a b % 2 ^ k ≡ bit_xor (a % 2 ^ k) (b % 2 ^ k)
  bit_xor-mod a b =
      ap (λ (t : ℕ). t % 2 ^ k) (bit_xor_split a b)
      ∙ mul-add-mod_self_right (bit_xor (a / 2 ^ k) (b / 2 ^ k)) (2 ^ k)
          (bit_xor (a % 2 ^ k) (b % 2 ^ k))
      ∙ mod-eq_of_lt (mod_xor-lt a b)

  pub bit_xor-div : (a b : ℕ) → bit_xor a b / 2 ^ k ≡ bit_xor (a / 2 ^ k) (b / 2 ^ k)
  bit_xor-div a b =
      ap (λ (t : ℕ). t / 2 ^ k) (bit_xor_split a b)
      ∙ mul-add-div_right (two_pow_pos k) (bit_xor (a / 2 ^ k) (b / 2 ^ k))
          (bit_xor (a % 2 ^ k) (b % 2 ^ k))
      ∙ omega (arith, div-eq_of_lt (mod_xor-lt a b))

  pub bit_xor-shift : (a b : ℕ) → bit_xor (a * 2 ^ k) (b * 2 ^ k) ≡ bit_xor a b * 2 ^ k
  bit_xor-shift a b =
      ap₂ bit_xor (sym (add-zero (a * 2 ^ k))) (sym (add-zero (b * 2 ^ k)))
      ∙ bit_xor-fields k a b 0 0 (two_pow_pos k) (two_pow_pos k)
      ∙ omega (arith, zero-bit_xor 0)

bit_and-zero : (n a : ℕ) → a ≤ n → bit_and a 0 ≡ 0
bit_and-zero n zero h = refl
bit_and-zero zero (suc a) h = absurd (omega arith)
bit_and-zero (suc n) (suc a) h =
    omega (arith, and_digit (suc a) 0, bit_and-zero n (suc a / 2) (omega arith))

-- A test of one bit.
pub bit_and-two-pow : (k a : ℕ) → bit_and a (2 ^ k) ≡ a / 2 ^ k % 2 * 2 ^ k
bit_and-two-pow zero a = omega (arith, and_digit a 1, bit_and-zero (a / 2) (a / 2) (le_refl _))
bit_and-two-pow (suc k) a = ground (
  arith,
  and_digit a (2 ^ suc k),
  two-pow-succ k,
  bit_and-two-pow k (a / 2),
  div-div-eq-div-mul a 2 (2 ^ k),
  shift_once (a / 2 ^ suc k % 2) k,
)

-- `x << 1 | b` for a bit `b`.
bit_or_digit : (x y : ℕ) → bit_or x y ≡ max (x % 2) (y % 2) + bit_or (x / 2) (y / 2) * 2
bit_or_digit zero y = simp bit_or-bitwise (omega arith)
bit_or_digit (suc x) y = simp bit_or-bitwise (omega (arith, digit (λ v. v) max x y))

bit_or-zero : (n a : ℕ) → a ≤ n → bit_or a 0 ≡ a
bit_or-zero n zero h = refl
bit_or-zero zero (suc a) h = absurd (omega arith)
bit_or-zero (suc n) (suc a) h =
    omega (arith, bit_or_digit (suc a) 0, bit_or-zero n (suc a / 2) (omega arith))

pub bit_or-append : (a b : ℕ) → b < 2 → bit_or (a * 2) b ≡ a * 2 + b
bit_or-append a b h = ground (arith, bit_or_digit (a * 2) b, bit_or-zero a a (le_refl _))

-- `(q << k) | r` for a value `r` of k bits.
pub bit_or_fields : (k q r : ℕ) → r < 2 ^ k → bit_or (q * 2 ^ k) r ≡ q * 2 ^ k + r
bit_or_fields zero q zero h = ground (arith, bit_or-zero q q (le_refl _))
bit_or_fields zero q (suc r) h = absurd (omega arith)
bit_or_fields (suc k) q r h = ground (
  arith,
  bit_or_digit (q * 2 ^ suc k) r,
  shift_once q k,
  two-pow-succ k,
  bit_or_fields k q (r / 2),
)
