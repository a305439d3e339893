-- ===== src/Crc/Linear.antt =====
-- The shift register is linear over exclusive or, and a table entry is eight of its steps.
use native.Mathlib.Nat.{two-pow-succ, one-le-pow, le-mul_of_pos_right, mod-lt}
use rtlamr.Base.{
  ℕ, zero, suc, ◌+◌, ◌*◌, ◌/◌, ◌%◌, ◌^◌, ◌<◌, bit_xor, ◌==◌, get_or, if◌then◌else◌, ◌≡◌, refl, sym,
  ap, ap₂, ◌∙◌, ◌⊎◌, inl, inr, arith,
}
use rtlamr.Base.Xor.{
  bit_xor-lt, bit_xor_comm, bit_xor_assoc, bit_xor_left_comm, bit_xor-mod, bit_xor-div,
  bit_xor-shift, bit_xor-zero, zero-bit_xor, bit_xor_self, bit_and-two-pow, bit_xor-fields,
}
use rtlamr.Crc.{shl16, shift_bit, shift_bits, entry, entries, new_table, next_byte}

-- The highest of the sixteen bits.
abbrev pub top : ℕ → ℕ
top x = x / 2 ^ 15 % 2

-- The feedback of a register that shifts out `b`.
abbrev pub feedback : ℕ → ℕ → ℕ
feedback poly b = if b == 1 then poly else 0

pub top_range : (x : ℕ) → (top x ≡ 0) ⊎ (top x ≡ 1)
top_range x = omega arith

pub shift_bit-feedback :
    (poly x : ℕ) → shift_bit poly x ≡ bit_xor (shl16 x 1) (feedback poly (top x))
unfolding shift_bit
shift_bit-feedback poly x = elim (top_range x) [
  | inl e ↦ ground (arith, bit_and-two-pow 15 x, bit_xor-zero (shl16 x 1), e)
  | inr e ↦ ground (arith, bit_and-two-pow 15 x, bit_xor-zero (shl16 x 1), e)
]

pub shl16-bit_xor : (k a b : ℕ) → shl16 (bit_xor a b) k ≡ bit_xor (shl16 a k) (shl16 b k)
shl16-bit_xor k a b =
    ap (λ (t : ℕ). t % 2 ^ 16) (sym (bit_xor-shift k a b)) ∙ bit_xor-mod 16 (a * 2 ^ k) (b * 2 ^ k)

pub top-bit_xor : (a b : ℕ) → top (bit_xor a b) ≡ bit_xor (top a) (top b)
top-bit_xor a b =
    ap (λ (t : ℕ). t % 2) (bit_xor-div 15 a b) ∙ bit_xor-mod 1 (a / 2 ^ 15) (b / 2 ^ 15)

feedback-bit_xor :
    (poly a b : ℕ)
    → feedback poly (bit_xor (top a) (top b))
      ≡ bit_xor (feedback poly (top a)) (feedback poly (top b))
feedback-bit_xor poly a b = elim (top_range a) [
  | inl p ↦ elim (top_range b) [
    | inl q ↦ rw (p, q) (sym (zero-bit_xor 0))
    | inr q ↦ rw (p, q) (sym (zero-bit_xor poly))
  ]
  | inr p ↦ elim (top_range b) [
    | inl q ↦ rw (p, q) (sym (bit_xor-zero poly))
    | inr q ↦ rw (p, q) (sym (bit_xor_self poly))
  ]
]

pub xor_interchange :
    (a b c d : ℕ) → bit_xor (bit_xor a b) (bit_xor c d) ≡ bit_xor (bit_xor a c) (bit_xor b d)
xor_interchange a b c d =
    bit_xor_assoc a b (bit_xor c d)
    ∙ ap (bit_xor a) (bit_xor_left_comm b c d)
    ∙ sym (bit_xor_assoc a c (bit_xor b d))

-- A step of the register on a sum is the sum of the steps.
pub shift_bit-bit_xor :
    (poly a b : ℕ) → shift_bit poly (bit_xor a b) ≡ bit_xor (shift_bit poly a) (shift_bit poly b)
shift_bit-bit_xor poly a b =
    shift_bit-feedback poly (bit_xor a b)
    ∙ ap₂ bit_xor (shl16-bit_xor 1 a b)
        (ap (feedback poly) (top-bit_xor a b) ∙ feedback-bit_xor poly a b)
    ∙ xor_interchange (shl16 a 1) (shl16 b 1) (feedback poly (top a)) (feedback poly (top b))
    ∙ sym (ap₂ bit_xor (shift_bit-feedback poly a) (shift_bit-feedback poly b))

pub shift_bits-bit_xor :
    (poly n a b : ℕ)
    → shift_bits poly n (bit_xor a b) ≡ bit_xor (shift_bits poly n a) (shift_bits poly n b)
unfolding shift_bits
shift_bits-bit_xor poly zero a b = refl
shift_bits-bit_xor poly (suc n) a b =
    ap (shift_bits poly n) (shift_bit-bit_xor poly a b)
    ∙ shift_bits-bit_xor poly n (shift_bit poly a) (shift_bit poly b)

shift_bit_low : (poly x : ℕ) → x < 2 ^ 15 → shift_bit poly x ≡ x * 2
shift_bit_low poly x h =
    shift_bit-feedback poly x
    ∙ ap₂ bit_xor {y = x * 2} (omega arith)
        (ap (feedback poly) (let e : top x ≡ 0 = omega arith in e))
    ∙ bit_xor-zero (x * 2)

-- Steps that lose no bit only shift.
pub shift_bits_low : (poly n x : ℕ) → x * 2 ^ n < 2 ^ 16 → shift_bits poly n x ≡ x * 2 ^ n
unfolding shift_bits
shift_bits_low poly zero x h = omega arith
shift_bits_low poly (suc n) x h =
    ap (shift_bits poly n) (shift_bit_low poly x small)
    ∙ shift_bits_low poly n (x * 2) (omega (arith, double))
    ∙ omega (arith, double)
  where
    double : x * 2 ^ suc n ≡ 2 * (x * 2 ^ n)
    double = omega (arith, ap (λ (t : ℕ). x * t) (two-pow-succ n))

    small : x < 2 ^ 15
    small = omega (arith, double, le-mul_of_pos_right {m = 2 ^ n} x (one-le-pow n 2 (omega arith)))

get_or-entries :
    (poly left t i : ℕ) → i < left → get_or (entries poly left t) i 0 ≡ entry poly (t + i)
unfolding entries
get_or-entries poly zero t i h = absurd (omega arith)
get_or-entries poly (suc left) t zero h = ap (entry poly) (omega arith)
get_or-entries poly (suc left) t (suc i) h =
    get_or-entries poly left (suc t) i (omega arith) ∙ ap (entry poly) (omega arith)

-- A round of `Checksum` adds the byte to the high half of the register and steps it eight times.
pub next_byte-shift_bits :
    (poly crc v : ℕ)
    → crc < 2 ^ 16
    → v < 256
    → next_byte (new_table poly) crc v ≡ shift_bits poly 8 (bit_xor crc (v * 256))
unfolding next_byte new_table
next_byte-shift_bits poly crc v hc hv =
    ap₂ bit_xor {y = lo * 256} (omega arith) looked_up
    ∙ bit_xor_comm (lo * 256) (shift_bits poly 8 (idx * 256))
    ∙ ap (bit_xor (shift_bits poly 8 (idx * 256))) (sym (shift_bits_low poly 8 lo (omega arith)))
    ∙ sym (shift_bits-bit_xor poly 8 (idx * 256) lo)
    ∙ ap (shift_bits poly 8) (sym joined)
  where
    lo : ℕ
    lo = crc % 256

    idx : ℕ
    idx = bit_xor (crc / 2 ^ 8) v

    idx-lt : idx < 2 ^ 8
    idx-lt = bit_xor-lt 8 (crc / 2 ^ 8) v (omega arith) hv

    looked_up : get_or (entries poly 256 0) idx 0 ≡ shift_bits poly 8 (idx * 256)
    looked_up =
        get_or-entries poly 256 0 idx idx-lt
        ∙ unfold entry in ap (shift_bits poly 8) (omega (arith, idx-lt))

    joined : bit_xor crc (v * 256) ≡ bit_xor (idx * 256) lo
    joined =
        ap₂ bit_xor {y = crc / 2 ^ 8 * 2 ^ 8 + lo} {v = v * 2 ^ 8 + 0} (omega arith) (omega arith)
        ∙ bit_xor-fields 8 (crc / 2 ^ 8) v lo 0 (omega arith) (omega arith)
        ∙ ap₂ ◌+◌ (ap (λ (t : ℕ). t * 2 ^ 8) (sym (bit_xor-zero idx))) (bit_xor_comm lo 0)
        ∙ sym (bit_xor-fields 8 idx 0 0 lo (omega arith) (omega arith))
        ∙ ap₂ bit_xor {y = idx * 256} {v = lo} (omega arith) (omega arith)

pub shift_bit-lt : (poly x : ℕ) → poly < 2 ^ 16 → shift_bit poly x < 2 ^ 16
unfolding shift_bit
shift_bit-lt poly x h =
    ground (arith, bit_xor-lt 16 (shl16 x 1) poly, mod-lt (x * 2) {m = 2 ^ 16} (omega arith))

pub shift_bits-lt : (poly n x : ℕ) → poly < 2 ^ 16 → x < 2 ^ 16 → shift_bits poly n x < 2 ^ 16
unfolding shift_bits
shift_bits-lt poly zero x hp hx = hx
shift_bits-lt poly (suc n) x hp hx =
    shift_bits-lt poly n (shift_bit poly x) hp (shift_bit-lt poly x hp)

-- The register stays a uint16.
pub next_byte-lt :
    (poly crc v : ℕ)
    → poly < 2 ^ 16
    → crc < 2 ^ 16
    → v < 256
    → next_byte (new_table poly) crc v < 2 ^ 16
next_byte-lt poly crc v hp hc hv =
    rw (next_byte-shift_bits poly crc v hc hv)
      (shift_bits-lt poly 8 _ hp (bit_xor-lt 16 crc (v * 256) hc (omega arith)))
