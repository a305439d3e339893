-- ===== src/Crc/Detect.antt =====
-- Which corruptions the check detects: with an odd polynomial the register is injective.
use mathlib.Core.Logic.{◌≢◌}
use rtlamr.Base.{
  ℕ, zero, suc, ◌+◌, ◌*◌, ◌%◌, ◌^◌, ◌<◌, bit_xor, [], ◌∷◌, ◌++◌, All, ◌≡◌, refl, sym, ap, ap₂, ◌∙◌,
  ◌⊎◌, inl, inr, arith,
}
use rtlamr.Base.Text.{Bytes}
use rtlamr.Base.Xor.{
  bit_xor-lt, bit_xor_comm, bit_xor_assoc, bit_xor_step, bit_xor-zero, zero-bit_xor, bit_xor_self,
  bit_xor_cancel, eq_of_bit_xor-eq-zero, bit_xor-fields,
}
use rtlamr.Crc.{Table, shl16, shift_bit, shift_bits, new_table, next_byte, checksum}
use rtlamr.Crc.Linear.{
  top, feedback, top_range, shift_bit-feedback, shift_bit-lt, shift_bits-lt, shift_bits_low,
  shift_bits-bit_xor, next_byte-shift_bits, next_byte-lt,
}
use rtlamr.Crc.Serial.{IsByte}

pub checksum-append :
    (init : ℕ) (xs ys : Bytes) (t : Table)
    → checksum init (xs ++ ys) t ≡ checksum (checksum init xs t) ys t
unfolding checksum
checksum-append init [] ys t = refl
checksum-append init (x ∷ xs) ys t = checksum-append (next_byte t init x) xs ys t

pub checksum-lt :
    (poly init : ℕ) (xs : Bytes)
    → poly < 2 ^ 16
    → init < 2 ^ 16
    → All IsByte xs
    → checksum init xs (new_table poly) < 2 ^ 16
unfolding checksum
checksum-lt poly init [] hp hi hb = hi
checksum-lt poly init (x ∷ xs) hp hi (hx, hb) =
    checksum-lt poly (next_byte (new_table poly) init x) xs hp (next_byte-lt poly init x hp hi hx)
      hb

-- Two bytes in a row are sixteen steps on the register plus the word that they form.
pub two_bytes :
    (poly c v w : ℕ)
    → poly < 2 ^ 16
    → c < 2 ^ 16
    → v < 256
    → w < 256
    → checksum c (v ∷ w ∷ []) (new_table poly)
      ≡ shift_bits poly 8 (shift_bits poly 8 (bit_xor c (v * 256 + w)))
unfolding checksum
two_bytes poly c v w hp hc hv hw =
    ap (λ (t : ℕ). next_byte (new_table poly) t w) (next_byte-shift_bits poly c v hc hv)
    ∙ next_byte-shift_bits poly _ w
        (shift_bits-lt poly 8 _ hp (bit_xor-lt 16 c (v * 256) hc (omega arith))) hw
    ∙ ap (shift_bits poly 8) (
        ap (bit_xor (shift_bits poly 8 (bit_xor c (v * 256))))
          (sym (shift_bits_low poly 8 w (omega arith)))
        ∙ sym (shift_bits-bit_xor poly 8 (bit_xor c (v * 256)) w)
        ∙ ap (shift_bits poly 8) joined)
  where
    joined : bit_xor (bit_xor c (v * 256)) w ≡ bit_xor c (v * 256 + w)
    joined =
        bit_xor_assoc c (v * 256) w
        ∙ ap (bit_xor c) (
            ap₂ bit_xor {x = v * 256} {y = v * 2 ^ 8 + 0} {u = w} {v = 0 * 2 ^ 8 + w} (omega arith)
              (omega arith)
            ∙ bit_xor-fields 8 v 0 0 w (omega arith) (omega arith)
            ∙ ap₂ ◌+◌ (ap (λ (t : ℕ). t * 256) (bit_xor-zero v)) (zero-bit_xor w))

shift_bit_zero : (poly x : ℕ) → poly % 2 ≡ 1 → x < 2 ^ 16 → shift_bit poly x ≡ 0 → x ≡ 0
shift_bit_zero poly x odd hx e = elim (top_range x) [
  | inl p ↦ omega (arith, bit_xor-zero (shl16 x 1), low p)
  | inr p ↦ absurd (omega (arith, bit_xor_step (shl16 x 1) poly, high p))
]
  where
    low : top x ≡ 0 → bit_xor (shl16 x 1) 0 ≡ 0
    low p =
        ap (λ t. bit_xor (shl16 x 1) (feedback poly t)) (sym p)
        ∙ sym (shift_bit-feedback poly x)
        ∙ e

    high : top x ≡ 1 → bit_xor (shl16 x 1) poly ≡ 0
    high p =
        ap (λ t. bit_xor (shl16 x 1) (feedback poly t)) (sym p)
        ∙ sym (shift_bit-feedback poly x)
        ∙ e

shift_bits_zero :
    (poly n x : ℕ) → poly % 2 ≡ 1 → poly < 2 ^ 16 → x < 2 ^ 16 → shift_bits poly n x ≡ 0 → x ≡ 0
unfolding shift_bits
shift_bits_zero poly zero x odd hp hx e = e
shift_bits_zero poly (suc n) x odd hp hx e =
    shift_bit_zero poly x odd hx
      (shift_bits_zero poly n (shift_bit poly x) odd hp (shift_bit-lt poly x hp) e)

shift_bits_injective :
    (poly n x y : ℕ)
    → poly % 2 ≡ 1
    → poly < 2 ^ 16
    → x < 2 ^ 16
    → y < 2 ^ 16
    → shift_bits poly n x ≡ shift_bits poly n y
    → x ≡ y
shift_bits_injective poly n x y odd hp hx hy e = eq_of_bit_xor-eq-zero x y (
    shift_bits_zero poly n (bit_xor x y) odd hp (bit_xor-lt 16 x y hx hy) (
      shift_bits-bit_xor poly n x y
      ∙ ap (λ (t : ℕ). bit_xor t (shift_bits poly n y)) e
      ∙ bit_xor_self (shift_bits poly n y)))

xor_injective : (a b c : ℕ) → bit_xor a b ≡ bit_xor a c → b ≡ c
xor_injective a b c e = sym (bit_xor_cancel a b) ∙ ap (bit_xor a) e ∙ bit_xor_cancel a c

next_byte_injective :
    (poly c d x : ℕ)
    → poly % 2 ≡ 1
    → poly < 2 ^ 16
    → c < 2 ^ 16
    → d < 2 ^ 16
    → x < 256
    → next_byte (new_table poly) c x ≡ next_byte (new_table poly) d x
    → c ≡ d
next_byte_injective poly c d x odd hp hc hd hx e =
    xor_injective (x * 256) c d (bit_xor_comm (x * 256) c ∙ stepped ∙ bit_xor_comm d (x * 256))
  where
    stepped : bit_xor c (x * 256) ≡ bit_xor d (x * 256)
    stepped =
        shift_bits_injective poly 8 _ _ odd hp (bit_xor-lt 16 c (x * 256) hc (omega arith))
          (bit_xor-lt 16 d (x * 256) hd (omega arith))
          (sym (next_byte-shift_bits poly c x hc hx) ∙ e ∙ next_byte-shift_bits poly d x hd hx)

same_word :
    (poly c v w v' w' : ℕ)
    → poly % 2 ≡ 1
    → poly < 2 ^ 16
    → c < 2 ^ 16
    → v < 256
    → w < 256
    → v' < 256
    → w' < 256
    → checksum c (v ∷ w ∷ []) (new_table poly) ≡ checksum c (v' ∷ w' ∷ []) (new_table poly)
    → ¬ ((v ≢ v') ⊎ (w ≢ w'))
same_word poly c v w v' w' odd hp hc hv hw hv' hw' e differ = ground (arith, words)
  where
    word-lt : (x y : ℕ) → x < 256 → y < 256 → bit_xor c (x * 256 + y) < 2 ^ 16
    word-lt x y hx hy = bit_xor-lt 16 c (x * 256 + y) hc (omega arith)

    once-lt : (x y : ℕ) → x < 256 → y < 256 → shift_bits poly 8 (bit_xor c (x * 256 + y)) < 2 ^ 16
    once-lt x y hx hy = shift_bits-lt poly 8 _ hp (word-lt x y hx hy)

    words : v * 256 + w ≡ v' * 256 + w'
    words = xor_injective c _ _ (
        shift_bits_injective poly 8 _ _ odd hp (word-lt v w hv hw) (word-lt v' w' hv' hw') (
          shift_bits_injective poly 8 _ _ odd hp (once-lt v w hv hw) (once-lt v' w' hv' hw')
            (sym (two_bytes poly c v w hp hc hv hw) ∙ e ∙ two_bytes poly c v' w' hp hc hv' hw')))

-- The same message in two different registers gives different checks.
pub checksum_injective :
    (poly c d : ℕ) (xs : Bytes)
    → poly % 2 ≡ 1
    → poly < 2 ^ 16
    → c < 2 ^ 16
    → d < 2 ^ 16
    → All IsByte xs
    → checksum c xs (new_table poly) ≡ checksum d xs (new_table poly)
    → c ≡ d
unfolding checksum
checksum_injective poly c d [] odd hp hc hd hb e = e
checksum_injective poly c d (x ∷ xs) odd hp hc hd (hx, hb) e =
    next_byte_injective poly c d x odd hp hc hd hx (
      checksum_injective poly (next_byte (new_table poly) c x) (next_byte (new_table poly) d x) xs
        odd hp (next_byte-lt poly c x hp hc hx) (next_byte-lt poly d x hp hd hx) hb e)

-- With an odd polynomial every change of a message within two adjacent bytes, that is, every
-- burst of at most nine bits, changes the check.
pub checksum_burst :
    (poly init v w v' w' : ℕ) (before after : Bytes)
    → poly % 2 ≡ 1
    → poly < 2 ^ 16
    → init < 2 ^ 16
    → All IsByte before
    → All IsByte after
    → v < 256
    → w < 256
    → v' < 256
    → w' < 256
    → (v ≢ v') ⊎ (w ≢ w')
    → checksum init (before ++ v ∷ w ∷ after) (new_table poly)
      ≢ checksum init (before ++ v' ∷ w' ∷ after) (new_table poly)
checksum_burst poly init v w v' w' before after odd hp hi hb ha hv hw hv' hw' differ e =
    same_word poly (checksum init before t) v w v' w' odd hp mid hv hw hv' hw'
      (checksum_injective poly _ _ after odd hp (word-lt v w hv hw) (word-lt v' w' hv' hw') ha
        (sym (parts v w) ∙ e ∙ parts v' w'))
      differ
  where
    t : Table
    t = new_table poly

    mid : checksum init before t < 2 ^ 16
    mid = checksum-lt poly init before hp hi hb

    word-lt :
        (x y : ℕ) → x < 256 → y < 256 → checksum (checksum init before t) (x ∷ y ∷ []) t < 2 ^ 16
    word-lt x y hx hy = checksum-lt poly _ (x ∷ y ∷ []) hp mid (hx, (hy, tt))

    parts :
        (x y : ℕ)
        → checksum init (before ++ x ∷ y ∷ after) t
          ≡ checksum (checksum (checksum init before t) (x ∷ y ∷ []) t) after t
    parts x y =
        checksum-append init before (x ∷ y ∷ after) t
        ∙ checksum-append (checksum init before t) (x ∷ y ∷ []) after t
