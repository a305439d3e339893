-- ===== src/Crc/Serial.antt =====
-- The bit-serial description of the check, and `Checksum` as an implementation of it.
use rtlamr.Base.{
  ℕ, zero, suc, ◌-◌, ◌*◌, ◌^◌, ◌<◌, bit_xor, [], ◌∷◌, ◌++◌, All, ◌≡◌, refl, sym, ap, ap₂, ◌∙◌,
  arith,
}
use rtlamr.Base.Text.{Bytes, bin}
use rtlamr.Base.Xor.{bit_xor_comm, bit_xor_assoc, bit_xor-zero}
use rtlamr.Crc.{shl16, shift_bit, shift_bits, new_table, next_byte, checksum}
use rtlamr.Crc.Linear.{
  top, feedback, shift_bit-feedback, next_byte-shift_bits, next_byte-lt, shl16-bit_xor, top-bit_xor,
}

-- A linear feedback shift register of sixteen bits that takes one message bit.
pub clock : ℕ → ℕ → ℕ → ℕ
clock poly reg b = bit_xor (shl16 reg 1) (feedback poly (bit_xor (top reg) b))

-- The register after the bits of a message, each `'0'` or `'1'`.
pub serial : ℕ → ℕ → Bytes → ℕ
serial poly reg [] = reg
serial poly reg (c ∷ s) = serial poly (clock poly reg (c - b'0')) s

abbrev pub IsByte : ℕ → Type 0
IsByte v = v < 256

-- The message as the program prints it: eight digits for each byte.
abbrev pub bits : Bytes → Bytes
bits [] = []
bits (v ∷ bytes) = bin 8 v ++ bits bytes

-- Adding the pending bits to the register first, and clocking the highest of them, come to one.
clock_pending :
    (poly reg w : ℕ) → shift_bit poly (bit_xor reg w) ≡ bit_xor (clock poly reg (top w)) (shl16 w 1)
unfolding clock
clock_pending poly reg w =
    shift_bit-feedback poly (bit_xor reg w)
    ∙ ap₂ bit_xor (shl16-bit_xor 1 reg w) (ap (feedback poly) (top-bit_xor reg w))
    ∙ bit_xor_assoc (shl16 reg 1) (shl16 w 1) (feedback poly (bit_xor (top reg) (top w)))
    ∙ ap (bit_xor (shl16 reg 1))
        (bit_xor_comm (shl16 w 1) (feedback poly (bit_xor (top reg) (top w))))
    ∙ sym (bit_xor_assoc (shl16 reg 1) (feedback poly (bit_xor (top reg) (top w))) (shl16 w 1))

-- The register clocked with the n highest bits of `w`, and what is left of `w`.
clock_top : ℕ → ℕ → ℕ → ℕ → ℕ
clock_top poly zero reg w = reg
clock_top poly (suc n) reg w = clock_top poly n (clock poly reg (top w)) (shl16 w 1)

left_over : ℕ → ℕ → ℕ
left_over zero w = w
left_over (suc n) w = left_over n (shl16 w 1)

shift_bits-clock_top :
    (poly n reg w : ℕ)
    → shift_bits poly n (bit_xor reg w) ≡ bit_xor (clock_top poly n reg w) (left_over n w)
unfolding clock_top left_over shift_bits
shift_bits-clock_top poly zero reg w = refl
shift_bits-clock_top poly (suc n) reg w =
    ap (shift_bits poly n) (clock_pending poly reg w)
    ∙ shift_bits-clock_top poly n (clock poly reg (top w)) (shl16 w 1)

left_over_byte : (v : ℕ) → left_over 8 (v * 256) ≡ 0
unfolding left_over
left_over_byte v = omega arith

-- For a bit position of a byte that stands in the high half of a word.
serial-clock_top :
    (poly reg v : ℕ) (s : Bytes)
    → v < 256
    → serial poly reg (bin 8 v ++ s) ≡ serial poly (clock_top poly 8 reg (v * 256)) s
serial-clock_top poly reg v s h = unfold serial clock_top in ground arith

serial-byte :
    (poly reg v : ℕ) (s : Bytes)
    → v < 256
    → serial poly reg (bin 8 v ++ s) ≡ serial poly (shift_bits poly 8 (bit_xor reg (v * 256))) s
serial-byte poly reg v s h =
    serial-clock_top poly reg v s h
    ∙ ap (λ (t : ℕ). serial poly t s)
        (sym (
          shift_bits-clock_top poly 8 reg (v * 256)
          ∙ ap (bit_xor (clock_top poly 8 reg (v * 256))) (left_over_byte v)
          ∙ bit_xor-zero (clock_top poly 8 reg (v * 256))))

-- The table-driven check of any message is the bit-serial register clocked with the message's
-- bits, highest bit of each byte first, for every polynomial and initial value of sixteen bits.
pub checksum-serial :
    (poly init : ℕ) (bytes : Bytes)
    → poly < 2 ^ 16
    → init < 2 ^ 16
    → All IsByte bytes
    → checksum init bytes (new_table poly) ≡ serial poly init (bits bytes)
unfolding checksum
checksum-serial poly init [] hp hi hb = unfold serial in refl
checksum-serial poly init (v ∷ bytes) hp hi (hv, hb) =
    checksum-serial poly (next_byte (new_table poly) init v) bytes hp
      (next_byte-lt poly init v hp hi hv) hb
    ∙ ap (λ (t : ℕ). serial poly t (bits bytes)) (next_byte-shift_bits poly init v hi hv)
    ∙ sym (serial-byte poly init v (bits bytes) hv)
