-- ===== src/Crc/Residue.antt =====
-- What a packet that ends with its own check leaves in the register.
use rtlamr.Base.{ℕ, ◌/◌, ◌%◌, ◌^◌, ◌<◌, bit_xor, [], ◌∷◌, ◌++◌, All, ◌≡◌, refl, ap, ◌∙◌, arith}
use rtlamr.Base.Text.{Bytes}
use rtlamr.Base.Xor.{bit_xor-lt, bit_xor_self, bit_xor_cancel}
use rtlamr.Crc.{shift_bits, new_table, checksum, Crc, new_crc, crc_checksum}
use rtlamr.Crc.Linear.{shift_bits_low}
use rtlamr.Crc.Serial.{IsByte}
use rtlamr.Crc.Detect.{checksum-append, checksum-lt, two_bytes}

-- `binary.BigEndian.PutUint16`.
abbrev pub be16 : ℕ → Bytes
be16 x = x / 256 % 256 ∷ x % 256 ∷ []

checksum-be16 :
    (poly c x : ℕ)
    → poly < 2 ^ 16
    → c < 2 ^ 16
    → x < 2 ^ 16
    → checksum c (be16 x) (new_table poly) ≡ shift_bits poly 8 (shift_bits poly 8 (bit_xor c x))
checksum-be16 poly c x hp hc hx =
    two_bytes poly c (x / 256 % 256) (x % 256) hp hc (omega arith) (omega arith)
    ∙ ap (λ (t : ℕ). shift_bits poly 8 (shift_bits poly 8 (bit_xor c t))) (omega arith)

-- A message followed by its check, the high byte first, leaves zero, for every polynomial and
-- initial value of sixteen bits.
pub checksum-append-checksum :
    (poly init : ℕ) (bytes : Bytes)
    → poly < 2 ^ 16
    → init < 2 ^ 16
    → All IsByte bytes
    → let t = new_table poly in checksum init (bytes ++ be16 (checksum init bytes t)) t ≡ 0
checksum-append-checksum poly init bytes hp hi hb =
    checksum-append init bytes (be16 c) (new_table poly)
    ∙ checksum-be16 poly c c hp c-lt c-lt
    ∙ ap (λ (t : ℕ). shift_bits poly 8 (shift_bits poly 8 t)) (bit_xor_self c)
    ∙ ap (shift_bits poly 8) (shift_bits_low poly 8 0 (omega arith))
    ∙ shift_bits_low poly 8 0 (omega arith)
  where
    c : ℕ
    c = checksum init bytes (new_table poly)

    c-lt : c < 2 ^ 16
    c-lt = checksum-lt poly init bytes hp hi hb

-- The check of the parsers for SCM+, IDM and NetIDM.
abbrev pub ccitt : Crc
ccitt = new_crc 0xFFFF 0x1021 0x1D0F

ccitt_residue : shift_bits 0x1021 8 (shift_bits 0x1021 8 0xFFFF) ≡ 0x1D0F
unfolding shift_bits
ccitt_residue = refl

-- The method `Checksum` runs the function on the fields of the struct.
pub crc_checksum-new_crc :
    (init poly residue : ℕ) (bytes : Bytes)
    → crc_checksum (new_crc init poly residue) bytes ≡ checksum init bytes (new_table poly)
unfolding crc_checksum new_crc
crc_checksum-new_crc init poly residue bytes = refl

pub residue-ccitt : ccitt.residue ≡ 0x1D0F
unfolding new_crc
residue-ccitt = refl

-- A message followed by the complement of its CCITT check leaves the residue that the parsers
-- compare with.
pub ccitt-append-complement :
    (bytes : Bytes)
    → All IsByte bytes
    → crc_checksum ccitt (bytes ++ be16 (bit_xor (crc_checksum ccitt bytes) 0xFFFF)) ≡ ccitt.residue
ccitt-append-complement bytes hb =
    rw (crc_checksum-new_crc _ _ _ bytes, crc_checksum-new_crc, residue-ccitt)
      (checksum-append 0xFFFF bytes (be16 (bit_xor c 0xFFFF)) (new_table 0x1021)
        ∙ checksum-be16 0x1021 c (bit_xor c 0xFFFF) (omega arith) c-lt
            (bit_xor-lt 16 c 0xFFFF c-lt (omega arith))
        ∙ ap (λ (t : ℕ). shift_bits 0x1021 8 (shift_bits 0x1021 8 t)) (bit_xor_cancel c 0xFFFF)
        ∙ ccitt_residue)
  where
    c : ℕ
    c = checksum 0xFFFF bytes (new_table 0x1021)

    c-lt : c < 2 ^ 16
    c-lt = checksum-lt 0x1021 0xFFFF bytes (omega arith) (omega arith) hb
