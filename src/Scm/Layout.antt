-- ===== src/Scm/Layout.antt =====
-- The layout of a standard consumption message, and `NewSCM` as its inverse.
use native.Mathlib.Nat.{mod-eq_of_lt}
use rtlamr.Base.{
  ℕ, ◌+◌, ◌*◌, ◌/◌, ◌%◌, ◌^◌, ◌<◌, [], ◌∷◌, ◌++◌, slice, All, ◌≡◌, refl, ap, ap₂, ◌∙◌, arith,
}
use rtlamr.Base.Text.{Bytes, bin, be_value}
use rtlamr.Base.Text.Parse.{Parsed, parse_uint, parse_uint-bin}
use rtlamr.Protocol.{new_data, bit_string}
use rtlamr.Protocol.BitString.{bin-append, bin-mod, slice-bit_string, cast, field-eq}
use rtlamr.Crc.Residue.{be16}
use rtlamr.Crc.Serial.{IsByte}
use rtlamr.Scm.{Scm, new_scm}

-- The widths of the fields on the air.
pub record InRange (m : Scm) : Type 0 where
  pub id : m.id < 2 ^ 26
  pub type : m.type < 2 ^ 4
  pub tamper_phy : m.tamper_phy < 2 ^ 2
  pub tamper_enc : m.tamper_enc < 2 ^ 2
  pub consumption : m.consumption < 2 ^ 24
  pub checksum_val : m.checksum_val < 2 ^ 16

-- The ten bytes in front of the check: 21 bits of preamble, two of the id, one spare, tamper,
-- type, tamper, consumption, and the other 24 bits of the id.
unfoldable pub body : Scm → Bytes
body m =
    0xF9
    ∷ 0x53
    ∷ m.id / 2 ^ 24 * 2
    ∷ (m.tamper_phy * 64 + m.type * 4 + m.tamper_enc)
    ∷ m.consumption / 2 ^ 16
    ∷ m.consumption / 2 ^ 8 % 256
    ∷ m.consumption % 256
    ∷ m.id / 2 ^ 16 % 256
    ∷ m.id / 2 ^ 8 % 256
    ∷ m.id % 256
    ∷ []

unfoldable pub encode : Scm → Bytes
encode m = body m ++ be16 m.checksum_val

body-IsByte : (m : Scm) → InRange m → All IsByte (body m)
unfolding body
body-IsByte m h = omega arith

pub encode-IsByte : (m : Scm) → InRange m → All IsByte (encode m)
unfolding encode body
encode-IsByte m h = omega arith

module _ (m : Scm) (h : InRange m) where
  abbrev v : ℕ
  v = be_value (encode m)

  bytes_ok : All IsByte (encode m)
  bytes_ok = encode-IsByte m h

  -- The id is read from two slices.
  id_digits :
      slice (bit_string (encode m)) 21 23 ++ slice (bit_string (encode m)) 56 80 ≡ bin 26 m.id
  id_digits =
      ap₂ ◌++◌
        (slice-bit_string (encode m) 21 2 73 bytes_ok (unfold encode body in refl)
          ∙ bin-mod 2 (v / 2 ^ 73))
        (slice-bit_string (encode m) 56 24 16 bytes_ok (unfold encode body in refl)
          ∙ bin-mod 24 (v / 2 ^ 16))
      ∙ bin-append 2 24 (v / 2 ^ 73 % 2 ^ 2) (v / 2 ^ 16 % 2 ^ 24) (omega arith)
      ∙ ap (bin 26) (unfold encode body in omega arith)

  id_eq :
      (parse_uint
        (slice (bit_string (encode m)) 21 23 ++ slice (bit_string (encode m)) 56 80)
        2
        26).0
      ≡ m.id
  id_eq =
      ap (λ s. (parse_uint s 2 26).0) id_digits
      ∙ ap (λ (r : Parsed). r.0) (parse_uint-bin 26 m.id (omega arith))
      ∙ mod-eq_of_lt h.id

  reads :
      (before w behind x : ℕ)
      → before + w + behind ≡ 96
      → 0 < w
      → v / 2 ^ behind % 2 ^ w ≡ x
      → (parse_uint (slice (bit_string (encode m)) before (before + w)) 2 w).0 ≡ x
  reads before w behind x size pos e =
      field-eq (encode m) before w behind x bytes_ok (unfold encode body in size) pos e

-- Reading the fields of an encoded message gives the message back, for every message whose
-- fields fit their widths on the air.
pub new_scm-encode : (m : Scm) → InRange m → new_scm (new_data (encode m)) ≡ m
unfolding new_scm new_data encode body
new_scm-encode m h = λ i. record {
  id = cast 32 (id_eq m h) (omega arith) i;
  type = cast 8 (reads m h 26 4 66 m.type refl (omega arith) (omega arith)) (omega arith) i;
  tamper_phy =
      cast 8 (reads m h 24 2 70 m.tamper_phy refl (omega arith) (omega arith)) (omega arith) i;
  tamper_enc =
      cast 8 (reads m h 30 2 64 m.tamper_enc refl (omega arith) (omega arith)) (omega arith) i;
  consumption =
      cast 32 (reads m h 32 24 40 m.consumption refl (omega arith) (omega arith)) (omega arith) i;
  checksum_val =
      cast 16 (reads m h 80 16 0 m.checksum_val refl (omega arith) (omega arith)) (omega arith) i;
}
