-- ===== src/Protocol/Sealed.antt =====
-- The two checks that end the packets of IDM and NetIDM meters, both the complement of the CCITT
-- check: over the serial number, and over all between the preamble and the check itself.
use rtlamr.Base.{
  ℕ, ◌≤◌, bit_xor, ◌++◌, slice, take, drop, length, length-append, length-drop, drop-append_left,
  drop-append_self, slice-append_left, take_all, All, All-append, All-take, All-drop, ◌≡◌, sym, ap,
  ap₂, ◌∙◌, arith,
}
use rtlamr.Base.Text.{Bytes}
use rtlamr.Crc.{crc_checksum}
use rtlamr.Crc.Serial.{IsByte}
use rtlamr.Crc.Residue.{be16, ccitt, ccitt-append-complement}

abbrev pub complement : Bytes → Bytes
complement bytes = be16 (bit_xor (crc_checksum ccitt bytes) 0xFFFF)

-- The first 90 bytes of a packet, from its first 88.
pub serial_sealed : Bytes → Bytes
serial_sealed p = p ++ complement (slice p 9 13)

pub seal : Bytes → Bytes
seal p = serial_sealed p ++ complement (drop 4 (serial_sealed p))

be16-IsByte : (x : ℕ) → All IsByte (be16 x)
be16-IsByte x = omega arith

module _ (p : Bytes) (size : length p ≡ 88) (hp : All IsByte p) where
  length-serial_sealed : length (serial_sealed p) ≡ 90
  unfolding serial_sealed
  length-serial_sealed = omega (arith, length-append p (complement (slice p 9 13)))

  serial_sealed-IsByte : All IsByte (serial_sealed p)
  unfolding serial_sealed
  serial_sealed-IsByte = All-append IsByte p _ hp (be16-IsByte _)

  pub length-seal : length (seal p) ≡ 92
  unfolding seal
  length-seal = omega (
    arith,
    length-serial_sealed,
    length-append (serial_sealed p) (complement (drop 4 (serial_sealed p))),
  )

  pub seal-IsByte : All IsByte (seal p)
  unfolding seal
  seal-IsByte = All-append IsByte (serial_sealed p) _ serial_sealed-IsByte (be16-IsByte _)

  -- Sealing keeps what was there.
  pub slice-seal : (lo hi : ℕ) → lo ≤ hi → hi ≤ 88 → slice (seal p) lo hi ≡ slice p lo hi
  unfolding seal
  slice-seal lo hi le h =
      slice-append_left (serial_sealed p) _ lo hi le (omega (arith, length-serial_sealed))
      ∙ unfold serial_sealed in
        slice-append_left p (complement (slice p 9 13)) lo hi le (omega arith)

  serial_check : slice (seal p) 88 90 ≡ complement (slice p 9 13)
  unfolding seal
  serial_check =
      slice-append_left (serial_sealed p) _ 88 90 (omega arith)
        (omega (arith, length-serial_sealed))
      ∙ behind
    where
      behind : slice (serial_sealed p) 88 90 ≡ complement (slice p 9 13)
      behind =
          unfold serial_sealed in
          ap (λ n. take 2 (drop n (p ++ complement (slice p 9 13)))) (sym size)
          ∙ ap (take 2) (drop-append_self p (complement (slice p 9 13)))

  pub seal-serial : crc_checksum ccitt (slice (seal p) 9 13 ++ slice (seal p) 88 90) ≡ ccitt.residue
  seal-serial =
      ap (crc_checksum ccitt) (ap₂ ◌++◌ (slice-seal 9 13 (omega arith) (omega arith)) serial_check)
      ∙ ccitt-append-complement (slice p 9 13) (All-take IsByte 4 _ (All-drop IsByte 9 p hp))

  pub seal-packet : crc_checksum ccitt (slice (seal p) 4 92) ≡ ccitt.residue
  unfolding seal
  seal-packet =
      ap (crc_checksum ccitt) (
        ap (take 88)
          (drop-append_left 4 (serial_sealed p) check (omega (arith, length-serial_sealed)))
        ∙ take_all 88 (drop 4 (serial_sealed p) ++ check) short)
      ∙ ccitt-append-complement (drop 4 (serial_sealed p))
          (All-drop IsByte 4 _ serial_sealed-IsByte)
    where
      check : Bytes
      check = complement (drop 4 (serial_sealed p))

      short : length (drop 4 (serial_sealed p) ++ check) ≤ 88
      short = omega (
        arith,
        length-serial_sealed,
        length-append (drop 4 (serial_sealed p)) check,
        length-drop 4 (serial_sealed p),
      )
