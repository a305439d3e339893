-- ===== src/Rtlamrscan/Gps/Nmea.antt =====
-- The checksum of NMEA sentences: nmeaChecksumOK and containsValidNMEA.
pub mod Laws
use rtlamr.Base.{
  ℕ, zero, suc, ◌+◌, ◌-◌, ◌*◌, ◌/◌, ◌%◌, ◌^◌, ◌<◌, bit_xor, List, [], ◌∷◌, ◌++◌, append_assoc, Bool,
  true, false, not, ◌&&◌, ◌||◌, ltb, leb, ◌==◌, ==_refl, ==_ne, if◌then◌else◌, Option, none, some,
  length, length-append, get_or, slice, take, drop, take-append_self, drop-append_self, All,
  Bool-cases, inl, inr, ◌≡◌, ◌≢◌, refl, sym, ap, ◌∙◌, arith,
}
use rtlamr.Base.Xor.{bit_xor-lt, bit_xor_assoc, bit_xor_comm, eq_of_bit_xor-eq-zero}
use rtlamr.Base.Text.{Bytes, codes, split, upper_digit}
use rtlamr.Base.Text.Parse.{ParseError, parse_uint}
use rtlamr.Base.Text.Parse.Hex.{parse_uint-upper_digit}
use rtlamr.Base.Text.Trim.{
  last_index_byte, trim_space, trim_left, is_space, Lacks, last_index_byte-append, trim_right_none,
  trim_right_all,
}
use rtlamr.Base.Text.Split.{split-append, split_whole}

-- `sum ^= s[i]` over the bytes.
unfoldable pub xor_sum : ℕ → Bytes → ℕ
xor_sum sum [] = sum
xor_sum sum (b ∷ bytes) = xor_sum (bit_xor sum b) bytes

abbrev pub failed : Option ParseError → Bool
failed none = false
failed (some e) = true

-- `nmeaChecksumOK`: the payload, or `none` for its false.
unfoldable pub nmea_checksum_ok : Bytes → Option Bytes
nmea_checksum_ok s =
    if ltb (length s) 4 || not (get_or s 0 0 == b'$') then none else elim (last_index_byte s b'*') [
      | none ↦ none
      | some star ↦
          let (want, err) = parse_uint (slice s (star + 1) (star + 3)) 16 8 in
          if ltb (length s) (star + 3)
          then none
          else if failed err || not (want % 256 == xor_sum 0 (slice s 1 star))
          then none
          else some (slice s 1 star)
    ]

-- The loop of `containsValidNMEA` over the lines.
unfoldable pub any_valid : List Bytes → Bool
any_valid [] = false
any_valid (line ∷ lines) =
    let rest = any_valid lines in
    elim (nmea_checksum_ok (trim_space line)) [ some payload ↦ true | none ↦ rest ]

unfoldable pub contains_valid_nmea : Bytes → Bool
contains_valid_nmea s = any_valid (split s b'\n')

-- A sentence as NMEA 0183 writes it: two hexadecimal digits of a checksum behind the payload.
abbrev pub sentence : Bytes → ℕ → Bytes
sentence payload check =
    b'$' ∷ payload ++ b'*' ∷ upper_digit (check / 16) ∷ upper_digit (check % 16) ∷ []

upper_digit-star : (d : ℕ) → d < 16 → (upper_digit d == b'*') ≡ false
unfolding upper_digit
upper_digit-star d h = ground arith

module _ (payload : Bytes) (check : ℕ) (h : check < 256) where
  abbrev digits : Bytes
  digits = upper_digit (check / 16) ∷ upper_digit (check % 16) ∷ []

  abbrev whole : Bytes
  whole = sentence payload check

  digits-Lacks : Lacks b'*' digits
  digits-Lacks = (
    upper_digit-star (check / 16) (omega arith),
    (upper_digit-star (check % 16) (omega arith), tt),
  )

  star_at : last_index_byte whole b'*' ≡ some (suc (length payload))
  star_at = last_index_byte-append (b'$' ∷ payload) digits b'*' digits-Lacks

  length-whole : length whole ≡ length payload + 4
  length-whole = omega (arith, length-append payload (b'*' ∷ digits))

  body_eq : slice whole 1 (suc (length payload)) ≡ payload
  body_eq =
      ap (λ n. take n (payload ++ b'*' ∷ digits)) (omega arith)
      ∙ take-append_self payload (b'*' ∷ digits)

  seal_eq : slice whole (suc (length payload) + 1) (suc (length payload) + 3) ≡ digits
  seal_eq =
      ap (λ n. take n (drop (suc (length payload) + 1) whole)) two
      ∙ ap (λ n. take 2 (drop n whole)) skip
      ∙ ap (λ s. take 2 s) behind
    where
      two : suc (length payload) + 3 - (suc (length payload) + 1) ≡ 2
      two = omega arith

      skip : suc (length payload) + 1 ≡ suc (length (payload ++ b'*' ∷ []))
      skip = omega (arith, length-append payload (b'*' ∷ []))

      behind : drop (length (payload ++ b'*' ∷ [])) (payload ++ b'*' ∷ digits) ≡ digits
      behind =
          ap (drop (length (payload ++ b'*' ∷ []))) (sym (append_assoc payload (b'*' ∷ []) digits))
          ∙ drop-append_self (payload ++ b'*' ∷ []) digits

  -- Whatever the payload holds, the code reads the checksum behind it and compares.
  pub nmea_checksum_ok-sentence :
      nmea_checksum_ok whole ≡ (if check == xor_sum 0 payload then some payload else none)
  unfolding nmea_checksum_ok
  nmea_checksum_ok-sentence =
      rw (long_enough, star_at, seal_eq, body_eq, parse_uint-upper_digit check h, room, byte)
        (elim (Bool-cases (check == xor_sum 0 payload)) [ inl e ↦ rw e refl | inr e ↦ rw e refl ])
    where
      long_enough : ltb (length whole) 4 ≡ false
      long_enough = ground (arith, length-whole)

      room : ltb (length whole) (suc (length payload) + 3) ≡ false
      room = ground (arith, length-whole)

      byte : check % 256 ≡ check
      byte = omega arith
