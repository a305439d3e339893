-- ===== src/NetIdm/Parse.antt =====
-- Which packets become net meter interval data messages, and what the messages hold.
use rtlamr.Base.{
  ℕ, zero, suc, ◌+◌, ◌-◌, ◌*◌, ◌/◌, ◌%◌, ◌^◌, ◌<◌, bit_or, List, [], ◌∷◌, ◌++◌, some, slice, take,
  drop, length, get_or, All, ◌≡◌, ◌≢◌, refl, ap, ◌∙◌, arith,
}
use rtlamr.Base.Text.{Bytes, be_value}
use rtlamr.Base.Xor.{bit_or_fields}
use rtlamr.Crc.{crc_checksum}
use rtlamr.Crc.Serial.{IsByte}
use rtlamr.Crc.Residue.{ccitt}
use rtlamr.Protocol.{Message, new_data, bit_string}
use rtlamr.Protocol.Intervals.{read_intervals-field, length-read_intervals}
use rtlamr.Protocol.Decoder.Slice.{data_at}
use rtlamr.Protocol.Scan.{scan}
use rtlamr.Protocol.Scan.Spec.{messages_of}
use rtlamr.Protocol.Scan.Repeat.{copies, scan-copies, bytes-new_data}
use rtlamr.Protocol.Sealed.{seal, length-seal, slice-seal, seal-serial, seal-packet}
use rtlamr.NetIdm.{or_bytes, new_net_idm, message, accept, parse}

serial-new_net_idm :
    (bytes : Bytes) → (new_net_idm (new_data bytes)).ert_serial_number ≡ be_value (slice bytes 9 13)
unfolding new_net_idm new_data
serial-new_net_idm bytes = refl

pub accept-seal :
    (p : Bytes)
    → length p ≡ 88
    → All IsByte p
    → be_value (slice p 9 13) ≢ 0
    → accept (new_data (seal p)) ≡ some (message (new_net_idm (new_data (seal p))))
unfolding accept
accept-seal p size hp ne = ground (
  arith,
  bytes-new_data (seal p),
  seal-packet p size hp,
  seal-serial p size hp,
  serial-new_net_idm (seal p),
  ap be_value (slice-seal p size hp 9 13 (omega arith) (omega arith)),
)

accept-data_at : (q : ℕ) (xs : Bytes) → accept (data_at q xs) ≡ accept (new_data xs)
unfolding accept new_net_idm data_at
accept-data_at q xs = refl

-- A packet with a serial number other than zero and with both checks is sent exactly once by one
-- call, at whatever samples and however often the decoder found it and whatever bytes stand behind it
-- each time; the message has the serial number as its id.
pub parse-seal_net_idm :
    (p buffer : Bytes) (first : ℕ × Bytes) (others : List (ℕ × Bytes))
    → length p ≡ 88
    → All IsByte p
    → be_value (slice p 9 13) ≢ 0
    → length buffer ≡ 92
    → (messages_of (parse buffer (copies (seal p) (first ∷ others)))
        ≡ some (message (new_net_idm (new_data (seal p))) ∷ []))
      × ((message (new_net_idm (new_data (seal p)))).meter_id ≡ be_value (slice p 9 13))
unfolding parse message
parse-seal_net_idm p buffer first others size hp ne e = (
  ap (λ k. messages_of (scan k accept buffer [] (copies (seal p) (first ∷ others)))) bits_read
      ∙ scan-copies (seal p) accept buffer (message (new_net_idm (new_data (seal p)))) first others
          (omega (arith, length-seal p size hp))
          (λ q. accept-data_at q (seal p) ∙ accept-seal p size hp ne),
  serial-new_net_idm (seal p) ∙ ap be_value (slice-seal p size hp 9 13 (omega arith) (omega arith)),
)
  where
    bits_read : 92 * 8 ≡ 8 * length (seal p)
    bits_read = omega (arith, length-seal p size hp)

-- What is accepted passed both checks and has a serial number.
pub accept-guards_net_idm :
    (bytes : Bytes) (msg : Message)
    → accept (new_data bytes) ≡ some msg
    → (msg.meter_id ≢ 0)
      × (crc_checksum ccitt (slice bytes 4 92) ≡ ccitt.residue)
      × (crc_checksum ccitt (slice bytes 9 13 ++ slice bytes 88 90) ≡ ccitt.residue)
      × (msg ≡ message (new_net_idm (new_data bytes)))
unfolding accept message
accept-guards_net_idm bytes msg h = ground (arith, bytes-new_data bytes)

-- Three bytes joined by shifts are the big-endian number that they spell.
or_bytes-be_value :
    (a b c : ℕ) → a < 256 → b < 256 → c < 256 → or_bytes a b c ≡ be_value (a ∷ b ∷ c ∷ [])
unfolding or_bytes
or_bytes-be_value a b c ha hb hc =
    ap (λ (t : ℕ). bit_or t c) (bit_or_fields 16 a (b * 2 ^ 8) (omega arith))
    ∙ ap (λ (t : ℕ). bit_or t c) {y = (a * 256 + b) * 2 ^ 8} (omega arith)
    ∙ bit_or_fields 8 (a * 256 + b) c (omega arith)
    ∙ omega arith

three :
    (bytes : Bytes) (i : ℕ)
    → All IsByte bytes
    → i + 2 < length bytes
    → or_bytes (get_or bytes i 0) (get_or bytes (suc i) 0) (get_or bytes (suc (suc i)) 0)
      ≡ be_value (take 3 (drop i bytes))
three [] i hb h = absurd (omega arith)
three (a ∷ bytes) (suc i) (ha, hb) h = three bytes i hb (omega arith)
three (a ∷ []) zero hb h = absurd (omega arith)
three (a ∷ b ∷ []) zero hb h = absurd (omega arith)
three (a ∷ b ∷ c ∷ bytes) zero (ha, (hb, (hc, _))) h = or_bytes-be_value a b c ha hb hc

-- A packet of 92 bytes gives 27 intervals; the one at index j is the field of fourteen bits that
-- begins at bit 304 + 14 j of the packet. The consumption and the generation are the big-endian
-- numbers of bytes 25 to 27 and 28 to 30.
pub new_net_idm-fields :
    (bytes : Bytes) (j : ℕ)
    → length bytes ≡ 92
    → All IsByte bytes
    → j < 27
    → let m = new_net_idm (new_data bytes) in
      (length m.differential_consumption_intervals ≡ 27)
      × (get_or m.differential_consumption_intervals j 0
          ≡ be_value bytes / 2 ^ (418 - 14 * j) % 2 ^ 14)
      × (m.last_consumption ≡ be_value (slice bytes 25 28))
      × (m.last_generation ≡ be_value (slice bytes 28 31))
unfolding new_net_idm new_data
new_net_idm-fields bytes j size hb lt = (
  length-read_intervals 14 27 304 (bit_string bytes),
  read_intervals-field bytes 14 27 304 j (418 - 14 * j) hb (omega arith) (omega arith) lt
      (omega arith),
  three bytes 25 hb (omega arith),
  three bytes 28 hb (omega arith),
)
