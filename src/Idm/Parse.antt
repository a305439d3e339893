-- ===== src/Idm/Parse.antt =====
-- Which packets become interval data messages, and what the messages hold.
use rtlamr.Base.{
  ℕ, ◌-◌, ◌*◌, ◌/◌, ◌%◌, ◌^◌, ◌<◌, List, [], ◌∷◌, ◌++◌, some, slice, length, get_or, All, ◌≡◌, ◌≢◌,
  refl, ap, ◌∙◌, arith,
}
use rtlamr.Base.Text.{Bytes, be_value}
use rtlamr.Crc.{crc_checksum}
use rtlamr.Crc.Serial.{IsByte}
use rtlamr.Crc.Residue.{ccitt}
use rtlamr.Protocol.{Message, new_data, bit_string}
use rtlamr.Protocol.Intervals.{read_intervals-field, length-read_intervals}
use rtlamr.Protocol.Decoder.Slice.{data_at}
use rtlamr.Protocol.Scan.{scan}
use rtlamr.Protocol.Scan.Spec.{messages_of}
use rtlamr.Protocol.Scan.Repeat.{copies, scan-copies, bytes-new_data}
use rtlamr.Protocol.Sealed.{seal, length-seal, slice-seal, seal-serial, seal-packet}
use rtlamr.Idm.{new_idm, message, accept, parse}

serial-new_idm :
    (bytes : Bytes) → (new_idm (new_data bytes)).ert_serial_number ≡ be_value (slice bytes 9 13)
unfolding new_idm new_data
serial-new_idm bytes = refl

pub accept-seal :
    (p : Bytes)
    → length p ≡ 88
    → All IsByte p
    → be_value (slice p 9 13) ≢ 0
    → accept (new_data (seal p)) ≡ some (message (new_idm (new_data (seal p))))
unfolding accept
accept-seal p size hp ne = ground (
  arith,
  bytes-new_data (seal p),
  seal-packet p size hp,
  seal-serial p size hp,
  serial-new_idm (seal p),
  ap be_value (slice-seal p size hp 9 13 (omega arith) (omega arith)),
)

accept-data_at : (q : ℕ) (xs : Bytes) → accept (data_at q xs) ≡ accept (new_data xs)
unfolding accept new_idm data_at
accept-data_at q xs = refl

-- A packet with a serial number other than zero and with both checks is sent exactly once by one
-- call, at whatever samples and however often the decoder found it and whatever bytes stand behind it
-- each time; the message has the serial number as its id.
pub parse-seal_idm :
    (p buffer : Bytes) (first : ℕ × Bytes) (others : List (ℕ × Bytes))
    → length p ≡ 88
    → All IsByte p
    → be_value (slice p 9 13) ≢ 0
    → length buffer ≡ 92
    → (messages_of (parse buffer (copies (seal p) (first ∷ others)))
        ≡ some (message (new_idm (new_data (seal p))) ∷ []))
      × ((message (new_idm (new_data (seal p)))).meter_id ≡ be_value (slice p 9 13))
unfolding parse message
parse-seal_idm p buffer first others size hp ne e = (
  ap (λ k. messages_of (scan k accept buffer [] (copies (seal p) (first ∷ others)))) bits_read
      ∙ scan-copies (seal p) accept buffer (message (new_idm (new_data (seal p)))) first others
          (omega (arith, length-seal p size hp))
          (λ q. accept-data_at q (seal p) ∙ accept-seal p size hp ne),
  serial-new_idm (seal p) ∙ ap be_value (slice-seal p size hp 9 13 (omega arith) (omega arith)),
)
  where
    bits_read : 92 * 8 ≡ 8 * length (seal p)
    bits_read = omega (arith, length-seal p size hp)

-- What is accepted passed both checks and has a serial number.
pub accept-guards_idm :
    (bytes : Bytes) (msg : Message)
    → accept (new_data bytes) ≡ some msg
    → (msg.meter_id ≢ 0)
      × (crc_checksum ccitt (slice bytes 4 92) ≡ ccitt.residue)
      × (crc_checksum ccitt (slice bytes 9 13 ++ slice bytes 88 90) ≡ ccitt.residue)
      × (msg ≡ message (new_idm (new_data bytes)))
unfolding accept message
accept-guards_idm bytes msg h = ground (arith, bytes-new_data bytes)

-- A packet of 92 bytes gives 47 intervals; the one at index j is the field of nine bits that
-- begins at bit 264 + 9 j of the packet.
pub new_idm-intervals :
    (bytes : Bytes) (j : ℕ)
    → length bytes ≡ 92
    → All IsByte bytes
    → j < 47
    → let xs = (new_idm (new_data bytes)).differential_consumption_intervals in
      (length xs ≡ 47) × (get_or xs j 0 ≡ be_value bytes / 2 ^ (463 - 9 * j) % 2 ^ 9)
unfolding new_idm new_data
new_idm-intervals bytes j size hb lt = (
  length-read_intervals 9 47 264 (bit_string bytes),
  read_intervals-field bytes 9 47 264 j (463 - 9 * j) hb (omega arith) (omega arith) lt
      (omega arith),
)
