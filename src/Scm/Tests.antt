-- ===== src/Scm/Tests.antt =====
-- Runs of the parser, and the theorems at concrete inputs.
use rtlamr.Base.{[], ◌∷◌, none, some, replicate, ◌≡◌, refl, inl, arith, map}
use rtlamr.Base.Text.{codes, format_uint}
use rtlamr.Crc.{checksum, new_table}
use rtlamr.Protocol.{Data, new_data}
use rtlamr.Protocol.Scan.Repeat.{copies}
use rtlamr.Protocol.Scan.Spec.{messages_of}
use rtlamr.Scm.{Scm, record_fields, message, accept, parse}
use rtlamr.Scm.Layout.{InRange, body, encode}
use rtlamr.Scm.Parse.{seal, accept-encode, parse-encode, accept_burst}

abbrev pub meter : Scm
meter = record {
  id = 0x2345678;
  type = 4;
  tamper_phy = 1;
  tamper_enc = 2;
  consumption = 123456;
  checksum_val = 0;
}

pub meter-InRange : InRange meter
meter-InRange = omega arith

-- The bytes that the meter sends.
meter_packet :
    encode (seal meter)
    ≡ 0xF9 ∷ 0x53 ∷ 4 ∷ 0x52 ∷ 1 ∷ 0xE2 ∷ 0x40 ∷ 0x34 ∷ 0x56 ∷ 0x78 ∷ 0xEE ∷ 0x5F ∷ []
unfolding encode body seal checksum new_table
meter_packet = refl

meter_fields :
    record_fields meter ≡ map codes ("36984440" ∷ "4" ∷ "0x1" ∷ "0x2" ∷ "123456" ∷ "0x0" ∷ [])
unfolding record_fields format_uint
meter_fields = refl

parse-encode_example :
    messages_of (
      parse
        (replicate 12 0)
        (copies (encode (seal meter)) ((40, 7 ∷ 9 ∷ []) ∷ (41, 7 ∷ []) ∷ (47, []) ∷ [])))
    ≡ some (message (seal meter) ∷ [])
parse-encode_example =
    parse-encode meter (replicate 12 0) (40, 7 ∷ 9 ∷ []) ((41, 7 ∷ []) ∷ (47, []) ∷ [])
      meter-InRange (omega arith) refl

abbrev changed : Data
changed =
    new_data (0xF9 ∷ 0x53 ∷ 4 ∷ 0x52 ∷ 1 ∷ 0xE2 ∷ 0x40 ∷ 0x34 ∷ 0x57 ∷ 0x78 ∷ 0xEE ∷ 0x5F ∷ [])

accept_burst_example : accept changed ≡ none
unfolding new_data
accept_burst_example =
    accept_burst (new_data (encode (seal meter))) changed (message (seal meter)) 0xF9 0x53 0xF9 0x53
      0x56 0x78 0x57 0x78 (4 ∷ 0x52 ∷ 1 ∷ 0xE2 ∷ 0x40 ∷ 0x34 ∷ []) (0xEE ∷ 0x5F ∷ [])
      (accept-encode meter meter-InRange (omega arith)) meter_packet refl refl (omega arith)
      (omega arith) (omega arith) (inl (omega arith))
