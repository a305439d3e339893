-- ===== src/Idm/Tests.antt =====
-- The theorems at concrete inputs.
use rtlamr.Base.{
  ◌/◌, ◌%◌, ◌^◌, [], ◌∷◌, ◌++◌, some, length, get_or, replicate, All, ◌≡◌, refl, arith,
}
use rtlamr.Base.Text.{Bytes, be_value}
use rtlamr.Crc.Serial.{IsByte}
use rtlamr.Protocol.{new_data}
use rtlamr.Protocol.Scan.Repeat.{copies}
use rtlamr.Protocol.Scan.Spec.{messages_of}
use rtlamr.Protocol.Sealed.{seal}
use rtlamr.Idm.{new_idm, message, parse}
use rtlamr.Idm.Parse.{parse-seal_idm, new_idm-intervals}

abbrev start : Bytes
start = 0x55 ∷ 0x55 ∷ 0x16 ∷ 0xA3 ∷ 0x1C ∷ 0x5C ∷ 0xC6 ∷ 4 ∷ 0x17 ∷ 1 ∷ 2 ∷ 3 ∷ 4 ∷ replicate 75 9

start-IsByte : All IsByte start
start-IsByte = omega arith

parse-seal_idm_example :
    (messages_of (parse (replicate 92 0) (copies (seal start) ((5, 7 ∷ []) ∷ (6, 8 ∷ []) ∷ [])))
      ≡ some (message (new_idm (new_data (seal start))) ∷ []))
    × ((message (new_idm (new_data (seal start)))).meter_id ≡ 0x01020304)
parse-seal_idm_example =
    parse-seal_idm start (replicate 92 0) (5, 7 ∷ []) ((6, 8 ∷ []) ∷ []) refl start-IsByte
      (omega arith) refl

abbrev whole : Bytes
whole = start ++ replicate 4 0

new_idm-intervals_example :
    (length (new_idm (new_data whole)).differential_consumption_intervals ≡ 47)
    × (get_or (new_idm (new_data whole)).differential_consumption_intervals 1 0
        ≡ be_value whole / 2 ^ 454 % 2 ^ 9)
new_idm-intervals_example = new_idm-intervals whole 1 refl (omega arith) (omega arith)
