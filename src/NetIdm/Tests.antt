-- ===== src/NetIdm/Tests.antt =====
-- The theorems at concrete inputs.
use rtlamr.Base.{
  ◌/◌, ◌%◌, ◌^◌, [], ◌∷◌, ◌++◌, some, length, get_or, replicate, All, ◌≡◌, refl, arith,
}
use rtlamr.Base.Text.{Bytes, be_value}
use rtlamr.Crc.Serial.{IsByte}
use rtlamr.Protocol.{new_data}
use rtlamr.Protocol.Scan.Repeat.{copies}
use rtlamr.Protocol.Scan.Spec.{messages_of}
use rtlamr.Protocol.Sealed.{seal}
use rtlamr.NetIdm.{new_net_idm, message, parse}
use rtlamr.NetIdm.Parse.{parse-seal_net_idm, new_net_idm-fields}

abbrev start : Bytes
start = 0x55 ∷ 0x55 ∷ 0x16 ∷ 0xA3 ∷ 0x1C ∷ 0x5C ∷ 0xC6 ∷ 4 ∷ 0x17 ∷ 1 ∷ 2 ∷ 3 ∷ 4 ∷ replicate 75 9

start-IsByte : All IsByte start
start-IsByte = omega arith

parse-seal_net_idm_example :
    (messages_of (parse (replicate 92 0) (copies (seal start) ((5, 7 ∷ []) ∷ (6, 8 ∷ []) ∷ [])))
      ≡ some (message (new_net_idm (new_data (seal start))) ∷ []))
    × ((message (new_net_idm (new_data (seal start)))).meter_id ≡ 0x01020304)
parse-seal_net_idm_example =
    parse-seal_net_idm start (replicate 92 0) (5, 7 ∷ []) ((6, 8 ∷ []) ∷ []) refl start-IsByte
      (omega arith) refl

abbrev whole : Bytes
whole = start ++ replicate 4 0

new_net_idm-fields_example :
    let m = new_net_idm (new_data whole) in
    (length m.differential_consumption_intervals ≡ 27)
    × (get_or m.differential_consumption_intervals 2 0 ≡ be_value whole / 2 ^ 390 % 2 ^ 14)
    × (m.last_consumption ≡ 0x090909)
    × (m.last_generation ≡ 0x090909)
new_net_idm-fields_example = new_net_idm-fields whole 2 refl (omega arith) (omega arith)
