-- ===== src/Crc/Tests.antt =====
-- Runs of the check, and the theorems at concrete inputs.
use rtlamr.Base.{[], ◌∷◌, All, ◌≡◌, refl, arith}
use rtlamr.Base.Text.{Bytes, codes}
use rtlamr.Crc.{new_table, checksum}
use rtlamr.Crc.Serial.{IsByte, serial, bits, checksum-serial}

-- The check value of CRC-16/CCITT-FALSE.
check_value : checksum 0xFFFF (codes "123456789") (new_table 0x1021) ≡ 0x29B1
unfolding checksum new_table
check_value = refl

abbrev sample : Bytes
sample = 0x1E ∷ 0xA3 ∷ 0x00 ∷ 0xFF ∷ []

sample-IsByte : All IsByte sample
sample-IsByte = omega arith

checksum-serial_example : checksum 0 sample (new_table 0x6F63) ≡ serial 0x6F63 0 (bits sample)
checksum-serial_example = checksum-serial 0x6F63 0 sample (omega arith) (omega arith) sample-IsByte
