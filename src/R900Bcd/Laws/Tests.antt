-- ===== src/R900Bcd/Laws/Tests.antt =====
-- The conversion at a concrete message.
use rtlamr.Base.{ℕ, [], ◌≡◌, refl, arith}
use rtlamr.R900.{R900}
use rtlamr.R900Bcd.{convert}
use rtlamr.R900Bcd.Laws.{convert-to_bcd}

abbrev reading : R900 ℕ
reading = record {
  id = 7;
  unkn1 = 1;
  no_use = 0;
  back_flow = 0;
  consumption = 0x012984;
  unkn3 = 0;
  leak = 0;
  leak_now = 0;
  rssi = 0;
  snr = 0;
  checksum = [];
}

convert-to_bcd_example : convert reading ≡ record reading { consumption = 12984 }
convert-to_bcd_example = convert-to_bcd reading 12984 (omega arith) refl
