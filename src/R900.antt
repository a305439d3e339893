-- ===== src/R900.antt =====
-- r900/r900.go: the parser for R900 messages. `none` is a Go panic: an index out of range.
pub mod Gf
pub mod Filter
pub mod Symbols
pub mod Parse
pub mod Tests
use rtlamr.Base.{
  ℕ, zero, suc, ◌+◌, ◌*◌, ◌/◌, ◌%◌, ◌^◌, List, [], ◌∷◌, ◌++◌, Option, none, some, slice,
}
use rtlamr.Base.Text.{Bytes, codes, format_uint}
use rtlamr.Base.Text.Parse.{parse_uint}
use rtlamr.Protocol.{Message}
use rtlamr.Protocol.Config.{PacketConfig, packet_config}
use rtlamr.Protocol.Floats.{Floats}

unfoldable pub config : ℕ → PacketConfig
config chip_length =
    packet_config (codes "r900") (codes "00000000000000001110010101100100") 912380000 32768
      chip_length 32 116

pub record R900 (F : Type 0) : Type 0 where
  pub id : ℕ
  pub unkn1 : ℕ
  pub no_use : ℕ
  pub back_flow : ℕ
  pub consumption : ℕ
  pub unkn3 : ℕ
  pub leak : ℕ
  pub leak_now : ℕ
  pub rssi : F
  pub snr : F
  pub checksum : Bytes

-- The fields of the 80 payload bits; the errors of `ParseUint` are dropped.
unfoldable pub new_r900 : {F : Type 0} → Bytes → Bytes → F → F → R900 F
new_r900 bits checksum rssi snr = record {
  id = (parse_uint (slice bits 0 32) 2 32).0 % 2 ^ 32;
  unkn1 = (parse_uint (slice bits 32 40) 2 8).0 % 2 ^ 8;
  no_use = (parse_uint (slice bits 40 46) 2 6).0 % 2 ^ 8;
  back_flow = (parse_uint (slice bits 46 48) 2 2).0 % 2 ^ 8;
  consumption = (parse_uint (slice bits 48 72) 2 24).0 % 2 ^ 32;
  unkn3 = (parse_uint (slice bits 72 74) 2 2).0 % 2 ^ 8;
  leak = (parse_uint (slice bits 74 78) 2 4).0 % 2 ^ 8;
  leak_now = (parse_uint (slice bits 78 80) 2 2).0 % 2 ^ 8;
  rssi = rssi;
  snr = snr;
  checksum = checksum;
}

module _ (fl : Floats) where
  unfoldable pub record_fields : R900 fl.F → List Bytes
  record_fields r =
      format_uint r.id 10
      ∷ format_uint r.unkn1 10
      ∷ format_uint r.no_use 10
      ∷ format_uint r.back_flow 10
      ∷ format_uint r.consumption 10
      ∷ format_uint r.unkn3 10
      ∷ format_uint r.leak 10
      ∷ format_uint r.leak_now 10
      ∷ fl.format_f r.rssi
      ∷ fl.format_f r.snr
      ∷ []

  unfoldable pub headers : List Bytes
  headers =
      codes "ID"
      ∷ codes "Unkn1"
      ∷ codes "NoUse"
      ∷ codes "BackFlow"
      ∷ codes "Consumption"
      ∷ codes "Unkn3"
      ∷ codes "Leak"
      ∷ codes "LeakNow"
      ∷ codes "RSSI"
      ∷ codes "SNR"
      ∷ []

  -- The methods of `Message` and `csv.HeaderRecorder`.
  unfoldable pub message : R900 fl.F → Message
  message r = record {
    fields = record_fields r;
    headers = some headers;
    msg_type = codes "R900";
    meter_id = r.id;
    meter_type = r.unkn1;
    checksum = r.checksum;
  }
