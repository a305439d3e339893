-- ===== src/R900Bcd.antt =====
-- r900bcd/r900bcd.go: R900 messages whose consumption is a binary-coded decimal.
pub mod Laws
use rtlamr.Base.{ℕ, ◌%◌, ◌^◌, List, map, Option, none, some, ◌>>=◌}
use rtlamr.Base.Text.{Bytes, codes, format_uint}
use rtlamr.Base.Text.Parse.{parse_uint}
use rtlamr.Protocol.{Data, Message}
use rtlamr.Protocol.Config.{PacketConfig}
use rtlamr.Protocol.Floats.{Floats}
use rtlamr.R900
use rtlamr.R900.{R900}
use rtlamr.R900.Gf.{Field}
use rtlamr.R900.Parse.{State}
use rtlamr.R900.Parse

-- The hexadecimal text of the consumption is read as a decimal; the error is dropped.
unfoldable pub bcd_consumption : ℕ → ℕ
bcd_consumption n = (parse_uint (format_uint n 16) 10 32).0 % 2 ^ 32

unfoldable pub convert : {F : Type 0} → R900 F → R900 F
convert r = record {
  id = r.id;
  unkn1 = r.unkn1;
  no_use = r.no_use;
  back_flow = r.back_flow;
  consumption = bcd_consumption r.consumption;
  unkn3 = r.unkn3;
  leak = r.leak;
  leak_now = r.leak_now;
  rssi = r.rssi;
  snr = r.snr;
  checksum = r.checksum;
}

module _ (fl : Floats) where
  -- The methods of the embedded message, with a name of its own.
  unfoldable pub message : R900 fl.F → Message
  message r = record {
    fields = R900.record_fields fl r;
    headers = some (R900.headers fl);
    msg_type = codes "R900BCD";
    meter_id = r.id;
    meter_type = r.unkn1;
    checksum = r.checksum;
  }

  -- The messages of the R900 parser are converted in the order in which they come.
  unfoldable pub parse :
      Field
      → PacketConfig
      → List fl.F
      → Option (State fl)
      → List Data
      → Option (State fl × List (R900 fl.F))
  parse field decoder_cfg decoder_signal called pkts = do
    (st, messages) ← R900.Parse.parse fl field decoder_cfg decoder_signal called pkts
    some (st, map convert messages)
