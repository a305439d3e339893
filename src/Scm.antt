-- ===== src/Scm.antt =====
-- scm/scm.go: the parser for standard consumption messages.
pub mod Layout
pub mod Parse
pub mod Air
pub mod Tests
use rtlamr.Base.{
  ℕ, ◌+◌, ◌-◌, ◌*◌, ◌/◌, ◌%◌, ◌^◌, List, [], ◌∷◌, ◌++◌, not, ◌==◌, if◌then◌else◌, Option, none,
  some, slice,
}
use rtlamr.Base.Text.{Bytes, codes, format_uint}
use rtlamr.Base.Text.Parse.{parse_uint}
use rtlamr.Crc.{Crc, new_crc, crc_checksum}
use rtlamr.Crc.Residue.{be16}
use rtlamr.Protocol.{Data, Message}
use rtlamr.Protocol.Config.{PacketConfig, packet_config}
use rtlamr.Protocol.Scan.{Sent, scan}

-- The CRC of the parser that `NewParser` makes.
abbrev pub bch : Crc
bch = new_crc 0 0x6F63 0

unfoldable pub config : ℕ → PacketConfig
config chip_length =
    packet_config (codes "scm") (codes "111110010101001100000") 912600155 32768 chip_length 21 96

pub record Scm : Type 0 where
  pub id : ℕ
  pub type : ℕ
  pub tamper_phy : ℕ
  pub tamper_enc : ℕ
  pub consumption : ℕ
  pub checksum_val : ℕ

-- The errors of `ParseUint` are dropped, and the results are cast to the fields' widths.
unfoldable pub new_scm : Data → Scm
new_scm data' =
    let bits = data'.bits in
    record {
      id = (parse_uint (slice bits 21 23 ++ slice bits 56 80) 2 26).0 % 2 ^ 32;
      type = (parse_uint (slice bits 26 30) 2 4).0 % 2 ^ 8;
      tamper_phy = (parse_uint (slice bits 24 26) 2 2).0 % 2 ^ 8;
      tamper_enc = (parse_uint (slice bits 30 32) 2 2).0 % 2 ^ 8;
      consumption = (parse_uint (slice bits 32 56) 2 24).0 % 2 ^ 32;
      checksum_val = (parse_uint (slice bits 80 96) 2 16).0 % 2 ^ 16;
    }

unfoldable pub record_fields : Scm → List Bytes
record_fields scm =
    format_uint scm.id 10
    ∷ format_uint scm.type 10
    ∷ (codes "0x" ++ format_uint scm.tamper_phy 16)
    ∷ (codes "0x" ++ format_uint scm.tamper_enc 16)
    ∷ format_uint scm.consumption 10
    ∷ (codes "0x" ++ format_uint scm.checksum_val 16)
    ∷ []

unfoldable pub headers : List Bytes
headers =
    codes "ID"
    ∷ codes "Type"
    ∷ codes "TamperPhy"
    ∷ codes "TamperEnc"
    ∷ codes "Consumption"
    ∷ codes "Checksum"
    ∷ []

-- The methods of `Message` and `csv.HeaderRecorder`.
unfoldable pub message : Scm → Message
message scm = record {
  fields = record_fields scm;
  headers = some headers;
  msg_type = codes "SCM";
  meter_id = scm.id;
  meter_type = scm.type;
  checksum = be16 scm.checksum_val;
}

-- The tests of `Parse` on a packet that was not seen before.
unfoldable pub accept : Data → Option Message
accept data' =
    let scm = new_scm data' in
    if not (crc_checksum bch (slice data'.bytes 2 12) == 0)
    then none
    else if scm.id == 0
    then none
    else some (message scm)

-- `Parse` on the buffer that earlier calls left.
unfoldable pub parse : Bytes → List Data → Option Sent
parse buffer pkts = scan 96 accept buffer [] pkts
