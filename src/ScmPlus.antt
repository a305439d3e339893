-- ===== src/ScmPlus.antt =====
-- scmplus/scmplus.go: the parser for SCM+ messages.
pub mod Layout
pub mod Parse
pub mod Tests
use rtlamr.Base.{
  ℕ, ◌*◌, List, [], ◌∷◌, ◌++◌, not, ◌==◌, ◌||◌, ltb, if◌then◌else◌, Option, none, some, slice, drop,
  length,
}
use rtlamr.Base.Text.{Bytes, codes, be_value, format_uint}
use rtlamr.Crc.{crc_checksum}
use rtlamr.Crc.Residue.{be16, ccitt}
use rtlamr.Protocol.{Data, Message}
use rtlamr.Protocol.Config.{PacketConfig, packet_config}
use rtlamr.Protocol.Scan.{Sent, scan}

unfoldable pub config : ℕ → PacketConfig
config chip_length =
    packet_config (codes "scm+") (codes "0001011010100011") 912600155 32768 chip_length 16 (16 * 8)

pub record Scm : Type 0 where
  pub frame_sync : ℕ
  pub protocol_id : ℕ
  pub endpoint_type : ℕ
  pub endpoint_id : ℕ
  pub consumption : ℕ
  pub tamper : ℕ
  pub packet_crc : ℕ

abbrev zero_scm : Scm
zero_scm = record {
  frame_sync = 0;
  protocol_id = 0;
  endpoint_type = 0;
  endpoint_id = 0;
  consumption = 0;
  tamper = 0;
  packet_crc = 0;
}

-- `binary.Read` fills the fields in order, or none of them if the input is too short; the error
-- is dropped.
unfoldable pub new_scm : Data → Scm
new_scm data' =
    let b = data'.bytes in
    if ltb (length b) 16 then zero_scm else record {
      frame_sync = be_value (slice b 0 2);
      protocol_id = be_value (slice b 2 3);
      endpoint_type = be_value (slice b 3 4);
      endpoint_id = be_value (slice b 4 8);
      consumption = be_value (slice b 8 12);
      tamper = be_value (slice b 12 14);
      packet_crc = be_value (slice b 14 16);
    }

unfoldable pub record_fields : Scm → List Bytes
record_fields scm =
    (codes "0x" ++ format_uint scm.frame_sync 16)
    ∷ (codes "0x" ++ format_uint scm.protocol_id 16)
    ∷ (codes "0x" ++ format_uint scm.endpoint_type 16)
    ∷ format_uint scm.endpoint_id 10
    ∷ format_uint scm.consumption 10
    ∷ (codes "0x" ++ format_uint scm.tamper 16)
    ∷ (codes "0x" ++ format_uint scm.packet_crc 16)
    ∷ []

unfoldable pub headers : List Bytes
headers =
    codes "FrameSync"
    ∷ codes "ProtocolID"
    ∷ codes "EndpointType"
    ∷ codes "EndpointID"
    ∷ codes "Consumption"
    ∷ codes "Tamper"
    ∷ codes "PacketCRC"
    ∷ []

unfoldable pub message : Scm → Message
message scm = record {
  fields = record_fields scm;
  headers = some headers;
  msg_type = codes "SCM+";
  meter_id = scm.endpoint_id;
  meter_type = scm.endpoint_type;
  checksum = be16 scm.packet_crc;
}

-- The tests of `Parse` on a packet that was not seen before.
unfoldable pub accept : Data → Option Message
accept data' =
    let scm = new_scm data' in
    if not (crc_checksum ccitt (drop 2 data'.bytes) == ccitt.residue)
    then none
    else if scm.endpoint_id == 0 || not (scm.protocol_id == 0x1E)
    then none
    else some (message scm)

unfoldable pub parse : Bytes → List Data → Option Sent
parse buffer pkts = scan (16 * 8) accept buffer [] pkts
