-- ===== src/NetIdm.antt =====
-- netidm/netidm.go: the parser for net meter interval data messages.
pub mod Parse
pub mod Tests
use rtlamr.Base.{
  ℕ, ◌+◌, ◌*◌, ◌^◌, bit_and, bit_or, List, [], ◌∷◌, ◌++◌, map, not, ◌==◌, if◌then◌else◌, Option,
  none, some, slice, get_or,
}
use rtlamr.Base.Text.{Bytes, codes, be_value, format_uint, format_hex}
use rtlamr.Crc.{crc_checksum}
use rtlamr.Crc.Residue.{be16, ccitt}
use rtlamr.Protocol.{Data, Message}
use rtlamr.Protocol.Config.{PacketConfig, packet_config}
use rtlamr.Idm.{interval_headers}
use rtlamr.Protocol.Intervals.{read_intervals, interval_fields}
use rtlamr.Protocol.Scan.{Sent, scan}

unfoldable pub config : ℕ → PacketConfig
config chip_length =
    packet_config (codes "netidm") (codes "01010101010101010001011010100011") 912600155 32768
      chip_length 32 (92 * 8)

pub record NetIdm : Type 0 where
  pub preamble : ℕ
  pub protocol_id : ℕ
  pub packet_length : ℕ
  pub hamming_code : ℕ
  pub application_version : ℕ
  pub ert_type : ℕ
  pub ert_serial_number : ℕ
  pub consumption_interval_count : ℕ
  pub programming_state : ℕ
  pub last_generation : ℕ
  pub last_consumption : ℕ
  pub last_consumption_net : ℕ
  pub differential_consumption_intervals : List ℕ
  pub transmit_time_offset : ℕ
  pub serial_number_crc : ℕ
  pub packet_crc : ℕ

-- `uint32(a)<<16 | uint32(b)<<8 | uint32(c)` on bytes.
unfoldable pub or_bytes : ℕ → ℕ → ℕ → ℕ
or_bytes a b c = bit_or (bit_or (a * 2 ^ 16) (b * 2 ^ 8)) c

-- On the 92 bytes of the parser's buffer.
unfoldable pub new_net_idm : Data → NetIdm
unfolding or_bytes
new_net_idm data' =
    let b = data'.bytes in
    record {
      preamble = be_value (slice b 0 4);
      protocol_id = get_or b 4 0;
      packet_length = get_or b 5 0;
      hamming_code = get_or b 6 0;
      application_version = get_or b 7 0;
      ert_type = bit_and (get_or b 8 0) 0x0F;
      ert_serial_number = be_value (slice b 9 13);
      consumption_interval_count = get_or b 13 0;
      programming_state = get_or b 14 0;
      last_generation = or_bytes (get_or b 28 0) (get_or b 29 0) (get_or b 30 0);
      last_consumption = or_bytes (get_or b 25 0) (get_or b 26 0) (get_or b 27 0);
      last_consumption_net = be_value (slice b 34 38);
      differential_consumption_intervals = read_intervals 14 27 (38 * 8) data'.bits;
      transmit_time_offset = be_value (slice b 86 88);
      serial_number_crc = be_value (slice b 88 90);
      packet_crc = be_value (slice b 90 92);
    }

unfoldable pub record_fields : NetIdm → List Bytes
record_fields netidm =
    (codes "0x" ++ format_hex 8 netidm.preamble)
    ∷ (codes "0x" ++ format_hex 2 netidm.protocol_id)
    ∷ (codes "0x" ++ format_hex 2 netidm.packet_length)
    ∷ (codes "0x" ++ format_hex 2 netidm.hamming_code)
    ∷ (codes "0x" ++ format_hex 2 netidm.application_version)
    ∷ (codes "0x" ++ format_hex 2 netidm.ert_type)
    ∷ format_uint netidm.ert_serial_number 10
    ∷ format_uint netidm.consumption_interval_count 10
    ∷ (codes "0x" ++ format_hex 2 netidm.programming_state)
    ∷ format_uint netidm.last_generation 10
    ∷ format_uint netidm.last_consumption 10
    ∷ format_uint netidm.last_consumption_net 10
    ∷ (interval_fields netidm.differential_consumption_intervals
        ++ format_uint netidm.transmit_time_offset 10
          ∷ (codes "0x" ++ format_hex 4 netidm.serial_number_crc)
          ∷ (codes "0x" ++ format_hex 4 netidm.packet_crc)
          ∷ [])

unfoldable pub headers : List Bytes
headers =
    map codes (
      "Preamble" ∷ "ProtocolID" ∷ "PacketLength" ∷ "HammingCode" ∷ "ApplicationVersion" ∷ "ERTType"
      ∷ "ERTSerialNumber" ∷ "ConsumptionIntervalCount" ∷ "ProgrammingState" ∷ "LastGeneration"
      ∷ "LastConsumption" ∷ "LastConsumptionNet" ∷ [])
    ++ interval_headers 27 0
    ++ map codes ("TransmitTimeOffset" ∷ "SerialNumberCRC" ∷ "PacketCRC" ∷ [])

unfoldable pub message : NetIdm → Message
message netidm = record {
  fields = record_fields netidm;
  headers = some headers;
  msg_type = codes "NetIDM";
  meter_id = netidm.ert_serial_number;
  meter_type = netidm.ert_type;
  checksum = be16 netidm.packet_crc;
}

-- The tests of `Parse` on a packet that was not seen before: the check of the packet, the check
-- of the serial number with its own two bytes, and the serial number.
unfoldable pub accept : Data → Option Message
accept data' =
    let b = data'.bytes in
    let netidm = new_net_idm data' in
    if not (crc_checksum ccitt (slice b 4 92) == ccitt.residue)
    then none
    else if not (crc_checksum ccitt (slice b 9 13 ++ slice b 88 90) == ccitt.residue)
    then none
    else if netidm.ert_serial_number == 0
    then none
    else some (message netidm)

unfoldable pub parse : Bytes → List Data → Option Sent
parse buffer pkts = scan (92 * 8) accept buffer [] pkts
