-- ===== src/Idm.antt =====
-- idm/idm.go: the parser for interval data messages.
pub mod Parse
pub mod Tests
use rtlamr.Base.{
  ℕ, zero, suc, ◌+◌, ◌*◌, ◌^◌, bit_and, List, [], ◌∷◌, ◌++◌, map, not, ◌==◌, if◌then◌else◌, Option,
  none, some, slice, get_or,
}
use rtlamr.Base.Text.{Bytes, codes, be_value, format_uint, format_hex}
use rtlamr.Crc.{crc_checksum}
use rtlamr.Crc.Residue.{be16, ccitt}
use rtlamr.Protocol.{Data, Message}
use rtlamr.Protocol.Config.{PacketConfig, packet_config}
use rtlamr.Protocol.Intervals.{read_intervals, interval_fields}
use rtlamr.Protocol.Scan.{Sent, scan}

unfoldable pub config : ℕ → PacketConfig
config chip_length =
    packet_config (codes "idm") (codes "01010101010101010001011010100011") 912600155 32768
      chip_length 32 (92 * 8)

pub record Idm : Type 0 where
  pub preamble : ℕ
  pub packet_type_id : ℕ
  pub packet_length : ℕ
  pub hamming_code : ℕ
  pub application_version : ℕ
  pub ert_type : ℕ
  pub ert_serial_number : ℕ
  pub consumption_interval_count : ℕ
  pub module_programming_state : ℕ
  pub tamper_counters : Bytes
  pub asynchronous_counters : ℕ
  pub power_outage_flags : Bytes
  pub last_consumption_count : ℕ
  pub differential_consumption_intervals : List ℕ
  pub transmit_time_offset : ℕ
  pub serial_number_crc : ℕ
  pub packet_crc : ℕ

-- On the 92 bytes of the parser's buffer.
unfoldable pub new_idm : Data → Idm
new_idm data' =
    let b = data'.bytes in
    record {
      preamble = be_value (slice b 0 4);
      packet_type_id = get_or b 4 0;
      packet_length = get_or b 5 0;
      hamming_code = get_or b 6 0;
      application_version = get_or b 7 0;
      ert_type = bit_and (get_or b 8 0) 0x0F;
      ert_serial_number = be_value (slice b 9 13);
      consumption_interval_count = get_or b 13 0;
      module_programming_state = get_or b 14 0;
      tamper_counters = slice b 15 21;
      asynchronous_counters = be_value (slice b 21 23);
      power_outage_flags = slice b 23 29;
      last_consumption_count = be_value (slice b 29 33);
      differential_consumption_intervals = read_intervals 9 47 264 data'.bits;
      transmit_time_offset = be_value (slice b 86 88);
      serial_number_crc = be_value (slice b 88 90);
      packet_crc = be_value (slice b 90 92);
    }

-- `fmt.Sprintf("%02X", bytes)`.
unfoldable pub hex_bytes : Bytes → Bytes
hex_bytes [] = []
hex_bytes (b ∷ bytes) = format_hex 2 b ++ hex_bytes bytes

unfoldable pub record_fields : Idm → List Bytes
record_fields idm =
    (codes "0x" ++ format_hex 8 idm.preamble)
    ∷ (codes "0x" ++ format_hex 2 idm.packet_type_id)
    ∷ (codes "0x" ++ format_hex 2 idm.packet_length)
    ∷ (codes "0x" ++ format_hex 2 idm.hamming_code)
    ∷ (codes "0x" ++ format_hex 2 idm.application_version)
    ∷ (codes "0x" ++ format_hex 2 idm.ert_type)
    ∷ format_uint idm.ert_serial_number 10
    ∷ format_uint idm.consumption_interval_count 10
    ∷ (codes "0x" ++ format_hex 2 idm.module_programming_state)
    ∷ hex_bytes idm.tamper_counters
    ∷ (codes "0x" ++ format_hex 2 idm.asynchronous_counters)
    ∷ hex_bytes idm.power_outage_flags
    ∷ format_uint idm.last_consumption_count 10
    ∷ (interval_fields idm.differential_consumption_intervals
        ++ format_uint idm.transmit_time_offset 10
          ∷ (codes "0x" ++ format_hex 4 idm.serial_number_crc)
          ∷ (codes "0x" ++ format_hex 4 idm.packet_crc)
          ∷ [])

-- The columns of the intervals, from index `idx` with `left` to go.
unfoldable pub interval_headers : ℕ → ℕ → List Bytes
interval_headers zero idx = []
interval_headers (suc left) idx =
    (codes "DifferentialConsumptionIntervals_" ++ format_uint idx 10)
    ∷ interval_headers left (suc idx)

unfoldable pub headers : List Bytes
headers =
    map codes (
      "Preamble" ∷ "PacketTypeID" ∷ "PacketLength" ∷ "HammingCode" ∷ "ApplicationVersion"
      ∷ "ERTType" ∷ "ERTSerialNumber" ∷ "ConsumptionIntervalCount" ∷ "ModuleProgrammingState"
      ∷ "TamperCounters" ∷ "AsynchronousCounters" ∷ "PowerOutageFlags" ∷ "LastConsumptionCount"
      ∷ [])
    ++ interval_headers 47 0
    ++ map codes ("TransmitTimeOffset" ∷ "SerialNumberCRC" ∷ "PacketCRC" ∷ [])

unfoldable pub message : Idm → Message
message idm = record {
  fields = record_fields idm;
  headers = some headers;
  msg_type = codes "IDM";
  meter_id = idm.ert_serial_number;
  meter_type = idm.ert_type;
  checksum = be16 idm.packet_crc;
}

-- The tests of `Parse` on a packet that was not seen before: the check of the packet, the check
-- of the serial number with its own two bytes, and the serial number.
unfoldable pub accept : Data → Option Message
accept data' =
    let b = data'.bytes in
    let idm = new_idm data' in
    if not (crc_checksum ccitt (slice b 4 92) == ccitt.residue)
    then none
    else if not (crc_checksum ccitt (slice b 9 13 ++ slice b 88 90) == ccitt.residue)
    then none
    else if idm.ert_serial_number == 0
    then none
    else some (message idm)

unfoldable pub parse : Bytes → List Data → Option Sent
parse buffer pkts = scan (92 * 8) accept buffer [] pkts
