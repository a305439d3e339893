-- ===== src/Protocol/Config.antt =====
-- `PacketConfig` of protocol/decode.go.
use rtlamr.Base.{ℕ}
use rtlamr.Base.Text.{Bytes}

pub record PacketConfig : Type 0 where
  pub protocol : Bytes
  pub preamble : Bytes
  pub data_rate : ℕ
  pub block_size : ℕ
  pub block_size2 : ℕ
  pub chip_length : ℕ
  pub symbol_length : ℕ
  pub sample_rate : ℕ
  pub preamble_symbols : ℕ
  pub packet_symbols : ℕ
  pub preamble_length : ℕ
  pub packet_length : ℕ
  pub buffer_length : ℕ
  pub center_freq : ℕ

-- A composite literal that gives the fields a parser sets; the others are zero.
unfoldable pub packet_config : Bytes → Bytes → ℕ → ℕ → ℕ → ℕ → ℕ → PacketConfig
packet_config protocol preamble center_freq data_rate chip_length preamble_symbols packet_symbols =
    record {
      protocol = protocol;
      preamble = preamble;
      data_rate = data_rate;
      block_size = 0;
      block_size2 = 0;
      chip_length = chip_length;
      symbol_length = 0;
      sample_rate = 0;
      preamble_symbols = preamble_symbols;
      packet_symbols = packet_symbols;
      preamble_length = 0;
      packet_length = 0;
      buffer_length = 0;
      center_freq = center_freq;
    }
