-- ===== src/Protocol/Decoder/Config.antt =====
-- `NewDecoder`, `RegisterProtocol`, `Allocate` and `NextPowerOf2` of protocol/decode.go.
pub mod Laws
pub mod Parsers
use rtlamr.Base.{
  ℕ, zero, suc, ◌+◌, ◌-◌, ◌*◌, ◌/◌, ◌^◌, max, List, [], ◌∷◌, ◌++◌, Bool, true, false, not, ◌==◌,
  leb, if◌then◌else◌, map, length, replicate,
}
use rtlamr.Base.Text.{Bytes, bytes_eq}
use rtlamr.Protocol.Config.{PacketConfig}

-- The least `k` from `k` on with `v` at most two to the `k`. `Ceil(Log2(v))` is exact for
-- the lengths of a buffer.
unfoldable pub ceil_log2_from : ℕ → ℕ → ℕ → ℕ
ceil_log2_from zero k v = k
ceil_log2_from (suc fuel) k v =
    let more = ceil_log2_from fuel (suc k) v in if leb v (2 ^ k) then k else more

unfoldable pub next_power_of2 : ℕ → ℕ
next_power_of2 v = 2 ^ ceil_log2_from v 0 v

-- A text of the digits 0 and 1 as numbers.
unfoldable pub preamble_bytes : Bytes → Bytes
preamble_bytes preamble = map (λ bit. if bit == 49 then 1 else 0) preamble

module _ {ℓ} {P : Type ℓ} where
  -- `d.preambles[key] = append(d.preambles[key], p)`, on an association list.
  unfoldable pub add_parser : Bytes → P → List (Bytes × List P) → List (Bytes × List P)
  add_parser key p [] = (key, p ∷ []) ∷ []
  add_parser key p ((k, ps) ∷ m) =
      let rest = add_parser key p m in
      if bytes_eq k key then (k, ps ++ p ∷ []) ∷ m else (k, ps) ∷ rest

-- The decoder without its floating-point buffers, which `Filter` models. `index_cap` is the
-- capacity of the lists of indices, and `pkt` and `packed_len` are those of their buffers.
pub record Decoder {ℓ} (P : Type ℓ) : Type ℓ where
  pub cfg : PacketConfig
  pub quantized : List ℕ
  pub preamble_strs : List Bytes
  pub preambles : List (Bytes × List P)
  pub protocols : List Bytes
  pub pkt : Bytes
  pub packed_len : ℕ
  pub index_cap : ℕ

-- The parts of the configuration that a parser's configuration changes.
unfoldable pub merge_config : PacketConfig → PacketConfig → PacketConfig
merge_config d p = record {
  protocol = d.protocol;
  preamble = d.preamble;
  data_rate = max d.data_rate p.data_rate;
  block_size = d.block_size;
  block_size2 = d.block_size2;
  chip_length = max d.chip_length p.chip_length;
  symbol_length = d.symbol_length;
  sample_rate = d.sample_rate;
  preamble_symbols = max d.preamble_symbols p.preamble_symbols;
  packet_symbols = max d.packet_symbols p.packet_symbols;
  preamble_length = d.preamble_length;
  packet_length = d.packet_length;
  buffer_length = d.buffer_length;
  center_freq = p.center_freq;
}

-- The lengths that follow from the registered parsers.
unfoldable pub allocate_config : PacketConfig → PacketConfig
allocate_config d =
    let symbol_length = d.chip_length * 2 in
    let preamble_length = d.preamble_symbols * symbol_length in
    let packet_length = d.packet_symbols * symbol_length in
    let block_size = next_power_of2 preamble_length in
    record {
      protocol = d.protocol;
      preamble = d.preamble;
      data_rate = d.data_rate;
      block_size = block_size;
      block_size2 = block_size * 2;
      chip_length = d.chip_length;
      symbol_length = symbol_length;
      sample_rate = d.data_rate * d.chip_length;
      preamble_symbols = d.preamble_symbols;
      packet_symbols = d.packet_symbols;
      preamble_length = preamble_length;
      packet_length = packet_length;
      buffer_length = packet_length + block_size;
      center_freq = d.center_freq;
    }

module _ {ℓ} {P : Type ℓ} where
  unfoldable pub new_decoder : Decoder P
  new_decoder = record {
    cfg = record {
      protocol = [];
      preamble = [];
      data_rate = 0;
      block_size = 0;
      block_size2 = 0;
      chip_length = 0;
      symbol_length = 0;
      sample_rate = 0;
      preamble_symbols = 0;
      packet_symbols = 0;
      preamble_length = 0;
      packet_length = 0;
      buffer_length = 0;
      center_freq = 0;
    };
    quantized = [];
    preamble_strs = [];
    preambles = [];
    protocols = [];
    pkt = [];
    packed_len = 0;
    index_cap = 0;
  }

  module _ (cfg_of : P → PacketConfig) where
    unfoldable pub register_protocol : P → Decoder P → Decoder P
    register_protocol p d =
        let cfg = cfg_of p in
        record {
          cfg = merge_config d.cfg cfg;
          quantized = d.quantized;
          preamble_strs = cfg.preamble ∷ d.preamble_strs;
          preambles = add_parser (preamble_bytes cfg.preamble) p d.preambles;
          protocols = d.protocols ++ cfg.protocol ∷ [];
          pkt = d.pkt;
          packed_len = d.packed_len;
          index_cap = d.index_cap;
        }

    -- The receiver registers its parsers in turn.
    unfoldable pub register_all : List P → Decoder P → Decoder P
    register_all [] d = d
    register_all (p ∷ ps) d = register_all ps (register_protocol p d)

  unfoldable pub allocate : Decoder P → Decoder P
  allocate d =
      let cfg = allocate_config d.cfg in
      record {
        cfg = cfg;
        quantized = replicate cfg.buffer_length 0;
        preamble_strs = d.preamble_strs;
        preambles = d.preambles;
        protocols = d.protocols;
        pkt = replicate ((cfg.packet_symbols + 7) / 8) 0;
        packed_len = (cfg.block_size + cfg.preamble_length + 7) / 8;
        index_cap = cfg.block_size;
      }
