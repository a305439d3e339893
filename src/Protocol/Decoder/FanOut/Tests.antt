-- ===== src/Protocol/Decoder/FanOut/Tests.antt =====
-- `Decode` of a small decoder, with a parser that sends a message for each packet.
use rtlamr.Base.{
  ℕ, zero, suc, List, [], ◌∷◌, ◌++◌, none, some, length, drop, map, replicate, All, ◌≡◌, refl,
  arith,
}
use rtlamr.Base.Text.{codes}
use rtlamr.Crc.Serial.{IsByte}
use rtlamr.Protocol.{Data, Message}
use rtlamr.Protocol.Config.{PacketConfig, packet_config}
use rtlamr.Protocol.Decoder.Config.{
  ceil_log2_from, next_power_of2, preamble_bytes, add_parser, merge_config, allocate_config,
  allocate, register_protocol, register_all, new_decoder,
}
use rtlamr.Protocol.Decoder.FanOut.{Decoding, new_decoding, decode, decode_all}
use rtlamr.Protocol.Decoder.FanOut.Found.{found, sent, after}
use rtlamr.Protocol.Decoder.FanOut.Blocks.{
  IsReady, new_decoding-IsReady, decode-sent, decode_all-returns,
}
use rtlamr.Protocol.Decoder.Tests.{tiny, tiny_decoder, tiny-IsParserConfig}
use rtlamr.R900.Tests.{whole}

abbrev heard : Data → Message
heard d = record {
  fields = [];
  headers = none;
  msg_type = codes "tiny";
  meter_id = 1;
  meter_type = 0;
  checksum = d.bytes;
}

abbrev parse_tiny : List whole.F → PacketConfig → List Data → List Message × PacketConfig
parse_tiny signal p pkts = (map heard pkts, p)

abbrev tiny_first : Decoding whole PacketConfig
tiny_first = new_decoding whole tiny_decoder

tiny_first-IsReady : IsReady whole (λ c. c) (tiny ∷ []) tiny_first
unfolding allocate_config allocate register_all register_protocol merge_config new_decoder
    preamble_bytes add_parser packet_config next_power_of2 ceil_log2_from
tiny_first-IsReady = new_decoding-IsReady whole (λ c. c) (tiny ∷ []) refl

replicate-IsByte : (n : ℕ) → All IsByte (replicate n 9)
replicate-IsByte zero = tt
replicate-IsByte (suc n) = (omega arith, replicate-IsByte n)

decode-sent_example :
    (d' : Decoding whole PacketConfig) × (bits : List ℕ) × ((decode whole
          (λ signal p pkts. some (parse_tiny signal p pkts))
          tiny_decoder.cfg
          tiny_decoder.packed_len
          (replicate 256 3)
          (replicate 32 9)
          tiny_first
        ≡ some (
          sent
              (parse_tiny d'.buffers.signal)
              (found (λ c. c) (tiny ∷ []) (length tiny_first.pkt) d'.buffers.quantized)
              tiny_first.preambles,
          d',
        ))
      × (d'.buffers.quantized ≡ drop 16 tiny_first.buffers.quantized ++ bits)
      × (d'.preambles
          ≡ after
              (parse_tiny d'.buffers.signal)
              (found (λ c. c) (tiny ∷ []) (length tiny_first.pkt) d'.buffers.quantized)
              tiny_first.preambles)
      × IsReady whole (λ c. c) (tiny ∷ []) d')
unfolding allocate_config allocate register_all register_protocol merge_config new_decoder
    preamble_bytes add_parser packet_config next_power_of2 ceil_log2_from
decode-sent_example =
    decode-sent whole (λ c. c) (tiny ∷ []) parse_tiny (replicate 256 3) (replicate 32 9) tiny_first
      tiny-IsParserConfig tiny_first-IsReady refl (replicate-IsByte 32) refl

decode_all-returns_example :
    (sends : List (List (List Message))) × (d' : Decoding whole PacketConfig) × (decode_all whole
        (λ signal p pkts. some (parse_tiny signal p pkts))
        tiny_decoder.cfg
        tiny_decoder.packed_len
        (replicate 256 3)
        (replicate 32 9 ∷ replicate 32 9 ∷ [])
        tiny_first
      ≡ some (sends, d'))
    × (length sends ≡ 2)
    × (map (λ e. e.0) d'.preambles ≡ map (λ e. e.0) tiny_first.preambles)
    × IsReady whole (λ c. c) (tiny ∷ []) d'
unfolding allocate_config allocate register_all register_protocol merge_config new_decoder
    preamble_bytes add_parser packet_config next_power_of2 ceil_log2_from
decode_all-returns_example =
    decode_all-returns whole (λ c. c) (tiny ∷ []) parse_tiny (replicate 256 3)
      (replicate 32 9 ∷ replicate 32 9 ∷ []) tiny_first tiny-IsParserConfig tiny_first-IsReady refl
      ((replicate-IsByte 32, refl), ((replicate-IsByte 32, refl), tt))
