-- ===== src/Protocol/Decoder/Tests.antt =====
-- The decoder's theorems on concrete inputs, and runs of its definitions.
use rtlamr.Base.{keep}
use rtlamr.Base.{ℕ, zero, suc, List, [], ◌∷◌, some, length, All, replicate, map, ◌≡◌, refl, arith}
use rtlamr.Base.Text.{Bytes, codes, bytes_eq}
use rtlamr.Protocol.Config.{PacketConfig, packet_config}
use rtlamr.Protocol.Decoder.Config.{
  Decoder, ceil_log2_from, next_power_of2, preamble_bytes, add_parser, merge_config,
  allocate_config, allocate, register_protocol, register_all, new_decoder,
}
use rtlamr.Protocol.Decoder.Config.Laws.{IsParserConfig, receiver}
use rtlamr.Protocol.Decoder.Search.{search}
use rtlamr.Protocol.Decoder.Search.Pack.{IsBit}
use rtlamr.Protocol.Decoder.Search.Passes.{stands}
use rtlamr.Protocol.Decoder.Receive.{search-receiver}
use rtlamr.Protocol.Decoder.Slice.{slice_packets, packet_at, slice_packets-packet_at}

-- A parser with the preamble 10, four chips and a packet of eight symbols.
abbrev pub tiny : PacketConfig
tiny = packet_config (codes "tiny") (codes "10") 912600155 32768 4 2 8

abbrev pub tiny_decoder : Decoder PacketConfig
tiny_decoder = receiver (λ c. c) (tiny ∷ [])

-- The preamble stands at the third sample of the block.
abbrev tiny_signal : List ℕ
tiny_signal = 0 ∷ 0 ∷ 1 ∷ replicate 77 0

pub tiny-IsParserConfig : All (λ c. IsParserConfig c) (tiny ∷ [])
unfolding packet_config
tiny-IsParserConfig = (
  record {
    whole = refl;
    chips = omega arith;
    nonempty = omega arith;
    counted = omega arith;
    longer = omega arith;
  },
  tt,
)

tiny_signal-IsBit : All IsBit tiny_signal
tiny_signal-IsBit = (omega arith, (omega arith, (omega arith, All-replicate 77)))
  where
    All-replicate : (n : ℕ) → All IsBit (replicate n 0)
    All-replicate zero = tt
    All-replicate (suc n) = (omega arith, All-replicate n)

search-receiver_example :
    (search tiny_decoder.cfg tiny_signal tiny_decoder.packed_len [] (1 ∷ 0 ∷ []) ≡ some (2 ∷ []))
    × (tiny ∷ []
        ≡ keep
            (λ (c : PacketConfig). bytes_eq (preamble_bytes c.preamble) (1 ∷ 0 ∷ []))
            (tiny ∷ []))
unfolding allocate_config allocate register_all register_protocol merge_config new_decoder
    preamble_bytes add_parser packet_config next_power_of2 ceil_log2_from stands
search-receiver_example =
    search-receiver (λ c. c) (tiny ∷ []) 0 (1 ∷ 0 ∷ []) (tiny ∷ []) tiny_signal []
      tiny-IsParserConfig refl refl tiny_signal-IsBit

slice_packets-packet_at_example :
    (last : Bytes) × (slice_packets tiny_decoder.cfg tiny_signal (2 ∷ 17 ∷ []) (0xFF ∷ [])
      ≡ some (map (packet_at tiny_decoder.cfg tiny_signal 1) (2 ∷ []), last))
    × (length last ≡ 1)
unfolding allocate_config allocate register_all register_protocol merge_config new_decoder
    preamble_bytes add_parser packet_config next_power_of2 ceil_log2_from
slice_packets-packet_at_example =
    slice_packets-packet_at tiny_decoder.cfg tiny_signal 1 (2 ∷ 17 ∷ []) (0xFF ∷ []) refl refl
      tiny_signal-IsBit (omega arith)
