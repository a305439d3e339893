-- ===== src/Scm/Air/Tests.antt =====
-- A meter's packet in the signal of a small decoder.
use mathlib.Core.List.{Memᴰ}
use rtlamr.Base.{ℕ, List, [], ◌∷◌, ◌++◌, some, replicate, ◌≡◌, refl, arith}
use rtlamr.Base.Text.{Bytes}
use rtlamr.Protocol.{Message}
use rtlamr.Protocol.Config.{PacketConfig, packet_config}
use rtlamr.Protocol.Decoder.Air.{OnAir, byte_bits}
use rtlamr.Protocol.Decoder.Config.{
  ceil_log2_from, next_power_of2, preamble_bytes, merge_config, allocate_config, allocate,
  register_protocol, register_all, new_decoder,
}
use rtlamr.Protocol.Decoder.Config.Laws.{receiver}
use rtlamr.Protocol.Decoder.FanOut.Found.{found}
use rtlamr.Protocol.Scan.Spec.{messages_of}
use rtlamr.Scm.{config, message, parse}
use rtlamr.Scm.Air.{parse-found}
use rtlamr.Scm.Layout.{body, encode}
use rtlamr.Scm.Parse.{seal}
use rtlamr.Scm.Tests.{meter, meter-InRange}

-- One chip to a sample, and so two samples to a symbol.
abbrev one_chip : List PacketConfig
one_chip = config 1 ∷ []

abbrev spread_bits : List ℕ → List ℕ
spread_bits [] = []
spread_bits (b ∷ bits) = b ∷ 1 ∷ spread_bits bits

abbrev all_bits : Bytes → List ℕ
all_bits [] = []
all_bits (b ∷ bytes) = byte_bits b ++ all_bits bytes

-- The packet begins at the fourth sample.
abbrev signal : List ℕ
signal = 1 ∷ 0 ∷ 1 ∷ spread_bits (all_bits (encode (seal meter))) ++ replicate 61 0

signal-OnAir : OnAir (receiver (λ c. c) one_chip).cfg.symbol_length signal 3 0 (encode (seal meter))
unfolding encode body seal config packet_config allocate_config allocate register_all
    register_protocol merge_config new_decoder
signal-OnAir = (
  refl,
  (refl, (refl, (refl, (refl, (refl, (refl, (refl, (refl, (refl, (refl, (refl, tt))))))))))),
)

parse-found_example :
    (ms : List Message) × (messages_of (
        parse
          (replicate 12 0)
          (found (λ c. c) one_chip 12 signal (preamble_bytes (config 1).preamble)))
      ≡ some ms)
    × Memᴰ (message (seal meter)) ms
unfolding config packet_config allocate_config allocate register_all register_protocol merge_config
    new_decoder next_power_of2 ceil_log2_from
parse-found_example =
    parse-found (λ c. c) one_chip 1 12 3 signal meter (replicate 12 0) meter-InRange (omega arith)
      refl (omega arith) (omega arith) signal-OnAir
