-- ===== src/Scm/Air.antt =====
-- A meter's packet in the signal, from the decoder's bits to the message.
pub mod Tests
use mathlib.Core.Logic.{◌≢◌}
use mathlib.Core.List.{Memᴰ}
use rtlamr.Base.{
  ℕ, ◌+◌, ◌*◌, ◌/◌, ◌%◌, ◌^◌, ◌≤◌, ◌<◌, List, [], ◌∷◌, ◌++◌, Option, some, true, length, take, keep,
  ◌≡◌, refl, sym, ap, ap₂, ◌∙◌, arith,
}
use rtlamr.Base.Text.{Bytes}
use rtlamr.Crc.Residue.{be16}
use rtlamr.Protocol.{Data, Message, new_data}
use rtlamr.Protocol.Config.{PacketConfig, packet_config}
use rtlamr.Protocol.Decoder.Air.{
  OnAir, byte_bits, packet_bytes-OnAir, stands-sampled, keep-Mem, range-Mem,
}
use rtlamr.Protocol.Decoder.Config.{preamble_bytes}
use rtlamr.Protocol.Decoder.Config.Laws.{receiver}
use rtlamr.Protocol.Decoder.FanOut.Found.{found}
use rtlamr.Protocol.Decoder.Search.Passes.{stands}
use rtlamr.Protocol.Decoder.Search.Spec.{range}
use rtlamr.Protocol.Decoder.Slice.{data_at, sampled, packet_bytes, length-packet_bytes}
use rtlamr.Protocol.Scan.{scan}
use rtlamr.Protocol.Scan.Among.{scan-among}
use rtlamr.Protocol.Scan.Spec.{messages_of}
use rtlamr.Scm.{Scm, config, message, accept, new_scm, parse}
use rtlamr.Scm.Layout.{InRange, body, encode, encode-IsByte}
use rtlamr.Scm.Parse.{seal, seal-InRange, accept-encode, accept-data_at}

abbrev key : ℕ → Bytes
key chip_length = preamble_bytes (config chip_length).preamble

module _ (symbol_length : ℕ) (quantized : List ℕ) (q : ℕ) (m : Scm) where
  -- The three bytes that the packet begins with hold the preamble.
  preamble_sampled :
      (chip_length : ℕ)
      → InRange m
      → OnAir symbol_length quantized q 0 (encode (seal m))
      → sampled symbol_length quantized q 0 (length (key chip_length)) ≡ key chip_length
  unfolding config packet_config preamble_bytes encode body seal
  preamble_sampled chip_length h (first, (second, (third, air))) =
      ap₂ (◌++◌) first (ap₂ (◌++◌) second (ap (take 5) third ∙ zeros))
    where
      zeros : take 5 (byte_bits (m.id / 2 ^ 24 * 2)) ≡ 0 ∷ 0 ∷ 0 ∷ 0 ∷ 0 ∷ []
      zeros =
          let small : m.id / 2 ^ 24 < 4 = omega (arith, h.id) in
          ap₂ (◌∷◌) (omega (arith, small)) (
            ap₂ (◌∷◌) (omega (arith, small)) (
              ap₂ (◌∷◌) (omega (arith, small))
                (ap₂ (◌∷◌) (omega (arith, small)) (ap₂ (◌∷◌) (omega (arith, small)) refl))))

module _ {P : Type 0} (cfg_of : P → PacketConfig) (ps : List P) where
  -- If the samples one symbol apart, from any sample of a block on, are the packet that a meter sends
  -- for a message that fits its fields and has an id other than zero, then SCM's Parse does not panic
  -- on the packets that the decoder finds for its preamble in that block, and the message is among
  -- those that it sends, with all its fields, whatever the other samples are and whatever the shared
  -- buffer holds; for a decoder with packets of twelve bytes or more.
  pub parse-found :
      (chip_length n q : ℕ) (quantized : List ℕ) (m : Scm) (buffer : Bytes)
      → InRange m
      → m.id ≢ 0
      → length buffer ≡ 12
      → 12 ≤ n
      → q < (receiver cfg_of ps).cfg.block_size
      → OnAir (receiver cfg_of ps).cfg.symbol_length quantized q 0 (encode (seal m))
      → (ms : List Message) × (messages_of (
            parse buffer
              (found cfg_of ps n quantized (preamble_bytes (config chip_length).preamble)))
          ≡ some ms)
        × Memᴰ (message (seal m)) ms
  unfolding parse
  parse-found chip_length n q quantized m buffer h ne size long inside air =
      let cfg = (receiver cfg_of ps).cfg in
      let packet = encode (seal m) in
      let twelve : length packet ≡ 12 = unfold encode body in refl in
      let (ms, runs, sent) =
        scan-among accept packet (message (seal m)) buffer
          (λ k. packet_bytes cfg.symbol_length quantized k 0 n) q
          (keep (stands cfg.symbol_length quantized 0 (key chip_length)) (range 0 cfg.block_size))
          (λ k. accept-data_at k packet ∙ accept-encode m h ne) (size ∙ sym twelve)
          (λ k. omega (arith, length-packet_bytes cfg.symbol_length quantized k 0 n, twelve, long))
          (packet_bytes-OnAir cfg.symbol_length quantized q n 0 packet
            (encode-IsByte (seal m) (seal-InRange m h)) air (omega (arith, twelve, long)))
          (keep-Mem _ q _ (range-Mem q 0 cfg.block_size (omega arith) (omega (arith, inside))) (
            stands-sampled cfg.symbol_length quantized q (key chip_length) 0
              (preamble_sampled cfg.symbol_length quantized q m chip_length h air))) in
      (
        ms,
        ap
              (λ symbols. messages_of (
                scan symbols accept buffer []
                  (found cfg_of ps n quantized (preamble_bytes (config chip_length).preamble))))
              (let e : 96 ≡ 8 * length packet = omega (arith, twelve) in e)
            ∙ runs,
        sent,
      )
