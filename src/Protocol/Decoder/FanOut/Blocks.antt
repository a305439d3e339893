-- ===== src/Protocol/Decoder/FanOut/Blocks.antt =====
-- `Decode` as a whole, on a decoder that was allocated for a list of parsers, block by block.
use rtlamr.Base.{
  ℕ, zero, suc, ◌+◌, ◌*◌, ◌/◌, ◌%◌, List, [], ◌∷◌, ◌++◌, some, length, length-append, length-drop,
  length-replicate, get_elem?, drop, map, replicate, All, All-append, All-drop, ◌≡◌, refl, sym, ap,
  ◌∙◌, arith,
}
use rtlamr.Base.Text.{Bytes}
use rtlamr.Crc.Serial.{IsByte}
use rtlamr.Protocol.{Data, Message}
use rtlamr.Protocol.Config.{PacketConfig}
use rtlamr.Protocol.Floats.{Floats}
use rtlamr.Protocol.Decoder.Config.{allocate, allocate_config}
use rtlamr.Protocol.Decoder.Config.Laws.{IsParserConfig, receiver}
use rtlamr.Protocol.Decoder.FanOut.{Decoding, new_decoding, decode, decode_all}
use rtlamr.Protocol.Decoder.Filter.Laws.{decode_block-append}
use rtlamr.Protocol.Decoder.Search.Pack.{IsBit}
use rtlamr.Protocol.Decoder.FanOut.Found.{
  IsRegisteredKey, found, sent, after, after-All, fan_out-sent,
}

module _ (fl : Floats) {P : Type 0} (cfg_of : P → PacketConfig) (ps : List P) where
  -- A decoder with the buffers that `Allocate` makes for the parsers, in any order of its preambles.
  pub record IsReady (d : Decoding fl P) : Type 0 where
    pub signal :
        length d.buffers.signal
        ≡ (receiver cfg_of ps).cfg.block_size + (receiver cfg_of ps).cfg.symbol_length
    pub csum : length d.buffers.csum ≡ suc (length d.buffers.signal)
    pub quantized : length d.buffers.quantized ≡ (receiver cfg_of ps).cfg.buffer_length
    pub bits : All IsBit d.buffers.quantized
    pub pkt : length d.pkt * 8 ≡ (receiver cfg_of ps).cfg.packet_symbols
    pub keys : All (λ e. IsRegisteredKey cfg_of ps e.0) d.preambles

  -- On a decoder that was allocated for parsers with whole bytes to a symbol and to a packet, a
  -- preamble that is not empty and no more preamble than packet, and for any block of bytes of its
  -- length, Decode does not panic if no parser does, whatever the arithmetic rounds: the bits move on
  -- by a block, each parser is called once, on the packets of the samples of the block at which its
  -- own preamble stands, in their order, it sends what it makes of them and is kept as it is left,
  -- and the decoder is ready for the next block.
  pub decode-sent :
      (parse : List fl.F → P → List Data → List Message × P) (lut : List fl.F) (input : Bytes)
      (d : Decoding fl P)
      → All (λ p. IsParserConfig (cfg_of p)) ps
      → IsReady d
      → length lut ≡ 256
      → All IsByte input
      → length input ≡ (receiver cfg_of ps).cfg.block_size2
      → (d' : Decoding fl P) × (bits : List ℕ) × let heard =
            found cfg_of ps (length d.pkt) d'.buffers.quantized in
          (decode fl
              (λ signal p pkts. some (parse signal p pkts))
              (receiver cfg_of ps).cfg
              (receiver cfg_of ps).packed_len
              lut
              input
              d
            ≡ some (sent (parse d'.buffers.signal) heard d.preambles, d'))
          × (d'.buffers.quantized
              ≡ drop (receiver cfg_of ps).cfg.block_size d.buffers.quantized ++ bits)
          × (d'.preambles ≡ after (parse d'.buffers.signal) heard d.preambles)
          × IsReady d'
  unfolding decode
  decode-sent parse lut input d configs ready lut_len bytes size =
      let cfg = (receiver cfg_of ps).cfg in
      let chips : cfg.symbol_length ≡ cfg.chip_length * 2 =
        unfold allocate allocate_config in refl in
      let buffer : cfg.buffer_length ≡ cfg.packet_length + cfg.block_size =
        unfold allocate allocate_config in refl in
      let block : cfg.block_size2 ≡ cfg.block_size * 2 = unfold allocate allocate_config in refl in
      let (b, bits, moves, shifted, count, ok, signal_len, csum_len) =
        decode_block-append fl cfg lut input d.buffers chips buffer lut_len bytes (size ∙ block)
          ready.signal ready.csum ready.quantized in
      let quantized_len : length b.quantized ≡ cfg.buffer_length = omega (
        arith,
        ap length shifted,
        length-append (drop cfg.block_size d.buffers.quantized) bits,
        length-drop cfg.block_size d.buffers.quantized,
        count,
        ready.quantized,
        buffer,
      ) in
      let all_bits : All IsBit b.quantized = rw shifted (
        All-append IsBit (drop cfg.block_size d.buffers.quantized) bits
          (All-drop IsBit cfg.block_size d.buffers.quantized ready.bits) ok) in
      let (last, fans, last_len) =
        fan_out-sent (parse b.signal) cfg_of ps (length d.pkt) configs (sym ready.pkt) b.quantized
          d.preambles [] d.pkt quantized_len all_bits ready.keys refl in
      (
        record {
          buffers = b;
          preambles =
              after (parse b.signal) (found cfg_of ps (length d.pkt) b.quantized) d.preambles;
          pkt = last;
        },
        bits,
        (
          rw (moves, fans) refl,
          shifted,
          refl,
          record {
            signal = signal_len ∙ ready.signal;
            csum = csum_len ∙ ready.csum ∙ ap suc (sym signal_len);
            quantized = quantized_len;
            bits = all_bits;
            pkt = ap (λ m. m * 8) last_len ∙ ready.pkt;
            keys = after-All (parse b.signal) (IsRegisteredKey cfg_of ps) _ d.preambles ready.keys;
          },
        ),
      )

  later :
      (first : Bytes × List P) (l m : List (Bytes × List P))
      → All (λ e. (i : ℕ) × (parsers : List P) × (get_elem? m i ≡ some (e.0, parsers))) l
      → All (λ e. (i : ℕ) × (parsers : List P) × (get_elem? (first ∷ m) i ≡ some (e.0, parsers))) l
  later first [] m h = tt
  later first (k ∷ l) m ((i, parsers, at), h) = ((suc i, parsers, at), later first l m h)

  indexed :
      (m : List (Bytes × List P))
      → All (λ e. (i : ℕ) × (parsers : List P) × (get_elem? m i ≡ some (e.0, parsers))) m
  indexed [] = tt
  indexed ((key, qs) ∷ m) = ((0, qs, refl), later (key, qs) m m (indexed m))

  pub new_decoding-IsReady :
      (receiver cfg_of ps).cfg.packet_symbols % 8 ≡ 0
      → IsReady (new_decoding fl (receiver cfg_of ps))
  unfolding new_decoding
  new_decoding-IsReady whole = record {
    signal = length-replicate _ fl.zero_f;
    csum = ap suc (length-replicate _ fl.zero_f) ∙ ap suc (sym (length-replicate _ fl.zero_f));
    quantized = unfold allocate in length-replicate _ 0;
    bits = unfold allocate in zeros _;
    pkt = unfold allocate in held;
    keys = indexed (receiver cfg_of ps).preambles;
  }
    where
      zeros : (n : ℕ) → All IsBit (replicate n 0)
      zeros zero = tt
      zeros (suc n) = (omega arith, zeros n)

      held : length (receiver cfg_of ps).pkt * 8 ≡ (receiver cfg_of ps).cfg.packet_symbols
      held =
          unfold allocate in
          omega (
            arith,
            length-replicate {A = ℕ} (((receiver cfg_of ps).cfg.packet_symbols + 7) / 8) 0,
            whole,
          )

  -- On such a decoder, Decode does not panic on any number of blocks if no parser does, and the
  -- decoder stays ready and keeps its preambles.
  pub decode_all-returns :
      (parse : List fl.F → P → List Data → List Message × P) (lut : List fl.F) (inputs : List Bytes)
      (d : Decoding fl P)
      → All (λ p. IsParserConfig (cfg_of p)) ps
      → IsReady d
      → length lut ≡ 256
      → All
          (λ input. All IsByte input × (length input ≡ (receiver cfg_of ps).cfg.block_size2))
          inputs
      → (sends : List (List (List Message))) × (d' : Decoding fl P) × (decode_all fl
            (λ signal p pkts. some (parse signal p pkts))
            (receiver cfg_of ps).cfg
            (receiver cfg_of ps).packed_len
            lut
            inputs
            d
          ≡ some (sends, d'))
        × (length sends ≡ length inputs)
        × (map (λ e. e.0) d'.preambles ≡ map (λ e. e.0) d.preambles)
        × IsReady d'
  unfolding decode_all
  decode_all-returns parse lut [] d configs ready lut_len blocks = ([], d, refl, refl, refl, ready)
  decode_all-returns parse lut (input ∷ inputs) d configs ready lut_len ((bytes, size), blocks) =
      let (d1, bits, (runs, shifted, parsers, ready1)) =
        decode-sent parse lut input d configs ready lut_len bytes size in
      let (sends, d2, rest, count, keys, ready2) =
        decode_all-returns parse lut inputs d1 configs ready1 lut_len blocks in
      (
        sent (parse d1.buffers.signal) (found cfg_of ps (length d.pkt) d1.buffers.quantized)
              d.preambles
            ∷ sends,
        d2,
        rw (runs, rest) refl,
        ap suc count,
        keys ∙ ap (map (λ e. e.0)) parsers ∙ keys_after (parse d1.buffers.signal) _ d.preambles,
        ready2,
      )
    where
      keys_after :
          (parse : P → List Data → List Message × P) (pkts : Bytes → List Data)
          (m : List (Bytes × List P))
          → map (λ e. e.0) (after parse pkts m) ≡ map (λ e. e.0) m
      keys_after parse pkts [] = refl
      keys_after parse pkts ((key, qs) ∷ m) = ap (◌∷◌ key) (keys_after parse pkts m)
