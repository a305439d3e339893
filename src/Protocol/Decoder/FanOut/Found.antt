-- ===== src/Protocol/Decoder/FanOut/Found.antt =====
-- The loop of `Decode` over the preambles, on a decoder that was allocated for a list of parsers.
use rtlamr.Base.{
  ℕ, ◌+◌, ◌*◌, ◌<◌, List, [], ◌∷◌, ◌++◌, false, ltb, some, length, get_elem?, keep, map, All, ◌≡◌,
  refl, ap, arith,
}
use rtlamr.Base.Text.{Bytes}
use rtlamr.Protocol.{Data, Message}
use rtlamr.Protocol.Config.{PacketConfig}
use rtlamr.Protocol.Decoder.Config.{allocate, allocate_config}
use rtlamr.Protocol.Decoder.Config.Laws.{IsParserConfig, receiver, receiver-symbols}
use rtlamr.Protocol.Decoder.FanOut.{parse_all, fan_out}
use rtlamr.Protocol.Decoder.Receive.{search-receiver}
use rtlamr.Protocol.Decoder.Search.Pack.{IsBit}
use rtlamr.Protocol.Decoder.Search.Passes.{stands, All-keep}
use rtlamr.Protocol.Decoder.Search.Spec.{range, All-range_zero}
use rtlamr.Protocol.Decoder.Slice.{packet_at, in_block, slice_packets-packet_at}

-- Nothing in the block is skipped.
keep-in_block :
    (cfg : PacketConfig) (quantized : List ℕ) (n : ℕ) (indices : List ℕ)
    → All (λ q. q < cfg.block_size) indices
    → keep (in_block cfg quantized n) indices ≡ indices
keep-in_block cfg quantized n [] h = refl
keep-in_block cfg quantized n (q ∷ indices) (lt, h) =
    let inside : ltb cfg.block_size q ≡ false = ground arith in
    rw (inside) (ap (◌∷◌ q) (keep-in_block cfg quantized n indices h))

module _ {P : Type 0} (cfg_of : P → PacketConfig) (ps : List P) where
  -- A preamble that some parser was registered under.
  abbrev pub IsRegisteredKey : Bytes → Type 0
  IsRegisteredKey key =
      (i : ℕ) × (parsers : List P) × (get_elem? (receiver cfg_of ps).preambles i
        ≡ some (key, parsers))

  -- The packets of a preamble: one for each sample of the block at which it stands.
  abbrev pub found : ℕ → List ℕ → Bytes → List Data
  found n quantized key =
      let cfg = (receiver cfg_of ps).cfg in
      map (packet_at cfg quantized n)
        (keep (stands cfg.symbol_length quantized 0 key) (range 0 cfg.block_size))

module _ {P : Type 0} (parse : P → List Data → List Message × P) where
  parse_all-map :
      (qs : List P) (pkts : List Data)
      → parse_all (λ p pkts. some (parse p pkts)) qs pkts
        ≡ some (map (λ p. (parse p pkts).0) qs, map (λ p. (parse p pkts).1) qs)
  unfolding parse_all
  parse_all-map [] pkts = refl
  parse_all-map (p ∷ qs) pkts = rw (parse_all-map qs pkts) refl

  -- What the parsers send of the packets that are given for their preambles, and what they become.
  abbrev pub sent : (Bytes → List Data) → List (Bytes × List P) → List (List Message)
  sent pkts [] = []
  sent pkts ((key, qs) ∷ m) = map (λ p. (parse p (pkts key)).0) qs ++ sent pkts m

  abbrev pub after : (Bytes → List Data) → List (Bytes × List P) → List (Bytes × List P)
  after pkts [] = []
  after pkts ((key, qs) ∷ m) = (key, map (λ p. (parse p (pkts key)).1) qs) ∷ after pkts m

  pub after-All :
      (K : Bytes → Type 0) (pkts : Bytes → List Data) (m : List (Bytes × List P))
      → All (λ e. K e.0) m
      → All (λ e. K e.0) (after pkts m)
  after-All K pkts [] h = tt
  after-All K pkts ((key, qs) ∷ m) (k, h) = (k, after-All K pkts m h)

  module _ (cfg_of : P → PacketConfig) (ps : List P) (n : ℕ)
      (configs : All (λ p. IsParserConfig (cfg_of p)) ps)
      (whole : (receiver cfg_of ps).cfg.packet_symbols ≡ n * 8) where
    -- The buffer holds a packet at each index of a block.
    packet_fits :
        (i : ℕ) (key : Bytes) (parsers : List P) (quantized : List ℕ)
        → get_elem? (receiver cfg_of ps).preambles i ≡ some (key, parsers)
        → length quantized ≡ (receiver cfg_of ps).cfg.buffer_length
        → (receiver cfg_of ps).cfg.block_size + n * 8 * (receiver cfg_of ps).cfg.symbol_length
          < length quantized + (receiver cfg_of ps).cfg.symbol_length
    packet_fits i key parsers quantized at size =
        let cfg = (receiver cfg_of ps).cfg in
        let packet : cfg.packet_symbols * cfg.symbol_length ≡ n * 8 * cfg.symbol_length =
          ap (λ m. m * cfg.symbol_length) whole in
        let buffer : cfg.buffer_length ≡ cfg.packet_symbols * cfg.symbol_length + cfg.block_size =
          unfold allocate allocate_config in refl in
        omega (arith, receiver-symbols cfg_of ps i key parsers configs at, packet, buffer, size)

    pub fan_out-sent :
        (quantized : List ℕ) (m : List (Bytes × List P)) (stale : List ℕ) (pkt : Bytes)
        → length quantized ≡ (receiver cfg_of ps).cfg.buffer_length
        → All IsBit quantized
        → All (λ e. IsRegisteredKey cfg_of ps e.0) m
        → length pkt ≡ n
        → (last : Bytes) × (fan_out
              (λ p pkts. some (parse p pkts))
              (receiver cfg_of ps).cfg
              quantized
              (receiver cfg_of ps).packed_len
              m
              stale
              pkt
            ≡ some
                (sent (found cfg_of ps n quantized) m, after (found cfg_of ps n quantized) m, last))
          × (length last ≡ n)
    unfolding fan_out
    fan_out-sent quantized [] stale pkt size bits keys held = (pkt, refl, held)
    fan_out-sent quantized ((key, qs) ∷ m) stale pkt size bits ((i, parsers, at), keys) held =
        let cfg = (receiver cfg_of ps).cfg in
        let indices = keep (stands cfg.symbol_length quantized 0 key) (range 0 cfg.block_size) in
        let (pkt', slices, held') =
          slice_packets-packet_at cfg quantized n indices pkt whole held bits
            (packet_fits i key parsers quantized at size) in
        let (last, rest, size') = fan_out-sent quantized m indices pkt' size bits keys held' in
        (
          last,
          rw
              (
                (search-receiver cfg_of ps i key parsers quantized stale configs at size bits).0,
                slices,
                keep-in_block cfg quantized n indices
                    (All-keep _ _ _ (All-range_zero cfg.block_size)),
                parse_all-map qs (found cfg_of ps n quantized key),
                rest,
              )
              refl,
          size',
        )
