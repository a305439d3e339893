-- ===== src/Protocol/Decoder/Receive.antt =====
-- `Search` and `Slice` on a decoder that was allocated for a list of parsers.
use rtlamr.Base.{ℕ, List, [], ◌∷◌, some, length, get_elem?, keep, All, ◌≡◌, arith}
use rtlamr.Base.Text.{Bytes, bytes_eq}
use rtlamr.Protocol.Config.{PacketConfig}
use rtlamr.Protocol.Decoder.Config.{preamble_bytes}
use rtlamr.Protocol.Decoder.Config.Parsers.{receiver-parsers}
use rtlamr.Protocol.Decoder.Config.Laws.{IsParserConfig, receiver, receiver-IsAllocated}
use rtlamr.Protocol.Decoder.Search.{search}
use rtlamr.Protocol.Decoder.Search.Pack.{IsBit}
use rtlamr.Protocol.Decoder.Search.Passes.{stands}
use rtlamr.Protocol.Decoder.Search.Spec.{range, search-keep}

module _ {ℓ} {P : Type ℓ} where
  search-key :
      (cfg_of : P → PacketConfig) (ps : List P) (i : ℕ) (key : Bytes) (parsers : List P)
      → (quantized stale : List ℕ) → All (λ p. IsParserConfig (cfg_of p)) ps
      → get_elem? (receiver cfg_of ps).preambles i ≡ some (key, parsers)
      → length quantized ≡ (receiver cfg_of ps).cfg.buffer_length
      → All IsBit quantized
      → search (receiver cfg_of ps).cfg quantized (receiver cfg_of ps).packed_len stale key
        ≡ some (
            keep
              (stands (receiver cfg_of ps).cfg.symbol_length quantized 0 key)
              (range 0 (receiver cfg_of ps).cfg.block_size))
  search-key cfg_of ps i [] parsers quantized stale h at size bits =
      absurd (let (a, b, c) = receiver-IsAllocated cfg_of ps i [] parsers h at in omega (arith, c))
  search-key cfg_of ps i (bit ∷ key) parsers quantized stale h at size bits =
      let (a, key_bits, nonempty) = receiver-IsAllocated cfg_of ps i (bit ∷ key) parsers h at in
      search-keep (receiver cfg_of ps).cfg quantized (receiver cfg_of ps).packed_len bit key stale
        bits key_bits a.blocks a.symbols (omega (arith, a.held, size)) a.fits

  -- For every list of parsers with whole bytes to a symbol, a preamble that is not empty, and no
  -- more preamble than packet: on any bits that fill the buffer that `Allocate` makes, `Search` for
  -- each registered preamble does not fault, and returns exactly the samples of the first block at
  -- which that preamble stands; and the parsers that are registered under it are all those of the
  -- list with that preamble, in their order.
  pub search-receiver :
      (cfg_of : P → PacketConfig) (ps : List P) (i : ℕ) (key : Bytes) (parsers : List P)
      → (quantized stale : List ℕ) → All (λ p. IsParserConfig (cfg_of p)) ps
      → get_elem? (receiver cfg_of ps).preambles i ≡ some (key, parsers)
      → length quantized ≡ (receiver cfg_of ps).cfg.buffer_length
      → All IsBit quantized
      → (search (receiver cfg_of ps).cfg quantized (receiver cfg_of ps).packed_len stale key
          ≡ some (
              keep
                (stands (receiver cfg_of ps).cfg.symbol_length quantized 0 key)
                (range 0 (receiver cfg_of ps).cfg.block_size)))
        × (parsers ≡ keep (λ p. bytes_eq (preamble_bytes (cfg_of p).preamble) key) ps)
  search-receiver cfg_of ps i key parsers quantized stale h at size bits = (
    search-key cfg_of ps i key parsers quantized stale h at size bits,
    receiver-parsers cfg_of ps i key parsers at,
  )
