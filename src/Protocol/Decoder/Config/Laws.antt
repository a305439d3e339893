-- ===== src/Protocol/Decoder/Config/Laws.antt =====
-- What registering parsers and allocating establish.
use rtlamr.Base.{
  ℕ, zero, suc, ◌+◌, ◌-◌, ◌*◌, ◌/◌, ◌%◌, ◌^◌, ◌≤◌, ◌<◌, List, [], ◌∷◌, leb, length, get_elem?, some,
  All, Bool-cases, inl, inr, ◌≡◌, refl, ap, ◌∙◌, arith, lt-two-pow,
}
use native.Mathlib.Nat.{two-pow-succ}
use mathlib.Core.Path.{subst}
use mathlib.Core.Option.{some_inj}
use rtlamr.Base.Text.{Bytes, bytes_eq}
use rtlamr.Protocol.Config.{PacketConfig}
use rtlamr.Protocol.Decoder.Config.{
  ceil_log2_from, next_power_of2, preamble_bytes, add_parser, Decoder, merge_config,
  allocate_config, new_decoder, register_protocol, register_all, allocate,
}
use rtlamr.Protocol.Decoder.Search.Pack.{IsBit}

ceil_bounds :
    (fuel k v : ℕ)
    → v ≤ k + fuel
    → 2 ^ k < 2 * v
    → (v ≤ 2 ^ ceil_log2_from fuel k v) × (2 ^ ceil_log2_from fuel k v < 2 * v)
unfolding ceil_log2_from
ceil_bounds zero k v enough low = (omega (arith, enough, lt-two-pow k), low)
ceil_bounds (suc fuel) k v enough low = elim (Bool-cases (leb v (2 ^ k))) [
  | inl e ↦ rw e (let le : v ≤ 2 ^ k = ground arith in le, low)
  | inr e ↦
      let gt : 2 ^ k < v = ground arith in
      rw e (ceil_bounds fuel (suc k) v (omega arith) (omega (arith, gt, two-pow-succ k)))
]

-- `NextPowerOf2` gives a power of two, at least its argument, and below its double.
pub next_power_of2_bounds :
    (v : ℕ)
    → 1 ≤ v
    → (v ≤ next_power_of2 v) × (next_power_of2 v < 2 * v) × ((k : ℕ) × (next_power_of2 v ≡ 2 ^ k))
unfolding next_power_of2
next_power_of2_bounds v pos =
    let (high, low) = ceil_bounds v 0 v (omega arith) (omega arith) in
    (high, low, (ceil_log2_from v 0 v, refl))

le-mul : {a b : ℕ} → a ≤ b → (c : ℕ) → a * c ≤ b * c
le-mul {a} {b} h c =
    let e : b * c ≡ a * c + (b - a) * c =
      ap (λ n. n * c) (let e' : b ≡ a + (b - a) = omega arith in e') ∙ omega arith in
    omega (arith, e)

pow_mod_eight : (k : ℕ) → 8 ≤ 2 ^ k → 2 ^ k % 8 ≡ 0
pow_mod_eight zero h = absurd (omega arith)
pow_mod_eight (suc zero) h = absurd (omega arith)
pow_mod_eight (suc (suc zero)) h = absurd (omega arith)
pow_mod_eight (suc (suc (suc k))) h =
    omega (arith, two-pow-succ k, two-pow-succ (suc k), two-pow-succ (suc (suc k)))

-- What a parser's configuration is like.
pub record IsParserConfig (cfg : PacketConfig) : Type 0 where
  pub whole : cfg.chip_length % 4 ≡ 0
  pub chips : 4 ≤ cfg.chip_length
  pub nonempty : 1 ≤ length cfg.preamble
  pub counted : length cfg.preamble ≤ cfg.preamble_symbols
  pub longer : cfg.preamble_symbols ≤ cfg.packet_symbols

-- A key of the map of preambles against the merged configuration.
pub record IsKey (cfg : PacketConfig) (key : Bytes) : Type 0 where
  pub bits : All IsBit key
  pub nonempty : 1 ≤ length key
  pub counted : length key ≤ cfg.preamble_symbols
  pub chips : 4 ≤ cfg.chip_length

pub record IsRegistered {ℓ} {P : Type ℓ} (d : Decoder P) : Type ℓ where
  pub whole : d.cfg.chip_length % 4 ≡ 0
  pub longer : d.cfg.preamble_symbols ≤ d.cfg.packet_symbols
  pub keys : All (λ e. IsKey d.cfg (e.0)) d.preambles

preamble_bytes-IsBit : (preamble : Bytes) → All IsBit (preamble_bytes preamble)
unfolding preamble_bytes
preamble_bytes-IsBit [] = tt
preamble_bytes-IsBit (bit ∷ preamble) = (ground arith, preamble_bytes-IsBit preamble)

length-preamble_bytes : (preamble : Bytes) → length (preamble_bytes preamble) ≡ length preamble
unfolding preamble_bytes
length-preamble_bytes [] = refl
length-preamble_bytes (bit ∷ preamble) = ap suc (length-preamble_bytes preamble)

module _ {ℓ} {P : Type ℓ} where
  pub add_parser-All :
      (Q : Bytes → Type 0) (key : Bytes) (p : P) (m : List (Bytes × List P))
      → Q key
      → All (λ e. Q (e.0)) m
      → All (λ e. Q (e.0)) (add_parser key p m)
  unfolding add_parser
  add_parser-All Q key p [] q h = (q, tt)
  add_parser-All Q key p ((k, ps) ∷ m) q (first, h) = elim (Bool-cases (bytes_eq k key)) [
    | inl e ↦ rw e (first, h)
    | inr e ↦ rw e (first, add_parser-All Q key p m q h)
  ]

  All_imp :
      (Q R : Bytes → Type 0) (m : List (Bytes × List P))
      → ((k : Bytes) → Q k → R k)
      → All (λ e. Q (e.0)) m
      → All (λ e. R (e.0)) m
  All_imp Q R [] f h = tt
  All_imp Q R ((k, ps) ∷ m) f (q, h) = (f k q, All_imp Q R m f h)

  new_decoder-IsRegistered : IsRegistered (new_decoder {P = P})
  unfolding new_decoder
  new_decoder-IsRegistered = record { whole = refl; longer = omega arith; keys = tt }

  module _ (cfg_of : P → PacketConfig) where
    register_protocol-IsRegistered :
        (p : P) (d : Decoder P)
        → IsParserConfig (cfg_of p)
        → IsRegistered d
        → IsRegistered (register_protocol cfg_of p d)
    unfolding register_protocol merge_config
    register_protocol-IsRegistered p d h r = record {
      whole = omega arith;
      longer = omega arith;
      keys =
          add_parser-All (IsKey (merge_config d.cfg (cfg_of p))) _ p d.preambles
            (record {
              bits = preamble_bytes-IsBit (cfg_of p).preamble;
              nonempty = omega (arith, length-preamble_bytes (cfg_of p).preamble);
              counted = omega (arith, length-preamble_bytes (cfg_of p).preamble);
              chips = omega arith;
            })
            (All_imp (IsKey d.cfg) _ d.preambles
              (λ k q. record {
                bits = q.bits;
                nonempty = q.nonempty;
                counted = omega arith;
                chips = omega arith;
              })
              r.keys);
    }

    register_all-IsRegistered :
        (ps : List P) (d : Decoder P)
        → All (λ p. IsParserConfig (cfg_of p)) ps
        → IsRegistered d
        → IsRegistered (register_all cfg_of ps d)
    unfolding register_all
    register_all-IsRegistered [] d h r = r
    register_all-IsRegistered (p ∷ ps) d (hp, h) r =
        register_all-IsRegistered ps (register_protocol cfg_of p d) h
          (register_protocol-IsRegistered p d hp r)

  -- What `Search` and `Slice` need of the lengths that `Allocate` computes.
  pub record IsAllocated (d : Decoder P) (key : Bytes) : Type 0 where
    pub blocks : d.cfg.block_size % 8 ≡ 0
    pub symbols : d.cfg.symbol_length % 8 ≡ 0
    pub held : d.packed_len * 8 ≤ d.cfg.buffer_length
    pub fits :
        length key * d.cfg.symbol_length + d.cfg.block_size ≤ d.packed_len * 8 + d.cfg.symbol_length

  allocate-IsAllocated :
      (d : Decoder P) (key : Bytes)
      → IsRegistered d
      → IsKey d.cfg key
      → IsAllocated (allocate d) key
  unfolding allocate allocate_config
  allocate-IsAllocated d key r k = record {
    blocks = blocks_ok;
    symbols = omega arith;
    held = omega (arith, blocks_ok, preamble_length, longest);
    fits = omega (arith, blocks_ok, preamble_length, shortest);
  }
    where
      symbol_length : ℕ
      symbol_length = d.cfg.chip_length * 2

      units : ℕ
      units = d.cfg.preamble_symbols * (symbol_length / 8)

      preamble_length : d.cfg.preamble_symbols * symbol_length ≡ units * 8
      preamble_length =
          ap (λ n. d.cfg.preamble_symbols * n)
            (let e : symbol_length ≡ symbol_length / 8 * 8 = omega arith in e)
          ∙ omega arith

      longest : d.cfg.preamble_symbols * symbol_length ≤ d.cfg.packet_symbols * symbol_length
      longest = le-mul r.longer symbol_length

      shortest : length key * symbol_length ≤ d.cfg.preamble_symbols * symbol_length
      shortest = le-mul k.counted symbol_length

      positive : 8 ≤ d.cfg.preamble_symbols * symbol_length
      positive =
          omega
            (arith, le-mul (let e : 1 ≤ d.cfg.preamble_symbols = omega arith in e) symbol_length)

      blocks_ok : next_power_of2 (d.cfg.preamble_symbols * symbol_length) % 8 ≡ 0
      blocks_ok =
          let (high, low, (j, power)) =
            next_power_of2_bounds (d.cfg.preamble_symbols * symbol_length)
              (omega (arith, positive)) in
          ap (λ n. n % 8) power ∙ pow_mod_eight j (omega (arith, high, positive, power))

  pub All-get_elem? :
      (Q : Bytes → Type 0) (m : List (Bytes × List P)) (i : ℕ) (key : Bytes) (ps : List P)
      → All (λ e. Q (e.0)) m
      → get_elem? m i ≡ some (key, ps)
      → Q key
  All-get_elem? Q [] i key ps h at = cc
  All-get_elem? Q (e ∷ m) zero key ps (q, h) at = subst (λ e. Q (e.0)) (some_inj.0 at) q
  All-get_elem? Q (e ∷ m) (suc i) key ps (q, h) at = All-get_elem? Q m i key ps h at

  -- The decoder that a receiver makes for its parsers.
  abbrev pub receiver : (P → PacketConfig) → List P → Decoder P
  receiver cfg_of ps = allocate (register_all cfg_of ps new_decoder)

  pub receiver-IsAllocated :
      (cfg_of : P → PacketConfig) (ps : List P) (i : ℕ) (key : Bytes) (parsers : List P)
      → All (λ p. IsParserConfig (cfg_of p)) ps
      → get_elem? (receiver cfg_of ps).preambles i ≡ some (key, parsers)
      → IsAllocated (receiver cfg_of ps) key × All IsBit key × (1 ≤ length key)
  unfolding allocate
  receiver-IsAllocated cfg_of ps i key parsers h at =
      let r = register_all-IsRegistered cfg_of ps new_decoder h new_decoder-IsRegistered in
      let k =
        All-get_elem? (IsKey (register_all cfg_of ps new_decoder).cfg) _ i key parsers r.keys at in
      (allocate-IsAllocated (register_all cfg_of ps new_decoder) key r k, k.bits, k.nonempty)

  pub receiver-symbols :
      (cfg_of : P → PacketConfig) (ps : List P) (i : ℕ) (key : Bytes) (parsers : List P)
      → All (λ p. IsParserConfig (cfg_of p)) ps
      → get_elem? (receiver cfg_of ps).preambles i ≡ some (key, parsers)
      → 8 ≤ (receiver cfg_of ps).cfg.symbol_length
  unfolding allocate allocate_config
  receiver-symbols cfg_of ps i key parsers h at =
      let r = register_all-IsRegistered cfg_of ps new_decoder h new_decoder-IsRegistered in
      let k =
        All-get_elem? (IsKey (register_all cfg_of ps new_decoder).cfg) _ i key parsers r.keys at in
      omega (arith, k.chips)
