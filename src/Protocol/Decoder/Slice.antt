-- ===== src/Protocol/Decoder/Slice.antt =====
-- `Slice` of protocol/decode.go: packets sampled at the indices that `Search` found. The buffer
-- `d.pkt` is shared by all packets and all calls, so its bytes are passed along.
-- A fault is a Go panic: an index out of range.
use rtlamr.Base.{◌>>=◌}
use rtlamr.Base.{
  ℕ, zero, suc, ◌+◌, ◌-◌, ◌*◌, ◌/◌, ◌%◌, ◌^◌, ◌≤◌, ◌<◌, bit_or, List, [], ◌∷◌, ◌++◌, append_assoc,
  Bool, false, not, ltb, if◌then◌else◌, Option, some, length, length-append, get_elem?,
  get_elem?-get_or, get_or, get_or-All, set, keep, map, All, Bool-cases, inl, inr, ◌≡◌, refl, sym,
  ap, ap₂, ◌∙◌, arith,
}
use rtlamr.Base.Text.{Bytes}
use rtlamr.Protocol.{Data, new_data}
use rtlamr.Protocol.Config.{PacketConfig}
use rtlamr.Protocol.Decoder.Search.{pack_bits}
use rtlamr.Protocol.Decoder.Search.Pack.{IsBit, pack_bits_fresh}

-- The loop over the symbols of one packet, from symbol `p_idx` on with `left` to go.
unfoldable pub slice_packet : ℕ → List ℕ → ℕ → ℕ → ℕ → Bytes → Option Bytes
slice_packet symbol_length quantized q_idx zero p_idx pkt = some pkt
slice_packet symbol_length quantized q_idx (suc left) p_idx pkt = do
  b ← get_elem? pkt (p_idx / 8)
  bit ← get_elem? quantized (q_idx + p_idx * symbol_length)
  slice_packet symbol_length quantized q_idx left (suc p_idx)
      (set pkt (p_idx / 8) (bit_or (b * 2 % 2 ^ 8) bit))

-- `NewData(d.pkt)` with its index set.
unfoldable pub data_at : ℕ → Bytes → Data
data_at q_idx pkt = let d = new_data pkt in record { idx = q_idx; bits = d.bits; bytes = d.bytes }

-- The packets and the buffer that is left.
unfoldable pub slice_packets : PacketConfig → List ℕ → List ℕ → Bytes → Option (List Data × Bytes)
slice_packets cfg quantized [] pkt = some ([], pkt)
slice_packets cfg quantized (q_idx ∷ indices) pkt =
    let skipped = slice_packets cfg quantized indices pkt in
    if ltb cfg.block_size q_idx then skipped else (do
      pkt' ← slice_packet cfg.symbol_length quantized q_idx cfg.packet_symbols 0 pkt
      (pkts, last) ← slice_packets cfg quantized indices pkt'
      some (data_at q_idx pkt' ∷ pkts, last))

module _ (symbol_length : ℕ) (quantized : List ℕ) (q_idx : ℕ) where
  -- The samples of `m` symbols from symbol `p` on.
  abbrev pub sampled : ℕ → ℕ → List ℕ
  sampled p zero = []
  sampled p (suc m) = get_or quantized (q_idx + p * symbol_length) 0 ∷ sampled (suc p) m

  -- The packet whose bytes from index `k` on are the samples of eight symbols each.
  abbrev pub packet_bytes : ℕ → ℕ → Bytes
  packet_bytes k zero = []
  packet_bytes k (suc n) = pack_bits 0 (sampled (k * 8) 8) ∷ packet_bytes (suc k) n

get_elem?-append : (xs : Bytes) (b : ℕ) (ys : Bytes) → get_elem? (xs ++ b ∷ ys) (length xs) ≡ some b
get_elem?-append [] b ys = refl
get_elem?-append (x ∷ xs) b ys = get_elem?-append xs b ys

set-append : (xs : Bytes) (b v : ℕ) (ys : Bytes) → set (xs ++ b ∷ ys) (length xs) v ≡ xs ++ v ∷ ys
set-append [] b v ys = refl
set-append (x ∷ xs) b v ys = ap (◌∷◌ x) (set-append xs b v ys)

module _ (symbol_length : ℕ) (quantized : List ℕ) (q_idx : ℕ) where
  -- The symbols that are left of one byte are shifted into it.
  byte_run :
      (m left r : ℕ) (pre : Bytes) (b : ℕ) (post : Bytes)
      → r + m ≡ 8
      → q_idx + (length pre * 8 + 7) * symbol_length < length quantized
      → slice_packet symbol_length quantized q_idx (m + left) (length pre * 8 + r) (pre ++ b ∷ post)
        ≡ slice_packet symbol_length quantized q_idx left (suc (length pre) * 8) (
            pre
            ++ pack_bits b (sampled symbol_length quantized q_idx (length pre * 8 + r) m) ∷ post)
  unfolding slice_packet
  byte_run zero left r pre b post h fits =
      unfold pack_bits in
      ap₂ (λ l p. slice_packet symbol_length quantized q_idx l p (pre ++ b ∷ post))
        (let e : 0 + left ≡ left = omega arith in e)
        (let e : length pre * 8 + r ≡ suc (length pre) * 8 = omega (arith, h) in e)
  byte_run (suc m) left r pre b post h fits =
      ap (λ l. slice_packet symbol_length quantized q_idx l (length pre * 8 + r) (pre ++ b ∷ post))
        (let e : suc m + left ≡ suc (m + left) = omega arith in e)
      ∙ shifted
      ∙ byte_run m left (suc r) pre (bit_or (b * 2 % 2 ^ 8) sample) post (omega (arith, h)) fits
      ∙ packed
    where
      sample : ℕ
      sample = get_or quantized (q_idx + (length pre * 8 + r) * symbol_length) 0

      inside : q_idx + (length pre * 8 + r) * symbol_length < length quantized
      inside =
          let more : (length pre * 8 + 7) * symbol_length
              ≡ (length pre * 8 + r) * symbol_length + (7 - r) * symbol_length =
            ap (λ n. n * symbol_length)
              (let e : length pre * 8 + 7 ≡ length pre * 8 + r + (7 - r) = omega (arith, h) in e)
            ∙ omega arith in
          omega (arith, fits, more)

      at : (length pre * 8 + r) / 8 ≡ length pre
      at = omega (arith, h)

      shifted :
          slice_packet symbol_length quantized q_idx
            (suc (m + left))
            (length pre * 8 + r)
            (pre ++ b ∷ post)
          ≡ slice_packet symbol_length quantized q_idx
              (m + left)
              (length pre * 8 + suc r)
              (pre ++ bit_or (b * 2 % 2 ^ 8) sample ∷ post)
      shifted =
          rw (slice_packet, at, get_elem?-append pre b post, get_elem?-get_or quantized _ inside)
            (ap₂ (slice_packet symbol_length quantized q_idx (m + left)) (omega arith)
              (set-append pre b _ post))

      packed :
          slice_packet symbol_length quantized q_idx left (suc (length pre) * 8) (
            pre
            ++ pack_bits
                (bit_or (b * 2 % 2 ^ 8) sample)
                (sampled symbol_length quantized q_idx (length pre * 8 + suc r) m)
              ∷ post)
          ≡ slice_packet symbol_length quantized q_idx left (suc (length pre) * 8) (
              pre
              ++ pack_bits b (sampled symbol_length quantized q_idx (length pre * 8 + r) (suc m))
                ∷ post)
      packed =
          unfold pack_bits in
          ap
            (λ p. slice_packet symbol_length quantized q_idx left (suc (length pre) * 8) (
              pre
              ++ pack_bits (bit_or (b * 2 % 2 ^ 8) sample)
                  (sampled symbol_length quantized q_idx p m)
                ∷ post))
            (let e : length pre * 8 + suc r ≡ suc (length pre * 8 + r) = omega arith in e)

  All-sampled :
      (p m : ℕ)
      → All IsBit quantized
      → q_idx + (p + m) * symbol_length < length quantized + symbol_length
      → All IsBit (sampled symbol_length quantized q_idx p m)
  All-sampled p zero h fits = tt
  All-sampled p (suc m) h fits = (
    get_or-All IsBit quantized _ 0 h (omega (arith, fits)),
    All-sampled (suc p) m h (omega (arith, fits)),
  )

  -- Whole bytes are filled whatever the buffer held.
  bytes_run :
      (n : ℕ) (pre stale : Bytes)
      → length stale ≡ n
      → All IsBit quantized
      → q_idx + (length pre + n) * 8 * symbol_length < length quantized + symbol_length
      → slice_packet symbol_length quantized q_idx (n * 8) (length pre * 8) (pre ++ stale)
        ≡ some (pre ++ packet_bytes symbol_length quantized q_idx (length pre) n)
  bytes_run zero pre [] size h fits =
      ap (λ n. slice_packet symbol_length quantized q_idx n (length pre * 8) (pre ++ []))
        (let e : 0 * 8 ≡ 0 = omega arith in e)
      ∙ unfold slice_packet in refl
  bytes_run zero pre (b ∷ stale) size h fits = absurd (omega arith)
  bytes_run (suc n) pre [] size h fits = absurd (omega arith)
  bytes_run (suc n) pre (b ∷ stale) size h fits =
      ap₂ (λ l p. slice_packet symbol_length quantized q_idx l p (pre ++ b ∷ stale))
        (let e : suc n * 8 ≡ 8 + n * 8 = omega arith in e)
        (let e : length pre * 8 ≡ length pre * 8 + 0 = omega arith in e)
      ∙ byte_run 8 (n * 8) 0 pre b stale refl (omega (arith, fits))
      ∙ ap₂ (slice_packet symbol_length quantized q_idx (n * 8)) (ap (λ k. k * 8) (sym longer))
          filled
      ∙ bytes_run n (pre ++ byte ∷ []) stale (omega (arith, size)) h
          (omega (arith, fits, ap (λ k. (k + n) * 8 * symbol_length) longer))
      ∙ ap some (
          append_assoc pre (byte ∷ []) _
          ∙ ap (λ k. pre ++ byte ∷ packet_bytes symbol_length quantized q_idx k n) longer)
    where
      byte : ℕ
      byte = pack_bits 0 (sampled symbol_length quantized q_idx (length pre * 8) 8)

      longer : length (pre ++ byte ∷ []) ≡ suc (length pre)
      longer = omega (arith, length-append pre (byte ∷ []))

      filled :
          pre ++ pack_bits b (sampled symbol_length quantized q_idx (length pre * 8 + 0) 8) ∷ stale
          ≡ (pre ++ byte ∷ []) ++ stale
      filled =
          ap (λ p. pre ++ pack_bits b (sampled symbol_length quantized q_idx p 8) ∷ stale)
            (let e : length pre * 8 + 0 ≡ length pre * 8 = omega arith in e)
          ∙ ap (λ v. pre ++ v ∷ stale)
              (pack_bits_fresh b (sampled symbol_length quantized q_idx (length pre * 8) 8) refl
                (All-sampled (length pre * 8) 8 h (omega (arith, fits))))
          ∙ sym (append_assoc pre (byte ∷ []) stale)

pub length-packet_bytes :
    (symbol_length : ℕ) (quantized : List ℕ) (q_idx k n : ℕ)
    → length (packet_bytes symbol_length quantized q_idx k n) ≡ n
length-packet_bytes symbol_length quantized q_idx k zero = refl
length-packet_bytes symbol_length quantized q_idx k (suc n) =
    ap suc (length-packet_bytes symbol_length quantized q_idx (suc k) n)

module _ (cfg : PacketConfig) (quantized : List ℕ) (n : ℕ) where
  -- Whether `Slice` samples a packet at an index.
  abbrev pub in_block : ℕ → Bool
  in_block q_idx = not (ltb cfg.block_size q_idx)

  abbrev pub packet_at : ℕ → Data
  packet_at q_idx = data_at q_idx (packet_bytes cfg.symbol_length quantized q_idx 0 n)

  -- With whole bytes to a packet, and a signal that holds a packet at every index up to the block's
  -- end, `Slice` does not fault whatever the shared buffer holds: it skips the indices after the
  -- block, and the packet of each other index has for bytes the samples one symbol apart.
  pub slice_packets-packet_at :
      (indices : List ℕ) (stale : Bytes)
      → cfg.packet_symbols ≡ n * 8
      → length stale ≡ n
      → All IsBit quantized
      → cfg.block_size + n * 8 * cfg.symbol_length < length quantized + cfg.symbol_length
      → (last : Bytes) × (slice_packets cfg quantized indices stale
          ≡ some (map packet_at (keep in_block indices), last))
        × (length last ≡ n)
  unfolding slice_packets
  slice_packets-packet_at [] stale symbols size h fits = (stale, refl, size)
  slice_packets-packet_at (q_idx ∷ indices) stale symbols size h fits =
      elim (Bool-cases (ltb cfg.block_size q_idx)) [
        | inl e ↦
            let (last, runs, len) = slice_packets-packet_at indices stale symbols size h fits in
            (last, rw e runs, len)
        | inr e ↦
            let pkt = packet_bytes cfg.symbol_length quantized q_idx 0 n in
            let (last, runs, len) =
              slice_packets-packet_at indices pkt symbols
                (length-packet_bytes cfg.symbol_length quantized q_idx 0 n) h fits in
            (last, rw (e, sliced e, runs) refl, len)
      ]
    where
      sliced :
          ltb cfg.block_size q_idx ≡ false
          → slice_packet cfg.symbol_length quantized q_idx cfg.packet_symbols 0 stale
            ≡ some (packet_bytes cfg.symbol_length quantized q_idx 0 n)
      sliced e =
          ap₂ (λ l p. slice_packet cfg.symbol_length quantized q_idx l p stale) symbols
            (let e : 0 ≡ 0 * 8 = omega arith in e)
          ∙ bytes_run cfg.symbol_length quantized q_idx n [] stale size h below
        where
          below : q_idx + (0 + n) * 8 * cfg.symbol_length < length quantized + cfg.symbol_length
          below = let le : q_idx ≤ cfg.block_size = ground arith in omega (arith, le, fits)
