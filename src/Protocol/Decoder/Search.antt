-- ===== src/Protocol/Decoder/Search.antt =====
-- `Search`: the indices of the first block at which the preamble stands in the quantized signal.
-- A fault is a Go panic: an index or a slice out of range.
pub mod Pack
pub mod Passes
pub mod Spec
use rtlamr.Base.{
  ℕ, zero, suc, ◌+◌, ◌-◌, ◌*◌, ◌/◌, ◌%◌, ◌^◌, bit_or, bit_xor, List, [], ◌∷◌, ◌++◌, Bool, true,
  false, not, ◌==◌, ltb, leb, if◌then◌else◌, Option, none, some, ◌>>=◌, length, get_elem?, take,
  drop,
}
use rtlamr.Protocol.Config.{PacketConfig}

-- `xs[lo:hi]` with its bounds check, and `xs[lo:]`.
unfoldable pub slice? {ℓ} : {A : Type ℓ} → List A → ℕ → ℕ → Option (List A)
slice? xs lo hi =
    if ltb (length xs) hi
    then none
    else if ltb hi lo
    then none
    else some (take (hi - lo) (drop lo xs))

unfoldable pub drop? {ℓ} : {A : Type ℓ} → List A → ℕ → Option (List A)
drop? xs lo = if ltb (length xs) lo then none else some (drop lo xs)

-- `b = (b << 1) | qBit` on a byte, over a slice of samples.
unfoldable pub pack_bits : ℕ → List ℕ → ℕ
pack_bits b [] = b
pack_bits b (q ∷ qs) = pack_bits (bit_or (b * 2 % 2 ^ 8) q) qs

-- The bytes of `d.packed` from index `b_idx`, with `left` to go.
unfoldable pub pack : List ℕ → ℕ → ℕ → Option (List ℕ)
pack quantized zero b_idx = some []
pack quantized (suc left) b_idx = do
  samples ← slice? quantized (b_idx * 8) ((b_idx + 1) * 8)
  rest ← pack quantized left (b_idx + 1)
  some (pack_bits 0 samples ∷ rest)

unfoldable pub search_pass_byte : ℕ → List ℕ → List ℕ → List ℕ → Option (List ℕ)
search_pass_byte p_bit sig [] b = some b
search_pass_byte p_bit sig (q_idx ∷ a) b = do
  v ← get_elem? sig q_idx
  search_pass_byte p_bit sig a (if not (v == p_bit) then b ++ q_idx ∷ [] else b)

unfoldable pub search_pass : ℕ → List ℕ → List ℕ → List ℕ → Option (List ℕ)
search_pass p_bit sig [] b = some b
search_pass p_bit sig (q_idx ∷ a) b = do
  v ← get_elem? sig q_idx
  search_pass p_bit sig a (if v == p_bit then b ++ q_idx ∷ [] else b)

-- For 0 the mask is 0xFF, for 1 it is 0x00.
unfoldable pub mask : ℕ → ℕ
mask p_bit = bit_xor p_bit 1 * 0xFF % 2 ^ 8

-- The loop over the packed bytes for the first bit.
unfoldable pub first_pass : ℕ → ℕ → List ℕ → List ℕ
first_pass p_bit q_idx [] = []
first_pass p_bit q_idx (b ∷ bytes) =
    let rest = first_pass p_bit (suc q_idx) bytes in if not (b == p_bit) then q_idx ∷ rest else rest

-- What a loop over the preamble ends with: the indices that are left, or `return nil`.
pub data Flow : Type 0 where
  next : List ℕ → Flow
  stop : Flow

abbrev pub is_empty : List ℕ → Bool
is_empty [] = true
is_empty (q ∷ qs) = false

-- The loop over the bits after the first, on packed bytes.
unfoldable pub byte_passes : ℕ → List ℕ → ℕ → List ℕ → List ℕ → Option Flow
byte_passes sym_len_byte packed p_idx [] s_idx_a = some (next s_idx_a)
byte_passes sym_len_byte packed p_idx (p_bit ∷ preamble) s_idx_a = do
  sig ← drop? packed (p_idx * sym_len_byte)
  a ← search_pass_byte (mask p_bit) sig s_idx_a []
  let more = byte_passes sym_len_byte packed (suc p_idx) preamble a
  if is_empty a then some stop else more

-- The eight sample indices of each byte index.
unfoldable pub spread : List ℕ → List ℕ
spread [] = []
spread (q ∷ a) =
    (q * 8 + 0)
    ∷ (q * 8 + 1)
    ∷ (q * 8 + 2)
    ∷ (q * 8 + 3)
    ∷ (q * 8 + 4)
    ∷ (q * 8 + 5)
    ∷ (q * 8 + 6)
    ∷ (q * 8 + 7)
    ∷ spread a

-- The loop over all bits, on samples.
unfoldable pub sample_passes : PacketConfig → List ℕ → ℕ → List ℕ → List ℕ → Option Flow
sample_passes cfg quantized p_idx [] s_idx_a = some (next s_idx_a)
sample_passes cfg quantized p_idx (p_bit ∷ preamble) s_idx_a = do
  let offset = p_idx * cfg.symbol_length
  sig ← slice? quantized offset (offset + cfg.block_size)
  a ← search_pass p_bit sig s_idx_a []
  let more = sample_passes cfg quantized (suc p_idx) preamble a
  if is_empty a then some stop else more

unfoldable pub flow_list : Flow → List ℕ
flow_list (next a) = a
flow_list stop = []

search_samples : PacketConfig → List ℕ → List ℕ → Flow → Option (List ℕ)
search_samples cfg quantized preamble stop = some []
search_samples cfg quantized preamble (next a) = do
  flow ← sample_passes cfg quantized 0 preamble (spread a)
  some (flow_list flow)

-- `Search` on a decoder whose `packed` has `packed_len` bytes. With an empty preamble both loops
-- are skipped, and the indices come from `stale`, what an earlier search left in `sIdxA`.
unfoldable pub search : PacketConfig → List ℕ → ℕ → List ℕ → List ℕ → Option (List ℕ)
unfolding search_samples
search cfg quantized packed_len stale [] = do
  packed ← pack quantized packed_len 0
  search_samples cfg quantized [] (next stale)
search cfg quantized packed_len stale (p_bit ∷ preamble) = do
  packed ← pack quantized packed_len 0
  block ← slice? packed 0 (cfg.block_size / 8)
  flow ← byte_passes (cfg.symbol_length / 8) packed 1 preamble (first_pass (mask p_bit) 0 block)
  search_samples cfg quantized (p_bit ∷ preamble) flow
