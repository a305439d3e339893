-- ===== src/Protocol/Decoder/Filter.antt =====
-- `NewMagLUT`, `Execute`, `Filter` and the buffers of `Decode` of protocol/decode.go, over abstract
-- floats. `none` is a Go panic: an index or a slice out of range.
pub mod Laws
use rtlamr.Base.{
  ℕ, zero, suc, ◌+◌, ◌-◌, ◌*◌, ◌≤◌, ◌<◌, List, [], ◌∷◌, ◌++◌, true, ltb, lt→ltb, if◌then◌else◌,
  Option, none, some, ◌>>=◌, length, length-append, length-set, length-take, length-drop,
  length-copy, take_all, get_elem?, set, take, drop, copy, All, ◌≡◌, refl, ap, ◌∙◌, arith,
}
use rtlamr.Base.Text.{Bytes}
use rtlamr.Crc.Serial.{IsByte}
use rtlamr.Protocol.Config.{PacketConfig}
use rtlamr.Protocol.Floats.{Floats}
use rtlamr.Protocol.Decoder.Search.{slice?, drop?}
use rtlamr.Protocol.Decoder.Search.Pack.{IsBit}

module _ (fl : Floats) where
  -- The entries of the table from index `idx` on, with `left` to go.
  unfoldable pub mag_lut_from : ℕ → ℕ → List fl.F
  mag_lut_from zero idx = []
  mag_lut_from (suc left) idx =
      let x = fl.div_f (fl.sub_f fl.middle_f (fl.of_nat_f idx)) fl.middle_f in
      fl.mul_f x x ∷ mag_lut_from left (suc idx)

  unfoldable pub new_mag_lut : List fl.F
  new_mag_lut = mag_lut_from 0x100 0

  -- `Execute` for an output of `left` samples, each of two bytes of the input.
  unfoldable pub execute : List fl.F → ℕ → Bytes → Option (List fl.F)
  execute lut zero input = some []
  execute lut (suc left) [] = none
  execute lut (suc left) (i ∷ []) = none
  execute lut (suc left) (i ∷ q ∷ input) = do
    a ← get_elem? lut i
    b ← get_elem? lut q
    rest ← execute lut left input
    some (fl.add_f a b ∷ rest)

  -- The loop that writes the running sum into `csum` from index `idx + 1` on.
  unfoldable pub cumulate : fl.F → ℕ → List fl.F → List fl.F → Option (List fl.F)
  cumulate sum idx [] csum = some csum
  cumulate sum idx (v ∷ signal) csum =
      let sum' = fl.add_f sum v in
      let rest = cumulate sum' (suc idx) signal (set csum (suc idx) sum') in
      if ltb (suc idx) (length csum) then rest else none

  -- The loop over the lower sums: one bit each, the complement of the sign of the difference.
  unfoldable pub decide : List fl.F → List fl.F → ℕ → List fl.F → Option (List ℕ)
  decide csum upper idx [] = some []
  decide csum upper idx (l ∷ lower) = do
    c ← get_elem? csum idx
    u ← get_elem? upper idx
    rest ← decide csum upper (suc idx) lower
    some ((1 - fl.sign_bit (fl.sub_f (fl.sub_f l c) (fl.sub_f u l))) ∷ rest)

  -- `Filter` for an output of `size` bits: the sums and the bits.
  unfoldable pub matched_filter :
      PacketConfig → List fl.F → List fl.F → ℕ → Option (List fl.F × List ℕ)
  matched_filter cfg csum input size = do
    csum' ← cumulate fl.zero_f 0 input csum
    lower ← drop? csum' cfg.chip_length
    upper ← drop? csum' cfg.symbol_length
    block ← slice? lower 0 size
    bits ← decide csum' upper 0 block
    some (csum', bits)

  pub record Buffers : Type 0 where
    pub signal : List fl.F
    pub csum : List fl.F
    pub quantized : List ℕ

  -- The part of `Decode` before the search: the buffers move on by a block, and the new block's
  -- bits follow the packet's length of old ones.
  unfoldable pub decode_block : PacketConfig → List fl.F → Bytes → Buffers → Option Buffers
  decode_block cfg lut input b = do
    old_signal ← drop? b.signal cfg.block_size
    old_quantized ← drop? b.quantized cfg.block_size
    let signal = copy b.signal old_signal
    let quantized = copy b.quantized old_quantized
    out ← drop? signal cfg.symbol_length
    magnitudes ← execute lut (length out) input
    let signal' = take cfg.symbol_length signal ++ magnitudes
    room ← drop? quantized cfg.packet_length
    (csum, bits) ← matched_filter cfg b.csum signal' (length room)
    some (record {
      signal = signal';
      csum = csum;
      quantized = take cfg.packet_length quantized ++ bits;
    })
