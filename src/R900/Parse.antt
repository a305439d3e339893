-- ===== src/R900/Parse.antt =====
-- `Parse` of r900/r900.go. The parser's buffers are passed along; `none` is a Go panic.
pub mod Laws
use rtlamr.Base.{
  ℕ, zero, suc, ◌+◌, ◌-◌, ◌*◌, ◌/◌, ◌%◌, List, [], ◌∷◌, ◌++◌, Bool, true, false, not, ltb, leb,
  ◌==◌, if◌then◌else◌, Option, none, some, ◌>>=◌, length, get_elem?, take, drop, copy, replicate,
  slice,
}
use rtlamr.Base.Text.{Bytes, member}
use rtlamr.Protocol.{Data, Message}
use rtlamr.Protocol.Config.{PacketConfig}
use rtlamr.Protocol.Floats.{Floats}
use rtlamr.R900.{R900, new_r900, message}
use rtlamr.R900.Filter.{filter}
use rtlamr.R900.Gf.{Field}
use rtlamr.R900.Symbols.{read_digits, read_symbols, symbol_bits, check}

-- `chipPatterns[d%3]`.
unfoldable pub chip_pattern : ℕ → List ℕ
chip_pattern d =
    if d % 3 == 0
    then 1 ∷ 1 ∷ 0 ∷ 0 ∷ []
    else if d % 3 == 1
    then 1 ∷ 0 ∷ 1 ∷ 0 ∷ []
    else 1 ∷ 0 ∷ 0 ∷ 1 ∷ []

module _ (fl : Floats) where
  -- The parser's own buffers, which its first call makes.
  pub record State : Type 0 where
    pub cfg : PacketConfig
    pub signal : List fl.F
    pub csum : List fl.F
    pub quantized : List ℕ

  unfoldable pub start : PacketConfig → State
  start cfg = record {
    cfg = cfg;
    signal = replicate cfg.buffer_length fl.zero_f;
    csum = replicate (cfg.buffer_length + 1) fl.zero_f;
    quantized = replicate cfg.buffer_length 0;
  }

  -- The new block is appended to the signal.
  unfoldable pub append_block : State → List fl.F → Option (List fl.F)
  append_block st decoder_signal =
      let cfg = st.cfg in
      if ltb (length st.signal) cfg.block_size
      then none
      else if ltb (length st.signal) cfg.packet_length
      then none
      else if ltb (length decoder_signal) cfg.symbol_length
      then none
      else some (
          let shifted = copy st.signal (drop cfg.block_size st.signal) in
          take cfg.packet_length shifted
          ++ copy (drop cfg.packet_length shifted) (drop cfg.symbol_length decoder_signal))

  -- The loop over the chips of one digit: the sums over the chips that are on and off.
  unfoldable pub chip_sums : List fl.F → ℕ → ℕ → ℕ → ℕ → List ℕ → fl.F × fl.F → Option (fl.F × fl.F)
  chip_sums csum chip_length sym_start d c [] sums = some sums
  chip_sums csum chip_length sym_start d c (on ∷ pattern) (sig_sum, noise_sum) = do
    high ← get_elem? csum (sym_start + (c + 1) * chip_length)
    low ← get_elem? csum (sym_start + c * chip_length)
    let chip = fl.sub_f high low
    let signal =
        chip_sums csum chip_length sym_start d (suc c) pattern (fl.add_f sig_sum chip, noise_sum)
    let noise =
        chip_sums csum chip_length sym_start d (suc c) pattern (sig_sum, fl.add_f noise_sum chip)
    (if on == 1 then (if leb 3 d then signal else noise) else (if leb 3 d then noise else signal))

  unfoldable pub power_sums : List fl.F → ℕ → ℕ → ℕ → List ℕ → fl.F × fl.F → Option (fl.F × fl.F)
  power_sums csum chip_length payload_idx k [] sums = some sums
  power_sums csum chip_length payload_idx k (d ∷ digits) sums = do
    sums' ← chip_sums csum chip_length (payload_idx + k * 4 * chip_length) d 0 (chip_pattern d) sums
    power_sums csum chip_length payload_idx (suc k) digits sums'

  -- The signal strength and the ratio to the noise in dB.
  unfoldable pub strength : ℕ → fl.F × fl.F → fl.F × fl.F
  strength chip_length (sig_sum, noise_sum) =
      let half_chips = fl.of_nat (42 * 2 * chip_length) in
      let sig_power = fl.div_d (fl.widen sig_sum) half_chips in
      let noise_power = fl.div_d (fl.widen noise_sum) half_chips in
      let ten = fl.of_nat 10 in
      let snr =
        if fl.positive noise_power
        then fl.mul_d ten (fl.log10 (fl.div_d sig_power noise_power))
        else fl.of_nat 99 in
      if fl.positive sig_power
      then (fl.narrow (fl.mul_d ten (fl.log10 sig_power)), fl.narrow snr)
      else (fl.narrow (fl.neg_d (fl.of_nat 99)), fl.narrow (fl.neg_d (fl.of_nat 99)))

  -- What the loop does with the digits of one packet: nothing, or its text of bits is marked as
  -- seen, and the message if there is one is sent.
  pub data Outcome : Type 0 where
    skipped : Outcome
    marked : Bytes → Option (R900 fl.F) → Outcome

  unfoldable pub parse_digits :
      Field → PacketConfig → List fl.F → ℕ → List Bytes → List ℕ → Option Outcome
  parse_digits field cfg csum payload_idx seen digits = elim (read_symbols digits) [
    | none ↦ some skipped
    | some symbols ↦
        let bits = symbol_bits symbols in
        let found : Option Outcome = (do
          sums ← power_sums csum cfg.chip_length payload_idx 0 digits (fl.zero_f, fl.zero_f)
          let (rssi, snr) = strength cfg.chip_length sums
          some (marked bits (some (new_r900 bits (drop 16 symbols) rssi snr)))) in
        let fresh : Option Outcome = elim (check field symbols) [
          | none ↦ none
          | some false ↦ some (marked bits none)
          | some true ↦ found
        ] in
        if member bits seen then some skipped else fresh
  ]

  unfoldable pub send : Option (R900 fl.F) → Option (List (R900 fl.F)) → Option (List (R900 fl.F))
  send none rest = rest
  send (some r) none = none
  send (some r) (some messages) = some (r ∷ messages)

  -- The loop over the packets, which ends at the first index after the block.
  unfoldable pub parse_packets :
      Field → PacketConfig → List fl.F → List ℕ → List Bytes → List Data → Option (List (R900 fl.F))
  parse_packets field cfg csum quantized seen [] = some []
  parse_packets field cfg csum quantized seen (pkt ∷ pkts) =
      let payload_idx = pkt.idx + cfg.preamble_length - cfg.symbol_length in
      let skip = parse_packets field cfg csum quantized seen pkts in
      let go : Bytes → Option (List (R900 fl.F)) =
        λ bits. parse_packets field cfg csum quantized (bits ∷ seen) pkts in
      if ltb cfg.block_size pkt.idx then some [] else (do
        digits ← read_digits quantized payload_idx cfg.chip_length 42 0
        outcome ← parse_digits field cfg csum payload_idx seen digits
        elim outcome [ skipped ↦ skip | marked bits r ↦ send r (go bits) ])

  -- A call on the packets of one preamble: the buffers that it leaves and what it sends. Without
  -- packets only the signal is kept up.
  unfoldable pub parse :
      Field
      → PacketConfig
      → List fl.F
      → Option State
      → List Data
      → Option (State × List (R900 fl.F))
  parse field decoder_cfg decoder_signal called pkts = do
    let st : State = elim called [ none ↦ start decoder_cfg | some st ↦ st ]
    signal ← append_block st decoder_signal
    filtered pkts
        (record { cfg = st.cfg; signal = signal; csum = st.csum; quantized = st.quantized })
    where
      filtered : List Data → State → Option (State × List (R900 fl.F))
      filtered [] st = some (st, [])
      filtered (pkt ∷ pkts) st = do
        (csum, quantized) ← filter fl st.cfg st.signal st.csum st.quantized
        messages ← parse_packets field st.cfg csum quantized [] (pkt ∷ pkts)
        some (
          record { cfg = st.cfg; signal = st.signal; csum = csum; quantized = quantized },
          messages,
        )
