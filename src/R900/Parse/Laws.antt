-- ===== src/R900/Parse/Laws.antt =====
-- What the loop over the packets sends.
use rtlamr.Base.{
  ℕ, zero, suc, ◌+◌, ◌-◌, ◌*◌, ◌/◌, ◌%◌, ◌^◌, ◌≤◌, ◌<◌, List, [], ◌∷◌, true, false, ltb, leb, ◌==◌,
  some, get_elem?, drop, length, All, Bool-cases, inl, inr, ◌≡◌, refl, sym, ap, ◌∙◌, arith,
}
use rtlamr.Base.Text.{Bytes, member, bytes_eq_iff}
use rtlamr.Protocol.{Data}
use rtlamr.Protocol.Config.{PacketConfig}
use rtlamr.Protocol.Floats.{Floats}
use rtlamr.R900.{R900, new_r900}
use rtlamr.R900.Gf.Field32.{gf32}
use rtlamr.R900.Symbols.{read_digits, symbol_bits}
use rtlamr.R900.Symbols.Codewords.{IsCodeword, check-IsCodeword}
use rtlamr.R900.Symbols.Laws.{digits_of, read_symbols-digits_of, symbols_value, new_r900-fields}
use rtlamr.R900.Parse.{
  chip_pattern, chip_sums, power_sums, strength, skipped, marked, parse_digits, send, parse_packets,
}

member_head : (b : Bytes) (bs : List Bytes) → member b (b ∷ bs) ≡ true
unfolding member
member_head b bs = rw ((bytes_eq_iff b b).1 refl) refl

length-digits_of : (symbols : List ℕ) → length (digits_of symbols) ≡ 2 * length symbols
length-digits_of [] = refl
length-digits_of (s ∷ symbols) = omega (arith, length-digits_of symbols)

module _ (fl : Floats) (csum : List fl.F) (chip_length : ℕ) where
  sum_at : (xs : List fl.F) (i : ℕ) → i < length xs → (s : fl.F) × (get_elem? xs i ≡ some s)
  sum_at [] i h = absurd (omega arith)
  sum_at (x ∷ xs) zero h = (x, refl)
  sum_at (x ∷ xs) (suc i) h = sum_at xs i (omega arith)

  chip_sums_total :
      (sym_start d c : ℕ) (pattern : List ℕ) (sums : fl.F × fl.F)
      → sym_start + (c + length pattern) * chip_length < length csum
      → (sums' : fl.F × fl.F) × (chip_sums fl csum chip_length sym_start d c pattern sums
          ≡ some sums')
  unfolding chip_sums
  chip_sums_total sym_start d c [] sums h = (sums, refl)
  chip_sums_total sym_start d c (on ∷ pattern) (sig_sum, noise_sum) h =
      let whole : (c + suc (length pattern)) * chip_length
          ≡ c * chip_length + chip_length + length pattern * chip_length =
        omega arith in
      let next : (suc c + length pattern) * chip_length
          ≡ c * chip_length + chip_length + length pattern * chip_length =
        omega arith in
      let one : (c + 1) * chip_length ≡ c * chip_length + chip_length = omega arith in
      let (high, at_high) =
        sum_at csum (sym_start + (c + 1) * chip_length) (omega (arith, h, whole, one)) in
      let (low, at_low) = sum_at csum (sym_start + c * chip_length) (omega (arith, h, whole)) in
      let chip = fl.sub_f high low in
      let (s1, r1) =
        chip_sums_total sym_start d (suc c) pattern (fl.add_f sig_sum chip, noise_sum)
          (omega (arith, h, whole, next)) in
      let (s2, r2) =
        chip_sums_total sym_start d (suc c) pattern (sig_sum, fl.add_f noise_sum chip)
          (omega (arith, h, whole, next)) in
      elim (Bool-cases (on == 1)) [
        | inl e ↦ elim (Bool-cases (leb 3 d)) [
          | inl k ↦ (s1, rw (at_high, at_low, e, k) r1)
          | inr k ↦ (s2, rw (at_high, at_low, e, k) r2)
        ]
        | inr e ↦ elim (Bool-cases (leb 3 d)) [
          | inl k ↦ (s2, rw (at_high, at_low, e, k) r2)
          | inr k ↦ (s1, rw (at_high, at_low, e, k) r1)
        ]
      ]

  length-chip_pattern : (d : ℕ) → length (chip_pattern d) ≡ 4
  unfolding chip_pattern
  length-chip_pattern d = elim (Bool-cases (d % 3 == 0)) [
    | inl e ↦ rw e refl
    | inr e ↦ elim (Bool-cases (d % 3 == 1)) [ inl k ↦ rw (e, k) refl | inr k ↦ rw (e, k) refl ]
  ]

  power_sums_total :
      (payload k : ℕ) (digits : List ℕ) (sums : fl.F × fl.F)
      → payload + (k + length digits) * (4 * chip_length) < length csum
      → (sums' : fl.F × fl.F) × (power_sums fl csum chip_length payload k digits sums ≡ some sums')
  unfolding power_sums
  power_sums_total payload k [] sums h = (sums, refl)
  power_sums_total payload k (d ∷ digits) sums h =
      let whole : (k + suc (length digits)) * (4 * chip_length)
          ≡ k * 4 * chip_length + 4 * chip_length + length digits * (4 * chip_length) =
        omega arith in
      let next : (suc k + length digits) * (4 * chip_length)
          ≡ k * 4 * chip_length + 4 * chip_length + length digits * (4 * chip_length) =
        omega arith in
      let four : (0 + length (chip_pattern d)) * chip_length ≡ 4 * chip_length =
        ap (λ n. (0 + n) * chip_length) (length-chip_pattern d) ∙ omega arith in
      let (s1, r1) =
        chip_sums_total (payload + k * 4 * chip_length) d 0 (chip_pattern d) sums
          (omega (arith, h, whole, four)) in
      let (s2, r2) = power_sums_total payload (suc k) digits s1 (omega (arith, h, whole, next)) in
      (s2, rw (r1) r2)

module _ (fl : Floats) (cfg : PacketConfig) (csum : List fl.F) (quantized : List ℕ)
    (symbols : List ℕ) where
  abbrev pub payload : Data → ℕ
  payload pkt = pkt.idx + cfg.preamble_length - cfg.symbol_length

  -- The samples four chips apart, from digit `k` of a packet on, are some digits.
  abbrev pub DigitsAt : Data → ℕ → List ℕ → Type 0
  DigitsAt pkt k [] = Unit
  DigitsAt pkt k (d ∷ digits) =
      (get_elem? quantized (payload pkt + k * (4 * cfg.chip_length)) ≡ some d)
      × DigitsAt pkt (suc k) digits

  -- A packet within the block and the sums, at which the digits of the symbols stand.
  pub record Spells (pkt : Data) : Type 0 where
    pub inside : pkt.idx ≤ cfg.block_size
    pub summed : payload pkt + 42 * (4 * cfg.chip_length) < length csum
    pub digits : DigitsAt pkt 0 (digits_of symbols)

  read_digits-DigitsAt :
      (pkt : Data) (k : ℕ) (digits : List ℕ)
      → DigitsAt pkt k digits
      → read_digits quantized (payload pkt) cfg.chip_length (length digits) k ≡ some digits
  unfolding read_digits
  read_digits-DigitsAt pkt k [] h = refl
  read_digits-DigitsAt pkt k (d ∷ digits) (at, h) =
      let place : payload pkt + k * cfg.chip_length * 4 ≡ payload pkt + k * (4 * cfg.chip_length) =
        omega arith in
      rw (place, at, read_digits-DigitsAt pkt (suc k) digits h) refl

  module _ (word : IsCodeword symbols) where
    forty_two : length (digits_of symbols) ≡ 42
    forty_two = omega (arith, length-digits_of symbols, word.size)

    digits_read :
        (pkt : Data)
        → Spells pkt
        → read_digits quantized (payload pkt) cfg.chip_length 42 0 ≡ some (digits_of symbols)
    digits_read pkt s =
        ap (λ n. read_digits quantized (payload pkt) cfg.chip_length n 0) (sym forty_two)
        ∙ read_digits-DigitsAt pkt 0 (digits_of symbols) s.digits

    -- Digits that were seen before are skipped.
    repeats :
        (pkts : List Data) (seen : List Bytes)
        → All Spells pkts
        → member (symbol_bits symbols) seen ≡ true
        → parse_packets fl gf32 cfg csum quantized seen pkts ≡ some []
    unfolding parse_packets
    repeats [] seen h old = refl
    repeats (pkt ∷ pkts) seen (s, h) old =
        let here : ltb cfg.block_size pkt.idx ≡ false = ground (arith, s.inside) in
        let skips : parse_digits fl gf32 cfg csum (payload pkt) seen (digits_of symbols)
            ≡ some skipped =
          unfold parse_digits in
          rw (parse_digits, read_symbols-digits_of symbols word.small, old) refl in
        rw (here, digits_read pkt s, skips) (repeats pkts seen h old)

    -- A word of 21 symbols of the Reed-Solomon code, whose digits stand in the quantized signal at each
    -- of the samples, in the block, at which the decoder found a packet, is sent exactly once, however
    -- many such samples there are; the fields of the message are the bit fields of the 105-bit number
    -- that the symbols spell, and its checksum is the symbols of parity. The sums have to reach to the
    -- end of each packet.
    pub parse_packets-IsCodeword :
        (first : Data) (others : List Data)
        → All Spells (first ∷ others)
        → let v = symbols_value 0 symbols in
          (r : R900 fl.F) × (parse_packets fl gf32 cfg csum quantized [] (first ∷ others)
            ≡ some (r ∷ []))
          × (r.checksum ≡ drop 16 symbols)
          × (r.id ≡ v / 2 ^ 73 % 2 ^ 32)
          × (r.unkn1 ≡ v / 2 ^ 65 % 2 ^ 8)
          × (r.no_use ≡ v / 2 ^ 59 % 2 ^ 6)
          × (r.back_flow ≡ v / 2 ^ 57 % 2 ^ 2)
          × (r.consumption ≡ v / 2 ^ 33 % 2 ^ 24)
          × (r.unkn3 ≡ v / 2 ^ 31 % 2 ^ 2)
          × (r.leak ≡ v / 2 ^ 27 % 2 ^ 4)
          × (r.leak_now ≡ v / 2 ^ 25 % 2 ^ 2)
    unfolding parse_packets
    parse_packets-IsCodeword first others (s, h) =
        let here : ltb cfg.block_size first.idx ≡ false = ground (arith, s.inside) in
        let (sums, measured) =
          power_sums_total fl csum cfg.chip_length (payload first) 0 (digits_of symbols)
            (fl.zero_f, fl.zero_f)
            (let reach : (0 + length (digits_of symbols)) * (4 * cfg.chip_length)
                  ≡ 42 * (4 * cfg.chip_length) =
                ap (λ n. (0 + n) * (4 * cfg.chip_length)) forty_two ∙ omega arith in
              omega (arith, s.summed, reach)) in
        let (rssi, snr) = strength fl cfg.chip_length sums in
        let r : R900 fl.F = new_r900 (symbol_bits symbols) (drop 16 symbols) rssi snr in
        let sends : parse_digits fl gf32 cfg csum (payload first) [] (digits_of symbols)
            ≡ some (marked (symbol_bits symbols) (some r)) =
          unfold parse_digits member in
          rw
            (
              parse_digits,
              read_symbols-digits_of symbols word.small,
              check-IsCodeword symbols word,
              measured,
            )
            refl in
        let (id, unkn1, no_use, back_flow, consumption, unkn3, leak, leak_now) =
          new_r900-fields symbols (drop 16 symbols) rssi snr word.size word.small in
        (
          r,
          rw (here, digits_read first s, sends)
              (rw
                (repeats others (symbol_bits symbols ∷ []) h (member_head (symbol_bits symbols) []))
                (unfold send in refl)),
          unfold new_r900 in refl,
          id,
          unkn1,
          no_use,
          back_flow,
          consumption,
          unkn3,
          leak,
          leak_now,
        )
