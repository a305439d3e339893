-- ===== src/Protocol/Decoder/Filter/Laws.antt =====
-- The filter and the buffer moves of `Decode` stay in range, and give bits.
use rtlamr.Base.{
  ℕ, zero, suc, ◌+◌, ◌-◌, ◌*◌, ◌≤◌, ◌<◌, List, [], ◌∷◌, ◌++◌, true, ltb, lt→ltb, some, length,
  length-append, length-set, length-take, length-drop, length-copy, take_all, get_elem?, set, take,
  drop, copy, All, ◌≡◌, refl, ap, ◌∙◌, arith,
}
use rtlamr.Base.Text.{Bytes}
use rtlamr.Crc.Serial.{IsByte}
use rtlamr.Protocol.Config.{PacketConfig}
use rtlamr.Protocol.Floats.{Floats}
use rtlamr.Protocol.Decoder.Search.{slice?, drop?}
use rtlamr.Protocol.Decoder.Search.Pack.{IsBit}
use rtlamr.Protocol.Decoder.Filter.{
  cumulate, decide, execute, matched_filter, Buffers, decode_block,
}

dropped : {A : Type 0} (xs : List A) (n : ℕ) → n ≤ length xs → drop? xs n ≡ some (drop n xs)
unfolding drop?
dropped xs n h = ground arith

sliced :
    {A : Type 0} (xs : List A) (n : ℕ)
    → n ≤ length xs
    → slice? xs 0 n ≡ some (take (n - 0) (drop 0 xs))
unfolding slice?
sliced xs n h = ground arith

-- What `copy` wrote.
take-copy : {A : Type 0} (xs ys : List A) → take (length ys) (copy xs ys) ≡ take (length xs) ys
take-copy [] [] = refl
take-copy [] (y ∷ ys) = refl
take-copy (x ∷ xs) [] = refl
take-copy (x ∷ xs) (y ∷ ys) = ap (◌∷◌ y) (take-copy xs ys)

module _ (fl : Floats) where
  -- The sums fit a buffer that is longer than the signal.
  pub cumulate_total :
      (sum : fl.F) (idx : ℕ) (signal csum : List fl.F)
      → idx + length signal < length csum
      → (csum' : List fl.F) × (cumulate fl sum idx signal csum ≡ some csum')
        × (length csum' ≡ length csum)
  unfolding cumulate
  cumulate_total sum idx [] csum h = (csum, refl, refl)
  cumulate_total sum idx (v ∷ signal) csum h =
      let sum' = fl.add_f sum v in
      let (csum', runs, size) =
        cumulate_total sum' (suc idx) signal (set csum (suc idx) sum')
          (omega (arith, length-set csum (suc idx) sum')) in
      (csum', rw (inside, runs) refl, size ∙ length-set csum (suc idx) sum')
    where
      inside : ltb (suc idx) (length csum) ≡ true
      inside = lt→ltb _ _ (omega arith)

  entry_at : (xs : List fl.F) (i : ℕ) → i < length xs → (s : fl.F) × (get_elem? xs i ≡ some s)
  entry_at [] i h = absurd (omega arith)
  entry_at (x ∷ xs) zero h = (x, refl)
  entry_at (x ∷ xs) (suc i) h = entry_at xs i (omega arith)

  decide_total :
      (csum upper : List fl.F) (idx : ℕ) (lower : List fl.F)
      → idx + length lower ≤ length csum
      → idx + length lower ≤ length upper
      → (bits : List ℕ) × (decide fl csum upper idx lower ≡ some bits)
        × (length bits ≡ length lower)
        × All IsBit bits
  unfolding decide
  decide_total csum upper idx [] hc hu = ([], refl, refl, tt)
  decide_total csum upper idx (l ∷ lower) hc hu =
      let (c, ec) = entry_at csum idx (omega arith) in
      let (u, eu) = entry_at upper idx (omega arith) in
      let (bits, runs, size, ok) =
        decide_total csum upper (suc idx) lower (omega arith) (omega arith) in
      let bit = 1 - fl.sign_bit (fl.sub_f (fl.sub_f l c) (fl.sub_f u l)) in
      (bit ∷ bits, rw (ec, eu, runs) refl, ap suc size, (omega arith, ok))

  execute_total :
      (lut : List fl.F) (left : ℕ) (input : Bytes)
      → length lut ≡ 256
      → All IsByte input
      → left * 2 ≤ length input
      → (out : List fl.F) × (execute fl lut left input ≡ some out) × (length out ≡ left)
  unfolding execute
  execute_total lut zero input hl hb h = ([], refl, refl)
  execute_total lut (suc left) [] hl hb h = absurd (omega arith)
  execute_total lut (suc left) (i ∷ []) hl hb h = absurd (omega arith)
  execute_total lut (suc left) (i ∷ q ∷ input) hl (hi, (hq, hb)) h =
      let (a, ea) = entry_at lut i (omega (arith, hl, hi)) in
      let (b, eb) = entry_at lut q (omega (arith, hl, hq)) in
      let (out, runs, size) = execute_total lut left input hl hb (omega arith) in
      (fl.add_f a b ∷ out, rw (ea, eb, runs) refl, ap suc size)

  matched_filter_total :
      (cfg : PacketConfig) (csum input : List fl.F) (size : ℕ)
      → length csum ≡ suc (length input)
      → length input ≡ size + cfg.symbol_length
      → cfg.symbol_length ≡ cfg.chip_length * 2
      → (csum' : List fl.F) × (bits : List ℕ) × (matched_filter fl cfg csum input size
          ≡ some (csum', bits))
        × (length csum' ≡ length csum)
        × (length bits ≡ size)
        × All IsBit bits
  unfolding matched_filter
  matched_filter_total cfg csum input size hc hi hs =
      let (csum', runs, len) = cumulate_total fl.zero_f 0 input csum (omega (arith, hc)) in
      let lower = drop cfg.chip_length csum' in
      let upper = drop cfg.symbol_length csum' in
      let low_len = length-drop cfg.chip_length csum' in
      let up_len = length-drop cfg.symbol_length csum' in
      let block = take (size - 0) (drop 0 lower) in
      let block_len : length block ≡ size =
        omega (arith, length-take (size - 0) lower, low_len, len, hc, hi, hs) in
      let (bits, decides, count, ok) =
        decide_total csum' upper 0 block (omega (arith, block_len, len, hc, hi))
          (omega (arith, block_len, up_len, len, hc, hi)) in
      (
        csum',
        bits,
        rw
            (
              runs,
              dropped csum' cfg.chip_length (omega (arith, len, hc, hi, hs)),
              dropped csum' cfg.symbol_length (omega (arith, len, hc, hi)),
              sliced lower size (omega (arith, low_len, len, hc, hi, hs)),
              decides,
            )
            refl,
        len,
        count ∙ block_len,
        ok,
      )

  -- On buffers of the lengths that `Allocate` makes, and a block of bytes, `Decode` does not index
  -- out of range before the search, whatever the arithmetic rounds: the bits move on by a block, the
  -- bits of the new block stand after them, the buffers keep their lengths, and all that is added
  -- is bits.
  pub decode_block-append :
      (cfg : PacketConfig) (lut : List fl.F) (input : Bytes) (b : Buffers fl)
      → cfg.symbol_length ≡ cfg.chip_length * 2
      → cfg.buffer_length ≡ cfg.packet_length + cfg.block_size
      → length lut ≡ 256
      → All IsByte input
      → length input ≡ cfg.block_size * 2
      → length b.signal ≡ cfg.block_size + cfg.symbol_length
      → length b.csum ≡ suc (length b.signal)
      → length b.quantized ≡ cfg.buffer_length
      → (b' : Buffers fl) × (bits : List ℕ) × (decode_block fl cfg lut input b ≡ some b')
        × (b'.quantized ≡ drop cfg.block_size b.quantized ++ bits)
        × (length bits ≡ cfg.block_size)
        × All IsBit bits
        × (length b'.signal ≡ length b.signal)
        × (length b'.csum ≡ length b.csum)
  unfolding decode_block
  decode_block-append cfg lut input b hs hbuf hl hb hin hsig hcs hq =
      let (mags, runs, count) =
        execute_total lut (length out) input hl hb (omega (arith, out_len, hin)) in
      let signal_len : length (take cfg.symbol_length signal ++ mags)
          ≡ length room + cfg.symbol_length =
        omega (
          arith,
          length-append (take cfg.symbol_length signal) mags,
          length-take cfg.symbol_length signal,
          signal_size,
          hsig,
          count,
          out_len,
          room_len,
        ) in
      let (csum, bits, filters, csum_len, size, ok) =
        matched_filter_total cfg b.csum (take cfg.symbol_length signal ++ mags) (length room)
          (omega (arith, hcs, hsig, signal_len, room_len)) signal_len hs in
      (
        record {
          signal = take cfg.symbol_length signal ++ mags;
          csum = csum;
          quantized = take cfg.packet_length quantized ++ bits;
        },
        bits,
        rw
            (
              dropped b.signal cfg.block_size (omega (arith, hsig)),
              dropped b.quantized cfg.block_size (omega (arith, hq, hbuf)),
              dropped signal cfg.symbol_length (omega (arith, signal_size, hsig)),
              runs,
              dropped quantized cfg.packet_length (omega (arith, quantized_size, hq, hbuf)),
              filters,
            )
            refl,
        ap (λ l. l ++ bits) kept,
        size ∙ room_len,
        ok,
        omega (arith, signal_len, room_len, hsig),
        csum_len,
      )
    where
      signal : List fl.F
      signal = copy b.signal (drop cfg.block_size b.signal)

      signal_size : length signal ≡ length b.signal
      signal_size = length-copy b.signal (drop cfg.block_size b.signal)

      quantized : List ℕ
      quantized = copy b.quantized (drop cfg.block_size b.quantized)

      quantized_size : length quantized ≡ length b.quantized
      quantized_size = length-copy b.quantized (drop cfg.block_size b.quantized)

      out : List fl.F
      out = drop cfg.symbol_length signal

      out_len : length out ≡ cfg.block_size
      out_len = omega (arith, length-drop cfg.symbol_length signal, signal_size, hsig)

      room : List ℕ
      room = drop cfg.packet_length quantized

      room_len : length room ≡ cfg.block_size
      room_len = omega (arith, length-drop cfg.packet_length quantized, quantized_size, hq, hbuf)

      kept : take cfg.packet_length quantized ≡ drop cfg.block_size b.quantized
      kept =
          ap (λ n. take n quantized)
            (let e : cfg.packet_length ≡ length (drop cfg.block_size b.quantized) =
                omega (arith, length-drop cfg.block_size b.quantized, hq, hbuf) in
              e)
          ∙ take-copy b.quantized (drop cfg.block_size b.quantized)
          ∙ take_all (length b.quantized) (drop cfg.block_size b.quantized)
              (omega (arith, length-drop cfg.block_size b.quantized))
