-- ===== src/R900/Filter.antt =====
-- The matched filter of the R900 parser, and the power of a packet's chips, over abstract floats.
-- `none` is a Go panic: an index out of range.
use rtlamr.Base.{
  ℕ, zero, suc, ◌+◌, ◌-◌, ◌*◌, ◌≤◌, ◌<◌, List, [], ◌∷◌, true, ltb, if◌then◌else◌, Option, none,
  some, ◌>>=◌, length, get_elem?, set, length-set, lt→ltb, ◌∙◌, All, Bool-cases, inl, inr, ◌≡◌,
  refl, arith,
}
use rtlamr.Protocol.Floats.{Floats}
use rtlamr.Protocol.Config.{PacketConfig}
use rtlamr.Protocol.Decoder.Filter.{cumulate}
use rtlamr.Protocol.Decoder.Filter.Laws.{cumulate_total}

module _ (fl : Floats) where
  -- `abs`.
  unfoldable pub abs : fl.F → fl.F
  abs x = if fl.above_f fl.zero_f x then fl.neg_f x else x

  -- The three convolutions at one index, from five sums that are one chip apart.
  unfoldable pub convolutions : fl.F → fl.F → fl.F → fl.F → fl.F → fl.F × fl.F × fl.F
  convolutions s0 s1 s2 s3 s4 =
      let c1 = fl.add_f s1 s1 in
      let c2 = fl.add_f s2 s2 in
      let c3 = fl.add_f s3 s3 in
      (
        fl.sub_f (fl.sub_f c2 s4) s0,
        fl.sub_f (fl.sub_f (fl.add_f (fl.sub_f c1 c2) c3) s4) s0,
        fl.sub_f (fl.add_f (fl.sub_f c1 c3) s4) s0,
      )

  -- `if abs(a) > abs(best)`.
  unfoldable pub better : fl.F → ℕ → fl.F × ℕ → fl.F × ℕ
  better a index (best, argmax) =
      if fl.above_f (abs a) (abs best) then (a, index) else (best, argmax)

  -- The digit of three convolutions.
  unfoldable pub quantize : fl.F × fl.F × fl.F → ℕ
  quantize (a0, a1, a2) =
      let (best, argmax) = better a2 2 (better a1 1 (a0, 0)) in
      if fl.above_f best fl.zero_f then argmax + 3 else argmax

  -- The loop of `filter` from index `idx` on, with `left` to go.
  unfoldable pub quantize_from : List fl.F → ℕ → ℕ → ℕ → List ℕ → Option (List ℕ)
  quantize_from csum cl zero idx quantized = some quantized
  quantize_from csum cl (suc left) idx quantized = do
    s0 ← get_elem? csum idx
    s1 ← get_elem? csum (idx + cl)
    s2 ← get_elem? csum (idx + cl * 2)
    s3 ← get_elem? csum (idx + cl * 3)
    s4 ← get_elem? csum (idx + cl * 4)
    let rest =
        quantize_from csum cl left (suc idx)
          (set quantized idx (quantize (convolutions s0 s1 s2 s3 s4)))
    if ltb idx (length quantized) then rest else none

  -- `filter`: the sums and the digits that it leaves.
  unfoldable pub filter :
      PacketConfig → List fl.F → List fl.F → List ℕ → Option (List fl.F × List ℕ)
  filter cfg signal csum quantized = do
    csum' ← cumulate fl fl.zero_f 0 signal csum
    quantized' ←
        quantize_from csum' cfg.chip_length (cfg.buffer_length - cfg.chip_length * 4) 0 quantized
    some (csum', quantized')

  abbrev pub IsDigit : ℕ → Type 0
  IsDigit d = d < 6

  better-lt : (a : fl.F) (index : ℕ) (b : fl.F × ℕ) → index < 3 → b.1 < 3 → (better a index b).1 < 3
  unfolding better
  better-lt a index (best, argmax) hi hb = elim (Bool-cases (fl.above_f (abs a) (abs best))) [
    | inl e ↦ rw e hi
    | inr e ↦ rw e hb
  ]

  quantize-IsDigit : (a : fl.F × fl.F × fl.F) → IsDigit (quantize a)
  unfolding quantize
  quantize-IsDigit (a0, a1, a2) = elim (Bool-cases (fl.above_f best.0 fl.zero_f)) [
    | inl e ↦ rw e (omega (arith, small))
    | inr e ↦ rw e (omega (arith, small))
  ]
    where
      best : fl.F × ℕ
      best = better a2 2 (better a1 1 (a0, 0))

      small : best.1 < 3
      small =
          better-lt a2 2 (better a1 1 (a0, 0)) (omega arith)
            (better-lt a1 1 (a0, 0) (omega arith) (omega arith))

  All-set : (xs : List ℕ) (i v : ℕ) → All IsDigit xs → IsDigit v → All IsDigit (set xs i v)
  All-set [] i v h hv = tt
  All-set (x ∷ xs) zero v (hx, h) hv = (hv, h)
  All-set (x ∷ xs) (suc i) v (hx, h) hv = (hx, All-set xs i v h hv)

  sum_at : (csum : List fl.F) (i : ℕ) → i < length csum → (s : fl.F) × (get_elem? csum i ≡ some s)
  sum_at [] i h = absurd (omega arith)
  sum_at (x ∷ csum) zero h = (x, refl)
  sum_at (x ∷ csum) (suc i) h = sum_at csum i (omega arith)

  quantize_from_total :
      (csum : List fl.F) (cl left idx : ℕ) (quantized : List ℕ)
      → idx + left ≤ length csum - cl * 4
      → idx + left ≤ length quantized
      → All IsDigit quantized
      → (quantized' : List ℕ) × (quantize_from csum cl left idx quantized ≡ some quantized')
        × (length quantized' ≡ length quantized)
        × All IsDigit quantized'
  unfolding quantize_from
  quantize_from_total csum cl zero idx quantized hc hq h = (quantized, refl, refl, h)
  quantize_from_total csum cl (suc left) idx quantized hc hq h =
      let (s0, e0) = sum_at csum idx (omega arith) in
      let (s1, e1) = sum_at csum (idx + cl) (omega arith) in
      let (s2, e2) = sum_at csum (idx + cl * 2) (omega arith) in
      let (s3, e3) = sum_at csum (idx + cl * 3) (omega arith) in
      let (s4, e4) = sum_at csum (idx + cl * 4) (omega arith) in
      let d = quantize (convolutions s0 s1 s2 s3 s4) in
      let (quantized', runs, size, digits) =
        quantize_from_total csum cl left (suc idx) (set quantized idx d) (omega arith)
          (omega (arith, length-set quantized idx d))
          (All-set quantized idx d h (quantize-IsDigit (convolutions s0 s1 s2 s3 s4))) in
      (
        quantized',
        rw (e0, e1, e2, e3, e4, inside, runs) refl,
        size ∙ length-set quantized idx d,
        digits,
      )
    where
      inside : ltb idx (length quantized) ≡ true
      inside = lt→ltb _ _ (omega arith)

  -- On buffers of the lengths that the first call of `Parse` makes, the filter does not index out
  -- of range whatever the arithmetic rounds, keeps the buffers' lengths, and leaves only digits
  -- to base six.
  pub filter-IsDigit :
      (cfg : PacketConfig) (signal csum : List fl.F) (quantized : List ℕ)
      → length signal ≡ cfg.buffer_length
      → length csum ≡ cfg.buffer_length + 1
      → length quantized ≡ cfg.buffer_length
      → All IsDigit quantized
      → (csum' : List fl.F) × (quantized' : List ℕ) × (filter cfg signal csum quantized
          ≡ some (csum', quantized'))
        × (length csum' ≡ cfg.buffer_length + 1)
        × (length quantized' ≡ cfg.buffer_length)
        × All IsDigit quantized'
  unfolding filter
  filter-IsDigit cfg signal csum quantized hs hc hq h =
      let (csum', runs, size) = cumulate_total fl fl.zero_f 0 signal csum (omega (arith, hs, hc)) in
      let (quantized', runs', size', digits) =
        quantize_from_total csum' cfg.chip_length (cfg.buffer_length - cfg.chip_length * 4) 0
          quantized (omega (arith, size, hc)) (omega (arith, hq)) h in
      (csum', quantized', rw (runs, runs') refl, size ∙ hc, size' ∙ hq, digits)
