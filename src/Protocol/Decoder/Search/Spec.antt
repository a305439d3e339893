-- ===== src/Protocol/Decoder/Search/Spec.antt =====
-- `Search` finds exactly the indices of the block at which the preamble stands.
use rtlamr.Base.{
  ℕ, zero, suc, ◌+◌, ◌*◌, ◌/◌, ◌%◌, ◌≤◌, ◌<◌, List, [], ◌∷◌, ◌++◌, Bool, true, false, not, ◌&&◌,
  ◌==◌, if◌then◌else◌, some, length, length-take, get_or, take, keep, keep-append, keep-keep, All,
  Bool-cases, ==_ne, ==_iff, inl, inr, ◌≡◌, ◌≢◌, refl, sym, ap, ap₂, ◌∙◌, arith,
}
use rtlamr.Protocol.Config.{PacketConfig}
use rtlamr.Protocol.Decoder.Search.{
  slice?, pack_bits, mask, first_pass, Flow, next, stop, flow_list, spread, search_samples, search,
}
use rtlamr.Protocol.Decoder.Search.Pack.{IsBit, samples_of, pack-get_or, byte-ne-mask, get_or-take}
use rtlamr.Protocol.Decoder.Search.Passes.{
  may_start, byte_passes-keep, stands, sample_passes-keep, All-keep, All_imp, keep_ext,
}

-- `n` numbers from `start` on.
abbrev pub range : ℕ → ℕ → List ℕ
range start zero = []
range start (suc n) = start ∷ range (suc start) n

All-range : (start n : ℕ) → All (λ q. q < start + n) (range start n)
All-range start zero = tt
All-range start (suc n) =
    (omega arith, All_imp _ _ _ (λ q h. omega (arith, h)) (All-range (suc start) n))

pub All-range_zero : (n : ℕ) → All (λ q. q < n) (range 0 n)
All-range_zero n = All_imp (λ q. q < 0 + n) _ _ (λ q h. omega (arith, h)) (All-range 0 n)

first_pass-keep :
    (m start : ℕ) (f : ℕ → ℕ) (xs : List ℕ)
    → ((i : ℕ) → i < length xs → get_or xs i 0 ≡ f (start + i))
    → first_pass m start xs ≡ keep (λ q. not (f q == m)) (range start (length xs))
unfolding first_pass
first_pass-keep m start f [] h = refl
first_pass-keep m start f (x ∷ xs) h =
    ap₂ (λ v l. if not (v == m) then start ∷ l else l) (h 0 (omega arith) ∙ ap f (omega arith))
      (first_pass-keep m (suc start) f xs (λ i lt. h (suc i) (omega arith) ∙ ap f (omega arith)))

spread-range : (start n : ℕ) → spread (range start n) ≡ range (start * 8) (n * 8)
unfolding spread
spread-range start zero = refl
spread-range start (suc n) =
    let below : List ℕ =
      range (suc (suc (suc (suc (suc (suc (suc (suc (start * 8))))))))) (n * 8) in
    let tail : spread (range (suc start) n) ≡ below =
      spread-range (suc start) n ∙ ap (λ s. range s (n * 8)) (omega arith) in
    ap₂ (◌∷◌) (omega arith) (
      ap₂ (◌∷◌) (omega arith) (
        ap₂ (◌∷◌) (omega arith) (
          ap₂ (◌∷◌) (omega arith) (
            ap₂ (◌∷◌) (omega arith)
              (ap₂ (◌∷◌) (omega arith) (ap₂ (◌∷◌) (omega arith) (ap₂ (◌∷◌) (omega arith) tail)))))))
    ∙ ap (range (start * 8)) (
        let e : suc (suc (suc (suc (suc (suc (suc (suc (n * 8)))))))) ≡ suc n * 8 = omega arith in
        e)

module _ (slb packed_len n : ℕ) (quantized packed : List ℕ) (bits_ok : All IsBit quantized) where
  -- A byte that the passes over the bytes drop holds no start of the preamble.
  stands-false :
      (bits : List ℕ) (p q r : ℕ)
      → packed_len * 8 ≤ length quantized
      → ((k : ℕ) → k < packed_len → get_or packed k 0 ≡ pack_bits 0 (samples_of quantized k))
      → All IsBit bits
      → q < n
      → r < 8
      → (p + length bits) * slb + n ≤ packed_len + slb
      → may_start slb packed p bits q ≡ false
      → stands (slb * 8) quantized p bits (q * 8 + r) ≡ false
  unfolding may_start stands
  stands-false [] p q r len bytes hb hq hr fits h = cc
  stands-false (bit ∷ bits) p q r len bytes (b_ok, hb) hq hr fits h =
      elim (Bool-cases (get_or quantized (p * (slb * 8) + (q * 8 + r)) 0 == bit)) [
        | inl e ↦ rw e (
            stands-false bits (suc p) q r len bytes hb hq hr (omega (arith, fits))
              (rest (not_mask (here e))))
        | inr e ↦ rw e refl
      ]
    where
      k : ℕ
      k = p * slb + q

      inside : k < packed_len
      inside = omega arith

      rest : get_or packed k 0 ≢ mask bit → may_start slb packed (suc p) bits q ≡ false
      rest ne =
          sym (
            ap (λ b. not b && may_start slb packed (suc p) bits q)
              (==_ne (get_or packed k 0) (mask bit) ne))
          ∙ h

      here :
          (get_or quantized (p * (slb * 8) + (q * 8 + r)) 0 == bit) ≡ true
          → get_or quantized (k * 8 + r) 0 ≡ bit
      here e = ap (λ i. get_or quantized i 0) (omega arith) ∙ (==_iff _ bit).0 e

      not_mask : get_or quantized (k * 8 + r) 0 ≡ bit → get_or packed k 0 ≢ mask bit
      not_mask at same =
          byte-ne-mask quantized k r bit bits_ok (omega (arith, inside, len)) b_ok hr at
            (sym (bytes k inside) ∙ same)

keep-spread :
    (m p : ℕ → Bool) (n : ℕ) (xs : List ℕ)
    → All (λ q. q < n) xs
    → ((q r : ℕ) → q < n → r < 8 → p q ≡ false → m (q * 8 + r) ≡ false)
    → keep m (spread (keep p xs)) ≡ keep m (spread xs)
unfolding spread
keep-spread m p n [] h f = refl
keep-spread m p n (x ∷ xs) (lt, h) f = elim (Bool-cases (p x)) [
  | inl e ↦ rw e (
      keep-append m (eight x) _
      ∙ ap (λ l. keep m (eight x) ++ l) (keep-spread m p n xs h f)
      ∙ sym (keep-append m (eight x) _))
  | inr e ↦
      rw
        (
          e,
          f x 0 lt (omega arith) e,
          f x 1 lt (omega arith) e,
          f x 2 lt (omega arith) e,
          f x 3 lt (omega arith) e,
          f x 4 lt (omega arith) e,
          f x 5 lt (omega arith) e,
          f x 6 lt (omega arith) e,
          f x 7 lt (omega arith) e,
        )
        (keep-spread m p n xs h f)
]
  where
    eight : ℕ → List ℕ
    eight q =
        (q * 8 + 0)
        ∷ (q * 8 + 1)
        ∷ (q * 8 + 2)
        ∷ (q * 8 + 3)
        ∷ (q * 8 + 4)
        ∷ (q * 8 + 5)
        ∷ (q * 8 + 6)
        ∷ (q * 8 + 7)
        ∷ []

All-spread : (n : ℕ) (xs : List ℕ) → All (λ q. q < n) xs → All (λ i. i < n * 8) (spread xs)
unfolding spread
All-spread n [] h = tt
All-spread n (x ∷ xs) (lt, h) = (
  omega arith,
  (
    omega arith,
    (
      omega arith,
      (omega arith, (omega arith, (omega arith, (omega arith, (omega arith, All-spread n xs h))))),
    ),
  ),
)

module _ (cfg : PacketConfig) (quantized : List ℕ) (preamble : List ℕ) where
  search_samples-keep :
      (flow : Flow)
      → All (λ i. i < cfg.block_size) (spread (flow_list flow))
      → length preamble * cfg.symbol_length + cfg.block_size ≤ length quantized + cfg.symbol_length
      → search_samples cfg quantized preamble flow
        ≡ some (keep (stands cfg.symbol_length quantized 0 preamble) (spread (flow_list flow)))
  search_samples-keep (next a) h fits =
      unfold search_samples flow_list in
      let (flow, runs, left) =
        sample_passes-keep cfg quantized preamble 0 (spread a) (unfold flow_list in h)
          (omega (arith, fits)) in
      rw runs (ap some left)
  search_samples-keep stop h fits = unfold search_samples flow_list spread in refl

module _ (cfg : PacketConfig) (quantized : List ℕ) (packed_len bit : ℕ) (preamble : List ℕ) where
  -- On a signal that holds the packed bytes, with whole bytes to a symbol and to a block, `Search`
  -- does not fault, and returns in order exactly the samples of the first block at which the
  -- preamble stands, whatever the packed bytes rule out on the way.
  pub search-keep :
      (stale : List ℕ)
      → All IsBit quantized
      → All IsBit (bit ∷ preamble)
      → cfg.block_size % 8 ≡ 0
      → cfg.symbol_length % 8 ≡ 0
      → packed_len * 8 ≤ length quantized
      → suc (length preamble) * cfg.symbol_length + cfg.block_size
        ≤ packed_len * 8 + cfg.symbol_length
      → search cfg quantized packed_len stale (bit ∷ preamble)
        ≡ some
            (keep (stands cfg.symbol_length quantized 0 (bit ∷ preamble)) (range 0 cfg.block_size))
  unfolding search
  search-keep stale bits_ok pre_ok block_ok symbol_ok held fits =
      let (packed, found, size, bytes) = pack-get_or quantized packed_len 0 (omega (arith, held)) in
      let a : List ℕ = keep (λ q. not (get_or packed q 0 == mask bit)) (range 0 nb) in
      let (flow, runs, left) =
        byte_passes-keep slb packed nb preamble 1 a (All-keep _ _ _ (All-range_zero nb))
          (nb_fits packed size) in
      let all_left : flow_list flow ≡ keep (may_start slb packed 0 (bit ∷ preamble)) (range 0 nb) =
        left ∙ merge packed in
      rw (found, sliced packed size, first_block packed size, runs)
        (search_samples-keep cfg quantized (bit ∷ preamble) flow
            (rw all_left (
              All_imp _ _ _ (λ i lt. omega (arith, lt, block_ok))
                (All-spread nb _ (All-keep _ _ _ (All-range_zero nb)))))
            (omega (arith, held, fits))
          ∙ ap some (
              ap (λ l. keep (stands cfg.symbol_length quantized 0 (bit ∷ preamble)) (spread l))
                all_left
              ∙ keep-spread _ _ nb (range 0 nb) (All-range_zero nb) (
                  ruled_out packed size (λ k lt.
                    bytes k lt
                    ∙ ap (λ j. pack_bits 0 (samples_of quantized j))
                        (let e : 0 + k ≡ k = omega arith in e)))
              ∙ ap (keep (stands cfg.symbol_length quantized 0 (bit ∷ preamble))) (
                  spread-range 0 nb
                  ∙ ap (range 0) (let e : nb * 8 ≡ cfg.block_size = omega (arith, block_ok) in e))))
    where
      nb : ℕ
      nb = cfg.block_size / 8

      slb : ℕ
      slb = cfg.symbol_length / 8

      product : suc (length preamble) * cfg.symbol_length ≡ suc (length preamble) * slb * 8
      product =
          ap (λ n. suc (length preamble) * n)
            (let e : cfg.symbol_length ≡ slb * 8 = omega (arith, symbol_ok) in e)
          ∙ omega arith

      sliced :
          (packed : List ℕ)
          → length packed ≡ packed_len
          → slice? packed 0 nb ≡ some (take nb packed)
      sliced packed size =
          unfold slice? in
          let fits_nb : nb ≤ length packed = omega (arith, size, fits, block_ok) in ground arith

      first_block :
          (packed : List ℕ)
          → length packed ≡ packed_len
          → first_pass (mask bit) 0 (take nb packed)
            ≡ keep (λ q. not (get_or packed q 0 == mask bit)) (range 0 nb)
      first_block packed size =
          first_pass-keep (mask bit) 0 (λ q. get_or packed q 0) (take nb packed)
            (λ i lt.
              get_or-take nb packed i (omega (arith, length-take nb packed))
              ∙ ap (λ j. get_or packed j 0) (omega arith))
          ∙ ap (λ n. keep (λ q. not (get_or packed q 0 == mask bit)) (range 0 n))
              (omega (arith, length-take nb packed))

      nb_fits :
          (packed : List ℕ)
          → length packed ≡ packed_len
          → (1 + length preamble) * slb + nb ≤ length packed + slb
      nb_fits packed size = omega (arith, size, fits, block_ok, product)

      unrolled :
          (packed : List ℕ) (q : ℕ)
          → (not (get_or packed q 0 == mask bit) && may_start slb packed 1 preamble q)
            ≡ may_start slb packed 0 (bit ∷ preamble) q
      unrolled packed q =
          unfold may_start in
          ap (λ j. not (get_or packed j 0 == mask bit) && may_start slb packed 1 preamble q)
            (let e : q ≡ 0 * slb + q = omega arith in e)

      merge :
          (packed : List ℕ)
          → keep
              (may_start slb packed 1 preamble)
              (keep (λ q. not (get_or packed q 0 == mask bit)) (range 0 nb))
            ≡ keep (may_start slb packed 0 (bit ∷ preamble)) (range 0 nb)
      merge packed =
          keep-keep (may_start slb packed 1 preamble) (λ q. not (get_or packed q 0 == mask bit))
            (range 0 nb)
          ∙ keep_ext _ (may_start slb packed 0 (bit ∷ preamble)) (range 0 nb) (unrolled packed)

      ruled_out :
          (packed : List ℕ)
          → length packed ≡ packed_len
          → ((k : ℕ) → k < packed_len → get_or packed k 0 ≡ pack_bits 0 (samples_of quantized k))
          → (q r : ℕ) → q < nb
          → r < 8
          → may_start slb packed 0 (bit ∷ preamble) q ≡ false
          → stands cfg.symbol_length quantized 0 (bit ∷ preamble) (q * 8 + r) ≡ false
      ruled_out packed size bytes q r hq hr out =
          ap (λ n. stands n quantized 0 (bit ∷ preamble) (q * 8 + r))
            (let e : cfg.symbol_length ≡ slb * 8 = omega (arith, symbol_ok) in e)
          ∙ stands-false slb packed_len nb quantized packed bits_ok (bit ∷ preamble) 0 q r held
              bytes pre_ok hq hr (omega (arith, nb_fits packed size, size)) out
