-- ===== src/Protocol/Decoder/Search/Pack.antt =====
-- The packed bytes: what a byte says of its eight samples.
use rtlamr.Base.{
  ℕ, zero, suc, ◌+◌, ◌*◌, ◌%◌, ◌≤◌, ◌<◌, List, [], ◌∷◌, some, bit_or, length, length-drop,
  length-take, get_or, take, drop, get_or-drop, get_or-All, All, All-take, All-drop, ◌≡◌, ◌≢◌, refl,
  sym, ap, ◌∙◌, arith,
}
use rtlamr.Base.Xor.{bit_or-append}
use rtlamr.Protocol.Decoder.Search.{slice?, pack_bits, pack, mask}

abbrev pub IsBit : ℕ → Type 0
IsBit q = q < 2

step_any : (b q : ℕ) (qs : List ℕ) → q < 2 → pack_bits b (q ∷ qs) ≡ pack_bits (b % 128 * 2 + q) qs
unfolding pack_bits
step_any b q qs hq =
    ap (λ (t : ℕ). pack_bits t qs)
      (ap (λ (t : ℕ). bit_or t q) (let e : b * 2 % 256 ≡ b % 128 * 2 = omega arith in e)
        ∙ bit_or-append (b % 128) q hq)

-- Eight samples packed: the first is the highest bit, and what the byte held is shifted out.
pub pack_eight :
    (y a b c d e f g h : ℕ)
    → a < 2
    → b < 2
    → c < 2
    → d < 2
    → e < 2
    → f < 2
    → g < 2
    → h < 2
    → pack_bits y (a ∷ b ∷ c ∷ d ∷ e ∷ f ∷ g ∷ h ∷ [])
      ≡ a * 128 + b * 64 + c * 32 + d * 16 + e * 8 + f * 4 + g * 2 + h
pack_eight y a b c d e f g h ha hb hc hd he hf hg hh =
    step_any _ a _ ha
    ∙ step_any _ b _ hb
    ∙ step_any _ c _ hc
    ∙ step_any _ d _ hd
    ∙ step_any _ e _ he
    ∙ step_any _ f _ hf
    ∙ step_any _ g _ hg
    ∙ step_any _ h _ hh
    ∙ unfold pack_bits in omega arith

pack_all :
    (xs : List ℕ)
    → length xs ≡ 8
    → All IsBit xs
    → (pack_bits 0 xs ≡ 255 → All (λ q. q ≡ 1) xs) × (pack_bits 0 xs ≡ 0 → All (λ q. q ≡ 0) xs)
pack_all (a ∷ b ∷ c ∷ d ∷ e ∷ f ∷ g ∷ h ∷ []) size
      (ha, (hb, (hc, (hd, (he, (hf, (hg, (hh, _)))))))) =
    let sum = pack_eight 0 a b c d e f g h ha hb hc hd he hf hg hh in
    (λ full. omega (arith, sum, full), λ empty. omega (arith, sum, empty))
pack_all [] size h = absurd (omega arith)
pack_all (a ∷ []) size h = absurd (omega arith)
pack_all (a ∷ b ∷ []) size h = absurd (omega arith)
pack_all (a ∷ b ∷ c ∷ []) size h = absurd (omega arith)
pack_all (a ∷ b ∷ c ∷ d ∷ []) size h = absurd (omega arith)
pack_all (a ∷ b ∷ c ∷ d ∷ e ∷ []) size h = absurd (omega arith)
pack_all (a ∷ b ∷ c ∷ d ∷ e ∷ f ∷ []) size h = absurd (omega arith)
pack_all (a ∷ b ∷ c ∷ d ∷ e ∷ f ∷ g ∷ []) size h = absurd (omega arith)
pack_all (a ∷ b ∷ c ∷ d ∷ e ∷ f ∷ g ∷ h ∷ i ∷ xs) size hb = absurd (omega arith)

masks : (mask 0 ≡ 255) × (mask 1 ≡ 0)
unfolding mask
masks = (refl, refl)

-- A byte that holds a bit equal to `p_bit` differs from the mask of `p_bit`.
pub pack_bits-ne-mask :
    (xs : List ℕ) (r p_bit : ℕ)
    → length xs ≡ 8
    → All IsBit xs
    → p_bit < 2
    → r < 8
    → get_or xs r 0 ≡ p_bit
    → pack_bits 0 xs ≢ mask p_bit
pack_bits-ne-mask xs r zero size bits hp hr at same = absurd (
    omega (
      arith,
      at,
      get_or-All (λ q. q ≡ 1) xs r 0 ((pack_all xs size bits).0 (same ∙ masks.0)) (omega arith),
    ))
pack_bits-ne-mask xs r (suc zero) size bits hp hr at same = absurd (
    omega (
      arith,
      at,
      get_or-All (λ q. q ≡ 0) xs r 0 ((pack_all xs size bits).1 (same ∙ masks.1)) (omega arith),
    ))
pack_bits-ne-mask xs r (suc (suc p)) size bits hp hr at same = absurd (omega arith)

-- The eight samples of a byte.
abbrev pub samples_of : List ℕ → ℕ → List ℕ
samples_of quantized k = take 8 (drop (k * 8) quantized)

-- Packing does not fault if the signal holds the samples, and makes each byte of its own eight.
pub pack-get_or :
    (quantized : List ℕ) (n start : ℕ)
    → (start + n) * 8 ≤ length quantized
    → (packed : List ℕ) × (pack quantized n start ≡ some packed)
      × (length packed ≡ n)
      × ((k : ℕ) → k < n → get_or packed k 0 ≡ pack_bits 0 (samples_of quantized (start + k)))
unfolding pack
pack-get_or quantized zero start h = ([], refl, refl, λ k lt. absurd (omega arith))
pack-get_or quantized (suc n) start h =
    let (rest, found, size, bytes) = pack-get_or quantized n (start + 1) (omega arith) in
    (
      pack_bits 0 (samples_of quantized start) ∷ rest,
      rw (first, found) refl,
      ap suc size,
      each rest bytes,
    )
  where
    first : slice? quantized (start * 8) ((start + 1) * 8) ≡ some (samples_of quantized start)
    first = unfold slice? in ground arith

    each :
        (rest : List ℕ)
        → ((k : ℕ) → k < n → get_or rest k 0 ≡ pack_bits 0 (samples_of quantized (start + 1 + k)))
        → (k : ℕ) → k < suc n
        → get_or (pack_bits 0 (samples_of quantized start) ∷ rest) k 0
          ≡ pack_bits 0 (samples_of quantized (start + k))
    each rest bytes zero lt = ap (λ i. pack_bits 0 (samples_of quantized i)) (omega arith)
    each rest bytes (suc k) lt =
        bytes k (omega arith) ∙ ap (λ i. pack_bits 0 (samples_of quantized i)) (omega arith)

length-samples_of :
    (quantized : List ℕ) (k : ℕ)
    → k * 8 + 8 ≤ length quantized
    → length (samples_of quantized k) ≡ 8
length-samples_of quantized k h =
    omega (arith, length-take 8 (drop (k * 8) quantized), length-drop (k * 8) quantized)

pub get_or-take : (n : ℕ) (xs : List ℕ) (r : ℕ) → r < n → get_or (take n xs) r 0 ≡ get_or xs r 0
get_or-take zero xs r h = absurd (omega arith)
get_or-take (suc n) [] r h = refl
get_or-take (suc n) (x ∷ xs) zero h = refl
get_or-take (suc n) (x ∷ xs) (suc r) h = get_or-take n xs r (omega arith)

-- A sample that equals `p_bit` keeps its byte from being the mask.
pub byte-ne-mask :
    (quantized : List ℕ) (k r p_bit : ℕ)
    → All IsBit quantized
    → k * 8 + 8 ≤ length quantized
    → p_bit < 2
    → r < 8
    → get_or quantized (k * 8 + r) 0 ≡ p_bit
    → pack_bits 0 (samples_of quantized k) ≢ mask p_bit
byte-ne-mask quantized k r p_bit bits h hp hr at =
    pack_bits-ne-mask (samples_of quantized k) r p_bit (length-samples_of quantized k h)
      (All-take IsBit 8 _ (All-drop IsBit (k * 8) quantized bits)) hp hr
      (get_or-take 8 (drop (k * 8) quantized) r hr ∙ get_or-drop (k * 8) quantized r 0 ∙ at)

-- Eight samples shift whatever the byte held out of it.
pub pack_bits_fresh :
    (y : ℕ) (xs : List ℕ) → length xs ≡ 8 → All IsBit xs → pack_bits y xs ≡ pack_bits 0 xs
pack_bits_fresh y (a ∷ b ∷ c ∷ d ∷ e ∷ f ∷ g ∷ h ∷ []) size
      (ha, (hb, (hc, (hd, (he, (hf, (hg, (hh, _)))))))) =
    pack_eight y a b c d e f g h ha hb hc hd he hf hg hh
    ∙ sym (pack_eight 0 a b c d e f g h ha hb hc hd he hf hg hh)
pack_bits_fresh y [] size h = absurd (omega arith)
pack_bits_fresh y (a ∷ []) size h = absurd (omega arith)
pack_bits_fresh y (a ∷ b ∷ []) size h = absurd (omega arith)
pack_bits_fresh y (a ∷ b ∷ c ∷ []) size h = absurd (omega arith)
pack_bits_fresh y (a ∷ b ∷ c ∷ d ∷ []) size h = absurd (omega arith)
pack_bits_fresh y (a ∷ b ∷ c ∷ d ∷ e ∷ []) size h = absurd (omega arith)
pack_bits_fresh y (a ∷ b ∷ c ∷ d ∷ e ∷ f ∷ []) size h = absurd (omega arith)
pack_bits_fresh y (a ∷ b ∷ c ∷ d ∷ e ∷ f ∷ g ∷ []) size h = absurd (omega arith)
pack_bits_fresh y (a ∷ b ∷ c ∷ d ∷ e ∷ f ∷ g ∷ h ∷ i ∷ xs) size hb = absurd (omega arith)
