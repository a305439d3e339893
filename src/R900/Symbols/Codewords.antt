-- ===== src/R900/Symbols/Codewords.antt =====
-- The check on the symbols passes on the code's words.
use rtlamr.Base.{
  ℕ, bit_xor, suc, List, [], ◌∷◌, ◌++◌, true, false, ltb, some, length, length-append, take, drop,
  replicate, All, All-append, All-take, All-drop, ◌≡◌, refl, sym, ap, ◌∙◌, arith,
}
use rtlamr.Base.Xor.{zero-bit_xor}
use rtlamr.Base.Text.{Bytes, bytes_eq}
use rtlamr.R900.Gf.{mul_poly, exp, syndrome_loop, syndromes, syndrome}
use rtlamr.R900.Gf.Field32.{gf32}
use rtlamr.R900.Gf.Detect.{IsSymbol, steps, syndrome_loop-steps}
use rtlamr.R900.Symbols.{rs_buf, check}

-- The value of a polynomial over the field at `c`, with the coefficient of the highest power first, by
-- products of polynomials.
abbrev pub value_at : ℕ → Bytes → ℕ
value_at c message = steps c 0 message

-- The polynomial of the 16 symbols of payload, ten zeros and five symbols of parity is zero at five
-- powers of the generator 2: the 29th, the 30th, and the 31st to the 33rd, which are 1, 2 and 4.
pub record IsCodeword (symbols : List ℕ) : Type 0 where
  pub size : length symbols ≡ 21
  pub small : All IsSymbol symbols
  pub zeros :
      All
        (λ c. value_at c (take 16 symbols ++ (replicate 10 0 ++ drop 16 symbols)) ≡ 0)
        (9 ∷ 18 ∷ 1 ∷ 2 ∷ 4 ∷ [])

module _ (v : ℕ) (message : Bytes) (hv : IsSymbol v) (h : All IsSymbol message) where
  loop-zero :
      (e c : ℕ)
      → exp gf32 e ≡ some c
      → IsSymbol c
      → mul_poly 0 c 32 37 ≡ 0
      → value_at c (v ∷ message) ≡ 0
      → syndrome_loop gf32 e v message ≡ some 0
  loop-zero e c at hc zero_times z =
      let first : bit_xor (mul_poly 0 c 32 37) v ≡ v =
        ap (λ p. bit_xor p v) zero_times ∙ zero-bit_xor v in
      syndrome_loop-steps e c v message at hc hv h
      ∙ ap some (ap (λ s. steps c s message) (sym first) ∙ z)

  syndromes-zero :
      All (λ c. value_at c (v ∷ message) ≡ 0) (9 ∷ 18 ∷ 1 ∷ 2 ∷ 4 ∷ [])
      → syndromes gf32 (v ∷ message) 29 0 5 ≡ some (replicate 5 0)
  unfolding syndromes
  syndromes-zero (z1, (z2, (z3, (z4, (z5, _))))) =
      rw
        (
          loop-zero 29 9 (unfold exp in refl) (omega arith) (unfold mul_poly in refl) z1,
          loop-zero 30 18 (unfold exp in refl) (omega arith) (unfold mul_poly in refl) z2,
          loop-zero 31 1 (unfold exp in refl) (omega arith) (unfold mul_poly in refl) z3,
          loop-zero 32 2 (unfold exp in refl) (omega arith) (unfold mul_poly in refl) z4,
          loop-zero 33 4 (unfold exp in refl) (omega arith) (unfold mul_poly in refl) z5,
        )
        refl

-- The check passes on every word of the code.
pub check-IsCodeword : (symbols : List ℕ) → IsCodeword symbols → check gf32 symbols ≡ some true
unfolding check rs_buf syndrome
check-IsCodeword [] w = absurd (omega (arith, w.size))
check-IsCodeword (v ∷ symbols) w =
    let rest : Bytes = take 15 symbols ++ (replicate 10 0 ++ drop 15 symbols) in
    let (hv, h) = w.small in
    let small : All IsSymbol rest =
      All-append IsSymbol (take 15 symbols) (replicate 10 0 ++ drop 15 symbols)
        (All-take IsSymbol 15 symbols h)
        (All-append IsSymbol (replicate 10 0) _ (omega arith) (All-drop IsSymbol 15 symbols h)) in
    let zeros : syndromes gf32 (v ∷ rest) 29 0 5 ≡ some (replicate 5 0) =
      syndromes-zero v rest hv small w.zeros in
    let long : ltb (suc (length rest)) 5 ≡ false = ground (
      arith,
      length-append (take 15 symbols) (replicate 10 0 ++ drop 15 symbols),
      length-append (replicate {A = ℕ} 10 0) (drop 15 symbols),
    ) in
    rw (long, zeros) (unfold bytes_eq in refl)
