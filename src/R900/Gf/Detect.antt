-- ===== src/R900/Gf/Detect.antt =====
-- The first syndrome tells apart two messages that differ in one symbol.
use rtlamr.Base.{
  ℕ, zero, suc, ◌+◌, ◌<◌, bit_xor, [], ◌∷◌, ◌++◌, true, false, ltb, some, ◌>>=◌, length,
  length-append, All, All-append, ◌≡◌, ◌≢◌, refl, sym, ap, ap₂, ◌∙◌, arith,
}
use mathlib.Core.Option.{some_inj}
use rtlamr.Base.Text.{Bytes}
use rtlamr.Base.Xor.{bit_xor-lt, bit_xor_cancel, bit_xor_comm}
use rtlamr.R900.Gf.{new_field, mul_poly, exp, syndrome_loop, syndromes, syndrome}
use rtlamr.R900.Gf.Field32.{
  gf32, new_field-gf32, every_below, below, is_value, value, mul_total, exp_total,
}

abbrev pub IsSymbol : ℕ → Type 0
IsSymbol v = v < 32

-- One step of the loop, as a total function.
abbrev step : ℕ → ℕ → ℕ → ℕ
step c s v = bit_xor (mul_poly s c 32 37) v

abbrev pub steps : ℕ → ℕ → Bytes → ℕ
steps c s [] = s
steps c s (v ∷ message) = steps c (step c s v) message

step-IsSymbol : (c s v : ℕ) → IsSymbol c → IsSymbol s → IsSymbol v → IsSymbol (step c s v)
step-IsSymbol c s v hc hs hv = bit_xor-lt 5 (mul_poly s c 32 37) v (mul_total s c hs hc).1 hv

pub syndrome_loop-steps :
    (e c s : ℕ) (message : Bytes)
    → exp gf32 e ≡ some c
    → IsSymbol c
    → IsSymbol s
    → All IsSymbol message
    → syndrome_loop gf32 e s message ≡ some (steps c s message)
unfolding syndrome_loop
syndrome_loop-steps e c s [] at hc hs h = refl
syndrome_loop-steps e c s (v ∷ message) at hc hs (hv, h) =
    rw (at, (mul_total s c hs hc).0)
      (syndrome_loop-steps e c (step c s v) message at hc (step-IsSymbol c s v hc hs hv) h)

syndromes_total :
    (v : ℕ) (message : Bytes) (offset idx left : ℕ)
    → IsSymbol v
    → All IsSymbol message
    → (rest : Bytes) × (syndromes gf32 (v ∷ message) offset idx left ≡ some rest)
unfolding syndromes
syndromes_total v message offset idx zero hv h = ([], refl)
syndromes_total v message offset idx (suc left) hv h =
    let (c, at, hc) = exp_total (offset + idx) in
    let (rest, runs) = syndromes_total v message offset (suc idx) left hv h in
    (
      steps c v message ∷ rest,
      rw (syndrome_loop-steps (offset + idx) c v message at hc hv h, runs) refl,
    )

-- The constant of the first syndrome, the exponential of 29, is 9, and multiplying by 4 undoes
-- multiplying by it.
undo : every_below 32 (λ s. is_value (some (mul_poly (mul_poly s 9 32 37) 4 32 37)) s) ≡ true
unfolding every_below is_value mul_poly
undo = refl

step_injective : (s t v : ℕ) → IsSymbol s → IsSymbol t → step 9 s v ≡ step 9 t v → s ≡ t
step_injective s t v hs ht e =
    sym (undone s hs)
    ∙ ap (λ p. mul_poly p 4 32 37)
        (sym (cancel (mul_poly s 9 32 37) v)
          ∙ ap (λ x. bit_xor x v) e
          ∙ cancel (mul_poly t 9 32 37) v)
    ∙ undone t ht
  where
    undone : (s : ℕ) → IsSymbol s → mul_poly (mul_poly s 9 32 37) 4 32 37 ≡ s
    undone s hs =
        some_inj.0 (value (some (mul_poly (mul_poly s 9 32 37) 4 32 37)) s (below 32 _ undo s hs))

    cancel : (a b : ℕ) → bit_xor (bit_xor a b) b ≡ a
    cancel a b =
        bit_xor_comm (bit_xor a b) b ∙ ap (bit_xor b) (bit_xor_comm a b) ∙ bit_xor_cancel b a

head_inj : {x y : ℕ} {xs ys : Bytes} → x ∷ xs ≡ y ∷ ys → x ≡ y
head_inj e = cc

steps_injective :
    (s t : ℕ) (message : Bytes)
    → IsSymbol s
    → IsSymbol t
    → All IsSymbol message
    → steps 9 s message ≡ steps 9 t message
    → s ≡ t
steps_injective s t [] hs ht h e = e
steps_injective s t (v ∷ message) hs ht (hv, h) e = step_injective s t v hs ht (
    steps_injective (step 9 s v) (step 9 t v) message (step-IsSymbol 9 s v (omega arith) hs hv)
      (step-IsSymbol 9 t v (omega arith) ht hv) h e)

steps_differ :
    (s v v' : ℕ) (before after : Bytes)
    → IsSymbol s
    → All IsSymbol before
    → All IsSymbol after
    → IsSymbol v
    → IsSymbol v'
    → v ≢ v'
    → steps 9 s (before ++ v ∷ after) ≢ steps 9 s (before ++ v' ∷ after)
steps_differ s v v' [] after hs hb ha hv hv' ne e = ne (
    xor_injective (mul_poly s 9 32 37) v v' (
      steps_injective (step 9 s v) (step 9 s v') after (step-IsSymbol 9 s v (omega arith) hs hv)
        (step-IsSymbol 9 s v' (omega arith) hs hv') ha e))
  where
    xor_injective : (a b c : ℕ) → bit_xor a b ≡ bit_xor a c → b ≡ c
    xor_injective a b c e = sym (bit_xor_cancel a b) ∙ ap (bit_xor a) e ∙ bit_xor_cancel a c
steps_differ s v v' (u ∷ before) after hs (hu, hb) ha hv hv' ne e =
    steps_differ (step 9 s u) v v' before after (step-IsSymbol 9 s u (omega arith) hs hu) hb ha hv
      hv' ne e

-- The syndromes that the parser takes, with the first one computed.
syndrome-steps :
    (v : ℕ) (message : Bytes)
    → IsSymbol v
    → All IsSymbol message
    → length message ≡ 30
    → (rest : Bytes) × (syndrome gf32 (v ∷ message) 5 29 ≡ some (steps 9 v message ∷ rest))
unfolding syndrome
syndrome-steps v message hv h size =
    let (rest, runs) = syndromes_total v message 29 1 4 hv h in (rest, rw long (first rest runs))
  where
    long : ltb (suc (length message)) 5 ≡ false
    long = ground arith

    at : exp gf32 29 ≡ some 9
    at = unfold exp in refl

    first :
        (rest : Bytes)
        → syndromes gf32 (v ∷ message) 29 1 4 ≡ some rest
        → syndromes gf32 (v ∷ message) 29 0 5 ≡ some (steps 9 v message ∷ rest)
    first rest runs =
        unfold syndromes in
        ap₂ (λ a b. a >>= (λ syn. b >>= (λ r. some (syn ∷ r))))
          (syndrome_loop-steps 29 9 v message at (omega arith) hv h) runs

-- Over the field of the protocol, two packets of 31 symbols that differ in exactly one symbol have
-- different syndromes, and none of the two computations panics.
pub syndrome-ne :
    (v v' : ℕ) (before after : Bytes)
    → All IsSymbol before
    → All IsSymbol after
    → IsSymbol v
    → IsSymbol v'
    → length before + length after ≡ 30
    → v ≢ v'
    → (s : Bytes) × (s' : Bytes) × ((new_field 32 37 2 >>= λ f.
          syndrome f (before ++ v ∷ after) 5 29)
        ≡ some s)
      × ((new_field 32 37 2 >>= λ f. syndrome f (before ++ v' ∷ after) 5 29) ≡ some s')
      × (s ≢ s')
syndrome-ne v v' [] after hb ha hv hv' size ne =
    let (rest, runs) = syndrome-steps v after hv ha (omega (arith, size)) in
    let (rest', runs') = syndrome-steps v' after hv' ha (omega (arith, size)) in
    (
      steps 9 v after ∷ rest,
      steps 9 v' after ∷ rest',
      rw new_field-gf32 runs,
      rw new_field-gf32 runs',
      λ e. ne (steps_injective v v' after hv hv' ha (head_inj e)),
    )
syndrome-ne v v' (u ∷ before) after (hu, hb) ha hv hv' size ne =
    let (rest, runs) =
      syndrome-steps u (before ++ v ∷ after) hu (All-append IsSymbol before _ hb (hv, ha))
        (omega (arith, size, length-append before (v ∷ after))) in
    let (rest', runs') =
      syndrome-steps u (before ++ v' ∷ after) hu (All-append IsSymbol before _ hb (hv', ha))
        (omega (arith, size, length-append before (v' ∷ after))) in
    (
      steps 9 u (before ++ v ∷ after) ∷ rest,
      steps 9 u (before ++ v' ∷ after) ∷ rest',
      rw new_field-gf32 runs,
      rw new_field-gf32 runs',
      λ e. steps_differ u v v' before after hu hb ha hv hv' ne (head_inj e),
    )
