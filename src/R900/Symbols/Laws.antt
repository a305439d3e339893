-- ===== src/R900/Symbols/Laws.antt =====
-- Symbols read back from their digits, fields read back from their symbols, and the check.
use rtlamr.Base.{
  ℕ, zero, suc, ◌+◌, ◌-◌, ◌*◌, ◌/◌, ◌%◌, ◌^◌, ◌≤◌, ◌<◌, List, [], ◌∷◌, ◌++◌, append_assoc,
  append-nil, true, false, ltb, some, ◌>>=◌, length, length-append, take, drop, length-take,
  length-drop, take-append_left, drop-append_left, All-append, All-take, All-drop, slice, replicate,
  All, Bool-cases, inl, inr, ◌≡◌, ◌≢◌, refl, sym, ap, ap₂, ◌∙◌, arith,
}
use mathlib.Core.Option.{some_inj}
use rtlamr.Base.Text.{Bytes, bin, bytes_eq, bytes_eq_iff}
use rtlamr.Base.Text.Parse.{Parsed, parse_uint, parse_uint-bin}
use rtlamr.Protocol.BitString.{bin-append, take-bin, drop-bin, cast}
use native.Mathlib.Nat.{le_trans, mod-lt, one-le-pow, pow-le-pow_right}
use rtlamr.R900.{new_r900}
use rtlamr.R900.Gf.{new_field, syndrome}
use rtlamr.R900.Gf.Field32.{gf32, new_field-gf32}
use rtlamr.R900.Gf.Detect.{IsSymbol, syndrome-ne}
use rtlamr.R900.Symbols.{read_symbols, symbol_bits, rs_buf, check}

-- The two digits to base six of each symbol.
abbrev pub digits_of : List ℕ → List ℕ
digits_of [] = []
digits_of (s ∷ symbols) = (s / 6) ∷ (s % 6) ∷ digits_of symbols

-- The digits of symbols are read as the symbols.
pub read_symbols-digits_of :
    (symbols : List ℕ) → All IsSymbol symbols → read_symbols (digits_of symbols) ≡ some symbols
unfolding read_symbols
read_symbols-digits_of [] h = refl
read_symbols-digits_of (s ∷ symbols) (hs, h) =
    rw (back, small, read_symbols-digits_of symbols h) refl
  where
    back : (s / 6 * 6 + s % 6) % 256 ≡ s
    back = omega arith

    small : ltb 31 s ≡ false
    small = ground arith

-- A buffer that passes the check and one that differs from it in one symbol.
check_ne :
    (v v' : ℕ) (symbols symbols' : List ℕ) (before after : Bytes)
    → rs_buf symbols ≡ before ++ v ∷ after
    → rs_buf symbols' ≡ before ++ v' ∷ after
    → All IsSymbol before
    → All IsSymbol after
    → IsSymbol v
    → IsSymbol v'
    → length before + length after ≡ 30
    → v ≢ v'
    → (new_field 32 37 2 >>= λ f. check f symbols) ≡ some true
    → (new_field 32 37 2 >>= λ f. check f symbols') ≡ some false
unfolding check
check_ne v v' symbols symbols' before after is is' hb ha hv hv' size ne passes =
    let (s, s', runs, runs', differ) = syndrome-ne v v' before after hb ha hv hv' size ne in
    rw (new_field-gf32, is', unfolded (before ++ v' ∷ after) s' runs')
      (ap some (
        unequal s s' differ
          (some_inj.0 (sym (value s (unfolded (before ++ v ∷ after) s runs)) ∙ passes))))
  where
    unfolded :
        (buf s : Bytes)
        → (new_field 32 37 2 >>= λ f. syndrome f buf 5 29) ≡ some s
        → syndrome gf32 buf 5 29 ≡ some s
    unfolded buf s runs = ap (λ o. o >>= λ f. syndrome f buf 5 29) (sym new_field-gf32) ∙ runs

    value :
        (s : Bytes)
        → syndrome gf32 (before ++ v ∷ after) 5 29 ≡ some s
        → (new_field 32 37 2 >>= λ f. check f symbols) ≡ some (bytes_eq (replicate 5 0) s)
    value s runs = rw (new_field-gf32, is, runs) refl

    unequal :
        (s s' : Bytes)
        → s ≢ s'
        → bytes_eq (replicate 5 0) s ≡ true
        → bytes_eq (replicate 5 0) s' ≡ false
    unequal s s' differ h = elim (Bool-cases (bytes_eq (replicate 5 0) s')) [
      | inl e ↦ absurd (
          differ
            (sym ((bytes_eq_iff (replicate 5 0) s).0 h) ∙ (bytes_eq_iff (replicate 5 0) s').0 e))
      | inr e ↦ e
    ]

take_mid :
    (before : List ℕ) (v k : ℕ) (after : List ℕ) (n : ℕ)
    → n ≡ length before + suc k
    → take n (before ++ v ∷ after) ≡ before ++ v ∷ take k after
take_mid [] v k after zero e = absurd (omega (arith, e))
take_mid [] v k after (suc n) e = ap (λ m. v ∷ take m after) (omega (arith, e))
take_mid (x ∷ before) v k after zero e = absurd (omega (arith, e))
take_mid (x ∷ before) v k after (suc n) e =
    ap (◌∷◌ x) (take_mid before v k after n (omega (arith, e)))

drop_mid :
    (before : List ℕ) (v k : ℕ) (after : List ℕ) (n : ℕ)
    → n ≡ length before + suc k
    → drop n (before ++ v ∷ after) ≡ drop k after
drop_mid [] v k after zero e = absurd (omega (arith, e))
drop_mid [] v k after (suc n) e = ap (λ m. drop m after) (omega (arith, e))
drop_mid (x ∷ before) v k after zero e = absurd (omega (arith, e))
drop_mid (x ∷ before) v k after (suc n) e = drop_mid before v k after n (omega (arith, e))

zeros-IsSymbol : All IsSymbol (replicate 10 0)
zeros-IsSymbol = omega arith

-- A packet of 21 symbols that passes the check fails it after any change of one symbol, of the
-- payload or of the parity, and the check does not panic.
pub check-change :
    (v v' : ℕ) (before after : List ℕ)
    → All IsSymbol before
    → All IsSymbol after
    → IsSymbol v
    → IsSymbol v'
    → length before + length after ≡ 20
    → v ≢ v'
    → (new_field 32 37 2 >>= λ f. check f (before ++ v ∷ after)) ≡ some true
    → (new_field 32 37 2 >>= λ f. check f (before ++ v' ∷ after)) ≡ some false
unfolding rs_buf
check-change v v' before after hb ha hv hv' size ne passes =
    elim (Bool-cases (ltb (length before) 16)) [
      | inl e ↦
          let lt : length before < 16 = ground arith in
          let k : ℕ = 15 - length before in
          check_ne v v' (before ++ v ∷ after) (before ++ v' ∷ after) before
            (take k after ++ (replicate 10 0 ++ drop k after)) (in_payload v k (omega arith))
            (in_payload v' k (omega arith)) hb
            (All-append IsSymbol _ _ (All-take IsSymbol k after ha) (
              All-append IsSymbol (replicate 10 0) _ zeros-IsSymbol (All-drop IsSymbol k after ha)))
            hv hv'
            (omega (
              arith,
              length-append (take k after) (replicate 10 0 ++ drop k after),
              length-take k after,
              length-drop k after,
              size,
            ))
            ne passes
      | inr e ↦
          let le : 16 ≤ length before = ground arith in
          check_ne v v' (before ++ v ∷ after) (before ++ v' ∷ after)
            (take 16 before ++ (replicate 10 0 ++ drop 16 before)) after (in_parity v le)
            (in_parity v' le)
            (All-append IsSymbol _ _ (All-take IsSymbol 16 before hb) (
              All-append IsSymbol (replicate 10 0) _ zeros-IsSymbol
                (All-drop IsSymbol 16 before hb)))
            ha hv hv'
            (omega (
              arith,
              length-append (take 16 before) (replicate 10 0 ++ drop 16 before),
              length-take 16 before,
              length-drop 16 before,
              size,
            ))
            ne passes
    ]
  where
    in_payload :
        (u k : ℕ)
        → 16 ≡ length before + suc k
        → rs_buf (before ++ u ∷ after)
          ≡ before ++ u ∷ (take k after ++ (replicate 10 0 ++ drop k after))
    in_payload u k e =
        ap₂ (λ (a b : List ℕ). a ++ (replicate 10 0 ++ b)) (take_mid before u k after 16 e)
          (drop_mid before u k after 16 e)
        ∙ append_assoc before (u ∷ take k after) (replicate 10 0 ++ drop k after)

    in_parity :
        (u : ℕ)
        → 16 ≤ length before
        → rs_buf (before ++ u ∷ after)
          ≡ (take 16 before ++ (replicate 10 0 ++ drop 16 before)) ++ u ∷ after
    in_parity u le =
        ap₂ (λ (a b : List ℕ). a ++ (replicate 10 0 ++ b))
          (take-append_left 16 before (u ∷ after) le) (drop-append_left 16 before (u ∷ after) le)
        ∙ sym (append_assoc (take 16 before) (replicate 10 0 ++ drop 16 before) (u ∷ after))

-- The number that symbols spell, the first the highest.
abbrev pub symbols_value : ℕ → List ℕ → ℕ
symbols_value n [] = n
symbols_value n (s ∷ symbols) = symbols_value (n * 32 + s) symbols

symbol_bits-bin_from :
    (k n : ℕ) (symbols : List ℕ)
    → All IsSymbol symbols
    → bin k n ++ symbol_bits symbols ≡ bin (k + 5 * length symbols) (symbols_value n symbols)
unfolding symbol_bits
symbol_bits-bin_from k n [] h = append-nil (bin k n) ∙ ap (λ m. bin m n) (omega arith)
symbol_bits-bin_from k n (s ∷ symbols) (hs, h) =
    sym (append_assoc (bin k n) (bin 5 s) (symbol_bits symbols))
    ∙ ap (λ (t : Bytes). t ++ symbol_bits symbols) (bin-append k 5 n s hs)
    ∙ symbol_bits-bin_from (k + 5) (n * 32 + s) symbols h
    ∙ ap (λ m. bin m (symbols_value (n * 32 + s) symbols))
        (let e : k + 5 + 5 * length symbols ≡ k + 5 * suc (length symbols) = omega arith in e)

-- A field of `w` digits with `before` in front of it and `behind` after it.
symbols_field :
    (symbols : List ℕ) (before w behind width : ℕ)
    → All IsSymbol symbols
    → before + w + behind ≡ 5 * length symbols
    → 0 < w
    → w ≤ width
    → (parse_uint (slice (symbol_bits symbols) before (before + w)) 2 w).0 % 2 ^ width
      ≡ symbols_value 0 symbols / 2 ^ behind % 2 ^ w
symbols_field symbols before w behind width h size pos le =
    cast width
      (ap (λ (r : Parsed). r.0)
        (ap (λ s. parse_uint s 2 w) sliced
          ∙ parse_uint-bin w (symbols_value 0 symbols / 2 ^ behind) pos))
      (le_trans (mod-lt (symbols_value 0 symbols / 2 ^ behind) (one-le-pow w 2 (omega arith)))
        (pow-le-pow_right (omega arith) le))
  where
    sliced :
        slice (symbol_bits symbols) before (before + w)
        ≡ bin w (symbols_value 0 symbols / 2 ^ behind)
    sliced =
        ap₂ (λ n s. take n (drop before s)) (omega arith)
          (symbol_bits-bin_from 0 0 symbols h
            ∙ ap (λ n. bin n (symbols_value 0 symbols))
                (let e : 0 + 5 * length symbols ≡ before + (w + behind) = omega (arith, size) in e))
        ∙ ap (take w) (drop-bin before (w + behind) (symbols_value 0 symbols))
        ∙ take-bin w behind (symbols_value 0 symbols)

-- The fields of a packet of 21 symbols are the bit fields of the 105-bit number that they spell.
pub new_r900-fields :
    {F : Type 0} (symbols : List ℕ) (checksum : Bytes) (rssi snr : F)
    → length symbols ≡ 21
    → All IsSymbol symbols
    → let r = new_r900 (symbol_bits symbols) checksum rssi snr in
      let v = symbols_value 0 symbols in
      (r.id ≡ v / 2 ^ 73 % 2 ^ 32)
      × (r.unkn1 ≡ v / 2 ^ 65 % 2 ^ 8)
      × (r.no_use ≡ v / 2 ^ 59 % 2 ^ 6)
      × (r.back_flow ≡ v / 2 ^ 57 % 2 ^ 2)
      × (r.consumption ≡ v / 2 ^ 33 % 2 ^ 24)
      × (r.unkn3 ≡ v / 2 ^ 31 % 2 ^ 2)
      × (r.leak ≡ v / 2 ^ 27 % 2 ^ 4)
      × (r.leak_now ≡ v / 2 ^ 25 % 2 ^ 2)
unfolding new_r900
new_r900-fields symbols checksum rssi snr size h = (
  symbols_field symbols 0 32 73 32 h (omega (arith, size)) (omega arith) (omega arith),
  symbols_field symbols 32 8 65 8 h (omega (arith, size)) (omega arith) (omega arith),
  symbols_field symbols 40 6 59 8 h (omega (arith, size)) (omega arith) (omega arith),
  symbols_field symbols 46 2 57 8 h (omega (arith, size)) (omega arith) (omega arith),
  symbols_field symbols 48 24 33 32 h (omega (arith, size)) (omega arith) (omega arith),
  symbols_field symbols 72 2 31 8 h (omega (arith, size)) (omega arith) (omega arith),
  symbols_field symbols 74 4 27 8 h (omega (arith, size)) (omega arith) (omega arith),
  symbols_field symbols 78 2 25 8 h (omega (arith, size)) (omega arith) (omega arith),
)
