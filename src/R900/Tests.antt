-- ===== src/R900/Tests.antt =====
-- The R900 parser at concrete inputs, with whole numbers in the place of floats.
use rtlamr.Base.{
  ℕ, suc, ◌+◌, ◌-◌, ◌*◌, ◌/◌, ◌%◌, ◌^◌, ◌<◌, get_elem?, none, Option-cases, inl, inr, ap, sym, ◌∙◌,
  List, [], ◌∷◌, ◌++◌, true, false, ltb, some, ◌>>=◌, length, drop, replicate, All, ◌≡◌, refl,
  arith,
}
use rtlamr.Base.Text.{bytes_eq, format_uint}
use rtlamr.Protocol.{Data}
use rtlamr.Protocol.Config.{PacketConfig, packet_config}
use rtlamr.Protocol.Floats.{Floats}
use rtlamr.R900.{R900}
use rtlamr.R900.Filter.{filter, filter-IsDigit, IsDigit}
use rtlamr.R900.Gf.{exp, mul, mul_poly, new_field, syndrome_loop, syndromes, syndrome}
use rtlamr.R900.Gf.Field32.{gf32, new_field-gf32}
use rtlamr.R900.Symbols.{read_digits, rs_buf, check}
use rtlamr.R900.Symbols.Laws.{digits_of, symbols_value, check-change}
use rtlamr.R900.Parse.{parse_packets}
use rtlamr.R900.Parse.Laws.{payload, DigitsAt, Spells, parse_packets-IsCodeword}
use rtlamr.R900.Symbols.Codewords.{IsCodeword}

abbrev pub whole : Floats
whole = record {
  F = ℕ;
  D = ℕ;
  zero_f = 0;
  add_f = ◌+◌;
  sub_f = ◌-◌;
  neg_f = λ x. x;
  mul_f = ◌*◌;
  div_f = ◌/◌;
  of_nat_f = λ n. n;
  middle_f = 127;
  above_f = λ x y. ltb y x;
  sign_bit = λ f. 0;
  sign_bit-lt = λ f. omega arith;
  format_f = λ f. format_uint f 10;
  widen = λ x. x;
  narrow = λ x. x;
  of_nat = λ n. n;
  neg_d = λ x. x;
  mul_d = ◌*◌;
  div_d = ◌/◌;
  log10 = λ x. x;
  positive = λ x. ltb 0 x;
}

abbrev payload_symbols : List ℕ
payload_symbols = 3 ∷ 9 ∷ 14 ∷ 27 ∷ 5 ∷ 31 ∷ 0 ∷ 12 ∷ 8 ∷ 1 ∷ 30 ∷ 22 ∷ 17 ∷ 4 ∷ 11 ∷ 6 ∷ []

abbrev parity_symbols : List ℕ
parity_symbols = 8 ∷ 0 ∷ 24 ∷ 14 ∷ 14 ∷ []

abbrev symbols : List ℕ
symbols = payload_symbols ++ parity_symbols

checked : check gf32 symbols ≡ some true
unfolding check syndrome syndromes syndrome_loop rs_buf exp mul bytes_eq
checked = refl

check-change_example : (new_field 32 37 2 >>= λ f. check f (7 ∷ drop 1 symbols)) ≡ some false
check-change_example =
    check-change 3 7 [] (drop 1 symbols) (omega arith) (omega arith) (omega arith) (omega arith)
      refl (omega arith) (rw new_field-gf32 checked)

symbols-IsCodeword : IsCodeword symbols
unfolding mul_poly
symbols-IsCodeword = record {
  size = refl;
  small = omega arith;
  zeros = (refl, (refl, (refl, (refl, (refl, tt)))));
}

-- Four samples to a digit, of which the first two are read.
abbrev spaced : List ℕ → List ℕ
spaced [] = []
spaced (d ∷ digits) = d ∷ d ∷ 0 ∷ 0 ∷ spaced digits

abbrev quarter : PacketConfig
quarter = record (packet_config [] [] 0 0 1 0 0) { block_size = 2 }

-- Digits that are read stand where they are read.
read_DigitsAt :
    (q : List ℕ) (pkt : Data) (k : ℕ) (digits : List ℕ)
    → read_digits q (payload whole quarter (replicate 200 0) q symbols pkt) 1 (length digits) k
      ≡ some digits
    → DigitsAt whole quarter (replicate 200 0) q symbols pkt k digits
unfolding read_digits packet_config
read_DigitsAt q pkt k [] h = tt
read_DigitsAt q pkt k (d ∷ digits) h =
    let p : ℕ = pkt.idx + quarter.preamble_length - quarter.symbol_length in
    let place : p + k * 1 * 4 ≡ p + k * 4 = omega arith in
    elim (Option-cases (get_elem? q (p + k * 1 * 4))) [
      | inl none_there ↦ absurd (let bad : none ≡ some (d ∷ digits) = rw none_there at h in cc)
      | inr (d', at) ↦ elim (Option-cases (read_digits q p 1 (length digits) (suc k))) [
        | inl none_left ↦
            absurd (let bad : none ≡ some (d ∷ digits) = rw (at, none_left) at h in cc)
        | inr (rest, more) ↦
            let both : some (d' ∷ rest) ≡ some (d ∷ digits) = rw (at, more) at h in
            let same : d' ≡ d = cc in
            let same_rest : rest ≡ digits = cc in
            (
              ap (get_elem? q) (sym place) ∙ at ∙ ap some same,
              read_DigitsAt q pkt (suc k) digits (more ∙ ap some same_rest),
            )
      ]
    ]

abbrev found_at : (q : ℕ) → Data
found_at q = record { idx = q; bits = []; bytes = [] }

abbrev spelled : List ℕ
spelled = spaced (digits_of symbols)

-- The decoder finds the packet at two samples side by side.
spelled-Spells :
    (q : ℕ)
    → q < 2
    → read_digits spelled (found_at q).idx 1 42 0 ≡ some (digits_of symbols)
    → Spells whole quarter (replicate 200 0) spelled symbols (found_at q)
unfolding packet_config
spelled-Spells q lt h = record {
  inside = omega arith;
  summed = omega arith;
  digits =
      read_DigitsAt spelled (found_at q) 0 (digits_of symbols)
        (rw (let e : q + 0 - 0 ≡ q = omega arith in e) h);
}

parse_packets-IsCodeword_example :
    let v = symbols_value 0 symbols in
    (r : R900 ℕ) × (parse_packets whole gf32 quarter
        (replicate 200 0)
        spelled
        []
        (found_at 0 ∷ found_at 1 ∷ [])
      ≡ some (r ∷ []))
    × (r.checksum ≡ parity_symbols)
    × (r.id ≡ v / 2 ^ 73 % 2 ^ 32)
    × (r.unkn1 ≡ v / 2 ^ 65 % 2 ^ 8)
    × (r.no_use ≡ v / 2 ^ 59 % 2 ^ 6)
    × (r.back_flow ≡ v / 2 ^ 57 % 2 ^ 2)
    × (r.consumption ≡ v / 2 ^ 33 % 2 ^ 24)
    × (r.unkn3 ≡ v / 2 ^ 31 % 2 ^ 2)
    × (r.leak ≡ v / 2 ^ 27 % 2 ^ 4)
    × (r.leak_now ≡ v / 2 ^ 25 % 2 ^ 2)
unfolding read_digits
parse_packets-IsCodeword_example =
    parse_packets-IsCodeword whole quarter (replicate 200 0) spelled symbols symbols-IsCodeword
      (found_at 0) (found_at 1 ∷ [])
      (spelled-Spells 0 (omega arith) refl, (spelled-Spells 1 (omega arith) refl, tt))

filter-IsDigit_example :
    (csum' : List ℕ) × (quantized' : List ℕ) × (filter whole
        (record quarter { buffer_length = 12 })
        (replicate 12 5)
        (replicate 13 0)
        (replicate 12 0)
      ≡ some (csum', quantized'))
    × (length csum' ≡ 13)
    × (length quantized' ≡ 12)
    × All (IsDigit whole) quantized'
filter-IsDigit_example =
    filter-IsDigit whole (record quarter { buffer_length = 12 }) (replicate 12 5) (replicate 13 0)
      (replicate 12 0) refl refl refl (omega arith)
