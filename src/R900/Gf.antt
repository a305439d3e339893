-- ===== src/R900/Gf.antt =====
-- r900/gf/gf.go: the finite field of the Reed-Solomon code. `none` is a Go panic. The orders and
-- exponents that the parser passes are not negative, so that the tests for it are left out.
pub mod Field32
pub mod Detect
pub mod Tests
use rtlamr.Base.{
  ℕ, zero, suc, ◌+◌, ◌-◌, ◌*◌, ◌/◌, ◌%◌, ◌^◌, bit_xor, bit_and, List, [], ◌∷◌, ◌++◌, Bool, true,
  false, not, ◌&&◌, ◌||◌, ◌==◌, ltb, leb, if◌then◌else◌, Option, none, some, ◌>>=◌, length,
  get_elem?, set, replicate,
}
use rtlamr.Base.Text.{Bytes}

-- `order` is the number of elements less one.
pub record Field : Type 0 where
  pub order : ℕ
  pub log : Bytes
  pub exp : Bytes

-- The loop of `nbit` takes at most as many steps as its argument.
nbit_loop : ℕ → ℕ → ℕ → ℕ
nbit_loop zero p n = n
nbit_loop (suc fuel) p n = let more = nbit_loop fuel (p / 2) (suc n) in if p == 0 then n else more

unfoldable pub nbit : ℕ → ℕ
unfolding nbit_loop
nbit p = nbit_loop p p 0

-- The steps of `polyDiv` for `np` from `nq + left - 1` down to `nq`.
poly_div_loop : ℕ → ℕ → ℕ → ℕ → ℕ
poly_div_loop zero nq q p = p
poly_div_loop (suc left) nq q p =
    poly_div_loop left nq q
      (if bit_and p (2 ^ (nq + left - 1)) == 0 then p else bit_xor p (q * 2 ^ left))

unfoldable pub poly_div : ℕ → ℕ → ℕ
unfolding poly_div_loop
poly_div p q = poly_div_loop (suc (nbit p) - nbit q) (nbit q) q p

-- The loop of `mul` takes at most as many steps as `x`.
mul_loop : ℕ → ℕ → ℕ → ℕ → ℕ → ℕ → ℕ
mul_loop zero x y order poly z = z
mul_loop (suc fuel) x y order poly z =
    let z' = if bit_and x 1 == 0 then z else bit_xor z y in
    let y' = y * 2 in
    let more =
      mul_loop fuel (x / 2) (if bit_and y' order == 0 then y' else bit_xor y' poly) order poly z' in
    if x == 0 then z else more

unfoldable pub mul_poly : ℕ → ℕ → ℕ → ℕ → ℕ
unfolding mul_loop
mul_poly x y order poly = mul_loop x x y order poly 0

-- Whether one of the `left` polynomials from `q` on divides `p`.
has_divisor : ℕ → ℕ → ℕ → Bool
has_divisor zero q p = false
has_divisor (suc left) q p = (poly_div p q == 0) || has_divisor left (suc q) p

unfoldable pub reducible : ℕ → Bool
unfolding has_divisor
reducible p = has_divisor (2 ^ (nbit p / 2 + 1) - 2) 2 p

-- `xs[i] = v` with its bounds check.
set? : Bytes → ℕ → ℕ → Option Bytes
set? xs i v = if ltb i (length xs) then some (set xs i v) else none

-- The loop that fills the tables, from index `i` on with `left` to go.
fill : ℕ → ℕ → ℕ → ℕ → ℕ → ℕ → Field → Option Field
unfolding set?
fill zero order poly α i x f = some f
fill (suc left) order poly α i x f = if (x == 1) && not (i == 0) then none else (do
  exp1 ← set? f.exp i (x % 256)
  exp2 ← set? exp1 (i + f.order) (x % 256)
  log1 ← set? f.log x (i % 256)
  fill left order poly α (suc i) (mul_poly x α order poly)
      (record { order = f.order; log = log1; exp = exp2 }))

-- The check that the logarithm of the exponential of each index from `i` on is that index.
check_log : ℕ → ℕ → Field → Bool
check_log zero i f = true
check_log (suc left) i f =
    back (get_elem? f.exp i) && (back (get_elem? f.exp (i + f.order)) && check_log left (suc i) f)
  where
    back : Option ℕ → Bool
    back none = false
    back (some e) = elim (get_elem? f.log e) [ none ↦ false | some l ↦ l == i % 256 ]

-- The check that the exponential of the logarithm of each element from `i` on is that element.
check_exp : ℕ → ℕ → Field → Bool
check_exp zero i f = true
check_exp (suc left) i f = forth (get_elem? f.log i) && check_exp left (suc i) f
  where
    forth : Option ℕ → Bool
    forth none = false
    forth (some l) = elim (get_elem? f.exp l) [ none ↦ false | some e ↦ e == i % 256 ]

unfoldable pub new_field : ℕ → ℕ → ℕ → Option Field
unfolding fill set? check_log check_exp
new_field order poly α =
    if ltb 256 order
    then none
    else if ltb poly order || (leb (order * 2) poly || reducible poly)
    then none
    else (do
      f ← fill (order - 1) order poly α 0 1 (record {
        order = order - 1;
        log = replicate order 0;
        exp = replicate ((order - 1) * 2) 0;
      })
      log ← set? f.log 0 (f.order % 256)
      let f' : Field = record { order = f.order; log = log; exp = f.exp } in
          if check_log f'.order 0 f' && check_exp (order - 1) 1 f' then some f' else none)

unfoldable pub exp : Field → ℕ → Option ℕ
exp f e = get_elem? f.exp (e % f.order)

-- `none` inside is the value -1 for zero.
unfoldable pub log : Field → ℕ → Option (Option ℕ)
log f x = if x == 0 then some none else (do l ← get_elem? f.log x; some (some l))

unfoldable pub inv : Field → ℕ → Option ℕ
inv f x =
    if x == 0
    then some 0
    else (do l ← get_elem? f.log x; if ltb f.order l then none else get_elem? f.exp (f.order - l))

unfoldable pub mul : Field → ℕ → ℕ → Option ℕ
mul f x y =
    if (x == 0) || (y == 0)
    then some 0
    else (do lx ← get_elem? f.log x; ly ← get_elem? f.log y; get_elem? f.exp (lx + ly))

-- The loop over the symbols after the first.
unfoldable pub syndrome_loop : Field → ℕ → ℕ → Bytes → Option ℕ
syndrome_loop f e syn [] = some syn
syndrome_loop f e syn (v ∷ message) = do
  c ← exp f e
  p ← mul f syn c
  syndrome_loop f e (bit_xor p v) message

-- The syndromes from index `idx` on, with `left` to go.
unfoldable pub syndromes : Field → Bytes → ℕ → ℕ → ℕ → Option Bytes
syndromes f message offset idx zero = some []
syndromes f [] offset idx (suc left) = none
syndromes f (v ∷ message) offset idx (suc left) = do
  syn ← syndrome_loop f (offset + idx) v message
  rest ← syndromes f (v ∷ message) offset (suc idx) left
  some (syn ∷ rest)

unfoldable pub syndrome : Field → Bytes → ℕ → ℕ → Option Bytes
syndrome f message parity_symbol_count offset =
    if ltb f.order offset
    then none
    else if ltb (length message) parity_symbol_count
    then none
    else syndromes f message offset 0 parity_symbol_count
