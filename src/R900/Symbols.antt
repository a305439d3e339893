-- ===== src/R900/Symbols.antt =====
-- The symbols of an R900 packet: pairs of digits to base six, and the check on the symbols.
pub mod Laws
pub mod Codewords
use rtlamr.Base.{
  ℕ, zero, suc, ◌+◌, ◌-◌, ◌*◌, ◌/◌, ◌%◌, ◌^◌, List, [], ◌∷◌, ◌++◌, Bool, true, false, ltb, ◌==◌,
  if◌then◌else◌, Option, none, some, ◌>>=◌, get_elem?, take, drop, replicate,
}
use rtlamr.Base.Text.{Bytes, bin, bytes_eq}
use rtlamr.R900.Gf.{Field, syndrome}

-- `quantized[payloadIdx+idx*chipLength*4]` for the digits from `idx` on, with `left` to go.
unfoldable pub read_digits : List ℕ → ℕ → ℕ → ℕ → ℕ → Option (List ℕ)
read_digits quantized payload_idx chip_length zero idx = some []
read_digits quantized payload_idx chip_length (suc left) idx = do
  d ← get_elem? quantized (payload_idx + idx * chip_length * 4)
  rest ← read_digits quantized payload_idx chip_length left (suc idx)
  some (d ∷ rest)

-- The loop over the pairs; `none` is `badSymbol`.
unfoldable pub read_symbols : List ℕ → Option (List ℕ)
read_symbols [] = some []
read_symbols (d ∷ []) = some []
read_symbols (d ∷ e ∷ digits) =
    let symbol = (d * 6 + e) % 2 ^ 8 in
    let rest = (do symbols ← read_symbols digits; some (symbol ∷ symbols)) in
    if ltb 31 symbol then none else rest

-- Five digits `'0' + (symbol >> (4 - b) & 1)` for each symbol.
unfoldable pub symbol_bits : List ℕ → Bytes
symbol_bits [] = []
symbol_bits (symbol ∷ symbols) = bin 5 symbol ++ symbol_bits symbols

-- The Reed-Solomon buffer: 16 symbols of payload, ten that stay zero, five of parity.
unfoldable pub rs_buf : List ℕ → Bytes
rs_buf symbols = take 16 symbols ++ (replicate 10 0 ++ drop 16 symbols)

-- Whether all five syndromes are zero; `none` is a panic.
unfoldable pub check : Field → List ℕ → Option Bool
check field symbols = do s ← syndrome field (rs_buf symbols) 5 29; some (bytes_eq (replicate 5 0) s)
