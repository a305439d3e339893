-- ===== src/R900/Gf/Tests.antt =====
-- The field at concrete inputs.
use rtlamr.Base.{[], ◌∷◌, some, ◌>>=◌, ◌≡◌, arith}
use rtlamr.Base.Text.{Bytes}
use rtlamr.R900.Gf.{new_field, mul_poly, mul}
use rtlamr.R900.Gf.Field32.{mul-mul_poly}

mul-mul_poly_example : (new_field 32 37 2 >>= λ f. mul f 19 27) ≡ some 4
unfolding mul_poly
mul-mul_poly_example = mul-mul_poly 19 27 (omega arith) (omega arith)

abbrev others : Bytes
others = 7 ∷ 31 ∷ 0 ∷ 4 ∷ 5 ∷ 6 ∷ 7 ∷ 8 ∷ 9 ∷ 10 ∷ 11 ∷ 12 ∷ 13 ∷ 14 ∷ 15 ∷ []
