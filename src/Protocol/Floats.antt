-- ===== src/Protocol/Floats.antt =====
-- The floating-point operations that the program uses, as an interface: `F` stands for float32 and
-- `D` for float64.
use rtlamr.Base.{ℕ, ◌<◌, Bool}
use rtlamr.Base.Text.{Bytes}

pub record Floats : Type 1 where
  pub F : Type 0
  pub D : Type 0
  pub zero_f : F
  pub add_f : F → F → F
  pub sub_f : F → F → F
  pub neg_f : F → F
  pub mul_f : F → F → F
  pub div_f : F → F → F
  -- The value of a small integer, and 127.5.
  pub of_nat_f : ℕ → F
  pub middle_f : F
  -- `x > y`.
  pub above_f : F → F → Bool
  -- `math.Float32bits(f) >> 31`.
  pub sign_bit : F → ℕ
  pub sign_bit-lt : (f : F) → sign_bit f < 2
  -- `strconv.FormatFloat(float64(f), 'f', 1, 32)`.
  pub format_f : F → Bytes
  pub widen : F → D
  pub narrow : D → F
  pub of_nat : ℕ → D
  pub neg_d : D → D
  pub mul_d : D → D → D
  pub div_d : D → D → D
  pub log10 : D → D
  pub positive : D → Bool
