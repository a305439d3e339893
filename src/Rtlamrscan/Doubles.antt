-- ===== src/Rtlamrscan/Doubles.antt =====
-- The float64 operations that cmd/rtlamrscan uses, as an interface.
use rtlamr.Base.{ℕ, Option}
use rtlamr.Base.Text.{Bytes}
use rtlamr.Base.Text.Parse.{ParseError}
use rtlamr.Base.Text.Trim.{Lacks}

pub record Doubles : Type 1 where
  pub D : Type 0
  pub zero_d : D
  pub add : D → D → D
  pub neg : D → D
  pub mul : D → D → D
  pub div : D → D → D
  pub of_nat : ℕ → D
  -- 1.852, the kilometres of a nautical mile.
  pub knot : D
  -- `strconv.ParseFloat(s, 64)`.
  pub parse : Bytes → D × Option ParseError
  -- `strconv.FormatFloat(d, 'f', prec, 64)`, which prints no comma.
  pub format : D → ℕ → Bytes
  pub format-Lacks : (d : D) (prec : ℕ) → Lacks b',' (format d prec)
  -- `time.Duration.Seconds` of a number of nanoseconds.
  pub seconds : ℕ → D
