-- ===== src/Rtlamrscan/Run/Plan.antt =====
-- freqPlan: a center frequency for each dongle.
pub mod Laws
use rtlamr.Base.{
  ℕ, suc, ◌+◌, ◌^◌, ◌≤◌, ◌<◌, List, [], ◌∷◌, ◌++◌, Bool, true, false, ltb, ◌==◌, if◌then◌else◌,
  Option, none, some, length, length-take, take, min, ◌≡◌, ◌⊎◌, refl, ap, ◌∙◌, inl, inr, Bool-cases,
  arith,
}
use rtlamr.Base.Text.{Bytes, split, bytes_eq}
use rtlamr.Base.Text.Parse.{ParseError, parse_uint}
use rtlamr.Base.Text.Trim.{trim_space}

-- `invalid` and `too_few` are the fatal errors: a value that is no frequency, and fewer frequencies
-- than dongles.
pub data FreqPlan : Type 0 where
  planned : List ℕ → FreqPlan
  invalid : Bytes → FreqPlan
  too_few : ℕ → FreqPlan

-- The end of the branch for `-freqs`.
unfoldable pub cut_plan : ℕ → List ℕ → FreqPlan
cut_plan count plan =
    if ltb (length plan) count then too_few (length plan) else planned (take count plan)

-- The loop over the values of `-freqs`, behind the plan so far.
unfoldable pub read_plan : ℕ → List ℕ → List Bytes → FreqPlan
read_plan count plan [] = cut_plan count plan
read_plan count plan (s ∷ values) =
    let (f, err) = parse_uint (trim_space s) 10 32 in
    let rest = read_plan count (plan ++ f ∷ []) values in
    elim err [ none ↦ rest | some e ↦ invalid s ]

unfoldable pub freq_plan : Bytes → ℕ → FreqPlan
freq_plan freqs count =
    let default : List ℕ =
      if count == 1
      then 0 ∷ []
      else if count == 2
      then 911200000 ∷ 913560000 ∷ []
      else 906000000 ∷ 912380000 ∷ 918500000 ∷ [] in
    if bytes_eq freqs [] then planned default else read_plan count [] (split freqs b',')
