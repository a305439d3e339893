-- ===== src/Rtlamrscan/Run/Restart.antt =====
-- runDecoder: a decoder that dies early is started again, a few times.
pub mod Laws
use rtlamr.Base.{
  ℕ, zero, suc, ◌+◌, ◌≤◌, ◌<◌, List, [], ◌∷◌, ◌++◌, Bool, true, false, leb, ◌||◌, not,
  if◌then◌else◌, Option, none, some, flatten, ◌≡◌, ◌≢◌, refl, ap, ◌∙◌, inl, inr, ◌⊎◌, Bool-cases,
  arith,
}
use rtlamr.Base.Text.{Bytes}

-- What happens to one process: it cannot be started, or it prints lines and ends; `cancelled` tells
-- whether the context is cancelled by then, and `failed` whether it ends with an error.
pub data Attempt : Type 0 where
  refused : Attempt
  ended : (lines : List Bytes) (cancelled failed : Bool) → Attempt

pub data Ending : Type 0 where
  finished : Ending
  cannot_start : Ending
  kept_failing : Ending

abbrev pub max_attempts : ℕ
max_attempts = 4

module _ {S : Type 0} (handle : Bytes → S → S) where
  -- The scanner's loop.
  unfoldable pub scan_lines : List Bytes → S → S
  scan_lines [] s = s
  scan_lines (line ∷ lines) s = scan_lines lines (handle line s)

  -- The loop of `runDecoder` from an attempt on; `none` stands for a loop that has not ended.
  unfoldable pub attempt_from : (ℕ → Attempt) → ℕ → ℕ → S → Option (Ending × S)
  attempt_from process zero attempt s = none
  attempt_from process (suc fuel) attempt s = elim (process attempt) [
    | refused ↦ some (cannot_start, s)
    | ended lines cancelled failed ↦
        let s' = scan_lines lines s in
        let again = attempt_from process fuel (suc attempt) s' in
        if cancelled || not failed
        then some (finished, s')
        else if leb max_attempts attempt
        then some (kept_failing, s')
        else again
  ]

  -- `runDecoder`, with rounds for each of its attempts.
  unfoldable pub run_decoder : (ℕ → Attempt) → S → Option (Ending × S)
  run_decoder process s = attempt_from process max_attempts 1 s
