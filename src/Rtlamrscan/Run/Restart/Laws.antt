-- ===== src/Rtlamrscan/Run/Restart/Laws.antt =====
-- A decoder is started at most four times, and what it prints is handled in order.
use rtlamr.Base.{
  ℕ, zero, suc, ◌+◌, ◌≤◌, ◌<◌, List, [], ◌∷◌, ◌++◌, append-nil, Bool, leb, not, ◌||◌, Option, some,
  keep, ◌≡◌, refl, sym, ap, ◌∙◌, inl, inr, Bool-cases, arith, ◌⊎◌,
}
use rtlamr.Base.Text.{Bytes, bytes_eq}
use rtlamr.Rtlamrscan.Run.Restart.{
  Attempt, refused, ended, Ending, finished, cannot_start, kept_failing, max_attempts, scan_lines,
  attempt_from, run_decoder,
}
use rtlamr.Rtlamrscan.Sink.Lines.{
  CsvSink, new_csv_sink, write_line, write_lines, write_lines-header,
}

-- What the attempts from one on print, `count` of them.
abbrev pub lines_of : Attempt → List Bytes
lines_of refused = []
lines_of (ended lines cancelled failed) = lines

abbrev pub printed : (ℕ → Attempt) → ℕ → ℕ → List Bytes
printed process zero attempt = []
printed process (suc count) attempt =
    lines_of (process attempt) ++ printed process count (suc attempt)

cases :
    (a : Attempt)
    → (a ≡ refused)
      ⊎ ((lines : List Bytes) × (cancelled : Bool) × (failed : Bool) × (a
            ≡ ended lines cancelled failed))
cases refused = inl refl
cases (ended lines cancelled failed) = inr (lines, cancelled, failed, refl)

module _ {S : Type 0} (handle : Bytes → S → S) where
  scan_lines-append :
      (ls ms : List Bytes) (s : S)
      → scan_lines handle (ls ++ ms) s ≡ scan_lines handle ms (scan_lines handle ls s)
  unfolding scan_lines
  scan_lines-append [] ms s = refl
  scan_lines-append (l ∷ ls) ms s = scan_lines-append ls ms (handle l s)

  -- The loop ends after some of the attempts that are left, with what those print handled.
  abbrev Ends : (ℕ → Attempt) → ℕ → ℕ → S → Option (Ending × S) → Type 0
  Ends process fuel attempt s result =
      (count : ℕ) × (ending : Ending) × (0 < count)
      × (count ≤ fuel)
      × (result ≡ some (ending, scan_lines handle (printed process count attempt) s))
      × (ending ≡ kept_failing → count ≡ fuel)

  attempt_from-Ends :
      (process : ℕ → Attempt) (fuel attempt : ℕ) (s : S)
      → attempt + fuel ≡ suc max_attempts
      → 0 < fuel
      → Ends process fuel attempt s (attempt_from handle process fuel attempt s)
  unfolding attempt_from scan_lines
  attempt_from-Ends process zero attempt s sum pos = absurd (omega arith)
  attempt_from-Ends process (suc fuel) attempt s sum pos = elim (cases (process attempt)) [
    | inl e ↦ (
      1,
      cannot_start,
      omega arith,
      omega arith,
      rw (attempt_from, printed, e) refl,
      λ h. absurd (cc),
    )
    | inr (lines, cancelled, failed, e) ↦ elim (Bool-cases (cancelled || not failed)) [
      | inl stop ↦ (
        1,
        finished,
        omega arith,
        omega arith,
        rw (attempt_from, printed, e, stop) (rw (append-nil lines) refl),
        λ h. absurd (cc),
      )
      | inr more ↦ elim (Bool-cases (leb max_attempts attempt)) [
        | inl last ↦ (
          1,
          kept_failing,
          omega arith,
          omega arith,
          rw (attempt_from, printed, e, more, last) (rw (append-nil lines) refl),
          λ h. ground arith,
        )
        | inr left ↦
            let (count, ending, some_left, le, runs, all) =
              attempt_from-Ends process fuel (suc attempt) (scan_lines handle lines s)
                (omega (arith, sum)) (ground (arith, sum)) in
            (
              suc count,
              ending,
              omega arith,
              omega (arith, le),
              rw (attempt_from, printed, e, more, left)
                  (runs ∙ ap (λ s. some (ending, s)) (sym (scan_lines-append lines _ s))),
              λ h. omega (arith, all h),
            )
      ]
    ]
  ]

  -- A decoder's loop ends after one to four attempts, whatever its processes do; the state that it
  -- leaves is that of the lines printed in those attempts, each handled once and in order; and it
  -- gives up for repeated failure only after four.
  pub run_decoder-ends :
      (process : ℕ → Attempt) (s : S)
      → (count : ℕ) × (ending : Ending) × (0 < count)
        × (count ≤ max_attempts)
        × (run_decoder handle process s
            ≡ some (ending, scan_lines handle (printed process count 1) s))
        × (ending ≡ kept_failing → count ≡ max_attempts)
  unfolding run_decoder
  run_decoder-ends process s =
      attempt_from-Ends process max_attempts 1 s (omega arith) (omega arith)

scan_lines-write_lines :
    (lines : List Bytes) (s : CsvSink) → scan_lines write_line lines s ≡ write_lines lines s
unfolding scan_lines write_lines
scan_lines-write_lines [] s = refl
scan_lines-write_lines (line ∷ lines) s = scan_lines-write_lines lines (write_line line s)

pred_of : (n : ℕ) → 0 < n → (m : ℕ) × (n ≡ suc m)
pred_of zero h = absurd (omega arith)
pred_of (suc n) h = (n, refl)

-- However often a decoder dies and is started again, if its first process prints a header row then
-- the file holds that row once, behind what it held before, and then the other lines of all the
-- attempts in order, repeated headers left out.
pub run_decoder-write_line :
    (process : ℕ → Attempt) (held rows : List Bytes) (header : Bytes) (cancelled failed : Bool)
    → process 1 ≡ ended (header ∷ rows) cancelled failed
    → (count : ℕ) × (ending : Ending) × (s : CsvSink) × (count < max_attempts)
      × (run_decoder write_line process (new_csv_sink held) ≡ some (ending, s))
      × (s.file
          ≡ held
            ++ header ∷ keep (λ line. not (bytes_eq line header)) (rows ++ printed process count 2))
run_decoder-write_line process held rows header cancelled failed h =
    let (count, ending, pos, le, runs, _) =
      run_decoder-ends write_line process (new_csv_sink held) in
    let (later, e) = pred_of count pos in
    let all : printed process count 1 ≡ header ∷ rows ++ printed process later 2 =
      ap (λ n. printed process n 1) e ∙ ap (λ a. lines_of a ++ printed process later 2) h in
    (
      later,
      ending,
      scan_lines write_line (printed process count 1) (new_csv_sink held),
      omega (arith, le, e),
      runs,
      ap (λ (s : CsvSink). s.file)
            (scan_lines-write_lines (printed process count 1) (new_csv_sink held)
              ∙ ap (λ ls. write_lines ls (new_csv_sink held)) all)
          ∙ write_lines-header held header (rows ++ printed process later 2),
    )
