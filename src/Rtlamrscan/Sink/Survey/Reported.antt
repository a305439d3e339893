-- ===== src/Rtlamrscan/Sink/Survey/Reported.antt =====
-- The position in a survey's row, as the GPS receiver's sentences give it.
use rtlamr.Base.{
  ℕ, ◌-◌, List, [], Bool, true, false, ◌&&◌, leb, if◌then◌else◌, Option, none, some, ◌≡◌, refl, ap₂,
  ◌∙◌, inl, inr, Bool-cases,
}
use rtlamr.Base.Int.{itoa}
use rtlamr.Base.Text.{Bytes}
use rtlamr.Rtlamrscan.Doubles.{Doubles}
use rtlamr.Rtlamrscan.Gps.Reader.{GpsReader, since, new_reader, status_snapshot, handle_all}
use rtlamr.Rtlamrscan.Gps.Reader.Laws.{
  last_some, or_else, gga_of, motion_of, fresh_fix, handle_all-view,
}
use rtlamr.Rtlamrscan.Gps.Sentence.{Fix, zero_fix}
use rtlamr.Rtlamrscan.Sink.Survey.{Position, print_position, position}

module _ (fl : Doubles) where
  open fl use {D, format, zero_d, seconds}

  -- A speed or a course of an RMC sentence that came at most ten seconds ago, and else zero.
  abbrev recent : ℕ → Option ℕ → D → D
  recent now none x = zero_d
  recent now (some t) x = if leb (now - t) 10000000000 then x else zero_d

  -- The texts for the last GGA sentence and the last usable RMC sentence: blank, unless the former is
  -- usable and came at most ten seconds ago.
  abbrev pub shown : ℕ → Option (Fix D × Bool) → D × D × Option ℕ → Position
  shown now gga (speed_kmh, course, motion_when) = elim (fresh_fix fl now 10000000000 gga) [
    | none ↦ record {
      lat = [];
      lon = [];
      quality = [];
      sats = [];
      hdop = [];
      alt = [];
      speed = [];
      course = [];
      age = [];
    }
    | some fix ↦ record {
      lat = format fix.lat 6;
      lon = format fix.lon 6;
      quality = itoa fix.quality;
      sats = itoa fix.num_sats;
      hdop = format fix.hdop 1;
      alt = format fix.alt_m 1;
      speed = format (recent now motion_when speed_kmh) 1;
      course = format (recent now motion_when course) 0;
      age = format (seconds (now - fix.when)) 1;
    }
  ]

  abbrev pub reported : ℕ → List (ℕ × Bytes) → Position
  reported now log =
      shown now (last_some (gga_of fl) log)
        (or_else (last_some (motion_of fl) log) (zero_d, zero_d, none))

  -- Without a receiver the position is blank.
  abbrev pub reported_by : ℕ → Option (List (ℕ × Bytes)) → Position
  reported_by now none = record {
    lat = [];
    lon = [];
    quality = [];
    sats = [];
    hdop = [];
    alt = [];
    speed = [];
    course = [];
    age = [];
  }
  reported_by now (some log) = reported now log

  abbrev pub reader_of : Option (List (ℕ × Bytes)) → Option (GpsReader D)
  reader_of none = none
  reader_of (some log) = some (handle_all fl log (new_reader fl))

  moving-recent :
      (now : ℕ) (t : Option ℕ) (x : D)
      → (if leb (since now t) 10000000000 then x else zero_d) ≡ recent now t x
  unfolding since
  moving-recent now none x = refl
  moving-recent now (some t) x = refl

  position-shown :
      (now : ℕ) (g : GpsReader D)
      → position fl now (some g)
        ≡ shown now (some (g.fix, g.valid)) (g.speed_kmh, g.course, g.motion_when)
  unfolding position print_position status_snapshot
  position-shown now g =
      elim (Bool-cases (g.valid && leb (since now (some g.fix.when)) 10000000000)) [
        | inr stale ↦
            let old : g.valid && leb (now - g.fix.when) 10000000000 ≡ false =
              unfold since in stale in
            rw stale (rw (shown, fresh_fix, old) refl)
        | inl fresh ↦
            let new : g.valid && leb (now - g.fix.when) 10000000000 ≡ true =
              unfold since in fresh in
            rw
              (
                fresh_fix,
                fresh,
                moving-recent now g.motion_when g.speed_kmh,
                moving-recent now g.motion_when g.course,
                age,
              )
              (rw (shown, fresh_fix, new) refl)
      ]
    where
      age : since now (some g.fix.when) ≡ now - g.fix.when
      age = unfold since in refl

  shown-or_else :
      (now : ℕ) (o : Option (Fix D × Bool)) (motion : D × D × Option ℕ)
      → shown now (some (or_else o (zero_fix fl, false))) motion ≡ shown now o motion
  shown-or_else now none motion = refl
  shown-or_else now (some f) motion = refl

  pub position-reported_by :
      (now : ℕ) (log : Option (List (ℕ × Bytes)))
      → position fl now (reader_of log) ≡ reported_by now log
  position-reported_by now none = unfold position in refl
  position-reported_by now (some log) =
      let (gga, _, _, motion) = handle_all-view fl log in
      position-shown now (handle_all fl log (new_reader fl))
      ∙ ap₂ (λ f m. shown now (some f) m) gga motion
      ∙ shown-or_else now (last_some (gga_of fl) log) _
