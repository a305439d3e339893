-- ===== src/Rtlamrscan/Gps/Reader.antt =====
-- The state that gpsReader keeps of the sentences, and the views of it: handleSentence, current
-- and statusSnapshot.
pub mod Laws
use rtlamr.Base.{
  ℕ, ◌-◌, ◌^◌, List, [], ◌∷◌, Bool, true, false, not, ◌&&◌, ltb, leb, if◌then◌else◌, Option, none,
  some, length, slice,
}
use rtlamr.Base.Int.{ℤ, pos}
use rtlamr.Base.Text.{Bytes, bytes_eq}
use rtlamr.Rtlamrscan.Doubles.{Doubles}
use rtlamr.Rtlamrscan.Gps.Sentence.{Fix, zero_fix, parse_gga, parse_rmc}

pub record GpsReader (D : Type 0) : Type 0 where
  pub fix : Fix D
  pub valid : Bool
  pub talker : Bytes
  pub had_fix : Bool
  pub speed_kmh : D
  pub course : D
  -- `none` is the zero time.
  pub motion_when : Option ℕ

-- `time.Since`, in nanoseconds. The clock that it reads is monotonic; since the zero time more has
-- passed than a duration holds, which becomes the longest one.
unfoldable pub since : ℕ → Option ℕ → ℕ
since now none = 2 ^ 63 - 1
since now (some t) = now - t

-- The view for the dashboard.
pub record GpsStatus (D : Type 0) : Type 0 where
  pub has_fix : Bool
  pub ever_had_fix : Bool
  pub lat : D
  pub lon : D
  pub quality : ℤ
  pub num_sats : ℤ
  pub hdop : D
  pub alt_m : D
  pub speed_kmh : D
  pub course : D
  pub age_sec : D
  pub talker : Bytes

module _ (fl : Doubles) where
  open fl use {D, zero_d, seconds}

  -- `&gpsReader{}`.
  unfoldable pub new_reader : GpsReader D
  new_reader = record {
    fix = zero_fix fl;
    valid = false;
    talker = [];
    had_fix = false;
    speed_kmh = zero_d;
    course = zero_d;
    motion_when = none;
  }

  -- `handleSentence` at the time `now`.
  unfoldable pub handle_sentence : ℕ → Bytes → GpsReader D → GpsReader D
  handle_sentence now s g =
      let (fix, valid, ok) = parse_gga fl s in
      let (speed_kmh, course, rmc_valid, rmc_ok) = parse_rmc fl s in
      if not ok
      then (if rmc_ok && rmc_valid
          then record g { speed_kmh = speed_kmh; course = course; motion_when = some now }
          else g)
      else record g {
        fix = record fix { when = now };
        valid = valid;
        talker = if bytes_eq g.talker [] && leb 3 (length s) then slice s 1 3 else g.talker;
        had_fix = if valid && not g.had_fix then true else g.had_fix;
      }

  -- `current`; `none` is its false.
  unfoldable pub current : ℕ → ℕ → GpsReader D → Option (Fix D)
  current now max_age g =
      if not g.valid
      then none
      else if ltb max_age (since now (some g.fix.when))
      then none
      else some g.fix

  unfoldable pub status_snapshot : ℕ → ℕ → GpsReader D → GpsStatus D
  status_snapshot now max_age g =
      let age = since now (some g.fix.when) in
      let blank : GpsStatus D = record {
        has_fix = false;
        ever_had_fix = g.had_fix;
        lat = zero_d;
        lon = zero_d;
        quality = pos 0;
        num_sats = pos 0;
        hdop = zero_d;
        alt_m = zero_d;
        speed_kmh = zero_d;
        course = zero_d;
        age_sec = zero_d;
        talker = g.talker;
      } in
      let moving = leb (since now g.motion_when) max_age in
      if g.valid && leb age max_age
      then record {
        has_fix = true;
        ever_had_fix = g.had_fix;
        lat = g.fix.lat;
        lon = g.fix.lon;
        quality = g.fix.quality;
        num_sats = g.fix.num_sats;
        hdop = g.fix.hdop;
        alt_m = g.fix.alt_m;
        speed_kmh = if moving then g.speed_kmh else zero_d;
        course = if moving then g.course else zero_d;
        age_sec = seconds age;
        talker = g.talker;
      }
      else blank

  -- The scanner's loop: each line with the time at which it is handled.
  unfoldable pub handle_all : List (ℕ × Bytes) → GpsReader D → GpsReader D
  handle_all [] g = g
  handle_all ((now, s) ∷ log) g = handle_all log (handle_sentence now s g)
