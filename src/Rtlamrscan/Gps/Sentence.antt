-- ===== src/Rtlamrscan/Gps/Sentence.antt =====
-- The sentences that carry a position and a speed: parseGGA, parseRMC and parseNMEACoord.
use rtlamr.Base.{
  ℕ, List, [], Bool, true, false, not, ◌||◌, ltb, ◌==◌, if◌then◌else◌, Option, none, some, length,
  get_or, take, drop,
}
use rtlamr.Base.Int.{ℤ, pos, atoi, is_zero}
use rtlamr.Base.Text.{Bytes, codes, bytes_eq, split}
use rtlamr.Base.Text.Parse.{ParseError, syntax}
use rtlamr.Rtlamrscan.Doubles.{Doubles}
use rtlamr.Rtlamrscan.Gps.Nmea.{nmea_checksum_ok, failed}

pub record Fix (D : Type 0) : Type 0 where
  pub lat : D
  pub lon : D
  pub quality : ℤ
  pub num_sats : ℤ
  pub hdop : D
  pub alt_m : D
  -- Nanoseconds.
  pub when : ℕ

-- The test that both parsers begin with: enough fields, and a type behind two letters of talker.
unfoldable pub is_type : Bytes → List Bytes → Bool
is_type name fields = not (
    ltb (length fields) 9
    || (not (length (get_or fields 0 []) == 5)
        || not (bytes_eq (drop 2 (get_or fields 0 [])) name)))

module _ (fl : Doubles) where
  open fl use {D, zero_d, add, neg, mul, div, of_nat, knot, parse}

  unfoldable pub zero_fix : Fix D
  zero_fix = record {
    lat = zero_d;
    lon = zero_d;
    quality = pos 0;
    num_sats = pos 0;
    hdop = zero_d;
    alt_m = zero_d;
    when = 0;
  }

  -- The value and the error.
  unfoldable pub parse_nmea_coord : Bytes → Bytes → ℕ → D × Option ParseError
  parse_nmea_coord value hemisphere deg_digits =
      let (deg, deg_err) = parse (take deg_digits value) in
      let (min, min_err) = parse (drop deg_digits value) in
      let coord = add deg (div min (of_nat 60)) in
      if ltb (length value) deg_digits
      then (zero_d, some syntax)
      else if failed deg_err
      then (zero_d, deg_err)
      else if failed min_err
      then (zero_d, min_err)
      else if bytes_eq hemisphere (codes "S") || bytes_eq hemisphere (codes "W")
      then (neg coord, none)
      else if bytes_eq hemisphere (codes "N") || bytes_eq hemisphere (codes "E")
      then (coord, none)
      else (zero_d, some syntax)

  -- The part of `parseGGA` behind the test of the type: the fix, and whether it is usable.
  unfoldable pub read_gga : List Bytes → Fix D × Bool
  read_gga fields =
      let (quality, err) = atoi (get_or fields 6 []) in
      let (lat, lat_err) = parse_nmea_coord (get_or fields 2 []) (get_or fields 3 []) 2 in
      let (lon, lon_err) = parse_nmea_coord (get_or fields 4 []) (get_or fields 5 []) 3 in
      if failed err || is_zero quality
      then (zero_fix, false)
      else if failed lat_err || failed lon_err
      then (zero_fix, false)
      else (
        record {
          lat = lat;
          lon = lon;
          quality = quality;
          num_sats = (atoi (get_or fields 7 [])).0;
          hdop = (parse (get_or fields 8 [])).0;
          alt_m = if ltb 9 (length fields) then (parse (get_or fields 9 [])).0 else zero_d;
          when = 0;
        },
        true,
      )

  -- `parseGGA`: the fix, `valid` and `ok`.
  unfoldable pub parse_gga : Bytes → Fix D × Bool × Bool
  parse_gga s = elim (nmea_checksum_ok s) [
    | none ↦ (zero_fix, false, false)
    | some payload ↦
        let fields = split payload b',' in
        let (fix, valid) = read_gga fields in
        if is_type (codes "GGA") fields then (fix, valid, true) else (zero_fix, false, false)
  ]

  -- `parseRMC`: the speed, the course, `valid` and `ok`.
  unfoldable pub parse_rmc : Bytes → D × D × Bool × Bool
  parse_rmc s = elim (nmea_checksum_ok s) [
    | none ↦ (zero_d, zero_d, false, false)
    | some payload ↦
        let fields = split payload b',' in
        if not (is_type (codes "RMC") fields)
        then (zero_d, zero_d, false, false)
        else if not (bytes_eq (get_or fields 2 []) (codes "A"))
        then (zero_d, zero_d, false, true)
        else (mul (parse (get_or fields 7 [])).0 knot, (parse (get_or fields 8 [])).0, true, true)
  ]
