-- ===== src/Rtlamrscan/Gps/Tests.antt =====
-- Sentences of gps_test.go, with whole numbers in the place of floats: a decimal point is left out.
use rtlamr.Base.{
  ℕ, ◌+◌, ◌*◌, ◌/◌, List, [], ◌∷◌, ◌++◌, true, false, not, ◌==◌, none, some, keep, ◌≡◌, refl, arith,
}
use rtlamr.Base.Int.{pos, negsuc, atoi, itoa, is_zero}
use rtlamr.Base.Text.{Bytes, codes, bytes_eq, split, format_uint}
use rtlamr.Base.Text.Trim.{last_index_byte, trim_space, trim_left, trim_right, is_space}
use rtlamr.Base.Text.Digits.{format_uint-Lacks}
use rtlamr.Base.Text.Parse.{parse_uint, syntax, range}
use rtlamr.Rtlamrscan.Doubles.{Doubles}
use rtlamr.Rtlamrscan.Gps.Nmea.{xor_sum, nmea_checksum_ok, any_valid, contains_valid_nmea, sentence}
use rtlamr.Rtlamrscan.Gps.Nmea.Laws.{
  nmea_checksum_ok-seal, nmea_checksum_ok-change, contains_valid_nmea-line,
}
use rtlamr.Rtlamrscan.Gps.Sentence.{
  Fix, zero_fix, is_type, parse_nmea_coord, read_gga, parse_gga, parse_rmc,
}
use rtlamr.Rtlamrscan.Gps.Reader.{new_reader, current, handle_all, status_snapshot}
use rtlamr.Rtlamrscan.Gps.Reader.Laws.{
  current-latest, handle_all-view, last_some, first_some, or_else, gga_of, talker_of, motion_of,
  any_fix, fresh_fix, Shows,
}

abbrev pub whole : Doubles
whole = record {
  D = ℕ;
  zero_d = 0;
  add = ◌+◌;
  neg = λ x. x + 1000000;
  mul = ◌*◌;
  div = ◌/◌;
  of_nat = λ n. n;
  knot = 2;
  parse = λ s. parse_uint (keep (λ c. not (c == b'.')) s) 10 64;
  format = λ d prec. format_uint d 10;
  format-Lacks = λ d prec. format_uint-Lacks d;
  seconds = λ n. n / 1000000000;
}

abbrev pub gga : Bytes
gga = codes "$GPGGA,123519,4807.038,N,01131.000,E,1,08,0.9,545.4,M,46.9,M,,*47"

abbrev no_fix : Bytes
no_fix = codes "$GPGGA,123519,,,,,0,00,,,M,,M,,*6B"

abbrev pub rmc : Bytes
rmc = codes "$GNRMC,123519,A,4807.038,N,01131.000,E,10.5,084.4,230394,,,A*52"

abbrev fix : ℕ → Fix ℕ
fix now = record {
  lat = 48 + 7038 / 60;
  lon = 11 + 31000 / 60;
  quality = pos 1;
  num_sats = pos 8;
  hdop = 9;
  alt_m = 5454;
  when = now;
}

read :
    (parse_gga whole gga ≡ (fix 0, true, true))
    × ((parse_gga whole no_fix).1 ≡ false)
    × ((parse_gga whole no_fix).2 ≡ true)
    × (parse_rmc whole rmc ≡ (210, 844, true, true))
    × ((parse_gga whole rmc).2 ≡ false)
unfolding parse_gga parse_rmc read_gga is_type parse_nmea_coord zero_fix nmea_checksum_ok xor_sum
    last_index_byte split bytes_eq parse_uint atoi is_zero
read = (refl, refl, refl, refl, refl)

numbers :
    (atoi (codes "-12") ≡ (negsuc 11, none))
    × (atoi (codes "+7") ≡ (pos 7, none))
    × (atoi (codes "-") ≡ (pos 0, some syntax))
    × (atoi (codes "9223372036854775808") ≡ (pos 9223372036854775807, some range))
    × (itoa (negsuc 11) ≡ codes "-12")
unfolding atoi parse_uint itoa format_uint
numbers = (refl, refl, refl, refl, refl)

noise : contains_valid_nmea (codes "ju nk\r\n$GPGGA,bad*FF\r\n") ≡ false
unfolding contains_valid_nmea any_valid nmea_checksum_ok xor_sum last_index_byte split parse_uint
    trim_space trim_left trim_right is_space
noise = refl

abbrev log : List (ℕ × Bytes)
log = (1000, rmc) ∷ (2000, gga) ∷ (3000, codes "noise") ∷ []

nmea_checksum_ok-seal_example :
    nmea_checksum_ok (sentence (codes "G*") (xor_sum 0 (codes "G*"))) ≡ some (codes "G*")
nmea_checksum_ok-seal_example = nmea_checksum_ok-seal (codes "G*") (omega arith, (omega arith, tt))

nmea_checksum_ok-change_example :
    nmea_checksum_ok (sentence (codes "G*P") (xor_sum 0 (codes "GPP"))) ≡ none
nmea_checksum_ok-change_example =
    nmea_checksum_ok-change (codes "G") (codes "P") b'P' b'*'
      (omega arith, (omega arith, (omega arith, tt))) (λ e. omega (arith, e))

contains_valid_nmea-line_example :
    contains_valid_nmea (
      codes "ju nk"
      ++ b'\n'
        ∷ (sentence (codes "GP") (xor_sum 0 (codes "GP")) ++ b'\r' ∷ [] ++ b'\n' ∷ codes "$G"))
    ≡ true
contains_valid_nmea-line_example =
    contains_valid_nmea-line (codes "GP") (omega arith, (omega arith, tt)) (refl, (refl, tt))
      (codes "ju nk") (codes "$G")

handle_all-view_example :
    let g = handle_all whole log (new_reader whole) in
    ((g.fix, g.valid) ≡ or_else (last_some (gga_of whole) log) (zero_fix whole, false))
    × (g.had_fix ≡ any_fix whole log)
    × (g.talker ≡ or_else (first_some (talker_of whole) log) [])
    × ((g.speed_kmh, g.course, g.motion_when)
        ≡ or_else (last_some (motion_of whole) log) (0, 0, none))
handle_all-view_example = handle_all-view whole log

current-latest_example :
    let g = handle_all whole log (new_reader whole) in
    let latest = fresh_fix whole 5000 4000 (last_some (gga_of whole) log) in
    (current whole 5000 4000 g ≡ latest) × Shows whole (status_snapshot whole 5000 4000 g) latest
current-latest_example = current-latest whole log 5000 4000
