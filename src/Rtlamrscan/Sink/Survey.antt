-- ===== src/Rtlamrscan/Sink/Survey.antt =====
-- surveyMapper: the decoder's rows in the shape of a survey, each with the position of its time.
pub mod Reported
pub mod Laws
use rtlamr.Base.{ℕ, List, [], ◌∷◌, Bool, true, false, not, ◌||◌, if◌then◌else◌, Option, none, some}
use rtlamr.Base.Int.{pos, itoa}
use rtlamr.Base.Text.{Bytes, codes, split, join, format_uint}
use rtlamr.Rtlamrscan.Columns.{ColIdx, index_names, index_of, is_header, get}
use rtlamr.Rtlamrscan.Doubles.{Doubles}
use rtlamr.Rtlamrscan.Gps.Reader.{GpsReader, GpsStatus, status_snapshot}
use rtlamr.Rtlamrscan.Sink.Lines.{CsvSink, write_line}

-- `surveyColumns`.
abbrev pub survey_columns : List Bytes
survey_columns =
    codes "Time"
    ∷ codes "Radio"
    ∷ codes "Lat"
    ∷ codes "Lon"
    ∷ codes "FixQuality"
    ∷ codes "NumSats"
    ∷ codes "HDOP"
    ∷ codes "RSSI"
    ∷ codes "SNR"
    ∷ codes "ID"
    ∷ codes "BackFlow"
    ∷ codes "Consumption"
    ∷ codes "Leak"
    ∷ codes "LeakNow"
    ∷ codes "FreqHz"
    ∷ codes "Unkn1"
    ∷ codes "NoUse"
    ∷ codes "Unkn3"
    ∷ codes "AltitudeM"
    ∷ codes "SpeedKmh"
    ∷ codes "Course"
    ∷ codes "GPSAgeSec"
    ∷ []

-- The columns that are missed aloud.
abbrev pub expected_names : List Bytes
expected_names =
    codes "ID"
    ∷ codes "BackFlow"
    ∷ codes "Consumption"
    ∷ codes "Leak"
    ∷ codes "LeakNow"
    ∷ codes "RSSI"
    ∷ codes "SNR"
    ∷ []

-- The loop over those names.
unfoldable pub check_names : ColIdx → List Bytes → Bool → Bool
check_names m [] warned = warned
check_names m (name ∷ names) warned = elim (index_of m name) [
  | none ↦ check_names m names true
  | some idx ↦ check_names m names warned
]

-- `gpsMaxAge`, in nanoseconds.
abbrev pub gps_max_age : ℕ
gps_max_age = 10000000000

-- The texts of a position; they are empty without a usable fix.
pub record Position : Type 0 where
  pub lat : Bytes
  pub lon : Bytes
  pub quality : Bytes
  pub sats : Bytes
  pub hdop : Bytes
  pub alt : Bytes
  pub speed : Bytes
  pub course : Bytes
  pub age : Bytes

abbrev pub blank_position : Position
blank_position = record {
  lat = [];
  lon = [];
  quality = [];
  sats = [];
  hdop = [];
  alt = [];
  speed = [];
  course = [];
  age = [];
}

-- A `surveyMapper` with what its `gps` and its `sink` point to.
pub record SurveyMapper (D : Type 0) : Type 0 where
  pub radio : ℕ
  pub freq_hz : ℕ
  pub gps : Option (GpsReader D)
  pub sink : CsvSink
  pub col_idx : Option ColIdx
  pub warned : Bool

module _ (fl : Doubles) where
  open fl use {D, format}

  unfoldable pub print_position : GpsStatus D → Position
  print_position st =
      if st.has_fix
      then record {
        lat = format st.lat 6;
        lon = format st.lon 6;
        quality = itoa st.quality;
        sats = itoa st.num_sats;
        hdop = format st.hdop 1;
        alt = format st.alt_m 1;
        speed = format st.speed_kmh 1;
        course = format st.course 0;
        age = format st.age_sec 1;
      }
      else blank_position

  unfoldable pub position : ℕ → Option (GpsReader D) → Position
  position now none = blank_position
  position now (some g) = print_position (status_snapshot fl now gps_max_age g)

  unfoldable pub survey_row : ℕ → ℕ → Position → (Bytes → Bytes) → List Bytes
  survey_row radio freq_hz p column =
      column (codes "Time")
      ∷ itoa (pos radio)
      ∷ p.lat
      ∷ p.lon
      ∷ p.quality
      ∷ p.sats
      ∷ p.hdop
      ∷ column (codes "RSSI")
      ∷ column (codes "SNR")
      ∷ column (codes "ID")
      ∷ column (codes "BackFlow")
      ∷ column (codes "Consumption")
      ∷ column (codes "Leak")
      ∷ column (codes "LeakNow")
      ∷ format_uint freq_hz 10
      ∷ column (codes "Unkn1")
      ∷ column (codes "NoUse")
      ∷ column (codes "Unkn3")
      ∷ p.alt
      ∷ p.speed
      ∷ p.course
      ∷ p.age
      ∷ []

  -- `handleLine` at the time `now`.
  unfoldable pub handle_line : ℕ → Bytes → SurveyMapper D → SurveyMapper D
  handle_line now line m =
      let fields = split line b',' in
      let names = index_names fields in
      let row : ColIdx → List Bytes =
        λ idx. survey_row m.radio m.freq_hz (position now m.gps) (get idx fields) in
      let mapped : SurveyMapper D = elim m.col_idx [
        | none ↦ m
        | some idx ↦ record m { sink = write_line (join (row idx) b',') m.sink }
      ] in
      if is_header fields
      then record m { col_idx = some names; warned = check_names names expected_names m.warned }
      else mapped
