-- ===== src/Rtlamrscan/Tests.antt =====
-- Runs of the launcher's definitions: a scan from the dongles to the rows of its files.
use mathlib.Core.List.{Permᴰ}
use rtlamr.Base.{
  ℕ, ◌<◌, ◌≤◌, List, [], ◌∷◌, ◌++◌, true, false, not, ltb, ◌&&◌, ◌==◌, Option, none, some, length,
  map, keep, take, All, ◌≡◌, ◌⊎◌, refl, arith,
}
use rtlamr.Base.Int.{pos}
use rtlamr.Base.Text.{Bytes, codes, bytes_eq, split, join, format_uint}
use rtlamr.Base.Text.Digits.{format_uint-Lacks}
use rtlamr.Base.Text.Trim.{Lacks, lacks-Lacks}
use rtlamr.Protocol.{LogMessage}
use rtlamr.R900.{R900, message}
use rtlamr.R900.Tests as Radio
use rtlamr.Rtlamrscan.Columns.{index_names}
use rtlamr.Rtlamrscan.Columns.R900.{r900_names, header_line, row_line}
use rtlamr.Rtlamrscan.Gps.Nmea.Laws.{sealed_line}
use rtlamr.Rtlamrscan.Gps.Detect.{candidates, detect_gps_port}
use rtlamr.Rtlamrscan.Gps.Detect.Laws.{detect_gps_port-sentence}
use rtlamr.Rtlamrscan.Gps.Tests.{whole, gga, rmc}
use rtlamr.Rtlamrscan.Run.Instances.{
  Instance, Flags, System, fatal, tested, launched, mode_of, gps_first, launch,
}
use rtlamr.Rtlamrscan.Run.Instances.Laws.{InOrder, launch-InOrder}
use rtlamr.Rtlamrscan.Run.Dongles.{max_dongles, valid_dongles}
use rtlamr.Rtlamrscan.Run.Plan.{freq_plan}
use rtlamr.Rtlamrscan.Run.Plan.Laws.{Plans, freq_plan-Plans}
use rtlamr.Rtlamrscan.Run.Restart.{
  Attempt, ended, Ending, finished, attempt_from, kept_failing, max_attempts, scan_lines,
  run_decoder,
}
use rtlamr.Rtlamrscan.Run.Restart.Laws.{printed, run_decoder-ends, run_decoder-write_line}
use rtlamr.Rtlamrscan.Sink.Lines.{CsvSink, new_csv_sink, write_line}
use rtlamr.Rtlamrscan.Sink.Prefix.{Writer, write_all, feed, write_all-feed}
use rtlamr.Rtlamrscan.Sink.Survey.{SurveyMapper}
use rtlamr.Rtlamrscan.Sink.Survey.Reported.{reader_of, reported_by}
use rtlamr.Rtlamrscan.Sink.Survey as Survey
use rtlamr.Rtlamrscan.Sink.Survey.Laws.{r900_row, survey_handle_line-r900}
use rtlamr.Rtlamrscan.Stats.{
  RecentRow, MeterStat, new_stats_collector, count_in, count_meter, new_meter, recent_keep,
  record_row,
}
use rtlamr.Rtlamrscan.Stats.Counts.{
  after, meter_of, meter_stat, rows_of, radio_stat, with_radios, after-counts,
}
use rtlamr.Rtlamrscan.Stats.Line.{Tee}
use rtlamr.Rtlamrscan.Stats.Line as Line
use rtlamr.Rtlamrscan.Stats.Line.Laws.{r900_burst, handle_line-r900}
use rtlamr.Rtlamrscan.Stats.Snapshot.{reversed, snapshot}
use rtlamr.Rtlamrscan.Stats.Snapshot.Order.{snapshot-perm}

-- A port that gives noise and a sentence, in three reads, at 9600 baud and nothing elsewhere.
abbrev port : ℕ → Option (List (Option Bytes))
port baud = elim (baud == 9600) [
  | false ↦ some (some (codes "??") ∷ none ∷ [])
  | true ↦ some (
      map some (codes "ju" ∷ (codes "nk\n" ++ sealed_line (codes "GP")) ∷ codes "\n$GP" ∷ []) ++ [])
]

detect_gps_port-sentence_example : (b : ℕ) × (detect_gps_port port 0 ≡ some b)
unfolding candidates
detect_gps_port-sentence_example =
    detect_gps_port-sentence port 0 9600 (460800 ∷ []) (115200 ∷ 38400 ∷ 57600 ∷ 4800 ∷ [])
      (codes "GP") (codes "junk") (codes "$GP") (codes "ju")
      ((codes "nk\n" ++ sealed_line (codes "GP")) ∷ codes "\n$GP" ∷ []) []
      (omega arith, (omega arith, tt)) (refl, (refl, tt)) refl refl refl (omega arith)

freq_plan-Plans_example :
    Plans 2 (split (codes "912380000, 91x") b',') (freq_plan (codes "912380000, 91x") 2)
freq_plan-Plans_example = freq_plan-Plans (codes "912380000, 91x") 2 (unfold bytes_eq in refl)

abbrev row : ℕ → ℕ → RecentRow
row radio id = record {
  time = codes "12:00";
  radio = radio;
  id = format_uint id 10;
  rssi = codes "-3.0";
  leak = pos 2;
  leak_now = pos id;
}

abbrev rows : List (ℕ × RecentRow)
rows = (5000, row 1 7) ∷ (4000, row 0 9) ∷ (3000, row 1 7) ∷ []

after-counts_example :
    let s = with_radios ((0, 912380000) ∷ (1, 0) ∷ []) (new_stats_collector 1000 (codes "water")) in
    ((after rows s).total ≡ 3)
    × ((after rows s).radios ≡ map (radio_stat rows) s.radios)
    × (meter_of (codes "7") (after rows s).meters
        ≡ meter_stat (codes "7") (rows_of (codes "7") rows))
    × (reversed (after rows s).recent ≡ take recent_keep (map (λ e. e.1) rows))
after-counts_example =
    after-counts 1000 (codes "water") ((0, 912380000) ∷ (1, 0) ∷ []) rows (codes "7")
      (unfold bytes_eq in refl)

-- A decoder that dies twice and prints its header each time.
abbrev process : ℕ → Attempt
process attempt = elim (attempt == 3) [
  | true ↦ ended (codes "Time,ID" ∷ codes "3,9" ∷ []) false false
  | false ↦ ended (codes "Time,ID" ∷ codes "1,7" ∷ []) false true
]

run_decoder-ends_example :
    (count : ℕ) × (ending : Ending) × (0 < count)
    × (count ≤ max_attempts)
    × (run_decoder write_line process (new_csv_sink [])
        ≡ some (ending, scan_lines write_line (printed process count 1) (new_csv_sink [])))
    × (ending ≡ kept_failing → count ≡ max_attempts)
run_decoder-ends_example = run_decoder-ends write_line process (new_csv_sink [])

run_decoder-write_line_example :
    (count : ℕ) × (ending : Ending) × (s : CsvSink) × (count < max_attempts)
    × (run_decoder write_line process (new_csv_sink []) ≡ some (ending, s))
    × (s.file
        ≡ []
          ++ codes "Time,ID"
            ∷ keep
                (λ line. not (bytes_eq line (codes "Time,ID")))
                (codes "1,7" ∷ [] ++ printed process count 2))
run_decoder-write_line_example =
    run_decoder-write_line process [] (codes "1,7" ∷ []) (codes "Time,ID") false true refl

three_attempts :
    run_decoder write_line process (new_csv_sink [])
    ≡ some (
      finished,
      record {
        file = codes "Time,ID" ∷ codes "1,7" ∷ codes "1,7" ∷ codes "3,9" ∷ [];
        header_line = codes "Time,ID";
        got_header = true;
      },
    )
unfolding run_decoder attempt_from scan_lines write_line new_csv_sink bytes_eq
three_attempts = refl

abbrev writer : Writer
writer = record { prefix = codes "[tcp0]"; buf = codes "Fou"; console = [] }

write_all-feed_example :
    (write_all (codes "nd\r\n1 dev" ∷ codes "ice\n\nUs" ∷ []) writer
      ≡ feed (codes "nd\r\n1 device\n\nUs") writer)
    × Lacks b'\n' (write_all (codes "nd\r\n1 dev" ∷ codes "ice\n\nUs" ∷ []) writer).buf
write_all-feed_example =
    write_all-feed (codes "nd\r\n1 dev" ∷ codes "ice\n\nUs" ∷ []) writer (refl, (refl, (refl, tt)))

-- Two dongles whose ports are free, and a GPS.
abbrev two_dongles : System
two_dongles = record {
  find_binary = λ name. true;
  start_gps = λ port. true;
  start_rtl_tcp = λ device port. ltb device 2 && ltb port 12342;
  create = λ path. true;
}

abbrev survey_flags : Flags
survey_flags = record {
  mode = codes "survey";
  dongles = 0;
  freqs = codes "911200000,913560000";
  gain_flag = false;
  gps_port = codes "COM13";
  gps_test = false;
}

launch-InOrder_example :
    let result = launch 12340 (codes "40.0") (λ name. name) (codes "x") two_dongles survey_flags in
    (result ≡ fatal)
    ⊎ ((result ≡ tested) × (survey_flags.gps_test ≡ true) × (true ≡ true))
    ⊎ ((survey_flags.gps_test ≡ false)
        × ((l : List Instance) × (result ≡ launched l)
            × (0 < length l)
            × (length l ≤ max_dongles)
            × InOrder 12340 0 l
            × All (λ (i : Instance). ltb i.device 2 && ltb i.port 12342 ≡ true) l))
launch-InOrder_example =
    launch-InOrder 12340 (codes "40.0") (λ name. name) (codes "x") two_dongles survey_flags

gps_test_ends :
    launch 12340
      (codes "40.0")
      (λ name. name)
      (codes "x")
      two_dongles
      (record survey_flags { gps_test = true })
    ≡ tested
unfolding launch mode_of bytes_eq valid_dongles gps_first
gps_test_ends = refl

-- The map walked with its first two entries the other way round.
abbrev flipped : List MeterStat → List MeterStat
flipped (a ∷ b ∷ l) = b ∷ a ∷ l
flipped l = l

snapshot-perm_example :
    let s = after rows (with_radios [] (new_stats_collector 1000 (codes "water"))) in
    snapshot (λ n. n) 6000 s.meters s ≡ snapshot (λ n. n) 6000 (flipped s.meters) s
snapshot-perm_example =
    snapshot-perm (λ n. n) 1000 6000 (codes "water") [] rows
      (flipped (after rows (with_radios [] (new_stats_collector 1000 (codes "water")))).meters)
      (unfold new_stats_collector record_row count_in count_meter new_meter bytes_eq format_uint in
        Permᴰ.swap refl refl)

abbrev heard : R900 ℕ
heard = record {
  id = 1234567;
  unkn1 = 163;
  no_use = 0;
  back_flow = 0;
  consumption = 4711;
  unkn3 = 0;
  leak = 3;
  leak_now = 1;
  rssi = 12;
  snr = 9;
  checksum = [];
}

abbrev logged : LogMessage
logged = record {
  time = codes "2024-05-01T10:00:00Z";
  offset = 0;
  length = 0;
  type = codes "R900";
  message = message Radio.whole heard;
}

abbrev tee : Tee (List Bytes)
tee = record {
  stats = new_stats_collector 1000 (codes "survey");
  radio = 0;
  col_idx = none;
  rest = [];
}

handle_line-r900_example :
    Line.handle_line
      (λ line lines. lines ++ line ∷ [])
      3000
      (row_line Radio.whole logged)
      (Line.handle_line (λ line lines. lines ++ line ∷ []) 2000 (header_line Radio.whole) tee)
    ≡ record {
      stats =
          record_row 3000
            (r900_burst Radio.whole logged heard 0)
            (new_stats_collector 1000 (codes "survey"));
      radio = 0;
      col_idx = some (index_names (r900_names Radio.whole));
      rest = header_line Radio.whole ∷ row_line Radio.whole logged ∷ [];
    }
handle_line-r900_example =
    handle_line-r900 Radio.whole logged heard refl (lacks-Lacks b',' logged.time refl)
      (unfold bytes_eq in refl) format_uint-Lacks (omega arith) (omega arith)
      (λ line lines. lines ++ line ∷ []) 2000 3000 tee

-- A fix, and then a speed and a course.
abbrev sentences : List (ℕ × Bytes)
sentences = (1000, gga) ∷ (1500, rmc) ∷ []

abbrev mapper : SurveyMapper ℕ
mapper = record {
  radio = 1;
  freq_hz = 912380000;
  gps = reader_of whole (some sentences);
  sink = new_csv_sink [];
  col_idx = none;
  warned = false;
}

survey_handle_line-r900_example :
    Survey.handle_line whole 3000
      (row_line Radio.whole logged)
      (Survey.handle_line whole 2000 (header_line Radio.whole) mapper)
    ≡ record {
      radio = 1;
      freq_hz = 912380000;
      gps = reader_of whole (some sentences);
      sink =
          write_line
            (join
              (r900_row whole Radio.whole logged heard 1 912380000
                (reported_by whole 3000 (some sentences)))
              b',')
            (new_csv_sink []);
      col_idx = some (index_names (r900_names Radio.whole));
      warned = false;
    }
survey_handle_line-r900_example =
    survey_handle_line-r900 whole Radio.whole logged heard refl (lacks-Lacks b',' logged.time refl)
      (unfold bytes_eq in refl) format_uint-Lacks 2000 3000 mapper (some sentences) refl
