-- ===== src/Rtlamrscan/Stats.antt =====
-- cmd/rtlamrscan/stats.go: the counts of the dashboard, and the line handler that feeds them.
pub mod Counts
pub mod Snapshot
pub mod Line
use rtlamr.Base.{
  ℕ, suc, ◌+◌, ◌-◌, List, [], ◌∷◌, ◌++◌, map, Bool, not, ◌==◌, ltb, if◌then◌else◌, Option, none,
  some, length, drop,
}
use rtlamr.Base.Int.{ℤ, pos, ltz}
use rtlamr.Base.Text.{Bytes, bytes_eq}

-- One decoded burst.
pub record RecentRow : Type 0 where
  pub time : Bytes
  pub radio : ℕ
  pub id : Bytes
  pub rssi : Bytes
  pub leak : ℤ
  pub leak_now : ℤ

pub record MeterStat : Type 0 where
  pub id : Bytes
  pub bursts : ℕ
  pub leak : ℤ
  pub leak_now : ℤ
  pub last_rssi : Bytes
  pub last_seen_sec : ℕ
  pub last_seen : ℕ

-- The time of the last burst is `none` while it is the zero time, and the seconds since are `none`
-- for -1, which stands for never.
pub record RadioInfo : Type 0 where
  pub device : ℕ
  pub freq_hz : ℕ
  pub bursts : ℕ
  pub last_burst_sec : Option ℕ
  pub last_burst : Option ℕ

-- `statsCollector` without its GPS reader; `meters` is the map, each entry under its own id.
pub record StatsCollector : Type 0 where
  pub start : ℕ
  pub mode : Bytes
  pub radios : List RadioInfo
  pub meters : List MeterStat
  pub total : ℕ
  pub recent : List RecentRow

unfoldable pub new_stats_collector : ℕ → Bytes → StatsCollector
new_stats_collector now mode = record {
  start = now;
  mode = mode;
  radios = [];
  meters = [];
  total = 0;
  recent = [];
}

unfoldable pub add_radio : ℕ → ℕ → StatsCollector → StatsCollector
add_radio device freq_hz s = record s {
  radios =
      s.radios
      ++ record {
        device = device;
        freq_hz = freq_hz;
        bursts = 0;
        last_burst_sec = some 0;
        last_burst = none;
      }
        ∷ [];
}

-- One radio on a row.
unfoldable pub count_radio : ℕ → RecentRow → RadioInfo → RadioInfo
count_radio now row r =
    if r.device == row.radio then record r { bursts = suc r.bursts; last_burst = some now } else r

-- One meter on a row of its own.
unfoldable pub count_meter : ℕ → RecentRow → MeterStat → MeterStat
count_meter now row m = record m {
  bursts = suc m.bursts;
  last_seen = now;
  last_rssi = row.rssi;
  leak = if ltz m.leak row.leak then row.leak else m.leak;
  leak_now = if ltz m.leak_now row.leak_now then row.leak_now else m.leak_now;
}

-- `&meterStat{ID: row.ID}`.
unfoldable pub new_meter : Bytes → MeterStat
new_meter id = record {
  id = id;
  bursts = 0;
  leak = pos 0;
  leak_now = pos 0;
  last_rssi = [];
  last_seen_sec = 0;
  last_seen = 0;
}

-- The entry of the row's id, a new one if there is none.
unfoldable pub count_in : ℕ → RecentRow → List MeterStat → List MeterStat
count_in now row [] = count_meter now row (new_meter row.id) ∷ []
count_in now row (m ∷ meters) =
    let rest = count_in now row meters in
    if bytes_eq m.id row.id then count_meter now row m ∷ meters else m ∷ rest

abbrev pub recent_keep : ℕ
recent_keep = 15

-- `record`.
unfoldable pub record_row : ℕ → RecentRow → StatsCollector → StatsCollector
record_row now row s =
    let recent = s.recent ++ row ∷ [] in
    record s {
      total = suc s.total;
      radios = map (count_radio now row) s.radios;
      meters = if not (bytes_eq row.id []) then count_in now row s.meters else s.meters;
      recent =
          if ltb recent_keep (length recent)
          then drop (length recent - recent_keep) recent
          else recent;
    }
