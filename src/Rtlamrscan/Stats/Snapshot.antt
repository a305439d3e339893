-- ===== src/Rtlamrscan/Stats/Snapshot.antt =====
-- The dashboard's state: snapshot.
pub mod Order
use rtlamr.Base.{
  ℕ, ◌-◌, List, [], ◌∷◌, ◌++◌, map, Bool, not, ◌&&◌, ltb, if◌then◌else◌, Option, none, some, keep,
  length, take,
}
use rtlamr.Base.Int.{ltz, eqz, is_zero}
use rtlamr.Base.Sort.{sort, bytes_lt}
use rtlamr.Base.Text.{Bytes}
use rtlamr.Rtlamrscan.Stats.{RecentRow, MeterStat, RadioInfo, StatsCollector}

-- The test that `snapshot` sorts by.
unfoldable pub before : MeterStat → MeterStat → Bool
before a b =
    if not (eqz a.leak_now b.leak_now)
    then ltz b.leak_now a.leak_now
    else if not (eqz a.leak b.leak)
    then ltz b.leak a.leak
    else bytes_lt a.id b.id

-- The newest first.
unfoldable pub reversed : List RecentRow → List RecentRow
reversed [] = []
reversed (row ∷ rows) = reversed rows ++ row ∷ []

-- `statsSnapshot` without the part of the GPS reader.
pub record StatsSnapshot : Type 0 where
  pub mode : Bytes
  pub uptime_sec : ℕ
  pub total_bursts : ℕ
  pub unique_meters : ℕ
  pub leaking_meters : ℕ
  pub radios : List RadioInfo
  pub leaking : List MeterStat
  pub recent : List RecentRow

-- `seconds` stands for `int64(d.Seconds())` of a number of nanoseconds.
module _ (seconds : ℕ → ℕ) where
  unfoldable pub snap_radio : ℕ → RadioInfo → RadioInfo
  snap_radio now r = elim r.last_burst [
    | none ↦ record r { last_burst_sec = none }
    | some t ↦ record r { last_burst_sec = some (seconds (now - t)) }
  ]

  unfoldable pub is_leaking : MeterStat → Bool
  is_leaking m = not (is_zero m.leak && is_zero m.leak_now)

  -- The leaking meters in the order in which the map is walked.
  unfoldable pub collect : ℕ → List MeterStat → List MeterStat
  collect now meters =
      map (λ (m : MeterStat). record m { last_seen_sec = seconds (now - m.last_seen) })
        (keep is_leaking meters)

  -- `snapshot`, the meters walked in the order of `meters`: Go walks a map in any order.
  unfoldable pub snapshot : ℕ → List MeterStat → StatsCollector → StatsSnapshot
  snapshot now meters s =
      let leaking = collect now meters in
      record {
        mode = s.mode;
        uptime_sec = seconds (now - s.start);
        total_bursts = s.total;
        unique_meters = length s.meters;
        leaking_meters = length leaking;
        radios = map (snap_radio now) s.radios;
        leaking = take 100 (sort before leaking);
        recent = reversed s.recent;
      }
