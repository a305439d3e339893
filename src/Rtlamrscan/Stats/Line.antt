-- ===== src/Rtlamrscan/Stats/Line.antt =====
-- statsLine: the fields of the decoder's CSV rows, found by the names in its header row.
pub mod Laws
use rtlamr.Base.{ℕ, List, [], Option, none, some, if◌then◌else◌}
use rtlamr.Base.Int.{ℤ, atoi}
use rtlamr.Base.Text.{Bytes, codes, bytes_eq, split}
use rtlamr.Rtlamrscan.Columns.{ColIdx, index_names, is_header, get}
use rtlamr.Rtlamrscan.Stats.{RecentRow, StatsCollector, record_row}

-- `id`: the column `ID`, or that of IDM and NetIDM, or that of SCM+.
unfoldable pub row_id : ColIdx → List Bytes → Bytes
row_id m fields =
    let id = get m fields (codes "ID") in
    let serial = get m fields (codes "ERTSerialNumber") in
    if bytes_eq id []
    then (if bytes_eq serial [] then get m fields (codes "EndpointID") else serial)
    else id

-- The row for `record`.
unfoldable pub recent_row : ℕ → ColIdx → List Bytes → RecentRow
recent_row radio m fields = record {
  time = get m fields (codes "Time");
  radio = radio;
  id = row_id m fields;
  rssi = get m fields (codes "RSSI");
  leak = (atoi (get m fields (codes "Leak"))).0;
  leak_now = (atoi (get m fields (codes "LeakNow"))).0;
}

-- A `statsLine` with what its `stats` points to, and the state `N` that `next` works on; the map of
-- columns is `none` while it is nil.
pub record Tee (N : Type 0) : Type 0 where
  pub stats : StatsCollector
  pub radio : ℕ
  pub col_idx : Option ColIdx
  pub rest : N

-- `handleLine` at the time `now`.
unfoldable pub handle_line : {N : Type 0} (next : Bytes → N → N) → ℕ → Bytes → Tee N → Tee N
handle_line next now line t =
    let fields = split line b',' in
    let stats : StatsCollector = elim t.col_idx [
      | none ↦ t.stats
      | some m ↦ record_row now (recent_row t.radio m fields) t.stats
    ] in
    if is_header fields
    then record t { col_idx = some (index_names fields); rest = next line t.rest }
    else record t { stats = stats; rest = next line t.rest }
