-- ===== src/Rtlamrscan/Stats/Counts.antt =====
-- What the collector has counted after any rows. The rows are listed newest first.
use rtlamr.Base.{
  ℕ, suc, ◌+◌, ◌-◌, List, [], ◌∷◌, ◌++◌, map, true, false, ◌==◌, ltb, if◌then◌else◌, Option, none,
  some, keep, length, length-append, take, drop, ◌≡◌, refl, sym, ap, ap₂, ◌∙◌, inl, inr, arith,
  Bool-cases, length-take, take_all, take-take, take-append_self, ◌≤◌,
}
use rtlamr.Base.Int.{ℤ, pos, ltz}
use rtlamr.Base.Text.{Bytes, bytes_eq, bytes_eq_iff}
use rtlamr.Rtlamrscan.Stats.{
  RecentRow, MeterStat, RadioInfo, StatsCollector, new_stats_collector, add_radio, count_radio,
  count_meter, new_meter, count_in, recent_keep, record_row,
}
use rtlamr.Rtlamrscan.Stats.Snapshot.{reversed}

-- The collector after rows, each with the time at which it came.
abbrev pub after : List (ℕ × RecentRow) → StatsCollector → StatsCollector
after [] s = s
after ((now, row) ∷ earlier) s = record_row now row (after earlier s)

-- The entry of an id.
abbrev pub meter_of : Bytes → List MeterStat → Option MeterStat
meter_of id [] = none
meter_of id (m ∷ meters) =
    let rest = meter_of id meters in if bytes_eq m.id id then some m else rest

abbrev pub rows_of : Bytes → List (ℕ × RecentRow) → List (ℕ × RecentRow)
rows_of id = keep (λ e. bytes_eq e.1.id id)

-- The largest value, 0 if none is larger.
abbrev pub worst : (RecentRow → ℤ) → List (ℕ × RecentRow) → ℤ
worst f [] = pos 0
worst f ((now, row) ∷ rows) = let w = worst f rows in if ltz w (f row) then f row else w

-- What there is to say of a meter by its own rows, the newest first.
abbrev pub meter_stat : Bytes → List (ℕ × RecentRow) → Option MeterStat
meter_stat id [] = none
meter_stat id ((now, row) ∷ rows) = some (record {
  id = id;
  bursts = suc (length rows);
  leak = worst (λ row. row.leak) ((now, row) ∷ rows);
  leak_now = worst (λ row. row.leak_now) ((now, row) ∷ rows);
  last_rssi = row.rssi;
  last_seen_sec = 0;
  last_seen = now;
})

abbrev pub tally : List (ℕ × RecentRow) → RadioInfo → RadioInfo
tally [] r = r
tally ((now, row) ∷ rows) r = record r {
  bursts = r.bursts + suc (length rows);
  last_burst = some now;
}

-- What there is to say of a radio by the rows that it decoded.
abbrev pub radio_stat : List (ℕ × RecentRow) → RadioInfo → RadioInfo
radio_stat log r = tally (keep (λ e. r.device == e.1.radio) log) r

total_all :
    (log : List (ℕ × RecentRow)) (s : StatsCollector) → (after log s).total ≡ length log + s.total
unfolding record_row
total_all [] s = omega arith
total_all ((now, row) ∷ log) s = omega (arith, total_all log s)

abbrev known : Bytes → List MeterStat → MeterStat
known id meters = elim (meter_of id meters) [ none ↦ new_meter id | some m ↦ m ]

-- The step of a row's own meter.
meter_step :
    (now : ℕ) (row : RecentRow) (meters : List MeterStat)
    → meter_of row.id (count_in now row meters) ≡ some (count_meter now row (known row.id meters))
unfolding count_in count_meter new_meter
meter_step now row [] = rw ((bytes_eq_iff row.id row.id).1 refl) refl
meter_step now row (m ∷ meters) = elim (Bool-cases (bytes_eq m.id row.id)) [
  | inl e ↦ rw (e, known) (rw e refl)
  | inr e ↦ rw (e, known) (rw e (meter_step now row meters))
]

meter_other :
    (id : Bytes) (now : ℕ) (row : RecentRow) (meters : List MeterStat)
    → bytes_eq row.id id ≡ false
    → meter_of id (count_in now row meters) ≡ meter_of id meters
unfolding count_in count_meter new_meter
meter_other id now row [] h = rw h refl
meter_other id now row (m ∷ meters) h =
    ground (arith, meter_other id now row meters h, bytes_eq_iff m.id row.id)

-- A meter that has been counted, and its next row.
meter_next :
    (id : Bytes) (now : ℕ) (row : RecentRow) (rows : List (ℕ × RecentRow))
    → some (count_meter now row (elim (meter_stat id rows) [ none ↦ new_meter id | some m ↦ m ]))
      ≡ meter_stat id ((now, row) ∷ rows)
unfolding count_meter new_meter
meter_next id now row [] = refl
meter_next id now row ((t, r) ∷ rows) = refl

meter_all :
    (id : Bytes) (log : List (ℕ × RecentRow)) (s : StatsCollector)
    → bytes_eq id [] ≡ false
    → s.meters ≡ []
    → meter_of id (after log s).meters ≡ meter_stat id (rows_of id log)
unfolding record_row
meter_all id [] s ne h = rw h refl
meter_all id ((now, row) ∷ log) s ne h = elim (Bool-cases (bytes_eq row.id id)) [
  | inl e ↦
      let same : row.id ≡ id = (bytes_eq_iff row.id id).0 e in
      let named : bytes_eq row.id [] ≡ false = ap (λ k. bytes_eq k []) same ∙ ne in
      rw (e, named)
        (ap (λ k. meter_of k (count_in now row (after log s).meters)) (sym same)
          ∙ meter_step now row (after log s).meters
          ∙ ap (λ k. some (count_meter now row (known k (after log s).meters))) same
          ∙ ap (λ o. some (count_meter now row (elim o [ none ↦ new_meter id | some m ↦ m ])))
              (meter_all id log s ne h)
          ∙ meter_next id now row (rows_of id log))
  | inr e ↦ rw e (elim (Bool-cases (bytes_eq row.id [])) [
    | inl blank ↦ rw blank (meter_all id log s ne h)
    | inr named ↦ rw named (meter_other id now row (after log s).meters e ∙ meter_all id log s ne h)
  ])
]

tally_next :
    (now : ℕ) (row : RecentRow) (rows : List (ℕ × RecentRow)) (r : RadioInfo)
    → (r.device == row.radio) ≡ true
    → count_radio now row (tally rows r) ≡ tally ((now, row) ∷ rows) r
unfolding count_radio
tally_next now row [] r h =
    rw h (ap (λ n. record r { bursts = n; last_burst = some now }) (omega arith))
tally_next now row ((t, x) ∷ rows) r h =
    rw h (ap (λ n. record r { bursts = n; last_burst = some now }) (omega arith))

tally_other :
    (now : ℕ) (row : RecentRow) (rows : List (ℕ × RecentRow)) (r : RadioInfo)
    → (r.device == row.radio) ≡ false
    → count_radio now row (tally rows r) ≡ tally rows r
unfolding count_radio
tally_other now row [] r h = rw h refl
tally_other now row ((t, x) ∷ rows) r h = rw h refl

radio_next :
    (now : ℕ) (row : RecentRow) (log : List (ℕ × RecentRow)) (r : RadioInfo)
    → count_radio now row (radio_stat log r) ≡ radio_stat ((now, row) ∷ log) r
radio_next now row log r = elim (Bool-cases (r.device == row.radio)) [
  | inl e ↦ rw (radio_stat, e) (tally_next now row _ r e)
  | inr e ↦ rw (radio_stat, e) (tally_other now row _ r e)
]

radios_next :
    (now : ℕ) (row : RecentRow) (log : List (ℕ × RecentRow)) (rs : List RadioInfo)
    → map (count_radio now row) (map (radio_stat log) rs) ≡ map (radio_stat ((now, row) ∷ log)) rs
radios_next now row log [] = refl
radios_next now row log (r ∷ rs) = ap₂ ◌∷◌ (radio_next now row log r) (radios_next now row log rs)

radios_none : (rs : List RadioInfo) → rs ≡ map (radio_stat []) rs
radios_none [] = refl
radios_none (r ∷ rs) = ap (◌∷◌ r) (radios_none rs)

radios_all :
    (log : List (ℕ × RecentRow)) (s : StatsCollector)
    → (after log s).radios ≡ map (radio_stat log) s.radios
unfolding record_row
radios_all [] s = radios_none s.radios
radios_all ((now, row) ∷ log) s =
    ap (map (count_radio now row)) (radios_all log s) ∙ radios_next now row log s.radios

reversed-append :
    (rows : List RecentRow) (row : RecentRow) → reversed (rows ++ row ∷ []) ≡ row ∷ reversed rows
unfolding reversed
reversed-append [] row = refl
reversed-append (x ∷ rows) row = ap (λ l. l ++ x ∷ []) (reversed-append rows row)

length-reversed : (rows : List RecentRow) → length (reversed rows) ≡ length rows
unfolding reversed
length-reversed [] = refl
length-reversed (x ∷ rows) =
    omega (arith, length-append (reversed rows) (x ∷ []), length-reversed rows)

-- Dropping the oldest row leaves the newest ones.
reversed_cut :
    (rows : List RecentRow) (row : RecentRow)
    → length rows ≤ recent_keep
    → let recent = rows ++ row ∷ [] in
      reversed (
        if ltb recent_keep (length recent)
        then drop (length recent - recent_keep) recent
        else recent)
      ≡ take recent_keep (row ∷ reversed rows)
unfolding reversed
reversed_cut rows row h = elim (Bool-cases (ltb recent_keep (length (rows ++ row ∷ [])))) [
  | inr e ↦ rw e (
      reversed-append rows row
      ∙ sym (
          take_all recent_keep (row ∷ reversed rows)
            (ground (arith, length-append rows (row ∷ []), length-reversed rows))))
  | inl e ↦
      let full : length rows ≡ recent_keep = ground (arith, length-append rows (row ∷ [])) in
      rw e (cut rows full)
]
  where
    cut :
        (rows : List RecentRow)
        → length rows ≡ recent_keep
        → reversed (drop (length (rows ++ row ∷ []) - recent_keep) (rows ++ row ∷ []))
          ≡ take recent_keep (row ∷ reversed rows)
    cut [] full = absurd (omega (arith, full))
    cut (x ∷ rows) full =
        ap (λ n. reversed (drop n (x ∷ rows ++ row ∷ []))) one
        ∙ reversed-append rows row
        ∙ ap (◌∷◌ row) (
            sym (take-append_self (reversed rows) (x ∷ []))
            ∙ ap (λ n. take n (reversed rows ++ x ∷ [])) left)
      where
        one : length (x ∷ rows ++ row ∷ []) - recent_keep ≡ 1
        one = omega (arith, full, length-append rows (row ∷ []))

        left : length (reversed rows) ≡ 14
        left = omega (arith, full, length-reversed rows)

recent_all :
    (log : List (ℕ × RecentRow)) (s : StatsCollector)
    → s.recent ≡ []
    → reversed (after log s).recent ≡ take recent_keep (map (λ e. e.1) log)
unfolding record_row reversed
recent_all [] s h = rw h refl
recent_all ((now, row) ∷ log) s h =
    let rows : List RecentRow = map (λ e. e.1) log in
    let earlier : reversed (after log s).recent ≡ take recent_keep rows = recent_all log s h in
    let small : length (after log s).recent ≤ recent_keep = omega (
      arith,
      length-reversed (after log s).recent,
      ap length earlier,
      length-take recent_keep rows,
    ) in
    reversed_cut (after log s).recent row small
    ∙ ap (λ l. take recent_keep (row ∷ l)) earlier
    ∙ ap (◌∷◌ row) (take-take 14 recent_keep rows (omega arith))

-- A new collector with its radios, before any row.
abbrev pub with_radios : List (ℕ × ℕ) → StatsCollector → StatsCollector
with_radios [] s = s
with_radios ((device, freq_hz) ∷ radios) s = with_radios radios (add_radio device freq_hz s)

with_radios_kept :
    (radios : List (ℕ × ℕ)) (s : StatsCollector)
    → ((with_radios radios s).total ≡ s.total)
      × ((with_radios radios s).meters ≡ s.meters)
      × ((with_radios radios s).recent ≡ s.recent)
unfolding add_radio
with_radios_kept [] s = (refl, refl, refl)
with_radios_kept ((device, freq_hz) ∷ radios) s =
    with_radios_kept radios (add_radio device freq_hz s)

-- After any rows on a new collector with its radios: the total is the number of rows; each radio has
-- the number of its own rows and the time of the newest; the entry of each meter is what its own
-- rows say, whatever rows of others come between: their number, the worst leaks, and the newest
-- strength and time, and there is no entry without a row; and the rows kept are the newest fifteen.
pub after-counts :
    (now : ℕ) (mode : Bytes) (radios : List (ℕ × ℕ)) (log : List (ℕ × RecentRow)) (id : Bytes)
    → bytes_eq id [] ≡ false
    → let s = with_radios radios (new_stats_collector now mode) in
      ((after log s).total ≡ length log)
      × ((after log s).radios ≡ map (radio_stat log) s.radios)
      × (meter_of id (after log s).meters ≡ meter_stat id (rows_of id log))
      × (reversed (after log s).recent ≡ take recent_keep (map (λ e. e.1) log))
unfolding new_stats_collector
after-counts now mode radios log id ne =
    let s = with_radios radios (new_stats_collector now mode) in
    let (total, meters, recent) = with_radios_kept radios (new_stats_collector now mode) in
    (
      omega (arith, total_all log s, total),
      radios_all log s,
      meter_all id log s ne meters,
      recent_all log s recent,
    )
