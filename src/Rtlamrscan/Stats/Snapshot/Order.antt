-- ===== src/Rtlamrscan/Stats/Snapshot/Order.antt =====
-- The order in which the map of meters is walked does not show in a snapshot.
use mathlib.Core.List.{Permᴰ, Memᴰ}
use rtlamr.Base.{
  ℕ, List, [], ◌∷◌, Bool, true, false, not, if◌then◌else◌, take, All, ◌≡◌, sym, ap₂, ◌∙◌, ◌⊎◌, inl,
  inr, arith, Bool-cases,
}
use rtlamr.Base.Int.{ℤ, ltz, eqz}
use rtlamr.Base.Sort.{
  length-perm, Told, AllTold, sort-perm, perm-map, perm-keep, bytes_lt_asym, bytes_lt_trans,
  bytes_lt-Told,
}
use rtlamr.Base.Text.{Bytes, bytes_eq, bytes_eq_iff}
use rtlamr.Rtlamrscan.Stats.{
  RecentRow, MeterStat, StatsCollector, new_stats_collector, count_meter, new_meter, count_in,
  record_row, add_radio,
}
use rtlamr.Rtlamrscan.Stats.Counts.{after, with_radios}
use rtlamr.Rtlamrscan.Stats.Snapshot.{before, is_leaking, collect, snapshot}

-- No two entries have the same id.
abbrev Others : Bytes → List MeterStat → Type 0
Others id = All (λ m. bytes_eq id m.id ≡ false)

abbrev IsKeyed : List MeterStat → Type 0
IsKeyed [] = Unit
IsKeyed (m ∷ meters) = Others m.id meters × IsKeyed meters

count_in-Others :
    (id : Bytes) (now : ℕ) (row : RecentRow) (meters : List MeterStat)
    → bytes_eq id row.id ≡ false
    → Others id meters
    → Others id (count_in now row meters)
unfolding count_in count_meter new_meter
count_in-Others id now row [] h hs = (h, tt)
count_in-Others id now row (m ∷ meters) h (hm, hs) = elim (Bool-cases (bytes_eq m.id row.id)) [
  | inl e ↦ rw e (hm, hs)
  | inr e ↦ rw e (hm, count_in-Others id now row meters h hs)
]

count_in-IsKeyed :
    (now : ℕ) (row : RecentRow) (meters : List MeterStat)
    → IsKeyed meters
    → IsKeyed (count_in now row meters)
unfolding count_in count_meter new_meter
count_in-IsKeyed now row [] h = (tt, tt)
count_in-IsKeyed now row (m ∷ meters) (hm, hs) = elim (Bool-cases (bytes_eq m.id row.id)) [
  | inl e ↦ rw e (hm, hs)
  | inr e ↦ rw e (count_in-Others m.id now row meters e hm, count_in-IsKeyed now row meters hs)
]

after-IsKeyed :
    (log : List (ℕ × RecentRow)) (s : StatsCollector)
    → IsKeyed s.meters
    → IsKeyed (after log s).meters
unfolding record_row
after-IsKeyed [] s h = h
after-IsKeyed ((now, row) ∷ log) s h = elim (Bool-cases (bytes_eq row.id [])) [
  | inl e ↦ rw e (after-IsKeyed log s h)
  | inr e ↦ rw e (count_in-IsKeyed now row (after log s).meters (after-IsKeyed log s h))
]

with_radios-IsKeyed :
    (radios : List (ℕ × ℕ)) (s : StatsCollector)
    → IsKeyed s.meters
    → IsKeyed (with_radios radios s).meters
unfolding add_radio
with_radios-IsKeyed [] s h = h
with_radios-IsKeyed ((device, freq_hz) ∷ radios) s h =
    with_radios-IsKeyed radios (add_radio device freq_hz s) h

module _ (seconds : ℕ → ℕ) (now : ℕ) where
  collect-Others :
      (id : Bytes) (meters : List MeterStat)
      → Others id meters
      → Others id (collect seconds now meters)
  unfolding collect
  collect-Others id [] h = tt
  collect-Others id (m ∷ meters) (h, hs) = elim (Bool-cases (is_leaking seconds m)) [
    | inl e ↦ rw e (h, collect-Others id meters hs)
    | inr e ↦ rw e (collect-Others id meters hs)
  ]

  collect-IsKeyed :
      (meters : List MeterStat) → IsKeyed meters → IsKeyed (collect seconds now meters)
  unfolding collect
  collect-IsKeyed [] h = tt
  collect-IsKeyed (m ∷ meters) (h, hs) = elim (Bool-cases (is_leaking seconds m)) [
    | inl e ↦ rw e (collect-Others m.id meters h, collect-IsKeyed meters hs)
    | inr e ↦ rw e (collect-IsKeyed meters hs)
  ]

  collect-perm :
      (l r : List MeterStat) → Permᴰ l r → Permᴰ (collect seconds now l) (collect seconds now r)
  unfolding collect
  collect-perm l r d = perm-map _ (perm-keep (is_leaking seconds) d)

-- One level of the test: the larger number first, and the rest if they are equal.
abbrev level : ℤ → ℤ → Bool → Bool
level a b rest = if not (eqz a b) then ltz b a else rest

level_asym :
    (a b : ℤ) (rest rest' : Bool)
    → (rest ≡ true → rest' ≡ false)
    → level a b rest ≡ true
    → level b a rest' ≡ false
unfolding eqz ltz
level_asym a b rest rest' next h = ground arith

level_trans :
    (a b c : ℤ) (r s t : Bool)
    → (r ≡ true → s ≡ true → t ≡ true)
    → level a b r ≡ true
    → level b c s ≡ true
    → level a c t ≡ true
unfolding eqz ltz
level_trans a b c r s t next h k = ground arith

level_told :
    (a b : ℤ) (r s : Bool) → (r ≡ true) ⊎ (s ≡ true) → (level a b r ≡ true) ⊎ (level b a s ≡ true)
unfolding eqz ltz
level_told a b r s h = ground arith

before_asym : (a b : MeterStat) → before a b ≡ true → before b a ≡ false
unfolding before
before_asym a b =
    level_asym a.leak_now b.leak_now _ _ (level_asym a.leak b.leak _ _ (bytes_lt_asym a.id b.id))

before_trans : (a b c : MeterStat) → before a b ≡ true → before b c ≡ true → before a c ≡ true
unfolding before
before_trans a b c =
    level_trans a.leak_now b.leak_now c.leak_now _ _ _
      (level_trans a.leak b.leak c.leak _ _ _ (bytes_lt_trans a.id b.id c.id))

before-Told : (a b : MeterStat) → bytes_eq a.id b.id ≡ false → Told before a b
unfolding before
before-Told a b h = elim (bytes_lt-Told a.id b.id) [
  | inl e ↦ absurd (let same : true ≡ false = sym ((bytes_eq_iff a.id b.id).1 e) ∙ h in cc)
  | inr told ↦ inr (level_told a.leak_now b.leak_now _ _ (level_told a.leak b.leak _ _ told))
]

member_ne :
    (id : Bytes) (x : MeterStat) (meters : List MeterStat)
    → Others id meters
    → Memᴰ x meters
    → bytes_eq id x.id ≡ false
member_ne id x [] _ k = elim k [ ]
member_ne id x (m ∷ meters) (h, hs) (Memᴰ.head e) = rw e h
member_ne id x (m ∷ meters) (h, hs) (Memᴰ.tail k) = member_ne id x meters hs k

bytes_eq_flip : (s t : Bytes) → bytes_eq s t ≡ false → bytes_eq t s ≡ false
bytes_eq_flip s t h = elim (Bool-cases (bytes_eq t s)) [
  | inr e ↦ e
  | inl e ↦ absurd (
      let same : true ≡ false = sym ((bytes_eq_iff s t).1 (sym ((bytes_eq_iff t s).0 e))) ∙ h in cc)
]

IsKeyed-AllTold : (meters : List MeterStat) → IsKeyed meters → AllTold before meters
IsKeyed-AllTold [] _ x y k _ = elim k [ ]
IsKeyed-AllTold (m ∷ meters) (h, hs) x y (Memᴰ.head e) (Memᴰ.head e') = inl (e ∙ sym e')
IsKeyed-AllTold (m ∷ meters) (h, hs) x y (Memᴰ.head e) (Memᴰ.tail k) =
    before-Told x y (rw e (member_ne m.id y meters h k))
IsKeyed-AllTold (m ∷ meters) (h, hs) x y (Memᴰ.tail k) (Memᴰ.head e) =
    before-Told x y (bytes_eq_flip y.id x.id (rw e (member_ne m.id x meters h k)))
IsKeyed-AllTold (m ∷ meters) (h, hs) x y (Memᴰ.tail k) (Memᴰ.tail k') =
    IsKeyed-AllTold meters hs x y k k'

-- A snapshot of a collector that any rows have been recorded in is the same in whatever order its map
-- of meters is walked.
pub snapshot-perm :
    (seconds : ℕ → ℕ) (start now : ℕ) (mode : Bytes) (radios : List (ℕ × ℕ))
    (log : List (ℕ × RecentRow)) (order : List MeterStat)
    → Permᴰ (after log (with_radios radios (new_stats_collector start mode))).meters order
    → let s = after log (with_radios radios (new_stats_collector start mode)) in
      snapshot seconds now s.meters s ≡ snapshot seconds now order s
unfolding snapshot new_stats_collector
snapshot-perm seconds start now mode radios log order d =
    ap₂
      (λ (n : ℕ) (l : List MeterStat). record (snapshot seconds now s.meters s) {
        leaking_meters = n;
        leaking = take 100 l;
      })
      (length-perm walked)
      (sort-perm before before_asym before_trans walked
        (IsKeyed-AllTold (collect seconds now s.meters) keyed))
  where
    s : StatsCollector
    s = after log (with_radios radios (new_stats_collector start mode))

    walked : Permᴰ (collect seconds now s.meters) (collect seconds now order)
    walked = collect-perm seconds now s.meters order d

    keyed : IsKeyed (collect seconds now s.meters)
    keyed = collect-IsKeyed seconds now s.meters (
        after-IsKeyed log (with_radios radios (new_stats_collector start mode))
          (with_radios-IsKeyed radios (new_stats_collector start mode) tt))
